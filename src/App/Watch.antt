-- ===== src/App/Watch.antt =====
-- The changes that inotify reports (client/src/fs_notify.cpp). The buffer of read(2) is the list of
-- the events in it; the name of an event is padded with zeros up to its length.
use trabalho_sistemas_operac.Prelude.{
  ℕ, ◌==◌, ◌||◌, not, Bool, List, [], ◌∷◌, if◌then◌else◌, bit_and,
}
use trabalho_sistemas_operac.App.{
  Process, Outcome, returned, Host, notify_new_file, notify_modified, notify_deleted,
}

-- `struct inotify_event`; the name has `len` bytes.
pub record InotifyEvent : Type 0 where
  pub mask : ℕ
  pub name : List ℕ

-- The flags of <sys/inotify.h>.
abbrev pub in_modify : ℕ
in_modify = 2

abbrev pub in_close_write : ℕ
in_close_write = 8

abbrev pub in_moved_from : ℕ
in_moved_from = 64

abbrev pub in_moved_to : ℕ
in_moved_to = 128

abbrev pub in_create : ℕ
in_create = 256

abbrev pub in_delete : ℕ
in_delete = 512

abbrev pub has_flag : ℕ → ℕ → Bool
has_flag mask flag = not (bit_and mask flag == 0)

abbrev pub is_modified : ℕ → Bool
is_modified mask = has_flag mask in_modify || has_flag mask in_close_write

abbrev pub is_created : ℕ → Bool
is_created mask = has_flag mask in_create || has_flag mask in_moved_to

abbrev pub is_deleted : ℕ → Bool
is_deleted mask = has_flag mask in_delete || has_flag mask in_moved_from

module _ {D : Type 0} where
  abbrev pub in_turn : Outcome D → (Process D → Outcome D) → Outcome D
  in_turn (returned p) k = k p
  in_turn Outcome.waits k = Outcome.waits
  in_turn Outcome.faults k = Outcome.faults

  abbrev pub when : Bool → (Process D → Outcome D) → Process D → Outcome D
  when test k p = if test then k p else returned p

  module _ (host : Host D) where
    -- `modified`, `created` and `deleted` make a string of all the bytes of the name.
    unfoldable pub handle_event : InotifyEvent → Process D → Outcome D
    unfolding notify_modified notify_new_file notify_deleted
    handle_event event p =
        in_turn
          (in_turn (when (is_modified event.mask) (notify_modified host event.name) p)
            (when (is_created event.mask) (notify_new_file host event.name)))
          (when (is_deleted event.mask) (notify_deleted host event.name))

    -- The events of a call of read(2), in their order.
    unfoldable pub handle_events : List InotifyEvent → Process D → Outcome D
    unfolding handle_event
    handle_events [] p = returned p
    handle_events (event ∷ events) p = in_turn (handle_event event p) (handle_events events)

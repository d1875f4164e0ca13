-- ===== src/App/Padded.antt =====
-- The names that inotify pads with zeros (client/src/fs_notify.cpp) are not those that come from the
-- network (client/src/app.cpp).
use trabalho_sistemas_operac.Prelude.{
  ℕ, ◌≡◌, ◌∙◌, refl, ap, sym, subst, Bool, true, false, Bool-cases, inl, inr, Option, none, some,
  List, [], ◌∷◌, ◌++◌, bytes_eq, eq_of_bytes_eq, arith, All, All-right, ◌≢◌,
}
use trabalho_sistemas_operac.Net.Writer.Word.{IsText}
use trabalho_sistemas_operac.Queue.Order.{free}
use trabalho_sistemas_operac.App.{
  Task, Process, Outcome, returned, Host, c_str, lookup, insert, erase, changed, path_file,
  new_task, upload_task, hash_file, upload_changed, notify_modified, notify_new_file,
  notify_deleted, network_modified, network_deleted, task_upload, task_delete, post, delete_task,
  push_task, forget_deleted, remove_known,
}
use trabalho_sistemas_operac.App.Known.{
  IsIdle, with_mutex_lem, with_task, push_task_lem, taken, network_modified_lem,
  lookup-insert_other, lookup-erase_other,
}
use trabalho_sistemas_operac.App.Watch.{
  InotifyEvent, in_modify, in_turn, when, handle_event, handle_events, is_modified, is_created,
  is_deleted,
}

-- A name with at least one zero behind it, as inotify gives it.
abbrev pub IsPadded : List ℕ → Type 0
IsPadded name = (stem pad : List ℕ) × (name ≡ stem ++ (0 ∷ pad))

text_ne : (name f : List ℕ) → IsText f → IsPadded name → f ≢ name
text_ne name f t (stem, pad, e) =
    λ same. (All-right (λ c. c ≢ 0) stem (0 ∷ pad) (subst IsText (same ∙ e) t)).0 refl

padded_ne : (name f : List ℕ) → IsText f → IsPadded name → bytes_eq name f ≡ false
padded_ne name f t padded = elim (Bool-cases (bytes_eq name f)) [
  | inl h ↦ absurd (text_ne name f t padded (sym (eq_of_bytes_eq name f h)))
  | inr h ↦ h
]

padded_ne_text : (name f : List ℕ) → IsText f → IsPadded name → bytes_eq f name ≡ false
padded_ne_text name f t padded = elim (Bool-cases (bytes_eq f name)) [
  | inl h ↦ absurd (text_ne name f t padded (eq_of_bytes_eq f name h))
  | inr h ↦ h
]

c_str_padded : (f pad : List ℕ) → IsText f → c_str (f ++ (0 ∷ pad)) ≡ f
unfolding c_str
c_str_padded [] pad t = refl
c_str_padded (c ∷ f) pad t = ground (arith, t.0, c_str_padded f pad t.1)

module _ {D : Type 0} where
  -- No thread is in `App` or in the queue of tasks, and the file has no hash.
  pub record Unknown (f : List ℕ) (p : Process D) : Type 0 where
    pub mutex : p.mutex ≡ 1
    pub tasks : List (ℕ × Task)
    pub queue : p.task_queue ≡ free tasks
    pub none_known : lookup f p.dir_hash ≡ none

  -- A call that returns, and changes neither that nor the disk.
  abbrev pub Leaves : List ℕ → Process D → Outcome D → Type 0
  Leaves f p o = (p' : Process D) × (o ≡ returned p') × Unknown f p' × (p'.disk ≡ p.disk)

  Leaves-self : (f : List ℕ) (p : Process D) → Unknown f p → Leaves f p (returned p)
  Leaves-self f p u = (p, refl, u, refl)

  Leaves-in_turn :
      (f : List ℕ) (p : Process D) (o : Outcome D) (k : Process D → Outcome D)
      → Leaves f p o
      → ((q : Process D) → Unknown f q → Leaves f q (k q))
      → Leaves f p (in_turn o k)
  Leaves-in_turn f p o k (q, e, u, d) h =
      let (r, e', u', d') = h q u in (r, ap (λ o. in_turn o k) e ∙ e', u', d' ∙ d)

  Leaves-when :
      (f : List ℕ) (test : Bool) (k : Process D → Outcome D) (p : Process D)
      → Unknown f p
      → Leaves f p (k p)
      → Leaves f p (when test k p)
  Leaves-when f true k p u l = l
  Leaves-when f false k p u l = Leaves-self f p u

  module _ (host : Host D) (f name : List ℕ) (p : Process D) (u : Unknown f p)
      (other : bytes_eq name f ≡ false) where
    abbrev locked : Process D
    locked = record p { mutex = 0 }

    queue_still :
        (dir_hash : List (List ℕ × ℕ)) (type : ℕ) (filename path : List ℕ)
        → lookup f dir_hash ≡ none
        → Leaves f p
            (post (push_task type filename path (record p { mutex = 0; dir_hash = dir_hash })))
    unfolding post
    queue_still dir_hash type filename path e =
        let q : Process D = record p { mutex = 0; dir_hash = dir_hash } in
        let task : Task = new_task type filename path q in
        (
          record (with_task q task u.tasks) { mutex = 1 },
          ap post (push_task_lem type filename path q u.tasks u.queue),
          record {
            mutex = refl;
            tasks = u.tasks ++ (p.last_task_id, task) ∷ [];
            queue = refl;
            none_known = e;
          },
          refl,
        )

    free_still : Leaves f p (post (returned locked))
    unfolding post
    free_still = (
      record p { mutex = 1 },
      refl,
      record { mutex = refl; tasks = u.tasks; queue = u.queue; none_known = u.none_known },
      refl,
    )

    upload_changed-Leaves : Leaves f p (post (upload_changed host name locked))
    unfolding upload_changed upload_task
    upload_changed-Leaves =
        elim (Bool-cases (changed (lookup name p.dir_hash) (hash_file host name locked))) [
          | inl e ↦ rw e (
              queue_still (insert name (hash_file host name locked) p.dir_hash) task_upload name
                (path_file name p) (lookup-insert_other f name _ p.dir_hash other ∙ u.none_known))
          | inr e ↦ rw e free_still
        ]

    notify_modified-Leaves : Leaves f p (notify_modified host name p)
    unfolding notify_modified
    notify_modified-Leaves =
        rw (with_mutex_lem (upload_changed host name) p u.mutex) upload_changed-Leaves

    notify_new_file-Leaves : Leaves f p (notify_new_file host name p)
    unfolding notify_new_file
    notify_new_file-Leaves =
        rw (with_mutex_lem (upload_changed host name) p u.mutex) upload_changed-Leaves

    notify_deleted-Leaves : Leaves f p (notify_deleted host name p)
    unfolding notify_deleted forget_deleted delete_task
    notify_deleted-Leaves =
        rw (with_mutex_lem (forget_deleted host name) p u.mutex) (go (lookup name p.dir_hash))
      where
        go :
            (known : Option ℕ)
            → Leaves f p (
                post (elim known [
                  | none ↦ returned locked
                  | some hash ↦
                      delete_task name (record locked { dir_hash = erase name p.dir_hash })
                ]))
        go none = free_still
        go (some hash) =
            queue_still (erase name p.dir_hash) task_delete name name
              (lookup-erase_other f name p.dir_hash other ∙ u.none_known)

  -- A file that is new to `notify_modified`, before its task is pushed.
  abbrev noticed : Host D → List ℕ → Process D → Process D
  noticed host name p = record p {
    mutex = 0;
    dir_hash = insert name (hash_file host name (record p { mutex = 0 })) p.dir_hash;
  }

  notify_modified_new :
      (host : Host D) (name : List ℕ) (p : Process D) (tasks : List (ℕ × Task))
      → p.mutex ≡ 1
      → p.task_queue ≡ free tasks
      → lookup name p.dir_hash ≡ none
      → notify_modified host name p
        ≡ returned
            (record (with_task
              (noticed host name p)
              (new_task task_upload name (path_file name p) p)
              tasks) { mutex = 1 })
  unfolding notify_modified upload_changed upload_task post
  notify_modified_new host name p tasks m q unknown =
      with_mutex_lem (upload_changed host name) p m
      ∙ rw (unknown, upload_changed)
          (ap post
            (push_task_lem task_upload name (path_file name p) (noticed host name p) tasks q))

  module _ (host : Host D) (f : List ℕ) (text : IsText f) where
    handle_event-Leaves :
        (event : InotifyEvent) (p : Process D)
        → IsPadded event.name
        → Unknown f p
        → Leaves f p (handle_event host event p)
    unfolding handle_event
    handle_event-Leaves event p padded u =
        let other = padded_ne event.name f text padded in
        let first : Outcome D = when (is_modified event.mask) (notify_modified host event.name) p in
        let second : Process D → Outcome D =
          when (is_created event.mask) (notify_new_file host event.name) in
        let third : Process D → Outcome D =
          when (is_deleted event.mask) (notify_deleted host event.name) in
        Leaves-in_turn f p (in_turn first second) third
          (Leaves-in_turn f p first second
            (Leaves-when f (is_modified event.mask) (notify_modified host event.name) p u
              (notify_modified-Leaves host f event.name p u other))
            (λ q v.
              Leaves-when f (is_created event.mask) (notify_new_file host event.name) q v
                (notify_new_file-Leaves host f event.name q v other)))
          (λ q v.
            Leaves-when f (is_deleted event.mask) (notify_deleted host event.name) q v
              (notify_deleted-Leaves host f event.name q v other))

    handle_events-Leaves :
        (events : List InotifyEvent) (p : Process D)
        → All (λ event. IsPadded event.name) events
        → Unknown f p
        → Leaves f p (handle_events host events p)
    unfolding handle_events
    handle_events-Leaves [] p h u = Leaves-self f p u
    handle_events-Leaves (event ∷ events) p h u =
        Leaves-in_turn f p (handle_event host event p) (handle_events host events)
          (handle_event-Leaves event p h.0 u) (λ q v. handle_events-Leaves events q h.1 v)

    network_deleted-Unknown : (p : Process D) → Unknown f p → network_deleted host f p ≡ returned p
    unfolding network_deleted remove_known post
    network_deleted-Unknown p u =
        with_mutex_lem (remove_known host f) p u.mutex
        ∙ rw (u.none_known, remove_known)
            (ap (λ k. returned (record p { mutex = k })) (sym u.mutex))

    -- With no thread in `App` or in the queue of tasks, and a name with no 0 in it that has no
    -- hash: whatever events are handled, if the names of all are padded with zeros, all calls
    -- return, and `network_deleted` of the name then changes nothing, and the disk is as it was.
    pub handle_events-network_deleted :
        (events : List InotifyEvent) (p : Process D) (tasks : List (ℕ × Task))
        → All (λ event. IsPadded event.name) events
        → IsIdle tasks p
        → lookup f p.dir_hash ≡ none
        → (p' : Process D) × (handle_events host events p ≡ returned p')
          × (network_deleted host f p' ≡ returned p')
          × (p'.disk ≡ p.disk)
    handle_events-network_deleted events p tasks h idle unknown =
        let (p', e, u, d) = handle_events-Leaves events p h (record {
          mutex = idle.mutex;
          tasks = tasks;
          queue = idle.queue;
          none_known = unknown;
        }) in
        (p', e, network_deleted-Unknown p' u, d)

    -- With no thread in `App` or in the queue of tasks, and with a name with no 0 in it: after
    -- `network_modified` has written the file, an event that it was modified, whose name is padded
    -- with zeros and not known yet, pushes a task that uploads that file.
    pub network_modified-handle_event :
        (p : Process D) (buf pad : List ℕ) (disk' : D) (tasks : List (ℕ × Task))
        → IsIdle tasks p
        → lookup (f ++ (0 ∷ pad)) p.dir_hash ≡ none
        → changed (lookup f p.dir_hash) (host.hasher buf) ≡ true
        → host.netfs.write_file (c_str (path_file f p)) buf p.disk ≡ (true, disk')
        → (p' : Process D) × (p'' : Process D) × (task : Task) × (network_modified host f buf p
            ≡ returned p')
          × (handle_event host (record { mask = in_modify; name = f ++ (0 ∷ pad) }) p'
              ≡ returned p'')
          × (p''.task_queue ≡ free (tasks ++ (p.last_task_id, task) ∷ []))
          × (task.type ≡ task_upload)
          × (c_str task.filename ≡ f)
    unfolding handle_event notify_modified upload_changed upload_task post
    network_modified-handle_event p buf pad disk' tasks idle unknown c w =
        let name : List ℕ = f ++ (0 ∷ pad) in
        let other : bytes_eq f name ≡ false = padded_ne_text name f text (f, pad, refl) in
        let p' : Process D = taken host f buf disk' p in
        let q : Process D = noticed host name p' in
        let task : Task = new_task task_upload name (path_file name q) q in
        (
          p',
          record (with_task q task tasks) { mutex = 1 },
          task,
          network_modified_lem host p f buf disk' idle.mutex c w,
          ap (λ o. in_turn (in_turn o returned) returned)
              (notify_modified_new host name p' tasks refl idle.queue
                (lookup-insert_other name f (host.hasher buf) p.dir_hash other ∙ unknown)),
          refl,
          refl,
          c_str_padded f pad text,
        )

-- ===== src/Session/Events.antt =====
-- Names of files in the events that wait for clients: what a server writes to its clients as text.
use trabalho_sistemas_operac.Prelude.{
  false, true, false, zero, suc, ◌++◌, ◌-◌, length, ℕ, Option, none, some, List, [], ◌∷◌, ◌==◌, All,
  All-append, Bool-cases, inl, inr, bytes_eq, Bool, suc, ltb, if◌then◌else◌, true,
}
use trabalho_sistemas_operac.Protocol.{FileEvent}
use trabalho_sistemas_operac.Net.Writer.Word.{IsText}
use trabalho_sistemas_operac.Clients.{
  Client, broadcast, get_event, client_get_event, erase_at, erase_loop, erase_invalid, can_connect,
  client_new, new_client, count_clients, max_active_connections, invalid_from,
}
use trabalho_sistemas_operac.Session.{take_event}

abbrev pub AllText : List FileEvent → Type 0
AllText = All (λ e. IsText e.filename)

-- No file name that waits for a client has a 0 in it.
abbrev pub TextEvents : List Client → Type 0
TextEvents = All (λ c. AllText c.pending_events)

abbrev pub TextEvent : Option FileEvent → Type 0
TextEvent none = Unit
TextEvent (some e) = IsText e.filename

pub broadcast-TextEvents :
    (username : List ℕ) (event : FileEvent) (clients : List Client)
    → IsText event.filename
    → TextEvents clients
    → TextEvents (broadcast username event clients)
unfolding broadcast
broadcast-TextEvents username event [] t h = tt
broadcast-TextEvents username event (c ∷ clients) t h = (
  elim (Bool-cases (bytes_eq c.username username)) [
    | inl e ↦ rw e (All-append (λ e. IsText e.filename) c.pending_events (event ∷ []) h.0 (t, tt))
    | inr e ↦ rw e (h.0)
  ],
  broadcast-TextEvents username event clients t h.1,
)

get_event-AllText :
    (events : List FileEvent) (c : Client)
    → AllText events
    → AllText c.pending_events
    → TextEvent (get_event events c).0 × AllText (get_event events c).1.pending_events
unfolding get_event
get_event-AllText [] c h k = (tt, k)
get_event-AllText (event ∷ events) c h k = (h.0, h.1)

pub take_event-TextEvents :
    (connection_id : ℕ) (clients : List Client)
    → TextEvents clients
    → TextEvent (take_event connection_id clients).0
      × TextEvents (take_event connection_id clients).1
unfolding take_event client_get_event
take_event-TextEvents connection_id [] h = (tt, tt)
take_event-TextEvents connection_id (c ∷ clients) h =
    let now = get_event-AllText c.pending_events c h.0 h.0 in
    let later = take_event-TextEvents connection_id clients h.1 in
    elim (Bool-cases (c.connection_id == connection_id)) [
      | inl e ↦ rw e (now.0, (now.1, h.1))
      | inr e ↦ rw e (later.0, (h.0, later.1))
    ]

-- A client list that a call may have left, where it is defined.
abbrev pub Texts : Option (List Client) → Type 0
Texts none = Unit
Texts (some clients) = TextEvents clients

erase_at-TextEvents :
    (i : ℕ) (clients : List Client) → TextEvents clients → TextEvents (erase_at i clients)
unfolding erase_at
erase_at-TextEvents i [] h = h
erase_at-TextEvents zero (c ∷ clients) h = h.1
erase_at-TextEvents (suc i) (c ∷ clients) h = (h.0, erase_at-TextEvents i clients h.1)

erase_loop-Texts :
    (invalid : List ℕ) (i : ℕ) (clients : List Client)
    → TextEvents clients
    → Texts (erase_loop invalid i clients)
unfolding erase_loop
erase_loop-Texts invalid zero clients h = tt
erase_loop-Texts invalid (suc i) clients h =
    erase_loop-Texts invalid i _ (erase_at-TextEvents _ clients h)

erase_invalid-Texts :
    (invalid : List ℕ) (clients : List Client)
    → TextEvents clients
    → Texts (erase_invalid invalid clients)
unfolding erase_invalid
erase_invalid-Texts invalid clients h = elim (Bool-cases (ltb 0 (length invalid))) [
  | inl e ↦ rw e (erase_loop-Texts invalid (length invalid - 1) clients h)
  | inr e ↦ rw e h
]

abbrev pub Allowed : Option (Bool × List Client) → Type 0
Allowed none = Unit
Allowed (some (allowed, clients)) = TextEvents clients

can_connect-Allowed :
    (so_error : ℕ → ℕ) (username : List ℕ) (clients : List Client)
    → TextEvents clients
    → Allowed (can_connect so_error username clients)
unfolding can_connect
can_connect-Allowed so_error username clients h =
    go _ (erase_invalid-Texts (invalid_from so_error 0 clients) clients h)
  where
    go :
        (kept : Option (List Client))
        → Texts kept
        → Allowed (elim kept [
          | none ↦ none
          | some kept ↦ some (ltb (count_clients username kept) max_active_connections, kept)
        ])
    go none t = tt
    go (some kept) t = t

-- A new client has no events yet.
pub client_new-Allowed :
    (so_error : ℕ → ℕ) (username : List ℕ) (connection_id sockfd : ℕ) (from_primary : Bool)
    (clients : List Client)
    → TextEvents clients
    → Allowed (client_new so_error username connection_id sockfd from_primary clients)
unfolding client_new new_client
client_new-Allowed so_error username connection_id sockfd true clients h =
    All-append (λ c. AllText c.pending_events) clients (_ ∷ []) h (tt, tt)
client_new-Allowed so_error username connection_id sockfd false clients h =
    go _ (can_connect-Allowed so_error username clients h)
  where
    go :
        (x : Option (Bool × List Client))
        → Allowed x
        → Allowed (elim x [
          | none ↦ none
          | some (allowed, kept) ↦
              if allowed
              then some (true, kept ++ new_client username connection_id sockfd false ∷ [])
              else some (false, kept)
        ])
    go none t = tt
    go (some (true, kept)) t = All-append (λ c. AllText c.pending_events) kept (_ ∷ []) t (tt, tt)
    go (some (false, kept)) t = t

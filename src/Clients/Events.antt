-- ===== src/Clients/Events.antt =====
-- The events that a client waits for: each one once, in the order of the broadcasts.
use trabalho_sistemas_operac.Prelude.{
  ap₂, length, refl, sym, ap, ◌∙◌, ℕ, zero, suc, ◌≡◌, none, some, List, [], ◌∷◌, ◌++◌,
  if◌then◌else◌, map, arith, bytes_eq, append_assoc, append-nil, Bool-cases, inl, inr, ◌≤◌, All,
}
use trabalho_sistemas_operac.Protocol.{FileEvent}
use trabalho_sistemas_operac.Clients.{Client, broadcast, client_get_event, get_event, length}

-- A broadcast: the user, and the event.
abbrev pub Broadcast : Type 0
Broadcast = List ℕ × FileEvent

unfoldable pub broadcasts : List Broadcast → List Client → List Client
broadcasts [] clients = clients
broadcasts ((username, event) ∷ rest) clients = broadcasts rest (broadcast username event clients)

-- The events of the broadcasts that are for `username`.
unfoldable pub events_for : List ℕ → List Broadcast → List FileEvent
events_for username [] = []
events_for username ((name, event) ∷ rest) =
    let later = events_for username rest in if bytes_eq username name then event ∷ later else later

abbrev pub told : List Broadcast → Client → Client
told bs c = record c { pending_events = c.pending_events ++ events_for c.username bs }

told_one :
    (name : List ℕ) (event : FileEvent) (rest : List Broadcast) (c : Client)
    → told rest (
        if bytes_eq c.username name
        then record c { pending_events = c.pending_events ++ event ∷ [] }
        else c)
      ≡ told ((name, event) ∷ rest) c
unfolding events_for
told_one name event rest c = elim (Bool-cases (bytes_eq c.username name)) [
  | inl e ↦ rw e (
      ap (λ es. record c { pending_events = es })
        (append_assoc c.pending_events (event ∷ []) (events_for c.username rest)))
  | inr e ↦ rw e refl
]

map-broadcast :
    (name : List ℕ) (event : FileEvent) (rest : List Broadcast) (clients : List Client)
    → map (told rest) (broadcast name event clients) ≡ map (told ((name, event) ∷ rest)) clients
unfolding broadcast
map-broadcast name event rest [] = refl
map-broadcast name event rest (c ∷ clients) =
    ap₂ ◌∷◌ (told_one name event rest c) (map-broadcast name event rest clients)

told-nil : (c : Client) → told [] c ≡ c
unfolding events_for
told-nil c = ap (λ es. record c { pending_events = es }) (append-nil c.pending_events)

map-told-nil : (clients : List Client) → map (told []) clients ≡ clients
map-told-nil [] = refl
map-told-nil (c ∷ clients) = ap₂ ◌∷◌ (told-nil c) (map-told-nil clients)

-- After any broadcasts every client has, behind its old events, exactly the events for its user, in
-- order; nothing else of the list changes.
pub broadcasts_lem :
    (bs : List Broadcast) (clients : List Client) → broadcasts bs clients ≡ map (told bs) clients
unfolding broadcasts
broadcasts_lem [] clients = sym (map-told-nil clients)
broadcasts_lem ((name, event) ∷ rest) clients =
    broadcasts_lem rest (broadcast name event clients) ∙ map-broadcast name event rest clients

-- Calls of `client_get_event` until there is no event, as many as `n`.
unfoldable pub drain : ℕ → Client → List FileEvent
drain zero c = []
drain (suc n) c =
    let (found, c') = client_get_event c in
    elim found [ none ↦ [] | some event ↦ event ∷ drain n c' ]

drain-list :
    (n : ℕ) (events : List FileEvent) (c : Client)
    → c.pending_events ≡ events
    → length events ≤ n
    → drain n c ≡ events
unfolding drain client_get_event get_event
drain-list zero [] c e h = refl
drain-list (suc n) [] c e h = rw (e, get_event) refl
drain-list zero (event ∷ events) c e h = elim h [ ]
drain-list (suc n) (event ∷ events) c e h =
    rw (e, get_event)
      (ap (◌∷◌ event)
        (drain-list n events (record c { pending_events = events }) refl (omega arith)))

length-events_for :
    (username : List ℕ) (bs : List Broadcast) → length (events_for username bs) ≤ length bs
unfolding events_for
length-events_for username [] = omega arith
length-events_for username ((name, event) ∷ rest) = ground (arith, length-events_for username rest)

drain-told :
    (n : ℕ) (bs : List Broadcast) (clients : List Client)
    → All (λ c. c.pending_events ≡ []) clients
    → length bs ≤ n
    → map (drain n) (map (told bs) clients) ≡ map (λ c. events_for c.username bs) clients
drain-told n bs [] h k = refl
drain-told n bs (c ∷ clients) h k =
    ap₂ ◌∷◌
      (drain-list n (events_for c.username bs) (told bs c)
        (ap (λ es. es ++ events_for c.username bs) (h.0))
        (omega (arith, length-events_for c.username bs)))
      (drain-told n bs clients h.1 k)

-- For clients that waited for nothing, after any broadcasts, as many calls of `client_get_event` as
-- there were broadcasts give each client exactly the events for its user, each one once, in the
-- order of the broadcasts.
pub drain-broadcasts :
    (n : ℕ) (bs : List Broadcast) (clients : List Client)
    → All (λ c. c.pending_events ≡ []) clients
    → length bs ≤ n
    → map (drain n) (broadcasts bs clients) ≡ map (λ c. events_for c.username bs) clients
drain-broadcasts n bs clients h k = rw (broadcasts_lem bs clients) (drain-told n bs clients h k)

-- ===== src/Clients/Safe.antt =====
-- Runs of the client list whose sockets report no error (server/src/client.cpp).
use trabalho_sistemas_operac.Prelude.{
  refl, ℕ, ◌≡◌, inl, inr, true, false, some, List, [], ◌∷◌, ◌++◌, All, ltb, ◌==◌, Bool-cases,
}
use trabalho_sistemas_operac.Clients.{
  Client, client_is_valid, client_remove, broadcast, count_clients, new_client,
  max_active_connections, bytes_eq,
}
use trabalho_sistemas_operac.Clients.Limit.{
  Call, connect, leave, tell, step, run, WithinLimit, run-WithinLimit,
}
use trabalho_sistemas_operac.Clients.Faults.{all_valid, client_new_cases}
use trabalho_sistemas_operac.Protocol.{FileEvent}

-- The threads have taken note of no closed connection.
abbrev pub AllActive : List Client → Type 0
AllActive = All (λ c. c.active ≡ true)

abbrev quiet : ℕ → ℕ
quiet sockfd = 0

AllActive-valid : (clients : List Client) → AllActive clients → all_valid quiet clients ≡ true
unfolding all_valid client_is_valid
AllActive-valid [] h = refl
AllActive-valid (c ∷ clients) h = rw (h.0) (AllActive-valid clients h.1)

AllActive-snoc :
    (clients : List Client) (c : Client)
    → AllActive clients
    → c.active ≡ true
    → AllActive (clients ++ c ∷ [])
AllActive-snoc [] c h k = (k, tt)
AllActive-snoc (d ∷ clients) c h k = (h.0, AllActive-snoc clients c h.1 k)

AllActive-remove :
    (id : ℕ) (clients : List Client) → AllActive clients → AllActive (client_remove id clients)
unfolding client_remove
AllActive-remove id [] h = tt
AllActive-remove id (c ∷ clients) h = elim (Bool-cases (c.connection_id == id)) [
  | inl e ↦ rw e (h.1)
  | inr e ↦ rw e (h.0, AllActive-remove id clients h.1)
]

AllActive-broadcast :
    (username : List ℕ) (event : FileEvent) (clients : List Client)
    → AllActive clients
    → AllActive (broadcast username event clients)
unfolding broadcast
AllActive-broadcast username event [] h = tt
AllActive-broadcast username event (c ∷ clients) h = (
  elim (Bool-cases (bytes_eq c.username username)) [ inl e ↦ rw e (h.0) | inr e ↦ rw e (h.0) ],
  AllActive-broadcast username event clients h.1,
)

-- One call.
step-AllActive :
    (clients : List Client) (call : Call)
    → AllActive clients
    → (after : List Client) × (step quiet clients call ≡ some after) × AllActive after
unfolding step
step-AllActive clients (connect username id sockfd true) h = (
  clients ++ new_client username id sockfd true ∷ [],
  rw (client_new_cases quiet username id sockfd true clients) refl,
  unfold new_client in AllActive-snoc clients (new_client username id sockfd true) h refl,
)
step-AllActive clients (connect username id sockfd false) h =
    elim (Bool-cases (ltb (count_clients username clients) max_active_connections)) [
      | inl room ↦ (
        clients ++ new_client username id sockfd false ∷ [],
        rw (client_new_cases quiet username id sockfd false clients)
            (rw (AllActive-valid clients h, room) refl),
        unfold new_client in AllActive-snoc clients (new_client username id sockfd false) h refl,
      )
      | inr full ↦ (
        clients,
        rw (client_new_cases quiet username id sockfd false clients)
            (rw (AllActive-valid clients h, full) refl),
        h,
      )
    ]
step-AllActive clients (leave id) h =
    (client_remove id clients, refl, AllActive-remove id clients h)
step-AllActive clients (tell username event) h =
    (broadcast username event clients, refl, AllActive-broadcast username event clients h)

run-AllActive :
    (clients : List Client) (calls : List Call)
    → AllActive clients
    → (after : List Client) × (run quiet clients calls ≡ some after) × AllActive after
unfolding run
run-AllActive clients [] h = (clients, refl, h)
run-AllActive clients (call ∷ calls) h =
    let first = step-AllActive clients call h in
    let rest = run-AllActive (first.0) calls first.2 in (rest.0, rw (first.1, run) (rest.1), rest.2)

-- Where no socket reports an error, any calls of the threads are well defined from a list of active
-- clients within the limit, and end in such a list.
pub run-returns :
    (clients : List Client) (calls : List Call)
    → AllActive clients
    → WithinLimit clients
    → (after : List Client) × (run (λ sockfd. 0) clients calls ≡ some after)
      × AllActive after
      × WithinLimit after
run-returns clients calls h k =
    let r = run-AllActive clients calls h in
    (r.0, r.1, r.2, run-WithinLimit quiet clients calls r.0 (r.1) k)

-- ===== src/Clients/Faults.antt =====
-- When a client is let in, when it is refused, and when `client_new` is undefined.
use trabalho_sistemas_operac.Prelude.{
  refl, ℕ, ◌+◌, ◌≡◌, Bool, true, false, not, ◌&&◌, none, some, List, [], ◌∷◌, ◌++◌, ltb,
  if◌then◌else◌, length, arith, Bool-cases, inl, inr, lt→ltb,
}
use trabalho_sistemas_operac.Clients.{
  Client, invalid_from, can_connect, client_new, client_is_valid, erase_invalid, new_client,
  count_clients, max_active_connections,
}
use trabalho_sistemas_operac.Clients.Limit.{erase_loop-none}

unfoldable pub all_valid : (ℕ → ℕ) → List Client → Bool
all_valid so_error [] = true
all_valid so_error (c ∷ clients) = client_is_valid so_error c && all_valid so_error clients

invalid_from-length :
    (so_error : ℕ → ℕ) (i : ℕ) (clients : List Client)
    → ltb 0 (length (invalid_from so_error i clients)) ≡ not (all_valid so_error clients)
unfolding invalid_from all_valid
invalid_from-length so_error i [] = refl
invalid_from-length so_error i (c ∷ clients) = elim (Bool-cases (client_is_valid so_error c)) [
  | inl e ↦ rw e (invalid_from-length so_error (i + 1) clients)
  | inr e ↦ rw e (lt→ltb 0 _ (omega arith))
]

erase_invalid_cases :
    (so_error : ℕ → ℕ) (clients : List Client)
    → erase_invalid (invalid_from so_error 0 clients) clients
      ≡ (if all_valid so_error clients then some clients else none)
unfolding erase_invalid
erase_invalid_cases so_error clients = elim (Bool-cases (all_valid so_error clients)) [
  | inl e ↦ rw (e, invalid_from-length so_error 0 clients, e) refl
  | inr e ↦ rw (e, invalid_from-length so_error 0 clients, e) (erase_loop-none _ _ clients)
]

-- With one invalid client in the list, whoever it belongs to, `can_connect` is undefined; otherwise
-- it answers whether the user has fewer than two clients, and keeps the list.
can_connect_cases :
    (so_error : ℕ → ℕ) (username : List ℕ) (clients : List Client)
    → can_connect so_error username clients ≡ (
        if all_valid so_error clients
        then some (ltb (count_clients username clients) max_active_connections, clients)
        else none)
unfolding can_connect
can_connect_cases so_error username clients = elim (Bool-cases (all_valid so_error clients)) [
  | inl e ↦ rw (erase_invalid_cases so_error clients, can_connect) (rw e refl)
  | inr e ↦ rw (erase_invalid_cases so_error clients, can_connect) (rw e refl)
]

-- `client_new` always adds a primary server at the end. Any other client is undefined behaviour if
-- a client of the list is invalid; otherwise it is added at the end if its user has fewer than two
-- clients, and refused with the list as it was if not.
pub client_new_cases :
    (so_error : ℕ → ℕ) (username : List ℕ) (id sockfd : ℕ) (from_primary : Bool)
    (clients : List Client)
    → let c = new_client username id sockfd from_primary in
      client_new so_error username id sockfd from_primary clients ≡ (
        if from_primary
        then some (true, clients ++ c ∷ [])
        else if all_valid so_error clients
        then (if ltb (count_clients username clients) max_active_connections
            then some (true, clients ++ c ∷ [])
            else some (false, clients))
        else none)
unfolding client_new
client_new_cases so_error username id sockfd true clients = refl
client_new_cases so_error username id sockfd false clients =
    elim (Bool-cases (all_valid so_error clients)) [
      | inl e ↦ rw (can_connect_cases so_error username clients, client_new) (rw e refl)
      | inr e ↦ rw (can_connect_cases so_error username clients, client_new) (rw e refl)
    ]

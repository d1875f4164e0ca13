-- ===== src/Examples/Clients.antt =====
-- The theorems on the list of clients, on two users.
use trabalho_sistemas_operac.Prelude.{
  refl, ◌≡◌, [], ◌∷◌, arith, some, none, List, true, false, map, ltb, if◌then◌else◌, bytes_eq,
}
use trabalho_sistemas_operac.Protocol.{FileEvent, event_file_modified, event_file_deleted}
use trabalho_sistemas_operac.Clients.{
  Client, client_new, new_client, count_clients, max_active_connections, client_remove, broadcast,
  can_connect, invalid_from, erase_invalid, client_is_valid,
}
use trabalho_sistemas_operac.Clients.Limit.{
  connect, leave, run, WithinLimit, step, run-WithinLimit, tell,
}
use trabalho_sistemas_operac.Clients.Safe.{run-returns, AllActive}
use trabalho_sistemas_operac.Clients.Faults.{client_new_cases, all_valid}
use trabalho_sistemas_operac.Clients.Events.{
  Broadcast, drain-broadcasts, drain, broadcasts, events_for,
}

abbrev ann : Client
ann = record {
  username = 97 ∷ [];
  connection_id = 1;
  sockfd = 4;
  active = true;
  pending_events = [];
  from_primary = false;
}

abbrev bob : Client
bob = record ann { username = 98 ∷ []; connection_id = 2; sockfd = 5 }

abbrev change : FileEvent
change = record { type = event_file_modified; filename = 120 ∷ [] }

abbrev told_all : List Broadcast
told_all =
    (97 ∷ [], change)
    ∷ (98 ∷ [], record change { type = event_file_deleted })
    ∷ (97 ∷ [], record change { filename = 121 ∷ [] })
    ∷ []

run-returns_example :
    (after : List Client) × (run
        (λ sockfd. 0)
        (ann ∷ [])
        (connect (97 ∷ []) 3 6 false ∷ connect (97 ∷ []) 4 7 false ∷ leave 1 ∷ [])
      ≡ some after)
    × AllActive after
    × WithinLimit after
unfolding count_clients
run-returns_example =
    run-returns (ann ∷ [])
      (connect (97 ∷ []) 3 6 false ∷ connect (97 ∷ []) 4 7 false ∷ leave 1 ∷ []) (refl, tt)
      (λ username. ground arith)

client_new_cases_example :
    let c = new_client (97 ∷ []) 3 6 false in
    client_new (λ sockfd. sockfd) (97 ∷ []) 3 6 false (ann ∷ bob ∷ []) ≡ (
      if false
      then some (true, ann ∷ bob ∷ c ∷ [])
      else if all_valid (λ sockfd. sockfd) (ann ∷ bob ∷ [])
      then (if ltb (count_clients (97 ∷ []) (ann ∷ bob ∷ [])) max_active_connections
          then some (true, ann ∷ bob ∷ c ∷ [])
          else some (false, ann ∷ bob ∷ []))
      else none)
client_new_cases_example = client_new_cases (λ sockfd. sockfd) (97 ∷ []) 3 6 false (ann ∷ bob ∷ [])

drain-broadcasts_example :
    map (drain 5) (broadcasts told_all (ann ∷ bob ∷ []))
    ≡ map (λ c. events_for c.username told_all) (ann ∷ bob ∷ [])
drain-broadcasts_example =
    drain-broadcasts 5 told_all (ann ∷ bob ∷ []) (refl, (refl, tt)) (omega arith)

run-WithinLimit_example :
    WithinLimit
      (record ann { connection_id = 3; sockfd = 6; pending_events = change ∷ [] } ∷ ann ∷ [])
unfolding run step client_remove broadcast bytes_eq client_new can_connect invalid_from
    erase_invalid client_is_valid count_clients new_client
run-WithinLimit_example =
    run-WithinLimit (λ sockfd. 0) (bob ∷ [])
      (leave 2
        ∷ connect (97 ∷ []) 3 6 false
        ∷ tell (97 ∷ []) change
        ∷ connect (97 ∷ []) 1 4 false
        ∷ connect (97 ∷ []) 9 9 false
        ∷ [])
      (record ann { connection_id = 3; sockfd = 6; pending_events = change ∷ [] } ∷ ann ∷ []) refl
      (λ username. ground arith)

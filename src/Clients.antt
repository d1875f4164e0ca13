-- ===== src/Clients.antt =====
-- The clients that are connected to a server (server/src/client.cpp and client.h). A client object
-- is known by the id of its connection. Each function runs under `global_mutex`, so that it is one
-- step here; `getsockopt(SO_ERROR)` is the parameter `so_error`, from a socket to its error code.
pub mod Limit
pub mod Events
pub mod Faults
pub mod Safe
use trabalho_sistemas_operac.Prelude.{
  refl, ℕ, zero, suc, ◌+◌, ◌-◌, ◌≡◌, ◌&&◌, not, Bool, true, false, Option, none, some, List, [],
  ◌∷◌, ◌++◌, ltb, ◌==◌, if◌then◌else◌, length, get_or, bytes_eq,
}
use trabalho_sistemas_operac.Protocol.{FileEvent, event_file_modified, event_file_deleted}

-- `MAX_ACTIVE_CONNECTIONS`
abbrev pub max_active_connections : ℕ
max_active_connections = 2

-- `client_t`
pub record Client : Type 0 where
  pub username : List ℕ
  pub connection_id : ℕ
  pub sockfd : ℕ
  pub active : Bool
  pub pending_events : List FileEvent
  pub from_primary : Bool

-- `clients.erase(std::next(clients.begin(), i))`
unfoldable pub erase_at : ℕ → List Client → List Client
erase_at i [] = []
erase_at zero (c ∷ clients) = clients
erase_at (suc i) (c ∷ clients) = c ∷ erase_at i clients

module _ (so_error : ℕ → ℕ) where
  unfoldable pub client_is_valid : Client → Bool
  client_is_valid c = if c.active then so_error c.sockfd == 0 else false

  -- The first loop of `can_connect`: the indices of the invalid clients, from `i` on.
  unfoldable pub invalid_from : ℕ → List Client → List ℕ
  invalid_from i [] = []
  invalid_from i (c ∷ clients) =
      let rest = invalid_from (i + 1) clients in if client_is_valid c then rest else i ∷ rest

-- The second loop of `can_connect`, at the index `i` into `invalid_clients`. Its test `i >= 0` holds
-- for every unsigned `i`: after the round at 0 the index wraps to 2 ^ 64 - 1, and the next round
-- reads `invalid_clients` there, which is undefined behaviour (`none`).
unfoldable pub erase_loop : List ℕ → ℕ → List Client → Option (List Client)
erase_loop invalid_clients zero clients =
    let erased = erase_at (get_or invalid_clients 0 0) clients in none
erase_loop invalid_clients (suc i) clients =
    erase_loop invalid_clients i (erase_at (get_or invalid_clients (suc i) 0) clients)

-- `if (invalid_clients.size() > 0)`
unfoldable pub erase_invalid : List ℕ → List Client → Option (List Client)
erase_invalid invalid_clients clients =
    if ltb 0 (length invalid_clients)
    then erase_loop invalid_clients (length invalid_clients - 1) clients
    else some clients

-- The third loop of `can_connect`.
unfoldable pub count_clients : List ℕ → List Client → ℕ
count_clients username [] = 0
count_clients username (c ∷ clients) =
    let count = count_clients username clients in
    if bytes_eq c.username username && not c.from_primary then count + 1 else count

unfoldable pub can_connect : (ℕ → ℕ) → List ℕ → List Client → Option (Bool × List Client)
can_connect so_error username clients =
    elim (erase_invalid (invalid_from so_error 0 clients) clients) [
      | none ↦ none
      | some kept ↦ some (ltb (count_clients username kept) max_active_connections, kept)
    ]

unfoldable pub new_client : List ℕ → ℕ → ℕ → Bool → Client
new_client username connection_id sockfd from_primary = record {
  username = username;
  connection_id = connection_id;
  sockfd = sockfd;
  active = true;
  pending_events = [];
  from_primary = from_primary;
}

-- `client_new`: `none` is undefined behaviour, and the flag whether a client was created.
unfoldable pub client_new :
    (ℕ → ℕ) → List ℕ → ℕ → ℕ → Bool → List Client → Option (Bool × List Client)
client_new so_error username connection_id sockfd true clients =
    some (true, clients ++ new_client username connection_id sockfd true ∷ [])
client_new so_error username connection_id sockfd false clients =
    elim (can_connect so_error username clients) [
      | none ↦ none
      | some (allowed, kept) ↦
          if allowed
          then some (true, kept ++ new_client username connection_id sockfd false ∷ [])
          else some (false, kept)
    ]

-- The loop of `client_remove`: the first client with the id goes. A client that is not found is
-- neither removed nor freed.
unfoldable pub client_remove : ℕ → List Client → List Client
client_remove connection_id [] = []
client_remove connection_id (c ∷ clients) =
    if c.connection_id == connection_id then clients else c ∷ client_remove connection_id clients

-- The loop of the two broadcasts.
unfoldable pub broadcast : List ℕ → FileEvent → List Client → List Client
broadcast username event [] = []
broadcast username event (c ∷ clients) =
    (if bytes_eq c.username username
      then record c { pending_events = c.pending_events ++ event ∷ [] }
      else c)
    ∷ broadcast username event clients

unfoldable pub client_broadcast_file_modified : List ℕ → List ℕ → List Client → List Client
client_broadcast_file_modified username filename =
    broadcast username (record { type = event_file_modified; filename = filename })

unfoldable pub client_broadcast_file_deleted : List ℕ → List ℕ → List Client → List Client
client_broadcast_file_deleted username filename =
    broadcast username (record { type = event_file_deleted; filename = filename })

unfoldable pub get_event : List FileEvent → Client → Option FileEvent × Client
get_event [] client = (none, client)
get_event (event ∷ events) client = (some event, record client { pending_events = events })

unfoldable pub client_get_event : Client → Option FileEvent × Client
client_get_event client = get_event client.pending_events client

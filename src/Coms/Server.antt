-- ===== src/Coms/Server.antt =====
-- `coms_handle_request` of server/src/coms.cpp, and the deferred requests of its listener: what a
-- server answers to the requests of other servers.
use trabalho_sistemas_operac.Prelude.{
  ℕ, suc, ◌+◌, Bool, true, false, Option, none, some, List, [], ◌∷◌, ◌++◌, ◌==◌, if◌then◌else◌,
  length,
}
use trabalho_sistemas_operac.Prelude.Exec.{Exec}
use trabalho_sistemas_operac.Prelude.Exec
use trabalho_sistemas_operac.Node.{
  returned, exited, crashed, blocked, Run, Server, is_primary, server_eq, acquire_metadata,
  release_metadata, acquire_deferred_requests, release_deferred_requests, get_primary_server,
  get_current_server, set_servers, RequestType, req_update_metadata, req_fetch_metadata, ◌>>=◌,
  ◌>>◌, return,
}
use trabalho_sistemas_operac.Net.Connection.{Connection, writing, reading}
use trabalho_sistemas_operac.Net.Writer.{write_u16, write_u32, write_u64, flush}
use trabalho_sistemas_operac.Net.Reader.{read_u8, read_u16}
use trabalho_sistemas_operac.Coms.Client.{
  Dial, execute_request, status_ok, status_invalid_request_type, Response,
}
use trabalho_sistemas_operac.Election.{talk, take_metadata}

-- The connection that is served, and the server at its other end.
pub record Link : Type 0 where
  pub conn : Connection
  pub peer : Server

-- A part of the handler: `none` is `return false`.
abbrev pub Serve : Type 0 → Type 0
Serve A = Link → Run (Option A × Link)

unfoldable pub and_then : {A B : Type 0} → Serve A → (A → Serve B) → Serve B
and_then m f link n = elim (m link n) [
  | returned (none, link') n' ↦ returned (none, link') n'
  | returned (some a, link') n' ↦ f a link' n'
  | exited ↦ exited
  | crashed ↦ crashed
  | blocked ↦ blocked
]

unfoldable pub accept : {A : Type 0} → A → Serve A
accept a link n = returned (some a, link) n

unfoldable pub refuse : {A : Type 0} → Serve A
refuse link n = returned (none, link) n

-- `coms_exec_s` on the connection, and a step on the state of the process.
unfoldable pub on_socket : {A : Type 0} → Exec Connection A → Serve A
on_socket m link n =
    let (res, conn') = m link.conn in returned (res, record link { conn = conn' }) n

unfoldable pub on_state : {A : Type 0} → Run A → Serve A
on_state m link = do a ← m; return (some a, link)

-- The loop that looks for the primary server: its index, or the length.
unfoldable pub primary_index : List Server → ℕ
primary_index [] = 0
primary_index (s ∷ servers) =
    let rest = suc (primary_index servers) in if is_primary s then 0 else rest

unfoldable pub write_servers : List Server → Exec Connection (Unit {0})
write_servers [] = Exec.pure tt
write_servers (s ∷ servers) =
    Exec.◌>>=◌ (writing (write_u32 s.ip))
      λ _. Exec.◌>>=◌ (writing (write_u16 s.port)) λ _. write_servers servers

unfoldable pub write_metadata : List Server → Exec Connection (Unit {0})
write_metadata servers =
    Exec.◌>>=◌ (writing (write_u64 (length servers)))
      λ _. Exec.◌>>=◌ (writing (write_u64 (primary_index servers))) λ _. write_servers servers

-- Status and `flush`, as in the cases 15, 16 and 18.
unfoldable pub send_status : ℕ → Exec Connection (Unit {0})
send_status status = Exec.◌>>=◌ (writing (write_u16 status)) λ _. writing flush

-- Case 14. The metadata stays acquired where a write of it fails.
unfoldable pub serve_fetch_metadata : Serve (Unit {0})
serve_fetch_metadata = and_then (on_socket (writing (write_u16 status_ok))) λ _.
    and_then (on_state acquire_metadata) λ servers.
      and_then (on_socket (write_metadata servers))
        λ _. and_then (on_state release_metadata) λ _. on_socket (writing flush)

unfoldable pub set_peer_port : ℕ → Serve Server
set_peer_port port link =
    let peer = record (link.peer) { port = port } in accept peer (record link { peer = peer })

-- The loop of case 16 goes on where the request was answered, whatever the status.
unfoldable pub answered : Run Bool → Option (Option Response) → Run Bool
answered rest (some (some response)) = rest
answered rest (some none) = return false
answered rest none = return false

module _ (dial : Dial) where
  -- The last loop of case 16, over the copy of the metadata: whatever the status of an answer.
  unfoldable pub request_updates : Server → List Server → Run Bool
  request_updates peer [] = return true
  request_updates peer (s ∷ servers) =
      let rest = request_updates peer servers in
      if is_primary s then rest else if server_eq s peer then rest else do
        current ← get_current_server
        answer ← talk dial s.ip (s.port + 2) (execute_request current.port req_update_metadata)
        answered rest answer

  unfoldable pub check : Bool → Serve (Unit {0})
  check true = accept tt
  check false = refuse

  -- Case 16. The metadata is copied only behind the answer.
  unfoldable pub serve_register : Serve (Unit {0})
  serve_register = and_then (on_socket (reading read_u16)) λ port.
      and_then (set_peer_port port) λ peer.
        and_then
          (on_state
            (do servers ← acquire_metadata; set_servers (servers ++ peer ∷ []); release_metadata))
          λ _. and_then (on_socket (send_status status_ok)) λ _.
            and_then (on_state (do servers ← acquire_metadata; release_metadata; return servers))
              λ copy. and_then (on_state (request_updates peer copy)) check

  -- A member of `*server`, which is a null pointer where there is no primary server.
  unfoldable pub dereference : Option Server → Serve Server
  dereference none link n = crashed
  dereference (some s) link n = accept s link n

  -- Case 17
  unfoldable pub serve_get_primary : Serve (Unit {0})
  serve_get_primary = and_then (on_state get_primary_server) λ primary_server.
      and_then (on_socket (writing (write_u16 status_ok))) λ _.
        and_then (dereference primary_server) λ s.
          and_then (on_socket (writing (write_u32 s.ip)))
            λ _. and_then (on_socket (writing (write_u16 s.port))) λ _. on_socket (writing flush)

  unfoldable pub defer_request : RequestType → Run (Unit {0})
  defer_request request = do
    requests ← acquire_deferred_requests
    (λ n. returned tt (record n { deferred_requests = requests ++ request ∷ [] }))
    release_deferred_requests

  -- Case 18
  unfoldable pub serve_update_metadata : Serve (Unit {0})
  serve_update_metadata =
      and_then (on_socket (send_status status_ok)) λ _. on_state (defer_request req_update_metadata)

  unfoldable pub serve_invalid : Serve (Unit {0})
  serve_invalid = and_then (on_socket (send_status status_invalid_request_type)) λ _. refuse

  unfoldable pub serve_request : ℕ → Serve (Unit {0})
  serve_request request =
      if request == 14
      then serve_fetch_metadata
      else if request == 15
      then on_socket (send_status status_ok)
      else if request == 16
      then serve_register
      else if request == 17
      then serve_get_primary
      else if request == 18
      then serve_update_metadata
      else serve_invalid

  unfoldable pub coms_handle_request : Serve (Unit {0})
  coms_handle_request = and_then (on_socket (reading read_u8)) serve_request

  -- The deferred requests: metadata is fetched from the primary server. Whatever fails is skipped,
  -- and the list is not cleared.
  unfoldable pub run_deferred : RequestType → Run (Unit {0})
  run_deferred req_update_metadata = do
    primary_server ← get_primary_server
    elim primary_server [
      | none ↦ (λ n. crashed)
      | some s ↦ do
        current ← get_current_server
        response ← talk dial s.ip (s.port + 2) (execute_request current.port req_fetch_metadata)
        take_metadata response
        return tt
    ]
  run_deferred _ = return tt

  unfoldable pub run_all : List RequestType → Run (Unit {0})
  run_all [] = return tt
  run_all (request ∷ requests) = do run_deferred request; run_all requests

  unfoldable pub handle_deferred : Run (Unit {0})
  handle_deferred = do
    requests ← acquire_deferred_requests
    run_all requests
    release_deferred_requests

-- ===== src/Election.antt =====
-- The election of a new primary server (server/src/election.cpp): a ring of servers, on which an
-- election message carries the best server so far, and an elected message its result.
pub mod Order
pub mod Ring
pub mod Walk
pub mod Winner
pub mod Handlers
pub mod Repeat
pub mod Start
use trabalho_sistemas_operac.Prelude.{
  none, some, true, false, ℕ, suc, ◌+◌, ◌%◌, List, [], ◌∷◌, ◌==◌, if◌then◌else◌, length, get_or,
  Option, Bool, ◌^◌, ◌++◌,
}
use trabalho_sistemas_operac.Prelude.Exec.{Exec}
use trabalho_sistemas_operac.Prelude.Exec
use trabalho_sistemas_operac.Node.{
  primary, backup, crashed, blocked, req_fetch_metadata, set_servers, Run, exited, ◌>>=◌, ◌>>◌,
  return, Server, server_eq, is_primary, acquire_metadata, release_metadata, returned,
  get_current_server, comp,
}
use trabalho_sistemas_operac.Net.Connection.{Connection, writing, reading}
use trabalho_sistemas_operac.Net.Writer.{write_u8, write_u32, write_u16, flush}
use trabalho_sistemas_operac.Coms.Client.{Dial, Response, execute_request}
use trabalho_sistemas_operac.Net.Reader.{read_u8, read_u32, read_u16}

-- `MESSAGE_ELECTION` and `MESSAGE_ELECTED`
abbrev pub message_election : ℕ
message_election = 10

abbrev pub message_elected : ℕ
message_elected = 20

-- The servers that are not `server`, and those that are not primary.
unfoldable pub without : Server → List Server → List Server
without server [] = []
without server (s ∷ servers) =
    let rest = without server servers in if server_eq s server then rest else s ∷ rest

unfoldable pub without_primary : List Server → List Server
without_primary [] = []
without_primary (s ∷ servers) =
    let rest = without_primary servers in if is_primary s then rest else s ∷ rest

-- The loop of `getNextServer`: the index of the first server that is equal, or the size.
unfoldable pub index_of : Server → List Server → ℕ
index_of server [] = 0
index_of server (s ∷ servers) =
    let rest = suc (index_of server servers) in if server_eq s server then 0 else rest

-- `metadata->servers[(self+1) % metadata->servers.size()]`, where the server was found.
unfoldable pub next_server : List Server → Server → Server
next_server servers current =
    get_or servers ((index_of current servers + 1) % length servers) current

-- `getNextServer`: the process ends if the server is not in the metadata.
unfoldable pub get_next_server : Server → Run Server
get_next_server current = do
  servers ← acquire_metadata
  release_metadata
  if index_of current servers == length servers
      then (λ n. exited)
      else return (next_server servers current)

-- What `sendElectionMessage` and `sendElectedMessage` write, and the message to the name server.
unfoldable pub write_message : ℕ → Server → Exec Connection (Unit {0})
write_message kind subject = Exec.◌>>=◌ (writing (write_u8 kind)) λ _.
    Exec.◌>>=◌ (writing (write_u32 subject.ip))
      λ _. Exec.◌>>=◌ (writing (write_u16 subject.port)) λ _. writing flush

-- What `election_listener_thread` reads from a connection.
unfoldable pub read_message : Exec Connection (ℕ × Server)
read_message = Exec.◌>>=◌ (reading read_u8) λ request. Exec.◌>>=◌ (reading read_u32) λ ip.
    Exec.◌>>=◌ (reading read_u16)
      λ port. Exec.pure (request, record { ip = ip; port = port; server_type = backup })

-- Dialling `port + offset`, which `htons` takes modulo 2 ^ 16, and one exchange on the connection.
-- `none`: `connect` failed. The outbox keeps what the socket has accepted, also where a write failed.
unfoldable pub talk : {A : Type 0} → Dial → ℕ → ℕ → Exec Connection A → Run (Option (Option A))
talk dial ip port exchange n = elim (dial ip (port % 2 ^ 16)) [
  | none ↦ returned none n
  | some conn ↦
      let (res, conn') = exchange conn in
      returned (some res) (record n {
        outbox =
            n.outbox ++ record { ip = ip; port = port % 2 ^ 16; bytes = conn'.writer.sent } ∷ [];
      })
]

-- The assignment of `setElected` to the first entry of the current server.
unfoldable pub mark_primary : Server → List Server → List Server
mark_primary current [] = []
mark_primary current (s ∷ servers) =
    if server_eq current s
    then record s { server_type = primary } ∷ servers
    else s ∷ mark_primary current servers

unfoldable pub become_primary : Run Server
become_primary n =
    let current = record (n.current_server) { server_type = primary } in
    returned current
      (record n { current_server = current; servers = mark_primary current n.servers })

-- The end of `updateElected`: no answer, a refusal, or the new metadata.
unfoldable pub take_metadata : Option (Option Response) → Run Bool
take_metadata none = return false
take_metadata (some none) = return false
take_metadata (some (some response)) =
    if response.status == 0
    then (do acquire_metadata; set_servers response.servers; release_metadata; return true)
    else return false

-- `initiateElection`
unfoldable pub drop_primary : Server → Run Bool
drop_primary primary_server = do
  servers ← acquire_metadata
  let kept = without primary_server servers
  if length kept == length servers
      then (do release_metadata; return false)
      else (do set_servers kept; release_metadata; return true)

module _ (dial : Dial) where
  -- `sendElectionMessage` and `sendElectedMessage`: a failure is logged, and the message is lost.
  unfoldable pub send_message : ℕ → Server → Server → Run (Unit {0})
  send_message kind next subject = do
    talk dial next.ip (next.port + 1) (write_message kind subject)
    return tt

  -- The name server must be told: otherwise the process ends.
  unfoldable pub tell_dns : Server → Run (Unit {0})
  tell_dns current n = elim (talk dial n.dns_ip n.dns_port (write_message 20 current) n) [
    | returned (some (some _)) n' ↦ returned tt n'
    | returned _ n' ↦ exited
    | exited ↦ exited
    | crashed ↦ crashed
    | blocked ↦ blocked
  ]

  unfoldable pub set_elected : Run (Unit {0})
  set_elected = do acquire_metadata; current ← become_primary; release_metadata; tell_dns current

  unfoldable pub update_elected : Server → Run Bool
  update_elected elected = do
    current ← get_current_server
    response ←
        talk dial elected.ip (elected.port + 2) (execute_request current.port req_fetch_metadata)
    take_metadata response

  unfoldable pub initiate_election : Server → Run (Unit {0})
  initiate_election primary_server = do
    current ← get_current_server
    if is_primary current then return tt else do
      dropped ← drop_primary primary_server
      if dropped
          then (do next ← get_next_server current; send_message message_election next current)
          else return tt

  -- The three ends of `handle_async_election_message`.
  unfoldable pub pass_on : Server → Server → Server → Run (Unit {0})
  pass_on current next winner =
      if server_eq current winner
      then (do set_elected; elected ← get_current_server; send_message message_elected next elected)
      else if comp current winner
      then send_message message_election next current
      else send_message message_election next winner

  unfoldable pub handle_async_election_message : Server → Run (Unit {0})
  handle_async_election_message winner = do
    servers ← acquire_metadata
    set_servers (without_primary servers)
    release_metadata
    current ← get_current_server
    next ← get_next_server current
    pass_on current next winner

  unfoldable pub handle_async_elected_message : Server → Run (Unit {0})
  handle_async_elected_message elected = do
    current ← get_current_server
    if server_eq current elected then return tt else do
      update_elected elected
      next ← get_next_server current
      send_message message_elected next elected

  -- The dispatch of `election_listener_thread`; any other message ends the loop, and the process.
  unfoldable pub dispatch : ℕ → Server → Run (Unit {0})
  dispatch request server =
      if request == 10
      then handle_async_election_message server
      else if request == 20
      then handle_async_elected_message server
      else (λ n. exited)

  -- One round of the loop of `election_listener_thread`, on an accepted connection.
  unfoldable pub handle_message : Connection → Run (Unit {0})
  handle_message conn n = elim ((read_message conn).0) [
    | none ↦ exited
    | some (request, server) ↦ dispatch request server n
  ]

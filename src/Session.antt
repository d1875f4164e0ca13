-- ===== src/Session.antt =====
-- The thread that serves one client (server/src/server.cpp): the handshake, the loop over the
-- client's packets, and the requests that a primary server passes on to the backup servers.
pub mod Spec
pub mod Events
pub mod Sent
pub mod Rounds
pub mod Loop
pub mod Thread
pub mod Calm
pub mod Halts
pub mod Store
pub mod Letters
pub mod Passing
pub mod Replicas
use trabalho_sistemas_operac.Prelude.{
  ℕ, zero, suc, Bool, true, false, Option, none, some, List, [], ◌∷◌, ◌++◌, ◌==◌, if◌then◌else◌,
}
use trabalho_sistemas_operac.Prelude.Exec.{Exec}
use trabalho_sistemas_operac.Net.Reader.{ByteArray, unset, freed, owned}
use trabalho_sistemas_operac.Net.Connection.{Connection}
use trabalho_sistemas_operac.Protocol.{
  Packet, FileDescription, FileEvent, handshake, receive_packet, respond_handshake_success,
  respond_handshake_fail, respond_download_success, respond_download_fail, respond_upload_success,
  respond_upload_fail, respond_delete_success, respond_delete_fail, respond_list_files_success,
  respond_list_files_fail, respond_update_some, respond_update_none, packet_type_download,
  packet_type_upload, packet_type_delete, packet_type_list_files, packet_type_update,
  status_success,
}
use trabalho_sistemas_operac.Protocol.Request.{request_handshake, request_upload, request_delete}
use trabalho_sistemas_operac.Clients.{
  Client, client_new, client_remove, client_get_event, client_broadcast_file_modified,
  client_broadcast_file_deleted,
}
use trabalho_sistemas_operac.Node.{
  Node, Server, Outcome, returned, exited, crashed, blocked, is_primary, acquire_metadata,
}
use trabalho_sistemas_operac.Coms.Client.{Dial}
use trabalho_sistemas_operac.Election.{talk}

-- The functions of `netfs` and the shell, on disks of any kind on which they return: a disk on which
-- `write_file` or `read_file` goes on for ever, as where no byte of a file can be written, has none.
-- Files.write_file and Files.read_file have these loops.
pub record Netfs (D : Type 0) : Type 0 where
  pub read_file : List ℕ → D → Option (List ℕ)
  pub write_file : List ℕ → List ℕ → D → Bool × D
  pub delete_file : List ℕ → D → Bool × D
  pub list_files : List ℕ → D → Option (List FileDescription)
  pub system : List ℕ → D → D

-- The variables of `client_handler_thread`, and what it shares with other threads. The client is
-- known by the id of its connection.
pub record Session (D : Type 0) : Type 0 where
  pub node : Node
  pub clients : List Client
  pub disk : D
  pub conn : Connection
  pub connection_id : ℕ
  pub sockfd : ℕ
  pub username : List ℕ
  pub packet : Packet
  pub status : ℕ

-- What a part of the thread ends in: the value of `running` and the variables, a use of memory that
-- is not there, a lock that is taken, or the end of the process.
pub data Turn (D : Type 0) : Type 0 where
  turn : Bool → Session D → Turn D
  faulted waiting quit : Turn D

unfoldable pub then_on : {D : Type 0} → Turn D → (Session D → Turn D) → Turn D
then_on (turn running s) f = f s
then_on faulted f = faulted
then_on waiting f = waiting
then_on quit f = quit

-- "sync_dir_", and a name in the client's directory.
unfoldable pub client_dir : List ℕ → List ℕ
client_dir username = 115 ∷ 121 ∷ 110 ∷ 99 ∷ 95 ∷ 100 ∷ 105 ∷ 114 ∷ 95 ∷ username

-- "mkdir -p sync_dir_", and the user name as it came.
unfoldable pub mkdir_command : List ℕ → List ℕ
mkdir_command username = 109 ∷ 107 ∷ 100 ∷ 105 ∷ 114 ∷ 32 ∷ 45 ∷ 112 ∷ 32 ∷ client_dir username

unfoldable pub file_path : List ℕ → List ℕ → List ℕ
file_path username filename = client_dir username ++ 47 ∷ filename

abbrev succeeded : {A : Type 0} → Option A → Bool
succeeded none = false
succeeded (some a) = true

-- `if (!respond_...) { running = false; }`
unfoldable pub respond : {D : Type 0} → Exec Connection (Unit {0}) → Session D → Turn D
respond m s = let (res, conn') = m s.conn in turn (succeeded res) (record s { conn = conn' })

-- The answer to the client, where its result is ignored.
unfoldable pub tell : {D : Type 0} → Exec Connection (Unit {0}) → Session D → Session D
tell m s = record s { conn = (m s.conn).1 }

-- `*out_status`, where a request that fails leaves it.
abbrev pub or_status : Option ℕ → ℕ → ℕ
or_status none status = status
or_status (some new_status) status = new_status

-- The handshake with a backup server and the request, whose results are ignored.
unfoldable pub pass_exchange : List ℕ → Exec Connection ℕ → ℕ → Exec Connection ℕ
pass_exchange username request status c =
    let (shaken, c') = request_handshake username true c in
    let (asked, c'') = request c' in (some (or_status asked (or_status shaken status)), c'')

-- The bytes that a pointer leads to.
unfoldable pub pointed : ByteArray → Option (List ℕ)
pointed array = elim array.bytes [ unset ↦ none | freed ↦ none | owned bs ↦ some bs ]

-- `free(bytes)`
abbrev pub drop_array : Packet → Packet
drop_array p = record p { array = record (p.array) { bytes = freed } }

-- The end of the thread: `client_remove`.
abbrev pub leave : {D : Type 0} → Session D → Turn D
leave s = turn false (record s { clients = client_remove s.connection_id s.clients })

abbrev pub finish : {D : Type 0} → Turn D → Turn D
finish (turn true s) = turn true s
finish (turn false s) = leave s
finish faulted = faulted
finish waiting = waiting
finish quit = quit

-- `client_get_event` on the client of the thread.
unfoldable pub take_event : ℕ → List Client → Option FileEvent × List Client
take_event connection_id [] = (none, [])
take_event connection_id (c ∷ clients) =
    let (event, c') = client_get_event c in
    let (other, rest) = take_event connection_id clients in
    if c.connection_id == connection_id then (event, c' ∷ clients) else (other, c ∷ rest)

module _ {D : Type 0} (dial : Dial) where
  -- A round of the loop over the backup servers. Where `connect_to_server` fails, the connection is
  -- a pointer that was never set. A status that is not a success is answered to the client.
  unfoldable pub after_pass : Session D → Outcome (Option (Option ℕ)) → Turn D
  after_pass s (returned (some (some status)) node) =
      let s' = record s { node = node; status = status } in
      if status == status_success then turn true s' else turn true (tell respond_upload_fail s')
  after_pass s (returned (some none) node) = faulted
  after_pass s (returned none node) = faulted
  after_pass s exited = quit
  after_pass s crashed = faulted
  after_pass s blocked = waiting

  unfoldable pub pass_to : Exec Connection ℕ → Server → Session D → Turn D
  pass_to request backup_server s = after_pass s (
      talk dial backup_server.ip backup_server.port (pass_exchange s.username request s.status)
        s.node)

  unfoldable pub pass_to_all : Exec Connection ℕ → List Server → Session D → Turn D
  pass_to_all request [] s = turn true s
  pass_to_all request (b ∷ servers) s =
      let rest = λ (s' : Session D). pass_to_all request servers s' in
      if is_primary b then rest s else then_on (pass_to request b s) rest

  abbrev with_metadata : Exec Connection ℕ → Session D → Outcome (List Server) → Turn D
  with_metadata request s (returned servers node) =
      pass_to_all request servers (record s { node = record node { metadata_mutex = true } })
  with_metadata request s exited = quit
  with_metadata request s crashed = faulted
  with_metadata request s blocked = waiting

  -- Only a primary server passes a request on.
  unfoldable pub pass_on_request : Exec Connection ℕ → Session D → Turn D
  pass_on_request request s =
      if is_primary s.node.current_server
      then with_metadata request s (acquire_metadata s.node)
      else turn true s

  module _ (fs : Netfs D) where
    unfoldable pub handle_download : Session D → Turn D
    handle_download s = elim (fs.read_file (file_path s.username s.packet.filename) s.disk) [
      | some contents ↦ turn true (tell (respond_download_success contents) s)
      | none ↦ respond respond_download_fail s
    ]

    -- `write_file`, the answer, the events, and `free(bytes)`.
    unfoldable pub store_file : List ℕ → Session D → Turn D
    store_file bytes s =
        let (done, disk') = fs.write_file (file_path s.username s.packet.filename) bytes s.disk in
        let s' = record s { disk = disk'; packet = drop_array s.packet } in
        if done
        then respond respond_upload_success (record s' {
          clients = client_broadcast_file_modified s.username s.packet.filename s.clients;
        })
        else respond respond_upload_fail s'

    unfoldable pub handle_upload : Session D → Turn D
    handle_upload s = elim (pointed s.packet.array) [
      | none ↦ faulted
      | some bytes ↦
          then_on (pass_on_request (request_upload s.packet.filename bytes) s) (store_file bytes)
    ]

    unfoldable pub remove_file : Session D → Turn D
    remove_file s =
        let (done, disk') = fs.delete_file (file_path s.username s.packet.filename) s.disk in
        let s' = record s { disk = disk' } in
        if done
        then respond respond_delete_success (record s' {
          clients = client_broadcast_file_deleted s.username s.packet.filename s.clients;
        })
        else respond respond_delete_fail s'

    unfoldable pub handle_delete : Session D → Turn D
    handle_delete s = then_on (pass_on_request (request_delete s.packet.filename) s) remove_file

    unfoldable pub handle_list_files : Session D → Turn D
    handle_list_files s = elim (fs.list_files (client_dir s.username) s.disk) [
      | some files ↦ respond (respond_list_files_success files) s
      | none ↦ respond respond_list_files_fail s
    ]

    unfoldable pub handle_update : Session D → Turn D
    handle_update s =
        let (event, clients') = take_event s.connection_id s.clients in
        let s' = record s { clients = clients' } in
        elim event [
          | none ↦ respond respond_update_none s'
          | some e ↦ respond (respond_update_some e) s'
        ]

    -- The `switch` of the loop.
    unfoldable pub handle_packet : ℕ → Session D → Turn D
    handle_packet packet_type s =
        if packet_type == packet_type_download
        then handle_download s
        else if packet_type == packet_type_upload
        then handle_upload s
        else if packet_type == packet_type_delete
        then handle_delete s
        else if packet_type == packet_type_list_files
        then handle_list_files s
        else if packet_type == packet_type_update
        then handle_update s
        else turn false s

    unfoldable pub one_round : Session D → Turn D
    one_round s =
        let ((received, p), conn') = receive_packet s.packet s.conn in
        let s' = record s { packet = p; conn = conn' } in
        if received then handle_packet p.header.packet_type s' else turn false s'

    -- The loop, with fuel: `turn true` is a loop that is still running.
    unfoldable pub session_loop : ℕ → Session D → Turn D
    session_loop zero s = turn true s
    session_loop (suc fuel) s = elim (one_round s) [
      | turn true s' ↦ session_loop fuel s'
      | turn false s' ↦ turn false s'
      | faulted ↦ faulted
      | waiting ↦ waiting
      | quit ↦ quit
    ]

    -- `connect_to_client`, on the shared state: the session with the client, if there is one.
    unfoldable pub accept_client : (ℕ → ℕ) → List ℕ × Bool → Session D → Option (Bool × Session D)
    accept_client so_error (username, from_primary) s =
        elim (client_new so_error username s.connection_id s.sockfd from_primary s.clients) [
          | none ↦ none
          | some (false, clients') ↦
              some (false, tell respond_handshake_fail (record s { clients = clients' }))
          | some (true, clients') ↦ some (
            true,
            tell respond_handshake_success (record s {
              clients = clients';
              username = username;
              disk = fs.system (mkdir_command username) s.disk;
            }),
          )
        ]

    unfoldable pub connect_to_client : (ℕ → ℕ) → Session D → Option (Bool × Session D)
    connect_to_client so_error s =
        let (res, conn') = handshake [] s.conn in
        let s' = record s { conn = conn' } in
        elim res [ none ↦ some (false, s') | some who ↦ accept_client so_error who s' ]

    -- The whole thread, with fuel for its loop.
    unfoldable pub client_handler_thread : ℕ → (ℕ → ℕ) → Session D → Turn D
    client_handler_thread fuel so_error s = elim (connect_to_client so_error s) [
      | none ↦ faulted
      | some (false, s') ↦ turn false s'
      | some (true, s') ↦ finish (session_loop fuel s')
    ]

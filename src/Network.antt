-- ===== src/Network.antt =====
-- The network thread of a client (client/src/network.cpp, with the requests of
-- client/src/protocol.cpp). The requests are those of Protocol.Request, which has the same text, but
-- for `request_download`, whose outputs outlive a failure here. The client's reader takes EAGAIN for
-- a failure: on its sockets it is the result `failed`. Sleeping and the log are left out, and so is
-- that no socket is closed.
pub mod Answers
pub mod Deadlock
pub mod Dns
pub mod Ends
pub mod Halts
pub mod Served
pub mod Updates
pub mod Upload
use trabalho_sistemas_operac.Prelude.{
  ℕ, zero, suc, ◌==◌, Bool, true, false, Option, none, some, List, [], ◌∷◌, if◌then◌else◌,
}
use trabalho_sistemas_operac.Prelude.Exec.{Exec, pure, ◌>>=◌, ◌>>◌}
use trabalho_sistemas_operac.Net.Reader.{ByteArray, unset, read_u32, read_u16, read_byte_array}
use trabalho_sistemas_operac.Net.Writer.{flush, write_u8, write_u16, write_string}
use trabalho_sistemas_operac.Net.Connection.{Connection, reading, writing}
use trabalho_sistemas_operac.Protocol.{
  protocol_version, packet_type_download, status_success, FileEvent, FileEventType,
  event_file_modified, event_file_deleted, FileDescription,
}
use trabalho_sistemas_operac.Protocol.Request.{
  read_status, request_handshake, request_upload, request_delete, request_list_files, request_exit,
  request_update,
}
use trabalho_sistemas_operac.Coms.Client.{Dial}
use trabalho_sistemas_operac.Session.{pointed}
use trabalho_sistemas_operac.Queue.{Queue, Call, done, push, try_pop}
use trabalho_sistemas_operac.App.{
  Task, Process, Outcome, returned, Host, c_str, task_list_files, task_upload, task_download,
  task_delete, task_exit, network_modified, network_deleted,
}

-- The variables of `thread_function` that last for a connection: `connection`, and `buf` with `length`.
pub record Thread (D : Type 0) : Type 0 where
  pub process : Process D
  pub conn : Connection
  pub array : ByteArray

-- What a part of the loop ends in: the value of `running` and the variables, a semaphore that is
-- taken, or a use of memory that is not there.
pub data Turn (D : Type 0) : Type 0 where
  turn : Bool → Thread D → Turn D
  waits faults : Turn D

-- What a try to connect ends in.
pub data Attempt : Type 0 where
  connected : Connection → Attempt
  retries exits : Attempt

-- What the thread is at: it looks for a server once more, it has ended the process, it waits for a
-- semaphore, it has used memory that is not there, or it is in its inner loop.
pub data Life (D : Type 0) : Type 0 where
  searching : Process D → Life D
  looping : Thread D → Life D
  exited stuck faulty : Life D

-- The question to the name server.
unfoldable pub ask_dns : Exec Connection (ℕ × ℕ)
ask_dns = do
  writing (write_u8 10)
  writing flush
  s_ip ← reading read_u32
  s_port ← reading read_u16
  pure (s_ip, s_port)

-- `request_download`, up to the status of the answer.
unfoldable pub ask_download : List ℕ → Exec Connection ℕ
ask_download filename = do
  writing (write_u16 protocol_version)
  writing (write_u8 packet_type_download)
  writing (write_string filename)
  writing flush
  read_status

abbrev pub take_array : ℕ → (Bool × ByteArray) × Connection → (Option ℕ × ByteArray) × Connection
take_array status ((true, array), conn) = ((some status, array), conn)
take_array status ((false, array), conn) = ((none, array), conn)

unfoldable pub reading_array : ByteArray → Connection → (Bool × ByteArray) × Connection
reading_array array conn =
    let (res, r) = read_byte_array array conn.reader in (res, record conn { reader = r })

abbrev pub downloaded : ByteArray → Option ℕ × Connection → (Option ℕ × ByteArray) × Connection
downloaded array (none, conn) = ((none, array), conn)
downloaded array (some status, conn) =
    if status == status_success
    then take_array status (reading_array array conn)
    else ((some status, array), conn)

-- `request_download`: whether it returned true, with the status, and the array that it leaves.
unfoldable pub request_download_into :
    ByteArray → List ℕ → Connection → (Option ℕ × ByteArray) × Connection
unfolding ask_download reading_array
request_download_into array filename conn = downloaded array (ask_download filename conn)

-- The search for the primary server, and the handshake with it.
abbrev pub handshaken : Option ℕ × Connection → Attempt
handshaken (none, conn) = retries
handshaken (some status, conn) = if status == status_success then connected conn else exits

abbrev pub reach_server : Dial → List ℕ → Option (ℕ × ℕ) → Attempt
reach_server dial username none = exits
reach_server dial username (some (s_ip, s_port)) = elim (dial s_ip s_port) [
  | none ↦ retries
  | some conn ↦ handshaken (request_handshake username false conn)
]

unfoldable pub find_server : Dial → ℕ → ℕ → List ℕ → Attempt
unfolding ask_dns
find_server dial dns_ip dns_port username = elim (dial dns_ip dns_port) [
  | none ↦ exits
  | some conn ↦ reach_server dial username (ask_dns conn).0
]

module _ {D : Type 0} where
  abbrev pub answered : Bool → Thread D → Call Task (Unit {0}) → Turn D
  answered running t (done _ q) =
      turn running (record t { process = record (t.process) { done_queue = q } })
  answered running t Call.waits = waits
  answered running t Call.broken = faults

  -- `task.success = success; done_queue.push(task.task_id, task);`
  unfoldable pub complete : Task → Bool → Bool → Thread D → Turn D
  complete task success running t =
      answered running t
        (push task.task_id (record task { success = success }) t.process.done_queue)

  -- `case TASK_LIST_FILES`; the status of the answer is not looked at.
  abbrev pub list_files_done :
      Task → Thread D → Option (ℕ × Option (List FileDescription)) × Connection → Turn D
  list_files_done task t (none, conn) = complete task false false (record t { conn = conn })
  list_files_done task t (some (status, none), conn) =
      complete task true true (record t { conn = conn })
  list_files_done task t (some (status, some files), conn) =
      complete (record task { files = files }) true true (record t { conn = conn })

  unfoldable pub list_files_case : Task → Thread D → Turn D
  unfolding complete
  list_files_case task t = list_files_done task t (request_list_files t.conn)

  -- After a request whose answer is a status.
  abbrev pub status_done : Task → Thread D → Option ℕ × Connection → Turn D
  status_done task t (none, conn) = complete task false false (record t { conn = conn })
  status_done task t (some status, conn) =
      complete task (status == status_success) true (record t { conn = conn })

  unfoldable pub delete_case : Task → Thread D → Turn D
  unfolding complete
  delete_case task t = status_done task t (request_delete task.filename t.conn)

  abbrev pub exit_done : Task → Thread D → Option (Unit {0}) × Connection → Turn D
  exit_done task t (none, conn) = complete task false false (record t { conn = conn })
  exit_done task t (some _, conn) = complete task true true (record t { conn = conn })

  unfoldable pub exit_case : Task → Thread D → Turn D
  unfolding complete
  exit_case task t = exit_done task t (request_exit t.conn)

  -- After a call of `App`, which the loop ignores the result of.
  abbrev pub from_app : Bool → Thread D → Outcome D → Turn D
  from_app running t (returned p) = turn running (record t { process = p })
  from_app running t Outcome.waits = waits
  from_app running t Outcome.faults = faults

  module _ (host : Host D) where
    abbrev pub upload_read : Task → Thread D → Option (List ℕ) → Turn D
    upload_read task t none = complete task false false t
    upload_read task t (some contents) =
        status_done task t (request_upload task.filename contents t.conn)

    unfoldable pub upload_case : Task → Thread D → Turn D
    unfolding complete c_str
    upload_case task t = upload_read task t (host.netfs.read_file (c_str task.path) t.process.disk)

    abbrev pub write_download : Task → Thread D → Option (List ℕ) → Turn D
    write_download task t none = faults
    write_download task t (some bytes) =
        let (written, disk') = host.netfs.write_file (c_str task.path) bytes t.process.disk in
        complete task written true (record t { process = record (t.process) { disk = disk' } })

    abbrev pub download_done : Task → Thread D → (Option ℕ × ByteArray) × Connection → Turn D
    download_done task t ((none, array), conn) =
        complete task false false (record t { conn = conn; array = array })
    download_done task t ((some status, array), conn) =
        if status == status_success
        then write_download task (record t { conn = conn; array = array }) (pointed array)
        else complete task false true (record t { conn = conn; array = array })

    unfoldable pub download_case : Task → Thread D → Turn D
    unfolding complete c_str request_download_into
    download_case task t = download_done task t (request_download_into t.array task.filename t.conn)

    -- The `switch` on the type of a task.
    unfoldable pub handle_task : Task → Thread D → Turn D
    unfolding list_files_case upload_case download_case delete_case exit_case
    handle_task task t =
        if task.type == task_list_files
        then list_files_case task t
        else if task.type == task_upload
        then upload_case task t
        else if task.type == task_download
        then download_case task t
        else if task.type == task_delete
        then delete_case task t
        else if task.type == task_exit
        then exit_case task t
        else turn false t

    -- The file of an event that was downloaded, or what `buf` held before.
    abbrev pub modified_read : Bool → List ℕ → Thread D → Option (List ℕ) → Turn D
    modified_read running filename t none = faults
    modified_read running filename t (some bytes) =
        from_app running t (network_modified host filename bytes t.process)

    -- The status of the download is not looked at.
    abbrev pub modified_done :
        Bool → List ℕ → Thread D → (Option ℕ × ByteArray) × Connection → Turn D
    modified_done running filename t ((none, array), conn) =
        turn running (record t { conn = conn; array = array })
    modified_done running filename t ((some status, array), conn) =
        modified_read running filename (record t { conn = conn; array = array }) (pointed array)

    unfoldable pub handle_file_event : Bool → FileEvent → Thread D → Turn D
    unfolding request_download_into network_modified network_deleted
    handle_file_event running event t = elim event.type [
      | event_file_modified ↦
          modified_done running event.filename t
            (request_download_into t.array event.filename t.conn)
      | event_file_deleted ↦ from_app running t (network_deleted host event.filename t.process)
    ]

    abbrev pub update_done : Bool → Thread D → Option (ℕ × Option FileEvent) × Connection → Turn D
    update_done running t (none, conn) = turn false (record t { conn = conn })
    update_done running t (some (status, none), conn) = turn running (record t { conn = conn })
    update_done running t (some (status, some event), conn) =
        handle_file_event running event (record t { conn = conn })

    -- The end of a round, which follows a failed task as well.
    unfoldable pub handle_updates : Bool → Thread D → Turn D
    unfolding handle_file_event
    handle_updates running t = update_done running t (request_update t.conn)

    abbrev pub then_updates : Turn D → Turn D
    then_updates (turn running t) = handle_updates running t
    then_updates waits = waits
    then_updates faults = faults

    abbrev pub with_queue : Queue Task → Thread D → Thread D
    with_queue q t = record t { process = record (t.process) { task_queue = q } }

    abbrev pub with_popped : Thread D → Call Task (Option Task) → Turn D
    with_popped t (done none q) = handle_updates true (with_queue q t)
    with_popped t (done (some task) q) = then_updates (handle_task task (with_queue q t))
    with_popped t Call.waits = waits
    with_popped t Call.broken = faults

    -- A round of the inner loop.
    unfoldable pub network_round : Thread D → Turn D
    unfolding handle_task handle_updates
    network_round t = with_popped t (try_pop t.process.task_queue)

    -- The inner loop, with fuel: `turn true` is a loop that is still running.
    unfoldable pub network_loop : ℕ → Thread D → Turn D
    unfolding network_round
    network_loop zero t = turn true t
    network_loop (suc fuel) t = elim (network_round t) [
      | turn true t' ↦ network_loop fuel t'
      | turn false t' ↦ turn false t'
      | waits ↦ waits
      | faults ↦ faults
    ]

    -- `buf` and `length` are not set: `length` holds what the memory held.
    abbrev pub new_thread : ℕ → Process D → Connection → Thread D
    new_thread memory p conn = record {
      process = p;
      conn = conn;
      array = record { length = memory; bytes = unset };
    }

    -- The outer loop, with what the network does in each of its rounds, and what its memory holds.
    unfoldable pub thread_function : ℕ → ℕ → ℕ → List (Dial × ℕ) → Process D → Life D
    unfolding find_server network_loop
    thread_function fuel dns_ip dns_port [] p = searching p
    thread_function fuel dns_ip dns_port ((dial, memory) ∷ dials) p =
        elim (find_server dial dns_ip dns_port p.username) [
          | exits ↦ exited
          | retries ↦ thread_function fuel dns_ip dns_port dials p
          | connected conn ↦ elim (network_loop fuel (new_thread memory p conn)) [
            | turn true t ↦ looping t
            | turn false t ↦ thread_function fuel dns_ip dns_port dials t.process
            | waits ↦ stuck
            | faults ↦ faulty
          ]
        ]

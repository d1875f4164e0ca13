-- ===== src/Start/Waiting.antt =====
-- A round of the network thread while the main thread waits for its task (client/src/main.cpp,
-- client/src/network.cpp).
use trabalho_sistemas_operac.Prelude.{
  ℕ, suc, ◌≡◌, ◌∙◌, ==_self, refl, ap, true, false, none, List, [], ◌∷◌, ◌++◌, length, ◌<◌, ◌^◌,
  Option, some, ◌==◌,
}
use trabalho_sistemas_operac.Net.Reader.Stream.{pending}
use trabalho_sistemas_operac.Net.Reader.Word.{counted}
use trabalho_sistemas_operac.Net.Connection.{Connection}
use trabalho_sistemas_operac.Net.Connection.Talk.{Delivers, Hears-pure}
use trabalho_sistemas_operac.Protocol.{FileDescription, status_success, status_empty}
use trabalho_sistemas_operac.Protocol.Request.{
  request_update, update_answer, request_list_files, list_files_answer,
}
use trabalho_sistemas_operac.Protocol.Wire.{
  packet, Delivers-packet, Delivers-flush_then, Hears-answer,
}
use trabalho_sistemas_operac.Session.{pointed}
use trabalho_sistemas_operac.Session.Sent.{IsReady}
use trabalho_sistemas_operac.Queue.Order.{free, by_id_lem, lookup, remove}
use trabalho_sistemas_operac.App.{Task, Host, c_str, task_list_files, task_download}
use trabalho_sistemas_operac.Network.{
  Thread, Turn, turn, network_round, with_popped, with_queue, then_updates, handle_task,
  handle_updates, list_files_done, list_files_case, download_case, complete,
}
use trabalho_sistemas_operac.Network
use trabalho_sistemas_operac.Network.Updates.{
  Exchanged, Delivers-Exchanged, request_download_into_file, array_of,
}
use trabalho_sistemas_operac.Network.Upload.{complete_lem, network_round-popped}
use trabalho_sistemas_operac.Start.{
  Wait, Start, got, lost, started, searched, search, begun, await, download_all, list_all,
  clear_dir, initial_sync,
}
use trabalho_sistemas_operac.Start
use trabalho_sistemas_operac.Net.Writer.Word.{IsText}

-- There is no event for the client.
request_update-empty :
    Delivers request_update (status_empty, none) (packet status_empty []) (packet 6 [])
unfolding request_update update_answer
request_update-empty =
    Delivers-packet 6 _ (Delivers-flush_then (Hears-answer status_empty _ Hears-pure))

-- The files of an answer that may have none.
abbrev pub files_or : List FileDescription → Option (List FileDescription) → List FileDescription
files_or files none = files
files_or files (some answered) = answered

-- The list is refused.
pub request_list_files-refused :
    (status : ℕ)
    → (status == status_success) ≡ false
    → Delivers request_list_files (status, none) (packet status []) (packet 4 [])
unfolding request_list_files list_files_answer
request_list_files-refused status refused =
    Delivers-packet 4 _
      (Delivers-flush_then (Hears-answer status _ (rw (refused, list_files_answer) Hears-pure)))

module _ {D : Type 0} (host : Host D) where
  -- The thread with one finished task.
  abbrev pub ended : Thread D → ℕ → Task → Thread D
  ended t id task = record t {
    process = record (t.process) { done_queue = free ((id, task) ∷ []) };
  }

  no_update :
      (t : Thread D) (rest : List ℕ)
      → IsReady t.conn
      → pending t.conn.reader ≡ packet status_empty [] ++ rest
      → (c : Connection) × (handle_updates host true t ≡ turn true (record t { conn = c }))
        × Exchanged t.conn c rest (packet 6 [])
  unfolding handle_updates
  no_update t rest ready e =
      let (answer, x) = Delivers-Exchanged t.conn rest request_update-empty ready e in
      ((request_update t.conn).1, rw answer refl, x)

  found_lem :
      (id : ℕ) (task : Task) (next : Thread D → Wait D) (t : Thread D)
      → search id next (ended t id task)
        ≡ got task (record t { process = record (t.process) { done_queue = free [] } })
  unfolding searched lookup remove
  found_lem id task next t =
      ap (searched (next (ended t id task)) (ended t id task)) (by_id_lem id (id, task) [])
      ∙ rw (==_self id) refl

  -- One round suffices where the task is done and there is no event.
  pub await_lem :
      (fuel id : ℕ) (t t1 : Thread D) (task task' : Task) (rest : List ℕ)
      → t.process.task_queue ≡ free ((id, task) ∷ [])
      → handle_task host task (with_queue host (free []) t) ≡ turn true (ended t1 id task')
      → IsReady t1.conn
      → pending t1.conn.reader ≡ packet status_empty [] ++ rest
      → (c : Connection) × (await host (suc fuel) id t
          ≡ got task'
              (record t1 { process = record (t1.process) { done_queue = free [] }; conn = c }))
        × Exchanged t1.conn c rest (packet 6 [])
  unfolding await
  await_lem fuel id t t1 task task' rest one handled ready e =
      let (c, u, x) = no_update (ended t1 id task') rest ready e in
      let after : Turn D → Wait D = λ o. elim o [
        | turn true t' ↦ search id (await host fuel id) t'
        | turn false t' ↦ search id lost t'
        | Network.waits ↦ Start.stuck
        | Network.faults ↦ Start.faulty
      ] in
      (
        c,
        ap after (network_round-popped host t id task [] one ∙ ap (then_updates host) handled ∙ u)
            ∙ found_lem id task' (await host fuel id) (record t1 { conn = c }),
        x,
      )

  -- The list is asked for, and there is an answer; one without a list gives no files.
  pub list_files_lem :
      (t : Thread D) (task : Task) (status : ℕ) (reply : Option (List FileDescription))
      (bytes rest : List ℕ)
      → task.type ≡ task_list_files
      → t.process.done_queue ≡ free []
      → Delivers request_list_files (status, reply) bytes (packet 4 [])
      → IsReady t.conn
      → pending t.conn.reader ≡ bytes ++ rest
      → (c : Connection) × (handle_task host task t
          ≡ turn true (
              ended
                (record t { conn = c })
                task.task_id
                (record task { files = files_or task.files reply; success = true })))
        × Exchanged t.conn c rest (packet 4 [])
  unfolding handle_task list_files_case
  list_files_lem t task status reply bytes rest type calm h ready e =
      let (answer, x) = Delivers-Exchanged t.conn rest h ready e in
      let c : Connection = (request_list_files t.conn).1 in
      (c, rw type (rw answer (listed_lem reply)), x)
    where
      listed_lem :
          (reply : Option (List FileDescription))
          → list_files_done
              (record task { type = task_list_files })
              t
              (some (status, reply), (request_list_files t.conn).1)
            ≡ turn true (
                ended
                  (record t { conn = (request_list_files t.conn).1 })
                  task.task_id
                  (record task {
                    type = task_list_files;
                    files = files_or task.files reply;
                    success = true;
                  }))
      listed_lem none =
          complete_lem (record task { type = task_list_files }) true true
            (record t { conn = (request_list_files t.conn).1 }) [] calm
      listed_lem (some files) =
          complete_lem (record task { type = task_list_files; files = files }) true true
            (record t { conn = (request_list_files t.conn).1 }) [] calm

  -- A file is asked for, and written to the path of the task.
  pub download_lem :
      (t : Thread D) (task : Task) (file rest : List ℕ)
      → task.type ≡ task_download
      → t.process.done_queue ≡ free []
      → IsText task.filename
      → length file < 2 ^ 64
      → IsReady t.conn
      → pending t.conn.reader ≡ packet status_success (counted file) ++ rest
      → let (written, disk) = host.netfs.write_file (c_str task.path) file t.process.disk in
        (c : Connection) × (handle_task host task t
          ≡ turn true (
              ended
                (record t {
                  conn = c;
                  array = array_of file;
                  process = record (t.process) { disk = disk };
                })
                task.task_id
                (record task { success = written })))
        × Exchanged t.conn c rest (packet 1 (counted task.filename))
  unfolding handle_task download_case pointed
  download_lem t task file rest type calm text fits ready e =
      let (c, answer, x) =
        request_download_into_file t.array task.filename text t.conn ready rest file fits e in
      let (written, disk) = host.netfs.write_file (c_str task.path) file t.process.disk in
      (
        c,
        rw type (
            rw answer (
              complete_lem (record task { type = task_download }) written true
                (record t {
                  conn = c;
                  array = array_of file;
                  process = record (t.process) { disk = disk };
                })
                [] calm)),
        x,
      )

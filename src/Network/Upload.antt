-- ===== src/Network/Upload.antt =====
-- A client that uploads a file to a server (client/src/network.cpp, server/src/server.cpp).
use trabalho_sistemas_operac.Prelude.{
  ℕ, ◌≡◌, ◌∙◌, ap, Bool, true, some, List, [], ◌∷◌, ◌++◌, length, ◌<◌, ◌^◌, append_assoc,
}
use trabalho_sistemas_operac.Net.Reader.Stream.{pending}
use trabalho_sistemas_operac.Net.Reader.Word.{counted}
use trabalho_sistemas_operac.Net.Writer.Word.{IsText}
use trabalho_sistemas_operac.Net.Connection.{Connection}
use trabalho_sistemas_operac.Protocol.{status_success}
use trabalho_sistemas_operac.Protocol.Request.{request_upload}
use trabalho_sistemas_operac.Protocol.Wire.{packet, request_upload-Delivers}
use trabalho_sistemas_operac.Session.Sent.{IsReady}
use trabalho_sistemas_operac.Queue.{push, try_pop, wait_mutex, take_front}
use trabalho_sistemas_operac.Queue.Order.{free, push_lem}
use trabalho_sistemas_operac.App.{
  Task, Process, Host, c_str, lookup, changed, path_file, task_upload,
}
use trabalho_sistemas_operac.Network.{
  Thread, turn, answered, complete, upload_case, handle_task, then_updates, with_queue, with_popped,
  network_round,
}
use trabalho_sistemas_operac.Network.Updates.{
  Exchanged, Delivers-Exchanged, modified, questions, handle_updates-network_modified,
}
use trabalho_sistemas_operac.Protocol.Answers.{event_bytes}
use trabalho_sistemas_operac.App.Known.{taken}

pub complete_lem :
    {D : Type 0} (task : Task) (success running : Bool) (t : Thread D) (finished : List (ℕ × Task))
    → t.process.done_queue ≡ free finished
    → complete task success running t
      ≡ turn running (record t {
        process = record (t.process) {
          done_queue = free (finished ++ (task.task_id, record task { success = success }) ∷ []);
        };
      })
unfolding complete
complete_lem task success running t finished e =
    let task' : Task = record task { success = success } in
    ap (λ d. answered running t (push task.task_id task' d)) e
    ∙ ap (answered running t) (push_lem task.task_id task' finished)

-- A round takes the task in front.
pub network_round-popped :
    {D : Type 0} (host : Host D) (t : Thread D) (id : ℕ) (task : Task) (tasks : List (ℕ × Task))
    → t.process.task_queue ≡ free ((id, task) ∷ tasks)
    → network_round host t
      ≡ then_updates host (handle_task host task (with_queue host (free tasks) t))
unfolding network_round try_pop wait_mutex take_front
network_round-popped host t id task tasks e = ap (λ q. with_popped host t (try_pop q)) e

module _ {D : Type 0} (host : Host D) where
  -- A client with an upload task in front, whose file can be read and is not known to `App`.
  pub record Uploads (p : Process D) (task : Task) (tasks finished : List (ℕ × Task))
      (file : List ℕ) (local : D) : Type 0 where
    pub type : task.type ≡ task_upload
    pub waiting : p.task_queue ≡ free ((task.task_id, task) ∷ tasks)
    pub answered_before : p.done_queue ≡ free finished
    pub mutex : p.mutex ≡ 1
    pub contents : host.netfs.read_file (c_str task.path) p.disk ≡ some file
    pub news : changed (lookup task.filename p.dir_hash) (host.hasher file) ≡ true
    pub written :
        host.netfs.write_file (c_str (path_file task.filename p)) file p.disk ≡ (true, local)

  module _ (t : Thread D) (task : Task) (tasks finished : List (ℕ × Task)) (file : List ℕ)
      (local : D) (u : Uploads t.process task tasks finished file local) where
    -- The process when the task is done.
    abbrev pub uploaded : Process D
    uploaded = record (t.process) {
      task_queue = free tasks;
      done_queue = free (finished ++ (task.task_id, record task { success = true }) ∷ []);
    }

    handle_upload_task :
        (rest : List ℕ)
        → IsText task.filename
        → IsReady t.conn
        → pending t.conn.reader ≡ packet status_success [] ++ rest
        → (c : Connection) × (handle_task host task (with_queue host (free tasks) t)
            ≡ turn true (record t { process = uploaded; conn = c }))
          × Exchanged t.conn c rest (packet 2 (counted task.filename ++ counted file))
    unfolding handle_task upload_case
    handle_upload_task rest text ready e =
        let (answer, x) =
          Delivers-Exchanged t.conn rest
            (request_upload-Delivers task.filename file status_success text) ready e in
        (
          (request_upload task.filename file t.conn).1,
          rw (u.type) (
              rw (u.contents) (
                rw answer (
                  complete_lem (record task { type = task_upload }) true true
                    (record t {
                      process = record (t.process) { task_queue = free tasks };
                      conn = (request_upload task.filename file t.conn).1;
                    })
                    finished u.answered_before))),
          x,
        )

    -- The task is done, and the change that it makes on the server comes back and is written.
    pub network_round-uploads :
        (rest : List ℕ)
        → IsText task.filename
        → length task.filename < 2 ^ 64
        → length file < 2 ^ 64
        → IsReady t.conn
        → pending t.conn.reader
          ≡ packet status_success []
            ++ (packet status_success (event_bytes (modified task.filename))
                ++ (packet status_success (counted file) ++ rest))
        → (t' : Thread D) × (network_round host t ≡ turn true t')
          × (t'.process ≡ taken host task.filename file local uploaded)
          × (pending t'.conn.reader ≡ rest)
          × (t'.conn.writer.sent
              ≡ t.conn.writer.sent
                ++ (packet 2 (counted task.filename ++ counted file) ++ questions task.filename))
    network_round-uploads rest text fits small ready e =
        let (c, h, x) =
          handle_upload_task
            (packet status_success (event_bytes (modified task.filename))
              ++ (packet status_success (counted file) ++ rest))
            text ready e in
        let (t', w, p, r, s) =
          handle_updates-network_modified host true (record t { process = uploaded; conn = c })
            task.filename text fits x.ready file local u.mutex u.news u.written rest small
            x.reads in
        (
          t',
          network_round-popped host t task.task_id task tasks u.waiting
              ∙ ap (then_updates host) h
              ∙ w,
          p,
          r,
          s
              ∙ ap (λ bs. bs ++ questions task.filename) x.sent
              ∙ append_assoc t.conn.writer.sent _ (questions task.filename),
        )

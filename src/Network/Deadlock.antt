-- ===== src/Network/Deadlock.antt =====
-- A listing and an update that wait for each other (client/src/app.cpp, client/src/network.cpp).
use trabalho_sistemas_operac.Prelude.{ℕ, ◌^◌, ◌<◌, ◌≡◌, ap, Bool, List, [], ◌++◌, length}
use trabalho_sistemas_operac.Net.Reader.Stream.{pending}
use trabalho_sistemas_operac.Net.Reader.Word.{counted}
use trabalho_sistemas_operac.Net.Writer.Word.{IsText}
use trabalho_sistemas_operac.Protocol.{status_success}
use trabalho_sistemas_operac.Protocol.Wire.{packet}
use trabalho_sistemas_operac.Protocol.Answers.{event_bytes}
use trabalho_sistemas_operac.Session.Sent.{IsReady}
use trabalho_sistemas_operac.Queue.{try_pop_by_id, wait_awaiting}
use trabalho_sistemas_operac.Queue.Order.{free}
use trabalho_sistemas_operac.App.{
  Task, Process, returned, Listing, Host, found, list_server, list_server_round, list_files_task,
  network_modified, with_mutex, new_task, task_list_files,
}
use trabalho_sistemas_operac.App.Known.{IsIdle, push_task_lem, with_task}
use trabalho_sistemas_operac.Network.{Thread, Turn, handle_updates}
use trabalho_sistemas_operac.Network.Updates.{modified, modified_file}

module _ {D : Type 0} where
  -- The process while `list_server` waits for its answer.
  abbrev asking : Process D → List (ℕ × Task) → Process D
  asking p tasks =
      with_task (record p { mutex = 0 }) (new_task task_list_files [] [] (record p { mutex = 0 }))
        tasks

  list_server_lem :
      (p : Process D) (tasks : List (ℕ × Task))
      → IsIdle tasks p
      → list_server p ≡ returned (asking p tasks)
  unfolding list_server list_files_task
  list_server_lem p tasks idle =
      rw (idle.mutex, list_server)
        (push_task_lem task_list_files [] [] (record p { mutex = 0 }) tasks idle.queue)

  -- With no thread in `App` or in the queue of tasks and with no finished task, `list_server`
  -- returns from its first part with the semaphore taken; then a network thread for which an update
  -- of a modified file, and the file, are pending waits for that semaphore, and `list_server` waits
  -- for a finished task.
  pub list_server-handle_updates :
      (host : Host D) (running : Bool) (t : Thread D) (filename file rest : List ℕ)
      (tasks : List (ℕ × Task))
      → IsText filename
      → length filename < 2 ^ 64
      → length file < 2 ^ 64
      → IsReady t.conn
      → IsIdle tasks t.process
      → t.process.done_queue ≡ free []
      → pending t.conn.reader
        ≡ packet status_success (event_bytes (modified filename))
          ++ (packet status_success (counted file) ++ rest)
      → (p : Process D) × (list_server t.process ≡ returned p)
        × (handle_updates host running (record t { process = p }) ≡ Turn.waits)
        × (list_server_round t.process.last_task_id p ≡ Listing.waits)
  unfolding network_modified with_mutex list_server_round try_pop_by_id wait_awaiting
  list_server-handle_updates host running t filename file rest tasks text fits small ready idle
        empty e =
      let p : Process D = asking t.process tasks in
      let (c, u, r, s) =
        modified_file host running (record t { process = p }) filename text fits ready file rest
          small e in
      (
        p,
        list_server_lem t.process tasks idle,
        u,
        ap (λ q. found p (try_pop_by_id t.process.last_task_id q)) empty,
      )

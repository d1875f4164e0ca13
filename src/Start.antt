-- ===== src/Start.antt =====
-- What the main thread of a client does before its command line (client/src/main.cpp): it empties
-- the directory of the user, asks for the list of files, and downloads each of them, while the
-- network thread makes its rounds.
pub mod Downloads
pub mod Served
pub mod Waiting
use trabalho_sistemas_operac.Prelude.{
  ℕ, zero, suc, true, false, Option, none, some, List, [], ◌∷◌, if◌then◌else◌,
}
use trabalho_sistemas_operac.Protocol.{FileDescription}
use trabalho_sistemas_operac.Session.{client_dir, mkdir_command, file_path}
use trabalho_sistemas_operac.Queue.{Call, done, try_pop_by_id}
use trabalho_sistemas_operac.Queue
use trabalho_sistemas_operac.App.{
  Task, Process, Outcome, returned, Host, list_files_task, download_task,
}
use trabalho_sistemas_operac.App
use trabalho_sistemas_operac.Network.{Thread, Turn, turn, network_round}
use trabalho_sistemas_operac.Network

-- A wait has its task, or the network thread has left its connection before, or the fuel ended, or
-- a thread waits for a semaphore, or reads memory that is not there.
pub data Wait (D : Type 0) : Type 0 where
  got : Task → Thread D → Wait D
  lost unanswered : Thread D → Wait D
  stuck faulty : Wait D

-- The start goes on to the command line, ends the process, or ends in a wait.
pub data Start (D : Type 0) : Type 0 where
  started : Thread D → Start D
  exits : Start D
  ends_in : Wait D → Start D

-- "rm -rf sync_dir_", and the user name.
unfoldable pub rm_command : List ℕ → List ℕ
unfolding client_dir
rm_command username = 114 ∷ 109 ∷ 32 ∷ 45 ∷ 114 ∷ 102 ∷ 32 ∷ client_dir username

module _ {D : Type 0} where
  unfoldable pub searched : Wait D → Thread D → Call Task (Option Task) → Wait D
  searched next t (done (some task) q) =
      got task (record t { process = record (t.process) { done_queue = q } })
  searched next t (done none q) = next
  searched next t Queue.waits = next
  searched next t Queue.broken = faulty

  abbrev pub search : ℕ → (Thread D → Wait D) → Thread D → Wait D
  search id next t = searched (next t) t (try_pop_by_id id t.process.done_queue)

  abbrev pub begun : (Process D → Outcome D) → (Thread D → Start D) → Thread D → Start D
  begun ask k t = elim (ask t.process) [
    | returned p ↦ k (record t { process = p })
    | App.waits ↦ ends_in stuck
    | App.faults ↦ ends_in faulty
  ]

  abbrev pub answered_by : Wait D → (Task → Thread D → Start D) → Start D
  answered_by (got task t) k = k task t
  answered_by (lost t) k = ends_in (lost t)
  answered_by (unanswered t) k = ends_in (unanswered t)
  answered_by stuck k = ends_in stuck
  answered_by faulty k = ends_in faulty

  module _ (host : Host D) where
    -- `get_task_by_id` behind the call that made the task: the network thread makes a round before
    -- each search, and none after it has left its connection.
    unfoldable pub await : ℕ → ℕ → Thread D → Wait D
    unfolding network_round
    await zero id t = unanswered t
    await (suc fuel) id t = elim (network_round host t) [
      | turn true t' ↦ search id (await fuel id) t'
      | turn false t' ↦ search id lost t'
      | Network.waits ↦ stuck
      | Network.faults ↦ faulty
    ]

    -- The loop over the files of the list; a download that fails is only told.
    unfoldable pub download_all : ℕ → List FileDescription → Thread D → Start D
    unfolding await download_task file_path
    download_all fuel [] t = started t
    download_all fuel (file ∷ files) t =
        begun (download_task file.filename (file_path t.process.username file.filename))
          (λ t'.
            answered_by (await fuel t.process.last_task_id t')
              (λ task t''. download_all fuel files t''))
          t

    -- Both calls of `system`.
    unfoldable pub clear_dir : Thread D → Thread D
    unfolding rm_command mkdir_command
    clear_dir t =
        let username = t.process.username in
        let disk =
          host.netfs.system (mkdir_command username)
            (host.netfs.system (rm_command username) t.process.disk) in
        record t { process = record (t.process) { disk = disk } }

    unfoldable pub list_all : ℕ → Thread D → Start D
    unfolding await list_files_task download_all
    list_all fuel t =
        begun list_files_task
          (λ t'.
            answered_by (await fuel t.process.last_task_id t')
              (λ task t''. if task.success then download_all fuel task.files t'' else exits))
          t

    -- `main` from the network thread to `FSNotify::init`.
    unfoldable pub initial_sync : ℕ → Thread D → Start D
    unfolding clear_dir list_all
    initial_sync fuel t = list_all fuel (clear_dir t)

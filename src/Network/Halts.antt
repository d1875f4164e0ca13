-- ===== src/Network/Halts.antt =====
-- The network thread leaves every connection that has no more to say (client/src/network.cpp).
use trabalho_sistemas_operac.Prelude.{
  ℕ, ◌≤◌, ◌==◌, Bool, true, false, Bool-cases, inl, inr, Option, none, some, List, if◌then◌else◌,
  arith,
}
use trabalho_sistemas_operac.Net.Reader.{ByteArray, Reader, read_byte_array}
use trabalho_sistemas_operac.Net.Reader.Left.{left, read_byte_array-left}
use trabalho_sistemas_operac.Net.Connection.{Connection}
use trabalho_sistemas_operac.Net.Connection.Left.{Uses}
use trabalho_sistemas_operac.Protocol.{FileDescription, status_success}
use trabalho_sistemas_operac.Protocol.Asked.{
  left-Uses, Uses-after, read_status-Uses, request_exit-Uses, request_delete-Uses,
  request_upload-Uses, request_list_files-Uses,
}
use trabalho_sistemas_operac.Session.{pointed}
use trabalho_sistemas_operac.Queue.{Call, done, push}
use trabalho_sistemas_operac.App.{
  Task, Outcome, returned, Host, task_list_files, task_upload, task_download, task_delete,
  task_exit,
}
use trabalho_sistemas_operac.Network.{
  Thread, Turn, turn, complete, answered, list_files_done, list_files_case, status_done,
  delete_case, exit_done, exit_case, from_app, upload_read, upload_case, write_download,
  download_done, download_case, handle_task, request_download_into, downloaded, take_array,
  reading_array, ask_download,
}

ask_download-Uses : (filename : List ℕ) → Uses (ask_download filename) 1
unfolding ask_download
ask_download-Uses filename =
    Uses-after _ _
      (λ a. Uses-after _ _ (λ b. Uses-after _ _ (λ c. Uses-after _ _ (λ d. read_status-Uses))))

downloaded-left :
    (array : ByteArray) (x : Option ℕ × Connection)
    → left (downloaded array x).1.reader ≤ left x.1.reader
unfolding reading_array
downloaded-left array (none, c) = omega arith
downloaded-left array (some status, c) = elim (Bool-cases (status == status_success)) [
  | inl e ↦ rw e (go (read_byte_array array c.reader) (read_byte_array-left array c.reader))
  | inr e ↦ rw e (omega arith)
]
  where
    go :
        (y : (Bool × ByteArray) × Reader)
        → left y.1 ≤ left c.reader
        → left (take_array status (y.0, record c { reader = y.1 })).1.reader ≤ left c.reader
    go ((true, a), r) h = h
    go ((false, a), r) h = h

pub request_download_into-left :
    (array : ByteArray) (filename : List ℕ) (c : Connection)
    → left (request_download_into array filename c).1.reader ≤ left c.reader
unfolding request_download_into
request_download_into-left array filename c = omega (
  arith,
  downloaded-left array (ask_download filename c),
  left-Uses (ask_download-Uses filename) c,
)

module _ {D : Type 0} where
  -- A turn after which no more than `n` bytes are left to come.
  unfoldable pub AtMost : ℕ → Turn D → Type 0
  AtMost n (turn running t) = left t.conn.reader ≤ n
  AtMost n Turn.waits = Unit
  AtMost n Turn.faults = Unit

  complete-AtMost :
      (n : ℕ) (task : Task) (success running : Bool) (t : Thread D)
      → left t.conn.reader ≤ n
      → AtMost n (complete task success running t)
  unfolding complete AtMost
  complete-AtMost n task success running t h =
      go (push task.task_id (record task { success = success }) t.process.done_queue)
    where
      go : (x : Call Task (Unit {0})) → AtMost n (answered running t x)
      go (done u q) = h
      go Call.waits = tt
      go Call.broken = tt

  pub from_app-AtMost :
      (n : ℕ) (running : Bool) (t : Thread D) (o : Outcome D)
      → left t.conn.reader ≤ n
      → AtMost n (from_app running t o)
  unfolding AtMost
  from_app-AtMost n running t (returned p) h = h
  from_app-AtMost n running t Outcome.waits h = tt
  from_app-AtMost n running t Outcome.faults h = tt

  module _ (n : ℕ) (task : Task) (t : Thread D) where
    list_files_done-AtMost :
        (x : Option (ℕ × Option (List FileDescription)) × Connection)
        → left x.1.reader ≤ n
        → AtMost n (list_files_done task t x)
    list_files_done-AtMost (none, c) h = complete-AtMost n _ _ _ _ h
    list_files_done-AtMost (some (status, none), c) h = complete-AtMost n _ _ _ _ h
    list_files_done-AtMost (some (status, some files), c) h = complete-AtMost n _ _ _ _ h

    status_done-AtMost :
        (x : Option ℕ × Connection) → left x.1.reader ≤ n → AtMost n (status_done task t x)
    status_done-AtMost (none, c) h = complete-AtMost n _ _ _ _ h
    status_done-AtMost (some status, c) h = complete-AtMost n _ _ _ _ h

    exit_done-AtMost :
        (x : Option (Unit {0}) × Connection) → left x.1.reader ≤ n → AtMost n (exit_done task t x)
    exit_done-AtMost (none, c) h = complete-AtMost n _ _ _ _ h
    exit_done-AtMost (some u, c) h = complete-AtMost n _ _ _ _ h

    module _ (host : Host D) where
      upload_read-AtMost :
          (x : Option (List ℕ)) → left t.conn.reader ≤ n → AtMost n (upload_read host task t x)
      upload_read-AtMost none h = complete-AtMost n _ _ _ _ h
      upload_read-AtMost (some contents) h =
          status_done-AtMost _
            (omega (arith, left-Uses (request_upload-Uses task.filename contents) t.conn))

  write_download-AtMost :
      (host : Host D) (n : ℕ) (task : Task) (t : Thread D) (x : Option (List ℕ))
      → left t.conn.reader ≤ n
      → AtMost n (write_download host task t x)
  unfolding AtMost
  write_download-AtMost host n task t none h = tt
  write_download-AtMost host n task t (some bytes) h = complete-AtMost n _ _ _ _ h

  module _ (host : Host D) where
    download_done-AtMost :
        (n : ℕ) (task : Task) (t : Thread D) (x : (Option ℕ × ByteArray) × Connection)
        → left x.1.reader ≤ n
        → AtMost n (download_done host task t x)
    download_done-AtMost n task t ((none, array), c) h = complete-AtMost n _ _ _ _ h
    download_done-AtMost n task t ((some status, array), c) h =
        elim (Bool-cases (status == status_success)) [
          | inl e ↦ rw e (
              write_download-AtMost host n task (record t { conn = c; array = array })
                (pointed array) h)
          | inr e ↦
              rw e (complete-AtMost n task false true (record t { conn = c; array = array }) h)
        ]

    module _ (task : Task) (t : Thread D) where
      by_type :
          (type : ℕ) (x y : Turn D)
          → AtMost (left t.conn.reader) x
          → AtMost (left t.conn.reader) y
          → AtMost (left t.conn.reader) (if task.type == type then x else y)
      by_type type x y f g = elim (Bool-cases (task.type == type)) [
        | inl e ↦ rw e f
        | inr e ↦ rw e g
      ]

      pub handle_task-AtMost : AtMost (left t.conn.reader) (handle_task host task t)
      unfolding handle_task list_files_case upload_case download_case delete_case exit_case AtMost
      handle_task-AtMost =
          let n : ℕ = left t.conn.reader in
          by_type task_list_files _ _
            (list_files_done-AtMost n task t _ (left-Uses request_list_files-Uses t.conn))
            (by_type task_upload _ _ (upload_read-AtMost n task t host _ (omega arith)) (
              by_type task_download _ _
                (download_done-AtMost n task t (request_download_into t.array task.filename t.conn)
                  (request_download_into-left t.array task.filename t.conn))
                (by_type task_delete _ _
                  (status_done-AtMost n task t _
                    (left-Uses (request_delete-Uses task.filename) t.conn))
                  (by_type task_exit _ _
                    (exit_done-AtMost n task t _ (left-Uses request_exit-Uses t.conn))
                    (omega arith)))))

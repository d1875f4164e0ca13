-- ===== src/App.antt =====
-- The client's view of a user's directory (client/src/app.cpp), with the task functions of
-- client/src/network.cpp that it calls. `Process` holds what the threads of a client share. A
-- function of `App` runs under its semaphore and is one step; `list_server` is two, since it
-- waits in the middle. The hash of the C++ library, and what an `std::ifstream` reads, are parameters.
pub mod Watch
pub mod Known
pub mod Padded
use trabalho_sistemas_operac.Prelude.{
  ℕ, zero, suc, ◌+◌, ◌%◌, ◌^◌, ◌==◌, Bool, true, false, not, Option, none, some, List, [], ◌∷◌,
  ◌++◌, if◌then◌else◌, bytes_eq,
}
use trabalho_sistemas_operac.Protocol.{FileDescription}
use trabalho_sistemas_operac.Session.{Netfs}
use trabalho_sistemas_operac.Queue.{Queue, Call, done, push, try_pop_by_id}
use trabalho_sistemas_operac.Queue

-- `task_type_t`; the type of a task is an `int`.
abbrev pub task_list_files : ℕ
task_list_files = 1

abbrev pub task_upload : ℕ
task_upload = 2

abbrev pub task_download : ℕ
task_download = 3

abbrev pub task_delete : ℕ
task_delete = 4

abbrev pub task_exit : ℕ
task_exit = 5

-- `network_task_t`, but for its content, which is always null and never read.
pub record Task : Type 0 where
  pub type : ℕ
  pub task_id : ℕ
  pub username : List ℕ
  pub filename : List ℕ
  pub path : List ℕ
  pub files : List FileDescription
  pub success : Bool

-- The variables of `App`, with the value of its semaphore, those of `Network`, and the disk.
pub record Process (D : Type 0) : Type 0 where
  pub username : List ℕ
  pub path : List ℕ
  pub dir_hash : List (List ℕ × ℕ)
  pub mutex : ℕ
  pub last_task_id : ℕ
  pub task_queue : Queue Task
  pub done_queue : Queue Task
  pub disk : D

-- A function returns, waits for a semaphore, or reads memory that is not there.
pub data Outcome (D : Type 0) : Type 0 where
  returned : Process D → Outcome D
  waits faults : Outcome D

-- A call of `list_server` has the answer, or is to look for it again.
pub data Listing (D : Type 0) : Type 0 where
  listed : List FileDescription → Process D → Listing D
  again : Process D → Listing D
  waits faults : Listing D

-- What the process gets from its host: `std::hash` on strings, the contents that an
-- `std::ifstream` finds under a path, and the functions of `netfs`.
pub record Host (D : Type 0) : Type 0 where
  pub hasher : List ℕ → ℕ
  pub contents : List ℕ → D → Option (List ℕ)
  pub netfs : Netfs D

-- A C string ends at the first 0.
unfoldable pub c_str : List ℕ → List ℕ
c_str [] = []
c_str (c ∷ s) = let rest = c_str s in if c == 0 then [] else c ∷ rest

-- `std::unordered_map` from strings to hashes: `count` and `[]`, the assignment, and `erase`.
unfoldable pub lookup : List ℕ → List (List ℕ × ℕ) → Option ℕ
lookup k [] = none
lookup k ((j, h) ∷ m) = if bytes_eq j k then some h else lookup k m

unfoldable pub insert : List ℕ → ℕ → List (List ℕ × ℕ) → List (List ℕ × ℕ)
insert k v [] = (k, v) ∷ []
insert k v ((j, h) ∷ m) =
    let rest = insert k v m in if bytes_eq j k then (j, v) ∷ m else (j, h) ∷ rest

unfoldable pub erase : List ℕ → List (List ℕ × ℕ) → List (List ℕ × ℕ)
erase k [] = []
erase k ((j, h) ∷ m) = let rest = erase k m in if bytes_eq j k then rest else (j, h) ∷ rest

-- `dir_hash.count(filename) == 0 || dir_hash[filename] != hash`
abbrev pub changed : Option ℕ → ℕ → Bool
changed none hash = true
changed (some known) hash = not (known == hash)

-- `std::filesystem::path(path).filename()`, with the part behind the last slash so far.
unfoldable pub base_name : List ℕ → List ℕ → List ℕ
base_name name [] = name
base_name name (c ∷ path) = base_name (if c == b'/' then [] else name ++ c ∷ []) path

module _ {D : Type 0} where
  -- `path + "/" + filename`
  abbrev pub path_file : List ℕ → Process D → List ℕ
  path_file filename p = p.path ++ (b'/' ∷ filename)

  unfoldable pub post : Outcome D → Outcome D
  post (returned p) = returned (record p { mutex = p.mutex + 1 })
  post waits = waits
  post faults = faults

  -- `sem_wait(&mutex)`, the rest of a function, and `sem_post(&mutex)`.
  unfoldable pub with_mutex : (Process D → Outcome D) → Process D → Outcome D
  unfolding post
  with_mutex k p = elim p.mutex [ zero ↦ waits | suc m ↦ post (k (record p { mutex = m })) ]

  abbrev pub new_task : ℕ → List ℕ → List ℕ → Process D → Task
  new_task type filename path p = record {
    type = type;
    task_id = p.last_task_id;
    username = p.username;
    filename = filename;
    path = path;
    files = [];
    success = false;
  }

  abbrev pub pushed : Process D → Call Task (Unit {0}) → Outcome D
  pushed p (done _ q) =
      returned (record p { last_task_id = (p.last_task_id + 1) % 2 ^ 32; task_queue = q })
  pushed p Call.waits = waits
  pushed p Call.broken = faults

  -- A task for the network thread, under the id `last_task_id++`.
  unfoldable pub push_task : ℕ → List ℕ → List ℕ → Process D → Outcome D
  push_task type filename path p =
      pushed p (push p.last_task_id (new_task type filename path p) p.task_queue)

  -- `Network::upload_file`, `download_file`, `delete_file`, `client_exit` and `list_files`.
  unfoldable pub upload_task : List ℕ → List ℕ → Process D → Outcome D
  unfolding push_task
  upload_task filename path = push_task task_upload filename path

  unfoldable pub download_task : List ℕ → List ℕ → Process D → Outcome D
  unfolding push_task
  download_task filename path = push_task task_download filename path

  unfoldable pub delete_task : List ℕ → Process D → Outcome D
  unfolding push_task
  delete_task filename = push_task task_delete filename filename

  unfoldable pub client_exit : Process D → Outcome D
  unfolding push_task
  client_exit = push_task task_exit [] []

  unfoldable pub list_files_task : Process D → Outcome D
  unfolding push_task
  list_files_task = push_task task_list_files [] []

  unfoldable pub upload_file : List ℕ → Process D → Outcome D
  unfolding with_mutex upload_task base_name
  upload_file path = with_mutex (upload_task (base_name [] path) path)

  unfoldable pub download_file : List ℕ → Process D → Outcome D
  unfolding with_mutex download_task
  download_file filename = with_mutex (download_task filename (b'.' ∷ b'/' ∷ filename))

  unfoldable pub delete_file : List ℕ → Process D → Outcome D
  unfolding with_mutex delete_task
  delete_file filename = with_mutex (delete_task filename)

  -- `list_server` up to `get_task_by_id`: the semaphore stays taken. The task has the id
  -- `last_task_id`.
  unfoldable pub list_server : Process D → Outcome D
  unfolding list_files_task
  list_server p = elim p.mutex [ zero ↦ waits | suc m ↦ list_files_task (record p { mutex = m }) ]

  -- A round of `get_task_by_id`, whose search is that of `try_pop_by_id`, and the end of `list_server`.
  abbrev pub found : Process D → Call Task (Option Task) → Listing D
  found p (done (some task) q) =
      listed task.files (record p { done_queue = q; mutex = p.mutex + 1 })
  found p (done none q) = again (record p { done_queue = q })
  found p Call.waits = waits
  found p Call.broken = faults

  unfoldable pub list_server_round : ℕ → Process D → Listing D
  list_server_round task_id p = found p (try_pop_by_id task_id p.done_queue)

  module _ (host : Host D) where
    unfoldable pub hash_file : List ℕ → Process D → ℕ
    unfolding c_str
    hash_file filename p = elim (host.contents (c_str (path_file filename p)) p.disk) [
      | none ↦ 0
      | some content ↦ host.hasher content
    ]

    -- The body of `notify_new_file` and `notify_modified`.
    unfoldable pub upload_changed : List ℕ → Process D → Outcome D
    unfolding hash_file upload_task lookup insert
    upload_changed filename p =
        if changed (lookup filename p.dir_hash) (hash_file filename p)
        then upload_task filename (path_file filename p)
            (record p { dir_hash = insert filename (hash_file filename p) p.dir_hash })
        else returned p

    unfoldable pub notify_new_file : List ℕ → Process D → Outcome D
    unfolding with_mutex upload_changed
    notify_new_file filename = with_mutex (upload_changed filename)

    unfoldable pub notify_modified : List ℕ → Process D → Outcome D
    unfolding with_mutex upload_changed
    notify_modified filename = with_mutex (upload_changed filename)

    unfoldable pub forget_deleted : List ℕ → Process D → Outcome D
    unfolding delete_task lookup erase
    forget_deleted filename p = elim (lookup filename p.dir_hash) [
      | none ↦ returned p
      | some hash ↦ delete_task filename (record p { dir_hash = erase filename p.dir_hash })
    ]

    unfoldable pub notify_deleted : List ℕ → Process D → Outcome D
    unfolding with_mutex forget_deleted
    notify_deleted filename = with_mutex (forget_deleted filename)

    -- The result of `netfs::write_file` is only printed.
    unfoldable pub write_changed : List ℕ → List ℕ → Process D → Outcome D
    unfolding c_str lookup insert
    write_changed filename buf p =
        let (written, disk') = host.netfs.write_file (c_str (path_file filename p)) buf p.disk in
        if changed (lookup filename p.dir_hash) (host.hasher buf)
        then returned
            (record p { dir_hash = insert filename (host.hasher buf) p.dir_hash; disk = disk' })
        else returned p

    unfoldable pub network_modified : List ℕ → List ℕ → Process D → Outcome D
    unfolding with_mutex write_changed
    network_modified filename buf = with_mutex (write_changed filename buf)

    unfoldable pub remove_known : List ℕ → Process D → Outcome D
    unfolding c_str lookup erase
    remove_known filename p = elim (lookup filename p.dir_hash) [
      | none ↦ returned p
      | some hash ↦
          let (removed, disk') = host.netfs.delete_file (c_str (path_file filename p)) p.disk in
          returned (record p { dir_hash = erase filename p.dir_hash; disk = disk' })
    ]

    unfoldable pub network_deleted : List ℕ → Process D → Outcome D
    unfolding with_mutex remove_known
    network_deleted filename = with_mutex (remove_known filename)

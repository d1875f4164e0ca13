-- ===== src/Start/Downloads.antt =====
-- The files that a client has behind its start (client/src/main.cpp, client/src/network.cpp).
use trabalho_sistemas_operac.Prelude.{
  ◌==◌, false, none, Option, ℕ, suc, ◌≡◌, ◌∙◌, refl, ap, sym, List, [], ◌∷◌, ◌++◌, length, ◌<◌, ◌^◌,
  All, append_assoc, append-nil, if◌then◌else◌, some,
}
use trabalho_sistemas_operac.Net.Reader.Stream.{pending}
use trabalho_sistemas_operac.Net.Reader.Word.{counted, little_endian}
use trabalho_sistemas_operac.Protocol.{FileDescription, status_success, status_empty}
use trabalho_sistemas_operac.Protocol.Wire.{packet}
use trabalho_sistemas_operac.Protocol.Answers.{
  descriptions, IsWritable, request_list_files-Delivers,
}
use trabalho_sistemas_operac.Session.{file_path, mkdir_command}
use trabalho_sistemas_operac.Session.Sent.{IsReady}
use trabalho_sistemas_operac.Queue.Order.{free}
use trabalho_sistemas_operac.App.{
  Task, Process, Outcome, Host, c_str, new_task, list_files_task, download_task, task_list_files,
  task_download, push_task, returned,
}
use trabalho_sistemas_operac.App.Known.{push_task_lem, with_task}
use trabalho_sistemas_operac.App
use trabalho_sistemas_operac.Network.{Thread, with_queue}
use trabalho_sistemas_operac.Network.Updates.{array_of}
use trabalho_sistemas_operac.Start.{
  Start, started, ends_in, exits, stuck, faulty, begun, answered_by, await, download_all, list_all,
  clear_dir, initial_sync, rm_command,
}
use trabalho_sistemas_operac.Net.Connection.Talk.{Delivers}
use trabalho_sistemas_operac.Protocol.Request.{request_list_files}
use trabalho_sistemas_operac.Start.Waiting.{
  request_list_files-refused, files_or, await_lem, list_files_lem, download_lem,
}

-- A file of the server: its description and its contents.
abbrev pub Stored : Type 0
Stored = FileDescription × List ℕ

unfoldable pub listed : List Stored → List FileDescription
listed [] = []
listed (f ∷ files) = f.0 ∷ listed files

-- What the server sends for the downloads, and what the client sends.
unfoldable pub contents_sent : List Stored → List ℕ
contents_sent [] = []
contents_sent (f ∷ files) =
    packet status_success (counted f.1) ++ (packet status_empty [] ++ contents_sent files)

unfoldable pub downloads_asked : List Stored → List ℕ
downloads_asked [] = []
downloads_asked (f ∷ files) =
    packet 1 (counted f.0.filename) ++ (packet 6 [] ++ downloads_asked files)

abbrev pub Sendable : Stored → Type 0
Sendable f = IsWritable f.0 × (length f.1 < 2 ^ 64)

-- What it sends for the list.
unfoldable pub list_sent : List Stored → List ℕ
list_sent files =
    packet status_success (little_endian 8 (length (listed files)) ++ descriptions (listed files))
    ++ packet status_empty []

listed-IsWritable : (files : List Stored) → All Sendable files → All IsWritable (listed files)
unfolding listed
listed-IsWritable [] h = tt
listed-IsWritable (f ∷ files) h = (h.0.0, listed-IsWritable files h.1)

module _ {D : Type 0} (host : Host D) where
  -- The disk when each file is written under its name in the directory of the user.
  unfoldable pub saved : List ℕ → List Stored → D → D
  saved username [] disk = disk
  saved username (f ∷ files) disk =
      saved username files
        (host.netfs.write_file (c_str (file_path username f.0.filename)) f.1 disk).1

  -- No task waits, and none is finished.
  pub record IsCalm (t : Thread D) : Type 0 where
    pub ready : IsReady t.conn
    pub waiting : t.process.task_queue ≡ free []
    pub finished : t.process.done_queue ≡ free []

  -- What the start makes of a thread.
  pub record Downloads (t t' : Thread D) (final : D) (bytes rest : List ℕ) : Type 0 where
    pub calm : IsCalm t'
    pub username : t'.process.username ≡ t.process.username
    pub disk : t'.process.disk ≡ final
    pub dir_hash : t'.process.dir_hash ≡ t.process.dir_hash
    pub reads : pending t'.conn.reader ≡ rest
    pub sent : t'.conn.writer.sent ≡ t.conn.writer.sent ++ bytes

  begun_lem :
      (type : ℕ) (filename path : List ℕ) (k : Thread D → Start D) (t : Thread D)
      → t.process.task_queue ≡ free []
      → begun (push_task type filename path) k t
        ≡ k (record t { process = with_task t.process (new_task type filename path t.process) [] })
  begun_lem type filename path k t e =
      ap
        (λ o. elim o as (λ o. Start D) [
          | returned p ↦ k (record t { process = p })
          | App.waits ↦ ends_in stuck
          | App.faults ↦ ends_in faulty
        ])
        (push_task_lem type filename path t.process [] e)

  -- What was sent: a request, a question, and the rest.
  sent_join :
      (before request later : List ℕ) {one two : List ℕ}
      → one ≡ before ++ request
      → two ≡ one ++ packet 6 []
      → two ++ later ≡ before ++ (request ++ (packet 6 [] ++ later))
  sent_join before request later e f =
      ap (λ bs. bs ++ later) (f ∙ ap (λ bs. bs ++ packet 6 []) e)
      ∙ append_assoc (before ++ request) (packet 6 []) later
      ∙ append_assoc before request (packet 6 [] ++ later)

  download_all-Downloads :
      (fuel : ℕ) (files : List Stored) (t : Thread D) (rest : List ℕ)
      → IsCalm t
      → All Sendable files
      → pending t.conn.reader ≡ contents_sent files ++ rest
      → (t' : Thread D) × (download_all host (suc fuel) (listed files) t ≡ started t')
        × Downloads t t'
            (saved t.process.username files t.process.disk)
            (downloads_asked files)
            rest
  unfolding download_all listed contents_sent downloads_asked saved download_task
  download_all-Downloads fuel [] t rest calm h e = (
    t,
    refl,
    record {
      calm = calm;
      username = refl;
      disk = refl;
      dir_hash = refl;
      reads = e;
      sent = sym (append-nil t.conn.writer.sent);
    },
  )
  download_all-Downloads fuel (f ∷ files) t rest calm h e =
      let path = file_path t.process.username f.0.filename in
      let task : Task = new_task task_download f.0.filename path t.process in
      let t0 : Thread D = record t { process = with_task t.process task [] } in
      let later = contents_sent files ++ rest in
      let bytes : pending t.conn.reader
          ≡ packet status_success (counted f.1) ++ (packet status_empty [] ++ later) =
        e
        ∙ append_assoc (packet status_success (counted f.1))
            (packet status_empty [] ++ contents_sent files) rest
        ∙ ap (λ bs. packet status_success (counted f.1) ++ bs)
            (append_assoc (packet status_empty []) (contents_sent files) rest) in
      let (c, handled, x) =
        download_lem host (with_queue host (free []) t0) task f.1 (packet status_empty [] ++ later)
          refl calm.finished h.0.0.name_text h.0.1 calm.ready bytes in
      let disk = (host.netfs.write_file (c_str path) f.1 t.process.disk).1 in
      let t1 : Thread D = record t {
        conn = c;
        array = array_of f.1;
        process = record (t.process) {
          last_task_id = t0.process.last_task_id;
          task_queue = free [];
          disk = disk;
        };
      } in
      let (c', got_it, y) =
        await_lem host fuel task.task_id t0 t1 task _ later refl handled x.ready x.reads in
      let t2 : Thread D = record t1 {
        process = record (t1.process) { done_queue = free [] };
        conn = c';
      } in
      let (t', ran, z) =
        download_all-Downloads fuel files t2 rest
          (record { ready = y.ready; waiting = refl; finished = refl }) h.1 y.reads in
      (
        t',
        begun_lem task_download f.0.filename path
              (λ s.
                answered_by (await host (suc fuel) task.task_id s)
                  (λ task' t''. download_all host (suc fuel) (listed files) t''))
              t calm.waiting
            ∙ ap (λ w. answered_by w (λ task' t''. download_all host (suc fuel) (listed files) t''))
                got_it
            ∙ ran,
        record {
          calm = z.calm;
          username = z.username;
          disk = z.disk;
          dir_hash = z.dir_hash;
          reads = z.reads;
          sent =
              z.sent
              ∙ sent_join t.conn.writer.sent (packet 1 (counted f.0.filename))
                  (downloads_asked files) x.sent y.sent;
        },
      )

  -- The disk behind the two calls of `system`.
  unfoldable pub cleared : List ℕ → D → D
  cleared username disk =
      host.netfs.system (mkdir_command username) (host.netfs.system (rm_command username) disk)

  -- The start up to the answer to the list request, of whatever status.
  initial_sync_lem :
      (fuel : ℕ) (t : Thread D) (status : ℕ) (reply : Option (List FileDescription))
      (bytes later : List ℕ)
      → Delivers request_list_files (status, reply) bytes (packet 4 [])
      → IsCalm t
      → pending t.conn.reader ≡ bytes ++ (packet status_empty [] ++ later)
      → (t' : Thread D) × (initial_sync host (suc fuel) t
          ≡ download_all host (suc fuel) (files_or [] reply) t')
        × Downloads t t'
            (cleared t.process.username t.process.disk)
            (packet 4 [] ++ packet 6 [])
            later
  unfolding initial_sync list_all clear_dir cleared list_files_task
  initial_sync_lem fuel t status reply bytes later h calm e =
      let task : Task = new_task task_list_files [] [] t.process in
      let cleaned : Thread D = clear_dir host t in
      let t0 : Thread D = record cleaned { process = with_task cleaned.process task [] } in
      let (c, handled, x) =
        list_files_lem host (with_queue host (free []) t0) task status reply bytes
          (packet status_empty [] ++ later) refl calm.finished h calm.ready e in
      let t1 : Thread D = record cleaned {
        conn = c;
        process = record (cleaned.process) {
          last_task_id = t0.process.last_task_id;
          task_queue = free [];
        };
      } in
      let (c', got_it, y) =
        await_lem host fuel task.task_id t0 t1 task _ later refl handled x.ready x.reads in
      let go : Task → Thread D → Start D = λ task' t''.
        if task'.success then download_all host (suc fuel) task'.files t'' else exits in
      (
        record t1 { process = record (t1.process) { done_queue = free [] }; conn = c' },
        begun_lem task_list_files [] [] (λ s. answered_by (await host (suc fuel) task.task_id s) go)
              cleaned calm.waiting
            ∙ ap (λ w. answered_by w go) got_it,
        record {
          calm = record { ready = y.ready; waiting = refl; finished = refl };
          username = refl;
          disk = refl;
          dir_hash = refl;
          reads = y.reads;
          sent =
              y.sent
              ∙ ap (λ bs. bs ++ packet 6 []) x.sent
              ∙ append_assoc t.conn.writer.sent (packet 4 []) (packet 6 []);
        },
      )

  -- With an open connection with nothing left to send, no task waiting or finished, and files whose
  -- descriptions fit on the wire and whose lengths fit: if what is pending is the list of the
  -- files, no event, and for each file its contents and no event, then with a round for each wait
  -- `initial_sync` goes on to the command line, has sent just the requests, has taken just the
  -- answers, has written each file under its name in the directory of the user, behind the two
  -- shell commands, whether the writes succeed or not, and has left the known hashes as they were.
  pub initial_sync-Downloads :
      (fuel : ℕ) (files : List Stored) (t : Thread D) (rest : List ℕ)
      → IsCalm t
      → All Sendable files
      → length (listed files) < 2 ^ 64
      → pending t.conn.reader ≡ list_sent files ++ (contents_sent files ++ rest)
      → (t' : Thread D) × (initial_sync host (suc fuel) t ≡ started t')
        × Downloads t t'
            (saved t.process.username files (cleared t.process.username t.process.disk))
            (packet 4 [] ++ (packet 6 [] ++ downloads_asked files))
            rest
  unfolding list_sent
  initial_sync-Downloads fuel files t rest calm h fits e =
      let answer =
        packet status_success
          (little_endian 8 (length (listed files)) ++ descriptions (listed files)) in
      let later = contents_sent files ++ rest in
      let (t₁, asked, x) =
        initial_sync_lem fuel t status_success (some (listed files)) answer later
          (request_list_files-Delivers (listed files) (listed-IsWritable files h) fits) calm
          (e ∙ append_assoc answer (packet status_empty []) later) in
      let (t', ran, y) = download_all-Downloads fuel files t₁ rest x.calm h x.reads in
      (
        t',
        asked ∙ ran,
        record {
          calm = y.calm;
          username = y.username ∙ x.username;
          disk =
              y.disk
              ∙ ap (λ u. saved u files t₁.process.disk) x.username
              ∙ ap (saved t.process.username files) x.disk;
          dir_hash = y.dir_hash ∙ x.dir_hash;
          reads = y.reads;
          sent =
              y.sent
              ∙ ap (λ bs. bs ++ downloads_asked files) x.sent
              ∙ append_assoc t.conn.writer.sent (packet 4 [] ++ packet 6 []) (downloads_asked files)
              ∙ ap (λ bs. t.conn.writer.sent ++ bs)
                  (append_assoc (packet 4 []) (packet 6 []) (downloads_asked files));
        },
      )

  -- With an open connection with nothing left to send, no task waiting or finished, and a status
  -- pending that is not success and then no event, the start behaves as with no files: with a round
  -- for each wait `initial_sync` goes on to the command line with the disk as the two shell
  -- commands leave it, and has sent just the request for the list and a question for an event.
  pub initial_sync-refused :
      (fuel status : ℕ) (t : Thread D) (rest : List ℕ)
      → IsCalm t
      → (status == status_success) ≡ false
      → pending t.conn.reader ≡ packet status [] ++ (packet status_empty [] ++ rest)
      → (t' : Thread D) × (initial_sync host (suc fuel) t ≡ started t')
        × Downloads t t'
            (cleared t.process.username t.process.disk)
            (packet 4 [] ++ packet 6 [])
            rest
  unfolding download_all
  initial_sync-refused fuel status t rest calm refused e =
      initial_sync_lem fuel t status none (packet status []) rest
        (request_list_files-refused status refused) calm e

-- ===== src/Examples/App.antt =====
-- A client on a disk that keeps files, and the connections that its network thread gets.
use mathlib.Core.Option.{some-injective}
use trabalho_sistemas_operac.Prelude.{
  ℕ, ◌+◌, ◌*◌, ◌≡◌, ◌∙◌, ◌<◌, refl, ap, sym, subst, true, false, Option, none, some, List, [], ◌∷◌,
  ◌++◌, bytes_eq, bytes_eq_self, if◌then◌else◌, arith,
}
use trabalho_sistemas_operac.Examples.{
  line_with, line_with-IsOpen, third_server, IsOpen, append-nil,
}
use trabalho_sistemas_operac.Net.Connection.{conn_new}
use trabalho_sistemas_operac.Net.Reader.{init_reader, owned}
use trabalho_sistemas_operac.Net.Reader.Stream.{pending}
use trabalho_sistemas_operac.Net.Reader.Left.{left}
use trabalho_sistemas_operac.Net.Reader.Left
use trabalho_sistemas_operac.Net.Reader.Word.{counted, little_endian}
use trabalho_sistemas_operac.Net.Writer.Word.{IsText}
use trabalho_sistemas_operac.Net.Writer.Stream.{written}
use trabalho_sistemas_operac.Net.Writer.{init_writer}
use trabalho_sistemas_operac.Protocol.{status_success, status_fail, event_code}
use trabalho_sistemas_operac.Protocol.Wire.{packet}
use trabalho_sistemas_operac.Protocol.Answers.{event_bytes}
use trabalho_sistemas_operac.Session.Sent.{IsReady}
use trabalho_sistemas_operac.Queue.Order.{free}
use trabalho_sistemas_operac.Coms.Client.{Dial}
use trabalho_sistemas_operac.Election.Handlers.{message}
use trabalho_sistemas_operac.Dns.{Dns, serve, serve_all}
use trabalho_sistemas_operac.App.{
  Task, Process, returned, Host, Listing, c_str, lookup, path_file, task_upload, network_modified,
  notify_modified, list_server, list_server_round,
}
use trabalho_sistemas_operac.App.Known.{taken, IsIdle, Rereads, network_modified-notify_modified}
use trabalho_sistemas_operac.App.Watch.{in_modify, handle_event}
use trabalho_sistemas_operac.App.Padded.{network_modified-handle_event}
use trabalho_sistemas_operac.Network.{Thread, Turn, ask_dns, handle_updates, thread_function}
use trabalho_sistemas_operac.Network.Ends.{Brief, is_looping, thread_function-ends}
use trabalho_sistemas_operac.Network.Dns.{ask_dns-serve_all}
use trabalho_sistemas_operac.Network.Updates.{modified, questions, handle_updates-stale}
use trabalho_sistemas_operac.Network.Deadlock.{list_server-handle_updates}
use trabalho_sistemas_operac.Session.{pointed}
use trabalho_sistemas_operac.Dns.Update.{serve_update-query}

-- The contents of the files, the latest first.
abbrev pub Disk : Type 0
Disk = List (List ℕ × List ℕ)

unfoldable pub contents : List ℕ → Disk → Option (List ℕ)
contents path [] = none
contents path ((name, bytes) ∷ disk) =
    let older = contents path disk in if bytes_eq name path then some bytes else older

unfoldable pub hasher : List ℕ → ℕ
hasher [] = 7
hasher (b ∷ bytes) = hasher bytes * 31 + b

abbrev pub host : Host Disk
host = record {
  hasher = hasher;
  contents = contents;
  netfs = record {
    read_file = contents;
    write_file = λ path bytes disk. (true, (path, bytes) ∷ disk);
    delete_file = λ path disk. (true, disk);
    list_files = λ path disk. none;
    system = λ command disk. disk;
  };
}

pub host-Rereads : Rereads host
unfolding contents
host-Rereads path buf disk disk' e =
    subst (λ d. contents path d ≡ some buf) (ap (λ x. x.1) e) (rw (bytes_eq_self path) refl)

abbrev dns : Dns
dns = record { primary_ip = 99; primary_port = 4000 }

-- The directory "d" of the user "u", with one task that waits.
abbrev pub waiting : Task
waiting = record {
  type = task_upload;
  task_id = 0;
  username = 117 ∷ [];
  filename = 102 ∷ [];
  path = 100 ∷ 47 ∷ 102 ∷ [];
  files = [];
  success = false;
}

abbrev pub process : Process Disk
process = record {
  username = 117 ∷ [];
  path = 100 ∷ [];
  dir_hash = [];
  mutex = 1;
  last_task_id = 1;
  task_queue = free ((0, waiting) ∷ []);
  done_queue = free [];
  disk = (100 ∷ 47 ∷ 102 ∷ [], 5 ∷ []) ∷ [];
}

process-IsIdle : IsIdle ((0, waiting) ∷ []) process
process-IsIdle = record { mutex = refl; queue = refl }

pub name-IsText : IsText (102 ∷ [])
name-IsText = ((λ e. ground (arith, e)), tt)

network_modified-notify_modified_example :
    (p' : Process Disk) × (network_modified host (102 ∷ []) (8 ∷ 9 ∷ []) process ≡ returned p')
    × (contents (c_str (path_file (102 ∷ []) process)) p'.disk ≡ some (8 ∷ 9 ∷ []))
    × (notify_modified host (102 ∷ []) p' ≡ returned p')
unfolding lookup
network_modified-notify_modified_example =
    network_modified-notify_modified host process (102 ∷ []) (8 ∷ 9 ∷ []) _ host-Rereads refl refl
      refl

abbrev padded_name : List ℕ
padded_name = (102 ∷ []) ++ (0 ∷ 0 ∷ 0 ∷ [])

network_modified-handle_event_example :
    (p' : Process Disk) × (p'' : Process Disk) × (task : Task) × (network_modified host
        (102 ∷ [])
        (8 ∷ 9 ∷ [])
        process
      ≡ returned p')
    × (handle_event host (record { mask = in_modify; name = padded_name }) p' ≡ returned p'')
    × (p''.task_queue ≡ free ((0, waiting) ∷ (1, task) ∷ []))
    × (task.type ≡ task_upload)
    × (c_str task.filename ≡ 102 ∷ [])
unfolding lookup
network_modified-handle_event_example =
    network_modified-handle_event host (102 ∷ []) name-IsText process (8 ∷ 9 ∷ []) (0 ∷ 0 ∷ []) _
      ((0, waiting) ∷ []) process-IsIdle refl refl refl

-- A change of the file, and then its contents, or a refusal.
abbrev change : List ℕ
change = packet status_success (event_bytes (modified (102 ∷ [])))

abbrev told : List ℕ
told = change ++ (packet status_success (counted (8 ∷ 9 ∷ [])) ++ [])

abbrev refused : List ℕ
refused = change ++ (packet status_fail [] ++ [])

abbrev thread : List ℕ → Thread Disk
thread bytes = record {
  process = process;
  conn = line_with bytes;
  array = record { length = 1; bytes = owned (4 ∷ []) };
}

told-IsReady : IsReady (line_with told) × (pending (line_with told).reader ≡ told)
unfolding packet counted little_endian event_bytes event_code conn_new init_writer
told-IsReady =
    let x = line_with-IsOpen told (omega arith) (omega arith) in
    (record { opened = x.0; flushed = refl }, x.1)

refused-IsReady : IsReady (line_with refused) × (pending (line_with refused).reader ≡ refused)
unfolding packet counted little_endian event_bytes event_code conn_new init_writer
refused-IsReady =
    let x = line_with-IsOpen refused (omega arith) (omega arith) in
    (record { opened = x.0; flushed = refl }, x.1)

handle_updates-stale_example :
    (t' : Thread Disk) × (handle_updates host true (thread refused) ≡ Turn.turn true t')
    × (t'.process
        ≡ taken host (102 ∷ []) (4 ∷ []) ((100 ∷ 47 ∷ 102 ∷ [], 4 ∷ []) ∷ process.disk) process)
    × (pending t'.conn.reader ≡ [])
    × (t'.conn.writer.sent ≡ questions (102 ∷ []))
unfolding lookup c_str pointed questions conn_new packet init_writer
handle_updates-stale_example =
    handle_updates-stale host true (thread refused) (102 ∷ []) name-IsText (omega arith)
      (refused-IsReady.0) (4 ∷ []) _ refl refl refl status_fail [] refl refl (refused-IsReady.1)

list_server-handle_updates_example :
    (p : Process Disk) × (list_server process ≡ returned p)
    × (handle_updates host true (record (thread told) { process = p }) ≡ Turn.waits)
    × (list_server_round 1 p ≡ Listing.waits)
list_server-handle_updates_example =
    list_server-handle_updates host true (thread told) (102 ∷ []) (8 ∷ 9 ∷ []) []
      ((0, waiting) ∷ []) name-IsText (omega arith) (omega arith) (told-IsReady.0) process-IsIdle
      refl (told-IsReady.1)

-- The name server, and then any other server, can be dialled.
abbrev dial_short : Dial
dial_short ip port = some (line_with (1 ∷ 0 ∷ 10 ∷ []))

dial_short-Brief : Brief 9 dial_short
unfolding left Left.total conn_new init_reader
dial_short-Brief ip port c e = subst (λ c. left c.reader < 9) (some-injective _ _ e) (omega arith)

thread_function-ends_example :
    is_looping (thread_function host 9 5 2000 ((dial_short, 7) ∷ (dial_short, 0) ∷ []) process)
    ≡ false
thread_function-ends_example =
    thread_function-ends host 9 5 2000 ((dial_short, 7) ∷ (dial_short, 0) ∷ []) process
      (dial_short-Brief, (dial_short-Brief, tt))

abbrev address : List ℕ
address = little_endian 4 17 ++ little_endian 2 4010

address-pending : IsOpen (line_with address) × (pending (line_with address).reader ≡ address)
unfolding little_endian
address-pending = let x = line_with-IsOpen address (omega arith) (omega arith) in (x.0, x.1)

-- What the name server sends.
sent_address :
    (serve
      (line_with (10 ∷ []))
      (serve_all (line_with (message 20 third_server) ∷ []) dns)).1.writer.sent
    ≡ address
unfolding message little_endian
sent_address =
    serve_update-query dns third_server (line_with (message 20 third_server)) (line_with (10 ∷ []))
      [] [] [] (line_with-IsOpen (message 20 third_server) (omega arith) (omega arith)).0
      ((line_with-IsOpen (message 20 third_server) (omega arith) (omega arith)).1) (omega arith)
      (omega arith) tt (line_with-IsOpen (10 ∷ []) (omega arith) (omega arith)).0
      ((line_with-IsOpen (10 ∷ []) (omega arith) (omega arith)).2)
      ((line_with-IsOpen (10 ∷ []) (omega arith) (omega arith)).1)

ask_dns-serve_all_example :
    ((ask_dns (line_with address)).0 ≡ some (17, 4010))
    × ((ask_dns (line_with address)).1.writer.sent ≡ 10 ∷ [])
unfolding message little_endian written conn_new init_writer
ask_dns-serve_all_example =
    ask_dns-serve_all dns third_server (line_with (message 20 third_server)) (line_with (10 ∷ []))
      (line_with address) [] [] [] []
      (line_with-IsOpen (message 20 third_server) (omega arith) (omega arith)).0
      ((line_with-IsOpen (message 20 third_server) (omega arith) (omega arith)).1) (omega arith)
      (omega arith) tt (line_with-IsOpen (10 ∷ []) (omega arith) (omega arith)).0
      ((line_with-IsOpen (10 ∷ []) (omega arith) (omega arith)).2)
      ((line_with-IsOpen (10 ∷ []) (omega arith) (omega arith)).1) (address-pending.0) refl
      (address-pending.1 ∙ sym (append-nil address) ∙ ap (λ bs. bs ++ []) (sym sent_address))

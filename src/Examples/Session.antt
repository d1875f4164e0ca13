-- ===== src/Examples/Session.antt =====
-- A primary server, the only one, with one client, who uploads a file and downloads it.
use mathlib.Core.Option.{some-injective}
use trabalho_sistemas_operac.Prelude.{
  ℕ, refl, ap, subst, ◌≡◌, ◌∙◌, true, false, Option, none, some, List, [], ◌∷◌, ◌++◌, length,
  bytes_eq, bytes_eq_self, if◌then◌else◌, arith, append-nil, map, sym, All, ◌↔◌, ◌<◌, inr, inl,
}
use trabalho_sistemas_operac.Files.Store.{
  total, Stores, joined, read_loop-joined, write_file-read_file,
}
use trabalho_sistemas_operac.Protocol.{status_success, status_fail}
use trabalho_sistemas_operac.Protocol.Parse.{upload, download}
use trabalho_sistemas_operac.Clients.{
  Client, new_client, client_new, can_connect, erase_invalid, invalid_from, count_clients,
}
use trabalho_sistemas_operac.Session.{
  file_path, Session, Netfs, client_handler_thread, turn, handle_upload, pointed,
}
use trabalho_sistemas_operac.Session.Spec.{success, stream, answer_to}
use trabalho_sistemas_operac.Session.Thread.{Served, answers_after, client_handler_thread-refines}
use trabalho_sistemas_operac.Examples.{
  line-IsReady, line_with, line_with-IsOpen, line, ReadResult, state_init, got, conn_new, dial,
}
use trabalho_sistemas_operac.Net.Reader.{owned, init_reader, ReadResult, got, again, unset}
use trabalho_sistemas_operac.Node.{backup, state_init, is_primary, primary}
use trabalho_sistemas_operac.Coms.Client.{Dial}
use trabalho_sistemas_operac.Session.Sent.{asker}
use trabalho_sistemas_operac.Session.Letters.{Listens}
use trabalho_sistemas_operac.Session.Replicas.{Leads, Replicated, handle_upload-replicates}
use trabalho_sistemas_operac.Session.Halts.{still_running, client_handler_thread-ends}
use trabalho_sistemas_operac.Net.Reader.Left.{left}
use trabalho_sistemas_operac.Net.Reader.Left
use trabalho_sistemas_operac.Files.{
  Entry, write_loop, FileMetadata, Os, Opened, Stat, read_file, write_file, list_files, with_stat,
}
use trabalho_sistemas_operac.Files.Progress.{write_loop-returns, write_file-stuck}
use trabalho_sistemas_operac.Files.Listing.{Member, entry_of, list_files-regular, regular_files}
use trabalho_sistemas_operac.Protocol.Wire.{packet}
use trabalho_sistemas_operac.Net.Reader.Stream.{pending, arriving}
use trabalho_sistemas_operac.Net.Reader.Word.{counted, little_endian}
use trabalho_sistemas_operac.Net.Writer.{init_writer}
use trabalho_sistemas_operac.Net.Connection.{conn_new}
use trabalho_sistemas_operac.Session.Loop.{Serves}
use trabalho_sistemas_operac.Session.Store.{Returns, netfs, upload-download, netfs-Keeps}
use trabalho_sistemas_operac.Session.Rounds.{Lists}
use trabalho_sistemas_operac.Protocol.Answers.{IsWritable}

-- The contents of the files, the latest first.
abbrev Disk : Type 0
Disk = List (List ℕ × List ℕ)

unfoldable contents : List ℕ → Disk → Option (List ℕ)
contents path [] = none
contents path ((name, bytes) ∷ disk) =
    let older = contents path disk in if bytes_eq name path then some bytes else older

abbrev old_bytes : Option (List ℕ) → List ℕ
old_bytes none = []
old_bytes (some bytes) = bytes

-- A file is read in one call, unless it is empty, and written in one or two.
abbrev opened : Option (List ℕ) → Option Opened
opened none = none
opened (some bytes) = some (record { size = length bytes; allocated = true; reads = bytes ∷ [] })

abbrev stat_of : Option (List ℕ) → Option Stat
stat_of none = none
stat_of (some bytes) = some (record { mtime = 3; atime = 4; ctime = 5 })

abbrev member : Member
member = record {
  file = record { filename = 97 ∷ []; mtime = 3; atime = 4; ctime = 5 };
  regular = true;
}

abbrev os : Os Disk
os = record {
  open_read = λ path disk. opened (contents path disk);
  open_write = λ path amount disk. some (2 ∷ amount ∷ [], (path, []) ∷ disk);
  append = λ path more disk. (path, old_bytes (contents path disk) ++ more) ∷ disk;
  stat = λ path disk. stat_of (contents path disk);
  remove = λ path disk. (false, disk);
  directory = λ path disk. some (map (entry_of path) (member ∷ []));
}

os-Stores : Stores os contents
unfolding contents joined
os-Stores = record {
  opens = λ path amount disk disk' sizes e.
      subst (λ d. contents path d ≡ some []) (ap (λ x. x.1) (some-injective _ _ e))
        (rw (bytes_eq_self path) refl);
  appends = λ path bytes more disk e. rw (bytes_eq_self path, e) refl;
  reads = λ path bytes disk e. (
    record { size = length bytes; allocated = true; reads = bytes ∷ [] },
    rw e refl,
    refl,
    refl,
    append-nil bytes,
  );
  stats = λ path bytes disk e. (record { mtime = 3; atime = 4; ctime = 5 }, rw e refl);
}

read-returns :
    (path : List ℕ) (disk : Disk) (found : Option (List ℕ))
    → contents path disk ≡ found
    → (r : Option FileMetadata) × (read_file os path disk ≡ some r)
unfolding read_file with_stat joined
read-returns path disk none e = (none, rw (e, read_file) refl)
read-returns path disk (some bytes) e =
    let loop =
      read_loop-joined (bytes ∷ []) (length bytes) [] (ap length (sym (append-nil bytes))) in
    (
      some (record {
        length = length bytes;
        mtime = 3;
        atime = 4;
        ctime = 5;
        contents = joined (bytes ∷ []);
      }),
      rw (e, read_file, loop) (rw (e, with_stat) refl),
    )

unfoldable os-Returns : Returns os
unfolding write_file total
os-Returns = record {
  reads = λ path disk. read-returns path disk _ refl;
  writes = λ path buf disk.
      let l =
        write_loop-returns os path (2 ∷ length buf ∷ []) buf ((path, []) ∷ disk) (omega arith) in
      ((true, l.0), rw (write_file, l.1) refl);
}

-- A disk that is full after two bytes.
abbrev full : Os Disk
full = record os { open_write = λ path amount disk. some (2 ∷ [], (path, []) ∷ disk) }

-- A file that is gone when it is looked at.
abbrev lost : Entry
lost = record { path = 120 ∷ []; regular = true; stat = none }

abbrev broken : Os Disk
broken = record os { directory = λ path disk. some (lost ∷ []) }

abbrev fs : Netfs Disk
fs = netfs os os-Returns (λ command disk. disk)

fs-Lists : Lists fs
unfolding netfs list_files regular_files
fs-Lists path disk files e =
    let listed = list_files-regular os path (member ∷ []) disk refl in
    subst (All IsWritable) (some-injective _ _ (sym listed ∙ e)) (
      record {
        mtime_lt = omega arith;
        atime_lt = omega arith;
        ctime_lt = omega arith;
        name_text = (ground arith, tt);
        name_lt = omega arith;
      },
      tt,
    )

abbrev name : List ℕ
name = 97 ∷ 98 ∷ []

abbrev wire : List ReadResult
wire =
    got (packet 0 (counted name ++ 0 ∷ []))
    ∷ got (packet 2 (counted (102 ∷ []) ++ counted (7 ∷ 0 ∷ 9 ∷ [])))
    ∷ again
    ∷ got (packet 1 (counted (102 ∷ [])))
    ∷ []

abbrev session : Session Disk
session = record {
  node = state_init 17 4010 primary 5 2000;
  clients = [];
  disk = [];
  conn = line wire;
  connection_id = 1;
  sockfd = 3;
  username = [];
  packet = record {
    header = record { protocol_version = 0; packet_type = 0 };
    filename = [];
    array = record { length = 0; bytes = unset };
  };
  status = 0;
}

session-Serves : Serves session × (pending session.conn.reader ≡ arriving wire)
unfolding is_primary state_init conn_new init_writer packet counted little_endian
session-Serves =
    let x = line-IsReady wire (
      (omega arith, omega arith),
      ((omega arith, omega arith), (tt, ((omega arith, omega arith), tt))),
    ) in
    (record { alone = inr (refl, (refl, tt)); ready = x.0; events = tt }, x.1)

abbrev member_of_ab : Client
member_of_ab = new_client name 1 3 false

client_handler_thread-refines_example :
    (s' : Session Disk) × (client_handler_thread dial fs 3 (λ sockfd. 0) session ≡ turn false s')
    × Served session s' (
        answers_after fs session name
          (member_of_ab ∷ [])
          (upload (102 ∷ []) (7 ∷ 0 ∷ 9 ∷ []) ∷ download (102 ∷ []) ∷ []))
unfolding new_client client_new can_connect erase_invalid invalid_from count_clients packet counted
    little_endian stream arriving
client_handler_thread-refines_example =
    client_handler_thread-refines dial fs (λ sockfd. 0) session name false (member_of_ab ∷ [])
      (upload (102 ∷ []) (7 ∷ 0 ∷ 9 ∷ []) ∷ download (102 ∷ []) ∷ []) [] 3 fs-Lists session-Serves.0
      (omega arith) refl
      (
        ((omega arith, omega arith), ((λ e. ground (arith, e)), tt)),
        ((omega arith, ((λ e. ground (arith, e)), tt)), tt),
      )
      (session-Serves.1 ∙ refl) (inr refl) (omega arith)

upload-download_example :
    (s' : Session Disk) × (client_handler_thread dial fs 3 (λ sockfd. 0) session ≡ turn false s')
    × (s'.conn.writer.sent
        ≡ session.conn.writer.sent
          ++ (success ++ (success ++ packet status_success (counted (7 ∷ 0 ∷ 9 ∷ [])))))
    × (s'.disk ≡ (fs.write_file (file_path name (102 ∷ [])) (7 ∷ 0 ∷ 9 ∷ []) []).1)
unfolding netfs os-Returns new_client client_new can_connect erase_invalid invalid_from
    count_clients packet counted little_endian stream arriving
upload-download_example =
    upload-download dial fs (λ sockfd. 0) session name (102 ∷ []) (7 ∷ 0 ∷ 9 ∷ []) false
      (member_of_ab ∷ []) (fs.write_file (file_path name (102 ∷ [])) (7 ∷ 0 ∷ 9 ∷ []) []).1 3
      fs-Lists (netfs-Keeps os os-Returns (λ command disk. disk) contents os-Stores)
      session-Serves.0 (omega arith) ((λ e. ground (arith, e)), tt) (omega arith) (omega arith) refl
      (session-Serves.1 ∙ refl) refl (omega arith)

client_handler_thread-ends_example :
    still_running (client_handler_thread dial fs 80 (λ sockfd. 0) session) ≡ false
unfolding left Left.total conn_new init_reader packet counted little_endian
client_handler_thread-ends_example =
    client_handler_thread-ends dial fs (λ sockfd. 0) 80 session (omega arith)

write_file-read_file_example :
    (m : FileMetadata) × (read_file os name
        ((name, 7 ∷ 8 ∷ 9 ∷ []) ∷ (name, 7 ∷ 8 ∷ []) ∷ (name, []) ∷ [])
      ≡ some (some m))
    × (m.contents ≡ 7 ∷ 8 ∷ 9 ∷ [])
    × (m.length ≡ 3)
unfolding write_file write_loop contents bytes_eq
write_file-read_file_example =
    write_file-read_file os contents os-Stores name (7 ∷ 8 ∷ 9 ∷ []) [] _ refl

write_file-stuck_example : (write_file full name (7 ∷ 8 ∷ 9 ∷ []) [] ≡ none) ↔ (total (2 ∷ []) < 3)
write_file-stuck_example =
    write_file-stuck full name (7 ∷ 8 ∷ 9 ∷ []) (2 ∷ []) [] ((name, []) ∷ []) refl

list_files-regular_example : list_files os name [] ≡ some (regular_files (member ∷ []))
list_files-regular_example = list_files-regular os name (member ∷ []) [] refl

-- A primary server with a backup server that fails.
abbrev leader : Session Disk
leader = record session {
  node = record (state_init 17 4010 primary 5 2000) {
    servers =
        record { ip = 17; port = 4010; server_type = primary }
        ∷ record { ip = 16; port = 4000; server_type = backup }
        ∷ [];
  };
  conn = line [];
  username = name;
  packet = record {
    header = record { protocol_version = 1; packet_type = 2 };
    filename = 102 ∷ [];
    array = record { length = 2; bytes = owned (7 ∷ 9 ∷ []) };
  };
}

abbrev answers : List ℕ
answers = packet status_success [] ++ packet status_fail []

abbrev dial_backup : Dial
dial_backup ip port = some (line_with answers)

backup-Listens :
    Listens dial_backup (record { ip = 16; port = 4000; server_type = backup }) status_fail
unfolding packet little_endian
backup-Listens =
    let x = line_with-IsOpen answers (omega arith) (omega arith) in
    record {
      conn = line_with answers;
      welcome = status_success;
      dialled = refl;
      opened = x.0;
      fresh = x.2;
      reads = x.1;
    }

leader-Leads : Leads dial_backup (λ b. status_fail) leader
unfolding is_primary conn_new init_writer state_init
leader-Leads = record {
  primary = refl;
  free = refl;
  reached = (inl refl, (inr backup-Listens, tt));
  named = ((λ e. ground (arith, e)), ((λ e. ground (arith, e)), tt));
  ready = (line-IsReady [] tt).0;
}

handle_upload-replicates_example :
    Replicated dial_backup fs
      (λ b. status_fail)
      leader
      leader-Leads
      (handle_upload dial_backup fs leader)
      (packet 2 (counted (102 ∷ []) ++ counted (7 ∷ 9 ∷ [])))
      (answer_to fs (asker leader) (upload (102 ∷ []) (7 ∷ 9 ∷ [])) [] [])
unfolding pointed
handle_upload-replicates_example =
    handle_upload-replicates dial_backup fs (λ b. status_fail) leader leader-Leads (7 ∷ 9 ∷ []) refl
      ((λ e. ground (arith, e)), tt)

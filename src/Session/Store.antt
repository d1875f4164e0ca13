-- ===== src/Session/Store.antt =====
-- A client that uploads a file and downloads it (server/src/server.cpp, on files of
-- server/src/file_manager.cpp).
use mathlib.Core.Option.{some-injective}
use trabalho_sistemas_operac.Prelude.{
  ℕ, ◌≡◌, ◌<◌, ◌^◌, ◌∙◌, refl, sym, ap, inr, Bool, true, false, Option, none, some, List, [], ◌∷◌,
  ◌++◌, length, append-nil,
}
use trabalho_sistemas_operac.Protocol.{status_success}
use trabalho_sistemas_operac.Protocol.Wire.{packet}
use trabalho_sistemas_operac.Protocol.Parse.{upload, download}
use trabalho_sistemas_operac.Net.Reader.Stream.{pending}
use trabalho_sistemas_operac.Net.Reader.Word.{counted}
use trabalho_sistemas_operac.Net.Writer.Word.{IsText}
use trabalho_sistemas_operac.Coms.Client.{Dial}
use trabalho_sistemas_operac.Clients.{Client, client_new}
use trabalho_sistemas_operac.Files.{
  Os, FileMetadata, read_file, write_file, delete_file, list_files,
}
use trabalho_sistemas_operac.Files.Store.{Stores, write_file-read_file}
use trabalho_sistemas_operac.Session.{
  Session, Netfs, turn, client_handler_thread, file_path, mkdir_command,
}
use trabalho_sistemas_operac.Session.Spec.{answers_to, answer_to, success, stream}
use trabalho_sistemas_operac.Session.Rounds.{Lists}
use trabalho_sistemas_operac.Session.Loop.{Serves}
use trabalho_sistemas_operac.Session.Thread.{flag, client_handler_thread-refines}

-- Calls of `read_file` and `write_file` that return.
pub record Returns {D : Type 0} (os : Os D) : Type 0 where
  pub reads :
      (path : List ℕ) (disk : D) → (r : Option FileMetadata) × (read_file os path disk ≡ some r)
  pub writes :
      (path buf : List ℕ) (disk : D) → (r : Bool × D) × (write_file os path buf disk ≡ some r)

abbrev contents_of : Option FileMetadata → Option (List ℕ)
contents_of none = none
contents_of (some m) = some m.contents

-- The functions of `netfs` on a disk where they return, and a shell.
unfoldable pub netfs : {D : Type 0} (os : Os D) → Returns os → (List ℕ → D → D) → Netfs D
netfs os returns system = record {
  read_file = λ path disk. contents_of (returns.reads path disk).0;
  write_file = λ path buf disk. (returns.writes path buf disk).0;
  delete_file = delete_file os;
  list_files = list_files os;
  system = system;
}

-- A file that was written can be read.
abbrev pub Keeps : {D : Type 0} → Netfs D → Type 0
Keeps {D} fs =
    (path buf : List ℕ) (disk disk' : D)
    → fs.write_file path buf disk ≡ (true, disk')
    → fs.read_file path disk' ≡ some buf

pub netfs-Keeps :
    {D : Type 0} (os : Os D) (returns : Returns os) (system : List ℕ → D → D)
    (contents : List ℕ → D → Option (List ℕ))
    → Stores os contents
    → Keeps (netfs os returns system)
unfolding netfs
netfs-Keeps os returns system contents h path buf disk disk' e =
    let w = returns.writes path buf disk in
    let r = returns.reads path disk' in
    let (m, read, same, size) =
      write_file-read_file os contents h path buf disk disk' (w.1 ∙ ap some e) in
    ap contents_of (some-injective _ _ (sym r.1 ∙ read)) ∙ ap some same

module _ {D : Type 0} (dial : Dial) (fs : Netfs D) (so_error : ℕ → ℕ) where
  -- On a server that passes no request on, whose connection with the client is open with nothing
  -- left to send and whose waiting events name no file with a 0, where `list_files` gives only
  -- files that fit on the wire and a file that `write_file` has written is read back by
  -- `read_file`, a client that is let in, uploads a file, under a name with no 0 in it, downloads
  -- it and closes is sent, if `write_file` succeeds, three successes, the last with exactly the
  -- bytes of the file, and the disk is the one that `write_file` left.
  pub upload-download :
      (s : Session D) (username filename file : List ℕ) (from_primary : Bool)
      (clients' : List Client) (disk' : D) (fuel : ℕ)
      → Lists fs
      → Keeps fs
      → Serves s
      → length username < 2 ^ 64
      → IsText filename
      → length filename < 2 ^ 64
      → length file < 2 ^ 64
      → client_new so_error username s.connection_id s.sockfd from_primary s.clients
        ≡ some (true, clients')
      → pending s.conn.reader
        ≡ packet 0 (counted username ++ flag from_primary ∷ [])
          ++ (stream (upload filename file ∷ download filename ∷ []) ++ [])
      → fs.write_file (file_path username filename) file (fs.system (mkdir_command username) s.disk)
        ≡ (true, disk')
      → 2 < fuel
      → (s' : Session D) × (client_handler_thread dial fs fuel so_error s ≡ turn false s')
        × (s'.conn.writer.sent
            ≡ s.conn.writer.sent ++ (success ++ (success ++ packet status_success (counted file))))
        × (s'.disk ≡ disk')
  unfolding answers_to answer_to
  upload-download s username filename file from_primary clients' disk' fuel lists keeps v u t f l
        new e w k =
      let (s', ends, served) =
        client_handler_thread-refines dial fs so_error s username from_primary clients'
          (upload filename file ∷ download filename ∷ []) [] fuel lists v u new
          (((f, l), t), ((f, t), tt)) e (inr refl) k in
      let r = keeps _ _ _ _ w in
      (s', ends, rw (w, r, append-nil) at (served.sent), rw (w) at (served.disk))

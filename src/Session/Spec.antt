-- ===== src/Session/Spec.antt =====
-- What a client may expect of its session with a backup server, with no wire and no buffers: the
-- answer to each request, on the disk and the clients that the server has at the time.
use trabalho_sistemas_operac.Prelude.{
  ℕ, Bool, true, false, Option, none, some, List, [], ◌∷◌, ◌++◌, if◌then◌else◌, length,
}
use trabalho_sistemas_operac.Protocol.{
  status_success, status_fail, status_empty, FileDescription, FileEvent,
}
use trabalho_sistemas_operac.Protocol.Wire.{packet}
use trabalho_sistemas_operac.Protocol.Answers.{descriptions, event_bytes}
use trabalho_sistemas_operac.Protocol.Parse.{
  Request, download, delete, upload, list_files, leave, update, type_of, Fits, body_of,
}
use trabalho_sistemas_operac.Net.Reader.Word.{counted, little_endian}
use trabalho_sistemas_operac.Clients.{
  Client, client_broadcast_file_modified, client_broadcast_file_deleted,
}
use trabalho_sistemas_operac.Session.{Netfs, file_path, client_dir, take_event}
use trabalho_sistemas_operac.Net.Writer.Word.{IsText}
use trabalho_sistemas_operac.Session.Events.{
  TextEvents, broadcast-TextEvents, take_event-TextEvents,
}

-- The bytes of the answer, what is left, and whether the session goes on.
pub record Answer (D : Type 0) : Type 0 where
  pub bytes : List ℕ
  pub disk : D
  pub clients : List Client
  pub going : Bool

-- The one who asks.
pub record Asker : Type 0 where
  pub username : List ℕ
  pub connection_id : ℕ

abbrev pub success : List ℕ
success = packet status_success []

abbrev pub failure : List ℕ
failure = packet status_fail []

abbrev pub file_answer : Option (List ℕ) → List ℕ
file_answer none = failure
file_answer (some contents) = packet status_success (counted contents)

abbrev pub list_answer : Option (List FileDescription) → List ℕ
list_answer none = failure
list_answer (some files) =
    packet status_success (little_endian 8 (length files) ++ descriptions files)

abbrev pub event_answer : Option FileEvent → List ℕ
event_answer none = packet status_empty []
event_answer (some event) = packet status_success (event_bytes event)

module _ {D : Type 0} (fs : Netfs D) (who : Asker) where
  -- A change of the disk that was tried, and the clients that hear of it.
  abbrev pub change_answer : Bool × D → List Client → List Client → Answer D
  change_answer (done, disk) told clients = record {
    bytes = if done then success else failure;
    disk = disk;
    clients = if done then told else clients;
    going = true;
  }

  unfoldable pub answer_to : Request → D → List Client → Answer D
  answer_to (download filename) disk clients = record {
    bytes = file_answer (fs.read_file (file_path who.username filename) disk);
    disk = disk;
    clients = clients;
    going = true;
  }
  answer_to (upload filename file) disk clients =
      change_answer (fs.write_file (file_path who.username filename) file disk)
        (client_broadcast_file_modified who.username filename clients) clients
  answer_to (delete filename) disk clients =
      change_answer (fs.delete_file (file_path who.username filename) disk)
        (client_broadcast_file_deleted who.username filename clients) clients
  answer_to list_files disk clients = record {
    bytes = list_answer (fs.list_files (client_dir who.username) disk);
    disk = disk;
    clients = clients;
    going = true;
  }
  answer_to update disk clients =
      let (event, clients') = take_event who.connection_id clients in
      record { bytes = event_answer event; disk = disk; clients = clients'; going = true }
  answer_to leave disk clients = record {
    bytes = [];
    disk = disk;
    clients = clients;
    going = false;
  }

  -- The requests one after the other.
  unfoldable pub answers_to : List Request → D → List Client → Answer D
  answers_to [] disk clients = record { bytes = []; disk = disk; clients = clients; going = true }
  answers_to (q ∷ qs) disk clients =
      let first = answer_to q disk clients in
      let rest = answers_to qs first.disk first.clients in
      if first.going then record rest { bytes = first.bytes ++ rest.bytes } else first

-- The requests on the wire.
unfoldable pub stream : List Request → List ℕ
stream [] = []
stream (q ∷ qs) = packet (type_of q) (body_of q) ++ stream qs

-- A request that the protocol can carry, for a file whose name has no 0 in it.
abbrev pub IsNamed : Request → Type 0
IsNamed (download filename) = IsText filename
IsNamed (delete filename) = IsText filename
IsNamed (upload filename file) = IsText filename
IsNamed _ = Unit

abbrev pub IsProper : Request → Type 0
IsProper q = Fits q × IsNamed q

module _ {D : Type 0} (fs : Netfs D) (who : Asker) where
  told_or :
      (done : Bool) (told clients : List Client)
      → TextEvents told
      → TextEvents clients
      → TextEvents (if done then told else clients)
  told_or true told clients t h = t
  told_or false told clients t h = h

  pub answer_to-TextEvents :
      (q : Request) (disk : D) (clients : List Client)
      → IsNamed q
      → TextEvents clients
      → TextEvents (answer_to fs who q disk clients).clients
  unfolding answer_to client_broadcast_file_modified client_broadcast_file_deleted
  answer_to-TextEvents (download filename) disk clients n t = t
  answer_to-TextEvents (upload filename file) disk clients n t =
      told_or _ _ _ (broadcast-TextEvents who.username _ clients n t) t
  answer_to-TextEvents (delete filename) disk clients n t =
      told_or _ _ _ (broadcast-TextEvents who.username _ clients n t) t
  answer_to-TextEvents list_files disk clients n t = t
  answer_to-TextEvents update disk clients n t =
      (take_event-TextEvents who.connection_id clients t).1
  answer_to-TextEvents leave disk clients n t = t

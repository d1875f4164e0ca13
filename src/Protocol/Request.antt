-- ===== src/Protocol/Request.antt =====
-- The requests that one server makes of another (server/src/protocol.cpp). An action that fails is
-- a call that returns `false`; what it had assigned by then is not kept.
use trabalho_sistemas_operac.Prelude.{
  ℕ, zero, suc, Bool, Option, none, some, List, [], ◌∷◌, ◌++◌, ◌==◌, if◌then◌else◌,
}
use trabalho_sistemas_operac.Prelude.Exec.{Exec, pure, fail, ◌>>=◌, ◌>>◌}
use trabalho_sistemas_operac.Net.Reader.{
  Reader, ByteArray, read_u8, read_u16, read_u32, read_u64, read_string, read_byte_array,
}
use trabalho_sistemas_operac.Net.Writer.{flush, write_u8, write_u16, write_string, write_byte_array}
use trabalho_sistemas_operac.Net.Connection.{Connection, reading, writing, require}
use trabalho_sistemas_operac.Protocol.{
  protocol_version, packet_type_handshake, packet_type_download, packet_type_upload,
  packet_type_delete, packet_type_list_files, packet_type_exit, packet_type_update, status_success,
  FileEvent, FileEventType, event_file_modified, event_file_deleted, FileDescription,
}

-- The start of every answer: the version, which must be the right one, and the status.
unfoldable pub read_status : Exec Connection ℕ
read_status = do version ← reading read_u16; require (version == protocol_version); reading read_u8

unfoldable pub request_handshake : List ℕ → Bool → Exec Connection ℕ
request_handshake username from_primary = do
  writing (write_u16 protocol_version)
  writing (write_u8 packet_type_handshake)
  writing (write_string username)
  writing (write_u8 (if from_primary then 1 else 0))
  writing flush
  read_status

-- `if (!read_byte_array(...)) return false;`
unfoldable pub take_byte_array : ByteArray → Exec Reader ByteArray
take_byte_array old r =
    let (res, r') = read_byte_array old r in (if res.0 then some res.1 else none, r')

-- The end of `request_download`: the file follows the status `STATUS_SUCCESS`.
unfoldable pub download_answer : ByteArray → ℕ → Exec Connection (ℕ × Option ByteArray)
download_answer old status =
    if status == status_success
    then (do array ← reading (take_byte_array old); pure (status, some array))
    else pure (status, none)

unfoldable pub request_download : ByteArray → List ℕ → Exec Connection (ℕ × Option ByteArray)
request_download old filename = do
  writing (write_u16 protocol_version)
  writing (write_u8 packet_type_download)
  writing (write_string filename)
  writing flush
  status ← read_status
  download_answer old status

unfoldable pub request_upload : List ℕ → List ℕ → Exec Connection ℕ
request_upload filename buffer = do
  writing (write_u16 protocol_version)
  writing (write_u8 packet_type_upload)
  writing (write_string filename)
  writing (write_byte_array buffer)
  writing flush
  read_status

unfoldable pub request_delete : List ℕ → Exec Connection ℕ
request_delete filename = do
  writing (write_u16 protocol_version)
  writing (write_u8 packet_type_delete)
  writing (write_string filename)
  writing flush
  read_status

-- The loop of `request_list_files`, behind a `reserve` that is taken to succeed; the name of a new
-- description is empty before it is read.
unfoldable pub read_descriptions : ℕ → List FileDescription → Exec Connection (List FileDescription)
read_descriptions zero files = pure files
read_descriptions (suc n) files = do
  mtime ← reading read_u64
  atime ← reading read_u64
  ctime ← reading read_u64
  filename ← reading (read_string [])
  read_descriptions n
      (files ++ record { filename = filename; mtime = mtime; atime = atime; ctime = ctime } ∷ [])

unfoldable pub list_files_answer : ℕ → Exec Connection (ℕ × Option (List FileDescription))
list_files_answer status =
    if status == status_success
    then (do
      length ← reading read_u64
      files ← read_descriptions length []
      pure (status, some files))
    else pure (status, none)

unfoldable pub request_list_files : Exec Connection (ℕ × Option (List FileDescription))
request_list_files = do
  writing (write_u16 protocol_version)
  writing (write_u8 packet_type_list_files)
  writing flush
  status ← read_status
  list_files_answer status

unfoldable pub request_exit : Exec Connection (Unit {0})
request_exit = do
  writing (write_u16 protocol_version)
  writing (write_u8 packet_type_exit)
  writing flush

-- The `switch` of `request_update`.
unfoldable pub event_of_code : ℕ → Exec Connection FileEventType
event_of_code code =
    if code == 1
    then pure event_file_modified
    else if code == 2
    then pure event_file_deleted
    else fail

unfoldable pub update_answer : ℕ → Exec Connection (ℕ × Option FileEvent)
update_answer status =
    if status == status_success
    then (do
      code ← reading read_u32
      filename ← reading (read_string [])
      type ← event_of_code code
      pure (status, some (record { type = type; filename = filename })))
    else pure (status, none)

unfoldable pub request_update : Exec Connection (ℕ × Option FileEvent)
request_update = do
  writing (write_u16 protocol_version)
  writing (write_u8 packet_type_update)
  writing flush
  status ← read_status
  update_answer status

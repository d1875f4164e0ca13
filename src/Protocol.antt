-- ===== src/Protocol.antt =====
-- The client protocol of the server (server/src/protocol.cpp and protocol.h): packets that the
-- server receives, and what it responds.
pub mod Left
pub mod Asked
pub mod Quiet
pub mod Request
pub mod Wire
pub mod Answers
pub mod Parse
pub mod Truncated
use trabalho_sistemas_operac.Prelude.{
  ℕ, ◌+◌, ◌≡◌, Bool, true, false, ◌&&◌, none, some, List, [], ◌∷◌, ◌==◌, if◌then◌else◌, length,
}
use trabalho_sistemas_operac.Prelude.Exec.{Exec, pure, ◌>>=◌, ◌>>◌}
use trabalho_sistemas_operac.Net.Reader.{
  Reader, ByteArray, Buffer, unset, read_u8, read_u16, read_string, read_byte_array,
}
use trabalho_sistemas_operac.Net.Writer.{
  flush, write_u8, write_u16, write_u32, write_u64, write_string, write_byte_array,
}
use trabalho_sistemas_operac.Net.Connection.{Connection, reading, writing, require}

-- `PROTOCOL_VERSION`
abbrev pub protocol_version : ℕ
protocol_version = 1

-- `PACKET_TYPE_HANDSHAKE` and so on, and `STATUS_SUCCESS`, `STATUS_EMPTY`, `STATUS_FAIL`
abbrev pub packet_type_handshake : ℕ
packet_type_handshake = 0

abbrev pub packet_type_download : ℕ
packet_type_download = 1

abbrev pub packet_type_upload : ℕ
packet_type_upload = 2

abbrev pub packet_type_delete : ℕ
packet_type_delete = 3

abbrev pub packet_type_list_files : ℕ
packet_type_list_files = 4

abbrev pub packet_type_exit : ℕ
packet_type_exit = 5

abbrev pub packet_type_update : ℕ
packet_type_update = 6

abbrev pub status_success : ℕ
status_success = 10

abbrev pub status_empty : ℕ
status_empty = 11

abbrev pub status_fail : ℕ
status_fail = 20

-- `packet_header_t`
pub record PacketHeader : Type 0 where
  pub protocol_version : ℕ
  pub packet_type : ℕ

-- `file_event_type_t`, with its numbers.
pub data FileEventType : Type 0 where
  event_file_modified event_file_deleted : FileEventType

unfoldable pub event_code : FileEventType → ℕ
event_code event_file_modified = 1
event_code event_file_deleted = 2

-- `file_event_t`
pub record FileEvent : Type 0 where
  pub type : FileEventType
  pub filename : List ℕ

-- `file_description_t` of `netfs`
pub record FileDescription : Type 0 where
  pub filename : List ℕ
  pub mtime : ℕ
  pub atime : ℕ
  pub ctime : ℕ

unfoldable pub read_header : Exec Connection PacketHeader
read_header = do
  version ← reading read_u16
  packet_type ← reading read_u8
  pure (record { protocol_version = version; packet_type = packet_type })

-- `old` is what `*username` holds when `handshake` is called.
unfoldable pub handshake : List ℕ → Exec Connection (List ℕ × Bool)
handshake old = do
  header ← read_header
  require
      (header.protocol_version == protocol_version && header.packet_type == packet_type_handshake)
  username ← reading (read_string old)
  temp ← reading read_u8
  pure (username, temp == 1)

-- What `receive_packet` assigns: `*header`, `*filename`, and `*length` with `*bytes`.
pub record Packet : Type 0 where
  pub header : PacketHeader
  pub filename : List ℕ
  pub array : ByteArray

-- The result of `read_string` is ignored: where it fails, the old name stands.
unfoldable pub receive_filename : Packet → Connection → Packet × Connection
receive_filename p c =
    let (res, c') = reading (read_string p.filename) c in
    (record p { filename = elim res [ none ↦ p.filename | some s ↦ s ] }, c')

-- So is the result of `read_byte_array`.
unfoldable pub receive_array : Packet × Connection → Packet × Connection
receive_array (p, c) =
    let (res, r) = read_byte_array p.array c.reader in
    (record p { array = res.1 }, record c { reader = r })

-- The `switch` of `receive_packet`.
unfoldable pub receive_body : ℕ → Packet → Connection → (Bool × Packet) × Connection
receive_body packet_type p c =
    if packet_type == packet_type_handshake
    then ((false, p), c)
    else if packet_type == packet_type_download
    then (let (p', c') = receive_filename p c in ((true, p'), c'))
    else if packet_type == packet_type_upload
    then (let (p', c') = receive_array (receive_filename p c) in ((true, p'), c'))
    else if packet_type == packet_type_delete
    then (let (p', c') = receive_filename p c in ((true, p'), c'))
    else if packet_type == packet_type_list_files
    then ((true, p), c)
    else if packet_type == packet_type_exit
    then ((true, p), c)
    else if packet_type == packet_type_update
    then ((true, p), c)
    else ((false, p), c)

unfoldable pub receive_packet : Packet → Connection → (Bool × Packet) × Connection
receive_packet p c =
    let (res, c') = read_header c in
    elim res [
      | none ↦ ((false, p), c')
      | some header ↦
          let p' = record p { header = header } in
          if header.protocol_version == protocol_version
          then receive_body header.packet_type p' c'
          else ((false, p'), c')
    ]

-- The `respond_` functions that send a status and nothing else.
unfoldable pub respond_status : ℕ → Exec Connection (Unit {0})
respond_status status = do
  writing (write_u16 protocol_version)
  writing (write_u8 status)
  writing flush

unfoldable pub respond_handshake_success : Exec Connection (Unit {0})
respond_handshake_success = respond_status status_success

unfoldable pub respond_handshake_fail : Exec Connection (Unit {0})
respond_handshake_fail = respond_status status_fail

unfoldable pub respond_download_success : List ℕ → Exec Connection (Unit {0})
respond_download_success buf = do
  writing (write_u16 protocol_version)
  writing (write_u8 status_success)
  writing (write_byte_array buf)
  writing flush

unfoldable pub respond_download_fail : Exec Connection (Unit {0})
respond_download_fail = respond_status status_fail

unfoldable pub respond_upload_success : Exec Connection (Unit {0})
respond_upload_success = respond_status status_success

unfoldable pub respond_upload_fail : Exec Connection (Unit {0})
respond_upload_fail = respond_status status_fail

unfoldable pub respond_delete_success : Exec Connection (Unit {0})
respond_delete_success = respond_status status_success

unfoldable pub respond_delete_fail : Exec Connection (Unit {0})
respond_delete_fail = respond_status status_fail

-- The loop of `respond_list_files_success`.
unfoldable pub write_descriptions : List FileDescription → Exec Connection (Unit {0})
write_descriptions [] = pure tt
write_descriptions (f ∷ files) = do
  writing (write_u64 f.mtime)
  writing (write_u64 f.atime)
  writing (write_u64 f.ctime)
  writing (write_string f.filename)
  write_descriptions files

unfoldable pub respond_list_files_success : List FileDescription → Exec Connection (Unit {0})
respond_list_files_success files = do
  writing (write_u16 protocol_version)
  writing (write_u8 status_success)
  writing (write_u64 (length files))
  write_descriptions files
  writing flush

unfoldable pub respond_list_files_fail : Exec Connection (Unit {0})
respond_list_files_fail = respond_status status_fail

unfoldable pub respond_update_some : FileEvent → Exec Connection (Unit {0})
respond_update_some event = do
  writing (write_u16 protocol_version)
  writing (write_u8 status_success)
  writing (write_u32 (event_code event.type))
  writing (write_string event.filename)
  writing flush

unfoldable pub respond_update_none : Exec Connection (Unit {0})
respond_update_none = respond_status status_empty

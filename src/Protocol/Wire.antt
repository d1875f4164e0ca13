-- ===== src/Protocol/Wire.antt =====
-- The packets as plain sequences of bytes, and what each request and response puts on the wire.
use trabalho_sistemas_operac.Prelude.{
  if◌then◌else◌, ℕ, refl, List, [], ◌∷◌, ◌++◌, arith, Bool, length, ◌<◌, ◌^◌, some, ap,
}
use trabalho_sistemas_operac.Prelude.Exec.{Exec, ◌>>=◌}
use trabalho_sistemas_operac.Net.Reader.Word.{
  little_endian, counted, Reads-u8, Reads-u16, Reads, Reads-byte_array,
}
use trabalho_sistemas_operac.Net.Writer.{flush, write_u8, write_u16}
use trabalho_sistemas_operac.Net.Writer.Word.{IsText, Writes-u16, Writes-string, Writes-byte_array}
use trabalho_sistemas_operac.Net.Writer.Stream.{Writes-u8}
use trabalho_sistemas_operac.Net.Connection.{Connection, writing}
use trabalho_sistemas_operac.Net.Connection.Talk.{
  Hears, Delivers, Hears-reading, Says-writing, Delivers-flush, Hears-require, Hears-bind,
  Delivers-Says, Delivers-Says_last, Delivers-Hears, Hears-bind_last, Hears-pure,
}
use trabalho_sistemas_operac.Protocol.{
  protocol_version, respond_status, respond_download_success, ByteArray, status_success,
}
use trabalho_sistemas_operac.Protocol.Request.{
  read_status, request_upload, request_delete, request_handshake, request_download, take_byte_array,
  download_answer,
}
use trabalho_sistemas_operac.Net.Reader.{owned}

-- Version, one byte, and what follows: every packet, and every answer, has this form.
unfoldable pub packet : ℕ → List ℕ → List ℕ
packet t body = little_endian 2 protocol_version ++ t ∷ body

module _ {B : Type 0} (t : ℕ) (k : Exec Connection B) {b : B} {i o : List ℕ} where
  pub Delivers-packet :
      Delivers k b i o
      → Delivers
          (writing (write_u16 protocol_version) >>= λ _. writing (write_u8 t) >>= λ _. k)
          b
          i
          (packet t o)
  unfolding packet
  Delivers-packet h =
      Delivers-Says _ _ tt _ (Says-writing (Writes-u16 protocol_version))
        (Delivers-Says _ _ tt _ (Says-writing (Writes-u8 t)) h)

pub Hears-status : (status : ℕ) → Hears read_status status (packet status [])
unfolding read_status packet
Hears-status status =
    Hears-bind _ _ protocol_version _ (Hears-reading (Reads-u16 1 (omega arith)))
      (Hears-bind _ _ tt _ (Hears-require refl) (Hears-reading (Reads-u8 status)))

-- An answer: the status, and then what the rest of the request reads.
pub Hears-answer :
    {B : Type 0} (status : ℕ) (f : ℕ → Exec Connection B) {b : B} {i : List ℕ}
    → Hears (f status) b i
    → Hears (read_status >>= f) b (packet status i)
unfolding packet little_endian
Hears-answer status f h = Hears-bind _ _ status _ (Hears-status status) h

pub Delivers-flush_then :
    {B : Type 0} {k : Exec Connection B} {b : B} {i : List ℕ}
    → Hears k b i
    → Delivers (writing flush >>= λ _. k) b i []
Delivers-flush_then h = Delivers-Hears _ _ tt _ Delivers-flush h

pub flush_then_status :
    (status : ℕ) → Delivers (writing flush >>= λ _. read_status) status (packet status []) []
flush_then_status status = Delivers-flush_then (Hears-status status)

pub respond_status-Delivers :
    (status : ℕ) → Delivers (respond_status status) tt [] (packet status [])
unfolding respond_status
respond_status-Delivers status = Delivers-packet status _ Delivers-flush

-- For a file name with no 0 in it, on an open connection with an answer of any status pending,
-- `request_upload` hands an upload packet with the name and the file to the socket, and returns
-- that status, taking just the answer.
pub request_upload-Delivers :
    (filename buffer : List ℕ) (status : ℕ)
    → IsText filename
    → Delivers
        (request_upload filename buffer)
        status
        (packet status [])
        (packet 2 (counted filename ++ counted buffer))
unfolding request_upload
request_upload-Delivers filename buffer status h = Delivers-packet 2 _ (
    Delivers-Says _ _ tt _ (Says-writing (Writes-string filename h)) (
      Delivers-Says_last _ _ tt _ (Says-writing (Writes-byte_array buffer))
        (flush_then_status status)))

pub request_delete-Delivers :
    (filename : List ℕ) (status : ℕ)
    → IsText filename
    → Delivers (request_delete filename) status (packet status []) (packet 3 (counted filename))
unfolding request_delete
request_delete-Delivers filename status h = Delivers-packet 3 _ (
    Delivers-Says_last _ _ tt _ (Says-writing (Writes-string filename h))
      (flush_then_status status))

-- For a user name with no 0 in it, on an open connection with an answer of any status pending,
-- `request_handshake` hands a handshake packet with the name and the flag to the socket, and
-- returns that status, taking just the answer.
pub request_handshake-Delivers :
    (username : List ℕ) (from_primary : Bool) (status : ℕ)
    → IsText username
    → Delivers
        (request_handshake username from_primary)
        status
        (packet status [])
        (packet 0 (counted username ++ (if from_primary then 1 else 0) ∷ []))
unfolding request_handshake
request_handshake-Delivers username from_primary status h = Delivers-packet 0 _ (
    Delivers-Says _ _ tt _ (Says-writing (Writes-string username h))
      (Delivers-Says_last _ _ tt _ (Says-writing (Writes-u8 _)) (flush_then_status status)))

take_byte_array-Reads :
    (old : ByteArray) (file : List ℕ)
    → length file < 2 ^ 64
    → Reads
        (take_byte_array old)
        (record { length = length file; bytes = owned file })
        (counted file)
unfolding take_byte_array
take_byte_array-Reads old file h = record {
  at = λ r rest s e.
      let p = Reads-byte_array old file h r rest s e in
      (rw (ap (λ x. x.0) (p.0)) (ap (λ x. some x.1) (p.0)), p.1, p.2);
}

download_answer-Hears :
    (old : ByteArray) (file : List ℕ)
    → length file < 2 ^ 64
    → Hears
        (download_answer old status_success)
        (status_success, some (record { length = length file; bytes = owned file }))
        (counted file)
unfolding download_answer
download_answer-Hears old file h =
    Hears-bind_last _ _ (record { length = length file; bytes = owned file }) _
      (Hears-reading (take_byte_array-Reads old file h)) Hears-pure

-- For a file name with no 0 in it and a file shorter than 2 ^ 64, on an open connection with a
-- success answer that carries the file pending, `request_download` hands a download packet to the
-- socket and returns exactly that file, taking just the answer.
pub request_download-Delivers :
    (old : ByteArray) (filename file : List ℕ)
    → IsText filename
    → length file < 2 ^ 64
    → Delivers
        (request_download old filename)
        (status_success, some (record { length = length file; bytes = owned file }))
        (packet status_success (counted file))
        (packet 1 (counted filename))
unfolding request_download
request_download-Delivers old filename file h fits = Delivers-packet 1 _ (
    Delivers-Says_last _ _ tt _ (Says-writing (Writes-string filename h))
      (Delivers-flush_then (Hears-answer status_success _ (download_answer-Hears old file fits))))

pub respond_download_success-Delivers :
    (file : List ℕ)
    → Delivers (respond_download_success file) tt [] (packet status_success (counted file))
unfolding respond_download_success
respond_download_success-Delivers file =
    Delivers-packet status_success _
      (Delivers-Says_last _ _ tt _ (Says-writing (Writes-byte_array file)) Delivers-flush)

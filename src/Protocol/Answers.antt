-- ===== src/Protocol/Answers.antt =====
-- The answers with a structure of their own: file lists and events.
use trabalho_sistemas_operac.Prelude.{
  ℕ, List, [], ◌∷◌, ◌++◌, ◌<◌, ◌^◌, All, length, arith, append-nil, append_assoc, some,
}
use trabalho_sistemas_operac.Protocol.{
  event_file_modified, event_file_deleted, FileDescription, write_descriptions,
  respond_list_files_success, FileEvent, respond_update_some, event_code, Connection, FileEventType,
  reading, status_success, writing, write_u64, write_string,
}
use trabalho_sistemas_operac.Prelude.Exec.{◌>>◌, Exec, ◌>>=◌}
use trabalho_sistemas_operac.Protocol.Request.{
  read_descriptions, request_list_files, event_of_code, request_update, list_files_answer,
  update_answer,
}
use trabalho_sistemas_operac.Net.Reader.Word.{
  little_endian, counted, Reads-u64, Reads-u32, Reads-string,
}
use trabalho_sistemas_operac.Net.Writer.Word.{IsText, Writes-u64, Writes-u32, Writes-string}
use trabalho_sistemas_operac.Net.Connection.Talk.{
  Says, Delivers, Hears, Says-pure, Hears-pure, Delivers-Says, Says-writing, Hears-bind,
  Hears-reading, Delivers-Says_last, Delivers-flush, Hears-bind_last, Says-bind,
}
use trabalho_sistemas_operac.Protocol.Wire.{
  packet, Delivers-packet, Delivers-flush_then, Hears-answer,
}
use trabalho_sistemas_operac.Net.Reader.{read_u64, read_string}

-- One entry of the answer to a list request.
unfoldable pub description : FileDescription → List ℕ
description f =
    little_endian 8 f.mtime
    ++ (little_endian 8 f.atime ++ (little_endian 8 f.ctime ++ counted f.filename))

unfoldable pub descriptions : List FileDescription → List ℕ
descriptions [] = []
descriptions (f ∷ files) = description f ++ descriptions files

-- The times fit in 64 bits, and the name is a text whose length does.
pub record IsWritable (f : FileDescription) : Type 0 where
  pub mtime_lt : f.mtime < 2 ^ 64
  pub atime_lt : f.atime < 2 ^ 64
  pub ctime_lt : f.ctime < 2 ^ 64
  pub name_text : IsText f.filename
  pub name_lt : length f.filename < 2 ^ 64

write_description-Says :
    {B : Type 0} (f : FileDescription) (k : Exec Connection B) {b : B} {o : List ℕ}
    → IsWritable f
    → Says k b o
    → Says
        (do
          writing (write_u64 f.mtime)
          writing (write_u64 f.atime)
          writing (write_u64 f.ctime)
          writing (write_string f.filename)
          k)
        b
        (description f ++ o)
unfolding description
write_description-Says f k {o} h next =
    rw (append_assoc, append_assoc, append_assoc)
      (Says-bind _ _ tt _ (Says-writing (Writes-u64 f.mtime)) (
        Says-bind _ _ tt _ (Says-writing (Writes-u64 f.atime)) (
          Says-bind _ _ tt _ (Says-writing (Writes-u64 f.ctime))
            (Says-bind _ _ tt _ (Says-writing (Writes-string f.filename h.name_text)) next))))

write_descriptions-Says :
    (files : List FileDescription)
    → All IsWritable files
    → Says (write_descriptions files) tt (descriptions files)
unfolding write_descriptions descriptions
write_descriptions-Says [] h = Says-pure
write_descriptions-Says (f ∷ files) h =
    write_description-Says f (write_descriptions files) h.0 (write_descriptions-Says files h.1)

-- For files whose names have no 0 in them and whose numbers fit, on an open connection,
-- `respond_list_files_success` hands a success packet to the socket with the number of files and
-- each of them in order.
pub respond_list_files_success-Delivers :
    (files : List FileDescription)
    → All IsWritable files
    → Delivers
        (respond_list_files_success files)
        tt
        []
        (packet status_success (little_endian 8 (length files) ++ descriptions files))
unfolding respond_list_files_success
respond_list_files_success-Delivers files h = Delivers-packet status_success _ (
    Delivers-Says _ _ tt _ (Says-writing (Writes-u64 (length files)))
      (Delivers-Says_last _ _ tt _ (write_descriptions-Says files h) Delivers-flush))

read_description-Hears :
    {B : Type 0} (f : FileDescription) (k : FileDescription → Exec Connection B) {b : B}
    {i : List ℕ}
    → IsWritable f
    → Hears (k f) b i
    → Hears
        (do
          mtime ← reading read_u64
          atime ← reading read_u64
          ctime ← reading read_u64
          filename ← reading (read_string [])
          k (record { filename = filename; mtime = mtime; atime = atime; ctime = ctime }))
        b
        (description f ++ i)
unfolding description
read_description-Hears f k h next =
    rw (append_assoc, append_assoc, append_assoc)
      (Hears-bind _ _ f.mtime _ (Hears-reading (Reads-u64 f.mtime h.mtime_lt)) (
        Hears-bind _ _ f.atime _ (Hears-reading (Reads-u64 f.atime h.atime_lt)) (
          Hears-bind _ _ f.ctime _ (Hears-reading (Reads-u64 f.ctime h.ctime_lt)) (
            Hears-bind _ _ f.filename _ (Hears-reading (Reads-string [] f.filename h.name_lt))
              next))))

read_descriptions-Hears :
    (files before : List FileDescription)
    → All IsWritable files
    → Hears (read_descriptions (length files) before) (before ++ files) (descriptions files)
unfolding read_descriptions descriptions
read_descriptions-Hears [] before h = rw append-nil Hears-pure
read_descriptions-Hears (f ∷ files) before h = rw (← append_assoc before (f ∷ []) files) (
    read_description-Hears f (λ d. read_descriptions (length files) (before ++ d ∷ [])) h.0
      (read_descriptions-Hears files (before ++ f ∷ []) h.1))

-- On an open connection with a success answer pending that lists fewer than 2 ^ 64 files, whose
-- numbers fit, `request_list_files` hands a list packet to the socket and returns exactly those
-- files, in order, taking just the answer.
pub request_list_files-Delivers :
    (files : List FileDescription)
    → All IsWritable files
    → length files < 2 ^ 64
    → Delivers request_list_files
        (status_success, some files)
        (packet status_success (little_endian 8 (length files) ++ descriptions files))
        (packet 4 [])
unfolding request_list_files list_files_answer
request_list_files-Delivers files h fits = Delivers-packet 4 _ (
    Delivers-flush_then (
      Hears-answer status_success _ (
        Hears-bind _ _ (length files) _ (Hears-reading (Reads-u64 (length files) fits))
          (Hears-bind_last _ _ files _ (read_descriptions-Hears files [] h) Hears-pure))))

-- An event on the wire.
unfoldable pub event_bytes : FileEvent → List ℕ
event_bytes event = little_endian 4 (event_code event.type) ++ counted event.filename

-- For an event whose file name has no 0 in it, on an open connection, `respond_update_some` hands a
-- success packet with the code of the event and its file name to the socket.
pub respond_update_some-Delivers :
    (event : FileEvent)
    → IsText event.filename
    → Delivers (respond_update_some event) tt [] (packet status_success (event_bytes event))
unfolding respond_update_some event_bytes
respond_update_some-Delivers event h = Delivers-packet status_success _ (
    Delivers-Says _ _ tt _ (Says-writing (Writes-u32 (event_code event.type)))
      (Delivers-Says_last _ _ tt _ (Says-writing (Writes-string event.filename h)) Delivers-flush))

event_code-lt : (type : FileEventType) → event_code type < 2 ^ 32
unfolding event_code
event_code-lt event_file_modified = omega arith
event_code-lt event_file_deleted = omega arith

event_of_code-Hears : (type : FileEventType) → Hears (event_of_code (event_code type)) type []
unfolding event_of_code event_code
event_of_code-Hears event_file_modified = Hears-pure
event_of_code-Hears event_file_deleted = Hears-pure

-- On an open connection with a success answer pending that carries an event, whose file name is
-- shorter than 2 ^ 64, `request_update` hands an update packet to the socket and returns exactly
-- that event, taking just the answer.
pub request_update-Delivers :
    (event : FileEvent)
    → length event.filename < 2 ^ 64
    → Delivers request_update
        (status_success, some event)
        (packet status_success (event_bytes event))
        (packet 6 [])
unfolding request_update update_answer event_bytes
request_update-Delivers event fits = Delivers-packet 6 _ (
    Delivers-flush_then (
      Hears-answer status_success _ (
        Hears-bind _ _ (event_code event.type) _
          (Hears-reading (Reads-u32 (event_code event.type) (event_code-lt event.type)))
          (Hears-bind_last _ _ event.filename _
            (Hears-reading (Reads-string [] event.filename fits))
            (Hears-bind_last _ _ event.type _ (event_of_code-Hears event.type) Hears-pure)))))

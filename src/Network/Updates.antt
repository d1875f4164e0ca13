-- ===== src/Network/Updates.antt =====
-- What an update does to the client's directory (client/src/network.cpp, client/src/app.cpp).
use trabalho_sistemas_operac.Prelude.{
  ℕ, ◌^◌, ◌<◌, ◌≡◌, ◌∙◌, ◌==◌, refl, ap, Bool, true, false, some, List, [], ◌++◌, append_assoc,
  length,
}
use trabalho_sistemas_operac.Prelude.Exec.{Exec}
use trabalho_sistemas_operac.Net.Reader.{ByteArray, owned, read_byte_array}
use trabalho_sistemas_operac.Net.Reader.Stream.{pending}
use trabalho_sistemas_operac.Net.Reader.Word.{little_endian, counted, Reads-byte_array}
use trabalho_sistemas_operac.Net.Writer.Word.{IsText, Writes-string}
use trabalho_sistemas_operac.Net.Connection.{Connection}
use trabalho_sistemas_operac.Net.Connection.Talk.{Delivers, Delivers-Says_last, Says-writing}
use trabalho_sistemas_operac.Protocol.{FileEvent, event_file_modified, status_success}
use trabalho_sistemas_operac.Protocol.Request.{request_update}
use trabalho_sistemas_operac.Protocol.Wire.{packet, Delivers-packet, flush_then_status}
use trabalho_sistemas_operac.Protocol.Answers.{event_bytes, request_update-Delivers}
use trabalho_sistemas_operac.Session.{pointed}
use trabalho_sistemas_operac.Session.Sent.{IsReady, written-flushed}
use trabalho_sistemas_operac.App.{Host, c_str, lookup, changed, path_file, network_modified}
use trabalho_sistemas_operac.App.Known.{taken, network_modified_lem}
use trabalho_sistemas_operac.Network.{
  Thread, turn, ask_download, request_download_into, reading_array, from_app, modified_done,
  handle_file_event, handle_updates, modified_read,
}

-- What an exchange makes of a connection: what is still to be read, and what it has sent.
pub record Exchanged (c c' : Connection) (rest bytes : List ℕ) : Type 0 where
  pub ready : IsReady c'
  pub reads : pending c'.reader ≡ rest
  pub sent : c'.writer.sent ≡ c.writer.sent ++ bytes

pub Delivers-Exchanged :
    {A : Type 0} {m : Exec Connection A} {a : A} {i o : List ℕ} (c : Connection) (rest : List ℕ)
    → Delivers m a i o
    → IsReady c
    → pending c.reader ≡ i ++ rest
    → ((m c).0 ≡ some a) × Exchanged c (m c).1 rest o
Delivers-Exchanged {o} c rest h r e =
    let x = h.at c rest r.opened e in
    (
      x.0,
      record {
        ready = record { opened = x.1; flushed = x.4 };
        reads = x.2;
        sent = x.3 ∙ ap (λ bs. bs ++ o) (written-flushed c.writer r.flushed);
      },
    )

ask_download-Delivers :
    (filename : List ℕ) (status : ℕ)
    → IsText filename
    → Delivers (ask_download filename) status (packet status []) (packet 1 (counted filename))
unfolding ask_download
ask_download-Delivers filename status h = Delivers-packet 1 _ (
    Delivers-Says_last _ _ tt _ (Says-writing (Writes-string filename h))
      (flush_then_status status))

packet_append : (t : ℕ) (body rest : List ℕ) → packet t body ++ rest ≡ packet t [] ++ (body ++ rest)
unfolding packet little_endian
packet_append t body rest = refl

-- An array that holds a file.
abbrev pub array_of : List ℕ → ByteArray
array_of file = record { length = length file; bytes = owned file }

module _ (array : ByteArray) (filename : List ℕ) (text : IsText filename) (c : Connection)
    (ready : IsReady c) (rest : List ℕ) where
  pub request_download_into_file :
      (file : List ℕ)
      → length file < 2 ^ 64
      → pending c.reader ≡ packet status_success (counted file) ++ rest
      → (c' : Connection) × (request_download_into array filename c
          ≡ ((some status_success, array_of file), c'))
        × Exchanged c c' rest (packet 1 (counted filename))
  unfolding request_download_into reading_array
  request_download_into_file file fits e =
      let (answer, x) =
        Delivers-Exchanged c (counted file ++ rest)
          (ask_download-Delivers filename status_success text) ready
          (e ∙ packet_append status_success (counted file) rest) in
      let c₁ : Connection = (ask_download filename c).1 in
      let y = Reads-byte_array array file fits c₁.reader rest x.ready.opened.sound x.reads in
      (
        record c₁ { reader = (read_byte_array array c₁.reader).1 },
        rw answer (rw (y.0) refl),
        record {
          ready = record {
            opened = record { sound = y.1; reliable = x.ready.opened.reliable };
            flushed = x.ready.flushed;
          };
          reads = y.2;
          sent = x.sent;
        },
      )

  request_download_into_refused :
      (status : ℕ)
      → (status == status_success) ≡ false
      → pending c.reader ≡ packet status [] ++ rest
      → (c' : Connection) × (request_download_into array filename c ≡ ((some status, array), c'))
        × Exchanged c c' rest (packet 1 (counted filename))
  unfolding request_download_into
  request_download_into_refused status refused e =
      let (answer, x) =
        Delivers-Exchanged c rest (ask_download-Delivers filename status text) ready e in
      ((ask_download filename c).1, rw answer (rw refused refl), x)

-- The thread when the answer to its question has an event.
pub update_lem :
    {D : Type 0} (host : Host D) (running : Bool) (t : Thread D) (event : FileEvent) (rest : List ℕ)
    → length event.filename < 2 ^ 64
    → IsReady t.conn
    → pending t.conn.reader ≡ packet status_success (event_bytes event) ++ rest
    → (c : Connection) × (handle_updates host running t
        ≡ handle_file_event host running event (record t { conn = c }))
      × Exchanged t.conn c rest (packet 6 [])
unfolding handle_updates
update_lem host running t event rest fits ready e =
    let (answer, x) = Delivers-Exchanged t.conn rest (request_update-Delivers event fits) ready e in
    ((request_update t.conn).1, rw answer refl, x)

abbrev pub modified : List ℕ → FileEvent
modified filename = record { type = event_file_modified; filename = filename }

-- What the client asks for: an event, and its file.
unfoldable pub questions : List ℕ → List ℕ
questions filename = packet 6 [] ++ packet 1 (counted filename)

module _ {D : Type 0} (host : Host D) (running : Bool) (t : Thread D) (filename : List ℕ)
    (text : IsText filename) (fits : length filename < 2 ^ 64) (ready : IsReady t.conn) where
  both :
      {c c' : Connection} {i j : List ℕ}
      → Exchanged t.conn c i (packet 6 [])
      → Exchanged c c' j (packet 1 (counted filename))
      → c'.writer.sent ≡ t.conn.writer.sent ++ questions filename
  unfolding questions
  both x y =
      y.sent
      ∙ ap (λ bs. bs ++ packet 1 (counted filename)) x.sent
      ∙ append_assoc t.conn.writer.sent (packet 6 []) (packet 1 (counted filename))

  pub modified_file :
      (file rest : List ℕ)
      → length file < 2 ^ 64
      → pending t.conn.reader
        ≡ packet status_success (event_bytes (modified filename))
          ++ (packet status_success (counted file) ++ rest)
      → (c : Connection) × (handle_updates host running t
          ≡ from_app running
              (record t { conn = c; array = array_of file })
              (network_modified host filename file t.process))
        × (pending c.reader ≡ rest)
        × (c.writer.sent ≡ t.conn.writer.sent ++ questions filename)
  unfolding handle_file_event pointed
  modified_file file rest small e =
      let (c, u, x) =
        update_lem host running t (modified filename) (packet status_success (counted file) ++ rest)
          fits ready e in
      let (c', d, y) =
        request_download_into_file t.array filename text c x.ready rest file small x.reads in
      (
        c',
        u ∙ ap (modified_done host running filename (record t { conn = c })) d,
        y.reads,
        both x y,
      )

  modified_refused :
      (status : ℕ) (old rest : List ℕ)
      → (status == status_success) ≡ false
      → pointed t.array ≡ some old
      → pending t.conn.reader
        ≡ packet status_success (event_bytes (modified filename)) ++ (packet status [] ++ rest)
      → (c : Connection) × (handle_updates host running t
          ≡ from_app running (record t { conn = c }) (network_modified host filename old t.process))
        × (pending c.reader ≡ rest)
        × (c.writer.sent ≡ t.conn.writer.sent ++ questions filename)
  unfolding handle_file_event
  modified_refused status old rest refused held e =
      let (c, u, x) =
        update_lem host running t (modified filename) (packet status [] ++ rest) fits ready e in
      let (c', d, y) =
        request_download_into_refused t.array filename text c x.ready rest status refused x.reads in
      (
        c',
        u
            ∙ ap (modified_done host running filename (record t { conn = c })) d
            ∙ ap (modified_read host running filename (record t { conn = c' })) held,
        y.reads,
        both x y,
      )

  module _ (bytes : List ℕ) (disk' : D) (idle : t.process.mutex ≡ 1)
      (news : changed (lookup filename t.process.dir_hash) (host.hasher bytes) ≡ true)
      (write : host.netfs.write_file (c_str (path_file filename t.process)) bytes t.process.disk
        ≡ (true, disk')) where
    -- The directory has the bytes as the file, and the connection has asked for them.
    abbrev pub Wrote : List ℕ → Type 0
    Wrote rest =
        (t' : Thread D) × (handle_updates host running t ≡ turn running t')
        × (t'.process ≡ taken host filename bytes disk' t.process)
        × (pending t'.conn.reader ≡ rest)
        × (t'.conn.writer.sent ≡ t.conn.writer.sent ++ questions filename)

    wrote :
        (c : Connection) (array : ByteArray) (rest : List ℕ)
        → handle_updates host running t
          ≡ from_app running
              (record t { conn = c; array = array })
              (network_modified host filename bytes t.process)
        → pending c.reader ≡ rest
        → c.writer.sent ≡ t.conn.writer.sent ++ questions filename
        → Wrote rest
    wrote c array rest u r s = (
      record { process = taken host filename bytes disk' t.process; conn = c; array = array },
      u
          ∙ ap (from_app running (record t { conn = c; array = array }))
              (network_modified_lem host t.process filename bytes disk' idle news write),
      refl,
      r,
      s,
    )

    -- On an open connection with nothing left to send, where an update that names a modified file,
    -- with no 0 in its name, is pending, and then its contents: with the semaphore of `App` free,
    -- contents whose hash is not the known one, and a disk that takes the file, the thread asks for
    -- an event and for that file, takes just the two answers, and ends with the contents written to
    -- the file, their hash known and nothing else of the process changed.
    pub handle_updates-network_modified :
        (rest : List ℕ)
        → length bytes < 2 ^ 64
        → pending t.conn.reader
          ≡ packet status_success (event_bytes (modified filename))
            ++ (packet status_success (counted bytes) ++ rest)
        → Wrote rest
    handle_updates-network_modified rest small e =
        let (c, u, r, s) = modified_file bytes rest small e in wrote c (array_of bytes) rest u r s

    -- On an open connection with nothing left to send, with the semaphore of `App` free, where the
    -- event of a modified file, whose name has no 0 and a length that fits, and then a status other
    -- than success are pending, the last download left `bytes`, their hash is not the known one of
    -- that file, and the disk takes the file with these bytes: the thread asks for an event and for
    -- the file, takes just the two answers, and ends with `bytes` written to the file, their hash
    -- known as that of the file and nothing else of the process changed.
    pub handle_updates-stale :
        (status : ℕ) (rest : List ℕ)
        → (status == status_success) ≡ false
        → pointed t.array ≡ some bytes
        → pending t.conn.reader
          ≡ packet status_success (event_bytes (modified filename)) ++ (packet status [] ++ rest)
        → Wrote rest
    handle_updates-stale status rest refused held e =
        let (c, u, r, s) = modified_refused status bytes rest refused held e in
        wrote c t.array rest u r s

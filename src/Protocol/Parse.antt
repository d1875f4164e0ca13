-- ===== src/Protocol/Parse.antt =====
-- `receive_packet` and `handshake` on the packets that the request functions send.
use trabalho_sistemas_operac.Prelude.{
  refl, ap, ◌∙◌, ℕ, List, [], ◌++◌, ◌<◌, ◌^◌, ◌≡◌, length, arith, true, append_assoc,
}
use trabalho_sistemas_operac.Protocol.{
  Packet, PacketHeader, protocol_version, read_header, Connection, receive_filename, receive_array,
  receive_body, receive_packet,
}
use trabalho_sistemas_operac.Net.Reader.Word.{
  counted, little_endian, Reads-byte_array, Reads-u16, Reads-string, Reads-u8,
}
use trabalho_sistemas_operac.Net.Reader.{owned}
use trabalho_sistemas_operac.Protocol.Wire.{packet}
use trabalho_sistemas_operac.Net.Connection.Talk.{
  Hears, Hears-bind, Hears-reading, Hears-bind_last, Hears-pure,
}
use trabalho_sistemas_operac.Net.Reader.Stream.{IsSound, pending}

-- The requests that a client, or a primary server, makes after the handshake.
pub data Request : Type 0 where
  download delete : List ℕ → Request
  upload : List ℕ → List ℕ → Request
  list_files leave update : Request

abbrev pub type_of : Request → ℕ
type_of (download filename) = 1
type_of (delete filename) = 3
type_of (upload filename file) = 2
type_of list_files = 4
type_of leave = 5
type_of update = 6

abbrev pub body_of : Request → List ℕ
body_of (download filename) = counted filename
body_of (delete filename) = counted filename
body_of (upload filename file) = counted filename ++ counted file
body_of _ = []

abbrev pub Fits : Request → Type 0
Fits (download filename) = length filename < 2 ^ 64
Fits (delete filename) = length filename < 2 ^ 64
Fits (upload filename file) = (length filename < 2 ^ 64) × (length file < 2 ^ 64)
Fits _ = Unit

abbrev header_of : Request → PacketHeader
header_of q = record { protocol_version = protocol_version; packet_type = type_of q }

-- What `receive_packet` assigns, given what its arguments held: the fields that a request does not
-- carry keep their old values.
abbrev pub assigned : Packet → Request → Packet
assigned p (download filename) = record p {
  header = header_of (download filename);
  filename = filename;
}
assigned p (delete filename) = record p {
  header = header_of (delete filename);
  filename = filename;
}
assigned p (upload filename file) = record {
  header = header_of (upload filename file);
  filename = filename;
  array = record { length = length file; bytes = owned file };
}
assigned p q = record p { header = header_of q }

pub header-Hears :
    (t : ℕ)
    → Hears read_header
        (record { protocol_version = protocol_version; packet_type = t })
        (packet t [])
unfolding read_header packet
header-Hears t =
    Hears-bind _ _ protocol_version _ (Hears-reading (Reads-u16 1 (omega arith)))
      (Hears-bind_last _ _ t _ (Hears-reading (Reads-u8 t)) Hears-pure)

pub packet-append :
    (t : ℕ) (body rest : List ℕ) → packet t body ++ rest ≡ packet t [] ++ (body ++ rest)
unfolding packet little_endian
packet-append t body rest = refl

-- A function that takes exactly the bytes `i`, gives `a` and writes nothing.
abbrev Gives : {A : Type 0} → A × Connection → A → List ℕ → Connection → Type 0
Gives (x, c') a rest c =
    (x ≡ a) × IsSound c'.reader × (pending c'.reader ≡ rest) × (c'.writer ≡ c.writer)

filename-Gives :
    (p : Packet) (c : Connection) (filename rest : List ℕ)
    → length filename < 2 ^ 64
    → IsSound c.reader
    → pending c.reader ≡ counted filename ++ rest
    → Gives (receive_filename p c) (record p { filename = filename }) rest c
unfolding receive_filename
filename-Gives p c filename rest h s e =
    let x = (Hears-reading (Reads-string p.filename filename h)).at c rest s e in
    rw (x.0, receive_filename) (refl, x.1, x.2, x.3)

array-Gives :
    (x : Packet × Connection) (file rest : List ℕ)
    → length file < 2 ^ 64
    → IsSound x.1.reader
    → pending x.1.reader ≡ counted file ++ rest
    → Gives
        (receive_array x)
        (record (x.0) { array = record { length = length file; bytes = owned file } })
        rest
        x.1
unfolding receive_array
array-Gives (p, c) file rest h s e =
    let y = Reads-byte_array p.array file h c.reader rest s e in
    (ap (λ r. record p { array = r.1 }) (y.0), y.1, y.2, refl)

body-Gives :
    (q : Request) (p : Packet) (c : Connection) (rest : List ℕ)
    → Fits q
    → IsSound c.reader
    → pending c.reader ≡ body_of q ++ rest
    → Gives
        (receive_body (type_of q) (record p { header = header_of q }) c)
        (true, assigned p q)
        rest
        c
unfolding receive_body
body-Gives (download filename) p c rest h s e =
    let x =
      filename-Gives (record p { header = header_of (download filename) }) c filename rest h s e in
    (ap (λ r. (true, r)) (x.0), x.1, x.2, x.3)
body-Gives (delete filename) p c rest h s e =
    let x =
      filename-Gives (record p { header = header_of (delete filename) }) c filename rest h s e in
    (ap (λ r. (true, r)) (x.0), x.1, x.2, x.3)
body-Gives (upload filename file) p c rest h s e =
    let p' : Packet = record p { header = header_of (upload filename file) } in
    let x =
      filename-Gives p' c filename (counted file ++ rest) h.0 s
        (e ∙ append_assoc (counted filename) (counted file) rest) in
    let y = array-Gives (receive_filename p' c) file rest h.1 x.1 x.2 in
    (
      ap (λ r. (true, r)) (y.0)
          ∙ ap
              (λ (r : Packet).
                (true, record r { array = record { length = length file; bytes = owned file } }))
              (x.0),
      y.1,
      y.2,
      y.3 ∙ x.3,
    )
body-Gives list_files p c rest h s e = (refl, s, e, refl)
body-Gives leave p c rest h s e = (refl, s, e, refl)
body-Gives update p c rest h s e = (refl, s, e, refl)

-- On a sound reader with the packet of a request pending, whose lengths fit 64 bits,
-- `receive_packet` succeeds, assigns what the request carries, keeps the old values of what it does
-- not carry, takes just the packet, and writes nothing.
pub receive_packet-Gives :
    (q : Request) (p : Packet) (c : Connection) (rest : List ℕ)
    → Fits q
    → IsSound c.reader
    → pending c.reader ≡ packet (type_of q) (body_of q) ++ rest
    → ((receive_packet p c).0 ≡ (true, assigned p q))
      × IsSound (receive_packet p c).1.reader
      × (pending (receive_packet p c).1.reader ≡ rest)
      × ((receive_packet p c).1.writer ≡ c.writer)
unfolding receive_packet
receive_packet-Gives q p c rest h s e =
    let x =
      (header-Hears (type_of q)).at c (body_of q ++ rest) s
        (e ∙ packet-append (type_of q) (body_of q) rest) in
    let y = body-Gives q p (read_header c).1 rest h x.1 x.2 in
    rw (x.0, receive_packet) (y.0, y.1, y.2, y.3 ∙ x.3)

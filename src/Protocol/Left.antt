-- ===== src/Protocol/Left.antt =====
-- A packet that is received takes at least one byte.
use mathlib.Core.Bool.{false≢true}
use trabalho_sistemas_operac.Prelude.{
  ℕ, ◌+◌, ◌≤◌, ◌≡◌, ◌==◌, if◌then◌else◌, Option, none, some, Bool, Bool-cases, inl, inr, true,
  false, List, arith,
}
use trabalho_sistemas_operac.Net.Reader.{read_u16}
use trabalho_sistemas_operac.Net.Reader.Left.{
  left-Drains, left, Fell, read_u8-Drains, read_word-Drains, read_string-Drains,
  read_byte_array-left,
}
use trabalho_sistemas_operac.Net.Connection.Left.{
  Uses, Uses-bind, Uses-pure, Uses-reading, Uses-require,
}
use trabalho_sistemas_operac.Net.Connection.{Connection, reading}
use trabalho_sistemas_operac.Protocol.{
  Packet, PacketHeader, protocol_version, read_header, handshake, receive_filename, receive_array,
  receive_body, receive_packet, read_u16,
}

read_header-Uses : Uses read_header 1
unfolding read_header read_u16
read_header-Uses =
    Uses-bind _ _ 0 1 (Uses-reading (read_word-Drains 2 0 0))
      (λ version. Uses-bind _ _ 1 0 (Uses-reading read_u8-Drains) (λ packet_type. Uses-pure _))

pub handshake-Uses : (old : List ℕ) → Uses (handshake old) 2
unfolding handshake
handshake-Uses old = Uses-bind _ _ 1 1 read_header-Uses (λ header.
    Uses-bind _ _ 0 1 (Uses-require _) (λ x.
      Uses-bind _ _ 0 1 (Uses-reading (read_string-Drains old))
        (λ username. Uses-bind _ _ 1 0 (Uses-reading read_u8-Drains) (λ temp. Uses-pure _))))

filename-left : (p : Packet) (c : Connection) → left (receive_filename p c).1.reader ≤ left c.reader
unfolding receive_filename reading
filename-left p c = left-Drains (read_string-Drains p.filename) c.reader

array-left : (p : Packet) (c : Connection) → left (receive_array (p, c)).1.reader ≤ left c.reader
unfolding receive_array
array-left p c = read_byte_array-left p.array c.reader

body-left :
    (t : ℕ) (p : Packet) (c : Connection) → left (receive_body t p c).1.reader ≤ left c.reader
unfolding receive_body
body-left t p c =
    ground (arith, filename-left p c, array-left (receive_filename p c).0 (receive_filename p c).1)

-- `receive_packet` takes a byte where it succeeds, and never adds one.
pub receive_packet-left :
    (p : Packet) (c : Connection)
    → (left (receive_packet p c).1.reader ≤ left c.reader)
      × ((receive_packet p c).0.0 ≡ true → left (receive_packet p c).1.reader + 1 ≤ left c.reader)
unfolding receive_packet
receive_packet-left p c = go (read_header c) (read_header-Uses.at c)
  where
    Shorter : (Bool × Packet) × Connection → Type 0
    Shorter x =
        (left x.1.reader ≤ left c.reader) × (x.0.0 ≡ true → left x.1.reader + 1 ≤ left c.reader)

    go :
        (x : Option PacketHeader × Connection)
        → Fell 1 (left c.reader) (x.0, x.1.reader)
        → Shorter (elim x.0 [
          | none ↦ ((false, p), x.1)
          | some header ↦
              let p' = record p { header = header } in
              if header.protocol_version == protocol_version
              then receive_body header.packet_type p' x.1
              else ((false, p'), x.1)
        ])
    go (none, c') h = (h, λ e. elim (false≢true e) [ ])
    go (some header, c') h = elim (Bool-cases (header.protocol_version == protocol_version)) [
      | inl e ↦ rw e (
          let b = body-left header.packet_type (record p { header = header }) c' in
          (omega arith, λ _. omega arith))
      | inr e ↦ rw e (omega arith, λ _. omega arith)
    ]

-- ===== src/Protocol/Truncated.antt =====
-- Packets that are not what the protocol says, and packets that end too early.
use trabalho_sistemas_operac.Net.Connection.{reading}
use trabalho_sistemas_operac.Prelude.{
  sym, append_assoc, refl, ◌∙◌, ℕ, List, [], ◌∷◌, ◌++◌, ◌<◌, ◌≤◌, ◌^◌, ◌≡◌, ◌≢◌, ◌⊎◌, inl, inr,
  arith, true, false, subst,
}
use trabalho_sistemas_operac.Protocol.Wire.{packet}
use trabalho_sistemas_operac.Protocol.{
  receive_filename, receive_packet, receive_body, Packet, Connection, protocol_version, read_header,
}
use trabalho_sistemas_operac.Net.Reader.Stream.{IsSound, pending}
use trabalho_sistemas_operac.Net.Reader.Short.{IsCut, string-cut}
use trabalho_sistemas_operac.Net.Reader.Word.{little_endian, Reads-u16, Reads-u8}
use trabalho_sistemas_operac.Protocol.Parse.{header-Hears}
use trabalho_sistemas_operac.Net.Connection.Talk.{
  Hears, Hears-bind, Hears-reading, Hears-bind_last, Hears-pure,
}

any_header-Hears :
    (version t : ℕ)
    → version < 2 ^ 16
    → Hears read_header
        (record { protocol_version = version; packet_type = t })
        (little_endian 2 version ++ t ∷ [])
unfolding read_header
any_header-Hears version t h =
    Hears-bind _ _ version _ (Hears-reading (Reads-u16 version h))
      (Hears-bind_last _ _ t _ (Hears-reading (Reads-u8 t)) Hears-pure)

packet-split : (t : ℕ) (body : List ℕ) → packet t body ≡ packet t [] ++ body
unfolding packet little_endian
packet-split t body = refl

filename-cut :
    (p : Packet) (c : Connection)
    → IsSound c.reader
    → IsCut (pending c.reader)
    → (receive_filename p c).0 ≡ p
unfolding receive_filename reading
filename-cut p c s h = elim (string-cut p.filename c.reader s h) [ inl e ↦ rw (e) | inr e ↦ rw (e) ]

body-cut :
    (t : ℕ) (p : Packet) (c : Connection)
    → (t ≡ 1) ⊎ (t ≡ 3)
    → (receive_filename p c).0 ≡ p
    → (receive_body t p c).0 ≡ (true, p)
unfolding receive_body
body-cut t p c kind e = ground arith

-- On a sound reader with just the header of a download or delete packet and a file name that is cut
-- pending, within its length or before the end of a length below 2^31, for which there is memory,
-- `receive_packet` reports success, with the header assigned and the file name of the previous
-- packet kept.
pub receive_packet-cut :
    (t : ℕ) (p : Packet) (c : Connection) (body : List ℕ)
    → (t ≡ 1) ⊎ (t ≡ 3)
    → IsSound c.reader
    → pending c.reader ≡ packet t body
    → IsCut body
    → (receive_packet p c).0 ≡ (
      true,
      record p { header = record { protocol_version = protocol_version; packet_type = t } },
    )
unfolding receive_packet receive_body
receive_packet-cut t p c body kind s e h =
    let x = (header-Hears t).at c body s (e ∙ packet-split t body) in
    rw (x.0, receive_packet)
      (body-cut t _ (read_header c).1 kind
        (filename-cut _ (read_header c).1 x.1 (subst IsCut (sym (x.2)) h)))

-- On a sound reader `receive_packet` fails for a packet whose version, a 16-bit number, is not 1,
-- or whose type is that of a handshake or above 6.
pub receive_packet-refuses :
    (version t : ℕ) (p : Packet) (c : Connection) (body : List ℕ)
    → version < 2 ^ 16
    → IsSound c.reader
    → pending c.reader ≡ little_endian 2 version ++ t ∷ body
    → (version ≢ 1) ⊎ (t ≡ 0) ⊎ (7 ≤ t)
    → (receive_packet p c).0.0 ≡ false
unfolding receive_packet receive_body
receive_packet-refuses version t p c body fits s e why =
    let x =
      (any_header-Hears version t fits).at c body s
        (e ∙ sym (append_assoc (little_endian 2 version) (t ∷ []) body)) in
    rw (x.0, receive_packet) (ground arith)

-- ===== src/Examples/Protocol.antt =====
-- The theorems on packets, on concrete requests and answers.
use trabalho_sistemas_operac.Prelude.{refl, ◌≡◌, inl, inr, [], ◌∷◌, arith, List, ℕ, true}
use trabalho_sistemas_operac.Protocol.{Packet, receive_packet, protocol_version}
use trabalho_sistemas_operac.Protocol.Wire.{packet}
use trabalho_sistemas_operac.Protocol.Parse.{
  Request, upload, receive_packet-Gives, assigned, body_of, type_of,
}
use trabalho_sistemas_operac.Protocol.Truncated.{receive_packet-cut}
use trabalho_sistemas_operac.Net.Reader.{unset}
use trabalho_sistemas_operac.Net.Reader.Stream.{IsSound, pending}
use trabalho_sistemas_operac.Net.Reader.Word.{counted, little_endian}
use trabalho_sistemas_operac.Net.Writer.Word.{IsText}
use trabalho_sistemas_operac.Examples.{line_with, line_with-IsOpen}

abbrev name : List ℕ
name = 97 ∷ 98 ∷ []

name-IsText : IsText name
name-IsText = ((λ e. ground (arith, e)), ((λ e. ground (arith, e)), tt))

abbrev old : Packet
old = record {
  header = record { protocol_version = 0; packet_type = 0 };
  filename = 120 ∷ [];
  array = record { length = 0; bytes = unset };
}

abbrev sending : Request
sending = upload name (1 ∷ 2 ∷ 3 ∷ [])

abbrev sent : List ℕ
sent = packet (type_of sending) (body_of sending)

receive_packet-Gives_example :
    let c = line_with sent in
    ((receive_packet old c).0 ≡ (true, assigned old sending))
    × IsSound (receive_packet old c).1.reader
    × (pending (receive_packet old c).1.reader ≡ [])
    × ((receive_packet old c).1.writer ≡ c.writer)
unfolding packet counted little_endian
receive_packet-Gives_example =
    receive_packet-Gives sending old (line_with sent) [] (omega arith, omega arith)
      ((line_with-IsOpen sent (omega arith) (omega arith)).0.sound)
      ((line_with-IsOpen sent (omega arith) (omega arith)).1)

receive_packet-cut_example : (receive_packet old (line_with (packet 3 (2 ∷ 0 ∷ [])))).0 ≡ (
  true,
  record old { header = record { protocol_version = protocol_version; packet_type = 3 } },
)
unfolding packet little_endian
receive_packet-cut_example =
    receive_packet-cut 3 old (line_with (packet 3 (2 ∷ 0 ∷ []))) (2 ∷ 0 ∷ []) (inr refl)
      ((line_with-IsOpen (packet 3 (2 ∷ 0 ∷ [])) (omega arith) (omega arith)).0.sound)
      ((line_with-IsOpen (packet 3 (2 ∷ 0 ∷ [])) (omega arith) (omega arith)).1) (inl (omega arith))

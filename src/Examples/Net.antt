-- ===== src/Examples/Net.antt =====
-- The theorems on readers and writers, on concrete bytes.
use trabalho_sistemas_operac.Prelude.{[], ◌∷◌, arith}
use trabalho_sistemas_operac.Net.Reader.{read_u8}
use trabalho_sistemas_operac.Net.Reader.Stream.{pending, Took, read_u8-Took}
use trabalho_sistemas_operac.Net.Writer.{write_u8}
use trabalho_sistemas_operac.Net.Writer.Stream.{Writes, Writes-u8}
use trabalho_sistemas_operac.Examples.{line_with, line_with-IsOpen}

read_u8-Took_example :
    Took (pending (line_with (8 ∷ 9 ∷ [])).reader) (read_u8 (line_with (8 ∷ 9 ∷ [])).reader)
read_u8-Took_example =
    read_u8-Took (line_with (8 ∷ 9 ∷ [])).reader
      ((line_with-IsOpen (8 ∷ 9 ∷ []) (omega arith) (omega arith)).0.sound)

Writes-u8_example : Writes (write_u8 200) tt (200 ∷ [])
Writes-u8_example = Writes-u8 200

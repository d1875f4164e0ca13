-- ===== src/Net/Writer.antt =====
-- The buffered writer of server/src/writer.cpp. A socket is the list of what its next calls of
-- send(2) do, and the bytes that it has accepted so far; when the list has ended, `send` accepts all
-- that it is given.
pub mod Stream
pub mod Word
use trabalho_sistemas_operac.Prelude.{
  ℕ, zero, suc, ◌+◌, ◌/◌, ◌%◌, ◌^◌, none, some, List, [], ◌∷◌, ◌++◌, leb, ◌==◌, if◌then◌else◌,
  length, set, take, bit_and,
}
use trabalho_sistemas_operac.Prelude.Exec.{Exec, pure, ◌>>=◌, ◌>>◌}

-- `WSIZE`
abbrev pub wsize : ℕ
wsize = 32

-- One result of send(2): all bytes are accepted, only so many of them, or the call fails.
pub data SendResult : Type 0 where
  all failed : SendResult
  part : ℕ → SendResult

-- `struct tcp_writer`; `sends` and `sent` stand for the socket.
pub record Writer : Type 0 where
  pub buffer : List ℕ
  pub index : ℕ
  pub sends : List SendResult
  pub sent : List ℕ

-- The buffer of a new writer holds what the memory held.
unfoldable pub init_writer : List ℕ → List SendResult → Writer
init_writer memory sends = record { buffer = memory; index = 0; sends = sends; sent = [] }

-- `send` on the first `index` bytes of the buffer, and the rest of `flush`. A short count is
-- counted as success: the bytes behind it are dropped.
unfoldable pub send_buffer : List SendResult → Exec Writer (Unit {0})
send_buffer [] w = (some tt, record w { index = 0; sent = w.sent ++ take w.index w.buffer })
send_buffer (all ∷ rest) w =
    (some tt, record w { index = 0; sends = rest; sent = w.sent ++ take w.index w.buffer })
send_buffer (part n ∷ rest) w =
    (some tt, record w { index = 0; sends = rest; sent = w.sent ++ take n (take w.index w.buffer) })
send_buffer (failed ∷ rest) w = (none, record w { sends = rest })

unfoldable pub flush : Exec Writer (Unit {0})
flush w = send_buffer w.sends w

-- `writer.buffer[writer.index++] = value`
unfoldable pub put : ℕ → Exec Writer (Unit {0})
put value w = (some tt, record w { buffer = set w.buffer w.index value; index = w.index + 1 })

unfoldable pub write_u8 : ℕ → Exec Writer (Unit {0})
unfolding put
write_u8 value w = if leb wsize w.index then (do flush; put value) w else put value w

-- The loop of `write_u16`, `write_u32` and `write_u64`, with `n` rounds left.
unfoldable pub write_word : ℕ → ℕ → Exec Writer (Unit {0})
write_word zero value = pure tt
write_word (suc n) value = do
  let temp = bit_and value 0xff
  write_u8 (temp % 256)
  write_word n (value / 2 ^ 8)

unfoldable pub write_u16 : ℕ → Exec Writer (Unit {0})
write_u16 = write_word 2

unfoldable pub write_u32 : ℕ → Exec Writer (Unit {0})
write_u32 = write_word 4

unfoldable pub write_u64 : ℕ → Exec Writer (Unit {0})
write_u64 = write_word 8

-- `char` is a byte here: the cast to `uint8_t` keeps the byte.
unfoldable pub write_char : ℕ → Exec Writer (Unit {0})
unfolding put
write_char c w = if leb wsize w.index then (do flush; put c) w else put c w

-- The first loop of `write_cstr`: a C string ends at its first 0, which a `std::string` of the same
-- bytes has at the latest behind its last one.
unfoldable pub cstr_length : List ℕ → ℕ
cstr_length [] = 0
cstr_length (c ∷ string) = let n = cstr_length string in if c == 0 then 0 else n + 1

-- The second loop of `write_cstr`; the string has as many characters as there are rounds.
unfoldable pub write_chars : ℕ → List ℕ → Exec Writer (Unit {0})
write_chars zero string = pure tt
write_chars (suc n) [] = pure tt
write_chars (suc n) (c ∷ string) = do write_char c; write_chars n string

unfoldable pub write_cstr : List ℕ → Exec Writer (Unit {0})
write_cstr string = do let len = cstr_length string; write_u64 len; write_chars len string

unfoldable pub write_string : List ℕ → Exec Writer (Unit {0})
write_string value = write_cstr value

-- `buf` has `len` bytes.
unfoldable pub write_bytes : List ℕ → Exec Writer (Unit {0})
write_bytes [] = pure tt
write_bytes (b ∷ buf) = do write_u8 b; write_bytes buf

unfoldable pub write_byte_array : List ℕ → Exec Writer (Unit {0})
write_byte_array buf = do write_u64 (length buf); write_bytes buf

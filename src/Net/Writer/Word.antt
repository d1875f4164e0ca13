-- ===== src/Net/Writer/Word.antt =====
-- What the multi-byte writes append to the stream.
use trabalho_sistemas_operac.Prelude.{
  ℕ, zero, suc, ◌/◌, ◌%◌, ◌≡◌, ◌≢◌, refl, List, [], ◌∷◌, arith, length, bit_and, bit_and_0xff, All,
}
use trabalho_sistemas_operac.Net.Reader.Word.{little_endian, counted}
use trabalho_sistemas_operac.Net.Writer.{
  write_u8, write_word, write_u16, write_u32, write_u64, write_char, cstr_length, write_chars,
  write_cstr, write_string, write_bytes, write_byte_array,
}
use trabalho_sistemas_operac.Net.Writer.Stream.{Writes, Writes-pure, Writes-bind, Writes-u8}

low_byte : (v : ℕ) → bit_and v 0xff % 256 ≡ v % 256
low_byte v = omega (arith, bit_and_0xff v)

pub Writes-word : (n v : ℕ) → Writes (write_word n v) tt (little_endian n v)
unfolding write_word little_endian
Writes-word zero v = Writes-pure tt
Writes-word (suc n) v = rw low_byte (
    Writes-bind (write_u8 (v % 256)) (λ _. write_word n (v / 256)) tt tt (v % 256 ∷ []) _
      (Writes-u8 (v % 256)) (Writes-word n (v / 256)))

pub Writes-u16 : (v : ℕ) → Writes (write_u16 v) tt (little_endian 2 v)
unfolding write_u16
Writes-u16 v = Writes-word 2 v

pub Writes-u32 : (v : ℕ) → Writes (write_u32 v) tt (little_endian 4 v)
unfolding write_u32
Writes-u32 v = Writes-word 4 v

-- On any writer with its index within the buffer and a socket that accepts all bytes, `write_u64`
-- appends the eight low bytes of the value, the lowest first.
pub Writes-u64 : (v : ℕ) → Writes (write_u64 v) tt (little_endian 8 v)
unfolding write_u64
Writes-u64 v = Writes-word 8 v

Writes-char : (c : ℕ) → Writes (write_char c) tt (c ∷ [])
unfolding write_char
Writes-char c = unfold write_u8 in Writes-u8 c

-- A string with no 0 in it.
abbrev pub IsText : List ℕ → Type 0
IsText = All (λ c. c ≢ 0)

pub cstr_length-text : (s : List ℕ) → IsText s → cstr_length s ≡ length s
unfolding cstr_length
cstr_length-text [] h = refl
cstr_length-text (c ∷ s) h = ground (arith, h.0, cstr_length-text s h.1)

Writes-chars : (s : List ℕ) → Writes (write_chars (length s) s) tt s
unfolding write_chars
Writes-chars [] = Writes-pure tt
Writes-chars (c ∷ s) =
    Writes-bind (write_char c) (λ _. write_chars (length s) s) tt tt (c ∷ []) s (Writes-char c)
      (Writes-chars s)

-- For a string with no 0 in it, on any writer with its index within the buffer and a socket that
-- accepts all bytes, `write_string` appends the 64-bit length of the string and its bytes.
pub Writes-string : (s : List ℕ) → IsText s → Writes (write_string s) tt (counted s)
unfolding write_string write_cstr counted
Writes-string s h = rw (cstr_length-text s h) (
    Writes-bind (write_u64 (length s)) (λ _. write_chars (length s) s) tt tt _ s
      (Writes-u64 (length s)) (Writes-chars s))

pub Writes-bytes : (bs : List ℕ) → Writes (write_bytes bs) tt bs
unfolding write_bytes
Writes-bytes [] = Writes-pure tt
Writes-bytes (b ∷ bs) =
    Writes-bind (write_u8 b) (λ _. write_bytes bs) tt tt (b ∷ []) bs (Writes-u8 b) (Writes-bytes bs)

-- On any writer with its index within the buffer and a socket that accepts all bytes,
-- `write_byte_array` appends the 64-bit length of the array and its bytes.
pub Writes-byte_array : (bs : List ℕ) → Writes (write_byte_array bs) tt (counted bs)
unfolding write_byte_array counted
Writes-byte_array bs =
    Writes-bind (write_u64 (length bs)) (λ _. write_bytes bs) tt tt _ bs (Writes-u64 (length bs))
      (Writes-bytes bs)

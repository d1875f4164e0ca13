-- ===== src/Net/Reader/Word.antt =====
-- What the multi-byte reads return, in terms of the bytes that are pending.
use mathlib.Core.Path.{fun_ext}
use native.Mathlib.Nat.{pow-suc, div-add-mod}
use native.Mathlib.Numerals.{towards_suc}
use trabalho_sistemas_operac.Prelude.{
  ℕ, zero, suc, ◌+◌, ◌*◌, ◌/◌, ◌%◌, ◌^◌, ◌≤◌, ◌<◌, ◌≡◌, refl, ap, ◌∙◌, true, some, List, [], ◌∷◌,
  ◌++◌, arith, length, bit_or, bit_or-shifted, append-nil, append_assoc,
}
use trabalho_sistemas_operac.Prelude.Exec.{Exec, pure, ◌>>=◌}
use trabalho_sistemas_operac.Net.Reader.{
  Reader, read_u8, read_word, read_u16, read_u32, read_u64, read_char, read_chars, read_string,
  read_bytes, or_else, owned, ByteArray, read_byte_array, fill_array,
}
use trabalho_sistemas_operac.Net.Reader.Stream.{pending, IsSound, read_u8-Took}

-- Where `bs` is pending, `m` returns `a` and takes exactly `bs`.
pub record Reads {A : Type 0} (m : Exec Reader A) (a : A) (bs : List ℕ) : Type 0 where
  pub at :
      (r : Reader) (rest : List ℕ)
      → IsSound r
      → pending r ≡ bs ++ rest
      → ((m r).0 ≡ some a) × IsSound (m r).1 × (pending (m r).1 ≡ rest)

pub Reads-pure : {A : Type 0} (a : A) → Reads (pure a) a []
unfolding pure
Reads-pure a = record { at = λ r rest s e. (refl, s, e) }

module _ {A B : Type 0} where
  pub Reads-bind :
      (m : Exec Reader A) (f : A → Exec Reader B) (a : A) (b : B) (xs ys : List ℕ)
      → Reads m a xs
      → Reads (f a) b ys
      → Reads (m >>= f) b (xs ++ ys)
  unfolding ◌>>=◌
  Reads-bind m f a b xs ys hm hf = record {
    at = λ r rest s e.
        let first = hm.at r (ys ++ rest) s (e ∙ append_assoc xs ys rest) in
        rw (first.0) (hf.at (m r).1 rest first.1 first.2);
  }

pub Reads-u8 : (b : ℕ) → Reads read_u8 b (b ∷ [])
Reads-u8 b = record { at = λ r rest s e. rw e at (read_u8-Took r s) }

-- The `n` low bytes of `v`, lowest first.
unfoldable pub little_endian : ℕ → ℕ → List ℕ
little_endian zero v = []
little_endian (suc n) v = (v % 256) ∷ little_endian n (v / 256)

shift_eight : (k : ℕ) → 2 ^ (k + 8) ≡ 256 * 2 ^ k
shift_eight k = simp towards_suc (omega arith)

shift_byte : (i : ℕ) → 2 ^ (8 * (i + 1)) ≡ 256 * 2 ^ (8 * i)
shift_byte i = let e : 8 * (i + 1) ≡ 8 * i + 8 = omega arith in rw e (shift_eight (8 * i))

-- One round of the loop puts the next byte above the bytes that are there.
or_byte :
    (i res v : ℕ)
    → res < 2 ^ (8 * i)
    → bit_or res (v % 256 * 2 ^ (8 * i)) + v / 256 * 2 ^ (8 * (i + 1)) ≡ res + v * 2 ^ (8 * i)
or_byte i res v k = omega (
  arith,
  bit_or-shifted (8 * i) res (v % 256) k,
  ap (λ (t : ℕ). v / 256 * t) (shift_byte i),
  ap (λ (t : ℕ). t * 2 ^ (8 * i)) (div-add-mod v 256),
)

or_byte_lt :
    (i res v : ℕ) → res < 2 ^ (8 * i) → bit_or res (v % 256 * 2 ^ (8 * i)) < 2 ^ (8 * (i + 1))
or_byte_lt i res v k =
    let small : v % 256 ≤ 255 = omega arith in
    let scaled : v % 256 * 2 ^ (8 * i) ≤ 255 * 2 ^ (8 * i) = grind arith in
    omega (arith, bit_or-shifted (8 * i) res (v % 256) k, shift_byte i)

pub Reads-word :
    (n i res v : ℕ)
    → v < 256 ^ n
    → res < 2 ^ (8 * i)
    → Reads (read_word n i res) (res + v * 2 ^ (8 * i)) (little_endian n v)
unfolding read_word little_endian
Reads-word zero i res v h k =
    let e : v ≡ 0 = omega arith in
    let e' : res + v * 2 ^ (8 * i) ≡ res = rw e (omega arith) in rw e' (Reads-pure res)
Reads-word (suc n) i res v h k = rw (← or_byte i res v k) (
    Reads-bind read_u8 (λ temp. read_word n (i + 1) (bit_or res (temp * 2 ^ (8 * i)))) (v % 256) _
      (v % 256 ∷ []) (little_endian n (v / 256)) (Reads-u8 (v % 256))
      (Reads-word n (i + 1) (bit_or res (v % 256 * 2 ^ (8 * i))) (v / 256)
        (omega (arith, pow-suc 256 n)) (or_byte_lt i res v k)))

word_at_zero : (v : ℕ) → 0 + v * 2 ^ (8 * 0) ≡ v
word_at_zero v = omega arith

pub Reads-u16 : (v : ℕ) → v < 2 ^ 16 → Reads read_u16 v (little_endian 2 v)
unfolding read_u16
Reads-u16 v h = rw word_at_zero at (Reads-word 2 0 0 v h (omega arith))

pub Reads-u32 : (v : ℕ) → v < 2 ^ 32 → Reads read_u32 v (little_endian 4 v)
unfolding read_u32
Reads-u32 v h = rw word_at_zero at (Reads-word 4 0 0 v h (omega arith))

-- On any sound reader with the eight little-endian bytes of a 64-bit number pending, `read_u64`
-- returns that number, takes just those bytes, and leaves the reader sound.
pub Reads-u64 : (v : ℕ) → v < 2 ^ 64 → Reads read_u64 v (little_endian 8 v)
unfolding read_u64
Reads-u64 v h = rw word_at_zero at (Reads-word 8 0 0 v h (omega arith))

Reads-char : (b : ℕ) → Reads read_char b (b ∷ [])
unfolding read_char
Reads-char b = unfold read_u8 in Reads-u8 b

pub Reads-chars : (bs str : List ℕ) → Reads (read_chars (length bs) str) (str ++ bs) bs
unfolding read_chars
Reads-chars [] str = rw append-nil (Reads-pure str)
Reads-chars (b ∷ bs) str = rw (← append_assoc str (b ∷ []) bs) (
    Reads-bind read_char (λ c. read_chars (length bs) (str ++ c ∷ [])) b _ (b ∷ []) bs
      (Reads-char b) (Reads-chars bs (str ++ b ∷ [])))

-- The wire form of strings and of byte arrays: the length in eight bytes, then the bytes.
unfoldable pub counted : List ℕ → List ℕ
counted bs = little_endian 8 (length bs) ++ bs

module _ {A B : Type 0} where
  Reads-or_else :
      (m : Exec Reader A) (c : B) (f : A → Exec Reader B) (a : A) (b : B) (xs ys : List ℕ)
      → Reads m a xs
      → Reads (f a) b ys
      → Reads (or_else m c f) b (xs ++ ys)
  Reads-or_else m c f a b xs ys hm hf = record {
    at = λ r rest s e.
        let first = hm.at r (ys ++ rest) s (e ∙ append_assoc xs ys rest) in
        rw (first.0, or_else) (hf.at (m r).1 rest first.1 first.2);
  }

-- On any sound reader with the 64-bit length of a string and its bytes pending, `read_string`
-- returns that string, whatever the argument held, and takes just those bytes.
pub Reads-string : (old bs : List ℕ) → length bs < 2 ^ 64 → Reads (read_string old) bs (counted bs)
unfolding read_string counted
Reads-string old bs h =
    Reads-or_else read_u64 old (λ len. read_chars len []) (length bs) bs _ bs
      (Reads-u64 (length bs) h) (Reads-chars bs [])

read_bytes_step :
    (n : ℕ) (val : List ℕ)
    → read_bytes (suc n) val ≡ (read_char >>= λ b. read_bytes n (val ++ b ∷ []))
unfolding read_bytes read_char ◌>>=◌
read_bytes_step n val = fun_ext λ r. ground arith

pub Reads-bytes : (bs val : List ℕ) → Reads (read_bytes (length bs) val) (val ++ bs) bs
Reads-bytes [] val = rw append-nil (unfold read_bytes in Reads-pure val)
Reads-bytes (b ∷ bs) val =
    rw (read_bytes_step, ← append_assoc val (b ∷ []) bs)
      (Reads-bind read_char (λ c. read_bytes (length bs) (val ++ c ∷ [])) b _ (b ∷ []) bs
        (Reads-char b) (Reads-bytes bs (val ++ b ∷ [])))

-- On a sound reader with the 64-bit length of an array and its bytes pending, `read_byte_array`
-- succeeds whatever its arguments held, gives that length and an owned buffer with those bytes, and
-- takes just those bytes.
pub Reads-byte_array :
    (old : ByteArray) (bs : List ℕ)
    → length bs < 2 ^ 64
    → (r : Reader) (rest : List ℕ) → IsSound r
    → pending r ≡ counted bs ++ rest
    → ((read_byte_array old r).0 ≡ (true, record { length = length bs; bytes = owned bs }))
      × IsSound (read_byte_array old r).1
      × (pending (read_byte_array old r).1 ≡ rest)
unfolding read_byte_array counted
Reads-byte_array old bs h r rest s e =
    let head = (Reads-u64 (length bs) h).at r (bs ++ rest) s (e ∙ append_assoc _ bs rest) in
    let body = (Reads-bytes bs []).at (read_u64 r).1 rest head.1 head.2 in
    rw (head.0) (rw (body.0, fill_array) (refl, body.1, body.2))

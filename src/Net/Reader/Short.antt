-- ===== src/Net/Reader/Short.antt =====
-- Reads on a stream that ends too early.
use trabalho_sistemas_operac.Prelude.{
  ◌+◌, ◌*◌, refl, ap, ℕ, zero, suc, List, [], ◌∷◌, ◌++◌, ◌<◌, ◌^◌, ◌≡◌, ◌⊎◌, inl, inr, length,
  arith, some, none,
}
use trabalho_sistemas_operac.Prelude.Exec.{◌>>=◌}
use trabalho_sistemas_operac.Net.Reader.{
  read_char, Exec, read_word, read_chars, read_string, Reader, read_u64, read_u8, or_else, bit_or,
}
use trabalho_sistemas_operac.Net.Reader.Stream.{Took, IsSound, pending, read_u8-Took}
use trabalho_sistemas_operac.Net.Reader.Word.{little_endian, Reads-u64}

-- A step of a loop of reads, where the stream is too short for the loop.
module _ {A : Type 0} (f : ℕ → Exec Reader A) (n : ℕ)
    (short : (b : ℕ) (r : Reader) → IsSound r → length (pending r) < n → (f b r).0 ≡ none) where
  short_step : (r : Reader) → IsSound r → length (pending r) < suc n → ((read_u8 >>= f) r).0 ≡ none
  unfolding ◌>>=◌
  short_step r s h = go (pending r) refl (read_u8-Took r s)
    where
      go : (bs : List ℕ) → pending r ≡ bs → Took bs (read_u8 r) → ((read_u8 >>= f) r).0 ≡ none
      go [] e t = rw (t.0)
      go (b ∷ bs) e t =
          rw (t.0) (short b (read_u8 r).1 t.1 (omega (arith, ap length e, ap length (t.2))))

pub word-short :
    (n i res : ℕ) (r : Reader) → IsSound r → length (pending r) < n → (read_word n i res r).0 ≡ none
unfolding read_word
word-short zero i res r s h = elim h [ ]
word-short (suc n) i res r s h =
    short_step (λ temp. read_word n (i + 1) (bit_or res (temp * 2 ^ (8 * i)))) n
      (λ temp. word-short n (i + 1) (bit_or res (temp * 2 ^ (8 * i)))) r s h

read_char-eq : read_char ≡ read_u8
unfolding read_char read_u8
read_char-eq = refl

pub chars-short :
    (n : ℕ) (str : List ℕ) (r : Reader)
    → IsSound r
    → length (pending r) < n
    → (read_chars n str r).0 ≡ none
unfolding read_chars read_char
chars-short zero str r s h = elim h [ ]
chars-short (suc n) str r s h =
    rw read_char-eq
      (short_step (λ c. read_chars n (str ++ c ∷ [])) n (λ c. chars-short n (str ++ c ∷ [])) r s h)

-- A string that ends within its length, or before its last character; `reserve` is taken to have
-- memory for a length below 2 ^ 31.
abbrev pub IsCut : List ℕ → Type 0
IsCut bs =
    (length bs < 8)
    ⊎ ((n : ℕ) × (part : List ℕ) × (bs ≡ little_endian 8 n ++ part)
        × (n < 2 ^ 31)
        × (length part < n))

-- On a sound reader whose pending bytes end within the length of a string or before its last
-- character, `read_string` either fails or succeeds with the old value of its argument.
pub string-cut :
    (old : List ℕ) (r : Reader)
    → IsSound r
    → IsCut (pending r)
    → ((read_string old r).0 ≡ some old) ⊎ ((read_string old r).0 ≡ none)
unfolding read_string read_u64
string-cut old r s (inl h) = inl (rw (word-short 8 0 0 r s h, or_else))
string-cut old r s (inr (n, part, e, fits, h)) =
    let x = (Reads-u64 n (omega (arith, fits))).at r part s e in
    inr (rw (x.0, or_else) (chars-short n [] (read_u64 r).1 x.1 (omega (arith, ap length (x.2)))))

-- ===== src/Net/Reader/Left.antt =====
-- How many bytes a reader may still return. No call adds to them, and one that returns a byte takes
-- it: the measure of the loops that read.
use trabalho_sistemas_operac.Prelude.{
  ℕ, zero, suc, ◌+◌, ◌-◌, ◌≤◌, ◌≡◌, refl, ap, true, false, Option, none, some, List, [], ◌∷◌, ◌++◌,
  arith, leb, Bool-cases, inl, inr, length,
}
use trabalho_sistemas_operac.Prelude.Exec.{Exec, continue, ◌>>=◌, pure}
use trabalho_sistemas_operac.Net.Reader.{
  ReadResult, got, again, failed, Reader, flip, receive, fill_loop, fill_buffer, peek, step,
  read_u8, read_word, read_u64, read_chars, read_string, read_bytes, fill_array, read_byte_array,
  ByteArray, get_or, read_char, Bool, curr_buf, freed, owned,
}

-- The bytes of all the results of read(2), those after an error included.
unfoldable pub total : List ReadResult → ℕ
total [] = 0
total (got bytes ∷ rest) = length bytes + total rest
total (again ∷ rest) = total rest
total (failed ∷ rest) = total rest

unfoldable pub left : Reader → ℕ
left r = r.length - r.index + total r.incoming

-- A call that had `n` bytes left, and took at least `k` of them if it succeeded.
abbrev pub Fell {ℓ} : {A : Type ℓ} → ℕ → ℕ → Option A × Reader → Type 0
Fell k n (none, r) = left r ≤ n
Fell k n (some a, r) = left r + k ≤ n

pub record Drains {A : Type 0} (m : Exec Reader A) (k : ℕ) : Type 0 where
  pub at : (r : Reader) → Fell k (left r) (m r)

-- `fill_buffer` leaves a byte in the buffer where it succeeds.
abbrev Full : ℕ → Option (Unit {0}) × Reader → Type 0
Full n (none, r) = left r ≤ n
Full n (some a, r) = (left r ≤ n) × (r.index + 1 ≤ r.length)

Full-mono : (n m : ℕ) (x : Option (Unit {0}) × Reader) → n ≤ m → Full n x → Full m x
Full-mono n m (none, r) h f = omega arith
Full-mono n m (some a, r) h f = (omega arith, f.1)

total-eq :
    (r : Reader) (trace : List ReadResult) → r.incoming ≡ trace → total r.incoming ≡ total trace
total-eq r trace e = ap total e

lt-leb : (a b : ℕ) → leb a b ≡ false → b + 1 ≤ a
lt-leb a b h = ground arith

fill_loop-Full :
    (trace : List ReadResult) (r : Reader) → r.incoming ≡ trace → Full (left r) (fill_loop trace r)
unfolding fill_loop left total receive
fill_loop-Full [] r e = elim (Bool-cases (leb r.length r.index)) [
  | inl t ↦ rw t (omega arith)
  | inr t ↦ rw t (omega arith, lt-leb _ _ t)
]
fill_loop-Full (got bytes ∷ rest) r e = elim (Bool-cases (leb r.length r.index)) [
  | inl t ↦ rw t (
      Full-mono _ _ _ (omega (arith, ap total e))
        (fill_loop-Full rest (receive bytes rest (flip r)) refl))
  | inr t ↦ rw t (omega arith, lt-leb _ _ t)
]
fill_loop-Full (again ∷ rest) r e = elim (Bool-cases (leb r.length r.index)) [
  | inl t ↦ rw t (
      Full-mono _ _ _ (omega (arith, ap total e))
        (fill_loop-Full rest (record (flip r) { incoming = rest }) refl))
  | inr t ↦ rw t (omega arith, lt-leb _ _ t)
]
fill_loop-Full (failed ∷ rest) r e = elim (Bool-cases (leb r.length r.index)) [
  | inl t ↦ rw t (omega (arith, ap total e))
  | inr t ↦ rw t (omega arith, lt-leb _ _ t)
]

-- How calls combine.
Fell-mono : {A : Type 0} (k n m : ℕ) (x : Option A × Reader) → n ≤ m → Fell k n x → Fell k m x
Fell-mono k n m (none, r) h f = omega arith
Fell-mono k n m (some a, r) h f = omega arith

pub Drains-pure : {A : Type 0} (a : A) → Drains (pure a) 0
unfolding pure
Drains-pure a = record { at = λ r. omega arith }

pub Drains-bind :
    {A B : Type 0} (m : Exec Reader A) (f : A → Exec Reader B) (k j : ℕ)
    → Drains m k
    → ((a : A) → Drains (f a) j)
    → Drains (m >>= f) (k + j)
unfolding ◌>>=◌
Drains-bind {A} {B} m f k j hm hf = record { at = λ r. go r (m r) (hm.at r) }
  where
    next :
        (n : ℕ) (r' : Reader) (x : Option B × Reader)
        → left r' + k ≤ n
        → Fell j (left r') x
        → Fell (k + j) n x
    next n r' (none, r) h f = omega arith
    next n r' (some a, r) h f = omega arith

    go :
        (r : Reader) (x : Option A × Reader)
        → Fell k (left r) x
        → Fell (k + j) (left r) (continue x.0 f x.1)
    go r (none, r') h = h
    go r (some a, r') h = next (left r) r' (f a r') h ((hf a).at r')

fill_buffer-Full : (r : Reader) → Full (left r) (fill_buffer r)
unfolding fill_buffer
fill_buffer-Full r = fill_loop-Full r.incoming r refl

peek-Drains : Drains peek 0
unfolding peek ◌>>=◌
peek-Drains = record { at = λ r. go r (fill_buffer r) (fill_buffer-Full r) }
  where
    go :
        (r : Reader) (x : Option (Unit {0}) × Reader)
        → Full (left r) x
        → Fell 0 (left r) (continue x.0 (λ a r'. (some (get_or (curr_buf r') r'.index 0), r')) x.1)
    go r (none, r') h = h
    go r (some a, r') h = omega arith

step-Drains : Drains step 1
unfolding step ◌>>=◌ left
step-Drains = record { at = λ r. go r (fill_buffer r) (fill_buffer-Full r) }
  where
    go :
        (r : Reader) (x : Option (Unit {0}) × Reader)
        → Full (left r) x
        → Fell 1 (left r) (continue x.0 (λ a r'. (some tt, record r' { index = r'.index + 1 })) x.1)
    go r (none, r') h = h
    go r (some a, r') h = omega arith

-- A byte that is returned is taken.
pub read_u8-Drains : Drains read_u8 1
unfolding read_u8
read_u8-Drains =
    Drains-bind peek _ 0 1 peek-Drains
      (λ res. Drains-bind step _ 1 0 step-Drains (λ x. Drains-pure res))

pub Drains-weak : {A : Type 0} {m : Exec Reader A} {k : ℕ} → Drains m k → Drains m 0
Drains-weak {A} {m} {k} h = record { at = λ r. go (left r) (m r) (h.at r) }
  where
    go : (n : ℕ) (x : Option A × Reader) → Fell k n x → Fell 0 n x
    go n (none, r) f = f
    go n (some a, r) f = omega arith

pub read_word-Drains : (n i res : ℕ) → Drains (read_word n i res) 0
unfolding read_word
read_word-Drains zero i res = Drains-pure res
read_word-Drains (suc n) i res =
    Drains-weak (Drains-bind read_u8 _ 1 0 read_u8-Drains (λ temp. read_word-Drains n (i + 1) _))

read_chars-Drains : (n : ℕ) (str : List ℕ) → Drains (read_chars n str) 0
unfolding read_chars read_char read_u8
read_chars-Drains zero str = Drains-pure str
read_chars-Drains (suc n) str =
    Drains-weak
      (Drains-bind read_u8 _ 1 0 read_u8-Drains (λ c. read_chars-Drains n (str ++ c ∷ [])))

read_bytes-Drains : (n : ℕ) (val : List ℕ) → Drains (read_bytes n val) 0
unfolding read_bytes
read_bytes-Drains zero val = Drains-pure val
read_bytes-Drains (suc n) val = Drains-weak (
    Drains-bind peek _ 0 1 peek-Drains
      (λ b. Drains-bind step _ 1 0 step-Drains (λ x. read_bytes-Drains n (val ++ b ∷ []))))

pub read_string-Drains : (old : List ℕ) → Drains (read_string old) 0
unfolding read_string read_u64
read_string-Drains old = record {
  at = λ r. go r (read_word 8 0 0 r) ((read_word-Drains 8 0 0).at r);
}
  where
    go :
        (r : Reader) (x : Option ℕ × Reader)
        → Fell 0 (left r) x
        → Fell {A = List ℕ} 0
            (left r)
            (elim x.0 [ none ↦ (some old, x.1) | some len ↦ read_chars len [] x.1 ])
    go r (none, r') h = omega arith
    go r (some len, r') h =
        Fell-mono 0 _ _ (read_chars len [] r') (omega arith) ((read_chars-Drains len []).at r')

fill_array-left : (len : ℕ) (r : Reader) → left (fill_array len r).1 ≤ left r
unfolding fill_array
fill_array-left len r = go (read_bytes len [] r) ((read_bytes-Drains len []).at r)
  where
    go :
        (x : Option (List ℕ) × Reader)
        → Fell 0 (left r) x
        → left
            (elim x.0 as (λ o. (Bool × ByteArray) × Reader) [
              | none ↦ ((false, record { length = len; bytes = freed }), x.1)
              | some bs ↦ ((true, record { length = len; bytes = owned bs }), x.1)
            ]).1
          ≤ left r
    go (none, r') h = h
    go (some bs, r') h = omega arith

pub read_byte_array-left : (old : ByteArray) (r : Reader) → left (read_byte_array old r).1 ≤ left r
unfolding read_byte_array read_u64
read_byte_array-left old r = go (read_word 8 0 0 r) ((read_word-Drains 8 0 0).at r)
  where
    go :
        (x : Option ℕ × Reader)
        → Fell 0 (left r) x
        → left (fill_array (elim x.0 [ none ↦ old.length | some len ↦ len ]) x.1).1 ≤ left r
    go (none, r') h = omega (arith, fill_array-left old.length r')
    go (some len, r') h = omega (arith, fill_array-left len r')

-- A call leaves no more than there was, whether it succeeds or not.
pub left-Drains :
    {A : Type 0} {m : Exec Reader A} {k : ℕ} → Drains m k → (r : Reader) → left (m r).1 ≤ left r
left-Drains {A} {m} {k} h r = go (m r) (h.at r)
  where
    go : (x : Option A × Reader) → Fell k (left r) x → left x.1 ≤ left r
    go (none, r') f = f
    go (some a, r') f = omega arith

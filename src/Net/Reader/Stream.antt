-- ===== src/Net/Reader/Stream.antt =====
-- The buffered reader as a plain stream of bytes: how the network cuts the stream into chunks, and
-- which of the two buffers is current, cannot be seen.
use trabalho_sistemas_operac.Prelude.{
  ℕ, ◌+◌, ◌≤◌, ◌<◌, ◌≡◌, refl, ap, true, false, Option, none, some, List, [], ◌∷◌, ◌++◌, inl, inr,
  arith, leb, Bool-cases, length, get_or, take, drop, All, length-append, length-drop, take-append,
  drop-length, drop-take, take-length-le,
}
use native.Mathlib.Numerals.{add-one}
use trabalho_sistemas_operac.Prelude.Exec.{◌>>=◌}
use trabalho_sistemas_operac.Net.Reader.{
  ReadResult, got, again, failed, Reader, rsize, curr_buf, read_into, flip, receive, fill_loop,
  fill_buffer, peek, step, read_u8,
}

-- The bytes that a socket delivers before it fails or ends.
unfoldable pub arriving : List ReadResult → List ℕ
arriving [] = []
arriving (got bytes ∷ rest) = bytes ++ arriving rest
arriving (again ∷ rest) = arriving rest
arriving (failed ∷ rest) = []

unfoldable pub available : Reader → List ℕ
available r = drop r.index (take r.length (curr_buf r))

-- What the reader will still return.
unfoldable pub pending : Reader → List ℕ
pending r = available r ++ arriving r.incoming

-- read(2) returns at least one byte, and at most as many as were asked for.
abbrev pub IsChunk : ReadResult → Type 0
IsChunk (got bytes) = (0 < length bytes) × (length bytes ≤ rsize)
IsChunk _ = Unit

pub record IsSound (r : Reader) : Type 0 where
  pub index_le : r.index ≤ r.length
  pub length_le : r.length ≤ rsize
  pub a_size : length r.a_buffer ≡ rsize
  pub b_size : length r.b_buffer ≡ rsize
  pub chunks : All IsChunk r.incoming

length-read_into :
    (bytes buffer : List ℕ)
    → length bytes ≤ length buffer
    → length (read_into bytes buffer) ≡ length buffer
unfolding read_into
length-read_into bytes buffer h =
    omega
      (arith, length-append bytes (drop (length bytes) buffer), length-drop (length bytes) buffer)

receive-IsSound :
    (bytes : List ℕ) (rest : List ReadResult) (r : Reader)
    → IsSound r
    → IsChunk (got bytes)
    → All IsChunk rest
    → IsSound (receive bytes rest (flip r))
unfolding receive
receive-IsSound bytes rest r s c k = record {
  index_le = omega arith;
  length_le = c.1;
  a_size = ground (arith, s.a_size, c.1, length-read_into bytes r.a_buffer);
  b_size = ground (arith, s.b_size, c.1, length-read_into bytes r.b_buffer);
  chunks = k;
}

available-receive :
    (bytes : List ℕ) (rest : List ReadResult) (r : Reader)
    → available (receive bytes rest r) ≡ bytes
unfolding available receive curr_buf read_into
available-receive bytes rest r = elim (Bool-cases r.buffer_switch) [
  | inl e ↦ rw e (take-append bytes _)
  | inr e ↦ rw e (take-append bytes _)
]

available-empty : (r : Reader) → r.length ≤ r.index → available r ≡ []
unfolding available
available-empty r h =
    drop-length (take r.length (curr_buf r)) r.index
      (omega (arith, take-length-le r.length (curr_buf r)))

-- What `fill_buffer` leaves, given what was pending before.
abbrev pub Filled : List ℕ → Option (Unit {0}) × Reader → Type 0
Filled bs (none, r) = (bs ≡ []) × IsSound r
Filled bs (some _, r) = IsSound r × (r.index < r.length) × (pending r ≡ bs)

flip-IsSound :
    (r : Reader) (rest : List ReadResult)
    → IsSound r
    → All IsChunk rest
    → IsSound (record (flip r) { incoming = rest })
flip-IsSound r rest s k = record {
  index_le = s.index_le;
  length_le = s.length_le;
  a_size = s.a_size;
  b_size = s.b_size;
  chunks = k;
}

pending-empty :
    (r : Reader) (trace : List ReadResult)
    → r.incoming ≡ trace
    → r.length ≤ r.index
    → pending r ≡ arriving trace
unfolding pending
pending-empty r trace e h = rw (available-empty r h, e)

pending-receive :
    (bytes : List ℕ) (rest : List ReadResult) (r : Reader)
    → pending (receive bytes rest r) ≡ bytes ++ arriving rest
unfolding pending receive
pending-receive bytes rest r = ap (λ bs. bs ++ arriving rest) (available-receive bytes rest r)

pending-flip :
    (r : Reader) (rest : List ReadResult)
    → r.length ≤ r.index
    → pending (record (flip r) { incoming = rest }) ≡ arriving rest
pending-flip r rest h = pending-empty _ rest refl h

leb-false : (a b : ℕ) → leb a b ≡ false → b < a
leb-false a b h = ground arith

leb-true : (a b : ℕ) → leb a b ≡ true → a ≤ b
leb-true a b h = ground arith

fill_loop-Filled :
    (trace : List ReadResult) (r : Reader)
    → IsSound r
    → r.incoming ≡ trace
    → All IsChunk trace
    → Filled (pending r) (fill_loop trace r)
unfolding fill_loop arriving receive
fill_loop-Filled [] r s e k = elim (Bool-cases (leb r.length r.index)) [
  | inl t ↦ rw t (pending-empty r [] e (leb-true _ _ t), flip-IsSound r [] s tt)
  | inr t ↦ rw t (s, leb-false _ _ t, refl)
]
fill_loop-Filled (got bytes ∷ rest) r s e k = elim (Bool-cases (leb r.length r.index)) [
  | inl t ↦
      rw (t, pending-empty r (got bytes ∷ rest) e (leb-true _ _ t))
        (rw pending-receive at (
          fill_loop-Filled rest (receive bytes rest (flip r))
            (receive-IsSound bytes rest r s k.0 k.1) refl k.1))
  | inr t ↦ rw t (s, leb-false _ _ t, refl)
]
fill_loop-Filled (again ∷ rest) r s e k = elim (Bool-cases (leb r.length r.index)) [
  | inl t ↦
      rw (t, pending-empty r (again ∷ rest) e (leb-true _ _ t))
        (rw (pending-flip r rest (leb-true _ _ t)) at
          (fill_loop-Filled rest _ (flip-IsSound r rest s k.1) refl k.1))
  | inr t ↦ rw t (s, leb-false _ _ t, refl)
]
fill_loop-Filled (failed ∷ rest) r s e k = elim (Bool-cases (leb r.length r.index)) [
  | inl t ↦ rw t (pending-empty r (failed ∷ rest) e (leb-true _ _ t), flip-IsSound r rest s k.1)
  | inr t ↦ rw t (s, leb-false _ _ t, refl)
]

-- On a sound reader `fill_buffer` fails only where no byte is pending, and otherwise leaves a sound
-- reader with the same bytes pending and the next one in the buffer.
pub fill_buffer-Filled : (r : Reader) → IsSound r → Filled (pending r) (fill_buffer r)
unfolding fill_buffer
fill_buffer-Filled r s = fill_loop-Filled r.incoming r s refl s.chunks

-- What one read leaves, given what was pending before.
abbrev pub Took : List ℕ → Option ℕ × Reader → Type 0
Took [] (o, r) = (o ≡ none) × IsSound r
Took (b ∷ bs) (o, r) = (o ≡ some b) × IsSound r × (pending r ≡ bs)

-- `step` after a fill.
abbrev advance : Reader → Reader
advance r = record r { index = r.index + 1 }

fill_buffer_full : (r : Reader) → r.index < r.length → fill_buffer r ≡ (some tt, r)
unfolding fill_buffer fill_loop
fill_buffer_full r h = full r.incoming (lt-leb r.length r.index h)
  where
    lt-leb : (a b : ℕ) → b < a → leb a b ≡ false
    lt-leb a b h = ground arith

    full :
        (trace : List ReadResult) → leb r.length r.index ≡ false → fill_loop trace r ≡ (some tt, r)
    full [] e = rw e
    full (got bytes ∷ rest) e = rw e
    full (again ∷ rest) e = rw e
    full (failed ∷ rest) e = rw e

read_u8_filled :
    (r r' : Reader)
    → fill_buffer r ≡ (some tt, r')
    → r'.index < r'.length
    → read_u8 r ≡ (some (get_or (curr_buf r') r'.index 0), advance r')
unfolding read_u8 peek step ◌>>=◌
read_u8_filled r r' e h = rw e (rw (fill_buffer_full r' h))

read_u8_ended : (r r' : Reader) → fill_buffer r ≡ (none, r') → read_u8 r ≡ (none, r')
unfolding read_u8 peek step ◌>>=◌
read_u8_ended r r' e = rw e

pending-advance :
    (r : Reader)
    → IsSound r
    → r.index < r.length
    → pending r ≡ get_or (curr_buf r) r.index 0 ∷ pending (advance r)
unfolding pending available curr_buf
pending-advance r s h = elim (Bool-cases r.buffer_switch) [
  | inl e ↦ rw (e, drop-take r.index r.length r.a_buffer 0 h (omega arith), add-one)
  | inr e ↦ rw (e, drop-take r.index r.length r.b_buffer 0 h (omega arith), add-one)
]

advance-IsSound : (r : Reader) → IsSound r → r.index < r.length → IsSound (advance r)
advance-IsSound r s h = record {
  index_le = omega arith;
  length_le = s.length_le;
  a_size = s.a_size;
  b_size = s.b_size;
  chunks = s.chunks;
}

Took-advance :
    (bs : List ℕ) (r : Reader)
    → IsSound r
    → r.index < r.length
    → pending r ≡ bs
    → Took bs (some (get_or (curr_buf r) r.index 0), advance r)
Took-advance [] r s h e = cc (e, pending-advance r s h)
Took-advance (b ∷ bs) r s h e = (
  ground (arith, pending-advance r s h),
  advance-IsSound r s h,
  ground (arith, pending-advance r s h),
)

-- On a sound reader, whatever chunks the socket delivers, `read_u8` fails only where no byte is
-- pending, and otherwise returns the next pending byte and leaves a sound reader with the others
-- pending.
pub read_u8-Took : (r : Reader) → IsSound r → Took (pending r) (read_u8 r)
read_u8-Took r s = go (fill_buffer r) refl (fill_buffer-Filled r s)
  where
    go :
        (p : Option (Unit {0}) × Reader)
        → fill_buffer r ≡ p
        → Filled (pending r) p
        → Took (pending r) (read_u8 r)
    go (none, r') e f = rw (read_u8_ended r r' e, f.0) (refl, f.1)
    go (some tt, r') e f = rw (read_u8_filled r r' e f.1) (Took-advance (pending r) r' f.0 f.1 f.2)

-- ===== src/Net/Writer/Stream.antt =====
-- The buffered writer as a plain stream of bytes, on a socket that accepts what it is given.
use native.Mathlib.Numerals.{add-one}
use trabalho_sistemas_operac.Prelude.{
  ℕ, ◌≤◌, ◌<◌, ◌≡◌, refl, sym, ap, ◌∙◌, false, some, List, [], ◌∷◌, ◌++◌, inl, inr, arith, leb,
  Bool-cases, length, take, All, length-set, take-set, append-nil, append_assoc,
}
use trabalho_sistemas_operac.Prelude.Exec.{Exec, pure, ◌>>=◌}
use trabalho_sistemas_operac.Net.Writer.{
  SendResult, all, part, failed, Writer, wsize, send_buffer, flush, put, write_u8,
}

-- What has been written: what the socket has accepted, and what is still in the buffer.
unfoldable pub written : Writer → List ℕ
written w = w.sent ++ take w.index w.buffer

abbrev pub IsAll : SendResult → Type 0
IsAll s = s ≡ all

-- The buffer has its size, the index is within it, and every `send` accepts all bytes.
pub record IsReliable (w : Writer) : Type 0 where
  pub index_le : w.index ≤ wsize
  pub size : length w.buffer ≡ wsize
  pub accepts : All IsAll w.sends

-- `m` returns `a` and writes exactly `bs`.
pub record Writes {A : Type 0} (m : Exec Writer A) (a : A) (bs : List ℕ) : Type 0 where
  pub at :
      (w : Writer)
      → IsReliable w
      → ((m w).0 ≡ some a) × IsReliable (m w).1 × (written (m w).1 ≡ written w ++ bs)

-- The same, and nothing of it stays behind in the buffer.
pub record Sends {A : Type 0} (m : Exec Writer A) (a : A) (bs : List ℕ) : Type 0 where
  pub at :
      (w : Writer)
      → IsReliable w
      → ((m w).0 ≡ some a)
        × IsReliable (m w).1
        × ((m w).1.sent ≡ written w ++ bs)
        × ((m w).1.index ≡ 0)

pub Writes-pure : {A : Type 0} (a : A) → Writes (pure a) a []
unfolding pure
Writes-pure a = record { at = λ w s. (refl, s, sym (append-nil (written w))) }

module _ {A B : Type 0} where
  pub Writes-bind :
      (m : Exec Writer A) (f : A → Exec Writer B) (a : A) (b : B) (xs ys : List ℕ)
      → Writes m a xs
      → Writes (f a) b ys
      → Writes (m >>= f) b (xs ++ ys)
  unfolding ◌>>=◌
  Writes-bind m f a b xs ys hm hf = record {
    at = λ w s.
        let first = hm.at w s in
        let second = hf.at (m w).1 first.1 in
        rw (first.0) (
          second.0,
          second.1,
          second.2 ∙ ap (λ bs. bs ++ ys) (first.2) ∙ append_assoc (written w) xs ys,
        );
  }

  pub Sends-bind :
      (m : Exec Writer A) (f : A → Exec Writer B) (a : A) (b : B) (xs ys : List ℕ)
      → Writes m a xs
      → Sends (f a) b ys
      → Sends (m >>= f) b (xs ++ ys)
  unfolding ◌>>=◌
  Sends-bind m f a b xs ys hm hf = record {
    at = λ w s.
        let first = hm.at w s in
        let second = hf.at (m w).1 first.1 in
        rw (first.0) (
          second.0,
          second.1,
          second.2 ∙ ap (λ bs. bs ++ ys) (first.2) ∙ append_assoc (written w) xs ys,
          second.3,
        );
  }

pub send_buffer-All :
    (trace : List SendResult) (w : Writer)
    → All IsAll trace
    → IsReliable w
    → ((send_buffer trace w).0 ≡ some tt)
      × IsReliable (send_buffer trace w).1
      × ((send_buffer trace w).1.sent ≡ written w)
      × ((send_buffer trace w).1.index ≡ 0)
unfolding send_buffer written
send_buffer-All [] w k s =
    (refl, record { index_le = omega arith; size = s.size; accepts = s.accepts }, refl, refl)
send_buffer-All (all ∷ rest) w k s =
    (refl, record { index_le = omega arith; size = s.size; accepts = k.1 }, refl, refl)
send_buffer-All (part n ∷ rest) w k s = absurd (cc (k.0))
send_buffer-All (failed ∷ rest) w k s = absurd (cc (k.0))

-- On any writer with its index within the buffer and a socket that accepts all bytes, `flush`
-- succeeds, the socket has everything that was written, in order, and the buffer is empty.
pub Sends-flush : Sends flush tt []
unfolding flush
Sends-flush = record {
  at = λ w s.
      let all_sent = send_buffer-All w.sends w s.accepts s in
      (all_sent.0, all_sent.1, all_sent.2 ∙ sym (append-nil (written w)), all_sent.3);
}

put_lem :
    (v : ℕ) (w : Writer)
    → IsReliable w
    → w.index < wsize
    → ((put v w).0 ≡ some tt) × IsReliable (put v w).1 × (written (put v w).1 ≡ written w ++ v ∷ [])
unfolding put written
put_lem v w s h = (
  refl,
  record {
    index_le = omega arith;
    size = length-set w.buffer w.index v ∙ s.size;
    accepts = s.accepts;
  },
  rw add-one (
      ap (◌++◌ w.sent) (take-set w.buffer w.index v (omega arith))
      ∙ sym (append_assoc w.sent (take w.index w.buffer) (v ∷ []))),
)

-- On any writer with its index within the buffer and a socket that accepts all bytes, `write_u8`
-- succeeds, appends the value to what has been written, and keeps the writer so.
pub Writes-u8 : (v : ℕ) → Writes (write_u8 v) tt (v ∷ [])
unfolding write_u8 ◌>>=◌
Writes-u8 v = record {
  at = λ w s. elim (Bool-cases (leb wsize w.index)) [
    | inl full ↦
        let first = Sends-flush.at w s in
        let second = put_lem v (flush w).1 first.1 (omega (arith, first.3)) in
        rw (full, first.0)
          (
            second.0,
            second.1,
            second.2
                ∙ ap (λ bs. bs ++ v ∷ []) (flushed (flush w).1 first.3 ∙ first.2 ∙ append-nil _),
          )
    | inr room ↦ rw room (put_lem v w s (leb-false room))
  ];
}
  where
    flushed : (w : Writer) → w.index ≡ 0 → written w ≡ w.sent
    flushed w e = unfold written in rw e (append-nil w.sent)

    leb-false : {a : ℕ} → leb wsize a ≡ false → a < wsize
    leb-false h = ground arith

-- ===== src/Net/Connection/Talk.antt =====
-- What an exchange over a connection says and hears, with one rule for each way to build it.
use trabalho_sistemas_operac.Prelude.{
  ℕ, ◌≡◌, refl, sym, ap, ◌∙◌, Bool, true, some, List, [], ◌++◌, append-nil, append_assoc,
}
use trabalho_sistemas_operac.Prelude.Exec.{Exec, pure, ◌>>=◌}
use trabalho_sistemas_operac.Net.Reader.{Reader}
use trabalho_sistemas_operac.Net.Reader.Stream.{IsSound, pending}
use trabalho_sistemas_operac.Net.Reader.Word.{Reads}
use trabalho_sistemas_operac.Net.Writer.{Writer, flush}
use trabalho_sistemas_operac.Net.Writer.Stream.{IsReliable, written, Writes, Sends-flush}
use trabalho_sistemas_operac.Net.Connection.{Connection, reading, writing, require}

-- The reader is well formed, and the socket accepts what it is given.
pub record IsOpen (c : Connection) : Type 0 where
  pub sound : IsSound c.reader
  pub reliable : IsReliable c.writer

-- `m` takes exactly the bytes `i`, returns `a` and writes nothing.
pub record Hears {A : Type 0} (m : Exec Connection A) (a : A) (i : List ℕ) : Type 0 where
  pub at :
      (c : Connection) (rest : List ℕ)
      → IsSound c.reader
      → pending c.reader ≡ i ++ rest
      → ((m c).0 ≡ some a)
        × IsSound (m c).1.reader
        × (pending (m c).1.reader ≡ rest)
        × ((m c).1.writer ≡ c.writer)

-- `m` writes exactly the bytes `o`, returns `a` and reads nothing.
pub record Says {A : Type 0} (m : Exec Connection A) (a : A) (o : List ℕ) : Type 0 where
  pub at :
      (c : Connection)
      → IsReliable c.writer
      → ((m c).0 ≡ some a)
        × IsReliable (m c).1.writer
        × (written (m c).1.writer ≡ written c.writer ++ o)
        × ((m c).1.reader ≡ c.reader)

-- `m` takes `i`, returns `a`, and hands all that was written, and then `o`, to the socket.
pub record Delivers {A : Type 0} (m : Exec Connection A) (a : A) (i o : List ℕ) : Type 0 where
  pub at :
      (c : Connection) (rest : List ℕ)
      → IsOpen c
      → pending c.reader ≡ i ++ rest
      → ((m c).0 ≡ some a)
        × IsOpen (m c).1
        × (pending (m c).1.reader ≡ rest)
        × ((m c).1.writer.sent ≡ written c.writer ++ o)
        × ((m c).1.writer.index ≡ 0)

module _ {A : Type 0} where
  pub Hears-reading : {m : Exec Reader A} {a : A} {i : List ℕ} → Reads m a i → Hears (reading m) a i
  unfolding reading
  Hears-reading h = record {
    at = λ c rest s e. let p = h.at c.reader rest s e in (p.0, p.1, p.2, refl);
  }

  pub Says-writing : {m : Exec Writer A} {a : A} {o : List ℕ} → Writes m a o → Says (writing m) a o
  unfolding writing
  Says-writing h = record { at = λ c s. let p = h.at c.writer s in (p.0, p.1, p.2, refl) }

  pub Hears-pure : {a : A} → Hears (pure a) a []
  unfolding pure
  Hears-pure = record { at = λ c rest s e. (refl, s, e, refl) }

pub Delivers-flush : Delivers (writing flush) tt [] []
unfolding writing
Delivers-flush = record {
  at = λ c rest s e.
      let p = Sends-flush.at c.writer s.reliable in
      (p.0, record { sound = s.sound; reliable = p.1 }, e, p.2, p.3);
}

pub Hears-require : {b : Bool} → b ≡ true → Hears (require b) tt []
unfolding require pure
Hears-require {b} e = rw e (record { at = λ c rest s e. (refl, s, e, refl) })

module _ {A B : Type 0} (m : Exec Connection A) (f : A → Exec Connection B) (a : A) (b : B) where
  pub Hears-bind : {i j : List ℕ} → Hears m a i → Hears (f a) b j → Hears (m >>= f) b (i ++ j)
  unfolding ◌>>=◌
  Hears-bind {i} {j} hm hf = record {
    at = λ c rest s e.
        let p = hm.at c (j ++ rest) s (e ∙ append_assoc i j rest) in
        let q = hf.at (m c).1 rest p.1 p.2 in rw (p.0) (q.0, q.1, q.2, q.3 ∙ p.3);
  }

  pub Hears-bind_last : {i : List ℕ} → Hears m a i → Hears (f a) b [] → Hears (m >>= f) b i
  Hears-bind_last {i} hm hf = rw append-nil at (Hears-bind hm hf)

  pub Says-bind : {o p : List ℕ} → Says m a o → Says (f a) b p → Says (m >>= f) b (o ++ p)
  unfolding ◌>>=◌
  Says-bind {o} {p} hm hf = record {
    at = λ c s.
        let x = hm.at c s in
        let y = hf.at (m c).1 x.1 in
        rw (x.0) (
          y.0,
          y.1,
          y.2 ∙ ap (λ bs. bs ++ p) (x.2) ∙ append_assoc (written c.writer) o p,
          y.3 ∙ x.3,
        );
  }

  pub Delivers-Says :
      {i o p : List ℕ} → Says m a o → Delivers (f a) b i p → Delivers (m >>= f) b i (o ++ p)
  unfolding ◌>>=◌
  Delivers-Says {i} {o} {p} hm hf = record {
    at = λ c rest s e.
        let x = hm.at c s.reliable in
        let open_still : IsOpen (m c).1 = record { sound = rw (x.3) (s.sound); reliable = x.1 } in
        let y = hf.at (m c).1 rest open_still (ap pending (x.3) ∙ e) in
        rw (x.0) (
          y.0,
          y.1,
          y.2,
          y.3 ∙ ap (λ bs. bs ++ p) (x.2) ∙ append_assoc (written c.writer) o p,
          y.4,
        );
  }

  pub Delivers-Says_last :
      {i o : List ℕ} → Says m a o → Delivers (f a) b i [] → Delivers (m >>= f) b i o
  Delivers-Says_last {i} {o} hm hf = rw append-nil at (Delivers-Says hm hf)

  pub Delivers-Hears :
      {i j o : List ℕ} → Delivers m a i o → Hears (f a) b j → Delivers (m >>= f) b (i ++ j) o
  unfolding ◌>>=◌
  Delivers-Hears {i} {j} {o} hm hf = record {
    at = λ c rest s e.
        let x = hm.at c (j ++ rest) s (e ∙ append_assoc i j rest) in
        let y = hf.at (m c).1 rest (x.1.sound) (x.2) in
        rw (x.0) (
          y.0,
          record { sound = y.1; reliable = rw (y.3) (x.1.reliable) },
          y.2,
          ap (λ w. w.sent) (y.3) ∙ x.3,
          ap (λ w. w.index) (y.3) ∙ x.4,
        );
  }

pub Says-pure : {A : Type 0} {a : A} → Says (pure a) a []
unfolding pure
Says-pure = record { at = λ c s. (refl, s, sym (append-nil (written c.writer)), refl) }

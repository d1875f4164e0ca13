-- ===== src/Net/Connection/Left.antt =====
-- How exchanges over a connection use up what its reader has left.
use trabalho_sistemas_operac.Prelude.{ℕ, ◌+◌, ◌≤◌, Option, none, some, Bool, true, false, arith}
use trabalho_sistemas_operac.Prelude.Exec.{fail, Exec, continue, pure, ◌>>=◌}
use trabalho_sistemas_operac.Net.Reader.{Reader}
use trabalho_sistemas_operac.Net.Reader.Left.{left, Fell, Drains}
use trabalho_sistemas_operac.Net.Connection.{Connection, reading, require, fail}

-- `m` takes at least `k` bytes from the connection if it succeeds.
pub record Uses {A : Type 0} (m : Exec Connection A) (k : ℕ) : Type 0 where
  pub at : (c : Connection) → Fell k (left c.reader) ((m c).0, (m c).1.reader)

pub Uses-reading : {A : Type 0} {m : Exec Reader A} {k : ℕ} → Drains m k → Uses (reading m) k
unfolding reading
Uses-reading h = record { at = λ c. h.at c.reader }

pub Uses-pure : {A : Type 0} (a : A) → Uses (pure a) 0
unfolding pure
Uses-pure a = record { at = λ c. omega arith }

pub Uses-require : (b : Bool) → Uses (require b) 0
unfolding require pure fail
Uses-require true = record { at = λ c. omega arith }
Uses-require false = record { at = λ c. omega arith }

pub Uses-bind :
    {A B : Type 0} (m : Exec Connection A) (f : A → Exec Connection B) (k j : ℕ)
    → Uses m k
    → ((a : A) → Uses (f a) j)
    → Uses (m >>= f) (k + j)
unfolding ◌>>=◌
Uses-bind {A} {B} m f k j hm hf = record { at = λ c. go c (m c) (hm.at c) }
  where
    next :
        (n : ℕ) (c' : Connection) (x : Option B × Connection)
        → left c'.reader + k ≤ n
        → Fell j (left c'.reader) (x.0, x.1.reader)
        → Fell (k + j) n (x.0, x.1.reader)
    next n c' (none, c) h f = omega arith
    next n c' (some a, c) h f = omega arith

    go :
        (c : Connection) (x : Option A × Connection)
        → Fell k (left c.reader) (x.0, x.1.reader)
        → Fell (k + j) (left c.reader) ((continue x.0 f x.1).0, (continue x.0 f x.1).1.reader)
    go c (none, c') h = h
    go c (some a, c') h = next (left c.reader) c' (f a c') h ((hf a).at c')

-- ===== src/Prelude/Exec.antt =====
-- Functions that change a state and return a success flag: `none` is `false`, and the state that
-- the failing call leaves comes back beside it.
use mathlib.Core.Option.{Option, none, some}

abbrev pub Exec {ℓ} : Type ℓ → Type ℓ → Type ℓ
Exec S A = S → Option A × S

module _ {ℓ} {S A : Type ℓ} where
  unfoldable pub pure : A → Exec S A
  pure a s = (some a, s)

  unfoldable pub fail : Exec S A
  fail s = (none, s)

module _ {ℓ} {S A B : Type ℓ} where
  abbrev pub continue : Option A → (A → Exec S B) → Exec S B
  continue none f s = (none, s)
  continue (some a) f s = f a s

  infixl 10 ◌>>=◌ ◌>>◌
  unfoldable pub ◌>>=◌ : Exec S A → (A → Exec S B) → Exec S B
  unfolding pure fail
  ◌>>=◌ m f s = let (r, s') = m s in continue r f s'

  abbrev pub ◌>>◌ : Exec S A → Exec S B → Exec S B
  m >> n = m >>= λ _. n

-- ===== src/Startup/Port.antt =====
-- Which arguments `check_port` takes for a port (server/src/main.cpp).
use mathlib.Core.Option.{some-injective}
use trabalho_sistemas_operac.Prelude.{
  ℕ, suc, ◌+◌, ◌-◌, ◌*◌, ◌≤◌, ◌<◌, ◌^◌, ◌≡◌, ◌↔◌, refl, ap, ◌∙◌, true, false, some, List, [], ◌∷◌,
  All, leb, ltb, ◌&&◌, arith, Bool-cases, inl, inr,
}
use trabalho_sistemas_operac.Startup.{port_loop, check_port}

-- A character from '0' to '9'.
abbrev pub IsDigit : ℕ → Type 0
IsDigit c = (48 ≤ c) × (c ≤ 57)

-- The number that digits mean, after `n`.
unfoldable pub decimal_from : ℕ → List ℕ → ℕ
decimal_from n [] = n
decimal_from n (c ∷ str) = decimal_from (10 * n + (c - 48)) str

unfoldable pub decimal : List ℕ → ℕ
decimal str = decimal_from 0 str

decimal_from-le : (n : ℕ) (str : List ℕ) → n ≤ decimal_from n str
unfolding decimal_from
decimal_from-le n [] = omega arith
decimal_from-le n (c ∷ str) = omega (arith, decimal_from-le (10 * n + (c - 48)) str)

port_loop-reads :
    (str : List ℕ) (n : ℕ)
    → All IsDigit str
    → decimal_from n str < 2 ^ 16
    → port_loop str n ≡ some (decimal_from n str)
unfolding port_loop decimal_from
port_loop-reads [] n d h = refl
port_loop-reads (c ∷ str) n d h = ground (
  arith,
  d.0,
  port_loop-reads str (10 * n + (c - 48)) d.1 h,
  decimal_from-le (10 * n + (c - 48)) str,
)

ltb-false : (a b : ℕ) → ltb a b ≡ false → b < suc a
ltb-false a b h = ground arith

digit : (c : ℕ) → (leb 48 c && leb c 57) ≡ true → IsDigit c
digit c h = ground arith

port_loop-only :
    (str : List ℕ) (n p : ℕ)
    → n < 2 ^ 16
    → port_loop str n ≡ some p
    → All IsDigit str × (decimal_from n str ≡ p) × (p < 2 ^ 16)
unfolding port_loop decimal_from
port_loop-only [] n p h e = let same = some-injective n p e in (tt, same, omega arith)
port_loop-only (c ∷ str) n p h e = elim (Bool-cases (leb 48 c && leb c 57)) [
  | inr q ↦ cc (rw q at e)
  | inl q ↦ elim (Bool-cases (ltb 0xffff (10 * n + (c - 48)))) [
    | inl l ↦ cc (rw (q, l) at e)
    | inr l ↦
        let r = port_loop-only str (10 * n + (c - 48)) p (ltb-false _ _ l) (rw (q, l) at e) in
        ((digit c q, r.0), r.1, r.2)
  ]
]

-- `check_port` accepts a text as the port `port` if and only if all its characters are digits, they
-- mean `port`, and `port` is below 2 ^ 16.
pub check_port-reads :
    (str : List ℕ) (port : ℕ)
    → (check_port str ≡ some port) ↔ (All IsDigit str × (decimal str ≡ port) × (port < 2 ^ 16))
unfolding check_port decimal
check_port-reads str port = (
  port_loop-only str 0 port (omega arith),
  λ h. port_loop-reads str 0 h.0 (rw (h.1) h.2) ∙ ap some h.1,
)

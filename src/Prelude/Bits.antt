-- ===== src/Prelude/Bits.antt =====
-- `bit_or` of two numbers that share no binary digit is their sum, and `bit_and` with 0xff keeps
-- the low byte.
use Prim.Native.Nat.{
  ℕ, zero, suc, ◌+◌, ◌-◌, ◌*◌, ◌/◌, ◌%◌, ◌^◌, ◌≤◌, ◌<◌, min, max, bit_or, bit_and, digits,
  bit_or-bitwise, bit_and-bitwise,
}
use mathlib.Core.Path.{◌≡◌, refl, sym, ap, subst, ◌∙◌}
use native.Mathlib.Omega.{arith}
use native.Mathlib.Nat.{pow-suc, suc-add}

-- Facts on `digits` for any rule `last` at the end and any rule `join` for two digits.
module _ (last : ℕ → ℕ) (join : ℕ → ℕ → ℕ) where
  exhausted : (rounds y : ℕ) → digits last join rounds zero y ≡ last y
  exhausted zero y = refl
  exhausted (suc rounds) y = refl

  -- As many rounds as the number itself are enough.
  spare_rounds :
      (rounds spare x y : ℕ)
      → x ≤ rounds
      → digits last join (rounds + spare) x y ≡ digits last join rounds x y
  spare_rounds rounds spare zero y h = exhausted (rounds + spare) y ∙ sym (exhausted rounds y)
  spare_rounds zero spare (suc x) y h = elim h [ ]
  spare_rounds (suc rounds) spare (suc x) y h =
      ap (λ k. digits last join k (suc x) y) (suc-add rounds spare)
      ∙ ap (λ upper. upper * 2 + join (suc x % 2) (y % 2))
          (spare_rounds rounds spare (suc x / 2) (y / 2) (omega arith))

  lowest_digit :
      ((y : ℕ) → last y ≡ last (y / 2) * 2 + join 0 (y % 2))
      → (x y : ℕ)
      → digits last join x x y ≡ digits last join (x / 2) (x / 2) (y / 2) * 2 + join (x % 2) (y % 2)
  lowest_digit ending zero y = ending y
  lowest_digit ending (suc x) y =
      let q : ℕ = suc x / 2 in
      let whole : q + (x - q) ≡ x = omega arith in
      ap (λ upper. upper * 2 + join (suc x % 2) (y % 2))
        (subst (λ k. digits last join k q (y / 2) ≡ digits last join q q (y / 2)) whole
          (spare_rounds q (x - q) q (y / 2) (omega arith)))

or_lowest : (x y : ℕ) → bit_or x y ≡ bit_or (x / 2) (y / 2) * 2 + max (x % 2) (y % 2)
or_lowest x y =
    bit_or-bitwise x y
    ∙ lowest_digit (λ y. y) max (λ y. omega arith) x y
    ∙ ap (λ upper. upper * 2 + max (x % 2) (y % 2)) (sym (bit_or-bitwise (x / 2) (y / 2)))

and_lowest : (x y : ℕ) → bit_and x y ≡ bit_and (x / 2) (y / 2) * 2 + min (x % 2) (y % 2)
and_lowest x y =
    bit_and-bitwise x y
    ∙ lowest_digit (λ y. zero) min (λ y. omega arith) x y
    ∙ ap (λ upper. upper * 2 + min (x % 2) (y % 2)) (sym (bit_and-bitwise (x / 2) (y / 2)))

twice_shift : (k t : ℕ) → t * 2 ^ suc k ≡ 2 * (t * 2 ^ k)
twice_shift k t = rw pow-suc (omega arith)

-- `a | (t << k)` is `a + t * 2 ^ k` where `a` has at most `k` binary digits.
pub bit_or-shifted : (k a t : ℕ) → a < 2 ^ k → bit_or a (t * 2 ^ k) ≡ a + t * 2 ^ k
bit_or-shifted zero a t h =
    let e : a ≡ 0 = omega arith in rw e (omega (arith, bit_or-bitwise 0 (t * 2 ^ 0)))
bit_or-shifted (suc k) a t h =
    let small : a / 2 < 2 ^ k = omega (arith, twice_shift k 1, h) in
    let half : t * 2 ^ suc k / 2 ≡ t * 2 ^ k = omega (arith, twice_shift k t) in
    omega (
      arith,
      or_lowest a (t * 2 ^ suc k),
      ap (bit_or (a / 2)) half,
      bit_or-shifted k (a / 2) t small,
      twice_shift k t,
    )

no_digits : (rounds x : ℕ) → digits (λ y. zero) min rounds x 0 ≡ 0
no_digits zero x = refl
no_digits (suc rounds) zero = refl
no_digits (suc rounds) (suc x) = omega (arith, no_digits rounds (suc x / 2))

-- A mask with one more digit that is 1.
mask_more : (m x : ℕ) → bit_and x (2 * m + 1) ≡ bit_and (x / 2) m * 2 + x % 2
mask_more m x =
    let half : (2 * m + 1) / 2 ≡ m = omega arith in
    omega (arith, and_lowest x (2 * m + 1), ap (bit_and (x / 2)) half)

no_mask : (x : ℕ) → bit_and x 0 ≡ 0
no_mask x = bit_and-bitwise x 0 ∙ no_digits x x

low_digit : (x : ℕ) → bit_and x 1 ≡ x % 2
low_digit x = omega (arith, mask_more 0 x, no_mask (x / 2))

low_nibble : (x : ℕ) → bit_and x 0xf ≡ x % 16
low_nibble x =
    omega (
      arith,
      mask_more 7 x,
      mask_more 3 (x / 2),
      mask_more 1 (x / 2 / 2),
      low_digit (x / 2 / 2 / 2),
    )

pub bit_and_0xff : (x : ℕ) → bit_and x 0xff ≡ x % 256
bit_and_0xff x = omega (
  arith,
  mask_more 127 x,
  mask_more 63 (x / 2),
  mask_more 31 (x / 2 / 2),
  mask_more 15 (x / 2 / 2 / 2),
  low_nibble (x / 2 / 2 / 2 / 2),
)

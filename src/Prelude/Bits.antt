-- ===== src/Prelude/Bits.antt =====
-- `&` and `|` at the mask 3, for every first argument.
use Prim.Native.Nat.{
  ℕ, zero, suc, ◌+◌, ◌*◌, ◌/◌, ◌%◌, ◌≤◌, ◌<◌, min, max, bit_and, bit_or, digits, bit_and-bitwise,
  bit_or-bitwise,
}
use mathlib.Core.Path.{◌≡◌, refl}
use native.Mathlib.Omega.{arith}

module _ (base : ℕ → ℕ) (op : ℕ → ℕ → ℕ) where
  -- The digit recursion does not depend on fuel that is at least the first argument.
  digits_any :
      (fuel more low high : ℕ)
      → low ≤ fuel
      → low ≤ more
      → digits base op fuel low high ≡ digits base op more low high
  digits_any zero zero low high enough plenty = refl
  digits_any zero (suc more) zero high enough plenty = refl
  digits_any zero (suc more) (suc low) high enough plenty = absurd (omega arith)
  digits_any (suc fuel) zero zero high enough plenty = refl
  digits_any (suc fuel) zero (suc low) high enough plenty = absurd (omega arith)
  digits_any (suc fuel) (suc more) zero high enough plenty = refl
  digits_any (suc fuel) (suc more) (suc low) high enough plenty =
      omega (arith, digits_any fuel more (suc low / 2) (high / 2) (omega arith) (omega arith))

pub bit_and-halves :
    (low high : ℕ) → bit_and low high ≡ bit_and (low / 2) (high / 2) * 2 + min (low % 2) (high % 2)
bit_and-halves zero high = omega (arith, bit_and-bitwise 0 high, bit_and-bitwise 0 (high / 2))
bit_and-halves (suc low) high = omega (
  arith,
  bit_and-bitwise (suc low) high,
  bit_and-bitwise (suc low / 2) (high / 2),
  digits_any (λ high. zero) min low (suc low / 2) (suc low / 2) (high / 2) (omega arith)
      (omega arith),
)

pub bit_or-halves :
    (low high : ℕ) → bit_or low high ≡ bit_or (low / 2) (high / 2) * 2 + max (low % 2) (high % 2)
bit_or-halves zero high = omega (arith, bit_or-bitwise 0 high, bit_or-bitwise 0 (high / 2))
bit_or-halves (suc low) high = omega (
  arith,
  bit_or-bitwise (suc low) high,
  bit_or-bitwise (suc low / 2) (high / 2),
  digits_any (λ high. high) max low (suc low / 2) (suc low / 2) (high / 2) (omega arith)
      (omega arith),
)

bit_and-zero_below : (fuel low : ℕ) → low ≤ fuel → bit_and low 0 ≡ 0
bit_and-zero_below fuel zero h = refl
bit_and-zero_below zero (suc low) h = absurd (omega arith)
bit_and-zero_below (suc fuel) (suc low) h =
    omega (arith, bit_and-halves (suc low) 0, bit_and-zero_below fuel (suc low / 2) (omega arith))

bit_or-zero_below : (fuel low : ℕ) → low ≤ fuel → bit_or low 0 ≡ low
bit_or-zero_below fuel zero h = refl
bit_or-zero_below zero (suc low) h = absurd (omega arith)
bit_or-zero_below (suc fuel) (suc low) h =
    omega (arith, bit_or-halves (suc low) 0, bit_or-zero_below fuel (suc low / 2) (omega arith))

-- `v & 3` is the remainder by 4.
pub bit_and_three : (v : ℕ) → bit_and v 3 ≡ v % 4
bit_and_three v = omega (
  arith,
  bit_and-halves v 3,
  bit_and-halves (v / 2) 1,
  bit_and-zero_below (v / 2 / 2) (v / 2 / 2) (omega arith),
)

-- `v | e` adds `e`, where `v` is shifted by two places and `e` has two digits.
pub bit_or_low : (v e : ℕ) → e < 4 → bit_or (v * 4) e ≡ v * 4 + e
bit_or_low v zero h = omega (arith, bit_or-zero_below (v * 4) (v * 4) (omega arith))
bit_or_low v (suc zero) h =
    omega (arith, bit_or-halves (v * 4) 1, bit_or-zero_below (v * 4 / 2) (v * 4 / 2) (omega arith))
bit_or_low v (suc (suc zero)) h = omega (
  arith,
  bit_or-halves (v * 4) 2,
  bit_or-halves (v * 4 / 2) 1,
  bit_or-zero_below (v * 4 / 2 / 2) (v * 4 / 2 / 2) (omega arith),
)
bit_or_low v (suc (suc (suc zero))) h = omega (
  arith,
  bit_or-halves (v * 4) 3,
  bit_or-halves (v * 4 / 2) 1,
  bit_or-zero_below (v * 4 / 2 / 2) (v * 4 / 2 / 2) (omega arith),
)
bit_or_low v (suc (suc (suc (suc e)))) h = absurd (omega arith)

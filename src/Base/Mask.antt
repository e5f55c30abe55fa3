-- ===== src/Base/Mask.antt =====
-- `x & (2 ^ k - 1)` as a remainder, at every width.
use q3vm.Base.Tests.{ltb, ◌==◌}
use Prim.Native.Nat.{
  ℕ, zero, suc, ◌+◌, ◌-◌, ◌*◌, ◌/◌, ◌%◌, ◌^◌, ◌≤◌, ◌<◌, min, bit_and, digits, bit_and-bitwise,
}
use mathlib.Core.Path.{◌≡◌, refl, ap}
use native.Mathlib.Nat.{pow-suc, one-le-pow, mod-lt, mod-eq_of_lt}
use native.Mathlib.Omega.{arith}

abbrev and_fuel : ℕ → ℕ → ℕ → ℕ
and_fuel n a b = digits (λ _. zero) min n a b

-- Fuel beyond the first argument changes nothing.
and_fuel_enough : (n m a b : ℕ) → a ≤ n → a ≤ m → and_fuel n a b ≡ and_fuel m a b
and_fuel_enough zero zero a b p q = refl
and_fuel_enough zero (suc m) zero b p q = refl
and_fuel_enough zero (suc m) (suc a) b p q = absurd (omega arith)
and_fuel_enough (suc n) zero zero b p q = refl
and_fuel_enough (suc n) zero (suc a) b p q = absurd (omega arith)
and_fuel_enough (suc n) (suc m) zero b p q = refl
and_fuel_enough (suc n) (suc m) (suc a) b p q =
    omega (arith, and_fuel_enough n m (suc a / 2) (b / 2) (omega arith) (omega arith))

pub bit_and_low : (a b : ℕ) → bit_and a b ≡ bit_and (a / 2) (b / 2) * 2 + min (a % 2) (b % 2)
bit_and_low zero b = omega (arith, bit_and-bitwise 0 b, bit_and-bitwise 0 (b / 2))
bit_and_low (suc a) b = omega (
  arith,
  bit_and-bitwise (suc a) b,
  bit_and-bitwise (suc a / 2) (b / 2),
  and_fuel_enough a (suc a / 2) (suc a / 2) (b / 2) (omega arith) (omega arith),
)

bit_and_nothing : (n a : ℕ) → a ≤ n → bit_and a 0 ≡ 0
bit_and_nothing n zero h = refl
bit_and_nothing zero (suc a) h = absurd (omega arith)
bit_and_nothing (suc n) (suc a) h =
    omega (arith, bit_and_low (suc a) 0, bit_and_nothing n (suc a / 2) (omega arith))

pub two_pow_pos : (k : ℕ) → 1 ≤ 2 ^ k
two_pow_pos k = one-le-pow k 2 (omega arith)

-- Division with remainder by the power, then one binary digit at a time.
mask_of_split : (k q r : ℕ) → r < 2 ^ k → bit_and (q * 2 ^ k + r) (2 ^ k - 1) ≡ r
mask_of_split zero q r h = omega (arith, bit_and_nothing (q * 1 + r) (q * 1 + r) (omega arith))
mask_of_split (suc k) q r h =
    let doubled : q * 2 ^ suc k ≡ 2 * (q * 2 ^ k) =
      omega (arith, ap (λ (t : ℕ). q * t) (pow-suc 2 k)) in
    ground (
      arith,
      doubled,
      bit_and_low (q * 2 ^ suc k + r) (2 ^ suc k - 1),
      pow-suc 2 k,
      two_pow_pos k,
      mask_of_split k q (r / 2) (omega (arith, pow-suc 2 k)),
    )

-- The mask of a power of two keeps the remainder.
pub bit_and_mask : (k a : ℕ) → bit_and a (2 ^ k - 1) ≡ a % 2 ^ k
bit_and_mask k a =
    ground
      (arith, two_pow_pos k, mask_of_split k (a / 2 ^ k) (a % 2 ^ k) (grind (arith, two_pow_pos k)))

-- A value that its mask leaves alone lies below the power, and the other way round.
pub masked_test : (k x : ℕ) → (bit_and x (2 ^ k - 1) == x) ≡ ltb x (2 ^ k)
masked_test k x = ground (
  arith,
  bit_and_mask k x,
  two_pow_pos k,
  mod-lt x (two_pow_pos k),
  mod-eq_of_lt {n = x} {m = 2 ^ k},
)

-- ===== src/Base/Xor.antt =====
-- Laws of `bit_xor`, digit by digit.
use Prim.Native.Nat.{
  ℕ, zero, suc, ◌+◌, ◌*◌, ◌/◌, ◌%◌, ◌^◌, ◌≤◌, ◌<◌, bit_xor, digits, differ, bit_xor-bitwise,
}
use mathlib.Core.Path.{◌≡◌, refl, ap}
use native.Mathlib.Nat.{pow-suc}
use native.Mathlib.Omega.{arith}

abbrev xor_fuel : ℕ → ℕ → ℕ → ℕ
xor_fuel n a b = digits (λ b. b) differ n a b

xor_fuel_enough : (n m a b : ℕ) → a ≤ n → a ≤ m → xor_fuel n a b ≡ xor_fuel m a b
xor_fuel_enough zero zero a b p q = refl
xor_fuel_enough zero (suc m) zero b p q = refl
xor_fuel_enough zero (suc m) (suc a) b p q = absurd (omega arith)
xor_fuel_enough (suc n) zero zero b p q = refl
xor_fuel_enough (suc n) zero (suc a) b p q = absurd (omega arith)
xor_fuel_enough (suc n) (suc m) zero b p q = refl
xor_fuel_enough (suc n) (suc m) (suc a) b p q =
    omega (arith, xor_fuel_enough n m (suc a / 2) (b / 2) (omega arith) (omega arith))

differ_digits : (x y : ℕ) → x < 2 → y < 2 → differ x y ≡ (x + y) % 2
differ_digits zero zero h k = refl
differ_digits zero (suc zero) h k = refl
differ_digits zero (suc (suc y)) h k = absurd (omega arith)
differ_digits (suc zero) zero h k = refl
differ_digits (suc zero) (suc zero) h k = refl
differ_digits (suc zero) (suc (suc y)) h k = absurd (omega arith)
differ_digits (suc (suc x)) y h k = absurd (omega arith)

pub zero-bit_xor : (b : ℕ) → bit_xor 0 b ≡ b
zero-bit_xor b = bit_xor-bitwise 0 b

pub bit_xor_low : (a b : ℕ) → bit_xor a b ≡ bit_xor (a / 2) (b / 2) * 2 + (a % 2 + b % 2) % 2
bit_xor_low zero b = omega (arith, zero-bit_xor b, zero-bit_xor (b / 2))
bit_xor_low (suc a) b = omega (
  arith,
  bit_xor-bitwise (suc a) b,
  bit_xor-bitwise (suc a / 2) (b / 2),
  differ_digits (suc a % 2) (b % 2) (omega arith) (omega arith),
  xor_fuel_enough a (suc a / 2) (suc a / 2) (b / 2) (omega arith) (omega arith),
)

half : (x y : ℕ) → bit_xor x y / 2 ≡ bit_xor (x / 2) (y / 2)
half x y = omega (arith, bit_xor_low x y)

double : (k t : ℕ) → t * 2 ^ suc k ≡ 2 * (t * 2 ^ k)
double k t = omega (arith, ap (λ (v : ℕ). t * v) (pow-suc 2 k))

-- Digit by digit, two numbers may be split anywhere.
pub bit_xor_split :
    (k p q a b : ℕ)
    → a < 2 ^ k
    → b < 2 ^ k
    → bit_xor (p * 2 ^ k + a) (q * 2 ^ k + b) ≡ bit_xor p q * 2 ^ k + bit_xor a b
bit_xor_split zero p q a b h i =
    let e : p * 2 ^ zero + a ≡ p = omega arith in
    let f : q * 2 ^ zero + b ≡ q = omega arith in
    let g : a ≡ 0 = omega arith in
    omega (
      arith,
      ap (λ t. bit_xor t (q * 2 ^ zero + b)) e,
      ap (λ t. bit_xor p t) f,
      ap (λ t. bit_xor t b) g,
      zero-bit_xor b,
    )
bit_xor_split (suc k) p q a b h i =
    let x = p * 2 ^ suc k + a in
    let y = q * 2 ^ suc k + b in
    let e : x / 2 ≡ p * 2 ^ k + a / 2 = omega (arith, double k p) in
    let f : y / 2 ≡ q * 2 ^ k + b / 2 = omega (arith, double k q) in
    omega (
      arith,
      double k p,
      double k q,
      double k (bit_xor p q),
      bit_xor_low x y,
      ap (λ t. bit_xor t (y / 2)) e,
      ap (λ t. bit_xor (p * 2 ^ k + a / 2) t) f,
      bit_xor_split k p q (a / 2) (b / 2) (omega (arith, pow-suc 2 k)) (omega (arith, pow-suc 2 k)),
      bit_xor_low a b,
    )

bit_xor-zero_fuel : (n a : ℕ) → a ≤ n → bit_xor a 0 ≡ a
bit_xor-zero_fuel n zero h = zero-bit_xor 0
bit_xor-zero_fuel zero (suc a) h = absurd (omega arith)
bit_xor-zero_fuel (suc n) (suc a) h =
    omega (arith, bit_xor_low (suc a) 0, bit_xor-zero_fuel n (suc a / 2) (omega arith))

pub bit_xor-zero : (a : ℕ) → bit_xor a 0 ≡ a
bit_xor-zero a = bit_xor-zero_fuel a a (omega arith)

pub bit_xor-lt : (k a b : ℕ) → a < 2 ^ k → b < 2 ^ k → bit_xor a b < 2 ^ k
bit_xor-lt zero a b h i =
    let e : a ≡ 0 = omega arith in
    let f : b ≡ 0 = omega arith in rw (e, f) (omega (arith, zero-bit_xor 0))
bit_xor-lt (suc k) a b h i = omega (
  arith,
  pow-suc 2 k,
  bit_xor_low a b,
  bit_xor-lt k (a / 2) (b / 2) (omega (arith, pow-suc 2 k)) (omega (arith, pow-suc 2 k)),
)

-- The second and the third of three numbers may be exchanged.
pub bit_xor_swap :
    (k a b c : ℕ)
    → a < 2 ^ k
    → b < 2 ^ k
    → c < 2 ^ k
    → bit_xor (bit_xor a b) c ≡ bit_xor (bit_xor a c) b
bit_xor_swap zero a b c h i j =
    let e : b ≡ 0 = omega arith in let f : c ≡ 0 = omega arith in rw (e, f) refl
bit_xor_swap (suc k) a b c h i j = omega (
  arith,
  bit_xor_low (bit_xor a b) c,
  bit_xor_low (bit_xor a c) b,
  bit_xor_low a b,
  bit_xor_low a c,
  ap (λ t. bit_xor t (c / 2)) (half a b),
  ap (λ t. bit_xor t (b / 2)) (half a c),
  bit_xor_swap k (a / 2) (b / 2) (c / 2) (omega (arith, pow-suc 2 k)) (omega (arith, pow-suc 2 k))
      (omega (arith, pow-suc 2 k)),
)

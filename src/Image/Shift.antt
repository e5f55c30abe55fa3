-- ===== src/Image/Shift.antt =====
-- The rounding of the data section to a power of two.
use q3vm.Base.{
  ℕ, zero, suc, ◌+◌, ◌^◌, ◌≤◌, ◌<◌, ◌≡◌, true, false, some, arith, Bool-cases, inl, inr,
}
use q3vm.Base.Word.{slt}
use q3vm.Image.{find_shift}
use native.Mathlib.Nat.{pow-le-pow_right}

pub two_pow_le : (i : ℕ) → i ≤ 30 → 2 ^ i ≤ 2 ^ 30
two_pow_le i h = pow-le-pow_right (omega arith) {j = 30} h

-- `k` is the least shift whose power reaches `n`.
pub record IsShift (n k : ℕ) : Type 0 where
  pub within : k ≤ 30
  pub reaches : n ≤ 2 ^ k
  pub least : (j : ℕ) → j < k → 2 ^ j < n

slt-true : (a b : ℕ) → a ≤ 2 ^ 30 → b ≤ 2 ^ 30 → slt a b ≡ true → a < b
slt-true a b ha hb h = ground arith

slt-false : (a b : ℕ) → a ≤ 2 ^ 30 → b ≤ 2 ^ 30 → slt a b ≡ false → b ≤ a
slt-false a b ha hb h = ground arith

find_shift-from :
    (left i n : ℕ)
    → i + left ≡ 31
    → n ≤ 2 ^ 30
    → ((j : ℕ) → j < i → 2 ^ j < n)
    → (k : ℕ) × (find_shift left i n ≡ some k) × IsShift n k
unfolding find_shift
find_shift-from zero i n e h below = absurd (omega (arith, below 30 (omega arith)))
find_shift-from (suc left) i n e h below =
    let small = two_pow_le i (omega arith) in
    elim (Bool-cases (slt (2 ^ i) n)) [
      | inl more ↦ rw more (
          find_shift-from left (i + 1) n (omega arith) h
            (λ j hj. ground (arith, below j, slt-true (2 ^ i) n small h more)))
      | inr enough ↦ (
        i,
        rw enough,
        record {
          within = omega arith;
          reaches = slt-false (2 ^ i) n small h enough;
          least = below;
        },
      )
    ]

-- A size up to 2 ^ 30 is rounded up to the least power of two that holds it, with no undefined shift.
pub find_shift-IsShift : (n : ℕ) → n ≤ 2 ^ 30 → (k : ℕ) × (find_shift 31 0 n ≡ some k) × IsShift n k
find_shift-IsShift n h = find_shift-from 31 0 n (omega arith) h (λ j hj. absurd (omega arith))

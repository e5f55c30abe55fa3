-- ===== src/CmdLib/Crc/Division.antt =====
-- The division of a byte by the polynomial of the checksum, bit by bit, without the table of
-- q3asm/cmdlib.c: "a 16 bit, non-reflected CRC using the polynomial 0x1021".
use q3vm.Base.{
  ltb→lt, lt→ltb, bit_xor, ℕ, zero, suc, ap, ◌+◌, ◌-◌, ◌*◌, ◌%◌, ◌^◌, ◌≤◌, ◌<◌, ◌≡◌, ◌∙◌, arith,
  true, false, ltb, if◌then◌else◌, List, [], ◌∷◌, inl, inr, Bool-cases, sym,
}
use q3vm.Base.Mask.{two_pow_pos}
use q3vm.Base.Xor.{bit_xor-lt, bit_xor_split, bit_xor_swap, bit_xor-zero, zero-bit_xor}
use native.Mathlib.Nat.{pow-suc, le-mul_of_pos_right}

-- One bit of the division by the polynomial.
abbrev pub poly : ℕ
poly = 0x1021

abbrev pub crc_bit : ℕ → ℕ
crc_bit x = if ltb x (2 ^ 15) then 2 * x else bit_xor (2 * x % 2 ^ 16) poly

abbrev pub crc_bits : ℕ → ℕ → ℕ
crc_bits zero x = x
crc_bits (suc k) x = crc_bits k (crc_bit x)

-- A byte is added to the high end, and then its bits are divided off.
abbrev pub crc_byte : ℕ → ℕ → ℕ
crc_byte crcvalue data_ = crc_bits 8 (bit_xor crcvalue (data_ * 2 ^ 8))

abbrev pub crc_bytes : ℕ → List ℕ → ℕ
crc_bytes crcvalue [] = crcvalue
crc_bytes crcvalue (data_ ∷ rest) = crc_bytes (crc_byte crcvalue data_) rest

pub crc_bit-lt : (x : ℕ) → x < 2 ^ 16 → crc_bit x < 2 ^ 16
crc_bit-lt x h = elim (Bool-cases (ltb x (2 ^ 15))) [
  | inl low ↦ rw low (ground arith)
  | inr high ↦ rw high (bit_xor-lt 16 (2 * x % 2 ^ 16) poly (omega arith) (omega arith))
]

xor_double : (a b : ℕ) → bit_xor (2 * a) (2 * b) ≡ 2 * bit_xor a b
xor_double a b =
    let e : a * 2 ^ 1 + 0 ≡ 2 * a = omega arith in
    let f : b * 2 ^ 1 + 0 ≡ 2 * b = omega arith in
    omega (
      arith,
      ap (λ t. bit_xor t (b * 2 ^ 1 + 0)) e,
      ap (λ t. bit_xor (2 * a) t) f,
      bit_xor_split 1 a b 0 0 (omega arith) (omega arith),
      zero-bit_xor 0,
    )

-- The high bit, for a number that has it.
xor_high : (a b : ℕ) → a < 2 ^ 15 → b < 2 ^ 15 → bit_xor (2 ^ 15 + a) b ≡ 2 ^ 15 + bit_xor a b
xor_high a b h i =
    let e : 1 * 2 ^ 15 + a ≡ 2 ^ 15 + a = omega arith in
    let f : 0 * 2 ^ 15 + b ≡ b = omega arith in
    omega (
      arith,
      ap (λ t. bit_xor t (0 * 2 ^ 15 + b)) e,
      ap (λ t. bit_xor (2 ^ 15 + a) t) f,
      bit_xor_split 15 1 0 a b h i,
      bit_xor-zero 1,
    )

ltb→ge : (a b : ℕ) → ltb a b ≡ false → b ≤ a
ltb→ge a b h = ground arith

drop : (x : ℕ) → x < 2 ^ 16 → 2 ^ 15 ≤ x → 2 * (x - 2 ^ 15) ≡ 2 * x % 2 ^ 16
drop x h i = omega arith

-- A bit is linear in what lies below the high bit.
crc_bit-bit_xor :
    (x y : ℕ) → x < 2 ^ 16 → y < 2 ^ 15 → crc_bit (bit_xor x y) ≡ bit_xor (crc_bit x) (2 * y)
crc_bit-bit_xor x y h i = elim (Bool-cases (ltb x (2 ^ 15))) [
  | inl low ↦
      let small : ltb (bit_xor x y) (2 ^ 15) ≡ true =
        lt→ltb _ _ (bit_xor-lt 15 x y (ltb→lt _ _ low) i) in
      rw (low, small) (sym (xor_double x y))
  | inr high ↦
      let e : x ≡ 2 ^ 15 + (x - 2 ^ 15) = omega (arith, ltb→ge x (2 ^ 15) high) in
      let split : bit_xor x y ≡ 2 ^ 15 + bit_xor (x - 2 ^ 15) y =
        omega (arith, ap (λ t. bit_xor t y) e, xor_high (x - 2 ^ 15) y (omega (arith, h)) i) in
      let large : ltb (bit_xor x y) (2 ^ 15) ≡ false = ground (arith, split) in
      let left : 2 * bit_xor x y % 2 ^ 16 ≡ bit_xor (2 * x % 2 ^ 16) (2 * y) = omega (
        arith,
        split,
        bit_xor-lt 15 (x - 2 ^ 15) y (omega (arith, h)) i,
        xor_double (x - 2 ^ 15) y,
        ap (λ t. bit_xor t (2 * y)) (drop x h (ltb→ge x (2 ^ 15) high)),
      ) in
      rw (high, large)
        (ap (λ t. bit_xor t poly) left
          ∙ bit_xor_swap 16 (2 * x % 2 ^ 16) (2 * y) poly (omega arith) (omega arith) (omega arith))
]

one_times : (y : ℕ) → y ≡ y * 2 ^ zero
one_times y = omega arith

doubled : (k y : ℕ) → y * 2 ^ suc k ≡ 2 * y * 2 ^ k
doubled k y = omega (arith, ap (λ (v : ℕ). y * v) (pow-suc 2 k))

low_enough : (k y : ℕ) → y * 2 ^ suc k < 2 ^ 16 → y < 2 ^ 15
low_enough k y h = omega (arith, doubled k y, le-mul_of_pos_right y (two_pow_pos k))

pub crc_bits-bit_xor :
    (k x y : ℕ)
    → x < 2 ^ 16
    → y * 2 ^ k < 2 ^ 16
    → crc_bits k (bit_xor x y) ≡ bit_xor (crc_bits k x) (y * 2 ^ k)
crc_bits-bit_xor zero x y h i = ap (λ t. bit_xor x t) (one_times y)
crc_bits-bit_xor (suc k) x y h i =
    let e : y * 2 ^ suc k ≡ 2 * y * 2 ^ k = doubled k y in
    ap (crc_bits k) (crc_bit-bit_xor x y h (low_enough k y i))
    ∙ crc_bits-bit_xor k (crc_bit x) (2 * y) (crc_bit-lt x h) (omega (arith, e))
    ∙ ap (λ t. bit_xor (crc_bits k (crc_bit x)) t) (sym e)

-- ===== src/CmdLib/Crc/Bitwise.antt =====
-- The checksum of q3asm/cmdlib.c, by its table, is the one bit by bit.
use q3vm.Base.{
  bit_xor, ℕ, zero, suc, ap, ◌+◌, ◌*◌, ◌/◌, ◌%◌, ◌^◌, ◌<◌, ◌≡◌, refl, ◌∙◌, some, arith, Bool, true,
  ◌==◌, ◌&&◌, List, [], ◌∷◌, length, get_elem?, sym,
}
use q3vm.Base.Word.{u16}
use q3vm.Base.Xor.{bit_xor-lt, bit_xor_split, bit_xor_swap, bit_xor-zero, zero-bit_xor}
use q3vm.CmdLib.Crc.{crc_init_value, crc_process, crc_of, crc_process_byte, crctable}
use q3vm.CmdLib.Crc.Division.{crc_bit-lt, crc_bits-bit_xor, crc_bit, crc_byte, crc_bytes, crc_bits}

-- The table holds what is left of each byte.
abbrev divided : ℕ → ℕ
divided i = crc_bits 8 (i * 2 ^ 8)

table_matches : (ℕ → ℕ) → ℕ → List ℕ → Bool
table_matches f i [] = true
table_matches f i (t ∷ ts) = (f i == t) && table_matches f (i + 1) ts

crctable-matches : table_matches divided 0 crctable ≡ true
unfolding table_matches
crctable-matches = refl

entry_of :
    (f : ℕ → ℕ) (k i : ℕ) (ts : List ℕ)
    → table_matches f k ts ≡ true
    → i < length ts
    → get_elem? ts i ≡ some (f (k + i))
unfolding table_matches
entry_of f k i [] h l = absurd (omega arith)
entry_of f k zero (t ∷ ts) h l =
    let same : f k ≡ t = ground arith in ap some (sym same ∙ ap f (omega arith))
entry_of f k (suc i) (t ∷ ts) h l =
    entry_of f (k + 1) i ts (ground arith) (omega arith) ∙ ap (λ n. some (f n)) (omega arith)

crctable-entry : (i : ℕ) → i < 256 → get_elem? crctable i ≡ some (divided i)
crctable-entry i h =
    entry_of divided 0 i crctable crctable-matches (omega arith)
    ∙ ap (λ n. some (divided n)) (omega arith)

bit_xor_comm : (k a b : ℕ) → a < 2 ^ k → b < 2 ^ k → bit_xor a b ≡ bit_xor b a
bit_xor_comm k a b h i =
    ap (λ t. bit_xor t b) (sym (zero-bit_xor a))
    ∙ bit_xor_swap k 0 a b (omega (arith, h)) h i
    ∙ ap (λ t. bit_xor t a) (zero-bit_xor b)

crc_bits-lt : (k x : ℕ) → x < 2 ^ 16 → crc_bits k x < 2 ^ 16
crc_bits-lt zero x h = h
crc_bits-lt (suc k) x h = crc_bits-lt k (crc_bit x) (crc_bit-lt x h)

-- The high byte of the sum, and the low byte, which the data does not change.
added_byte : (c d : ℕ) → bit_xor c (d * 2 ^ 8) ≡ bit_xor (bit_xor (c / 2 ^ 8) d * 2 ^ 8) (c % 2 ^ 8)
added_byte c d =
    let i = bit_xor (c / 2 ^ 8) d in
    let e : c / 2 ^ 8 * 2 ^ 8 + c % 2 ^ 8 ≡ c = omega arith in
    let f : d * 2 ^ 8 + 0 ≡ d * 2 ^ 8 = omega arith in
    let g : i * 2 ^ 8 + 0 ≡ i * 2 ^ 8 = omega arith in
    let j : 0 * 2 ^ 8 + c % 2 ^ 8 ≡ c % 2 ^ 8 = omega arith in
    omega (
      arith,
      ap (λ t. bit_xor t (d * 2 ^ 8 + 0)) e,
      ap (λ t. bit_xor c t) f,
      bit_xor_split 8 (c / 2 ^ 8) d (c % 2 ^ 8) 0 (omega arith) (omega arith),
      bit_xor-zero (c % 2 ^ 8),
      ap (λ t. bit_xor t (0 * 2 ^ 8 + c % 2 ^ 8)) g,
      ap (λ t. bit_xor (i * 2 ^ 8) t) j,
      bit_xor_split 8 i 0 0 (c % 2 ^ 8) (omega arith) (omega arith),
      bit_xor-zero i,
      zero-bit_xor (c % 2 ^ 8),
    )

-- What `<< 8` and the cut to 16 bits leave.
shifted_word : (c t : ℕ) → t < 2 ^ 16 → u16 (bit_xor (c * 2 ^ 8) t) ≡ bit_xor (c % 2 ^ 8 * 2 ^ 8) t
shifted_word c t h =
    let e : c / 2 ^ 8 * 2 ^ 16 + c % 2 ^ 8 * 2 ^ 8 ≡ c * 2 ^ 8 = omega arith in
    let f : 0 * 2 ^ 16 + t ≡ t = omega arith in
    omega (
      arith,
      ap (λ v. bit_xor v (0 * 2 ^ 16 + t)) e,
      ap (λ v. bit_xor (c * 2 ^ 8) v) f,
      bit_xor_split 16 (c / 2 ^ 8) 0 (c % 2 ^ 8 * 2 ^ 8) t (omega arith) h,
      bit_xor-lt 16 (c % 2 ^ 8 * 2 ^ 8) t (omega arith) h,
    )

crc_process_byte-crc_byte :
    (c d : ℕ) → c < 2 ^ 16 → d < 256 → crc_process_byte c d ≡ some (crc_byte c d)
unfolding crc_process_byte
crc_process_byte-crc_byte c d h k =
    let i = bit_xor (c / 2 ^ 8) d in
    let small : i < 2 ^ 8 = bit_xor-lt 8 (c / 2 ^ 8) d (omega arith) k in
    let table : divided i < 2 ^ 16 = crc_bits-lt 8 (i * 2 ^ 8) (omega (arith, small)) in
    let low : c % 2 ^ 8 * 2 ^ 8 < 2 ^ 16 = omega arith in
    rw (crctable-entry i small) (
      ap some (
        shifted_word c (divided i) table
        ∙ bit_xor_comm 16 (c % 2 ^ 8 * 2 ^ 8) (divided i) low table
        ∙ sym (crc_bits-bit_xor 8 (i * 2 ^ 8) (c % 2 ^ 8) (omega (arith, small)) low)
        ∙ ap (crc_bits 8) (sym (added_byte c d))))

abbrev pub AllBytes : List ℕ → Type 0
AllBytes [] = Unit {0}
AllBytes (b ∷ rest) = (b < 256) × AllBytes rest

crc_byte-lt : (c d : ℕ) → c < 2 ^ 16 → d < 256 → crc_byte c d < 2 ^ 16
crc_byte-lt c d h k =
    crc_bits-lt 8 (bit_xor c (d * 2 ^ 8)) (bit_xor-lt 16 c (d * 2 ^ 8) h (omega arith))

crc_process-crc_bytes :
    (c : ℕ) (bytes : List ℕ)
    → c < 2 ^ 16
    → AllBytes bytes
    → crc_process c bytes ≡ some (crc_bytes c bytes)
unfolding crc_process
crc_process-crc_bytes c [] h a = refl
crc_process-crc_bytes c (d ∷ rest) h (k, a) =
    rw (crc_process_byte-crc_byte c d h k)
      (crc_process-crc_bytes (crc_byte c d) rest (crc_byte-lt c d h k) a)

-- The checksum by the table is the remainder, bit by bit, of the division by the polynomial 0x1021,
-- from 0xffff on, for every text of bytes; the table is never read outside.
pub crc_of-crc_bytes :
    (bytes : List ℕ) → AllBytes bytes → crc_of bytes ≡ some (crc_bytes crc_init_value bytes)
unfolding crc_of
crc_of-crc_bytes bytes a =
    rw (crc_process-crc_bytes crc_init_value bytes (omega arith) a)
      (ap some (bit_xor-zero (crc_bytes crc_init_value bytes)))

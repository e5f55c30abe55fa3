-- ===== src/Assembler/Hash.antt =====
-- `HashString`, and the bucket that a hash value belongs to.
use q3vm.Base.{
  bit_or, bit_xor, ℕ, ◌+◌, ◌-◌, ◌*◌, ◌/◌, ◌%◌, ◌^◌, Option, none, some, ◌==◌, ◌||◌, leb,
  if◌then◌else◌, List, [], ◌∷◌, get_elem?, ◌++◌,
}
use q3vm.Base.Word.{u32, abs32}

abbrev pub randbox : List ℕ
randbox =
    0x49848f1b ∷ 0xe6255dba ∷ 0x36da5bdc ∷ 0x47bf94e9 ∷ 0x8cbcce22 ∷ 0x559fc06a ∷ 0xd268f536
    ∷ 0xe10af79a ∷ 0xc1af4d69 ∷ 0x1d2917b5 ∷ 0xec4c304d ∷ 0x9ee5016c ∷ 0x69232f74 ∷ 0xfead7bb3
    ∷ 0xe9089ab6 ∷ 0xf012f6ae ∷ []

-- `randbox[i & 0xf]`.
abbrev pub random_word : ℕ → ℕ
random_word i = elim (get_elem? randbox (i % 16)) [ none ↦ 0 | some w ↦ w ]

-- `(acc << k) | (acc >> (32 - k))`.
abbrev pub rotate : ℕ → ℕ → ℕ
rotate k acc = bit_or (u32 (acc * 2 ^ k)) (acc / 2 ^ (32 - k))

-- One character. A negative `char` has the same last four bits, also after the shift.
abbrev pub hash_step : ℕ → ℕ → ℕ
hash_step acc c =
    let low = rotate 1 (bit_xor acc (random_word (c + acc))) in
    rotate 2 (bit_xor low (random_word (c / 16 + low)))

unfoldable pub hash_from : ℕ → List ℕ → ℕ
hash_from acc [] = acc
hash_from acc (c ∷ rest) = hash_from (hash_step acc c) rest

abbrev pub hash_string : List ℕ → ℕ
hash_string key = hash_from 0 key

-- `abs(hashvalue) % H->buckets` as an index of the table. With a negative number of buckets the
-- table is `NULL`, since `calloc` refuses it. `abs` of the least `int` is that `int`
-- itself, and the remainder is then negative or 0.
unfoldable pub bucket_of : ℕ → ℕ → Option ℕ
bucket_of buckets hash =
    if (buckets == 0) || leb (2 ^ 31) buckets
    then none
    else if hash == 2 ^ 31
    then (if hash % buckets == 0 then some 0 else none)
    else some (abs32 hash % buckets)

-- `hashtable_add`: the datum behind the last one of its chain.
abbrev pub chain_add : {A : Type 0} → ℕ → A → (ℕ → List A) → ℕ → List A
chain_add bucket datum table b = if b == bucket then table b ++ (datum ∷ []) else table b

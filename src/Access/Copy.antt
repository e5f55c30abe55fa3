-- ===== src/Access/Copy.antt =====
-- `VM_BlockCopy` on a data section of 2 ^ k + 4 bytes.
use q3vm.Base.{
  ℕ, ◌+◌, ◌-◌, ◌^◌, ◌≤◌, ◌<◌, ◌≡◌, none, some, true, false, arith, ltb, if◌then◌else◌, ◌&&◌, ◌∙◌,
}
use q3vm.Base.Word.{u64}
use q3vm.Access.{block_copy, block_copy_allowed}
use q3vm.Access.Range.{fits_mask_test}
use q3vm.Memory.{Block, copy_within, overlap, inside}
use q3vm.State.{State, fail_with, blockcopy_out_of_range}

-- `n` bytes from `src` on, copied to `dest`.
abbrev pub moved : Block → ℕ → ℕ → ℕ → Block
moved base dest src n = record base {
  cell = λ q. if inside dest n q then base.cell (src + (q - dest)) else base.cell q;
}

abbrev pub with_base : Block → State → State
with_base base s = record s { vm = record s.vm { data_base = some base } }

module _ (k : ℕ) (s : State) (small : 2 ^ k ≤ 2 ^ 31) (mask : s.vm.data_mask ≡ 2 ^ k - 1) where
  allowed_test :
      (dest src n : ℕ)
      → block_copy_allowed s.vm.data_mask dest src n ≡ (
          ltb dest (2 ^ k)
          && ltb src (2 ^ k)
          && ltb (u64 (dest + n)) (2 ^ k)
          && ltb (u64 (src + n)) (2 ^ k))
  unfolding block_copy_allowed
  allowed_test dest src n = rw (
    fits_mask_test k s.vm small mask dest,
    fits_mask_test k s.vm small mask src,
    fits_mask_test k s.vm small mask (u64 (dest + n)),
    fits_mask_test k s.vm small mask (u64 (src + n)),
  )

  module _ (base : Block) (loaded : s.vm.data_base ≡ some base) (size : base.size ≡ 2 ^ k + 4) where
    -- A copy of fewer than 2 ^ 63 bytes between ranges that do not overlap is defined. It is made
    -- when both ranges end below the size of the section, and refused with an error otherwise.
    pub block_copy-copies :
        (dest src n : ℕ)
        → n < 2 ^ 63
        → overlap dest src n ≡ false
        → block_copy dest src n s
          ≡ some (
              if ltb (dest + n) (2 ^ k) && ltb (src + n) (2 ^ k)
              then with_base (moved base dest src n) s
              else fail_with blockcopy_out_of_range s)
    unfolding block_copy copy_within
    block_copy-copies dest src n hn apart = rw (allowed_test dest src n, loaded) (ground arith)

    -- A length that is a small negative number passes the test, and the copy leaves the section.
    pub block_copy-escapes :
        (dest src j : ℕ)
        → dest < 2 ^ k
        → src < 2 ^ k
        → 0 < j
        → j ≤ dest
        → j ≤ src
        → (block_copy_allowed s.vm.data_mask dest src (2 ^ 64 - j) ≡ true)
          × (block_copy dest src (2 ^ 64 - j) s ≡ none)
    unfolding block_copy copy_within
    block_copy-escapes dest src j hd hs hj jd js =
        let passes : block_copy_allowed s.vm.data_mask dest src (2 ^ 64 - j) ≡ true =
          allowed_test dest src (2 ^ 64 - j) ∙ ground arith in
        (passes, rw (passes, loaded) (ground arith))

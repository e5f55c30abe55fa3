-- ===== src/Access/Range.antt =====
-- What the range tests let through.
use q3vm.Base.{ℕ, ◌+◌, ◌-◌, ◌^◌, ◌≤◌, ◌<◌, ◌≡◌, ◌↔◌, some, true, arith, ltb}
use q3vm.Base.Mask.{masked_test}
use q3vm.Base.Word.{u32, u64}
use q3vm.Access.{memory_range_valid, fits_mask}
use q3vm.State.{Vm, World}

module _ (k : ℕ) (vm : Vm) (small : 2 ^ k ≤ 2 ^ 31) (mask : vm.data_mask ≡ 2 ^ k - 1) where
  pub fits_mask_test : (x : ℕ) → fits_mask vm.data_mask x ≡ ltb x (2 ^ k)
  fits_mask_test x = rw mask (masked_test k x)

  -- Without a wrap of `size_t` exactly the ranges that start behind address 0 and end inside the
  -- data section pass.
  pub memory_range_valid_iff :
      (addr len : ℕ) (w : World)
      → addr < 2 ^ 32
      → len < 2 ^ 63
      → ((memory_range_valid addr len (some vm) w).0 ≡ true) ↔ ((0 < addr) × (addr + len < 2 ^ k))
  unfolding memory_range_valid
  memory_range_valid_iff addr len w ha hl =
      ground (arith, fits_mask_test (u32 addr), fits_mask_test (u64 (u32 addr + len)))

  -- A length that is a small negative number passes behind every address it leads back from.
  pub memory_range_valid_wraps :
      (addr j : ℕ) (w : World)
      → addr < 2 ^ k
      → 0 < j
      → j ≤ addr
      → (memory_range_valid addr (2 ^ 64 - j) (some vm) w).0 ≡ true
  unfolding memory_range_valid
  memory_range_valid_wraps addr j w ha hj hja =
      ground (arith, fits_mask_test (u32 addr), fits_mask_test (u64 (u32 addr + (2 ^ 64 - j))))

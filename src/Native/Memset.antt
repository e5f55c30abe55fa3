-- ===== src/Native/Memset.antt =====
-- MEMSET: when it stays inside the data section, and when it does not.
use q3vm.Base.{
  ℕ, ◌+◌, ◌-◌, ◌%◌, ◌^◌, ◌≤◌, ◌<◌, ◌≡◌, none, some, arith, ltb, if◌then◌else◌, bit_and, ◌==◌,
}
use q3vm.Base.Mask.{bit_and_mask}
use q3vm.Base.Word.{sext64, u32, u64}
use q3vm.Access.{arg_ptr, memory_range_valid}
use q3vm.Access.Range.{memory_range_valid_wraps, fits_mask_test}
use q3vm.Memory.{Block, fill, inside}
use q3vm.Native.{native_memset, memset_at, vma, with_base}
use q3vm.State.{State, tell, data_out_of_range}
use native.Mathlib.Nat.{mod-eq_of_lt}

module _ (k : ℕ) (s : State) (base : Block) (small : 2 ^ k ≤ 2 ^ 31)
    (mask : s.vm.data_mask ≡ 2 ^ k - 1) (loaded : s.vm.data_base ≡ some base)
    (size : base.size ≡ 2 ^ k + 4) where
  masked_id : (a : ℕ) → a < 2 ^ k → bit_and (sext64 a) s.vm.data_mask ≡ a
  masked_id a h = ground (arith, mask, bit_and_mask k a, mod-eq_of_lt h)

  -- A negative length that leads back to an address of the section passes the range test, and the
  -- bytes that are then set run past the end of the section.
  pub native_memset-escapes :
      (address value j : ℕ)
      → address < 2 ^ k
      → 0 < j
      → j ≤ address
      → native_memset s address value (2 ^ 32 - j) ≡ none
  unfolding native_memset memset_at vma arg_ptr fill
  native_memset-escapes address value j h hj hja = ground (
    arith,
    masked_id address h,
    memory_range_valid_wraps k s.vm small mask address j s.world h hj hja,
  )

  -- With a length that is not negative nothing is undefined, and three things can happen: at
  -- address 0 nothing, inside the section exactly those bytes are set, and a range that leaves the
  -- section is reported and changes no byte. The result is the address.
  pub native_memset_outcome :
      (address value len : ℕ)
      → address < 2 ^ 32
      → len < 2 ^ 31
      → native_memset s address value len
        ≡ some (
          if address == 0
              then s
              else if ltb (address + len) (2 ^ k)
              then with_base s (record base {
                cell = λ q. if inside address len q then value % 256 else base.cell q;
              })
              else tell data_out_of_range s,
          address,
        )
  unfolding native_memset memset_at vma arg_ptr fill memory_range_valid
  native_memset_outcome address value len ha hl = ground (
    arith,
    masked_id address,
    fits_mask_test k s.vm small mask (u32 (sext64 address)),
    fits_mask_test k s.vm small mask (u64 (u32 (sext64 address) + sext64 len)),
  )

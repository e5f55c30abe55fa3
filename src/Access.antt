-- ===== src/Access.antt =====
-- How a call-out reaches the data section: `VM_ArgPtr`, `VM_MemoryRangeValid` and `VM_BlockCopy`
-- of src/vm/vm.c. Addresses are `intptr_t` and lengths `size_t`, so 64-bit patterns.
pub mod Range
pub mod Copy
use q3vm.Base.{
  ℕ, ◌+◌, Option, none, some, Bool, true, false, ◌&&◌, not, bit_and, ◌==◌, if◌then◌else◌, ◌>>=◌,
}
use q3vm.Base.Word.{u32, u64}
use q3vm.Memory.{copy_within}
use q3vm.State.{
  Vm, World, report, State, fail_with, invalid_pointer, data_out_of_range, blockcopy_out_of_range,
}

-- `VM_ArgPtr`: the offset from `dataBase` of the translated address, or `NULL`.
unfoldable pub arg_ptr : ℕ → Option Vm → World → Option ℕ × World
arg_ptr addr none w = if addr == 0 then (none, w) else (none, report invalid_pointer w)
arg_ptr addr (some vm) w = if addr == 0 then (none, w) else (some (bit_and addr vm.data_mask), w)

-- `(x & dataMask) == x`.
abbrev pub fits_mask : ℕ → ℕ → Bool
fits_mask mask x = bit_and x mask == x

-- `VM_MemoryRangeValid`: `true` stands for the result 0. `dest + len` is computed in `size_t`.
unfoldable pub memory_range_valid : ℕ → ℕ → Option Vm → World → Bool × World
memory_range_valid addr len none w = (false, w)
memory_range_valid addr len (some vm) w =
    if addr == 0
    then (false, w)
    else if fits_mask vm.data_mask (u32 addr) && fits_mask vm.data_mask (u64 (u32 addr + len))
    then (true, w)
    else (false, report data_out_of_range w)

-- The test of `VM_BlockCopy`.
unfoldable pub block_copy_allowed : ℕ → ℕ → ℕ → ℕ → Bool
block_copy_allowed mask dest src n =
    fits_mask mask dest
    && fits_mask mask src
    && fits_mask mask (u64 (dest + n))
    && fits_mask mask (u64 (src + n))

-- `VM_BlockCopy`: on a refusal the error is recorded and nothing is copied.
unfoldable pub block_copy : ℕ → ℕ → ℕ → State → Option State
block_copy dest src n s =
    if block_copy_allowed s.vm.data_mask dest src n
    then (do
      m ← s.vm.data_base
      m' ← copy_within m dest src n
      some (record s { vm = record s.vm { data_base = some m' } }))
    else some (fail_with blockcopy_out_of_range s)

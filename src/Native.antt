-- ===== src/Native.antt =====
-- The native functions of src/main.c: `systemCalls`. What they print is left out, the number of
-- characters that they print is not. `main` itself, its file reading and its `Com_Error`, which
-- ends the process, are not modelled: here `Com_Error` returns, as vm.h allows.
pub mod Memset
use q3vm.Base.{
  ℕ, zero, suc, ◌+◌, ◌-◌, Option, none, some, Bool, true, false, ◌==◌, List, get_elem?,
  if◌then◌else◌, ◌>>=◌,
}
use q3vm.Base.Word.{minus_one, sub32, neg32, sext64}
use q3vm.Access.{arg_ptr, memory_range_valid}
use q3vm.Memory.{Block, get, fill, copy_within}
use q3vm.State.{State}

-- `printf("%s", p)`: the length of the text at an offset, with the bytes left up to the end of the
-- block. A text that runs on past the block is read out of range.
unfoldable pub text_length : ℕ → Block → ℕ → Option ℕ
text_length zero m a = none
text_length (suc left) m a = do
  c ← get m a
  let rest = text_length left m (a + 1)
  if c == 0 then some 0 else (do n ← rest; some (n + 1))

-- `VMA(i, vm)`, as an offset into the data section; `none` where a null pointer is used.
unfoldable pub vma : State → ℕ → Option ℕ
vma s address = (arg_ptr (sext64 address) (some s.vm) s.world).0

unfoldable pub print_text : State → ℕ → Option (State × ℕ)
unfolding vma text_length
print_text s address = do
  base ← s.vm.data_base
  p ← vma s address
  n ← text_length (base.size - p) base p
  some (s, n)

-- `VM_MemoryRangeValid(args[i], args[j], vm) == 0`, and the host's record behind it.
abbrev pub range_valid : ℕ → ℕ → State → Bool × State
range_valid address len s =
    let (valid, w) = memory_range_valid (sext64 address) (sext64 len) (some s.vm) s.world in
    (valid, record s { world = w })

abbrev pub with_base : State → Block → State
with_base s base = record s { vm = record s.vm { data_base = some base } }

-- MEMSET
unfoldable pub memset_at : State → ℕ → ℕ → ℕ → Option (State × ℕ)
unfolding vma
memset_at s address value len = do
  base ← s.vm.data_base
  p ← vma s address
  base' ← fill base p value (sext64 len)
  some (with_base s base', address)

unfoldable pub native_memset : State → ℕ → ℕ → ℕ → Option (State × ℕ)
unfolding memset_at
native_memset s address value len =
    let (valid, s') = range_valid address len s in
    if valid then memset_at s' address value len else some (s', address)

-- MEMCPY
unfoldable pub memcpy_at : State → ℕ → ℕ → ℕ → Option (State × ℕ)
unfolding vma
memcpy_at s address from len = do
  base ← s.vm.data_base
  p ← vma s address
  q ← vma s from
  base' ← copy_within base p q (sext64 len)
  some (with_base s base', address)

unfoldable pub native_memcpy : State → ℕ → ℕ → ℕ → Option (State × ℕ)
unfolding memcpy_at
native_memcpy s address from len =
    let (valid, s') = range_valid address len s in
    let (valid', s'') = range_valid from len s' in
    if valid
    then if valid' then memcpy_at s'' address from len else some (s'', address)
    else some (s', address)

-- `const int id = -1 - args[0]` and the `switch`.
unfoldable pub system_calls : State → List ℕ → Option (State × ℕ)
unfolding print_text native_memset native_memcpy
system_calls s args = do
  number ← get_elem? args 0
  a1 ← get_elem? args 1
  a2 ← get_elem? args 2
  a3 ← get_elem? args 3
  let id = sub32 minus_one number
  if id == neg32 1
      then print_text s a1
      else if id == neg32 2
      then print_text s a1
      else if id == neg32 3
      then native_memset s a1 a2 a3
      else if id == neg32 4
      then native_memcpy s a1 a2 a3
      else some (s, 0)

-- ===== src/Image.antt =====
-- `VM_LoadQVM` of src/vm/vm.c: the header of a .qvm file, its validation, and the data section.
-- The host is little-endian, so `LittleLong` returns the word that it reads.
pub mod Shift
pub mod Load
use q3vm.Base.{
  ℕ, zero, suc, ◌+◌, ◌-◌, ◌*◌, ◌/◌, ◌^◌, Option, none, some, Bool, ◌||◌, ◌&&◌, not, ◌==◌,
  if◌then◌else◌, ◌>>=◌,
}
use q3vm.Base.Word.{add32, is_neg, slt, sle}
use q3vm.Memory.{Block, read4, write4, copy_from, zeroed}
use q3vm.State.{
  Vm, Header, Host, State, World, MallocType, data_sec, allocated, tell, malloc_failed,
}

abbrev pub vm_magic : ℕ
vm_magic = 0x1272_1444

abbrev pub vm_max_image_size : ℕ
vm_max_image_size = 0x40_0000

abbrev pub vm_max_bss_length : ℕ
vm_max_bss_length = 10485760

-- `sizeof(vmHeader_t)`.
abbrev pub header_size : ℕ
header_size = 32

-- The header of the file, its eight words put into the byte order of the host.
unfoldable pub read_header : Block → Option Header
read_header image = do
  magic ← read4 image 0
  instruction_count ← read4 image 4
  code_offset ← read4 image 8
  code_length ← read4 image 12
  data_offset ← read4 image 16
  data_length ← read4 image 20
  lit_length ← read4 image 24
  bss_length ← read4 image 28
  some (record {
    vm_magic = magic;
    instruction_count = instruction_count;
    code_offset = code_offset;
    code_length = code_length;
    data_offset = data_offset;
    data_length = data_length;
    lit_length = lit_length;
    bss_length = bss_length;
  })

-- The test under "validate". The sums are sums of `int`.
unfoldable pub header_bad : Header → ℕ → Bool
header_bad h length =
    is_neg h.bss_length
    || is_neg h.data_length
    || is_neg h.lit_length
    || sle h.code_length 0
    || is_neg h.code_offset
    || is_neg h.data_offset
    || sle h.instruction_count 0
    || slt vm_max_bss_length h.bss_length
    || slt length (add32 h.code_offset h.code_length)
    || slt length (add32 (add32 h.data_offset h.data_length) h.lit_length)

-- `dataLength` before it is rounded up.
abbrev pub data_size : Header → ℕ
data_size h = add32 (add32 h.data_length h.lit_length) h.bss_length

-- `for (i = 0; dataLength > (1 << i); i++)` from `i` on. The first argument counts the shifts left
-- that an `int` can hold: `1 << 31` is undefined.
unfoldable pub find_shift : ℕ → ℕ → ℕ → Option ℕ
find_shift zero i n = none
find_shift (suc left) i n =
    let rest = find_shift left (i + 1) n in if slt (2 ^ i) n then rest else some i

-- The loop under "byte swap the longs", with the number of rounds that are left.
unfoldable pub swap_longs : ℕ → ℕ → Block → Option Block
swap_longs zero i m = some m
swap_longs (suc rounds) i m = do v ← read4 m i; m' ← write4 m i v; swap_longs rounds (i + 4) m'

abbrev pub rounds : ℕ → ℕ
rounds n = (n + 3) / 4

-- `vm->dataBase` holds the block, and `dataMask` and `dataAlloc` its size.
abbrev pub with_data : ℕ → Option Block → Vm → Vm
with_data n base vm = record vm { data_base = base; data_mask = n - 1; data_alloc = n + 4 }

-- The second half, from the rounding on. `fill_data` is the part behind the allocation.
unfoldable pub fill_data : Block → Header → ℕ → State → Option (Option Header × State)
fill_data image h n s = do
  copied ← copy_from (zeroed (n + 4)) 0 image h.data_offset (h.data_length + h.lit_length)
  base ← swap_longs (rounds h.data_length) 0 copied
  some (some h, record { vm = with_data n (some base) s.vm; world = allocated data_sec s.world })

unfoldable pub load_data : Host → Block → Header → State → Option (Option Header × State)
unfolding fill_data
load_data host image h s = do
  i ← find_shift 31 0 (data_size h)
  let n = 2 ^ i
  let failed = tell malloc_failed (record s { vm = with_data n none s.vm })
  if host.grants data_sec (n + 4) then fill_data image h n s else some (none, failed)

-- The first half: the size of the file, the magic number and the header.
abbrev pub size_bad : ℕ → Bool
size_bad length = sle length header_size || slt vm_max_image_size length

unfoldable pub load_header : Host → Block → ℕ → State → Option (Option Header × State)
load_header host image length s = do
  h ← read_header image
  if h.vm_magic == vm_magic && not (header_bad h length)
      then load_data host image h s
      else some (none, s)

unfoldable pub load_qvm : Host → Option Block → ℕ → State → Option (Option Header × State)
unfolding load_header
load_qvm host none length s = some (none, s)
load_qvm host (some image) length s =
    if size_bad length then some (none, s) else load_header host image length s

-- ===== src/Image/Load.antt =====
-- What `VM_LoadQVM` loads.
use q3vm.Base.{
  ℕ, zero, suc, ◌+◌, ◌-◌, ◌*◌, ◌^◌, ◌≤◌, ◌<◌, ◌≡◌, refl, none, some, false, arith, if◌then◌else◌,
  ◌>>=◌, ap,
}
use q3vm.Image.{
  header_bad, load_data, fill_data, swap_longs, rounds, data_size, with_data, vm_max_image_size,
  vm_max_bss_length,
}
use q3vm.Image.Shift.{IsShift, find_shift-IsShift}
use q3vm.Memory.{Block, IsBytes, write4, word_at, little_endian_to_host, bytes4, copy_from, inside}
use q3vm.Memory.Laws.{read4-some}
use q3vm.State.{Header, Host, State, data_sec, allocated, tell, malloc_failed}
use mathlib.Core.Path.{fun_ext}

bytes4-word_at :
    (m : Block) (a : ℕ) → IsBytes m → (q : ℕ) → bytes4 m.cell a (word_at m a) q ≡ m.cell q
unfolding little_endian_to_host
bytes4-word_at m a b q = ground (arith, b a, b (a + 1), b (a + 2), b (a + 3))

-- On a little-endian host a word is written back as it was read.
write4-word_at :
    (m : Block) (a : ℕ) → IsBytes m → a + 4 ≤ m.size → write4 m a (word_at m a) ≡ some m
unfolding write4
write4-word_at m a b h =
    let same : bytes4 m.cell a (word_at m a) ≡ m.cell = fun_ext (bytes4-word_at m a b) in
    ground (arith, ap {B = Block} (λ (f : ℕ → ℕ). record m { cell = f }) same)

-- On a block of bytes that its rounds fit in, the loop under "byte swap the longs" changes nothing
-- and stays inside.
swap_longs_lem : (n i : ℕ) (m : Block) → IsBytes m → i + 4 * n ≤ m.size → swap_longs n i m ≡ some m
unfolding swap_longs
swap_longs_lem zero i m b h = refl
swap_longs_lem (suc n) i m b h =
    rw (read4-some m i (omega arith), write4-word_at m i b (omega arith))
      (swap_longs_lem n (i + 4) m b (omega arith))

-- The header's words are words.
pub record IsHeader (h : Header) : Type 0 where
  pub instruction_count : h.instruction_count < 2 ^ 32
  pub code_offset : h.code_offset < 2 ^ 32
  pub code_length : h.code_length < 2 ^ 32
  pub data_offset : h.data_offset < 2 ^ 32
  pub data_length : h.data_length < 2 ^ 32
  pub lit_length : h.lit_length < 2 ^ 32
  pub bss_length : h.bss_length < 2 ^ 32

-- The sections lie inside a file of the length, with sums that do not wrap.
pub record Fits (h : Header) (length : ℕ) : Type 0 where
  pub code : h.code_offset + h.code_length ≤ length
  pub data_ : h.data_offset + h.data_length + h.lit_length ≤ length

pub bss-le :
    (h : Header) (length : ℕ)
    → IsHeader h
    → header_bad h length ≡ false
    → h.bss_length ≤ vm_max_bss_length
unfolding header_bad
bss-le h length v e = ground arith

-- The data section: the initialised data and the strings of the file, then zeros, with four bytes
-- beyond the mask.
abbrev pub data_section : Block → Header → ℕ → Block
data_section image h k = record {
  size = 2 ^ k + 4;
  cell = λ q.
      if inside 0 (h.data_length + h.lit_length) q then image.cell (h.data_offset + (q - 0)) else 0;
}

abbrev pub loaded_state : Block → Header → ℕ → State → State
loaded_state image h k s = record {
  vm = with_data (2 ^ k) (some (data_section image h k)) s.vm;
  world = allocated data_sec s.world;
}

abbrev pub unloaded_state : ℕ → State → State
unloaded_state k s = tell malloc_failed (record s { vm = with_data (2 ^ k) none s.vm })

module _ (image : Block) (h : Header) (s : State) (bytes : IsBytes image) (fits : Fits h image.size)
    (k : ℕ) (shift : IsShift (h.data_length + h.lit_length + h.bss_length) k) where
  data_section-IsBytes : IsBytes (data_section image h k)
  data_section-IsBytes q = ground (arith, bytes (h.data_offset + (q - 0)))

  fill_data-loads : fill_data image h (2 ^ k) s ≡ some (some h, loaded_state image h k s)
  fill_data-loads = rw copied (
      rw (
        swap_longs_lem (rounds h.data_length) 0 (data_section image h k) data_section-IsBytes
          (omega (arith, shift.reaches))))
    where
      copied : fill_data image h (2 ^ k) s ≡ (
          swap_longs (rounds h.data_length) 0 (data_section image h k) >>= λ base. some (
            some h,
            record { vm = with_data (2 ^ k) (some base) s.vm; world = allocated data_sec s.world },
          ))
      copied = unfold fill_data copy_from in ground (arith, fits.data_, shift.reaches)

-- Whatever an accepted header says, if its sections lie inside the file then the rest of
-- `VM_LoadQVM` touches nothing outside the file and the data section. The section is the least
-- power of two that holds the data, the strings and the .bss, and four bytes more; it holds the
-- file's data and strings, then zeros. It fails only if the host grants no memory.
pub load_data-loads :
    (host : Host) (image : Block) (h : Header) (s : State)
    → IsBytes image
    → image.size ≤ vm_max_image_size
    → IsHeader h
    → header_bad h image.size ≡ false
    → Fits h image.size
    → (k : ℕ) × IsShift (h.data_length + h.lit_length + h.bss_length) k
      × (load_data host image h s
          ≡ some (
              if host.grants data_sec (2 ^ k + 4)
              then (some h, loaded_state image h k s)
              else (none, unloaded_state k s)))
load_data-loads host image h s bytes small v ok_header fits =
    let bound : h.bss_length ≤ vm_max_bss_length = bss-le h image.size v ok_header in
    let total : h.data_length + h.lit_length + h.bss_length ≤ 2 ^ 30 =
      omega (arith, fits.data_, bound) in
    let (k, found, shift) =
      find_shift-IsShift (h.data_length + h.lit_length + h.bss_length) total in
    let plain : data_size h ≡ h.data_length + h.lit_length + h.bss_length =
      omega (arith, fits.data_, bound) in
    (
      k,
      shift,
      unfold load_data in
          rw (plain, found) (ground (arith, fill_data-loads image h s bytes fits k shift)),
    )

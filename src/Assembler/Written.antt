-- ===== src/Assembler/Written.antt =====
-- The bytecode file that `WriteVmFile` of q3asm/q3asm.c writes, as `VM_LoadQVM` of src/vm/vm.c reads
-- it.
use q3vm.Base.{
  ℕ, ◌+◌, ◌/◌, ◌%◌, ◌^◌, ◌≤◌, ◌<◌, ◌≡◌, refl, some, arith, Bool, true, false, if◌then◌else◌,
}
use q3vm.Assembler.Output.{
  empty_file, output_header, header_cells, write_image, safe_write, write_images, write_vm_file,
}
use q3vm.Assembler.Run.{ok, ◌>>=◌}
use q3vm.Assembler.State.{Segment, Asm}
use q3vm.Image.{read_header, vm_max_image_size, header_size}
use q3vm.Image.Load.{IsHeader}
use q3vm.Memory.{little_endian_to_host, read4, Block}
use q3vm.State.{Header}

-- The file behind its header, data, and strings.
abbrev pub with_header : Asm → Block
with_header s = safe_write (header_cells (output_header s)) header_size empty_file

abbrev pub with_image : Segment → Block → Block
with_image g file = safe_write g.image g.image_used file

abbrev pub with_strings : Asm → Block
with_strings s = with_image s.lit (with_image s.data_ (with_image s.code (with_header s)))

abbrev pub written_file : Bool → Asm → Block
written_file vanilla s = if vanilla then with_strings s else with_image s.jtrg (with_strings s)

-- What it means that a file was written.
pub record IsWritten (vanilla : Bool) (s : Asm) (file : Block) : Type 0 where
  pub no_errors : s.error_count ≡ 0
  pub code : s.code.image_used ≤ vm_max_image_size
  pub data_ : s.data_.image_used ≤ vm_max_image_size
  pub lit : s.lit.image_used ≤ vm_max_image_size
  pub contents : written_file vanilla s ≡ file

pub write_vm_file-IsWritten :
    (vanilla : Bool) (s : Asm) (file : Block)
    → write_vm_file vanilla s ≡ ok (some file)
    → IsWritten vanilla s file
unfolding write_vm_file write_images write_image ◌>>=◌
write_vm_file-IsWritten true s file e = record {
  no_errors = ground arith;
  code = ground arith;
  data_ = ground arith;
  lit = ground arith;
  contents = ground arith;
}
write_vm_file-IsWritten false s file e = record {
  no_errors = ground arith;
  code = ground arith;
  data_ = ground arith;
  lit = ground arith;
  contents = ground arith;
}

module _ (vanilla : Bool) (s : Asm) where
  pub file-header :
      (q : ℕ) → q < 32 → (written_file vanilla s).cell q ≡ header_cells (output_header s) q
  unfolding safe_write
  file-header q h = ground arith

  pub file-size :
      header_size + s.code.image_used + s.data_.image_used + s.lit.image_used
      ≤ (written_file vanilla s).size
  unfolding safe_write
  file-size = ground arith

  pub file-data :
      (q : ℕ)
      → q < s.data_.image_used
      → (written_file vanilla s).cell (header_size + s.code.image_used + q) ≡ s.data_.image q
  unfolding safe_write
  file-data q h = ground arith

  pub file-lit :
      (q : ℕ)
      → q < s.lit.image_used
      → (written_file vanilla s).cell (header_size + s.code.image_used + s.data_.image_used + q)
        ≡ s.lit.image q
  unfolding safe_write
  file-lit q h = ground arith

-- A word of the header is read back from its four bytes.
word-bytes :
    (v : ℕ)
    → v < 2 ^ 32
    → little_endian_to_host (v % 256) (v / 2 ^ 8 % 256) (v / 2 ^ 16 % 256) (v / 2 ^ 24 % 256) ≡ v
unfolding little_endian_to_host
word-bytes v h = omega arith

abbrev HasCells : Block → (ℕ → ℕ) → Type 0
HasCells file f = (32 ≤ file.size) × ((q : ℕ) → q < 32 → file.cell q ≡ f q)

read4-cells :
    (file : Block) (f : ℕ → ℕ) (a v : ℕ)
    → HasCells file f
    → a + 4 ≤ 32
    → little_endian_to_host (f a) (f (a + 1)) (f (a + 2)) (f (a + 3)) ≡ v
    → read4 file a ≡ some v
unfolding read4
read4-cells file f a v (size, same) h e = ground (
  arith,
  same a (omega arith),
  same (a + 1) (omega arith),
  same (a + 2) (omega arith),
  same (a + 3) (omega arith),
)

pub read_header-cells :
    (file : Block) (h : Header)
    → HasCells file (header_cells h)
    → h.vm_magic < 2 ^ 32
    → IsHeader h
    → read_header file ≡ some h
unfolding read_header header_cells
read_header-cells file h has m v =
    rw
      (
        read4-cells file (header_cells h) 0 h.vm_magic has (omega arith) (word-bytes h.vm_magic m),
        read4-cells file (header_cells h) 4 h.instruction_count has (omega arith)
            (word-bytes h.instruction_count v.instruction_count),
        read4-cells file (header_cells h) 8 h.code_offset has (omega arith)
            (word-bytes h.code_offset v.code_offset),
        read4-cells file (header_cells h) 12 h.code_length has (omega arith)
            (word-bytes h.code_length v.code_length),
        read4-cells file (header_cells h) 16 h.data_offset has (omega arith)
            (word-bytes h.data_offset v.data_offset),
        read4-cells file (header_cells h) 20 h.data_length has (omega arith)
            (word-bytes h.data_length v.data_length),
        read4-cells file (header_cells h) 24 h.lit_length has (omega arith)
            (word-bytes h.lit_length v.lit_length),
        read4-cells file (header_cells h) 28 h.bss_length has (omega arith)
            (word-bytes h.bss_length v.bss_length),
      )
      refl

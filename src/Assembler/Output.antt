-- ===== src/Assembler/Output.antt =====
-- `WriteVmFile` and `WriteMapFile` of q3asm/q3asm.c. The host is little-endian.
use q3vm.Base.{
  ℕ, zero, suc, ◌+◌, ◌-◌, ◌/◌, ◌%◌, Option, none, some, Bool, ltb, leb, ◌==◌, if◌then◌else◌, List,
  [], ◌∷◌, length, get_elem?, ◌++◌,
}
use q3vm.Base.Word.{add32}
use q3vm.Assembler.Run.{exited, unfinished, faulted, pure, ◌>>◌, ok, Act, Run, ◌>>=◌}
use q3vm.Assembler.State.{bssseg, litseg, dataseg, Sym, codeseg, SegmentName, Asm, Segment}
use q3vm.Assembler.Symbols.{in_segment}
use q3vm.Assembler.Text.{decimal, decimal_text, with_last}
use q3vm.Image.{vm_magic, vm_max_image_size, header_size}
use q3vm.Memory.{bytes4, Block}
use q3vm.State.{Header}
use q3vm.Symbols.{starts_with}

-- `SafeWrite`: bytes behind the ones that the file has.
unfoldable pub safe_write : (ℕ → ℕ) → ℕ → Block → Block
safe_write bytes n file = record {
  size = file.size + n;
  cell = λ q. if ltb q file.size then file.cell q else bytes (q - file.size);
}

abbrev pub empty_file : Block
empty_file = record { size = 0; cell = λ q. 0 }

-- The header as it lies in memory.
unfoldable pub header_cells : Header → ℕ → ℕ
header_cells h =
    let f = bytes4 (bytes4 (λ q. 0) 0 h.vm_magic) 4 h.instruction_count in
    let g = bytes4 (bytes4 f 8 h.code_offset) 12 h.code_length in
    let k = bytes4 (bytes4 g 16 h.data_offset) 20 h.data_length in
    bytes4 (bytes4 k 24 h.lit_length) 28 h.bss_length

abbrev pub output_header : Asm → Header
output_header s = record {
  vm_magic = vm_magic;
  instruction_count = s.instruction_count;
  code_offset = header_size;
  code_length = s.code.image_used;
  data_offset = add32 header_size s.code.image_used;
  data_length = s.data_.image_used;
  lit_length = s.lit.image_used;
  bss_length = s.bss.image_used;
}

-- An image is written if the bytes used are bytes of it.
abbrev pub is_within : Segment → Bool
is_within g = leb g.image_used vm_max_image_size

unfoldable pub write_image : Segment → Act Block (Unit {0})
unfolding safe_write
write_image g file = if is_within g then ok (tt, safe_write g.image g.image_used file) else faulted

unfoldable pub write_images : Bool → Asm → Act Block (Unit {0})
unfolding write_image ◌>>=◌
write_images vanilla s = do
  write_image s.code
  write_image s.data_
  write_image s.lit
  if vanilla then pure tt else write_image s.jtrg

abbrev pub kept_file : Run (Unit {0} × Block) → Run (Option Block)
kept_file (ok (_, file)) = ok (some file)
kept_file exited = exited
kept_file faulted = faulted
kept_file unfinished = unfinished

-- `WriteVmFile`: no file where there were errors.
unfoldable pub write_vm_file : Bool → Asm → Run (Option Block)
unfolding write_images safe_write header_cells
write_vm_file vanilla s =
    if s.error_count == 0
    then kept_file (
        write_images vanilla s (safe_write (header_cells (output_header s)) header_size empty_file))
    else ok none

-- `WriteMapFile`: `fprintf(f, "%i %8x %s\n", seg, s->value, s->name)`.
abbrev pub hex_digit : ℕ → ℕ
hex_digit d = if ltb d 10 then 48 + d else 87 + d

unfoldable pub hex_text : ℕ → ℕ → List ℕ
hex_text zero n = []
hex_text (suc k) n =
    let higher = hex_text k (n / 16) in
    with_last (if ltb n 16 then [] else higher) (hex_digit (n % 16))

unfoldable pub padding : ℕ → List ℕ
padding zero = []
padding (suc k) = 32 ∷ padding k

abbrev pub hex8 : ℕ → List ℕ
hex8 n = let digits = hex_text 8 n in padding (8 - length digits) ++ digits

unfoldable pub map_line : ℕ → Sym → List ℕ
unfolding decimal_text hex_text padding
map_line seg s = decimal seg ++ 32 ∷ hex8 s.value ++ 32 ∷ s.name ++ 10 ∷ []

abbrev pub map_symbol : ℕ → SegmentName → Option Sym → List ℕ
map_symbol seg name none = []
map_symbol seg name (some s) =
    if starts_with 36 s.name then [] else if in_segment name s.segment then map_line seg s else []

unfoldable pub map_segment : ℕ → SegmentName → List Sym → List ℕ → List ℕ
unfolding map_line
map_segment seg name store [] = []
map_segment seg name store (p ∷ ps) =
    map_symbol seg name (get_elem? store p) ++ map_segment seg name store ps

unfoldable pub write_map_file : Asm → List ℕ
unfolding map_segment
write_map_file s =
    map_segment 0 codeseg s.store s.symbols
    ++ map_segment 1 dataseg s.store s.symbols
    ++ map_segment 2 litseg s.store s.symbols
    ++ map_segment 3 bssseg s.store s.symbols

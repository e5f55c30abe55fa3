-- ===== src/Assembler/Bytes/File.antt =====
-- The file that `WriteVmFile` of q3asm/q3asm.c writes consists of bytes.
use q3vm.Base.{ℕ, ◌-◌, arith, Bool, true, false}
use q3vm.Assembler.Bytes.{bytes4-Below256, Below256, AreBytes}
use q3vm.Assembler.Output.{empty_file, output_header, safe_write, header_cells}
use q3vm.Assembler.State.{Asm}
use q3vm.Assembler.Written.{with_header, with_image, with_strings, written_file}
use q3vm.Image.{header_size}
use q3vm.Memory.{bytes4, IsBytes, Block}
use q3vm.State.{Header}

header_cells-Below256 : (h : Header) → Below256 (header_cells h)
unfolding header_cells
header_cells-Below256 h =
    let f = bytes4 (bytes4 (λ q. 0) 0 h.vm_magic) 4 h.instruction_count in
    let g = bytes4 (bytes4 f 8 h.code_offset) 12 h.code_length in
    let k = bytes4 (bytes4 g 16 h.data_offset) 20 h.data_length in
    let bf : Below256 f =
      bytes4-Below256 (bytes4 (λ q. 0) 0 h.vm_magic) 4 h.instruction_count
        (bytes4-Below256 (λ q. 0) 0 h.vm_magic (λ q. omega arith)) in
    let bg : Below256 g =
      bytes4-Below256 (bytes4 f 8 h.code_offset) 12 h.code_length
        (bytes4-Below256 f 8 h.code_offset bf) in
    let bk : Below256 k =
      bytes4-Below256 (bytes4 g 16 h.data_offset) 20 h.data_length
        (bytes4-Below256 g 16 h.data_offset bg) in
    bytes4-Below256 (bytes4 k 24 h.lit_length) 28 h.bss_length
      (bytes4-Below256 k 24 h.lit_length bk)

safe_write-IsBytes :
    (f : ℕ → ℕ) (n : ℕ) (file : Block) → Below256 f → IsBytes file → IsBytes (safe_write f n file)
unfolding safe_write
safe_write-IsBytes f n file h b q = ground (arith, h (q - file.size), b q)

pub written_file-IsBytes :
    (vanilla : Bool) (s : Asm) → AreBytes s → IsBytes (written_file vanilla s)
written_file-IsBytes vanilla s h =
    let b0 =
      safe_write-IsBytes (header_cells (output_header s)) header_size empty_file
        (header_cells-Below256 (output_header s)) (λ q. omega arith) in
    let b1 = safe_write-IsBytes s.code.image s.code.image_used (with_header s) h.code_bytes_ b0 in
    let b2 =
      safe_write-IsBytes s.data_.image s.data_.image_used (with_image s.code (with_header s))
        h.data_bytes b1 in
    let b3 =
      safe_write-IsBytes s.lit.image s.lit.image_used
        (with_image s.data_ (with_image s.code (with_header s))) h.lit_bytes b2 in
    either vanilla b3
      (safe_write-IsBytes s.jtrg.image s.jtrg.image_used (with_strings s) h.jtrg_bytes b3)
  where
    either :
        (v : Bool)
        → IsBytes (with_strings s)
        → IsBytes (with_image s.jtrg (with_strings s))
        → IsBytes (written_file v s)
    either true x y = x
    either false x y = y

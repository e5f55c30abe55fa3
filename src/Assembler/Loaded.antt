-- ===== src/Assembler/Loaded.antt =====
-- From q3asm/q3asm.c to `VM_LoadQVM` of src/vm/vm.c: the bytecode file that the assembler writes, in
-- the data section of the machine.
use q3vm.Base.{ℕ, ◌+◌, ◌^◌, ◌≤◌, ◌<◌, ◌≡◌, refl, ◌∙◌, some, arith, Bool, true, false, List, ◌∷◌}
use q3vm.Base.Word.{add32}
use q3vm.Assembler.Bytes.All.{assemble-AreBytes}
use q3vm.Assembler.Bytes.File.{written_file-IsBytes}
use q3vm.Assembler.Output.{write_vm_file, output_header}
use q3vm.Assembler.Passes.{initial, assemble}
use q3vm.Assembler.Placement.{assemble-segment_base}
use q3vm.Assembler.Run.{ok}
use q3vm.Assembler.State.{Asm}
use q3vm.Assembler.Written.{
  write_vm_file-IsWritten, file-lit, file-header, file-data, file-size, read_header-cells,
  IsWritten,
}
use q3vm.Image.{
  load_header, load_data, load_qvm, read_header, vm_max_image_size, header_bad, header_size,
  vm_max_bss_length,
}
use q3vm.Image.Load.{load_data-loads, loaded_state, IsHeader, Fits, data_section}
use q3vm.Memory.{IsBytes, Block}
use q3vm.State.{data_sec, State, Host}
use mathlib.Core.Path.{subst}

-- What the machine demands of a program, and the range of `int`.
pub record IsLoadable (s : Asm) (file : Block) : Type 0 where
  pub counted : 0 < s.instruction_count
  pub count : s.instruction_count < 2 ^ 31
  pub has_code : 0 < s.code.image_used
  pub bss : s.bss.image_used ≤ vm_max_bss_length
  pub size : file.size ≤ vm_max_image_size

-- Data, strings and zeros where the assembler has placed them.
pub record IsPlaced (s : Asm) (section : Block) : Type 0 where
  pub data_ : (q : ℕ) → q < s.data_.image_used → section.cell q ≡ s.data_.image q
  pub lit : (q : ℕ) → q < s.lit.image_used → section.cell (s.lit.segment_base + q) ≡ s.lit.image q
  pub bss : (q : ℕ) → section.cell (s.bss.segment_base + q) ≡ 0

module _ (vanilla : Bool) (s : Asm) (file : Block) (written : IsWritten vanilla s file)
    (loadable : IsLoadable s file) (bytes : IsBytes file) where
  size-le : header_size + s.code.image_used + s.data_.image_used + s.lit.image_used ≤ file.size
  size-le = ground (arith, file-size vanilla s, written.contents)

  output_header-IsHeader : IsHeader (output_header s)
  output_header-IsHeader = record {
    instruction_count = omega (arith, loadable.count);
    code_offset = omega arith;
    code_length = omega (arith, written.code);
    data_offset = omega arith;
    data_length = omega (arith, written.data_);
    lit_length = omega (arith, written.lit);
    bss_length = omega (arith, loadable.bss);
  }

  output_header-Fits : Fits (output_header s) file.size
  output_header-Fits = record {
    code = omega (arith, size-le);
    data_ = omega (arith, size-le, written.code);
  }

  read : read_header file ≡ some (output_header s)
  read =
      read_header-cells file (output_header s)
        (omega (arith, size-le), λ q h. ground (arith, file-header vanilla s q h, written.contents))
        (omega arith) output_header-IsHeader

  accepted : header_bad (output_header s) file.size ≡ false
  unfolding header_bad
  accepted = ground (
    arith, size-le, loadable.counted, loadable.count, loadable.has_code, loadable.bss,
    loadable.size,
  )

  section-IsPlaced :
      (k : ℕ)
      → s.lit.segment_base ≡ s.data_.image_used
      → s.bss.segment_base ≡ add32 s.data_.image_used s.lit.image_used
      → IsPlaced s (data_section file (output_header s) k)
  section-IsPlaced k e f = record {
    data_ = λ q h. ground (arith, file-data vanilla s q h, written.contents, written.code);
    lit = λ q h. ground (arith, file-lit vanilla s q h, written.contents, written.code, e);
    bss = λ q. ground (arith, f, written.data_, written.lit);
  }

  load_qvm-written :
      (host : Host) (st : State)
      → ((n : ℕ) → host.grants data_sec n ≡ true)
      → (k : ℕ) × (load_qvm host (some file) file.size st
          ≡ some (some (output_header s), loaded_state file (output_header s) k st))
  load_qvm-written host st grants =
      let (k, _, e) =
        load_data-loads host file (output_header s) st bytes loadable.size output_header-IsHeader
          accepted output_header-Fits in
      (k, entered ∙ e ∙ rw (grants (2 ^ k + 4)) refl)
    where
      entered : load_qvm host (some file) file.size st ≡ load_data host file (output_header s) st
      entered =
          unfold load_qvm load_header in
          ground (arith, read, accepted, size-le, loadable.size, loadable.has_code)

-- If `Assemble` returns for one file or more, `WriteVmFile` writes a bytecode file, the program is
-- within the limits of `VM_LoadQVM` and the host grants the memory, then `VM_LoadQVM` accepts the
-- bytecode file with the header that was written, and the data section that it loads holds the data
-- at 0, every byte of the strings at the `segmentBase` that the assembler has used for lit, and
-- zeros from the one of bss on.
pub assemble-load_qvm :
    (qsort : (ℕ → ℕ → ℕ) → List ℕ → List ℕ) (n buckets : ℕ) (text : List ℕ) (texts : List (List ℕ))
    (s : Asm) (vanilla : Bool) (file : Block) (host : Host) (st : State)
    → assemble qsort n (text ∷ texts) (initial buckets) ≡ ok (tt, s)
    → write_vm_file vanilla s ≡ ok (some file)
    → IsLoadable s file
    → ((m : ℕ) → host.grants data_sec m ≡ true)
    → (k : ℕ) × (load_qvm host (some file) file.size st
        ≡ some (some (output_header s), loaded_state file (output_header s) k st))
      × IsPlaced s (data_section file (output_header s) k)
assemble-load_qvm qsort n buckets text texts s vanilla file host st e w loadable grants =
    let written = write_vm_file-IsWritten vanilla s file w in
    let bytes : IsBytes file =
      subst IsBytes written.contents
        (written_file-IsBytes vanilla s (assemble-AreBytes qsort n buckets (text ∷ texts) s e)) in
    let (lit, bss) = assemble-segment_base qsort n buckets text texts s e written.no_errors in
    let (k, loaded) = load_qvm-written vanilla s file written loadable bytes host st grants in
    (k, loaded, section-IsPlaced vanilla s file written loadable bytes k lit bss)

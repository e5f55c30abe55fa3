-- ===== src/Examples/Assembling.antt =====
-- A small source file through the assembler of q3asm/q3asm.c.
use q3vm.Base.{◌<◌, length, ℕ, ◌≡◌, refl, some, arith, Bool, true, false, List, [], ◌∷◌, ◌++◌}
use q3vm.Base.Word.{add32}
use q3vm.Assembler.Directives.{assemble_byte, assemble_label, assemble_ret, assemble_proc}
use q3vm.Assembler.Ending.{assemble-Halts}
use q3vm.Assembler.Halting.{short-AllShort}
use q3vm.Assembler.Hash.{hash_string, hash_from, bucket_of}
use q3vm.Assembler.Indexed.{symbol_named, first_named}
use q3vm.Assembler.Indexed.Search.{assemble-searches}
use q3vm.Assembler.Loaded.{assemble-load_qvm, IsPlaced, IsLoadable}
use q3vm.Assembler.Output.{output_header, write_image, write_images, write_vm_file, safe_write}
use q3vm.Assembler.Passes.{initial, assemble}
use q3vm.Assembler.Placement.{assemble-segment_base}
use q3vm.Assembler.Run.{◌>>=◌, ok, Run, exited, unfinished, faulted}
use q3vm.Assembler.State.{Asm}
use q3vm.Assembler.Symbols.{find_hashed, find_named}
use q3vm.Assembler.Text.{codes}
use q3vm.Assembler.Written.{written_file}
use q3vm.Examples.{empty_state, generous}
use q3vm.Image.{load_qvm}
use q3vm.Image.Load.{data_section, loaded_state}
use q3vm.Memory.{Block}
use Prim.Native.String.{String}

abbrev newline : List ℕ
newline = 10 ∷ []

abbrev lines_of : List String → List ℕ
lines_of [] = []
lines_of (l ∷ ls) = codes l ++ newline ++ lines_of ls

abbrev source : List ℕ
source = lines_of (
    "code" ∷ "proc f 0 0" ∷ "CNSTI4 7" ∷ "RET" ∷ "data" ∷ "LABEL d" ∷ "byte 4 5" ∷ "lit" ∷ "LABEL l"
    ∷ "byte 1 65" ∷ [])

abbrev pub no_sort : (ℕ → ℕ → ℕ) → List ℕ → List ℕ
no_sort cmp ps = ps

abbrev assembly : Run (Unit {0} × Asm)
assembly = assemble no_sort 65536 (source ∷ []) (initial 16)

abbrev pub returns : {A : Type 0} → Run A → Bool
returns (ok a) = true
returns exited = false
returns faulted = false
returns unfinished = false

abbrev pub state_of : Run (Unit {0} × Asm) → Asm
state_of (ok (_, s)) = s
state_of exited = initial 16
state_of faulted = initial 16
state_of unfinished = initial 16

pub state_of-returns : (r : Run (Unit {0} × Asm)) → returns r ≡ true → r ≡ ok (tt, state_of r)
state_of-returns (ok (_, s)) e = refl
state_of-returns exited e = cc
state_of-returns faulted e = cc
state_of-returns unfinished e = cc

assembly-returns : returns assembly ≡ true
unfolding assemble assemble_proc assemble_ret assemble_label assemble_byte
assembly-returns = refl

abbrev numbers : Asm → List ℕ
numbers s =
    s.instruction_count ∷ s.error_count ∷ s.code.image_used ∷ s.data_.image_used ∷ s.lit.image_used
    ∷ s.bss.image_used ∷ s.lit.segment_base ∷ s.bss.segment_base ∷ []

assembly-numbers : numbers (state_of assembly) ≡ 3 ∷ 0 ∷ 16 ∷ 8 ∷ 4 ∷ 65536 ∷ 8 ∷ 12 ∷ []
unfolding assemble assemble_proc assemble_ret assemble_label assemble_byte
assembly-numbers = refl

abbrev assembled : Asm
assembled = state_of assembly

assembly-ok : assembly ≡ ok (tt, assembled)
assembly-ok = state_of-returns assembly assembly-returns

abbrev asm_file : Block
asm_file = written_file true assembled

asm_file-ok : write_vm_file true assembled ≡ ok (some asm_file)
unfolding write_vm_file write_images write_image safe_write assemble assemble_proc assemble_ret
    assemble_label assemble_byte ◌>>=◌
asm_file-ok = refl

loadable : IsLoadable assembled asm_file
unfolding safe_write assemble assemble_proc assemble_ret assemble_label assemble_byte ◌>>=◌
loadable = record {
  counted = omega arith;
  count = omega arith;
  has_code = omega arith;
  bss = omega arith;
  size = omega arith;
}

no_errors : assembled.error_count ≡ 0
unfolding assemble assemble_proc assemble_ret assemble_label assemble_byte
no_errors = refl

assemble-load_qvm_example :
    (k : ℕ) × (load_qvm generous (some asm_file) asm_file.size empty_state
      ≡ some (
        some (output_header assembled),
        loaded_state asm_file (output_header assembled) k empty_state,
      ))
    × IsPlaced assembled (data_section asm_file (output_header assembled) k)
assemble-load_qvm_example =
    assemble-load_qvm no_sort 65536 16 source [] assembled true asm_file generous empty_state
      assembly-ok asm_file-ok loadable (λ m. refl)

assemble-segment_base_example :
    (assembled.lit.segment_base ≡ assembled.data_.image_used)
    × (assembled.bss.segment_base ≡ add32 assembled.data_.image_used assembled.lit.image_used)
assemble-segment_base_example =
    assemble-segment_base no_sort 65536 16 source [] assembled assembly-ok no_errors

bucket_d : bucket_of assembled.buckets (hash_string (codes "d")) ≡ some 6
unfolding assemble assemble_proc assemble_ret assemble_label assemble_byte bucket_of hash_from
bucket_d = refl

assemble-searches_example :
    (find_named assembled.store (codes "d") (assembled.table 6)
      ≡ first_named (codes "d") 0 assembled.store)
    × (find_hashed assembled.store (hash_string (codes "d")) (codes "d") (assembled.table 6)
        ≡ symbol_named (codes "d") assembled.store)
assemble-searches_example =
    assemble-searches no_sort 65536 16 (source ∷ []) assembled (codes "d") 6 assembly-ok bucket_d

source-lt : length source < 1024
source-lt = omega arith

assemble-Halts_example : ¬ (assemble no_sort 65536 (source ∷ []) (initial 16) ≡ unfinished)
assemble-Halts_example =
    assemble-Halts no_sort 65536 (source ∷ []) (initial 16) (short-AllShort source source-lt, tt)

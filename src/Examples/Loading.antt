-- ===== src/Examples/Loading.antt =====
-- The loader and `VM_PrepareInterpreter` on the file of seven instructions.
use q3vm.Base.{none, ◌∷◌, [], true, false, some, ◌<◌, ℕ, ◌≡◌, refl, arith}
use q3vm.Create.{q_strncpyz, vm_free, create_loaded, create_at}
use q3vm.Create.Failure.{create_at-IsAccounted, IsAccounted}
use q3vm.Create.Success.{create_at-accepts, IsProgram, IsReady, IsGenerous}
use q3vm.Examples.{
  below_seven, file_bytes, empty_state, nth-lt, no_blocks, generous, file_header, file,
}
use q3vm.Image.{load_header, load_qvm, read_header, load_data, find_shift, header_bad}
use q3vm.Image.Load.{load_data-loads, loaded_state, Fits, IsHeader}
use q3vm.Image.Shift.{find_shift-IsShift, IsShift}
use q3vm.Memory.{read4, little_endian_to_host, Block, IsBytes}
use q3vm.Opcode.{leave, eq, const, enter, Opcode, operand_of, is_branch, opcode_of}
use q3vm.Prepare.{translate_branch, with_code, going, expand, prepare_interpreter, Expansion}
use q3vm.Prepare.Expand.{expand-IsLaid, HasRoom, IsLaid}
use q3vm.Prepare.Layout.{value_at, branches_at, op_at, IsCode, byte_start}
use q3vm.Prepare.Target.{translate_branch_outcome}
use q3vm.Prepare.Total.{prepare_interpreter-prepares, IsPrepared}
use q3vm.Prepare.Translate.{TargetsExist}
use q3vm.Prepare.Wrapped.{wrapped_header-escapes}
use q3vm.State.{
  Header, malloc_failed, Host, failed_to_load_bytecode, code_sec, allocated, cleared, State,
}

file-IsBytes : IsBytes file
file-IsBytes = nth-lt file_bytes refl

file_header-IsHeader : IsHeader file_header
file_header-IsHeader = record {
  instruction_count = omega arith;
  code_offset = omega arith;
  code_length = omega arith;
  data_offset = omega arith;
  data_length = omega arith;
  lit_length = omega arith;
  bss_length = omega arith;
}

file_header-accepted : header_bad file_header file.size ≡ false
unfolding header_bad
file_header-accepted = refl

file_header-Fits : Fits file_header file.size
file_header-Fits = record { code = omega arith; data_ = omega arith }

load_data-loads_example :
    (k : ℕ) × IsShift 110 k
    × (load_data generous file file_header empty_state
        ≡ some (some file_header, loaded_state file file_header k empty_state))
load_data-loads_example =
    load_data-loads generous file file_header empty_state file-IsBytes (omega arith)
      file_header-IsHeader file_header-accepted file_header-Fits

find_shift-IsShift_example : (k : ℕ) × (find_shift 31 0 110 ≡ some k) × IsShift 110 k
find_shift-IsShift_example = find_shift-IsShift 110 (omega arith)

length_lem : byte_start file 32 7 ≡ 35
unfolding opcode_of byte_start operand_of
length_lem = refl

file-IsCode : IsCode file 32 35 7
unfolding opcode_of byte_start operand_of
file-IsCode = record {
  known =
      below_seven (λ j. (o : Opcode) × (opcode_of (op_at file 32 j) ≡ some o))
        (
          (enter, refl),
          (const, refl),
          (const, refl),
          (eq, refl),
          (const, refl),
          (const, refl),
          (leave, refl),
        );
  ends = omega (arith, length_lem);
  in_file = omega arith;
}

file-TargetsExist : TargetsExist file 32 7
unfolding opcode_of byte_start is_branch operand_of little_endian_to_host
file-TargetsExist =
    below_seven (λ j. branches_at file 32 j ≡ true → value_at file 32 j < 7)
      ((λ e. cc), (λ e. cc), (λ e. cc), (λ e. omega arith), (λ e. cc), (λ e. cc), (λ e. cc))

abbrev blank : ℕ → Block
blank n = record { size = n; cell = λ q. 0 }

expand-IsLaid_example :
    (y : Expansion) × (expand file 32 35 7 0
        (record { byte_pc = 0; int_pc = 0; code = blank 140; pointers = blank 7 })
      ≡ some (going y))
    × IsLaid file 32 7 y
    × HasRoom 35 7 y
expand-IsLaid_example =
    expand-IsLaid file 32 35 7 file-IsCode (blank 140) (blank 7) (omega arith) (omega arith)

abbrev before_prepare : State
before_prepare = record {
  vm = record cleared {
    code_length = 35;
    instruction_count = 7;
    instruction_pointers = some (blank 7);
  };
  world = no_blocks;
}

prepare_interpreter-prepares_example :
    (code' pointers' : Block) × (prepare_interpreter generous file file_header before_prepare
      ≡ some (
        true,
        with_code code' pointers' (record before_prepare { world = allocated code_sec no_blocks }),
      ))
    × IsPrepared file file_header code' pointers'
prepare_interpreter-prepares_example =
    prepare_interpreter-prepares file file_header file-IsCode (omega arith) file-TargetsExist
      generous before_prepare (blank 7) refl (omega arith) refl refl refl (omega arith)

file-IsProgram : IsProgram file file_header
unfolding read_header read4 little_endian_to_host
file-IsProgram = record {
  bytes = file-IsBytes;
  long = omega arith;
  small = omega arith;
  read = refl;
  words = file_header-IsHeader;
  magic = refl;
  accepted = file_header-accepted;
  fits = file_header-Fits;
  code = file-IsCode;
  targets = file-TargetsExist;
}

generous-IsGenerous : IsGenerous generous
generous-IsGenerous t n = refl

create_at-accepts_example :
    (k : ℕ) × (s' : State) × IsShift 110 k
    × (create_at generous true none (some file) 77 empty_state ≡ some (true, s'))
    × IsReady file file_header k s'
create_at-accepts_example =
    create_at-accepts generous file file_header file-IsProgram generous-IsGenerous none empty_state

-- A host without memory.
abbrev stingy : Host
stingy = record { grants = λ t n. false; junk = λ t n. 7 }

abbrev after_refusal : State
after_refusal = record {
  vm = cleared;
  world = record no_blocks { reported = failed_to_load_bytecode ∷ malloc_failed ∷ [] };
}

create_refused : create_at stingy true none (some file) 77 empty_state ≡ some (false, after_refusal)
unfolding create_at load_qvm load_header read_header read4 little_endian_to_host header_bad
    load_data find_shift create_loaded vm_free q_strncpyz
create_refused = refl

create_at-IsAccounted_example : IsAccounted true empty_state false after_refusal
create_at-IsAccounted_example =
    create_at-IsAccounted stingy true none (some file) 77 empty_state create_refused

abbrev jump_to_end : Block
jump_to_end = record { size = 4; cell = λ q. 7 }

translate_branch_outcome_example : translate_branch (blank 7) 7 1 jump_to_end ≡ none
translate_branch_outcome_example =
    translate_branch_outcome (blank 7) 7 1 jump_to_end refl (omega arith) (omega arith)
      (omega arith)

abbrev wrapped_header : Header
wrapped_header = record file_header { code_offset = 0x7fff_ffff; code_length = 1 }

abbrev wrapped_state : State
wrapped_state = record empty_state { vm = record cleared { code_length = 1 } }

wrapped_header-escapes_example :
    (header_bad wrapped_header 77 ≡ false)
    × (prepare_interpreter generous file wrapped_header wrapped_state ≡ none)
wrapped_header-escapes_example =
    wrapped_header-escapes generous file wrapped_header wrapped_state
      (record {
        instructions = (omega arith, omega arith);
        code_offset = omega arith;
        code_length = omega arith;
        wraps = omega arith;
        bss_length = omega arith;
        file_length = omega arith;
        data_end = omega arith;
      })
      refl refl

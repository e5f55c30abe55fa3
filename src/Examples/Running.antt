-- ===== src/Examples/Running.antt =====
-- The interpreter on the code of the file of seven instructions.
use q3vm.Base.{
  Bool, true, ltb, ◌&&◌, ◌^◌, [], Option, ◌+◌, ◌∷◌, none, some, List, ℕ, ◌≡◌, refl, arith,
}
use q3vm.Base.Word.{minus_one}
use q3vm.Examples.{
  loaded_vm, expanded, section_of, nth, no_floats, loaded_example, machine_at, answering,
}
use q3vm.Interp.Cache.{run-eq-run_reloading, run_reloading, IsCached}
use q3vm.Interp.Confined.{IsSandboxed, IsConfined, HostKeeps}
use q3vm.Interp.Constant.{vm_call_constant, returned_state}
use q3vm.Interp.Control.{leave_to, exec_leave, exec_enter, exec_const, read_words, exec}
use q3vm.Interp.Defined.{IsDefined}
use q3vm.Interp.Entry.{AllWords, entry_machine-frame}
use q3vm.Interp.Escape.{run-escapes}
use q3vm.Interp.Exec.{exec_int, exec_branch, exec_memory}
use q3vm.Interp.Machine.{next, branch, Machine}
use q3vm.Interp.OpStack.{IsOnStack}
use q3vm.Interp.Ready.{HostReturns}
use q3vm.Interp.Rules.{Leaves}
use q3vm.Interp.Run.{
  finish, write_words, returned, call_interpreted, entry_image, vm_call, beef, max_vmmain_args,
  entry_frame, entry_machine, run, step,
}
use q3vm.Interp.Safe.{exec-IsDefined}
use q3vm.Memory.{little_endian_to_host, write4, Block, read4, get}
use q3vm.Opcode.{opcode_of, dispatch, call}
use q3vm.State.{State}
use mathlib.Core.Path.{subst}

abbrev SandboxedAfter : Option (State × ℕ) → Type 0
SandboxedAfter none = Unit
SandboxedAfter (some (s, r)) = IsSandboxed 7 s

answering-HostKeeps : HostKeeps 7 answering
answering-HostKeeps s args s' r h e = subst SandboxedAfter e h

answering-HostReturns : HostReturns 7 answering
answering-HostReturns s args h = (s, 42, refl)

machine_at-IsConfined : (pc a b : ℕ) → IsConfined 7 (machine_at pc a b)
machine_at-IsConfined pc a b = record { mask = refl; vm_mask = refl; size = refl }

machine_at-IsCached : (pc a b : ℕ) → IsCached (machine_at pc a b)
machine_at-IsCached pc a b = record { top = refl; below = refl; in_stack = omega arith }

-- A native call on the machine.
exec-IsDefined_example :
    IsDefined (exec answering no_floats call (machine_at 3 minus_one 5))
    × Leaves
        (IsOnStack (machine_at 3 minus_one 5).op_stack)
        (exec answering no_floats call (machine_at 3 minus_one 5))
exec-IsDefined_example =
    exec-IsDefined 7 (omega arith) answering answering-HostKeeps answering-HostReturns no_floats
      call (machine_at 3 minus_one 5) (machine_at-IsConfined 3 minus_one 5) (omega arith)
      (
        (record { size = 7; cell = nth (0 ∷ 2 ∷ 4 ∷ 6 ∷ 8 ∷ 10 ∷ 12 ∷ []) }, refl, omega arith),
        omega arith,
      )

-- The conditional jump of the file, taken.
abbrev after_jump : Machine
after_jump = record (machine_at 10 1 1) { op_stack_ofs = 0 }

jump_taken : step answering no_floats (machine_at 6 1 1) ≡ some (next after_jump)
unfolding step exec exec_memory exec_branch exec_int branch get dispatch opcode_of
jump_taken = refl

run-eq-run_reloading_example :
    run answering no_floats 3 (machine_at 6 1 1)
    ≡ run_reloading answering no_floats 3 (machine_at 6 1 1)
run-eq-run_reloading_example =
    run-eq-run_reloading answering no_floats 3 (machine_at 6 1 1) (machine_at-IsCached 6 1 1)

abbrev junk : ℕ → ℕ
junk i = 7

abbrev call_args : List ℕ
call_args = 3 ∷ 1 ∷ 2 ∷ 0 ∷ 0 ∷ 0 ∷ 0 ∷ 0 ∷ 0 ∷ 0 ∷ 0 ∷ 0 ∷ minus_one ∷ []

abbrev all_words : List ℕ → Bool
all_words [] = true
all_words (v ∷ vs) = ltb v (2 ^ 32) && all_words vs

all_words-AllWords : (vs : List ℕ) → all_words vs ≡ true → AllWords vs
all_words-AllWords [] h = tt
all_words-AllWords (v ∷ vs) h = (ground arith, all_words-AllWords vs (ground arith))

call_args-AllWords : AllWords call_args
call_args-AllWords = all_words-AllWords call_args refl

entry_machine-frame_example :
    (m : Machine) × (entry_machine junk call_args loaded_example ≡ some m)
    × (m.program_stack + entry_frame ≡ 128)
    × (m.image.size ≡ 132)
    × (read4 m.image m.program_stack ≡ some minus_one)
    × (read4 m.image (m.program_stack + 4) ≡ some 0)
    × (read_words max_vmmain_args m.image (m.program_stack + 8) ≡ some call_args)
    × (m.program_counter ≡ 0)
    × (m.op_stack_ofs ≡ 0)
    × (m.op_stack 0 ≡ beef)
entry_machine-frame_example =
    entry_machine-frame junk call_args loaded_example (section_of 128)
      (record { size = 35; cell = nth expanded }) refl refl
      (record { above = omega arith; within = omega arith; word = omega arith }) refl
      call_args-AllWords

-- The whole file: the call returns 42 after six op codes.
abbrev frame_of : Option Block → Block
frame_of none = section_of 128
frame_of (some m) = m

abbrev after_call : State
after_call = record loaded_example {
  vm = record loaded_vm { data_base = some (frame_of (entry_image call_args 68 (section_of 128))) };
}

call_lem :
    vm_call answering no_floats 6 junk call_args loaded_example ≡ some (returned 42 after_call)
unfolding vm_call call_interpreted entry_machine entry_image write_words write4 read4 run step exec
    exec_memory exec_branch exec_int exec_const exec_enter exec_leave leave_to branch get dispatch
    opcode_of finish little_endian_to_host
call_lem = refl

-- ENTER 8; CONST 42; LEAVE 8.
abbrev constant_code : Block
constant_code = record { size = 60; cell = nth (3 ∷ 8 ∷ 8 ∷ 42 ∷ 4 ∷ 8 ∷ []) }

abbrev constant_example : State
constant_example = record loaded_example {
  vm = record loaded_vm { code_base = some constant_code };
}

vm_call_constant_example :
    (image : Block) × (vm_call answering no_floats 10 junk call_args constant_example
      ≡ some (returned 42 (returned_state image constant_example)))
    × (image.size ≡ 132)
vm_call_constant_example =
    vm_call_constant answering no_floats 7 junk call_args constant_example constant_code
      (section_of 128) 8 42
      (record {
        size = omega arith;
        enter_op = refl;
        enter_size = refl;
        const_op = refl;
        const_value = refl;
        leave_op = refl;
        leave_size = refl;
      })
      (omega arith) refl refl refl
      (record { above = omega arith; within = omega arith; word = omega arith }) refl
      call_args-AllWords

-- ENTER 2147483648; CALL.
abbrev leaping : Machine
leaping = record (machine_at 0 0 0) {
  code_image = record { size = 3; cell = nth (3 ∷ 0x8000_0000 ∷ 5 ∷ []) };
}

run-escapes_example : run answering no_floats 2 leaping ≡ none
run-escapes_example =
    run-escapes answering no_floats leaping 0x8000_0000
      (record { size = omega arith; enter_op = refl; enter_size = refl; call_op = refl })
      (omega arith)

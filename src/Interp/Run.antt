-- ===== src/Interp/Run.antt =====
-- The main loop, the entry and the exit of `VM_CallInterpreted`, and `VM_Call`.
use q3vm.Base.{
  ℕ, zero, suc, ◌+◌, ◌-◌, Option, some, Bool, true, false, not, ◌||◌, ◌==◌, List, [], ◌∷◌,
  if◌then◌else◌, ◌>>=◌,
}
use q3vm.Base.Word.{minus_one, add32, sub32, slt}
use q3vm.Interp.Control.{exec}
use q3vm.Interp.Machine.{
  SystemCall, FloatUnit, Machine, Flow, next, done, stopped, outside, reload, past_operand,
}
use q3vm.Memory.{Block, get, write4, update}
use q3vm.Opcode.{dispatch}
use q3vm.State.{World, State, report, fail_with, stack_error, not_loaded, invalid_pointer}

-- One round of the loop: `opcode = codeImage[programCounter++]` and its section.
unfoldable pub step : SystemCall → FloatUnit → Machine → Option Flow
step system f m = do
  opcode ← get m.code_image m.program_counter
  exec system f (dispatch opcode) (past_operand m)

-- Rounds until the loop is left, at most as many as the fuel says; `next` tells that it goes on.
unfoldable pub run : SystemCall → FloatUnit → ℕ → Machine → Option Flow
run system f zero m = some (next m)
run system f (suc fuel) m = do
  flow ← step system f m
  elim flow [
    | next m' ↦ run system f fuel m'
    | done m' ↦ some (done m')
    | stopped m' ↦ some (stopped m')
  ]

-- `MAX_VMMAIN_ARGS`, and the size of the frame that holds them.
abbrev pub max_vmmain_args : ℕ
max_vmmain_args = 13

abbrev pub entry_frame : ℕ
entry_frame = 60

abbrev pub beef : ℕ
beef = 0xbeef

-- `*(int*)&image[programStack + 8 + arg * 4] = args[arg]`, from the address `a` on.
unfoldable pub write_words : List ℕ → ℕ → Block → Option Block
write_words [] a m = some m
write_words (v ∷ vs) a m = do m' ← write4 m a v; write_words vs (a + 4) m'

-- The frame of the outermost function: its arguments, the return stack and the return address -1,
-- which ends the loop.
unfoldable pub entry_image : List ℕ → ℕ → Block → Option Block
unfolding write_words
entry_image args top m = do
  m1 ← write_words args (add32 top 8) m
  m2 ← write4 m1 (add32 top 4) 0
  write4 m2 top minus_one

-- The locals when the loop starts. `junk` is what the uninitialised op stack holds.
abbrev pub entry_start : (ℕ → ℕ) → State → Block → Block → Machine
entry_start junk s code image = reload (record {
  vm = record s.vm { currently_interpreting = true };
  world = s.world;
  image = image;
  code_image = code;
  data_mask = s.vm.data_mask;
  op_stack = update junk 0 beef;
  op_stack_ofs = 0;
  program_counter = 0;
  program_stack = sub32 s.vm.program_stack entry_frame;
  r0 = 0;
  r1 = 0;
})

unfoldable pub entry_machine : (ℕ → ℕ) → List ℕ → State → Option Machine
unfolding entry_image
entry_machine junk args s = do
  base ← s.vm.data_base
  code ← s.vm.code_base
  image ← entry_image args (sub32 s.vm.program_stack entry_frame) base
  some (entry_start junk s code image)

-- A call returns, or has used up the fuel.
pub data Outcome : Type 0 where
  returned : ℕ → State → Outcome
  out_of_fuel : Outcome

-- The label `done`.
abbrev pub idle : Machine → State
idle m = let s = outside m in record s { vm = record s.vm { currently_interpreting = false } }

abbrev pub stack_bad : Machine → Bool
stack_bad m = not (m.op_stack_ofs == 1) || not (m.op_stack 0 == beef)

unfoldable pub finish : ℕ → Machine → Outcome
finish stack_on_entry m =
    let s = if stack_bad m then fail_with stack_error (idle m) else idle m in
    returned (m.op_stack m.op_stack_ofs)
      (record s { vm = record s.vm { program_stack = stack_on_entry } })

abbrev pub leave_loop : ℕ → Flow → Outcome
leave_loop stack_on_entry (next m) = out_of_fuel
leave_loop stack_on_entry (done m) = finish stack_on_entry m
leave_loop stack_on_entry (stopped m) = returned minus_one (outside m)

-- `VM_CallInterpreted`.
unfoldable pub call_interpreted :
    SystemCall → FloatUnit → ℕ → (ℕ → ℕ) → List ℕ → State → Option Outcome
unfolding entry_machine finish
call_interpreted system f fuel junk args s = do
  m ← entry_machine junk args s
  flow ← run system f fuel m
  some (leave_loop s.vm.program_stack flow)

abbrev pub deeper : State → State
deeper s = record s { vm = record s.vm { call_level = s.vm.call_level + 1 } }

abbrev pub shallower : Outcome → Outcome
shallower (returned r s) =
    returned r (record s { vm = record s.vm { call_level = s.vm.call_level - 1 } })
shallower out_of_fuel = out_of_fuel

-- `VM_Call` on a machine, with the command and the twelve further arguments in one list.
unfoldable pub vm_call : SystemCall → FloatUnit → ℕ → (ℕ → ℕ) → List ℕ → State → Option Outcome
unfolding call_interpreted
vm_call system f fuel junk args s =
    if slt s.vm.code_length 1 then some (returned minus_one (fail_with not_loaded s)) else (do
      outcome ← call_interpreted system f fuel junk args (deeper s)
      some (shallower outcome))

-- `VM_Call` on a pointer that may be `NULL`: the result and the host's record.
unfoldable pub vm_call_null : World → ℕ × World
vm_call_null w = (minus_one, report invalid_pointer w)

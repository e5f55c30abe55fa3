-- ===== src/Interp/Control.antt =====
-- The op codes of `VM_CallInterpreted` that move the program counter or the program stack, and the
-- `switch` as a whole.
use q3vm.Base.{ℕ, zero, suc, ◌+◌, Option, some, leb, ◌==◌, List, [], ◌∷◌, if◌then◌else◌, ◌>>=◌}
use q3vm.Base.Word.{u32, minus_one, add32, sub32, is_neg}
use q3vm.Interp.Exec.{exec_memory}
use q3vm.Interp.Machine.{
  SystemCall, FloatUnit, Machine, Flow, next, done, outside, stop_with, up, dispatch_reloaded,
  operand, past_operand, pushed, popped,
}
use q3vm.Memory.{Block, get, read4, write4}
use q3vm.Opcode.{Opcode, undef, ignore, break, enter, leave, call, push, pop, const, local, jump}
use q3vm.State.{Vm, State, pc_out_of_range, bad_instruction}

-- `argarr[i] = *(++imagePtr)`, for the `n` words from `a` on.
unfoldable pub read_words : ℕ → Block → ℕ → Option (List ℕ)
read_words zero m a = some []
read_words (suc n) m a = do v ← read4 m a; vs ← read_words n m (a + 4); some (v ∷ vs)

-- `MAX_VMSYSCALL_ARGS`.
abbrev pub max_vmsyscall_args : ℕ
max_vmsyscall_args = 16

-- `vm->instructionPointers[i]`.
abbrev pub instruction_start : Vm → ℕ → Option ℕ
instruction_start vm i = do
  pointers ← vm.instruction_pointers
  start ← get pointers i
  some (u32 start)

-- The machine that a native function is called with: the number of the call stands above the
-- saved program counter.
abbrev pub entering_host : Block → Machine → State
entering_host image m =
    outside
      (record m { vm = record m.vm { program_stack = sub32 m.program_stack 4 }; image = image })

-- What is left to do when a native function has returned.
unfoldable pub after_host : Machine → State × ℕ → Option Flow
after_host m (s, r) = do
  image ← s.vm.data_base
  pc ← read4 image m.program_stack
  let ofs = up m.op_stack_ofs
  let back = record m {
    vm = s.vm;
    world = s.world;
    image = image;
    op_stack = λ q. if q == ofs then u32 r else m.op_stack q;
    op_stack_ofs = ofs;
    program_counter = pc;
  }
  dispatch_reloaded back

-- OP_CALL with a negative target, after the program counter is saved and the target popped.
unfoldable pub call_host : SystemCall → ℕ → Machine → Option Flow
unfolding after_host
call_host system target m = do
  image ← write4 m.image (add32 m.program_stack 4) (sub32 minus_one target)
  args ← read_words max_vmsyscall_args image (m.program_stack + 4)
  back ← system (entering_host image m) args
  after_host m back

-- OP_CALL with another target.
unfoldable pub call_function : ℕ → Machine → Option Flow
call_function target m =
    if leb m.vm.instruction_count target then stop_with pc_out_of_range m else (do
      start ← instruction_start m.vm target
      dispatch_reloaded (record m { program_counter = start }))

unfoldable pub exec_call : SystemCall → Machine → Option Flow
unfolding call_host call_function
exec_call system m = do
  image ← write4 m.image m.program_stack m.program_counter
  let saved = popped 1 (record m { image = image })
  if is_neg m.r0 then call_host system m.r0 saved else call_function m.r0 saved

-- OP_ENTER
unfoldable pub exec_enter : Machine → Option Flow
exec_enter m = do
  v1 ← operand m
  dispatch_reloaded (record (past_operand m) { program_stack = sub32 m.program_stack v1 })

-- OP_LEAVE
unfoldable pub leave_to : ℕ → Machine → Option Flow
leave_to pc m =
    if pc == minus_one
    then some (done m)
    else if leb m.vm.code_length pc
    then stop_with pc_out_of_range m
    else dispatch_reloaded m

unfoldable pub exec_leave : Machine → Option Flow
unfolding leave_to
exec_leave m = do
  v1 ← operand m
  let frame = add32 m.program_stack v1
  pc ← read4 m.image frame
  leave_to pc (record m { program_stack = frame; program_counter = pc })

-- OP_JUMP
unfoldable pub exec_jump : Machine → Option Flow
exec_jump m = if leb m.vm.instruction_count m.r0 then stop_with pc_out_of_range m else (do
  start ← instruction_start m.vm m.r0
  dispatch_reloaded (popped 1 (record m { program_counter = start })))

-- OP_CONST and OP_LOCAL
unfoldable pub exec_const : Machine → Option Flow
exec_const m = do v ← operand m; some (next (past_operand (pushed v m)))

unfoldable pub exec_local : Machine → Option Flow
exec_local m = do v ← operand m; some (next (past_operand (pushed (add32 v m.program_stack) m)))

-- The whole `switch`.
unfoldable pub exec : SystemCall → FloatUnit → Opcode → Machine → Option Flow
exec system f undef m = stop_with bad_instruction m
exec system f ignore m = some (next m)
exec system f break m =
    some (next (record m { vm = record m.vm { break_count = m.vm.break_count + 1 } }))
exec system f const m = exec_const m
exec system f local m = exec_local m
exec system f call m = exec_call system m
exec system f push m = dispatch_reloaded (record m { op_stack_ofs = up m.op_stack_ofs })
exec system f pop m = dispatch_reloaded (popped 1 m)
exec system f enter m = exec_enter m
exec system f leave m = exec_leave m
exec system f jump m = exec_jump m
exec system f op m = exec_memory f op m

-- ===== src/Interp/Machine.antt =====
-- The locals of `VM_CallInterpreted`, what the host supplies to it, and the moves that its op codes
-- share: `DISPATCH`, pushing and popping on the op stack, conditional jumps.
use q3vm.Base.{ℕ, ◌+◌, ◌-◌, Option, some, Bool, true, false, List, ◌>>=◌}
use q3vm.Base.Word.{u8}
use q3vm.Memory.{Block, get, update}
use q3vm.State.{Vm, World, State, ErrorCode, report}

-- The members `systemCall` of `vm_t`: a native function gets the machine and its sixteen arguments,
-- and returns the machine that it leaves and a result. `none` is a crash of the native function.
abbrev pub SystemCall : Type 0
SystemCall = State → List ℕ → Option (State × ℕ)

-- The floating-point unit of the host, on the bit patterns of `float`. `to_long` is the conversion
-- `(long)f` cut to an `int`, undefined out of range.
pub record FloatUnit : Type 0 where
  pub f_eq : ℕ → ℕ → Bool
  pub f_lt : ℕ → ℕ → Bool
  pub f_le : ℕ → ℕ → Bool
  pub f_neg : ℕ → ℕ
  pub f_add : ℕ → ℕ → ℕ
  pub f_sub : ℕ → ℕ → ℕ
  pub f_div : ℕ → ℕ → ℕ
  pub f_mul : ℕ → ℕ → ℕ
  pub of_int : ℕ → ℕ
  pub to_long : ℕ → Option ℕ

-- The locals. `image` is the block behind `vm->dataBase`, which they share. `op_stack` stands for
-- the 256 words of `opStack`: it is a function, and `op_stack_ofs` and all other places where it is
-- read or written are bytes.
pub record Machine : Type 0 where
  pub vm : Vm
  pub world : World
  pub image : Block
  pub code_image : Block
  pub data_mask : ℕ
  pub op_stack : ℕ → ℕ
  pub op_stack_ofs : ℕ
  pub program_counter : ℕ
  pub program_stack : ℕ
  pub r0 : ℕ
  pub r1 : ℕ

-- After an op code: go on, leave the loop by `goto done`, or return -1 after an error.
pub data Flow : Type 0 where
  next : Machine → Flow
  done : Machine → Flow
  stopped : Machine → Flow

-- The machine as the native functions see it.
abbrev pub outside : Machine → State
outside m = record { vm = record m.vm { data_base = some m.image }; world = m.world }

-- `Com_Error(vm->lastError = e, ..); return -1;`
abbrev pub stop_with : ErrorCode → Machine → Option Flow
stop_with e m =
    some (stopped (record m { vm = record m.vm { last_error = e }; world = report e m.world }))

-- `opStackOfs` after `k` steps up or down: it is a `uint8_t`.
abbrev pub up : ℕ → ℕ
up ofs = u8 (ofs + 1)

abbrev pub down : ℕ → ℕ → ℕ
down k ofs = u8 (ofs + 256 - k)

-- `DISPATCH` loads the two registers anew; `DISPATCH2` keeps them.
abbrev pub reload : Machine → Machine
reload m = record m { r0 = m.op_stack m.op_stack_ofs; r1 = m.op_stack (down 1 m.op_stack_ofs) }

abbrev pub dispatch_reloaded : Machine → Option Flow
dispatch_reloaded m = some (next (reload m))

-- `r2`: the operand.
abbrev pub operand : Machine → Option ℕ
operand m = get m.code_image m.program_counter

abbrev pub past_operand : Machine → Machine
past_operand m = record m { program_counter = m.program_counter + 1 }

-- OP_CONST and OP_LOCAL: a value above the top.
abbrev pub pushed : ℕ → Machine → Machine
pushed v m = record m {
  op_stack = update m.op_stack (up m.op_stack_ofs) v;
  op_stack_ofs = up m.op_stack_ofs;
  r0 = v;
  r1 = m.r0;
}

-- OP_LOAD1, OP_LOAD2 and OP_LOAD4: a value in place of the top.
abbrev pub replaced : ℕ → Machine → Machine
replaced v m = record m { op_stack = update m.op_stack m.op_stack_ofs v; r0 = v }

abbrev pub popped : ℕ → Machine → Machine
popped k m = record m { op_stack_ofs = down k m.op_stack_ofs }

-- `opStack[opStackOfs] = v; DISPATCH();`
abbrev pub stored_top : ℕ → Machine → Machine
stored_top v m = record m { op_stack = update m.op_stack m.op_stack_ofs v }

unfoldable pub unary : Option ℕ → Machine → Option Flow
unary result m = do v ← result; dispatch_reloaded (stored_top v m)

-- `opStackOfs--; opStack[opStackOfs] = v; DISPATCH();`
unfoldable pub binary : Option ℕ → Machine → Option Flow
unfolding unary
binary result m = unary result (popped 1 m)

-- The conditional jumps, on the result of their test.
unfoldable pub branch : Bool → Machine → Option Flow
branch false m = dispatch_reloaded (past_operand (popped 2 m))
branch true m = do
  target ← operand m
  dispatch_reloaded (record (popped 2 m) { program_counter = target })

-- An operand of a float op code, by its distance above `opStackOfs` after the pop.
abbrev pub float_at : ℕ → Machine → ℕ
float_at k m = m.op_stack (u8 (m.op_stack_ofs + k))

-- ===== src/Interp/OpStack.antt =====
-- The op stack of `VM_CallInterpreted`: the 256 words of `opStack`, which the byte `opStackOfs`
-- indexes, and the moves of the op codes on it. The model's stack is a function.
pub mod Codes
use q3vm.Base.{
  ℕ, ◌+◌, ◌≤◌, ◌<◌, ◌≡◌, Option, none, some, Bool, true, false, arith, Option-cases, inl, inr,
  ◌>>=◌, if◌then◌else◌,
}
use q3vm.Base.Word.{u32, sext64, add32, sub32, minus_one, is_neg}
use q3vm.Access.{block_copy as vm_block_copy}
use q3vm.Interp.Control.{
  exec, exec_call, call_host, after_host, call_function, exec_enter, exec_leave, exec_jump,
  exec_const, exec_local, entering_host, read_words, max_vmsyscall_args, leave_to,
}
use q3vm.Interp.Exec.{exec_memory, exec_block_copy, exec_arg, loaded, written}
use q3vm.Interp.Machine.{
  SystemCall, FloatUnit, Machine, Flow, branch, unary, binary, popped, past_operand, up, stored_top,
  replaced, pushed, outside, dispatch_reloaded,
}
use q3vm.Interp.Rules.{exec_branch-rule, Leaves}
use q3vm.Memory.{Block, read4, get, write4, update}
use q3vm.Opcode.{
  Opcode, undef, ignore, break, enter, leave, call, push, pop, const, local, jump, load1, load2,
  load4, store1, store2, store4, arg, block_copy,
}
use q3vm.State.{State}

-- The index is in the 256 words, and the words behind them are those of `base`.
pub record IsOnStack (base : ℕ → ℕ) (m : Machine) : Type 0 where
  pub ofs : m.op_stack_ofs < 256
  pub behind : (i : ℕ) → 256 ≤ i → m.op_stack i ≡ base i

abbrev pub Stays : (ℕ → ℕ) → Option Flow → Type 0
Stays base = Leaves (IsOnStack base)

pub update_behind :
    (base g : ℕ → ℕ) (q v i : ℕ) → q < 256 → 256 ≤ i → g i ≡ base i → update g q v i ≡ base i
update_behind base g q v i h k e = ground arith

module _ (base : ℕ → ℕ) (m : Machine) (c : IsOnStack base m) where
  pub popped-IsOnStack : (k : ℕ) → IsOnStack base (popped k m)
  popped-IsOnStack k = record { ofs = omega arith; behind = c.behind }

  stored-IsOnStack : (v : ℕ) → IsOnStack base (stored_top v m)
  stored-IsOnStack v = record {
    ofs = c.ofs;
    behind = λ i h. update_behind base m.op_stack m.op_stack_ofs v i c.ofs h (c.behind i h);
  }

  pub pushed-IsOnStack : (v : ℕ) → IsOnStack base (past_operand (pushed v m))
  pushed-IsOnStack v = record {
    ofs = omega arith;
    behind =
        λ i h. update_behind base m.op_stack (up m.op_stack_ofs) v i (omega arith) h (c.behind i h);
  }

  replaced-IsOnStack : (v : ℕ) → IsOnStack base (replaced v m)
  replaced-IsOnStack v = record {
    ofs = c.ofs;
    behind = λ i h. update_behind base m.op_stack m.op_stack_ofs v i c.ofs h (c.behind i h);
  }

  pub unary-Stays : (r : Option ℕ) → Stays base (unary r m)
  unfolding unary
  unary-Stays none = tt
  unary-Stays (some v) = record { ofs = c.ofs; behind = (stored-IsOnStack v).behind }

  pub branch-Stays : (b : Bool) → Stays base (branch b m)
  unfolding branch
  branch-Stays false = record { ofs = omega arith; behind = c.behind }
  branch-Stays true = elim (Option-cases (get m.code_image m.program_counter)) [
    | inl e ↦ rw e tt
    | inr (v, e) ↦ rw e record { ofs = omega arith; behind = c.behind }
  ]

  pub loaded-Stays : (r : Option ℕ) → Stays base (loaded r m)
  loaded-Stays none = tt
  loaded-Stays (some v) = replaced-IsOnStack v

  pub written-Stays : (r : Option Block) (k : ℕ) → Stays base (written r k m)
  written-Stays none k = tt
  written-Stays (some image) k = record { ofs = omega arith; behind = c.behind }

pub binary-Stays :
    (base : ℕ → ℕ) (m : Machine) → IsOnStack base m → (r : Option ℕ) → Stays base (binary r m)
unfolding binary
binary-Stays base m c r = unary-Stays base (popped 1 m) (popped-IsOnStack base m c 1) r

-- ===== src/Interp/Cache.antt =====
-- The registers `r0` and `r1` and the two topmost words of the op stack: `DISPATCH` and `DISPATCH2`
-- of `VM_CallInterpreted`.
use q3vm.Base.{
  ℕ, ◌<◌, ◌≡◌, refl, Option, none, some, Bool, arith, Option-cases, inl, inr, ◌>>=◌, zero, suc,
}
use q3vm.Interp.Control.{exec, exec_call, exec_enter, exec_leave, exec_jump, exec_const, exec_local}
use q3vm.Interp.Exec.{masked, exec_memory, loaded, written}
use q3vm.Interp.Machine.{
  SystemCall, FloatUnit, Machine, Flow, next, reload, branch, unary, binary, down, past_operand,
}
use q3vm.Interp.Rules.{exec_branch-rule, WhenNext}
use q3vm.Interp.Run.{step, run}
use q3vm.Memory.{Block, get, read2, read4, write1, write2, write4}
use q3vm.Opcode.{
  dispatch, Opcode, undef, ignore, break, enter, leave, call, push, pop, const, local, jump, load1,
  load2, load4, store1, store2, store4, arg, block_copy,
}
use mathlib.Core.Path.{subst}

pub record IsCached (m : Machine) : Type 0 where
  pub top : m.r0 ≡ m.op_stack m.op_stack_ofs
  pub below : m.r1 ≡ m.op_stack (down 1 m.op_stack_ofs)
  pub in_stack : m.op_stack_ofs < 256

abbrev Keeps : Option Flow → Type 0
Keeps = WhenNext IsCached

branch-Keeps : (m : Machine) (b : Bool) → Keeps (branch b m)
unfolding branch
branch-Keeps m b = ground arith

unary-Keeps : (m : Machine) → m.op_stack_ofs < 256 → (r : Option ℕ) → Keeps (unary r m)
unfolding unary
unary-Keeps m h r = ground arith

binary-Keeps : (m : Machine) (r : Option ℕ) → Keeps (binary r m)
unfolding binary
binary-Keeps m r = ground arith

loaded-Keeps : (m : Machine) → IsCached m → (r : Option ℕ) → Keeps (loaded r m)
loaded-Keeps m c r = ground arith

written-Keeps : (m : Machine) (k : ℕ) (r : Option Block) → Keeps (written r k m)
written-Keeps m k r = ground arith

exec_memory-Keeps :
    (f : FloatUnit) (op : Opcode) (m : Machine) → IsCached m → Keeps (exec_memory f op m)
unfolding exec_memory
exec_memory-Keeps f load4 m c = loaded-Keeps m c (read4 m.image (masked m.r0 m))
exec_memory-Keeps f load2 m c = loaded-Keeps m c (read2 m.image (masked m.r0 m))
exec_memory-Keeps f load1 m c = loaded-Keeps m c (get m.image (masked m.r0 m))
exec_memory-Keeps f store4 m c = written-Keeps m 2 (write4 m.image (masked m.r1 m) m.r0)
exec_memory-Keeps f store2 m c = written-Keeps m 2 (write2 m.image (masked m.r1 m) m.r0)
exec_memory-Keeps f store1 m c = written-Keeps m 2 (write1 m.image (masked m.r1 m) m.r0)
exec_memory-Keeps f arg m c = ground arith
exec_memory-Keeps f block_copy m c = ground arith
exec_memory-Keeps f op m c =
    exec_branch-rule f m Keeps (branch-Keeps m) (unary-Keeps m c.in_stack) (binary-Keeps m) tt op

exec_call-Keeps : (system : SystemCall) (m : Machine) → Keeps (exec_call system m)
unfolding exec_call
exec_call-Keeps system m = ground arith

exec_leave-Keeps : (m : Machine) → IsCached m → Keeps (exec_leave m)
unfolding exec_leave
exec_leave-Keeps m c = ground arith

exec-Keeps :
    (system : SystemCall) (f : FloatUnit) (op : Opcode) (m : Machine)
    → IsCached m
    → Keeps (exec system f op m)
unfolding exec exec_const exec_local exec_jump exec_enter
exec-Keeps system f undef m c = tt
exec-Keeps system f ignore m c = c
exec-Keeps system f break m c = record { top = c.top; below = c.below; in_stack = c.in_stack }
exec-Keeps system f const m c = ground arith
exec-Keeps system f local m c = ground arith
exec-Keeps system f call m c = exec_call-Keeps system m
exec-Keeps system f push m c = ground arith
exec-Keeps system f pop m c = ground arith
exec-Keeps system f enter m c = ground arith
exec-Keeps system f leave m c = exec_leave-Keeps m c
exec-Keeps system f jump m c = ground arith
exec-Keeps system f op m c = exec_memory-Keeps f op m c

step-Keeps :
    (system : SystemCall) (f : FloatUnit) (m : Machine) → IsCached m → Keeps (step system f m)
unfolding step
step-Keeps system f m c = elim (Option-cases (get m.code_image m.program_counter)) [
  | inl none_is ↦ rw none_is tt
  | inr (opcode, some_is) ↦ rw some_is (
      exec-Keeps system f (dispatch opcode) (past_operand m)
        (record { top = c.top; below = c.below; in_stack = c.in_stack }))
]

-- One round of the loop keeps the registers `r0` and `r1` equal to the two topmost words of the op
-- stack, and the offset inside the stack, whatever the op code is and also where the reload is
-- skipped.
step-IsCached :
    (system : SystemCall) (f : FloatUnit) (m : Machine) {m' : Machine}
    → IsCached m
    → step system f m ≡ some (next m')
    → IsCached m'
step-IsCached system f m c e = subst Keeps e (step-Keeps system f m c)

pub reload-IsCached : (m : Machine) → m.op_stack_ofs < 256 → IsCached (reload m)
reload-IsCached m h = record { top = refl; below = refl; in_stack = h }

reload_same : (m : Machine) → IsCached m → reload m ≡ m
reload_same m c = ground (arith, c.top, c.below)

-- The interpreter without the registers: both words are loaded before every op code.
unfoldable pub run_reloading : SystemCall → FloatUnit → ℕ → Machine → Option Flow
run_reloading system f zero m = some (next m)
run_reloading system f (suc fuel) m = do
  flow ← step system f (reload m)
  elim flow [
    | next m' ↦ run_reloading system f fuel m'
    | Flow.done m' ↦ some (Flow.done m')
    | Flow.stopped m' ↦ some (Flow.stopped m')
  ]

-- Started with the two topmost words in the registers, the interpreter does what the one does that
-- loads them before every op code, for every number of rounds.
pub run-eq-run_reloading :
    (system : SystemCall) (f : FloatUnit) (fuel : ℕ) (m : Machine)
    → IsCached m
    → run system f fuel m ≡ run_reloading system f fuel m
unfolding run run_reloading
run-eq-run_reloading system f zero m c = refl
run-eq-run_reloading system f (suc fuel) m c = rw (reload_same m c) (
    after (step system f m) (step-Keeps system f m c)
      (λ m' c'. run-eq-run_reloading system f fuel m' c'))
  where
    after :
        (flow : Option Flow)
        → Keeps flow
        → ((m' : Machine) → IsCached m' → run system f fuel m' ≡ run_reloading system f fuel m')
        → (flow >>= λ x. elim x [
          | next m' ↦ run system f fuel m'
          | Flow.done m' ↦ some (Flow.done m')
          | Flow.stopped m' ↦ some (Flow.stopped m')
        ])
          ≡ (flow >>= λ x. elim x [
            | next m' ↦ run_reloading system f fuel m'
            | Flow.done m' ↦ some (Flow.done m')
            | Flow.stopped m' ↦ some (Flow.stopped m')
          ])
    after none k ih = refl
    after (some (next m')) k ih = ih m' k
    after (some (Flow.done m')) k ih = refl
    after (some (Flow.stopped m')) k ih = refl

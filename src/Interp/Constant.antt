-- ===== src/Interp/Constant.antt =====
-- A whole `VM_Call` of a function that returns a constant.
use q3vm.Base.{
  ◌-◌, ◌+◌, Option, ap, length, List, suc, false, ℕ, ◌^◌, ◌≤◌, ◌<◌, ◌≡◌, refl, some, arith,
}
use q3vm.Base.Word.{slt, add32, minus_one, sub32}
use q3vm.Interp.Control.{leave_to, exec_enter, exec_leave, exec_const, exec}
use q3vm.Interp.Entry.{entry_image-frame, AllWords, HasEntryRoom}
use q3vm.Interp.Machine.{next, done, reload, pushed, Machine, FloatUnit, SystemCall}
use q3vm.Interp.Run.{
  Outcome, entry_image, deeper, finish, entry_machine, call_interpreted, returned, vm_call,
  max_vmmain_args, entry_start, step, run, entry_frame,
}
use q3vm.Memory.{read4, Block, get}
use q3vm.Opcode.{opcode_of, dispatch}
use q3vm.State.{State}

-- ENTER n; CONST c; LEAVE n, at the start of the expanded code.
pub record IsConstant (code : Block) (n c : ℕ) : Type 0 where
  pub size : 6 ≤ code.size
  pub enter_op : code.cell 0 ≡ 3
  pub enter_size : code.cell 1 ≡ n
  pub const_op : code.cell 2 ≡ 8
  pub const_value : code.cell 3 ≡ c
  pub leave_op : code.cell 4 ≡ 4
  pub leave_size : code.cell 5 ≡ n

level_back : (level : ℕ) → level + 1 - 1 ≡ level
level_back level = omega arith

pub get-some : (m : Block) (i v : ℕ) → i < m.size → m.cell i ≡ v → get m i ≡ some v
unfolding get
get-some m i v h e = ground arith

-- The machine after the call: the data section is new, and `currentlyInterpreting` is cleared.
abbrev pub returned_state : Block → State → State
returned_state image s = record s {
  vm = record s.vm { data_base = some image; currently_interpreting = false };
}

module _ (system : SystemCall) (f : FloatUnit) (junk : ℕ → ℕ) (s : State) (code image : Block)
    (n c : ℕ) (is : IsConstant code n c) (small : n < 2 ^ 32)
    (frame : read4 image (sub32 s.vm.program_stack entry_frame) ≡ some minus_one) where
  abbrev start : Machine
  start = entry_start junk s code image

  abbrev entered : Machine
  entered =
      reload (record start { program_counter = 2; program_stack = sub32 start.program_stack n })

  abbrev loaded_constant : Machine
  loaded_constant = record (pushed c entered) { program_counter = 4 }

  abbrev left : Machine
  left = record loaded_constant { program_counter = minus_one; program_stack = start.program_stack }

  enter_step : step system f start ≡ some (next entered)
  unfolding step exec exec_enter dispatch opcode_of
  enter_step =
      rw
        (
          get-some code 0 3 (omega (arith, is.size)) is.enter_op,
          get-some code 1 n (omega (arith, is.size)) is.enter_size,
        )
        refl

  const_step : step system f entered ≡ some (next loaded_constant)
  unfolding step exec exec_const dispatch opcode_of
  const_step =
      rw
        (
          get-some code 2 8 (omega (arith, is.size)) is.const_op,
          get-some code 3 c (omega (arith, is.size)) is.const_value,
        )
        refl

  leave_step : step system f loaded_constant ≡ some (done left)
  unfolding step exec exec_leave leave_to dispatch opcode_of
  leave_step =
      let back : add32 (sub32 start.program_stack n) n ≡ start.program_stack =
        omega (arith, small) in
      rw
        (
          get-some code 4 4 (omega (arith, is.size)) is.leave_op,
          get-some code 5 n (omega (arith, is.size)) is.leave_size,
          back,
          frame,
        )
        refl

  run_constant : (fuel : ℕ) → run system f (suc (suc (suc fuel))) start ≡ some (done left)
  unfolding run
  run_constant fuel = rw (enter_step, const_step, leave_step) refl

  -- `opStack[1]` holds the constant, and `opStack[0]` is untouched.
  finish_constant :
      (top : ℕ)
      → finish top left
        ≡ returned c (record (returned_state image s) {
          vm = record (returned_state image s).vm { program_stack = top };
        })
  unfolding finish
  finish_constant top = refl

  call_constant :
      (fuel : ℕ) (args : List ℕ)
      → entry_machine junk args s ≡ some start
      → call_interpreted system f (suc (suc (suc fuel))) junk args s
        ≡ some (returned c (returned_state image s))
  unfolding call_interpreted
  call_constant fuel args e =
      rw (e, run_constant fuel) (ap some (finish_constant s.vm.program_stack))

-- On a loaded machine with room for the frame of `vmMain`, `VM_Call` of a function that returns a
-- constant returns that constant after three op codes, whatever its thirteen arguments and the size
-- of its own frame, and reports no error. The data section is new, with the same size;
-- `currentlyInterpreting` is cleared, also for a call from within another one; the program stack,
-- the call level and everything else of the machine are as before.
pub vm_call_constant :
    (system : SystemCall) (f : FloatUnit) (fuel : ℕ) (junk : ℕ → ℕ) (args : List ℕ) (s : State)
    (code base : Block) (n c : ℕ)
    → IsConstant code n c
    → n < 2 ^ 32
    → s.vm.code_base ≡ some code
    → s.vm.data_base ≡ some base
    → slt s.vm.code_length 1 ≡ false
    → HasEntryRoom s base
    → length args ≡ max_vmmain_args
    → AllWords args
    → (image : Block) × (vm_call system f (suc (suc (suc fuel))) junk args s
        ≡ some (returned c (returned_state image s)))
      × (image.size ≡ base.size)
vm_call_constant system f fuel junk args s code base n c is small ec eb loaded room count all =
    let top = sub32 s.vm.program_stack entry_frame in
    let (image, run, size, r1, r2, r3) =
      entry_image-frame args top base (omega (arith, room.above, room.within, room.word))
        (omega (arith, room.above, room.word)) count all in
    (image, called image run r1, size)
  where
    called :
        (image : Block)
        → entry_image args (sub32 s.vm.program_stack entry_frame) base ≡ some image
        → read4 image (sub32 s.vm.program_stack entry_frame) ≡ some minus_one
        → vm_call system f (suc (suc (suc fuel))) junk args s
          ≡ some (returned c (returned_state image s))
    called image run frame =
        let e : entry_machine junk args (deeper s) ≡ some (entry_start junk (deeper s) code image) =
          unfold entry_machine in rw (eb, ec, run) refl in
        unfold vm_call in
        rw
          (loaded, call_constant system f junk (deeper s) code image n c is small frame fuel args e)
          (ap {B = Option Outcome}
            (λ (level : ℕ). some (
              returned c (record (returned_state image s) {
                vm = record (returned_state image s).vm { call_level = level };
              })))
            (level_back s.vm.call_level))

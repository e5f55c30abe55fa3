-- ===== src/Interp/Escape.antt =====
-- OP_ENTER and OP_CALL of `VM_CallInterpreted`, which use the program stack without the mask.
use q3vm.Base.{ℕ, ◌+◌, ◌≤◌, ◌<◌, ◌≡◌, refl, none, some, arith}
use q3vm.Base.Word.{sub32}
use q3vm.Interp.Constant.{get-some}
use q3vm.Interp.Control.{exec_call, exec_enter, exec}
use q3vm.Interp.Machine.{next, reload, FloatUnit, SystemCall, Machine}
use q3vm.Interp.Run.{step, run}
use q3vm.Memory.{write4}
use q3vm.Opcode.{opcode_of, dispatch}

-- ENTER n; CALL, from the program counter on.
pub record IsEnterCall (m : Machine) (n : ℕ) : Type 0 where
  pub size : m.program_counter + 3 ≤ m.code_image.size
  pub enter_op : m.code_image.cell m.program_counter ≡ 3
  pub enter_size : m.code_image.cell (m.program_counter + 1) ≡ n
  pub call_op : m.code_image.cell (m.program_counter + 1 + 1) ≡ 5

module _ (system : SystemCall) (f : FloatUnit) (m : Machine) (n : ℕ) (is : IsEnterCall m n) where
  abbrev entered : Machine
  entered = reload (record m {
    program_counter = m.program_counter + 1 + 1;
    program_stack = sub32 m.program_stack n;
  })

  enter_step : step system f m ≡ some (next entered)
  unfolding step exec exec_enter dispatch opcode_of
  enter_step =
      rw
        (
          get-some m.code_image m.program_counter 3 (omega (arith, is.size)) is.enter_op,
          get-some m.code_image (m.program_counter + 1) n (omega (arith, is.size)) is.enter_size,
        )
        refl

  call_step : m.image.size < sub32 m.program_stack n + 4 → step system f entered ≡ none
  unfolding step exec exec_call write4 dispatch opcode_of
  call_step outside_image =
      rw (get-some m.code_image (m.program_counter + 1 + 1) 5 (omega (arith, is.size)) is.call_op)
        (ground (arith, outside_image))

  -- Byte code that enters a frame which moves the program stack past the end of the data section,
  -- and then calls anything, makes the interpreter write outside the data section, whatever the
  -- mask is.
  pub run-escapes : m.image.size < sub32 m.program_stack n + 4 → run system f 2 m ≡ none
  unfolding run
  run-escapes outside_image = rw (enter_step, call_step outside_image) refl

-- ===== src/Interp/OpStack/Codes.antt =====
-- The op codes of `VM_CallInterpreted` and the 256 words of `opStack`.
use q3vm.Base.{
  ℕ, ◌+◌, Option, none, some, true, false, arith, Option-cases, inl, inr, ◌>>=◌, if◌then◌else◌,
}
use q3vm.Base.Word.{u32, sext64, add32, sub32, minus_one, is_neg}
use q3vm.Access.{block_copy as vm_block_copy}
use q3vm.Interp.Control.{
  exec, exec_call, call_host, after_host, call_function, exec_enter, exec_leave, exec_jump,
  exec_const, exec_local, entering_host, read_words, max_vmsyscall_args, leave_to,
}
use q3vm.Interp.Exec.{exec_memory, exec_block_copy, exec_arg}
use q3vm.Interp.Machine.{
  SystemCall, FloatUnit, Machine, popped, past_operand, up, outside, dispatch_reloaded,
}
use q3vm.Interp.OpStack.{
  IsOnStack, Stays, update_behind, pushed-IsOnStack, unary-Stays, branch-Stays, loaded-Stays,
  written-Stays, binary-Stays,
}
use q3vm.Interp.Rules.{exec_branch-rule, Leaves}
use q3vm.Memory.{Block, read4, get, write4}
use q3vm.Opcode.{
  Opcode, undef, ignore, break, enter, leave, call, push, pop, const, local, jump, load1, load2,
  load4, store1, store2, store4, arg, block_copy,
}
use q3vm.State.{State}

module _ (base : ℕ → ℕ) (m : Machine) (c : IsOnStack base m) where
  exec_arg-Stays : Stays base (exec_arg m)
  unfolding exec_arg
  exec_arg-Stays = elim (Option-cases (get m.code_image m.program_counter)) [
    | inl e ↦ rw e tt
    | inr (v, e) ↦
        rw e (written-Stays base (past_operand m) (record { ofs = c.ofs; behind = c.behind }) _ 1)
  ]

  exec_block_copy-Stays : Stays base (exec_block_copy m)
  unfolding exec_block_copy
  exec_block_copy-Stays = elim (Option-cases (get m.code_image m.program_counter)) [
    | inl e ↦ rw e tt
    | inr (n, e) ↦ rw e (copied (vm_block_copy m.r1 m.r0 (sext64 n) (outside m)))
  ]
    where
      based :
          (s : State) (data_ : Option Block)
          → Stays base (
              data_ >>= λ image.
              dispatch_reloaded
                (popped 2 (past_operand (record m { vm = s.vm; world = s.world; image = image }))))
      based s none = tt
      based s (some image) = record { ofs = omega arith; behind = c.behind }

      copied :
          (r : Option State)
          → Stays base (
              r >>= λ s. s.vm.data_base >>= λ image.
              dispatch_reloaded
                (popped 2 (past_operand (record m { vm = s.vm; world = s.world; image = image }))))
      copied none = tt
      copied (some s) = based s s.vm.data_base

  exec_memory-Stays : (f : FloatUnit) (op : Opcode) → Stays base (exec_memory f op m)
  unfolding exec_memory
  exec_memory-Stays f load4 = loaded-Stays base m c _
  exec_memory-Stays f load2 = loaded-Stays base m c _
  exec_memory-Stays f load1 = loaded-Stays base m c _
  exec_memory-Stays f store4 = written-Stays base m c _ 2
  exec_memory-Stays f store2 = written-Stays base m c _ 2
  exec_memory-Stays f store1 = written-Stays base m c _ 2
  exec_memory-Stays f arg = exec_arg-Stays
  exec_memory-Stays f block_copy = exec_block_copy-Stays
  exec_memory-Stays f op =
      exec_branch-rule f m (Stays base) (branch-Stays base m c) (unary-Stays base m c)
        (binary-Stays base m c) (record { ofs = c.ofs; behind = c.behind }) op

  call_function-Stays : (target : ℕ) → Stays base (call_function target m)
  unfolding call_function
  call_function-Stays target = ground (arith, c.ofs, c.behind)

  exec_enter-Stays : Stays base (exec_enter m)
  unfolding exec_enter
  exec_enter-Stays = ground (arith, c.ofs, c.behind)

  leave_to-Stays : (pc : ℕ) → Stays base (leave_to pc m)
  unfolding leave_to
  leave_to-Stays pc = ground (arith, c.ofs, c.behind)

  exec_jump-Stays : Stays base (exec_jump m)
  unfolding exec_jump
  exec_jump-Stays = ground (arith, c.ofs, c.behind)

  exec_const-Stays : Stays base (exec_const m)
  unfolding exec_const
  exec_const-Stays = elim (Option-cases (get m.code_image m.program_counter)) [
    | inl e ↦ rw e tt
    | inr (v, e) ↦ rw e (pushed-IsOnStack base m c v)
  ]

  exec_local-Stays : Stays base (exec_local m)
  unfolding exec_local
  exec_local-Stays = elim (Option-cases (get m.code_image m.program_counter)) [
    | inl e ↦ rw e tt
    | inr (v, e) ↦ rw e (pushed-IsOnStack base m c (add32 v m.program_stack))
  ]

  after_host-Stays : (back : State × ℕ) → Stays base (after_host m back)
  unfolding after_host
  after_host-Stays (s, r) = elim (Option-cases s.vm.data_base) [
    | inl e ↦ rw e tt
    | inr (image, e) ↦ rw e (elim (Option-cases (read4 image m.program_stack)) [
      | inl e' ↦ rw e' tt
      | inr (pc, e') ↦ rw e' (record {
        ofs = omega arith;
        behind = λ i h.
            update_behind base m.op_stack (up m.op_stack_ofs) (u32 r) i (omega arith) h
              (c.behind i h);
      })
    ])
  ]

  call_host-Stays : (system : SystemCall) (target : ℕ) → Stays base (call_host system target m)
  unfolding call_host
  call_host-Stays system target =
      elim (Option-cases (write4 m.image (add32 m.program_stack 4) (sub32 minus_one target))) [
        | inl e ↦ rw e tt
        | inr (image, e) ↦
            elim (Option-cases (read_words max_vmsyscall_args image (m.program_stack + 4))) [
              | inl e' ↦ rw (e, e') tt
              | inr (args, e') ↦ elim (Option-cases (system (entering_host image m) args)) [
                | inl e'' ↦ rw (e, e', e'') tt
                | inr (back, e'') ↦ rw (e, e', e'') (after_host-Stays back)
              ]
            ]
      ]

module _ (base : ℕ → ℕ) where
  exec_leave-Stays : (m : Machine) → IsOnStack base m → Stays base (exec_leave m)
  unfolding exec_leave
  exec_leave-Stays m c = elim (Option-cases (get m.code_image m.program_counter)) [
    | inl e ↦ rw e tt
    | inr (v, e) ↦ rw e (elim (Option-cases (read4 m.image (add32 m.program_stack v))) [
      | inl e' ↦ rw e' tt
      | inr (pc, e') ↦ rw e' (
          leave_to-Stays base
            (record m { program_stack = add32 m.program_stack v; program_counter = pc })
            (record { ofs = c.ofs; behind = c.behind }) pc)
    ])
  ]

  exec_call-Stays :
      (system : SystemCall) (m : Machine) → IsOnStack base m → Stays base (exec_call system m)
  unfolding exec_call
  exec_call-Stays system m c =
      elim (Option-cases (write4 m.image m.program_stack m.program_counter)) [
        | inl e ↦ rw e tt
        | inr (image, e) ↦
            let saved = popped 1 (record m { image = image }) in
            let kept : IsOnStack base saved = record { ofs = omega arith; behind = c.behind } in
            rw e
              (elim (is_neg m.r0)
                as (λ b.
                  Stays base
                    (if b then call_host system m.r0 saved else call_function m.r0 saved)) [
                      | true ↦ call_host-Stays base saved kept system m.r0
                      | false ↦ call_function-Stays base saved kept m.r0
                    ])
      ]

  -- The offset into the op stack stays in its 256 words, and no word behind them is written,
  -- whatever the op code.
  pub exec-IsOnStack :
      (system : SystemCall) (f : FloatUnit) (op : Opcode) (m : Machine)
      → IsOnStack base m
      → Leaves (IsOnStack base) (exec system f op m)
  unfolding exec
  exec-IsOnStack system f undef m c = record { ofs = c.ofs; behind = c.behind }
  exec-IsOnStack system f ignore m c = c
  exec-IsOnStack system f break m c = record { ofs = c.ofs; behind = c.behind }
  exec-IsOnStack system f const m c = exec_const-Stays base m c
  exec-IsOnStack system f local m c = exec_local-Stays base m c
  exec-IsOnStack system f call m c = exec_call-Stays system m c
  exec-IsOnStack system f push m c = record { ofs = omega arith; behind = c.behind }
  exec-IsOnStack system f pop m c = record { ofs = omega arith; behind = c.behind }
  exec-IsOnStack system f enter m c = exec_enter-Stays base m c
  exec-IsOnStack system f leave m c = exec_leave-Stays m c
  exec-IsOnStack system f jump m c = exec_jump-Stays base m c
  exec-IsOnStack system f op m c = exec_memory-Stays base m c f op

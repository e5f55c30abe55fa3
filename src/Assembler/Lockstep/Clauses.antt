-- ===== src/Assembler/Lockstep/Clauses.antt =====
-- Every clause of `AssembleLine` in q3asm/q3asm.c keeps the passes in step.
use q3vm.Base.{ℕ, zero, suc, ◌%◌, ◌^◌, arith, Bool, true, false, ◌==◌, if◌then◌else◌}
use q3vm.Base.Word.{is_neg, add32, sle}
use q3vm.Assembler.Directives.{
  aligned, round4, label_value, shift_byte, assemble_pop, emit_bytes, assemble_proc, assemble_equ,
  assemble_local, assemble_endproc, assemble_skip, choose_segment, assemble_align, assemble_label,
  assemble_address, assemble_byte, frame_size, emit_op, assemble_ret, assemble_call, assemble_arg,
}
use q3vm.Assembler.Lockstep.{then-Same, then-Any, Any, Lock}
use q3vm.Assembler.Lockstep.Basic.{
  set_used-Lock, parse_value-Lock, current_name-Lock, parse-Lock, pure-Any, emit_int-Lock, gets-Any,
  count_instruction-Lock, emit_byte-Lock, code_error-Lock,
}
use q3vm.Assembler.Lockstep.Quiet.{
  emit_target-Lock, define_symbol-Lock, parse_expression-Lock, hack_to_segment-Lock, modify-Lock,
}
use q3vm.Assembler.Opcodes.{number}
use q3vm.Assembler.Run.{gets, ◌>>=◌, modify}
use q3vm.Assembler.State.{dataseg, litseg, emit_int, codeseg, code_error, Action, Asm}
use q3vm.Assembler.Text.{atoi_no_cap}
use q3vm.Opcode.{enter, local, push, pop, call, arg, Opcode}

-- A test that may come out differently in the two passes reports an error in one of them.
pub if_error-Lock :
    (c d : Bool) {k l : Action (Unit {0})}
    → Lock Any k l
    → Lock Any (if c then code_error else k) (if d then code_error else l)
unfolding code_error
if_error-Lock true true h = code_error-Lock
if_error-Lock false false h = h
if_error-Lock true false h = record {
  left = code_error-Lock.left;
  right = h.right;
  together = λ s t a b s' t' r e f i j. ground arith;
}
if_error-Lock false true h = record {
  left = h.left;
  right = code_error-Lock.right;
  together = λ s t a b s' t' r e f i j. ground arith;
}

pub if-Lock :
    {A : Type 0} {V : A → A → Type 0} (c : Bool) {m n k l : Action A}
    → Lock V m n
    → Lock V k l
    → Lock V (if c then m else k) (if c then n else l)
if-Lock true h i = h
if-Lock false h i = i

frame_end-Lock :
    Lock Any (gets frame_size >>= emit_int codeseg) (gets frame_size >>= emit_int codeseg)
frame_end-Lock = then-Any (gets-Any frame_size frame_size) (λ a b. emit_int-Lock codeseg a b)

-- The numbers of the frame may differ.
arg_offset-Lock :
    (a b : ℕ)
    → Lock Any
        (modify (λ s. record s { current_arg_offset = a }))
        (modify (λ s. record s { current_arg_offset = b }))
arg_offset-Lock a b =
    modify-Lock (λ s. record s { current_arg_offset = a })
      (λ s. record s { current_arg_offset = b }) (λ s. ground arith) (λ s. ground arith)

locals-Lock :
    (a b : ℕ)
    → Lock Any
        (modify (λ s. record s { current_locals = a }))
        (modify (λ s. record s { current_locals = b }))
locals-Lock a b =
    modify-Lock (λ s. record s { current_locals = a }) (λ s. record s { current_locals = b })
      (λ s. ground arith) (λ s. ground arith)

args-Lock :
    (a b : ℕ)
    → Lock Any
        (modify (λ s. record s { current_args = a }))
        (modify (λ s. record s { current_args = b }))
args-Lock a b =
    modify-Lock (λ s. record s { current_args = a }) (λ s. record s { current_args = b })
      (λ s. ground arith) (λ s. ground arith)

pub emit_op-Lock : (op : Opcode) → Lock Any (emit_op op) (emit_op op)
emit_op-Lock op = emit_byte-Lock codeseg (number op) (number op)

pub assemble_call-Lock : Lock Any assemble_call assemble_call
unfolding assemble_call
assemble_call-Lock =
    then-Any (emit_op-Lock call) λ _ _. then-Any count_instruction-Lock λ _ _. arg_offset-Lock 0 0

pub assemble_ret-Lock : Lock Any assemble_ret assemble_ret
unfolding assemble_ret
assemble_ret-Lock =
    then-Any (emit_op-Lock Opcode.leave)
      λ _ _. then-Any count_instruction-Lock λ _ _. frame_end-Lock

pub assemble_arg-Lock : Lock Any assemble_arg assemble_arg
unfolding assemble_arg
assemble_arg-Lock = then-Any (emit_op-Lock arg) λ _ _. then-Any count_instruction-Lock λ _ _.
    then-Any (gets-Any (λ s. s.current_arg_offset) (λ s. s.current_arg_offset)) λ a b.
      if_error-Lock (sle 256 (add32 8 a)) (sle 256 (add32 8 b)) (
        then-Any (emit_byte-Lock codeseg (add32 8 a) (add32 8 b))
          λ _ _. arg_offset-Lock (add32 a 4) (add32 b 4))

pub assemble_pop-Lock : Lock Any assemble_pop assemble_pop
unfolding assemble_pop
assemble_pop-Lock = then-Any (emit_op-Lock pop) λ _ _. count_instruction-Lock

pub assemble_local-Lock :
    (distance : Asm → ℕ) → Lock Any (assemble_local distance) (assemble_local distance)
unfolding assemble_local
assemble_local-Lock distance = then-Any count_instruction-Lock λ _ _. then-Same parse-Lock λ _.
    then-Any parse_expression-Lock λ v w.
      then-Any (gets-Any distance distance)
        λ a b. then-Any (emit_op-Lock local) λ _ _. emit_int-Lock codeseg (add32 a v) (add32 b w)

pub assemble_proc-Lock : Lock Any assemble_proc assemble_proc
unfolding assemble_proc
assemble_proc-Lock = then-Same parse-Lock λ name.
    then-Any (gets-Any (λ s. s.instruction_count) (λ s. s.instruction_count)) λ a b.
      then-Any (define_symbol-Lock name a b) λ _ _. then-Same parse_value-Lock λ locals.
        then-Any (locals-Lock (round4 locals) (round4 locals)) λ _ _.
          then-Same parse_value-Lock λ args. then-Any (args-Lock (round4 args) (round4 args)) λ _ _.
            then-Any (gets-Any frame_size frame_size) λ m n.
              then-Any (if_error-Lock (sle 32767 m) (sle 32767 n) (pure-Any tt tt)) λ _ _.
                then-Any count_instruction-Lock
                  λ _ _. then-Any (emit_op-Lock enter) λ _ _. emit_int-Lock codeseg m n

pub assemble_endproc-Lock : Lock Any assemble_endproc assemble_endproc
unfolding assemble_endproc
assemble_endproc-Lock = then-Same parse-Lock λ _. then-Same parse_value-Lock λ _.
    then-Same parse_value-Lock λ _. then-Any count_instruction-Lock λ _ _.
      then-Any (emit_op-Lock push) λ _ _.
        then-Any count_instruction-Lock
          λ _ _. then-Any (emit_op-Lock Opcode.leave) λ _ _. frame_end-Lock

pub assemble_address-Lock : Lock Any assemble_address assemble_address
unfolding assemble_address
assemble_address-Lock = then-Same parse-Lock λ _. then-Any parse_expression-Lock λ v w.
    then-Any (hack_to_segment-Lock dataseg) λ _ _.
      then-Same current_name-Lock
        λ name. then-Any (emit_int-Lock name v w) λ _ _. emit_target-Lock v w

pub assemble_equ-Lock : Lock Any assemble_equ assemble_equ
unfolding assemble_equ
assemble_equ-Lock = then-Same parse-Lock λ name.
    then-Same parse-Lock λ value. define_symbol-Lock name (atoi_no_cap value) (atoi_no_cap value)

pub assemble_align-Lock : Lock Any assemble_align assemble_align
unfolding assemble_align
assemble_align-Lock =
    then-Same parse_value-Lock
      λ v. then-Same current_name-Lock λ name. set_used-Lock (aligned v) name

pub assemble_skip-Lock : Lock Any assemble_skip assemble_skip
unfolding assemble_skip
assemble_skip-Lock =
    then-Same parse_value-Lock
      λ v. then-Same current_name-Lock λ name. set_used-Lock (λ used. add32 used v) name

emit_bytes-Lock : (n v : ℕ) → Lock Any (emit_bytes n v) (emit_bytes n v)
unfolding emit_bytes
emit_bytes-Lock zero v = pure-Any tt tt
emit_bytes-Lock (suc n) v = then-Same current_name-Lock λ name.
    then-Any (emit_byte-Lock name (v % 2 ^ 8) (v % 2 ^ 8)) λ _ _. emit_bytes-Lock n (shift_byte v)

choose_segment-Lock : (v : ℕ) → Lock Any (choose_segment v) (choose_segment v)
unfolding choose_segment
choose_segment-Lock v = if-Lock (v == 1) (hack_to_segment-Lock litseg) (
    if-Lock (v == 4) (hack_to_segment-Lock dataseg)
      (if-Lock (v == 2) code_error-Lock (pure-Any tt tt)))

pub assemble_byte-Lock : Lock Any assemble_byte assemble_byte
unfolding assemble_byte
assemble_byte-Lock = then-Same parse_value-Lock λ v.
    then-Same parse_value-Lock
      λ w. then-Any (choose_segment-Lock v) λ _ _. emit_bytes-Lock (if is_neg v then 0 else v) w

pub assemble_label-Lock : Lock Any assemble_label assemble_label
unfolding assemble_label
assemble_label-Lock = then-Same parse-Lock λ label. then-Same current_name-Lock λ name.
    then-Any (gets-Any (label_value name) (label_value name)) λ a b. define_symbol-Lock label a b

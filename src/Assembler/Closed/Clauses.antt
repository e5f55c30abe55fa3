-- ===== src/Assembler/Closed/Clauses.antt =====
-- Every clause of `AssembleLine` in q3asm/q3asm.c has a property that its parts have.
use q3vm.Base.{ℕ, zero, suc, ◌%◌, ◌^◌, Bool, ◌==◌, if◌then◌else◌, List, length}
use q3vm.Base.Word.{sle, add32, is_neg}
use q3vm.Assembler.Closed.{choice, Closed}
use q3vm.Assembler.Directives.{
  round4, label_value, aligned, shift_byte, emit_op, frame_size, assemble_arg, assemble_endproc,
  assemble_pop, assemble_equ, assemble_proc, assemble_align, choose_segment, emit_bytes,
  assemble_local, assemble_label, assemble_address, assemble_skip, assemble_call, assemble_ret,
  assemble_byte,
}
use q3vm.Assembler.Expression.{starts_number, term_value, parse_expression}
use q3vm.Assembler.Opcodes.{number}
use q3vm.Assembler.Run.{◌>>=◌, pure, gets}
use q3vm.Assembler.State.{emit_int, codeseg, litseg, Asm, dataseg, parse_value, Action}
use q3vm.Assembler.Text.{add_terms, first_term, atoi_no_cap}
use q3vm.Opcode.{enter, local, arg, push, pop, call, Opcode}

module _ (P : (A : Type 0) → Action A → Type 0) (c : Closed P) where
  pub seq :
      {A B : Type 0} {m : Action A} {k : A → Action B}
      → P A m
      → ((a : A) → P B (k a))
      → P B (m >>= k)
  seq {A} {B} {m} {k} h i = c.chain A B m k h i

  pub both : {A : Type 0} (b : Bool) {m k : Action A} → P A m → P A k → P A (if b then m else k)
  both {A} b h i = choice P A b h i

  pub done-P : P (Unit {0}) (pure tt)
  done-P = c.pure_ (Unit {0}) tt

  frame_end-P : P (Unit {0}) (gets frame_size >>= emit_int codeseg)
  frame_end-P = seq (c.gets_ ℕ frame_size) λ a. c.int codeseg a

  pub emit_op-P : (op : Opcode) → P (Unit {0}) (emit_op op)
  emit_op-P op = c.byte codeseg (number op)

  value-P : P ℕ parse_value
  unfolding parse_value
  value-P = seq c.token λ t. c.pure_ ℕ (atoi_no_cap t)

  term_value-P : (text : List ℕ) → P ℕ (term_value text)
  unfolding term_value
  term_value-P text = both (starts_number text) (c.pure_ ℕ (atoi_no_cap text)) (c.lookup text)

  pub parse_expression-P : P ℕ parse_expression
  unfolding parse_expression
  parse_expression-P = seq (c.gets_ (List ℕ) (λ s. s.token)) λ token.
      seq (term_value-P (first_term token).0)
        λ v. c.pure_ ℕ (add_terms (length token) v (first_term token).1)

  pub assemble_call-P : P (Unit {0}) assemble_call
  unfolding assemble_call
  assemble_call-P = seq (emit_op-P call) λ _. seq c.count λ _. c.offset 0

  pub assemble_ret-P : P (Unit {0}) assemble_ret
  unfolding assemble_ret
  assemble_ret-P = seq (emit_op-P Opcode.leave) λ _. seq c.count λ _. frame_end-P

  pub assemble_arg-P : P (Unit {0}) assemble_arg
  unfolding assemble_arg
  assemble_arg-P = seq (emit_op-P arg) λ _. seq c.count λ _.
      seq (c.gets_ ℕ (λ s. s.current_arg_offset)) λ a.
        both (sle 256 (add32 8 a)) c.error
          (seq (c.byte codeseg (add32 8 a)) λ _. c.offset (add32 a 4))

  pub assemble_pop-P : P (Unit {0}) assemble_pop
  unfolding assemble_pop
  assemble_pop-P = seq (emit_op-P pop) λ _. c.count

  pub assemble_local-P : (distance : Asm → ℕ) → P (Unit {0}) (assemble_local distance)
  unfolding assemble_local
  assemble_local-P distance = seq c.count λ _. seq c.token λ _.
      seq parse_expression-P
        λ v. seq (c.gets_ ℕ distance) λ a. seq (emit_op-P local) λ _. c.int codeseg (add32 a v)

  pub assemble_proc-P : P (Unit {0}) assemble_proc
  unfolding assemble_proc
  assemble_proc-P = seq c.token λ name. seq (c.gets_ ℕ (λ s. s.instruction_count)) λ a.
      seq (c.define name a) λ _. seq value-P λ locals. seq (c.locals (round4 locals)) λ _.
        seq value-P λ args. seq (c.args (round4 args)) λ _. seq (c.gets_ ℕ frame_size) λ m.
          seq (both (sle 32767 m) c.error done-P)
            λ _. seq c.count λ _. seq (emit_op-P enter) λ _. c.int codeseg m

  pub assemble_endproc-P : P (Unit {0}) assemble_endproc
  unfolding assemble_endproc
  assemble_endproc-P = seq c.token λ _. seq value-P λ _. seq value-P λ _.
      seq c.count λ _.
        seq (emit_op-P push) λ _. seq c.count λ _. seq (emit_op-P Opcode.leave) λ _. frame_end-P

  pub assemble_address-P : P (Unit {0}) assemble_address
  unfolding assemble_address
  assemble_address-P = seq c.token λ _.
      seq parse_expression-P
        λ v. seq (c.hack dataseg) λ _. seq c.name λ name. seq (c.int name v) λ _. c.target v

  pub assemble_equ-P : P (Unit {0}) assemble_equ
  unfolding assemble_equ
  assemble_equ-P = seq c.token λ name. seq c.token λ value. c.define name (atoi_no_cap value)

  pub assemble_align-P : P (Unit {0}) assemble_align
  unfolding assemble_align
  assemble_align-P = seq value-P λ v. seq c.name λ name. c.used (aligned v) name

  pub assemble_skip-P : P (Unit {0}) assemble_skip
  unfolding assemble_skip
  assemble_skip-P = seq value-P λ v. seq c.name λ name. c.used (λ used. add32 used v) name

  emit_bytes-P : (n v : ℕ) → P (Unit {0}) (emit_bytes n v)
  unfolding emit_bytes
  emit_bytes-P zero v = done-P
  emit_bytes-P (suc n) v =
      seq c.name λ name. seq (c.byte name (v % 2 ^ 8)) λ _. emit_bytes-P n (shift_byte v)

  choose_segment-P : (v : ℕ) → P (Unit {0}) (choose_segment v)
  unfolding choose_segment
  choose_segment-P v =
      both (v == 1) (c.hack litseg) (both (v == 4) (c.hack dataseg) (both (v == 2) c.error done-P))

  pub assemble_byte-P : P (Unit {0}) assemble_byte
  unfolding assemble_byte
  assemble_byte-P =
      seq value-P λ v.
        seq value-P λ w. seq (choose_segment-P v) λ _. emit_bytes-P (if is_neg v then 0 else v) w

  pub assemble_label-P : P (Unit {0}) assemble_label
  unfolding assemble_label
  assemble_label-P =
      seq c.token
        λ label. seq c.name λ name. seq (c.gets_ ℕ (label_value name)) λ a. c.define label a

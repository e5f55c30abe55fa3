-- ===== src/Assembler/Lockstep/Line.antt =====
-- `AssembleLine` of q3asm/q3asm.c keeps the passes in step.
use q3vm.Base.{ℕ, Option, none, some, ◌||◌, List, [], ◌∷◌}
use q3vm.Assembler.Closed.{AllHave, none_left, ◌⊗◌}
use q3vm.Assembler.Directives.{formal, automatic}
use q3vm.Assembler.Line.{
  round_expression, is_conversion, matches, is_sex8, assemble_found, extension, emit_chosen,
  clauses, choose_opcode, assemble_line, try_clauses, assemble_token, assemble_op, emit_instruction,
  Test,
}
use q3vm.Assembler.Lockstep.{then-Any, then-Same, Same, Any, Lock}
use q3vm.Assembler.Lockstep.Basic.{
  set_segment-Lock, count_instruction-Lock, emit_int-Lock, pure-Lock, parse-Lock, crash-Lock,
  pure-Any, code_error-Lock,
}
use q3vm.Assembler.Lockstep.Clauses.{
  assemble_equ-Lock, assemble_skip-Lock, assemble_address-Lock, assemble_endproc-Lock,
  assemble_proc-Lock, assemble_align-Lock, assemble_ret-Lock, assemble_pop-Lock, assemble_call-Lock,
  emit_op-Lock, assemble_label-Lock, assemble_arg-Lock, assemble_byte-Lock, if-Lock,
  assemble_local-Lock,
}
use q3vm.Assembler.Lockstep.Quiet.{parse_expression-Lock}
use q3vm.Assembler.Opcodes.{search_op, SourceOp}
use q3vm.Assembler.State.{dataseg, bssseg, litseg, codeseg, Action}
use q3vm.Opcode.{sex8, sex16, Opcode, undef, ignore}
use q3vm.Symbols.{starts_with, is_empty}

extension-Lock : (token : List ℕ) → Lock Same (extension token) (extension token)
extension-Lock token = if-Lock (starts_with 49 token) (pure-Lock (some sex8)) (
    if-Lock (starts_with 50 token) (pure-Lock (some sex16))
      (then-Any code_error-Lock λ _ _. pure-Lock none))

choose_opcode-Lock : (op : Opcode) → Lock Same (choose_opcode op) (choose_opcode op)
unfolding choose_opcode
choose_opcode-Lock op =
    if-Lock (is_sex8 op) (then-Same parse-Lock λ token. extension-Lock token) (pure-Lock (some op))

emit_instruction-Lock :
    (listed op : Opcode) → Lock Any (emit_instruction listed op) (emit_instruction listed op)
unfolding emit_instruction
emit_instruction-Lock listed op = then-Same parse-Lock λ token.
    then-Any
      (if-Lock (is_empty token || is_conversion listed) (emit_op-Lock op) (
        then-Any parse_expression-Lock λ v w.
          then-Any (emit_op-Lock op)
            λ _ _. emit_int-Lock codeseg (round_expression op v) (round_expression op w)))
      λ _ _. count_instruction-Lock

emit_chosen-Lock :
    (listed : Opcode) (o : Option Opcode) → Lock Any (emit_chosen listed o) (emit_chosen listed o)
emit_chosen-Lock listed none = pure-Any tt tt
emit_chosen-Lock listed (some op) = emit_instruction-Lock listed op

assemble_op-Lock : (op : Opcode) → Lock Any (assemble_op op) (assemble_op op)
unfolding assemble_op
assemble_op-Lock undef = then-Any code_error-Lock λ _ _. emit_instruction-Lock undef undef
assemble_op-Lock ignore = pure-Any tt tt
assemble_op-Lock op = then-Same (choose_opcode-Lock op) λ o. emit_chosen-Lock op o

abbrev SelfLock : Action (Unit {0}) → Type 0
SelfLock body = Lock Any body body

clauses-AllHave : AllHave SelfLock clauses
clauses-AllHave =
    assemble_local-Lock automatic
    ⊗ assemble_byte-Lock
    ⊗ pure-Any tt tt
    ⊗ assemble_arg-Lock
    ⊗ pure-Any tt tt
    ⊗ assemble_label-Lock
    ⊗ assemble_local-Lock formal
    ⊗ assemble_call-Lock
    ⊗ assemble_pop-Lock
    ⊗ assemble_ret-Lock
    ⊗ assemble_align-Lock
    ⊗ pure-Any tt tt
    ⊗ assemble_proc-Lock
    ⊗ assemble_endproc-Lock
    ⊗ assemble_address-Lock
    ⊗ assemble_skip-Lock
    ⊗ assemble_equ-Lock
    ⊗ set_segment-Lock codeseg
    ⊗ set_segment-Lock litseg
    ⊗ pure-Any tt tt
    ⊗ set_segment-Lock bssseg
    ⊗ set_segment-Lock dataseg
    ⊗ none_left

try_clauses-Lock :
    (cs : List (Test × Action (Unit {0}))) (token : List ℕ)
    → AllHave SelfLock cs
    → Lock Any (try_clauses cs token) (try_clauses cs token)
unfolding try_clauses
try_clauses-Lock [] token none_left = code_error-Lock
try_clauses-Lock ((test, body) ∷ rest) token (h ⊗ hs) =
    if-Lock (matches test token) h (try_clauses-Lock rest token hs)

assemble_found-Lock :
    (token : List ℕ) (o : Option (Option SourceOp))
    → Lock Any (assemble_found token o) (assemble_found token o)
assemble_found-Lock token none = crash-Lock
assemble_found-Lock token (some none) = try_clauses-Lock clauses token clauses-AllHave
assemble_found-Lock token (some (some op)) = assemble_op-Lock op.opcode

assemble_token-Lock : (token : List ℕ) → Lock Any (assemble_token token) (assemble_token token)
unfolding assemble_token
assemble_token-Lock token =
    if-Lock (is_empty token) (pure-Any tt tt) (assemble_found-Lock token (search_op token))

pub assemble_line-Lock : Lock Any assemble_line assemble_line
unfolding assemble_line
assemble_line-Lock = then-Same parse-Lock λ token. assemble_token-Lock token

-- ===== src/Assembler/Closed/Line.antt =====
-- `AssembleLine` of q3asm/q3asm.c has a property that its parts have.
use q3vm.Base.{ℕ, Option, none, some, ◌||◌, List, [], ◌∷◌}
use q3vm.Assembler.Closed.{Closed, AllHave, none_left, ◌⊗◌}
use q3vm.Assembler.Closed.Clauses.{
  done-P, seq, both, assemble_equ-P, assemble_skip-P, assemble_address-P, assemble_endproc-P,
  assemble_proc-P, assemble_align-P, assemble_ret-P, assemble_pop-P, assemble_call-P,
  assemble_label-P, parse_expression-P, assemble_arg-P, assemble_byte-P, emit_op-P,
  assemble_local-P,
}
use q3vm.Assembler.Directives.{formal, automatic}
use q3vm.Assembler.Line.{
  round_expression, is_conversion, is_sex8, emit_chosen, matches, assemble_found, extension,
  emit_instruction, choose_opcode, assemble_op, Test, try_clauses, clauses, assemble_line,
  assemble_token,
}
use q3vm.Assembler.Opcodes.{search_op, SourceOp}
use q3vm.Assembler.State.{Action, codeseg, litseg, bssseg, dataseg}
use q3vm.Opcode.{Opcode, undef, ignore, sex8, sex16}
use q3vm.Symbols.{starts_with, is_empty}

module _ (P : (A : Type 0) → Action A → Type 0) (c : Closed P) where
  extension-P : (token : List ℕ) → P (Option Opcode) (extension token)
  extension-P token = both P c (starts_with 49 token) (c.pure_ (Option Opcode) (some sex8)) (
      both P c (starts_with 50 token) (c.pure_ (Option Opcode) (some sex16))
        (seq P c c.error λ _. c.pure_ (Option Opcode) none))

  choose_opcode-P : (op : Opcode) → P (Option Opcode) (choose_opcode op)
  unfolding choose_opcode
  choose_opcode-P op =
      both P c (is_sex8 op) (seq P c c.token λ token. extension-P token)
        (c.pure_ (Option Opcode) (some op))

  emit_instruction-P : (listed op : Opcode) → P (Unit {0}) (emit_instruction listed op)
  unfolding emit_instruction
  emit_instruction-P listed op = seq P c c.token λ token.
      seq P c
        (both P c (is_empty token || is_conversion listed) (emit_op-P P c op) (
          seq P c (parse_expression-P P c)
            λ v. seq P c (emit_op-P P c op) λ _. c.int codeseg (round_expression op v)))
        λ _. c.count

  emit_chosen-P : (listed : Opcode) (o : Option Opcode) → P (Unit {0}) (emit_chosen listed o)
  emit_chosen-P listed none = done-P P c
  emit_chosen-P listed (some op) = emit_instruction-P listed op

  assemble_op-P : (op : Opcode) → P (Unit {0}) (assemble_op op)
  unfolding assemble_op
  assemble_op-P undef = seq P c c.error λ _. emit_instruction-P undef undef
  assemble_op-P ignore = done-P P c
  assemble_op-P op = seq P c (choose_opcode-P op) λ o. emit_chosen-P op o

  clauses-AllHave : AllHave (P (Unit {0})) clauses
  clauses-AllHave =
      assemble_local-P P c automatic
      ⊗ assemble_byte-P P c
      ⊗ done-P P c
      ⊗ assemble_arg-P P c
      ⊗ done-P P c
      ⊗ assemble_label-P P c
      ⊗ assemble_local-P P c formal
      ⊗ assemble_call-P P c
      ⊗ assemble_pop-P P c
      ⊗ assemble_ret-P P c
      ⊗ assemble_align-P P c
      ⊗ done-P P c
      ⊗ assemble_proc-P P c
      ⊗ assemble_endproc-P P c
      ⊗ assemble_address-P P c
      ⊗ assemble_skip-P P c
      ⊗ assemble_equ-P P c
      ⊗ c.select codeseg
      ⊗ c.select litseg
      ⊗ done-P P c
      ⊗ c.select bssseg
      ⊗ c.select dataseg
      ⊗ none_left

  try_clauses-P :
      (cs : List (Test × Action (Unit {0}))) (token : List ℕ)
      → AllHave (P (Unit {0})) cs
      → P (Unit {0}) (try_clauses cs token)
  unfolding try_clauses
  try_clauses-P [] token none_left = c.error
  try_clauses-P ((test, body) ∷ rest) token (h ⊗ hs) =
      both P c (matches test token) h (try_clauses-P rest token hs)

  assemble_found-P :
      (token : List ℕ) (o : Option (Option SourceOp)) → P (Unit {0}) (assemble_found token o)
  assemble_found-P token none = c.crash_ (Unit {0})
  assemble_found-P token (some none) = try_clauses-P clauses token clauses-AllHave
  assemble_found-P token (some (some op)) = assemble_op-P op.opcode

  assemble_token-P : (token : List ℕ) → P (Unit {0}) (assemble_token token)
  unfolding assemble_token
  assemble_token-P token =
      both P c (is_empty token) (done-P P c) (assemble_found-P token (search_op token))

  pub assemble_line-P : P (Unit {0}) assemble_line
  unfolding assemble_line
  assemble_line-P = seq P c c.token λ token. assemble_token-P token

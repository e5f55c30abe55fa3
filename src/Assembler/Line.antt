-- ===== src/Assembler/Line.antt =====
-- `AssembleLine` of q3asm/q3asm.c.
use q3vm.Base.{ℕ, Option, none, some, Bool, true, false, ◌||◌, if◌then◌else◌, List, [], ◌∷◌}
use q3vm.Assembler.Directives.{
  set_segment, assemble_equ, assemble_skip, assemble_address, assemble_endproc, assemble_proc,
  assemble_align, assemble_ret, assemble_pop, assemble_call, formal, assemble_label, emit_op,
  assemble_arg, assemble_byte, automatic, round4, assemble_local,
}
use q3vm.Assembler.Expression.{parse_expression}
use q3vm.Assembler.Opcodes.{number, SourceOp, search_op}
use q3vm.Assembler.Run.{◌>>=◌, crash, pure, ◌>>◌}
use q3vm.Assembler.State.{
  dataseg, litseg, codeseg, bssseg, count_instruction, emit_int, Action, emit_byte, parse,
  code_error,
}
use q3vm.Assembler.Text.{codes, has_prefix, text_eq}
use q3vm.Opcode.{sex16, undef, ignore, cvif, cvfi, block_copy, sex8, Opcode}
use q3vm.Symbols.{is_empty, starts_with}
use Prim.Native.String.{String}

-- "sign extensions need to check next parm"; no op code where `AssembleLine` returns.
abbrev pub extension : List ℕ → Action (Option Opcode)
extension token =
    if starts_with 49 token
    then pure (some sex8)
    else if starts_with 50 token
    then pure (some sex16)
    else code_error >> pure none

abbrev pub is_sex8 : Opcode → Bool
is_sex8 sex8 = true
is_sex8 _ = false

unfoldable pub choose_opcode : Opcode → Action (Option Opcode)
unfolding parse code_error ◌>>=◌
choose_opcode op = if is_sex8 op then (parse >>= extension) else pure (some op)

-- The op codes whose parameter is not looked at.
abbrev pub is_conversion : Opcode → Bool
is_conversion cvif = true
is_conversion cvfi = true
is_conversion _ = false

-- "code like this can generate non-dword block copies"
abbrev pub round_expression : Opcode → ℕ → ℕ
round_expression block_copy v = round4 v
round_expression _ v = v

-- "check for expression"
unfoldable pub emit_instruction : Opcode → Opcode → Action (Unit {0})
unfolding emit_byte emit_int number parse parse_expression count_instruction ◌>>=◌
emit_instruction listed op = do
  token ← parse
  if is_empty token || is_conversion listed
      then emit_op op
      else (do v ← parse_expression; emit_op op; emit_int codeseg (round_expression op v))
  count_instruction

abbrev pub emit_chosen : Opcode → Option Opcode → Action (Unit {0})
emit_chosen listed none = pure tt
emit_chosen listed (some op) = emit_instruction listed op

-- The body of the search for the op code.
unfoldable pub assemble_op : Opcode → Action (Unit {0})
unfolding emit_instruction choose_opcode code_error ◌>>=◌
assemble_op undef = code_error >> emit_instruction undef undef
assemble_op ignore = pure tt
assemble_op op = choose_opcode op >>= emit_chosen op

-- `export`, `import`, `line` and `file` do nothing; a segment's name selects it.
abbrev pub no_action : Action (Unit {0})
no_action = pure tt

-- The clauses in the order in which `AssembleLine` tries them: the test is of the whole token or of
-- its first characters.
pub data Test : Type 0 where
  whole : String → Test
  begins : String → Test

unfoldable pub matches : Test → List ℕ → Bool
unfolding text_eq has_prefix
matches (whole text) token = text_eq token (codes text)
matches (begins text) token = has_prefix token (codes text)

abbrev pub clauses : List (Test × Action (Unit {0}))
clauses =
    (begins "ADDRL", assemble_local automatic)
    ∷ (whole "byte", assemble_byte)
    ∷ (whole "line", no_action)
    ∷ (begins "ARG", assemble_arg)
    ∷ (whole "import", no_action)
    ∷ (begins "LABEL", assemble_label)
    ∷ (begins "ADDRF", assemble_local formal)
    ∷ (begins "CALL", assemble_call)
    ∷ (begins "pop", assemble_pop)
    ∷ (begins "RET", assemble_ret)
    ∷ (whole "align", assemble_align)
    ∷ (whole "export", no_action)
    ∷ (whole "proc", assemble_proc)
    ∷ (whole "endproc", assemble_endproc)
    ∷ (whole "address", assemble_address)
    ∷ (whole "skip", assemble_skip)
    ∷ (whole "equ", assemble_equ)
    ∷ (whole "code", set_segment codeseg)
    ∷ (whole "lit", set_segment litseg)
    ∷ (whole "file", no_action)
    ∷ (whole "bss", set_segment bssseg)
    ∷ (whole "data", set_segment dataseg)
    ∷ []

unfoldable pub try_clauses : List (Test × Action (Unit {0})) → List ℕ → Action (Unit {0})
unfolding matches code_error
try_clauses [] token = code_error
try_clauses ((test, body) ∷ rest) token =
    if matches test token then body else try_clauses rest token

abbrev pub assemble_found : List ℕ → Option (Option SourceOp) → Action (Unit {0})
assemble_found token none = crash
assemble_found token (some (some op)) = assemble_op op.opcode
assemble_found token (some none) = try_clauses clauses token

-- `AssembleLine`.
unfoldable pub assemble_token : List ℕ → Action (Unit {0})
unfolding assemble_op try_clauses search_op
assemble_token token = if is_empty token then pure tt else assemble_found token (search_op token)

unfoldable pub assemble_line : Action (Unit {0})
unfolding parse assemble_token ◌>>=◌
assemble_line = parse >>= assemble_token

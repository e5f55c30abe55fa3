-- ===== src/Prepare.antt =====
-- `VM_PrepareInterpreter` of src/vm/vm.c: the byte code is expanded to words, one for each op code
-- and one for each operand, and the operands of the conditional jumps are translated from an
-- instruction number to a position in the expanded code.
pub mod Layout
pub mod Expand
pub mod Translate
pub mod Total
pub mod Target
pub mod Wrapped
use q3vm.Base.{
  ℕ, zero, suc, ◌+◌, ◌*◌, ◌/◌, Option, none, some, Bool, true, false, ◌||◌, ltb, if◌then◌else◌,
  ◌>>=◌,
}
use q3vm.Base.Word.{u32, sext64, is_neg, slt}
use q3vm.Memory.{Block, get, set, read4, copy_from, word_at}
use q3vm.Opcode.{Opcode, opcode_of, Operand, nothing, byte, word, operand_of, is_branch}
use q3vm.State.{
  Header, Host, State, ErrorCode, code_sec, allocated, tell, fail_with, malloc_failed,
  pc_out_of_range, bad_instruction, jump_to_invalid_instruction,
}

-- The locals of the first loop and the two arrays that it fills.
pub record Expansion : Type 0 where
  pub byte_pc : ℕ
  pub int_pc : ℕ
  pub code : Block
  pub pointers : Block

-- A pass goes on, or reports an error and returns -1.
pub data Pass (A : Type 0) : Type 0 where
  going : A → Pass A
  refused : ErrorCode → A → Pass A

-- The first `switch`: the operand behind an op code. `from` is the start of the byte code.
unfoldable pub expand_operand : Block → ℕ → Operand → Expansion → Option (Pass Expansion)
expand_operand image from nothing x = some (going x)
expand_operand image from byte x = do
  v ← get image (from + x.byte_pc)
  code ← set x.code x.int_pc v
  some (going (record x { byte_pc = x.byte_pc + 1; int_pc = x.int_pc + 1; code = code }))
expand_operand image from word x = do
  v ← read4 image (from + x.byte_pc)
  code ← set x.code x.int_pc v
  some (going (record x { byte_pc = x.byte_pc + 4; int_pc = x.int_pc + 1; code = code }))

abbrev pub expand_known : Block → ℕ → Option Opcode → Expansion → Option (Pass Expansion)
expand_known image from none x = some (refused bad_instruction x)
expand_known image from (some o) x = expand_operand image from (operand_of o) x

abbrev pub advance : Expansion → Expansion
advance x = record x { byte_pc = x.byte_pc + 1; int_pc = x.int_pc + 1 }

-- One round of the first loop, for the instruction number `i`.
unfoldable pub expand_one : Block → ℕ → ℕ → ℕ → Expansion → Option (Pass Expansion)
unfolding expand_operand
expand_one image from code_length i x = do
  pointers ← set x.pointers i x.int_pc
  op ← get image (from + x.byte_pc)
  code ← set x.code x.int_pc op
  let y = record x { code = code; pointers = pointers }
  if ltb code_length x.byte_pc
      then some (refused pc_out_of_range y)
      else expand_known image from (opcode_of op) (advance y)

-- The first loop, with the number of rounds left.
unfoldable pub expand : Block → ℕ → ℕ → ℕ → ℕ → Expansion → Option (Pass Expansion)
expand image from code_length zero i x = some (going x)
expand image from code_length (suc left) i x = do
  pass ← expand_one image from code_length i x
  elim pass [
    | going y ↦ expand image from code_length left (i + 1) y
    | refused e y ↦ some (refused e y)
  ]

-- The second `switch`, at a position: the translated code and the next position.
abbrev pub TranslateState : Type 0
TranslateState = Block × ℕ

abbrev pub is_target_bad : ℕ → ℕ → Bool
is_target_bad count target = is_neg target || slt count target

unfoldable pub translate_branch : Block → ℕ → ℕ → Block → Option (Pass TranslateState)
translate_branch pointers count int_pc code = do
  target ← get code int_pc
  if is_target_bad count target
      then some (refused jump_to_invalid_instruction (code, int_pc))
      else (do
        start ← get pointers target
        code' ← set code int_pc (u32 start)
        some (going (code', int_pc + 1)))

abbrev pub skip_operand : Operand → ℕ → ℕ
skip_operand nothing p = p
skip_operand byte p = p + 1
skip_operand word p = p + 1

abbrev pub translate_known : Block → ℕ → ℕ → Block → Option Opcode → Option (Pass TranslateState)
translate_known pointers count int_pc code none = some (going (code, int_pc))
translate_known pointers count int_pc code (some o) =
    if is_branch o
    then translate_branch pointers count int_pc code
    else some (going (code, skip_operand (operand_of o) int_pc))

unfoldable pub translate_one : Block → ℕ → TranslateState → Option (Pass TranslateState)
unfolding translate_branch
translate_one pointers count (code, int_pc) = do
  op ← get code int_pc
  translate_known pointers count (int_pc + 1) code (opcode_of op)

-- The second loop, with the number of rounds left.
unfoldable pub translate : Block → ℕ → ℕ → TranslateState → Option (Pass TranslateState)
translate pointers count zero st = some (going st)
translate pointers count (suc left) st = do
  pass ← translate_one pointers count st
  elim pass [ going st' ↦ translate pointers count left st' | refused e st' ↦ some (refused e st') ]

-- A block of `n` bytes as an array of `int`.
abbrev pub as_ints : Block → Block
as_ints bytes = record { size = bytes.size / 4; cell = λ q. word_at bytes (4 * q) }

abbrev pub with_code : Block → Block → State → State
with_code code pointers s = record s {
  vm = record s.vm { code_base = some code; instruction_pointers = some pointers };
}

-- Both loops over the fresh code array. `true` stands for the result 0.
unfoldable pub translate_code : ℕ → Expansion → State → Option (Bool × State)
translate_code count x s = do
  pass ← translate x.pointers s.vm.instruction_count count (x.code, 0)
  elim pass [
    | going (code, _) ↦ some (true, with_code code x.pointers s)
    | refused e (code, _) ↦ some (false, fail_with e (with_code code x.pointers s))
  ]

unfoldable pub prepare_code : Block → Header → Block → Block → State → Option (Bool × State)
unfolding translate_code
prepare_code image h code pointers s = do
  let start : Expansion = record { byte_pc = 0; int_pc = 0; code = code; pointers = pointers }
  pass ← expand image h.code_offset h.code_length h.instruction_count 0 start
  elim pass [
    | going x ↦ translate_code h.instruction_count x s
    | refused e x ↦ some (false, fail_with e (with_code x.code x.pointers s))
  ]

-- `vm->codeLength * 4` as the size of an allocation.
abbrev pub code_bytes : ℕ → ℕ
code_bytes code_length = sext64 (u32 (code_length * 4))

-- The copy of the byte code into the allocated array, and the passes over it.
unfoldable pub fill_code : Host → Block → Header → State → Option (Bool × State)
unfolding prepare_code
fill_code host image h s = do
  let fresh : Block = record { size = code_bytes s.vm.code_length; cell = host.junk code_sec }
  raw ← copy_from fresh 0 image h.code_offset s.vm.code_length
  pointers ← s.vm.instruction_pointers
  prepare_code image h (as_ints raw) pointers (record s { world = allocated code_sec s.world })

unfoldable pub prepare_interpreter : Host → Block → Header → State → Option (Bool × State)
unfolding fill_code
prepare_interpreter host image h s =
    if host.grants code_sec (code_bytes s.vm.code_length)
    then fill_code host image h s
    else some (false, tell malloc_failed (record s { vm = record s.vm { code_base = none } }))

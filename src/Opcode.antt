-- ===== src/Opcode.antt =====
-- The op codes of src/vm/vm.c: the enumeration, the dispatch table of the interpreter, and which
-- op codes carry an operand in the byte code.
use q3vm.Base.{ℕ, Option, none, some, List, [], ◌∷◌, bit_and, get_elem?, Bool, true, false}

-- `opcode_t`.
pub data Opcode : Type 0 where
  undef ignore break enter leave call push pop const local jump : Opcode
  eq ne lti lei gti gei ltu leu gtu geu eqf nef ltf lef gtf gef : Opcode
  load1 load2 load4 store1 store2 store4 arg block_copy : Opcode
  sex8 sex16 negi add sub divi divu modi modu muli mulu : Opcode
  band bor bxor bcom lsh rshi rshu : Opcode
  negf addf subf divf mulf cvif cvfi : Opcode

-- The enumerators in order: the number of an op code is its position.
abbrev pub opcodes : List Opcode
opcodes =
    undef ∷ ignore ∷ break ∷ enter ∷ leave ∷ call ∷ push ∷ pop ∷ const ∷ local ∷ jump ∷ eq ∷ ne
    ∷ lti ∷ lei ∷ gti ∷ gei ∷ ltu ∷ leu ∷ gtu ∷ geu ∷ eqf ∷ nef ∷ ltf ∷ lef ∷ gtf ∷ gef ∷ load1
    ∷ load2 ∷ load4 ∷ store1 ∷ store2 ∷ store4 ∷ arg ∷ block_copy ∷ sex8 ∷ sex16 ∷ negi ∷ add ∷ sub
    ∷ divi ∷ divu ∷ modi ∷ modu ∷ muli ∷ mulu ∷ band ∷ bor ∷ bxor ∷ bcom ∷ lsh ∷ rshi ∷ rshu ∷ negf
    ∷ addf ∷ subf ∷ divf ∷ mulf ∷ cvif ∷ cvfi ∷ []

-- `OP_MAX`.
abbrev pub op_max : ℕ
op_max = 60

-- The enumerator of a number below `OP_MAX`.
unfoldable pub opcode_of : ℕ → Option Opcode
opcode_of n = get_elem? opcodes n

-- `OPCODE_TABLE_MASK`.
abbrev pub opcode_table_mask : ℕ
opcode_table_mask = 63

-- `dispatch_table`: the 64 entries, the last four of them `OP_UNDEF`.
abbrev pub or_undef : Option Opcode → Opcode
or_undef none = undef
or_undef (some op) = op

unfoldable pub dispatch : ℕ → Opcode
unfolding opcode_of
dispatch word = or_undef (opcode_of (bit_and word opcode_table_mask))

-- What follows an op code in the byte code: nothing, one byte, or a word of four bytes.
pub data Operand : Type 0 where
  nothing byte word : Operand

-- The cases of the first `switch` of `VM_PrepareInterpreter`.
unfoldable pub operand_of : Opcode → Operand
operand_of enter = word
operand_of const = word
operand_of local = word
operand_of leave = word
operand_of eq = word
operand_of ne = word
operand_of lti = word
operand_of lei = word
operand_of gti = word
operand_of gei = word
operand_of ltu = word
operand_of leu = word
operand_of gtu = word
operand_of geu = word
operand_of eqf = word
operand_of nef = word
operand_of ltf = word
operand_of lef = word
operand_of gtf = word
operand_of gef = word
operand_of block_copy = word
operand_of arg = byte
operand_of _ = nothing

-- The op codes whose operand the second `switch` translates: the conditional jumps.
unfoldable pub is_branch : Opcode → Bool
is_branch eq = true
is_branch ne = true
is_branch lti = true
is_branch lei = true
is_branch gti = true
is_branch gei = true
is_branch ltu = true
is_branch leu = true
is_branch gtu = true
is_branch geu = true
is_branch eqf = true
is_branch nef = true
is_branch ltf = true
is_branch lef = true
is_branch gtf = true
is_branch gef = true
is_branch _ = false

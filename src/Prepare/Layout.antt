-- ===== src/Prepare/Layout.antt =====
-- The byte code read as a sequence of instructions: where each one starts in the file and in the
-- expanded code. This is a description of the format, apart from the loops of
-- `VM_PrepareInterpreter`.
use q3vm.Base.{ℕ, zero, suc, ◌+◌, ◌≤◌, ◌<◌, ◌≡◌, refl, Option, none, some, Bool, false, arith}
use q3vm.Memory.{Block, word_at}
use q3vm.Opcode.{Opcode, opcode_of, Operand, nothing, byte, word, operand_of, is_branch}

abbrev pub known_operand : Option Opcode → Operand
known_operand none = nothing
known_operand (some o) = operand_of o

abbrev pub operand_bytes : Operand → ℕ
operand_bytes nothing = 0
operand_bytes byte = 1
operand_bytes word = 4

abbrev pub operand_ints : Operand → ℕ
operand_ints nothing = 0
operand_ints byte = 1
operand_ints word = 1

abbrev pub operand_value : Block → ℕ → Operand → ℕ
operand_value image p nothing = 0
operand_value image p byte = image.cell p
operand_value image p word = word_at image p

abbrev pub known_branch : Option Opcode → Bool
known_branch none = false
known_branch (some o) = is_branch o

module _ (image : Block) (from : ℕ) where
  -- Where instruction number `j` starts, in bytes behind `from`.
  unfoldable pub byte_start : ℕ → ℕ
  byte_start zero = 0
  byte_start (suc j) =
      byte_start j
      + 1
      + operand_bytes (known_operand (opcode_of (image.cell (from + byte_start j))))

  abbrev pub op_at : ℕ → ℕ
  op_at j = image.cell (from + byte_start j)

  abbrev pub kind_at : ℕ → Operand
  kind_at j = known_operand (opcode_of (op_at j))

  abbrev pub value_at : ℕ → ℕ
  value_at j = operand_value image (from + (byte_start j + 1)) (kind_at j)

  abbrev pub branches_at : ℕ → Bool
  branches_at j = known_branch (opcode_of (op_at j))

  -- Where it starts in the expanded code.
  unfoldable pub int_start : ℕ → ℕ
  int_start zero = 0
  int_start (suc j) = int_start j + 1 + operand_ints (kind_at j)

  pub byte_start-suc : (j : ℕ) → byte_start (suc j) ≡ byte_start j + 1 + operand_bytes (kind_at j)
  unfolding byte_start
  byte_start-suc j = refl

  pub int_start-suc : (j : ℕ) → int_start (suc j) ≡ int_start j + 1 + operand_ints (kind_at j)
  unfolding int_start
  int_start-suc j = refl

  operand_ints-le : (o : Operand) → operand_ints o ≤ operand_bytes o
  operand_ints-le nothing = omega arith
  operand_ints-le byte = omega arith
  operand_ints-le word = omega arith

  -- The expanded code has no more words than the byte code has bytes.
  pub int_start-le : (j : ℕ) → int_start j ≤ byte_start j
  unfolding int_start byte_start
  int_start-le zero = omega arith
  int_start-le (suc j) = omega (arith, int_start-le j, operand_ints-le (kind_at j))

  pub byte_start_mono : (j n : ℕ) → j ≤ n → byte_start j ≤ byte_start n
  byte_start_mono j zero h = grind arith
  byte_start_mono j (suc n) h = ground (arith, byte_start_mono j n, byte_start-suc n)

  pub int_start_mono : (j n : ℕ) → j ≤ n → int_start j ≤ int_start n
  int_start_mono j zero h = grind arith
  int_start_mono j (suc n) h = ground (arith, int_start_mono j n, int_start-suc n)

  -- Byte code of `count` instructions that a complete file holds: known op codes, and the end of
  -- the last operand inside the code section.
  pub record IsCode (code_length count : ℕ) : Type 0 where
    pub known : (j : ℕ) → j < count → (o : Opcode) × (opcode_of (op_at j) ≡ some o)
    pub ends : byte_start count ≤ code_length
    pub in_file : from + code_length ≤ image.size

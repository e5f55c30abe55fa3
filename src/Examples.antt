-- ===== src/Examples.antt =====
-- Data for the examples: a bytecode file of seven instructions, and the machines that it leads to.
pub mod Loading
pub mod Running
pub mod Natives
pub mod Assembling
pub mod Defining
pub mod Driving
pub mod Helping
pub mod Debugging
use q3vm.Base.{
  ℕ, zero, suc, ◌+◌, ◌-◌, ◌<◌, ◌%◌, ◌==◌, if◌then◌else◌, ◌≡◌, Option, none, some, Bool, true, false,
  arith, List, [], ◌∷◌, ltb, ◌&&◌,
}
use q3vm.Image.{vm_magic}
use q3vm.Interp.Machine.{SystemCall, FloatUnit, Machine}
use q3vm.Memory.{Block}
use q3vm.State.{Header, Host, World, State, Vm, cleared}

abbrev pub nth : List ℕ → ℕ → ℕ
nth [] i = 0
nth (x ∷ xs) zero = x
nth (x ∷ xs) (suc i) = nth xs i

abbrev pub all_bytes : List ℕ → Bool
all_bytes [] = true
all_bytes (x ∷ xs) = ltb x 256 && all_bytes xs

pub nth-lt : (xs : List ℕ) → all_bytes xs ≡ true → (q : ℕ) → nth xs q < 256
nth-lt [] h q = omega arith
nth-lt (x ∷ xs) h zero = ground arith
nth-lt (x ∷ xs) h (suc q) = nth-lt xs (ground arith) q

-- A property of the numbers below seven, one by one.
pub below_seven : (P : ℕ → Type 0) → P 0 × P 1 × P 2 × P 3 × P 4 × P 5 × P 6 → (j : ℕ) → j < 7 → P j
below_seven P (a, b, c, d, e, f, g) zero h = a
below_seven P (a, b, c, d, e, f, g) (suc zero) h = b
below_seven P (a, b, c, d, e, f, g) (suc (suc zero)) h = c
below_seven P (a, b, c, d, e, f, g) (suc (suc (suc zero))) h = d
below_seven P (a, b, c, d, e, f, g) (suc (suc (suc (suc zero)))) h = e
below_seven P (a, b, c, d, e, f, g) (suc (suc (suc (suc (suc zero))))) h = f
below_seven P (a, b, c, d, e, f, g) (suc (suc (suc (suc (suc (suc zero)))))) h = g
below_seven P all (suc (suc (suc (suc (suc (suc (suc j))))))) h = absurd (omega arith)

-- The header, then ENTER 8; CONST 1; CONST 1; EQ 5; CONST 7; CONST 42; LEAVE 8, then eight bytes
-- of data and a string.
abbrev pub file_bytes : List ℕ
file_bytes =
    0x44 ∷ 0x14 ∷ 0x72 ∷ 0x12 ∷ 7 ∷ 0 ∷ 0 ∷ 0 ∷ 32 ∷ 0 ∷ 0 ∷ 0 ∷ 35 ∷ 0 ∷ 0 ∷ 0 ∷ 67 ∷ 0 ∷ 0 ∷ 0 ∷ 8
    ∷ 0 ∷ 0 ∷ 0 ∷ 2 ∷ 0 ∷ 0 ∷ 0 ∷ 100 ∷ 0 ∷ 0 ∷ 0 ∷ 3 ∷ 8 ∷ 0 ∷ 0 ∷ 0 ∷ 8 ∷ 1 ∷ 0 ∷ 0 ∷ 0 ∷ 8 ∷ 1
    ∷ 0 ∷ 0 ∷ 0 ∷ 11 ∷ 5 ∷ 0 ∷ 0 ∷ 0 ∷ 8 ∷ 7 ∷ 0 ∷ 0 ∷ 0 ∷ 8 ∷ 42 ∷ 0 ∷ 0 ∷ 0 ∷ 4 ∷ 8 ∷ 0 ∷ 0 ∷ 0
    ∷ 1 ∷ 2 ∷ 3 ∷ 4 ∷ 5 ∷ 6 ∷ 7 ∷ 8 ∷ 104 ∷ 0 ∷ []

abbrev pub file : Block
file = record { size = 77; cell = nth file_bytes }

abbrev pub file_header : Header
file_header = record {
  vm_magic = vm_magic;
  instruction_count = 7;
  code_offset = 32;
  code_length = 35;
  data_offset = 67;
  data_length = 8;
  lit_length = 2;
  bss_length = 100;
}

abbrev pub generous : Host
generous = record { grants = λ t n. true; junk = λ t n. 7 }

abbrev pub no_blocks : World
no_blocks = record { reported = []; code_blocks = 0; data_blocks = 0; pointer_blocks = 0 }

abbrev pub empty_state : State
empty_state = record { vm = cleared; world = no_blocks }

abbrev pub section_of : ℕ → Block
section_of k = record { size = k + 4; cell = λ q. q % 256 }

-- An idle machine with a data section of 128 bytes and the expanded code of the file.
abbrev pub expanded : List ℕ
expanded = 3 ∷ 8 ∷ 8 ∷ 1 ∷ 8 ∷ 1 ∷ 11 ∷ 10 ∷ 8 ∷ 7 ∷ 8 ∷ 42 ∷ 4 ∷ 8 ∷ []

abbrev pub loaded_vm : Vm
loaded_vm = record cleared {
  program_stack = 128;
  system_call = true;
  code_base = some (record { size = 35; cell = nth expanded });
  code_length = 35;
  instruction_pointers = some (record { size = 7; cell = nth (0 ∷ 2 ∷ 4 ∷ 6 ∷ 8 ∷ 10 ∷ 12 ∷ []) });
  instruction_count = 7;
  data_base = some (section_of 128);
  data_mask = 127;
  data_alloc = 132;
}

abbrev pub loaded_example : State
loaded_example = record {
  vm = loaded_vm;
  world = record { reported = []; code_blocks = 1; data_blocks = 1; pointer_blocks = 1 };
}

abbrev pub no_floats : FloatUnit
no_floats = record {
  f_eq = λ a b. false;
  f_lt = λ a b. false;
  f_le = λ a b. false;
  f_neg = λ a. a;
  f_add = λ a b. a;
  f_sub = λ a b. a;
  f_div = λ a b. a;
  f_mul = λ a b. a;
  of_int = λ a. a;
  to_long = λ a. none;
}

-- A native function that answers 42 and changes nothing.
abbrev pub answering : SystemCall
answering s args = some (s, 42)

abbrev pub machine_at : ℕ → ℕ → ℕ → Machine
machine_at pc a b = record {
  vm = loaded_vm;
  world = no_blocks;
  image = section_of 128;
  code_image = record { size = 35; cell = nth expanded };
  data_mask = 127;
  op_stack = λ i. if i == 1 then b else a;
  op_stack_ofs = 2;
  program_counter = pc;
  program_stack = 60;
  r0 = a;
  r1 = b;
}

-- ===== src/State.antt =====
-- The data of src/vm/vm.h: error codes, kinds of allocation, the file header and `vm_t`; and what
-- the host application supplies: memory, and the record of what it was told by `Com_Error`.
use q3vm.Base.{ℕ, ◌+◌, ◌-◌, Option, none, List, [], ◌∷◌, Bool, false}
use q3vm.Memory.{Block}

-- `vmErrorCode_t`.
pub data ErrorCode : Type 0 where
  no_error invalid_pointer failed_to_load_bytecode no_syscall_callback free_on_running_vm :
      ErrorCode
  blockcopy_out_of_range pc_out_of_range jump_to_invalid_instruction : ErrorCode
  stack_overflow stack_misaligned op_load4_misaligned stack_error data_out_of_range : ErrorCode
  malloc_failed bad_instruction not_loaded : ErrorCode

-- `vmMallocType_t`, without the symbols of debug builds.
pub data MallocType : Type 0 where
  code_sec data_sec instruction_pointers_sec : MallocType

-- `vmHeader_t`: eight little-endian words at the start of the file.
pub record Header : Type 0 where
  pub vm_magic : ℕ
  pub instruction_count : ℕ
  pub code_offset : ℕ
  pub code_length : ℕ
  pub data_offset : ℕ
  pub data_length : ℕ
  pub lit_length : ℕ
  pub bss_length : ℕ

-- `vm_t`, without its unused members and the symbols of debug builds. `none` is `NULL`. The member
-- `systemCall` says here whether the pointer is set; the function itself is a parameter of the
-- interpreter.
pub record Vm : Type 0 where
  pub program_stack : ℕ
  pub system_call : Bool
  pub name : List ℕ
  pub currently_interpreting : Bool
  pub code_base : Option Block
  pub code_length : ℕ
  pub instruction_pointers : Option Block
  pub instruction_count : ℕ
  pub data_base : Option Block
  pub data_mask : ℕ
  pub data_alloc : ℕ
  pub stack_bottom : ℕ
  pub call_level : ℕ
  pub break_count : ℕ
  pub last_error : ErrorCode

-- `Com_Memset(vm, 0, sizeof(vm_t))`.
abbrev pub cleared : Vm
cleared = record {
  program_stack = 0;
  system_call = false;
  name = [];
  currently_interpreting = false;
  code_base = none;
  code_length = 0;
  instruction_pointers = none;
  instruction_count = 0;
  data_base = none;
  data_mask = 0;
  data_alloc = 0;
  stack_bottom = 0;
  call_level = 0;
  break_count = 0;
  last_error = no_error;
}

-- What the host application has seen: the errors reported to `Com_Error`, which returns, and the
-- number of live blocks of each kind.
pub record World : Type 0 where
  pub reported : List ErrorCode
  pub code_blocks : ℕ
  pub data_blocks : ℕ
  pub pointer_blocks : ℕ

abbrev pub report : ErrorCode → World → World
report e w = record w { reported = e ∷ w.reported }

-- The allocator behind `Com_malloc`: which requests it grants, and what the bytes of a fresh block
-- hold.
pub record Host : Type 0 where
  pub grants : MallocType → ℕ → Bool
  pub junk : MallocType → ℕ → ℕ

abbrev pub allocated : MallocType → World → World
allocated code_sec w = record w { code_blocks = w.code_blocks + 1 }
allocated data_sec w = record w { data_blocks = w.data_blocks + 1 }
allocated instruction_pointers_sec w = record w { pointer_blocks = w.pointer_blocks + 1 }

-- `Com_free` of a block of the kind.
abbrev pub released : MallocType → World → World
released code_sec w = record w { code_blocks = w.code_blocks - 1 }
released data_sec w = record w { data_blocks = w.data_blocks - 1 }
released instruction_pointers_sec w = record w { pointer_blocks = w.pointer_blocks - 1 }

-- The virtual machine together with the host's record.
pub record State : Type 0 where
  pub vm : Vm
  pub world : World

-- `Com_Error(vm->lastError = e, ..)`, and `Com_Error(e, ..)` alone.
abbrev pub fail_with : ErrorCode → State → State
fail_with e s = record s { vm = record s.vm { last_error = e }; world = report e s.world }

abbrev pub tell : ErrorCode → State → State
tell e s = record s { world = report e s.world }

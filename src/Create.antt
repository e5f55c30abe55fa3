-- ===== src/Create.antt =====
-- `VM_Create` and `VM_Free` of src/vm/vm.c, and the string copy that they use.
pub mod Balance
pub mod Failure
pub mod Success
use q3vm.Base.{
  ℕ, zero, suc, ◌-◌, ◌*◌, Option, none, some, Bool, true, false, ltb, ◌==◌, List, [], ◌∷◌,
  if◌then◌else◌, ◌>>=◌,
}
use q3vm.Base.Word.{add32, sub32}
use q3vm.Image.{load_qvm}
use q3vm.Memory.{Block}
use q3vm.Prepare.{prepare_interpreter}
use q3vm.State.{
  Vm, Header, Host, State, World, report, cleared, instruction_pointers_sec, code_sec, data_sec,
  allocated, released, fail_with, invalid_pointer, no_syscall_callback, failed_to_load_bytecode,
  malloc_failed, free_on_running_vm,
}

abbrev pub vm_max_qpath : ℕ
vm_max_qpath = 64

abbrev pub vm_program_stack_size : ℕ
vm_program_stack_size = 0x1_0000

abbrev pub take : ℕ → List ℕ → List ℕ
take zero xs = []
take (suc n) [] = []
take (suc n) (x ∷ xs) = x ∷ take n xs

-- `Q_strncpyz`, on texts without their final zero: what `dest` holds afterwards.
unfoldable pub q_strncpyz : List ℕ → Option (List ℕ) → ℕ → List ℕ
q_strncpyz dest none destsize = dest
q_strncpyz dest (some src) destsize = if ltb destsize 1 then dest else take (destsize - 1) src

-- `if (p) { Com_free(p, ..); p = NULL; }`, for one member and for all three.
abbrev pub release_if : Option Block → World → World → World
release_if none freed w = w
release_if (some b) freed w = freed

abbrev pub release_blocks : Vm → World → World
release_blocks vm w =
    let w1 = release_if vm.code_base (released code_sec w) w in
    let w2 = release_if vm.data_base (released data_sec w1) w1 in
    release_if vm.instruction_pointers (released instruction_pointers_sec w2) w2

-- `VM_Free`.
unfoldable pub vm_free : State → State
vm_free s =
    if s.vm.call_level == 0
    then record { vm = cleared; world = release_blocks s.vm s.world }
    else fail_with free_on_running_vm s

-- `VM_Free` on a pointer that may be `NULL`.
unfoldable pub vm_free_pointer : Option Vm → World → Option Vm × World
unfolding vm_free
vm_free_pointer none w = (none, w)
vm_free_pointer (some vm) w =
    let s = vm_free (record { vm = vm; world = w }) in (some s.vm, s.world)

-- `VM_Free(vm); return -1;`
abbrev pub give_up : State → Bool × State
give_up s = (false, vm_free s)

-- "the stack is implicitly at the end of the image"
abbrev pub with_stack : Vm → Vm
with_stack vm =
    let top = add32 vm.data_mask 1 in
    record vm { program_stack = top; stack_bottom = sub32 top vm_program_stack_size }

abbrev pub after_prepare : Bool × State → Bool × State
after_prepare (true, s) = (true, record s { vm = with_stack s.vm })
after_prepare (false, s) = give_up s

-- The part of `VM_Create` behind `VM_LoadQVM`.
abbrev pub pointer_bytes : ℕ → ℕ
pointer_bytes count = count * 8

abbrev pub with_pointers : Host → Header → Option Block → State → State
with_pointers host h pointers s = record s {
  vm = record s.vm {
    system_call = true;
    instruction_count = h.instruction_count;
    instruction_pointers = pointers;
  };
}

abbrev pub with_code_length : Header → State → State
with_code_length h s = record s { vm = record s.vm { code_length = h.code_length } }

-- The machine when `VM_PrepareInterpreter` is called.
abbrev pub ready_to_prepare : Host → Header → State → State
ready_to_prepare host h s =
    let fresh : Block = record {
      size = h.instruction_count;
      cell = host.junk instruction_pointers_sec;
    } in
    let ready = with_code_length h (with_pointers host h (some fresh) s) in
    record ready { world = allocated instruction_pointers_sec s.world }

unfoldable pub create_prepared : Host → Block → Header → State → Option (Bool × State)
create_prepared host image h s = do
  done ← prepare_interpreter host image h (ready_to_prepare host h s)
  some (after_prepare done)

unfoldable pub create_loaded : Host → Option Block → Option Header → State → Option (Bool × State)
unfolding vm_free create_prepared
create_loaded host image none s = some (give_up (fail_with failed_to_load_bytecode s))
create_loaded host none (some h) s = none
create_loaded host (some image) (some h) s =
    if host.grants instruction_pointers_sec (pointer_bytes h.instruction_count)
    then create_prepared host image h s
    else some (give_up (fail_with malloc_failed (with_pointers host h none s)))

-- `VM_Create` on a pointer to a `vm_t`. `true` stands for the result 0.
unfoldable pub create_at :
    Host → Bool → Option (List ℕ) → Option Block → ℕ → State → Option (Bool × State)
unfolding create_loaded
create_at host false name bytecode length s = some (false, fail_with no_syscall_callback s)
create_at host true name bytecode length s = do
  let named = record cleared { name = q_strncpyz [] name vm_max_qpath }
  (header, loaded) ← load_qvm host bytecode length (record s { vm = named })
  create_loaded host bytecode header loaded

-- `VM_Create`. The `vm_t` that `NULL` points to does not exist.
unfoldable pub vm_create :
    Host
    → Option Vm
    → Bool
    → Option (List ℕ)
    → Option Block
    → ℕ
    → World
    → Option (Bool × Option Vm × World)
unfolding create_at
vm_create host none system_calls name bytecode length w =
    some (false, none, report invalid_pointer w)
vm_create host (some vm) system_calls name bytecode length w = do
  (result, s) ← create_at host system_calls name bytecode length (record { vm = vm; world = w })
  some (result, some s.vm, s.world)

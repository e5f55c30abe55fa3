-- ===== src/Create/Failure.antt =====
-- `VM_Create` as a whole: the memory that it keeps, and what a failure leaves.
use q3vm.Base.{
  >>=-eq-some, ℕ, ◌≡◌, refl, Option, none, some, arith, Bool, true, false, not, ◌==◌, ◌&&◌, List,
  [], length, inl, inr, Bool-cases,
}
use q3vm.Create.{vm_max_qpath, q_strncpyz, create_at}
use q3vm.Create.Balance.{load_qvm-IsBalanced, create_loaded-IsBalanced, IsBalanced}
use q3vm.Image.{header_bad, vm_magic, size_bad, read_header, load_data, load_qvm, load_header}
use q3vm.Memory.{Block}
use q3vm.State.{report, no_syscall_callback, cleared, Header, Host, State}

-- The loader touches neither the code nor the instruction table.
abbrev Untouched : State → State → Type 0
Untouched s s' =
    (s'.vm.code_base ≡ s.vm.code_base) × (s'.vm.instruction_pointers ≡ s.vm.instruction_pointers)

load_data-Untouched :
    (host : Host) (image : Block) (h : Header) (s : State) {r : Option Header} {s' : State}
    → load_data host image h s ≡ some (r, s')
    → Untouched s s'
unfolding load_data
load_data-Untouched host image h s e = ground arith

load_header-Untouched :
    (host : Host) (image : Block) (length : ℕ) (s : State) {r : Option Header} {s' : State}
    → load_header host image length s ≡ some (r, s')
    → Untouched s s'
unfolding load_header
load_header-Untouched host image length s {r} {s'} e =
    let (h, eh, e1) = >>=-eq-some (read_header image) _ e in
    elim (Bool-cases (h.vm_magic == vm_magic && not (header_bad h length))) [
      | inl accepted ↦ load_data-Untouched host image h s {r = r} {s' = s'} (ground arith)
      | inr refused ↦ ground arith
    ]

load_qvm-Untouched :
    (host : Host) (bytecode : Option Block) (length : ℕ) (s : State) {r : Option Header}
    {s' : State}
    → load_qvm host bytecode length s ≡ some (r, s')
    → Untouched s s'
unfolding load_qvm
load_qvm-Untouched host none length s {r} {s'} e = ground arith
load_qvm-Untouched host (some image) length s {r} {s'} e = elim (Bool-cases (size_bad length)) [
  | inl bad ↦ ground arith
  | inr good ↦ load_header-Untouched host image length s {r = r} {s' = s'} (ground arith)
]

created-IsBalanced :
    (host : Host) (name : Option (List ℕ)) (bytecode : Option Block) (length : ℕ) (s : State)
    {r : Bool} {s' : State}
    → create_at host true name bytecode length s ≡ some (r, s')
    → IsBalanced s.world s' × (r ≡ false → s'.vm ≡ cleared)
unfolding create_at
created-IsBalanced host name bytecode length s e =
    let start : State = record s {
      vm = record cleared { name = q_strncpyz [] name vm_max_qpath };
    } in
    let ((h, s1), e1, e2) = >>=-eq-some (load_qvm host bytecode length start) _ e in
    let fresh : IsBalanced s.world start = record {
      code = omega arith;
      data_ = omega arith;
      pointers = omega arith;
      idle = refl;
    } in
    let (kept, kept') = load_qvm-Untouched host bytecode length start e1 in
    create_loaded-IsBalanced host bytecode h s1 s.world
      (load_qvm-IsBalanced host bytecode length start s.world fresh refl e1) kept kept' e2

-- What `VM_Create` may leave. Without the callback it gives up at once: it returns -1, the error
-- stands in `lastError` and is reported, and the rest of the machine and of the memory is as before.
-- With it, the blocks that live are those that lived before and those that the machine holds, and
-- a machine behind a failure is cleared.
abbrev pub IsAccounted : Bool → State → Bool → State → Type 0
IsAccounted false s r s' =
    (r ≡ false)
    × (s'.vm ≡ record s.vm { last_error = no_syscall_callback })
    × (s'.world ≡ report no_syscall_callback s.world)
IsAccounted true s r s' = IsBalanced s.world s' × (r ≡ false → s'.vm ≡ cleared)

refused_at_once :
    (host : Host) (name : Option (List ℕ)) (bytecode : Option Block) (length : ℕ) (s : State)
    {r : Bool} {s' : State}
    → create_at host false name bytecode length s ≡ some (r, s')
    → IsAccounted false s r s'
unfolding create_at
refused_at_once host name bytecode length s e = ground arith

-- `VM_Create` on a `vm_t` leaks nothing, on any branch. With a callback for native functions, the
-- blocks that live afterwards are those that lived before and those that the machine holds, whether
-- it succeeds or fails, and a failure leaves the machine cleared, with no block, and with no error
-- in `lastError`. Without a callback it fails, reports the error, and changes nothing of the machine
-- but `lastError`, which has the error.
pub create_at-IsAccounted :
    (host : Host) (system_calls : Bool) (name : Option (List ℕ)) (bytecode : Option Block)
    (length : ℕ) (s : State) {r : Bool} {s' : State}
    → create_at host system_calls name bytecode length s ≡ some (r, s')
    → IsAccounted system_calls s r s'
create_at-IsAccounted host true name bytecode length s e =
    created-IsBalanced host name bytecode length s e
create_at-IsAccounted host false name bytecode length s e =
    refused_at_once host name bytecode length s e

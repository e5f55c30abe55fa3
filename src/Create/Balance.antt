-- ===== src/Create/Balance.antt =====
-- The blocks that `VM_Create` and `VM_Free` allocate and release.
use q3vm.Base.{
  ℕ, ◌+◌, ◌≡◌, Option, none, some, Bool, false, arith, >>=-eq-some, Bool-cases, inl, inr, ap,
}
use q3vm.Create.{vm_free, create_loaded, create_prepared, ready_to_prepare, after_prepare}
use q3vm.Image.{read_header, load_qvm, load_header, load_data}
use q3vm.Memory.{Block, copy_from}
use q3vm.Prepare.{prepare_interpreter, prepare_code, fill_code, code_bytes, as_ints}
use q3vm.State.{Header, Host, State, World, cleared, code_sec, allocated}

abbrev pub owned : Option Block → ℕ
owned none = 0
owned (some b) = 1

-- The live blocks are those of `w` and those that the machine holds; it is not running.
pub record IsBalanced (w : World) (s : State) : Type 0 where
  pub code : s.world.code_blocks ≡ w.code_blocks + owned s.vm.code_base
  pub data_ : s.world.data_blocks ≡ w.data_blocks + owned s.vm.data_base
  pub pointers : s.world.pointer_blocks ≡ w.pointer_blocks + owned s.vm.instruction_pointers
  pub idle : s.vm.call_level ≡ 0

load_data-IsBalanced :
    (host : Host) (image : Block) (h : Header) (s : State) (w : World) {r : Option Header}
    {s' : State}
    → IsBalanced w s
    → s.vm.data_base ≡ none
    → load_data host image h s ≡ some (r, s')
    → IsBalanced w s'
unfolding load_data
load_data-IsBalanced host image h s w b fresh e = ground arith

load_header-IsBalanced :
    (host : Host) (image : Block) (length : ℕ) (s : State) (w : World) {r : Option Header}
    {s' : State}
    → IsBalanced w s
    → s.vm.data_base ≡ none
    → load_header host image length s ≡ some (r, s')
    → IsBalanced w s'
unfolding load_header
load_header-IsBalanced host image length s w {r} {s'} b fresh e =
    let (h, _, rest) = >>=-eq-some (read_header image) _ e in
    ground (arith, load_data-IsBalanced host image h s w {r = r} {s' = s'} b fresh)

pub load_qvm-IsBalanced :
    (host : Host) (bytecode : Option Block) (length : ℕ) (s : State) (w : World) {r : Option Header}
    {s' : State}
    → IsBalanced w s
    → s.vm.data_base ≡ none
    → load_qvm host bytecode length s ≡ some (r, s')
    → IsBalanced w s'
load_qvm-IsBalanced host none length s w b fresh e = unfold load_qvm in ground arith
load_qvm-IsBalanced host (some image) length s w {r} {s'} b fresh e =
    unfold load_qvm in
    ground (arith, load_header-IsBalanced host image length s w {r = r} {s' = s'} b fresh)

prepare_code-IsBalanced :
    (image : Block) (h : Header) (code pointers : Block) (s : State) (w : World) {r : Bool}
    {s' : State}
    → s.world.code_blocks ≡ w.code_blocks + 1
    → s.vm.instruction_pointers ≡ some pointers
    → s.world.data_blocks ≡ w.data_blocks + owned s.vm.data_base
    → s.world.pointer_blocks ≡ w.pointer_blocks + 1
    → s.vm.call_level ≡ 0
    → prepare_code image h code pointers s ≡ some (r, s')
    → IsBalanced w s'
unfolding prepare_code
prepare_code-IsBalanced image h code pointers s w hc hp hd hpb hl e = ground arith

fill_code-IsBalanced :
    (host : Host) (image : Block) (h : Header) (s : State) (w : World) {r : Bool} {s' : State}
    → IsBalanced w s
    → s.vm.code_base ≡ none
    → fill_code host image h s ≡ some (r, s')
    → IsBalanced w s'
unfolding fill_code
fill_code-IsBalanced host image h s w {r} {s'} b fresh e =
    let (raw, _, e1) = >>=-eq-some (copy_from _ 0 image h.code_offset s.vm.code_length) _ e in
    let (pointers, ep, e2) = >>=-eq-some s.vm.instruction_pointers _ e1 in
    let owns : owned s.vm.instruction_pointers ≡ 1 = rw ep in
    prepare_code-IsBalanced image h (as_ints raw) pointers
      (record s { world = allocated code_sec s.world }) w (omega (arith, b.code, ap owned fresh)) ep
      b.data_ (omega (arith, b.pointers, owns)) b.idle e2

-- `VM_PrepareInterpreter` allocates the code section and nothing else.
prepare-IsBalanced :
    (host : Host) (image : Block) (h : Header) (s : State) (w : World) {r : Bool} {s' : State}
    → IsBalanced w s
    → s.vm.code_base ≡ none
    → prepare_interpreter host image h s ≡ some (r, s')
    → IsBalanced w s'
unfolding prepare_interpreter
prepare-IsBalanced host image h s w {r} {s'} b fresh e =
    elim (Bool-cases (host.grants code_sec (code_bytes s.vm.code_length))) [
      | inr refused ↦ ground arith
      | inl granted ↦
          let filled : fill_code host image h s ≡ some (r, s') = ground arith in
          fill_code-IsBalanced host image h s w b fresh filled
    ]

-- `VM_Free` of an idle machine gives all of its blocks back and clears it.
pub vm_free-releases :
    (s : State) (w : World) → IsBalanced w s → IsBalanced w (vm_free s) × ((vm_free s).vm ≡ cleared)
unfolding vm_free
vm_free-releases s w b = ground arith

after_prepare-IsBalanced :
    (r : Bool) (s : State) (w : World)
    → IsBalanced w s
    → IsBalanced w (after_prepare (r, s)).1
      × ((after_prepare (r, s)).0 ≡ false → (after_prepare (r, s)).1.vm ≡ cleared)
unfolding vm_free
after_prepare-IsBalanced r s w b = ground arith

create_prepared-IsBalanced :
    (host : Host) (image : Block) (h : Header) (s : State) (w : World) {r : Bool} {s' : State}
    → IsBalanced w s
    → s.vm.code_base ≡ none
    → s.vm.instruction_pointers ≡ none
    → create_prepared host image h s ≡ some (r, s')
    → IsBalanced w s' × (r ≡ false → s'.vm ≡ cleared)
unfolding create_prepared
create_prepared-IsBalanced host image h s w b hc hp e =
    let ((r1, s1), e1, e2) =
      >>=-eq-some (prepare_interpreter host image h (ready_to_prepare host h s)) _ e in
    let start : IsBalanced w (ready_to_prepare host h s) = record {
      code = b.code;
      data_ = b.data_;
      pointers = omega (arith, b.pointers, ap owned hp);
      idle = b.idle;
    } in
    let kept = prepare-IsBalanced host image h (ready_to_prepare host h s) w start hc e1 in
    ground (arith, after_prepare-IsBalanced r1 s1 w kept)

pub create_loaded-IsBalanced :
    (host : Host) (image : Option Block) (h : Option Header) (s : State) (w : World) {r : Bool}
    {s' : State}
    → IsBalanced w s
    → s.vm.code_base ≡ none
    → s.vm.instruction_pointers ≡ none
    → create_loaded host image h s ≡ some (r, s')
    → IsBalanced w s' × (r ≡ false → s'.vm ≡ cleared)
create_loaded-IsBalanced host image none s w b hc hp e =
    unfold create_loaded vm_free in ground arith
create_loaded-IsBalanced host none (some h) s w b hc hp e = unfold create_loaded in cc
create_loaded-IsBalanced host (some image) (some h) s w {r} {s'} b hc hp e =
    unfold create_loaded vm_free in
    ground (arith, create_prepared-IsBalanced host image h s w {r = r} {s' = s'} b hc hp)

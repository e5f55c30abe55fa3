-- ===== src/Create/Success.antt =====
-- `VM_Create` as a whole, on a well-formed file.
use q3vm.Base.{
  ℕ, ◌+◌, ◌-◌, ◌^◌, ◌≤◌, ◌<◌, ◌≡◌, refl, ◌∙◌, Option, some, arith, true, false, List, [],
}
use q3vm.Base.Mask.{two_pow_pos}
use q3vm.Base.Word.{slt}
use q3vm.Create.{
  pointer_bytes, create_prepared, after_prepare, create_at, create_loaded, vm_max_qpath, q_strncpyz,
  ready_to_prepare,
}
use q3vm.Image.{
  load_header, load_data, load_qvm, header_size, vm_magic, read_header, header_bad, size_bad,
  vm_max_image_size,
}
use q3vm.Image.Load.{load_data-loads, data_section, Fits, IsHeader, loaded_state}
use q3vm.Image.Shift.{two_pow_le, IsShift}
use q3vm.Interp.Entry.{HasEntryRoom}
use q3vm.Memory.{IsBytes, Block}
use q3vm.Prepare.{code_bytes, with_code}
use q3vm.Prepare.Layout.{IsCode}
use q3vm.Prepare.Total.{prepare_interpreter-prepares, IsPrepared}
use q3vm.Prepare.Translate.{TargetsExist}
use q3vm.State.{
  data_sec, instruction_pointers_sec, code_sec, allocated, Header, MallocType, cleared, Host, State,
}

-- A complete file: its header passes the test with sums that do not wrap, and its code section
-- holds the instructions that the header counts, of which the conditional jumps name one another.
pub record IsProgram (image : Block) (h : Header) : Type 0 where
  pub bytes : IsBytes image
  pub long : header_size < image.size
  pub small : image.size ≤ vm_max_image_size
  pub read : read_header image ≡ some h
  pub words : IsHeader h
  pub magic : h.vm_magic ≡ vm_magic
  pub accepted : header_bad h image.size ≡ false
  pub fits : Fits h image.size
  pub code : IsCode image h.code_offset h.code_length h.instruction_count
  pub targets : TargetsExist image h.code_offset h.instruction_count

-- The host grants all memory.
abbrev pub IsGenerous : Host → Type 0
IsGenerous host = (t : MallocType) (n : ℕ) → host.grants t n ≡ true

abbrev pub named_state : Option (List ℕ) → State → State
named_state name s = record s { vm = record cleared { name = q_strncpyz [] name vm_max_qpath } }

-- The machine of a program, ready for `VM_Call`.
pub record IsReady (image : Block) (h : Header) (k : ℕ) (s : State) : Type 0 where
  pub data_base : s.vm.data_base ≡ some (data_section image h k)
  pub data_mask : s.vm.data_mask ≡ 2 ^ k - 1
  pub program_stack : s.vm.program_stack ≡ 2 ^ k
  pub code_length : s.vm.code_length ≡ h.code_length
  pub instruction_count : s.vm.instruction_count ≡ h.instruction_count
  pub idle : s.vm.call_level ≡ 0
  pub callback : s.vm.system_call ≡ true
  pub code :
      (code pointers : Block) × (s.vm.code_base ≡ some code)
      × (s.vm.instruction_pointers ≡ some pointers)
      × IsPrepared image h code pointers
  pub runnable : slt s.vm.code_length 1 ≡ false
  pub room :
      60 ≤ h.data_length + h.lit_length + h.bss_length → HasEntryRoom s (data_section image h k)

-- The machine with the code and the table, before its stack is set.
abbrev pub prepared_state : Host → Block → Header → ℕ → Block → Block → State → State
prepared_state host image h k code pointers named =
    let ready = ready_to_prepare host h (loaded_state image h k named) in
    with_code code pointers (record ready { world = allocated code_sec ready.world })

module _ (host : Host) (image : Block) (h : Header) (p : IsProgram image h)
    (generous : IsGenerous host) where
  count-lt : h.instruction_count < 2 ^ 31
  unfolding header_bad
  count-lt = ground (arith, p.accepted, p.words.instruction_count)

  positive : slt h.code_length 1 ≡ false
  unfolding header_bad
  positive = ground (arith, p.accepted, p.words.code_length)

  size_good : size_bad image.size ≡ false
  size_good = ground (arith, p.long, p.small)

  load_qvm-loads :
      (s : State)
      → (k : ℕ) × IsShift (h.data_length + h.lit_length + h.bss_length) k
        × (load_qvm host (some image) image.size s ≡ some (some h, loaded_state image h k s))
  load_qvm-loads s =
      let (k, shift, e) =
        load_data-loads host image h s p.bytes p.small p.words p.accepted p.fits in
      (k, shift, entered ∙ e ∙ rw (generous data_sec (2 ^ k + 4)) refl)
    where
      entered : load_qvm host (some image) image.size s ≡ load_data host image h s
      entered =
          unfold load_qvm load_header in
          rw (size_good, p.read) (ground (arith, p.magic, p.accepted))

  create_loaded-prepares :
      (k : ℕ) (s : State)
      → (code pointers : Block) × (create_loaded host
            (some image)
            (some h)
            (loaded_state image h k s)
          ≡ some (true, (after_prepare (true, prepared_state host image h k code pointers s)).1))
        × IsPrepared image h code pointers
  create_loaded-prepares k s =
      let ready = ready_to_prepare host h (loaded_state image h k s) in
      let (code, pointers, e, done) =
        prepare_interpreter-prepares image h p.code count-lt p.targets host ready
          (record { size = h.instruction_count; cell = host.junk instruction_pointers_sec })
          (generous code_sec (code_bytes h.code_length)) (omega (arith, p.fits.code, p.small)) refl
          refl refl (omega arith) in
      (
        code,
        pointers,
        unfold create_loaded create_prepared in
            rw (generous instruction_pointers_sec (pointer_bytes h.instruction_count), e) refl,
        done,
      )

  -- `VM_Create` accepts every complete file when memory is granted. The data section, of the least
  -- power of two that suffices and four bytes more, holds the data and strings of the file and
  -- zeros; the code and the instruction table are as `VM_PrepareInterpreter` makes them; and the
  -- program stack starts at the end of the masked addresses. The machine is idle, it has the
  -- callback for native functions, and it passes the test of `VM_Call` for loaded code; if the
  -- program has 60 bytes of data at least, there is room for the frame of `vmMain`.
  pub create_at-accepts :
      (name : Option (List ℕ)) (s : State)
      → (k : ℕ) × (s' : State) × IsShift (h.data_length + h.lit_length + h.bss_length) k
        × (create_at host true name (some image) image.size s ≡ some (true, s'))
        × IsReady image h k s'
  create_at-accepts name s =
      let (k, shift, e) = load_qvm-loads (named_state name s) in
      let (code, pointers, e', done) = create_loaded-prepares k (named_state name s) in
      let s' =
        (after_prepare
          (true, prepared_state host image h k code pointers (named_state name s))).1 in
      (
        k,
        s',
        shift,
        unfold create_at in rw (e, e') refl,
        record {
          data_base = refl;
          data_mask = refl;
          program_stack = omega (arith, two_pow_pos k, two_pow_le k shift.within);
          code_length = refl;
          instruction_count = refl;
          idle = refl;
          callback = refl;
          runnable = positive;
          room = λ enough. record {
            above = omega (arith, enough, shift.reaches, two_pow_pos k, two_pow_le k shift.within);
            within = omega (arith, two_pow_pos k, two_pow_le k shift.within);
            word = omega (arith, two_pow_pos k, two_pow_le k shift.within);
          };
          code = (code, pointers, refl, refl, done);
        },
      )

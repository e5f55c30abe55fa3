-- ===== src/Prepare/Total.antt =====
-- `VM_PrepareInterpreter` as a whole, on well-formed byte code.
use q3vm.Base.{ℕ, ◌+◌, ◌-◌, ◌*◌, ◌^◌, ◌≤◌, ◌<◌, ◌≡◌, ◌∙◌, some, true, arith, if◌then◌else◌}
use q3vm.Image.{vm_max_image_size}
use q3vm.Memory.{Block, copy_from, inside}
use q3vm.Prepare.{
  going, translate, prepare_interpreter, fill_code, prepare_code, as_ints, code_bytes, with_code,
}
use q3vm.Prepare.Expand.{expand-IsLaid}
use q3vm.Prepare.Layout.{int_start, IsCode}
use q3vm.Prepare.Translate.{IsTranslated, TargetsExist, translate-IsTranslated}
use q3vm.State.{Header, Host, State, code_sec, allocated}

-- The translated code and the instruction table.
pub record IsPrepared (image : Block) (h : Header) (code pointers : Block) : Type 0 where
  pub code_size : h.code_length ≤ code.size
  pub table_size : h.instruction_count ≤ pointers.size
  pub table : (j : ℕ) → j < h.instruction_count → pointers.cell j ≡ int_start image h.code_offset j
  pub translated :
      IsTranslated image h.code_offset h.instruction_count code.size h.instruction_count code

module _ (image : Block) (h : Header)
    (c : IsCode image h.code_offset h.code_length h.instruction_count)
    (few : h.instruction_count < 2 ^ 31)
    (targets : TargetsExist image h.code_offset h.instruction_count) where
  prepare_code-prepares :
      (code pointers : Block) (s : State)
      → s.vm.instruction_count ≡ h.instruction_count
      → h.code_length ≤ code.size
      → h.instruction_count ≤ pointers.size
      → (code' pointers' : Block) × (prepare_code image h code pointers s
          ≡ some (true, with_code code' pointers' s))
        × IsPrepared image h code' pointers'
  unfolding prepare_code
  prepare_code-prepares code pointers s same hc hp =
      let (y, run, laid, room) =
        expand-IsLaid image h.code_offset h.code_length h.instruction_count c code pointers hc hp in
      let (code', run', done) =
        translate-IsTranslated image h.code_offset h.code_length h.instruction_count c few y laid
          room targets in
      let run'' : translate y.pointers s.vm.instruction_count h.instruction_count (y.code, 0)
          ≡ some (going (code', int_start image h.code_offset h.instruction_count)) =
        rw same run' in
      (
        code',
        y.pointers,
        rw (run, run''),
        record {
          code_size = rw (done.same_size) (room.code);
          table_size = room.pointers;
          table = laid.table;
          translated = rw (done.same_size) done;
        },
      )

  -- The code array before the passes.
  abbrev raw_code : Host → Block
  raw_code host = record {
    size = 4 * h.code_length;
    cell = λ q.
        if inside 0 h.code_length q
        then image.cell (h.code_offset + (q - 0))
        else host.junk code_sec q;
  }

  raw_code_lem :
      (host : Host)
      → h.code_length ≤ vm_max_image_size
      → copy_from
          (record { size = code_bytes h.code_length; cell = host.junk code_sec })
          0
          image
          h.code_offset
          h.code_length
        ≡ some (raw_code host)
  unfolding copy_from
  raw_code_lem host small = ground (arith, c.in_file)

  -- Well-formed byte code whose conditional jumps name instructions is accepted, and nothing
  -- outside the file, the code array and the instruction table is touched: the table holds the
  -- start of every instruction, the code array holds the op codes and operands, and the operand of
  -- a conditional jump is the start of the instruction that it named.
  pub prepare_interpreter-prepares :
      (host : Host) (s : State) (pointers : Block)
      → host.grants code_sec (code_bytes h.code_length) ≡ true
      → h.code_length ≤ vm_max_image_size
      → s.vm.code_length ≡ h.code_length
      → s.vm.instruction_count ≡ h.instruction_count
      → s.vm.instruction_pointers ≡ some pointers
      → h.instruction_count ≤ pointers.size
      → (code' pointers' : Block) × (prepare_interpreter host image h s
          ≡ some
              (true, with_code code' pointers' (record s { world = allocated code_sec s.world })))
        × IsPrepared image h code' pointers'
  prepare_interpreter-prepares host s pointers granted small length_ok count_ok table room =
      let next = record s { world = allocated code_sec s.world } in
      let (code', pointers', run, done) =
        prepare_code-prepares (as_ints (raw_code host)) pointers next count_ok (omega arith) room in
      (code', pointers', entered ∙ run, done)
    where
      entered :
          prepare_interpreter host image h s
          ≡ prepare_code image h
              (as_ints (raw_code host))
              pointers
              (record s { world = allocated code_sec s.world })
      entered = unfold prepare_interpreter fill_code in ground (arith, raw_code_lem host small)

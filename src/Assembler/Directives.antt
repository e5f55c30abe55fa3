-- ===== src/Assembler/Directives.antt =====
-- The clauses `TryAssemble..` of q3asm/q3asm.c, one action for the body of each.
use q3vm.Base.{
  ℕ, zero, suc, ◌+◌, ◌-◌, ◌/◌, ◌%◌, ◌^◌, Option, none, some, ◌==◌, ◌&&◌, if◌then◌else◌, List,
  bit_and,
}
use q3vm.Base.Word.{sle, com32, is_neg, sub32, add32}
use q3vm.Assembler.Expression.{parse_expression}
use q3vm.Assembler.Opcodes.{number}
use q3vm.Assembler.Run.{◌>>◌, pure, ok, ◌>>=◌, gets, faulted, modify}
use q3vm.Assembler.State.{
  dataseg, litseg, jtrgseg, count_instruction, codeseg, code_error, with_segment, Asm, emit_int,
  SegmentName, segment_of, emit_byte, parse, Action, parse_value,
}
use q3vm.Assembler.Symbols.{define_symbol, hack_to_segment}
use q3vm.Assembler.Text.{atoi_no_cap}
use q3vm.Opcode.{enter, local, push, pop, arg, call, Opcode}
use q3vm.Symbols.{starts_with}

abbrev pub emit_op : Opcode → Action (Unit {0})
emit_op op = emit_byte codeseg (number op)

-- `(x + 3) & ~3`.
abbrev pub round4 : ℕ → ℕ
round4 x = let y = add32 x 3 in y - y % 4

-- `8 + currentLocals + currentArgs`.
abbrev pub frame_size : Asm → ℕ
frame_size s = add32 (add32 8 s.current_locals) s.current_args

abbrev pub get_token : Action (List ℕ)
get_token = gets (λ s. s.token)

abbrev pub set_segment : SegmentName → Action (Unit {0})
set_segment name = modify (λ s. record s { current_segment = some name })

-- The segment behind `currentSegment`, which may still be `NULL`.
abbrev pub named : Option SegmentName → Action SegmentName
named none s = faulted
named (some name) s = ok (name, s)

unfoldable pub current_name : Action SegmentName
current_name s = named s.current_segment s

-- `currentSegment->imageUsed = f(currentSegment->imageUsed)`.
unfoldable pub set_used : (ℕ → ℕ) → SegmentName → Action (Unit {0})
unfolding segment_of with_segment
set_used f name s =
    let g = segment_of name s in
    ok (tt, with_segment name (record g { image_used = f g.image_used }) s)

-- CALL
unfoldable pub assemble_call : Action (Unit {0})
unfolding emit_byte count_instruction number ◌>>=◌
assemble_call = do
  emit_op call
  count_instruction
  modify (λ s. record s { current_arg_offset = 0 })

-- ARG
unfoldable pub assemble_arg : Action (Unit {0})
unfolding emit_byte count_instruction code_error number ◌>>=◌
assemble_arg = do
  emit_op arg
  count_instruction
  offset ← gets (λ s. s.current_arg_offset)
  if sle 256 (add32 8 offset) then code_error else (do
    emit_byte codeseg (add32 8 offset)
    modify (λ s. record s { current_arg_offset = add32 offset 4 }))

-- RET
unfoldable pub assemble_ret : Action (Unit {0})
unfolding emit_byte emit_int count_instruction number ◌>>=◌
assemble_ret = do
  emit_op Opcode.leave
  count_instruction
  size ← gets frame_size
  emit_int codeseg size

-- pop
unfoldable pub assemble_pop : Action (Unit {0})
unfolding emit_byte count_instruction number ◌>>=◌
assemble_pop = do emit_op pop; count_instruction

-- ADDRF and ADDRL, with the distance of the variables from the end of the frame.
unfoldable pub assemble_local : (Asm → ℕ) → Action (Unit {0})
unfolding emit_byte emit_int count_instruction number parse parse_expression ◌>>=◌
assemble_local distance = do
  count_instruction
  _ ← parse
  v ← parse_expression
  start ← gets distance
  emit_op local
  emit_int codeseg (add32 start v)

abbrev pub formal : Asm → ℕ
formal s = add32 (add32 16 s.current_args) s.current_locals

abbrev pub automatic : Asm → ℕ
automatic s = add32 8 s.current_args

-- proc
unfoldable pub assemble_proc : Action (Unit {0})
unfolding emit_byte emit_int count_instruction number parse parse_value define_symbol code_error
    ◌>>=◌
assemble_proc = do
  name ← parse
  count ← gets (λ s. s.instruction_count)
  define_symbol name count
  locals ← parse_value
  modify (λ s. record s { current_locals = round4 locals })
  args ← parse_value
  modify (λ s. record s { current_args = round4 args })
  size ← gets frame_size
  if sle 32767 size then code_error else pure tt
  count_instruction
  emit_op enter
  emit_int codeseg size

-- endproc
unfoldable pub assemble_endproc : Action (Unit {0})
unfolding emit_byte emit_int count_instruction number parse parse_value ◌>>=◌
assemble_endproc = do
  _ ← parse
  _ ← parse_value
  _ ← parse_value
  count_instruction
  emit_op push
  count_instruction
  emit_op Opcode.leave
  size ← gets frame_size
  emit_int codeseg size

-- address. The last test is the "crude test for labels".
unfoldable pub emit_target : ℕ → Action (Unit {0})
unfolding emit_int
emit_target v s =
    if (s.pass_number == 1) && starts_with 36 s.token then emit_int jtrgseg v s else ok (tt, s)

unfoldable pub assemble_address : Action (Unit {0})
unfolding emit_int parse parse_expression hack_to_segment current_name emit_target ◌>>=◌
assemble_address = do
  _ ← parse
  v ← parse_expression
  hack_to_segment dataseg
  name ← current_name
  emit_int name v
  emit_target v

-- equ
unfoldable pub assemble_equ : Action (Unit {0})
unfolding parse define_symbol atoi_no_cap ◌>>=◌
assemble_equ = do name ← parse; value ← parse; define_symbol name (atoi_no_cap value)

-- align and skip
abbrev pub aligned : ℕ → ℕ → ℕ
aligned v used = bit_and (sub32 (add32 used v) 1) (com32 (sub32 v 1))

unfoldable pub assemble_align : Action (Unit {0})
unfolding parse_value current_name set_used ◌>>=◌
assemble_align = do v ← parse_value; name ← current_name; set_used (aligned v) name

unfoldable pub assemble_skip : Action (Unit {0})
unfolding parse_value current_name set_used ◌>>=◌
assemble_skip = do v ← parse_value; name ← current_name; set_used (λ used. add32 used v) name

-- byte. `v2 >>= 8` keeps the sign.
abbrev pub shift_byte : ℕ → ℕ
shift_byte v = if is_neg v then v / 2 ^ 8 + (2 ^ 32 - 2 ^ 24) else v / 2 ^ 8

unfoldable pub emit_bytes : ℕ → ℕ → Action (Unit {0})
unfolding emit_byte current_name ◌>>=◌
emit_bytes zero v = pure tt
emit_bytes (suc n) v = do
  name ← current_name
  emit_byte name (v % 2 ^ 8)
  emit_bytes n (shift_byte v)

unfoldable pub choose_segment : ℕ → Action (Unit {0})
unfolding hack_to_segment code_error
choose_segment v =
    if v == 1
    then hack_to_segment litseg
    else if v == 4
    then hack_to_segment dataseg
    else if v == 2
    then code_error
    else pure tt

unfoldable pub assemble_byte : Action (Unit {0})
unfolding parse_value choose_segment emit_bytes ◌>>=◌
assemble_byte = do
  v ← parse_value
  v2 ← parse_value
  choose_segment v
  emit_bytes (if is_neg v then 0 else v) v2

-- LABEL
abbrev pub label_value : SegmentName → Asm → ℕ
label_value codeseg s = s.instruction_count
label_value name s = (segment_of name s).image_used

unfoldable pub assemble_label : Action (Unit {0})
unfolding segment_of parse current_name define_symbol ◌>>=◌
assemble_label = do
  label ← parse
  name ← current_name
  value ← gets (label_value name)
  define_symbol label value

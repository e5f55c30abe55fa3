-- ===== src/Interp/Exec.antt =====
-- The op codes of `VM_CallInterpreted`, in sections of its `switch`. Each section hands on what is
-- not its own.
use q3vm.Base.{ℕ, ◌*◌, Option, some, not, ltb, leb, ◌==◌, ◌>>=◌, bit_and, bit_or, bit_xor}
use q3vm.Base.Word.{
  u32, sext64, add32, sub32, neg32, com32, slt, sle, sdiv, smod, udiv, umod, shl, shr, sar, sex8,
  sex16,
}
use q3vm.Access.{block_copy as vm_block_copy}
use q3vm.Interp.Machine.{
  FloatUnit, Machine, Flow, next, outside, stop_with, dispatch_reloaded, operand, past_operand,
  replaced, popped, unary, binary, branch, float_at,
}
use q3vm.Memory.{Block, get, read2, read4, write1, write2, write4}
use q3vm.Opcode.{
  Opcode, eq, ne, lti, lei, gti, gei, ltu, leu, gtu, geu, eqf, nef, ltf, lef, gtf, gef, load1,
  load2, load4, store1, store2, store4, arg, block_copy, sex8 as op_sex8, sex16 as op_sex16, negi,
  add, sub, divi, divu, modi, modu, muli, mulu, band, bor, bxor, bcom, lsh, rshi, rshu, negf, addf,
  subf, divf, mulf, cvif, cvfi,
}
use q3vm.State.{bad_instruction}

-- Float op codes. The last section: what remains is `OP_UNDEF`.
unfoldable pub exec_float : FloatUnit → Opcode → Machine → Option Flow
exec_float f eqf m = branch (f.f_eq (float_at 1 (popped 2 m)) (float_at 2 (popped 2 m))) m
exec_float f nef m = branch (not (f.f_eq (float_at 1 (popped 2 m)) (float_at 2 (popped 2 m)))) m
exec_float f ltf m = branch (f.f_lt (float_at 1 (popped 2 m)) (float_at 2 (popped 2 m))) m
exec_float f lef m = branch (f.f_le (float_at 1 (popped 2 m)) (float_at 2 (popped 2 m))) m
exec_float f gtf m = branch (f.f_lt (float_at 2 (popped 2 m)) (float_at 1 (popped 2 m))) m
exec_float f gef m = branch (f.f_le (float_at 2 (popped 2 m)) (float_at 1 (popped 2 m))) m
exec_float f negf m = unary (some (f.f_neg (float_at 0 m))) m
exec_float f addf m = binary (some (f.f_add (float_at 0 (popped 1 m)) (float_at 1 (popped 1 m)))) m
exec_float f subf m = binary (some (f.f_sub (float_at 0 (popped 1 m)) (float_at 1 (popped 1 m)))) m
exec_float f divf m = binary (some (f.f_div (float_at 0 (popped 1 m)) (float_at 1 (popped 1 m)))) m
exec_float f mulf m = binary (some (f.f_mul (float_at 0 (popped 1 m)) (float_at 1 (popped 1 m)))) m
exec_float f cvif m = unary (some (f.of_int (float_at 0 m))) m
exec_float f cvfi m = unary (f.to_long (float_at 0 m)) m
exec_float f _ m = stop_with bad_instruction m

-- Integer arithmetic, bit operations and sign extensions.
unfoldable pub exec_int : FloatUnit → Opcode → Machine → Option Flow
exec_int f negi m = unary (some (neg32 m.r0)) m
exec_int f add m = binary (some (add32 m.r1 m.r0)) m
exec_int f sub m = binary (some (sub32 m.r1 m.r0)) m
exec_int f divi m = binary (sdiv m.r1 m.r0) m
exec_int f divu m = binary (udiv m.r1 m.r0) m
exec_int f modi m = binary (smod m.r1 m.r0) m
exec_int f modu m = binary (umod m.r1 m.r0) m
exec_int f muli m = binary (some (u32 (m.r1 * m.r0))) m
exec_int f mulu m = binary (some (u32 (m.r1 * m.r0))) m
exec_int f band m = binary (some (bit_and m.r1 m.r0)) m
exec_int f bor m = binary (some (bit_or m.r1 m.r0)) m
exec_int f bxor m = binary (some (bit_xor m.r1 m.r0)) m
exec_int f bcom m = unary (some (com32 m.r0)) m
exec_int f lsh m = binary (shl m.r1 m.r0) m
exec_int f rshi m = binary (sar m.r1 m.r0) m
exec_int f rshu m = binary (shr m.r1 m.r0) m
exec_int f op_sex8 m = unary (some (sex8 (m.op_stack m.op_stack_ofs))) m
exec_int f op_sex16 m = unary (some (sex16 (m.op_stack m.op_stack_ofs))) m
exec_int f op m = exec_float f op m

-- The jumps that compare integers.
unfoldable pub exec_branch : FloatUnit → Opcode → Machine → Option Flow
exec_branch f eq m = branch (m.r1 == m.r0) m
exec_branch f ne m = branch (not (m.r1 == m.r0)) m
exec_branch f lti m = branch (slt m.r1 m.r0) m
exec_branch f lei m = branch (sle m.r1 m.r0) m
exec_branch f gti m = branch (slt m.r0 m.r1) m
exec_branch f gei m = branch (sle m.r0 m.r1) m
exec_branch f ltu m = branch (ltb m.r1 m.r0) m
exec_branch f leu m = branch (leb m.r1 m.r0) m
exec_branch f gtu m = branch (ltb m.r0 m.r1) m
exec_branch f geu m = branch (leb m.r0 m.r1) m
exec_branch f op m = exec_int f op m

-- The data section. An address is masked before it is used.
abbrev pub masked : ℕ → Machine → ℕ
masked a m = bit_and a m.data_mask

abbrev pub loaded : Option ℕ → Machine → Option Flow
loaded value m = do v ← value; some (next (replaced v m))

abbrev pub written : Option Block → ℕ → Machine → Option Flow
written block k m = do image ← block; dispatch_reloaded (popped k (record m { image = image }))

-- OP_ARG
unfoldable pub exec_arg : Machine → Option Flow
exec_arg m = do
  offset ← operand m
  written (write4 m.image (masked (add32 offset m.program_stack) m) m.r0) 1 (past_operand m)

-- OP_BLOCK_COPY. The operand becomes a `size_t`; a refused copy is reported and passed over.
unfoldable pub exec_block_copy : Machine → Option Flow
exec_block_copy m = do
  n ← operand m
  s ← vm_block_copy m.r1 m.r0 (sext64 n) (outside m)
  image ← s.vm.data_base
  let copied = record m { vm = s.vm; world = s.world; image = image }
  dispatch_reloaded (popped 2 (past_operand copied))

unfoldable pub exec_memory : FloatUnit → Opcode → Machine → Option Flow
unfolding exec_arg exec_block_copy
exec_memory f load4 m = loaded (read4 m.image (masked m.r0 m)) m
exec_memory f load2 m = loaded (read2 m.image (masked m.r0 m)) m
exec_memory f load1 m = loaded (get m.image (masked m.r0 m)) m
exec_memory f store4 m = written (write4 m.image (masked m.r1 m) m.r0) 2 m
exec_memory f store2 m = written (write2 m.image (masked m.r1 m) m.r0) 2 m
exec_memory f store1 m = written (write1 m.image (masked m.r1 m) m.r0) 2 m
exec_memory f arg m = exec_arg m
exec_memory f block_copy m = exec_block_copy m
exec_memory f op m = exec_branch f op m

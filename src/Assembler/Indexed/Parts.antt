-- ===== src/Assembler/Indexed/Parts.antt =====
-- The parts of the clauses of q3asm/q3asm.c that leave the symbols alone, and the rest of them.
use q3vm.Base.{ℕ, arith}
use q3vm.Assembler.Closed.{Closed}
use q3vm.Assembler.Directives.{current_name, set_used, emit_target}
use q3vm.Assembler.Indexed.Keeps.{
  lookup_symbol-Keeps, define_symbol-Keeps, hack_to_segment-Keeps, code_error-Keeps, keep,
  chain-Keeps, Keeps, AllSame,
}
use q3vm.Assembler.State.{
  SegmentName, with_segment, parse, emit_byte, emit_int, count_instruction, jtrgseg,
}

emit_byte-AllSame : (name : SegmentName) (v : ℕ) → AllSame (emit_byte name v)
unfolding emit_byte with_segment
emit_byte-AllSame name v s a s' e = ground arith

emit_int-AllSame : (name : SegmentName) (v : ℕ) → AllSame (emit_int name v)
unfolding emit_int with_segment
emit_int-AllSame name v s a s' e = ground arith

emit_target-AllSame : (v : ℕ) → AllSame (emit_target v)
unfolding emit_target
emit_target-AllSame v s a s' e = ground (arith, emit_int-AllSame jtrgseg v s a s')

pub set_used-AllSame : (f : ℕ → ℕ) (name : SegmentName) → AllSame (set_used f name)
unfolding set_used with_segment
set_used-AllSame f name s a s' e = ground arith

pub keeps : Closed Keeps
unfolding count_instruction parse current_name
keeps = record {
  chain = chain-Keeps;
  pure_ = λ A a. keep λ s b s' e. ground arith;
  gets_ = λ A f. keep λ s b s' e. ground arith;
  crash_ = λ A. keep λ s b s' e. ground arith;
  error = code_error-Keeps;
  count = keep λ s b s' e. ground arith;
  byte = λ name v. keep (emit_byte-AllSame name v);
  int = λ name v. keep (emit_int-AllSame name v);
  target = λ v. keep (emit_target-AllSame v);
  token = keep λ s b s' e. ground arith;
  name = keep λ s b s' e. ground arith;
  used = λ f name. keep (set_used-AllSame f name);
  select = λ name. keep λ s b s' e. ground arith;
  hack = hack_to_segment-Keeps;
  offset = λ n. keep λ s b s' e. ground arith;
  locals = λ n. keep λ s b s' e. ground arith;
  args = λ n. keep λ s b s' e. ground arith;
  define = define_symbol-Keeps;
  lookup = lookup_symbol-Keeps;
}

-- ===== src/Assembler/Lockstep/Basic.antt =====
-- The functions of q3asm/q3asm.c that the clauses share keep the passes in step.
use q3vm.Base.{ℕ, ◌≡◌, arith}
use q3vm.Assembler.Directives.{current_name, set_segment, get_token, set_used}
use q3vm.Assembler.Lockstep.{then-Same, Lockstep, AllGrow, Same, Any, Lock}
use q3vm.Assembler.Run.{ok, pure, gets, crash}
use q3vm.Assembler.State.{
  parse, parse_value, codeseg, dataseg, litseg, bssseg, jtrgseg, emit_int, SegmentName,
  with_segment, segment_of, emit_byte, count_instruction, Asm, code_error,
}
use q3vm.Assembler.Text.{atoi_no_cap}

pub pure-Lock : {A : Type 0} (a : A) → Lock Same (pure a) (pure a)
pure-Lock a = record {
  left = λ s b s' e. ground arith;
  right = λ s b s' e. ground arith;
  together = λ s t b c s' t' r e f i j. ground arith;
}

pub pure-Any : {A : Type 0} (a b : A) → Lock Any (pure a) (pure b)
pure-Any a b = record {
  left = λ s c s' e. ground arith;
  right = λ s c s' e. ground arith;
  together = λ s t c d s' t' r e f i j. ground arith;
}

pub gets-Any : {A : Type 0} (f g : Asm → A) → Lock Any (gets f) (gets g)
gets-Any f g = record {
  left = λ s c s' e. ground arith;
  right = λ s c s' e. ground arith;
  together = λ s t c d s' t' r e f i j. ground arith;
}

pub crash-Lock : {A : Type 0} {V : A → A → Type 0} → Lock V crash crash
crash-Lock = record {
  left = λ s c s' e. ground arith;
  right = λ s c s' e. ground arith;
  together = λ s t c d s' t' r e f i j. ground arith;
}

pub code_error-Lock : Lock Any code_error code_error
unfolding code_error
code_error-Lock = record {
  left = λ s c s' e. ground arith;
  right = λ s c s' e. ground arith;
  together = λ s t c d s' t' r e f i j. ground arith;
}

pub count_instruction-Lock : Lock Any count_instruction count_instruction
unfolding count_instruction
count_instruction-Lock = record {
  left = λ s c s' e. ground arith;
  right = λ s c s' e. ground arith;
  together = λ s t c d s' t' r e f i j. ground arith;
}

emit_byte-Grows : (name : SegmentName) (v : ℕ) → AllGrow (emit_byte name v)
unfolding emit_byte with_segment
emit_byte-Grows codeseg v s a s' e = ground arith
emit_byte-Grows dataseg v s a s' e = ground arith
emit_byte-Grows litseg v s a s' e = ground arith
emit_byte-Grows bssseg v s a s' e = ground arith
emit_byte-Grows jtrgseg v s a s' e = ground arith

emit_byte-together :
    (name : SegmentName) (v w : ℕ) (s t : Asm) (a b : Unit {0}) (s' t' : Asm)
    → Lockstep s t
    → emit_byte name v s ≡ ok (a, s')
    → emit_byte name w t ≡ ok (b, t')
    → Lockstep s' t' × Any a b
unfolding emit_byte segment_of with_segment
emit_byte-together codeseg v w s t a b s' t' r e f = ground arith
emit_byte-together dataseg v w s t a b s' t' r e f = ground arith
emit_byte-together litseg v w s t a b s' t' r e f = ground arith
emit_byte-together bssseg v w s t a b s' t' r e f = ground arith
emit_byte-together jtrgseg v w s t a b s' t' r e f = ground arith

pub emit_byte-Lock : (name : SegmentName) (v w : ℕ) → Lock Any (emit_byte name v) (emit_byte name w)
emit_byte-Lock name v w = record {
  left = emit_byte-Grows name v;
  right = emit_byte-Grows name w;
  together = λ s t a b s' t' r e f i j. emit_byte-together name v w s t a b s' t' r e f;
}

emit_int-Grows : (name : SegmentName) (v : ℕ) → AllGrow (emit_int name v)
unfolding emit_int with_segment
emit_int-Grows codeseg v s a s' e = ground arith
emit_int-Grows dataseg v s a s' e = ground arith
emit_int-Grows litseg v s a s' e = ground arith
emit_int-Grows bssseg v s a s' e = ground arith
emit_int-Grows jtrgseg v s a s' e = ground arith

emit_int-together :
    (name : SegmentName) (v w : ℕ) (s t : Asm) (a b : Unit {0}) (s' t' : Asm)
    → Lockstep s t
    → emit_int name v s ≡ ok (a, s')
    → emit_int name w t ≡ ok (b, t')
    → Lockstep s' t' × Any a b
unfolding emit_int segment_of with_segment
emit_int-together codeseg v w s t a b s' t' r e f = ground arith
emit_int-together dataseg v w s t a b s' t' r e f = ground arith
emit_int-together litseg v w s t a b s' t' r e f = ground arith
emit_int-together bssseg v w s t a b s' t' r e f = ground arith
emit_int-together jtrgseg v w s t a b s' t' r e f = ground arith

pub emit_int-Lock : (name : SegmentName) (v w : ℕ) → Lock Any (emit_int name v) (emit_int name w)
emit_int-Lock name v w = record {
  left = emit_int-Grows name v;
  right = emit_int-Grows name w;
  together = λ s t a b s' t' r e f i j. emit_int-together name v w s t a b s' t' r e f;
}

set_used-Grows : (f : ℕ → ℕ) (name : SegmentName) → AllGrow (set_used f name)
unfolding set_used with_segment segment_of
set_used-Grows f codeseg s a s' e = ground arith
set_used-Grows f dataseg s a s' e = ground arith
set_used-Grows f litseg s a s' e = ground arith
set_used-Grows f bssseg s a s' e = ground arith
set_used-Grows f jtrgseg s a s' e = ground arith

set_used-together :
    (f : ℕ → ℕ) (name : SegmentName) (s t : Asm) (a b : Unit {0}) (s' t' : Asm)
    → Lockstep s t
    → set_used f name s ≡ ok (a, s')
    → set_used f name t ≡ ok (b, t')
    → Lockstep s' t' × Any a b
unfolding set_used segment_of with_segment
set_used-together f codeseg s t a b s' t' r e h = ground arith
set_used-together f dataseg s t a b s' t' r e h = ground arith
set_used-together f litseg s t a b s' t' r e h = ground arith
set_used-together f bssseg s t a b s' t' r e h = ground arith
set_used-together f jtrgseg s t a b s' t' r e h = ground arith

pub set_used-Lock : (f : ℕ → ℕ) (name : SegmentName) → Lock Any (set_used f name) (set_used f name)
set_used-Lock f name = record {
  left = set_used-Grows f name;
  right = set_used-Grows f name;
  together = λ s t a b s' t' r e h i j. set_used-together f name s t a b s' t' r e h;
}

parse-Grows : AllGrow parse
unfolding parse
parse-Grows s a s' e = ground arith

pub parse-Lock : Lock Same parse parse
unfolding parse
parse-Lock = record {
  left = parse-Grows;
  right = parse-Grows;
  together = λ s t a b s' t' r e f i j. ground arith;
}

pub parse_value-Lock : Lock Same parse_value parse_value
unfolding parse_value
parse_value-Lock = then-Same parse-Lock (λ token. pure-Lock (atoi_no_cap token))

pub current_name-Lock : Lock Same current_name current_name
unfolding current_name
current_name-Lock = record {
  left = λ s a s' e. ground arith;
  right = λ s a s' e. ground arith;
  together = λ s t a b s' t' r e f i j. ground arith;
}

pub get_token-Lock : Lock Same get_token get_token
get_token-Lock = record {
  left = λ s a s' e. ground arith;
  right = λ s a s' e. ground arith;
  together = λ s t a b s' t' r e f i j. ground arith;
}

pub set_segment-Lock : (name : SegmentName) → Lock Any (set_segment name) (set_segment name)
set_segment-Lock name = record {
  left = λ s a s' e. ground arith;
  right = λ s a s' e. ground arith;
  together = λ s t a b s' t' r e f i j. ground arith;
}

-- ===== src/Assembler/Bytes/All.antt =====
-- All of `Assemble` of q3asm/q3asm.c leaves bytes in the images.
use q3vm.Base.{
  ℕ, ◌+◌, ◌≡◌, Option, none, some, arith, Bool, true, false, ◌==◌, ◌&&◌, if◌then◌else◌, List, [],
  ◌∷◌, sym,
}
use q3vm.Assembler.Bytes.{
  same-AreBytes, set_used-KeepImages, emit_int-StayBytes, emit_byte-StayBytes, AreBytes,
  chain-StayBytes, stay, StayBytes, SameImages, KeepImages,
}
use q3vm.Assembler.Closed.{Closed}
use q3vm.Assembler.Closed.Passes.{assemble-P, ClosedPasses}
use q3vm.Assembler.Directives.{current_name, emit_target}
use q3vm.Assembler.Hash.{hash_string, bucket_of}
use q3vm.Assembler.Passes.{align_all, start_pass, open_file, initial, assemble, extract_line}
use q3vm.Assembler.Run.{ok, continue-eq-ok, modify, ◌>>=◌}
use q3vm.Assembler.State.{
  emit_int, SegmentName, Sym, parse, Asm, count_instruction, code_error, jtrgseg,
}
use q3vm.Assembler.Symbols.{
  find_hashed, define_in, lookup_in, move_last, in_pass, expanded_name, define_symbol, address_of,
  undefined_symbol, hack_to_segment, sort_symbols, lookup_symbol,
}
use q3vm.Symbols.{starts_with}

code_error-KeepImages : KeepImages code_error
unfolding code_error
code_error-KeepImages s a s' e = ground arith

define_in-KeepImages : (o : Option ℕ) (name : List ℕ) (v : ℕ) → KeepImages (define_in o name v)
unfolding code_error
define_in-KeepImages none name v s a s' e = ground arith
define_in-KeepImages (some b) name v s a s' e = ground arith

define_symbol-KeepImages : (name : List ℕ) (v : ℕ) → KeepImages (define_symbol name v)
unfolding define_symbol
define_symbol-KeepImages name v s a s' e =
    let key = expanded_name s.current_file_index name in
    ground (arith, define_in-KeepImages (bucket_of s.buckets (hash_string key)) key v s a s')

undefined_symbol-KeepImages : (name : List ℕ) → KeepImages (undefined_symbol name)
unfolding undefined_symbol code_error ◌>>=◌
undefined_symbol-KeepImages name s a s' e =
    let s1 = in_pass 0 (record s { error_count = s.error_count + 1 }) in
    let (b, s2, e1, e2) = continue-eq-ok (define_symbol name 0 s1) _ e in
    ground (arith, define_symbol-KeepImages name 0 s1 b s2 e1)

found-KeepImages :
    (o : Option Sym) (name : List ℕ)
    → KeepImages (λ s. elim o [ some sym ↦ address_of sym s | none ↦ undefined_symbol name s ])
unfolding address_of
found-KeepImages (some sym) name s a s' e = ground arith
found-KeepImages none name s a s' e = undefined_symbol-KeepImages name s a s' e

lookup_in-KeepImages : (o : Option ℕ) (name : List ℕ) → KeepImages (lookup_in o name)
lookup_in-KeepImages none name s a s' e = ground arith
lookup_in-KeepImages (some b) name s a s' e =
    found-KeepImages (find_hashed s.store (hash_string name) name (s.table b)) name s a s' e

lookup_symbol-KeepImages : (name : List ℕ) → KeepImages (lookup_symbol name)
unfolding lookup_symbol
lookup_symbol-KeepImages name s a s' e =
    let key = expanded_name s.current_file_index name in
    ground (arith, lookup_in-KeepImages (bucket_of s.buckets (hash_string key)) key s a s')

hack_to_segment-KeepImages : (name : SegmentName) → KeepImages (hack_to_segment name)
unfolding hack_to_segment move_last
hack_to_segment-KeepImages name s a s' e = ground arith

emit_target-StayBytes : (v : ℕ) → StayBytes (Unit {0}) (emit_target v)
unfolding emit_target
emit_target-StayBytes v s a s' = chosen ((s.pass_number == 1) && starts_with 36 s.token)
  where
    chosen :
        (b : Bool)
        → (if b then emit_int jtrgseg v s else ok (tt, s)) ≡ ok (a, s')
        → AreBytes s
        → AreBytes s'
    chosen true e h = emit_int-StayBytes jtrgseg v s a s' e h
    chosen false e h = same-AreBytes s s' (ground arith) h

extract_line-KeepImages : (text : List ℕ) → KeepImages (extract_line text)
unfolding extract_line code_error ◌>>=◌
extract_line-KeepImages [] s a s' e = ground arith
extract_line-KeepImages (c ∷ rest) s a s' e = ground arith

sort_symbols-KeepImages : (qsort : (ℕ → ℕ → ℕ) → List ℕ → List ℕ) → KeepImages (sort_symbols qsort)
unfolding sort_symbols
sort_symbols-KeepImages qsort s a s' e = ground arith

bytes_closed : Closed StayBytes
unfolding count_instruction parse current_name
bytes_closed = record {
  chain = chain-StayBytes;
  pure_ = λ A a. stay λ s b s' e. ground arith;
  gets_ = λ A f. stay λ s b s' e. ground arith;
  crash_ = λ A. stay λ s b s' e. ground arith;
  error = stay code_error-KeepImages;
  count = stay λ s b s' e. ground arith;
  byte = emit_byte-StayBytes;
  int = emit_int-StayBytes;
  target = emit_target-StayBytes;
  token = stay λ s b s' e. ground arith;
  name = stay λ s b s' e. ground arith;
  used = λ f name. stay (set_used-KeepImages f name);
  select = λ name. stay λ s b s' e. ground arith;
  hack = λ name. stay (hack_to_segment-KeepImages name);
  offset = λ n. stay λ s b s' e. ground arith;
  locals = λ n. stay λ s b s' e. ground arith;
  args = λ n. stay λ s b s' e. ground arith;
  define = λ name v. stay (define_symbol-KeepImages name v);
  lookup = λ name. stay (lookup_symbol-KeepImages name);
}

modify-StayBytes :
    (f : Asm → Asm) → ((s : Asm) → SameImages s (f s)) → StayBytes (Unit {0}) (modify f)
modify-StayBytes f h = stay λ s a s' e. ground (arith, h s)

bytes_passes : ClosedPasses StayBytes
bytes_passes = record {
  clauses_ = bytes_closed;
  hang_ = stay λ s a s' e. ground arith;
  extract = λ text. stay (extract_line-KeepImages text);
  open_ = λ index. modify-StayBytes (open_file index) (λ s. ground arith);
  start = λ n. modify-StayBytes (start_pass n) (λ s. ground arith);
  align = modify-StayBytes align_all (λ s. ground arith);
  enter_ = λ n. modify-StayBytes (in_pass n) (λ s. ground arith);
  sort = λ qsort. stay (sort_symbols-KeepImages qsort);
}

pub assemble-AreBytes :
    (qsort : (ℕ → ℕ → ℕ) → List ℕ → List ℕ) (n buckets : ℕ) (texts : List (List ℕ)) (s : Asm)
    → assemble qsort n texts (initial buckets) ≡ ok (tt, s)
    → AreBytes s
assemble-AreBytes qsort n buckets texts s e =
    assemble-P StayBytes bytes_passes qsort n texts (initial buckets) tt s e (record {
      code_bytes_ = λ q. omega arith;
      data_bytes = λ q. omega arith;
      lit_bytes = λ q. omega arith;
      bss_bytes = λ q. omega arith;
      jtrg_bytes = λ q. omega arith;
    })

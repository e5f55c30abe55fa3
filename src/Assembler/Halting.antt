-- ===== src/Assembler/Halting.antt =====
-- The loops of `Assemble` in q3asm/q3asm.c end, if the lines are short.
use q3vm.Base.{
  ℕ, zero, suc, ◌≤◌, ◌<◌, ◌≡◌, refl, Option, none, some, arith, Bool, true, false, ◌==◌,
  if◌then◌else◌, List, [], ◌∷◌, length, sym,
}
use q3vm.Assembler.Closed.{Closed}
use q3vm.Assembler.Closed.Line.{assemble_line-P}
use q3vm.Assembler.Directives.{emit_target, set_used, current_name}
use q3vm.Assembler.Hash.{bucket_of, hash_string}
use q3vm.Assembler.Line.{assemble_line}
use q3vm.Assembler.Passes.{next_line, assemble_lines, extract_line, max_line_length}
use q3vm.Assembler.Run.{pure, continue, modify, Run, ◌>>=◌, unfinished, ok, exited, faulted}
use q3vm.Assembler.State.{
  jtrgseg, SegmentName, Asm, parse, Sym, count_instruction, emit_int, emit_byte, Action, code_error,
}
use q3vm.Assembler.Symbols.{
  move_last, hack_to_segment, in_pass, find_hashed, expanded_name, define_in, define_symbol,
  lookup_in, address_of, undefined_symbol, lookup_symbol,
}
use q3vm.Assembler.Text.{split_line}

abbrev pub Halts : (A : Type 0) → Action A → Type 0
Halts A m = (s : Asm) → ¬ (m s ≡ unfinished)

continue-Halts :
    {A B : Type 0} (r : Run (A × Asm)) (k : A → Action B)
    → ¬ (r ≡ unfinished)
    → ((a : A) → Halts B (k a))
    → ¬ (continue r k ≡ unfinished)
continue-Halts (ok (a, s)) k h i = i a s
continue-Halts exited k h i = λ e. ground arith
continue-Halts faulted k h i = λ e. ground arith
continue-Halts unfinished k h i = λ e. h refl

pub pure-Halts : (A : Type 0) (a : A) → Halts A (pure a)
pure-Halts A a s = λ e. ground arith

pub modify-Halts : (f : Asm → Asm) → Halts (Unit {0}) (modify f)
modify-Halts f s = λ e. ground arith

pub chain-Halts :
    (A B : Type 0) (m : Action A) (k : A → Action B)
    → Halts A m
    → ((a : A) → Halts B (k a))
    → Halts B (m >>= k)
unfolding ◌>>=◌
chain-Halts A B m k h i s = continue-Halts (m s) k (h s) i

if-Halts :
    {A : Type 0} (b : Bool) {r q : Run (A × Asm)}
    → ¬ (r ≡ unfinished)
    → ¬ (q ≡ unfinished)
    → ¬ ((if b then r else q) ≡ unfinished)
if-Halts true h i = h
if-Halts false h i = i

emit_byte-Halts : (name : SegmentName) (v : ℕ) → Halts (Unit {0}) (emit_byte name v)
unfolding emit_byte
emit_byte-Halts name v s = λ e. ground arith

emit_int-Halts : (name : SegmentName) (v : ℕ) → Halts (Unit {0}) (emit_int name v)
unfolding emit_int
emit_int-Halts name v s = λ e. ground arith

define_in-Halts : (b : Option ℕ) (name : List ℕ) (v : ℕ) → Halts (Unit {0}) (define_in b name v)
unfolding code_error
define_in-Halts none name v s = λ e. ground arith
define_in-Halts (some b) name v s = λ e. ground arith

pub define_symbol-Halts : (name : List ℕ) (v : ℕ) → Halts (Unit {0}) (define_symbol name v)
unfolding define_symbol
define_symbol-Halts name v s =
    let key = expanded_name s.current_file_index name in
    if-Halts (s.pass_number == 1) (λ e. ground arith)
      (define_in-Halts (bucket_of s.buckets (hash_string key)) key v s)

code_error-Halts : Halts (Unit {0}) code_error
unfolding code_error
code_error-Halts s = λ e. ground arith

undefined_symbol-Halts : (name : List ℕ) → Halts ℕ (undefined_symbol name)
unfolding undefined_symbol
undefined_symbol-Halts name = chain-Halts (Unit {0}) ℕ code_error _ code_error-Halts λ _.
    chain-Halts (Unit {0}) ℕ (modify (in_pass 0)) _ (modify-Halts (in_pass 0)) λ _.
      chain-Halts (Unit {0}) ℕ (define_symbol name 0) _ (define_symbol-Halts name 0) λ _.
        chain-Halts (Unit {0}) ℕ (modify (in_pass 1)) _ (modify-Halts (in_pass 1))
          λ _. pure-Halts ℕ 0

found-Halts :
    (o : Option Sym) (name : List ℕ)
    → Halts ℕ (λ s. elim o [ some sym ↦ address_of sym s | none ↦ undefined_symbol name s ])
unfolding address_of
found-Halts (some sym) name = λ s e. ground arith
found-Halts none name = undefined_symbol-Halts name

lookup_in-Halts : (b : Option ℕ) (name : List ℕ) → Halts ℕ (lookup_in b name)
lookup_in-Halts none name = λ s e. ground arith
lookup_in-Halts (some b) name =
    λ s. found-Halts (find_hashed s.store (hash_string name) name (s.table b)) name s

lookup_symbol-Halts : (name : List ℕ) → Halts ℕ (lookup_symbol name)
unfolding lookup_symbol
lookup_symbol-Halts name s =
    let key = expanded_name s.current_file_index name in
    if-Halts (s.pass_number == 0) (λ e. ground arith)
      (lookup_in-Halts (bucket_of s.buckets (hash_string key)) key s)

halts : Closed Halts
unfolding count_instruction parse current_name set_used emit_target hack_to_segment move_last
halts = record {
  chain = chain-Halts;
  pure_ = λ A a s e. ground arith;
  gets_ = λ A f s e. ground arith;
  crash_ = λ A s e. ground arith;
  error = code_error-Halts;
  count = λ s e. ground arith;
  byte = emit_byte-Halts;
  int = emit_int-Halts;
  target = λ v s. if-Halts _ (emit_int-Halts jtrgseg v s) (pure-Halts (Unit {0}) tt s);
  token = λ s e. ground arith;
  name = λ s e. ground arith;
  used = λ f name s e. ground arith;
  select = λ name s e. ground arith;
  hack = λ name s e. ground arith;
  offset = λ n s e. ground arith;
  locals = λ n s e. ground arith;
  args = λ n s e. ground arith;
  define = define_symbol-Halts;
  lookup = lookup_symbol-Halts;
}

-- Every line of the text has less than 1024 characters.
abbrev pub AllShort : List ℕ → Type 0
AllShort [] = Unit {0}
AllShort (c ∷ rest) = (length (split_line (c ∷ rest)).0 < max_line_length) × AllShort rest

abbrev RestShort : List ℕ × List ℕ → Type 0
RestShort (line, rest) = AllShort rest

either-AllShort :
    (b : Bool) (p q : List ℕ × List ℕ) → RestShort p → RestShort q → RestShort (if b then p else q)
either-AllShort true p q h i = h
either-AllShort false p q h i = i

split_line-AllShort : (text : List ℕ) → AllShort text → AllShort (split_line text).1
unfolding split_line
split_line-AllShort [] h = tt
split_line-AllShort (c ∷ rest) (h, hs) =
    let (line, after) = split_line rest in
    either-AllShort (c == 10) ([], rest) (c ∷ line, after) hs (split_line-AllShort rest hs)

split_line-le : (text : List ℕ) → length (split_line text).1 ≤ length text
unfolding split_line
split_line-le [] = ground arith
split_line-le (c ∷ rest) = ground (arith, split_line-le rest)

split_line-lt : (c : ℕ) (rest : List ℕ) → length (split_line (c ∷ rest)).1 < length (c ∷ rest)
unfolding split_line
split_line-lt c rest = ground (arith, split_line-le rest)

extract_line-short :
    (c : ℕ) (rest : List ℕ) (s : Asm)
    → length (split_line (c ∷ rest)).0 < max_line_length
    → extract_line (c ∷ rest) s
      ≡ ok (
        some (split_line (c ∷ rest)).1,
        record (next_line s) { rest = (split_line (c ∷ rest)).0 },
      )
unfolding extract_line
extract_line-short c rest s h = ground arith

assemble_line-Halts : Halts (Unit {0}) assemble_line
assemble_line-Halts = assemble_line-P Halts halts

pub assemble_lines-Halts :
    (fuel : ℕ) (text : List ℕ)
    → AllShort text
    → length text < fuel
    → Halts (Unit {0}) (assemble_lines fuel text)
unfolding assemble_lines extract_line ◌>>=◌
assemble_lines-Halts zero text h i s = absurd (omega arith)
assemble_lines-Halts (suc fuel) [] h i s =
    continue-Halts (assemble_line (next_line s)) _ (assemble_line-Halts (next_line s))
      λ _. pure-Halts (Unit {0}) tt
assemble_lines-Halts (suc fuel) (c ∷ rest) (h, hs) i s =
    let (line, after) = split_line (c ∷ rest) in
    let short : AllShort after = split_line-AllShort (c ∷ rest) (h, hs) in
    let less : length after < fuel = omega (arith, split_line-lt c rest) in
    let s' = record (next_line s) { rest = line } in
    rw (extract_line-short c rest s h) (
      continue-Halts (assemble_line s') _ (assemble_line-Halts s')
        λ _. assemble_lines-Halts fuel after short less)

split_line-line : (text : List ℕ) → length (split_line text).0 ≤ length text
unfolding split_line
split_line-line [] = ground arith
split_line-line (c ∷ rest) = ground (arith, split_line-line rest)

pub short-AllShort : (text : List ℕ) → length text < max_line_length → AllShort text
short-AllShort [] h = tt
short-AllShort (c ∷ rest) h =
    (omega (arith, split_line-line (c ∷ rest), h), short-AllShort rest (omega (arith, h)))

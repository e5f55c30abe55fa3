-- ===== src/Assembler/Lockstep/Quiet.antt =====
-- The symbols and the frame of a function do not show in the layout: what defines or looks up a
-- symbol leaves the passes in step whatever it finds.
use q3vm.Base.{
  ℕ, ◌+◌, ◌≡◌, refl, Option, none, some, arith, Bool, true, false, if◌then◌else◌, List, sym,
}
use q3vm.Assembler.Directives.{emit_target}
use q3vm.Assembler.Expression.{starts_number, parse_expression, term_value}
use q3vm.Assembler.Hash.{hash_string, bucket_of}
use q3vm.Assembler.Lockstep.{Grows, Any, Lockstep, Lock}
use q3vm.Assembler.Run.{continue-eq-ok, modify, ok, ◌>>=◌}
use q3vm.Assembler.State.{
  with_segment, emit_int, SegmentName, codeseg, dataseg, litseg, bssseg, jtrgseg, Sym, Action, Asm,
  code_error,
}
use q3vm.Assembler.Symbols.{
  in_segment, hack_to_segment, move_last, in_pass, find_hashed, expanded_name, define_in,
  lookup_symbol, lookup_in, address_of, define_symbol, undefined_symbol,
}
use q3vm.Assembler.Text.{first_term}

abbrev pub Unmoved : Asm → Asm → Type 0
Unmoved s t =
    (s.code.image_used ≡ t.code.image_used)
    × (s.data_.image_used ≡ t.data_.image_used)
    × (s.lit.image_used ≡ t.lit.image_used)
    × (s.bss.image_used ≡ t.bss.image_used)
    × (s.instruction_count ≡ t.instruction_count)
    × (s.rest ≡ t.rest)
    × (s.token ≡ t.token)
    × (s.current_segment ≡ t.current_segment)
    × Grows s t

abbrev pub AllUnmoved : {A : Type 0} → Action A → Type 0
AllUnmoved {A} m = (s : Asm) (a : A) (s' : Asm) → m s ≡ ok (a, s') → Unmoved s s'

Unmoved-Lockstep : (s t s' t' : Asm) → Lockstep s t → Unmoved s s' → Unmoved t t' → Lockstep s' t'
Unmoved-Lockstep s t s' t' r p q = ground arith

pub quiet : {A : Type 0} {m n : Action A} → AllUnmoved m → AllUnmoved n → Lock Any m n
quiet p q = record {
  left = λ s a s' e. ground (arith, p s a s' e);
  right = λ s a s' e. ground (arith, q s a s' e);
  together =
      λ s t a b s' t' r e f i j. (Unmoved-Lockstep s t s' t' r (p s a s' e) (q t b t' f), tt);
}

code_error-Unmoved : AllUnmoved code_error
unfolding code_error
code_error-Unmoved s a s' e = ground arith

define_in-Unmoved : (b : Option ℕ) (name : List ℕ) (v : ℕ) → AllUnmoved (define_in b name v)
unfolding code_error
define_in-Unmoved none name v s a s' e = ground arith
define_in-Unmoved (some b) name v s a s' e = ground arith

pub define_symbol-Unmoved : (name : List ℕ) (v : ℕ) → AllUnmoved (define_symbol name v)
unfolding define_symbol
define_symbol-Unmoved name v s a s' e =
    let key = expanded_name s.current_file_index name in
    ground (arith, define_in-Unmoved (bucket_of s.buckets (hash_string key)) key v s a s')

undefined_symbol-Unmoved : (name : List ℕ) → AllUnmoved (undefined_symbol name)
unfolding undefined_symbol code_error ◌>>=◌
undefined_symbol-Unmoved name s a s' e =
    let s1 = in_pass 0 (record s { error_count = s.error_count + 1 }) in
    let (b, s2, e1, e2) = continue-eq-ok (define_symbol name 0 s1) _ e in
    ground (arith, define_symbol-Unmoved name 0 s1 b s2 e1)

address_of-Unmoved : (sym : Sym) → AllUnmoved (address_of sym)
unfolding address_of
address_of-Unmoved sym s a s' e = ground arith

found-Unmoved :
    (o : Option Sym) (name : List ℕ)
    → AllUnmoved (λ s. elim o [ some sym ↦ address_of sym s | none ↦ undefined_symbol name s ])
found-Unmoved (some sym) name = address_of-Unmoved sym
found-Unmoved none name = undefined_symbol-Unmoved name

lookup_in-Unmoved : (b : Option ℕ) (name : List ℕ) → AllUnmoved (lookup_in b name)
lookup_in-Unmoved none name s a s' e = ground arith
lookup_in-Unmoved (some b) name s a s' e =
    found-Unmoved (find_hashed s.store (hash_string name) name (s.table b)) name s a s' e

lookup_symbol-Unmoved : (name : List ℕ) → AllUnmoved (lookup_symbol name)
unfolding lookup_symbol
lookup_symbol-Unmoved name s a s' e =
    let key = expanded_name s.current_file_index name in
    ground (arith, lookup_in-Unmoved (bucket_of s.buckets (hash_string key)) key s a s')

pub define_symbol-Lock :
    (name : List ℕ) (v w : ℕ) → Lock Any (define_symbol name v) (define_symbol name w)
define_symbol-Lock name v w = quiet (define_symbol-Unmoved name v) (define_symbol-Unmoved name w)

pub modify-Lock :
    (f g : Asm → Asm)
    → ((s : Asm) → Unmoved s (f s))
    → ((s : Asm) → Unmoved s (g s))
    → Lock Any (modify f) (modify g)
modify-Lock f g p q = quiet (λ s a s' e. ground (arith, p s)) (λ s a s' e. ground (arith, q s))

if-Unmoved :
    {A : Type 0} (c : Bool) {m k : Action A}
    → AllUnmoved m
    → AllUnmoved k
    → AllUnmoved (if c then m else k)
if-Unmoved true h i = h
if-Unmoved false h i = i

term_value-Unmoved : (text : List ℕ) → AllUnmoved (term_value text)
unfolding term_value
term_value-Unmoved text =
    if-Unmoved (starts_number text) (λ s a s' e. ground arith) (lookup_symbol-Unmoved text)

parse_expression-Unmoved : AllUnmoved parse_expression
unfolding parse_expression ◌>>=◌
parse_expression-Unmoved s a s' e =
    let text = (first_term s.token).0 in
    let (v, s1, e1, e2) = continue-eq-ok (term_value text s) _ e in
    ground (arith, term_value-Unmoved text s v s1 e1)

pub parse_expression-Lock : Lock Any parse_expression parse_expression
parse_expression-Lock = quiet parse_expression-Unmoved parse_expression-Unmoved

emit_target-Unmoved : (v : ℕ) → AllUnmoved (emit_target v)
unfolding emit_target emit_int with_segment
emit_target-Unmoved v s a s' e = ground arith

pub emit_target-Lock : (v w : ℕ) → Lock Any (emit_target v) (emit_target w)
emit_target-Lock v w = quiet (emit_target-Unmoved v) (emit_target-Unmoved w)

-- A change of the segment leads both passes to the same one.
abbrev Selects : SegmentName → Asm → Asm → Type 0
Selects name s t =
    Unmoved s (record t { current_segment = s.current_segment }) × (t.current_segment ≡ some name)

in_segment-eq :
    (name : SegmentName) (o : Option SegmentName) → in_segment name o ≡ true → o ≡ some name
in_segment-eq name none e = cc
in_segment-eq codeseg (some codeseg) e = refl
in_segment-eq dataseg (some dataseg) e = refl
in_segment-eq litseg (some litseg) e = refl
in_segment-eq bssseg (some bssseg) e = refl
in_segment-eq jtrgseg (some jtrgseg) e = refl
in_segment-eq _ (some _) e = ground arith

move_last-Unmoved : (name : SegmentName) → AllUnmoved (move_last name)
unfolding move_last
move_last-Unmoved name s a s' e = ground arith

hack_to_segment-Selects :
    (name : SegmentName) (s : Asm) (a : Unit {0}) (s' : Asm)
    → hack_to_segment name s ≡ ok (a, s')
    → Selects name s s'
unfolding hack_to_segment
hack_to_segment-Selects name s a s' e =
    let moved = record s { current_segment = some name } in
    ground (arith, in_segment-eq name s.current_segment, move_last-Unmoved name moved a s')

pub hack_to_segment-Lock :
    (name : SegmentName) → Lock Any (hack_to_segment name) (hack_to_segment name)
hack_to_segment-Lock name = record {
  left = λ s a s' e. ground (arith, hack_to_segment-Selects name s a s' e);
  right = λ s a s' e. ground (arith, hack_to_segment-Selects name s a s' e);
  together = λ s t a b s' t' r e f i j.
      ground (arith, hack_to_segment-Selects name s a s' e, hack_to_segment-Selects name t b t' f);
}

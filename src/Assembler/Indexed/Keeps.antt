-- ===== src/Assembler/Indexed/Keeps.antt =====
-- Every action of q3asm/q3asm.c keeps the hash table an index of the symbols.
use q3vm.Base.{
  ℕ, ap, ◌≡◌, refl, ◌∙◌, Option, none, some, arith, Bool, true, false, ◌==◌, if◌then◌else◌, List,
  length, sym,
}
use q3vm.Assembler.Hash.{bucket_of, hash_string}
use q3vm.Assembler.Indexed.{IsIndexed}
use q3vm.Assembler.Indexed.Laws.{
  AllHashed-append, AllHashed-update, pointers-update, pointers-append, KeepsName, chain_add_lem,
}
use q3vm.Assembler.Run.{pure, faulted, modify, continue-eq-ok, Run, ◌>>=◌, ok}
use q3vm.Assembler.State.{segment_of, SegmentName, code_error, Asm, Action, Sym}
use q3vm.Assembler.Symbols.{
  in_pass, in_segment, find_hashed, lookup_symbol, hack_to_segment, undefined_symbol, address_of,
  lookup_in, move_last, find_named, expanded_name, new_symbol, added, define_symbol, define_in,
  update_at,
}
use mathlib.Core.Path.{subst}

abbrev pub Keeps : (A : Type 0) → Action A → Type 0
Keeps A m = (s : Asm) (a : A) (s' : Asm) → m s ≡ ok (a, s') → IsIndexed s → IsIndexed s'

abbrev pub SameTable : Asm → Asm → Type 0
SameTable s t = (s.store ≡ t.store) × (s.table ≡ t.table) × (s.buckets ≡ t.buckets)

pub same-Indexed : (s t : Asm) → SameTable s t → IsIndexed s → IsIndexed t
same-Indexed s t (e, f, g) i = record {
  chains = λ b. sym (ap (λ h. h b) f) ∙ i.chains b ∙ rw (e, g) refl;
  hashed = rw (sym e) i.hashed;
}

abbrev pub AllSame : {A : Type 0} → Action A → Type 0
AllSame {A} m = (s : Asm) (a : A) (s' : Asm) → m s ≡ ok (a, s') → SameTable s s'

pub keep : {A : Type 0} {m : Action A} → AllSame m → Keeps A m
keep h s a s' e = same-Indexed s s' (h s a s' e)

if-Keeps :
    {A : Type 0} (b : Bool) {r q : Run (A × Asm)} (s : Asm) (a : A) (s' : Asm)
    → (r ≡ ok (a, s') → IsIndexed s → IsIndexed s')
    → (q ≡ ok (a, s') → IsIndexed s → IsIndexed s')
    → (if b then r else q) ≡ ok (a, s')
    → IsIndexed s
    → IsIndexed s'
if-Keeps true s a s' h i = h
if-Keeps false s a s' h i = i

pub chain-Keeps :
    (A B : Type 0) (m : Action A) (k : A → Action B)
    → Keeps A m
    → ((a : A) → Keeps B (k a))
    → Keeps B (m >>= k)
unfolding ◌>>=◌
chain-Keeps A B m k h i s b s' e indexed =
    let (a, s1, e1, e2) = continue-eq-ok (m s) k e in i a s1 b s' e2 (h s a s1 e1 indexed)

added-IsIndexed :
    (b : ℕ) (name : List ℕ) (v : ℕ) (s : Asm)
    → bucket_of s.buckets (hash_string name) ≡ some b
    → IsIndexed s
    → IsIndexed (added b (new_symbol name v s) s)
added-IsIndexed b name v s own i = record {
  chains = λ c.
      chain_add_lem b (length s.store) s.table c
      ∙ rw (i.chains c, pointers-append s.buckets c 0 s.store (new_symbol name v s), own)
          (ground arith);
  hashed = AllHashed-append s.store (new_symbol name v s) i.hashed refl;
}

pub code_error-Keeps : Keeps (Unit {0}) code_error
unfolding code_error
code_error-Keeps = keep λ s a s' e. ground arith

define_in-Keeps :
    (o : Option ℕ) (name : List ℕ) (v : ℕ) (s : Asm) (a : Unit {0}) (s' : Asm)
    → bucket_of s.buckets (hash_string name) ≡ o
    → define_in o name v s ≡ ok (a, s')
    → IsIndexed s
    → IsIndexed s'
define_in-Keeps none name v s a s' own e i = absurd (ground arith)
define_in-Keeps (some b) name v s a s' own e i = found (find_named s.store name (s.table b)) e
  where
    found :
        (o : Option ℕ)
        → (λ (r : Run (Unit {0} × Asm)). r ≡ ok (a, s'))
            (elim o [ some p ↦ code_error s | none ↦ ok (tt, added b (new_symbol name v s) s) ])
        → IsIndexed s'
    found (some p) e' = code_error-Keeps s a s' e' i
    found none e' =
        let same : added b (new_symbol name v s) s ≡ s' = ground arith in
        subst IsIndexed same (added-IsIndexed b name v s own i)

pub define_symbol-Keeps : (name : List ℕ) (v : ℕ) → Keeps (Unit {0}) (define_symbol name v)
unfolding define_symbol
define_symbol-Keeps name v s a s' =
    let key = expanded_name s.current_file_index name in
    if-Keeps (s.pass_number == 1) s a s' (λ e. same-Indexed s s' (ground arith))
      (define_in-Keeps (bucket_of s.buckets (hash_string key)) key v s a s' refl)

undefined_symbol-Keeps : (name : List ℕ) → Keeps ℕ (undefined_symbol name)
unfolding undefined_symbol
undefined_symbol-Keeps name = chain-Keeps (Unit {0}) ℕ code_error _ code_error-Keeps λ _.
    chain-Keeps (Unit {0}) ℕ (modify (in_pass 0)) _ (in_pass-Keeps 0) λ _.
      chain-Keeps (Unit {0}) ℕ (define_symbol name 0) _ (define_symbol-Keeps name 0) λ _.
        chain-Keeps (Unit {0}) ℕ (modify (in_pass 1)) _ (in_pass-Keeps 1)
          λ _. keep pure_zero-AllSame
  where
    in_pass-Keeps : (n : ℕ) → Keeps (Unit {0}) (modify (in_pass n))
    in_pass-Keeps n = keep λ s a s' e. ground arith

    pure_zero-AllSame : AllSame {A = ℕ} (pure 0)
    pure_zero-AllSame s a s' e = ground arith

found-Keeps :
    (o : Option Sym) (name : List ℕ)
    → Keeps ℕ (λ s. elim o [ some sym ↦ address_of sym s | none ↦ undefined_symbol name s ])
unfolding address_of
found-Keeps (some sym) name = keep λ s a s' e. ground arith
found-Keeps none name = undefined_symbol-Keeps name

lookup_in-Keeps : (o : Option ℕ) (name : List ℕ) → Keeps ℕ (lookup_in o name)
lookup_in-Keeps none name s = λ a s' e i. absurd (ground arith)
lookup_in-Keeps (some b) name s =
    found-Keeps (find_hashed s.store (hash_string name) name (s.table b)) name s

pub lookup_symbol-Keeps : (name : List ℕ) → Keeps ℕ (lookup_symbol name)
unfolding lookup_symbol
lookup_symbol-Keeps name s a s' =
    let key = expanded_name s.current_file_index name in
    if-Keeps (s.pass_number == 0) s a s' (λ e. same-Indexed s s' (ground arith))
      (lookup_in-Keeps (bucket_of s.buckets (hash_string key)) key s a s')

pub updated-IsIndexed :
    (p : ℕ) (f : Sym → Sym) (s : Asm)
    → KeepsName f
    → IsIndexed s
    → IsIndexed (record s { store = update_at p f s.store })
updated-IsIndexed p f s h i = record {
  chains = λ c. i.chains c ∙ sym (pointers-update s.buckets c 0 p f s.store h);
  hashed = AllHashed-update p f s.store h i.hashed;
}

move_last-Keeps : (name : SegmentName) → Keeps (Unit {0}) (move_last name)
unfolding move_last
move_last-Keeps name s a s' e i = move s.last_symbol e
  where
    moved : Sym → Sym
    moved sym = record sym { segment = some name; value = (segment_of name s).image_used }

    move :
        (o : Option ℕ)
        → (λ (r : Run (Unit {0} × Asm)). r ≡ ok (a, s'))
            (elim o [
              | none ↦ faulted
              | some p ↦ ok (tt, record s { store = update_at p moved s.store })
            ])
        → IsIndexed s'
    move none e' = absurd (ground arith)
    move (some p) e' =
        let same : record s { store = update_at p moved s.store } ≡ s' = ground arith in
        subst IsIndexed same (updated-IsIndexed p moved s (λ x. (refl, refl)) i)

pub hack_to_segment-Keeps : (name : SegmentName) → Keeps (Unit {0}) (hack_to_segment name)
unfolding hack_to_segment
hack_to_segment-Keeps name s a s' =
    let moved = record s { current_segment = some name } in
    if-Keeps (in_segment name s.current_segment) s a s' (λ e. same-Indexed s s' (ground arith))
      (λ e i.
        if-Keeps (s.pass_number == 0) moved a s' (move_last-Keeps name moved a s')
          (λ f. same-Indexed moved s' (ground arith)) e (same-Indexed s moved (refl, refl, refl) i))

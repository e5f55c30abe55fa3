-- ===== src/Assembler/Indexed/Define.antt =====
-- `DefineSymbol` of q3asm/q3asm.c, and the `LookupSymbol` of the second pass.
use q3vm.Base.{
  ℕ, suc, ap, ◌≡◌, refl, ◌∙◌, Option, none, some, arith, true, List, [], ◌∷◌, ◌++◌, sym,
}
use q3vm.Base.Word.{add32}
use q3vm.Assembler.Hash.{hash_string, bucket_of}
use q3vm.Assembler.Indexed.{text_eq_refl, IsIndexed, symbol_named, first_named}
use q3vm.Assembler.Indexed.Search.{searches-lem}
use q3vm.Assembler.Run.{ok}
use q3vm.Assembler.State.{segment_of, SegmentName, Sym, Asm, code_error}
use q3vm.Assembler.Symbols.{
  lookup_in, find_hashed, expanded_name, new_symbol, added, address_of, lookup_symbol, define_in,
  find_named, define_symbol,
}
use q3vm.Assembler.Text.{text_eq}

symbol_named-append :
    (name : List ℕ) (p : ℕ) (xs : List Sym) (x : Sym) (later : List Sym)
    → first_named name p xs ≡ none
    → text_eq name x.name ≡ true
    → symbol_named name ((xs ++ x ∷ []) ++ later) ≡ some x
unfolding first_named symbol_named
symbol_named-append name p [] x later h e = ground arith
symbol_named-append name p (y ∷ xs) x later h e =
    ground (arith, symbol_named-append name (suc p) xs x later)

-- A definition without an error.
abbrev IsNew : Option ℕ → List ℕ → ℕ → Asm → Asm → Type 0
IsNew o name v s s' =
    (b : ℕ) × (o ≡ some b)
    × (find_named s.store name (s.table b) ≡ none)
    × (added b (new_symbol name v s) s ≡ s')

define_in-IsNew :
    (o : Option ℕ) (name : List ℕ) (v : ℕ) (s s' : Asm)
    → define_in o name v s ≡ ok (tt, s')
    → s'.error_count ≡ s.error_count
    → IsNew o name v s s'
unfolding code_error
define_in-IsNew none name v s s' e h = absurd (ground arith)
define_in-IsNew (some b) name v s s' e h =
    let fresh : find_named s.store name (s.table b) ≡ none = ground arith in
    (b, refl, fresh, ground (arith, fresh))

lookup_symbol-second :
    (name key : List ℕ) (o : Option ℕ) (t : Asm)
    → t.pass_number ≡ 1
    → expanded_name t.current_file_index name ≡ key
    → bucket_of t.buckets (hash_string key) ≡ o
    → lookup_symbol name t ≡ lookup_in o key t
unfolding lookup_symbol
lookup_symbol-second name key o t h e f = ground arith

lookup_in-found :
    (key : List ℕ) (b : ℕ) (t : Asm) (x : Sym) (segment : SegmentName)
    → find_hashed t.store (hash_string key) key (t.table b) ≡ some x
    → x.segment ≡ some segment
    → lookup_in (some b) key t ≡ ok (add32 (segment_of segment t).segment_base x.value, t)
unfolding address_of
lookup_in-found key b t x segment found h = ground arith

-- What is defined in the first pass without an error, in a segment, is found in the second pass
-- from the same file, whatever other symbols have been defined after it, if the hash table is an
-- index of the symbols both times and has as many buckets: its address is its value from the base
-- of its segment on, and nothing is changed.
pub lookup_symbol-define_symbol :
    (name : List ℕ) (v : ℕ) (segment : SegmentName) (s s' t : Asm) (later : List Sym)
    → IsIndexed s
    → s.pass_number ≡ 0
    → s.current_segment ≡ some segment
    → define_symbol name v s ≡ ok (tt, s')
    → s'.error_count ≡ s.error_count
    → IsIndexed t
    → t.pass_number ≡ 1
    → t.current_file_index ≡ s.current_file_index
    → t.buckets ≡ s.buckets
    → t.store ≡ s'.store ++ later
    → lookup_symbol name t ≡ ok (add32 (segment_of segment t).segment_base v, t)
unfolding define_symbol
lookup_symbol-define_symbol name v segment s s' t later i pass current e h j pass' file buckets
      store =
    let key = expanded_name s.current_file_index name in
    let (b, own, fresh, new) =
      define_in-IsNew (bucket_of s.buckets (hash_string key)) key v s s' (ground arith) h in
    let (searched, _) = searches-lem s key b i own in
    let own' : bucket_of t.buckets (hash_string key) ≡ some b = rw buckets own in
    let (_, found) = searches-lem t key b j own' in
    let x = new_symbol key v s in
    let named : symbol_named key t.store ≡ some x =
      rw (store, sym new)
        (symbol_named-append key 0 s.store x later (sym searched ∙ fresh) (text_eq_refl key)) in
    let same : expanded_name t.current_file_index name ≡ key =
      ap (λ n. expanded_name n name) file in
    lookup_symbol-second name key (some b) t pass' same own'
    ∙ lookup_in-found key b t x segment (found ∙ named) current

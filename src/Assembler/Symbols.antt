-- ===== src/Assembler/Symbols.antt =====
-- The symbols: `hashtable_add`, `hashtable_symbol_exists`, `DefineSymbol`, `LookupSymbol`,
-- `sort_symbols` and `HackToSegment`.
use q3vm.Base.{
  ℕ, zero, suc, Option, none, some, Bool, false, ◌==◌, ◌&&◌, if◌then◌else◌, List, [], ◌∷◌, length,
  get_elem?, ◌++◌, sym,
}
use q3vm.Base.Word.{add32, sub32}
use q3vm.Assembler.Hash.{chain_add, hash_from, hash_string, bucket_of}
use q3vm.Assembler.Run.{pure, modify, ◌>>◌, faulted, Run, ◌>>=◌, ok}
use q3vm.Assembler.State.{same_segment, Asm, Sym, segment_of, code_error, SegmentName, Action}
use q3vm.Assembler.Text.{decimal, text_eq, decimal_text}
use q3vm.Symbols.{starts_with}

-- Does the pointer lead to a symbol of the name?
abbrev pub has_name : List ℕ → Option Sym → Bool
has_name name none = false
has_name name (some s) = text_eq name s.name

-- The walk along a chain.
unfoldable pub find_named : List Sym → List ℕ → List ℕ → Option ℕ
unfolding text_eq
find_named store name [] = none
find_named store name (p ∷ chain) =
    if has_name name (get_elem? store p) then some p else find_named store name chain

-- The same walk with the test of the hash value before the one of the name.
abbrev pub has_hash : ℕ → List ℕ → Option Sym → Bool
has_hash hash name none = false
has_hash hash name (some s) = (hash == s.hash) && text_eq name s.name

unfoldable pub find_hashed : List Sym → ℕ → List ℕ → List ℕ → Option Sym
unfolding text_eq
find_hashed store hash name [] = none
find_hashed store hash name (p ∷ chain) =
    if has_hash hash name (get_elem? store p)
    then get_elem? store p
    else find_hashed store hash name chain

-- `sprintf(expanded, "%s_%i", sym, currentFileIndex)` for the names that start with a dollar.
unfoldable pub expanded_name : ℕ → List ℕ → List ℕ
unfolding decimal_text
expanded_name file name = if starts_with 36 name then name ++ (95 ∷ decimal file) else name

-- A new symbol behind the last one, in the store, its chain and the linked list.
abbrev pub added : ℕ → Sym → Asm → Asm
added bucket new s =
    let p = length s.store in
    record s {
      store = s.store ++ (new ∷ []);
      table = chain_add bucket p s.table;
      symbols = s.symbols ++ (p ∷ []);
      last_symbol = some p;
    }

abbrev pub new_symbol : List ℕ → ℕ → Asm → Sym
new_symbol name value s = record {
  hash = hash_string name;
  segment = s.current_segment;
  name = name;
  value = value;
}

abbrev pub define_in : Option ℕ → List ℕ → ℕ → Action (Unit {0})
define_in none name value s = faulted
define_in (some bucket) name value s = elim (find_named s.store name (s.table bucket)) [
  | some p ↦ code_error s
  | none ↦ ok (tt, added bucket (new_symbol name value s) s)
]

unfoldable pub define_symbol : List ℕ → ℕ → Action (Unit {0})
unfolding expanded_name find_named code_error bucket_of hash_from
define_symbol sym value s =
    if s.pass_number == 1
    then ok (tt, s)
    else (let name = expanded_name s.current_file_index sym in
        define_in (bucket_of s.buckets (hash_string name)) name value s)

-- "so more errors aren't printed".
abbrev pub in_pass : ℕ → Asm → Asm
in_pass n s = record s { pass_number = n }

unfoldable pub undefined_symbol : List ℕ → Action ℕ
unfolding define_symbol code_error ◌>>=◌
undefined_symbol name = do
  code_error
  modify (in_pass 0)
  define_symbol name 0
  modify (in_pass 1)
  pure 0

-- `s->segment->segmentBase + s->value`.
unfoldable pub address_of : Sym → Asm → Run (ℕ × Asm)
unfolding segment_of
address_of sym s = elim sym.segment [
  | none ↦ faulted
  | some name ↦ ok (add32 (segment_of name s).segment_base sym.value, s)
]

abbrev pub lookup_in : Option ℕ → List ℕ → Action ℕ
lookup_in none name s = faulted
lookup_in (some bucket) name s =
    elim (find_hashed s.store (hash_string name) name (s.table bucket)) [
      | some sym ↦ address_of sym s
      | none ↦ undefined_symbol name s
    ]

unfoldable pub lookup_symbol : List ℕ → Action ℕ
unfolding expanded_name find_hashed address_of undefined_symbol bucket_of hash_from
lookup_symbol sym s =
    if s.pass_number == 0
    then ok (0, s)
    else (let name = expanded_name s.current_file_index sym in
        lookup_in (bucket_of s.buckets (hash_string name)) name s)

-- The symbol that was defined last gets the segment and the place there.
unfoldable pub update_at : ℕ → (Sym → Sym) → List Sym → List Sym
update_at p f [] = []
update_at zero f (x ∷ xs) = f x ∷ xs
update_at (suc p) f (x ∷ xs) = x ∷ update_at p f xs

unfoldable pub move_last : SegmentName → Action (Unit {0})
unfolding segment_of update_at
move_last name s = elim s.last_symbol [
  | none ↦ faulted
  | some p ↦
      let moved =
        λ (sym : Sym). record sym { segment = some name; value = (segment_of name s).image_used } in
      ok (tt, record s { store = update_at p moved s.store })
]

abbrev pub in_segment : SegmentName → Option SegmentName → Bool
in_segment name none = false
in_segment name (some other) = same_segment other name

-- `HackToSegment`.
unfoldable pub hack_to_segment : SegmentName → Action (Unit {0})
unfolding move_last
hack_to_segment name s =
    if in_segment name s.current_segment
    then ok (tt, s)
    else (let moved = record s { current_segment = some name } in
        if s.pass_number == 0 then move_last name moved else ok (tt, moved))

-- `symlist_cmp`, and `sort_symbols` with the `qsort` of the C library.
abbrev pub value_at : List Sym → ℕ → ℕ
value_at store p = elim (get_elem? store p) [ none ↦ 0 | some sym ↦ sym.value ]

unfoldable pub symlist_cmp : List Sym → ℕ → ℕ → ℕ
symlist_cmp store p q = sub32 (value_at store p) (value_at store q)

abbrev pub last : List ℕ → Option ℕ
last [] = none
last (p ∷ []) = some p
last (p ∷ q ∷ ps) = last (q ∷ ps)

unfoldable pub sort_symbols : ((ℕ → ℕ → ℕ) → List ℕ → List ℕ) → Action (Unit {0})
unfolding symlist_cmp
sort_symbols qsort s =
    let sorted = qsort (symlist_cmp s.store) s.symbols in
    elim s.symbols [
      | [] ↦ ok (tt, s)
      | p ∷ ps ↦ ok (tt, record s { symbols = sorted; last_symbol = last sorted })
    ]

-- ===== src/Assembler/Indexed.antt =====
-- The hash table `symtable` of q3asm/q3asm.c as an index of the symbols by their names.
pub mod Laws
pub mod Keeps
pub mod Parts
pub mod Search
pub mod Define
use q3vm.Base.{
  ℕ, zero, suc, ap, ◌+◌, ◌-◌, ◌*◌, ◌/◌, ◌%◌, ◌^◌, ◌≤◌, ◌<◌, ◌≡◌, refl, ◌∙◌, Option, none, some,
  arith, Bool, true, false, not, ltb, leb, ◌==◌, ◌&&◌, ◌||◌, if◌then◌else◌, List, [], ◌∷◌, length,
  ◌⊎◌, inl, inr, Bool-cases, Option-cases, get_elem?, ◌++◌, ◌↔◌, ◌≢◌, sym, map, bit_and,
}
use q3vm.Assembler.Hash.{hash_string, bucket_of, hash_from}
use q3vm.Assembler.State.{Asm, Sym}
use q3vm.Assembler.Symbols.{find_named, find_hashed}
use q3vm.Assembler.Text.{text_eq}

-- The abstract view: the symbols in the order of definition, searched from the first one on.
unfoldable pub first_named : List ℕ → ℕ → List Sym → Option ℕ
unfolding text_eq
first_named name p [] = none
first_named name p (x ∷ rest) =
    if text_eq name x.name then some p else first_named name (suc p) rest

unfoldable pub symbol_named : List ℕ → List Sym → Option Sym
unfolding text_eq
symbol_named name [] = none
symbol_named name (x ∷ rest) = if text_eq name x.name then some x else symbol_named name rest

-- The pointers to the symbols whose hash value belongs to a bucket.
abbrev pub is_bucket : ℕ → Option ℕ → Bool
is_bucket b none = false
is_bucket b (some k) = b == k

unfoldable pub pointers : ℕ → ℕ → ℕ → List Sym → List ℕ
unfolding bucket_of
pointers buckets b p [] = []
pointers buckets b p (x ∷ rest) =
    let more = pointers buckets b (suc p) rest in
    if is_bucket b (bucket_of buckets x.hash) then p ∷ more else more

unfoldable pub AllHashed : List Sym → Type 0
unfolding hash_from
AllHashed [] = Unit {0}
AllHashed (x ∷ rest) = (x.hash ≡ hash_string x.name) × AllHashed rest

pub record IsIndexed (s : Asm) : Type 0 where
  pub chains : (b : ℕ) → s.table b ≡ pointers s.buckets b 0 s.store
  pub hashed : AllHashed s.store

pub text_eq-eq : (xs ys : List ℕ) → text_eq xs ys ≡ true → xs ≡ ys
unfolding text_eq
text_eq-eq [] [] e = refl
text_eq-eq [] (y ∷ ys) e = ground arith
text_eq-eq (x ∷ xs) [] e = ground arith
text_eq-eq (x ∷ xs) (y ∷ ys) e = ground (arith, text_eq-eq xs ys)

pub text_eq_refl : (xs : List ℕ) → text_eq xs xs ≡ true
unfolding text_eq
text_eq_refl [] = refl
text_eq_refl (x ∷ xs) = ground (arith, text_eq_refl xs)

-- The rest of the store that starts at a place.
abbrev IsRest : List Sym → ℕ → List Sym → Type 0
IsRest store p rest = (q : ℕ) → get_elem? store (p + q) ≡ get_elem? rest q

next-IsRest :
    (store : List Sym) (p : ℕ) (x : Sym) (rest : List Sym)
    → IsRest store p (x ∷ rest)
    → IsRest store (suc p) rest
next-IsRest store p x rest h q = ground (arith, h (suc q))

module _ (store : List Sym) (buckets : ℕ) (name : List ℕ) (b : ℕ)
    (own : bucket_of buckets (hash_string name) ≡ some b) where
  named-bucket :
      (x : Sym)
      → x.hash ≡ hash_string x.name
      → text_eq name x.name ≡ true
      → is_bucket b (bucket_of buckets x.hash) ≡ true
  named-bucket x h e = ground (arith, text_eq-eq name x.name e, own)

  pub find_named-pointers :
      (p : ℕ) (rest : List Sym)
      → IsRest store p rest
      → AllHashed rest
      → find_named store name (pointers buckets b p rest) ≡ first_named name p rest
  unfolding find_named pointers first_named AllHashed
  find_named-pointers p [] h k = refl
  find_named-pointers p (x ∷ rest) h (k, ks) = ground (
    arith,
    h 0,
    named-bucket x k,
    find_named-pointers (suc p) rest (next-IsRest store p x rest h) ks,
  )

  pub find_hashed-pointers :
      (p : ℕ) (rest : List Sym)
      → IsRest store p rest
      → AllHashed rest
      → find_hashed store (hash_string name) name (pointers buckets b p rest)
        ≡ symbol_named name rest
  unfolding find_hashed pointers symbol_named AllHashed
  find_hashed-pointers p [] h k = refl
  find_hashed-pointers p (x ∷ rest) h (k, ks) = ground (
    arith,
    h 0,
    text_eq-eq name x.name,
    named-bucket x k,
    find_hashed-pointers (suc p) rest (next-IsRest store p x rest h) ks,
  )

-- ===== src/Assembler/Indexed/Laws.antt =====
-- How a new symbol, and a change of one, show in the chains of the hash table of q3asm/q3asm.c.
use q3vm.Base.{
  ℕ, zero, suc, ◌+◌, ◌≡◌, refl, some, arith, if◌then◌else◌, List, [], ◌∷◌, length, ◌++◌,
}
use q3vm.Assembler.Hash.{chain_add, bucket_of, hash_string}
use q3vm.Assembler.Indexed.{is_bucket, pointers, AllHashed}
use q3vm.Assembler.State.{Sym}
use q3vm.Assembler.Symbols.{update_at}
use mathlib.Core.List.{append-nil}

abbrev pub new_pointer : ℕ → ℕ → ℕ → Sym → List ℕ
new_pointer buckets b p x = if is_bucket b (bucket_of buckets x.hash) then p ∷ [] else []

pub chain_add_lem :
    (b p : ℕ) (table : ℕ → List ℕ) (c : ℕ)
    → chain_add b p table c ≡ table c ++ (if is_bucket c (some b) then p ∷ [] else [])
chain_add_lem b p table c = ground (arith, append-nil (table c))

pub pointers-append :
    (buckets b p : ℕ) (xs : List Sym) (x : Sym)
    → pointers buckets b p (xs ++ x ∷ [])
      ≡ pointers buckets b p xs ++ new_pointer buckets b (p + length xs) x
unfolding pointers
pointers-append buckets b p [] x = ground arith
pointers-append buckets b p (y ∷ xs) x = ground (arith, pointers-append buckets b (suc p) xs x)

pub AllHashed-append :
    (xs : List Sym) (x : Sym)
    → AllHashed xs
    → x.hash ≡ hash_string x.name
    → AllHashed (xs ++ x ∷ [])
unfolding AllHashed
AllHashed-append [] x h e = (e, tt)
AllHashed-append (y ∷ xs) x (k, ks) e = (k, AllHashed-append xs x ks e)

-- `HackToSegment` changes neither the name nor the hash value.
abbrev pub KeepsName : (Sym → Sym) → Type 0
KeepsName f = (x : Sym) → ((f x).hash ≡ x.hash) × ((f x).name ≡ x.name)

pub pointers-update :
    (buckets b p q : ℕ) (f : Sym → Sym) (xs : List Sym)
    → KeepsName f
    → pointers buckets b p (update_at q f xs) ≡ pointers buckets b p xs
unfolding pointers update_at
pointers-update buckets b p q f [] h = refl
pointers-update buckets b p zero f (x ∷ xs) h = ground (arith, h x)
pointers-update buckets b p (suc q) f (x ∷ xs) h =
    ground (arith, pointers-update buckets b (suc p) q f xs h)

pub AllHashed-update :
    (q : ℕ) (f : Sym → Sym) (xs : List Sym)
    → KeepsName f
    → AllHashed xs
    → AllHashed (update_at q f xs)
unfolding AllHashed update_at
AllHashed-update q f [] h k = tt
AllHashed-update zero f (x ∷ xs) h (k, ks) = (ground (arith, h x), ks)
AllHashed-update (suc q) f (x ∷ xs) h (k, ks) = (k, AllHashed-update q f xs h ks)

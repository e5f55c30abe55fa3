-- ===== src/Assembler/Indexed/Search.antt =====
-- The searches of `symtable` in q3asm/q3asm.c are searches of all symbols by name.
use q3vm.Base.{ℕ, ◌≡◌, refl, Option, some, arith, List, [], ◌∷◌}
use q3vm.Assembler.Closed.Passes.{ClosedPasses, assemble-P}
use q3vm.Assembler.Hash.{hash_string, bucket_of}
use q3vm.Assembler.Indexed.{
  find_hashed-pointers, find_named-pointers, symbol_named, first_named, IsIndexed, AllHashed,
  pointers,
}
use q3vm.Assembler.Indexed.Keeps.{keep, Keeps, SameTable}
use q3vm.Assembler.Indexed.Parts.{keeps}
use q3vm.Assembler.Passes.{align_all, open_file, start_pass, initial, extract_line, assemble}
use q3vm.Assembler.Run.{ok, modify, ◌>>=◌}
use q3vm.Assembler.State.{code_error, Asm}
use q3vm.Assembler.Symbols.{find_hashed, find_named, in_pass, sort_symbols}

extract_line-Keeps : (text : List ℕ) → Keeps (Option (List ℕ)) (extract_line text)
unfolding extract_line code_error ◌>>=◌
extract_line-Keeps [] = keep λ s a s' e. ground arith
extract_line-Keeps (c ∷ rest) = keep λ s a s' e. ground arith

modify-Keeps : (f : Asm → Asm) → ((s : Asm) → SameTable s (f s)) → Keeps (Unit {0}) (modify f)
modify-Keeps f h = keep λ s a s' e. ground (arith, h s)

sort_symbols-Keeps : (qsort : (ℕ → ℕ → ℕ) → List ℕ → List ℕ) → Keeps (Unit {0}) (sort_symbols qsort)
unfolding sort_symbols
sort_symbols-Keeps qsort = keep λ s a s' e. ground arith

index_passes : ClosedPasses Keeps
index_passes = record {
  clauses_ = keeps;
  hang_ = keep λ s a s' e. ground arith;
  extract = extract_line-Keeps;
  open_ = λ index. modify-Keeps (open_file index) (λ s. ground arith);
  start = λ n. modify-Keeps (start_pass n) (λ s. ground arith);
  align = modify-Keeps align_all (λ s. ground arith);
  enter_ = λ n. modify-Keeps (in_pass n) (λ s. ground arith);
  sort = sort_symbols-Keeps;
}

pub initial-IsIndexed : (buckets : ℕ) → IsIndexed (initial buckets)
unfolding pointers AllHashed
initial-IsIndexed buckets = record { chains = λ b. refl; hashed = tt }

-- In a state whose table is an index, the two walks along a chain of `symtable`, the one before a
-- definition and the one of a lookup, find the first of all symbols that has the name, or nothing.
pub searches-lem :
    (s : Asm) (name : List ℕ) (b : ℕ)
    → IsIndexed s
    → bucket_of s.buckets (hash_string name) ≡ some b
    → (find_named s.store name (s.table b) ≡ first_named name 0 s.store)
      × (find_hashed s.store (hash_string name) name (s.table b) ≡ symbol_named name s.store)
searches-lem s name b i own = rw (i.chains b) (
  find_named-pointers s.store s.buckets name b own 0 s.store (λ q. ground arith) i.hashed,
  find_hashed-pointers s.store s.buckets name b own 0 s.store (λ q. ground arith) i.hashed,
)

-- After any files have been assembled, and the symbols sorted in whatever way, the walks along the
-- chain that a name's hash value leads to find the first of all symbols that has the name, or
-- nothing where there is none: the hash table is a search of the list of symbols.
pub assemble-searches :
    (qsort : (ℕ → ℕ → ℕ) → List ℕ → List ℕ) (n buckets : ℕ) (texts : List (List ℕ)) (s : Asm)
    (name : List ℕ) (b : ℕ)
    → assemble qsort n texts (initial buckets) ≡ ok (tt, s)
    → bucket_of s.buckets (hash_string name) ≡ some b
    → (find_named s.store name (s.table b) ≡ first_named name 0 s.store)
      × (find_hashed s.store (hash_string name) name (s.table b) ≡ symbol_named name s.store)
assemble-searches qsort n buckets texts s name b e own =
    searches-lem s name b
      (assemble-P Keeps index_passes qsort n texts (initial buckets) tt s e
        (initial-IsIndexed buckets))
      own

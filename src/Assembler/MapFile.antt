-- ===== src/Assembler/MapFile.antt =====
-- The map file of q3asm/q3asm.c, as `VM_LoadSymbols` of src/vm/vm.c reads it.
pub mod Tokens
pub mod Lines
pub mod Loading
pub mod Zeros
pub mod RoundTrip
use q3vm.Base.{
  ℕ, zero, suc, ap, ◌+◌, ◌-◌, ◌*◌, ◌/◌, ◌%◌, ◌^◌, ◌≤◌, ◌<◌, ◌≡◌, refl, ◌∙◌, Option, none, some,
  arith, Bool, true, false, not, ltb, leb, ◌==◌, ◌&&◌, ◌||◌, if◌then◌else◌, List, [], ◌∷◌, length,
  ◌⊎◌, inl, inr, Bool-cases, Option-cases, get_elem?, ◌++◌, ◌↔◌, ◌≢◌, sym, map, bit_and,
}
use q3vm.Assembler.Output.{map_symbol, map_line, map_segment}
use q3vm.Assembler.State.{Sym, SegmentName}
use q3vm.Assembler.Symbols.{in_segment}
use q3vm.Symbols.{starts_with}

-- The symbols that `WriteMapFile` lists of a segment, in the order of the linked list.
abbrev pub listed_symbol : SegmentName → Option Sym → List Sym → List Sym
listed_symbol name none rest = rest
listed_symbol name (some s) rest =
    if starts_with 36 s.name then rest else if in_segment name s.segment then s ∷ rest else rest

unfoldable pub listed : SegmentName → List Sym → List ℕ → List Sym
listed name store [] = []
listed name store (p ∷ ps) = listed_symbol name (get_elem? store p) (listed name store ps)

-- A line for each symbol.
abbrev pub map_lines : ℕ → List Sym → List ℕ
map_lines seg [] = []
map_lines seg (s ∷ ss) = map_line seg s ++ map_lines seg ss

listed_symbol-map_lines :
    (seg : ℕ) (name : SegmentName) (o : Option Sym) (rest : List Sym)
    → map_symbol seg name o ++ map_lines seg rest ≡ map_lines seg (listed_symbol name o rest)
listed_symbol-map_lines seg name none rest = refl
listed_symbol-map_lines seg name (some s) rest = elim (Bool-cases (starts_with 36 s.name)) [
  | inl local ↦ rw local refl
  | inr other ↦ elim (Bool-cases (in_segment name s.segment)) [
    | inl inside ↦ rw (other, inside) refl
    | inr outside ↦ rw (other, outside) refl
  ]
]

pub map_segment-map_lines :
    (seg : ℕ) (name : SegmentName) (store : List Sym) (ps : List ℕ)
    → map_segment seg name store ps ≡ map_lines seg (listed name store ps)
unfolding map_segment listed
map_segment-map_lines seg name store [] = refl
map_segment-map_lines seg name store (p ∷ ps) =
    rw (map_segment-map_lines seg name store ps)
      (listed_symbol-map_lines seg name (get_elem? store p) (listed name store ps))

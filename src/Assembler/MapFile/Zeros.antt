-- ===== src/Assembler/MapFile/Zeros.antt =====
-- Zeros in the text of the map file that `WriteMapFile` of q3asm/q3asm.c writes.
use q3vm.Base.{◌-◌, zero, suc, [], refl, ◌∷◌, arith, true, ◌++◌, ◌≡◌, length, List, ℕ}
use q3vm.Assembler.MapFile.{map_lines}
use q3vm.Assembler.MapFile.Lines.{hex_text-is_word, line_text}
use q3vm.Assembler.MapFile.Loading.{AreWords}
use q3vm.Assembler.MapFile.Tokens.{is_word, none_white}
use q3vm.Assembler.Output.{map_line, padding, hex_text}
use q3vm.Assembler.State.{Sym}
use q3vm.Assembler.Text.{decimal}
use q3vm.Symbols.Buffer.{no_zero, no_zero-append}
use mathlib.Core.Path.{subst, sym}

-- A text of the map file has no zero.
white-no_zero : (k : ℕ) → no_zero (padding k) ≡ true
unfolding padding
white-no_zero zero = refl
white-no_zero (suc k) = ground (arith, white-no_zero k)

word-no_zero : (w : List ℕ) → none_white w ≡ true → no_zero w ≡ true
word-no_zero [] h = refl
word-no_zero (c ∷ w) h = ground (arith, word-no_zero w)

is_word-no_zero : (w : List ℕ) → is_word w ≡ true → no_zero w ≡ true
is_word-no_zero [] h = refl
is_word-no_zero (c ∷ w) h = word-no_zero (c ∷ w) (ground arith)

line_no_zero :
    (seg : ℕ) (s : Sym) (rest : List ℕ)
    → no_zero (decimal seg) ≡ true
    → is_word s.name ≡ true
    → no_zero rest ≡ true
    → no_zero (map_line seg s ++ rest) ≡ true
line_no_zero seg s rest d w h =
    let digits = hex_text 8 s.value in
    let pad = padding (8 - length digits) in
    let name = no_zero-append s.name (10 ∷ rest) (is_word-no_zero s.name w) h in
    let value =
      no_zero-append digits (32 ∷ (s.name ++ (10 ∷ rest)))
        (is_word-no_zero digits (hex_text-is_word s.value)) name in
    let columns =
      no_zero-append pad (digits ++ (32 ∷ (s.name ++ (10 ∷ rest))))
        (white-no_zero (8 - length digits)) value in
    subst (λ t. no_zero t ≡ true) (sym (line_text seg s rest))
      (no_zero-append (decimal seg) (32 ∷ (pad ++ (digits ++ (32 ∷ (s.name ++ (10 ∷ rest)))))) d
        columns)

pub map_lines-no_zero :
    (seg : ℕ) (ss : List Sym)
    → no_zero (decimal seg) ≡ true
    → AreWords ss
    → no_zero (map_lines seg ss) ≡ true
map_lines-no_zero seg [] d a = refl
map_lines-no_zero seg (s ∷ ss) d (name, small, a) =
    line_no_zero seg s (map_lines seg ss) d name (map_lines-no_zero seg ss d a)

-- ===== src/Assembler/MapFile/Lines.antt =====
-- A line of the map file, token by token: `WriteMapFile` of q3asm/q3asm.c and `COM_Parse` of
-- src/vm/vm.c.
use q3vm.Base.{
  length-append, ℕ, zero, suc, ◌-◌, ◌/◌, ◌%◌, ◌≤◌, ◌<◌, ◌≡◌, refl, some, arith, Bool, true, ltb,
  leb, ◌&&◌, ◌||◌, if◌then◌else◌, List, [], ◌∷◌, length, inl, inr, Bool-cases, ◌++◌,
}
use q3vm.Assembler.MapFile.Tokens.{com_parse-word, all_white, none_white, is_word}
use q3vm.Assembler.Output.{map_line, hex_digit, padding, hex_text}
use q3vm.Assembler.State.{Sym}
use q3vm.Assembler.Text.{decimal}
use q3vm.Symbols.{com_parse, at, Scanner, max_token_chars}
use mathlib.Core.List.{append_assoc}

-- The digits of a value.
abbrev is_hex : ℕ → Bool
is_hex c = (leb 48 c && leb c 57) || (leb 97 c && leb c 102)

abbrev all_hex : List ℕ → Bool
all_hex [] = true
all_hex (c ∷ rest) = is_hex c && all_hex rest

all_hex-append :
    (xs : List ℕ) (c : ℕ) → all_hex xs ≡ true → is_hex c ≡ true → all_hex (xs ++ c ∷ []) ≡ true
all_hex-append [] c h k = ground arith
all_hex-append (x ∷ xs) c h k = ground (arith, all_hex-append xs c)

hex_text-all_hex : (k n : ℕ) → all_hex (hex_text k n) ≡ true
unfolding hex_text
hex_text-all_hex zero n = refl
hex_text-all_hex (suc k) n = elim (Bool-cases (ltb n 16)) [
  | inl small ↦ rw small (all_hex-append [] (hex_digit (n % 16)) refl (ground arith))
  | inr large ↦ rw large (
      all_hex-append (hex_text k (n / 16)) (hex_digit (n % 16)) (hex_text-all_hex k (n / 16))
        (ground arith))
]

length-hex_text : (k n : ℕ) → length (hex_text k n) ≤ k
unfolding hex_text
length-hex_text zero n = omega arith
length-hex_text (suc k) n = elim (Bool-cases (ltb n 16)) [
  | inl small ↦ rw small (omega (arith, length-append [] (hex_digit (n % 16) ∷ [])))
  | inr large ↦ rw large (
      omega (
        arith,
        length-append (hex_text k (n / 16)) (hex_digit (n % 16) ∷ []),
        length-hex_text k (n / 16),
      ))
]

hex_text-nonempty : (k n : ℕ) → 0 < length (hex_text (suc k) n)
unfolding hex_text
hex_text-nonempty k n =
    omega (
      arith,
      length-append (if ltb n 16 then [] else hex_text k (n / 16)) (hex_digit (n % 16) ∷ []),
    )

all_hex-none_white : (w : List ℕ) → all_hex w ≡ true → none_white w ≡ true
all_hex-none_white [] h = refl
all_hex-none_white (c ∷ w) h = ground (arith, all_hex-none_white w)

all_hex-is_word :
    (w : List ℕ) → all_hex w ≡ true → 0 < length w → length w < max_token_chars → is_word w ≡ true
all_hex-is_word [] h k l = absurd (omega arith)
all_hex-is_word (c ∷ w) h k l = ground (arith, all_hex-none_white w)

pub hex_text-is_word : (n : ℕ) → is_word (hex_text 8 n) ≡ true
hex_text-is_word n =
    all_hex-is_word (hex_text 8 n) (hex_text-all_hex 8 n) (hex_text-nonempty 7 n)
      (omega (arith, length-hex_text 8 n))

padding-all_white : (k : ℕ) → all_white (padding k) ≡ true
unfolding padding
padding-all_white zero = refl
padding-all_white (suc k) = ground (arith, padding-all_white k)

-- A line behind white space: its words, each with what ends it.
pub line_text :
    (seg : ℕ) (s : Sym) (rest : List ℕ)
    → map_line seg s ++ rest
      ≡ decimal seg
        ++ (32
            ∷ (padding (8 - length (hex_text 8 s.value))
                ++ (hex_text 8 s.value ++ (32 ∷ (s.name ++ (10 ∷ rest))))))
unfolding map_line
line_text seg s rest = simp append_assoc

-- The scanner at a place of the text.
abbrev pub at_text : List ℕ → ℕ → Scanner
at_text text n = record { cursor = at text; lines = n }

-- The three words of a line, and the place behind it.
pub words_of_line :
    (lead : List ℕ) (seg : ℕ) (s : Sym) (rest : List ℕ) (lines : ℕ)
    → all_white lead ≡ true
    → is_word (decimal seg) ≡ true
    → is_word s.name ≡ true
    → (s1 s2 : Scanner) × (n : ℕ) × (com_parse (at_text (lead ++ (map_line seg s ++ rest)) lines)
        ≡ some (decimal seg, s1))
      × (com_parse s1 ≡ some (hex_text 8 s.value, s2))
      × (com_parse s2 ≡ some (s.name, at_text (10 ∷ rest) n))
words_of_line lead seg s rest lines h w k =
    let digits = hex_text 8 s.value in
    let pad = padding (8 - length digits) in
    let more = s.name ++ (10 ∷ rest) in
    let (n, e) =
      com_parse-word lead (decimal seg) 32 (pad ++ (digits ++ (32 ∷ more))) lines h w refl in
    let (m, f) =
      com_parse-word (32 ∷ pad) digits 32 more n
        (ground (arith, padding-all_white (8 - length digits))) (hex_text-is_word s.value) refl in
    let (l, g) = com_parse-word (32 ∷ []) s.name 10 rest m refl k refl in
    (_, _, l, rw line_text e, f, g)

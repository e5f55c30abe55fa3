-- ===== src/CmdLib/Numbers.antt =====
-- `ParseHex` and `ParseNum` of q3asm/cmdlib.c.
use q3vm.Base.{
  ◌∙◌, ap, ℕ, ◌+◌, ◌-◌, ◌*◌, ◌≡◌, refl, Option, none, some, arith, Bool, true, false, leb, ◌==◌,
  ◌&&◌, ◌||◌, if◌then◌else◌, List, [], ◌∷◌, inl, inr, Bool-cases,
}
use q3vm.Base.Word.{u32}
use q3vm.Assembler.Run.{Run, ok, exited}
use q3vm.Assembler.Text.{atoi_no_cap}
use q3vm.Symbols.{tail, starts_with, hex_step, parse_hex_from}
use q3vm.Symbols

-- The digit, or `none` for a character that is none.
unfoldable pub digit : ℕ → Option ℕ
digit c =
    if leb 48 c && leb c 57
    then some (c - 48)
    else if leb 97 c && leb c 102
    then some (10 + c - 97)
    else if leb 65 c && leb c 70
    then some (10 + c - 65)
    else none

-- `ParseHex`, which ends the process at a bad digit.
unfoldable pub parse_hex_on : ℕ → List ℕ → Run ℕ
unfolding digit
parse_hex_on num [] = ok num
parse_hex_on num (c ∷ rest) = elim (digit c) [
  | none ↦ exited
  | some d ↦ parse_hex_on (u32 (num * 16 + d)) rest
]

abbrev pub parse_hex : List ℕ → Run ℕ
parse_hex hex = parse_hex_on 0 hex

-- `isspace`, which `atol` passes over. Its result is cut to an `int`.
abbrev pub is_space : ℕ → Bool
is_space c = (c == 32) || (leb 9 c && leb c 13)

unfoldable pub atol : List ℕ → ℕ
unfolding atoi_no_cap
atol [] = 0
atol (c ∷ rest) = let more = atol rest in if is_space c then more else atoi_no_cap (c ∷ rest)

-- `ParseNum`.
unfoldable pub parse_num : List ℕ → Run ℕ
unfolding parse_hex_on atol
parse_num [] = ok 0
parse_num (c ∷ rest) =
    if c == 36
    then parse_hex rest
    else if c == 48 && starts_with 120 rest
    then parse_hex (tail rest)
    else ok (atol (c ∷ rest))

abbrev pub is_hex_digit : ℕ → Bool
is_hex_digit c = (leb 48 c && leb c 57) || (leb 97 c && leb c 102) || (leb 65 c && leb c 70)

abbrev pub all_digits : List ℕ → Bool
all_digits [] = true
all_digits (c ∷ rest) = is_hex_digit c && all_digits rest

digit-step :
    (num c : ℕ)
    → is_hex_digit c ≡ true
    → (d : ℕ) × (digit c ≡ some d) × (u32 (num * 16 + d) ≡ hex_step num c)
unfolding digit
digit-step num c h = elim (Bool-cases (leb 48 c && leb c 57)) [
  | inl low ↦ (c - 48, ground arith, ground arith)
  | inr other ↦ elim (Bool-cases (leb 97 c && leb c 102)) [
    | inl small ↦ (10 + c - 97, ground arith, ground arith)
    | inr large ↦ (10 + c - 65, ground arith, ground arith)
  ]
]

digit-none : (c : ℕ) → is_hex_digit c ≡ false → digit c ≡ none
unfolding digit
digit-none c h = ground arith

parse_hex_on-some :
    (num c d : ℕ) (rest : List ℕ)
    → digit c ≡ some d
    → parse_hex_on num (c ∷ rest) ≡ parse_hex_on (u32 (num * 16 + d)) rest
unfolding parse_hex_on
parse_hex_on-some num c d rest e =
    ap
      (λ o. elim o as (λ _. Run ℕ) [
        | none ↦ exited
        | some v ↦ parse_hex_on (u32 (num * 16 + v)) rest
      ])
      e

parse_hex_on-none :
    (num c : ℕ) (rest : List ℕ) → digit c ≡ none → parse_hex_on num (c ∷ rest) ≡ exited
unfolding parse_hex_on
parse_hex_on-none num c rest e =
    ap
      (λ o. elim o as (λ _. Run ℕ) [
        | none ↦ exited
        | some v ↦ parse_hex_on (u32 (num * 16 + v)) rest
      ])
      e

parse_hex_on-parse_hex_from :
    (num : ℕ) (text : List ℕ)
    → parse_hex_on num text ≡ (if all_digits text then ok (parse_hex_from num text) else exited)
unfolding parse_hex_from
parse_hex_on-parse_hex_from num [] = unfold parse_hex_on in refl
parse_hex_on-parse_hex_from num (c ∷ rest) = elim (Bool-cases (is_hex_digit c)) [
  | inl good ↦
      let (d, e, f) = digit-step num c good in
      parse_hex_on-some num c d rest e
      ∙ ap (λ v. parse_hex_on v rest) f
      ∙ rw good (parse_hex_on-parse_hex_from (hex_step num c) rest)
  | inr bad ↦ parse_hex_on-none num c rest (digit-none c bad) ∙ rw bad refl
]

-- `ParseHex` of the assembler's helpers ends the process at a text with a character that is no
-- hexadecimal digit; on all other texts it is the `ParseHex` of the virtual machine, which passes
-- over such characters.
pub parse_hex-agrees :
    (text : List ℕ)
    → parse_hex text ≡ (if all_digits text then ok (Symbols.parse_hex text) else exited)
parse_hex-agrees text = parse_hex_on-parse_hex_from 0 text

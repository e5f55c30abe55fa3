-- ===== src/Assembler/Text.antt =====
-- Texts as lists of bytes before the final zero, and what the assembler does with them by itself:
-- comparison, numbers, the split into lines, tokens and terms. `char` is signed.
use q3vm.Base.{
  ℕ, zero, suc, ◌+◌, ◌-◌, ◌*◌, ◌/◌, ◌%◌, ◌^◌, ◌++◌, Bool, true, false, ltb, leb, ◌==◌, ◌&&◌, ◌||◌,
  if◌then◌else◌, List, [], ◌∷◌,
}
use q3vm.Base.Word.{minus_one, sub32, add32, u32, neg32}
use q3vm.Symbols.{is_white}
use Prim.Native.Char.{code}
use Prim.Native.String.{String}

abbrev pub codes : String → List ℕ
codes String.[] = []
codes (String.◌∷◌ c s) = code c ∷ codes s

-- `!strcmp(a, b)`.
unfoldable pub text_eq : List ℕ → List ℕ → Bool
text_eq [] [] = true
text_eq [] (b ∷ bs) = false
text_eq (a ∷ as') [] = false
text_eq (a ∷ as') (b ∷ bs) = (a == b) && text_eq as' bs

-- `!strncmp(text, prefix, strlen(prefix))`.
unfoldable pub has_prefix : List ℕ → List ℕ → Bool
has_prefix text [] = true
has_prefix [] (b ∷ bs) = false
has_prefix (a ∷ as') (b ∷ bs) = (a == b) && has_prefix as' bs

abbrev pub is_digit : ℕ → Bool
is_digit c = leb 48 c && leb c 57

-- The digits that a text starts with, as a number.
unfoldable pub digits_from : ℕ → List ℕ → ℕ
digits_from acc [] = acc
digits_from acc (c ∷ rest) =
    let more = digits_from (acc * 10 + (c - 48)) rest in if is_digit c then more else acc

-- `atoiNoCap`: `atoll`, which stops at the ends of 64 bits, and its low 32 bits.
abbrev pub positive : ℕ → ℕ
positive n = if ltb n (2 ^ 63) then u32 n else minus_one

abbrev pub negative : ℕ → ℕ
negative n = if leb n (2 ^ 63) then neg32 (u32 n) else 0

unfoldable pub atoi_no_cap : List ℕ → ℕ
unfolding digits_from
atoi_no_cap [] = 0
atoi_no_cap (c ∷ rest) =
    if c == 45
    then negative (digits_from 0 rest)
    else if c == 43
    then positive (digits_from 0 rest)
    else positive (digits_from 0 (c ∷ rest))

-- `%i` of a number that is not negative, in at most `k` digits.
abbrev pub with_last : List ℕ → ℕ → List ℕ
with_last xs c = xs ++ c ∷ []

unfoldable pub decimal_text : ℕ → ℕ → List ℕ
decimal_text zero n = []
decimal_text (suc k) n =
    let higher = decimal_text k (n / 10) in
    with_last (if ltb n 10 then [] else higher) (48 + n % 10)

abbrev pub decimal : ℕ → List ℕ
decimal n = decimal_text 10 n

-- The text up to the end of its line, and the text behind it, with the newline skipped.
unfoldable pub split_line : List ℕ → List ℕ × List ℕ
split_line [] = ([], [])
split_line (c ∷ rest) =
    let (line, after) = split_line rest in if c == 10 then ([], rest) else (c ∷ line, after)

-- `*p && (*p <= ' ')`.
unfoldable pub skip_white : List ℕ → List ℕ
skip_white [] = []
skip_white (c ∷ rest) = let skipped = skip_white rest in if is_white c then skipped else c ∷ rest

-- `*p > 32`.
unfoldable pub split_token : List ℕ → List ℕ × List ℕ
split_token [] = ([], [])
split_token (c ∷ rest) =
    let (token, after) = split_token rest in
    if is_white c then ([], c ∷ rest) else (c ∷ token, after)

-- A term of an expression ends at the next sign.
abbrev pub is_sign : ℕ → Bool
is_sign c = (c == 43) || (c == 45)

unfoldable pub split_term : List ℕ → List ℕ × List ℕ
split_term [] = ([], [])
split_term (c ∷ rest) =
    let (term, after) = split_term rest in if is_sign c then ([], c ∷ rest) else (c ∷ term, after)

-- The first term, with a leading minus.
unfoldable pub first_term : List ℕ → List ℕ × List ℕ
unfolding split_term
first_term [] = ([], [])
first_term (c ∷ rest) =
    let (term, after) = split_term rest in
    if c == 45 then (c ∷ term, after) else split_term (c ∷ rest)

-- "parse add / subtract offsets", at most as many as the fuel says.
abbrev pub apply_sign : ℕ → ℕ → ℕ → ℕ
apply_sign c v n = if c == 43 then add32 v n else if c == 45 then sub32 v n else v

unfoldable pub add_terms : ℕ → ℕ → List ℕ → ℕ
unfolding split_term atoi_no_cap
add_terms zero v text = v
add_terms (suc fuel) v [] = v
add_terms (suc fuel) v (c ∷ rest) =
    let (term, after) = split_term rest in add_terms fuel (apply_sign c v (atoi_no_cap term)) after

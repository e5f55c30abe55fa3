-- ===== src/Symbols.antt =====
-- The symbols of a debug build (src/vm/vm.c under DEBUG_VM): the scanner `COM_Parse`, `ParseHex`,
-- the loop of `VM_LoadSymbols` and the search for the symbol of an address. A text is the list of
-- its bytes before the final zero. `char` is signed.
pub mod Scan
pub mod Loader
pub mod Buffer
pub mod Loads
pub mod Lookup
pub mod Hex
pub mod Trace
use q3vm.Base.{
  ℕ, zero, suc, ◌+◌, ◌-◌, ◌*◌, Option, none, some, Bool, true, false, not, ◌&&◌, ◌||◌, ◌==◌, ltb,
  leb, List, [], ◌∷◌, length, if◌then◌else◌, ◌>>=◌,
}
use q3vm.Base.Word.{u32, sle}
use q3vm.Memory.{Block, get}

-- `*data <= ' '` and `c > 32`.
abbrev pub is_white : ℕ → Bool
is_white c = leb c 32 || leb 128 c

-- `SkipWhitespace`, with the count of lines. `none` is `NULL`, at the end of the text.
unfoldable pub skip_whitespace : List ℕ → ℕ → Option (List ℕ) × ℕ
skip_whitespace [] lines = (none, lines)
skip_whitespace (c ∷ rest) lines =
    let skipped = skip_whitespace rest (if c == 10 then lines + 1 else lines) in
    if is_white c then skipped else (some (c ∷ rest), lines)

abbrev pub starts_with : ℕ → List ℕ → Bool
starts_with c [] = false
starts_with c (x ∷ xs) = x == c

abbrev pub tail : List ℕ → List ℕ
tail [] = []
tail (x ∷ xs) = xs

-- "skip double slash comments": up to the line's end.
unfoldable pub skip_line : List ℕ → List ℕ
skip_line [] = []
skip_line (c ∷ rest) = let skipped = skip_line rest in if c == 10 then c ∷ rest else skipped

-- "skip comments": behind the closing star and slash.
unfoldable pub skip_comment : List ℕ → ℕ → List ℕ × ℕ
skip_comment [] lines = ([], lines)
skip_comment (c ∷ rest) lines =
    let skipped = skip_comment rest (if c == 10 then lines + 1 else lines) in
    if (c == 42) && starts_with 47 rest then (tail rest, lines) else skipped

-- What one round of the loop over white space and comments finds: a token or the end of the text,
-- or a comment, behind which the next round starts.
pub data Round : Type 0 where
  found : Option (List ℕ) → ℕ → Round
  commented : List ℕ → ℕ → Round

abbrev pub after_slash : List ℕ → ℕ → Round
after_slash rest lines =
    if starts_with 47 rest
    then commented (skip_line (tail rest)) lines
    else if starts_with 42 rest
    then (let (text, n) = skip_comment (tail rest) lines in commented text n)
    else found (some (47 ∷ rest)) lines

abbrev pub after_white : Option (List ℕ) × ℕ → Round
after_white (none, lines) = found none lines
after_white (some [], lines) = found (some []) lines
after_white (some (c ∷ rest), lines) =
    if c == 47 then after_slash rest lines else found (some (c ∷ rest)) lines

unfoldable pub skip_to_token : ℕ → List ℕ → ℕ → Option (Option (List ℕ) × ℕ)
unfolding skip_whitespace skip_line skip_comment
skip_to_token zero text lines = none
skip_to_token (suc fuel) text lines = elim (after_white (skip_whitespace text lines)) [
  | found token n ↦ some (token, n)
  | commented rest n ↦ skip_to_token fuel rest n
]

-- `MAX_TOKEN_CHARS`, and the test before a character is kept.
abbrev pub max_token_chars : ℕ
max_token_chars = 1024

abbrev pub kept : ℕ → ℕ → List ℕ → List ℕ
kept len c token = if ltb len (max_token_chars - 1) then c ∷ token else token

abbrev pub longer : ℕ → ℕ
longer len = if ltb len (max_token_chars - 1) then len + 1 else len

-- Where `*data_p` points: nowhere, into the text, or behind its final zero.
pub data Cursor : Type 0 where
  null : Cursor
  at : List ℕ → Cursor
  past_end : Cursor

-- "handle quoted strings", with the number of characters kept so far: the token, the text behind
-- the closing quote, and the lines. Without a closing quote `data` passes the final zero.
unfoldable pub quoted : List ℕ → ℕ → ℕ → List ℕ × Cursor × ℕ
quoted [] len lines = ([], past_end, lines)
quoted (c ∷ rest) len lines =
    let (token, next, n) = quoted rest (longer len) (if c == 10 then lines + 1 else lines) in
    if c == 34 then ([], at rest, lines) else (kept len c token, next, n)

-- "parse a regular word", behind its first character.
unfoldable pub word : List ℕ → ℕ → List ℕ × List ℕ
word [] len = ([], [])
word (c ∷ rest) len =
    let (token, next) = word rest (longer len) in
    if is_white c then ([], c ∷ rest) else (kept len c token, next)

-- The scanner's place: `*data_p` and `com_lines`.
pub record Scanner : Type 0 where
  pub cursor : Cursor
  pub lines : ℕ

abbrev pub scan_token : Option (List ℕ) × ℕ → List ℕ × Scanner
scan_token (none, n) = ([], record { cursor = null; lines = n })
scan_token (some [], n) = ([], record { cursor = null; lines = n })
scan_token (some (c ∷ rest), n) =
    if c == 34
    then (let (token, next, m) = quoted rest 0 n in (token, record { cursor = next; lines = m }))
    else (let (token, next) = word rest 1 in (c ∷ token, record { cursor = at next; lines = n }))

-- `COM_Parse`. Behind the end of the text it reads what is not part of it.
unfoldable pub com_parse : Scanner → Option (List ℕ × Scanner)
unfolding skip_to_token quoted word
com_parse s = elim s.cursor [
  | null ↦ some ([], s)
  | past_end ↦ none
  | at text ↦ (do start ← skip_to_token (suc (length text)) text s.lines; some (scan_token start))
]

abbrev pub is_empty : List ℕ → Bool
is_empty [] = true
is_empty (c ∷ rest) = false

-- `ParseHex`: other characters are passed over.
abbrev pub hex_step : ℕ → ℕ → ℕ
hex_step value c =
    if leb 48 c && leb c 57
    then u32 (value * 16 + c - 48)
    else if leb 97 c && leb c 102
    then u32 (value * 16 + 10 + c - 97)
    else if leb 65 c && leb c 70
    then u32 (value * 16 + 10 + c - 65)
    else value

unfoldable pub parse_hex_from : ℕ → List ℕ → ℕ
parse_hex_from value [] = value
parse_hex_from value (c ∷ rest) = parse_hex_from (hex_step value c) rest

abbrev pub parse_hex : List ℕ → ℕ
parse_hex text = parse_hex_from 0 text

-- `vmSymbol_t`, without the link of the list.
pub record Symbol : Type 0 where
  pub sym_value : ℕ
  pub profile_count : ℕ
  pub sym_name : List ℕ

-- `VM_ValueToFunctionSymbol`, and the search of `VM_ValueToSymbol`: from `sym` on, as long as the
-- next symbol does not start behind the value.
unfoldable pub symbol_from : Symbol → List Symbol → ℕ → Symbol
symbol_from sym [] value = sym
symbol_from sym (next ∷ rest) value =
    let later = symbol_from next rest value in if sle next.sym_value value then later else sym

abbrev pub null_sym : Symbol
null_sym = record { sym_value = 0; profile_count = 0; sym_name = [] }

unfoldable pub value_to_function_symbol : List Symbol → ℕ → Symbol
unfolding symbol_from
value_to_function_symbol [] value = null_sym
value_to_function_symbol (sym ∷ rest) value = symbol_from sym rest value

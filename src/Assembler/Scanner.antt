-- ===== src/Assembler/Scanner.antt =====
-- `COM_Parse` of q3asm/cmdlib.c, which splits an option file into words, with the globals that it
-- and the command line of q3asm/q3asm.c write. `NULL` is `none`.
use q3vm.Base.{
  ℕ, zero, suc, Option, none, some, Bool, true, false, ltb, ◌==◌, ◌||◌, if◌then◌else◌, List, [],
  ◌∷◌, length,
}
use q3vm.Assembler.Run.{pure, faulted, hang, crash, ok, Act, ◌>>=◌}
use q3vm.Assembler.Text.{has_prefix, skip_white}
use q3vm.Symbols.{skip_line, is_white}

pub record Settings : Type 0 where
  pub output_filename : List ℕ
  pub asm_file_names : List (List ℕ)
  pub verbose : Bool
  pub write_map : Bool
  pub vanilla : Bool
  pub symtablelen : ℕ
  pub com_token : List ℕ

-- `MAX_OS_PATH`, and the size of `com_token`. A text in such a buffer is shorter by its zero.
abbrev pub max_os_path : ℕ
max_os_path = 1024

abbrev pub max_token : ℕ
max_token = 1024

-- "skip // comments", around the white space: with at most as many rounds as the fuel says.
abbrev pub is_comment : List ℕ → Bool
is_comment text = has_prefix text (47 ∷ 47 ∷ [])

unfoldable pub skip_blanks : ℕ → List ℕ → Act Settings (List ℕ)
unfolding skip_white skip_line has_prefix
skip_blanks zero text = hang
skip_blanks (suc fuel) text =
    let start = skip_white text in
    elim (is_comment start) [ true ↦ skip_blanks fuel (skip_line start) | false ↦ pure start ]

abbrev pub with_first : ℕ → Option (List ℕ × List ℕ) → Option (List ℕ × List ℕ)
with_first c none = none
with_first c (some (token, after)) = some (c ∷ token, after)

-- "handle quoted strings specially": `none` where no quote closes it.
unfoldable pub split_quoted : List ℕ → Option (List ℕ × List ℕ)
split_quoted [] = none
split_quoted (c ∷ rest) =
    let more = split_quoted rest in if c == 34 then some ([], rest) else with_first c more

-- "parse single characters": braces, parentheses, the single quote and the colon.
abbrev pub is_single : ℕ → Bool
is_single c = (c == 123) || (c == 125) || (c == 41) || (c == 40) || (c == 39) || (c == 58)

-- "parse a regular word", behind its first character.
unfoldable pub split_word : List ℕ → List ℕ × List ℕ
split_word [] = ([], [])
split_word (c ∷ rest) =
    let (word, after) = split_word rest in
    if is_single c || is_white c then ([], c ∷ rest) else (c ∷ word, after)

-- The token and its zero in `com_token`, and where the text goes on. The code does not test the
-- length: a longer token is written over the end of the buffer, which is `faulted`.
unfoldable pub keep_token : List ℕ → List ℕ → Act Settings (Option (List ℕ))
keep_token token after s =
    if ltb (length token) max_token
    then ok (some after, record s { com_token = token })
    else faulted

abbrev pub keep_quoted : Option (List ℕ × List ℕ) → Act Settings (Option (List ℕ))
keep_quoted none = crash
keep_quoted (some (token, after)) = keep_token token after

unfoldable pub take_text : List ℕ → Act Settings (Option (List ℕ))
unfolding keep_token split_quoted split_word
take_text [] s = ok (none, record s { com_token = [] })
take_text (c ∷ rest) s =
    if c == 34
    then keep_quoted (split_quoted rest) s
    else if is_single c
    then keep_token (c ∷ []) rest s
    else let (word, after) = split_word rest in keep_token (c ∷ word) after s

unfoldable pub com_parse : List ℕ → Act Settings (Option (List ℕ))
unfolding skip_blanks take_text ◌>>=◌
com_parse text = do start ← skip_blanks (suc (length text)) text; take_text start

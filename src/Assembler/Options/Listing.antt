-- ===== src/Assembler/Options/Listing.antt =====
-- An option file of file names, word by word, as `COM_Parse` of q3asm/cmdlib.c reads it.
use q3vm.Base.{
  ℕ, ap, ◌≡◌, refl, ◌∙◌, none, some, arith, Bool, true, false, not, ltb, ◌==◌, ◌&&◌, List, [], ◌∷◌,
  length, ◌++◌,
}
use q3vm.Assembler.Run.{pure, continue, Act, ◌>>=◌, ok}
use q3vm.Assembler.Scanner.{
  max_token, keep_token, split_word, is_comment, take_text, is_single, skip_blanks, Settings,
  com_parse,
}
use q3vm.Assembler.Text.{codes, text_eq, skip_white, has_prefix}
use q3vm.Symbols.{skip_line, is_white}

-- A name on a line of its own.
abbrev pub listing : List (List ℕ) → List ℕ
listing [] = []
listing (name ∷ names) = name ++ 10 ∷ listing names

-- No character of a word ends it, and none is a zero.
abbrev pub is_solid : List ℕ → Bool
is_solid [] = true
is_solid (c ∷ rest) = (not (is_single c) && not (is_white c)) && is_solid rest

-- A file name that is neither a quoted text, a comment nor the option "-o".
abbrev pub is_name : List ℕ → Bool
is_name [] = false
is_name (c ∷ rest) =
    is_solid (c ∷ rest)
    && not (c == 34)
    && not (is_comment (c ∷ rest))
    && not (text_eq (c ∷ rest) (codes "-o"))
    && ltb (length (c ∷ rest)) max_token

abbrev pub are_names : List (List ℕ) → Bool
are_names [] = true
are_names (name ∷ names) = is_name name && are_names names

split_word-solid :
    (w rest : List ℕ) → is_solid w ≡ true → split_word (w ++ 10 ∷ rest) ≡ (w, 10 ∷ rest)
unfolding split_word
split_word-solid [] rest h = refl
split_word-solid (c ∷ w) rest h = ground (arith, split_word-solid w rest)

skip_white-solid : (c : ℕ) (w : List ℕ) → is_solid (c ∷ w) ≡ true → skip_white (c ∷ w) ≡ c ∷ w
unfolding skip_white
skip_white-solid c w h = ground arith

is_comment-append :
    (c : ℕ) (w rest : List ℕ) → is_comment (c ∷ w) ≡ false → is_comment (c ∷ w ++ 10 ∷ rest) ≡ false
unfolding has_prefix
is_comment-append c [] rest h = ground arith
is_comment-append c (d ∷ w) rest h = ground arith

-- `COM_Parse` where white space is followed by anything but a comment.
blanks_done :
    (fuel : ℕ) (start : List ℕ) (s : Settings)
    → is_comment start ≡ false
    → (elim (is_comment start) as (λ _. Act Settings (List ℕ)) [
      | true ↦ skip_blanks fuel (skip_line start)
      | false ↦ pure start
    ])
        s
      ≡ ok (start, s)
blanks_done fuel start s h = rw h refl

com_parse-take :
    (text start : List ℕ) (s : Settings)
    → skip_white text ≡ start
    → is_comment start ≡ false
    → com_parse text s ≡ take_text start s
unfolding com_parse skip_blanks ◌>>=◌
com_parse-take text start s e h =
    let ready : is_comment (skip_white text) ≡ false = rw e h in
    rw (← e) (ap (λ r. continue r take_text) (blanks_done (length text) (skip_white text) s ready))

take_text-name :
    (name rest : List ℕ) (s : Settings)
    → is_name name ≡ true
    → take_text (name ++ 10 ∷ rest) s ≡ ok (some (10 ∷ rest), record s { com_token = name })
unfolding take_text keep_token
take_text-name [] rest s h = cc
take_text-name (c ∷ w) rest s h = ground (arith, split_word-solid w rest)

-- The text of an option file behind a newline or at its start.
abbrev pub Lead : List ℕ → List ℕ → Type 0
Lead text start = skip_white text ≡ skip_white start

skip_white-name :
    (name rest : List ℕ) → is_name name ≡ true → skip_white (name ++ 10 ∷ rest) ≡ name ++ 10 ∷ rest
skip_white-name [] rest h = cc
skip_white-name (c ∷ w) rest h = unfold skip_white in ground arith

pub com_parse-name :
    (text name rest : List ℕ) (s : Settings)
    → Lead text (name ++ 10 ∷ rest)
    → is_name name ≡ true
    → com_parse text s ≡ ok (some (10 ∷ rest), record s { com_token = name })
com_parse-name text [] rest s l h = cc
com_parse-name text (c ∷ w) rest s l h =
    com_parse-take text (c ∷ w ++ 10 ∷ rest) s (l ∙ skip_white-name (c ∷ w) rest h)
      (is_comment-append c w rest (ground arith))
    ∙ take_text-name (c ∷ w) rest s h

pub com_parse-end :
    (text : List ℕ) (s : Settings)
    → Lead text []
    → com_parse text s ≡ ok (none, record s { com_token = [] })
unfolding skip_white has_prefix take_text
com_parse-end text s l = com_parse-take text [] s l refl

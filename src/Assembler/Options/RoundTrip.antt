-- ===== src/Assembler/Options/RoundTrip.antt =====
-- An option file that lists files, read by `ParseOptionFile` of q3asm/q3asm.c.
use q3vm.Base.{
  length-append, lt→ltb, ℕ, zero, suc, ap, ◌+◌, ◌-◌, ◌≤◌, ◌<◌, ◌≡◌, refl, ◌∙◌, Option, some, arith,
  Bool, true, false, List, [], ◌∷◌, length, ◌++◌,
}
use q3vm.Assembler.Files.{
  lift, max_path, slashed_path, named_file, Files, load_file, load_named, c_string,
}
use q3vm.Assembler.Options.{
  output_override, parse_option_file, max_asm_files, com_parse_on, add_file, option_word,
  option_words,
}
use q3vm.Assembler.Options.Listing.{
  com_parse-end, com_parse-name, Lead, is_solid, are_names, is_name, listing,
}
use q3vm.Assembler.Run.{pure, continue, Act, ◌>>=◌, ◌>>◌, ok}
use q3vm.Assembler.Scanner.{Settings}
use q3vm.Assembler.Text.{codes, text_eq}
use mathlib.Core.List.{append-nil, append_assoc}

-- The names behind those that are there already.
abbrev pub named_also : Settings → List (List ℕ) → Settings
named_also s names = record s { asm_file_names = s.asm_file_names ++ names; com_token = [] }

test_false :
    (A : Type 0) (b : Bool) (x y : Act Settings A) (s : Settings)
    → b ≡ false
    → (elim b as (λ _. Act Settings A) [ true ↦ x | false ↦ y ]) s ≡ y s
test_false A true x y s e = cc
test_false A false x y s e = refl

add_file-room :
    (name : List ℕ) (s : Settings)
    → length s.asm_file_names < max_asm_files
    → add_file name s ≡ ok (tt, record s { asm_file_names = s.asm_file_names ++ name ∷ [] })
unfolding add_file
add_file-room name s n = rw (lt→ltb _ _ n) refl

name_not_option : (name : List ℕ) → is_name name ≡ true → text_eq name (codes "-o") ≡ false
name_not_option [] h = cc
name_not_option (c ∷ w) h = ground arith

option_word-name :
    (text : List ℕ) (s : Settings)
    → is_name s.com_token ≡ true
    → length s.asm_file_names < max_asm_files
    → option_word text s
      ≡ ok (some text, record s { asm_file_names = s.asm_file_names ++ s.com_token ∷ [] })
unfolding option_word ◌>>=◌
option_word-name text s h n =
    test_false (Option (List ℕ)) (text_eq s.com_token (codes "-o")) (output_override text)
      (add_file s.com_token >> pure (some text)) s (name_not_option s.com_token h)
    ∙ ap (λ r. continue r λ _. pure (some text)) (add_file-room s.com_token s n)

option_words-names :
    (fuel : ℕ) (names : List (List ℕ)) (text : List ℕ) (s : Settings)
    → length names < fuel
    → Lead text (listing names)
    → are_names names ≡ true
    → length s.asm_file_names + length names ≤ max_asm_files
    → option_words fuel (some text) s ≡ ok (tt, named_also s names)
unfolding option_words com_parse_on ◌>>=◌
option_words-names zero names text s f l h n = absurd (omega arith)
option_words-names (suc fuel) [] text s f l h n = rw (com_parse-end text s l, append-nil) refl
option_words-names (suc fuel) (name ∷ names) text s f l h n =
    let rest = 10 ∷ listing names in
    let parsed = record s { com_token = name } in
    let added = record parsed { asm_file_names = s.asm_file_names ++ name ∷ [] } in
    rw
      (
        com_parse-name text name (listing names) s l (ground arith),
        option_word-name rest parsed (ground arith) (omega arith),
      )
      (option_words-names fuel names rest added (omega arith) refl (ground arith)
          (omega (arith, length-append s.asm_file_names (name ∷ [])))
        ∙ rw append_assoc refl)

solid-c_string :
    (w rest : List ℕ) → is_solid w ≡ true → c_string (w ++ 10 ∷ rest) ≡ w ++ 10 ∷ c_string rest
unfolding c_string
solid-c_string [] rest h = refl
solid-c_string (c ∷ w) rest h = ground (arith, solid-c_string w rest)

listing-c_string :
    (names : List (List ℕ)) → are_names names ≡ true → c_string (listing names) ≡ listing names
unfolding c_string
listing-c_string [] h = refl
listing-c_string ([] ∷ names) h = cc
listing-c_string ((c ∷ w) ∷ names) h =
    solid-c_string (c ∷ w) (listing names) (ground arith)
    ∙ ap (λ t. (c ∷ w) ++ 10 ∷ t) (listing-c_string names (ground arith))

length-listing : (names : List (List ℕ)) → length names ≤ length (listing names)
length-listing [] = omega arith
length-listing (name ∷ names) =
    omega (arith, length-append name (10 ∷ listing names), length-listing names)

load_file-reads :
    (files : Files) (path bytes : List ℕ)
    → files (slashed_path (max_path - 1) path) ≡ some bytes
    → load_file files path ≡ ok (c_string bytes)
unfolding load_file
load_file-reads files path bytes f = rw (load_file, f) refl

load_named-reads :
    (files : Files) (extension name path bytes : List ℕ)
    → named_file extension name ≡ ok path
    → files (slashed_path (max_path - 1) path) ≡ some bytes
    → load_named files extension name ≡ ok (c_string bytes)
unfolding load_named
load_named-reads files extension name path bytes e f =
    rw (load_named, e) (load_file-reads files path bytes f)

-- Where the option file of a name lists file names, one on each line, `ParseOptionFile` puts exactly
-- these names, in their order, behind the ones that are there, and changes nothing else but the last
-- token; the conditions are that there are at most 256 files then, and that each name is shorter
-- than 1024 characters, has no white space and none of the characters that stand for themselves, and
-- is neither quoted, a comment nor "-o".
pub parse_option_file-listing :
    (files : Files) (name path : List ℕ) (names : List (List ℕ)) (s : Settings)
    → named_file (codes ".q3asm") name ≡ ok path
    → files (slashed_path (max_path - 1) path) ≡ some (listing names)
    → are_names names ≡ true
    → length s.asm_file_names + length names ≤ max_asm_files
    → parse_option_file files name s ≡ ok (tt, named_also s names)
unfolding parse_option_file ◌>>=◌
parse_option_file-listing files name path names s e f h n =
    let loaded : load_named files (codes ".q3asm") name ≡ ok (listing names) =
      load_named-reads files (codes ".q3asm") name path (listing names) e f
      ∙ ap ok (listing-c_string names h) in
    let text = listing names in
    ap (λ r. continue (lift r s) λ t. option_words (suc (suc (length t))) (some t)) loaded
    ∙ option_words-names (suc (suc (length text))) names text s
        (omega (arith, length-listing names)) refl h n

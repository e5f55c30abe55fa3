-- ===== src/CmdLib/Parts.antt =====
-- The parts of a path: `ExtractFilePath`, `ExtractFileBase`, `ExtractFileExtension`, `StripFilename`
-- and `DefaultPath` of q3asm/cmdlib.c. A path is searched from its end, so it is turned around
-- first; `none` is an access in front of an empty path.
pub mod Split
use q3vm.Base.{
  ℕ, zero, suc, ap, ◌+◌, ◌-◌, ◌*◌, ◌/◌, ◌%◌, ◌^◌, ◌≤◌, ◌<◌, ◌≡◌, refl, ◌∙◌, Option, none, some,
  arith, Bool, true, false, not, ltb, leb, ◌==◌, ◌&&◌, ◌||◌, if◌then◌else◌, List, [], ◌∷◌, length,
  ◌>>=◌, ◌⊎◌, inl, inr, Bool-cases, Option-cases, get_elem?, ◌++◌, ◌↔◌, ◌≢◌, sym, map, bit_and,
}
use q3vm.Assembler.Paths.{reverse_onto}
use q3vm.Symbols.{starts_with}

abbrev pub is_separator : ℕ → Bool
is_separator c = (c == 92) || (c == 47)

-- `PATHSEPERATOR`, and the dot.
abbrev pub is_slash : ℕ → Bool
is_slash c = c == 47

abbrev pub is_dot : ℕ → Bool
is_dot c = c == 46

-- "back up until" a character, from the last one on: what is in front of `src`, the last character
-- first, and what `src` points to. The last character itself is not looked at.
unfoldable pub back_up : (ℕ → Bool) → List ℕ → List ℕ → List ℕ × List ℕ
back_up stop [] acc = ([], acc)
back_up stop (c ∷ before) acc =
    let more = back_up stop before (c ∷ acc) in if stop c then (c ∷ before, acc) else more

unfoldable pub split_path : (ℕ → Bool) → List ℕ → Option (List ℕ × List ℕ)
unfolding reverse_onto back_up
split_path stop path = elim (reverse_onto [] path) [
  | [] ↦ none
  | c ∷ before ↦ some (back_up stop before (c ∷ []))
]

unfoldable pub extract_file_path : List ℕ → Option (List ℕ)
unfolding split_path reverse_onto
extract_file_path path = do
  (front, back) ← split_path is_separator path
  some (reverse_onto [] front)

-- `*src && *src != '.'`.
unfoldable pub up_to_dot : List ℕ → List ℕ
up_to_dot [] = []
up_to_dot (c ∷ rest) = let more = up_to_dot rest in if is_dot c then [] else c ∷ more

unfoldable pub extract_file_base : List ℕ → Option (List ℕ)
unfolding split_path up_to_dot
extract_file_base path = do (front, back) ← split_path is_slash path; some (up_to_dot back)

abbrev pub extension_part : List ℕ × List ℕ → List ℕ
extension_part ([], back) = []
extension_part (c ∷ front, back) = back

unfoldable pub extract_file_extension : List ℕ → Option (List ℕ)
unfolding split_path
extract_file_extension path = do parts ← split_path is_dot path; some (extension_part parts)

-- The loop of `StripFilename`: what is in front of the last slash.
unfoldable pub front_of_slash : List ℕ → List ℕ
front_of_slash [] = []
front_of_slash (c ∷ []) = []
front_of_slash (c ∷ d ∷ before) =
    let more = front_of_slash (d ∷ before) in if is_slash c then d ∷ before else more

unfoldable pub strip_filename : List ℕ → Option (List ℕ)
unfolding reverse_onto front_of_slash
strip_filename path = elim (reverse_onto [] path) [
  | [] ↦ none
  | c ∷ before ↦ some (reverse_onto [] (front_of_slash (c ∷ before)))
]

-- `DefaultPath`, whose copy of the path has 128 bytes.
abbrev pub max_temp : ℕ
max_temp = 128

unfoldable pub default_path : List ℕ → List ℕ → Option (List ℕ)
default_path path basepath =
    if starts_with 47 path
    then some path
    else if ltb (length path) max_temp
    then some (basepath ++ path)
    else none

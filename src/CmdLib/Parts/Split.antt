-- ===== src/CmdLib/Parts/Split.antt =====
-- The parts of a path of directory, name and extension, by the functions of q3asm/cmdlib.c.
use q3vm.Base.{
  ℕ, ap, ◌≡◌, refl, ◌∙◌, Option, none, some, arith, Bool, true, false, not, ◌&&◌, ◌||◌, List, [],
  ◌∷◌, ◌++◌,
}
use q3vm.Assembler.Paths.{reverse_onto}
use q3vm.Assembler.Paths.Extension.{reverse_onto-append, reverse_onto-reverse_onto}
use q3vm.CmdLib.Parts.{
  extract_file_extension, extract_file_base, extract_file_path, is_dot, split_path, is_separator,
  is_slash, back_up, up_to_dot,
}
use mathlib.Core.List.{append_assoc}

abbrev pub none_of : (ℕ → Bool) → List ℕ → Bool
none_of stop [] = true
none_of stop (c ∷ rest) = not (stop c) && none_of stop rest

stop_not : (stop : ℕ → Bool) (c : ℕ) (w : List ℕ) → none_of stop (c ∷ w) ≡ true → stop c ≡ false
stop_not stop c w h = ground arith

-- The search passes over a text without the character.
back_up-none_of :
    (stop : ℕ → Bool) (w before acc : List ℕ)
    → none_of stop w ≡ true
    → back_up stop (reverse_onto before w) acc ≡ back_up stop before (w ++ acc)
unfolding reverse_onto back_up
back_up-none_of stop [] before acc h = refl
back_up-none_of stop (c ∷ w) before acc h =
    back_up-none_of stop w (c ∷ before) acc (ground arith) ∙ rw (stop_not stop c w h) refl

-- A path that ends in a text without the character, behind the character.
split_path-stop :
    (stop : ℕ → Bool) (front w : List ℕ) (s z : ℕ)
    → stop s ≡ true
    → none_of stop w ≡ true
    → split_path stop (front ++ s ∷ w ++ z ∷ []) ≡ some (s ∷ reverse_onto [] front, w ++ z ∷ [])
unfolding split_path reverse_onto back_up
split_path-stop stop front w s z h k =
    let turned : reverse_onto [] (front ++ s ∷ w ++ z ∷ [])
        ≡ z ∷ reverse_onto (s ∷ reverse_onto [] front) w =
      reverse_onto-append [] (front ++ s ∷ w) (z ∷ [])
      ∙ ap (◌∷◌ z) (reverse_onto-append [] front (s ∷ w)) in
    ap
      (λ r. elim r as (λ _. Option (List ℕ × List ℕ)) [
        | [] ↦ none
        | c ∷ before ↦ some (back_up stop before (c ∷ []))
      ])
      turned
    ∙ ap some (back_up-none_of stop w (s ∷ reverse_onto [] front) (z ∷ []) k ∙ rw h refl)

none_of-append :
    (stop : ℕ → Bool) (v w : List ℕ)
    → none_of stop v ≡ true
    → none_of stop w ≡ true
    → none_of stop (v ++ w) ≡ true
none_of-append stop [] w h k = k
none_of-append stop (c ∷ v) w h k = ground (arith, none_of-append stop v w)

-- Neither a separator nor a dot.
abbrev pub is_special : ℕ → Bool
is_special c = is_separator c || is_dot c

plain_separators : (w : List ℕ) → none_of is_special w ≡ true → none_of is_separator w ≡ true
plain_separators [] h = refl
plain_separators (c ∷ w) h = ground (arith, plain_separators w)

plain_slashes : (w : List ℕ) → none_of is_special w ≡ true → none_of is_slash w ≡ true
plain_slashes [] h = refl
plain_slashes (c ∷ w) h = ground (arith, plain_slashes w)

plain_dots : (w : List ℕ) → none_of is_special w ≡ true → none_of is_dot w ≡ true
plain_dots [] h = refl
plain_dots (c ∷ w) h = ground (arith, plain_dots w)

up_to_dot-dot : (w rest : List ℕ) → none_of is_dot w ≡ true → up_to_dot (w ++ 46 ∷ rest) ≡ w
unfolding up_to_dot
up_to_dot-dot [] rest h = refl
up_to_dot-dot (c ∷ w) rest h = ground (arith, up_to_dot-dot w rest)

-- A directory, a name, and an extension that ends in `z`.
abbrev pub full_path : List ℕ → List ℕ → List ℕ → ℕ → List ℕ
full_path d b e z = d ++ 47 ∷ (b ++ 46 ∷ e) ++ z ∷ []

at_dot : (d b e : List ℕ) (z : ℕ) → full_path d b e z ≡ d ++ 47 ∷ b ++ 46 ∷ e ++ z ∷ []
at_dot d b e z = simp append_assoc

-- For a path of a directory, a slash, a name, a dot and an extension that is not empty, where the
-- name and the extension (but for its last character) have no separator and no dot: what
-- `ExtractFilePath` gives is the directory with its slash, `ExtractFileBase` gives the name, and
-- `ExtractFileExtension` the extension without its dot.
pub full_path-parts :
    (d b e : List ℕ) (z : ℕ)
    → none_of is_special b ≡ true
    → none_of is_special e ≡ true
    → (extract_file_path (full_path d b e z) ≡ some (d ++ 47 ∷ []))
      × (extract_file_base (full_path d b e z) ≡ some b)
      × (extract_file_extension (full_path d b e z) ≡ some (e ++ z ∷ []))
unfolding extract_file_path extract_file_base extract_file_extension reverse_onto
full_path-parts d b e z h k =
    let separators =
      none_of-append is_separator b (46 ∷ e) (plain_separators b h) (plain_separators e k) in
    let slashes = none_of-append is_slash b (46 ∷ e) (plain_slashes b h) (plain_slashes e k) in
    (
      rw (split_path-stop is_separator d (b ++ 46 ∷ e) 47 z refl separators)
          (ap some (reverse_onto-reverse_onto (47 ∷ []) [] d)),
      rw (split_path-stop is_slash d (b ++ 46 ∷ e) 47 z refl slashes)
          (ap some (rw append_assoc (up_to_dot-dot b (e ++ z ∷ []) (plain_dots b h)))),
      rw (at_dot, split_path-stop is_dot (d ++ 47 ∷ b) e 46 z refl (plain_dots e k)) refl,
    )

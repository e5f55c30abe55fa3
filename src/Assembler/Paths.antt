-- ===== src/Assembler/Paths.antt =====
-- The names of the files: `StripExtension` and `DefaultExtension` of q3asm/cmdlib.c, and what
-- q3asm/q3asm.c makes of them. A path is searched from its end, so it is turned around first.
pub mod Extension
use q3vm.Base.{
  ◌>>=◌, ℕ, zero, suc, ap, ◌+◌, ◌-◌, ◌*◌, ◌/◌, ◌%◌, ◌^◌, ◌≤◌, ◌<◌, ◌≡◌, refl, ◌∙◌, Option, none,
  some, arith, Bool, true, false, not, ltb, leb, ◌==◌, ◌&&◌, ◌||◌, if◌then◌else◌, List, [], ◌∷◌,
  length, ◌⊎◌, inl, inr, Bool-cases, Option-cases, get_elem?, ◌++◌, ◌↔◌, ◌≢◌, sym, map, bit_and,
}

unfoldable pub reverse_onto : List ℕ → List ℕ → List ℕ
reverse_onto acc [] = acc
reverse_onto acc (c ∷ rest) = reverse_onto (c ∷ acc) rest

-- The loop of `StripExtension`: what is in front of the last dot, the last character first. The
-- first character of the path is no such dot.
unfoldable pub strip_from : List ℕ → Option (List ℕ)
strip_from [] = none
strip_from (c ∷ []) = none
strip_from (c ∷ d ∷ before) =
    let more = strip_from (d ∷ before) in
    if c == 46 then some (d ∷ before) else if d == 47 then none else more

abbrev pub stripped : List ℕ → Option (List ℕ) → List ℕ
stripped path none = path
stripped path (some before) = reverse_onto [] before

-- `none` is the write in front of an empty path.
unfoldable pub strip_extension : List ℕ → Option (List ℕ)
unfolding reverse_onto strip_from
strip_extension [] = none
strip_extension (c ∷ rest) = some (stripped (c ∷ rest) (strip_from (reverse_onto [] (c ∷ rest))))

-- The loop of `DefaultExtension`. The first character of the path is not looked at.
unfoldable pub has_extension : List ℕ → Bool
has_extension [] = false
has_extension (c ∷ []) = false
has_extension (c ∷ d ∷ before) =
    let more = has_extension (d ∷ before) in
    if (c == 47) || (c == 92) then false else if c == 46 then true else more

unfoldable pub default_extension : List ℕ → List ℕ → Option (List ℕ)
unfolding reverse_onto has_extension
default_extension [] extension = none
default_extension (c ∷ rest) extension =
    if has_extension (reverse_onto [] (c ∷ rest))
    then some (c ∷ rest)
    else some ((c ∷ rest) ++ extension)

-- `imageName`, with ".qvm" or ".map".
unfoldable pub image_name : List ℕ → List ℕ → Option (List ℕ)
unfolding strip_extension
image_name output extension = do path ← strip_extension output; some (path ++ extension)

-- ===== src/Assembler/Paths/Extension.antt =====
-- `StripExtension` takes away what `DefaultExtension` has put behind a path.
use q3vm.Base.{
  ◌>>=◌, ℕ, ap, ◌≡◌, refl, ◌∙◌, some, arith, Bool, true, false, not, ◌==◌, ◌&&◌, List, [], ◌∷◌,
  ◌++◌,
}
use q3vm.Assembler.Paths.{
  stripped, has_extension, strip_from, default_extension, reverse_onto, strip_extension,
}
use mathlib.Core.List.{append-nil}

pub reverse_onto-append :
    (acc xs ys : List ℕ) → reverse_onto acc (xs ++ ys) ≡ reverse_onto (reverse_onto acc xs) ys
unfolding reverse_onto
reverse_onto-append acc [] ys = refl
reverse_onto-append acc (x ∷ xs) ys = reverse_onto-append (x ∷ acc) xs ys

pub reverse_onto-reverse_onto :
    (b a xs : List ℕ) → reverse_onto b (reverse_onto a xs) ≡ reverse_onto (xs ++ b) a
unfolding reverse_onto
reverse_onto-reverse_onto b a [] = refl
reverse_onto-reverse_onto b a (x ∷ xs) = reverse_onto-reverse_onto b (x ∷ a) xs

reverse_twice : (xs : List ℕ) → reverse_onto [] (reverse_onto [] xs) ≡ xs
unfolding reverse_onto
reverse_twice xs = reverse_onto-reverse_onto [] [] xs ∙ append-nil xs

-- No dot and no slash.
abbrev pub is_plain : List ℕ → Bool
is_plain [] = true
is_plain (c ∷ rest) = not (c == 46) && not (c == 47) && is_plain rest

abbrev starts_right : List ℕ → Bool
starts_right [] = false
starts_right (c ∷ rest) = not (c == 47)

-- The loop passes over plain characters.
strip_from-plain :
    (l before e : List ℕ)
    → starts_right l ≡ true
    → strip_from l ≡ some before
    → is_plain e ≡ true
    → strip_from (reverse_onto l e) ≡ some before
unfolding reverse_onto strip_from
strip_from-plain l before [] h k p = k
strip_from-plain [] before (x ∷ e) h k p = absurd (ground arith)
strip_from-plain (d ∷ l) before (x ∷ e) h k p =
    strip_from-plain (x ∷ d ∷ l) before e (ground arith) (ground arith) (ground arith)

reverse_onto-cons :
    (acc : List ℕ) (c : ℕ) (rest : List ℕ)
    → (d : ℕ) × (before : List ℕ) × (reverse_onto acc (c ∷ rest) ≡ d ∷ before)
unfolding reverse_onto
reverse_onto-cons acc c [] = (c, acc, refl)
reverse_onto-cons acc c (x ∷ rest) = reverse_onto-cons (c ∷ acc) x rest

strip_from-dot :
    (c : ℕ) (rest : List ℕ)
    → strip_from (46 ∷ reverse_onto [] (c ∷ rest)) ≡ some (reverse_onto [] (c ∷ rest))
unfolding strip_from
strip_from-dot c rest = let (d, before, e) = reverse_onto-cons [] c rest in rw e refl

strip_extension-some :
    (c : ℕ) (rest before : List ℕ)
    → strip_from (reverse_onto [] (c ∷ rest)) ≡ some before
    → strip_extension (c ∷ rest) ≡ some (reverse_onto [] before)
unfolding strip_extension
strip_extension-some c rest before h = ap (λ o. some (stripped (c ∷ rest) o)) h

-- If a path that is not empty has no extension by the test of `DefaultExtension`, then putting a
-- dot and characters without dot and slash behind it, as `DefaultExtension` does, and taking the
-- extension away with `StripExtension` gives the path back.
strip_extension-default_extension :
    (c : ℕ) (rest extension : List ℕ)
    → has_extension (reverse_onto [] (c ∷ rest)) ≡ false
    → is_plain extension ≡ true
    → (default_extension (c ∷ rest) (46 ∷ extension) >>= strip_extension) ≡ some (c ∷ rest)
unfolding default_extension
strip_extension-default_extension c rest extension h p =
    let path = c ∷ rest in
    let turned : strip_from (reverse_onto [] (path ++ (46 ∷ extension)))
        ≡ some (reverse_onto [] path) =
      rw (reverse_onto-append [] path (46 ∷ extension)) (
        unfold reverse_onto in
        strip_from-plain (46 ∷ reverse_onto [] path) (reverse_onto [] path) extension refl
          (strip_from-dot c rest) p) in
    rw h (
      strip_extension-some c (rest ++ (46 ∷ extension)) (reverse_onto [] path) turned
      ∙ ap some (reverse_twice path))

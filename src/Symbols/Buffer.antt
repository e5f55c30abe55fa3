-- ===== src/Symbols/Buffer.antt =====
-- The buffer of a map file in src/vm/vm.c: `COM_Parse` reads it up to the first zero.
use q3vm.Base.{ℕ, ◌≡◌, refl, none, some, Bool, true, not, ◌==◌, ◌&&◌, List, [], ◌∷◌, ◌++◌, arith}
use q3vm.Symbols.Loader.{terminated}

abbrev pub no_zero : List ℕ → Bool
no_zero [] = true
no_zero (c ∷ rest) = not (c == 0) && no_zero rest

pub terminated-none : (text : List ℕ) → no_zero text ≡ true → terminated text ≡ none
unfolding terminated
terminated-none [] h = refl
terminated-none (c ∷ rest) h = ground (arith, terminated-none rest)

pub terminated-some :
    (text rest : List ℕ) → no_zero text ≡ true → terminated (text ++ 0 ∷ rest) ≡ some text
unfolding terminated
terminated-some [] rest h = refl
terminated-some (c ∷ text) rest h = ground (arith, terminated-some text rest)

pub no_zero-append :
    (xs ys : List ℕ) → no_zero xs ≡ true → no_zero ys ≡ true → no_zero (xs ++ ys) ≡ true
no_zero-append [] ys h k = k
no_zero-append (x ∷ xs) ys h k = ground (arith, no_zero-append xs ys)

-- ===== src/Assembler/Options/Triple.antt =====
-- Actions of the command line of q3asm/q3asm.c that come to an end, with what then holds of their
-- value and of the globals.
use q3vm.Base.{◌≡◌, refl, Option, none, some, arith, Bool, true, false}
use q3vm.Assembler.Files.{lift}
use q3vm.Assembler.Run.{continue, Run, Act, ◌>>=◌, ok, exited, faulted, unfinished}
use q3vm.Assembler.Scanner.{Settings}

-- `Q` holds if the action returns, and it is not still running.
abbrev pub Ends : (A : Type 0) → (A → Settings → Type 0) → Run (A × Settings) → Type 0
Ends A Q (ok (a, s)) = Q a s
Ends A Q exited = Unit {0}
Ends A Q faulted = Unit {0}
Ends A Q unfinished = ⊥

continue-Ends :
    (A B : Type 0) (Q : A → Settings → Type 0) (R : B → Settings → Type 0) (r : Run (A × Settings))
    (k : A → Act Settings B)
    → Ends A Q r
    → ((a : A) (s : Settings) → Q a s → Ends B R (k a s))
    → Ends B R (continue r k)
continue-Ends A B Q R (ok (a, s)) k h w = w a s h
continue-Ends A B Q R exited k h w = tt
continue-Ends A B Q R faulted k h w = tt
continue-Ends A B Q R unfinished k h w = absurd h

pub chain-Ends :
    (A B : Type 0) (Q : A → Settings → Type 0) (R : B → Settings → Type 0) (m : Act Settings A)
    (k : A → Act Settings B) (s : Settings)
    → Ends A Q (m s)
    → ((a : A) (s : Settings) → Q a s → Ends B R (k a s))
    → Ends B R ((m >>= k) s)
unfolding ◌>>=◌
chain-Ends A B Q R m k s h w = continue-Ends A B Q R (m s) k h w

pub weaken-Ends :
    (A : Type 0) (Q R : A → Settings → Type 0) (r : Run (A × Settings))
    → Ends A Q r
    → ((a : A) (s : Settings) → Q a s → R a s)
    → Ends A R r
weaken-Ends A Q R (ok (a, s)) h w = w a s h
weaken-Ends A Q R exited h w = tt
weaken-Ends A Q R faulted h w = tt
weaken-Ends A Q R unfinished h w = absurd h

pub Ends-ok :
    (A : Type 0) (Q : A → Settings → Type 0) (r : Run (A × Settings)) {a : A} {s : Settings}
    → Ends A Q r
    → r ≡ ok (a, s)
    → Q a s
Ends-ok A Q (ok (b, t)) h e = ground arith
Ends-ok A Q exited h e = cc
Ends-ok A Q faulted h e = cc
Ends-ok A Q unfinished h e = cc

-- A test, and a pointer that may be `NULL`.
pub test-Ends :
    (A : Type 0) (Q : A → Settings → Type 0) (b : Bool) (x y : Act Settings A) (s : Settings)
    → (b ≡ true → Ends A Q (x s))
    → (b ≡ false → Ends A Q (y s))
    → Ends A Q ((elim b as (λ _. Act Settings A) [ true ↦ x | false ↦ y ]) s)
test-Ends A Q true x y s h w = h refl
test-Ends A Q false x y s h w = w refl

pub pointer-Ends :
    (A B : Type 0) (Q : B → Settings → Type 0) (p : Option A) (x : Act Settings B)
    (y : A → Act Settings B) (s : Settings)
    → (p ≡ none → Ends B Q (x s))
    → ((a : A) → p ≡ some a → Ends B Q (y a s))
    → Ends B Q ((elim p as (λ _. Act Settings B) [ none ↦ x | some a ↦ y a ]) s)
pointer-Ends A B Q none x y s h w = h refl
pointer-Ends A B Q (some a) x y s h w = w a refl

-- A step that does not touch the globals.
pub lift_then-Ends :
    (A B : Type 0) (R : B → Settings → Type 0) (r : Run A) (k : A → Act Settings B) (s : Settings)
    → ¬ (r ≡ unfinished)
    → ((a : A) → r ≡ ok a → Ends B R (k a s))
    → Ends B R ((lift r >>= k) s)
unfolding ◌>>=◌
lift_then-Ends A B R (ok a) k s h w = w a refl
lift_then-Ends A B R exited k s h w = tt
lift_then-Ends A B R faulted k s h w = tt
lift_then-Ends A B R unfinished k s h w = h refl

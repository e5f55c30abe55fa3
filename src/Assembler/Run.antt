-- ===== src/Assembler/Run.antt =====
-- How a function of q3asm/q3asm.c ends: it returns, the process ends in `Error`, it does what C
-- leaves undefined, or it still runs when the fuel of a loop is used up.
use q3vm.Base.{◌≡◌, refl}

pub data Run {ℓ} (A : Type ℓ) : Type ℓ where
  ok : A → Run A
  exited : Run A
  faulted : Run A
  unfinished : Run A

-- A function of the assembler, on the state of its globals.
abbrev pub Act : Type 0 → Type 0 → Type 0
Act S A = S → Run (A × S)

abbrev pub pure : {S A : Type 0} → A → Act S A
pure a s = ok (a, s)

abbrev pub gets : {S A : Type 0} → (S → A) → Act S A
gets f s = ok (f s, s)

abbrev pub modify : {S : Type 0} → (S → S) → Act S (Unit {0})
modify f s = ok (tt, f s)

abbrev pub hang : {S A : Type 0} → Act S A
hang s = unfinished

abbrev pub crash : {S A : Type 0} → Act S A
crash s = faulted

abbrev pub continue : {S A B : Type 0} → Run (A × S) → (A → Act S B) → Run (B × S)
continue (ok (a, s)) k = k a s
continue exited k = exited
continue faulted k = faulted
continue unfinished k = unfinished

infixl 5 ◌>>=◌ ◌>>◌
unfoldable pub ◌>>=◌ : {S A B : Type 0} → Act S A → (A → Act S B) → Act S B
◌>>=◌ m k s = continue (m s) k

abbrev pub ◌>>◌ : {S A B : Type 0} → Act S A → Act S B → Act S B
m >> k = m >>= λ _. k

-- Inversion of a chain that returns.
pub continue-eq-ok :
    {S A B : Type 0} (r : Run (A × S)) (k : A → Act S B) {b : B} {s' : S}
    → continue r k ≡ ok (b, s')
    → (a : A) × (s : S) × (r ≡ ok (a, s)) × (k a s ≡ ok (b, s'))
continue-eq-ok (ok (a, s)) k e = (a, s, refl, e)
continue-eq-ok exited k e = cc
continue-eq-ok faulted k e = cc
continue-eq-ok unfinished k e = cc

-- ===== src/CmdLib/Compare.antt =====
-- `Q_strncasecmp`, `Q_stricmp`, `strupr`, `strlower` and `CheckParm` of q3asm/cmdlib.c. A text is the
-- list of its bytes before the final zero. `toupper` and `tolower` are those of the C locale.
use q3vm.Base.{
  ℕ, zero, suc, ◌+◌, ◌-◌, ◌<◌, ◌≡◌, arith, Bool, true, false, leb, ◌==◌, ◌&&◌, if◌then◌else◌, List,
  [], ◌∷◌, length, inl, inr, Bool-cases, ◌↔◌, ◌≢◌,
}

-- `c1 >= 'a' && c1 <= 'z'`.
abbrev pub is_lower : ℕ → Bool
is_lower c = leb 97 c && leb c 122

abbrev pub upper : ℕ → ℕ
upper c = if is_lower c then c - 32 else c

abbrev pub is_upper : ℕ → Bool
is_upper c = leb 65 c && leb c 90

abbrev pub lower : ℕ → ℕ
lower c = if is_upper c then c + 32 else c

-- `Q_strncasecmp`, with `true` for 0: at most `n` characters are compared.
unfoldable pub q_strncasecmp : List ℕ → List ℕ → ℕ → Bool
q_strncasecmp s t zero = true
q_strncasecmp [] [] (suc n) = true
q_strncasecmp [] (d ∷ t) (suc n) = false
q_strncasecmp (c ∷ s) [] (suc n) = false
q_strncasecmp (c ∷ s) (d ∷ t) (suc n) =
    let more = q_strncasecmp s t n in
    if c == d then more else if upper c == upper d then more else false

abbrev pub max_compared : ℕ
max_compared = 99999

abbrev pub q_stricmp : List ℕ → List ℕ → Bool
q_stricmp s t = q_strncasecmp s t max_compared

unfoldable pub strupr : List ℕ → List ℕ
strupr [] = []
strupr (c ∷ rest) = upper c ∷ strupr rest

unfoldable pub strlower : List ℕ → List ℕ
strlower [] = []
strlower (c ∷ rest) = lower c ∷ strlower rest

-- `CheckParm`: the number of the first argument that is the given one, or 0. The list holds the
-- arguments from number `i` on.
unfoldable pub check_from : ℕ → List ℕ → List (List ℕ) → ℕ
unfolding q_strncasecmp
check_from i check [] = 0
check_from i check (arg ∷ args) =
    let later = check_from (i + 1) check args in if q_stricmp check arg then i else later

abbrev pub check_parm : List ℕ → List (List ℕ) → ℕ
check_parm check args = check_from 1 check args

q_strncasecmp_iff :
    (s t : List ℕ) (n : ℕ) → length s < n → (q_strncasecmp s t n ≡ true) ↔ (strupr s ≡ strupr t)
unfolding q_strncasecmp strupr
q_strncasecmp_iff s t zero h = absurd (omega arith)
q_strncasecmp_iff [] [] (suc n) h = ground arith
q_strncasecmp_iff [] (d ∷ t) (suc n) h = ground arith
q_strncasecmp_iff (c ∷ s) [] (suc n) h = ground arith
q_strncasecmp_iff (c ∷ s) (d ∷ t) (suc n) h = ground (arith, q_strncasecmp_iff s t n (omega arith))

-- For a text shorter than 99999 characters `Q_stricmp` is 0 exactly if `strupr` makes both texts
-- the same.
pub q_stricmp_iff :
    (s t : List ℕ) → length s < max_compared → (q_stricmp s t ≡ true) ↔ (strupr s ≡ strupr t)
q_stricmp_iff s t h = q_strncasecmp_iff s t max_compared h

-- What `CheckParm` gives: a number from `i` on, of the first argument that is the given one.
pub data Checked (check : List ℕ) : ℕ → List (List ℕ) → ℕ → Type 0 where
  here :
      {i : ℕ} {arg : List ℕ} {args : List (List ℕ)}
      → strupr check ≡ strupr arg
      → Checked check i (arg ∷ args) i
  later :
      {i n : ℕ} {arg : List ℕ} {args : List (List ℕ)}
      → strupr check ≢ strupr arg
      → Checked check (i + 1) args n
      → Checked check i (arg ∷ args) n
  nowhere : {i : ℕ} → Checked check i [] 0

check_from-Checked :
    (i : ℕ) (check : List ℕ) (args : List (List ℕ))
    → length check < max_compared
    → Checked check i args (check_from i check args)
unfolding check_from
check_from-Checked i check [] h = nowhere
check_from-Checked i check (arg ∷ args) h = elim (Bool-cases (q_stricmp check arg)) [
  | inl same ↦ rw same (here ((q_stricmp_iff check arg h).0 same))
  | inr other ↦ rw other (
      later (λ e. ground (arith, (q_stricmp_iff check arg h).1 e))
        (check_from-Checked (i + 1) check args h))
]

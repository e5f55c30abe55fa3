-- ===== src/Assembler/MapFile/Tokens.antt =====
-- `COM_Parse` of src/vm/vm.c on words with white space between them.
use q3vm.Base.{
  ◌>>=◌, ℕ, suc, ap, ◌+◌, ◌<◌, ◌≡◌, refl, ◌∙◌, Option, none, some, arith, Bool, true, false, not,
  ltb, ◌==◌, ◌&&◌, if◌then◌else◌, List, [], ◌∷◌, length, ◌++◌,
}
use q3vm.Symbols.{
  after_white, scan_token, word, found, commented, Round, null, at, skip_to_token, com_parse,
  max_token_chars, is_white, skip_whitespace,
}

abbrev pub all_white : List ℕ → Bool
all_white [] = true
all_white (c ∷ rest) = is_white c && all_white rest

abbrev pub none_white : List ℕ → Bool
none_white [] = true
none_white (c ∷ rest) = not (is_white c) && none_white rest

-- A word that starts neither a quoted text nor a comment.
abbrev pub is_word : List ℕ → Bool
is_word [] = false
is_word (c ∷ rest) =
    none_white (c ∷ rest)
    && not (c == 34)
    && not (c == 47)
    && ltb (length (c ∷ rest)) max_token_chars

word-none_white :
    (w : List ℕ) (d : ℕ) (rest : List ℕ) (len : ℕ)
    → none_white w ≡ true
    → is_white d ≡ true
    → len + length w < max_token_chars
    → word (w ++ d ∷ rest) len ≡ (w, d ∷ rest)
unfolding word
word-none_white [] d rest len h k n = ground arith
word-none_white (c ∷ w) d rest len h k n =
    ground (arith, word-none_white w d rest (len + 1) (ground arith) k (omega arith))

skip_whitespace-lead :
    (lead : List ℕ) (c : ℕ) (rest : List ℕ) (lines : ℕ)
    → all_white lead ≡ true
    → is_white c ≡ false
    → (n : ℕ) × (skip_whitespace (lead ++ c ∷ rest) lines ≡ (some (c ∷ rest), n))
unfolding skip_whitespace
skip_whitespace-lead [] c rest lines h k = (lines, ground arith)
skip_whitespace-lead (b ∷ lead) c rest lines h k =
    let (n, e) =
      skip_whitespace-lead lead c rest (if b == 10 then lines + 1 else lines) (ground arith) k in
    (n, ground arith)

skip_to_token-found :
    (fuel : ℕ) (text : List ℕ) (lines : ℕ) (start : Option (List ℕ)) (n : ℕ)
    → after_white (skip_whitespace text lines) ≡ found start n
    → skip_to_token (suc fuel) text lines ≡ some (start, n)
unfolding skip_to_token
skip_to_token-found fuel text lines start n e =
    ap
      (λ (r : Round). elim r as (λ _. Option (Option (List ℕ) × ℕ)) [
        | found token m ↦ some (token, m)
        | commented rest m ↦ skip_to_token fuel rest m
      ])
      e

com_parse-start :
    (text : List ℕ) (lines : ℕ) (start : Option (List ℕ)) (n : ℕ)
    → after_white (skip_whitespace text lines) ≡ found start n
    → com_parse (record { cursor = at text; lines = lines }) ≡ some (scan_token (start, n))
unfolding com_parse
com_parse-start text lines start n e =
    ap (λ o. o >>= λ begin. some (scan_token begin))
      (skip_to_token-found (length text) text lines start n e)

-- Behind the word the scanner stands at the white space that ends it.
pub com_parse-word :
    (lead w : List ℕ) (d : ℕ) (rest : List ℕ) (lines : ℕ)
    → all_white lead ≡ true
    → is_word w ≡ true
    → is_white d ≡ true
    → (n : ℕ) × (com_parse (record { cursor = at (lead ++ (w ++ d ∷ rest)); lines = lines })
        ≡ some (w, record { cursor = at (d ∷ rest); lines = n }))
com_parse-word lead [] d rest lines h k i = cc
com_parse-word lead (c ∷ w) d rest lines h k i =
    let (n, e) = skip_whitespace-lead lead c (w ++ d ∷ rest) lines h (ground arith) in
    let begins : after_white (some (c ∷ (w ++ d ∷ rest)), n)
        ≡ found (some (c ∷ (w ++ d ∷ rest))) n =
      ground arith in
    (
      n,
      com_parse-start (lead ++ c ∷ (w ++ d ∷ rest)) lines (some (c ∷ (w ++ d ∷ rest))) n
            (ap after_white e ∙ begins)
          ∙ ap some (scanned n),
    )
  where
    scanned :
        (n : ℕ)
        → scan_token (some (c ∷ (w ++ d ∷ rest)), n)
          ≡ (c ∷ w, record { cursor = at (d ∷ rest); lines = n })
    scanned n = ground (arith, word-none_white w d rest 1 (ground arith) i (ground arith))

skip_whitespace-end :
    (lead : List ℕ) (lines : ℕ)
    → all_white lead ≡ true
    → (n : ℕ) × (skip_whitespace lead lines ≡ (none, n))
unfolding skip_whitespace
skip_whitespace-end [] lines h = (lines, refl)
skip_whitespace-end (b ∷ lead) lines h =
    let (n, e) = skip_whitespace-end lead (if b == 10 then lines + 1 else lines) (ground arith) in
    (n, ground arith)

pub com_parse-end :
    (lead : List ℕ) (lines : ℕ)
    → all_white lead ≡ true
    → (n : ℕ) × (com_parse (record { cursor = at lead; lines = lines })
        ≡ some ([], record { cursor = null; lines = n }))
com_parse-end lead lines h =
    let (n, e) = skip_whitespace-end lead lines h in
    (n, com_parse-start lead lines none n (ap after_white e))

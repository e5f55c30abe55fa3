-- ===== src/Assembler/Options/Scanning.antt =====
-- `COM_Parse` of q3asm/cmdlib.c comes to an end on every text.
use q3vm.Base.{
  ltb→lt, ℕ, zero, suc, ◌-◌, ◌≤◌, ◌<◌, ◌≡◌, Option, none, some, arith, Bool, true, ltb, ◌==◌, List,
  [], ◌∷◌, length, inl, inr, Bool-cases, Option-cases,
}
use q3vm.Assembler.Options.{max_asm_files}
use q3vm.Assembler.Options.Triple.{test-Ends, chain-Ends, weaken-Ends, Ends}
use q3vm.Assembler.Run.{pure}
use q3vm.Assembler.Scanner.{
  is_single, max_token, keep_quoted, is_comment, max_os_path, split_quoted, skip_blanks, Settings,
  split_word, take_text, keep_token, com_parse,
}
use q3vm.Assembler.Text.{has_prefix, skip_white}
use q3vm.Symbols.{skip_line}

-- The texts fit in their buffers, and nothing has changed the compatibility with Q3; `write_map`
-- is as wanted.
pub record IsWithin (wanted : Bool) (s : Settings) : Type 0 where
  pub output : length s.output_filename < max_os_path
  pub names : length s.asm_file_names ≤ max_asm_files
  pub token : length s.com_token < max_token
  pub vanilla : s.vanilla ≡ true
  pub asked : s.write_map ≡ wanted

length-skip_white : (text : List ℕ) → length (skip_white text) ≤ length text
unfolding skip_white
length-skip_white [] = omega arith
length-skip_white (c ∷ rest) = ground (arith, length-skip_white rest)

length-skip_line : (text : List ℕ) → length (skip_line text) ≤ length text
unfolding skip_line
length-skip_line [] = omega arith
length-skip_line (c ∷ rest) = ground (arith, length-skip_line rest)

-- A comment is not empty.
length-skip_line_comment :
    (text : List ℕ) → is_comment text ≡ true → length (skip_line text) < length text
unfolding skip_line has_prefix
length-skip_line_comment [] h = cc
length-skip_line_comment (c ∷ rest) h = ground (arith, length-skip_line rest)

module _ (wanted : Bool) where
  abbrev AtMost : ℕ → List ℕ → Settings → Type 0
  AtMost n rest s = (length rest ≤ n) × IsWithin wanted s

  skip_blanks-Ends :
      (fuel n : ℕ) (text : List ℕ) (s : Settings)
      → IsWithin wanted s
      → length text ≤ n
      → n < fuel
      → Ends (List ℕ) (AtMost n) (skip_blanks fuel text s)
  unfolding skip_blanks
  skip_blanks-Ends zero n text s g l h = absurd (omega arith)
  skip_blanks-Ends (suc fuel) n text s g l h =
      let start = skip_white text in
      test-Ends (List ℕ) (AtMost n) (is_comment start) (skip_blanks fuel (skip_line start))
        (pure start) s
        (λ e.
          let shorter = length-skip_line_comment start e in
          weaken-Ends (List ℕ) (AtMost (n - 1)) (AtMost n) (skip_blanks fuel (skip_line start) s)
            (skip_blanks-Ends fuel (n - 1) (skip_line start) s g
              (omega (arith, shorter, length-skip_white text))
              (omega (arith, shorter, length-skip_white text)))
            λ rest t (i, w). (omega arith, w))
        λ e. (omega (arith, length-skip_white text), g)

  -- What `COM_Parse` gives: `NULL`, or a place that is at least one character further on.
  abbrev pub Further : ℕ → Option (List ℕ) → Settings → Type 0
  Further n none s = IsWithin wanted s
  Further n (some after) s = (length after < n) × IsWithin wanted s

  length-split_word : (text : List ℕ) → length (split_word text).1 ≤ length text
  unfolding split_word
  length-split_word [] = omega arith
  length-split_word (c ∷ rest) = ground (arith, length-split_word rest)

  abbrev QuotedLeft : ℕ → Option (List ℕ × List ℕ) → Type 0
  QuotedLeft n none = Unit {0}
  QuotedLeft n (some (token, after)) = length after ≤ n

  split_quoted-QuotedLeft : (text : List ℕ) → QuotedLeft (length text) (split_quoted text)
  unfolding split_quoted
  split_quoted-QuotedLeft [] = tt
  split_quoted-QuotedLeft (c ∷ rest) = elim (Option-cases (split_quoted rest)) [
    | inl e ↦ ground arith
    | inr ((token, after), e) ↦ ground (arith, rw e at (split_quoted-QuotedLeft rest))
  ]

  keep_token-Ends :
      (n : ℕ) (token after : List ℕ) (s : Settings)
      → IsWithin wanted s
      → length after < n
      → Ends (Option (List ℕ)) (Further n) (keep_token token after s)
  unfolding keep_token
  keep_token-Ends n token after s g h = elim (Bool-cases (ltb (length token) max_token)) [
    | inl fits ↦ rw fits (
      h,
      record {
        output = g.output;
        names = g.names;
        token = ltb→lt _ _ fits;
        vanilla = g.vanilla;
        asked = g.asked;
      },
    )
    | inr long ↦ rw long tt
  ]

  keep_quoted-Ends :
      (m n : ℕ) (q : Option (List ℕ × List ℕ)) (s : Settings)
      → IsWithin wanted s
      → QuotedLeft m q
      → m < n
      → Ends (Option (List ℕ)) (Further n) (keep_quoted q s)
  keep_quoted-Ends m n none s g h l = tt
  keep_quoted-Ends m n (some (token, after)) s g h l =
      keep_token-Ends n token after s g (omega arith)

  pub cleared-IsWithin :
      (s : Settings) → IsWithin wanted s → IsWithin wanted (record s { com_token = [] })
  cleared-IsWithin s g = record {
    output = g.output;
    names = g.names;
    token = omega arith;
    vanilla = g.vanilla;
    asked = g.asked;
  }

  take_text-Ends :
      (n : ℕ) (text : List ℕ) (s : Settings)
      → IsWithin wanted s
      → length text ≤ n
      → Ends (Option (List ℕ)) (Further n) (take_text text s)
  unfolding take_text
  take_text-Ends n [] s g h = cleared-IsWithin s g
  take_text-Ends n (c ∷ rest) s g h = elim (Bool-cases (c == 34)) [
    | inl quote ↦ rw quote (
        keep_quoted-Ends (length rest) n (split_quoted rest) s g (split_quoted-QuotedLeft rest)
          (omega arith))
    | inr other ↦ elim (Bool-cases (is_single c)) [
      | inl single ↦ rw (other, single) (keep_token-Ends n (c ∷ []) rest s g (omega arith))
      | inr plain ↦
          rw (other, plain)
            (keep_token-Ends n (c ∷ (split_word rest).0) (split_word rest).1 s g
              (omega (arith, length-split_word rest)))
    ]
  ]

  -- `COM_Parse` returns `NULL`, or a place that is at least one character further on, unless the token
  -- is too long for its buffer or a quote is not closed.
  pub com_parse-Ends :
      (text : List ℕ) (s : Settings)
      → IsWithin wanted s
      → Ends (Option (List ℕ)) (Further (length text)) (com_parse text s)
  unfolding com_parse
  com_parse-Ends text s g =
      chain-Ends (List ℕ) (Option (List ℕ)) (AtMost (length text)) (Further (length text))
        (skip_blanks (suc (length text)) text) take_text s
        (skip_blanks-Ends (suc (length text)) (length text) text s g (omega arith) (omega arith))
        λ start s' (l, w). take_text-Ends (length text) start s' w l

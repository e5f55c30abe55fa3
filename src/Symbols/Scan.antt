-- ===== src/Symbols/Scan.antt =====
-- The scanner `COM_Parse` of src/vm/vm.c on a text without quotes.
use q3vm.Base.{
  ℕ, zero, suc, ◌+◌, ◌-◌, ◌≤◌, ◌<◌, ◌≡◌, refl, Option, none, some, arith, Bool, true, false, not,
  ◌==◌, ◌&&◌, if◌then◌else◌, List, [], ◌∷◌, length,
}
use q3vm.Symbols.{
  is_empty, null, at, past_end, com_parse, Scanner, Cursor, commented, found, longer, tail,
  after_white, scan_token, skip_line, skip_to_token, skip_whitespace, skip_comment, word, Round,
}

abbrev pub plain : List ℕ → Bool
plain [] = true
plain (c ∷ rest) = not (c == 34) && plain rest

-- A text of at most `n` characters, none of them a quote.
abbrev pub Within : ℕ → List ℕ → Type 0
Within n text = (length text ≤ n) × (plain text ≡ true)

abbrev pub WithinIf : ℕ → Option (List ℕ) → Type 0
WithinIf n none = Unit
WithinIf n (some text) = Within n text

tail-Within : (n : ℕ) (text : List ℕ) → Within n text → Within n (tail text)
tail-Within n [] h = h
tail-Within n (c ∷ rest) h = ground arith

skip_whitespace-Within :
    (n : ℕ) (text : List ℕ) (lines : ℕ) → Within n text → WithinIf n (skip_whitespace text lines).0
unfolding skip_whitespace
skip_whitespace-Within n [] lines h = tt
skip_whitespace-Within n (c ∷ rest) lines h =
    ground (arith, skip_whitespace-Within n rest (if c == 10 then lines + 1 else lines))

skip_line-Within : (n : ℕ) (text : List ℕ) → Within n text → Within n (skip_line text)
unfolding skip_line
skip_line-Within n [] h = h
skip_line-Within n (c ∷ rest) h = ground (arith, skip_line-Within n rest)

skip_comment-Within :
    (n : ℕ) (text : List ℕ) (lines : ℕ) → Within n text → Within n (skip_comment text lines).0
unfolding skip_comment
skip_comment-Within n [] lines h = h
skip_comment-Within n (c ∷ rest) lines h =
    ground
      (arith, tail-Within n rest, skip_comment-Within n rest (if c == 10 then lines + 1 else lines))

word-Within : (n : ℕ) (text : List ℕ) (len : ℕ) → Within n text → Within n (word text len).1
unfolding word
word-Within n [] len h = h
word-Within n (c ∷ rest) len h = ground (arith, word-Within n rest (longer len))

-- A comment is not empty.
abbrev Goes : ℕ → Round → Type 0
Goes n (found token lines) = WithinIf n token
Goes n (commented rest lines) = (1 ≤ n) × Within (n - 1) rest

after_white-Goes :
    (n : ℕ) (start : Option (List ℕ)) (lines : ℕ)
    → WithinIf n start
    → Goes n (after_white (start, lines))
after_white-Goes n none lines h = tt
after_white-Goes n (some []) lines h = h
after_white-Goes n (some (c ∷ rest)) lines h = ground (
  arith,
  tail-Within (n - 1) rest,
  skip_line-Within (n - 1) (tail rest),
  skip_comment-Within (n - 1) (tail rest) lines,
)

fits_le : (m n : ℕ) (start : Option (List ℕ)) → m ≤ n → WithinIf m start → WithinIf n start
fits_le m n none h w = tt
fits_le m n (some text) h w = ground arith

-- With a round for each character and one more the loop ends.
abbrev Ends : ℕ → Option (Option (List ℕ) × ℕ) → Type 0
Ends n r = (start : Option (List ℕ)) × (m : ℕ) × (r ≡ some (start, m)) × WithinIf n start

round-Ends :
    (n : ℕ) (skip : List ℕ → ℕ → Option (Option (List ℕ) × ℕ)) (r : Round)
    → Goes n r
    → ((rest : List ℕ) (k : ℕ) → 1 ≤ n → Within (n - 1) rest → Ends (n - 1) (skip rest k))
    → Ends n (elim r [ found token k ↦ some (token, k) | commented rest k ↦ skip rest k ])
round-Ends n skip (found token k) g ih = (token, k, refl, g)
round-Ends n skip (commented rest k) (big, g) ih =
    let (start, m, e, w) = ih rest k big g in (start, m, e, fits_le (n - 1) n start (omega arith) w)

skip_to_token-Ends :
    (fuel n : ℕ) (text : List ℕ) (lines : ℕ)
    → n < fuel
    → Within n text
    → Ends n (skip_to_token fuel text lines)
unfolding skip_to_token
skip_to_token-Ends zero n text lines h w = absurd (omega arith)
skip_to_token-Ends (suc fuel) n text lines h w =
    round-Ends n (skip_to_token fuel) (after_white (skip_whitespace text lines))
      (after_white-Goes n (skip_whitespace text lines).0 (skip_whitespace text lines).1
        (skip_whitespace-Within n text lines w))
      (λ rest k big w'. skip_to_token-Ends fuel (n - 1) rest k (omega arith) w')

-- The text that is left has at most `n` characters, and no quote.
abbrev pub Left : ℕ → Cursor → Type 0
Left n null = Unit
Left n (at text) = Within n text
Left n past_end = ⊥

-- A token takes at least one character off the text.
scan_token-Left :
    (n : ℕ) (start : Option (List ℕ)) (lines : ℕ)
    → WithinIf n start
    → (let (token, s) = scan_token (start, lines) in
        (Left n s.cursor) × ((is_empty token ≡ false) → (1 ≤ n) × Left (n - 1) s.cursor))
scan_token-Left n none lines h = (tt, λ e. cc)
scan_token-Left n (some []) lines h = (tt, λ e. cc)
scan_token-Left n (some (c ∷ rest)) lines h =
    ground (arith, word-Within n rest 1, word-Within (n - 1) rest 1)

-- What `COM_Parse` gives on such a text.
abbrev pub Parses : ℕ → Scanner → Type 0
Parses n s =
    (token : List ℕ) × (s' : Scanner) × (com_parse s ≡ some (token, s'))
    × (Left n s'.cursor)
    × ((is_empty token ≡ false) → (1 ≤ n) × Left (n - 1) s'.cursor)

com_parse-cursor :
    (n : ℕ) (c : Cursor) (lines : ℕ) → Left n c → Parses n (record { cursor = c; lines = lines })
unfolding com_parse
com_parse-cursor n null lines h = ([], record { cursor = null; lines = lines }, refl, h, λ e. cc)
com_parse-cursor n (at text) lines h =
    let (start, m, e, w) =
      skip_to_token-Ends (suc (length text)) (length text) text lines (omega arith)
        (omega arith, h.1) in
    let (left, shorter) = scan_token-Left n start m (fits_le (length text) n start h.0 w) in
    ((scan_token (start, m)).0, (scan_token (start, m)).1, rw e refl, left, shorter)
com_parse-cursor n past_end lines h = absurd h

-- On a text of at most `n` characters without a quote `COM_Parse` returns, and it does not leave
-- the text: it takes off at least one character if it has found a token.
pub com_parse-Left : (n : ℕ) (s : Scanner) → Left n s.cursor → Parses n s
com_parse-Left n s h = com_parse-cursor n s.cursor s.lines h

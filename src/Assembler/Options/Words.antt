-- ===== src/Assembler/Options/Words.antt =====
-- `ParseOptionFile` of q3asm/q3asm.c comes to an end on every file, and keeps within the buffers.
use q3vm.Base.{
  length-append, ltb→lt, ℕ, zero, suc, ◌-◌, ◌≤◌, ◌<◌, ◌≡◌, refl, Option, none, some, arith, Bool,
  ltb, List, [], ◌∷◌, length, inl, inr, Bool-cases, Option-cases,
}
use q3vm.Assembler.Files.{max_path, slashed_path, Files, lift, named_file, load_named, load_file}
use q3vm.Assembler.Options.{
  parse_option_file, com_parse_on, option_words, max_asm_files, option_word, set_output,
  output_override, add_file,
}
use q3vm.Assembler.Options.Scanning.{cleared-IsWithin, com_parse-Ends, IsWithin, Further}
use q3vm.Assembler.Options.Triple.{weaken-Ends, pointer-Ends, test-Ends, Ends, chain-Ends}
use q3vm.Assembler.Paths.{default_extension}
use q3vm.Assembler.Run.{pure, Run, Act, ◌>>=◌, ok, exited, faulted, unfinished}
use q3vm.Assembler.Scanner.{max_os_path, Settings, com_parse}
use q3vm.Assembler.Text.{codes, text_eq}

-- A file is there or not; in no case does the reading go on for ever.
load_file-Ends : (files : Files) (path : List ℕ) → ¬ (load_file files path ≡ unfinished)
unfolding load_file
load_file-Ends files path e = elim (Option-cases (files (slashed_path (max_path - 1) path))) [
  | inl none_ ↦ ground arith
  | inr (bytes, found_) ↦ ground arith
]

pub named_file-Ends : (extension name : List ℕ) → ¬ (named_file extension name ≡ unfinished)
unfolding named_file
named_file-Ends extension name e = elim (Option-cases (default_extension name extension)) [
  | inl none_ ↦ ground arith
  | inr (path, found_) ↦ ground arith
]

load_named-Ends :
    (files : Files) (extension name : List ℕ) → ¬ (load_named files extension name ≡ unfinished)
unfolding load_named
load_named-Ends files extension name e =
    ground (arith, named_file-Ends extension name, load_file-Ends files)

-- The rounds that are left are enough for the text that is left.
abbrev AtPlace : ℕ → Option (List ℕ) → Type 0
AtPlace fuel none = 0 < fuel
AtPlace fuel (some text) = suc (length text) < fuel

module _ (wanted : Bool) where
  abbrev Settled : (A : Type 0) → A → Settings → Type 0
  Settled A a s = IsWithin wanted s

  abbrev pub Safe : (A : Type 0) → Act Settings A → Type 0
  Safe A m = (s : Settings) → IsWithin wanted s → Ends A (Settled A) (m s)

  pub chain-Safe :
      (A B : Type 0) (m : Act Settings A) (k : A → Act Settings B)
      → Safe A m
      → ((a : A) → Safe B (k a))
      → Safe B (m >>= k)
  chain-Safe A B m k h w s g = chain-Ends A B (Settled A) (Settled B) m k s (h s g) λ a t i. w a t i

  lift-Safe : (A : Type 0) (r : Run A) → ¬ (r ≡ unfinished) → Safe A (lift r)
  lift-Safe A (ok a) h s g = g
  lift-Safe A exited h s g = tt
  lift-Safe A faulted h s g = tt
  lift-Safe A unfinished h s g = h refl

  pub set_output-Safe : (path : List ℕ) → Safe (Unit {0}) (set_output path)
  unfolding set_output
  set_output-Safe path s g = elim (Bool-cases (ltb (length path) max_os_path)) [
    | inl fits ↦ rw fits (record {
      output = ltb→lt _ _ fits;
      names = g.names;
      token = g.token;
      vanilla = g.vanilla;
      asked = g.asked;
    })
    | inr long ↦ rw long tt
  ]

  pub add_file-Safe : (name : List ℕ) → Safe (Unit {0}) (add_file name)
  unfolding add_file
  add_file-Safe name s g = elim (Bool-cases (ltb (length s.asm_file_names) max_asm_files)) [
    | inl fits ↦ rw fits (record {
      output = g.output;
      names = omega (arith, length-append s.asm_file_names (name ∷ []), ltb→lt _ _ fits);
      token = g.token;
      vanilla = g.vanilla;
      asked = g.asked;
    })
    | inr full ↦ rw full tt
  ]

  -- A round of the loop goes on behind the word, or further on.
  abbrev Later : ℕ → Option (List ℕ) → Settings → Type 0
  Later n none s = IsWithin wanted s
  Later n (some text) s = (length text ≤ n) × IsWithin wanted s

  Later-from_Further :
      (n m : ℕ) (next : Option (List ℕ)) (s : Settings)
      → m ≤ n
      → Further wanted m next s
      → Later n next s
  Later-from_Further n m none s l h = h
  Later-from_Further n m (some after) s l (i, w) = (omega arith, w)

  output_override-Ends :
      (text : List ℕ) (s : Settings)
      → IsWithin wanted s
      → Ends (Option (List ℕ)) (Later (length text)) (output_override text s)
  unfolding output_override
  output_override-Ends text s g =
      let n = length text in
      chain-Ends (Option (List ℕ)) (Option (List ℕ)) (Further wanted n) (Later n) (com_parse text) _
        s (com_parse-Ends wanted text s g)
        λ next t w.
          pointer-Ends (List ℕ) (Option (List ℕ)) (Later n) next (pure none) _ t
            (λ e. rw e at (Later-from_Further n n next t (omega arith) w))
            λ after e.
              let (l, i) = rw e at (Later-from_Further n n next t (omega arith) w) in
              chain-Ends (Unit {0}) (Option (List ℕ)) (Settled (Unit {0})) (Later n)
                (set_output t.com_token) (λ _. pure (some after)) t
                (set_output-Safe t.com_token t i) λ _ u v. (l, v)

  option_word-Ends :
      (text : List ℕ) (s : Settings)
      → IsWithin wanted s
      → Ends (Option (List ℕ)) (Later (length text)) (option_word text s)
  unfolding option_word
  option_word-Ends text s g =
      let n = length text in
      test-Ends (Option (List ℕ)) (Later n) (text_eq s.com_token (codes "-o"))
        (output_override text) _ s (λ e. output_override-Ends text s g)
        λ e.
          chain-Ends (Unit {0}) (Option (List ℕ)) (Settled (Unit {0})) (Later n)
            (add_file s.com_token) (λ _. pure (some text)) s (add_file-Safe s.com_token s g)
            λ _ u v. (omega arith, v)

  abbrev Next : ℕ → Option (List ℕ) → Settings → Type 0
  Next fuel none s = IsWithin wanted s
  Next fuel (some text) s = (suc (length text) < fuel) × IsWithin wanted s

  Next-from_Further :
      (n fuel : ℕ) (next : Option (List ℕ)) (s : Settings)
      → n < fuel
      → Further wanted n next s
      → Next fuel next s
  Next-from_Further n fuel none s h w = w
  Next-from_Further n fuel (some text) s h (l, w) = (omega arith, w)

  AtPlace-from_Later :
      (n fuel : ℕ) (place : Option (List ℕ)) (s : Settings)
      → suc n < fuel
      → Later n place s
      → AtPlace fuel place × IsWithin wanted s
  AtPlace-from_Later n fuel none s h w = (omega arith, w)
  AtPlace-from_Later n fuel (some text) s h (l, w) = (omega arith, w)

  com_parse_on-Ends :
      (fuel : ℕ) (place : Option (List ℕ)) (s : Settings)
      → IsWithin wanted s
      → AtPlace (suc fuel) place
      → Ends (Option (List ℕ)) (Next fuel) (com_parse_on place s)
  unfolding com_parse_on
  com_parse_on-Ends fuel none s g h = cleared-IsWithin wanted s g
  com_parse_on-Ends fuel (some text) s g h =
      weaken-Ends (Option (List ℕ)) (Further wanted (length text)) (Next fuel) (com_parse text s)
        (com_parse-Ends wanted text s g)
        λ next t w. Next-from_Further (length text) fuel next t (omega arith) w

  option_words-Ends :
      (fuel : ℕ) (place : Option (List ℕ)) (s : Settings)
      → IsWithin wanted s
      → AtPlace fuel place
      → Ends (Unit {0}) (Settled (Unit {0})) (option_words fuel place s)
  unfolding option_words
  option_words-Ends zero none s g h = absurd (omega arith)
  option_words-Ends zero (some text) s g h = absurd (omega arith)
  option_words-Ends (suc fuel) place s g h =
      chain-Ends (Option (List ℕ)) (Unit {0}) (Next fuel) (Settled (Unit {0})) (com_parse_on place)
        _ s (com_parse_on-Ends fuel place s g h)
        λ next t w.
          pointer-Ends (List ℕ) (Unit {0}) (Settled (Unit {0})) next (pure tt) _ t (λ e. rw e at w)
            λ after e.
              let (room, i) = rw e at w in
              chain-Ends (Option (List ℕ)) (Unit {0}) (Later (length after)) (Settled (Unit {0}))
                (option_word after) (option_words fuel) t (option_word-Ends after t i)
                λ later u v.
                  let (left, k) = AtPlace-from_Later (length after) fuel later u room v in
                  option_words-Ends fuel later u k left

  pub parse_option_file-Safe :
      (files : Files) (name : List ℕ) → Safe (Unit {0}) (parse_option_file files name)
  unfolding parse_option_file
  parse_option_file-Safe files name =
      chain-Safe (List ℕ) (Unit {0}) (lift (load_named files (codes ".q3asm") name)) _
        (lift-Safe (List ℕ) (load_named files (codes ".q3asm") name)
          (load_named-Ends files (codes ".q3asm") name))
        λ text s g. option_words-Ends (suc (suc (length text))) (some text) s g (omega arith)

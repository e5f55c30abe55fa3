-- ===== src/Assembler/Options/Bounds.antt =====
-- What holds of the globals of the command line of q3asm/q3asm.c, whatever the arguments and the
-- option files are.
use q3vm.Base.{
  ℕ, ◌<◌, ◌≡◌, Bool, true, false, ◌&&◌, ◌||◌, if◌then◌else◌, refl, arith, ◌==◌, List, [], ◌∷◌,
  length,
}
use q3vm.Assembler.Files.{quit, Files}
use q3vm.Assembler.Options.{
  be_verbose, map_file, vanilla_q3, output_name, option_file, bucket_count, takes_value,
  option_kind, is_option, add_file, OptionKind, default_settings, last_option, valued_option,
  read_options, read_arguments, add_files, set_output, parse_option_file,
}
use q3vm.Assembler.Options.Scanning.{IsWithin}
use q3vm.Assembler.Options.Triple.{chain-Ends, Ends, test-Ends}
use q3vm.Assembler.Options.Words.{
  add_file-Safe, parse_option_file-Safe, set_output-Safe, chain-Safe, Safe,
}
use q3vm.Assembler.Run.{pure}
use q3vm.Assembler.Scanner.{Settings}
use mathlib.Core.Path.{subst}

-- Whether an option asks for the map file, and whether the options in front of the first argument
-- that is none do; the values of options are passed over.
abbrev pub asks : OptionKind → Bool
asks map_file = true
asks _ = false

abbrev pub asks_for_map : List (List ℕ) → Bool
asks_for_map [] = false
asks_for_map (arg ∷ []) = is_option arg && asks (option_kind arg)
asks_for_map (arg ∷ value ∷ rest) =
    let behind_value = asks_for_map rest in
    let behind = asks_for_map (value ∷ rest) in
    is_option arg
    && (asks (option_kind arg) || (if takes_value (option_kind arg) then behind_value else behind))

abbrev Wants : (A : Type 0) → Bool → A → Settings → Type 0
Wants A wanted a s = IsWithin wanted s

last_option-Ends :
    (wanted : Bool) (kind : OptionKind) (s : Settings)
    → IsWithin wanted s
    → Ends (Unit {0}) (Wants (Unit {0}) (wanted || asks kind)) (last_option kind s)
unfolding last_option
last_option-Ends wanted be_verbose s g = record {
  output = g.output;
  names = g.names;
  token = g.token;
  vanilla = g.vanilla;
  asked = ground (arith, g.asked);
}
last_option-Ends wanted map_file s g = record {
  output = g.output;
  names = g.names;
  token = g.token;
  vanilla = g.vanilla;
  asked = ground arith;
}
last_option-Ends wanted vanilla_q3 s g = record {
  output = g.output;
  names = g.names;
  token = g.token;
  vanilla = refl;
  asked = ground (arith, g.asked);
}
last_option-Ends wanted _ s g = tt

or_false : (b : Bool) → b ≡ (b || false)
or_false true = refl
or_false false = refl

valued_option-Ends :
    (wanted : Bool) (files : Files) (kind : OptionKind) (value : List ℕ) (s : Settings)
    → IsWithin wanted s
    → Ends (Unit {0}) (Wants (Unit {0}) (wanted || asks kind)) (valued_option files kind value s)
unfolding valued_option
valued_option-Ends wanted files output_name value s g =
    subst (λ b. Ends (Unit {0}) (Wants (Unit {0}) b) (set_output value s)) (or_false wanted)
      (set_output-Safe wanted value s g)
valued_option-Ends wanted files option_file value s g =
    subst (λ b. Ends (Unit {0}) (Wants (Unit {0}) b) (parse_option_file files value s))
      (or_false wanted) (parse_option_file-Safe wanted files value s g)
valued_option-Ends wanted files bucket_count value s g = record {
  output = g.output;
  names = g.names;
  token = g.token;
  vanilla = g.vanilla;
  asked = ground (arith, g.asked);
}
valued_option-Ends wanted files kind value s g = last_option-Ends wanted kind s g

or_assoc : (a b c : Bool) → ((a || b) || c) ≡ (a || (b || c))
or_assoc true b c = refl
or_assoc false b c = refl

read_options-Ends :
    (wanted : Bool) (files : Files) (args : List (List ℕ)) (s : Settings)
    → IsWithin wanted s
    → Ends
        (List (List ℕ))
        (Wants (List (List ℕ)) (wanted || asks_for_map args))
        (read_options files args s)
unfolding read_options
read_options-Ends wanted files [] s g = subst (λ b. IsWithin b s) (or_false wanted) g
read_options-Ends wanted files (arg ∷ []) s g =
    let A = List (List ℕ) in
    test-Ends A (Wants A (wanted || asks_for_map (arg ∷ []))) (is_option arg) _ (pure (arg ∷ [])) s
      (λ e.
        chain-Ends (Unit {0}) A (Wants (Unit {0}) (wanted || asks (option_kind arg)))
          (Wants A (wanted || asks_for_map (arg ∷ []))) (last_option (option_kind arg))
          (λ _. pure []) s (last_option-Ends wanted (option_kind arg) s g) (λ _ t w. rw e w))
      λ e. rw e (subst (λ b. IsWithin b s) (or_false wanted) g)
read_options-Ends wanted files (arg ∷ value ∷ rest) s g =
    let A = List (List ℕ) in
    let kind = option_kind arg in
    let all = asks_for_map (arg ∷ value ∷ rest) in
    test-Ends A (Wants A (wanted || all)) (is_option arg) _ (pure (arg ∷ value ∷ rest)) s
      (λ e.
        chain-Ends (Unit {0}) A (Wants (Unit {0}) (wanted || asks kind)) (Wants A (wanted || all))
          (valued_option files kind value) _ s (valued_option-Ends wanted files kind value s g)
          (λ _ t w.
            test-Ends A (Wants A (wanted || all)) (takes_value kind) (read_options files rest)
              (read_options files (value ∷ rest)) t
              (λ e'.
                rw (e, e')
                  (subst (λ b. Ends A (Wants A b) (read_options files rest t))
                    (or_assoc wanted (asks kind) (asks_for_map rest))
                    (read_options-Ends (wanted || asks kind) files rest t w)))
              λ e'.
                rw (e, e')
                  (subst (λ b. Ends A (Wants A b) (read_options files (value ∷ rest) t))
                    (or_assoc wanted (asks kind) (asks_for_map (value ∷ rest)))
                    (read_options-Ends (wanted || asks kind) files (value ∷ rest) t w))))
      λ e. rw e (subst (λ b. IsWithin b s) (or_false wanted) g)

add_files-Safe : (wanted : Bool) (names : List (List ℕ)) → Safe wanted (Unit {0}) (add_files names)
unfolding add_files
add_files-Safe wanted [] s g = g
add_files-Safe wanted (name ∷ names) s g =
    chain-Safe wanted (Unit {0}) (Unit {0}) (add_file name) (λ _. add_files names)
      (add_file-Safe wanted name) (λ _. add_files-Safe wanted names) s g

-- The start of `main`.
default_settings-IsWithin : IsWithin false default_settings
default_settings-IsWithin = record {
  output = omega arith;
  names = omega arith;
  token = omega arith;
  vanilla = refl;
  asked = refl;
}

-- There is a file to assemble, and the map file is wanted or not.
abbrev pub Accepted : Bool → Unit {0} → Settings → Type 0
Accepted wanted _ s = (0 < length s.asm_file_names) × IsWithin wanted s

abbrev counted : Settings → ℕ
counted s = length s.asm_file_names

-- Whatever the arguments and the option files are, reading the command line does not run for ever;
-- if `main` goes on behind it, there is a file to assemble, the map file is wanted exactly if "-m"
-- is one of the options in front of the files (the values of other options are not options), and
-- `options.vanillaQ3Compatibility` is still set. That `main` goes on stands for a run in which no
-- text has passed the end of its buffer.
pub read_arguments-Ends :
    (files : Files) (args : List (List ℕ))
    → Ends (Unit {0}) (Accepted (asks_for_map args)) (read_arguments files args default_settings)
unfolding read_arguments
read_arguments-Ends files [] = tt
read_arguments-Ends files (arg ∷ args) =
    let A = List (List ℕ) in
    let wanted = asks_for_map (arg ∷ args) in
    chain-Ends A (Unit {0}) (Wants A wanted) (Accepted wanted) (read_options files (arg ∷ args)) _
      default_settings
      (read_options-Ends false files (arg ∷ args) default_settings default_settings-IsWithin)
      λ names s g.
        chain-Ends (Unit {0}) (Unit {0}) (Wants (Unit {0}) wanted) (Accepted wanted)
          (add_files names) _ s (add_files-Safe wanted names s g)
          λ _ t i.
            test-Ends (Unit {0}) (Accepted wanted) (counted t == 0) quit (pure tt) t (λ e. tt)
              λ e. (ground arith, i)

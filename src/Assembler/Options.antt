-- ===== src/Assembler/Options.antt =====
-- The command line of q3asm/q3asm.c: the options of `main`, and `ParseOptionFile`.
pub mod Triple
pub mod Scanning
pub mod Words
pub mod Bounds
pub mod Listing
pub mod RoundTrip
use q3vm.Base.{
  ℕ, zero, suc, Option, none, some, Bool, true, false, ltb, ◌==◌, ◌||◌, if◌then◌else◌, List, [],
  ◌∷◌, length, ◌++◌,
}
use q3vm.Assembler.Files.{quit, lift, load_named, Files}
use q3vm.Assembler.Run.{gets, hang, pure, modify, Act, ◌>>=◌, ◌>>◌, ok, faulted}
use q3vm.Assembler.Scanner.{max_os_path, Settings, com_parse}
use q3vm.Assembler.Text.{codes, atoi_no_cap, text_eq}
use q3vm.Symbols.{starts_with}

-- `strcpy(outputFilename, ...)`, which nothing guards: a longer text is written over the end of the
-- buffer, which is `faulted`.
unfoldable pub set_output : List ℕ → Act Settings (Unit {0})
set_output path s =
    if ltb (length path) max_os_path then ok (tt, record s { output_filename = path }) else faulted

-- `MAX_ASM_FILES`, and `asmFileNames[numAsmFiles] = copystring(...)`. The code does not test the
-- number: the next name is written behind the array, which is `faulted`.
abbrev pub max_asm_files : ℕ
max_asm_files = 256

unfoldable pub add_file : List ℕ → Act Settings (Unit {0})
add_file name s =
    if ltb (length s.asm_file_names) max_asm_files
    then ok (tt, record s { asm_file_names = s.asm_file_names ++ name ∷ [] })
    else faulted

abbrev pub token_of : Settings → List ℕ
token_of s = s.com_token

-- `text_p = COM_Parse(text_p)`, where `NULL` gives `NULL`.
unfoldable pub com_parse_on : Option (List ℕ) → Act Settings (Option (List ℕ))
unfolding com_parse
com_parse_on none s = ok (none, record s { com_token = [] })
com_parse_on (some text) s = com_parse text s

-- "allow output override in option file"
unfoldable pub output_override : List ℕ → Act Settings (Option (List ℕ))
unfolding com_parse set_output ◌>>=◌
output_override text = do
  next ← com_parse text
  token ← gets token_of
  elim next [ none ↦ pure none | some after ↦ (do set_output token; pure (some after)) ]

-- A round of the loop of `ParseOptionFile`, behind a word.
unfoldable pub option_word : List ℕ → Act Settings (Option (List ℕ))
unfolding output_override add_file text_eq ◌>>=◌
option_word text = do
  token ← gets token_of
  elim (text_eq token (codes "-o")) [
    | true ↦ output_override text
    | false ↦ (do add_file token; pure (some text))
  ]

-- Its loop, with at most as many rounds as the fuel says.
unfoldable pub option_words : ℕ → Option (List ℕ) → Act Settings (Unit {0})
unfolding com_parse_on option_word ◌>>=◌
option_words zero text = hang
option_words (suc fuel) text = do
  next ← com_parse_on text
  elim next [
    | none ↦ pure tt
    | some after ↦ (do later ← option_word after; option_words fuel later)
  ]

-- `ParseOptionFile`. A word takes a character at least, and two more rounds find the end.
unfoldable pub parse_option_file : Files → List ℕ → Act Settings (Unit {0})
unfolding load_named option_words ◌>>=◌
parse_option_file files name = do
  text ← lift (load_named files (codes ".q3asm") name)
  option_words (suc (suc (length text))) (some text)

-- The options of `main`, in the order of its tests.
pub data OptionKind : Type 0 where
  show_help output_name option_file bucket_count be_verbose map_file vanilla_q3 unknown_option :
      OptionKind

unfoldable pub option_kind : List ℕ → OptionKind
unfolding text_eq
option_kind arg =
    if text_eq arg (codes "-h") || text_eq arg (codes "--help") || text_eq arg (codes "-?")
    then show_help
    else if text_eq arg (codes "-o")
    then output_name
    else if text_eq arg (codes "-f")
    then option_file
    else if text_eq arg (codes "-b")
    then bucket_count
    else if text_eq arg (codes "-v")
    then be_verbose
    else if text_eq arg (codes "-m")
    then map_file
    else if text_eq arg (codes "-vq3")
    then vanilla_q3
    else unknown_option

abbrev pub is_option : List ℕ → Bool
is_option arg = starts_with 45 arg

-- What an option does that is the last argument, and that has one behind it.
unfoldable pub last_option : OptionKind → Act Settings (Unit {0})
last_option be_verbose = modify λ s. record s { verbose = true }
last_option map_file = modify λ s. record s { write_map = true }
last_option vanilla_q3 = modify λ s. record s { vanilla = true }
last_option _ = quit

unfoldable pub valued_option : Files → OptionKind → List ℕ → Act Settings (Unit {0})
unfolding set_output parse_option_file last_option atoi_no_cap
valued_option files output_name value = set_output value
valued_option files option_file value = parse_option_file files value
valued_option files bucket_count value = modify λ s. record s { symtablelen = atoi_no_cap value }
valued_option files kind value = last_option kind

-- Whether the option takes the argument behind it.
unfoldable pub takes_value : OptionKind → Bool
takes_value output_name = true
takes_value option_file = true
takes_value bucket_count = true
takes_value _ = false

-- The loop over the options: the arguments that are left.
unfoldable pub read_options : Files → List (List ℕ) → Act Settings (List (List ℕ))
unfolding option_kind last_option valued_option takes_value ◌>>=◌
read_options files [] = pure []
read_options files (arg ∷ []) = elim (is_option arg) [
  | true ↦ (do last_option (option_kind arg); pure [])
  | false ↦ pure (arg ∷ [])
]
read_options files (arg ∷ value ∷ rest) = elim (is_option arg) [
  | true ↦ (do
    valued_option files (option_kind arg) value
    elim (takes_value (option_kind arg)) [
      | true ↦ read_options files rest
      | false ↦ read_options files (value ∷ rest)
    ])
  | false ↦ pure (arg ∷ value ∷ rest)
]

-- "the rest of the command line args are asm files"
unfoldable pub add_files : List (List ℕ) → Act Settings (Unit {0})
unfolding add_file ◌>>=◌
add_files [] = pure tt
add_files (name ∷ names) = do add_file name; add_files names

-- The globals at the start of `main`, with "q3asm" for the output.
abbrev pub default_buckets : ℕ
default_buckets = 2048

abbrev pub default_settings : Settings
default_settings = record {
  output_filename = codes "q3asm";
  asm_file_names = [];
  verbose = false;
  write_map = false;
  vanilla = true;
  symtablelen = default_buckets;
  com_token = [];
}

-- `main` up to `InitTables`, on the arguments behind the name of the program.
unfoldable pub read_arguments : Files → List (List ℕ) → Act Settings (Unit {0})
unfolding read_options add_files ◌>>=◌
read_arguments files [] = quit
read_arguments files (arg ∷ args) = do
  names ← read_options files (arg ∷ args)
  add_files names
  count ← gets λ s. length s.asm_file_names
  elim (count == 0) [ true ↦ quit | false ↦ pure tt ]

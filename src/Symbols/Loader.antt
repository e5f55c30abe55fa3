-- ===== src/Symbols/Loader.antt =====
-- `VM_LoadSymbols` of src/vm/vm.c, behind the reading of the file: each line of the map file has a
-- segment, a value and a name.
use q3vm.Base.{
  ℕ, zero, suc, ◌+◌, Option, none, some, Bool, true, false, not, ◌==◌, ◌&&◌, if◌then◌else◌, List,
  [], ◌∷◌, length, ◌>>=◌,
}
use q3vm.Base.Word.{u32, slt, is_neg}
use q3vm.Memory.{get}
use q3vm.State.{Vm}
use q3vm.Symbols.{is_empty, at, parse_hex, parse_hex_from, Symbol, Scanner, com_parse}

-- What a round of the loop does: it ends the loop, with or without memory being refused, it passes
-- over a line, or it appends a symbol.
pub data Line : Type 0 where
  ended : Bool → Line
  passed : Scanner → Line
  symbol : Symbol → Scanner → Line

-- "convert value from an instruction number to a code offset".
abbrev pub symbol_offset : Vm → ℕ → Option ℕ
symbol_offset vm value =
    if not (is_neg value) && slt value vm.instruction_count
    then (do pointers ← vm.instruction_pointers; start ← get pointers value; some (u32 start))
    else some value

-- `sizeof(*sym) + chars`.
abbrev pub symbol_bytes : List ℕ → ℕ
symbol_bytes name = 24 + length name

-- Behind the value: the name, the allocation, the symbol.
unfoldable pub load_name : (ℕ → Bool) → Vm → ℕ → Scanner → Option Line
unfolding com_parse get
load_name grants vm value s = do
  (name, s') ← com_parse s
  if is_empty name
      then some (ended false)
      else if grants (symbol_bytes name)
      then (do
        offset ← symbol_offset vm value
        some (symbol (record { sym_value = offset; profile_count = 0; sym_name = name }) s'))
      else some (ended true)

-- "only load code segment values"
unfoldable pub pass_line : Scanner → Option Line
unfolding com_parse
pass_line s = do (token, s1) ← com_parse s; (token', s2) ← com_parse s1; some (passed s2)

unfoldable pub load_value : (ℕ → Bool) → Vm → Scanner → Option Line
unfolding com_parse load_name parse_hex_from
load_value grants vm s = do
  (value, s') ← com_parse s
  if is_empty value then some (ended false) else load_name grants vm (parse_hex value) s'

unfoldable pub load_line : (ℕ → Bool) → Vm → Scanner → Option Line
unfolding com_parse load_value pass_line parse_hex_from
load_line grants vm s = do
  (segment, s') ← com_parse s
  if is_empty segment
      then some (ended false)
      else if parse_hex segment == 0
      then load_value grants vm s'
      else pass_line s'

-- The loop, with as many rounds as the fuel says: the symbols, and whether memory was refused.
-- `none` is a read outside the text, the table or the fuel.
unfoldable pub load_lines : ℕ → (ℕ → Bool) → Vm → Scanner → Option (List Symbol × Bool)
unfolding load_line
load_lines zero grants vm s = none
load_lines (suc fuel) grants vm s = do
  line ← load_line grants vm s
  elim line [
    | ended refused ↦ some ([], refused)
    | passed s' ↦ load_lines fuel grants vm s'
    | symbol sym s' ↦ (do
      (symbols, refused) ← load_lines fuel grants vm s'
      some (sym ∷ symbols, refused))
  ]

-- The symbols of a map file; `numSymbols` is their number. `com_lines` starts at `lines`.
unfoldable pub load_symbols : (ℕ → Bool) → Vm → List ℕ → ℕ → Option (List Symbol × Bool)
unfolding load_lines
load_symbols grants vm text lines =
    load_lines (suc (length text)) grants vm (record { cursor = at text; lines = lines })

-- The text that a buffer holds for `COM_Parse`: up to the first zero. `none` is a buffer without a
-- zero, which the scanner leaves.
unfoldable pub terminated : List ℕ → Option (List ℕ)
terminated [] = none
terminated (c ∷ rest) =
    let more = terminated rest in if c == 0 then some [] else (do text ← more; some (c ∷ text))

-- Without a zero the loop does not find the end of the text, and stays in the buffer only if it is
-- left because memory is refused. The last word of the file is taken to end inside it.
abbrev pub unterminated : Option (List Symbol × Bool) → Option (List Symbol × Bool)
unterminated none = none
unterminated (some (symbols, true)) = some (symbols, true)
unterminated (some (symbols, false)) = none

-- `VM_LoadSymbols` on the buffer that `loadImage` returns, which has the bytes of the file and no
-- zero behind them. `none` in place of the file is `NULL`.
unfoldable pub load_map_file : (ℕ → Bool) → Vm → Option (List ℕ) → ℕ → Option (List Symbol × Bool)
unfolding terminated load_symbols
load_map_file grants vm none lines = some ([], false)
load_map_file grants vm (some file) lines = elim (terminated file) [
  | none ↦ unterminated (load_symbols grants vm file lines)
  | some text ↦ load_symbols grants vm text lines
]

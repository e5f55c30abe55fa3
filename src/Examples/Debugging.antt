-- ===== src/Examples/Debugging.antt =====
-- The symbols of a debug build: the scanner, the loop over a map file, the search.
use q3vm.Base.{ℕ, ◌≡◌, refl, some, arith, Bool, true, false, List, [], ◌∷◌, ◌++◌}
use q3vm.Assembler.Text.{decimal_text}
use q3vm.Examples.{nth, loaded_vm}
use q3vm.Memory.{get, Block, read4, little_endian_to_host}
use q3vm.Symbols.{
  parse_hex_from, quoted, skip_comment, skip_line, skip_whitespace, skip_to_token, com_parse,
  value_to_function_symbol, at, Symbol, word, symbol_from,
}
use q3vm.Symbols.Loader.{
  pass_line, load_name, load_value, load_line, load_lines, load_symbols, load_map_file,
}
use q3vm.Symbols.Loads.{load_map_file-loads, AreNamed}
use q3vm.Symbols.Lookup.{value_to_function_symbol-IsLast, IsLast}
use q3vm.Symbols.Scan.{com_parse-Left, Parses}
use q3vm.Symbols.Trace.{value_to_symbol, stack_trace, trace_lines, caller, vm_indent, spaces}

-- "0 5 main", "1 0 bss // x" and "0 6 run", a line each.
abbrev map_file : List ℕ
map_file =
    48 ∷ 32 ∷ 53 ∷ 32 ∷ 109 ∷ 97 ∷ 105 ∷ 110 ∷ 10 ∷ 49 ∷ 32 ∷ 48 ∷ 32 ∷ 98 ∷ 115 ∷ 115 ∷ 32 ∷ 47
    ∷ 47 ∷ 32 ∷ 120 ∷ 10 ∷ 48 ∷ 32 ∷ 54 ∷ 32 ∷ 114 ∷ 117 ∷ 110 ∷ 10 ∷ []

load_map_file-loads_example :
    (symbols : List Symbol) × (refused : Bool) × (load_map_file
        (λ n. true)
        loaded_vm
        (some (map_file ++ 0 ∷ []))
        0
      ≡ some (symbols, refused))
    × AreNamed symbols
load_map_file-loads_example =
    load_map_file-loads (λ n. true) loaded_vm
      (record { size = 7; cell = nth (0 ∷ 2 ∷ 4 ∷ 6 ∷ 8 ∷ 10 ∷ 12 ∷ []) }, refl, omega arith)
      (omega arith) map_file [] 0 refl refl

abbrev main_symbol : Symbol
main_symbol = record { sym_value = 10; profile_count = 0; sym_name = 109 ∷ 97 ∷ 105 ∷ 110 ∷ [] }

abbrev run_symbol : Symbol
run_symbol = record { sym_value = 12; profile_count = 0; sym_name = 114 ∷ 117 ∷ 110 ∷ [] }

map_file_symbols :
    load_symbols (λ n. true) loaded_vm map_file 0 ≡ some (main_symbol ∷ run_symbol ∷ [], false)
unfolding load_symbols load_lines load_line load_value load_name pass_line com_parse skip_to_token
    skip_whitespace skip_line skip_comment word quoted parse_hex_from get
map_file_symbols = refl

com_parse-Left_example :
    Parses 8 (record { cursor = at (47 ∷ 47 ∷ 10 ∷ 65 ∷ 66 ∷ 32 ∷ []); lines = 0 })
com_parse-Left_example =
    com_parse-Left 8 (record { cursor = at (47 ∷ 47 ∷ 10 ∷ 65 ∷ 66 ∷ 32 ∷ []); lines = 0 })
      (omega arith, refl)

value_to_function_symbol-IsLast_example :
    IsLast
      (main_symbol ∷ run_symbol ∷ [])
      11
      (value_to_function_symbol (main_symbol ∷ run_symbol ∷ []) 11)
value_to_function_symbol-IsLast_example =
    value_to_function_symbol-IsLast main_symbol (run_symbol ∷ []) 11 (refl, tt) refl

-- "run+3"
run_offset : value_to_symbol (main_symbol ∷ run_symbol ∷ []) 15 ≡ 114 ∷ 117 ∷ 110 ∷ 43 ∷ 51 ∷ []
unfolding value_to_symbol symbol_from decimal_text
run_offset = refl

-- The frame of `run` at 0, that of `main` at 8, and that of the host at 16.
abbrev frames : Block
frames = record {
  size = 20;
  cell = nth (
      0 ∷ 0 ∷ 0 ∷ 0 ∷ 8 ∷ 0 ∷ 0 ∷ 0 ∷ 10 ∷ 0 ∷ 0 ∷ 0 ∷ 16 ∷ 0 ∷ 0 ∷ 0 ∷ 255 ∷ 255 ∷ 255 ∷ 255 ∷ []);
}

frames_traced :
    stack_trace (main_symbol ∷ run_symbol ∷ []) frames 12 0
    ≡ some (run_symbol.sym_name ∷ main_symbol.sym_name ∷ [])
unfolding stack_trace trace_lines caller read4 little_endian_to_host value_to_symbol symbol_from
    decimal_text
frames_traced = refl

-- Two spaces for each level.
level_indented : vm_indent (record loaded_vm { call_level = 1 }) ≡ some (32 ∷ 32 ∷ [])
unfolding vm_indent spaces
level_indented = refl

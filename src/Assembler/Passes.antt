-- ===== src/Assembler/Passes.antt =====
-- The loops of `Assemble` in q3asm/q3asm.c over passes, files and lines, and `ExtractLine`.
use q3vm.Base.{ℕ, zero, suc, Option, none, some, leb, if◌then◌else◌, List, [], ◌∷◌, length}
use q3vm.Base.Word.{add32}
use q3vm.Assembler.Directives.{set_used, round4}
use q3vm.Assembler.Line.{assemble_line}
use q3vm.Assembler.Run.{modify, hang, gets, pure, ok, ◌>>=◌, ◌>>◌}
use q3vm.Assembler.State.{bssseg, Action, empty_segment, code_error, Asm, Segment}
use q3vm.Assembler.Symbols.{in_pass, sort_symbols, define_symbol}
use q3vm.Assembler.Text.{codes, split_line}

-- The prologue of `ExtractLine`.
abbrev pub next_line : Asm → Asm
next_line s = record s { current_file_line = add32 s.current_file_line 1; rest = []; token = [] }

abbrev pub max_line_length : ℕ
max_line_length = 1024

-- `ExtractLine`: the text behind the line, or `NULL`. A line that is too long is left where it is.
unfoldable pub extract_line : List ℕ → Action (Option (List ℕ))
unfolding split_line code_error ◌>>=◌
extract_line [] s = ok (none, next_line s)
extract_line (c ∷ text) s =
    let (line, after) = split_line (c ∷ text) in
    if leb max_line_length (length line)
    then (code_error >> pure (some (c ∷ text))) (next_line s)
    else ok (some after, record (next_line s) { rest = line })

-- `while (ptr)`, with at most as many rounds as the fuel says.
unfoldable pub assemble_lines : ℕ → List ℕ → Action (Unit {0})
unfolding extract_line assemble_line ◌>>=◌
assemble_lines zero text = hang
assemble_lines (suc fuel) text = do
  next ← extract_line text
  assemble_line
  elim next [ none ↦ pure tt | some text' ↦ assemble_lines fuel text' ]

-- A line takes a byte of the text at least, and one more round finds its end.
abbrev pub enough_rounds : List ℕ → ℕ
enough_rounds text = suc (length text)

-- One file, and all of them from the one with the given index on.
abbrev pub open_file : ℕ → Asm → Asm
open_file index s = record s { current_file_index = index; current_file_line = 0 }

unfoldable pub assemble_file : ℕ → List ℕ → Action (Unit {0})
unfolding assemble_lines ◌>>=◌
assemble_file index text = do modify (open_file index); assemble_lines (enough_rounds text) text

unfoldable pub assemble_files : ℕ → List (List ℕ) → Action (Unit {0})
unfolding assemble_file ◌>>=◌
assemble_files index [] = pure tt
assemble_files index (text ∷ texts) = do assemble_file index text; assemble_files (suc index) texts

-- The start of a pass: the segments are placed behind each other with the sizes that they have.
abbrev pub placed : ℕ → ℕ → Segment → Segment
placed base used g = record g { segment_base = base; image_used = used }

abbrev pub emptied : ℕ → Segment → Segment
emptied used g = record g { image_used = used }

abbrev pub lit_base : Asm → ℕ
lit_base s = s.data_.image_used

abbrev pub bss_base : Asm → ℕ
bss_base s = add32 (lit_base s) s.lit.image_used

abbrev pub jtrg_base : Asm → ℕ
jtrg_base s = add32 (bss_base s) s.bss.image_used

abbrev pub start_pass : ℕ → Asm → Asm
start_pass n s = record s {
  pass_number = n;
  code = emptied 0 s.code;
  data_ = emptied 4 s.data_;
  lit = placed (lit_base s) 0 s.lit;
  bss = placed (bss_base s) 0 s.bss;
  jtrg = placed (jtrg_base s) 0 s.jtrg;
  instruction_count = 0;
}

-- "align all segment"
abbrev pub rounded : Segment → Segment
rounded g = record g { image_used = round4 g.image_used }

abbrev pub align_all : Asm → Asm
align_all s = record s {
  code = rounded s.code;
  data_ = rounded s.data_;
  lit = rounded s.lit;
  bss = rounded s.bss;
  jtrg = rounded s.jtrg;
}

unfoldable pub run_pass : ℕ → List (List ℕ) → Action (Unit {0})
unfolding assemble_files ◌>>=◌
run_pass n files = do modify (start_pass n); assemble_files 0 files; modify align_all

-- "reserve the stack in bss"
abbrev pub bss_used : Asm → ℕ
bss_used s = s.bss.image_used

unfoldable pub reserve_stack : ℕ → Action (Unit {0})
unfolding define_symbol set_used ◌>>=◌
reserve_stack stack_size = do
  start ← gets bss_used
  define_symbol (codes "_stackStart") start
  set_used (λ used. add32 used stack_size) bssseg
  end ← gets bss_used
  define_symbol (codes "_stackEnd") end

-- `Assemble` up to the output, on the contents of the files, with the `qsort` of the C library.
unfoldable pub assemble : ((ℕ → ℕ → ℕ) → List ℕ → List ℕ) → ℕ → List (List ℕ) → Action (Unit {0})
unfolding run_pass sort_symbols reserve_stack ◌>>=◌
assemble qsort stack_size files = do
  run_pass 0 files
  sort_symbols qsort
  run_pass 1 files
  modify (in_pass 2)
  reserve_stack stack_size

-- The globals at the start, with the number of buckets of `symtable` and no symbol.
abbrev pub initial : ℕ → Asm
initial buckets = record {
  code = empty_segment;
  data_ = empty_segment;
  lit = empty_segment;
  bss = empty_segment;
  jtrg = empty_segment;
  current_segment = none;
  pass_number = 0;
  error_count = 0;
  store = [];
  symbols = [];
  last_symbol = none;
  buckets = buckets;
  table = λ b. [];
  current_file_index = 0;
  current_file_line = 0;
  rest = [];
  token = [];
  current_locals = 0;
  current_args = 0;
  current_arg_offset = 0;
  instruction_count = 0;
}

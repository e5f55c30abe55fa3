-- ===== src/Assembler/Ending.antt =====
-- Whether `Assemble` of q3asm/q3asm.c ends depends on the lengths of the lines.
use q3vm.Base.{ℕ, zero, suc, ◌+◌, ◌≤◌, ◌≡◌, refl, arith, List, [], ◌∷◌, length}
use q3vm.Base.Word.{add32}
use q3vm.Assembler.Directives.{set_used}
use q3vm.Assembler.Halting.{
  define_symbol-Halts, assemble_lines-Halts, modify-Halts, chain-Halts, pure-Halts, Halts, AllShort,
}
use q3vm.Assembler.Line.{assemble_token, assemble_line}
use q3vm.Assembler.Passes.{
  next_line, enough_rounds, max_line_length, align_all, start_pass, open_file, bss_used,
  assemble_file, extract_line, run_pass, assemble_files, assemble, reserve_stack, assemble_lines,
}
use q3vm.Assembler.Run.{modify, gets, unfinished, ◌>>=◌}
use q3vm.Assembler.State.{bssseg, parse, code_error, Asm}
use q3vm.Assembler.Symbols.{define_symbol, in_pass, sort_symbols}
use q3vm.Assembler.Text.{split_line, codes, skip_white}

abbrev pub FilesShort : List (List ℕ) → Type 0
FilesShort [] = Unit {0}
FilesShort (text ∷ texts) = AllShort text × FilesShort texts

assemble_files-Halts :
    (index : ℕ) (texts : List (List ℕ))
    → FilesShort texts
    → Halts (Unit {0}) (assemble_files index texts)
unfolding assemble_files assemble_file
assemble_files-Halts index [] h = pure-Halts (Unit {0}) tt
assemble_files-Halts index (text ∷ texts) (h, hs) =
    chain-Halts (Unit {0}) (Unit {0}) (assemble_file index text) _
      (chain-Halts (Unit {0}) (Unit {0}) (modify (open_file index)) _
        (modify-Halts (open_file index))
        λ _. assemble_lines-Halts (enough_rounds text) text h (omega arith))
      λ _. assemble_files-Halts (suc index) texts hs

run_pass-Halts :
    (n : ℕ) (texts : List (List ℕ)) → FilesShort texts → Halts (Unit {0}) (run_pass n texts)
unfolding run_pass
run_pass-Halts n texts h =
    chain-Halts (Unit {0}) (Unit {0}) (modify (start_pass n)) _ (modify-Halts (start_pass n)) λ _.
      chain-Halts (Unit {0}) (Unit {0}) (assemble_files 0 texts) _ (assemble_files-Halts 0 texts h)
        λ _. modify-Halts align_all

sort_symbols-Halts : (qsort : (ℕ → ℕ → ℕ) → List ℕ → List ℕ) → Halts (Unit {0}) (sort_symbols qsort)
unfolding sort_symbols
sort_symbols-Halts qsort s e = ground arith

reserve_stack-Halts : (n : ℕ) → Halts (Unit {0}) (reserve_stack n)
unfolding reserve_stack set_used
reserve_stack-Halts n =
    chain-Halts ℕ (Unit {0}) (gets bss_used) _ (λ s e. ground arith)
      λ start.
        chain-Halts (Unit {0}) (Unit {0}) (define_symbol (codes "_stackStart") start) _
          (define_symbol-Halts (codes "_stackStart") start)
          λ _.
            chain-Halts (Unit {0}) (Unit {0}) (set_used (λ used. add32 used n) bssseg) _
              (λ s e. ground arith)
              λ _.
                chain-Halts ℕ (Unit {0}) (gets bss_used) _ (λ s e. ground arith)
                  λ end. define_symbol-Halts (codes "_stackEnd") end

-- If no line of the files has 1024 characters or more, `Assemble` does not run for ever: the rounds
-- that a text has characters, and one more, are enough for every file in both passes.
pub assemble-Halts :
    (qsort : (ℕ → ℕ → ℕ) → List ℕ → List ℕ) (n : ℕ) (texts : List (List ℕ)) (s : Asm)
    → FilesShort texts
    → ¬ (assemble qsort n texts s ≡ unfinished)
unfolding assemble
assemble-Halts qsort n texts s h =
    (chain-Halts (Unit {0}) (Unit {0}) (run_pass 0 texts) _ (run_pass-Halts 0 texts h) λ _.
        chain-Halts (Unit {0}) (Unit {0}) (sort_symbols qsort) _ (sort_symbols-Halts qsort) λ _.
          chain-Halts (Unit {0}) (Unit {0}) (run_pass 1 texts) _ (run_pass-Halts 1 texts h) λ _.
            chain-Halts (Unit {0}) (Unit {0}) (modify (in_pass 2)) _ (modify-Halts (in_pass 2))
              λ _. reserve_stack-Halts n)
      s

-- If the next line has 1024 characters or more, the loop over the lines never ends, however many
-- rounds it makes: `ExtractLine` returns the place where it has started.
pub assemble_lines-overlong :
    (fuel c : ℕ) (rest : List ℕ) (s : Asm)
    → max_line_length ≤ length (split_line (c ∷ rest)).0
    → assemble_lines fuel (c ∷ rest) s ≡ unfinished
unfolding assemble_lines extract_line code_error assemble_line assemble_token parse skip_white ◌>>=◌
assemble_lines-overlong zero c rest s h = refl
assemble_lines-overlong (suc fuel) c rest s h = ground (
  arith,
  assemble_lines-overlong fuel c rest (record (next_line s) { error_count = s.error_count + 1 }) h,
)

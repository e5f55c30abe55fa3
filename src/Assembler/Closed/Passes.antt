-- ===== src/Assembler/Closed/Passes.antt =====
-- `Assemble` of q3asm/q3asm.c has a property that the parts have.
use q3vm.Base.{ℕ, zero, suc, Option, none, some, List, [], ◌∷◌}
use q3vm.Base.Word.{add32}
use q3vm.Assembler.Closed.{Closed}
use q3vm.Assembler.Closed.Clauses.{done-P, seq}
use q3vm.Assembler.Closed.Line.{assemble_line-P}
use q3vm.Assembler.Passes.{
  align_all, start_pass, enough_rounds, open_file, extract_line, bss_used, assemble_file,
  assemble_lines, assemble_files, run_pass, assemble, reserve_stack,
}
use q3vm.Assembler.Run.{pure, modify, hang}
use q3vm.Assembler.State.{Action, bssseg}
use q3vm.Assembler.Symbols.{sort_symbols, in_pass}
use q3vm.Assembler.Text.{codes}

-- What the passes do besides the clauses.
pub record ClosedPasses (P : (A : Type 0) → Action A → Type 0) : Type 1 where
  pub clauses_ : Closed P
  pub hang_ : P (Unit {0}) hang
  pub extract : (text : List ℕ) → P (Option (List ℕ)) (extract_line text)
  pub open_ : (index : ℕ) → P (Unit {0}) (modify (open_file index))
  pub start : (n : ℕ) → P (Unit {0}) (modify (start_pass n))
  pub align : P (Unit {0}) (modify align_all)
  pub enter_ : (n : ℕ) → P (Unit {0}) (modify (in_pass n))
  pub sort : (qsort : (ℕ → ℕ → ℕ) → List ℕ → List ℕ) → P (Unit {0}) (sort_symbols qsort)

module _ (P : (A : Type 0) → Action A → Type 0) (p : ClosedPasses P) where
  more-P :
      (k : List ℕ → Action (Unit {0}))
      → ((text : List ℕ) → P (Unit {0}) (k text))
      → (next : Option (List ℕ)) → P (Unit {0}) (elim next [ none ↦ pure tt | some text ↦ k text ])
  more-P k h none = done-P P p.clauses_
  more-P k h (some text) = h text

  assemble_lines-P : (fuel : ℕ) (text : List ℕ) → P (Unit {0}) (assemble_lines fuel text)
  unfolding assemble_lines
  assemble_lines-P zero text = p.hang_
  assemble_lines-P (suc fuel) text = seq P p.clauses_ (p.extract text) λ next.
      seq P p.clauses_ (assemble_line-P P p.clauses_)
        λ _. more-P (assemble_lines fuel) (assemble_lines-P fuel) next

  assemble_files-P : (index : ℕ) (texts : List (List ℕ)) → P (Unit {0}) (assemble_files index texts)
  unfolding assemble_files assemble_file
  assemble_files-P index [] = done-P P p.clauses_
  assemble_files-P index (text ∷ texts) =
      seq P p.clauses_
        (seq P p.clauses_ (p.open_ index) λ _. assemble_lines-P (enough_rounds text) text)
        λ _. assemble_files-P (suc index) texts

  run_pass-P : (n : ℕ) (texts : List (List ℕ)) → P (Unit {0}) (run_pass n texts)
  unfolding run_pass
  run_pass-P n texts =
      seq P p.clauses_ (p.start n) λ _. seq P p.clauses_ (assemble_files-P 0 texts) λ _. p.align

  reserve_stack-P : (n : ℕ) → P (Unit {0}) (reserve_stack n)
  unfolding reserve_stack
  reserve_stack-P n = seq P p.clauses_ (p.clauses_.gets_ ℕ bss_used) λ first.
      seq P p.clauses_ (p.clauses_.define (codes "_stackStart") first) λ _.
        seq P p.clauses_ (p.clauses_.used (λ used. add32 used n) bssseg) λ _.
          seq P p.clauses_ (p.clauses_.gets_ ℕ bss_used)
            λ last. p.clauses_.define (codes "_stackEnd") last

  pub assemble-P :
      (qsort : (ℕ → ℕ → ℕ) → List ℕ → List ℕ) (n : ℕ) (texts : List (List ℕ))
      → P (Unit {0}) (assemble qsort n texts)
  unfolding assemble
  assemble-P qsort n texts = seq P p.clauses_ (run_pass-P 0 texts) λ _.
      seq P p.clauses_ (p.sort qsort) λ _.
        seq P p.clauses_ (run_pass-P 1 texts)
          λ _. seq P p.clauses_ (p.enter_ 2) λ _. reserve_stack-P n

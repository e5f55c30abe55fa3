-- ===== src/Assembler/Lockstep/Passes.antt =====
-- The passes of `Assemble` in q3asm/q3asm.c end with the same layout, so that the second one places
-- the segments where they are.
use q3vm.Base.{ℕ, zero, suc, ◌≤◌, ◌≡◌, refl, ◌∙◌, Option, none, some, arith, List, [], ◌∷◌, sym}
use q3vm.Assembler.Lockstep.{Grows, then-Any, then-Same, Same, Any, Lock}
use q3vm.Assembler.Lockstep.Basic.{pure-Any}
use q3vm.Assembler.Lockstep.Line.{assemble_line-Lock}
use q3vm.Assembler.Lockstep.Quiet.{modify-Lock}
use q3vm.Assembler.Passes.{
  enough_rounds, align_all, start_pass, open_file, run_pass, assemble_files, assemble_file,
  extract_line, assemble_lines,
}
use q3vm.Assembler.Run.{continue-eq-ok, ok, pure, ◌>>=◌, hang}
use q3vm.Assembler.State.{Asm, Action, code_error}

extract_line-Lock : (text : List ℕ) → Lock Same (extract_line text) (extract_line text)
unfolding extract_line code_error ◌>>=◌
extract_line-Lock [] = record {
  left = λ s a s' e. ground arith;
  right = λ s a s' e. ground arith;
  together = λ s t a b s' t' r e f i j. ground arith;
}
extract_line-Lock (c ∷ text) = record {
  left = λ s a s' e. ground arith;
  right = λ s a s' e. ground arith;
  together = λ s t a b s' t' r e f i j. ground arith;
}

hang-Lock : {A : Type 0} {V : A → A → Type 0} → Lock V hang hang
hang-Lock = record {
  left = λ s c s' e. ground arith;
  right = λ s c s' e. ground arith;
  together = λ s t c d s' t' r e f i j. ground arith;
}

more-Lock :
    (k : List ℕ → Action (Unit {0}))
    → ((text : List ℕ) → Lock Any (k text) (k text))
    → (next : Option (List ℕ))
    → Lock Any
        (elim next [ none ↦ pure tt | some text ↦ k text ])
        (elim next [ none ↦ pure tt | some text ↦ k text ])
more-Lock k h none = pure-Any tt tt
more-Lock k h (some text) = h text

assemble_lines-Lock :
    (fuel : ℕ) (text : List ℕ) → Lock Any (assemble_lines fuel text) (assemble_lines fuel text)
unfolding assemble_lines
assemble_lines-Lock zero text = hang-Lock
assemble_lines-Lock (suc fuel) text = then-Same (extract_line-Lock text) λ next.
    then-Any assemble_line-Lock
      λ _ _. more-Lock (assemble_lines fuel) (assemble_lines-Lock fuel) next

assemble_file-Lock :
    (index : ℕ) (text : List ℕ) → Lock Any (assemble_file index text) (assemble_file index text)
unfolding assemble_file
assemble_file-Lock index text =
    then-Any
      (modify-Lock (open_file index) (open_file index) (λ s. ground arith) (λ s. ground arith))
      λ _ _. assemble_lines-Lock (enough_rounds text) text

assemble_files-Lock :
    (index : ℕ) (texts : List (List ℕ))
    → Lock Any (assemble_files index texts) (assemble_files index texts)
unfolding assemble_files
assemble_files-Lock index [] = pure-Any tt tt
assemble_files-Lock index (text ∷ texts) =
    then-Any (assemble_file-Lock index text) λ _ _. assemble_files-Lock (suc index) texts

-- What is left of the line before does not matter, since every file starts with `ExtractLine`.
abbrev blank : Asm → Asm
blank s = record s { rest = []; token = [] }

extract_line-blank : (text : List ℕ) (s : Asm) → extract_line text s ≡ extract_line text (blank s)
unfolding extract_line code_error ◌>>=◌
extract_line-blank [] s = refl
extract_line-blank (c ∷ text) s = refl

assemble_files-blank :
    (index : ℕ) (text : List ℕ) (texts : List (List ℕ)) (s : Asm)
    → assemble_files index (text ∷ texts) s ≡ assemble_files index (text ∷ texts) (blank s)
unfolding assemble_files assemble_file assemble_lines ◌>>=◌
assemble_files-blank index text texts s = rw (extract_line-blank text (open_file index s))

abbrev SameSizes : Asm → Asm → Type 0
SameSizes s t =
    (s.code.image_used ≡ t.code.image_used)
    × (s.data_.image_used ≡ t.data_.image_used)
    × (s.lit.image_used ≡ t.lit.image_used)
    × (s.bss.image_used ≡ t.bss.image_used)
    × (s.instruction_count ≡ t.instruction_count)

run_pass-ok :
    (n : ℕ) (texts : List (List ℕ)) (s : Asm) (a : Unit {0}) (s' : Asm)
    → run_pass n texts s ≡ ok (a, s')
    → (b : Unit {0}) × (m : Asm) × (assemble_files 0 texts (start_pass n s) ≡ ok (b, m))
      × (align_all m ≡ s')
unfolding run_pass ◌>>=◌
run_pass-ok n texts s a s' e =
    let (b, m, e1, e2) = continue-eq-ok (assemble_files 0 texts (start_pass n s)) _ e in
    (b, m, e1, cc)

-- Two runs over the same files from states of the same layout end in the same layout.
pub run_pass-SameSizes :
    (m n index : ℕ) (text : List ℕ) (texts : List (List ℕ)) (s t : Asm) (a b : Unit {0})
    (s' t' : Asm)
    → run_pass m (text ∷ texts) s ≡ ok (a, s')
    → run_pass n (text ∷ texts) t ≡ ok (b, t')
    → s.current_segment ≡ none
    → s'.error_count ≤ s.error_count
    → t'.error_count ≤ t.error_count
    → SameSizes s' t'
run_pass-SameSizes m n index text texts s t a b s' t' e f h i j =
    let files = text ∷ texts in
    let (_, s1, e1, p) = run_pass-ok m files s a s' e in
    let (_, t1, f1, q) = run_pass-ok n files t b t' f in
    let (same, _) =
      (assemble_files-Lock 0 files).together (blank (start_pass m s)) (blank (start_pass n t)) tt tt
        s1 t1 (ground arith) (sym (assemble_files-blank 0 text texts (start_pass m s)) ∙ e1)
        (sym (assemble_files-blank 0 text texts (start_pass n t)) ∙ f1) (ground arith)
        (ground arith) in
    ground (arith, same)

pub run_pass-Grows :
    (n : ℕ) (texts : List (List ℕ)) (s : Asm) (a : Unit {0}) (s' : Asm)
    → run_pass n texts s ≡ ok (a, s')
    → Grows (start_pass n s) s'
run_pass-Grows n texts s a s' e =
    let (b, m, e1, p) = run_pass-ok n texts s a s' e in
    let g = (assemble_files-Lock 0 texts).left (start_pass n s) b m e1 in ground (arith, g)

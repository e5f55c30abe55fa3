-- ===== src/Assembler/Placement.antt =====
-- `Assemble` of q3asm/q3asm.c as a whole: where the segments lie at the end, and the errors.
use q3vm.Base.{ℕ, ◌≡◌, refl, arith, List, ◌∷◌}
use q3vm.Base.Word.{add32}
use q3vm.Assembler.Directives.{set_used}
use q3vm.Assembler.Lockstep.{Grows}
use q3vm.Assembler.Lockstep.Passes.{run_pass-SameSizes, run_pass-Grows}
use q3vm.Assembler.Lockstep.Quiet.{define_symbol-Unmoved, AllUnmoved}
use q3vm.Assembler.Passes.{initial, run_pass, assemble, reserve_stack}
use q3vm.Assembler.Run.{continue-eq-ok, ok, ◌>>=◌}
use q3vm.Assembler.State.{with_segment, segment_of, Asm}
use q3vm.Assembler.Symbols.{define_symbol, in_pass, sort_symbols}
use q3vm.Assembler.Text.{codes}

-- The two symbols at the end leave the layout alone, but for the size of bss.
abbrev AtEnd : Asm → Asm → Type 0
AtEnd s t =
    (s.code.image_used ≡ t.code.image_used)
    × (s.data_.image_used ≡ t.data_.image_used)
    × (s.lit.image_used ≡ t.lit.image_used)
    × (s.instruction_count ≡ t.instruction_count)
    × Grows s t

reserve_stack-AtEnd :
    (n : ℕ) (s : Asm) (a : Unit {0}) (s' : Asm)
    → reserve_stack n s ≡ ok (a, s')
    → AtEnd s s' × (s'.bss.image_used ≡ add32 s.bss.image_used n)
unfolding reserve_stack set_used segment_of with_segment ◌>>=◌
reserve_stack-AtEnd n s a s' e =
    let first = define_symbol (codes "_stackStart") s.bss.image_used in
    let (b, s1, e1, e2) = continue-eq-ok (first s) _ e in
    let s2 = record s1 { bss = record s1.bss { image_used = add32 s1.bss.image_used n } } in
    let u = define_symbol-Unmoved (codes "_stackStart") s.bss.image_used s b s1 e1 in
    let v = define_symbol-Unmoved (codes "_stackEnd") s2.bss.image_used s2 a s' e2 in
    ground (arith, u, v)

sort_symbols-Unmoved : (qsort : (ℕ → ℕ → ℕ) → List ℕ → List ℕ) → AllUnmoved (sort_symbols qsort)
unfolding sort_symbols
sort_symbols-Unmoved qsort s a s' e = ground arith

-- The states between the steps.
abbrev Stages : ((ℕ → ℕ → ℕ) → List ℕ → List ℕ) → ℕ → List (List ℕ) → Asm → Asm → Type 0
Stages qsort n texts s s' =
    (s1 : Asm) × (s2 : Asm) × (s3 : Asm) × (run_pass 0 texts s ≡ ok (tt, s1))
    × (sort_symbols qsort s1 ≡ ok (tt, s2))
    × (run_pass 1 texts s2 ≡ ok (tt, s3))
    × (reserve_stack n (in_pass 2 s3) ≡ ok (tt, s'))

assemble-Stages :
    (qsort : (ℕ → ℕ → ℕ) → List ℕ → List ℕ) (n : ℕ) (texts : List (List ℕ)) (s s' : Asm)
    → assemble qsort n texts s ≡ ok (tt, s')
    → Stages qsort n texts s s'
unfolding assemble ◌>>=◌
assemble-Stages qsort n texts s s' e =
    let (tt, s1, e1, f1) = continue-eq-ok (run_pass 0 texts s) _ e in
    let (tt, s2, e2, f2) = continue-eq-ok (sort_symbols qsort s1) _ f1 in
    let (tt, s3, e3, f3) = continue-eq-ok (run_pass 1 texts s2) _ f2 in (s1, s2, s3, e1, e2, e3, f3)

-- If `Assemble` returns for one file or more and has reported no error, then at the end the lit
-- segment lies right behind the data segment and the bss segment right behind both, by the sizes
-- that the segments have at the end.
pub assemble-segment_base :
    (qsort : (ℕ → ℕ → ℕ) → List ℕ → List ℕ) (n buckets : ℕ) (text : List ℕ) (texts : List (List ℕ))
    (s : Asm)
    → assemble qsort n (text ∷ texts) (initial buckets) ≡ ok (tt, s)
    → s.error_count ≡ 0
    → (s.lit.segment_base ≡ s.data_.image_used)
      × (s.bss.segment_base ≡ add32 s.data_.image_used s.lit.image_used)
assemble-segment_base qsort n buckets text texts s e h =
    let files = text ∷ texts in
    let s0 = initial buckets in
    let (s1, s2, s3, e1, e2, e3, e4) = assemble-Stages qsort n files s0 s e in
    let g1 = run_pass-Grows 0 files s0 tt s1 e1 in
    let u = sort_symbols-Unmoved qsort s1 tt s2 e2 in
    let g2 = run_pass-Grows 1 files s2 tt s3 e3 in
    let (v, _) = reserve_stack-AtEnd n (in_pass 2 s3) tt s e4 in
    let same =
      run_pass-SameSizes 0 1 0 text texts s0 s2 tt tt s1 s3 e1 e3 refl
        (ground (arith, g1, u, g2, v)) (ground (arith, g1, u, g2, v)) in
    ground (arith, u, g2, v, same)

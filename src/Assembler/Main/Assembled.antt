-- ===== src/Assembler/Main/Assembled.antt =====
-- `Assemble` of q3asm/q3asm.c on the files of the command line, and the parts of its output.
use q3vm.Base.{
  ℕ, ap, ◌<◌, ◌≡◌, refl, ◌∙◌, Option, none, some, arith, Bool, true, false, List, [], ◌∷◌, length,
  inl, inr, Option-cases, sym,
}
use q3vm.Assembler.Ending.{assemble-Halts}
use q3vm.Assembler.Files.{lift, Files}
use q3vm.Assembler.Main.{
  path_directories, buckets_of, Disk, open_write, make_directories, output_path, create_path,
  names_of, load_sources, assembled, Sorting, assemble_named,
}
use q3vm.Assembler.Main.Sources.{load_sources-Ends, Loaded, SourcesShort}
use q3vm.Assembler.Options.Scanning.{IsWithin}
use q3vm.Assembler.Options.Triple.{weaken-Ends, chain-Ends, Ends}
use q3vm.Assembler.Output.{write_image, write_images, write_vm_file}
use q3vm.Assembler.Passes.{initial, assemble}
use q3vm.Assembler.Paths.{image_name}
use q3vm.Assembler.Run.{Run, ◌>>=◌, ok, exited, faulted, unfinished}
use q3vm.Assembler.Scanner.{Settings}
use q3vm.Assembler.State.{Asm}
use q3vm.Create.{vm_program_stack_size}
use q3vm.Memory.{Block}
use mathlib.Core.Path.{subst}

-- The globals that `Assemble` leaves, from the files of the names.
pub record IsAssembled (qsort : Sorting) (s : Settings) (asm : Asm) : Type 0 where
  pub texts : List (List ℕ)
  pub count : length texts ≡ length s.asm_file_names
  pub some_text : 0 < length texts
  pub assembles : assemble qsort vm_program_stack_size texts (initial s.symtablelen) ≡ ok (tt, asm)

abbrev pub Made : Sorting → Bool → Asm → Settings → Type 0
Made qsort wanted asm s = IsAssembled qsort s asm × IsWithin wanted s

pub lift_run-Ends :
    (A : Type 0) (r : Run A) (s : Settings)
    → ¬ (r ≡ unfinished)
    → Ends A (λ a t. (t ≡ s) × (r ≡ ok a)) (lift r s)
lift_run-Ends A (ok a) s h = (refl, refl)
lift_run-Ends A exited s h = tt
lift_run-Ends A faulted s h = tt
lift_run-Ends A unfinished s h = h refl

assembled-ok : (r : Run (Unit {0} × Asm)) (asm : Asm) → assembled r ≡ ok asm → r ≡ ok (tt, asm)
assembled-ok (ok (_, s)) asm e = ground arith
assembled-ok exited asm e = cc
assembled-ok faulted asm e = cc
assembled-ok unfinished asm e = cc

assembled-Halts : (r : Run (Unit {0} × Asm)) → ¬ (r ≡ unfinished) → ¬ (assembled r ≡ unfinished)
assembled-Halts (ok (_, s)) h e = cc
assembled-Halts exited h e = cc
assembled-Halts faulted h e = cc
assembled-Halts unfinished h e = h refl

pub assemble_named-Ends :
    (files : Files) (qsort : Sorting) (wanted : Bool) (s : Settings)
    → SourcesShort files
    → 0 < length s.asm_file_names
    → IsWithin wanted s
    → Ends Asm (Made qsort wanted) (assemble_named files qsort s)
unfolding assemble_named
assemble_named-Ends files qsort wanted s h n g =
    chain-Ends (List (List ℕ)) Asm (Loaded (length s.asm_file_names) s) (Made qsort wanted)
      (load_sources files s.asm_file_names) _ s (load_sources-Ends files s.asm_file_names s h)
      λ texts t (e, l, short).
        let r = assemble qsort vm_program_stack_size texts (initial t.symtablelen) in
        weaken-Ends Asm (λ asm u. (u ≡ t) × (assembled r ≡ ok asm)) (Made qsort wanted)
          (lift (assembled r) t)
          (lift_run-Ends Asm (assembled r) t (
            assembled-Halts r
              (assemble-Halts qsort vm_program_stack_size texts (initial t.symtablelen) short)))
          λ asm u (f, made).
            let named = ap names_of (f ∙ e) in
            let counted = ap buckets_of f in
            (
              record {
                texts = texts;
                count = l ∙ ap length (sym named);
                some_text = omega (arith, l, n);
                assembles = rw counted (assembled-ok r asm made);
              },
              subst (IsWithin wanted) (sym (f ∙ e)) g,
            )

-- No part of the output goes on for ever.
pub output_path-Halts : (output extension : List ℕ) → ¬ (output_path output extension ≡ unfinished)
unfolding output_path
output_path-Halts output extension e = elim (Option-cases (image_name output extension)) [
  | inl none_ ↦ ground arith
  | inr (path, found_) ↦ ground arith
]

pub open_write-Halts : (disk : Disk) (path : List ℕ) → ¬ (open_write disk path ≡ unfinished)
unfolding open_write
open_write-Halts disk path e = ground arith

make_directories-Halts :
    (disk : Disk) (ds : List (List ℕ)) → ¬ (make_directories disk ds ≡ unfinished)
unfolding make_directories
make_directories-Halts disk [] e = cc
make_directories-Halts disk (d ∷ ds) e = ground (arith, make_directories-Halts disk ds)

pub create_path-Halts : (disk : Disk) (path : List ℕ) → ¬ (create_path disk path ≡ unfinished)
unfolding create_path
create_path-Halts disk path e = elim (Option-cases (path_directories path)) [
  | inl none_ ↦ ground arith
  | inr (ds, found_) ↦ ground (arith, make_directories-Halts disk ds)
]

pub write_vm_file-Halts : (vanilla : Bool) (s : Asm) → ¬ (write_vm_file vanilla s ≡ unfinished)
unfolding write_vm_file write_images write_image ◌>>=◌
write_vm_file-Halts true s e = ground arith
write_vm_file-Halts false s e = ground arith

pub write_vm_file-some :
    (s : Asm) (o : Option Block)
    → s.error_count ≡ 0
    → write_vm_file true s ≡ ok o
    → (file : Block) × (o ≡ some file)
unfolding write_vm_file write_images write_image ◌>>=◌
write_vm_file-some s none n e = ground arith
write_vm_file-some s (some file) n e = (file, refl)

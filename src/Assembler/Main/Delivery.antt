-- ===== src/Assembler/Main/Delivery.antt =====
-- What q3asm/q3asm.c leaves behind: the files that are written and the exit status.
use q3vm.Base.{
  ℕ, ◌<◌, ◌≡◌, refl, ◌∙◌, Option, none, some, arith, Bool, true, false, ◌==◌, List, sym,
}
use q3vm.Assembler.Main.{
  assemble_named, open_write, create_path, main, write_output, output_path, Disk, Output,
  write_bytecode, write_named_map, Sorting,
}
use q3vm.Assembler.Main.Assembled.{
  assemble_named-Ends, write_vm_file-Halts, create_path-Halts, open_write-Halts, Made,
  write_vm_file-some, output_path-Halts, IsAssembled,
}
use q3vm.Assembler.Main.Sources.{SourcesShort}
use q3vm.Assembler.Options.{read_arguments, default_settings}
use q3vm.Assembler.Options.Bounds.{read_arguments-Ends, Accepted, asks_for_map}
use q3vm.Assembler.Options.Scanning.{IsWithin}
use q3vm.Assembler.Options.Triple.{lift_then-Ends, test-Ends, chain-Ends, Ends}
use q3vm.Assembler.Output.{write_vm_file, write_map_file}
use q3vm.Assembler.Run.{pure, ok}
use q3vm.Assembler.Scanner.{Settings}
use q3vm.Assembler.State.{Asm}
use q3vm.Assembler.Text.{codes}
use q3vm.Memory.{Block}
use mathlib.Core.Path.{subst}

-- The name of the bytecode file, and its contents: none after an error.
pub record IsBytecode (s : Settings) (asm : Asm) (path : List ℕ) (file : Option Block)
    : Type 0 where
  pub vm_path : output_path s.output_filename (codes ".qvm") ≡ ok path
  pub errors : 0 < asm.error_count → file ≡ none
  pub written :
      asm.error_count ≡ 0
      → (contents : Block) × (file ≡ some contents) × (write_vm_file true asm ≡ ok (some contents))

-- The name of the map file and its text, if there is to be one.
abbrev pub IsMap : Bool → Settings → Asm → Option (List ℕ × List ℕ) → Type 0
IsMap wanted s asm none = wanted ≡ false
IsMap wanted s asm (some (path, text)) =
    (wanted ≡ true)
    × (output_path s.output_filename (codes ".map") ≡ ok path)
    × (text ≡ write_map_file asm)

-- The output of `main`, for the globals with which `Assemble` has ended.
pub record IsDelivered (qsort : Sorting) (wanted : Bool) (out : Output) (s : Settings)
    : Type 0 where
  pub asm : Asm
  pub made : IsAssembled qsort s asm
  pub status : out.status ≡ asm.error_count
  pub bytecode : IsBytecode s asm out.vm_path out.vm_file
  pub mapped : IsMap wanted s asm out.map_file

abbrev Bytecode : Settings → Asm → List ℕ × Option Block → Settings → Type 0
Bytecode s asm (path, file) t = (t ≡ s) × IsBytecode s asm path file

abbrev Map : Bool → Settings → Asm → Option (List ℕ × List ℕ) → Settings → Type 0
Map wanted s asm out t = (t ≡ s) × IsMap wanted s asm out

write_bytecode-Ends :
    (disk : Disk) (asm : Asm) (wanted : Bool) (s : Settings)
    → IsWithin wanted s
    → Ends (List ℕ × Option Block) (Bytecode s asm) (write_bytecode disk asm s)
unfolding write_bytecode
write_bytecode-Ends disk asm wanted s g =
    let P = List ℕ × Option Block in
    let Q = Bytecode s asm in
    lift_then-Ends (List ℕ) P Q (output_path s.output_filename (codes ".qvm")) _ s
      (output_path-Halts s.output_filename (codes ".qvm"))
      λ path p.
        test-Ends P Q (asm.error_count == 0) _ (pure (path, none)) s
          (λ e.
            lift_then-Ends (Unit {0}) P Q (create_path disk path) _ s (create_path-Halts disk path)
              λ _ _.
                lift_then-Ends (Unit {0}) P Q (open_write disk path) _ s
                  (open_write-Halts disk path)
                  λ _ _.
                    lift_then-Ends (Option Block) P Q (write_vm_file s.vanilla asm) _ s
                      (write_vm_file-Halts s.vanilla asm)
                      λ file f. (refl, clean path file p (ground arith) (rw g.vanilla at f)))
          λ e.
            (refl, record { vm_path = p; errors = λ h. refl; written = λ h. absurd (ground arith) })
  where
    clean :
        (path : List ℕ) (file : Option Block)
        → output_path s.output_filename (codes ".qvm") ≡ ok path
        → asm.error_count ≡ 0
        → write_vm_file true asm ≡ ok file
        → IsBytecode s asm path file
    clean path file p n f =
        let (contents, e) = write_vm_file-some asm file n f in
        record {
          vm_path = p;
          errors = λ h. absurd (omega arith);
          written = λ h. (contents, e, rw (← e) f);
        }

write_named_map-Ends :
    (disk : Disk) (asm : Asm) (wanted : Bool) (s : Settings)
    → s.write_map ≡ wanted
    → Ends (Option (List ℕ × List ℕ)) (Map wanted s asm) (write_named_map disk asm s)
unfolding write_named_map
write_named_map-Ends disk asm wanted s asked =
    let P = Option (List ℕ × List ℕ) in
    test-Ends P (Map wanted s asm) s.write_map _ (pure none) s
      (λ e.
        lift_then-Ends (List ℕ) P (Map wanted s asm) (output_path s.output_filename (codes ".map"))
          _ s (output_path-Halts s.output_filename (codes ".map"))
          λ path p.
            lift_then-Ends (Unit {0}) P (Map wanted s asm) (open_write disk path) _ s
              (open_write-Halts disk path) λ _ _. (refl, (sym asked ∙ e, p, refl)))
      λ e. (refl, sym asked ∙ e)

write_output-Ends :
    (disk : Disk) (qsort : Sorting) (wanted : Bool) (asm : Asm) (s : Settings)
    → Made qsort wanted asm s
    → Ends Output (IsDelivered qsort wanted) (write_output disk asm s)
unfolding write_output
write_output-Ends disk qsort wanted asm s (made, g) =
    let P = List ℕ × Option Block in
    chain-Ends P Output (Bytecode s asm) (IsDelivered qsort wanted) (write_bytecode disk asm) _ s
      (write_bytecode-Ends disk asm wanted s g)
      λ (path, file) t (e, b).
        chain-Ends (Option (List ℕ × List ℕ)) Output (Map wanted t asm) (IsDelivered qsort wanted)
          (write_named_map disk asm) _ t (write_named_map-Ends disk asm wanted t (rw e g.asked))
          λ out u (f, m). record {
            asm = asm;
            made = subst (λ v. IsAssembled qsort v asm) (sym (f ∙ e)) made;
            status = refl;
            bytecode = subst (λ v. IsBytecode v asm path file) (sym (f ∙ e)) b;
            mapped = subst (λ v. IsMap wanted v asm out) (sym f) m;
          }

-- If no source file on the disk has a line of 1024 characters or more, then whatever the arguments
-- are, `main` does not run for ever; and if it returns, then `Assemble` has returned for one file or
-- more, the exit status is its number of errors, the bytecode file is written exactly if that is 0,
-- to the name of the output with ".qvm", and the map file exactly if "-m" is one of the options in
-- front of the files, even if there were errors, to the name with ".map".
pub main-Ends :
    (disk : Disk) (qsort : Sorting) (args : List (List ℕ))
    → SourcesShort disk.files
    → Ends Output (IsDelivered qsort (asks_for_map args)) (main disk qsort args default_settings)
unfolding main
main-Ends disk qsort args h =
    chain-Ends (Unit {0}) Output (Accepted (asks_for_map args))
      (IsDelivered qsort (asks_for_map args)) (read_arguments disk.files args) _ default_settings
      (read_arguments-Ends disk.files args)
      λ _ s (n, g).
        chain-Ends Asm Output (Made qsort (asks_for_map args))
          (IsDelivered qsort (asks_for_map args)) (assemble_named disk.files qsort) _ s
          (assemble_named-Ends disk.files qsort (asks_for_map args) s h n g)
          λ asm t made. write_output-Ends disk qsort (asks_for_map args) asm t made

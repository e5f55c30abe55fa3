-- ===== src/Assembler/Main.antt =====
-- `main` of q3asm/q3asm.c as a whole: the command line, the files that are read, `Assemble`, and the
-- files that are written. What the file system allows is a parameter.
pub mod Sources
pub mod Assembled
pub mod Delivery
use q3vm.Base.{
  ℕ, zero, suc, ap, ◌+◌, ◌-◌, ◌*◌, ◌/◌, ◌%◌, ◌^◌, ◌≤◌, ◌<◌, ◌≡◌, refl, ◌∙◌, Option, none, some,
  arith, Bool, true, false, not, ltb, leb, ◌==◌, ◌&&◌, ◌||◌, if◌then◌else◌, List, [], ◌∷◌, length,
  ◌⊎◌, inl, inr, Bool-cases, Option-cases, get_elem?, ◌++◌, ◌↔◌, ◌≢◌, sym, map, bit_and,
}
use q3vm.Assembler.Files.{lift, max_path, slashed_path, Files, load_named}
use q3vm.Assembler.Options.{read_arguments}
use q3vm.Assembler.Output.{write_vm_file, write_map_file}
use q3vm.Assembler.Passes.{initial, assemble}
use q3vm.Assembler.Paths.{image_name}
use q3vm.Assembler.Run.{pure, gets, Act, Run, ◌>>=◌, ◌>>◌, ok, exited, faulted, unfinished}
use q3vm.Assembler.Scanner.{max_os_path, Settings}
use q3vm.Assembler.State.{Asm}
use q3vm.Assembler.Text.{codes}
use q3vm.Create.{vm_program_stack_size}
use q3vm.Memory.{Block}
use q3vm.Symbols.{tail, starts_with}

-- The contents of a file, whether a path can be opened to be written, and whether `mkdir` leaves a
-- directory there.
pub record Disk : Type 0 where
  pub files : Files
  pub opens : List ℕ → Bool
  pub makes : List ℕ → Bool

-- "assemble" begins with the files of all names.
unfoldable pub load_sources : Files → List (List ℕ) → Act Settings (List (List ℕ))
unfolding load_named ◌>>=◌
load_sources files [] = pure []
load_sources files (name ∷ names) = do
  text ← lift (load_named files (codes ".asm") name)
  texts ← load_sources files names
  pure (text ∷ texts)

-- `imageName` in its buffer of `MAX_OS_PATH` bytes.
unfoldable pub output_path : List ℕ → List ℕ → Run (List ℕ)
unfolding image_name
output_path output extension = elim (image_name output extension) [
  | none ↦ faulted
  | some path ↦ if ltb (length path) max_os_path then ok path else faulted
]

-- `SafeOpenWrite` of q3asm/cmdlib.c.
unfoldable pub open_write : Disk → List ℕ → Run (Unit {0})
unfolding slashed_path
open_write disk path = if disk.opens (slashed_path (max_path - 1) path) then ok tt else exited

-- `CreatePath` of q3asm/cmdlib.c: the directories in front of each separator but the first
-- character, behind the drive. `none` is a read behind the end.
abbrev pub is_separator : ℕ → Bool
is_separator c = (c == 47) || (c == 92)

unfoldable pub directories : List ℕ → List ℕ → List (List ℕ)
directories before [] = []
directories before (c ∷ rest) =
    let more = directories (before ++ c ∷ []) rest in if is_separator c then before ∷ more else more

abbrev pub without_drive : List ℕ → List ℕ
without_drive [] = []
without_drive (c ∷ rest) = if starts_with 58 rest then tail rest else c ∷ rest

unfoldable pub path_directories : List ℕ → Option (List (List ℕ))
unfolding directories
path_directories path = elim (without_drive path) [
  | [] ↦ none
  | c ∷ rest ↦ some (directories (c ∷ []) rest)
]

unfoldable pub make_directories : Disk → List (List ℕ) → Run (Unit {0})
make_directories disk [] = ok tt
make_directories disk (d ∷ ds) =
    let rest = make_directories disk ds in if disk.makes d then rest else exited

unfoldable pub create_path : Disk → List ℕ → Run (Unit {0})
unfolding path_directories make_directories
create_path disk path = elim (path_directories path) [
  | none ↦ faulted
  | some ds ↦ make_directories disk ds
]

-- `WriteVmFile` with the file's name. The file that was there is removed in any case.
abbrev pub output_of : Settings → List ℕ
output_of s = s.output_filename

abbrev pub is_vanilla : Settings → Bool
is_vanilla s = s.vanilla

unfoldable pub write_bytecode : Disk → Asm → Act Settings (List ℕ × Option Block)
unfolding output_path open_write create_path write_vm_file ◌>>=◌
write_bytecode disk asm = do
  output ← gets output_of
  path ← lift (output_path output (codes ".qvm"))
  elim (asm.error_count == 0) [
    | false ↦ pure (path, none)
    | true ↦ (do
      lift (create_path disk path)
      lift (open_write disk path)
      vanilla ← gets is_vanilla
      file ← lift (write_vm_file vanilla asm)
      pure (path, file))
  ]

-- `WriteMapFile` with the file's name.
abbrev pub wants_map : Settings → Bool
wants_map s = s.write_map

unfoldable pub write_named_map : Disk → Asm → Act Settings (Option (List ℕ × List ℕ))
unfolding output_path open_write write_map_file ◌>>=◌
write_named_map disk asm = do
  wanted ← gets wants_map
  elim wanted [
    | false ↦ pure none
    | true ↦ (do
      output ← gets output_of
      path ← lift (output_path output (codes ".map"))
      lift (open_write disk path)
      pure (some (path, write_map_file asm)))
  ]

-- What `main` leaves: the exit status, the bytecode file and the map file with their names.
pub record Output : Type 0 where
  pub status : ℕ
  pub vm_path : List ℕ
  pub vm_file : Option Block
  pub map_file : Option (List ℕ × List ℕ)

abbrev pub names_of : Settings → List (List ℕ)
names_of s = s.asm_file_names

abbrev pub buckets_of : Settings → ℕ
buckets_of s = s.symtablelen

-- The globals behind `Assemble`, without what it returns.
abbrev pub assembled : Run (Unit {0} × Asm) → Run Asm
assembled (ok (_, asm)) = ok asm
assembled exited = exited
assembled faulted = faulted
assembled unfinished = unfinished

abbrev pub Sorting : Type 0
Sorting = (ℕ → ℕ → ℕ) → List ℕ → List ℕ

-- `InitTables`, and `Assemble` on the files of the names.
unfoldable pub assemble_named : Files → Sorting → Act Settings Asm
unfolding load_sources assemble ◌>>=◌
assemble_named files qsort = do
  names ← gets names_of
  texts ← load_sources files names
  buckets ← gets buckets_of
  lift (assembled (assemble qsort vm_program_stack_size texts (initial buckets)))

unfoldable pub write_output : Disk → Asm → Act Settings Output
unfolding write_bytecode write_named_map ◌>>=◌
write_output disk asm = do
  (path, file) ← write_bytecode disk asm
  map ← write_named_map disk asm
  pure (record { status = asm.error_count; vm_path = path; vm_file = file; map_file = map })

unfoldable pub main : Disk → Sorting → List (List ℕ) → Act Settings Output
unfolding read_arguments assemble_named write_output ◌>>=◌
main disk qsort args = do
  read_arguments disk.files args
  asm ← assemble_named disk.files qsort
  write_output disk asm

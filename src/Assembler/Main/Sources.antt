-- ===== src/Assembler/Main/Sources.antt =====
-- The source files that `Assemble` of q3asm/q3asm.c reads.
use q3vm.Base.{ℕ, suc, ◌-◌, ◌≡◌, refl, ◌∙◌, Option, none, some, arith, List, [], ◌∷◌, length}
use q3vm.Assembler.Ending.{FilesShort}
use q3vm.Assembler.Files.{
  lift, max_path, c_string, slashed_path, named_file, Files, load_named, load_file,
}
use q3vm.Assembler.Halting.{AllShort}
use q3vm.Assembler.Main.{load_sources}
use q3vm.Assembler.Options.Triple.{chain-Ends, Ends}
use q3vm.Assembler.Options.Words.{named_file-Ends}
use q3vm.Assembler.Run.{pure, Run, ok, exited, faulted, unfinished}
use q3vm.Assembler.Scanner.{Settings}
use q3vm.Assembler.Text.{codes}

-- No line of a file has 1024 characters or more.
abbrev pub SourcesShort : Files → Type 0
SourcesShort files = (path bytes : List ℕ) → files path ≡ some bytes → AllShort (c_string bytes)

-- A file that is read, if it is.
abbrev ReadShort : Run (List ℕ) → Type 0
ReadShort (ok text) = AllShort text
ReadShort exited = Unit {0}
ReadShort faulted = Unit {0}
ReadShort unfinished = ⊥

read-ReadShort :
    (o : Option (List ℕ))
    → ((bytes : List ℕ) → o ≡ some bytes → AllShort (c_string bytes))
    → ReadShort (elim o [ none ↦ exited | some bytes ↦ ok (c_string bytes) ])
read-ReadShort none h = tt
read-ReadShort (some bytes) h = h bytes refl

load_file-ReadShort :
    (files : Files) (path : List ℕ) → SourcesShort files → ReadShort (load_file files path)
unfolding load_file
load_file-ReadShort files path h =
    let opened = slashed_path (max_path - 1) path in read-ReadShort (files opened) (h opened)

named-ReadShort :
    (files : Files) (r : Run (List ℕ))
    → SourcesShort files
    → ¬ (r ≡ unfinished)
    → ReadShort (elim r [
      | ok path ↦ load_file files path
      | exited ↦ exited
      | faulted ↦ faulted
      | unfinished ↦ unfinished
    ])
named-ReadShort files (ok path) h n = load_file-ReadShort files path h
named-ReadShort files exited h n = tt
named-ReadShort files faulted h n = tt
named-ReadShort files unfinished h n = n refl

load_named-ReadShort :
    (files : Files) (extension name : List ℕ)
    → SourcesShort files
    → ReadShort (load_named files extension name)
unfolding load_named
load_named-ReadShort files extension name h =
    named-ReadShort files (named_file extension name) h (named_file-Ends extension name)

-- As many texts as there are names, with the globals as they were.
abbrev pub Loaded : ℕ → Settings → List (List ℕ) → Settings → Type 0
Loaded n t texts s = (s ≡ t) × (length texts ≡ n) × FilesShort texts

lift-Ends :
    (r : Run (List ℕ)) (s : Settings)
    → ReadShort r
    → Ends (List ℕ) (λ text t. (t ≡ s) × AllShort text) (lift r s)
lift-Ends (ok text) s h = (refl, h)
lift-Ends exited s h = tt
lift-Ends faulted s h = tt
lift-Ends unfinished s h = h

pub load_sources-Ends :
    (files : Files) (names : List (List ℕ)) (s : Settings)
    → SourcesShort files
    → Ends (List (List ℕ)) (Loaded (length names) s) (load_sources files names s)
unfolding load_sources
load_sources-Ends files [] s h = (refl, refl, tt)
load_sources-Ends files (name ∷ names) s h =
    let Q : List ℕ → Settings → Type 0 = λ text t. (t ≡ s) × AllShort text in
    chain-Ends (List ℕ) (List (List ℕ)) Q (Loaded (suc (length names)) s)
      (lift (load_named files (codes ".asm") name)) _ s
      (lift-Ends (load_named files (codes ".asm") name) s
        (load_named-ReadShort files (codes ".asm") name h))
      λ text t (e, short).
        chain-Ends (List (List ℕ)) (List (List ℕ)) (Loaded (length names) t)
          (Loaded (suc (length names)) s) (load_sources files names) (λ texts. pure (text ∷ texts))
          t (load_sources-Ends files names t h)
          λ texts u (f, n, hs). (f ∙ e, omega (arith, n), (short, hs))

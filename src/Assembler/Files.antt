-- ===== src/Assembler/Files.antt =====
-- The reading of files by q3asm/q3asm.c and q3asm/cmdlib.c. The file system is a parameter: the
-- bytes that a file has, or `none` where it cannot be opened.
use q3vm.Base.{
  ℕ, zero, suc, ◌-◌, Option, none, some, ltb, ◌==◌, if◌then◌else◌, List, [], ◌∷◌, length,
}
use q3vm.Assembler.Paths.{default_extension}
use q3vm.Assembler.Run.{Run, Act, ok, exited, faulted, unfinished}
use q3vm.Assembler.Scanner.{max_os_path}

abbrev pub Files : Type 0
Files = List ℕ → Option (List ℕ)

-- `Error`, which ends the process.
abbrev pub quit : {S A : Type 0} → Act S A
quit s = exited

-- `myfopen` of q3asm/cmdlib.c: the path in a buffer of 4096 bytes, with slashes.
abbrev pub slashed : ℕ → ℕ
slashed c = if c == 92 then 47 else c

unfoldable pub slashed_path : ℕ → List ℕ → List ℕ
slashed_path zero path = []
slashed_path (suc n) [] = []
slashed_path (suc n) (c ∷ path) = slashed c ∷ slashed_path n path

abbrev pub max_path : ℕ
max_path = 4096

-- The bytes of a buffer up to its first zero.
unfoldable pub c_string : List ℕ → List ℕ
c_string [] = []
c_string (c ∷ rest) = let more = c_string rest in if c == 0 then [] else c ∷ more

-- `LoadFile` of q3asm/cmdlib.c, as a text: it puts a zero behind the bytes of the file.
unfoldable pub load_file : Files → List ℕ → Run (List ℕ)
unfolding slashed_path c_string
load_file files path = elim (files (slashed_path (max_path - 1) path)) [
  | none ↦ exited
  | some bytes ↦ ok (c_string bytes)
]

-- A name in a buffer of `MAX_OS_PATH` bytes, with its extension, and the file of that name.
unfoldable pub named_file : List ℕ → List ℕ → Run (List ℕ)
unfolding default_extension
named_file extension name = elim (default_extension name extension) [
  | none ↦ faulted
  | some path ↦ if ltb (length path) max_os_path then ok path else faulted
]

unfoldable pub load_named : Files → List ℕ → List ℕ → Run (List ℕ)
unfolding named_file load_file
load_named files extension name = elim (named_file extension name) [
  | ok path ↦ load_file files path
  | exited ↦ exited
  | faulted ↦ faulted
  | unfinished ↦ unfinished
]

abbrev pub lift : {S A : Type 0} → Run A → Act S A
lift (ok a) s = ok (a, s)
lift exited s = exited
lift faulted s = faulted
lift unfinished s = unfinished

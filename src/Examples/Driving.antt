-- ===== src/Examples/Driving.antt =====
-- The command line of q3asm/q3asm.c, with its option file, its source file and its map file.
use q3vm.Base.{
  ℕ, ◌-◌, ◌≡◌, refl, Option, none, some, arith, Bool, true, false, ◌==◌, if◌then◌else◌, List, [],
  ◌∷◌, ◌++◌,
}
use q3vm.Assembler.Directives.{assemble_proc, assemble_label, assemble_byte}
use q3vm.Assembler.Files.{max_path, slashed_path, named_file, c_string, Files}
use q3vm.Assembler.Halting.{short-AllShort, AllShort}
use q3vm.Assembler.Main.{main, Output, Disk}
use q3vm.Assembler.Main.Delivery.{main-Ends, IsDelivered}
use q3vm.Assembler.Main.Sources.{SourcesShort}
use q3vm.Assembler.Options.{
  takes_value, option_kind, parse_option_file, default_settings, read_arguments,
}
use q3vm.Assembler.Options.Bounds.{read_arguments-Ends, Accepted}
use q3vm.Assembler.Options.Listing.{listing}
use q3vm.Assembler.Options.RoundTrip.{parse_option_file-listing, named_also}
use q3vm.Assembler.Options.Triple.{Ends}
use q3vm.Assembler.Output.{write_map_file}
use q3vm.Assembler.Passes.{initial}
use q3vm.Assembler.Run.{Run, ok, exited, faulted, unfinished}
use q3vm.Assembler.Scanner.{Settings}
use q3vm.Assembler.State.{dataseg, Sym, codeseg, Asm}
use q3vm.Assembler.Text.{has_prefix, codes, text_eq}
use q3vm.Examples.Assembling.{no_sort}
use q3vm.State.{cleared, Vm}
use mathlib.Core.Path.{subst}

abbrev newline : List ℕ
newline = 10 ∷ []

abbrev source : List ℕ
source =
    codes "code"
    ++ newline
    ++ codes "proc f 0 0"
    ++ newline
    ++ codes "data"
    ++ newline
    ++ codes "LABEL d"
    ++ newline
    ++ codes "byte 4 5"
    ++ newline

-- A disk with a source file and an option file that names it twice.
abbrev names : List (List ℕ)
names = codes "a" ∷ codes "b.asm" ∷ []

abbrev files : Files
files path =
    if text_eq path (codes "a.asm")
    then some source
    else if text_eq path (codes "b.asm")
    then some (codes "code")
    else if text_eq path (codes "all.q3asm")
    then some (listing names)
    else none

abbrev disk : Disk
disk = record { files = files; opens = λ path. true; makes = λ path. true }

abbrev ShortIf : Option (List ℕ) → Type 0
ShortIf none = Unit {0}
ShortIf (some bytes) = AllShort (c_string bytes)

either-ShortIf :
    (b : Bool) (o p : Option (List ℕ)) → ShortIf o → ShortIf p → ShortIf (if b then o else p)
either-ShortIf true o p h i = h
either-ShortIf false o p h i = i

source-AllShort : AllShort (c_string source)
unfolding c_string
source-AllShort = short-AllShort (c_string source) (omega arith)

other-AllShort : AllShort (c_string (codes "code"))
unfolding c_string
other-AllShort = short-AllShort (c_string (codes "code")) (omega arith)

listing-AllShort : AllShort (c_string (listing names))
unfolding c_string
listing-AllShort = short-AllShort (c_string (listing names)) (omega arith)

files-ShortIf : (path : List ℕ) → ShortIf (files path)
files-ShortIf path = either-ShortIf (text_eq path (codes "a.asm")) (some source) _ source-AllShort (
    either-ShortIf (text_eq path (codes "b.asm")) (some (codes "code")) _ other-AllShort (
      either-ShortIf (text_eq path (codes "all.q3asm")) (some (listing names)) none listing-AllShort
        tt))

files-short : SourcesShort files
files-short path bytes e = subst ShortIf e (files-ShortIf path)

-- Both output files are written, and there are no errors.
abbrev delivered : Run (Output × Settings) → ℕ × List ℕ × Bool
delivered (ok (out, s)) = (out.status, out.vm_path, s.write_map)
delivered exited = (1, [], false)
delivered faulted = (2, [], false)
delivered unfinished = (3, [], false)

main_runs :
    delivered (main disk no_sort (codes "-m" ∷ names) default_settings)
    ≡ (0, codes "q3asm.qvm", true)
unfolding main assemble_proc assemble_label assemble_byte
main_runs = refl

main-Ends_example :
    Ends Output (IsDelivered no_sort true) (main disk no_sort (codes "-m" ∷ names) default_settings)
unfolding option_kind
main-Ends_example = main-Ends disk no_sort (codes "-m" ∷ names) files-short

read_arguments-Ends_example :
    Ends (Unit {0}) (Accepted true) (
      read_arguments files
        (codes "-f" ∷ codes "all" ∷ codes "-m" ∷ codes "c" ∷ [])
        default_settings)
unfolding option_kind takes_value
read_arguments-Ends_example =
    read_arguments-Ends files (codes "-f" ∷ codes "all" ∷ codes "-m" ∷ codes "c" ∷ [])

listing_found : files (slashed_path (max_path - 1) (codes "all.q3asm")) ≡ some (listing names)
unfolding slashed_path text_eq
listing_found = refl

parse_option_file-listing_example :
    parse_option_file files (codes "all") default_settings
    ≡ ok (tt, named_also default_settings names)
unfolding text_eq named_file has_prefix
parse_option_file-listing_example =
    parse_option_file-listing files (codes "all") (codes "all.q3asm") names default_settings refl
      listing_found refl (omega arith)

-- A machine with one instruction, and the map file of the source.
abbrev table_vm : Vm
table_vm = record cleared {
  instruction_count = 1;
  instruction_pointers = some (record { size = 1; cell = λ i. 7 });
}

abbrev offset : ℕ → ℕ
offset v = if v == 0 then 7 else v

abbrev function_symbol : Sym
function_symbol = record { hash = 1; segment = some codeseg; name = codes "f"; value = 0 }

abbrev local_symbol : Sym
local_symbol = record { hash = 2; segment = some codeseg; name = codes "$1_0"; value = 3 }

abbrev data_symbol : Sym
data_symbol = record { hash = 3; segment = some dataseg; name = codes "d"; value = 260 }

abbrev mapped_asm : Asm
mapped_asm = record (initial 16) {
  store = function_symbol ∷ local_symbol ∷ data_symbol ∷ [];
  symbols = 2 ∷ 0 ∷ 1 ∷ [];
}

map_text :
    write_map_file mapped_asm ≡ codes "0        0 f" ++ newline ++ codes "1      104 d" ++ newline
unfolding write_map_file
map_text = refl

-- ===== src/Examples/Defining.antt =====
-- Parts of q3asm/q3asm.c by themselves: a definition and its lookup, errors, a long line, an op code.
use q3vm.Base.{ℕ, zero, suc, ◌≡◌, refl, some, arith, false, List, [], ◌∷◌, length}
use q3vm.Base.Word.{add32}
use q3vm.Assembler.Ending.{assemble_lines-overlong}
use q3vm.Assembler.Hash.{hash_string, hash_from, bucket_of}
use q3vm.Assembler.Indexed.{IsIndexed}
use q3vm.Assembler.Indexed.Define.{lookup_symbol-define_symbol}
use q3vm.Assembler.Indexed.Keeps.{define_symbol-Keeps, same-Indexed}
use q3vm.Assembler.Indexed.Search.{initial-IsIndexed}
use q3vm.Assembler.OpTable.{search_op-op_named, op_named}
use q3vm.Assembler.Opcodes.{source_ops, op_buckets, search_op}
use q3vm.Assembler.Passes.{initial, assemble_lines}
use q3vm.Assembler.Paths.{reverse_onto, image_name, has_extension}
use q3vm.Assembler.Run.{Run, ok, unfinished}
use q3vm.Assembler.State.{segment_of, Asm, dataseg}
use q3vm.Assembler.Symbols.{define_symbol, lookup_symbol}
use q3vm.Assembler.Text.{codes, split_line}
use q3vm.Examples.Assembling.{state_of}

-- A symbol of the data segment, defined in the first pass and looked up in the second.
abbrev before : Asm
before = record (initial 16) { current_segment = some dataseg }

abbrev defining : Run (Unit {0} × Asm)
defining = define_symbol (codes "x") 12 before

abbrev defined : Asm
defined = state_of defining

defining-ok : defining ≡ ok (tt, defined)
unfolding define_symbol
defining-ok = refl

before-IsIndexed : IsIndexed before
before-IsIndexed = same-Indexed (initial 16) before (refl, refl, refl) (initial-IsIndexed 16)

abbrev looking : Asm
looking = record defined { pass_number = 1 }

looking-IsIndexed : IsIndexed looking
looking-IsIndexed =
    same-Indexed defined looking (refl, refl, refl)
      (define_symbol-Keeps (codes "x") 12 before tt defined defining-ok before-IsIndexed)

lookup_symbol-define_symbol_example :
    lookup_symbol (codes "x") looking
    ≡ ok (add32 (segment_of dataseg looking).segment_base 12, looking)
lookup_symbol-define_symbol_example =
    lookup_symbol-define_symbol (codes "x") 12 dataseg before defined looking [] before-IsIndexed
      refl refl defining-ok (unfold define_symbol in refl) looking-IsIndexed refl
      (unfold define_symbol in refl) (unfold define_symbol in refl) (unfold define_symbol in refl)

-- A line of 1024 letters.
abbrev letters : ℕ → List ℕ
letters zero = []
letters (suc n) = 97 ∷ letters n

split_line-letters : (n : ℕ) → length (split_line (letters n)).0 ≡ n
unfolding split_line
split_line-letters zero = refl
split_line-letters (suc n) = ground (arith, split_line-letters n)

assemble_lines-overlong_example : assemble_lines 5 (97 ∷ letters 1023) (initial 16) ≡ unfinished
assemble_lines-overlong_example =
    assemble_lines-overlong 5 97 (letters 1023) (initial 16)
      (omega (arith, split_line-letters (suc 1023)))

-- The name of an op code.
eqi4-bucket : bucket_of op_buckets (hash_string (codes "EQI4")) ≡ some 79
unfolding bucket_of hash_from
eqi4-bucket = refl

search_op-op_named_example : search_op (codes "EQI4") ≡ some (op_named (codes "EQI4") source_ops)
search_op-op_named_example = search_op-op_named (codes "EQI4") 79 eqi4-bucket

-- A file name without an extension.
no_extension : has_extension (reverse_onto [] (codes "game/cg")) ≡ false
unfolding has_extension reverse_onto
no_extension = refl

qvm_name : image_name (codes "game/cg.asm") (codes ".qvm") ≡ some (codes "game/cg.qvm")
unfolding image_name
qvm_name = refl

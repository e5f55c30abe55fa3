-- ===== src/Assembler/Opcodes.antt =====
-- The op codes of the assembler: the enumeration, the names of opstrings.h, and the hash table that
-- `InitTables` builds from them.
use q3vm.Base.{◌>>=◌, ℕ, Option, none, some, ◌==◌, ◌&&◌, if◌then◌else◌, List, [], ◌∷◌}
use q3vm.Assembler.Hash.{chain_add, hash_from, hash_string, bucket_of}
use q3vm.Assembler.Text.{text_eq, codes}
use q3vm.Opcode.{
  Opcode, undef, ignore, break, enter, leave, call, push, pop, const, local, jump, eq, ne, lti, lei,
  gti, gei, ltu, leu, gtu, geu, eqf, nef, ltf, lef, gtf, gef, load1, load2, load4, store1, store2,
  store4, arg, block_copy, sex8, sex16, negi, add, sub, divi, divu, modi, modu, muli, mulu, band,
  bor, bxor, bcom, lsh, rshi, rshu, negf, addf, subf, divf, mulf, cvif, cvfi,
}
use Prim.Native.String.{String}

-- `opcode_t` of q3asm/q3asm.c.
unfoldable pub number : Opcode → ℕ
number undef = 0
number ignore = 1
number break = 2
number enter = 3
number leave = 4
number call = 5
number push = 6
number pop = 7
number const = 8
number local = 9
number jump = 10
number eq = 11
number ne = 12
number lti = 13
number lei = 14
number gti = 15
number gei = 16
number ltu = 17
number leu = 18
number gtu = 19
number geu = 20
number eqf = 21
number nef = 22
number ltf = 23
number lef = 24
number gtf = 25
number gef = 26
number load1 = 27
number load2 = 28
number load4 = 29
number store1 = 30
number store2 = 31
number store4 = 32
number arg = 33
number block_copy = 34
number sex8 = 35
number sex16 = 36
number negi = 37
number add = 38
number sub = 39
number divi = 40
number divu = 41
number modi = 42
number modu = 43
number muli = 44
number mulu = 45
number band = 46
number bor = 47
number bxor = 48
number bcom = 49
number lsh = 50
number rshi = 51
number rshu = 52
number negf = 53
number addf = 54
number subf = 55
number divf = 56
number mulf = 57
number cvif = 58
number cvfi = 59

-- `sourceOps_t`, with its element of `opcodesHash`.
pub record SourceOp : Type 0 where
  pub op_name : List ℕ
  pub op_hash : ℕ
  pub opcode : Opcode

abbrev pub source_op : String → Opcode → SourceOp
source_op name op = record { op_name = codes name; op_hash = hash_string (codes name); opcode = op }

-- `sourceOps`.
abbrev pub source_ops : List SourceOp
source_ops =
    source_op "BREAK" break
    ∷ source_op "CNSTF4" const
    ∷ source_op "CNSTI4" const
    ∷ source_op "CNSTP4" const
    ∷ source_op "CNSTU4" const
    ∷ source_op "CNSTI2" const
    ∷ source_op "CNSTU2" const
    ∷ source_op "CNSTI1" const
    ∷ source_op "CNSTU1" const
    ∷ source_op "ASGNB" block_copy
    ∷ source_op "ASGNF4" store4
    ∷ source_op "ASGNI4" store4
    ∷ source_op "ASGNP4" store4
    ∷ source_op "ASGNU4" store4
    ∷ source_op "ASGNI2" store2
    ∷ source_op "ASGNU2" store2
    ∷ source_op "ASGNI1" store1
    ∷ source_op "ASGNU1" store1
    ∷ source_op "INDIRB" ignore
    ∷ source_op "INDIRF4" load4
    ∷ source_op "INDIRI4" load4
    ∷ source_op "INDIRP4" load4
    ∷ source_op "INDIRU4" load4
    ∷ source_op "INDIRI2" load2
    ∷ source_op "INDIRU2" load2
    ∷ source_op "INDIRI1" load1
    ∷ source_op "INDIRU1" load1
    ∷ source_op "CVFF4" undef
    ∷ source_op "CVFI4" cvfi
    ∷ source_op "CVIF4" cvif
    ∷ source_op "CVII4" sex8
    ∷ source_op "CVII1" ignore
    ∷ source_op "CVII2" ignore
    ∷ source_op "CVIU4" ignore
    ∷ source_op "CVPU4" ignore
    ∷ source_op "CVUI4" ignore
    ∷ source_op "CVUP4" ignore
    ∷ source_op "CVUU4" ignore
    ∷ source_op "CVUU1" ignore
    ∷ source_op "CVUU2" ignore
    ∷ source_op "NEGF4" negf
    ∷ source_op "NEGI4" negi
    ∷ source_op "ADDRGP4" const
    ∷ source_op "ADDF4" addf
    ∷ source_op "ADDI4" add
    ∷ source_op "ADDP4" add
    ∷ source_op "ADDP" add
    ∷ source_op "ADDU4" add
    ∷ source_op "SUBF4" subf
    ∷ source_op "SUBI4" sub
    ∷ source_op "SUBP4" sub
    ∷ source_op "SUBU4" sub
    ∷ source_op "LSHI4" lsh
    ∷ source_op "LSHU4" lsh
    ∷ source_op "MODI4" modi
    ∷ source_op "MODU4" modu
    ∷ source_op "RSHI4" rshi
    ∷ source_op "RSHU4" rshu
    ∷ source_op "BANDI4" band
    ∷ source_op "BANDU4" band
    ∷ source_op "BCOMI4" bcom
    ∷ source_op "BCOMU4" bcom
    ∷ source_op "BORI4" bor
    ∷ source_op "BORU4" bor
    ∷ source_op "BXORI4" bxor
    ∷ source_op "BXORU4" bxor
    ∷ source_op "DIVF4" divf
    ∷ source_op "DIVI4" divi
    ∷ source_op "DIVU4" divu
    ∷ source_op "MULF4" mulf
    ∷ source_op "MULI4" muli
    ∷ source_op "MULU4" mulu
    ∷ source_op "EQF4" eqf
    ∷ source_op "EQI4" eq
    ∷ source_op "EQU4" eq
    ∷ source_op "GEF4" gef
    ∷ source_op "GEI4" gei
    ∷ source_op "GEU4" geu
    ∷ source_op "GTF4" gtf
    ∷ source_op "GTI4" gti
    ∷ source_op "GTU4" gtu
    ∷ source_op "LEF4" lef
    ∷ source_op "LEI4" lei
    ∷ source_op "LEU4" leu
    ∷ source_op "LTF4" ltf
    ∷ source_op "LTI4" lti
    ∷ source_op "LTU4" ltu
    ∷ source_op "NEF4" nef
    ∷ source_op "NEI4" ne
    ∷ source_op "NEU4" ne
    ∷ source_op "JUMPV" jump
    ∷ source_op "LOADB4" undef
    ∷ source_op "LOADF4" undef
    ∷ source_op "LOADI4" undef
    ∷ source_op "LOADP4" undef
    ∷ source_op "LOADU4" undef
    ∷ []

-- The loop of `InitTables`.
unfoldable pub add_ops : ℕ → List SourceOp → (ℕ → List SourceOp) → Option (ℕ → List SourceOp)
unfolding bucket_of hash_from
add_ops buckets [] table = some table
add_ops buckets (op ∷ ops) table = do
  b ← bucket_of buckets op.op_hash
  add_ops buckets ops (chain_add b op table)

-- `InitTables`: `optable` has a hundred buckets.
abbrev pub op_buckets : ℕ
op_buckets = 100

unfoldable pub init_optable : Option (ℕ → List SourceOp)
unfolding add_ops
init_optable = add_ops op_buckets source_ops (λ b. [])

-- The walk along a chain of `optable`.
unfoldable pub find_op : ℕ → List ℕ → List SourceOp → Option SourceOp
unfolding text_eq
find_op hash token [] = none
find_op hash token (op ∷ chain) =
    if (hash == op.op_hash) && text_eq token op.op_name then some op else find_op hash token chain

-- "Opcode search using hash table".
unfoldable pub search_in : List ℕ → Option (ℕ → List SourceOp) → Option ℕ → Option (Option SourceOp)
unfolding find_op hash_from
search_in token table bucket = do
  t ← table
  b ← bucket
  some (find_op (hash_string token) token (t b))

unfoldable pub search_op : List ℕ → Option (Option SourceOp)
unfolding search_in init_optable bucket_of hash_from
search_op token = search_in token init_optable (bucket_of op_buckets (hash_string token))

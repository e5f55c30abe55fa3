-- ===== src/Prepare/Translate.antt =====
-- The second loop of `VM_PrepareInterpreter` turns the operands of the conditional jumps into
-- positions of the expanded code.
use q3vm.Base.{
  ℕ, zero, suc, ◌+◌, ◌^◌, ◌≤◌, ◌<◌, ◌≡◌, refl, ap, some, true, false, arith, ltb, if◌then◌else◌,
  ◌&&◌, Bool-cases, inl, inr,
}
use q3vm.Base.Word.{u32}
use q3vm.Memory.{Block, get, set, update}
use q3vm.Opcode.{Opcode, opcode_of, Operand, word, operand_of, is_branch, eq}
use q3vm.Prepare.{Expansion, going, translate_one, translate, skip_operand}
use q3vm.Prepare.Expand.{IsLaid, HasRoom}
use q3vm.Prepare.Layout.{
  int_start, int_start-suc, int_start_mono, int_start-le, IsCode, op_at, kind_at, value_at,
  branches_at, operand_ints,
}
use mathlib.Core.Path.{subst}

is_branch-word : (o : Opcode) → is_branch o ≡ true → operand_of o ≡ word
unfolding is_branch operand_of
is_branch-word eq h = refl
is_branch-word o h = ground arith

skip_operand-ints : (o : Operand) (p : ℕ) → skip_operand o p ≡ p + operand_ints o
skip_operand-ints Operand.nothing p = omega arith
skip_operand-ints Operand.byte p = refl
skip_operand-ints Operand.word p = refl

-- What the operand of instruction `j` is once the first `i` instructions are translated.
abbrev pub operand_after : Block → ℕ → ℕ → ℕ → ℕ
operand_after image from i j =
    if branches_at image from j && ltb j i
    then u32 (int_start image from (value_at image from j))
    else value_at image from j

-- The expanded code of `count` instructions, the first `i` of them translated.
pub record IsTranslated (image : Block) (from count size i : ℕ) (code : Block) : Type 0 where
  pub same_size : code.size ≡ size
  pub op : (j : ℕ) → j < count → code.cell (int_start image from j) ≡ op_at image from j
  pub operand :
      (j : ℕ)
      → j < count
      → operand_ints (kind_at image from j) ≡ 1
      → code.cell (int_start image from j + 1) ≡ operand_after image from i j

-- Every conditional jump names an instruction.
abbrev pub TargetsExist : Block → ℕ → ℕ → Type 0
TargetsExist image from count =
    (j : ℕ) → j < count → branches_at image from j ≡ true → value_at image from j < count

-- One instruction of which the op code is known.
module _ (pointers : Block) (count p op : ℕ) (code : Block) (o : Opcode) (found : code.cell p ≡ op)
    (inside_code : p + 1 + operand_ints (operand_of o) ≤ code.size)
    (known : opcode_of op ≡ some o) where
  translate_one-plain :
      is_branch o ≡ false
      → translate_one pointers count (code, p)
        ≡ some (going (code, p + 1 + operand_ints (operand_of o)))
  unfolding translate_one get
  translate_one-plain plain = ground (arith, skip_operand-ints (operand_of o) (p + 1))

  translate_one-branch :
      (o_target start : ℕ)
      → is_branch o ≡ true
      → count < 2 ^ 31
      → code.cell (p + 1) ≡ o_target
      → o_target < count
      → o_target < pointers.size
      → pointers.cell o_target ≡ start
      → translate_one pointers count (code, p)
        ≡ some (going (record code { cell = update code.cell (p + 1) (u32 start) }, p + 1 + 1))
  unfolding translate_one get set
  translate_one-branch o_target start branch few value exists in_table entry =
      ground (arith, ap operand_ints (is_branch-word o branch))

module _ (image : Block) (from code_length count : ℕ) (c : IsCode image from code_length count)
    (few : count < 2 ^ 31) (x : Expansion) (laid : IsLaid image from count x)
    (room : HasRoom code_length count x) (targets : TargetsExist image from count) where
  abbrev Translated : ℕ → Block → Type 0
  Translated = IsTranslated image from count x.code.size

  in_code : (i : ℕ) → i < count → int_start image from (suc i) ≤ x.code.size
  in_code i lt =
      let ends = c.ends in
      omega (
        arith,
        int_start_mono image from (suc i) count lt,
        int_start-le image from count,
        room.code,
      )

  apart :
      (i j : ℕ)
      → j < i
      → int_start image from j + 1 + operand_ints (kind_at image from j) ≤ int_start image from i
  apart i j h = omega (arith, int_start_mono image from (suc j) i h, int_start-suc image from j)

  -- The instruction is no conditional jump.
  step_plain :
      (i : ℕ) (code : Block) (o : Opcode)
      → i < count
      → Translated i code
      → opcode_of (op_at image from i) ≡ some o
      → is_branch o ≡ false
      → (translate_one x.pointers count (code, int_start image from i)
          ≡ some (going (code, int_start image from (suc i))))
        × Translated (suc i) code
  step_plain i code o lt t known plain =
      let kind : kind_at image from i ≡ operand_of o = rw known in
      let next = int_start-suc image from i in
      let no_branch : branches_at image from i ≡ false = rw known plain in
      let ints : operand_ints (kind_at image from i) ≡ operand_ints (operand_of o) =
        ap operand_ints kind in
      (
        ground (
          arith,
          translate_one-plain x.pointers count (int_start image from i) (op_at image from i) code o
              (t.op i lt) (omega (arith, in_code i lt, t.same_size)) known plain,
        ),
        record {
          same_size = t.same_size;
          op = t.op;
          operand = λ j h e. ground (arith, t.operand j, no_branch);
        },
      )

  abbrev retargeted : ℕ → Block → Block
  retargeted i code = record code {
    cell =
        update code.cell (int_start image from i + 1)
          (u32 (int_start image from (value_at image from i)));
  }

  step_branch :
      (i : ℕ) (code : Block) (o : Opcode)
      → i < count
      → Translated i code
      → opcode_of (op_at image from i) ≡ some o
      → is_branch o ≡ true
      → (translate_one x.pointers count (code, int_start image from i)
          ≡ some (going (retargeted i code, int_start image from (suc i))))
        × Translated (suc i) (retargeted i code)
  step_branch i code o lt t known branch =
      let kind : kind_at image from i ≡ word = rw known (is_branch-word o branch) in
      let kind' : operand_ints (operand_of o) ≡ 1 = ap operand_ints (is_branch-word o branch) in
      let next = int_start-suc image from i in
      let is_jump : branches_at image from i ≡ true = rw known branch in
      let ints : operand_ints (kind_at image from i) ≡ 1 = ap operand_ints kind in
      let target = targets i lt is_jump in
      (
        ground (
          arith,
          translate_one-branch x.pointers count (int_start image from i) (op_at image from i) code o
              (t.op i lt) (omega (arith, in_code i lt, t.same_size)) known (value_at image from i)
              (int_start image from (value_at image from i)) branch few
              (ground (arith, t.operand i lt ints)) target (omega (arith, room.pointers))
              (laid.table _ target),
        ),
        record {
          same_size = t.same_size;
          op = λ j h. ground (arith, t.op j, apart i j, apart j i);
          operand = λ j h e. ground (arith, t.operand j, apart i j, apart j i, is_jump);
        },
      )

  step :
      (i : ℕ) (code : Block)
      → i < count
      → Translated i code
      → (after : Block) × (translate_one x.pointers count (code, int_start image from i)
          ≡ some (going (after, int_start image from (suc i))))
        × Translated (suc i) after
  step i code lt t =
      let (o, known) = c.known i lt in
      elim (Bool-cases (is_branch o)) [
        | inr plain ↦ let (run, done) = step_plain i code o lt t known plain in (code, run, done)
        | inl branch ↦
            let (run, done) = step_branch i code o lt t known branch in
            (retargeted i code, run, done)
      ]

  translate-from :
      (left i : ℕ) (code : Block)
      → i + left ≡ count
      → Translated i code
      → (code' : Block) × (translate x.pointers count left (code, int_start image from i)
          ≡ some (going (code', int_start image from count)))
        × Translated count code'
  unfolding translate
  translate-from zero i code e t =
      let i_is : i ≡ count = omega arith in
      (
        code,
        ap (λ (n : ℕ). some (going (code, int_start image from n))) i_is,
        subst (λ n. Translated n code) i_is t,
      )
  translate-from (suc left) i code e t =
      let (after, run, t') = step i code (omega arith) t in
      let (code', rest, done) = translate-from left (suc i) after (omega arith) t' in
      (code', rw run rest, done)

  -- If every conditional jump names an instruction, the second loop neither stops nor leaves an
  -- array; it replaces those operands, and no other word, by the start of the instruction named.
  pub translate-IsTranslated :
      (code' : Block) × (translate x.pointers count count (x.code, 0)
        ≡ some (going (code', int_start image from count)))
      × IsTranslated image from count x.code.size count code'
  unfolding int_start
  translate-IsTranslated =
      translate-from count 0 x.code (omega arith) (record {
        same_size = refl;
        op = laid.op;
        operand = λ j h e. ground (arith, laid.operand j);
      })

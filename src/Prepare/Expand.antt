-- ===== src/Prepare/Expand.antt =====
-- The first loop of `VM_PrepareInterpreter` lays the code out as `Layout` describes it.
use q3vm.Base.{ℕ, zero, suc, ◌+◌, ◌≤◌, ◌<◌, ◌≡◌, refl, Option, none, some, arith, ◌∙◌}
use q3vm.Memory.{Block, get, set, read4, update}
use q3vm.Opcode.{Opcode, opcode_of, Operand, nothing, byte, word, operand_of}
use q3vm.Prepare.{Expansion, going, expand_operand, expand_known, expand_one, expand, advance}
use q3vm.Prepare.Layout.{
  byte_start, int_start, byte_start-suc, int_start-suc, byte_start_mono, int_start_mono,
  int_start-le, IsCode, op_at, kind_at, value_at, operand_bytes, operand_ints, operand_value,
  known_operand,
}
use mathlib.Core.Path.{subst}
use native.Mathlib.Numerals.{add-one}

-- After `i` rounds: the counters, and the instructions that are laid out.
pub record IsLaid (image : Block) (from i : ℕ) (x : Expansion) : Type 0 where
  pub bytes : x.byte_pc ≡ byte_start image from i
  pub ints : x.int_pc ≡ int_start image from i
  pub table : (j : ℕ) → j < i → x.pointers.cell j ≡ int_start image from j
  pub op : (j : ℕ) → j < i → x.code.cell (int_start image from j) ≡ op_at image from j
  pub operand :
      (j : ℕ)
      → j < i
      → operand_ints (kind_at image from j) ≡ 1
      → x.code.cell (int_start image from j + 1) ≡ value_at image from j

-- The arrays are large enough for `count` instructions.
pub record HasRoom (code_length count : ℕ) (x : Expansion) : Type 0 where
  pub code : code_length ≤ x.code.size
  pub pointers : count ≤ x.pointers.size

-- The operand is read from behind the op code and stored behind it.
pub stored : Block → ℕ → Operand → Expansion → Expansion
stored image from nothing x = x
stored image from o x = record x {
  byte_pc = x.byte_pc + operand_bytes o;
  int_pc = x.int_pc + 1;
  code = record x.code {
    cell = update x.code.cell x.int_pc (operand_value image (from + x.byte_pc) o);
  };
}

expand_operand-stored :
    (image : Block) (from : ℕ) (o : Operand) (x : Expansion)
    → from + x.byte_pc + operand_bytes o ≤ image.size
    → x.int_pc + operand_ints o ≤ x.code.size
    → expand_operand image from o x ≡ some (going (stored image from o x))
unfolding expand_operand stored get set read4
expand_operand-stored image from nothing x h k = refl
expand_operand-stored image from byte x h k = ground arith
expand_operand-stored image from word x h k = ground arith

-- The expansion after one more instruction.
abbrev opened : ℕ → ℕ → Expansion → Expansion
opened i op x = record x {
  code = record x.code { cell = update x.code.cell x.int_pc op };
  pointers = record x.pointers { cell = update x.pointers.cell i x.int_pc };
}

-- What `stored` does, member by member.
pub record StoredAt (image : Block) (from : ℕ) (o : Operand) (x y : Expansion) : Type 0 where
  pub bytes : y.byte_pc ≡ x.byte_pc + operand_bytes o
  pub ints : y.int_pc ≡ x.int_pc + operand_ints o
  pub pointers : y.pointers ≡ x.pointers
  pub size : y.code.size ≡ x.code.size
  pub value : operand_ints o ≡ 1 → y.code.cell x.int_pc ≡ operand_value image (from + x.byte_pc) o
  pub others : (q : ℕ) → q < x.int_pc → y.code.cell q ≡ x.code.cell q

stored-StoredAt :
    (image : Block) (from : ℕ) (o : Operand) (x : Expansion)
    → StoredAt image from o x (stored image from o x)
unfolding stored
stored-StoredAt image from nothing x = record {
  bytes = omega arith;
  ints = omega arith;
  pointers = refl;
  size = refl;
  value = λ e. absurd (omega arith);
  others = λ q h. refl;
}
stored-StoredAt image from byte x = record {
  bytes = refl;
  ints = refl;
  pointers = refl;
  size = refl;
  value = λ e. ground arith;
  others = λ q h. ground arith;
}
stored-StoredAt image from word x = record {
  bytes = refl;
  ints = refl;
  pointers = refl;
  size = refl;
  value = λ e. ground arith;
  others = λ q h. ground arith;
}

expand_known-stored :
    (image : Block) (from : ℕ) (k : Option Opcode) (o : Opcode) (x : Expansion)
    → k ≡ some o
    → from + x.byte_pc + operand_bytes (known_operand k) ≤ image.size
    → x.int_pc + operand_ints (known_operand k) ≤ x.code.size
    → expand_known image from k x ≡ some (going (stored image from (known_operand k) x))
expand_known-stored image from none o x e h1 h2 = cc
expand_known-stored image from (some o) _ x e h1 h2 =
    expand_operand-stored image from (operand_of o) x h1 h2

expand_one-opened :
    (image : Block) (from code_length i op : ℕ) (x : Expansion)
    → image.cell (from + x.byte_pc) ≡ op
    → i < x.pointers.size
    → from + x.byte_pc < image.size
    → x.int_pc < x.code.size
    → x.byte_pc ≤ code_length
    → expand_one image from code_length i x
      ≡ expand_known image from (opcode_of op) (advance (opened i op x))
unfolding expand_one get set
expand_one-opened image from code_length i op x e h1 h2 h3 h4 = ground arith

module _ (image : Block) (from code_length count : ℕ)
    (c : IsCode image from code_length count) where
  abbrev after_one : ℕ → Expansion → Expansion
  after_one i x =
      stored image from (kind_at image from i) (advance (opened i (op_at image from i) x))

  expand_one-after :
      (i : ℕ) (x : Expansion)
      → i < count
      → IsLaid image from i x
      → HasRoom code_length count x
      → expand_one image from code_length i x ≡ some (going (after_one i x))
  expand_one-after i x lt laid room =
      let (o, known) = c.known i lt in
      let next = byte_start_mono image from (suc i) count lt in
      let here = byte_start-suc image from i in
      let here_ints = int_start-suc image from i in
      let below = int_start-le image from i in
      let below_next = int_start-le image from (suc i) in
      let ends = c.ends in
      let in_file = c.in_file in
      let y = advance (opened i (op_at image from i) x) in
      expand_one-opened image from code_length i (op_at image from i) x (rw laid.bytes)
        (omega (arith, room.pointers)) (omega (arith, laid.bytes))
        (omega (arith, laid.ints, room.code)) (omega (arith, laid.bytes))
      ∙ expand_known-stored image from (opcode_of (op_at image from i)) o y known
          (omega (arith, laid.bytes)) (omega (arith, laid.ints, room.code))

  after_one-StoredAt :
      (i : ℕ) (x : Expansion)
      → StoredAt image from
          (kind_at image from i)
          (advance (opened i (op_at image from i) x))
          (after_one i x)
  after_one-StoredAt i x = stored-StoredAt image from (kind_at image from i) _

  int_start_before :
      (i j : ℕ)
      → j < i
      → int_start image from j + 1 + operand_ints (kind_at image from j) ≤ int_start image from i
  int_start_before i j h =
      omega (arith, int_start_mono image from (suc j) i h, int_start-suc image from j)

  after_one-IsLaid :
      (i : ℕ) (x : Expansion) → IsLaid image from i x → IsLaid image from (suc i) (after_one i x)
  after_one-IsLaid i x laid =
      let st = after_one-StoredAt i x in
      let here = byte_start-suc image from i in
      let here_ints = int_start-suc image from i in
      let old_bytes = laid.bytes in
      let old_ints = laid.ints in
      record {
        bytes = omega (arith, st.bytes);
        ints = omega (arith, st.ints);
        table = λ j h. ground (arith, laid.table j, st.pointers);
        op = λ j h.
            ground (arith, laid.op j, int_start_before i j, st.others (int_start image from j));
        operand = λ j h e. ground (
          arith,
          laid.operand j,
          int_start_before i j,
          st.others (int_start image from j + 1),
          st.value,
        );
      }

  after_one-HasRoom :
      (i : ℕ) (x : Expansion)
      → HasRoom code_length count x
      → HasRoom code_length count (after_one i x)
  after_one-HasRoom i x room =
      let st = after_one-StoredAt i x in
      record { code = omega (arith, st.size, room.code); pointers = rw st.pointers room.pointers }

  expand-from :
      (left i : ℕ) (x : Expansion)
      → i + left ≡ count
      → IsLaid image from i x
      → HasRoom code_length count x
      → (y : Expansion) × (expand image from code_length left i x ≡ some (going y))
        × IsLaid image from count y
        × HasRoom code_length count y
  unfolding expand
  expand-from zero i x e laid room =
      let i_is : i ≡ count = omega arith in
      (x, refl, subst (λ n. IsLaid image from n x) i_is laid, room)
  expand-from (suc left) i x e laid room =
      let laid' : IsLaid image from (i + 1) (after_one i x) =
        rw add-one (after_one-IsLaid i x laid) in
      let (y, run, laid_y, room_y) =
        expand-from left (i + 1) (after_one i x) (omega arith) laid' (after_one-HasRoom i x room) in
      (y, rw (expand_one-after i x (omega arith) laid room) run, laid_y, room_y)

  -- From the start of well-formed byte code the first loop neither stops nor leaves an array. It
  -- lays out every instruction, fills the instruction table, and needs no more words than there
  -- are bytes.
  pub expand-IsLaid :
      (code pointers : Block)
      → code_length ≤ code.size
      → count ≤ pointers.size
      → (y : Expansion) × (expand image from code_length count 0
            (record { byte_pc = 0; int_pc = 0; code = code; pointers = pointers })
          ≡ some (going y))
        × IsLaid image from count y
        × HasRoom code_length count y
  unfolding byte_start int_start
  expand-IsLaid code pointers hc hp =
      expand-from count 0 _ (omega arith)
        (record {
          bytes = refl;
          ints = refl;
          table = λ j h. absurd (omega arith);
          op = λ j h. absurd (omega arith);
          operand = λ j h e. absurd (omega arith);
        })
        (record { code = hc; pointers = hp })

-- ===== src/Assembler/State.antt =====
-- The globals of the assembler: segments, symbols, the place in the source, counters.
use q3vm.Base.{ℕ, ◌+◌, ◌-◌, ◌%◌, Option, Bool, true, false, ◌==◌, if◌then◌else◌, List, [], ◌∷◌}
use q3vm.Base.Word.{is_neg, add32, sle}
use q3vm.Assembler.Run.{pure, ◌>>=◌, faulted, exited, ok, Act}
use q3vm.Assembler.Text.{atoi_no_cap, split_token, skip_white}
use q3vm.Image.{vm_max_image_size}
use q3vm.Memory.{bytes4, update}

-- `segmentName_t`.
pub data SegmentName : Type 0 where
  codeseg dataseg litseg bssseg jtrgseg : SegmentName

-- `segment_t`.
pub record Segment : Type 0 where
  pub image : ℕ → ℕ
  pub image_used : ℕ
  pub segment_base : ℕ

abbrev pub empty_segment : Segment
empty_segment = record { image = λ q. 0; image_used = 0; segment_base = 0 }

-- `symbol_t`. A pointer to one is its number in the order of allocation; `segment` may be `NULL`.
pub record Sym : Type 0 where
  pub hash : ℕ
  pub segment : Option SegmentName
  pub name : List ℕ
  pub value : ℕ

-- The globals. `store` holds the symbols, `symbols` the linked list that starts there and ends at
-- `lastSymbol`, `table` the chains of `symtable`. `rest` is `lineBuffer` from `lineParseOffset` on.
pub record Asm : Type 0 where
  pub code : Segment
  pub data_ : Segment
  pub lit : Segment
  pub bss : Segment
  pub jtrg : Segment
  pub current_segment : Option SegmentName
  pub pass_number : ℕ
  pub error_count : ℕ
  pub store : List Sym
  pub symbols : List ℕ
  pub last_symbol : Option ℕ
  pub buckets : ℕ
  pub table : ℕ → List ℕ
  pub current_file_index : ℕ
  pub current_file_line : ℕ
  pub rest : List ℕ
  pub token : List ℕ
  pub current_locals : ℕ
  pub current_args : ℕ
  pub current_arg_offset : ℕ
  pub instruction_count : ℕ

abbrev pub Action : Type 0 → Type 0
Action A = Act Asm A

unfoldable pub segment_of : SegmentName → Asm → Segment
segment_of codeseg s = s.code
segment_of dataseg s = s.data_
segment_of litseg s = s.lit
segment_of bssseg s = s.bss
segment_of jtrgseg s = s.jtrg

unfoldable pub with_segment : SegmentName → Segment → Asm → Asm
with_segment codeseg g s = record s { code = g }
with_segment dataseg g s = record s { data_ = g }
with_segment litseg g s = record s { lit = g }
with_segment bssseg g s = record s { bss = g }
with_segment jtrgseg g s = record s { jtrg = g }

abbrev pub same_segment : SegmentName → SegmentName → Bool
same_segment codeseg codeseg = true
same_segment dataseg dataseg = true
same_segment litseg litseg = true
same_segment bssseg bssseg = true
same_segment jtrgseg jtrgseg = true
same_segment _ _ = false

-- `CodeError`. The count does not wrap: a run of 2 ^ 32 errors is not looked at.
unfoldable pub code_error : Action (Unit {0})
code_error s = ok (tt, record s { error_count = s.error_count + 1 })

-- `EmitByte`, with what happens where `imageUsed` has become negative.
unfoldable pub emit_byte : SegmentName → ℕ → Action (Unit {0})
unfolding segment_of with_segment
emit_byte name v s =
    let g = segment_of name s in
    if sle vm_max_image_size g.image_used
    then exited
    else if is_neg g.image_used
    then faulted
    else ok (
      tt,
      with_segment name
          (record g {
            image = update g.image g.image_used (v % 256);
            image_used = add32 g.image_used 1;
          })
          s,
    )

-- `EmitInt`.
unfoldable pub emit_int : SegmentName → ℕ → Action (Unit {0})
unfolding segment_of with_segment
emit_int name v s =
    let g = segment_of name s in
    if sle (vm_max_image_size - 4) g.image_used
    then exited
    else if is_neg g.image_used
    then faulted
    else ok (
      tt,
      with_segment name
          (record g { image = bytes4 g.image g.image_used v; image_used = add32 g.image_used 4 }) s,
    )

-- `instructionCount++`.
unfoldable pub count_instruction : Action (Unit {0})
count_instruction s = ok (tt, record s { instruction_count = add32 s.instruction_count 1 })

-- `Parse`: the next token of the line; empty at its end and at a comment.
abbrev pub at_end : List ℕ → Bool
at_end [] = true
at_end (c ∷ rest) = c == 59

abbrev pub take_token : List ℕ → Asm → Asm
take_token text s =
    let (token, after) = split_token text in
    if at_end text
    then record s { token = []; rest = text }
    else record s { token = token; rest = after }

unfoldable pub parse : Action (List ℕ)
unfolding skip_white split_token
parse s = let s' = take_token (skip_white s.rest) s in ok (s'.token, s')

-- `ParseValue`.
unfoldable pub parse_value : Action ℕ
unfolding parse atoi_no_cap ◌>>=◌
parse_value = do t ← parse; pure (atoi_no_cap t)

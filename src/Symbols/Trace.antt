-- ===== src/Symbols/Trace.antt =====
-- What a debug build prints of a machine (src/vm/vm.c under DEBUG_VM): `VM_ValueToSymbol`,
-- `VM_Indent` and `VM_StackTrace`.
use q3vm.Base.{
  ℕ, zero, suc, ◌+◌, ◌-◌, ◌*◌, ◌^◌, ◌≤◌, ◌≡◌, refl, arith, Option, none, some, Bool, true, false,
  ◌==◌, List, [], ◌∷◌, ◌++◌, length, if◌then◌else◌, ◌>>=◌,
}
use q3vm.Base.Word.{u32, sub32, is_neg, slt}
use q3vm.Assembler.Text.{codes, decimal, decimal_text}
use q3vm.Create.{take}
use q3vm.Memory.{Block, read4}
use q3vm.State.{Vm}
use q3vm.Symbols.{Symbol, symbol_from, max_token_chars}

-- `%i` of an int.
abbrev pub signed_text : ℕ → List ℕ
signed_text n = if is_neg n then 45 ∷ decimal (2 ^ 32 - n) else decimal n

-- `snprintf(text, sizeof(text), "%s+%i", ...)`.
abbrev pub offset_text : Symbol → ℕ → List ℕ
offset_text sym value =
    take (max_token_chars - 1) (sym.sym_name ++ 43 ∷ signed_text (sub32 value sym.sym_value))

abbrev pub symbol_text : Symbol → ℕ → List ℕ
symbol_text sym value = if value == sym.sym_value then sym.sym_name else offset_text sym value

-- `VM_ValueToSymbol`.
unfoldable pub value_to_symbol : List Symbol → ℕ → List ℕ
unfolding symbol_from decimal_text
value_to_symbol [] value = codes "NO SYMBOLS"
value_to_symbol (sym ∷ rest) value = symbol_text (symbol_from sym rest value) value

-- `VM_Indent`: the end of a text of 40 spaces. A negative level points behind the text.
unfoldable pub spaces : ℕ → List ℕ
spaces zero = []
spaces (suc n) = 32 ∷ spaces n

unfoldable pub vm_indent : Vm → Option (List ℕ)
unfolding spaces
vm_indent vm =
    if slt 20 vm.call_level
    then some (spaces 40)
    else if is_neg vm.call_level
    then none
    else some (spaces (40 - 2 * (20 - vm.call_level)))

-- The two reads of a round: the frame of the caller, and where it goes on.
unfoldable pub caller : Block → ℕ → Option (ℕ × ℕ)
unfolding read4
caller data_ program_stack = do
  frame ← read4 data_ (u32 (program_stack + 4))
  counter ← read4 data_ frame
  some (counter, frame)

-- The loop of `VM_StackTrace`, with the rounds that `++count < 32` still allows behind this one.
unfoldable pub trace_lines : ℕ → List Symbol → Block → ℕ → ℕ → Option (List (List ℕ))
unfolding value_to_symbol caller
trace_lines zero symbols data_ counter stack = do
  (next, frame) ← caller data_ stack
  some (value_to_symbol symbols counter ∷ [])
trace_lines (suc more) symbols data_ counter stack = do
  (next, frame) ← caller data_ stack
  elim (next == 2 ^ 32 - 1) [
    | true ↦ some (value_to_symbol symbols counter ∷ [])
    | false ↦ (do
      lines ← trace_lines more symbols data_ next frame
      some (value_to_symbol symbols counter ∷ lines))
  ]

unfoldable pub stack_trace : List Symbol → Block → ℕ → ℕ → Option (List (List ℕ))
unfolding trace_lines
stack_trace symbols data_ counter stack = trace_lines 31 symbols data_ counter stack

-- The program counters of a chain of frames, from the innermost on. The chain ends at a frame that
-- was entered from the host, whose return address is -1.
data Chain (data_ : Block) : ℕ → ℕ → List ℕ → Type 0 where
  outermost :
      (counter stack frame : ℕ)
      → caller data_ stack ≡ some (2 ^ 32 - 1, frame)
      → Chain data_ counter stack (counter ∷ [])
  called :
      (counter stack next frame : ℕ) (counters : List ℕ)
      → caller data_ stack ≡ some (next, frame)
      → (next == 2 ^ 32 - 1) ≡ false
      → Chain data_ next frame counters
      → Chain data_ counter stack (counter ∷ counters)

abbrev trace_of : List Symbol → List ℕ → List (List ℕ)
trace_of symbols [] = []
trace_of symbols (counter ∷ counters) = value_to_symbol symbols counter ∷ trace_of symbols counters

Chain-length :
    (data_ : Block) (counter stack : ℕ) (counters : List ℕ)
    → Chain data_ counter stack counters
    → 1 ≤ length counters
Chain-length data_ _ _ _ (outermost _ _ frame e) = omega arith
Chain-length data_ _ _ _ (called _ _ next frame counters e n chain) = omega arith

-- A round whose caller is not the host.
another_line :
    (line : List ℕ) (at_host : Bool)
    → at_host ≡ false
    → (behind : Option (List (List ℕ))) (lines : List (List ℕ)) → behind ≡ some lines
    → elim at_host as (λ b. Option (List (List ℕ))) [
      | true ↦ some (line ∷ [])
      | false ↦ (do rest ← behind; some (line ∷ rest))
    ]
      ≡ some (line ∷ lines)
another_line line at_host h behind lines e = rw (h, e) refl

trace_lines-trace_of :
    (more : ℕ) (symbols : List Symbol) (data_ : Block) (counter stack : ℕ) (counters : List ℕ)
    → Chain data_ counter stack counters
    → length counters ≤ suc more
    → trace_lines more symbols data_ counter stack ≡ some (trace_of symbols counters)
unfolding trace_lines
trace_lines-trace_of zero symbols data_ counter stack _ (outermost _ _ frame e) le = rw e refl
trace_lines-trace_of (suc more) symbols data_ counter stack _ (outermost _ _ frame e) le = rw e refl
trace_lines-trace_of zero symbols data_ counter stack _ (called _ _ next frame counters e n chain)
      le =
    absurd (omega (arith, le, Chain-length data_ next frame counters chain))
trace_lines-trace_of (suc more) symbols data_ counter stack _
      (called _ _ next frame counters e n chain) le =
    rw e (
      another_line (value_to_symbol symbols counter) (next == 2 ^ 32 - 1) n _ _
        (trace_lines-trace_of more symbols data_ next frame counters chain (omega (arith, le))))

-- If the frames make a chain of at most 32 up to the host, the stack trace prints the symbol of
-- each program counter of the chain, from the innermost frame on.
stack_trace-trace_of :
    (symbols : List Symbol) (data_ : Block) (counter stack : ℕ) (counters : List ℕ)
    → Chain data_ counter stack counters
    → length counters ≤ 32
    → stack_trace symbols data_ counter stack ≡ some (trace_of symbols counters)
unfolding stack_trace
stack_trace-trace_of symbols data_ counter stack counters chain le =
    trace_lines-trace_of 31 symbols data_ counter stack counters chain le

-- ===== src/Assembler/Closed.antt =====
-- Predicates on the actions of q3asm/q3asm.c that hold of the whole if they hold of the parts.
pub mod Clauses
pub mod Line
pub mod Passes
use q3vm.Base.{
  ℕ, zero, suc, ap, ◌+◌, ◌-◌, ◌*◌, ◌/◌, ◌%◌, ◌^◌, ◌≤◌, ◌<◌, ◌≡◌, refl, ◌∙◌, Option, none, some,
  arith, Bool, true, false, not, ltb, leb, ◌==◌, ◌&&◌, ◌||◌, if◌then◌else◌, List, [], ◌∷◌, length,
  ◌⊎◌, inl, inr, Bool-cases, Option-cases, get_elem?, ◌++◌, ◌↔◌, ◌≢◌, sym, map, bit_and,
}
use q3vm.Assembler.Directives.{set_segment, set_used, current_name, emit_target}
use q3vm.Assembler.Line.{Test}
use q3vm.Assembler.Run.{modify, crash, gets, pure, ◌>>=◌}
use q3vm.Assembler.State.{
  parse, emit_int, emit_byte, SegmentName, count_instruction, code_error, Asm, Action,
}
use q3vm.Assembler.Symbols.{lookup_symbol, define_symbol, hack_to_segment}

-- The predicate holds of what the clauses call, and of one action behind another.
pub record Closed (P : (A : Type 0) → Action A → Type 0) : Type 1 where
  pub chain :
      (A B : Type 0) (m : Action A) (k : A → Action B)
      → P A m
      → ((a : A) → P B (k a))
      → P B (m >>= k)
  pub pure_ : (A : Type 0) (a : A) → P A (pure a)
  pub gets_ : (A : Type 0) (f : Asm → A) → P A (gets f)
  pub crash_ : (A : Type 0) → P A crash
  pub error : P (Unit {0}) code_error
  pub count : P (Unit {0}) count_instruction
  pub byte : (name : SegmentName) (v : ℕ) → P (Unit {0}) (emit_byte name v)
  pub int : (name : SegmentName) (v : ℕ) → P (Unit {0}) (emit_int name v)
  pub target : (v : ℕ) → P (Unit {0}) (emit_target v)
  pub token : P (List ℕ) parse
  pub name : P SegmentName current_name
  pub used : (f : ℕ → ℕ) (name : SegmentName) → P (Unit {0}) (set_used f name)
  pub select : (name : SegmentName) → P (Unit {0}) (set_segment name)
  pub hack : (name : SegmentName) → P (Unit {0}) (hack_to_segment name)
  pub offset : (n : ℕ) → P (Unit {0}) (modify (λ s. record s { current_arg_offset = n }))
  pub locals : (n : ℕ) → P (Unit {0}) (modify (λ s. record s { current_locals = n }))
  pub args : (n : ℕ) → P (Unit {0}) (modify (λ s. record s { current_args = n }))
  pub define : (name : List ℕ) (v : ℕ) → P (Unit {0}) (define_symbol name v)
  pub lookup : (name : List ℕ) → P ℕ (lookup_symbol name)

pub choice :
    (P : (A : Type 0) → Action A → Type 0) (A : Type 0) (c : Bool) {m k : Action A}
    → P A m
    → P A k
    → P A (if c then m else k)
choice P A true h i = h
choice P A false h i = i

-- A predicate that holds of the body of every clause.
infixr 5 ◌⊗◌
pub data AllHave (Q : Action (Unit {0}) → Type 0) : List (Test × Action (Unit {0})) → Type 0 where
  none_left : AllHave Q []
  ◌⊗◌ :
      {test : Test} {body : Action (Unit {0})} {rest : List (Test × Action (Unit {0}))}
      → Q body
      → AllHave Q rest
      → AllHave Q ((test, body) ∷ rest)

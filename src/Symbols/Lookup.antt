-- ===== src/Symbols/Lookup.antt =====
-- `VM_ValueToFunctionSymbol` of src/vm/vm.c on symbols in ascending order.
use q3vm.Base.{refl, ap, ◌++◌, ℕ, ◌≡◌, arith, true, false, List, [], ◌∷◌, inl, inr, Bool-cases}
use q3vm.Base.Word.{sle}
use q3vm.Symbols.{Symbol, symbol_from, value_to_function_symbol}
use mathlib.Core.Path.{subst}

-- The values of the symbols ascend from the one of `sym` on.
abbrev pub Ascends : Symbol → List Symbol → Type 0
Ascends sym [] = Unit
Ascends sym (next ∷ rest) = (sle sym.sym_value next.sym_value ≡ true) × Ascends next rest

-- All of the symbols start behind the value.
abbrev pub AllBehind : ℕ → List Symbol → Type 0
AllBehind value [] = Unit
AllBehind value (s ∷ rest) = (sle s.sym_value value ≡ false) × AllBehind value rest

-- Symbols behind one that starts behind the value start behind it.
later-AllBehind :
    (sym : Symbol) (rest : List Symbol) (value : ℕ)
    → Ascends sym rest
    → sle sym.sym_value value ≡ false
    → AllBehind value rest
later-AllBehind sym [] value up h = tt
later-AllBehind sym (next ∷ rest) value (le, up) h =
    let behind : sle next.sym_value value ≡ false = ground (arith, le, h) in
    (behind, later-AllBehind next rest value up behind)

-- `best` is a symbol of the list that starts at the value or before, and all symbols that the list
-- has behind its place start behind the value.
abbrev pub IsLast : List Symbol → ℕ → Symbol → Type 0
IsLast symbols value best =
    (before after : List Symbol) × (symbols ≡ before ++ best ∷ after)
    × (sle best.sym_value value ≡ true)
    × AllBehind value after

symbol_from_later :
    (sym next : Symbol) (rest : List Symbol) (value : ℕ)
    → sle next.sym_value value ≡ true
    → symbol_from next rest value ≡ symbol_from sym (next ∷ rest) value
unfolding symbol_from
symbol_from_later sym next rest value h = rw h refl

symbol_from_here :
    (sym next : Symbol) (rest : List Symbol) (value : ℕ)
    → sle next.sym_value value ≡ false
    → sym ≡ symbol_from sym (next ∷ rest) value
unfolding symbol_from
symbol_from_here sym next rest value h = rw h refl

symbol_from-IsLast :
    (sym : Symbol) (rest : List Symbol) (value : ℕ)
    → Ascends sym rest
    → sle sym.sym_value value ≡ true
    → IsLast (sym ∷ rest) value (symbol_from sym rest value)
symbol_from-IsLast sym [] value up h = unfold symbol_from in ([], [], refl, h, tt)
symbol_from-IsLast sym (next ∷ rest) value (le, up) h =
    elim (Bool-cases (sle next.sym_value value)) [
      | inl before ↦
          let (front, after, e, found, all) = symbol_from-IsLast next rest value up before in
          subst (IsLast (sym ∷ next ∷ rest) value) (symbol_from_later sym next rest value before)
            (sym ∷ front, after, ap (λ l. sym ∷ l) e, found, all)
      | inr behind ↦
          subst (IsLast (sym ∷ next ∷ rest) value) (symbol_from_here sym next rest value behind)
            ([], next ∷ rest, refl, h, (behind, later-AllBehind next rest value up behind))
    ]

-- If the symbols ascend and the first starts at the value or before, the search finds the last
-- symbol of the list that does: the result is a symbol of the list, it starts at the value or
-- before, and every symbol behind its place in the list starts behind the value.
pub value_to_function_symbol-IsLast :
    (sym : Symbol) (rest : List Symbol) (value : ℕ)
    → Ascends sym rest
    → sle sym.sym_value value ≡ true
    → IsLast (sym ∷ rest) value (value_to_function_symbol (sym ∷ rest) value)
unfolding value_to_function_symbol
value_to_function_symbol-IsLast sym rest value up h = symbol_from-IsLast sym rest value up h

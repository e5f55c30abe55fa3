-- ===== src/Symbols/Loads.antt =====
-- `VM_LoadSymbols` on a map file without quotes.
use q3vm.Base.{
  ℕ, zero, suc, ◌-◌, ◌^◌, ◌≤◌, ◌<◌, ◌≡◌, refl, Option, some, ◌++◌, arith, Bool, true, false, not,
  ◌==◌, ◌&&◌, List, [], ◌∷◌, length, ◌>>=◌, inl, inr, Bool-cases,
}
use q3vm.Base.Word.{u32, slt, is_neg}
use q3vm.Memory.{Block, get}
use q3vm.State.{Vm}
use q3vm.Symbols.{parse_hex, at, Scanner, is_empty, Symbol}
use q3vm.Symbols.Buffer.{no_zero, terminated-some}
use q3vm.Symbols.Loader.{
  symbol, symbol_bytes, ended, passed, load_value, load_line, load_symbols, load_map_file,
  load_name, symbol_offset, load_lines, pass_line, Line,
}
use q3vm.Symbols.Scan.{com_parse-Left, Left, plain}

-- The instruction table has an entry for every instruction.
abbrev pub HasStarts : Vm → Type 0
HasStarts vm =
    (pointers : Block) × (vm.instruction_pointers ≡ some pointers)
    × (vm.instruction_count ≤ pointers.size)

-- Every symbol has a name, and no calls counted.
abbrev pub AreNamed : List Symbol → Type 0
AreNamed [] = Unit
AreNamed (s ∷ rest) = (is_empty s.sym_name ≡ false) × (s.profile_count ≡ 0) × AreNamed rest

-- A round that goes on has taken at least one character.
abbrev Moves : ℕ → Line → Type 0
Moves n (ended refused) = Unit
Moves n (passed s) = (1 ≤ n) × Left (n - 1) s.cursor
Moves n (symbol sym s) =
    (1 ≤ n) × Left (n - 1) s.cursor × (is_empty sym.sym_name ≡ false) × (sym.profile_count ≡ 0)

abbrev MovesTo : ℕ → Option Line → Type 0
MovesTo n r = (line : Line) × (r ≡ some line) × Moves n line

symbol_offset-some :
    (vm : Vm) (value : ℕ)
    → HasStarts vm
    → vm.instruction_count < 2 ^ 31
    → (v : ℕ) × (symbol_offset vm value ≡ some v)
unfolding get
symbol_offset-some vm value (pointers, e, room) few =
    elim (Bool-cases (not (is_neg value) && slt value vm.instruction_count)) [
      | inl inside ↦ (u32 (pointers.cell value), ground arith)
      | inr outside ↦ (value, ground arith)
    ]

module _ (grants : ℕ → Bool) (vm : Vm) (table : HasStarts vm)
    (few : vm.instruction_count < 2 ^ 31) where
  load_name-Moves :
      (n value : ℕ) (s : Scanner)
      → 1 ≤ n
      → Left (n - 1) s.cursor
      → MovesTo n (load_name grants vm value s)
  unfolding load_name
  load_name-Moves n value s big left =
      let (name, s', e, left', shorter) = com_parse-Left (n - 1) s left in
      let (v, ev) = symbol_offset-some vm value table few in
      rw (e, ev)
        (elim (Bool-cases (is_empty name)) [
          | inl empty ↦ rw empty (ended false, refl, tt)
          | inr full ↦ rw full (elim (Bool-cases (grants (symbol_bytes name))) [
            | inl granted ↦ rw granted (
              symbol (record { sym_value = v; profile_count = 0; sym_name = name }) s',
              refl,
              (big, left', full, refl),
            )
            | inr refused ↦ rw refused (ended true, refl, tt)
          ])
        ])

  pass_line-Moves : (n : ℕ) (s : Scanner) → 1 ≤ n → Left (n - 1) s.cursor → MovesTo n (pass_line s)
  unfolding pass_line
  pass_line-Moves n s big left =
      let (token, s1, e, left1, shorter) = com_parse-Left (n - 1) s left in
      let (token', s2, e', left2, shorter') = com_parse-Left (n - 1) s1 left1 in
      rw (e, e') (passed s2, refl, (big, left2))

  load_value-Moves :
      (n : ℕ) (s : Scanner) → 1 ≤ n → Left (n - 1) s.cursor → MovesTo n (load_value grants vm s)
  unfolding load_value
  load_value-Moves n s big left =
      let (value, s', e, left', shorter) = com_parse-Left (n - 1) s left in
      rw e (elim (Bool-cases (is_empty value)) [
        | inl empty ↦ rw empty (ended false, refl, tt)
        | inr full ↦ rw full (load_name-Moves n (parse_hex value) s' big left')
      ])

  load_line-Moves : (n : ℕ) (s : Scanner) → Left n s.cursor → MovesTo n (load_line grants vm s)
  unfolding load_line
  load_line-Moves n s left =
      let (segment, s', e, left', shorter) = com_parse-Left n s left in
      rw e (elim (Bool-cases (is_empty segment)) [
        | inl empty ↦ rw empty (ended false, refl, tt)
        | inr full ↦
            let (big, left1) = shorter full in
            rw full (elim (Bool-cases (parse_hex segment == 0)) [
              | inl code ↦ rw code (load_value-Moves n s' big left1)
              | inr other ↦ rw other (pass_line-Moves n s' big left1)
            ])
      ])

  -- The loop's result.
  abbrev Loaded : Option (List Symbol × Bool) → Type 0
  Loaded r =
      (symbols : List Symbol) × (refused : Bool) × (r ≡ some (symbols, refused)) × AreNamed symbols

  load_lines-Loaded :
      (fuel n : ℕ) (s : Scanner) → n < fuel → Left n s.cursor → Loaded (load_lines fuel grants vm s)
  unfolding load_lines
  load_lines-Loaded zero n s h left = absurd (omega arith)
  load_lines-Loaded (suc fuel) n s h left =
      let (line, e, moves) = load_line-Moves n s left in
      rw e (
        by_line n line moves
          (λ s' big left'. load_lines-Loaded fuel (n - 1) s' (omega arith) left'))
    where
      by_line :
          (n : ℕ) (line : Line)
          → Moves n line
          → ((s' : Scanner)
              → 1 ≤ n
              → Left (n - 1) s'.cursor
              → Loaded (load_lines fuel grants vm s'))
          → Loaded (elim line [
            | ended refused ↦ some ([], refused)
            | passed s' ↦ load_lines fuel grants vm s'
            | symbol sym s' ↦ (do
              (symbols, refused) ← load_lines fuel grants vm s'
              some (sym ∷ symbols, refused))
          ])
      by_line n (ended refused) moves ih = ([], refused, refl, tt)
      by_line n (passed s') (big, left') ih = ih s' big left'
      by_line n (symbol sym s') (big, left', named, fresh) ih =
          let (symbols, refused, e, all) = ih s' big left' in
          rw e (sym ∷ symbols, refused, refl, (named, fresh, all))

  text_loads :
      (text : List ℕ) (lines : ℕ) → plain text ≡ true → Loaded (load_symbols grants vm text lines)
  unfolding load_symbols
  text_loads text lines h =
      load_lines-Loaded (suc (length text)) (length text)
        (record { cursor = at text; lines = lines }) (omega arith) (omega arith, h)

  -- If a map file has a zero, and no quote in front of the first one, then the loop of
  -- `VM_LoadSymbols` over its lines ends, and reads nothing outside the file's buffer or the
  -- instruction table, whatever else the file says. Every symbol loaded has a name, and its counter
  -- of calls is 0.
  pub load_map_file-loads :
      (text rest : List ℕ) (lines : ℕ)
      → plain text ≡ true
      → no_zero text ≡ true
      → (symbols : List Symbol) × (refused : Bool) × (load_map_file grants vm
            (some (text ++ 0 ∷ rest))
            lines
          ≡ some (symbols, refused))
        × AreNamed symbols
  unfolding load_map_file
  load_map_file-loads text rest lines h z =
      let (symbols, refused, e, all) = text_loads text lines h in
      (symbols, refused, rw (load_map_file, terminated-some text rest z) e, all)

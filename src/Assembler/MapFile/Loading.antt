-- ===== src/Assembler/MapFile/Loading.antt =====
-- `VM_LoadSymbols` of src/vm/vm.c on the map file that `WriteMapFile` of q3asm/q3asm.c has written.
use q3vm.Base.{
  ℕ, zero, suc, ◌+◌, ◌≡◌, ap, ◌∙◌, refl, sym, arith, List, [], ◌∷◌, ◌++◌, Option, some, none, Bool,
  true, false, ◌==◌, if◌then◌else◌, length, map, ◌^◌, ◌<◌,
}
use q3vm.Assembler.MapFile.{map_lines}
use q3vm.Assembler.MapFile.Lines.{hex_text-is_word, words_of_line, at_text}
use q3vm.Assembler.MapFile.Tokens.{com_parse-end, all_white, is_word}
use q3vm.Assembler.Output.{hex_text, map_line}
use q3vm.Assembler.State.{Sym}
use q3vm.Assembler.Text.{decimal}
use q3vm.State.{Vm}
use q3vm.Symbols.{parse_hex, com_parse, Scanner, Symbol}
use q3vm.Symbols.Hex.{parse_hex-hex_text}
use q3vm.Symbols.Loader.{
  load_value, pass_line, load_lines, load_line, load_name, symbol_offset, passed, ended, symbol,
}
use mathlib.Core.List.{append_assoc}

-- Symbols whose names are words and whose values are words of 32 bits.
abbrev pub AreWords : List Sym → Type 0
AreWords [] = Unit {0}
AreWords (s ∷ ss) = (is_word s.name ≡ true) × (s.value < 2 ^ 32) × AreWords ss

-- What `VM_LoadSymbols` makes of a symbol of the code segment.
abbrev pub loaded_symbol : (ℕ → ℕ) → Sym → Symbol
loaded_symbol offset s = record { sym_value = offset s.value; profile_count = 0; sym_name = s.name }

module _ (grants : ℕ → Bool) (vm : Vm) (offset : ℕ → ℕ) (granted : (n : ℕ) → grants n ≡ true)
    (placed : (v : ℕ) → symbol_offset vm v ≡ some (offset v)) where
  load_name-word :
      (v : ℕ) (name : List ℕ) (s s' : Scanner)
      → is_word name ≡ true
      → com_parse s ≡ some (name, s')
      → load_name grants vm v s
        ≡ some (symbol (record { sym_value = offset v; profile_count = 0; sym_name = name }) s')
  unfolding load_name
  load_name-word v [] s s' w e = cc
  load_name-word v (c ∷ name) s s' w e = rw (load_name, e) (rw (granted, placed) refl)

  load_value-words :
      (v : ℕ) (digits name : List ℕ) (s s1 s2 : Scanner)
      → is_word digits ≡ true
      → is_word name ≡ true
      → parse_hex digits ≡ v
      → com_parse s ≡ some (digits, s1)
      → com_parse s1 ≡ some (name, s2)
      → load_value grants vm s
        ≡ some (symbol (record { sym_value = offset v; profile_count = 0; sym_name = name }) s2)
  unfolding load_value
  load_value-words v [] name s s1 s2 w k p e f = cc
  load_value-words v (c ∷ digits) name s s1 s2 w k p e f =
      rw (load_value, e, p) (load_name-word v name s1 s2 k f)

  load_line-code :
      (v : ℕ) (seg digits name : List ℕ) (s s1 s2 s3 : Scanner)
      → is_word seg ≡ true
      → is_word digits ≡ true
      → is_word name ≡ true
      → (parse_hex seg == 0) ≡ true
      → parse_hex digits ≡ v
      → com_parse s ≡ some (seg, s1)
      → com_parse s1 ≡ some (digits, s2)
      → com_parse s2 ≡ some (name, s3)
      → load_line grants vm s
        ≡ some (symbol (record { sym_value = offset v; profile_count = 0; sym_name = name }) s3)
  unfolding load_line
  load_line-code v [] digits name s s1 s2 s3 w d k z p e f g = cc
  load_line-code v (c ∷ seg) digits name s s1 s2 s3 w d k z p e f g =
      rw (load_line, e, z) (load_value-words v digits name s1 s2 s3 d k p f g)

  pass_line-words :
      (digits name : List ℕ) (s1 s2 s3 : Scanner)
      → com_parse s1 ≡ some (digits, s2)
      → com_parse s2 ≡ some (name, s3)
      → pass_line s1 ≡ some (passed s3)
  unfolding pass_line
  pass_line-words digits name s1 s2 s3 f g = rw (pass_line, f, g) refl

  load_line-other :
      (seg digits name : List ℕ) (s s1 s2 s3 : Scanner)
      → is_word seg ≡ true
      → (parse_hex seg == 0) ≡ false
      → com_parse s ≡ some (seg, s1)
      → com_parse s1 ≡ some (digits, s2)
      → com_parse s2 ≡ some (name, s3)
      → load_line grants vm s ≡ some (passed s3)
  unfolding load_line
  load_line-other [] digits name s s1 s2 s3 w z e f g = cc
  load_line-other (c ∷ seg) digits name s s1 s2 s3 w z e f g =
      rw (load_line, e, z) (pass_line-words digits name s1 s2 s3 f g)

  -- The symbols of the lines of a segment, in front of what the rest of the text gives.
  abbrev pub kept_symbols : Bool → List Sym → List Symbol
  kept_symbols is_code ss = if is_code then map (loaded_symbol offset) ss else []

  abbrev pub in_front : List Symbol → Option (List Symbol × Bool) → Option (List Symbol × Bool)
  in_front xs none = none
  in_front xs (some (ys, refused)) = some (xs ++ ys, refused)

  abbrev pub Goes : ℕ → ℕ → List Symbol → Scanner → List ℕ → Type 0
  Goes fuel k xs s rest =
      (lead : List ℕ) × (m : ℕ) × (all_white lead ≡ true)
      × (load_lines fuel grants vm s
          ≡ in_front xs (load_lines k grants vm (at_text (lead ++ rest) m)))

  in_front-nil : (o : Option (List Symbol × Bool)) → in_front [] o ≡ o
  in_front-nil none = refl
  in_front-nil (some (ys, refused)) = refl

  pub in_front-append :
      (xs ys : List Symbol) (o : Option (List Symbol × Bool))
      → in_front xs (in_front ys o) ≡ in_front (xs ++ ys) o
  in_front-append xs ys none = refl
  in_front-append xs ys (some (zs, refused)) = rw append_assoc refl

  load_lines-symbol :
      (fuel : ℕ) (s s' : Scanner) (sym : Symbol)
      → load_line grants vm s ≡ some (symbol sym s')
      → load_lines (suc fuel) grants vm s ≡ in_front (sym ∷ []) (load_lines fuel grants vm s')
  unfolding load_lines
  load_lines-symbol fuel s s' sym e = rw (load_lines, e) (ground arith)

  load_lines-passed :
      (fuel : ℕ) (s s' : Scanner)
      → load_line grants vm s ≡ some (passed s')
      → load_lines (suc fuel) grants vm s ≡ load_lines fuel grants vm s'
  unfolding load_lines
  load_lines-passed fuel s s' e = rw (load_lines, e) refl

  pub load_lines-lines :
      (fuel k seg : ℕ) (is_code : Bool) (ss : List Sym) (rest lead : List ℕ) (n : ℕ)
      → fuel ≡ length ss + k
      → is_word (decimal seg) ≡ true
      → (parse_hex (decimal seg) == 0) ≡ is_code
      → all_white lead ≡ true
      → AreWords ss
      → Goes fuel k (kept_symbols is_code ss) (at_text (lead ++ (map_lines seg ss ++ rest)) n) rest
  load_lines-lines fuel k seg true [] rest lead n f w z h a =
      let e : fuel ≡ k = omega arith in (lead, n, h, rw e (sym (in_front-nil _)))
  load_lines-lines fuel k seg false [] rest lead n f w z h a =
      let e : fuel ≡ k = omega arith in (lead, n, h, rw e (sym (in_front-nil _)))
  load_lines-lines zero k seg is_code (s ∷ ss) rest lead n f w z h a = absurd (omega arith)
  load_lines-lines (suc fuel) k seg true (s ∷ ss) rest lead n f w z h (name, small, a) =
      let text = map_lines seg ss ++ rest in
      let (s1, s2, m, e, g, i) = words_of_line lead seg s text n h w name in
      let (lead', m', h', more) =
        load_lines-lines fuel k seg true ss rest (10 ∷ []) m (omega arith) w z refl a in
      (
        lead',
        m',
        h',
        rw append_assoc (
            load_lines-symbol fuel (at_text (lead ++ (map_line seg s ++ text)) n)
              (at_text (10 ∷ text) m) (loaded_symbol offset s)
              (load_line-code s.value (decimal seg) (hex_text 8 s.value) s.name _ s1 s2 _ w
                (hex_text-is_word s.value) name z (parse_hex-hex_text s.value small) e g i)
            ∙ ap (in_front (loaded_symbol offset s ∷ [])) more
            ∙ in_front-append (loaded_symbol offset s ∷ []) (map (loaded_symbol offset) ss) _),
      )
  load_lines-lines (suc fuel) k seg false (s ∷ ss) rest lead n f w z h (name, small, a) =
      let text = map_lines seg ss ++ rest in
      let (s1, s2, m, e, g, i) = words_of_line lead seg s text n h w name in
      let (lead', m', h', more) =
        load_lines-lines fuel k seg false ss rest (10 ∷ []) m (omega arith) w z refl a in
      (
        lead',
        m',
        h',
        rw append_assoc (
            load_lines-passed fuel (at_text (lead ++ (map_line seg s ++ text)) n)
              (at_text (10 ∷ text) m)
              (load_line-other (decimal seg) (hex_text 8 s.value) s.name _ s1 s2 _ w z e g i)
            ∙ more),
      )

  load_line-end :
      (lead : List ℕ) (n : ℕ)
      → all_white lead ≡ true
      → load_line grants vm (at_text lead n) ≡ some (ended false)
  unfolding load_line
  load_line-end lead n h = let (m, e) = com_parse-end lead n h in rw (load_line, e) refl

  pub load_lines-end :
      (fuel : ℕ) (lead : List ℕ) (n : ℕ)
      → all_white lead ≡ true
      → load_lines (suc fuel) grants vm (at_text lead n) ≡ some ([], false)
  unfolding load_lines
  load_lines-end fuel lead n h = rw (load_lines, load_line-end lead n h) refl

-- ===== src/Symbols/Hex.antt =====
-- `ParseHex` of src/vm/vm.c, and `%x` of `printf`, which writes the map file.
use q3vm.Base.{
  ℕ, zero, suc, ◌+◌, ◌*◌, ◌/◌, ◌%◌, ◌^◌, ◌<◌, ◌≡◌, refl, arith, ltb, List, [], ◌∷◌, inl, inr,
  Bool-cases,
}
use q3vm.Base.Word.{u32}
use q3vm.Assembler.Output.{hex_text, hex_digit}
use q3vm.Assembler.Text.{with_last}
use q3vm.Symbols.{parse_hex, parse_hex_from, hex_step}

parse_hex-with_last :
    (v : ℕ) (xs : List ℕ) (c : ℕ)
    → parse_hex_from v (with_last xs c) ≡ hex_step (parse_hex_from v xs) c
unfolding parse_hex_from
parse_hex-with_last v [] c = refl
parse_hex-with_last v (x ∷ xs) c = parse_hex-with_last (hex_step v x) xs c

hex_step_digit : (v d : ℕ) → d < 16 → hex_step v (hex_digit d) ≡ u32 (v * 16 + d)
hex_step_digit v d h = ground arith

hex_text_back : (k n : ℕ) → n < 16 ^ k → n < 2 ^ 32 → 0 < k → parse_hex (hex_text k n) ≡ n
unfolding hex_text parse_hex_from
hex_text_back zero n h w p = absurd (omega arith)
hex_text_back (suc zero) n h w p = ground (arith, hex_step_digit 0 (n % 16) (omega arith))
hex_text_back (suc (suc k)) n h w p = elim (Bool-cases (ltb n 16)) [
  | inl small ↦ ground (arith, hex_step_digit 0 (n % 16) (omega arith))
  | inr large ↦
      let higher : n / 16 < 16 ^ suc k = omega (arith, h) in
      rw
        (
          large,
          parse_hex-with_last 0 (hex_text (suc k) (n / 16)) (hex_digit (n % 16)),
          hex_text_back (suc k) (n / 16) higher (omega arith) (omega arith),
          hex_step_digit (n / 16) (n % 16) (omega arith),
        )
        (omega arith)
]

-- Every word that is written by `%x`, in at most eight digits, is read back.
pub parse_hex-hex_text : (n : ℕ) → n < 2 ^ 32 → parse_hex (hex_text 8 n) ≡ n
parse_hex-hex_text n h = hex_text_back 8 n (omega arith) h (omega arith)

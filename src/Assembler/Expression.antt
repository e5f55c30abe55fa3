-- ===== src/Assembler/Expression.antt =====
-- `ParseExpression`.
use q3vm.Base.{ℕ, Bool, false, ◌==◌, ◌||◌, if◌then◌else◌, List, [], ◌∷◌, length, sym}
use q3vm.Assembler.Run.{pure, gets, ◌>>=◌}
use q3vm.Assembler.State.{Action}
use q3vm.Assembler.Symbols.{lookup_symbol}
use q3vm.Assembler.Text.{add_terms, atoi_no_cap, first_term, is_digit}

-- The value of the first term: a number, or an address.
abbrev pub starts_number : List ℕ → Bool
starts_number [] = false
starts_number (c ∷ rest) = (c == 45) || is_digit c

unfoldable pub term_value : List ℕ → Action ℕ
unfolding atoi_no_cap lookup_symbol
term_value sym = if starts_number sym then pure (atoi_no_cap sym) else lookup_symbol sym

unfoldable pub parse_expression : Action ℕ
unfolding term_value first_term add_terms ◌>>=◌
parse_expression = do
  token ← gets (λ s. s.token)
  v ← term_value (first_term token).0
  pure (add_terms (length token) v (first_term token).1)

-- ===== src/Covenant/Amounts/Agreement.antt =====
-- The two admissions of offered terms, by the covenant and by the game, agree.
use arkade_poker.Prelude.{◌≡◌, arith}
use arkade_poker.Covenant.Amounts.{Terms, validate_amounts, validate_terms}

-- The game's admission of offered terms and the covenant's admission of contract amounts give the
-- same result on every terms.
pub validate_terms-validate_amounts : (t : Terms) → validate_terms t ≡ validate_amounts t
unfolding validate_terms validate_amounts
validate_terms-validate_amounts t = ground arith

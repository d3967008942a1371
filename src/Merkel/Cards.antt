-- ===== src/Merkel/Cards.antt =====
-- internal/merkel/ranking.go, validate: a set of cards, which the code keeps as a bit mask and the
-- model as a list.
use arkade_poker.Prelude.{
  ℕ, Bool, false, ◌||◌, ◌==◌, leb, List, [], ◌∷◌, Result, ok, ◌>>◌, reject, bad_cards,
}

abbrev pub holds : ℕ → List ℕ → Bool
holds c [] = false
holds c (d ∷ ds) = c == d || holds c ds

unfoldable pub validate_from : List ℕ → List ℕ → Result (Unit {0})
validate_from mask [] = ok tt
validate_from mask (c ∷ cs) = do
  reject (leb 52 c || holds c mask) bad_cards
  validate_from (c ∷ mask) cs

unfoldable pub validate : List ℕ → Result (Unit {0})
unfolding validate_from
validate cards = validate_from [] cards

-- ===== src/Merkel/Combinations/Sorted.antt =====
-- Valid hands, once sorted, are ascending; so they have an index, and are found at it.
use arkade_poker.Prelude.{
  ℕ, suc, ◌+◌, ◌≡◌, ◌<◌, ◌≤◌, some, ok, arith, List, [], ◌∷◌, length, true, false, ◌||◌, ◌==◌, leb,
  >>=-eq-ok, reject, bad_cards, refl, ◌∙◌, ap,
}
use arkade_poker.Merkel.Cards.{holds, validate, validate_from}
use arkade_poker.Merkel.Combinations.{sort, insert, combination_index, combination_at}
use arkade_poker.Merkel.Combinations.Bijection.{IsAscending, combination_at-index}

insert-IsAscending :
    (lo x : ℕ) (cs : List ℕ)
    → lo ≤ x
    → x < 52
    → holds x cs ≡ false
    → IsAscending lo cs
    → IsAscending lo (insert x cs)
unfolding insert
insert-IsAscending lo x [] le lt new asc = (le, lt, tt)
insert-IsAscending lo x (c ∷ cs) le lt new (a, b, rest) =
    ground (arith, insert-IsAscending (c + 1) x cs)

holds-insert : (x y : ℕ) (cs : List ℕ) → holds x (insert y cs) ≡ (x == y || holds x cs)
unfolding insert
holds-insert x y [] = refl
holds-insert x y (c ∷ cs) = ground (arith, holds-insert x y cs)

holds-sort : (x : ℕ) (cs : List ℕ) → holds x (sort cs) ≡ holds x cs
unfolding sort
holds-sort x [] = refl
holds-sort x (c ∷ cs) = holds-insert x c (sort cs) ∙ ap (λ b. x == c || b) (holds-sort x cs)

length-insert : (x : ℕ) (cs : List ℕ) → length (insert x cs) ≡ suc (length cs)
unfolding insert
length-insert x [] = refl
length-insert x (c ∷ cs) = ground (arith, length-insert x cs)

pub length-sort : (cs : List ℕ) → length (sort cs) ≡ length cs
unfolding sort
length-sort [] = refl
length-sort (c ∷ cs) = length-insert c (sort cs) ∙ ap suc (length-sort cs)

validate_from-fresh :
    (x : ℕ) (mask cs : List ℕ)
    → validate_from mask cs ≡ ok tt
    → holds x mask ≡ true
    → holds x cs ≡ false
unfolding validate_from
validate_from-fresh x mask [] h seen = refl
validate_from-fresh x mask (c ∷ cs) h seen =
    let (_, eg, rest) = >>=-eq-ok (reject (leb 52 c || holds c mask) bad_cards) _ h in
    ground (arith, validate_from-fresh x (c ∷ mask) cs rest)

sort-IsAscending : (mask cs : List ℕ) → validate_from mask cs ≡ ok tt → IsAscending 0 (sort cs)
unfolding sort validate_from
sort-IsAscending mask [] h = tt
sort-IsAscending mask (c ∷ cs) h =
    let (_, eg, rest) = >>=-eq-ok (reject (leb 52 c || holds c mask) bad_cards) _ h in
    let new = validate_from-fresh c (c ∷ mask) cs rest (ground arith) in
    insert-IsAscending 0 c (sort cs) (omega arith) (ground arith) (holds-sort c cs ∙ new)
      (sort-IsAscending (c ∷ mask) cs rest)

-- Seven cards that pass the check have an index among the leaves of the tree, and the hand at
-- that index is the seven cards in ascending order.
pub combination_at-combination_index :
    (cards : List ℕ)
    → validate cards ≡ ok tt
    → length cards ≡ 7
    → (combination_index cards < 133784560)
      × (combination_at (combination_index cards) ≡ some (sort cards))
unfolding combination_index validate
combination_at-combination_index cards h len =
    combination_at-index (sort cards) (length-sort cards ∙ len) (sort-IsAscending [] cards h)

-- ===== src/Merkel/Combinations.antt =====
-- internal/merkel/ranking.go, choose, combinationIndex and combinationAt: the order of the 7-card
-- hands as leaves of the tree.
pub mod Pascal
pub mod Skips
pub mod Bijection
pub mod Sorted
use arkade_poker.Prelude.{
  ℕ, zero, suc, ◌+◌, ◌-◌, ◌*◌, ◌/◌, ◌%◌, Bool, true, false, List, [], ◌∷◌, Option, none, some, ltb,
  leb, if◌then◌else◌, u64_mod,
}

-- The loop of choose: `rounds` left, at `i`.
unfoldable pub choose_loop : ℕ → ℕ → ℕ → ℕ → ℕ
choose_loop zero i n v = v
choose_loop (suc rounds) i n v = choose_loop rounds (i + 1) n ((v * (n - i)) % u64_mod / (i + 1))

unfoldable pub choose : ℕ → ℕ → ℕ
unfolding choose_loop
choose n k = if ltb n k then 0 else choose_loop (if ltb (n - k) k then n - k else k) 0 n 1

-- `uint64(51-v)` of a byte
abbrev pub above : ℕ → ℕ
above v = (51 + 256 - v) % 256

unfoldable pub insert : ℕ → List ℕ → List ℕ
insert x [] = x ∷ []
insert x (y ∷ ys) = if leb x y then x ∷ y ∷ ys else y ∷ insert x ys

-- sort.Slice on bytes
unfoldable pub sort : List ℕ → List ℕ
unfolding insert
sort [] = []
sort (x ∷ xs) = insert x (sort xs)

-- The inner loop of combinationIndex: `rounds` values of v are left, and `k` is `6 - i`.
unfoldable pub skip : ℕ → ℕ → ℕ → ℕ → ℕ
skip zero v k index = index
skip (suc rounds) v k index = skip rounds (v + 1) k ((index + choose (above v) k) % u64_mod)

-- The outer loop, over the sorted cards; `n` is `7 - i`.
unfoldable pub index_from : ℕ → ℕ → List ℕ → ℕ → ℕ
unfolding skip
index_from n previous [] index = index
index_from n previous (c ∷ cs) index =
    index_from (n - 1) (c + 1) cs (skip (c - previous) previous (n - 1) index)

unfoldable pub combination_index : List ℕ → ℕ
unfolding index_from
combination_index cards = index_from 7 0 (sort cards) 0

-- The inner loop of combinationAt: the value of v where the index falls, and what is left of it.
-- The byte v has no more than 256 values.
unfoldable pub find : ℕ → ℕ → ℕ → ℕ → Option (ℕ × ℕ)
find zero v k index = none
find (suc fuel) v k index =
    let count = choose (above v) k in
    let more = find fuel ((v + 1) % 256) k (index - count) in
    if ltb index count then some (v, index) else more

abbrev pub prepend : ℕ → Option (List ℕ) → Option (List ℕ)
prepend v none = none
prepend v (some cs) = some (v ∷ cs)

abbrev pub next_card : (ℕ → ℕ → Option (List ℕ)) → Option (ℕ × ℕ) → Option (List ℕ)
next_card more none = none
next_card more (some (v, rest)) = prepend v (more ((v + 1) % 256) rest)

unfoldable pub cards_from : ℕ → ℕ → ℕ → Option (List ℕ)
unfolding find
cards_from zero previous index = some []
cards_from (suc n) previous index = next_card (cards_from n) (find 256 previous n index)

unfoldable pub combination_at : ℕ → Option (List ℕ)
unfolding cards_from
combination_at index = cards_from 7 0 index

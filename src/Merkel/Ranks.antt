-- ===== src/Merkel/Ranks.antt =====
-- internal/merkel/ranking.go, rankTable, Rank5 and Rank7, and internal/merkel/describe.go: the rank of a
-- strength, and the best five of up to seven cards.
pub mod Best
pub mod Subsets
pub mod Table
use arkade_poker.Prelude.{
  ℕ, zero, suc, ◌+◌, ◌-◌, ◌*◌, ◌/◌, ◌%◌, Bool, true, false, ◌&&◌, ◌||◌, not, List, [], ◌∷◌, ◌++◌,
  map, Option, none, some, ◌==◌, ltb, leb, if◌then◌else◌, length, Result, ok, err, ◌>>=◌, ◌>>◌,
  guard, reject, bad_cards, bad_rank, ◌≤◌, u8,
}
use arkade_poker.Merkel.Cards.{validate}
use arkade_poker.Merkel.Strength.{strength}

abbrev pub num_ranks : ℕ
num_ranks = 7462

-- The loops over ascending ranks: `n` ranks from `lo` on.
mutual
  ascending : ℕ → ℕ → ℕ → List (List ℕ)
  ascending zero lo rounds = [] ∷ []
  ascending (suc n) lo zero = []
  ascending (suc n) lo (suc rounds) =
      map (λ rest. lo ∷ rest) (ascending n lo (suc rounds)) ++ ascending (suc n) (lo + 1) rounds

abbrev copies : ℕ → List ℕ → ℕ
copies r [] = 0
copies r (v ∷ vs) = if r == v then copies r vs + 1 else copies r vs

-- A card for each rank, the copies of a rank in different suits; none where a rank stands five times.
assign : List ℕ → List ℕ → Option (List ℕ)
assign seen [] = some []
assign seen (r ∷ rs) = next (leb 4 (copies r seen)) (r + 13 * copies r seen) (assign (r ∷ seen) rs)
  where
    next : Bool → ℕ → Option (List ℕ) → Option (List ℕ)
    next true c rest = none
    next false c none = none
    next false c (some cs) = some (c ∷ cs)

all_distinct : List ℕ → Bool
all_distinct [] = true
all_distinct (r ∷ rs) = copies r rs == 0 && all_distinct rs

-- `cards[4] += 13`
other_suit : List ℕ → List ℕ
other_suit [] = []
other_suit (c ∷ []) = (c + 13) ∷ []
other_suit (c ∷ d ∷ cs) = c ∷ other_suit (d ∷ cs)

keys_of : List ℕ → List ℕ
unfolding assign all_distinct other_suit
keys_of values = elim (assign [] values) [
  | none ↦ []
  | some cards ↦
      if all_distinct values
      then strength cards ∷ strength (other_suit cards) ∷ []
      else strength cards ∷ []
]

all_keys : List (List ℕ) → List ℕ
unfolding keys_of
all_keys [] = []
all_keys (values ∷ rest) = keys_of values ++ all_keys rest

-- The keys of the map, in ascending order
unfoldable pub insert_key : ℕ → List ℕ → List ℕ
insert_key k [] = k ∷ []
insert_key k (l ∷ ls) =
    if ltb k l then k ∷ l ∷ ls else (if k == l then l ∷ ls else l ∷ insert_key k ls)

unfoldable pub order_keys : List ℕ → List ℕ
unfolding insert_key
order_keys [] = []
order_keys (k ∷ ks) = insert_key k (order_keys ks)

-- rankTable: its panic is an error.
unfoldable pub rank_table : Result (List ℕ)
unfolding ascending all_keys
rank_table = do
  let ordered = order_keys (all_keys (ascending 5 0 13))
  guard (length ordered == num_ranks) bad_rank
  ok ordered

abbrev pub after_first : ℕ → ℕ
after_first n = if n == 0 then 0 else n + 1

-- A lookup in the table: one more than the position, and 0 for a strength that is not there.
unfoldable pub rank_in : List ℕ → ℕ → ℕ
rank_in [] k = 0
rank_in (l ∷ ls) k = let later = rank_in ls k in if k == l then 1 else after_first later

unfoldable pub rank5 : List ℕ → Result ℕ
rank5 cards = do _ ← validate cards; table ← rank_table; ok (rank_in table (strength cards))

-- The choices of n cards, in the order of the nested loops.
unfoldable pub choices : ℕ → List ℕ → List (List ℕ)
choices zero cards = [] ∷ []
choices (suc n) [] = []
choices (suc n) (c ∷ cs) = map (λ rest. c ∷ rest) (choices n cs) ++ choices (suc n) cs

-- Every choice of two cards that are left out, as the five that stay.
unfoldable pub omit : ℕ → List ℕ → List (List ℕ)
omit zero cards = cards ∷ []
omit (suc n) [] = []
omit (suc n) (c ∷ cs) = omit n cs ++ map (λ rest. c ∷ rest) (omit (suc n) cs)

unfoldable pub best_rank : List ℕ → List (List ℕ) → ℕ → ℕ
best_rank table [] best = best
best_rank table (hand ∷ hands) best =
    let r = rank_in table (strength hand) in best_rank table hands (if ltb best r then r else best)

unfoldable pub rank7 : List ℕ → List ℕ → ℕ
unfolding omit
rank7 table cards = best_rank table (omit 2 cards) 0

unfoldable pub rank7_checked : List ℕ → Result ℕ
rank7_checked cards = do _ ← validate cards; table ← rank_table; ok (rank7 table cards)

-- The loops of Describe, with the greatest strength and the hand that has it.
unfoldable pub best_hand : List (List ℕ) → ℕ → List ℕ → ℕ × List ℕ
best_hand [] value best = (value, best)
best_hand (hand ∷ hands) value best =
    let v = strength hand in
    let better = ltb value v in
    best_hand hands (if better then v else value) (if better then hand else best)

-- The parts of a description: the category, 9 for a royal flush, and the ranks that it names.
pub record Description : Type 0 where
  pub category : ℕ
  pub named : Option ℕ
  pub second : Option ℕ
  pub hand : List ℕ

unfoldable pub describe : List ℕ → Result Description
describe cards = do
  reject (ltb (length cards) 5 || ltb 7 (length cards)) bad_cards
  _ ← validate cards
  let (value, best) = best_hand (choices 5 cards) 0 (0 ∷ 0 ∷ 0 ∷ 0 ∷ 0 ∷ [])
  let category = value / 1048576
  let high = value / 65536 % 16
  let ranked =
      category == 1 || (category == 2 || (category == 3 || (category == 6 || category == 7)))
  ok (
      if category == 8 && high == 14
      then record { category = 9; named = none; second = none; hand = best }
      else record {
        category = category;
        named = if ranked then some high else none;
        second = if category == 2 || category == 6 then some (value / 4096 % 16) else none;
        hand = best;
      })

-- ===== src/Tests/Merkel.antt =====
-- The theorems on hands of cards and their tree at concrete hands, tables and a cache.
use mathlib.Core.List.{Permᴰ, Memᴰ}
use native.Mathlib.Nat.{pow-suc, pow-le-pow_right}
use arkade_poker.Prelude.{
  ℕ, zero, suc, ◌+◌, ◌-◌, ◌*◌, ◌^◌, ◌%◌, ◌/◌, ◌≡◌, ◌≤◌, ◌<◌, true, ◌&&◌, List, [], ◌∷◌, some, ok,
  arith, refl, ap, ◌∙◌, sym, All, length, replicate, take, drop, slice, Bool-cases,
  length-replicate, inl, inr, if◌then◌else◌,
}
use arkade_poker.Covenant.Types.{Bytes}
use arkade_poker.Covenant.Amounts.{bytes_eq}
use arkade_poker.Merkel.Cards.{validate, validate_from}
use arkade_poker.Merkel.Combinations.{combination_index, combination_at, sort}
use arkade_poker.Merkel.Combinations.Sorted.{combination_at-combination_index}
use arkade_poker.Merkel.Strength.{
  strength, count, of_suit, flush, note_rank, shape_from, wheel, straight, classify, pack,
}
use arkade_poker.Merkel.Strength.Order.{strength-perm}
use arkade_poker.Merkel.Ranks.{
  rank_in, order_keys, rank7, choices, describe, best_hand, Description,
}
use arkade_poker.Merkel.Ranks.Best.{rank7_best, describe_best}
use arkade_poker.Merkel.Ranks.Subsets.{Sub, sub_nil, keep, skip}
use arkade_poker.Merkel.Ranks.Table.{rank_in-order_keys}
use arkade_poker.Merkel.Tree.{
  parent, tagged, greater, climb, low_path, levels_up, cache_node, valid_level, valid_levels,
  high_path, node_at, tree_depth, low_length, high_length, block_leaves,
}
use arkade_poker.Merkel.Tree.Cache.{climb-segments}
use arkade_poker.Merkel.Tree.Climb.{climb-low_path}

-- Two hole cards and a board: a pair of aces with a pair of kings on the board.
abbrev hand : List ℕ
hand = 12 ∷ 25 ∷ 11 ∷ 37 ∷ 3 ∷ 30 ∷ 46 ∷ []

hand-valid : validate hand ≡ ok tt
unfolding validate validate_from
hand-valid = refl

combination_at-combination_index_example :
    (combination_index hand < 133784560)
    × (combination_at (combination_index hand) ≡ some (sort hand))
combination_at-combination_index_example = combination_at-combination_index hand hand-valid refl

-- Three strengths: a high card, two pair of aces and kings, and a royal flush.
abbrev keys : List ℕ
keys = 9165824 ∷ 3071232 ∷ 973000 ∷ []

rank_in-order_keys_example :
    (1 ≤ rank_in (order_keys keys) 3071232)
    × (rank_in (order_keys keys) 3071232 < rank_in (order_keys keys) 9165824)
    × (rank_in (order_keys keys) 9165824 ≤ length (order_keys keys))
rank_in-order_keys_example = rank_in-order_keys keys 3071232 9165824 refl refl (omega arith)

rank7_best_example :
    (rank_in keys (strength (12 ∷ 11 ∷ 37 ∷ 3 ∷ 46 ∷ [])) ≤ rank7 keys hand)
    × ((best : List ℕ) × Sub best hand
        × (length best ≡ 5)
        × (rank7 keys hand ≡ rank_in keys (strength best)))
rank7_best_example =
    rank7_best keys hand (12 ∷ 11 ∷ 37 ∷ 3 ∷ 46 ∷ []) refl
      (keep (skip (keep (keep (keep (skip (keep sub_nil))))))) refl

strength-perm_example :
    strength (12 ∷ 25 ∷ 11 ∷ 37 ∷ 3 ∷ []) ≡ strength (25 ∷ 12 ∷ 11 ∷ 37 ∷ 3 ∷ [])
strength-perm_example = strength-perm (Permᴰ.swap refl refl)

abbrev aces_and_kings : Description
aces_and_kings = record {
  category = 2;
  named = some 14;
  second = some 13;
  hand = 12 ∷ 25 ∷ 11 ∷ 37 ∷ 46 ∷ [];
}

described : describe hand ≡ ok aces_and_kings
unfolding describe validate validate_from choices best_hand strength count of_suit flush note_rank
    shape_from wheel straight classify pack
described = refl

describe_best_example :
    Memᴰ aces_and_kings.hand (choices 5 hand)
    × All (λ five. strength five ≤ strength aces_and_kings.hand) (choices 5 hand)
describe_best_example = describe_best hand aces_and_kings described

-- A hash that is always zero, and the cache of its tree.
abbrev zeros : ℕ → List ℕ
zeros n = replicate n 0

abbrev zero_hash : Bytes → Bytes
zero_hash _ = zeros 32

drop-zeros : (o n : ℕ) → o ≤ n → drop o (zeros n) ≡ zeros (n - o)
drop-zeros zero n h = ap zeros (omega arith)
drop-zeros (suc o) zero h = absurd (omega arith)
drop-zeros (suc o) (suc n) h = drop-zeros o n (omega (arith, h)) ∙ ap zeros (omega arith)

take-zeros : (k n : ℕ) → k ≤ n → take k (zeros n) ≡ zeros k
take-zeros zero n h = refl
take-zeros (suc k) zero h = absurd (omega arith)
take-zeros (suc k) (suc n) h = ap (λ r. 0 ∷ r) (take-zeros k n (omega (arith, h)))

slice-zeros : (n o : ℕ) → o + 32 ≤ n → slice (zeros n) o 32 ≡ zeros 32
slice-zeros n o h =
    ap (take 32) (drop-zeros o n (omega (arith, h))) ∙ take-zeros 32 (n - o) (omega (arith, h))

abbrev cache_size : ℕ
cache_size = 1048544

parent-zeros : (a b : Bytes) → parent zero_hash [] (1 ∷ []) [] a b ≡ zeros 32
unfolding parent tagged
parent-zeros a b = elim (Bool-cases (greater a b)) [
  | inl up ↦ ap (λ c. if c then zeros 32 else zeros 32) up
  | inr down ↦ ap (λ c. if c then zeros 32 else zeros 32) down
]

bytes_eq_zeros : (a b : Bytes) → a ≡ zeros 32 → b ≡ zeros 32 → bytes_eq a b ≡ true
bytes_eq_zeros a b e f = ap (bytes_eq a) f ∙ ap (λ c. bytes_eq c (zeros 32)) e

module _ (n : ℕ) where
  valid_level-zeros :
      (level count : ℕ)
      → (32768 - 2 ^ (28 - level) + count) * 32 ≤ n
      → valid_level zero_hash [] (1 ∷ []) [] (zeros n) [] level count ≡ true
  unfolding valid_level cache_node
  valid_level-zeros level zero h = refl
  valid_level-zeros level (suc i) h =
      ap (λ b. valid_level zero_hash [] (1 ∷ []) [] (zeros n) [] level i && b)
        (bytes_eq_zeros _ _ (parent-zeros _ _)
          (slice-zeros n ((32768 - 2 ^ (28 - level) + i) * 32) (omega (arith, h))))
      ∙ ap (λ b. b && true) (valid_level-zeros level i (omega (arith, h)))

level-fits :
    (m : ℕ) → m < 14 → (32768 - 2 ^ (28 - (13 + suc m)) + 2 ^ (27 - (13 + suc m))) * 32 ≤ cache_size
level-fits m h = omega (arith, ap (λ j. 2 ^ j) up ∙ pow-suc 2 (27 - (13 + suc m)), below, positive)
  where
    two : 0 < 2
    two = omega arith

    up : 28 - (13 + suc m) ≡ suc (27 - (13 + suc m))
    up = omega (arith, h)

    fits : 28 - (13 + suc m) ≤ 15
    fits = omega arith

    below : 2 ^ (28 - (13 + suc m)) ≤ 2 ^ 15
    below = pow-le-pow_right two fits

    any : 0 ≤ 27 - (13 + suc m)
    any = omega arith

    positive : 2 ^ 0 ≤ 2 ^ (27 - (13 + suc m))
    positive = pow-le-pow_right two any

valid_levels-zeros :
    (m : ℕ) → m ≤ 14 → valid_levels zero_hash [] (1 ∷ []) [] (zeros cache_size) [] m ≡ true
unfolding valid_levels
valid_levels-zeros zero h = refl
valid_levels-zeros (suc m) h =
    ap
      (λ b.
        b
        && valid_level zero_hash [] (1 ∷ []) [] (zeros cache_size) [] (13 + suc m)
            (2 ^ (27 - (13 + suc m))))
      (valid_levels-zeros m (omega (arith, h)))
    ∙ valid_level-zeros cache_size (13 + suc m) (2 ^ (27 - (13 + suc m)))
        (level-fits m (omega (arith, h)))

climb-zeros :
    (node s : Bytes) (ss : List Bytes) → climb zero_hash [] (1 ∷ []) [] node (s ∷ ss) ≡ zeros 32
unfolding climb
climb-zeros node s [] = parent-zeros node s
climb-zeros node s (t ∷ ss) = climb-zeros (parent zero_hash [] (1 ∷ []) [] node s) t ss

abbrev zero_nodes : List Bytes
zero_nodes = replicate 8192 (zeros 32)

block-zeros : node_at (levels_up zero_hash [] (1 ∷ []) [] low_length zero_nodes) 0 ≡ zeros 32
unfolding low_path
block-zeros =
    sym (
      climb-low_path zero_hash [] (1 ∷ []) [] 13 zero_nodes 0 (length-replicate 8192 (zeros 32))
        (omega arith))
    ∙ climb-zeros (node_at zero_nodes 0) _ _

node-zeros :
    cache_node zero_hash [] (1 ∷ []) [] (zeros cache_size) [] low_length (133784559 / block_leaves)
    ≡ zeros 32
unfolding cache_node
node-zeros = slice-zeros cache_size ((32768 - 2 ^ (28 - 13) + 133784559 / 8192) * 32) (omega arith)

climb-segments_example :
    climb zero_hash []
      (1 ∷ [])
      []
      (climb zero_hash []
        (1 ∷ [])
        []
        (node_at zero_nodes (133784559 % block_leaves))
        (low_path zero_hash [] (1 ∷ []) [] low_length zero_nodes (133784559 % block_leaves)))
      (high_path zero_hash [] (1 ∷ []) [] (zeros cache_size) [] high_length low_length 133784559)
    ≡ cache_node zero_hash [] (1 ∷ []) [] (zeros cache_size) [] tree_depth 0
climb-segments_example =
    climb-segments zero_hash [] (1 ∷ []) [] (zeros cache_size) []
      (valid_levels-zeros 14 (omega arith)) zero_nodes 133784559 (length-replicate 8192 (zeros 32))
      (omega arith)
      (bytes_eq_zeros (node_at (levels_up zero_hash [] (1 ∷ []) [] low_length zero_nodes) 0)
        (cache_node zero_hash [] (1 ∷ []) [] (zeros cache_size) [] low_length
          (133784559 / block_leaves))
        block-zeros node-zeros)

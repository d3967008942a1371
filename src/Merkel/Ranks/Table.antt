-- ===== src/Merkel/Ranks/Table.antt =====
-- The ranks of a table follow the order of the strengths.
use arkade_poker.Prelude.{
  ℕ, ◌+◌, ◌≡◌, ◌≤◌, ◌<◌, List, [], ◌∷◌, ◌==◌, ◌||◌, true, arith, length, refl, ◌∙◌, ap,
}
use arkade_poker.Merkel.Cards.{holds}
use arkade_poker.Merkel.Ranks.{insert_key, order_keys, rank_in}

-- Keys in strictly ascending order, from a lower bound on.
abbrev IsStrict : ℕ → List ℕ → Type 0
IsStrict lo [] = Unit {0}
IsStrict lo (k ∷ ks) = (lo ≤ k) × IsStrict (k + 1) ks

insert_key-IsStrict :
    (lo k : ℕ) (ls : List ℕ) → lo ≤ k → IsStrict lo ls → IsStrict lo (insert_key k ls)
unfolding insert_key
insert_key-IsStrict lo k [] le s = (le, tt)
insert_key-IsStrict lo k (l ∷ ls) le (h, rest) = ground (arith, insert_key-IsStrict (l + 1) k ls)

order_keys-IsStrict : (ks : List ℕ) → IsStrict 0 (order_keys ks)
unfolding order_keys
order_keys-IsStrict [] = tt
order_keys-IsStrict (k ∷ ks) =
    insert_key-IsStrict 0 k (order_keys ks) (omega arith) (order_keys-IsStrict ks)

holds-insert_key : (x k : ℕ) (ls : List ℕ) → holds x (insert_key k ls) ≡ (x == k || holds x ls)
unfolding insert_key
holds-insert_key x k [] = refl
holds-insert_key x k (l ∷ ls) = ground (arith, holds-insert_key x k ls)

holds-order_keys : (x : ℕ) (ks : List ℕ) → holds x (order_keys ks) ≡ holds x ks
unfolding order_keys
holds-order_keys x [] = refl
holds-order_keys x (k ∷ ks) =
    holds-insert_key x k (order_keys ks) ∙ ap (λ b. x == k || b) (holds-order_keys x ks)

rank_in_bounds :
    (ls : List ℕ) (k : ℕ) → holds k ls ≡ true → (1 ≤ rank_in ls k) × (rank_in ls k ≤ length ls)
unfolding rank_in
rank_in_bounds [] k h = cc
rank_in_bounds (l ∷ ls) k h = ground (arith, rank_in_bounds ls k)

above_bound : (lo k : ℕ) (ls : List ℕ) → IsStrict lo ls → holds k ls ≡ true → lo ≤ k
above_bound lo k [] s h = cc
above_bound lo k (l ∷ ls) (le, rest) h = ground (arith, above_bound (l + 1) k ls rest)

rank_in_mono :
    (lo k l : ℕ) (ls : List ℕ)
    → IsStrict lo ls
    → holds k ls ≡ true
    → holds l ls ≡ true
    → k < l
    → rank_in ls k < rank_in ls l
unfolding rank_in
rank_in_mono lo k l [] s hk hl lt = cc
rank_in_mono lo k l (m ∷ ls) (le, rest) hk hl lt = ground (
  arith,
  rank_in_mono (m + 1) k l ls rest,
  above_bound (m + 1) k ls rest,
  above_bound (m + 1) l ls rest,
  rank_in_bounds ls l,
  rank_in_bounds ls k,
)

-- Of two strengths that are among the keys of a table, the smaller has the smaller rank, and the
-- ranks lie between 1 and the number of ordered keys.
pub rank_in-order_keys :
    (ks : List ℕ) (k l : ℕ)
    → holds k ks ≡ true
    → holds l ks ≡ true
    → k < l
    → (1 ≤ rank_in (order_keys ks) k)
      × (rank_in (order_keys ks) k < rank_in (order_keys ks) l)
      × (rank_in (order_keys ks) l ≤ length (order_keys ks))
rank_in-order_keys ks k l hk hl lt =
    let k_there = holds-order_keys k ks ∙ hk in
    let l_there = holds-order_keys l ks ∙ hl in
    (
      (rank_in_bounds (order_keys ks) k k_there).0,
      rank_in_mono 0 k l (order_keys ks) (order_keys-IsStrict ks) k_there l_there lt,
      (rank_in_bounds (order_keys ks) l l_there).1,
    )

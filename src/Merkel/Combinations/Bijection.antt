-- ===== src/Merkel/Combinations/Bijection.antt =====
-- The index of a hand and the hand at an index are inverse to one another.
use arkade_poker.Prelude.{
  ℕ, zero, suc, ◌+◌, ◌-◌, ◌≡◌, ◌<◌, ◌≤◌, ◌%◌, some, arith, u64_mod, refl, ap, ◌∙◌, List, [], ◌∷◌,
  length,
}
use arkade_poker.Merkel.Combinations.{
  choose, skip, find, above, index_from, cards_from, combination_at, prepend, next_card,
}
use arkade_poker.Merkel.Combinations.Pascal.{choose_all}
use arkade_poker.Merkel.Combinations.Skips.{choose_split, choose_mono, skip_lem, find_lem}

-- Cards in ascending order, from a lower bound on.
abbrev pub IsAscending : ℕ → List ℕ → Type 0
IsAscending lo [] = Unit {0}
IsAscending lo (c ∷ cs) = (lo ≤ c) × (c < 52) × IsAscending (c + 1) cs

choose-zero : (n : ℕ) → choose n 0 ≡ 1
unfolding choose
choose-zero n = ground arith

cards_from_step :
    (n lo index c rest : ℕ) (cs : List ℕ)
    → c < 52
    → find 256 lo n index ≡ some (c, rest)
    → cards_from n (c + 1) rest ≡ some cs
    → cards_from (suc n) lo index ≡ some (c ∷ cs)
unfolding cards_from
cards_from_step n lo index c rest cs lt found tail =
    let b : (c + 1) % 256 ≡ c + 1 = omega arith in
    ap (next_card (cards_from n)) found ∙ rw b (ap (prepend c) tail)

above_next : (c : ℕ) → c < 52 → 52 - (c + 1) ≡ above c
above_next c h = omega arith

add-one : (n : ℕ) → n + 1 ≡ suc n
add-one n = omega arith

-- Skipping to a card leaves room for the hands that start with it.
room_left :
    (n lo c index : ℕ)
    → n < 7
    → lo ≤ c
    → c < 52
    → index + choose (52 - lo) (suc n) < u64_mod
    → skip (c - lo) lo n index + choose (52 - (c + 1)) n < u64_mod
room_left n lo c index small le lt fits =
    let e : lo + (c - lo) ≡ c = omega arith in
    let one = ap (choose (52 - lo)) (add-one n) in
    let skipped = skip_lem (c - lo) lo n index (omega arith) small (omega (arith, one)) in
    omega (
      arith,
      ap (λ (x : ℕ). choose (52 - x) (n + 1)) e,
      choose_split c n lt small,
      ap (λ (x : ℕ). choose x n) (above_next c lt),
    )

-- One card: skipping to it and searching for it agree, whatever the later cards add.
card_round :
    (n lo c index r : ℕ) (cs : List ℕ)
    → n < 7
    → lo ≤ c
    → c < 52
    → r < choose (52 - (c + 1)) n
    → cards_from n (c + 1) r ≡ some cs
    → index + choose (52 - lo) (suc n) < u64_mod
    → (index ≤ skip (c - lo) lo n index)
      × ((skip (c - lo) lo n index - index) + r < choose (52 - lo) (suc n))
      × (cards_from (suc n) lo ((skip (c - lo) lo n index - index) + r) ≡ some (c ∷ cs))
card_round n lo c index r cs small le lt lr tail fits =
    let e : lo + (c - lo) ≡ c = omega arith in
    let s : ℕ = skip (c - lo) lo n index in
    let one = ap (choose (52 - lo)) (add-one n) in
    let a = ap (λ (x : ℕ). choose x n) (above_next c lt) in
    let ends = ap (λ (x : ℕ). choose (52 - x) (n + 1)) e in
    let skipped = skip_lem (c - lo) lo n index (omega arith) small (omega (arith, one)) in
    let split = choose_split c n lt small in
    let mono = choose_mono (c - lo) lo n (omega arith) small in
    let here = ap (λ (x : ℕ). choose (above x) n) e in
    let found =
      find_lem 256 (c - lo) lo n ((s - index) + r) r (omega arith) (omega arith) small
        (omega (arith, here)) (omega (arith, ends)) in
    (
      omega (arith, ends),
      omega (arith, ends, one),
      cards_from_step n lo ((s - index) + r) c r cs lt (found ∙ ap (λ (x : ℕ). some (x, r)) e) tail,
    )

index_from_step :
    (n lo c index : ℕ) (cs : List ℕ)
    → index_from (suc n) lo (c ∷ cs) index ≡ index_from n (c + 1) cs (skip (c - lo) lo n index)
unfolding index_from
index_from_step n lo c index cs = let e : suc n - 1 ≡ n = omega arith in rw e

-- The part of the index that the cards from a lower bound on add, and the search for it.
index_round :
    (n lo : ℕ) (cs : List ℕ) (index : ℕ)
    → length cs ≡ n
    → n < 8
    → lo ≤ 52
    → IsAscending lo cs
    → index + choose (52 - lo) n < u64_mod
    → (r : ℕ) × (index_from n lo cs index ≡ index + r)
      × (r < choose (52 - lo) n)
      × (cards_from n lo r ≡ some cs)
unfolding index_from cards_from
index_round zero lo [] index len small hlo asc fits =
    (0, omega arith, rw choose-zero (omega arith), refl)
index_round zero lo (c ∷ cs) index len small hlo asc fits = absurd (omega arith)
index_round (suc n) lo [] index len small hlo asc fits = absurd (omega arith)
index_round (suc n) lo (c ∷ cs) index len small hlo (le, lt, asc) fits =
    let s : ℕ = skip (c - lo) lo n index in
    let room = room_left n lo c index (omega arith) le lt fits in
    let (r, ei, lr, ec) =
      index_round n (c + 1) cs s (omega arith) (omega arith) (omega arith) asc room in
    let (up, below, found) = card_round n lo c index r cs (omega arith) le lt lr ec fits in
    ((s - index) + r, index_from_step n lo c index cs ∙ ei ∙ omega arith, below, found)

-- An ascending hand of seven cards is found at its index, which lies below the number of leaves.
pub combination_at-index :
    (cs : List ℕ)
    → length cs ≡ 7
    → IsAscending 0 cs
    → (index_from 7 0 cs 0 < 133784560) × (combination_at (index_from 7 0 cs 0) ≡ some cs)
unfolding combination_at
combination_at-index cs len asc =
    let (r, e, lt, found) =
      index_round 7 0 cs 0 len (omega arith) (omega arith) asc (omega (arith, choose_all)) in
    at_index r e lt found
  where
    at_index :
        (r : ℕ)
        → index_from 7 0 cs 0 ≡ 0 + r
        → r < choose (52 - 0) 7
        → cards_from 7 0 r ≡ some cs
        → (index_from 7 0 cs 0 < 133784560) × (cards_from 7 0 (index_from 7 0 cs 0) ≡ some cs)
    at_index r e lt found =
        let f : index_from 7 0 cs 0 ≡ r = omega arith in (omega (arith, choose_all), rw f found)

-- ===== src/Merkel/Ranks/Best.antt =====
-- What the searches for the best five cards find.
use mathlib.Core.List.{Memᴰ}
use arkade_poker.Prelude.{
  ℕ, zero, suc, ◌≡◌, ◌≤◌, ◌<◌, ◌⊎◌, inl, inr, List, [], ◌∷◌, ◌++◌, map, true, false, ltb, arith,
  length, ok, >>=-eq-ok, reject, bad_cards, All, refl, ap, ◌∙◌, ◌||◌, if◌then◌else◌, Bool-cases,
  sym, subst,
}
use arkade_poker.Merkel.Cards.{validate}
use arkade_poker.Merkel.Strength.{strength}
use arkade_poker.Merkel.Strength.Positive.{strength-pos}
use arkade_poker.Merkel.Ranks.Subsets.{Sub, Sub-omit, omit-Sub}
use arkade_poker.Merkel.Ranks.{
  rank_in, choices, omit, best_rank, rank7, best_hand, describe, Description,
}

abbrev raised : List ℕ → ℕ → List ℕ → ℕ
raised table best hand =
    if ltb best (rank_in table (strength hand)) then rank_in table (strength hand) else best

best_rank-le :
    (table : List ℕ) (hands : List (List ℕ)) (best : ℕ) → best ≤ best_rank table hands best
unfolding best_rank
best_rank-le table [] best = omega arith
best_rank-le table (hand ∷ hands) best =
    ground (arith, best_rank-le table hands (raised table best hand))

best_rank-All :
    (table : List ℕ) (hands : List (List ℕ)) (best : ℕ)
    → All (λ hand. rank_in table (strength hand) ≤ best_rank table hands best) hands
unfolding best_rank
best_rank-All table [] best = tt
best_rank-All table (hand ∷ hands) best = (
  ground (arith, best_rank-le table hands (raised table best hand)),
  best_rank-All table hands (raised table best hand),
)

best_rank-Mem :
    (table : List ℕ) (hands : List (List ℕ)) (best : ℕ)
    → (best_rank table hands best ≡ best)
      ⊎ ((hand : List ℕ) × Memᴰ hand hands
          × (best_rank table hands best ≡ rank_in table (strength hand)))
unfolding best_rank
best_rank-Mem table [] best = inl refl
best_rank-Mem table (hand ∷ hands) best =
    elim (best_rank-Mem table hands (raised table best hand)) [
      | inl e ↦ elim (Bool-cases (ltb best (rank_in table (strength hand)))) [
        | inl up ↦ inr (
          hand,
          Memᴰ.head refl,
          e ∙ ap (λ b. if b then rank_in table (strength hand) else best) up,
        )
        | inr down ↦ inl (e ∙ ap (λ b. if b then rank_in table (strength hand) else best) down)
      ]
      | inr (h, m, e) ↦ inr (h, Memᴰ.tail m, e)
    ]

module _ (P : List ℕ → Type 0) where
  All-append : (xs ys : List (List ℕ)) → All P xs → All P ys → All P (xs ++ ys)
  All-append [] ys p q = q
  All-append (x ∷ xs) ys (p, ps) q = (p, All-append xs ys ps q)

  All-Mem : (xs : List (List ℕ)) (x : List ℕ) → Memᴰ x xs → All P xs → P x
  All-Mem [] x m all = elim m [ ]
  All-Mem (y ∷ ys) x (Memᴰ.head e) (p, ps) = subst P (sym e) p
  All-Mem (y ∷ ys) x (Memᴰ.tail m) (p, ps) = All-Mem ys x m ps

-- The rank of seven cards is at least that of every five of them, and it is the rank of some five
-- of them.
pub rank7_best :
    (table cards : List ℕ) (hand : List ℕ)
    → length cards ≡ 7
    → Sub hand cards
    → length hand ≡ 5
    → (rank_in table (strength hand) ≤ rank7 table cards)
      × ((best : List ℕ) × Sub best cards
          × (length best ≡ 5)
          × (rank7 table cards ≡ rank_in table (strength best)))
unfolding rank7
rank7_best table cards hand seven of five =
    let rank : ℕ = best_rank table (omit 2 cards) 0 in
    let below : rank_in table (strength hand) ≤ rank =
      All-Mem (λ h. rank_in table (strength h) ≤ rank) (omit 2 cards) hand
        (Sub-omit 2 of (omega (arith, seven, five))) (best_rank-All table (omit 2 cards) 0) in
    (
      below,
      elim (best_rank-Mem table (omit 2 cards) 0) [
        | inl none_better ↦ (hand, of, five, omega (arith, below, none_better))
        | inr (best, m, e) ↦
            let (s, two) = omit-Sub 2 best cards m in (best, s, omega (arith, two, seven), e)
      ],
    )

best_hand-nil : (v : ℕ) (best : List ℕ) → best_hand [] v best ≡ (v, best)
unfolding best_hand
best_hand-nil v best = refl

-- One round of the search, where the next hand is better and where it is not.
module _ (hand : List ℕ) (hands : List (List ℕ)) (v : ℕ) (best : List ℕ) where
  best_hand-up :
      ltb v (strength hand) ≡ true
      → best_hand (hand ∷ hands) v best ≡ best_hand hands (strength hand) hand
  unfolding best_hand
  best_hand-up h =
      ap (λ b. best_hand hands (if b then strength hand else v) (if b then hand else best)) h

  best_hand-down :
      ltb v (strength hand) ≡ false → best_hand (hand ∷ hands) v best ≡ best_hand hands v best
  unfolding best_hand
  best_hand-down h =
      ap (λ b. best_hand hands (if b then strength hand else v) (if b then hand else best)) h

best_hand-le : (hands : List (List ℕ)) (v : ℕ) (best : List ℕ) → v ≤ (best_hand hands v best).0
best_hand-le [] v best = omega (arith, ap (λ (p : ℕ × List ℕ). p.0) (best_hand-nil v best))
best_hand-le (hand ∷ hands) v best = elim (Bool-cases (ltb v (strength hand))) [
  | inl up ↦
      rw (best_hand-up hand hands v best up)
        (ground (arith, best_hand-le hands (strength hand) hand))
  | inr down ↦ rw (best_hand-down hand hands v best down) (best_hand-le hands v best)
]

best_hand-All :
    (hands : List (List ℕ)) (v : ℕ) (best : List ℕ)
    → All (λ hand. strength hand ≤ (best_hand hands v best).0) hands
best_hand-All [] v best = tt
best_hand-All (hand ∷ hands) v best =
    let Bounded : ℕ × List ℕ → Type 0 = λ p. All (λ h. strength h ≤ p.0) (hand ∷ hands) in
    elim (Bool-cases (ltb v (strength hand))) [
      | inl up ↦
          subst Bounded (sym (best_hand-up hand hands v best up))
            (best_hand-le hands (strength hand) hand, best_hand-All hands (strength hand) hand)
      | inr down ↦
          subst Bounded (sym (best_hand-down hand hands v best down))
            (ground (arith, best_hand-le hands v best), best_hand-All hands v best)
    ]

best_hand-Mem :
    (hands : List (List ℕ)) (v : ℕ) (best : List ℕ)
    → (best_hand hands v best ≡ (v, best))
      ⊎ (Memᴰ (best_hand hands v best).1 hands
          × ((best_hand hands v best).0 ≡ strength (best_hand hands v best).1))
best_hand-Mem [] v best = inl (best_hand-nil v best)
best_hand-Mem (hand ∷ hands) v best = elim (Bool-cases (ltb v (strength hand))) [
  | inl up ↦
      rw (best_hand-up hand hands v best up) (elim (best_hand-Mem hands (strength hand) hand) [
        | inl e ↦ inr (
          Memᴰ.head (ap (λ (p : ℕ × List ℕ). p.1) e),
          ap (λ (p : ℕ × List ℕ). p.0) e ∙ ap (λ (p : ℕ × List ℕ). strength p.1) (sym e),
        )
        | inr (m, e) ↦ inr (Memᴰ.tail m, e)
      ])
  | inr down ↦
      rw (best_hand-down hand hands v best down)
        (elim (best_hand-Mem hands v best) [ inl e ↦ inl e | inr (m, e) ↦ inr (Memᴰ.tail m, e) ])
]

All-longer :
    (c n : ℕ) (hands : List (List ℕ))
    → All (λ hand. length hand ≡ n) hands
    → All (λ hand. length hand ≡ suc n) (map (λ rest. c ∷ rest) hands)
All-longer c n [] h = tt
All-longer c n (x ∷ xs) (h, hs) = (ap suc h, All-longer c n xs hs)

-- Each choice of cards has its number of cards, and there is one of any number up to all of them.
choices-length : (n : ℕ) (cards : List ℕ) → All (λ hand. length hand ≡ n) (choices n cards)
unfolding choices
choices-length zero cards = (refl, tt)
choices-length (suc n) [] = tt
choices-length (suc n) (c ∷ cs) =
    All-append (λ hand. length hand ≡ suc n) (map (λ rest. c ∷ rest) (choices n cs))
      (choices (suc n) cs) (All-longer c n (choices n cs) (choices-length n cs))
      (choices-length (suc n) cs)

Mem-longer :
    (c : ℕ) (h : List ℕ) (xs ys : List (List ℕ))
    → Memᴰ h xs
    → Memᴰ (c ∷ h) (map (λ rest. c ∷ rest) xs ++ ys)
Mem-longer c h [] ys m = elim m [ ]
Mem-longer c h (x ∷ xs) ys (Memᴰ.head e) = Memᴰ.head (ap (◌∷◌ c) e)
Mem-longer c h (x ∷ xs) ys (Memᴰ.tail m) = Memᴰ.tail (Mem-longer c h xs ys m)

choices-Mem :
    (n : ℕ) (cards : List ℕ) → n ≤ length cards → (hand : List ℕ) × Memᴰ hand (choices n cards)
unfolding choices
choices-Mem zero cards h = ([], Memᴰ.head refl)
choices-Mem (suc n) [] h = absurd (omega arith)
choices-Mem (suc n) (c ∷ cs) h =
    let (hand, m) = choices-Mem n cs (omega arith) in
    (c ∷ hand, Mem-longer c hand (choices n cs) (choices (suc n) cs) m)

length-pos : (n : ℕ) (hand : List ℕ) → length hand ≡ suc n → 0 < strength hand
length-pos n [] h = absurd (omega arith)
length-pos n (c ∷ cs) h = strength-pos c cs

-- From the start, the search over the choices of five ends in a best one.
best_choice :
    (cards zeros : List ℕ)
    → 5 ≤ length cards
    → Memᴰ (best_hand (choices 5 cards) 0 zeros).1 (choices 5 cards)
      × ((best_hand (choices 5 cards) 0 zeros).0 ≡ strength (best_hand (choices 5 cards) 0 zeros).1)
best_choice cards zeros five = elim (best_hand-Mem (choices 5 cards) 0 zeros) [
  | inr found ↦ found
  | inl none_found ↦
      let (hand, m) = choices-Mem 5 cards five in
      let value : ℕ = (best_hand (choices 5 cards) 0 zeros).0 in
      absurd (
        omega (
          arith,
          ap (λ (p : ℕ × List ℕ). p.0) none_found,
          All-Mem (λ h. strength h ≤ value) (choices 5 cards) hand m
              (best_hand-All (choices 5 cards) 0 zeros),
          length-pos 4 hand
              (All-Mem (λ h. length h ≡ 5) (choices 5 cards) hand m (choices-length 5 cards)),
        ))
]

-- The five cards that a description shows are five of the hand's, in its order, and no five of
-- them are stronger.
pub describe_best :
    (cards : List ℕ) (d : Description)
    → describe cards ≡ ok d
    → Memᴰ d.hand (choices 5 cards)
      × All (λ hand. strength hand ≤ strength d.hand) (choices 5 cards)
unfolding describe
describe_best cards d h =
    let zeros : List ℕ = 0 ∷ 0 ∷ 0 ∷ 0 ∷ 0 ∷ [] in
    let (_, eg, h1) =
      >>=-eq-ok (reject (ltb (length cards) 5 || ltb 7 (length cards)) bad_cards) _ h in
    let (_, _, h2) = >>=-eq-ok (validate cards) _ h1 in
    let (m, e) = best_choice cards zeros (ground arith) in
    let same : d.hand ≡ (best_hand (choices 5 cards) 0 zeros).1 = ground arith in
    let Best : List ℕ → Type 0 =
      λ x. Memᴰ x (choices 5 cards) × All (λ hand. strength hand ≤ strength x) (choices 5 cards) in
    subst Best (sym same) (
      m,
      subst (λ (v : ℕ). All (λ hand. strength hand ≤ v) (choices 5 cards)) e
          (best_hand-All (choices 5 cards) 0 zeros),
    )

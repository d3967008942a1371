-- ===== src/Merkel/Ranks/Subsets.antt =====
-- The code's enumeration of the cards that are left out of a hand, in Rank7 of internal/merkel/ranking.go, is of every
-- way to keep as many.
use mathlib.Core.List.{Memᴰ}
use arkade_poker.Prelude.{
  ℕ, zero, suc, ◌+◌, ◌≡◌, ◌≤◌, ◌⊎◌, inl, inr, List, [], ◌∷◌, ◌++◌, map, arith, length, refl, ap,
  sym, subst,
}
use arkade_poker.Merkel.Ranks.{omit}

-- `hand` is made of cards of `cards`, in their order.
pub data Sub : List ℕ → List ℕ → Type 0 where
  sub_nil : Sub [] []
  keep : {c : ℕ} {hand cards : List ℕ} → Sub hand cards → Sub (c ∷ hand) (c ∷ cards)
  skip : {c : ℕ} {hand cards : List ℕ} → Sub hand cards → Sub hand (c ∷ cards)

module _ {A : Type 0} where
  Mem-left : (x : A) (xs ys : List A) → Memᴰ x xs → Memᴰ x (xs ++ ys)
  Mem-left x [] ys m = elim m [ ]
  Mem-left x (y ∷ xs) ys (Memᴰ.head e) = Memᴰ.head e
  Mem-left x (y ∷ xs) ys (Memᴰ.tail m) = Memᴰ.tail (Mem-left x xs ys m)

  Mem-right : (x : A) (xs ys : List A) → Memᴰ x ys → Memᴰ x (xs ++ ys)
  Mem-right x [] ys m = m
  Mem-right x (y ∷ xs) ys m = Memᴰ.tail (Mem-right x xs ys m)

  Mem-append : (x : A) (xs ys : List A) → Memᴰ x (xs ++ ys) → Memᴰ x xs ⊎ Memᴰ x ys
  Mem-append x [] ys m = inr m
  Mem-append x (y ∷ xs) ys (Memᴰ.head e) = inl (Memᴰ.head e)
  Mem-append x (y ∷ xs) ys (Memᴰ.tail m) = elim (Mem-append x xs ys m) [
    | inl l ↦ inl (Memᴰ.tail l)
    | inr r ↦ inr r
  ]

Mem-with :
    (c : ℕ) (hand : List ℕ) (hands : List (List ℕ))
    → Memᴰ hand hands
    → Memᴰ (c ∷ hand) (map (λ rest. c ∷ rest) hands)
Mem-with c hand [] m = elim m [ ]
Mem-with c hand (x ∷ xs) (Memᴰ.head e) = Memᴰ.head (ap (◌∷◌ c) e)
Mem-with c hand (x ∷ xs) (Memᴰ.tail m) = Memᴰ.tail (Mem-with c hand xs m)

with-Mem :
    (c : ℕ) (hand : List ℕ) (hands : List (List ℕ))
    → Memᴰ hand (map (λ rest. c ∷ rest) hands)
    → (rest : List ℕ) × Memᴰ rest hands × (hand ≡ c ∷ rest)
with-Mem c hand [] m = elim m [ ]
with-Mem c hand (x ∷ xs) (Memᴰ.head e) = (x, Memᴰ.head refl, e)
with-Mem c hand (x ∷ xs) (Memᴰ.tail m) =
    let (rest, found, e) = with-Mem c hand xs m in (rest, Memᴰ.tail found, e)

Sub-length : {hand cards : List ℕ} → Sub hand cards → length hand ≤ length cards
Sub-length sub_nil = omega arith
Sub-length (keep s) = omega (arith, Sub-length s)
Sub-length (skip s) = omega (arith, Sub-length s)

Sub-all : {hand cards : List ℕ} → Sub hand cards → length hand ≡ length cards → hand ≡ cards
Sub-all sub_nil h = refl
Sub-all (keep {c = c} s) h = ap (◌∷◌ c) (Sub-all s (omega (arith, h)))
Sub-all (skip s) h = absurd (omega (arith, h, Sub-length s))

Sub-refl : (cards : List ℕ) → Sub cards cards
Sub-refl [] = sub_nil
Sub-refl (c ∷ cs) = keep (Sub-refl cs)

-- The code leaves out cards in every way.
pub Sub-omit :
    (n : ℕ) {hand cards : List ℕ}
    → Sub hand cards
    → length hand + n ≡ length cards
    → Memᴰ hand (omit n cards)
unfolding omit
Sub-omit zero s h = Memᴰ.head (Sub-all s (omega (arith, h)))
Sub-omit (suc n) sub_nil h = absurd (omega (arith, h))
Sub-omit (suc n) (keep {c = c} {hand = hand} {cards = cards} s) h =
    Mem-right (c ∷ hand) (omit n cards) (map (λ rest. c ∷ rest) (omit (suc n) cards))
      (Mem-with c hand (omit (suc n) cards) (Sub-omit (suc n) s (omega (arith, h))))
Sub-omit (suc n) (skip {c = c} {hand = hand} {cards = cards} s) h =
    Mem-left hand (omit n cards) (map (λ rest. c ∷ rest) (omit (suc n) cards))
      (Sub-omit n s (omega (arith, h)))

-- What it leaves is of the cards, and so many fewer.
pub omit-Sub :
    (n : ℕ) (hand cards : List ℕ)
    → Memᴰ hand (omit n cards)
    → Sub hand cards × (length hand + n ≡ length cards)
unfolding omit
omit-Sub zero hand cards (Memᴰ.head e) =
    (subst (λ x. Sub x cards) (sym e) (Sub-refl cards), omega (arith, ap length e))
omit-Sub zero hand cards (Memᴰ.tail m) = elim m [ ]
omit-Sub (suc n) hand [] m = elim m [ ]
omit-Sub (suc n) hand (c ∷ cs) m =
    elim (Mem-append hand (omit n cs) (map (λ rest. c ∷ rest) (omit (suc n) cs)) m) [
      | inl l ↦ let (s, e) = omit-Sub n hand cs l in (skip s, omega (arith, e))
      | inr r ↦
          let (rest, found, same) = with-Mem c hand (omit (suc n) cs) r in
          let (s, e) = omit-Sub (suc n) rest cs found in
          (subst (λ x. Sub x (c ∷ cs)) (sym same) (keep s), omega (arith, e, ap length same))
    ]

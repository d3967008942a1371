-- ===== src/Merkel/Strength/Order.antt =====
-- The strength of a hand does not depend on the order of its cards.
use mathlib.Core.List.{Permᴰ}
use mathlib.Core.Path.{fun_ext}
use arkade_poker.Prelude.{ℕ, ◌≡◌, List, [], ◌∷◌, Bool, true, false, refl, ◌∙◌, sym, ap, arith}
use arkade_poker.Merkel.Strength.{
  count, of_suit, flush, strength, suit_of, shape_from, straight, classify, pack, no_cards,
}

count-perm : (r : ℕ) {xs ys : List ℕ} → Permᴰ xs ys → count r xs ≡ count r ys
unfolding count
count-perm r Permᴰ.nil = refl
count-perm r (Permᴰ.cons e p) = ground (arith, count-perm r p)
count-perm r (Permᴰ.swap e f) = ground arith
count-perm r (Permᴰ.trans p q) = count-perm r p ∙ count-perm r q

of_suit-perm : (s : ℕ) {xs ys : List ℕ} → Permᴰ xs ys → of_suit s xs ≡ of_suit s ys
unfolding of_suit
of_suit-perm s Permᴰ.nil = refl
of_suit-perm s (Permᴰ.cons e p) = ground (arith, of_suit-perm s p)
of_suit-perm s (Permᴰ.swap e f) = ground arith
of_suit-perm s (Permᴰ.trans p q) = of_suit-perm s p ∙ of_suit-perm s q

-- A hand that is of one suit is of the suit of its first card.
of_suit-flush : (s : ℕ) (xs : List ℕ) → of_suit s xs ≡ true → flush xs ≡ true
unfolding of_suit flush
of_suit-flush s [] h = refl
of_suit-flush s (x ∷ xs) h =
    let e : suit_of x ≡ s = ground arith in ground (arith, ap (λ (t : ℕ). of_suit t xs) e)

flush-of_suit : (xs : List ℕ) → flush xs ≡ true → (s : ℕ) × (of_suit s xs ≡ true)
unfolding flush of_suit
flush-of_suit [] h = (0, refl)
flush-of_suit (x ∷ xs) h = (suit_of x, h)

flush-perm : {xs ys : List ℕ} → Permᴰ xs ys → flush xs ≡ true → flush ys ≡ true
flush-perm {xs} {ys} p h =
    let (s, e) = flush-of_suit xs h in of_suit-flush s ys (sym (of_suit-perm s p) ∙ e)

both_ways : (a b : Bool) → (a ≡ true → b ≡ true) → (b ≡ true → a ≡ true) → a ≡ b
both_ways true b f g = sym (f refl)
both_ways false true f g = g refl
both_ways false false f g = refl

back : {xs ys : List ℕ} → Permᴰ xs ys → Permᴰ ys xs
back Permᴰ.nil = Permᴰ.nil
back (Permᴰ.cons e p) = Permᴰ.cons (sym e) (back p)
back (Permᴰ.swap e f) = Permᴰ.swap (sym f) (sym e)
back (Permᴰ.trans p q) = Permᴰ.trans (back q) (back p)

-- Two orders of the same cards have the same strength.
pub strength-perm : {xs ys : List ℕ} → Permᴰ xs ys → strength xs ≡ strength ys
unfolding strength
strength-perm {xs} {ys} p =
    let counts : (λ r. count r xs) ≡ (λ r. count r ys) = fun_ext (λ r. count-perm r p) in
    let flushes : flush xs ≡ flush ys =
      both_ways (flush xs) (flush ys) (flush-perm p) (flush-perm (back p)) in
    let of : Bool → (ℕ → ℕ) → ℕ =
      λ f c. let s = shape_from 13 c no_cards in pack (classify f (straight s.distinct) s) in
    ap (λ (f : Bool). of f (λ r. count r xs)) flushes ∙ ap (of (flush ys)) counts

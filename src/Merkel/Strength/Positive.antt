-- ===== src/Merkel/Strength/Positive.antt =====
-- A hand with a card has a strength above zero.
use native.Mathlib.Decide.{ℕ_discrete}
use arkade_poker.Prelude.{ℕ, zero, suc, ◌+◌, ◌<◌, List, [], ◌∷◌, ◌++◌, Bool, arith, ◌%◌, ◌≢◌}
use arkade_poker.Merkel.Strength.{
  Shape, note_rank, shape_from, classify, pack, at, no_cards, strength, count, straight, flush,
}

abbrev Heads : List ℕ → Type 0
Heads [] = Unit {0}
Heads (x ∷ xs) = 0 < x

at-append : (xs ys : List ℕ) → 0 < at xs 0 → 0 < at (xs ++ ys) 0
at-append [] ys h = absurd (omega arith)
at-append (x ∷ xs) ys h = h

Heads-append : (xs : List ℕ) (r : ℕ) → 0 < r → Heads xs → 0 < at (xs ++ (r ∷ [])) 0
Heads-append [] r pos h = pos
Heads-append (x ∷ xs) r pos h = h

at-Heads : (xs : List ℕ) → 0 < at xs 0 → Heads xs
at-Heads [] h = tt
at-Heads (x ∷ xs) h = h

note_rank-kept : (r n : ℕ) (s : Shape) → 0 < at s.distinct 0 → 0 < at (note_rank r n s).distinct 0
unfolding note_rank
note_rank-kept r n s h = ground (arith, at-append s.distinct (r ∷ []))

note_rank-Heads :
    (r n : ℕ) (s : Shape) → 0 < r → Heads s.distinct → Heads (note_rank r n s).distinct
unfolding note_rank
note_rank-Heads r n s pos h = elim (ℕ_discrete n 0) [
  | yes e ↦ rw e h
  | no ne ↦ ground (arith, at-Heads (s.distinct ++ (r ∷ [])) (Heads-append s.distinct r pos h))
]

note_rank-found :
    (r n : ℕ) (s : Shape) → 0 < r → n ≢ 0 → Heads s.distinct → 0 < at (note_rank r n s).distinct 0
unfolding note_rank
note_rank-found r n s pos ne h = ground (arith, Heads-append s.distinct r pos h)

shape_from-kept :
    (rounds : ℕ) (counts : ℕ → ℕ) (s : Shape)
    → 0 < at s.distinct 0
    → 0 < at (shape_from rounds counts s).distinct 0
unfolding shape_from
shape_from-kept zero counts s h = h
shape_from-kept (suc rounds) counts s h =
    shape_from-kept rounds counts (note_rank (rounds + 2) (counts (rounds + 2)) s)
      (note_rank-kept (rounds + 2) (counts (rounds + 2)) s h)

shape_from-found :
    (rounds j : ℕ) (counts : ℕ → ℕ) (s : Shape)
    → j < rounds
    → counts (j + 2) ≢ 0
    → Heads s.distinct
    → 0 < at (shape_from rounds counts s).distinct 0
unfolding shape_from
shape_from-found zero j counts s lt ne h = absurd (omega arith)
shape_from-found (suc rounds) j counts s lt ne h =
    let next : Shape = note_rank (rounds + 2) (counts (rounds + 2)) s in
    elim (ℕ_discrete j rounds) [
      | yes e ↦
          shape_from-kept rounds counts next
            (note_rank-found (rounds + 2) (counts (rounds + 2)) s (omega arith) (rw e at ne) h)
      | no d ↦
          shape_from-found rounds j counts next (omega arith) ne
            (note_rank-Heads (rounds + 2) (counts (rounds + 2)) s (omega arith) h)
    ]

classify-pos :
    (f : Bool) (high : ℕ) (s : Shape) → 0 < at s.distinct 0 → 0 < pack (classify f high s)
unfolding classify pack
classify-pos f high s h = ground arith

pub strength-pos : (c : ℕ) (cs : List ℕ) → 0 < strength (c ∷ cs)
unfolding strength count
strength-pos c cs =
    let s : Shape = shape_from 13 (λ r. count r (c ∷ cs)) no_cards in
    classify-pos (flush (c ∷ cs)) (straight s.distinct) s (
      shape_from-found 13 (c % 13) (λ r. count r (c ∷ cs)) no_cards (omega arith) (ground arith) tt)

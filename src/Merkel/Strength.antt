-- ===== src/Merkel/Strength.antt =====
-- internal/merkel/ranking.go, strength: the category and kickers of five cards, packed as six nibbles.
pub mod Order
pub mod Positive
use arkade_poker.Prelude.{
  ℕ, zero, suc, ◌+◌, ◌-◌, ◌*◌, ◌/◌, ◌%◌, Bool, true, false, ◌&&◌, not, List, [], ◌∷◌, ◌++◌, ◌==◌,
  ltb, if◌then◌else◌, length, u8,
}

abbrev pub rank_of : ℕ → ℕ
rank_of c = c % 13 + 2

abbrev pub suit_of : ℕ → ℕ
suit_of c = c / 13

-- The array `counts`, at one rank
unfoldable pub count : ℕ → List ℕ → ℕ
count r [] = 0
count r (c ∷ cs) = if rank_of c == r then count r cs + 1 else count r cs

unfoldable pub of_suit : ℕ → List ℕ → Bool
of_suit s [] = true
of_suit s (c ∷ cs) = suit_of c == s && of_suit s cs

unfoldable pub flush : List ℕ → Bool
flush [] = true
flush (c ∷ cs) = of_suit (suit_of c) (c ∷ cs)

-- The ranks of a hand from the ace down: those that occur, those that occur once and twice, and
-- the one that occurs four times or three times.
pub record Shape : Type 0 where
  pub distinct : List ℕ
  pub singles : List ℕ
  pub pairs : List ℕ
  pub quad : ℕ
  pub trip : ℕ

abbrev pub no_cards : Shape
no_cards = record { distinct = []; singles = []; pairs = []; quad = 0; trip = 0 }

-- One round of the loop over the ranks
unfoldable pub note_rank : ℕ → ℕ → Shape → Shape
note_rank r n s = record {
  distinct = if n == 0 then s.distinct else s.distinct ++ (r ∷ []);
  singles = if n == 1 then s.singles ++ (r ∷ []) else s.singles;
  pairs = if n == 2 then s.pairs ++ (r ∷ []) else s.pairs;
  quad = if n == 4 then r else s.quad;
  trip = if n == 3 then r else s.trip;
}

-- The loop, with `rounds` ranks left: from `rounds + 1` down to 2.
unfoldable pub shape_from : ℕ → (ℕ → ℕ) → Shape → Shape
unfolding note_rank
shape_from zero counts s = s
shape_from (suc rounds) counts s =
    shape_from rounds counts (note_rank (rounds + 2) (counts (rounds + 2)) s)

abbrev pub at : List ℕ → ℕ → ℕ
at [] i = 0
at (x ∷ xs) zero = x
at (x ∷ xs) (suc i) = at xs i

unfoldable pub wheel : List ℕ → Bool
wheel d = at d 0 == 14 && (at d 1 == 5 && (at d 2 == 4 && (at d 3 == 3 && at d 4 == 2)))

unfoldable pub straight : List ℕ → ℕ
unfolding wheel
straight d =
    if length d == 5
    then (if wheel d then 5 else (if u8 (at d 0 + 256 - at d 4) == 4 then at d 0 else 0))
    else 0

pub record Nibbles : Type 0 where
  pub category : ℕ
  pub kicker1 : ℕ
  pub kicker2 : ℕ
  pub kicker3 : ℕ
  pub kicker4 : ℕ
  pub kicker5 : ℕ

abbrev nibbles : ℕ → ℕ → ℕ → ℕ → ℕ → ℕ → Nibbles
nibbles a b c d e f = record {
  category = a;
  kicker1 = b;
  kicker2 = c;
  kicker3 = d;
  kicker4 = e;
  kicker5 = f;
}

-- The `switch` on the shape
unfoldable pub classify : Bool → ℕ → Shape → Nibbles
classify flushed high s =
    let d = s.distinct in
    let one = s.singles in
    let two = s.pairs in
    if flushed && not (high == 0)
    then nibbles 8 high 0 0 0 0
    else (if not (s.quad == 0)
        then nibbles 7 s.quad (at one 0) 0 0 0
        else (if not (s.trip == 0) && length two == 1
            then nibbles 6 s.trip (at two 0) 0 0 0
            else (if flushed
                then nibbles 5 (at d 0) (at d 1) (at d 2) (at d 3) (at d 4)
                else (if not (high == 0)
                    then nibbles 4 high 0 0 0 0
                    else (if not (s.trip == 0)
                        then nibbles 3 s.trip (at one 0) (at one 1) 0 0
                        else (if length two == 2
                            then nibbles 2 (at two 0) (at two 1) (at one 0) 0 0
                            else (if length two == 1
                                then nibbles 1 (at two 0) (at one 0) (at one 1) (at one 2) 0
                                else nibbles 0 (at d 0) (at d 1) (at d 2) (at d 3) (at d 4))))))))

-- `packed<<4 | v` for each nibble: each is below 16, so the bits do not overlap.
unfoldable pub pack : Nibbles → ℕ
pack t =
    ((((t.category * 16 + t.kicker1) * 16 + t.kicker2) * 16 + t.kicker3) * 16 + t.kicker4) * 16
    + t.kicker5

unfoldable pub strength : List ℕ → ℕ
unfolding shape_from straight classify pack
strength cards =
    let s = shape_from 13 (λ r. count r cards) no_cards in
    pack (classify (flush cards) (straight s.distinct) s)

-- ===== src/Game/Slots/Published.antt =====
-- A publication of the covenant writes no slot that the game assigns to the other player.
use arkade_poker.Prelude.{
  ℕ, zero, suc, ◌-◌, ◌≡◌, ◌≢◌, Bool, true, List, [], ◌∷◌, ◌&&◌, ◌==◌, get_elem?, set, refl, arith,
  Result, ok, err, >>=-eq-ok, guard, bad_reveals, ◌∙◌, Option, none, some, ap,
}
use arkade_poker.Covenant.Types.{Bytes, player1, valid_player}
use arkade_poker.Covenant.Reveals.{
  CardLib, RevealWitness, Item, Picked, publish_reveals, publish, pick, nothing_left, take_holes,
  take_flop, take_turn, take_river,
}
use arkade_poker.Game.Slots.{slot_publishers}

-- The publisher of a slot, 0 for none.
abbrev pub publisher : ℕ → ℕ
publisher slot = known (get_elem? slot_publishers slot)
  where
    known : Option ℕ → ℕ
    known none = 0
    known (some p) = p

get_elem?-set :
    (xs : List Bytes) (i j : ℕ) (v : Bytes) → j ≢ i → get_elem? (set xs j v) i ≡ get_elem? xs i
get_elem?-set [] i j v ne = refl
get_elem?-set (x ∷ xs) zero zero v ne = absurd (ne refl)
get_elem?-set (x ∷ xs) zero (suc j) v ne = refl
get_elem?-set (x ∷ xs) (suc i) zero v ne = refl
get_elem?-set (x ∷ xs) (suc i) (suc j) v ne = get_elem?-set xs i j v (λ e. ne (ap suc e))

module _ {Card : Type 0} (cards : CardLib Card) where
  all_own : ℕ → List (Item Card) → Bool
  all_own actor [] = true
  all_own actor (i ∷ rest) = publisher i.slot == actor && all_own actor rest

  own_picked : ℕ → Result (Picked Card) → Bool
  unfolding all_own
  own_picked actor (ok q) = all_own actor q.items
  own_picked actor (err _) = true

  abbrev fresh : RevealWitness Card → Picked Card
  fresh r = record { items = []; left = r }

  pick-own1 :
      (expected : ℕ) (r : RevealWitness Card)
      → own_picked 1 (pick cards expected 0 (fresh r)) ≡ true
  unfolding own_picked all_own pick take_holes take_flop take_turn take_river slot_publishers
  pick-own1 expected r = ground arith

  publish-other :
      (items : List (Item Card)) (reveals witness : List Bytes) (out : List Bytes × List Bytes)
      (actor i : ℕ)
      → all_own actor items ≡ true
      → publisher i ≢ actor
      → publish cards items reveals witness ≡ ok out
      → get_elem? out.0 i ≡ get_elem? reveals i
  unfolding publish all_own
  publish-other [] reveals witness out actor i own other h = cc
  publish-other (item ∷ rest) reveals witness out actor i own other h =
      let (share, _, h1) = >>=-eq-ok (cards.share_bytes item.card) _ h in
      let (proof, _, h2) = >>=-eq-ok (cards.proof_bytes item.card) _ h1 in
      publish-other rest (set reveals item.slot share) (proof ∷ witness) out actor i (ground arith)
        other h2
      ∙ get_elem?-set reveals i item.slot share (λ e. ground arith)

  pick-own2 :
      (expected : ℕ) (r : RevealWitness Card)
      → own_picked 2 (pick cards expected 1 (fresh r)) ≡ true
  unfolding own_picked all_own pick take_holes take_flop take_turn take_river slot_publishers
  pick-own2 expected r = ground arith

  picked_own :
      (actor expected : ℕ) (r : RevealWitness Card)
      → valid_player actor ≡ true
      → own_picked actor (pick cards expected (actor - player1) (fresh r)) ≡ true
  picked_own (suc zero) expected r v = pick-own1 expected r
  picked_own (suc (suc zero)) expected r v = pick-own2 expected r
  picked_own zero expected r v = cc
  picked_own (suc (suc (suc n))) expected r v = absurd (ground arith)

  own_ok :
      (actor : ℕ) (m : Result (Picked Card)) (q : Picked Card)
      → m ≡ ok q
      → own_picked actor m ≡ true
      → all_own actor q.items ≡ true
  unfolding own_picked
  own_ok actor (ok q') q e h = rw (← picked_same q' q e) h
    where
      picked_same : (x y : Picked Card) → ok x ≡ ok y → x ≡ y
      picked_same x y eq = cc
  own_ok actor (err f) q e h = cc

  -- A publication that succeeds leaves every slot as it is whose publisher, in the game's table,
  -- is not the actor, whatever its kind and whatever was published before.
  pub publish_reveals-other :
      (reveals : List Bytes) (r : RevealWitness Card) (expected actor i : ℕ)
      (out : List Bytes × List Bytes)
      → publish_reveals cards reveals r expected actor ≡ ok out
      → publisher i ≢ actor
      → get_elem? out.0 i ≡ get_elem? reveals i
  unfolding publish_reveals
  publish_reveals-other reveals r expected actor i out h other =
      let (_, eg, h1) =
        >>=-eq-ok (guard (r.kind == expected && valid_player actor) bad_reveals) _ h in
      let (q, eq, h2) = >>=-eq-ok (pick cards expected (actor - player1) (fresh r)) _ h1 in
      let (_, _, h3) = >>=-eq-ok (guard (nothing_left cards q.left) bad_reveals) _ h2 in
      publish-other q.items reveals [] out actor i
        (own_ok actor _ q eq (picked_own actor expected r (ground arith))) other h3

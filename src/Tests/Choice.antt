-- ===== src/Tests/Choice.antt =====
-- The theorems on the client's choices at concrete inputs.
use arkade_poker.Prelude.{
  ◌+◌, max_uint64, ◌≡◌, ◌≤◌, refl, ok, some, arith, [], pos, true, ◌∷◌, List, replicate, get_elem?,
}
use arkade_poker.Covenant.Types.{Bytes, State}
use arkade_poker.Covenant.Phase.{required_actor, encode_phase}
use arkade_poker.Covenant.Betting.{bet_next, check_history, bet_target, bet_result}
use arkade_poker.Covenant.Live.Invariant.{IsBettable}
use arkade_poker.Game.Stage.{Game, route_hand, route_accepted, stage_of, action_permitted}
use arkade_poker.Game.Stage.Permitted.{may_take, route_hand-action_permitted}
use arkade_poker.Covenant.Live.{deadline_interval}
use arkade_poker.Game.Choice.{
  Input, required_funding, validate_input, decide_hand_effect, funding_at, wager_funding,
  hand_choice, bet_funding, wager_choice,
}
use arkade_poker.Game.Choice.Funding.{required_funding-bet_next, required_funding_built}
use arkade_poker.Game.Slots.{slot_publishers}
use arkade_poker.Game.Slots.Published.{publish_reveals-other}
use arkade_poker.Covenant.Reveals.{publish_reveals, pick, publish, nothing_left, take_holes}
use arkade_poker.Samples.{
  terms, terms-IsAgreed, raised, reraise, sample_cards, start, funded, holes,
}

abbrev client : Game
client = record {
  stage = 18;
  role = 1;
  params = terms;
  predecessor = some (ok raised);
  private_holes = true;
  published = [];
  observed_at = 0;
}

abbrev reraising : Input
reraising = record { kind = 4; bet = reraise }

abbrev reraised : State
reraised = record raised {
  phase = record { kind = 3; actor = 2; street = 2; pass = 0 };
  wager1 = 3500;
}

reraise_lem : bet_next terms raised reraise ≡ ok reraised
unfolding bet_next check_history bet_target bet_result
reraise_lem = refl

raised-IsBettable : IsBettable terms raised
raised-IsBettable = omega arith

required_funding-bet_next_example : required_funding client reraising ≡ ok (pos 2500)
required_funding-bet_next_example =
    required_funding-bet_next client raised terms-IsAgreed refl refl refl refl raised-IsBettable
      reraise reraised (omega arith) reraise_lem

funding_asked : required_funding client reraising ≡ ok (pos 2500)
unfolding required_funding validate_input decide_hand_effect funding_at wager_funding hand_choice
    wager_choice bet_funding
funding_asked = refl

required_funding_built_example :
    (t : State) × (bet_next terms raised reraise ≡ ok t)
    × (t.deadline + deadline_interval ≤ max_uint64)
required_funding_built_example =
    required_funding_built client raised terms-IsAgreed refl refl refl refl raised-IsBettable
      reraise (pos 2500) (omega arith) funding_asked

actor_of_raised : required_actor raised.phase ≡ ok 1
unfolding required_actor encode_phase
actor_of_raised = refl

routed : route_hand client ≡ ok 18
unfolding route_hand route_accepted stage_of required_actor encode_phase
routed = refl

route_hand-action_permitted_example : action_permitted 18 9 ≡ may_take 3 true 9
route_hand-action_permitted_example =
    route_hand-action_permitted client raised 1 18 9 refl refl actor_of_raised (omega arith)
      (omega arith) routed

abbrev proofs : List Bytes
proofs = replicate 160 4 ∷ replicate 160 3 ∷ []

holes_published : publish_reveals sample_cards start.reveals holes 1 1 ≡ ok (funded.reveals, proofs)
unfolding publish_reveals pick publish nothing_left take_holes
holes_published = refl

publish_reveals-other_example : get_elem? funded.reveals 0 ≡ get_elem? start.reveals 0
unfolding slot_publishers
publish_reveals-other_example =
    publish_reveals-other sample_cards start.reveals holes 1 1 0 (funded.reveals, proofs)
      holes_published (omega arith)

-- ===== src/Tests/Hand.antt =====
-- The first player's funding, from the deposit that is observed to a second submission.
use arkade_poker.Prelude.{
  ℕ, ◌≡◌, ◌+◌, ◌≤◌, refl, false, [], ◌∷◌, none, some, ok, inr, pos, guard, protocol, replicate,
}
use arkade_poker.Covenant.Types.{State, Params, MsgTx, check, await_player1_funding}
use arkade_poker.Covenant.Amounts.{bytes_eq}
use arkade_poker.Covenant.Phase.{required_actor}
use arkade_poker.Game.Stage.{route_hand, action_permitted}
use arkade_poker.Game.Hand.{
  Bundle, AcceptedTransaction, Unsigned, SavedSpend, HandState, PreparedState, HandEvent, continues,
  Builders, HandGame, Parts, reduce_hand, prepare_spend, deposit_observed, spend_prepared,
  spend_signed, submission_failed, submission_attempted, emulator_route,
}
use arkade_poker.Game.Hand.Work.{IsWork}
use arkade_poker.Game.Hand.Placed.{IsPlaced}
use arkade_poker.Game.Hand.Reached.{
  HandReach, start, next, dealt, HandReach-IsWork, HandReach-IsPlaced,
}
use arkade_poker.Game.Hand.Retry.{reduce_all, retries-spaced}
use arkade_poker.Game.Hand.Entitled.{IsEntitled, prepare_spend-IsEntitled}
use arkade_poker.Tests.Setup.{answers}

abbrev params : Params
params = record { stake = 100; bond = 10; min_bet = 2; max_wager = 50; initial_deadline = 1000 }

abbrev tx : ℕ → MsgTx
tx n = record { tx_hash = n ∷ []; tx_out = [] }

abbrev unsigned : ℕ → Unsigned
unsigned n = record {
  ark = record { unsigned_tx = tx n; b64_encode = ok (n ∷ n ∷ []) };
  checkpoints = [];
}

abbrev builders : Builders
builders = record {
  initial_deposit = λ _. ok (unsigned 1);
  player1_funding = λ _ _ _. ok (unsigned 2);
  player2_opening = λ _ _ _ _. ok (unsigned 3);
  bet = λ _ _ _. ok (unsigned 4);
  board_reveal = λ _ _. ok (unsigned 5);
  showdown_reveal = λ _ _. ok (unsigned 6);
  all_in_call = λ _ _ _. ok (unsigned 7);
  all_in_reveal = λ _ _. ok (unsigned 8);
  concession = λ _. ok (unsigned 9);
  timeout = λ _. ok (unsigned 10);
  showdown = λ _ _ _. ok (unsigned 11);
}

abbrev state : State
state = record {
  contract_id = [];
  phase = record { kind = await_player1_funding; actor = 0; street = 0; pass = 0 };
  last_action = 0;
  wager1 = 0;
  wager2 = 0;
  deadline = 1300;
  reveals = replicate 18 [];
}

abbrev accepted : ℕ → AcceptedTransaction
accepted n = record { transaction = tx n; checkpoints = [] }

abbrev hand : HandState
hand = record { accepted = accepted 1; observed_at = 40; reveals = []; private_holes = none }

-- The encoding keeps what the examples tell apart: the kind and the bundle of a spend.
abbrev pub parts : Parts
parts = record {
  read_state = λ _. ok state;
  encode_tx = λ t. ok t.tx_hash;
  encode_saved = λ s. ok (s.action.kind ∷ s.route ∷ s.prepared.ark);
  check_deposit = λ _. ok tt;
  check_funding = λ _. ok tt;
  admit_spend = λ h a at. ok (continues (record h { accepted = a; observed_at = at }));
  check_evaluation = λ _ _. ok 1;
  compare_bundles = λ a b. guard (bytes_eq a.ark b.ark) protocol;
  known_cards = λ _. ok [];
  decoded_cards = λ _. ok [];
}

abbrev pub bundle : Bundle
bundle = record { ark = 2 ∷ 2 ∷ []; checkpoints = [] }

abbrev pub spend : SavedSpend
spend = record {
  action = record {
    kind = 2;
    bet = record { kind = check; amount = pos 0 };
    funding = some (record { inputs = []; change = none });
    reveals = some (7 ∷ []);
    showdown = none;
    observed_at = 0;
  };
  route = emulator_route;
  source = some (1 ∷ [], 0);
  wallet_sources = [];
  prepared = bundle;
  signed = none;
}

abbrev signed_spend : SavedSpend
signed_spend = record spend { signed = some bundle }

abbrev pub hand_event : ℕ → ℕ → SavedSpend → HandEvent
hand_event kind at s = record {
  kind = kind;
  observed_at = at;
  accepted = accepted 1;
  spend = s;
  recovery = false;
  tx_id = none;
  private_holes = [];
  evaluation = [];
  winner = 0;
}

abbrev first_game : HandGame
first_game = dealt 12 1 params builders

abbrev deposited_game : HandGame
deposited_game = record first_game { stage = 14; hand = some hand }

abbrev pub held_state : ℕ → SavedSpend → PreparedState
held_state at s = record { saved = s; built = unsigned 2; last_attempt = at }

abbrev pub held : ℕ → ℕ → SavedSpend → HandGame
held stage at s = record deposited_game { stage = stage; prepared = some (held_state at s) }

signed_HandReach : HandReach parts answers (held 31 0 signed_spend)
unfolding reduce_hand route_hand required_actor action_permitted
signed_HandReach =
    next {g = held 30 0 spend} (hand_event spend_signed 60 signed_spend)
      (next {g = deposited_game} (hand_event spend_prepared 50 spend)
        (next {g = first_game} (hand_event deposit_observed 40 spend)
          (start 12 1 params builders (inr refl)) refl)
        refl)
      refl

HandReach-IsWork_example : IsWork parts (held 31 0 signed_spend)
HandReach-IsWork_example = HandReach-IsWork parts answers (held 31 0 signed_spend) signed_HandReach

HandReach-IsPlaced_example : IsPlaced parts (held 31 0 signed_spend)
HandReach-IsPlaced_example =
    HandReach-IsPlaced parts answers (held 31 0 signed_spend) signed_HandReach

attempt_sends :
    reduce_hand parts (held 31 0 signed_spend) (hand_event submission_attempted 70 spend)
    ≡ ok (held 32 70 signed_spend)
unfolding reduce_hand
attempt_sends = refl

failure_keeps :
    reduce_all parts (held 32 70 signed_spend) (hand_event submission_failed 71 spend ∷ [])
    ≡ ok (held 32 70 signed_spend)
unfolding reduce_hand
failure_keeps = refl

retry_sends :
    reduce_hand parts (held 32 70 signed_spend) (hand_event submission_attempted 75 spend)
    ≡ ok (held 32 75 signed_spend)
unfolding reduce_hand
retry_sends = refl

retries-spaced_example : 70 + 5 ≤ 75
retries-spaced_example =
    retries-spaced parts (held 31 0 signed_spend) (held 32 70 signed_spend)
      (held 32 70 signed_spend) (held 32 75 signed_spend) (hand_event submission_attempted 70 spend)
      (hand_event submission_attempted 75 spend) (hand_event submission_failed 71 spend ∷ []) refl
      attempt_sends (refl, tt) failure_keeps refl refl retry_sends

prepares_spend :
    prepare_spend parts deposited_game (hand_event spend_prepared 50 spend) ≡ ok (held 30 0 spend)
unfolding prepare_spend required_actor action_permitted
prepares_spend = refl

prepare_spend-IsEntitled_example :
    (s : State) × (parts.read_state (tx 1) ≡ ok s)
    × IsEntitled parts deposited_game hand s spend.action
prepare_spend-IsEntitled_example =
    prepare_spend-IsEntitled parts deposited_game hand (held 30 0 spend)
      (hand_event spend_prepared 50 spend) refl prepares_spend

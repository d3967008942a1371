-- ===== src/Game/Hand.antt =====
-- The reducer of a funded hand: reduceHand, buildAction, savedAction, sameSaved and openingHand of
-- internal/game/hand_reduce.go, with the data of hand.go. The covenant's builders, the admission of an accepted
-- transaction, the evaluation of a showdown and the encoders are parameters.
pub mod Steps
pub mod Work
pub mod Placed
pub mod Reached
pub mod Retry
pub mod Entitled
use arkade_poker.Prelude.{
  ℕ, ◌+◌, ◌-◌, Bool, true, false, not, ◌&&◌, ◌||◌, List, [], ◌∷◌, map, Option, none, some, ltb,
  ◌==◌, if◌then◌else◌, max_uint64, length, get_elem?, ℤ, pos, Result, ok, err, ◌>>=◌, ◌>>◌, reject,
  guard, or_fail, protocol, bad_input, bad_encoding,
}
use arkade_poker.Covenant.Types.{
  Bytes, State, Params, MsgTx, Source, Funding, BettingAction, check, raise_to, player2,
}
use arkade_poker.Covenant.Phase.{required_actor}
use arkade_poker.Covenant.Amounts.{bytes_eq}
use arkade_poker.Game.Setup.{other}
use arkade_poker.Game.Stage.{
  Game, route_hand, action_permitted, settlement_eligible, stage_await_initial_deposit,
  stage_await_player1_funding, stage_await_player2_opening, stage_evaluate_showdown,
  stage_settle_showdown, stage_transaction_prepared, stage_transaction_signed,
  stage_await_transaction_acceptance, stage_finished, action_initial_deposit,
  action_player1_funding, action_player2_opening, action_betting, action_board_reveal,
  action_showdown_reveal, action_all_in_call, action_all_in_reveal, action_concession,
  action_timeout, action_showdown,
}

-- EventKind, those of a hand
abbrev pub spend_prepared : ℕ
spend_prepared = 7

abbrev pub spend_signed : ℕ
spend_signed = 8

abbrev pub spend_observed : ℕ
spend_observed = 9

abbrev pub submission_failed : ℕ
submission_failed = 10

abbrev pub deposit_observed : ℕ
deposit_observed = 13

abbrev pub opening_observed : ℕ
opening_observed = 14

abbrev pub showdown_evaluated : ℕ
showdown_evaluated = 15

abbrev pub submission_attempted : ℕ
submission_attempted = 16

-- Route
abbrev pub arkd_route : ℕ
arkd_route = 1

abbrev pub emulator_route : ℕ
emulator_route = 2

pub record Bundle : Type 0 where
  pub ark : Bytes
  pub checkpoints : List Bytes

pub record AcceptedTransaction : Type 0 where
  pub transaction : MsgTx
  pub checkpoints : List MsgTx

-- A packet of the PSBT library: its unsigned transaction and what B64Encode makes of it.
pub record Psbt : Type 0 where
  pub unsigned_tx : MsgTx
  pub b64_encode : Result Bytes

pub record Unsigned : Type 0 where
  pub ark : Psbt
  pub checkpoints : List Psbt

-- The witnesses are bytes here: the reducer hands them on.
pub record PreparedAction : Type 0 where
  pub kind : ℕ
  pub bet : BettingAction
  pub funding : Option Funding
  pub reveals : Option Bytes
  pub showdown : Option Bytes
  pub observed_at : ℕ

-- A source is an outpoint: the hash of a transaction and an index.
pub record SavedSpend : Type 0 where
  pub action : PreparedAction
  pub route : ℕ
  pub source : Option (Bytes × ℕ)
  pub wallet_sources : List (Bytes × ℕ)
  pub prepared : Bundle
  pub signed : Option Bundle

pub record HandState : Type 0 where
  pub accepted : AcceptedTransaction
  pub observed_at : ℕ
  pub reveals : List (Option Bytes)
  pub private_holes : Option Bytes

pub record PreparedState : Type 0 where
  pub saved : SavedSpend
  pub built : Unsigned
  pub last_attempt : ℕ

pub record HandOutcome : Type 0 where
  pub settlement_kind : ℕ
  pub winner : ℕ
  pub transaction : MsgTx

-- The outcome of a game: a settlement, or the abort of its setup with the reason.
pub data GameOutcome : Type 0 where
  settled : HandOutcome → GameOutcome
  aborted : Bytes → GameOutcome

-- An event of a hand, with the payloads of its kind.
pub record HandEvent : Type 0 where
  pub kind : ℕ
  pub observed_at : ℕ
  pub accepted : AcceptedTransaction
  pub spend : SavedSpend
  pub recovery : Bool
  pub tx_id : Option Bytes
  pub private_holes : Bytes
  pub evaluation : Bytes
  pub winner : ℕ

-- What admitSpend makes of a spend of the hand's accepted transaction.
pub data Admission : Type 0 where
  continues : HandState → Admission
  ends : HandOutcome → Admission

-- The covenant's builders, of the derived contract.
pub record Builders : Type 0 where
  pub initial_deposit : Funding → Result Unsigned
  pub player1_funding : MsgTx → Funding → Bytes → Result Unsigned
  pub player2_opening : MsgTx → ℤ → Funding → Bytes → Result Unsigned
  pub bet : MsgTx → BettingAction → Funding → Result Unsigned
  pub board_reveal : MsgTx → Bytes → Result Unsigned
  pub showdown_reveal : MsgTx → Bytes → Result Unsigned
  pub all_in_call : MsgTx → Funding → Bytes → Result Unsigned
  pub all_in_reveal : MsgTx → Bytes → Result Unsigned
  pub concession : MsgTx → Result Unsigned
  pub timeout : MsgTx → Result Unsigned
  pub showdown : MsgTx → ℕ → Bytes → Result Unsigned

-- What a Game holds of a hand; `role`, `params` and `contract` are its setup's.
pub record HandGame : Type 0 where
  pub stage : ℕ
  pub role : ℕ
  pub params : Params
  pub contract : Option Builders
  pub hand : Option HandState
  pub prepared : Option PreparedState
  pub evaluated : Option (Bytes × ℕ)
  pub outcome : Option GameOutcome
  pub completed : Option (State × Bytes)

-- The parts that the reducer calls.
pub record Parts : Type 0 where
  pub read_state : MsgTx → Result State
  pub encode_tx : MsgTx → Result Bytes
  pub encode_saved : SavedSpend → Result Bytes
  pub check_deposit : AcceptedTransaction → Result (Unit {0})
  pub check_funding : Funding → Result (Unit {0})
  pub admit_spend : HandState → AcceptedTransaction → ℕ → Result Admission
  pub check_evaluation : HandState → Bytes → Result ℕ
  pub compare_bundles : Bundle → Bundle → Result (Unit {0})
  pub known_cards : HandState → Result Bytes
  pub decoded_cards : HandState → Result Bytes

abbrev pub is_some {ℓ} : {A : Type ℓ} → Option A → Bool
is_some none = false
is_some (some _) = true

-- buildAction on an accepted hand. A field that the codec of the action's kind requires is there in
-- the code; where it is missing, the model fails.
unfoldable pub build_spend : Builders → ℕ → MsgTx → PreparedAction → Result Unsigned
build_spend c role tx a =
    if a.kind == action_player1_funding
    then (do
      funding ← or_fail a.funding bad_input
      reveals ← or_fail a.reveals bad_input
      c.player1_funding tx funding reveals)
    else (if a.kind == action_player2_opening
        then (do
          guard (a.bet.kind == check || a.bet.kind == raise_to) bad_input
          funding ← or_fail a.funding bad_input
          reveals ← or_fail a.reveals bad_input
          c.player2_opening tx (if a.bet.kind == raise_to then a.bet.amount else pos 0) funding
              reveals)
        else (if a.kind == action_betting
            then (or_fail a.funding bad_input >>= (λ funding. c.bet tx a.bet funding))
            else (if a.kind == action_board_reveal
                then (or_fail a.reveals bad_input >>= c.board_reveal tx)
                else (if a.kind == action_showdown_reveal
                    then (or_fail a.reveals bad_input >>= c.showdown_reveal tx)
                    else (if a.kind == action_all_in_call
                        then (do
                          funding ← or_fail a.funding bad_input
                          reveals ← or_fail a.reveals bad_input
                          c.all_in_call tx funding reveals)
                        else (if a.kind == action_all_in_reveal
                            then (or_fail a.reveals bad_input >>= c.all_in_reveal tx)
                            else (if a.kind == action_concession
                                then c.concession tx
                                else (if a.kind == action_timeout
                                    then c.timeout tx
                                    else (if a.kind == action_showdown
                                        then (or_fail a.showdown bad_input >>= c.showdown tx role)
                                        else err bad_input)))))))))

unfoldable pub build_deposit : Builders → Option HandState → PreparedAction → Result Unsigned
build_deposit c h a = do
  reject (is_some h) bad_input
  funding ← or_fail a.funding bad_input
  c.initial_deposit funding

-- buildAction
unfoldable pub build_action : HandGame → PreparedAction → Result Unsigned
unfolding build_deposit build_spend
build_action g a = do
  c ← or_fail g.contract bad_input
  (if a.kind == action_initial_deposit
      then build_deposit c g.hand a
      else (or_fail g.hand bad_input >>= (λ h. build_spend c g.role h.accepted.transaction a)))

abbrev pub accepted_build : Unsigned → AcceptedTransaction
accepted_build b = record {
  transaction = b.ark.unsigned_tx;
  checkpoints = map (λ (p : Psbt). p.unsigned_tx) b.checkpoints;
}

abbrev pub encode_all : List Psbt → Result (List Bytes)
encode_all [] = ok []
encode_all (p ∷ rest) = p.b64_encode >>= (λ s. encode_all rest >>= (λ more. ok (s ∷ more)))

-- serializeBuild
abbrev pub serialize_build : Unsigned → Result Bundle
serialize_build b = do
  reject (ltb 256 (length b.checkpoints)) bad_encoding
  ark ← b.ark.b64_encode
  checkpoints ← encode_all b.checkpoints
  ok (record { ark = ark; checkpoints = checkpoints })

-- The loop over the funding's inputs in savedAction
abbrev pub wallet_sources_of : List Source → Result (List (Bytes × ℕ))
wallet_sources_of [] = ok []
wallet_sources_of (s ∷ rest) =
    or_fail s.outpoint bad_encoding >>= (λ op. wallet_sources_of rest >>= (λ more. ok (op ∷ more)))

abbrev pub funding_sources : Option Funding → Result (List (Bytes × ℕ))
funding_sources none = ok []
funding_sources (some f) = wallet_sources_of f.inputs

unfoldable pub saved_action : Option HandState → PreparedAction → Unsigned → Result SavedSpend
saved_action hand a b = do
  bundle ← serialize_build b
  sources ← funding_sources a.funding
  ok (record {
    action = a;
    route = elim hand [ none ↦ arkd_route | some h ↦ emulator_route ];
    source = elim hand [ none ↦ none | some h ↦ some (h.accepted.transaction.tx_hash, 0) ];
    wallet_sources = sources;
    prepared = bundle;
    signed = none;
  })

abbrev pub is_filled : HandState → ℕ → Bool
is_filled h slot = known (get_elem? h.reveals slot)
  where
    known : Option (Option Bytes) → Bool
    known none = false
    known (some share) = is_some share

-- The actor of a state's phase, or no player
abbrev pub actor_of : State → ℕ
actor_of s = known (required_actor s.phase)
  where
    known : Result ℕ → ℕ
    known (ok actor) = actor
    known (err _) = 0

-- `bytes.Equal` on two encodings, where neither has failed
unfoldable pub same_encoding : Result Bytes → Result Bytes → Bool
same_encoding (ok x) (ok y) = bytes_eq x y
same_encoding (ok x) (err f) = false
same_encoding (err e) y = false

module _ (parts : Parts) where
  -- The fields that Game.Stage reads
  abbrev pub view : HandGame → Game
  view g = record {
    stage = g.stage;
    role = g.role;
    params = g.params;
    predecessor = predecessor_of g.hand;
    private_holes = holes_of g.hand;
    published = published_of g.hand;
    observed_at = time_of g.hand;
  }
    where
      predecessor_of : Option HandState → Option (Result State)
      predecessor_of none = none
      predecessor_of (some h) = some (parts.read_state h.accepted.transaction)

      holes_of : Option HandState → Bool
      holes_of none = false
      holes_of (some h) = is_some h.private_holes

      published_of : Option HandState → List Bool
      published_of none = []
      published_of (some h) = map is_some h.reveals

      time_of : Option HandState → ℕ
      time_of none = 0
      time_of (some h) = h.observed_at

  unfoldable pub same_saved : SavedSpend → SavedSpend → Bool
  unfolding same_encoding
  same_saved a b =
      same_encoding (parts.encode_saved (record a { signed = none }))
        (parts.encode_saved (record b { signed = none }))

  -- routeHand, which sets the stage
  unfoldable pub routed : HandGame → Result HandGame
  routed g = route_hand (view g) >>= (λ stage. ok (record g { stage = stage }))

  unfoldable pub observe_deposit : HandGame → HandEvent → Result HandGame
  unfolding routed
  observe_deposit g e = do
    (if g.stage == stage_await_initial_deposit then ok tt else (do
      p ← or_fail g.prepared protocol
      guard (p.saved.action.kind == action_initial_deposit) protocol
      guard (bytes_eq e.accepted.transaction.tx_hash p.built.ark.unsigned_tx.tx_hash) protocol))
    parts.check_deposit e.accepted
    routed (record g {
      hand = some (record {
        accepted = e.accepted;
        observed_at = e.observed_at;
        reveals = [];
        private_holes = none;
      });
      prepared = none;
    })

  abbrev pub check_settlement : HandGame → HandState → PreparedAction → Result (Unit {0})
  check_settlement g h a = do
    witness ← or_fail a.showdown bad_input
    winner ← parts.check_evaluation h witness
    eligible ← settlement_eligible (view g) winner a.observed_at
    guard eligible protocol

  -- The `switch` on the kind of an action that is prepared in a hand
  unfoldable pub check_actor : HandGame → HandState → PreparedAction → Result (Unit {0})
  check_actor g h a = do
    s ← parts.read_state h.accepted.transaction
    (if a.kind == action_timeout
        then reject (not (actor_of s == other g.role) || ltb a.observed_at s.deadline) protocol
        else (if a.kind == action_showdown
            then check_settlement g h a
            else guard (actor_of s == g.role) protocol))

  abbrev pub check_hand : HandGame → Option HandState → PreparedAction → Result (Unit {0})
  check_hand g none a = ok tt
  check_hand g (some h) a = check_actor g h a

  abbrev pub check_sources : Option Funding → Result (Unit {0})
  check_sources none = ok tt
  check_sources (some f) = parts.check_funding f

  -- The transaction that was built is admitted the way an observed one would be.
  unfoldable pub check_admitted : Option HandState → PreparedAction → Unsigned → Result (Unit {0})
  check_admitted hand a b =
      if a.kind == action_initial_deposit
      then parts.check_deposit (accepted_build b)
      else (or_fail hand bad_input
          >>= (λ h. parts.admit_spend h (accepted_build b) h.observed_at >>= (λ _. ok tt)))

  unfoldable pub prepare_spend : HandGame → HandEvent → Result HandGame
  unfolding build_action saved_action same_saved check_actor check_admitted
  prepare_spend g e = do
    guard (not (is_some e.spend.signed) && action_permitted g.stage e.spend.action.kind) protocol
    check_hand g g.hand e.spend.action
    built ← build_action g e.spend.action
    expected ← saved_action g.hand e.spend.action built
    guard (same_saved expected e.spend) protocol
    check_sources e.spend.action.funding
    check_admitted g.hand e.spend.action built
    ok (record g {
      prepared = some (record { saved = e.spend; built = built; last_attempt = 0 });
      stage = stage_transaction_prepared;
    })

  unfoldable pub sign_spend : HandGame → HandEvent → Result HandGame
  unfolding same_saved
  sign_spend g e = do
    guard (g.stage == stage_transaction_prepared) protocol
    p ← or_fail g.prepared protocol
    signed ← or_fail e.spend.signed protocol
    guard (same_saved p.saved e.spend) protocol
    parts.compare_bundles p.saved.prepared signed
    ok (record g {
      prepared = some (record p { saved = e.spend });
      stage = stage_transaction_signed;
    })

  abbrev pub is_submitting : ℕ → Bool
  is_submitting stage =
      stage == stage_transaction_signed || stage == stage_await_transaction_acceptance

  abbrev pub unlike_receipt : Option Bytes → Bytes → Bool
  unlike_receipt none hash = false
  unlike_receipt (some tx_id) hash = not (bytes_eq tx_id hash)

  -- An automatic retry within five seconds of the last attempt
  abbrev pub is_early : HandGame → PreparedState → HandEvent → Bool
  is_early g p e =
      g.stage == stage_await_transaction_acceptance
      && (not e.recovery
          && (ltb (max_uint64 - 5) p.last_attempt || ltb e.observed_at (p.last_attempt + 5)))

  unfoldable pub attempt_submission : HandGame → HandEvent → Result HandGame
  attempt_submission g e = do
    guard (is_submitting g.stage) protocol
    p ← or_fail g.prepared protocol
    reject (unlike_receipt e.tx_id p.built.ark.unsigned_tx.tx_hash) protocol
    reject (is_early g p e) protocol
    ok (record g {
      prepared = some (record p { last_attempt = e.observed_at });
      stage = stage_await_transaction_acceptance;
    })

  unfoldable pub fail_submission : HandGame → HandEvent → Result HandGame
  fail_submission g e = do
    guard (is_some g.prepared && is_submitting g.stage) protocol
    ok (record g { stage = stage_await_transaction_acceptance })

  -- What an admitted spend makes of the game
  unfoldable pub continue_hand : HandGame → HandState → Admission → Result HandGame
  unfolding routed
  continue_hand g h (continues next) =
      routed (record g { prepared = none; evaluated = none; hand = some next })
  continue_hand g h (ends outcome) = do
    s ← parts.read_state h.accepted.transaction
    cards ← parts.known_cards h
    ok (record g {
      completed = some (s, cards);
      prepared = none;
      evaluated = none;
      outcome = some (settled outcome);
      hand = none;
      stage = stage_finished;
    })

  unfoldable pub observe_spend : HandGame → HandEvent → Result HandGame
  unfolding continue_hand
  observe_spend g e = do
    h ← or_fail g.hand protocol
    admission ← parts.admit_spend h e.accepted e.observed_at
    continue_hand g h admission

  -- The loop over the checkpoints in openingHand, behind the comparison of their number
  abbrev pub same_checkpoints : List MsgTx → List MsgTx → Bool
  same_checkpoints [] [] = true
  same_checkpoints [] (y ∷ ys) = false
  same_checkpoints (x ∷ xs) [] = false
  same_checkpoints (x ∷ xs) (y ∷ ys) =
      same_encoding (parts.encode_tx x) (parts.encode_tx y) && same_checkpoints xs ys

  abbrev pub unfinished : Admission → Result HandState
  unfinished (continues h) = ok h
  unfinished (ends _) = err protocol

  -- openingHand, on the hand of the game
  unfoldable pub opening_hand : ℕ → HandState → AcceptedTransaction → ℕ → Result HandState
  unfolding same_encoding
  opening_hand role h accepted at = do
    next ←
        if bytes_eq accepted.transaction.tx_hash h.accepted.transaction.tx_hash
        then (guard (same_checkpoints accepted.checkpoints h.accepted.checkpoints) protocol >> ok h)
        else (parts.admit_spend h accepted at >>= unfinished)
    reject (is_some next.private_holes) protocol
    let start = if role == player2 then 2 else 0
    guard (is_filled next start && is_filled next (start + 1)) protocol
    ok next

  unfoldable pub observe_opening : HandGame → HandEvent → Result HandGame
  unfolding routed opening_hand
  observe_opening g e = do
    guard (g.stage == stage_await_player1_funding || g.stage == stage_await_player2_opening)
        protocol
    h ← or_fail g.hand bad_input
    next ← opening_hand g.role h e.accepted e.observed_at
    _ ← parts.decoded_cards (record next { private_holes = some e.private_holes })
    routed (record g { hand = some (record next { private_holes = some e.private_holes }) })

  unfoldable pub evaluate_showdown : HandGame → HandEvent → Result HandGame
  evaluate_showdown g e = do
    guard (g.stage == stage_evaluate_showdown) protocol
    h ← or_fail g.hand protocol
    winner ← parts.check_evaluation h e.evaluation
    guard (winner == e.winner) protocol
    ok (record g { evaluated = some (e.evaluation, winner); stage = stage_settle_showdown })

  -- The `switch` of reduceHand
  unfoldable pub reduce_hand : HandGame → HandEvent → Result HandGame
  unfolding observe_deposit prepare_spend sign_spend attempt_submission fail_submission
      observe_spend observe_opening evaluate_showdown
  reduce_hand g e =
      if e.kind == deposit_observed
      then observe_deposit g e
      else (if e.kind == spend_prepared
          then prepare_spend g e
          else (if e.kind == spend_signed
              then sign_spend g e
              else (if e.kind == submission_attempted
                  then attempt_submission g e
                  else (if e.kind == submission_failed
                      then fail_submission g e
                      else (if e.kind == spend_observed
                          then observe_spend g e
                          else (if e.kind == opening_observed
                              then observe_opening g e
                              else (if e.kind == showdown_evaluated
                                  then evaluate_showdown g e
                                  else err bad_input)))))))

-- ===== src/Game/Choice.antt =====
-- internal/game/decide.go and hand_decide.go: the inputs that the client admits in a hand, the
-- choice that it offers, and the money that it asks of the wallet.
pub mod Offer
pub mod Funding
use arkade_poker.Prelude.{
  ℕ, ◌+◌, ◌-◌, ◌%◌, Bool, true, false, not, ◌&&◌, ◌||◌, List, [], ◌∷◌, Option, none, some, ltb, leb,
  ◌==◌, if◌then◌else◌, Result, ok, err, ◌>>=◌, ◌>>◌, guard, reject, or_fail, bad_input, bad_amount,
  protocol, ℤ, pos, int64, sub_int64, leb_ℤ, eqb_ℤ, is_negative, u64_mod,
}
use arkade_poker.Covenant.Types.{
  Params, State, BettingAction, player1, player2, check, call, raise_to, last_raise, other_player,
}
use arkade_poker.Game.Admission.{wager}
use arkade_poker.Game.Stage.{
  Game, among, is_published, stage_initial_deposit, stage_await_initial_deposit, stage_aborted,
  stage_player1_funding, stage_await_player1_funding, stage_player2_opening,
  stage_await_player2_opening, stage_betting_local, stage_betting_opponent,
  stage_board_reveal_local, stage_board_reveal_opponent, stage_all_in_local, stage_all_in_opponent,
  stage_all_in_reveal_local, stage_all_in_reveal_opponent, stage_showdown_local,
  stage_showdown_opponent, stage_evaluate_showdown, stage_settle_showdown,
  stage_transaction_prepared, stage_transaction_signed, stage_await_transaction_acceptance,
  stage_finished,
}

-- InputKind
abbrev pub input_start_session : ℕ
input_start_session = 1

abbrev pub input_progress : ℕ
input_progress = 3

abbrev pub input_bet : ℕ
input_bet = 4

abbrev pub input_concede : ℕ
input_concede = 5

abbrev pub input_reveal_showdown : ℕ
input_reveal_showdown = 6

abbrev pub input_claim_timeout : ℕ
input_claim_timeout = 7

-- An input of a hand: without the payloads of the two that start or join a session.
pub record Input : Type 0 where
  pub kind : ℕ
  pub bet : BettingAction

-- validateInput, on an input without the other payloads: the two kinds that start or join a session
-- are refused later on in every stage of a hand.
unfoldable pub validate_input : Input → Result (Unit {0})
validate_input input = do
  reject (ltb input.kind input_start_session || ltb input_claim_timeout input.kind) bad_input
  reject
      (not (input.kind == input_bet) && not (input.bet.kind == 0 && eqb_ℤ input.bet.amount (pos 0)))
      bad_input
  reject
      (input.kind == input_bet
        && (ltb input.bet.kind check
            || (ltb raise_to input.bet.kind
                || (not (input.bet.kind == raise_to) && not (eqb_ℤ input.bet.amount (pos 0))))))
      bad_input

-- EffectKind, those of a hand
abbrev pub effect_prepare_deposit : ℕ
effect_prepare_deposit = 20

abbrev pub effect_discover_deposit : ℕ
effect_discover_deposit = 21

abbrev pub effect_observe_local_action : ℕ
effect_observe_local_action = 22

abbrev pub effect_wait_opponent : ℕ
effect_wait_opponent = 23

abbrev pub effect_prepare_opening : ℕ
effect_prepare_opening = 24

abbrev pub effect_evaluate_showdown : ℕ
effect_evaluate_showdown = 25

abbrev pub effect_wait_settlement : ℕ
effect_wait_settlement = 26

abbrev pub effect_sign_prepared : ℕ
effect_sign_prepared = 27

abbrev pub effect_submit_signed : ℕ
effect_submit_signed = 28

abbrev pub effect_reconcile_submission : ℕ
effect_reconcile_submission = 29

-- The steps of a hand: an effect for the driver, or the outcome.
pub data Step : Type 0 where
  run_effect : ℕ → Step
  finished : Step

-- openingReady
unfoldable pub opening_ready : Game → Bool
opening_ready g = elim g.predecessor [
  | none ↦ false
  | some _ ↦
      let start = if g.role == player2 then 2 else 0 in
      not g.private_holes && (is_published g start && is_published g (start + 1))
]

abbrev only_progress : Input → ℕ → Result Step
only_progress input effect = do
  guard (input.kind == input_progress) bad_input
  ok (run_effect effect)

abbrev opponent : Input → Result Step
opponent input = do
  guard (input.kind == input_progress || input.kind == input_claim_timeout) bad_input
  ok (run_effect effect_wait_opponent)

abbrev choosing : Bool → Result Step
choosing admitted = do guard admitted bad_input; ok (run_effect effect_observe_local_action)

-- decideHandEffect
unfoldable pub decide_hand_effect : Game → Input → Result Step
decide_hand_effect g input =
    let stage = g.stage in
    let progress = input.kind == input_progress in
    let concede = input.kind == input_concede in
    let betting = input.kind == input_bet in
    if stage == stage_initial_deposit
    then only_progress input effect_prepare_deposit
    else (if stage == stage_await_initial_deposit
        then only_progress input effect_discover_deposit
        else (if among stage (stage_player1_funding ∷ stage_board_reveal_local ∷ [])
            then only_progress input effect_observe_local_action
            else (if among stage (stage_await_player1_funding ∷ stage_await_player2_opening ∷ [])
                then (if opening_ready g
                    then only_progress input effect_prepare_opening
                    else opponent input)
                else (if stage == stage_player2_opening
                    then choosing (
                        progress
                        || (betting && (input.bet.kind == check || input.bet.kind == raise_to)))
                    else (if stage == stage_betting_local
                        then choosing (progress || (betting || concede))
                        else (if stage == stage_all_in_local
                            then choosing
                                (progress || (concede || (betting && input.bet.kind == call)))
                            else (if among stage
                                  (stage_all_in_reveal_local ∷ stage_showdown_local ∷ [])
                                then choosing
                                    (progress || (concede || input.kind == input_reveal_showdown))
                                else (if among stage (
                                      stage_betting_opponent ∷ stage_board_reveal_opponent
                                      ∷ stage_all_in_opponent ∷ stage_all_in_reveal_opponent
                                      ∷ stage_showdown_opponent ∷ [])
                                    then opponent input
                                    else (if stage == stage_evaluate_showdown
                                        then only_progress input effect_evaluate_showdown
                                        else (if stage == stage_settle_showdown
                                            then only_progress input effect_wait_settlement
                                            else (if stage == stage_transaction_prepared
                                                then only_progress input effect_sign_prepared
                                                else (if stage == stage_transaction_signed
                                                    then only_progress input effect_submit_signed
                                                    else (if stage
                                                          == stage_await_transaction_acceptance
                                                        then only_progress input
                                                            effect_reconcile_submission
                                                        else (if stage == stage_finished
                                                            then (do
                                                              guard progress bad_input
                                                              ok finished)
                                                            else err bad_input))))))))))))))

pub record Choice : Type 0 where
  pub allowed : List ℕ
  pub can_check : Bool
  pub can_call : Bool
  pub min_raise_to : ℤ
  pub max_raise_to : ℤ
  pub call_amount : ℤ

-- The smaller of two numbers, Go's `min`
abbrev smaller : ℕ → ℕ → ℕ
smaller a b = if ltb b a then b else a

-- The choice of handChoice in the two stages of a bet, by the last action and the wagers.
unfoldable pub wager_choice : Params → ℕ → ℕ → ℕ → ℕ → Result Choice
wager_choice p stage last mine theirs = do
  reject (ltb theirs mine || ltb p.max_wager theirs) protocol
  let amount = theirs - mine
  let increment = if last == last_raise then amount else p.min_bet
  let minimum = smaller ((theirs + increment) % u64_mod) p.max_wager
  ok (
      if stage == stage_all_in_local
      then record {
        allowed = input_bet ∷ input_concede ∷ [];
        can_check = false;
        can_call = true;
        min_raise_to = pos 0;
        max_raise_to = pos 0;
        call_amount = sub_int64 (pos p.max_wager) (int64 mine);
      }
      else record {
        allowed = input_bet ∷ input_concede ∷ [];
        can_check = amount == 0;
        can_call = ltb 0 amount;
        min_raise_to = if ltb theirs p.max_wager then int64 minimum else pos 0;
        max_raise_to = if ltb theirs p.max_wager then pos p.max_wager else pos 0;
        call_amount = int64 amount;
      })

-- handChoice
unfoldable pub hand_choice : Game → Result (Option Choice)
unfolding wager_choice
hand_choice g = elim g.predecessor [
  | none ↦ ok none
  | some accepted ↦
      let offered = (do
        s ← accepted
        choice ←
            wager_choice g.params g.stage s.last_action (wager s g.role)
              (wager s (other_player g.role))
        ok (some choice)) in
      if g.stage == stage_player2_opening
      then ok (
          some (record {
            allowed = input_bet ∷ [];
            can_check = true;
            can_call = false;
            min_raise_to = pos g.params.min_bet;
            max_raise_to = pos g.params.max_wager;
            call_amount = pos 0;
          }))
      else (if among g.stage (stage_all_in_reveal_local ∷ stage_showdown_local ∷ [])
          then ok (
              some (record {
                allowed = input_reveal_showdown ∷ input_concede ∷ [];
                can_check = false;
                can_call = false;
                min_raise_to = pos 0;
                max_raise_to = pos 0;
                call_amount = pos 0;
              }))
          else (if among g.stage (stage_betting_local ∷ stage_all_in_local ∷ [])
              then offered
              else ok none))
]

-- The funding of a bet that a choice offers, by the wager already made.
unfoldable pub bet_funding : Choice → BettingAction → ℕ → Result ℤ
bet_funding c action mine =
    if action.kind == check
    then (do guard c.can_check bad_input; ok (pos 0))
    else (if action.kind == call
        then (do guard c.can_call bad_input; ok c.call_amount)
        else (if action.kind == raise_to
            then (do
              guard
                  (not (leb_ℤ c.max_raise_to (pos 0))
                    && (leb_ℤ c.min_raise_to action.amount && leb_ℤ action.amount c.max_raise_to))
                  bad_input
              ok (sub_int64 action.amount (int64 mine)))
            else err bad_input))

abbrev accepted_state : Option (Result State) → Result State
accepted_state none = err bad_input
accepted_state (some accepted) = accepted

-- The case of RequiredFunding for the two stages of a bet.
unfoldable pub wager_funding : Game → Input → Result ℤ
wager_funding g input =
    let asked = (do
      guard (input.kind == input_bet) bad_input
      offered ← hand_choice g
      choice ← or_fail offered bad_input
      s ← accepted_state g.predecessor
      bet_funding choice input.bet (wager s g.role)) in
    if input.kind == input_concede then ok (pos 0) else asked

unfoldable pub opening_funding : Params → Input → Result ℤ
opening_funding p input = do
  guard (input.kind == input_bet) bad_input
  let n = input.bet.amount
  let bad =
      is_negative n
      || (not (leb_ℤ n (pos p.max_wager))
          || (not (eqb_ℤ n (pos 0)) && not (leb_ℤ (pos p.min_bet) n)))
  if input.bet.kind == check then ok (pos 0) else (if bad then err bad_amount else ok n)

-- The `switch` of RequiredFunding.
unfoldable pub funding_at : Game → Input → Result ℤ
unfolding opening_funding
funding_at g input =
    let stage = g.stage in
    if among stage (stage_initial_deposit ∷ stage_player1_funding ∷ [])
    then ok (int64 (g.params.stake + g.params.bond))
    else (if stage == stage_player2_opening
        then opening_funding g.params input
        else (if among stage (stage_betting_local ∷ stage_all_in_local ∷ [])
            then wager_funding g input
            else (if among stage (
                  stage_board_reveal_local ∷ stage_all_in_reveal_local ∷ stage_showdown_local
                  ∷ stage_settle_showdown ∷ [])
                then ok (pos 0)
                else (if among stage (
                      stage_await_player1_funding ∷ stage_await_player2_opening
                      ∷ stage_betting_opponent ∷ stage_board_reveal_opponent ∷ stage_all_in_opponent
                      ∷ stage_all_in_reveal_opponent ∷ stage_showdown_opponent ∷ [])
                    then (do guard (input.kind == input_claim_timeout) bad_input; ok (pos 0))
                    else err bad_input))))

-- RequiredFunding in a stage of a hand; in every earlier stage it is an error.
unfoldable pub required_funding : Game → Input → Result ℤ
required_funding g input = do
  _ ← validate_input input
  _ ← decide_hand_effect g input
  funding_at g input

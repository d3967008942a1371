-- ===== src/Game/Stage.antt =====
-- internal/game/reduce.go, game.go, hand.go and hand_reduce.go: the stages of the client, its
-- inputs and its action kinds, where a hand's accepted state leads the client, and which actions a
-- stage permits. Of a Game, the model keeps what these functions read.
pub mod Permitted
use arkade_poker.Prelude.{
  ℕ, ◌+◌, ◌-◌, Bool, true, false, not, ◌&&◌, ◌||◌, List, [], ◌∷◌, Option, none, some, ltb, leb,
  ◌==◌, if◌then◌else◌, Result, ok, err, ◌>>=◌, ◌>>◌, reject, bad_input, protocol, get_elem?,
  max_uint64,
}
use arkade_poker.Covenant.Types.{
  Params, State, player1, player2, await_player1_funding, await_player2_opening, betting, all_in,
  board_reveal, showdown_reveal, all_in_reveal, showdown_evaluation,
}
use arkade_poker.Covenant.Phase.{required_actor}

-- Stage, those of a hand
abbrev pub stage_session_prepared : ℕ
stage_session_prepared = 1

abbrev pub stage_initial_deposit : ℕ
stage_initial_deposit = 11

abbrev pub stage_await_initial_deposit : ℕ
stage_await_initial_deposit = 12

abbrev pub stage_aborted : ℕ
stage_aborted = 13

abbrev pub stage_player1_funding : ℕ
stage_player1_funding = 14

abbrev pub stage_await_player1_funding : ℕ
stage_await_player1_funding = 15

abbrev pub stage_player2_opening : ℕ
stage_player2_opening = 16

abbrev pub stage_await_player2_opening : ℕ
stage_await_player2_opening = 17

abbrev pub stage_betting_local : ℕ
stage_betting_local = 18

abbrev pub stage_betting_opponent : ℕ
stage_betting_opponent = 19

abbrev pub stage_board_reveal_local : ℕ
stage_board_reveal_local = 20

abbrev pub stage_board_reveal_opponent : ℕ
stage_board_reveal_opponent = 21

abbrev pub stage_all_in_local : ℕ
stage_all_in_local = 22

abbrev pub stage_all_in_opponent : ℕ
stage_all_in_opponent = 23

abbrev pub stage_all_in_reveal_local : ℕ
stage_all_in_reveal_local = 24

abbrev pub stage_all_in_reveal_opponent : ℕ
stage_all_in_reveal_opponent = 25

abbrev pub stage_showdown_local : ℕ
stage_showdown_local = 26

abbrev pub stage_showdown_opponent : ℕ
stage_showdown_opponent = 27

abbrev pub stage_evaluate_showdown : ℕ
stage_evaluate_showdown = 28

abbrev pub stage_settle_showdown : ℕ
stage_settle_showdown = 29

abbrev pub stage_transaction_prepared : ℕ
stage_transaction_prepared = 30

abbrev pub stage_transaction_signed : ℕ
stage_transaction_signed = 31

abbrev pub stage_await_transaction_acceptance : ℕ
stage_await_transaction_acceptance = 32

abbrev pub stage_finished : ℕ
stage_finished = 33

-- ActionKind
abbrev pub action_initial_deposit : ℕ
action_initial_deposit = 1

abbrev pub action_player1_funding : ℕ
action_player1_funding = 2

abbrev pub action_player2_opening : ℕ
action_player2_opening = 3

abbrev pub action_betting : ℕ
action_betting = 4

abbrev pub action_board_reveal : ℕ
action_board_reveal = 5

abbrev pub action_showdown_reveal : ℕ
action_showdown_reveal = 6

abbrev pub action_all_in_call : ℕ
action_all_in_call = 7

abbrev pub action_all_in_reveal : ℕ
action_all_in_reveal = 8

abbrev pub action_concession : ℕ
action_concession = 9

abbrev pub action_timeout : ℕ
action_timeout = 10

abbrev pub action_showdown : ℕ
action_showdown = 11

-- What the modelled functions read of a Game: `predecessor` is what ReadState makes of the hand's
-- accepted transaction, where there is a hand.
pub record Game : Type 0 where
  pub stage : ℕ
  pub role : ℕ
  pub params : Params
  pub predecessor : Option (Result State)
  pub private_holes : Bool
  pub published : List Bool
  pub observed_at : ℕ

abbrev pub is_published : Game → ℕ → Bool
is_published g slot = known (get_elem? g.published slot)
  where
    known : Option Bool → Bool
    known none = false
    known (some b) = b

-- The `switch` of routeHand: the stage of a phase kind, by whether its actor is the local player.
unfoldable pub stage_of : ℕ → Bool → Result ℕ
stage_of kind local =
    if kind == await_player1_funding
    then ok (if local then stage_player1_funding else stage_await_player1_funding)
    else (if kind == await_player2_opening
        then ok (if local then stage_player2_opening else stage_await_player2_opening)
        else (if kind == betting
            then ok (if local then stage_betting_local else stage_betting_opponent)
            else (if kind == board_reveal
                then ok (if local then stage_board_reveal_local else stage_board_reveal_opponent)
                else (if kind == all_in
                    then ok (if local then stage_all_in_local else stage_all_in_opponent)
                    else (if kind == all_in_reveal
                        then ok (
                            if local
                            then stage_all_in_reveal_local
                            else stage_all_in_reveal_opponent)
                        else (if kind == showdown_reveal
                            then ok
                                (if local then stage_showdown_local else stage_showdown_opponent)
                            else (if kind == showdown_evaluation
                                then ok stage_evaluate_showdown
                                else err bad_input)))))))

unfoldable pub route_accepted : ℕ → Result State → Result ℕ
unfolding stage_of
route_accepted role accepted = do
  s ← accepted
  actor ← required_actor s.phase
  stage_of s.phase.kind (actor == role)

-- routeHand, by the stage that it sets
unfoldable pub route_hand : Game → Result ℕ
unfolding route_accepted
route_hand g = elim g.predecessor [
  | none ↦ err bad_input
  | some accepted ↦
      let rest = route_accepted g.role accepted in
      if not g.private_holes && (g.role == player2 && is_published g 2)
      then ok stage_await_player1_funding
      else (if not g.private_holes && (g.role == player1 && is_published g 0)
          then ok stage_await_player2_opening
          else rest)
]

abbrev pub among : ℕ → List ℕ → Bool
among n [] = false
among n (m ∷ rest) = n == m || among n rest

-- actionPermitted
unfoldable pub action_permitted : ℕ → ℕ → Bool
action_permitted stage kind =
    if kind == action_initial_deposit
    then stage == stage_initial_deposit
    else (if kind == action_player1_funding
        then stage == stage_player1_funding
        else (if kind == action_player2_opening
            then stage == stage_player2_opening
            else (if kind == action_betting
                then stage == stage_betting_local
                else (if kind == action_board_reveal
                    then stage == stage_board_reveal_local
                    else (if kind == action_showdown_reveal
                        then stage == stage_showdown_local
                        else (if kind == action_all_in_call
                            then stage == stage_all_in_local
                            else (if kind == action_all_in_reveal
                                then stage == stage_all_in_reveal_local
                                else (if kind == action_concession
                                    then among stage (
                                        stage_betting_local ∷ stage_all_in_local
                                        ∷ stage_all_in_reveal_local ∷ stage_showdown_local ∷ [])
                                    else (if kind == action_timeout
                                        then among stage (
                                            stage_await_player1_funding
                                            ∷ stage_await_player2_opening ∷ stage_betting_opponent
                                            ∷ stage_board_reveal_opponent ∷ stage_all_in_opponent
                                            ∷ stage_all_in_reveal_opponent ∷ stage_showdown_opponent
                                            ∷ [])
                                        else (if kind == action_showdown
                                            then stage == stage_settle_showdown
                                            else false))))))))))

-- settlementEligible
unfoldable pub settlement_eligible : Game → ℕ → ℕ → Result Bool
settlement_eligible g winner at =
    let priority = if winner == player2 then winner else player1 in
    let waiting = (do
      reject (ltb (max_uint64 - 30) g.observed_at) protocol
      ok (leb (g.observed_at + 30) at)) in
    if g.role == priority then ok true else waiting

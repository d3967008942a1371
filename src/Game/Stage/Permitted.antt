-- ===== src/Game/Stage/Permitted.antt =====
-- Which actions the client permits once its stage follows the accepted state of the hand.
use arkade_poker.Prelude.{
  ℕ, ◌≡◌, ◌==◌, ◌&&◌, ◌||◌, ◌<◌, ◌≤◌, not, Bool, true, false, some, ok, refl, arith, Result,
  all_below, all_below_sound, if◌then◌else◌, err,
}
use arkade_poker.Covenant.Types.{
  State, Phase, await_player1_funding, await_player2_opening, betting, all_in, board_reveal,
  all_in_reveal,
}
use arkade_poker.Covenant.Phase.{required_actor, encode_phase}
use arkade_poker.Covenant.Terminal.{may_concede}
use arkade_poker.Game.Stage.{
  Game, route_hand, route_accepted, stage_of, action_permitted, action_player1_funding,
  action_player2_opening, action_betting, action_board_reveal, action_showdown_reveal,
  action_all_in_call, action_all_in_reveal, action_concession, action_timeout,
}

-- The action that a phase kind waits for.
abbrev awaited : ℕ → ℕ
awaited kind =
    if kind == await_player1_funding
    then action_player1_funding
    else (if kind == await_player2_opening
        then action_player2_opening
        else (if kind == betting
            then action_betting
            else (if kind == board_reveal
                then action_board_reveal
                else (if kind == all_in
                    then action_all_in_call
                    else (if kind == all_in_reveal
                        then action_all_in_reveal
                        else action_showdown_reveal)))))

-- Whether a player may take an action in a phase that waits for the actor: the awaited action
-- and, in four phases, a concession are the actor's, and the timeout is the opponent's.
unfoldable pub may_take : ℕ → Bool → ℕ → Bool
unfolding may_concede
may_take kind local action =
    if action == action_timeout
    then not local
    else local && (action == awaited kind || (action == action_concession && may_concede kind))

same : Bool → Bool → Bool
same true b = b
same false b = not b

agrees : Result ℕ → ℕ → Bool → ℕ → Bool
unfolding same action_permitted may_take
agrees (ok stage) kind local action =
    same (action_permitted stage action) (may_take kind local action)
agrees (err _) kind local action = true

-- Every phase kind before the evaluation, by the player and the action.
permission_table :
    all_below 8 (λ kind. all_below 12 (λ action.
      agrees (stage_of kind true) kind true action
      && agrees (stage_of kind false) kind false action))
    ≡ true
unfolding all_below agrees stage_of
permission_table = refl

same_eq : (a b : Bool) → same a b ≡ true → a ≡ b
unfolding same
same_eq true true h = refl
same_eq true false h = cc
same_eq false true h = cc
same_eq false false h = refl

stage_agrees :
    (kind action : ℕ) (local : Bool)
    → kind < 8
    → action < 12
    → agrees (stage_of kind local) kind local action ≡ true
stage_agrees kind action true hk ha =
    ground (arith, all_below_sound 12 _ action (all_below_sound 8 _ kind permission_table hk) ha)
stage_agrees kind action false hk ha =
    ground (arith, all_below_sound 12 _ action (all_below_sound 8 _ kind permission_table hk) ha)

stage_permits :
    (kind stage action : ℕ) (local : Bool)
    → kind < 8
    → action < 12
    → stage_of kind local ≡ ok stage
    → action_permitted stage action ≡ may_take kind local action
stage_permits kind stage action local hk ha h =
    same_eq _ _ (unfold agrees in rw (h, agrees) at (stage_agrees kind action local hk ha))

acting_kind : (x : Phase) (actor : ℕ) → required_actor x ≡ ok actor → 1 ≤ actor → x.kind < 8
unfolding required_actor encode_phase
acting_kind x actor h lo = ground arith

-- Once the private cards are known, routing from the accepted state of a hand whose phase waits
-- for an actor sets a stage that permits the actor the action that the phase waits for and, in
-- four phases, the concession, and the opponent the timeout, and no other of the eleven actions.
pub route_hand-action_permitted :
    (g : Game) (s : State) (actor stage action : ℕ)
    → g.predecessor ≡ some (ok s)
    → g.private_holes ≡ true
    → required_actor s.phase ≡ ok actor
    → 1 ≤ actor
    → action < 12
    → route_hand g ≡ ok stage
    → action_permitted stage action ≡ may_take s.phase.kind (actor == g.role) action
unfolding route_hand route_accepted
route_hand-action_permitted g s actor stage action e holes ea lo ha h =
    let routed : stage_of s.phase.kind (actor == g.role) ≡ ok stage = rw (e, holes, ea) at h in
    stage_permits s.phase.kind stage action (actor == g.role) (acting_kind s.phase actor ea lo) ha
      routed

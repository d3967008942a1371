-- ===== src/Covenant/Betting.antt =====
-- internal/covenant/action_betting.go, Bet: how a betting action of the actor moves the state. The
-- deadline is moved by buildLive.
pub mod Targets
use arkade_poker.Prelude.{
  ℕ, ◌+◌, ◌-◌, Bool, true, false, not, ◌&&◌, ◌||◌, List, [], ltb, leb, ◌==◌, if◌then◌else◌, u8, ℤ,
  pos, uint64, leb_ℤ, eqb_ℤ, is_negative, Result, ok, err, ◌>>=◌, ◌>>◌, guard, reject, bad_phase,
  bad_history, bad_target, bad_action, over_cap,
}
use arkade_poker.Covenant.Types.{
  Phase, State, Params, BettingAction, player1, player2, pre_flop, river, first_pass, second_pass,
  last_start, last_check, last_raise, check, call, raise_to, betting, all_in, board_reveal,
  showdown_reveal, all_in_reveal, other_player,
}

-- The first and the second result of `wagers`.
abbrev pub own_wager : State → ℕ → ℕ
own_wager s actor = if actor == player1 then s.wager1 else s.wager2

abbrev pub opposing_wager : State → ℕ → ℕ
opposing_wager s actor = if actor == player1 then s.wager2 else s.wager1

-- The guards of Bet on the predecessor.
unfoldable pub check_history : Params → State → Result (Unit {0})
check_history p s = do
  let actor = s.phase.actor
  let a = own_wager s actor
  let o = opposing_wager s actor
  reject (leb p.max_wager a || leb p.max_wager o) over_cap
  reject
      (s.phase.street == pre_flop
        && (s.last_action == last_start || (actor == player2 && s.last_action == last_check)))
      bad_history
  reject (if s.last_action == last_raise then leb o a || ltb (o - a) p.min_bet else not (a == o))
      bad_history

-- The `switch` on the action: the wager that the actor moves to.
unfoldable pub bet_target : Params → ℕ → BettingAction → ℕ → ℕ → Result ℕ
bet_target p last action a o =
    if action.kind == check
    then (do
      reject (not (eqb_ℤ action.amount (pos 0)) || (last == last_raise || not (a == o))) bad_action
      ok a)
    else (if action.kind == call
        then (do
          reject (not (eqb_ℤ action.amount (pos 0)) || (not (last == last_raise) || leb o a))
              bad_action
          ok o)
        else (if action.kind == raise_to
            then (do
              reject (is_negative action.amount) bad_target
              let target = uint64 action.amount
              reject (ltb p.max_wager target || leb target a || leb target o) bad_target
              let minimum = if last == last_raise then o - a else p.min_bet
              reject (not (target == p.max_wager) && ltb (target - o) minimum) bad_target
              ok target)
            else err bad_action))

abbrev pub set_wager : State → ℕ → ℕ → State
set_wager s actor target =
    if actor == player1 then record s { wager1 = target } else record s { wager2 = target }

-- The phase and the history after the wager has reached its target.
unfoldable pub bet_phase : Params → State → ℕ → ℕ → Phase × ℕ
bet_phase p s o target =
    let street = s.phase.street in
    let opponent = other_player s.phase.actor in
    if target == o
    then (if s.last_action == last_start
        then (record { kind = betting; actor = opponent; street = street; pass = 0 }, last_check)
        else (if street == river
            then (
              record { kind = showdown_reveal; actor = opponent; street = 0; pass = first_pass },
              last_start,
            )
            else (
              record {
                kind = board_reveal;
                actor = opponent;
                street = u8 (street + 1);
                pass = first_pass;
              },
              last_start,
            )))
    else (
      record {
        kind = if target == p.max_wager then all_in else betting;
        actor = opponent;
        street = street;
        pass = 0;
      },
      last_raise,
    )

-- The state after the actor's wager has reached its target.
unfoldable pub bet_result : Params → State → ℕ → State
unfolding bet_phase
bet_result p s target =
    let next = bet_phase p s (opposing_wager s s.phase.actor) target in
    record (set_wager s s.phase.actor target) { phase = next.0; last_action = next.1 }

-- Bet
unfoldable pub bet_next : Params → State → BettingAction → Result State
bet_next p s action = do
  guard (s.phase.kind == betting) bad_phase
  _ ← check_history p s
  target ←
      bet_target p s.last_action action (own_wager s s.phase.actor) (opposing_wager s s.phase.actor)
  ok (bet_result p s target)

-- ===== src/Covenant/Betting/Targets.antt =====
-- Which wagers a betting action can reach.
use arkade_poker.Prelude.{
  ℕ, ◌+◌, ◌-◌, ◌≤◌, ◌<◌, ◌≡◌, ◌⊎◌, ◌==◌, if◌then◌else◌, ok, arith, >>=-eq-ok, guard, bad_phase,
}
use arkade_poker.Covenant.Types.{Params, State, BettingAction, last_raise, betting}
use arkade_poker.Covenant.Betting.{
  own_wager, opposing_wager, check_history, bet_target, bet_result, bet_next,
}

-- The least raise over the opposing wager.
abbrev pub minimum_raise : Params → ℕ → ℕ → ℕ → ℕ
minimum_raise p last a o = if last == last_raise then o - a else p.min_bet

-- A raise exceeds both wagers, stays within the cap, and is a full raise or reaches the cap.
pub record IsRaise (p : Params) (last a o n : ℕ) : Type 0 where
  pub over_own : a < n
  pub over_opposing : o < n
  pub within : n ≤ p.max_wager
  pub full : (n ≡ p.max_wager) ⊎ (minimum_raise p last a o + o ≤ n)

pub bet_target_cases :
    (p : Params) (last : ℕ) (action : BettingAction) (a o n : ℕ)
    → bet_target p last action a o ≡ ok n
    → ((n ≡ o) × (a ≤ o)) ⊎ IsRaise p last a o n
unfolding bet_target
bet_target_cases p last action a o n h = ground arith

-- The history that Bet admits.
pub record IsHistory (p : Params) (s : State) : Type 0 where
  pub own_below : own_wager s s.phase.actor < p.max_wager
  pub opposing_below : opposing_wager s s.phase.actor < p.max_wager
  pub raised :
      s.last_action ≡ last_raise
      → own_wager s s.phase.actor + p.min_bet ≤ opposing_wager s s.phase.actor

pub check_history-IsHistory : (p : Params) (s : State) → check_history p s ≡ ok tt → IsHistory p s
unfolding check_history
check_history-IsHistory p s h = ground arith

pub bet_next_cases :
    (p : Params) (s t : State) (action : BettingAction)
    → bet_next p s action ≡ ok t
    → (s.phase.kind ≡ betting)
      × (n : ℕ) × (check_history p s ≡ ok tt)
      × (bet_target p s.last_action action
            (own_wager s s.phase.actor)
            (opposing_wager s s.phase.actor)
          ≡ ok n)
      × (t ≡ bet_result p s n)
unfolding bet_next
bet_next_cases p s t action h =
    let (_, e0, h0) = >>=-eq-ok (guard (s.phase.kind == betting) bad_phase) _ h in
    let (_, e1, h1) = >>=-eq-ok (check_history p s) _ h0 in
    let (n, e2, h2) =
      >>=-eq-ok
        (bet_target p s.last_action action (own_wager s s.phase.actor)
          (opposing_wager s s.phase.actor))
        _ h1 in
    (ground arith, n, e1, e2, cc)

-- ===== src/Covenant/Live/Bets.antt =====
-- A bet keeps the invariant of a live hand.
use native.Mathlib.Decide.{ℕ_discrete}
use arkade_poker.Prelude.{ℕ, ◌≡◌, ◌≢◌, inl, inr, ok, arith}
use arkade_poker.Covenant.Types.{Params, State, BettingAction, river, last_start}
use arkade_poker.Covenant.Betting.{bet_next, own_wager, opposing_wager, bet_result}
use arkade_poker.Covenant.Betting.Targets.{IsRaise, bet_target_cases, bet_next_cases}
use arkade_poker.Covenant.Live.{IsAgreed}
use arkade_poker.Covenant.Live.Invariant.{
  IsLive, IsBettable, wagering, facing_all_in, boarding, showing,
}

module _ (p : Params) (agreed : IsAgreed p) (s : State) (b : IsBettable p s) (n : ℕ) where
  abbrev o : ℕ
  o = opposing_wager s s.phase.actor

  -- The second check of a street, or a call: the street is over.
  matched_first : n ≡ o → s.last_action ≡ last_start → IsLive p (bet_result p s n)
  unfolding bet_result
  matched_first e l = wagering (ground arith) (ground arith)

  matched_river :
      n ≡ o → s.last_action ≢ last_start → s.phase.street ≡ river → IsLive p (bet_result p s n)
  unfolding bet_result
  matched_river e l r = showing (ground arith) (ground arith) (ground arith)

  matched_street :
      n ≡ o → s.last_action ≢ last_start → s.phase.street ≢ river → IsLive p (bet_result p s n)
  unfolding bet_result
  matched_street e l r = boarding (ground arith) (ground arith) (ground arith) (ground arith)

  matched : n ≡ o → IsLive p (bet_result p s n)
  matched e = elim (ℕ_discrete s.last_action last_start) [
    | yes l ↦ matched_first e l
    | no l ↦ elim (ℕ_discrete s.phase.street river) [
      | yes r ↦ matched_river e l r
      | no r ↦ matched_street e l r
    ]
  ]

  module _ (r : IsRaise p s.last_action (own_wager s s.phase.actor) o n) where
    raised_all_in : n ≡ p.max_wager → IsLive p (bet_result p s n)
    unfolding bet_result
    raised_all_in e = facing_all_in (ground arith) (ground arith)

    raised_below : n ≢ p.max_wager → IsLive p (bet_result p s n)
    unfolding bet_result
    raised_below e = wagering (ground arith) (ground arith)

    raised : IsLive p (bet_result p s n)
    raised = elim (ℕ_discrete n p.max_wager) [ yes e ↦ raised_all_in e | no e ↦ raised_below e ]

-- Every betting action that the contract builds leads from a betting turn to a state in order.
pub bet_next-IsLive :
    (p : Params)
    → IsAgreed p
    → (s t : State) (action : BettingAction) → IsBettable p s
    → bet_next p s action ≡ ok t
    → IsLive p t
bet_next-IsLive p agreed s t action b h =
    let (_, n, _, target, result) = bet_next_cases p s t action h in
    rw result (elim (bet_target_cases p s.last_action action _ _ n target) [
      | inl (e, _) ↦ matched p agreed s b n e
      | inr r ↦ raised p agreed s b n r
    ])

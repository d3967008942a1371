-- ===== src/Game/Admission/Agreement.antt =====
-- The client admits what the contract builds, and nothing else.
use arkade_poker.Prelude.{
  ℕ, ◌+◌, ◌-◌, ◌≤◌, ◌≡◌, ◌⊎◌, inl, inr, ok, arith, [], pos, max_uint64, if◌then◌else◌, ◌==◌, true,
  false, sym, ◌∙◌,
}
use arkade_poker.Covenant.Types.{
  State, Params, BettingAction, betting, all_in, call, check, raise_to, last_raise, other_player,
}
use arkade_poker.Covenant.Phase.{required_actor, encode_phase}
use arkade_poker.Covenant.Betting.{
  bet_next, bet_result, bet_target, check_history, own_wager, opposing_wager,
}
use arkade_poker.Covenant.Betting.Targets.{bet_next_cases, bet_target_cases, IsRaise}
use arkade_poker.Covenant.Live.{IsAgreed, advance, deadline_interval}
use arkade_poker.Covenant.Live.Invariant.{IsBettable}
use arkade_poker.Game.Admission.{
  Expectation, expect, expect_phase, expect_betting, matched, raised, wager, set_wager,
}

module _ (p : Params) (agreed : IsAgreed p) (s : State) (k : s.phase.kind ≡ betting)
    (b : IsBettable p s) (time : s.deadline + deadline_interval ≤ max_uint64) where
  actor_known : required_actor s.phase ≡ ok s.phase.actor
  unfolding required_actor encode_phase
  actor_known = ground arith

  abbrev own : ℕ
  own = own_wager s s.phase.actor

  abbrev opposing : ℕ
  opposing = opposing_wager s s.phase.actor

  abbrev later : State
  later = record s { deadline = s.deadline + deadline_interval }

  wager_other : wager s (other_player s.phase.actor) ≡ opposing
  wager_other = ground (arith, b.turn)

  expect_at_betting :
      (n : ℕ)
      → expect p s n
        ≡ expect_betting p later s.phase.actor (other_player s.phase.actor) own opposing n
  unfolding expect expect_phase
  expect_at_betting n = rw (actor_known, wager_other) (ground (arith, b.turn))

  -- What the client expects of a bet to a wager that Bet can reach.
  abbrev expectation : ℕ → Expectation
  expectation n = record { next = advance (bet_result p s n); slots = []; contribution = n - own }

  matched_result :
      (n : ℕ)
      → n ≡ opposing
      → set_wager (matched later (other_player s.phase.actor)) s.phase.actor n
        ≡ advance (bet_result p s n)
  unfolding matched bet_result
  matched_result n e = ground arith

  matched_expected :
      (n : ℕ) → n ≡ opposing → own ≤ opposing → n ≤ p.max_wager → expect p s n ≡ ok (expectation n)
  unfolding expect_betting
  matched_expected n e lo hi = rw expect_at_betting (ground (arith, matched_result n e))

  abbrev raise_state : ℕ → State
  raise_state n = record later {
    phase = record {
      kind = if n == p.max_wager then all_in else betting;
      actor = other_player s.phase.actor;
      street = s.phase.street;
      pass = 0;
    };
    last_action = last_raise;
  }

  raised_result :
      (n : ℕ)
      → IsRaise p s.last_action own opposing n
      → (t : State) × (raised p later (other_player s.phase.actor) own opposing n ≡ ok t)
        × (set_wager t s.phase.actor n ≡ advance (bet_result p s n))
  unfolding raised bet_result
  raised_result n r = (raise_state n, ground arith, ground arith)

  raised_expected :
      (n : ℕ) → IsRaise p s.last_action own opposing n → expect p s n ≡ ok (expectation n)
  unfolding expect_betting
  raised_expected n r =
      let (t, e, f) = raised_result n r in rw expect_at_betting (ground (arith, e, f))

  -- The reachable wagers are exactly those that the client admits.
  expected_cases :
      (n : ℕ) (e : Expectation)
      → expect p s n ≡ ok e
      → ((n ≡ opposing) × (own ≤ opposing)) ⊎ IsRaise p s.last_action own opposing n
  unfolding expect_betting raised
  expected_cases n e h = ground (arith, expect_at_betting n)

  expected_is :
      (n : ℕ)
      → ((n ≡ opposing) × (own ≤ opposing)) ⊎ IsRaise p s.last_action own opposing n
      → expect p s n ≡ ok (expectation n)
  expected_is n (inl (e, lo)) = matched_expected n e lo (ground (arith, b.turn))
  expected_is n (inr r) = raised_expected n r

  -- The action that moves the actor's wager to `n`.
  abbrev action_to : ℕ → BettingAction
  action_to n = elim (n == opposing) [
    | true ↦ record { kind = if s.last_action == last_raise then call else check; amount = pos 0 }
    | false ↦ record { kind = raise_to; amount = pos n }
  ]

  history_ok : check_history p s ≡ ok tt
  unfolding check_history
  history_ok = ground arith

  target_reached :
      (n : ℕ)
      → ((n ≡ opposing) × (own ≤ opposing)) ⊎ IsRaise p s.last_action own opposing n
      → bet_target p s.last_action (action_to n) own opposing ≡ ok n
  unfolding bet_target
  target_reached n (inl (e, lo)) = ground arith
  target_reached n (inr r) = ground arith

  bet_reaches :
      (n : ℕ)
      → ((n ≡ opposing) × (own ≤ opposing)) ⊎ IsRaise p s.last_action own opposing n
      → bet_next p s (action_to n) ≡ ok (bet_result p s n)
  unfolding bet_next
  bet_reaches n h = ground (arith, history_ok, target_reached n h)

  wager_reached : (n : ℕ) → wager (bet_result p s n) s.phase.actor ≡ n
  unfolding bet_result
  wager_reached n = ground arith

  -- Under agreed terms, every bet that the contract builds on a betting state in order, whose
  -- deadline can still move, is what the client's admission expects of the actor's new wager: the
  -- same successor, no new share, and a contribution of the difference in the actor's wager.
  pub expect-bet_next :
      (action : BettingAction) (t : State)
      → bet_next p s action ≡ ok t
      → expect p s (wager t s.phase.actor)
        ≡ ok (record {
          next = advance t;
          slots = [];
          contribution = wager t s.phase.actor - wager s s.phase.actor;
        })
  expect-bet_next action t h =
      let (_, n, _, target, result) = bet_next_cases p s t action h in
      rw (result, wager_reached n)
        (expected_is n (bet_target_cases p s.last_action action own opposing n target))

  -- Conversely, whatever successor the client's admission expects of a new wager on such a state,
  -- there is a betting action for which the contract builds it.
  pub expect_built :
      (n : ℕ) (e : Expectation)
      → expect p s n ≡ ok e
      → (action : BettingAction) × (t : State) × (bet_next p s action ≡ ok t) × (e.next ≡ advance t)
  expect_built n e h =
      let cases = expected_cases n e h in
      (
        action_to n,
        bet_result p s n,
        bet_reaches n cases,
        same_next e (expectation n) (sym h ∙ expected_is n cases),
      )
    where
      same_next : (x y : Expectation) → ok x ≡ ok y → x.next ≡ y.next
      same_next x y eq = cc

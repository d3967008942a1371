-- ===== src/Game/Choice/Funding.antt =====
-- The money that the client asks for a bet is what the contract's bet adds to the covenant.
use arkade_poker.Prelude.{
  ℕ, ◌+◌, ◌-◌, ◌≤◌, ◌≡◌, max_uint64, ok, some, arith, ℤ, pos, refl, sym, ◌>>=◌, >>=-eq-ok, ◌∙◌,
}
use arkade_poker.Covenant.Types.{State, BettingAction, betting, other_player}
use arkade_poker.Covenant.Betting.{
  bet_next, bet_target, bet_result, check_history, own_wager, opposing_wager,
}
use arkade_poker.Covenant.Betting.Targets.{bet_next_cases}
use arkade_poker.Covenant.Live.{IsAgreed, deadline_interval}
use arkade_poker.Covenant.Live.Invariant.{IsBettable}
use arkade_poker.Game.Admission.{wager}
use arkade_poker.Game.Stage.{Game, stage_betting_local}
use arkade_poker.Game.Choice.{
  Input, input_bet, validate_input, decide_hand_effect, hand_choice, bet_funding, wager_funding,
  funding_at, required_funding,
}
use arkade_poker.Game.Choice.Offer.{
  IsTable, offer, Fits, wager_choice-offer, valid_of_target, bet_target-bet_funding,
  bet_funding-bet_target,
}

module _ (g : Game) (s : State) (agreed : IsAgreed g.params) (e : g.predecessor ≡ some (ok s))
    (st : g.stage ≡ stage_betting_local) (turn : g.role ≡ s.phase.actor)
    (k : s.phase.kind ≡ betting) (b : IsBettable g.params s) where
  abbrev own : ℕ
  own = own_wager s s.phase.actor

  abbrev opposing : ℕ
  opposing = opposing_wager s s.phase.actor

  table : IsTable g.params s.last_action own opposing
  table = ground (arith, agreed, b)

  wager_reached : (n : ℕ) → wager (bet_result g.params s n) s.phase.actor ≡ n
  unfolding bet_result
  wager_reached n = ground arith

  deadline_kept : (n : ℕ) → (bet_result g.params s n).deadline ≡ s.deadline
  unfolding bet_result
  deadline_kept n = ground arith

  history_ok : check_history g.params s ≡ ok tt
  unfolding check_history
  history_ok = ground (arith, b)

  bet_built :
      (a : BettingAction) (n : ℕ)
      → bet_target g.params s.last_action a own opposing ≡ ok n
      → bet_next g.params s a ≡ ok (bet_result g.params s n)
  unfolding bet_next
  bet_built a n h = ground (arith, history_ok, h)

  abbrev bet_input : BettingAction → Input
  bet_input a = record { kind = input_bet; bet = a }

  other_wager : wager s (other_player s.phase.actor) ≡ opposing
  other_wager = ground (arith, b.turn)

  hand_choice-offer : hand_choice g ≡ ok (some (offer g.params s.last_action own opposing))
  unfolding hand_choice
  hand_choice-offer =
      rw (e, st, turn, other_wager, wager_choice-offer g.params s.last_action own opposing table)
        refl

  funding_at-bet_funding :
      (a : BettingAction)
      → funding_at g (bet_input a) ≡ bet_funding (offer g.params s.last_action own opposing) a own
  unfolding funding_at wager_funding
  funding_at-bet_funding a = rw hand_choice-offer (simp (st, e, turn))

  required_at :
      (a : BettingAction)
      → required_funding g (bet_input a) ≡ (
          validate_input (bet_input a) >>= λ _.
          bet_funding (offer g.params s.last_action own opposing) a own)
  unfolding required_funding decide_hand_effect
  required_at a = rw (funding_at-bet_funding a, st) refl

  -- For every bet of an int64 amount that the contract builds, under agreed terms, on a betting
  -- turn in order of the local player, the client asks the wallet for exactly what the bet adds
  -- to the player's wager.
  pub required_funding-bet_next :
      (a : BettingAction) (t : State)
      → Fits a.amount
      → bet_next g.params s a ≡ ok t
      → required_funding g (bet_input a) ≡ ok (pos (wager t s.phase.actor - wager s s.phase.actor))
  required_funding-bet_next a t small h =
      let (_, n, _, target, result) = bet_next_cases g.params s t a h in
      rw
        (
          required_at a,
          valid_of_target g.params s.last_action own opposing table n a.kind a.amount target,
          bet_target-bet_funding g.params s.last_action own opposing table n a.kind a.amount small
              target,
          result,
          wager_reached n,
        )
        refl

  -- Conversely, on such a turn, where the deadline can still move, wherever the client asks for
  -- the funding of a bet, the bet has a successor, and its deadline can still move.
  pub required_funding_built :
      (a : BettingAction) (v : ℤ)
      → s.deadline + deadline_interval ≤ max_uint64
      → required_funding g (bet_input a) ≡ ok v
      → (t : State) × (bet_next g.params s a ≡ ok t) × (t.deadline + deadline_interval ≤ max_uint64)
  required_funding_built a v time h =
      let (_, valid, asked) =
        >>=-eq-ok (validate_input (bet_input a)) _ (sym (required_at a) ∙ h) in
      let (n, target) =
        bet_funding-bet_target g.params s.last_action own opposing table a.kind a.amount v valid
          asked in
      (bet_result g.params s n, bet_built a n target, omega (arith, deadline_kept n, time))

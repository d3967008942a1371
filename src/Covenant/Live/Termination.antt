-- ===== src/Covenant/Live/Termination.antt =====
-- A hand ends: each live action uses up at least a minimum bet of a bounded weight.
use native.Mathlib.Decide.{ℕ_discrete}
use arkade_poker.Prelude.{
  ℕ, ◌+◌, ◌-◌, ◌*◌, ◌≤◌, ◌≡◌, ◌≢◌, inl, inr, ok, arith, ◌==◌, if◌then◌else◌, leb,
}
use arkade_poker.Covenant.Types.{
  Bytes, Params, State, BettingAction, betting, all_in, board_reveal, showdown_reveal,
  all_in_reveal, first_pass, last_start, await_player1_funding, await_player2_opening,
}
use arkade_poker.Covenant.Betting.{bet_next, bet_result, own_wager, opposing_wager}
use arkade_poker.Covenant.Betting.Targets.{IsRaise, bet_target_cases, bet_next_cases}
use arkade_poker.Covenant.Reveals.{
  CardLib, board_reveal_next, showdown_reveal_next, all_in_reveal_next, all_in_call_next,
  opening_next, player1_funding_next, initial_state, state_eq,
}
use arkade_poker.Covenant.Live.{
  IsAgreed, Action, fund, open_hand, bet, reveal_board, reveal_showdown, call_all_in, reveal_all_in,
  Reach, deposit, act,
}
use arkade_poker.Covenant.Live.Invariant.{
  IsLive, IsBettable, at_betting, at_board, at_showdown, at_all_in, at_all_in_reveal,
}
use arkade_poker.Covenant.Live.Steps.{Reach-IsLive}

-- How many actions the streets after this one can still take, five for each.
abbrev streets_left : ℕ → ℕ
streets_left street =
    if street == 1 then 15 else (if street == 2 then 10 else (if street == 3 then 5 else 0))

-- How far the phase is from the evaluation, raises not counted.
pub distance : State → ℕ
distance s =
    let x = s.phase in
    if x.kind == await_player1_funding
    then 22
    else (if x.kind == await_player2_opening
        then 21
        else (if x.kind == betting
            then streets_left x.street + (if s.last_action == last_start then 5 else 4)
            else (if x.kind == all_in
                then 3
                else (if x.kind == board_reveal
                    then streets_left x.street + (if x.pass == first_pass then 7 else 6)
                    else (if x.kind == showdown_reveal
                        then (if x.pass == first_pass then 2 else 1)
                        else (if x.kind == all_in_reveal then 2 else 0))))))

abbrev highest : State → ℕ
highest s = if leb s.wager1 s.wager2 then s.wager2 else s.wager1

-- What is left to bet below the cap, and a minimum bet for each action that is no raise.
pub weight : Params → State → ℕ
unfolding distance
weight p s = (p.max_wager - highest s) + p.min_bet * distance s

scale : (c a b : ℕ) → a ≤ b → c * a ≤ c * b
scale c a b h = grind arith

module _ (p : Params) (agreed : IsAgreed p) (s : State) (b : IsBettable p s)
    (k : s.phase.kind ≡ betting) (n : ℕ) where
  matched_start :
      n ≡ opposing_wager s s.phase.actor
      → s.last_action ≡ last_start
      → weight p (bet_result p s n) + p.min_bet ≤ weight p s
  unfolding weight bet_result
  matched_start e l = ground arith

  matched_end :
      n ≡ opposing_wager s s.phase.actor
      → s.last_action ≢ last_start
      → weight p (bet_result p s n) + p.min_bet ≤ weight p s
  unfolding weight bet_result
  matched_end e l = ground arith

  highest_opposing : highest s ≡ opposing_wager s s.phase.actor
  highest_opposing = ground arith

  module _
      (r : IsRaise p s.last_action
        (own_wager s s.phase.actor)
        (opposing_wager s s.phase.actor)
        n) where
    highest_raised : highest (bet_result p s n) ≡ n
    unfolding bet_result
    highest_raised = ground arith

    distance_raised : n ≢ p.max_wager → distance (bet_result p s n) ≤ distance s
    unfolding distance bet_result
    distance_raised ne = ground arith

    distance_all_in : n ≡ p.max_wager → distance (bet_result p s n) + 1 ≤ distance s
    unfolding distance bet_result
    distance_all_in e = ground arith

    full_raise : n ≢ p.max_wager → opposing_wager s s.phase.actor + p.min_bet ≤ n
    full_raise ne = ground arith

    raised_lighter : weight p (bet_result p s n) + p.min_bet ≤ weight p s
    unfolding weight
    raised_lighter = elim (ℕ_discrete n p.max_wager) [
      | yes e ↦ omega (
        arith,
        highest_raised,
        highest_opposing,
        r.within,
        r.over_opposing,
        scale p.min_bet _ _ (distance_all_in e),
      )
      | no ne ↦ omega (
        arith,
        highest_raised,
        highest_opposing,
        r.within,
        full_raise ne,
        scale p.min_bet _ _ (distance_raised ne),
      )
    ]

bet_next-weight :
    (p : Params)
    → IsAgreed p
    → (s t : State) (action : BettingAction) → IsLive p s
    → bet_next p s action ≡ ok t
    → weight p t + p.min_bet ≤ weight p s
bet_next-weight p agreed s t action v h =
    let (k, n, _, target, result) = bet_next_cases p s t action h in
    let b = at_betting v k in
    rw result (elim (bet_target_cases p s.last_action action _ _ n target) [
      | inl (e, _) ↦ elim (ℕ_discrete s.last_action last_start) [
        | yes l ↦ matched_start p agreed s b k n e l
        | no l ↦ matched_end p agreed s b k n e l
      ]
      | inr r ↦ raised_lighter p agreed s b k n r
    ])

module _ {Card : Type 0} (cards : CardLib Card) (id : Bytes) (p : Params)
    (agreed : IsAgreed p) where
  -- Each action of the contract makes the state lighter by a minimum bet.
  Action-weight :
      {s t : State} → IsLive p s → Action cards id p s t → weight p t + p.min_bet ≤ weight p s
  unfolding weight
  Action-weight {s} {t} v (fund r w h) =
      unfold player1_funding_next state_eq initial_state in ground arith
  Action-weight {s} {t} v (open_hand amount r w h) = unfold opening_next in ground arith
  Action-weight {s} {t} v (bet a h) = bet_next-weight p agreed s t a v h
  Action-weight {s} {t} v (reveal_board r w h) =
      unfold board_reveal_next in ground (arith, at_board v)
  Action-weight {s} {t} v (reveal_showdown r w h) =
      unfold showdown_reveal_next in ground (arith, at_showdown v)
  Action-weight {s} {t} v (call_all_in r w h) =
      unfold all_in_call_next in ground (arith, at_all_in v)
  Action-weight {s} {t} v (reveal_all_in r w h) =
      unfold all_in_reveal_next in ground (arith, at_all_in_reveal v)

  initial_weight : weight p (initial_state id p) ≡ p.max_wager + 22 * p.min_bet
  unfolding weight initial_state
  initial_weight = omega arith

  -- What a hand has used up and what it has left is bounded by the terms.
  pub Reach-weight :
      {n : ℕ} {s : State}
      → Reach cards id p n s
      → n * p.min_bet + weight p s ≤ p.max_wager + 22 * p.min_bet
  unfolding weight
  Reach-weight (deposit e0 e) = rw (e0, e) (omega (arith, initial_weight))
  Reach-weight (act {t = t} r a _ e em) =
      rw (em, e) (omega (arith, Reach-weight r, Action-weight (Reach-IsLive cards id p agreed r) a))

  -- Under agreed terms a hand ends: the number of its live actions, times the minimum bet, is at
  -- most the wager cap and 22 minimum bets.
  pub Reach-bounded :
      {n : ℕ} {s : State} → Reach cards id p n s → n * p.min_bet ≤ p.max_wager + 22 * p.min_bet
  Reach-bounded r = omega (arith, Reach-weight r)

-- ===== src/Covenant/Live.antt =====
-- internal/covenant: the live actions of a hand as one step relation on states, from the initial
-- deposit to the evaluation of the showdown.
pub mod Invariant
pub mod Bets
pub mod Steps
pub mod Termination
pub mod Progress
use arkade_poker.Prelude.{ℕ, ◌+◌, ◌≤◌, ◌<◌, ◌≡◌, ◌⊎◌, List, ℤ, ok, max_uint64}
use arkade_poker.Covenant.Types.{Bytes, Params, State, BettingAction}
use arkade_poker.Covenant.Reveals.{
  CardLib, RevealWitness, board_reveal_next, showdown_reveal_next, all_in_reveal_next,
  all_in_call_next, opening_next, player1_funding_next, initial_state,
}
use arkade_poker.Covenant.Betting.{bet_next}

-- DeadlineInterval
abbrev pub deadline_interval : ℕ
deadline_interval = 60

-- The successor of buildLive: the deadline moves on.
abbrev pub advance : State → State
advance s = record s { deadline = s.deadline + deadline_interval }

-- What the terms of a derived contract satisfy.
pub record IsAgreed (p : Params) : Type 0 where
  pub bet_pos : 0 < p.min_bet
  pub bet_le_cap : p.min_bet ≤ p.max_wager
  pub stake_pos : 0 < p.stake
  pub bond_pos : 0 < p.bond
  pub total_bounded :
      (p.stake + p.bond + p.max_wager) + (p.stake + p.bond + p.max_wager) ≤ 2100000000000000

module _ {Card : Type 0} (cards : CardLib Card) (id : Bytes) (p : Params) where
  -- Each action, before the deadline moves.
  pub data Action (s t : State) : Type 0 where
    fund :
        (r : RevealWitness Card) (w : List Bytes)
        → player1_funding_next cards id p s r ≡ ok (t, w)
        → Action s t
    open_hand :
        (amount : ℤ) (r : RevealWitness Card) (w : List Bytes)
        → opening_next cards p s amount r ≡ ok (t, w)
        → Action s t
    bet : (a : BettingAction) → bet_next p s a ≡ ok t → Action s t
    reveal_board :
        (r : RevealWitness Card) (w : List Bytes)
        → board_reveal_next cards p s r ≡ ok (t, w)
        → Action s t
    reveal_showdown :
        (r : RevealWitness Card) (w : List Bytes)
        → showdown_reveal_next cards p s r ≡ ok (t, w)
        → Action s t
    call_all_in :
        (r : RevealWitness Card) (w : List Bytes)
        → all_in_call_next cards p s r ≡ ok (t, w)
        → Action s t
    reveal_all_in :
        (r : RevealWitness Card) (w : List Bytes)
        → all_in_reveal_next cards p s r ≡ ok (t, w)
        → Action s t

  -- The states of a hand, with the number of live actions since the deposit.
  pub data Reach : ℕ → State → Type 0 where
    deposit : {n : ℕ} {s : State} → n ≡ 0 → s ≡ initial_state id p → Reach n s
    act :
        {n m : ℕ} {s t u : State}
        → Reach n s
        → Action s t
        → t.deadline + deadline_interval ≤ max_uint64
        → u ≡ advance t
        → m ≡ n + 1
        → Reach m u

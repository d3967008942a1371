-- ===== src/Covenant/Live/Invariant.antt =====
-- What holds of every state of a live hand.
use arkade_poker.Prelude.{ℕ, ◌+◌, ◌≤◌, ◌<◌, ◌≡◌, ◌⊎◌, arith, sym, ◌∙◌}
use arkade_poker.Covenant.Types.{
  Params, State, Phase, player1, pre_flop, last_start, last_check, last_raise, betting, all_in,
  board_reveal, showdown_reveal, all_in_reveal, showdown_evaluation, await_player1_funding,
  await_player2_opening,
}
use arkade_poker.Covenant.Betting.{own_wager, opposing_wager}

-- The fields that a phase of each kind uses, and the zero of the others.
pub record IsTurn (x : Phase) (lo hi : ℕ) : Type 0 where
  pub actor_lo : 1 ≤ x.actor
  pub actor_hi : x.actor ≤ 2
  pub street_lo : lo ≤ x.street
  pub street_hi : x.street ≤ hi

pub record IsBare (x : Phase) : Type 0 where
  pub no_actor : x.actor ≡ 0
  pub no_street : x.street ≡ 0
  pub no_pass : x.pass ≡ 0

-- The actor answers a raise of at least the minimum, or the wagers are equal.
pub record IsBettable (p : Params) (s : State) : Type 0 where
  pub turn : IsTurn s.phase 1 4
  pub no_pass : s.phase.pass ≡ 0
  pub below1 : s.wager1 < p.max_wager
  pub below2 : s.wager2 < p.max_wager
  pub known : s.last_action ≤ 2
  pub raised :
      s.last_action ≡ last_raise
      → own_wager s s.phase.actor + p.min_bet ≤ opposing_wager s s.phase.actor
  pub level : s.last_action < last_raise → s.wager1 ≡ s.wager2
  pub opened : s.phase.street ≡ pre_flop → 0 < s.last_action
  pub opener : s.phase.street ≡ pre_flop → s.last_action ≡ last_check → s.phase.actor ≡ player1

pub record IsAllIn (p : Params) (s : State) : Type 0 where
  pub turn : IsTurn s.phase 1 4
  pub no_pass : s.phase.pass ≡ 0
  pub own : own_wager s s.phase.actor < p.max_wager
  pub opposing : opposing_wager s s.phase.actor ≡ p.max_wager
  pub raised : s.last_action ≡ last_raise

-- A reveal waits for a player, with the wagers level and below or at the cap.
pub record IsRevealing (p : Params) (s : State) (lo hi : ℕ) : Type 0 where
  pub turn : IsTurn s.phase lo hi
  pub start : s.last_action ≡ last_start
  pub level : s.wager1 ≡ s.wager2
  pub capped : s.wager1 ≤ p.max_wager

-- Before any bet, and at the evaluation.
pub record IsQuiet (p : Params) (s : State) : Type 0 where
  pub fields : IsBare s.phase
  pub start : s.last_action ≡ last_start
  pub level : s.wager1 ≡ s.wager2
  pub capped : s.wager1 ≤ p.max_wager

-- Whatever the phase, the state is in order for it.
pub data IsLive (p : Params) (s : State) : Type 0 where
  funding : s.phase.kind ≡ await_player1_funding → IsQuiet p s → s.wager1 ≡ 0 → IsLive p s
  opening : s.phase.kind ≡ await_player2_opening → IsQuiet p s → s.wager1 ≡ 0 → IsLive p s
  wagering : s.phase.kind ≡ betting → IsBettable p s → IsLive p s
  facing_all_in : s.phase.kind ≡ all_in → IsAllIn p s → IsLive p s
  boarding :
      s.phase.kind ≡ board_reveal
      → IsRevealing p s 2 4
      → (s.phase.pass ≡ 1) ⊎ (s.phase.pass ≡ 2)
      → s.wager1 < p.max_wager
      → IsLive p s
  showing :
      s.phase.kind ≡ showdown_reveal
      → IsRevealing p s 0 0
      → (s.phase.pass ≡ 2) ⊎ ((s.phase.pass ≡ 1) × (s.wager1 < p.max_wager))
      → IsLive p s
  running_out :
      s.phase.kind ≡ all_in_reveal
      → IsRevealing p s 2 4
      → s.phase.pass ≡ 0
      → s.wager1 ≡ p.max_wager
      → IsLive p s
  evaluating : s.phase.kind ≡ showdown_evaluation → IsQuiet p s → IsLive p s

-- What the invariant says of a state of each kind.
pub at_betting : {p : Params} {s : State} → IsLive p s → s.phase.kind ≡ betting → IsBettable p s
at_betting (funding e _ _) k = absurd (omega (arith, sym e ∙ k))
at_betting (opening e _ _) k = absurd (omega (arith, sym e ∙ k))
at_betting (wagering _ b) _ = b
at_betting (facing_all_in e _) k = absurd (omega (arith, sym e ∙ k))
at_betting (boarding e _ _ _) k = absurd (omega (arith, sym e ∙ k))
at_betting (showing e _ _) k = absurd (omega (arith, sym e ∙ k))
at_betting (running_out e _ _ _) k = absurd (omega (arith, sym e ∙ k))
at_betting (evaluating e _) k = absurd (omega (arith, sym e ∙ k))

pub at_all_in : {p : Params} {s : State} → IsLive p s → s.phase.kind ≡ all_in → IsAllIn p s
at_all_in (funding e _ _) k = absurd (omega (arith, sym e ∙ k))
at_all_in (opening e _ _) k = absurd (omega (arith, sym e ∙ k))
at_all_in (wagering e _) k = absurd (omega (arith, sym e ∙ k))
at_all_in (facing_all_in _ b) _ = b
at_all_in (boarding e _ _ _) k = absurd (omega (arith, sym e ∙ k))
at_all_in (showing e _ _) k = absurd (omega (arith, sym e ∙ k))
at_all_in (running_out e _ _ _) k = absurd (omega (arith, sym e ∙ k))
at_all_in (evaluating e _) k = absurd (omega (arith, sym e ∙ k))

pub at_board :
    {p : Params} {s : State}
    → IsLive p s
    → s.phase.kind ≡ board_reveal
    → IsRevealing p s 2 4 × ((s.phase.pass ≡ 1) ⊎ (s.phase.pass ≡ 2)) × (s.wager1 < p.max_wager)
at_board (funding e _ _) k = absurd (omega (arith, sym e ∙ k))
at_board (opening e _ _) k = absurd (omega (arith, sym e ∙ k))
at_board (wagering e _) k = absurd (omega (arith, sym e ∙ k))
at_board (facing_all_in e _) k = absurd (omega (arith, sym e ∙ k))
at_board (boarding _ b c d) _ = (b, c, d)
at_board (showing e _ _) k = absurd (omega (arith, sym e ∙ k))
at_board (running_out e _ _ _) k = absurd (omega (arith, sym e ∙ k))
at_board (evaluating e _) k = absurd (omega (arith, sym e ∙ k))

pub at_showdown :
    {p : Params} {s : State}
    → IsLive p s
    → s.phase.kind ≡ showdown_reveal
    → IsRevealing p s 0 0 × ((s.phase.pass ≡ 2) ⊎ ((s.phase.pass ≡ 1) × (s.wager1 < p.max_wager)))
at_showdown (funding e _ _) k = absurd (omega (arith, sym e ∙ k))
at_showdown (opening e _ _) k = absurd (omega (arith, sym e ∙ k))
at_showdown (wagering e _) k = absurd (omega (arith, sym e ∙ k))
at_showdown (facing_all_in e _) k = absurd (omega (arith, sym e ∙ k))
at_showdown (boarding e _ _ _) k = absurd (omega (arith, sym e ∙ k))
at_showdown (showing _ b c) _ = (b, c)
at_showdown (running_out e _ _ _) k = absurd (omega (arith, sym e ∙ k))
at_showdown (evaluating e _) k = absurd (omega (arith, sym e ∙ k))

pub at_all_in_reveal :
    {p : Params} {s : State}
    → IsLive p s
    → s.phase.kind ≡ all_in_reveal
    → IsRevealing p s 2 4 × (s.phase.pass ≡ 0) × (s.wager1 ≡ p.max_wager)
at_all_in_reveal (funding e _ _) k = absurd (omega (arith, sym e ∙ k))
at_all_in_reveal (opening e _ _) k = absurd (omega (arith, sym e ∙ k))
at_all_in_reveal (wagering e _) k = absurd (omega (arith, sym e ∙ k))
at_all_in_reveal (facing_all_in e _) k = absurd (omega (arith, sym e ∙ k))
at_all_in_reveal (boarding e _ _ _) k = absurd (omega (arith, sym e ∙ k))
at_all_in_reveal (showing e _ _) k = absurd (omega (arith, sym e ∙ k))
at_all_in_reveal (running_out _ b c d) _ = (b, c, d)
at_all_in_reveal (evaluating e _) k = absurd (omega (arith, sym e ∙ k))

pub at_evaluation :
    {p : Params} {s : State} → IsLive p s → s.phase.kind ≡ showdown_evaluation → IsQuiet p s
at_evaluation (funding e _ _) k = absurd (omega (arith, sym e ∙ k))
at_evaluation (opening e _ _) k = absurd (omega (arith, sym e ∙ k))
at_evaluation (wagering e _) k = absurd (omega (arith, sym e ∙ k))
at_evaluation (facing_all_in e _) k = absurd (omega (arith, sym e ∙ k))
at_evaluation (boarding e _ _ _) k = absurd (omega (arith, sym e ∙ k))
at_evaluation (showing e _ _) k = absurd (omega (arith, sym e ∙ k))
at_evaluation (running_out e _ _ _) k = absurd (omega (arith, sym e ∙ k))
at_evaluation (evaluating _ b) _ = b

-- ===== src/Covenant/Live/Progress.antt =====
-- Before the evaluation the actor always has a live action.
use native.Mathlib.Decide.{ℕ_discrete}
use arkade_poker.Prelude.{
  ℕ, zero, suc, ◌+◌, ◌≤◌, ◌<◌, ◌≡◌, ◌≢◌, ◌⊎◌, refl, ok, arith, List, [], ◌∷◌, pos, ◌==◌,
  if◌then◌else◌, true, ap, sym, ◌∙◌, is_ok, is_ok-value, u8, max_uint64,
}
use arkade_poker.Covenant.Types.{
  Bytes, Params, State, BettingAction, betting, all_in, board_reveal, showdown_reveal,
  all_in_reveal, last_raise, check, call, showdown_evaluation, await_player1_funding,
  await_player2_opening, player1, player2,
}
use arkade_poker.Covenant.Amounts.{bytes_eq}
use arkade_poker.Covenant.Betting.{bet_next, bet_result, check_history, bet_target}
use arkade_poker.Covenant.Reveals.{
  CardLib, RevealWitness, board_reveal_next, showdown_reveal_next, all_in_reveal_next,
  all_in_call_next, opening_next, player1_funding_next, initial_state, state_eq, list_eq,
  publish_reveals, board_reveal_kind, remaining_reveal_kind,
}
use arkade_poker.Covenant.Live.{
  IsAgreed, Action, fund, open_hand, bet, reveal_board, reveal_showdown, call_all_in, reveal_all_in,
  Reach, deposit, act, advance, deadline_interval,
}
use arkade_poker.Covenant.Live.Steps.{Reach-IsLive}
use arkade_poker.Covenant.Live.Invariant.{
  IsLive, IsBettable, IsAllIn, IsRevealing, IsQuiet, funding, opening, wagering, facing_all_in,
  boarding, showing, running_out, evaluating,
}

-- A player who can make a share and a proof of it.
pub record IsRevealer {Card : Type 0} (cards : CardLib Card) : Type 0 where
  pub card : Card
  pub share : Bytes
  pub proof : Bytes
  pub shares : cards.share_bytes card ≡ ok share
  pub proves : cards.proof_bytes card ≡ ok proof
  pub zeros : cards.is_zero cards.zero_card ≡ true

bytes_eq_self : (xs : Bytes) → bytes_eq xs xs ≡ true
bytes_eq_self [] = refl
bytes_eq_self (x ∷ xs) = ground (arith, bytes_eq_self xs)

list_eq_self : (xs : List Bytes) → list_eq xs xs ≡ true
list_eq_self [] = refl
list_eq_self (x ∷ xs) = ground (arith, bytes_eq_self x, list_eq_self xs)

state_eq_of : (s t : State) → s ≡ t → state_eq s t ≡ true
unfolding state_eq
state_eq_of s t e = rw e (ground (arith, bytes_eq_self t.contract_id, list_eq_self t.reveals))

module _ {Card : Type 0} (cards : CardLib Card) (able : IsRevealer cards) where
  open able use {card}

  -- The witness with a share for each card of its kind, and zero elsewhere.
  abbrev full_witness : ℕ → RevealWitness Card
  full_witness kind =
      let z = cards.zero_card in
      let hole =
        if kind == 1
        then card
        else (if kind == 2
            then z
            else (if kind == 3 then z else (if kind == 4 then z else card))) in
      let flop_card = if kind == 2 then card else (if kind == 6 then card else z) in
      let turn_card =
        if kind == 3 then card else (if kind == 6 then card else (if kind == 7 then card else z)) in
      let river_card =
        if kind == 4
        then card
        else (if kind == 6
            then card
            else (if kind == 7 then card else (if kind == 8 then card else z))) in
      record {
        kind = kind;
        holes = (hole, hole);
        flop = (flop_card, flop_card, flop_card);
        turn = turn_card;
        river = river_card;
      }

  module _ (reveals : List Bytes) (actor : ℕ) (lo : 1 ≤ actor) (hi : actor ≤ 2) where
    publishes_ok :
        (kind : ℕ)
        → 1 ≤ kind
        → kind ≤ 8
        → is_ok (publish_reveals cards reveals (full_witness kind) kind actor) ≡ true
    unfolding publish_reveals
    publishes_ok zero klo khi = absurd (omega arith)
    publishes_ok (suc zero) klo khi = ground arith
    publishes_ok (suc (suc zero)) klo khi = ground arith
    publishes_ok (suc (suc (suc zero))) klo khi = ground arith
    publishes_ok (suc (suc (suc (suc zero)))) klo khi = ground arith
    publishes_ok (suc (suc (suc (suc (suc zero))))) klo khi = ground arith
    publishes_ok (suc (suc (suc (suc (suc (suc zero)))))) klo khi = ground arith
    publishes_ok (suc (suc (suc (suc (suc (suc (suc zero))))))) klo khi = ground arith
    publishes_ok (suc (suc (suc (suc (suc (suc (suc (suc zero)))))))) klo khi = ground arith
    publishes_ok (suc (suc (suc (suc (suc (suc (suc (suc (suc kind))))))))) klo khi =
        absurd (omega arith)

    publishes :
        (kind : ℕ)
        → 1 ≤ kind
        → kind ≤ 8
        → (u : List Bytes × List Bytes) × (publish_reveals cards reveals
              (full_witness kind)
              kind
              actor
            ≡ ok u)
    publishes kind klo khi = is_ok-value _ (publishes_ok kind klo khi)

  -- Answer a raise by a call, and otherwise check.
  abbrev answer : State → BettingAction
  answer s = record { kind = if s.last_action == last_raise then call else check; amount = pos 0 }

  module _ (id : Bytes) (p : Params) (agreed : IsAgreed p) (s : State) where
    bet_step : s.phase.kind ≡ betting → IsBettable p s → (t : State) × Action cards id p s t
    bet_step k b =
        let (t, e) = is_ok-value (bet_next p s (answer s)) answered in (t, bet (answer s) e)
      where
        answered : is_ok (bet_next p s (answer s)) ≡ true
        answered = unfold bet_next check_history bet_target in ground arith

    board_step :
        s.phase.kind ≡ board_reveal
        → IsRevealing p s 2 4
        → s.wager1 < p.max_wager
        → (t : State) × Action cards id p s t
    board_step k b lt =
        let r = full_witness (board_reveal_kind s.phase.street) in
        let (u, e) =
          publishes s.reveals s.phase.actor b.turn.actor_lo b.turn.actor_hi
            (board_reveal_kind s.phase.street) (omega (arith, b.turn)) (omega (arith, b.turn)) in
        let (v, done) =
          is_ok-value (board_reveal_next cards p s r)
            (unfold board_reveal_next in ground (arith, e)) in
        (v.0, reveal_board r v.1 done)

    showdown_step :
        s.phase.kind ≡ showdown_reveal
        → IsRevealing p s 0 0
        → (s.phase.pass ≡ 2) ⊎ ((s.phase.pass ≡ 1) × (s.wager1 < p.max_wager))
        → (t : State) × Action cards id p s t
    showdown_step k b c =
        let r = full_witness 5 in
        let (u, e) =
          publishes s.reveals s.phase.actor b.turn.actor_lo b.turn.actor_hi 5 (omega arith)
            (omega arith) in
        let (v, done) =
          is_ok-value (showdown_reveal_next cards p s r)
            (unfold showdown_reveal_next in ground (arith, e)) in
        (v.0, reveal_showdown r v.1 done)

    call_step : s.phase.kind ≡ all_in → IsAllIn p s → (t : State) × Action cards id p s t
    call_step k b =
        let kind = remaining_reveal_kind s.phase.street in
        let r = full_witness kind in
        let (u, e) =
          publishes s.reveals s.phase.actor b.turn.actor_lo b.turn.actor_hi kind
            (ground (arith, b.turn)) (ground (arith, b.turn)) in
        let (v, done) =
          is_ok-value (all_in_call_next cards p s r)
            (unfold all_in_call_next in ground (arith, e)) in
        (v.0, call_all_in r v.1 done)

    run_out_step :
        s.phase.kind ≡ all_in_reveal
        → IsRevealing p s 2 4
        → s.wager1 ≡ p.max_wager
        → (t : State) × Action cards id p s t
    run_out_step k b cap =
        let kind = remaining_reveal_kind (u8 (s.phase.street + 255)) in
        let r = full_witness kind in
        let (u, e) =
          publishes s.reveals s.phase.actor b.turn.actor_lo b.turn.actor_hi kind
            (ground (arith, b.turn)) (ground (arith, b.turn)) in
        let (v, done) =
          is_ok-value (all_in_reveal_next cards p s r)
            (unfold all_in_reveal_next in ground (arith, e)) in
        (v.0, reveal_all_in r v.1 done)

    opening_step :
        s.phase.kind ≡ await_player2_opening
        → IsQuiet p s
        → s.wager1 ≡ 0
        → (t : State) × Action cards id p s t
    opening_step k b z =
        let r = full_witness 1 in
        let (u, e) =
          publishes s.reveals player2 (omega arith) (omega arith) 1 (omega arith) (omega arith) in
        let (v, done) =
          is_ok-value (opening_next cards p s (pos 0) r)
            (unfold opening_next in ground (arith, e)) in
        (v.0, open_hand (pos 0) r v.1 done)

    funding_step : s ≡ initial_state id p → (t : State) × Action cards id p s t
    funding_step i =
        let r = full_witness 1 in
        let (u, e) =
          publishes s.reveals player1 (omega arith) (omega arith) 1 (omega arith) (omega arith) in
        let (v, done) = is_ok-value (player1_funding_next cards id p s r) (
          unfold player1_funding_next in ground (arith, e, state_eq_of s (initial_state id p) i)) in
        (v.0, fund r v.1 done)

    -- In order, but not at the evaluation and not waiting for the first player's funding.
    step_after_funding :
        IsLive p s
        → s.phase.kind ≢ await_player1_funding
        → s.phase.kind ≢ showdown_evaluation
        → (t : State) × Action cards id p s t
    step_after_funding (funding e _ _) f x = absurd (f e)
    step_after_funding (opening e a b) f x = opening_step e a b
    step_after_funding (wagering e b) f x = bet_step e b
    step_after_funding (facing_all_in e b) f x = call_step e b
    step_after_funding (boarding e a b c) f x = board_step e a c
    step_after_funding (showing e a b) f x = showdown_step e a b
    step_after_funding (running_out e a b c) f x = run_out_step e a c
    step_after_funding (evaluating e a) f x = absurd (x e)

module _ {Card : Type 0} (cards : CardLib Card) (id : Bytes) (p : Params) where
  -- No action leads back to the initial phase.
  Action-leaves : {s t : State} → Action cards id p s t → t.phase.kind ≢ await_player1_funding
  Action-leaves (fund r w h) = unfold player1_funding_next in ground arith
  Action-leaves (open_hand amount r w h) = unfold opening_next in ground arith
  Action-leaves (bet a h) = unfold bet_next bet_result in ground arith
  Action-leaves (reveal_board r w h) = unfold board_reveal_next in ground arith
  Action-leaves (reveal_showdown r w h) = unfold showdown_reveal_next in ground arith
  Action-leaves (call_all_in r w h) = unfold all_in_call_next in ground arith
  Action-leaves (reveal_all_in r w h) = unfold all_in_reveal_next in ground arith

  -- Only the deposit waits for the first player's funding.
  Reach-initial :
      {n : ℕ} {s : State}
      → Reach cards id p n s
      → s.phase.kind ≡ await_player1_funding
      → s ≡ initial_state id p
  Reach-initial (deposit _ e) k = e
  Reach-initial (act {t = t} r a _ e _) k =
      absurd (Action-leaves a (ap (λ (x : State). x.phase.kind) (sym e) ∙ k))

-- Every action leaves the deadline to the builder.
module _ {Card : Type 0} (cards : CardLib Card) (id : Bytes) (p : Params) where
  Action-deadline : {s t : State} → Action cards id p s t → t.deadline ≡ s.deadline
  Action-deadline (fund r w h) = unfold player1_funding_next in ground arith
  Action-deadline (open_hand amount r w h) = unfold opening_next in ground arith
  Action-deadline (bet a h) = unfold bet_next bet_result in ground arith
  Action-deadline (reveal_board r w h) = unfold board_reveal_next in ground arith
  Action-deadline (reveal_showdown r w h) = unfold showdown_reveal_next in ground arith
  Action-deadline (call_all_in r w h) = unfold all_in_call_next in ground arith
  Action-deadline (reveal_all_in r w h) = unfold all_in_reveal_next in ground arith

  -- Where the deadline can still move, the hand goes on with the action.
  goes_on :
      {n : ℕ} {s : State}
      → Reach cards id p n s
      → s.deadline + deadline_interval ≤ max_uint64
      → (t : State) × Action cards id p s t
      → (t : State) × Action cards id p s t × Reach cards id p (n + 1) (advance t)
  goes_on r time (t, a) = (t, a, act r a (omega (arith, Action-deadline a, time)) refl refl)

-- Under agreed terms a hand does not get stuck before its evaluation: in every state that it
-- reaches, whose deadline can still move, there is a live action, given that the player to act
-- can make a share and a proof, and the hand reaches its successor.
pub Reach-progress :
    {Card : Type 0} (cards : CardLib Card)
    → IsRevealer cards
    → (id : Bytes) (p : Params) → IsAgreed p
    → {n : ℕ} {s : State} → Reach cards id p n s
    → s.phase.kind ≢ showdown_evaluation
    → s.deadline + deadline_interval ≤ max_uint64
    → (t : State) × Action cards id p s t × Reach cards id p (n + 1) (advance t)
Reach-progress cards able id p agreed {s = s} r x time =
    goes_on cards id p r time (elim (ℕ_discrete s.phase.kind await_player1_funding) [
      | yes k ↦ funding_step cards able id p agreed s (Reach-initial cards id p r k)
      | no k ↦ step_after_funding cards able id p agreed s (Reach-IsLive cards id p agreed r) k x
    ])

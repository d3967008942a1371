-- ===== src/Covenant/Live/Steps.antt =====
-- Every live action keeps the invariant, so every state of a hand satisfies it.
use native.Mathlib.Decide.{ℕ_discrete}
use arkade_poker.Prelude.{ℕ, ◌<◌, ◌≡◌, ◌≢◌, refl, inl, inr, ok, arith, List, ℤ, pos, ℤ_discrete}
use arkade_poker.Covenant.Types.{
  Bytes, Params, State, all_in, board_reveal, showdown_reveal, all_in_reveal, river, first_pass,
  second_pass,
}
use arkade_poker.Covenant.Reveals.{
  CardLib, RevealWitness, board_reveal_next, showdown_reveal_next, all_in_reveal_next,
  all_in_call_next, opening_next, player1_funding_next, initial_state, state_eq,
}
use arkade_poker.Covenant.Live.{
  IsAgreed, Action, fund, open_hand, bet, reveal_board, reveal_showdown, call_all_in, reveal_all_in,
  Reach, deposit, act, advance,
}
use arkade_poker.Covenant.Live.Invariant.{
  IsLive, IsAllIn, IsRevealing, funding, opening, wagering, facing_all_in, boarding, showing,
  running_out, evaluating, at_betting, at_board, at_showdown, at_all_in, at_all_in_reveal,
}
use arkade_poker.Covenant.Betting.Targets.{bet_next_cases}
use arkade_poker.Covenant.Live.Bets.{bet_next-IsLive}

module _ {Card : Type 0} (cards : CardLib Card) (p : Params) (agreed : IsAgreed p) where
  module _ (s t : State) (r : RevealWitness Card) (w : List Bytes) where
    board_first :
        s.phase.pass ≡ first_pass
        → IsRevealing p s 2 4
        → s.wager1 < p.max_wager
        → board_reveal_next cards p s r ≡ ok (t, w)
        → IsLive p t
    unfolding board_reveal_next
    board_first k v lt h = boarding (ground arith) (ground arith) (ground arith) (ground arith)

    board_second :
        s.phase.pass ≡ second_pass
        → IsRevealing p s 2 4
        → s.wager1 < p.max_wager
        → board_reveal_next cards p s r ≡ ok (t, w)
        → IsLive p t
    unfolding board_reveal_next
    board_second k v lt h = wagering (ground arith) (ground arith)

    showdown_first :
        s.phase.pass ≡ first_pass
        → IsRevealing p s 0 0
        → showdown_reveal_next cards p s r ≡ ok (t, w)
        → IsLive p t
    unfolding showdown_reveal_next
    showdown_first k v h = showing (ground arith) (ground arith) (ground arith)

    showdown_second :
        s.phase.pass ≡ second_pass
        → IsRevealing p s 0 0
        → showdown_reveal_next cards p s r ≡ ok (t, w)
        → IsLive p t
    unfolding showdown_reveal_next
    showdown_second k v h = evaluating (ground arith) (ground arith)

    call_on_river :
        s.phase.street ≡ river → IsAllIn p s → all_in_call_next cards p s r ≡ ok (t, w) → IsLive p t
    unfolding all_in_call_next
    call_on_river k v h = showing (ground arith) (ground arith) (ground arith)

    call_before_river :
        s.phase.street ≢ river → IsAllIn p s → all_in_call_next cards p s r ≡ ok (t, w) → IsLive p t
    unfolding all_in_call_next
    call_before_river k v h =
        running_out (ground arith) (ground arith) (ground arith) (ground arith)

    run_out : IsRevealing p s 2 4 → all_in_reveal_next cards p s r ≡ ok (t, w) → IsLive p t
    unfolding all_in_reveal_next
    run_out v h = evaluating (ground arith) (ground arith)

    open_below :
        (amount : ℤ)
        → amount ≢ pos p.max_wager
        → opening_next cards p s amount r ≡ ok (t, w)
        → IsLive p t
    unfolding opening_next
    open_below amount k h = wagering (ground arith) (ground arith)

    open_all_in :
        (amount : ℤ)
        → amount ≡ pos p.max_wager
        → opening_next cards p s amount r ≡ ok (t, w)
        → IsLive p t
    unfolding opening_next
    open_all_in amount k h = facing_all_in (ground arith) (ground arith)

    fund_opens : (id : Bytes) → player1_funding_next cards id p s r ≡ ok (t, w) → IsLive p t
    unfolding player1_funding_next state_eq initial_state
    fund_opens id h = opening (ground arith) (ground arith) (ground arith)

module _ {Card : Type 0} (cards : CardLib Card) (id : Bytes) (p : Params)
    (agreed : IsAgreed p) where
  board_kind :
      (s t : State) (r : RevealWitness Card) (w : List Bytes)
      → board_reveal_next cards p s r ≡ ok (t, w)
      → s.phase.kind ≡ board_reveal
  unfolding board_reveal_next
  board_kind s t r w h = ground arith

  showdown_kind :
      (s t : State) (r : RevealWitness Card) (w : List Bytes)
      → showdown_reveal_next cards p s r ≡ ok (t, w)
      → s.phase.kind ≡ showdown_reveal
  unfolding showdown_reveal_next
  showdown_kind s t r w h = ground arith

  call_kind :
      (s t : State) (r : RevealWitness Card) (w : List Bytes)
      → all_in_call_next cards p s r ≡ ok (t, w)
      → s.phase.kind ≡ all_in
  unfolding all_in_call_next
  call_kind s t r w h = ground arith

  run_out_kind :
      (s t : State) (r : RevealWitness Card) (w : List Bytes)
      → all_in_reveal_next cards p s r ≡ ok (t, w)
      → s.phase.kind ≡ all_in_reveal
  unfolding all_in_reveal_next
  run_out_kind s t r w h = ground arith

  -- Every action of the contract takes a state in order to a state in order.
  pub Action-IsLive : {s t : State} → IsLive p s → Action cards id p s t → IsLive p t
  Action-IsLive {s} {t} v (fund r w h) = fund_opens cards p agreed s t r w id h
  Action-IsLive {s} {t} v (open_hand amount r w h) = elim (ℤ_discrete amount (pos p.max_wager)) [
    | yes e ↦ open_all_in cards p agreed s t r w amount e h
    | no e ↦ open_below cards p agreed s t r w amount e h
  ]
  Action-IsLive {s} {t} v (bet a h) =
      bet_next-IsLive p agreed s t a (at_betting v (bet_next_cases p s t a h).0) h
  Action-IsLive {s} {t} v (reveal_board r w h) =
      let (rev, pass, lt) = at_board v (board_kind s t r w h) in
      elim pass [
        | inl e ↦ board_first cards p agreed s t r w e rev lt h
        | inr e ↦ board_second cards p agreed s t r w e rev lt h
      ]
  Action-IsLive {s} {t} v (reveal_showdown r w h) =
      let (rev, pass) = at_showdown v (showdown_kind s t r w h) in
      elim pass [
        | inl e ↦ showdown_second cards p agreed s t r w e rev h
        | inr (e, _) ↦ showdown_first cards p agreed s t r w e rev h
      ]
  Action-IsLive {s} {t} v (call_all_in r w h) =
      let facing = at_all_in v (call_kind s t r w h) in
      elim (ℕ_discrete s.phase.street river) [
        | yes e ↦ call_on_river cards p agreed s t r w e facing h
        | no e ↦ call_before_river cards p agreed s t r w e facing h
      ]
  Action-IsLive {s} {t} v (reveal_all_in r w h) =
      run_out cards p agreed s t r w (at_all_in_reveal v (run_out_kind s t r w h)).0 h

  IsLive-advance : (s : State) → IsLive p s → IsLive p (advance s)
  IsLive-advance s (funding a b c) = funding a (ground arith) c
  IsLive-advance s (opening a b c) = opening a (ground arith) c
  IsLive-advance s (wagering a b) = wagering a (ground arith)
  IsLive-advance s (facing_all_in a b) = facing_all_in a (ground arith)
  IsLive-advance s (boarding a b c d) = boarding a (ground arith) c d
  IsLive-advance s (showing a b c) = showing a (ground arith) c
  IsLive-advance s (running_out a b c d) = running_out a (ground arith) c d
  IsLive-advance s (evaluating a b) = evaluating a (ground arith)

  initial-IsLive : IsLive p (initial_state id p)
  unfolding initial_state
  initial-IsLive = funding refl (omega arith) refl

  -- Under agreed terms, every state that a hand reaches by live actions from its initial deposit
  -- is in order: the fields of its phase are in range, its wagers are within the cap, and its
  -- history, its wagers and the player to act fit together.
  pub Reach-IsLive : {n : ℕ} {s : State} → Reach cards id p n s → IsLive p s
  Reach-IsLive (deposit _ e) = rw e initial-IsLive
  Reach-IsLive (act {t = t} r a _ e _) = rw e (IsLive-advance t (Action-IsLive (Reach-IsLive r) a))

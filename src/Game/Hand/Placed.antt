-- ===== src/Game/Hand/Placed.antt =====
-- What a game holds of its hand at each stage: the hand, its evaluation and its outcome.
use arkade_poker.Prelude.{
  ℕ, ◌≡◌, ◌≤◌, ◌⊎◌, inl, inr, true, none, some, ok, refl, arith, subst, ◌≢◌, Option,
}
use arkade_poker.Covenant.Types.{Bytes, State}
use arkade_poker.Game.Stage.{action_permitted, stage_settle_showdown, stage_finished, stage_aborted}
use arkade_poker.Game.Hand.{
  PreparedState, HandState, Admission, HandOutcome, settled, aborted, HandEvent, HandGame, Parts,
  reduce_hand,
}
use arkade_poker.Game.Hand.Steps.{
  deposited, prepares, signs, attempts, fails, spends, opens, evaluates, Continued, goes_on, over,
  reduce_hand-Handled, observe_deposit-eq, observe_deposit-stage, prepare_spend-eq, sign_spend-eq,
  attempt_submission-eq, fail_submission-eq, observe_spend-eq, observe_opening-eq,
  evaluate_showdown-eq,
}

-- A stage of a game that is neither settled nor aborted.
abbrev IsOngoing : ℕ → Type 0
IsOngoing stage = (stage ≢ stage_finished) × (stage ≢ stage_aborted)

-- No action is permitted in a game that is over.
permitted-IsOngoing : (stage kind : ℕ) → action_permitted stage kind ≡ true → IsOngoing stage
unfolding action_permitted
permitted-IsOngoing stage kind h =
    ((λ done. ground (arith, h, done)), (λ done. ground (arith, h, done)))

-- Nor is a game over in any other stage from 14 on.
later-IsOngoing : (stage : ℕ) → 14 ≤ stage → stage ≤ 32 → IsOngoing stage
later-IsOngoing stage lo hi = ((λ done. omega (arith, hi, done)), (λ done. omega (arith, lo, done)))

module _ (parts : Parts) where
  -- The evaluation that the settlement of a showdown rests on
  abbrev pub IsEvaluated : HandGame → HandState → Type 0
  IsEvaluated g h =
      (witness : Bytes) × (winner : ℕ) × (g.evaluated ≡ some (witness, winner))
      × (parts.check_evaluation h witness ≡ ok winner)

  pub data IsPlaced (g : HandGame) : Type 0 where
    waiting :
        ((11 ≤ g.stage) × (g.stage ≤ 12)) ⊎ ((30 ≤ g.stage) × (g.stage ≤ 32))
        → g.hand ≡ none
        → g.outcome ≡ none
        → IsPlaced g
    playing :
        (h : HandState)
        → 14 ≤ g.stage
        → g.stage ≤ 32
        → g.hand ≡ some h
        → g.outcome ≡ none
        → (g.stage ≡ stage_settle_showdown → IsEvaluated g h)
        → IsPlaced g
    finished :
        (outcome : HandOutcome) (last : State) (cards : Bytes)
        → g.stage ≡ stage_finished
        → g.hand ≡ none
        → g.prepared ≡ none
        → g.outcome ≡ some (settled outcome)
        → g.completed ≡ some (last, cards)
        → IsPlaced g
    stopped :
        (reason : Bytes)
        → g.stage ≡ stage_aborted
        → g.hand ≡ none
        → g.prepared ≡ none
        → g.evaluated ≡ none
        → g.outcome ≡ some (aborted reason)
        → IsPlaced g

  -- A stage that routing sets has a hand, and no showdown that is evaluated.
  routes-IsPlaced :
      (g : HandGame) (n : ℕ) (h : HandState)
      → 14 ≤ n
      → n ≤ 28
      → g.stage ≡ n
      → g.hand ≡ some h
      → g.outcome ≡ none
      → IsPlaced g
  routes-IsPlaced g n h lo hi at there not_yet =
      playing h (omega (arith, lo, at)) (omega (arith, hi, at)) there not_yet
        (λ settles. absurd (omega (arith, settles, hi, at)))

  module _ (g g' : HandGame) (e : HandEvent) where
    -- A stage of the work on a transaction keeps the hand and its outcome.
    works-IsPlaced :
        (n : ℕ) (o : Option PreparedState)
        → 30 ≤ n
        → n ≤ 32
        → record g { prepared = o; stage = n } ≡ g'
        → IsOngoing g.stage
        → IsPlaced g
        → IsPlaced g'
    works-IsPlaced n o lo hi out live (waiting _ nothing not_yet) =
        subst IsPlaced out (waiting (inr (lo, hi)) nothing not_yet)
    works-IsPlaced n o lo hi out live (playing h _ _ there not_yet _) =
        subst IsPlaced out
          (playing h (omega (arith, lo)) hi there not_yet (λ at. absurd (omega (arith, at, lo))))
    works-IsPlaced n o lo hi out live (finished _ _ _ at _ _ _ _) = absurd (live.0 at)
    works-IsPlaced n o lo hi out live (stopped _ at _ _ _ _) = absurd (live.1 at)

    -- A game that is not over has no outcome.
    IsPlaced-none : IsOngoing g.stage → IsPlaced g → g.outcome ≡ none
    IsPlaced-none live (waiting _ _ not_yet) = not_yet
    IsPlaced-none live (playing _ _ _ _ not_yet _) = not_yet
    IsPlaced-none live (finished _ _ _ at _ _ _ _) = absurd (live.0 at)
    IsPlaced-none live (stopped _ at _ _ _ _) = absurd (live.1 at)

    deposits-IsOngoing :
        (g.stage ≡ 12) ⊎ ((p : PreparedState) × (g.prepared ≡ some p) × (p.saved.action.kind ≡ 1))
        → IsPlaced g
        → IsOngoing g.stage
    deposits-IsOngoing (inl at) _ =
        ((λ done. omega (arith, at, done)), (λ done. omega (arith, at, done)))
    deposits-IsOngoing (inr _) (waiting (inl (lo, hi)) _ _) =
        ((λ done. omega (arith, hi, done)), (λ done. omega (arith, hi, done)))
    deposits-IsOngoing (inr _) (waiting (inr (lo, hi)) _ _) =
        later-IsOngoing g.stage (omega (arith, lo)) hi
    deposits-IsOngoing (inr _) (playing _ lo hi _ _ _) = later-IsOngoing g.stage lo hi
    deposits-IsOngoing (inr (p, there, _)) (finished _ _ _ _ _ nothing _ _) = absurd cc
    deposits-IsOngoing (inr (p, there, _)) (stopped _ _ _ nothing _ _) = absurd cc

    spends-IsPlaced :
        (h : HandState) (a : Admission)
        → Continued parts g g' h a
        → g.hand ≡ some h
        → IsPlaced g
        → IsPlaced g'
    spends-IsPlaced h _ (over outcome last cards _ out) there _ =
        subst IsPlaced out (finished outcome last cards refl refl refl refl refl)
    spends-IsPlaced h _ (goes_on next n lo hi out) there placed =
        subst IsPlaced out (routes-IsPlaced _ n next lo hi refl refl (not_over placed))
      where
        not_over : IsPlaced g → g.outcome ≡ none
        not_over (waiting _ _ not_yet) = not_yet
        not_over (playing _ _ _ _ not_yet _) = not_yet
        not_over (finished _ _ _ _ nothing _ _ _) = cc
        not_over (stopped _ _ nothing _ _ _) = cc

    evaluates-IsPlaced :
        (h : HandState)
        → g.stage ≡ 28
        → g.hand ≡ some h
        → parts.check_evaluation h e.evaluation ≡ ok e.winner
        → record g { evaluated = some (e.evaluation, e.winner); stage = stage_settle_showdown } ≡ g'
        → IsPlaced g
        → IsPlaced g'
    evaluates-IsPlaced h at there checked out placed = subst IsPlaced out (
        playing h (omega arith) (omega arith) there
          (IsPlaced-none (later-IsOngoing g.stage (omega (arith, at)) (omega (arith, at))) placed)
          (λ _. (e.evaluation, e.winner, refl, checked)))

    pub reduce_hand-IsPlaced : reduce_hand parts g e ≡ ok g' → IsPlaced g → IsPlaced g'
    reduce_hand-IsPlaced h placed = elim (reduce_hand-Handled parts g g' e h) [
      | deposited _ k ↦
          let (n, lo, hi, out) = observe_deposit-eq parts g g' e k in
          let live = deposits-IsOngoing (observe_deposit-stage parts g g' e k) placed in
          subst IsPlaced out (routes-IsPlaced _ n _ lo hi refl refl (IsPlaced-none live placed))
      | prepares _ k ↦
          let (_, _, _, permitted, _, _, _, _, _, _, out) = prepare_spend-eq parts g g' e k in
          works-IsPlaced 30 _ (omega arith) (omega arith) out
            (permitted-IsOngoing g.stage e.spend.action.kind permitted) placed
      | signs _ k ↦
          let (_, _, at, _, _, _, _, out) = sign_spend-eq parts g g' e k in
          works-IsPlaced 31 _ (omega arith) (omega arith) out
            (later-IsOngoing g.stage (omega (arith, at)) (omega (arith, at))) placed
      | attempts _ k ↦
          let (_, at, _, _, _, out) = attempt_submission-eq parts g g' e k in
          works-IsPlaced 32 _ (omega arith) (omega arith) out
            (later-IsOngoing g.stage (ground (arith, at)) (ground (arith, at))) placed
      | fails _ k ↦
          let (at, _, _, out) = fail_submission-eq parts g g' e k in
          works-IsPlaced 32 _ (omega arith) (omega arith) out
            (later-IsOngoing g.stage (ground (arith, at)) (ground (arith, at))) placed
      | spends _ k ↦
          let (hand, admission, there, _, c) = observe_spend-eq parts g g' e k in
          spends-IsPlaced hand admission c there placed
      | opens _ k ↦
          let (_, _, n, at, _, _, lo, hi, out) = observe_opening-eq parts g g' e k in
          subst IsPlaced out (
            routes-IsPlaced _ n _ lo hi refl refl (
              IsPlaced-none (later-IsOngoing g.stage (ground (arith, at)) (ground (arith, at)))
                placed))
      | evaluates _ k ↦
          let (hand, at, there, checked, out) = evaluate_showdown-eq parts g g' e k in
          evaluates-IsPlaced hand at there checked out placed
    ]

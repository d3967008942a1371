-- ===== src/Game/Hand/Work.antt =====
-- The prepared work of a client: which spend it is, and that no event of a hand changes it.
use arkade_poker.Prelude.{
  ℕ, ◌≡◌, ◌<◌, ◌⊎◌, inl, inr, true, none, some, ok, refl, arith, subst, sym, ◌∙◌, some-inj,
}
use arkade_poker.Game.Stage.{
  stage_transaction_prepared, stage_transaction_signed, stage_await_transaction_acceptance,
  stage_finished,
}
use arkade_poker.Game.Hand.{
  Bundle, Unsigned, SavedSpend, PreparedState, HandState, Admission, HandEvent, HandGame, Parts,
  build_action, saved_action, same_saved, check_sources, check_admitted, prepare_spend, sign_spend,
  attempt_submission, fail_submission, reduce_hand,
}
use arkade_poker.Game.Hand.Steps.{
  deposited, prepares, signs, attempts, fails, spends, opens, evaluates, Continued, goes_on, over,
  reduce_hand-Handled, observe_deposit-eq, prepare_spend-eq, sign_spend-eq, attempt_submission-eq,
  fail_submission-eq, observe_spend-eq, observe_opening-eq, evaluate_showdown-eq,
}

module _ (parts : Parts) where
  -- `built` is what the covenant builds of the action of `spend` on the hand that the game holds,
  -- the spend is its encoding, and its funding and its transaction are admitted.
  pub record IsExact (g : HandGame) (spend : SavedSpend) (built : Unsigned) : Type 0 where
    pub unsigned : spend.signed ≡ none
    pub rebuilt : build_action g spend.action ≡ ok built
    pub expected : SavedSpend
    pub encoded : saved_action g.hand spend.action built ≡ ok expected
    pub same : same_saved parts expected spend ≡ true
    pub funded : check_sources parts spend.action.funding ≡ ok tt
    pub admitted : check_admitted parts g.hand spend.action built ≡ ok tt

  -- The work that a stage has. A signed spend is that of the prepared one, whose bundle is compared
  -- with the signed one.
  pub data IsWork (g : HandGame) : Type 0 where
    idle :
        (g.stage < stage_transaction_prepared) ⊎ (g.stage ≡ stage_finished)
        → g.prepared ≡ none
        → IsWork g
    prepared :
        (p : PreparedState)
        → g.stage ≡ stage_transaction_prepared
        → g.prepared ≡ some p
        → IsExact g p.saved p.built
        → IsWork g
    signed :
        (p : PreparedState) (first : SavedSpend) (bundle : Bundle)
        → (g.stage ≡ stage_transaction_signed) ⊎ (g.stage ≡ stage_await_transaction_acceptance)
        → g.prepared ≡ some p
        → IsExact g first p.built
        → same_saved parts first p.saved ≡ true
        → p.saved.signed ≡ some bundle
        → parts.compare_bundles first.prepared bundle ≡ ok tt
        → IsWork g

  -- What a game holds of its work depends on its setup and its hand only.
  IsExact-same :
      (g g' : HandGame) (spend : SavedSpend) (built : Unsigned)
      → g.contract ≡ g'.contract
      → g.hand ≡ g'.hand
      → g.role ≡ g'.role
      → IsExact g spend built
      → IsExact g' spend built
  unfolding build_action
  IsExact-same g g' spend built c h r x = record {
    unsigned = x.unsigned;
    rebuilt = rw (c, h, r) at x.rebuilt;
    expected = x.expected;
    encoded = rw h at x.encoded;
    same = x.same;
    funded = x.funded;
    admitted = rw h at x.admitted;
  }

  module _ (g g' : HandGame) (e : HandEvent) where
    prepares-IsWork : prepare_spend parts g e ≡ ok g' → IsWork g'
    prepares-IsWork h =
        let (built, expected, u, _, _, b, x, s, f, a, out) = prepare_spend-eq parts g g' e h in
        subst IsWork out (
          prepared (record { saved = e.spend; built = built; last_attempt = 0 }) refl refl
            (IsExact-same g _ e.spend built refl refl refl (record {
              unsigned = ground (arith, u);
              rebuilt = b;
              expected = expected;
              encoded = x;
              same = s;
              funded = f;
              admitted = a;
            })))

    signs-IsWork : sign_spend parts g e ≡ ok g' → IsWork g → IsWork g'
    signs-IsWork h (idle (inl low) nothing) =
        let (_, _, at, _, _, _, _, _) = sign_spend-eq parts g g' e h in
        absurd (omega (arith, low, at))
    signs-IsWork h (idle (inr high) nothing) =
        let (_, _, at, _, _, _, _, _) = sign_spend-eq parts g g' e h in
        absurd (omega (arith, high, at))
    signs-IsWork h (prepared p at there x) =
        let (q, bundle, _, has, by, s, c, out) = sign_spend-eq parts g g' e h in
        let same : q ≡ p = some-inj (sym has ∙ there) in
        subst IsWork out (
          signed (record q { saved = e.spend }) q.saved bundle (inl refl) refl
            (IsExact-same g _ q.saved q.built refl refl refl
              (subst (λ (r : PreparedState). IsExact g r.saved r.built) (sym same) x))
            s by c)
    signs-IsWork h (signed p first bundle at _ _ _ _ _) =
        let (_, _, at', _, _, _, _, _) = sign_spend-eq parts g g' e h in
        absurd (ground (arith, at, at'))

    -- A submission that is attempted or has failed keeps the signed work.
    keeps-IsWork :
        (q : PreparedState) (at : ℕ)
        → (g.stage ≡ stage_transaction_signed) ⊎ (g.stage ≡ stage_await_transaction_acceptance)
        → g.prepared ≡ some q
        → record g {
          prepared = some (record q { last_attempt = at });
          stage = stage_await_transaction_acceptance;
        }
          ≡ g'
        → IsWork g
        → IsWork g'
    keeps-IsWork q at late has out (idle low nothing) = absurd (ground (arith, late, low))
    keeps-IsWork q at late has out (prepared p early there x) = absurd (ground (arith, late, early))
    keeps-IsWork q at late has out (signed p first bundle _ there x s by c) =
        let same : q ≡ p = some-inj (sym has ∙ there) in
        subst IsWork out (
          signed (record q { last_attempt = at }) first bundle (inr refl) refl
            (IsExact-same g _ first q.built refl refl refl
              (subst (λ (r : PreparedState). IsExact g first r.built) (sym same) x))
            (subst (λ (r : PreparedState). same_saved parts first r.saved ≡ true) (sym same) s)
            (subst (λ (r : PreparedState). r.saved.signed ≡ some bundle) (sym same) by) c)

    attempts-IsWork : attempt_submission parts g e ≡ ok g' → IsWork g → IsWork g'
    attempts-IsWork h w =
        let (q, late, has, _, _, out) = attempt_submission-eq parts g g' e h in
        keeps-IsWork q e.observed_at late has out w

    fails-IsWork : fail_submission parts g e ≡ ok g' → IsWork g → IsWork g'
    fails-IsWork h w =
        let (late, q, has, out) = fail_submission-eq parts g g' e h in
        keeps-IsWork q q.last_attempt late has out w

    -- No work at a stage before the transaction is prepared.
    IsWork-none : g.stage < stage_transaction_prepared → IsWork g → g.prepared ≡ none
    IsWork-none low (idle _ nothing) = nothing
    IsWork-none low (prepared p at _ _) = absurd (omega (arith, low, at))
    IsWork-none low (signed p first bundle late _ _ _ _ _) = absurd (ground (arith, low, late))

    spends-IsWork : (h : HandState) (a : Admission) → Continued parts g g' h a → IsWork g'
    spends-IsWork h _ (goes_on next n lo hi out) =
        subst IsWork out (idle (inl (omega (arith, hi))) refl)
    spends-IsWork h _ (over outcome s cards read out) = subst IsWork out (idle (inr refl) refl)

    pub reduce_hand-IsWork : reduce_hand parts g e ≡ ok g' → IsWork g → IsWork g'
    reduce_hand-IsWork h w = elim (reduce_hand-Handled parts g g' e h) [
      | deposited _ k ↦
          let (n, lo, hi, out) = observe_deposit-eq parts g g' e k in
          subst IsWork out (idle (inl (omega (arith, hi))) refl)
      | prepares _ k ↦ prepares-IsWork k
      | signs _ k ↦ signs-IsWork k w
      | attempts _ k ↦ attempts-IsWork k w
      | fails _ k ↦ fails-IsWork k w
      | spends _ k ↦
          let (hand, admission, _, _, c) = observe_spend-eq parts g g' e k in
          spends-IsWork hand admission c
      | opens _ k ↦
          let (_, _, n, at, _, _, lo, hi, out) = observe_opening-eq parts g g' e k in
          subst IsWork out (idle (inl (omega (arith, hi))) (IsWork-none (ground (arith, at)) w))
      | evaluates _ k ↦
          let (_, at, _, _, out) = evaluate_showdown-eq parts g g' e k in
          subst IsWork out (idle (inl (omega arith)) (IsWork-none (omega (arith, at)) w))
    ]

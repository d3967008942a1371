-- ===== src/Game/Hand/Steps.antt =====
-- What each handler of reduceHand has checked when it succeeds, and the game that it leaves.
use arkade_poker.Prelude.{
  ℕ, ◌≡◌, ◌≤◌, ◌⊎◌, inl, inr, Bool, true, false, not, ◌&&◌, ◌||◌, ◌==◌, Option, none, some, Result,
  ok, refl, arith, past, past_guard, past_reject, past_or_fail, ok-inj, if-cases, ==_iff, subst, [],
  >>=-eq-ok, protocol, bad_input, ◌+◌,
}
use arkade_poker.Covenant.Types.{Bytes, State}
use arkade_poker.Covenant.Phase.{required_actor}
use arkade_poker.Game.Stage.{
  Game, route_hand, route_accepted, stage_of, action_permitted, stage_await_initial_deposit,
  stage_await_player1_funding, stage_await_player2_opening, stage_evaluate_showdown,
  stage_settle_showdown, stage_transaction_prepared, stage_transaction_signed,
  stage_await_transaction_acceptance, stage_finished, action_initial_deposit,
}
use arkade_poker.Game.Hand.{
  Bundle, Unsigned, SavedSpend, HandState, PreparedState, HandOutcome, settled, HandEvent,
  Admission, continues, ends, HandGame, Parts, is_some, build_action, saved_action, view,
  same_saved, routed, observe_deposit, check_hand, check_sources, check_admitted, prepare_spend,
  sign_spend, is_submitting, unlike_receipt, is_early, attempt_submission, fail_submission,
  continue_hand, observe_spend, opening_hand, observe_opening, evaluate_showdown, reduce_hand,
  deposit_observed, spend_prepared, spend_signed, spend_observed, submission_failed,
  opening_observed, showdown_evaluated, submission_attempted,
}

stage_of-bounds : (kind n : ℕ) (local : Bool) → stage_of kind local ≡ ok n → (14 ≤ n) × (n ≤ 28)
unfolding stage_of
stage_of-bounds kind n true h = ground (arith, h)
stage_of-bounds kind n false h = ground (arith, h)

route_accepted-bounds :
    (role n : ℕ) (r : Result State) → route_accepted role r ≡ ok n → (14 ≤ n) × (n ≤ 28)
unfolding route_accepted
route_accepted-bounds role n r h =
    let (s, _, h1) = >>=-eq-ok r _ h in
    let (actor, _, h2) = >>=-eq-ok (required_actor s.phase) _ h1 in
    stage_of-bounds s.phase.kind n (actor == role) h2

pub route_hand-bounds : (v : Game) (n : ℕ) → route_hand v ≡ ok n → (14 ≤ n) × (n ≤ 28)
unfolding route_hand
route_hand-bounds v n h = by_hand v.predecessor refl
  where
    by_hand : (o : Option (Result State)) → v.predecessor ≡ o → (14 ≤ n) × (n ≤ 28)
    by_hand none e = absurd (ground arith)
    by_hand (some r) e = ground (arith, route_accepted-bounds v.role n r)

is_some-value {ℓ} : {A : Type ℓ} (o : Option A) → is_some o ≡ true → (v : A) × (o ≡ some v)
is_some-value none h = cc
is_some-value (some v) h = (v, refl)

module _ (parts : Parts) (g g' : HandGame) where
  pub routed-eq :
      routed parts g ≡ ok g'
      → (n : ℕ) × (route_hand (view parts g) ≡ ok n) × (record g { stage = n } ≡ g')
  unfolding routed
  routed-eq h = let (n, e, k) = >>=-eq-ok (route_hand (view parts g)) _ h in (n, e, ok-inj k)

  pub observe_deposit-eq :
      (e : HandEvent)
      → observe_deposit parts g e ≡ ok g'
      → (n : ℕ) × (14 ≤ n)
        × (n ≤ 28)
        × (record g {
          stage = n;
          hand = some (record {
            accepted = e.accepted;
            observed_at = e.observed_at;
            reveals = [];
            private_holes = none;
          });
          prepared = none;
        }
            ≡ g')
  unfolding observe_deposit routed
  observe_deposit-eq e h =
      let h1 = past _ _ h in
      let h2 = past (parts.check_deposit e.accepted) _ h1 in
      let (n, r, k) = >>=-eq-ok _ _ h2 in
      let (lo, hi) = route_hand-bounds _ n r in (n, lo, hi, ok-inj k)

  pub observe_deposit-stage :
      (e : HandEvent)
      → observe_deposit parts g e ≡ ok g'
      → (g.stage ≡ stage_await_initial_deposit)
        ⊎ ((p : PreparedState) × (g.prepared ≡ some p)
            × (p.saved.action.kind ≡ action_initial_deposit))
  unfolding observe_deposit
  observe_deposit-stage e h =
      let (_, first, _) = >>=-eq-ok _ _ h in
      elim (if-cases (g.stage == stage_await_initial_deposit) first) [
        | inl (at, _) ↦ inl ((==_iff g.stage stage_await_initial_deposit).0 at)
        | inr (_, k) ↦
            let (p, there, k1) = past_or_fail g.prepared protocol _ k in
            let (kind, _) =
              past_guard (p.saved.action.kind == action_initial_deposit) protocol _ k1 in
            inr (p, there, (==_iff p.saved.action.kind action_initial_deposit).0 kind)
      ]

  pub prepare_spend-eq :
      (e : HandEvent)
      → prepare_spend parts g e ≡ ok g'
      → (built : Unsigned) × (expected : SavedSpend) × (is_some e.spend.signed ≡ false)
        × (action_permitted g.stage e.spend.action.kind ≡ true)
        × (check_hand parts g g.hand e.spend.action ≡ ok tt)
        × (build_action g e.spend.action ≡ ok built)
        × (saved_action g.hand e.spend.action built ≡ ok expected)
        × (same_saved parts expected e.spend ≡ true)
        × (check_sources parts e.spend.action.funding ≡ ok tt)
        × (check_admitted parts g.hand e.spend.action built ≡ ok tt)
        × (record g {
          prepared = some (record { saved = e.spend; built = built; last_attempt = 0 });
          stage = stage_transaction_prepared;
        }
            ≡ g')
  unfolding prepare_spend
  prepare_spend-eq e h =
      let (t, h1) =
        past_guard (not (is_some e.spend.signed) && action_permitted g.stage e.spend.action.kind)
          protocol _ h in
      let (_, c, h2) = >>=-eq-ok _ _ h1 in
      let (built, b, h3) = >>=-eq-ok _ _ h2 in
      let (expected, x, h4) = >>=-eq-ok _ _ h3 in
      let (s, h5) = past_guard (same_saved parts expected e.spend) protocol _ h4 in
      let (_, f, h6) = >>=-eq-ok _ _ h5 in
      let (_, a, h7) = >>=-eq-ok _ _ h6 in
      (built, expected, ground (arith, t), ground (arith, t), c, b, x, s, f, a, ok-inj h7)

  pub sign_spend-eq :
      (e : HandEvent)
      → sign_spend parts g e ≡ ok g'
      → (p : PreparedState) × (signed : Bundle) × (g.stage ≡ stage_transaction_prepared)
        × (g.prepared ≡ some p)
        × (e.spend.signed ≡ some signed)
        × (same_saved parts p.saved e.spend ≡ true)
        × (parts.compare_bundles p.saved.prepared signed ≡ ok tt)
        × (record g {
          prepared = some (record p { saved = e.spend });
          stage = stage_transaction_signed;
        }
            ≡ g')
  unfolding sign_spend
  sign_spend-eq e h =
      let (t, h1) = past_guard (g.stage == stage_transaction_prepared) protocol _ h in
      let (p, there, h2) = past_or_fail g.prepared protocol _ h1 in
      let (signed, has, h3) = past_or_fail e.spend.signed protocol _ h2 in
      let (s, h4) = past_guard (same_saved parts p.saved e.spend) protocol _ h3 in
      let (_, c, h5) = >>=-eq-ok _ _ h4 in
      (p, signed, ground (arith, t), there, has, s, c, ok-inj h5)

  pub attempt_submission-eq :
      (e : HandEvent)
      → attempt_submission parts g e ≡ ok g'
      → (p : PreparedState) × ((g.stage ≡ stage_transaction_signed)
          ⊎ (g.stage ≡ stage_await_transaction_acceptance))
        × (g.prepared ≡ some p)
        × (unlike_receipt parts e.tx_id p.built.ark.unsigned_tx.tx_hash ≡ false)
        × (g.stage ≡ stage_await_transaction_acceptance
            → e.recovery ≡ false
            → p.last_attempt + 5 ≤ e.observed_at)
        × (record g {
          prepared = some (record p { last_attempt = e.observed_at });
          stage = stage_await_transaction_acceptance;
        }
            ≡ g')
  unfolding attempt_submission
  attempt_submission-eq e h =
      let (t, h1) = past_guard (is_submitting parts g.stage) protocol _ h in
      let (p, there, h2) = past_or_fail g.prepared protocol _ h1 in
      let (like, h3) =
        past_reject (unlike_receipt parts e.tx_id p.built.ark.unsigned_tx.tx_hash) protocol _ h2 in
      let (late, h4) = past_reject (is_early parts g p e) protocol _ h3 in
      (p, ground (arith, t), there, like, (λ at again. ground (arith, late)), ok-inj h4)

  pub fail_submission-eq :
      (e : HandEvent)
      → fail_submission parts g e ≡ ok g'
      → ((g.stage ≡ stage_transaction_signed) ⊎ (g.stage ≡ stage_await_transaction_acceptance))
        × (p : PreparedState) × (g.prepared ≡ some p)
        × (record g { prepared = some p; stage = stage_await_transaction_acceptance } ≡ g')
  unfolding fail_submission
  fail_submission-eq e h =
      let (t, h1) = past_guard (is_some g.prepared && is_submitting parts g.stage) protocol _ h in
      let (p, there) = is_some-value g.prepared (ground (arith, t)) in
      (
        ground (arith, t),
        p,
        there,
        subst (λ o. record g { prepared = o; stage = stage_await_transaction_acceptance } ≡ g')
            there (ok-inj h1),
      )

  pub observe_opening-eq :
      (e : HandEvent)
      → observe_opening parts g e ≡ ok g'
      → (h next : HandState) × (n : ℕ) × ((g.stage ≡ stage_await_player1_funding)
          ⊎ (g.stage ≡ stage_await_player2_opening))
        × (g.hand ≡ some h)
        × (opening_hand parts g.role h e.accepted e.observed_at ≡ ok next)
        × (14 ≤ n)
        × (n ≤ 28)
        × (record g {
          stage = n;
          hand = some (record next { private_holes = some e.private_holes });
        }
            ≡ g')
  unfolding observe_opening routed
  observe_opening-eq e h =
      let (t, h1) =
        past_guard
          (g.stage == stage_await_player1_funding || g.stage == stage_await_player2_opening)
          protocol _ h in
      let (hand, there, h2) = past_or_fail g.hand bad_input _ h1 in
      let (next, o, h3) = >>=-eq-ok _ _ h2 in
      let (_, _, h4) =
        >>=-eq-ok (parts.decoded_cards (record next { private_holes = some e.private_holes })) _
          h3 in
      let (n, r, k) = >>=-eq-ok _ _ h4 in
      let (lo, hi) = route_hand-bounds _ n r in
      (hand, next, n, ground (arith, t), there, o, lo, hi, ok-inj k)

  pub evaluate_showdown-eq :
      (e : HandEvent)
      → evaluate_showdown parts g e ≡ ok g'
      → (h : HandState) × (g.stage ≡ stage_evaluate_showdown)
        × (g.hand ≡ some h)
        × (parts.check_evaluation h e.evaluation ≡ ok e.winner)
        × (record g { evaluated = some (e.evaluation, e.winner); stage = stage_settle_showdown }
            ≡ g')
  unfolding evaluate_showdown
  evaluate_showdown-eq e h =
      let (t, h1) = past_guard (g.stage == stage_evaluate_showdown) protocol _ h in
      let (hand, there, h2) = past_or_fail g.hand protocol _ h1 in
      let (winner, c, h3) = >>=-eq-ok _ _ h2 in
      let (w, h4) = past_guard (winner == e.winner) protocol _ h3 in
      let same : winner ≡ e.winner = (==_iff winner e.winner).0 w in
      (
        hand,
        ground (arith, t),
        there,
        subst (λ v. parts.check_evaluation hand e.evaluation ≡ ok v) same c,
        subst
            (λ v.
              record g { evaluated = some (e.evaluation, v); stage = stage_settle_showdown } ≡ g')
            same (ok-inj h4),
      )

  -- What a spend that is admitted leaves: the hand goes on, or it is over.
  pub data Continued (h : HandState) : Admission → Type 0 where
    goes_on :
        (next : HandState) (n : ℕ)
        → 14 ≤ n
        → n ≤ 28
        → record g { stage = n; prepared = none; evaluated = none; hand = some next } ≡ g'
        → Continued h (continues next)
    over :
        (outcome : HandOutcome) (s : State) (cards : Bytes)
        → parts.read_state h.accepted.transaction ≡ ok s
        → record g {
          completed = some (s, cards);
          prepared = none;
          evaluated = none;
          outcome = some (settled outcome);
          hand = none;
          stage = stage_finished;
        }
          ≡ g'
        → Continued h (ends outcome)

  continue_hand-Continued :
      (h : HandState) (admission : Admission)
      → continue_hand parts g h admission ≡ ok g'
      → Continued h admission
  unfolding continue_hand routed
  continue_hand-Continued h (continues next) c =
      let (n, r, k) = >>=-eq-ok _ _ c in
      let (lo, hi) = route_hand-bounds _ n r in goes_on next n lo hi (ok-inj k)
  continue_hand-Continued h (ends outcome) c =
      let (s, read, c1) = >>=-eq-ok (parts.read_state h.accepted.transaction) _ c in
      let (cards, _, k) = >>=-eq-ok (parts.known_cards h) _ c1 in
      over outcome s cards read (ok-inj k)

  pub observe_spend-eq :
      (e : HandEvent)
      → observe_spend parts g e ≡ ok g'
      → (h : HandState) × (admission : Admission) × (g.hand ≡ some h)
        × (parts.admit_spend h e.accepted e.observed_at ≡ ok admission)
        × Continued h admission
  unfolding observe_spend
  observe_spend-eq e h =
      let (hand, there, h1) = past_or_fail g.hand protocol _ h in
      let (admission, a, h2) = >>=-eq-ok _ _ h1 in
      (hand, admission, there, a, continue_hand-Continued hand admission h2)

  -- The handler that has succeeded
  pub data Handled (e : HandEvent) : Type 0 where
    deposited : e.kind ≡ deposit_observed → observe_deposit parts g e ≡ ok g' → Handled e
    prepares : e.kind ≡ spend_prepared → prepare_spend parts g e ≡ ok g' → Handled e
    signs : e.kind ≡ spend_signed → sign_spend parts g e ≡ ok g' → Handled e
    attempts : e.kind ≡ submission_attempted → attempt_submission parts g e ≡ ok g' → Handled e
    fails : e.kind ≡ submission_failed → fail_submission parts g e ≡ ok g' → Handled e
    spends : e.kind ≡ spend_observed → observe_spend parts g e ≡ ok g' → Handled e
    opens : e.kind ≡ opening_observed → observe_opening parts g e ≡ ok g' → Handled e
    evaluates : e.kind ≡ showdown_evaluated → evaluate_showdown parts g e ≡ ok g' → Handled e

  pub reduce_hand-Handled : (e : HandEvent) → reduce_hand parts g e ≡ ok g' → Handled e
  unfolding reduce_hand
  reduce_hand-Handled e h = elim (if-cases (e.kind == deposit_observed) h) [
    | inl (k, done) ↦ deposited ((==_iff _ _).0 k) done
    | inr (_, h1) ↦ elim (if-cases (e.kind == spend_prepared) h1) [
      | inl (k, done) ↦ prepares ((==_iff _ _).0 k) done
      | inr (_, h2) ↦ elim (if-cases (e.kind == spend_signed) h2) [
        | inl (k, done) ↦ signs ((==_iff _ _).0 k) done
        | inr (_, h3) ↦ elim (if-cases (e.kind == submission_attempted) h3) [
          | inl (k, done) ↦ attempts ((==_iff _ _).0 k) done
          | inr (_, h4) ↦ elim (if-cases (e.kind == submission_failed) h4) [
            | inl (k, done) ↦ fails ((==_iff _ _).0 k) done
            | inr (_, h5) ↦ elim (if-cases (e.kind == spend_observed) h5) [
              | inl (k, done) ↦ spends ((==_iff _ _).0 k) done
              | inr (_, h6) ↦ elim (if-cases (e.kind == opening_observed) h6) [
                | inl (k, done) ↦ opens ((==_iff _ _).0 k) done
                | inr (_, h7) ↦ elim (if-cases (e.kind == showdown_evaluated) h7) [
                  | inl (k, done) ↦ evaluates ((==_iff _ _).0 k) done
                  | inr (_, h8) ↦ cc
                ]
              ]
            ]
          ]
        ]
      ]
    ]
  ]

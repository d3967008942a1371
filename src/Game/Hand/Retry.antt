-- ===== src/Game/Hand/Retry.antt =====
-- The submissions of one signed transaction, and the way a prepared one takes to the network.
use arkade_poker.Prelude.{
  ℕ, ◌≡◌, ◌≤◌, ◌+◌, false, true, some, List, [], ◌∷◌, ok, refl, arith, subst, sym, ◌∙◌, some-inj,
  ap, Result, ◌>>=◌, >>=-eq-ok, ok-inj, All,
}
use arkade_poker.Game.Stage.{stage_transaction_prepared, stage_await_transaction_acceptance}
use arkade_poker.Game.Hand.{
  Bundle, PreparedState, HandEvent, HandGame, Parts, reduce_hand, submission_attempted,
  submission_failed, spend_signed, same_saved, sign_spend, attempt_submission, fail_submission,
  unlike_receipt,
}
use arkade_poker.Game.Hand.Steps.{attempt_submission-eq, fail_submission-eq}

-- The games that hand events lead to, one after the other.
abbrev pub reduce_all : Parts → HandGame → List HandEvent → Result HandGame
reduce_all parts g [] = ok g
reduce_all parts g (e ∷ rest) = reduce_hand parts g e >>= (λ h. reduce_all parts h rest)

module _ (parts : Parts) where
  module _ (g g' : HandGame) (e : HandEvent) where
    attempts-kind :
        e.kind ≡ submission_attempted
        → reduce_hand parts g e ≡ ok g'
        → attempt_submission parts g e ≡ ok g'
    unfolding reduce_hand
    attempts-kind kind h = rw kind at h

    fails-kind :
        e.kind ≡ submission_failed
        → reduce_hand parts g e ≡ ok g'
        → fail_submission parts g e ≡ ok g'
    unfolding reduce_hand
    fails-kind kind h = rw kind at h

  -- The time of the last attempt, at the stage that awaits the acceptance
  abbrev IsAttempted : ℕ → HandGame → Type 0
  IsAttempted at g =
      (g.stage ≡ stage_await_transaction_acceptance)
      × (p : PreparedState) × (g.prepared ≡ some p)
      × (p.last_attempt ≡ at)

  failures-IsAttempted :
      (at : ℕ) (es : List HandEvent) (g g' : HandGame)
      → All (λ (e : HandEvent). e.kind ≡ submission_failed) es
      → reduce_all parts g es ≡ ok g'
      → IsAttempted at g
      → IsAttempted at g'
  failures-IsAttempted at [] g g' kinds h held = subst (IsAttempted at) (ok-inj h) held
  failures-IsAttempted at (e ∷ es) g g' (kind, kinds) h (_, q, there, last) =
      let (mid, first, rest) = >>=-eq-ok (reduce_hand parts g e) _ h in
      let (_, p, has, out) = fail_submission-eq parts g mid e (fails-kind g mid e kind first) in
      failures-IsAttempted at es mid g' kinds rest (
        subst (IsAttempted at) out (
          refl,
          p,
          refl,
          ap (λ (r : PreparedState). r.last_attempt) (some-inj (sym has ∙ there)) ∙ last,
        ))

  -- Between two attempts to submit the same signed transaction, whatever failures are recorded
  -- between them, at least five seconds pass, unless the second is an approved recovery.
  pub retries-spaced :
      (g g1 g2 g3 : HandGame) (first second : HandEvent) (failures : List HandEvent)
      → first.kind ≡ submission_attempted
      → reduce_hand parts g first ≡ ok g1
      → All (λ (e : HandEvent). e.kind ≡ submission_failed) failures
      → reduce_all parts g1 failures ≡ ok g2
      → second.kind ≡ submission_attempted
      → second.recovery ≡ false
      → reduce_hand parts g2 second ≡ ok g3
      → first.observed_at + 5 ≤ second.observed_at
  retries-spaced g g1 g2 g3 first second failures k1 h1 kinds h2 k3 again h3 =
      let (q, _, _, _, _, out) =
        attempt_submission-eq parts g g1 first (attempts-kind g g1 first k1 h1) in
      let (at, p, there, last) = failures-IsAttempted first.observed_at failures g1 g2 kinds h2 (
        subst (IsAttempted first.observed_at) out
          (refl, record q { last_attempt = first.observed_at }, refl, refl)) in
      let (r, _, has, _, spaced, _) =
        attempt_submission-eq parts g2 g3 second (attempts-kind g2 g3 second k3 h3) in
      let same : r ≡ p = some-inj (sym has ∙ there) in
      let at_last : r.last_attempt ≡ first.observed_at =
        ap (λ (x : PreparedState). x.last_attempt) same ∙ last in
      omega (arith, spaced at again, at_last)

  -- A game that has prepared a transaction takes a signed bundle of the same spend that compares
  -- with the prepared one, and then a submission with no receipt or the receipt of that
  -- transaction, at any time.
  pub prepared-submits :
      (g : HandGame) (p : PreparedState) (bundle : Bundle) (sign submit : HandEvent)
      → g.stage ≡ stage_transaction_prepared
      → g.prepared ≡ some p
      → sign.kind ≡ spend_signed
      → sign.spend.signed ≡ some bundle
      → same_saved parts p.saved sign.spend ≡ true
      → parts.compare_bundles p.saved.prepared bundle ≡ ok tt
      → submit.kind ≡ submission_attempted
      → unlike_receipt parts submit.tx_id p.built.ark.unsigned_tx.tx_hash ≡ false
      → reduce_all parts g (sign ∷ submit ∷ [])
        ≡ ok (record g {
          prepared = some (record p { saved = sign.spend; last_attempt = submit.observed_at });
          stage = stage_await_transaction_acceptance;
        })
  unfolding reduce_hand sign_spend attempt_submission
  prepared-submits g p bundle sign submit at there k1 has same compared k2 like =
      rw (k1, at, there, has, same, compared, k2, like)

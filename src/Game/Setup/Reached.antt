-- ===== src/Game/Setup/Reached.antt =====
-- What a game has exchanged at every stage of a setup.
use arkade_poker.Prelude.{
  ◌≡◌, ◌<◌, ◌⊎◌, inl, inr, ◌==◌, Option, none, some, ok, arith, refl, ap, ◌∙◌, sym, subst, past,
  guard, ok-inj, some-inj, if-cases, >>=-eq-ok, bad_input, ◌&&◌,
}
use arkade_poker.Game.Stage.{stage_aborted}
use arkade_poker.Covenant.Amounts.{bytes_eq}
use arkade_poker.Game.Setup.{
  session_prepared, configured, setup_aborted, publication_prepared, reduce_in, may_abort,
  SetupState, Event, Table, Answers, publication_next, prepare_session, setup_next, reduce_setup,
}
use arkade_poker.Game.Setup.Order.{
  IsPlaced, IsOrdered, setup_next-IsOrdered, publication_next-IsOrdered,
}

abbrev pub empty_table : Table
empty_table = record { stage = 0; setup = none; abort_reason = none }

-- The games that the events of a setup lead to, as long as none is given to the reducer of a funded hand.
pub data Reach (answers : Answers) : Table → Type 0 where
  start : Reach answers empty_table
  next :
      {g g' : Table} (e : Event)
      → Reach answers g
      → g.stage < 11
      → reduce_setup answers g e ≡ ok g'
      → Reach answers g'

module _ (answers : Answers) (g g' : Table) (e : Event) where
  prepare_session-IsOrdered : prepare_session answers g e ≡ ok g' → IsOrdered g'
  unfolding prepare_session
  prepare_session-IsOrdered h =
      let h1 =
        past
          (guard (e.kind == session_prepared && bytes_eq e.session_id e.invitation.session_id)
            bad_input)
          _ h in
      let h2 = past (answers.check_invitation e.invitation) _ h1 in
      let (local, _, h3) = >>=-eq-ok (answers.key_message e) _ h2 in
      let s : SetupState = record {
        invitation = e.invitation;
        role = e.role;
        local_keys = local;
        peer = none;
        publication = none;
        pending = none;
        next_send = 0;
        next_receive = 0;
        initial = none;
        final = none;
      } in
      inr (s, ground (arith, h3), inl (ground (arith, h3)))

  -- What an event of a setup can be.
  abbrev Handled : Type 0
  Handled =
      ((s : SetupState) × (g.setup ≡ some s) × (publication_next answers g s e ≡ ok g'))
      ⊎ ((prepare_session answers g e ≡ ok g')
          ⊎ ((s : SetupState) × (g.setup ≡ some s) × (setup_next answers g s e ≡ ok g')))

  reduce_in-Handled :
      (o : Option SetupState) → g.setup ≡ o → reduce_in answers g e o ≡ ok g' → Handled
  unfolding reduce_in
  reduce_in-Handled none there h = elim (if-cases (e.kind == publication_prepared) h) [
    | inl (_, k) ↦ cc
    | inr (_, k) ↦ elim (if-cases (g.stage == 0) k) [ inl (_, l) ↦ inr (inl l) | inr (_, l) ↦ cc ]
  ]
  reduce_in-Handled (some s) there h = elim (if-cases (e.kind == publication_prepared) h) [
    | inl (_, k) ↦ inl (s, there, k)
    | inr (_, k) ↦ elim (if-cases (g.stage == 0) k) [
      | inl (_, l) ↦ inr (inl l)
      | inr (_, l) ↦ inr (inr (s, there, l))
    ]
  ]

  reduce_setup-cases :
      reduce_setup answers g e ≡ ok g'
      → ((g'.stage ≡ stage_aborted) × (g'.setup ≡ g.setup)) ⊎ Handled
  unfolding reduce_setup
  reduce_setup-cases h = elim (if-cases (e.kind == configured) h) [
    | inl (_, k) ↦ cc
    | inr (_, k) ↦ elim (if-cases (e.kind == setup_aborted) k) [
      | inl (_, l) ↦
          let out = ok-inj (past (guard (may_abort answers g e.failure_code) bad_input) _ l) in
          inl (sym (ap (λ (t : Table). t.stage) out), sym (ap (λ (t : Table). t.setup) out))
      | inr (_, l) ↦ inr (reduce_in-Handled g.setup refl l)
    ]
  ]

  reduce_setup-IsOrdered :
      g.stage < 11 → IsOrdered g → reduce_setup answers g e ≡ ok g' → IsOrdered g'
  reduce_setup-IsOrdered small ordered h = elim (reduce_setup-cases h) [
    | inl (at, same) ↦ aborted at same ordered
    | inr (inl (s, there, k)) ↦
        publication_next-IsOrdered answers g g' s e (placed small s there ordered) k
    | inr (inr (inl k)) ↦ prepare_session-IsOrdered k
    | inr (inr (inr (s, there, k))) ↦
        setup_next-IsOrdered answers g g' s e (placed small s there ordered) small there k
  ]
    where
      aborted : g'.stage ≡ stage_aborted → g'.setup ≡ g.setup → IsOrdered g → IsOrdered g'
      aborted at same (inl (nothing, _)) = inl (same ∙ nothing, inr at)
      aborted at same (inr (s, there, _)) = inr (s, same ∙ there, inr at)

      placed : g.stage < 11 → (s : SetupState) → g.setup ≡ some s → IsOrdered g → IsPlaced g.stage s
      placed small s there (inl (nothing, _)) = absurd (ground arith)
      placed small s there (inr (t, e, inl p)) =
          subst (IsPlaced g.stage) (some-inj (sym e ∙ there)) p
      placed small s there (inr (t, e, inr at)) = absurd (omega (arith, small, at))

-- In every game that setup events lead to, the stage determines what was exchanged: whose stage
-- it is, how many messages were published and received, and which of the keys, the shuffles and
-- the pending message are there; or the game was aborted, or has no session yet.
pub Reach-IsOrdered : (answers : Answers) (g : Table) → Reach answers g → IsOrdered g
Reach-IsOrdered answers g start = inl (refl, inl refl)
Reach-IsOrdered answers g (next {g = before} e r small h) =
    reduce_setup-IsOrdered answers before g e small (Reach-IsOrdered answers before r) h

-- ===== src/Game/Hand/Entitled.antt =====
-- Who a transaction may be prepared by, and when.
use arkade_poker.Prelude.{
  ℕ, ◌≡◌, ◌≢◌, if◌then◌else◌, ◌≤◌, ◌+◌, ◌⊎◌, inl, inr, true, some, ok, arith, ◌==◌, ==_iff,
  past_or_fail, >>=-eq-ok, if-cases, bad_input, subst,
}
use arkade_poker.Covenant.Types.{Bytes, State, player1, player2}
use arkade_poker.Game.Setup.{other}
use arkade_poker.Game.Stage.{settlement_eligible, action_timeout, action_showdown}
use arkade_poker.Game.Hand.{
  PreparedAction, HandState, HandEvent, HandGame, Parts, view, actor_of, check_actor, check_hand,
  check_settlement, prepare_spend,
}
use arkade_poker.Game.Hand.Steps.{prepare_spend-eq}

-- The player who settles first: a winner, or the first player on a tie
abbrev settles_first : ℕ → ℕ
settles_first winner = if winner == player2 then player2 else player1

module _ (parts : Parts) (g : HandGame) (h : HandState) where
  -- The settlement of a showdown, by the player who goes first or thirty seconds later
  pub record IsSettling (a : PreparedAction) : Type 0 where
    pub witness : Bytes
    pub winner : ℕ
    pub given : a.showdown ≡ some witness
    pub evaluated : parts.check_evaluation h witness ≡ ok winner
    pub in_turn : (g.role ≡ settles_first winner) ⊎ (h.observed_at + 30 ≤ a.observed_at)

  -- The player may take the action now.
  pub data IsEntitled (s : State) (a : PreparedAction) : Type 0 where
    times_out :
        a.kind ≡ action_timeout
        → actor_of s ≡ other g.role
        → s.deadline ≤ a.observed_at
        → IsEntitled s a
    settles : a.kind ≡ action_showdown → IsSettling a → IsEntitled s a
    acts : a.kind ≢ action_timeout → a.kind ≢ action_showdown → actor_of s ≡ g.role → IsEntitled s a

  settlement_eligible-in_turn :
      (winner at : ℕ)
      → g.hand ≡ some h
      → settlement_eligible (view parts g) winner at ≡ ok true
      → (g.role ≡ settles_first winner) ⊎ (h.observed_at + 30 ≤ at)
  unfolding settlement_eligible
  settlement_eligible-in_turn winner at there e = ground (arith, e, rw there at e)

  check_actor-IsEntitled :
      (a : PreparedAction)
      → g.hand ≡ some h
      → check_actor parts g h a ≡ ok tt
      → (s : State) × (parts.read_state h.accepted.transaction ≡ ok s) × IsEntitled s a
  unfolding check_actor
  check_actor-IsEntitled a there c =
      let (s, read, c1) = >>=-eq-ok (parts.read_state h.accepted.transaction) _ c in
      (
        s,
        read,
        elim (if-cases (a.kind == action_timeout) c1) [
          | inl (k, c2) ↦ times_out ((==_iff _ _).0 k) (ground (arith, c2)) (ground (arith, c2))
          | inr (k, c2) ↦ elim (if-cases (a.kind == action_showdown) c2) [
            | inl (k', c3) ↦ settles ((==_iff _ _).0 k') (settle c3)
            | inr (k', c3) ↦ acts (ground (arith, k)) (ground (arith, k')) (ground (arith, c3))
          ]
        ],
      )
    where
      settle : check_settlement parts g h a ≡ ok tt → IsSettling a
      settle c3 =
          let (witness, given, c4) = past_or_fail a.showdown bad_input _ c3 in
          let (winner, evaluated, c5) = >>=-eq-ok (parts.check_evaluation h witness) _ c4 in
          let (eligible, e, c6) =
            >>=-eq-ok (settlement_eligible (view parts g) winner a.observed_at) _ c5 in
          let yes : eligible ≡ true = ground (arith, c6) in
          record {
            witness = witness;
            winner = winner;
            given = given;
            evaluated = evaluated;
            in_turn = settlement_eligible-in_turn winner a.observed_at there (rw yes at e);
          }

  -- A transaction that is prepared in a hand is one that the player is entitled to by the
  -- accepted state: a timeout is of the opponent's turn and not before the deadline, the
  -- settlement of a showdown is for the player who goes first or thirty seconds after the state
  -- was seen, and any other action is of the player's own turn.
  pub prepare_spend-IsEntitled :
      (g' : HandGame) (e : HandEvent)
      → g.hand ≡ some h
      → prepare_spend parts g e ≡ ok g'
      → (s : State) × (parts.read_state h.accepted.transaction ≡ ok s) × IsEntitled s e.spend.action
  prepare_spend-IsEntitled g' e there done =
      let (_, _, _, _, checked, _, _, _, _, _, _) = prepare_spend-eq parts g g' e done in
      check_actor-IsEntitled e.spend.action there
        (subst (λ o. check_hand parts g o e.spend.action ≡ ok tt) there checked)

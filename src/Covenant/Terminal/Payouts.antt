-- ===== src/Covenant/Terminal/Payouts.antt =====
-- The settlements pay out what the covenant holds.
use arkade_poker.Prelude.{
  ℕ, ◌+◌, ◌-◌, ◌≤◌, ◌<◌, ◌≡◌, ◌⊎◌, inl, inr, ok, arith, List, [], ◌∷◌, ℤ, pos, Result-cases,
  if◌then◌else◌, ltb, ◌==◌,
}
use arkade_poker.Covenant.Types.{
  Phase, State, Contract, TxOut, showdown_evaluation, player1, player2, other_player,
}
use arkade_poker.Covenant.Phase.{required_actor, encode_phase}
use arkade_poker.Covenant.Amounts.{max_money}
use arkade_poker.Covenant.Live.{IsAgreed}
use arkade_poker.Covenant.Build.{live_value}
use arkade_poker.Covenant.Build.Balance.{joint, live_value_exact}
use arkade_poker.Covenant.Terminal.{
  payout, concession_payouts, timeout_beneficiary, showdown_payouts,
}

-- Two outputs to the players' own scripts, in order.
abbrev pub Pays : Contract → List TxOut → ℕ → ℕ → Type 0
Pays c outs n1 n2 =
    outs
    ≡ record { value = pos n1; pk_script = c.payout1 }
      ∷ record { value = pos n2; pk_script = c.payout2 }
      ∷ []

-- The winner's share and the loser's bond.
abbrev pub shares : ℕ → ℕ → ℕ → ℕ × ℕ
shares winner total bond = if winner == player1 then (total - bond, bond) else (bond, total - bond)

pub acting_player :
    (x : Phase) (code : ℕ)
    → encode_phase x ≡ ok code
    → 3 ≤ x.kind
    → x.kind ≤ 7
    → (x.actor ≡ player1) ⊎ (x.actor ≡ player2)
unfolding encode_phase
acting_player x code h lo hi = ground arith

pub concession_payouts_split :
    (c : Contract) (x : Phase) (n : ℕ) (outs : List TxOut)
    → (x.actor ≡ player1) ⊎ (x.actor ≡ player2)
    → n ≤ max_money
    → concession_payouts c x (pos n) ≡ ok outs
    → Pays c outs
        (shares (other_player x.actor) n c.params.bond).0
        (shares (other_player x.actor) n c.params.bond).1
      × (c.params.bond ≤ n)
unfolding concession_payouts payout
concession_payouts_split c x n outs (inl e) small h = ground arith
concession_payouts_split c x n outs (inr e) small h = ground arith

pub concession_kind :
    (c : Contract) (x : Phase) (v : ℤ) (outs : List TxOut)
    → concession_payouts c x v ≡ ok outs
    → (3 ≤ x.kind) × (x.kind ≤ 7)
unfolding concession_payouts
concession_kind c x v outs h = ground arith

-- At the showdown the better rank takes all but the loser's bond, and equal ranks halve a value
-- that is even, so that the two payouts add up to the covenant's value.
pub showdown_payouts_split :
    (c : Contract)
    → IsAgreed c.params
    → (s : State) (total : ℤ) (r1 r2 : ℕ) → s.wager1 ≡ s.wager2
    → live_value c.params s ≡ ok total
    → (n1 : ℕ) × (n2 : ℕ) × Pays c (showdown_payouts c total r1 r2) n1 n2
      × (n1 + n2 ≡ joint c.params s)
      × (r2 < r1 → n2 ≡ c.params.bond)
      × (r1 < r2 → n1 ≡ c.params.bond)
      × (r1 ≡ r2 → n1 ≡ n2)
unfolding showdown_payouts payout
showdown_payouts_split c agreed s total r1 r2 e h =
    let n = joint c.params s in
    let b = c.params.bond in
    let n1 =
      if ltb r2 r1 then n - b else (if ltb r1 r2 then b else c.params.stake + b + s.wager1) in
    let n2 =
      if ltb r2 r1 then b else (if ltb r1 r2 then n - b else c.params.stake + b + s.wager1) in
    let exact = live_value_exact c.params agreed s total h in
    (n1, n2, ground (arith, exact), ground (arith, exact), ground arith, ground arith, ground arith)

required_actor_cases :
    (x : Phase) (a : ℕ) → required_actor x ≡ ok a → (a ≡ 0) ⊎ (a ≡ player1) ⊎ (a ≡ player2)
unfolding required_actor encode_phase
required_actor_cases x a h = ground arith

required_actor_evaluation :
    (x : Phase) (a : ℕ) → required_actor x ≡ ok a → x.kind ≡ showdown_evaluation → a ≡ 0
unfolding required_actor
required_actor_evaluation x a h k = ground arith

-- A timeout pays the opponent of the player who has to act, and none can be claimed at the
-- evaluation.
pub timeout_beneficiary_opposes :
    (x : Phase) (b : ℕ)
    → timeout_beneficiary x ≡ ok b
    → (a : ℕ) × (required_actor x ≡ ok a)
      × ((a ≡ player1) × (b ≡ player2) ⊎ (a ≡ player2) × (b ≡ player1))
      × (x.kind ≡ showdown_evaluation → ⊥)
unfolding timeout_beneficiary
timeout_beneficiary_opposes x b h = elim (Result-cases (required_actor x)) [
  | inl (a, e) ↦ (a, e, sides a e, not_evaluating a e)
  | inr (_, e) ↦ absurd (ground arith)
]
  where
    sides :
        (a : ℕ)
        → required_actor x ≡ ok a
        → ((a ≡ player1) × (b ≡ player2)) ⊎ ((a ≡ player2) × (b ≡ player1))
    sides a e = ground (arith, required_actor_cases x a e)

    not_evaluating : (a : ℕ) → required_actor x ≡ ok a → x.kind ≡ showdown_evaluation → ⊥
    not_evaluating a e k = ground (arith, required_actor_evaluation x a e k)

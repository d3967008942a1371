-- ===== src/Covenant/Terminal.antt =====
-- internal/covenant/action_terminal.go: the three settlements of a hand.
pub mod Payouts
pub mod Settlements
use arkade_poker.Prelude.{
  ℕ, ◌+◌, ◌-◌, ◌*◌, ◌/◌, Bool, not, ◌&&◌, ◌||◌, List, [], ◌∷◌, ◌++◌, ltb, leb, ◌==◌, if◌then◌else◌,
  ℤ, pos, negsuc, sub_int64, leb_ℤ, slice, drop, le_bytes, Result, ok, err, ◌>>=◌, ◌>>◌, guard,
  reject, not_available, bad_value, bad_history, bad_cards, bad_rank, bad_phase, true, false,
}
use arkade_poker.Covenant.Types.{
  Bytes, Phase, State, Contract, MsgTx, TxOut, SpendingIdentity, player1, player2, betting, all_in,
  showdown_reveal, all_in_reveal, showdown_evaluation, spend_concession, spend_timeout,
  spend_showdown, other_player, phase_eq,
}
use arkade_poker.Covenant.Phase.{bare, required_actor}
use arkade_poker.Covenant.Reveals.{start_equal}
use arkade_poker.Covenant.Packets.{ArkLib}
use arkade_poker.Covenant.Build.{
  Assembly, identity_of, live_predecessor, exit_predecessor, build_terminal, live_value,
}

-- A rank and the encoding of its inclusion proof, which internal/merkel makes.
pub record HandProof : Type 0 where
  pub rank : ℕ  -- a uint16
  pub siblings : Result Bytes

-- The cards stand in the order of `dealtOrder`.
pub record ShowdownWitness : Type 0 where
  pub cards : List ℕ
  pub proof1 : HandProof
  pub proof2 : HandProof

-- merkel.LowLength
abbrev low_length : ℕ
low_length = 13

unfoldable pub seen : ℕ → List ℕ → Bool
seen c [] = false
seen c (d ∷ ds) = c == d || seen c ds

-- The loop over the cards: below 52, and not seen before.
unfoldable pub check_cards : List ℕ → List ℕ → Result (Unit {0})
check_cards before [] = ok tt
check_cards before (c ∷ cs) = do
  reject (leb 52 c || seen c before) bad_cards
  check_cards (c ∷ before) cs

unfoldable pub encode_proof : HandProof → Result (List Bytes)
encode_proof p = do
  reject (ltb p.rank 1 || ltb 7462 p.rank) bad_rank
  siblings ← p.siblings
  ok (le_bytes 2 p.rank ∷ slice siblings 0 (low_length * 32) ∷ drop (low_length * 32) siblings ∷ [])

unfoldable pub encode_showdown_witness : ShowdownWitness → Result (List Bytes)
encode_showdown_witness w = do
  _ ← check_cards [] w.cards
  first ← encode_proof w.proof1
  second ← encode_proof w.proof2
  ok (first ++ (second ++ (w.cards ∷ [])))

-- Contract.payout
unfoldable pub payout : Contract → ℕ → ℤ → TxOut
payout c player value = record {
  value = value;
  pk_script = if player == player2 then c.payout2 else c.payout1;
}

-- `v / 2`, which rounds towards zero
half : ℤ → ℤ
half (pos n) = pos (n / 2)
half (negsuc n) = if n == 0 then pos 0 else negsuc ((n - 1) / 2)

unfoldable pub may_concede : ℕ → Bool
may_concede kind =
    kind == betting || (kind == all_in || (kind == showdown_reveal || kind == all_in_reveal))

-- The outputs of Concession, by the phase and the value of the predecessor.
unfoldable pub concession_payouts : Contract → Phase → ℤ → Result (List TxOut)
unfolding may_concede
concession_payouts c x value = do
  guard (may_concede x.kind) not_available
  let bond = pos c.params.bond
  guard (leb_ℤ bond value) bad_value
  let rest = sub_int64 value bond
  ok (
      if x.actor == player2
      then payout c player1 rest ∷ payout c player2 bond ∷ []
      else payout c player1 bond ∷ payout c player2 rest ∷ [])

-- The beneficiary of Timeout: the opponent of the player who has to act.
unfoldable pub timeout_beneficiary : Phase → Result ℕ
timeout_beneficiary x = do
  actor ← required_actor x
  reject (actor == 0) not_available
  ok (other_player actor)

-- The outputs of Showdown, by the total and the claimed ranks.
unfoldable pub showdown_payouts : Contract → ℤ → ℕ → ℕ → List TxOut
unfolding half
showdown_payouts c total rank1 rank2 =
    let bond = pos c.params.bond in
    let rest = sub_int64 total bond in
    if ltb rank2 rank1
    then payout c player1 rest ∷ payout c player2 bond ∷ []
    else (if ltb rank1 rank2
        then payout c player1 bond ∷ payout c player2 rest ∷ []
        else payout c player1 (half total) ∷ payout c player2 (half total) ∷ [])

module _ (lib : ArkLib) (c : Contract) where
  unfoldable pub concession : MsgTx → Result Assembly
  concession previous = do
    (x, value) ← exit_predecessor lib c previous
    payouts ← concession_payouts c x value
    build_terminal lib c (identity_of spend_concession x.actor 0) payouts []

  unfoldable pub timeout : MsgTx → Result Assembly
  timeout previous = do
    (x, value) ← exit_predecessor lib c previous
    beneficiary ← timeout_beneficiary x
    build_terminal lib c (identity_of spend_timeout beneficiary 0) (payout c beneficiary value ∷ [])
        []

  unfoldable pub showdown : MsgTx → ℕ → ShowdownWitness → Result Assembly
  showdown previous submitter witness = do
    s ← live_predecessor lib c previous
    guard (phase_eq s.phase (bare showdown_evaluation)) bad_phase
    guard (start_equal s) bad_history
    encoded ← encode_showdown_witness witness
    total ← live_value c.params s
    build_terminal lib c (identity_of spend_showdown submitter 0)
        (showdown_payouts c total witness.proof1.rank witness.proof2.rank) encoded

-- ===== src/Covenant/Build.antt =====
-- internal/covenant/action_build.go and the live builders of action_betting.go and
-- action_reveals.go: the predecessor's checks, the successor and the outputs of the spend. What the
-- upstream library makes of an assembly, its PSBTs, is not modelled.
pub mod Balance
use arkade_poker.Prelude.{
  ℕ, ◌+◌, ◌-◌, ◌*◌, Bool, true, false, not, ◌&&◌, ◌||◌, List, [], ◌∷◌, ◌++◌, Option, none, some,
  map, ltb, leb, ◌==◌, if◌then◌else◌, ℤ, pos, int64, sub_int64, leb_ℤ, eqb_ℤ, is_negative,
  max_uint64, length, slice, le_value, Result, ok, err, ◌>>=◌, ◌>>◌, guard, reject, or_fail,
  invalid_contract, no_output, contract_mismatch, over_cap, bad_value, bad_packet, no_path,
  deadline_overflow, bad_extension,
}
use arkade_poker.Covenant.Types.{
  Bytes, Phase, State, Params, Contract, MsgTx, TxOut, Packet, Source, Funding, BettingAction,
  SpendingIdentity, player1, player2, pre_flop, flop, turn, river, spend_player1_funding,
  spend_player2_opening, spend_betting, spend_board_reveal, spend_showdown_reveal,
  spend_all_in_call, spend_all_in_reveal, spend_concession, spend_timeout, spend_showdown,
}
use arkade_poker.Covenant.Phase.{decode_phase}
use arkade_poker.Covenant.Amounts.{add_amount, validate_funding, bytes_eq}
use arkade_poker.Covenant.Packets.{ArkLib, read_state, read_header, action_extension, header_len}
use arkade_poker.Covenant.Betting.{bet_next}
use arkade_poker.Covenant.Reveals.{
  CardLib, RevealWitness, player1_funding_next, opening_next, board_reveal_next,
  showdown_reveal_next, all_in_call_next, all_in_reveal_next, initial_state,
}
use arkade_poker.Covenant.Live.{deadline_interval, advance}

abbrev pub identity_of : ℕ → ℕ → ℕ → SpendingIdentity
identity_of kind actor street = record { kind = kind; actor = actor; street = street; pass = 0 }

-- The streets of a spending kind.
streets_of : ℕ → List ℕ
streets_of kind =
    if kind == spend_betting || kind == spend_all_in_call
    then pre_flop ∷ flop ∷ turn ∷ river ∷ []
    else (if kind == spend_board_reveal || kind == spend_all_in_reveal
        then flop ∷ turn ∷ river ∷ []
        else 0 ∷ [])

for_streets : ℕ → List ℕ → List SpendingIdentity
for_streets kind [] = []
for_streets kind (street ∷ rest) =
    identity_of kind player1 street ∷ identity_of kind player2 street ∷ for_streets kind rest

for_kinds : List ℕ → List SpendingIdentity
unfolding for_streets streets_of
for_kinds [] = []
for_kinds (kind ∷ rest) = for_streets kind (streets_of kind) ++ for_kinds rest

-- spendingIdentities
unfoldable pub spending_identities : List SpendingIdentity
unfolding for_kinds
spending_identities =
    identity_of spend_player1_funding player1 0
    ∷ identity_of spend_player2_opening player2 0
    ∷ for_kinds (
        spend_betting ∷ spend_board_reveal ∷ spend_showdown_reveal ∷ spend_all_in_call
        ∷ spend_all_in_reveal ∷ spend_concession ∷ spend_timeout ∷ spend_showdown ∷ [])

abbrev identity_eq : SpendingIdentity → SpendingIdentity → Bool
identity_eq a b = a.kind == b.kind && a.actor == b.actor && a.street == b.street && a.pass == b.pass

unfoldable pub listed : SpendingIdentity → List SpendingIdentity → Bool
listed i [] = false
listed i (j ∷ rest) = identity_eq j i || listed i rest

-- What the upstream builder is given: the spending path (none for the deposit), the funding
-- inputs behind the covenant's, and the outputs.
pub record Assembly : Type 0 where
  pub identity : Option SpendingIdentity
  pub inputs : List Source
  pub outputs : List TxOut

unfoldable pub first_output : MsgTx → Result TxOut
first_output tx = first tx.tx_out
  where
    first : List TxOut → Result TxOut
    first [] = err no_output
    first (out ∷ _) = ok out

-- liveValue
unfoldable pub live_value : Params → State → Result ℤ
live_value p s = do
  reject (ltb p.max_wager s.wager1 || ltb p.max_wager s.wager2) over_cap
  ok (int64 (2 * (p.stake + p.bond) + s.wager1 + s.wager2))

-- Contract.path, among the paths that every contract compiles.
unfoldable pub path : Contract → SpendingIdentity → Result Bytes
path c i = do
  guard c.valid invalid_contract
  guard (listed i spending_identities) no_path
  ok (c.program i)

abbrev change_outputs : Option TxOut → List TxOut
change_outputs none = []
change_outputs (some out) = out ∷ []

abbrev pub no_funding : Funding
no_funding = record { inputs = []; change = none }

module _ (lib : ArkLib) (c : Contract) where
  unfoldable pub live_predecessor : MsgTx → Result State
  live_predecessor previous = do
    guard c.valid invalid_contract
    out ← first_output previous
    s ← read_state lib previous
    guard (bytes_eq s.contract_id c.id) contract_mismatch
    value ← live_value c.params s
    guard (eqb_ℤ out.value value) bad_value
    ok s

  unfoldable pub exit_predecessor : MsgTx → Result (Phase × ℤ)
  exit_predecessor previous = do
    guard c.valid invalid_contract
    out ← first_output previous
    _ ← add_amount (pos 0) out.value
    header ← read_header lib previous
    guard
        (length header == header_len
          && le_value (slice header 0 2) == 1
          && bytes_eq (slice header 2 32) c.id)
        bad_packet
    phase ← decode_phase (le_value (slice header 34 1))
    ok (phase, out.value)

  -- buildLive, up to the call of buildAction.
  unfoldable pub build_live :
      MsgTx → Funding → SpendingIdentity → State → List Bytes → Result Assembly
  build_live previous funding identity successor witness = do
    reject (ltb (max_uint64 - deadline_interval) successor.deadline) deadline_overflow
    let next = advance successor
    value ← live_value c.params next
    out ← first_output previous
    reject (is_negative out.value || not (leb_ℤ out.value value)) bad_value
    _ ← validate_funding funding (sub_int64 value out.value)
    program ← path c identity
    packets ← action_extension lib (some next) (some (program, witness))
    data_out ← or_fail (lib.tx_out packets) bad_extension
    ok (record {
      identity = some identity;
      inputs = funding.inputs;
      outputs =
          record { value = value; pk_script = c.script }
          ∷ (change_outputs funding.change ++ (data_out ∷ []));
    })

  unfoldable pub build_terminal : SpendingIdentity → List TxOut → List Bytes → Result Assembly
  build_terminal identity payouts witness = do
    program ← path c identity
    packets ← action_extension lib none (some (program, witness))
    data_out ← or_fail (lib.tx_out packets) bad_extension
    ok (record { identity = some identity; inputs = []; outputs = payouts ++ (data_out ∷ []) })

  unfoldable pub initial_deposit : Funding → Result Assembly
  initial_deposit funding = do
    guard c.valid invalid_contract
    let required = int64 (c.params.stake + c.params.bond)
    _ ← validate_funding funding required
    packets ← action_extension lib (some (initial_state c.id c.params)) none
    data_out ← or_fail (lib.tx_out packets) bad_extension
    ok (record {
      identity = none;
      inputs = funding.inputs;
      outputs =
          record { value = required; pk_script = c.script }
          ∷ (change_outputs funding.change ++ (data_out ∷ []));
    })

  unfoldable pub bet : MsgTx → BettingAction → Funding → Result Assembly
  bet previous action funding = do
    s ← live_predecessor previous
    next ← bet_next c.params s action
    build_live previous funding (identity_of spend_betting s.phase.actor s.phase.street) next []

module _ (lib : ArkLib) (c : Contract) {Card : Type 0} (cards : CardLib Card) where
  unfoldable pub player1_funding_and_reveal : MsgTx → Funding → RevealWitness Card → Result Assembly
  player1_funding_and_reveal previous funding r = do
    guard c.valid invalid_contract
    out ← first_output previous
    guard (eqb_ℤ out.value (int64 (c.params.stake + c.params.bond))) bad_value
    s ← read_state lib previous
    (next, witness) ← player1_funding_next cards c.id c.params s r
    build_live lib c previous funding (identity_of spend_player1_funding player1 0) next witness

  unfoldable pub player2_reveal_and_opening :
      MsgTx → ℤ → Funding → RevealWitness Card → Result Assembly
  player2_reveal_and_opening previous opening_bet funding r = do
    s ← live_predecessor lib c previous
    (next, witness) ← opening_next cards c.params s opening_bet r
    build_live lib c previous funding (identity_of spend_player2_opening player2 0) next witness

  unfoldable pub board_reveal : MsgTx → RevealWitness Card → Result Assembly
  board_reveal previous r = do
    s ← live_predecessor lib c previous
    (next, witness) ← board_reveal_next cards c.params s r
    build_live lib c previous no_funding
        (identity_of spend_board_reveal s.phase.actor s.phase.street) next witness

  unfoldable pub showdown_reveal : MsgTx → RevealWitness Card → Result Assembly
  showdown_reveal previous r = do
    s ← live_predecessor lib c previous
    (next, witness) ← showdown_reveal_next cards c.params s r
    build_live lib c previous no_funding (identity_of spend_showdown_reveal s.phase.actor 0) next
        witness

  unfoldable pub all_in_call : MsgTx → Funding → RevealWitness Card → Result Assembly
  all_in_call previous funding r = do
    s ← live_predecessor lib c previous
    (next, witness) ← all_in_call_next cards c.params s r
    build_live lib c previous funding (identity_of spend_all_in_call s.phase.actor s.phase.street)
        next witness

  unfoldable pub all_in_reveal : MsgTx → RevealWitness Card → Result Assembly
  all_in_reveal previous r = do
    s ← live_predecessor lib c previous
    (next, witness) ← all_in_reveal_next cards c.params s r
    build_live lib c previous no_funding
        (identity_of spend_all_in_reveal s.phase.actor s.phase.street) next witness

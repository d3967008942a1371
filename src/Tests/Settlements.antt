-- ===== src/Tests/Settlements.antt =====
-- The theorems on the three settlements at concrete transactions.
use arkade_poker.Prelude.{
  ℕ, ◌+◌, ◌≡◌, ◌≤◌, ◌<◌, ◌⊎◌, refl, ok, [], ◌∷◌, pos, ℤ, put, le_bytes, le_value, if◌then◌else◌,
  ◌==◌, some,
}
use arkade_poker.Covenant.Types.{Phase, TxOut, player1, player2, other_player}
use arkade_poker.Covenant.Phase.{encode_phase, decode_phase, required_actor}
use arkade_poker.Covenant.Amounts.{add_amount}
use arkade_poker.Covenant.Packets.{
  encode_state, decode_state, encode_header, write_reveals, put_at, read_header, read_state,
  poker_records, sort_packets, sized_records, decode_records, read_reveals, action_extension,
}
use arkade_poker.Covenant.Build.{
  Assembly, build_terminal, exit_predecessor, live_predecessor, first_output, live_value, path,
  listed, spending_identities, identity_of,
}
use arkade_poker.Covenant.Terminal.{
  concession, timeout, showdown, concession_payouts, timeout_beneficiary, showdown_payouts, payout,
  encode_showdown_witness, encode_proof, check_cards, seen,
}
use arkade_poker.Covenant.Terminal.Settlements.{concession_pays, timeout_pays, showdown_pays}
use arkade_poker.Covenant.Terminal.Payouts.{shares}
use arkade_poker.Samples.{
  raised, showing, holding, sample_contract, terms-IsAgreed, evaluation, claim,
}

abbrev data_out : TxOut
data_out = record { value = pos 0; pk_script = 106 ∷ [] }

abbrev conceded : Assembly
conceded = record {
  identity = some (identity_of 8 1 0);
  inputs = [];
  outputs =
      record { value = pos 5000; pk_script = 11 ∷ [] }
      ∷ record { value = pos 18000; pk_script = 22 ∷ [] }
      ∷ data_out
      ∷ [];
}

conceded_built : concession (showing raised) sample_contract (holding 23000) ≡ ok conceded
unfolding concession concession_payouts exit_predecessor live_predecessor first_output read_header
    read_state add_amount poker_records sort_packets sized_records decode_records read_reveals
    encode_state encode_header encode_phase write_reveals put_at put decode_state decode_phase
    action_extension path listed spending_identities build_terminal payout le_bytes le_value
conceded_built = refl

concession_pays_example :
    (x : Phase) × (v : ℤ) × (extra : TxOut) × (exit_predecessor
        (showing raised)
        sample_contract
        (holding 23000)
      ≡ ok (x, v))
    × ((x.actor ≡ player1) ⊎ (x.actor ≡ player2))
    × (5000 ≤ 23000)
    × (let (n1, n2) = shares (other_player x.actor) 23000 5000 in
        conceded.outputs
        ≡ record { value = pos n1; pk_script = 11 ∷ [] }
          ∷ record { value = pos n2; pk_script = 22 ∷ [] }
          ∷ extra
          ∷ [])
concession_pays_example =
    concession_pays (showing raised) sample_contract (holding 23000) conceded conceded_built

abbrev timed_out : Assembly
timed_out = record {
  identity = some (identity_of 9 2 0);
  inputs = [];
  outputs = record { value = pos 23000; pk_script = 22 ∷ [] } ∷ data_out ∷ [];
}

timed_out_built : timeout (showing raised) sample_contract (holding 23000) ≡ ok timed_out
unfolding timeout timeout_beneficiary required_actor exit_predecessor live_predecessor first_output
    read_header read_state add_amount poker_records sort_packets sized_records decode_records
    read_reveals encode_state encode_header encode_phase write_reveals put_at put decode_state
    decode_phase action_extension path listed spending_identities build_terminal payout le_bytes
    le_value
timed_out_built = refl

timeout_pays_example :
    (x : Phase) × (v : ℤ) × (actor : ℕ) × (extra : TxOut) × (exit_predecessor
        (showing raised)
        sample_contract
        (holding 23000)
      ≡ ok (x, v))
    × (required_actor x ≡ ok actor)
    × (1 ≤ actor)
    × (timed_out.outputs
        ≡ record { value = pos 23000; pk_script = if actor == player1 then 22 ∷ [] else 11 ∷ [] }
          ∷ extra
          ∷ [])
timeout_pays_example =
    timeout_pays (showing raised) sample_contract (holding 23000) timed_out timed_out_built

abbrev shown : Assembly
shown = record {
  identity = some (identity_of 10 1 0);
  inputs = [];
  outputs =
      record { value = pos 21000; pk_script = 11 ∷ [] }
      ∷ record { value = pos 5000; pk_script = 22 ∷ [] }
      ∷ data_out
      ∷ [];
}

shown_built : showdown (showing evaluation) sample_contract (holding 26000) 1 claim ≡ ok shown
unfolding showdown showdown_payouts live_value encode_showdown_witness encode_proof check_cards seen
    exit_predecessor live_predecessor first_output read_header read_state add_amount poker_records
    sort_packets sized_records decode_records read_reveals encode_state encode_header encode_phase
    write_reveals put_at put decode_state decode_phase action_extension path listed
    spending_identities build_terminal payout le_bytes le_value
shown_built = refl

showdown_pays_example :
    (n1 : ℕ) × (n2 : ℕ) × (extra : TxOut) × (shown.outputs
      ≡ record { value = pos n1; pk_script = 11 ∷ [] }
        ∷ record { value = pos n2; pk_script = 22 ∷ [] }
        ∷ extra
        ∷ [])
    × (n1 + n2 ≡ 26000)
    × (((12 < 7000) × (n2 ≡ 5000))
        ⊎ (((7000 < 12) × (n1 ≡ 5000)) ⊎ ((◌≡◌ {A = ℕ} 7000 12) × (n1 ≡ n2))))
showdown_pays_example =
    showdown_pays (showing evaluation) sample_contract terms-IsAgreed (holding 26000) 1 claim shown
      shown_built

-- ===== src/Tests/Money.antt =====
-- The theorems on amounts, spends and settlements at concrete inputs.
use arkade_poker.Prelude.{◌+◌, ◌≡◌, ◌≤◌, ◌⊎◌, refl, ok, some, none, [], ◌∷◌, pos}
use arkade_poker.Covenant.Types.{TxOut, Funding, State}
use arkade_poker.Covenant.Phase.{encode_phase}
use arkade_poker.Covenant.Amounts.{
  Terms, validate_terms, validate_amounts, validate_funding, sum_inputs, source_output, add_amount,
}
use arkade_poker.Covenant.Amounts.Agreement.{validate_terms-validate_amounts}
use arkade_poker.Covenant.Amounts.Totals.{stated_total, validate_funding_balance}
use arkade_poker.Covenant.Packets.{encode_state, action_extension}
use arkade_poker.Covenant.Build.{
  Assembly, build_live, first_output, live_value, path, listed, spending_identities, identity_of,
}
use arkade_poker.Covenant.Build.Balance.{build_live_balance, head_value}
use arkade_poker.Samples.{
  raised, holding, wallet_input, sample_contract, sample_lib, terms-IsAgreed,
}

abbrev wallet_funding : Funding
wallet_funding = record {
  inputs = wallet_input 4000 ∷ [];
  change = some (record { value = pos 1500; pk_script = 9 ∷ [] });
}

validate_terms-validate_amounts_example :
    let t : Terms = record {
      stake = pos 5000;
      bond = pos 5000;
      min_bet = pos 500;
      max_wager = pos 100000;
    } in
    validate_terms t ≡ validate_amounts t
validate_terms-validate_amounts_example =
    validate_terms-validate_amounts
      (record { stake = pos 5000; bond = pos 5000; min_bet = pos 500; max_wager = pos 100000 })

funding_admitted : validate_funding wallet_funding (pos 2500) ≡ ok tt
unfolding validate_funding sum_inputs source_output add_amount
funding_admitted = refl

validate_funding_balance_example :
    (stated_total (wallet_input 4000 ∷ []) ≡ 2500 + 1500)
    × ((1 ≤ 2500) ⊎ ((wallet_funding.inputs ≡ []) × (wallet_funding.change ≡ none)))
validate_funding_balance_example = validate_funding_balance wallet_funding 2500 funding_admitted

abbrev data_out : TxOut
data_out = record { value = pos 0; pk_script = 106 ∷ [] }

abbrev reraised : State
reraised = record raised { wager1 = 3500 }

abbrev live_spend : Assembly
live_spend = record {
  identity = some (identity_of 3 1 2);
  inputs = wallet_funding.inputs;
  outputs =
      record { value = pos 25500; pk_script = 81 ∷ [] }
      ∷ record { value = pos 1500; pk_script = 9 ∷ [] }
      ∷ data_out
      ∷ [];
}

live_spend_built :
    build_live sample_lib sample_contract
      (holding 23000)
      wallet_funding
      (identity_of 3 1 2)
      reraised
      []
    ≡ ok live_spend
unfolding build_live live_value first_output validate_funding sum_inputs source_output add_amount
    path listed spending_identities action_extension encode_state encode_phase
live_spend_built = refl

build_live_balance_example :
    (head_value live_spend ≡ 25500) × (23000 + stated_total live_spend.inputs ≡ 25500 + 1500)
build_live_balance_example =
    build_live_balance sample_lib sample_contract terms-IsAgreed (holding 23000) wallet_funding
      (identity_of 3 1 2) reraised [] live_spend live_spend_built

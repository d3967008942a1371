-- ===== src/Tests/Wallet.antt =====
-- The theorems on the wallet's coins at concrete records.
use mathlib.Core.List.{Memᴰ}
use arkade_poker.Prelude.{
  ℕ, ◌≡◌, ◌≤◌, true, false, List, [], ◌∷◌, Option, none, some, ok, Result, pos, length, arith, refl,
}
use arkade_poker.Covenant.Types.{Bytes, MsgTx, Source, Funding}
use arkade_poker.Covenant.Amounts.{max_money, validate_funding}
use arkade_poker.Covenant.Amounts.Totals.{stated}
use arkade_poker.Merkel.Tree.{greater}
use arkade_poker.Wallet.Records.{
  Vtxo, balance_of, add_up, strange, used_up, has_assets, check_output,
}
use arkade_poker.Wallet.Records.Totals.{spendable, balance_of-spendable}
use arkade_poker.Wallet.Funding.{
  OutputPolicy, before, insert_source, sort_sources, candidates, choose_coins, select_funding,
  source_from,
}
use arkade_poker.Wallet.Funding.Admitted.{ChangeFits, select_funding-validate_funding}
use arkade_poker.Wallet.Funding.Exact.{select_funding-balance_of, select_funding_exact}

abbrev coins_tx : MsgTx
coins_tx = record {
  tx_hash = 5 ∷ [];
  tx_out =
      record { value = pos 3000; pk_script = 9 ∷ [] }
      ∷ record { value = pos 7000; pk_script = 9 ∷ [] }
      ∷ record { value = pos 8000; pk_script = 9 ∷ [] }
      ∷ [];
}

abbrev coin : ℕ → ℕ → Vtxo
coin index amount = record {
  outpoint = record { hash = 5 ∷ []; index = index };
  script = 9 ∷ [];
  amount = pos amount;
  expires_at = pos 2000;
  spent = false;
  swept = false;
  unrolled = false;
  spent_by = none;
  settled_by = none;
  ark_tx_id = none;
  assets = [];
}

-- Two coins to spend and a spent one.
abbrev records : List Vtxo
records = coin 0 3000 ∷ record (coin 2 8000) { spent = true } ∷ coin 1 7000 ∷ []

abbrev indexer : Bytes → Result (Option MsgTx)
indexer _ = ok (some coins_tx)

abbrev policy : OutputPolicy
policy = record { min_amount = 330; max_amount = 100000 }

balance_of-records : balance_of (9 ∷ []) (pos 1000) records ≡ ok 10000
unfolding balance_of add_up strange used_up has_assets
balance_of-records = refl

balance_of-spendable_example : (10000 ≡ spendable (pos 1000) records) × (10000 ≤ max_money)
balance_of-spendable_example =
    balance_of-spendable (9 ∷ []) (pos 1000) records 10000 balance_of-records

abbrev funded : Funding
funded = record {
  inputs = source_from (coin 1 7000) coins_tx ∷ source_from (coin 0 3000) coins_tx ∷ [];
  change = some (record { value = pos 1000; pk_script = 9 ∷ [] });
}

funded_9000 :
    select_funding policy (9 ∷ []) indexer (ok records) (pos 1000) (ok tt) (pos 9000) ≡ ok funded
unfolding select_funding candidates sort_sources insert_source before greater choose_coins
    check_output strange used_up has_assets
funded_9000 = refl

select_funding-validate_funding_example :
    (validate_funding funded (pos 9000) ≡ ok tt)
    × (length funded.inputs ≤ 255)
    × ChangeFits policy (9 ∷ []) funded.change
select_funding-validate_funding_example =
    select_funding-validate_funding policy (9 ∷ []) indexer (ok records) (pos 1000) (ok tt) 9000
      funded funded_9000

select_funding-balance_of_example :
    (b : ℕ) × (balance_of (9 ∷ []) (pos 1000) records ≡ ok b) × (9000 ≤ b)
select_funding-balance_of_example =
    select_funding-balance_of policy (9 ∷ []) indexer records (pos 1000) (ok tt) 9000 funded
      (omega arith) funded_9000

abbrev one_coin : Funding
one_coin = record { inputs = source_from (coin 0 3000) coins_tx ∷ []; change = none }

abbrev both_coins : List Source × ℕ
both_coins = (source_from (coin 0 3000) coins_tx ∷ source_from (coin 1 7000) coins_tx ∷ [], 10000)

funded_3000 :
    select_funding policy (9 ∷ []) indexer (ok records) (pos 1000) (ok tt) (pos 3000) ≡ ok one_coin
unfolding select_funding candidates sort_sources insert_source before greater choose_coins
    check_output strange used_up has_assets
funded_3000 = refl

candidates-records : candidates indexer (9 ∷ []) (pos 1000) [] 0 records ≡ ok both_coins
unfolding candidates check_output strange used_up has_assets
candidates-records = refl

select_funding_exact_example :
    (t : Source) × (one_coin ≡ record { inputs = t ∷ []; change = none }) × (stated t.amount ≡ 3000)
select_funding_exact_example =
    select_funding_exact policy (9 ∷ []) indexer records (pos 1000) (ok tt) 3000 one_coin both_coins
      (source_from (coin 0 3000) coins_tx) (omega arith) funded_3000 candidates-records
      (Memᴰ.head refl) refl

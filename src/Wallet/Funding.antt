-- ===== src/Wallet/Funding.antt =====
-- SelectFunding of internal/wallet/funding.go. The indexer's answers and the wallet's spending
-- path are parameters.
pub mod Candidates
pub mod Admitted
pub mod Exact
use arkade_poker.Prelude.{
  ℕ, ◌+◌, ◌-◌, Bool, true, false, not, ◌&&◌, ◌||◌, List, [], ◌∷◌, ◌++◌, Option, none, some, ltb,
  leb, ◌==◌, if◌then◌else◌, length, ℤ, pos, negsuc, leb_ℤ, eqb_ℤ, is_negative, Result, ok, err,
  ◌>>=◌, ◌>>◌, reject, or_fail, bad_policy, bad_index, record_limit, input_limit, no_change_fits,
  insufficient_funds,
}
use arkade_poker.Covenant.Types.{Bytes, MsgTx, Source, Funding}
use arkade_poker.Covenant.Amounts.{max_money}
use arkade_poker.Covenant.Amounts.Totals.{stated}
use arkade_poker.Merkel.Tree.{greater}
use arkade_poker.Wallet.Records.{
  OutPoint, Vtxo, strange, used_up, satoshis, has_assets, check_output,
}

-- Both are positive once the service's policy is admitted.
pub record OutputPolicy : Type 0 where
  pub min_amount : ℕ
  pub max_amount : ℕ

abbrev pub hash_of : Source → Bytes
hash_of s = elim s.outpoint [ none ↦ [] | some p ↦ p.0 ]

abbrev pub index_of : Source → ℕ
index_of s = elim s.outpoint [ none ↦ 0 | some p ↦ p.1 ]

-- Whether the comparison puts the first source before the second
unfoldable pub before : ℕ → Source → Source → Bool
before amount a b =
    if stated a.amount == amount
    then (if stated b.amount == amount then rest else true)
    else (if stated b.amount == amount then false else rest)
  where
    rest : Bool
    rest =
        if ltb (stated b.amount) (stated a.amount)
        then true
        else (if ltb (stated a.amount) (stated b.amount)
            then false
            else (if greater (hash_of b) (hash_of a)
                then true
                else (if greater (hash_of a) (hash_of b)
                    then false
                    else ltb (index_of a) (index_of b))))

-- slices.SortFunc: the comparison is total on distinct outpoints, so the order is the only one.
unfoldable pub insert_source : ℕ → Source → List Source → List Source
insert_source amount s [] = s ∷ []
insert_source amount s (t ∷ ts) =
    if before amount s t then s ∷ t ∷ ts else t ∷ insert_source amount s ts

unfoldable pub sort_sources : ℕ → List Source → List Source
unfolding insert_source
sort_sources amount [] = []
sort_sources amount (s ∷ ss) = insert_source amount s (sort_sources amount ss)

abbrev pub source_from : Vtxo → MsgTx → Source
source_from r tx = record {
  outpoint = some (r.outpoint.hash, r.outpoint.index);
  amount = r.amount;
  previous_tx = some tx;
}

-- The loop over the records: the candidates and what they are worth
unfoldable pub candidates :
    (Bytes → Result (Option MsgTx))
    → Bytes
    → ℤ
    → List OutPoint
    → ℕ
    → List Vtxo
    → Result (List Source × ℕ)
unfolding check_output
candidates transaction script now seen available [] = ok ([], available)
candidates transaction script now seen available (r ∷ rest) =
    let skip = candidates transaction script now (r.outpoint ∷ seen) available rest in
    reject (strange script seen r) bad_policy
    >> (if used_up now r
        then skip
        else (satoshis r.amount >>= (λ amount. if amount == 0 || has_assets r then skip else (do
          answer ← transaction r.outpoint.hash
          previous ← or_fail answer bad_index
          check_output r previous
          reject (ltb (max_money - available) amount) bad_policy
          more ← candidates transaction script now (r.outpoint ∷ seen) (available + amount) rest
          ok (source_from r previous ∷ more.0, more.1)))))

-- The loop over the sorted candidates. The totals stay at most `max_money`, so
-- `total - amount > MaxAmount` reads as below.
unfoldable pub choose_coins :
    OutputPolicy → Bytes → ℕ → ℕ → List Source → List Source → Result Funding
choose_coins policy script amount selected inputs [] = err no_change_fits
choose_coins policy script amount selected inputs (s ∷ rest) =
    let total = selected + stated s.amount in
    let more = choose_coins policy script amount total (inputs ++ (s ∷ [])) rest in
    if ltb (amount + policy.max_amount) total
    then choose_coins policy script amount selected inputs rest
    else (if ltb 255 (length (inputs ++ (s ∷ [])))
        then err input_limit
        else (if ltb total amount
            then more
            else (if total == amount
                then ok (record { inputs = inputs ++ (s ∷ []); change = none })
                else (if leb policy.min_amount (total - amount)
                    then ok (record {
                      inputs = inputs ++ (s ∷ []);
                      change = some (record { value = pos (total - amount); pk_script = script });
                    })
                    else more))))

module _ (policy : OutputPolicy) (script : Bytes) (transaction : Bytes → Result (Option MsgTx))
    (vtxos : Result (List Vtxo)) (now : ℤ) (path : Result (Unit {0})) where
  -- SelectFunding, without its context; `path` is the outcome of fundingTree and of the proof for its leaf.
  unfoldable pub select_funding : ℤ → Result Funding
  unfolding candidates sort_sources choose_coins
  select_funding amount = satoshis amount >>= (λ sats.
      if sats == 0 then ok (record { inputs = []; change = none }) else (do
        records ← vtxos
        reject (is_negative now) bad_policy
        reject (ltb 10000 (length records)) record_limit
        path
        found ← candidates transaction script now [] 0 records
        reject (ltb found.1 sats) (insufficient_funds sats found.1)
        choose_coins policy script sats 0 [] (sort_sources sats found.0)))

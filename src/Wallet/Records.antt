-- ===== src/Wallet/Records.antt =====
-- internal/ports/indexer.go, checkOutput of internal/wallet/indexer.go and Balance of
-- internal/wallet/balance.go. The indexer's answers are parameters.
pub mod Totals
use arkade_poker.Prelude.{
  ℕ, ◌+◌, ◌-◌, Bool, true, false, not, ◌&&◌, ◌||◌, List, [], ◌∷◌, Option, none, some, ltb, leb,
  ◌==◌, if◌then◌else◌, length, ℤ, pos, negsuc, leb_ℤ, eqb_ℤ, is_negative, get_elem?, Result, ok,
  err, ◌>>=◌, ◌>>◌, reject, or_fail, bad_policy, bad_index,
}
use arkade_poker.Covenant.Types.{Bytes, MsgTx}
use arkade_poker.Covenant.Amounts.{max_money, bytes_eq}

pub record OutPoint : Type 0 where
  pub hash : Bytes
  pub index : ℕ

pub record Asset : Type 0 where
  pub id : Bytes
  pub amount : ℕ

-- A record of the indexer, cut down to what the wallet's own coins are chosen by.
pub record Vtxo : Type 0 where
  pub outpoint : OutPoint
  pub script : Bytes
  pub amount : ℤ
  pub expires_at : ℤ
  pub spent : Bool
  pub swept : Bool
  pub unrolled : Bool
  pub spent_by : Option Bytes
  pub settled_by : Option Bytes
  pub ark_tx_id : Option Bytes
  pub assets : List Asset

abbrev present : Option Bytes → Bool
present none = false
present (some _) = true

abbrev same_point : OutPoint → OutPoint → Bool
same_point a b = bytes_eq a.hash b.hash && a.index == b.index

abbrev seen_point : List OutPoint → OutPoint → Bool
seen_point [] point = false
seen_point (p ∷ ps) point = same_point p point || seen_point ps point

-- The record is not one of the script's, comes twice or has no expiry.
unfoldable pub strange : Bytes → List OutPoint → Vtxo → Bool
strange script seen r =
    not (bytes_eq r.script script) || (seen_point seen r.outpoint || leb_ℤ r.expires_at (pos 0))

unfoldable pub used_up : ℤ → Vtxo → Bool
used_up now r =
    leb_ℤ r.expires_at now
    || (r.spent
        || (r.swept
            || (r.unrolled
                || (present r.spent_by || (present r.ark_tx_id || present r.settled_by)))))

-- `Amount < 0 || Amount > MaxSatoshi`, and the amount after it
abbrev pub satoshis : ℤ → Result ℕ
satoshis (negsuc a) = err bad_policy
satoshis (pos a) = reject (ltb max_money a) bad_policy >> ok a

unfoldable pub has_assets : Vtxo → Bool
has_assets r = ltb 0 (length r.assets)

unfoldable pub check_output : Vtxo → MsgTx → Result (Unit {0})
check_output r tx = do
  reject
      (not (bytes_eq tx.tx_hash r.outpoint.hash)
        || (leb (length tx.tx_out) r.outpoint.index
            || (is_negative r.amount || not (leb_ℤ r.amount (pos max_money)))))
      bad_index
  out ← or_fail (get_elem? tx.tx_out r.outpoint.index) bad_index
  reject (not (eqb_ℤ r.amount out.value) || not (bytes_eq r.script out.pk_script)) bad_index

-- The loop of Balance. The balance stays at most `max_money`, so its difference is exact.
unfoldable pub add_up : Bytes → ℤ → List OutPoint → ℕ → List Vtxo → Result ℕ
add_up script now seen balance [] = ok balance
add_up script now seen balance (r ∷ rest) =
    let skip = add_up script now (r.outpoint ∷ seen) balance rest in
    reject (strange script seen r) bad_policy
    >> (if used_up now r
        then skip
        else (satoshis r.amount >>= (λ amount.
            if has_assets r
            then skip
            else (reject (ltb (max_money - balance) amount) bad_policy
                >> add_up script now (r.outpoint ∷ seen) (balance + amount) rest))))

-- Balance, after its test for a taproot script, on the records and the time that it reads.
unfoldable pub balance_of : Bytes → ℤ → List Vtxo → Result ℕ
unfolding add_up
balance_of script now records = do
  reject (is_negative now || ltb 10000 (length records)) bad_policy
  add_up script now [] 0 records

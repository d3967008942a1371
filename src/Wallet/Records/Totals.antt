-- ===== src/Wallet/Records/Totals.antt =====
-- The rounds of the loop of Balance.
use arkade_poker.Prelude.{
  ℕ, ◌+◌, ◌-◌, ◌≡◌, ◌≤◌, true, false, List, [], ◌∷◌, ltb, length, is_negative, ℤ, ok, arith, reject,
  bad_policy, if◌then◌else◌, ◌⊎◌, ◌||◌, >>=-eq-ok, Bool-cases, inl, inr,
}
use arkade_poker.Covenant.Types.{Bytes}
use arkade_poker.Covenant.Amounts.{max_money}
use arkade_poker.Covenant.Amounts.Totals.{stated}
use arkade_poker.Wallet.Records.{
  OutPoint, Vtxo, strange, used_up, satoshis, has_assets, add_up, balance_of,
}

module _ (script : Bytes) (now : ℤ) (seen : List OutPoint) (balance : ℕ) (r : Vtxo)
    (rest : List Vtxo) where
  pub add_up-used_up :
      strange script seen r ≡ false
      → used_up now r ≡ true
      → add_up script now seen balance (r ∷ rest)
        ≡ add_up script now (r.outpoint ∷ seen) balance rest
  unfolding add_up
  add_up-used_up s f = ground arith

  pub add_up-assets :
      (n : ℕ)
      → strange script seen r ≡ false
      → used_up now r ≡ false
      → satoshis r.amount ≡ ok n
      → has_assets r ≡ true
      → add_up script now seen balance (r ∷ rest)
        ≡ add_up script now (r.outpoint ∷ seen) balance rest
  unfolding add_up
  add_up-assets n s f a has = ground arith

  pub add_up-counted :
      (n : ℕ)
      → strange script seen r ≡ false
      → used_up now r ≡ false
      → satoshis r.amount ≡ ok n
      → has_assets r ≡ false
      → ltb (max_money - balance) n ≡ false
      → add_up script now seen balance (r ∷ rest)
        ≡ add_up script now (r.outpoint ∷ seen) (balance + n) rest
  unfolding add_up
  add_up-counted n s f a has fits = ground arith

-- What the records that can be spent are worth.
unfoldable pub spendable : ℤ → List Vtxo → ℕ
spendable now [] = 0
spendable now (r ∷ rest) =
    if used_up now r || has_assets r
    then spendable now rest
    else stated r.amount + spendable now rest

-- What one round of the loop of Balance comes to, by its tests.
add_up-cases :
    (script : Bytes) (now : ℤ) (seen : List OutPoint) (balance : ℕ) (r : Vtxo) (rest : List Vtxo)
    (b : ℕ)
    → balance ≤ max_money
    → add_up script now seen balance (r ∷ rest) ≡ ok b
    → (((used_up now r || has_assets r) ≡ true)
        × (add_up script now (r.outpoint ∷ seen) balance rest ≡ ok b))
      ⊎ (((used_up now r || has_assets r) ≡ false)
          × (balance + stated r.amount ≤ max_money)
          × (add_up script now (r.outpoint ∷ seen) (balance + stated r.amount) rest ≡ ok b))
unfolding add_up
add_up-cases script now seen balance r rest b small h =
    let (_, _, h1) = >>=-eq-ok (reject (strange script seen r) bad_policy) _ h in
    elim (Bool-cases (used_up now r)) [
      | inl f ↦ inl (ground arith, rw f at h1)
      | inr f ↦ let (n, a, h2) = >>=-eq-ok (satoshis r.amount) _ (rw f at h1) in ground arith
    ]

add_up-spendable :
    (script : Bytes) (now : ℤ) (records : List Vtxo) (seen : List OutPoint) (balance b : ℕ)
    → balance ≤ max_money
    → add_up script now seen balance records ≡ ok b
    → (b ≡ balance + spendable now records) × (b ≤ max_money)
unfolding spendable add_up
add_up-spendable script now [] seen balance b small h = ground arith
add_up-spendable script now (r ∷ rest) seen balance b small h =
    elim (add_up-cases script now seen balance r rest b small h) [
      | inl (skip, e) ↦
          ground
            (arith, skip, add_up-spendable script now rest (r.outpoint ∷ seen) balance b small e)
      | inr (count, fits, e) ↦ ground (
        arith,
        count,
        add_up-spendable script now rest (r.outpoint ∷ seen) (balance + stated r.amount) b fits e,
      )
    ]

-- The balance shown is what the spendable records are worth, and is at most all the money there
-- is.
pub balance_of-spendable :
    (script : Bytes) (now : ℤ) (records : List Vtxo) (b : ℕ)
    → balance_of script now records ≡ ok b
    → (b ≡ spendable now records) × (b ≤ max_money)
unfolding balance_of
balance_of-spendable script now records b h =
    let (_, _, e) =
      >>=-eq-ok (reject (is_negative now || ltb 10000 (length records)) bad_policy) _ h in
    ground (arith, add_up-spendable script now records [] 0 b (omega arith) e)

-- ===== src/Wallet/Funding/Candidates.antt =====
-- The candidates that SelectFunding takes from the indexer's records.
use arkade_poker.Prelude.{
  ℕ, ◌+◌, ◌-◌, ◌≡◌, ◌≤◌, ◌⊎◌, inl, inr, Bool, true, false, ◌||◌, List, [], ◌∷◌, Option, ltb, ◌==◌,
  get_elem?, ℤ, pos, negsuc, Result, ok, arith, ◌>>=◌, ◌>>◌, reject, or_fail, bad_policy, bad_index,
  >>=-eq-ok, ok-inj, Bool-cases, Option-cases, All, refl, ap, ◌∙◌, Error, sym, subst,
}
use arkade_poker.Covenant.Types.{Bytes, TxOut, MsgTx, Source}
use arkade_poker.Covenant.Amounts.{max_money, source_output}
use arkade_poker.Covenant.Amounts.Totals.{stated, stated_total}
use arkade_poker.Wallet.Records.{
  OutPoint, Vtxo, strange, used_up, satoshis, has_assets, check_output, add_up,
}
use arkade_poker.Wallet.Records.Totals.{add_up-used_up, add_up-assets, add_up-counted}
use arkade_poker.Wallet.Funding.{source_from, candidates}

-- The covenant's own check of a source passes, at the amount that is stated for it.
abbrev pub Sound : Source → Type 0
Sound s = (out : TxOut) × (source_output s ≡ ok out) × (out.value ≡ pos (stated s.amount))

check_output-Sound : (r : Vtxo) (tx : MsgTx) → check_output r tx ≡ ok tt → Sound (source_from r tx)
unfolding check_output source_output
check_output-Sound r tx h = elim (Option-cases (get_elem? tx.tx_out r.outpoint.index)) [
  | inl e ↦ ground arith
  | inr (out, e) ↦ (out, ground arith, ground arith)
]

-- What the loop leaves of the records, next to the sum that Balance takes of them.
abbrev pub Counted : ℕ → Result ℕ → List Source × ℕ → Type 0
Counted available sum found =
    (sum ≡ ok found.1)
    × All Sound found.0
    × (available + stated_total found.0 ≡ found.1)
    × (found.1 ≤ max_money)

rejected : (b : Bool) (e : Error) → reject b e ≡ ok tt → b ≡ false
rejected b e h = ground arith

Counted-by :
    (available : ℕ) {sum other : Result ℕ} (found : List Source × ℕ)
    → sum ≡ other
    → Counted available other found
    → Counted available sum found
Counted-by available found e c = subst (λ r. Counted available r found) (sym e) c

-- A coin more at the front.
Counted-more :
    (available n : ℕ) (sum : Result ℕ) (s : Source) (more : List Source × ℕ)
    → stated s.amount ≡ n
    → Sound s
    → Counted (available + n) sum more
    → Counted available sum (s ∷ more.0, more.1)
unfolding stated_total
Counted-more available n sum s more a sound (e, all, total, le) =
    (e, (sound, all), omega (arith, a, total), le)

satoshis-stated : (a : ℤ) (n : ℕ) → satoshis a ≡ ok n → stated a ≡ n
satoshis-stated (pos a) n h = ground arith
satoshis-stated (negsuc a) n h = ground arith

module _ (transaction : Bytes → Result (Option MsgTx)) (script : Bytes) (now : ℤ) where
  -- What a round that succeeds has found: nothing to take, or a record whose output is checked.
  abbrev Taken : List OutPoint → ℕ → Vtxo → List Vtxo → List Source × ℕ → ℕ → Type 0
  Taken seen available r rest found n =
      (previous : MsgTx) × (more : List Source × ℕ) × (check_output r previous ≡ ok tt)
      × (ltb (max_money - available) n ≡ false)
      × (candidates transaction script now (r.outpoint ∷ seen) (available + n) rest ≡ ok more)
      × (found ≡ (source_from r previous ∷ more.0, more.1))

  taken :
      (seen : List OutPoint) (available : ℕ) (r : Vtxo) (rest : List Vtxo) (found : List Source × ℕ)
      (n : ℕ)
      → (do
        answer ← transaction r.outpoint.hash
        previous ← or_fail answer bad_index
        check_output r previous
        reject (ltb (max_money - available) n) bad_policy
        more ← candidates transaction script now (r.outpoint ∷ seen) (available + n) rest
        ok (source_from r previous ∷ more.0, more.1))
        ≡ ok found
      → Taken seen available r rest found n
  taken seen available r rest found n h =
      let (answer, _, h1) = >>=-eq-ok (transaction r.outpoint.hash) _ h in
      let (previous, _, h2) = >>=-eq-ok (or_fail answer bad_index) _ h1 in
      let (_, c, h3) = >>=-eq-ok (check_output r previous) _ h2 in
      let (_, fits, h4) = >>=-eq-ok (reject (ltb (max_money - available) n) bad_policy) _ h3 in
      let (more, e, h5) =
        >>=-eq-ok (candidates transaction script now (r.outpoint ∷ seen) (available + n) rest) _
          h4 in
      (
        previous,
        more,
        c,
        rejected (ltb (max_money - available) n) bad_policy fits,
        e,
        sym (ok-inj h5),
      )

  candidates-cases :
      (seen : List OutPoint) (available : ℕ) (r : Vtxo) (rest : List Vtxo) (found : List Source × ℕ)
      → candidates transaction script now seen available (r ∷ rest) ≡ ok found
      → (strange script seen r ≡ false)
        × (((used_up now r ≡ true)
              × (candidates transaction script now (r.outpoint ∷ seen) available rest ≡ ok found))
            ⊎ ((n : ℕ) × (used_up now r ≡ false)
                × (satoshis r.amount ≡ ok n)
                × ((((n == 0 || has_assets r) ≡ true)
                      × (candidates transaction script now (r.outpoint ∷ seen) available rest
                          ≡ ok found))
                    ⊎ ((has_assets r ≡ false) × Taken seen available r rest found n))))
  unfolding candidates
  candidates-cases seen available r rest found h =
      let (_, e, h1) = >>=-eq-ok (reject (strange script seen r) bad_policy) _ h in
      (
        rejected (strange script seen r) bad_policy e,
        elim (Bool-cases (used_up now r)) [
          | inl f ↦ inl (f, rw f at h1)
          | inr f ↦
              let (n, a, h2) = >>=-eq-ok (satoshis r.amount) _ (rw f at h1) in
              inr (
                n,
                f,
                a,
                elim (Bool-cases (n == 0 || has_assets r)) [
                  | inl skip ↦ inl (skip, rw skip at h2)
                  | inr take ↦
                      inr (ground arith, taken seen available r rest found n (rw take at h2))
                ],
              )
        ],
      )

  -- A record of nothing adds nothing.
  add_up-skipped :
      (seen : List OutPoint) (available : ℕ) (r : Vtxo) (rest : List Vtxo) (n : ℕ)
      → strange script seen r ≡ false
      → used_up now r ≡ false
      → satoshis r.amount ≡ ok n
      → (n == 0 || has_assets r) ≡ true
      → add_up script now seen available (r ∷ rest)
        ≡ add_up script now (r.outpoint ∷ seen) available rest
  add_up-skipped seen available r rest n s f a skip = elim (Bool-cases (has_assets r)) [
    | inl has ↦ add_up-assets script now seen available r rest n s f a has
    | inr has ↦
        add_up-counted script now seen available r rest n s f a has (ground arith)
        ∙ ap (λ b. add_up script now (r.outpoint ∷ seen) b rest) (ground arith)
  ]

  pub candidates-Counted :
      (records : List Vtxo) (seen : List OutPoint) (available : ℕ) (found : List Source × ℕ)
      → available ≤ max_money
      → candidates transaction script now seen available records ≡ ok found
      → Counted available (add_up script now seen available records) found
  unfolding stated_total add_up candidates
  candidates-Counted [] seen available found small h =
      subst (Counted available (ok available)) (ok-inj h) (refl, tt, omega arith, small)
  candidates-Counted (r ∷ rest) seen available found small h =
      let (s, next) = candidates-cases seen available r rest found h in
      elim next [
        | inl (f, e) ↦
            Counted-by available found (add_up-used_up script now seen available r rest s f)
              (candidates-Counted rest (r.outpoint ∷ seen) available found small e)
        | inr (n, f, a, inl (skip, e)) ↦
            Counted-by available found (add_up-skipped seen available r rest n s f a skip)
              (candidates-Counted rest (r.outpoint ∷ seen) available found small e)
        | inr (n, f, a, inr (has, took)) ↦
            let (previous, more, c, fits, e, eq) = took in
            Counted-by available found
              (add_up-counted script now seen available r rest n s f a has fits)
              (subst
                (Counted available (add_up script now (r.outpoint ∷ seen) (available + n) rest))
                (sym eq)
                (Counted-more available n
                  (add_up script now (r.outpoint ∷ seen) (available + n) rest)
                  (source_from r previous) more (satoshis-stated r.amount n a)
                  (check_output-Sound r previous c)
                  (candidates-Counted rest (r.outpoint ∷ seen) (available + n) more
                    (ground (arith, small, fits)) e)))
      ]

-- ===== src/Wallet/Funding/Admitted.antt =====
-- What SelectFunding returns passes the covenant's check of a funding.
use arkade_poker.Prelude.{
  ℕ, zero, suc, ◌+◌, ◌-◌, ◌≡◌, ◌≤◌, ◌<◌, ◌⊎◌, inl, inr, false, ◌||◌, List, [], ◌∷◌, ◌++◌, Option,
  none, some, ltb, ◌==◌, if◌then◌else◌, length, ℤ, pos, Result, ok, arith, >>=-eq-ok, Bool-cases,
  All, refl, ap, ◌∙◌, sym, subst, length-append, reject, is_negative, bad_policy, record_limit,
  insufficient_funds,
}
use arkade_poker.Covenant.Types.{Bytes, MsgTx, TxOut, Source, Funding}
use arkade_poker.Covenant.Amounts.{max_money, add_amount, sum_inputs, validate_funding}
use arkade_poker.Covenant.Amounts.Totals.{stated, stated_total, change_value}
use arkade_poker.Wallet.Records.{Vtxo, satoshis}
use arkade_poker.Wallet.Funding.{
  select_funding, candidates, OutputPolicy, before, insert_source, sort_sources, choose_coins,
}
use arkade_poker.Wallet.Funding.Candidates.{Sound, candidates-Counted}

pub insert_source-Sound :
    (amount : ℕ) (s : Source) (ts : List Source)
    → Sound s
    → All Sound ts
    → All Sound (insert_source amount s ts)
unfolding insert_source
insert_source-Sound amount s [] h hs = (h, tt)
insert_source-Sound amount s (t ∷ ts) h (ht, hts) = elim (Bool-cases (before amount s t)) [
  | inl first ↦
      subst (λ b. All Sound (if b then s ∷ t ∷ ts else t ∷ insert_source amount s ts)) (sym first)
        (h, (ht, hts))
  | inr later ↦
      subst (λ b. All Sound (if b then s ∷ t ∷ ts else t ∷ insert_source amount s ts)) (sym later)
        (ht, insert_source-Sound amount s ts h hts)
]

insert_source-total :
    (amount : ℕ) (s : Source) (ts : List Source)
    → stated_total (insert_source amount s ts) ≡ stated s.amount + stated_total ts
unfolding insert_source stated_total
insert_source-total amount s [] = refl
insert_source-total amount s (t ∷ ts) = ground (arith, insert_source-total amount s ts)

pub sort_sources-Sound :
    (amount : ℕ) (ss : List Source) → All Sound ss → All Sound (sort_sources amount ss)
unfolding sort_sources
sort_sources-Sound amount [] h = tt
sort_sources-Sound amount (s ∷ ss) (h, hs) =
    insert_source-Sound amount s (sort_sources amount ss) h (sort_sources-Sound amount ss hs)

pub sort_sources-total :
    (amount : ℕ) (ss : List Source) → stated_total (sort_sources amount ss) ≡ stated_total ss
unfolding sort_sources stated_total
sort_sources-total amount [] = refl
sort_sources-total amount (s ∷ ss) =
    insert_source-total amount s (sort_sources amount ss)
    ∙ ap (λ n. stated s.amount + n) (sort_sources-total amount ss)

stated_total-snoc :
    (ss : List Source) (s : Source)
    → stated_total (ss ++ (s ∷ [])) ≡ stated_total ss + stated s.amount
unfolding stated_total
stated_total-snoc [] s = omega arith
stated_total-snoc (t ∷ ss) s = omega (arith, stated_total-snoc ss s)

Sound-snoc : (ss : List Source) (s : Source) → All Sound ss → Sound s → All Sound (ss ++ (s ∷ []))
Sound-snoc [] s hs h = (h, tt)
Sound-snoc (t ∷ ss) s (ht, hs) h = (ht, Sound-snoc ss s hs h)

-- What the covenant's loop over the inputs returns on sound ones.
add_amount-exact : (m n : ℕ) → m + n ≤ max_money → add_amount (pos m) (pos n) ≡ ok (pos (m + n))
unfolding add_amount
add_amount-exact m n h = ground arith

sum_inputs-Sound :
    (m : ℕ) (ss : List Source)
    → All Sound ss
    → m + stated_total ss ≤ max_money
    → sum_inputs (pos m) ss ≡ ok (pos (m + stated_total ss))
unfolding sum_inputs stated_total
sum_inputs-Sound m [] h le = ap (λ n. ok (pos n)) (omega arith)
sum_inputs-Sound m (s ∷ ss) (h, hs) le =
    let (out, e, v) = h in
    ground (
      arith,
      e,
      v,
      add_amount-exact m (stated s.amount) (omega (arith, le)),
      sum_inputs-Sound (m + stated s.amount) ss hs (omega (arith, le)),
    )

satoshis-pos : (amount n : ℕ) → satoshis (pos amount) ≡ ok n → n ≡ amount
satoshis-pos amount n h = ground arith

zero-false : (n : ℕ) → 1 ≤ n → (n == 0) ≡ false
zero-false n h = ground arith

validate-zero : validate_funding (record { inputs = []; change = none }) (pos 0) ≡ ok tt
unfolding validate_funding
validate-zero = refl

-- The change that the service admits.
abbrev pub ChangeFits : OutputPolicy → Bytes → Option TxOut → Type 0
ChangeFits policy script change =
    (change ≡ none)
    ⊎ ((v : ℕ) × (change ≡ some (record { value = pos v; pk_script = script }))
        × (1 ≤ v)
        × (policy.min_amount ≤ v)
        × (v ≤ policy.max_amount))

abbrev pub Chosen : OutputPolicy → Bytes → ℕ → Funding → Type 0
Chosen policy script amount f =
    All Sound f.inputs
    × (stated_total f.inputs ≡ amount + change_value f.change)
    × (stated_total f.inputs ≤ max_money)
    × (1 ≤ length f.inputs)
    × (length f.inputs ≤ 255)
    × ChangeFits policy script f.change

stated_total-cons :
    (s : Source) (ss : List Source) → stated_total (s ∷ ss) ≡ stated s.amount + stated_total ss
unfolding stated_total
stated_total-cons s ss = refl

module _ (policy : OutputPolicy) (script : Bytes) (amount : ℕ) where
  chosen :
      (inputs : List Source) (s : Source) (change : Option TxOut)
      → All Sound inputs
      → Sound s
      → stated_total (inputs ++ (s ∷ [])) ≡ amount + change_value change
      → stated_total (inputs ++ (s ∷ [])) ≤ max_money
      → length (inputs ++ (s ∷ [])) ≤ 255
      → ChangeFits policy script change
      → Chosen policy script amount (record { inputs = inputs ++ (s ∷ []); change = change })
  chosen inputs s change hi hs total le short fits = (
    Sound-snoc inputs s hi hs,
    total,
    le,
    omega (arith, length-append inputs (s ∷ [])),
    short,
    fits,
  )

  choose_coins-nil :
      (selected : ℕ) (inputs : List Source) (f : Funding)
      → choose_coins policy script amount selected inputs [] ≡ ok f
      → Chosen policy script amount f
  unfolding choose_coins
  choose_coins-nil selected inputs f h = ground arith

  choose_coins-cases :
      (selected : ℕ) (inputs : List Source) (s : Source) (rest : List Source) (f : Funding)
      → choose_coins policy script amount selected inputs (s ∷ rest) ≡ ok f
      → (choose_coins policy script amount selected inputs rest ≡ ok f)
        ⊎ ((length (inputs ++ (s ∷ [])) ≤ 255)
            × (selected + stated s.amount ≤ amount + policy.max_amount)
            × ((choose_coins policy script amount
                    (selected + stated s.amount)
                    (inputs ++ (s ∷ []))
                    rest
                  ≡ ok f)
                ⊎ (((selected + stated s.amount ≡ amount)
                      × (f ≡ record { inputs = inputs ++ (s ∷ []); change = none }))
                    ⊎ ((amount < selected + stated s.amount)
                        × (policy.min_amount ≤ selected + stated s.amount - amount)
                        × (f ≡ record {
                          inputs = inputs ++ (s ∷ []);
                          change = some (record {
                            value = pos (selected + stated s.amount - amount);
                            pk_script = script;
                          });
                        })))))
  unfolding choose_coins
  choose_coins-cases selected inputs s rest f h = ground arith

  pub choose_coins-Chosen :
      (selected : ℕ) (inputs rest : List Source) (f : Funding)
      → selected ≡ stated_total inputs
      → All Sound inputs
      → All Sound rest
      → selected + stated_total rest ≤ max_money
      → choose_coins policy script amount selected inputs rest ≡ ok f
      → Chosen policy script amount f
  choose_coins-Chosen selected inputs [] f total hi hr le h = choose_coins-nil selected inputs f h
  choose_coins-Chosen selected inputs (s ∷ rest) f total hi (hs, hr) le h =
      elim (choose_coins-cases selected inputs s rest f h) [
        | inl e ↦
            choose_coins-Chosen selected inputs rest f total hi hr
              (omega (arith, stated_total-cons s rest, le)) e
        | inr (short, cap, inl e) ↦
            choose_coins-Chosen (selected + stated s.amount) (inputs ++ (s ∷ [])) rest f
              (omega (arith, stated_total-snoc inputs s, total)) (Sound-snoc inputs s hi hs) hr
              (omega (arith, stated_total-cons s rest, le)) e
        | inr (short, cap, inr (inl (exact, e))) ↦ subst (Chosen policy script amount) (sym e) (
            chosen inputs s none hi hs (omega (arith, stated_total-snoc inputs s, total, exact))
              (omega (arith, stated_total-snoc inputs s, stated_total-cons s rest, total, le)) short
              (inl refl))
        | inr (short, cap, inr (inr (over, fits, e))) ↦
            subst (Chosen policy script amount) (sym e) (
              chosen inputs s
                (some (record {
                  value = pos (selected + stated s.amount - amount);
                  pk_script = script;
                }))
                hi hs (omega (arith, stated_total-snoc inputs s, total, over))
                (omega (arith, stated_total-snoc inputs s, stated_total-cons s rest, total, le))
                short
                (inr (
                  selected + stated s.amount - amount,
                  refl,
                  omega (arith, over),
                  fits,
                  omega (arith, cap),
                )))
      ]

  -- The checks of the covenant, on what was chosen.
  Chosen-validate_funding :
      (f : Funding)
      → 1 ≤ amount
      → Chosen policy script amount f
      → validate_funding f (pos amount) ≡ ok tt
  unfolding validate_funding
  Chosen-validate_funding f positive (sound, total, le, some_input, short, fits) = elim fits [
    | inl e ↦ ground (
      arith,
      e,
      sum_inputs-Sound 0 f.inputs sound (omega (arith, le)),
      positive,
      total,
      le,
      some_input,
    )
    | inr (v, e, one, low, high) ↦ ground (
      arith,
      e,
      sum_inputs-Sound 0 f.inputs sound (omega (arith, le)),
      positive,
      total,
      le,
      some_input,
      one,
    )
  ]

module _ (policy : OutputPolicy) (script : Bytes) (transaction : Bytes → Result (Option MsgTx))
    (vtxos : Result (List Vtxo)) (now : ℤ) (path : Result (Unit {0})) where
  -- What stands behind a funding for a positive amount.
  abbrev pub Found : ℕ → Funding → Type 0
  Found amount f =
      (records : List Vtxo) × (found : List Source × ℕ) × (vtxos ≡ ok records)
      × ((is_negative now || ltb 10000 (length records)) ≡ false)
      × (candidates transaction script now [] 0 records ≡ ok found)
      × (amount ≤ found.1)
      × (choose_coins policy script amount 0 [] (sort_sources amount found.0) ≡ ok f)

  select_funding-zero :
      (f : Funding)
      → select_funding policy script transaction vtxos now path (pos 0) ≡ ok f
      → record { inputs = []; change = none } ≡ f
  unfolding select_funding
  select_funding-zero f h = ground arith

  pub select_funding-Found :
      (amount : ℕ) (f : Funding)
      → 1 ≤ amount
      → select_funding policy script transaction vtxos now path (pos amount) ≡ ok f
      → Found amount f
  unfolding select_funding
  select_funding-Found amount f positive h =
      let (sats, e, h1) = >>=-eq-ok (satoshis (pos amount)) _ h in
      let nonzero = zero-false sats (omega (arith, positive, satoshis-pos amount sats e)) in
      let (records, r, h2) = >>=-eq-ok vtxos _ (rw nonzero at h1) in
      let (_, n, h3) = >>=-eq-ok (reject (is_negative now) bad_policy) _ h2 in
      let (_, m, h4) = >>=-eq-ok (reject (ltb 10000 (length records)) record_limit) _ h3 in
      let (_, _, h5) = >>=-eq-ok path _ h4 in
      let (found, c, h6) = >>=-eq-ok (candidates transaction script now [] 0 records) _ h5 in
      let (_, enough, h7) =
        >>=-eq-ok (reject (ltb found.1 sats) (insufficient_funds sats found.1)) _ h6 in
      (
        records,
        found,
        r,
        ground (arith, n, m),
        c,
        ground (arith, enough, satoshis-pos amount sats e),
        subst (λ a. choose_coins policy script a 0 [] (sort_sources a found.0) ≡ ok f)
            (satoshis-pos amount sats e) h7,
      )

  -- Where SelectFunding returns a funding, the covenant's own check admits it for the amount, it
  -- has at most 255 inputs, and its change, where it has one, goes to the wallet's script and
  -- lies within the service's bounds.
  pub select_funding-validate_funding :
      (amount : ℕ) (f : Funding)
      → select_funding policy script transaction vtxos now path (pos amount) ≡ ok f
      → (validate_funding f (pos amount) ≡ ok tt)
        × (length f.inputs ≤ 255)
        × ChangeFits policy script f.change
  unfolding stated_total
  select_funding-validate_funding zero f h =
      subst
        (λ g.
          (validate_funding g (pos 0) ≡ ok tt)
          × (length g.inputs ≤ 255)
          × ChangeFits policy script g.change)
        (select_funding-zero f h) (validate-zero, omega arith, inl refl)
  select_funding-validate_funding (suc n) f h =
      let (records, found, _, _, c, enough, p) = select_funding-Found (suc n) f (omega arith) h in
      let (_, sound, total, le) =
        candidates-Counted transaction script now records [] 0 found (omega arith) c in
      let g =
        choose_coins-Chosen policy script (suc n) 0 [] (sort_sources (suc n) found.0) f refl tt
          (sort_sources-Sound (suc n) found.0 sound)
          (omega (arith, sort_sources-total (suc n) found.0, total, le)) p in
      (Chosen-validate_funding policy script (suc n) f (omega arith) g, g.4, g.5)

-- ===== src/Wallet/Funding/Exact.antt =====
-- Which coins SelectFunding takes, and the balance it takes them from.
use mathlib.Core.List.{Memᴰ}
use arkade_poker.Prelude.{
  ℕ, ◌≡◌, ◌≤◌, inl, inr, true, false, ◌||◌, List, [], ◌∷◌, Option, none, ltb, if◌then◌else◌, length,
  ℤ, pos, Result, ok, ok-inj, arith, Bool-cases, refl, ap, ◌∙◌, sym, subst, is_negative, reject,
  bad_policy, ◌>>◌,
}
use arkade_poker.Covenant.Types.{Bytes, MsgTx, Source, Funding}
use arkade_poker.Covenant.Amounts.Totals.{stated}
use arkade_poker.Wallet.Records.{Vtxo, balance_of, add_up}
use arkade_poker.Wallet.Funding.{
  OutputPolicy, before, insert_source, sort_sources, choose_coins, candidates, select_funding,
}
use arkade_poker.Wallet.Funding.Candidates.{candidates-Counted}
use arkade_poker.Wallet.Funding.Admitted.{select_funding-Found}

-- A coin of exactly the amount that stands first in a list.
abbrev FirstExact : ℕ → List Source → Type 0
FirstExact amount ss =
    (s : Source) × (rest : List Source) × (ss ≡ s ∷ rest) × (stated s.amount ≡ amount)

before-exact :
    (amount : ℕ) (s t : Source)
    → stated s.amount ≡ amount
    → before amount s t ≡ false
    → stated t.amount ≡ amount
unfolding before
before-exact amount s t e h = ground arith

before-late :
    (amount : ℕ) (s t : Source)
    → stated t.amount ≡ amount
    → before amount s t ≡ true
    → stated s.amount ≡ amount
unfolding before
before-late amount s t e h = ground arith

module _ (amount : ℕ) where
  insert_source-first :
      (s t : Source) (ts : List Source)
      → before amount s t ≡ true
      → insert_source amount s (t ∷ ts) ≡ s ∷ t ∷ ts
  unfolding insert_source
  insert_source-first s t ts h = ap (λ b. if b then s ∷ t ∷ ts else t ∷ insert_source amount s ts) h

  insert_source-later :
      (s t : Source) (ts : List Source)
      → before amount s t ≡ false
      → insert_source amount s (t ∷ ts) ≡ t ∷ insert_source amount s ts
  unfolding insert_source
  insert_source-later s t ts h = ap (λ b. if b then s ∷ t ∷ ts else t ∷ insert_source amount s ts) h

  insert_source-exact :
      (s : Source) (ts : List Source)
      → stated s.amount ≡ amount
      → FirstExact amount (insert_source amount s ts)
  unfolding insert_source
  insert_source-exact s [] e = (s, [], refl, e)
  insert_source-exact s (t ∷ ts) e = elim (Bool-cases (before amount s t)) [
    | inl h ↦ (s, t ∷ ts, insert_source-first s t ts h, e)
    | inr h ↦
        (t, insert_source amount s ts, insert_source-later s t ts h, before-exact amount s t e h)
  ]

  insert_source-FirstExact :
      (s t : Source) (ts : List Source)
      → stated t.amount ≡ amount
      → FirstExact amount (insert_source amount s (t ∷ ts))
  insert_source-FirstExact s t ts e = elim (Bool-cases (before amount s t)) [
    | inl h ↦ (s, t ∷ ts, insert_source-first s t ts h, before-late amount s t e h)
    | inr h ↦ (t, insert_source amount s ts, insert_source-later s t ts h, e)
  ]

  sort_sources-FirstExact :
      (s : Source) (ss : List Source)
      → Memᴰ s ss
      → stated s.amount ≡ amount
      → FirstExact amount (sort_sources amount ss)
  unfolding sort_sources
  sort_sources-FirstExact s [] m e = elim m [ ]
  sort_sources-FirstExact s (t ∷ ts) (Memᴰ.head h) e =
      insert_source-exact t (sort_sources amount ts) (ap (λ u. stated u.amount) (sym h) ∙ e)
  sort_sources-FirstExact s (t ∷ ts) (Memᴰ.tail m) e =
      let (u, rest, eq, v) = sort_sources-FirstExact s ts m e in
      subst (λ l. FirstExact amount (insert_source amount t l)) (sym eq)
        (insert_source-FirstExact t u rest v)

  choose_coins-exact :
      (policy : OutputPolicy) (script : Bytes) (s : Source) (rest : List Source)
      → stated s.amount ≡ amount
      → choose_coins policy script amount 0 [] (s ∷ rest)
        ≡ ok (record { inputs = s ∷ []; change = none })
  unfolding choose_coins
  choose_coins-exact policy script s rest e = ground arith

module _ (policy : OutputPolicy) (script : Bytes) (transaction : Bytes → Result (Option MsgTx))
    (records : List Vtxo) (now : ℤ) (path : Result (Unit {0})) (amount : ℕ) where
  found-here :
      (f : Funding)
      → 1 ≤ amount
      → select_funding policy script transaction (ok records) now path (pos amount) ≡ ok f
      → (found : List Source × ℕ) × ((is_negative now || ltb 10000 (length records)) ≡ false)
        × (candidates transaction script now [] 0 records ≡ ok found)
        × (amount ≤ found.1)
        × (choose_coins policy script amount 0 [] (sort_sources amount found.0) ≡ ok f)
  found-here f positive h =
      let (rs, found, r, n, c, enough, p) =
        select_funding-Found policy script transaction (ok records) now path amount f positive h in
      (
        found,
        subst (λ l. (is_negative now || ltb 10000 (length l)) ≡ false) (sym (ok-inj r)) n,
        subst (λ l. candidates transaction script now [] 0 l ≡ ok found) (sym (ok-inj r)) c,
        enough,
        p,
      )

  -- Where a funding for a positive amount is returned, Balance on the same records and time
  -- returns a balance that is at least the amount.
  pub select_funding-balance_of :
      (f : Funding)
      → 1 ≤ amount
      → select_funding policy script transaction (ok records) now path (pos amount) ≡ ok f
      → (b : ℕ) × (balance_of script now records ≡ ok b) × (amount ≤ b)
  unfolding balance_of
  select_funding-balance_of f positive h =
      let (found, n, c, enough, _) = found-here f positive h in
      let (sum, _, _, _) =
        candidates-Counted transaction script now records [] 0 found (omega arith) c in
      (found.1, ap (λ b. reject b bad_policy >> add_up script now [] 0 records) n ∙ sum, enough)

  -- Where a funding for a positive amount is returned and a candidate is worth exactly the
  -- amount, the funding is one coin that is worth exactly the amount, and has no change.
  pub select_funding_exact :
      (f : Funding) (found : List Source × ℕ) (s : Source)
      → 1 ≤ amount
      → select_funding policy script transaction (ok records) now path (pos amount) ≡ ok f
      → candidates transaction script now [] 0 records ≡ ok found
      → Memᴰ s found.0
      → stated s.amount ≡ amount
      → (t : Source) × (f ≡ record { inputs = t ∷ []; change = none }) × (stated t.amount ≡ amount)
  select_funding_exact f found s positive h c m e =
      let (other, _, same, _, p) = found-here f positive h in
      let (t, rest, sorted, v) = sort_sources-FirstExact amount s found.0 m e in
      (
        t,
        sym (
            ok-inj (
              sym (choose_coins-exact amount policy script t rest v)
              ∙ ap (λ l. choose_coins policy script amount 0 [] l) (sym sorted)
              ∙ ap
                  (λ (o : List Source × ℕ).
                    choose_coins policy script amount 0 [] (sort_sources amount o.0))
                  (ok-inj (sym c ∙ same))
              ∙ p)),
        v,
      )

-- ===== src/Covenant/Amounts/Totals.antt =====
-- What an admitted funding adds up to.
use arkade_poker.Prelude.{
  ℕ, ◌+◌, ◌≡◌, ◌≤◌, ◌⊎◌, arith, ok, ℤ, pos, negsuc, List, [], ◌∷◌, Option, none, some, >>=-eq-ok,
  Result-cases, inl, inr,
}
use arkade_poker.Covenant.Types.{TxOut, Source, Funding}
use arkade_poker.Covenant.Amounts.{
  max_money, add_amount, source_output, sum_inputs, validate_funding,
}

pub add_amount-pos :
    (a b c : ℤ)
    → add_amount a b ≡ ok c
    → (m : ℕ) × (n : ℕ) × (a ≡ pos m) × (b ≡ pos n) × (c ≡ pos (m + n)) × (m + n ≤ max_money)
unfolding add_amount
add_amount-pos (pos m) (pos n) c h = (m, n, ground arith, ground arith, ground arith, ground arith)
add_amount-pos (pos m) (negsuc n) c h = cc
add_amount-pos (negsuc m) (pos n) c h = cc
add_amount-pos (negsuc m) (negsuc n) c h = cc

-- What the inputs state, and what the change output pays, in satoshis.
abbrev pub stated : ℤ → ℕ
stated (pos n) = n
stated (negsuc n) = 0

unfoldable pub stated_total : List Source → ℕ
stated_total [] = 0
stated_total (s ∷ rest) = stated s.amount + stated_total rest

abbrev pub change_value : Option TxOut → ℕ
change_value none = 0
change_value (some out) = stated out.value

source_output-amount : (s : Source) (out : TxOut) → source_output s ≡ ok out → out.value ≡ s.amount
unfolding source_output
source_output-amount s out h = ground arith

sum_inputs-total :
    (inputs : List Source) (m : ℕ) (total : ℤ)
    → sum_inputs (pos m) inputs ≡ ok total
    → m ≤ max_money
    → (total ≡ pos (m + stated_total inputs)) × (m + stated_total inputs ≤ max_money)
unfolding sum_inputs stated_total
sum_inputs-total [] m total h small = ground arith
sum_inputs-total (s ∷ rest) m total h small =
    let (out, e, h1) = >>=-eq-ok (source_output s) _ h in
    let (next, e2, h2) = >>=-eq-ok (add_amount (pos m) out.value) _ h1 in
    let (a, b, va, vb, vc, le) = add_amount-pos (pos m) out.value next e2 in
    ground (
      arith,
      va,
      vb,
      source_output-amount s out e,
      sum_inputs-total rest (a + b) total (rw vc at h2) le,
    )

-- Funding that is admitted for a contribution is worth exactly the contribution and its change; a
-- contribution of nothing comes with neither inputs nor change.
pub validate_funding_balance :
    (f : Funding) (required : ℕ)
    → validate_funding f (pos required) ≡ ok tt
    → (stated_total f.inputs ≡ required + change_value f.change)
      × ((1 ≤ required) ⊎ ((f.inputs ≡ []) × (f.change ≡ none)))
unfolding validate_funding stated_total
validate_funding_balance f required h = elim (Result-cases (sum_inputs (pos 0) f.inputs)) [
  | inl (total, e) ↦ ground (arith, sum_inputs-total f.inputs 0 total e (omega arith))
  | inr (x, e) ↦ ground arith
]

-- ===== src/Covenant/Build/Balance.antt =====
-- A live spend neither creates nor destroys money.
use arkade_poker.Prelude.{
  ℕ, ◌+◌, ◌-◌, ◌*◌, ◌≤◌, ◌≡◌, ok, arith, List, [], ◌∷◌, some, ℤ, pos, sub_int64, >>=-eq-ok, reject,
  or_fail, ltb, max_uint64, negsuc, deadline_overflow, bad_value, bad_extension, is_negative, leb_ℤ,
  not, ◌||◌,
}
use arkade_poker.Covenant.Types.{
  Bytes, State, Params, Contract, MsgTx, TxOut, Funding, SpendingIdentity,
}
use arkade_poker.Covenant.Amounts.{max_money, validate_funding}
use arkade_poker.Covenant.Amounts.Totals.{
  stated, stated_total, change_value, validate_funding_balance,
}
use arkade_poker.Covenant.Live.{IsAgreed, advance, deadline_interval}
use arkade_poker.Covenant.Packets.{ArkLib, action_extension}
use arkade_poker.Covenant.Build.{Assembly, live_value, build_live, first_output, path}

-- The joint value of a live covenant, in satoshis.
abbrev pub joint : Params → State → ℕ
joint p s = 2 * (p.stake + p.bond) + s.wager1 + s.wager2

pub live_value_exact :
    (p : Params)
    → IsAgreed p
    → (s : State) (v : ℤ) → live_value p s ≡ ok v
    → (v ≡ pos (joint p s)) × (joint p s ≤ max_money)
unfolding live_value
live_value_exact p agreed s v h = ground arith

-- What the first output of a transaction holds.
abbrev pub first_value : MsgTx → ℕ
first_value tx = elim tx.tx_out [ [] ↦ 0 | out ∷ _ ↦ stated out.value ]

abbrev pub head_value : Assembly → ℕ
head_value a = elim a.outputs [ [] ↦ 0 | out ∷ _ ↦ stated out.value ]

pub first_output-value :
    (tx : MsgTx) (out : TxOut) → first_output tx ≡ ok out → stated out.value ≡ first_value tx
unfolding first_output
first_output-value tx out h = ground arith

funding_balance :
    (f : Funding) (value before : ℤ)
    → validate_funding f (sub_int64 value before) ≡ ok tt
    → stated before ≤ stated value
    → stated value ≤ max_money
    → before ≡ pos (stated before)
    → value ≡ pos (stated value)
    → stated before + stated_total f.inputs ≡ stated value + change_value f.change
funding_balance f (pos v) (pos b) h le max eb ev =
    let e : sub_int64 (pos v) (pos b) ≡ pos (v - b) = ground arith in
    omega (arith, (validate_funding_balance f (v - b) (rw e at h)).0)
funding_balance f (negsuc v) b h le max eb ev = cc
funding_balance f (pos v) (negsuc b) h le max eb ev = cc

module _ (lib : ArkLib) (c : Contract) (agreed : IsAgreed c.params) where
  -- Under agreed terms, a live spend that is built pays the covenant the joint value of the
  -- successor (both stakes and bonds and the wagers), and its funding inputs add exactly what the
  -- covenant gains and the change.
  pub build_live_balance :
      (previous : MsgTx) (funding : Funding) (i : SpendingIdentity) (s : State) (w : List Bytes)
      (a : Assembly)
      → build_live lib c previous funding i s w ≡ ok a
      → (head_value a ≡ joint c.params s)
        × (first_value previous + stated_total a.inputs
            ≡ joint c.params s + change_value funding.change)
  unfolding build_live
  build_live_balance previous funding i s w a h =
      let (_, _, h1) =
        >>=-eq-ok (reject (ltb (max_uint64 - deadline_interval) s.deadline) deadline_overflow) _
          h in
      let (value, ev, h2) = >>=-eq-ok (live_value c.params (advance s)) _ h1 in
      let (out, eo, h3) = >>=-eq-ok (first_output previous) _ h2 in
      let (_, eg, h4) =
        >>=-eq-ok (reject (is_negative out.value || not (leb_ℤ out.value value)) bad_value) _ h3 in
      let (_, ef, h5) = >>=-eq-ok (validate_funding funding (sub_int64 value out.value)) _ h4 in
      let (program, _, h6) = >>=-eq-ok (path c i) _ h5 in
      let (packets, _, h7) =
        >>=-eq-ok (action_extension lib (some (advance s)) (some (program, w))) _ h6 in
      let (data_out, _, h8) = >>=-eq-ok (or_fail (lib.tx_out packets) bad_extension) _ h7 in
      ground (
        arith,
        live_value_exact c.params agreed (advance s) value ev,
        first_output-value previous out eo,
        funding_balance funding value out.value ef,
      )

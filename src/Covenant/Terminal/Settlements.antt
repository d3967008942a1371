-- ===== src/Covenant/Terminal/Settlements.antt =====
-- Whole settlements: what Concession, Timeout and Showdown pay out of the covenant they spend.
use arkade_poker.Prelude.{
  ℕ, ◌+◌, ◌≤◌, ◌<◌, ◌≡◌, ◌⊎◌, ok, arith, List, [], ◌∷◌, ◌++◌, ℤ, pos, if◌then◌else◌, ◌==◌,
  >>=-eq-ok, none, some, guard, or_fail, invalid_contract, bad_packet, bad_extension, bad_phase,
  bad_history, bad_value, slice, le_value, ◌&&◌, length, eqb_ℤ, contract_mismatch, ap, ◌∙◌,
}
use arkade_poker.Covenant.Types.{
  Bytes, Phase, State, Contract, MsgTx, TxOut, player1, player2, other_player, showdown_evaluation,
  spend_concession, spend_timeout, spend_showdown, phase_eq, SpendingIdentity,
}
use arkade_poker.Covenant.Phase.{decode_phase, encode_phase, bare, required_actor}
use arkade_poker.Covenant.Phase.RoundTrip.{encode_phase-decode_phase}
use arkade_poker.Covenant.Amounts.{max_money, add_amount, bytes_eq}
use arkade_poker.Covenant.Amounts.Totals.{add_amount-pos}
use arkade_poker.Covenant.Reveals.{start_equal}
use arkade_poker.Covenant.Packets.{ArkLib, read_header, read_state, action_extension, header_len}
use arkade_poker.Covenant.Live.{IsAgreed}
use arkade_poker.Covenant.Build.{
  Assembly, identity_of, first_output, live_predecessor, exit_predecessor, build_terminal,
  live_value, path,
}
use arkade_poker.Covenant.Build.Balance.{first_value, first_output-value, joint, live_value_exact}
use arkade_poker.Covenant.Terminal.{
  ShowdownWitness, concession, timeout, showdown, concession_payouts, timeout_beneficiary,
  showdown_payouts, payout, encode_showdown_witness,
}
use arkade_poker.Covenant.Terminal.Payouts.{
  shares, acting_player, concession_payouts_split, concession_kind, showdown_payouts_split,
}

module _ (lib : ArkLib) (c : Contract) where
  -- A terminal spend has its payouts, and behind them the extension.
  build_terminal_outputs :
      (i : SpendingIdentity) (payouts : List TxOut) (w : List Bytes) (a : Assembly)
      → build_terminal lib c i payouts w ≡ ok a
      → (extra : TxOut) × (a.outputs ≡ payouts ++ (extra ∷ [])) × (a.inputs ≡ [])
  unfolding build_terminal
  build_terminal_outputs i payouts w a h =
      let (program, _, h1) = >>=-eq-ok (path c i) _ h in
      let (packets, _, h2) = >>=-eq-ok (action_extension lib none (some (program, w))) _ h1 in
      let (extra, _, h3) = >>=-eq-ok (or_fail (lib.tx_out packets) bad_extension) _ h2 in
      (extra, ground arith, ground arith)

  -- The exit's phase is one that encodes, and its value is that of the first output.
  exit_facts :
      (previous : MsgTx) (x : Phase) (v : ℤ)
      → exit_predecessor lib c previous ≡ ok (x, v)
      → (code : ℕ) × (encode_phase x ≡ ok code)
        × (v ≡ pos (first_value previous))
        × (first_value previous ≤ max_money)
  unfolding exit_predecessor
  exit_facts previous x v h =
      let (_, _, h1) = >>=-eq-ok (guard c.valid invalid_contract) _ h in
      let (out, eo, h2) = >>=-eq-ok (first_output previous) _ h1 in
      let (total, ea, h3) = >>=-eq-ok (add_amount (pos 0) out.value) _ h2 in
      let (header, _, h4) = >>=-eq-ok (read_header lib previous) _ h3 in
      let (_, _, h5) =
        >>=-eq-ok
          (guard
            (length header == header_len
              && le_value (slice header 0 2) == 1
              && bytes_eq (slice header 2 32) c.id)
            bad_packet)
          _ h4 in
      let (y, ed, h6) = >>=-eq-ok (decode_phase (le_value (slice header 34 1))) _ h5 in
      let (m, n, zero, value, _, small) = add_amount-pos (pos 0) out.value total ea in
      let same : y ≡ x = cc in
      (
        le_value (slice header 34 1),
        encode_phase-decode_phase x _ (rw same at ed),
        ground (arith, first_output-value previous out eo, value),
        ground (arith, first_output-value previous out eo, value),
      )

  -- A live predecessor holds its state's joint value.
  joint_first :
      IsAgreed c.params
      → (previous : MsgTx) (s : State) → live_predecessor lib c previous ≡ ok s
      → joint c.params s ≡ first_value previous
  unfolding live_predecessor
  joint_first agreed previous s h =
      let (_, _, h1) = >>=-eq-ok (guard c.valid invalid_contract) _ h in
      let (out, eo, h2) = >>=-eq-ok (first_output previous) _ h1 in
      let (t, _, h3) = >>=-eq-ok (read_state lib previous) _ h2 in
      let (_, _, h4) = >>=-eq-ok (guard (bytes_eq t.contract_id c.id) contract_mismatch) _ h3 in
      let (value, ev, h5) = >>=-eq-ok (live_value c.params t) _ h4 in
      let (_, eq, h6) = >>=-eq-ok (guard (eqb_ℤ out.value value) bad_value) _ h5 in
      ground
        (arith, first_output-value previous out eo, live_value_exact c.params agreed t value ev)

  -- A concession that is built is of a phase in which a player acts; the bond goes to the
  -- conceding actor and the rest of the covenant's value to the opponent.
  pub concession_pays :
      (previous : MsgTx) (a : Assembly)
      → concession lib c previous ≡ ok a
      → (x : Phase) × (v : ℤ) × (extra : TxOut) × (exit_predecessor lib c previous ≡ ok (x, v))
        × ((x.actor ≡ player1) ⊎ (x.actor ≡ player2))
        × (c.params.bond ≤ first_value previous)
        × (let (n1, n2) = shares (other_player x.actor) (first_value previous) c.params.bond in
            a.outputs
            ≡ record { value = pos n1; pk_script = c.payout1 }
              ∷ record { value = pos n2; pk_script = c.payout2 }
              ∷ extra
              ∷ [])
  unfolding concession
  concession_pays previous a h =
      let (xv, ex, h1) = >>=-eq-ok (exit_predecessor lib c previous) _ h in
      let (payouts, ep, h2) = >>=-eq-ok (concession_payouts c xv.0 xv.1) _ h1 in
      let (code, ec, ev, small) = exit_facts previous xv.0 xv.1 ex in
      let (lo, hi) = concession_kind c xv.0 xv.1 payouts ep in
      let actor = acting_player xv.0 code ec lo hi in
      let (split, le) =
        concession_payouts_split c xv.0 (first_value previous) payouts actor small (rw ev at ep) in
      let (extra, outs, _) =
        build_terminal_outputs (identity_of spend_concession xv.0.actor 0) payouts [] a h2 in
      (xv.0, xv.1, extra, ex, actor, le, outs ∙ ap (λ ps. ps ++ (extra ∷ [])) split)

  -- A timeout that is built is of a phase that waits for a player, and pays the covenant's whole
  -- value to that player's opponent.
  pub timeout_pays :
      (previous : MsgTx) (a : Assembly)
      → timeout lib c previous ≡ ok a
      → (x : Phase) × (v : ℤ) × (actor : ℕ) × (extra : TxOut) × (exit_predecessor lib c previous
          ≡ ok (x, v))
        × (required_actor x ≡ ok actor)
        × (1 ≤ actor)
        × (a.outputs
            ≡ record {
              value = pos (first_value previous);
              pk_script = if actor == player1 then c.payout2 else c.payout1;
            }
              ∷ extra
              ∷ [])
  unfolding timeout timeout_beneficiary payout
  timeout_pays previous a h =
      let (xv, ex, h1) = >>=-eq-ok (exit_predecessor lib c previous) _ h in
      let (b, eb, h2) = >>=-eq-ok (timeout_beneficiary xv.0) _ h1 in
      let (actor, ea, h3) = >>=-eq-ok (required_actor xv.0) _ eb in
      let (code, ec, ev, small) = exit_facts previous xv.0 xv.1 ex in
      let (extra, outs, _) =
        build_terminal_outputs (identity_of spend_timeout b 0) (payout c b xv.1 ∷ []) [] a h2 in
      (xv.0, xv.1, actor, extra, ex, ea, ground arith, ground arith)

  -- A showdown that is built under agreed terms pays the covenant's whole value to the two
  -- players: all but a bond to the one of the greater claimed rank, or equal halves.
  pub showdown_pays :
      IsAgreed c.params
      → (previous : MsgTx) (submitter : ℕ) (w : ShowdownWitness) (a : Assembly)
      → showdown lib c previous submitter w ≡ ok a
      → (n1 : ℕ) × (n2 : ℕ) × (extra : TxOut) × (a.outputs
          ≡ record { value = pos n1; pk_script = c.payout1 }
            ∷ record { value = pos n2; pk_script = c.payout2 }
            ∷ extra
            ∷ [])
        × (n1 + n2 ≡ first_value previous)
        × (((w.proof2.rank < w.proof1.rank) × (n2 ≡ c.params.bond))
            ⊎ (((w.proof1.rank < w.proof2.rank) × (n1 ≡ c.params.bond))
                ⊎ ((w.proof1.rank ≡ w.proof2.rank) × (n1 ≡ n2))))
  unfolding showdown
  showdown_pays agreed previous submitter w a h =
      let (s, es, h1) = >>=-eq-ok (live_predecessor lib c previous) _ h in
      let (_, _, h2) =
        >>=-eq-ok (guard (phase_eq s.phase (bare showdown_evaluation)) bad_phase) _ h1 in
      let (_, eq, h3) = >>=-eq-ok (guard (start_equal s) bad_history) _ h2 in
      let (encoded, _, h4) = >>=-eq-ok (encode_showdown_witness w) _ h3 in
      let (total, et, h5) = >>=-eq-ok (live_value c.params s) _ h4 in
      let (n1, n2, pay, sum, r1, r2, r3) =
        showdown_payouts_split c agreed s total w.proof1.rank w.proof2.rank (ground arith) et in
      let (extra, outs, _) =
        build_terminal_outputs (identity_of spend_showdown submitter 0)
          (showdown_payouts c total w.proof1.rank w.proof2.rank) encoded a h5 in
      (
        n1,
        n2,
        extra,
        outs ∙ ap (λ ps. ps ++ (extra ∷ [])) pay,
        sum ∙ joint_first agreed previous s es,
        ground (arith, r1, r2, r3),
      )

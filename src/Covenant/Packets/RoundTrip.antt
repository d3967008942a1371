-- ===== src/Covenant/Packets/RoundTrip.antt =====
-- A live state is read back from the packets that it is encoded to.
use arkade_poker.Prelude.{
  ℕ, ◌≤◌, ◌<◌, ◌≡◌, ◌∙◌, refl, ok, List, [], ◌∷◌, some, length, arith, All, u64_mod, >>=-eq-ok, ltb,
  reject, bad_action, le_value,
}
use arkade_poker.Covenant.Types.{Bytes, State, Packet, last_raise}
use arkade_poker.Covenant.Phase.{encode_phase}
use arkade_poker.Covenant.Phase.RoundTrip.{encoded_phase_decodes}
use arkade_poker.Covenant.Packets.{
  ArkLib, encode_header, encode_state, decode_state, poker_records, sort_packets, sized_records,
  decode_records, write_reveals, reveal_locations, blank_payloads, nth, to_packets, type_state,
}
use arkade_poker.Covenant.Packets.Slots.{
  reveals_round_trip, nth-write_reveals, length-write_reveals, length-nth-write_reveals,
}
use arkade_poker.Covenant.Packets.Header.{
  length-encode_header, version_back, id_back, phase_back, action_back, wager1_back, wager2_back,
  deadline_back,
}

-- The fixed sizes of Go's arrays, and the range of its integers.
pub record IsSized (s : State) : Type 0 where
  pub id_len : length s.contract_id ≡ 32
  pub wager1_lt : s.wager1 < u64_mod
  pub wager2_lt : s.wager2 < u64_mod
  pub deadline_lt : s.deadline < u64_mod
  pub slots : length s.reveals ≡ 18
  pub slot_len : All (λ (c : Bytes). length c ≡ 64) s.reveals

le_value_single : (b : ℕ) → le_value (b ∷ []) ≡ b
unfolding le_value
le_value_single b = omega arith

-- Four payloads of the right sizes are found under their types.
four_records :
    (lib : ArkLib) (ps : List Bytes)
    → length ps ≡ 4
    → length (nth ps 0) ≡ 60
    → length (nth ps 1) ≡ 256
    → length (nth ps 2) ≡ 448
    → length (nth ps 3) ≡ 448
    → lib.checked (to_packets type_state ps) ≡ some (to_packets type_state ps)
    → decode_state lib (to_packets type_state ps) ≡ decode_records ps
unfolding decode_state poker_records sort_packets sized_records
four_records lib [] n a b c d e = absurd (omega arith)
four_records lib (h ∷ []) n a b c d e = absurd (omega arith)
four_records lib (h ∷ x ∷ []) n a b c d e = absurd (omega arith)
four_records lib (h ∷ x ∷ y ∷ []) n a b c d e = absurd (omega arith)
four_records lib (h ∷ x ∷ y ∷ z ∷ []) n a b c d e = rw (e, a, b, c, d) refl
four_records lib (h ∷ x ∷ y ∷ z ∷ w ∷ r) n a b c d e = absurd (omega arith)

module _ (s : State) (sized : IsSized s) (phase : ℕ) where
  abbrev payloads : List Bytes
  payloads = write_reveals reveal_locations s.reveals (blank_payloads (encode_header s phase))

  header_eq : nth payloads 0 ≡ encode_header s phase
  header_eq =
      nth-write_reveals reveal_locations s.reveals (blank_payloads (encode_header s phase)) refl

  decode_payloads :
      encode_phase s.phase ≡ ok phase → s.last_action ≤ last_raise → decode_records payloads ≡ ok s
  unfolding decode_records
  decode_payloads e small =
      rw
        (
          header_eq,
          version_back s phase sized.id_len,
          phase_back s phase sized.id_len,
          action_back s phase sized.id_len,
          id_back s phase sized.id_len,
          wager1_back s phase sized.id_len sized.wager1_lt,
          wager2_back s phase sized.id_len sized.wager2_lt,
          deadline_back s phase sized.id_len sized.deadline_lt,
          reveals_round_trip (encode_header s phase) s.reveals sized.slot_len sized.slots,
          le_value_single phase,
          le_value_single s.last_action,
          encoded_phase_decodes s.phase phase e,
        )
        (ground arith)

  decode_packets :
      (lib : ArkLib)
      → encode_phase s.phase ≡ ok phase
      → s.last_action ≤ last_raise
      → lib.checked (to_packets type_state payloads) ≡ some (to_packets type_state payloads)
      → decode_state lib (to_packets type_state payloads) ≡ ok s
  decode_packets lib e small c =
      let blank = blank_payloads (encode_header s phase) in
      let same = length-nth-write_reveals reveal_locations s.reveals blank in
      four_records lib payloads (length-write_reveals reveal_locations s.reveals blank)
        (same 0 ∙ length-encode_header s phase sized.id_len) (same 1) (same 2) (same 3) c
      ∙ decode_payloads e small

-- A state whose arrays and integers have their sizes is decoded from the packets that it is
-- encoded to, where the extension library admits those packets.
pub decode_state-encode_state :
    (lib : ArkLib) (s : State) (packets : List Packet)
    → IsSized s
    → encode_state s ≡ ok packets
    → lib.checked packets ≡ some packets
    → decode_state lib packets ≡ ok s
unfolding encode_state
decode_state-encode_state lib s packets sized h c =
    let (phase, e, h1) = >>=-eq-ok (encode_phase s.phase) _ h in
    let (_, small, h2) = >>=-eq-ok (reject (ltb last_raise s.last_action) bad_action) _ h1 in
    let same : to_packets type_state (payloads s sized phase) ≡ packets = cc in
    rw (← same) (decode_packets s sized phase lib e (ground arith) (rw (← same) at c))

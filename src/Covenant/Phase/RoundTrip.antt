-- ===== src/Covenant/Phase/RoundTrip.antt =====
-- The phase byte of internal/covenant/packets.go and its decoder are inverse to one another.
use arkade_poker.Prelude.{
  ℕ, ◌<◌, ◌≡◌, ◌↔◌, refl, ok, err, arith, Bool, true, false, Result, all_below, all_below_sound,
}
use arkade_poker.Covenant.Types.{Phase, phase_eq}
use arkade_poker.Covenant.Phase.{encode_phase, decode_phase}

abbrev phase_of : ℕ → ℕ → ℕ → ℕ → Phase
phase_of k a s x = record { kind = k; actor = a; street = s; pass = x }

decodes_to : Result Phase → Phase → Bool
decodes_to (ok q) p = phase_eq q p
decodes_to (err _) p = false

returns : Result ℕ → Phase → Bool
unfolding decodes_to
returns (ok b) p = decodes_to (decode_phase b) p
returns (err _) p = true

-- Every phase whose fields are in range, with the byte that it encodes to.
round_trip_table :
    all_below 9 (λ k. all_below 3 (λ a.
      all_below 5
        (λ s. all_below 3 (λ x. returns (encode_phase (phase_of k a s x)) (phase_of k a s x)))))
    ≡ true
unfolding all_below returns encode_phase decode_phase
round_trip_table = refl

round_trip_in_range :
    (k a s x : ℕ)
    → k < 9
    → a < 3
    → s < 5
    → x < 3
    → returns (encode_phase (phase_of k a s x)) (phase_of k a s x) ≡ true
round_trip_in_range k a s x hk ha hs hx =
    all_below_sound 3 _ x
      (all_below_sound 5 _ s (all_below_sound 3 _ a (all_below_sound 9 _ k round_trip_table hk) ha)
        hs)
      hx

record IsInRange (p : Phase) : Type 0 where
  kind_lt : p.kind < 9
  actor_lt : p.actor < 3
  street_lt : p.street < 5
  pass_lt : p.pass < 3

encode_phase-IsInRange : (p : Phase) (b : ℕ) → encode_phase p ≡ ok b → IsInRange p
unfolding encode_phase
encode_phase-IsInRange p b h = record {
  kind_lt = ground arith;
  actor_lt = ground arith;
  street_lt = ground arith;
  pass_lt = ground arith;
}

decodes_to_eq : (r : Result Phase) (p : Phase) → decodes_to r p ≡ true → r ≡ ok p
unfolding decodes_to
decodes_to_eq (ok q) p h = ground arith
decodes_to_eq (err e) p h = cc

-- A phase that encodes at all is decoded from its byte.
pub encoded_phase_decodes : (p : Phase) (b : ℕ) → encode_phase p ≡ ok b → decode_phase b ≡ ok p
encoded_phase_decodes p b h =
    let r = encode_phase-IsInRange p b h in
    decodes_to_eq (decode_phase b) p (
      unfold returns in
      rw (h, returns) at
        (round_trip_in_range p.kind p.actor p.street p.pass r.kind_lt r.actor_lt r.street_lt
          r.pass_lt))

-- Every byte that decodes at all is the one that its phase encodes to.
pub encode_phase-decode_phase : (p : Phase) (b : ℕ) → decode_phase b ≡ ok p → encode_phase p ≡ ok b
unfolding encode_phase decode_phase
encode_phase-decode_phase p b h = ground arith

-- A byte is decoded to a phase exactly when the phase encodes to that byte.
pub decode_phase-encode_phase :
    (p : Phase) (b : ℕ) → (decode_phase b ≡ ok p) ↔ (encode_phase p ≡ ok b)
decode_phase-encode_phase p b = (encode_phase-decode_phase p b, encoded_phase_decodes p b)

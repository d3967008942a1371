-- ===== src/Tests/Codec.antt =====
-- The theorems on encodings at concrete inputs.
use arkade_poker.Prelude.{◌≡◌, ◌↔◌, refl, ok, arith}
use arkade_poker.Covenant.Types.{Phase}
use arkade_poker.Covenant.Phase.{encode_phase, decode_phase}
use arkade_poker.Covenant.Phase.RoundTrip.{decode_phase-encode_phase}
use arkade_poker.Covenant.Packets.{encode_state, decode_state, encode_header, write_reveals, put_at}
use arkade_poker.Covenant.Packets.RoundTrip.{IsSized, decode_state-encode_state}
use arkade_poker.Prelude.{put, le_bytes}
use arkade_poker.Samples.{raised, packets_of, sample_lib}

abbrev second_reveal : Phase
second_reveal = record { kind = 5; actor = 2; street = 3; pass = 2 }

decode_phase-encode_phase_example :
    (decode_phase 17 ≡ ok second_reveal) ↔ (encode_phase second_reveal ≡ ok 17)
decode_phase-encode_phase_example = decode_phase-encode_phase second_reveal 17

raised-IsSized : IsSized raised
raised-IsSized = omega arith

encoded : encode_state raised ≡ ok (packets_of (encode_state raised))
unfolding encode_state encode_phase encode_header write_reveals put_at put le_bytes
encoded = refl

decode_state-encode_state_example :
    decode_state sample_lib (packets_of (encode_state raised)) ≡ ok raised
decode_state-encode_state_example =
    decode_state-encode_state sample_lib raised (packets_of (encode_state raised)) raised-IsSized
      encoded refl

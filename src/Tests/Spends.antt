-- ===== src/Tests/Spends.antt =====
-- A saved spend, written and read, and the signature of one whose codec the reducer uses.
use arkade_poker.Prelude.{
  ◌≡◌, ◌++◌, refl, inl, arith, true, [], ◌∷◌, none, some, replicate, ok, err, bad_encoding, subst,
  some-inj,
}
use arkade_poker.Covenant.Types.{Bytes}
use arkade_poker.Game.Stage.{action_concession}
use arkade_poker.Game.Hand.{SavedSpend, PreparedState, Parts, sign_spend, spend_signed}
use arkade_poker.Game.Codec.{write_blob}
use arkade_poker.Game.Codec.Spends.{
  SpendParts, Outpoint, no_bet, encode_saved, decode_saved, encode_action, encode_bundle,
  write_text, expected_fields,
}
use arkade_poker.Game.Codec.Spends.RoundTrip.{IsOutpoint, IsSizedSpend, decode_saved-encode_saved}
use arkade_poker.Game.Codec.Spends.Same.{unsigned, sign_spend-unsigned}
use arkade_poker.Prelude.{le_bytes}
use arkade_poker.Tests.Hand.{parts, bundle, spend, hand_event, held, held_state}

-- No funding, reveals or showdown are written.
abbrev codec : SpendParts
codec = record {
  utf8_valid = λ _. true;
  write_funding = λ _. err bad_encoding;
  read_funding = λ _. err bad_encoding;
  write_reveals = λ _. err bad_encoding;
  read_reveals = λ _. err bad_encoding;
  write_showdown = λ _. err bad_encoding;
  read_showdown = λ _. err bad_encoding;
  bundle_transactions = λ _. ok tt;
}

-- A concession
abbrev saved : SavedSpend
saved = record spend {
  source = some (replicate 32 1, 0);
  action = record {
    kind = action_concession;
    bet = no_bet;
    funding = none;
    reveals = none;
    showdown = none;
    observed_at = 0;
  };
}

abbrev signed_saved : SavedSpend
signed_saved = record saved { signed = some bundle }

sized_source : (op : Outpoint) → saved.source ≡ some op → IsOutpoint op
sized_source op h = subst IsOutpoint (some-inj h) (refl, omega arith)

saved-IsSizedSpend : IsSizedSpend saved
saved-IsSizedSpend = record {
  route = omega arith;
  source = sized_source;
  sources = tt;
  action = record { amount = record { kept = refl; small = omega arith }; time = omega arith };
}

signed_saved-IsSizedSpend : IsSizedSpend signed_saved
signed_saved-IsSizedSpend = record {
  route = omega arith;
  source = sized_source;
  sources = tt;
  action = record { amount = record { kept = refl; small = omega arith }; time = omega arith };
}

abbrev saved_bytes : Bytes
saved_bytes =
    (2 ∷ 1 ∷ replicate 32 1)
    ++ (0 ∷ 0 ∷ 0 ∷ 0 ∷ 0 ∷ 0 ∷ 0 ∷ 0 ∷ 9 ∷ 2 ∷ 0 ∷ 0 ∷ 0 ∷ 2 ∷ 2 ∷ 0 ∷ 0 ∷ 0 ∷ 0 ∷ 1 ∷ 2 ∷ 0 ∷ 0
        ∷ 0 ∷ 2 ∷ 2 ∷ 0 ∷ 0 ∷ 0 ∷ 0 ∷ [])

saved_is_written : encode_saved codec signed_saved ≡ ok saved_bytes
unfolding encode_saved encode_action encode_bundle write_text write_blob expected_fields le_bytes
saved_is_written = refl

decode_saved-encode_saved_example :
    decode_saved codec (saved_bytes ++ (5 ∷ [])) ≡ ok (signed_saved, 5 ∷ [])
decode_saved-encode_saved_example =
    decode_saved-encode_saved codec signed_saved saved_bytes (5 ∷ []) (inl refl)
      signed_saved-IsSizedSpend saved_is_written

-- The reducer's parts, with the codec
abbrev exact_parts : Parts
exact_parts = record parts { encode_saved = encode_saved codec }

saved_is_signed :
    sign_spend exact_parts (held 30 0 saved) (hand_event spend_signed 60 signed_saved)
    ≡ ok (held 31 0 signed_saved)
unfolding sign_spend encode_saved encode_action encode_bundle write_text write_blob expected_fields
    le_bytes
saved_is_signed = refl

sign_spend-unsigned_example :
    (q : PreparedState) × ((held 31 0 signed_saved).prepared ≡ some q)
    × (unsigned q.saved ≡ unsigned saved)
    × (q.built ≡ (held_state 0 saved).built)
sign_spend-unsigned_example =
    sign_spend-unsigned codec exact_parts (held 30 0 saved) (held 31 0 signed_saved)
      (hand_event spend_signed 60 signed_saved) (held_state 0 saved) (λ _. refl) refl (inl refl)
      (inl refl) saved-IsSizedSpend signed_saved-IsSizedSpend saved_is_signed

-- ===== src/Tests/Messages.antt =====
-- A message of the setup and an invitation, written and read.
use arkade_poker.Prelude.{
  ℕ, suc, ◌≡◌, ◌↔◌, ◌-◌, ◌*◌, ◌/◌, refl, arith, true, false, [], ◌∷◌, ◌++◌, none, some, pos, length,
  replicate, take, le_bytes, length-replicate, length-append, take-append, Result, ok, err, ap, sym,
  ◌∙◌, bad_encoding,
}
use arkade_poker.Covenant.Types.{Bytes}
use arkade_poker.Covenant.Amounts.{validate_terms}
use arkade_poker.Game.Codec.{write_header, write_blob, with_checksum, message_domain}
use arkade_poker.Game.Codec.Messages.{
  WireMessage, Crypto, encode_message, decode_message, encode_keys, encode_participant, encode_body,
  with_envelope,
}
use arkade_poker.Game.Codec.Messages.RoundTrip.{
  IsCodec, IsCrypto, IsSizedMessage, decode_message-encode_message,
}
use arkade_poker.Game.Codec.Invitations.{
  WireInvitation, Outside, encoded_len, invitation_prefix, digest, session_domain,
  invitation_binary, invitation_fields, decode_invitation_binary, shared_fields, short_checksum,
  encode_invitation, decode_invitation, validate_relay, write_str, cut_prefix, host_of,
}
use arkade_poker.Game.Codec.Invitations.RoundTrip.{
  IsSizedInvitation, decode_invitation_binary-invitation_binary,
}
use arkade_poker.Game.Codec.Invitations.Shared.{IsBase64, decode_invitation-encode_invitation}

-- A value is a number, and its encoding starts with it.
abbrev write_value : ℕ → ℕ → Result Bytes
write_value n v = ok (v ∷ replicate n 0)

abbrev read_value : Bytes → Result ℕ
read_value [] = err bad_encoding
read_value (v ∷ _) = ok v

values-IsCodec : (n : ℕ) → IsCodec (suc n) (write_value n) read_value
values-IsCodec n = record {
  sized = λ v b h. sym (ap length (values-first v b h)) ∙ ap suc (length-replicate n 0);
  reads = λ v b h. sym (ap read_value (values-first v b h));
}
  where
    values-first : (v : ℕ) (b : Bytes) → write_value n v ≡ ok b → v ∷ replicate n 0 ≡ b
    values-first v b h = cc

abbrev crypto : Crypto ℕ ℕ ℕ ℕ
crypto = record {
  valid_x_only = λ _. true;
  key_bytes = write_value 32;
  decode_key = read_value;
  ownership_bytes = write_value 64;
  decode_ownership = read_value;
  deck_bytes = write_value 3431;
  decode_deck = read_value;
  proof_bytes = write_value 5546;
  decode_proof = read_value;
}

crypto-IsCrypto : IsCrypto crypto
crypto-IsCrypto = record {
  keys = values-IsCodec 32;
  ownerships = values-IsCodec 64;
  decks = values-IsCodec 3431;
  proofs = values-IsCodec 5546;
}

abbrev offer : WireMessage ℕ ℕ ℕ ℕ
offer = record {
  session_id = replicate 32 1;
  sequence = 0;
  sender = 2;
  identity = replicate 32 2;
  kind = 1;
  participant =
      some
        (record { signing_key = replicate 32 3; encryption_key = 4; payout_script = 5 ∷ 6 ∷ [] });
  ownership = some 7;
  wallet_ownership = 8 ∷ [];
  deck = none;
  shuffle_proof = none;
  initial_deadline = 0;
}

offer-IsSizedMessage : IsSizedMessage crypto offer
offer-IsSizedMessage = record {
  session = refl;
  identity = refl;
  sequence = omega arith;
  deadline = omega arith;
  key = refl;
}

abbrev offer_bytes : Bytes
offer_bytes = with_envelope crypto offer (
    (replicate 32 3 ++ ((4 ∷ replicate 32 0) ++ (2 ∷ 0 ∷ 0 ∷ 0 ∷ 5 ∷ 6 ∷ [])))
    ++ ((7 ∷ replicate 64 0) ++ (1 ∷ 0 ∷ 0 ∷ 0 ∷ 8 ∷ [])))

offer_is_written : encode_message crypto offer ≡ ok offer_bytes
unfolding encode_message encode_body encode_keys encode_participant write_blob le_bytes
    with_envelope write_header message_domain
offer_is_written = refl

decode_message-encode_message_example :
    (decode_message crypto offer_bytes ≡ ok offer) ↔ (encode_message crypto offer ≡ ok offer_bytes)
decode_message-encode_message_example =
    decode_message-encode_message crypto offer offer_bytes crypto-IsCrypto offer-IsSizedMessage

-- A toy for base64: the bytes, filled up to the length of their encoding.
abbrev zero_byte : ℕ
zero_byte = 0

abbrev fill : Bytes → Bytes
fill b = b ++ replicate (encoded_len (length b) - length b) zero_byte

abbrev outside : Outside
outside = record {
  sha256 = λ _. replicate 32 9;
  valid_x_only = λ _. true;
  utf8_valid = λ _. true;
  has_space = λ _. false;
  base64 = fill;
  decode_base64 = λ t. some (take (length t * 6 / 8) t);
}

outside-IsBase64 : IsBase64 outside
outside-IsBase64 = record {
  decodes =
      λ b. rw (back b, take-append b (replicate (encoded_len (length b) - length b) zero_byte));
  sized = λ b. long b;
}
  where
    long : (b : Bytes) → length (fill b) ≡ encoded_len (length b)
    long b = omega (
      arith,
      length-append b (replicate (encoded_len (length b) - length b) zero_byte),
      length-replicate (encoded_len (length b) - length b) zero_byte,
    )

    back : (b : Bytes) → length (fill b) * 6 / 8 ≡ length b
    back b = omega (
      arith,
      length-append b (replicate (encoded_len (length b) - length b) zero_byte),
      length-replicate (encoded_len (length b) - length b) zero_byte,
    )

abbrev invitation : WireInvitation
invitation = record {
  session_id = replicate 32 9;
  terms = record { stake = pos 5000; bond = pos 5000; min_bet = pos 500; max_wager = pos 100000 };
  relay_url = 119 ∷ 115 ∷ 58 ∷ 47 ∷ 47 ∷ 114 ∷ [];
  creator_transport_key = replicate 32 1;
  service_binding = replicate 32 2;
  join_capability = replicate 32 3;
}

invitation-IsSizedInvitation : IsSizedInvitation invitation
invitation-IsSizedInvitation = record { binding = refl; creator = refl; join = refl }

abbrev relay : Bytes
relay = 6 ∷ 0 ∷ 0 ∷ 0 ∷ invitation.relay_url

abbrev canonical : Bytes
canonical = with_checksum outside.sha256 (invitation_fields outside invitation relay)

decode_invitation_binary-invitation_binary_example :
    (decode_invitation_binary outside canonical ≡ ok invitation) ↔ (
      (invitation_binary outside invitation ≡ ok canonical)
      × (invitation.session_id ≡ digest outside session_domain canonical))
decode_invitation_binary-invitation_binary_example =
    decode_invitation_binary-invitation_binary outside invitation canonical (λ _. refl)
      invitation-IsSizedInvitation

abbrev shared : Bytes
shared =
    invitation_prefix ++ fill (shared_fields outside invitation ++ short_checksum outside canonical)

invitation_is_written : encode_invitation outside invitation ≡ ok shared
unfolding encode_invitation invitation_binary validate_terms validate_relay write_str write_blob
    cut_prefix host_of le_bytes
invitation_is_written = refl

decode_invitation-encode_invitation_example : decode_invitation outside shared ≡ ok invitation
decode_invitation-encode_invitation_example =
    decode_invitation-encode_invitation outside invitation shared outside-IsBase64 (λ _. refl)
      invitation-IsSizedInvitation invitation_is_written

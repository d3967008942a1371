-- ===== src/Game/Codec/Messages.antt =====
-- EncodeMessage, DecodeMessage and the participant's codec of internal/game/codec.go. Keys, proofs and decks are
-- values of internal/shuffle, whose own codecs are parameters.
pub mod RoundTrip
use arkade_poker.Prelude.{
  ℕ, ◌+◌, ◌*◌, Bool, not, ◌&&◌, ◌||◌, List, [], ◌∷◌, ◌++◌, Option, none, some, ltb, ◌==◌,
  if◌then◌else◌, length, le_bytes, Result, ok, err, ◌>>=◌, ◌>>◌, reject, guard, or_fail,
  bad_encoding,
}
use arkade_poker.Covenant.Types.{Bytes}
use arkade_poker.Covenant.Amounts.{bytes_eq}
use arkade_poker.Game.Hand.{is_some}
use arkade_poker.Game.Setup.{key_offer, key_reply, initial_shuffle, final_shuffle}
use arkade_poker.Game.Codec.{
  max_message_bytes, max_script_bytes, message_domain, write_blob, write_header, read_raw,
  read_uint, read_blob, read_header, read_done,
}

pub record Participant (Key : Type 0) : Type 0 where
  pub signing_key : Bytes
  pub encryption_key : Key
  pub payout_script : Bytes

-- Message of setup.go, whole
pub record WireMessage (Key Ownership Deck Proof : Type 0) : Type 0 where
  pub session_id : Bytes
  pub sequence : ℕ
  pub sender : ℕ
  pub identity : Bytes
  pub kind : ℕ
  pub participant : Option (Participant Key)
  pub ownership : Option Ownership
  pub wallet_ownership : Bytes
  pub deck : Option Deck
  pub shuffle_proof : Option Proof
  pub initial_deadline : ℕ

-- MarshalBinary and the decoders of internal/shuffle, and the test of an x-only key
pub record Crypto (Key Ownership Deck Proof : Type 0) : Type 0 where
  pub valid_x_only : Bytes → Bool
  pub key_bytes : Key → Result Bytes
  pub decode_key : Bytes → Result Key
  pub ownership_bytes : Ownership → Result Bytes
  pub decode_ownership : Bytes → Result Ownership
  pub deck_bytes : Deck → Result Bytes
  pub decode_deck : Bytes → Result Deck
  pub proof_bytes : Proof → Result Bytes
  pub decode_proof : Bytes → Result Proof

-- DeckSize * 66
abbrev pub deck_bytes_size : ℕ
deck_bytes_size = 3432

abbrev pub shuffle_proof_size : ℕ
shuffle_proof_size = 5547

module _ {Key Ownership Deck Proof : Type 0} (crypto : Crypto Key Ownership Deck Proof) where
  unfoldable pub encode_participant : Participant Key → Result Bytes
  encode_participant p = do
    guard (crypto.valid_x_only p.signing_key) bad_encoding
    key ← crypto.key_bytes p.encryption_key
    script ← write_blob p.payout_script max_script_bytes
    ok (p.signing_key ++ (key ++ script))

  unfoldable pub decode_participant : Bytes → Result (Participant Key × Bytes)
  decode_participant bytes = do
    signing ← read_raw 32 bytes
    encryption ← read_raw 33 signing.1
    key ← crypto.decode_key encryption.0
    script ← read_blob max_script_bytes encryption.1
    guard (crypto.valid_x_only signing.0) bad_encoding
    ok (
      record { signing_key = signing.0; encryption_key = key; payout_script = script.0 },
      script.1,
    )

  -- The cases of EncodeMessage
  unfoldable pub encode_keys : WireMessage Key Ownership Deck Proof → Result Bytes
  encode_keys m = do
    reject (is_some m.deck || (is_some m.shuffle_proof || not (m.initial_deadline == 0)))
        bad_encoding
    p ← or_fail m.participant bad_encoding
    o ← or_fail m.ownership bad_encoding
    participant ← encode_participant p
    ownership ← crypto.ownership_bytes o
    wallet ← write_blob m.wallet_ownership max_message_bytes
    ok (participant ++ (ownership ++ wallet))

  abbrev pub encode_deadline : ℕ → ℕ → Bytes
  encode_deadline kind deadline = if kind == final_shuffle then le_bytes 8 deadline else []

  unfoldable pub encode_shuffle : WireMessage Key Ownership Deck Proof → Result Bytes
  encode_shuffle m = do
    reject
        (is_some m.participant
          || (is_some m.ownership
              || (not (length m.wallet_ownership == 0)
                  || (m.kind == initial_shuffle && not (m.initial_deadline == 0)))))
        bad_encoding
    d ← or_fail m.deck bad_encoding
    q ← or_fail m.shuffle_proof bad_encoding
    deck ← crypto.deck_bytes d
    proof ← crypto.proof_bytes q
    ok (deck ++ (proof ++ encode_deadline m.kind m.initial_deadline))

  unfoldable pub encode_body : WireMessage Key Ownership Deck Proof → Result Bytes
  encode_body m =
      if m.kind == key_offer || m.kind == key_reply
      then encode_keys m
      else (if m.kind == initial_shuffle || m.kind == final_shuffle
          then encode_shuffle m
          else err bad_encoding)

  -- What stands in front of the body
  unfoldable pub with_envelope : WireMessage Key Ownership Deck Proof → Bytes → Bytes
  with_envelope m body =
      write_header message_domain
      ++ (m.session_id
          ++ (le_bytes 1 m.sender
              ++ (m.identity ++ (le_bytes 8 m.sequence ++ (le_bytes 1 m.kind ++ body)))))

  unfoldable pub encode_message : WireMessage Key Ownership Deck Proof → Result Bytes
  encode_message m = do
    reject (not (crypto.valid_x_only m.identity) || (not (m.sender == 1) && not (m.sender == 2)))
        bad_encoding
    body ← encode_body m
    reject (ltb max_message_bytes (length (with_envelope m body))) bad_encoding
    ok (with_envelope m body)

  -- The cases of DecodeMessage: they fill in the message that the envelope has started.
  unfoldable pub decode_keys :
      WireMessage Key Ownership Deck Proof
      → Bytes
      → Result (WireMessage Key Ownership Deck Proof × Bytes)
  decode_keys m bytes = do
    reject (ltb (length bytes) 138) bad_encoding
    p ← decode_participant bytes
    o ← read_raw 65 p.1
    ownership ← crypto.decode_ownership o.0
    wallet ← read_blob max_message_bytes o.1
    ok (
      record m { participant = some p.0; ownership = some ownership; wallet_ownership = wallet.0 },
      wallet.1,
    )

  abbrev pub decode_deadline : ℕ → Bytes → Result (ℕ × Bytes)
  decode_deadline kind bytes = if kind == final_shuffle then read_uint 8 bytes else ok (0, bytes)

  unfoldable pub decode_shuffle :
      WireMessage Key Ownership Deck Proof
      → Bytes
      → Result (WireMessage Key Ownership Deck Proof × Bytes)
  decode_shuffle m bytes = do
    guard
        (length bytes
          == deck_bytes_size + shuffle_proof_size + (if m.kind == final_shuffle then 8 else 0))
        bad_encoding
    d ← read_raw deck_bytes_size bytes
    deck ← crypto.decode_deck d.0
    q ← read_raw shuffle_proof_size d.1
    proof ← crypto.decode_proof q.0
    deadline ← decode_deadline m.kind q.1
    ok (
      record m { deck = some deck; shuffle_proof = some proof; initial_deadline = deadline.0 },
      deadline.1,
    )

  unfoldable pub decode_body :
      WireMessage Key Ownership Deck Proof
      → Bytes
      → Result (WireMessage Key Ownership Deck Proof × Bytes)
  decode_body m bytes =
      if m.kind == key_offer || m.kind == key_reply
      then decode_keys m bytes
      else (if m.kind == initial_shuffle || m.kind == final_shuffle
          then decode_shuffle m bytes
          else err bad_encoding)

  -- The reads of DecodeMessage
  unfoldable pub read_message : Bytes → Result (WireMessage Key Ownership Deck Proof × Bytes)
  read_message bytes = do
    headed ← read_header message_domain bytes
    session ← read_raw 32 headed
    sender ← read_uint 1 session.1
    identity ← read_raw 32 sender.1
    sequence ← read_uint 8 identity.1
    kind ← read_uint 1 sequence.1
    decode_body
        (record {
          session_id = session.0;
          sequence = sequence.0;
          sender = sender.0;
          identity = identity.0;
          kind = kind.0;
          participant = none;
          ownership = none;
          wallet_ownership = [];
          deck = none;
          shuffle_proof = none;
          initial_deadline = 0;
        })
        kind.1

  unfoldable pub decode_message : Bytes → Result (WireMessage Key Ownership Deck Proof)
  decode_message bytes = do
    reject (ltb max_message_bytes (length bytes)) bad_encoding
    m ← read_message bytes
    read_done m.1
    b ← encode_message m.0
    guard (bytes_eq b bytes) bad_encoding
    ok m.0

-- ===== src/Game/Codec/Messages/RoundTrip.antt =====
-- A message is decoded from its encoding, and from nothing else.
use arkade_poker.Prelude.{
  ℕ, ◌≡◌, ◌<◌, ◌≤◌, ◌↔◌, ◌⊎◌, inl, inr, ◌+◌, true, false, not, ◌&&◌, ◌||◌, [], ◌∷◌, ◌++◌, Option,
  none, some, ltb, ◌==◌, if◌then◌else◌, length, le_bytes, Result, ok, refl, arith, sym, ◌∙◌, ap,
  subst, >>=-eq-ok, past, past_guard, past_reject, past_or_fail, ok-inj, if-cases, Bool-cases,
  bad_encoding, length-append, length-le_bytes,
}
use mathlib.Core.List.{append_assoc, append-nil}
use arkade_poker.Covenant.Types.{Bytes}
use arkade_poker.Covenant.Amounts.{bytes_eq}
use arkade_poker.Game.Hand.{is_some}
use arkade_poker.Game.Setup.{key_offer, key_reply, initial_shuffle, final_shuffle}
use arkade_poker.Merkel.Tree.Climb.{bytes_eq→≡}
use arkade_poker.Game.Codec.{
  max_message_bytes, max_script_bytes, message_domain, write_blob, read_uint, read_blob, read_done,
}
use arkade_poker.Game.Codec.Reads.{
  bytes_eq_refl, read_raw-append, read_uint-append, read_header-append, write_blob-eq,
  read_blob-append,
}
use arkade_poker.Game.Codec.Messages.{
  Participant, WireMessage, Crypto, deck_bytes_size, shuffle_proof_size, encode_participant,
  decode_participant, encode_keys, encode_deadline, encode_shuffle, encode_body, with_envelope,
  encode_message, decode_keys, decode_deadline, decode_shuffle, decode_body, decode_message,
  read_message,
}

-- A codec of values in a fixed number of bytes
pub record IsCodec {Value : Type 0} (n : ℕ) (write : Value → Result Bytes)
    (read : Bytes → Result Value) : Type 0 where
  pub sized : (v : Value) (b : Bytes) → write v ≡ ok b → length b ≡ n
  pub reads : (v : Value) (b : Bytes) → write v ≡ ok b → read b ≡ ok v

module _ {Key Ownership Deck Proof : Type 0} (crypto : Crypto Key Ownership Deck Proof) where
  -- What internal/shuffle documents of its codecs
  pub record IsCrypto : Type 0 where
    pub keys : IsCodec 33 crypto.key_bytes crypto.decode_key
    pub ownerships : IsCodec 65 crypto.ownership_bytes crypto.decode_ownership
    pub decks : IsCodec deck_bytes_size crypto.deck_bytes crypto.decode_deck
    pub proofs : IsCodec shuffle_proof_size crypto.proof_bytes crypto.decode_proof

  abbrev pub IsSizedKey : Option (Participant Key) → Type 0
  IsSizedKey none = Unit
  IsSizedKey (some p) = length p.signing_key ≡ 32

  -- The arrays of the message have the length of their Go type, and its numbers fit theirs.
  pub record IsSizedMessage (m : WireMessage Key Ownership Deck Proof) : Type 0 where
    pub session : length m.session_id ≡ 32
    pub identity : length m.identity ≡ 32
    pub sequence : m.sequence < 18446744073709551616
    pub deadline : m.initial_deadline < 18446744073709551616
    pub key : IsSizedKey m.participant

  decode_participant-encode :
      (p : Participant Key) (rest : Bytes) {out : Bytes}
      → IsCrypto
      → length p.signing_key ≡ 32
      → encode_participant crypto p ≡ ok out
      → decode_participant crypto (out ++ rest) ≡ ok (p, rest)
  unfolding encode_participant decode_participant
  decode_participant-encode p rest laws sized h =
      let (valid, h1) = past_guard (crypto.valid_x_only p.signing_key) bad_encoding _ h in
      let (key, k, h2) = >>=-eq-ok (crypto.key_bytes p.encryption_key) _ h1 in
      let (script, s, h3) = >>=-eq-ok (write_blob p.payout_script max_script_bytes) _ h2 in
      rw (
        sym (ok-inj h3),
        append_assoc p.signing_key (key ++ script) rest,
        append_assoc key script rest,
        read_raw-append 32 p.signing_key (key ++ (script ++ rest)) sized,
        read_raw-append 33 key (script ++ rest) (laws.keys.sized p.encryption_key key k),
        laws.keys.reads p.encryption_key key k,
        read_blob-append p.payout_script max_script_bytes rest (omega arith) s,
        valid,
      )

  length-encode_participant :
      (p : Participant Key) {out : Bytes}
      → IsCrypto
      → length p.signing_key ≡ 32
      → encode_participant crypto p ≡ ok out
      → 69 ≤ length out
  unfolding encode_participant
  length-encode_participant p laws sized h =
      let (valid, h1) = past_guard (crypto.valid_x_only p.signing_key) bad_encoding _ h in
      let (key, k, h2) = >>=-eq-ok (crypto.key_bytes p.encryption_key) _ h1 in
      let (script, s, h3) = >>=-eq-ok (write_blob p.payout_script max_script_bytes) _ h2 in
      let (_, e) = write_blob-eq p.payout_script max_script_bytes s in
      omega (
        arith,
        ap length (ok-inj h3),
        length-append p.signing_key (key ++ script),
        length-append key script,
        laws.keys.sized p.encryption_key key k,
        sized,
        ap length e,
        length-append (le_bytes 4 (length p.payout_script)) p.payout_script,
        length-le_bytes 4 (length p.payout_script),
      )

  is_some-none {ℓ} : {A : Type ℓ} (o : Option A) → is_some o ≡ false → o ≡ none
  is_some-none none h = refl
  is_some-none (some v) h = cc

  length-none : (b : Bytes) → (length b == 0) ≡ true → b ≡ []
  length-none [] h = refl
  length-none (x ∷ b) h = absurd (ground (arith, h))

  -- The message that the envelope starts
  abbrev started : WireMessage Key Ownership Deck Proof → WireMessage Key Ownership Deck Proof
  started m = record m {
    participant = none;
    ownership = none;
    wallet_ownership = [];
    deck = none;
    shuffle_proof = none;
    initial_deadline = 0;
  }

  decode_keys-encode :
      (m : WireMessage Key Ownership Deck Proof) {body : Bytes}
      → IsCrypto
      → IsSizedMessage m
      → encode_keys crypto m ≡ ok body
      → decode_keys crypto (started m) body ≡ ok (m, [])
  unfolding encode_keys decode_keys
  decode_keys-encode m laws sized h =
      let (others, h1) =
        past_reject (is_some m.deck || (is_some m.shuffle_proof || not (m.initial_deadline == 0)))
          bad_encoding _ h in
      let (p, has, h2) = past_or_fail m.participant bad_encoding _ h1 in
      let (o, owns, h3) = past_or_fail m.ownership bad_encoding _ h2 in
      let (participant, ep, h4) = >>=-eq-ok (encode_participant crypto p) _ h3 in
      let (ownership, eo, h5) = >>=-eq-ok (crypto.ownership_bytes o) _ h4 in
      let (wallet, ew, h6) = >>=-eq-ok (write_blob m.wallet_ownership max_message_bytes) _ h5 in
      let no_deck : m.deck ≡ none = is_some-none m.deck (ground (arith, others)) in
      let no_proof : m.shuffle_proof ≡ none =
        is_some-none m.shuffle_proof (ground (arith, others)) in
      let no_deadline : m.initial_deadline ≡ 0 = ground (arith, others) in
      let signing : length p.signing_key ≡ 32 = subst IsSizedKey has sized.key in
      let (_, eb) = write_blob-eq m.wallet_ownership max_message_bytes ew in
      let long : ltb (length (participant ++ (ownership ++ wallet))) 138 ≡ false = ground (
        arith,
        length-append participant (ownership ++ wallet),
        length-append ownership wallet,
        length-encode_participant p laws signing ep,
        laws.ownerships.sized o ownership eo,
        ap length eb,
        length-append (le_bytes 4 (length m.wallet_ownership)) m.wallet_ownership,
        length-le_bytes 4 (length m.wallet_ownership),
      ) in
      let blob : read_blob max_message_bytes wallet ≡ ok (m.wallet_ownership, []) =
        subst (λ b. read_blob max_message_bytes b ≡ ok (m.wallet_ownership, [])) (append-nil wallet)
          (read_blob-append m.wallet_ownership max_message_bytes [] (omega arith) ew) in
      let read : decode_keys crypto (started m) (participant ++ (ownership ++ wallet))
          ≡ ok (
            record (started m) {
              participant = some p;
              ownership = some o;
              wallet_ownership = m.wallet_ownership;
            },
            [],
          ) =
        rw (
          long,
          decode_participant-encode p (ownership ++ wallet) laws signing ep,
          read_raw-append 65 ownership wallet (laws.ownerships.sized o ownership eo),
          laws.ownerships.reads o ownership eo,
          blob,
        ) in
      let whole : record (started m) {
        participant = some p;
        ownership = some o;
        wallet_ownership = m.wallet_ownership;
      }
          ≡ m =
        (λ i. record m {
          participant = sym has i;
          ownership = sym owns i;
          deck = sym no_deck i;
          shuffle_proof = sym no_proof i;
          initial_deadline = sym no_deadline i;
        }) in
      subst (λ b. decode_keys crypto (started m) b ≡ ok (m, [])) (ok-inj h6)
        (subst
          (λ w. decode_keys crypto (started m) (participant ++ (ownership ++ wallet)) ≡ ok (w, []))
          whole read)

  -- The deadline of a message that carries one, or the zero that the encoder asks for.
  decode_deadline-encode :
      (kind deadline : ℕ)
      → deadline < 18446744073709551616
      → (kind == final_shuffle) ≡ true ⊎ (deadline ≡ 0)
      → decode_deadline crypto kind (encode_deadline crypto kind deadline) ≡ ok (deadline, [])
  decode_deadline-encode kind deadline small last = elim (Bool-cases (kind == final_shuffle)) [
    | inl final ↦
        let whole : read_uint 8 (le_bytes 8 deadline) ≡ ok (deadline, []) =
          subst (λ b. read_uint 8 b ≡ ok (deadline, [])) (append-nil (le_bytes 8 deadline))
            (read_uint-append 8 deadline [] (omega (arith, small))) in
        rw (final, whole)
    | inr first ↦ ground (arith, first, last)
  ]

  length-encode_deadline :
      (kind deadline : ℕ)
      → length (encode_deadline crypto kind deadline) ≡ (if kind == final_shuffle then 8 else 0)
  length-encode_deadline kind deadline = elim (Bool-cases (kind == final_shuffle)) [
    | inl final ↦ rw (final, length-le_bytes 8 deadline)
    | inr first ↦ rw first
  ]

  decode_shuffle-encode :
      (m : WireMessage Key Ownership Deck Proof) {body : Bytes}
      → IsCrypto
      → IsSizedMessage m
      → (m.kind == initial_shuffle || m.kind == final_shuffle) ≡ true
      → encode_shuffle crypto m ≡ ok body
      → decode_shuffle crypto (started m) body ≡ ok (m, [])
  unfolding encode_shuffle decode_shuffle
  decode_shuffle-encode m laws sized kinds h =
      let (others, h1) =
        past_reject
          (is_some m.participant
            || (is_some m.ownership
                || (not (length m.wallet_ownership == 0)
                    || (m.kind == initial_shuffle && not (m.initial_deadline == 0)))))
          bad_encoding _ h in
      let (d, has, h2) = past_or_fail m.deck bad_encoding _ h1 in
      let (q, proves, h3) = past_or_fail m.shuffle_proof bad_encoding _ h2 in
      let (deck, ed, h4) = >>=-eq-ok (crypto.deck_bytes d) _ h3 in
      let (proof, eq, h5) = >>=-eq-ok (crypto.proof_bytes q) _ h4 in
      let nobody : m.participant ≡ none = is_some-none m.participant (ground (arith, others)) in
      let unowned : m.ownership ≡ none = is_some-none m.ownership (ground (arith, others)) in
      let no_wallet : m.wallet_ownership ≡ [] =
        length-none m.wallet_ownership (ground (arith, others)) in
      let last : (m.kind == final_shuffle) ≡ true ⊎ (m.initial_deadline ≡ 0) =
        ground (arith, others, kinds) in
      let tail = encode_deadline crypto m.kind m.initial_deadline in
      let long : (length (deck ++ (proof ++ tail))
            == deck_bytes_size + shuffle_proof_size + (if m.kind == final_shuffle then 8 else 0))
          ≡ true =
        ground (
          arith,
          length-append deck (proof ++ tail),
          length-append proof tail,
          laws.decks.sized d deck ed,
          laws.proofs.sized q proof eq,
          length-encode_deadline m.kind m.initial_deadline,
        ) in
      let read : decode_shuffle crypto (started m) (deck ++ (proof ++ tail))
          ≡ ok (
            record (started m) {
              deck = some d;
              shuffle_proof = some q;
              initial_deadline = m.initial_deadline;
            },
            [],
          ) =
        rw (
          long,
          read_raw-append deck_bytes_size deck (proof ++ tail) (laws.decks.sized d deck ed),
          laws.decks.reads d deck ed,
          read_raw-append shuffle_proof_size proof tail (laws.proofs.sized q proof eq),
          laws.proofs.reads q proof eq,
          decode_deadline-encode m.kind m.initial_deadline sized.deadline last,
        ) in
      let whole : record (started m) {
        deck = some d;
        shuffle_proof = some q;
        initial_deadline = m.initial_deadline;
      }
          ≡ m =
        (λ i. record m {
          participant = sym nobody i;
          ownership = sym unowned i;
          wallet_ownership = sym no_wallet i;
          deck = sym has i;
          shuffle_proof = sym proves i;
        }) in
      subst (λ b. decode_shuffle crypto (started m) b ≡ ok (m, [])) (ok-inj h5)
        (subst (λ w. decode_shuffle crypto (started m) (deck ++ (proof ++ tail)) ≡ ok (w, [])) whole
          read)

  decode_body-encode :
      (m : WireMessage Key Ownership Deck Proof) {body : Bytes}
      → IsCrypto
      → IsSizedMessage m
      → encode_body crypto m ≡ ok body
      → decode_body crypto (started m) body ≡ ok (m, [])
  unfolding encode_body decode_body
  decode_body-encode m laws sized h =
      elim (if-cases (m.kind == key_offer || m.kind == key_reply) h) [
        | inl (keys, k) ↦ rw (keys, decode_keys-encode m laws sized k)
        | inr (others, k) ↦
            elim (if-cases (m.kind == initial_shuffle || m.kind == final_shuffle) k) [
              | inl (shuffles, l) ↦
                  rw (others, shuffles, decode_shuffle-encode m laws sized shuffles l)
              | inr (_, l) ↦ cc
            ]
      ]

  encode_body-kind :
      (m : WireMessage Key Ownership Deck Proof) {body : Bytes}
      → encode_body crypto m ≡ ok body
      → m.kind < 5
  unfolding encode_body
  encode_body-kind m h = elim (if-cases (m.kind == key_offer || m.kind == key_reply) h) [
    | inl (keys, k) ↦ ground (arith, keys)
    | inr (others, k) ↦ elim (if-cases (m.kind == initial_shuffle || m.kind == final_shuffle) k) [
      | inl (shuffles, l) ↦ ground (arith, shuffles)
      | inr (_, l) ↦ cc
    ]
  ]

  -- What the encoder has checked of a message that it encodes
  encode_message-eq :
      (m : WireMessage Key Ownership Deck Proof) {b : Bytes}
      → encode_message crypto m ≡ ok b
      → (body : Bytes) × (encode_body crypto m ≡ ok body)
        × ((m.sender ≡ 1) ⊎ (m.sender ≡ 2))
        × (m.kind < 5)
        × (ltb max_message_bytes (length (with_envelope crypto m body)) ≡ false)
        × (with_envelope crypto m body ≡ b)
  unfolding encode_message
  encode_message-eq m h =
      let (who, h1) =
        past_reject
          (not (crypto.valid_x_only m.identity) || (not (m.sender == 1) && not (m.sender == 2)))
          bad_encoding _ h in
      let (body, eb, h2) = >>=-eq-ok (encode_body crypto m) _ h1 in
      let (small, h3) =
        past_reject (ltb max_message_bytes (length (with_envelope crypto m body))) bad_encoding _
          h2 in
      (body, eb, ground (arith, who), encode_body-kind m eb, small, ok-inj h3)

  read_message-envelope :
      (m : WireMessage Key Ownership Deck Proof) (body : Bytes)
      → IsSizedMessage m
      → m.sender < 256
      → m.kind < 256
      → read_message crypto (with_envelope crypto m body) ≡ decode_body crypto (started m) body
  unfolding read_message with_envelope
  read_message-envelope m body sized sender kind =
      let numbered = le_bytes 1 m.kind ++ body in
      let ordered = le_bytes 8 m.sequence ++ numbered in
      let identified = m.identity ++ ordered in
      let sent = le_bytes 1 m.sender ++ identified in
      rw (
        read_header-append message_domain (m.session_id ++ sent),
        read_raw-append 32 m.session_id sent sized.session,
        read_uint-append 1 m.sender identified (omega (arith, sender)),
        read_raw-append 32 m.identity ordered sized.identity,
        read_uint-append 8 m.sequence numbered (omega (arith, sized.sequence)),
        read_uint-append 1 m.kind body (omega (arith, kind)),
      )

  decode_message_sound :
      (m : WireMessage Key Ownership Deck Proof) (b : Bytes)
      → decode_message crypto b ≡ ok m
      → encode_message crypto m ≡ ok b
  unfolding decode_message
  decode_message_sound m b h =
      let (_, h1) = past_reject (ltb max_message_bytes (length b)) bad_encoding _ h in
      let (read, _, h2) = >>=-eq-ok (read_message crypto b) _ h1 in
      let h3 = past (read_done read.1) _ h2 in
      let (again, e, h4) = >>=-eq-ok (encode_message crypto read.0) _ h3 in
      let (same, h5) = past_guard (bytes_eq again b) bad_encoding _ h4 in
      subst (λ w. encode_message crypto w ≡ ok b) (ok-inj h5)
        (e ∙ ap (λ c. ok c) (bytes_eq→≡ again b same))

  decode_message_complete :
      (m : WireMessage Key Ownership Deck Proof) (b : Bytes)
      → IsCrypto
      → IsSizedMessage m
      → encode_message crypto m ≡ ok b
      → decode_message crypto b ≡ ok m
  unfolding decode_message read_done
  decode_message_complete m b laws sized h =
      let (body, eb, who, kind, small, out) = encode_message-eq m h in
      let fits : ltb max_message_bytes (length b) ≡ false =
        subst (λ c. ltb max_message_bytes (length c) ≡ false) out small in
      let read : read_message crypto b ≡ ok (m, []) =
        subst (λ c. read_message crypto c ≡ ok (m, [])) out
          (read_message-envelope m body sized (ground (arith, who)) (omega (arith, kind))
            ∙ decode_body-encode m laws sized eb) in
      rw (fits, read, h, bytes_eq_refl b)

  -- For a message whose arrays and numbers fit their types, where the codecs of keys, proofs and
  -- decks round trip, the bytes that are decoded to it are its encoding, and its encoding is
  -- decoded to it.
  pub decode_message-encode_message :
      (m : WireMessage Key Ownership Deck Proof) (b : Bytes)
      → IsCrypto
      → IsSizedMessage m
      → (decode_message crypto b ≡ ok m) ↔ (encode_message crypto m ≡ ok b)
  decode_message-encode_message m b laws sized =
      (decode_message_sound m b, decode_message_complete m b laws sized)

-- ===== src/Game/Codec/Invitations/RoundTrip.antt =====
-- The binary form of an invitation is decoded to it, and nothing else is.
use arkade_poker.Prelude.{
  ◌%◌, ◌≡◌, ◌<◌, ◌≤◌, ◌↔◌, ◌+◌, true, [], ◌++◌, length, le_bytes, ℤ, pos, negsuc, int64, uint64,
  int64-small, ok, refl, arith, sym, ◌∙◌, ap, subst, >>=-eq-ok, past, past_guard, ok-inj,
  bad_amount, bad_encoding, bad_invitation, length-append, length-le_bytes,
}
use mathlib.Core.List.{append-nil}
use arkade_poker.Covenant.Types.{Bytes}
use arkade_poker.Covenant.Amounts.{Terms, validate_terms, positive, bytes_eq}
use arkade_poker.Merkel.Tree.Climb.{bytes_eq→≡}
use arkade_poker.Game.Codec.{
  invitation_domain, write_blob, write_header, with_checksum, read_done, checked_body,
}
use arkade_poker.Game.Codec.Reads.{
  bytes_eq_refl, read_raw-append, read_uint-append, read_header-append, write_blob-eq,
  read_blob-append, checked_body-append,
}
use arkade_poker.Game.Codec.Invitations.{
  WireInvitation, Outside, session_domain, validate_relay, write_str, read_str, digest,
  invitation_fields, invitation_binary, read_invitation, decode_invitation_binary,
}

-- An `int64` that keeps its value in eight bytes
pub record IsAmount (z : ℤ) : Type 0 where
  pub kept : int64 (uint64 z) ≡ z
  pub small : uint64 z < 18446744073709551616

positive-IsAmount : (z : ℤ) → positive z ≡ true → IsAmount z
positive-IsAmount (pos n) h =
    let low : n ≤ 2100000000000000 = ground (arith, h) in
    let same : n % 18446744073709551616 ≡ n = omega (arith, low) in
    record { kept = rw (same, int64-small n (omega (arith, low))); small = omega arith }
positive-IsAmount (negsuc n) h = absurd (ground (arith, h))

pub record AreAmounts (t : Terms) : Type 0 where
  pub stake : IsAmount t.stake
  pub bond : IsAmount t.bond
  pub min_bet : IsAmount t.min_bet
  pub max_wager : IsAmount t.max_wager

pub validate_terms-AreAmounts : (t : Terms) → validate_terms t ≡ ok tt → AreAmounts t
unfolding validate_terms
validate_terms-AreAmounts t h =
    let (a, h1) = past_guard (positive t.stake) bad_amount _ h in
    let (b, h2) = past_guard (positive t.bond) bad_amount _ h1 in
    let (c, h3) = past_guard (positive t.min_bet) bad_amount _ h2 in
    let (d, _) = past_guard (positive t.max_wager) bad_amount _ h3 in
    record {
      stake = positive-IsAmount t.stake a;
      bond = positive-IsAmount t.bond b;
      min_bet = positive-IsAmount t.min_bet c;
      max_wager = positive-IsAmount t.max_wager d;
    }

-- The arrays of the invitation have the length of their Go type.
pub record IsSizedInvitation (inv : WireInvitation) : Type 0 where
  pub binding : length inv.service_binding ≡ 32
  pub creator : length inv.creator_transport_key ≡ 32
  pub join : length inv.join_capability ≡ 32

module _ (outside : Outside) where
  -- SHA-256 has 32 bytes.
  abbrev pub IsDigest : Type 0
  IsDigest = (b : Bytes) → length (outside.sha256 b) ≡ 32

  -- What the encoder has checked
  pub invitation_binary-eq :
      (inv : WireInvitation) {b : Bytes}
      → invitation_binary outside inv ≡ ok b
      → (relay : Bytes) × AreAmounts inv.terms
        × (outside.utf8_valid inv.relay_url ≡ true)
        × (write_blob inv.relay_url 2048 ≡ ok relay)
        × (with_checksum outside.sha256 (invitation_fields outside inv relay) ≡ b)
  unfolding invitation_binary write_str
  invitation_binary-eq inv h =
      let (_, t, h1) = >>=-eq-ok (validate_terms inv.terms) _ h in
      let h2 = past (validate_relay outside inv.relay_url) _ h1 in
      let (_, h3) =
        past_guard (outside.valid_x_only inv.creator_transport_key) bad_invitation _ h2 in
      let (relay, s, h4) = >>=-eq-ok (write_str outside inv.relay_url 2048) _ h3 in
      let (text, blob) = past_guard (outside.utf8_valid inv.relay_url) bad_encoding _ s in
      (relay, validate_terms-AreAmounts inv.terms t, text, blob, ok-inj h4)

  read_str-append :
      (s rest : Bytes) {out : Bytes}
      → outside.utf8_valid s ≡ true
      → write_blob s 2048 ≡ ok out
      → read_str outside 2048 (out ++ rest) ≡ ok (s, rest)
  unfolding read_str
  read_str-append s rest text blob = rw (read_blob-append s 2048 rest (omega arith) blob, text)

  -- The invitation without its session
  abbrev pub unnamed : WireInvitation → WireInvitation
  unnamed inv = record inv { session_id = [] }

  read_invitation-fields :
      (inv : WireInvitation) (relay : Bytes)
      → IsSizedInvitation inv
      → AreAmounts inv.terms
      → outside.utf8_valid inv.relay_url ≡ true
      → write_blob inv.relay_url 2048 ≡ ok relay
      → read_invitation outside (invitation_fields outside inv relay) ≡ ok (unnamed inv, [])
  unfolding read_invitation invitation_fields
  read_invitation-fields inv relay sized t text blob =
      let r7 = inv.join_capability ++ relay in
      let r6 = inv.creator_transport_key ++ r7 in
      let r5 = inv.service_binding ++ r6 in
      let r4 = le_bytes 8 (uint64 inv.terms.max_wager) ++ r5 in
      let r3 = le_bytes 8 (uint64 inv.terms.min_bet) ++ r4 in
      let r2 = le_bytes 8 (uint64 inv.terms.bond) ++ r3 in
      let r1 = le_bytes 8 (uint64 inv.terms.stake) ++ r2 in
      let last : read_str outside 2048 relay ≡ ok (inv.relay_url, []) =
        subst (λ b. read_str outside 2048 b ≡ ok (inv.relay_url, [])) (append-nil relay)
          (read_str-append inv.relay_url [] text blob) in
      rw (
        read_header-append invitation_domain r1,
        read_uint-append 8 (uint64 inv.terms.stake) r2 (omega (arith, t.stake.small)),
        read_uint-append 8 (uint64 inv.terms.bond) r3 (omega (arith, t.bond.small)),
        read_uint-append 8 (uint64 inv.terms.min_bet) r4 (omega (arith, t.min_bet.small)),
        read_uint-append 8 (uint64 inv.terms.max_wager) r5 (omega (arith, t.max_wager.small)),
        read_raw-append 32 inv.service_binding r6 sized.binding,
        read_raw-append 32 inv.creator_transport_key r7 sized.creator,
        read_raw-append 32 inv.join_capability relay sized.join,
        last,
        t.stake.kept,
        t.bond.kept,
        t.min_bet.kept,
        t.max_wager.kept,
      )

  length-invitation_fields :
      (inv : WireInvitation) (relay : Bytes)
      → IsSizedInvitation inv
      → length (invitation_fields outside inv relay) ≡ 154 + length relay
  unfolding invitation_fields write_header invitation_domain
  length-invitation_fields inv relay sized =
      let r7 = inv.join_capability ++ relay in
      let r6 = inv.creator_transport_key ++ r7 in
      let r5 = inv.service_binding ++ r6 in
      let r4 = le_bytes 8 (uint64 inv.terms.max_wager) ++ r5 in
      let r3 = le_bytes 8 (uint64 inv.terms.min_bet) ++ r4 in
      let r2 = le_bytes 8 (uint64 inv.terms.bond) ++ r3 in
      let r1 = le_bytes 8 (uint64 inv.terms.stake) ++ r2 in
      omega (
        arith,
        length-append (le_bytes 2 1) r1,
        length-le_bytes 2 1,
        length-append (le_bytes 8 (uint64 inv.terms.stake)) r2,
        length-le_bytes 8 (uint64 inv.terms.stake),
        length-append (le_bytes 8 (uint64 inv.terms.bond)) r3,
        length-le_bytes 8 (uint64 inv.terms.bond),
        length-append (le_bytes 8 (uint64 inv.terms.min_bet)) r4,
        length-le_bytes 8 (uint64 inv.terms.min_bet),
        length-append (le_bytes 8 (uint64 inv.terms.max_wager)) r5,
        length-le_bytes 8 (uint64 inv.terms.max_wager),
        length-append inv.service_binding r6,
        length-append inv.creator_transport_key r7,
        length-append inv.join_capability relay,
        sized.binding,
        sized.creator,
        sized.join,
      )

  -- The session is no part of the binary form.
  pub renamed :
      (inv : WireInvitation) (s : Bytes)
      → invitation_binary outside (record inv { session_id = s }) ≡ invitation_binary outside inv
  unfolding invitation_binary invitation_fields
  renamed inv s = refl

  length-with_checksum :
      (body : Bytes)
      → length (with_checksum outside.sha256 body) ≡ length body + length (outside.sha256 body)
  unfolding with_checksum
  length-with_checksum body = length-append body (outside.sha256 body)

  decode_invitation_binary_sound :
      (inv : WireInvitation) (b : Bytes)
      → decode_invitation_binary outside b ≡ ok inv
      → (invitation_binary outside inv ≡ ok b) × (inv.session_id ≡ digest outside session_domain b)
  unfolding decode_invitation_binary
  decode_invitation_binary_sound inv b h =
      let (body, _, h1) = >>=-eq-ok (checked_body outside.sha256 b 4096) _ h in
      let (read, _, h2) = >>=-eq-ok (read_invitation outside body) _ h1 in
      let h3 = past (read_done read.1) _ h2 in
      let (again, e, h4) = >>=-eq-ok (invitation_binary outside read.0) _ h3 in
      let (same, h5) = past_guard (bytes_eq again b) bad_encoding _ h4 in
      let out : again ≡ b = bytes_eq→≡ again b same in
      let whole = ok-inj h5 in
      (
        subst (λ i. invitation_binary outside i ≡ ok b) whole
            (renamed read.0 (digest outside session_domain again) ∙ e ∙ ap (λ c. ok c) out),
        sym (ap (λ (i : WireInvitation). i.session_id) whole)
            ∙ ap (digest outside session_domain) out,
      )

  decode_invitation_binary_complete :
      (inv : WireInvitation) (b : Bytes)
      → IsDigest
      → IsSizedInvitation inv
      → invitation_binary outside inv ≡ ok b
      → inv.session_id ≡ digest outside session_domain b
      → decode_invitation_binary outside b ≡ ok inv
  unfolding decode_invitation_binary read_done
  decode_invitation_binary_complete inv b sha sized h named =
      let (relay, t, text, blob, out) = invitation_binary-eq inv h in
      let (short, shape) = write_blob-eq inv.relay_url 2048 blob in
      let fields = invitation_fields outside inv relay in
      let fits : length (with_checksum outside.sha256 fields) ≤ 4096 = omega (
        arith,
        length-with_checksum fields,
        sha fields,
        length-invitation_fields inv relay sized,
        short,
        ap length shape,
        length-append (le_bytes 4 (length inv.relay_url)) inv.relay_url,
        length-le_bytes 4 (length inv.relay_url),
      ) in
      let body : checked_body outside.sha256 b 4096 ≡ ok fields =
        subst (λ c. checked_body outside.sha256 c 4096 ≡ ok fields) out
          (checked_body-append outside.sha256 fields 4096 (sha fields) fits) in
      let read = read_invitation-fields inv relay sized t text blob in
      let again : invitation_binary outside (unnamed inv) ≡ ok b = renamed inv [] ∙ h in
      let decoded : decode_invitation_binary outside b
          ≡ ok (record inv { session_id = digest outside session_domain b }) =
        rw (body, read, again, bytes_eq_refl b) in
      subst (λ s. decode_invitation_binary outside b ≡ ok (record inv { session_id = s }))
        (sym named) decoded

  -- For an invitation whose arrays have the length of their type, where a digest has 32 bytes,
  -- the bytes that are decoded to it are its binary form, whose digest its session is, and from
  -- that form it is decoded.
  pub decode_invitation_binary-invitation_binary :
      (inv : WireInvitation) (b : Bytes)
      → IsDigest
      → IsSizedInvitation inv
      → (decode_invitation_binary outside b ≡ ok inv) ↔ (
          (invitation_binary outside inv ≡ ok b)
          × (inv.session_id ≡ digest outside session_domain b))
  decode_invitation_binary-invitation_binary inv b sha sized = (
    decode_invitation_binary_sound inv b,
    λ (h, named). decode_invitation_binary_complete inv b sha sized h named,
  )

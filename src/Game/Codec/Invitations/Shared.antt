-- ===== src/Game/Codec/Invitations/Shared.antt =====
-- The shared form of an invitation is decoded to it.
use arkade_poker.Prelude.{
  ℕ, zero, suc, ◌≡◌, ◌≤◌, ◌+◌, ◌-◌, false, not, ◌||◌, [], ◌∷◌, ◌++◌, some, ltb, length, take, drop,
  uint64, ok, refl, arith, ◌∙◌, ap, subst, >>=-eq-ok, past_guard, ok-inj, bad_invitation,
  length-append, take-append, drop-append,
}
use mathlib.Core.List.{append-nil}
use arkade_poker.Covenant.Types.{Bytes}
use arkade_poker.Covenant.Amounts.{bytes_eq}
use arkade_poker.Merkel.Tree.Climb.{bytes_eq→≡}
use arkade_poker.Game.Codec.{with_checksum, read_raw, read_done}
use arkade_poker.Game.Codec.Reads.{bytes_eq_refl, read_raw-append, write_blob-eq}
use arkade_poker.Game.Codec.Varints.{put_uvarint, length-put_uvarint, read_uvarint-put}
use arkade_poker.Game.Codec.Invitations.{
  WireInvitation, Outside, session_domain, invitation_prefix, max_shared_invitation_bytes,
  encoded_len, cut_prefix, digest, invitation_fields, invitation_binary, short_checksum,
  shared_fields, encode_invitation, read_shared, decode_invitation,
}
use arkade_poker.Game.Codec.Invitations.RoundTrip.{
  AreAmounts, IsSizedInvitation, IsDigest, invitation_binary-eq, renamed, unnamed,
}

length-take_fits : (n : ℕ) (b : Bytes) → n ≤ length b → length (take n b) ≡ n
length-take_fits zero b h = refl
length-take_fits (suc n) [] h = absurd (omega (arith, h))
length-take_fits (suc n) (x ∷ b) h = ap suc (length-take_fits n b (omega (arith, h)))

cut_prefix-append : (p s : Bytes) → cut_prefix p (p ++ s) ≡ some s
unfolding cut_prefix
cut_prefix-append [] s = refl
cut_prefix-append (b ∷ p) s = ground (arith, cut_prefix-append p s)

-- A text that ends in eight bytes is cut there.
cut_eight :
    (body tail : Bytes)
    → length tail ≡ 8
    → (take (length (body ++ tail) - 8) (body ++ tail) ≡ body)
      × (drop (length (body ++ tail) - 8) (body ++ tail) ≡ tail)
cut_eight body tail h =
    let short : length (body ++ tail) - 8 ≡ length body =
      omega (arith, length-append body tail, h) in
    (rw (short, take-append body tail), rw (short, drop-append body tail))

module _ (outside : Outside) where
  -- The base64 of Go: what is encoded is decoded, and its length is as documented.
  pub record IsBase64 : Type 0 where
    pub decodes : (b : Bytes) → outside.decode_base64 (outside.base64 b) ≡ some b
    pub sized : (b : Bytes) → length (outside.base64 b) ≡ encoded_len (length b)

  length-short_checksum :
      (fields : Bytes)
      → IsDigest outside
      → length (short_checksum outside (with_checksum outside.sha256 fields)) ≡ 8
  unfolding with_checksum
  length-short_checksum fields sha =
      let sum = outside.sha256 fields in
      let at : length (fields ++ sum) - 32 ≡ length fields =
        omega (arith, length-append fields sum, sha fields) in
      rw (at, drop-append fields sum, length-take_fits 8 sum (omega (arith, sha fields)))

  length-shared_fields :
      (inv : WireInvitation)
      → IsSizedInvitation inv
      → length (shared_fields outside inv) ≤ 146 + length inv.relay_url
  unfolding shared_fields
  length-shared_fields inv sized =
      let r8 = put_uvarint 10 (length inv.relay_url) ++ inv.relay_url in
      let r7 = inv.join_capability ++ r8 in
      let r6 = inv.creator_transport_key ++ r7 in
      let r5 = inv.service_binding ++ r6 in
      let r4 = put_uvarint 10 (uint64 inv.terms.max_wager) ++ r5 in
      let r3 = put_uvarint 10 (uint64 inv.terms.min_bet) ++ r4 in
      let r2 = put_uvarint 10 (uint64 inv.terms.bond) ++ r3 in
      omega (
        arith,
        length-append (put_uvarint 10 (uint64 inv.terms.stake)) r2,
        length-put_uvarint 10 (uint64 inv.terms.stake),
        length-append (put_uvarint 10 (uint64 inv.terms.bond)) r3,
        length-put_uvarint 10 (uint64 inv.terms.bond),
        length-append (put_uvarint 10 (uint64 inv.terms.min_bet)) r4,
        length-put_uvarint 10 (uint64 inv.terms.min_bet),
        length-append (put_uvarint 10 (uint64 inv.terms.max_wager)) r5,
        length-put_uvarint 10 (uint64 inv.terms.max_wager),
        length-append inv.service_binding r6,
        length-append inv.creator_transport_key r7,
        length-append inv.join_capability r8,
        length-append (put_uvarint 10 (length inv.relay_url)) inv.relay_url,
        length-put_uvarint 10 (length inv.relay_url),
        sized.binding,
        sized.creator,
        sized.join,
      )

  read_shared-fields :
      (inv : WireInvitation)
      → IsSizedInvitation inv
      → AreAmounts inv.terms
      → length inv.relay_url ≤ 2048
      → read_shared outside (shared_fields outside inv) ≡ ok (unnamed outside inv, [])
  unfolding read_shared shared_fields
  read_shared-fields inv sized t short =
      let r8 = put_uvarint 10 (length inv.relay_url) ++ inv.relay_url in
      let r7 = inv.join_capability ++ r8 in
      let r6 = inv.creator_transport_key ++ r7 in
      let r5 = inv.service_binding ++ r6 in
      let r4 = put_uvarint 10 (uint64 inv.terms.max_wager) ++ r5 in
      let r3 = put_uvarint 10 (uint64 inv.terms.min_bet) ++ r4 in
      let r2 = put_uvarint 10 (uint64 inv.terms.bond) ++ r3 in
      let fits : (ltb 2048 (length inv.relay_url)
            || ltb (length inv.relay_url) (length inv.relay_url))
          ≡ false =
        ground (arith, short) in
      let last : read_raw (length inv.relay_url) inv.relay_url ≡ ok (inv.relay_url, []) =
        subst (λ b. read_raw (length inv.relay_url) b ≡ ok (inv.relay_url, []))
          (append-nil inv.relay_url)
          (read_raw-append (length inv.relay_url) inv.relay_url [] refl) in
      rw (
        read_uvarint-put (uint64 inv.terms.stake) r2 t.stake.small,
        read_uvarint-put (uint64 inv.terms.bond) r3 t.bond.small,
        read_uvarint-put (uint64 inv.terms.min_bet) r4 t.min_bet.small,
        read_uvarint-put (uint64 inv.terms.max_wager) r5 t.max_wager.small,
        read_raw-append 32 inv.service_binding r6 sized.binding,
        read_raw-append 32 inv.creator_transport_key r7 sized.creator,
        read_raw-append 32 inv.join_capability r8 sized.join,
        read_uvarint-put (length inv.relay_url) inv.relay_url (omega (arith, short)),
        fits,
        last,
        t.stake.kept,
        t.bond.kept,
        t.min_bet.kept,
        t.max_wager.kept,
      )

  -- An invitation whose arrays have the length of their type is decoded from the text that it is
  -- shared as, where base64 decodes what it encodes at its documented length and a digest has 32
  -- bytes.
  pub decode_invitation-encode_invitation :
      (inv : WireInvitation) (s : Bytes)
      → IsBase64
      → IsDigest outside
      → IsSizedInvitation inv
      → encode_invitation outside inv ≡ ok s
      → decode_invitation outside s ≡ ok inv
  unfolding encode_invitation decode_invitation read_done
  decode_invitation-encode_invitation inv s laws sha sized h =
      let (canonical, e, h1) = >>=-eq-ok (invitation_binary outside inv) _ h in
      let (named, h2) =
        past_guard (bytes_eq (digest outside session_domain canonical) inv.session_id)
          bad_invitation _ h1 in
      let (relay, t, _, blob, out) = invitation_binary-eq outside inv e in
      let (short, _) = write_blob-eq inv.relay_url 2048 blob in
      let check = short_checksum outside canonical in
      let eight : length check ≡ 8 =
        subst (λ c. length (short_checksum outside c) ≡ 8) out
          (length-short_checksum (invitation_fields outside inv relay) sha) in
      let body = shared_fields outside inv in
      let total = length-append body check in
      let size = length-shared_fields inv sized in
      let (front, back) = cut_eight body check eight in
      let text = outside.base64 (body ++ check) in
      let fits : ltb (encoded_len max_shared_invitation_bytes) (length text) ≡ false = ground (
        arith,
        laws.sized (body ++ check),
        encoded_len-small (length (body ++ check)) (omega (arith, total, size, short, eight)),
      ) in
      let whole : (not (bytes_eq text text) || ltb (length (body ++ check)) 8) ≡ false =
        ground (arith, bytes_eq_refl text, total, eight) in
      let again : invitation_binary outside (unnamed outside inv) ≡ ok canonical =
        renamed outside inv [] ∙ e in
      let decoded : decode_invitation outside (invitation_prefix ++ text)
          ≡ ok (record inv { session_id = digest outside session_domain canonical }) =
        rw (
          cut_prefix-append invitation_prefix text,
          fits,
          laws.decodes (body ++ check),
          whole,
          front,
          read_shared-fields inv sized t short,
          again,
          back,
          bytes_eq_refl check,
        ) in
      let is_named = bytes_eq→≡ (digest outside session_domain canonical) inv.session_id named in
      subst (λ c. decode_invitation outside c ≡ ok inv) (ok-inj h2)
        (subst
          (λ d.
            decode_invitation outside (invitation_prefix ++ text)
            ≡ ok (record inv { session_id = d }))
          is_named decoded)
    where
      encoded_len-small : (n : ℕ) → n ≤ 2202 → encoded_len n ≤ encoded_len 2202
      encoded_len-small n h = omega (arith, h)

-- ===== src/Game/Codec/Invitations.antt =====
-- The invitation in its two forms: validateRelay of internal/game/setup.go, invitationBinary and
-- decodeInvitationBinary of codec.go, EncodeInvitation and DecodeInvitation of invitation.go.
-- SHA-256, base64 and the tests on keys and on Unicode text are parameters.
pub mod RoundTrip
pub mod Shared
use arkade_poker.Prelude.{
  ℕ, zero, suc, ◌+◌, ◌-◌, ◌*◌, ◌/◌, ◌%◌, Bool, true, false, not, ◌&&◌, ◌||◌, List, [], ◌∷◌, ◌++◌,
  Option, none, some, ltb, ◌==◌, if◌then◌else◌, length, take, drop, le_bytes, ℤ, int64, uint64,
  Result, ok, err, ◌>>=◌, ◌>>◌, reject, guard, or_fail, bad_encoding, bad_invitation,
}
use arkade_poker.Covenant.Types.{Bytes}
use arkade_poker.Covenant.Amounts.{Terms, validate_terms, bytes_eq}
use arkade_poker.Game.Codec.{
  invitation_domain, write_blob, write_header, with_checksum, read_raw, read_uint, read_blob,
  read_header, read_done, checked_body,
}
use arkade_poker.Game.Codec.Varints.{put_uvarint, read_uvarint}

-- Invitation of setup.go, whole
pub record WireInvitation : Type 0 where
  pub session_id : Bytes
  pub terms : Terms
  pub relay_url : Bytes
  pub creator_transport_key : Bytes
  pub service_binding : Bytes
  pub join_capability : Bytes

pub record Outside : Type 0 where
  pub sha256 : Bytes → Bytes
  pub valid_x_only : Bytes → Bool
  pub utf8_valid : Bytes → Bool
  pub has_space : Bytes → Bool  -- a rune that unicode.IsSpace or IsControl admits
  pub base64 : Bytes → Bytes
  pub decode_base64 : Bytes → Option Bytes

-- "arkade-poker/session/v1"
unfoldable pub session_domain : Bytes
session_domain =
    97 ∷ 114 ∷ 107 ∷ 97 ∷ 100 ∷ 101 ∷ 45 ∷ 112 ∷ 111 ∷ 107 ∷ 101 ∷ 114 ∷ 47 ∷ 115 ∷ 101 ∷ 115 ∷ 115
    ∷ 105 ∷ 111 ∷ 110 ∷ 47 ∷ 118 ∷ 49 ∷ []

-- "arkpg1:"
abbrev pub invitation_prefix : Bytes
invitation_prefix = 97 ∷ 114 ∷ 107 ∷ 112 ∷ 103 ∷ 49 ∷ 58 ∷ []

-- maxSharedInvitationBytes
abbrev pub max_shared_invitation_bytes : ℕ
max_shared_invitation_bytes = 2202

-- EncodedLen of unpadded base64
abbrev pub encoded_len : ℕ → ℕ
encoded_len n = n / 3 * 4 + (n % 3 * 8 + 5) / 6

-- strings.CutPrefix
unfoldable pub cut_prefix : Bytes → Bytes → Option Bytes
cut_prefix [] s = some s
cut_prefix (p ∷ ps) [] = none
cut_prefix (p ∷ ps) (b ∷ bs) = let rest = cut_prefix ps bs in if p == b then rest else none

abbrev pub contains : ℕ → Bytes → Bool
contains b [] = false
contains b (x ∷ xs) = b == x || contains b xs

-- What stands in front of the first `/` or `?`
unfoldable pub host_of : Bytes → Bytes
host_of [] = []
host_of (b ∷ bs) = let rest = host_of bs in if b == 47 || b == 63 then [] else b ∷ rest

abbrev pub or_else : Option Bytes → Option Bytes → Option Bytes
or_else none o = o
or_else (some b) o = some b

-- The host is empty or starts with a colon.
abbrev pub no_host : Bytes → Bool
no_host [] = true
no_host (b ∷ bs) = b == 58

module _ (outside : Outside) where
  -- validateRelay, with "wss://" and "ws://" cut off
  unfoldable pub validate_relay : Bytes → Result (Unit {0})
  validate_relay url = do
    reject (not (outside.utf8_valid url) || (length url == 0 || ltb 2048 (length url)))
        bad_invitation
    rest ←
        or_fail
          (or_else (cut_prefix (119 ∷ 115 ∷ 115 ∷ 58 ∷ 47 ∷ 47 ∷ []) url)
            (cut_prefix (119 ∷ 115 ∷ 58 ∷ 47 ∷ 47 ∷ []) url))
          bad_invitation
    reject
        (no_host (host_of rest)
          || (contains 64 (host_of rest) || (contains 35 url || contains 92 url)))
        bad_invitation
    reject (outside.has_space url) bad_invitation

  -- encoder.str
  unfoldable pub write_str : Bytes → ℕ → Result Bytes
  write_str s max = guard (outside.utf8_valid s) bad_encoding >> write_blob s max

  -- decoder.str
  unfoldable pub read_str : ℕ → Bytes → Result (Bytes × Bytes)
  read_str max bytes = do s ← read_blob max bytes; guard (outside.utf8_valid s.0) bad_encoding; ok s

  -- digest, of one part
  abbrev pub digest : Bytes → Bytes → Bytes
  digest domain b = outside.sha256 (domain ++ b)

  -- The fields of the binary form, with the relay as it is written
  unfoldable pub invitation_fields : WireInvitation → Bytes → Bytes
  invitation_fields inv relay =
      write_header invitation_domain
      ++ (le_bytes 8 (uint64 inv.terms.stake)
          ++ (le_bytes 8 (uint64 inv.terms.bond)
              ++ (le_bytes 8 (uint64 inv.terms.min_bet)
                  ++ (le_bytes 8 (uint64 inv.terms.max_wager)
                      ++ (inv.service_binding
                          ++ (inv.creator_transport_key ++ (inv.join_capability ++ relay)))))))

  unfoldable pub invitation_binary : WireInvitation → Result Bytes
  invitation_binary inv = do
    validate_terms inv.terms
    validate_relay inv.relay_url
    guard (outside.valid_x_only inv.creator_transport_key) bad_invitation
    relay ← write_str inv.relay_url 2048
    ok (with_checksum outside.sha256 (invitation_fields inv relay))

  -- invitationID
  unfoldable pub invitation_id : WireInvitation → Result Bytes
  invitation_id inv = invitation_binary inv >>= (λ b. ok (digest session_domain b))

  -- The reads of decodeInvitationBinary; the session is filled in at the end.
  unfoldable pub read_invitation : Bytes → Result (WireInvitation × Bytes)
  read_invitation body = do
    headed ← read_header invitation_domain body
    stake ← read_uint 8 headed
    bond ← read_uint 8 stake.1
    min_bet ← read_uint 8 bond.1
    max_wager ← read_uint 8 min_bet.1
    binding ← read_raw 32 max_wager.1
    creator ← read_raw 32 binding.1
    join ← read_raw 32 creator.1
    relay ← read_str 2048 join.1
    ok (
      record {
        session_id = [];
        terms = record {
          stake = int64 stake.0;
          bond = int64 bond.0;
          min_bet = int64 min_bet.0;
          max_wager = int64 max_wager.0;
        };
        relay_url = relay.0;
        creator_transport_key = creator.0;
        service_binding = binding.0;
        join_capability = join.0;
      },
      relay.1,
    )

  unfoldable pub decode_invitation_binary : Bytes → Result WireInvitation
  decode_invitation_binary bytes = do
    body ← checked_body outside.sha256 bytes 4096
    inv ← read_invitation body
    read_done inv.1
    b ← invitation_binary inv.0
    guard (bytes_eq b bytes) bad_encoding
    ok (record inv.0 { session_id = digest session_domain b })

  -- The first eight bytes of the checksum
  abbrev pub short_checksum : Bytes → Bytes
  short_checksum canonical = take 8 (drop (length canonical - 32) canonical)

  -- The shared form, in front of its checksum
  unfoldable pub shared_fields : WireInvitation → Bytes
  shared_fields inv =
      put_uvarint 10 (uint64 inv.terms.stake)
      ++ (put_uvarint 10 (uint64 inv.terms.bond)
          ++ (put_uvarint 10 (uint64 inv.terms.min_bet)
              ++ (put_uvarint 10 (uint64 inv.terms.max_wager)
                  ++ (inv.service_binding
                      ++ (inv.creator_transport_key
                          ++ (inv.join_capability
                              ++ (put_uvarint 10 (length inv.relay_url) ++ inv.relay_url)))))))

  unfoldable pub encode_invitation : WireInvitation → Result Bytes
  encode_invitation inv = do
    canonical ← invitation_binary inv
    guard (bytes_eq (digest session_domain canonical) inv.session_id) bad_invitation
    ok (invitation_prefix ++ outside.base64 (shared_fields inv ++ short_checksum canonical))

  -- The reads of DecodeInvitation
  unfoldable pub read_shared : Bytes → Result (WireInvitation × Bytes)
  read_shared bytes = do
    stake ← read_uvarint bytes
    bond ← read_uvarint stake.1
    min_bet ← read_uvarint bond.1
    max_wager ← read_uvarint min_bet.1
    binding ← read_raw 32 max_wager.1
    creator ← read_raw 32 binding.1
    join ← read_raw 32 creator.1
    size ← read_uvarint join.1
    reject (ltb 2048 size.0 || ltb (length size.1) size.0) bad_invitation
    relay ← read_raw size.0 size.1
    ok (
      record {
        session_id = [];
        terms = record {
          stake = int64 stake.0;
          bond = int64 bond.0;
          min_bet = int64 min_bet.0;
          max_wager = int64 max_wager.0;
        };
        relay_url = relay.0;
        creator_transport_key = creator.0;
        service_binding = binding.0;
        join_capability = join.0;
      },
      relay.1,
    )

  unfoldable pub decode_invitation : Bytes → Result WireInvitation
  decode_invitation s = do
    text ← or_fail (cut_prefix invitation_prefix s) bad_invitation
    reject (ltb (encoded_len max_shared_invitation_bytes) (length text)) bad_invitation
    b ← or_fail (outside.decode_base64 text) bad_invitation
    reject (not (bytes_eq (outside.base64 b) text) || ltb (length b) 8) bad_invitation
    inv ← read_shared (take (length b - 8) b)
    read_done inv.1
    canonical ← invitation_binary inv.0
    guard (bytes_eq (drop (length b - 8) b) (short_checksum canonical)) bad_invitation
    ok (record inv.0 { session_id = digest session_domain canonical })

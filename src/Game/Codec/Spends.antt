-- ===== src/Game/Codec/Spends.antt =====
-- The codec of saved spends in internal/game/hand_codec.go: encodeSaved, encodeAction, encodeBundle,
-- encodeOutpoint and their decoders. Fundings, reveals and showdowns keep codecs of their own, which are
-- parameters of which nothing is assumed, and so is the parser of a bundle.
pub mod RoundTrip
pub mod Same
use arkade_poker.Prelude.{
  ℕ, zero, suc, ◌+◌, ◌*◌, Bool, true, false, not, ◌&&◌, ◌||◌, List, [], ◌∷◌, ◌++◌, Option, none,
  some, ltb, ◌==◌, if◌then◌else◌, length, le_bytes, ℤ, pos, int64, uint64, eqb_ℤ, Result, ok, err,
  ◌>>=◌, ◌>>◌, reject, guard, or_fail, bad_encoding,
}
use arkade_poker.Covenant.Types.{Bytes, Funding, BettingAction, check, raise_to}
use arkade_poker.Game.Stage.{
  action_initial_deposit, action_player1_funding, action_player2_opening, action_betting,
  action_board_reveal, action_showdown_reveal, action_all_in_call, action_all_in_reveal,
  action_concession, action_timeout, action_showdown, among,
}
use arkade_poker.Game.Hand.{Bundle, PreparedAction, SavedSpend, is_some}
use arkade_poker.Game.Codec.{write_blob, read_raw, read_uint, read_blob}

abbrev pub max_event_bytes : ℕ
max_event_bytes = 4194304

-- The codecs of the parts of a spend, and wallet.BundleTransactions
pub record SpendParts : Type 0 where
  pub utf8_valid : Bytes → Bool
  pub write_funding : Funding → Result Bytes
  pub read_funding : Bytes → Result (Funding × Bytes)
  pub write_reveals : Bytes → Result Bytes
  pub read_reveals : Bytes → Result (Bytes × Bytes)
  pub write_showdown : Bytes → Result Bytes
  pub read_showdown : Bytes → Result (Bytes × Bytes)
  pub bundle_transactions : Bundle → Result (Unit {0})

abbrev pub Outpoint : Type 0
Outpoint = Bytes × ℕ

abbrev pub encode_outpoint : Outpoint → Bytes
encode_outpoint op = op.0 ++ le_bytes 4 op.1

unfoldable pub decode_outpoint : Bytes → Result (Outpoint × Bytes)
decode_outpoint bytes = do
  hash ← read_raw 32 bytes
  index ← read_uint 4 hash.1
  ok ((hash.0, index.0), index.1)

-- count
unfoldable pub read_count : ℕ → ℕ → Bytes → Result (ℕ × Bytes)
read_count max min_bytes bytes = do
  n ← read_uint 4 bytes
  reject (ltb max n.0 || ltb (length n.1) (n.0 * min_bytes)) bad_encoding
  ok n

-- `for range count(...)`
module _ {A : Type 0} (read : Bytes → Result (A × Bytes)) where
  unfoldable pub read_times : ℕ → Bytes → Result (List A × Bytes)
  read_times zero bytes = ok ([], bytes)
  read_times (suc n) bytes = do x ← read bytes; xs ← read_times n x.1; ok (x.0 ∷ xs.0, xs.1)

  -- The `switch r.u8()` on whether a value follows
  unfoldable pub read_optional : Bytes → Result (Option A × Bytes)
  read_optional bytes = do
    tag ← read_uint 1 bytes
    (if tag.0 == 0
        then ok (none, tag.1)
        else (if tag.0 == 1 then (read tag.1 >>= (λ v. ok (some v.0, v.1))) else err bad_encoding))

  -- A part that the kind of an action has or not
  unfoldable pub read_if : Bool → Bytes → Result (Option A × Bytes)
  read_if test bytes = if test then (read bytes >>= (λ v. ok (some v.0, v.1))) else ok (none, bytes)

abbrev pub encode_outpoints : List Outpoint → Bytes
encode_outpoints [] = []
encode_outpoints (op ∷ ops) = encode_outpoint op ++ encode_outpoints ops

-- The fields that the kind of an action has: 1 for a funding, 2 for reveals and 4 for a showdown
unfoldable pub expected_fields : ℕ → Option ℕ
expected_fields kind =
    if kind == action_initial_deposit || kind == action_betting
    then some 1
    else (if among kind (action_player1_funding ∷ action_player2_opening ∷ action_all_in_call ∷ [])
        then some 3
        else (if among kind
              (action_board_reveal ∷ action_showdown_reveal ∷ action_all_in_reveal ∷ [])
            then some 2
            else (if kind == action_showdown
                then some 4
                else (if kind == action_concession || kind == action_timeout
                    then some 0
                    else none))))

abbrev pub mask : PreparedAction → ℕ
mask a =
    (if is_some a.funding then 1 else 0)
    + (if is_some a.reveals then 2 else 0)
    + (if is_some a.showdown then 4 else 0)

abbrev pub has_bet : ℕ → Bool
has_bet kind = kind == action_player2_opening || kind == action_betting

abbrev pub is_timed : ℕ → Bool
is_timed kind = kind == action_timeout || kind == action_showdown

abbrev pub no_bet : BettingAction
no_bet = record { kind = 0; amount = pos 0 }

abbrev pub is_no_bet : BettingAction → Bool
is_no_bet b = b.kind == 0 && eqb_ℤ b.amount (pos 0)

abbrev pub write_bet : ℕ → BettingAction → Bytes
write_bet kind b = if has_bet kind then le_bytes 1 b.kind ++ le_bytes 8 (uint64 b.amount) else []

abbrev pub write_time : ℕ → ℕ → Bytes
write_time kind at = if is_timed kind then le_bytes 8 at else []

abbrev pub write_part {ℓ} : {A : Type ℓ} → (A → Result Bytes) → Option A → Result Bytes
write_part write none = ok []
write_part write (some v) = write v

unfoldable pub read_bet : ℕ → Bytes → Result (BettingAction × Bytes)
read_bet kind bytes =
    if has_bet kind
    then (do
      k ← read_uint 1 bytes
      amount ← read_uint 8 k.1
      ok (record { kind = k.0; amount = int64 amount.0 }, amount.1))
    else ok (no_bet, bytes)

unfoldable pub read_time : ℕ → Bytes → Result (ℕ × Bytes)
read_time kind bytes = if is_timed kind then read_uint 8 bytes else ok (0, bytes)

abbrev pub has_funding : ℕ → Bool
has_funding kind = among kind (
    action_initial_deposit ∷ action_player1_funding ∷ action_player2_opening ∷ action_all_in_call
    ∷ action_betting ∷ [])

abbrev pub has_reveals : ℕ → Bool
has_reveals kind = among kind (
    action_player1_funding ∷ action_player2_opening ∷ action_all_in_call ∷ action_board_reveal
    ∷ action_showdown_reveal ∷ action_all_in_reveal ∷ [])

module _ (codec : SpendParts) where
  unfoldable pub encode_action : PreparedAction → Result Bytes
  encode_action a = do
    expected ← or_fail (expected_fields a.kind) bad_encoding
    reject
        (not (mask a == expected)
          || ((not (has_bet a.kind) && not (is_no_bet a.bet))
              || (not (is_timed a.kind) && not (a.observed_at == 0))))
        bad_encoding
    reject
        (has_bet a.kind
          && ((ltb a.bet.kind check || ltb raise_to a.bet.kind)
              || (not (a.bet.kind == raise_to) && not (eqb_ℤ a.bet.amount (pos 0)))))
        bad_encoding
    funding ← write_part codec.write_funding a.funding
    reveals ← write_part codec.write_reveals a.reveals
    showdown ← write_part codec.write_showdown a.showdown
    ok (
        le_bytes 1 a.kind
        ++ (write_bet a.kind a.bet
            ++ (funding ++ (reveals ++ (showdown ++ write_time a.kind a.observed_at)))))

  unfoldable pub decode_action : Bytes → Result (PreparedAction × Bytes)
  decode_action bytes = do
    kind ← read_uint 1 bytes
    bet ← read_bet kind.0 kind.1
    funding ← read_if codec.read_funding (has_funding kind.0) bet.1
    reveals ← read_if codec.read_reveals (has_reveals kind.0) funding.1
    showdown ← read_if codec.read_showdown (kind.0 == action_showdown) reveals.1
    at ← read_time kind.0 showdown.1
    ok (
      record {
        kind = kind.0;
        bet = bet.0;
        funding = funding.0;
        reveals = reveals.0;
        showdown = showdown.0;
        observed_at = at.0;
      },
      at.1,
    )

  unfoldable pub write_text : Bytes → Result Bytes
  write_text s = guard (codec.utf8_valid s) bad_encoding >> write_blob s max_event_bytes

  unfoldable pub read_text : Bytes → Result (Bytes × Bytes)
  read_text bytes = do
    s ← read_blob max_event_bytes bytes
    guard (codec.utf8_valid s.0) bad_encoding
    ok s

  abbrev pub write_texts : List Bytes → Result Bytes
  write_texts [] = ok []
  write_texts (s ∷ ss) = write_text s >>= (λ b. write_texts ss >>= (λ bs. ok (b ++ bs)))

  -- A string that is longer than the base64 of any transaction
  abbrev pub any_long : List Bytes → Bool
  any_long [] = false
  any_long (s ∷ ss) = ltb 5592408 (length s) || any_long ss

  unfoldable pub encode_bundle : Bundle → Result Bytes
  encode_bundle b = do
    reject (ltb 256 (length b.checkpoints)) bad_encoding
    reject (any_long (b.ark ∷ b.checkpoints)) bad_encoding
    codec.bundle_transactions b
    ark ← write_text b.ark
    checkpoints ← write_texts b.checkpoints
    ok (ark ++ (le_bytes 4 (length b.checkpoints) ++ checkpoints))

  unfoldable pub decode_bundle : Bytes → Result (Bundle × Bytes)
  decode_bundle bytes = do
    ark ← read_text bytes
    n ← read_count 256 4 ark.1
    checkpoints ← read_times read_text n.0 n.1
    ok (record { ark = ark.0; checkpoints = checkpoints.0 }, checkpoints.1)

  abbrev pub write_source : Option Outpoint → Bytes
  write_source none = 0 ∷ []
  write_source (some op) = 1 ∷ encode_outpoint op

  abbrev pub write_signed : Option Bundle → Result Bytes
  write_signed none = ok (0 ∷ [])
  write_signed (some b) = encode_bundle b >>= (λ out. ok (1 ∷ out))

  unfoldable pub encode_saved : SavedSpend → Result Bytes
  encode_saved s = do
    reject (ltb 255 (length s.wallet_sources)) bad_encoding
    action ← encode_action s.action
    prepared ← encode_bundle s.prepared
    signed ← write_signed s.signed
    ok (
        le_bytes 1 s.route
        ++ (write_source s.source
            ++ (le_bytes 4 (length s.wallet_sources)
                ++ (encode_outpoints s.wallet_sources ++ (action ++ (prepared ++ signed))))))

  unfoldable pub decode_saved : Bytes → Result (SavedSpend × Bytes)
  decode_saved bytes = do
    route ← read_uint 1 bytes
    source ← read_optional decode_outpoint route.1
    n ← read_count 255 36 source.1
    sources ← read_times decode_outpoint n.0 n.1
    action ← decode_action sources.1
    prepared ← decode_bundle action.1
    signed ← read_optional decode_bundle prepared.1
    ok (
      record {
        action = action.0;
        route = route.0;
        source = source.0;
        wallet_sources = sources.0;
        prepared = prepared.0;
        signed = signed.0;
      },
      signed.1,
    )

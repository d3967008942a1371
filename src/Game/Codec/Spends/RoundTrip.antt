-- ===== src/Game/Codec/Spends/RoundTrip.antt =====
-- A saved spend is decoded from its encoding.
use arkade_poker.Prelude.{
  ℕ, ◌≡◌, ◌<◌, ◌≤◌, ◌+◌, ◌*◌, Bool, true, false, not, ◌&&◌, ◌||◌, List, [], ◌∷◌, ◌++◌, All, Option,
  none, some, ltb, ◌==◌, ◌⊎◌, inl, inr, if◌then◌else◌, length, le_bytes, ℤ, pos, negsuc, uint64,
  eqb_ℤ, Result, ok, refl, arith, sym, ap, subst, >>=-eq-ok, past, past_guard, past_reject,
  past_or_fail, ok-inj, bad_encoding, length-append, length-le_bytes, Bool-cases, le_value,
}
use mathlib.Core.List.{append_assoc}
use arkade_poker.Covenant.Types.{Bytes, BettingAction, check, raise_to}
use arkade_poker.Game.Stage.{action_concession, action_timeout, action_showdown}
use arkade_poker.Game.Hand.{PreparedAction, SavedSpend, is_some}
use arkade_poker.Game.Codec.{read_raw, read_uint}
use arkade_poker.Game.Codec.Reads.{
  read_raw-append, read_uint-append, write_blob-eq, read_blob-append,
}
use arkade_poker.Game.Codec.Invitations.RoundTrip.{IsAmount}
use arkade_poker.Game.Codec.Spends.{
  max_event_bytes, SpendParts, Outpoint, encode_outpoint, decode_outpoint, read_count, read_times,
  read_optional, read_if, encode_outpoints, expected_fields, mask, has_bet, is_timed, no_bet,
  is_no_bet, write_bet, write_time, write_part, read_bet, read_time, has_funding, has_reveals,
  encode_action, decode_action, write_text, read_text, write_texts, any_long, encode_bundle,
  decode_bundle, write_source, write_signed, encode_saved, decode_saved,
}

-- The bytes are read as the value, whatever follows them.
abbrev pub IsRead {ℓ} : {A : Type ℓ} → (Bytes → Result (A × Bytes)) → Bytes → A → Type ℓ
IsRead read b v = (rest : Bytes) → read (b ++ rest) ≡ ok (v, rest)

-- What is written is read.
abbrev pub IsPart {ℓ} : {A : Type ℓ} → (A → Result Bytes) → (Bytes → Result (A × Bytes)) → Type ℓ
IsPart {A = A} write read = (v : A) (b : Bytes) → write v ≡ ok b → IsRead read b v

abbrev pub IsOutpoint : Outpoint → Type 0
IsOutpoint op = (length op.0 ≡ 32) × (op.1 < 4294967296)

decode_outpoint-encode :
    (op : Outpoint) → IsOutpoint op → IsRead decode_outpoint (encode_outpoint op) op
unfolding decode_outpoint
decode_outpoint-encode op (sized, small) rest = rw (
  append_assoc op.0 (le_bytes 4 op.1) rest,
  read_raw-append 32 op.0 (le_bytes 4 op.1 ++ rest) sized,
  read_uint-append 4 op.1 rest (omega (arith, small)),
)

length-encode_outpoints :
    (ops : List Outpoint) → All IsOutpoint ops → length (encode_outpoints ops) ≡ length ops * 36
length-encode_outpoints [] h = omega arith
length-encode_outpoints (op ∷ ops) ((sized, small), h) = omega (
  arith,
  length-append (encode_outpoint op) (encode_outpoints ops),
  length-append op.0 (le_bytes 4 op.1),
  length-le_bytes 4 op.1,
  sized,
  length-encode_outpoints ops h,
)

IsRead-outpoints :
    (ops : List Outpoint)
    → All IsOutpoint ops
    → IsRead (read_times decode_outpoint (length ops)) (encode_outpoints ops) ops
unfolding read_times
IsRead-outpoints [] h rest = refl
IsRead-outpoints (op ∷ ops) (first, h) rest = rw (
  append_assoc (encode_outpoint op) (encode_outpoints ops) rest,
  decode_outpoint-encode op first (encode_outpoints ops ++ rest),
  IsRead-outpoints ops h rest,
)

pub read_count-write :
    (n max min_bytes : ℕ) (rest : Bytes)
    → n ≤ max
    → max < 4294967296
    → n * min_bytes ≤ length rest
    → read_count max min_bytes (le_bytes 4 n ++ rest) ≡ ok (n, rest)
unfolding read_count
read_count-write n max min_bytes rest small cap fits =
    let within : (ltb max n || ltb (length rest) (n * min_bytes)) ≡ false =
      ground (arith, small, fits) in
    rw (read_uint-append 4 n rest (omega (arith, small, cap)), within)

pub read_byte : (t : ℕ) (rest : Bytes) → read_uint 1 (t ∷ rest) ≡ ok (t, rest)
unfolding read_uint read_raw le_value
read_byte t rest = ground arith

module _ {A : Type 0} (read : Bytes → Result (A × Bytes)) where
  pub read_optional-none : IsRead (read_optional read) (0 ∷ []) none
  unfolding read_optional
  read_optional-none rest = rw (read_byte 0 rest)

  pub read_optional-some :
      (b : Bytes) (v : A) → IsRead read b v → IsRead (read_optional read) (1 ∷ b) (some v)
  unfolding read_optional
  read_optional-some b v h rest = rw (read_byte 1 (b ++ rest), h rest)

  -- A part that the kind of an action does not have
  IsRead-absent :
      (write : A → Result Bytes) (test : Bool) (o : Option A) (b : Bytes)
      → test ≡ false
      → is_some o ≡ test
      → write_part write o ≡ ok b
      → IsRead (read_if read test) b o
  unfolding read_if
  IsRead-absent write true o b absent e h rest = cc
  IsRead-absent write false none b absent e h rest =
      ap (λ c. ok (none, c)) (ap (λ c. c ++ rest) (sym (ok-inj h)))
  IsRead-absent write false (some v) b absent e h rest = cc

-- The bet of an action that has one, or no bet
read_bet-write :
    (kind : ℕ) (b : BettingAction)
    → b.kind < 256
    → IsAmount b.amount
    → (has_bet kind ≡ true) ⊎ (b ≡ no_bet)
    → IsRead (read_bet kind) (write_bet kind b) b
unfolding read_bet
read_bet-write kind b small amount has rest = elim (Bool-cases (has_bet kind)) [
  | inl given ↦ rw (
    given,
    append_assoc (le_bytes 1 b.kind) (le_bytes 8 (uint64 b.amount)) rest,
    read_uint-append 1 b.kind (le_bytes 8 (uint64 b.amount) ++ rest) (omega (arith, small)),
    read_uint-append 8 (uint64 b.amount) rest (omega (arith, amount.small)),
    amount.kept,
  )
  | inr no_kind ↦ elim has [ inl given ↦ cc | inr blank ↦ rw (no_kind, blank) ]
]

read_time-write :
    (kind at : ℕ)
    → at < 18446744073709551616
    → (is_timed kind ≡ true) ⊎ (at ≡ 0)
    → IsRead (read_time kind) (write_time kind at) at
unfolding read_time
read_time-write kind at small has rest = elim (Bool-cases (is_timed kind)) [
  | inl given ↦ rw (given, read_uint-append 8 at rest (omega (arith, small)))
  | inr untimed ↦ elim has [ inl given ↦ cc | inr blank ↦ rw (untimed, blank) ]
]

-- The actions that have neither a funding nor a witness
abbrev pub IsBare : PreparedAction → Type 0
IsBare a = (a.kind ≡ action_concession) ⊎ (a.kind ≡ action_timeout)

IsBare-absent :
    (a : PreparedAction)
    → IsBare a
    → (has_funding a.kind ≡ false)
      × (has_reveals a.kind ≡ false)
      × ((a.kind == action_showdown) ≡ false)
IsBare-absent a (inl e) = rw e (refl, refl, refl)
IsBare-absent a (inr e) = rw e (refl, refl, refl)

-- The fields that an action has are those that its kind is read with.
fields_agree :
    (kind e : ℕ) (f r s : Bool)
    → expected_fields kind ≡ some e
    → ((if f then 1 else 0) + (if r then 2 else 0) + (if s then 4 else 0) == e) ≡ true
    → (f ≡ has_funding kind) × (r ≡ has_reveals kind) × (s ≡ (kind == action_showdown))
unfolding expected_fields
fields_agree kind e true true true x h = ground (arith, x, h)
fields_agree kind e true true false x h = ground (arith, x, h)
fields_agree kind e true false true x h = ground (arith, x, h)
fields_agree kind e true false false x h = ground (arith, x, h)
fields_agree kind e false true true x h = ground (arith, x, h)
fields_agree kind e false true false x h = ground (arith, x, h)
fields_agree kind e false false true x h = ground (arith, x, h)
fields_agree kind e false false false x h = ground (arith, x, h)

zero_amount : (z : ℤ) → eqb_ℤ z (pos 0) ≡ true → z ≡ pos 0
zero_amount (pos n) h = ground (arith, h)
zero_amount (negsuc n) h = cc

is_no_bet-eq : (b : BettingAction) → is_no_bet b ≡ true → b ≡ no_bet
is_no_bet-eq b h =
    let kind : b.kind ≡ 0 = ground (arith, h) in
    let amount : b.amount ≡ pos 0 = zero_amount b.amount (ground (arith, h)) in
    (λ i. record { kind = kind i; amount = amount i })

expected_fields-small : (kind e : ℕ) → expected_fields kind ≡ some e → kind < 256
unfolding expected_fields
expected_fields-small kind e h = ground (arith, h)

or_blank : (test : Bool) {A : Type 0} → (test ≡ false → A) → (test ≡ true) ⊎ A
or_blank true blank = inl refl
or_blank false blank = inr (blank refl)

-- The numbers of an action fit their Go types.
pub record IsSizedAction (a : PreparedAction) : Type 0 where
  pub amount : IsAmount a.bet.amount
  pub time : a.observed_at < 18446744073709551616

pub record IsSizedSpend (s : SavedSpend) : Type 0 where
  pub route : s.route < 256
  pub source : (op : Outpoint) → s.source ≡ some op → IsOutpoint op
  pub sources : All IsOutpoint s.wallet_sources
  pub action : IsSizedAction s.action

module _ (codec : SpendParts) where
  decode_action-encode :
      (a : PreparedAction) (b : Bytes)
      → IsBare a
      → IsSizedAction a
      → encode_action codec a ≡ ok b
      → IsRead (decode_action codec) b a
  unfolding encode_action decode_action
  decode_action-encode a b bare sized h rest =
      let (expected, x, h1) = past_or_fail (expected_fields a.kind) bad_encoding _ h in
      let (shape, h2) =
        past_reject
          (not (mask a == expected)
            || ((not (has_bet a.kind) && not (is_no_bet a.bet))
                || (not (is_timed a.kind) && not (a.observed_at == 0))))
          bad_encoding _ h1 in
      let (bets, h3) =
        past_reject
          (has_bet a.kind
            && ((ltb a.bet.kind check || ltb raise_to a.bet.kind)
                || (not (a.bet.kind == raise_to) && not (eqb_ℤ a.bet.amount (pos 0)))))
          bad_encoding _ h2 in
      let (funding, ef, h4) = >>=-eq-ok (write_part codec.write_funding a.funding) _ h3 in
      let (reveals, er, h5) = >>=-eq-ok (write_part codec.write_reveals a.reveals) _ h4 in
      let (showdown, es, h6) = >>=-eq-ok (write_part codec.write_showdown a.showdown) _ h5 in
      let (no_funding, no_reveals, no_showdown) = IsBare-absent a bare in
      let (f, r, s) =
        fields_agree a.kind expected (is_some a.funding) (is_some a.reveals) (is_some a.showdown) x
          (ground (arith, shape)) in
      let small : a.bet.kind < 256 = ground (arith, shape, bets) in
      let bet_or : (has_bet a.kind ≡ true) ⊎ (a.bet ≡ no_bet) =
        or_blank (has_bet a.kind)
          (λ no_kind. is_no_bet-eq a.bet (ground (arith, shape, no_kind))) in
      let time_or : (is_timed a.kind ≡ true) ⊎ (a.observed_at ≡ 0) =
        or_blank (is_timed a.kind) (λ no_kind. ground (arith, shape, no_kind)) in
      let time = write_time a.kind a.observed_at in
      let t3 = showdown ++ time in
      let t2 = reveals ++ t3 in
      let t1 = funding ++ t2 in
      let bet = write_bet a.kind a.bet in
      rw (
        sym (ok-inj h6),
        append_assoc (le_bytes 1 a.kind) (bet ++ t1) rest,
        append_assoc bet t1 rest,
        append_assoc funding t2 rest,
        append_assoc reveals t3 rest,
        append_assoc showdown time rest,
        read_uint-append 1 a.kind (bet ++ (funding ++ (reveals ++ (showdown ++ (time ++ rest)))))
            (omega (arith, expected_fields-small a.kind expected x)),
        read_bet-write a.kind a.bet small sized.amount bet_or
            (funding ++ (reveals ++ (showdown ++ (time ++ rest)))),
        IsRead-absent codec.read_funding codec.write_funding (has_funding a.kind) a.funding funding
            no_funding f ef (reveals ++ (showdown ++ (time ++ rest))),
        IsRead-absent codec.read_reveals codec.write_reveals (has_reveals a.kind) a.reveals reveals
            no_reveals r er (showdown ++ (time ++ rest)),
        IsRead-absent codec.read_showdown codec.write_showdown (a.kind == action_showdown)
            a.showdown showdown no_showdown s es (time ++ rest),
        read_time-write a.kind a.observed_at sized.time time_or rest,
      )

  write_text-read : IsPart (write_text codec) (read_text codec)
  unfolding write_text read_text
  write_text-read s b h rest =
      let (text, blob) = past_guard (codec.utf8_valid s) bad_encoding _ h in
      rw (read_blob-append s max_event_bytes rest (omega arith) blob, text)

  write_texts-IsRead :
      (ss : List Bytes) (b : Bytes)
      → write_texts codec ss ≡ ok b
      → IsRead (read_times (read_text codec) (length ss)) b ss
  unfolding read_times
  write_texts-IsRead [] b h rest = ap (λ c. ok ([], c)) (ap (λ c. c ++ rest) (sym (ok-inj h)))
  write_texts-IsRead (s ∷ ss) b h rest =
      let (first, ef, h1) = >>=-eq-ok (write_text codec s) _ h in
      let (more, em, h2) = >>=-eq-ok (write_texts codec ss) _ h1 in
      rw (
        sym (ok-inj h2),
        append_assoc first more rest,
        write_text-read s first ef (more ++ rest),
        write_texts-IsRead ss more em rest,
      )

  length-write_texts :
      (ss : List Bytes) (b : Bytes) → write_texts codec ss ≡ ok b → length ss * 4 ≤ length b
  unfolding write_text
  length-write_texts [] b h = omega arith
  length-write_texts (s ∷ ss) b h =
      let (first, ef, h1) = >>=-eq-ok (write_text codec s) _ h in
      let (more, em, h2) = >>=-eq-ok (write_texts codec ss) _ h1 in
      let (_, blob) = past_guard (codec.utf8_valid s) bad_encoding _ ef in
      let (_, shape) = write_blob-eq s max_event_bytes blob in
      omega (
        arith,
        ap length (ok-inj h2),
        length-append first more,
        ap length shape,
        length-append (le_bytes 4 (length s)) s,
        length-le_bytes 4 (length s),
        length-write_texts ss more em,
      )

  decode_bundle-encode : IsPart (encode_bundle codec) (decode_bundle codec)
  unfolding encode_bundle decode_bundle
  decode_bundle-encode v b h rest =
      let (few, h1) = past_reject (ltb 256 (length v.checkpoints)) bad_encoding _ h in
      let (_, h2) = past_reject (any_long codec (v.ark ∷ v.checkpoints)) bad_encoding _ h1 in
      let h3 = past (codec.bundle_transactions v) _ h2 in
      let (ark, ea, h4) = >>=-eq-ok (write_text codec v.ark) _ h3 in
      let (checkpoints, ec, h5) = >>=-eq-ok (write_texts codec v.checkpoints) _ h4 in
      let n = length v.checkpoints in
      let fits : n * 4 ≤ length (checkpoints ++ rest) =
        omega (
          arith,
          length-append checkpoints rest,
          length-write_texts v.checkpoints checkpoints ec,
        ) in
      rw (
        sym (ok-inj h5),
        append_assoc ark (le_bytes 4 n ++ checkpoints) rest,
        append_assoc (le_bytes 4 n) checkpoints rest,
        write_text-read v.ark ark ea (le_bytes 4 n ++ (checkpoints ++ rest)),
        read_count-write n 256 4 (checkpoints ++ rest) (ground (arith, few)) (omega arith) fits,
        write_texts-IsRead v.checkpoints checkpoints ec rest,
      )

  IsRead-source :
      (o : Option Outpoint)
      → ((op : Outpoint) → o ≡ some op → IsOutpoint op)
      → IsRead (read_optional decode_outpoint) (write_source codec o) o
  IsRead-source none sized rest = read_optional-none decode_outpoint rest
  IsRead-source (some op) sized rest =
      read_optional-some decode_outpoint (encode_outpoint op) op
        (decode_outpoint-encode op (sized op refl)) rest

  write_signed-read : IsPart (write_signed codec) (read_optional (decode_bundle codec))
  write_signed-read none b h rest =
      subst (λ c. read_optional (decode_bundle codec) (c ++ rest) ≡ ok (none, rest)) (ok-inj h)
        (read_optional-none (decode_bundle codec) rest)
  write_signed-read (some v) b h rest =
      let (out, e, h1) = >>=-eq-ok (encode_bundle codec v) _ h in
      subst (λ c. read_optional (decode_bundle codec) (c ++ rest) ≡ ok (some v, rest)) (ok-inj h1)
        (read_optional-some (decode_bundle codec) out v (decode_bundle-encode v out e) rest)

  -- A saved concession or timeout whose numbers and hashes fit their types is decoded from its
  -- encoding, whatever follows it.
  pub decode_saved-encode_saved :
      (s : SavedSpend) (b rest : Bytes)
      → IsBare s.action
      → IsSizedSpend s
      → encode_saved codec s ≡ ok b
      → decode_saved codec (b ++ rest) ≡ ok (s, rest)
  unfolding encode_saved decode_saved
  decode_saved-encode_saved s b rest bare sized h =
      let (few, h1) = past_reject (ltb 255 (length s.wallet_sources)) bad_encoding _ h in
      let (action, ea, h2) = >>=-eq-ok (encode_action codec s.action) _ h1 in
      let (prepared, ep, h3) = >>=-eq-ok (encode_bundle codec s.prepared) _ h2 in
      let (signed, es, h4) = >>=-eq-ok (write_signed codec s.signed) _ h3 in
      let n = length s.wallet_sources in
      let source = write_source codec s.source in
      let sources = encode_outpoints s.wallet_sources in
      let t4 = prepared ++ signed in
      let t3 = action ++ t4 in
      let t2 = sources ++ t3 in
      let t1 = le_bytes 4 n ++ t2 in
      let after = action ++ (prepared ++ (signed ++ rest)) in
      let fits : n * 36 ≤ length (sources ++ after) = omega (
        arith,
        length-append sources after,
        length-encode_outpoints s.wallet_sources sized.sources,
      ) in
      rw (
        sym (ok-inj h4),
        append_assoc (le_bytes 1 s.route) (source ++ t1) rest,
        append_assoc source t1 rest,
        append_assoc (le_bytes 4 n) t2 rest,
        append_assoc sources t3 rest,
        append_assoc action t4 rest,
        append_assoc prepared signed rest,
        read_uint-append 1 s.route (source ++ (le_bytes 4 n ++ (sources ++ after)))
            (omega (arith, sized.route)),
        IsRead-source s.source sized.source (le_bytes 4 n ++ (sources ++ after)),
        read_count-write n 255 36 (sources ++ after) (ground (arith, few)) (omega arith) fits,
        IsRead-outpoints s.wallet_sources sized.sources after,
        decode_action-encode s.action action bare sized.action ea (prepared ++ (signed ++ rest)),
        decode_bundle-encode s.prepared prepared ep (signed ++ rest),
        write_signed-read s.signed signed es rest,
      )

-- ===== src/Covenant/Packets/Header.antt =====
-- The fields of the header are read back from the bytes that they are written to.
use arkade_poker.Prelude.{
  ℕ, ◌+◌, ◌≤◌, ◌<◌, ◌≡◌, ◌∙◌, refl, ap, [], ◌∷◌, length, put, slice, le_bytes, le_value, length-put,
  slice-put, slice-put_before, length-le_bytes, le_value-le_bytes, arith, replicate, u64_mod,
}
use arkade_poker.Covenant.Types.{Bytes, State}
use arkade_poker.Covenant.Packets.{encode_header}

module _ (s : State) (phase : ℕ) (id_len : length s.contract_id ≡ 32) where
  abbrev h0 : Bytes
  h0 = put (replicate 60 0) 0 (le_bytes 2 1)

  abbrev h1 : Bytes
  h1 = put h0 2 s.contract_id

  abbrev h2 : Bytes
  h2 = put h1 34 (phase ∷ [])

  abbrev h3 : Bytes
  h3 = put h2 35 (s.last_action ∷ [])

  abbrev h4 : Bytes
  h4 = put h3 36 (le_bytes 8 s.wager1)

  abbrev h5 : Bytes
  h5 = put h4 44 (le_bytes 8 s.wager2)

  abbrev h6 : Bytes
  h6 = put h5 52 (le_bytes 8 s.deadline)

  pub length-encode_header : length (encode_header s phase) ≡ 60
  unfolding encode_header
  length-encode_header =
      rw
        (
          length-put h5,
          length-put h4,
          length-put h3,
          length-put h2,
          length-put h1,
          length-put h0,
          length-put (replicate 60 0),
        )
        refl

  len3 : length h3 ≡ 60
  len3 = rw (length-put h2, length-put h1, length-put h0, length-put (replicate 60 0)) refl

  -- What is written before the last `k` fields survives them.
  last1 : (o n : ℕ) → o + n ≤ 52 → slice h6 o n ≡ slice h5 o n
  last1 o n h = slice-put_before h5 52 (le_bytes 8 s.deadline) o n h

  last2 : (o n : ℕ) → o + n ≤ 44 → slice h6 o n ≡ slice h4 o n
  last2 o n h = last1 o n (omega arith) ∙ slice-put_before h4 44 (le_bytes 8 s.wager2) o n h

  last3 : (o n : ℕ) → o + n ≤ 36 → slice h6 o n ≡ slice h3 o n
  last3 o n h = last2 o n (omega arith) ∙ slice-put_before h3 36 (le_bytes 8 s.wager1) o n h

  last4 : (o n : ℕ) → o + n ≤ 35 → slice h6 o n ≡ slice h2 o n
  last4 o n h = last3 o n (omega arith) ∙ slice-put_before h2 35 (s.last_action ∷ []) o n h

  last5 : (o n : ℕ) → o + n ≤ 34 → slice h6 o n ≡ slice h1 o n
  last5 o n h = last4 o n (omega arith) ∙ slice-put_before h1 34 (phase ∷ []) o n h

  last6 : (o n : ℕ) → o + n ≤ 2 → slice h6 o n ≡ slice h0 o n
  last6 o n h = last5 o n (omega arith) ∙ slice-put_before h0 2 s.contract_id o n h

  version0 : le_value (slice h0 0 2) ≡ 1
  unfolding le_value le_bytes put
  version0 = refl

  pub version_back : le_value (slice (encode_header s phase) 0 2) ≡ 1
  unfolding encode_header
  version_back = ap le_value (last6 0 2 (omega arith)) ∙ version0

  len0 : length h0 ≡ 60
  len0 = length-put (replicate 60 0) 0 (le_bytes 2 1)

  len1 : length h1 ≡ 60
  len1 = length-put h0 2 s.contract_id ∙ len0

  len2 : length h2 ≡ 60
  len2 = length-put h1 34 (phase ∷ []) ∙ len1

  pub id_back : slice (encode_header s phase) 2 32 ≡ s.contract_id
  unfolding encode_header
  id_back =
      last5 2 32 (omega arith) ∙ (rw id_len at (slice-put h0 2 s.contract_id (omega (arith, len0))))

  pub phase_back : slice (encode_header s phase) 34 1 ≡ phase ∷ []
  unfolding encode_header
  phase_back = last4 34 1 (omega arith) ∙ slice-put h1 34 (phase ∷ []) (omega (arith, len1))

  pub action_back : slice (encode_header s phase) 35 1 ≡ s.last_action ∷ []
  unfolding encode_header
  action_back =
      last3 35 1 (omega arith) ∙ slice-put h2 35 (s.last_action ∷ []) (omega (arith, len2))

  len4 : length h4 ≡ 60
  len4 = length-put h3 36 (le_bytes 8 s.wager1) ∙ len3

  len5 : length h5 ≡ 60
  len5 = length-put h4 44 (le_bytes 8 s.wager2) ∙ len4

  -- A number of eight bytes, read back from where it was written.
  number_back :
      (h : Bytes) (o v : ℕ)
      → length h ≡ 60
      → o + 8 ≤ 60
      → v < u64_mod
      → le_value (slice (put h o (le_bytes 8 v)) o 8) ≡ v
  number_back h o v len fits lt =
      let back = slice-put h o (le_bytes 8 v) (omega (arith, length-le_bytes 8 v)) in
      rw (rw (length-le_bytes 8 v) at back) (le_value-le_bytes 8 v lt)

  pub wager1_back : s.wager1 < u64_mod → le_value (slice (encode_header s phase) 36 8) ≡ s.wager1
  unfolding encode_header
  wager1_back lt = rw (last2 36 8 (omega arith)) (number_back h3 36 s.wager1 len3 (omega arith) lt)

  pub wager2_back : s.wager2 < u64_mod → le_value (slice (encode_header s phase) 44 8) ≡ s.wager2
  unfolding encode_header
  wager2_back lt = rw (last1 44 8 (omega arith)) (number_back h4 44 s.wager2 len4 (omega arith) lt)

  pub deadline_back :
      s.deadline < u64_mod → le_value (slice (encode_header s phase) 52 8) ≡ s.deadline
  unfolding encode_header
  deadline_back lt = number_back h5 52 s.deadline len5 (omega arith) lt

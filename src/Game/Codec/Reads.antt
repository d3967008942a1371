-- ===== src/Game/Codec/Reads.antt =====
-- A read undoes the write in front of it, and what a read gives was in front.
use arkade_poker.Prelude.{
  ℕ, ◌≡◌, ◌<◌, ◌≤◌, ◌^◌, ◌+◌, ◌-◌, [], ◌∷◌, ◌++◌, length, le_bytes, ok, refl, arith, sym,
  take-append, drop-append, length-append, length-le_bytes, le_value-le_bytes, past_reject, ok-inj,
  false, ◌||◌, true, bad_encoding, ltb,
}
use mathlib.Core.List.{append_assoc}
use arkade_poker.Covenant.Types.{Bytes}
use arkade_poker.Covenant.Amounts.{bytes_eq}
use arkade_poker.Game.Codec.{
  write_blob, write_header, with_checksum, read_raw, read_uint, read_blob, read_header,
  checked_body,
}

pub bytes_eq_refl : (b : Bytes) → bytes_eq b b ≡ true
bytes_eq_refl [] = refl
bytes_eq_refl (x ∷ xs) = ground (arith, bytes_eq_refl xs)

pub read_raw-append :
    (n : ℕ) (b rest : Bytes) → length b ≡ n → read_raw n (b ++ rest) ≡ ok (b, rest)
unfolding read_raw
read_raw-append n b rest e =
    ground (arith, sym e, length-append b rest, take-append b rest, drop-append b rest)

pub read_uint-append :
    (n v : ℕ) (rest : Bytes) → v < 256 ^ n → read_uint n (le_bytes n v ++ rest) ≡ ok (v, rest)
unfolding read_uint
read_uint-append n v rest h =
    rw (read_raw-append n (le_bytes n v) rest (length-le_bytes n v), le_value-le_bytes n v h)

pub read_header-append :
    (domain rest : Bytes) → read_header domain (write_header domain ++ rest) ≡ ok rest
unfolding read_header write_header
read_header-append domain rest = rw (
  append_assoc domain (le_bytes 2 1) rest,
  read_raw-append (length domain) domain (le_bytes 2 1 ++ rest) refl,
  read_uint-append 2 1 rest (omega arith),
  bytes_eq_refl domain,
)

pub write_blob-eq :
    (b : Bytes) (max : ℕ) {out : Bytes}
    → write_blob b max ≡ ok out
    → (length b ≤ max) × (out ≡ le_bytes 4 (length b) ++ b)
unfolding write_blob
write_blob-eq b max h =
    let (small, e) = past_reject (ltb max (length b)) bad_encoding _ h in
    (ground (arith, small), sym (ok-inj e))

pub read_blob-append :
    (b : Bytes) (max : ℕ) (rest : Bytes) {out : Bytes}
    → max < 4294967296
    → write_blob b max ≡ ok out
    → read_blob max (out ++ rest) ≡ ok (b, rest)
unfolding read_blob
read_blob-append b max rest cap h =
    let (small, e) = write_blob-eq b max h in
    let fits : (ltb max (length b) || ltb (length (b ++ rest)) (length b)) ≡ false =
      ground (arith, small, length-append b rest) in
    rw (
      e,
      append_assoc (le_bytes 4 (length b)) b rest,
      read_uint-append 4 (length b) (b ++ rest) (omega (arith, small, cap)),
      fits,
      read_raw-append (length b) b rest refl,
    )

pub checked_body-append :
    (sha256 : Bytes → Bytes) (body : Bytes) (max : ℕ)
    → length (sha256 body) ≡ 32
    → length (with_checksum sha256 body) ≤ max
    → checked_body sha256 (with_checksum sha256 body) max ≡ ok body
unfolding checked_body with_checksum
checked_body-append sha256 body max sized fits =
    let total : length (body ++ sha256 body) ≡ length body + 32 =
      omega (arith, length-append body (sha256 body), sized) in
    let small : (ltb (length (body ++ sha256 body)) 32 || ltb max (length (body ++ sha256 body)))
        ≡ false =
      ground (arith, total, fits) in
    let short : length (body ++ sha256 body) - 32 ≡ length body = omega (arith, total) in
    rw (
      small,
      short,
      take-append body (sha256 body),
      drop-append body (sha256 body),
      bytes_eq_refl (sha256 body),
    )

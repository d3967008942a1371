-- ===== src/Storage/Records.antt =====
-- The frame of a stored record: frame and unframe of internal/storage/record.go. SHA-256 is a parameter.
pub mod Bound
use arkade_poker.Prelude.{
  ℕ, ◌+◌, ◌-◌, Bool, not, ◌||◌, List, [], ◌∷◌, ◌++◌, ltb, leb, ◌==◌, length, take, drop, slice,
  le_bytes, le_value, Result, ok, err, ◌>>=◌, ◌>>◌, reject, guard, record_limit, bad_encoding,
}
use arkade_poker.Covenant.Types.{Bytes}
use arkade_poker.Covenant.Amounts.{bytes_eq}

abbrev pub max_record_bytes : ℕ
max_record_bytes = 4194304

-- "arkade-poker/log" with the version of the frame
unfoldable pub record_header : Bytes
record_header =
    97 ∷ 114 ∷ 107 ∷ 97 ∷ 100 ∷ 101 ∷ 45 ∷ 112 ∷ 111 ∷ 107 ∷ 101 ∷ 114 ∷ 47 ∷ 108 ∷ 111 ∷ 103 ∷ 0
    ∷ 1 ∷ 0 ∷ []

abbrev pub frame_overhead : ℕ
frame_overhead = 95

-- What the checksum is taken of
unfoldable pub framed : Bytes → ℕ → Bytes → Bytes
framed wallet index bytes =
    record_header ++ (wallet ++ (le_bytes 8 index ++ (le_bytes 4 (length bytes) ++ bytes)))

module _ (sha256 : Bytes → Bytes) where
  unfoldable pub frame : Bytes → ℕ → Bytes → Result Bytes
  frame wallet index bytes = do
    reject (length bytes == 0 || ltb max_record_bytes (length bytes)) record_limit
    ok (framed wallet index bytes ++ sha256 (framed wallet index bytes))

  unfoldable pub unframe : Bytes → ℕ → Bytes → Result Bytes
  unframe wallet index b = do
    reject
        (leb (length b) frame_overhead
          || (ltb (max_record_bytes + frame_overhead) (length b)
              || not (bytes_eq (take 19 b) record_header)))
        bad_encoding
    reject
        (not (bytes_eq (slice b 19 32) wallet)
          || (not (le_value (slice b 51 8) == index)
              || not (le_value (slice b 59 4) == length b - frame_overhead)))
        bad_encoding
    guard (bytes_eq (sha256 (take (length b - 32) b)) (drop (length b - 32) b)) bad_encoding
    ok (slice b 63 (length b - frame_overhead))

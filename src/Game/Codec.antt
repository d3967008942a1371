-- ===== src/Game/Codec.antt =====
-- The encoder and the decoder of internal/game/codec.go. What a decoder has not read yet is the
-- state: a read gives its value and the rest, or the error that stays.
pub mod Reads
pub mod Messages
pub mod Varints
pub mod Spends
pub mod Witnesses
pub mod Invitations
use arkade_poker.Prelude.{
  ℕ, ◌+◌, ◌-◌, Bool, not, ◌&&◌, ◌||◌, List, [], ◌∷◌, ◌++◌, ltb, ◌==◌, length, take, drop, le_bytes,
  le_value, Result, ok, err, ◌>>=◌, ◌>>◌, reject, guard, bad_encoding,
}
use arkade_poker.Covenant.Types.{Bytes}
use arkade_poker.Covenant.Amounts.{bytes_eq}

abbrev pub max_message_bytes : ℕ
max_message_bytes = 65536

abbrev pub max_script_bytes : ℕ
max_script_bytes = 10000

-- "arkade-poker/message" with a zero byte
unfoldable pub message_domain : Bytes
message_domain =
    97 ∷ 114 ∷ 107 ∷ 97 ∷ 100 ∷ 101 ∷ 45 ∷ 112 ∷ 111 ∷ 107 ∷ 101 ∷ 114 ∷ 47 ∷ 109 ∷ 101 ∷ 115 ∷ 115
    ∷ 97 ∷ 103 ∷ 101 ∷ 0 ∷ []

-- "arkade-poker/invitation" with a zero byte
unfoldable pub invitation_domain : Bytes
invitation_domain =
    97 ∷ 114 ∷ 107 ∷ 97 ∷ 100 ∷ 101 ∷ 45 ∷ 112 ∷ 111 ∷ 107 ∷ 101 ∷ 114 ∷ 47 ∷ 105 ∷ 110 ∷ 118 ∷ 105
    ∷ 116 ∷ 97 ∷ 116 ∷ 105 ∷ 111 ∷ 110 ∷ 0 ∷ []

-- encoder.blob
unfoldable pub write_blob : Bytes → ℕ → Result Bytes
write_blob b max = reject (ltb max (length b)) bad_encoding >> ok (le_bytes 4 (length b) ++ b)

-- encoder.header
unfoldable pub write_header : Bytes → Bytes
write_header domain = domain ++ le_bytes 2 1

-- encoder.checksum and encoder.finish
unfoldable pub with_checksum : (Bytes → Bytes) → Bytes → Bytes
with_checksum sha256 body = body ++ sha256 body

-- decoder.raw
unfoldable pub read_raw : ℕ → Bytes → Result (Bytes × Bytes)
read_raw n bytes = reject (ltb (length bytes) n) bad_encoding >> ok (take n bytes, drop n bytes)

-- decoder.u8, u16, u32 and u64, by the number of bytes
unfoldable pub read_uint : ℕ → Bytes → Result (ℕ × Bytes)
read_uint n bytes = read_raw n bytes >>= (λ r. ok (le_value r.0, r.1))

-- decoder.blob
unfoldable pub read_blob : ℕ → Bytes → Result (Bytes × Bytes)
read_blob max bytes = do
  n ← read_uint 4 bytes
  reject (ltb max n.0 || ltb (length n.1) n.0) bad_encoding
  read_raw n.0 n.1

-- decoder.header
unfoldable pub read_header : Bytes → Bytes → Result Bytes
read_header domain bytes = do
  d ← read_raw (length domain) bytes
  version ← read_uint 2 d.1
  guard (bytes_eq d.0 domain && version.0 == 1) bad_encoding
  ok version.1

-- decoder.done
unfoldable pub read_done : Bytes → Result (Unit {0})
read_done bytes = guard (length bytes == 0) bad_encoding

-- checkedBody
unfoldable pub checked_body : (Bytes → Bytes) → Bytes → ℕ → Result Bytes
checked_body sha256 bytes max = do
  reject (ltb (length bytes) 32 || ltb max (length bytes)) bad_encoding
  let body = take (length bytes - 32) bytes
  guard (bytes_eq (sha256 body) (drop (length bytes - 32) bytes)) bad_encoding
  ok body

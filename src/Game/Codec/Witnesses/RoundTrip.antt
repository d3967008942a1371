-- ===== src/Game/Codec/Witnesses/RoundTrip.antt =====
-- The payloads of a hand's events are decoded from their encodings.
use arkade_poker.Prelude.{
  ◌≡◌, ◌<◌, ◌*◌, Bool, true, false, [], ◌∷◌, ◌++◌, Option, none, some, length, le_bytes, ok, refl,
  arith, if◌then◌else◌, ==_iff,
}
use mathlib.Core.List.{append_assoc}
use arkade_poker.Covenant.Types.{Bytes}
use arkade_poker.Merkel.Tree.{HandProof, marshal, tree_depth, low_length, high_length}
use arkade_poker.Merkel.Tree.Encoding.{Hashes, sized, decode_proof-marshal}
use arkade_poker.Game.Codec.{read_raw}
use arkade_poker.Game.Codec.Reads.{read_raw-append, read_uint-append}
use arkade_poker.Game.Codec.Spends.{read_optional}
use arkade_poker.Game.Codec.Spends.RoundTrip.{
  IsRead, read_byte, read_optional-none, read_optional-some,
}
use arkade_poker.Game.Codec.Witnesses.{
  Showdown, deal_order, encode_rank, decode_rank, encode_showdown, decode_showdown,
  SubmissionReceipt, write_tx_id, encode_receipt, read_flag, decode_receipt,
}

-- A rank of two bytes, and a proof of 13 lower and 14 upper hashes
pub record IsSizedRank (p : HandProof) : Type 0 where
  pub rank : p.rank < 65536
  pub low : Hashes low_length p.proof.low
  pub high : Hashes high_length p.proof.high

decode_rank-encode_rank : (p : HandProof) → IsSizedRank p → IsRead decode_rank (encode_rank p) p
unfolding decode_rank
decode_rank-encode_rank p s rest =
    let long : length (marshal p.proof) ≡ tree_depth * 32 =
      (==_iff (length (marshal p.proof)) (tree_depth * 32)).0 (sized p.proof s.low s.high) in
    rw (
      append_assoc (le_bytes 2 p.rank) (marshal p.proof) rest,
      read_uint-append 2 p.rank (marshal p.proof ++ rest) (omega (arith, s.rank)),
      read_raw-append (tree_depth * 32) (marshal p.proof) rest long,
      decode_proof-marshal p.proof s.low s.high,
    )

pub record IsSizedShowdown (s : Showdown) : Type 0 where
  pub proof1 : IsSizedRank s.proof1
  pub proof2 : IsSizedRank s.proof2

-- A showdown whose ranks have 16 bits, and whose proofs have 13 lower and 14 upper hashes of 32
-- bytes, is decoded from its encoding, whatever follows it.
pub decode_showdown-encode_showdown :
    (s : Showdown) (rest : Bytes)
    → IsSizedShowdown s
    → decode_showdown (encode_showdown s ++ rest) ≡ ok (s, rest)
unfolding encode_showdown decode_showdown
decode_showdown-encode_showdown s rest size = rw (
  append_assoc (deal_order s.cards) (encode_rank s.proof1 ++ encode_rank s.proof2) rest,
  append_assoc (encode_rank s.proof1) (encode_rank s.proof2) rest,
  read_raw-append 9 (deal_order s.cards) (encode_rank s.proof1 ++ (encode_rank s.proof2 ++ rest))
      refl,
  decode_rank-encode_rank s.proof1 size.proof1 (encode_rank s.proof2 ++ rest),
  decode_rank-encode_rank s.proof2 size.proof2 rest,
)

read_flag-IsRead :
    (b : Bool) (rest : Bytes) → read_flag ((if b then 1 ∷ [] else 0 ∷ []) ++ rest) ≡ ok (b, rest)
unfolding read_flag
read_flag-IsRead true rest = rw (read_byte 1 rest)
read_flag-IsRead false rest = rw (read_byte 0 rest)

abbrev pub IsSizedId : Option Bytes → Type 0
IsSizedId none = Unit
IsSizedId (some h) = length h ≡ 32

write_tx_id-IsRead :
    (o : Option Bytes) → IsSizedId o → IsRead (read_optional (read_raw 32)) (write_tx_id o) o
write_tx_id-IsRead none size rest = read_optional-none (read_raw 32) rest
write_tx_id-IsRead (some h) size rest =
    read_optional-some (read_raw 32) h h (λ more. read_raw-append 32 h more size) rest

pub decode_receipt-encode_receipt :
    (p : SubmissionReceipt) → IsSizedId p.tx_id → IsRead decode_receipt (encode_receipt p) p
unfolding encode_receipt decode_receipt
decode_receipt-encode_receipt p size rest = rw (
  append_assoc (if p.recovery then 1 ∷ [] else 0 ∷ []) (write_tx_id p.tx_id) rest,
  read_flag-IsRead p.recovery (write_tx_id p.tx_id ++ rest),
  write_tx_id-IsRead p.tx_id size rest,
)

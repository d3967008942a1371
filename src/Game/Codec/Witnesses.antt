-- ===== src/Game/Codec/Witnesses.antt =====
-- The other payloads of a hand's events in internal/game/hand_codec.go: encodeShowdown, encodeAccepted, encodeReceipt and
-- their decoders. The codec of a transaction is a parameter.
pub mod RoundTrip
use arkade_poker.Prelude.{
  ℕ, ◌*◌, Bool, true, false, List, [], ◌∷◌, ◌++◌, Option, none, some, ltb, ◌==◌, if◌then◌else◌,
  length, le_bytes, Result, ok, err, ◌>>=◌, ◌>>◌, reject, or_fail, bad_encoding,
}
use arkade_poker.Covenant.Types.{Bytes, MsgTx}
use arkade_poker.Merkel.Tree.{HandProof, marshal, decode_proof, tree_depth}
use arkade_poker.Game.Hand.{AcceptedTransaction}
use arkade_poker.Game.Codec.{read_raw, read_uint}
use arkade_poker.Game.Codec.Spends.{read_count, read_times, read_optional}

-- The cards that are dealt to the two players and to the board
pub record DealtCards {ℓ} (A : Type ℓ) : Type ℓ where
  pub player1 : A × A
  pub player2 : A × A
  pub flop : A × (A × A)
  pub turn : A
  pub river : A

abbrev pub deal_order {ℓ} : {A : Type ℓ} → DealtCards A → List A
deal_order d =
    d.player1.0 ∷ d.player1.1 ∷ d.player2.0 ∷ d.player2.1 ∷ d.flop.0 ∷ d.flop.1.0 ∷ d.flop.1.1
    ∷ d.turn ∷ d.river ∷ []

-- Of nine bytes, which is what the decoder takes; `none` of any other number
abbrev pub deal_from {ℓ} : {A : Type ℓ} → List A → Option (DealtCards A)
deal_from (a ∷ b ∷ c ∷ d ∷ e ∷ f ∷ g ∷ h ∷ i ∷ []) =
    some (record { player1 = (a, b); player2 = (c, d); flop = (e, (f, g)); turn = h; river = i })
deal_from _ = none

pub record Showdown : Type 0 where
  pub cards : DealtCards ℕ
  pub proof1 : HandProof
  pub proof2 : HandProof

abbrev pub encode_rank : HandProof → Bytes
encode_rank p = le_bytes 2 p.rank ++ marshal p.proof

unfoldable pub decode_rank : Bytes → Result (HandProof × Bytes)
decode_rank bytes = do
  rank ← read_uint 2 bytes
  proof ← read_raw (tree_depth * 32) rank.1
  p ← decode_proof proof.0
  ok (record { rank = rank.0; proof = p }, proof.1)

unfoldable pub encode_showdown : Showdown → Bytes
encode_showdown s = deal_order s.cards ++ (encode_rank s.proof1 ++ encode_rank s.proof2)

unfoldable pub decode_showdown : Bytes → Result (Showdown × Bytes)
decode_showdown bytes = do
  cards ← read_raw 9 bytes
  first ← decode_rank cards.1
  second ← decode_rank first.1
  dealt ← or_fail (deal_from cards.0) bad_encoding
  ok (record { cards = dealt; proof1 = first.0; proof2 = second.0 }, second.1)

pub record SubmissionReceipt : Type 0 where
  pub recovery : Bool
  pub tx_id : Option Bytes

abbrev pub write_tx_id : Option Bytes → Bytes
write_tx_id none = 0 ∷ []
write_tx_id (some h) = 1 ∷ h

unfoldable pub encode_receipt : SubmissionReceipt → Bytes
encode_receipt p = (if p.recovery then 1 ∷ [] else 0 ∷ []) ++ write_tx_id p.tx_id

unfoldable pub read_flag : Bytes → Result (Bool × Bytes)
read_flag bytes = do
  tag ← read_uint 1 bytes
  (if tag.0 == 0
      then ok (false, tag.1)
      else (if tag.0 == 1 then ok (true, tag.1) else err bad_encoding))

unfoldable pub decode_receipt : Bytes → Result (SubmissionReceipt × Bytes)
decode_receipt bytes = do
  recovery ← read_flag bytes
  tx_id ← read_optional (read_raw 32) recovery.1
  ok (record { recovery = recovery.0; tx_id = tx_id.0 }, tx_id.1)

module _ (encode_tx : MsgTx → Result Bytes) (decode_tx : Bytes → Result (MsgTx × Bytes)) where
  abbrev pub encode_txs : List MsgTx → Result Bytes
  encode_txs [] = ok []
  encode_txs (tx ∷ txs) = encode_tx tx >>= (λ b. encode_txs txs >>= (λ bs. ok (b ++ bs)))

  unfoldable pub encode_accepted : AcceptedTransaction → Result Bytes
  encode_accepted a = do
    tx ← encode_tx a.transaction
    reject (ltb 256 (length a.checkpoints)) bad_encoding
    checkpoints ← encode_txs a.checkpoints
    ok (tx ++ (le_bytes 4 (length a.checkpoints) ++ checkpoints))

  unfoldable pub decode_accepted : Bytes → Result (AcceptedTransaction × Bytes)
  decode_accepted bytes = do
    tx ← decode_tx bytes
    n ← read_count 256 4 tx.1
    checkpoints ← read_times decode_tx n.0 n.1
    ok (record { transaction = tx.0; checkpoints = checkpoints.0 }, checkpoints.1)

-- ===== src/Covenant/Amounts.antt =====
-- Amounts of internal/covenant: addAmount, sourceOutput and validateFunding of sources.go,
-- validateAmounts of program.go, and Terms.Validate of internal/game/setup.go.
pub mod Agreement
pub mod Totals
use arkade_poker.Prelude.{
  ℕ, ◌+◌, ◌-◌, ◌*◌, Bool, true, false, not, ◌&&◌, ◌||◌, List, [], ◌∷◌, Option, none, some, ltb, leb,
  ◌==◌, if◌then◌else◌, ℤ, pos, negsuc, int64, uint64, leb_ℤ, eqb_ℤ, sub_int64, get_elem?, Result,
  ok, err, ◌>>=◌, ◌>>◌, guard, reject, or_fail, bad_amount, bad_funding,
}
use arkade_poker.Covenant.Types.{Bytes, TxOut, MsgTx, Source, Funding}

-- 21,000,000 bitcoin in satoshis
abbrev pub max_money : ℕ
max_money = 2100000000000000

-- After the first check the amount is at most `max_money`, so the subtraction is exact.
unfoldable pub add_amount : ℤ → ℤ → Result ℤ
add_amount total (negsuc a) = err bad_amount
add_amount (negsuc t) (pos a) = err bad_amount
add_amount (pos t) (pos a) = do
  reject (ltb max_money a) bad_amount
  reject (ltb (max_money - a) t) bad_amount
  ok (pos (t + a))

-- The offered terms, each an int64.
pub record Terms : Type 0 where
  pub stake : ℤ
  pub bond : ℤ
  pub min_bet : ℤ
  pub max_wager : ℤ

abbrev pub positive : ℤ → Bool
positive n = not (leb_ℤ n (pos 0)) && leb_ℤ n (pos max_money)

-- validateAmounts
unfoldable pub validate_amounts : Terms → Result (Unit {0})
unfolding add_amount
validate_amounts t = do
  guard (positive t.stake) bad_amount
  guard (positive t.bond) bad_amount
  guard (positive t.min_bet) bad_amount
  guard (positive t.max_wager) bad_amount
  guard (leb_ℤ t.min_bet t.max_wager) bad_amount
  both ← add_amount t.stake t.bond
  total ← add_amount both t.max_wager
  _ ← add_amount total total
  ok tt

-- Terms.Validate of the game: its sum is taken in int64 arithmetic, which wraps.
unfoldable pub validate_terms : Terms → Result (Unit {0})
validate_terms t = do
  guard (positive t.stake) bad_amount
  guard (positive t.bond) bad_amount
  guard (positive t.min_bet) bad_amount
  guard (positive t.max_wager) bad_amount
  reject
      (not (leb_ℤ t.min_bet t.max_wager)
        || not (
            leb_ℤ (int64 ((uint64 t.stake + uint64 t.bond + uint64 t.max_wager) * 2))
              (pos max_money)))
      bad_amount
  ok tt

abbrev pub bytes_eq : Bytes → Bytes → Bool
bytes_eq [] [] = true
bytes_eq [] (y ∷ ys) = false
bytes_eq (x ∷ xs) [] = false
bytes_eq (x ∷ xs) (y ∷ ys) = x == y && bytes_eq xs ys

-- sourceOutput, without its tests for nil inputs and outputs.
unfoldable pub source_output : Source → Result TxOut
unfolding add_amount
source_output s = do
  (hash, index) ← or_fail s.outpoint bad_funding
  tx ← or_fail s.previous_tx bad_funding
  guard (bytes_eq tx.tx_hash hash) bad_funding
  out ← or_fail (get_elem? tx.tx_out index) bad_funding
  guard (eqb_ℤ s.amount out.value) bad_funding
  _ ← add_amount (pos 0) out.value
  ok out

-- The loop over the inputs.
unfoldable pub sum_inputs : ℤ → List Source → Result ℤ
unfolding add_amount source_output
sum_inputs total [] = ok total
sum_inputs total (s ∷ rest) = do
  out ← source_output s
  next ← add_amount total out.value
  sum_inputs next rest

abbrev no_inputs : List Source → Bool
no_inputs [] = true
no_inputs (_ ∷ _) = false

abbrev no_change : Option TxOut → Bool
no_change none = true
no_change (some _) = false

abbrev change_matches : Option TxOut → ℤ → Bool
change_matches none left = eqb_ℤ left (pos 0)
change_matches (some change) left = not (leb_ℤ left (pos 0)) && eqb_ℤ change.value left

unfoldable pub validate_funding : Funding → ℤ → Result (Unit {0})
unfolding sum_inputs
validate_funding f required = do
  _ ← add_amount (pos 0) required
  if eqb_ℤ required (pos 0)
      then guard (no_inputs f.inputs && no_change f.change) bad_funding
      else (do
        reject (no_inputs f.inputs) bad_funding
        total ← sum_inputs (pos 0) f.inputs
        guard (leb_ℤ required total) bad_funding
        guard (change_matches f.change (sub_int64 total required)) bad_funding)

-- ===== src/Merkel/Tree.antt =====
-- internal/merkel/proof.go: the tree over all seven-card hands and its inclusion proofs. SHA-256, the
-- three tags and the embedded cache of the upper levels are parameters.
pub mod Climb
pub mod Cache
pub mod Encoding
use Prim.Native.Nat.{bit_or}
use arkade_poker.Prelude.{
  ℕ, zero, suc, ◌+◌, ◌-◌, ◌*◌, ◌/◌, ◌%◌, ◌^◌, Bool, true, false, not, ◌&&◌, ◌||◌, List, [], ◌∷◌,
  ◌++◌, ◌==◌, ltb, leb, if◌then◌else◌, length, Result, ok, err, ◌>>=◌, ◌>>◌, guard, reject, or_fail,
  Option, none, some, bad_cards, bad_rank, bad_packet, put, slice, le_bytes, le_value, replicate,
  take, drop,
}
use arkade_poker.Covenant.Types.{Bytes}
use arkade_poker.Covenant.Amounts.{bytes_eq}
use arkade_poker.Merkel.Cards.{validate}
use arkade_poker.Merkel.Combinations.{combination_index, combination_at}
use arkade_poker.Merkel.Ranks.{rank7, rank_table, num_ranks}

abbrev pub real_leaf_count : ℕ
real_leaf_count = 133784560

abbrev pub tree_depth : ℕ
tree_depth = 27

abbrev pub low_length : ℕ
low_length = 13

abbrev pub high_length : ℕ
high_length = 14

abbrev pub block_leaves : ℕ
block_leaves = 8192

-- bytes.Compare(a, b) > 0
unfoldable pub greater : Bytes → Bytes → Bool
greater [] b = false
greater (x ∷ xs) [] = true
greater (x ∷ xs) (y ∷ ys) = ltb y x || (x == y && greater xs ys)

-- `pos^1`
abbrev pub sibling : ℕ → ℕ
sibling pos = if pos % 2 == 0 then pos + 1 else pos - 1

abbrev pub node_at : List Bytes → ℕ → Bytes
node_at [] i = []
node_at (n ∷ ns) zero = n
node_at (n ∷ ns) (suc i) = node_at ns i

mask_of : List ℕ → ℕ → ℕ
mask_of [] mask = mask
mask_of (c ∷ cs) mask = mask_of cs (bit_or mask (2 ^ c))

-- The nine bytes of a leaf
unfoldable pub payload : List ℕ → ℕ → Bytes
unfolding mask_of
payload cards rank = put (le_bytes 8 (mask_of cards 0) ++ (0 ∷ [])) 7 (le_bytes 2 rank)

-- A proof's segments, from the leaf to the root
pub record Proof : Type 0 where
  pub low : List Bytes
  pub high : List Bytes

pub record HandProof : Type 0 where
  pub rank : ℕ
  pub proof : Proof

unfoldable pub concat : List Bytes → Bytes
concat [] = []
concat (h ∷ hs) = h ++ concat hs

-- MarshalBinary
unfoldable pub marshal : Proof → Bytes
unfolding concat
marshal p = concat p.low ++ concat p.high

unfoldable pub segments : ℕ → Bytes → List Bytes
segments zero b = []
segments (suc n) b = take 32 b ∷ segments n (drop 32 b)

-- DecodeProof
unfoldable pub decode_proof : Bytes → Result Proof
unfolding segments
decode_proof b = do
  guard (length b == tree_depth * 32) bad_packet
  ok (record {
    low = segments low_length b;
    high = segments high_length (drop (low_length * 32) b);
  })

-- bits.OnesCount64, by the bits left
ones : ℕ → ℕ → ℕ
ones zero n = 0
ones (suc bits) n = n % 2 + ones bits (n / 2)

module _ (sha256 : Bytes → Bytes) (leaf_tag branch_tag padding_tag : Bytes) where
  unfoldable pub tagged : Bytes → Bytes → Bytes
  tagged tag b = sha256 (tag ++ (tag ++ b))

  unfoldable pub parent : Bytes → Bytes → Bytes
  unfolding tagged
  parent a b = if greater a b then tagged branch_tag (b ++ a) else tagged branch_tag (a ++ b)

  -- The fold of a proof's siblings over a node
  unfoldable pub climb : Bytes → List Bytes → Bytes
  climb node [] = node
  climb node (s ∷ ss) = climb (parent node s) ss

  unfoldable pub verify_payload : Proof → Bytes → Bytes → Bool
  unfolding ones climb
  verify_payload p b root =
      let mask = le_value (slice b 0 7) in
      let rank = le_value (slice b 7 2) in
      not (ltb 4503599627370495 mask)
      && (ones 64 mask == 7
          && (leb 1 rank
              && (leb rank num_ranks
                  && bytes_eq (climb (climb (tagged leaf_tag b) p.low) p.high) root)))

  unfoldable pub verify : Bytes → HandProof → List ℕ → Result Bool
  verify root h cards = do
    _ ← validate cards
    ok (verify_payload h.proof (payload cards h.rank) root)

  -- One round of the loop over the lower levels: the parents of the nodes.
  unfoldable pub level_up : List Bytes → List Bytes
  level_up [] = []
  level_up (a ∷ []) = []
  level_up (a ∷ b ∷ rest) = parent a b ∷ level_up rest

  -- The siblings on the way up, and the nodes that are left at the end.
  unfoldable pub low_path : ℕ → List Bytes → ℕ → List Bytes
  unfolding level_up
  low_path zero nodes pos = []
  low_path (suc levels) nodes pos =
      node_at nodes (sibling pos) ∷ low_path levels (level_up nodes) (pos / 2)

  unfoldable pub levels_up : ℕ → List Bytes → List Bytes
  levels_up zero nodes = nodes
  levels_up (suc levels) nodes = levels_up levels (level_up nodes)

  unfoldable pub leaf : List ℕ → ℕ → Result Bytes
  leaf table index =
      if ltb index real_leaf_count
      then (do
        cards ← or_fail (combination_at index) bad_cards
        ok (tagged leaf_tag (payload cards (rank7 table cards))))
      else ok (tagged padding_tag (big_endian (index - real_leaf_count)))
    where
      big_endian : ℕ → Bytes
      big_endian n = n / 16777216 % 256 ∷ n / 65536 % 256 ∷ n / 256 % 256 ∷ n % 256 ∷ []

  -- The leaves of a block, by those left
  leaves : List ℕ → ℕ → ℕ → Result (List Bytes)
  leaves table zero index = ok []
  leaves table (suc n) index = do
    l ← leaf table index
    rest ← leaves table n (index + 1)
    ok (l ∷ rest)

  module _ (cache root : Bytes) where
    abbrev offset : ℕ → ℕ
    offset level = 2 ^ 15 - 2 ^ (28 - level)

    unfoldable pub cache_node : ℕ → ℕ → Bytes
    cache_node level index = slice cache ((offset level + index) * 32) 32

    -- The inner loop of validateCache
    unfoldable pub valid_level : ℕ → ℕ → Bool
    valid_level level zero = true
    valid_level level (suc i) =
        valid_level level i
        && bytes_eq (parent (cache_node (level - 1) (2 * i)) (cache_node (level - 1) (2 * i + 1)))
            (cache_node level i)

    -- The outer loop, by the levels left above low_length
    unfoldable pub valid_levels : ℕ → Bool
    unfolding valid_level
    valid_levels zero = true
    valid_levels (suc n) =
        valid_levels n && valid_level (low_length + suc n) (2 ^ (tree_depth - (low_length + suc n)))

    unfoldable pub validate_cache : Result (Unit {0})
    validate_cache = do
      guard (length cache == 32767 * 32) bad_packet
      guard (valid_levels high_length) bad_packet
      guard (bytes_eq (cache_node tree_depth 0) root) bad_packet

    unfoldable pub high_path : ℕ → ℕ → ℕ → List Bytes
    high_path zero level index = []
    high_path (suc rounds) level index =
        cache_node level (sibling (index / 2 ^ level)) ∷ high_path rounds (level + 1) index

    -- Generate, without its context
    unfoldable pub generate : List ℕ → Result HandProof
    unfolding leaves high_path
    generate cards = do
      _ ← validate cards
      _ ← validate_cache
      table ← rank_table
      let index = combination_index cards
      let block = index / block_leaves
      nodes ← leaves table block_leaves (block * block_leaves)
      let low = low_path low_length nodes (index % block_leaves)
      guard (bytes_eq (node_at (levels_up low_length nodes) 0) (cache_node low_length block))
          bad_packet
      let h : HandProof = record {
        rank = rank7 table cards;
        proof = record { low = low; high = high_path high_length low_length index };
      }
      verified ← verify root h cards
      guard verified bad_rank
      ok h

    -- Evaluate: the cards stand in the protocol's order. The winner is 0 after a tie.
    unfoldable pub evaluate : List ℕ → List ℕ → List ℕ → Result (HandProof × HandProof × ℕ)
    evaluate holes1 holes2 board = do
      _ ← validate (holes1 ++ (holes2 ++ board))
      one ← generate (holes1 ++ board)
      two ← generate (holes2 ++ board)
      ok (one, two, if ltb two.rank one.rank then 1 else (if ltb one.rank two.rank then 2 else 0))

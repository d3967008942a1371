-- ===== src/Merkel/Tree/Cache.antt =====
-- The ways up through the cached levels, when the cache passes its check.
use native.Mathlib.Nat.{div-div-eq-div-mul, div-eq_of_lt, pow-suc}
use arkade_poker.Prelude.{
  ℕ, zero, suc, ◌+◌, ◌%◌, length, ◌-◌, ◌*◌, ◌/◌, ◌^◌, ◌≡◌, ◌<◌, ◌⊎◌, inl, inr, Bool, true, ◌&&◌,
  List, arith, refl, sym, ap, ◌∙◌, subst,
}
use arkade_poker.Covenant.Types.{Bytes}
use arkade_poker.Covenant.Amounts.{bytes_eq}
use arkade_poker.Merkel.Tree.{
  sibling, climb, cache_node, valid_level, valid_levels, high_path, low_length, high_length,
  tree_depth, block_leaves, node_at, levels_up, low_path,
}
use arkade_poker.Merkel.Tree.Climb.{bytes_eq→≡, over, over-sibling, climb-low_path}

both : (a b : Bool) → (a && b) ≡ true → (a ≡ true) × (b ≡ true)
both a b e = ground arith

least-or : (i n : ℕ) → i < suc n → (i < n) ⊎ (i ≡ n)
least-or i n h = ground arith

half-power : (n k : ℕ) → n / 2 ^ k / 2 ≡ n / 2 ^ suc k
half-power n k = div-div-eq-div-mul n (2 ^ k) 2 ∙ ap (λ d. n / d) (sym (pow-suc 2 k))

power-bound : (rounds k n : ℕ) → n < 2 ^ (rounds + k) → n / 2 ^ k < 2 ^ rounds
power-bound rounds zero n h = omega (arith, subst (λ j. n < 2 ^ j) plain h)
  where
    plain : rounds + 0 ≡ rounds
    plain = omega arith
power-bound rounds (suc k) n h =
    subst (λ (j : ℕ). j < 2 ^ rounds) (half-power n k)
      (omega
        (arith, pow-suc 2 rounds, power-bound (suc rounds) k n (subst (λ j. n < 2 ^ j) moved h)))
  where
    moved : rounds + suc k ≡ suc rounds + k
    moved = omega arith

module _ (sha256 : Bytes → Bytes) (leaf_tag branch_tag padding_tag cache root : Bytes) where
  abbrev node : ℕ → ℕ → Bytes
  node level i = cache_node sha256 leaf_tag branch_tag padding_tag cache root level i

  abbrev up : Bytes → Bytes → Bytes
  up a b = over sha256 leaf_tag branch_tag padding_tag a b

  -- A checked level holds the parents of the level below it.
  valid_level-node :
      (level count i : ℕ)
      → valid_level sha256 leaf_tag branch_tag padding_tag cache root level count ≡ true
      → i < count
      → up (node (level - 1) (2 * i)) (node (level - 1) (2 * i + 1)) ≡ node level i
  unfolding valid_level
  valid_level-node level zero i v h = ground arith
  valid_level-node level (suc n) i v h =
      let (below, here) =
        both (valid_level sha256 leaf_tag branch_tag padding_tag cache root level n)
          (bytes_eq (up (node (level - 1) (2 * n)) (node (level - 1) (2 * n + 1))) (node level n))
          v in
      elim (least-or i n h) [
        | inl less ↦ valid_level-node level n i below less
        | inr last ↦
            subst (λ j. up (node (level - 1) (2 * j)) (node (level - 1) (2 * j + 1)) ≡ node level j)
              (sym last)
              (bytes_eq→≡ (up (node (level - 1) (2 * n)) (node (level - 1) (2 * n + 1)))
                (node level n) here)
      ]

  abbrev IsChecked : ℕ → ℕ → Type 0
  IsChecked level count =
      valid_level sha256 leaf_tag branch_tag padding_tag cache root level count ≡ true

  -- Every level above the lowest is checked.
  valid_levels-level :
      (n m : ℕ)
      → valid_levels sha256 leaf_tag branch_tag padding_tag cache root n ≡ true
      → m < n
      → valid_level sha256 leaf_tag branch_tag padding_tag cache root
          (low_length + suc m)
          (2 ^ (tree_depth - (low_length + suc m)))
        ≡ true
  unfolding valid_levels
  valid_levels-level zero m v h = ground arith
  valid_levels-level (suc n) m v h =
      let (below, here) =
        both (valid_levels sha256 leaf_tag branch_tag padding_tag cache root n)
          (valid_level sha256 leaf_tag branch_tag padding_tag cache root (low_length + suc n)
            (2 ^ (tree_depth - (low_length + suc n))))
          v in
      elim (least-or m n h) [
        | inl less ↦ valid_levels-level n m below less
        | inr last ↦
            subst (λ j. IsChecked (low_length + suc j) (2 ^ (tree_depth - (low_length + suc j))))
              (sym last) here
      ]

  -- The node above a cached node is the parent of it and its sibling.
  node-above :
      valid_levels sha256 leaf_tag branch_tag padding_tag cache root high_length ≡ true
      → (m pos : ℕ) → m < high_length
      → pos / 2 < 2 ^ (tree_depth - (low_length + suc m))
      → up (node (low_length + m) pos) (node (low_length + m) (sibling pos))
        ≡ node (low_length + suc m) (pos / 2)
  node-above v m pos h b =
      over-sibling sha256 leaf_tag branch_tag padding_tag (node (low_length + m)) pos
      ∙ ap (λ j. up (node j (2 * (pos / 2))) (node (low_length + m) (suc (2 * (pos / 2)))))
          (omega arith)
      ∙ ap (λ j. up (node (low_length + suc m - 1) (2 * (pos / 2))) (node j (suc (2 * (pos / 2)))))
          (omega arith)
      ∙ ap
          (λ j.
            up (node (low_length + suc m - 1) (2 * (pos / 2))) (node (low_length + suc m - 1) j))
          (omega arith)
      ∙ valid_level-node (low_length + suc m) (2 ^ (tree_depth - (low_length + suc m))) (pos / 2)
          (valid_levels-level high_length m v h) b

  -- The upper siblings of a leaf lead from its block's root to the root of the tree.
  climb-high_path :
      valid_levels sha256 leaf_tag branch_tag padding_tag cache root high_length ≡ true
      → (rounds m index : ℕ) → rounds + m ≡ high_length
      → index < 2 ^ tree_depth
      → climb sha256 leaf_tag branch_tag padding_tag
          (node (low_length + m) (index / 2 ^ (low_length + m)))
          (high_path sha256 leaf_tag branch_tag padding_tag cache root rounds
            (low_length + m)
            index)
        ≡ node tree_depth 0
  unfolding climb high_path
  climb-high_path v zero m index e b =
      ap (λ j. node (low_length + j) (index / 2 ^ (low_length + j))) top
      ∙ ap (node tree_depth) (div-eq_of_lt b)
    where
      top : m ≡ high_length
      top = omega (arith, e)
  climb-high_path v (suc rounds) m index e b =
      ap
        (λ n. climb sha256 leaf_tag branch_tag padding_tag n (
          high_path sha256 leaf_tag branch_tag padding_tag cache root rounds (low_length + m + 1)
            index))
        (node-above v m (index / 2 ^ (low_length + m)) (omega (arith, e)) inside
          ∙ ap (node (low_length + suc m))
              (half-power index (low_length + m) ∙ ap (λ j. index / 2 ^ j) step))
      ∙ ap
          (λ j.
            climb sha256 leaf_tag branch_tag padding_tag
              (node (low_length + suc m) (index / 2 ^ (low_length + suc m)))
              (high_path sha256 leaf_tag branch_tag padding_tag cache root rounds j index))
          (omega arith)
      ∙ climb-high_path v rounds (suc m) index (omega (arith, e)) b
    where
      step : suc (low_length + m) ≡ low_length + suc m
      step = omega arith

      split : tree_depth ≡ tree_depth - (low_length + suc m) + suc (low_length + m)
      split = omega (arith, e)

      inside : index / 2 ^ (low_length + m) / 2 < 2 ^ (tree_depth - (low_length + suc m))
      inside =
          subst (λ (j : ℕ). j < 2 ^ (tree_depth - (low_length + suc m)))
            (sym (half-power index (low_length + m)))
            (power-bound (tree_depth - (low_length + suc m)) (suc (low_length + m)) index
              (subst (λ j. index < 2 ^ j) split b))

  -- When every cached level passes its check and the lower levels of a block of 8192 nodes end in
  -- the block's cached node, the two segments lead from the node at any index up to the cached
  -- node at the top.
  pub climb-segments :
      valid_levels sha256 leaf_tag branch_tag padding_tag cache root high_length ≡ true
      → (nodes : List Bytes) (index : ℕ) → length nodes ≡ block_leaves
      → index < 2 ^ tree_depth
      → bytes_eq (node_at (levels_up sha256 leaf_tag branch_tag padding_tag low_length nodes) 0) (
          cache_node sha256 leaf_tag branch_tag padding_tag cache root low_length
            (index / block_leaves))
        ≡ true
      → climb sha256 leaf_tag branch_tag padding_tag
          (climb sha256 leaf_tag branch_tag padding_tag (node_at nodes (index % block_leaves)) (
            low_path sha256 leaf_tag branch_tag padding_tag low_length nodes
              (index % block_leaves)))
          (high_path sha256 leaf_tag branch_tag padding_tag cache root high_length low_length index)
        ≡ cache_node sha256 leaf_tag branch_tag padding_tag cache root tree_depth 0
  climb-segments v nodes index e b top =
      ap
        (λ n. climb sha256 leaf_tag branch_tag padding_tag n (
          high_path sha256 leaf_tag branch_tag padding_tag cache root high_length low_length index))
        (climb-low_path sha256 leaf_tag branch_tag padding_tag low_length nodes
            (index % block_leaves) e (omega arith)
          ∙ bytes_eq→≡
              (node_at (levels_up sha256 leaf_tag branch_tag padding_tag low_length nodes) 0)
              (node low_length (index / block_leaves)) top)
      ∙ climb-high_path v high_length 0 index refl b

-- ===== src/Merkel/Tree/Climb.antt =====
-- The ways up the tree: a node under its siblings climbs to the node over it.
use native.Mathlib.Nat.{pow-suc}
use arkade_poker.Prelude.{
  ℕ, zero, suc, ◌+◌, ◌-◌, ◌*◌, ◌/◌, ◌%◌, ◌^◌, ◌≡◌, ◌<◌, inl, inr, true, false, List, [], ◌∷◌, ◌++◌,
  length, arith, refl, sym, ap, ◌∙◌, subst, Bool-cases, if◌then◌else◌, ◌==◌,
}
use arkade_poker.Covenant.Types.{Bytes}
use arkade_poker.Covenant.Amounts.{bytes_eq}
use arkade_poker.Merkel.Tree.{
  greater, sibling, node_at, tagged, parent, climb, level_up, low_path, levels_up,
}

greater-asymm : (a b : Bytes) → greater a b ≡ true → greater b a ≡ false
unfolding greater
greater-asymm [] b e = ground arith
greater-asymm (x ∷ xs) [] e = refl
greater-asymm (x ∷ xs) (y ∷ ys) e = ground (arith, greater-asymm xs ys)

greater-total : (a b : Bytes) → greater a b ≡ false → greater b a ≡ false → a ≡ b
unfolding greater
greater-total [] [] e f = refl
greater-total [] (y ∷ ys) e f = ground arith
greater-total (x ∷ xs) [] e f = ground arith
greater-total (x ∷ xs) (y ∷ ys) e f = ground (arith, greater-total xs ys)

pub bytes_eq→≡ : (a b : Bytes) → bytes_eq a b ≡ true → a ≡ b
bytes_eq→≡ [] [] e = refl
bytes_eq→≡ [] (y ∷ ys) e = ground arith
bytes_eq→≡ (x ∷ xs) [] e = ground arith
bytes_eq→≡ (x ∷ xs) (y ∷ ys) e = ground (arith, bytes_eq→≡ xs ys)

even-half : (pos : ℕ) → (pos % 2 == 0) ≡ true → pos ≡ 2 * (pos / 2)
even-half pos even = ground arith

odd-half : (pos : ℕ) → (pos % 2 == 0) ≡ false → pos ≡ suc (2 * (pos / 2))
odd-half pos odd = ground arith

-- The way up through the caller's nodes, and the way through the cache.
module _ (sha256 : Bytes → Bytes) (leaf_tag branch_tag padding_tag : Bytes) where
  abbrev pub over : Bytes → Bytes → Bytes
  over a b = parent sha256 leaf_tag branch_tag padding_tag a b

  abbrev halved : List Bytes → List Bytes
  halved ns = level_up sha256 leaf_tag branch_tag padding_tag ns

  abbrev below : Bytes → Bytes → Bytes
  below c d = tagged sha256 leaf_tag branch_tag padding_tag branch_tag (c ++ d)

  over_comm : (a b : Bytes) → over a b ≡ over b a
  unfolding parent
  over_comm a b = elim (Bool-cases (greater a b)) [
    | inl up ↦
        ap (λ c. if c then below b a else below a b) up
        ∙ sym (ap (λ c. if c then below a b else below b a) (greater-asymm a b up))
    | inr down ↦ elim (Bool-cases (greater b a)) [
      | inl up ↦
          ap (λ c. if c then below b a else below a b) down
          ∙ sym (ap (λ c. if c then below a b else below b a) up)
      | inr level ↦ subst (λ c. over a c ≡ over c a) (greater-total a b down level) refl
    ]
  ]

  length-halved : (n : ℕ) (ns : List Bytes) → length ns ≡ n + n → length (halved ns) ≡ n
  unfolding level_up
  length-halved zero [] e = refl
  length-halved zero (a ∷ ns) e = ground arith
  length-halved (suc n) [] e = ground arith
  length-halved (suc n) (a ∷ []) e = ground arith
  length-halved (suc n) (a ∷ b ∷ ns) e = ap suc (length-halved n ns (omega arith))

  node_at-halved :
      (ns : List Bytes) (i : ℕ)
      → suc (2 * i) < length ns
      → node_at (halved ns) i ≡ over (node_at ns (2 * i)) (node_at ns (suc (2 * i)))
  unfolding level_up
  node_at-halved [] i h = ground arith
  node_at-halved (a ∷ []) i h = ground arith
  node_at-halved (a ∷ b ∷ rest) zero h = refl
  node_at-halved (a ∷ b ∷ rest) (suc i) h =
      node_at-halved rest i (omega arith)
      ∙ ap (λ j. over (node_at (a ∷ b ∷ rest) j) (node_at (b ∷ rest) j)) twice
    where
      twice : suc (suc (2 * i)) ≡ 2 * suc i
      twice = omega arith

  -- A node and its sibling are the two children of the node at half its index.
  pub over-sibling :
      (node : ℕ → Bytes) (pos : ℕ)
      → over (node pos) (node (sibling pos))
        ≡ over (node (2 * (pos / 2))) (node (suc (2 * (pos / 2))))
  over-sibling node pos = elim (Bool-cases (pos % 2 == 0)) [
    | inl even ↦
        ap (λ b. over (node pos) (node (if b then pos + 1 else pos - 1))) even
        ∙ ap (λ p. over (node p) (node (p + 1))) (even-half pos even)
        ∙ ap (λ p. over (node (2 * (pos / 2))) (node p)) (omega arith)
    | inr odd ↦
        ap (λ b. over (node pos) (node (if b then pos + 1 else pos - 1))) odd
        ∙ over_comm (node pos) (node (pos - 1))
        ∙ ap (λ p. over (node (p - 1)) (node p)) (odd-half pos odd)
        ∙ ap (λ p. over (node p) (node (suc (2 * (pos / 2))))) (omega arith)
  ]

  -- The fold of the lower siblings of a node of the block is the block's own root.
  pub climb-low_path :
      (k : ℕ) (nodes : List Bytes) (pos : ℕ)
      → length nodes ≡ 2 ^ k
      → pos < 2 ^ k
      → climb sha256 leaf_tag branch_tag padding_tag
          (node_at nodes pos)
          (low_path sha256 leaf_tag branch_tag padding_tag k nodes pos)
        ≡ node_at (levels_up sha256 leaf_tag branch_tag padding_tag k nodes) 0
  unfolding climb low_path levels_up
  climb-low_path zero nodes pos e h = ap (node_at nodes) (omega (arith, h))
  climb-low_path (suc k) nodes pos e h =
      ap
        (λ n.
          climb sha256 leaf_tag branch_tag padding_tag n
            (low_path sha256 leaf_tag branch_tag padding_tag k (halved nodes) (pos / 2)))
        (over-sibling (node_at nodes) pos
          ∙ sym (node_at-halved nodes (pos / 2) (omega (arith, e, h, pow-suc 2 k))))
      ∙ climb-low_path k (halved nodes) (pos / 2)
          (length-halved (2 ^ k) nodes (omega (arith, e, pow-suc 2 k)))
          (omega (arith, h, pow-suc 2 k))

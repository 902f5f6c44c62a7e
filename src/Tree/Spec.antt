-- ===== src/Tree/Spec.antt =====
-- What the nodes of the note tree are meant to be: the hashes of a complete binary tree over all leaves,
-- where a leaf that is not there yet is zero.
use clairveil.Prelude.{ℕ, zero, suc, ◌+◌, ◌*◌, ◌/◌, ◌≤◌, ◌≡◌, ◌≢◌, arith}
use mathlib.Core.Path.{ap₂}
use clairveil.Tree.Shape.{populated, ancestor, populated-suc, ancestor-suc}
use clairveil.Tree.Append.{empty_node}

module _ (hash : ℕ → ℕ → ℕ → ℕ) where
  -- The node `i` of a level, over the leaves `leaf`.
  unfoldable pub subtree : (ℕ → ℕ) → ℕ → ℕ → ℕ
  subtree leaf zero i = leaf i
  subtree leaf (suc level) i =
      hash level (subtree leaf level (2 * i)) (subtree leaf level (2 * i + 1))

  -- Behind the populated nodes of a level every node is the empty one.
  pub subtree-empty :
      (leaf : ℕ → ℕ) (count level i : ℕ)
      → ((j : ℕ) → count ≤ j → leaf j ≡ 0)
      → populated count level ≤ i
      → subtree leaf level i ≡ empty_node hash level
  unfolding subtree empty_node populated
  subtree-empty leaf count zero i none_left h = none_left i h
  subtree-empty leaf count (suc level) i none_left h =
      let h' : (populated count level + 1) / 2 ≤ i = rw (← populated-suc count level) h in
      ap₂ (hash level) (subtree-empty leaf count level (2 * i) none_left (omega arith))
        (subtree-empty leaf count level (2 * i + 1) none_left (omega arith))

  -- A new leaf changes the nodes above it and no others.
  pub subtree-update :
      (leaf leaf' : ℕ → ℕ) (n level i : ℕ)
      → ((j : ℕ) → j ≢ n → leaf' j ≡ leaf j)
      → i ≢ ancestor n level
      → subtree leaf' level i ≡ subtree leaf level i
  unfolding subtree ancestor
  subtree-update leaf leaf' n zero i same h = same i h
  subtree-update leaf leaf' n (suc level) i same h =
      let h' : i ≢ ancestor n level / 2 = rw (← ancestor-suc n level) h in
      ap₂ (hash level) (subtree-update leaf leaf' n level (2 * i) same (omega arith))
        (subtree-update leaf leaf' n level (2 * i + 1) same (omega arith))

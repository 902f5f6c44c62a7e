-- ===== src/Tree/Invariant.antt =====
-- tree.go: what holds of a stored tree between two messages.
use clairveil.Prelude.{
  ℕ, zero, suc, ◌+◌, ◌-◌, ◌/◌, ◌^◌, ◌<◌, ◌≤◌, ◌≡◌, refl, arith, Option, some, leb, Bool-cases, inl,
  inr,
}
use native.Mathlib.Nat.{pow-suc}
use clairveil.Prelude.Result.{ok}
use clairveil.Tree.Shape.{merkle_depth, max_leaves, modulus, populated, ancestor, populated-suc}
use clairveil.Tree.Store.{Tree, Context, leaf_count_strict, ensure_can_append, validate_cached_root}
use clairveil.Tree.Append.{
  empty_node, node_or_empty, validate_path, validate_append_path, ensure_incremental_state,
}
use clairveil.Tree.Spec.{subtree, subtree-empty}
use clairveil.Tree.Raise.{subtree_canonical}

pub ancestor-eq-zero : (index level : ℕ) → index < 2 ^ level → ancestor index level ≡ 0
unfolding ancestor
ancestor-eq-zero index zero h = omega arith
ancestor-eq-zero index (suc level) h =
    ancestor-eq-zero (index / 2) level (omega (arith, pow-suc 2 level))

pub populated_pos : (count level : ℕ) → 0 < count → 0 < populated count level
unfolding populated
populated_pos count zero h = h
populated_pos count (suc level) h =
    rw (populated-suc count level) (omega (arith, populated_pos count level h))

-- The store holds the tree over the `count` first leaves: its nodes are the hashes that they should be,
-- and the commitment index is exactly the leaves' inverse.
pub record IsValid (hash : ℕ → ℕ → ℕ → ℕ) (leaf : ℕ → ℕ) (count : ℕ) (t : Tree) : Type 0 where
  pub bounded : count ≤ max_leaves
  pub counted : leaf_count_strict t ≡ ok count
  pub built :
      (level i : ℕ)
      → level ≤ 32
      → i < populated count level
      → t.nodes level i ≡ some (subtree hash leaf level i)
  pub stored : (i : ℕ) → i < count → t.leaves i ≡ some (leaf i)
  pub behind : (j : ℕ) → count ≤ j → leaf j ≡ 0
  pub small : (j : ℕ) → leaf j < modulus
  pub indexed : (i : ℕ) → i < count → t.commitment_index (leaf i) ≡ some (some i)
  pub index_sound :
      (c : ℕ) (o : Option ℕ)
      → t.commitment_index c ≡ some o
      → (i : ℕ) × (o ≡ some i) × (i < count) × (leaf i ≡ c)

module _ (hash : ℕ → ℕ → ℕ → ℕ) (leaf : ℕ → ℕ) (count : ℕ) (t : Tree) where
  -- The cached root is there, unless there are no leaves.
  pub validate_cached_root_lem :
      (ctx : Context) → IsValid hash leaf count t → validate_cached_root ctx count t ≡ ok tt
  unfolding validate_cached_root
  validate_cached_root_lem ctx v =
      ground (arith, v.bounded, v.built 32 0 (omega arith), populated_pos count 32)

  pub ensure_can_append_lem :
      (ctx : Context)
      → IsValid hash leaf count t
      → count < max_leaves
      → ensure_can_append ctx 1 t ≡ ok tt
  unfolding ensure_can_append
  ensure_can_append_lem ctx v room = ground (arith, v.counted, validate_cached_root_lem ctx v)

  -- With the cached root in place nothing is rebuilt.
  pub ensure_incremental_state_lem :
      (ctx : Context) → IsValid hash leaf count t → ensure_incremental_state hash ctx t ≡ (ok tt, t)
  unfolding ensure_incremental_state
  ensure_incremental_state_lem ctx v = ground (
    arith,
    v.counted,
    validate_cached_root_lem ctx v,
    v.built 32 0 (omega arith),
    populated_pos count 32,
  )

  -- Every populated node is read as the hash that it should be.
  pub node_or_empty_lem :
      (level i : ℕ)
      → ((l a b : ℕ) → hash l a b < modulus)
      → IsValid hash leaf count t
      → level ≤ 32
      → node_or_empty hash level i count t ≡ ok (subtree hash leaf level i)
  unfolding node_or_empty
  node_or_empty_lem level i hash_canonical v top =
      elim (Bool-cases (leb (populated count level) i)) [
        | inl beyond ↦
            let e : subtree hash leaf level i ≡ empty_node hash level =
              subtree-empty hash leaf count level i v.behind (ground arith) in
            rw (beyond, e) refl
        | inr within ↦
            let stored = v.built level i top (ground arith) in
            let fits = subtree_canonical hash hash_canonical leaf level i v.small in
            rw within (ground (arith, stored, fits))
      ]

  validate_path_lem :
      (rounds level current : ℕ)
      → ((l a b : ℕ) → hash l a b < modulus)
      → IsValid hash leaf count t
      → level + rounds ≡ 32
      → validate_path hash rounds level current count t ≡ ok tt
  unfolding validate_path
  validate_path_lem zero level current hash_canonical v e = refl
  validate_path_lem (suc rounds) level current hash_canonical v e = ground (
    arith,
    node_or_empty_lem level (current - 1) hash_canonical v (omega arith),
    validate_path_lem rounds (level + 1) (current / 2) hash_canonical v (omega arith),
  )

  pub validate_append_path_lem :
      ((l a b : ℕ) → hash l a b < modulus)
      → IsValid hash leaf count t
      → validate_append_path hash count t ≡ ok tt
  unfolding validate_append_path
  validate_append_path_lem hash_canonical v =
      validate_path_lem merkle_depth 0 count hash_canonical v (omega arith)

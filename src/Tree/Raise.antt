-- ===== src/Tree/Raise.antt =====
-- tree.go: the loop over the levels writes, above the leaf that it starts from, the nodes of the tree
-- with that leaf.
use clairveil.Prelude.{
  ℕ, zero, suc, ◌+◌, ◌-◌, ◌*◌, ◌/◌, ◌%◌, ◌<◌, ◌≤◌, ◌≡◌, ◌≢◌, refl, ap, sym, subst, ◌∙◌, arith, some,
  ◌==◌, ==_iff, Bool-cases, inl, inr,
}
use mathlib.Core.Path.{ap₂}
use native.Mathlib.Numerals.{add-one}
use clairveil.Prelude.Result.{ok}
use clairveil.Tree.Shape.{modulus, populated, ancestor, ancestor-suc, ancestor_edge}
use clairveil.Tree.Store.{Tree, canonical, set_node}
use clairveil.Tree.Append.{empty_node, node_or_empty, parent_node, raise_path}
use clairveil.Tree.Spec.{subtree, subtree-empty, subtree-update}

-- Two stores that differ in their nodes alone.
pub record SameButNodes (t t' : Tree) : Type 0 where
  pub leaf_count : t'.leaf_count ≡ t.leaf_count
  pub leaves : t'.leaves ≡ t.leaves
  pub commitment_index : t'.commitment_index ≡ t.commitment_index
  pub historical_roots : t'.historical_roots ≡ t.historical_roots
  pub snapshots : t'.snapshots ≡ t.snapshots

module _ (hash : ℕ → ℕ → ℕ → ℕ) (hash_canonical : (l a b : ℕ) → hash l a b < modulus) where
  pub subtree_canonical :
      (leaf : ℕ → ℕ) (level i : ℕ)
      → ((j : ℕ) → leaf j < modulus)
      → subtree hash leaf level i < modulus
  unfolding subtree
  subtree_canonical leaf zero i h = h i
  subtree_canonical leaf (suc level) i h = hash_canonical level _ _

  -- The tree before and after a leaf `n` is added, and the store before.
  pub record Growth (leaf leaf' : ℕ → ℕ) (n : ℕ) (t : Tree) : Type 0 where
    pub built :
        (level i : ℕ)
        → level ≤ 32
        → i < populated n level
        → t.nodes level i ≡ some (subtree hash leaf level i)
    pub same : (j : ℕ) → j ≢ n → leaf' j ≡ leaf j
    pub behind : (j : ℕ) → n + 1 ≤ j → leaf' j ≡ 0
    pub small : (j : ℕ) → leaf' j < modulus

  -- The store `t'` once the path is written up to a level: other nodes are as in `t`.
  pub record Raised (leaf' : ℕ → ℕ) (n level : ℕ) (t t' : Tree) : Type 0 where
    pub on_path :
        (l : ℕ) → l ≤ level → t'.nodes l (ancestor n l) ≡ some (subtree hash leaf' l (ancestor n l))
    pub off_path : (l i : ℕ) → i ≢ ancestor n l → t'.nodes l i ≡ t.nodes l i

  raise_step :
      (rounds level index current leaf_count parent : ℕ) (t : Tree)
      → parent_node hash level index current leaf_count t ≡ ok parent
      → raise_path hash (suc rounds) level index current leaf_count t
        ≡ raise_path hash rounds
            (level + 1)
            (index / 2)
            parent
            leaf_count
            (set_node (level + 1) (index / 2) parent t)
  unfolding raise_path
  raise_step rounds level index current leaf_count parent t e = rw (e, raise_path)

  module _ (leaf leaf' : ℕ → ℕ) (n : ℕ) (t : Tree) (g : Growth leaf leaf' n t) where
    -- The left sibling of the path is stored, and read.
    left_sibling :
        (level : ℕ) (t' : Tree)
        → level ≤ 32
        → Raised leaf' n level t t'
        → 0 < ancestor n level
        → node_or_empty hash level (ancestor n level - 1) n t'
          ≡ ok (subtree hash leaf' level (ancestor n level - 1))
    unfolding node_or_empty canonical
    left_sibling level t' top r p =
        let edge = ancestor_edge n level in
        let stored = g.built level (ancestor n level - 1) top (omega arith) in
        let kept = r.off_path level (ancestor n level - 1) (omega arith) in
        let updated =
          subtree-update hash leaf leaf' n level (ancestor n level - 1) g.same (omega arith) in
        let fits = subtree_canonical leaf' level (ancestor n level - 1) g.small in
        ground (arith, edge, stored, kept, updated, fits)

    parent_node_lem :
        (level : ℕ) (t' : Tree)
        → level ≤ 32
        → Raised leaf' n level t t'
        → parent_node hash level
            (ancestor n level)
            (subtree hash leaf' level (ancestor n level))
            n
            t'
          ≡ ok (subtree hash leaf' (suc level) (ancestor n level / 2))
    unfolding parent_node subtree
    parent_node_lem level t' top r = elim (Bool-cases (ancestor n level % 2 == 0)) [
      | inl even ↦
          let e : 2 * (ancestor n level / 2) ≡ ancestor n level = ground arith in
          let edge = ancestor_edge n level in
          let behind : subtree hash leaf' level (ancestor n level + 1) ≡ empty_node hash level =
            subtree-empty hash leaf' (n + 1) level (ancestor n level + 1) g.behind (omega arith) in
          rw (even, e, behind) refl
      | inr odd ↦
          let e : 2 * (ancestor n level / 2) ≡ ancestor n level - 1 = ground arith in
          let f : ancestor n level - 1 + 1 ≡ ancestor n level = ground arith in
          rw (odd, left_sibling level t' top r (ground arith), e, f) refl
    ]

    set_on_path :
        (level : ℕ) (t' : Tree)
        → Raised leaf' n level t t'
        → (l : ℕ) → l ≤ level + 1
        → (set_node
              (level + 1)
              (ancestor n level / 2)
              (subtree hash leaf' (suc level) (ancestor n level / 2))
              t').nodes
            l
            (ancestor n l)
          ≡ some (subtree hash leaf' l (ancestor n l))
    set_on_path level t' r l h = elim (Bool-cases (l == level + 1)) [
      | inl last ↦
          let e : l ≡ suc level = ground arith in
          let a : ancestor n l ≡ ancestor n level / 2 = ap (ancestor n) e ∙ ancestor-suc n level in
          rw (last, (==_iff (ancestor n l) (ancestor n level / 2)).1 a)
            (ap₂ (λ x y. some (subtree hash leaf' x y)) (sym e) (sym a))
      | inr below ↦ rw below (r.on_path l (ground arith))
    ]

    set_node-Raised :
        (level : ℕ) (t' : Tree)
        → Raised leaf' n level t t'
        → Raised leaf' n (level + 1) t (
            set_node
              (level + 1)
              (ancestor n level / 2)
              (subtree hash leaf' (suc level) (ancestor n level / 2))
              t')
    set_node-Raised level t' r = record {
      on_path = λ l h. set_on_path level t' r l h;
      off_path = λ l i h.
          let n_on : (l ≡ level + 1) → i ≢ ancestor n level / 2 = λ e.
            subst (λ (m : ℕ). i ≢ m) (ancestor-suc n level)
              (subst (λ (m : ℕ). i ≢ ancestor n m) (e ∙ add-one level) h) in
          ground (arith, n_on, r.off_path l i h);
    }

    -- The loop ends in the root of the tree with the new leaf, and changes nothing but nodes.
    pub raise_path_lem :
        (rounds level index current : ℕ) (t' : Tree)
        → level + rounds ≡ 32
        → index ≡ ancestor n level
        → current ≡ subtree hash leaf' level index
        → Raised leaf' n level t t'
        → let (root, t'') = raise_path hash rounds level index current n t' in
          (root ≡ ok (subtree hash leaf' 32 (ancestor n 32)))
          × Raised leaf' n 32 t t''
          × SameButNodes t' t''
    unfolding raise_path
    raise_path_lem zero level index current t' e ei ec r =
        let top : level ≡ 32 = omega arith in
        (
          ap ok (ec ∙ ap₂ (subtree hash leaf') top (ei ∙ ap (ancestor n) top)),
          subst (λ (l : ℕ). Raised leaf' n l t t') top r,
          record {
            leaf_count = refl;
            leaves = refl;
            commitment_index = refl;
            historical_roots = refl;
            snapshots = refl;
          },
        )
    raise_path_lem (suc rounds) level index current t' e ei ec r =
        let parent = subtree hash leaf' (suc level) (index / 2) in
        let written : parent_node hash level index current n t' ≡ ok parent =
          rw (ec, ei) (parent_node_lem level t' (omega arith) r) in
        let r' : Raised leaf' n (level + 1) t (set_node (level + 1) (index / 2) parent t') =
          rw ei (set_node-Raised level t' r) in
        let (root, path, frame) =
          raise_path_lem rounds (level + 1) (index / 2) parent
            (set_node (level + 1) (index / 2) parent t') (omega arith)
            (rw (add-one level, ancestor-suc n level, ei) refl) (rw (add-one level) refl) r' in
        rw (raise_step rounds level index current n parent t' written) (
          root,
          path,
          record {
            leaf_count = frame.leaf_count;
            leaves = frame.leaves;
            commitment_index = frame.commitment_index;
            historical_roots = frame.historical_roots;
            snapshots = frame.snapshots;
          },
        )

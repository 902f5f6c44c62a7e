-- ===== src/Tree/Grow.antt =====
-- tree.go: appending a commitment to a stored tree grows the tree by that leaf.
use clairveil.Prelude.{
  ℕ, ◌+◌, ◌<◌, ◌≤◌, ◌≡◌, ◌≢◌, refl, ap, sym, subst, ◌∙◌, arith, true, Option, none, some, List,
  ◌==◌, if◌then◌else◌, Bool-cases, inl, inr, ==_iff,
}
use clairveil.Prelude.Result.{ok}
use clairveil.Tree.Shape.{max_leaves, modulus, strict_field, populated, ancestor, ancestor_edge}
use clairveil.Tree.Store.{
  Tree, Context, leaf_count_strict, ensure_can_append, set_leaf_count, set_historical_root,
  find_commitment, check_historical_root, RootSnapshot,
}
use clairveil.Tree.Append.{
  raise_path, validate_append_path, ensure_incremental_state, accept_commitment, write_leaf,
  put_snapshot, set_root_snapshot, append_commitment,
}
use clairveil.Tree.Spec.{subtree, subtree-update}
use clairveil.Tree.Raise.{Growth, Raised, SameButNodes, raise_path_lem}
use clairveil.Tree.Invariant.{
  IsValid, ancestor-eq-zero, ensure_can_append_lem, ensure_incremental_state_lem,
  validate_append_path_lem,
}

-- The leaves with one more.
abbrev pub add_leaf : ℕ → ℕ → (ℕ → ℕ) → ℕ → ℕ
add_leaf count commitment leaf j = if j == count then commitment else leaf j

accept_commitment_lem :
    (bz : List ℕ) (c : ℕ) (t : Tree)
    → strict_field bz ≡ some c
    → c ≢ 0
    → t.commitment_index c ≡ none
    → accept_commitment bz t ≡ ok c
unfolding accept_commitment find_commitment
accept_commitment_lem bz c t e n fresh = ground arith

strict_field_small : (bz : List ℕ) (c : ℕ) → strict_field bz ≡ some c → c < modulus
unfolding strict_field
strict_field_small bz c h = ground arith

module _ (hash : ℕ → ℕ → ℕ → ℕ) (hash_canonical : (l a b : ℕ) → hash l a b < modulus) (leaf : ℕ → ℕ)
    (count c : ℕ) (t : Tree) (v : IsValid hash leaf count t) (room : count < max_leaves)
    (small : c < modulus) where
  abbrev leaf' : ℕ → ℕ
  leaf' = add_leaf count c leaf

  abbrev pub new_root : ℕ
  new_root = subtree hash leaf' 32 0

  growth : Growth hash hash_canonical leaf leaf' count t
  growth = record {
    built = v.built;
    same = λ j n. ground arith;
    behind = λ j h. ground (arith, v.behind j);
    small = λ j. ground (arith, v.small j);
  }

  written : Tree
  written = write_leaf c count t

  written-Raised : Raised hash hash_canonical leaf' count 0 t written
  unfolding written write_leaf ancestor subtree
  written-Raised = record {
    on_path = λ l h. ground (arith, ==_iff l 0);
    off_path = λ l i h. ground arith;
  }

  raised :
      let (root, t') = raise_path hash 32 0 count c count written in
      (root ≡ ok new_root)
      × Raised hash hash_canonical leaf' count 32 t t'
      × SameButNodes written t'
  raised =
      let (root, path, frame) =
        raise_path_lem hash hash_canonical leaf leaf' count t growth 32 0 count c written
          (omega arith) (unfold ancestor in refl) (unfold subtree in ground arith) written-Raised in
      (rw (ancestor-eq-zero count 32 room) at root, path, frame)

  -- A leaf that is stored is not the new one.
  leaf_not_new : t.commitment_index c ≡ none → (i : ℕ) → i < count → leaf i ≢ c
  leaf_not_new fresh i h e =
      let found : t.commitment_index c ≡ some (some i) =
        subst (λ (x : ℕ). t.commitment_index x ≡ some (some i)) e (v.indexed i h) in
      ground (arith, found, fresh)

  index_written :
      (d : ℕ) (o : Option ℕ)
      → written.commitment_index d ≡ some o
      → (i : ℕ) × (o ≡ some i) × (i < count + 1) × (leaf' i ≡ d)
  unfolding written write_leaf
  index_written d o h = elim (Bool-cases (d == c)) [
    | inl new ↦ (count, ground (arith, h), omega arith, ground (arith, ==_iff d c))
    | inr old ↦
        let (i, e, below, at) = v.index_sound d o (ground (arith, h)) in
        (i, e, omega arith, ground arith)
  ]

  -- The store after the loop, and after the last writes.
  raised_tree : Tree
  raised_tree = (raise_path hash 32 0 count c count written).1

  module _ (ctx : Context) where
    abbrev snapshot : RootSnapshot
    snapshot = record { leaf_count = count + 1; height = ctx.block_height }

    final_tree : Tree
    unfolding put_snapshot
    final_tree =
        put_snapshot new_root snapshot
          (set_leaf_count (count + 1) (set_historical_root new_root ctx.block_height raised_tree))

    before_snapshot : Tree
    before_snapshot =
        set_leaf_count (count + 1) (set_historical_root new_root ctx.block_height raised_tree)

    snapshot_fresh : t.snapshots new_root ≡ none → raised_tree.snapshots new_root ≡ none
    unfolding raised_tree written write_leaf
    snapshot_fresh fresh =
        ap (λ (f : ℕ → Option RootSnapshot). f new_root) (raised.2.snapshots) ∙ fresh

    snapshot_stored :
        t.snapshots new_root ≡ none
        → set_root_snapshot new_root snapshot before_snapshot ≡ (ok tt, final_tree)
    unfolding set_root_snapshot leaf_count_strict check_historical_root final_tree before_snapshot
    snapshot_stored fresh = ground (arith, snapshot_fresh fresh)

    final-built :
        (level i : ℕ)
        → level ≤ 32
        → i < populated (count + 1) level
        → final_tree.nodes level i ≡ some (subtree hash leaf' level i)
    unfolding final_tree raised_tree
    final-built level i top h =
        let path = raised.1 in
        let edge = ancestor_edge count level in
        elim (Bool-cases (i == ancestor count level)) [
          | inl on ↦
              let e : i ≡ ancestor count level = ground arith in rw e (path.on_path level top)
          | inr off ↦
              let n : i ≢ ancestor count level = ground arith in
              path.off_path level i n
              ∙ v.built level i top (omega arith)
              ∙ ap some (sym (subtree-update hash leaf leaf' count level i growth.same n))
        ]

    appended :
        (bz : List ℕ)
        → strict_field bz ≡ some c
        → c ≢ 0
        → t.commitment_index c ≡ none
        → t.snapshots new_root ≡ none
        → append_commitment hash ctx bz t ≡ (ok tt, final_tree)
    unfolding append_commitment before_snapshot raised_tree written write_leaf
    appended bz e n fresh new =
        rw accepted (rw room_left (rw ready (rw v.counted (rw path_read (rw root stored)))))
      where
        accepted : accept_commitment bz t ≡ ok c
        accepted = accept_commitment_lem bz c t e n fresh

        room_left : ensure_can_append ctx 1 t ≡ ok tt
        room_left = ensure_can_append_lem hash leaf count t ctx v room

        ready : ensure_incremental_state hash ctx t ≡ (ok tt, t)
        ready = ensure_incremental_state_lem hash leaf count t ctx v

        path_read : validate_append_path hash count t ≡ ok tt
        path_read = validate_append_path_lem hash leaf count t hash_canonical v

        root : (raise_path hash 32 0 count c count written).0 ≡ ok new_root
        root = raised.0

        stored : set_root_snapshot new_root snapshot before_snapshot ≡ (ok tt, final_tree)
        stored = snapshot_stored new

    final-indexed :
        t.commitment_index c ≡ none
        → (i : ℕ) → i < count + 1
        → final_tree.commitment_index (leaf' i) ≡ some (some i)
    unfolding final_tree raised_tree
    final-indexed fresh i h =
        ap (λ (f : ℕ → Option (Option ℕ)). f (leaf' i)) raised.2.commitment_index
        ∙ (unfold written write_leaf in ground (arith, v.indexed i, fresh, leaf_not_new fresh i))

    final-index_sound :
        (d : ℕ) (o : Option ℕ)
        → final_tree.commitment_index d ≡ some o
        → (i : ℕ) × (o ≡ some i) × (i < count + 1) × (leaf' i ≡ d)
    unfolding final_tree raised_tree
    final-index_sound d o h =
        index_written d o
          (sym (ap (λ (f : ℕ → Option (Option ℕ)). f d) raised.2.commitment_index) ∙ h)

    final-IsValid : t.commitment_index c ≡ none → IsValid hash leaf' (count + 1) final_tree
    unfolding final_tree raised_tree leaf_count_strict
    final-IsValid fresh = record {
      bounded = omega arith;
      counted = ground arith;
      built = final-built;
      stored = λ i h.
          ap (λ (f : ℕ → Option ℕ). f i) raised.2.leaves
          ∙ (unfold written write_leaf in ground (arith, v.stored i));
      behind = growth.behind;
      small = growth.small;
      indexed = final-indexed fresh;
      index_sound = final-index_sound;
    }

  -- In a store that stands for a tree of `count` leaves, fewer than 2^32, and where the hash gives canonical
  -- values, appending the canonical bytes of a commitment that is not zero and not indexed succeeds, if there
  -- is no snapshot of the new root. It leaves a store that stands for the tree with that leaf behind the
  -- others, the new root is from then on a historical root, and its snapshot has the new number of leaves and
  -- the height of the block.
  pub append_commitment_grows :
      (ctx : Context) (bz : List ℕ)
      → strict_field bz ≡ some c
      → c ≢ 0
      → t.commitment_index c ≡ none
      → t.snapshots new_root ≡ none
      → let (result, t') = append_commitment hash ctx bz t in
        (result ≡ ok tt)
        × IsValid hash leaf' (count + 1) t'
        × (check_historical_root new_root t' ≡ true)
        × (t'.snapshots new_root
            ≡ some (record { leaf_count = count + 1; height = ctx.block_height }))
  append_commitment_grows ctx bz e n fresh new = rw (appended ctx bz e n fresh new) (
    refl,
    final-IsValid ctx fresh,
    unfold final_tree check_historical_root in ground arith,
    unfold final_tree in ground arith,
  )

-- ===== src/Tree/Append.antt =====
-- tree.go: appending a commitment. `hash level left right` stands for `hashNodes`, the note tree's MiMC
-- hash, which gnark-crypto implements.
use clairveil.Prelude.{
  ℕ, zero, suc, ◌+◌, ◌-◌, ◌/◌, ◌%◌, true, false, not, ◌&&◌, none, some, List, ◌==◌, leb,
  if◌then◌else◌,
}
use clairveil.Prelude.Result.{Result, ok, err}
use clairveil.Prelude.Exec.{pure, raise, gets, reads, modify, check, ◌>>=◌, ◌>>◌}
use clairveil.Tree.Shape.{merkle_depth, populated, strict_field}
use clairveil.Tree.Store.{
  Error, RootSnapshot, Tree, Context, Method, update, leaf_count_strict, validate_cached_root,
  ensure_can_append, canonical, leaf_required, find_commitment, set_node, set_leaf,
  set_commitment_index, set_leaf_count, set_historical_root, check_historical_root,
}

unfoldable pub put_snapshot : ℕ → RootSnapshot → Tree → Tree
put_snapshot root snapshot t =
    set_historical_root root snapshot.height
      (record t { snapshots = update root (some snapshot) t.snapshots })

-- `setMerkleRootSnapshot` of path_snapshot.go, on a canonical root and a height of a context.
unfoldable pub set_root_snapshot : ℕ → RootSnapshot → Method Unit
set_root_snapshot root snapshot = do
  count ← reads leaf_count_strict
  check (not (snapshot.leaf_count == 0) && leb snapshot.leaf_count count) Error.snapshot_invalid
  historical ← gets (check_historical_root root)
  check historical Error.snapshot_invalid
  existing ← gets (λ t. t.snapshots root)
  elim existing [
    | none ↦ modify (put_snapshot root snapshot)
    | some current ↦ do
      check ((current.leaf_count == snapshot.leaf_count) && (current.height == snapshot.height))
          Error.snapshot_inconsistent
      modify (set_historical_root root snapshot.height)
  ]

-- The checks of `appendCommitment` on the commitment itself.
unfoldable pub accept_commitment : List ℕ → Tree → Result Error ℕ
accept_commitment bz t = elim (strict_field bz) [
  | none ↦ err Error.not_canonical
  | some commitment ↦
      if commitment == 0 then err Error.zero_commitment else elim (find_commitment commitment t) [
        | ok none ↦ ok commitment
        | ok (some index) ↦ err Error.duplicate_commitment
        | err e ↦ err e
      ]
]

-- The writes of `appendCommitment` below the root.
unfoldable pub write_leaf : ℕ → ℕ → Tree → Tree
write_leaf commitment index t =
    set_node 0 index commitment
      (set_commitment_index commitment index (set_leaf index commitment t))

module _ (hash : ℕ → ℕ → ℕ → ℕ) where
  -- `emptyNodeBytes`, the level's entry of `EmptyNoteTreeRootsV1`.
  unfoldable pub empty_node : ℕ → ℕ
  empty_node zero = 0
  empty_node (suc level) = hash level (empty_node level) (empty_node level)

  -- `getMerkleNodeOrEmpty`.
  unfoldable pub node_or_empty : ℕ → ℕ → ℕ → Tree → Result Error ℕ
  unfolding canonical
  node_or_empty level index leaf_count t =
      if leb (populated leaf_count level) index
      then ok (empty_node level)
      else canonical (t.nodes level index) Error.node_missing

  -- The loop of `validateAppendPath`, from a level up, with the rounds that are left.
  unfoldable pub validate_path : ℕ → ℕ → ℕ → ℕ → Tree → Result Error Unit
  validate_path zero level current index t = ok tt
  validate_path (suc rounds) level current index t = elim (current % 2 == 1) [
    | true ↦ elim (node_or_empty level (current - 1) index t) [
      | ok left ↦ validate_path rounds (level + 1) (current / 2) index t
      | err e ↦ err e
    ]
    | false ↦ validate_path rounds (level + 1) (current / 2) index t
  ]

  -- `validateAppendPath`.
  unfoldable pub validate_append_path : ℕ → Tree → Result Error Unit
  unfolding validate_path
  validate_append_path index t = validate_path merkle_depth 0 index index t

  -- The parent that a round of the loop writes above `current` at `index`.
  unfoldable pub parent_node : ℕ → ℕ → ℕ → ℕ → Tree → Result Error ℕ
  parent_node level index current leaf_count t =
      if index % 2 == 0
      then ok (hash level current (empty_node level))
      else elim (node_or_empty level (index - 1) leaf_count t) [
        | ok left ↦ ok (hash level left current)
        | err e ↦ err e
      ]

  -- The loop over the levels that `appendCommitment` and `ensureIncrementalTreeState` share; it
  -- returns the root.
  unfoldable pub raise_path : ℕ → ℕ → ℕ → ℕ → ℕ → Method ℕ
  raise_path zero level index current leaf_count t = (ok current, t)
  raise_path (suc rounds) level index current leaf_count t =
      elim (parent_node level index current leaf_count t) [
        | ok parent ↦
            raise_path rounds (level + 1) (index / 2) parent leaf_count
              (set_node (level + 1) (index / 2) parent t)
        | err e ↦ (err e, t)
      ]

  -- One round of the rebuilding loop of `ensureIncrementalTreeState`.
  unfoldable pub rebuild_leaf : ℕ → ℕ → Method ℕ
  rebuild_leaf index count = do
    leaf ← reads (leaf_required index count)
    modify (set_commitment_index leaf index)
    modify (set_node 0 index leaf)
    raise_path merkle_depth 0 index leaf count

  -- The loop itself, from a leaf on, with the leaves that are left.
  unfoldable pub rebuild : ℕ → ℕ → ℕ → Method Unit
  rebuild zero index count = pure tt
  rebuild (suc left) index count = rebuild_leaf index count >>= λ _. rebuild left (index + 1) count

  -- `ensureIncrementalTreeState`.
  unfoldable pub ensure_incremental_state : Context → Method Unit
  ensure_incremental_state ctx = do
    count ← reads leaf_count_strict
    reads (validate_cached_root ctx count)
    root ← gets (λ t. t.nodes merkle_depth 0)
    if count == 0
        then pure tt
        else elim root [ some present ↦ pure tt | none ↦ rebuild count 0 count ]

  -- `appendCommitment`.
  unfoldable pub append_commitment : Context → List ℕ → Method Unit
  unfolding accept_commitment write_leaf
  append_commitment ctx bz = do
    commitment ← reads (accept_commitment bz)
    reads (ensure_can_append ctx 1)
    ensure_incremental_state ctx
    index ← reads leaf_count_strict
    reads (validate_append_path index)
    modify (write_leaf commitment index)
    root ← raise_path merkle_depth 0 index commitment index
    modify (set_historical_root root ctx.block_height)
    modify (set_leaf_count (index + 1))
    set_root_snapshot root (record { leaf_count = index + 1; height = ctx.block_height })

  -- `AppendCommitment`.
  unfoldable pub append_raw : Context → List ℕ → Method Unit
  unfolding append_commitment
  append_raw ctx bz =
      if ctx.audited then raise Error.raw_mutation_disabled else append_commitment ctx bz

-- ===== src/Keeper/Events.antt =====
-- event_index.go, and the root snapshot that it confirms.
use clairveil.Prelude.{ℕ, not, Option, none, some, ◌==◌, ltb, if◌then◌else◌}
use clairveil.Prelude.Result.{Result, ok, err}
use clairveil.Prelude.Exec.{reads, modify, check, ◌>>=◌, ◌>>◌}
use clairveil.Tree.Shape.{merkle_depth, modulus}
use clairveil.Tree.Store.{Error, RootSnapshot, Tree, Context, Method}
use clairveil.Tree.Append.{set_root_snapshot}
use clairveil.Tree.Path.{get_leaf_count, recalculate_root}
use clairveil.Keeper.State.{KeeperError, External, Event, MsgContext, Handler, tree_result}

-- `SetMerkleRootSnapshotV1`.
unfoldable pub set_raw_snapshot : Context → ℕ → RootSnapshot → Method Unit
set_raw_snapshot ctx root snapshot = do
  check (not ctx.audited) Error.raw_mutation_disabled
  check (ltb root modulus) Error.not_canonical
  set_root_snapshot root snapshot

module _ (hash : ℕ → ℕ → ℕ → ℕ) where
  -- The root that `RecordCurrentMerkleRootSnapshotV1` confirms.
  unfoldable pub current_root : ℕ → Tree → Result Error ℕ
  current_root count t = elim (t.nodes merkle_depth 0) [
    | some node ↦ ok node
    | none ↦ recalculate_root hash count t
  ]

  -- `RecordCurrentMerkleRootSnapshotV1`.
  unfoldable pub record_current_snapshot : Context → Method Unit
  unfolding current_root set_raw_snapshot
  record_current_snapshot ctx t =
      let count = get_leaf_count t in
      if count == 0
      then (ok tt, t)
      else (do
        root ← reads (current_root count)
        set_raw_snapshot ctx root (record { leaf_count = count; height = ctx.block_height }))
          t

  module _ {B X : Type 0} (ext : External B X) where
    -- A method of the tree, on the store that holds it.
    unfoldable pub on_tree : {A : Type 0} → Method A → Handler B X A
    on_tree m k = let (result, t) = m k.tree in (tree_result result, record k { tree = t })

    unfoldable pub index_update : Option X → Handler B X Unit
    index_update (some x) k = (ok tt, record k { index = x })
    index_update none k = (err KeeperError.index_failed, k)

    -- The first part of `indexPrivacyEvent`.
    unfoldable pub index_scan : Event → Handler B X Unit
    unfolding index_update
    index_scan event k = index_update (ext.index_event event k.index) k

    -- `emitIndexedPrivacyEvent`.
    unfoldable pub emit_indexed_event : MsgContext → Event → Handler B X Unit
    unfolding on_tree index_scan record_current_snapshot
    emit_indexed_event ctx event = do
      index_scan event
      on_tree (record_current_snapshot ctx.tree_context)
      modify (λ k. record k { index = ext.store_event event k.index })

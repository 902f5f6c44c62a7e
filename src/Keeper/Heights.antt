-- ===== src/Keeper/Heights.antt =====
-- msg_server.go and path_snapshot.go: a withdrawal confirms the current root for the height of its own
-- block.
use clairveil.Prelude.{ℕ, ◌<◌, ◌≡◌, ◌≢◌, refl, subst, ◌∙◌, Option, none, some, List, arith}
use clairveil.Prelude.Result.{Result, ok, err, is_error}
use clairveil.Prelude.Exec.{
  Leaves, Fails, >>=-Fails, >>=-first-Fails, continue-Leaves, continue-Fails,
}
use clairveil.Tree.Store.{Error, RootSnapshot, Tree, Context}
use clairveil.Tree.Append.{set_root_snapshot}
use clairveil.Tree.Spec.{subtree}
use clairveil.Tree.Invariant.{IsValid, populated_pos}
use clairveil.Tree.Paths.{get_leaf_count_lem}
use clairveil.Keeper.State.{
  Coin, MsgWithdraw, Event, KeeperError, External, MsgContext, Store, tree_result,
}
use clairveil.Keeper.Checks.{set_nullifier}
use clairveil.Keeper.Reserve.{record_reserve_withdraw}
use clairveil.Keeper.Events.{
  on_tree, index_update, index_scan, current_root, set_raw_snapshot, record_current_snapshot,
  emit_indexed_event,
}
use clairveil.Keeper.Withdraw.{check_withdraw}
use clairveil.Keeper.Handlers.{bank_update, pay_out, apply_withdraw, withdraw}

tree_result-eq-ok : (r : Result Error Unit) → tree_result r ≡ ok tt → r ≡ ok tt
tree_result-eq-ok (ok _) h = refl
tree_result-eq-ok (err e) h = absurd (cc)

-- A root is registered for one height only.
set_root_snapshot_stale :
    (root : ℕ) (snapshot old : RootSnapshot) (t : Tree)
    → t.snapshots root ≡ some old
    → old.height ≢ snapshot.height
    → (set_root_snapshot root snapshot t).0 ≢ ok tt
unfolding set_root_snapshot
set_root_snapshot_stale root snapshot old t at stale h = ground (arith, at, stale, h)

module _ (hash : ℕ → ℕ → ℕ → ℕ) (leaf : ℕ → ℕ) (count : ℕ) (t : Tree)
    (v : IsValid hash leaf count t) (some_leaf : 0 < count) where
  record_current_stale :
      (ctx : Context) (old : RootSnapshot)
      → t.snapshots (subtree hash leaf 32 0) ≡ some old
      → old.height ≢ ctx.block_height
      → (record_current_snapshot hash ctx t).0 ≢ ok tt
  unfolding record_current_snapshot current_root set_raw_snapshot
  record_current_stale ctx old at stale h = ground (
    arith,
    get_leaf_count_lem hash leaf count t v,
    v.built 32 0 (omega arith) (populated_pos count 32 some_leaf),
    set_root_snapshot_stale (subtree hash leaf 32 0)
        (record { leaf_count = count; height = ctx.block_height }) old t at stale,
  )

module _ {B X : Type 0} (ext : External B X) where
  bank_update-tree : (o : Option B) → Leaves (λ k. k.tree) (bank_update ext o)
  unfolding bank_update
  bank_update-tree (some b) k = refl
  bank_update-tree none k = refl

  pay_out-tree : (a : List ℕ) (c : Coin) → Leaves (λ k. k.tree) (pay_out ext a c)
  unfolding pay_out
  pay_out-tree a c k = bank_update-tree (ext.send_to_account a c k.bank) k

  record_withdraw-tree :
      (ctx : MsgContext) (c : Coin) → Leaves (λ k. k.tree) (record_reserve_withdraw ext ctx c)
  unfolding record_reserve_withdraw
  record_withdraw-tree ctx c k = continue-Leaves (λ k. k.tree) _ _ (λ n k. refl) k

  set_nullifier-tree :
      (ctx : MsgContext) (n : ℕ) (k : Store B X) → (set_nullifier ext ctx n k).tree ≡ k.tree
  unfolding set_nullifier
  set_nullifier-tree ctx n k = ground arith

  module _ (hash : ℕ → ℕ → ℕ → ℕ) (ctx : MsgContext) (t : Tree) where
    index_update-tree : (o : Option X) → Leaves (λ k. k.tree) (index_update hash ext o)
    unfolding index_update
    index_update-tree (some x) k = refl
    index_update-tree none k = refl

    index_scan-tree : (e : Event) → Leaves (λ k. k.tree) (index_scan hash ext e)
    unfolding index_scan
    index_scan-tree e k = index_update-tree (ext.index_event e k.index) k

    on_tree-Fails :
        (record_current_snapshot hash ctx.tree_context t).0 ≢ ok tt
        → Fails (λ k. k.tree) t (on_tree hash ext (record_current_snapshot hash ctx.tree_context))
    unfolding on_tree
    on_tree-Fails stale k same _ h = stale (
        subst (λ x. (record_current_snapshot hash ctx.tree_context x).0 ≡ ok tt) same
          (tree_result-eq-ok _ h))

    emit-Fails :
        (record_current_snapshot hash ctx.tree_context t).0 ≢ ok tt
        → (e : Event) → Fails (λ k. k.tree) t (emit_indexed_event hash ext ctx e)
    unfolding emit_indexed_event
    emit-Fails stale e =
        >>=-Fails (λ k. k.tree) t (index_scan hash ext e) _ (index_scan-tree e)
          λ _.
            >>=-first-Fails (λ k. k.tree) t
              (on_tree hash ext (record_current_snapshot hash ctx.tree_context)) _
              (on_tree-Fails stale)

    withdraw-Fails :
        (record_current_snapshot hash ctx.tree_context t).0 ≢ ok tt
        → (msg : MsgWithdraw) → Fails (λ k. k.tree) t (withdraw ext hash ctx msg)
    unfolding withdraw apply_withdraw
    withdraw-Fails stale msg k same =
        continue-Fails (λ k. k.tree) t (check_withdraw ext ctx msg k) _ k same
          λ w k same.
            >>=-Fails (λ k. k.tree) t (pay_out ext w.recipient w.coin) _
              (pay_out-tree w.recipient w.coin)
              (λ _.
                >>=-Fails (λ k. k.tree) t (record_reserve_withdraw ext ctx w.coin) _
                  (record_withdraw-tree ctx w.coin)
                  (λ _. emit-Fails stale (Event.withdrawn w.nullifier msg.creator msg.recipient)))
              (set_nullifier ext ctx w.nullifier k) (set_nullifier-tree ctx w.nullifier k ∙ same)

  -- In a store whose tree has leaves, and whose current root has a snapshot, each withdrawal fails in a block
  -- of another height than that of the snapshot.
  pub withdraw_later_fails :
      (hash : ℕ → ℕ → ℕ → ℕ) (leaf : ℕ → ℕ) (count : ℕ) (k : Store B X) (old : RootSnapshot)
      (ctx : MsgContext) (msg : MsgWithdraw)
      → IsValid hash leaf count k.tree
      → 0 < count
      → k.tree.snapshots (subtree hash leaf 32 0) ≡ some old
      → old.height ≢ ctx.tree_context.block_height
      → (e : KeeperError) × ((withdraw ext hash ctx msg k).0 ≡ err e)
  withdraw_later_fails hash leaf count k old ctx msg v pos at stale =
      is_error (withdraw ext hash ctx msg k).0 (
        withdraw-Fails hash ctx k.tree
          (record_current_stale hash leaf count k.tree v pos ctx.tree_context old at stale) msg k
          refl)

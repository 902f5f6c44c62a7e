-- ===== src/Keeper/Parts.antt =====
-- x/privacy/keeper: what the calls that write the tree and the index leave of the store.
use clairveil.Prelude.{ℕ, ◌≡◌, refl, Option, none, some, List, [], ◌∷◌}
use clairveil.Prelude.Exec.{Leaves, >>=-Leaves}
use clairveil.Tree.Store.{Tree, Method}
use clairveil.Tree.Append.{append_raw}
use clairveil.Keeper.State.{External, Event, MsgContext, Store}
use clairveil.Keeper.Events.{
  on_tree, index_scan, index_update, record_current_snapshot, emit_indexed_event,
}
use clairveil.Keeper.Handlers.{append_all}

-- `f` is a part of the store that does not look at the tree and at the index.
module _ {B X C : Type 0} (ext : External B X) (hash : ℕ → ℕ → ℕ → ℕ) (f : Store B X → C)
    (tree_free : (k : Store B X) (t : Tree) → f (record k { tree = t }) ≡ f k)
    (index_free : (k : Store B X) (x : X) → f (record k { index = x }) ≡ f k) where
  pub on_tree-Leaves : {A : Type 0} (m : Method A) → Leaves f (on_tree hash ext m)
  unfolding on_tree
  on_tree-Leaves m k = tree_free k (m k.tree).1

  index_update-Leaves : (o : Option X) → Leaves f (index_update hash ext o)
  unfolding index_update
  index_update-Leaves (some x) k = index_free k x
  index_update-Leaves none k = refl

  index_scan-Leaves : (e : Event) → Leaves f (index_scan hash ext e)
  unfolding index_scan
  index_scan-Leaves e k = index_update-Leaves (ext.index_event e k.index) k

  pub emit-Leaves : (ctx : MsgContext) (e : Event) → Leaves f (emit_indexed_event hash ext ctx e)
  unfolding emit_indexed_event
  emit-Leaves ctx e = >>=-Leaves f (index_scan hash ext e) _ (index_scan-Leaves e) λ _.
      >>=-Leaves f (on_tree hash ext _) _
        (on_tree-Leaves (record_current_snapshot hash ctx.tree_context))
        λ _. λ k. index_free k (ext.store_event e k.index)

  pub append_all-Leaves :
      (ctx : MsgContext) (bzs : List (List ℕ)) → Leaves f (append_all ext hash ctx bzs)
  unfolding append_all
  append_all-Leaves ctx [] = λ k. refl
  append_all-Leaves ctx (bz ∷ rest) =
      >>=-Leaves f (on_tree hash ext (append_raw hash ctx.tree_context bz)) _
        (on_tree-Leaves (append_raw hash ctx.tree_context bz)) λ _. append_all-Leaves ctx rest

-- ===== src/Tree/Layers.antt =====
-- tree.go: `RecalculateRoot`, layer by layer, computes the root that appending keeps in the store.
use clairveil.Prelude.{
  ℕ, zero, suc, ◌+◌, ◌*◌, ◌/◌, ◌<◌, ◌≤◌, ◌≡◌, refl, ap, sym, ◌∙◌, arith, false, some, List, [], ◌∷◌,
  ◌==◌,
}
use mathlib.Core.Path.{ap₂}
use native.Mathlib.Numerals.{add-one}
use clairveil.Prelude.Result.{ok}
use clairveil.Tree.Shape.{merkle_depth, max_rebuild_leaves, populated, populated-suc}
use clairveil.Tree.Store.{
  Tree, leaf_required, canonical, validate_leaf_count, validate_rebuild_count,
}
use clairveil.Tree.Append.{empty_node}
use clairveil.Tree.Path.{next_layer, layers, read_leaves, head_layer, recalculate_root}
use clairveil.Tree.Spec.{subtree, subtree-empty}
use clairveil.Tree.Invariant.{IsValid, populated_pos}

module _ (hash : ℕ → ℕ → ℕ → ℕ) (leaf : ℕ → ℕ) (count : ℕ) (t : Tree)
    (v : IsValid hash leaf count t) where
  -- The nodes of a level, from one on.
  row : ℕ → ℕ → ℕ → List ℕ
  row level start zero = []
  row level start (suc n) = subtree hash leaf level start ∷ row level (start + 1) n

  next_layer_lem :
      (level start n : ℕ)
      → 2 * start + n ≡ populated count level
      → next_layer hash level (row level (2 * start) n) ≡ row (level + 1) start ((n + 1) / 2)
  unfolding next_layer row subtree
  next_layer_lem level start zero e = refl
  next_layer_lem level start (suc zero) e =
      let empty : subtree hash leaf level (2 * start + 1) ≡ empty_node hash level =
        subtree-empty hash leaf count level (2 * start + 1) v.behind (omega arith) in
      rw (add-one level)
        (ap (λ node. hash level (subtree hash leaf level (2 * start)) node ∷ []) (sym empty))
  next_layer_lem level start (suc (suc n)) e =
      let half : (suc (suc n) + 1) / 2 ≡ suc ((n + 1) / 2) = omega arith in
      let next : 2 * start + 1 + 1 ≡ 2 * (start + 1) = omega arith in
      let rest = next_layer_lem level (start + 1) n (omega arith) in
      ap
        (λ i.
          hash level (subtree hash leaf level (2 * start)) (subtree hash leaf level (2 * start + 1))
          ∷ next_layer hash level (row level i n))
        next
      ∙ ap₂ ◌∷◌ (rw (add-one level) refl) rest
      ∙ ap (row (level + 1) start) (sym half)

  layers_lem :
      (rounds level : ℕ)
      → layers hash rounds level (row level 0 (populated count level))
        ≡ row (level + rounds) 0 (populated count (level + rounds))
  unfolding layers
  layers_lem zero level =
      let e : level ≡ level + 0 = omega arith in ap (λ l. row l 0 (populated count l)) e
  layers_lem (suc rounds) level =
      let e : level + 1 + rounds ≡ level + suc rounds = omega arith in
      let up : (populated count level + 1) / 2 ≡ populated count (level + 1) =
        sym (populated-suc count level) ∙ ap (populated count) (sym (add-one level)) in
      ap (layers hash rounds (level + 1))
        (next_layer_lem level 0 (populated count level) (omega arith) ∙ ap (row (level + 1) 0) up)
      ∙ layers_lem rounds (level + 1)
      ∙ ap (λ l. row l 0 (populated count l)) e

  read_leaves_lem :
      (left index : ℕ)
      → index + left ≡ count
      → read_leaves hash left index count t ≡ ok (row 0 index left)
  unfolding read_leaves row leaf_required canonical subtree
  read_leaves_lem zero index e = refl
  read_leaves_lem (suc left) index e = ground (
    arith,
    v.stored index (omega arith),
    v.small index,
    read_leaves_lem left (index + 1) (omega arith),
  )

  head_row :
      (level n : ℕ) → 0 < n → head_layer hash (row level 0 n) ≡ ok (subtree hash leaf level 0)
  unfolding row
  head_row level zero h = absurd (omega arith)
  head_row level (suc n) h = refl

  nonzero : 0 < count → (count == 0) ≡ false
  nonzero pos = ground arith

  rebuildable : count ≤ max_rebuild_leaves → validate_rebuild_count count ≡ ok tt
  unfolding validate_rebuild_count validate_leaf_count
  rebuildable few = ground (arith, v.bounded)

  populated_zero : count ≡ populated count 0
  unfolding populated
  populated_zero = refl

  top_layer :
      0 < count → head_layer hash (layers hash 32 0 (row 0 0 count)) ≡ ok (subtree hash leaf 32 0)
  top_layer pos =
      ap (λ n. head_layer hash (layers hash 32 0 (row 0 0 n))) populated_zero
      ∙ ap (head_layer hash) (layers_lem 32 0)
      ∙ head_row 32 (populated count 32) (populated_pos count 32 pos)

  -- For at least one leaf and no more than `MaxMerkleRebuildLeaves`, `RecalculateRoot` reads the leaves and
  -- computes from them the very root that the store holds.
  pub recalculate_root_stored :
      0 < count
      → count ≤ max_rebuild_leaves
      → (root : ℕ) × (recalculate_root hash count t ≡ ok root)
        × (t.nodes merkle_depth 0 ≡ some root)
  unfolding recalculate_root
  recalculate_root_stored pos few = (
    subtree hash leaf 32 0,
    rw (nonzero pos, rebuildable few, read_leaves_lem count 0 (omega arith)) (top_layer pos),
    v.built 32 0 (omega arith) (populated_pos count 32 pos),
  )

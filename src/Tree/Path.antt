-- ===== src/Tree/Path.antt =====
-- tree.go: authentication paths, and the root recomputed from the leaves.
use clairveil.Prelude.{
  ℕ, zero, suc, ◌+◌, ◌-◌, ◌/◌, ◌%◌, Bool, not, none, some, List, [], ◌∷◌, ◌==◌, ltb, if◌then◌else◌,
}
use clairveil.Prelude.Result.{Result, ok, err, guard, or_fail, ◌>>=◌, ◌>>◌}
use clairveil.Prelude.Exec.{continue}
use clairveil.Tree.Shape.{merkle_depth}
use clairveil.Tree.Store.{
  Error, Tree, Context, Method, leaf_required, find_commitment, validate_rebuild_count,
}
use clairveil.Tree.Append.{empty_node, node_or_empty, ensure_incremental_state}

-- `GetLeafCount`; on a value that is not 8 bytes long the code would panic, and the model reads 0.
unfoldable pub get_leaf_count : Tree → ℕ
get_leaf_count t = elim t.leaf_count [ none ↦ 0 | some none ↦ 0 | some (some n) ↦ n ]

-- One step of a path: the sibling, and whether the node on the path is the right one.
pub record PathStep : Type 0 where
  pub sibling : ℕ
  pub is_right : Bool

-- `currentIndex ^ 1`.
abbrev pub sibling_index : ℕ → ℕ
sibling_index i = if i % 2 == 1 then i - 1 else i + 1

module _ (hash : ℕ → ℕ → ℕ → ℕ) where
  -- The loop of `GetPath`, with the levels that are left.
  unfoldable pub path_from : ℕ → ℕ → ℕ → ℕ → Tree → Result Error (List PathStep)
  path_from zero level index count t = ok []
  path_from (suc rounds) level index count t = do
    sibling ← node_or_empty hash level (sibling_index index) count t
    rest ← path_from rounds (level + 1) (index / 2) count t
    ok (record { sibling = sibling; is_right = index % 2 == 1 } ∷ rest)

  -- One layer of `RecalculateRoot` from the one below.
  unfoldable pub next_layer : ℕ → List ℕ → List ℕ
  next_layer level [] = []
  next_layer level (left ∷ []) = hash level left (empty_node hash level) ∷ []
  next_layer level (left ∷ right ∷ rest) = hash level left right ∷ next_layer level rest

  unfoldable pub layers : ℕ → ℕ → List ℕ → List ℕ
  unfolding next_layer
  layers zero level layer = layer
  layers (suc rounds) level layer = layers rounds (level + 1) (next_layer level layer)

  -- The leaves that `RecalculateRoot` reads, from an index on.
  unfoldable pub read_leaves : ℕ → ℕ → ℕ → Tree → Result Error (List ℕ)
  read_leaves zero index count t = ok []
  read_leaves (suc left) index count t = do
    leaf ← leaf_required index count t
    rest ← read_leaves left (index + 1) count t
    ok (leaf ∷ rest)

  -- `layer[0]` after the loop.
  abbrev pub head_layer : List ℕ → Result Error ℕ
  head_layer [] = err Error.leaf_missing
  head_layer (root ∷ rest) = ok root

  -- `RecalculateRoot`.
  unfoldable pub recalculate_root : ℕ → Tree → Result Error ℕ
  recalculate_root count t = if count == 0 then ok (empty_node hash merkle_depth) else (do
    validate_rebuild_count count
    leaves ← read_leaves count 0 count t
    head_layer (layers merkle_depth 0 leaves))

  -- `GetPath` once the tree is ready, on the canonical commitment; the root of a missing node is
  -- recomputed.
  unfoldable pub path_of : ℕ → Tree → Result Error (List PathStep × ℕ)
  path_of commitment t = do
    let count = get_leaf_count t
    guard (not (count == 0)) Error.commitment_not_found
    found ← find_commitment commitment t
    index ← or_fail found Error.commitment_not_found
    guard (ltb index count) Error.commitment_not_found
    leaf ← leaf_required index count t
    guard (leaf == commitment) Error.leaf_mismatch
    steps ← path_from merkle_depth 0 index count t
    root ← elim (t.nodes merkle_depth 0) [ some node ↦ ok node | none ↦ recalculate_root count t ]
    ok (steps, root)

  -- `GetPath`.
  unfoldable pub get_path : Context → ℕ → Method (List PathStep × ℕ)
  unfolding path_of
  get_path ctx commitment t =
      continue (ensure_incremental_state hash ctx t).0 (λ _ t'. (path_of commitment t', t'))
        (ensure_incremental_state hash ctx t).1

  -- What a verifier of the path computes, as the circuit of x/privacy/circuit does.
  unfoldable pub fold_path : ℕ → ℕ → List PathStep → ℕ
  fold_path level node [] = node
  fold_path level node (step ∷ steps) =
      fold_path (level + 1)
        (if step.is_right then hash level step.sibling node else hash level node step.sibling) steps

-- ===== src/Tree/Store.antt =====
-- tree.go: the tree's part of the key-value store, and the reads and writes of single entries. The
-- store itself never fails. An outer `some none` is a value that is not 8 bytes long.
use clairveil.Prelude.{
  ℕ, ◌-◌, Bool, true, false, ◌&&◌, Option, none, some, ◌==◌, leb, ltb, if◌then◌else◌,
}
use clairveil.Prelude.Result.{Result, ok, err, guard, ◌>>=◌, ◌>>◌}
use clairveil.Prelude.Exec.{Exec}
use clairveil.Tree.Shape.{merkle_depth, max_leaves, max_rebuild_leaves, modulus}

-- The errors of tree.go.
pub data Error : Type 0 where
  commitment_not_found tree_overflow tree_capacity rebuild_too_large node_missing leaf_missing :
      Error
  leaf_mismatch duplicate_commitment zero_commitment cached_root_missing : Error
  not_canonical bad_count_encoding bad_index_encoding raw_mutation_disabled : Error
  snapshot_invalid snapshot_inconsistent : Error

-- `MerkleRootSnapshotV1` of the root that it is stored under.
pub record RootSnapshot : Type 0 where
  pub leaf_count : ℕ
  pub height : ℕ

pub record Tree : Type 0 where
  pub leaf_count : Option (Option ℕ)
  pub leaves : ℕ → Option ℕ
  pub nodes : ℕ → ℕ → Option ℕ
  pub commitment_index : ℕ → Option (Option ℕ)
  pub historical_roots : ℕ → Option ℕ
  pub snapshots : ℕ → Option RootSnapshot

-- The fields of a keeper and of a context that the tree reads: whether `k.audit` is set, and
-- `ctx.BlockHeight()`, which is never negative.
pub record Context : Type 0 where
  pub audited : Bool
  pub block_height : ℕ

abbrev pub Method : Type 0 → Type 0
Method A = Exec Tree Error A

abbrev pub update {ℓ} : {A : Type ℓ} → ℕ → A → (ℕ → A) → ℕ → A
update k v f j = if j == k then v else f j

-- `validateMerkleLeafCount`.
unfoldable pub validate_leaf_count : ℕ → Result Error Unit
validate_leaf_count count = guard (leb count max_leaves) Error.tree_overflow

-- `validateMerkleRebuildCount`.
unfoldable pub validate_rebuild_count : ℕ → Result Error Unit
unfolding validate_leaf_count
validate_rebuild_count count = do
  validate_leaf_count count
  guard (leb count max_rebuild_leaves) Error.rebuild_too_large

-- `remainingMerkleLeaves`.
unfoldable pub remaining_leaves : ℕ → Result Error ℕ
unfolding validate_leaf_count
remaining_leaves count = do validate_leaf_count count; ok (max_leaves - count)

-- `getLeafCountStrict`.
unfoldable pub leaf_count_strict : Tree → Result Error ℕ
unfolding validate_leaf_count
leaf_count_strict t = elim t.leaf_count [
  | none ↦ ok 0
  | some none ↦ err Error.bad_count_encoding
  | some (some n) ↦ do validate_leaf_count n; ok n
]

-- `validateMerkleCachedRootOrSmallRebuild`.
unfoldable pub validate_cached_root : Context → ℕ → Tree → Result Error Unit
unfolding validate_leaf_count validate_rebuild_count
validate_cached_root ctx count t = do
  validate_leaf_count count
  if count == 0 then ok tt else elim (t.nodes merkle_depth 0) [
    | some root ↦ ok tt
    | none ↦ if ctx.audited then err Error.cached_root_missing else validate_rebuild_count count
  ]

-- `EnsureCanAppendCommitments`.
unfoldable pub ensure_can_append : Context → ℕ → Tree → Result Error Unit
unfolding leaf_count_strict remaining_leaves validate_cached_root
ensure_can_append ctx append_count t = do
  count ← leaf_count_strict t
  remaining ← remaining_leaves count
  guard (leb append_count remaining) Error.tree_capacity
  validate_cached_root ctx count t

unfoldable pub canonical : Option ℕ → Error → Result Error ℕ
canonical none missing = err missing
canonical (some v) missing = if ltb v modulus then ok v else err Error.not_canonical

-- `getLeafRequired`.
unfoldable pub leaf_required : ℕ → ℕ → Tree → Result Error ℕ
unfolding canonical
leaf_required index leaf_count t = do
  guard (ltb index leaf_count) Error.leaf_missing
  canonical (t.leaves index) Error.leaf_missing

-- `GetCommitmentIndex`.
unfoldable pub find_commitment : ℕ → Tree → Result Error (Option ℕ)
find_commitment commitment t = elim (t.commitment_index commitment) [
  | none ↦ ok none
  | some none ↦ err Error.bad_index_encoding
  | some (some index) ↦ ok (some index)
]

-- `setMerkleNode`, `setLeaf`, `setCommitmentIndex`, `setLeafCount` and `setHistoricalRoot`.
abbrev pub set_node : ℕ → ℕ → ℕ → Tree → Tree
set_node level index v t = record t {
  nodes = λ l i. if (l == level) && (i == index) then some v else t.nodes l i;
}

abbrev pub set_leaf : ℕ → ℕ → Tree → Tree
set_leaf index v t = record t { leaves = update index (some v) t.leaves }

abbrev pub set_commitment_index : ℕ → ℕ → Tree → Tree
set_commitment_index commitment index t = record t {
  commitment_index = update commitment (some (some index)) t.commitment_index;
}

abbrev pub set_leaf_count : ℕ → Tree → Tree
set_leaf_count count t = record t { leaf_count = some (some count) }

abbrev pub set_historical_root : ℕ → ℕ → Tree → Tree
set_historical_root root height t = record t {
  historical_roots = update root (some height) t.historical_roots;
}

-- `CheckHistoricalRoot`, on a canonical root.
unfoldable pub check_historical_root : ℕ → Tree → Bool
check_historical_root root t = elim (t.historical_roots root) [ none ↦ false | some height ↦ true ]

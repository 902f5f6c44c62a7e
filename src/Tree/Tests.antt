-- ===== src/Tree/Tests.antt =====
-- The note tree on concrete inputs, over a toy hash.
use clairveil.Prelude.{
  ℕ, zero, suc, ◌+◌, ◌*◌, ◌%◌, ◌<◌, ◌≡◌, refl, arith, true, none, some, List, [], ◌∷◌,
}
use clairveil.Prelude.Result.{ok, err}
use clairveil.Tree.Shape.{merkle_depth, modulus, strict_field, big_endian, populated}
use clairveil.Tree.Store.{Error, Tree, Context, check_historical_root, leaf_count_strict}
use clairveil.Tree.Append.{append_commitment}
use clairveil.Tree.Path.{PathStep, get_path, fold_path, recalculate_root}
use clairveil.Tree.Spec.{subtree}
use clairveil.Tree.Invariant.{IsValid}
use clairveil.Tree.Grow.{add_leaf, append_commitment_grows}
use clairveil.Tree.Paths.{get_path_verifies}
use clairveil.Tree.Refusals.{append_duplicate}
use clairveil.Tree.Layers.{recalculate_root_stored}

abbrev pub hash : ℕ → ℕ → ℕ → ℕ
hash level left right = (1 + level + 3 * left + 7 * right) % modulus

pub hash_canonical : (l a b : ℕ) → hash l a b < modulus
hash_canonical l a b = omega arith

abbrev pub empty : Tree
empty = record {
  leaf_count = none;
  leaves = λ i. none;
  nodes = λ l i. none;
  commitment_index = λ c. none;
  historical_roots = λ r. none;
  snapshots = λ r. none;
}

abbrev pub no_leaves : ℕ → ℕ
no_leaves j = 0

populated_none : (level : ℕ) → populated 0 level ≡ 0
unfolding populated
populated_none zero = refl
populated_none (suc level) = refl

pub empty-IsValid : IsValid hash no_leaves 0 empty
unfolding leaf_count_strict
empty-IsValid = record {
  bounded = omega arith;
  counted = refl;
  built = λ level i top h. absurd (omega (arith, populated_none level));
  stored = λ i h. absurd (omega arith);
  behind = λ j h. refl;
  small = λ j. omega arith;
  indexed = λ i h. absurd (omega arith);
  index_sound = λ c o h. absurd (cc);
}

abbrev pub context : Context
context = record { audited = true; block_height = 9 }

-- The 32 bytes of the number 5.
abbrev pub five : List ℕ
five =
    0 ∷ 0 ∷ 0 ∷ 0 ∷ 0 ∷ 0 ∷ 0 ∷ 0 ∷ 0 ∷ 0 ∷ 0 ∷ 0 ∷ 0 ∷ 0 ∷ 0 ∷ 0 ∷ 0 ∷ 0 ∷ 0 ∷ 0 ∷ 0 ∷ 0 ∷ 0 ∷ 0
    ∷ 0 ∷ 0 ∷ 0 ∷ 0 ∷ 0 ∷ 0 ∷ 0 ∷ 5 ∷ []

pub five-canonical : strict_field five ≡ some 5
unfolding strict_field big_endian
five-canonical = refl

abbrev pub grown : Tree
grown = (append_commitment hash context five empty).1

append_commitment_grows_example :
    ((append_commitment hash context five empty).0 ≡ ok tt)
    × IsValid hash (add_leaf 0 5 no_leaves) 1 grown
    × (check_historical_root (subtree hash (add_leaf 0 5 no_leaves) 32 0) grown ≡ true)
    × (grown.snapshots (subtree hash (add_leaf 0 5 no_leaves) 32 0)
        ≡ some (record { leaf_count = 1; height = 9 }))
append_commitment_grows_example =
    append_commitment_grows hash hash_canonical no_leaves 0 5 empty empty-IsValid (omega arith)
      (omega arith) context five five-canonical (λ e. omega arith) refl refl

-- The tree with that leaf.
pub grown-IsValid : IsValid hash (add_leaf 0 5 no_leaves) 1 grown
grown-IsValid =
    (append_commitment_grows hash hash_canonical no_leaves 0 5 empty empty-IsValid (omega arith)
      (omega arith) context five five-canonical (λ e. omega arith) refl refl).1

pub grown_snapshot :
    grown.snapshots (subtree hash (add_leaf 0 5 no_leaves) 32 0)
    ≡ some (record { leaf_count = 1; height = 9 })
grown_snapshot =
    (append_commitment_grows hash hash_canonical no_leaves 0 5 empty empty-IsValid (omega arith)
      (omega arith) context five five-canonical (λ e. omega arith) refl refl).3

get_path_verifies_example :
    (steps : List PathStep) × (get_path hash context 5 grown
      ≡ (ok (steps, subtree hash (add_leaf 0 5 no_leaves) 32 0), grown))
    × (fold_path hash 0 5 steps ≡ subtree hash (add_leaf 0 5 no_leaves) 32 0)
    × (grown.nodes 32 0 ≡ some (subtree hash (add_leaf 0 5 no_leaves) 32 0))
get_path_verifies_example =
    get_path_verifies hash (add_leaf 0 5 no_leaves) 1 grown grown-IsValid hash_canonical context 0
      (omega arith)

recalculate_root_stored_example :
    (root : ℕ) × (recalculate_root hash 1 grown ≡ ok root)
    × (grown.nodes merkle_depth 0 ≡ some root)
recalculate_root_stored_example =
    recalculate_root_stored hash (add_leaf 0 5 no_leaves) 1 grown grown-IsValid (omega arith)
      (omega arith)

append_duplicate_example :
    append_commitment hash context five grown ≡ (err Error.duplicate_commitment, grown)
append_duplicate_example =
    append_duplicate hash (add_leaf 0 5 no_leaves) 1 grown context five 0 grown-IsValid
      (omega arith) (λ e. omega arith) five-canonical

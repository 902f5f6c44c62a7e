-- ===== src/Tree/Shape.antt =====
-- tree.go: the tree's dimensions. A node is the field element of which the store holds the canonical
-- 32 bytes, as a number.
use clairveil.Prelude.{
  ℕ, zero, suc, ◌+◌, ◌*◌, ◌/◌, ◌^◌, ◌≤◌, ◌≡◌, refl, arith, List, [], ◌∷◌, Option, none, some,
  length, ◌==◌, ltb, if◌then◌else◌,
}

abbrev pub merkle_depth : ℕ
merkle_depth = 32

-- `MaxMerkleLeaves` and `MaxMerkleRebuildLeaves`.
abbrev pub max_leaves : ℕ
max_leaves = 2 ^ 32

abbrev pub max_rebuild_leaves : ℕ
max_rebuild_leaves = 2 ^ 20

-- The order of the BN254 scalar field.
abbrev pub modulus : ℕ
modulus = 21888242871839275222246405745257275088548364400416034343698204186575808495617

unfoldable pub big_endian : ℕ → List ℕ → ℕ
big_endian acc [] = acc
big_endian acc (b ∷ bs) = big_endian (acc * 256 + b) bs

-- `validateFieldElementBytesStrict`: 32 bytes, and a value below the modulus.
unfoldable pub strict_field : List ℕ → Option ℕ
unfolding big_endian
strict_field bz =
    if length bz == 32
    then (if ltb (big_endian 0 bz) modulus then some (big_endian 0 bz) else none)
    else none

-- `populatedNodeCountAtLevel`.
unfoldable pub populated : ℕ → ℕ → ℕ
populated count zero = count
populated count (suc level) =
    let rest = populated ((count + 1) / 2) level in if count == 0 then count else rest

-- `index /= 2`, as often as there are levels.
unfoldable pub ancestor : ℕ → ℕ → ℕ
ancestor index zero = index
ancestor index (suc level) = ancestor (index / 2) level

pub populated-suc :
    (count level : ℕ) → populated count (suc level) ≡ (populated count level + 1) / 2
unfolding populated
populated-suc count zero = ground arith
populated-suc count (suc level) = ground (arith, populated-suc ((count + 1) / 2) level)

pub ancestor-suc : (index level : ℕ) → ancestor index (suc level) ≡ ancestor index level / 2
unfolding ancestor
ancestor-suc index zero = refl
ancestor-suc index (suc level) = ancestor-suc (index / 2) level

-- The path of the leaf behind the last one stands at the edge of the populated nodes.
pub ancestor_edge :
    (count level : ℕ)
    → (ancestor count level ≤ populated count level)
      × (populated count level ≤ ancestor count level + 1)
      × (populated (count + 1) level ≡ ancestor count level + 1)
ancestor_edge count zero = unfold populated ancestor in omega arith
ancestor_edge count (suc level) = omega (
  arith,
  ancestor_edge count level,
  ancestor-suc count level,
  populated-suc count level,
  populated-suc (count + 1) level,
)

-- ===== src/Tree.antt =====
-- x/privacy/keeper/tree.go: the incremental Merkle tree of note commitments.
pub mod Shape
pub mod Store
pub mod Append
pub mod Path
pub mod Spec
pub mod Raise
pub mod Invariant
pub mod Grow
pub mod Paths
pub mod Layers
pub mod Refusals
pub mod Tests

-- ===== src/Reservation/Batch.antt =====
-- batch_types.go and batch_memory_store.go: batch operations, which spend several reserved notes by one
-- proof.
pub mod Types
pub mod Texts
pub mod Store
pub mod Create
pub mod Lease
pub mod Transition
pub mod Signing
pub mod Broadcast
pub mod Settle
pub mod Trail
pub mod Trails
pub mod Loops
pub mod Rides
pub mod Advances
pub mod Ends
pub mod Has
pub mod Exclusion
pub mod Expiry
pub mod Renewal
pub mod Moves
pub mod Following
pub mod Submission
pub mod Verdict
pub mod Settling
pub mod Settlement
pub mod Numbering
pub mod Named
pub mod Sorting
pub mod Creation
pub mod Fences
pub mod Evidenced
pub mod Judgement
pub mod Accounting
pub mod Samples
pub mod Tests
pub mod Calls
pub mod Validity
pub mod Runs
pub mod Items
pub mod Reconcile

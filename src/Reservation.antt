-- ===== src/Reservation.antt =====
-- x/privacy/client/sdk/reservation: the wallet's note reservations, so that one note is never fed to
-- two transactions at once. The children follow the package's files.
pub mod Status
pub mod Types
pub mod Store
pub mod Transition
pub mod Lease
pub mod Create
pub mod Links
pub mod Marks
pub mod Invariant
pub mod Keeps
pub mod Calls
pub mod Audit
pub mod Service
pub mod Identity
pub mod Evidence
pub mod Reconcile
pub mod Batch
pub mod Tests

-- ===== src/Keeper.antt =====
-- x/privacy/keeper: the messages that move funds, over the note tree, the nullifiers and the reserve.
pub mod State
pub mod Checks
pub mod Reserve
pub mod Events
pub mod Withdraw
pub mod Transfer
pub mod Deposit
pub mod Handlers
pub mod Spending
pub mod Parts
pub mod Frames
pub mod Once
pub mod Accepted
pub mod Delivered
pub mod Heights
pub mod Backing
pub mod Proven
pub mod Backed
pub mod Covered
pub mod Tests

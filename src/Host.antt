-- ===== src/Host.antt =====
-- crates/host: the account tree and the batch builder of the operator.
pub mod Errors
pub mod Tree
pub mod Batches
pub mod Build
pub mod Ranks
pub mod Builder
pub mod Ranked
pub mod Filling
pub mod Applying
pub mod Applied
pub mod Updated
pub mod Ledgers
pub mod Merged
pub mod Cycle
pub mod Opened

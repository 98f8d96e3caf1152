-- ===== src/Trees.antt =====
-- crates/core/src/trees
pub mod Node
pub mod Patricia
pub mod Multiproof
pub mod Making
pub mod Bits
pub mod Differing
pub mod Classes
pub mod Parts
pub mod Built
pub mod Building
pub mod Cut
pub mod Combine
pub mod Sides
pub mod Apart
pub mod Hanging
pub mod Straddle
pub mod Unique
pub mod Rows
pub mod Spanning
pub mod Refill
pub mod Merging
pub mod Keyed
pub mod RoundTrip
pub mod Attempts
pub mod Smt
pub mod Accepted

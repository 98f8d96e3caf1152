-- ===== src/Types.antt =====
-- The data of an exchange: crates/core/src/types and crates/core/src/settlement/errors.rs.
-- Identifiers are 160-bit or 256-bit big-endian numbers, so their order is the order of their bytes.
pub mod Errors
pub mod Results
pub mod Ids
pub mod Account
pub mod Operations
pub mod Order
pub mod Config
pub mod Batch

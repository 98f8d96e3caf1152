-- ===== src/Tests.antt =====
-- Runs of the model on small batches, and the instances of the theorems.
mod Fixture
mod Runs
mod Witnesses
mod Operators
pub mod Proofs
pub mod Trees
pub mod Sparse

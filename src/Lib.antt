-- ===== src/Lib.antt =====
-- The settlement engine of zk-clob: a central limit order book whose batches are settled inside a
-- zero-knowledge proof.
--
-- The program. A batch (crates/core/src/types/batch.rs) carries the accounts that it touches with a
-- Patricia multiproof of them, the deposits and forced withdrawals that the contract queued, signed
-- orders and withdrawals, the order books as lists of indices into the orders, and the configuration
-- of the exchange. `settle_batch` (crates/core/src/settlement/mod.rs) checks all of it, applies the
-- deposits, drains the forced withdrawals, debits the withdrawals, counts the nonces up, matches the
-- books, checks that no asset was made or lost, and commits to the accounts after it.
--
-- Which file models what:
--   Types/          the data: crates/core/src/types, errors.rs and consts.rs
--   Types/Results   predicates on results, each with the rule that takes it through `?`
--   Hashing         the encodings that are hashed, hashing.rs, and signatures, types/signature.rs
--   Account         `Account::balance`, `debit` and `credit`, types/account.rs
--   Trees           trees/patricia.rs: the roots, and the multiproofs (Trees/Multiproof)
--   Trees/Built, Building, Cut, Combine    the canonical trees that `build` makes, and `combine`
--   Trees/Hanging, Refill, RoundTrip       the side nodes of a tree, in it and in later trees
--   Trees/Smt       trees/smt.rs: the sparse tree, and under it the bitmap of its proofs
--   State           the complete state and the witness, state.rs
--   Settlement      `settle_batch` and `build_output`, settlement/mod.rs and output.rs
--   Settlement/Assets      the tracker of the conservation check, settlement/assets.rs
--   Settlement/Balances    deposits.rs, withdrawals.rs and forced_withdrawals.rs of settlement, the
--                   totals of assets (Ledger) and the balances of each account (Owned)
--   Settlement/Nonces      settlement/nonces.rs, and `validate_nonces` of settlement/validation.rs
--   Settlement/Matching    settlement/matching.rs: units of a book, and who pays whom (Parties)
--   Settlement/Validation  the rest of settlement/validation.rs
--   Settlement/Steps, Settles, Outcome, Conservation   what the whole guarantees
--   Host            the operator's account tree and batch builder, crates/host: account_tree.rs,
--                   batch_builder.rs and error.rs
--   Host/Applying, Applied, Updated, Opened   the operations of the tree
--   Host/Merged, Ledgers, Cycle    a batch from the tree and back into it
--   Tests           a small exchange, runs on it, and the theorems at it
--
-- How the state corresponds. A function that changes a slice of accounts takes the list and returns
-- the new one. The engine drops its state on an error, so that an error carries no state. `Result`
-- has the errors of `SettlementError` and a third outcome, `panic`, for `expect`, an index out of
-- range and a division by zero; a theorem that a function is `Safe` rules `panic` out. In crates/host,
-- `HostResult` has the errors of `BatchBuildError`, `crash` for a panic, and `Gives` for `Safe`; the
-- sparse tree has `Attempt`, with its own error and `crashed`. `AccountTree::apply` returns the tree as
-- it is left, also where it ends in an error. Identifiers, hashes and integers are natural numbers, and
-- the checked operations fail where the machine's would.
-- A vector index that the source keeps into a list of orders is the list that is left from there.
--
-- A byte of a bitmap is a number, whose bits are read by division and set by addition.
--
-- Fuel. `match_from` has one round for each order, and a round uses an order up. `combine_on` and
-- `build_on` have the length of the list, and each call is on a shorter one. The recursions of the
-- sparse tree go by the levels that remain below a depth.
--
-- Parameters. `Crypto` has SHA-256, Keccak-256 and the secp256k1 calls of types/signature.rs, which
-- are third-party code; no property of them is assumed. The table of empty hashes of
-- trees/smt_empty_hashes.rs, whose constants are digests of SHA-256, is a parameter of the sparse tree
-- as SHA-256 is; that each of its hashes is that of a node with the one before it twice, which a test
-- of the source checks, is a hypothesis. A binary search is modelled on slices that are strictly sorted by the key, where the
-- standard library fixes its result; the engine searches accounts, balances, assets and markets only
-- after it has checked that they are.
--
-- Not modelled. Serialization; the contracts; the command line and the guest's entry point; the
-- dense Merkle tree of trees/dmt.rs, which no other part of the program uses.
pub mod Prelude
pub mod Types
pub mod Hashing
pub mod Account
pub mod Trees
pub mod State
pub mod Settlement
pub mod Host
mod Tests

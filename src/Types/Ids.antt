-- ===== src/Types/Ids.antt =====
-- crates/core/src/types/identifiers.rs and the type aliases of types/batch.rs. An `Address` is a
-- number below 2^160 and a `B256` a number below 2^256: the derived `Ord` compares bytes from the
-- most significant one, which is the order of the numbers.
use zk_clob.Prelude.{ℕ}

abbrev pub Address : Type 0
Address = ℕ

abbrev pub B256 : Type 0
B256 = ℕ

abbrev pub AssetId : Type 0
AssetId = Address

abbrev pub AccountId : Type 0
AccountId = Address

abbrev pub MarketId : Type 0
MarketId = B256

-- `PatriciaKey::BITS` of `AccountId`.
abbrev pub account_id_bits : ℕ
account_id_bits = 160

-- ===== src/Types/Account.antt =====
-- The data of crates/core/src/types/account.rs; the methods are in Account.antt.
use zk_clob.Prelude.{ℕ, List}
use zk_clob.Types.Ids.{AccountId, AssetId}

pub record AssetBalance : Type 0 where
  pub asset : AssetId
  pub available : ℕ

pub record Account : Type 0 where
  pub id : AccountId
  pub balances : List AssetBalance
  pub next_nonce : ℕ

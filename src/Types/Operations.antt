-- ===== src/Types/Operations.antt =====
-- Deposits, withdrawals, forced withdrawals, trades and signed operations: deposit.rs,
-- withdrawal.rs, forced_withdrawal.rs, trade.rs and signature.rs of crates/core/src/types.
use zk_clob.Prelude.{ℕ, Option}
use zk_clob.Types.Ids.{AccountId, AssetId, MarketId}

-- `r` and `s` as 256-bit numbers.
pub record Signature : Type 0 where
  pub r : ℕ
  pub s : ℕ
  pub recovery_id : ℕ

pub record SignedOperation (O : Type 0) : Type 0 where
  pub operation : O
  pub signer : AccountId
  pub signature : Signature
  pub account_index : Option ℕ

pub record Deposit : Type 0 where
  pub id : ℕ
  pub account : AccountId
  pub asset : AssetId
  pub amount : ℕ
  pub account_index : Option ℕ

pub record ForcedWithdrawal : Type 0 where
  pub id : ℕ
  pub account : AccountId
  pub asset : AssetId
  pub amount : ℕ
  pub account_index : Option ℕ

pub record Withdrawal : Type 0 where
  pub asset : AssetId
  pub amount : ℕ
  pub recipient : AccountId
  pub nonce : ℕ

abbrev pub SignedWithdrawal : Type 0
SignedWithdrawal = SignedOperation Withdrawal

pub record ExecutedWithdrawal : Type 0 where
  pub account : AccountId
  pub recipient : AccountId
  pub asset : AssetId
  pub amount : ℕ
  pub nonce : ℕ

-- `ExecutedWithdrawal::from`
abbrev pub executed_withdrawal : SignedWithdrawal → ExecutedWithdrawal
executed_withdrawal w = record {
  account = w.signer;
  recipient = w.operation.recipient;
  asset = w.operation.asset;
  amount = w.operation.amount;
  nonce = w.operation.nonce;
}

pub record Trade : Type 0 where
  pub market_id : MarketId
  pub buyer : AccountId
  pub seller : AccountId
  pub price : ℕ
  pub quantity : ℕ
  pub quote_amount : ℕ
  pub quote_fee : ℕ

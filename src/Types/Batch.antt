-- ===== src/Types/Batch.antt =====
-- crates/core/src/types/batch.rs, and the witness of crates/core/src/state.rs with the multiproof
-- that it carries (crates/core/src/trees/patricia.rs).
use zk_clob.Prelude.{ℕ, List}
use zk_clob.Types.Ids.{Address, B256, MarketId}
use zk_clob.Types.Account.{Account}
use zk_clob.Types.Operations.{
  Deposit, ForcedWithdrawal, SignedWithdrawal, ExecutedWithdrawal, Trade,
}
use zk_clob.Types.Order.{SequencedOrder}
use zk_clob.Types.Config.{ExchangeConfig}

-- `PatriciaSubtree`; a `Commitment` has the same fields.
pub record PatriciaSubtree : Type 0 where
  pub root : B256
  pub min_key : ℕ
  pub max_key : ℕ

pub record PatriciaMultiproof : Type 0 where
  pub leaf_keys : List ℕ
  pub side_nodes : List PatriciaSubtree

pub record StateWitness : Type 0 where
  pub accounts : List Account
  pub multiproof : PatriciaMultiproof

pub record SigningDomain : Type 0 where
  pub protocol_version : ℕ
  pub chain_id : ℕ
  pub exchange_id : Address

pub record MarketOrderBook : Type 0 where
  pub market_id : MarketId
  pub buy_indices : List ℕ
  pub sell_indices : List ℕ

pub record BatchInput : Type 0 where
  pub domain : SigningDomain
  pub batch_id : ℕ
  pub expected_old_state_root : B256
  pub state : StateWitness
  pub old_deposit_cursor : ℕ
  pub deposits : List Deposit
  pub old_forced_withdrawal_cursor : ℕ
  pub forced_withdrawals : List ForcedWithdrawal
  pub orders : List SequencedOrder
  pub withdrawals : List SignedWithdrawal
  pub order_books : List MarketOrderBook
  pub config : ExchangeConfig

pub record PublicOutput : Type 0 where
  pub domain : SigningDomain
  pub batch_id : ℕ
  pub old_state_root : B256
  pub new_state_root : B256
  pub config_hash : B256
  pub batch_hash : B256
  pub trades_hash : B256
  pub old_deposit_cursor : ℕ
  pub new_deposit_cursor : ℕ
  pub consumed_deposits_hash : B256
  pub old_forced_withdrawal_cursor : ℕ
  pub consumed_forced_withdrawals_hash : B256
  pub withdrawals_hash : B256
  pub forced_withdrawals_hash : B256

pub record BatchOutput : Type 0 where
  pub public_output : PublicOutput
  pub updated_accounts : List Account
  pub trades : List Trade
  pub withdrawals : List ExecutedWithdrawal
  pub forced_withdrawals : List ForcedWithdrawal

-- ===== src/Settlement/Validation.antt =====
-- crates/core/src/settlement/validation.rs: limits, deposits, forced withdrawals, orders and
-- withdrawals; the children have the configuration, the accounts and the order books.
pub mod Config
pub mod Accounts
pub mod Books
pub mod Sequences
pub mod Cursors
pub mod Limits
pub mod Operations
use zk_clob.Prelude.{
  ℕ, Bool, true, not, List, [], ◌∷◌, Option, none, some, get_elem?, length, any_pair, is_some,
  sort_unstable, checked_add_u64, ltb, ◌==◌, if◌then◌else◌,
}
use zk_clob.Types.Ids.{B256, AccountId}
use zk_clob.Types.Account.{Account}
use zk_clob.Types.Operations.{Deposit, ForcedWithdrawal, SignedWithdrawal}
use zk_clob.Types.Order.{SequencedOrder}
use zk_clob.Types.Config.{
  ExchangeConfig, market_of, asset_of, max_deposits_per_batch, max_orders_per_batch,
  max_withdrawals_per_batch, max_forced_withdrawals_per_batch, max_touched_accounts_per_batch,
}
use zk_clob.Types.Batch.{BatchInput}
use zk_clob.Types.Errors.{
  Result, ok, err, panic, ◌>>=◌, ◌>>◌, fail_if, ok_or, expect, too_many_accounts, too_many_orders,
  too_many_deposits, too_many_withdrawals, too_many_forced_withdrawals, too_many_assets,
  too_many_markets, invalid_deposit_cursor, zero_deposit_amount, unknown_asset,
  deposit_cursor_overflow, invalid_forced_withdrawal_cursor, zero_forced_withdrawal_amount,
  forced_withdrawal_cursor_overflow, unknown_account, zero_price, zero_quantity,
  invalid_order_signature, unknown_market, duplicate_sequence, zero_withdrawal_amount,
  invalid_withdrawal_signature,
}
use zk_clob.Hashing.{Crypto, order_hash, withdrawal_hash, has_valid_signature}
use zk_clob.Settlement.Balances.{holds}

abbrev pub max_assets : ℕ
max_assets = 1_000

abbrev pub max_markets : ℕ
max_markets = 1_000

unfoldable pub validate_limits : BatchInput → Result (Unit {0})
validate_limits input = do
  fail_if (ltb max_touched_accounts_per_batch (length input.state.accounts)) too_many_accounts
  fail_if (ltb max_orders_per_batch (length input.orders)) too_many_orders
  fail_if (ltb max_deposits_per_batch (length input.deposits)) too_many_deposits
  fail_if (ltb max_withdrawals_per_batch (length input.withdrawals)) too_many_withdrawals
  fail_if (ltb max_forced_withdrawals_per_batch (length input.forced_withdrawals))
      too_many_forced_withdrawals
  fail_if (ltb max_assets (length input.config.assets)) too_many_assets
  fail_if (ltb max_markets (length input.config.markets)) too_many_markets
  fail_if (ltb max_markets (length input.order_books)) too_many_markets

-- `validate_account_index`
unfoldable pub validate_account_index : Option ℕ → List Account → AccountId → Result (Unit {0})
validate_account_index account_index accounts id = do
  index ← expect account_index
  fail_if (not (holds (get_elem? accounts index) id)) unknown_account

-- The cursor after the deposits.
unfoldable pub validate_deposits : List Deposit → ℕ → ExchangeConfig → Result ℕ
validate_deposits [] cursor config = ok cursor
validate_deposits (d ∷ ds) cursor config = do
  fail_if (not (d.id == cursor)) invalid_deposit_cursor
  fail_if (d.amount == 0) zero_deposit_amount
  fail_if (not (is_some (asset_of config d.asset))) unknown_asset
  next ← ok_or (checked_add_u64 cursor 1) deposit_cursor_overflow
  validate_deposits ds next config

unfoldable pub validate_forced_withdrawals : List ForcedWithdrawal → ℕ → Result (Unit {0})
validate_forced_withdrawals [] cursor = ok tt
validate_forced_withdrawals (w ∷ ws) cursor = do
  fail_if (not (w.id == cursor)) invalid_forced_withdrawal_cursor
  fail_if (w.amount == 0) zero_forced_withdrawal_amount
  next ← ok_or (checked_add_u64 cursor 1) forced_withdrawal_cursor_overflow
  validate_forced_withdrawals ws next

module _ (c : Crypto) where
  -- One round of the scan of `validate_orders`.
  unfoldable pub validate_order :
      SequencedOrder → List Account → ExchangeConfig → B256 → Result (Unit {0})
  unfolding validate_account_index
  validate_order o accounts config domain = do
    fail_if (o.operation.price == 0) zero_price
    fail_if (o.operation.quantity == 0) zero_quantity
    fail_if (not (has_valid_signature c (order_hash c o.operation) o.signed_order domain))
        invalid_order_signature
    validate_account_index o.account_index accounts o.signer
    fail_if (not (is_some (market_of config o.operation.market_id))) unknown_market

  unfoldable pub scan_orders :
      List SequencedOrder → List Account → ExchangeConfig → B256 → Result (List ℕ)
  scan_orders [] accounts config domain = ok []
  scan_orders (o ∷ os) accounts config domain = do
    validate_order o accounts config domain
    sequences ← scan_orders os accounts config domain
    ok (o.sequence ∷ sequences)

  unfoldable pub validate_orders :
      List SequencedOrder → List Account → ExchangeConfig → B256 → Result (Unit {0})
  unfolding scan_orders
  validate_orders orders accounts config domain = do
    sequences ← scan_orders orders accounts config domain
    fail_if (any_pair ◌==◌ (sort_unstable ltb sequences)) duplicate_sequence

  unfoldable pub validate_withdrawal :
      SignedWithdrawal → List Account → ExchangeConfig → B256 → Result (Unit {0})
  unfolding validate_account_index
  validate_withdrawal w accounts config domain = do
    fail_if (w.operation.amount == 0) zero_withdrawal_amount
    fail_if (not (has_valid_signature c (withdrawal_hash c w.operation) w domain))
        invalid_withdrawal_signature
    validate_account_index w.account_index accounts w.signer
    fail_if (not (is_some (asset_of config w.operation.asset))) unknown_asset

  unfoldable pub validate_withdrawals :
      List SignedWithdrawal → List Account → ExchangeConfig → B256 → Result (Unit {0})
  unfolding validate_withdrawal
  validate_withdrawals [] accounts config domain = ok tt
  validate_withdrawals (w ∷ ws) accounts config domain = do
    validate_withdrawal w accounts config domain
    validate_withdrawals ws accounts config domain

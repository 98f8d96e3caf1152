-- ===== src/Settlement.antt =====
-- `settle_batch`, crates/core/src/settlement/mod.rs, and `build_output`, settlement/output.rs.
pub mod Assets
pub mod Balances
pub mod Nonces
pub mod Matching
pub mod Validation
pub mod Steps
pub mod Settles
pub mod Conservation
pub mod Outcome
use zk_clob.Prelude.{ℕ, not, List, [], map, is_empty, ◌==◌}
use zk_clob.Types.Ids.{B256}
use zk_clob.Types.Account.{Account}
use zk_clob.Types.Operations.{
  Deposit, SignedWithdrawal, ForcedWithdrawal, Trade, executed_withdrawal,
}
use zk_clob.Types.Batch.{SigningDomain, StateWitness, BatchInput, BatchOutput}
use zk_clob.Types.Errors.{
  Result, ok, err, panic, ◌>>=◌, ◌>>◌, fail_if, old_state_root_mismatch,
  asset_conservation_violation,
}
use zk_clob.Hashing.{
  Crypto, config_hash, signing_domain_hash, batch_hash, trades_hash, deposits_hash,
  forced_withdrawals_hash, withdrawals_hash,
}
use zk_clob.State.{witness_root}
use Assets.{
  AssetTracker, add_accounts, add_deposits, subtract_withdrawals, subtract_forced_withdrawals,
  subtract_accounts,
}
use Balances.{apply_deposits, apply_withdrawals, apply_forced_withdrawals}
use Nonces.{validate_nonces, consume_nonces}
use Matching.{match_and_settle}
use Validation.{
  validate_limits, validate_deposits, validate_forced_withdrawals, validate_orders,
  validate_withdrawals,
}
use Validation.Config.{validate_config}
use Validation.Accounts.{validate_accounts}
use Validation.Books.{build_validated_books}

-- `state.accounts_mut()` with the accounts written.
abbrev pub with_accounts : StateWitness → List Account → StateWitness
with_accounts w accounts = record w { accounts = accounts }

-- The conservation baseline of `settle_batch`.
abbrev pub baseline : List Account → List Deposit → List SignedWithdrawal → Result AssetTracker
baseline accounts deposits withdrawals = do
  t ← add_accounts [] accounts
  t' ← add_deposits t deposits
  subtract_withdrawals t' withdrawals

-- What the balances of a batch go through, between the conservation baseline and the check: the
-- accounts after it, the trades and the executed forced withdrawals.
pub record Settled : Type 0 where
  pub accounts : List Account
  pub trades : List Trade
  pub forced_withdrawals : List ForcedWithdrawal

module _ (c : Crypto) where
  unfoldable pub settle_operations : BatchInput → AssetTracker → Result Settled
  settle_operations input tracker = do
    deposited ← apply_deposits input.state.accounts input.deposits
    validate_forced_withdrawals input.forced_withdrawals input.old_forced_withdrawal_cursor
    drained ← apply_forced_withdrawals deposited input.forced_withdrawals
    tracker' ← subtract_forced_withdrawals tracker drained.1
    validate_withdrawals c input.withdrawals drained.0 input.config
        (signing_domain_hash c input.domain)
    validate_orders c input.orders drained.0 input.config (signing_domain_hash c input.domain)
    validate_nonces input.orders input.withdrawals drained.0
    withdrawn ← apply_withdrawals drained.0 input.withdrawals
    consumed ← consume_nonces withdrawn input.orders input.withdrawals
    books ← build_validated_books input.orders input.order_books input.config
    matched ← match_and_settle consumed books input.config
    remainder ← subtract_accounts tracker' matched.0
    fail_if (not (is_empty remainder)) asset_conservation_violation
    ok (record { accounts = matched.0; trades = matched.1; forced_withdrawals = drained.1 })

  -- `build_output`
  unfoldable pub build_output :
      BatchInput
      → (old_state_root new_state_root : B256) (new_deposit_cursor : ℕ) → Settled
      → BatchOutput
  build_output input old_state_root new_state_root new_deposit_cursor settled = record {
    public_output = record {
      domain = input.domain;
      batch_id = input.batch_id;
      old_state_root = old_state_root;
      new_state_root = new_state_root;
      config_hash = config_hash c input.config;
      batch_hash =
          batch_hash c (signing_domain_hash c input.domain) input.batch_id old_state_root
            (config_hash c input.config) input.orders;
      trades_hash = trades_hash c settled.trades;
      old_deposit_cursor = input.old_deposit_cursor;
      new_deposit_cursor = new_deposit_cursor;
      consumed_deposits_hash = deposits_hash c input.deposits;
      old_forced_withdrawal_cursor = input.old_forced_withdrawal_cursor;
      consumed_forced_withdrawals_hash = forced_withdrawals_hash c input.forced_withdrawals;
      withdrawals_hash = withdrawals_hash c (map executed_withdrawal input.withdrawals);
      forced_withdrawals_hash = forced_withdrawals_hash c settled.forced_withdrawals;
    };
    updated_accounts = settled.accounts;
    trades = settled.trades;
    withdrawals = map executed_withdrawal input.withdrawals;
    forced_withdrawals = settled.forced_withdrawals;
  }

  unfoldable pub settle_batch : BatchInput → Result BatchOutput
  unfolding settle_operations build_output
  settle_batch input = do
    validate_limits input
    validate_config input.config input.state.accounts
    validate_accounts input.state.accounts
    new_deposit_cursor ← validate_deposits input.deposits input.old_deposit_cursor input.config
    old_state_root ← witness_root c input.state
    fail_if (not (old_state_root == input.expected_old_state_root)) old_state_root_mismatch
    tracker ← baseline input.state.accounts input.deposits input.withdrawals
    settled ← settle_operations input tracker
    new_state_root ← witness_root c (with_accounts input.state settled.accounts)
    ok (build_output input old_state_root new_state_root new_deposit_cursor settled)

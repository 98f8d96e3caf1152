-- ===== src/Host/Batches.antt =====
-- crates/host/src/batch_builder.rs. A set is a list in ascending order, and a map a list of entries
-- in the order of the keys.
use zk_clob.Prelude.{
  ℕ, ◌^◌, Bool, false, not, ◌&&◌, Option, none, some, List, [], ◌∷◌, ◌++◌, length, any, is_some,
  checked_add, checked_add_u64, ltb, leb, ◌==◌, if◌then◌else◌,
}
use zk_clob.Types.Ids.{AccountId, AssetId, MarketId}
use zk_clob.Types.Account.{Account}
use zk_clob.Types.Operations.{Deposit, ForcedWithdrawal, SignedWithdrawal}
use zk_clob.Types.Order.{Side, SequencedOrder}
use zk_clob.Types.Config.{
  MarketConfig, ExchangeConfig, asset_of, max_deposits_per_batch, max_orders_per_batch,
  max_withdrawals_per_batch, max_forced_withdrawals_per_batch, max_touched_accounts_per_batch,
}
use zk_clob.Types.Batch.{SigningDomain}
use zk_clob.Account.{balance}
use zk_clob.Host.Errors.{
  HostResult, give, ◌>>=◌, ◌>>◌, refuse_if, give_or, too_many_deposits, deposit_cursor_overflow,
  invalid_deposit_cursor, zero_deposit_amount, unknown_asset, too_many_accounts,
  too_many_forced_withdrawals, forced_withdrawal_cursor_overflow, invalid_forced_withdrawal_cursor,
  zero_forced_withdrawal_amount, too_many_orders, zero_price, zero_quantity, unknown_account,
  unknown_market, duplicate_sequence, invalid_nonce, duplicate_nonce, order_index_overflow,
  too_many_withdrawals, zero_withdrawal_amount, arithmetic_overflow, insufficient_balance,
}
use zk_clob.Host.Tree.{lookup, AccountTree, account_in}

-- `BTreeSet::contains` and `BTreeSet::insert`.
abbrev pub contains : ℕ → List ℕ → Bool
contains k = any (λ x. x == k)

abbrev pub insert : ℕ → List ℕ → List ℕ
insert k [] = k ∷ []
insert k (x ∷ xs) =
    let rest = insert k xs in if x == k then x ∷ xs else (if ltb k x then k ∷ x ∷ xs else x ∷ rest)

-- `entry(key).or_default()`, changed.
abbrev pub change_entry {ℓ} : {V : Type ℓ} → ℕ → V → (V → V) → List (ℕ × V) → List (ℕ × V)
change_entry key initial change [] = (key, change initial) ∷ []
change_entry key initial change (e ∷ es) =
    let rest = change_entry key initial change es in
    if e.0 == key
    then (key, change e.1) ∷ es
    else (if ltb key e.0 then (key, change initial) ∷ e ∷ es else e ∷ rest)

-- The indices of a market's orders, `(buys, sells)`.
pub record Sides : Type 0 where
  pub buys : List ℕ
  pub sells : List ℕ

pub record BatchBuilder : Type 0 where
  pub state : AccountTree
  pub config : ExchangeConfig
  pub domain : SigningDomain
  pub batch_id : ℕ
  pub old_deposit_cursor : ℕ
  pub deposits : List Deposit
  pub old_forced_withdrawal_cursor : ℕ
  pub forced_withdrawals : List ForcedWithdrawal
  pub orders : List SequencedOrder
  pub withdrawals : List SignedWithdrawal
  pub touched_accounts : List AccountId
  pub sequences : List ℕ
  pub nonces : List (AccountId × List ℕ)
  pub books : List (MarketId × Sides)

-- `BatchBuilder::new`
unfoldable pub batch_builder :
    AccountTree
    → ExchangeConfig
    → SigningDomain
    → (batch_id old_deposit_cursor old_forced_withdrawal_cursor : ℕ) → BatchBuilder
batch_builder state config domain batch_id old_deposit_cursor old_forced_withdrawal_cursor =
    record {
      state = state;
      config = config;
      domain = domain;
      batch_id = batch_id;
      old_deposit_cursor = old_deposit_cursor;
      deposits = [];
      old_forced_withdrawal_cursor = old_forced_withdrawal_cursor;
      forced_withdrawals = [];
      orders = [];
      withdrawals = [];
      touched_accounts = config.fees.recipient ∷ [];
      sequences = [];
      nonces = [];
      books = [];
    }

-- Whether an account would be one too many.
abbrev pub is_full_for : BatchBuilder → AccountId → Bool
is_full_for b id =
    not (contains id b.touched_accounts)
    && leb max_touched_accounts_per_batch (length b.touched_accounts)

-- `BatchBuilder::deposit`
unfoldable pub add_deposit : BatchBuilder → Deposit → HostResult BatchBuilder
add_deposit b d = do
  refuse_if (leb max_deposits_per_batch (length b.deposits)) too_many_deposits
  expected ←
      give_or deposit_cursor_overflow (checked_add_u64 b.old_deposit_cursor (length b.deposits))
  refuse_if (not (d.id == expected)) (invalid_deposit_cursor expected d.id)
  refuse_if (d.amount == 0) zero_deposit_amount
  refuse_if (not (is_some (asset_of b.config d.asset))) (unknown_asset d.asset)
  refuse_if (is_full_for b d.account) too_many_accounts
  give (record b {
    touched_accounts = insert d.account b.touched_accounts;
    deposits = b.deposits ++ (d ∷ []);
  })

-- `BatchBuilder::forced_withdraw`
unfoldable pub add_forced_withdrawal : BatchBuilder → ForcedWithdrawal → HostResult BatchBuilder
add_forced_withdrawal b w = do
  refuse_if (leb max_forced_withdrawals_per_batch (length b.forced_withdrawals))
      too_many_forced_withdrawals
  expected ←
      give_or forced_withdrawal_cursor_overflow
        (checked_add_u64 b.old_forced_withdrawal_cursor (length b.forced_withdrawals))
  refuse_if (not (w.id == expected)) (invalid_forced_withdrawal_cursor expected w.id)
  refuse_if (w.amount == 0) zero_forced_withdrawal_amount
  refuse_if (is_full_for b w.account) too_many_accounts
  give (record b {
    touched_accounts = insert w.account b.touched_accounts;
    forced_withdrawals = b.forced_withdrawals ++ (w ∷ []);
  })

-- `account(id).map_or(0, |account| account.next_nonce())`
abbrev pub next_nonce_of : Option Account → ℕ
next_nonce_of none = 0
next_nonce_of (some a) = a.next_nonce

-- Whether a nonce of an account is in the batch.
abbrev pub is_nonce_used : Option (List ℕ) → ℕ → Bool
is_nonce_used none nonce = false
is_nonce_used (some ns) nonce = contains nonce ns

abbrev pub push_index : Side → ℕ → Sides → Sides
push_index Side.buy index sides = record sides { buys = sides.buys ++ (index ∷ []) }
push_index Side.sell index sides = record sides { sells = sides.sells ++ (index ∷ []) }

-- `BatchBuilder::order`
unfoldable pub add_order : BatchBuilder → SequencedOrder → HostResult BatchBuilder
unfolding account_in
add_order b o = do
  refuse_if (leb max_orders_per_batch (length b.orders)) too_many_orders
  refuse_if (o.operation.price == 0) zero_price
  refuse_if (o.operation.quantity == 0) zero_quantity
  refuse_if
      (not (is_some (account_in b.state o.signer))
        && not (any (λ (d : Deposit). d.account == o.signer) b.deposits))
      (unknown_account o.signer)
  refuse_if (not (any (λ (m : MarketConfig). m.id == o.operation.market_id) b.config.markets))
      (unknown_market o.operation.market_id)
  refuse_if (contains o.sequence b.sequences) (duplicate_sequence o.sequence)
  refuse_if (ltb o.operation.nonce (next_nonce_of (account_in b.state o.signer)))
      (invalid_nonce o.signer)
  refuse_if (is_nonce_used (lookup o.signer b.nonces) o.operation.nonce)
      (duplicate_nonce o.signer o.operation.nonce)
  refuse_if (is_full_for b o.signer) too_many_accounts
  refuse_if (not (ltb (length b.orders) (2 ^ 32))) order_index_overflow
  give (record b {
    sequences = insert o.sequence b.sequences;
    nonces = change_entry o.signer [] (insert o.operation.nonce) b.nonces;
    touched_accounts = insert o.signer b.touched_accounts;
    books =
        change_entry o.operation.market_id (record { buys = []; sells = [] })
          (push_index o.operation.side (length b.orders)) b.books;
    orders = b.orders ++ (o ∷ []);
  })

-- The fold over the withdrawals of the same account and asset.
abbrev pub already_withdrawing : ℕ → AccountId → AssetId → List SignedWithdrawal → HostResult ℕ
already_withdrawing sum id asset [] = give sum
already_withdrawing sum id asset (w ∷ ws) =
    let skipped = already_withdrawing sum id asset ws in
    if w.signer == id && w.operation.asset == asset
    then (do
      sum' ← give_or arithmetic_overflow (checked_add sum w.operation.amount)
      already_withdrawing sum' id asset ws)
    else skipped

-- `BatchBuilder::withdraw`
unfoldable pub add_withdrawal : BatchBuilder → SignedWithdrawal → HostResult BatchBuilder
unfolding account_in balance
add_withdrawal b w = do
  refuse_if (leb max_withdrawals_per_batch (length b.withdrawals)) too_many_withdrawals
  refuse_if (w.operation.amount == 0) zero_withdrawal_amount
  refuse_if (not (is_some (asset_of b.config w.operation.asset))) (unknown_asset w.operation.asset)
  account ← give_or (unknown_account w.signer) (account_in b.state w.signer)
  already ← already_withdrawing 0 w.signer w.operation.asset b.withdrawals
  required ← give_or arithmetic_overflow (checked_add already w.operation.amount)
  refuse_if (ltb (balance account w.operation.asset) required)
      (insufficient_balance w.signer w.operation.asset (balance account w.operation.asset) required)
  refuse_if (ltb w.operation.nonce account.next_nonce) (invalid_nonce w.signer)
  refuse_if (is_nonce_used (lookup w.signer b.nonces) w.operation.nonce)
      (duplicate_nonce w.signer w.operation.nonce)
  refuse_if (is_full_for b w.signer) too_many_accounts
  give (record b {
    nonces = change_entry w.signer [] (insert w.operation.nonce) b.nonces;
    touched_accounts = insert w.signer b.touched_accounts;
    withdrawals = b.withdrawals ++ (w ∷ []);
  })

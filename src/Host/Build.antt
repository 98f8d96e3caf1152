-- ===== src/Host/Build.antt =====
-- `BatchBuilder::build`, crates/host/src/batch_builder.rs.
use zk_clob.Prelude.{
  ℕ, Bool, false, not, Option, some, Search, found, vacant, List, [], ◌∷◌, map, get_elem?,
  sort_unstable, binary_search_by_key, checked_add_u64, ◌==◌,
}
use zk_clob.Types.Ids.{AccountId, MarketId}
use zk_clob.Types.Operations.{Deposit, ForcedWithdrawal, SignedWithdrawal}
use zk_clob.Types.Order.{Side, SequencedOrder, compare_priority, with_sequence}
use zk_clob.Types.Batch.{MarketOrderBook, BatchInput}
use zk_clob.Types.Errors.{Result, ok, err, panic}
use zk_clob.Hashing.{Crypto}
use zk_clob.State.{state_root}
use zk_clob.Settlement.Validation.Books.{is_less}
use zk_clob.Host.Errors.{HostResult, give, crash, ◌>>=◌, ◌>>◌, refuse_if, give_or, invalid_nonce}
use zk_clob.Host.Tree.{AccountTree, account_in, tree_witness}
use zk_clob.Host.Batches.{Sides, BatchBuilder, next_nonce_of}

-- The nonces of an account, from the one expected.
unfoldable pub check_nonces_of : AccountId → ℕ → List ℕ → HostResult (Unit {0})
check_nonces_of id expected [] = give tt
check_nonces_of id expected (n ∷ ns) = do
  refuse_if (not (n == expected)) (invalid_nonce id)
  next ← give_or (invalid_nonce id) (checked_add_u64 expected 1)
  check_nonces_of id next ns

unfoldable pub check_nonces : AccountTree → List (AccountId × List ℕ) → HostResult (Unit {0})
unfolding check_nonces_of account_in
check_nonces state [] = give tt
check_nonces state (e ∷ es) = do
  check_nonces_of e.0 (next_nonce_of (account_in state e.0)) e.1
  check_nonces state es

abbrev pub expect_found : Search → HostResult ℕ
expect_found (found i) = give i
expect_found (vacant i) = crash

-- The closure `account_index`: the rank of an account among the touched ones.
abbrev pub rank_of : List AccountId → AccountId → HostResult ℕ
rank_of touched id = expect_found (binary_search_by_key (λ k. k) touched id)

-- `into_iter().map(...).collect()`
abbrev pub map_all {ℓ κ} :
    {A : Type ℓ} {B : Type κ} → (A → HostResult B) → List A → HostResult (List B)
map_all f [] = give []
map_all f (x ∷ xs) = do y ← f x; ys ← map_all f xs; give (y ∷ ys)

-- The four `with_account_index`.
abbrev pub index_deposit : List AccountId → Deposit → HostResult Deposit
index_deposit touched d = do
  i ← rank_of touched d.account
  give (record d { account_index = some i })

abbrev pub index_forced_withdrawal : List AccountId → ForcedWithdrawal → HostResult ForcedWithdrawal
index_forced_withdrawal touched w = do
  i ← rank_of touched w.account
  give (record w { account_index = some i })

abbrev pub index_withdrawal : List AccountId → SignedWithdrawal → HostResult SignedWithdrawal
index_withdrawal touched w = do
  i ← rank_of touched w.signer
  give (record w { account_index = some i })

abbrev pub index_order : List AccountId → SequencedOrder → HostResult SequencedOrder
index_order touched o = do
  i ← rank_of touched o.signer
  give (with_sequence (record o.signed_order { account_index = some i }) o.sequence)

-- Whether the order at an index has priority over the one at another; the indices are in range.
abbrev pub precedes : Side → Option SequencedOrder → Option SequencedOrder → Bool
precedes side (some l) (some r) = is_less (compare_priority side l r)
precedes side _ _ = false

abbrev pub order_book : List SequencedOrder → MarketId × Sides → MarketOrderBook
order_book orders e = record {
  market_id = e.0;
  buy_indices =
      sort_unstable (λ l r. precedes Side.buy (get_elem? orders l) (get_elem? orders r)) e.1.buys;
  sell_indices =
      sort_unstable (λ l r. precedes Side.sell (get_elem? orders l) (get_elem? orders r)) e.1.sells;
}

-- `expect`, of a result of the core.
abbrev pub demand_ok {ℓ} : {A : Type ℓ} → Result A → HostResult A
demand_ok (ok a) = give a
demand_ok (err e) = crash
demand_ok panic = crash

-- `BatchBuilder::build`
unfoldable pub build_batch : Crypto → BatchBuilder → HostResult BatchInput
unfolding check_nonces tree_witness state_root
build_batch c b = do
  check_nonces b.state b.nonces
  witness ← tree_witness c b.state b.touched_accounts
  deposits ← map_all (index_deposit b.touched_accounts) b.deposits
  forced_withdrawals ← map_all (index_forced_withdrawal b.touched_accounts) b.forced_withdrawals
  orders ← map_all (index_order b.touched_accounts) b.orders
  withdrawals ← map_all (index_withdrawal b.touched_accounts) b.withdrawals
  root ← demand_ok (state_root c b.state.state)
  give (record {
    domain = b.domain;
    batch_id = b.batch_id;
    expected_old_state_root = root;
    state = witness;
    old_deposit_cursor = b.old_deposit_cursor;
    deposits = deposits;
    old_forced_withdrawal_cursor = b.old_forced_withdrawal_cursor;
    forced_withdrawals = forced_withdrawals;
    orders = orders;
    withdrawals = withdrawals;
    order_books = map (order_book orders) b.books;
    config = b.config;
  })

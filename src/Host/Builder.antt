-- ===== src/Host/Builder.antt =====
-- The invariant of the batch builder at `new`, `deposit`, `forced_withdraw`, `order` and `withdraw`.
use zk_clob.Prelude.{
  ℕ, not, List, [], ◌∷◌, ◌++◌, length, All-imp, ◌&&◌, any, is_some, Bool-cases, inl, inr,
  checked_add, checked_add_u64, ltb, leb, ◌==◌, ◌^◌,
}
use zk_clob.Types.Ids.{AccountId, AssetId, MarketId}
use zk_clob.Types.Operations.{Deposit, ForcedWithdrawal, SignedWithdrawal}
use zk_clob.Types.Order.{SequencedOrder}
use zk_clob.Types.Config.{
  MarketConfig, ExchangeConfig, asset_of, max_deposits_per_batch, max_orders_per_batch,
  max_withdrawals_per_batch, max_forced_withdrawals_per_batch,
}
use zk_clob.Types.Batch.{SigningDomain}
use zk_clob.Account.{balance}
use zk_clob.Host.Errors.{
  Gives, Gives-bind, refuse_if-bind, give_or-bind, too_many_deposits, deposit_cursor_overflow,
  invalid_deposit_cursor, zero_deposit_amount, unknown_asset, too_many_accounts,
  too_many_forced_withdrawals, forced_withdrawal_cursor_overflow, invalid_forced_withdrawal_cursor,
  zero_forced_withdrawal_amount, too_many_orders, zero_price, zero_quantity, unknown_account,
  unknown_market, duplicate_sequence, invalid_nonce, duplicate_nonce, order_index_overflow,
  too_many_withdrawals, zero_withdrawal_amount, arithmetic_overflow, insufficient_balance,
}
use zk_clob.Host.Tree.{lookup, AccountTree, account_in}
use zk_clob.Host.Batches.{
  contains, insert, Sides, BatchBuilder, batch_builder, is_full_for, add_deposit,
  add_forced_withdrawal, next_nonce_of, is_nonce_used, add_order, already_withdrawing,
  add_withdrawal,
}
use zk_clob.Host.Ranks.{
  insert-IsAscending, contains-insert, contains-insert_other, AreTouched, IsBuilder,
}

-- The operations still name touched accounts when one more account is touched.
module _ {A : Type 0} (account : A → AccountId) where
  insert-AreTouched :
      (k : ℕ) (touched : List AccountId) (xs : List A)
      → AreTouched account touched xs
      → AreTouched account (insert k touched) xs
  insert-AreTouched k touched xs h = All-imp (λ x. contains-insert_other (account x) k touched) xs h

  snoc-AreTouched :
      (touched : List AccountId) (xs : List A) (x : A)
      → AreTouched account touched xs
      → AreTouched account (insert (account x) touched) (xs ++ (x ∷ []))
  snoc-AreTouched touched [] x h = (contains-insert (account x) touched, tt)
  snoc-AreTouched touched (y ∷ ys) x h =
      (contains-insert_other (account y) (account x) touched h.0, snoc-AreTouched touched ys x h.1)

-- An empty builder satisfies the invariant.
pub batch_builder-IsBuilder :
    (state : AccountTree) (config : ExchangeConfig) (domain : SigningDomain)
    (id deposits requests : ℕ)
    → IsBuilder (batch_builder state config domain id deposits requests)
unfolding batch_builder
batch_builder-IsBuilder state config domain id deposits requests = record {
  ascending = tt;
  deposits = tt;
  forced_withdrawals = tt;
  orders = tt;
  withdrawals = tt;
}

pub add_deposit-IsBuilder :
    (b : BatchBuilder) (d : Deposit) → IsBuilder b → Gives IsBuilder (add_deposit b d)
unfolding add_deposit
add_deposit-IsBuilder b d h =
    refuse_if-bind IsBuilder (leb max_deposits_per_batch (length b.deposits)) too_many_deposits _ (
      give_or-bind IsBuilder deposit_cursor_overflow
        (checked_add_u64 b.old_deposit_cursor (length b.deposits)) _
        (λ expected.
          refuse_if-bind IsBuilder (not (d.id == expected)) (invalid_deposit_cursor expected d.id) _
            (refuse_if-bind IsBuilder (d.amount == 0) zero_deposit_amount _ (
              refuse_if-bind IsBuilder (not (is_some (asset_of b.config d.asset)))
                (unknown_asset d.asset) _
                (refuse_if-bind IsBuilder (is_full_for b d.account) too_many_accounts _ (kept))))))
  where
    kept : IsBuilder (record b {
      touched_accounts = insert d.account b.touched_accounts;
      deposits = b.deposits ++ (d ∷ []);
    })
    kept = record {
      ascending = insert-IsAscending d.account b.touched_accounts h.ascending;
      deposits =
          snoc-AreTouched (λ (d : Deposit). d.account) b.touched_accounts b.deposits d h.deposits;
      forced_withdrawals =
          insert-AreTouched (λ (w : ForcedWithdrawal). w.account) d.account b.touched_accounts
            b.forced_withdrawals h.forced_withdrawals;
      orders =
          insert-AreTouched (λ (o : SequencedOrder). o.signer) d.account b.touched_accounts b.orders
            h.orders;
      withdrawals =
          insert-AreTouched (λ (w : SignedWithdrawal). w.signer) d.account b.touched_accounts
            b.withdrawals h.withdrawals;
    }

pub add_forced_withdrawal-IsBuilder :
    (b : BatchBuilder) (w : ForcedWithdrawal)
    → IsBuilder b
    → Gives IsBuilder (add_forced_withdrawal b w)
unfolding add_forced_withdrawal
add_forced_withdrawal-IsBuilder b w h =
    refuse_if-bind IsBuilder (leb max_forced_withdrawals_per_batch (length b.forced_withdrawals))
      too_many_forced_withdrawals _
      (give_or-bind IsBuilder forced_withdrawal_cursor_overflow
        (checked_add_u64 b.old_forced_withdrawal_cursor (length b.forced_withdrawals)) _
        (λ expected.
          refuse_if-bind IsBuilder (not (w.id == expected))
            (invalid_forced_withdrawal_cursor expected w.id) _
            (refuse_if-bind IsBuilder (w.amount == 0) zero_forced_withdrawal_amount _
              (refuse_if-bind IsBuilder (is_full_for b w.account) too_many_accounts _ (kept)))))
  where
    kept : IsBuilder (record b {
      touched_accounts = insert w.account b.touched_accounts;
      forced_withdrawals = b.forced_withdrawals ++ (w ∷ []);
    })
    kept = record {
      ascending = insert-IsAscending w.account b.touched_accounts h.ascending;
      deposits =
          insert-AreTouched (λ (d : Deposit). d.account) w.account b.touched_accounts b.deposits
            h.deposits;
      forced_withdrawals =
          snoc-AreTouched (λ (w : ForcedWithdrawal). w.account) b.touched_accounts
            b.forced_withdrawals w h.forced_withdrawals;
      orders =
          insert-AreTouched (λ (o : SequencedOrder). o.signer) w.account b.touched_accounts b.orders
            h.orders;
      withdrawals =
          insert-AreTouched (λ (w : SignedWithdrawal). w.signer) w.account b.touched_accounts
            b.withdrawals h.withdrawals;
    }

pub add_order-IsBuilder :
    (b : BatchBuilder) (o : SequencedOrder) → IsBuilder b → Gives IsBuilder (add_order b o)
unfolding add_order
add_order-IsBuilder b o h =
    refuse_if-bind IsBuilder (leb max_orders_per_batch (length b.orders)) too_many_orders _ (
      refuse_if-bind IsBuilder (o.operation.price == 0) zero_price _ (
        refuse_if-bind IsBuilder (o.operation.quantity == 0) zero_quantity _ (
          refuse_if-bind IsBuilder
            (not (is_some (account_in b.state o.signer))
              && not (any (λ (d : Deposit). d.account == o.signer) b.deposits))
            (unknown_account o.signer) _
            (refuse_if-bind IsBuilder
              (not (any (λ (m : MarketConfig). m.id == o.operation.market_id) b.config.markets))
              (unknown_market o.operation.market_id) _
              (refuse_if-bind IsBuilder (contains o.sequence b.sequences)
                (duplicate_sequence o.sequence) _
                (refuse_if-bind IsBuilder
                  (ltb o.operation.nonce (next_nonce_of (account_in b.state o.signer)))
                  (invalid_nonce o.signer) _
                  (refuse_if-bind IsBuilder
                    (is_nonce_used (lookup o.signer b.nonces) o.operation.nonce)
                    (duplicate_nonce o.signer o.operation.nonce) _
                    (refuse_if-bind IsBuilder (is_full_for b o.signer) too_many_accounts _ (
                      refuse_if-bind IsBuilder (not (ltb (length b.orders) (2 ^ 32)))
                        order_index_overflow _ ((kept _ _ _)))))))))))
  where
    kept :
        (sequences : List ℕ) (nonces : List (AccountId × List ℕ)) (books : List (MarketId × Sides))
        → IsBuilder (record b {
          sequences = sequences;
          nonces = nonces;
          touched_accounts = insert o.signer b.touched_accounts;
          books = books;
          orders = b.orders ++ (o ∷ []);
        })
    kept sequences nonces books = record {
      ascending = insert-IsAscending o.signer b.touched_accounts h.ascending;
      deposits =
          insert-AreTouched (λ (d : Deposit). d.account) o.signer b.touched_accounts b.deposits
            h.deposits;
      forced_withdrawals =
          insert-AreTouched (λ (w : ForcedWithdrawal). w.account) o.signer b.touched_accounts
            b.forced_withdrawals h.forced_withdrawals;
      orders =
          snoc-AreTouched (λ (o : SequencedOrder). o.signer) b.touched_accounts b.orders o h.orders;
      withdrawals =
          insert-AreTouched (λ (w : SignedWithdrawal). w.signer) o.signer b.touched_accounts
            b.withdrawals h.withdrawals;
    }

already_withdrawing-Gives :
    (sum : ℕ) (id : AccountId) (asset : AssetId) (ws : List SignedWithdrawal)
    → Gives (λ _. Unit {0}) (already_withdrawing sum id asset ws)
already_withdrawing-Gives sum id asset [] = tt
already_withdrawing-Gives sum id asset (w ∷ ws) =
    elim (Bool-cases (w.signer == id && w.operation.asset == asset)) [
      | inl same ↦ rw same (
          give_or-bind (λ _. Unit {0}) arithmetic_overflow (checked_add sum w.operation.amount) _
            (λ sum'. already_withdrawing-Gives sum' id asset ws))
      | inr other ↦ rw other (already_withdrawing-Gives sum id asset ws)
    ]

pub add_withdrawal-IsBuilder :
    (b : BatchBuilder) (w : SignedWithdrawal) → IsBuilder b → Gives IsBuilder (add_withdrawal b w)
unfolding add_withdrawal
add_withdrawal-IsBuilder b w h =
    refuse_if-bind IsBuilder (leb max_withdrawals_per_batch (length b.withdrawals))
      too_many_withdrawals _
      (refuse_if-bind IsBuilder (w.operation.amount == 0) zero_withdrawal_amount _ (
        refuse_if-bind IsBuilder (not (is_some (asset_of b.config w.operation.asset)))
          (unknown_asset w.operation.asset) _
          (give_or-bind IsBuilder (unknown_account w.signer) (account_in b.state w.signer) _
            (λ account.
              Gives-bind (λ _. Unit {0}) IsBuilder _ _
                (already_withdrawing-Gives 0 w.signer w.operation.asset b.withdrawals)
                (λ already _.
                  give_or-bind IsBuilder arithmetic_overflow
                    (checked_add already w.operation.amount) _
                    (λ required.
                      refuse_if-bind IsBuilder (ltb (balance account w.operation.asset) required)
                        (insufficient_balance w.signer w.operation.asset
                          (balance account w.operation.asset) required)
                        _
                        (refuse_if-bind IsBuilder (ltb w.operation.nonce account.next_nonce)
                          (invalid_nonce w.signer) _
                          (refuse_if-bind IsBuilder
                            (is_nonce_used (lookup w.signer b.nonces) w.operation.nonce)
                            (duplicate_nonce w.signer w.operation.nonce) _
                            (refuse_if-bind IsBuilder (is_full_for b w.signer) too_many_accounts _
                              ((kept _)))))))))))
  where
    kept :
        (nonces : List (AccountId × List ℕ))
        → IsBuilder (record b {
          nonces = nonces;
          touched_accounts = insert w.signer b.touched_accounts;
          withdrawals = b.withdrawals ++ (w ∷ []);
        })
    kept nonces = record {
      ascending = insert-IsAscending w.signer b.touched_accounts h.ascending;
      deposits =
          insert-AreTouched (λ (d : Deposit). d.account) w.signer b.touched_accounts b.deposits
            h.deposits;
      forced_withdrawals =
          insert-AreTouched (λ (w : ForcedWithdrawal). w.account) w.signer b.touched_accounts
            b.forced_withdrawals h.forced_withdrawals;
      orders =
          insert-AreTouched (λ (o : SequencedOrder). o.signer) w.signer b.touched_accounts b.orders
            h.orders;
      withdrawals =
          snoc-AreTouched (λ (w : SignedWithdrawal). w.signer) b.touched_accounts b.withdrawals w
            h.withdrawals;
    }

-- ===== src/Settlement/Validation/Limits.antt =====
-- What `validate_limits` lets through.
use zk_clob.Prelude.{ℕ, ◌≤◌, ◌≡◌, false, length, ltb, arith}
use zk_clob.Types.Config.{
  max_deposits_per_batch, max_orders_per_batch, max_withdrawals_per_batch,
  max_forced_withdrawals_per_batch, max_touched_accounts_per_batch,
}
use zk_clob.Types.Batch.{BatchInput}
use zk_clob.Types.Errors.{
  too_many_accounts, too_many_orders, too_many_deposits, too_many_withdrawals,
  too_many_forced_withdrawals, too_many_assets, too_many_markets,
}
use zk_clob.Types.Results.{Safe, Safe-bind, Safe-imp, fail_if-Safe}
use zk_clob.Settlement.Validation.{max_assets, max_markets, validate_limits}

-- A batch of bounded size.
pub record IsWithinLimits (input : BatchInput) : Type 0 where
  pub accounts : length input.state.accounts ≤ max_touched_accounts_per_batch
  pub orders : length input.orders ≤ max_orders_per_batch
  pub deposits : length input.deposits ≤ max_deposits_per_batch
  pub withdrawals : length input.withdrawals ≤ max_withdrawals_per_batch
  pub forced_withdrawals : length input.forced_withdrawals ≤ max_forced_withdrawals_per_batch
  pub assets : length input.config.assets ≤ max_assets
  pub markets : length input.config.markets ≤ max_markets
  pub order_books : length input.order_books ≤ max_markets

within : (n bound : ℕ) → ltb bound n ≡ false → n ≤ bound
within n bound e = ground arith

pub validate_limits-Safe :
    (input : BatchInput) → Safe (λ _. IsWithinLimits input) (validate_limits input)
unfolding validate_limits
validate_limits-Safe input =
    Safe-bind (λ _. ltb max_touched_accounts_per_batch (length input.state.accounts) ≡ false) Q _ _
      (fail_if-Safe (ltb max_touched_accounts_per_batch (length input.state.accounts))
        too_many_accounts)
      (λ _ a.
        Safe-bind (λ _. ltb max_orders_per_batch (length input.orders) ≡ false) Q _ _
          (fail_if-Safe (ltb max_orders_per_batch (length input.orders)) too_many_orders)
          (λ _ o.
            Safe-bind (λ _. ltb max_deposits_per_batch (length input.deposits) ≡ false) Q _ _
              (fail_if-Safe (ltb max_deposits_per_batch (length input.deposits)) too_many_deposits)
              (λ _ d.
                Safe-bind (λ _. ltb max_withdrawals_per_batch (length input.withdrawals) ≡ false) Q
                  _ _
                  (fail_if-Safe (ltb max_withdrawals_per_batch (length input.withdrawals))
                    too_many_withdrawals)
                  (λ _ w.
                    Safe-bind
                      (λ _.
                        ltb max_forced_withdrawals_per_batch (length input.forced_withdrawals)
                        ≡ false)
                      Q _ _
                      (fail_if-Safe
                        (ltb max_forced_withdrawals_per_batch (length input.forced_withdrawals))
                        too_many_forced_withdrawals)
                      (λ _ f.
                        Safe-bind (λ _. ltb max_assets (length input.config.assets) ≡ false) Q _ _
                          (fail_if-Safe (ltb max_assets (length input.config.assets))
                            too_many_assets)
                          (λ _ s.
                            Safe-bind (λ _. ltb max_markets (length input.config.markets) ≡ false) Q
                              _ _
                              (fail_if-Safe (ltb max_markets (length input.config.markets))
                                too_many_markets)
                              (λ _ m.
                                Safe-imp (λ _. ltb max_markets (length input.order_books) ≡ false) Q
                                  _
                                  (fail_if-Safe (ltb max_markets (length input.order_books))
                                    too_many_markets)
                                  (λ _ b. record {
                                    accounts = within _ _ a;
                                    orders = within _ _ o;
                                    deposits = within _ _ d;
                                    withdrawals = within _ _ w;
                                    forced_withdrawals = within _ _ f;
                                    assets = within _ _ s;
                                    markets = within _ _ m;
                                    order_books = within _ _ b;
                                  }))))))))
  where
    Q : Unit {0} → Type 0
    Q _ = IsWithinLimits input

-- ===== src/Settlement/Settles.antt =====
-- `settle_batch` between the conservation baseline and the output, settlement/mod.rs: every step in
-- turn.
use zk_clob.Prelude.{ℕ, ◌+◌, ◌<◌, refl, not, none, length, is_empty, u64_mod}
use zk_clob.Types.Ids.{B256}
use zk_clob.Types.Batch.{BatchInput}
use zk_clob.Types.Errors.{asset_conservation_violation}
use zk_clob.Types.Results.{Safe, Safe-bind, Safe-of_Succeeds, Any, fail_if-Any}
use zk_clob.Hashing.{Crypto, signing_domain_hash}
use zk_clob.Settlement.{settle_operations}
use zk_clob.Settlement.Assets.{AssetTracker}
use zk_clob.Settlement.Assets.Safety.{subtract_forced_withdrawals-Any, subtract_accounts-Any}
use zk_clob.Settlement.Balances.{apply_forced_withdrawals}
use zk_clob.Settlement.Balances.Ledger.{ids, IsLedger, length_of_IsShifted}
use zk_clob.Settlement.Balances.Deposits.{IsGrown, apply_deposits-Safe}
use zk_clob.Settlement.Balances.Forced.{Executes, apply_forced_withdrawals-Succeeds}
use zk_clob.Settlement.Balances.Withdrawals.{IsWithdrawn, apply_withdrawals-IsWithdrawn}
use zk_clob.Settlement.Nonces.Replay.{IsReplayFree, validate_nonces-IsReplayFree}
use zk_clob.Settlement.Nonces.Consume.{
  order_uses, withdrawal_uses, IsAdvanced, consume_nonces-IsAdvanced,
}
use zk_clob.Settlement.Matching.Markets.{SettledBooks, match_and_settle-Safe}
use zk_clob.Settlement.Validation.Cursors.{RequestsFit, validate_forced_withdrawals-Safe}
use zk_clob.Settlement.Validation.Config.Valid.{AreAssets}
use zk_clob.Settlement.Validation.Operations.{validate_orders-Safe, validate_withdrawals-Safe}
use zk_clob.Settlement.Validation.Books.Complete.{
  AreComplete, AreBooks-ready, build_validated_books-Safe,
}
use zk_clob.Settlement.Steps.{
  IsIndexedBatch, IsSettled, IsPrepared, ValidOrders, ValidWithdrawals, orders-IsIndexed,
  withdrawals-LeadsTo, withdrawals-IsSigners, IsPrepared-of_parts, IsSettled-of_parts,
}

module _ (c : Crypto) (input : BatchInput) where
  pub settle_operations-Safe :
      (tracker : AssetTracker)
      → IsLedger input.state.accounts
      → AreAssets none input.config.assets
      → input.old_forced_withdrawal_cursor < u64_mod
      → IsIndexedBatch input
      → Safe (IsSettled c input) (settle_operations c input tracker)
  unfolding settle_operations
  settle_operations-Safe tracker ledger assets fits indexed =
      Safe-bind (IsGrown input.state.accounts input.deposits) (IsSettled c input) _ _
        (apply_deposits-Safe input.state.accounts input.deposits ledger indexed.deposits)
        (λ d g.
          Safe-bind (λ _. RequestsFit input.old_forced_withdrawal_cursor input.forced_withdrawals)
            (IsSettled c input) _ _
            (validate_forced_withdrawals-Safe input.old_forced_withdrawal_cursor
              input.forced_withdrawals fits)
            (λ _ q.
              Safe-bind (Executes d input.forced_withdrawals) (IsSettled c input) _ _
                (Safe-of_Succeeds (Executes d input.forced_withdrawals)
                  (apply_forced_withdrawals d input.forced_withdrawals)
                  (apply_forced_withdrawals-Succeeds d input.forced_withdrawals g.ledger))
                (λ x e.
                  Safe-bind Any (IsSettled c input) _ _
                    (subtract_forced_withdrawals-Any tracker x.1)
                    (λ t _.
                      Safe-bind (λ _. ValidWithdrawals c input x.0) (IsSettled c input) _ _
                        (validate_withdrawals-Safe c x.0 input.config domain input.withdrawals
                          indexed.withdrawals)
                        (λ _ vw.
                          Safe-bind (λ _. ValidOrders c input x.0) (IsSettled c input) _ _
                            (validate_orders-Safe c x.0 input.config domain input.orders
                              indexed.orders)
                            (λ _ vo.
                              Safe-bind (λ _. IsReplayFree x.0 input.orders input.withdrawals)
                                (IsSettled c input) _ _
                                (validate_nonces-IsReplayFree x.0 input.orders input.withdrawals
                                  (orders-IsIndexed c input x.0 vo vw (length x.0) refl)
                                  (withdrawals-LeadsTo c input x.0 vo vw (length x.0) refl))
                                (λ _ f.
                                  Safe-bind (IsWithdrawn input.withdrawals x.0) (IsSettled c input)
                                    _ _
                                    (apply_withdrawals-IsWithdrawn x.0 input.withdrawals
                                      e.shifted.ledger
                                      (withdrawals-LeadsTo c input x.0 vo vw (length x.0) refl)
                                      (withdrawals-IsSigners c input x.0 vo vw))
                                    (λ w s.
                                      Safe-bind (IsAdvanced uses w) (IsSettled c input) _ _
                                        (consume_nonces-IsAdvanced w input.orders input.withdrawals
                                          s.0.ledger
                                          (orders-IsIndexed c input x.0 vo vw (length w)
                                            (length_of_IsShifted _ _ x.0 w s.0))
                                          (withdrawals-LeadsTo c input x.0 vo vw (length w)
                                            (length_of_IsShifted _ _ x.0 w s.0)))
                                        (λ y a.
                                          let p : IsPrepared c input x.0 y =
                                            IsPrepared-of_parts c input x.0 vo vw w y s a f in
                                          Safe-bind
                                            (AreComplete input.orders input.config
                                              input.order_books)
                                            (IsSettled c input) _ _
                                            (build_validated_books-Safe input.orders
                                              input.order_books input.config)
                                            (λ bs b.
                                              Safe-bind (SettledBooks input.config y bs)
                                                (IsSettled c input) _ _
                                                (match_and_settle-Safe y bs input.config p.ledger (
                                                  AreBooks-ready (ids y) input.orders input.config
                                                    none input.order_books bs assets p.ready
                                                    b.each))
                                                (λ r m.
                                                  Safe-bind Any (IsSettled c input) _ _
                                                    (subtract_accounts-Any t r.0)
                                                    (λ left _.
                                                      Safe-bind Any (IsSettled c input) _ _
                                                        (fail_if-Any (not (is_empty left))
                                                          asset_conservation_violation)
                                                        (λ _ _.
                                                          IsSettled-of_parts c input d x.0 x.1 g q e
                                                            y bs r p b m)))))))))))))
    where
      domain : B256
      domain = signing_domain_hash c input.domain

      uses : ℕ → ℕ
      uses i = order_uses i input.orders + withdrawal_uses i input.withdrawals

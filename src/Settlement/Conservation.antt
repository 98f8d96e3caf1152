-- ===== src/Settlement/Conservation.antt =====
-- The conservation check of `settle_batch`, settlement/mod.rs.
use zk_clob.Prelude.{
  ℕ, ◌+◌, ◌<◌, ◌≡◌, refl, not, none, List, [], length, All, is_empty, u64_mod, arith,
}
use zk_clob.Types.Ids.{AssetId, B256}
use zk_clob.Types.Account.{Account}
use zk_clob.Types.Operations.{Deposit, SignedWithdrawal}
use zk_clob.Types.Batch.{BatchInput}
use zk_clob.Types.Errors.{Result, ok, ◌>>=◌, ◌>>◌, fail_if, asset_conservation_violation}
use zk_clob.Types.Results.{Safe, Safe-bind, Safe-imp, Safe-of_Succeeds, bind-cong}
use zk_clob.Hashing.{Crypto, signing_domain_hash}
use zk_clob.Settlement.{Settled, baseline, settle_operations}
use zk_clob.Settlement.Assets.{AssetTracker, subtract_forced_withdrawals, subtract_accounts}
use zk_clob.Settlement.Assets.Amounts.{amount_of, IsTracker}
use zk_clob.Settlement.Assets.Check.{
  IsRaised, IsLowered, LowerResult-Safe, add_accounts-IsRaised, add_deposits-IsRaised,
  subtract_withdrawals-result, subtract_forced_withdrawals-result, subtract_accounts_iff,
}
use zk_clob.Settlement.Balances.{apply_deposits, apply_forced_withdrawals, apply_withdrawals}
use zk_clob.Settlement.Balances.Ledger.{total, ids, IsLedger, length_of_IsShifted}
use zk_clob.Settlement.Balances.Deposits.{deposited, IsGrown, apply_deposits-Safe}
use zk_clob.Settlement.Balances.Forced.{drained, Executes, apply_forced_withdrawals-Succeeds}
use zk_clob.Settlement.Balances.Withdrawals.{withdrawn, IsWithdrawn, apply_withdrawals-IsWithdrawn}
use zk_clob.Settlement.Nonces.{validate_nonces, consume_nonces}
use zk_clob.Settlement.Nonces.Replay.{IsReplayFree, validate_nonces-IsReplayFree}
use zk_clob.Settlement.Nonces.Consume.{
  order_uses, withdrawal_uses, IsAdvanced, consume_nonces-IsAdvanced,
}
use zk_clob.Settlement.Matching.{match_and_settle}
use zk_clob.Settlement.Matching.Markets.{SettledBooks, match_and_settle-Safe}
use zk_clob.Settlement.Validation.{
  validate_forced_withdrawals, validate_orders, validate_withdrawals,
}
use zk_clob.Settlement.Validation.Books.{build_validated_books}
use zk_clob.Settlement.Validation.Books.Complete.{
  AreComplete, AreBooks-ready, build_validated_books-Safe,
}
use zk_clob.Settlement.Validation.Config.Valid.{AreAssets}
use zk_clob.Settlement.Validation.Cursors.{RequestsFit, validate_forced_withdrawals-Safe}
use zk_clob.Settlement.Validation.Operations.{validate_orders-Safe, validate_withdrawals-Safe}
use zk_clob.Settlement.Steps.{
  IsIndexedBatch, IsSettled, IsPrepared, ValidOrders, ValidWithdrawals, orders-IsIndexed,
  withdrawals-LeadsTo, withdrawals-IsSigners, IsPrepared-of_parts, IsSettled-of_parts,
}

-- What the baseline tracks: the totals with the deposits and without the withdrawals.
abbrev pub IsBaseline : List Account → List Deposit → List SignedWithdrawal → AssetTracker → Type 0
IsBaseline xs ds ws t =
    IsTracker t × ((a : AssetId) → amount_of a t + withdrawn a ws ≡ total a xs + deposited a ds)

-- On a ledger and deposits that are none of them for nothing, `baseline` never panics, and the
-- tracker that it returns has one positive entry for an asset: the total of the accounts with what is
-- deposited and without what is withdrawn.
pub baseline-IsBaseline :
    (xs : List Account) (ds : List Deposit) (ws : List SignedWithdrawal)
    → IsLedger xs
    → All (λ (d : Deposit). 0 < d.amount) ds
    → Safe (IsBaseline xs ds ws) (baseline xs ds ws)
baseline-IsBaseline xs ds ws l p =
    Safe-bind (IsRaised [] (λ a. total a xs)) (IsBaseline xs ds ws) _ _
      (add_accounts-IsRaised [] xs tt l)
      (λ t i.
        Safe-bind (IsRaised t (λ a. deposited a ds)) (IsBaseline xs ds ws) _ _
          (add_deposits-IsRaised t ds i.tracker p)
          (λ t' j.
            Safe-imp (IsLowered t' (λ a. withdrawn a ws)) (IsBaseline xs ds ws) _
              (LowerResult-Safe t' (λ a. withdrawn a ws) _
                (subtract_withdrawals-result t' ws j.tracker))
              (λ t'' k. (k.0, λ a. omega (arith, i.amounts a, j.amounts a, k.1 a)))))

module _ (c : Crypto) (input : BatchInput) where
  -- `settle_operations` without the check at its end.
  unfoldable pub settle_unchecked : AssetTracker → Result Settled
  settle_unchecked tracker = do
    deposited ← apply_deposits input.state.accounts input.deposits
    validate_forced_withdrawals input.forced_withdrawals input.old_forced_withdrawal_cursor
    drained ← apply_forced_withdrawals deposited input.forced_withdrawals
    tracker' ← subtract_forced_withdrawals tracker drained.1
    validate_withdrawals c input.withdrawals drained.0 input.config
        (signing_domain_hash c input.domain)
    validate_orders c input.orders drained.0 input.config (signing_domain_hash c input.domain)
    validate_nonces input.orders input.withdrawals drained.0
    withdrawn ← apply_withdrawals drained.0 input.withdrawals
    consumed ← consume_nonces withdrawn input.orders input.withdrawals
    books ← build_validated_books input.orders input.order_books input.config
    matched ← match_and_settle consumed books input.config
    ok (record { accounts = matched.0; trades = matched.1; forced_withdrawals = drained.1 })

  check_passes :
      (tracker tracker' : AssetTracker) (s : Settled)
      → IsBaseline input.state.accounts input.deposits input.withdrawals tracker
      → IsLowered tracker (λ a. drained a s.forced_withdrawals) tracker'
      → IsSettled c input s
      → (subtract_accounts tracker' s.accounts >>= λ remainder.
          fail_if (not (is_empty remainder)) asset_conservation_violation >> ok s)
        ≡ ok s
  check_passes tracker tracker' s b l h =
      rw
        ((subtract_accounts_iff tracker' s.accounts l.0).1
          (λ a. omega (arith, b.1 a, l.1 a, h.conserved a)))
        refl

  -- With the tracker of the baseline, on a ledger, with positive scales, a 64-bit cursor and the
  -- account indices there, the conservation check at the end of a batch never fires: settlement is
  -- the same without it, value and error alike.
  pub settle_unchecked-eq :
      (tracker : AssetTracker)
      → IsBaseline input.state.accounts input.deposits input.withdrawals tracker
      → IsLedger input.state.accounts
      → AreAssets none input.config.assets
      → input.old_forced_withdrawal_cursor < u64_mod
      → IsIndexedBatch input
      → settle_operations c input tracker ≡ settle_unchecked tracker
  unfolding settle_operations settle_unchecked
  settle_unchecked-eq tracker base ledger assets fits indexed =
      bind-cong (IsGrown input.state.accounts input.deposits) _ _ _
        (apply_deposits-Safe input.state.accounts input.deposits ledger indexed.deposits)
        (λ d g.
          bind-cong (λ _. RequestsFit input.old_forced_withdrawal_cursor input.forced_withdrawals) _
            _ _
            (validate_forced_withdrawals-Safe input.old_forced_withdrawal_cursor
              input.forced_withdrawals fits)
            (λ _ q.
              bind-cong (Executes d input.forced_withdrawals) _ _ _
                (Safe-of_Succeeds (Executes d input.forced_withdrawals)
                  (apply_forced_withdrawals d input.forced_withdrawals)
                  (apply_forced_withdrawals-Succeeds d input.forced_withdrawals g.ledger))
                (λ x e.
                  bind-cong (IsLowered tracker (λ a. drained a x.1)) _ _ _
                    (LowerResult-Safe tracker (λ a. drained a x.1)
                      (subtract_forced_withdrawals tracker x.1)
                      (subtract_forced_withdrawals-result tracker x.1 base.0))
                    (λ t low.
                      bind-cong (λ _. ValidWithdrawals c input x.0) _ _ _
                        (validate_withdrawals-Safe c x.0 input.config domain input.withdrawals
                          indexed.withdrawals)
                        (λ _ vw.
                          bind-cong (λ _. ValidOrders c input x.0) _ _ _
                            (validate_orders-Safe c x.0 input.config domain input.orders
                              indexed.orders)
                            (λ _ vo.
                              bind-cong (λ _. IsReplayFree x.0 input.orders input.withdrawals) _ _ _
                                (validate_nonces-IsReplayFree x.0 input.orders input.withdrawals
                                  (orders-IsIndexed c input x.0 vo vw (length x.0) refl)
                                  (withdrawals-LeadsTo c input x.0 vo vw (length x.0) refl))
                                (λ _ f.
                                  bind-cong (IsWithdrawn input.withdrawals x.0) _ _ _
                                    (apply_withdrawals-IsWithdrawn x.0 input.withdrawals
                                      e.shifted.ledger
                                      (withdrawals-LeadsTo c input x.0 vo vw (length x.0) refl)
                                      (withdrawals-IsSigners c input x.0 vo vw))
                                    (λ w s.
                                      bind-cong (IsAdvanced uses w) _ _ _
                                        (consume_nonces-IsAdvanced w input.orders input.withdrawals
                                          s.0.ledger
                                          (orders-IsIndexed c input x.0 vo vw (length w)
                                            (length_of_IsShifted _ _ x.0 w s.0))
                                          (withdrawals-LeadsTo c input x.0 vo vw (length w)
                                            (length_of_IsShifted _ _ x.0 w s.0)))
                                        (λ y a.
                                          let p : IsPrepared c input x.0 y =
                                            IsPrepared-of_parts c input x.0 vo vw w y s a f in
                                          bind-cong
                                            (AreComplete input.orders input.config
                                              input.order_books)
                                            _ _ _
                                            (build_validated_books-Safe input.orders
                                              input.order_books input.config)
                                            (λ bs b.
                                              bind-cong (SettledBooks input.config y bs) _ _ _
                                                (match_and_settle-Safe y bs input.config p.ledger (
                                                  AreBooks-ready (ids y) input.orders input.config
                                                    none input.order_books bs assets p.ready
                                                    b.each))
                                                (λ r m. check_passes tracker t _ base low (
                                                  IsSettled-of_parts c input d x.0 x.1 g q e y bs r
                                                    p b m))))))))))))
    where
      domain : B256
      domain = signing_domain_hash c input.domain

      uses : ℕ → ℕ
      uses i = order_uses i input.orders + withdrawal_uses i input.withdrawals

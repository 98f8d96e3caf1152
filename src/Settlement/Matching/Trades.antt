-- ===== src/Settlement/Matching/Trades.antt =====
-- One trade, `settle_trade` of settlement/matching.rs: its amounts and the balances that it moves.
use zk_clob.Prelude.{
  ℕ, ◌+◌, ◌*◌, ◌/◌, ◌<◌, ◌≡◌, ◌≢◌, refl, false, List, some, length, ◌==◌, checked_mul, checked_add,
  arith,
}
use zk_clob.Types.Ids.{AssetId}
use zk_clob.Types.Account.{Account}
use zk_clob.Types.Operations.{Trade}
use zk_clob.Types.Order.{SequencedOrder}
use zk_clob.Types.Config.{AssetConfig, MarketConfig, FeeConfig, bps_denominator}
use zk_clob.Types.Results.{Safe, Safe-bind, Safe-imp, fail_if-Safe}
use zk_clob.Settlement.Balances.Ledger.{
  IsLedger, IsShifted, no_flow, flow, update_at-debit, update_at-credit, IsShifted-bind,
  IsShifted-flows, length_of_IsShifted,
}
use zk_clob.Settlement.Matching.{Amounts, trade_amounts, move_balances, settle_trade}

-- An order leads to an account of a list of `n`.
abbrev pub IsIndexed : ℕ → SequencedOrder → Type 0
IsIndexed n o = (i : ℕ) × (o.account_index ≡ some i) × (i < n)

module _ (market : MarketConfig) (base_asset : AssetConfig) (fee_config : FeeConfig)
    (fee_recipient_index : ℕ) where
  -- The quote amount is the value rounded down, the fee its share rounded down, and the buyer pays
  -- both.
  pub record IsPriced (quantity price : ℕ) (a : Amounts) : Type 0 where
    pub positive : 0 < a.quote_amount
    pub amount_is : a.quote_amount ≡ quantity * price / base_asset.scale
    pub fee_is : a.quote_fee ≡ a.quote_amount * fee_config.buyer_fee_bps / bps_denominator
    pub debit_is : a.buyer_debit ≡ a.quote_amount + a.quote_fee

  pub trade_amounts-IsPriced :
      (quantity price : ℕ)
      → 0 < base_asset.scale
      → Safe
          (IsPriced quantity price)
          (trade_amounts market base_asset fee_config fee_recipient_index quantity price)
  unfolding trade_amounts checked_mul checked_add
  trade_amounts-IsPriced quantity price scale = ground arith

  move_balances-IsShifted :
      (xs : List Account) (buyer seller quantity : ℕ) (a : Amounts)
      → IsLedger xs
      → buyer < length xs
      → seller < length xs
      → fee_recipient_index < length xs
      → a.buyer_debit ≡ a.quote_amount + a.quote_fee
      → Safe (IsShifted no_flow no_flow xs) (
          move_balances market base_asset fee_config fee_recipient_index xs buyer seller quantity a)
  unfolding move_balances
  move_balances-IsShifted xs buyer seller quantity a h lb ls lf e =
      Safe-imp (IsShifted inflow outflow xs) (IsShifted no_flow no_flow xs) _
        (IsShifted-bind _ _ _ _ xs _ _ (update_at-debit quote a.buyer_debit xs buyer h lb) (λ v s.
          IsShifted-bind _ _ _ _ v _ _
            (update_at-credit base quantity v buyer s.ledger (still xs v s lb))
            (λ w t.
              IsShifted-bind _ _ _ _ w _ _
                (update_at-debit base quantity w seller t.ledger (still v w t (still xs v s ls)))
                (λ y u.
                  IsShifted-bind _ _ _ _ y _ _
                    (update_at-credit quote a.quote_amount y seller u.ledger
                      (still w y u (still v w t (still xs v s ls))))
                    (λ z r.
                      update_at-credit quote a.quote_fee z fee_recipient_index r.ledger
                        (still y z r (still w y u (still v w t (still xs v s lf)))))))))
        (λ ys s. IsShifted-flows inflow outflow no_flow no_flow xs ys (λ other. ground arith) s)
    where
      quote : AssetId
      quote = market.quote_asset

      base : AssetId
      base = market.base_asset

      inflow : AssetId → ℕ
      inflow other =
          no_flow other
          + (flow base quantity other
              + (no_flow other + (flow quote a.quote_amount other + flow quote a.quote_fee other)))

      outflow : AssetId → ℕ
      outflow other =
          flow quote a.buyer_debit other
          + (no_flow other + (flow base quantity other + (no_flow other + no_flow other)))

      still :
          {inflow outflow : AssetId → ℕ} (v w : List Account) {i : ℕ}
          → IsShifted inflow outflow v w
          → i < length v
          → i < length w
      still v w s lt = rw (length_of_IsShifted _ _ v w s) lt

  -- What one trade is: a buyer and a seller that differ, a price between their limits, and amounts
  -- that follow from quantity and price.
  pub record IsTradeOf (b s : SequencedOrder) (quantity price : ℕ) (t : Trade) : Type 0 where
    pub market_is : t.market_id ≡ market.id
    pub buyer_is : t.buyer ≡ b.signer
    pub seller_is : t.seller ≡ s.signer
    pub parties_differ : t.buyer ≢ t.seller
    pub price_is : t.price ≡ price
    pub quantity_is : t.quantity ≡ quantity
    pub amount_is : t.quote_amount ≡ quantity * price / base_asset.scale
    pub positive : 0 < t.quote_amount
    pub fee_is : t.quote_fee ≡ t.quote_amount * fee_config.buyer_fee_bps / bps_denominator

  -- On a ledger, where both orders and the fee recipient's index lead into it and the scale is
  -- positive, `settle_trade` never panics. What it accepts keeps the ledger in order and every
  -- asset's total as it was, is between two parties, and is recorded with its price and quantity, a
  -- quote amount that is the value rounded down and not zero, and the fee on it rounded down.
  pub settle_trade-Safe :
      (xs : List Account) (b s : SequencedOrder) (quantity price : ℕ)
      → IsLedger xs
      → IsIndexed (length xs) b
      → IsIndexed (length xs) s
      → fee_recipient_index < length xs
      → 0 < base_asset.scale
      → Safe
          (λ r. IsShifted no_flow no_flow xs r.0 × IsTradeOf b s quantity price r.1)
          (settle_trade market base_asset fee_config fee_recipient_index xs b s quantity price)
  unfolding settle_trade
  settle_trade-Safe xs b s quantity price h ib is lf scale =
      simp (ib.1, is.1)
        (Safe-bind (λ _. (b.signer == s.signer) ≡ false) Q _ _
          (fail_if-Safe (b.signer == s.signer) _)
          (λ _ differ.
            Safe-bind (IsPriced quantity price) Q _ _ (trade_amounts-IsPriced quantity price scale)
              (λ a p.
                Safe-bind (IsShifted no_flow no_flow xs) Q _ _
                  (move_balances-IsShifted xs ib.0 is.0 quantity a h ib.2 is.2 lf p.debit_is)
                  (λ ys sh. (
                    sh,
                    record {
                      market_is = refl;
                      buyer_is = refl;
                      seller_is = refl;
                      parties_differ = ground arith;
                      price_is = refl;
                      quantity_is = refl;
                      amount_is = p.amount_is;
                      positive = p.positive;
                      fee_is = p.fee_is;
                    },
                  )))))
    where
      Q : List Account × Trade → Type 0
      Q r = IsShifted no_flow no_flow xs r.0 × IsTradeOf b s quantity price r.1

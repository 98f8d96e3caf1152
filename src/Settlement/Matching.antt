-- ===== src/Settlement/Matching.antt =====
-- crates/core/src/settlement/matching.rs
pub mod Trades
pub mod Units
pub mod Loop
pub mod Parties
pub mod Markets
use zk_clob.Prelude.{
  ℕ, zero, suc, ◌+◌, ◌-◌, ◌*◌, ◌/◌, min, Bool, List, [], ◌∷◌, ◌++◌, Option, none, some, Search,
  found, vacant, length, checked_add, checked_mul, ltb, ◌==◌, if◌then◌else◌,
}
use zk_clob.Types.Account.{Account}
use zk_clob.Types.Operations.{Trade}
use zk_clob.Types.Order.{SequencedOrder}
use zk_clob.Types.Config.{bps_denominator, AssetConfig, MarketConfig, FeeConfig, ExchangeConfig}
use zk_clob.Types.Errors.{
  Result, ok, err, panic, ◌>>=◌, ◌>>◌, fail_if, ok_or, expect, self_trade, arithmetic_overflow,
  trade_value_rounds_to_zero, missing_fee_recipient,
}
use zk_clob.Account.{debit, credit}
use zk_clob.Settlement.Balances.{update_at, find_account}

-- `ValidatedMarketBook`, whose references are the values that they lead to.
pub record ValidatedMarketBook : Type 0 where
  pub market : MarketConfig
  pub base_asset : AssetConfig
  pub buys : List SequencedOrder
  pub sells : List SequencedOrder

-- `/`, a panic at zero.
abbrev pub checked_div : ℕ → ℕ → Result ℕ
checked_div a b = if b == 0 then panic else ok (a / b)

-- What a trade moves: the quote amount and the fee on it.
pub record Amounts : Type 0 where
  pub quote_amount : ℕ
  pub quote_fee : ℕ
  pub buyer_debit : ℕ

-- The remaining quantity of the order in front: a fresh order has its whole quantity.
abbrev pub remaining : ℕ → SequencedOrder → ℕ
remaining left order = if left == 0 then order.operation.quantity else left

-- The price of the order that came first.
abbrev pub execution_price : (buy sell : SequencedOrder) → ℕ
execution_price buy sell =
    if ltb buy.sequence sell.sequence then buy.operation.price else sell.operation.price

-- `index += 1` where nothing of the order in front remains: the list is what the index leaves.
abbrev pub step_past : ℕ → SequencedOrder → List SequencedOrder → List SequencedOrder
step_past left order rest = if left == 0 then rest else order ∷ rest

module _ (market : MarketConfig) (base_asset : AssetConfig) (fee_config : FeeConfig)
    (fee_recipient_index : ℕ) where
  -- The amounts of `settle_trade`.
  unfoldable pub trade_amounts : (quantity price : ℕ) → Result Amounts
  trade_amounts quantity price = do
    value ← ok_or (checked_mul quantity price) arithmetic_overflow
    quote_amount ← checked_div value base_asset.scale
    fail_if (quote_amount == 0) trade_value_rounds_to_zero
    fee_value ← ok_or (checked_mul quote_amount fee_config.buyer_fee_bps) arithmetic_overflow
    let quote_fee = fee_value / bps_denominator
    buyer_debit ← ok_or (checked_add quote_amount quote_fee) arithmetic_overflow
    ok (record { quote_amount = quote_amount; quote_fee = quote_fee; buyer_debit = buyer_debit })

  -- The five balance updates of `settle_trade`.
  unfoldable pub move_balances :
      List Account → (buyer_index seller_index quantity : ℕ) → Amounts → Result (List Account)
  move_balances accounts buyer_index seller_index quantity amounts = do
    a ← update_at accounts buyer_index (λ x. debit x market.quote_asset amounts.buyer_debit)
    b ← update_at a buyer_index (λ x. credit x market.base_asset quantity)
    c ← update_at b seller_index (λ x. debit x market.base_asset quantity)
    d ← update_at c seller_index (λ x. credit x market.quote_asset amounts.quote_amount)
    update_at d fee_recipient_index (λ x. credit x market.quote_asset amounts.quote_fee)

  unfoldable pub settle_trade :
      List Account
      → (buy sell : SequencedOrder) (quantity price : ℕ) → Result (List Account × Trade)
  unfolding trade_amounts move_balances
  settle_trade accounts buy sell quantity price = do
    fail_if (buy.signer == sell.signer) self_trade
    buyer_index ← expect buy.account_index
    seller_index ← expect sell.account_index
    amounts ← trade_amounts quantity price
    accounts' ← move_balances accounts buyer_index seller_index quantity amounts
    ok (
      accounts',
      record {
        market_id = market.id;
        buyer = buy.signer;
        seller = sell.signer;
        price = price;
        quantity = quantity;
        quote_amount = amounts.quote_amount;
        quote_fee = amounts.quote_fee;
      },
    )

  -- The loop of `match_market`: a round leaves at least one of the two orders in front behind, so
  -- the number of orders bounds the rounds.
  unfoldable pub match_from :
      ℕ
      → List Account
      → (buys sells : List SequencedOrder) (buy_left sell_left : ℕ)
      → Result (List Account × List Trade)
  match_from zero accounts buys sells buy_left sell_left = panic
  match_from (suc fuel) accounts [] sells buy_left sell_left = ok (accounts, [])
  match_from (suc fuel) accounts (b ∷ buys) [] buy_left sell_left = ok (accounts, [])
  match_from (suc fuel) accounts (b ∷ buys) (s ∷ sells) buy_left sell_left =
      let buy_remaining = remaining buy_left b in
      let sell_remaining = remaining sell_left s in
      let quantity = min buy_remaining sell_remaining in
      let round : Result (List Account × List Trade) = (do
        done ← settle_trade accounts b s quantity (execution_price b s)
        rest ←
            match_from fuel done.0 (step_past (buy_remaining - quantity) b buys)
              (step_past (sell_remaining - quantity) s sells) (buy_remaining - quantity)
              (sell_remaining - quantity)
        ok (rest.0, done.1 ∷ rest.1)) in
      if ltb b.operation.price s.operation.price then ok (accounts, []) else round

  unfoldable pub match_market :
      List Account → (buys sells : List SequencedOrder) → Result (List Account × List Trade)
  unfolding match_from settle_trade
  match_market accounts buys sells =
      match_from (suc (length buys + length sells)) accounts buys sells 0 0

-- The loop of `match_and_settle` over the books.
unfoldable pub match_books :
    FeeConfig → ℕ → List Account → List ValidatedMarketBook → Result (List Account × List Trade)
unfolding match_market
match_books fees fee_recipient_index accounts [] = ok (accounts, [])
match_books fees fee_recipient_index accounts (b ∷ bs) = do
  done ← match_market b.market b.base_asset fees fee_recipient_index accounts b.buys b.sells
  rest ← match_books fees fee_recipient_index done.0 bs
  ok (rest.0, done.1 ++ rest.1)

abbrev pub found_or {ℓ} : {A : Type ℓ} → Search → (ℕ → Result A) → Result A → Result A
found_or (found i) f other = f i
found_or (vacant i) f other = other

unfoldable pub match_and_settle :
    List Account → List ValidatedMarketBook → ExchangeConfig → Result (List Account × List Trade)
unfolding match_books
match_and_settle accounts books config =
    found_or (find_account accounts config.fees.recipient)
      (λ index. match_books config.fees index accounts books) (err missing_fee_recipient)

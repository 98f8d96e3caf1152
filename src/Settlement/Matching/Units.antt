-- ===== src/Settlement/Matching/Units.antt =====
-- A book unit by unit: which order holds the unit at a position, which trade covers it, and what it
-- is for trades to match the two sides of a book.
use zk_clob.Prelude.{
  ℕ, ◌+◌, ◌-◌, ◌<◌, ◌≤◌, ◌≡◌, false, List, [], ◌∷◌, Option, none, some, ltb, ◌==◌, if◌then◌else◌,
  inl, inr, Bool-cases, arith,
}
use zk_clob.Types.Operations.{Trade}
use zk_clob.Types.Order.{SequencedOrder}
use zk_clob.Types.Config.{AssetConfig, MarketConfig, FeeConfig}
use zk_clob.Settlement.Matching.{remaining, step_past, execution_price}
use zk_clob.Settlement.Matching.Trades.{IsTradeOf}

-- The order that holds the unit at a position, where `left` remains of the order in front (all of
-- it, if `left` is 0).
abbrev pub order_at : (left u : ℕ) → List SequencedOrder → Option SequencedOrder
order_at left u [] = none
order_at left u (o ∷ os) =
    let front = remaining left o in
    let rest = order_at 0 (u - front) os in if ltb u front then some o else rest

-- The trade that covers the unit at a position.
abbrev pub trade_at : ℕ → List Trade → Option Trade
trade_at u [] = none
trade_at u (t ∷ ts) =
    let rest = trade_at (u - t.quantity) ts in if ltb u t.quantity then some t else rest

-- How many units the trades cover.
abbrev pub volume : List Trade → ℕ
volume [] = 0
volume (t ∷ ts) = t.quantity + volume ts

module _ (market : MarketConfig) (base_asset : AssetConfig) (fee_config : FeeConfig)
    (fee_recipient_index : ℕ) where
  abbrev Fits : ℕ → SequencedOrder → SequencedOrder → Trade → Type 0
  Fits index b s t =
      IsTradeOf market base_asset fee_config index b s t.quantity (execution_price b s) t

  -- A trade of a unit is between the buy and the sell order that hold the unit, at a price between
  -- their limits: that of the order which came first.
  abbrev pub TradeMatches : Option Trade → Option SequencedOrder → Option SequencedOrder → Type 0
  TradeMatches none b s = Unit
  TradeMatches (some t) none s = ⊥
  TradeMatches (some t) (some b) none = ⊥
  TradeMatches (some t) (some b) (some s) =
      Fits fee_recipient_index b s t × (s.operation.price ≤ t.price) × (t.price ≤ b.operation.price)

  -- No trade is left to make at a unit: a side has run out, or the prices do not cross.
  abbrev pub IsExhausted : Option SequencedOrder → Option SequencedOrder → Type 0
  IsExhausted none s = Unit
  IsExhausted (some b) none = Unit
  IsExhausted (some b) (some s) = b.operation.price < s.operation.price

  -- Every unit up to the volume is matched, and the next one cannot be.
  pub record IsMatching (buys sells : List SequencedOrder) (buy_left sell_left : ℕ)
      (trades : List Trade) : Type 0 where
    pub matched :
        (u : ℕ)
        → TradeMatches (trade_at u trades) (order_at buy_left u buys) (order_at sell_left u sells)
    pub exhausted :
        IsExhausted
          (order_at buy_left (volume trades) buys)
          (order_at sell_left (volume trades) sells)

-- After `q` units of the order in front, the units that follow move up by `q`.
order_at-rest :
    (front q u : ℕ) (o : SequencedOrder) (os : List SequencedOrder)
    → q ≤ front
    → order_at (front - q) u (step_past (front - q) o os)
      ≡ (if ltb (u + q) front then some o else order_at 0 (u + q - front) os)
order_at-rest front q u o os le = elim (Bool-cases (front - q == 0)) [
  | inl gone ↦
      let none_left : front - q ≡ 0 = ground arith in
      let same_unit : u + q - front ≡ u = omega arith in
      let past : ltb (u + q) front ≡ false = ground arith in rw (past, same_unit, gone, none_left)
  | inr left ↦
      let same_test : ltb u (front - q) ≡ ltb (u + q) front = ground arith in
      let same_unit : u - (front - q) ≡ u + q - front = omega arith in
      rw (left, left, same_test, same_unit)
]

pub order_at-step_past :
    (left q u : ℕ) (o : SequencedOrder) (os : List SequencedOrder)
    → q ≤ remaining left o
    → order_at (remaining left o - q) u (step_past (remaining left o - q) o os)
      ≡ order_at left (u + q) (o ∷ os)
order_at-step_past left q u o os le = order_at-rest (remaining left o) q u o os le

-- ===== src/Settlement/Matching/Loop.antt =====
-- The matching loop of settlement/matching.rs: its fuel, its ledgers and its trades.
use zk_clob.Prelude.{
  ℕ, zero, suc, ◌+◌, ◌-◌, ◌<◌, ◌≤◌, ◌≡◌, refl, ap, ◌∙◌, lt→ltb, ltb→lt, true, List, [], ◌∷◌, Option,
  none, some, min, ltb, ◌==◌, inl, inr, Bool-cases, arith, length, All,
}
use mathlib.Core.Path.{subst₂}
use zk_clob.Types.Account.{Account}
use zk_clob.Types.Operations.{Trade}
use zk_clob.Types.Order.{SequencedOrder}
use zk_clob.Types.Config.{AssetConfig, MarketConfig, FeeConfig}
use zk_clob.Types.Results.{Safe, Safe-bind}
use zk_clob.Settlement.Balances.Ledger.{
  IsLedger, IsShifted, IsShifted-refl, IsShifted-trans, no_flow, length_of_IsShifted,
}
use zk_clob.Settlement.Matching.{remaining, step_past, execution_price, match_from, match_market}
use zk_clob.Settlement.Matching.Trades.{IsIndexed, IsTradeOf, settle_trade-Safe}
use zk_clob.Settlement.Matching.Units.{
  order_at, trade_at, volume, TradeMatches, IsExhausted, IsMatching, order_at-step_past,
}

-- An order that validation let through: it leads to an account and asks for something.
abbrev pub IsReady : ℕ → SequencedOrder → Type 0
IsReady n o = IsIndexed n o × (0 < o.operation.quantity)

-- What the orders in front trade in a round.
abbrev round_quantity : (bl sl : ℕ) (b s : SequencedOrder) → ℕ
round_quantity bl sl b s = min (remaining bl b) (remaining sl s)

All-step_past :
    (n left : ℕ) (o : SequencedOrder) (os : List SequencedOrder)
    → All (IsReady n) (o ∷ os)
    → All (IsReady n) (step_past left o os)
All-step_past n left o os h = elim (Bool-cases (left == 0)) [
  | inl gone ↦ rw gone h.1
  | inr stays ↦ rw stays h
]

-- Of two orders in front one is used up, so the lists get shorter together.
step_past-length :
    (b s : ℕ) (o p : SequencedOrder) (os ps : List SequencedOrder)
    → length (step_past (b - min b s) o os) + length (step_past (s - min b s) p ps)
      < length (o ∷ os) + length (p ∷ ps)
step_past-length b s o p os ps = ground arith

remaining_positive :
    (left : ℕ) (o : SequencedOrder) → 0 < o.operation.quantity → ltb 0 (remaining left o) ≡ true
remaining_positive left o pos = ground arith

in_front : (u b s : ℕ) → u < min b s → ltb u b ≡ true
in_front u b s h = lt→ltb u b (omega arith)

in_front_right : (u b s : ℕ) → u < min b s → ltb u s ≡ true
in_front_right u b s h = lt→ltb u s (omega arith)

-- The price of the order that came first is within both limits.
price_bounds-low :
    (b s : SequencedOrder) {price : ℕ}
    → s.operation.price ≤ b.operation.price
    → price ≡ execution_price b s
    → s.operation.price ≤ price
price_bounds-low b s crossed e = ground arith

price_bounds-high :
    (b s : SequencedOrder) {price : ℕ}
    → s.operation.price ≤ b.operation.price
    → price ≡ execution_price b s
    → price ≤ b.operation.price
price_bounds-high b s crossed e = ground arith

module _ (market : MarketConfig) (base_asset : AssetConfig) (fee_config : FeeConfig)
    (fee_recipient_index : ℕ) where
  abbrev Matching : List SequencedOrder → List SequencedOrder → ℕ → ℕ → List Trade → Type 0
  Matching = IsMatching market base_asset fee_config fee_recipient_index

  abbrev Matches : Option Trade → Option SequencedOrder → Option SequencedOrder → Type 0
  Matches = TradeMatches market base_asset fee_config fee_recipient_index

  IsTradeOf-own :
      {b s : SequencedOrder} {quantity price : ℕ} {t : Trade}
      → IsTradeOf market base_asset fee_config fee_recipient_index b s quantity price t
      → IsTradeOf market base_asset fee_config fee_recipient_index b s t.quantity price t
  IsTradeOf-own of = record {
    market_is = of.market_is;
    buyer_is = of.buyer_is;
    seller_is = of.seller_is;
    parties_differ = of.parties_differ;
    price_is = of.price_is;
    quantity_is = refl;
    amount_is = rw of.quantity_is of.amount_is;
    positive = of.positive;
    fee_is = of.fee_is;
  }

  Matching-empty_buys : (sells : List SequencedOrder) (bl sl : ℕ) → Matching [] sells bl sl []
  Matching-empty_buys sells bl sl = record { matched = λ u. tt; exhausted = tt }

  IsExhausted-none :
      (o : Option SequencedOrder)
      → IsExhausted market base_asset fee_config fee_recipient_index o none
  IsExhausted-none none = tt
  IsExhausted-none (some b) = tt

  Matching-empty_sells :
      (b : SequencedOrder) (buys : List SequencedOrder) (bl sl : ℕ)
      → Matching (b ∷ buys) [] bl sl []
  Matching-empty_sells b buys bl sl = record {
    matched = λ u. tt;
    exhausted = IsExhausted-none (order_at bl 0 (b ∷ buys));
  }

  Matching-uncrossed :
      (b s : SequencedOrder) (buys sells : List SequencedOrder) (bl sl : ℕ)
      → 0 < b.operation.quantity
      → 0 < s.operation.quantity
      → b.operation.price < s.operation.price
      → Matching (b ∷ buys) (s ∷ sells) bl sl []
  Matching-uncrossed b s buys sells bl sl pb ps lt = record {
    matched = λ u. tt;
    exhausted = rw (remaining_positive bl b pb, remaining_positive sl s ps) lt;
  }

  -- The trade of a round goes in front of the trades of the rounds that follow.
  module _ (b s : SequencedOrder) (buys sells : List SequencedOrder) (bl sl : ℕ)
      (crossed : s.operation.price ≤ b.operation.price) where
    abbrev quantity : ℕ
    quantity = round_quantity bl sl b s

    module _ (t : Trade) (ts : List Trade)
        (of : IsTradeOf market base_asset fee_config fee_recipient_index b s quantity
          (execution_price b s)
          t)
        (rest : Matching
          (step_past (remaining bl b - quantity) b buys)
          (step_past (remaining sl s - quantity) s sells)
          (remaining bl b - quantity)
          (remaining sl s - quantity)
          ts) where
      -- What follows the round, seen from before it.
      buys_after :
          (u v : ℕ)
          → v + quantity ≡ u
          → order_at (remaining bl b - quantity) v (step_past (remaining bl b - quantity) b buys)
            ≡ order_at bl u (b ∷ buys)
      buys_after u v e =
          order_at-step_past bl quantity v b buys (omega arith)
          ∙ ap (λ n. order_at bl n (b ∷ buys)) e

      sells_after :
          (u v : ℕ)
          → v + quantity ≡ u
          → order_at (remaining sl s - quantity) v (step_past (remaining sl s - quantity) s sells)
            ≡ order_at sl u (s ∷ sells)
      sells_after u v e =
          order_at-step_past sl quantity v s sells (omega arith)
          ∙ ap (λ n. order_at sl n (s ∷ sells)) e

      Matching-here :
          (u : ℕ)
          → u < t.quantity
          → Matches (some t) (order_at bl u (b ∷ buys)) (order_at sl u (s ∷ sells))
      Matching-here u lt =
          let in_buy : ltb u (remaining bl b) ≡ true =
            in_front u (remaining bl b) (remaining sl s) (omega (arith, of.quantity_is)) in
          let in_sell : ltb u (remaining sl s) ≡ true =
            in_front_right u (remaining bl b) (remaining sl s) (omega (arith, of.quantity_is)) in
          rw (in_buy, in_sell)
            (
              IsTradeOf-own of,
              price_bounds-low b s crossed of.price_is,
              price_bounds-high b s crossed of.price_is,
            )

      Matching-later :
          (u : ℕ)
          → t.quantity ≤ u
          → Matches
              (trade_at (u - t.quantity) ts)
              (order_at bl u (b ∷ buys))
              (order_at sl u (s ∷ sells))
      Matching-later u le =
          let whole : u - t.quantity + quantity ≡ u = omega (arith, of.quantity_is) in
          subst₂ (Matches (trade_at (u - t.quantity) ts)) (buys_after u (u - t.quantity) whole)
            (sells_after u (u - t.quantity) whole) (rest.matched (u - t.quantity))

      matched_at :
          (u : ℕ)
          → Matches (trade_at u (t ∷ ts)) (order_at bl u (b ∷ buys)) (order_at sl u (s ∷ sells))
      matched_at u = elim (Bool-cases (ltb u t.quantity)) [
        | inl here ↦ rw here (Matching-here u (ltb→lt _ _ here))
        | inr later ↦ rw later (Matching-later u (ground arith))
      ]

      Matching-cons : Matching (b ∷ buys) (s ∷ sells) bl sl (t ∷ ts)
      Matching-cons =
          let whole : volume ts + quantity ≡ t.quantity + volume ts =
            omega (arith, of.quantity_is) in
          record {
            matched = matched_at;
            exhausted =
                subst₂ (IsExhausted market base_asset fee_config fee_recipient_index)
                  (buys_after (t.quantity + volume ts) (volume ts) whole)
                  (sells_after (t.quantity + volume ts) (volume ts) whole) rest.exhausted;
          }

  abbrev pub Matched :
      List Account
      → List SequencedOrder
      → List SequencedOrder
      → ℕ
      → ℕ
      → List Account × List Trade
      → Type 0
  Matched xs buys sells bl sl r = IsShifted no_flow no_flow xs r.0 × Matching buys sells bl sl r.1

  abbrev Traded : List Account → SequencedOrder → SequencedOrder → ℕ → List Account × Trade → Type 0
  Traded xs b s quantity r =
      IsShifted no_flow no_flow xs r.0
      × IsTradeOf market base_asset fee_config fee_recipient_index b s quantity
          (execution_price b s) r.1

  Matched-cons :
      (xs : List Account) (b s : SequencedOrder) (buys sells : List SequencedOrder) (bl sl : ℕ)
      (done : List Account × Trade) (rest : List Account × List Trade)
      → s.operation.price ≤ b.operation.price
      → Traded xs b s (round_quantity bl sl b s) done
      → Matched done.0
          (step_past (remaining bl b - round_quantity bl sl b s) b buys)
          (step_past (remaining sl s - round_quantity bl sl b s) s sells)
          (remaining bl b - round_quantity bl sl b s)
          (remaining sl s - round_quantity bl sl b s)
          rest
      → Matched xs (b ∷ buys) (s ∷ sells) bl sl (rest.0, done.1 ∷ rest.1)
  Matched-cons xs b s buys sells bl sl done rest crossed d r = (
    IsShifted-trans no_flow no_flow no_flow no_flow xs done.0 rest.0 d.0 r.0,
    Matching-cons b s buys sells bl sl crossed done.1 rest.1 d.1 r.1,
  )

  module _ (scale : 0 < base_asset.scale) where
    -- With more fuel than there are orders the loop never panics.
    pub match_from-Safe :
        (fuel : ℕ) (xs : List Account) (buys sells : List SequencedOrder) (bl sl : ℕ)
        → IsLedger xs
        → fee_recipient_index < length xs
        → All (IsReady (length xs)) buys
        → All (IsReady (length xs)) sells
        → length buys + length sells < fuel
        → Safe
            (Matched xs buys sells bl sl)
            (match_from market base_asset fee_config fee_recipient_index fuel xs buys sells bl sl)
    unfolding match_from
    match_from-Safe zero xs buys sells bl sl h lf rb rs enough = absurd (omega arith)
    match_from-Safe (suc fuel) xs [] sells bl sl h lf rb rs enough =
        (IsShifted-refl xs h, Matching-empty_buys sells bl sl)
    match_from-Safe (suc fuel) xs (b ∷ buys) [] bl sl h lf rb rs enough =
        (IsShifted-refl xs h, Matching-empty_sells b buys bl sl)
    match_from-Safe (suc fuel) xs (b ∷ buys) (s ∷ sells) bl sl h lf rb rs enough =
        let q : ℕ = round_quantity bl sl b s in
        let bl' : ℕ = remaining bl b - q in
        let sl' : ℕ = remaining sl s - q in
        elim (Bool-cases (ltb b.operation.price s.operation.price)) [
          | inl apart ↦ rw apart (
            IsShifted-refl xs h,
            Matching-uncrossed b s buys sells bl sl rb.0.1 rs.0.1 (ltb→lt _ _ apart),
          )
          | inr crossed ↦ rw crossed (
              Safe-bind (Traded xs b s q) (Matched xs (b ∷ buys) (s ∷ sells) bl sl) _ _
                (settle_trade-Safe market base_asset fee_config fee_recipient_index xs b s q _ h
                  rb.0.0 rs.0.0 lf scale)
                (λ done d.
                  let same : length done.0 ≡ length xs = length_of_IsShifted _ _ xs done.0 d.0 in
                  Safe-bind (Matched done.0 (step_past bl' b buys) (step_past sl' s sells) bl' sl')
                    (Matched xs (b ∷ buys) (s ∷ sells) bl sl) _ _
                    (match_from-Safe fuel done.0 _ _ bl' sl' d.0.ledger (rw same lf)
                      (rw same (All-step_past (length xs) bl' b buys rb))
                      (rw same (All-step_past (length xs) sl' s sells rs))
                      (omega
                        (arith, step_past-length (remaining bl b) (remaining sl s) b s buys sells)))
                    (λ rest r. Matched-cons xs b s buys sells bl sl done rest (ground arith) d r)))
        ]

    -- Where the base asset's scale is positive, on a ledger, with the fee recipient's index in it and
    -- orders that lead into it and ask for something, `match_market` never panics: its rounds are
    -- enough. It keeps the ledger in order and every asset's total as it was. Unit by unit, a trade is
    -- between the buy and the sell order that hold the unit, at the price of the one that came first
    -- and within both limits, and at the unit after the last trade a side has run out or the prices
    -- do not cross.
    pub match_market-Safe :
        (xs : List Account) (buys sells : List SequencedOrder)
        → IsLedger xs
        → fee_recipient_index < length xs
        → All (IsReady (length xs)) buys
        → All (IsReady (length xs)) sells
        → Safe
            (Matched xs buys sells 0 0)
            (match_market market base_asset fee_config fee_recipient_index xs buys sells)
    unfolding match_market
    match_market-Safe xs buys sells h lf rb rs =
        match_from-Safe (suc (length buys + length sells)) xs buys sells 0 0 h lf rb rs
          (omega arith)

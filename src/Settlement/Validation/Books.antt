-- ===== src/Settlement/Validation/Books.antt =====
-- `build_validated_books` of crates/core/src/settlement/validation.rs.
pub mod Valid
pub mod Complete
use zk_clob.Prelude.{
  ℕ, Bool, true, false, not, ◌&&◌, List, [], ◌∷◌, ◌++◌, Option, none, some, any, get_elem?, set,
  length, replicate, is_empty, ltb, ◌==◌, Ordering,
}
use zk_clob.Types.Ids.{MarketId}
use zk_clob.Types.Order.{Side, same_side, SequencedOrder, compare_priority}
use zk_clob.Types.Config.{ExchangeConfig, market_of, asset_of}
use zk_clob.Types.Batch.{MarketOrderBook}
use zk_clob.Types.Errors.{
  Result, ok, err, panic, ◌>>=◌, ◌>>◌, fail_if, ok_or, expect, invalid_order_index,
  duplicate_order_index, order_book_market_mismatch, order_book_side_mismatch, unsorted_order_book,
  empty_order_book, duplicate_market_order_book, unsorted_market_order_books, unknown_market,
  unknown_asset, missing_order_index,
}
use zk_clob.Settlement.Matching.{ValidatedMarketBook}
use zk_clob.Settlement.Validation.Config.{check_previous}

abbrev pub is_less : Ordering → Bool
is_less Ordering.lt = true
is_less _ = false

-- Whether the last order so far does not precede the next one.
abbrev pub is_unsorted_after : Side → Option SequencedOrder → SequencedOrder → Bool
is_unsorted_after side none order = false
is_unsorted_after side (some previous) order = not (is_less (compare_priority side previous order))

-- `validate_book_orders`, with the last validated order: the validated orders and the marks of the
-- seen indices.
unfoldable pub validate_book_orders :
    MarketId
    → List ℕ
    → Side
    → List SequencedOrder
    → List Bool
    → Option SequencedOrder
    → Result (List SequencedOrder × List Bool)
validate_book_orders market_id [] side orders seen previous = ok ([], seen)
validate_book_orders market_id (i ∷ is) side orders seen previous = do
  order ← ok_or (get_elem? orders i) invalid_order_index
  was_seen ← expect (get_elem? seen i)
  fail_if was_seen duplicate_order_index
  fail_if (not (order.operation.market_id == market_id)) order_book_market_mismatch
  fail_if (not (same_side order.operation.side side)) order_book_side_mismatch
  fail_if (is_unsorted_after side previous order) unsorted_order_book
  rest ← validate_book_orders market_id is side orders (set seen i true) (some order)
  ok (order ∷ rest.0, rest.1)

-- One round of `build_validated_books`.
unfoldable pub validate_book :
    MarketOrderBook
    → Option ℕ
    → List SequencedOrder
    → ExchangeConfig
    → List Bool
    → Result (ValidatedMarketBook × List Bool)
unfolding validate_book_orders
validate_book book previous orders config seen = do
  fail_if (is_empty book.buy_indices && is_empty book.sell_indices) empty_order_book
  check_previous previous book.market_id duplicate_market_order_book unsorted_market_order_books
  market ← ok_or (market_of config book.market_id) unknown_market
  base_asset ← ok_or (asset_of config market.base_asset) unknown_asset
  buys ← validate_book_orders book.market_id book.buy_indices Side.buy orders seen none
  sells ← validate_book_orders book.market_id book.sell_indices Side.sell orders buys.1 none
  ok (record { market = market; base_asset = base_asset; buys = buys.0; sells = sells.0 }, sells.1)

unfoldable pub validate_books :
    List MarketOrderBook
    → Option ℕ
    → List SequencedOrder
    → ExchangeConfig
    → List Bool
    → Result (List ValidatedMarketBook × List Bool)
unfolding validate_book
validate_books [] previous orders config seen = ok ([], seen)
validate_books (b ∷ bs) previous orders config seen = do
  first ← validate_book b previous orders config seen
  rest ← validate_books bs (some b.market_id) orders config first.1
  ok (first.0 ∷ rest.0, rest.1)

unfoldable pub build_validated_books :
    List SequencedOrder → List MarketOrderBook → ExchangeConfig → Result (List ValidatedMarketBook)
unfolding validate_books
build_validated_books orders order_books config = do
  built ← validate_books order_books none orders config (replicate (length orders) false)
  fail_if (any (λ (seen : Bool). not seen) built.1) missing_order_index
  ok built.0

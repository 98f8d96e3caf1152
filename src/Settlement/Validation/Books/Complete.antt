-- ===== src/Settlement/Validation/Books/Complete.antt =====
-- `build_validated_books` as a whole.
use zk_clob.Prelude.{
  ℕ, zero, suc, ◌+◌, ◌<◌, ◌≡◌, refl, Bool, true, false, not, ◌&&◌, List, [], ◌∷◌, Option, none,
  some, get_elem?, length, replicate, length-replicate, any, is_empty, All, arith,
}
use mathlib.Core.Path.{subst}
use zk_clob.Types.Ids.{AccountId}
use zk_clob.Types.Order.{Side, SequencedOrder}
use zk_clob.Types.Config.{ExchangeConfig, market_of, asset_of}
use zk_clob.Types.Batch.{MarketOrderBook}
use zk_clob.Types.Errors.{
  empty_order_book, duplicate_market_order_book, unsorted_market_order_books, unknown_market,
  unknown_asset, missing_order_index,
}
use zk_clob.Types.Results.{Safe, Safe-bind, fail_if-Safe, ok_or-Safe}
use zk_clob.Settlement.Matching.{ValidatedMarketBook}
use zk_clob.Settlement.Matching.Parties.{IsSigned}
use zk_clob.Settlement.Validation.Sequences.{occurrences}
use zk_clob.Settlement.Validation.Config.Valid.{
  IsNext, AreAssets, check_previous-Safe, asset_of_positive, market_of_own,
}
use zk_clob.Settlement.Validation.Books.{validate_book, validate_books, build_validated_books}
use zk_clob.Settlement.Validation.Books.Valid.{
  mark_at, AreMarked, IsSide, ArePicked, validate_book_orders-Safe,
}

-- How often a book uses an index, and how often the books do.
abbrev pub book_uses : ℕ → MarketOrderBook → ℕ
book_uses j book = occurrences j book.buy_indices + occurrences j book.sell_indices

abbrev pub books_uses : ℕ → List MarketOrderBook → ℕ
books_uses j [] = 0
books_uses j (b ∷ bs) = book_uses j b + books_uses j bs

module _ (orders : List SequencedOrder) (config : ExchangeConfig) where
  -- A validated book is the book: its market and asset are those of the configuration, and its
  -- sides are the orders at the indices, in the order of priority.
  pub record IsBook (book : MarketOrderBook) (b : ValidatedMarketBook) : Type 0 where
    pub market_is : market_of config book.market_id ≡ some b.market
    pub asset_is : asset_of config b.market.base_asset ≡ some b.base_asset
    pub buys : IsSide orders book.market_id Side.buy none book.buy_indices b.buys
    pub sells : IsSide orders book.market_id Side.sell none book.sell_indices b.sells

  -- Books in the order of their markets.
  abbrev pub AreBooks : Option ℕ → List MarketOrderBook → List ValidatedMarketBook → Type 0
  AreBooks previous [] [] = Unit
  AreBooks previous [] (b ∷ bs) = ⊥
  AreBooks previous (book ∷ books) [] = ⊥
  AreBooks previous (book ∷ books) (b ∷ bs) =
      IsNext previous book.market_id × IsBook book b × AreBooks (some book.market_id) books bs

  pub record IsUsed (uses : ℕ → ℕ) (seen seen' : List Bool) : Type 0 where
    pub same_length : length seen' ≡ length seen
    pub marked : (j : ℕ) → mark_at seen' j ≡ uses j + mark_at seen j

  abbrev BookOf : Option ℕ → MarketOrderBook → List Bool → ValidatedMarketBook × List Bool → Type 0
  BookOf previous book seen r =
      IsNext previous book.market_id × IsBook book r.0 × IsUsed (λ j. book_uses j book) seen r.1

  validate_book-Safe :
      (book : MarketOrderBook) (previous : Option ℕ) (seen : List Bool)
      → length seen ≡ length orders
      → Safe (BookOf previous book seen) (validate_book book previous orders config seen)
  unfolding validate_book
  validate_book-Safe book previous seen e =
      Safe-bind (λ _. empty ≡ false) Q _ _ (fail_if-Safe empty empty_order_book)
        (λ _ _.
          Safe-bind (λ _. IsNext previous book.market_id) Q _ _
            (check_previous-Safe previous book.market_id duplicate_market_order_book
              unsorted_market_order_books)
            (λ _ n.
              Safe-bind (λ m. market_of config book.market_id ≡ some m) Q _ _
                (ok_or-Safe (market_of config book.market_id) unknown_market)
                (λ m em.
                  Safe-bind (λ a. asset_of config m.base_asset ≡ some a) Q _ _
                    (ok_or-Safe (asset_of config m.base_asset) unknown_asset)
                    (λ a ea.
                      Safe-bind (Half Side.buy book.buy_indices seen) Q _ _
                        (validate_book_orders-Safe orders book.market_id Side.buy book.buy_indices
                          seen none e)
                        (λ bs hb.
                          Safe-bind (Half Side.sell book.sell_indices bs.1) Q _ _
                            (validate_book_orders-Safe orders book.market_id Side.sell
                              book.sell_indices bs.1 none (omega (arith, e, hb.1.same_length)))
                            (λ ss hs. (
                              n,
                              record { market_is = em; asset_is = ea; buys = hb.0; sells = hs.0 },
                              record {
                                same_length = omega (arith, hb.1.same_length, hs.1.same_length);
                                marked = λ j. omega (arith, hb.1.marked j, hs.1.marked j);
                              },
                            )))))))
    where
      Q : ValidatedMarketBook × List Bool → Type 0
      Q = BookOf previous book seen

      empty : Bool
      empty = is_empty book.buy_indices && is_empty book.sell_indices

      Half : Side → List ℕ → List Bool → List SequencedOrder × List Bool → Type 0
      Half side is s r = IsSide orders book.market_id side none is r.0 × AreMarked is s r.1

  abbrev BooksOf :
      Option ℕ → List MarketOrderBook → List Bool → List ValidatedMarketBook × List Bool → Type 0
  BooksOf previous books seen r =
      AreBooks previous books r.0 × IsUsed (λ j. books_uses j books) seen r.1

  validate_books-Safe :
      (books : List MarketOrderBook) (previous : Option ℕ) (seen : List Bool)
      → length seen ≡ length orders
      → Safe (BooksOf previous books seen) (validate_books books previous orders config seen)
  unfolding validate_books
  validate_books-Safe [] previous seen e =
      (tt, record { same_length = refl; marked = λ j. omega arith })
  validate_books-Safe (book ∷ books) previous seen e =
      Safe-bind (BookOf previous book seen) (BooksOf previous (book ∷ books) seen) _ _
        (validate_book-Safe book previous seen e)
        (λ b hb.
          Safe-bind (BooksOf (some book.market_id) books b.1) (BooksOf previous (book ∷ books) seen)
            _ _
            (validate_books-Safe books (some book.market_id) b.1
              (omega (arith, e, hb.2.same_length)))
            (λ bs hbs. (
              (hb.0, hb.1, hbs.0),
              record {
                same_length = omega (arith, hb.2.same_length, hbs.1.same_length);
                marked = λ j. omega (arith, hb.2.marked j, hbs.1.marked j);
              },
            )))

  -- What the books are: theirs in the order of the markets, with every order in one place.
  pub record AreComplete (books : List MarketOrderBook) (bs : List ValidatedMarketBook)
      : Type 0 where
    pub each : AreBooks none books bs
    pub once : (j : ℕ) → j < length orders → books_uses j books ≡ 1

mark_at-replicate : (n j : ℕ) → mark_at (replicate n false) j ≡ 0
mark_at-replicate zero j = refl
mark_at-replicate (suc n) zero = refl
mark_at-replicate (suc n) (suc j) = mark_at-replicate n j

mark_at_all :
    (seen : List Bool) (j : ℕ)
    → any (λ (b : Bool). not b) seen ≡ false
    → j < length seen
    → mark_at seen j ≡ 1
mark_at_all [] j e lt = absurd (omega arith)
mark_at_all (true ∷ seen) zero e lt = refl
mark_at_all (false ∷ seen) zero e lt = absurd (cc)
mark_at_all (true ∷ seen) (suc j) e lt = mark_at_all seen j e (omega arith)
mark_at_all (false ∷ seen) (suc j) e lt = absurd (cc)

-- `build_validated_books` never panics. The books that it returns are those given, in strictly
-- ascending order of their markets; a side of a book is the orders at its indices, all of that
-- market and side and strictly in the order of priority; and each order of the batch stands at
-- exactly one place of one book.
pub build_validated_books-Safe :
    (orders : List SequencedOrder) (books : List MarketOrderBook) (config : ExchangeConfig)
    → Safe (AreComplete orders config books) (build_validated_books orders books config)
unfolding build_validated_books
build_validated_books-Safe orders books config =
    Safe-bind (BooksOf orders config none books seen) (AreComplete orders config books) _ _
      (validate_books-Safe orders config books none seen (length-replicate (length orders) false))
      (λ r h.
        Safe-bind (λ _. any (λ (b : Bool). not b) r.1 ≡ false) (AreComplete orders config books) _ _
          (fail_if-Safe (any (λ (b : Bool). not b) r.1) missing_order_index)
          (λ _ full. record { each = h.0; once = once r.1 h.1 full }))
  where
    seen : List Bool
    seen = replicate (length orders) false

    once :
        (seen' : List Bool)
        → IsUsed orders config (λ j. books_uses j books) seen seen'
        → any (λ (b : Bool). not b) seen' ≡ false
        → (j : ℕ) → j < length orders
        → books_uses j books ≡ 1
    once seen' u full j lt = omega (
      arith,
      u.marked j,
      mark_at-replicate (length orders) j,
      mark_at_all seen' j full
          (omega (arith, u.same_length, length-replicate (length orders) false)),
    )

module _ (P : SequencedOrder → Type 0) where
  get_elem?-All :
      (orders : List SequencedOrder) (i : ℕ) {o : SequencedOrder}
      → All P orders
      → get_elem? orders i ≡ some o
      → P o
  get_elem?-All [] i h e = absurd (cc)
  get_elem?-All (x ∷ orders) zero {o = o} h e = let same : x ≡ o = cc in subst P same h.0
  get_elem?-All (x ∷ orders) (suc i) h e = get_elem?-All orders i h.1 e

  ArePicked-All :
      (orders : List SequencedOrder) (is : List ℕ) (os : List SequencedOrder)
      → All P orders
      → ArePicked orders is os
      → All P os
  ArePicked-All orders [] [] h p = tt
  ArePicked-All orders [] (o ∷ os) h p = absurd p
  ArePicked-All orders (i ∷ is) [] h p = absurd p
  ArePicked-All orders (i ∷ is) (o ∷ os) h p =
      (get_elem?-All orders i h p.0, ArePicked-All orders is os h p.1)

-- A book that matching can take: its asset has a scale, its market is one of the configuration, and its
-- orders lead to their signers' accounts and ask for something.
pub record IsReadyBook (config : ExchangeConfig) (ks : List AccountId) (b : ValidatedMarketBook)
    : Type 0 where
  pub scale : 0 < b.base_asset.scale
  pub listed : market_of config b.market.id ≡ some b.market
  pub buys : All (IsSigned ks) b.buys
  pub sells : All (IsSigned ks) b.sells

pub AreBooks-ready :
    (ks : List AccountId) (orders : List SequencedOrder) (config : ExchangeConfig)
    (previous : Option ℕ) (books : List MarketOrderBook) (bs : List ValidatedMarketBook)
    → AreAssets none config.assets
    → All (IsSigned ks) orders
    → AreBooks orders config previous books bs
    → All (IsReadyBook config ks) bs
AreBooks-ready ks orders config previous [] [] a r h = tt
AreBooks-ready ks orders config previous [] (b ∷ bs) a r h = absurd h
AreBooks-ready ks orders config previous (book ∷ books) [] a r h = absurd h
AreBooks-ready ks orders config previous (book ∷ books) (b ∷ bs) a r h = (
  record {
    scale = asset_of_positive config b.market.base_asset a h.1.asset_is;
    listed = market_of_own config book.market_id h.1.market_is;
    buys = ArePicked-All (IsSigned ks) orders book.buy_indices b.buys r h.1.buys.picked;
    sells = ArePicked-All (IsSigned ks) orders book.sell_indices b.sells r h.1.sells.picked;
  },
  AreBooks-ready ks orders config (some book.market_id) books bs a r h.2,
)

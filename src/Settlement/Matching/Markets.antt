-- ===== src/Settlement/Matching/Markets.antt =====
-- `match_and_settle` over the books of a batch.
use zk_clob.Prelude.{
  ℕ, ◌≡◌, refl, some, get_elem?, List, [], ◌∷◌, ◌++◌, Search, found, vacant, length, All, All-imp,
}
use zk_clob.Types.Account.{Account}
use zk_clob.Types.Operations.{Trade}
use zk_clob.Types.Order.{SequencedOrder}
use zk_clob.Types.Config.{FeeConfig, ExchangeConfig}
use zk_clob.Types.Errors.{err, missing_fee_recipient}
use zk_clob.Types.Results.{Safe, Safe-bind, Safe-imp, Safe-and}
use zk_clob.Settlement.Balances.{find_account}
use zk_clob.Settlement.Balances.Ledger.{
  ids, IsLedger, IsShifted, IsShifted-refl, IsShifted-trans, no_flow,
}
use zk_clob.Settlement.Balances.Owned.{IsPosted-refl, stands-lt}
use zk_clob.Settlement.Balances.Deposits.{IsSpot, find_account-IsSpot}
use zk_clob.Settlement.Matching.{
  ValidatedMarketBook, match_market, match_books, found_or, match_and_settle,
}
use zk_clob.Settlement.Matching.Units.{IsMatching}
use zk_clob.Settlement.Matching.Loop.{IsReady, Matched, match_market-Safe}
use zk_clob.Settlement.Matching.Parties.{IsSigned, IsPaid, IsPaid-append, match_market-Posts}
use zk_clob.Settlement.Validation.Books.Complete.{IsReadyBook}

module _ (fees : FeeConfig) (recipient : ℕ) where
  -- The trades of books in turn: each book's are the matching of its two sides.
  abbrev pub AreTrades : List ValidatedMarketBook → List Trade → Type 0
  AreTrades [] ts = ts ≡ []
  AreTrades (b ∷ bs) ts =
      (first : List Trade) × (rest : List Trade) × (ts ≡ first ++ rest)
      × IsMatching b.market b.base_asset fees recipient b.buys b.sells 0 0 first
      × AreTrades bs rest

-- An order that leads to its signer's account leads into the list.
IsReady-of_IsSigned :
    (xs : List Account) (o : SequencedOrder) → IsSigned (ids xs) o → IsReady (length xs) o
IsReady-of_IsSigned xs o h = ((h.0.0, h.0.1, stands-lt xs h.0.0 o.signer h.0.2), h.1)

-- The ledger and the trades after the matching of all books, with the fee recipient found: each book,
-- in turn, gives the trades that match its two sides, and the balances are those after the trades.
abbrev pub SettledBooks :
    ExchangeConfig → List Account → List ValidatedMarketBook → List Account × List Trade → Type 0
SettledBooks config xs bs r =
    IsShifted no_flow no_flow xs r.0
    × IsPaid config r.1 xs r.0
    × ((i : ℕ) × (find_account xs config.fees.recipient ≡ found i) × AreTrades config.fees i bs r.1)

module _ (config : ExchangeConfig) (index : ℕ) where
  abbrev MatchedAll : List Account → List ValidatedMarketBook → List Account × List Trade → Type 0
  MatchedAll xs bs r =
      IsShifted no_flow no_flow xs r.0
      × IsPaid config r.1 xs r.0
      × AreTrades config.fees index bs r.1

  match_book-Safe :
      (xs : List Account) (b : ValidatedMarketBook)
      → IsLedger xs
      → get_elem? (ids xs) index ≡ some config.fees.recipient
      → IsReadyBook config (ids xs) b
      → Safe
          (λ r.
            Matched b.market b.base_asset config.fees index xs b.buys b.sells 0 0 r
            × IsPaid config r.1 xs r.0)
          (match_market b.market b.base_asset config.fees index xs b.buys b.sells)
  match_book-Safe xs b h there ready =
      Safe-and (Matched b.market b.base_asset config.fees index xs b.buys b.sells 0 0)
        (λ r. IsPaid config r.1 xs r.0) _
        (match_market-Safe b.market b.base_asset config.fees index ready.scale xs b.buys b.sells h
          (stands-lt xs index config.fees.recipient there)
          (All-imp (IsReady-of_IsSigned xs) b.buys ready.buys)
          (All-imp (IsReady-of_IsSigned xs) b.sells ready.sells))
        (match_market-Posts b.market b.base_asset config index ready.listed xs b.buys b.sells h
          (All-imp (λ o s. s.0) b.buys ready.buys) (All-imp (λ o s. s.0) b.sells ready.sells) there)

  match_books-Safe :
      (xs : List Account) (bs : List ValidatedMarketBook)
      → IsLedger xs
      → get_elem? (ids xs) index ≡ some config.fees.recipient
      → All (IsReadyBook config (ids xs)) bs
      → Safe (MatchedAll xs bs) (match_books config.fees index xs bs)
  unfolding match_books
  match_books-Safe xs [] h there r = (IsShifted-refl xs h, IsPosted-refl xs h, refl)
  match_books-Safe xs (b ∷ bs) h there r =
      Safe-bind
        (λ done.
          Matched b.market b.base_asset config.fees index xs b.buys b.sells 0 0 done
          × IsPaid config done.1 xs done.0)
        (MatchedAll xs (b ∷ bs)) _ _ (match_book-Safe xs b h there r.0)
        (λ done d.
          let same : ids done.0 ≡ ids xs = d.0.0.same_ids in
          Safe-bind (MatchedAll done.0 bs) (MatchedAll xs (b ∷ bs)) _ _
            (match_books-Safe done.0 bs d.0.0.ledger (rw same there) (rw same r.1))
            (λ rest t. (
              IsShifted-trans no_flow no_flow no_flow no_flow xs done.0 rest.0 d.0.0 t.0,
              IsPaid-append config xs done.0 rest.0 done.1 rest.1 d.1 t.1,
              (done.1, rest.1, refl, d.0.1, t.2),
            )))

from_search :
    (config : ExchangeConfig) (xs : List Account) (bs : List ValidatedMarketBook) (s : Search)
    → IsLedger xs
    → All (IsReadyBook config (ids xs)) bs
    → find_account xs config.fees.recipient ≡ s
    → IsSpot config.fees.recipient xs s
    → Safe
        (SettledBooks config xs bs)
        (found_or s (λ index. match_books config.fees index xs bs) (err missing_fee_recipient))
from_search config xs bs (found i) h r e spot =
    Safe-imp (MatchedAll config i xs bs) (SettledBooks config xs bs) _
      (match_books-Safe config i xs bs h spot r) (λ done d. (d.0, d.1, (i, e, d.2)))
from_search config xs bs (vacant i) h r e spot = tt

-- On a ledger, with books of positive scale in markets of the configuration, and orders that lead to
-- their signers' accounts and ask for something, `match_and_settle` never panics. It makes of each
-- book, in turn, the trades that match its two sides. Afterwards every account holds what it held
-- and what the trades brought it, less what they took: a trade takes the quote amount and the fee
-- from its buyer and the quantity from its seller, and brings the quantity to the buyer, the quote
-- amount to the seller, and the fee to the recipient of the configuration. No account is lost, and
-- every total is as it was.
pub match_and_settle-Safe :
    (xs : List Account) (bs : List ValidatedMarketBook) (config : ExchangeConfig)
    → IsLedger xs
    → All (IsReadyBook config (ids xs)) bs
    → Safe (SettledBooks config xs bs) (match_and_settle xs bs config)
unfolding match_and_settle
match_and_settle-Safe xs bs config h r =
    from_search config xs bs (find_account xs config.fees.recipient) h r refl
      (find_account-IsSpot config.fees.recipient xs)

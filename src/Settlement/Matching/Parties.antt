-- ===== src/Settlement/Matching/Parties.antt =====
-- Who pays and who receives in the matching of a book, settlement/matching.rs.
use zk_clob.Prelude.{
  ℕ, zero, suc, ◌+◌, ◌-◌, ◌<◌, ◌≡◌, List, [], ◌∷◌, ◌++◌, Option, none, some, get_elem?, length, min,
  ltb, ◌==◌, inl, inr, Bool-cases, All, arith, checked_mul, checked_add,
}
use zk_clob.Types.Ids.{AccountId, AssetId}
use zk_clob.Types.Account.{Account}
use zk_clob.Types.Operations.{Trade}
use zk_clob.Types.Order.{SequencedOrder}
use zk_clob.Types.Config.{AssetConfig, MarketConfig, FeeConfig, ExchangeConfig, market_of}
use zk_clob.Types.Errors.{self_trade}
use zk_clob.Types.Results.{Accepts, Accepts-bind, Accepts-of_Safe, Any, fail_if-Any}
use zk_clob.Settlement.Balances.Ledger.{ids, IsLedger}
use zk_clob.Settlement.Balances.Owned.{
  posted, no_post, IsLed, IsPosted, IsPosted-refl, IsPosted-flows, IsPosted-bind, IsPosted-trans,
  update_at-debits, update_at-credits,
}
use zk_clob.Settlement.Matching.{
  Amounts, remaining, step_past, execution_price, trade_amounts, move_balances, settle_trade,
  match_from, match_market,
}

-- An order whose index leads to its signer's account.
abbrev pub IsTraders : List AccountId → SequencedOrder → Type 0
IsTraders ks o = IsLed ks o.signer o.account_index

-- Such an order that asks for something.
abbrev pub IsSigned : List AccountId → SequencedOrder → Type 0
IsSigned ks o = IsTraders ks o × (0 < o.operation.quantity)

-- What a trade in a market brings to an account: the quantity to the buyer, the quote amount to the
-- seller, and the fee to the recipient.
abbrev brought : AccountId → Option MarketConfig → Trade → AccountId → AssetId → ℕ
brought recipient none t id asset = 0
brought recipient (some m) t id asset =
    posted t.buyer m.base_asset t.quantity id asset
    + posted t.seller m.quote_asset t.quote_amount id asset
    + posted recipient m.quote_asset t.quote_fee id asset

-- What it takes from it: the quote amount and the fee from the buyer, the quantity from the seller.
abbrev taken : Option MarketConfig → Trade → AccountId → AssetId → ℕ
taken none t id asset = 0
taken (some m) t id asset =
    posted t.buyer m.quote_asset (t.quote_amount + t.quote_fee) id asset
    + posted t.seller m.base_asset t.quantity id asset

module _ (config : ExchangeConfig) where
  -- The same of trades, each in the market that it names.
  abbrev pub received : List Trade → AccountId → AssetId → ℕ
  received [] id asset = 0
  received (t ∷ ts) id asset =
      brought config.fees.recipient (market_of config t.market_id) t id asset + received ts id asset

  abbrev pub paid : List Trade → AccountId → AssetId → ℕ
  paid [] id asset = 0
  paid (t ∷ ts) id asset = taken (market_of config t.market_id) t id asset + paid ts id asset

  -- The ledger after trades: every account has what it had and what they brought, less what they took.
  abbrev pub IsPaid : List Trade → List Account → List Account → Type 0
  IsPaid ts = IsPosted (received ts) (paid ts)

  received-append :
      (ts us : List Trade) (id : AccountId) (asset : AssetId)
      → received (ts ++ us) id asset ≡ received ts id asset + received us id asset
  received-append [] us id asset = omega arith
  received-append (t ∷ ts) us id asset = omega (arith, received-append ts us id asset)

  paid-append :
      (ts us : List Trade) (id : AccountId) (asset : AssetId)
      → paid (ts ++ us) id asset ≡ paid ts id asset + paid us id asset
  paid-append [] us id asset = omega arith
  paid-append (t ∷ ts) us id asset = omega (arith, paid-append ts us id asset)

  pub IsPaid-append :
      (xs ys zs : List Account) (ts us : List Trade)
      → IsPaid ts xs ys
      → IsPaid us ys zs
      → IsPaid (ts ++ us) xs zs
  IsPaid-append xs ys zs ts us p q =
      IsPosted-flows _ _ _ _ xs zs
        (λ id asset. omega (arith, received-append ts us id asset, paid-append ts us id asset))
        (IsPosted-trans (received ts) (paid ts) (received us) (paid us) xs ys zs p q)

module _ (market : MarketConfig) (base_asset : AssetConfig) (config : ExchangeConfig)
    (fee_recipient_index : ℕ) (listed : market_of config market.id ≡ some market) where
  abbrev fee_config : FeeConfig
  fee_config = config.fees

  abbrev recipient : AccountId
  recipient = config.fees.recipient

  move_balances-Posts :
      (xs : List Account) (buyer seller quantity : ℕ) (b s : AccountId) (a : Amounts)
      → IsLedger xs
      → get_elem? (ids xs) buyer ≡ some b
      → get_elem? (ids xs) seller ≡ some s
      → get_elem? (ids xs) fee_recipient_index ≡ some recipient
      → Accepts
          (IsPosted
            (λ id asset.
              no_post id asset
              + (posted b market.base_asset quantity id asset
                  + (no_post id asset
                      + (posted s market.quote_asset a.quote_amount id asset
                          + posted recipient market.quote_asset a.quote_fee id asset))))
            (λ id asset.
              posted b market.quote_asset a.buyer_debit id asset
              + (no_post id asset
                  + (posted s market.base_asset quantity id asset
                      + (no_post id asset + no_post id asset))))
            xs)
          (move_balances market base_asset fee_config fee_recipient_index xs buyer seller quantity
            a)
  unfolding move_balances
  move_balances-Posts xs buyer seller quantity b s a h lb ls lf =
      IsPosted-bind _ _ _ _ xs _ _
        (update_at-debits market.quote_asset a.buyer_debit b xs buyer h lb)
        (λ v p.
          IsPosted-bind _ _ _ _ v _ _
            (update_at-credits market.base_asset quantity b v buyer p.ledger (rw p.same_ids lb))
            (λ w q.
              IsPosted-bind _ _ _ _ w _ _
                (update_at-debits market.base_asset quantity s w seller q.ledger
                  (rw (q.same_ids, p.same_ids) ls))
                (λ y r.
                  IsPosted-bind _ _ _ _ y _ _
                    (update_at-credits market.quote_asset a.quote_amount s y seller r.ledger
                      (rw (r.same_ids, q.same_ids, p.same_ids) ls))
                    (λ z t.
                      update_at-credits market.quote_asset a.quote_fee recipient z
                        fee_recipient_index t.ledger
                        (rw (t.same_ids, r.same_ids, q.same_ids, p.same_ids) lf)))))

  trade_amounts-debit :
      (quantity price : ℕ)
      → Accepts
          (λ (a : Amounts). a.buyer_debit ≡ a.quote_amount + a.quote_fee)
          (trade_amounts market base_asset fee_config fee_recipient_index quantity price)
  unfolding trade_amounts checked_mul checked_add
  trade_amounts-debit quantity price = ground arith

  settle_trade-Posts :
      (xs : List Account) (b s : SequencedOrder) (quantity price : ℕ)
      → IsLedger xs
      → IsTraders (ids xs) b
      → IsTraders (ids xs) s
      → get_elem? (ids xs) fee_recipient_index ≡ some recipient
      → Accepts
          (λ r. IsPaid config (r.1 ∷ []) xs r.0)
          (settle_trade market base_asset fee_config fee_recipient_index xs b s quantity price)
  unfolding settle_trade
  settle_trade-Posts xs b s quantity price h lb ls lf =
      simp (lb.1, ls.1)
        (Accepts-bind Any Q _ _
          (Accepts-of_Safe Any _ (fail_if-Any (b.signer == s.signer) self_trade))
          (λ _ _.
            Accepts-bind (λ (a : Amounts). a.buyer_debit ≡ a.quote_amount + a.quote_fee) Q _ _
              (trade_amounts-debit quantity price)
              (λ a e.
                Accepts-bind (IsPosted _ _ xs) Q _ _
                  (move_balances-Posts xs lb.0 ls.0 quantity b.signer s.signer a h lb.2 ls.2 lf)
                  (λ ys p.
                    IsPosted-flows _ _ _ _ xs ys
                      (λ id asset.
                        (let whole : a.buyer_debit ≡ a.quote_amount + a.quote_fee = e in
                          rw (whole, listed) (omega arith)))
                      p))))
    where
      Q : List Account × Trade → Type 0
      Q r = IsPaid config (r.1 ∷ []) xs r.0

  All-step_past :
      (ks : List AccountId) (left : ℕ) (o : SequencedOrder) (os : List SequencedOrder)
      → All (IsTraders ks) (o ∷ os)
      → All (IsTraders ks) (step_past left o os)
  All-step_past ks left o os h = elim (Bool-cases (left == 0)) [
    | inl gone ↦ rw gone h.1
    | inr stays ↦ rw stays h
  ]

  abbrev AllPaid : List Account → List Account × List Trade → Type 0
  AllPaid xs r = IsPaid config r.1 xs r.0

  match_from-Posts :
      (fuel : ℕ) (xs : List Account) (buys sells : List SequencedOrder) (bl sl : ℕ)
      → IsLedger xs
      → All (IsTraders (ids xs)) buys
      → All (IsTraders (ids xs)) sells
      → get_elem? (ids xs) fee_recipient_index ≡ some recipient
      → Accepts
          (AllPaid xs)
          (match_from market base_asset fee_config fee_recipient_index fuel xs buys sells bl sl)
  unfolding match_from
  match_from-Posts zero xs buys sells bl sl h tb ts lf = tt
  match_from-Posts (suc fuel) xs [] sells bl sl h tb ts lf = IsPosted-refl xs h
  match_from-Posts (suc fuel) xs (b ∷ buys) [] bl sl h tb ts lf = IsPosted-refl xs h
  match_from-Posts (suc fuel) xs (b ∷ buys) (s ∷ sells) bl sl h tb ts lf =
      let q : ℕ = min (remaining bl b) (remaining sl s) in
      let bl' : ℕ = remaining bl b - q in
      let sl' : ℕ = remaining sl s - q in
      elim (Bool-cases (ltb b.operation.price s.operation.price)) [
        | inl apart ↦ rw apart (IsPosted-refl xs h)
        | inr crossed ↦ rw crossed (
            Accepts-bind (λ r. IsPaid config (r.1 ∷ []) xs r.0) (AllPaid xs) _ _
              (settle_trade-Posts xs b s q (execution_price b s) h tb.0 ts.0 lf)
              (λ done p.
                Accepts-bind (AllPaid done.0) (AllPaid xs) _ _
                  (match_from-Posts fuel done.0 (step_past bl' b buys) (step_past sl' s sells) bl'
                    sl' p.ledger (rw p.same_ids (All-step_past (ids xs) bl' b buys tb))
                    (rw p.same_ids (All-step_past (ids xs) sl' s sells ts)) (rw p.same_ids lf))
                  (λ rest r. IsPaid-append config xs done.0 rest.0 (done.1 ∷ []) rest.1 p r)))
      ]

  -- What `match_market` returns is paid for.
  pub match_market-Posts :
      (xs : List Account) (buys sells : List SequencedOrder)
      → IsLedger xs
      → All (IsTraders (ids xs)) buys
      → All (IsTraders (ids xs)) sells
      → get_elem? (ids xs) fee_recipient_index ≡ some recipient
      → Accepts
          (AllPaid xs)
          (match_market market base_asset fee_config fee_recipient_index xs buys sells)
  unfolding match_market
  match_market-Posts xs buys sells h tb ts lf =
      match_from-Posts (suc (length buys + length sells)) xs buys sells 0 0 h tb ts lf

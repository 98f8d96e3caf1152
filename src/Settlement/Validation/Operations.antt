-- ===== src/Settlement/Validation/Operations.antt =====
-- What the validation of orders and withdrawals guarantees.
use zk_clob.Prelude.{
  ℕ, ◌<◌, ◌≤◌, ◌≡◌, refl, Bool, true, false, not, List, [], ◌∷◌, Option, some, map, get_elem?,
  length, is_some, any_pair, sort_unstable, ltb, ◌==◌, All, arith,
}
use zk_clob.Types.Ids.{B256, AccountId}
use zk_clob.Types.Account.{Account}
use zk_clob.Types.Operations.{SignedWithdrawal}
use zk_clob.Types.Order.{SequencedOrder}
use zk_clob.Types.Config.{ExchangeConfig, market_of, asset_of}
use zk_clob.Types.Errors.{
  unknown_account, zero_price, zero_quantity, invalid_order_signature, unknown_market,
  duplicate_sequence, zero_withdrawal_amount, invalid_withdrawal_signature, unknown_asset,
}
use zk_clob.Types.Results.{Safe, Safe-bind, Safe-imp, fail_if-Safe}
use zk_clob.Hashing.{Crypto, order_hash, withdrawal_hash, has_valid_signature}
use zk_clob.Settlement.Balances.{holds}
use zk_clob.Settlement.Balances.Ledger.{ids}
use zk_clob.Settlement.Balances.Owned.{stands_of_holds}
use zk_clob.Settlement.Balances.Deposits.{holds-lt}
use zk_clob.Settlement.Balances.Withdrawals.{LeadsTo, IsSigners}
use zk_clob.Settlement.Matching.Loop.{IsReady}
use zk_clob.Settlement.Matching.Parties.{IsSigned}
use zk_clob.Settlement.Validation.{
  validate_account_index, validate_order, scan_orders, validate_orders, validate_withdrawal,
  validate_withdrawals,
}
use zk_clob.Settlement.Validation.Sequences.{occurrences, occurrences_distinct}

-- An operation carries an index.
abbrev pub Carries : Option ℕ → Type 0
Carries index = (i : ℕ) × (index ≡ some i)

-- The index leads to the account of the signer.
abbrev pub Leads : List Account → AccountId → Option ℕ → Type 0
Leads xs id index = (i : ℕ) × (index ≡ some i) × (holds (get_elem? xs i) id ≡ true)

validate_account_index-Safe :
    (index : Option ℕ) (xs : List Account) (id : AccountId)
    → Carries index
    → Safe (λ _. Leads xs id index) (validate_account_index index xs id)
unfolding validate_account_index
validate_account_index-Safe index xs id ix = simp ix.1 (
    Safe-imp (λ _. not (holds (get_elem? xs ix.0) id) ≡ false) (λ _. Leads xs id (some ix.0)) _
      (fail_if-Safe (not (holds (get_elem? xs ix.0) id)) unknown_account)
      (λ _ e. (ix.0, refl, ground arith)))

module _ (c : Crypto) (xs : List Account) (config : ExchangeConfig) (domain : B256) where
  pub record IsValidOrder (o : SequencedOrder) : Type 0 where
    pub price : 0 < o.operation.price
    pub quantity : 0 < o.operation.quantity
    pub signature : has_valid_signature c (order_hash c o.operation) o.signed_order domain ≡ true
    pub leads : Leads xs o.signer o.account_index
    pub market : is_some (market_of config o.operation.market_id) ≡ true

  pub record IsValidWithdrawal (w : SignedWithdrawal) : Type 0 where
    pub amount : 0 < w.operation.amount
    pub signature : has_valid_signature c (withdrawal_hash c w.operation) w domain ≡ true
    pub leads : Leads xs w.signer w.account_index
    pub asset : is_some (asset_of config w.operation.asset) ≡ true

  validate_order-Safe :
      (o : SequencedOrder)
      → Carries o.account_index
      → Safe (λ _. IsValidOrder o) (validate_order c o xs config domain)
  unfolding validate_order
  validate_order-Safe o ix =
      Safe-bind (λ _. (o.operation.price == 0) ≡ false) Q _ _
        (fail_if-Safe (o.operation.price == 0) zero_price)
        (λ _ p.
          Safe-bind (λ _. (o.operation.quantity == 0) ≡ false) Q _ _
            (fail_if-Safe (o.operation.quantity == 0) zero_quantity)
            (λ _ q.
              Safe-bind (λ _. not signed ≡ false) Q _ _
                (fail_if-Safe (not signed) invalid_order_signature)
                (λ _ s.
                  Safe-bind (λ _. Leads xs o.signer o.account_index) Q _ _
                    (validate_account_index-Safe o.account_index xs o.signer ix)
                    (λ _ l.
                      Safe-imp (λ _. not known ≡ false) Q _
                        (fail_if-Safe (not known) unknown_market)
                        (λ _ m. record {
                          price = ground arith;
                          quantity = ground arith;
                          signature = ground arith;
                          leads = l;
                          market = ground arith;
                        })))))
    where
      Q : Unit {0} → Type 0
      Q _ = IsValidOrder o

      signed : Bool
      signed = has_valid_signature c (order_hash c o.operation) o.signed_order domain

      known : Bool
      known = is_some (market_of config o.operation.market_id)

  abbrev Scanned : List SequencedOrder → List ℕ → Type 0
  Scanned os sequences =
      All IsValidOrder os × (sequences ≡ map (λ (o : SequencedOrder). o.sequence) os)

  scan_orders-Safe :
      (os : List SequencedOrder)
      → All (λ (o : SequencedOrder). Carries o.account_index) os
      → Safe (Scanned os) (scan_orders c os xs config domain)
  unfolding scan_orders
  scan_orders-Safe [] ix = (tt, refl)
  scan_orders-Safe (o ∷ os) ix =
      Safe-bind (λ _. IsValidOrder o) (Scanned (o ∷ os)) _ _ (validate_order-Safe o ix.0)
        (λ _ v.
          Safe-bind (Scanned os) (Scanned (o ∷ os)) (scan_orders c os xs config domain) _
            (scan_orders-Safe os ix.1) (λ ss r. ((v, r.0), rw r.1 refl)))

  pub record AreValidOrders (os : List SequencedOrder) : Type 0 where
    pub each : All IsValidOrder os
    pub distinct : (k : ℕ) → occurrences k (map (λ (o : SequencedOrder). o.sequence) os) ≤ 1

  -- Where every order carries an index, `validate_orders` never panics, and what it lets through is
  -- signed, leads to its signer's account, asks for something at a price in a known market, and has
  -- a sequence number of its own.
  pub validate_orders-Safe :
      (os : List SequencedOrder)
      → All (λ (o : SequencedOrder). Carries o.account_index) os
      → Safe (λ _. AreValidOrders os) (validate_orders c os xs config domain)
  unfolding validate_orders
  validate_orders-Safe os ix =
      Safe-bind (Scanned os) (λ _. AreValidOrders os) _ _ (scan_orders-Safe os ix)
        (λ ss r.
          Safe-imp (λ _. any_pair ◌==◌ (sort_unstable ltb ss) ≡ false) (λ _. AreValidOrders os) _
            (fail_if-Safe (any_pair ◌==◌ (sort_unstable ltb ss)) duplicate_sequence)
            (λ _ d. record { each = r.0; distinct = occurrences_distinct _ (rw r.1 at d) }))

  validate_withdrawal-Safe :
      (w : SignedWithdrawal)
      → Carries w.account_index
      → Safe (λ _. IsValidWithdrawal w) (validate_withdrawal c w xs config domain)
  unfolding validate_withdrawal
  validate_withdrawal-Safe w ix =
      Safe-bind (λ _. (w.operation.amount == 0) ≡ false) Q _ _
        (fail_if-Safe (w.operation.amount == 0) zero_withdrawal_amount)
        (λ _ p.
          Safe-bind (λ _. not signed ≡ false) Q _ _
            (fail_if-Safe (not signed) invalid_withdrawal_signature)
            (λ _ s.
              Safe-bind (λ _. Leads xs w.signer w.account_index) Q _ _
                (validate_account_index-Safe w.account_index xs w.signer ix)
                (λ _ l.
                  Safe-imp (λ _. not known ≡ false) Q _ (fail_if-Safe (not known) unknown_asset)
                    (λ _ m. record {
                      amount = ground arith;
                      signature = ground arith;
                      leads = l;
                      asset = ground arith;
                    }))))
    where
      Q : Unit {0} → Type 0
      Q _ = IsValidWithdrawal w

      signed : Bool
      signed = has_valid_signature c (withdrawal_hash c w.operation) w domain

      known : Bool
      known = is_some (asset_of config w.operation.asset)

  -- Where every withdrawal carries an index, `validate_withdrawals` never panics, and what it lets
  -- through is signed, leads to its signer's account, and asks for some of a known asset.
  pub validate_withdrawals-Safe :
      (ws : List SignedWithdrawal)
      → All (λ (w : SignedWithdrawal). Carries w.account_index) ws
      → Safe (λ _. All IsValidWithdrawal ws) (validate_withdrawals c ws xs config domain)
  unfolding validate_withdrawals
  validate_withdrawals-Safe [] ix = tt
  validate_withdrawals-Safe (w ∷ ws) ix =
      Safe-bind (λ _. IsValidWithdrawal w) (λ _. All IsValidWithdrawal (w ∷ ws)) _ _
        (validate_withdrawal-Safe w ix.0)
        (λ _ v.
          Safe-imp (λ _. All IsValidWithdrawal ws) (λ _. All IsValidWithdrawal (w ∷ ws)) _
            (validate_withdrawals-Safe ws ix.1) (λ _ r. (v, r)))

  pub IsReady-of_IsValidOrder : (o : SequencedOrder) → IsValidOrder o → IsReady (length xs) o
  IsReady-of_IsValidOrder o v =
      ((v.leads.0, v.leads.1, holds-lt xs o.signer v.leads.0 v.leads.2), v.quantity)

  pub LeadsTo-of_IsValidWithdrawal :
      (w : SignedWithdrawal) → IsValidWithdrawal w → LeadsTo (length xs) w
  LeadsTo-of_IsValidWithdrawal w v =
      (v.leads.0, v.leads.1, holds-lt xs w.signer v.leads.0 v.leads.2)

  pub IsSigned-of_IsValidOrder : (o : SequencedOrder) → IsValidOrder o → IsSigned (ids xs) o
  IsSigned-of_IsValidOrder o v =
      ((v.leads.0, v.leads.1, stands_of_holds xs v.leads.0 o.signer v.leads.2), v.quantity)

  pub IsSigners-of_IsValidWithdrawal :
      (w : SignedWithdrawal) → IsValidWithdrawal w → IsSigners (ids xs) w
  IsSigners-of_IsValidWithdrawal w v =
      (v.leads.0, v.leads.1, stands_of_holds xs v.leads.0 w.signer v.leads.2)

-- ===== src/Settlement/Nonces/Consume.antt =====
-- `consume_nonces`, settlement/nonces.rs, and the operations of each account.
use zk_clob.Prelude.{
  ℕ, zero, suc, ◌+◌, ◌<◌, ◌≡◌, refl, ap, List, [], ◌∷◌, Option, none, some, length,
  length-replicate, All, replicate, ◌==◌, if◌then◌else◌, arith, ltb, checked_add_u64, u64_mod, inl,
  inr, Bool-cases,
}
use zk_clob.Types.Ids.{AccountId, AssetId}
use zk_clob.Types.Account.{Account}
use zk_clob.Types.Operations.{SignedWithdrawal}
use zk_clob.Types.Order.{SequencedOrder}
use zk_clob.Types.Results.{Safe, Safe-bind, Safe-imp}
use zk_clob.Settlement.Balances.Ledger.{total, ids, IsLedger, IsAfter-of_ids}
use zk_clob.Settlement.Balances.Owned.{owned}
use zk_clob.Settlement.Balances.Withdrawals.{LeadsTo}
use zk_clob.Settlement.Matching.Trades.{IsIndexed}
use zk_clob.Settlement.Nonces.{
  count_at, count_orders, count_withdrawals, advance_nonces, consume_nonces,
}

-- The entry at an index, 0 out of range.
abbrev pub count_of : List ℕ → ℕ → ℕ
count_of [] i = 0
count_of (n ∷ ns) zero = n
count_of (n ∷ ns) (suc i) = count_of ns i

-- The next nonce of the account at an index, 0 out of range.
abbrev pub nonce_at : List Account → ℕ → ℕ
nonce_at [] i = 0
nonce_at (a ∷ as') zero = a.next_nonce
nonce_at (a ∷ as') (suc i) = nonce_at as' i

-- 1 for an operation of the account at an index.
abbrev pub use_of : ℕ → Option ℕ → ℕ
use_of i none = 0
use_of i (some j) = if i == j then 1 else 0

abbrev pub order_uses : ℕ → List SequencedOrder → ℕ
order_uses i [] = 0
order_uses i (o ∷ os) = use_of i o.account_index + order_uses i os

abbrev pub withdrawal_uses : ℕ → List SignedWithdrawal → ℕ
withdrawal_uses i [] = 0
withdrawal_uses i (w ∷ ws) = use_of i w.account_index + withdrawal_uses i ws

-- Counts of one length, where each entry has grown by what the uses say.
pub record IsCounted (uses : ℕ → ℕ) (ns ns' : List ℕ) : Type 0 where
  pub same_length : length ns' ≡ length ns
  pub grown : (i : ℕ) → count_of ns' i ≡ count_of ns i + uses i

count_at-IsCounted :
    (ns : List ℕ) (j : ℕ)
    → j < length ns
    → Safe (IsCounted (λ i. use_of i (some j)) ns) (count_at ns j)
unfolding checked_add_u64
count_at-IsCounted [] j h = absurd (omega arith)
count_at-IsCounted (n ∷ ns) zero h = elim (Bool-cases (ltb (n + 1) u64_mod)) [
  | inl fits ↦ rw fits (record { same_length = refl; grown = grown })
  | inr over ↦ rw over tt
]
  where
    grown : (i : ℕ) → count_of ((n + 1) ∷ ns) i ≡ count_of (n ∷ ns) i + use_of i (some 0)
    grown zero = refl
    grown (suc i) = ground arith
count_at-IsCounted (n ∷ ns) (suc j) h =
    Safe-bind (IsCounted (λ i. use_of i (some j)) ns)
      (IsCounted (λ i. use_of i (some (suc j))) (n ∷ ns)) _ _
      (count_at-IsCounted ns j (omega arith))
      (λ ns' c. record { same_length = ap suc c.same_length; grown = grown ns' c.grown })
  where
    grown :
        (ns' : List ℕ)
        → ((i : ℕ) → count_of ns' i ≡ count_of ns i + use_of i (some j))
        → (i : ℕ) → count_of (n ∷ ns') i ≡ count_of (n ∷ ns) i + use_of i (some (suc j))
    grown ns' g zero = ground arith
    grown ns' g (suc i) = ground (arith, g i)

IsCounted-trans :
    (f g h : ℕ → ℕ) (xs ys zs : List ℕ)
    → ((i : ℕ) → h i ≡ f i + g i)
    → IsCounted f xs ys
    → IsCounted g ys zs
    → IsCounted h xs zs
IsCounted-trans f g h xs ys zs e c d = record {
  same_length = omega (arith, c.same_length, d.same_length);
  grown = λ i. omega (arith, c.grown i, d.grown i, e i);
}

count_orders-IsCounted :
    (ns : List ℕ) (os : List SequencedOrder)
    → All (IsIndexed (length ns)) os
    → Safe (IsCounted (λ i. order_uses i os) ns) (count_orders ns os)
count_orders-IsCounted ns [] h = record { same_length = refl; grown = λ i. omega arith }
count_orders-IsCounted ns (o ∷ os) h = simp h.0.1 (
    Safe-bind (IsCounted (λ i. use_of i (some h.0.0)) ns)
      (IsCounted (λ i. use_of i (some h.0.0) + order_uses i os) ns) _ _
      (count_at-IsCounted ns h.0.0 h.0.2)
      (λ ns' c.
        Safe-imp (IsCounted (λ i. order_uses i os) ns') _ _
          (count_orders-IsCounted ns' os (rw c.same_length h.1))
          (λ ns'' d. IsCounted-trans _ _ _ ns ns' ns'' (λ i. refl) c d)))

count_withdrawals-IsCounted :
    (ns : List ℕ) (ws : List SignedWithdrawal)
    → All (LeadsTo (length ns)) ws
    → Safe (IsCounted (λ i. withdrawal_uses i ws) ns) (count_withdrawals ns ws)
count_withdrawals-IsCounted ns [] h = record { same_length = refl; grown = λ i. omega arith }
count_withdrawals-IsCounted ns (o ∷ os) h = simp h.0.1 (
    Safe-bind (IsCounted (λ i. use_of i (some h.0.0)) ns)
      (IsCounted (λ i. use_of i (some h.0.0) + withdrawal_uses i os) ns) _ _
      (count_at-IsCounted ns h.0.0 h.0.2)
      (λ ns' c.
        Safe-imp (IsCounted (λ i. withdrawal_uses i os) ns') _ _
          (count_withdrawals-IsCounted ns' os (rw c.same_length h.1))
          (λ ns'' d. IsCounted-trans _ _ _ ns ns' ns'' (λ i. refl) c d)))

-- Accounts after their nonces have grown: nothing else has changed.
pub record IsAdvanced (uses : ℕ → ℕ) (xs ys : List Account) : Type 0 where
  pub ledger : IsLedger ys
  pub same_ids : ids ys ≡ ids xs
  pub same_total : (asset : AssetId) → total asset ys ≡ total asset xs
  pub same_owned : (id : AccountId) (asset : AssetId) → owned id asset ys ≡ owned id asset xs
  pub advanced : (i : ℕ) → nonce_at ys i ≡ nonce_at xs i + uses i

advance_nonces-IsAdvanced :
    (xs : List Account) (ns : List ℕ)
    → IsLedger xs
    → length ns ≡ length xs
    → Safe (IsAdvanced (count_of ns) xs) (advance_nonces xs ns)
unfolding advance_nonces checked_add_u64
advance_nonces-IsAdvanced [] [] h e = record {
  ledger = tt;
  same_ids = refl;
  same_total = λ a. refl;
  same_owned = λ id a. refl;
  advanced = λ i. omega arith;
}
advance_nonces-IsAdvanced [] (n ∷ ns) h e = absurd (omega arith)
advance_nonces-IsAdvanced (x ∷ xs) [] h e = absurd (omega arith)
advance_nonces-IsAdvanced (x ∷ xs) (n ∷ ns) h e =
    elim (Bool-cases (ltb (x.next_nonce + n) u64_mod)) [
      | inl fits ↦ rw fits (
          Safe-bind (IsAdvanced (count_of ns) xs) (IsAdvanced (count_of (n ∷ ns)) (x ∷ xs)) _ _
            (advance_nonces-IsAdvanced xs ns h.2 (omega arith))
            (λ ys v. record {
              ledger = (h.0, IsAfter-of_ids x.id xs ys v.same_ids h.1, v.ledger);
              same_ids = ap (λ is. x.id ∷ is) v.same_ids;
              same_total = λ asset. omega (arith, v.same_total asset);
              same_owned = λ id asset. omega (arith, v.same_owned id asset);
              advanced = advanced ys v.advanced;
            }))
      | inr over ↦ rw over tt
    ]
  where
    advanced :
        (ys : List Account)
        → ((i : ℕ) → nonce_at ys i ≡ nonce_at xs i + count_of ns i)
        → (i : ℕ)
        → nonce_at (record x { next_nonce = x.next_nonce + n } ∷ ys) i
          ≡ nonce_at (x ∷ xs) i + count_of (n ∷ ns) i
    advanced ys g zero = refl
    advanced ys g (suc i) = g i

count_of-replicate : (n i : ℕ) → count_of (replicate n 0) i ≡ 0
count_of-replicate zero i = refl
count_of-replicate (suc n) zero = refl
count_of-replicate (suc n) (suc i) = count_of-replicate n i

-- On a ledger that every operation leads into, `consume_nonces` never panics. What it accepts is a
-- ledger with the same accounts, totals and balances, in which each account's nonce has grown by the number
-- of its orders and withdrawals.
pub consume_nonces-IsAdvanced :
    (xs : List Account) (os : List SequencedOrder) (ws : List SignedWithdrawal)
    → IsLedger xs
    → All (IsIndexed (length xs)) os
    → All (LeadsTo (length xs)) ws
    → Safe (IsAdvanced (λ i. order_uses i os + withdrawal_uses i ws) xs) (consume_nonces xs os ws)
unfolding consume_nonces
consume_nonces-IsAdvanced xs os ws h ho hw =
    Safe-bind (IsCounted (λ i. order_uses i os) zeros) Done _ _
      (count_orders-IsCounted zeros os (rw size ho))
      (λ ns c.
        Safe-bind (IsCounted (λ i. withdrawal_uses i ws) ns) Done _ _
          (count_withdrawals-IsCounted ns ws (rw (c.same_length, size) hw))
          (λ ns' d.
            Safe-imp (IsAdvanced (count_of ns') xs) Done _
              (advance_nonces-IsAdvanced xs ns' h
                (omega (arith, c.same_length, d.same_length, size)))
              (λ ys v. record {
                ledger = v.ledger;
                same_ids = v.same_ids;
                same_total = v.same_total;
                same_owned = v.same_owned;
                advanced = λ i.
                    omega
                      (arith, v.advanced i, c.grown i, d.grown i, count_of-replicate (length xs) i);
              })))
  where
    zeros : List ℕ
    zeros = replicate (length xs) 0

    size : length zeros ≡ length xs
    size = length-replicate (length xs) 0

    Done : List Account → Type 0
    Done = IsAdvanced (λ i. order_uses i os + withdrawal_uses i ws) xs

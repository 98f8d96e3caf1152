-- ===== src/Settlement/Balances/Forced.antt =====
-- Forced withdrawals, settlement/forced_withdrawals.rs, on ledgers.
use zk_clob.Prelude.{
  ℕ, ◌+◌, ◌<◌, ◌≤◌, ◌≡◌, refl, sym, ap, ◌∙◌, min, false, List, [], ◌∷◌, Option, none, some,
  get_elem?, ltb, ltb→lt, inl, inr, Bool-cases, arith,
}
use mathlib.Core.Path.{subst}
use zk_clob.Types.Ids.{AccountId, AssetId}
use zk_clob.Types.Account.{Account}
use zk_clob.Types.Operations.{ForcedWithdrawal}
use zk_clob.Types.Errors.{Result, ok, err, panic}
use zk_clob.Types.Results.{Succeeds, Succeeds-bind, Succeeds-and}
use zk_clob.Account.{balance}
use zk_clob.Account.Held.{part, held, balance_in-eq-held}
use zk_clob.Account.Laws.{DebitResult, debit_result}
use zk_clob.Settlement.Balances.{target, drain, apply_forced_withdrawal, apply_forced_withdrawals}
use zk_clob.Settlement.Balances.Ledger.{
  ids, IsLedger, IsMoved, IsShifted, IsShifted-refl, IsShifted-trans, IsShifted-flows, no_flow,
  flow, get_elem?-IsCanonical, update_at-Succeeds,
}
use zk_clob.Settlement.Balances.Named.{IsDue, Finds, target-Finds}
use zk_clob.Settlement.Balances.Owned.{
  owned, owned_at, posted, no_post, IsPosted, IsPosted-refl, IsPosted-flows, IsPosted-trans,
  update_at-debits, get_elem?-ids,
}

-- A debit that is covered succeeds.
debit_covered :
    (a : Account) (asset : AssetId) (amount : ℕ) (r : Result Account)
    → 0 < amount
    → amount ≤ held asset a.balances
    → DebitResult a asset amount r
    → Succeeds (IsMoved no_flow (flow asset amount) a) r
debit_covered a asset amount (ok a') pos le h = record {
  same_id = h.1.same_id;
  same_nonce = h.1.same_nonce;
  canonical = h.1.canonical;
  moved = λ other. omega (arith, h.1.moved other);
}
debit_covered a asset amount (err e) pos le h = absurd (omega (arith, h.0))
debit_covered a asset amount panic pos le h = h

balance_at :
    (xs : List Account) (i : ℕ) (a : Account) (asset : AssetId)
    → IsLedger xs
    → get_elem? xs i ≡ some a
    → balance a asset ≡ held asset a.balances
unfolding balance
balance_at xs i a asset h e = balance_in-eq-held asset a.balances (get_elem?-IsCanonical xs i h e)

-- The ledger and the request after one forced withdrawal: the account that it names has lost what was
-- due, no other account has changed, and the request has that amount.
pub record IsDrained (xs : List Account) (w : ForcedWithdrawal)
    (r : List Account × ForcedWithdrawal) : Type 0 where
  pub shifted : IsShifted no_flow (flow w.asset r.1.amount) xs r.0
  pub debited : IsPosted no_post (posted w.account w.asset r.1.amount) xs r.0
  pub due : IsDue xs w r.1.amount
  pub request_is : r.1 ≡ record w { amount = r.1.amount }

abbrev Drains : List Account → ForcedWithdrawal → ℕ × List Account → Type 0
Drains xs w r =
    IsShifted no_flow (flow w.asset r.0) xs r.1
    × IsPosted no_post (posted w.account w.asset r.0) xs r.1
    × IsDue xs w r.0

Drains-none :
    (xs : List Account) (w : ForcedWithdrawal) → IsLedger xs → IsDue xs w 0 → Drains xs w (0, xs)
Drains-none xs w h due = (
  IsShifted-flows no_flow no_flow no_flow (flow w.asset 0) xs xs (λ a. ground arith)
      (IsShifted-refl xs h),
  IsPosted-flows no_post no_post no_post (posted w.account w.asset 0) xs xs (λ id a. ground arith)
      (IsPosted-refl xs h),
  due,
)

ltb_positive : (n : ℕ) → ltb 0 n ≡ false → n ≡ 0
ltb_positive n h = ground arith

drain-Succeeds :
    (xs : List Account) (w : ForcedWithdrawal) (t : Option (ℕ × Account))
    → IsLedger xs
    → Finds xs w t
    → Succeeds (Drains xs w) (drain xs w t)
drain-Succeeds xs w none h f = Drains-none xs w h (IsDue.astray f)
drain-Succeeds xs w (some (i, a)) h f = elim (Bool-cases (ltb 0 drained)) [
  | inl some_left ↦ rw some_left (
      Succeeds-bind (λ ys. Shifted ys × Posted ys) (Drains xs w) _ _
        (Succeeds-and Shifted Posted _
          (update_at-Succeeds no_flow (flow w.asset drained) _ xs i a h f.0 (
            debit_covered a w.asset drained _ (ltb→lt _ _ some_left)
              (omega (arith, balance_at xs i a w.asset h f.0))
              (debit_result a w.asset drained (get_elem?-IsCanonical xs i h f.0))))
          (update_at-debits w.asset drained w.account xs i h stands))
        (λ ys s. (s.0, s.1, due)))
  | inr nothing ↦ rw nothing (
      subst (λ n. Drains xs w (n, xs)) (omega (arith, ltb_positive drained nothing))
        (Drains-none xs w h (subst (IsDue xs w) (ltb_positive drained nothing) due)))
]
  where
    drained : ℕ
    drained = min w.amount (balance a w.asset)

    Shifted : List Account → Type 0
    Shifted = IsShifted no_flow (flow w.asset drained) xs

    Posted : List Account → Type 0
    Posted = IsPosted no_post (posted w.account w.asset drained) xs

    stands : get_elem? (ids xs) i ≡ some w.account
    stands = get_elem?-ids xs i a f.0 ∙ ap (λ id. some id) f.1

    holds_it : balance a w.asset ≡ owned w.account w.asset xs
    holds_it = omega (
      arith,
      balance_at xs i a w.asset h f.0,
      subst (λ id. owned id w.asset xs ≡ held w.asset a.balances) f.1
          (owned_at w.asset xs i a h f.0),
    )

    due : IsDue xs w drained
    due = subst (λ n. IsDue xs w (min w.amount n)) (sym holds_it) (IsDue.led (i, f.2, stands))

apply_forced_withdrawal-Succeeds :
    (xs : List Account) (w : ForcedWithdrawal)
    → IsLedger xs
    → Succeeds (IsDrained xs w) (apply_forced_withdrawal xs w)
unfolding apply_forced_withdrawal
apply_forced_withdrawal-Succeeds xs w h =
    Succeeds-bind (Drains xs w) (IsDrained xs w) _ _
      (drain-Succeeds xs w (target xs w w.account_index) h (target-Finds xs w w.account_index refl))
      (λ r d. record { shifted = d.0; debited = d.1; due = d.2; request_is = refl })

-- What requests drained of an asset, summed.
abbrev pub drained : AssetId → List ForcedWithdrawal → ℕ
drained asset [] = 0
drained asset (w ∷ ws) = part asset w.asset w.amount + drained asset ws

-- The same from one account.
abbrev pub drained_from : AccountId → AssetId → List ForcedWithdrawal → ℕ
drained_from id asset [] = 0
drained_from id asset (w ∷ ws) =
    posted w.account w.asset w.amount id asset + drained_from id asset ws

-- Requests taken in turn: each drains what is due to it in the ledger that the ones before it left.
abbrev pub IsExecuted :
    List Account → List ForcedWithdrawal → List Account → List ForcedWithdrawal → Type 0
IsExecuted xs [] zs [] = zs ≡ xs
IsExecuted xs [] zs (w' ∷ ws') = ⊥
IsExecuted xs (w ∷ ws) zs [] = ⊥
IsExecuted xs (w ∷ ws) zs (w' ∷ ws') =
    (ys : List Account) × IsDrained xs w (ys, w') × IsExecuted ys ws zs ws'

pub record Executes (xs : List Account) (ws : List ForcedWithdrawal)
    (r : List Account × List ForcedWithdrawal) : Type 0 where
  pub each : IsExecuted xs ws r.0 r.1
  pub shifted : IsShifted no_flow (λ asset. drained asset r.1) xs r.0
  pub debited : IsPosted no_post (λ id asset. drained_from id asset r.1) xs r.0

module _ (xs : List Account) (w : ForcedWithdrawal) (ws : List ForcedWithdrawal)
    (first : List Account × ForcedWithdrawal) (rest : List Account × List ForcedWithdrawal)
    (d : IsDrained xs w first) (x : Executes first.0 ws rest) where
  requests_add :
      (a : AssetId)
      → drained a (first.1 ∷ rest.1) ≡ flow w.asset first.1.amount a + drained a rest.1
  requests_add a =
      omega (arith, ap (λ (v : ForcedWithdrawal). part a v.asset first.1.amount) d.request_is)

  posts_add :
      (id : AccountId) (a : AssetId)
      → drained_from id a (first.1 ∷ rest.1)
        ≡ posted w.account w.asset first.1.amount id a + drained_from id a rest.1
  posts_add id a = omega (
    arith,
    ap (λ (v : ForcedWithdrawal). posted v.account v.asset first.1.amount id a) d.request_is,
  )

  Executes-cons : Executes xs (w ∷ ws) (rest.0, first.1 ∷ rest.1)
  Executes-cons = record {
    each = (first.0, d, x.each);
    shifted =
        IsShifted-flows no_flow (λ a. flow w.asset first.1.amount a + drained a rest.1) no_flow
          (λ a. drained a (first.1 ∷ rest.1)) xs rest.0 (λ a. omega (arith, requests_add a))
          (IsShifted-trans no_flow (flow w.asset first.1.amount) no_flow (λ a. drained a rest.1) xs
            first.0 rest.0 d.shifted x.shifted);
    debited =
        IsPosted-flows _ _ no_post (λ id a. drained_from id a (first.1 ∷ rest.1)) xs rest.0
          (λ id a. omega (arith, posts_add id a))
          (IsPosted-trans no_post (posted w.account w.asset first.1.amount) no_post
            (λ id a. drained_from id a rest.1) xs first.0 rest.0 d.debited x.debited);
  }

-- The queue cannot be blocked: on a ledger every list of requests goes through, whatever accounts,
-- assets, amounts and indices it names. In turn, where its index leads to the account that it names,
-- a request takes from this account the lesser of its amount and what the account holds of the
-- asset; where the index leads elsewhere or is missing, it takes nothing. It comes back with the
-- amount taken, and no other account changes. The ledger stays in order, and each total falls by
-- what is drained.
pub apply_forced_withdrawals-Succeeds :
    (xs : List Account) (ws : List ForcedWithdrawal)
    → IsLedger xs
    → Succeeds (Executes xs ws) (apply_forced_withdrawals xs ws)
unfolding apply_forced_withdrawals
apply_forced_withdrawals-Succeeds xs [] h = record {
  each = refl;
  shifted = IsShifted-refl xs h;
  debited = IsPosted-refl xs h;
}
apply_forced_withdrawals-Succeeds xs (w ∷ ws) h =
    Succeeds-bind (IsDrained xs w) (Executes xs (w ∷ ws)) _ _
      (apply_forced_withdrawal-Succeeds xs w h)
      (λ first d.
        Succeeds-bind (Executes first.0 ws) (Executes xs (w ∷ ws)) _ _
          (apply_forced_withdrawals-Succeeds first.0 ws d.shifted.ledger)
          (λ rest x. Executes-cons xs w ws first rest d x))

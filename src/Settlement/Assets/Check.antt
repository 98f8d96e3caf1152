-- ===== src/Settlement/Assets/Check.antt =====
-- The baseline of the conservation check and its comparison with the accounts.
use zk_clob.Prelude.{ℕ, ◌+◌, ◌<◌, ◌≡◌, ◌↔◌, refl, ap, List, [], ◌∷◌, All, arith}
use zk_clob.Types.Ids.{AssetId}
use zk_clob.Types.Account.{AssetBalance, Account}
use zk_clob.Types.Operations.{Deposit, ForcedWithdrawal, SignedWithdrawal}
use zk_clob.Types.Errors.{Result, ok, err, panic, ◌>>=◌, asset_conservation_violation}
use zk_clob.Types.Results.{Safe, Safe-bind, Safe-imp}
use zk_clob.Account.Held.{part, held, IsCanonical}
use zk_clob.Settlement.Balances.Ledger.{total, IsLedger}
use zk_clob.Settlement.Balances.Deposits.{deposited}
use zk_clob.Settlement.Balances.Forced.{drained}
use zk_clob.Settlement.Balances.Withdrawals.{withdrawn}
use zk_clob.Settlement.Assets.{
  AssetTracker, add_balances, add_accounts, add_deposits, subtract_withdrawals,
  subtract_forced_withdrawals, subtract_balances, subtract_accounts,
}
use zk_clob.Settlement.Assets.Amounts.{
  amount_of, IsTracker, IsAdded, add-IsAdded, SubtractResult, subtract_result,
}

-- A tracker that has gained what `gain` says.
pub record IsRaised (t : AssetTracker) (gain : AssetId → ℕ) (t' : AssetTracker) : Type 0 where
  pub tracker : IsTracker t'
  pub amounts : (a : AssetId) → amount_of a t' ≡ amount_of a t + gain a

add_balances-IsRaised :
    (t : AssetTracker) (bs : List AssetBalance)
    → IsTracker t
    → IsCanonical bs
    → Safe (IsRaised t (λ a. held a bs)) (add_balances t bs)
add_balances-IsRaised t [] h c = record { tracker = h; amounts = λ a. omega arith }
add_balances-IsRaised t (b ∷ bs) h c =
    Safe-bind (IsAdded t b.asset b.available) (IsRaised t (λ a. held a (b ∷ bs))) _ _
      (add-IsAdded t b.asset b.available h c.0)
      (λ t' i.
        Safe-imp (IsRaised t' (λ a. held a bs)) _ _ (add_balances-IsRaised t' bs i.tracker c.2)
          (λ t'' r. record {
            tracker = r.tracker;
            amounts = λ a. omega (arith, r.amounts a, i.amounts a);
          }))

pub add_accounts-IsRaised :
    (t : AssetTracker) (xs : List Account)
    → IsTracker t
    → IsLedger xs
    → Safe (IsRaised t (λ a. total a xs)) (add_accounts t xs)
add_accounts-IsRaised t [] h l = record { tracker = h; amounts = λ a. omega arith }
add_accounts-IsRaised t (x ∷ xs) h l =
    Safe-bind (IsRaised t (λ a. held a x.balances)) (IsRaised t (λ a. total a (x ∷ xs))) _ _
      (add_balances-IsRaised t x.balances h l.0)
      (λ t' i.
        Safe-imp (IsRaised t' (λ a. total a xs)) _ _ (add_accounts-IsRaised t' xs i.tracker l.2)
          (λ t'' r. record {
            tracker = r.tracker;
            amounts = λ a. omega (arith, r.amounts a, i.amounts a);
          }))

pub add_deposits-IsRaised :
    (t : AssetTracker) (ds : List Deposit)
    → IsTracker t
    → All (λ (d : Deposit). 0 < d.amount) ds
    → Safe (IsRaised t (λ a. deposited a ds)) (add_deposits t ds)
add_deposits-IsRaised t [] h p = record { tracker = h; amounts = λ a. omega arith }
add_deposits-IsRaised t (d ∷ ds) h p =
    Safe-bind (IsAdded t d.asset d.amount) (IsRaised t (λ a. deposited a (d ∷ ds))) _ _
      (add-IsAdded t d.asset d.amount h p.0)
      (λ t' i.
        Safe-imp (IsRaised t' (λ a. deposited a ds)) _ _ (add_deposits-IsRaised t' ds i.tracker p.1)
          (λ t'' r. record {
            tracker = r.tracker;
            amounts = λ a. omega (arith, r.amounts a, i.amounts a);
          }))

-- The results of taking several amounts: each is taken, or some asset falls short.
abbrev pub LowerResult : AssetTracker → (AssetId → ℕ) → Result AssetTracker → Type 0
LowerResult t loss (ok t') =
    IsTracker t' × ((a : AssetId) → amount_of a t' + loss a ≡ amount_of a t)
LowerResult t loss (err e) =
    ((a : AssetId) × (amount_of a t < loss a)) × (e ≡ asset_conservation_violation)
LowerResult t loss panic = ⊥

LowerResult-of_SubtractResult :
    (t : AssetTracker) (asset : AssetId) (n : ℕ) (r : Result AssetTracker)
    → SubtractResult t asset n r
    → LowerResult t (λ a. part a asset n) r
LowerResult-of_SubtractResult t asset n (ok t') s = (s.tracker, s.amounts)
LowerResult-of_SubtractResult t asset n (err e) s = ((asset, ground (arith, s.0)), s.1)
LowerResult-of_SubtractResult t asset n panic s = s

-- A loss of two parts, the second taken from what the first leaves.
LowerResult-rest :
    (t t' : AssetTracker) (first rest loss : AssetId → ℕ) (r : Result AssetTracker)
    → ((a : AssetId) → loss a ≡ first a + rest a)
    → ((a : AssetId) → amount_of a t' + first a ≡ amount_of a t)
    → LowerResult t' rest r
    → LowerResult t loss r
LowerResult-rest t t' first rest loss (ok t'') e s l = (l.0, λ a. omega (arith, e a, s a, l.1 a))
LowerResult-rest t t' first rest loss (err x) e s l =
    ((l.0.0, omega (arith, e l.0.0, s l.0.0, l.0.1)), l.1)
LowerResult-rest t t' first rest loss panic e s l = l

LowerResult-bind :
    (t : AssetTracker) (first rest loss : AssetId → ℕ) (m : Result AssetTracker)
    (f : AssetTracker → Result AssetTracker)
    → ((a : AssetId) → loss a ≡ first a + rest a)
    → LowerResult t first m
    → ((t' : AssetTracker) → IsTracker t' → LowerResult t' rest (f t'))
    → LowerResult t loss (m >>= f)
LowerResult-bind t first rest loss (ok t') f e l k =
    LowerResult-rest t t' first rest loss (f t') e l.1 (k t' l.0)
LowerResult-bind t first rest loss (err x) f e l k = ((l.0.0, omega (arith, e l.0.0, l.0.1)), l.1)
LowerResult-bind t first rest loss panic f e l k = l

pub subtract_withdrawals-result :
    (t : AssetTracker) (ws : List SignedWithdrawal)
    → IsTracker t
    → LowerResult t (λ a. withdrawn a ws) (subtract_withdrawals t ws)
subtract_withdrawals-result t [] h = (h, λ a. omega arith)
subtract_withdrawals-result t (w ∷ ws) h =
    LowerResult-bind t (λ a. part a w.operation.asset w.operation.amount) (λ a. withdrawn a ws)
      (λ a. withdrawn a (w ∷ ws)) _ _ (λ a. refl)
      (LowerResult-of_SubtractResult t w.operation.asset w.operation.amount _
        (subtract_result t w.operation.asset w.operation.amount h))
      (λ t' h'. subtract_withdrawals-result t' ws h')

subtract_balances-result :
    (t : AssetTracker) (bs : List AssetBalance)
    → IsTracker t
    → LowerResult t (λ a. held a bs) (subtract_balances t bs)
subtract_balances-result t [] h = (h, λ a. omega arith)
subtract_balances-result t (b ∷ bs) h =
    LowerResult-bind t (λ a. part a b.asset b.available) (λ a. held a bs) (λ a. held a (b ∷ bs)) _ _
      (λ a. refl)
      (LowerResult-of_SubtractResult t b.asset b.available _
        (subtract_result t b.asset b.available h))
      (λ t' h'. subtract_balances-result t' bs h')

pub subtract_forced_withdrawals-result :
    (t : AssetTracker) (ws : List ForcedWithdrawal)
    → IsTracker t
    → LowerResult t (λ a. drained a ws) (subtract_forced_withdrawals t ws)
subtract_forced_withdrawals-result t [] h = (h, λ a. omega arith)
subtract_forced_withdrawals-result t (w ∷ ws) h =
    LowerResult-bind t (λ a. part a w.asset w.amount) (λ a. drained a ws) (λ a. drained a (w ∷ ws))
      _ _ (λ a. refl)
      (LowerResult-of_SubtractResult t w.asset w.amount _ (subtract_result t w.asset w.amount h))
      (λ t' h'. subtract_forced_withdrawals-result t' ws h')

-- What a tracker that is left has lost.
abbrev pub IsLowered : AssetTracker → (AssetId → ℕ) → AssetTracker → Type 0
IsLowered t loss t' = IsTracker t' × ((a : AssetId) → amount_of a t' + loss a ≡ amount_of a t)

pub LowerResult-Safe :
    (t : AssetTracker) (loss : AssetId → ℕ) (r : Result AssetTracker)
    → LowerResult t loss r
    → Safe (IsLowered t loss) r
LowerResult-Safe t loss (ok t') l = l
LowerResult-Safe t loss (err e) l = tt
LowerResult-Safe t loss panic l = l

pub subtract_accounts-result :
    (t : AssetTracker) (xs : List Account)
    → IsTracker t
    → LowerResult t (λ a. total a xs) (subtract_accounts t xs)
subtract_accounts-result t [] h = (h, λ a. omega arith)
subtract_accounts-result t (x ∷ xs) h =
    LowerResult-bind t (λ a. held a x.balances) (λ a. total a xs) (λ a. total a (x ∷ xs)) _ _
      (λ a. refl) (subtract_balances-result t x.balances h)
      (λ t' h'. subtract_accounts-result t' xs h')

empty_of_zero : (t : AssetTracker) → IsTracker t → ((a : AssetId) → amount_of a t ≡ 0) → t ≡ []
empty_of_zero [] h z = refl
empty_of_zero ((key, value) ∷ ts) h z = absurd (ground (arith, z key, h.0))

empty_of_LowerResult :
    (t : AssetTracker) (loss : AssetId → ℕ) (r : Result AssetTracker)
    → LowerResult t loss r
    → ((a : AssetId) → amount_of a t ≡ loss a)
    → r ≡ ok []
empty_of_LowerResult t loss (ok t') l e =
    ap ok (empty_of_zero t' l.0 (λ a. omega (arith, l.1 a, e a)))
empty_of_LowerResult t loss (err x) l e = absurd (omega (arith, l.0.1, e l.0.0))
empty_of_LowerResult t loss panic l e = absurd l

amounts_of_LowerResult :
    (t : AssetTracker) (loss : AssetId → ℕ) (r : Result AssetTracker)
    → LowerResult t loss r
    → r ≡ ok []
    → (a : AssetId) → amount_of a t ≡ loss a
amounts_of_LowerResult t loss r l e a =
    let left : LowerResult t loss (ok []) = rw e at l in omega (arith, left.1 a)

-- On a tracker with one positive entry for an asset, the check at the end of a batch passes, which
-- is to say that the tracker is empty once the accounts are taken from it, exactly where it tracks of
-- every asset what the accounts hold of it in total.
pub subtract_accounts_iff :
    (t : AssetTracker) (xs : List Account)
    → IsTracker t
    → (subtract_accounts t xs ≡ ok []) ↔ ((a : AssetId) → amount_of a t ≡ total a xs)
subtract_accounts_iff t xs h = (
  amounts_of_LowerResult t (λ a. total a xs) (subtract_accounts t xs)
      (subtract_accounts-result t xs h),
  empty_of_LowerResult t (λ a. total a xs) (subtract_accounts t xs)
      (subtract_accounts-result t xs h),
)

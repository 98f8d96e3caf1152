-- ===== src/Settlement/Assets/Safety.antt =====
-- The tracker of settlement/assets.rs, and panics.
use zk_clob.Prelude.{ℕ, List, [], ◌∷◌, checked_add, checked_sub, ◌==◌, inl, inr, Bool-cases}
use zk_clob.Types.Ids.{AssetId}
use zk_clob.Types.Account.{AssetBalance, Account}
use zk_clob.Types.Operations.{Deposit, ForcedWithdrawal, SignedWithdrawal}
use zk_clob.Types.Errors.{arithmetic_overflow, asset_conservation_violation}
use zk_clob.Types.Results.{Safe, Safe-bind, Any, ok_or-Any}
use zk_clob.Settlement.Assets.{
  AssetTracker, add, subtract_entry, subtract, add_balances, add_accounts, add_deposits,
  subtract_withdrawals, subtract_forced_withdrawals, subtract_balances, subtract_accounts,
}

add-Any : (t : AssetTracker) (asset : AssetId) (amount : ℕ) → Safe Any (add t asset amount)
unfolding add
add-Any [] asset amount =
    Safe-bind Any Any _ _ (ok_or-Any (checked_add 0 amount) arithmetic_overflow) (λ _ _. tt)
add-Any ((key, value) ∷ ts) asset amount = elim (Bool-cases (key == asset)) [
  | inl same ↦
      rw same (
        Safe-bind Any Any _ _ (ok_or-Any (checked_add value amount) arithmetic_overflow)
          (λ _ _. tt))
  | inr other ↦ rw other (Safe-bind Any Any _ _ (add-Any ts asset amount) (λ _ _. tt))
]

subtract_entry-Any :
    (t : AssetTracker) (asset : AssetId) (amount : ℕ) → Safe Any (subtract_entry t asset amount)
unfolding subtract_entry
subtract_entry-Any [] asset amount = tt
subtract_entry-Any ((key, value) ∷ ts) asset amount = elim (Bool-cases (key == asset)) [
  | inl same ↦ rw same (
      Safe-bind Any Any _ _ (ok_or-Any (checked_sub value amount) asset_conservation_violation)
        (λ _ _. tt))
  | inr other ↦ rw other (Safe-bind Any Any _ _ (subtract_entry-Any ts asset amount) (λ _ _. tt))
]

subtract-Any :
    (t : AssetTracker) (asset : AssetId) (amount : ℕ) → Safe Any (subtract t asset amount)
unfolding subtract
subtract-Any t asset amount = elim (Bool-cases (amount == 0)) [
  | inl nothing ↦ rw nothing tt
  | inr something ↦ rw something (subtract_entry-Any t asset amount)
]

add_balances-Any : (t : AssetTracker) (bs : List AssetBalance) → Safe Any (add_balances t bs)
add_balances-Any t [] = tt
add_balances-Any t (b ∷ bs) =
    Safe-bind Any Any _ _ (add-Any t b.asset b.available) (λ t' _. add_balances-Any t' bs)

pub add_accounts-Any : (t : AssetTracker) (xs : List Account) → Safe Any (add_accounts t xs)
add_accounts-Any t [] = tt
add_accounts-Any t (x ∷ xs) =
    Safe-bind Any Any _ _ (add_balances-Any t x.balances) (λ t' _. add_accounts-Any t' xs)

pub add_deposits-Any : (t : AssetTracker) (ds : List Deposit) → Safe Any (add_deposits t ds)
add_deposits-Any t [] = tt
add_deposits-Any t (d ∷ ds) =
    Safe-bind Any Any _ _ (add-Any t d.asset d.amount) (λ t' _. add_deposits-Any t' ds)

pub subtract_withdrawals-Any :
    (t : AssetTracker) (ws : List SignedWithdrawal) → Safe Any (subtract_withdrawals t ws)
subtract_withdrawals-Any t [] = tt
subtract_withdrawals-Any t (w ∷ ws) =
    Safe-bind Any Any _ _ (subtract-Any t w.operation.asset w.operation.amount)
      (λ t' _. subtract_withdrawals-Any t' ws)

pub subtract_forced_withdrawals-Any :
    (t : AssetTracker) (ws : List ForcedWithdrawal) → Safe Any (subtract_forced_withdrawals t ws)
subtract_forced_withdrawals-Any t [] = tt
subtract_forced_withdrawals-Any t (w ∷ ws) =
    Safe-bind Any Any _ _ (subtract-Any t w.asset w.amount)
      (λ t' _. subtract_forced_withdrawals-Any t' ws)

subtract_balances-Any :
    (t : AssetTracker) (bs : List AssetBalance) → Safe Any (subtract_balances t bs)
subtract_balances-Any t [] = tt
subtract_balances-Any t (b ∷ bs) =
    Safe-bind Any Any _ _ (subtract-Any t b.asset b.available) (λ t' _. subtract_balances-Any t' bs)

pub subtract_accounts-Any :
    (t : AssetTracker) (xs : List Account) → Safe Any (subtract_accounts t xs)
subtract_accounts-Any t [] = tt
subtract_accounts-Any t (x ∷ xs) =
    Safe-bind Any Any _ _ (subtract_balances-Any t x.balances) (λ t' _. subtract_accounts-Any t' xs)

-- ===== src/Settlement/Assets.antt =====
-- crates/core/src/settlement/assets.rs: the tracker of the assets that a batch holds. The map is a
-- list of entries with one entry for a key.
pub mod Safety
pub mod Amounts
pub mod Check
use zk_clob.Prelude.{
  ℕ, Bool, List, [], ◌∷◌, Option, none, some, checked_add, checked_sub, ◌==◌, if◌then◌else◌,
  is_empty,
}
use zk_clob.Types.Ids.{AssetId}
use zk_clob.Types.Account.{AssetBalance, Account}
use zk_clob.Types.Operations.{Deposit, ForcedWithdrawal, SignedWithdrawal}
use zk_clob.Types.Errors.{
  Result, ok, err, panic, ◌>>=◌, ok_or, arithmetic_overflow, asset_conservation_violation,
}

-- `AssetTracker`
abbrev pub AssetTracker : Type 0
AssetTracker = List (AssetId × ℕ)

-- `entry(asset).or_default()`, and the checked sum.
unfoldable pub add : AssetTracker → AssetId → ℕ → Result AssetTracker
add [] asset amount = do
  total ← ok_or (checked_add 0 amount) arithmetic_overflow
  ok ((asset, total) ∷ [])
add ((key, value) ∷ ts) asset amount =
    let rest = add ts asset amount in
    if key == asset
    then (do total ← ok_or (checked_add value amount) arithmetic_overflow; ok ((key, total) ∷ ts))
    else (do ts' ← rest; ok ((key, value) ∷ ts'))

-- The part of `subtract` after its early return.
unfoldable pub subtract_entry : AssetTracker → AssetId → ℕ → Result AssetTracker
subtract_entry [] asset amount = err asset_conservation_violation
subtract_entry ((key, value) ∷ ts) asset amount =
    let rest = subtract_entry ts asset amount in
    if key == asset
    then (do
      total ← ok_or (checked_sub value amount) asset_conservation_violation
      ok (if total == 0 then ts else (key, total) ∷ ts))
    else (do ts' ← rest; ok ((key, value) ∷ ts'))

unfoldable pub subtract : AssetTracker → AssetId → ℕ → Result AssetTracker
unfolding subtract_entry
subtract t asset amount = if amount == 0 then ok t else subtract_entry t asset amount

abbrev pub add_balances : AssetTracker → List AssetBalance → Result AssetTracker
add_balances t [] = ok t
add_balances t (b ∷ bs) = do t' ← add t b.asset b.available; add_balances t' bs

abbrev pub add_accounts : AssetTracker → List Account → Result AssetTracker
add_accounts t [] = ok t
add_accounts t (a ∷ as') = do t' ← add_balances t a.balances; add_accounts t' as'

abbrev pub add_deposits : AssetTracker → List Deposit → Result AssetTracker
add_deposits t [] = ok t
add_deposits t (d ∷ ds) = do t' ← add t d.asset d.amount; add_deposits t' ds

abbrev pub subtract_withdrawals : AssetTracker → List SignedWithdrawal → Result AssetTracker
subtract_withdrawals t [] = ok t
subtract_withdrawals t (w ∷ ws) = do
  t' ← subtract t w.operation.asset w.operation.amount
  subtract_withdrawals t' ws

abbrev pub subtract_forced_withdrawals : AssetTracker → List ForcedWithdrawal → Result AssetTracker
subtract_forced_withdrawals t [] = ok t
subtract_forced_withdrawals t (w ∷ ws) = do
  t' ← subtract t w.asset w.amount
  subtract_forced_withdrawals t' ws

abbrev pub subtract_balances : AssetTracker → List AssetBalance → Result AssetTracker
subtract_balances t [] = ok t
subtract_balances t (b ∷ bs) = do t' ← subtract t b.asset b.available; subtract_balances t' bs

abbrev pub subtract_accounts : AssetTracker → List Account → Result AssetTracker
subtract_accounts t [] = ok t
subtract_accounts t (a ∷ as') = do t' ← subtract_balances t a.balances; subtract_accounts t' as'

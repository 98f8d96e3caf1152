-- ===== src/Account.antt =====
-- The methods of `Account`, crates/core/src/types/account.rs.
pub mod Held
pub mod Canonical
pub mod Laws
use zk_clob.Prelude.{
  ℕ, Bool, List, [], ◌∷◌, Option, none, some, Search, found, vacant, binary_search_by_key,
  get_elem?, set, insert_at, remove_at, checked_add, checked_sub, ◌==◌, if◌then◌else◌,
}
use zk_clob.Types.Ids.{AssetId}
use zk_clob.Types.Account.{AssetBalance, Account}
use zk_clob.Types.Errors.{
  Result, ok, err, panic, ◌>>=◌, ok_or, expect, insufficient_balance, arithmetic_overflow,
}

-- `balances.binary_search_by_key(&asset, ...)`
abbrev pub find_asset : List AssetBalance → AssetId → Search
find_asset = binary_search_by_key (λ (b : AssetBalance). b.asset)

-- `iter().find(...).map_or(0, ...)`
abbrev pub balance_in : List AssetBalance → AssetId → ℕ
balance_in [] asset = 0
balance_in (b ∷ bs) asset = if b.asset == asset then b.available else balance_in bs asset

-- `Account::balance`
unfoldable pub balance : Account → AssetId → ℕ
balance account asset = balance_in account.balances asset

abbrev pub with_available : AssetBalance → ℕ → AssetBalance
with_available b n = record b { available = n }

-- The body of `debit` after the search.
abbrev pub debit_at : Account → AssetId → ℕ → ℕ → Result Account
debit_at account asset amount i = do
  b ← expect (get_elem? account.balances i)
  left ←
      ok_or (checked_sub b.available amount)
        (insufficient_balance account.id asset b.available amount)
  ok (record account {
    balances =
        if left == 0
        then remove_at account.balances i
        else set account.balances i (with_available b left);
  })

-- `Account::debit`
unfoldable pub debit : Account → AssetId → ℕ → Result Account
debit account asset amount = elim (find_asset account.balances asset) [
  | found i ↦ debit_at account asset amount i
  | vacant i ↦ err (insufficient_balance account.id asset 0 amount)
]

-- The two branches of `credit` after the search.
abbrev pub credit_at : Account → AssetId → ℕ → Search → Result Account
credit_at account asset amount (found i) = do
  b ← expect (get_elem? account.balances i)
  sum ← ok_or (checked_add b.available amount) arithmetic_overflow
  ok (record account { balances = set account.balances i (with_available b sum) })
credit_at account asset amount (vacant i) = ok (record account {
  balances = insert_at account.balances i (record { asset = asset; available = amount });
})

-- `Account::credit`
unfoldable pub credit : Account → AssetId → ℕ → Result Account
credit account asset amount =
    if amount == 0
    then ok account
    else credit_at account asset amount (find_asset account.balances asset)

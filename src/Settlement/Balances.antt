-- ===== src/Settlement/Balances.antt =====
-- How settlement changes accounts in place, and the operations that it applies before matching:
-- deposits.rs, withdrawals.rs and forced_withdrawals.rs of crates/core/src/settlement.
pub mod Ledger
pub mod Owned
pub mod Named
pub mod Deposits
pub mod Forced
pub mod Withdrawals
use zk_clob.Prelude.{
  ℕ, zero, suc, ◌-◌, min, Bool, true, false, ◌&&◌, ◌||◌, List, [], ◌∷◌, Option, none, some, Search,
  found, vacant, binary_search_by_key, get_elem?, insert_at, length, ltb, leb, ◌==◌, if◌then◌else◌,
}
use zk_clob.Types.Ids.{AccountId}
use zk_clob.Types.Account.{Account}
use zk_clob.Types.Operations.{Deposit, ForcedWithdrawal, SignedWithdrawal}
use zk_clob.Types.Config.{max_touched_accounts_per_batch}
use zk_clob.Types.Errors.{Result, ok, err, panic, ◌>>=◌, ◌>>◌, fail_if, expect, too_many_accounts}
use zk_clob.Account.{balance, debit, credit}

-- `accounts[index].method(...)?`, a panic out of range.
abbrev pub update_at : List Account → ℕ → (Account → Result Account) → Result (List Account)
update_at [] index method = panic
update_at (a ∷ as') zero method = do a' ← method a; ok (a' ∷ as')
update_at (a ∷ as') (suc index) method = do rest ← update_at as' index method; ok (a ∷ rest)

abbrev pub find_account : List Account → AccountId → Search
find_account = binary_search_by_key (λ (a : Account). a.id)

-- `accounts.get(index).is_some_and(|account| account.id() == id)`
abbrev pub holds : Option Account → AccountId → Bool
holds none id = false
holds (some a) id = a.id == id

abbrev pub is_before : Option Account → AccountId → Bool
is_before none id = false
is_before (some a) id = ltb a.id id

abbrev pub is_none_or_after : Option Account → AccountId → Bool
is_none_or_after none id = true
is_none_or_after (some a) id = ltb id a.id

-- `locate_deposit_account`, once the index is there.
abbrev pub locate_at : List Account → AccountId → ℕ → Search
locate_at accounts id index =
    if holds (get_elem? accounts index) id
    then found index
    else if (index == 0 || is_before (get_elem? accounts (index - 1)) id)
        && is_none_or_after (get_elem? accounts index) id
    then vacant index
    else find_account accounts id

abbrev pub locate_deposit_account : List Account → Deposit → Result Search
locate_deposit_account accounts d = do
  index ← expect d.account_index
  ok (locate_at accounts d.account index)

abbrev pub new_account : AccountId → Account
new_account id = record { id = id; balances = []; next_nonce = 0 }

-- `Vec::insert`, a panic beyond the end.
abbrev pub checked_insert : List Account → ℕ → Account → Result (List Account)
checked_insert accounts index a =
    if ltb (length accounts) index then panic else ok (insert_at accounts index a)

-- The account of a deposit, created where it is missing.
abbrev pub open_account : List Account → Deposit → Search → Result (ℕ × List Account)
open_account accounts d (found index) = ok (index, accounts)
open_account accounts d (vacant index) = do
  fail_if (leb max_touched_accounts_per_batch (length accounts)) too_many_accounts
  accounts' ← checked_insert accounts index (new_account d.account)
  ok (index, accounts')

unfoldable pub apply_deposit : List Account → Deposit → Result (List Account)
apply_deposit accounts d = do
  place ← locate_deposit_account accounts d
  opened ← open_account accounts d place
  update_at opened.1 opened.0 (λ a. credit a d.asset d.amount)

unfoldable pub apply_deposits : List Account → List Deposit → Result (List Account)
unfolding apply_deposit
apply_deposits accounts [] = ok accounts
apply_deposits accounts (d ∷ ds) = do
  accounts' ← apply_deposit accounts d
  apply_deposits accounts' ds

unfoldable pub apply_withdrawal : List Account → SignedWithdrawal → Result (List Account)
apply_withdrawal accounts w = do
  index ← expect w.account_index
  update_at accounts index (λ a. debit a w.operation.asset w.operation.amount)

unfoldable pub apply_withdrawals : List Account → List SignedWithdrawal → Result (List Account)
unfolding apply_withdrawal
apply_withdrawals accounts [] = ok accounts
apply_withdrawals accounts (w ∷ ws) = do
  accounts' ← apply_withdrawal accounts w
  apply_withdrawals accounts' ws

-- The account at an index, if it is the one that a forced withdrawal names.
abbrev pub named : ForcedWithdrawal → ℕ → Option Account → Option (ℕ × Account)
named w index none = none
named w index (some a) = if a.id == w.account then some (index, a) else none

-- The account that a forced withdrawal names, if its index leads there.
abbrev pub target : List Account → ForcedWithdrawal → Option ℕ → Option (ℕ × Account)
target accounts w none = none
target accounts w (some index) = named w index (get_elem? accounts index)

-- What is drained from that account, and the accounts after it.
abbrev pub drain :
    List Account → ForcedWithdrawal → Option (ℕ × Account) → Result (ℕ × List Account)
drain accounts w none = ok (0, accounts)
drain accounts w (some (index, a)) =
    let drained = min w.amount (balance a w.asset) in
    if ltb 0 drained
    then (do
      accounts' ← update_at accounts index (λ x. debit x w.asset drained)
      ok (drained, accounts'))
    else ok (drained, accounts)

-- `ForcedWithdrawal::set_amount`
abbrev pub set_amount : ForcedWithdrawal → ℕ → ForcedWithdrawal
set_amount w n = record w { amount = n }

unfoldable pub apply_forced_withdrawal :
    List Account → ForcedWithdrawal → Result (List Account × ForcedWithdrawal)
apply_forced_withdrawal accounts w = do
  drained ← drain accounts w (target accounts w w.account_index)
  ok (drained.1, set_amount w drained.0)

-- The requests come back with what was drained as their amount.
unfoldable pub apply_forced_withdrawals :
    List Account → List ForcedWithdrawal → Result (List Account × List ForcedWithdrawal)
unfolding apply_forced_withdrawal
apply_forced_withdrawals accounts [] = ok (accounts, [])
apply_forced_withdrawals accounts (w ∷ ws) = do
  first ← apply_forced_withdrawal accounts w
  rest ← apply_forced_withdrawals first.0 ws
  ok (rest.0, first.1 ∷ rest.1)

-- ===== src/Settlement/Validation/Accounts.antt =====
-- `validate_accounts` of crates/core/src/settlement/validation.rs.
pub mod Ledger
use zk_clob.Prelude.{
  ℕ, Bool, true, false, not, List, [], ◌∷◌, map, any, any_pair, leb, ◌==◌, if◌then◌else◌,
}
use zk_clob.Types.Account.{AssetBalance, Account}
use zk_clob.Types.Errors.{
  SettlementError, Result, ok, err, panic, ◌>>=◌, ◌>>◌, fail_if, duplicate_account,
  unsorted_accounts, zero_balance, duplicate_balance, unsorted_balances,
}

-- The scan that inserts each key in a set, and reports one that was there.
unfoldable pub has_repeat : (seen keys : List ℕ) → Bool
has_repeat seen [] = false
has_repeat seen (k ∷ ks) =
    let rest = has_repeat (k ∷ seen) ks in if any (λ s. s == k) seen then true else rest

-- Keys that do not ascend are an error: which one tells whether some key repeats.
abbrev pub check_ascending : List ℕ → (duplicate unsorted : SettlementError) → Result (Unit {0})
check_ascending keys duplicate unsorted =
    if any_pair (λ x y. leb y x) keys
    then (do fail_if (has_repeat [] keys) duplicate; err unsorted)
    else ok tt

unfoldable pub validate_balances : List AssetBalance → Result (Unit {0})
unfolding has_repeat
validate_balances balances = do
  fail_if (any (λ (b : AssetBalance). b.available == 0) balances) zero_balance
  check_ascending (map (λ (b : AssetBalance). b.asset) balances) duplicate_balance unsorted_balances

unfoldable pub validate_each_account : List Account → Result (Unit {0})
unfolding validate_balances
validate_each_account [] = ok tt
validate_each_account (a ∷ as') = do validate_balances a.balances; validate_each_account as'

unfoldable pub validate_accounts : List Account → Result (Unit {0})
unfolding has_repeat validate_each_account
validate_accounts accounts = do
  check_ascending (map (λ (a : Account). a.id) accounts) duplicate_account unsorted_accounts
  validate_each_account accounts

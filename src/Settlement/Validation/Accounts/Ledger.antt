-- ===== src/Settlement/Validation/Accounts/Ledger.antt =====
-- `validate_accounts` and the ledgers.
use zk_clob.Prelude.{
  ℕ, ◌<◌, ◌≡◌, ◌↔◌, refl, Bool, true, false, List, [], ◌∷◌, map, any, any_pair, leb, ◌==◌, inl, inr,
  Bool-cases, arith,
}
use zk_clob.Types.Account.{AssetBalance, Account}
use zk_clob.Types.Errors.{
  SettlementError, ok, err, ◌>>◌, fail_if, zero_balance, duplicate_account, unsorted_accounts,
  duplicate_balance, unsorted_balances,
}
use zk_clob.Types.Results.{Safe, Safe-bind, Safe-imp, Safe_at, fail_if-Safe}
use zk_clob.Account.Held.{IsCanonical}
use zk_clob.Settlement.Balances.Ledger.{IsLedger, ids}
use zk_clob.Settlement.Validation.Accounts.{
  has_repeat, check_ascending, validate_balances, validate_each_account, validate_accounts,
}

-- Keys that ascend strictly.
abbrev pub IsAscending : List ℕ → Type 0
IsAscending [] = Unit
IsAscending (k ∷ []) = Unit
IsAscending (k ∷ j ∷ ks) = (k < j) × IsAscending (j ∷ ks)

pub any_pair-IsAscending : (ks : List ℕ) → any_pair (λ x y. leb y x) ks ≡ false → IsAscending ks
any_pair-IsAscending [] h = tt
any_pair-IsAscending (k ∷ []) h = tt
any_pair-IsAscending (k ∷ j ∷ ks) h = (ground arith, any_pair-IsAscending (j ∷ ks) (ground arith))

pub IsAscending-any_pair : (ks : List ℕ) → IsAscending ks → any_pair (λ x y. leb y x) ks ≡ false
IsAscending-any_pair [] h = refl
IsAscending-any_pair (k ∷ []) h = refl
IsAscending-any_pair (k ∷ j ∷ ks) h = ground (arith, IsAscending-any_pair (j ∷ ks) h.1)

-- Both errors of `check_ascending` keep any statement.
either_error :
    (P : Unit {0} → Type 0) (b : Bool) (d u : SettlementError) → Safe P (fail_if b d >> err u)
either_error P true d u = tt
either_error P false d u = tt

check_ascending-Safe :
    (ks : List ℕ) (d u : SettlementError) → Safe (λ _. IsAscending ks) (check_ascending ks d u)
unfolding has_repeat
check_ascending-Safe ks d u = elim (Bool-cases (any_pair (λ x y. leb y x) ks)) [
  | inl bad ↦ rw bad (either_error (λ _. IsAscending ks) (has_repeat [] ks) d u)
  | inr good ↦ rw good (any_pair-IsAscending ks good)
]

NoZero : List AssetBalance → Type 0
NoZero [] = Unit
NoZero (b ∷ bs) = (0 < b.available) × NoZero bs

any-NoZero :
    (bs : List AssetBalance) → any (λ (b : AssetBalance). b.available == 0) bs ≡ false → NoZero bs
unfolding NoZero
any-NoZero [] h = tt
any-NoZero (b ∷ bs) h = (ground arith, any-NoZero bs (ground arith))

IsCanonical-of_parts :
    (bs : List AssetBalance)
    → NoZero bs
    → IsAscending (map (λ (b : AssetBalance). b.asset) bs)
    → IsCanonical bs
unfolding NoZero
IsCanonical-of_parts [] z a = tt
IsCanonical-of_parts (b ∷ []) z a = (z.0, tt, tt)
IsCanonical-of_parts (b ∷ c ∷ bs) z a = (z.0, a.0, IsCanonical-of_parts (c ∷ bs) z.1 a.1)

validate_balances-Safe :
    (bs : List AssetBalance) → Safe (λ _. IsCanonical bs) (validate_balances bs)
unfolding validate_balances
validate_balances-Safe bs =
    Safe-bind (λ _. any (λ (b : AssetBalance). b.available == 0) bs ≡ false) (λ _. IsCanonical bs) _
      _ (fail_if-Safe (any (λ (b : AssetBalance). b.available == 0) bs) zero_balance)
      (λ _ z.
        Safe-imp (λ _. IsAscending (map (λ (b : AssetBalance). b.asset) bs)) (λ _. IsCanonical bs) _
          (check_ascending-Safe (map (λ (b : AssetBalance). b.asset) bs) duplicate_balance
            unsorted_balances)
          (λ _ a. IsCanonical-of_parts bs (any-NoZero bs z) a))

EachCanonical : List Account → Type 0
EachCanonical [] = Unit
EachCanonical (a ∷ as') = IsCanonical a.balances × EachCanonical as'

validate_each_account-Safe :
    (xs : List Account) → Safe (λ _. EachCanonical xs) (validate_each_account xs)
unfolding validate_each_account EachCanonical
validate_each_account-Safe [] = tt
validate_each_account-Safe (x ∷ xs) =
    Safe-bind (λ _. IsCanonical x.balances) (λ _. IsCanonical x.balances × EachCanonical xs) _ _
      (validate_balances-Safe x.balances)
      (λ _ c.
        Safe-imp (λ _. EachCanonical xs) (λ _. IsCanonical x.balances × EachCanonical xs) _
          (validate_each_account-Safe xs) (λ _ cs. (c, cs)))

IsLedger-of_parts : (xs : List Account) → EachCanonical xs → IsAscending (ids xs) → IsLedger xs
unfolding EachCanonical
IsLedger-of_parts [] c a = tt
IsLedger-of_parts (x ∷ []) c a = (c.0, tt, tt)
IsLedger-of_parts (x ∷ y ∷ xs) c a = (c.0, a.0, IsLedger-of_parts (y ∷ xs) c.1 a.1)

-- Validation never panics, and what it lets through is a ledger.
pub validate_accounts-Safe : (xs : List Account) → Safe (λ _. IsLedger xs) (validate_accounts xs)
unfolding validate_accounts
validate_accounts-Safe xs =
    Safe-bind (λ _. IsAscending (ids xs)) (λ _. IsLedger xs) _ _
      (check_ascending-Safe (ids xs) duplicate_account unsorted_accounts)
      (λ _ a.
        Safe-imp (λ _. EachCanonical xs) (λ _. IsLedger xs) _ (validate_each_account-Safe xs)
          (λ _ c. IsLedger-of_parts xs c a))

IsCanonical-ascending :
    (bs : List AssetBalance)
    → IsCanonical bs
    → any_pair (λ x y. leb y x) (map (λ (b : AssetBalance). b.asset) bs) ≡ false
IsCanonical-ascending [] h = refl
IsCanonical-ascending (b ∷ []) h = refl
IsCanonical-ascending (b ∷ c ∷ bs) h = ground (arith, IsCanonical-ascending (c ∷ bs) h.2)

IsCanonical-any :
    (bs : List AssetBalance)
    → IsCanonical bs
    → any (λ (b : AssetBalance). b.available == 0) bs ≡ false
IsCanonical-any [] h = refl
IsCanonical-any (b ∷ bs) h = ground (arith, IsCanonical-any bs h.2)

IsLedger-ascending : (xs : List Account) → IsLedger xs → any_pair (λ x y. leb y x) (ids xs) ≡ false
IsLedger-ascending [] h = refl
IsLedger-ascending (b ∷ []) h = refl
IsLedger-ascending (b ∷ c ∷ bs) h = ground (arith, IsLedger-ascending (c ∷ bs) h.2)

validate_each_account_ok : (xs : List Account) → IsLedger xs → validate_each_account xs ≡ ok tt
unfolding validate_each_account validate_balances
validate_each_account_ok [] h = refl
validate_each_account_ok (x ∷ xs) h =
    rw (IsCanonical-any x.balances h.0, IsCanonical-ascending x.balances h.0)
      (validate_each_account_ok xs h.2)

accepts : (xs : List Account) → IsLedger xs → validate_accounts xs ≡ ok tt
unfolding validate_accounts
accepts xs h = rw (IsLedger-ascending xs h) (validate_each_account_ok xs h)

-- `validate_accounts` accepts exactly the ledgers: identifiers ascend strictly, and in each account the
-- assets ascend strictly with no zero balance.
pub validate_accounts_iff : (xs : List Account) → (validate_accounts xs ≡ ok tt) ↔ IsLedger xs
validate_accounts_iff xs = (
  λ e. Safe_at (λ _. IsLedger xs) (validate_accounts xs) tt (validate_accounts-Safe xs) e,
  accepts xs,
)

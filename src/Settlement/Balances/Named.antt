-- ===== src/Settlement/Balances/Named.antt =====
-- The account that a forced withdrawal names, settlement/forced_withdrawals.rs, and what is due from it.
use zk_clob.Prelude.{
  ℕ, zero, suc, ◌≡◌, ◌≢◌, refl, min, false, List, [], ◌∷◌, Option, none, some, get_elem?, ◌==◌, inl,
  inr, Bool-cases, arith,
}
use mathlib.Core.Path.{subst}
use zk_clob.Types.Ids.{AccountId}
use zk_clob.Types.Account.{Account}
use zk_clob.Types.Operations.{ForcedWithdrawal}
use zk_clob.Settlement.Balances.{named, target}
use zk_clob.Settlement.Balances.Ledger.{ids}
use zk_clob.Settlement.Balances.Owned.{owned, IsLed, get_elem?-ids}

-- What a request gets: the lesser of its amount and what the account that it names holds, where its
-- index leads to this account, or else nothing.
pub data IsDue (xs : List Account) (w : ForcedWithdrawal) : ℕ → Type 0 where
  led :
      IsLed (ids xs) w.account w.account_index
      → IsDue xs w (min w.amount (owned w.account w.asset xs))
  astray : ¬ IsLed (ids xs) w.account w.account_index → IsDue xs w 0

-- What `target` finds of the account that a request names.
abbrev pub Finds : List Account → ForcedWithdrawal → Option (ℕ × Account) → Type 0
Finds xs w none = ¬ IsLed (ids xs) w.account w.account_index
Finds xs w (some (i, a)) =
    (get_elem? xs i ≡ some a) × (a.id ≡ w.account) × (w.account_index ≡ some i)

elsewhere :
    (xs : List Account) (i : ℕ) (a : Account) (id : AccountId)
    → get_elem? xs i ≡ some a
    → a.id == id ≡ false
    → get_elem? (ids xs) i ≢ some id
elsewhere xs i a id e other there =
    let stands : get_elem? (ids xs) i ≡ some a.id = get_elem?-ids xs i a e in
    let same : a.id ≡ id = cc in ground (arith, same)

beyond :
    (xs : List Account) (i : ℕ) (id : AccountId)
    → get_elem? xs i ≡ none
    → get_elem? (ids xs) i ≢ some id
beyond [] i id e there = cc
beyond (x ∷ xs) zero id e there = cc
beyond (x ∷ xs) (suc i) id e there = beyond xs i id e there

-- An index that does not lead to the account is the only one that the request has.
astray_at :
    (xs : List Account) (w : ForcedWithdrawal) (i : ℕ)
    → w.account_index ≡ some i
    → get_elem? (ids xs) i ≢ some w.account
    → ¬ IsLed (ids xs) w.account w.account_index
astray_at xs w i e away l =
    let same : l.0 ≡ i = cc in away (subst (λ n. get_elem? (ids xs) n ≡ some w.account) same l.2)

named-Finds :
    (xs : List Account) (w : ForcedWithdrawal) (i : ℕ) (o : Option Account)
    → w.account_index ≡ some i
    → get_elem? xs i ≡ o
    → Finds xs w (named w i o)
named-Finds xs w i none index e = astray_at xs w i index (beyond xs i w.account e)
named-Finds xs w i (some a) index e = elim (Bool-cases (a.id == w.account)) [
  | inl same ↦ rw (same, Finds) (e, ground arith, index)
  | inr other ↦ rw (other, Finds) (astray_at xs w i index (elsewhere xs i a w.account e other))
]

pub target-Finds :
    (xs : List Account) (w : ForcedWithdrawal) (index : Option ℕ)
    → w.account_index ≡ index
    → Finds xs w (target xs w index)
target-Finds xs w none e = λ l. cc
target-Finds xs w (some i) e = named-Finds xs w i (get_elem? xs i) e refl

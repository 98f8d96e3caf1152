-- ===== src/Host/Ledgers.antt =====
-- Ledgers by the accounts of their identifiers, for crates/host/src/account_tree.rs.
use mathlib.Core.Path.{subst}
use zk_clob.Prelude.{
  ℕ, ◌<◌, ◌≤◌, ◌≡◌, refl, sym, ap, ◌∙◌, Bool, true, false, not, none, some, List, [], ◌∷◌, length,
  All, retain, is_key, All-is_key, ltb, ◌==◌, inl, inr, Bool-cases, arith,
}
use zk_clob.Types.Ids.{AccountId}
use zk_clob.Types.Account.{Account}
use zk_clob.State.Finding.{account_at}
use zk_clob.Settlement.Balances.Ledger.{IsLedger}
use zk_clob.Settlement.Validation.Accounts.Ledger.{IsAscending}
use zk_clob.Trees.Keyed.{IsBelow, among_later, ascending-IsBelow, IsBelow-trans, IsAscending-tail}
use zk_clob.Host.Applied.{later_ids, absent_before}

account_at_first : (x : Account) (xs : List Account) → account_at x.id (x ∷ xs) ≡ some x
account_at_first x xs = ground arith

first_earlier :
    (x y : Account) (xs ys : List Account)
    → IsLedger (y ∷ ys)
    → x.id < y.id
    → account_at x.id (x ∷ xs) ≡ account_at x.id (y ∷ ys)
    → ⊥
first_earlier x y xs ys k lt e =
    let gone : account_at x.id (y ∷ ys) ≡ none =
      absent_before x.id (y ∷ ys) (later_ids x.id (y ∷ ys) lt k) in
    let clash : some x ≡ none = sym (account_at_first x xs) ∙ e ∙ gone in absurd (cc)

same_tails :
    (x y : Account) (xs ys : List Account)
    → IsLedger (x ∷ xs)
    → IsLedger (y ∷ ys)
    → x.id ≡ y.id
    → ((id : AccountId) → account_at id (x ∷ xs) ≡ account_at id (y ∷ ys))
    → (id : AccountId) → account_at id xs ≡ account_at id ys
same_tails x y xs ys h k one e id = elim (Bool-cases (x.id == id)) [
  | inl here ↦
      let first : x.id ≡ id = ground arith in
      let second : y.id ≡ id = sym one ∙ first in
      subst (λ j. account_at j xs ≡ none) first (absent_before x.id xs (later_ids x.id xs h.1 h.2))
      ∙ sym (
          subst (λ j. account_at j ys ≡ none) second
            (absent_before y.id ys (later_ids y.id ys k.1 k.2)))
  | inr away ↦ ground (arith, e id, one)
]

-- Two ledgers with the same account for every identifier are the same.
pub same_ledgers :
    (xs ys : List Account)
    → IsLedger xs
    → IsLedger ys
    → ((id : AccountId) → account_at id xs ≡ account_at id ys)
    → xs ≡ ys
same_ledgers [] [] h k e = refl
same_ledgers [] (y ∷ ys) h k e = absurd (ground (arith, e y.id))
same_ledgers (x ∷ xs) [] h k e = absurd (ground (arith, e x.id))
same_ledgers (x ∷ xs) (y ∷ ys) h k e = elim (Bool-cases (x.id == y.id)) [
  | inl same ↦
      let one : x.id ≡ y.id = ground arith in
      let heads : some x ≡ some y =
        sym (account_at_first x xs)
        ∙ e x.id
        ∙ ap (λ id. account_at id (y ∷ ys)) one
        ∙ account_at_first y ys in
      let first : x ≡ y = cc in
      let tails : xs ≡ ys = same_ledgers xs ys h.2 k.2 (same_tails x y xs ys h k one e) in
      ap (λ zs. x ∷ zs) tails ∙ ap (λ z. z ∷ ys) first
  | inr other ↦ elim (Bool-cases (ltb x.id y.id)) [
    | inl below ↦ absurd (first_earlier x y xs ys k (ground arith) (e x.id))
    | inr above ↦ absurd (first_earlier y x ys xs h (ground arith) (sym (e y.id)))
  ]
]

-- What holds of the accounts of some identifiers and of all others.
pub All-of_parts :
    (P : Account → Type 0) (test : Account → Bool) (xs : List Account)
    → All P (retain test xs)
    → All P (retain (λ a. not (test a)) xs)
    → All P xs
All-of_parts P test [] h k = tt
All-of_parts P test (x ∷ xs) h k = elim (Bool-cases (test x)) [
  | inl passes ↦
      let here : P x × All P (retain test xs) = rw passes at h in
      let there : All P (retain (λ a. not (test a)) xs) = rw passes at k in
      (here.0, All-of_parts P test xs here.1 there)
  | inr fails ↦
      let here : All P (retain test xs) = rw fails at h in
      let there : P x × All P (retain (λ a. not (test a)) xs) = rw fails at k in
      (there.0, All-of_parts P test xs here there.1)
]

pub All-retained :
    (P : Account → Type 0) (test : Account → Bool) (xs : List Account)
    → All P xs
    → All P (retain test xs)
All-retained P test [] h = tt
All-retained P test (x ∷ xs) h = elim (Bool-cases (test x)) [
  | inl passes ↦ rw passes (h.0, All-retained P test xs h.1)
  | inr fails ↦ rw fails (All-retained P test xs h.1)
]

-- Identifiers in order, all of them among some keys in order: they are no more than the keys.
pub length-among :
    (ks js : List ℕ)
    → IsAscending ks
    → IsAscending js
    → All (λ j. is_key ks j ≡ true) js
    → length js ≤ length ks
length-among [] [] h k e = omega arith
length-among [] (j ∷ js) h k e = absurd (let bad : false ≡ true = e.0 in cc)
length-among (k ∷ ks) [] h i e = omega arith
length-among (k ∷ ks) (j ∷ js) h i e = elim (Bool-cases (k == j)) [
  | inl same ↦
      let one : k ≡ j = ground arith in
      let later : All (λ m. k < m) js =
        subst (λ l. IsBelow l js) (sym one) (ascending-IsBelow j js i) in
      omega (
        arith,
        length-among ks js (IsAscending-tail k ks h) (IsAscending-tail j js i)
            (among_later k ks js later e.1),
      )
  | inr other ↦
      let there : is_key ks j ≡ true = ground (arith, e.0) in
      let after : k < j = All-is_key (λ m. k < m) ks j there (ascending-IsBelow k ks h) in
      let later : All (λ m. k < m) (j ∷ js) =
        (after, IsBelow-trans k j js after (ascending-IsBelow j js i)) in
      omega (
        arith,
        length-among ks (j ∷ js) (IsAscending-tail k ks h) i (among_later k ks (j ∷ js) later e),
      )
]

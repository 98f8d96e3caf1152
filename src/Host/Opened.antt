-- ===== src/Host/Opened.antt =====
-- `AccountTree::new` of crates/host/src/account_tree.rs: its indices, and the order of its accounts.
use zk_clob.Prelude.{
  ℕ, suc, ◌+◌, ◌^◌, ◌≤◌, ◌≡◌, refl, sym, ap, ◌∙◌, Bool, not, Option, none, some, List, [], ◌∷◌,
  ◌++◌, All, All-imp, insert_sorted, sort_unstable, is_some, ltb, ◌==◌, if◌then◌else◌, inl, inr,
  Bool-cases, arith,
}
use zk_clob.Types.Ids.{AccountId}
use zk_clob.Types.Account.{Account}
use zk_clob.Account.Held.{IsCanonical}
use zk_clob.State.{state_of}
use zk_clob.State.Finding.{position}
use zk_clob.Settlement.Balances.Ledger.{ids, IsAfter, IsLedger}
use zk_clob.Host.Errors.{
  Gives, Gives-bind, refuse_if, refuse_if-bind, Gives-imp, ◌>>◌, duplicate_account,
  account_index_overflow,
}
use zk_clob.Host.Tree.{lookup, index_accounts, account_tree}
use zk_clob.Host.Applying.{IsTree}
use zk_clob.Host.Applied.{shifted, shifted-suc, shifted_zero}

abbrev Canonical : List Account → Type 0
Canonical = All (λ (a : Account). IsCanonical a.balances)

-- Ascending by identifier, with repeats.
abbrev FromUp : AccountId → List Account → Type 0
FromUp id [] = Unit
FromUp id (a ∷ as') = (id ≤ a.id) × FromUp a.id as'

abbrev InOrder : List Account → Type 0
InOrder [] = Unit
InOrder (a ∷ as') = FromUp a.id as'

abbrev by_id : Account → Account → Bool
by_id x y = ltb x.id y.id

insert_sorted-Canonical :
    (a : Account) (xs : List Account)
    → IsCanonical a.balances
    → Canonical xs
    → Canonical (insert_sorted by_id a xs)
insert_sorted-Canonical a [] k h = (k, tt)
insert_sorted-Canonical a (x ∷ xs) k h = elim (Bool-cases (by_id x a)) [
  | inl below ↦ rw below (h.0, insert_sorted-Canonical a xs k h.1)
  | inr above ↦ rw above (k, h)
]

sort_unstable-Canonical : (xs : List Account) → Canonical xs → Canonical (sort_unstable by_id xs)
sort_unstable-Canonical [] h = tt
sort_unstable-Canonical (x ∷ xs) h =
    insert_sorted-Canonical x (sort_unstable by_id xs) h.0 (sort_unstable-Canonical xs h.1)

insert_sorted-FromUp :
    (id : AccountId) (a : Account) (xs : List Account)
    → id ≤ a.id
    → FromUp id xs
    → FromUp id (insert_sorted by_id a xs)
insert_sorted-FromUp id a [] le h = (le, tt)
insert_sorted-FromUp id a (x ∷ xs) le h = elim (Bool-cases (by_id x a)) [
  | inl below ↦ rw below (h.0, insert_sorted-FromUp x.id a xs (ground arith) h.1)
  | inr above ↦ rw above (le, (ground arith, h.1))
]

insert_sorted-InOrder :
    (a : Account) (xs : List Account) → InOrder xs → InOrder (insert_sorted by_id a xs)
insert_sorted-InOrder a [] h = tt
insert_sorted-InOrder a (x ∷ xs) h = elim (Bool-cases (by_id x a)) [
  | inl below ↦ rw below (insert_sorted-FromUp x.id a xs (ground arith) h)
  | inr above ↦ rw above (ground arith, h)
]

sort_unstable-InOrder : (xs : List Account) → InOrder (sort_unstable by_id xs)
sort_unstable-InOrder [] = tt
sort_unstable-InOrder (x ∷ xs) =
    insert_sorted-InOrder x (sort_unstable by_id xs) (sort_unstable-InOrder xs)

abbrev first_of : Option ℕ → Option ℕ → Option ℕ
first_of none p = p
first_of (some i) p = some i

lookup-append :
    (id key value : ℕ) (es : List (ℕ × ℕ))
    → lookup id (es ++ ((key, value) ∷ []))
      ≡ first_of (lookup id es) (if key == id then some value else none)
lookup-append id key value [] = refl
lookup-append id key value (e ∷ es) = elim (Bool-cases (e.0 == id)) [
  | inl same ↦ rw same refl
  | inr other ↦ rw other (lookup-append id key value es)
]

-- The indices of accounts in order, from an index: no identifier repeats or was there before.
record Indexed (n : ℕ) (xs : List Account) (es es' : List (AccountId × ℕ)) : Type 0 where
  fresh : All (λ (a : Account). lookup a.id es ≡ none) xs
  ledger : IsLedger xs
  indices :
      (id : AccountId)
      → lookup id es' ≡ first_of (lookup id es) (shifted n (position id (ids xs)) none)

Indexed-cons :
    (n : ℕ) (a : Account) (xs : List Account) (es es' : List (AccountId × ℕ))
    → lookup a.id es ≡ none
    → IsCanonical a.balances
    → FromUp a.id xs
    → Indexed (suc n) xs (es ++ ((a.id, n) ∷ [])) es'
    → Indexed n (a ∷ xs) es es'
Indexed-cons n a xs es es' new k up h = record {
  fresh = (
    new,
    All-imp (λ (b : Account) e. before b (lookup b.id es) (sym (lookup-append b.id a.id n es) ∙ e))
        xs h.fresh,
  );
  ledger = (k, after xs up h.fresh, h.ledger);
  indices = λ id.
      h.indices id
      ∙ ap (λ o. first_of o (shifted (suc n) (position id (ids xs)) none))
          (lookup-append id a.id n es)
      ∙ step id (lookup id es);
}
  where
    before :
        (b : Account) (o : Option ℕ)
        → first_of o (if a.id == b.id then some n else none) ≡ none
        → o ≡ none
    before b none e = refl
    before b (some i) e = cc

    after :
        (ys : List Account)
        → FromUp a.id ys
        → All (λ (b : Account). lookup b.id (es ++ ((a.id, n) ∷ [])) ≡ none) ys
        → IsAfter a.id ys
    after [] u f = tt
    after (y ∷ ys) u f = elim (Bool-cases (a.id == y.id)) [
      | inl same ↦
          let one : lookup y.id es ≡ none =
            before y (lookup y.id es) (sym (lookup-append y.id a.id n es) ∙ f.0) in
          let bad : some n ≡ none = rw (lookup-append y.id a.id n es, one, same) at f.0 in
          absurd (cc)
      | inr other ↦ ground (arith, u.0)
    ]

    step :
        (id : AccountId) (o : Option ℕ)
        → first_of
            (first_of o (if a.id == id then some n else none))
            (shifted (suc n) (position id (ids xs)) none)
          ≡ first_of o (shifted n (position id (ids (a ∷ xs))) none)
    step id (some i) = refl
    step id none = elim (Bool-cases (a.id == id)) [
      | inl same ↦ rw same (let index : n ≡ n + 0 = omega arith in ap (λ (j : ℕ). some j) index)
      | inr other ↦ rw other (shifted-suc n (position id (ids xs)) none)
    ]

index_accounts-Gives :
    (n : ℕ) (xs : List Account) (es : List (AccountId × ℕ))
    → Canonical xs
    → InOrder xs
    → Gives (Indexed n xs es) (index_accounts n xs es)
unfolding index_accounts
index_accounts-Gives n [] es k h = record {
  fresh = tt;
  ledger = tt;
  indices = λ id. sym (first_of_none (lookup id es));
}
  where
    first_of_none : (o : Option ℕ) → first_of o none ≡ o
    first_of_none none = refl
    first_of_none (some i) = refl
index_accounts-Gives n (a ∷ xs) es k h =
    refuse_if-bind (Indexed n (a ∷ xs) es) (not (ltb n (2 ^ 32))) account_index_overflow _ (
      fresh_or (lookup a.id es) refl
        (index_accounts-Gives (suc n) xs (es ++ ((a.id, n) ∷ [])) k.1 (tail xs h)))
  where
    tail : (ys : List Account) → FromUp a.id ys → InOrder ys
    tail [] u = tt
    tail (y ∷ ys) u = u.1

    fresh_or :
        (o : Option ℕ)
        → lookup a.id es ≡ o
        → Gives
            (Indexed (suc n) xs (es ++ ((a.id, n) ∷ [])))
            (index_accounts (suc n) xs (es ++ ((a.id, n) ∷ [])))
        → Gives (Indexed n (a ∷ xs) es) (
            refuse_if (is_some (lookup a.id es)) (duplicate_account a.id)
            >> index_accounts (suc n) xs (es ++ ((a.id, n) ∷ [])))
    fresh_or (some i) e rest = rw e tt
    fresh_or none e rest =
        refuse_if-bind (Indexed n (a ∷ xs) es) (is_some (lookup a.id es)) (duplicate_account a.id) _
          (Gives-imp (Indexed (suc n) xs (es ++ ((a.id, n) ∷ []))) (Indexed n (a ∷ xs) es) _
            (λ es' i. Indexed-cons n a xs es es' e k.0 h i) rest)

-- On accounts with canonical balances, in any order, `AccountTree::new` does not panic; the tree that it
-- makes is a ledger with one account for an identifier, and its indices are those of the accounts.
pub account_tree-IsTree :
    (accounts : List Account) → Canonical accounts → Gives IsTree (account_tree accounts)
unfolding account_tree
account_tree-IsTree accounts k =
    Gives-bind (Indexed 0 (state_of accounts).accounts []) IsTree
      (index_accounts 0 (state_of accounts).accounts []) _
      (index_accounts-Gives 0 (state_of accounts).accounts [] (sort_unstable-Canonical accounts k)
        (sort_unstable-InOrder accounts))
      (λ es i. record {
        ledger = i.ledger;
        indices =
            λ id. i.indices id ∙ shifted_zero (position id (ids (state_of accounts).accounts));
      })

-- ===== src/Host/Updated.antt =====
-- `AccountTree::apply` of crates/host/src/account_tree.rs as a whole.
use mathlib.Core.Path.{subst}
use zk_clob.Prelude.{
  ℕ, ◌+◌, ◌^◌, ◌<◌, ◌≤◌, ◌≡◌, refl, sym, ap, ◌∙◌, Bool, true, not, Option, none, some, List, [],
  ◌∷◌, length, All, retain, is_some, if◌then◌else◌, inl, inr, Bool-cases, arith,
}
use zk_clob.Types.Ids.{AccountId}
use zk_clob.Types.Account.{Account}
use zk_clob.State.{State}
use zk_clob.State.Finding.{account_at, position, AtPosition, position-AtPosition, account_at-retain}
use zk_clob.Settlement.Balances.Ledger.{ids, IsAfter, IsLedger, length_of_ids}
use zk_clob.Host.Errors.{HostResult, crash, refuse, give}
use zk_clob.Host.Tree.{
  lookup, AccountTree, replacements, replace_all, insert_all, reindex, indexed, after_insertions,
  after_replacements, apply,
}
use zk_clob.Host.Applying.{IsTree, Before, planned, replacements_lem}
use zk_clob.Host.Applied.{
  keep, or_else, ReplacedAll, InsertedAll, replace_all_lem, insert_all_lem, reindex_lem, shifted,
  shifted_zero, later_ids,
}

module _ (test : Account → Bool) where
  IsAfter-retain :
      (k : AccountId) (xs : List Account)
      → All (λ (v : Account). k < v.id) xs
      → IsAfter k (retain test xs)
  IsAfter-retain k [] h = tt
  IsAfter-retain k (x ∷ xs) h = elim (Bool-cases (test x)) [
    | inl passes ↦ rw passes h.0
    | inr fails ↦ rw fails (IsAfter-retain k xs h.1)
  ]

  pub IsLedger-retain : (xs : List Account) → IsLedger xs → IsLedger (retain test xs)
  IsLedger-retain [] h = tt
  IsLedger-retain (x ∷ xs) h = elim (Bool-cases (test x)) [
    | inl passes ↦
        rw passes (h.0, IsAfter-retain x.id xs (later_ids x.id xs h.1 h.2), IsLedger-retain xs h.2)
    | inr fails ↦ rw fails (IsLedger-retain xs h.2)
  ]

  All-retain_of :
      (P : Account → Type 0) (xs : List Account)
      → ((x : Account) → test x ≡ true → P x)
      → All P (retain test xs)
  All-retain_of P [] h = tt
  All-retain_of P (x ∷ xs) h = elim (Bool-cases (test x)) [
    | inl passes ↦ rw passes (h x passes, All-retain_of P xs h)
    | inr fails ↦ rw fails (All-retain_of P xs h)
  ]

  length-retain : (xs : List Account) → length (retain test xs) ≤ length xs
  length-retain [] = omega arith
  length-retain (x ∷ xs) = elim (Bool-cases (test x)) [
    | inl passes ↦ rw passes (omega (arith, length-retain xs))
    | inr fails ↦ rw fails (omega (arith, length-retain xs))
  ]

-- A tree that has been brought up to date: it is a tree again, and every identifier has its updated
-- account, or the one that it had where there is none.
pub record IsApplied (t : AccountTree) (us : List Account) (r : AccountTree × HostResult (Unit {0}))
    : Type 0 where
  pub done : r.1 ≡ give tt
  pub tree : IsTree r.0
  pub written :
      (id : AccountId)
      → account_at id r.0.state.accounts
        ≡ or_else (account_at id us) (account_at id t.state.accounts)

or_else-none : (o : Option Account) → or_else o none ≡ o
or_else-none none = refl
or_else-none (some x) = refl

-- The two loops give what is updated, or else what was there.
both_loops :
    (id : AccountId) (xs us : List Account) (p : Option ℕ)
    → AtPosition id xs p
    → or_else
        (if not (is_some p) then account_at id us else none)
        (keep (account_at id xs) (account_at id us))
      ≡ or_else (account_at id us) (account_at id xs)
both_loops id xs us none (AtPosition.absent e) = rw e refl
both_loops id xs us (some _) (AtPosition.present i x there same e) = rw e (last (account_at id us))
  where
    last : (o : Option Account) → keep (some x) o ≡ or_else o (some x)
    last none = refl
    last (some u) = refl

absent_of_test :
    (id : AccountId) (xs : List Account) (p : Option ℕ)
    → AtPosition id xs p
    → not (is_some p) ≡ true
    → account_at id xs ≡ none
absent_of_test id xs none (AtPosition.absent e) h = e
absent_of_test id xs (some _) (AtPosition.present i x there same e) h = absurd (cc)

Before-nothing : (us : List Account) → Before [] us
Before-nothing [] = tt
Before-nothing (u ∷ us) = tt

after_replacements_lem :
    (indices : List (AccountId × ℕ)) (r : State × HostResult (List Account)) (us : List Account)
    → r.1 ≡ give us
    → after_replacements indices r ≡ after_insertions indices (insert_all r.0 us)
after_replacements_lem indices (s, crash) us e = cc
after_replacements_lem indices (s, refuse x) us e = cc
after_replacements_lem indices (s, give vs) us e =
    let same : vs ≡ us = cc in ap (λ ws. after_insertions indices (insert_all s ws)) same

after_insertions_lem :
    (indices : List (AccountId × ℕ)) (r : State × HostResult (Unit {0}))
    → r.1 ≡ give tt
    → after_insertions indices r ≡ indexed r.0
after_insertions_lem indices (s, crash) e = cc
after_insertions_lem indices (s, refuse x) e = cc
after_insertions_lem indices (s, give done) e = refl

-- On a tree whose indices are those of its accounts, updated accounts in order, new ones among them, are
-- all written, as long as the numbers of old and updated accounts together do not exceed 2^32: `apply`
-- returns no error. The tree then has indices that are those of its accounts, an updated account where
-- there is one for an identifier, and everywhere else what it had.
pub apply-IsApplied :
    (t : AccountTree) (us : List Account)
    → IsTree t
    → IsLedger us
    → length t.state.accounts + length us ≤ 2 ^ 32
    → IsApplied t us (apply t us)
unfolding apply
apply-IsApplied t us h k le =
    let test : Account → Bool = λ a. not (is_some (lookup a.id t.indices)) in
    let at_place : (id : AccountId) → AtPosition id t.state.accounts (lookup id t.indices) = λ id.
      subst (AtPosition id t.state.accounts) (sym (h.indices id))
        (position-AtPosition id t.state.accounts) in
    let plan : replacements t.indices [] us ≡ give (planned t.indices us) =
      replacements_lem t.indices [] us k (Before-nothing us) in
    let s1 : State × HostResult (List Account) = replace_all t.state (planned t.indices us) in
    let replaced : ReplacedAll t.indices t.state us s1 =
      replace_all_lem t.indices t.state us h.ledger k h.indices in
    let s2 : State × HostResult (Unit {0}) = insert_all s1.0 (retain test us) in
    let inserted : InsertedAll s1.0 (retain test us) s2 =
      insert_all_lem s1.0 (retain test us) replaced.ledger (IsLedger-retain test us k) (
        All-retain_of test (λ (u : Account). account_at u.id s1.0.accounts ≡ none) us
          (λ u new.
            replaced.written u.id
            ∙ ap (λ o. keep o (account_at u.id us))
                (absent_of_test u.id t.state.accounts (lookup u.id t.indices) (at_place u.id)
                  new))) in
    let size : 0 + length s2.0.accounts ≤ 2 ^ 32 = omega (
      arith,
      le,
      inserted.longer,
      length-retain test us,
      length_of_ids t.state.accounts s1.0.accounts replaced.same_ids,
    ) in
    let done : ((reindex 0 s2.0.accounts []).1 ≡ give tt)
        × ((id : AccountId)
            → lookup id (reindex 0 s2.0.accounts []).0
              ≡ shifted 0 (position id (ids s2.0.accounts)) none) =
      reindex_lem 0 s2.0.accounts [] inserted.ledger size in
    let result : apply t us ≡ indexed s2.0 = rw plan (
      after_replacements_lem t.indices s1 (retain test us) replaced.result
      ∙ after_insertions_lem t.indices s2 inserted.result) in
    subst (IsApplied t us) (sym result) (record {
      done = done.0;
      tree = record {
        ledger = inserted.ledger;
        indices = λ id. done.1 id ∙ shifted_zero (position id (ids s2.0.accounts));
      };
      written = λ id.
          inserted.written id
          ∙ ap (λ o. or_else o (account_at id s1.0.accounts))
              (account_at-retain id (λ j. not (is_some (lookup j t.indices))) us)
          ∙ ap (or_else (if not (is_some (lookup id t.indices)) then account_at id us else none))
              (replaced.written id)
          ∙ both_loops id t.state.accounts us (lookup id t.indices) (at_place id);
    })

-- ===== src/Host/Merged.antt =====
-- The accounts of some identifiers and all others, after crates/host/src/account_tree.rs has written updated ones.
use mathlib.Core.Path.{subst}
use zk_clob.Prelude.{
  ◌^◌, ◌<◌, ◌≡◌, refl, sym, ap, ◌∙◌, true, false, not, Option, none, some, List, [], ◌∷◌, All,
  is_some, is_key, All-is_key, ◌==◌, inl, inr, Bool-cases,
}
use zk_clob.Types.Ids.{AccountId, account_id_bits}
use zk_clob.Types.Account.{Account}
use zk_clob.State.Finding.{account_at, account_at-retain}
use zk_clob.State.Witness.{accounts_of, other_accounts}
use zk_clob.Settlement.Balances.Ledger.{ids, Keeps, IsLedger}
use zk_clob.Host.Applied.{or_else}
use zk_clob.Host.Updated.{IsLedger-retain}
use zk_clob.Host.Ledgers.{same_ledgers, All-of_parts, All-retained}

is_key-account_at :
    (id : AccountId) (xs : List Account) → is_key (ids xs) id ≡ is_some (account_at id xs)
is_key-account_at id [] = refl
is_key-account_at id (x ∷ xs) = elim (Bool-cases (x.id == id)) [
  | inl same ↦ rw same refl
  | inr other ↦ rw other (is_key-account_at id xs)
]

covered :
    (new old : Option Account) → (is_some old ≡ true → is_some new ≡ true) → or_else new old ≡ new
covered none none h = refl
covered none (some x) h = (let bad : false ≡ true = h refl in cc)
covered (some u) old h = refl

nothing : (o : Option Account) → (is_some o ≡ true → false ≡ true) → o ≡ none
nothing none h = refl
nothing (some x) h = (let bad : false ≡ true = h refl in cc)

-- Accounts before a batch, updated accounts of some identifiers, and all accounts after it.
module _ (keys : List AccountId) (before updated after : List Account)
    (before_ledger : IsLedger before) (updated_ledger : IsLedger updated)
    (after_ledger : IsLedger after) (among : All (λ id. is_key keys id ≡ true) (ids updated))
    (kept : Keeps (accounts_of keys before) updated)
    (written : (id : AccountId)
      → account_at id after ≡ or_else (account_at id updated) (account_at id before)) where
  updated_key : (id : AccountId) → is_some (account_at id updated) ≡ true → is_key keys id ≡ true
  updated_key id there =
      All-is_key (λ k. is_key keys k ≡ true) (ids updated) id (is_key-account_at id updated ∙ there)
        among

  no_update : (id : AccountId) → is_key keys id ≡ false → account_at id updated ≡ none
  no_update id missing =
      nothing (account_at id updated) (λ there. sym missing ∙ updated_key id there)

  still_there :
      (id : AccountId)
      → is_key keys id ≡ true
      → is_some (account_at id before) ≡ true
      → is_some (account_at id updated) ≡ true
  still_there id key there =
      let here : account_at id (accounts_of keys before) ≡ account_at id before =
        account_at-retain id (is_key keys) before ∙ rw key refl in
      sym (is_key-account_at id updated)
      ∙ All-is_key (λ k. is_key (ids updated) k ≡ true) (ids (accounts_of keys before)) id
          (is_key-account_at id (accounts_of keys before) ∙ ap is_some here ∙ there) kept

  -- The accounts of the identifiers are the updated ones.
  pub accounts_of-after : accounts_of keys after ≡ updated
  accounts_of-after =
      same_ledgers (accounts_of keys after) updated
        (IsLedger-retain (λ a. is_key keys a.id) after after_ledger) updated_ledger
        (λ id. account_at-retain id (is_key keys) after ∙ elim (Bool-cases (is_key keys id)) [
          | inl key ↦ rw key (
              written id
              ∙ covered (account_at id updated) (account_at id before) (still_there id key))
          | inr missing ↦ rw missing (sym (no_update id missing))
        ])

  -- All others are what they were.
  pub other_accounts-after : other_accounts keys after ≡ other_accounts keys before
  other_accounts-after =
      same_ledgers (other_accounts keys after) (other_accounts keys before)
        (IsLedger-retain (λ a. not (is_key keys a.id)) after after_ledger)
        (IsLedger-retain (λ a. not (is_key keys a.id)) before before_ledger)
        (λ id.
          account_at-retain id (λ k. not (is_key keys k)) after
          ∙ (elim (Bool-cases (is_key keys id)) [
            | inl key ↦ rw key refl
            | inr missing ↦
                rw missing
                  (written id ∙ ap (λ o. or_else o (account_at id before)) (no_update id missing))
          ])
          ∙ sym (account_at-retain id (λ k. not (is_key keys k)) before))

  pub after-fits :
      All (λ k. k < 2 ^ account_id_bits) keys
      → All (λ (a : Account). a.id < 2 ^ account_id_bits) before
      → All (λ (a : Account). a.id < 2 ^ account_id_bits) after
  after-fits key_fits fits =
      All-of_parts (λ (a : Account). a.id < 2 ^ account_id_bits) (λ a. is_key keys a.id) after
        (subst (All (λ (a : Account). a.id < 2 ^ account_id_bits)) (sym accounts_of-after)
          (all_among updated among))
        (subst (All (λ (a : Account). a.id < 2 ^ account_id_bits)) (sym other_accounts-after) (
          All-retained (λ (a : Account). a.id < 2 ^ account_id_bits) (λ a. not (is_key keys a.id))
            before fits))
    where
      all_among :
          (xs : List Account)
          → All (λ id. is_key keys id ≡ true) (ids xs)
          → All (λ (a : Account). a.id < 2 ^ account_id_bits) xs
      all_among [] h = tt
      all_among (x ∷ xs) h =
          (All-is_key (λ k. k < 2 ^ account_id_bits) keys x.id h.0 key_fits, all_among xs h.1)

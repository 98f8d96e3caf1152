-- ===== src/State/Witness.antt =====
-- `State::witness_for`, `StateWitness::root` and `State::root` of crates/core/src/state.rs together.
use mathlib.Core.Path.{subst}
use zk_clob.Prelude.{
  is_key, ◌^◌, ◌<◌, ◌≡◌, refl, sym, ap, ◌∙◌, true, false, not, List, [], ◌∷◌, All, retain, is_empty,
  Search, found, vacant, further, binary_search_by_key, ltb, ◌==◌, inl, inr, Bool-cases, arith,
}
use zk_clob.Types.Ids.{B256, AccountId, account_id_bits}
use zk_clob.Types.Account.{Account}
use zk_clob.Types.Batch.{StateWitness, PatriciaMultiproof}
use zk_clob.Types.Errors.{ok}
use zk_clob.Hashing.{Crypto}
use zk_clob.State.{State, found_in, touched, account_leaf, state_root, witness_for, witness_root}
use zk_clob.Settlement.{with_accounts}
use zk_clob.Settlement.Balances.Ledger.{ids, IsLedger}
use zk_clob.Settlement.Validation.Accounts.Ledger.{IsAscending}
use zk_clob.Trees.Patricia.{compute_root, compute_root_from_proof}
use zk_clob.Trees.Multiproof.{build_multiproof}
use zk_clob.Trees.Keyed.{IsBelow, absent, IsBelow-trans, ascending-IsBelow, IsAscending-tail}
use zk_clob.Trees.RoundTrip.{compute_root_from_proof-build_multiproof}

-- The accounts of some identifiers, and all others, each in the order of the state.
abbrev pub accounts_of : List AccountId → List Account → List Account
accounts_of keys = retain (λ (a : Account). is_key keys a.id)

abbrev pub other_accounts : List AccountId → List Account → List Account
other_accounts keys = retain (λ (a : Account). not (is_key keys a.id))

pub IsLedger-IsAscending : (xs : List Account) → IsLedger xs → IsAscending (ids xs)
IsLedger-IsAscending [] h = tt
IsLedger-IsAscending (x ∷ []) h = tt
IsLedger-IsAscending (x ∷ y ∷ xs) h = (h.1, IsLedger-IsAscending (y ∷ xs) h.2)

found_in-further :
    (a : Account) (xs : List Account) (s : Search) (rest : List Account)
    → found_in (a ∷ xs) (further s) rest ≡ found_in xs s rest
found_in-further a xs (found i) rest = refl
found_in-further a xs (vacant i) rest = refl

-- A key before all accounts selects none.
drop_first :
    (k : AccountId) (ks : List AccountId) (xs : List Account)
    → IsBelow k (ids xs)
    → accounts_of (k ∷ ks) xs ≡ accounts_of ks xs
drop_first k ks [] h = refl
drop_first k ks (x ∷ xs) h =
    let different : k == x.id ≡ false = ground arith in
    rw different (elim (Bool-cases (is_key ks x.id)) [
      | inl present ↦ rw present (ap (λ ys. x ∷ ys) (drop_first k ks xs h.1))
      | inr missing ↦ rw missing (drop_first k ks xs h.1)
    ])

-- One more key, which lies before the others.
accounts_of-cons :
    (k : AccountId) (ks : List AccountId) (xs : List Account)
    → IsBelow k ks
    → IsAscending (ids xs)
    → accounts_of (k ∷ ks) xs
      ≡ found_in xs (binary_search_by_key (λ (a : Account). a.id) xs k) (accounts_of ks xs)
accounts_of-cons k ks [] below h = refl
accounts_of-cons k ks (x ∷ xs) below h = elim (Bool-cases (ltb x.id k)) [
  | inl low ↦
      let different : k == x.id ≡ false = ground arith in
      let missing : is_key ks x.id ≡ false =
        absent x.id ks (IsBelow-trans x.id k ks (ground arith) below) in
      rw (different, missing, low)
        (accounts_of-cons k ks xs below (IsAscending-tail x.id (ids xs) h)
          ∙ sym (
              found_in-further x xs (binary_search_by_key (λ (a : Account). a.id) xs k)
                (accounts_of ks xs)))
  | inr high ↦ elim (Bool-cases (x.id == k)) [
    | inl same ↦
        let equal : k == x.id ≡ true = ground arith in
        let same_key : x.id ≡ k = ground arith in
        let missing : is_key ks x.id ≡ false = absent x.id ks (ground arith) in
        rw (equal, high, same, missing)
          (ap (λ ys. x ∷ ys)
            (drop_first k ks xs
              (subst (λ j. IsBelow j (ids xs)) same_key (ascending-IsBelow x.id (ids xs) h))))
    | inr after ↦
        let first : k < x.id = ground arith in
        rw (high, after)
          (drop_first k ks (x ∷ xs)
            (first, IsBelow-trans k x.id (ids xs) first (ascending-IsBelow x.id (ids xs) h)))
  ]
]

no_keys : (xs : List Account) → accounts_of [] xs ≡ []
no_keys [] = refl
no_keys (x ∷ xs) = no_keys xs

-- The accounts of a witness, where the identifiers are in order.
touched_lem :
    (xs : List Account) (keys : List AccountId)
    → IsAscending (ids xs)
    → IsAscending keys
    → touched xs keys ≡ accounts_of keys xs
touched_lem xs [] h k = sym (no_keys xs)
touched_lem xs (id ∷ keys) h k =
    ap (found_in xs (binary_search_by_key (λ (a : Account). a.id) xs id))
      (touched_lem xs keys h (IsAscending-tail id keys k))
    ∙ sym (accounts_of-cons id keys xs (ascending-IsBelow id keys k) h)

module _ (c : Crypto) (s s' : State) (keys : List AccountId) (ledger : IsLedger s.accounts)
    (new_ledger : IsLedger s'.accounts)
    (fits : All (λ (a : Account). a.id < 2 ^ account_id_bits) s.accounts)
    (new_fits : All (λ (a : Account). a.id < 2 ^ account_id_bits) s'.accounts)
    (ascending : IsAscending keys) (some_keys : is_empty keys ≡ false)
    (key_fits : All (λ k. k < 2 ^ account_id_bits) keys)
    (same : other_accounts keys s'.accounts ≡ other_accounts keys s.accounts) where
  -- Let two states, in order and with identifiers of 160 bits, have the same accounts outside of one or
  -- more identifiers in order. Then `witness_for` makes a witness of these identifiers from the first.
  -- It holds these identifiers and the accounts that the first state has of them, and has the root of the first state; with the
  -- accounts that the second state has of them it has the root of the second.
  pub witness_for_lem :
      (w : StateWitness) × (root : B256) × (new_root : B256) × (witness_for c s keys ≡ ok w)
      × (w.multiproof.leaf_keys ≡ keys)
      × (w.accounts ≡ accounts_of keys s.accounts)
      × (witness_root c w ≡ ok root)
      × (state_root c s ≡ ok root)
      × (witness_root c (with_accounts w (accounts_of keys s'.accounts)) ≡ ok new_root)
      × (state_root c s' ≡ ok new_root)
  unfolding witness_for witness_root state_root
  witness_for_lem =
      let in_order : IsAscending (ids s.accounts) = IsLedger-IsAscending s.accounts ledger in
      let old : (proof : PatriciaMultiproof) × (root : B256) × (build_multiproof c account_id_bits
              (account_leaf c) s.accounts keys
            ≡ ok proof)
          × (proof.leaf_keys ≡ keys)
          × (compute_root_from_proof c account_id_bits (account_leaf c)
                (accounts_of keys s.accounts) proof
              ≡ ok root)
          × (compute_root c account_id_bits (account_leaf c) s.accounts ≡ ok root) =
        compute_root_from_proof-build_multiproof c account_id_bits (account_leaf c) s.accounts
          s.accounts keys fits in_order fits in_order ascending some_keys key_fits refl in
      let new : (proof : PatriciaMultiproof) × (root : B256) × (build_multiproof c account_id_bits
              (account_leaf c) s.accounts keys
            ≡ ok proof)
          × (proof.leaf_keys ≡ keys)
          × (compute_root_from_proof c account_id_bits (account_leaf c)
                (accounts_of keys s'.accounts) proof
              ≡ ok root)
          × (compute_root c account_id_bits (account_leaf c) s'.accounts ≡ ok root) =
        compute_root_from_proof-build_multiproof c account_id_bits (account_leaf c) s.accounts
          s'.accounts keys fits in_order new_fits (IsLedger-IsAscending s'.accounts new_ledger)
          ascending some_keys key_fits same in
      let one_proof : new.0 ≡ old.0 = (let both : ok new.0 ≡ ok old.0 = sym new.2 ∙ old.2 in cc) in
      let accounts : touched s.accounts keys ≡ accounts_of keys s.accounts =
        touched_lem s.accounts keys in_order ascending in
      (
        record { accounts = touched s.accounts keys; multiproof = old.0 },
        old.1,
        new.1,
        rw old.2 refl,
        old.3,
        accounts,
        rw accounts old.4,
        rw old.5 refl,
        subst
            (λ p.
              compute_root_from_proof c account_id_bits (account_leaf c)
                (accounts_of keys s'.accounts) p
              ≡ ok new.1)
            one_proof new.4,
        rw new.5 refl,
      )

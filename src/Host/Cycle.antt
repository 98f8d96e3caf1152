-- ===== src/Host/Cycle.antt =====
-- A batch from the host's account tree and back into it: `AccountTree::witness` and `AccountTree::apply`
-- of crates/host/src/account_tree.rs around `settle_batch` of crates/core/src/settlement/mod.rs.
use mathlib.Core.Path.{subst}
use zk_clob.Prelude.{
  suc, ◌+◌, ◌^◌, ◌<◌, ◌≤◌, ◌≡◌, refl, sym, ap, ◌∙◌, true, false, List, [], ◌∷◌, length, All,
  is_empty, is_key, u64_mod, arith,
}
use zk_clob.Types.Ids.{B256, AccountId, account_id_bits}
use zk_clob.Types.Account.{Account}
use zk_clob.Types.Batch.{StateWitness, BatchInput, BatchOutput}
use zk_clob.Types.Errors.{Result, ok, err, panic}
use zk_clob.Types.Results.{Safe, Safe-imp}
use zk_clob.Hashing.{Crypto}
use zk_clob.State.{account_leaf, state_root, witness_for, witness_root}
use zk_clob.State.Witness.{accounts_of, other_accounts, IsLedger-IsAscending, witness_for_lem}
use zk_clob.Settlement.{with_accounts, build_output, settle_batch}
use zk_clob.Settlement.Balances.Ledger.{ids, Keeps, IsLedger}
use zk_clob.Settlement.Steps.{IsIndexedBatch}
use zk_clob.Settlement.Outcome.{IsOutcome, settle_batch-Safe}
use zk_clob.Settlement.Validation.Accounts.Ledger.{IsAscending}
use zk_clob.Trees.Accepted.{accepted_keys}
use zk_clob.Host.Errors.{BatchBuildError, give, with_error}
use zk_clob.Host.Tree.{AccountTree, tree_witness, apply}
use zk_clob.Host.Applying.{IsTree}
use zk_clob.Host.Updated.{IsApplied, apply-IsApplied}
use zk_clob.Host.Merged.{accounts_of-after, other_accounts-after, after-fits}
use zk_clob.Host.Ledgers.{length-among}

give_of_witness :
    (e : BatchBuildError) (r : Result StateWitness) (w : StateWitness)
    → with_error e r ≡ give w
    → r ≡ ok w
give_of_witness e (ok a) w h = (let same : a ≡ w = cc in ap (λ x. ok x) same)
give_of_witness e (err x) w h = cc
give_of_witness e panic w h = cc

length-ids : (xs : List Account) → length (ids xs) ≡ length xs
length-ids [] = refl
length-ids (x ∷ xs) = ap suc (length-ids xs)

-- A batch that was settled on a witness of the tree. The old root of the output is the root of the tree;
-- the updated accounts can be applied to the tree, which has the new root of the output afterwards.
pub record IsCycle (c : Crypto) (t : AccountTree) (out : BatchOutput) : Type 0 where
  pub old_root : state_root c t.state ≡ ok out.public_output.old_state_root
  pub done : (apply t out.updated_accounts).1 ≡ give tt
  pub tree : IsTree (apply t out.updated_accounts).0
  pub new_root :
      state_root c (apply t out.updated_accounts).0.state ≡ ok out.public_output.new_state_root

module _ (c : Crypto) (t : AccountTree) (keys : List AccountId) (input : BatchInput)
    (is_tree : IsTree t) (fits : All (λ (a : Account). a.id < 2 ^ account_id_bits) t.state.accounts)
    (ascending : IsAscending keys) (some_keys : is_empty keys ≡ false)
    (key_fits : All (λ k. k < 2 ^ account_id_bits) keys)
    (room : length t.state.accounts + length keys ≤ 2 ^ 32)
    (witnessed : tree_witness c t keys ≡ give input.state) where
  witness_is : witness_for c t.state keys ≡ ok input.state
  unfolding tree_witness
  witness_is = give_of_witness _ (witness_for c t.state keys) input.state witnessed

  -- The tree after accounts have been written, if they have the root of the witness with them in it.
  record After (zs : List Account) (old_root new_root : B256) : Type 0 where
    old_is : state_root c t.state ≡ ok old_root
    applied : IsApplied t zs (apply t zs)
    new_is : state_root c (apply t zs).0.state ≡ ok new_root

  After-of :
      (zs : List Account) (old_root new_root : B256)
      → IsLedger zs
      → Keeps input.state.accounts zs
      → witness_root c input.state ≡ ok old_root
      → witness_root c (with_accounts input.state zs) ≡ ok new_root
      → After zs old_root new_root
  unfolding witness_root
  After-of zs old_root new_root ledger kept old new =
      let own : (w : StateWitness) × (root : B256) × (same_root : B256) × (witness_for c t.state
              keys
            ≡ ok w)
          × (w.multiproof.leaf_keys ≡ keys)
          × (w.accounts ≡ accounts_of keys t.state.accounts)
          × (witness_root c w ≡ ok root)
          × (state_root c t.state ≡ ok root)
          × (witness_root c (with_accounts w (accounts_of keys t.state.accounts)) ≡ ok same_root)
          × (state_root c t.state ≡ ok same_root) =
        witness_for_lem c t.state t.state keys is_tree.ledger is_tree.ledger fits fits ascending
          some_keys key_fits refl in
      let both : ok own.0 ≡ ok input.state = sym own.3 ∙ witness_is in
      let same : own.0 ≡ input.state = cc in
      let leaf_keys : input.state.multiproof.leaf_keys ≡ keys =
        ap (λ (w : StateWitness). w.multiproof.leaf_keys) (sym same) ∙ own.4 in
      let accounts : input.state.accounts ≡ accounts_of keys t.state.accounts =
        ap (λ (w : StateWitness). w.accounts) (sym same) ∙ own.5 in
      let among : All (λ id. is_key keys id ≡ true) (ids zs) =
        subst (λ ks. All (λ id. is_key ks id ≡ true) (ids zs)) leaf_keys
          (accepted_keys c account_id_bits (account_leaf c) zs input.state.multiproof new_root
            (IsLedger-IsAscending zs ledger) new) in
      let keeps : Keeps (accounts_of keys t.state.accounts) zs =
        subst (λ xs. Keeps xs zs) accounts kept in
      let size : length (ids zs) ≤ length keys =
        length-among keys (ids zs) ascending (IsLedger-IsAscending zs ledger) among in
      let applied : IsApplied t zs (apply t zs) =
        apply-IsApplied t zs is_tree ledger (omega (arith, size, room, length-ids zs)) in
      let xs : List Account = (apply t zs).0.state.accounts in
      let chosen_same : accounts_of keys xs ≡ zs =
        accounts_of-after keys t.state.accounts zs xs is_tree.ledger ledger applied.tree.ledger
          among keeps applied.written in
      let others_same : other_accounts keys xs ≡ other_accounts keys t.state.accounts =
        other_accounts-after keys t.state.accounts zs xs is_tree.ledger ledger applied.tree.ledger
          among keeps applied.written in
      let next : (w : StateWitness) × (root : B256) × (new_root : B256) × (witness_for c t.state
              keys
            ≡ ok w)
          × (w.multiproof.leaf_keys ≡ keys)
          × (w.accounts ≡ accounts_of keys t.state.accounts)
          × (witness_root c w ≡ ok root)
          × (state_root c t.state ≡ ok root)
          × (witness_root c (with_accounts w (accounts_of keys xs)) ≡ ok new_root)
          × (state_root c (apply t zs).0.state ≡ ok new_root) =
        witness_for_lem c t.state (apply t zs).0.state keys is_tree.ledger applied.tree.ledger fits
          (after-fits keys t.state.accounts zs xs is_tree.ledger ledger applied.tree.ledger among
            keeps applied.written key_fits fits)
          ascending some_keys key_fits others_same in
      let next_both : ok next.0 ≡ ok input.state = sym next.3 ∙ witness_is in
      let next_same : next.0 ≡ input.state = cc in
      let old_roots : ok own.1 ≡ ok old_root = sym own.6 ∙ ap (witness_root c) same ∙ old in
      let new_roots : ok next.2 ≡ ok new_root =
        sym next.8
        ∙ ap (λ w. witness_root c (with_accounts w (accounts_of keys xs))) next_same
        ∙ ap (λ ys. witness_root c (with_accounts input.state ys)) chosen_same
        ∙ new in
      record { old_is = own.7 ∙ old_roots; applied = applied; new_is = next.9 ∙ new_roots }

  -- Let a tree whose indices are those of its accounts give the witness of one or more identifiers in
  -- order, these and those of the accounts all of 160 bits, and let the numbers of accounts and of these
  -- identifiers together not exceed 2^32. On 64-bit cursors
  -- and with the account indices there, `settle_batch` never panics on a batch with that witness. What it
  -- accepts has the root of the tree as old root, and its updated accounts can be applied to the tree,
  -- without an error: it has indices that are those of its accounts again, and the new root of the output.
  pub settle_batch-apply :
      input.old_deposit_cursor < u64_mod
      → input.old_forced_withdrawal_cursor < u64_mod
      → IsIndexedBatch input
      → Safe (IsCycle c t) (settle_batch c input)
  unfolding build_output
  settle_batch-apply dc fc indexed =
      Safe-imp (IsOutcome c input) (IsCycle c t) (settle_batch c input)
        (settle_batch-Safe c input dc fc indexed)
        (λ out o.
          let a : After o.settled.accounts input.expected_old_state_root o.new_root =
            After-of o.settled.accounts input.expected_old_state_root o.new_root o.settlement.ledger
              o.settlement.kept o.old_root o.new_root_is in
          rw o.output_is (record {
            old_root = a.old_is;
            done = a.applied.done;
            tree = a.applied.tree;
            new_root = a.new_is;
          }))

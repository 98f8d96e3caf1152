-- ===== src/Tests/Proofs.antt =====
-- The theorems on the proofs of the state at the fixture.
use zk_clob.Prelude.{◌≡◌, refl, [], ◌∷◌, List, arith}
use zk_clob.Types.Ids.{B256, account_id_bits}
use zk_clob.Types.Account.{Account}
use zk_clob.Types.Batch.{StateWitness, PatriciaMultiproof}
use zk_clob.Types.Errors.{ok}
use zk_clob.State.{State, account_leaf, state_root, witness_for, witness_root}
use zk_clob.State.Witness.{accounts_of, witness_for_lem}
use zk_clob.Settlement.{with_accounts}
use zk_clob.Settlement.Balances.Ledger.{IsLedger}
use zk_clob.Trees.Patricia.{compute_root, compute_root_from_proof}
use zk_clob.Trees.Multiproof.{build_multiproof}
use zk_clob.Trees.Keyed.{chosen}
use zk_clob.Trees.RoundTrip.{compute_root_from_proof-build_multiproof}
use zk_clob.Tests.Witnesses.{accounts-IsLedger}
use zk_clob.Tests.Fixture.{toy_crypto, holding, account, accounts}

-- Account 5 changed and account 6 opened.
abbrev updated : List Account
updated =
    account 3 [] 0
    ∷ account 5 (holding 1 4 ∷ []) 2
    ∷ account 6 (holding 1 9 ∷ []) 0
    ∷ account 7 (holding 1 50 ∷ holding 2 5 ∷ []) 2
    ∷ []

compute_root_from_proof-build_multiproof_example :
    (proof : PatriciaMultiproof) × (root : B256) × (build_multiproof toy_crypto account_id_bits
        (account_leaf toy_crypto)
        accounts
        (5 ∷ 6 ∷ [])
      ≡ ok proof)
    × (proof.leaf_keys ≡ 5 ∷ 6 ∷ [])
    × (compute_root_from_proof toy_crypto account_id_bits
          (account_leaf toy_crypto)
          (chosen toy_crypto account_id_bits (account_leaf toy_crypto) (5 ∷ 6 ∷ []) updated)
          proof
        ≡ ok root)
    × (compute_root toy_crypto account_id_bits (account_leaf toy_crypto) updated ≡ ok root)
compute_root_from_proof-build_multiproof_example =
    compute_root_from_proof-build_multiproof toy_crypto account_id_bits (account_leaf toy_crypto)
      accounts updated (5 ∷ 6 ∷ []) (omega arith) (omega arith) (omega arith) (omega arith)
      (omega arith) refl (omega arith) refl

abbrev complete : State
complete = record { accounts = accounts }

abbrev complete_updated : State
complete_updated = record { accounts = updated }

updated-IsLedger : IsLedger updated
updated-IsLedger = omega arith

witness_for_lem_example :
    (w : StateWitness) × (root : B256) × (new_root : B256) × (witness_for toy_crypto complete
        (5 ∷ 6 ∷ [])
      ≡ ok w)
    × (w.multiproof.leaf_keys ≡ 5 ∷ 6 ∷ [])
    × (w.accounts ≡ accounts_of (5 ∷ 6 ∷ []) accounts)
    × (witness_root toy_crypto w ≡ ok root)
    × (state_root toy_crypto complete ≡ ok root)
    × (witness_root toy_crypto (with_accounts w (accounts_of (5 ∷ 6 ∷ []) updated)) ≡ ok new_root)
    × (state_root toy_crypto complete_updated ≡ ok new_root)
witness_for_lem_example =
    witness_for_lem toy_crypto complete complete_updated (5 ∷ 6 ∷ []) accounts-IsLedger
      updated-IsLedger (omega arith) (omega arith) (omega arith) refl (omega arith) refl

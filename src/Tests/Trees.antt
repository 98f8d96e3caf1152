-- ===== src/Tests/Trees.antt =====
-- The theorems on the account tree at the fixture.
use zk_clob.Prelude.{◌≡◌, refl, [], ◌∷◌, List, arith}
use zk_clob.Types.Account.{Account}
use zk_clob.Types.Results.{Safe}
use zk_clob.Settlement.{settle_batch}
use zk_clob.Host.Errors.{give, Gives}
use zk_clob.Host.Tree.{AccountTree, account_tree, tree_witness, apply}
use zk_clob.Host.Applying.{IsTree}
use zk_clob.Host.Updated.{IsApplied, apply-IsApplied}
use zk_clob.Host.Opened.{account_tree-IsTree}
use zk_clob.Host.Cycle.{IsCycle, settle_batch-apply}
use zk_clob.Tests.Witnesses.{accounts-IsLedger, batch_indexed}
use zk_clob.Tests.Fixture.{toy_crypto, holding, account, accounts, live_batch, witness}

abbrev tree : AccountTree
tree = record { state = record { accounts = accounts }; indices = (3, 0) ∷ (5, 1) ∷ (7, 2) ∷ [] }

tree-IsTree : IsTree tree
tree-IsTree = record { ledger = accounts-IsLedger; indices = λ id. ground arith }

-- Account 5 changed and account 6 opened.
abbrev updated : List Account
updated = account 5 (holding 1 4 ∷ []) 2 ∷ account 6 (holding 1 9 ∷ []) 0 ∷ []

apply-IsApplied_example : IsApplied tree updated (apply tree updated)
apply-IsApplied_example = apply-IsApplied tree updated tree-IsTree (omega arith) (omega arith)

account_tree-IsTree_example :
    Gives IsTree (account_tree (account 7 [] 0 ∷ account 5 (holding 1 4 ∷ []) 2 ∷ []))
account_tree-IsTree_example =
    account_tree-IsTree (account 7 [] 0 ∷ account 5 (holding 1 4 ∷ []) 2 ∷ [])
      (tt, ((omega arith, tt, tt), tt))

tree_witness_of_accounts : tree_witness toy_crypto tree (3 ∷ 5 ∷ 7 ∷ []) ≡ give witness
unfolding tree_witness
tree_witness_of_accounts = refl

settle_batch-apply_example : Safe (IsCycle toy_crypto tree) (settle_batch toy_crypto live_batch)
settle_batch-apply_example =
    settle_batch-apply toy_crypto tree (3 ∷ 5 ∷ 7 ∷ []) live_batch tree-IsTree (omega arith)
      (omega arith) refl (omega arith) (omega arith) tree_witness_of_accounts (omega arith)
      (omega arith) batch_indexed

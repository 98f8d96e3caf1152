-- ===== src/Tests/Operators.antt =====
-- The theorems on the state and the batch builder at the fixture.
use zk_clob.Prelude.{◌≡◌, refl, [], ◌∷◌, checked_add, checked_add_u64, arith}
use zk_clob.Types.Results.{Safe, Succeeds, Any}
use zk_clob.Types.Ids.{account_id_bits}
use zk_clob.Types.Order.{Side}
use zk_clob.Types.Config.{asset_of}
use zk_clob.Account.{balance}
use zk_clob.Types.Batch.{SigningDomain}
use zk_clob.State.{State, account_leaf, insert_account, replace_account}
use zk_clob.State.Complete.{
  IsInserted, IsReplaced, insert_account-IsInserted, replace_account-IsReplaced,
}
use zk_clob.Trees.Patricia.{compute_root}
use zk_clob.Trees.Multiproof.{build_multiproof}
use zk_clob.Trees.Making.{build_multiproof-Safe}
use zk_clob.Host.Errors.{give, Gives}
use zk_clob.Host.Tree.{AccountTree, account_in}
use zk_clob.Host.Batches.{
  BatchBuilder, batch_builder, add_deposit, add_forced_withdrawal, add_order, add_withdrawal,
}
use zk_clob.Host.Build.{build_batch}
use zk_clob.Host.Ranked.{IsBuilt}
use zk_clob.Host.Filling.{Addition, Filled, build-Filled-IsBuilt}
use zk_clob.Tests.Witnesses.{accounts-IsLedger}
use zk_clob.Tests.Fixture.{
  toy_crypto, holding, account, config, accounts, deposit, order, request, withdrawal,
}

abbrev complete : State
complete = record { accounts = accounts }

insert_account-IsInserted_example :
    IsInserted complete
      (account 6 (holding 1 4 ∷ []) 0)
      (insert_account complete (account 6 (holding 1 4 ∷ []) 0))
insert_account-IsInserted_example =
    insert_account-IsInserted complete (account 6 (holding 1 4 ∷ []) 0) accounts-IsLedger
      (omega arith, tt, tt)

replace_account-IsReplaced_example :
    IsReplaced complete (replace_account complete 1 (account 5 (holding 1 4 ∷ []) 2))
replace_account-IsReplaced_example =
    replace_account-IsReplaced complete 1 (account 5 (holding 1 4 ∷ []) 2) accounts-IsLedger
      (omega arith, tt, tt)

build_multiproof-Safe_example :
    Safe
      (λ _.
        Succeeds Any (compute_root toy_crypto account_id_bits (account_leaf toy_crypto) accounts))
      (build_multiproof toy_crypto account_id_bits (account_leaf toy_crypto) accounts (5 ∷ 6 ∷ []))
build_multiproof-Safe_example =
    build_multiproof-Safe toy_crypto account_id_bits (account_leaf toy_crypto) accounts (5 ∷ 6 ∷ [])

abbrev tree : AccountTree
tree = record { state = complete; indices = (3, 0) ∷ (5, 1) ∷ (7, 2) ∷ [] }

abbrev domain : SigningDomain
domain = record { protocol_version = 1; chain_id = 1; exchange_id = 9 }

abbrev empty : BatchBuilder
empty = batch_builder tree config domain 6 11 20

-- After a deposit that opens account 6, a request, an order and a withdrawal.
abbrev with_deposit : BatchBuilder
with_deposit = record empty { touched_accounts = 3 ∷ 6 ∷ []; deposits = deposit 11 6 1 2 200 ∷ [] }

abbrev with_request : BatchBuilder
with_request = record with_deposit {
  touched_accounts = 3 ∷ 6 ∷ 7 ∷ [];
  forced_withdrawals = request 20 7 2 2 9 ∷ [];
}

abbrev with_order : BatchBuilder
with_order = record with_request {
  sequences = 4 ∷ [];
  nonces = (6, 0 ∷ []) ∷ [];
  books = (4, record { buys = 0 ∷ []; sells = [] }) ∷ [];
  orders = order 6 1 Side.buy 3 4 0 4 ∷ [];
}

abbrev with_withdrawal : BatchBuilder
with_withdrawal = record with_order {
  touched_accounts = 3 ∷ 5 ∷ 6 ∷ 7 ∷ [];
  nonces = (5, 0 ∷ []) ∷ (6, 0 ∷ []) ∷ [];
  withdrawals = withdrawal 5 1 2 100 0 ∷ [];
}

deposited : add_deposit empty (deposit 11 6 1 2 200) ≡ give with_deposit
unfolding add_deposit batch_builder checked_add_u64 asset_of
deposited = refl

requested : add_forced_withdrawal with_deposit (request 20 7 2 2 9) ≡ give with_request
unfolding add_forced_withdrawal batch_builder checked_add_u64
requested = refl

ordered : add_order with_request (order 6 1 Side.buy 3 4 0 4) ≡ give with_order
unfolding add_order batch_builder account_in
ordered = refl

withdrawn : add_withdrawal with_order (withdrawal 5 1 2 100 0) ≡ give with_withdrawal
unfolding add_withdrawal batch_builder account_in asset_of balance checked_add
withdrawn = refl

filled : Filled empty with_withdrawal
filled =
    Filled.later
      (Filled.later
        (Filled.later
          (Filled.later Filled.fresh (Addition.deposit (deposit 11 6 1 2 200) deposited))
          (Addition.forced_withdraw (request 20 7 2 2 9) requested))
        (Addition.order (order 6 1 Side.buy 3 4 0 4) ordered))
      (Addition.withdraw (withdrawal 5 1 2 100 0) withdrawn)

build-Filled-IsBuilt_example :
    Gives (IsBuilt toy_crypto with_withdrawal) (build_batch toy_crypto with_withdrawal)
build-Filled-IsBuilt_example = build-Filled-IsBuilt toy_crypto tree config domain 6 11 20 filled

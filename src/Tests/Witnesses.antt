-- ===== src/Tests/Witnesses.antt =====
-- The theorems at the fixture.
use zk_clob.Prelude.{◌≡◌, ◌↔◌, refl, some, [], ◌∷◌, ◌+◌, none, All, arith}
use zk_clob.Types.Errors.{ok}
use zk_clob.Types.Results.{Safe, Succeeds, Any}
use zk_clob.Types.Order.{Side}
use zk_clob.Types.Config.{market_of}
use zk_clob.Types.Ids.{account_id_bits}
use zk_clob.Hashing.{signing_domain_hash}
use zk_clob.Account.{debit, credit}
use zk_clob.Account.Held.{IsCanonical}
use zk_clob.Account.Laws.{DebitResult, CreditResult, debit_result, credit_result}
use zk_clob.State.{account_leaf}
use zk_clob.Trees.Patricia.{compute_root_from_proof}
use zk_clob.Trees.Patricia.Safety.{compute_root_from_proof-Safe}
use zk_clob.Settlement.{settle_operations, settle_batch}
use zk_clob.Settlement.Balances.{apply_deposits, apply_forced_withdrawals, apply_withdrawals}
use zk_clob.Settlement.Balances.Ledger.{IsLedger, IsShifted, no_flow}
use zk_clob.Settlement.Balances.Deposits.{IsGrown, apply_deposits-Safe}
use zk_clob.Settlement.Balances.Forced.{Executes, apply_forced_withdrawals-Succeeds}
use zk_clob.Settlement.Balances.Withdrawals.{withdrawn, apply_withdrawals-Safe}
use zk_clob.Settlement.Nonces.{consume_nonces}
use zk_clob.Settlement.Nonces.Consume.{
  order_uses, withdrawal_uses, IsAdvanced, consume_nonces-IsAdvanced,
}
use zk_clob.Settlement.Matching.{match_market, match_and_settle, settle_trade}
use zk_clob.Settlement.Matching.Trades.{IsIndexed, IsTradeOf, settle_trade-Safe}
use zk_clob.Settlement.Matching.Loop.{IsReady, Matched, match_market-Safe}
use zk_clob.Settlement.Matching.Markets.{SettledBooks, match_and_settle-Safe}
use zk_clob.Settlement.Validation.{
  validate_deposits, validate_forced_withdrawals, validate_orders, validate_withdrawals,
}
use zk_clob.Settlement.Validation.Accounts.{validate_accounts}
use zk_clob.Settlement.Validation.Accounts.Ledger.{validate_accounts_iff}
use zk_clob.Settlement.Validation.Books.{build_validated_books}
use zk_clob.Settlement.Validation.Books.Complete.{AreComplete, build_validated_books-Safe}
use zk_clob.Settlement.Validation.Config.{validate_config}
use zk_clob.Settlement.Validation.Config.Valid.{IsValidConfig, AreAssets, validate_config-Safe}
use zk_clob.Settlement.Validation.Cursors.{
  DepositsTo, RequestsFit, validate_deposits_iff, validate_forced_withdrawals_iff,
}
use zk_clob.Settlement.Validation.Operations.{
  AreValidOrders, IsValidWithdrawal, validate_orders-Safe, validate_withdrawals-Safe,
}
use zk_clob.Settlement.Steps.{IsIndexedBatch}
use zk_clob.Settlement.Nonces.Replay.{IsReplayFree, validate_nonces-IsReplayFree}
use zk_clob.Settlement.Assets.{AssetTracker, subtract_accounts}
use zk_clob.Settlement.Assets.Amounts.{amount_of, IsTracker}
use zk_clob.Settlement.Assets.Check.{subtract_accounts_iff}
use zk_clob.Settlement.Conservation.{
  IsBaseline, settle_unchecked, baseline-IsBaseline, settle_unchecked-eq,
}
use zk_clob.Settlement.Balances.Ledger.{total}
use zk_clob.Types.Ids.{AssetId}
use zk_clob.Settlement.{baseline}
use zk_clob.Settlement.Nonces.{validate_nonces}
use zk_clob.Settlement.Outcome.{IsOutcome, settle_batch-Safe}
use zk_clob.Tests.Fixture.{
  toy_crypto, holding, account, accounts, config, orders, books, batch, live_batch, buys, sells,
  market, base_asset, matched_book, order, witness,
}

accounts_accepted : validate_accounts accounts ≡ ok tt
unfolding validate_accounts
accounts_accepted = refl

pub accounts-IsLedger : IsLedger accounts
accounts-IsLedger = (validate_accounts_iff accounts).0 accounts_accepted

pub batch_indexed : IsIndexedBatch live_batch
batch_indexed = record {
  deposits = ((1, refl), ((1, refl), tt));
  orders = ((1, refl), ((2, refl), ((2, refl), ((2, refl), tt))));
  withdrawals = ((1, refl), tt);
}

assets_positive : AreAssets none config.assets
assets_positive = (omega arith, tt, (omega arith, omega arith, tt))

buys-IsReady : All (IsReady 3) buys
buys-IsReady = (((1, refl, omega arith), omega arith), tt)

sells-IsReady : All (IsReady 3) sells
sells-IsReady = (
  ((2, refl, omega arith), omega arith),
  (((2, refl, omega arith), omega arith), (((2, refl, omega arith), omega arith), tt)),
)

orders-IsIndexed : All (IsIndexed 3) orders
orders-IsIndexed = (
  (1, refl, omega arith),
  ((2, refl, omega arith), ((2, refl, omega arith), ((2, refl, omega arith), tt))),
)

seller-IsCanonical : IsCanonical (holding 1 50 ∷ holding 2 5 ∷ [])
seller-IsCanonical = (omega arith, omega arith, (omega arith, tt, tt))

settle_batch-Safe_example :
    Safe (IsOutcome toy_crypto live_batch) (settle_batch toy_crypto live_batch)
settle_batch-Safe_example =
    settle_batch-Safe toy_crypto live_batch (omega arith) (omega arith) batch_indexed

match_market-Safe_example :
    Safe
      (Matched market base_asset config.fees 0 accounts buys sells 0 0)
      (match_market market base_asset config.fees 0 accounts buys sells)
match_market-Safe_example =
    match_market-Safe market base_asset config.fees 0 (omega arith) accounts buys sells
      accounts-IsLedger (omega arith) buys-IsReady sells-IsReady

market_listed : market_of config 4 ≡ some market
unfolding market_of
market_listed = refl

match_and_settle-Safe_example :
    Safe
      (SettledBooks config accounts (matched_book ∷ []))
      (match_and_settle accounts (matched_book ∷ []) config)
match_and_settle-Safe_example =
    match_and_settle-Safe accounts (matched_book ∷ []) config accounts-IsLedger (
      record {
        scale = omega arith;
        listed = market_listed;
        buys = (((1, refl, refl), omega arith), tt);
        sells = (
          ((2, refl, refl), omega arith),
          (((2, refl, refl), omega arith), (((2, refl, refl), omega arith), tt)),
        );
      },
      tt,
    )

build_validated_books-Safe_example :
    Safe (AreComplete orders config books) (build_validated_books orders books config)
build_validated_books-Safe_example = build_validated_books-Safe orders books config

apply_forced_withdrawals-Succeeds_example :
    Succeeds
      (Executes accounts batch.forced_withdrawals)
      (apply_forced_withdrawals accounts batch.forced_withdrawals)
apply_forced_withdrawals-Succeeds_example =
    apply_forced_withdrawals-Succeeds accounts batch.forced_withdrawals accounts-IsLedger

settle_trade-Safe_example :
    Safe
      (λ r.
        IsShifted no_flow no_flow accounts r.0
        × IsTradeOf market base_asset config.fees 0
            (order 5 1 Side.buy 30 40 0 1)
            (order 7 2 Side.sell 20 25 2 2)
            25
            30
            r.1)
      (settle_trade market base_asset config.fees 0 accounts
        (order 5 1 Side.buy 30 40 0 1)
        (order 7 2 Side.sell 20 25 2 2)
        25
        30)
settle_trade-Safe_example =
    settle_trade-Safe market base_asset config.fees 0 accounts (order 5 1 Side.buy 30 40 0 1)
      (order 7 2 Side.sell 20 25 2 2) 25 30 accounts-IsLedger (1, refl, omega arith)
      (2, refl, omega arith) (omega arith) (omega arith)

apply_deposits-Safe_example :
    Safe (IsGrown accounts batch.deposits) (apply_deposits accounts batch.deposits)
apply_deposits-Safe_example =
    apply_deposits-Safe accounts batch.deposits accounts-IsLedger batch_indexed.deposits

consume_nonces-IsAdvanced_example :
    Safe
      (IsAdvanced (λ i. order_uses i orders + withdrawal_uses i batch.withdrawals) accounts)
      (consume_nonces accounts orders batch.withdrawals)
consume_nonces-IsAdvanced_example =
    consume_nonces-IsAdvanced accounts orders batch.withdrawals accounts-IsLedger orders-IsIndexed
      ((1, refl, omega arith), tt)

validate_accounts_iff_example : (validate_accounts accounts ≡ ok tt) ↔ IsLedger accounts
validate_accounts_iff_example = validate_accounts_iff accounts

validate_deposits_iff_example :
    (validate_deposits batch.deposits 11 config ≡ ok 13) ↔ DepositsTo config 11 batch.deposits 13
validate_deposits_iff_example = validate_deposits_iff config 11 batch.deposits 13 (omega arith)

validate_forced_withdrawals_iff_example :
    (validate_forced_withdrawals batch.forced_withdrawals 20 ≡ ok tt)
    ↔ RequestsFit 20 batch.forced_withdrawals
validate_forced_withdrawals_iff_example =
    validate_forced_withdrawals_iff 20 batch.forced_withdrawals (omega arith)

validate_orders-Safe_example :
    Safe
      (λ _.
        AreValidOrders toy_crypto accounts config
          (signing_domain_hash toy_crypto batch.domain)
          orders)
      (validate_orders toy_crypto orders accounts config
        (signing_domain_hash toy_crypto batch.domain))
validate_orders-Safe_example =
    validate_orders-Safe toy_crypto accounts config (signing_domain_hash toy_crypto batch.domain)
      orders batch_indexed.orders

validate_withdrawals-Safe_example :
    Safe
      (λ _.
        All
          (IsValidWithdrawal toy_crypto accounts config
            (signing_domain_hash toy_crypto batch.domain))
          batch.withdrawals)
      (validate_withdrawals toy_crypto batch.withdrawals accounts config
        (signing_domain_hash toy_crypto batch.domain))
validate_withdrawals-Safe_example =
    validate_withdrawals-Safe toy_crypto accounts config
      (signing_domain_hash toy_crypto batch.domain) batch.withdrawals ((1, refl), tt)

apply_withdrawals-Safe_example :
    Safe
      (IsShifted no_flow (λ asset. withdrawn asset batch.withdrawals) accounts)
      (apply_withdrawals accounts batch.withdrawals)
apply_withdrawals-Safe_example =
    apply_withdrawals-Safe accounts batch.withdrawals accounts-IsLedger ((1, refl, omega arith), tt)

debit_result_example :
    DebitResult
      (account 7 (holding 1 50 ∷ holding 2 5 ∷ []) 2)
      2
      5
      (debit (account 7 (holding 1 50 ∷ holding 2 5 ∷ []) 2) 2 5)
debit_result_example =
    debit_result (account 7 (holding 1 50 ∷ holding 2 5 ∷ []) 2) 2 5 seller-IsCanonical

credit_result_example :
    CreditResult
      (account 7 (holding 1 50 ∷ holding 2 5 ∷ []) 2)
      3
      8
      (credit (account 7 (holding 1 50 ∷ holding 2 5 ∷ []) 2) 3 8)
credit_result_example =
    credit_result (account 7 (holding 1 50 ∷ holding 2 5 ∷ []) 2) 3 8 seller-IsCanonical

validate_config-Safe_example :
    Safe (λ _. IsValidConfig config accounts) (validate_config config accounts)
validate_config-Safe_example = validate_config-Safe config accounts

compute_root_from_proof-Safe_example : Safe Any (
    compute_root_from_proof toy_crypto account_id_bits
      (account_leaf toy_crypto)
      accounts
      witness.multiproof)
compute_root_from_proof-Safe_example =
    compute_root_from_proof-Safe toy_crypto account_id_bits (account_leaf toy_crypto) accounts
      witness.multiproof

abbrev tracker : AssetTracker
tracker = (1, 51) ∷ (2, 10_105) ∷ []

tracker-IsBaseline : IsBaseline accounts batch.deposits batch.withdrawals tracker
tracker-IsBaseline =
    ((omega arith, ((λ e. omega (arith, e)), tt), (omega arith, tt, tt)), λ a. ground arith)

validate_nonces-IsReplayFree_example :
    Safe
      (λ _. IsReplayFree accounts orders batch.withdrawals)
      (validate_nonces orders batch.withdrawals accounts)
validate_nonces-IsReplayFree_example =
    validate_nonces-IsReplayFree accounts orders batch.withdrawals orders-IsIndexed
      ((1, refl, omega arith), tt)

baseline-IsBaseline_example :
    Safe
      (IsBaseline accounts batch.deposits batch.withdrawals)
      (baseline accounts batch.deposits batch.withdrawals)
baseline-IsBaseline_example =
    baseline-IsBaseline accounts batch.deposits batch.withdrawals accounts-IsLedger
      (omega arith, (omega arith, tt))

settle_unchecked-eq_example :
    settle_operations toy_crypto live_batch tracker ≡ settle_unchecked toy_crypto live_batch tracker
settle_unchecked-eq_example =
    settle_unchecked-eq toy_crypto live_batch tracker tracker-IsBaseline accounts-IsLedger
      assets_positive (omega arith) batch_indexed

abbrev tracked : AssetTracker
tracked = (2, 10_005) ∷ (1, 50) ∷ []

tracked-IsTracker : IsTracker tracked
tracked-IsTracker = (omega arith, ((λ e. omega (arith, e)), tt), (omega arith, tt, tt))

subtract_accounts_iff_example :
    (subtract_accounts tracked accounts ≡ ok [])
    ↔ ((a : AssetId) → amount_of a tracked ≡ total a accounts)
subtract_accounts_iff_example = subtract_accounts_iff tracked accounts tracked-IsTracker

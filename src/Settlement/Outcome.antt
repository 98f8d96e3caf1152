-- ===== src/Settlement/Outcome.antt =====
-- `settle_batch` as a whole.
use zk_clob.Prelude.{ℕ, ◌<◌, ◌≡◌, ap, false, not, List, [], u64_mod, ◌==◌, arith}
use zk_clob.Types.Ids.{B256, account_id_bits}
use zk_clob.Types.Account.{Account}
use zk_clob.Types.Batch.{BatchInput, BatchOutput}
use zk_clob.Types.Errors.{ok, old_state_root_mismatch}
use zk_clob.Types.Results.{Safe, Safe-bind, Safe-eq, Any, fail_if-Safe}
use zk_clob.Hashing.{Crypto}
use zk_clob.State.{account_leaf, witness_root}
use zk_clob.Trees.Patricia.Safety.{compute_root_from_proof-Safe}
use zk_clob.Settlement.{Settled, with_accounts, baseline, build_output, settle_batch}
use zk_clob.Settlement.Assets.Safety.{add_accounts-Any, add_deposits-Any, subtract_withdrawals-Any}
use zk_clob.Settlement.Balances.Ledger.{IsLedger}
use zk_clob.Settlement.Validation.Limits.{IsWithinLimits, validate_limits-Safe}
use zk_clob.Settlement.Validation.Cursors.{DepositsTo, validate_deposits-Safe}
use zk_clob.Settlement.Validation.Config.Valid.{IsValidConfig, validate_config-Safe}
use zk_clob.Settlement.Validation.Accounts.Ledger.{validate_accounts-Safe}
use zk_clob.Settlement.Steps.{IsIndexedBatch, IsSettled}
use zk_clob.Settlement.Settles.{settle_operations-Safe}

module _ (c : Crypto) (input : BatchInput) where
  -- An accepted batch, and its output.
  pub record IsOutcome (out : BatchOutput) : Type 0 where
    pub limits : IsWithinLimits input
    pub config : IsValidConfig input.config input.state.accounts
    pub ledger : IsLedger input.state.accounts
    -- The witness proves the accounts under the expected root.
    pub old_root : witness_root c input.state ≡ ok input.expected_old_state_root
    pub settled : Settled
    pub settlement : IsSettled c input settled
    pub new_root : B256
    pub new_root_is : witness_root c (with_accounts input.state settled.accounts) ≡ ok new_root
    pub new_cursor : ℕ
    pub deposits : DepositsTo input.config input.old_deposit_cursor input.deposits new_cursor
    pub output_is :
        out ≡ build_output c input input.expected_old_state_root new_root new_cursor settled

  witness_root-Any : (xs : List Account) → Safe Any (witness_root c (with_accounts input.state xs))
  unfolding witness_root
  witness_root-Any xs =
      compute_root_from_proof-Safe c account_id_bits (account_leaf c) xs input.state.multiproof

  witness_root-Safe :
      (xs : List Account)
      → Safe
          (λ r. witness_root c (with_accounts input.state xs) ≡ ok r)
          (witness_root c (with_accounts input.state xs))
  witness_root-Safe xs =
      Safe-eq (witness_root c (with_accounts input.state xs)) (witness_root-Any xs)

  baseline-Any : Safe Any (baseline input.state.accounts input.deposits input.withdrawals)
  baseline-Any = Safe-bind Any Any _ _ (add_accounts-Any [] input.state.accounts) (λ t _.
      Safe-bind Any Any _ _ (add_deposits-Any t input.deposits)
        (λ t' _. subtract_withdrawals-Any t' input.withdrawals))

  -- On 64-bit cursors, and with the account indices there, `settle_batch` never panics, whatever it
  -- is given. What it accepts is within the limits, on a valid configuration and a ledger that the
  -- witness proves under the expected root; it is settled, and the output is built from the settled
  -- batch, the root of the witness with the accounts written, and the cursor after the deposits.
  pub settle_batch-Safe :
      input.old_deposit_cursor < u64_mod
      → input.old_forced_withdrawal_cursor < u64_mod
      → IsIndexedBatch input
      → Safe IsOutcome (settle_batch c input)
  unfolding settle_batch
  settle_batch-Safe dc fc indexed =
      Safe-bind (λ _. IsWithinLimits input) IsOutcome _ _ (validate_limits-Safe input)
        (λ _ l.
          Safe-bind (λ _. IsValidConfig input.config input.state.accounts) IsOutcome _ _
            (validate_config-Safe input.config input.state.accounts)
            (λ _ v.
              Safe-bind (λ _. IsLedger input.state.accounts) IsOutcome _ _
                (validate_accounts-Safe input.state.accounts)
                (λ _ g.
                  Safe-bind (DepositsTo input.config input.old_deposit_cursor input.deposits)
                    IsOutcome _ _
                    (validate_deposits-Safe input.config input.old_deposit_cursor input.deposits dc)
                    (λ next d.
                      Safe-bind (λ r. witness_root c input.state ≡ ok r) IsOutcome _ _
                        (witness_root-Safe input.state.accounts)
                        (λ r er.
                          Safe-bind (λ _. not (r == input.expected_old_state_root) ≡ false)
                            IsOutcome _ _
                            (fail_if-Safe (not (r == input.expected_old_state_root))
                              old_state_root_mismatch)
                            (λ _ er'. Safe-bind Any IsOutcome _ _ baseline-Any (λ t _.
                              Safe-bind (IsSettled c input) IsOutcome _ _
                                (settle_operations-Safe c input t g v.assets fc indexed)
                                (λ s hs.
                                  Safe-bind
                                    (λ n.
                                      witness_root c (with_accounts input.state s.accounts) ≡ ok n)
                                    IsOutcome _ _ (witness_root-Safe s.accounts)
                                    (λ n en.
                                      let same : r ≡ input.expected_old_state_root = ground arith in
                                      record {
                                        limits = l;
                                        config = v;
                                        ledger = g;
                                        old_root = rw same at er;
                                        settled = s;
                                        settlement = hs;
                                        new_root = n;
                                        new_root_is = en;
                                        new_cursor = next;
                                        deposits = d;
                                        output_is = ap (λ x. build_output c input x n next s) same;
                                      })))))))))

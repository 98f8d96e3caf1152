-- ===== src/Tests/Runs.antt =====
-- Evaluations of the model.
use zk_clob.Types.Errors.{Result}
use zk_clob.Settlement.{settle_batch}
use zk_clob.Types.Batch.{BatchOutput}
use zk_clob.Tests.Fixture.{toy_crypto, batch, witness_root_of_accounts}

root_run : Result BatchOutput
unfolding settle_batch
root_run =
    settle_batch toy_crypto (record batch { expected_old_state_root = witness_root_of_accounts })

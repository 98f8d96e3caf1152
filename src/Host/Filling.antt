-- ===== src/Host/Filling.antt =====
-- A builder that is filled: the calls of `deposit`, `forced_withdraw`, `order` and `withdraw` that
-- succeed, in any order and number, from a new builder.
use zk_clob.Prelude.{ℕ, ◌≡◌}
use zk_clob.Types.Operations.{Deposit, ForcedWithdrawal, SignedWithdrawal}
use zk_clob.Types.Order.{SequencedOrder}
use zk_clob.Types.Config.{ExchangeConfig}
use zk_clob.Types.Batch.{SigningDomain}
use zk_clob.Hashing.{Crypto}
use zk_clob.Host.Errors.{HostResult, give, Gives}
use zk_clob.Host.Tree.{AccountTree}
use zk_clob.Host.Batches.{
  BatchBuilder, batch_builder, add_deposit, add_forced_withdrawal, add_order, add_withdrawal,
}
use zk_clob.Host.Build.{build_batch}
use zk_clob.Host.Ranks.{IsBuilder}
use zk_clob.Host.Builder.{
  batch_builder-IsBuilder, add_deposit-IsBuilder, add_forced_withdrawal-IsBuilder,
  add_order-IsBuilder, add_withdrawal-IsBuilder,
}
use zk_clob.Host.Ranked.{IsBuilt, build_batch-IsBuilt}

pub data Addition (b : BatchBuilder) : BatchBuilder → Type 0 where
  deposit : (d : Deposit) {b' : BatchBuilder} → add_deposit b d ≡ give b' → Addition b b'
  forced_withdraw :
      (w : ForcedWithdrawal) {b' : BatchBuilder}
      → add_forced_withdrawal b w ≡ give b'
      → Addition b b'
  order : (o : SequencedOrder) {b' : BatchBuilder} → add_order b o ≡ give b' → Addition b b'
  withdraw :
      (w : SignedWithdrawal) {b' : BatchBuilder} → add_withdrawal b w ≡ give b' → Addition b b'

-- The builders reached from one.
pub data Filled (start : BatchBuilder) : BatchBuilder → Type 0 where
  fresh : Filled start start
  later : {b b' : BatchBuilder} → Filled start b → Addition b b' → Filled start b'

Gives_at : {A : Type 0} (P : A → Type 0) (r : HostResult A) (a : A) → Gives P r → r ≡ give a → P a
Gives_at P r a h e = rw e at h

Addition-IsBuilder : {b b' : BatchBuilder} → IsBuilder b → Addition b b' → IsBuilder b'
Addition-IsBuilder {b = b} {b' = b'} h (Addition.deposit d e) =
    Gives_at IsBuilder (add_deposit b d) b' (add_deposit-IsBuilder b d h) e
Addition-IsBuilder {b = b} {b' = b'} h (Addition.forced_withdraw w e) =
    Gives_at IsBuilder (add_forced_withdrawal b w) b' (add_forced_withdrawal-IsBuilder b w h) e
Addition-IsBuilder {b = b} {b' = b'} h (Addition.order o e) =
    Gives_at IsBuilder (add_order b o) b' (add_order-IsBuilder b o h) e
Addition-IsBuilder {b = b} {b' = b'} h (Addition.withdraw w e) =
    Gives_at IsBuilder (add_withdrawal b w) b' (add_withdrawal-IsBuilder b w h) e

Filled-IsBuilder : {start b : BatchBuilder} → IsBuilder start → Filled start b → IsBuilder b
Filled-IsBuilder h Filled.fresh = h
Filled-IsBuilder h (Filled.later f a) = Addition-IsBuilder (Filled-IsBuilder h f) a

-- Whatever operations are added to a new builder, in any order, `build` does not crash: the lookup
-- of an operation's account and the root of the state never fail. Where it returns a batch, the
-- batch has the root of the builder's state, and its operations are the builder's, in their order,
-- each with the position of its account among the touched accounts.
pub build-Filled-IsBuilt :
    (c : Crypto) (state : AccountTree) (config : ExchangeConfig) (domain : SigningDomain)
    (batch_id deposit_cursor forced_withdrawal_cursor : ℕ) {b : BatchBuilder}
    → Filled (batch_builder state config domain batch_id deposit_cursor forced_withdrawal_cursor) b
    → Gives (IsBuilt c b) (build_batch c b)
build-Filled-IsBuilt c state config domain id deposits requests {b = b} f =
    build_batch-IsBuilt c b
      (Filled-IsBuilder (batch_builder-IsBuilder state config domain id deposits requests) f)

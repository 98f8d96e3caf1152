-- ===== src/Settlement/Steps.antt =====
-- The conditions between the steps of `settle_batch`, settlement/mod.rs, and what they add up to.
use zk_clob.Prelude.{ℕ, zero, suc, ◌+◌, ◌≡◌, refl, ◌∙◌, List, [], ◌∷◌, length, All, All-imp, arith}
use zk_clob.Types.Ids.{AccountId, AssetId}
use zk_clob.Types.Account.{Account}
use zk_clob.Types.Operations.{ForcedWithdrawal, SignedWithdrawal, Trade}
use zk_clob.Types.Order.{SequencedOrder}
use zk_clob.Types.Batch.{BatchInput}
use zk_clob.Hashing.{Crypto, signing_domain_hash}
use zk_clob.Settlement.{Settled}
use zk_clob.Settlement.Balances.Ledger.{
  total, ids, Keeps, Keeps-trans, Keeps-of_ids, IsLedger, nonces,
}
use zk_clob.Settlement.Balances.Owned.{owned}
use zk_clob.Settlement.Balances.Deposits.{deposited, deposited_to, IsGrown, HasIndex}
use zk_clob.Settlement.Balances.Forced.{drained, drained_from, Executes}
use zk_clob.Settlement.Balances.Withdrawals.{
  LeadsTo, IsSigners, withdrawn, withdrawn_from, IsWithdrawn,
}
use zk_clob.Settlement.Nonces.Replay.{IsReplayFree}
use zk_clob.Settlement.Nonces.Consume.{nonce_at, order_uses, withdrawal_uses, IsAdvanced}
use zk_clob.Settlement.Matching.{ValidatedMarketBook}
use zk_clob.Settlement.Matching.Trades.{IsIndexed}
use zk_clob.Settlement.Matching.Loop.{IsReady}
use zk_clob.Settlement.Matching.Parties.{IsSigned, received, paid}
use zk_clob.Settlement.Matching.Markets.{AreTrades, SettledBooks}
use zk_clob.Settlement.Validation.Cursors.{RequestsFit}
use zk_clob.Settlement.Validation.Operations.{
  Carries, AreValidOrders, IsValidWithdrawal, IsReady-of_IsValidOrder, IsSigned-of_IsValidOrder,
  IsSigners-of_IsValidWithdrawal, LeadsTo-of_IsValidWithdrawal,
}
use zk_clob.Settlement.Validation.Books.Complete.{AreComplete}

-- What a decoded batch may leave out, and the source expects: the account indices.
pub record IsIndexedBatch (input : BatchInput) : Type 0 where
  pub deposits : All HasIndex input.deposits
  pub orders : All (λ (o : SequencedOrder). Carries o.account_index) input.orders
  pub withdrawals : All (λ (w : SignedWithdrawal). Carries w.account_index) input.withdrawals

-- The same nonces in the same places.
nonce_at_of_nonces :
    (xs ys : List Account) (i : ℕ) → nonces ys ≡ nonces xs → nonce_at ys i ≡ nonce_at xs i
nonce_at_of_nonces [] [] i e = refl
nonce_at_of_nonces [] (y ∷ ys) i e = absurd (cc)
nonce_at_of_nonces (x ∷ xs) [] i e = absurd (cc)
nonce_at_of_nonces (x ∷ xs) (y ∷ ys) zero e = cc
nonce_at_of_nonces (x ∷ xs) (y ∷ ys) (suc i) e = nonce_at_of_nonces xs ys i (cc)

module _ (c : Crypto) (input : BatchInput) where
  -- The balances before matching: deposits, forced withdrawals, withdrawals and nonces.
  pub record IsPrepared (drained_accounts ys : List Account) : Type 0 where
    pub ledger : IsLedger ys
    pub orders :
        AreValidOrders c drained_accounts input.config
          (signing_domain_hash c input.domain)
          input.orders
    pub withdrawals :
        All
          (IsValidWithdrawal c drained_accounts input.config (signing_domain_hash c input.domain))
          input.withdrawals
    pub replay_free : IsReplayFree drained_accounts input.orders input.withdrawals
    pub ready : All (IsSigned (ids ys)) input.orders
    pub same_ids : ids ys ≡ ids drained_accounts
    pub conserved :
        (asset : AssetId)
        → total asset ys + withdrawn asset input.withdrawals ≡ total asset drained_accounts
    pub debited :
        (id : AccountId) (asset : AssetId)
        → owned id asset ys + withdrawn_from id asset input.withdrawals
          ≡ owned id asset drained_accounts
    pub advanced :
        (i : ℕ)
        → nonce_at ys i
          ≡ nonce_at drained_accounts i
            + (order_uses i input.orders + withdrawal_uses i input.withdrawals)

  -- A settled batch. The ledger `deposited_accounts` is the one before with the deposits in it, and
  -- `drained_accounts` what the forced withdrawals, each given what it is due, leave of it. Orders
  -- and withdrawals are valid against the latter.
  pub record IsSettled (s : Settled) : Type 0 where
    pub deposited_accounts : List Account
    pub deposits : IsGrown input.state.accounts input.deposits deposited_accounts
    pub requests : RequestsFit input.old_forced_withdrawal_cursor input.forced_withdrawals
    pub drained_accounts : List Account
    pub executed :
        Executes deposited_accounts input.forced_withdrawals
          (drained_accounts, s.forced_withdrawals)
    pub orders :
        AreValidOrders c drained_accounts input.config
          (signing_domain_hash c input.domain)
          input.orders
    pub withdrawals :
        All
          (IsValidWithdrawal c drained_accounts input.config (signing_domain_hash c input.domain))
          input.withdrawals
    pub books : List ValidatedMarketBook
    pub complete : AreComplete input.orders input.config input.order_books books
    pub recipient_index : ℕ
    pub trades : AreTrades input.config.fees recipient_index books s.trades
    pub ledger : IsLedger s.accounts
    -- No account is lost.
    pub kept : Keeps input.state.accounts s.accounts
    -- Value is conserved, asset by asset.
    pub conserved :
        (asset : AssetId)
        → total asset s.accounts
            + withdrawn asset input.withdrawals
            + drained asset s.forced_withdrawals
          ≡ total asset input.state.accounts + deposited asset input.deposits
    -- Every account's balance in every asset follows from the deposits into it, its withdrawals, what
    -- was drained from it, and its part in the trades.
    pub balances :
        (id : AccountId) (asset : AssetId)
        → owned id asset s.accounts
            + withdrawn_from id asset input.withdrawals
            + drained_from id asset s.forced_withdrawals
            + paid input.config s.trades id asset
          ≡ owned id asset input.state.accounts
            + deposited_to id asset input.deposits
            + received input.config s.trades id asset
    pub replay_free : IsReplayFree drained_accounts input.orders input.withdrawals
    -- Every account's nonce has grown by the number of its operations.
    pub advanced :
        (i : ℕ)
        → nonce_at s.accounts i
          ≡ nonce_at drained_accounts i
            + (order_uses i input.orders + withdrawal_uses i input.withdrawals)

  module _ (d xs : List Account) (executed : List ForcedWithdrawal)
      (grown : IsGrown input.state.accounts input.deposits d)
      (requests : RequestsFit input.old_forced_withdrawal_cursor input.forced_withdrawals)
      (drain : Executes d input.forced_withdrawals (xs, executed)) where
    pub IsSettled-of_parts :
        (ys : List Account) (bs : List ValidatedMarketBook) (r : List Account × List Trade)
        → IsPrepared xs ys
        → AreComplete input.orders input.config input.order_books bs
        → SettledBooks input.config ys bs r
        → IsSettled (record { accounts = r.0; trades = r.1; forced_withdrawals = executed })
    IsSettled-of_parts ys bs r p b t = record {
      deposited_accounts = d;
      deposits = grown;
      requests = requests;
      drained_accounts = xs;
      executed = drain;
      orders = p.orders;
      withdrawals = p.withdrawals;
      books = bs;
      complete = b;
      replay_free = p.replay_free;
      recipient_index = t.2.0;
      trades = t.2.2;
      ledger = t.0.ledger;
      kept =
          Keeps-trans input.state.accounts d r.0 grown.kept
            (Keeps-of_ids d r.0 (t.0.same_ids ∙ p.same_ids ∙ drain.shifted.same_ids));
      conserved = λ asset.
          omega (
            arith,
            grown.grown asset,
            drain.shifted.moved asset,
            p.conserved asset,
            t.0.moved asset,
          );
      balances = λ id asset. omega (
        arith,
        grown.credited id asset,
        drain.debited.posts id asset,
        p.debited id asset,
        t.1.posts id asset,
      );
      advanced = λ i. omega (arith, p.advanced i, nonce_at_of_nonces ys r.0 i t.0.same_nonces);
    }

  abbrev pub ValidOrders : List Account → Type 0
  ValidOrders xs =
      AreValidOrders c xs input.config (signing_domain_hash c input.domain) input.orders

  abbrev pub ValidWithdrawals : List Account → Type 0
  ValidWithdrawals xs =
      All (IsValidWithdrawal c xs input.config (signing_domain_hash c input.domain))
        input.withdrawals

  module _ (xs : List Account) (vo : ValidOrders xs) (vw : ValidWithdrawals xs) where
    orders-IsReady : All (IsReady (length xs)) input.orders
    orders-IsReady =
        All-imp
          (λ o v.
            IsReady-of_IsValidOrder c xs input.config (signing_domain_hash c input.domain) o v)
          input.orders vo.each

    orders-IsSigned : All (IsSigned (ids xs)) input.orders
    orders-IsSigned =
        All-imp
          (λ o v.
            IsSigned-of_IsValidOrder c xs input.config (signing_domain_hash c input.domain) o v)
          input.orders vo.each

    pub withdrawals-IsSigners : All (IsSigners (ids xs)) input.withdrawals
    withdrawals-IsSigners =
        All-imp
          (λ w v.
            IsSigners-of_IsValidWithdrawal c xs input.config (signing_domain_hash c input.domain) w
              v)
          input.withdrawals vw

    pub orders-IsIndexed : (n : ℕ) → n ≡ length xs → All (IsIndexed n) input.orders
    orders-IsIndexed n e = rw e (
        All-imp (λ (o : SequencedOrder) (r : IsReady (length xs) o). r.0) input.orders
          orders-IsReady)

    pub withdrawals-LeadsTo : (n : ℕ) → n ≡ length xs → All (LeadsTo n) input.withdrawals
    withdrawals-LeadsTo n e = rw e (
        All-imp
          (λ w v.
            LeadsTo-of_IsValidWithdrawal c xs input.config (signing_domain_hash c input.domain) w v)
          input.withdrawals vw)

    pub IsPrepared-of_parts :
        (ws ys : List Account)
        → IsWithdrawn input.withdrawals xs ws
        → IsAdvanced (λ i. order_uses i input.orders + withdrawal_uses i input.withdrawals) ws ys
        → IsReplayFree xs input.orders input.withdrawals
        → IsPrepared xs ys
    IsPrepared-of_parts ws ys s a f =
        let same : ids ys ≡ ids xs = a.same_ids ∙ s.0.same_ids in
        record {
          ledger = a.ledger;
          orders = vo;
          replay_free = f;
          withdrawals = vw;
          ready = rw same orders-IsSigned;
          same_ids = same;
          conserved = λ asset. omega (arith, s.0.moved asset, a.same_total asset);
          debited = λ id asset. omega (arith, s.1.posts id asset, a.same_owned id asset);
          advanced = λ i. omega (arith, a.advanced i, nonce_at_of_nonces xs ws i s.0.same_nonces);
        }

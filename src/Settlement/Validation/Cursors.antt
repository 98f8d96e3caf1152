-- ===== src/Settlement/Validation/Cursors.antt =====
-- What `validate_deposits` and `validate_forced_withdrawals` let through.
use zk_clob.Prelude.{
  ℕ, ◌+◌, ◌<◌, ◌≡◌, ◌↔◌, refl, Bool, true, false, not, List, [], ◌∷◌, some, length, is_some,
  checked_add_u64, u64_mod, ltb, ◌==◌, inl, inr, Bool-cases, arith,
}
use zk_clob.Types.Operations.{Deposit, ForcedWithdrawal}
use zk_clob.Types.Config.{ExchangeConfig, asset_of}
use zk_clob.Types.Errors.{
  ok, invalid_deposit_cursor, zero_deposit_amount, unknown_asset, deposit_cursor_overflow,
  invalid_forced_withdrawal_cursor, zero_forced_withdrawal_amount,
  forced_withdrawal_cursor_overflow,
}
use zk_clob.Types.Results.{Safe, Safe-bind, Safe-imp, Safe_at, fail_if-Safe, ok_or-Safe}
use zk_clob.Settlement.Validation.{validate_deposits, validate_forced_withdrawals}

-- Deposits numbered from a cursor without a gap, each of some of a known asset.
abbrev pub AreDeposits : ExchangeConfig → ℕ → List Deposit → Type 0
AreDeposits config cursor [] = Unit
AreDeposits config cursor (d ∷ ds) =
    (d.id ≡ cursor)
    × (0 < d.amount)
    × (is_some (asset_of config d.asset) ≡ true)
    × AreDeposits config (cursor + 1) ds

-- Requests numbered from a cursor without a gap, none of them for nothing.
abbrev pub AreRequests : ℕ → List ForcedWithdrawal → Type 0
AreRequests cursor [] = Unit
AreRequests cursor (w ∷ ws) = (w.id ≡ cursor) × (0 < w.amount) × AreRequests (cursor + 1) ws

next_cursor :
    (cursor next : ℕ)
    → checked_add_u64 cursor 1 ≡ some next
    → (next ≡ cursor + 1) × (next < u64_mod)
unfolding checked_add_u64
next_cursor cursor next e = elim (Bool-cases (ltb (cursor + 1) u64_mod)) [
  | inl fits ↦ (ground arith, ground arith)
  | inr over ↦ absurd (ground arith)
]

checked_add_u64_fits :
    (cursor : ℕ) → cursor + 1 < u64_mod → checked_add_u64 cursor 1 ≡ some (cursor + 1)
unfolding checked_add_u64
checked_add_u64_fits cursor lt = ground arith

-- What the deposits from a cursor lead to.
abbrev pub DepositsTo : ExchangeConfig → ℕ → List Deposit → ℕ → Type 0
DepositsTo config cursor ds next =
    AreDeposits config cursor ds × (next ≡ cursor + length ds) × (next < u64_mod)

DepositsTo-cons :
    (config : ExchangeConfig) (cursor : ℕ) (d : Deposit) (ds : List Deposit) (after : ℕ)
    → d.id ≡ cursor
    → 0 < d.amount
    → is_some (asset_of config d.asset) ≡ true
    → DepositsTo config (cursor + 1) ds after
    → DepositsTo config cursor (d ∷ ds) after
DepositsTo-cons config cursor d ds after i a k r = ((i, a, k, r.0), omega (arith, r.1), r.2)

pub validate_deposits-Safe :
    (config : ExchangeConfig) (cursor : ℕ) (ds : List Deposit)
    → cursor < u64_mod
    → Safe (DepositsTo config cursor ds) (validate_deposits ds cursor config)
unfolding validate_deposits
validate_deposits-Safe config cursor [] lt = (tt, omega arith, lt)
validate_deposits-Safe config cursor (d ∷ ds) lt =
    Safe-bind (λ _. not (d.id == cursor) ≡ false) Q _ _
      (fail_if-Safe (not (d.id == cursor)) invalid_deposit_cursor)
      (λ _ i.
        Safe-bind (λ _. (d.amount == 0) ≡ false) Q _ _
          (fail_if-Safe (d.amount == 0) zero_deposit_amount)
          (λ _ a.
            Safe-bind (λ _. not known ≡ false) Q _ _ (fail_if-Safe (not known) unknown_asset)
              (λ _ k.
                Safe-bind (λ next. checked_add_u64 cursor 1 ≡ some next) Q _ _
                  (ok_or-Safe (checked_add_u64 cursor 1) deposit_cursor_overflow)
                  (λ next e.
                    let n : (next ≡ cursor + 1) × (next < u64_mod) = next_cursor cursor next e in
                    Safe-imp (DepositsTo config next ds) Q _
                      (validate_deposits-Safe config next ds n.1)
                      (λ after r.
                        DepositsTo-cons config cursor d ds after (ground arith) (ground arith)
                          (ground arith) (rw n.0 at r))))))
  where
    Q : ℕ → Type 0
    Q = DepositsTo config cursor (d ∷ ds)

    known : Bool
    known = is_some (asset_of config d.asset)

accepts_deposits :
    (config : ExchangeConfig) (cursor : ℕ) (ds : List Deposit)
    → AreDeposits config cursor ds
    → cursor + length ds < u64_mod
    → validate_deposits ds cursor config ≡ ok (cursor + length ds)
unfolding validate_deposits
accepts_deposits config cursor [] h lt = ground arith
accepts_deposits config cursor (d ∷ ds) h lt =
    let same : (d.id == cursor) ≡ true = ground arith in
    let positive : (d.amount == 0) ≡ false = ground arith in
    let shift : cursor + length (d ∷ ds) ≡ cursor + 1 + length ds = omega arith in
    rw (same, positive, h.2, checked_add_u64_fits cursor (omega arith), shift)
      (accepts_deposits config (cursor + 1) ds h.3 (omega arith))

-- From a 64-bit cursor, `validate_deposits` returns exactly the cursor after the deposits, and only
-- where they are numbered from the old cursor without a gap or a repetition, each of some of a
-- known asset, and the cursor still fits 64 bits.
pub validate_deposits_iff :
    (config : ExchangeConfig) (cursor : ℕ) (ds : List Deposit) (next : ℕ)
    → cursor < u64_mod
    → (validate_deposits ds cursor config ≡ ok next) ↔ DepositsTo config cursor ds next
validate_deposits_iff config cursor ds next lt = (
  λ e. Safe_at (DepositsTo config cursor ds) _ next (validate_deposits-Safe config cursor ds lt) e,
  λ h. rw h.1 (accepts_deposits config cursor ds h.0 (rw h.1 at h.2)),
)

abbrev pub RequestsFit : ℕ → List ForcedWithdrawal → Type 0
RequestsFit cursor ws = AreRequests cursor ws × (cursor + length ws < u64_mod)

pub validate_forced_withdrawals-Safe :
    (cursor : ℕ) (ws : List ForcedWithdrawal)
    → cursor < u64_mod
    → Safe (λ _. RequestsFit cursor ws) (validate_forced_withdrawals ws cursor)
unfolding validate_forced_withdrawals
validate_forced_withdrawals-Safe cursor [] lt = (tt, omega arith)
validate_forced_withdrawals-Safe cursor (w ∷ ws) lt =
    Safe-bind (λ _. not (w.id == cursor) ≡ false) Q _ _
      (fail_if-Safe (not (w.id == cursor)) invalid_forced_withdrawal_cursor)
      (λ _ i.
        Safe-bind (λ _. (w.amount == 0) ≡ false) Q _ _
          (fail_if-Safe (w.amount == 0) zero_forced_withdrawal_amount)
          (λ _ a.
            Safe-bind (λ next. checked_add_u64 cursor 1 ≡ some next) Q _ _
              (ok_or-Safe (checked_add_u64 cursor 1) forced_withdrawal_cursor_overflow)
              (λ next e.
                let n : (next ≡ cursor + 1) × (next < u64_mod) = next_cursor cursor next e in
                Safe-imp (λ _. RequestsFit next ws) Q _
                  (validate_forced_withdrawals-Safe next ws n.1)
                  (λ _ r.
                    ((ground arith, ground arith, (rw n.0 at r).0), omega (arith, r.1, n.0))))))
  where
    Q : Unit {0} → Type 0
    Q _ = RequestsFit cursor (w ∷ ws)

accepts_requests :
    (cursor : ℕ) (ws : List ForcedWithdrawal)
    → AreRequests cursor ws
    → cursor + length ws < u64_mod
    → validate_forced_withdrawals ws cursor ≡ ok tt
unfolding validate_forced_withdrawals
accepts_requests cursor [] h lt = refl
accepts_requests cursor (w ∷ ws) h lt =
    let same : (w.id == cursor) ≡ true = ground arith in
    let positive : (w.amount == 0) ≡ false = ground arith in
    rw (same, positive, checked_add_u64_fits cursor (omega arith))
      (accepts_requests (cursor + 1) ws h.2 (omega arith))

-- From a 64-bit cursor, `validate_forced_withdrawals` lets requests through exactly where they are
-- numbered from the cursor without a gap or a repetition, none is for nothing, and the cursor after
-- them fits 64 bits.
pub validate_forced_withdrawals_iff :
    (cursor : ℕ) (ws : List ForcedWithdrawal)
    → cursor < u64_mod
    → (validate_forced_withdrawals ws cursor ≡ ok tt) ↔ RequestsFit cursor ws
validate_forced_withdrawals_iff cursor ws lt = (
  λ e. Safe_at (λ _. RequestsFit cursor ws) _ tt (validate_forced_withdrawals-Safe cursor ws lt) e,
  λ h. accepts_requests cursor ws h.0 h.1,
)

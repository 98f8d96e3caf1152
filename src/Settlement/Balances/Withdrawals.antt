-- ===== src/Settlement/Balances/Withdrawals.antt =====
-- Withdrawals, settlement/withdrawals.rs, on ledgers.
use zk_clob.Prelude.{ℕ, ◌+◌, ◌<◌, ◌≡◌, List, [], ◌∷◌, some, length, All, arith}
use zk_clob.Types.Ids.{AccountId, AssetId}
use zk_clob.Types.Account.{Account}
use zk_clob.Types.Operations.{SignedWithdrawal}
use zk_clob.Types.Results.{Safe, Safe-bind, Safe-imp, Safe-and, Accepts, Accepts-imp}
use zk_clob.Account.Held.{part}
use zk_clob.Settlement.Balances.{apply_withdrawal, apply_withdrawals}
use zk_clob.Settlement.Balances.Ledger.{
  ids, IsLedger, IsShifted, IsShifted-refl, IsShifted-trans, IsShifted-flows, no_flow, flow,
  update_at-debit, length_of_IsShifted,
}
use zk_clob.Settlement.Balances.Owned.{
  posted, no_post, IsLed, IsPosted, IsPosted-refl, IsPosted-flows, IsPosted-bind, update_at-debits,
}

-- A withdrawal leads to an account of a list of `n`.
abbrev pub LeadsTo : ℕ → SignedWithdrawal → Type 0
LeadsTo n w = (i : ℕ) × (w.account_index ≡ some i) × (i < n)

-- The withdrawals of an asset, summed.
abbrev pub withdrawn : AssetId → List SignedWithdrawal → ℕ
withdrawn asset [] = 0
withdrawn asset (w ∷ ws) = part asset w.operation.asset w.operation.amount + withdrawn asset ws

apply_withdrawal-Safe :
    (xs : List Account) (w : SignedWithdrawal)
    → IsLedger xs
    → LeadsTo (length xs) w
    → Safe
        (IsShifted no_flow (flow w.operation.asset w.operation.amount) xs)
        (apply_withdrawal xs w)
unfolding apply_withdrawal
apply_withdrawal-Safe xs w h i =
    simp i.1 (update_at-debit w.operation.asset w.operation.amount xs i.0 h i.2)

-- On a ledger, withdrawals that lead into it never make `apply_withdrawals` panic. What it accepts is
-- a ledger with the same accounts and nonces, and each total has fallen by what is withdrawn.
pub apply_withdrawals-Safe :
    (xs : List Account) (ws : List SignedWithdrawal)
    → IsLedger xs
    → All (LeadsTo (length xs)) ws
    → Safe (IsShifted no_flow (λ asset. withdrawn asset ws) xs) (apply_withdrawals xs ws)
unfolding apply_withdrawals
apply_withdrawals-Safe xs [] h i = IsShifted-refl xs h
apply_withdrawals-Safe xs (w ∷ ws) h i =
    let out : AssetId → ℕ = flow w.operation.asset w.operation.amount in
    Safe-bind (IsShifted no_flow out xs) (IsShifted no_flow (λ a. withdrawn a (w ∷ ws)) xs) _ _
      (apply_withdrawal-Safe xs w h i.0)
      (λ ys s.
        Safe-imp (IsShifted no_flow (λ a. withdrawn a ws) ys) _ _
          (apply_withdrawals-Safe ys ws s.ledger (rw (length_of_IsShifted _ _ xs ys s) i.1))
          (λ zs t.
            IsShifted-flows (λ a. no_flow a + no_flow a) (λ a. out a + withdrawn a ws) no_flow
              (λ a. withdrawn a (w ∷ ws)) xs zs (λ a. omega arith)
              (IsShifted-trans no_flow out no_flow (λ a. withdrawn a ws) xs ys zs s t)))

-- The withdrawals of an asset from one account, summed.
abbrev pub withdrawn_from : AccountId → AssetId → List SignedWithdrawal → ℕ
withdrawn_from id asset [] = 0
withdrawn_from id asset (w ∷ ws) =
    posted w.signer w.operation.asset w.operation.amount id asset + withdrawn_from id asset ws

-- A withdrawal whose index leads to its signer's account.
abbrev pub IsSigners : List AccountId → SignedWithdrawal → Type 0
IsSigners ks w = IsLed ks w.signer w.account_index

apply_withdrawal-Posts :
    (xs : List Account) (w : SignedWithdrawal)
    → IsLedger xs
    → IsSigners (ids xs) w
    → Accepts
        (IsPosted no_post (posted w.signer w.operation.asset w.operation.amount) xs)
        (apply_withdrawal xs w)
unfolding apply_withdrawal
apply_withdrawal-Posts xs w h l =
    simp l.1 (update_at-debits w.operation.asset w.operation.amount w.signer xs l.0 h l.2)

apply_withdrawals-Posts :
    (xs : List Account) (ws : List SignedWithdrawal)
    → IsLedger xs
    → All (IsSigners (ids xs)) ws
    → Accepts
        (IsPosted no_post (λ id asset. withdrawn_from id asset ws) xs)
        (apply_withdrawals xs ws)
unfolding apply_withdrawals
apply_withdrawals-Posts xs [] h l = IsPosted-refl xs h
apply_withdrawals-Posts xs (w ∷ ws) h l =
    Accepts-imp _ (IsPosted no_post (λ id asset. withdrawn_from id asset (w ∷ ws)) xs) _
      (IsPosted-bind no_post (posted w.signer w.operation.asset w.operation.amount) no_post
        (λ id asset. withdrawn_from id asset ws) xs _ _ (apply_withdrawal-Posts xs w h l.0)
        (λ ys s. apply_withdrawals-Posts ys ws s.ledger (rw s.same_ids l.1)))
      (λ zs t. IsPosted-flows _ _ _ _ xs zs (λ id asset. omega arith) t)

-- The ledger after withdrawals, by totals and by accounts.
abbrev pub IsWithdrawn : List SignedWithdrawal → List Account → List Account → Type 0
IsWithdrawn ws xs ys =
    IsShifted no_flow (λ asset. withdrawn asset ws) xs ys
    × IsPosted no_post (λ id asset. withdrawn_from id asset ws) xs ys

pub apply_withdrawals-IsWithdrawn :
    (xs : List Account) (ws : List SignedWithdrawal)
    → IsLedger xs
    → All (LeadsTo (length xs)) ws
    → All (IsSigners (ids xs)) ws
    → Safe (IsWithdrawn ws xs) (apply_withdrawals xs ws)
apply_withdrawals-IsWithdrawn xs ws h i l =
    Safe-and (IsShifted no_flow (λ asset. withdrawn asset ws) xs)
      (IsPosted no_post (λ id asset. withdrawn_from id asset ws) xs) _
      (apply_withdrawals-Safe xs ws h i) (apply_withdrawals-Posts xs ws h l)

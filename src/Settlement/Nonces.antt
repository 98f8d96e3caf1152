-- ===== src/Settlement/Nonces.antt =====
-- crates/core/src/settlement/nonces.rs, and `validate_nonces` of validation.rs.
pub mod Chunks
pub mod Replay
pub mod Consume
use zk_clob.Prelude.{
  ℕ, zero, suc, ◌+◌, Bool, ◌&&◌, ◌||◌, List, [], ◌∷◌, ◌++◌, Option, none, some, get_elem?, length,
  replicate, sort_unstable, checked_add_u64, ltb, ◌==◌, not, if◌then◌else◌,
}
use zk_clob.Types.Account.{Account}
use zk_clob.Types.Operations.{SignedWithdrawal}
use zk_clob.Types.Order.{SequencedOrder}
use zk_clob.Types.Errors.{
  Result, ok, err, panic, ◌>>=◌, ◌>>◌, fail_if, ok_or, expect, invalid_nonce, nonce_overflow,
}

-- The `(account_index, nonce)` pairs of a batch: the orders' first.
abbrev pub order_nonces : List SequencedOrder → Result (List (ℕ × ℕ))
order_nonces [] = ok []
order_nonces (o ∷ os) = do
  index ← expect o.account_index
  rest ← order_nonces os
  ok ((index, o.operation.nonce) ∷ rest)

abbrev pub withdrawal_nonces : List SignedWithdrawal → Result (List (ℕ × ℕ))
withdrawal_nonces [] = ok []
withdrawal_nonces (w ∷ ws) = do
  index ← expect w.account_index
  rest ← withdrawal_nonces ws
  ok ((index, w.operation.nonce) ∷ rest)

-- The order of pairs.
abbrev pub pair_less : ℕ × ℕ → ℕ × ℕ → Bool
pair_less p q = ltb p.0 q.0 || (p.0 == q.0 && ltb p.1 q.1)

-- `chunk_by(|left, right| left.0 == right.0)`
abbrev pub push_chunk : ℕ × ℕ → List (List (ℕ × ℕ)) → List (List (ℕ × ℕ))
push_chunk p [] = (p ∷ []) ∷ []
push_chunk p ([] ∷ cs) = (p ∷ []) ∷ cs
push_chunk p ((q ∷ c) ∷ cs) = if p.0 == q.0 then (p ∷ q ∷ c) ∷ cs else (p ∷ []) ∷ (q ∷ c) ∷ cs

abbrev pub chunk_by : List (ℕ × ℕ) → List (List (ℕ × ℕ))
chunk_by [] = []
chunk_by (p ∷ ps) = push_chunk p (chunk_by ps)

-- The nonces of one account, from the one expected.
unfoldable pub check_sequence : ℕ → List (ℕ × ℕ) → Result (Unit {0})
check_sequence expected [] = ok tt
check_sequence expected (p ∷ ps) = do
  fail_if (not (p.1 == expected)) invalid_nonce
  next ← ok_or (checked_add_u64 expected 1) nonce_overflow
  check_sequence next ps

unfoldable pub check_chunks : List Account → List (List (ℕ × ℕ)) → Result (Unit {0})
unfolding check_sequence
check_chunks accounts [] = ok tt
check_chunks accounts ([] ∷ cs) = check_chunks accounts cs
check_chunks accounts ((p ∷ c) ∷ cs) = do
  account ← expect (get_elem? accounts p.0)
  check_sequence account.next_nonce (p ∷ c)
  check_chunks accounts cs

unfoldable pub validate_nonces :
    List SequencedOrder → List SignedWithdrawal → List Account → Result (Unit {0})
unfolding check_chunks
validate_nonces orders withdrawals accounts = do
  of_orders ← order_nonces orders
  of_withdrawals ← withdrawal_nonces withdrawals
  check_chunks accounts (chunk_by (sort_unstable pair_less (of_orders ++ of_withdrawals)))

-- `operation_counts[index] = operation_counts[index].checked_add(1)?`
abbrev pub count_at : List ℕ → ℕ → Result (List ℕ)
count_at [] index = panic
count_at (n ∷ ns) zero = do n' ← ok_or (checked_add_u64 n 1) nonce_overflow; ok (n' ∷ ns)
count_at (n ∷ ns) (suc index) = do rest ← count_at ns index; ok (n ∷ rest)

abbrev pub count_orders : List ℕ → List SequencedOrder → Result (List ℕ)
count_orders counts [] = ok counts
count_orders counts (o ∷ os) = do
  index ← expect o.account_index
  counts' ← count_at counts index
  count_orders counts' os

abbrev pub count_withdrawals : List ℕ → List SignedWithdrawal → Result (List ℕ)
count_withdrawals counts [] = ok counts
count_withdrawals counts (w ∷ ws) = do
  index ← expect w.account_index
  counts' ← count_at counts index
  count_withdrawals counts' ws

-- The loop over `accounts.iter_mut().zip(operation_counts)`.
unfoldable pub advance_nonces : List Account → List ℕ → Result (List Account)
advance_nonces [] counts = ok []
advance_nonces (a ∷ as') [] = ok (a ∷ as')
advance_nonces (a ∷ as') (n ∷ ns) = do
  next ← ok_or (checked_add_u64 a.next_nonce n) nonce_overflow
  rest ← advance_nonces as' ns
  ok (record a { next_nonce = next } ∷ rest)

unfoldable pub consume_nonces :
    List Account → List SequencedOrder → List SignedWithdrawal → Result (List Account)
unfolding advance_nonces
consume_nonces accounts orders withdrawals = do
  of_orders ← count_orders (replicate (length accounts) 0) orders
  counts ← count_withdrawals of_orders withdrawals
  advance_nonces accounts counts

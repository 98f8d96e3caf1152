-- ===== src/Settlement/Nonces/Replay.antt =====
-- `validate_nonces` of settlement/validation.rs, and replays.
use zk_clob.Prelude.{
  ℕ, zero, suc, ◌+◌, ◌<◌, ◌≡◌, ◌≢◌, refl, true, false, ◌&&◌, not, List, [], ◌∷◌, ◌++◌, Option, none,
  some, length, All, All-imp, get_elem?, sort_unstable, checked_add_u64, ltb, leb, ◌==◌,
  if◌then◌else◌, inl, inr, Bool-cases, arith,
}
use mathlib.Core.Path.{subst}
use zk_clob.Types.Account.{Account}
use zk_clob.Types.Operations.{SignedWithdrawal}
use zk_clob.Types.Order.{SequencedOrder}
use zk_clob.Types.Errors.{expect, invalid_nonce, nonce_overflow}
use zk_clob.Types.Results.{Safe, Safe-bind, Safe-imp, fail_if-Safe, ok_or-Safe}
use zk_clob.Settlement.Balances.Withdrawals.{LeadsTo}
use zk_clob.Settlement.Matching.Trades.{IsIndexed}
use zk_clob.Settlement.Nonces.{
  order_nonces, withdrawal_nonces, pair_less, chunk_by, check_sequence, check_chunks,
  validate_nonces,
}
use zk_clob.Settlement.Nonces.Consume.{nonce_at, order_uses, withdrawal_uses}
use zk_clob.Settlement.Nonces.Chunks.{
  Pairs, pair_count, key_count, chunks_pair_count, chunks_key_count, pair_count-append,
  key_count-append, pair_count-sort, key_count-sort, pair_count-chunk_by, key_count-chunk_by,
  All-append, All-sort, All-chunk_by, AreGrouped, sort-IsKeySorted, chunk_by-AreGrouped,
}

-- 1 for a number among the `count` ones from `start`.
abbrev pub in_window : (start count n : ℕ) → ℕ
in_window start count n = if leb start n && ltb n (start + count) then 1 else 0

-- 1 for an operation of an account and a nonce.
abbrev pub nonce_use_of : (i n : ℕ) → Option ℕ → ℕ → ℕ
nonce_use_of i n none nonce = 0
nonce_use_of i n (some j) nonce = if j == i && nonce == n then 1 else 0

abbrev pub order_nonce_uses : (i n : ℕ) → List SequencedOrder → ℕ
order_nonce_uses i n [] = 0
order_nonce_uses i n (o ∷ os) =
    nonce_use_of i n o.account_index o.operation.nonce + order_nonce_uses i n os

abbrev pub withdrawal_nonce_uses : (i n : ℕ) → List SignedWithdrawal → ℕ
withdrawal_nonce_uses i n [] = 0
withdrawal_nonce_uses i n (w ∷ ws) =
    nonce_use_of i n w.account_index w.operation.nonce + withdrawal_nonce_uses i n ws

-- The pairs of a list of operations: all within `k`, with the counts of the operations.
record IsPaired (k : ℕ) (uses : (i n : ℕ) → ℕ) (total_uses : ℕ → ℕ) (ps : Pairs) : Type 0 where
  within : All (λ (p : ℕ × ℕ). p.0 < k) ps
  pairs : (i n : ℕ) → pair_count i n ps ≡ uses i n
  keys : (i : ℕ) → key_count i ps ≡ total_uses i

order_nonces-IsPaired :
    (k : ℕ) (os : List SequencedOrder)
    → All (IsIndexed k) os
    → Safe (IsPaired k (λ i n. order_nonce_uses i n os) (λ i. order_uses i os)) (order_nonces os)
order_nonces-IsPaired k [] h = record { within = tt; pairs = λ i n. refl; keys = λ i. refl }
order_nonces-IsPaired k (o ∷ os) h = simp h.0.1 (
    Safe-bind (IsPaired k (λ i n. order_nonce_uses i n os) (λ i. order_uses i os)) _
      (order_nonces os) _ (order_nonces-IsPaired k os h.1)
      (λ ps r. record {
        within = (h.0.2, r.within);
        pairs = λ i n. omega (arith, r.pairs i n);
        keys = λ i. ground (arith, r.keys i);
      }))

withdrawal_nonces-IsPaired :
    (k : ℕ) (ws : List SignedWithdrawal)
    → All (LeadsTo k) ws
    → Safe
        (IsPaired k (λ i n. withdrawal_nonce_uses i n ws) (λ i. withdrawal_uses i ws))
        (withdrawal_nonces ws)
withdrawal_nonces-IsPaired k [] h = record { within = tt; pairs = λ i n. refl; keys = λ i. refl }
withdrawal_nonces-IsPaired k (w ∷ ws) h = simp h.0.1 (
    Safe-bind (IsPaired k (λ i n. withdrawal_nonce_uses i n ws) (λ i. withdrawal_uses i ws)) _
      (withdrawal_nonces ws) _ (withdrawal_nonces-IsPaired k ws h.1)
      (λ ps r. record {
        within = (h.0.2, r.within);
        pairs = λ i n. omega (arith, r.pairs i n);
        keys = λ i. ground (arith, r.keys i);
      }))

-- The nonces of a chunk count up from the expected one.
abbrev InSequence : ℕ → Pairs → Type 0
InSequence e [] = Unit
InSequence e (p ∷ ps) = (p.1 ≡ e) × InSequence (e + 1) ps

next_nonce : (e next : ℕ) → checked_add_u64 e 1 ≡ some next → next ≡ e + 1
unfolding checked_add_u64
next_nonce e next h = ground arith

check_sequence-InSequence : (e : ℕ) (ps : Pairs) → Safe (λ _. InSequence e ps) (check_sequence e ps)
unfolding check_sequence
check_sequence-InSequence e [] = tt
check_sequence-InSequence e (p ∷ ps) =
    Safe-bind (λ _. not (p.1 == e) ≡ false) Q _ _ (fail_if-Safe (not (p.1 == e)) invalid_nonce)
      (λ _ same.
        Safe-bind (λ next. checked_add_u64 e 1 ≡ some next) Q _ _
          (ok_or-Safe (checked_add_u64 e 1) nonce_overflow)
          (λ next h.
            Safe-imp (λ _. InSequence next ps) Q _ (check_sequence-InSequence next ps)
              (λ _ r. (ground arith, rw (next_nonce e next h) at r))))
  where
    Q : Unit {0} → Type 0
    Q _ = InSequence e (p ∷ ps)

-- Each chunk counts up from the next nonce of its account.
abbrev AreSequences : List Account → List Pairs → Type 0
AreSequences xs [] = Unit
AreSequences xs ([] ∷ cs) = AreSequences xs cs
AreSequences xs ((p ∷ c) ∷ cs) = InSequence (nonce_at xs p.0) (p ∷ c) × AreSequences xs cs

expect-get_elem? :
    (xs : List Account) (i : ℕ)
    → i < length xs
    → Safe (λ a. a.next_nonce ≡ nonce_at xs i) (expect (get_elem? xs i))
expect-get_elem? [] i lt = absurd (omega arith)
expect-get_elem? (x ∷ xs) zero lt = refl
expect-get_elem? (x ∷ xs) (suc i) lt = expect-get_elem? xs i (omega arith)

check_chunks-AreSequences :
    (xs : List Account) (cs : List Pairs)
    → All (All (λ (p : ℕ × ℕ). p.0 < length xs)) cs
    → Safe (λ _. AreSequences xs cs) (check_chunks xs cs)
unfolding check_chunks
check_chunks-AreSequences xs [] h = tt
check_chunks-AreSequences xs ([] ∷ cs) h = check_chunks-AreSequences xs cs h.1
check_chunks-AreSequences xs ((p ∷ c) ∷ cs) h =
    Safe-bind (λ (a : Account). a.next_nonce ≡ nonce_at xs p.0) Q _ _
      (expect-get_elem? xs p.0 h.0.0)
      (λ a e.
        Safe-bind (λ _. InSequence a.next_nonce (p ∷ c)) Q _ _
          (check_sequence-InSequence a.next_nonce (p ∷ c))
          (λ _ s.
            Safe-imp (λ _. AreSequences xs cs) Q _ (check_chunks-AreSequences xs cs h.1)
              (λ _ r. (rw e at s, r))))
  where
    Q : Unit {0} → Type 0
    Q _ = AreSequences xs ((p ∷ c) ∷ cs)

-- A chunk in sequence has each nonce of its window once.
own_chunk :
    (i n e : ℕ) (ps : Pairs)
    → All (λ (q : ℕ × ℕ). q.0 ≡ i) ps
    → InSequence e ps
    → pair_count i n ps ≡ in_window e (key_count i ps) n
own_chunk i n e [] k s = ground arith
own_chunk i n e (p ∷ ps) k s =
    let rest : pair_count i n ps ≡ in_window (e + 1) (key_count i ps) n =
      own_chunk i n (e + 1) ps k.1 s.1 in
    let here : (p.0 == i) ≡ true = ground (arith, k.0) in rw (here, s.0, rest) (ground arith)

other_chunk :
    (i n : ℕ) (ps : Pairs)
    → All (λ (q : ℕ × ℕ). q.0 ≢ i) ps
    → (pair_count i n ps ≡ 0) × (key_count i ps ≡ 0)
other_chunk i n [] h = (refl, refl)
other_chunk i n (p ∷ ps) h =
    let rest : (pair_count i n ps ≡ 0) × (key_count i ps ≡ 0) = other_chunk i n ps h.1 in
    let apart : (p.0 == i) ≡ false = ground (arith, h.0) in
    rw apart (omega (arith, rest.0), omega (arith, rest.1))

other_chunks :
    (i n : ℕ) (cs : List Pairs)
    → All (All (λ (q : ℕ × ℕ). q.0 ≢ i)) cs
    → (chunks_pair_count i n cs ≡ 0) × (chunks_key_count i cs ≡ 0)
other_chunks i n [] h = (refl, refl)
other_chunks i n (c ∷ cs) h =
    let first : (pair_count i n c ≡ 0) × (key_count i c ≡ 0) = other_chunk i n c h.0 in
    let rest : (chunks_pair_count i n cs ≡ 0) × (chunks_key_count i cs ≡ 0) =
      other_chunks i n cs h.1 in
    (omega (arith, first.0, rest.0), omega (arith, first.1, rest.1))

chunks_in_window :
    (xs : List Account) (i n : ℕ) (cs : List Pairs)
    → AreGrouped cs
    → AreSequences xs cs
    → chunks_pair_count i n cs ≡ in_window (nonce_at xs i) (chunks_key_count i cs) n
chunks_in_window xs i n [] g s = ground arith
chunks_in_window xs i n ([] ∷ cs) g s = absurd g
chunks_in_window xs i n ((p ∷ c) ∷ cs) g s = elim (Bool-cases (p.0 == i)) [
  | inl same ↦
      let e : p.0 ≡ i = ground arith in
      let own : pair_count i n (p ∷ c) ≡ in_window (nonce_at xs i) (key_count i (p ∷ c)) n =
        own_chunk i n (nonce_at xs i) (p ∷ c)
          (e, All-imp (λ (q : ℕ × ℕ) (k : q.0 ≡ p.0). omega arith) c g.0)
          (subst (λ j. InSequence (nonce_at xs j) (p ∷ c)) e s.0) in
      let others : (chunks_pair_count i n cs ≡ 0) × (chunks_key_count i cs ≡ 0) =
        other_chunks i n cs
          (All-imp (λ d h. All-imp (λ (q : ℕ × ℕ) (k : p.0 < q.0). omega arith) d h) cs g.1) in
      let keys : key_count i (p ∷ c) ≡ chunks_key_count i ((p ∷ c) ∷ cs) =
        omega (arith, others.1) in
      let pairs : chunks_pair_count i n ((p ∷ c) ∷ cs)
          ≡ in_window (nonce_at xs i) (key_count i (p ∷ c)) n =
        omega (arith, own, others.0) in
      subst (λ k. chunks_pair_count i n ((p ∷ c) ∷ cs) ≡ in_window (nonce_at xs i) k n) keys pairs
  | inr apart ↦
      let ne : p.0 ≢ i = ground arith in
      let other : (pair_count i n (p ∷ c) ≡ 0) × (key_count i (p ∷ c) ≡ 0) =
        other_chunk i n (p ∷ c) (ne, All-imp (λ (q : ℕ × ℕ) (k : q.0 ≡ p.0). omega arith) c g.0) in
      let keys : chunks_key_count i cs ≡ chunks_key_count i ((p ∷ c) ∷ cs) =
        omega (arith, other.1) in
      let pairs : chunks_pair_count i n ((p ∷ c) ∷ cs)
          ≡ in_window (nonce_at xs i) (chunks_key_count i cs) n =
        omega (arith, other.0, chunks_in_window xs i n cs g.2 s.1) in
      subst (λ k. chunks_pair_count i n ((p ∷ c) ∷ cs) ≡ in_window (nonce_at xs i) k n) keys pairs
]

-- Each account's operations use its next nonces, as many as there are operations, each once.
abbrev pub IsReplayFree : List Account → List SequencedOrder → List SignedWithdrawal → Type 0
IsReplayFree xs os ws =
    (i n : ℕ)
    → order_nonce_uses i n os + withdrawal_nonce_uses i n ws
      ≡ in_window (nonce_at xs i) (order_uses i os + withdrawal_uses i ws) n

pairs-IsReplayFree :
    (xs : List Account) (os : List SequencedOrder) (ws : List SignedWithdrawal) (ps qs : Pairs)
    → IsPaired (length xs) (λ i n. order_nonce_uses i n os) (λ i. order_uses i os) ps
    → IsPaired (length xs) (λ i n. withdrawal_nonce_uses i n ws) (λ i. withdrawal_uses i ws) qs
    → AreSequences xs (chunk_by (sort_unstable pair_less (ps ++ qs)))
    → IsReplayFree xs os ws
pairs-IsReplayFree xs os ws ps qs hp hq s i n =
    let sorted : Pairs = sort_unstable pair_less (ps ++ qs) in
    let keys : chunks_key_count i (chunk_by sorted) ≡ order_uses i os + withdrawal_uses i ws =
      omega (
        arith,
        key_count-chunk_by i sorted,
        key_count-sort i (ps ++ qs),
        key_count-append i ps qs,
        hp.keys i,
        hq.keys i,
      ) in
    let pairs : order_nonce_uses i n os + withdrawal_nonce_uses i n ws
        ≡ in_window (nonce_at xs i) (chunks_key_count i (chunk_by sorted)) n =
      omega (
        arith,
        pair_count-chunk_by i n sorted,
        pair_count-sort i n (ps ++ qs),
        pair_count-append i n ps qs,
        hp.pairs i n,
        hq.pairs i n,
        chunks_in_window xs i n (chunk_by sorted)
            (chunk_by-AreGrouped sorted (sort-IsKeySorted (ps ++ qs))) s,
      ) in
    subst
      (λ k. order_nonce_uses i n os + withdrawal_nonce_uses i n ws ≡ in_window (nonce_at xs i) k n)
      keys pairs

-- Where every operation leads to an account, `validate_nonces` never panics. What it accepts is free
-- of replays and of gaps: for every account, a nonce is used by one order or withdrawal of the
-- account if it is among the next nonces of the account, as many as it has operations, and by none
-- otherwise.
pub validate_nonces-IsReplayFree :
    (xs : List Account) (os : List SequencedOrder) (ws : List SignedWithdrawal)
    → All (IsIndexed (length xs)) os
    → All (LeadsTo (length xs)) ws
    → Safe (λ _. IsReplayFree xs os ws) (validate_nonces os ws xs)
unfolding validate_nonces
validate_nonces-IsReplayFree xs os ws ho hw =
    Safe-bind (IsPaired (length xs) (λ i n. order_nonce_uses i n os) (λ i. order_uses i os))
      (λ _. IsReplayFree xs os ws) _ _ (order_nonces-IsPaired (length xs) os ho)
      (λ ps hp.
        Safe-bind
          (IsPaired (length xs) (λ i n. withdrawal_nonce_uses i n ws) (λ i. withdrawal_uses i ws))
          (λ _. IsReplayFree xs os ws) _ _ (withdrawal_nonces-IsPaired (length xs) ws hw)
          (λ qs hq.
            Safe-imp (λ _. AreSequences xs (chunk_by (sort_unstable pair_less (ps ++ qs)))) _ _
              (check_chunks-AreSequences xs (chunk_by (sort_unstable pair_less (ps ++ qs))) (
                All-chunk_by (λ (p : ℕ × ℕ). p.0 < length xs) (sort_unstable pair_less (ps ++ qs))
                  (All-sort (λ (p : ℕ × ℕ). p.0 < length xs) (ps ++ qs)
                    (All-append (λ (p : ℕ × ℕ). p.0 < length xs) ps qs hp.within hq.within))))
              (λ _ s. pairs-IsReplayFree xs os ws ps qs hp hq s)))

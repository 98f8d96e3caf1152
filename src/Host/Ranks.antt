-- ===== src/Host/Ranks.antt =====
-- The touched accounts of the batch builder and the ranks in them, for crates/host/src/batch_builder.rs.
use zk_clob.Prelude.{
  ℕ, ◌<◌, ◌≡◌, refl, true, false, Option, none, some, Search, found, vacant, further, List, [], ◌∷◌,
  All, get_elem?, binary_search_by_key, ltb, ltb→lt, ◌==◌, inl, inr, Bool-cases, arith,
}
use zk_clob.Types.Ids.{AccountId}
use zk_clob.Types.Operations.{Deposit, ForcedWithdrawal, SignedWithdrawal}
use zk_clob.Types.Order.{SequencedOrder}
use zk_clob.Settlement.Validation.Accounts.Ledger.{IsAscending}
use zk_clob.Host.Errors.{Gives}
use zk_clob.Host.Batches.{contains, insert, BatchBuilder}
use zk_clob.Host.Build.{expect_found, rank_of}

-- An index is the rank of an account among those of a list.
abbrev pub IsRank : List AccountId → AccountId → Option ℕ → Type 0
IsRank touched id none = ⊥
IsRank touched id (some i) = get_elem? touched i ≡ some id

-- The search for a member of an ascending list finds it.
abbrev IsHit : List ℕ → ℕ → Search → Type 0
IsHit xs k (found i) = get_elem? xs i ≡ some k
IsHit xs k (vacant i) = ⊥

further-IsHit :
    (x : ℕ) (xs : List ℕ) (k : ℕ) (s : Search) → IsHit xs k s → IsHit (x ∷ xs) k (further s)
further-IsHit x xs k (found i) h = h
further-IsHit x xs k (vacant i) h = h

IsAscending-tail : (x : ℕ) (xs : List ℕ) → IsAscending (x ∷ xs) → IsAscending xs
IsAscending-tail x [] h = tt
IsAscending-tail x (y ∷ xs) h = h.1

below_absent : (k x : ℕ) (xs : List ℕ) → IsAscending (x ∷ xs) → k < x → contains k (x ∷ xs) ≡ false
below_absent k x [] h lt = ground arith
below_absent k x (y ∷ xs) h lt = ground (arith, below_absent k y xs h.1 (omega arith))

search-IsHit :
    (xs : List ℕ) (k : ℕ)
    → IsAscending xs
    → contains k xs ≡ true
    → IsHit xs k (binary_search_by_key (λ j. j) xs k)
search-IsHit [] k h c = absurd (cc)
search-IsHit (x ∷ xs) k h c = elim (Bool-cases (ltb x k)) [
  | inl below ↦ rw below (
      further-IsHit x xs k (binary_search_by_key (λ j. j) xs k)
        (search-IsHit xs k (IsAscending-tail x xs h) (ground arith)))
  | inr above ↦ elim (Bool-cases (x == k)) [
    | inl same ↦ rw (above, same) (ground arith)
    | inr other ↦ absurd (ground (arith, below_absent k x xs h (ground arith)))
  ]
]

found-IsRank :
    (xs : List ℕ) (k : ℕ) (s : Search)
    → IsHit xs k s
    → Gives (λ i. IsRank xs k (some i)) (expect_found s)
found-IsRank xs k (found i) h = h
found-IsRank xs k (vacant i) h = h

pub rank_of-IsRank :
    (touched : List AccountId) (id : AccountId)
    → IsAscending touched
    → contains id touched ≡ true
    → Gives (λ i. IsRank touched id (some i)) (rank_of touched id)
rank_of-IsRank touched id h c =
    found-IsRank touched id (binary_search_by_key (λ j. j) touched id) (search-IsHit touched id h c)

-- Insertion keeps the order, and what was there, and adds the key.
pub insert-IsAscending : (k : ℕ) (xs : List ℕ) → IsAscending xs → IsAscending (insert k xs)
insert-IsAscending k [] h = tt
insert-IsAscending k (x ∷ []) h = ground arith
insert-IsAscending k (x ∷ y ∷ xs) h = elim (Bool-cases (x == k)) [
  | inl same ↦ rw same h
  | inr other ↦ elim (Bool-cases (ltb k x)) [
    | inl first ↦ rw (other, first) (ltb→lt _ _ first, h)
    | inr later ↦ elim (Bool-cases (y == k)) [
      | inl here ↦ rw (other, later, here) h
      | inr there ↦ elim (Bool-cases (ltb k y)) [
        | inl between ↦ rw (other, later, there, between) (ground arith, (ltb→lt _ _ between, h.1))
        | inr beyond ↦
            rw (other, later, there, beyond)
              (h.0, rw (there, beyond) at (insert-IsAscending k (y ∷ xs) h.1))
      ]
    ]
  ]
]

pub contains-insert : (k : ℕ) (xs : List ℕ) → contains k (insert k xs) ≡ true
contains-insert k [] = ground arith
contains-insert k (x ∷ xs) = elim (Bool-cases (x == k)) [
  | inl same ↦ rw same (rw same refl)
  | inr other ↦ elim (Bool-cases (ltb k x)) [
    | inl first ↦ rw (other, first) (ground arith)
    | inr later ↦ rw (other, later) (ground (arith, contains-insert k xs))
  ]
]

pub contains-insert_other :
    (j k : ℕ) (xs : List ℕ) → contains j xs ≡ true → contains j (insert k xs) ≡ true
contains-insert_other j k [] c = absurd (cc)
contains-insert_other j k (x ∷ xs) c = elim (Bool-cases (x == k)) [
  | inl same ↦ rw same c
  | inr other ↦ elim (Bool-cases (ltb k x)) [
    | inl first ↦ rw (other, first) (ground arith)
    | inr later ↦ elim (Bool-cases (x == j)) [
      | inl here ↦ rw (other, later, here) refl
      | inr there ↦ rw (other, later, there) (contains-insert_other j k xs (ground arith))
    ]
  ]
]

-- Each operation of a list names a touched account.
abbrev pub AreTouched : {A : Type 0} → (A → AccountId) → List AccountId → List A → Type 0
AreTouched account touched xs = All (λ x. contains (account x) touched ≡ true) xs

-- The touched accounts are in order, and each operation of a builder names one of them.
pub record IsBuilder (b : BatchBuilder) : Type 0 where
  pub ascending : IsAscending b.touched_accounts
  pub deposits : AreTouched (λ (d : Deposit). d.account) b.touched_accounts b.deposits
  pub forced_withdrawals :
      AreTouched (λ (w : ForcedWithdrawal). w.account) b.touched_accounts b.forced_withdrawals
  pub orders : AreTouched (λ (o : SequencedOrder). o.signer) b.touched_accounts b.orders
  pub withdrawals : AreTouched (λ (w : SignedWithdrawal). w.signer) b.touched_accounts b.withdrawals

-- ===== src/Settlement/Validation/Sequences.antt =====
-- The duplicate test of `validate_orders`: sort, and compare neighbours.
use zk_clob.Prelude.{
  ℕ, ◌+◌, ◌≤◌, ◌≡◌, refl, false, List, [], ◌∷◌, any_pair, insert_sorted, sort_unstable, ltb, ◌==◌,
  if◌then◌else◌, inl, inr, Bool-cases, arith,
}
use zk_clob.Settlement.Validation.Accounts.Ledger.{IsAscending}

-- How often a number occurs.
abbrev pub occurrences : ℕ → List ℕ → ℕ
occurrences k [] = 0
occurrences k (x ∷ xs) = (if x == k then 1 else 0) + occurrences k xs

occurrences-insert_sorted :
    (k a : ℕ) (xs : List ℕ) → occurrences k (insert_sorted ltb a xs) ≡ occurrences k (a ∷ xs)
occurrences-insert_sorted k a [] = refl
occurrences-insert_sorted k a (x ∷ xs) = elim (Bool-cases (ltb x a)) [
  | inl below ↦ rw below (omega (arith, occurrences-insert_sorted k a xs))
  | inr above ↦ rw above refl
]

pub occurrences-sort_unstable :
    (k : ℕ) (xs : List ℕ) → occurrences k (sort_unstable ltb xs) ≡ occurrences k xs
occurrences-sort_unstable k [] = refl
occurrences-sort_unstable k (x ∷ xs) =
    omega
      (arith, occurrences-insert_sorted k x (sort_unstable ltb xs), occurrences-sort_unstable k xs)

-- Neighbours never descend.
abbrev IsSorted : List ℕ → Type 0
IsSorted [] = Unit
IsSorted (k ∷ []) = Unit
IsSorted (k ∷ j ∷ ks) = (k ≤ j) × IsSorted (j ∷ ks)

insert_sorted-IsSorted : (a : ℕ) (xs : List ℕ) → IsSorted xs → IsSorted (insert_sorted ltb a xs)
insert_sorted-IsSorted a [] h = tt
insert_sorted-IsSorted a (x ∷ []) h = elim (Bool-cases (ltb x a)) [
  | inl below ↦ rw below (ground arith, tt)
  | inr above ↦ rw above (ground arith, tt)
]
insert_sorted-IsSorted a (x ∷ y ∷ xs) h = elim (Bool-cases (ltb x a)) [
  | inl below ↦ elim (Bool-cases (ltb y a)) [
    | inl later ↦ rw (below, later) (h.0, rw later at (insert_sorted-IsSorted a (y ∷ xs) h.1))
    | inr here ↦ rw (below, here) (ground arith, (ground arith, h.1))
  ]
  | inr above ↦ rw above (ground arith, h)
]

sort_unstable-IsSorted : (xs : List ℕ) → IsSorted (sort_unstable ltb xs)
sort_unstable-IsSorted [] = tt
sort_unstable-IsSorted (x ∷ xs) =
    insert_sorted-IsSorted x (sort_unstable ltb xs) (sort_unstable-IsSorted xs)

IsAscending-of_sorted : (xs : List ℕ) → IsSorted xs → any_pair ◌==◌ xs ≡ false → IsAscending xs
IsAscending-of_sorted [] h e = tt
IsAscending-of_sorted (x ∷ []) h e = tt
IsAscending-of_sorted (x ∷ y ∷ xs) h e =
    (ground arith, IsAscending-of_sorted (y ∷ xs) h.1 (ground arith))

occurrences-below : (k x : ℕ) (xs : List ℕ) → IsAscending (x ∷ xs) → k ≤ x → occurrences k xs ≡ 0
occurrences-below k x [] h le = refl
occurrences-below k x (y ∷ xs) h le = ground (arith, occurrences-below k y xs h.1 (omega arith))

occurrences-ascending : (k : ℕ) (xs : List ℕ) → IsAscending xs → occurrences k xs ≤ 1
occurrences-ascending k [] h = omega arith
occurrences-ascending k (x ∷ []) h = ground arith
occurrences-ascending k (x ∷ y ∷ xs) h = elim (Bool-cases (x == k)) [
  | inl same ↦ rw same (omega (arith, occurrences-below k x (y ∷ xs) h (ground arith)))
  | inr other ↦ rw other (omega (arith, occurrences-ascending k (y ∷ xs) h.1))
]

-- Where no neighbours of the sorted list are equal, no number occurs twice.
pub occurrences_distinct :
    (xs : List ℕ) → any_pair ◌==◌ (sort_unstable ltb xs) ≡ false → (k : ℕ) → occurrences k xs ≤ 1
occurrences_distinct xs e k = omega (
  arith,
  occurrences-sort_unstable k xs,
  occurrences-ascending k (sort_unstable ltb xs)
      (IsAscending-of_sorted (sort_unstable ltb xs) (sort_unstable-IsSorted xs) e),
)

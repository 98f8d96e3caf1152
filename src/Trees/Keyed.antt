-- ===== src/Trees/Keyed.antt =====
-- Slices in ascending order of their keys, and the selected part of one.
use zk_clob.Prelude.{
  leb, is_key, ℕ, ◌<◌, ◌≡◌, refl, ap, ◌∙◌, true, false, List, [], ◌∷◌, map, any, any_pair, All,
  retain, Search, found, vacant, further, is_vacant, binary_search_by_key, sort_unstable,
  insert_sorted, ltb, ◌==◌, not, inl, inr, Bool-cases, arith,
}
use zk_clob.Types.Errors.{ok}
use zk_clob.Hashing.{Crypto}
use zk_clob.Trees.Node.{Commitment}
use zk_clob.Trees.Patricia.{PatriciaLeaf, leaf_commitment, selected_in, sorted}
use zk_clob.Trees.Sides.{in_range, selected_in-any}
use zk_clob.Settlement.Validation.Accounts.Ledger.{IsAscending}

abbrev pub IsBelow : ℕ → List ℕ → Type 0
IsBelow k js = All (λ j. k < j) js

pub IsBelow-trans : (k j : ℕ) (is : List ℕ) → k < j → IsBelow j is → IsBelow k is
IsBelow-trans k j [] lt h = tt
IsBelow-trans k j (i ∷ is) lt h = (omega (arith, lt, h.0), IsBelow-trans k j is lt h.1)

pub ascending-IsBelow : (k : ℕ) (ks : List ℕ) → IsAscending (k ∷ ks) → IsBelow k ks
ascending-IsBelow k [] h = tt
ascending-IsBelow k (j ∷ ks) h = (h.0, IsBelow-trans k j ks h.0 (ascending-IsBelow j ks h.1))

pub absent : (k : ℕ) (is : List ℕ) → IsBelow k is → is_key is k ≡ false
absent k [] h = refl
absent k (i ∷ is) h = ground (arith, absent k is h.1)

hit_further : (s : Search) → is_vacant s ≡ false → is_vacant (further s) ≡ false
hit_further (found i) e = refl
hit_further (vacant i) e = cc

below-IsAscending : (k : ℕ) (ks : List ℕ) → IsBelow k ks → IsAscending ks → IsAscending (k ∷ ks)
below-IsAscending k [] h a = tt
below-IsAscending k (j ∷ ks) h a = (h.0, a)

pub IsAscending-tail : (k : ℕ) (ks : List ℕ) → IsAscending (k ∷ ks) → IsAscending ks
IsAscending-tail k [] h = tt
IsAscending-tail k (j ∷ ks) h = h.1

-- Later keys are among the later ones.
pub among_later :
    (k : ℕ) (ks js : List ℕ)
    → All (λ j. k < j) js
    → All (λ j. is_key (k ∷ ks) j ≡ true) js
    → All (λ j. is_key ks j ≡ true) js
among_later k ks [] h e = tt
among_later k ks (j ∷ js) h e = (ground (arith, h.0, e.0), among_later k ks js h.1 e.1)

-- The search for a key that is there finds it.
search_hit :
    (ks : List ℕ) (k : ℕ)
    → IsAscending ks
    → is_key ks k ≡ true
    → is_vacant (binary_search_by_key (λ j. j) ks k) ≡ false
search_hit [] k h e = absurd (cc)
search_hit (j ∷ ks) k h e = elim (Bool-cases (ltb j k)) [
  | inl below ↦ rw below (
      hit_further (binary_search_by_key (λ j. j) ks k)
        (search_hit ks k (IsAscending-tail j ks h) (ground arith)))
  | inr above ↦ elim (Bool-cases (j == k)) [
    | inl same ↦ rw (above, same) refl
    | inr other ↦
        let first : k < j = ground arith in
        let later : is_key ks k ≡ false =
          absent k ks (IsBelow-trans k j ks first (ascending-IsBelow j ks h)) in
        absurd (ground arith)
  ]
]

pub sort_unstable-ascending : (ks : List ℕ) → IsAscending ks → sort_unstable ltb ks ≡ ks
sort_unstable-ascending [] h = refl
sort_unstable-ascending (k ∷ []) h = refl
sort_unstable-ascending (k ∷ j ∷ ks) h =
    ap (insert_sorted ltb k) (sort_unstable-ascending (j ∷ ks) h.1) ∙ ground arith

pub distinct_ascending : (ks : List ℕ) → IsAscending ks → any_pair ◌==◌ ks ≡ false
distinct_ascending [] h = refl
distinct_ascending (k ∷ []) h = refl
distinct_ascending (k ∷ j ∷ ks) h = ground (arith, distinct_ascending (j ∷ ks) h.1)

module _ {A : Type 0} (key : A → ℕ) where
  -- A slice in order stays as it is when it is sorted.
  pub sort_unstable-keyed :
      (xs : List A) → IsAscending (map key xs) → sort_unstable (λ x y. ltb (key x) (key y)) xs ≡ xs
  sort_unstable-keyed [] h = refl
  sort_unstable-keyed (x ∷ []) h = refl
  sort_unstable-keyed (x ∷ y ∷ xs) h =
      ap (insert_sorted (λ a b. ltb (key a) (key b)) x) (sort_unstable-keyed (y ∷ xs) h.1)
      ∙ ground arith

  pub distinct_keyed :
      (xs : List A) → IsAscending (map key xs) → any_pair (λ x y. key x == key y) xs ≡ false
  distinct_keyed [] h = refl
  distinct_keyed (x ∷ []) h = refl
  distinct_keyed (x ∷ y ∷ xs) h = ground (arith, distinct_keyed (y ∷ xs) h.1)

  pub ordered_keyed :
      (xs : List A) → IsAscending (map key xs) → any_pair (λ x y. leb (key y) (key x)) xs ≡ false
  ordered_keyed [] h = refl
  ordered_keyed (x ∷ []) h = refl
  ordered_keyed (x ∷ y ∷ xs) h = ground (arith, ordered_keyed (y ∷ xs) h.1)

module _ (c : Crypto) (bits : ℕ) {L : Type 0} (leaves : PatriciaLeaf L) where
  pub sorted_ascending :
      (values : List L)
      → IsAscending (map leaves.key values)
      → sorted c bits leaves values ≡ ok values
  unfolding sorted
  sorted_ascending values h =
      rw (sort_unstable-keyed leaves.key values h, distinct_keyed leaves.key values h) refl

  module _ (keys : List ℕ) where
    abbrev pub chosen : List L → List L
    chosen = retain (λ v. is_key keys (leaves.key v))

    chosen-IsBelow :
        (k : ℕ) (values : List L)
        → IsBelow k (map leaves.key values)
        → IsBelow k (map leaves.key (chosen values))
    chosen-IsBelow k [] h = tt
    chosen-IsBelow k (v ∷ vs) h = elim (Bool-cases (is_key keys (leaves.key v))) [
      | inl present ↦ rw present (h.0, chosen-IsBelow k vs h.1)
      | inr missing ↦ rw missing (chosen-IsBelow k vs h.1)
    ]

    pub chosen-IsAscending :
        (values : List L)
        → IsAscending (map leaves.key values)
        → IsAscending (map leaves.key (chosen values))
    chosen-IsAscending [] h = tt
    chosen-IsAscending (v ∷ vs) h =
        let rest : IsAscending (map leaves.key (chosen vs)) =
          chosen-IsAscending vs (IsAscending-tail (leaves.key v) (map leaves.key vs) h) in
        elim (Bool-cases (is_key keys (leaves.key v))) [
          | inl present ↦ rw present (
              below-IsAscending (leaves.key v) (map leaves.key (chosen vs))
                (chosen-IsBelow (leaves.key v) vs
                  (ascending-IsBelow (leaves.key v) (map leaves.key vs) h))
                rest)
          | inr missing ↦ rw missing rest
        ]

    -- Every chosen value is found among the keys.
    pub chosen_found :
        (values : List L)
        → IsAscending keys
        → any
            (λ (v : L). is_vacant (binary_search_by_key (λ k. k) keys (leaves.key v)))
            (chosen values)
          ≡ false
    chosen_found [] h = refl
    chosen_found (v ∷ vs) h = elim (Bool-cases (is_key keys (leaves.key v))) [
      | inl present ↦ rw present (rw (search_hit keys (leaves.key v) h present) (chosen_found vs h))
      | inr missing ↦ rw missing (chosen_found vs h)
    ]

    one_key :
        (v : L) (ks : List ℕ)
        → any (in_range (leaf_commitment c bits leaves v)) ks ≡ is_key ks (leaves.key v)
    unfolding leaf_commitment
    one_key v [] = refl
    one_key v (k ∷ ks) = ground (arith, one_key v ks)

    -- The selected leaves are those of the chosen values.
    pub retain-selected :
        (values : List L)
        → IsAscending keys
        → retain (selected_in c bits leaves keys) (map (leaf_commitment c bits leaves) values)
          ≡ map (leaf_commitment c bits leaves) (chosen values)
    retain-selected [] h = refl
    retain-selected (v ∷ vs) h =
        let same : selected_in c bits leaves keys (leaf_commitment c bits leaves v)
            ≡ is_key keys (leaves.key v) =
          selected_in-any c bits leaves keys (leaf_commitment c bits leaves v) h ∙ one_key v keys in
        rw same (elim (Bool-cases (is_key keys (leaves.key v))) [
          | inl present ↦
              rw present (ap (λ xs. leaf_commitment c bits leaves v ∷ xs) (retain-selected vs h))
          | inr missing ↦ rw missing (retain-selected vs h)
        ])

    -- The values of the other keys.
    abbrev pub others : List L → List L
    others = retain (λ v. not (is_key keys (leaves.key v)))

    -- The other leaves are those of the other values.
    pub retain-others :
        (values : List L)
        → IsAscending keys
        → retain
            (λ x. not (selected_in c bits leaves keys x))
            (map (leaf_commitment c bits leaves) values)
          ≡ map (leaf_commitment c bits leaves) (others values)
    retain-others [] h = refl
    retain-others (v ∷ vs) h =
        let same : selected_in c bits leaves keys (leaf_commitment c bits leaves v)
            ≡ is_key keys (leaves.key v) =
          selected_in-any c bits leaves keys (leaf_commitment c bits leaves v) h ∙ one_key v keys in
        rw same (elim (Bool-cases (is_key keys (leaves.key v))) [
          | inl present ↦ rw present (retain-others vs h)
          | inr missing ↦
              rw missing (ap (λ xs. leaf_commitment c bits leaves v ∷ xs) (retain-others vs h))
        ])

    -- A predicate on the leaves, by the values of the keys and the others.
    pub All-leaves :
        (P : Commitment → Type 0) (values : List L)
        → ((v : L) → is_key keys (leaves.key v) ≡ true → P (leaf_commitment c bits leaves v))
        → All P (map (leaf_commitment c bits leaves) (others values))
        → All P (map (leaf_commitment c bits leaves) values)
    All-leaves P [] of_keys h = tt
    All-leaves P (v ∷ vs) of_keys h = elim (Bool-cases (is_key keys (leaves.key v))) [
      | inl present ↦
          let rest : All P (map (leaf_commitment c bits leaves) (others vs)) = rw present at h in
          (of_keys v present, All-leaves P vs of_keys rest)
      | inr missing ↦
          let both : P (leaf_commitment c bits leaves v)
              × All P (map (leaf_commitment c bits leaves) (others vs)) =
            rw missing at h in
          (both.0, All-leaves P vs of_keys both.1)
    ]

-- ===== src/Trees/Smt/Selecting.antt =====
-- `select_leaves` of crates/core/src/trees/smt.rs on values and keys in order.
use mathlib.Core.Path.{subst}
use zk_clob.Prelude.{
  ℕ, ◌<◌, ◌≤◌, ◌≡◌, refl, sym, ap, ◌∙◌, Bool, true, false, Option, none, some, List, [], ◌∷◌, map,
  All, All-imp, is_key, ltb, ◌==◌, if◌then◌else◌, inl, inr, Bool-cases, arith,
}
use zk_clob.Types.Ids.{B256}
use zk_clob.Hashing.{Crypto}
use zk_clob.Trees.Attempts.{done, ◌>>=◌}
use zk_clob.Trees.Smt.{SparseMerkleLeaf, ProofLeaf, present, skip_below, take_leaf, select_leaves}
use zk_clob.Trees.Smt.Spec.{find, leaf_at, leaves_at}
use zk_clob.Trees.Keyed.{IsBelow, ascending-IsBelow, IsBelow-trans, IsAscending-tail, among_later}
use zk_clob.Settlement.Validation.Accounts.Ledger.{IsAscending}

module _ (c : Crypto) (bits : ℕ) (table : List B256) {L : Type 0}
    (leaves : SparseMerkleLeaf L) where
  abbrev keys_of : List L → List ℕ
  keys_of = map leaves.key

  abbrev shown : List L → List (ProofLeaf L)
  shown = map (present c bits table leaves)

  -- The values from a key on.
  abbrev from_key : ℕ → List L → List L
  from_key k [] = []
  from_key k (v ∷ vs) = if ltb (leaves.key v) k then from_key k vs else v ∷ vs

  from_key-IsAscending :
      (k : ℕ) (vs : List L) → IsAscending (keys_of vs) → IsAscending (keys_of (from_key k vs))
  from_key-IsAscending k [] h = tt
  from_key-IsAscending k (v ∷ vs) h = elim (Bool-cases (ltb (leaves.key v) k)) [
    | inl below ↦
        rw below (from_key-IsAscending k vs (IsAscending-tail (leaves.key v) (keys_of vs) h))
    | inr above ↦ rw above h
  ]

  from_key-above :
      (k : ℕ) (vs : List L) → IsAscending (keys_of vs) → All (λ j. k ≤ j) (keys_of (from_key k vs))
  from_key-above k [] h = tt
  from_key-above k (v ∷ vs) h = elim (Bool-cases (ltb (leaves.key v) k)) [
    | inl below ↦ rw below (from_key-above k vs (IsAscending-tail (leaves.key v) (keys_of vs) h))
    | inr above ↦
        let first : k ≤ leaves.key v = ground arith in
        rw above (
          first,
          All-imp (λ (j : ℕ) lt. omega (arith, first, lt)) (keys_of vs)
              (ascending-IsBelow (leaves.key v) (keys_of vs) h),
        )
  ]

  from_key-All :
      (P : ℕ → Type 0) (k : ℕ) (vs : List L) → All P (keys_of vs) → All P (keys_of (from_key k vs))
  from_key-All P k [] h = tt
  from_key-All P k (v ∷ vs) h = elim (Bool-cases (ltb (leaves.key v) k)) [
    | inl below ↦ rw below (from_key-All P k vs h.1)
    | inr above ↦ rw above h
  ]

  find-from_key :
      (k j : ℕ) (vs : List L)
      → k ≤ j
      → find c bits table leaves j (from_key k vs) ≡ find c bits table leaves j vs
  find-from_key k j [] le = refl
  find-from_key k j (v ∷ vs) le = elim (Bool-cases (ltb (leaves.key v) k)) [
    | inl below ↦
        let other : leaves.key v == j ≡ false = ground arith in
        rw (below, other) (find-from_key k j vs le)
    | inr above ↦ rw above refl
  ]

  leaves_at-from_key :
      (k : ℕ) (ks : List ℕ) (vs : List L)
      → All (λ j. k ≤ j) ks
      → leaves_at c bits table leaves ks (from_key k vs) ≡ leaves_at c bits table leaves ks vs
  leaves_at-from_key k [] vs h = refl
  leaves_at-from_key k (j ∷ ks) vs h =
      let first : leaf_at c bits table leaves (from_key k vs) j ≡ leaf_at c bits table leaves vs j =
        ap (λ (o : Option L). record { key = j; value = o }) (find-from_key k j vs h.0) in
      ap (λ l. l ∷ leaves_at c bits table leaves ks (from_key k vs)) first
      ∙ ap (λ ls. leaf_at c bits table leaves vs j ∷ ls) (leaves_at-from_key k ks vs h.1)

  leaves_at-later :
      (v : L) (vs : List L) (ks : List ℕ)
      → IsBelow (leaves.key v) ks
      → leaves_at c bits table leaves ks vs ≡ leaves_at c bits table leaves ks (v ∷ vs)
  leaves_at-later v vs [] h = refl
  leaves_at-later v vs (j ∷ ks) h =
      let other : leaves.key v == j ≡ false = ground (arith, h.0) in
      let first : leaf_at c bits table leaves vs j ≡ leaf_at c bits table leaves (v ∷ vs) j =
        rw other refl in
      ap (λ l. l ∷ leaves_at c bits table leaves ks vs) first
      ∙ ap (λ ls. leaf_at c bits table leaves (v ∷ vs) j ∷ ls) (leaves_at-later v vs ks h.1)

  find-none : (k : ℕ) (vs : List L) → IsBelow k (keys_of vs) → find c bits table leaves k vs ≡ none
  find-none k [] h = refl
  find-none k (v ∷ vs) h =
      (let other : leaves.key v == k ≡ false = ground (arith, h.0) in rw other (find-none k vs h.1))

  -- With `reject_unselected`, every value has one of the keys.
  abbrev pub Allowed : Bool → List ℕ → List L → Type 0
  Allowed false ks vs = Unit
  Allowed true ks vs = All (λ j. is_key ks j ≡ true) (keys_of vs)

  first_least :
      (k : ℕ) (ks : List ℕ) (j : ℕ)
      → IsAscending (k ∷ ks)
      → is_key (k ∷ ks) j ≡ true
      → ltb j k ≡ false
  first_least k [] j h e = ground (arith, e)
  first_least k (i ∷ ks) j h e = elim (Bool-cases (k == j)) [
    | inl same ↦ ground arith
    | inr other ↦
        let later : is_key (i ∷ ks) j ≡ true = ground (arith, e) in
        let least : ltb j i ≡ false = first_least i ks j h.1 later in ground (arith, least, h.0)
  ]

  skip_below_lem :
      (k : ℕ) (ks : List ℕ) (reject : Bool) (vs : List L)
      → IsAscending (k ∷ ks)
      → Allowed reject (k ∷ ks) vs
      → skip_below c bits table leaves k reject (shown vs) ≡ done (shown (from_key k vs))
  unfolding skip_below
  skip_below_lem k ks reject [] h a = refl
  skip_below_lem k ks false (v ∷ vs) h a = elim (Bool-cases (ltb (leaves.key v) k)) [
    | inl below ↦ rw below (skip_below_lem k ks false vs h tt)
    | inr above ↦ rw above refl
  ]
  skip_below_lem k ks true (v ∷ vs) h a =
      (let above : ltb (leaves.key v) k ≡ false = first_least k ks (leaves.key v) h a.0 in
        rw above refl)

  Allowed-later :
      (reject : Bool) (k : ℕ) (ks : List ℕ) (vs : List L)
      → IsBelow k (keys_of vs)
      → Allowed reject (k ∷ ks) vs
      → Allowed reject ks vs
  Allowed-later false k ks vs below a = tt
  Allowed-later true k ks vs below a = among_later k ks (keys_of vs) below a

  Allowed-tail :
      (reject : Bool) (ks : List ℕ) (v : L) (vs : List L)
      → Allowed reject ks (v ∷ vs)
      → Allowed reject ks vs
  Allowed-tail false ks v vs a = tt
  Allowed-tail true ks v vs a = a.1

  Allowed-from_key :
      (reject : Bool) (ks : List ℕ) (k : ℕ) (vs : List L)
      → Allowed reject ks vs
      → Allowed reject ks (from_key k vs)
  Allowed-from_key false ks k vs a = tt
  Allowed-from_key true ks k vs a = from_key-All (λ j. is_key ks j ≡ true) k vs a

  abbrev Selects : Bool → List ℕ → List L → Type 0
  Selects reject ks vs =
      select_leaves c bits table leaves ks (shown vs) reject
      ≡ done (leaves_at c bits table leaves ks vs)

  -- One key, where no value is below it.
  select_step :
      (reject : Bool) (k : ℕ) (ks : List ℕ) (vs : List L)
      → IsAscending (k ∷ ks)
      → IsAscending (keys_of vs)
      → All (λ j. k ≤ j) (keys_of vs)
      → Allowed reject (k ∷ ks) vs
      → ((ws : List L) → IsAscending (keys_of ws) → Allowed reject ks ws → Selects reject ks ws)
      → (take_leaf c bits table leaves k (shown vs) >>= (λ taken.
          select_leaves c bits table leaves ks taken.1 reject >>= (λ rest. done (taken.0 ∷ rest))))
        ≡ done (leaf_at c bits table leaves vs k ∷ leaves_at c bits table leaves ks vs)
  select_step reject k ks [] h i above a next =
      rw (next [] tt (Allowed-later reject k ks [] tt a)) refl
  select_step reject k ks (v ∷ vs) h i above a next =
      let later : IsBelow (leaves.key v) (keys_of vs) =
        ascending-IsBelow (leaves.key v) (keys_of vs) i in
      elim (Bool-cases (leaves.key v == k)) [
        | inl same ↦
            let one : leaves.key v ≡ k = ground arith in
            let behind : IsBelow k (keys_of vs) = subst (λ j. IsBelow j (keys_of vs)) one later in
            let ahead : IsBelow (leaves.key v) ks =
              subst (λ j. IsBelow j ks) (sym one) (ascending-IsBelow k ks h) in
            let rest : Selects reject ks vs =
              next vs (IsAscending-tail (leaves.key v) (keys_of vs) i)
                (Allowed-later reject k ks vs behind (Allowed-tail reject (k ∷ ks) v vs a)) in
            rw same (
              rw rest (
                ap
                  (λ j.
                    done (record { key = j; value = some v } ∷ leaves_at c bits table leaves ks vs))
                  one
                ∙ ap (λ ls. done (record { key = k; value = some v } ∷ ls))
                    (leaves_at-later v vs ks ahead)))
        | inr other ↦
            let first : k < leaves.key v = ground (arith, above.0) in
            let behind : IsBelow k (keys_of (v ∷ vs)) =
              (first, IsBelow-trans k (leaves.key v) (keys_of vs) first later) in
            let rest : Selects reject ks (v ∷ vs) =
              next (v ∷ vs) i (Allowed-later reject k ks (v ∷ vs) behind a) in
            rw other (rw (rest, find-none k vs behind.1) refl)
      ]

  pub select_leaves_lem :
      (reject : Bool) (ks : List ℕ) (vs : List L)
      → IsAscending ks
      → IsAscending (keys_of vs)
      → Allowed reject ks vs
      → Selects reject ks vs
  unfolding select_leaves
  select_leaves_lem false [] vs h i a = refl
  select_leaves_lem true [] [] h i a = refl
  select_leaves_lem true [] (v ∷ vs) h i a = absurd (let bad : false ≡ true = a.0 in cc)
  select_leaves_lem reject (k ∷ ks) vs h i a = rw (skip_below_lem k ks reject vs h a) (
      select_step reject k ks (from_key k vs) h (from_key-IsAscending k vs i)
        (from_key-above k vs i) (Allowed-from_key reject (k ∷ ks) k vs a)
        (λ ws j b. select_leaves_lem reject ks ws (IsAscending-tail k ks h) j b)
      ∙ ap done (
          leaves_at-from_key k (k ∷ ks) vs
            (omega arith, All-imp (λ (j : ℕ) lt. omega (arith, lt)) ks (ascending-IsBelow k ks h))))

-- ===== src/Trees/Building.antt =====
-- `build` of crates/core/src/trees/patricia.rs on a slice in ascending order.
use mathlib.Core.Path.{subst}
use zk_clob.Prelude.{
  ℕ, zero, suc, ◌^◌, ◌<◌, ◌≤◌, ◌≡◌, refl, sym, ap, ◌∙◌, Bool, true, false, not, List, [], ◌∷◌, ◌++◌,
  map, length, All, leb, take, drop, partition_point, inl, inr, Bool-cases, arith,
}
use zk_clob.Types.Errors.{ok, expect, ◌>>=◌}
use zk_clob.Types.Results.{Succeeds, Succeeds-bind}
use zk_clob.Hashing.{Crypto}
use zk_clob.Trees.Node.{Commitment, Node, commitment}
use zk_clob.Trees.Patricia.{
  PatriciaLeaf, bit, branch_hash, branch, is_split, leaf_commitment, build_on,
}
use zk_clob.Trees.Patricia.Safety.{length-take, length-drop}
use zk_clob.Trees.Differing.{Parted, Parted-of_lt, Parted-within}
use zk_clob.Trees.Parts.{last, get_last?_lem, Parts, partition_point-Parts, All-take, All-drop}
use zk_clob.Trees.Built.{IsBuiltFrom, Fits, not-true, not-false, joined-IsBuiltFrom}
use zk_clob.Settlement.Validation.Accounts.Ledger.{IsAscending}

module _ {L : Type 0} (key : L → ℕ) where
  abbrev pub Ordered : List L → Type 0
  Ordered xs = IsAscending (map key xs)

  pub first-le-last : (v : L) (vs : List L) → Ordered (v ∷ vs) → key v ≤ key (last v vs)
  first-le-last v [] h = omega arith
  first-le-last v (w ∷ vs) h = omega (arith, h.0, first-le-last w vs h.1)

  pub first-lt-last : (v w : L) (vs : List L) → Ordered (v ∷ w ∷ vs) → key v < key (last w vs)
  first-lt-last v w vs h = omega (arith, h.0, first-le-last w vs h.1)

  -- The parts of an ordered slice are ordered, and the first lies before the second.
  pub Ordered-parts :
      (v : L) (front : List L) (m : L) (back : List L)
      → Ordered ((v ∷ front) ++ (m ∷ back))
      → Ordered (v ∷ front) × (key (last v front) < key m) × Ordered (m ∷ back)
  Ordered-parts v [] m back h = (tt, h.0, h.1)
  Ordered-parts v (w ∷ ws) m back h =
      let rest : Ordered (w ∷ ws) × (key (last w ws) < key m) × Ordered (m ∷ back) =
        Ordered-parts w ws m back h.1 in
      ((h.0, rest.0), rest.1, rest.2)

All-last {ℓ} : {A : Type ℓ} (P : A → Type 0) (x : A) (xs : List A) → All P (x ∷ xs) → P (last x xs)
All-last P x [] h = h.0
All-last P x (y ∷ ys) h = All-last P y ys h.1

partition_point-lt :
    {A : Type 0} (test : A → Bool) (x : A) (xs : List A)
    → test (last x xs) ≡ false
    → partition_point test (x ∷ xs) < length (x ∷ xs)
partition_point-lt test x [] e = rw e (omega arith)
partition_point-lt test x (y ∷ ys) e = elim (Bool-cases (test x)) [
  | inl passes ↦ rw passes (omega (arith, partition_point-lt test y ys e))
  | inr fails ↦ rw fails (omega arith)
]

module _ (c : Crypto) (bits : ℕ) where
  -- Two ranges on the two sides of the bit where the ends differ can be joined.
  branch_joins :
      (l r : Commitment) (d : ℕ)
      → l.min_key < 2 ^ bits
      → r.max_key < 2 ^ bits
      → Parted bits l.min_key r.max_key d
      → l.min_key ≤ l.max_key
      → l.max_key < r.min_key
      → r.min_key ≤ r.max_key
      → bit bits l.max_key d ≡ false
      → bit bits r.min_key d ≡ true
      → (n : Commitment) × (branch c bits l r ≡ ok n)
  unfolding branch
  branch_joins l r d min_fits max_fits p l_le lt r_le low high =
      let inner : Parted bits l.max_key r.min_key d =
        Parted-within bits l.min_key r.max_key d l.max_key r.min_key min_fits max_fits p l_le
          (omega (arith, lt)) r_le low high in
      let before : leb r.min_key l.max_key ≡ false = ground arith in
      let n : Commitment = record {
        root = branch_hash c bits d l r;
        min_key = l.min_key;
        max_key = r.max_key;
      } in
      (n, simp (before, inner.differs, p.low, low, high, p.high))

  module _ {L : Type 0} (leaves : PatriciaLeaf L) where
    -- The end of a round of `build`.
    join_halves :
        (v : L) (vs : List L) (depth split : ℕ)
        (p : Parts (λ x. not (bit bits (leaves.key x) depth)) v vs split)
        → Parted bits (leaves.key v) (leaves.key (last v vs)) depth
        → All (Fits c bits leaves) (v ∷ vs)
        → Ordered leaves.key (v ∷ vs)
        → (left right : Node) → IsBuiltFrom c bits leaves (v ∷ p.front) left
        → IsBuiltFrom c bits leaves (p.middle ∷ p.back) right
        → Succeeds (IsBuiltFrom c bits leaves (v ∷ vs)) (do
          l ← expect (commitment left)
          r ← expect (commitment right)
          joined ← branch c bits l r
          ok (Node.branch joined left right))
    join_halves v vs depth split p parted fits ordered left right hl hr =
        let parts : Ordered leaves.key (v ∷ p.front)
            × (leaves.key (last v p.front) < leaves.key p.middle)
            × Ordered leaves.key (p.middle ∷ p.back) =
          Ordered-parts leaves.key v p.front p.middle p.back
            (subst (Ordered leaves.key) (sym p.whole) ordered) in
        let final_fits : leaves.key (last v vs) < 2 ^ bits =
          All-last (Fits c bits leaves) v vs fits in
        let ends : leaves.key (last p.middle p.back) ≡ leaves.key (last v vs) =
          ap leaves.key p.ends in
        let l : Commitment = hl.spans.0 in
        let r : Commitment = hr.spans.0 in
        let r_max : r.max_key ≡ leaves.key (last v vs) = hr.spans.3 ∙ ends in
        let joins : (n : Commitment) × (branch c bits l r ≡ ok n) =
          branch_joins l r depth (omega (arith, hl.spans.2, fits.0))
            (omega (arith, r_max, final_fits)) (rw (hl.spans.2, r_max) parted)
            (omega (arith, hl.spans.2, hl.spans.3, first-le-last leaves.key v p.front parts.0))
            (omega (arith, hl.spans.3, hr.spans.2, parts.1))
            (omega
              (arith, hr.spans.2, hr.spans.3, first-le-last leaves.key p.middle p.back parts.2))
            (rw hl.spans.3 (not-true _ p.passes)) (rw hr.spans.2 (not-false _ p.fails)) in
        simp (hl.spans.1, hr.spans.1, joins.1)
          (joined-IsBuiltFrom c bits leaves v vs depth split p parted.differs left right hl hr l r
            joins.0 hl.spans.1 hr.spans.1 joins.1)

    -- A slice of keys in ascending order has a tree.
    pub build_on-IsBuiltFrom :
        (fuel : ℕ) (values : List L)
        → All (Fits c bits leaves) values
        → Ordered leaves.key values
        → length values < fuel
        → Succeeds (IsBuiltFrom c bits leaves values) (build_on c bits leaves fuel values)
    unfolding build_on leaf_commitment
    build_on-IsBuiltFrom zero values fits ordered lt = absurd (omega arith)
    build_on-IsBuiltFrom (suc fuel) [] fits ordered lt = record {
      canonical = tt;
      spans = refl;
      ordered = refl;
    }
    build_on-IsBuiltFrom (suc fuel) (v ∷ []) fits ordered lt = record {
      canonical = (refl, fits.0);
      spans = (leaf_commitment c bits leaves v, refl, refl, refl);
      ordered = refl;
    }
    build_on-IsBuiltFrom (suc fuel) (v ∷ w ∷ vs) fits ordered lt =
        let all : List L = v ∷ w ∷ vs in
        let apart : (d : ℕ) × Parted bits (leaves.key v) (leaves.key (last w vs)) d =
          Parted-of_lt bits (leaves.key v) (leaves.key (last w vs)) fits.0
            (All-last (Fits c bits leaves) w vs fits.1) (first-lt-last leaves.key v w vs ordered) in
        let depth : ℕ = apart.0 in
        let test : L → Bool = λ (x : L). not (bit bits (leaves.key x) depth) in
        let split : ℕ = partition_point test all in
        let passes : test v ≡ true = ap not apart.1.low in
        let fails : test (last v (w ∷ vs)) ≡ false = ap not apart.1.high in
        let pos : 0 < split = rw passes (omega arith) in
        let short : split < length all = partition_point-lt test v (w ∷ vs) fails in
        let p : Parts test v (w ∷ vs) split = partition_point-Parts test v (w ∷ vs) pos short in
        let parts : Ordered leaves.key (v ∷ p.front)
            × (leaves.key (last v p.front) < leaves.key p.middle)
            × Ordered leaves.key (p.middle ∷ p.back) =
          Ordered-parts leaves.key v p.front p.middle p.back
            (subst (Ordered leaves.key) (sym p.whole) ordered) in
        let in_parts : not (is_split c bits split all) ≡ false = ground arith in
        simp (get_last?_lem w vs, apart.1.differs, in_parts)
          (Succeeds-bind (IsBuiltFrom c bits leaves (take split all))
            (IsBuiltFrom c bits leaves all) _ _
            (build_on-IsBuiltFrom fuel (take split all)
              (All-take (Fits c bits leaves) split all fits)
              (subst (Ordered leaves.key) (sym p.taken) parts.0)
              (omega (arith, length-take split all (omega (arith, short)), short)))
            (λ left hl.
              Succeeds-bind (IsBuiltFrom c bits leaves (drop split all))
                (IsBuiltFrom c bits leaves all) _ _
                (build_on-IsBuiltFrom fuel (drop split all)
                  (All-drop (Fits c bits leaves) split all fits)
                  (subst (Ordered leaves.key) (sym p.dropped) parts.2)
                  (omega (arith, length-drop split all, pos)))
                (λ right hr.
                  join_halves v (w ∷ vs) depth split p apart.1 fits ordered left right
                    (subst (λ xs. IsBuiltFrom c bits leaves xs left) p.taken hl)
                    (subst (λ xs. IsBuiltFrom c bits leaves xs right) p.dropped hr))))

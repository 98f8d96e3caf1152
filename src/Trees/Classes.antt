-- ===== src/Trees/Classes.antt =====
-- The keys that share the bits of a subtree above the one where it branches.
use zk_clob.Prelude.{
  ℕ, zero, suc, ◌+◌, ◌-◌, ◌%◌, ◌^◌, ◌<◌, ◌≤◌, ◌≡◌, refl, sym, ap, ◌∙◌, Bool, true, false, none, ltb,
  lt→ltb, ◌⊎◌, ◌==◌, if◌then◌else◌, inl, inr, Bool-cases, arith,
}
use zk_clob.Trees.Patricia.{bit, same_bit, differing_from, differing_bit}
use zk_clob.Trees.Multiproof.{is_deeper}
use zk_clob.Trees.Bits.{prefix, prefix-suc, prefix_mono, differing_bit-prefix}
use zk_clob.Trees.Differing.{prefix_shorter, Parted, Parted-of_lt}

module _ (bits : ℕ) where
  -- The bits before an index.
  abbrev pub before : ℕ → ℕ → ℕ
  before index key = prefix (suc (bits - 1 - index)) key

  -- Keys that agree on a prefix agree on every bit in it.
  agree_bit :
      (n index a b : ℕ)
      → prefix n a ≡ prefix n b
      → n ≤ bits - 1 - index
      → bit bits a index ≡ bit bits b index
  unfolding bit
  agree_bit n index a b agree le =
      let place : (bits - 1 - index - n) + n ≡ bits - 1 - index = omega arith in
      let longer : prefix (bits - 1 - index) a ≡ prefix (bits - 1 - index) b =
        rw place at (prefix_shorter (bits - 1 - index - n) n a b agree) in
      ap (λ m. m % 2 == 1) longer

  -- And those that agree on the next bit too agree after it.
  agree_further :
      (index a b : ℕ)
      → before index a ≡ before index b
      → bit bits a index ≡ bit bits b index
      → prefix (bits - 1 - index) a ≡ prefix (bits - 1 - index) b
  unfolding bit
  agree_further index a b agree same =
      let n : ℕ = bits - 1 - index in ground (arith, prefix-suc n a, prefix-suc n b)

  -- Two keys on one side of a branch, and one on the other, with the bits of the two before the
  -- index where these differ.
  pub across :
      (a b x d branch : ℕ) (side other : Bool)
      → Parted bits a b d
      → before branch a ≡ before branch b
      → bit bits a branch ≡ side
      → bit bits b branch ≡ side
      → bit bits x branch ≡ other
      → same_bit bits side other ≡ false
      → branch < bits
      → before d x ≡ before d a
      → ⊥
  across a b x d branch side other p outer a_side b_side x_other differ lt class =
      elim (Bool-cases (ltb branch d)) [
        | inl earlier ↦
            let same : bit bits x branch ≡ bit bits a branch =
              agree_bit (suc (bits - 1 - d)) branch x a class (ground (arith, p.in_width)) in
            clash side other (sym a_side ∙ sym same ∙ x_other) differ
        | inr later ↦
            let together : prefix (bits - 1 - branch) a ≡ prefix (bits - 1 - branch) b =
              agree_further branch a b outer (a_side ∙ sym b_side) in
            let same : bit bits a d ≡ bit bits b d =
              agree_bit (bits - 1 - branch) d a b together (ground arith) in
            let bad : false ≡ true = sym p.low ∙ same ∙ p.high in absurd (cc)
      ]
    where
      clash : (side other : Bool) → side ≡ other → same_bit bits side other ≡ false → ⊥
      clash true true e h = cc
      clash true false e h = cc
      clash false true e h = cc
      clash false false e h = cc

  -- Keys that agree on a bit and before it differ later.
  differs_later :
      (a b d : ℕ)
      → a < 2 ^ bits
      → b < 2 ^ bits
      → d < bits
      → a < b
      → prefix (bits - 1 - d) a ≡ prefix (bits - 1 - d) b
      → (e : ℕ) × Parted bits a b e × (d < e)
  differs_later a b d a_fits b_fits d_lt lt agree =
      let apart : (e : ℕ) × Parted bits a b e = Parted-of_lt bits a b a_fits b_fits lt in
      elim (Bool-cases (ltb d apart.0)) [
        | inl later ↦ (apart.0, apart.1, ground arith)
        | inr earlier ↦
            let same : bit bits a apart.0 ≡ bit bits b apart.0 =
              agree_bit (bits - 1 - d) apart.0 a b agree (ground arith) in
            let bad : false ≡ true = sym apart.1.low ∙ same ∙ apart.1.high in absurd (cc)
      ]

  same_bit_comm : (x y : Bool) → same_bit bits x y ≡ same_bit bits y x
  same_bit_comm true true = refl
  same_bit_comm true false = refl
  same_bit_comm false true = refl
  same_bit_comm false false = refl

  differing_from_comm :
      (count index a b : ℕ)
      → differing_from bits count index a b ≡ differing_from bits count index b a
  unfolding differing_from
  differing_from_comm zero index a b = refl
  differing_from_comm (suc count) index a b =
      rw
        (
          same_bit_comm (bit bits a index) (bit bits b index),
          differing_from_comm count (index + 1) a b,
        )
        refl

  differing_bit_comm : (a b : ℕ) → differing_bit bits a b ≡ differing_bit bits b a
  unfolding differing_bit
  differing_bit_comm a b = differing_from_comm bits 0 a b

  differing_from_self : (count index a : ℕ) → differing_from bits count index a a ≡ none
  unfolding differing_from
  differing_from_self zero index a = refl
  differing_from_self (suc count) index a =
      let same : same_bit bits (bit bits a index) (bit bits a index) ≡ true =
        same_self (bit bits a index) in
      rw same (differing_from_self count (index + 1) a)
    where
      same_self : (x : Bool) → same_bit bits x x ≡ true
      same_self true = refl
      same_self false = refl

  pub differing_bit_self : (a : ℕ) → differing_bit bits a a ≡ none
  unfolding differing_bit
  differing_bit_self a = differing_from_self bits 0 a

  -- A key outside a range, with the bits of the range before its branch, goes below the branch.
  below_is_deeper :
      (k a d : ℕ)
      → k < 2 ^ bits
      → a < 2 ^ bits
      → d < bits
      → k < a
      → bit bits a d ≡ false
      → before d k ≡ before d a
      → is_deeper (differing_bit bits k a) d ≡ true
  unfolding bit
  below_is_deeper k a d k_fits a_fits d_lt lt low class =
      let n : ℕ = bits - 1 - d in
      let agree : prefix n k ≡ prefix n a =
        ground (arith, prefix-suc n k, prefix-suc n a, prefix_mono n k a (omega (arith, lt))) in
      let later : (e : ℕ) × Parted bits k a e × (d < e) =
        differs_later k a d k_fits a_fits d_lt lt agree in
      rw later.1.differs (ground (arith, later.2))

  above_is_deeper :
      (k b d : ℕ)
      → k < 2 ^ bits
      → b < 2 ^ bits
      → d < bits
      → b < k
      → bit bits b d ≡ true
      → before d k ≡ before d b
      → is_deeper (differing_bit bits k b) d ≡ true
  unfolding bit
  above_is_deeper k b d k_fits b_fits d_lt lt high class =
      let n : ℕ = bits - 1 - d in
      let agree : prefix n b ≡ prefix n k =
        ground (arith, prefix-suc n k, prefix-suc n b, prefix_mono n b k (omega (arith, lt))) in
      let later : (e : ℕ) × Parted bits b k e × (d < e) =
        differs_later b k d b_fits k_fits d_lt lt agree in
      rw (differing_bit_comm k b, later.1.differs) (ground (arith, later.2))

  -- The key that `side_nodes` compares a key with.
  pub outside_is_deeper :
      (k a b d : ℕ)
      → k < 2 ^ bits
      → a < 2 ^ bits
      → b < 2 ^ bits
      → Parted bits a b d
      → (k < a) ⊎ (b < k)
      → a ≤ b
      → before d k ≡ before d a
      → is_deeper (differing_bit bits k (if ltb k a then a else b)) d ≡ true
  outside_is_deeper k a b d k_fits a_fits b_fits p (inl lt) le class =
      rw (lt→ltb k a lt) (below_is_deeper k a d k_fits a_fits p.in_width lt p.low class)
  outside_is_deeper k a b d k_fits a_fits b_fits p (inr lt) le class =
      let above : ltb k a ≡ false = ground arith in
      rw above (
        above_is_deeper k b d k_fits b_fits p.in_width lt p.high
          (class ∙ differing_bit-prefix bits a b d a_fits b_fits p.differs))

-- ===== src/Trees/Differing.antt =====
-- When `differing_bit` of crates/core/src/trees/patricia.rs finds an index, and which.
use zk_clob.Prelude.{
  ℕ, zero, suc, ◌+◌, ◌-◌, ◌/◌, ◌%◌, ◌^◌, ◌<◌, ◌≤◌, ◌≡◌, refl, sym, ap, ◌∙◌, Bool, true, false, none,
  some, ◌==◌, inl, inr, Bool-cases, Option-cases, arith,
}
use zk_clob.Trees.Patricia.{bit, same_bit, differing_from, differing_bit}
use zk_clob.Trees.Bits.{
  prefix, prefix-suc, prefix_mono, prefix-zero_of_lt, same_bit-prefix, differing_bit-prefix,
}

-- Keys that agree on a prefix agree on a shorter one.
pub prefix_shorter : (k n a b : ℕ) → prefix n a ≡ prefix n b → prefix (k + n) a ≡ prefix (k + n) b
prefix_shorter zero n a b e = let place : 0 + n ≡ n = omega arith in rw place e
prefix_shorter (suc k) n a b e =
    let place : suc k + n ≡ suc (k + n) = omega arith in
    rw place (
      sym (prefix-suc (k + n) a)
      ∙ ap (λ m. m / 2) (prefix_shorter k n a b e)
      ∙ prefix-suc (k + n) b)

module _ (bits : ℕ) where
  same_self : (x : Bool) → same_bit bits x x ≡ true
  same_self true = refl
  same_self false = refl

  -- Equal prefixes have equal bits.
  prefix-same_bit :
      (count index a b : ℕ)
      → suc count + index ≡ bits
      → prefix count a ≡ prefix count b
      → same_bit bits (bit bits a index) (bit bits b index) ≡ true
  unfolding bit
  prefix-same_bit count index a b total agree =
      let place : bits - 1 - index ≡ count = omega arith in
      rw (place, agree) (same_self (prefix count b % 2 == 1))

  -- Keys without an index where they differ are equal.
  differing_from-none :
      (count index a b : ℕ)
      → count + index ≡ bits
      → prefix count a ≡ prefix count b
      → differing_from bits count index a b ≡ none
      → a ≡ b
  unfolding differing_from
  differing_from-none zero index a b total agree e = omega (arith, agree)
  differing_from-none (suc count) index a b total agree e =
      elim (Bool-cases (same_bit bits (bit bits a index) (bit bits b index))) [
        | inl same ↦
            differing_from-none count (index + 1) a b (omega arith)
              (same_bit-prefix bits count index a b total agree same) (rw same at e)
        | inr other ↦ let here : some index ≡ none = rw other at e in absurd (cc)
      ]

  ends_here :
      (count index a b d : ℕ)
      → suc count + index ≡ bits
      → prefix (suc count) a ≡ prefix (suc count) b
      → a ≤ b
      → same_bit bits (bit bits a index) (bit bits b index) ≡ false
      → index ≡ d
      → (bit bits a d ≡ false) × (bit bits b d ≡ true)
  unfolding bit
  ends_here count index a b d total agree le other here =
      let place : bits - 1 - index ≡ count = omega arith in
      let place_d : bits - 1 - d ≡ count = omega arith in
      let differ : same_bit bits (prefix count a % 2 == 1) (prefix count b % 2 == 1) ≡ false =
        rw place at other in
      rw place_d (ground (arith, prefix-suc count a, prefix-suc count b, prefix_mono count a b le))

  -- The index where keys in order differ is a bit of the greater one only.
  differing_from_ends :
      (count index a b d : ℕ)
      → count + index ≡ bits
      → prefix count a ≡ prefix count b
      → a ≤ b
      → differing_from bits count index a b ≡ some d
      → (bit bits a d ≡ false) × (bit bits b d ≡ true)
  unfolding differing_from
  differing_from_ends zero index a b d total agree le e = absurd (cc)
  differing_from_ends (suc count) index a b d total agree le e =
      elim (Bool-cases (same_bit bits (bit bits a index) (bit bits b index))) [
        | inl same ↦
            differing_from_ends count (index + 1) a b d (omega arith)
              (same_bit-prefix bits count index a b total agree same) le (rw same at e)
        | inr other ↦
            let here : some index ≡ some d = rw other at e in
            ends_here count index a b d total agree le other (ground arith)
      ]

  -- The first index where the prefixes part is the one that is found.
  differing_from-some :
      (count index a b d : ℕ)
      → count + index ≡ bits
      → index ≤ d
      → d < bits
      → prefix (suc (bits - 1 - d)) a ≡ prefix (suc (bits - 1 - d)) b
      → bit bits a d ≡ false
      → bit bits b d ≡ true
      → differing_from bits count index a b ≡ some d
  unfolding differing_from
  differing_from-some zero index a b d total le lt agree low high = absurd (omega arith)
  differing_from-some (suc count) index a b d total le lt agree low high =
      elim (Bool-cases (index == d)) [
        | inl here ↦
            let same : index ≡ d = ground arith in
            let differ : same_bit bits (bit bits a index) (bit bits b index) ≡ false =
              rw same (rw (low, high) refl) in
            rw differ (ap some same)
        | inr before ↦
            let earlier : index < d = ground arith in
            let place : (d - index - 1) + suc (bits - 1 - d) ≡ count = omega arith in
            let same : same_bit bits (bit bits a index) (bit bits b index) ≡ true =
              prefix-same_bit count index a b total
                (rw place at (prefix_shorter (d - index - 1) (suc (bits - 1 - d)) a b agree)) in
            rw same (
              differing_from-some count (index + 1) a b d (omega arith) (omega arith) lt agree low
                high)
      ]

  differing_from-lt :
      (count index a b d : ℕ)
      → count + index ≡ bits
      → differing_from bits count index a b ≡ some d
      → d < bits
  unfolding differing_from
  differing_from-lt zero index a b d total e = absurd (cc)
  differing_from-lt (suc count) index a b d total e =
      elim (Bool-cases (same_bit bits (bit bits a index) (bit bits b index))) [
        | inl same ↦ differing_from-lt count (index + 1) a b d (omega arith) (rw same at e)
        | inr other ↦ let here : some index ≡ some d = rw other at e in ground arith
      ]

  -- What the index says of two keys.
  pub record Parted (a b d : ℕ) : Type 0 where
    pub differs : differing_bit bits a b ≡ some d
    pub low : bit bits a d ≡ false
    pub high : bit bits b d ≡ true
    pub in_width : d < bits

  pub Parted-of_differs :
      (a b d : ℕ)
      → a < 2 ^ bits
      → b < 2 ^ bits
      → a ≤ b
      → differing_bit bits a b ≡ some d
      → Parted a b d
  unfolding differing_bit
  Parted-of_differs a b d a_fits b_fits le e =
      let ends : (bit bits a d ≡ false) × (bit bits b d ≡ true) =
        differing_from_ends bits 0 a b d (omega arith)
          (prefix-zero_of_lt bits a a_fits ∙ sym (prefix-zero_of_lt bits b b_fits)) le e in
      record {
        differs = e;
        low = ends.0;
        high = ends.1;
        in_width = differing_from-lt bits 0 a b d (omega arith) e;
      }

  -- Keys in order differ.
  pub Parted-of_lt : (a b : ℕ) → a < 2 ^ bits → b < 2 ^ bits → a < b → (d : ℕ) × Parted a b d
  unfolding differing_bit
  Parted-of_lt a b a_fits b_fits lt = elim (Option-cases (differing_bit bits a b)) [
    | inl e ↦
        let same : a ≡ b =
          differing_from-none bits 0 a b (omega arith)
            (prefix-zero_of_lt bits a a_fits ∙ sym (prefix-zero_of_lt bits b b_fits)) e in
        absurd (omega (arith, same, lt))
    | inr (d, e) ↦ (d, Parted-of_differs a b d a_fits b_fits (omega (arith, lt)) e)
  ]

  -- Keys between two others that the same bit tells apart differ there first.
  pub Parted-within :
      (a b d x y : ℕ)
      → a < 2 ^ bits
      → b < 2 ^ bits
      → Parted a b d
      → a ≤ x
      → x ≤ y
      → y ≤ b
      → bit bits x d ≡ false
      → bit bits y d ≡ true
      → Parted x y d
  unfolding differing_bit
  Parted-within a b d x y a_fits b_fits p ax xy yb low high =
      let n : ℕ = suc (bits - 1 - d) in
      let outer : prefix n a ≡ prefix n b =
        differing_bit-prefix bits a b d a_fits b_fits p.differs in
      record {
        differs =
            differing_from-some bits 0 x y d (omega arith) (omega arith) p.in_width
              (omega
                (arith, outer, prefix_mono n a x ax, prefix_mono n x y xy, prefix_mono n y b yb))
              low high;
        low = low;
        high = high;
        in_width = p.in_width;
      }

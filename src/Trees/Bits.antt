-- ===== src/Trees/Bits.antt =====
-- The bits of keys in an interval: `bit` and `differing_bit` of crates/core/src/trees/patricia.rs.
use native.Mathlib.Nat.{div-div-eq-div-mul, div-eq_of_lt, pow-suc}
use zk_clob.Prelude.{
  ℕ, zero, suc, ◌+◌, ◌-◌, ◌/◌, ◌%◌, ◌^◌, ◌<◌, ◌≤◌, ◌≡◌, sym, ap, ◌∙◌, true, false, some, ◌==◌, inl,
  inr, Bool-cases, arith,
}
use zk_clob.Trees.Patricia.{bit, same_bit, differing_from, differing_bit}

-- A key without its last `n` bits.
abbrev pub prefix : ℕ → ℕ → ℕ
prefix n key = key / 2 ^ n

pub prefix-suc : (n key : ℕ) → prefix n key / 2 ≡ prefix (suc n) key
prefix-suc n key = div-div-eq-div-mul key (2 ^ n) 2 ∙ ap (λ m. key / m) (sym (pow-suc 2 n))

pub prefix_mono : (n x y : ℕ) → x ≤ y → prefix n x ≤ prefix n y
prefix_mono zero x y h = omega arith
prefix_mono (suc n) x y h = omega (arith, prefix_mono n x y h, prefix-suc n x, prefix-suc n y)

pub prefix-zero_of_lt : (n x : ℕ) → x < 2 ^ n → prefix n x ≡ 0
prefix-zero_of_lt n x h = div-eq_of_lt h

module _ (bits : ℕ) where
  -- Equal bits, and equal prefixes before them.
  pub same_bit-prefix :
      (count index a b : ℕ)
      → suc count + index ≡ bits
      → prefix (suc count) a ≡ prefix (suc count) b
      → same_bit bits (bit bits a index) (bit bits b index) ≡ true
      → prefix count a ≡ prefix count b
  unfolding bit
  same_bit-prefix count index a b total agree same =
      let place : bits - 1 - index ≡ count = omega arith in
      let equal : same_bit bits (prefix count a % 2 == 1) (prefix count b % 2 == 1) ≡ true =
        rw place at same in
      ground (arith, prefix-suc count a, prefix-suc count b)

  -- Keys that agree before an index agree before the index where they differ.
  differing_from-prefix :
      (count index a b d : ℕ)
      → count + index ≡ bits
      → prefix count a ≡ prefix count b
      → differing_from bits count index a b ≡ some d
      → prefix (suc (bits - 1 - d)) a ≡ prefix (suc (bits - 1 - d)) b
  unfolding differing_from
  differing_from-prefix zero index a b d total agree e = absurd (cc)
  differing_from-prefix (suc count) index a b d total agree e =
      elim (Bool-cases (same_bit bits (bit bits a index) (bit bits b index))) [
        | inl same ↦
            differing_from-prefix count (index + 1) a b d (omega arith)
              (same_bit-prefix count index a b total agree same) (rw same at e)
        | inr other ↦
            let here : some index ≡ some d = rw other at e in
            let place : suc (bits - 1 - d) ≡ suc count = ground arith in rw place agree
      ]

  module _ (a b d : ℕ) (a_fits : a < 2 ^ bits) (b_fits : b < 2 ^ bits)
      (e : differing_bit bits a b ≡ some d) where
    pub differing_bit-prefix : prefix (suc (bits - 1 - d)) a ≡ prefix (suc (bits - 1 - d)) b
    unfolding differing_bit
    differing_bit-prefix =
        differing_from-prefix bits 0 a b d (omega arith)
          (prefix-zero_of_lt bits a a_fits ∙ sym (prefix-zero_of_lt bits b b_fits)) e

    -- Between two keys, the bit where they differ goes up once.
    pub bit_low : (x y : ℕ) → a ≤ x → x ≤ y → y ≤ b → bit bits y d ≡ false → bit bits x d ≡ false
    unfolding bit
    bit_low x y ax xy yb low =
        let n : ℕ = bits - 1 - d in
        ground (
          arith,
          differing_bit-prefix,
          prefix-suc n a,
          prefix-suc n b,
          prefix-suc n x,
          prefix-suc n y,
          prefix_mono n a x ax,
          prefix_mono n x y xy,
          prefix_mono n y b yb,
        )

    pub bit_high : (x y : ℕ) → a ≤ y → y ≤ x → x ≤ b → bit bits y d ≡ true → bit bits x d ≡ true
    unfolding bit
    bit_high x y ay yx xb high =
        let n : ℕ = bits - 1 - d in
        ground (
          arith,
          differing_bit-prefix,
          prefix-suc n a,
          prefix-suc n b,
          prefix-suc n x,
          prefix-suc n y,
          prefix_mono n a y ay,
          prefix_mono n y x yx,
          prefix_mono n x b xb,
        )

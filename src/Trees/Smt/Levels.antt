-- ===== src/Trees/Smt/Levels.antt =====
-- The levels of crates/core/src/trees/smt.rs: slices in order whose keys share the bits above a level.
use mathlib.Core.Path.{subst}
use zk_clob.Prelude.{
  ℕ, suc, ◌+◌, ◌-◌, ◌*◌, ◌/◌, ◌%◌, ◌^◌, ◌<◌, ◌≡◌, refl, sym, ap, Bool, true, not, List, [], ◌∷◌,
  map, All, retain, take, drop, partition_point, ◌==◌, inl, inr, Bool-cases, arith,
}
use zk_clob.Trees.Patricia.{bit}
use zk_clob.Trees.Bits.{prefix-suc, prefix_mono}
use zk_clob.Trees.Keyed.{IsBelow, ascending-IsBelow, IsAscending-tail}
use zk_clob.Settlement.Validation.Accounts.Ledger.{IsAscending}

-- The bit of a key at a level, counted from the leaves.
abbrev pub is_high : ℕ → ℕ → Bool
is_high r key = (key / 2 ^ r) % 2 == 1

abbrev pub is_low : ℕ → ℕ → Bool
is_low r key = not (is_high r key)

pub bit-is_high : (bits depth r key : ℕ) → depth + suc r ≡ bits → bit bits key depth ≡ is_high r key
unfolding bit
bit-is_high bits depth r key e =
    (let place : bits - 1 - depth ≡ r = omega (arith, e) in rw place refl)

-- Keys that share the bits above a level.
abbrev pub Class : ℕ → ℕ → List ℕ → Type 0
Class r p = All (λ k. k / 2 ^ r ≡ p)

module _ {A : Type 0} (key : A → ℕ) where
  abbrev pub lows : ℕ → List A → List A
  lows r = retain (λ x. is_low r (key x))

  abbrev pub highs : ℕ → List A → List A
  highs r = retain (λ x. is_high r (key x))

  retain-IsBelow :
      (test : A → Bool) (k : ℕ) (xs : List A)
      → IsBelow k (map key xs)
      → IsBelow k (map key (retain test xs))
  retain-IsBelow test k [] h = tt
  retain-IsBelow test k (x ∷ xs) h = elim (Bool-cases (test x)) [
    | inl passes ↦ rw passes (h.0, retain-IsBelow test k xs h.1)
    | inr fails ↦ rw fails (retain-IsBelow test k xs h.1)
  ]

  below_first : (k : ℕ) (ks : List ℕ) → IsBelow k ks → IsAscending ks → IsAscending (k ∷ ks)
  below_first k [] h a = tt
  below_first k (j ∷ ks) h a = (h.0, a)

  pub retain-IsAscending :
      (test : A → Bool) (xs : List A)
      → IsAscending (map key xs)
      → IsAscending (map key (retain test xs))
  retain-IsAscending test [] h = tt
  retain-IsAscending test (x ∷ xs) h =
      let rest : IsAscending (map key (retain test xs)) =
        retain-IsAscending test xs (IsAscending-tail (key x) (map key xs) h) in
      elim (Bool-cases (test x)) [
        | inl passes ↦ rw passes (
            below_first (key x) (map key (retain test xs))
              (retain-IsBelow test (key x) xs (ascending-IsBelow (key x) (map key xs) h)) rest)
        | inr fails ↦ rw fails rest
      ]

  lower : (r k p : ℕ) → k / 2 ^ suc r ≡ p → is_low r k ≡ true → k / 2 ^ r ≡ 2 * p
  lower r k p e low = ground (arith, prefix-suc r k)

  higher : (r k p : ℕ) → k / 2 ^ suc r ≡ p → is_high r k ≡ true → k / 2 ^ r ≡ 2 * p + 1
  higher r k p e high = ground (arith, prefix-suc r k)

  pub lows-Class :
      (r p : ℕ) (xs : List A) → Class (suc r) p (map key xs) → Class r (2 * p) (map key (lows r xs))
  lows-Class r p [] h = tt
  lows-Class r p (x ∷ xs) h = elim (Bool-cases (is_low r (key x))) [
    | inl low ↦ rw low (lower r (key x) p h.0 low, lows-Class r p xs h.1)
    | inr high ↦ rw high (lows-Class r p xs h.1)
  ]

  pub highs-Class :
      (r p : ℕ) (xs : List A)
      → Class (suc r) p (map key xs)
      → Class r (2 * p + 1) (map key (highs r xs))
  highs-Class r p [] h = tt
  highs-Class r p (x ∷ xs) h = elim (Bool-cases (is_high r (key x))) [
    | inl high ↦ rw high (higher r (key x) p h.0 high, highs-Class r p xs h.1)
    | inr low ↦ rw low (highs-Class r p xs h.1)
  ]

  above_high :
      (r p k j : ℕ)
      → k < j
      → k / 2 ^ suc r ≡ p
      → j / 2 ^ suc r ≡ p
      → is_high r k ≡ true
      → is_high r j ≡ true
  above_high r p k j lt e f high =
      ground (arith, prefix-suc r k, prefix-suc r j, prefix_mono r k j (omega (arith, lt)))

  all_high :
      (r p k : ℕ) (xs : List A)
      → IsBelow k (map key xs)
      → k / 2 ^ suc r ≡ p
      → Class (suc r) p (map key xs)
      → is_high r k ≡ true
      → All (λ x. is_high r (key x) ≡ true) xs
  all_high r p k [] below e h high = tt
  all_high r p k (x ∷ xs) below e h high =
      (above_high r p k (key x) below.0 e h.0 high, all_high r p k xs below.1 e h.1 high)

  none_low : (r : ℕ) (xs : List A) → All (λ x. is_high r (key x) ≡ true) xs → lows r xs ≡ []
  none_low r [] h = refl
  none_low r (x ∷ xs) h = rw h.0 (none_low r xs h.1)

  all_in : (r : ℕ) (xs : List A) → All (λ x. is_high r (key x) ≡ true) xs → highs r xs ≡ xs
  all_in r [] h = refl
  all_in r (x ∷ xs) h = rw h.0 (ap (λ ys. x ∷ ys) (all_in r xs h.1))

  -- A slice in order is split where the bit of a level is set.
  pub split_lem :
      (r p : ℕ) (xs : List A)
      → IsAscending (map key xs)
      → Class (suc r) p (map key xs)
      → (take (partition_point (λ x. is_low r (key x)) xs) xs ≡ lows r xs)
        × (drop (partition_point (λ x. is_low r (key x)) xs) xs ≡ highs r xs)
  split_lem r p [] h k = (refl, refl)
  split_lem r p (x ∷ xs) h k =
      let rest : (take (partition_point (λ x. is_low r (key x)) xs) xs ≡ lows r xs)
          × (drop (partition_point (λ x. is_low r (key x)) xs) xs ≡ highs r xs) =
        split_lem r p xs (IsAscending-tail (key x) (map key xs) h) k.1 in
      elim (Bool-cases (is_high r (key x))) [
        | inl high ↦
            let others : All (λ x. is_high r (key x) ≡ true) xs =
              all_high r p (key x) xs (ascending-IsBelow (key x) (map key xs) h) k.0 k.1 high in
            rw high (sym (none_low r xs others), ap (λ ys. x ∷ ys) (sym (all_in r xs others)))
        | inr low ↦ rw low (ap (λ ys. x ∷ ys) rest.0, rest.1)
      ]

map_same : (ks : List ℕ) → map (λ k. k) ks ≡ ks
map_same [] = refl
map_same (k ∷ ks) = ap (λ js. k ∷ js) (map_same ks)

-- The two halves of keys in order.
pub record KeyHalves (r p : ℕ) (ks : List ℕ) : Type 0 where
  pub low_order : IsAscending (lows (λ k. k) r ks)
  pub low_class : Class r (2 * p) (lows (λ k. k) r ks)
  pub high_order : IsAscending (highs (λ k. k) r ks)
  pub high_class : Class r (2 * p + 1) (highs (λ k. k) r ks)

pub key_halves : (r p : ℕ) (ks : List ℕ) → IsAscending ks → Class (suc r) p ks → KeyHalves r p ks
key_halves r p ks h k =
    let order : IsAscending (map (λ j. j) ks) = subst IsAscending (sym (map_same ks)) h in
    let class : Class (suc r) p (map (λ j. j) ks) = subst (Class (suc r) p) (sym (map_same ks)) k in
    record {
      low_order =
          subst IsAscending (map_same (lows (λ j. j) r ks))
            (retain-IsAscending (λ j. j) (is_low r) ks order);
      low_class =
          subst (Class r (2 * p)) (map_same (lows (λ j. j) r ks))
            (lows-Class (λ j. j) r p ks class);
      high_order =
          subst IsAscending (map_same (highs (λ j. j) r ks))
            (retain-IsAscending (λ j. j) (is_high r) ks order);
      high_class =
          subst (Class r (2 * p + 1)) (map_same (highs (λ j. j) r ks))
            (highs-Class (λ j. j) r p ks class);
    }

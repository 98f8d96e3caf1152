-- ===== src/Prelude/Searching.antt =====
-- What the searches find.
use Prim.Native.Nat.{ℕ, ◌≤◌}
use mathlib.Core.Path.{◌≡◌, refl}
use mathlib.Core.List.{List, [], ◌∷◌}
use mathlib.Core.Option.{some}
use native.Mathlib.Omega.{arith}
use zk_clob.Prelude.Lists.{length, get_elem?, Search, found, vacant, further, binary_search_by_key}
use mathlib.Core.Logic.{inl, inr}
use zk_clob.Prelude.Tests.{ltb, ◌==◌, ==_iff, Bool-cases}

module _ {ℓ} {A : Type ℓ} (key : A → ℕ) where
  -- What a result says of the slice that was searched.
  abbrev pub IsResult : List A → ℕ → Search → Type ℓ
  IsResult xs k (found i) = (x : A) × (get_elem? xs i ≡ some x) × (key x ≡ k)
  IsResult xs k (vacant i) = (i ≤ length xs) × Unit {ℓ}

  further-IsResult :
      (x : A) (xs : List A) (k : ℕ) (s : Search) → IsResult xs k s → IsResult (x ∷ xs) k (further s)
  further-IsResult x xs k (found i) h = h
  further-IsResult x xs k (vacant i) h = (omega arith, tt)

  pub binary_search_by_key-IsResult :
      (xs : List A) (k : ℕ) → IsResult xs k (binary_search_by_key key xs k)
  binary_search_by_key-IsResult [] k = (omega arith, tt)
  binary_search_by_key-IsResult (x ∷ xs) k = elim (Bool-cases (ltb (key x) k)) [
    | inl below ↦ rw below (
        further-IsResult x xs k (binary_search_by_key key xs k)
          (binary_search_by_key-IsResult xs k))
    | inr above ↦ elim (Bool-cases (key x == k)) [
      | inl same ↦ rw (above, same) (x, refl, (==_iff (key x) k).0 same)
      | inr other ↦ rw (above, other) (omega arith, tt)
    ]
  ]

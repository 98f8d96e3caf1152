-- ===== src/Prelude/Lists.antt =====
-- Slices and vectors: length and indexing by native numbers, tests over a slice, and the searches
-- and sorts of the standard library that the sources call.
use Prim.Native.Nat.{ℕ, zero, suc, ◌+◌}
use mathlib.Core.Path.{◌≡◌, refl, ap}
use mathlib.Core.Bool.{Bool, true, false, ◌||◌}
use mathlib.Core.List.{List, [], ◌∷◌, ◌++◌}
use mathlib.Core.Option.{Option, none, some}
use native.Mathlib.Omega.{arith}
use zk_clob.Prelude.Tests.{ltb, ◌==◌, if◌then◌else◌}

module _ {ℓ} {A : Type ℓ} where
  abbrev pub length : List A → ℕ
  length [] = 0
  length (x ∷ xs) = suc (length xs)

  abbrev pub get_elem? : List A → ℕ → Option A
  get_elem? [] i = none
  get_elem? (x ∷ xs) zero = some x
  get_elem? (x ∷ xs) (suc i) = get_elem? xs i

  -- A predicate on every element; it computes to a tuple.
  abbrev pub All {κ} : (A → Type κ) → List A → Type κ
  All P [] = Unit
  All P (x ∷ xs) = P x × All P xs

  -- `iter().any(test)`
  abbrev pub any : (A → Bool) → List A → Bool
  any test [] = false
  any test (x ∷ xs) = test x || any test xs

  -- `windows(2).any(|pair| test(pair[0], pair[1]))`
  abbrev pub any_pair : (A → A → Bool) → List A → Bool
  any_pair test [] = false
  any_pair test (x ∷ []) = false
  any_pair test (x ∷ y ∷ xs) = test x y || any_pair test (y ∷ xs)

  -- The elements that pass a test.
  abbrev pub retain : (A → Bool) → List A → List A
  retain test [] = []
  retain test (x ∷ xs) = if test x then x ∷ retain test xs else retain test xs

  abbrev pub is_empty : List A → Bool
  is_empty [] = true
  is_empty (x ∷ xs) = false

  abbrev pub replicate : ℕ → A → List A
  replicate zero a = []
  replicate (suc n) a = a ∷ replicate n a

  -- `Vec::remove`, at an index in range.
  abbrev pub remove_at : List A → ℕ → List A
  remove_at [] i = []
  remove_at (x ∷ xs) zero = xs
  remove_at (x ∷ xs) (suc i) = x ∷ remove_at xs i

  -- `Vec::insert`, at an index that is at most the length.
  abbrev pub insert_at : List A → ℕ → A → List A
  insert_at [] i a = a ∷ []
  insert_at (x ∷ xs) zero a = a ∷ x ∷ xs
  insert_at (x ∷ xs) (suc i) a = x ∷ insert_at xs i a

  -- `v[i] = a`, at an index in range.
  abbrev pub set : List A → ℕ → A → List A
  set [] i a = []
  set (x ∷ xs) zero a = a ∷ xs
  set (x ∷ xs) (suc i) a = x ∷ set xs i a

  abbrev pub get_last? : List A → Option A
  get_last? [] = none
  get_last? (x ∷ []) = some x
  get_last? (x ∷ y ∷ xs) = get_last? (y ∷ xs)

  abbrev pub take : ℕ → List A → List A
  take zero xs = []
  take (suc n) [] = []
  take (suc n) (x ∷ xs) = x ∷ take n xs

  abbrev pub drop : ℕ → List A → List A
  drop zero xs = xs
  drop (suc n) [] = []
  drop (suc n) (x ∷ xs) = drop n xs

  -- `partition_point`, on a slice that the test partitions, where the standard library fixes it: the
  -- length of the part that passes.
  abbrev pub partition_point : (A → Bool) → List A → ℕ
  partition_point test [] = 0
  partition_point test (x ∷ xs) = if test x then suc (partition_point test xs) else 0

-- What a binary search returns: `Ok(index)` of a hit, or `Err(index)` where the key would go.
pub data Search : Type 0 where
  found : ℕ → Search
  vacant : ℕ → Search

abbrev pub further : Search → Search
further (found i) = found (suc i)
further (vacant i) = vacant (suc i)

-- `is_err()`
abbrev pub is_vacant : Search → Bool
is_vacant (found i) = false
is_vacant (vacant i) = true

-- `binary_search_by_key`. On a slice that is strictly sorted by the key, where the standard library
-- fixes the result, this is that result: the first element whose key is not less decides.
module _ {ℓ} {A : Type ℓ} (key : A → ℕ) where
  abbrev pub binary_search_by_key : List A → ℕ → Search
  binary_search_by_key [] k = vacant 0
  binary_search_by_key (x ∷ xs) k =
      if ltb (key x) k
      then further (binary_search_by_key xs k)
      else if key x == k
      then found 0
      else vacant 0

-- `sort_unstable_by`: insertion into a sorted list. Elements that compare equal have no fixed order
-- in the source; every caller compares by a total order or rejects equal keys.
module _ {ℓ} {A : Type ℓ} (less : A → A → Bool) where
  abbrev pub insert_sorted : A → List A → List A
  insert_sorted a [] = a ∷ []
  insert_sorted a (x ∷ xs) = if less x a then x ∷ insert_sorted a xs else a ∷ x ∷ xs

  abbrev pub sort_unstable : List A → List A
  sort_unstable [] = []
  sort_unstable (x ∷ xs) = insert_sorted x (sort_unstable xs)

pub length-append {ℓ} : {A : Type ℓ} (xs ys : List A) → length (xs ++ ys) ≡ length xs + length ys
length-append [] ys = omega arith
length-append (x ∷ xs) ys = omega (arith, length-append xs ys)

pub All-imp {ℓ κ μ} :
    {A : Type ℓ} {P : A → Type κ} {Q : A → Type μ} (imp : (a : A) → P a → Q a) (xs : List A)
    → All P xs
    → All Q xs
All-imp imp [] h = tt
All-imp imp (x ∷ xs) h = (imp x h.0, All-imp imp xs h.1)

pub length-replicate {ℓ} : {A : Type ℓ} (n : ℕ) (a : A) → length (replicate n a) ≡ n
length-replicate zero a = refl
length-replicate (suc n) a = ap suc (length-replicate n a)

pub All-intro {ℓ κ} : {A : Type ℓ} (P : A → Type κ) (xs : List A) → ((x : A) → P x) → All P xs
All-intro P [] h = tt
All-intro P (x ∷ xs) h = (h x, All-intro P xs h)

pub All-imp_both {ℓ κ μ ν} :
    {A : Type ℓ} {P : A → Type κ} {Q : A → Type μ} {R : A → Type ν}
    (imp : (a : A) → P a → Q a → R a) (xs : List A)
    → All P xs
    → All Q xs
    → All R xs
All-imp_both imp [] h k = tt
All-imp_both imp (x ∷ xs) h k = (imp x h.0 k.0, All-imp_both imp xs h.1 k.1)

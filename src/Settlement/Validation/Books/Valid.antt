-- ===== src/Settlement/Validation/Books/Valid.antt =====
-- What it is for the order books of a batch to be valid, and `build_validated_books`.
use zk_clob.Prelude.{
  ℕ, zero, suc, ◌+◌, ◌<◌, ◌≡◌, refl, ap, Bool, true, false, not, List, [], ◌∷◌, Option, none, some,
  get_elem?, set, length, ◌==◌, if◌then◌else◌, Ordering, arith,
}
use zk_clob.Types.Ids.{MarketId}
use zk_clob.Types.Order.{Side, same_side, SequencedOrder, compare_priority}
use zk_clob.Types.Errors.{
  expect, invalid_order_index, duplicate_order_index, order_book_market_mismatch,
  order_book_side_mismatch, unsorted_order_book,
}
use zk_clob.Types.Results.{Safe, Safe-bind, fail_if-Safe, ok_or-Safe}
use zk_clob.Settlement.Validation.Sequences.{occurrences}
use zk_clob.Settlement.Validation.Books.{is_less, is_unsorted_after, validate_book_orders}

-- 1 for an index that is marked.
abbrev pub mark_at : List Bool → ℕ → ℕ
mark_at [] j = 0
mark_at (true ∷ bs) zero = 1
mark_at (false ∷ bs) zero = 0
mark_at (b ∷ bs) (suc j) = mark_at bs j

expect_seen :
    (seen : List Bool) (i : ℕ)
    → i < length seen
    → Safe (λ b. get_elem? seen i ≡ some b) (expect (get_elem? seen i))
expect_seen [] i lt = absurd (omega arith)
expect_seen (b ∷ seen) zero lt = refl
expect_seen (b ∷ seen) (suc i) lt = expect_seen seen i (omega arith)

pub length-set : (seen : List Bool) (i : ℕ) → length (set seen i true) ≡ length seen
length-set [] i = refl
length-set (b ∷ seen) zero = refl
length-set (b ∷ seen) (suc i) = ap suc (length-set seen i)

mark_at-set :
    (seen : List Bool) (i j : ℕ)
    → get_elem? seen i ≡ some false
    → mark_at (set seen i true) j ≡ (if i == j then 1 else 0) + mark_at seen j
mark_at-set [] i j e = cc
mark_at-set (true ∷ seen) zero j e = absurd (cc)
mark_at-set (false ∷ seen) zero zero e = refl
mark_at-set (false ∷ seen) zero (suc j) e = ground arith
mark_at-set (true ∷ seen) (suc i) zero e = ground arith
mark_at-set (false ∷ seen) (suc i) zero e = ground arith
mark_at-set (true ∷ seen) (suc i) (suc j) e = ground (arith, mark_at-set seen i j e)
mark_at-set (false ∷ seen) (suc i) (suc j) e = ground (arith, mark_at-set seen i j e)

get_elem?-lt :
    (orders : List SequencedOrder) (i : ℕ) {o : SequencedOrder}
    → get_elem? orders i ≡ some o
    → i < length orders
get_elem?-lt [] i e = absurd (cc)
get_elem?-lt (x ∷ orders) zero e = omega arith
get_elem?-lt (x ∷ orders) (suc i) e = omega (arith, get_elem?-lt orders i e)

-- The orders at a list of indices.
abbrev pub ArePicked : List SequencedOrder → List ℕ → List SequencedOrder → Type 0
ArePicked orders [] [] = Unit
ArePicked orders [] (o ∷ os) = ⊥
ArePicked orders (i ∷ is) [] = ⊥
ArePicked orders (i ∷ is) (o ∷ os) = (get_elem? orders i ≡ some o) × ArePicked orders is os

-- The last order so far has priority over the next one.
abbrev pub IsPriorTo : Side → Option SequencedOrder → SequencedOrder → Type 0
IsPriorTo side none o = Unit
IsPriorTo side (some previous) o = compare_priority side previous o ≡ Ordering.lt

-- Orders of one market and side, in the order of priority.
abbrev pub AreSorted : MarketId → Side → Option SequencedOrder → List SequencedOrder → Type 0
AreSorted market_id side previous [] = Unit
AreSorted market_id side previous (o ∷ os) =
    (o.operation.market_id ≡ market_id)
    × (o.operation.side ≡ side)
    × IsPriorTo side previous o
    × AreSorted market_id side (some o) os

same_side-eq : (a b : Side) → same_side a b ≡ true → a ≡ b
same_side-eq Side.buy Side.buy e = refl
same_side-eq Side.buy Side.sell e = absurd (cc)
same_side-eq Side.sell Side.buy e = absurd (cc)
same_side-eq Side.sell Side.sell e = refl

is_less-eq : (r : Ordering) → is_less r ≡ true → r ≡ Ordering.lt
is_less-eq Ordering.lt e = refl
is_less-eq Ordering.eq e = absurd (cc)
is_less-eq Ordering.gt e = absurd (cc)

IsPriorTo-of_test :
    (side : Side) (previous : Option SequencedOrder) (o : SequencedOrder)
    → is_unsorted_after side previous o ≡ false
    → IsPriorTo side previous o
IsPriorTo-of_test side none o e = tt
IsPriorTo-of_test side (some p) o e = is_less-eq (compare_priority side p o) (ground arith)

-- The marks after indices are used: each was free.
pub record AreMarked (indices : List ℕ) (seen seen' : List Bool) : Type 0 where
  pub same_length : length seen' ≡ length seen
  pub marked : (j : ℕ) → mark_at seen' j ≡ occurrences j indices + mark_at seen j

-- One side of a book, validated.
pub record IsSide (orders : List SequencedOrder) (market_id : MarketId) (side : Side)
    (previous : Option SequencedOrder) (indices : List ℕ) (os : List SequencedOrder) : Type 0 where
  pub picked : ArePicked orders indices os
  pub sorted : AreSorted market_id side previous os

module _ (orders : List SequencedOrder) (market_id : MarketId) (side : Side) where
  abbrev SideOf :
      Option SequencedOrder → List ℕ → List Bool → List SequencedOrder × List Bool → Type 0
  SideOf previous indices seen r =
      IsSide orders market_id side previous indices r.0 × AreMarked indices seen r.1

  SideOf-cons :
      (previous : Option SequencedOrder) (i : ℕ) (is : List ℕ) (seen : List Bool)
      (o : SequencedOrder) (r : List SequencedOrder × List Bool)
      → get_elem? orders i ≡ some o
      → get_elem? seen i ≡ some false
      → o.operation.market_id ≡ market_id
      → o.operation.side ≡ side
      → IsPriorTo side previous o
      → SideOf (some o) is (set seen i true) r
      → SideOf previous (i ∷ is) seen (o ∷ r.0, r.1)
  SideOf-cons previous i is seen o r e free m s p rest = (
    record { picked = (e, rest.0.picked); sorted = (m, s, p, rest.0.sorted) },
    record {
      same_length = omega (arith, rest.1.same_length, length-set seen i);
      marked = λ j. omega (arith, rest.1.marked j, mark_at-set seen i j free);
    },
  )

  pub validate_book_orders-Safe :
      (is : List ℕ) (seen : List Bool) (previous : Option SequencedOrder)
      → length seen ≡ length orders
      → Safe (SideOf previous is seen) (validate_book_orders market_id is side orders seen previous)
  unfolding validate_book_orders
  validate_book_orders-Safe [] seen previous e = (
    record { picked = tt; sorted = tt },
    record { same_length = refl; marked = λ j. omega arith },
  )
  validate_book_orders-Safe (i ∷ is) seen previous e =
      Safe-bind (λ o. get_elem? orders i ≡ some o) Q _ _
        (ok_or-Safe (get_elem? orders i) invalid_order_index)
        (λ o at_i.
          Safe-bind (λ b. get_elem? seen i ≡ some b) Q _ _
            (expect_seen seen i (omega (arith, get_elem?-lt orders i at_i)))
            (λ b mark.
              Safe-bind (λ _. b ≡ false) Q _ _ (fail_if-Safe b duplicate_order_index)
                (λ _ free.
                  Safe-bind (λ _. not (o.operation.market_id == market_id) ≡ false) Q _ _
                    (fail_if-Safe (not (o.operation.market_id == market_id))
                      order_book_market_mismatch)
                    (λ _ m.
                      Safe-bind (λ _. not (same_side o.operation.side side) ≡ false) Q _ _
                        (fail_if-Safe (not (same_side o.operation.side side))
                          order_book_side_mismatch)
                        (λ _ s.
                          Safe-bind (λ _. is_unsorted_after side previous o ≡ false) Q _ _
                            (fail_if-Safe (is_unsorted_after side previous o) unsorted_order_book)
                            (λ _ p.
                              Safe-bind (SideOf (some o) is (set seen i true)) Q _ _
                                (validate_book_orders-Safe is (set seen i true) (some o)
                                  (omega (arith, e, length-set seen i)))
                                (λ r rest.
                                  SideOf-cons previous i is seen o r at_i (rw free at mark)
                                    (ground arith)
                                    (same_side-eq o.operation.side side (ground arith))
                                    (IsPriorTo-of_test side previous o p) rest)))))))
    where
      Q : List SequencedOrder × List Bool → Type 0
      Q = SideOf previous (i ∷ is) seen

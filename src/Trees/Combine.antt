-- ===== src/Trees/Combine.antt =====
-- `combine` of crates/core/src/trees/patricia.rs on the cuts through a tree.
use mathlib.Core.Path.{subst}
use zk_clob.Prelude.{
  ℕ, zero, suc, ◌+◌, ◌^◌, ◌<◌, ◌≤◌, ◌≡◌, refl, sym, ap, ◌∙◌, Bool, true, false, not, some, List, [],
  ◌∷◌, ◌++◌, length, any, All, All-imp, get_last?, take, drop, partition_point, length-append,
  arith,
}
use zk_clob.Types.Errors.{ok}
use zk_clob.Hashing.{Crypto}
use zk_clob.Trees.Node.{Commitment, Node, commitment}
use zk_clob.Trees.Patricia.{bit, differing_bit, branch, is_split, combine_on, combine}
use zk_clob.Trees.Bits.{bit_low, bit_high}
use zk_clob.Trees.Parts.{
  last, get_last?_lem, last-append, partition_point-append, take-append, drop-append,
}
use zk_clob.Trees.Cut.{Cut, Covers, Within, canonical_range, Cut-Covers}
use zk_clob.Trees.Built.{Joins, IsCanonical}

module _ (c : Crypto) (bits : ℕ) where
  -- One round of `combine`, on two parts that the bit tells apart.
  combine_round :
      (fuel : ℕ) (n m : Commitment) (ns front back : List Commitment) (final : Commitment)
      (depth : ℕ) (l r joined : Commitment)
      → get_last? (m ∷ ns) ≡ some final
      → differing_bit bits n.min_key final.max_key ≡ some depth
      → take
          (partition_point (λ (x : Commitment). not (bit bits x.max_key depth)) (n ∷ m ∷ ns))
          (n ∷ m ∷ ns)
        ≡ front
      → drop
          (partition_point (λ (x : Commitment). not (bit bits x.max_key depth)) (n ∷ m ∷ ns))
          (n ∷ m ∷ ns)
        ≡ back
      → is_split c bits
          (partition_point (λ (x : Commitment). not (bit bits x.max_key depth)) (n ∷ m ∷ ns))
          (n ∷ m ∷ ns)
        ≡ true
      → any (λ (x : Commitment). bit bits x.min_key depth) front ≡ false
      → any (λ (x : Commitment). not (bit bits x.min_key depth)) back ≡ false
      → combine_on c bits fuel front ≡ ok (some l)
      → combine_on c bits fuel back ≡ ok (some r)
      → branch c bits l r ≡ ok joined
      → combine_on c bits (suc fuel) (n ∷ m ∷ ns) ≡ ok (some joined)
  unfolding combine_on
  combine_round fuel n m ns front back final depth l r joined e_last e_depth e_take e_drop e_split
        e_low e_high e_l e_r e_j =
      simp (e_last, e_depth, e_split, e_take, e_drop, e_low, e_high, e_l, e_r, e_j)

  any-false :
      (test : Commitment → Bool) (xs : List Commitment)
      → All (λ x. test x ≡ false) xs
      → any test xs ≡ false
  any-false test [] h = refl
  any-false test (x ∷ xs) h = rw h.0 (any-false test xs h.1)

  -- The ends of a range on one side of a bit.
  abbrev pub AtBit : ℕ → Bool → Commitment → Type 0
  AtBit depth side x = (bit bits x.min_key depth ≡ side) × (bit bits x.max_key depth ≡ side)

  module _ (depth : ℕ) (x : Commitment) (xs : List Commitment) (y : Commitment)
      (ys : List Commitment) (low : All (AtBit depth false) (x ∷ xs))
      (high : All (AtBit depth true) (y ∷ ys)) where
    abbrev below_point : Commitment → Bool
    below_point z = not (bit bits z.max_key depth)

    parts_point : partition_point below_point ((x ∷ xs) ++ (y ∷ ys)) ≡ length (x ∷ xs)
    parts_point =
        partition_point-append below_point (x ∷ xs) (y ∷ ys)
          (All-imp (λ z h. ap not h.1) (x ∷ xs) low) (rw high.0.1 refl)

    parts_take :
        take (partition_point below_point ((x ∷ xs) ++ (y ∷ ys))) ((x ∷ xs) ++ (y ∷ ys)) ≡ x ∷ xs
    parts_take = rw parts_point (take-append (x ∷ xs) (y ∷ ys))

    parts_drop :
        drop (partition_point below_point ((x ∷ xs) ++ (y ∷ ys))) ((x ∷ xs) ++ (y ∷ ys)) ≡ y ∷ ys
    parts_drop = rw parts_point (drop-append (x ∷ xs) (y ∷ ys))

    parts_split :
        is_split c bits (partition_point below_point ((x ∷ xs) ++ (y ∷ ys))) ((x ∷ xs) ++ (y ∷ ys))
        ≡ true
    parts_split = rw parts_point (ground (arith, length-append (x ∷ xs) (y ∷ ys)))

    parts_low : any (λ (z : Commitment). bit bits z.min_key depth) (x ∷ xs) ≡ false
    parts_low =
        any-false (λ z. bit bits z.min_key depth) (x ∷ xs) (All-imp (λ z h. h.0) (x ∷ xs) low)

    parts_high : any (λ (z : Commitment). not (bit bits z.min_key depth)) (y ∷ ys) ≡ false
    parts_high =
        any-false (λ z. not (bit bits z.min_key depth)) (y ∷ ys)
          (All-imp (λ z h. ap not h.0) (y ∷ ys) high)

  combine_parts :
      (fuel depth : ℕ) (x : Commitment) (xs : List Commitment) (y : Commitment)
      (ys : List Commitment) (l r joined : Commitment)
      → All (AtBit depth false) (x ∷ xs)
      → All (AtBit depth true) (y ∷ ys)
      → differing_bit bits x.min_key (last y ys).max_key ≡ some depth
      → combine_on c bits fuel (x ∷ xs) ≡ ok (some l)
      → combine_on c bits fuel (y ∷ ys) ≡ ok (some r)
      → branch c bits l r ≡ ok joined
      → combine_on c bits (suc fuel) ((x ∷ xs) ++ (y ∷ ys)) ≡ ok (some joined)
  combine_parts fuel depth x [] y ys l r joined low high differs e_l e_r e_j =
      combine_round fuel x y ys (x ∷ []) (y ∷ ys) (last y ys) depth l r joined (get_last?_lem y ys)
        differs (parts_take depth x [] y ys low high) (parts_drop depth x [] y ys low high)
        (parts_split depth x [] y ys low high) (parts_low depth x [] y ys low high)
        (parts_high depth x [] y ys low high) e_l e_r e_j
  combine_parts fuel depth x (z ∷ zs) y ys l r joined low high differs e_l e_r e_j =
      combine_round fuel x z (zs ++ (y ∷ ys)) (x ∷ z ∷ zs) (y ∷ ys) (last y ys) depth l r joined
        (get_last?_lem z (zs ++ (y ∷ ys)) ∙ ap some (last-append z y zs ys)) differs
        (parts_take depth x (z ∷ zs) y ys low high) (parts_drop depth x (z ∷ zs) y ys low high)
        (parts_split depth x (z ∷ zs) y ys low high) (parts_low depth x (z ∷ zs) y ys low high)
        (parts_high depth x (z ∷ zs) y ys low high) e_l e_r e_j

  -- Every subtree on the left of a branch is below its bit, and every one on the right above.
  pub low_side :
      (n : Commitment) (left right : Node) (j : Joins c bits n left right)
      → n.min_key < 2 ^ bits
      → n.max_key < 2 ^ bits
      → j.r.min_key ≤ j.r.max_key
      → (x : Commitment) → Within c bits j.l x
      → AtBit j.depth false x
  low_side n left right j min_fits max_fits le x w = (
    bit_low bits n.min_key n.max_key j.depth min_fits max_fits j.differs x.min_key j.l.max_key
        (omega (arith, w.0, j.least)) (omega (arith, w.1, w.2)) (omega (arith, j.apart, j.greatest))
        j.low,
    bit_low bits n.min_key n.max_key j.depth min_fits max_fits j.differs x.max_key j.l.max_key
        (omega (arith, w.0, w.1, j.least)) w.2 (omega (arith, j.apart, j.greatest)) j.low,
  )

  pub high_side :
      (n : Commitment) (left right : Node) (j : Joins c bits n left right)
      → n.min_key < 2 ^ bits
      → n.max_key < 2 ^ bits
      → j.l.min_key ≤ j.l.max_key
      → (x : Commitment) → Within c bits j.r x
      → AtBit j.depth true x
  high_side n left right j min_fits max_fits le x w = (
    bit_high bits n.min_key n.max_key j.depth min_fits max_fits j.differs x.min_key j.r.min_key
        (omega (arith, j.apart, j.least)) w.0 (omega (arith, w.1, w.2, j.greatest)) j.high,
    bit_high bits n.min_key n.max_key j.depth min_fits max_fits j.differs x.max_key j.r.min_key
        (omega (arith, j.apart, j.least)) (omega (arith, w.0, w.1)) (omega (arith, w.2, j.greatest))
        j.high,
  )

  combine_inner :
      (fuel : ℕ) (n : Commitment) (left right : Node) (xs ys : List Commitment)
      (j : Joins c bits n left right)
      → Covers c bits j.l xs
      → Covers c bits j.r ys
      → (j.l.min_key ≤ j.l.max_key) × (j.l.max_key < 2 ^ bits)
      → (j.r.min_key ≤ j.r.max_key) × (j.r.max_key < 2 ^ bits)
      → combine_on c bits fuel xs ≡ ok (some j.l)
      → combine_on c bits fuel ys ≡ ok (some j.r)
      → combine_on c bits (suc fuel) (xs ++ ys) ≡ ok (some n)
  combine_inner fuel n left right xs ys j hx hy l_range r_range e_l e_r =
      let min_fits : n.min_key < 2 ^ bits = omega (arith, j.least, l_range.0, l_range.1) in
      let max_fits : n.max_key < 2 ^ bits = omega (arith, j.greatest, r_range.1) in
      rw (hx.same, hy.same)
        (combine_parts fuel j.depth hx.first hx.rest hy.first hy.rest j.l j.r n
          (subst (All (AtBit j.depth false)) hx.same
            (All-imp (low_side n left right j min_fits max_fits r_range.0) xs hx.within))
          (subst (All (AtBit j.depth true)) hy.same
            (All-imp (high_side n left right j min_fits max_fits l_range.0) ys hy.within))
          (rw (hx.least, hy.greatest, sym j.least, sym j.greatest) j.differs)
          (ap (combine_on c bits fuel) (sym hx.same) ∙ e_l)
          (ap (combine_on c bits fuel) (sym hy.same) ∙ e_r) j.joined)

  -- `combine` puts the tree of a cut together again.
  pub combine_on-Cut :
      (fuel : ℕ) {n : Node} {xs : List Commitment} {m : Commitment}
      → Cut n xs
      → IsCanonical c bits n
      → commitment n ≡ some m
      → length xs < fuel
      → combine_on c bits fuel xs ≡ ok (some m)
  unfolding combine_on
  combine_on-Cut zero cut h e lt = absurd (omega arith)
  combine_on-Cut (suc fuel) Cut.nothing h e lt = absurd (cc)
  combine_on-Cut (suc fuel) (Cut.leaf n) h e lt = ap ok e
  combine_on-Cut (suc fuel) (Cut.whole n left right) h e lt = ap ok e
  combine_on-Cut (suc fuel) {m = m}
        (Cut.inner n {left = left} {right = right} {xs = xs} {ys = ys} cl cr) h e lt =
      let j : Joins c bits n left right = h.0 in
      let hx : Covers c bits j.l xs = Cut-Covers c bits cl h.1 j.of_left in
      let hy : Covers c bits j.r ys = Cut-Covers c bits cr h.2 j.of_right in
      let total : length (xs ++ ys) ≡ length xs + length ys = length-append xs ys in
      let x_length : length xs ≡ suc (length hx.rest) = ap length hx.same in
      let y_length : length ys ≡ suc (length hy.rest) = ap length hy.same in
      combine_inner fuel n left right xs ys j hx hy (canonical_range c bits left h.1 j.of_left)
        (canonical_range c bits right h.2 j.of_right)
        (combine_on-Cut fuel cl h.1 j.of_left (omega (arith, total, y_length, lt)))
        (combine_on-Cut fuel cr h.2 j.of_right (omega (arith, total, x_length, lt)))
      ∙ ap ok e

  -- `combine` on a cut is the commitment of the tree, an empty one included.
  pub combine-Cut :
      (n : Node) (xs : List Commitment)
      → Cut n xs
      → IsCanonical c bits n
      → combine c bits xs ≡ ok (commitment n)
  unfolding combine combine_on
  combine-Cut Node.empty xs Cut.nothing h = refl
  combine-Cut (Node.leaf n) xs cut h = combine_on-Cut (suc (length xs)) cut h refl (omega arith)
  combine-Cut (Node.branch n left right) xs cut h =
      combine_on-Cut (suc (length xs)) cut h refl (omega arith)

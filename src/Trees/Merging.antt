-- ===== src/Trees/Merging.antt =====
-- Commitments with ranges apart, and the merge of two lists of them.
use zk_clob.Prelude.{
  ℕ, ◌<◌, ◌≤◌, ◌≡◌, refl, ap, false, List, [], ◌∷◌, any, any_pair, All, All-imp, ltb, arith,
}
use zk_clob.Hashing.{Crypto}
use zk_clob.Trees.Node.{Commitment, Node}
use zk_clob.Trees.Patricia.{PatriciaLeaf, merge_nodes}
use zk_clob.Trees.Built.{IsCanonical}
use zk_clob.Trees.Cut.{Cut, overlaps, Within, Covers, Cut-Covers}
use zk_clob.Trees.Sides.{Interleaved}

abbrev IsRange : Commitment → Type 0
IsRange x = x.min_key ≤ x.max_key

-- Ranges in ascending order, each apart from all later ones.
abbrev pub IsSpread : List Commitment → Type 0
IsSpread [] = Unit
IsSpread (x ∷ xs) =
    (x.min_key ≤ x.max_key) × All (λ (y : Commitment). x.max_key < y.min_key) xs × IsSpread xs

head_before :
    (x y : Commitment) (ys : List Commitment)
    → x.max_key < y.min_key
    → IsSpread (y ∷ ys)
    → All (λ (z : Commitment). x.max_key < z.min_key) (y ∷ ys)
head_before x y ys lt h = (lt, All-imp (λ z after. omega (arith, lt, h.0, after)) ys h.1)

IsSpread-of_ordered :
    (xs : List Commitment) → All IsRange xs → any_pair overlaps xs ≡ false → IsSpread xs
IsSpread-of_ordered [] ranges e = tt
IsSpread-of_ordered (x ∷ []) ranges e = (ranges.0, tt, tt)
IsSpread-of_ordered (x ∷ y ∷ ys) ranges e =
    let rest : IsSpread (y ∷ ys) = IsSpread-of_ordered (y ∷ ys) ranges.1 (ground arith) in
    (ranges.0, head_before x y ys (ground arith) rest, rest)

pub ordered_of_IsSpread : (xs : List Commitment) → IsSpread xs → any_pair overlaps xs ≡ false
ordered_of_IsSpread [] h = refl
ordered_of_IsSpread (x ∷ []) h = refl
ordered_of_IsSpread (x ∷ y ∷ ys) h = ground (arith, ordered_of_IsSpread (y ∷ ys) h.2)

pub ranges_of_IsSpread :
    (xs : List Commitment)
    → IsSpread xs
    → any (λ (x : Commitment). ltb x.max_key x.min_key) xs ≡ false
ranges_of_IsSpread [] h = refl
ranges_of_IsSpread (x ∷ xs) h = ground (arith, ranges_of_IsSpread xs h.2)

covered :
    (c : Crypto) (bits : ℕ) (m : Commitment) (xs : List Commitment)
    → Covers c bits m xs
    → IsSpread xs
covered c bits m xs h =
    IsSpread-of_ordered xs (All-imp (λ x (w : Within c bits m x). w.1) xs h.within) h.ordered

pub Cut-IsSpread :
    (c : Crypto) (bits : ℕ) (n : Node) (xs : List Commitment)
    → Cut n xs
    → IsCanonical c bits n
    → IsSpread xs
Cut-IsSpread c bits Node.empty xs Cut.nothing h = tt
Cut-IsSpread c bits (Node.leaf n) xs cut h = covered c bits n xs (Cut-Covers c bits cut h refl)
Cut-IsSpread c bits (Node.branch n l r) xs cut h =
    covered c bits n xs (Cut-Covers c bits cut h refl)

-- What holds of the whole holds of both parts.
Interleaved-All :
    (P : Commitment → Type 0) {xs ys zs : List Commitment}
    → Interleaved xs ys zs
    → All P zs
    → All P xs × All P ys
Interleaved-All P Interleaved.done h = (tt, tt)
Interleaved-All P (Interleaved.left x i) h =
    let rest = Interleaved-All P i h.1 in ((h.0, rest.0), rest.1)
Interleaved-All P (Interleaved.right y i) h =
    let rest = Interleaved-All P i h.1 in (rest.0, (h.0, rest.1))

pub Interleaved-IsSpread :
    {xs ys zs : List Commitment} → Interleaved xs ys zs → IsSpread zs → IsSpread ys
Interleaved-IsSpread Interleaved.done h = tt
Interleaved-IsSpread (Interleaved.left x i) h = Interleaved-IsSpread i h.2
Interleaved-IsSpread (Interleaved.right y i) h =
    (h.0, (Interleaved-All (λ z. y.max_key < z.min_key) i h.1).1, Interleaved-IsSpread i h.2)

module _ (c : Crypto) (bits : ℕ) {L : Type 0} (leaves : PatriciaLeaf L) where
  merge_left :
      (x : Commitment) (xs ys zs : List Commitment)
      → x.min_key ≤ x.max_key
      → All (λ (y : Commitment). x.max_key < y.min_key) ys
      → merge_nodes c bits leaves xs ys ≡ zs
      → merge_nodes c bits leaves (x ∷ xs) ys ≡ x ∷ zs
  unfolding merge_nodes
  merge_left x xs [] zs range before e = ap (λ ws. x ∷ ws) e
  merge_left x xs (y ∷ ys) zs range before e = ground (arith, e)

  merge_right :
      (y : Commitment) (xs ys zs : List Commitment)
      → y.min_key ≤ y.max_key
      → All (λ (x : Commitment). y.max_key < x.min_key) xs
      → merge_nodes c bits leaves xs ys ≡ zs
      → merge_nodes c bits leaves xs (y ∷ ys) ≡ y ∷ zs
  unfolding merge_nodes
  merge_right y [] ys zs range before e = ap (λ ws. y ∷ ws) e
  merge_right y (x ∷ xs) ys zs range before e = ground (arith, e)

  -- Merging two parts of a spread list gives it back.
  pub merge_nodes-Interleaved :
      {xs ys zs : List Commitment}
      → Interleaved xs ys zs
      → IsSpread zs
      → merge_nodes c bits leaves xs ys ≡ zs
  unfolding merge_nodes
  merge_nodes-Interleaved Interleaved.done h = refl
  merge_nodes-Interleaved (Interleaved.left x {xs = xs} {ys = ys} {zs = zs} i) h =
      merge_left x xs ys zs h.0 (Interleaved-All (λ z. x.max_key < z.min_key) i h.1).1
        (merge_nodes-Interleaved i h.2)
  merge_nodes-Interleaved (Interleaved.right y {xs = xs} {ys = ys} {zs = zs} i) h =
      merge_right y xs ys zs h.0 (Interleaved-All (λ z. y.max_key < z.min_key) i h.1).0
        (merge_nodes-Interleaved i h.2)

-- ===== src/Trees/Unique.antt =====
-- A canonical tree is determined by its leaves.
use mathlib.Core.Path.{subst}
use mathlib.Core.List.{append-nil}
use zk_clob.Prelude.{
  ℕ, ◌^◌, ◌<◌, ◌≤◌, ◌≡◌, refl, sym, ap, ◌∙◌, true, false, some, List, [], ◌∷◌, ◌++◌, All, All-imp,
  arith,
}
use zk_clob.Hashing.{Crypto}
use zk_clob.Trees.Node.{Commitment, Node, commitment}
use zk_clob.Trees.Parts.{last}
use zk_clob.Trees.Built.{leaves_of, IsCanonical}
use zk_clob.Trees.Cut.{Covers, canonical_range, Cut-Covers, leaves_of-Cut}
use zk_clob.Trees.Combine.{AtBit, low_side, high_side}
use zk_clob.Trees.Parts.{Meets, meets}

module _ (c : Crypto) (bits : ℕ) where
  pub leaves-Covers :
      (n : Node) {m : Commitment}
      → IsCanonical c bits n
      → commitment n ≡ some m
      → Covers c bits m (leaves_of n)
  leaves-Covers n h e = Cut-Covers c bits (leaves_of-Cut n) h e

  -- What covers a range determines its ends.
  pub same_ends :
      (n m : Commitment) (xs ys : List Commitment)
      → xs ≡ ys
      → Covers c bits n xs
      → Covers c bits m ys
      → (n.min_key ≡ m.min_key) × (n.max_key ≡ m.max_key)
  same_ends n m xs ys e h k =
      let lists : h.first ∷ h.rest ≡ k.first ∷ k.rest = sym h.same ∙ e ∙ k.same in
      let firsts : h.first ≡ k.first = cc in
      let rests : h.rest ≡ k.rest = cc in
      (
        sym h.least ∙ ap (λ (x : Commitment). x.min_key) firsts ∙ k.least,
        sym h.greatest
            ∙ ap (λ (x : Commitment). x.max_key)
                (let ends : last h.first h.rest ≡ last k.first k.rest = cc in ends)
            ∙ k.greatest,
      )

  -- The bit of a branch tells its leaves apart.
  pub branch_fits :
      (n : Commitment) (l r : Node)
      → IsCanonical c bits (Node.branch n l r)
      → (n.min_key < 2 ^ bits) × (n.max_key < 2 ^ bits) × (n.min_key ≤ n.max_key)
  branch_fits n l r h =
      let range : (n.min_key ≤ n.max_key) × (n.max_key < 2 ^ bits) =
        canonical_range c bits (Node.branch n l r) h refl in
      (omega (arith, range.0, range.1), range.1, range.0)

  pub low_leaves :
      (n : Commitment) (l r : Node) (h : IsCanonical c bits (Node.branch n l r))
      → All (AtBit c bits h.0.depth false) (leaves_of l)
  low_leaves n l r h =
      let fits : (n.min_key < 2 ^ bits) × (n.max_key < 2 ^ bits) × (n.min_key ≤ n.max_key) =
        branch_fits n l r h in
      All-imp
        (low_side c bits n l r h.0 fits.0 fits.1 (canonical_range c bits r h.2 h.0.of_right).0)
        (leaves_of l) (leaves-Covers l h.1 h.0.of_left).within

  pub high_leaves :
      (n : Commitment) (l r : Node) (h : IsCanonical c bits (Node.branch n l r))
      → All (AtBit c bits h.0.depth true) (leaves_of r)
  high_leaves n l r h =
      let fits : (n.min_key < 2 ^ bits) × (n.max_key < 2 ^ bits) × (n.min_key ≤ n.max_key) =
        branch_fits n l r h in
      All-imp
        (high_side c bits n l r h.0 fits.0 fits.1 (canonical_range c bits l h.1 h.0.of_left).0)
        (leaves_of r) (leaves-Covers r h.2 h.0.of_right).within

  -- No leaf is on both sides.
  both_sides :
      (d : ℕ) (x : Commitment) (xs ys zs : List Commitment)
      → All (AtBit c bits d false) (xs ++ (x ∷ ys))
      → All (AtBit c bits d true) ((x ∷ ys) ++ zs)
      → ⊥
  both_sides d x [] ys zs low high = let bad : false ≡ true = sym low.0.0 ∙ high.0.0 in absurd (cc)
  both_sides d x (y ∷ xs) ys zs low high = both_sides d x xs ys zs low.1 high

  -- The children of branches with the same leaves have the same leaves.
  same_halves :
      (d : ℕ) (xs ys xs' ys' : List Commitment)
      → All (AtBit c bits d false) xs
      → All (AtBit c bits d true) ys
      → All (AtBit c bits d false) xs'
      → All (AtBit c bits d true) ys'
      → Meets xs ys xs' ys'
      → (xs ≡ xs') × (ys ≡ ys')
  same_halves d xs ys xs' ys' low high low' high' (Meets.later [] e f) =
      (sym (e ∙ append-nil xs), f)
  same_halves d xs ys xs' ys' low high low' high' (Meets.later (x ∷ p) e f) = absurd (
      both_sides d x xs p ys' (subst (All (AtBit c bits d false)) e low')
        (subst (All (AtBit c bits d true)) f high))
  same_halves d xs ys xs' ys' low high low' high' (Meets.sooner x q e f) = absurd (
      both_sides d x xs' q ys (subst (All (AtBit c bits d false)) e low)
        (subst (All (AtBit c bits d true)) f high'))

  one_leaf : (n x y : Commitment) (xs ys : List Commitment) → n ∷ [] ≡ (x ∷ xs) ++ (y ∷ ys) → ⊥
  one_leaf n x y [] ys e = cc
  one_leaf n x y (z ∷ xs) ys e = cc

  two_leaves :
      (n m : Commitment) (l r : Node)
      → IsCanonical c bits (Node.branch m l r)
      → n ∷ [] ≡ leaves_of (Node.branch m l r)
      → ⊥
  two_leaves n m l r h e =
      let left : Covers c bits h.0.l (leaves_of l) = leaves-Covers l h.1 h.0.of_left in
      let right : Covers c bits h.0.r (leaves_of r) = leaves-Covers r h.2 h.0.of_right in
      one_leaf n left.first right.first left.rest right.rest (
        e
        ∙ ap (λ xs. xs ++ leaves_of r) left.same
        ∙ ap (λ ys. (left.first ∷ left.rest) ++ ys) right.same)

  no_leaf :
      (m : Commitment) (l r : Node)
      → IsCanonical c bits (Node.branch m l r)
      → [] ≡ leaves_of (Node.branch m l r)
      → ⊥
  no_leaf m l r h e =
      let whole : Covers c bits m (leaves_of (Node.branch m l r)) =
        leaves-Covers (Node.branch m l r) h refl in
      let bad : [] ≡ whole.first ∷ whole.rest = e ∙ whole.same in absurd (cc)

  same_branch :
      (n m : Commitment) (l r l' r' : Node)
      → IsCanonical c bits (Node.branch n l r)
      → IsCanonical c bits (Node.branch m l' r')
      → l ≡ l'
      → r ≡ r'
      → Node.branch n l r ≡ Node.branch m l' r'
  same_branch n m l r l' r' h k el er =
      let lefts : h.0.l ≡ k.0.l = cc (h.0.of_left, k.0.of_left) in
      let rights : h.0.r ≡ k.0.r = cc (h.0.of_right, k.0.of_right) in
      let tops : n ≡ m = cc (h.0.joined, k.0.joined) in cc

  pub canonical_unique :
      (t u : Node) → IsCanonical c bits t → IsCanonical c bits u → leaves_of t ≡ leaves_of u → t ≡ u
  canonical_unique Node.empty Node.empty h k e = refl
  canonical_unique Node.empty (Node.leaf m) h k e = cc
  canonical_unique Node.empty (Node.branch m l' r') h k e = absurd (no_leaf m l' r' k e)
  canonical_unique (Node.leaf n) Node.empty h k e = cc
  canonical_unique (Node.leaf n) (Node.leaf m) h k e = cc
  canonical_unique (Node.leaf n) (Node.branch m l' r') h k e = absurd (two_leaves n m l' r' k e)
  canonical_unique (Node.branch n l r) Node.empty h k e = absurd (no_leaf n l r h (sym e))
  canonical_unique (Node.branch n l r) (Node.leaf m) h k e = absurd (two_leaves m n l r h (sym e))
  canonical_unique (Node.branch n l r) (Node.branch m l' r') h k e =
      let ends : (n.min_key ≡ m.min_key) × (n.max_key ≡ m.max_key) =
        same_ends n m (leaves_of (Node.branch n l r)) (leaves_of (Node.branch m l' r')) e
          (leaves-Covers (Node.branch n l r) h refl) (leaves-Covers (Node.branch m l' r') k refl) in
      let depths : some h.0.depth ≡ some k.0.depth =
        sym h.0.differs ∙ rw (ends.0, ends.1) refl ∙ k.0.differs in
      let depth : k.0.depth ≡ h.0.depth = cc in
      let halves : (leaves_of l ≡ leaves_of l') × (leaves_of r ≡ leaves_of r') =
        same_halves h.0.depth (leaves_of l) (leaves_of r) (leaves_of l') (leaves_of r')
          (low_leaves n l r h) (high_leaves n l r h)
          (subst (λ d. All (AtBit c bits d false) (leaves_of l')) depth (low_leaves m l' r' k))
          (subst (λ d. All (AtBit c bits d true) (leaves_of r')) depth (high_leaves m l' r' k))
          (meets (leaves_of l) (leaves_of r) (leaves_of l') (leaves_of r') e) in
      same_branch n m l r l' r' h k (canonical_unique l l' h.1 k.1 halves.0)
        (canonical_unique r r' h.2 k.2 halves.1)

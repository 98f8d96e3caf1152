-- ===== src/Trees/Cut.antt =====
-- Cuts through a tree of crates/core/src/trees/patricia.rs.
use zk_clob.Prelude.{
  ℕ, ◌^◌, ◌<◌, ◌≤◌, ◌≡◌, refl, sym, ap, ◌∙◌, Bool, false, some, List, [], ◌∷◌, ◌++◌, any_pair, All,
  All-imp, leb, arith,
}
use zk_clob.Hashing.{Crypto}
use zk_clob.Trees.Node.{Commitment, Node, commitment}
use zk_clob.Trees.Parts.{last, last-append, All-append}
use zk_clob.Trees.Built.{leaves_of, IsCanonical}

-- The commitments of subtrees that cover a tree, from the left.
pub data Cut : Node → List Commitment → Type 0 where
  nothing : Cut Node.empty []
  leaf : (n : Commitment) → Cut (Node.leaf n) (n ∷ [])
  whole : (n : Commitment) (left right : Node) → Cut (Node.branch n left right) (n ∷ [])
  inner :
      (n : Commitment) {left right : Node} {xs ys : List Commitment}
      → Cut left xs
      → Cut right ys
      → Cut (Node.branch n left right) (xs ++ ys)

-- Whether a range follows another with a gap.
abbrev pub overlaps : Commitment → Commitment → Bool
overlaps x y = leb y.min_key x.max_key

any_pair-append :
    (x : Commitment) (xs : List Commitment) (y : Commitment) (ys : List Commitment)
    → any_pair overlaps (x ∷ xs) ≡ false
    → any_pair overlaps (y ∷ ys) ≡ false
    → overlaps (last x xs) y ≡ false
    → any_pair overlaps ((x ∷ xs) ++ (y ∷ ys)) ≡ false
any_pair-append x [] y ys hx hy gap = rw gap hy
any_pair-append x (z ∷ zs) y ys hx hy gap =
    ground (arith, any_pair-append z zs y ys (ground arith) hy gap)

module _ (c : Crypto) (bits : ℕ) where
  pub canonical_range :
      (n : Node) {m : Commitment}
      → IsCanonical c bits n
      → commitment n ≡ some m
      → (m.min_key ≤ m.max_key) × (m.max_key < 2 ^ bits)
  canonical_range Node.empty h e = absurd (cc)
  canonical_range (Node.leaf n) {m = m} h e =
      let same : n ≡ m = cc in rw (sym same) (omega (arith, h.0), h.1)
  canonical_range (Node.branch n left right) {m = m} h e =
      let same : n ≡ m = cc in
      rw (sym same) (
        omega (
          arith,
          h.0.least,
          h.0.greatest,
          h.0.apart,
          canonical_range left h.1 h.0.of_left,
          canonical_range right h.2 h.0.of_right,
        ),
        omega (arith, h.0.greatest, canonical_range right h.2 h.0.of_right),
      )

  abbrev pub Within : Commitment → Commitment → Type 0
  Within m x = (m.min_key ≤ x.min_key) × (x.min_key ≤ x.max_key) × (x.max_key ≤ m.max_key)

  -- A cut covers the range of its tree, in order.
  pub record Covers (m : Commitment) (xs : List Commitment) : Type 0 where
    pub first : Commitment
    pub rest : List Commitment
    pub same : xs ≡ first ∷ rest
    pub least : first.min_key ≡ m.min_key
    pub greatest : (last first rest).max_key ≡ m.max_key
    pub within : All (Within m) xs
    pub ordered : any_pair overlaps xs ≡ false

  one-Covers : (n m : Commitment) → n ≡ m → m.min_key ≤ m.max_key → Covers m (n ∷ [])
  one-Covers n m same le =
      let min : n.min_key ≡ m.min_key = ap (λ (x : Commitment). x.min_key) same in
      let max : n.max_key ≡ m.max_key = ap (λ (x : Commitment). x.max_key) same in
      record {
        first = n;
        rest = [];
        same = refl;
        least = min;
        greatest = max;
        within = ((omega (arith, min), omega (arith, min, max, le), omega (arith, max)), tt);
        ordered = refl;
      }

  joined-Covers :
      (n l r : Commitment) (xs ys : List Commitment)
      → n.min_key ≡ l.min_key
      → n.max_key ≡ r.max_key
      → l.max_key < r.min_key
      → l.min_key ≤ l.max_key
      → r.min_key ≤ r.max_key
      → Covers l xs
      → Covers r ys
      → Covers n (xs ++ ys)
  joined-Covers n l r xs ys least greatest apart l_le r_le hx hy = record {
    first = hx.first;
    rest = hx.rest ++ ys;
    same = ap (λ zs. zs ++ ys) hx.same;
    least = hx.least ∙ sym least;
    greatest =
        ap (λ zs. (last hx.first (hx.rest ++ zs)).max_key) hy.same
        ∙ ap (λ (x : Commitment). x.max_key) (last-append hx.first hy.first hx.rest hy.rest)
        ∙ hy.greatest
        ∙ sym greatest;
    within =
        All-append (Within n) xs ys
          (All-imp (λ x w. (omega (arith, w.0), w.1, omega (arith, w.2))) xs hx.within)
          (All-imp (λ x w. (omega (arith, w.0), w.1, omega (arith, w.2))) ys hy.within);
    ordered =
        rw (hx.same, hy.same)
          (any_pair-append hx.first hx.rest hy.first hy.rest (rw hx.same at hx.ordered)
            (rw hy.same at hy.ordered) gap);
  }
    where
      gap : overlaps (last hx.first hx.rest) hy.first ≡ false
      gap = rw (hx.greatest, hy.least) (ground arith)

  pub Cut-Covers :
      {n : Node} {xs : List Commitment} {m : Commitment}
      → Cut n xs
      → IsCanonical c bits n
      → commitment n ≡ some m
      → Covers m xs
  Cut-Covers Cut.nothing h e = absurd (cc)
  Cut-Covers {m = m} (Cut.leaf n) h e =
      let same : n ≡ m = cc in one-Covers n m same (canonical_range (Node.leaf n) h e).0
  Cut-Covers {m = m} (Cut.whole n left right) h e =
      let same : n ≡ m = cc in
      one-Covers n m same (canonical_range (Node.branch n left right) h e).0
  Cut-Covers {m = m} (Cut.inner n {left = left} {right = right} {xs = xs} {ys = ys} cl cr) h e =
      let same : n ≡ m = cc in
      rw (sym same) (
        joined-Covers n h.0.l h.0.r xs ys h.0.least h.0.greatest h.0.apart
          (canonical_range left h.1 h.0.of_left).0 (canonical_range right h.2 h.0.of_right).0
          (Cut-Covers cl h.1 h.0.of_left) (Cut-Covers cr h.2 h.0.of_right))

-- All leaves make a cut.
pub leaves_of-Cut : (n : Node) → Cut n (leaves_of n)
leaves_of-Cut Node.empty = Cut.nothing
leaves_of-Cut (Node.leaf n) = Cut.leaf n
leaves_of-Cut (Node.branch n left right) = Cut.inner n (leaves_of-Cut left) (leaves_of-Cut right)

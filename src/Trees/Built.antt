-- ===== src/Trees/Built.antt =====
-- The tree that `build` of crates/core/src/trees/patricia.rs makes of a slice.
use mathlib.Core.List.{map-append}
use zk_clob.Prelude.{
  ℕ, ◌^◌, ◌<◌, ◌≡◌, refl, sym, ap, ◌∙◌, Bool, true, false, not, ◌||◌, some, List, [], ◌∷◌, ◌++◌,
  map, leb, arith,
}
use zk_clob.Types.Errors.{ok, invalid_state_multiproof}
use zk_clob.Types.Results.{Safe_at, Safe, Safe-bind, Any, fail_if-Any, ok_or-Any, fail_if-Safe}
use zk_clob.Hashing.{Crypto}
use zk_clob.Trees.Node.{Commitment, Node, commitment}
use zk_clob.Trees.Patricia.{PatriciaLeaf, bit, differing_bit, branch, leaf_commitment}
use zk_clob.Trees.Parts.{last, Parts}

-- The leaves of a tree, from the left.
abbrev pub leaves_of : Node → List Commitment
leaves_of Node.empty = []
leaves_of (Node.leaf n) = n ∷ []
leaves_of (Node.branch n left right) = leaves_of left ++ leaves_of right

pub not-true : (b : Bool) → not b ≡ true → b ≡ false
not-true true e = cc
not-true false e = refl

pub not-false : (b : Bool) → not b ≡ false → b ≡ true
not-false true e = refl
not-false false e = cc

module _ (c : Crypto) (bits : ℕ) where
  -- A branch covers the ranges of its children, which lie apart, and are told apart by the first bit
  -- where the ends of the range differ.
  pub record Joins (n : Commitment) (left right : Node) : Type 0 where
    pub l : Commitment
    pub r : Commitment
    pub depth : ℕ
    pub of_left : commitment left ≡ some l
    pub of_right : commitment right ≡ some r
    pub joined : branch c bits l r ≡ ok n
    pub least : n.min_key ≡ l.min_key
    pub greatest : n.max_key ≡ r.max_key
    pub apart : l.max_key < r.min_key
    pub differs : differing_bit bits n.min_key n.max_key ≡ some depth
    pub low : bit bits l.max_key depth ≡ false
    pub high : bit bits r.min_key depth ≡ true

  abbrev pub IsCanonical : Node → Type 0
  IsCanonical Node.empty = Unit
  IsCanonical (Node.leaf n) = (n.min_key ≡ n.max_key) × (n.max_key < 2 ^ bits)
  IsCanonical (Node.branch n left right) = Joins n left right × IsCanonical left × IsCanonical right

  -- What `branch` checks and returns.
  abbrev Joined : Commitment → Commitment → Commitment → Type 0
  Joined l r n = (l.max_key < r.min_key) × (n.min_key ≡ l.min_key) × (n.max_key ≡ r.max_key)

  branch_result : (l r : Commitment) → Safe (Joined l r) (branch c bits l r)
  unfolding branch
  branch_result l r =
      Safe-bind (λ _. leb r.min_key l.max_key ≡ false) Q _ _
        (fail_if-Safe (leb r.min_key l.max_key) invalid_state_multiproof)
        (λ _ e.
          Safe-bind Any Q _ _
            (ok_or-Any (differing_bit bits l.max_key r.min_key) invalid_state_multiproof)
            (λ depth _.
              Safe-bind Any Q _ _
                (fail_if-Any
                  (bit bits l.min_key depth
                    || bit bits l.max_key depth
                    || not (bit bits r.min_key depth)
                    || not (bit bits r.max_key depth))
                  invalid_state_multiproof)
                (λ _ _. (ground arith, refl, refl))))
    where
      Q : Commitment → Type 0
      Q = Joined l r

  module _ {L : Type 0} (leaves : PatriciaLeaf L) where
    -- The range of a tree is that of the slice.
    abbrev pub Spans : List L → Node → Type 0
    Spans [] n = n ≡ Node.empty
    Spans (v ∷ vs) n =
        (l : Commitment) × (commitment n ≡ some l)
        × (l.min_key ≡ leaves.key v)
        × (l.max_key ≡ leaves.key (last v vs))

    pub record IsBuiltFrom (values : List L) (n : Node) : Type 0 where
      pub canonical : IsCanonical n
      pub spans : Spans values n
      pub ordered : leaves_of n ≡ map (leaf_commitment c bits leaves) values

    abbrev pub Fits : L → Type 0
    Fits v = leaves.key v < 2 ^ bits

    -- One round of `build`: the trees of the two parts, joined.
    pub joined-IsBuiltFrom :
        (v : L) (vs : List L) (depth split : ℕ)
        (p : Parts (λ x. not (bit bits (leaves.key x) depth)) v vs split)
        → differing_bit bits (leaves.key v) (leaves.key (last v vs)) ≡ some depth
        → (left right : Node) → IsBuiltFrom (v ∷ p.front) left
        → IsBuiltFrom (p.middle ∷ p.back) right
        → (l r n : Commitment) → commitment left ≡ some l
        → commitment right ≡ some r
        → branch c bits l r ≡ ok n
        → IsBuiltFrom (v ∷ vs) (Node.branch n left right)
    joined-IsBuiltFrom v vs depth split p differs left right hl hr l r n of_left of_right joined =
        let checked : Joined l r n =
          Safe_at (Joined l r) (branch c bits l r) n (branch_result l r) joined in
        let same_l : hl.spans.0 ≡ l = cc (hl.spans.1) in
        let same_r : hr.spans.0 ≡ r = cc (hr.spans.1) in
        let l_min : l.min_key ≡ leaves.key v =
          ap (λ (m : Commitment). m.min_key) (sym same_l) ∙ hl.spans.2 in
        let l_max : l.max_key ≡ leaves.key (last v p.front) =
          ap (λ (m : Commitment). m.max_key) (sym same_l) ∙ hl.spans.3 in
        let r_min : r.min_key ≡ leaves.key p.middle =
          ap (λ (m : Commitment). m.min_key) (sym same_r) ∙ hr.spans.2 in
        let r_max : r.max_key ≡ leaves.key (last v vs) =
          ap (λ (m : Commitment). m.max_key) (sym same_r) ∙ hr.spans.3 ∙ ap leaves.key p.ends in
        let n_min : n.min_key ≡ leaves.key v = checked.1 ∙ l_min in
        let n_max : n.max_key ≡ leaves.key (last v vs) = checked.2 ∙ r_max in
        record {
          canonical = (
            record {
              l = l;
              r = r;
              depth = depth;
              of_left = of_left;
              of_right = of_right;
              joined = joined;
              least = checked.1;
              greatest = checked.2;
              apart = checked.0;
              differs = rw (n_min, n_max) differs;
              low = rw l_max (not-true _ p.passes);
              high = rw r_min (not-false _ p.fails);
            },
            hl.canonical,
            hr.canonical,
          );
          spans = (n, refl, n_min, n_max);
          ordered =
              rw (hl.ordered, hr.ordered)
                (sym (map-append (leaf_commitment c bits leaves) (v ∷ p.front) (p.middle ∷ p.back))
                  ∙ ap (map (leaf_commitment c bits leaves)) p.whole);
        }

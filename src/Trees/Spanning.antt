-- ===== src/Trees/Spanning.antt =====
-- A subtree with leaves on both sides of a branch.
use mathlib.Core.Path.{subst}
use mathlib.Core.List.{append-nil, append_assoc}
use zk_clob.Prelude.{
  All-imp_both, ℕ, ◌^◌, ◌<◌, ◌≤◌, ◌≡◌, refl, sym, ap, ◌∙◌, true, false, some, List, [], ◌∷◌, ◌++◌,
  All, All-imp, arith,
}
use zk_clob.Hashing.{Crypto}
use zk_clob.Trees.Node.{Commitment, Node, commitment}
use zk_clob.Trees.Patricia.{differing_bit}
use zk_clob.Trees.Differing.{Parted-of_differs, Parted-within}
use zk_clob.Trees.Parts.{last, last-append, All-append}
use zk_clob.Trees.Built.{leaves_of, IsCanonical}
use zk_clob.Trees.Cut.{Within, Covers, canonical_range, leaves_of-Cut}
use zk_clob.Trees.Combine.{AtBit}
use zk_clob.Trees.Apart.{ClosedTo, before_within}
use zk_clob.Trees.Merging.{IsSpread, Cut-IsSpread}
use zk_clob.Trees.Unique.{leaves-Covers, branch_fits, canonical_unique}
use zk_clob.Trees.Rows.{All-left, All-right, All-last}

module _ (c : Crypto) (bits : ℕ) where
  IsSpread-right : (xs ys : List Commitment) → IsSpread (xs ++ ys) → IsSpread ys
  IsSpread-right [] ys h = h
  IsSpread-right (x ∷ xs) ys h = IsSpread-right xs ys h.2

  front_empty :
      (xs : List Commitment) (a : Commitment) (ys : List Commitment)
      → IsSpread (xs ++ (a ∷ ys))
      → All (λ (x : Commitment). a.min_key ≤ x.min_key) xs
      → xs ≡ []
  front_empty [] a ys h k = refl
  front_empty (x ∷ xs) a ys h k =
      let after : All (λ (y : Commitment). x.max_key < y.min_key) (a ∷ ys) =
        All-right (λ (y : Commitment). x.max_key < y.min_key) xs (a ∷ ys) h.1 in
      absurd (omega (arith, after.0, k.0, h.0))

  back_empty :
      (b : Commitment) (q zs : List Commitment)
      → IsSpread ((b ∷ q) ++ zs)
      → All (λ (z : Commitment). z.min_key ≤ (last b q).max_key) zs
      → zs ≡ []
  back_empty b [] [] h k = refl
  back_empty b [] (z ∷ zs) h k = absurd (omega (arith, h.1.0, k.0))
  back_empty b (x ∷ q) zs h k = back_empty x q zs h.2 k

  -- Leaves are ranges of one key.
  leaf_points :
      (n : Node)
      → IsCanonical c bits n
      → All (λ (x : Commitment). x.min_key ≡ x.max_key) (leaves_of n)
  leaf_points Node.empty h = tt
  leaf_points (Node.leaf n) h = (h.0, tt)
  leaf_points (Node.branch n l r) h =
      All-append (λ (x : Commitment). x.min_key ≡ x.max_key) (leaves_of l) (leaves_of r)
        (leaf_points l h.1) (leaf_points r h.2)

  -- A subtree with leaves on both sides of a branch reaches over all of its leaves.
  module _ (n : Commitment) (l r : Node) (h : IsCanonical c bits (Node.branch n l r)) (t : Node)
      (s : Commitment) (k : IsCanonical c bits t) (of_t : commitment t ≡ some s) (a : Commitment)
      (p : List Commitment) (b : Commitment) (q : List Commitment)
      (leaves_t : leaves_of t ≡ (a ∷ p) ++ (b ∷ q)) (a_low : AtBit c bits h.0.depth false a)
      (b_high : All (AtBit c bits h.0.depth true) (b ∷ q)) (a_in : Within c bits n a)
      (b_in : All (Within c bits n) (b ∷ q))
      (closed : All (ClosedTo bits s) (leaves_of (Node.branch n l r))) where
    ends_of_t : (s.min_key ≡ a.min_key) × (s.max_key ≡ (last b q).max_key)
    ends_of_t =
        let covers : Covers c bits s (leaves_of t) = leaves-Covers c bits t k of_t in
        let lists : covers.first ∷ covers.rest ≡ a ∷ (p ++ (b ∷ q)) = sym covers.same ∙ leaves_t in
        let firsts : covers.first ≡ a = cc in
        let rests : covers.rest ≡ p ++ (b ∷ q) = cc in
        (
          sym covers.least ∙ ap (λ (x : Commitment). x.min_key) firsts,
          sym covers.greatest
              ∙ ap (λ (x : Commitment). x.max_key)
                  ((let ends : last covers.first covers.rest ≡ last a (p ++ (b ∷ q)) = cc in ends)
                    ∙ last-append a b p q),
        )

    t_differs : differing_bit bits s.min_key s.max_key ≡ some h.0.depth
    t_differs =
        let fits : (n.min_key < 2 ^ bits) × (n.max_key < 2 ^ bits) × (n.min_key ≤ n.max_key) =
          branch_fits c bits n l r h in
        let final_high : AtBit c bits h.0.depth true (last b q) =
          All-last (AtBit c bits h.0.depth true) b q b_high in
        let final_in : Within c bits n (last b q) = All-last (Within c bits n) b q b_in in
        (Parted-within bits n.min_key n.max_key h.0.depth s.min_key s.max_key fits.0 fits.1
          (Parted-of_differs bits n.min_key n.max_key h.0.depth fits.0 fits.1 fits.2 h.0.differs)
          (omega (arith, ends_of_t.0, a_in.0)) (canonical_range c bits t k of_t).0
          (omega (arith, ends_of_t.1, final_in.2)) (rw ends_of_t.0 a_low.0)
          (rw ends_of_t.1 final_high.1)).differs

    pub spans_all : All (Within c bits s) (leaves_of (Node.branch n l r))
    spans_all =
        let fits : (n.min_key < 2 ^ bits) × (n.max_key < 2 ^ bits) × (n.min_key ≤ n.max_key) =
          branch_fits c bits n l r h in
        let tree : Node = Node.branch n l r in
        let s_in : n.min_key ≤ s.min_key = omega (arith, ends_of_t.0, a_in.0) in
        let s_range : s.min_key ≤ s.max_key = (canonical_range c bits t k of_t).0 in
        let s_end : s.max_key ≤ n.max_key =
          (let final_in : Within c bits n (last b q) = All-last (Within c bits n) b q b_in in
            omega (arith, ends_of_t.1, final_in.2)) in
        let near : (x : Commitment)
            → ClosedTo bits s x
            → Within c bits n x
            → (s.min_key ≤ x.min_key) × (x.min_key ≤ s.max_key) =
          λ x shut w. shut h.0.depth t_differs (
            before_within bits n.min_key n.max_key h.0.depth x.min_key fits.0 fits.1 h.0.differs w.0
              (omega (arith, w.1, w.2))
            ∙ sym (
                before_within bits n.min_key n.max_key h.0.depth s.min_key fits.0 fits.1 h.0.differs
                  s_in (omega (arith, s_range, s_end)))) in
        All-imp_both
          (λ x (w : (s.min_key ≤ x.min_key) × (x.min_key ≤ s.max_key))
              (same : x.min_key ≡ x.max_key).
            (w.0, omega (arith, same), omega (arith, same, w.1)))
          (leaves_of tree)
          (All-imp_both near (leaves_of tree) closed (leaves-Covers c bits tree h refl).within)
          (leaf_points tree h)

    -- So that it is the whole tree, if it stands among its leaves.
    pub whole_of_spans :
        (us vs : List Commitment)
        → leaves_of (Node.branch n l r) ≡ us ++ (leaves_of t ++ vs)
        → (us ≡ []) × (vs ≡ []) × (Node.branch n l r ≡ t)
    whole_of_spans us vs e =
        let tree : Node = Node.branch n l r in
        let list : leaves_of tree ≡ us ++ ((a ∷ p) ++ ((b ∷ q) ++ vs)) =
          e
          ∙ ap (λ xs. us ++ (xs ++ vs)) leaves_t
          ∙ ap (λ xs. us ++ xs) (append_assoc (a ∷ p) (b ∷ q) vs) in
        let spread : IsSpread (us ++ ((a ∷ p) ++ ((b ∷ q) ++ vs))) =
          subst IsSpread list (Cut-IsSpread c bits tree (leaves_of tree) (leaves_of-Cut tree) h) in
        let near : All (Within c bits s) (us ++ ((a ∷ p) ++ ((b ∷ q) ++ vs))) =
          subst (All (Within c bits s)) list spans_all in
        let front : us ≡ [] = front_empty us a (p ++ ((b ∷ q) ++ vs)) spread (
          All-imp (λ x (w : Within c bits s x). omega (arith, w.0, ends_of_t.0)) us
            (All-left (Within c bits s) us ((a ∷ p) ++ ((b ∷ q) ++ vs)) near)) in
        let back : vs ≡ [] =
          back_empty b q vs
            (IsSpread-right (a ∷ p) ((b ∷ q) ++ vs)
              (IsSpread-right us ((a ∷ p) ++ ((b ∷ q) ++ vs)) spread))
            (All-imp (λ x (w : Within c bits s x). omega (arith, w.1, w.2, ends_of_t.1)) vs
              (All-right (Within c bits s) (b ∷ q) vs (
                All-right (Within c bits s) (a ∷ p) ((b ∷ q) ++ vs)
                  (All-right (Within c bits s) us ((a ∷ p) ++ ((b ∷ q) ++ vs)) near)))) in
        let leaves_same : leaves_of tree ≡ leaves_of t =
          e ∙ rw (front, back) (append-nil (leaves_of t)) in
        (front, back, canonical_unique c bits tree t h k leaves_same)

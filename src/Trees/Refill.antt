-- ===== src/Trees/Refill.antt =====
-- Side nodes of one tree in another with the same leaves outside of the selected keys.
use mathlib.Core.Path.{subst}
use zk_clob.Prelude.{
  ℕ, ◌^◌, ◌<◌, ◌≡◌, refl, sym, ap, ◌∙◌, Bool, true, false, some, List, [], ◌∷◌, ◌++◌, All, All-imp,
  retain, inl, inr, Bool-cases,
}
use zk_clob.Hashing.{Crypto}
use zk_clob.Trees.Node.{Commitment, Node, commitment}
use zk_clob.Trees.Patricia.{PatriciaLeaf, selected_in}
use zk_clob.Trees.Parts.{All-append}
use zk_clob.Trees.Built.{leaves_of, IsCanonical}
use zk_clob.Trees.Cut.{Cut, Within}
use zk_clob.Trees.Combine.{AtBit}
use zk_clob.Trees.Sides.{Interleaved, Interleaved-append, Fills, retain-append, retain_none}
use zk_clob.Trees.Apart.{all_leaves, all_leaves-append, Heads, ClosedTo}
use zk_clob.Trees.Hanging.{other, retain_all, unselected_leaves}
use zk_clob.Trees.Straddle.{Splitting, splitting}
use zk_clob.Trees.Unique.{leaves-Covers, low_leaves, high_leaves}
use zk_clob.Trees.Rows.{
  All-left, All-right, All-retain, HeadsSplit, split-Heads, no_trees, single_tree,
}
use zk_clob.Trees.Spanning.{spans_all, whole_of_spans}
use zk_clob.Settlement.Validation.Accounts.Ledger.{IsAscending}

module _ (c : Crypto) (bits : ℕ) where
  module _ {L : Type 0} (leaves : PatriciaLeaf L) (keys : List ℕ) (ascending : IsAscending keys)
      (key_fits : All (λ k. k < 2 ^ bits) keys) where
    abbrev chosen_leaf : Commitment → Bool
    chosen_leaf = selected_in c bits leaves keys

    abbrev other_leaf : Commitment → Bool
    other_leaf = other c bits leaves keys ascending key_fits

    -- A tree without a selected leaf is filled by itself.
    whole_Fills :
        (n : Commitment) (l r : Node)
        → IsCanonical c bits (Node.branch n l r)
        → chosen_leaf n ≡ false
        → Fills c bits leaves keys ascending (Node.branch n l r) (n ∷ [])
    whole_Fills n l r h none_selected =
        let tree : Node = Node.branch n l r in
        let rest : retain chosen_leaf (leaves_of tree) ≡ [] =
          retain_none chosen_leaf (leaves_of tree) (
            unselected_leaves c bits leaves keys ascending key_fits n (leaves_of tree)
              (leaves-Covers c bits tree h refl).within none_selected) in
        record {
          nodes = n ∷ [];
          cut = Cut.whole n l r;
          merged = rw rest (Interleaved.right n Interleaved.done);
          unselected = (none_selected, tt);
        }

    -- A border through a subtree: it is the whole tree.
    through_Fills :
        (n : Commitment) (l r : Node) (h : IsCanonical c bits (Node.branch n l r)) (us : List Node)
        (t : Node) (vs : List Node) (ss : List Commitment) (s : Commitment) (ss' : List Commitment)
        → Heads us ss
        → commitment t ≡ some s
        → Heads vs ss'
        → All (IsCanonical c bits) (us ++ (t ∷ vs))
        → retain other_leaf (leaves_of (Node.branch n l r)) ≡ all_leaves (us ++ (t ∷ vs))
        → All (λ x. chosen_leaf x ≡ false) (ss ++ (s ∷ ss'))
        → (a : Commitment) (p : List Commitment) (b : Commitment) (q : List Commitment)
        → leaves_of t ≡ (a ∷ p) ++ (b ∷ q)
        → AtBit c bits h.0.depth false a
        → All (AtBit c bits h.0.depth true) (b ∷ q)
        → Within c bits n a
        → All (Within c bits n) (b ∷ q)
        → All (λ x. All (ClosedTo bits x) (leaves_of (Node.branch n l r))) (ss ++ (s ∷ ss'))
        → Fills c bits leaves keys ascending (Node.branch n l r) (ss ++ (s ∷ ss'))
    through_Fills n l r h us t vs ss s ss' of_us of_t of_vs canonical rest unselected a p b q
          leaves_t a_low b_high a_in b_in closed =
        let tree : Node = Node.branch n l r in
        let k : IsCanonical c bits t = (All-right (IsCanonical c bits) us (t ∷ vs) canonical).0 in
        let s_unselected : chosen_leaf s ≡ false =
          (All-right (λ x. chosen_leaf x ≡ false) ss (s ∷ ss') unselected).0 in
        let s_closed : All (ClosedTo bits s) (leaves_of tree) =
          (All-right (λ x. All (ClosedTo bits x) (leaves_of tree)) ss (s ∷ ss') closed).0 in
        let none : retain other_leaf (leaves_of tree) ≡ leaves_of tree =
          retain_all c bits leaves keys ascending key_fits (leaves_of tree) (
            unselected_leaves c bits leaves keys ascending key_fits s (leaves_of tree)
              (spans_all c bits n l r h t s k of_t a p b q leaves_t a_low b_high a_in b_in s_closed)
              s_unselected) in
        let whole : (all_leaves us ≡ []) × (all_leaves vs ≡ []) × (tree ≡ t) =
          whole_of_spans c bits n l r h t s k of_t a p b q leaves_t a_low b_high a_in b_in s_closed
            (all_leaves us) (all_leaves vs) (sym none ∙ rest ∙ all_leaves-append us (t ∷ vs)) in
        let front : (us ≡ []) × (ss ≡ []) =
          no_trees c bits us ss of_us (All-left (IsCanonical c bits) us (t ∷ vs) canonical)
            whole.0 in
        let back : (vs ≡ []) × (ss' ≡ []) =
          no_trees c bits vs ss' of_vs (All-right (IsCanonical c bits) us (t ∷ vs) canonical).1
            whole.1 in
        let tops : some n ≡ some s = ap commitment whole.2 ∙ of_t in
        let same : n ≡ s = cc in
        let sides : n ∷ [] ≡ ss ++ (s ∷ ss') = rw (front.1, back.1, same) refl in
        subst (Fills c bits leaves keys ascending tree) sides
          (whole_Fills n l r h (rw same s_unselected))

    first_of_retained :
        (P : Commitment → Type 0) (xs : List Commitment) (us : List Node) (a : Commitment)
        (p : List Commitment)
        → retain other_leaf xs ≡ all_leaves us ++ (a ∷ p)
        → All P xs
        → P a
    first_of_retained P xs us a p e k =
        (All-right P (all_leaves us) (a ∷ p) (subst (All P) e (All-retain P other_leaf xs k))).0

    rest_of_retained :
        (P : Commitment → Type 0) (xs : List Commitment) (vs : List Node) (b : Commitment)
        (q : List Commitment)
        → retain other_leaf xs ≡ (b ∷ q) ++ all_leaves vs
        → All P xs
        → All P (b ∷ q)
    rest_of_retained P xs vs b q e k =
        All-left P (b ∷ q) (all_leaves vs) (subst (All P) e (All-retain P other_leaf xs k))

    -- A border through a subtree, for the commitments of all subtrees.
    through_all :
        (n : Commitment) (l r : Node) (h : IsCanonical c bits (Node.branch n l r)) (us : List Node)
        (t : Node) (vs : List Node) (ss zs : List Commitment)
        → Heads us ss
        → Heads (t ∷ vs) zs
        → All (IsCanonical c bits) (us ++ (t ∷ vs))
        → retain other_leaf (leaves_of (Node.branch n l r)) ≡ all_leaves (us ++ (t ∷ vs))
        → All (λ x. chosen_leaf x ≡ false) (ss ++ zs)
        → (a : Commitment) (p : List Commitment) (b : Commitment) (q : List Commitment)
        → leaves_of t ≡ (a ∷ p) ++ (b ∷ q)
        → retain other_leaf (leaves_of l) ≡ all_leaves us ++ (a ∷ p)
        → retain other_leaf (leaves_of r) ≡ (b ∷ q) ++ all_leaves vs
        → All (λ x. All (ClosedTo bits x) (leaves_of (Node.branch n l r))) (ss ++ zs)
        → Fills c bits leaves keys ascending (Node.branch n l r) (ss ++ zs)
    through_all n l r h us t vs ss [] of_us heads canonical rest unselected a p b q leaves_t e_l e_r
          closed =
        absurd heads
    through_all n l r h us t vs ss (s ∷ ss') of_us heads canonical rest unselected a p b q leaves_t
          e_l e_r closed =
        let within : All (Within c bits n) (leaves_of l ++ leaves_of r) =
          (leaves-Covers c bits (Node.branch n l r) h refl).within in
        through_Fills n l r h us t vs ss s ss' of_us heads.0 heads.1 canonical rest unselected a p b
          q leaves_t
          (first_of_retained (AtBit c bits h.0.depth false) (leaves_of l) us a p e_l
            (low_leaves c bits n l r h))
          (rest_of_retained (AtBit c bits h.0.depth true) (leaves_of r) vs b q e_r
            (high_leaves c bits n l r h))
          (first_of_retained (Within c bits n) (leaves_of l) us a p e_l
            (All-left (Within c bits n) (leaves_of l) (leaves_of r) within))
          (rest_of_retained (Within c bits n) (leaves_of r) vs b q e_r
            (All-right (Within c bits n) (leaves_of l) (leaves_of r) within))
          closed

    leaf-Fills :
        (n : Commitment) (ts : List Node) (ss : List Commitment)
        → IsCanonical c bits (Node.leaf n)
        → Heads ts ss
        → All (IsCanonical c bits) ts
        → retain other_leaf (n ∷ []) ≡ all_leaves ts
        → All (λ x. chosen_leaf x ≡ false) ss
        → Fills c bits leaves keys ascending (Node.leaf n) ss
    leaf-Fills n ts ss h heads canonical rest unselected = elim (Bool-cases (chosen_leaf n)) [
      | inl chosen ↦
          let none : all_leaves ts ≡ [] = sym rest ∙ rw chosen refl in
          let sides : [] ≡ ss = sym (no_trees c bits ts ss heads canonical none).1 in
          subst (Fills c bits leaves keys ascending (Node.leaf n)) sides (record {
            nodes = n ∷ [];
            cut = Cut.leaf n;
            merged = rw chosen (Interleaved.left n Interleaved.done);
            unselected = tt;
          })
      | inr left_out ↦
          let one : all_leaves ts ≡ n ∷ [] = sym rest ∙ rw left_out refl in
          let sides : n ∷ [] ≡ ss = sym (single_tree c bits n ts ss h heads canonical one) in
          subst (Fills c bits leaves keys ascending (Node.leaf n)) sides (record {
            nodes = n ∷ [];
            cut = Cut.leaf n;
            merged = rw left_out (Interleaved.right n Interleaved.done);
            unselected = (left_out, tt);
          })
    ]

    inner_Fills :
        (n : Commitment) (l r : Node) (ss ss' : List Commitment)
        → Fills c bits leaves keys ascending l ss
        → Fills c bits leaves keys ascending r ss'
        → Fills c bits leaves keys ascending (Node.branch n l r) (ss ++ ss')
    inner_Fills n l r ss ss' hx hy = record {
      nodes = hx.nodes ++ hy.nodes;
      cut = Cut.inner n hx.cut hy.cut;
      merged =
          rw (retain-append chosen_leaf (leaves_of l) (leaves_of r))
            (Interleaved-append hx.merged hy.merged);
      unselected = All-append (λ x. chosen_leaf x ≡ false) ss ss' hx.unselected hy.unselected;
    }

    abbrev Refilled : Node → Type 0
    Refilled n =
        (ts : List Node) (ss : List Commitment)
        → IsCanonical c bits n
        → Heads ts ss
        → All (IsCanonical c bits) ts
        → retain other_leaf (leaves_of n) ≡ all_leaves ts
        → All (λ x. chosen_leaf x ≡ false) ss
        → All (λ x. All (ClosedTo bits x) (leaves_of n)) ss
        → Fills c bits leaves keys ascending n ss

    -- A border between subtrees: each child is filled by its own.
    between_Fills :
        (n : Commitment) (l r : Node) (us vs : List Node) (ss : List Commitment)
        → Refilled l
        → Refilled r
        → IsCanonical c bits (Node.branch n l r)
        → Heads (us ++ vs) ss
        → All (IsCanonical c bits) (us ++ vs)
        → retain other_leaf (leaves_of l) ≡ all_leaves us
        → retain other_leaf (leaves_of r) ≡ all_leaves vs
        → All (λ x. chosen_leaf x ≡ false) ss
        → All (λ x. All (ClosedTo bits x) (leaves_of (Node.branch n l r))) ss
        → Fills c bits leaves keys ascending (Node.branch n l r) ss
    between_Fills n l r us vs ss fill_l fill_r h heads canonical rest_l rest_r unselected closed =
        let split : HeadsSplit us vs ss = split-Heads us vs ss heads in
        let us_heads : List Commitment = split.before_heads in
        let vs_heads : List Commitment = split.after_heads in
        let picked : All (λ x. chosen_leaf x ≡ false) (us_heads ++ vs_heads) =
          subst (All (λ x. chosen_leaf x ≡ false)) split.whole unselected in
        let shut : All (λ x. All (ClosedTo bits x) (leaves_of (Node.branch n l r)))
            (us_heads ++ vs_heads) =
          subst (All (λ x. All (ClosedTo bits x) (leaves_of (Node.branch n l r)))) split.whole
            closed in
        let in_l : (x : Commitment)
            → All (ClosedTo bits x) (leaves_of l ++ leaves_of r)
            → All (ClosedTo bits x) (leaves_of l) =
          λ x k. All-left (ClosedTo bits x) (leaves_of l) (leaves_of r) k in
        let in_r : (x : Commitment)
            → All (ClosedTo bits x) (leaves_of l ++ leaves_of r)
            → All (ClosedTo bits x) (leaves_of r) =
          λ x k. All-right (ClosedTo bits x) (leaves_of l) (leaves_of r) k in
        subst (Fills c bits leaves keys ascending (Node.branch n l r)) (sym split.whole) (
          inner_Fills n l r us_heads vs_heads
            (fill_l us us_heads h.1 split.of_us (All-left (IsCanonical c bits) us vs canonical)
              rest_l (All-left (λ x. chosen_leaf x ≡ false) us_heads vs_heads picked)
              (All-imp in_l us_heads (
                All-left (λ x. All (ClosedTo bits x) (leaves_of (Node.branch n l r))) us_heads
                  vs_heads shut)))
            (fill_r vs vs_heads h.2 split.of_vs (All-right (IsCanonical c bits) us vs canonical)
              rest_r (All-right (λ x. chosen_leaf x ≡ false) us_heads vs_heads picked)
              (All-imp in_r vs_heads (
                All-right (λ x. All (ClosedTo bits x) (leaves_of (Node.branch n l r))) us_heads
                  vs_heads shut))))

    -- The side nodes and the selected leaves of another tree with the same other leaves.
    pub refill :
        (n : Node) (ts : List Node) (ss : List Commitment)
        → IsCanonical c bits n
        → Heads ts ss
        → All (IsCanonical c bits) ts
        → retain other_leaf (leaves_of n) ≡ all_leaves ts
        → All (λ x. chosen_leaf x ≡ false) ss
        → All (λ x. All (ClosedTo bits x) (leaves_of n)) ss
        → Fills c bits leaves keys ascending n ss
    refill Node.empty ts ss h heads canonical rest unselected closed =
        subst (Fills c bits leaves keys ascending Node.empty)
          (sym (no_trees c bits ts ss heads canonical (sym rest)).1)
          (record { nodes = []; cut = Cut.nothing; merged = Interleaved.done; unselected = tt })
    refill (Node.leaf n) ts ss h heads canonical rest unselected closed =
        leaf-Fills n ts ss h heads canonical rest unselected
    refill (Node.branch n l r) ts ss h heads canonical rest unselected closed =
        elim (splitting ts (retain other_leaf (leaves_of l)) (retain other_leaf (leaves_of r))
          (sym rest ∙ retain-append other_leaf (leaves_of l) (leaves_of r))) [
            | Splitting.between us vs e_ts e_l e_r ↦
                between_Fills n l r us vs ss (refill l) (refill r) h
                  (subst (λ ws. Heads ws ss) e_ts heads)
                  (subst (All (IsCanonical c bits)) e_ts canonical) (sym e_l) (sym e_r) unselected
                  closed
            | Splitting.through us t vs a p b q e_ts leaves_t e_l e_r ↦
                let split : HeadsSplit us (t ∷ vs) ss =
                  split-Heads us (t ∷ vs) ss (subst (λ ws. Heads ws ss) e_ts heads) in
                subst (Fills c bits leaves keys ascending (Node.branch n l r)) (sym split.whole) (
                  through_all n l r h us t vs split.before_heads split.after_heads split.of_us
                    split.of_vs (subst (All (IsCanonical c bits)) e_ts canonical)
                    (rest ∙ ap all_leaves e_ts)
                    (subst (All (λ x. chosen_leaf x ≡ false)) split.whole unselected) a p b q
                    leaves_t e_l e_r
                    (subst (All (λ x. All (ClosedTo bits x) (leaves_of (Node.branch n l r))))
                      split.whole closed))
          ]

-- ===== src/Trees/Hanging.antt =====
-- The subtrees that `side_nodes` of crates/core/src/trees/patricia.rs leaves whole.
use mathlib.Core.List.{append-nil}
use mathlib.Core.Path.{subst}
use zk_clob.Prelude.{
  All-intro, All-imp_both, ℕ, ◌^◌, ◌<◌, ◌≤◌, ◌≡◌, refl, sym, ap, ◌∙◌, Bool, true, false, not, ◌&&◌,
  ◌||◌, ◌⊎◌, some, List, [], ◌∷◌, ◌++◌, any, All, All-imp, retain, ltb, leb, if◌then◌else◌, inl,
  inr, Bool-cases, arith,
}
use zk_clob.Types.Results.{Succeeds, Succeeds-bind}
use zk_clob.Hashing.{Crypto}
use zk_clob.Trees.Node.{Commitment, Node, commitment}
use zk_clob.Trees.Patricia.{PatriciaLeaf, differing_bit, selected_in}
use zk_clob.Trees.Multiproof.{is_deeper, is_affected, side_nodes}
use zk_clob.Trees.Differing.{Parted, Parted-of_differs, Parted-within}
use zk_clob.Trees.Classes.{outside_is_deeper}
use zk_clob.Trees.Parts.{All-append}
use zk_clob.Trees.Built.{leaves_of, Joins, IsCanonical}
use zk_clob.Trees.Cut.{Within, Covers, canonical_range, Cut-Covers, leaves_of-Cut}
use zk_clob.Trees.Combine.{AtBit, low_side, high_side}
use zk_clob.Trees.Apart.{
  all_leaves, all_leaves-append, Heads, Heads-append, Apart, ClosedTo, no_branch, across-ClosedTo,
}
use zk_clob.Trees.Sides.{in_range, selected_in-any, retain-append, within_unselected}
use zk_clob.Settlement.Validation.Accounts.Ledger.{IsAscending}

or_false : (a b : Bool) → (a || b) ≡ false → a ≡ false
or_false true b e = cc
or_false false b e = refl

or_false_right : (a b : Bool) → (a || b) ≡ false → b ≡ false
or_false_right true b e = cc
or_false_right false b e = e

module _ (c : Crypto) (bits : ℕ) {L : Type 0} (leaves : PatriciaLeaf L) (keys : List ℕ)
    (ascending : IsAscending keys) (key_fits : All (λ k. k < 2 ^ bits) keys) where
  abbrev pub other : Commitment → Bool
  other x = not (selected_in c bits leaves keys x)

  -- The side nodes of a tree are subtrees that hold the leaves that are not selected. No key and no
  -- other leaf shares the bits of one of them before its branch.
  pub record Hangs (n : Node) (sides : List Commitment) : Type 0 where
    pub trees : List Node
    pub heads : Heads trees sides
    pub canonical : All (IsCanonical c bits) trees
    pub rest : retain other (leaves_of n) ≡ all_leaves trees
    pub unselected : All (λ s. selected_in c bits leaves keys s ≡ false) sides
    pub apart : All (λ s. All (Apart bits s) keys) sides
    pub closed : All (λ s. All (ClosedTo bits s) (leaves_of n)) sides
    pub inside : (m : Commitment) → commitment n ≡ some m → All (Within c bits m) sides

  self-Within : (n m : Commitment) → n ≡ m → m.min_key ≤ m.max_key → Within c bits m n
  self-Within n m same le = subst (λ x. Within c bits m x) (sym same) (omega arith, le, omega arith)

  leaf-Hangs :
      (n : Commitment)
      → IsCanonical c bits (Node.leaf n)
      → Succeeds (Hangs (Node.leaf n)) (side_nodes c bits leaves keys (Node.leaf n))
  unfolding side_nodes
  leaf-Hangs n h = elim (Bool-cases (selected_in c bits leaves keys n)) [
    | inl chosen ↦ rw chosen (record {
      trees = [];
      heads = tt;
      canonical = tt;
      rest = rw chosen refl;
      unselected = tt;
      apart = tt;
      closed = tt;
      inside = λ m e. tt;
    })
    | inr left_out ↦ rw left_out (record {
      trees = Node.leaf n ∷ [];
      heads = (refl, tt);
      canonical = (h, tt);
      rest = rw left_out refl;
      unselected = (left_out, tt);
      apart = (All-intro (Apart bits n) keys (λ k d e class. no_branch bits n d h.0 e), tt);
      closed = ((λ d e class. absurd (no_branch bits n d h.0 e), tt), tt);
      inside = λ m e. (self-Within n m (cc) (canonical_range c bits (Node.leaf n) h e).0, tt);
    })
  ]

  unaffected_Apart :
      (n : Commitment) (j_depth : ℕ) (ks : List ℕ)
      → n.min_key ≤ n.max_key
      → n.max_key < 2 ^ bits
      → Parted bits n.min_key n.max_key j_depth
      → All (λ k. k < 2 ^ bits) ks
      → any (in_range n) ks ≡ false
      → any
          (λ key.
            is_deeper
              (differing_bit bits key (if ltb key n.min_key then n.min_key else n.max_key))
              j_depth)
          ks
        ≡ false
      → All (Apart bits n) ks
  unaffected_Apart n depth [] range fits p k_fits outside shallow = tt
  unaffected_Apart n depth (k ∷ ks) range fits p k_fits outside shallow = (
    (λ d e class.
        let same : some d ≡ some depth = sym e ∙ p.differs in
        let same_d : d ≡ depth = ground arith in
        let off : (k < n.min_key) ⊎ (n.max_key < k) = beside n.min_key n.max_key k (ground arith) in
        let deep : is_deeper
              (differing_bit bits k (if ltb k n.min_key then n.min_key else n.max_key)) depth
            ≡ true =
          outside_is_deeper bits k n.min_key n.max_key depth k_fits.0 (omega (arith, range, fits))
            fits p off range (rw same_d at class) in
        absurd (ground arith)),
    unaffected_Apart n depth ks range fits p k_fits.1 (ground arith) (ground arith),
  )
    where
      beside : (a b k : ℕ) → leb a k && leb k b ≡ false → (k < a) ⊎ (b < k)
      beside a b k e = elim (Bool-cases (ltb k a)) [
        | inl low ↦ inl (ground arith)
        | inr high ↦ inr (ground arith)
      ]

  pub retain_all :
      (xs : List Commitment)
      → All (λ x. selected_in c bits leaves keys x ≡ false) xs
      → retain other xs ≡ xs
  retain_all [] h = refl
  retain_all (x ∷ xs) h = rw h.0 (ap (λ ys. x ∷ ys) (retain_all xs h.1))

  -- No leaf of an unselected range is selected.
  pub unselected_leaves :
      (n : Commitment) (xs : List Commitment)
      → All (Within c bits n) xs
      → selected_in c bits leaves keys n ≡ false
      → All (λ x. selected_in c bits leaves keys x ≡ false) xs
  unselected_leaves n xs within none_selected =
      All-imp
        (λ x (w : Within c bits n x).
          selected_in-any c bits leaves keys x ascending
          ∙ within_unselected n x keys w.0 w.2
              (sym (selected_in-any c bits leaves keys n ascending) ∙ none_selected))
        xs within

  whole-Hangs :
      (n : Commitment) (l r : Node)
      → IsCanonical c bits (Node.branch n l r)
      → (depth : ℕ) → Parted bits n.min_key n.max_key depth
      → is_affected c bits leaves keys n depth ≡ false
      → Hangs (Node.branch n l r) (n ∷ [])
  whole-Hangs n l r h depth p unaffected =
      let tree : Node = Node.branch n l r in
      let range : (n.min_key ≤ n.max_key) × (n.max_key < 2 ^ bits) =
        canonical_range c bits tree h refl in
      let covers : Covers c bits n (leaves_of tree) =
        Cut-Covers c bits (leaves_of-Cut tree) h refl in
      let near : (x : Commitment) → Within c bits n x → ClosedTo bits n x =
        λ x w d e class. (w.0, omega (arith, w.1, w.2)) in
      let none_selected : selected_in c bits leaves keys n ≡ false = or_false _ _ unaffected in
      record {
        trees = tree ∷ [];
        heads = (refl, tt);
        canonical = (h, tt);
        rest =
            retain_all (leaves_of tree)
              (unselected_leaves n (leaves_of tree) covers.within none_selected)
            ∙ sym (append-nil (leaves_of tree));
        unselected = (none_selected, tt);
        apart = (
          unaffected_Apart n depth keys range.0 range.1 p key_fits
              (sym (selected_in-any c bits leaves keys n ascending) ∙ none_selected)
              (or_false_right _ _ unaffected),
          tt,
        );
        closed = (All-imp near (leaves_of tree) covers.within, tt);
        inside = λ m e. (self-Within n m (cc) (canonical_range c bits tree h e).0, tt);
      }

  inner-Hangs :
      (n : Commitment) (l r : Node) (xs ys : List Commitment) (j : Joins c bits n l r)
      → (j.l.min_key ≤ j.l.max_key) × (j.l.max_key < 2 ^ bits)
      → (j.r.min_key ≤ j.r.max_key) × (j.r.max_key < 2 ^ bits)
      → All (Within c bits j.l) (leaves_of l)
      → All (Within c bits j.r) (leaves_of r)
      → Hangs l xs
      → Hangs r ys
      → Hangs (Node.branch n l r) (xs ++ ys)
  inner-Hangs n l r xs ys j l_range r_range l_leaves r_leaves hx hy =
      let min_fits : n.min_key < 2 ^ bits = omega (arith, j.least, l_range.0, l_range.1) in
      let max_fits : n.max_key < 2 ^ bits = omega (arith, j.greatest, r_range.1) in
      let range : n.min_key ≤ n.max_key =
        omega (arith, j.least, j.greatest, j.apart, l_range.0, r_range.0) in
      let p : Parted bits n.min_key n.max_key j.depth =
        Parted-of_differs bits n.min_key n.max_key j.depth min_fits max_fits range j.differs in
      let low : (x : Commitment) → Within c bits j.l x → AtBit c bits j.depth false x =
        low_side c bits n l r j min_fits max_fits r_range.0 in
      let high : (x : Commitment) → Within c bits j.r x → AtBit c bits j.depth true x =
        high_side c bits n l r j min_fits max_fits l_range.0 in
      record {
        trees = hx.trees ++ hy.trees;
        heads = Heads-append hx.trees xs hy.trees ys hx.heads hy.heads;
        canonical = All-append (IsCanonical c bits) hx.trees hy.trees hx.canonical hy.canonical;
        rest =
            rw (retain-append other (leaves_of l) (leaves_of r), hx.rest, hy.rest)
              (sym (all_leaves-append hx.trees hy.trees));
        unselected =
            All-append (λ s. selected_in c bits leaves keys s ≡ false) xs ys hx.unselected
              hy.unselected;
        apart = All-append (λ s. All (Apart bits s) keys) xs ys hx.apart hy.apart;
        closed =
            All-append (λ s. All (ClosedTo bits s) (leaves_of l ++ leaves_of r)) xs ys
              (All-imp_both
                (λ s (w : Within c bits j.l s) (k : All (ClosedTo bits s) (leaves_of l)).
                  All-append (ClosedTo bits s) (leaves_of l) (leaves_of r) k (
                    All-imp
                      (λ x v.
                        across-ClosedTo bits n s x j.depth false true min_fits max_fits p
                          (omega (arith, w.0, j.least)) w.1
                          (omega (arith, w.2, j.apart, r_range.0, j.greatest)) (low s w)
                          (high x v).0 refl)
                      (leaves_of r) r_leaves))
                xs (hx.inside j.l j.of_left) hx.closed)
              (All-imp_both
                (λ s (w : Within c bits j.r s) (k : All (ClosedTo bits s) (leaves_of r)).
                  All-append (ClosedTo bits s) (leaves_of l) (leaves_of r)
                    (All-imp
                      (λ x v.
                        across-ClosedTo bits n s x j.depth true false min_fits max_fits p
                          (omega (arith, w.0, j.least, j.apart, l_range.0)) w.1
                          (omega (arith, w.2, j.greatest)) (high s w) (low x v).0 refl)
                      (leaves_of l) l_leaves)
                    k)
                ys (hy.inside j.r j.of_right) hy.closed);
        inside = λ m e.
            subst (λ k. All (Within c bits k) (xs ++ ys)) (let same : n ≡ m = cc in same)
              (All-append (Within c bits n) xs ys
                (All-imp
                  (λ s (w : Within c bits j.l s). (
                    omega (arith, w.0, j.least),
                    w.1,
                    omega (arith, w.2, j.apart, r_range.0, j.greatest),
                  ))
                  xs (hx.inside j.l j.of_left))
                (All-imp
                  (λ s (w : Within c bits j.r s). (
                    omega (arith, w.0, j.least, j.apart, l_range.0),
                    w.1,
                    omega (arith, w.2, j.greatest),
                  ))
                  ys (hy.inside j.r j.of_right)));
      }

  pub side_nodes-Hangs :
      (n : Node) → IsCanonical c bits n → Succeeds (Hangs n) (side_nodes c bits leaves keys n)
  unfolding side_nodes
  side_nodes-Hangs Node.empty h = record {
    trees = [];
    heads = tt;
    canonical = tt;
    rest = refl;
    unselected = tt;
    apart = tt;
    closed = tt;
    inside = λ m e. tt;
  }
  side_nodes-Hangs (Node.leaf n) h = leaf-Hangs n h
  side_nodes-Hangs (Node.branch n l r) h =
      let j : Joins c bits n l r = h.0 in
      let l_range : (j.l.min_key ≤ j.l.max_key) × (j.l.max_key < 2 ^ bits) =
        canonical_range c bits l h.1 j.of_left in
      let r_range : (j.r.min_key ≤ j.r.max_key) × (j.r.max_key < 2 ^ bits) =
        canonical_range c bits r h.2 j.of_right in
      let min_fits : n.min_key < 2 ^ bits = omega (arith, j.least, l_range.0, l_range.1) in
      let max_fits : n.max_key < 2 ^ bits = omega (arith, j.greatest, r_range.1) in
      let p : Parted bits n.min_key n.max_key j.depth =
        Parted-of_differs bits n.min_key n.max_key j.depth min_fits max_fits
          (omega (arith, j.least, j.greatest, j.apart, l_range.0, r_range.0)) j.differs in
      let inner : Parted bits j.l.max_key j.r.min_key j.depth =
        Parted-within bits n.min_key n.max_key j.depth j.l.max_key j.r.min_key min_fits max_fits p
          (omega (arith, j.least, l_range.0)) (omega (arith, j.apart))
          (omega (arith, j.greatest, r_range.0)) j.low j.high in
      simp (j.of_left, j.of_right, inner.differs)
        (elim (Bool-cases (is_affected c bits leaves keys n j.depth)) [
          | inl affected ↦ rw affected (
              Succeeds-bind (Hangs l) (Hangs (Node.branch n l r)) _ _ (side_nodes-Hangs l h.1)
                (λ xs hx.
                  Succeeds-bind (Hangs r) (Hangs (Node.branch n l r)) _ _ (side_nodes-Hangs r h.2)
                    (λ ys hy.
                      inner-Hangs n l r xs ys j l_range r_range
                        (Cut-Covers c bits (leaves_of-Cut l) h.1 j.of_left).within
                        (Cut-Covers c bits (leaves_of-Cut r) h.2 j.of_right).within hx hy)))
          | inr apart ↦ rw apart (whole-Hangs n l r h j.depth p apart)
        ])

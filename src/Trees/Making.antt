-- ===== src/Trees/Making.antt =====
-- `build`, `side_nodes` and `build_multiproof` of crates/core/src/trees/patricia.rs, and panics.
use zk_clob.Prelude.{
  ℕ, zero, suc, ◌-◌, ◌<◌, ◌≤◌, ◌≡◌, refl, false, not, ◌||◌, some, List, [], ◌∷◌, length, any_pair,
  is_empty, sort_unstable, ltb, leb, ◌==◌, take, drop, partition_point, inl, inr, Bool-cases, arith,
}
use zk_clob.Types.Batch.{PatriciaMultiproof}
use zk_clob.Types.Errors.{ok, expect, invalid_state_multiproof}
use zk_clob.Types.Results.{
  Succeeds, Safe-both, Safe-eq, Safe, Safe-bind, Any, fail_if-Any, ok_or-Any, fail_if-Safe,
  ok_or-Safe,
}
use zk_clob.Hashing.{Crypto}
use zk_clob.Trees.Node.{Commitment, Node, commitment}
use zk_clob.Trees.Patricia.{
  sorted, compute_root, PatriciaLeaf, bit, differing_bit, branch, is_split, leaf_commitment,
  build_on, build,
}
use zk_clob.Trees.Patricia.Safety.{
  length-take, length-drop, partition_point-le, expect-get_last?, sorted-Any,
}
use zk_clob.Trees.Multiproof.{is_affected, side_nodes, build_multiproof}

module _ (c : Crypto) (bits : ℕ) where
  -- Two commitments that a bit tells apart.
  abbrev pub AreApart : Commitment → Commitment → Type 0
  AreApart l r = (depth : ℕ) × (differing_bit bits l.max_key r.min_key ≡ some depth)

  -- In every branch of a tree both children are there, and a bit tells them apart.
  abbrev pub IsSound : Node → Type 0
  IsSound Node.empty = Unit
  IsSound (Node.leaf n) = Unit
  IsSound (Node.branch n left right) =
      (l : Commitment) × (r : Commitment) × (commitment left ≡ some l)
      × (commitment right ≡ some r)
      × AreApart l r
      × IsSound left
      × IsSound right

  branch-AreApart : (l r : Commitment) → Safe (λ _. AreApart l r) (branch c bits l r)
  unfolding branch
  branch-AreApart l r =
      Safe-bind Any Q _ _ (fail_if-Any (leb r.min_key l.max_key) invalid_state_multiproof) (λ _ _.
        Safe-bind (λ depth. differing_bit bits l.max_key r.min_key ≡ some depth) Q _ _
          (ok_or-Safe (differing_bit bits l.max_key r.min_key) invalid_state_multiproof)
          (λ depth e.
            Safe-bind Any Q _ _
              (fail_if-Any
                (bit bits l.min_key depth
                  || bit bits l.max_key depth
                  || not (bit bits r.min_key depth)
                  || not (bit bits r.max_key depth))
                invalid_state_multiproof)
              (λ _ _. (depth, e))))
    where
      Q : Commitment → Type 0
      Q _ = AreApart l r

  -- A tree of some values has a commitment.
  abbrev HasCommitment : ℕ → Node → Type 0
  HasCommitment zero n = Unit
  HasCommitment (suc count) n = (l : Commitment) × (commitment n ≡ some l)

  abbrev Built : ℕ → Node → Type 0
  Built count n = IsSound n × HasCommitment count n

  expect-commitment :
      (count : ℕ) (n : Node)
      → 0 < count
      → HasCommitment count n
      → Safe (λ l. commitment n ≡ some l) (expect (commitment n))
  expect-commitment zero n pos h = absurd (omega arith)
  expect-commitment (suc count) n pos h = rw h.1 refl

  module _ {L : Type 0} (leaves : PatriciaLeaf L) where
    build_on-Built :
        (fuel : ℕ) (values : List L)
        → length values < fuel
        → Safe (Built (length values)) (build_on c bits leaves fuel values)
    unfolding build_on
    build_on-Built zero values lt = absurd (omega arith)
    build_on-Built (suc fuel) [] lt = (tt, tt)
    build_on-Built (suc fuel) (v ∷ []) lt = (tt, (leaf_commitment c bits leaves v, refl))
    build_on-Built (suc fuel) (v ∷ w ∷ vs) lt =
        Safe-bind Any Q _ _ (expect-get_last? w vs) (λ final _.
          Safe-bind Any Q _ _
            (ok_or-Any (differing_bit bits (leaves.key v) (leaves.key final))
              invalid_state_multiproof)
            (λ depth _.
              let all : List L = v ∷ w ∷ vs in
              let split : ℕ =
                partition_point (λ (x : L). not (bit bits (leaves.key x) depth)) all in
              Safe-bind (λ _. not (is_split c bits split all) ≡ false) Q _ _
                (fail_if-Safe (not (is_split c bits split all)) invalid_state_multiproof)
                (λ _ e.
                  let le : split ≤ length all =
                    partition_point-le (λ (x : L). not (bit bits (leaves.key x) depth)) all in
                  let pos : 0 < split = ground arith in
                  let short : split < length all = ground arith in
                  let left_length : length (take split all) ≡ split = length-take split all le in
                  let right_length : length (drop split all) ≡ length all - split =
                    length-drop split all in
                  Safe-bind (Built (length (take split all))) Q _ _
                    (build_on-Built fuel (take split all) (omega arith))
                    (λ left hl.
                      Safe-bind (Built (length (drop split all))) Q _ _
                        (build_on-Built fuel (drop split all) (omega arith))
                        (λ right hr.
                          Safe-bind (λ l. commitment left ≡ some l) Q _ _
                            (expect-commitment (length (take split all)) left (omega arith) hl.1)
                            (λ l el.
                              Safe-bind (λ r. commitment right ≡ some r) Q _ _
                                (expect-commitment (length (drop split all)) right (omega arith)
                                  hr.1)
                                (λ r er.
                                  Safe-bind (λ _. AreApart l r) Q _ _ (branch-AreApart l r)
                                    (λ joined a.
                                      ((l, r, el, er, a, hl.0, hr.0), (joined, refl))))))))))
      where
        Q : Node → Type 0
        Q = Built (length (v ∷ w ∷ vs))

    side_nodes-Any :
        (keys : List ℕ) (n : Node) → IsSound n → Safe Any (side_nodes c bits leaves keys n)
    unfolding side_nodes
    side_nodes-Any keys Node.empty h = tt
    side_nodes-Any keys (Node.leaf n) h = ground arith
    side_nodes-Any keys (Node.branch n left right) h =
        simp (h.2, h.3, h.4.1)
          (elim (Bool-cases (is_affected c bits leaves keys n h.4.0)) [
            | inl affected ↦ rw affected (
                Safe-bind Any Any _ _ (side_nodes-Any keys left h.5)
                  (λ ls _. Safe-bind Any Any _ _ (side_nodes-Any keys right h.6) (λ rs _. tt)))
            | inr apart ↦ rw apart tt
          ])

    -- Whatever the accounts and the keys, `build_multiproof` never panics: its recursion ends, and
    -- no branch of the tree that it builds lacks a child. Where it makes a proof, the accounts have
    -- a root.
    pub build_multiproof-Safe :
        (values : List L) (selected_keys : List ℕ)
        → Safe
            (λ _. Succeeds Any (compute_root c bits leaves values))
            (build_multiproof c bits leaves values selected_keys)
    unfolding build_multiproof build compute_root
    build_multiproof-Safe values selected_keys =
        Safe-bind Any Q _ _ (fail_if-Any (is_empty selected_keys) invalid_state_multiproof) (λ _ _.
          Safe-bind Any Q _ _
            (fail_if-Any (any_pair ◌==◌ (sort_unstable ltb selected_keys)) invalid_state_multiproof)
            (λ _ _.
              Safe-bind (λ ordered. sorted c bits leaves values ≡ ok ordered) Q _ _
                (Safe-eq _ (sorted-Any c bits leaves values))
                (λ ordered e.
                  Safe-bind
                    (λ tree.
                      Built (length ordered) tree
                      × (build_on c bits leaves (suc (length ordered)) ordered ≡ ok tree))
                    Q (build_on c bits leaves (suc (length ordered)) ordered) _
                    (Safe-both (Built (length ordered))
                      (build_on c bits leaves (suc (length ordered)) ordered)
                      (build_on-Built (suc (length ordered)) ordered (omega arith)))
                    (λ tree h.
                      let has_root : Succeeds Any (compute_root c bits leaves values) =
                        rw e (rw h.1 tt) in
                      Safe-bind Any Q
                        (side_nodes c bits leaves (sort_unstable ltb selected_keys) tree) _
                        (side_nodes-Any (sort_unstable ltb selected_keys) tree h.0.0)
                        (λ nodes _. has_root)))))
      where
        Q : PatriciaMultiproof → Type 0
        Q _ = Succeeds Any (compute_root c bits leaves values)

-- ===== src/Trees/Patricia/Safety.antt =====
-- The recursions of the Patricia tree, `combine` and `build`, and their fuel.
use zk_clob.Prelude.{
  ℕ, zero, suc, ◌-◌, ◌<◌, ◌≤◌, ◌≡◌, refl, ltb, leb, ◌==◌, Bool, false, not, ◌||◌, List, [], ◌∷◌,
  map, length, any, any_pair, is_empty, sort_unstable, binary_search_by_key, take, drop, get_last?,
  partition_point, is_vacant, inl, inr, Bool-cases, arith,
}
use zk_clob.Types.Batch.{PatriciaSubtree, PatriciaMultiproof}
use zk_clob.Types.Errors.{expect, invalid_state_multiproof}
use zk_clob.Types.Results.{Safe, Safe-bind, Any, fail_if-Any, ok_or-Any, fail_if-Safe}
use zk_clob.Trees.Node.{Commitment}
use zk_clob.Hashing.{Crypto}
use zk_clob.Trees.Patricia.{
  PatriciaLeaf, bit, differing_bit, branch, is_split, combine_on, combine, leaf_commitment, sorted,
  merge_nodes, selected_in, compute_root_from_proof,
}

module _ {ℓ} {A : Type ℓ} where
  pub length-take : (n : ℕ) (xs : List A) → n ≤ length xs → length (take n xs) ≡ n
  length-take zero xs le = refl
  length-take (suc n) [] le = absurd (omega arith)
  length-take (suc n) (x ∷ xs) le = omega (arith, length-take n xs (omega arith))

  pub length-drop : (n : ℕ) (xs : List A) → length (drop n xs) ≡ length xs - n
  length-drop zero xs = omega arith
  length-drop (suc n) [] = omega arith
  length-drop (suc n) (x ∷ xs) = omega (arith, length-drop n xs)

  pub partition_point-le : (test : A → Bool) (xs : List A) → partition_point test xs ≤ length xs
  partition_point-le test [] = omega arith
  partition_point-le test (x ∷ xs) = elim (Bool-cases (test x)) [
    | inl passes ↦ rw passes (omega (arith, partition_point-le test xs))
    | inr fails ↦ rw fails (omega arith)
  ]

  pub expect-get_last? : (x : A) (xs : List A) → Safe Any (expect (get_last? (x ∷ xs)))
  expect-get_last? x [] = tt
  expect-get_last? x (y ∷ xs) = expect-get_last? y xs

module _ (c : Crypto) (bits : ℕ) where
  branch-Any : (l r : Commitment) → Safe Any (branch c bits l r)
  unfolding branch
  branch-Any l r =
      Safe-bind Any Any _ _ (fail_if-Any (leb r.min_key l.max_key) invalid_state_multiproof) (λ _ _.
        Safe-bind Any Any _ _
          (ok_or-Any (differing_bit bits l.max_key r.min_key) invalid_state_multiproof)
          (λ depth _.
            Safe-bind Any Any _ _
              (fail_if-Any
                (bit bits l.min_key depth
                  || bit bits l.max_key depth
                  || not (bit bits r.min_key depth)
                  || not (bit bits r.max_key depth))
                invalid_state_multiproof)
              (λ _ _. tt)))

  -- A split that passes the test leaves both parts shorter.
  split_between :
      {A : Type 0} (point : ℕ) (xs : List A) (b d : Bool)
      → (not (is_split c bits point xs) || b || d) ≡ false
      → point ≤ length xs
      → (0 < point) × (point < length xs)
  split_between point xs b d e le = (ground arith, ground arith)

  pub combine_on-Safe :
      (fuel : ℕ) (ns : List Commitment) → length ns < fuel → Safe Any (combine_on c bits fuel ns)
  unfolding combine_on
  combine_on-Safe zero ns lt = absurd (omega arith)
  combine_on-Safe (suc fuel) [] lt = tt
  combine_on-Safe (suc fuel) (n ∷ []) lt = tt
  combine_on-Safe (suc fuel) (n ∷ m ∷ ns) lt =
      Safe-bind Any Any _ _ (expect-get_last? m ns) (λ final _.
        Safe-bind Any Any _ _
          (ok_or-Any (differing_bit bits n.min_key final.max_key) invalid_state_multiproof)
          (λ depth _.
            let all : List Commitment = n ∷ m ∷ ns in
            let split : ℕ =
              partition_point (λ (x : Commitment). not (bit bits x.max_key depth)) all in
            let early : Bool =
              any (λ (x : Commitment). bit bits x.min_key depth) (take split all) in
            let late : Bool =
              any (λ (x : Commitment). not (bit bits x.min_key depth)) (drop split all) in
            Safe-bind (λ _. (not (is_split c bits split all) || early || late) ≡ false) Any _ _
              (fail_if-Safe (not (is_split c bits split all) || early || late)
                invalid_state_multiproof)
              (λ _ e.
                let le : split ≤ length all =
                  partition_point-le (λ (x : Commitment). not (bit bits x.max_key depth)) all in
                let between : (0 < split) × (split < length all) =
                  split_between split all early late e le in
                Safe-bind Any Any _ _
                  (combine_on-Safe fuel (take split all)
                    (omega (arith, length-take split all le, between.1)))
                  (λ left _.
                    Safe-bind Any Any _ _ (ok_or-Any left invalid_state_multiproof) (λ left_node _.
                      Safe-bind Any Any _ _
                        (combine_on-Safe fuel (drop split all)
                          (omega (arith, length-drop split all, between.0)))
                        (λ right _.
                          Safe-bind Any Any _ _ (ok_or-Any right invalid_state_multiproof)
                            (λ right_node _.
                              Safe-bind Any Any _ _ (branch-Any left_node right_node)
                                (λ joined _. tt))))))))

  module _ {L : Type 0} (leaves : PatriciaLeaf L) where
    pub sorted-Any : (values : List L) → Safe Any (sorted c bits leaves values)
    unfolding sorted
    sorted-Any values =
        Safe-bind Any Any _ _
          (fail_if-Any
            (any_pair (λ (x y : L). leaves.key x == leaves.key y)
              (sort_unstable (λ (x y : L). ltb (leaves.key x) (leaves.key y)) values))
            invalid_state_multiproof)
          (λ _ _. tt)

    -- A multiproof, however it was made, is refused or has a root: `compute_root_from_proof` never
    -- panics, and its recursion ends within its fuel.
    pub compute_root_from_proof-Safe :
        (values : List L) (proof : PatriciaMultiproof)
        → Safe Any (compute_root_from_proof c bits leaves values proof)
    unfolding compute_root_from_proof combine
    compute_root_from_proof-Safe values proof =
        Safe-bind Any Any _ _
          (fail_if-Any
            (is_empty proof.leaf_keys
              || any_pair (λ x y. leb y x) proof.leaf_keys
              || any (λ (n : PatriciaSubtree). ltb n.max_key n.min_key) proof.side_nodes
              || any_pair (λ (x y : PatriciaSubtree). leb y.min_key x.max_key) proof.side_nodes)
            invalid_state_multiproof)
          (λ _ _. Safe-bind Any Any _ _ (sorted-Any values) (λ ordered _.
            Safe-bind Any Any _ _
              (fail_if-Any
                (any
                    (λ (v : L).
                      is_vacant (binary_search_by_key (λ k. k) proof.leaf_keys (leaves.key v)))
                    ordered
                  || any (selected_in c bits leaves proof.leaf_keys) proof.side_nodes)
                invalid_state_multiproof)
              (λ _ _.
                let nodes : List Commitment =
                  merge_nodes c bits leaves (map (leaf_commitment c bits leaves) ordered)
                    proof.side_nodes in
                Safe-bind Any Any _ _
                  (fail_if-Any (any_pair (λ (x y : Commitment). leb y.min_key x.max_key) nodes)
                    invalid_state_multiproof)
                  (λ _ _.
                    Safe-bind Any Any _ _ (combine_on-Safe (suc (length nodes)) nodes (omega arith))
                      (λ node _. tt)))))

-- ===== src/Trees/RoundTrip.antt =====
-- `build_multiproof` and `compute_root_from_proof` of crates/core/src/trees/patricia.rs together.
use mathlib.Core.Path.{subst}
use zk_clob.Prelude.{
  All-is_key, All-imp_both, not, ◌^◌, ℕ, suc, ◌<◌, ◌≡◌, refl, sym, ap, ◌∙◌, Bool, false, List, [],
  ◌∷◌, map, length, any, All, retain, is_empty, arith,
}
use zk_clob.Types.Ids.{B256}
use zk_clob.Types.Batch.{PatriciaSubtree, PatriciaMultiproof}
use zk_clob.Types.Errors.{ok}
use zk_clob.Types.Results.{Succeeds-value}
use zk_clob.Hashing.{Crypto}
use zk_clob.Trees.Node.{Commitment, Node, commitment}
use zk_clob.Trees.Patricia.{
  PatriciaLeaf, leaf_commitment, build_on, build, selected_in, merge_nodes, finalize, compute_root,
  compute_root_from_proof,
}
use zk_clob.Trees.Multiproof.{side_nodes, build_multiproof}
use zk_clob.Trees.Built.{leaves_of, IsBuiltFrom, Fits}
use zk_clob.Trees.Building.{Ordered, build_on-IsBuiltFrom}
use zk_clob.Trees.Combine.{combine-Cut}
use zk_clob.Trees.Sides.{Fills}
use zk_clob.Trees.Apart.{all_leaves, Apart, ClosedTo}
use zk_clob.Trees.Hanging.{Hangs, side_nodes-Hangs}
use zk_clob.Trees.Rows.{All-retain}
use zk_clob.Trees.Refill.{refill}
use zk_clob.Trees.Merging.{
  IsSpread, Cut-IsSpread, Interleaved-IsSpread, merge_nodes-Interleaved, ordered_of_IsSpread,
  ranges_of_IsSpread,
}
use zk_clob.Trees.Keyed.{
  sort_unstable-ascending, distinct_ascending, sorted_ascending, chosen, chosen-IsAscending,
  chosen_found, retain-selected, others, retain-others, All-leaves,
}
use zk_clob.Settlement.Validation.Accounts.Ledger.{IsAscending, IsAscending-any_pair}

any_unselected :
    (test : Commitment → Bool) (xs : List Commitment)
    → All (λ x. test x ≡ false) xs
    → any test xs ≡ false
any_unselected test [] h = refl
any_unselected test (x ∷ xs) h = rw h.0 (any_unselected test xs h.1)

module _ (c : Crypto) (bits : ℕ) {L : Type 0} (leaves : PatriciaLeaf L) where
  -- The values of the selected keys and the side nodes of a tree have the root of the tree.
  root_of_Fills :
      (values : List L) (keys : List ℕ) (ascending : IsAscending keys) (tree : Node)
      (sides : List PatriciaSubtree)
      → IsAscending (map leaves.key values)
      → is_empty keys ≡ false
      → IsBuiltFrom c bits leaves values tree
      → Fills c bits leaves keys ascending tree sides
      → compute_root_from_proof c bits leaves
          (chosen c bits leaves keys values)
          (record { leaf_keys = keys; side_nodes = sides })
        ≡ ok (finalize c bits (commitment tree))
  unfolding compute_root_from_proof
  root_of_Fills values keys ascending tree sides in_order some_keys built fills =
      let spread : IsSpread fills.nodes =
        Cut-IsSpread c bits tree fills.nodes fills.cut built.canonical in
      let sides_spread : IsSpread sides = Interleaved-IsSpread fills.merged spread in
      let picked : retain (selected_in c bits leaves keys) (leaves_of tree)
          ≡ map (leaf_commitment c bits leaves) (chosen c bits leaves keys values) =
        ap (retain (selected_in c bits leaves keys)) built.ordered
        ∙ retain-selected c bits leaves keys values ascending in
      let merged : merge_nodes c bits leaves
            (map (leaf_commitment c bits leaves) (chosen c bits leaves keys values)) sides
          ≡ fills.nodes =
        ap (λ xs. merge_nodes c bits leaves xs sides) (sym picked)
        ∙ merge_nodes-Interleaved c bits leaves fills.merged spread in
      simp (
        some_keys,
        IsAscending-any_pair keys ascending,
        ranges_of_IsSpread sides sides_spread,
        ordered_of_IsSpread sides sides_spread,
        sorted_ascending c bits leaves (chosen c bits leaves keys values)
            (chosen-IsAscending c bits leaves keys values in_order),
        chosen_found c bits leaves keys values ascending,
        any_unselected (selected_in c bits leaves keys) sides fills.unselected,
        merged,
        ordered_of_IsSpread fills.nodes spread,
        combine-Cut c bits tree fills.nodes fills.cut built.canonical,
      )

  -- The subtrees left whole in one tree, and the leaves of the new values.
  closed_again :
      (keys : List ℕ) (ascending : IsAscending keys) (key_fits : All (λ k. k < 2 ^ bits) keys)
      (old new : List L) (tree new_tree : Node) (sides : List Commitment)
      → others c bits leaves keys new ≡ others c bits leaves keys old
      → IsBuiltFrom c bits leaves old tree
      → IsBuiltFrom c bits leaves new new_tree
      → Hangs c bits leaves keys ascending key_fits tree sides
      → All (λ s. All (ClosedTo bits s) (leaves_of new_tree)) sides
  unfolding leaf_commitment
  closed_again keys ascending key_fits old new tree new_tree sides same built again hangs =
      let not_selected : Commitment → Bool = λ x. not (selected_in c bits leaves keys x) in
      let rest : retain not_selected (leaves_of tree)
          ≡ map (leaf_commitment c bits leaves) (others c bits leaves keys new) =
        ap (retain not_selected) built.ordered
        ∙ retain-others c bits leaves keys old ascending
        ∙ ap (map (leaf_commitment c bits leaves)) (sym same) in
      All-imp_both
        (λ s (off : All (Apart bits s) keys) (k : All (ClosedTo bits s) (leaves_of tree)).
          subst (All (ClosedTo bits s)) (sym again.ordered) (
            All-leaves c bits leaves keys (ClosedTo bits s) new
              (λ v present d e class.
                absurd (All-is_key (Apart bits s) keys (leaves.key v) present off d e class))
              (subst (All (ClosedTo bits s)) rest
                (All-retain (ClosedTo bits s) not_selected (leaves_of tree) k))))
        sides hangs.apart hangs.closed

  refilled :
      (keys : List ℕ) (ascending : IsAscending keys) (key_fits : All (λ k. k < 2 ^ bits) keys)
      (old new : List L) (tree new_tree : Node) (sides : List Commitment)
      → others c bits leaves keys new ≡ others c bits leaves keys old
      → IsBuiltFrom c bits leaves old tree
      → IsBuiltFrom c bits leaves new new_tree
      → Hangs c bits leaves keys ascending key_fits tree sides
      → Fills c bits leaves keys ascending new_tree sides
  refilled keys ascending key_fits old new tree new_tree sides same built again hangs =
      let not_selected : Commitment → Bool = λ x. not (selected_in c bits leaves keys x) in
      let rest : retain not_selected (leaves_of new_tree) ≡ all_leaves hangs.trees =
        ap (retain not_selected) again.ordered
        ∙ retain-others c bits leaves keys new ascending
        ∙ ap (map (leaf_commitment c bits leaves)) same
        ∙ sym (retain-others c bits leaves keys old ascending)
        ∙ ap (retain not_selected) (sym built.ordered)
        ∙ hangs.rest in
      refill c bits leaves keys ascending key_fits new_tree hangs.trees sides again.canonical
        hangs.heads hangs.canonical rest hangs.unselected
        (closed_again keys ascending key_fits old new tree new_tree sides same built again hangs)

  built_tree :
      (values : List L)
      → All (Fits c bits leaves) values
      → Ordered leaves.key values
      → (tree : Node) × (build c bits leaves values ≡ ok tree)
        × IsBuiltFrom c bits leaves values tree
  unfolding build
  built_tree values fits ordered =
      Succeeds-value (IsBuiltFrom c bits leaves values)
        (build_on c bits leaves (suc (length values)) values)
        (build_on-IsBuiltFrom c bits leaves (suc (length values)) values fits ordered (omega arith))

  -- Take old and new values, both in ascending order of their keys, with no key beyond the width, and one
  -- or more selected keys in ascending order, none beyond the width, such that old and new values differ
  -- at most in the values of selected keys: these may be changed, inserted or taken away. Then
  -- `build_multiproof` makes a proof of the selected keys from the old values, with these keys, and
  -- `compute_root_from_proof` makes of this proof and the new values of the selected keys the root that
  -- `compute_root` makes of all new values.
  pub compute_root_from_proof-build_multiproof :
      (old new : List L) (keys : List ℕ)
      → All (Fits c bits leaves) old
      → Ordered leaves.key old
      → All (Fits c bits leaves) new
      → Ordered leaves.key new
      → IsAscending keys
      → is_empty keys ≡ false
      → All (λ k. k < 2 ^ bits) keys
      → others c bits leaves keys new ≡ others c bits leaves keys old
      → (proof : PatriciaMultiproof) × (root : B256) × (build_multiproof c bits leaves old keys
          ≡ ok proof)
        × (proof.leaf_keys ≡ keys)
        × (compute_root_from_proof c bits leaves (chosen c bits leaves keys new) proof ≡ ok root)
        × (compute_root c bits leaves new ≡ ok root)
  unfolding build_multiproof compute_root
  compute_root_from_proof-build_multiproof old new keys fits ordered new_fits new_ordered ascending
        some_keys key_fits same =
      let built : (tree : Node) × (build c bits leaves old ≡ ok tree)
          × IsBuiltFrom c bits leaves old tree =
        built_tree old fits ordered in
      let again : (tree : Node) × (build c bits leaves new ≡ ok tree)
          × IsBuiltFrom c bits leaves new tree =
        built_tree new new_fits new_ordered in
      let hung : (sides : List Commitment) × (side_nodes c bits leaves keys built.0 ≡ ok sides)
          × Hangs c bits leaves keys ascending key_fits built.0 sides =
        Succeeds-value (Hangs c bits leaves keys ascending key_fits built.0)
          (side_nodes c bits leaves keys built.0)
          (side_nodes-Hangs c bits leaves keys ascending key_fits built.0 built.2.canonical) in
      (
        record { leaf_keys = keys; side_nodes = hung.0 },
        finalize c bits (commitment again.0),
        simp (
          some_keys,
          sort_unstable-ascending keys ascending,
          distinct_ascending keys ascending,
          sorted_ascending c bits leaves old ordered,
          built.1,
          hung.1,
        ),
        refl,
        root_of_Fills new keys ascending again.0 hung.0 new_ordered some_keys again.2 (
            refilled keys ascending key_fits old new built.0 again.0 hung.0 same built.2 again.2
              hung.2),
        simp (sorted_ascending c bits leaves new new_ordered, again.1),
      )

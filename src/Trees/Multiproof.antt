-- ===== src/Trees/Multiproof.antt =====
-- The making of a multiproof: `side_nodes` and `build_multiproof` of crates/core/src/trees/patricia.rs.
use zk_clob.Prelude.{
  ℕ, Bool, false, ◌||◌, Option, none, some, List, [], ◌∷◌, ◌++◌, any, any_pair, is_empty,
  sort_unstable, ltb, ◌==◌, if◌then◌else◌,
}
use zk_clob.Types.Batch.{PatriciaSubtree, PatriciaMultiproof}
use zk_clob.Types.Errors.{Result, ok, ◌>>=◌, ◌>>◌, fail_if, expect, invalid_state_multiproof}
use zk_clob.Hashing.{Crypto}
use zk_clob.Trees.Node.{Commitment, Node, commitment}
use zk_clob.Trees.Patricia.{PatriciaLeaf, differing_bit, selected_in, sorted, build}

-- `is_some_and(|difference| difference > depth)`
abbrev pub is_deeper : Option ℕ → ℕ → Bool
is_deeper none depth = false
is_deeper (some difference) depth = ltb depth difference

module _ (c : Crypto) (bits : ℕ) {L : Type 0} (leaves : PatriciaLeaf L) where
  -- Whether a key selects the branch, or would be inserted below it.
  abbrev pub is_affected : List ℕ → Commitment → ℕ → Bool
  is_affected keys node depth =
      selected_in c bits leaves keys node
      || any
          (λ key.
            is_deeper
              (differing_bit bits key (if ltb key node.min_key then node.min_key else node.max_key))
              depth)
          keys

  unfoldable pub side_nodes : List ℕ → Node → Result (List PatriciaSubtree)
  unfolding selected_in differing_bit
  side_nodes keys Node.empty = ok []
  side_nodes keys (Node.leaf node) =
      if selected_in c bits leaves keys node then ok [] else ok (node ∷ [])
  side_nodes keys (Node.branch node left right) =
      let of_left = side_nodes keys left in
      let of_right = side_nodes keys right in
      let both : Result (List PatriciaSubtree) = (do ls ← of_left; rs ← of_right; ok (ls ++ rs)) in
      (do
        l ← expect (commitment left)
        r ← expect (commitment right)
        depth ← expect (differing_bit bits l.max_key r.min_key)
        if is_affected keys node depth then both else ok (node ∷ []))

  -- `PatriciaMerkleTree::build_multiproof`
  unfoldable pub build_multiproof : List L → List ℕ → Result PatriciaMultiproof
  unfolding side_nodes sorted build
  build_multiproof values selected_keys = do
    fail_if (is_empty selected_keys) invalid_state_multiproof
    let keys = sort_unstable ltb selected_keys
    fail_if (any_pair ◌==◌ keys) invalid_state_multiproof
    ordered ← sorted c bits leaves values
    tree ← build c bits leaves ordered
    nodes ← side_nodes keys tree
    ok (record { leaf_keys = keys; side_nodes = nodes })

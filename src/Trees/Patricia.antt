-- ===== src/Trees/Patricia.antt =====
-- crates/core/src/trees/patricia.rs. `bits` is `PatriciaKey::BITS`: a key is a number of that many
-- bits, of which bit 0 is the most significant. An error of the tree is the error that `state.rs`
-- turns it into.
pub mod Safety
use Prim.Native.Nat.{◌∣◌}
use zk_clob.Prelude.{
  ℕ, zero, suc, ◌+◌, ◌-◌, ◌/◌, ◌%◌, ◌^◌, ltb, leb, ◌==◌, if◌then◌else◌, Bool, true, false, not,
  ◌&&◌, ◌||◌, Option, none, some, List, [], ◌∷◌, ◌++◌, map, length, get_elem?, any, any_pair,
  is_empty, sort_unstable, binary_search_by_key, Search, found, vacant, to_be_bytes, ascii, take,
  drop, get_last?, partition_point, is_vacant,
}
use zk_clob.Types.Ids.{B256}
use zk_clob.Types.Batch.{PatriciaSubtree, PatriciaMultiproof}
use zk_clob.Types.Errors.{
  Result, ok, err, panic, ◌>>=◌, ◌>>◌, fail_if, ok_or, expect, invalid_state_multiproof,
}
use zk_clob.Trees.Node.{Commitment, Node, commitment}
use zk_clob.Hashing.{Crypto, domain_hash, b256_bytes, u64_bytes}

-- `PatriciaLeaf`, with the hash of `DomainSha256Hash`.
pub record PatriciaLeaf (L : Type 0) : Type 0 where
  pub key : L → ℕ
  pub hash : L → B256

module _ (bits : ℕ) where
  -- `PatriciaKey::bit`
  unfoldable pub bit : ℕ → ℕ → Bool
  bit key index = (key / 2 ^ (bits - 1 - index)) % 2 == 1

  abbrev pub same_bit : Bool → Bool → Bool
  same_bit true b = b
  same_bit false b = not b

  -- The search of `differing_bit`, over `count` indices from `index`.
  unfoldable pub differing_from : ℕ → ℕ → ℕ → ℕ → Option ℕ
  unfolding bit
  differing_from zero index left right = none
  differing_from (suc count) index left right =
      let rest = differing_from count (index + 1) left right in
      if same_bit (bit left index) (bit right index) then rest else some index

  unfoldable pub differing_bit : ℕ → ℕ → Option ℕ
  unfolding differing_from
  differing_bit left right = differing_from bits 0 left right

  abbrev pub key_bytes : ℕ → List ℕ
  key_bytes = to_be_bytes (bits / 8)

  abbrev pub commitment_bytes : Commitment → List ℕ
  commitment_bytes n = b256_bytes n.root ++ (key_bytes n.min_key ++ key_bytes n.max_key)

module _ (c : Crypto) (bits : ℕ) where
  unfoldable pub branch_hash : ℕ → Commitment → Commitment → B256
  unfolding domain_hash
  branch_hash depth left right =
      domain_hash c (ascii "ZKCLOB_PATRICIA_BRANCH_V1")
        (u64_bytes depth ++ (commitment_bytes bits left ++ commitment_bytes bits right))

  unfoldable pub branch : Commitment → Commitment → Result Commitment
  unfolding differing_bit bit branch_hash
  branch left right = do
    fail_if (leb right.min_key left.max_key) invalid_state_multiproof
    depth ← ok_or (differing_bit bits left.max_key right.min_key) invalid_state_multiproof
    fail_if
        (bit bits left.min_key depth
          || bit bits left.max_key depth
          || not (bit bits right.min_key depth)
          || not (bit bits right.max_key depth))
        invalid_state_multiproof
    ok (record {
      root = branch_hash depth left right;
      min_key = left.min_key;
      max_key = right.max_key;
    })

  -- `finalize`, with the hashes of `Empty` and `Root`.
  unfoldable pub finalize : Option Commitment → B256
  unfolding domain_hash
  finalize none = domain_hash c (ascii "ZKCLOB_PATRICIA_EMPTY_V1") []
  finalize (some n) = domain_hash c (ascii "ZKCLOB_PATRICIA_ROOT_V1") (commitment_bytes bits n)

  abbrev pub is_split : ℕ → {A : Type 0} → List A → Bool
  is_split point xs = not (point == 0 || point == length xs)

  -- `combine`, on fuel: every call is on a shorter slice, so the length is enough.
  unfoldable pub combine_on : ℕ → List Commitment → Result (Option Commitment)
  unfolding differing_bit bit branch
  combine_on zero nodes = panic
  combine_on (suc fuel) [] = ok none
  combine_on (suc fuel) (n ∷ []) = ok (some n)
  combine_on (suc fuel) (n ∷ m ∷ ns) = do
    final ← expect (get_last? (m ∷ ns))
    depth ← ok_or (differing_bit bits n.min_key final.max_key) invalid_state_multiproof
    let split = partition_point (λ (x : Commitment). not (bit bits x.max_key depth)) (n ∷ m ∷ ns)
    fail_if
        (not (is_split split (n ∷ m ∷ ns))
          || any (λ (x : Commitment). bit bits x.min_key depth) (take split (n ∷ m ∷ ns))
          || any (λ (x : Commitment). not (bit bits x.min_key depth)) (drop split (n ∷ m ∷ ns)))
        invalid_state_multiproof
    left ← combine_on fuel (take split (n ∷ m ∷ ns))
    left_node ← ok_or left invalid_state_multiproof
    right ← combine_on fuel (drop split (n ∷ m ∷ ns))
    right_node ← ok_or right invalid_state_multiproof
    joined ← branch left_node right_node
    ok (some joined)

  unfoldable pub combine : List Commitment → Result (Option Commitment)
  unfolding combine_on
  combine nodes = combine_on (suc (length nodes)) nodes

  module _ {L : Type 0} (leaves : PatriciaLeaf L) where
    -- `leaf`, with the hash of `Leaf`.
    unfoldable pub leaf_commitment : L → Commitment
    unfolding domain_hash
    leaf_commitment value = record {
      root =
          domain_hash c (ascii "ZKCLOB_PATRICIA_LEAF_V1")
            (key_bytes bits (leaves.key value) ++ b256_bytes (leaves.hash value));
      min_key = leaves.key value;
      max_key = leaves.key value;
    }

    -- `build`, on fuel as `combine`.
    unfoldable pub build_on : ℕ → List L → Result Node
    unfolding differing_bit bit branch leaf_commitment
    build_on zero values = panic
    build_on (suc fuel) [] = ok Node.empty
    build_on (suc fuel) (v ∷ []) = ok (Node.leaf (leaf_commitment v))
    build_on (suc fuel) (v ∷ w ∷ vs) = do
      final ← expect (get_last? (w ∷ vs))
      depth ← ok_or (differing_bit bits (leaves.key v) (leaves.key final)) invalid_state_multiproof
      let split = partition_point (λ (x : L). not (bit bits (leaves.key x) depth)) (v ∷ w ∷ vs)
      fail_if (not (is_split split (v ∷ w ∷ vs))) invalid_state_multiproof
      left ← build_on fuel (take split (v ∷ w ∷ vs))
      right ← build_on fuel (drop split (v ∷ w ∷ vs))
      left_commitment ← expect (commitment left)
      right_commitment ← expect (commitment right)
      joined ← branch left_commitment right_commitment
      ok (Node.branch joined left right)

    unfoldable pub build : List L → Result Node
    unfolding build_on
    build values = build_on (suc (length values)) values

    -- `PatriciaMerkleTree::sorted`
    unfoldable pub sorted : List L → Result (List L)
    sorted values = do
      let ordered = sort_unstable (λ (x y : L). ltb (leaves.key x) (leaves.key y)) values
      fail_if (any_pair (λ (x y : L). leaves.key x == leaves.key y) ordered)
          invalid_state_multiproof
      ok ordered

    -- `PatriciaMerkleTree::compute_root`
    unfoldable pub compute_root : List L → Result B256
    unfolding sorted build finalize
    compute_root values = do
      ordered ← sorted values
      tree ← build ordered
      ok (finalize (commitment tree))

    -- The loop that merges the leaves and the side nodes by their least key.
    unfoldable pub merge_nodes : List Commitment → List PatriciaSubtree → List Commitment
    merge_nodes [] [] = []
    merge_nodes (l ∷ ls) [] = l ∷ merge_nodes ls []
    merge_nodes [] (n ∷ ns) = n ∷ merge_nodes [] ns
    merge_nodes (l ∷ ls) (n ∷ ns) = elim (ltb l.min_key n.min_key) [
      | true ↦ l ∷ merge_nodes ls (n ∷ ns)
      | false ↦ n ∷ merge_nodes (l ∷ ls) ns
    ]

    abbrev pub first_at_most : Option ℕ → ℕ → Bool
    first_at_most none bound = false
    first_at_most (some key) bound = leb key bound

    -- Whether a selected key lies in the range of a subtree, as in `selected_in`.
    unfoldable pub selected_in : List ℕ → PatriciaSubtree → Bool
    selected_in keys node =
        first_at_most (get_elem? keys (partition_point (λ key. ltb key node.min_key) keys))
          node.max_key

    -- `PatriciaMerkleTree::compute_root_from_proof`
    unfoldable pub compute_root_from_proof : List L → PatriciaMultiproof → Result B256
    unfolding sorted leaf_commitment merge_nodes selected_in combine finalize
    compute_root_from_proof values proof = do
      fail_if
          (is_empty proof.leaf_keys
            || any_pair (λ x y. leb y x) proof.leaf_keys
            || any (λ (n : PatriciaSubtree). ltb n.max_key n.min_key) proof.side_nodes
            || any_pair (λ (x y : PatriciaSubtree). leb y.min_key x.max_key) proof.side_nodes)
          invalid_state_multiproof
      ordered ← sorted values
      fail_if
          (any (λ (v : L). is_vacant (binary_search_by_key (λ k. k) proof.leaf_keys (leaves.key v)))
              ordered
            || any (selected_in proof.leaf_keys) proof.side_nodes)
          invalid_state_multiproof
      let nodes = merge_nodes (map leaf_commitment ordered) proof.side_nodes
      fail_if (any_pair (λ (x y : Commitment). leb y.min_key x.max_key) nodes)
          invalid_state_multiproof
      node ← combine nodes
      ok (finalize node)

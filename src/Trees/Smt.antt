-- ===== src/Trees/Smt.antt =====
-- crates/core/src/trees/smt.rs. `bits` is `SparseMerkleKey::BITS`: a key is a number of that many bits,
-- of which bit 0 is the most significant. `empty_hashes` is the table of smt_empty_hashes.rs. A depth
-- comes with the number of levels that remain below it: none is left where the depth is `bits`.
pub mod Bitmap
pub mod Bytes
pub mod Codec
pub mod Reader
pub mod Levels
pub mod Spec
pub mod Writing
pub mod Reading
pub mod Selecting
pub mod RoundTrip
use zk_clob.Prelude.{
  ℕ, zero, suc, ◌+◌, ◌-◌, ◌*◌, ◌/◌, ◌%◌, ◌^◌, Bool, true, false, not, ◌&&◌, ◌||◌, Option, none,
  some, List, [], ◌∷◌, ◌++◌, map, length, get_elem?, set, any, any_pair, is_empty, take, drop,
  partition_point, sort_unstable, ltb, leb, ◌==◌, if◌then◌else◌, ascii,
}
use zk_clob.Types.Ids.{B256}
use zk_clob.Hashing.{Crypto, domain_hash, b256_bytes}
use zk_clob.Trees.Patricia.{bit}
use zk_clob.Trees.Attempts.{Attempt, done, failed, crashed, fail_when, done_or, demand, ◌>>=◌, ◌>>◌}

pub data SparseMerkleError : Type 0 where
  invalid_multiproof : SparseMerkleError

-- `SparseMerkleLeaf`, with the hash of `DomainSha256Hash`.
pub record SparseMerkleLeaf (L : Type 0) : Type 0 where
  pub key : L → ℕ
  pub hash : L → B256

pub record SparseMerkleMultiproof : Type 0 where
  pub leaf_keys : List ℕ
  pub sibling_bitmap : List ℕ
  pub side_nodes : List B256

pub record ProofLeaf (L : Type 0) : Type 0 where
  pub key : ℕ
  pub value : Option L

-- `byte & (1 << shift) != 0`
abbrev pub has_bit : ℕ → ℕ → Bool
has_bit byte shift = (byte / 2 ^ shift) % 2 == 1

-- `byte | 1 << shift`
abbrev pub with_bit : ℕ → ℕ → ℕ
with_bit byte shift = if has_bit byte shift then byte else byte + 2 ^ shift

pub record ProofBuilder : Type 0 where
  pub bitmap : List ℕ
  pub bit_count : ℕ
  pub side_nodes : List B256

-- `self.bitmap[index] |= 1 << shift`
abbrev pub set_bit_in : List ℕ → ℕ → ℕ → Attempt SparseMerkleError (List ℕ)
set_bit_in bitmap index shift = do
  byte ← demand (get_elem? bitmap index)
  done (set bitmap index (with_bit byte shift))

-- `ProofBuilder::push_bit`
unfoldable pub push_bit : ProofBuilder → Bool → Attempt SparseMerkleError ProofBuilder
push_bit b value =
    let grown = if b.bit_count % 8 == 0 then b.bitmap ++ (0 ∷ []) else b.bitmap in
    (do
      written ←
          if value then set_bit_in grown (b.bit_count / 8) (7 - b.bit_count % 8) else done grown
      done (record { bitmap = written; bit_count = b.bit_count + 1; side_nodes = b.side_nodes }))

-- `ProofBuilder::push_subtree`
unfoldable pub push_subtree :
    ProofBuilder → (root empty_root : B256) → Attempt SparseMerkleError ProofBuilder
unfolding push_bit
push_subtree b root empty_root = do
  pushed ← push_bit b (not (root == empty_root))
  done (
      if not (root == empty_root)
      then record pushed { side_nodes = pushed.side_nodes ++ (root ∷ []) }
      else pushed)

pub record ProofReader : Type 0 where
  pub bitmap : List ℕ
  pub bit_index : ℕ
  pub side_nodes : List B256

abbrev pub next_side_node : ProofReader → List B256 → Attempt SparseMerkleError (B256 × ProofReader)
next_side_node reader [] = failed invalid_multiproof
next_side_node reader (n ∷ ns) = done (n, record reader { side_nodes = ns })

-- `ProofReader::missing_subtree`
unfoldable pub missing_subtree : ProofReader → B256 → Attempt SparseMerkleError (B256 × ProofReader)
missing_subtree reader empty_root = do
  fail_when (leb (length reader.bitmap * 8) reader.bit_index) invalid_multiproof
  byte ← demand (get_elem? reader.bitmap (reader.bit_index / 8))
  let moved = record reader { bit_index = reader.bit_index + 1 }
  if has_bit byte (7 - reader.bit_index % 8)
      then next_side_node moved moved.side_nodes
      else done (empty_root, moved)

-- `trailing_bits_are_zero` of `finish`.
abbrev pub has_zero_tail : ProofReader → Attempt SparseMerkleError Bool
has_zero_tail reader = do
  byte ← demand (get_elem? reader.bitmap ((reader.bit_index + 7) / 8 - 1))
  done (byte % 2 ^ (8 - reader.bit_index % 8) == 0)

-- `ProofReader::finish`
unfoldable pub finish : ProofReader → Attempt SparseMerkleError (Unit {0})
finish reader = do
  trailing_bits_are_zero ← if reader.bit_index % 8 == 0 then done true else has_zero_tail reader
  fail_when
      (not ((reader.bit_index + 7) / 8 == length reader.bitmap)
        || not trailing_bits_are_zero
        || not (is_empty reader.side_nodes))
      invalid_multiproof

module _ (c : Crypto) where
  -- The hash of `Node`.
  unfoldable pub node_hash : (left right : B256) → B256
  unfolding domain_hash
  node_hash left right =
      domain_hash c (ascii "ZKCLOB_SMT_NODE_V1") (b256_bytes left ++ b256_bytes right)

module _ (c : Crypto) (bits : ℕ) (empty_hashes : List B256) {L : Type 0}
    (leaves : SparseMerkleLeaf L) where
  -- `ProofLeaf::present` and `ProofLeaf::absent`
  abbrev pub present : L → ProofLeaf L
  present value = record { key = leaves.key value; value = some value }

  abbrev pub absent : ℕ → ProofLeaf L
  absent key = record { key = key; value = none }

  -- `ProofLeaf::hash`
  abbrev pub hash_of : Option L → B256 → B256
  hash_of none empty_leaf = empty_leaf
  hash_of (some value) empty_leaf = leaves.hash value

  -- `empty_hash`
  unfoldable pub empty_hash : ℕ → Attempt SparseMerkleError B256
  empty_hash depth =
      if ltb bits depth then crashed else demand (get_elem? empty_hashes (bits - depth))

  -- `split`
  abbrev pub split : List (ProofLeaf L) → ℕ → ℕ
  split ls depth = partition_point (λ (l : ProofLeaf L). not (bit bits l.key depth)) ls

  -- `subtree_root`
  unfoldable pub subtree_root : ℕ → List (ProofLeaf L) → ℕ → Attempt SparseMerkleError B256
  unfolding bit node_hash empty_hash
  subtree_root remaining [] depth = empty_hash depth
  subtree_root zero (l ∷ ls) depth = do
    empty_leaf ← empty_hash depth
    done (hash_of l.value empty_leaf)
  subtree_root (suc remaining) (l ∷ ls) depth = do
    left ← subtree_root remaining (take (split (l ∷ ls) depth) (l ∷ ls)) (depth + 1)
    right ← subtree_root remaining (drop (split (l ∷ ls) depth) (l ∷ ls)) (depth + 1)
    done (node_hash c left right)

  -- `build_proof`
  unfoldable pub build_proof :
      ℕ
      → (all selected : List (ProofLeaf L)) → ℕ
      → ProofBuilder
      → Attempt SparseMerkleError ProofBuilder
  unfolding bit empty_hash subtree_root push_subtree
  build_proof remaining all [] depth proof = do
    root ← subtree_root remaining all depth
    empty_root ← empty_hash depth
    push_subtree proof root empty_root
  build_proof zero all (s ∷ ss) depth proof = done proof
  build_proof (suc remaining) all (s ∷ ss) depth proof = do
    after_left ←
        build_proof remaining (take (split all depth) all) (take (split (s ∷ ss) depth) (s ∷ ss))
          (depth + 1) proof
    build_proof remaining (drop (split all depth) all) (drop (split (s ∷ ss) depth) (s ∷ ss))
        (depth + 1) after_left

  -- `root_from_proof`
  unfoldable pub root_from_proof :
      ℕ → List (ProofLeaf L) → ℕ → ProofReader → Attempt SparseMerkleError (B256 × ProofReader)
  unfolding bit empty_hash node_hash missing_subtree
  root_from_proof remaining [] depth proof = do
    empty_root ← empty_hash depth
    missing_subtree proof empty_root
  root_from_proof zero (l ∷ ls) depth proof = do
    fail_when (not (length (l ∷ ls) == 1)) invalid_multiproof
    empty_leaf ← empty_hash depth
    done (hash_of l.value empty_leaf, proof)
  root_from_proof (suc remaining) (l ∷ ls) depth proof = do
    left ← root_from_proof remaining (take (split (l ∷ ls) depth) (l ∷ ls)) (depth + 1) proof
    right ← root_from_proof remaining (drop (split (l ∷ ls) depth) (l ∷ ls)) (depth + 1) left.1
    done (node_hash c left.0 right.0, right.1)

  -- `SparseMerkleTree::leaves`
  unfoldable pub sorted_leaves : List L → Attempt SparseMerkleError (List (ProofLeaf L))
  sorted_leaves values = do
    let ls = sort_unstable (λ (x y : ProofLeaf L). ltb x.key y.key) (map present values)
    fail_when (any_pair (λ (x y : ProofLeaf L). x.key == y.key) ls) invalid_multiproof
    done ls

  -- `SparseMerkleTree::ordered_leaves`
  unfoldable pub ordered_leaves : List L → Attempt SparseMerkleError (List (ProofLeaf L))
  ordered_leaves values = do
    let ls = map present values
    fail_when (any_pair (λ (x y : ProofLeaf L). leb y.key x.key) ls) invalid_multiproof
    done ls

  -- The inner loop of `select_leaves`: the leaves from the first that is not below the key.
  unfoldable pub skip_below :
      ℕ → Bool → List (ProofLeaf L) → Attempt SparseMerkleError (List (ProofLeaf L))
  skip_below key reject [] = done []
  skip_below key reject (l ∷ ls) =
      let rest = skip_below key reject ls in
      if ltb l.key key then (if reject then failed invalid_multiproof else rest) else done (l ∷ ls)

  -- The leaf of a key, and the leaves that are left.
  abbrev pub take_leaf :
      ℕ → List (ProofLeaf L) → Attempt SparseMerkleError (ProofLeaf L × List (ProofLeaf L))
  take_leaf key [] = done (absent key, [])
  take_leaf key (l ∷ ls) =
      if l.key == key
      then (do value ← demand l.value; done (present value, ls))
      else done (absent key, l ∷ ls)

  -- `SparseMerkleTree::select_leaves`
  unfoldable pub select_leaves :
      List ℕ → List (ProofLeaf L) → Bool → Attempt SparseMerkleError (List (ProofLeaf L))
  unfolding skip_below
  select_leaves [] ls reject_unselected = do
    fail_when (reject_unselected && not (is_empty ls)) invalid_multiproof
    done []
  select_leaves (key ∷ keys) ls reject_unselected = do
    from_key ← skip_below key reject_unselected ls
    taken ← take_leaf key from_key
    rest ← select_leaves keys taken.1 reject_unselected
    done (taken.0 ∷ rest)

  -- `SparseMerkleTree::compute_root`
  unfoldable pub compute_root : List L → Attempt SparseMerkleError B256
  unfolding sorted_leaves subtree_root
  compute_root values = do ls ← sorted_leaves values; subtree_root bits ls 0

  -- `SparseMerkleTree::build_multiproof`
  unfoldable pub build_multiproof :
      List L → List ℕ → Attempt SparseMerkleError SparseMerkleMultiproof
  unfolding sorted_leaves select_leaves build_proof
  build_multiproof values selected_keys = do
    all ← sorted_leaves values
    fail_when (is_empty selected_keys) invalid_multiproof
    let leaf_keys = sort_unstable ltb selected_keys
    fail_when (any_pair ◌==◌ leaf_keys) invalid_multiproof
    selected ← select_leaves leaf_keys all false
    proof ← build_proof bits all selected 0 (record { bitmap = []; bit_count = 0; side_nodes = [] })
    done (record {
      leaf_keys = leaf_keys;
      sibling_bitmap = proof.bitmap;
      side_nodes = proof.side_nodes;
    })

  -- `SparseMerkleTree::compute_root_from_proof`, with `validate_keys` and `reader` of the proof.
  unfoldable pub compute_root_from_proof :
      List L → SparseMerkleMultiproof → Attempt SparseMerkleError B256
  unfolding ordered_leaves select_leaves root_from_proof finish
  compute_root_from_proof values proof = do
    fail_when (is_empty proof.leaf_keys || any_pair (λ x y. leb y x) proof.leaf_keys)
        invalid_multiproof
    supplied ← ordered_leaves values
    ls ← select_leaves proof.leaf_keys supplied true
    root ←
        root_from_proof bits ls 0
          (record { bitmap = proof.sibling_bitmap; bit_index = 0; side_nodes = proof.side_nodes })
    finish root.1
    done root.0

-- ===== src/Trees/Accepted.antt =====
-- What `compute_root_from_proof` of crates/core/src/trees/patricia.rs accepts.
use zk_clob.Prelude.{
  ℕ, ◌≡◌, refl, Bool, true, false, ◌||◌, List, [], ◌∷◌, map, any, any_pair, is_empty, All, is_key,
  is_key-later, Search, found, vacant, further, is_vacant, binary_search_by_key, ltb, leb, ◌==◌,
  inl, inr, Bool-cases, arith,
}
use zk_clob.Types.Ids.{B256}
use zk_clob.Types.Batch.{PatriciaSubtree, PatriciaMultiproof}
use zk_clob.Types.Errors.{ok, err, invalid_state_multiproof}
use zk_clob.Hashing.{Crypto}
use zk_clob.Trees.Patricia.{PatriciaLeaf, compute_root_from_proof}
use zk_clob.Trees.Keyed.{sorted_ascending}
use zk_clob.Settlement.Validation.Accounts.Ledger.{IsAscending}

either_false : (a b : Bool) → (a || b) ≡ false → a ≡ false
either_false true b e = cc
either_false false b e = refl

vacant_further : (s : Search) → is_vacant (further s) ≡ is_vacant s
vacant_further (found i) = refl
vacant_further (vacant i) = refl

-- A key that is found is there.
found_key :
    (ks : List ℕ) (k : ℕ)
    → is_vacant (binary_search_by_key (λ j. j) ks k) ≡ false
    → is_key ks k ≡ true
found_key [] k h = cc
found_key (j ∷ ks) k h = elim (Bool-cases (ltb j k)) [
  | inl below ↦
      let tail : is_vacant (further (binary_search_by_key (λ i. i) ks k)) ≡ false = rw below at h in
      let later : is_vacant (binary_search_by_key (λ i. i) ks k) ≡ false =
        rw (vacant_further (binary_search_by_key (λ i. i) ks k)) at tail in
      is_key-later j k ks (found_key ks k later)
  | inr above ↦ elim (Bool-cases (j == k)) [
    | inl same ↦ rw same refl
    | inr other ↦ (let miss : true ≡ false = rw (above, other) at h in cc)
  ]
]

module _ (c : Crypto) (bits : ℕ) {L : Type 0} (leaves : PatriciaLeaf L) where
  found_keys :
      (values : List L) (keys : List ℕ)
      → any (λ (v : L). is_vacant (binary_search_by_key (λ k. k) keys (leaves.key v))) values
        ≡ false
      → All (λ k. is_key keys k ≡ true) (map leaves.key values)
  found_keys [] keys h = tt
  found_keys (v ∷ vs) keys h =
      (found_key keys (leaves.key v) (either_false _ _ h), found_keys vs keys (ground (arith, h)))

  -- The values of a proof that is accepted are values of its keys.
  pub accepted_keys :
      (values : List L) (proof : PatriciaMultiproof) (root : B256)
      → IsAscending (map leaves.key values)
      → compute_root_from_proof c bits leaves values proof ≡ ok root
      → All (λ k. is_key proof.leaf_keys k ≡ true) (map leaves.key values)
  unfolding compute_root_from_proof
  accepted_keys values proof root ascending e = elim (Bool-cases bad_shape) [
    | inl bad ↦ (let refused : err invalid_state_multiproof ≡ ok root = rw bad at e in cc)
    | inr good ↦ elim (Bool-cases missing) [
      | inl bad ↦
          let refused : err invalid_state_multiproof ≡ ok root =
            rw (good, sorted_ascending c bits leaves values ascending, bad) at e in
          cc
      | inr all_found ↦ found_keys values proof.leaf_keys all_found
    ]
  ]
    where
      bad_shape : Bool
      bad_shape =
          is_empty proof.leaf_keys
          || any_pair (λ x y. leb y x) proof.leaf_keys
          || any (λ (n : PatriciaSubtree). ltb n.max_key n.min_key) proof.side_nodes
          || any_pair (λ (x y : PatriciaSubtree). leb y.min_key x.max_key) proof.side_nodes

      missing : Bool
      missing =
          any (λ (v : L). is_vacant (binary_search_by_key (λ k. k) proof.leaf_keys (leaves.key v)))
            values

-- ===== src/Trees/Smt/Writing.antt =====
-- What `subtree_root` and `build_proof` of crates/core/src/trees/smt.rs make of values in order.
use mathlib.Core.Path.{subst}
use mathlib.Core.List.{append_assoc, append-nil}
use zk_clob.Prelude.{
  ℕ, zero, suc, ◌+◌, ◌*◌, ◌<◌, ◌≡◌, refl, sym, List, [], ◌∷◌, ◌++◌, map, length, arith,
}
use zk_clob.Types.Ids.{B256}
use zk_clob.Hashing.{Crypto}
use zk_clob.Trees.Attempts.{done}
use zk_clob.Trees.Smt.{SparseMerkleLeaf, ProofBuilder, present, subtree_root, build_proof}
use zk_clob.Trees.Smt.Codec.{Missing, IsBuilder, push_subtree-IsBuilder}
use zk_clob.Trees.Smt.Levels.{
  is_high, is_low, Class, lows, highs, retain-IsAscending, lows-Class, highs-Class, KeyHalves,
  key_halves,
}
use zk_clob.Trees.Smt.Spec.{
  entry, root_of, leaves_at, missing, empty_hash_lem, Halves, present-Halves, leaves_at-Halves,
}
use zk_clob.Settlement.Validation.Accounts.Ledger.{IsAscending}

module _ (c : Crypto) (bits : ℕ) (table : List B256) {L : Type 0} (leaves : SparseMerkleLeaf L)
    (long : bits < length table) where
  pub subtree_root_lem :
      (r : ℕ) (vs : List L) (depth p : ℕ)
      → depth + r ≡ bits
      → IsAscending (map leaves.key vs)
      → Class r p (map leaves.key vs)
      → subtree_root c bits table leaves r (map (present c bits table leaves) vs) depth
        ≡ done (root_of c bits table leaves r vs)
  unfolding subtree_root
  subtree_root_lem zero [] depth p e h k = empty_hash_lem c bits table leaves depth 0 e long
  subtree_root_lem zero (v ∷ vs) depth p e h k =
      rw (empty_hash_lem c bits table leaves depth 0 e long) refl
  subtree_root_lem (suc r) [] depth p e h k =
      empty_hash_lem c bits table leaves depth (suc r) e long
  subtree_root_lem (suc r) (v ∷ vs) depth p e h k =
      let halves : Halves c bits table leaves (map (present c bits table leaves) (v ∷ vs))
          (map (present c bits table leaves) (lows leaves.key r (v ∷ vs)))
          (map (present c bits table leaves) (highs leaves.key r (v ∷ vs))) depth =
        present-Halves c bits table leaves (v ∷ vs) depth r p e h k in
      let left : subtree_root c bits table leaves r
            (map (present c bits table leaves) (lows leaves.key r (v ∷ vs))) (depth + 1)
          ≡ done (root_of c bits table leaves r (lows leaves.key r (v ∷ vs))) =
        subtree_root_lem r (lows leaves.key r (v ∷ vs)) (depth + 1) (2 * p) (omega (arith, e))
          (retain-IsAscending leaves.key (λ x. is_low r (leaves.key x)) (v ∷ vs) h)
          (lows-Class leaves.key r p (v ∷ vs) k) in
      let right : subtree_root c bits table leaves r
            (map (present c bits table leaves) (highs leaves.key r (v ∷ vs))) (depth + 1)
          ≡ done (root_of c bits table leaves r (highs leaves.key r (v ∷ vs))) =
        subtree_root_lem r (highs leaves.key r (v ∷ vs)) (depth + 1) (2 * p + 1) (omega (arith, e))
          (retain-IsAscending leaves.key (λ x. is_high r (leaves.key x)) (v ∷ vs) h)
          (highs-Class leaves.key r p (v ∷ vs) k) in
      rw (halves.low_is, halves.high_is, left, right) refl

  abbrev pub Built : ℕ → List L → List ℕ → ℕ → ProofBuilder → List Missing → Type 0
  Built r vs ks depth b ms =
      (b' : ProofBuilder) × (build_proof c bits table leaves r
          (map (present c bits table leaves) vs) (leaves_at c bits table leaves ks vs) depth b
        ≡ done b')
      × IsBuilder b' (ms ++ missing c bits table leaves r vs ks)

  -- The proof of some keys lacks the subtrees without one.
  pub build_proof_lem :
      (r : ℕ) (vs : List L) (ks : List ℕ) (depth p : ℕ) (b : ProofBuilder) (ms : List Missing)
      → depth + r ≡ bits
      → IsAscending (map leaves.key vs)
      → Class r p (map leaves.key vs)
      → IsAscending ks
      → Class r p ks
      → IsBuilder b ms
      → Built r vs ks depth b ms
  unfolding build_proof
  build_proof_lem zero vs [] depth p b ms e h k i q w =
      rw (subtree_root_lem zero vs depth p e h k, empty_hash_lem c bits table leaves depth 0 e long)
        (push_subtree-IsBuilder b ms (root_of c bits table leaves 0 vs, entry table 0) w)
  build_proof_lem (suc r) vs [] depth p b ms e h k i q w =
      rw
        (
          subtree_root_lem (suc r) vs depth p e h k,
          empty_hash_lem c bits table leaves depth (suc r) e long,
        )
        (push_subtree-IsBuilder b ms (root_of c bits table leaves (suc r) vs, entry table (suc r))
          w)
  build_proof_lem zero vs (j ∷ js) depth p b ms e h k i q w =
      (b, refl, subst (IsBuilder b) (sym (append-nil ms)) w)
  build_proof_lem (suc r) vs (j ∷ js) depth p b ms e h k i q w =
      let halves : Halves c bits table leaves (map (present c bits table leaves) vs)
          (map (present c bits table leaves) (lows leaves.key r vs))
          (map (present c bits table leaves) (highs leaves.key r vs)) depth =
        present-Halves c bits table leaves vs depth r p e h k in
      let chosen : Halves c bits table leaves (leaves_at c bits table leaves (j ∷ js) vs)
          (leaves_at c bits table leaves (lows (λ j. j) r (j ∷ js)) (lows leaves.key r vs))
          (leaves_at c bits table leaves (highs (λ j. j) r (j ∷ js)) (highs leaves.key r vs))
          depth =
        leaves_at-Halves c bits table leaves (j ∷ js) vs depth r p e i q in
      let keys : KeyHalves r p (j ∷ js) = key_halves r p (j ∷ js) i q in
      let left : Built r (lows leaves.key r vs) (lows (λ j. j) r (j ∷ js)) (depth + 1) b ms =
        build_proof_lem r (lows leaves.key r vs) (lows (λ j. j) r (j ∷ js)) (depth + 1) (2 * p) b ms
          (omega (arith, e)) (retain-IsAscending leaves.key (λ x. is_low r (leaves.key x)) vs h)
          (lows-Class leaves.key r p vs k) keys.low_order keys.low_class w in
      let right : Built r (highs leaves.key r vs) (highs (λ j. j) r (j ∷ js)) (depth + 1) left.0
          (ms ++ missing c bits table leaves r (lows leaves.key r vs) (lows (λ j. j) r (j ∷ js))) =
        build_proof_lem r (highs leaves.key r vs) (highs (λ j. j) r (j ∷ js)) (depth + 1)
          (2 * p + 1) left.0
          (ms ++ missing c bits table leaves r (lows leaves.key r vs) (lows (λ j. j) r (j ∷ js)))
          (omega (arith, e)) (retain-IsAscending leaves.key (λ x. is_high r (leaves.key x)) vs h)
          (highs-Class leaves.key r p vs k) keys.high_order keys.high_class left.2 in
      (
        right.0,
        rw (halves.low_is, halves.high_is, chosen.low_is, chosen.high_is, left.1) right.1,
        subst (IsBuilder right.0)
            (append_assoc ms
              (missing c bits table leaves r (lows leaves.key r vs) (lows (λ j. j) r (j ∷ js)))
              (missing c bits table leaves r (highs leaves.key r vs) (highs (λ j. j) r (j ∷ js))))
            right.2,
      )

-- ===== src/Tests/Sparse.antt =====
-- The theorem on the sparse Merkle tree, on keys of eight bits.
use zk_clob.Prelude.{ℕ, zero, suc, ◌≡◌, refl, [], ◌∷◌, List, arith}
use zk_clob.Types.Ids.{B256}
use zk_clob.Trees.Attempts.{done}
use zk_clob.Trees.Smt.{
  SparseMerkleLeaf, SparseMerkleMultiproof, node_hash, compute_root, build_multiproof,
  compute_root_from_proof,
}
use zk_clob.Trees.Smt.Spec.{Doubles}
use zk_clob.Trees.Smt.RoundTrip.{selected, root_from_proof-build_proof}
use zk_clob.Tests.Fixture.{toy_crypto}

-- A leaf is its key and a value, which is its hash.
abbrev leaf : SparseMerkleLeaf (ℕ × ℕ)
leaf = record { key = λ l. l.0; hash = λ l. l.1 }

abbrev doubled : ℕ → B256 → List B256
doubled zero hash = hash ∷ []
doubled (suc n) hash = hash ∷ doubled n (node_hash toy_crypto hash hash)

doubled-Doubles : (n : ℕ) (hash : B256) → Doubles toy_crypto (doubled n hash)
doubled-Doubles zero hash = tt
doubled-Doubles (suc zero) hash = (refl, tt)
doubled-Doubles (suc (suc n)) hash =
    (refl, doubled-Doubles (suc n) (node_hash toy_crypto hash hash))

abbrev table : List B256
table = doubled 8 7

-- Key 1 changed, key 2 inserted, key 200 taken away, key 9 left alone.
abbrev old : List (ℕ × ℕ)
old = (1, 10) ∷ (9, 30) ∷ (200, 20) ∷ []

abbrev new : List (ℕ × ℕ)
new = (1, 11) ∷ (2, 20) ∷ (9, 30) ∷ []

root_from_proof-build_proof_example :
    (proof : SparseMerkleMultiproof) × (root : B256) × (build_multiproof toy_crypto 8 table leaf old
        (1 ∷ 2 ∷ 200 ∷ [])
      ≡ done proof)
    × (compute_root_from_proof toy_crypto 8 table leaf
          (selected toy_crypto 8 table leaf (1 ∷ 2 ∷ 200 ∷ []) new)
          proof
        ≡ done root)
    × (compute_root toy_crypto 8 table leaf new ≡ done root)
root_from_proof-build_proof_example =
    root_from_proof-build_proof toy_crypto 8 table leaf old new (1 ∷ 2 ∷ 200 ∷ []) (omega arith)
      (doubled-Doubles 8 7) (omega arith) (omega arith) (omega arith) (omega arith) (omega arith)
      (omega arith) refl refl

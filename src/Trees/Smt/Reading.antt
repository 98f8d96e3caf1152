-- ===== src/Trees/Smt/Reading.antt =====
-- What `root_from_proof` of crates/core/src/trees/smt.rs reads of a proof, for values that differ at its keys.
use mathlib.Core.Path.{subst}
use mathlib.Core.List.{append_assoc}
use zk_clob.Prelude.{
  ℕ, zero, suc, ◌+◌, ◌*◌, ◌<◌, ◌≡◌, refl, sym, ap, ◌∙◌, Bool, true, false, not, ◌||◌, List, [], ◌∷◌,
  ◌++◌, map, length, retain, is_key, ◌==◌, inl, inr, Bool-cases, arith,
}
use zk_clob.Types.Ids.{B256}
use zk_clob.Hashing.{Crypto}
use zk_clob.Trees.Attempts.{done}
use zk_clob.Trees.Smt.{SparseMerkleLeaf, ProofReader, node_hash, missing_subtree, root_from_proof}
use zk_clob.Trees.Smt.Reader.{IsReader, missing_subtree-IsReader}
use zk_clob.Trees.Smt.Codec.{Missing, flag}
use zk_clob.Trees.Smt.Levels.{
  is_high, is_low, Class, lows, highs, retain-IsAscending, lows-Class, highs-Class, KeyHalves,
  key_halves,
}
use zk_clob.Trees.Smt.Spec.{
  entry, Doubles, Doubles-entry, root_of, leaves_at, missing, empty_hash_lem, Halves,
  leaves_at-Halves,
}
use zk_clob.Settlement.Validation.Accounts.Ledger.{IsAscending}

module _ (c : Crypto) (bits : ℕ) (table : List B256) {L : Type 0} (leaves : SparseMerkleLeaf L)
    (long : bits < length table) where
  -- The values of other keys.
  abbrev pub untouched : List ℕ → List L → List L
  untouched ks = retain (λ v. not (is_key ks (leaves.key v)))

  is_key-retain :
      (test : ℕ → Bool) (ks : List ℕ) (k : ℕ)
      → test k ≡ true
      → is_key (retain test ks) k ≡ is_key ks k
  is_key-retain test [] k h = refl
  is_key-retain test (j ∷ ks) k h = elim (Bool-cases (test j)) [
    | inl passes ↦ rw passes (ap (λ b. (j == k) || b) (is_key-retain test ks k h))
    | inr fails ↦ elim (Bool-cases (j == k)) [
      | inl same ↦
          let one : j ≡ k = ground arith in
          let both : true ≡ false = sym h ∙ ap test (sym one) ∙ fails in absurd (cc)
      | inr other ↦ rw (fails, other) (is_key-retain test ks k h)
    ]
  ]

  untouched-retain :
      (test : ℕ → Bool) (ks : List ℕ) (vs : List L)
      → untouched (retain test ks) (retain (λ v. test (leaves.key v)) vs)
        ≡ retain (λ v. test (leaves.key v)) (untouched ks vs)
  untouched-retain test ks [] = refl
  untouched-retain test ks (v ∷ vs) = elim (Bool-cases (test (leaves.key v))) [
    | inl passes ↦
        rw (passes, is_key-retain test ks (leaves.key v) passes)
          (elim (Bool-cases (is_key ks (leaves.key v))) [
            | inl key ↦ rw key (untouched-retain test ks vs)
            | inr missed ↦ rw (missed, passes) (ap (λ xs. v ∷ xs) (untouched-retain test ks vs))
          ])
    | inr fails ↦ rw fails (elim (Bool-cases (is_key ks (leaves.key v))) [
      | inl key ↦ rw key (untouched-retain test ks vs)
      | inr missed ↦ rw (missed, fails) (untouched-retain test ks vs)
    ])
  ]

  untouched_none : (vs : List L) → untouched [] vs ≡ vs
  untouched_none [] = refl
  untouched_none (v ∷ vs) = ap (λ xs. v ∷ xs) (untouched_none vs)

  -- No value, no level: a node of two empty subtrees is an empty subtree.
  root_of_nodes :
      (r : ℕ) (vs : List L)
      → suc r < length table
      → Doubles c table
      → root_of c bits table leaves (suc r) vs
        ≡ node_hash c
            (root_of c bits table leaves r (lows leaves.key r vs))
            (root_of c bits table leaves r (highs leaves.key r vs))
  root_of_nodes zero [] lt h = Doubles-entry c table 0 lt h
  root_of_nodes (suc r) [] lt h = Doubles-entry c table (suc r) lt h
  root_of_nodes r (v ∷ vs) lt h = refl

  abbrev pub Read : ℕ → List L → List ℕ → ℕ → ProofReader → List Missing → Type 0
  Read r new ks depth proof rest =
      (proof' : ProofReader) × (before : List Bool) × (root_from_proof c bits table leaves r
          (leaves_at c bits table leaves ks new) depth proof
        ≡ done (root_of c bits table leaves r new, proof'))
      × IsReader proof' before rest

  -- A subtree without a key is read.
  Read-missing :
      (r : ℕ) (old new : List L) (depth : ℕ) (proof : ProofReader) (before : List Bool)
      (rest : List Missing)
      → depth + r ≡ bits
      → untouched [] new ≡ untouched [] old
      → IsReader proof before ((root_of c bits table leaves r old, entry table r) ∷ rest)
      → Read r new [] depth proof rest
  unfolding root_from_proof
  Read-missing r old new depth proof before rest e same w =
      let next : (r' : ProofReader) × (missing_subtree proof (entry table r)
            ≡ done (root_of c bits table leaves r old, r'))
          × IsReader r' (before ++ (flag (root_of c bits table leaves r old, entry table r) ∷ []))
              rest =
        missing_subtree-IsReader proof before (root_of c bits table leaves r old, entry table r)
          rest w in
      let equal : old ≡ new = sym (untouched_none old) ∙ sym same ∙ untouched_none new in
      (
        next.0,
        before ++ (flag (root_of c bits table leaves r old, entry table r) ∷ []),
        rw (empty_hash_lem c bits table leaves depth r e long)
            (next.1 ∙ ap (λ (vs : List L). done (root_of c bits table leaves r vs, next.0)) equal),
        next.2,
      )

  -- The leaf of the one key that is left.
  read_leaf :
      (new : List L) (k : ℕ) (ks : List ℕ) (depth p : ℕ) (proof : ProofReader)
      → depth + 0 ≡ bits
      → IsAscending (map leaves.key new)
      → Class 0 p (map leaves.key new)
      → IsAscending (k ∷ ks)
      → Class 0 p (k ∷ ks)
      → root_from_proof c bits table leaves 0
          (leaves_at c bits table leaves (k ∷ ks) new)
          depth
          proof
        ≡ done (root_of c bits table leaves 0 new, proof)
  unfolding root_from_proof
  read_leaf new k (j ∷ ks) depth p proof e h q i x = absurd (omega (arith, i.0, x.0, x.1.0))
  read_leaf [] k [] depth p proof e h q i x =
      rw (empty_hash_lem c bits table leaves depth 0 e long) refl
  read_leaf (v ∷ vs) k [] depth p proof e h q i x =
      let here : leaves.key v == k ≡ true =
        ground (arith, (let both : leaves.key v ≡ k = omega (arith, q.0, x.0) in both)) in
      rw (empty_hash_lem c bits table leaves depth 0 e long, here) refl

  pub root_from_proof_lem :
      (r : ℕ) (old new : List L) (ks : List ℕ) (depth p : ℕ) (proof : ProofReader)
      (before : List Bool) (rest : List Missing)
      → depth + r ≡ bits
      → Doubles c table
      → IsAscending (map leaves.key new)
      → Class r p (map leaves.key new)
      → IsAscending ks
      → Class r p ks
      → untouched ks new ≡ untouched ks old
      → IsReader proof before (missing c bits table leaves r old ks ++ rest)
      → Read r new ks depth proof rest
  unfolding root_from_proof
  root_from_proof_lem zero old new [] depth p proof before rest e d h k i q same w =
      Read-missing zero old new depth proof before rest e same w
  root_from_proof_lem (suc r) old new [] depth p proof before rest e d h k i q same w =
      Read-missing (suc r) old new depth proof before rest e same w
  root_from_proof_lem zero old new (j ∷ js) depth p proof before rest e d h k i q same w =
      (proof, before, read_leaf new j js depth p proof e h k i q, w)
  root_from_proof_lem (suc r) old new (j ∷ js) depth p proof before rest e d h k i q same w =
      let keys : KeyHalves r p (j ∷ js) = key_halves r p (j ∷ js) i q in
      let chosen : Halves c bits table leaves (leaves_at c bits table leaves (j ∷ js) new)
          (leaves_at c bits table leaves (lows (λ j. j) r (j ∷ js)) (lows leaves.key r new))
          (leaves_at c bits table leaves (highs (λ j. j) r (j ∷ js)) (highs leaves.key r new))
          depth =
        leaves_at-Halves c bits table leaves (j ∷ js) new depth r p e i q in
      let low_missing : List Missing =
        missing c bits table leaves r (lows leaves.key r old) (lows (λ j. j) r (j ∷ js)) in
      let high_missing : List Missing =
        missing c bits table leaves r (highs leaves.key r old) (highs (λ j. j) r (j ∷ js)) in
      let left : Read r (lows leaves.key r new) (lows (λ j. j) r (j ∷ js)) (depth + 1) proof
          (high_missing ++ rest) =
        root_from_proof_lem r (lows leaves.key r old) (lows leaves.key r new)
          (lows (λ j. j) r (j ∷ js)) (depth + 1) (2 * p) proof before (high_missing ++ rest)
          (omega (arith, e)) d (retain-IsAscending leaves.key (λ x. is_low r (leaves.key x)) new h)
          (lows-Class leaves.key r p new k) keys.low_order keys.low_class
          (untouched-retain (is_low r) (j ∷ js) new
            ∙ ap (lows leaves.key r) same
            ∙ sym (untouched-retain (is_low r) (j ∷ js) old))
          (subst (IsReader proof before) (append_assoc low_missing high_missing rest) w) in
      let right : Read r (highs leaves.key r new) (highs (λ j. j) r (j ∷ js)) (depth + 1) left.0
          rest =
        root_from_proof_lem r (highs leaves.key r old) (highs leaves.key r new)
          (highs (λ j. j) r (j ∷ js)) (depth + 1) (2 * p + 1) left.0 left.1 rest (omega (arith, e))
          d (retain-IsAscending leaves.key (λ x. is_high r (leaves.key x)) new h)
          (highs-Class leaves.key r p new k) keys.high_order keys.high_class
          (untouched-retain (is_high r) (j ∷ js) new
            ∙ ap (highs leaves.key r) same
            ∙ sym (untouched-retain (is_high r) (j ∷ js) old))
          left.3 in
      (
        right.0,
        right.1,
        rw (chosen.low_is, chosen.high_is, left.2, right.2)
            (ap (λ root. done (root, right.0))
              (sym (root_of_nodes r new (omega (arith, e, long)) d))),
        right.3,
      )

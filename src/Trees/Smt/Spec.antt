-- ===== src/Trees/Smt/Spec.antt =====
-- The root of a sparse tree by its levels, and the subtrees that a proof leaves out:
-- `subtree_root` and `build_proof` of crates/core/src/trees/smt.rs.
use mathlib.Core.Path.{subst}
use zk_clob.Prelude.{
  ℕ, zero, suc, ◌+◌, ◌-◌, ◌<◌, ◌≡◌, refl, sym, ap, ◌∙◌, Bool, true, false, not, Option, none, some,
  List, [], ◌∷◌, ◌++◌, map, length, get_elem?, retain, take, drop, partition_point, ltb, ◌==◌,
  if◌then◌else◌, inl, inr, Bool-cases, arith,
}
use zk_clob.Types.Ids.{B256}
use zk_clob.Hashing.{Crypto}
use zk_clob.Trees.Patricia.{bit}
use zk_clob.Trees.Attempts.{done}
use zk_clob.Trees.Smt.{SparseMerkleLeaf, ProofLeaf, node_hash, present, empty_hash, split}
use zk_clob.Trees.Smt.Codec.{Missing}
use zk_clob.Trees.Smt.Levels.{is_high, is_low, bit-is_high, Class, lows, highs, split_lem}
use zk_clob.Settlement.Validation.Accounts.Ledger.{IsAscending}

abbrev pub entry : List B256 → ℕ → B256
entry [] height = 0
entry (x ∷ xs) zero = x
entry (x ∷ xs) (suc height) = entry xs height

pub get_elem?-entry :
    (table : List B256) (height : ℕ)
    → height < length table
    → get_elem? table height ≡ some (entry table height)
get_elem?-entry [] height lt = absurd (omega (arith, lt))
get_elem?-entry (x ∷ xs) zero lt = refl
get_elem?-entry (x ∷ xs) (suc height) lt = get_elem?-entry xs height (omega (arith, lt))

-- Each hash of the table is the hash of a node with the one before it twice.
abbrev pub Doubles : Crypto → List B256 → Type 0
Doubles c [] = Unit
Doubles c (x ∷ []) = Unit
Doubles c (x ∷ y ∷ xs) = (y ≡ node_hash c x x) × Doubles c (y ∷ xs)

pub Doubles-entry :
    (c : Crypto) (table : List B256) (height : ℕ)
    → suc height < length table
    → Doubles c table
    → entry table (suc height) ≡ node_hash c (entry table height) (entry table height)
Doubles-entry c [] height lt h = absurd (omega (arith, lt))
Doubles-entry c (x ∷ []) height lt h = absurd (omega (arith, lt))
Doubles-entry c (x ∷ y ∷ xs) zero lt h = h.0
Doubles-entry c (x ∷ y ∷ xs) (suc height) lt h =
    Doubles-entry c (y ∷ xs) height (omega (arith, lt)) h.1

module _ (c : Crypto) (bits : ℕ) (table : List B256) {L : Type 0}
    (leaves : SparseMerkleLeaf L) where
  -- The root of some values with the levels below it.
  abbrev pub root_of : ℕ → List L → B256
  root_of zero [] = entry table 0
  root_of zero (v ∷ vs) = leaves.hash v
  root_of (suc r) [] = entry table (suc r)
  root_of (suc r) (v ∷ vs) =
      node_hash c (root_of r (lows leaves.key r (v ∷ vs))) (root_of r (highs leaves.key r (v ∷ vs)))

  -- The value of a key, and the leaves of some keys.
  abbrev pub find : ℕ → List L → Option L
  find key [] = none
  find key (v ∷ vs) = if leaves.key v == key then some v else find key vs

  abbrev pub leaf_at : List L → ℕ → ProofLeaf L
  leaf_at vs key = record { key = key; value = find key vs }

  abbrev pub leaves_at : List ℕ → List L → List (ProofLeaf L)
  leaves_at keys vs = map (leaf_at vs) keys

  -- The subtrees without a key, from the left.
  abbrev pub missing : ℕ → List L → List ℕ → List Missing
  missing r vs [] = (root_of r vs, entry table r) ∷ []
  missing zero vs (k ∷ ks) = []
  missing (suc r) vs (k ∷ ks) =
      missing r (lows leaves.key r vs) (lows (λ j. j) r (k ∷ ks))
      ++ missing r (highs leaves.key r vs) (highs (λ j. j) r (k ∷ ks))

  pub empty_hash_lem :
      (depth r : ℕ)
      → depth + r ≡ bits
      → bits < length table
      → empty_hash c bits table leaves depth ≡ done (entry table r)
  unfolding empty_hash
  empty_hash_lem depth r e lt =
      let inside : ltb bits depth ≡ false = ground (arith, e) in
      let height : bits - depth ≡ r = omega (arith, e) in
      rw (inside, height, get_elem?-entry table r (omega (arith, e, lt))) refl

  pub find-retain :
      (test : ℕ → Bool) (key : ℕ) (vs : List L)
      → test key ≡ true
      → find key vs ≡ find key (retain (λ v. test (leaves.key v)) vs)
  find-retain test key [] h = refl
  find-retain test key (v ∷ vs) h = elim (Bool-cases (leaves.key v == key)) [
    | inl same ↦
        let one : leaves.key v ≡ key = ground arith in
        let passes : test (leaves.key v) ≡ true = ap test one ∙ h in
        rw (same, passes) (rw same refl)
    | inr other ↦ elim (Bool-cases (test (leaves.key v))) [
      | inl passes ↦ rw (other, passes) (find-retain test key vs h ∙ rw other refl)
      | inr fails ↦ rw (other, fails) (find-retain test key vs h)
    ]
  ]

  -- The leaves of the keys that a test keeps.
  pub leaves_at-retain :
      (test : ℕ → Bool) (keys : List ℕ) (vs : List L)
      → retain (λ (l : ProofLeaf L). test l.key) (leaves_at keys vs)
        ≡ leaves_at (retain test keys) (retain (λ v. test (leaves.key v)) vs)
  leaves_at-retain test [] vs = refl
  leaves_at-retain test (k ∷ ks) vs = elim (Bool-cases (test k)) [
    | inl passes ↦ rw passes (
        ap
          (λ (o : Option L).
            record { key = k; value = o }
            ∷ retain (λ (l : ProofLeaf L). test l.key) (leaves_at ks vs))
          (find-retain test k vs passes)
        ∙ ap (λ ls. leaf_at (retain (λ v. test (leaves.key v)) vs) k ∷ ls)
            (leaves_at-retain test ks vs))
    | inr fails ↦ rw fails (leaves_at-retain test ks vs)
  ]

  keys_of_leaves :
      (keys : List ℕ) (vs : List L) → map (λ (l : ProofLeaf L). l.key) (leaves_at keys vs) ≡ keys
  keys_of_leaves [] vs = refl
  keys_of_leaves (k ∷ ks) vs = ap (λ js. k ∷ js) (keys_of_leaves ks vs)

  present-retain :
      (test : ℕ → Bool) (vs : List L)
      → retain (λ (l : ProofLeaf L). test l.key) (map (present c bits table leaves) vs)
        ≡ map (present c bits table leaves) (retain (λ v. test (leaves.key v)) vs)
  present-retain test [] = refl
  present-retain test (v ∷ vs) = elim (Bool-cases (test (leaves.key v))) [
    | inl passes ↦
        rw passes (ap (λ ls. present c bits table leaves v ∷ ls) (present-retain test vs))
    | inr fails ↦ rw fails (present-retain test vs)
  ]

  keys_of_present :
      (vs : List L)
      → map (λ (l : ProofLeaf L). l.key) (map (present c bits table leaves) vs) ≡ map leaves.key vs
  keys_of_present [] = refl
  keys_of_present (v ∷ vs) = ap (λ ks. leaves.key v ∷ ks) (keys_of_present vs)

  -- The two parts of a slice of leaves at a depth.
  pub record Halves (ls low high : List (ProofLeaf L)) (depth : ℕ) : Type 0 where
    pub low_is : take (split c bits table leaves ls depth) ls ≡ low
    pub high_is : drop (split c bits table leaves ls depth) ls ≡ high

  Halves-of :
      (ls : List (ProofLeaf L)) (depth r p : ℕ)
      → depth + suc r ≡ bits
      → IsAscending (map (λ (l : ProofLeaf L). l.key) ls)
      → Class (suc r) p (map (λ (l : ProofLeaf L). l.key) ls)
      → Halves ls
          (lows (λ (l : ProofLeaf L). l.key) r ls)
          (highs (λ (l : ProofLeaf L). l.key) r ls)
          depth
  Halves-of ls depth r p e h k =
      let same : partition_point (λ (l : ProofLeaf L). not (bit bits l.key depth)) ls
          ≡ partition_point (λ (l : ProofLeaf L). is_low r l.key) ls =
        same_point ls in
      let parts : (take (partition_point (λ (l : ProofLeaf L). is_low r l.key) ls) ls
            ≡ lows (λ (l : ProofLeaf L). l.key) r ls)
          × (drop (partition_point (λ (l : ProofLeaf L). is_low r l.key) ls) ls
              ≡ highs (λ (l : ProofLeaf L). l.key) r ls) =
        split_lem (λ (l : ProofLeaf L). l.key) r p ls h k in
      record {
        low_is = ap (λ n. take n ls) same ∙ parts.0;
        high_is = ap (λ n. drop n ls) same ∙ parts.1;
      }
    where
      same_point :
          (xs : List (ProofLeaf L))
          → partition_point (λ (l : ProofLeaf L). not (bit bits l.key depth)) xs
            ≡ partition_point (λ (l : ProofLeaf L). is_low r l.key) xs
      same_point [] = refl
      same_point (x ∷ xs) =
          rw (bit-is_high bits depth r x.key e)
            (ap (λ n. if is_low r x.key then suc n else 0) (same_point xs))

  pub present-Halves :
      (vs : List L) (depth r p : ℕ)
      → depth + suc r ≡ bits
      → IsAscending (map leaves.key vs)
      → Class (suc r) p (map leaves.key vs)
      → Halves
          (map (present c bits table leaves) vs)
          (map (present c bits table leaves) (lows leaves.key r vs))
          (map (present c bits table leaves) (highs leaves.key r vs))
          depth
  present-Halves vs depth r p e h k =
      let parts : Halves (map (present c bits table leaves) vs) _ _ depth =
        Halves-of (map (present c bits table leaves) vs) depth r p e
          (subst IsAscending (sym (keys_of_present vs)) h)
          (subst (Class (suc r) p) (sym (keys_of_present vs)) k) in
      record {
        low_is = parts.low_is ∙ present-retain (is_low r) vs;
        high_is = parts.high_is ∙ present-retain (is_high r) vs;
      }

  pub leaves_at-Halves :
      (keys : List ℕ) (vs : List L) (depth r p : ℕ)
      → depth + suc r ≡ bits
      → IsAscending keys
      → Class (suc r) p keys
      → Halves
          (leaves_at keys vs)
          (leaves_at (lows (λ j. j) r keys) (lows leaves.key r vs))
          (leaves_at (highs (λ j. j) r keys) (highs leaves.key r vs))
          depth
  leaves_at-Halves keys vs depth r p e h k =
      let parts : Halves (leaves_at keys vs) _ _ depth =
        Halves-of (leaves_at keys vs) depth r p e
          (subst IsAscending (sym (keys_of_leaves keys vs)) h)
          (subst (Class (suc r) p) (sym (keys_of_leaves keys vs)) k) in
      record {
        low_is = parts.low_is ∙ leaves_at-retain (is_low r) keys vs;
        high_is = parts.high_is ∙ leaves_at-retain (is_high r) keys vs;
      }

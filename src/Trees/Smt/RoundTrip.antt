-- ===== src/Trees/Smt/RoundTrip.antt =====
-- `build_multiproof`, `compute_root_from_proof` and `compute_root` of crates/core/src/trees/smt.rs together.
use mathlib.Core.Path.{subst}
use mathlib.Core.List.{append-nil}
use zk_clob.Prelude.{
  ℕ, ◌<◌, ◌^◌, ◌≡◌, refl, sym, ap, ◌∙◌, true, false, not, Option, List, [], ◌∷◌, ◌++◌, map, length,
  is_empty, All, is_key, All-is_key_self, retain, inl, inr, Bool-cases, arith,
}
use zk_clob.Types.Ids.{B256}
use zk_clob.Hashing.{Crypto}
use zk_clob.Trees.Bits.{prefix-zero_of_lt}
use zk_clob.Trees.Attempts.{done}
use zk_clob.Trees.Smt.{
  SparseMerkleLeaf, SparseMerkleMultiproof, ProofLeaf, ProofReader, present, sorted_leaves,
  ordered_leaves, compute_root, build_multiproof, compute_root_from_proof,
}
use zk_clob.Trees.Smt.Bitmap.{packed}
use zk_clob.Trees.Smt.Reader.{IsReader, finish-IsReader}
use zk_clob.Trees.Smt.Codec.{Missing}
use zk_clob.Trees.Smt.Levels.{Class, retain-IsAscending}
use zk_clob.Trees.Smt.Spec.{Doubles, root_of, find-retain, leaf_at, leaves_at, missing}
use zk_clob.Trees.Smt.Writing.{subtree_root_lem, Built, build_proof_lem}
use zk_clob.Trees.Smt.Reading.{Read, root_from_proof_lem}
use zk_clob.Trees.Smt.Selecting.{Allowed, select_leaves_lem}
use zk_clob.Trees.Keyed.{
  sort_unstable-ascending, distinct_ascending, sort_unstable-keyed, distinct_keyed, ordered_keyed,
}
use zk_clob.Settlement.Validation.Accounts.Ledger.{IsAscending, IsAscending-any_pair}

Class-of_fits : (bits : ℕ) (ks : List ℕ) → All (λ k. k < 2 ^ bits) ks → Class bits 0 ks
Class-of_fits bits [] h = tt
Class-of_fits bits (k ∷ ks) h = (prefix-zero_of_lt bits k h.0, Class-of_fits bits ks h.1)

module _ (c : Crypto) (bits : ℕ) (table : List B256) {L : Type 0}
    (leaves : SparseMerkleLeaf L) where
  shown_keys :
      (vs : List L)
      → map (λ (l : ProofLeaf L). l.key) (map (present c bits table leaves) vs) ≡ map leaves.key vs
  shown_keys [] = refl
  shown_keys (v ∷ vs) = ap (λ ks. leaves.key v ∷ ks) (shown_keys vs)

  sorted_leaves_lem :
      (vs : List L)
      → IsAscending (map leaves.key vs)
      → sorted_leaves c bits table leaves vs ≡ done (map (present c bits table leaves) vs)
  unfolding sorted_leaves
  sorted_leaves_lem vs h =
      let order : IsAscending
          (map (λ (l : ProofLeaf L). l.key) (map (present c bits table leaves) vs)) =
        subst IsAscending (sym (shown_keys vs)) h in
      rw
        (
          sort_unstable-keyed (λ (l : ProofLeaf L). l.key) (map (present c bits table leaves) vs)
              order,
          distinct_keyed (λ (l : ProofLeaf L). l.key) (map (present c bits table leaves) vs) order,
        )
        refl

  ordered_leaves_lem :
      (vs : List L)
      → IsAscending (map leaves.key vs)
      → ordered_leaves c bits table leaves vs ≡ done (map (present c bits table leaves) vs)
  unfolding ordered_leaves
  ordered_leaves_lem vs h =
      let order : IsAscending
          (map (λ (l : ProofLeaf L). l.key) (map (present c bits table leaves) vs)) =
        subst IsAscending (sym (shown_keys vs)) h in
      rw (ordered_keyed (λ (l : ProofLeaf L). l.key) (map (present c bits table leaves) vs) order)
        refl

  -- The values of some keys.
  abbrev pub selected : List ℕ → List L → List L
  selected keys = retain (λ v. is_key keys (leaves.key v))

  selected-Allowed :
      (keys : List ℕ) (vs : List L) → Allowed c bits table leaves true keys (selected keys vs)
  selected-Allowed keys [] = tt
  selected-Allowed keys (v ∷ vs) = elim (Bool-cases (is_key keys (leaves.key v))) [
    | inl here ↦ rw here (here, selected-Allowed keys vs)
    | inr away ↦ rw away (selected-Allowed keys vs)
  ]

  leaves_at-selected :
      (keys js : List ℕ) (vs : List L)
      → All (λ j. is_key keys j ≡ true) js
      → leaves_at c bits table leaves js (selected keys vs) ≡ leaves_at c bits table leaves js vs
  leaves_at-selected keys [] vs h = refl
  leaves_at-selected keys (j ∷ js) vs h =
      ap
        (λ (o : Option L).
          record { key = j; value = o } ∷ leaves_at c bits table leaves js (selected keys vs))
        (sym (find-retain c bits table leaves (is_key keys) j vs h.0))
      ∙ ap (λ ls. leaf_at c bits table leaves vs j ∷ ls) (leaves_at-selected keys js vs h.1)

  -- Let the table of empty hashes reach the width of the keys, each of its hashes that of a node with the
  -- one before it twice. Take old and new values, both in ascending order of their keys, with no key
  -- beyond the width, and one or more keys in ascending order, none beyond the width, such that old and
  -- new values differ at most in the values of these keys. Then `build_multiproof` makes a proof of the
  -- keys from the old values, and `compute_root_from_proof` makes of this proof and the new values of the
  -- keys, which may be absent, the root that `compute_root` makes of all new values.
  pub root_from_proof-build_proof :
      (old new : List L) (keys : List ℕ)
      → bits < length table
      → Doubles c table
      → All (λ k. k < 2 ^ bits) (map leaves.key old)
      → IsAscending (map leaves.key old)
      → All (λ k. k < 2 ^ bits) (map leaves.key new)
      → IsAscending (map leaves.key new)
      → All (λ k. k < 2 ^ bits) keys
      → IsAscending keys
      → is_empty keys ≡ false
      → retain (λ v. not (is_key keys (leaves.key v))) new
        ≡ retain (λ v. not (is_key keys (leaves.key v))) old
      → (proof : SparseMerkleMultiproof) × (root : B256) × (build_multiproof c bits table leaves old
            keys
          ≡ done proof)
        × (compute_root_from_proof c bits table leaves (selected keys new) proof ≡ done root)
        × (compute_root c bits table leaves new ≡ done root)
  unfolding build_multiproof compute_root_from_proof compute_root
  root_from_proof-build_proof old new keys long doubles old_fits old_order new_fits new_order
        key_fits key_order some_keys same =
      let built : Built c bits table leaves long bits old keys 0
          (record { bitmap = []; bit_count = 0; side_nodes = [] }) [] =
        build_proof_lem c bits table leaves long bits old keys 0 0
          (record { bitmap = []; bit_count = 0; side_nodes = [] }) [] (omega arith) old_order
          (Class-of_fits bits (map leaves.key old) old_fits) key_order
          (Class-of_fits bits keys key_fits)
          (record {
            counted = refl;
            holds = record { padding = 0; few = omega arith; packed_is = packed };
            sides_are = refl;
          }) in
      let ms : List Missing = missing c bits table leaves bits old keys in
      let reader : ProofReader = record {
        bitmap = built.0.bitmap;
        bit_index = 0;
        side_nodes = built.0.side_nodes;
      } in
      let ready : IsReader reader [] (ms ++ []) =
        subst (IsReader reader []) (sym (append-nil ms))
          (record { at_bit = refl; holds = built.2.holds; sides_are = built.2.sides_are }) in
      let read : Read c bits table leaves long bits new keys 0 reader [] =
        root_from_proof_lem c bits table leaves long bits old new keys 0 0 reader [] []
          (omega arith) doubles new_order (Class-of_fits bits (map leaves.key new) new_fits)
          key_order (Class-of_fits bits keys key_fits) same ready in
      let all_keys : leaves_at c bits table leaves keys (selected keys new)
          ≡ leaves_at c bits table leaves keys new =
        leaves_at-selected keys keys new (All-is_key_self keys) in
      (
        record {
          leaf_keys = keys;
          sibling_bitmap = built.0.bitmap;
          side_nodes = built.0.side_nodes;
        },
        root_of c bits table leaves bits new,
        rw
            (
              sorted_leaves_lem old old_order,
              some_keys,
              sort_unstable-ascending keys key_order,
              distinct_ascending keys key_order,
              select_leaves_lem c bits table leaves false keys old key_order old_order tt,
              built.1,
            )
            refl,
        rw
            (
              some_keys,
              IsAscending-any_pair keys key_order,
              ordered_leaves_lem (selected keys new)
                  (retain-IsAscending leaves.key (λ v. is_key keys (leaves.key v)) new new_order),
              select_leaves_lem c bits table leaves true keys (selected keys new) key_order
                  (retain-IsAscending leaves.key (λ v. is_key keys (leaves.key v)) new new_order)
                  (selected-Allowed keys new),
              all_keys,
              read.2,
              finish-IsReader read.0 read.1 read.3,
            )
            refl,
        rw (sorted_leaves_lem new new_order) (
            subtree_root_lem c bits table leaves long bits new 0 0 (omega arith) new_order
              (Class-of_fits bits (map leaves.key new) new_fits)),
      )

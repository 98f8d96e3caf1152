-- ===== src/Trees/Smt/Reader.antt =====
-- `ProofReader` of crates/core/src/trees/smt.rs reads what `ProofBuilder` has pushed.
use mathlib.Core.Path.{subst}
use mathlib.Core.List.{append_assoc, append-nil}
use zk_clob.Prelude.{
  ℕ, suc, ◌+◌, ◌-◌, ◌*◌, ◌/◌, ◌%◌, ◌^◌, ◌<◌, ◌≡◌, refl, sym, ap, ◌∙◌, Bool, true, false, some, List,
  [], ◌∷◌, ◌++◌, length, length-append, length-replicate, get_elem?, replicate, ◌==◌, leb,
  if◌then◌else◌, inl, inr, Bool-cases, arith,
}
use zk_clob.Types.Ids.{B256}
use zk_clob.Trees.Attempts.{Attempt, done, fail_when, demand, ◌>>=◌, ◌>>◌}
use zk_clob.Trees.Smt.{
  SparseMerkleError, invalid_multiproof, has_bit, ProofReader, next_side_node, missing_subtree,
  finish,
}
use zk_clob.Trees.Smt.Bitmap.{Packed}
use zk_clob.Trees.Smt.Bytes.{length-Packed, Place, Place-of, ZeroTail, zero_tail}
use zk_clob.Trees.Smt.Codec.{Missing, flag, flags, sides, Holds}

-- A reader that has read some bits, and has the bits and side nodes of some subtrees before it.
pub record IsReader (r : ProofReader) (before : List Bool) (ms : List Missing) : Type 0 where
  pub at_bit : r.bit_index ≡ length before
  pub holds : Holds r.bitmap (before ++ flags ms)
  pub sides_are : r.side_nodes ≡ sides ms

next_of :
    (r : ProofReader) (before : List Bool) (m : Missing) (ms : List Missing) (bitmap : List ℕ)
    (index : ℕ) (side_nodes : List B256)
    → index ≡ length (before ++ (flag m ∷ []))
    → Holds bitmap ((before ++ (flag m ∷ [])) ++ flags ms)
    → side_nodes ≡ sides (m ∷ ms)
    → (r' : ProofReader) × ((if flag m
          then next_side_node
              (record { bitmap = bitmap; bit_index = index; side_nodes = side_nodes })
              side_nodes
          else done (m.1, record { bitmap = bitmap; bit_index = index; side_nodes = side_nodes }))
        ≡ done (m.0, r'))
      × IsReader r' (before ++ (flag m ∷ [])) ms
next_of r before m ms bitmap index side_nodes e h f = elim (Bool-cases (m.0 == m.1)) [
  | inl same ↦
      let list : side_nodes ≡ sides ms = f ∙ rw same refl in
      let root : m.1 ≡ m.0 = ground arith in
      (
        record { bitmap = bitmap; bit_index = index; side_nodes = side_nodes },
        rw same (
            ap
              (λ x.
                done (x, record { bitmap = bitmap; bit_index = index; side_nodes = side_nodes }))
              root),
        record { at_bit = e; holds = h; sides_are = list },
      )
  | inr other ↦
      let list : side_nodes ≡ m.0 ∷ sides ms = f ∙ rw other refl in
      (
        record { bitmap = bitmap; bit_index = index; side_nodes = sides ms },
        rw (other, list) refl,
        record { at_bit = e; holds = h; sides_are = refl },
      )
]

-- The subtree that is read is the first one that is left.
pub missing_subtree-IsReader :
    (r : ProofReader) (before : List Bool) (m : Missing) (ms : List Missing)
    → IsReader r before (m ∷ ms)
    → (r' : ProofReader) × (missing_subtree r m.1 ≡ done (m.0, r'))
      × IsReader r' (before ++ (flag m ∷ [])) ms
unfolding missing_subtree
missing_subtree-IsReader r before m ms h =
    let place : Place r.bitmap before (flag m) (flags ms ++ replicate h.holds.padding false) =
      Place-of before (flag m) (flags ms ++ replicate h.holds.padding false) h.holds.packed_is
        (append_assoc before (flag m ∷ flags ms) (replicate h.holds.padding false)) in
    let total : length before + suc (length (flags ms)) + h.holds.padding ≡ 8 * length r.bitmap =
      omega (
        arith,
        length-Packed h.holds.packed_is,
        length-append (before ++ (flag m ∷ flags ms)) (replicate h.holds.padding false),
        length-append before (flag m ∷ flags ms),
        length-replicate h.holds.padding false,
      ) in
    let inside : leb (length r.bitmap * 8) (length before) ≡ false = ground (arith, total) in
    let next : (r' : ProofReader) × ((if flag m
            then next_side_node
                (record {
                  bitmap = r.bitmap;
                  bit_index = r.bit_index + 1;
                  side_nodes = r.side_nodes;
                })
                r.side_nodes
            else done (
              m.1,
              record { bitmap = r.bitmap; bit_index = r.bit_index + 1; side_nodes = r.side_nodes },
            ))
          ≡ done (m.0, r'))
        × IsReader r' (before ++ (flag m ∷ [])) ms =
      next_of r before m ms r.bitmap (r.bit_index + 1) r.side_nodes
        (omega (arith, h.at_bit, length-append before (flag m ∷ [])))
        (subst (Holds r.bitmap) (sym (append_assoc before (flag m ∷ []) (flags ms))) h.holds)
        h.sides_are in
    (next.0, read r.bit_index h.at_bit place inside ∙ next.1, next.2)
  where
    found : Attempt SparseMerkleError (B256 × ProofReader)
    found =
        next_side_node
          (record { bitmap = r.bitmap; bit_index = r.bit_index + 1; side_nodes = r.side_nodes })
          r.side_nodes

    skipped : Attempt SparseMerkleError (B256 × ProofReader)
    skipped =
        done (
          m.1,
          record { bitmap = r.bitmap; bit_index = r.bit_index + 1; side_nodes = r.side_nodes },
        )

    read :
        (i : ℕ)
        → i ≡ length before
        → {ys : List Bool} → (place : Place r.bitmap before (flag m) ys)
        → leb (length r.bitmap * 8) (length before) ≡ false
        → (fail_when (leb (length r.bitmap * 8) i) invalid_multiproof
            >> (demand (get_elem? r.bitmap (i / 8))
                >>= (λ byte. if has_bit byte (7 - i % 8) then found else skipped)))
          ≡ (if flag m then found else skipped)
    read i e place inside = rw (e, inside, place.at, place.bit_is) refl

-- A reader that has read everything is finished.
pub finish-IsReader :
    (r : ProofReader) (before : List Bool) → IsReader r before [] → finish r ≡ done tt
unfolding finish
finish-IsReader r before h =
    let bits : Packed r.bitmap (before ++ replicate h.holds.padding false) =
      subst (λ fs. Packed r.bitmap (fs ++ replicate h.holds.padding false)) (append-nil before)
        h.holds.packed_is in
    let total : r.bit_index + h.holds.padding ≡ 8 * length r.bitmap = omega (
      arith,
      length-Packed bits,
      length-append before (replicate h.holds.padding false),
      length-replicate h.holds.padding false,
      h.at_bit,
    ) in
    let size : (r.bit_index + 7) / 8 ≡ length r.bitmap = omega (arith, total, h.holds.few) in
    let whole : (r.bit_index + 7) / 8 == length r.bitmap ≡ true = ground (arith, size) in
    elim (Bool-cases (r.bit_index % 8 == 0)) [
      | inl full ↦ rw (full, whole, h.sides_are) refl
      | inr partial ↦
          let some_zeros : 0 < h.holds.padding = ground (arith, total, h.holds.few, partial) in
          let rest : 8 - r.bit_index % 8 ≡ h.holds.padding =
            omega (arith, total, h.holds.few, some_zeros) in
          let tail : ZeroTail r.bitmap h.holds.padding =
            zero_tail before h.holds.padding some_zeros h.holds.few bits refl in
          let place : get_elem? r.bitmap ((r.bit_index + 7) / 8 - 1) ≡ some tail.holder =
            rw size tail.at in
          let zero_tail_is : tail.holder % 2 ^ (8 - r.bit_index % 8) == 0 ≡ true =
            rw (rest, tail.tail_is) refl in
          rw (partial, place, zero_tail_is, whole, h.sides_are) refl
    ]

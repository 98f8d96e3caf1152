-- ===== src/Trees/Smt/Codec.antt =====
-- `ProofBuilder` of crates/core/src/trees/smt.rs: what has been pushed.
use mathlib.Core.Path.{subst}
use mathlib.Core.List.{append_assoc, append-nil}
use zk_clob.Prelude.{
  ℕ, suc, ◌+◌, ◌-◌, ◌*◌, ◌/◌, ◌%◌, ◌<◌, ◌≡◌, refl, sym, ap, ◌∙◌, Bool, true, false, not, some, List,
  [], ◌∷◌, ◌++◌, map, length, length-append, length-replicate, get_elem?, set, replicate, ◌==◌,
  if◌then◌else◌, inl, inr, Bool-cases, arith,
}
use zk_clob.Types.Ids.{B256}
use zk_clob.Trees.Attempts.{done}
use zk_clob.Trees.Smt.{with_bit, ProofBuilder, push_bit, push_subtree}
use zk_clob.Trees.Smt.Bitmap.{Packed}
use zk_clob.Trees.Smt.Bytes.{length-Packed, Place, Place-of, grow-Packed}

-- A subtree that is missing: its root, and the root of an empty one in its place.
abbrev pub Missing : Type 0
Missing = B256 × B256

abbrev pub flag : Missing → Bool
flag m = not (m.0 == m.1)

abbrev pub flags : List Missing → List Bool
flags = map flag

abbrev pub sides : List Missing → List B256
sides [] = []
sides (m ∷ ms) = if flag m then m.0 ∷ sides ms else sides ms

-- A bitmap that holds some bits and zeros up to the end of its last byte.
pub record Holds (bitmap : List ℕ) (fs : List Bool) : Type 0 where
  pub padding : ℕ
  pub few : padding < 8
  pub packed_is : Packed bitmap (fs ++ replicate padding false)

-- One more bit fits.
record Room (b : ProofBuilder) (fs : List Bool) (grown : List ℕ) : Type 0 where
  padding : ℕ
  few : padding < 8
  packed_is : Packed grown (fs ++ (false ∷ replicate padding false))

Room-of :
    (b : ProofBuilder) (fs : List Bool)
    → b.bit_count ≡ length fs
    → Holds b.bitmap fs
    → Room b fs (if b.bit_count % 8 == 0 then b.bitmap ++ (0 ∷ []) else b.bitmap)
Room-of b fs e h = elim (Bool-cases (b.bit_count % 8 == 0)) [
  | inl full ↦
      let total : length fs + h.padding ≡ 8 * length b.bitmap = omega (
        arith,
        length-Packed h.packed_is,
        length-append fs (replicate h.padding false),
        length-replicate h.padding false,
      ) in
      let whole : b.bit_count % 8 ≡ 0 = ground (arith, full) in
      let none_left : h.padding ≡ 0 = omega (arith, total, h.few, whole, e) in
      let tight : Packed b.bitmap fs =
        subst (Packed b.bitmap) (append-nil fs)
          (subst (λ z. Packed b.bitmap (fs ++ replicate z false)) none_left h.packed_is) in
      rw full (record { padding = 7; few = omega arith; packed_is = grow-Packed tight })
  | inr partial ↦
      let total : length fs + h.padding ≡ 8 * length b.bitmap = omega (
        arith,
        length-Packed h.packed_is,
        length-append fs (replicate h.padding false),
        length-replicate h.padding false,
      ) in
      let inside : 0 < h.padding = ground (arith, total, h.few, e, partial) in
      let one_less : h.padding ≡ suc (h.padding - 1) = omega (arith, inside) in
      rw partial (record {
        padding = h.padding - 1;
        few = omega (arith, h.few);
        packed_is = subst (λ z. Packed b.bitmap (fs ++ replicate z false)) one_less h.packed_is;
      })
]

-- A builder after some subtrees were pushed.
pub record IsBuilder (b : ProofBuilder) (ms : List Missing) : Type 0 where
  pub counted : b.bit_count ≡ length (flags ms)
  pub holds : Holds b.bitmap (flags ms)
  pub sides_are : b.side_nodes ≡ sides ms

record IsPushed (b : ProofBuilder) (fs : List Bool) (value : Bool) (b' : ProofBuilder)
    : Type 0 where
  pushed : push_bit b value ≡ done b'
  counted : b'.bit_count ≡ length (fs ++ (value ∷ []))
  holds : Holds b'.bitmap (fs ++ (value ∷ []))
  same_sides : b'.side_nodes ≡ b.side_nodes

snoc_Packed :
    (bitmap : List ℕ) (fs : List Bool) (value : Bool) (z : ℕ)
    → Packed bitmap (fs ++ (value ∷ replicate z false))
    → Packed bitmap ((fs ++ (value ∷ [])) ++ replicate z false)
snoc_Packed bitmap fs value z h =
    subst (Packed bitmap) (sym (append_assoc fs (value ∷ []) (replicate z false))) h

-- The same at a count that is the number of the bits.
at_count :
    (grown : List ℕ) (count : ℕ) (fs ys : List Bool)
    → count ≡ length fs
    → (place : Place grown fs false ys)
    → (get_elem? grown (count / 8) ≡ some place.holder)
      × Packed (set grown (count / 8) (with_bit place.holder (7 - count % 8))) (fs ++ (true ∷ ys))
at_count grown count fs ys e place = rw e (place.at, place.written refl)

push_bit-IsPushed :
    (b : ProofBuilder) (fs : List Bool) (value : Bool)
    → b.bit_count ≡ length fs
    → Holds b.bitmap fs
    → (b' : ProofBuilder) × IsPushed b fs value b'
unfolding push_bit
push_bit-IsPushed b fs false e h =
    let room : Room b fs (if b.bit_count % 8 == 0 then b.bitmap ++ (0 ∷ []) else b.bitmap) =
      Room-of b fs e h in
    (
      record {
        bitmap = if b.bit_count % 8 == 0 then b.bitmap ++ (0 ∷ []) else b.bitmap;
        bit_count = b.bit_count + 1;
        side_nodes = b.side_nodes;
      },
      record {
        pushed = refl;
        counted = omega (arith, e, length-append fs (false ∷ []));
        holds = record {
          padding = room.padding;
          few = room.few;
          packed_is = snoc_Packed _ fs false room.padding room.packed_is;
        };
        same_sides = refl;
      },
    )
push_bit-IsPushed b fs true e h =
    let grown : List ℕ = if b.bit_count % 8 == 0 then b.bitmap ++ (0 ∷ []) else b.bitmap in
    let room : Room b fs grown = Room-of b fs e h in
    let place : Place grown fs false (replicate room.padding false) =
      Place-of fs false (replicate room.padding false) room.packed_is refl in
    let here : (get_elem? grown (b.bit_count / 8) ≡ some place.holder)
        × Packed (set grown (b.bit_count / 8) (with_bit place.holder (7 - b.bit_count % 8)))
            (fs ++ (true ∷ replicate room.padding false)) =
      at_count grown b.bit_count fs (replicate room.padding false) e place in
    (
      record {
        bitmap = set grown (b.bit_count / 8) (with_bit place.holder (7 - b.bit_count % 8));
        bit_count = b.bit_count + 1;
        side_nodes = b.side_nodes;
      },
      record {
        pushed = rw here.0 refl;
        counted = omega (arith, e, length-append fs (true ∷ []));
        holds = record {
          padding = room.padding;
          few = room.few;
          packed_is = snoc_Packed _ fs true room.padding here.1;
        };
        same_sides = refl;
      },
    )

flags-snoc : (ms : List Missing) (m : Missing) → flags (ms ++ (m ∷ [])) ≡ flags ms ++ (flag m ∷ [])
flags-snoc [] m = refl
flags-snoc (n ∷ ms) m = ap (λ fs. flag n ∷ fs) (flags-snoc ms m)

sides-append : (ms ns : List Missing) → sides (ms ++ ns) ≡ sides ms ++ sides ns
sides-append [] ns = refl
sides-append (m ∷ ms) ns = elim (Bool-cases (m.0 == m.1)) [
  | inl same ↦ rw same (sides-append ms ns)
  | inr other ↦ rw other (ap (λ xs. m.0 ∷ xs) (sides-append ms ns))
]

with_side :
    (b : ProofBuilder) (ms : List Missing) (m : Missing)
    → b.bit_count ≡ length (flags (ms ++ (m ∷ [])))
    → Holds b.bitmap (flags (ms ++ (m ∷ [])))
    → b.side_nodes ≡ sides ms
    → IsBuilder
        (if flag m then record b { side_nodes = b.side_nodes ++ (m.0 ∷ []) } else b)
        (ms ++ (m ∷ []))
with_side b ms m counted holds e = elim (Bool-cases (m.0 == m.1)) [
  | inl same ↦
      let last : sides (ms ++ (m ∷ [])) ≡ sides ms =
        sides-append ms (m ∷ []) ∙ rw same (append-nil (sides ms)) in
      rw same (record { counted = counted; holds = holds; sides_are = e ∙ sym last })
  | inr other ↦
      let last : sides (ms ++ (m ∷ [])) ≡ sides ms ++ (m.0 ∷ []) =
        sides-append ms (m ∷ []) ∙ rw other refl in
      rw other (record {
        counted = counted;
        holds = holds;
        sides_are = ap (λ xs. xs ++ (m.0 ∷ [])) e ∙ sym last;
      })
]

-- A subtree that is pushed is the last one pushed.
pub push_subtree-IsBuilder :
    (b : ProofBuilder) (ms : List Missing) (m : Missing)
    → IsBuilder b ms
    → (b' : ProofBuilder) × (push_subtree b m.0 m.1 ≡ done b') × IsBuilder b' (ms ++ (m ∷ []))
unfolding push_subtree
push_subtree-IsBuilder b ms m h =
    let step : (b' : ProofBuilder) × IsPushed b (flags ms) (flag m) b' =
      push_bit-IsPushed b (flags ms) (flag m) h.counted h.holds in
    (
      (if flag m then record step.0 { side_nodes = step.0.side_nodes ++ (m.0 ∷ []) } else step.0),
      rw step.1.pushed refl,
      with_side step.0 ms m (rw (flags-snoc ms m) step.1.counted)
          (rw (flags-snoc ms m) step.1.holds) (step.1.same_sides ∙ h.sides_are),
    )

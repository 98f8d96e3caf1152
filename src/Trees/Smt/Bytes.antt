-- ===== src/Trees/Smt/Bytes.antt =====
-- Reading, writing and growing the bitmap of crates/core/src/trees/smt.rs.
use mathlib.Core.Path.{subst}
use mathlib.Core.List.{append_assoc, append-nil}
use zk_clob.Prelude.{
  ℕ, suc, ◌+◌, ◌-◌, ◌*◌, ◌/◌, ◌%◌, ◌^◌, ◌<◌, ◌≡◌, refl, sym, ap, ◌∙◌, Bool, true, false, some, List,
  [], ◌∷◌, ◌++◌, length, length-append, length-replicate, get_elem?, set, replicate, arith,
}
use zk_clob.Trees.Smt.{has_bit, with_bit}
use zk_clob.Trees.Parts.{Meets, meets}
use zk_clob.Trees.Smt.Bitmap.{
  value, has_bit-value, with_bit-value, value-zeros, Packed, packed, byte,
}

pub length-Packed :
    {bytes : List ℕ} {bits : List Bool} → Packed bytes bits → length bits ≡ 8 * length bytes
length-Packed packed = omega arith
length-Packed (byte eight {bits = bits} e h) =
    omega (arith, length-append eight bits, e, length-Packed h)

-- The byte of a bit, with the bit, and the bytes with the bit set if it was not.
pub record Place (bytes : List ℕ) (xs : List Bool) (b : Bool) (ys : List Bool) : Type 0 where
  pub holder : ℕ
  pub at : get_elem? bytes (length xs / 8) ≡ some holder
  pub bit_is : has_bit holder (7 - length xs % 8) ≡ b
  pub written :
      b ≡ false
      → Packed (set bytes (length xs / 8) (with_bit holder (7 - length xs % 8))) (xs ++ (true ∷ ys))

Place-inside :
    (bytes : List ℕ) (bits xs : List Bool) (b : Bool) (q ys : List Bool)
    → length (xs ++ (b ∷ q)) ≡ 8
    → ys ≡ q ++ bits
    → Packed bytes bits
    → Place (value 0 (xs ++ (b ∷ q)) ∷ bytes) xs b ys
Place-inside bytes bits xs b q ys e f h =
    let size : length xs + suc (length q) ≡ 8 = omega (arith, length-append xs (b ∷ q), e) in
    let first : length xs / 8 ≡ 0 = omega (arith, size) in
    let shift : 7 - length xs % 8 ≡ length q = omega (arith, size) in
    record {
      holder = value 0 (xs ++ (b ∷ q));
      at = rw first refl;
      bit_is = rw shift (has_bit-value xs b q);
      written = λ unset.
          rw (first, shift, unset, with_bit-value xs q, f)
            (subst (Packed (value 0 (xs ++ (true ∷ q)) ∷ bytes)) (append_assoc xs (true ∷ q) bits)
              (byte (xs ++ (true ∷ q)) (omega (arith, length-append xs (true ∷ q), size)) h));
    }

Place-beyond :
    (eight bits : List Bool) (bytes : List ℕ) (xs p : List Bool) (b : Bool) (ys : List Bool)
    → length eight ≡ 8
    → xs ≡ eight ++ p
    → Place bytes p b ys
    → Place (value 0 eight ∷ bytes) xs b ys
Place-beyond eight bits bytes xs p b ys e f h =
    let size : length xs ≡ 8 + length p = omega (arith, ap length f, length-append eight p, e) in
    let next : length xs / 8 ≡ suc (length p / 8) = omega (arith, size) in
    let same : length xs % 8 ≡ length p % 8 = omega (arith, size) in
    record {
      holder = h.holder;
      at = rw next h.at;
      bit_is = rw same h.bit_is;
      written = λ unset.
          rw (next, same, f)
            (subst
              (Packed
                (value 0 eight ∷ set bytes (length p / 8) (with_bit h.holder (7 - length p % 8))))
              (sym (append_assoc eight p (true ∷ ys))) (byte eight e (h.written unset)));
    }

pub Place-of :
    {bytes : List ℕ} {bits : List Bool} (xs : List Bool) (b : Bool) (ys : List Bool)
    → Packed bytes bits
    → bits ≡ xs ++ (b ∷ ys)
    → Place bytes xs b ys
Place-of [] b ys packed e = absurd (let bad : [] ≡ b ∷ ys = e in cc)
Place-of (x ∷ xs) b ys packed e = absurd (let bad : [] ≡ x ∷ (xs ++ (b ∷ ys)) = e in cc)
Place-of xs b ys (byte eight {bytes = bytes} {bits = bits} e h) f =
    elim (meets eight bits xs (b ∷ ys) f) [
      | Meets.later p g k ↦ Place-beyond eight bits bytes xs p b ys e g (Place-of p b ys h k)
      | Meets.sooner x q g k ↦
          let same : x ≡ b = cc in
          let rest : ys ≡ q ++ bits = cc in
          let whole : eight ≡ xs ++ (b ∷ q) = g ∙ ap (λ y. xs ++ (y ∷ q)) same in
          subst (λ es. Place (value 0 es ∷ bytes) xs b ys) (sym whole)
            (Place-inside bytes bits xs b q ys (sym (ap length whole) ∙ e) rest h)
    ]

pub grow-Packed :
    {bytes : List ℕ} {bits : List Bool}
    → Packed bytes bits
    → Packed (bytes ++ (0 ∷ [])) (bits ++ replicate 8 false)
grow-Packed packed = byte (replicate 8 false) refl packed
grow-Packed (byte eight {bytes = bytes} {bits = bits} e h) =
    subst (Packed (value 0 eight ∷ (bytes ++ (0 ∷ []))))
      (sym (append_assoc eight bits (replicate 8 false))) (byte eight e (grow-Packed h))

-- The last byte, where its last bits are padding.
pub record ZeroTail (bytes : List ℕ) (z : ℕ) : Type 0 where
  pub holder : ℕ
  pub at : get_elem? bytes (length bytes - 1) ≡ some holder
  pub tail_is : holder % 2 ^ z ≡ 0

pub zero_tail :
    {bytes : List ℕ} {bits : List Bool} (fs : List Bool) (z : ℕ)
    → 0 < z
    → z < 8
    → Packed bytes bits
    → bits ≡ fs ++ replicate z false
    → ZeroTail bytes z
zero_tail fs z some_zeros few packed e =
    absurd
      (omega (arith, ap length e, length-append fs (replicate z false), length-replicate z false))
zero_tail fs z some_zeros few (byte eight e packed) f = record {
  holder = value 0 eight;
  at = refl;
  tail_is = ap (λ bs. value 0 bs % 2 ^ z) (sym (append-nil eight) ∙ f) ∙ value-zeros fs z;
}
zero_tail fs z some_zeros few (byte eight e (byte eight' {bytes = bytes} {bits = bits} e' h)) f =
    elim (meets eight (eight' ++ bits) fs (replicate z false) f) [
      | Meets.later p g k ↦
          let rest : ZeroTail (value 0 eight' ∷ bytes) z =
            zero_tail p z some_zeros few (byte eight' e' h) k in
          record {
            holder = rest.holder;
            at =
                (let place : suc (suc (length bytes)) - 1 ≡ suc (suc (length bytes) - 1) =
                    omega arith in
                  rw place rest.at);
            tail_is = rest.tail_is;
          }
      | Meets.sooner x q g k ↦ absurd (
          omega (
            arith,
            ap length k,
            length-replicate z false,
            length-append (x ∷ q) (eight' ++ bits),
            length-append eight' bits,
            e',
            few,
          ))
    ]

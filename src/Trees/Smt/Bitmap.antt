-- ===== src/Trees/Smt/Bitmap.antt =====
-- The bits of the bitmap of crates/core/src/trees/smt.rs: a byte holds eight of them, the first in its
-- most significant bit.
use native.Mathlib.Nat.{pow-suc, suc-mul, zero-mul, add-mod_right, zero-mod, mul_assoc, mul_comm}
use zk_clob.Prelude.{
  ℕ, zero, suc, ◌+◌, ◌*◌, ◌/◌, ◌%◌, ◌^◌, ◌≡◌, refl, sym, ap, ◌∙◌, Bool, true, false, List, [], ◌∷◌,
  ◌++◌, length, replicate, ◌==◌, arith,
}
use zk_clob.Trees.Bits.{prefix-suc}
use zk_clob.Trees.Smt.{has_bit, with_bit}

abbrev pub digit : Bool → ℕ
digit true = 1
digit false = 0

-- The number of some bits, after those of `acc`.
abbrev pub value : ℕ → List Bool → ℕ
value acc [] = acc
value acc (b ∷ bs) = value (2 * acc + digit b) bs

value-append : (acc : ℕ) (xs ys : List Bool) → value acc (xs ++ ys) ≡ value (value acc xs) ys
value-append acc [] ys = refl
value-append acc (x ∷ xs) ys = value-append (2 * acc + digit x) xs ys

half : (a : ℕ) (b : Bool) → (2 * a + digit b) / 2 ≡ a
half a true = omega arith
half a false = omega arith

value_top : (acc : ℕ) (ys : List Bool) → value acc ys / 2 ^ length ys ≡ acc
value_top acc [] = omega arith
value_top acc (y ∷ ys) =
    sym (prefix-suc (length ys) (value (2 * acc + digit y) ys))
    ∙ ap (λ n. n / 2) (value_top (2 * acc + digit y) ys)
    ∙ half acc y

value-suc : (acc : ℕ) (ys : List Bool) → value (suc acc) ys ≡ value acc ys + 2 ^ length ys
value-suc acc [] = omega arith
value-suc acc (y ∷ ys) =
    let twice : 2 * suc acc + digit y ≡ suc (suc (2 * acc + digit y)) = omega arith in
    ap (λ n. value n ys) twice
    ∙ omega (
      arith,
      value-suc (suc (2 * acc + digit y)) ys,
      value-suc (2 * acc + digit y) ys,
      pow-suc 2 (length ys),
    )

odd_digit : (a : ℕ) (b : Bool) → ((2 * a + digit b) % 2 == 1) ≡ b
odd_digit a true = ground arith
odd_digit a false = ground arith

-- A bit of a byte is read where it stands.
pub has_bit-value :
    (xs : List Bool) (b : Bool) (ys : List Bool)
    → has_bit (value 0 (xs ++ (b ∷ ys))) (length ys) ≡ b
has_bit-value xs b ys =
    ap (λ n. has_bit n (length ys)) (value-append 0 xs (b ∷ ys))
    ∙ ap (λ n. n % 2 == 1) (value_top (2 * value 0 xs + digit b) ys)
    ∙ odd_digit (value 0 xs) b

-- A bit that is not set is set where it stands.
pub with_bit-value :
    (xs ys : List Bool)
    → with_bit (value 0 (xs ++ (false ∷ ys))) (length ys) ≡ value 0 (xs ++ (true ∷ ys))
with_bit-value xs ys = rw (has_bit-value xs false ys) (
    ap (λ n. n + 2 ^ length ys) (value-append 0 xs (false ∷ ys))
    ∙ sym (value-suc (2 * value 0 xs + 0) ys)
    ∙ ap (λ n. value n ys)
        (let one : suc (2 * value 0 xs + 0) ≡ 2 * value 0 xs + 1 = omega arith in one)
    ∙ sym (value-append 0 xs (true ∷ ys)))

value_zeros : (acc z : ℕ) → value acc (replicate z false) ≡ acc * 2 ^ z
value_zeros acc zero = omega arith
value_zeros acc (suc z) =
    value_zeros (2 * acc + 0) z
    ∙ ap (λ n. n * 2 ^ z) (let one : 2 * acc + 0 ≡ acc * 2 = omega arith in one)
    ∙ mul_assoc acc 2 (2 ^ z)
    ∙ ap (λ n. acc * n) (mul_comm 2 (2 ^ z) ∙ sym (pow-suc 2 z))

mul-mod : (a m : ℕ) → (a * m) % m ≡ 0
mul-mod zero m = ap (λ n. n % m) (zero-mul m) ∙ zero-mod m
mul-mod (suc a) m = ap (λ n. n % m) (suc-mul a m) ∙ add-mod_right (a * m) m ∙ mul-mod a m

-- The last bits of a byte are zero.
pub value-zeros : (xs : List Bool) (z : ℕ) → value 0 (xs ++ replicate z false) % 2 ^ z ≡ 0
value-zeros xs z =
    ap (λ n. n % 2 ^ z) (value-append 0 xs (replicate z false) ∙ value_zeros (value 0 xs) z)
    ∙ mul-mod (value 0 xs) (2 ^ z)

-- The bits of some bytes.
pub data Packed : List ℕ → List Bool → Type 0 where
  packed : Packed [] []
  byte :
      (eight : List Bool) {bytes : List ℕ} {bits : List Bool}
      → length eight ≡ 8
      → Packed bytes bits
      → Packed (value 0 eight ∷ bytes) (eight ++ bits)

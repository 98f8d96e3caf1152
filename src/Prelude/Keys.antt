-- ===== src/Prelude/Keys.antt =====
-- Keys in a list.
use mathlib.Core.Path.{◌≡◌, subst}
use Prim.Native.Nat.{ℕ}
use mathlib.Core.Bool.{Bool, true}
use mathlib.Core.List.{List, [], ◌∷◌}
use mathlib.Core.Logic.{inl, inr}
use native.Mathlib.Omega.{arith}
use zk_clob.Prelude.Lists.{any, All, All-imp}
use zk_clob.Prelude.Tests.{◌==◌, Bool-cases}

-- Whether a key is among others.
abbrev pub is_key : List ℕ → ℕ → Bool
is_key ks k = any (λ j. j == k) ks

-- What holds of all keys holds of a key among them.
pub All-is_key : (P : ℕ → Type 0) (ks : List ℕ) (k : ℕ) → is_key ks k ≡ true → All P ks → P k
All-is_key P [] k e h = absurd (cc)
All-is_key P (j ∷ ks) k e h = elim (Bool-cases (j == k)) [
  | inl same ↦ subst P (let equal : j ≡ k = ground arith in equal) h.0
  | inr different ↦ All-is_key P ks k (ground arith) h.1
]

pub is_key-later : (j k : ℕ) (ks : List ℕ) → is_key ks k ≡ true → is_key (j ∷ ks) k ≡ true
is_key-later j k ks h = ground (arith, h)

-- Every key is among the keys.
pub All-is_key_self : (ks : List ℕ) → All (λ k. is_key ks k ≡ true) ks
All-is_key_self [] = tt
All-is_key_self (k ∷ ks) =
    (ground arith, All-imp (λ j h. is_key-later k j ks h) ks (All-is_key_self ks))

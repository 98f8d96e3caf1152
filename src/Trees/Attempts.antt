-- ===== src/Trees/Attempts.antt =====
-- The results of the functions of crates/core/src/trees/smt.rs and dmt.rs.
use zk_clob.Prelude.{Bool, true, false, Option, none, some}

-- A value, an error, or a panic.
pub data Attempt (E A : Type 0) : Type 0 where
  done : A → Attempt E A
  failed : E → Attempt E A
  crashed : Attempt E A

-- `if test { return Err(e) }`
abbrev pub fail_when : {E : Type 0} → Bool → E → Attempt E (Unit {0})
fail_when true e = failed e
fail_when false e = done tt

module _ {E A : Type 0} where
  -- `ok_or`
  abbrev pub done_or : E → Option A → Attempt E A
  done_or e none = failed e
  done_or e (some a) = done a

  -- `expect`, and an index into a slice.
  abbrev pub demand : Option A → Attempt E A
  demand none = crashed
  demand (some a) = done a

module _ {E B : Type 0} where
  infixl 5 ◌>>=◌ ◌>>◌
  abbrev pub ◌>>=◌ : {A : Type 0} (first : Attempt E A) (next : A → Attempt E B) → Attempt E B
  done a >>= next = next a
  failed e >>= next = failed e
  crashed >>= next = crashed

  abbrev pub ◌>>◌ : (first : Attempt E (Unit {0})) (next : Attempt E B) → Attempt E B
  first >> next = first >>= (λ ready. next)

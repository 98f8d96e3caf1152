-- ===== src/Types/Results.antt =====
-- Statements about results: `Safe P r` rules a panic out and holds of a value where `P` does, and
-- `Succeeds P r` rules an error out too. Both pass through `?` by one rule each.
use zk_clob.Prelude.{◌≡◌, refl, Option, none, some, Bool, true, false, ◌≢◌}
use zk_clob.Types.Errors.{SettlementError, Result, ok, err, panic, ◌>>=◌, fail_if, ok_or}

module _ {ℓ} {A : Type ℓ} where
  abbrev pub Safe : (A → Type 0) → Result A → Type 0
  Safe P (ok a) = P a
  Safe P (err e) = Unit
  Safe P panic = ⊥

  -- A result that is a value, with `P`.
  abbrev pub Succeeds : (A → Type 0) → Result A → Type 0
  Succeeds P (ok a) = P a
  Succeeds P (err e) = ⊥
  Succeeds P panic = ⊥

  pub Safe-of_Succeeds : (P : A → Type 0) (r : Result A) → Succeeds P r → Safe P r
  Safe-of_Succeeds P (ok a) h = h
  Safe-of_Succeeds P (err e) h = tt
  Safe-of_Succeeds P panic h = h

  pub Safe-imp : (P Q : A → Type 0) (r : Result A) → Safe P r → ((a : A) → P a → Q a) → Safe Q r
  Safe-imp P Q (ok a) h imp = imp a h
  Safe-imp P Q (err e) h imp = tt
  Safe-imp P Q panic h imp = h

  -- `P` of a value, whatever else a result may be.
  abbrev pub Accepts : (A → Type 0) → Result A → Type 0
  Accepts P (ok a) = P a
  Accepts P (err e) = Unit
  Accepts P panic = Unit

  pub Accepts-of_Safe : (P : A → Type 0) (r : Result A) → Safe P r → Accepts P r
  Accepts-of_Safe P (ok a) h = h
  Accepts-of_Safe P (err e) h = tt
  Accepts-of_Safe P panic h = tt

  pub Accepts-imp :
      (P Q : A → Type 0) (r : Result A) → Accepts P r → ((a : A) → P a → Q a) → Accepts Q r
  Accepts-imp P Q (ok a) h imp = imp a h
  Accepts-imp P Q (err e) h imp = tt
  Accepts-imp P Q panic h imp = tt

  -- More of the value that a result may be.
  pub Safe-and :
      (P Q : A → Type 0) (r : Result A) → Safe P r → Accepts Q r → Safe (λ a. P a × Q a) r
  Safe-and P Q (ok a) h k = (h, k)
  Safe-and P Q (err e) h k = tt
  Safe-and P Q panic h k = h

  pub Succeeds-and :
      (P Q : A → Type 0) (r : Result A) → Succeeds P r → Accepts Q r → Succeeds (λ a. P a × Q a) r
  Succeeds-and P Q (ok a) h k = (h, k)
  Succeeds-and P Q (err e) h k = h
  Succeeds-and P Q panic h k = h

  pub Safe_at : (P : A → Type 0) (r : Result A) (a : A) → Safe P r → r ≡ ok a → P a
  Safe_at P r a h e = rw e at h

  pub ne_panic_of_Safe : (P : A → Type 0) (r : Result A) → Safe P r → r ≢ panic
  ne_panic_of_Safe P (ok a) h e = cc
  ne_panic_of_Safe P (err x) h e = cc
  ne_panic_of_Safe P panic h e = h

module _ {ℓ κ} {A : Type ℓ} {B : Type κ} where
  pub Safe-bind :
      (P : A → Type 0) (Q : B → Type 0) (m : Result A) (f : A → Result B)
      → Safe P m
      → ((a : A) → P a → Safe Q (f a))
      → Safe Q (m >>= f)
  Safe-bind P Q (ok a) f h k = k a h
  Safe-bind P Q (err e) f h k = tt
  Safe-bind P Q panic f h k = h

  pub Accepts-bind :
      (P : A → Type 0) (Q : B → Type 0) (m : Result A) (f : A → Result B)
      → Accepts P m
      → ((a : A) → P a → Accepts Q (f a))
      → Accepts Q (m >>= f)
  Accepts-bind P Q (ok a) f h k = k a h
  Accepts-bind P Q (err e) f h k = tt
  Accepts-bind P Q panic f h k = tt

  -- Two continuations that agree on what is returned.
  pub bind-cong :
      (P : A → Type 0) (m : Result A) (f g : A → Result B)
      → Safe P m
      → ((a : A) → P a → f a ≡ g a)
      → (m >>= f) ≡ (m >>= g)
  bind-cong P (ok a) f g h k = k a h
  bind-cong P (err e) f g h k = refl
  bind-cong P panic f g h k = refl

  pub Succeeds-bind :
      (P : A → Type 0) (Q : B → Type 0) (m : Result A) (f : A → Result B)
      → Succeeds P m
      → ((a : A) → P a → Succeeds Q (f a))
      → Succeeds Q (m >>= f)
  Succeeds-bind P Q (ok a) f h k = k a h
  Succeeds-bind P Q (err e) f h k = absurd h
  Succeeds-bind P Q panic f h k = absurd h

pub fail_if-Safe : (test : Bool) (e : SettlementError) → Safe (λ _. test ≡ false) (fail_if test e)
fail_if-Safe true e = tt
fail_if-Safe false e = refl

pub ok_or-Safe :
    {A : Type 0} (o : Option A) (e : SettlementError) → Safe (λ a. o ≡ some a) (ok_or o e)
ok_or-Safe none e = tt
ok_or-Safe (some a) e = refl

-- No more than that there is no panic.
abbrev pub Any {ℓ} : {A : Type ℓ} → A → Type 0
Any a = Unit

pub fail_if-Any : (test : Bool) (e : SettlementError) → Safe Any (fail_if test e)
fail_if-Any true e = tt
fail_if-Any false e = tt

pub ok_or-Any : {A : Type 0} (o : Option A) (e : SettlementError) → Safe Any (ok_or o e)
ok_or-Any none e = tt
ok_or-Any (some a) e = tt

-- A result that is no panic is the value that it returns.
pub Safe-eq : {A : Type 0} (r : Result A) → Safe Any r → Safe (λ a. r ≡ ok a) r
Safe-eq (ok a) h = refl
Safe-eq (err e) h = tt
Safe-eq panic h = h

module _ {A : Type 0} where
  -- The value is the one that the result returns.
  pub Safe-both : (P : A → Type 0) (r : Result A) → Safe P r → Safe (λ a. P a × (r ≡ ok a)) r
  Safe-both P (ok a) h = (h, refl)
  Safe-both P (err e) h = tt
  Safe-both P panic h = h

  pub Succeeds-value : (P : A → Type 0) (r : Result A) → Succeeds P r → (a : A) × (r ≡ ok a) × P a
  Succeeds-value P (ok a) h = (a, refl, h)
  Succeeds-value P (err e) h = absurd h
  Succeeds-value P panic h = absurd h

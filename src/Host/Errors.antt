-- ===== src/Host/Errors.antt =====
-- crates/host/src/error.rs, and the results of the host's functions.
use zk_clob.Prelude.{ℕ, Bool, true, false, Option, none, some}
use zk_clob.Types.Ids.{AccountId, AssetId, MarketId}
use zk_clob.Types.Errors.{Result, ok, err, panic}

pub data BatchBuildError : Type 0 where
  account_index_overflow arithmetic_overflow : BatchBuildError
  duplicate_account : AccountId → BatchBuildError
  duplicate_nonce : AccountId → ℕ → BatchBuildError
  duplicate_sequence : ℕ → BatchBuildError
  deposit_cursor_overflow forced_withdrawal_cursor_overflow : BatchBuildError
  invalid_deposit_cursor : (expected actual : ℕ) → BatchBuildError
  invalid_forced_withdrawal_cursor : (expected actual : ℕ) → BatchBuildError
  invalid_nonce : AccountId → BatchBuildError
  invalid_state_proof : BatchBuildError
  insufficient_balance :
      (account : AccountId) (asset : AssetId) (available required : ℕ) → BatchBuildError
  order_index_overflow too_many_accounts too_many_deposits too_many_orders : BatchBuildError
  too_many_withdrawals too_many_forced_withdrawals : BatchBuildError
  unknown_account : AccountId → BatchBuildError
  unknown_asset : AssetId → BatchBuildError
  unknown_market : MarketId → BatchBuildError
  zero_price zero_quantity zero_withdrawal_amount zero_deposit_amount : BatchBuildError
  zero_forced_withdrawal_amount : BatchBuildError

-- A value, an error of the host, or a panic.
pub data HostResult {ℓ} (A : Type ℓ) : Type ℓ where
  crash : HostResult A
  refuse : BatchBuildError → HostResult A
  give : A → HostResult A

-- `if test { return Err(e) }`
abbrev pub refuse_if : Bool → BatchBuildError → HostResult (Unit {0})
refuse_if true e = refuse e
refuse_if false e = give tt

module _ {ℓ} {A : Type ℓ} where
  abbrev pub give_or : BatchBuildError → Option A → HostResult A
  give_or e none = refuse e
  give_or e (some a) = give a

  -- `expect`
  abbrev pub demand : Option A → HostResult A
  demand none = crash
  demand (some a) = give a

  -- `map_err(|_| e)`
  abbrev pub with_error : BatchBuildError → Result A → HostResult A
  with_error e (ok a) = give a
  with_error e (err _) = refuse e
  with_error e panic = crash

module _ {ℓ} {B : Type ℓ} where
  infixl 5 ◌>>=◌ ◌>>◌
  abbrev pub ◌>>=◌ {κ} :
      {A : Type κ} (first : HostResult A) (next : A → HostResult B) → HostResult B
  crash >>= next = crash
  refuse e >>= next = refuse e
  give a >>= next = next a

  abbrev pub ◌>>◌ : (first : HostResult (Unit {0})) (next : HostResult B) → HostResult B
  first >> next = first >>= (λ done. next)

-- A result that is no crash, and whose value satisfies `P`.
module _ {ℓ} {A : Type ℓ} where
  abbrev pub Gives : (A → Type 0) → HostResult A → Type 0
  Gives P crash = ⊥
  Gives P (refuse e) = Unit
  Gives P (give a) = P a

pub Gives-bind {ℓ κ} :
    {A : Type ℓ} {B : Type κ} (P : A → Type 0) (Q : B → Type 0) (first : HostResult A)
    (next : A → HostResult B)
    → Gives P first
    → ((a : A) → P a → Gives Q (next a))
    → Gives Q (first >>= next)
Gives-bind P Q crash next h k = h
Gives-bind P Q (refuse e) next h k = tt
Gives-bind P Q (give a) next h k = k a h

-- A test, or a value that may be missing, before the rest.
module _ {ℓ} {B : Type ℓ} (Q : B → Type 0) where
  pub refuse_if-bind :
      (test : Bool) (e : BatchBuildError) (next : HostResult B)
      → Gives Q next
      → Gives Q (refuse_if test e >> next)
  refuse_if-bind true e next h = tt
  refuse_if-bind false e next h = h

  pub give_or-bind {κ} :
      {A : Type κ} (e : BatchBuildError) (o : Option A) (next : A → HostResult B)
      → ((a : A) → Gives Q (next a))
      → Gives Q (give_or e o >>= next)
  give_or-bind e none next h = tt
  give_or-bind e (some a) next h = h a

pub Gives-imp {ℓ} :
    {A : Type ℓ} (P Q : A → Type 0) (r : HostResult A)
    → ((a : A) → P a → Q a)
    → Gives P r
    → Gives Q r
Gives-imp P Q crash f h = h
Gives-imp P Q (refuse e) f h = tt
Gives-imp P Q (give a) f h = f a h

-- ===== src/Types/Errors.antt =====
-- crates/core/src/settlement/errors.rs, and the results of fallible functions. `panic` is a failed
-- `expect`, an index out of range or a division by zero.
use zk_clob.Prelude.{ℕ, Bool, true, false, Option, none, some}
use zk_clob.Types.Ids.{AccountId, AssetId}

pub data SettlementError : Type 0 where
  too_many_accounts too_many_deposits too_many_orders too_many_withdrawals : SettlementError
  too_many_forced_withdrawals too_many_assets too_many_markets : SettlementError
  duplicate_account duplicate_balance duplicate_asset duplicate_market : SettlementError
  duplicate_market_order_book duplicate_order_index duplicate_sequence : SettlementError
  unknown_account unknown_asset unknown_market missing_fee_recipient : SettlementError
  missing_order_index empty_order_book zero_asset_scale zero_balance zero_price : SettlementError
  zero_quantity zero_deposit_amount zero_withdrawal_amount : SettlementError
  zero_forced_withdrawal_amount identical_market_assets invalid_fee : SettlementError
  invalid_order_signature invalid_withdrawal_signature invalid_nonce : SettlementError
  invalid_deposit_cursor invalid_forced_withdrawal_cursor invalid_order_index : SettlementError
  order_book_market_mismatch order_book_side_mismatch unsorted_accounts : SettlementError
  unsorted_assets unsorted_balances unsorted_markets unsorted_market_order_books : SettlementError
  unsorted_order_book nonce_overflow deposit_cursor_overflow : SettlementError
  forced_withdrawal_cursor_overflow old_state_root_mismatch invalid_state_multiproof :
      SettlementError
  self_trade : SettlementError
  insufficient_balance :
      (account : AccountId) (asset : AssetId) (available required : ℕ) → SettlementError
  arithmetic_overflow trade_value_rounds_to_zero asset_conservation_violation : SettlementError

pub data Result {ℓ} (A : Type ℓ) : Type ℓ where
  panic : Result A
  err : SettlementError → Result A
  ok : A → Result A

-- `if test { return Err(e) }`
abbrev pub fail_if : Bool → SettlementError → Result (Unit {0})
fail_if false e = ok tt
fail_if true e = err e

module _ {ℓ} {A : Type ℓ} where
  abbrev pub ok_or : Option A → SettlementError → Result A
  ok_or none e = err e
  ok_or (some a) e = ok a

  -- `expect`, and indexing.
  abbrev pub expect : Option A → Result A
  expect none = panic
  expect (some a) = ok a

-- `?`, and a statement in front of the rest.
module _ {ℓ} {B : Type ℓ} where
  infixl 5 ◌>>=◌ ◌>>◌
  abbrev pub ◌>>=◌ {κ} : {A : Type κ} (result : Result A) (rest : A → Result B) → Result B
  panic >>= rest = panic
  err e >>= rest = err e
  ok a >>= rest = rest a

  abbrev pub ◌>>◌ : (statement : Result (Unit {0})) (rest : Result B) → Result B
  statement >> rest = statement >>= (λ done. rest)

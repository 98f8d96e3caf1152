-- ===== src/Types/Order.antt =====
-- crates/core/src/types/order.rs
use zk_clob.Prelude.{ℕ, Bool, true, false, compare, Ordering}
use zk_clob.Types.Ids.{MarketId}
use zk_clob.Types.Operations.{SignedOperation}

pub data Side : Type 0 where
  buy sell : Side

abbrev pub same_side : Side → Side → Bool
same_side Side.buy Side.buy = true
same_side Side.sell Side.sell = true
same_side _ _ = false

pub record Order : Type 0 where
  pub market_id : MarketId
  pub side : Side
  pub price : ℕ
  pub quantity : ℕ
  pub nonce : ℕ

abbrev pub SignedOrder : Type 0
SignedOrder = SignedOperation Order

pub record SequencedOrder : Type 0 where
  pub signed_order : SignedOrder
  pub open signed_order use {operation, signer, account_index}
  pub sequence : ℕ

-- `SignedOrder::with_sequence`
abbrev pub with_sequence : SignedOrder → ℕ → SequencedOrder
with_sequence o n = record { signed_order = o; sequence = n }

-- `Ordering::then_with`
abbrev pub then_with : Ordering → Ordering → Ordering
then_with Ordering.eq second = second
then_with first _ = first

-- `Side::compare_priority`
unfoldable pub compare_priority : Side → SequencedOrder → SequencedOrder → Ordering
compare_priority Side.buy l r =
    then_with (compare r.operation.price l.operation.price) (compare l.sequence r.sequence)
compare_priority Side.sell l r =
    then_with (compare l.operation.price r.operation.price) (compare l.sequence r.sequence)

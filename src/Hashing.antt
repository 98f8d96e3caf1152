-- ===== src/Hashing.antt =====
-- crates/core/src/hashing.rs, the `Sha256Hash` and `DomainSha256Hash` implementations of the types,
-- and crates/core/src/types/signature.rs. SHA-256, Keccak-256 and secp256k1 are parameters.
use zk_clob.Prelude.{
  ℕ, ◌%◌, ◌^◌, Bool, false, not, Option, none, some, List, [], ◌∷◌, ◌++◌, length, ltb, ◌==◌,
  if◌then◌else◌, to_be_bytes, ascii,
}
use zk_clob.Types.Ids.{B256, AccountId}
use zk_clob.Types.Account.{AssetBalance, Account}
use zk_clob.Types.Operations.{
  Signature, SignedOperation, Deposit, ForcedWithdrawal, Withdrawal, ExecutedWithdrawal, Trade,
}
use zk_clob.Types.Order.{Side, Order, SequencedOrder}
use zk_clob.Types.Config.{AssetConfig, MarketConfig, FeeConfig, ExchangeConfig}
use zk_clob.Types.Batch.{SigningDomain}

-- The cryptography that the engine calls. A digest is a 256-bit number, a public key its 65
-- uncompressed bytes. `from_compact` says whether the library accepts a compact signature, and
-- `is_low_s` whether it is already normalized.
pub record Crypto : Type 0 where
  pub sha256 : List ℕ → B256
  pub keccak256 : List ℕ → B256
  pub from_compact : (r s recovery_id : ℕ) → Bool
  pub is_low_s : (r s : ℕ) → Bool
  pub recover_ecdsa : (digest r s recovery_id : ℕ) → Option (List ℕ)

-- The bytes that `update_hash` of each type feeds to the hasher.
abbrev pub address_bytes : ℕ → List ℕ
address_bytes = to_be_bytes 20

abbrev pub b256_bytes : ℕ → List ℕ
b256_bytes = to_be_bytes 32

abbrev pub u16_bytes : ℕ → List ℕ
u16_bytes = to_be_bytes 2

abbrev pub u32_bytes : ℕ → List ℕ
u32_bytes = to_be_bytes 4

abbrev pub u64_bytes : ℕ → List ℕ
u64_bytes = to_be_bytes 8

abbrev pub u128_bytes : ℕ → List ℕ
u128_bytes = to_be_bytes 16

-- Each element in turn.
abbrev pub each_bytes : {A : Type 0} → (A → List ℕ) → List A → List ℕ
each_bytes bytes [] = []
each_bytes bytes (x ∷ xs) = bytes x ++ each_bytes bytes xs

-- The length as a `u64`, and each element in turn.
abbrev pub list_bytes : {A : Type 0} → (A → List ℕ) → List A → List ℕ
list_bytes bytes xs = u64_bytes (length xs) ++ each_bytes bytes xs

abbrev pub balance_bytes : AssetBalance → List ℕ
balance_bytes b = address_bytes b.asset ++ u128_bytes b.available

abbrev pub account_bytes : Account → List ℕ
account_bytes a =
    address_bytes a.id ++ (u64_bytes a.next_nonce ++ list_bytes balance_bytes a.balances)

abbrev pub side_byte : Side → ℕ
side_byte Side.buy = 0
side_byte Side.sell = 1

abbrev pub order_bytes : Order → List ℕ
order_bytes o =
    b256_bytes o.market_id
    ++ (side_byte o.side ∷ (u128_bytes o.price ++ (u128_bytes o.quantity ++ u64_bytes o.nonce)))

abbrev pub sequenced_order_bytes : SequencedOrder → List ℕ
sequenced_order_bytes o =
    order_bytes o.operation ++ (address_bytes o.signer ++ u64_bytes o.sequence)

abbrev pub deposit_bytes : Deposit → List ℕ
deposit_bytes d =
    u64_bytes d.id ++ (address_bytes d.account ++ (address_bytes d.asset ++ u128_bytes d.amount))

abbrev pub forced_withdrawal_bytes : ForcedWithdrawal → List ℕ
forced_withdrawal_bytes w =
    u64_bytes w.id ++ (address_bytes w.account ++ (address_bytes w.asset ++ u128_bytes w.amount))

abbrev pub withdrawal_bytes : Withdrawal → List ℕ
withdrawal_bytes w =
    address_bytes w.asset
    ++ (u128_bytes w.amount ++ (address_bytes w.recipient ++ u64_bytes w.nonce))

abbrev pub executed_withdrawal_bytes : ExecutedWithdrawal → List ℕ
executed_withdrawal_bytes w =
    address_bytes w.account
    ++ (address_bytes w.recipient
        ++ (address_bytes w.asset ++ (u128_bytes w.amount ++ u64_bytes w.nonce)))

abbrev pub trade_bytes : Trade → List ℕ
trade_bytes t =
    b256_bytes t.market_id
    ++ (address_bytes t.buyer
        ++ (address_bytes t.seller
            ++ (u128_bytes t.price
                ++ (u128_bytes t.quantity
                    ++ (u128_bytes t.quote_amount ++ u128_bytes t.quote_fee)))))

abbrev pub asset_config_bytes : AssetConfig → List ℕ
asset_config_bytes a = address_bytes a.id ++ u128_bytes a.scale

abbrev pub market_config_bytes : MarketConfig → List ℕ
market_config_bytes m =
    b256_bytes m.id ++ (address_bytes m.base_asset ++ address_bytes m.quote_asset)

abbrev pub fee_config_bytes : FeeConfig → List ℕ
fee_config_bytes f = address_bytes f.recipient ++ u16_bytes f.buyer_fee_bps

abbrev pub config_bytes : ExchangeConfig → List ℕ
config_bytes c =
    list_bytes asset_config_bytes c.assets
    ++ (list_bytes market_config_bytes c.markets ++ fee_config_bytes c.fees)

abbrev pub domain_bytes : SigningDomain → List ℕ
domain_bytes d =
    u32_bytes d.protocol_version ++ (u64_bytes d.chain_id ++ address_bytes d.exchange_id)

-- The tuple that `settle_batch` hashes into the batch hash.
abbrev pub batch_bytes : B256 → ℕ → B256 → B256 → List SequencedOrder → List ℕ
batch_bytes domain_hash batch_id old_state_root config_hash orders =
    b256_bytes domain_hash
    ++ (u64_bytes batch_id
        ++ (b256_bytes old_state_root
            ++ (b256_bytes config_hash ++ list_bytes sequenced_order_bytes orders)))

module _ (c : Crypto) where
  -- `DomainSha256Hash::hash`
  unfoldable pub domain_hash : List ℕ → List ℕ → B256
  domain_hash domain body = c.sha256 (domain ++ body)

  unfoldable pub account_hash : Account → B256
  unfolding domain_hash
  account_hash a = domain_hash (ascii "ZKCLOB_ACCOUNT_V1") (account_bytes a)

  unfoldable pub order_hash : Order → B256
  unfolding domain_hash
  order_hash o = domain_hash (ascii "ZKCLOB_ORDER_V1") (order_bytes o)

  unfoldable pub withdrawal_hash : Withdrawal → B256
  unfolding domain_hash
  withdrawal_hash w = domain_hash (ascii "ZKCLOB_WITHDRAWAL_V1") (withdrawal_bytes w)

  unfoldable pub config_hash : ExchangeConfig → B256
  unfolding domain_hash
  config_hash e = domain_hash (ascii "ZKCLOB_CONFIG_V1") (config_bytes e)

  unfoldable pub signing_domain_hash : SigningDomain → B256
  unfolding domain_hash
  signing_domain_hash d = domain_hash (ascii "ZKCLOB_SIGNING_DOMAIN_V1") (domain_bytes d)

  unfoldable pub batch_hash : B256 → ℕ → B256 → B256 → List SequencedOrder → B256
  unfolding domain_hash
  batch_hash domain batch_id old_state_root config orders =
      domain_hash (ascii "ZKCLOB_BATCH_V1")
        (batch_bytes domain batch_id old_state_root config orders)

  unfoldable pub trades_hash : List Trade → B256
  unfolding domain_hash
  trades_hash ts = domain_hash (ascii "ZKCLOB_TRADES_V1") (list_bytes trade_bytes ts)

  unfoldable pub deposits_hash : List Deposit → B256
  unfolding domain_hash
  deposits_hash ds = domain_hash (ascii "ZKCLOB_DEPOSITS_V1") (list_bytes deposit_bytes ds)

  unfoldable pub forced_withdrawals_hash : List ForcedWithdrawal → B256
  unfolding domain_hash
  forced_withdrawals_hash ws =
      domain_hash (ascii "ZKCLOB_FORCED_WITHDRAWALS_V1") (list_bytes forced_withdrawal_bytes ws)

  unfoldable pub withdrawals_hash : List ExecutedWithdrawal → B256
  unfolding domain_hash
  withdrawals_hash ws =
      domain_hash (ascii "ZKCLOB_WITHDRAWALS_V1") (list_bytes executed_withdrawal_bytes ws)

  -- `SignableOperation::digest`, over the hash of the operation.
  unfoldable pub digest : B256 → B256 → B256
  digest domain operation =
      c.sha256 (ascii "ZKCLOB_SIGNED_OPERATION_V1" ++ (b256_bytes domain ++ b256_bytes operation))

  -- The address of an uncompressed public key: its leading tag is dropped.
  abbrev pub address_of_key : List ℕ → AccountId
  address_of_key [] = c.keccak256 [] % 2 ^ 160
  address_of_key (tag ∷ key) = c.keccak256 key % 2 ^ 160

  abbrev pub address_of_key? : Option (List ℕ) → Option AccountId
  address_of_key? none = none
  address_of_key? (some key) = some (address_of_key key)

  -- `Signature::recover`
  unfoldable pub recover : Signature → B256 → Option AccountId
  recover g d =
      if ltb 1 g.recovery_id
      then none
      else if not (c.from_compact g.r g.s g.recovery_id)
      then none
      else if not (c.is_low_s g.r g.s)
      then none
      else address_of_key? (c.recover_ecdsa d g.r g.s g.recovery_id)

  abbrev pub is_account : AccountId → Option AccountId → Bool
  is_account id none = false
  is_account id (some signer) = signer == id

  -- `SignedOperation::has_valid_signature`, over the hash of the operation.
  unfoldable pub has_valid_signature : {O : Type 0} → B256 → SignedOperation O → B256 → Bool
  unfolding digest recover
  has_valid_signature operation_hash o domain =
      is_account o.signer (recover o.signature (digest domain operation_hash))

-- ===== src/Types/Config.antt =====
-- crates/core/src/types/config.rs and crates/core/src/consts.rs
use zk_clob.Prelude.{ℕ, Option, none, List, get_elem?, Search, found, vacant, binary_search_by_key}
use zk_clob.Types.Ids.{AccountId, AssetId, MarketId}

abbrev pub bps_denominator : ℕ
bps_denominator = 10_000

abbrev pub max_deposits_per_batch : ℕ
max_deposits_per_batch = 1_000

abbrev pub max_orders_per_batch : ℕ
max_orders_per_batch = 1_000

abbrev pub max_withdrawals_per_batch : ℕ
max_withdrawals_per_batch = 1_000

abbrev pub max_forced_withdrawals_per_batch : ℕ
max_forced_withdrawals_per_batch = 1_000

abbrev pub max_touched_accounts_per_batch : ℕ
max_touched_accounts_per_batch = 1_001

pub record AssetConfig : Type 0 where
  pub id : AssetId
  pub scale : ℕ

pub record MarketConfig : Type 0 where
  pub id : MarketId
  pub base_asset : AssetId
  pub quote_asset : AssetId

pub record FeeConfig : Type 0 where
  pub recipient : AccountId
  pub buyer_fee_bps : ℕ

pub record ExchangeConfig : Type 0 where
  pub assets : List AssetConfig
  pub markets : List MarketConfig
  pub fees : FeeConfig

-- `binary_search(...).ok().map(|index| &items[index])`
abbrev pub hit {ℓ} : {A : Type ℓ} → List A → Search → Option A
hit xs (found i) = get_elem? xs i
hit xs (vacant i) = none

-- `ExchangeConfig::market`
unfoldable pub market_of : ExchangeConfig → MarketId → Option MarketConfig
market_of config id =
    hit config.markets (binary_search_by_key (λ (m : MarketConfig). m.id) config.markets id)

-- `ExchangeConfig::asset`
unfoldable pub asset_of : ExchangeConfig → AssetId → Option AssetConfig
asset_of config id =
    hit config.assets (binary_search_by_key (λ (a : AssetConfig). a.id) config.assets id)

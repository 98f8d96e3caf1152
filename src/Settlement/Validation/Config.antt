-- ===== src/Settlement/Validation/Config.antt =====
-- `validate_config` of crates/core/src/settlement/validation.rs.
pub mod Valid
use zk_clob.Prelude.{
  ℕ, Bool, true, not, ◌||◌, List, [], ◌∷◌, Option, none, some, any, is_some, ltb, ◌==◌,
}
use zk_clob.Types.Account.{Account}
use zk_clob.Types.Config.{AssetConfig, MarketConfig, ExchangeConfig, asset_of, bps_denominator}
use zk_clob.Types.Errors.{
  SettlementError, Result, ok, err, panic, ◌>>=◌, ◌>>◌, fail_if, zero_asset_scale, duplicate_asset,
  unsorted_assets, duplicate_market, unsorted_markets, identical_market_assets, unknown_asset,
  invalid_fee, missing_fee_recipient,
}

-- The comparison with the previous identifier, which must be less.
abbrev pub check_previous :
    Option ℕ → ℕ → (duplicate unsorted : SettlementError) → Result (Unit {0})
check_previous none id duplicate unsorted = ok tt
check_previous (some previous) id duplicate unsorted = do
  fail_if (previous == id) duplicate
  fail_if (ltb id previous) unsorted

unfoldable pub validate_assets : Option ℕ → List AssetConfig → Result (Unit {0})
validate_assets previous [] = ok tt
validate_assets previous (a ∷ as') = do
  fail_if (a.scale == 0) zero_asset_scale
  check_previous previous a.id duplicate_asset unsorted_assets
  validate_assets (some a.id) as'

unfoldable pub validate_markets : ExchangeConfig → Option ℕ → List MarketConfig → Result (Unit {0})
validate_markets config previous [] = ok tt
validate_markets config previous (m ∷ ms) = do
  check_previous previous m.id duplicate_market unsorted_markets
  fail_if (m.base_asset == m.quote_asset) identical_market_assets
  fail_if
      (not (is_some (asset_of config m.base_asset))
        || not (is_some (asset_of config m.quote_asset)))
      unknown_asset
  validate_markets config (some m.id) ms

unfoldable pub validate_config : ExchangeConfig → List Account → Result (Unit {0})
unfolding validate_assets validate_markets
validate_config config accounts = do
  validate_assets none config.assets
  validate_markets config none config.markets
  fail_if (ltb bps_denominator config.fees.buyer_fee_bps) invalid_fee
  fail_if (not (any (λ (a : Account). a.id == config.fees.recipient) accounts))
      missing_fee_recipient

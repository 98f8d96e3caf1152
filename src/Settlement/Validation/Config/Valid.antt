-- ===== src/Settlement/Validation/Config/Valid.antt =====
-- What `validate_config` guarantees.
use zk_clob.Prelude.{
  ℕ, zero, suc, ◌<◌, ◌≤◌, ◌≡◌, ◌≢◌, Bool, true, false, not, ◌||◌, List, [], ◌∷◌, Option, none, some,
  any, is_some, ltb, ◌==◌, Search, found, vacant, get_elem?, arith, sym, ◌∙◌, IsResult,
  binary_search_by_key-IsResult,
}
use mathlib.Core.Path.{subst}
use zk_clob.Types.Account.{Account}
use zk_clob.Types.Config.{
  AssetConfig, MarketConfig, ExchangeConfig, hit, asset_of, market_of, bps_denominator,
}
use zk_clob.Types.Errors.{
  SettlementError, zero_asset_scale, duplicate_asset, unsorted_assets, duplicate_market,
  unsorted_markets, identical_market_assets, unknown_asset, invalid_fee, missing_fee_recipient,
}
use zk_clob.Types.Results.{Safe, Safe-bind, Safe-imp, fail_if-Safe}
use zk_clob.Settlement.Validation.Config.{
  check_previous, validate_assets, validate_markets, validate_config,
}

-- An identifier comes after the previous one, if there is one.
abbrev pub IsNext : Option ℕ → ℕ → Type 0
IsNext none id = Unit
IsNext (some previous) id = previous < id

-- Assets in ascending order with positive scales.
abbrev pub AreAssets : Option ℕ → List AssetConfig → Type 0
AreAssets previous [] = Unit
AreAssets previous (a ∷ as') = (0 < a.scale) × IsNext previous a.id × AreAssets (some a.id) as'

-- Markets in ascending order between two known assets that differ.
abbrev pub AreMarkets : ExchangeConfig → Option ℕ → List MarketConfig → Type 0
AreMarkets config previous [] = Unit
AreMarkets config previous (m ∷ ms) =
    IsNext previous m.id
    × (m.base_asset ≢ m.quote_asset)
    × (is_some (asset_of config m.base_asset) ≡ true)
    × (is_some (asset_of config m.quote_asset) ≡ true)
    × AreMarkets config (some m.id) ms

pub record IsValidConfig (config : ExchangeConfig) (accounts : List Account) : Type 0 where
  pub assets : AreAssets none config.assets
  pub markets : AreMarkets config none config.markets
  pub fee : config.fees.buyer_fee_bps ≤ bps_denominator
  pub recipient : any (λ (a : Account). a.id == config.fees.recipient) accounts ≡ true

pub check_previous-Safe :
    (previous : Option ℕ) (id : ℕ) (d u : SettlementError)
    → Safe (λ _. IsNext previous id) (check_previous previous id d u)
check_previous-Safe none id d u = tt
check_previous-Safe (some previous) id d u =
    Safe-bind (λ _. (previous == id) ≡ false) (λ _. previous < id) _ _
      (fail_if-Safe (previous == id) d)
      (λ _ e.
        Safe-imp (λ _. ltb id previous ≡ false) (λ _. previous < id) _
          (fail_if-Safe (ltb id previous) u) (λ _ f. ground arith))

validate_assets-Safe :
    (previous : Option ℕ) (as' : List AssetConfig)
    → Safe (λ _. AreAssets previous as') (validate_assets previous as')
unfolding validate_assets
validate_assets-Safe previous [] = tt
validate_assets-Safe previous (a ∷ as') =
    Safe-bind (λ _. (a.scale == 0) ≡ false) (λ _. AreAssets previous (a ∷ as')) _ _
      (fail_if-Safe (a.scale == 0) zero_asset_scale)
      (λ _ z.
        Safe-bind (λ _. IsNext previous a.id) (λ _. AreAssets previous (a ∷ as')) _ _
          (check_previous-Safe previous a.id duplicate_asset unsorted_assets)
          (λ _ n.
            Safe-imp (λ _. AreAssets (some a.id) as') (λ _. AreAssets previous (a ∷ as')) _
              (validate_assets-Safe (some a.id) as') (λ _ r. (ground arith, n, r))))

validate_markets-Safe :
    (config : ExchangeConfig) (previous : Option ℕ) (ms : List MarketConfig)
    → Safe (λ _. AreMarkets config previous ms) (validate_markets config previous ms)
unfolding validate_markets
validate_markets-Safe config previous [] = tt
validate_markets-Safe config previous (m ∷ ms) =
    Safe-bind (λ _. IsNext previous m.id) Q _ _
      (check_previous-Safe previous m.id duplicate_market unsorted_markets)
      (λ _ n.
        Safe-bind (λ _. (m.base_asset == m.quote_asset) ≡ false) Q _ _
          (fail_if-Safe (m.base_asset == m.quote_asset) identical_market_assets)
          (λ _ d.
            Safe-bind (λ _. unknown ≡ false) Q _ _ (fail_if-Safe unknown unknown_asset)
              (λ _ k.
                Safe-imp (λ _. AreMarkets config (some m.id) ms) Q _
                  (validate_markets-Safe config (some m.id) ms)
                  (λ _ r. (n, ground arith, ground arith, ground arith, r)))))
  where
    Q : Unit {0} → Type 0
    Q _ = AreMarkets config previous (m ∷ ms)

    unknown : Bool
    unknown =
        not (is_some (asset_of config m.base_asset))
        || not (is_some (asset_of config m.quote_asset))

-- `validate_config` never panics. What it lets through has assets in strictly ascending order with
-- positive scales, markets in strictly ascending order between two known assets that differ, a fee
-- of at most the whole, and a fee recipient among the accounts.
pub validate_config-Safe :
    (config : ExchangeConfig) (xs : List Account)
    → Safe (λ _. IsValidConfig config xs) (validate_config config xs)
unfolding validate_config
validate_config-Safe config xs =
    Safe-bind (λ _. AreAssets none config.assets) Q _ _ (validate_assets-Safe none config.assets)
      (λ _ a.
        Safe-bind (λ _. AreMarkets config none config.markets) Q _ _
          (validate_markets-Safe config none config.markets)
          (λ _ m.
            Safe-bind (λ _. ltb bps_denominator config.fees.buyer_fee_bps ≡ false) Q _ _
              (fail_if-Safe (ltb bps_denominator config.fees.buyer_fee_bps) invalid_fee)
              (λ _ f.
                Safe-imp (λ _. not there ≡ false) Q _
                  (fail_if-Safe (not there) missing_fee_recipient)
                  (λ _ r. record {
                    assets = a;
                    markets = m;
                    fee = ground arith;
                    recipient = ground arith;
                  }))))
  where
    Q : Unit {0} → Type 0
    Q _ = IsValidConfig config xs

    there : Bool
    there = any (λ (a : Account). a.id == config.fees.recipient) xs

AreAssets-get_elem? :
    (previous : Option ℕ) (as' : List AssetConfig) (i : ℕ) {a : AssetConfig}
    → AreAssets previous as'
    → get_elem? as' i ≡ some a
    → 0 < a.scale
AreAssets-get_elem? previous [] i h e = cc
AreAssets-get_elem? previous (x ∷ as') zero h e = ground arith
AreAssets-get_elem? previous (x ∷ as') (suc i) h e = AreAssets-get_elem? (some x.id) as' i h.2 e

hit-positive :
    (as' : List AssetConfig) (s : Search) {a : AssetConfig}
    → AreAssets none as'
    → hit as' s ≡ some a
    → 0 < a.scale
hit-positive as' (found i) h e = AreAssets-get_elem? none as' i h e
hit-positive as' (vacant i) h e = cc

-- Every asset that a valid configuration knows has a positive scale.
pub asset_of_positive :
    (config : ExchangeConfig) (id : ℕ) {a : AssetConfig}
    → AreAssets none config.assets
    → asset_of config id ≡ some a
    → 0 < a.scale
unfolding asset_of
asset_of_positive config id h e = hit-positive config.assets _ h e

hit-id :
    (ms : List MarketConfig) (id : ℕ) (s : Search) {m : MarketConfig}
    → IsResult (λ (x : MarketConfig). x.id) ms id s
    → hit ms s ≡ some m
    → m.id ≡ id
hit-id ms id (found i) {m = m} r e =
    let same : r.0 ≡ m = (let both : some r.0 ≡ some m = sym r.1 ∙ e in cc) in
    subst (λ (x : MarketConfig). x.id ≡ id) same r.2
hit-id ms id (vacant i) r e = absurd (cc)

-- A market that the configuration knows is found under its own identifier.
pub market_of_own :
    (config : ExchangeConfig) (id : ℕ) {m : MarketConfig}
    → market_of config id ≡ some m
    → market_of config m.id ≡ some m
unfolding market_of
market_of_own config id {m = m} e =
    let own : m.id ≡ id =
      hit-id config.markets id _
        (binary_search_by_key-IsResult (λ (x : MarketConfig). x.id) config.markets id) e in
    subst (λ k. market_of config k ≡ some m) (sym own) e

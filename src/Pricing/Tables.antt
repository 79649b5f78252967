-- ===== src/Pricing/Tables.antt =====
-- The tables that prices and currencies are resolved from (app/modules/zylo_liquid/models.py,
-- app/shared/currency.py, app/shared/geo.py).
use zylo_office_backend.Prelude.{ℕ, String, Option, List}

pub record Currency : Type 0 where
  pub id : ℕ
  pub code : String

pub record City : Type 0 where
  pub id : ℕ
  pub region_id : ℕ

pub record Region : Type 0 where
  pub id : ℕ
  pub country_id : ℕ

pub record Country : Type 0 where
  pub id : ℕ
  pub currency_id : Option ℕ
  pub currency_code : String

pub record Station : Type 0 where
  pub id : ℕ
  pub currency_override_id : Option ℕ
  pub city_id : Option ℕ

pub record PriceHistory : Type 0 where
  pub id : ℕ
  pub station_id : Option ℕ
  pub fuel_product_id : ℕ
  pub currency_id : ℕ
  pub price_amount : ℕ
  pub cost_amount : Option ℕ
  pub effective_from : ℕ
  pub change_reason : Option String
  pub created_by : ℕ

pub record PricingDb : Type 0 where
  pub currencies : List Currency
  pub cities : List City
  pub regions : List Region
  pub countries : List Country
  pub stations : List Station
  pub prices : List PriceHistory

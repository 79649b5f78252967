-- ===== src/Commercial/Tables.antt =====
-- The tables of the commercial layer (app/modules/zylo_liquid/models.py), as far as its operations
-- read or write them, with those of the authorisation.
use zylo_office_backend.Prelude.{ℕ, String, Bool, Option, List}
use zylo_office_backend.Rbac.Tables.{Db}

pub record Station : Type 0 where
  pub id : ℕ
  pub organization_id : ℕ

pub record FuelProduct : Type 0 where
  pub id : ℕ
  pub organization_id : ℕ

pub record Pump : Type 0 where
  pub id : ℕ
  pub station_id : ℕ
  pub tank_id : ℕ

pub record CommercialAccount : Type 0 where
  pub id : ℕ
  pub organization_id : ℕ
  pub currency_id : ℕ
  pub credit_limit : ℕ
  pub active : Bool

pub record Sale : Type 0 where
  pub id : ℕ
  pub station_id : ℕ
  pub author_user_id : ℕ
  pub event_at : ℕ
  pub fuel_product_id : ℕ
  pub quantity_liters : ℕ
  pub price_amount : ℕ
  pub currency_id : ℕ
  pub payment_method : String
  pub commercial_account_id : Option ℕ
  pub vehicle_id : Option ℕ
  pub driver_id : Option ℕ
  pub pump_id : Option ℕ

pub record Receivable : Type 0 where
  pub id : ℕ
  pub commercial_account_id : ℕ
  pub sale_id : Option ℕ
  pub product_sale_transaction_id : Option ℕ
  pub amount : ℕ
  pub currency_id : ℕ
  pub status : String

-- A rate counts in units of its column's last decimal, the eighth.
pub record Payment : Type 0 where
  pub id : ℕ
  pub receivable_id : ℕ
  pub author_user_id : ℕ
  pub paid_at : ℕ
  pub amount : ℕ
  pub currency_id : ℕ
  pub exchange_rate_applied : Option ℕ
  pub method : Option String

pub record SellableProduct : Type 0 where
  pub id : ℕ
  pub organization_id : ℕ
  pub stock_quantity : ℕ

pub record ProductSaleTransaction : Type 0 where
  pub id : ℕ
  pub station_id : ℕ
  pub author_user_id : ℕ
  pub event_at : ℕ
  pub currency_id : ℕ
  pub payment_method : String
  pub total_amount : ℕ
  pub status : String
  pub commercial_account_id : Option ℕ
  pub cancelled_at : Option ℕ
  pub cancelled_by_user_id : Option ℕ

pub record ProductSaleLine : Type 0 where
  pub transaction_id : ℕ
  pub sellable_product_id : ℕ
  pub quantity : ℕ
  pub unit_price_amount : ℕ
  pub line_total_amount : ℕ

-- Currencies, vehicles and drivers are only looked up by their ids.
pub record CommercialDb : Type 0 where
  pub rbac : Db
  pub stations : List Station
  pub fuel_products : List FuelProduct
  pub currencies : List ℕ
  pub vehicles : List ℕ
  pub drivers : List ℕ
  pub pumps : List Pump
  pub accounts : List CommercialAccount
  pub sales : List Sale
  pub receivables : List Receivable
  pub payments : List Payment
  pub products : List SellableProduct
  pub transactions : List ProductSaleTransaction
  pub sale_lines : List ProductSaleLine

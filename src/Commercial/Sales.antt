-- ===== src/Commercial/Sales.antt =====
-- The sale of fuel and its credit (`create_sale`), up to its commit. The check of declared against
-- measured stock that may follow the commit is left out: a failure of it is caught and logged.
pub mod Credit
pub mod Refusals
use zylo_office_backend.Prelude.{
  ℕ, ◌+◌, ◌*◌, String, Bool, true, false, not, ◌&&◌, ◌||◌, Option, none, some, List, [], ◌∷◌, ◌++◌,
  ◌==◌, string_eq, nat_eq, is_none, leb, if◌then◌else◌, select, any, find, Result, ok, err, guard,
  or_raise, scalar_one_or_none, permission_denied, station_not_found, fuel_product_not_found,
  currency_not_found, commercial_account_required, commercial_account_not_applicable,
  commercial_account_not_found, commercial_account_inactive, credit_limit_exceeded,
  vehicle_not_found, driver_not_found, pump_not_found, ◌>>=◌, ◌>>◌,
}
use zylo_office_backend.Rbac.Resolution.{user_has_permission}
use zylo_office_backend.Commercial.Tables.{
  Station, FuelProduct, Pump, CommercialAccount, Sale, Receivable, CommercialDb,
}

unfoldable pub get_station : CommercialDb → ℕ → ℕ → Result Station
get_station db organization_id station_id = do
  found ← scalar_one_or_none (
      select (λ (s : Station). s.id == station_id && s.organization_id == organization_id)
        db.stations)
  or_raise found station_not_found

unfoldable pub get_fuel_product : CommercialDb → ℕ → ℕ → Result FuelProduct
get_fuel_product db organization_id fuel_product_id = do
  found ← scalar_one_or_none (
      select (λ (p : FuelProduct). p.id == fuel_product_id && p.organization_id == organization_id)
        db.fuel_products)
  or_raise found fuel_product_not_found

-- A permission on a station.
unfoldable pub check_declaration_scope :
    CommercialDb → ℕ → ℕ → ℕ → Station → String → Result (Unit {0})
check_declaration_scope db now organization_id actor_user_id station permission_code =
    guard
      (user_has_permission db.rbac now actor_user_id organization_id permission_code
        (some "station") (some station.id))
      permission_denied

-- A permission on the whole organisation.
unfoldable pub check_org_scope : CommercialDb → ℕ → ℕ → ℕ → String → Result (Unit {0})
check_org_scope db now organization_id actor_user_id permission_code =
    guard (user_has_permission db.rbac now actor_user_id organization_id permission_code none none)
      permission_denied

unfoldable pub get_commercial_account_or_404 : CommercialDb → ℕ → ℕ → Result CommercialAccount
get_commercial_account_or_404 db organization_id account_id = do
  account ←
      or_raise (find (λ (a : CommercialAccount). a.id == account_id) db.accounts)
        commercial_account_not_found
  guard (account.organization_id == organization_id) commercial_account_not_found
  ok account

-- `status IN ('open', 'partially_settled')`, for one account.
unfoldable pub is_outstanding : ℕ → Receivable → Bool
is_outstanding account_id r =
    r.commercial_account_id == account_id && (r.status == "open" || r.status == "partially_settled")

abbrev pub sum_amounts : List Receivable → ℕ
sum_amounts [] = 0
sum_amounts (r ∷ rs) = r.amount + sum_amounts rs

-- `SUM(amount)` of the receivables that are not settled, whatever their currency.
unfoldable pub outstanding : List Receivable → ℕ → ℕ
unfolding is_outstanding
outstanding receivables account_id = sum_amounts (select (is_outstanding account_id) receivables)

pub record CreateSaleRequest : Type 0 where
  pub station_id : ℕ
  pub event_at : ℕ
  pub fuel_product_id : ℕ
  pub quantity_liters : ℕ
  pub price_amount : ℕ
  pub currency_id : ℕ
  pub payment_method : String
  pub commercial_account_id : Option ℕ
  pub vehicle_id : Option ℕ
  pub driver_id : Option ℕ
  pub pump_id : Option ℕ

abbrev pub sale_amount : CreateSaleRequest → ℕ
sale_amount req = req.quantity_liters * req.price_amount

-- The checks of a sale on credit, with the account that it goes to.
unfoldable pub check_credit : CommercialDb → ℕ → CreateSaleRequest → Result CommercialAccount
unfolding get_commercial_account_or_404 outstanding
check_credit db organization_id req = do
  account_id ← or_raise req.commercial_account_id commercial_account_required
  account ← get_commercial_account_or_404 db organization_id account_id
  guard account.active commercial_account_inactive
  guard (leb (outstanding db.receivables account.id + sale_amount req) account.credit_limit)
      credit_limit_exceeded
  ok account

-- The account of a sale on credit; any other sale names none.
unfoldable pub sale_account :
    CommercialDb → ℕ → CreateSaleRequest → Result (Option CommercialAccount)
unfolding check_credit
sale_account db organization_id req =
    if req.payment_method == "credit"
    then check_credit db organization_id req >>= (λ account. ok (some account))
    else guard (is_none req.commercial_account_id) commercial_account_not_applicable >> ok none

-- `id is not None and db.get(Model, id) is None`
unfoldable pub refers : List ℕ → Option ℕ → Bool
refers ids none = true
refers ids (some i) = any (λ (j : ℕ). j == i) ids

unfoldable pub check_pump : CommercialDb → ℕ → Option ℕ → Result (Unit {0})
check_pump db station_id none = ok tt
check_pump db station_id (some pump_id) = do
  pump ← or_raise (find (λ (p : Pump). p.id == pump_id) db.pumps) pump_not_found
  guard (pump.station_id == station_id) pump_not_found

abbrev pub new_sale : Station → ℕ → CreateSaleRequest → ℕ → Sale
new_sale station actor_user_id req fresh = record {
  id = fresh;
  station_id = station.id;
  author_user_id = actor_user_id;
  event_at = req.event_at;
  fuel_product_id = req.fuel_product_id;
  quantity_liters = req.quantity_liters;
  price_amount = req.price_amount;
  currency_id = req.currency_id;
  payment_method = req.payment_method;
  commercial_account_id = req.commercial_account_id;
  vehicle_id = req.vehicle_id;
  driver_id = req.driver_id;
  pump_id = req.pump_id;
}

abbrev pub new_receivable : CommercialAccount → CreateSaleRequest → ℕ → ℕ → Receivable
new_receivable account req sale_id fresh = record {
  id = fresh;
  commercial_account_id = account.id;
  sale_id = some sale_id;
  product_sale_transaction_id = none;
  amount = sale_amount req;
  currency_id = req.currency_id;
  status = "open";
}

-- The receivable that a sale on credit opens.
abbrev pub opened : Option CommercialAccount → CreateSaleRequest → ℕ → ℕ → List Receivable
opened none req sale_id fresh = []
opened (some account) req sale_id fresh = new_receivable account req sale_id fresh ∷ []

-- The fresh ids are those of the sale and of the receivable.
unfoldable pub create_sale :
    CommercialDb → ℕ → ℕ → ℕ → CreateSaleRequest → ℕ → ℕ → Result (Sale × CommercialDb)
unfolding get_station check_declaration_scope get_fuel_product sale_account refers check_pump
create_sale db now organization_id actor_user_id req fresh_sale fresh_receivable = do
  station ← get_station db organization_id req.station_id
  check_declaration_scope db now organization_id actor_user_id station "zyloLiquid.sale.create"
  fuel_product ← get_fuel_product db organization_id req.fuel_product_id
  guard (any (λ (c : ℕ). c == req.currency_id) db.currencies) currency_not_found
  account ← sale_account db organization_id req
  guard (refers db.vehicles req.vehicle_id) vehicle_not_found
  guard (refers db.drivers req.driver_id) driver_not_found
  check_pump db station.id req.pump_id
  let sale = new_sale station actor_user_id req fresh_sale
  ok (
    sale,
    record db {
      sales = db.sales ++ sale ∷ [];
      receivables = db.receivables ++ opened account req sale.id fresh_receivable;
    },
  )

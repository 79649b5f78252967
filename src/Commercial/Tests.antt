-- ===== src/Commercial/Tests.antt =====
-- The commercial layer at concrete inputs: one organisation, one station, one customer account.
use zylo_office_backend.Prelude.{
  Bool, ℕ, ◌+◌, String, true, false, ◌≡◌, refl, sym, ◌∙◌, ◌↔◌, inl, inr, none, some, List, [], ◌∷◌,
  select, any, all, find, ok, err, In, arith, scalar_one_or_none, credit_limit_exceeded,
}
use zylo_office_backend.Rbac.Tables.{Db, Permission}
use zylo_office_backend.Rbac.Resolution.{
  scope_covers, grants_of_attribution, role_permission_grants, not_expired, is_live, has_code,
  applicable_grants, grant_covers, role_grant_covers, user_has_permission,
}
use zylo_office_backend.Commercial.Tables.{
  CommercialAccount, Sale, Receivable, Payment, SellableProduct, ProductSaleTransaction,
  ProductSaleLine, CommercialDb,
}
use zylo_office_backend.Commercial.Sales.{
  get_station, get_fuel_product, check_declaration_scope, check_org_scope,
  get_commercial_account_or_404, is_outstanding, outstanding, CreateSaleRequest, check_credit,
  sale_account, refers, check_pump, new_sale, new_receivable, create_sale,
}
use zylo_office_backend.Commercial.Sales.Refusals.{Reaches, Exceeds, create_sale-exceeded}
use zylo_office_backend.Commercial.Payments.{
  converted, total_paid, CreatePaymentRequest, new_payment, settled_status, create_payment,
}
use zylo_office_backend.Commercial.Payments.Settlement.{
  standing, IsSettled, create_payment-IsSettled,
}
use zylo_office_backend.Commercial.Ledger.{IsSound, sold, paid, here, next}
use zylo_office_backend.Commercial.Ledger.Bounds.{reach-IsSound}
use zylo_office_backend.Commercial.Shop.{
  CreateProductSaleTransactionRequest, build_lines, decrement, decrement_all, shop_credit,
  shop_receivable, sale_line, new_transaction, create_product_sale_transaction,
  cancel_product_sale_transaction,
}
use zylo_office_backend.Commercial.Shop.Cancellation.{cancel-create}
use zylo_office_backend.Commercial.Shop.Debt.{
  with_terms, outstanding-create_product_sale_transaction,
}

abbrev permission : ℕ → String → Permission
permission i code = record { id = i; code = code; module_code = "zyloLiquid" }

-- User 1 has every permission of the layer in organisation 5.
abbrev office : Db
office = record {
  roles = record { id = 10; organization_id = 5; code = "owner"; name = "Owner" } ∷ [];
  permissions =
      permission 1 "zyloLiquid.sale.create"
      ∷ permission 2 "zyloLiquid.payment.create"
      ∷ permission 3 "zyloLiquid.productSale.create"
      ∷ permission 4 "zyloLiquid.productSale.cancel"
      ∷ [];
  role_permissions =
      record { role_id = 10; permission_id = 1 }
      ∷ record { role_id = 10; permission_id = 2 }
      ∷ record { role_id = 10; permission_id = 3 }
      ∷ record { role_id = 10; permission_id = 4 }
      ∷ [];
  user_roles =
      record {
        id = 20;
        user_id = 1;
        organization_id = 5;
        role_id = 10;
        resource_type = none;
        resource_id = none;
      }
      ∷ [];
  grants = [];
  audit_logs = [];
}

abbrev customer : CommercialAccount
customer = record {
  id = 30;
  organization_id = 5;
  currency_id = 7;
  credit_limit = 60;
  active = true;
}

abbrev soap : SellableProduct
soap = record { id = 40; organization_id = 5; stock_quantity = 9 }

abbrev forecourt : CommercialDb
forecourt = record {
  rbac = office;
  stations = record { id = 6; organization_id = 5 } ∷ [];
  fuel_products = record { id = 8; organization_id = 5 } ∷ [];
  currencies = 7 ∷ [];
  vehicles = [];
  drivers = [];
  pumps = [];
  accounts = customer ∷ [];
  sales = [];
  receivables = [];
  payments = [];
  products = soap ∷ [];
  transactions = [];
  sale_lines = [];
}

-- Ten litres at four.
abbrev fuel_on_credit : CreateSaleRequest
fuel_on_credit = record {
  station_id = 6;
  event_at = 2;
  fuel_product_id = 8;
  quantity_liters = 10;
  price_amount = 4;
  currency_id = 7;
  payment_method = "credit";
  commercial_account_id = some 30;
  vehicle_id = none;
  driver_id = none;
  pump_id = none;
}

abbrev first_sale : Sale
first_sale = new_sale (record { id = 6; organization_id = 5 }) 1 fuel_on_credit 50

abbrev first_receivable : Receivable
first_receivable = new_receivable customer fuel_on_credit 50 51

abbrev after_sale : CommercialDb
after_sale = record forecourt { sales = first_sale ∷ []; receivables = first_receivable ∷ [] }

sale_succeeds : create_sale forecourt 3 5 1 fuel_on_credit 50 51 ≡ ok (first_sale, after_sale)
unfolding user_has_permission role_permission_grants grants_of_attribution applicable_grants is_live
    not_expired has_code grant_covers role_grant_covers scope_covers select any
    mathlib.Core.List.flat_map find create_sale get_station check_declaration_scope get_fuel_product
    get_commercial_account_or_404 is_outstanding outstanding check_credit sale_account refers
    check_pump scalar_one_or_none
sale_succeeds = refl

abbrev instalment : CreatePaymentRequest
instalment = record {
  receivable_id = 51;
  paid_at = 4;
  amount = 15;
  currency_id = 7;
  exchange_rate_applied = none;
  method = none;
}

abbrev first_payment : Payment
first_payment = new_payment first_receivable 1 instalment 52

abbrev after_payment : CommercialDb
after_payment = record after_sale {
  payments = first_payment ∷ [];
  receivables = record first_receivable { status = "partially_settled" } ∷ [];
}

payment_succeeds : create_payment after_sale 4 5 1 instalment 52 ≡ ok (first_payment, after_payment)
unfolding user_has_permission role_permission_grants grants_of_attribution applicable_grants is_live
    not_expired has_code grant_covers role_grant_covers scope_covers select any
    mathlib.Core.List.flat_map find create_payment check_org_scope get_commercial_account_or_404
    converted total_paid settled_status
payment_succeeds = refl

-- One row has one key.
one_row : (row : Receivable) (r s : Receivable) → In r (row ∷ []) → In s (row ∷ []) → r ≡ s
one_row row r s m n = elim m [
  | inl e ↦ elim n [ inl f ↦ e ∙ sym f | inr k ↦ absurd k ]
  | inr k ↦ absurd k
]

one_account : (a b : CommercialAccount) → In a (customer ∷ []) → In b (customer ∷ []) → a ≡ b
one_account a b m n = elim m [
  | inl e ↦ elim n [ inl f ↦ e ∙ sym f | inr k ↦ absurd k ]
  | inr k ↦ absurd k
]

after_sale-IsSettled : IsSettled after_sale
unfolding standing total_paid select
after_sale-IsSettled r m = elim m [ inl e ↦ rw e refl | inr k ↦ absurd k ]

create_payment-IsSettled_example : IsSettled after_payment
create_payment-IsSettled_example =
    create_payment-IsSettled after_sale 4 5 1 instalment 52 first_payment after_payment
      (λ r s m n e. one_row first_receivable r s m n) after_sale-IsSettled payment_succeeds

forecourt-IsSound : IsSound forecourt
unfolding outstanding select
forecourt-IsSound = record {
  keys = λ r s m n e. absurd m;
  account_keys = λ a b m n e. one_account a b m n;
  settled = λ r m. absurd m;
  within = λ a m. omega arith;
}

reach-IsSound_example : IsSound after_payment
reach-IsSound_example =
    reach-IsSound forecourt after_payment
      (next
        (next here (
          sold 3 5 1 fuel_on_credit 50 51 first_sale (omega arith)
            ((λ r m. absurd m), (λ p m. absurd m)) sale_succeeds))
        (paid 4 5 1 instalment 52 first_payment payment_succeeds))
      forecourt-IsSound

create_sale-exceeded_example :
    (create_sale after_sale 4 5 1 fuel_on_credit 54 55 ≡ err credit_limit_exceeded) ↔ (
      Reaches after_sale 4 5 1 fuel_on_credit
      × (fuel_on_credit.payment_method ≡ "credit")
      × Exceeds after_sale 5 fuel_on_credit)
create_sale-exceeded_example = create_sale-exceeded after_sale 4 5 1 fuel_on_credit 54 55

-- A second sale is refused.
second_sale_refused : create_sale after_sale 4 5 1 fuel_on_credit 54 55 ≡ err credit_limit_exceeded
unfolding user_has_permission role_permission_grants grants_of_attribution applicable_grants is_live
    not_expired has_code grant_covers role_grant_covers scope_covers select any
    mathlib.Core.List.flat_map find create_sale check_declaration_scope get_station get_fuel_product
    get_commercial_account_or_404 sale_account check_credit outstanding is_outstanding
    scalar_one_or_none
second_sale_refused = refl

-- Three pieces of soap at fifty.
abbrev soap_on_credit : CreateProductSaleTransactionRequest
soap_on_credit = record {
  station_id = 6;
  event_at = 2;
  currency_id = 7;
  payment_method = "credit";
  lines = record { sellable_product_id = 40; quantity = 3; unit_price_amount = 50 } ∷ [];
  commercial_account_id = some 30;
}

-- The same forecourt, its customer's account no longer active.
abbrev closed_account : CommercialDb
closed_account = record forecourt { accounts = record customer { active = false } ∷ [] }

abbrev soap_lines : List ProductSaleLine
soap_lines =
    sale_line 60 (record { sellable_product_id = 40; quantity = 3; unit_price_amount = 50 }) ∷ []

abbrev ticket : ProductSaleTransaction
ticket = new_transaction soap_on_credit 1 soap_lines 60

abbrev after_ticket : CommercialDb
after_ticket = record closed_account {
  transactions = ticket ∷ [];
  sale_lines = soap_lines;
  receivables = shop_receivable customer ticket 61 ∷ [];
  products = record soap { stock_quantity = 6 } ∷ [];
}

ticket_succeeds :
    create_product_sale_transaction closed_account 3 5 1 soap_on_credit 60 61
    ≡ ok (ticket, after_ticket)
unfolding user_has_permission role_permission_grants grants_of_attribution applicable_grants is_live
    not_expired has_code grant_covers role_grant_covers scope_covers select any all
    mathlib.Core.List.flat_map find create_product_sale_transaction check_declaration_scope
    get_commercial_account_or_404 build_lines shop_credit decrement decrement_all
ticket_succeeds = refl

-- An inactive account with a limit of sixty owes a hundred and fifty after it.
outstanding-create_product_sale_transaction_example :
    (a : CommercialAccount) × In a closed_account.accounts
    × (a.organization_id ≡ 5)
    × (some 30 ≡ some a.id)
    × (outstanding after_ticket.receivables a.id
        ≡ outstanding closed_account.receivables a.id + 150)
    × ((limit : ℕ) (active : Bool)
        → create_product_sale_transaction
            (with_terms limit active closed_account)
            3
            5
            1
            soap_on_credit
            60
            61
          ≡ ok (ticket, with_terms limit active after_ticket))
outstanding-create_product_sale_transaction_example =
    outstanding-create_product_sale_transaction closed_account 3 5 1 soap_on_credit 60 61 ticket
      after_ticket refl ticket_succeeds

may_cancel :
    user_has_permission closed_account.rbac 4 1 5 "zyloLiquid.productSale.cancel"
      (some "station")
      (some 6)
    ≡ true
unfolding user_has_permission role_permission_grants grants_of_attribution applicable_grants is_live
    not_expired has_code grant_covers role_grant_covers scope_covers select any
    mathlib.Core.List.flat_map
may_cancel = refl

cancel-create_example :
    (last : CommercialDb) × (cancel_product_sale_transaction after_ticket 4 5 1 60 ≡ ok last)
    × (last.products ≡ soap ∷ [])
    × (last.receivables ≡ shop_receivable customer ticket 61 ∷ [])
cancel-create_example =
    cancel-create closed_account 3 5 1 soap_on_credit 60 61 ticket after_ticket 4 1
      (λ x m. absurd m) (λ l m. absurd m) ticket_succeeds may_cancel

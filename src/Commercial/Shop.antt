-- ===== src/Commercial/Shop.antt =====
-- The shop: the sale of products on a ticket, its stock and its cancellation
-- (`create_product_sale_transaction`, `cancel_product_sale_transaction`). The rounding of a line's
-- total to the column's four decimals is left out.
pub mod Stock
pub mod Tickets
pub mod Cancellation
pub mod Debt
use zylo_office_backend.Prelude.{
  ℕ, ◌+◌, ◌-◌, ◌*◌, String, Bool, true, false, not, ◌&&◌, ◌||◌, Option, none, some, List, [], ◌∷◌,
  ◌++◌, map, ◌==◌, string_eq, nat_eq, is_none, leb, if◌then◌else◌, select, any, all, find, Result,
  ok, err, guard, or_raise, station_not_found, sellable_product_not_found,
  commercial_account_required, insufficient_stock, product_sale_transaction_not_found,
  already_cancelled, integrity_error, ◌>>=◌, ◌>>◌,
}
use zylo_office_backend.Rbac.Roles.{add_audit_event}
use zylo_office_backend.Commercial.Tables.{
  Station, Receivable, CommercialAccount, SellableProduct, ProductSaleTransaction, ProductSaleLine,
  CommercialDb,
}
use zylo_office_backend.Commercial.Sales.{check_declaration_scope, get_commercial_account_or_404}

pub record ProductSaleLineRequest : Type 0 where
  pub sellable_product_id : ℕ
  pub quantity : ℕ
  pub unit_price_amount : ℕ

pub record CreateProductSaleTransactionRequest : Type 0 where
  pub station_id : ℕ
  pub event_at : ℕ
  pub currency_id : ℕ
  pub payment_method : String
  pub lines : List ProductSaleLineRequest
  pub commercial_account_id : Option ℕ

abbrev pub sale_line : ℕ → ProductSaleLineRequest → ProductSaleLine
sale_line transaction_id l = record {
  transaction_id = transaction_id;
  sellable_product_id = l.sellable_product_id;
  quantity = l.quantity;
  unit_price_amount = l.unit_price_amount;
  line_total_amount = l.quantity * l.unit_price_amount;
}

abbrev pub total_of : List ProductSaleLine → ℕ
total_of [] = 0
total_of (l ∷ ls) = l.line_total_amount + total_of ls

-- The loop over the ticket: every product is one of the organisation.
unfoldable pub build_lines :
    CommercialDb → ℕ → ℕ → List ProductSaleLineRequest → Result (List ProductSaleLine)
build_lines db organization_id transaction_id [] = ok []
build_lines db organization_id transaction_id (l ∷ ls) = do
  product ←
      or_raise (find (λ (p : SellableProduct). p.id == l.sellable_product_id) db.products)
        sellable_product_not_found
  guard (product.organization_id == organization_id) sellable_product_not_found
  rest ← build_lines db organization_id transaction_id ls
  ok (sale_line transaction_id l ∷ rest)

-- `stockQuantity - quantity`, under the constraint that no stock is negative.
unfoldable pub decrement : ProductSaleLine → List SellableProduct → Result (List SellableProduct)
decrement l products = do
  guard
      (all
        (λ (p : SellableProduct).
          not (p.id == l.sellable_product_id) || leb l.quantity p.stock_quantity)
        products)
      insufficient_stock
  ok (
      map
        (λ (p : SellableProduct).
          if p.id == l.sellable_product_id
          then record p { stock_quantity = p.stock_quantity - l.quantity }
          else p)
        products)

unfoldable pub decrement_all :
    List ProductSaleLine → List SellableProduct → Result (List SellableProduct)
decrement_all [] products = ok products
decrement_all (l ∷ ls) products = decrement l products >>= decrement_all ls

-- `stockQuantity + quantity`
abbrev pub restored : ProductSaleLine → SellableProduct → SellableProduct
restored l p =
    if p.id == l.sellable_product_id
    then record p { stock_quantity = p.stock_quantity + l.quantity }
    else p

unfoldable pub increment_all : List ProductSaleLine → List SellableProduct → List SellableProduct
increment_all [] products = products
increment_all (l ∷ ls) products = increment_all ls (map (restored l) products)

-- The values that the table of transactions accepts.
abbrev pub transaction_payment_methods : List String
transaction_payment_methods =
    "cash" ∷ "card" ∷ "orange_money" ∷ "mtn_momo" ∷ "bank_transfer" ∷ "cheque" ∷ "credit" ∷ "other"
    ∷ []

abbrev pub shop_receivable : CommercialAccount → ProductSaleTransaction → ℕ → Receivable
shop_receivable account t fresh = record {
  id = fresh;
  commercial_account_id = account.id;
  sale_id = none;
  product_sale_transaction_id = some t.id;
  amount = t.total_amount;
  currency_id = t.currency_id;
  status = "open";
}

-- The receivable of a ticket on credit.
unfoldable pub shop_credit :
    CommercialDb → ℕ → ProductSaleTransaction → ℕ → Result (List Receivable)
shop_credit db organization_id t fresh =
    if t.payment_method == "credit"
    then (do
      account_id ← or_raise t.commercial_account_id commercial_account_required
      account ← get_commercial_account_or_404 db organization_id account_id
      ok (shop_receivable account t fresh ∷ []))
    else ok []

abbrev pub new_transaction :
    CreateProductSaleTransactionRequest → ℕ → List ProductSaleLine → ℕ → ProductSaleTransaction
new_transaction req actor_user_id lines fresh = record {
  id = fresh;
  station_id = req.station_id;
  author_user_id = actor_user_id;
  event_at = req.event_at;
  currency_id = req.currency_id;
  payment_method = req.payment_method;
  total_amount = total_of lines;
  status = "completed";
  commercial_account_id = req.commercial_account_id;
  cancelled_at = none;
  cancelled_by_user_id = none;
}

unfoldable pub create_product_sale_transaction :
    CommercialDb
    → ℕ
    → ℕ
    → ℕ
    → CreateProductSaleTransactionRequest
    → ℕ
    → ℕ
    → Result (ProductSaleTransaction × CommercialDb)
unfolding build_lines shop_credit decrement_all
create_product_sale_transaction db now organization_id actor_user_id req fresh fresh_receivable = do
  station ← or_raise (find (λ (s : Station). s.id == req.station_id) db.stations) station_not_found
  guard (station.organization_id == organization_id) station_not_found
  check_declaration_scope db now organization_id actor_user_id station
      "zyloLiquid.productSale.create"
  lines ← build_lines db organization_id fresh req.lines
  guard (not (req.payment_method == "credit" && is_none req.commercial_account_id))
      commercial_account_required
  guard (any (λ (m : String). m == req.payment_method) transaction_payment_methods) integrity_error
  let t = new_transaction req actor_user_id lines fresh
  receivables ← shop_credit db organization_id t fresh_receivable
  products ← decrement_all lines db.products
  ok (
    t,
    record db {
      transactions = db.transactions ++ t ∷ [];
      sale_lines = db.sale_lines ++ lines;
      receivables = db.receivables ++ receivables;
      products = products;
    },
  )

abbrev pub cancelled : ℕ → ℕ → ProductSaleTransaction → ProductSaleTransaction
cancelled now actor_user_id t = record t {
  status = "cancelled";
  cancelled_at = some now;
  cancelled_by_user_id = some actor_user_id;
}

-- The rows of a cancellation: the ticket, the stock of its lines, the audit trail.
unfoldable pub with_cancelled : CommercialDb → ℕ → ℕ → ℕ → ProductSaleTransaction → CommercialDb
unfolding increment_all
with_cancelled db now organization_id actor_user_id t = record db {
  transactions =
      map
        (λ (x : ProductSaleTransaction). if x.id == t.id then cancelled now actor_user_id x else x)
        db.transactions;
  products =
      increment_all (select (λ (l : ProductSaleLine). l.transaction_id == t.id) db.sale_lines)
        db.products;
  rbac =
      add_audit_event db.rbac organization_id actor_user_id
        "zyloLiquid.productSaleTransaction.cancel" "ProductSaleTransaction" (some t.id) none none
        none;
}

-- The station of a stored transaction exists, by its foreign key: where it does not the code fails.
unfoldable pub cancel_product_sale_transaction : CommercialDb → ℕ → ℕ → ℕ → ℕ → Result CommercialDb
unfolding with_cancelled
cancel_product_sale_transaction db now organization_id actor_user_id transaction_id = do
  t ←
      or_raise (find (λ (x : ProductSaleTransaction). x.id == transaction_id) db.transactions)
        product_sale_transaction_not_found
  station ← or_raise (find (λ (s : Station). s.id == t.station_id) db.stations) integrity_error
  check_declaration_scope db now organization_id actor_user_id station
      "zyloLiquid.productSale.cancel"
  guard (not (t.status == "cancelled")) already_cancelled
  ok (with_cancelled db now organization_id actor_user_id t)

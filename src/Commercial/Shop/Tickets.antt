-- ===== src/Commercial/Shop/Tickets.antt =====
-- What a ticket of the shop adds (`create_product_sale_transaction`).
use zylo_office_backend.Prelude.{
  true, ℕ, String, not, ◌&&◌, ◌≡◌, refl, sym, ap, ◌∙◌, inl, inr, some, List, [], ◌∷◌, ◌++◌, ◌==◌,
  nat_eq, string_eq, is_none, select, any, find, ok, or_raise, In, beq_true, ne_false,
  guard->>-eq-ok, >>=-eq-ok, ok-injective, ok-pair, or_raise-eq-ok, select-append,
  station_not_found, commercial_account_required, integrity_error, sellable_product_not_found,
}
use zylo_office_backend.Commercial.Tables.{
  Station, SellableProduct, ProductSaleLine, ProductSaleTransaction, Receivable, CommercialDb,
}
use zylo_office_backend.Commercial.Sales.{check_declaration_scope}
use zylo_office_backend.Commercial.Shop.{
  ProductSaleLineRequest, CreateProductSaleTransactionRequest, sale_line, build_lines,
  decrement_all, shop_credit, new_transaction, transaction_payment_methods,
  create_product_sale_transaction,
}

-- The lines of a ticket carry its id.
build_lines-own :
    (db : CommercialDb) (organization_id transaction_id : ℕ)
    (requests : List ProductSaleLineRequest) (ls : List ProductSaleLine)
    → build_lines db organization_id transaction_id requests ≡ ok ls
    → select (λ (l : ProductSaleLine). l.transaction_id == transaction_id) ls ≡ ls
unfolding build_lines select
build_lines-own db organization_id i [] ls h = rw (← ok-injective [] ls h) refl
build_lines-own db organization_id i (q ∷ qs) ls h =
    let (product, found, h1) =
      >>=-eq-ok
        (or_raise (find (λ (p : SellableProduct). p.id == q.sellable_product_id) db.products)
          sellable_product_not_found)
        _ h in
    let (ours, h2) =
      guard->>-eq-ok (product.organization_id == organization_id) sellable_product_not_found _ h1 in
    let (rest, built, h3) = >>=-eq-ok (build_lines db organization_id i qs) _ h2 in
    let own = build_lines-own db organization_id i qs rest built in
    rw (← ok-injective (sale_line i q ∷ rest) ls h3, beq_true i i refl, own) refl

-- No line of another ticket is one of this.
pub select-others :
    (i : ℕ) (ls : List ProductSaleLine)
    → ((l : ProductSaleLine) → In l ls → ¬ (l.transaction_id ≡ i))
    → select (λ (l : ProductSaleLine). l.transaction_id == i) ls ≡ []
unfolding select
select-others i [] h = refl
select-others i (l ∷ ls) h =
    rw (ne_false l.transaction_id i (h l (inl refl))) (select-others i ls (λ k m. h k (inr m)))

-- What a ticket that was accepted changed.
pub record TicketParts (db : CommercialDb) (now organization_id actor_user_id : ℕ)
    (req : CreateProductSaleTransactionRequest) (fresh fresh_receivable : ℕ)
    (t : ProductSaleTransaction) (db' : CommercialDb) : Type 0 where
  pub station : Station
  pub station_found : find (λ (s : Station). s.id == req.station_id) db.stations ≡ some station
  pub ours : (station.organization_id == organization_id) ≡ true
  pub allowed :
      check_declaration_scope db now organization_id actor_user_id station
        "zyloLiquid.productSale.create"
      ≡ ok tt
  pub named : not (req.payment_method == "credit" && is_none req.commercial_account_id) ≡ true
  pub method : any (λ (m : String). m == req.payment_method) transaction_payment_methods ≡ true
  pub lines : List ProductSaleLine
  pub built : build_lines db organization_id fresh req.lines ≡ ok lines
  pub ticket : t ≡ new_transaction req actor_user_id lines fresh
  pub receivables : List Receivable
  pub credited :
      shop_credit db organization_id
        (new_transaction req actor_user_id lines fresh)
        fresh_receivable
      ≡ ok receivables
  pub products : List SellableProduct
  pub stocked : decrement_all lines db.products ≡ ok products
  pub stored : db' ≡ record db {
    transactions = db.transactions ++ new_transaction req actor_user_id lines fresh ∷ [];
    sale_lines = db.sale_lines ++ lines;
    receivables = db.receivables ++ receivables;
    products = products;
  }

pub create_product_sale_transaction-parts :
    (db : CommercialDb) (now organization_id actor_user_id : ℕ)
    (req : CreateProductSaleTransactionRequest) (fresh fresh_receivable : ℕ)
    (t : ProductSaleTransaction) (db' : CommercialDb)
    → create_product_sale_transaction db now organization_id actor_user_id req fresh
        fresh_receivable
      ≡ ok (t, db')
    → TicketParts db now organization_id actor_user_id req fresh fresh_receivable t db'
unfolding create_product_sale_transaction
create_product_sale_transaction-parts db now organization_id actor_user_id req fresh
      fresh_receivable t db' h =
    let (station, found, h1) =
      >>=-eq-ok
        (or_raise (find (λ (s : Station). s.id == req.station_id) db.stations) station_not_found) _
        h in
    let (ours, h2) =
      guard->>-eq-ok (station.organization_id == organization_id) station_not_found _ h1 in
    let (u, scope, h3) =
      >>=-eq-ok
        (check_declaration_scope db now organization_id actor_user_id station
          "zyloLiquid.productSale.create")
        _ h2 in
    let (lines, built, h4) = >>=-eq-ok (build_lines db organization_id fresh req.lines) _ h3 in
    let (named, h5) =
      guard->>-eq-ok (not (req.payment_method == "credit" && is_none req.commercial_account_id))
        commercial_account_required _ h4 in
    let (method, h6) =
      guard->>-eq-ok (any (λ (m : String). m == req.payment_method) transaction_payment_methods)
        integrity_error _ h5 in
    let row = new_transaction req actor_user_id lines fresh in
    let (receivables, credited, h7) =
      >>=-eq-ok (shop_credit db organization_id row fresh_receivable) _ h6 in
    let (products, stocked, h8) = >>=-eq-ok (decrement_all lines db.products) _ h7 in
    let (t_eq, db_eq) = ok-pair row t _ db' h8 in
    record {
      station = station;
      station_found = or_raise-eq-ok _ station_not_found found;
      ours = ours;
      allowed = scope;
      named = named;
      method = method;
      lines = lines;
      built = built;
      ticket = sym t_eq;
      receivables = receivables;
      credited = credited;
      products = products;
      stocked = stocked;
      stored = sym db_eq;
    }

-- The stored lines of a new ticket are its own.
pub lines_of_ticket :
    (db : CommercialDb) (organization_id fresh : ℕ) (requests : List ProductSaleLineRequest)
    (ls : List ProductSaleLine)
    → ((l : ProductSaleLine) → In l db.sale_lines → ¬ (l.transaction_id ≡ fresh))
    → build_lines db organization_id fresh requests ≡ ok ls
    → select (λ (l : ProductSaleLine). l.transaction_id == fresh) (db.sale_lines ++ ls) ≡ ls
lines_of_ticket db organization_id fresh requests ls new built =
    select-append (λ (l : ProductSaleLine). l.transaction_id == fresh) db.sale_lines ls
    ∙ ap
        (λ (xs : List ProductSaleLine).
          xs ++ select (λ (l : ProductSaleLine). l.transaction_id == fresh) ls)
        (select-others fresh db.sale_lines new)
    ∙ build_lines-own db organization_id fresh requests ls built

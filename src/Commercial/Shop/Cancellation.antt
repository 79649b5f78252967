-- ===== src/Commercial/Shop/Cancellation.antt =====
-- A ticket and its cancellation (`create_product_sale_transaction`, `cancel_product_sale_transaction`).
use zylo_office_backend.Prelude.{
  ℕ, true, false, ◌≡◌, refl, ap, ◌∙◌, inl, inr, some, List, [], ◌∷◌, ◌++◌, ◌==◌, nat_eq, string_eq,
  find, ok, In, beq_true, ne_false, find-some, beq_sound,
}
use zylo_office_backend.Rbac.Resolution.{user_has_permission}
use zylo_office_backend.Commercial.Tables.{
  Station, ProductSaleLine, ProductSaleTransaction, CommercialDb,
}
use zylo_office_backend.Commercial.Sales.{check_declaration_scope}
use zylo_office_backend.Commercial.Shop.{
  CreateProductSaleTransactionRequest, new_transaction, create_product_sale_transaction,
  increment_all, with_cancelled, cancel_product_sale_transaction,
}
use zylo_office_backend.Commercial.Shop.Tickets.{
  create_product_sale_transaction-parts, lines_of_ticket,
}
use zylo_office_backend.Commercial.Shop.Stock.{increment_all-decrement_all}

-- A row with a new id is found by it.
find-new :
    (t : ProductSaleTransaction) (rows : List ProductSaleTransaction)
    → ((x : ProductSaleTransaction) → In x rows → ¬ (x.id ≡ t.id))
    → find (λ (x : ProductSaleTransaction). x.id == t.id) (rows ++ t ∷ []) ≡ some t
unfolding find
find-new t [] h = rw (beq_true t.id t.id refl) refl
find-new t (x ∷ xs) h =
    rw (ne_false x.id t.id (h x (inl refl))) (find-new t xs (λ y m. h y (inr m)))

-- The cancellation of a row that is found, at a station that is, by a user who may.
cancel_product_sale_transaction-ok :
    (db : CommercialDb) (now organization_id actor_user_id : ℕ) (t : ProductSaleTransaction)
    (station : Station)
    → find (λ (x : ProductSaleTransaction). x.id == t.id) db.transactions ≡ some t
    → find (λ (s : Station). s.id == t.station_id) db.stations ≡ some station
    → user_has_permission db.rbac now actor_user_id organization_id "zyloLiquid.productSale.cancel"
        (some "station")
        (some station.id)
      ≡ true
    → (t.status == "cancelled") ≡ false
    → cancel_product_sale_transaction db now organization_id actor_user_id t.id
      ≡ ok (with_cancelled db now organization_id actor_user_id t)
unfolding cancel_product_sale_transaction check_declaration_scope
cancel_product_sale_transaction-ok db now organization_id actor_user_id t station found at allowed
      fresh_status =
    rw (found, at, allowed, fresh_status) refl

-- A ticket that was just accepted can be cancelled by a user who may cancel at its station, and
-- then every product has the stock it had before, for a ticket whose id is new. The receivables
-- are those that the ticket left.
pub cancel-create :
    (db : CommercialDb) (now organization_id actor_user_id : ℕ)
    (req : CreateProductSaleTransactionRequest) (fresh fresh_receivable : ℕ)
    (t : ProductSaleTransaction) (db' : CommercialDb) (later canceller : ℕ)
    → ((x : ProductSaleTransaction) → In x db.transactions → ¬ (x.id ≡ fresh))
    → ((l : ProductSaleLine) → In l db.sale_lines → ¬ (l.transaction_id ≡ fresh))
    → create_product_sale_transaction db now organization_id actor_user_id req fresh
        fresh_receivable
      ≡ ok (t, db')
    → user_has_permission db.rbac later canceller organization_id "zyloLiquid.productSale.cancel"
        (some "station")
        (some req.station_id)
      ≡ true
    → (last : CommercialDb) × (cancel_product_sale_transaction db' later organization_id canceller
          t.id
        ≡ ok last)
      × (last.products ≡ db.products)
      × (last.receivables ≡ db'.receivables)
unfolding with_cancelled
cancel-create db now organization_id actor_user_id req fresh fresh_receivable t db' later canceller
      new_row new_lines done allowed =
    let parts =
      create_product_sale_transaction-parts db now organization_id actor_user_id req fresh
        fresh_receivable t db' done in
    let row = new_transaction req actor_user_id parts.lines fresh in
    let mid : CommercialDb = record db {
      transactions = db.transactions ++ row ∷ [];
      sale_lines = db.sale_lines ++ parts.lines;
      receivables = db.receivables ++ parts.receivables;
      products = parts.products;
    } in
    let same : parts.station.id ≡ req.station_id = beq_sound parts.station.id req.station_id (
      find-some (λ (s : Station). s.id == req.station_id) db.stations parts.station
        parts.station_found) in
    let runs =
      cancel_product_sale_transaction-ok mid later organization_id canceller row parts.station
        (find-new row db.transactions new_row) parts.station_found (rw same allowed) refl in
    (
      with_cancelled mid later organization_id canceller row,
      rw (parts.ticket, parts.stored) runs,
      ap (λ (ls : List ProductSaleLine). increment_all ls parts.products)
            (lines_of_ticket db organization_id fresh req.lines parts.lines new_lines parts.built)
          ∙ increment_all-decrement_all parts.lines db.products parts.products parts.stocked,
      rw parts.stored refl,
    )

-- ===== src/Commercial/Sales/Credit.antt =====
-- What a sale on credit checks and opens (`create_sale`).
use zylo_office_backend.Prelude.{
  ℕ, inl, inr, ◌+◌, ◌≤◌, true, ◌≡◌, sym, Option, none, some, List, [], ◌∷◌, ◌++◌, ◌==◌, string_eq,
  nat_eq, is_none, leb, select, any, find, ok, In, Bool-cases, arith, leb→le, select-append,
  >>=-eq-ok, guard->>-eq-ok, or_raise, or_raise-eq-ok, find-in, find-some, ok-pair, ok-injective,
  beq_sound, subst, commercial_account_required, commercial_account_not_found, currency_not_found,
  commercial_account_not_applicable, vehicle_not_found, driver_not_found,
}
use zylo_office_backend.Commercial.Tables.{Sale, Receivable, CommercialAccount, CommercialDb}
use zylo_office_backend.Commercial.Sales.{
  get_station, check_declaration_scope, get_fuel_product, get_commercial_account_or_404,
  is_outstanding, sum_amounts, outstanding, CreateSaleRequest, sale_amount, check_credit,
  sale_account, refers, check_pump, opened, create_sale,
}

pub sum_amounts-append :
    (rs ss : List Receivable) → sum_amounts (rs ++ ss) ≡ sum_amounts rs + sum_amounts ss
sum_amounts-append [] ss = omega arith
sum_amounts-append (r ∷ rs) ss = ground (arith, sum_amounts-append rs ss)

pub outstanding-append :
    (rs ss : List Receivable) (i : ℕ)
    → outstanding (rs ++ ss) i ≡ outstanding rs i + outstanding ss i
unfolding outstanding
outstanding-append rs ss i =
    rw (select-append (is_outstanding i) rs ss)
      (sum_amounts-append (select (is_outstanding i) rs) (select (is_outstanding i) ss))

pub get_commercial_account_or_404_lem :
    (db : CommercialDb) (organization_id i : ℕ) (a : CommercialAccount)
    → get_commercial_account_or_404 db organization_id i ≡ ok a
    → In a db.accounts × (a.id ≡ i) × (a.organization_id ≡ organization_id)
unfolding get_commercial_account_or_404
get_commercial_account_or_404_lem db organization_id i a h =
    let (b, found, h1) =
      >>=-eq-ok
        (or_raise (find (λ (x : CommercialAccount). x.id == i) db.accounts)
          commercial_account_not_found)
        _ h in
    let (ours, h2) = guard->>-eq-ok (b.organization_id == organization_id) _ _ h1 in
    let b_eq = ok-injective b a h2 in
    let is_b = or_raise-eq-ok _ commercial_account_not_found found in
    subst
      (λ (x : CommercialAccount).
        In x db.accounts × (x.id ≡ i) × (x.organization_id ≡ organization_id))
      b_eq
      (
        find-in _ db.accounts is_b,
        beq_sound b.id i (find-some (λ (x : CommercialAccount). x.id == i) db.accounts b is_b),
        beq_sound b.organization_id organization_id ours,
      )

-- An account that passes is active, and has room for the sale.
pub check_credit_lem :
    (db : CommercialDb) (organization_id : ℕ) (req : CreateSaleRequest) (a : CommercialAccount)
    → check_credit db organization_id req ≡ ok a
    → In a db.accounts
      × (req.commercial_account_id ≡ some a.id)
      × (a.organization_id ≡ organization_id)
      × (a.active ≡ true)
      × (outstanding db.receivables a.id + sale_amount req ≤ a.credit_limit)
unfolding check_credit
check_credit_lem db organization_id req a h =
    let (i, named, h1) =
      >>=-eq-ok (or_raise req.commercial_account_id commercial_account_required) _ h in
    let (b, found, h2) = >>=-eq-ok (get_commercial_account_or_404 db organization_id i) _ h1 in
    let (is_active, h3) = guard->>-eq-ok b.active _ _ h2 in
    let (room, h4) =
      guard->>-eq-ok (leb (outstanding db.receivables b.id + sale_amount req) b.credit_limit) _ _
        h3 in
    let b_eq = ok-injective b a h4 in
    let (row, same, ours) = get_commercial_account_or_404_lem db organization_id i b found in
    let is_i = or_raise-eq-ok _ commercial_account_required named in
    subst
      (λ (x : CommercialAccount).
        In x db.accounts
        × (req.commercial_account_id ≡ some x.id)
        × (x.organization_id ≡ organization_id)
        × (x.active ≡ true)
        × (outstanding db.receivables x.id + sale_amount req ≤ x.credit_limit))
      b_eq (row, rw same is_i, ours, is_active, leb→le _ _ room)

pub sale_account_lem :
    (db : CommercialDb) (organization_id : ℕ) (req : CreateSaleRequest) (a : CommercialAccount)
    → sale_account db organization_id req ≡ ok (some a)
    → check_credit db organization_id req ≡ ok a
unfolding sale_account
sale_account_lem db organization_id req a h = elim (Bool-cases (req.payment_method == "credit")) [
  | inl e ↦
      let (b, found, h1) = >>=-eq-ok (check_credit db organization_id req) _ (rw e at h) in
      let same : b ≡ a = ground arith in
      subst (λ (x : CommercialAccount). check_credit db organization_id req ≡ ok x) same found
  | inr e ↦
      let (names_none, h1) =
        guard->>-eq-ok (is_none req.commercial_account_id) commercial_account_not_applicable
          (ok none) (rw e at h) in
      cc
]

-- What a sale that was accepted changed.
pub create_sale-parts :
    (db : CommercialDb) (now organization_id actor_user_id : ℕ) (req : CreateSaleRequest)
    (fresh_sale fresh : ℕ) (s : Sale) (db' : CommercialDb)
    → create_sale db now organization_id actor_user_id req fresh_sale fresh ≡ ok (s, db')
    → (account : Option CommercialAccount) × (sale_account db organization_id req ≡ ok account)
      × (db' ≡ record db {
        sales = db.sales ++ s ∷ [];
        receivables = db.receivables ++ opened account req fresh_sale fresh;
      })
unfolding create_sale
create_sale-parts db now organization_id actor_user_id req fresh_sale fresh s db' h =
    let (station, has_station, h1) =
      >>=-eq-ok (get_station db organization_id req.station_id) _ h in
    let (u, scope, h2) =
      >>=-eq-ok
        (check_declaration_scope db now organization_id actor_user_id station
          "zyloLiquid.sale.create")
        _ h1 in
    let (product, has_product, h3) =
      >>=-eq-ok (get_fuel_product db organization_id req.fuel_product_id) _ h2 in
    let (known, h4) =
      guard->>-eq-ok (any (λ (c : ℕ). c == req.currency_id) db.currencies) currency_not_found _
        h3 in
    let (account, has_account, h5) = >>=-eq-ok (sale_account db organization_id req) _ h4 in
    let (vehicle, h6) = guard->>-eq-ok (refers db.vehicles req.vehicle_id) vehicle_not_found _ h5 in
    let (driver, h7) = guard->>-eq-ok (refers db.drivers req.driver_id) driver_not_found _ h6 in
    let (v, pump, h8) = >>=-eq-ok (check_pump db station.id req.pump_id) _ h7 in
    let (s_eq, db_eq) = ok-pair _ s _ db' h8 in
    (
      account,
      has_account,
      subst
          (λ q. db' ≡ record db {
            sales = db.sales ++ q ∷ [];
            receivables = db.receivables ++ opened account req fresh_sale fresh;
          })
          s_eq (sym db_eq),
    )

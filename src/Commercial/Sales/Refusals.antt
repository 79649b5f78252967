-- ===== src/Commercial/Sales/Refusals.antt =====
-- When `create_sale` refuses a sale for the credit limit.
use zylo_office_backend.Prelude.{
  ℕ, ◌+◌, ◌<◌, Bool, true, false, ◌≡◌, ◌↔◌, refl, inl, inr, Bool-cases, Option, none, some, ◌==◌,
  string_eq, nat_eq, is_none, leb, any, find, ok, err, guard, or_raise, scalar_one_or_none, arith,
  beq_true, beq_sound, >>=-eq-err, guard->>-eq-err, or_raise-eq-err, scalar_one_or_none-eq-err,
  or_raise-eq-ok, permission_denied, station_not_found, fuel_product_not_found, currency_not_found,
  commercial_account_required, commercial_account_not_applicable, commercial_account_not_found,
  commercial_account_inactive, credit_limit_exceeded, vehicle_not_found, driver_not_found,
  pump_not_found, ◌>>◌,
}
use zylo_office_backend.Rbac.Resolution.{user_has_permission}
use zylo_office_backend.Commercial.Tables.{
  Station, FuelProduct, Pump, CommercialAccount, CommercialDb,
}
use zylo_office_backend.Commercial.Sales.{
  get_station, check_declaration_scope, get_fuel_product, get_commercial_account_or_404,
  outstanding, CreateSaleRequest, sale_amount, check_credit, sale_account, refers, check_pump,
  create_sale,
}

get_station-other :
    (db : CommercialDb) (organization_id i : ℕ)
    → ¬ (get_station db organization_id i ≡ err credit_limit_exceeded)
unfolding get_station
get_station-other db organization_id i h = elim (>>=-eq-err (scalar_one_or_none _) _ h) [
  | inl e ↦ (let x = scalar_one_or_none-eq-err _ e in cc)
  | inr (o, found, e) ↦ (let x = or_raise-eq-err o station_not_found e in cc)
]

get_fuel_product-other :
    (db : CommercialDb) (organization_id i : ℕ)
    → ¬ (get_fuel_product db organization_id i ≡ err credit_limit_exceeded)
unfolding get_fuel_product
get_fuel_product-other db organization_id i h = elim (>>=-eq-err (scalar_one_or_none _) _ h) [
  | inl e ↦ (let x = scalar_one_or_none-eq-err _ e in cc)
  | inr (o, found, e) ↦ (let x = or_raise-eq-err o fuel_product_not_found e in cc)
]

get_account-other :
    (db : CommercialDb) (organization_id i : ℕ)
    → ¬ (get_commercial_account_or_404 db organization_id i ≡ err credit_limit_exceeded)
unfolding get_commercial_account_or_404
get_account-other db organization_id i h =
    elim (>>=-eq-err
      (or_raise (find (λ (a : CommercialAccount). a.id == i) db.accounts)
        commercial_account_not_found)
      _ h) [
        | inl e ↦ (let x = or_raise-eq-err _ commercial_account_not_found e in cc)
        | inr (a, found, e) ↦
            elim (guard->>-eq-err (a.organization_id == organization_id)
              commercial_account_not_found (ok a) e) [ inl (f, x) ↦ cc | inr (f, x) ↦ cc ]
      ]

check_pump-other :
    (db : CommercialDb) (station_id : ℕ) (o : Option ℕ)
    → ¬ (check_pump db station_id o ≡ err credit_limit_exceeded)
unfolding check_pump
check_pump-other db station_id none h = cc
check_pump-other db station_id (some i) h =
    elim (>>=-eq-err (or_raise (find (λ (p : Pump). p.id == i) db.pumps) pump_not_found) _ h) [
      | inl e ↦ (let x = or_raise-eq-err _ pump_not_found e in cc)
      | inr (p, found, e) ↦ elim (Bool-cases (p.station_id == station_id)) [
        | inl f ↦ (let x = rw f at e in cc)
        | inr f ↦ (let x = rw f at e in cc)
      ]
    ]

-- The request names an active account of the organisation which the sale would take over its limit.
pub record Exceeds (db : CommercialDb) (organization_id : ℕ) (req : CreateSaleRequest)
    : Type 0 where
  pub account_id : ℕ
  pub named : req.commercial_account_id ≡ some account_id
  pub account : CommercialAccount
  pub found : get_commercial_account_or_404 db organization_id account_id ≡ ok account
  pub active : account.active ≡ true
  pub over : account.credit_limit < outstanding db.receivables account.id + sale_amount req

-- The request passes every check that comes before that of the credit.
pub record Reaches (db : CommercialDb) (now organization_id actor_user_id : ℕ)
    (req : CreateSaleRequest) : Type 0 where
  pub station : Station
  pub at_station : get_station db organization_id req.station_id ≡ ok station
  pub allowed :
      user_has_permission db.rbac now actor_user_id organization_id "zyloLiquid.sale.create"
        (some "station")
        (some station.id)
      ≡ true
  pub product : FuelProduct
  pub of_product : get_fuel_product db organization_id req.fuel_product_id ≡ ok product
  pub currency : any (λ (c : ℕ). c == req.currency_id) db.currencies ≡ true

check_credit-Exceeds :
    (db : CommercialDb) (organization_id : ℕ) (req : CreateSaleRequest)
    → check_credit db organization_id req ≡ err credit_limit_exceeded
    → Exceeds db organization_id req
unfolding check_credit
check_credit-Exceeds db organization_id req h =
    elim (>>=-eq-err (or_raise req.commercial_account_id commercial_account_required) _ h) [
      | inl e ↦ absurd (let x = or_raise-eq-err _ commercial_account_required e in cc)
      | inr (i, named, h1) ↦
          elim (>>=-eq-err (get_commercial_account_or_404 db organization_id i) _ h1) [
            | inl e ↦ absurd (get_account-other db organization_id i e)
            | inr (a, found, h2) ↦
                elim (guard->>-eq-err a.active commercial_account_inactive _ h2) [
                  | inl (f, x) ↦ absurd (let y = x in cc)
                  | inr (is_active, h3) ↦
                      let (over, _) =
                        over_limit
                          (leb (outstanding db.receivables a.id + sale_amount req) a.credit_limit) a
                          h3 in
                      record {
                        account_id = i;
                        named = or_raise-eq-ok _ commercial_account_required named;
                        account = a;
                        found = found;
                        active = is_active;
                        over = ground (arith, over);
                      }
                ]
          ]
    ]
  where
    over_limit :
        (b : Bool) (a : CommercialAccount)
        → (guard b credit_limit_exceeded >> ok a) ≡ err credit_limit_exceeded
        → (b ≡ false) × (a ≡ a)
    over_limit true a e = cc
    over_limit false a e = (refl, refl)

sale_account-Exceeds :
    (db : CommercialDb) (organization_id : ℕ) (req : CreateSaleRequest)
    → sale_account db organization_id req ≡ err credit_limit_exceeded
    → (req.payment_method ≡ "credit") × Exceeds db organization_id req
unfolding sale_account
sale_account-Exceeds db organization_id req h = elim (Bool-cases (req.payment_method == "credit")) [
  | inl e ↦ (
    beq_sound req.payment_method "credit" e,
    check_credit-Exceeds db organization_id req
        (elim (>>=-eq-err (check_credit db organization_id req) _ (rw e at h)) [
          | inl f ↦ f
          | inr (a, f, x) ↦ absurd (let y = x in cc)
        ]),
  )
  | inr e ↦
      absurd
        (elim (guard->>-eq-err (is_none req.commercial_account_id) commercial_account_not_applicable
          (ok none) (rw e at h)) [ inl (f, x) ↦ cc | inr (f, x) ↦ cc ])
]

module _ (db : CommercialDb) (now organization_id actor_user_id : ℕ) (req : CreateSaleRequest)
    (fresh_sale fresh_receivable : ℕ) where
  -- The checks that come after that of the credit raise other errors.
  later_checks :
      (station : Station) {A : Type 0} (last : A)
      → ¬ (
          (guard (refers db.vehicles req.vehicle_id) vehicle_not_found
            >> (guard (refers db.drivers req.driver_id) driver_not_found
                >> (check_pump db station.id req.pump_id >> ok last)))
          ≡ err credit_limit_exceeded)
  later_checks station last h =
      elim (guard->>-eq-err (refers db.vehicles req.vehicle_id) vehicle_not_found _ h) [
        | inl (f, x) ↦ cc
        | inr (_, h1) ↦
            elim (guard->>-eq-err (refers db.drivers req.driver_id) driver_not_found _ h1) [
              | inl (f, x) ↦ cc
              | inr (_, h2) ↦ elim (>>=-eq-err (check_pump db station.id req.pump_id) _ h2) [
                | inl e ↦ check_pump-other db station.id req.pump_id e
                | inr (u, f, x) ↦ cc
              ]
            ]
      ]

  only_if :
      create_sale db now organization_id actor_user_id req fresh_sale fresh_receivable
        ≡ err credit_limit_exceeded
      → Reaches db now organization_id actor_user_id req
        × (req.payment_method ≡ "credit")
        × Exceeds db organization_id req
  unfolding create_sale check_declaration_scope
  only_if h = elim (>>=-eq-err (get_station db organization_id req.station_id) _ h) [
    | inl e ↦ absurd (get_station-other db organization_id req.station_id e)
    | inr (station, at_station, h1) ↦
        let may =
          user_has_permission db.rbac now actor_user_id organization_id "zyloLiquid.sale.create"
            (some "station") (some station.id) in
        elim (guard->>-eq-err may permission_denied _ h1) [
          | inl (f, x) ↦ absurd (let y = x in cc)
          | inr (allowed, h2) ↦
              elim (>>=-eq-err (get_fuel_product db organization_id req.fuel_product_id) _ h2) [
                | inl e ↦ absurd (get_fuel_product-other db organization_id req.fuel_product_id e)
                | inr (product, of_product, h3) ↦
                    elim (guard->>-eq-err (any (λ (c : ℕ). c == req.currency_id) db.currencies)
                      currency_not_found _ h3) [
                        | inl (f, x) ↦ absurd (let y = x in cc)
                        | inr (currency, h4) ↦
                            elim (>>=-eq-err (sale_account db organization_id req) _ h4) [
                              | inl e ↦
                                  let (on_credit, exceeds) =
                                    sale_account-Exceeds db organization_id req e in
                                  (
                                    record {
                                      station = station;
                                      at_station = at_station;
                                      allowed = allowed;
                                      product = product;
                                      of_product = of_product;
                                      currency = currency;
                                    },
                                    on_credit,
                                    exceeds,
                                  )
                              | inr (account, f, h5) ↦ absurd (later_checks station _ h5)
                            ]
                      ]
              ]
        ]
  ]

  provided :
      Reaches db now organization_id actor_user_id req
      → req.payment_method ≡ "credit"
      → Exceeds db organization_id req
      → create_sale db now organization_id actor_user_id req fresh_sale fresh_receivable
        ≡ err credit_limit_exceeded
  unfolding create_sale check_declaration_scope sale_account check_credit
  provided reaches on_credit exceeds =
      let credit : (req.payment_method == "credit") ≡ true =
        beq_true req.payment_method "credit" on_credit in
      let over : leb (outstanding db.receivables exceeds.account.id + sale_amount req)
            exceeds.account.credit_limit
          ≡ false =
        ground (arith, exceeds.over) in
      rw
        (
          reaches.at_station, reaches.allowed, reaches.of_product, reaches.currency, credit,
          exceeds.named, exceeds.found, exceeds.active, over,
        )
        refl

  -- A sale is refused for the credit limit exactly when it is on credit, its station, its product and
  -- its currency exist and the user may sell there, and its account is an active one of the
  -- organisation that owes more than its limit together with the sale; whatever the vehicle, the
  -- driver and the pump.
  pub create_sale-exceeded :
      (create_sale db now organization_id actor_user_id req fresh_sale fresh_receivable
        ≡ err credit_limit_exceeded)
      ↔ (Reaches db now organization_id actor_user_id req
          × (req.payment_method ≡ "credit")
          × Exceeds db organization_id req)
  create_sale-exceeded =
      (only_if, (λ (reaches, on_credit, exceeds). provided reaches on_credit exceeds))

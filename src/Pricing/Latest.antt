-- ===== src/Pricing/Latest.antt =====
-- The price of a station is the latest that is in force (`_resolve_applicable_price`).
use zylo_office_backend.Prelude.{
  ℕ, ◌≤◌, true, ◌≡◌, refl, sym, inl, inr, Bool-cases, Option-cases, Option, none, some, List, [],
  ◌∷◌, if◌then◌else◌, leb, leb→le, select, in-select, ok, In, arith, subst,
}
use zylo_office_backend.Pricing.Tables.{PriceHistory, PricingDb}
use zylo_office_backend.Pricing.Ordering.{insert_desc, order_desc, limit_one}
use zylo_office_backend.Pricing.Prices.{is_station_price, resolve_applicable_price}

later : PriceHistory → Option PriceHistory → PriceHistory
later p none = p
later p (some q) = if leb q.effective_from p.effective_from then p else q

limit_one-insert_desc :
    (p : PriceHistory) (qs : List PriceHistory)
    → limit_one (insert_desc p qs) ≡ some (later p (limit_one qs))
unfolding later
limit_one-insert_desc p [] = refl
limit_one-insert_desc p (q ∷ qs) = elim (Bool-cases (leb q.effective_from p.effective_from)) [
  | inl e ↦ rw e refl
  | inr e ↦ rw e refl
]

IsLatest : PriceHistory → List PriceHistory → Type 0
IsLatest p ps = In p ps × ((r : PriceHistory) → In r ps → r.effective_from ≤ p.effective_from)

abbrev HasLatest : Option PriceHistory → List PriceHistory → Type 0
HasLatest none ps = (r : PriceHistory) → ¬ In r ps
HasLatest (some p) ps = IsLatest p ps

later-IsLatest :
    (p : PriceHistory) (ps : List PriceHistory) (o : Option PriceHistory)
    → HasLatest o ps
    → IsLatest (later p o) (p ∷ ps)
unfolding later IsLatest
later-IsLatest p ps none h = (
  inl refl,
  (λ r m. elim m [
    | inl e ↦
        subst (λ (x : PriceHistory). x.effective_from ≤ p.effective_from) (sym e) (omega arith)
    | inr k ↦ absurd (h r k)
  ]),
)
later-IsLatest p ps (some q) (q_in, q_max) =
    elim (Bool-cases (leb q.effective_from p.effective_from)) [
      | inl e ↦
          let le = leb→le q.effective_from p.effective_from e in
          rw e (
            inl refl,
            (λ r m. elim m [
              | inl same ↦
                  subst (λ (x : PriceHistory). x.effective_from ≤ p.effective_from) (sym same)
                    (omega arith)
              | inr k ↦ omega (arith, q_max r k, le)
            ]),
          )
      | inr e ↦
          let ge : p.effective_from ≤ q.effective_from = ground arith in
          let stays : later p (some q) ≡ q = rw e refl in
          subst (λ (x : PriceHistory). IsLatest x (p ∷ ps)) (sym stays)
            (
              inr q_in,
              (λ r m. elim m [
                | inl same ↦
                    subst (λ (x : PriceHistory). x.effective_from ≤ q.effective_from) (sym same) ge
                | inr k ↦ q_max r k
              ]),
            )
    ]

-- The first row in order of time is the latest.
limit_one-order_desc : (ps : List PriceHistory) → HasLatest (limit_one (order_desc ps)) ps
limit_one-order_desc [] = λ r m. m
limit_one-order_desc (p ∷ ps) =
    rw (limit_one-insert_desc p (order_desc ps))
      (later-IsLatest p ps (limit_one (order_desc ps)) (limit_one-order_desc ps))

-- If the station has a price for the product that is in force at the time, the one that is returned
-- is a price of the station for the product, in force at the time, and no such price took effect
-- after it; the prices of the network are not considered.
pub resolve_applicable_price_latest :
    (db : PricingDb) (station_id fuel_product_id at : ℕ) (price : PriceHistory)
    → In price db.prices
    → is_station_price station_id fuel_product_id at price ≡ true
    → (latest : PriceHistory) × (resolve_applicable_price db station_id fuel_product_id at
        ≡ ok (some latest, none))
      × In latest db.prices
      × (is_station_price station_id fuel_product_id at latest ≡ true)
      × ((other : PriceHistory)
          → In other db.prices
          → is_station_price station_id fuel_product_id at other ≡ true
          → other.effective_from ≤ latest.effective_from)
unfolding resolve_applicable_price IsLatest
resolve_applicable_price_latest db station_id fuel_product_id at price m applies =
    let test = is_station_price station_id fuel_product_id at in
    let rows = select test db.prices in
    elim (Option-cases (limit_one (order_desc rows))) [
      | inl e ↦
          let absent : HasLatest none rows =
            subst (λ (o : Option PriceHistory). HasLatest o rows) e (limit_one-order_desc rows) in
          absurd (absent price ((in-select test price db.prices).1 (m, applies)))
      | inr (latest, e) ↦
          let (row, max) : IsLatest latest rows =
            subst (λ (o : Option PriceHistory). HasLatest o rows) e (limit_one-order_desc rows) in
          let (stored, applies_to) = (in-select test latest db.prices).0 row in
          (
            latest,
            rw e refl,
            stored,
            applies_to,
            (λ other k own. max other ((in-select test other db.prices).1 (k, own))),
          )
    ]

-- ===== src/Pricing/Rows.antt =====
-- The rows that the batch of prices reads, against those that one pair reads.
use zylo_office_backend.Prelude.{
  ℕ, Bool, true, false, not, ◌&&◌, ◌≡◌, refl, ap, sym, ◌∙◌, inl, inr, Bool-cases, Option, some,
  List, [], ◌∷◌, ◌==◌, nat_eq, option_eq, leb, select, any, find, is_none, In, in-map, arith,
  beq_sound, subst,
}
use zylo_office_backend.Pricing.Tables.{Currency, PriceHistory, PricingDb}
use zylo_office_backend.Pricing.Dictionaries.{contains_key}
use zylo_office_backend.Pricing.Agreement.{contains_in}
use zylo_office_backend.Pricing.Ordering.{
  insert_desc, order_desc, limit_one, select-select, select-same, find-limit_one, select-order_desc,
}
use zylo_office_backend.Pricing.Prices.{
  is_station_price, is_default_price, in_currency, default_price, batch_default, no_price, price_or,
  station_ids_of, product_ids_of, station_in, batch_station_prices, batch_default_prices,
}

is_none-insert_desc :
    (p : PriceHistory) (qs : List PriceHistory) → is_none (limit_one (insert_desc p qs)) ≡ false
is_none-insert_desc p [] = refl
is_none-insert_desc p (q ∷ qs) = elim (Bool-cases (leb q.effective_from p.effective_from)) [
  | inl e ↦ rw e refl
  | inr e ↦ rw e refl
]

-- An ordered selection is empty when no row passes.
any_ordered :
    (t : PriceHistory → Bool) (ps : List PriceHistory)
    → not (is_none (limit_one (order_desc (select t ps)))) ≡ any t ps
unfolding select any
any_ordered t [] = refl
any_ordered t (p ∷ ps) = elim (Bool-cases (t p)) [
  | inl e ↦ rw (e, is_none-insert_desc p (order_desc (select t ps))) refl
  | inr e ↦ rw e (any_ordered t ps)
]

module _ (db : PricingDb) (pairs : List (ℕ × ℕ)) (at station_id fuel_product_id : ℕ)
    (pair_in : In (station_id, fuel_product_id) pairs) where
  pub station_asked : In station_id (station_ids_of pairs)
  station_asked =
      (in-map (λ (i, j). i) station_id pairs).1 ((station_id, fuel_product_id), pair_in, refl)

  product_asked : In fuel_product_id (product_ids_of pairs)
  product_asked =
      (in-map (λ (i, j). j) fuel_product_id pairs).1 ((station_id, fuel_product_id), pair_in, refl)

  product_test :
      (p : PriceHistory)
      → (contains_key p.fuel_product_id (product_ids_of pairs)
          && p.fuel_product_id == fuel_product_id)
        ≡ (p.fuel_product_id == fuel_product_id)
  product_test p = elim (Bool-cases (p.fuel_product_id == fuel_product_id)) [
    | inl e ↦
        let asked = contains_in p.fuel_product_id (product_ids_of pairs) (
          subst (λ (i : ℕ). In i (product_ids_of pairs))
            (sym (beq_sound p.fuel_product_id fuel_product_id e)) product_asked) in
        rw (e, asked) refl
    | inr e ↦ rw e (ground arith)
  ]

  station_test :
      (p : PriceHistory)
      → (station_in (station_ids_of pairs) p.station_id && p.station_id == some station_id)
        ≡ (p.station_id == some station_id)
  station_test p = elim (Bool-cases (p.station_id == some station_id)) [
    | inl e ↦
        let asked : station_in (station_ids_of pairs) p.station_id ≡ true =
          subst (λ (o : Option ℕ). station_in (station_ids_of pairs) o ≡ true)
            (sym (beq_sound p.station_id (some station_id) e))
            (contains_in station_id (station_ids_of pairs) station_asked) in
        rw (e, asked) refl
    | inr e ↦ rw e (ground arith)
  ]

  -- The price of the station.
  pub station_price_lem :
      find
        (λ (p : PriceHistory).
          p.station_id == some station_id && p.fuel_product_id == fuel_product_id)
        (batch_station_prices db pairs at)
      ≡ limit_one (order_desc (select (is_station_price station_id fuel_product_id at) db.prices))
  unfolding batch_station_prices
  station_price_lem =
      let wanted = λ (p : PriceHistory).
        p.station_id == some station_id && p.fuel_product_id == fuel_product_id in
      let asked = λ (p : PriceHistory).
        station_in (station_ids_of pairs) p.station_id
        && (contains_key p.fuel_product_id (product_ids_of pairs) && leb p.effective_from at) in
      find-limit_one wanted (order_desc (select asked db.prices))
      ∙ ap limit_one (select-order_desc wanted (select asked db.prices))
      ∙ ap (λ (ps : List PriceHistory). limit_one (order_desc ps))
          (select-select asked wanted db.prices
            ∙ select-same (λ p. asked p && wanted p)
                (is_station_price station_id fuel_product_id at) db.prices
                (λ p. regroup _ _ _ _ _ (station_test p) (product_test p)))
    where
      regroup :
          (s r q w v : Bool)
          → (s && w) ≡ w
          → (r && v) ≡ v
          → ((s && (r && q)) && (w && v)) ≡ (w && (v && q))
      regroup s r q w v h k = ground arith

  -- The default prices of the product.
  default_rows_lem :
      select
        (λ (p : PriceHistory). p.fuel_product_id == fuel_product_id)
        (batch_default_prices db pairs at)
      ≡ order_desc (select (is_default_price fuel_product_id at) db.prices)
  unfolding batch_default_prices
  default_rows_lem =
      let wanted = λ (p : PriceHistory). p.fuel_product_id == fuel_product_id in
      let asked = λ (p : PriceHistory).
        is_none p.station_id
        && (contains_key p.fuel_product_id (product_ids_of pairs) && leb p.effective_from at) in
      select-order_desc wanted (select asked db.prices)
      ∙ ap order_desc (
          select-select asked wanted db.prices
          ∙ select-same (λ p. asked p && wanted p) (is_default_price fuel_product_id at) db.prices
              (λ p. reorder (is_none p.station_id) _ _ _ (product_test p)))
    where
      reorder : (n r q v : Bool) → (r && v) ≡ v → ((n && (r && q)) && v) ≡ (n && (v && q))
      reorder n r q v h = ground arith

  -- The default price in a currency.
  pub batch_default_lem :
      (currency : Option Currency)
      → batch_default (batch_default_prices db pairs at) fuel_product_id currency
        ≡ default_price db.prices fuel_product_id at currency
  unfolding batch_default default_price
  batch_default_lem currency =
      let rows = select (is_default_price fuel_product_id at) db.prices in
      let in_rows =
        select-order_desc (in_currency currency) rows
        ∙ ap order_desc (
            select-select (is_default_price fuel_product_id at) (in_currency currency) db.prices) in
      ap
        (λ (ps : List PriceHistory).
          price_or (limit_one (select (in_currency currency) ps))
            (no_price currency (not (is_none (limit_one ps)))))
        default_rows_lem
      ∙ ap
          (λ (ps : List PriceHistory).
            price_or (limit_one ps)
              (no_price currency (not (is_none (limit_one (order_desc rows))))))
          in_rows
      ∙ ap
          (λ (b : Bool).
            price_or
              (limit_one (
                order_desc (
                  select
                    (λ (p : PriceHistory).
                      is_default_price fuel_product_id at p && in_currency currency p)
                    db.prices)))
              (no_price currency b))
          (any_ordered (is_default_price fuel_product_id at) db.prices)

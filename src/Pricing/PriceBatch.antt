-- ===== src/Pricing/PriceBatch.antt =====
-- The prices of many pairs (`_resolve_applicable_prices_batch`) against that of each
-- (`_resolve_applicable_price`).
use zylo_office_backend.Prelude.{
  HasUnique, HasUnique-select, ℕ, ◌≡◌, refl, ap, sym, ◌∙◌, inl, inr, Option-cases, Option, none,
  some, List, ◌==◌, nat_eq, option_eq, select, find-total, Result, ok, In, in-map, in-select,
  beq_true, subst, ◌>>=◌,
}
use zylo_office_backend.Pricing.Tables.{Currency, Station, PricingDb}
use zylo_office_backend.Pricing.Dictionaries.{dict_get, contains_key, row_of, found-key}
use zylo_office_backend.Pricing.Currencies.{
  and_then, resolve_station_default_currency, unless_app_error, resolve_station_currencies_batch,
}
use zylo_office_backend.Pricing.Agreement.{HasKeys, contains_in}
use zylo_office_backend.Pricing.CurrencyBatch.{
  dict_get-resolve_station_currencies_batch, dict_get-other_station,
}
use zylo_office_backend.Pricing.Ordering.{order_desc, limit_one}
use zylo_office_backend.Pricing.Prices.{
  is_station_price, Resolved, default_price, resolve_applicable_price, currency_by_station,
  batch_entry, station_ids_of, batch_station_prices, batch_default_prices, batch_stations,
  resolve_applicable_prices_batch,
}
use zylo_office_backend.Pricing.Rows.{station_asked, station_price_lem, batch_default_lem}

module _ (db : PricingDb) (keys : HasKeys db) (pairs : List (ℕ × ℕ)) (stations_by_id : List Station)
    (at : ℕ) (unique : HasUnique (λ (s : Station). s.id) stations_by_id)
    (loaded : (i : ℕ)
      → In i (station_ids_of pairs)
      → row_of (λ (s : Station). s.id) i stations_by_id
        ≡ row_of (λ (s : Station). s.id) i db.stations)
    (station_id fuel_product_id : ℕ) (pair_in : In (station_id, fuel_product_id) pairs) where
  -- The stations that the batch resolves the currency of.
  kept_unique : HasUnique (λ (s : Station). s.id) (batch_stations pairs stations_by_id)
  unfolding batch_stations
  kept_unique =
      HasUnique-select (λ (s : Station). s.id)
        (λ (s : Station). contains_key s.id (station_ids_of pairs)) stations_by_id unique

  none_kept :
      row_of (λ (s : Station). s.id) station_id stations_by_id ≡ none
      → (s : Station) → In s (batch_stations pairs stations_by_id)
      → ¬ (s.id ≡ station_id)
  unfolding batch_stations
  none_kept absent s m e =
      let (row, _) =
        (in-select (λ (s : Station). contains_key s.id (station_ids_of pairs)) s stations_by_id).0
          m in
      absurd (
        let (b, f) =
          find-total (λ (s : Station). s.id == station_id) stations_by_id s row
            (beq_true s.id station_id e) in
        cc)

  station_kept :
      (s : Station)
      → row_of (λ (s : Station). s.id) station_id stations_by_id ≡ some s
      → In s (batch_stations pairs stations_by_id)
  unfolding batch_stations
  station_kept s found =
      let (row, same) = found-key (λ (s : Station). s.id) station_id stations_by_id s found in
      (in-select (λ (s : Station). contains_key s.id (station_ids_of pairs)) s stations_by_id).1 (
        row,
        contains_in s.id (station_ids_of pairs) (
            subst (λ (i : ℕ). In i (station_ids_of pairs)) (sym same)
              (station_asked db pairs at station_id fuel_product_id pair_in)),
      )

  -- The currency that the batch has for the station is the one that is found for it alone.
  currency_lem :
      and_then
        (row_of (λ (s : Station). s.id) station_id db.stations)
        (λ s. unless_app_error (resolve_station_default_currency db s))
      ≡ ok (
          currency_by_station station_id
            (resolve_station_currencies_batch db (batch_stations pairs stations_by_id)))
  currency_lem = elim (Option-cases (row_of (λ (s : Station). s.id) station_id stations_by_id)) [
    | inl absent ↦
        let batched =
          dict_get-other_station db keys (batch_stations pairs stations_by_id) station_id
            (none_kept absent) in
        rw
          (
            sym (loaded station_id (station_asked db pairs at station_id fuel_product_id pair_in)),
            absent,
            batched,
          )
          refl
    | inr (s, found) ↦
        let (value, batched, alone) =
          dict_get-resolve_station_currencies_batch db keys (batch_stations pairs stations_by_id) s
            kept_unique (station_kept s found) in
        let (row, same) = found-key (λ (s : Station). s.id) station_id stations_by_id s found in
        let at_id =
          subst
            (λ (i : ℕ).
              dict_get i (resolve_station_currencies_batch db (batch_stations pairs stations_by_id))
              ≡ some value)
            same batched in
        rw
          (
            sym (loaded station_id (station_asked db pairs at station_id fuel_product_id pair_in)),
            found,
            at_id,
          )
          alone
  ]

  -- One entry of the batch is the price that is found for its pair alone.
  pub entry_lem :
      resolve_applicable_price db station_id fuel_product_id at
      ≡ ok (
          batch_entry
            (batch_station_prices db pairs at)
            (batch_default_prices db pairs at)
            (resolve_station_currencies_batch db (batch_stations pairs stations_by_id))
            station_id
            fuel_product_id)
  unfolding resolve_applicable_price batch_entry
  entry_lem =
      elim (Option-cases (
        limit_one
          (order_desc (select (is_station_price station_id fuel_product_id at) db.prices)))) [
            | inl e ↦
                let currency =
                  currency_by_station station_id
                    (resolve_station_currencies_batch db (batch_stations pairs stations_by_id)) in
                let alone =
                  ap
                    (λ (o : Result (Option Currency)).
                      o >>= (λ c. ok (default_price db.prices fuel_product_id at c)))
                    currency_lem in
                let batched =
                  sym (batch_default_lem db pairs at station_id fuel_product_id pair_in currency) in
                rw (station_price_lem db pairs at station_id fuel_product_id pair_in, e)
                  (alone ∙ ap ok batched)
            | inr (p, e) ↦
                rw (station_price_lem db pairs at station_id fuel_product_id pair_in, e) refl
          ]

-- Every pair has an entry in the batch, and every entry is what the single resolution returns for its
-- pair, if the unique constraints of the tables hold and `stations_by_id` has for the stations of
-- the pairs what the database has.
pub resolve_applicable_prices_batch_lem :
    (db : PricingDb) (pairs : List (ℕ × ℕ)) (stations_by_id : List Station) (at : ℕ)
    → HasKeys db
    → HasUnique (λ (s : Station). s.id) stations_by_id
    → ((i : ℕ)
        → In i (station_ids_of pairs)
        → row_of (λ (s : Station). s.id) i stations_by_id
          ≡ row_of (λ (s : Station). s.id) i db.stations)
    → (station_id fuel_product_id : ℕ) → In (station_id, fuel_product_id) pairs
    → (value : Resolved) × In
        ((station_id, fuel_product_id), value)
        (resolve_applicable_prices_batch db pairs stations_by_id at)
      × ((other : Resolved)
          → In
              ((station_id, fuel_product_id), other)
              (resolve_applicable_prices_batch db pairs stations_by_id at)
          → other ≡ value)
      × (resolve_applicable_price db station_id fuel_product_id at ≡ ok value)
unfolding resolve_applicable_prices_batch
resolve_applicable_prices_batch_lem db pairs stations_by_id at keys unique loaded station_id
      fuel_product_id m =
    let currencies = resolve_station_currencies_batch db (batch_stations pairs stations_by_id) in
    let entry =
      batch_entry (batch_station_prices db pairs at) (batch_default_prices db pairs at)
        currencies in
    let entries = in-map (λ ((s, p) : ℕ × ℕ). ((s, p), entry s p)) in
    (
      entry station_id fuel_product_id,
      (entries ((station_id, fuel_product_id), entry station_id fuel_product_id) pairs).1
          ((station_id, fuel_product_id), m, refl),
      (λ other k.
          let ((s, p), _, e) = (entries ((station_id, fuel_product_id), other) pairs).0 k in
          ap (λ (z : (ℕ × ℕ) × Resolved). z.1) e
          ∙ sym (ap (λ (z : (ℕ × ℕ) × Resolved). entry z.0.0 z.0.1) e)),
      entry_lem db keys pairs stations_by_id at unique loaded station_id fuel_product_id m,
    )

-- ===== src/Pricing/CurrencyBatch.antt =====
-- The currencies of many stations (`_resolve_station_currencies_batch`).
use zylo_office_backend.Prelude.{
  HasUnique, ℕ, true, ◌≡◌, refl, ap, sym, ◌∙◌, inl, inr, Option-cases, Option, none, some, List,
  map, flat_map, nat_eq, string_eq, is_none, ok, In, in-map, in-flat_map, in-select,
}
use zylo_office_backend.Pricing.Tables.{Currency, City, Region, Country, Station, PricingDb}
use zylo_office_backend.Pricing.Dictionaries.{
  dict_get, contains_key, index_by, row_of, dict_get-select, dict_get-present, dict_get-absent,
  found-key,
}
use zylo_office_backend.Pricing.Currencies.{
  override_of, resolve_station_default_currency, unless_app_error, optional, batch_override,
  or_else, remaining_stations, batch_cities, batch_regions, batch_countries, batch_currency,
  bind_some, batch_chain, resolve_station_currencies_batch,
}
use zylo_office_backend.Pricing.Agreement.{
  HasKeys, contains_in, bind_some-cong, currency_value, country_value, chain,
  resolve_station_default_currency_lem, batch_currency_lem,
}

module _ (db : PricingDb) (keys : HasKeys db) where
  -- A region of the batch leads to the same currency as alone.
  region_lem :
      (regions : List Region) (region : Region)
      → In region regions
      → bind_some
          (dict_get region.country_id
            (index_by (λ (c : Country). c.id) (batch_countries db regions)))
          (batch_currency db (batch_countries db regions))
        ≡ bind_some
            (row_of (λ (c : Country). c.id) region.country_id db.countries)
            (currency_value db)
  unfolding batch_countries
  region_lem regions region m =
      let kept = λ (c : Country) (e : c.id ≡ region.country_id).
        contains_in c.id (map (λ (r : Region). r.country_id) regions)
          ((in-map (λ (r : Region). r.country_id) c.id regions).1 (region, m, e)) in
      rw
        (dict_get-select (λ (c : Country). c.id) region.country_id
          (λ (c : Country). contains_key c.id (map (λ (r : Region). r.country_id) regions))
          db.countries keys.country_ids kept)
        (bind_some-cong (row_of (λ (c : Country). c.id) region.country_id db.countries)
          (batch_currency db (batch_countries db regions)) (currency_value db)
          (λ country found.
            let (row, same) =
              found-key (λ (c : Country). c.id) region.country_id db.countries country found in
            batch_currency_lem db keys (batch_countries db regions) country (
              (in-select
                  (λ (c : Country). contains_key c.id (map (λ (r : Region). r.country_id) regions))
                  country db.countries).1
                (row, kept country same))))

  city_lem :
      (cities : List City) (city : City)
      → In city cities
      → bind_some
          (dict_get city.region_id (index_by (λ (r : Region). r.id) (batch_regions db cities)))
          (λ region.
            bind_some
              (dict_get region.country_id
                (index_by (λ (c : Country). c.id) (batch_countries db (batch_regions db cities))))
              (batch_currency db (batch_countries db (batch_regions db cities))))
        ≡ bind_some (row_of (λ (r : Region). r.id) city.region_id db.regions) (λ region.
          bind_some
            (row_of (λ (c : Country). c.id) region.country_id db.countries)
            (currency_value db))
  unfolding batch_regions
  city_lem cities city m =
      let test = λ (r : Region). contains_key r.id (map (λ (c : City). c.region_id) cities) in
      let kept = λ (r : Region) (e : r.id ≡ city.region_id).
        contains_in r.id (map (λ (c : City). c.region_id) cities)
          ((in-map (λ (c : City). c.region_id) r.id cities).1 (city, m, e)) in
      rw
        (dict_get-select (λ (r : Region). r.id) city.region_id test db.regions keys.region_ids kept)
        (bind_some-cong (row_of (λ (r : Region). r.id) city.region_id db.regions) _ _
          (λ region found.
            let (row, same) =
              found-key (λ (r : Region). r.id) city.region_id db.regions region found in
            region_lem (batch_regions db cities) region
              ((in-select test region db.regions).1 (row, kept region same))))

  nested :
      (city_id : ℕ)
      → bind_some (country_value db city_id) (currency_value db)
        ≡ bind_some (row_of (λ (c : City). c.id) city_id db.cities) (λ city.
          bind_some (row_of (λ (r : Region). r.id) city.region_id db.regions) (λ region.
            bind_some
              (row_of (λ (c : Country). c.id) region.country_id db.countries)
              (currency_value db)))
  unfolding country_value
  nested city_id = elim (Option-cases (row_of (λ (c : City). c.id) city_id db.cities)) [
    | inl e ↦ rw e refl
    | inr (city, e) ↦
        elim (Option-cases (row_of (λ (r : Region). r.id) city.region_id db.regions)) [
          | inl f ↦ rw (e, f) refl
          | inr (region, f) ↦ rw (e, f) refl
        ]
  ]

  station_lem :
      (remaining : List Station) (station : Station) (city_id : ℕ)
      → In station remaining
      → station.city_id ≡ some city_id
      → bind_some
          (dict_get city_id (index_by (λ (c : City). c.id) (batch_cities db remaining)))
          (λ city.
            bind_some
              (dict_get city.region_id
                (index_by (λ (r : Region). r.id) (batch_regions db (batch_cities db remaining))))
              (λ region.
                bind_some
                  (dict_get region.country_id (
                    index_by
                      (λ (c : Country). c.id)
                      (batch_countries db (batch_regions db (batch_cities db remaining)))))
                  (batch_currency db
                    (batch_countries db (batch_regions db (batch_cities db remaining))))))
        ≡ bind_some (country_value db city_id) (currency_value db)
  unfolding batch_cities
  station_lem remaining station city_id m named =
      let city_ids = flat_map (λ (s : Station). optional s.city_id) remaining in
      let test = λ (c : City). contains_key c.id city_ids in
      let kept = λ (c : City) (e : c.id ≡ city_id). contains_in c.id city_ids (
        (in-flat_map (λ (s : Station). optional s.city_id) c.id remaining).1
          (station, m, rw (named, e) (inl refl))) in
      rw (dict_get-select (λ (c : City). c.id) city_id test db.cities keys.city_ids kept) (
        bind_some-cong (row_of (λ (c : City). c.id) city_id db.cities) _ _ (λ city found.
          let (row, same) = found-key (λ (c : City). c.id) city_id db.cities city found in
          city_lem (batch_cities db remaining) city
            ((in-select test city db.cities).1 (row, kept city same)))
        ∙ sym (nested city_id))

  -- The chain of dictionaries for a station is the chain of queries.
  batch_chain_lem :
      (remaining : List Station) (station : Station)
      → In station remaining
      → batch_chain db remaining station ≡ chain db station
  unfolding batch_chain chain
  batch_chain_lem remaining station m =
      bind_some-cong station.city_id _ _
        (λ city_id named. station_lem remaining station city_id m named)

  batch_override_lem :
      (stations : List Station) (station : Station)
      → In station stations
      → batch_override db stations station ≡ override_of db station
  unfolding batch_override
  batch_override_lem stations station m =
      let ids = flat_map (λ (s : Station). optional s.currency_override_id) stations in
      bind_some-cong station.currency_override_id _ _ (λ i named.
        dict_get-select (λ (c : Currency). c.id) i (λ (c : Currency). contains_key c.id ids)
          db.currencies keys.currency_ids
          (λ c e. contains_in c.id ids (
            (in-flat_map (λ (s : Station). optional s.currency_override_id) c.id stations).1
              (station, m, rw (named, e) (inl refl)))))

  -- One entry of the batch.
  entry_lem :
      (stations : List Station) (station : Station)
      → In station stations
      → or_else
          (batch_override db stations station)
          (batch_chain db (remaining_stations db stations) station)
        ≡ or_else (override_of db station) (chain db station)
  unfolding remaining_stations
  entry_lem stations station m =
      let same = batch_override_lem stations station m in
      elim (Option-cases (override_of db station)) [
        | inl e ↦
            let left : is_none (batch_override db stations station) ≡ true = rw (same, e) refl in
            rw (same, e)
              (batch_chain_lem (remaining_stations db stations) station (
                (in-select (λ (s : Station). is_none (batch_override db stations s)) station
                    stations).1
                  (m, left)))
        | inr (c, e) ↦ rw (same, e) refl
      ]

  -- The dictionary has for a station the currency that the single resolution finds, where the
  -- latter's failures are no currency.
  pub dict_get-resolve_station_currencies_batch :
      (stations : List Station) (station : Station)
      → HasUnique (λ (s : Station). s.id) stations
      → In station stations
      → (value : Option Currency) × (dict_get station.id
            (resolve_station_currencies_batch db stations)
          ≡ some value)
        × (unless_app_error (resolve_station_default_currency db station) ≡ ok value)
  unfolding resolve_station_currencies_batch
  dict_get-resolve_station_currencies_batch stations station unique m = (
    or_else (override_of db station) (chain db station),
    dict_get-present (λ (s : Station). s.id)
          (λ (s : Station).
            or_else (batch_override db stations s)
              (batch_chain db (remaining_stations db stations) s))
          station stations unique m
        ∙ ap (λ (v : Option Currency). some v) (entry_lem stations station m),
    resolve_station_default_currency_lem db keys station,
  )

  -- A station that was not asked for has no entry.
  pub dict_get-other_station :
      (stations : List Station) (station_id : ℕ)
      → ((s : Station) → In s stations → ¬ (s.id ≡ station_id))
      → dict_get station_id (resolve_station_currencies_batch db stations) ≡ none
  unfolding resolve_station_currencies_batch
  dict_get-other_station stations station_id h =
      dict_get-absent (λ (s : Station). s.id)
        (λ (s : Station).
          or_else (batch_override db stations s)
            (batch_chain db (remaining_stations db stations) s))
        station_id stations h

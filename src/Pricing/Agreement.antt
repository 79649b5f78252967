-- ===== src/Pricing/Agreement.antt =====
-- The currency of a station, found alone and in a batch.
use zylo_office_backend.Prelude.{
  HasUnique, Eq, ℕ, true, ◌≡◌, refl, inl, inr, Option-cases, Option, none, some, List, map,
  flat_map, ◌==◌, nat_eq, string_eq, select, any_iff, ok, In, in-map, in-flat_map, beq_true,
}
use zylo_office_backend.Pricing.Tables.{Currency, City, Region, Country, Station, PricingDb}
use zylo_office_backend.Pricing.Dictionaries.{
  dict_get, contains_key, index_by, row_of, dict_get-select, scalar_one_or_none-row_of,
}
use zylo_office_backend.Pricing.Currencies.{
  override_of, currency_of_country, country_of_city, resolve_station_default_currency,
  unless_app_error, optional, or_else, currency_or_code, currency_or_city, batch_currency,
  bind_some,
}

-- The unique constraints of the tables.
pub record HasKeys (db : PricingDb) : Type 0 where
  pub currency_ids : HasUnique (λ (c : Currency). c.id) db.currencies
  pub currency_codes : HasUnique (λ (c : Currency). c.code) db.currencies
  pub city_ids : HasUnique (λ (c : City). c.id) db.cities
  pub region_ids : HasUnique (λ (r : Region). r.id) db.regions
  pub country_ids : HasUnique (λ (c : Country). c.id) db.countries

pub contains_in :
    {K : Type 0} ⦃test : Eq K⦄ (k : K) (keys : List K) → In k keys → contains_key k keys ≡ true
contains_in ⦃test⦄ k keys m = (any_iff (λ j. j == k) keys).1 (k, m, beq_true k k refl)

pub bind_some-cong :
    {A B : Type 0} (o : Option A) (f g : A → Option B)
    → ((a : A) → o ≡ some a → f a ≡ g a)
    → bind_some o f ≡ bind_some o g
bind_some-cong none f g h = refl
bind_some-cong (some a) f g h = h a refl

-- What the queries give, with every lookup a lookup in its table.
unfoldable pub currency_value : PricingDb → Country → Option Currency
currency_value db country =
    or_else (bind_some country.currency_id (λ i. row_of (λ (c : Currency). c.id) i db.currencies))
      (row_of (λ (c : Currency). c.code) country.currency_code db.currencies)

unfoldable pub country_value : PricingDb → ℕ → Option Country
country_value db city_id = bind_some (row_of (λ (c : City). c.id) city_id db.cities) (λ city.
    bind_some (row_of (λ (r : Region). r.id) city.region_id db.regions)
      (λ region. row_of (λ (c : Country). c.id) region.country_id db.countries))

unfoldable pub chain : PricingDb → Station → Option Currency
unfolding currency_value country_value
chain db station =
    bind_some station.city_id (λ city_id. bind_some (country_value db city_id) (currency_value db))

module _ (db : PricingDb) (keys : HasKeys db) where
  currency_or_code_lem :
      (country : Country) (o : Option Currency)
      → unless_app_error (currency_or_code db country o)
        ≡ ok (or_else o (row_of (λ (c : Currency). c.code) country.currency_code db.currencies))
  unfolding currency_or_code
  currency_or_code_lem country (some c) = refl
  currency_or_code_lem country none =
      let query =
        scalar_one_or_none-row_of (λ (c : Currency). c.code) country.currency_code db.currencies
          keys.currency_codes in
      elim (Option-cases (row_of (λ (c : Currency). c.code) country.currency_code db.currencies)) [
        | inl e ↦ rw (query, e) refl
        | inr (c, e) ↦ rw (query, e) refl
      ]

  country_of_city_lem : (city_id : ℕ) → country_of_city db city_id ≡ ok (country_value db city_id)
  unfolding country_of_city country_value
  country_of_city_lem city_id =
      let city_query =
        scalar_one_or_none-row_of (λ (c : City). c.id) city_id db.cities keys.city_ids in
      elim (Option-cases (row_of (λ (c : City). c.id) city_id db.cities)) [
        | inl e ↦ rw (city_query, e) refl
        | inr (city, e) ↦
            let region_query =
              scalar_one_or_none-row_of (λ (r : Region). r.id) city.region_id db.regions
                keys.region_ids in
            elim (Option-cases (row_of (λ (r : Region). r.id) city.region_id db.regions)) [
              | inl f ↦ rw (city_query, e, region_query, f) refl
              | inr (region, f) ↦
                  let country_query =
                    scalar_one_or_none-row_of (λ (c : Country). c.id) region.country_id db.countries
                      keys.country_ids in
                  rw (city_query, e, region_query, f, country_query) refl
            ]
      ]

  currency_or_city_lem :
      (station : Station) (o : Option Currency)
      → unless_app_error (currency_or_city db station o) ≡ ok (or_else o (chain db station))
  unfolding currency_or_city chain currency_of_country
  currency_or_city_lem station (some c) = refl
  currency_or_city_lem station none = elim (Option-cases station.city_id) [
    | inl e ↦ rw e refl
    | inr (i, e) ↦ elim (Option-cases (country_value db i)) [
      | inl f ↦ rw (e, country_of_city_lem i, f) refl
      | inr (country, f) ↦
          rw (e, country_of_city_lem i, f)
            (currency_or_code_lem country (
              bind_some country.currency_id (λ k. row_of (λ (c : Currency). c.id) k db.currencies)))
    ]
  ]

  -- The single resolution, as a value.
  pub resolve_station_default_currency_lem :
      (station : Station)
      → unless_app_error (resolve_station_default_currency db station)
        ≡ ok (or_else (override_of db station) (chain db station))
  unfolding resolve_station_default_currency
  resolve_station_default_currency_lem station =
      currency_or_city_lem station (override_of db station)

  -- The batch: each dictionary has what the table has for the keys that are looked up.
  pub batch_currency_lem :
      (countries : List Country) (country : Country)
      → In country countries
      → batch_currency db countries country ≡ currency_value db country
  unfolding batch_currency currency_value
  batch_currency_lem countries country m =
      let by_code =
        dict_get-select (λ (c : Currency). c.code) country.currency_code
          (λ (c : Currency). contains_key c.code (map (λ (x : Country). x.currency_code) countries))
          db.currencies keys.currency_codes
          (λ c e.
            contains_in c.code _
              ((in-map (λ (x : Country). x.currency_code) c.code countries).1 (country, m, e))) in
      let by_key =
        bind_some-cong country.currency_id
          (λ i. dict_get i (
            index_by (λ (c : Currency). c.id)
              (select
                (λ (c : Currency).
                  contains_key c.id (flat_map (λ (c : Country). optional c.currency_id) countries))
                db.currencies)))
          (λ i. row_of (λ (c : Currency). c.id) i db.currencies)
          (λ i named.
            dict_get-select (λ (c : Currency). c.id) i
              (λ (c : Currency).
                contains_key c.id (flat_map (λ (c : Country). optional c.currency_id) countries))
              db.currencies keys.currency_ids
              (λ c e. contains_in c.id _ (
                (in-flat_map (λ (x : Country). optional x.currency_id) c.id countries).1
                  (country, m, rw (named, e) (inl refl))))) in
      rw (by_key, by_code) refl

-- ===== src/Pricing/Currencies.antt =====
-- The default currency of a station (`_resolve_station_default_currency`), and that of many at once
-- (`_resolve_station_currencies_batch`).
use zylo_office_backend.Prelude.{
  ℕ, Option, none, some, List, [], ◌∷◌, map, flat_map, ◌==◌, nat_eq, string_eq, select, is_none,
  Result, ok, err, or_raise, scalar_one_or_none, station_currency_not_resolvable,
  currency_not_found, multiple_results_found, integrity_error, no_result_found, ◌>>=◌,
}
use zylo_office_backend.Pricing.Tables.{Currency, City, Region, Country, Station, PricingDb}
use zylo_office_backend.Pricing.Dictionaries.{dict_get, contains_key, index_by, row_of}

-- `f(x) if x is not None else None`
abbrev pub bind_some : {A B : Type 0} → Option A → (A → Option B) → Option B
bind_some none f = none
bind_some (some a) f = f a

-- The same for a query.
abbrev pub and_then : {A B : Type 0} → Option A → (A → Result (Option B)) → Result (Option B)
and_then none f = ok none
and_then (some a) f = f a

-- The override that a station names, if there is such a currency.
abbrev pub override_of : PricingDb → Station → Option Currency
override_of db station =
    bind_some station.currency_override_id (λ i. row_of (λ (c : Currency). c.id) i db.currencies)

-- A currency that is there, or else the one with the country's code.
unfoldable pub currency_or_code : PricingDb → Country → Option Currency → Result Currency
currency_or_code db country (some c) = ok c
currency_or_code db country none =
    scalar_one_or_none (select (λ (c : Currency). c.code == country.currency_code) db.currencies)
    >>= (λ found. or_raise found currency_not_found)

-- By the foreign key of the country, or else by its code.
unfoldable pub currency_of_country : PricingDb → Country → Result Currency
unfolding currency_or_code
currency_of_country db country =
    currency_or_code db country
      (bind_some country.currency_id (λ i. row_of (λ (c : Currency). c.id) i db.currencies))

-- The country of a city's region.
unfoldable pub country_of_city : PricingDb → ℕ → Result (Option Country)
country_of_city db city_id = do
  city ← scalar_one_or_none (select (λ (c : City). c.id == city_id) db.cities)
  region ←
      and_then city
        (λ c. scalar_one_or_none (select (λ (r : Region). r.id == c.region_id) db.regions))
  and_then region
      (λ r. scalar_one_or_none (select (λ (c : Country). c.id == r.country_id) db.countries))

-- The override, or else the currency of the country of the station's city.
unfoldable pub currency_or_city : PricingDb → Station → Option Currency → Result Currency
unfolding currency_of_country country_of_city
currency_or_city db station (some c) = ok c
currency_or_city db station none = do
  city_id ← or_raise station.city_id station_currency_not_resolvable
  found ← country_of_city db city_id
  country ← or_raise found station_currency_not_resolvable
  currency_of_country db country

unfoldable pub resolve_station_default_currency : PricingDb → Station → Result Currency
unfolding currency_or_city
resolve_station_default_currency db station = currency_or_city db station (override_of db station)

-- `except AppError: pass`; what the database refuses and SQLAlchemy raises is no AppError.
abbrev pub unless_app_error : {A : Type 0} → Result A → Result (Option A)
unless_app_error (ok a) = ok (some a)
unless_app_error (err multiple_results_found) = err multiple_results_found
unless_app_error (err integrity_error) = err integrity_error
unless_app_error (err no_result_found) = err no_result_found
unless_app_error (err e) = ok none

abbrev pub optional : {A : Type 0} → Option A → List A
optional none = []
optional (some a) = a ∷ []

-- `x`, and `y` if it is None
abbrev pub or_else : {A : Type 0} → Option A → Option A → Option A
or_else none y = y
or_else (some a) y = some a

-- `override_by_id.get(station.currencyOverrideId)`, over the dictionary of the stations' overrides.
unfoldable pub batch_override : PricingDb → List Station → Station → Option Currency
batch_override db stations station =
    let override_ids = flat_map (λ (s : Station). optional s.currency_override_id) stations in
    bind_some station.currency_override_id (λ i. dict_get i (
      index_by (λ (c : Currency). c.id)
        (select (λ (c : Currency). contains_key c.id override_ids) db.currencies)))

-- The stations without an override.
unfoldable pub remaining_stations : PricingDb → List Station → List Station
unfolding batch_override
remaining_stations db stations =
    select (λ (s : Station). is_none (batch_override db stations s)) stations

-- The queries for the remaining stations, each for the keys that the one before it gave.
unfoldable pub batch_cities : PricingDb → List Station → List City
batch_cities db remaining =
    let city_ids = flat_map (λ (s : Station). optional s.city_id) remaining in
    select (λ (c : City). contains_key c.id city_ids) db.cities

unfoldable pub batch_regions : PricingDb → List City → List Region
batch_regions db cities =
    select (λ (r : Region). contains_key r.id (map (λ (c : City). c.region_id) cities)) db.regions

unfoldable pub batch_countries : PricingDb → List Region → List Country
batch_countries db regions =
    select (λ (c : Country). contains_key c.id (map (λ (r : Region). r.country_id) regions))
      db.countries

-- `currencies_by_id.get(...)`, or else `currencies_by_code.get(...)`.
unfoldable pub batch_currency : PricingDb → List Country → Country → Option Currency
batch_currency db countries country =
    let currency_ids = flat_map (λ (c : Country). optional c.currency_id) countries in
    or_else
      (bind_some country.currency_id (λ i. dict_get i (
        index_by (λ (c : Currency). c.id)
          (select (λ (c : Currency). contains_key c.id currency_ids) db.currencies))))
      (dict_get country.currency_code (
        index_by (λ (c : Currency). c.code)
          (select
            (λ (c : Currency).
              contains_key c.code (map (λ (x : Country). x.currency_code) countries))
            db.currencies)))

-- The chain of dictionaries for one of the remaining stations.
unfoldable pub batch_chain : PricingDb → List Station → Station → Option Currency
unfolding batch_cities batch_regions batch_countries batch_currency
batch_chain db remaining station =
    let cities = batch_cities db remaining in
    let regions = batch_regions db cities in
    let countries = batch_countries db regions in
    bind_some station.city_id (λ city_id.
      bind_some (dict_get city_id (index_by (λ (c : City). c.id) cities)) (λ city.
        bind_some (dict_get city.region_id (index_by (λ (r : Region). r.id) regions)) (λ region.
          bind_some (dict_get region.country_id (index_by (λ (c : Country). c.id) countries))
            (batch_currency db countries))))

-- The dictionary from the id of a station to its currency. The two loops that fill it, first with
-- the overrides, are one map: each station is in one of them. A query for no keys has no rows.
unfoldable pub resolve_station_currencies_batch :
    PricingDb → List Station → List (ℕ × Option Currency)
unfolding batch_override remaining_stations batch_chain
resolve_station_currencies_batch db stations =
    map
      (λ (s : Station). (
        s.id,
        or_else (batch_override db stations s) (batch_chain db (remaining_stations db stations) s),
      ))
      stations

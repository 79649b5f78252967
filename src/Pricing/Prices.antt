-- ===== src/Pricing/Prices.antt =====
-- The price of a product at a station and a time (`_resolve_applicable_price`), and those of many
-- pairs at once (`_resolve_applicable_prices_batch`). Of two rows of one time, the one that the table
-- has first comes first in every query.
use zylo_office_backend.Prelude.{
  ℕ, String, Bool, true, false, not, ◌&&◌, Option, none, some, List, map, ◌==◌, nat_eq, option_eq,
  if◌then◌else◌, leb, select, any, find, is_none, Result, ok, ◌>>=◌,
}
use zylo_office_backend.Pricing.Tables.{Currency, Station, PriceHistory, PricingDb}
use zylo_office_backend.Pricing.Dictionaries.{dict_get, contains_key, row_of}
use zylo_office_backend.Pricing.Currencies.{
  and_then, bind_some, resolve_station_default_currency, unless_app_error,
  resolve_station_currencies_batch,
}
use zylo_office_backend.Pricing.Ordering.{order_desc, limit_one}

-- The conditions of the queries.
abbrev pub is_station_price : ℕ → ℕ → ℕ → PriceHistory → Bool
is_station_price station_id fuel_product_id at p =
    p.station_id == some station_id
    && (p.fuel_product_id == fuel_product_id && leb p.effective_from at)

abbrev pub is_default_price : ℕ → ℕ → PriceHistory → Bool
is_default_price fuel_product_id at p =
    is_none p.station_id && (p.fuel_product_id == fuel_product_id && leb p.effective_from at)

-- The condition on the currency, if the station has one.
abbrev pub in_currency : Option Currency → PriceHistory → Bool
in_currency none p = true
in_currency (some c) p = p.currency_id == c.id

-- A price, or why there is none.
abbrev pub Resolved : Type 0
Resolved = Option PriceHistory × Option String

abbrev pub no_price : Option Currency → Bool → Resolved
no_price none any_currency = (none, some "no_applicable_price")
no_price (some c) any_currency =
    if any_currency
    then (none, some "price_currency_mismatch")
    else (none, some "no_applicable_price")

-- A price that is found, or else the outcome without it.
abbrev pub price_or : Option PriceHistory → Resolved → Resolved
price_or (some p) otherwise = (some p, none)
price_or none otherwise = otherwise

-- The same where the outcome takes queries.
abbrev pub price_or_query : Option PriceHistory → Result Resolved → Result Resolved
price_or_query (some p) otherwise = ok (some p, none)
price_or_query none otherwise = otherwise

-- The default price of the network, in the currency of the station.
unfoldable pub default_price : List PriceHistory → ℕ → ℕ → Option Currency → Resolved
default_price prices fuel_product_id at station_currency =
    price_or
      (limit_one (
        order_desc (
          select
            (λ (p : PriceHistory).
              is_default_price fuel_product_id at p && in_currency station_currency p)
            prices)))
      (no_price station_currency (any (is_default_price fuel_product_id at) prices))

unfoldable pub resolve_applicable_price : PricingDb → ℕ → ℕ → ℕ → Result Resolved
unfolding resolve_station_default_currency default_price
resolve_applicable_price db station_id fuel_product_id at =
    price_or_query
      (limit_one (order_desc (select (is_station_price station_id fuel_product_id at) db.prices)))
      (and_then (row_of (λ (s : Station). s.id) station_id db.stations)
          (λ s. unless_app_error (resolve_station_default_currency db s))
        >>= (λ station_currency. ok (default_price db.prices fuel_product_id at station_currency)))

-- `currency_by_station.get(station_id)`
abbrev pub currency_by_station : ℕ → List (ℕ × Option Currency) → Option Currency
currency_by_station station_id currencies = bind_some (dict_get station_id currencies) (λ c. c)

-- The default price among the rows that the batch has read.
unfoldable pub batch_default : List PriceHistory → ℕ → Option Currency → Resolved
batch_default default_prices fuel_product_id station_currency =
    let any_currency_candidates =
      select (λ (p : PriceHistory). p.fuel_product_id == fuel_product_id) default_prices in
    price_or (limit_one (select (in_currency station_currency) any_currency_candidates))
      (no_price station_currency (not (is_none (limit_one any_currency_candidates))))

-- One pair. `station_price_by_key` keeps the first row of each key: its value is the first row of the
-- query with that key.
unfoldable pub batch_entry :
    List PriceHistory → List PriceHistory → List (ℕ × Option Currency) → ℕ → ℕ → Resolved
unfolding batch_default
batch_entry station_prices default_prices currencies station_id fuel_product_id =
    price_or
      (find
        (λ (p : PriceHistory).
          p.station_id == some station_id && p.fuel_product_id == fuel_product_id)
        station_prices)
      (batch_default default_prices fuel_product_id (currency_by_station station_id currencies))

abbrev pub station_ids_of : List (ℕ × ℕ) → List ℕ
station_ids_of = map (λ (station_id, fuel_product_id). station_id)

abbrev pub product_ids_of : List (ℕ × ℕ) → List ℕ
product_ids_of = map (λ (station_id, fuel_product_id). fuel_product_id)

-- `PriceHistory.stationId.in_(station_ids)`
abbrev pub station_in : List ℕ → Option ℕ → Bool
station_in station_ids none = false
station_in station_ids (some i) = contains_key i station_ids

unfoldable pub batch_station_prices : PricingDb → List (ℕ × ℕ) → ℕ → List PriceHistory
batch_station_prices db pairs at = order_desc (
    select
      (λ (p : PriceHistory).
        station_in (station_ids_of pairs) p.station_id
        && (contains_key p.fuel_product_id (product_ids_of pairs) && leb p.effective_from at))
      db.prices)

unfoldable pub batch_default_prices : PricingDb → List (ℕ × ℕ) → ℕ → List PriceHistory
batch_default_prices db pairs at = order_desc (
    select
      (λ (p : PriceHistory).
        is_none p.station_id
        && (contains_key p.fuel_product_id (product_ids_of pairs) && leb p.effective_from at))
      db.prices)

-- The stations of the pairs among those that the caller has loaded.
unfoldable pub batch_stations : List (ℕ × ℕ) → List Station → List Station
batch_stations pairs stations_by_id =
    select (λ (s : Station). contains_key s.id (station_ids_of pairs)) stations_by_id

unfoldable pub resolve_applicable_prices_batch :
    PricingDb → List (ℕ × ℕ) → List Station → ℕ → List ((ℕ × ℕ) × Resolved)
unfolding resolve_station_currencies_batch batch_stations batch_station_prices batch_default_prices
    batch_entry
resolve_applicable_prices_batch db pairs stations_by_id at =
    let currencies = resolve_station_currencies_batch db (batch_stations pairs stations_by_id) in
    map
      (λ (station_id, fuel_product_id). (
        (station_id, fuel_product_id),
        batch_entry (batch_station_prices db pairs at) (batch_default_prices db pairs at) currencies
            station_id fuel_product_id,
      ))
      pairs

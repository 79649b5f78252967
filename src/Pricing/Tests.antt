-- ===== src/Pricing/Tests.antt =====
-- Two stations, one of a country without prices in its currency.
use zylo_office_backend.Prelude.{
  HasUnique, select, find, any, ne_sound, sym, ap, ◌∙◌, string_eq, ℕ, true, ◌≡◌, refl, inl, inr,
  Option, none, some, List, [], ◌∷◌, ok, In, nat_eq, option_eq, ◌≤◌,
}
use zylo_office_backend.Pricing.Tables.{Currency, Station, PriceHistory, PricingDb}
use zylo_office_backend.Pricing.Dictionaries.{dict_get}
use zylo_office_backend.Pricing.Currencies.{
  resolve_station_default_currency, unless_app_error, resolve_station_currencies_batch,
}
use zylo_office_backend.Pricing.Agreement.{HasKeys}
use zylo_office_backend.Pricing.CurrencyBatch.{dict_get-resolve_station_currencies_batch}
use zylo_office_backend.Pricing.Prices.{
  Resolved, is_station_price, resolve_applicable_price, resolve_applicable_prices_batch,
}
use zylo_office_backend.Pricing.PriceBatch.{resolve_applicable_prices_batch_lem}
use zylo_office_backend.Pricing.Latest.{resolve_applicable_price_latest}

abbrev in_town : Station
in_town = record { id = 1; currency_override_id = none; city_id = some 3 }

abbrev at_border : Station
at_border = record { id = 2; currency_override_id = some 6; city_id = none }

abbrev price_of : ℕ → Option ℕ → ℕ → ℕ → PriceHistory
price_of i station_id currency_id from = record {
  id = i;
  station_id = station_id;
  fuel_product_id = 4;
  currency_id = currency_id;
  price_amount = 700;
  cost_amount = none;
  effective_from = from;
  change_reason = none;
  created_by = 8;
}

abbrev network : PricingDb
network = record {
  currencies = record { id = 5; code = "XAF" } ∷ record { id = 6; code = "NGN" } ∷ [];
  cities = record { id = 3; region_id = 2 } ∷ [];
  regions = record { id = 2; country_id = 9 } ∷ [];
  countries = record { id = 9; currency_id = none; currency_code = "XAF" } ∷ [];
  stations = in_town ∷ at_border ∷ [];
  prices = price_of 1 (some 1) 5 10 ∷ price_of 2 (some 1) 5 20 ∷ price_of 3 none 5 30 ∷ [];
}

abbrev pairs : List (ℕ × ℕ)
pairs = (1, 4) ∷ (2, 4) ∷ []

abbrev two_unique : HasUnique (λ (s : Station). s.id) (in_town ∷ at_border ∷ [])
two_unique = (
  (λ y m e. elim m [
    | inl q ↦ ne_sound 2 1 refl (sym (ap (λ (s : Station). s.id) q) ∙ e)
    | inr k ↦ k
  ]),
  ((λ y m e. m), tt),
)

abbrev network_keys : HasKeys network
network_keys = record {
  currency_ids = (
    (λ y m e. elim m [
      | inl q ↦ ne_sound 6 5 refl (sym (ap (λ (c : Currency). c.id) q) ∙ e)
      | inr k ↦ k
    ]),
    ((λ y m e. m), tt),
  );
  currency_codes = (
    (λ y m e. elim m [
      | inl q ↦ ne_sound "NGN" "XAF" refl (sym (ap (λ (c : Currency). c.code) q) ∙ e)
      | inr k ↦ k
    ]),
    ((λ y m e. m), tt),
  );
  city_ids = ((λ y m e. m), tt);
  region_ids = ((λ y m e. m), tt);
  country_ids = ((λ y m e. m), tt);
}

-- The station in town has its price, the one at the border none in its currency.
town_price : resolve_applicable_price network 1 4 40 ≡ ok (some (price_of 2 (some 1) 5 20), none)
unfolding resolve_applicable_price select
town_price = refl

border_price : resolve_applicable_price network 2 4 40 ≡ ok (none, some "price_currency_mismatch")
unfolding resolve_applicable_price select find any
border_price = refl

dict_get-resolve_station_currencies_batch_example :
    (value : Option Currency) × (dict_get 1
        (resolve_station_currencies_batch network (in_town ∷ at_border ∷ []))
      ≡ some value)
    × (unless_app_error (resolve_station_default_currency network in_town) ≡ ok value)
dict_get-resolve_station_currencies_batch_example =
    dict_get-resolve_station_currencies_batch network network_keys (in_town ∷ at_border ∷ [])
      in_town two_unique (inl refl)

resolve_applicable_prices_batch_lem_example :
    (value : Resolved) × In
      ((2, 4), value)
      (resolve_applicable_prices_batch network pairs (in_town ∷ at_border ∷ []) 40)
    × ((other : Resolved)
        → In
            ((2, 4), other)
            (resolve_applicable_prices_batch network pairs (in_town ∷ at_border ∷ []) 40)
        → other ≡ value)
    × (resolve_applicable_price network 2 4 40 ≡ ok value)
resolve_applicable_prices_batch_lem_example =
    resolve_applicable_prices_batch_lem network pairs (in_town ∷ at_border ∷ []) 40 network_keys
      two_unique (λ i m. refl) 2 4 (inr (inl refl))

resolve_applicable_price_latest_example :
    (latest : PriceHistory) × (resolve_applicable_price network 1 4 40 ≡ ok (some latest, none))
    × In latest network.prices
    × (is_station_price 1 4 40 latest ≡ true)
    × ((other : PriceHistory)
        → In other network.prices
        → is_station_price 1 4 40 other ≡ true
        → other.effective_from ≤ latest.effective_from)
resolve_applicable_price_latest_example =
    resolve_applicable_price_latest network 1 4 40 (price_of 1 (some 1) 5 10) (inl refl) refl

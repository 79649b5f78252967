-- ===== src/Cache/Tests.antt =====
-- Runs of the cache, and the theorems applied to it.
use zylo_office_backend.Prelude.{
  ℕ, ◌+◌, ◌≤◌, ◌<◌, String, ◌≡◌, ◌≢◌, refl, Bool, true, false, none, some, [], ◌∷◌, ◌==◌, string_eq,
  select, arith,
}
use zylo_office_backend.Cache.{
  Store, lookup, pop, get, set, invalidate_prefix, value_of, lifetime, set_lem, get_lem,
  invalidate_prefix_lem,
}

-- A value that expires at 60 and one that expires at 20.
abbrev store : Store ℕ
store = ("cities", (7, 60)) ∷ ("products", (8, 20)) ∷ []

-- Two keys are in the same family if both are of cities.
abbrev same_family : String → String → Bool
same_family key prefix = key == prefix

read_expired : get store 30 "products" ≡ (none, ("cities", (7, 60)) ∷ [])
unfolding get lookup pop select
read_expired = refl

set_lem_example :
    (50 < 30 + lifetime 60 none
      → value_of (set 60 store 30 "products" 9 none) 50 "products" ≡ some 9)
    × (30 + lifetime 60 none ≤ 50
        → value_of (set 60 store 30 "products" 9 none) 50 "products" ≡ none)
    × ((k : String)
        → k ≢ "products"
        → value_of (set 60 store 30 "products" 9 none) 50 k ≡ value_of store 50 k)
set_lem_example = set_lem 60 store 30 "products" 9 none 50

get_lem_example : value_of (get store 30 "products").1 40 "cities" ≡ value_of store 40 "cities"
get_lem_example = get_lem store 30 40 "products" "cities" (omega arith)

invalidate_prefix_lem_example :
    (same_family "cities" "cities" ≡ true
      → value_of (invalidate_prefix same_family store "cities") 40 "cities" ≡ none)
    × (same_family "cities" "cities" ≡ false
        → value_of (invalidate_prefix same_family store "cities") 40 "cities"
          ≡ value_of store 40 "cities")
invalidate_prefix_lem_example = invalidate_prefix_lem same_family store "cities" 40 "cities"

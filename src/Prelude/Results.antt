-- ===== src/Prelude/Results.antt =====
-- Fallible code: a value, or the error that ends the request. A request that raises commits
-- nothing, so an error carries no state.
use mathlib.Core.Path.{◌≡◌, refl}
use mathlib.Core.Bool.{Bool, true, false}
use mathlib.Core.Option.{Option, none, some}
use native.Mathlib.Omega.{arith}
use mathlib.Core.Logic.{◌⊎◌, inl, inr}
use mathlib.Core.List.{List, [], ◌∷◌}
use zylo_office_backend.Prelude.Lists.{In}

-- The codes of the `AppError`s that the modelled code raises, the violation of a
-- constraint of the database, and SQLAlchemy's `MultipleResultsFound` and `NoResultFound`.
pub data AppError : Type 0 where
  permission_denied permission_not_found privilege_escalation_denied : AppError
  role_not_found role_code_already_used owner_role_immutable : AppError
  role_already_assigned role_not_assigned : AppError
  invalid_grant_effect invalid_delegation_source grant_not_found : AppError
  alert_not_found alert_not_active alert_already_resolved : AppError
  alert_requires_automatic_verification resolution_note_required : AppError
  module_not_found module_not_activated module_inactive : AppError
  plan_not_found subscription_already_active : AppError
  invalid_credentials account_inactive invalid_refresh_token invalid_token : AppError
  email_already_used organization_not_found not_organization_member : AppError
  station_not_found fuel_product_not_found currency_not_found tank_not_found : AppError
  commercial_account_required commercial_account_not_applicable : AppError
  commercial_account_not_found commercial_account_inactive credit_limit_exceeded : AppError
  vehicle_not_found driver_not_found pump_not_found : AppError
  receivable_not_found receivable_already_settled exchange_rate_required : AppError
  sellable_product_not_found insufficient_stock : AppError
  product_sale_transaction_not_found already_cancelled : AppError
  declaration_not_found declaration_already_locked declaration_locked : AppError
  price_conflict_same_period price_history_not_found : AppError
  currency_required_for_network_default station_currency_not_resolvable : AppError
  delivery_declaration_line_superseded delivery_detected_not_found : AppError
  delivery_declaration_line_not_found delivery_detected_already_reconciled : AppError
  integrity_error multiple_results_found no_result_found : AppError

pub data Result {ℓ} (A : Type ℓ) : Type ℓ where
  ok : A → Result A
  err : AppError → Result A

infixl 5 ◌>>=◌ ◌>>◌
abbrev pub ◌>>=◌ {ℓ κ} :
    {Value : Type ℓ} {Next : Type κ} → Result Value → (Value → Result Next) → Result Next
err problem >>= next = err problem
ok value >>= next = next value

abbrev pub ◌>>◌ {ℓ} : {Next : Type ℓ} → Result (Unit {0}) → Result Next → Result Next
check >> next = check >>= λ _. next

-- `if not b: raise e`
abbrev pub guard : Bool → AppError → Result (Unit {0})
guard false problem = err problem
guard true problem = ok tt

module _ {ℓ} {A : Type ℓ} where
  -- `if row is None: raise e`
  abbrev pub or_raise : Option A → AppError → Result A
  or_raise none e = err e
  or_raise (some a) e = ok a

  -- SQLAlchemy's `Result.scalar_one_or_none`: two rows are an error.
  unfoldable pub scalar_one_or_none : List A → Result (Option A)
  scalar_one_or_none [] = ok none
  scalar_one_or_none (x ∷ []) = ok (some x)
  scalar_one_or_none (x ∷ y ∷ rest) = err multiple_results_found

  pub >>=-eq-ok {κ} :
      {Next : Type κ} (m : Result A) (f : A → Result Next) {last : Next}
      → (m >>= f) ≡ ok last
      → (value : A) × (m ≡ ok value) × (f value ≡ ok last)
  >>=-eq-ok (ok a) f h = (a, refl, h)
  >>=-eq-ok (err e) f h = cc

pub guard-eq-ok : (b : Bool) (e : AppError) {u : Unit {0}} → guard b e ≡ ok u → b ≡ true
guard-eq-ok true e h = refl
guard-eq-ok false e h = cc

pub or_raise-eq-ok {ℓ} :
    {A : Type ℓ} (o : Option A) (e : AppError) {a : A} → or_raise o e ≡ ok a → o ≡ some a
or_raise-eq-ok none e h = cc
or_raise-eq-ok (some x) e h = cc

pub scalar_one_or_none-in :
    {A : Type 0} (xs : List A) (a : A) → scalar_one_or_none xs ≡ ok (some a) → In a xs
unfolding scalar_one_or_none
scalar_one_or_none-in [] a h = cc
scalar_one_or_none-in (x ∷ []) a h = inl (ground arith)
scalar_one_or_none-in (x ∷ y ∷ rest) a h = cc

pub scalar_one_or_none-none {ℓ} :
    {A : Type ℓ} (xs : List A) → scalar_one_or_none xs ≡ ok none → xs ≡ []
unfolding scalar_one_or_none
scalar_one_or_none-none [] h = refl
scalar_one_or_none-none (x ∷ []) h = cc
scalar_one_or_none-none (x ∷ y ∷ rest) h = cc

-- A guard that was passed, and what ran after it.
pub guard->>-eq-ok {ℓ} :
    {A : Type ℓ} (b : Bool) (e : AppError) (m : Result A) {v : A}
    → (guard b e >> m) ≡ ok v
    → (b ≡ true) × (m ≡ ok v)
guard->>-eq-ok true e m h = (refl, h)
guard->>-eq-ok false e m h = cc

pub >>=-eq-err {ℓ κ} :
    {A : Type ℓ} {B : Type κ} (m : Result A) (f : A → Result B) {e : AppError}
    → (m >>= f) ≡ err e
    → (m ≡ err e) ⊎ ((value : A) × (m ≡ ok value) × (f value ≡ err e))
>>=-eq-err (ok a) f h = inr (a, refl, h)
>>=-eq-err (err x) f h = inl (ground arith)

pub guard->>-eq-err {ℓ} :
    {A : Type ℓ} (b : Bool) (e : AppError) (m : Result A) {x : AppError}
    → (guard b e >> m) ≡ err x
    → ((b ≡ false) × (e ≡ x)) ⊎ ((b ≡ true) × (m ≡ err x))
guard->>-eq-err true e m h = inr (refl, h)
guard->>-eq-err false e m h = inl (refl, ground arith)

pub or_raise-eq-err {ℓ} :
    {A : Type ℓ} (o : Option A) (e : AppError) {x : AppError} → or_raise o e ≡ err x → e ≡ x
or_raise-eq-err none e h = ground arith
or_raise-eq-err (some a) e h = cc

pub scalar_one_or_none-eq-err {ℓ} :
    {A : Type ℓ} (xs : List A) {x : AppError}
    → scalar_one_or_none xs ≡ err x
    → multiple_results_found ≡ x
unfolding scalar_one_or_none
scalar_one_or_none-eq-err [] h = cc
scalar_one_or_none-eq-err (y ∷ []) h = cc
scalar_one_or_none-eq-err (y ∷ z ∷ rest) h = ground arith

pub ok-pair {ℓ κ} :
    {A : Type ℓ} {B : Type κ} (a c : A) (b d : B)
    → ◌≡◌ {A = Result (A × B)} (ok (a, b)) (ok (c, d))
    → (a ≡ c) × (b ≡ d)
ok-pair a c b d h = (ground arith, ground arith)

pub ok-injective {ℓ} : {A : Type ℓ} (a b : A) → ◌≡◌ {A = Result A} (ok a) (ok b) → a ≡ b
ok-injective a b h = ground arith

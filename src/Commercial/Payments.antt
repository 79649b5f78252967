-- ===== src/Commercial/Payments.antt =====
-- Payments of receivables (`create_payment`).
pub mod Settlement
use zylo_office_backend.Prelude.{
  ℕ, ◌+◌, ◌*◌, String, Bool, true, false, not, ◌&&◌, ◌||◌, Option, none, some, List, [], ◌∷◌, ◌++◌,
  map, ◌==◌, string_eq, nat_eq, is_none, leb, ltb, if◌then◌else◌, select, any, find, Result, ok,
  guard, or_raise, receivable_not_found, receivable_already_settled, currency_not_found,
  exchange_rate_required, ◌>>=◌, ◌>>◌,
}
use zylo_office_backend.Commercial.Tables.{Receivable, Payment, CommercialDb}
use zylo_office_backend.Commercial.Sales.{check_org_scope, get_commercial_account_or_404}

-- A rate of one.
abbrev pub rate_one : ℕ
rate_one = 100_000_000

-- What a payment counts for in the currency of the receivable, in units of a rate's last decimal.
unfoldable pub converted : Receivable → Payment → ℕ
converted r p =
    if p.currency_id == r.currency_id
    then p.amount * rate_one
    else elim p.exchange_rate_applied [ none ↦ 0 | some rate ↦ p.amount * rate ]

abbrev pub sum_converted : Receivable → List Payment → ℕ
sum_converted r [] = 0
sum_converted r (p ∷ ps) = converted r p + sum_converted r ps

-- `total_paid_in_receivable_currency`, over all payments of the receivable.
unfoldable pub total_paid : Receivable → List Payment → ℕ
unfolding converted
total_paid r payments = sum_converted r (select (λ (p : Payment). p.receivable_id == r.id) payments)

pub record CreatePaymentRequest : Type 0 where
  pub receivable_id : ℕ
  pub paid_at : ℕ
  pub amount : ℕ
  pub currency_id : ℕ
  pub exchange_rate_applied : Option ℕ
  pub method : Option String

abbrev pub new_payment : Receivable → ℕ → CreatePaymentRequest → ℕ → Payment
new_payment r actor_user_id req fresh = record {
  id = fresh;
  receivable_id = r.id;
  author_user_id = actor_user_id;
  paid_at = req.paid_at;
  amount = req.amount;
  currency_id = req.currency_id;
  exchange_rate_applied = req.exchange_rate_applied;
  method = req.method;
}

-- The status that the payments give; with nothing paid it stays as it is.
unfoldable pub settled_status : Receivable → ℕ → String
settled_status r paid =
    if leb (r.amount * rate_one) paid
    then "settled"
    else if ltb 0 paid
    then "partially_settled"
    else r.status

-- The change of the row that was read by its id.
abbrev pub set_status : ℕ → String → List Receivable → List Receivable
set_status i status =
    map (λ (x : Receivable). if x.id == i then record x { status = status } else x)

unfoldable pub create_payment :
    CommercialDb → ℕ → ℕ → ℕ → CreatePaymentRequest → ℕ → Result (Payment × CommercialDb)
unfolding total_paid settled_status
create_payment db now organization_id actor_user_id req fresh = do
  check_org_scope db now organization_id actor_user_id "zyloLiquid.payment.create"
  r ←
      or_raise (find (λ (x : Receivable). x.id == req.receivable_id) db.receivables)
        receivable_not_found
  account ← get_commercial_account_or_404 db organization_id r.commercial_account_id
  guard (not (r.status == "settled")) receivable_already_settled
  guard (any (λ (c : ℕ). c == req.currency_id) db.currencies) currency_not_found
  guard (req.currency_id == r.currency_id || not (is_none req.exchange_rate_applied))
      exchange_rate_required
  let payment = new_payment r actor_user_id req fresh
  let payments = db.payments ++ payment ∷ []
  ok (
    payment,
    record db {
      payments = payments;
      receivables = set_status r.id (settled_status r (total_paid r payments)) db.receivables;
    },
  )

-- ===== src/Commercial/Payments/Settlement.antt =====
-- The status of a receivable, from its payments (`create_payment`).
use zylo_office_backend.Prelude.{
  any, ◌||◌, is_none, currency_not_found, exchange_rate_required, or_raise, receivable_not_found,
  subst, ℕ, ◌+◌, ◌*◌, String, false, not, ◌≡◌, refl, sym, ap, ◌∙◌, ◌⊎◌, inl, inr, List, [], ◌∷◌,
  ◌++◌, ◌==◌, string_eq, nat_eq, leb, ltb, if◌then◌else◌, select, find, ok, In, Bool-cases, arith,
  beq_sound, beq_true, ne_sound, ne_false, in-map, select-append, >>=-eq-ok, guard->>-eq-ok,
  or_raise-eq-ok, find-some, find-in, ok-pair, not-true,
}
use zylo_office_backend.Commercial.Tables.{Receivable, Payment, CommercialDb}
use zylo_office_backend.Commercial.Sales.{check_org_scope, get_commercial_account_or_404}
use zylo_office_backend.Commercial.Payments.{
  converted, sum_converted, total_paid, CreatePaymentRequest, new_payment, settled_status,
  set_status, create_payment, rate_one,
}

-- The status that an amount has when so much of it is paid.
unfoldable pub standing : ℕ → ℕ → String
standing amount paid =
    if leb (amount * rate_one) paid
    then "settled"
    else if ltb 0 paid
    then "partially_settled"
    else "open"

-- The status of every receivable is the one its payments give.
abbrev pub IsSettled : CommercialDb → Type 0
IsSettled db =
    (r : Receivable) → In r db.receivables → r.status ≡ standing r.amount (total_paid r db.payments)

-- Ids are primary keys.
abbrev pub HasKeys : CommercialDb → Type 0
HasKeys db = (r s : Receivable) → In r db.receivables → In s db.receivables → r.id ≡ s.id → r ≡ s

pub sum_converted-append :
    (r : Receivable) (ps qs : List Payment)
    → sum_converted r (ps ++ qs) ≡ sum_converted r ps + sum_converted r qs
sum_converted-append r [] qs = omega arith
sum_converted-append r (p ∷ ps) qs = ground (arith, sum_converted-append r ps qs)

sum_converted-status :
    (r : Receivable) (status : String) (ps : List Payment)
    → sum_converted (record r { status = status }) ps ≡ sum_converted r ps
unfolding converted
sum_converted-status r status [] = refl
sum_converted-status r status (p ∷ ps) =
    ap (λ n. converted r p + n) (sum_converted-status r status ps)

pub total_paid-status :
    (r : Receivable) (status : String) (ps : List Payment)
    → total_paid (record r { status = status }) ps ≡ total_paid r ps
unfolding total_paid
total_paid-status r status ps =
    sum_converted-status r status (select (λ (p : Payment). p.receivable_id == r.id) ps)

-- A payment of the receivable counts, one of another does not.
pub total_paid-own :
    (r : Receivable) (ps : List Payment) (p : Payment)
    → p.receivable_id ≡ r.id
    → total_paid r (ps ++ p ∷ []) ≡ total_paid r ps + converted r p
unfolding total_paid select
total_paid-own r ps p h =
    rw
      (
        select-append (λ (q : Payment). q.receivable_id == r.id) ps (p ∷ []),
        beq_true p.receivable_id r.id h,
        sum_converted-append r (select (λ (q : Payment). q.receivable_id == r.id) ps) (p ∷ []),
      )
      (ground arith)

pub total_paid-other :
    (r : Receivable) (ps : List Payment) (p : Payment)
    → ¬ (p.receivable_id ≡ r.id)
    → total_paid r (ps ++ p ∷ []) ≡ total_paid r ps
unfolding total_paid select
total_paid-other r ps p h =
    rw
      (
        select-append (λ (q : Payment). q.receivable_id == r.id) ps (p ∷ []),
        ne_false p.receivable_id r.id h,
        sum_converted-append r (select (λ (q : Payment). q.receivable_id == r.id) ps) [],
      )
      (ground arith)

-- What a payment that was accepted changed.
pub create_payment-parts :
    (db : CommercialDb) (now organization_id actor_user_id : ℕ) (req : CreatePaymentRequest)
    (fresh : ℕ) (p : Payment) (db' : CommercialDb)
    → create_payment db now organization_id actor_user_id req fresh ≡ ok (p, db')
    → (r : Receivable) × In r db.receivables
      × (r.id ≡ req.receivable_id)
      × (r.status == "settled" ≡ false)
      × (p ≡ new_payment r actor_user_id req fresh)
      × (db' ≡ record db {
        payments = db.payments ++ p ∷ [];
        receivables =
            set_status r.id
              (settled_status r (total_paid r (db.payments ++ p ∷ [])))
              db.receivables;
      })
unfolding create_payment
create_payment-parts db now organization_id actor_user_id req fresh p db' h =
    let (u, scope, h1) =
      >>=-eq-ok (check_org_scope db now organization_id actor_user_id "zyloLiquid.payment.create") _
        h in
    let (r, found, h2) =
      >>=-eq-ok
        (or_raise (find (λ (x : Receivable). x.id == req.receivable_id) db.receivables)
          receivable_not_found)
        _ h1 in
    let (account, has_account, h3) =
      >>=-eq-ok (get_commercial_account_or_404 db organization_id r.commercial_account_id) _ h2 in
    let (unsettled, h4) = guard->>-eq-ok (not (r.status == "settled")) _ _ h3 in
    let (known, h5) =
      guard->>-eq-ok (any (λ (c : ℕ). c == req.currency_id) db.currencies) currency_not_found _
        h4 in
    let (rated, h6) =
      guard->>-eq-ok (req.currency_id == r.currency_id || not (is_none req.exchange_rate_applied))
        exchange_rate_required _ h5 in
    let is_r = or_raise-eq-ok _ receivable_not_found found in
    let (p_eq, db_eq) = ok-pair _ p _ db' h6 in
    (
      r,
      find-in _ db.receivables is_r,
      beq_sound r.id req.receivable_id
          (find-some (λ (x : Receivable). x.id == req.receivable_id) db.receivables r is_r),
      not-true _ unsettled,
      sym p_eq,
      subst
          (λ q. db' ≡ record db {
            payments = db.payments ++ q ∷ [];
            receivables =
                set_status r.id (settled_status r (total_paid r (db.payments ++ q ∷ [])))
                  db.receivables;
          })
          p_eq (sym db_eq),
    )

-- A status in terms of what was paid before, when it was in step with that.
settled_status_lem :
    (r : Receivable) (before more : ℕ)
    → r.status ≡ standing r.amount before
    → (r.status == "settled") ≡ false
    → settled_status r (before + more) ≡ standing r.amount (before + more)
unfolding settled_status standing
settled_status_lem r before more h unsettled =
    elim (Bool-cases (leb (r.amount * rate_one) (before + more))) [
      | inl e ↦ rw e refl
      | inr e ↦ elim (Bool-cases (ltb 0 (before + more))) [
        | inl f ↦ rw (e, f) refl
        | inr f ↦
            let unpaid : leb (r.amount * rate_one) before ≡ false = ground arith in
            let nothing : ltb 0 before ≡ false = ground arith in
            rw (e, f) (rw (unpaid, nothing) at h)
      ]
    ]

-- A row after the change is the changed row or another one.
pub set_status-in :
    (i : ℕ) (status : String) (x : Receivable) (rows : List Receivable)
    → In x (set_status i status rows)
    → (y : Receivable) × In y rows
      × (((y.id ≡ i) × (x ≡ record y { status = status })) ⊎ ((¬ (y.id ≡ i)) × (x ≡ y)))
set_status-in i status x rows m =
    let (y, row, e) =
      (in-map (λ (y : Receivable). if y.id == i then record y { status = status } else y) x rows).0
        m in
    (
      y,
      row,
      elim (Bool-cases (y.id == i)) [
        | inl t ↦ inl (beq_sound y.id i t, rw t at e)
        | inr f ↦ inr (ne_sound y.id i f, rw f at e)
      ],
    )

-- The rows after a payment `p` of `r`.
paid-rows :
    (db : CommercialDb) (r x : Receivable) (p : Payment)
    → HasKeys db
    → IsSettled db
    → In r db.receivables
    → (r.status == "settled") ≡ false
    → p.receivable_id ≡ r.id
    → In x
        (set_status r.id (settled_status r (total_paid r (db.payments ++ p ∷ []))) db.receivables)
    → x.status ≡ standing x.amount (total_paid x (db.payments ++ p ∷ []))
paid-rows db r x p keys settled row unsettled own m =
    let after = db.payments ++ p ∷ [] in
    let now_ = settled_status r (total_paid r after) in
    let (y, y_row, how) = set_status-in r.id now_ x db.receivables m in
    elim how [
      | inl (same, x_eq) ↦
          let y_eq : y ≡ r = keys y r y_row row same in
          let counted = total_paid-own r db.payments p own in
          let step : now_ ≡ standing r.amount (total_paid r after) = rw counted (
            settled_status_lem r (total_paid r db.payments) (converted r p) (settled r row)
              unsettled) in
          rw (x_eq, y_eq, total_paid-status r now_ after) step
      | inr (other, x_eq) ↦
          rw (x_eq, total_paid-other y db.payments p (λ e. other (sym e ∙ own))) (settled y y_row)
    ]

-- A payment keeps the status of every receivable in step with all of its payments, for a table
-- whose ids are unique and in which it was so before.
pub create_payment-IsSettled :
    (db : CommercialDb) (now organization_id actor_user_id : ℕ) (req : CreatePaymentRequest)
    (fresh : ℕ) (p : Payment) (db' : CommercialDb)
    → HasKeys db
    → IsSettled db
    → create_payment db now organization_id actor_user_id req fresh ≡ ok (p, db')
    → IsSettled db'
create_payment-IsSettled db now organization_id actor_user_id req fresh p db' keys settled done =
    let (r, row, same_id, unsettled, p_eq, db_eq) =
      create_payment-parts db now organization_id actor_user_id req fresh p db' done in
    rw db_eq (λ x m.
      paid-rows db r x p keys settled row unsettled (ap (λ (q : Payment). q.receivable_id) p_eq) m)

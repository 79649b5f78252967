-- ===== src/Commercial/Ledger/Sold.antt =====
-- What a sale changes in the ledger (`create_sale`).
use zylo_office_backend.Prelude.{
  ℕ, ◌+◌, ◌≤◌, ◌<◌, ◌≡◌, refl, sym, ◌∙◌, inl, inr, Option, none, some, List, [], ◌∷◌, ◌++◌, ◌==◌,
  string_eq, nat_eq, if◌then◌else◌, select, ok, In, Bool-cases, arith, in-append, beq_sound,
  ne_false, subst,
}
use zylo_office_backend.Commercial.Tables.{
  Receivable, Payment, Sale, CommercialAccount, CommercialDb,
}
use zylo_office_backend.Commercial.Sales.{
  CreateSaleRequest, create_sale, sale_amount, sale_account, new_receivable, opened, is_outstanding,
  outstanding,
}
use zylo_office_backend.Commercial.Payments.{total_paid}
use zylo_office_backend.Commercial.Sales.Credit.{
  outstanding-append, check_credit_lem, sale_account_lem, create_sale-parts,
}
use zylo_office_backend.Commercial.Payments.Settlement.{standing, HasKeys}
use zylo_office_backend.Commercial.Ledger.{IsWithinLimits, HasAccountKeys, IsSound, IsFresh}

unpaid :
    (r : Receivable) (ps : List Payment)
    → ((p : Payment) → In p ps → ¬ (p.receivable_id ≡ r.id))
    → total_paid r ps ≡ 0
unfolding total_paid select
unpaid r [] h = refl
unpaid r (p ∷ ps) h =
    rw (ne_false p.receivable_id r.id (h p (inl refl))) (unpaid r ps (λ q m. h q (inr m)))

open_standing : (amount : ℕ) → 0 < amount → standing amount 0 ≡ "open"
unfolding standing
open_standing amount h = ground arith

-- Opening receivables keeps keys and statuses.
opened-rows :
    (db : CommercialDb) (o : Option CommercialAccount) (req : CreateSaleRequest)
    (fresh_sale fresh : ℕ)
    → 0 < sale_amount req
    → IsFresh db fresh
    → (r : Receivable) → In r (opened o req fresh_sale fresh)
    → r.status ≡ standing r.amount (total_paid r db.payments)
opened-rows db none req fresh_sale fresh positive is_fresh r m = absurd m
opened-rows db (some a) req fresh_sale fresh positive is_fresh r m = elim m [
  | inl e ↦ rw e (
      rw (unpaid (new_receivable a req fresh_sale fresh) db.payments is_fresh.1)
        (sym (open_standing (sale_amount req) positive)))
  | inr k ↦ absurd k
]

opened-id :
    (o : Option CommercialAccount) (req : CreateSaleRequest) (fresh_sale fresh : ℕ) (r : Receivable)
    → In r (opened o req fresh_sale fresh)
    → r.id ≡ fresh
opened-id none req fresh_sale fresh r m = absurd m
opened-id (some a) req fresh_sale fresh r m = elim m [ inl e ↦ rw e refl | inr k ↦ absurd k ]

opened_unique :
    (o : Option CommercialAccount) (req : CreateSaleRequest) (fresh_sale fresh : ℕ)
    (r s : Receivable)
    → In r (opened o req fresh_sale fresh)
    → In s (opened o req fresh_sale fresh)
    → r ≡ s
opened_unique none req fresh_sale fresh r s m n = absurd m
opened_unique (some a) req fresh_sale fresh r s m n = elim m [
  | inl e ↦ elim n [ inl f ↦ e ∙ sym f | inr k ↦ absurd k ]
  | inr k ↦ absurd k
]

opened_debt :
    (b : CommercialAccount) (req : CreateSaleRequest) (fresh_sale fresh i : ℕ)
    → outstanding (new_receivable b req fresh_sale fresh ∷ []) i
      ≡ (if b.id == i then sale_amount req else 0)
unfolding outstanding select is_outstanding
opened_debt b req fresh_sale fresh i = elim (Bool-cases (b.id == i)) [
  | inl e ↦ rw e (omega arith)
  | inr e ↦ rw e refl
]

-- What a sale adds to an account's debt leaves it within its limit.
opened-within :
    (db : CommercialDb) (organization_id : ℕ) (o : Option CommercialAccount)
    (req : CreateSaleRequest) (fresh_sale fresh : ℕ) (a : CommercialAccount)
    → HasAccountKeys db
    → IsWithinLimits db
    → sale_account db organization_id req ≡ ok o
    → In a db.accounts
    → outstanding db.receivables a.id + outstanding (opened o req fresh_sale fresh) a.id
      ≤ a.credit_limit
unfolding outstanding select
opened-within db organization_id none req fresh_sale fresh a keys within checked row =
    let w = within a row in omega arith
opened-within db organization_id (some b) req fresh_sale fresh a keys within checked row =
    let (b_row, named, ours, is_active, room) =
      check_credit_lem db organization_id req b
        (sale_account_lem db organization_id req b checked) in
    elim (Bool-cases (b.id == a.id)) [
      | inl e ↦
          let same : b ≡ a = keys b a b_row row (beq_sound b.id a.id e) in
          let fits =
            subst
              (λ (x : CommercialAccount).
                outstanding db.receivables x.id + sale_amount req ≤ x.credit_limit)
              same room in
          rw (opened_debt b req fresh_sale fresh a.id, e) fits
      | inr e ↦
          let w = within a row in rw (opened_debt b req fresh_sale fresh a.id, e) (omega arith)
    ]

opened-HasKeys :
    (db : CommercialDb) (o : Option CommercialAccount) (req : CreateSaleRequest)
    (fresh_sale fresh : ℕ)
    → HasKeys db
    → IsFresh db fresh
    → HasKeys (record db { receivables = db.receivables ++ opened o req fresh_sale fresh })
opened-HasKeys db o req fresh_sale fresh keys is_fresh r s m n e =
    let rows = opened-id o req fresh_sale fresh in
    elim ((in-append r db.receivables (opened o req fresh_sale fresh)).0 m) [
      | inl k ↦ elim ((in-append s db.receivables (opened o req fresh_sale fresh)).0 n) [
        | inl l ↦ keys r s k l e
        | inr l ↦ absurd (is_fresh.0 r k (e ∙ rows s l))
      ]
      | inr k ↦ elim ((in-append s db.receivables (opened o req fresh_sale fresh)).0 n) [
        | inl l ↦ absurd (is_fresh.0 s l (sym e ∙ rows r k))
        | inr l ↦ opened_unique o req fresh_sale fresh r s k l
      ]
    ]

-- A sale keeps the ledger sound: on credit it opens one receivable, for which there is room.
pub sold-IsSound :
    (db : CommercialDb) (now organization_id actor_user_id : ℕ) (req : CreateSaleRequest)
    (fresh_sale fresh : ℕ) (s : Sale) (db' : CommercialDb)
    → 0 < sale_amount req
    → IsFresh db fresh
    → create_sale db now organization_id actor_user_id req fresh_sale fresh ≡ ok (s, db')
    → IsSound db
    → IsSound db'
sold-IsSound db now organization_id actor_user_id req fresh_sale fresh s db' positive is_fresh done
      sound =
    let (o, checked, db_eq) =
      create_sale-parts db now organization_id actor_user_id req fresh_sale fresh s db' done in
    let rows = opened-rows db o req fresh_sale fresh positive is_fresh in
    rw db_eq (record {
      keys = opened-HasKeys db o req fresh_sale fresh sound.keys is_fresh;
      account_keys = sound.account_keys;
      settled = λ r m. elim ((in-append r db.receivables (opened o req fresh_sale fresh)).0 m) [
        | inl k ↦ sound.settled r k
        | inr k ↦ rows r k
      ];
      within = λ a m. rw (outstanding-append db.receivables (opened o req fresh_sale fresh) a.id) (
          opened-within db organization_id o req fresh_sale fresh a sound.account_keys sound.within
            checked m);
    })

-- ===== src/Commercial/Shop/Debt.antt =====
-- The debt that a ticket on credit opens (`create_product_sale_transaction`).
use mathlib.Core.Option
use zylo_office_backend.Prelude.{
  Bool, map, find, Option-cases, Bool-cases, inl, inr, ℕ, ◌+◌, true, ◌≡◌, refl, sym, ap, ◌∙◌, some,
  List, [], ◌∷◌, ◌==◌, nat_eq, string_eq, ok, or_raise, In, arith, beq_true, >>=-eq-ok,
  ok-injective, or_raise-eq-ok, select, commercial_account_required,
}
use zylo_office_backend.Commercial.Tables.{
  CommercialAccount, Receivable, ProductSaleTransaction, SellableProduct, CommercialDb,
}
use zylo_office_backend.Commercial.Sales.{
  check_declaration_scope, get_commercial_account_or_404, outstanding, is_outstanding,
}
use zylo_office_backend.Commercial.Sales.Credit.{
  outstanding-append, get_commercial_account_or_404_lem,
}
use zylo_office_backend.Commercial.Shop.{
  ProductSaleLineRequest, build_lines, CreateProductSaleTransactionRequest, shop_credit,
  shop_receivable, new_transaction, create_product_sale_transaction,
}
use zylo_office_backend.Commercial.Shop.Tickets.{create_product_sale_transaction-parts}

shop_credit_lem :
    (db : CommercialDb) (organization_id : ℕ) (t : ProductSaleTransaction) (fresh : ℕ)
    (rs : List Receivable)
    → (t.payment_method == "credit") ≡ true
    → shop_credit db organization_id t fresh ≡ ok rs
    → (a : CommercialAccount) × In a db.accounts
      × (a.organization_id ≡ organization_id)
      × (t.commercial_account_id ≡ some a.id)
      × (shop_receivable a t fresh ∷ [] ≡ rs)
unfolding shop_credit
shop_credit_lem db organization_id t fresh rs on_credit h =
    let (i, named, h1) =
      >>=-eq-ok (or_raise t.commercial_account_id commercial_account_required) _
        (rw on_credit at h) in
    let (a, found, h2) = >>=-eq-ok (get_commercial_account_or_404 db organization_id i) _ h1 in
    let (row, same, ours) = get_commercial_account_or_404_lem db organization_id i a found in
    (
      a,
      row,
      ours,
      rw same (or_raise-eq-ok _ commercial_account_required named),
      ok-injective (shop_receivable a t fresh ∷ []) rs h2,
    )

new_debt :
    (a : CommercialAccount) (t : ProductSaleTransaction) (fresh : ℕ)
    → outstanding (shop_receivable a t fresh ∷ []) a.id ≡ t.total_amount
unfolding outstanding select is_outstanding
new_debt a t fresh = rw (beq_true a.id a.id refl) (omega arith)

-- The accounts with another limit and another state.
abbrev pub new_terms : ℕ → Bool → CommercialAccount → CommercialAccount
new_terms limit active a = record a { credit_limit = limit; active = active }

abbrev pub with_terms : ℕ → Bool → CommercialDb → CommercialDb
with_terms limit active db = record db { accounts = map (new_terms limit active) db.accounts }

module _ (limit : ℕ) (active : Bool) where
  find-terms :
      (i : ℕ) (accounts : List CommercialAccount)
      → find (λ (a : CommercialAccount). a.id == i) (map (new_terms limit active) accounts)
        ≡ Option.map (new_terms limit active) (find (λ (a : CommercialAccount). a.id == i) accounts)
  unfolding find
  find-terms i [] = refl
  find-terms i (a ∷ rest) = elim (Bool-cases (a.id == i)) [
    | inl e ↦ rw e refl
    | inr e ↦ rw e (find-terms i rest)
  ]

  build_lines-terms :
      (db : CommercialDb) (organization_id i : ℕ) (qs : List ProductSaleLineRequest)
      → build_lines (with_terms limit active db) organization_id i qs
        ≡ build_lines db organization_id i qs
  unfolding build_lines
  build_lines-terms db organization_id i [] = refl
  build_lines-terms db organization_id i (q ∷ qs) =
      let rest = build_lines-terms db organization_id i qs in
      elim (Option-cases
        (find (λ (p : SellableProduct). p.id == q.sellable_product_id) db.products)) [
          | inl e ↦ rw e refl
          | inr (p, e) ↦ elim (Bool-cases (p.organization_id == organization_id)) [
            | inl f ↦ rw (e, f, rest) refl
            | inr f ↦ rw (e, f) refl
          ]
        ]

  shop_credit-terms :
      (db : CommercialDb) (organization_id : ℕ) (t : ProductSaleTransaction) (fresh : ℕ)
      → shop_credit (with_terms limit active db) organization_id t fresh
        ≡ shop_credit db organization_id t fresh
  unfolding shop_credit get_commercial_account_or_404
  shop_credit-terms db organization_id t fresh = elim (Bool-cases (t.payment_method == "credit")) [
    | inr no_credit ↦ rw no_credit refl
    | inl on_credit ↦ elim (Option-cases t.commercial_account_id) [
      | inl unnamed ↦ rw (on_credit, unnamed) refl
      | inr (i, named) ↦
          let terms = find-terms i db.accounts in
          elim (Option-cases (find (λ (a : CommercialAccount). a.id == i) db.accounts)) [
            | inl e ↦ rw (on_credit, named, terms, e) refl
            | inr (a, e) ↦ elim (Bool-cases (a.organization_id == organization_id)) [
              | inl f ↦ rw (on_credit, named, terms, e, f) refl
              | inr f ↦ rw (on_credit, named, terms, e, f) refl
            ]
          ]
    ]
  ]

  -- A ticket that is accepted is accepted whatever the limits and the states of the accounts.
  create_product_sale_transaction-terms :
      (db : CommercialDb) (now organization_id actor_user_id : ℕ)
      (req : CreateProductSaleTransactionRequest) (fresh fresh_receivable : ℕ)
      (t : ProductSaleTransaction) (db' : CommercialDb)
      → create_product_sale_transaction db now organization_id actor_user_id req fresh
          fresh_receivable
        ≡ ok (t, db')
      → create_product_sale_transaction
          (with_terms limit active db)
          now
          organization_id
          actor_user_id
          req
          fresh
          fresh_receivable
        ≡ ok (t, with_terms limit active db')
  unfolding create_product_sale_transaction check_declaration_scope
  create_product_sale_transaction-terms db now organization_id actor_user_id req fresh
        fresh_receivable t db' done =
      let parts =
        create_product_sale_transaction-parts db now organization_id actor_user_id req fresh
          fresh_receivable t db' done in
      let row = new_transaction req actor_user_id parts.lines fresh in
      let built = build_lines-terms db organization_id fresh req.lines ∙ parts.built in
      let credited = shop_credit-terms db organization_id row fresh_receivable ∙ parts.credited in
      rw
        (
          parts.ticket, parts.stored, parts.station_found, parts.ours, parts.allowed, built,
          parts.named, parts.method, credited, parts.stocked,
        )
        refl

-- A ticket on credit that is accepted names an account of the organisation, and adds its total to
-- what that account owes; and it is accepted, with the same ticket and the same debt, if every
-- account has any other limit and is active or not.
pub outstanding-create_product_sale_transaction :
    (db : CommercialDb) (now organization_id actor_user_id : ℕ)
    (req : CreateProductSaleTransactionRequest) (fresh fresh_receivable : ℕ)
    (t : ProductSaleTransaction) (db' : CommercialDb)
    → (req.payment_method == "credit") ≡ true
    → create_product_sale_transaction db now organization_id actor_user_id req fresh
        fresh_receivable
      ≡ ok (t, db')
    → (a : CommercialAccount) × In a db.accounts
      × (a.organization_id ≡ organization_id)
      × (req.commercial_account_id ≡ some a.id)
      × (outstanding db'.receivables a.id ≡ outstanding db.receivables a.id + t.total_amount)
      × ((limit : ℕ) (active : Bool)
          → create_product_sale_transaction
              (with_terms limit active db)
              now
              organization_id
              actor_user_id
              req
              fresh
              fresh_receivable
            ≡ ok (t, with_terms limit active db'))
outstanding-create_product_sale_transaction db now organization_id actor_user_id req fresh
      fresh_receivable t db' on_credit done =
    let parts =
      create_product_sale_transaction-parts db now organization_id actor_user_id req fresh
        fresh_receivable t db' done in
    let row = new_transaction req actor_user_id parts.lines fresh in
    let (a, a_row, ours, named, opened) =
      shop_credit_lem db organization_id row fresh_receivable parts.receivables on_credit
        parts.credited in
    (
      a,
      a_row,
      ours,
      named,
      rw (parts.stored, parts.ticket)
          (outstanding-append db.receivables parts.receivables a.id
            ∙ ap (λ (rs : List Receivable). outstanding db.receivables a.id + outstanding rs a.id)
                (sym opened)
            ∙ ap (λ (n : ℕ). outstanding db.receivables a.id + n)
                (new_debt a row fresh_receivable)),
      (λ limit active.
          create_product_sale_transaction-terms limit active db now organization_id actor_user_id
            req fresh fresh_receivable t db' done),
    )

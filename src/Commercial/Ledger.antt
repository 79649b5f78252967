-- ===== src/Commercial/Ledger.antt =====
-- The ledger of the credit accounts: sales and payments together (`create_sale`, `create_payment`).
pub mod Sold
pub mod Paid
pub mod Bounds
use zylo_office_backend.Prelude.{
  ℕ, ◌+◌, ◌*◌, ◌≤◌, ◌<◌, String, Bool, true, false, ◌&&◌, ◌||◌, ◌≡◌, refl, sym, ap, ◌∙◌, inl, inr,
  Option, none, some, List, [], ◌∷◌, ◌++◌, map, ◌==◌, string_eq, nat_eq, leb, ltb, if◌then◌else◌,
  select, Result, ok, In, Bool-cases, arith, in-append, in-map, beq_true, ne_false, subst,
}
use zylo_office_backend.Commercial.Tables.{
  Receivable, Payment, Sale, CommercialAccount, CommercialDb,
}
use zylo_office_backend.Commercial.Sales.{
  CreateSaleRequest, create_sale, sale_amount, sale_account, new_receivable, opened, is_outstanding,
  sum_amounts, outstanding,
}
use zylo_office_backend.Commercial.Payments.{
  CreatePaymentRequest, create_payment, converted, sum_converted, total_paid, settled_status,
  set_status, rate_one,
}
use zylo_office_backend.Commercial.Sales.Credit.{
  outstanding-append, check_credit_lem, sale_account_lem, create_sale-parts,
}
use zylo_office_backend.Commercial.Payments.Settlement.{
  standing, IsSettled, HasKeys, create_payment-parts, create_payment-IsSettled,
}

-- No account owes more than its limit.
abbrev pub IsWithinLimits : CommercialDb → Type 0
IsWithinLimits db =
    (a : CommercialAccount) → In a db.accounts → outstanding db.receivables a.id ≤ a.credit_limit

abbrev pub HasAccountKeys : CommercialDb → Type 0
HasAccountKeys db =
    (a b : CommercialAccount) → In a db.accounts → In b db.accounts → a.id ≡ b.id → a ≡ b

pub record IsSound (db : CommercialDb) : Type 0 where
  pub keys : HasKeys db
  pub account_keys : HasAccountKeys db
  pub settled : IsSettled db
  pub within : IsWithinLimits db

-- An id that the database has not given yet.
abbrev pub IsFresh : CommercialDb → ℕ → Type 0
IsFresh db i =
    ((r : Receivable) → In r db.receivables → ¬ (r.id ≡ i))
    × ((p : Payment) → In p db.payments → ¬ (p.receivable_id ≡ i))

-- One request that the ledger accepts. Quantities and prices of a request are positive.
pub data LedgerStep (db db' : CommercialDb) : Type 0 where
  sold :
      (now organization_id actor_user_id : ℕ) (req : CreateSaleRequest) (fresh_sale fresh : ℕ)
      (s : Sale)
      → 0 < sale_amount req
      → IsFresh db fresh
      → create_sale db now organization_id actor_user_id req fresh_sale fresh ≡ ok (s, db')
      → LedgerStep db db'
  paid :
      (now organization_id actor_user_id : ℕ) (req : CreatePaymentRequest) (fresh : ℕ) (p : Payment)
      → create_payment db now organization_id actor_user_id req fresh ≡ ok (p, db')
      → LedgerStep db db'

pub data LedgerReach (db : CommercialDb) : CommercialDb → Type 0 where
  here : LedgerReach db db
  next : {mid last : CommercialDb} → LedgerReach db mid → LedgerStep mid last → LedgerReach db last

-- ===== src/Commercial/Ledger/Paid.antt =====
-- What a payment changes in the ledger (`create_payment`).
use zylo_office_backend.Prelude.{
  ℕ, ◌+◌, ◌*◌, ◌≤◌, String, Bool, true, false, ◌||◌, ◌≡◌, refl, sym, ap, ◌∙◌, inl, inr, List, [],
  ◌∷◌, ◌++◌, ◌==◌, string_eq, nat_eq, leb, ltb, if◌then◌else◌, select, ok, In, Bool-cases, arith,
  in-map, beq_true, beq_sound, subst,
}
use zylo_office_backend.Commercial.Tables.{Receivable, Payment, CommercialDb}
use zylo_office_backend.Commercial.Sales.{is_outstanding, outstanding}
use zylo_office_backend.Commercial.Payments.{
  CreatePaymentRequest, create_payment, total_paid, settled_status, set_status, rate_one,
}
use zylo_office_backend.Commercial.Payments.Settlement.{
  standing, HasKeys, create_payment-parts, create_payment-IsSettled,
}
use zylo_office_backend.Commercial.Ledger.{IsSound}

-- A status that a payment may change, and so one that counts already.
owes : Receivable → Bool
owes r = r.status == "open" || r.status == "partially_settled"

outstanding-cons :
    (r : Receivable) (rs : List Receivable) (i : ℕ)
    → outstanding (r ∷ rs) i ≡ (if is_outstanding i r then r.amount else 0) + outstanding rs i
unfolding outstanding select
outstanding-cons r rs i = elim (Bool-cases (is_outstanding i r)) [
  | inl e ↦ rw e refl
  | inr e ↦ rw e (omega arith)
]

-- A row that counts already counts for no more with another status.
counts_once :
    (r : Receivable) (status : String) (i : ℕ)
    → owes r ≡ true
    → (if is_outstanding i (record r { status = status }) then r.amount else 0)
      ≤ (if is_outstanding i r then r.amount else 0)
unfolding is_outstanding owes
counts_once r status i h = elim (Bool-cases (r.commercial_account_id == i)) [
  | inl e ↦ rw (e, h) (ground arith)
  | inr e ↦ rw e (omega arith)
]

-- The change of rows that count already adds nothing to what an account owes.
outstanding-set_status :
    (i : ℕ) (status : String) (rows : List Receivable) (account_id : ℕ)
    → ((r : Receivable) → In r rows → r.id ≡ i → owes r ≡ true)
    → outstanding (set_status i status rows) account_id ≤ outstanding rows account_id
unfolding outstanding select
outstanding-set_status i status [] account_id h = omega arith
outstanding-set_status i status (r ∷ rs) account_id h =
    let rest = outstanding-set_status i status rs account_id (λ q m. h q (inr m)) in
    elim (Bool-cases (r.id == i)) [
      | inl e ↦
          let once = counts_once r status account_id (h r (inl refl) (beq_sound r.id i e)) in
          rw
            (
              e,
              outstanding-cons (record r { status = status }) (set_status i status rs) account_id,
              outstanding-cons r rs account_id,
            )
            (omega arith)
      | inr e ↦
          rw
            (
              e,
              outstanding-cons r (set_status i status rs) account_id,
              outstanding-cons r rs account_id,
            )
            (omega arith)
    ]

-- A receivable that is not settled owes.
unsettled-owes :
    (r : Receivable) (paid : ℕ)
    → r.status ≡ standing r.amount paid
    → (r.status == "settled") ≡ false
    → owes r ≡ true
unfolding owes standing
unsettled-owes r paid h unsettled = elim (Bool-cases (leb (r.amount * rate_one) paid)) [
  | inl e ↦
      let is_settled : r.status ≡ "settled" = rw e at h in
      cc (beq_true r.status "settled" is_settled)
  | inr e ↦ elim (Bool-cases (ltb 0 paid)) [
    | inl f ↦ let is_partial : r.status ≡ "partially_settled" = rw (e, f) at h in rw is_partial refl
    | inr f ↦ let is_open : r.status ≡ "open" = rw (e, f) at h in rw is_open refl
  ]
]

change : ℕ → String → Receivable → Receivable
change i status y = if y.id == i then record y { status = status } else y

change-id : (i : ℕ) (status : String) (y : Receivable) → (change i status y).id ≡ y.id
unfolding change
change-id i status y = elim (Bool-cases (y.id == i)) [ inl e ↦ rw e refl | inr e ↦ rw e refl ]

set_status-HasKeys :
    (db : CommercialDb) (i : ℕ) (status : String)
    → HasKeys db
    → HasKeys (record db { receivables = set_status i status db.receivables })
unfolding change
set_status-HasKeys db i status keys r s m n e =
    let (y, y_row, r_eq) = (in-map (change i status) r db.receivables).0 m in
    let (z, z_row, s_eq) = (in-map (change i status) s db.receivables).0 n in
    let ids : y.id ≡ z.id =
      sym (change-id i status y)
      ∙ ap (λ (x : Receivable). x.id) (sym r_eq)
      ∙ e
      ∙ ap (λ (x : Receivable). x.id) s_eq
      ∙ change-id i status z in
    r_eq ∙ ap (change i status) (keys y z y_row z_row ids) ∙ sym s_eq

-- A payment keeps the ledger sound.
pub paid-IsSound :
    (db : CommercialDb) (now organization_id actor_user_id : ℕ) (req : CreatePaymentRequest)
    (fresh : ℕ) (p : Payment) (db' : CommercialDb)
    → create_payment db now organization_id actor_user_id req fresh ≡ ok (p, db')
    → IsSound db
    → IsSound db'
paid-IsSound db now organization_id actor_user_id req fresh p db' done sound =
    let (r, row, same_id, unsettled, p_eq, db_eq) =
      create_payment-parts db now organization_id actor_user_id req fresh p db' done in
    let still =
      create_payment-IsSettled db now organization_id actor_user_id req fresh p db' sound.keys
        sound.settled done in
    let owed : owes r ≡ true =
      unsettled-owes r (total_paid r db.payments) (sound.settled r row) unsettled in
    let new_status = settled_status r (total_paid r (db.payments ++ p ∷ [])) in
    let less = λ (i : ℕ).
      outstanding-set_status r.id new_status db.receivables i
        (λ q m e. subst (λ (x : Receivable). owes x ≡ true) (keys_of sound row m e) owed) in
    record {
      keys = rw db_eq (set_status-HasKeys db r.id new_status sound.keys);
      account_keys = rw db_eq sound.account_keys;
      settled = still;
      within = rw db_eq (λ a m. let w = sound.within a m in let l = less a.id in omega arith);
    }
  where
    keys_of :
        {d : CommercialDb} {x y : Receivable}
        → IsSound d
        → In x d.receivables
        → In y d.receivables
        → y.id ≡ x.id
        → x ≡ y
    keys_of {d} {x} {y} k a b e = k.keys x y a b (sym e)

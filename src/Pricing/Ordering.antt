-- ===== src/Pricing/Ordering.antt =====
-- `ORDER BY effectiveFrom DESC` as a stable sort, and its agreement with `WHERE`.
use zylo_office_backend.Prelude.{
  ℕ, ◌≤◌, Bool, true, ◌&&◌, ◌≡◌, refl, ap, sym, inl, inr, Bool-cases, Option, none, some, List, [],
  ◌∷◌, if◌then◌else◌, leb, leb→le, le→leb, select, find, All, arith,
}
use zylo_office_backend.Pricing.Tables.{PriceHistory}

-- Before the first row that is not later.
abbrev pub insert_desc : PriceHistory → List PriceHistory → List PriceHistory
insert_desc p [] = p ∷ []
insert_desc p (q ∷ qs) =
    let rest = insert_desc p qs in
    if leb q.effective_from p.effective_from then p ∷ q ∷ qs else q ∷ rest

abbrev pub order_desc : List PriceHistory → List PriceHistory
order_desc [] = []
order_desc (p ∷ ps) = insert_desc p (order_desc ps)

-- `LIMIT 1`
abbrev pub limit_one : List PriceHistory → Option PriceHistory
limit_one [] = none
limit_one (p ∷ ps) = some p

pub select-select :
    (p q : PriceHistory → Bool) (xs : List PriceHistory)
    → select q (select p xs) ≡ select (λ x. p x && q x) xs
unfolding select
select-select p q [] = refl
select-select p q (x ∷ xs) = elim (Bool-cases (p x)) [
  | inl e ↦ rw e (elim (Bool-cases (q x)) [
    | inl f ↦ rw f (ap (λ l. x ∷ l) (select-select p q xs))
    | inr f ↦ rw f (select-select p q xs)
  ])
  | inr e ↦ rw e (select-select p q xs)
]

pub select-same :
    (p q : PriceHistory → Bool) (xs : List PriceHistory)
    → ((x : PriceHistory) → p x ≡ q x)
    → select p xs ≡ select q xs
unfolding select
select-same p q [] h = refl
select-same p q (x ∷ xs) h = rw (h x, select-same p q xs h) refl

pub find-limit_one :
    (p : PriceHistory → Bool) (xs : List PriceHistory) → find p xs ≡ limit_one (select p xs)
unfolding select find
find-limit_one p [] = refl
find-limit_one p (x ∷ xs) = elim (Bool-cases (p x)) [
  | inl e ↦ rw e refl
  | inr e ↦ rw e (find-limit_one p xs)
]

abbrev IsDescending : List PriceHistory → Type 0
IsDescending [] = Unit
IsDescending (p ∷ ps) =
    All (λ (q : PriceHistory). q.effective_from ≤ p.effective_from) ps × IsDescending ps

All-weaken :
    (m n : ℕ) (ps : List PriceHistory)
    → m ≤ n
    → All (λ (q : PriceHistory). q.effective_from ≤ m) ps
    → All (λ (q : PriceHistory). q.effective_from ≤ n) ps
All-weaken m n [] h k = tt
All-weaken m n (p ∷ ps) h k = (omega (arith, k.0), All-weaken m n ps h k.1)

All-insert_desc :
    (n : ℕ) (p : PriceHistory) (qs : List PriceHistory)
    → p.effective_from ≤ n
    → All (λ (q : PriceHistory). q.effective_from ≤ n) qs
    → All (λ (q : PriceHistory). q.effective_from ≤ n) (insert_desc p qs)
All-insert_desc n p [] h k = (h, tt)
All-insert_desc n p (q ∷ qs) h k = elim (Bool-cases (leb q.effective_from p.effective_from)) [
  | inl e ↦ rw e (h, k)
  | inr e ↦ rw e (k.0, All-insert_desc n p qs h k.1)
]

insert_desc-IsDescending :
    (p : PriceHistory) (qs : List PriceHistory) → IsDescending qs → IsDescending (insert_desc p qs)
insert_desc-IsDescending p [] h = (tt, tt)
insert_desc-IsDescending p (q ∷ qs) h = elim (Bool-cases (leb q.effective_from p.effective_from)) [
  | inl e ↦
      let le = leb→le q.effective_from p.effective_from e in
      rw e ((le, All-weaken q.effective_from p.effective_from qs le h.0), h)
  | inr e ↦
      let ge : p.effective_from ≤ q.effective_from = ground arith in
      rw e (All-insert_desc q.effective_from p qs ge h.0, insert_desc-IsDescending p qs h.1)
]

pub order_desc-IsDescending : (ps : List PriceHistory) → IsDescending (order_desc ps)
order_desc-IsDescending [] = tt
order_desc-IsDescending (p ∷ ps) =
    insert_desc-IsDescending p (order_desc ps) (order_desc-IsDescending ps)

-- A row that no row is after goes first.
insert_desc-first :
    (p : PriceHistory) (qs : List PriceHistory)
    → All (λ (q : PriceHistory). q.effective_from ≤ p.effective_from) qs
    → insert_desc p qs ≡ p ∷ qs
insert_desc-first p [] h = refl
insert_desc-first p (q ∷ qs) h =
    let test : leb q.effective_from p.effective_from ≡ true =
      le→leb q.effective_from p.effective_from h.0 in
    rw test refl

All-select :
    (n : ℕ) (p : PriceHistory → Bool) (qs : List PriceHistory)
    → All (λ (q : PriceHistory). q.effective_from ≤ n) qs
    → All (λ (q : PriceHistory). q.effective_from ≤ n) (select p qs)
unfolding select
All-select n p [] h = tt
All-select n p (q ∷ qs) h = elim (Bool-cases (p q)) [
  | inl e ↦ rw e (h.0, All-select n p qs h.1)
  | inr e ↦ rw e (All-select n p qs h.1)
]

select-insert_desc :
    (t : PriceHistory → Bool) (p : PriceHistory) (qs : List PriceHistory)
    → IsDescending qs
    → select t (insert_desc p qs) ≡ (if t p then insert_desc p (select t qs) else select t qs)
unfolding select
select-insert_desc t p [] h = elim (Bool-cases (t p)) [ inl e ↦ rw e refl | inr e ↦ rw e refl ]
select-insert_desc t p (q ∷ qs) h =
    let rest = select-insert_desc t p qs h.1 in
    elim (Bool-cases (leb q.effective_from p.effective_from)) [
      | inl e ↦
          let le = leb→le q.effective_from p.effective_from e in
          let all_le : All (λ (r : PriceHistory). r.effective_from ≤ p.effective_from) (q ∷ qs) =
            (le, All-weaken q.effective_from p.effective_from qs le h.0) in
          let goes_first =
            insert_desc-first p (select t (q ∷ qs))
              (All-select p.effective_from t (q ∷ qs) all_le) in
          rw e (elim (Bool-cases (t p)) [ inl f ↦ rw f (sym goes_first) | inr f ↦ rw f refl ])
      | inr e ↦ elim (Bool-cases (t q)) [
        | inl g ↦ elim (Bool-cases (t p)) [
          | inl f ↦ rw (e, g, rest, f, e) refl
          | inr f ↦ rw (e, g, rest, f) refl
        ]
        | inr g ↦ rw (e, g, rest) refl
      ]
    ]

-- Selecting and ordering commute.
pub select-order_desc :
    (t : PriceHistory → Bool) (ps : List PriceHistory)
    → select t (order_desc ps) ≡ order_desc (select t ps)
unfolding select
select-order_desc t [] = refl
select-order_desc t (p ∷ ps) =
    let step = select-insert_desc t p (order_desc ps) (order_desc-IsDescending ps) in
    elim (Bool-cases (t p)) [
      | inl e ↦ rw (step, e) (ap (insert_desc p) (select-order_desc t ps))
      | inr e ↦ rw (step, e) (select-order_desc t ps)
    ]

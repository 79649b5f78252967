-- ===== src/History/Pages.antt =====
-- Pages and order of the rows of a listing.
use zylo_office_backend.Prelude.{
  ℕ, zero, suc, ◌+◌, ◌≤◌, ◌≡◌, refl, ap, ◌↔◌, inl, inr, Bool, Bool-cases, List, [], ◌∷◌, ◌++◌,
  string_eq, nat_eq, option_eq, In, in-append, select, length, arith,
}
use zylo_office_backend.Audit.{AuditLog}
use zylo_office_backend.History.{take, drop, last_first}

pub in-take : (x : AuditLog) (n : ℕ) (xs : List AuditLog) → In x (take n xs) → In x xs
unfolding take
in-take x zero xs m = absurd m
in-take x (suc n) [] m = absurd m
in-take x (suc n) (y ∷ ys) m = elim m [ inl e ↦ inl e | inr k ↦ inr (in-take x n ys k) ]

pub in-drop : (x : AuditLog) (n : ℕ) (xs : List AuditLog) → In x (drop n xs) → In x xs
unfolding drop
in-drop x zero xs m = m
in-drop x (suc n) [] m = absurd m
in-drop x (suc n) (y ∷ ys) m = inr (in-drop x n ys m)

pub in-last_first : (x : AuditLog) (xs : List AuditLog) → In x (last_first xs) ↔ In x xs
unfolding last_first
in-last_first x [] = ((λ m. m), (λ m. m))
in-last_first x (y ∷ ys) = (
  (λ m. elim ((in-append x (last_first ys) (y ∷ [])).0 m) [
    | inl k ↦ inr ((in-last_first x ys).0 k)
    | inr k ↦ elim k [ inl e ↦ inl e | inr f ↦ absurd f ]
  ]),
  (λ m.
      (in-append x (last_first ys) (y ∷ [])).1
        (elim m [ inl e ↦ inr (inl e) | inr k ↦ inl ((in-last_first x ys).1 k) ])),
)

pub length-last_first : (xs : List AuditLog) → length (last_first xs) ≡ length xs
unfolding last_first
length-last_first [] = refl
length-last_first (x ∷ xs) =
    omega (arith, length-append-one (last_first xs) x, length-last_first xs)
  where
    length-append-one : (ys : List AuditLog) (y : AuditLog) → length (ys ++ y ∷ []) ≡ length ys + 1
    length-append-one [] y = refl
    length-append-one (z ∷ zs) y = omega (arith, length-append-one zs y)

pub take_all : (n : ℕ) (xs : List AuditLog) → length xs ≤ n → take n xs ≡ xs
unfolding take
take_all zero [] h = refl
take_all zero (x ∷ xs) h = absurd (omega arith)
take_all (suc n) [] h = refl
take_all (suc n) (x ∷ xs) h = ap (λ (l : List AuditLog). x ∷ l) (take_all n xs (omega arith))

pub length-select-le : (p : AuditLog → Bool) (xs : List AuditLog) → length (select p xs) ≤ length xs
unfolding select
length-select-le p [] = omega arith
length-select-le p (x ∷ xs) = elim (Bool-cases (p x)) [
  | inl hit ↦ rw hit (omega (arith, length-select-le p xs))
  | inr miss ↦ rw miss (omega (arith, length-select-le p xs))
]

-- ===== src/Prelude/Lists.antt =====
-- Lists as tables: selection by a test, existence, membership, and their laws.
use Prim.Native.Nat.{ℕ, suc}
use mathlib.Core.Path.{◌≡◌, refl, sym, subst}
use mathlib.Core.Logic.{◌⊎◌, ◌↔◌, inl, inr}
use mathlib.Core.Bool.{Bool, true, false, ◌&&◌, ◌||◌}
use mathlib.Core.Option.{Option, none, some}
use mathlib.Core.List.{List, [], ◌∷◌, ◌++◌, map, flat_map}
use native.Mathlib.Omega.{arith}
use zylo_office_backend.Prelude.Tests.{if◌then◌else◌, Bool-cases}

-- Membership by recursion, with the position kept.
abbrev pub In : {A : Type 0} → A → List A → Type 0
In a [] = ⊥
In a (x ∷ xs) = (a ≡ x) ⊎ In a xs

abbrev pub All {ℓ κ} : {A : Type ℓ} → (A → Type κ) → List A → Type κ
All P [] = Unit
All P (x ∷ xs) = P x × All P xs

module _ {ℓ} {A : Type ℓ} where
  abbrev pub length : List A → ℕ
  length [] = 0
  length (x ∷ xs) = suc (length xs)

  -- `select(...).where(p)`, and a comprehension with a condition
  unfoldable pub select : (A → Bool) → List A → List A
  select p [] = []
  select p (x ∷ xs) = let rest = select p xs in if p x then x ∷ rest else rest

  -- `any(p(x) for x in xs)`
  unfoldable pub any : (A → Bool) → List A → Bool
  any p [] = false
  any p (x ∷ xs) = p x || any p xs

  unfoldable pub all : (A → Bool) → List A → Bool
  all p [] = true
  all p (x ∷ xs) = p x && all p xs

  -- The first row that passes.
  unfoldable pub find : (A → Bool) → List A → Option A
  find p [] = none
  find p (x ∷ xs) = let rest = find p xs in if p x then some x else rest

  pub select-append :
      (p : A → Bool) (xs ys : List A) → select p (xs ++ ys) ≡ select p xs ++ select p ys
  unfolding select
  select-append p [] ys = refl
  select-append p (x ∷ xs) ys = ground (arith, select-append p xs ys)

  pub any-append : (p : A → Bool) (xs ys : List A) → any p (xs ++ ys) ≡ (any p xs || any p ys)
  unfolding any
  any-append p [] ys = refl
  any-append p (x ∷ xs) ys = ground (arith, any-append p xs ys)

  pub All-append : (P : A → Type 0) (xs ys : List A) → All P xs → All P ys → All P (xs ++ ys)
  All-append P [] ys h k = k
  All-append P (x ∷ xs) ys h k = (h.0, All-append P xs ys h.1 k)

  pub find-some : (p : A → Bool) (xs : List A) (a : A) → find p xs ≡ some a → p a ≡ true
  unfolding find
  find-some p [] a h = cc
  find-some p (x ∷ xs) a h = ground (arith, find-some p xs a)

module _ {A : Type 0} where
  -- Membership in a selection is membership and the test, both ways.
  pub in-select :
      (p : A → Bool) (a : A) (xs : List A) → In a (select p xs) ↔ (In a xs × (p a ≡ true))
  unfolding select
  in-select p a [] = ((λ h. absurd h), (λ h. h.0))
  in-select p a (x ∷ xs) = elim (Bool-cases (p x)) [
    | inl e ↦ rw e (
      (λ h. elim h [
        | inl q ↦ (inl q, rw q e)
        | inr m ↦ (inr ((in-select p a xs).0 m).0, ((in-select p a xs).0 m).1)
      ]),
      (λ h. elim h.0 [ inl q ↦ inl q | inr m ↦ inr ((in-select p a xs).1 (m, h.1)) ]),
    )
    | inr e ↦ rw e (
      (λ h. (inr ((in-select p a xs).0 h).0, ((in-select p a xs).0 h).1)),
      (λ h. elim h.0 [ inl q ↦ cc | inr m ↦ (in-select p a xs).1 (m, h.1) ]),
    )
  ]

  pub in-append : (a : A) (xs ys : List A) → In a (xs ++ ys) ↔ (In a xs ⊎ In a ys)
  in-append a [] ys = ((λ h. inr h), (λ h. elim h [ inl m ↦ absurd m | inr m ↦ m ]))
  in-append a (x ∷ xs) ys = (
    (λ h. elim h [
      | inl q ↦ inl (inl q)
      | inr m ↦ elim ((in-append a xs ys).0 m) [ inl k ↦ inl (inr k) | inr k ↦ inr k ]
    ]),
    (λ h. elim h [
      | inl k ↦ elim k [ inl q ↦ inl q | inr m ↦ inr ((in-append a xs ys).1 (inl m)) ]
      | inr k ↦ inr ((in-append a xs ys).1 (inr k))
    ]),
  )

  -- `any` is existence.
  pub any_iff :
      (p : A → Bool) (xs : List A) → (any p xs ≡ true) ↔ ((a : A) × In a xs × (p a ≡ true))
  unfolding any
  any_iff p [] = ((λ h. cc), (λ (a, m, e). absurd m))
  any_iff p (x ∷ xs) = (
    (λ h. elim (Bool-cases (p x)) [
      | inl e ↦ (x, inl refl, e)
      | inr e ↦ let (a, m, q) = (any_iff p xs).0 (ground arith) in (a, inr m, q)
    ]),
    (λ (a, m, q). elim m [
      | inl e ↦ ground arith
      | inr k ↦ ground (arith, (any_iff p xs).1 (a, k, q))
    ]),
  )

  pub All-in : (P : A → Type 0) (a : A) (xs : List A) → All P xs → In a xs → P a
  All-in P a [] h m = absurd m
  All-in P a (x ∷ xs) h m = elim m [ inl e ↦ subst P (sym e) h.0 | inr k ↦ All-in P a xs h.1 k ]

  pub find-in : (p : A → Bool) (xs : List A) {a : A} → find p xs ≡ some a → In a xs
  unfolding find
  find-in p [] h = cc
  find-in p (x ∷ xs) h = elim (Bool-cases (p x)) [
    | inl e ↦ inl (ground arith)
    | inr e ↦ inr (find-in p xs (ground arith))
  ]

module _ {A B : Type 0} where
  pub in-map : (f : A → B) (b : B) (xs : List A) → In b (map f xs) ↔ ((a : A) × In a xs × (b ≡ f a))
  in-map f b [] = ((λ h. absurd h), (λ (a, m, e). m))
  in-map f b (x ∷ xs) = (
    (λ h. elim h [
      | inl q ↦ (x, inl refl, q)
      | inr m ↦ let (a, k, e) = (in-map f b xs).0 m in (a, inr k, e)
    ]),
    (λ (a, m, e). elim m [ inl q ↦ inl (rw (← q) e) | inr k ↦ inr ((in-map f b xs).1 (a, k, e)) ]),
  )

  pub in-flat_map :
      (f : A → List B) (b : B) (xs : List A)
      → In b (flat_map f xs) ↔ ((a : A) × In a xs × In b (f a))
  unfolding flat_map
  in-flat_map f b [] = ((λ h. absurd h), (λ (a, m, e). m))
  in-flat_map f b (x ∷ xs) = (
    (λ h. elim ((in-append b (f x) (flat_map f xs)).0 h) [
      | inl q ↦ (x, inl refl, q)
      | inr m ↦ let (a, k, e) = (in-flat_map f b xs).0 m in (a, inr k, e)
    ]),
    (λ (a, m, e).
        (in-append b (f x) (flat_map f xs)).1
          (elim m [ inl q ↦ inl (rw q at e) | inr k ↦ inr ((in-flat_map f b xs).1 (a, k, e)) ])),
  )

module _ {A : Type 0} where
  -- A row that passes is found, or one before it.
  pub find-total :
      (p : A → Bool) (xs : List A) (a : A) → In a xs → p a ≡ true → (b : A) × (find p xs ≡ some b)
  unfolding find
  find-total p [] a m h = absurd m
  find-total p (x ∷ xs) a m h = elim (Bool-cases (p x)) [
    | inl e ↦ (x, rw e)
    | inr e ↦ elim m [ inl q ↦ cc | inr k ↦ let (b, f) = find-total p xs a k h in (b, rw e f) ]
  ]

-- No two rows have one key.
abbrev pub HasUnique : {K A : Type 0} → (A → K) → List A → Type 0
HasUnique key [] = Unit
HasUnique {K} {A} key (x ∷ xs) = ((y : A) → In y xs → ¬ (key y ≡ key x)) × HasUnique key xs

pub HasUnique-select :
    {K A : Type 0} (key : A → K) (p : A → Bool) (rows : List A)
    → HasUnique key rows
    → HasUnique key (select p rows)
unfolding select
HasUnique-select key p [] h = tt
HasUnique-select key p (x ∷ xs) h = elim (Bool-cases (p x)) [
  | inl e ↦ rw e ((λ y m. h.0 y ((in-select p y xs).0 m).0), HasUnique-select key p xs h.1)
  | inr e ↦ rw e (HasUnique-select key p xs h.1)
]

-- ===== src/Alerts/Rows.antt =====
-- Changing the first row that a test accepts.
use zylo_office_backend.Prelude.{
  suc, ◌≤◌, ◌≡◌, refl, ap, sym, subst, ◌∙◌, Bool, Bool-cases, true, false, List, [], ◌∷◌, inl, inr,
  All, In, select, find, some, length, arith, if◌then◌else◌,
}
use zylo_office_backend.Alerts.Tables.{Alert}
use zylo_office_backend.Alerts.{update_first}

module _ (p : Alert → Bool) (f : Alert → Alert) where
  -- A change that makes no row pass a test lets no more rows pass it.
  pub length-select-update_first :
      (q : Alert → Bool)
      → ((a : Alert) → p a ≡ true → q (f a) ≡ true → q a ≡ true)
      → (xs : List Alert) → length (select q (update_first p f xs)) ≤ length (select q xs)
  unfolding select update_first
  length-select-update_first q keep [] = omega arith
  length-select-update_first q keep (a ∷ xs) = elim (Bool-cases (p a)) [
    | inl hit ↦ rw hit (elim (Bool-cases (q (f a))) [
      | inl new ↦ rw (new, keep a hit new) (omega arith)
      | inr gone ↦ rw gone (elim (Bool-cases (q a)) [
        | inl old ↦ rw old (omega arith)
        | inr none_old ↦ rw none_old (omega arith)
      ])
    ])
    | inr miss ↦ rw miss (elim (Bool-cases (q a)) [
      | inl old ↦ rw old (omega (arith, length-select-update_first q keep xs))
      | inr none_old ↦ rw none_old (length-select-update_first q keep xs)
    ])
  ]

  -- A change of the one row that passes into a row that does not leaves none.
  pub select-update_first_only :
      ((a : Alert) → p (f a) ≡ false)
      → (xs : List Alert) → length (select p xs) ≤ 1
      → select p (update_first p f xs) ≡ []
  unfolding select update_first
  select-update_first_only closes [] h = refl
  select-update_first_only closes (a ∷ xs) h = elim (Bool-cases (p a)) [
    | inl hit ↦ rw (hit, closes a) (nothing_left (select p xs) (omega (arith, length_hit a xs hit)))
    | inr miss ↦
        rw (miss, miss) (select-update_first_only closes xs (omega (arith, length_miss a xs miss)))
  ]
    where
      nothing_left : (l : List Alert) → length l ≤ 0 → l ≡ []
      nothing_left [] k = refl
      nothing_left (x ∷ l) k = absurd (omega arith)

      length_hit :
          (b : Alert) (ys : List Alert)
          → p b ≡ true
          → length (select p (b ∷ ys)) ≡ suc (length (select p ys))
      length_hit b ys e = rw e

      length_miss :
          (b : Alert) (ys : List Alert)
          → p b ≡ false
          → length (select p (b ∷ ys)) ≡ length (select p ys)
      length_miss b ys e = rw e

  -- A property that the change gives to the rows it may touch is kept by all rows.
  pub All-update_first :
      (P : Alert → Type 0)
      → ((a : Alert) → p a ≡ true → P a → P (f a))
      → (xs : List Alert) → All P xs
      → All P (update_first p f xs)
  unfolding update_first
  All-update_first P keep [] h = tt
  All-update_first P keep (a ∷ xs) h = elim (Bool-cases (p a)) [
    | inl hit ↦ rw hit (keep a hit h.0, h.1)
    | inr miss ↦ rw miss (h.0, All-update_first P keep xs h.1)
  ]

  -- The same, where the row that is changed is the one that `find` returns.
  pub All-update_found :
      (P : Alert → Type 0) (x : Alert) (xs : List Alert)
      → find p xs ≡ some x
      → (P x → P (f x))
      → All P xs
      → All P (update_first p f xs)
  unfolding update_first find
  All-update_found P x [] found keep h = tt
  All-update_found P x (a ∷ xs) found keep h = elim (Bool-cases (p a)) [
    | inl hit ↦
        let same : a ≡ x = ground (arith, hit) in
        rw hit (subst (λ b. P b → P (f b)) (sym same) keep h.0, h.1)
    | inr miss ↦ rw miss (h.0, All-update_found P x xs (rw miss at found) keep h.1)
  ]

  -- How many rows pass a test that the change of the found row does not make true.
  pub length-select-update_found :
      (q : Alert → Bool) (x : Alert) (xs : List Alert)
      → find p xs ≡ some x
      → (q (f x) ≡ true → q x ≡ true)
      → length (select q (update_first p f xs)) ≤ length (select q xs)
  unfolding select update_first find
  length-select-update_found q x [] found keep = omega arith
  length-select-update_found q x (a ∷ xs) found keep = elim (Bool-cases (p a)) [
    | inl hit ↦
        let same : a ≡ x = ground (arith, hit) in
        rw (hit, same)
          (elim (Bool-cases (q (f x))) [
            | inl new ↦ rw (new, keep new) (omega arith)
            | inr gone ↦ rw gone (elim (Bool-cases (q x)) [
              | inl old ↦ rw old (omega arith)
              | inr none_old ↦ rw none_old (omega arith)
            ])
          ])
    | inr miss ↦ rw miss (elim (Bool-cases (q a)) [
      | inl old ↦ rw old (omega (arith, length-select-update_found q x xs (rw miss at found) keep))
      | inr none_old ↦ rw none_old (length-select-update_found q x xs (rw miss at found) keep)
    ])
  ]

  -- A test that neither the rows it may touch nor their new versions pass selects the same rows.
  pub select-update_first_other :
      (q : Alert → Bool)
      → ((a : Alert) → p a ≡ true → (q a ≡ false) × (q (f a) ≡ false))
      → (xs : List Alert) → select q (update_first p f xs) ≡ select q xs
  unfolding select update_first
  select-update_first_other q out [] = refl
  select-update_first_other q out (a ∷ xs) = elim (Bool-cases (p a)) [
    | inl hit ↦ rw hit (rw ((out a hit).0, (out a hit).1))
    | inr miss ↦ rw miss (ap (λ l. if q a then a ∷ l else l) (select-update_first_other q out xs))
  ]

  -- A change that no test can see keeps the number of rows that pass it.
  pub length-select-update_same :
      (q : Alert → Bool)
      → ((a : Alert) → q (f a) ≡ q a)
      → (xs : List Alert) → length (select q (update_first p f xs)) ≡ length (select q xs)
  unfolding select update_first
  length-select-update_same q same [] = refl
  length-select-update_same q same (a ∷ xs) = elim (Bool-cases (p a)) [
    | inl hit ↦
        rw hit (rw (same a) (elim (Bool-cases (q a)) [ inl new ↦ rw new | inr gone ↦ rw gone ]))
    | inr miss ↦ rw miss (elim (Bool-cases (q a)) [
      | inl old ↦ rw old (ap suc (length-select-update_same q same xs))
      | inr none_old ↦ rw none_old (length-select-update_same q same xs)
    ])
  ]

  -- Every row but the first that passes stays.
  pub in-update_first_kept :
      (x : Alert) (xs : List Alert) → p x ≡ false → In x xs → In x (update_first p f xs)
  unfolding update_first
  in-update_first_kept x [] out m = absurd m
  in-update_first_kept x (a ∷ xs) out m = elim (Bool-cases (p a)) [
    | inl hit ↦ rw hit (elim m [ inl e ↦ cc (ap p e) | inr k ↦ inr k ])
    | inr miss ↦ rw miss (elim m [ inl e ↦ inl e | inr k ↦ inr (in-update_first_kept x xs out k) ])
  ]

  -- Every row but the one that `find` returns stays.
  pub in-update_found_kept :
      (x y : Alert) (xs : List Alert)
      → find p xs ≡ some x
      → ¬ (y ≡ x)
      → In y xs
      → In y (update_first p f xs)
  unfolding update_first find
  in-update_found_kept x y [] found ne m = absurd m
  in-update_found_kept x y (a ∷ xs) found ne m = elim (Bool-cases (p a)) [
    | inl hit ↦
        let same : a ≡ x = ground (arith, hit) in
        rw hit (elim m [ inl e ↦ absurd (ne (e ∙ same)) | inr k ↦ inr k ])
    | inr miss ↦ rw miss (elim m [
      | inl e ↦ inl e
      | inr k ↦ inr (in-update_found_kept x y xs (rw miss at found) ne k)
    ])
  ]

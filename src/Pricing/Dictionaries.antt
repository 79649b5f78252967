-- ===== src/Pricing/Dictionaries.antt =====
-- Python's dictionaries as association lists in which a later entry wins, and their agreement with
-- queries by a key.
use zylo_office_backend.Prelude.{
  HasUnique, HasUnique-select, Bool, true, ◌≡◌, refl, sym, ◌∙◌, inl, inr, Bool-cases, Option-cases,
  Option, none, some, List, [], ◌∷◌, map, ◌==◌, Eq, if◌then◌else◌, select, any, find, find-in,
  find-some, ok, scalar_one_or_none, In, beq_true, beq_sound, ne_false, subst,
}

-- `d.get(key)`
unfoldable pub dict_get : {K V : Type 0} ⦃test : Eq K⦄ → K → List (K × V) → Option V
dict_get key [] = none
dict_get key ((k, v) ∷ rest) =
    let later = dict_get key rest in
    elim later [ some w ↦ some w | none ↦ if k == key then some v else none ]

-- `x in xs`
abbrev pub contains_key : {K : Type 0} ⦃test : Eq K⦄ → K → List K → Bool
contains_key ⦃test⦄ key keys = any (λ k. k == key) keys

module _ {K A : Type 0} ⦃test : Eq K⦄ (key : A → K) where
  -- `{key(x): x for x in rows}`
  abbrev pub index_by : List A → List (K × A)
  index_by = map (λ x. (key x, x))

  abbrev pub row_of : K → List A → Option A
  row_of k = find (λ x. key x == k)

  -- Rows that have another key are not found.
  other_keys :
      (k : K) (rows : List A)
      → ((y : A) → In y rows → ¬ (key y ≡ k))
      → select (λ x. key x == k) rows ≡ []
  unfolding select
  other_keys k [] h = refl
  other_keys k (x ∷ xs) h =
      rw (ne_false (key x) k (h x (inl refl))) (other_keys k xs (λ y m. h y (inr m)))

  pub found-key : (k : K) (rows : List A) (x : A) → row_of k rows ≡ some x → In x rows × (key x ≡ k)
  found-key k rows x e =
      (find-in (λ y. key y == k) rows e, beq_sound (key x) k (find-some (λ y. key y == k) rows x e))

  pub dict_get-index_by :
      (k : K) (rows : List A) → HasUnique key rows → dict_get k (index_by rows) ≡ row_of k rows
  unfolding dict_get find
  dict_get-index_by k [] h = refl
  dict_get-index_by k (x ∷ xs) h =
      let rest = dict_get-index_by k xs h.1 in
      elim (Option-cases (row_of k xs)) [
        | inl e ↦ rw (rest, e) refl
        | inr (w, e) ↦ elim (Bool-cases (key x == k)) [
          | inl t ↦
              let (m, same) = found-key k xs w e in
              absurd (h.0 w m (same ∙ sym (beq_sound (key x) k t)))
          | inr f ↦ rw (rest, e, f) refl
        ]
      ]

  -- A query by a unique key has one row at most.
  pub scalar_one_or_none-row_of :
      (k : K) (rows : List A)
      → HasUnique key rows
      → scalar_one_or_none (select (λ x. key x == k) rows) ≡ ok (row_of k rows)
  unfolding find select scalar_one_or_none
  scalar_one_or_none-row_of k [] h = refl
  scalar_one_or_none-row_of k (x ∷ xs) h = elim (Bool-cases (key x == k)) [
    | inl t ↦
        let same = beq_sound (key x) k t in
        rw (t, other_keys k xs (λ y m e. h.0 y m (e ∙ sym same))) refl
    | inr f ↦ rw f (scalar_one_or_none-row_of k xs h.1)
  ]

  -- A query that keeps all rows of a key finds the same row for it.
  pub row_of-select :
      (k : K) (p : A → Bool) (rows : List A)
      → ((x : A) → key x ≡ k → p x ≡ true)
      → row_of k (select p rows) ≡ row_of k rows
  unfolding find select
  row_of-select k p [] h = refl
  row_of-select k p (x ∷ xs) h = elim (Bool-cases (key x == k)) [
    | inl t ↦ rw (h x (beq_sound (key x) k t), t) refl
    | inr f ↦ elim (Bool-cases (p x)) [
      | inl e ↦ rw (e, f) (row_of-select k p xs h)
      | inr e ↦ rw (e, f) (row_of-select k p xs h)
    ]
  ]

  -- The dictionary of a query that keeps all rows of a key.
  pub dict_get-select :
      (k : K) (p : A → Bool) (rows : List A)
      → HasUnique key rows
      → ((x : A) → key x ≡ k → p x ≡ true)
      → dict_get k (index_by (select p rows)) ≡ row_of k rows
  dict_get-select k p rows h keep =
      dict_get-index_by k (select p rows) (HasUnique-select key p rows h)
      ∙ row_of-select k p rows keep

module _ {K A V : Type 0} ⦃test : Eq K⦄ (key : A → K) (value : A → V) where
  -- A dictionary that is computed from rows: no entry for other keys, that of the row for its key.
  pub dict_get-absent :
      (k : K) (rows : List A)
      → ((y : A) → In y rows → ¬ (key y ≡ k))
      → dict_get k (map (λ x. (key x, value x)) rows) ≡ none
  unfolding dict_get
  dict_get-absent k [] h = refl
  dict_get-absent k (x ∷ xs) h =
      rw (dict_get-absent k xs (λ y m. h y (inr m)), ne_false (key x) k (h x (inl refl))) refl

  pub dict_get-present :
      (x : A) (rows : List A)
      → HasUnique key rows
      → In x rows
      → dict_get (key x) (map (λ y. (key y, value y)) rows) ≡ some (value x)
  unfolding dict_get
  dict_get-present x [] h m = absurd m
  dict_get-present x (y ∷ ys) h m = elim m [
    | inl e ↦
        subst (λ z. dict_get (key z) (map (λ w. (key w, value w)) (y ∷ ys)) ≡ some (value z))
          (sym e) (rw (dict_get-absent (key y) ys h.0, beq_true (key y) (key y) refl) refl)
    | inr k ↦ rw (dict_get-present x ys h.1 k) refl
  ]

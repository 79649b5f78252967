-- ===== src/Rbac/Grants/Cascade.antt =====
-- The loop of `revoke_grant` against the descendants of a grant (app/rbac/service.py).
use zylo_office_backend.Prelude.{
  ℕ, zero, suc, ◌≡◌, refl, ap, sym, subst, ◌↔◌, ◌⊎◌, inl, inr, true, false, Option, none, some,
  List, [], ◌∷◌, ◌++◌, nat_eq, In, in-append, in-map, in-select, any_iff, is_none, is_none-eq,
  arith, beq_true, beq_sound, and-true, and_intro,
}
use zylo_office_backend.Rbac.Tables.{UserPermissionGrant}
use zylo_office_backend.Rbac.Grants.{contains, live_children, ids_of, cascade}

pub contains_iff : (ids : List ℕ) (i : ℕ) → (contains ids i ≡ true) ↔ In i ids
unfolding contains
contains_iff ids i = (
  (λ h. let (j, m, e) = (any_iff _ ids).0 h in subst (λ k. In k ids) (beq_sound j i e) m),
  (λ m. (any_iff _ ids).1 (i, m, beq_true i i refl)),
)

-- `c` is a grant in force that was delegated from the grant `p`.
abbrev pub IsLiveChild : ℕ → UserPermissionGrant → Type 0
IsLiveChild p c = (c.delegated_from_grant_id ≡ some p) × (c.revoked_at ≡ none)

-- From the revoked grant down through grants in force.
pub data Descends (grants : List UserPermissionGrant) (root : ℕ) : ℕ → Type 0 where
  start : Descends grants root root
  child :
      {p : ℕ} (c : UserPermissionGrant) (i : ℕ)
      → Descends grants root p
      → In c grants
      → IsLiveChild p c
      → i ≡ c.id
      → Descends grants root i

delegated_test :
    (o : Option ℕ) (frontier : List ℕ)
    → (elim o [ none ↦ false | some p ↦ contains frontier p ] ≡ true)
    → (p : ℕ) × (o ≡ some p) × In p frontier
delegated_test none frontier h = cc
delegated_test (some p) frontier h = (p, refl, (contains_iff frontier p).0 h)

pub live_children_sound :
    (grants : List UserPermissionGrant) (frontier : List ℕ) (c : UserPermissionGrant)
    → In c (live_children grants frontier)
    → In c grants × ((p : ℕ) × In p frontier × IsLiveChild p c)
unfolding live_children
live_children_sound grants frontier c m =
    let (row, test) = (in-select _ c grants).0 m in
    let (delegated, live) = and-true _ (is_none c.revoked_at) test in
    let (p, e, p_in) = delegated_test c.delegated_from_grant_id frontier delegated in
    (row, (p, p_in, (e, is_none-eq c.revoked_at live)))

pub live_children_complete :
    (grants : List UserPermissionGrant) (frontier : List ℕ) (c : UserPermissionGrant) (p : ℕ)
    → In c grants
    → In p frontier
    → IsLiveChild p c
    → In c (live_children grants frontier)
unfolding live_children
live_children_complete grants frontier c p row p_in (e, live) =
    (in-select _ c grants).1
      (row, and_intro _ _ (rw e ((contains_iff frontier p).1 p_in)) (ap is_none live))

module _ (grants : List UserPermissionGrant) (root : ℕ) where
  -- What is collected descends from the root.
  cascade_sound :
      (fuel : ℕ) (frontier : List ℕ) (acc r : List UserPermissionGrant)
      → ((i : ℕ) → In i frontier → Descends grants root i)
      → ((i : ℕ) → In i (ids_of acc) → Descends grants root i)
      → cascade grants fuel frontier acc ≡ some r
      → (i : ℕ) → In i (ids_of r)
      → Descends grants root i
  unfolding cascade
  cascade_sound zero [] acc r f a h i m =
      a i (subst (λ (l : List UserPermissionGrant). In i (ids_of l)) (ground arith) m)
  cascade_sound (suc fuel) [] acc r f a h i m =
      a i (subst (λ (l : List UserPermissionGrant). In i (ids_of l)) (ground arith) m)
  cascade_sound zero (x ∷ xs) acc r f a h i m = cc
  cascade_sound (suc fuel) (x ∷ xs) acc r f a h i m =
      let children = live_children grants (x ∷ xs) in
      let of_children : (j : ℕ) → In j (ids_of children) → Descends grants root j = λ j k.
        let (c, c_in, e) = (in-map _ j children).0 k in
        let (row, (p, p_in, live)) = live_children_sound grants (x ∷ xs) c c_in in
        child c j (f p p_in) row live e in
      cascade_sound fuel (ids_of children) (acc ++ children) r of_children
        (λ j k.
          let (c, c_in, e) = (in-map _ j (acc ++ children)).0 k in
          elim ((in-append c acc children).0 c_in) [
            | inl old ↦ a j ((in-map _ j acc).1 (c, old, e))
            | inr new ↦ of_children j ((in-map _ j children).1 (c, new, e))
          ])
        h i m

  -- An id is collected, and stays so; its children are collected, or it is still to be visited.
  abbrev IsClosed : List ℕ → List UserPermissionGrant → ℕ → Type 0
  IsClosed frontier acc i =
      In i frontier
      ⊎ ((c : UserPermissionGrant) → In c grants → IsLiveChild i c → In c.id (ids_of acc))

  cascade_complete :
      (fuel : ℕ) (frontier : List ℕ) (acc r : List UserPermissionGrant)
      → ((i : ℕ) → In i (ids_of acc) → IsClosed frontier acc i)
      → cascade grants fuel frontier acc ≡ some r
      → ((i : ℕ) → In i (ids_of acc) → In i (ids_of r))
        × ((i : ℕ) → In i (ids_of r) → IsClosed [] r i)
  unfolding cascade
  cascade_complete zero [] acc r inv h =
      subst
        (λ (l : List UserPermissionGrant).
          ((i : ℕ) → In i (ids_of acc) → In i (ids_of l))
          × ((i : ℕ) → In i (ids_of l) → IsClosed [] l i))
        (ground arith) ((λ i m. m), inv)
  cascade_complete (suc fuel) [] acc r inv h =
      subst
        (λ (l : List UserPermissionGrant).
          ((i : ℕ) → In i (ids_of acc) → In i (ids_of l))
          × ((i : ℕ) → In i (ids_of l) → IsClosed [] l i))
        (ground arith) ((λ i m. m), inv)
  cascade_complete zero (x ∷ xs) acc r inv h = cc
  cascade_complete (suc fuel) (x ∷ xs) acc r inv h =
      let children = live_children grants (x ∷ xs) in
      let old_in : (j : ℕ) → In j (ids_of acc) → In j (ids_of (acc ++ children)) = λ j k.
        let (c, c_in, e) = (in-map _ j acc).0 k in
        (in-map _ j (acc ++ children)).1 (c, (in-append c acc children).1 (inl c_in), e) in
      let new_in : (c : UserPermissionGrant) → In c children → In c.id (ids_of (acc ++ children)) =
        λ c k.
          (in-map _ c.id (acc ++ children)).1 (c, (in-append c acc children).1 (inr k), refl) in
      let (kept, closed) =
        cascade_complete fuel (ids_of children) (acc ++ children) r
          (λ j k.
            let (c, c_in, e) = (in-map _ j (acc ++ children)).0 k in
            elim ((in-append c acc children).0 c_in) [
              | inr new ↦ inl ((in-map _ j children).1 (c, new, e))
              | inl old ↦ elim (inv j ((in-map _ j acc).1 (c, old, e))) [
                | inl waiting ↦ inr (λ d row live.
                    new_in d (live_children_complete grants (x ∷ xs) d j row waiting live))
                | inr done ↦ inr (λ d row live. old_in d.id (done d row live))
              ]
            ])
          h in
      ((λ i m. kept i (old_in i m)), closed)

  cascade_descends :
      (r : List UserPermissionGrant)
      → ((i : ℕ) → In i (ids_of r) → IsClosed [] r i)
      → In root (ids_of r)
      → (i : ℕ) → Descends grants root i
      → In i (ids_of r)
  cascade_descends r closed top i start = top
  cascade_descends r closed top i (child {p} c j d row live e) =
      elim (closed p (cascade_descends r closed top p d)) [
        | inl f ↦ absurd f
        | inr all ↦ subst (λ k. In k (ids_of r)) (sym e) (all c row live)
      ]

-- A run of the loop that ends has collected exactly the descendants.
pub cascade_iff :
    (grants : List UserPermissionGrant) (fuel : ℕ) (g : UserPermissionGrant)
    (r : List UserPermissionGrant)
    → cascade grants fuel (g.id ∷ []) (g ∷ []) ≡ some r
    → (i : ℕ) → In i (ids_of r) ↔ Descends grants g.id i
cascade_iff grants fuel g r h i =
    let top : (j : ℕ) → In j (g.id ∷ []) → Descends grants g.id j =
      λ j m. elim m [ inl e ↦ subst (Descends grants g.id) (sym e) start | inr f ↦ absurd f ] in
    let (kept, closed) =
      cascade_complete grants g.id fuel (g.id ∷ []) (g ∷ []) r (λ j m. inl m) h in
    (
      cascade_sound grants g.id fuel (g.id ∷ []) (g ∷ []) r top top h i,
      cascade_descends grants g.id r closed (kept g.id (inl refl)) i,
    )

-- ===== src/Rbac/Grants/Order.antt =====
-- The order of grants and the rounds of the loop of `revoke_grant` (app/rbac/service.py).
use zylo_office_backend.Prelude.{
  ℕ, zero, suc, ◌+◌, ◌<◌, ◌≤◌, ◌≡◌, refl, ap, sym, subst, ◌∙◌, ◌⊎◌, inl, inr, false, some, List, [],
  ◌∷◌, ◌++◌, map, ◌==◌, nat_eq, if◌then◌else◌, In, in-map, length, arith, beq_true, Bool-cases,
  ne_false,
}
use zylo_office_backend.Rbac.Tables.{UserPermissionGrant}
use zylo_office_backend.Rbac.Grants.{live_children, ids_of, cascade, stamp}
use zylo_office_backend.Rbac.Grants.Cascade.{live_children_sound}

-- In a table read after the ids `seen`, every id is new, and a delegation is from an id already
-- seen.
abbrev pub IsOrdered : List ℕ → List UserPermissionGrant → Type 0
IsOrdered seen [] = Unit
IsOrdered seen (g ∷ gs) =
    (¬ In g.id seen)
    × ((p : ℕ) → g.delegated_from_grant_id ≡ some p → In p seen)
    × IsOrdered (g.id ∷ seen) gs

-- The place of the first grant with this id; the length of the table if there is none.
rank : List UserPermissionGrant → ℕ → ℕ
rank [] i = 0
rank (g ∷ gs) i = if g.id == i then 0 else suc (rank gs i)

IsOrdered-unseen :
    (seen : List ℕ) (gs : List UserPermissionGrant) (g : UserPermissionGrant)
    → IsOrdered seen gs
    → In g gs
    → ¬ In g.id seen
IsOrdered-unseen seen [] g o m s = absurd m
IsOrdered-unseen seen (x ∷ gs) g o m s = elim m [
  | inl e ↦ o.0 (subst (λ (y : UserPermissionGrant). In y.id seen) e s)
  | inr k ↦ IsOrdered-unseen (x.id ∷ seen) gs g o.2 k (inr s)
]

pub IsOrdered-unique :
    (seen : List ℕ) (gs : List UserPermissionGrant) (g h : UserPermissionGrant)
    → IsOrdered seen gs
    → In g gs
    → In h gs
    → g.id ≡ h.id
    → g ≡ h
IsOrdered-unique seen [] g h o m k e = absurd m
IsOrdered-unique seen (x ∷ gs) g h o m k e = elim m [
  | inl p ↦ elim k [
    | inl q ↦ p ∙ sym q
    | inr t ↦ absurd (
        IsOrdered-unseen (x.id ∷ seen) gs h o.2 t
          (inl (sym e ∙ ap (λ (y : UserPermissionGrant). y.id) p)))
  ]
  | inr s ↦ elim k [
    | inl q ↦ absurd (
        IsOrdered-unseen (x.id ∷ seen) gs g o.2 s
          (inl (e ∙ ap (λ (y : UserPermissionGrant). y.id) q)))
    | inr t ↦ IsOrdered-unique (x.id ∷ seen) gs g h o.2 s t e
  ]
]

pub IsOrdered-parent :
    (seen : List ℕ) (gs : List UserPermissionGrant) (c : UserPermissionGrant) (p : ℕ)
    → IsOrdered seen gs
    → In c gs
    → c.delegated_from_grant_id ≡ some p
    → In p seen ⊎ In p (ids_of gs)
IsOrdered-parent seen [] c p o m e = absurd m
IsOrdered-parent seen (x ∷ gs) c p o m e = elim m [
  | inl q ↦ inl (o.1 p (ap (λ (y : UserPermissionGrant). y.delegated_from_grant_id) (sym q) ∙ e))
  | inr k ↦ elim (IsOrdered-parent (x.id ∷ seen) gs c p o.2 k e) [
    | inl s ↦ elim s [ inl here ↦ inr (inl here) | inr old ↦ inl old ]
    | inr later ↦ inr (inr later)
  ]
]

rank-parent :
    (seen : List ℕ) (gs : List UserPermissionGrant) (c : UserPermissionGrant) (p : ℕ)
    → IsOrdered seen gs
    → In c gs
    → c.delegated_from_grant_id ≡ some p
    → In p seen ⊎ (rank gs p < rank gs c.id)
unfolding rank
rank-parent seen [] c p o m e = absurd m
rank-parent seen (x ∷ gs) c p o m e = elim m [
  | inl q ↦ inl (o.1 p (ap (λ (y : UserPermissionGrant). y.delegated_from_grant_id) (sym q) ∙ e))
  | inr k ↦
      let later : (x.id == c.id) ≡ false =
        ne_false x.id c.id (λ same. IsOrdered-unseen (x.id ∷ seen) gs c o.2 k (inl (sym same))) in
      elim (rank-parent (x.id ∷ seen) gs c p o.2 k e) [
        | inl s ↦ elim s [
          | inl here ↦ inr (rw (later, beq_true x.id p (sym here)) (omega arith))
          | inr old ↦ inl old
        ]
        | inr lt ↦ inr (
            rw later (elim (Bool-cases (x.id == p)) [
              | inl first ↦ rw first (omega arith)
              | inr other ↦ rw other (omega arith)
            ]))
      ]
]

rank-lt-length : (gs : List UserPermissionGrant) (i : ℕ) → In i (ids_of gs) → rank gs i < length gs
unfolding rank
rank-lt-length [] i m = absurd m
rank-lt-length (x ∷ gs) i m = elim (Bool-cases (x.id == i)) [
  | inl first ↦ rw first (omega arith)
  | inr other ↦ rw other (elim m [
    | inl e ↦ cc (beq_true x.id i (sym e))
    | inr k ↦ omega (arith, rank-lt-length gs i k)
  ])
]

-- Each round goes to later places of the table, so as many rounds as it has rows are enough.
cascade_total :
    (grants : List UserPermissionGrant)
    → IsOrdered [] grants
    → (fuel k : ℕ) (frontier : List ℕ) (acc : List UserPermissionGrant)
    → ((i : ℕ) → In i frontier → In i (ids_of grants) × (k ≤ rank grants i))
    → length grants < fuel + k
    → (r : List UserPermissionGrant) × (cascade grants fuel frontier acc ≡ some r)
unfolding cascade
cascade_total grants o zero k [] acc f h = (acc, refl)
cascade_total grants o (suc fuel) k [] acc f h = (acc, refl)
cascade_total grants o zero k (x ∷ xs) acc f h =
    let (row, above) = f x (inl refl) in absurd (omega (arith, rank-lt-length grants x row))
cascade_total grants o (suc fuel) k (x ∷ xs) acc f h =
    let children = live_children grants (x ∷ xs) in
    cascade_total grants o fuel (suc k) (ids_of children) (acc ++ children)
      (λ i m.
        let (c, c_in, e) = (in-map _ i children).0 m in
        let (row, (p, p_in, live)) = live_children_sound grants (x ∷ xs) c c_in in
        let (p_row, above) = f p p_in in
        (
          (in-map _ i grants).1 (c, row, e),
          elim (rank-parent [] grants c p o row live.0) [
            | inl none_seen ↦ absurd none_seen
            | inr lt ↦ rw e (omega arith)
          ],
        ))
      (omega arith)

pub cascade_ends :
    (grants : List UserPermissionGrant) (g : UserPermissionGrant)
    → IsOrdered [] grants
    → In g grants
    → (r : List UserPermissionGrant) × (cascade grants (suc (length grants)) (g.id ∷ []) (g ∷ [])
        ≡ some r)
cascade_ends grants g o row =
    cascade_total grants o (suc (length grants)) 0 (g.id ∷ []) (g ∷ [])
      (λ i m. elim m [
        | inl e ↦ ((in-map _ i grants).1 (g, row, e), omega arith)
        | inr f ↦ absurd f
      ])
      (omega arith)

id-stamp : (now : ℕ) (ids : List ℕ) (g : UserPermissionGrant) → (stamp now ids g).id ≡ g.id
unfolding stamp
id-stamp now ids g = ground arith

pub delegated-stamp :
    (now : ℕ) (ids : List ℕ) (g : UserPermissionGrant)
    → (stamp now ids g).delegated_from_grant_id ≡ g.delegated_from_grant_id
unfolding stamp
delegated-stamp now ids g = ground arith

pub IsOrdered-stamp :
    (now : ℕ) (ids seen : List ℕ) (gs : List UserPermissionGrant)
    → IsOrdered seen gs
    → IsOrdered seen (map (stamp now ids) gs)
IsOrdered-stamp now ids seen [] o = tt
IsOrdered-stamp now ids seen (g ∷ gs) o =
    rw (id-stamp now ids g, delegated-stamp now ids g)
      (o.0, o.1, IsOrdered-stamp now ids (g.id ∷ seen) gs o.2)

pub IsOrdered-append :
    (seen : List ℕ) (gs : List UserPermissionGrant) (g : UserPermissionGrant)
    → IsOrdered seen gs
    → ¬ In g.id seen
    → ¬ In g.id (ids_of gs)
    → ((p : ℕ) → g.delegated_from_grant_id ≡ some p → In p seen ⊎ In p (ids_of gs))
    → IsOrdered seen (gs ++ g ∷ [])
IsOrdered-append seen [] g o unseen new parent =
    (unseen, (λ p e. elim (parent p e) [ inl s ↦ s | inr f ↦ absurd f ]), tt)
IsOrdered-append seen (x ∷ gs) g o unseen new parent = (
  o.0,
  o.1,
  IsOrdered-append (x.id ∷ seen) gs g o.2 (λ s. elim s [ inl e ↦ new (inl e) | inr k ↦ unseen k ])
      (λ m. new (inr m))
      (λ p e. elim (parent p e) [
        | inl s ↦ inl (inr s)
        | inr m ↦ elim m [ inl here ↦ inl (inl here) | inr later ↦ inr later ]
      ]),
)

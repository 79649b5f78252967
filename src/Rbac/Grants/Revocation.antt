-- ===== src/Rbac/Grants/Revocation.antt =====
-- `revoke_grant`, and the order of the grants under it and `create_grant` (app/rbac/service.py).
use zylo_office_backend.Prelude.{
  ℕ, suc, String, ◌≡◌, refl, ap, sym, subst, ◌∙◌, ◌↔◌, inl, inr, Bool-cases, Option-cases, Option,
  none, some, List, [], ◌∷◌, ◌++◌, map, ◌==◌, nat_eq, In, in-append, in-map, find, find-in,
  find-some, length, arith, beq_true, beq_sound, Result, ok, or_raise, >>=-eq-ok, guard->>-eq-ok,
  or_raise-eq-ok, ok-pair, grant_not_found, invalid_delegation_source, and-true, is_none-eq,
  find-total,
}
use zylo_office_backend.Rbac.Tables.{Db, UserPermissionGrant}
use zylo_office_backend.Rbac.Roles.{add_audit_event, get_permission_or_404}
use zylo_office_backend.Rbac.Grants.{
  contains, ids_of, cascade, stamp, revoke_grant, revoked_with, finish_revocation, create_grant,
  check_delegation,
}
use zylo_office_backend.Rbac.Grants.Cascade.{Descends, child, cascade_iff, contains_iff}
use zylo_office_backend.Rbac.Grants.Order.{
  IsOrdered, IsOrdered-unique, IsOrdered-parent, cascade_ends, IsOrdered-stamp, IsOrdered-append,
  delegated-stamp,
}

-- Every id is new and every delegation is from an older grant; a grant in force is not delegated
-- from a revoked one.
pub record IsValid (db : Db) : Type 0 where
  pub ordered : IsOrdered [] db.grants
  pub closed :
      (c g : UserPermissionGrant)
      → In c db.grants
      → In g db.grants
      → c.delegated_from_grant_id ≡ some g.id
      → c.revoked_at ≡ none
      → g.revoked_at ≡ none

-- On a grant of this organisation the loop ends, with the fuel that the model gives it; the new
-- table is the old one with a stamp on exactly the grant and those that descend from it.
pub revoke_grant_lem :
    (db : Db) (now organization_id actor : ℕ) (g : UserPermissionGrant)
    → IsValid db
    → In g db.grants
    → g.organization_id ≡ organization_id
    → (db' : Db) × (revoke_grant db now organization_id actor g.id ≡ ok (some db'))
      × ((ids : List ℕ) × (db'.grants ≡ map (stamp now ids) db.grants)
          × ((i : ℕ) → In i ids ↔ Descends db.grants g.id i))
unfolding revoke_grant add_audit_event
revoke_grant_lem db now org actor g valid row in_org =
    let (r, ends) = cascade_ends db.grants g valid.ordered row in
    let (x, found) =
      find-total (λ (y : UserPermissionGrant). y.id == g.id) db.grants g row
        (beq_true g.id g.id refl) in
    let is_g : x ≡ g =
      IsOrdered-unique [] db.grants x g valid.ordered (find-in _ db.grants found) row
        (beq_sound x.id g.id (find-some _ db.grants x found)) in
    (
      revoked_with db now org actor g.id r,
      rw (found ∙ ap some is_g, beq_true g.organization_id org in_org, ends),
      (ids_of r, refl, cascade_iff db.grants (suc (length db.grants)) g r ends),
    )

stamp_live :
    (now : ℕ) (ids : List ℕ) (g : UserPermissionGrant)
    → (stamp now ids g).revoked_at ≡ none
    → (¬ In g.id ids) × (stamp now ids g ≡ g)
unfolding stamp
stamp_live now ids g h = elim (Bool-cases (contains ids g.id)) [
  | inl hit ↦ cc (rw hit at h)
  | inr miss ↦ ((λ m. cc (miss, (contains_iff ids g.id).1 m)), rw miss)
]

stamp_miss :
    (now : ℕ) (ids : List ℕ) (g : UserPermissionGrant) → ¬ In g.id ids → stamp now ids g ≡ g
unfolding stamp
stamp_miss now ids g h = elim (Bool-cases (contains ids g.id)) [
  | inl hit ↦ absurd (h ((contains_iff ids g.id).0 hit))
  | inr miss ↦ rw miss
]

id-stamp : (now : ℕ) (ids : List ℕ) (g : UserPermissionGrant) → (stamp now ids g).id ≡ g.id
unfolding stamp
id-stamp now ids g = ground arith

-- Stamping a set of ids that holds the children in force of its members.
stamped-IsValid :
    (db db' : Db) (now : ℕ) (ids : List ℕ)
    → IsValid db
    → db'.grants ≡ map (stamp now ids) db.grants
    → ((c : UserPermissionGrant) (p : ℕ)
        → In c db.grants
        → In p ids
        → c.delegated_from_grant_id ≡ some p
        → c.revoked_at ≡ none
        → In c.id ids)
    → IsValid db'
stamped-IsValid db db' now ids valid same children = record {
  ordered =
      subst (λ (l : List UserPermissionGrant). IsOrdered [] l) (sym same)
        (IsOrdered-stamp now ids [] db.grants valid.ordered);
  closed = λ c' g' c_in g_in e live.
      let (c, c_row, c_eq) =
        (in-map (stamp now ids) c' db.grants).0
          (subst (λ (l : List UserPermissionGrant). In c' l) same c_in) in
      let (g, g_row, g_eq) =
        (in-map (stamp now ids) g' db.grants).0
          (subst (λ (l : List UserPermissionGrant). In g' l) same g_in) in
      let (c_out, c_same) =
        stamp_live now ids c (ap (λ (x : UserPermissionGrant). x.revoked_at) (sym c_eq) ∙ live) in
      let c_live : c.revoked_at ≡ none =
        ap (λ (x : UserPermissionGrant). x.revoked_at) (sym (c_eq ∙ c_same)) ∙ live in
      let c_from : c.delegated_from_grant_id ≡ some g.id =
        sym (delegated-stamp now ids c)
        ∙ ap (λ (x : UserPermissionGrant). x.delegated_from_grant_id) (sym c_eq)
        ∙ e
        ∙ ap (λ (x : UserPermissionGrant). some x.id) g_eq
        ∙ ap some (id-stamp now ids g) in
      let g_same : stamp now ids g ≡ g =
        stamp_miss now ids g (λ m. c_out (children c g.id c_row m c_from c_live)) in
      ap (λ (x : UserPermissionGrant). x.revoked_at) (g_eq ∙ g_same)
      ∙ valid.closed c g c_row g_row c_from c_live;
}

finish_none :
    (db : Db) (now o a i : ℕ) (run : Option (List UserPermissionGrant)) (db' : Db)
    → run ≡ none
    → ◌≡◌ {A = Result (Option Db)} (ok (finish_revocation db now o a i run)) (ok (some db'))
    → ⊥
finish_none db now o a i none db' e h = cc
finish_none db now o a i (some r) db' e h = cc

finish_some :
    (db : Db) (now o a i : ℕ) (run : Option (List UserPermissionGrant))
    (r : List UserPermissionGrant) (db' : Db)
    → run ≡ some r
    → ◌≡◌ {A = Result (Option Db)} (ok (finish_revocation db now o a i run)) (ok (some db'))
    → revoked_with db now o a i r ≡ db'
finish_some db now o a i none r db' e h = cc
finish_some db now o a i (some x) r db' e h =
    let same : x ≡ r = ground arith in
    let eq : revoked_with db now o a i x ≡ db' = ground arith in
    ap (revoked_with db now o a i) (sym same) ∙ eq

-- A revocation keeps the grants valid: none stays in force below a revoked one.
pub revoke_grant-IsValid :
    (db : Db) (now organization_id actor grant_id : ℕ) (db' : Db)
    → IsValid db
    → revoke_grant db now organization_id actor grant_id ≡ ok (some db')
    → IsValid db'
unfolding revoke_grant add_audit_event
revoke_grant-IsValid db now org actor grant_id db' valid h =
    let (g, found, h1) =
      >>=-eq-ok
        (or_raise (find (λ (y : UserPermissionGrant). y.id == grant_id) db.grants) grant_not_found)
        _ h in
    let (in_org, h2) = guard->>-eq-ok _ _ _ h1 in
    let run = cascade db.grants (suc (length db.grants)) (g.id ∷ []) (g ∷ []) in
    elim (Option-cases run) [
      | inl out ↦ absurd (finish_none db now org actor g.id run db' out h2)
      | inr (r, ends) ↦
          let exact = cascade_iff db.grants (suc (length db.grants)) g r ends in
          let db_eq = finish_some db now org actor g.id run r db' ends h2 in
          stamped-IsValid db db' now (ids_of r) valid (ap (λ (d : Db). d.grants) (sym db_eq))
            (λ c p c_row p_in e live.
              (exact c.id).1 (child c c.id ((exact p).0 p_in) c_row (e, live) refl))
    ]

-- A new grant in force, delegated from none or from a grant in force, keeps the table valid.
appended-IsValid :
    (db db' : Db) (x : UserPermissionGrant)
    → IsValid db
    → db'.grants ≡ db.grants ++ x ∷ []
    → ¬ In x.id (ids_of db.grants)
    → ((p : ℕ)
        → x.delegated_from_grant_id ≡ some p
        → (g : UserPermissionGrant) × In g db.grants × (g.id ≡ p) × (g.revoked_at ≡ none))
    → IsValid db'
appended-IsValid db db' x valid same new source = record {
  ordered =
      subst (λ (l : List UserPermissionGrant). IsOrdered [] l) (sym same)
        (IsOrdered-append [] db.grants x valid.ordered (λ m. m) new
          (λ p e.
            let (g, row, g_id, live) = source p e in
            inr ((in-map _ p db.grants).1 (g, row, sym g_id))));
  closed = λ c g c_in g_in e live.
      let c_where =
        (in-append c db.grants (x ∷ [])).0
          (subst (λ (l : List UserPermissionGrant). In c l) same c_in) in
      let g_where =
        (in-append g db.grants (x ∷ [])).0
          (subst (λ (l : List UserPermissionGrant). In g l) same g_in) in
      elim c_where [
        | inl c_old ↦ elim g_where [
          | inl g_old ↦ valid.closed c g c_old g_old e live
          | inr g_new ↦ elim g_new [
            | inl q ↦ elim (IsOrdered-parent [] db.grants c g.id valid.ordered c_old e) [
              | inl f ↦ absurd f
              | inr m ↦
                  absurd (new (subst (λ (y : UserPermissionGrant). In y.id (ids_of db.grants)) q m))
            ]
            | inr f ↦ absurd f
          ]
        ]
        | inr c_new ↦ elim c_new [
          | inl q ↦
              let (s, s_row, s_id, s_live) =
                source g.id
                  (ap (λ (y : UserPermissionGrant). y.delegated_from_grant_id) (sym q) ∙ e) in
              elim g_where [
                | inl g_old ↦
                    ap (λ (y : UserPermissionGrant). y.revoked_at)
                      (IsOrdered-unique [] db.grants g s valid.ordered g_old s_row (sym s_id))
                    ∙ s_live
                | inr g_new ↦ elim g_new [
                  | inl r ↦ absurd (
                      new (
                        (in-map _ x.id db.grants).1
                          (s, s_row, sym (s_id ∙ ap (λ (y : UserPermissionGrant). y.id) r))))
                  | inr f ↦ absurd f
                ]
              ]
          | inr f ↦ absurd f
        ]
      ];
}

check_delegation_lem :
    (db : Db) (granter : ℕ) (origin : Option ℕ) (o : String)
    → check_delegation db granter origin ≡ ok o
    → (p : ℕ) → origin ≡ some p
    → (g : UserPermissionGrant) × In g db.grants × (g.id ≡ p) × (g.revoked_at ≡ none)
unfolding check_delegation
check_delegation_lem db granter none o h p e = cc
check_delegation_lem db granter (some i) o h p e =
    let (g, found, h1) = >>=-eq-ok (or_raise _ invalid_delegation_source) _ h in
    let (test, h2) = guard->>-eq-ok _ _ _ h1 in
    let is_g = or_raise-eq-ok _ invalid_delegation_source found in
    let same : i ≡ p = ground arith in
    (
      g,
      find-in _ db.grants is_g,
      beq_sound g.id i (find-some _ db.grants g is_g) ∙ same,
      is_none-eq g.revoked_at (and-true (g.user_id == granter) _ test).1,
    )

-- A creation keeps the grants valid: a delegation is refused unless its source is in force.
pub create_grant-IsValid :
    (db : Db) (now organization_id granter target : ℕ) (code effect : String) (rt : Option String)
    (ri valid_until : Option ℕ) (audit_note : Option String) (origin : Option ℕ) (fresh : ℕ)
    (g : UserPermissionGrant) (db' : Db)
    → IsValid db
    → ¬ In fresh (ids_of db.grants)
    → create_grant db now organization_id granter target code effect rt ri valid_until audit_note
        origin fresh
      ≡ ok (g, db')
    → IsValid db'
unfolding create_grant add_audit_event
create_grant-IsValid db now org_id granter target code effect rt ri valid_until audit_note origin
      fresh g db' valid new h =
    let (effect_ok, h1) = guard->>-eq-ok _ _ _ h in
    let (p, found, h2) = >>=-eq-ok (get_permission_or_404 db code) _ h1 in
    let (o, delegated, h3) = >>=-eq-ok (check_delegation db granter origin) _ h2 in
    let (held, done) = guard->>-eq-ok _ _ _ h3 in
    let (g_eq, db_eq) = ok-pair _ g _ db' done in
    appended-IsValid db db' _ valid (ap (λ (d : Db). d.grants) (sym db_eq)) new
      (λ i e. check_delegation_lem db granter origin o delegated i e)

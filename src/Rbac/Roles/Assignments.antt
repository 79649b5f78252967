-- ===== src/Rbac/Roles/Assignments.antt =====
-- The effect of `assign_role` and `unassign_role` on what users may do (app/rbac/service.py).
use zylo_office_backend.Prelude.{
  ℕ, String, ◌≡◌, ◌≢◌, refl, ap, sym, subst, ◌∙◌, ◌↔◌, ◌⊎◌, inl, inr, true, not, Option, none, some,
  [], ◌∷◌, ◌++◌, ◌==◌, string_eq, nat_eq, option_eq, In, All, All-in, find-in, find-some, select,
  in-select, in-append, arith, beq_true, beq_sound, ok, or_raise, scalar_one_or_none, >>=-eq-ok,
  guard->>-eq-ok, or_raise-eq-ok, not-true, ne_test, ok-pair, role_not_assigned,
}
use zylo_office_backend.Rbac.Tables.{Db, UserRole}
use zylo_office_backend.Rbac.Resolution.{user_has_permission, assert_no_privilege_escalation}
use zylo_office_backend.Rbac.Resolution.Refinement.{Covers, RoleAllows}
use zylo_office_backend.Rbac.Resolution.Transfer.{
  GrantApplies-mono, RoleAllows-mono, allowed-transfer,
}
use zylo_office_backend.Rbac.Roles.Contents.{role_code_iff, assert_no_privilege_escalation_lem}
use zylo_office_backend.Rbac.Roles.Effects.{get_role_lem}
use zylo_office_backend.Rbac.Roles.{
  get_role, get_role_permission_codes, assign_role, unassign_role, add_audit_event,
}

module _ (db : Db) (now organization_id granter role_id : ℕ) (rt : Option String) (ri : Option ℕ)
    (holds : All
      (λ code. user_has_permission db now granter organization_id code rt ri ≡ true)
      (get_role_permission_codes db role_id))
    (ur : UserRole) (ur_role : ur.role_id ≡ role_id) (a : ℕ) (s t : String) (e : Option ℕ) where
  abbrev assigned : Db
  assigned =
      add_audit_event (record db { user_roles = db.user_roles ++ ur ∷ [] }) organization_id a s t e
        none rt ri

  -- What the new attribution can add, to whom and where.
  abbrev FromAssignment : ℕ → ℕ → String → Option String → Option ℕ → Type 0
  FromAssignment u org code rt' ri' =
      (u ≡ ur.user_id)
      × (org ≡ ur.organization_id)
      × Covers ur.resource_type ur.resource_id rt' ri'
      × (user_has_permission db now granter organization_id code rt ri ≡ true)

  RoleAllows-assigned :
      (u org : ℕ) (code : String) (rt' : Option String) (ri' : Option ℕ)
      → RoleAllows assigned u org code rt' ri'
      → RoleAllows db u org code rt' ri' ⊎ FromAssignment u org code rt' ri'
  unfolding add_audit_event
  RoleAllows-assigned u org code rt' ri' h =
      elim ((in-append h.attribution db.user_roles (ur ∷ [])).0 h.attributed) [
        | inl old ↦
            inl (
              RoleAllows-mono assigned db u org code rt' ri' h old (λ x m. m) (λ x m. m) (λ x m. m))
        | inr new ↦ elim new [
          | inl q ↦ inr (
            sym h.to_user ∙ ap (λ (x : UserRole). x.user_id) q,
            sym h.in_organization ∙ ap (λ (x : UserRole). x.organization_id) q,
            subst (λ (x : UserRole). Covers x.resource_type x.resource_id rt' ri') q h.covers,
            All-in _ code _ holds (
                (role_code_iff db role_id code).1 (record {
                  link = h.link;
                  linked = h.linked;
                  link_of_role =
                      sym h.link_of_role
                      ∙ sym h.role_attributed
                      ∙ ap (λ (x : UserRole). x.role_id) q
                      ∙ ur_role;
                  permission = h.permission;
                  permission_exists = h.permission_exists;
                  permission_linked = h.permission_linked;
                  has_this_code = sym h.has_this_code;
                })),
          )
          | inr no_more ↦ absurd no_more
        ]
      ]

  assigned_bounded :
      (now' u org : ℕ) (code : String) (rt' : Option String) (ri' : Option ℕ)
      → user_has_permission assigned now' u org code rt' ri' ≡ true
      → (user_has_permission db now' u org code rt' ri' ≡ true) ⊎ FromAssignment u org code rt' ri'
  unfolding add_audit_event
  assigned_bounded now' u org code rt' ri' =
      allowed-transfer assigned db u org code rt' ri' now' (FromAssignment u org code rt' ri')
        (RoleAllows-assigned u org code rt' ri')
        (λ g.
          inl
            (GrantApplies-mono assigned db u org code rt' ri' now' "allow" (λ x m. m) (λ x m. m) g))
        (λ g. GrantApplies-mono db assigned u org code rt' ri' now' "deny" (λ x m. m) (λ x m. m) g)

-- After an attribution that succeeds, whoever has a permission had it before, or is the target in
-- this organisation, at a scope that the attribution covers, and the granter had that permission
-- at the scope of the attribution.
pub assign_role_bounded :
    (db : Db) (now organization_id granter target role_id : ℕ) (rt : Option String) (ri : Option ℕ)
    (fresh : ℕ) (ur : UserRole) (db' : Db)
    → assign_role db now organization_id granter target role_id rt ri fresh ≡ ok (ur, db')
    → (now' u org : ℕ) (code : String) (rt' : Option String) (ri' : Option ℕ)
    → user_has_permission db' now' u org code rt' ri' ≡ true
    → (user_has_permission db now' u org code rt' ri' ≡ true)
      ⊎ ((u ≡ target)
          × (org ≡ organization_id)
          × Covers rt ri rt' ri'
          × (user_has_permission db now granter organization_id code rt ri ≡ true))
unfolding assign_role
assign_role_bounded db now org_id granter target role_id rt ri fresh ur db' h now' u org code rt'
      ri' allowed =
    let (role, found, h1) = >>=-eq-ok (get_role db org_id role_id) _ h in
    let (v, checked, h2) =
      >>=-eq-ok
        (assert_no_privilege_escalation db now org_id granter (get_role_permission_codes db role.id)
          rt ri)
        _ h1 in
    let (existing, e_found, h3) = >>=-eq-ok (scalar_one_or_none _) _ h2 in
    let (is_new, done) = guard->>-eq-ok _ _ _ h3 in
    let (row, role_id_eq, role_org) = get_role_lem db org_id role_id role found in
    let new_row : UserRole = record {
      id = fresh;
      user_id = target;
      organization_id = org_id;
      role_id = role_id;
      resource_type = rt;
      resource_id = ri;
    } in
    let (ur_eq, db_eq) = ok-pair new_row ur _ db' done in
    let e : Option ℕ = some role.id in
    let holds =
      assert_no_privilege_escalation_lem db now org_id granter
        (get_role_permission_codes db role.id) rt ri checked in
    assigned_bounded db now org_id granter role_id rt ri
      (subst
        (λ (i : ℕ).
          All (λ c. user_has_permission db now granter org_id c rt ri ≡ true)
            (get_role_permission_codes db i))
        role_id_eq holds)
      new_row refl granter "rbac.role.assign" "UserRole" e now' u org code rt' ri'
      (subst (λ (d : Db). user_has_permission d now' u org code rt' ri' ≡ true) (sym db_eq) allowed)

module _ (db : Db) (organization_id actor assignment_id : ℕ) (s t : String) (e : Option ℕ) where
  abbrev withdrawn : Db
  withdrawn =
      add_audit_event
        (record db {
          user_roles = select (λ (x : UserRole). not (x.id == assignment_id)) db.user_roles;
        })
        organization_id actor s t e none none none

  withdrawn-rows :
      (ur : UserRole) → In ur withdrawn.user_roles ↔ (In ur db.user_roles × (ur.id ≢ assignment_id))
  unfolding add_audit_event
  withdrawn-rows ur = (
    (λ m.
        let (row, test) = (in-select _ ur db.user_roles).0 m in
        (row, (λ q. cc (not-true (ur.id == assignment_id) test, beq_true ur.id assignment_id q)))),
    (λ (row, ne). (in-select _ ur db.user_roles).1 (row, ne_test ur.id assignment_id ne)),
  )

  withdrawn_bounded :
      (now u org : ℕ) (code : String) (rt : Option String) (ri : Option ℕ)
      → user_has_permission withdrawn now u org code rt ri ≡ true
      → user_has_permission db now u org code rt ri ≡ true
  unfolding add_audit_event
  withdrawn_bounded now u org code rt ri h =
      elim (allowed-transfer withdrawn db u org code rt ri now ⊥
        (λ r. inl (
          RoleAllows-mono withdrawn db u org code rt ri r
            ((withdrawn-rows r.attribution).0 r.attributed).0 (λ x m. m) (λ x m. m) (λ x m. m)))
        (λ g.
          inl (GrantApplies-mono withdrawn db u org code rt ri now "allow" (λ x m. m) (λ x m. m) g))
        (λ g. GrantApplies-mono db withdrawn u org code rt ri now "deny" (λ x m. m) (λ x m. m) g)
        h) [ inl k ↦ k | inr f ↦ absurd f ]

-- A withdrawal that succeeds is of an attribution of this organisation; it deletes exactly the
-- rows with that id, and nobody has a permission after it that they did not have before.
pub unassign_role_lem :
    (db : Db) (organization_id actor assignment_id : ℕ) (db' : Db)
    → unassign_role db organization_id actor assignment_id ≡ ok db'
    → ((ur : UserRole) × In ur db.user_roles
        × (ur.id ≡ assignment_id)
        × (ur.organization_id ≡ organization_id))
      × ((ur : UserRole) → In ur db'.user_roles ↔ (In ur db.user_roles × (ur.id ≢ assignment_id)))
      × ((now u org : ℕ) (code : String) (rt : Option String) (ri : Option ℕ)
          → user_has_permission db' now u org code rt ri ≡ true
          → user_has_permission db now u org code rt ri ≡ true)
unfolding unassign_role
unassign_role_lem db org_id actor assignment_id db' h =
    let (x, found, h1) = >>=-eq-ok (or_raise _ role_not_assigned) _ h in
    let (x_org, done) = guard->>-eq-ok _ _ _ h1 in
    let is_x = or_raise-eq-ok _ role_not_assigned found in
    let e : Option ℕ = some x.role_id in
    let db_eq : withdrawn db org_id actor assignment_id "rbac.role.unassign" "UserRole" e ≡ db' =
      ground arith in
    (
      (
        x,
        find-in _ db.user_roles is_x,
        beq_sound x.id assignment_id (find-some _ db.user_roles x is_x),
        beq_sound x.organization_id org_id x_org,
      ),
      (λ ur.
          subst (λ (d : Db). In ur d.user_roles ↔ (In ur db.user_roles × (ur.id ≢ assignment_id)))
            db_eq
            (withdrawn-rows db org_id actor assignment_id "rbac.role.unassign" "UserRole" e ur)),
      (λ now u org code rt ri allowed.
          withdrawn_bounded db org_id actor assignment_id "rbac.role.unassign" "UserRole" e now u
            org code rt ri
            (subst (λ (d : Db). user_has_permission d now u org code rt ri ≡ true) (sym db_eq)
              allowed)),
    )

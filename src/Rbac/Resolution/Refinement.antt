-- ===== src/Rbac/Resolution/Refinement.antt =====
-- What an authorisation means, said over the tables and with no algorithm, against
-- `user_has_permission` (app/rbac/service.py).
use zylo_office_backend.Prelude.{
  ℕ, ◌≤◌, ◌<◌, String, ◌≡◌, ◌≢◌, refl, ap, ◌↔◌, ◌⊎◌, inl, inr, true, Bool-cases, and-true, or-true,
  Option, none, some, ◌==◌, string_eq, nat_eq, option_eq, is_none, leb, In, any, any_iff, in-select,
  in-map, in-flat_map, arith, beq_true, beq_sound, and_intro, is_none-eq, leb→le, le→leb, ltb→lt,
}
use zylo_office_backend.Rbac.Tables.{
  Db, Permission, Role, RolePermission, UserRole, UserPermissionGrant,
}
use zylo_office_backend.Rbac.Resolution.{
  scope_covers, RoleGrant, role_permission_grants, not_expired, is_live, has_code,
  applicable_grants, grant_covers, role_grant_covers, user_has_permission,
}

-- The whole organisation covers every request; a resource covers itself alone.
abbrev pub Covers : Option String → Option ℕ → Option String → Option ℕ → Type 0
Covers grant_type grant_id requested_type requested_id =
    (grant_type ≡ none)
    ⊎ ((grant_type ≢ none) × (grant_type ≡ requested_type) × (grant_id ≡ requested_id))

pub scope_covers_iff :
    (gt : Option String) (gi : Option ℕ) (rt : Option String) (ri : Option ℕ)
    → (scope_covers gt gi rt ri ≡ true) ↔ Covers gt gi rt ri
unfolding scope_covers
scope_covers_iff none gi rt ri = ((λ _. inl refl), (λ _. refl))
scope_covers_iff (some t) gi none ri =
    ((λ h. cc), (λ c. elim c [ inl e ↦ cc | inr (_, e, _) ↦ cc ]))
scope_covers_iff (some t) gi (some r) ri = (
  (λ h.
      let (a, b) = and-true (some t == some r) (gi == ri) h in
      inr ((λ e. cc), beq_sound (some t) (some r) a, beq_sound gi ri b)),
  (λ c. elim c [
    | inl e ↦ cc
    | inr (_, e, f) ↦ and_intro _ _ (beq_true (some t) (some r) e) (beq_true gi ri f)
  ]),
)

module _ (db : Db) (user_id organization_id : ℕ) (code : String) (rt : Option String)
    (ri : Option ℕ) where
  -- A role of the organisation that is attributed to the user at a scope which covers the
  -- request, and that holds a permission of this code.
  pub record RoleAllows : Type 0 where
    pub attribution : UserRole
    pub attributed : In attribution db.user_roles
    pub to_user : attribution.user_id ≡ user_id
    pub in_organization : attribution.organization_id ≡ organization_id
    pub role : Role
    pub role_exists : In role db.roles
    pub role_attributed : attribution.role_id ≡ role.id
    pub role_of_organization : role.organization_id ≡ organization_id
    pub link : RolePermission
    pub linked : In link db.role_permissions
    pub link_of_role : role.id ≡ link.role_id
    pub permission : Permission
    pub permission_exists : In permission db.permissions
    pub permission_linked : link.permission_id ≡ permission.id
    pub has_this_code : permission.code ≡ code
    pub covers : Covers attribution.resource_type attribution.resource_id rt ri

  -- An individual grant of this effect that is valid now, on this code, at a covering scope.
  pub record GrantApplies (now : ℕ) (effect : String) : Type 0 where
    pub grant : UserPermissionGrant
    pub granted : In grant db.grants
    pub to_user : grant.user_id ≡ user_id
    pub in_organization : grant.organization_id ≡ organization_id
    pub permission : Permission
    pub permission_exists : In permission db.permissions
    pub permission_granted : permission.id ≡ grant.permission_id
    pub has_this_code : permission.code ≡ code
    pub unrevoked : grant.revoked_at ≡ none
    pub started : grant.valid_from ≤ now
    pub unexpired : (u : ℕ) → grant.valid_until ≡ some u → now < u
    pub has_effect : grant.effect ≡ effect
    pub covers : Covers grant.resource_type grant.resource_id rt ri

not_expired_iff :
    (now : ℕ) (o : Option ℕ) → (not_expired now o ≡ true) ↔ ((u : ℕ) → o ≡ some u → now < u)
unfolding not_expired
not_expired_iff now none = ((λ h u e. cc), (λ h. refl))
not_expired_iff now (some v) = (
  (λ h u e. let k : now < v = ltb→lt now v h in ground arith),
  (λ h. let k : now < v = h v refl in ground arith),
)

is_live_iff :
    (now : ℕ) (g : UserPermissionGrant)
    → (is_live now g ≡ true) ↔ (
        (g.revoked_at ≡ none) × (g.valid_from ≤ now) × ((u : ℕ) → g.valid_until ≡ some u → now < u))
unfolding is_live
is_live_iff now g = (
  (λ h.
      let (a, b) = and-true (is_none g.revoked_at) _ h in
      let (c, d) = and-true (leb g.valid_from now) _ b in
      (
        is_none-eq g.revoked_at a,
        leb→le g.valid_from now c,
        (not_expired_iff now g.valid_until).0 d,
      )),
  (λ (a, b, c).
      and_intro _ _ (ap is_none a)
        (and_intro _ _ (le→leb g.valid_from now b) ((not_expired_iff now g.valid_until).1 c))),
)

has_code_iff :
    (db : Db) (i : ℕ) (code : String)
    → (has_code db i code ≡ true)
      ↔ ((p : Permission) × In p db.permissions × (p.id ≡ i) × (p.code ≡ code))
unfolding has_code
has_code_iff db i code = (
  (λ h.
      let (p, m, e) = (any_iff _ db.permissions).0 h in
      let (a, b) = and-true (p.id == i) (p.code == code) e in
      (p, m, beq_sound p.id i a, beq_sound p.code code b)),
  (λ (p, m, a, b).
      (any_iff _ db.permissions).1
        (p, m, and_intro _ _ (beq_true p.id i a) (beq_true p.code code b))),
)

module _ (db : Db) (user_id organization_id : ℕ) (code : String) (rt : Option String)
    (ri : Option ℕ) where
  pub RoleAllows-sound :
      any (role_grant_covers code rt ri) (role_permission_grants db user_id organization_id) ≡ true
      → RoleAllows db user_id organization_id code rt ri
  unfolding role_permission_grants role_grant_covers
  RoleAllows-sound h =
      let (g, m, e) = (any_iff _ _).0 h in
      let (ur, ur_in, g_in) = (in-flat_map _ g _).0 m in
      let (ur_row, ur_test) = (in-select _ ur db.user_roles).0 ur_in in
      let (r, r_in, g_in') = (in-flat_map _ g _).0 g_in in
      let (r_row, r_test) = (in-select _ r db.roles).0 r_in in
      let (rp, rp_in, g_in'') = (in-flat_map _ g _).0 g_in' in
      let (rp_row, rp_test) = (in-select _ rp db.role_permissions).0 rp_in in
      let (p, p_in, g_eq) = (in-map _ g _).0 g_in'' in
      let (p_row, p_test) = (in-select _ p db.permissions).0 p_in in
      let (code_eq, cov) = and-true (g.code == code) _ e in
      record {
        attribution = ur;
        attributed = ur_row;
        to_user = beq_sound ur.user_id user_id (and-true (ur.user_id == user_id) _ ur_test).0;
        in_organization =
            beq_sound ur.organization_id organization_id
              (and-true (ur.user_id == user_id) _ ur_test).1;
        role = r;
        role_exists = r_row;
        role_attributed = beq_sound ur.role_id r.id (and-true (ur.role_id == r.id) _ r_test).0;
        role_of_organization =
            beq_sound r.organization_id organization_id (and-true (ur.role_id == r.id) _ r_test).1;
        link = rp;
        linked = rp_row;
        link_of_role = beq_sound r.id rp.role_id rp_test;
        permission = p;
        permission_exists = p_row;
        permission_linked = beq_sound rp.permission_id p.id p_test;
        has_this_code = rw g_eq at (beq_sound g.code code code_eq);
        covers = (scope_covers_iff ur.resource_type ur.resource_id rt ri).0 (rw g_eq at cov);
      }

  pub RoleAllows-complete :
      RoleAllows db user_id organization_id code rt ri
      → any (role_grant_covers code rt ri) (role_permission_grants db user_id organization_id)
        ≡ true
  unfolding role_permission_grants role_grant_covers
  RoleAllows-complete a =
      let ur = a.attribution in
      let g : RoleGrant = record {
        code = a.permission.code;
        resource_type = ur.resource_type;
        resource_id = ur.resource_id;
      } in
      (any_iff _ _).1 (
        g,
        (in-flat_map _ g _).1 (
          ur,
          (in-select _ ur db.user_roles).1 (
            a.attributed,
            and_intro _ _ (beq_true _ _ a.to_user) (beq_true _ _ a.in_organization),
          ),
          (in-flat_map _ g _).1 (
            a.role,
            (in-select _ a.role db.roles).1 (
              a.role_exists,
              and_intro _ _ (beq_true _ _ a.role_attributed) (beq_true _ _ a.role_of_organization),
            ),
            (in-flat_map _ g _).1 (
              a.link,
              (in-select _ a.link db.role_permissions).1 (a.linked, beq_true _ _ a.link_of_role),
              (in-map _ g _).1 (
                a.permission,
                (in-select _ a.permission db.permissions).1
                    (a.permission_exists, beq_true _ _ a.permission_linked),
                refl,
              ),
            ),
          ),
        ),
        and_intro _ _ (beq_true _ _ a.has_this_code) ((scope_covers_iff _ _ rt ri).1 a.covers),
      )

  module _ (now : ℕ) (effect : String) where
    pub GrantApplies-sound :
        any (grant_covers effect rt ri) (applicable_grants db now user_id organization_id code)
          ≡ true
        → GrantApplies db user_id organization_id code rt ri now effect
    unfolding applicable_grants grant_covers
    GrantApplies-sound h =
        let (g, m, e) = (any_iff _ _).0 h in
        let (row, test) = (in-select _ g db.grants).0 m in
        let (t_user, t1) = and-true (g.user_id == user_id) _ test in
        let (t_org, t2) = and-true (g.organization_id == organization_id) _ t1 in
        let (t_code, t_live) = and-true (has_code db g.permission_id code) _ t2 in
        let (unrevoked, started, unexpired) = (is_live_iff now g).0 t_live in
        let (p, p_in, p_id, p_code) = (has_code_iff db g.permission_id code).0 t_code in
        let (t_effect, t_scope) = and-true (g.effect == effect) _ e in
        record {
          grant = g;
          granted = row;
          to_user = beq_sound g.user_id user_id t_user;
          in_organization = beq_sound g.organization_id organization_id t_org;
          permission = p;
          permission_exists = p_in;
          permission_granted = p_id;
          has_this_code = p_code;
          unrevoked = unrevoked;
          started = started;
          unexpired = unexpired;
          has_effect = beq_sound g.effect effect t_effect;
          covers = (scope_covers_iff g.resource_type g.resource_id rt ri).0 t_scope;
        }

    pub GrantApplies-complete :
        GrantApplies db user_id organization_id code rt ri now effect
        → any (grant_covers effect rt ri) (applicable_grants db now user_id organization_id code)
          ≡ true
    unfolding applicable_grants grant_covers
    GrantApplies-complete a =
        let g = a.grant in
        (any_iff _ _).1 (
          g,
          (in-select _ g db.grants).1 (
            a.granted,
            and_intro _ _ (beq_true _ _ a.to_user) (
                and_intro _ _ (beq_true _ _ a.in_organization) (
                  and_intro _ _
                    ((has_code_iff db g.permission_id code).1
                      (a.permission, a.permission_exists, a.permission_granted, a.has_this_code))
                    ((is_live_iff now g).1 (a.unrevoked, a.started, a.unexpired)))),
          ),
          and_intro _ _ (beq_true _ _ a.has_effect) ((scope_covers_iff _ _ rt ri).1 a.covers),
        )

  -- The decision is exactly this: a role or an individual grant allows the request, and no
  -- individual refusal applies to it. Sound and complete, over any tables.
  pub user_has_permission_iff :
      (now : ℕ)
      → (user_has_permission db now user_id organization_id code rt ri ≡ true) ↔ (
          (RoleAllows db user_id organization_id code rt ri
            ⊎ GrantApplies db user_id organization_id code rt ri now "allow")
          × (¬ GrantApplies db user_id organization_id code rt ri now "deny"))
  unfolding user_has_permission
  user_has_permission_iff now = (
    (λ h.
        elim (Bool-cases (
          any (grant_covers "deny" rt ri)
            (applicable_grants db now user_id organization_id code))) [
              | inl d ↦ cc (rw d at h)
              | inr d ↦ (
                elim (or-true _ _ (rw d at h)) [
                  | inl r ↦ inl (RoleAllows-sound r)
                  | inr g ↦ inr (GrantApplies-sound now "allow" g)
                ],
                (λ a. cc (GrantApplies-complete now "deny" a)),
              )
            ]),
    (λ (allow, no_deny).
        elim (Bool-cases (
          any (grant_covers "deny" rt ri)
            (applicable_grants db now user_id organization_id code))) [
              | inl d ↦ absurd (no_deny (GrantApplies-sound now "deny" d))
              | inr d ↦ rw d (elim allow [
                | inl r ↦ ground (arith, RoleAllows-complete r)
                | inr g ↦ ground (arith, GrantApplies-complete now "allow" g)
              ])
            ]),
  )

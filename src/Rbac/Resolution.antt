-- ===== src/Rbac/Resolution.antt =====
-- The resolution of an authorisation: `_scope_covers`, `_role_permission_grants`,
-- `_applicable_grants`, `user_has_permission` and the guards built on them (app/rbac/service.py).
-- A join is the nested selection of its rows.
pub mod Refinement
pub mod Transfer
use zylo_office_backend.Prelude.{
  ℕ, String, Bool, true, false, ◌&&◌, ◌||◌, Option, none, some, List, [], ◌∷◌, map, flat_map, ◌==◌,
  string_eq, nat_eq, option_eq, leb, ltb, is_none, if◌then◌else◌, select, any, Result, ok, guard,
  permission_denied, privilege_escalation_denied, ◌>>◌,
}
use zylo_office_backend.Rbac.Tables.{
  Db, Permission, Role, RolePermission, UserRole, UserPermissionGrant,
}

-- What an attribution or a request is restricted to: a resource type and an id, or nothing.
unfoldable pub scope_covers : Option String → Option ℕ → Option String → Option ℕ → Bool
scope_covers grant_type grant_id requested_type requested_id =
    if is_none grant_type
    then true
    else if is_none requested_type
    then false
    else grant_type == requested_type && grant_id == requested_id

-- A row of `_role_permission_grants`.
pub record RoleGrant : Type 0 where
  pub code : String
  pub resource_type : Option String
  pub resource_id : Option ℕ

-- The permissions that a role holds, joined with one attribution of it.
unfoldable pub grants_of_attribution : Db → ℕ → UserRole → List RoleGrant
grants_of_attribution db organization_id ur =
    flat_map
      (λ (r : Role).
        flat_map
          (λ (rp : RolePermission).
            map
              (λ (p : Permission). record {
                code = p.code;
                resource_type = ur.resource_type;
                resource_id = ur.resource_id;
              })
              (select (λ (p : Permission). rp.permission_id == p.id) db.permissions))
          (select (λ (rp : RolePermission). r.id == rp.role_id) db.role_permissions))
      (select (λ (r : Role). ur.role_id == r.id && r.organization_id == organization_id) db.roles)

unfoldable pub role_permission_grants : Db → ℕ → ℕ → List RoleGrant
unfolding grants_of_attribution
role_permission_grants db user_id organization_id =
    flat_map (grants_of_attribution db organization_id) (
      select (λ (ur : UserRole). ur.user_id == user_id && ur.organization_id == organization_id)
        db.user_roles)

-- `validUntil IS NULL OR validUntil > now`
unfoldable pub not_expired : ℕ → Option ℕ → Bool
not_expired now none = true
not_expired now (some valid_until) = ltb now valid_until

-- The `where` clause of `_applicable_grants`, but for the join with the permission.
unfoldable pub is_live : ℕ → UserPermissionGrant → Bool
unfolding not_expired
is_live now g = is_none g.revoked_at && (leb g.valid_from now && not_expired now g.valid_until)

unfoldable pub has_code : Db → ℕ → String → Bool
has_code db permission_id code =
    any (λ (p : Permission). p.id == permission_id && p.code == code) db.permissions

unfoldable pub applicable_grants : Db → ℕ → ℕ → ℕ → String → List UserPermissionGrant
unfolding is_live has_code
applicable_grants db now user_id organization_id permission_code =
    select
      (λ (g : UserPermissionGrant).
        g.user_id == user_id
        && (g.organization_id == organization_id
            && (has_code db g.permission_id permission_code && is_live now g)))
      db.grants

-- A grant with this effect covers the request.
unfoldable pub grant_covers : String → Option String → Option ℕ → UserPermissionGrant → Bool
grant_covers effect resource_type resource_id g =
    g.effect == effect && scope_covers g.resource_type g.resource_id resource_type resource_id

unfoldable pub role_grant_covers : String → Option String → Option ℕ → RoleGrant → Bool
role_grant_covers permission_code resource_type resource_id g =
    g.code == permission_code
    && scope_covers g.resource_type g.resource_id resource_type resource_id

unfoldable pub user_has_permission : Db → ℕ → ℕ → ℕ → String → Option String → Option ℕ → Bool
user_has_permission db now user_id organization_id permission_code resource_type resource_id =
    let role_grants = role_permission_grants db user_id organization_id in
    let has_role_allow =
      any (role_grant_covers permission_code resource_type resource_id) role_grants in
    let grants = applicable_grants db now user_id organization_id permission_code in
    let has_grant_allow = any (grant_covers "allow" resource_type resource_id) grants in
    let has_deny = any (grant_covers "deny" resource_type resource_id) grants in
    if has_deny then false else has_role_allow || has_grant_allow

-- The dependency of `require_permission_scoped` and `require_permission_scoped_via`, its scope
-- resolved; with no scope it is that of `require_permission`.
unfoldable pub require_permission :
    Db → ℕ → ℕ → ℕ → String → Option String → Option ℕ → Result (Unit {0})
require_permission db now user_id organization_id permission_code resource_type resource_id =
    guard
      (user_has_permission db now user_id organization_id permission_code resource_type resource_id)
      permission_denied

unfoldable pub assert_no_privilege_escalation :
    Db → ℕ → ℕ → ℕ → List String → Option String → Option ℕ → Result (Unit {0})
assert_no_privilege_escalation db now organization_id actor_user_id [] resource_type resource_id =
    ok tt
assert_no_privilege_escalation db now organization_id actor_user_id (code ∷ codes) resource_type
      resource_id =
    guard (user_has_permission db now actor_user_id organization_id code resource_type resource_id)
      privilege_escalation_denied
    >> assert_no_privilege_escalation db now organization_id actor_user_id codes resource_type
        resource_id

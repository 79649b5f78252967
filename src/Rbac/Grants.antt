-- ===== src/Rbac/Grants.antt =====
-- Individual grants and refusals, delegation and its cascade of revocations, and what a user may
-- see in a list (app/rbac/service.py).
pub mod Creation
pub mod Cascade
pub mod Order
pub mod Revocation
pub mod Visibility
pub mod Escape
mod Tests
use zylo_office_backend.Prelude.{
  ℕ, zero, suc, String, Bool, true, false, ◌&&◌, ◌||◌, not, Option, none, some, List, [], ◌∷◌, ◌++◌,
  map, ◌==◌, string_eq, nat_eq, option_eq, is_none, if◌then◌else◌, select, any, find, length,
  Result, ok, err, guard, or_raise, invalid_grant_effect, invalid_delegation_source,
  privilege_escalation_denied, grant_not_found, ◌>>=◌, ◌>>◌,
}
use zylo_office_backend.Rbac.Tables.{Db, Permission, UserPermissionGrant}
use zylo_office_backend.Rbac.Resolution.{
  user_has_permission, RoleGrant, role_permission_grants, applicable_grants, has_code,
}
use zylo_office_backend.Rbac.Roles.{add_audit_event, get_permission_or_404}

-- The grant that a delegation comes from belongs to the granter and is not revoked.
unfoldable pub check_delegation : Db → ℕ → Option ℕ → Result String
check_delegation db granter_user_id none = ok "direct"
check_delegation db granter_user_id (some origin_id) = do
  origin_grant ←
      or_raise (find (λ (g : UserPermissionGrant). g.id == origin_id) db.grants)
        invalid_delegation_source
  guard (origin_grant.user_id == granter_user_id && is_none origin_grant.revoked_at)
      invalid_delegation_source
  ok "delegation"

unfoldable pub create_grant :
    Db
    → ℕ
    → ℕ
    → ℕ
    → ℕ
    → String
    → String
    → Option String
    → Option ℕ
    → Option ℕ
    → Option String
    → Option ℕ
    → ℕ
    → Result (UserPermissionGrant × Db)
create_grant db now organization_id granter_user_id target_user_id permission_code effect
      resource_type resource_id valid_until audit_note delegated_from_grant_id fresh =
    do
      guard (effect == "allow" || effect == "deny") invalid_grant_effect
      permission ← get_permission_or_404 db permission_code
      origin ← check_delegation db granter_user_id delegated_from_grant_id
      guard
          (not (effect == "allow")
            || user_has_permission db now granter_user_id organization_id permission_code
                resource_type resource_id)
          privilege_escalation_denied
      let grant : UserPermissionGrant = record {
        id = fresh;
        organization_id = organization_id;
        user_id = target_user_id;
        permission_id = permission.id;
        effect = effect;
        resource_type = resource_type;
        resource_id = resource_id;
        origin = origin;
        delegated_from_grant_id = delegated_from_grant_id;
        granted_by_user_id = granter_user_id;
        valid_from = now;
        valid_until = valid_until;
        revoked_at = none;
        audit_note = audit_note;
      }
      ok (
        grant,
        add_audit_event (record db { grants = db.grants ++ grant ∷ [] }) organization_id
            granter_user_id "rbac.grant.create" "UserPermissionGrant" (some grant.id) none
            resource_type resource_id,
      )

-- `x in ids`
unfoldable pub contains : List ℕ → ℕ → Bool
contains ids i = any (λ (j : ℕ). j == i) ids

-- `delegatedFromGrantId IN (frontier) AND revokedAt IS NULL`
unfoldable pub is_live_child : List ℕ → UserPermissionGrant → Bool
unfolding contains
is_live_child frontier g =
    elim g.delegated_from_grant_id [ none ↦ false | some p ↦ contains frontier p ]
    && is_none g.revoked_at

unfoldable pub live_children : List UserPermissionGrant → List ℕ → List UserPermissionGrant
unfolding is_live_child
live_children grants frontier = select (is_live_child frontier) grants

abbrev pub ids_of : List UserPermissionGrant → List ℕ
ids_of = map (λ (g : UserPermissionGrant). g.id)

-- The `while frontier` loop: `none` means that the fuel ran out.
unfoldable pub cascade :
    List UserPermissionGrant
    → ℕ
    → List ℕ
    → List UserPermissionGrant
    → Option (List UserPermissionGrant)
cascade grants fuel [] to_revoke = some to_revoke
cascade grants zero (i ∷ rest) to_revoke = none
cascade grants (suc fuel) (i ∷ rest) to_revoke =
    let children = live_children grants (i ∷ rest) in
    cascade grants fuel (ids_of children) (to_revoke ++ children)

-- `g.revokedAt = now` on the rows to revoke.
unfoldable pub stamp : ℕ → List ℕ → UserPermissionGrant → UserPermissionGrant
unfolding contains
stamp now ids g = if contains ids g.id then record g { revoked_at = some now } else g

abbrev pub revoked_with : Db → ℕ → ℕ → ℕ → ℕ → List UserPermissionGrant → Db
revoked_with db now organization_id actor_user_id grant_id to_revoke =
    add_audit_event (record db { grants = map (stamp now (ids_of to_revoke)) db.grants })
      organization_id actor_user_id "rbac.grant.revoke" "UserPermissionGrant" (some grant_id) none
      none none

abbrev pub finish_revocation : Db → ℕ → ℕ → ℕ → ℕ → Option (List UserPermissionGrant) → Option Db
finish_revocation db now organization_id actor_user_id grant_id none = none
finish_revocation db now organization_id actor_user_id grant_id (some to_revoke) =
    some (revoked_with db now organization_id actor_user_id grant_id to_revoke)

-- The loop gets one round more than there are grants.
unfoldable pub revoke_grant : Db → ℕ → ℕ → ℕ → ℕ → Result (Option Db)
revoke_grant db now organization_id actor_user_id grant_id = do
  grant ← or_raise (find (λ (g : UserPermissionGrant). g.id == grant_id) db.grants) grant_not_found
  guard (grant.organization_id == organization_id) grant_not_found
  ok (
      finish_revocation db now organization_id actor_user_id grant.id
        (cascade db.grants (suc (length db.grants)) (grant.id ∷ []) (grant ∷ [])))

-- The ids of the resources of a type that some role or some `allow` grant names for this code.
unfoldable pub candidate_of_role : String → String → RoleGrant → Bool
candidate_of_role permission_code resource_type g =
    g.code == permission_code
    && (g.resource_type == some resource_type && not (is_none g.resource_id))

unfoldable pub candidate_of_grant : String → UserPermissionGrant → Bool
candidate_of_grant resource_type g =
    g.effect == "allow" && (g.resource_type == some resource_type && not (is_none g.resource_id))

-- `ids.add(x)` for what is not None.
unfoldable pub some_ids : List (Option ℕ) → List ℕ
some_ids [] = []
some_ids (none ∷ xs) = some_ids xs
some_ids (some i ∷ xs) = i ∷ some_ids xs

unfoldable pub candidate_ids : Db → ℕ → ℕ → ℕ → String → String → List ℕ
candidate_ids db now user_id organization_id permission_code resource_type =
    some_ids (
      map (λ (g : RoleGrant). g.resource_id)
        (select (candidate_of_role permission_code resource_type)
          (role_permission_grants db user_id organization_id)))
    ++ some_ids (
        map (λ (g : UserPermissionGrant). g.resource_id)
          (select (candidate_of_grant resource_type)
            (applicable_grants db now user_id organization_id permission_code)))

-- A set of ids is a list, up to membership.
unfoldable pub list_visible_resource_ids : Db → ℕ → ℕ → ℕ → String → String → Bool × List ℕ
list_visible_resource_ids db now user_id organization_id permission_code resource_type =
    if user_has_permission db now user_id organization_id permission_code none none
    then (true, [])
    else (
      false,
      select
          (λ (rid : ℕ).
            user_has_permission db now user_id organization_id permission_code (some resource_type)
              (some rid))
          (candidate_ids db now user_id organization_id permission_code resource_type),
    )

-- The codes of the `allow` grants that are not revoked.
unfoldable pub codes_of_allow_grants : Db → ℕ → ℕ → List String
codes_of_allow_grants db organization_id user_id =
    map (λ (p : Permission). p.code)
      (select
        (λ (p : Permission).
          any
            (λ (g : UserPermissionGrant).
              g.permission_id == p.id
              && (g.user_id == user_id
                  && (g.organization_id == organization_id
                      && (g.effect == "allow" && is_none g.revoked_at))))
            db.grants)
        db.permissions)

-- The codes of the roles, at any scope, and of those grants, up to order and repetition.
unfoldable pub list_effective_permission_codes : Db → ℕ → ℕ → List String
list_effective_permission_codes db organization_id user_id =
    map (λ (g : RoleGrant). g.code) (role_permission_grants db user_id organization_id)
    ++ codes_of_allow_grants db organization_id user_id

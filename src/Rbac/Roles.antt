-- ===== src/Rbac/Roles.antt =====
-- Roles and their attribution (app/rbac/service.py). An operation returns its result and the
-- tables after the commit, or the error that ends the request; `now` is the time of the call, and
-- a fresh id stands for the UUID that the new row gets.

pub mod Contents
pub mod Effects
pub mod Updates
pub mod Assignments
use zylo_office_backend.Prelude.{
  ℕ, String, Bool, ◌&&◌, not, Option, none, some, List, [], ◌∷◌, ◌++◌, map, flat_map, ◌==◌,
  string_eq, nat_eq, option_eq, is_none, if◌then◌else◌, select, any, find, Result, ok, err, guard,
  or_raise, scalar_one_or_none, role_not_found, role_code_already_used, owner_role_immutable,
  permission_not_found, role_already_assigned, role_not_assigned, integrity_error, ◌>>=◌, ◌>>◌,
}
use zylo_office_backend.Audit.{record_audit_event}
use zylo_office_backend.Rbac.Tables.{Db, Permission, Role, RolePermission, UserRole}
use zylo_office_backend.Rbac.Resolution.{assert_no_privilege_escalation}

-- The call of `record_audit_event` in this transaction.
unfoldable pub add_audit_event :
    Db → ℕ → ℕ → String → String → Option ℕ → Option (List String) → Option String → Option ℕ → Db
unfolding record_audit_event
add_audit_event db organization_id actor_user_id action entity_type entity_id changes scope_type
      scope_id =
    record db {
      audit_logs =
          record_audit_event db.audit_logs organization_id actor_user_id action entity_type
            entity_id changes scope_type scope_id;
    }

-- `db.get(Role, role_id)` and the test of its organisation.
unfoldable pub get_role : Db → ℕ → ℕ → Result Role
get_role db organization_id role_id = do
  role ← or_raise (find (λ (r : Role). r.id == role_id) db.roles) role_not_found
  guard (role.organization_id == organization_id) role_not_found
  ok role

unfoldable pub get_role_permission_codes : Db → ℕ → List String
get_role_permission_codes db role_id =
    flat_map
      (λ (rp : RolePermission).
        map (λ (p : Permission). p.code)
          (select (λ (p : Permission). rp.permission_id == p.id) db.permissions))
      (select (λ (rp : RolePermission). rp.role_id == role_id) db.role_permissions)

unfoldable pub get_permission_or_404 : Db → String → Result Permission
get_permission_or_404 db code = do
  found ← scalar_one_or_none (select (λ (p : Permission). p.code == code) db.permissions)
  or_raise found permission_not_found

-- `db.add` of a link and its flush, under the unique constraint `uq_rolePermission_role_perm`.
unfoldable pub insert_role_permission : Db → ℕ → ℕ → Result Db
insert_role_permission db role_id permission_id =
    if any (λ (rp : RolePermission). rp.role_id == role_id && rp.permission_id == permission_id)
      db.role_permissions
    then err integrity_error
    else ok (record db {
      role_permissions =
          db.role_permissions ++ record { role_id = role_id; permission_id = permission_id } ∷ [];
    })

-- The loop over the codes of `create_role` and `update_role_permissions`.
unfoldable pub add_role_permissions : Db → ℕ → List String → Result Db
unfolding get_permission_or_404 insert_role_permission
add_role_permissions db role_id [] = ok db
add_role_permissions db role_id (code ∷ codes) = do
  permission ← get_permission_or_404 db code
  db' ← insert_role_permission db role_id permission.id
  add_role_permissions db' role_id codes

unfoldable pub create_role : Db → ℕ → ℕ → ℕ → String → String → List String → ℕ → Result (Role × Db)
create_role db now organization_id creator_user_id code name permission_codes fresh = do
  existing ←
      scalar_one_or_none
        (select (λ (r : Role). r.organization_id == organization_id && r.code == code) db.roles)
  guard (is_none existing) role_code_already_used
  assert_no_privilege_escalation db now organization_id creator_user_id permission_codes none none
  let role : Role = record {
    id = fresh;
    organization_id = organization_id;
    code = code;
    name = name;
  }
  db' ← add_role_permissions (record db { roles = db.roles ++ role ∷ [] }) role.id permission_codes
  ok (
    role,
    add_audit_event db' organization_id creator_user_id "rbac.role.create" "Role" (some role.id)
        none none none,
  )

-- The deletion of the links of a role.
unfoldable pub delete_role_permissions : Db → ℕ → Db
delete_role_permissions db role_id = record db {
  role_permissions =
      select (λ (rp : RolePermission). not (rp.role_id == role_id)) db.role_permissions;
}

unfoldable pub update_role_permissions : Db → ℕ → ℕ → ℕ → ℕ → List String → Result (Role × Db)
update_role_permissions db now organization_id editor_user_id role_id permission_codes = do
  role ← get_role db organization_id role_id
  guard (not (role.code == "owner")) owner_role_immutable
  assert_no_privilege_escalation db now organization_id editor_user_id permission_codes none none
  db' ← add_role_permissions (delete_role_permissions db role_id) role.id permission_codes
  ok (
    role,
    add_audit_event db' organization_id editor_user_id "rbac.role.update" "Role" (some role.id)
        (some permission_codes) none none,
  )

-- The test of the rows that `assign_role` looks for.
unfoldable pub same_assignment : ℕ → ℕ → ℕ → Option String → Option ℕ → UserRole → Bool
same_assignment user_id organization_id role_id resource_type resource_id ur =
    ur.user_id == user_id
    && (ur.organization_id == organization_id
        && (ur.role_id == role_id
            && (ur.resource_type == resource_type && ur.resource_id == resource_id)))

unfoldable pub assign_role :
    Db → ℕ → ℕ → ℕ → ℕ → ℕ → Option String → Option ℕ → ℕ → Result (UserRole × Db)
assign_role db now organization_id granter_user_id target_user_id role_id resource_type resource_id
      fresh =
    do
      role ← get_role db organization_id role_id
      assert_no_privilege_escalation db now organization_id granter_user_id
          (get_role_permission_codes db role.id) resource_type resource_id
      existing ← scalar_one_or_none (
          select (same_assignment target_user_id organization_id role_id resource_type resource_id)
            db.user_roles)
      guard (is_none existing) role_already_assigned
      let user_role : UserRole = record {
        id = fresh;
        user_id = target_user_id;
        organization_id = organization_id;
        role_id = role_id;
        resource_type = resource_type;
        resource_id = resource_id;
      }
      ok (
        user_role,
        add_audit_event (record db { user_roles = db.user_roles ++ user_role ∷ [] }) organization_id
            granter_user_id "rbac.role.assign" "UserRole" (some role.id) none resource_type
            resource_id,
      )

-- `db.get(UserRole, assignment_id)`, the test of its organisation, and the deletion of that row.
unfoldable pub unassign_role : Db → ℕ → ℕ → ℕ → Result Db
unassign_role db organization_id actor_user_id assignment_id = do
  user_role ←
      or_raise (find (λ (ur : UserRole). ur.id == assignment_id) db.user_roles) role_not_assigned
  guard (user_role.organization_id == organization_id) role_not_assigned
  ok (
      add_audit_event
        (record db {
          user_roles = select (λ (ur : UserRole). not (ur.id == assignment_id)) db.user_roles;
        })
        organization_id actor_user_id "rbac.role.unassign" "UserRole" (some user_role.role_id) none
        none none)

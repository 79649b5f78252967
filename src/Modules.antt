-- ===== src/Modules.antt =====
-- The registry of modules (app/modules_registry/service.py): what an organisation has switched on,
-- and the permissions of a module that its owner gets. A fresh row is never linked twice, since
-- the ids of the permissions are a primary key, so the unique constraint on links cannot fail.
pub mod Links
pub mod Backfill
pub mod Activation
mod Tests
use zylo_office_backend.Prelude.{
  ℕ, ◌+◌, String, Bool, true, false, not, ◌&&◌, ◌||◌, Option, none, some, List, [], ◌∷◌, ◌++◌, map,
  ◌==◌, string_eq, nat_eq, option_eq, if◌then◌else◌, select, any, find, length, Result, ok, err,
  guard, or_raise, scalar_one_or_none, module_not_activated, module_inactive, ◌>>=◌, ◌>>◌,
}
use zylo_office_backend.Rbac.Tables.{Db, Permission, Role, RolePermission}
use zylo_office_backend.Rbac.Roles.{add_audit_event}

pub record OrganizationModule : Type 0 where
  pub id : ℕ
  pub organization_id : ℕ
  pub module_code : String
  pub status : String
  pub activated_at : Option ℕ
  pub deactivated_at : Option ℕ

unfoldable pub owner_role : Db → ℕ → Result (Option Role)
owner_role db organization_id =
    scalar_one_or_none
      (select (λ (r : Role). r.organization_id == organization_id && r.code == "owner") db.roles)

-- `permission.id in existing_ids`
unfoldable pub is_linked : Db → ℕ → ℕ → Bool
is_linked db role_id permission_id =
    any (λ (rp : RolePermission). rp.role_id == role_id && rp.permission_id == permission_id)
      db.role_permissions

-- The permissions of the module that the role lacks.
unfoldable pub missing_permissions : Db → ℕ → String → List Permission
unfolding is_linked
missing_permissions db role_id module_code =
    select (λ (p : Permission). p.module_code == module_code && not (is_linked db role_id p.id))
      db.permissions

abbrev pub add_links : Db → ℕ → List Permission → Db
add_links db role_id permissions = record db {
  role_permissions =
      db.role_permissions
      ++ map (λ (p : Permission). record { role_id = role_id; permission_id = p.id }) permissions;
}

-- What one organisation and one module need, and how many links that is.
unfoldable pub grant_missing : Db → ℕ → String → Result (Db × ℕ)
unfolding owner_role missing_permissions
grant_missing db organization_id module_code = do
  owner ← owner_role db organization_id
  ok (elim owner [
    | none ↦ (db, 0)
    | some r ↦
        let missing = missing_permissions db r.id module_code in
        (add_links db r.id missing, length missing)
  ])

unfoldable pub grant_module_permissions_to_owner : Db → ℕ → String → Result Db
unfolding grant_missing
grant_module_permissions_to_owner db organization_id module_code = do
  granted ← grant_missing db organization_id module_code
  ok granted.0

-- The loop over the active modules.
unfoldable pub grant_all_missing : Db → List OrganizationModule → Result (Db × ℕ)
grant_all_missing db [] = ok (db, 0)
grant_all_missing db (m ∷ ms) = do
  granted ← grant_missing db m.organization_id m.module_code
  rest ← grant_all_missing granted.0 ms
  ok (rest.0, granted.1 + rest.1)

unfoldable pub backfill_active_module_permissions_for_owners :
    Db → List OrganizationModule → Result (Db × ℕ)
unfolding grant_all_missing
backfill_active_module_permissions_for_owners db organization_modules =
    grant_all_missing db
      (select (λ (m : OrganizationModule). m.status == "active") organization_modules)

-- The row of an organisation and a module.
unfoldable pub is_row_of : ℕ → String → OrganizationModule → Bool
is_row_of organization_id module_code m =
    m.organization_id == organization_id && m.module_code == module_code

unfoldable pub is_module_active : List OrganizationModule → ℕ → String → Result Bool
is_module_active rows organization_id module_code = do
  row ← scalar_one_or_none (select (is_row_of organization_id module_code) rows)
  ok (elim row [ none ↦ false | some m ↦ m.status == "active" || m.status == "trial" ])

abbrev pub deactivated : ℕ → OrganizationModule → OrganizationModule
deactivated now m = record m { status = "inactive"; deactivated_at = some now }

abbrev pub update_rows :
    (OrganizationModule → Bool)
    → (OrganizationModule → OrganizationModule)
    → List OrganizationModule
    → List OrganizationModule
update_rows p f = map (λ (m : OrganizationModule). if p m then f m else m)

-- The query finds one row or none, so the rows that pass its test are the row that is changed. The
-- audit trail is that of the tables of authorisation.
unfoldable pub deactivate_module :
    Db → List OrganizationModule → ℕ → ℕ → ℕ → String → Result (List OrganizationModule × Db)
deactivate_module db rows now organization_id actor_user_id module_code = do
  found ← scalar_one_or_none (select (is_row_of organization_id module_code) rows)
  row ← or_raise found module_not_activated
  ok (
    update_rows (is_row_of organization_id module_code) (deactivated now) rows,
    add_audit_event db organization_id actor_user_id "modulesRegistry.module.deactivate"
        "OrganizationModule" (some row.id) none none none,
  )

unfoldable pub require_module_active : List OrganizationModule → ℕ → String → Result (Unit {0})
unfolding is_module_active
require_module_active rows organization_id module_code = do
  active ← is_module_active rows organization_id module_code
  guard active module_inactive

-- The guard of the routes that several modules share.
unfoldable pub require_module_active_any :
    List OrganizationModule → ℕ → List String → Result (Unit {0})
unfolding is_module_active
require_module_active_any rows organization_id [] = err module_inactive
require_module_active_any rows organization_id (module_code ∷ module_codes) =
    let rest = require_module_active_any rows organization_id module_codes in
    is_module_active rows organization_id module_code >>= (λ active. if active then ok tt else rest)

-- ===== src/Rbac/Tables.antt =====
-- The tables of app/rbac/models.py, with the audit trail. A UUID and a time are numbers.
use zylo_office_backend.Prelude.{ℕ, String, Option, List}
use zylo_office_backend.Audit.{AuditLog}

pub record Role : Type 0 where
  pub id : ℕ
  pub organization_id : ℕ
  pub code : String
  pub name : String

pub record Permission : Type 0 where
  pub id : ℕ
  pub code : String
  pub module_code : String

-- Its own primary key is never read.
pub record RolePermission : Type 0 where
  pub role_id : ℕ
  pub permission_id : ℕ

-- No resource type means the whole organisation.
pub record UserRole : Type 0 where
  pub id : ℕ
  pub user_id : ℕ
  pub organization_id : ℕ
  pub role_id : ℕ
  pub resource_type : Option String
  pub resource_id : Option ℕ

pub record UserPermissionGrant : Type 0 where
  pub id : ℕ
  pub organization_id : ℕ
  pub user_id : ℕ
  pub permission_id : ℕ
  pub effect : String
  pub resource_type : Option String
  pub resource_id : Option ℕ
  pub origin : String
  pub delegated_from_grant_id : Option ℕ
  pub granted_by_user_id : ℕ
  pub valid_from : ℕ
  pub valid_until : Option ℕ
  pub revoked_at : Option ℕ
  pub audit_note : Option String

pub record Db : Type 0 where
  pub roles : List Role
  pub permissions : List Permission
  pub role_permissions : List RolePermission
  pub user_roles : List UserRole
  pub grants : List UserPermissionGrant
  pub audit_logs : List AuditLog

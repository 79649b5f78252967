-- ===== src/Modules/Tests.antt =====
-- Runs of the module registry on one organisation, and the theorems applied to them.
use zylo_office_backend.Prelude.{
  List, not, ◌==◌, ℕ, String, ◌≡◌, ◌≢◌, refl, ◌⊎◌, false, none, some, [], ◌∷◌, string_eq, nat_eq,
  In, select, any, ok, err, scalar_one_or_none, module_inactive,
}
use zylo_office_backend.Rbac.Tables.{Db, Permission, Role}
use zylo_office_backend.Rbac.Roles.{get_role_permission_codes, add_audit_event}
use zylo_office_backend.Modules.{
  OrganizationModule, owner_role, is_linked, missing_permissions, grant_missing, grant_all_missing,
  backfill_active_module_permissions_for_owners, is_row_of, is_module_active, deactivated,
  deactivate_module, require_module_active, require_module_active_any,
}
use zylo_office_backend.Modules.Links.{Extends}
use zylo_office_backend.Modules.Backfill.{backfill_active_module_permissions_for_owners_lem}
use zylo_office_backend.Modules.Activation.{deactivate_module_lem}

abbrev owner : Role
owner = record { id = 10; organization_id = 5; code = "owner"; name = "Owner" }

abbrev reading : Permission
reading = record { id = 1; code = "tank.read"; module_code = "zylo_liquid" }

abbrev writing : Permission
writing = record { id = 2; code = "tank.write"; module_code = "zylo_liquid" }

-- The owner lacks one permission of the module.
abbrev office : Db
office = record {
  roles = owner ∷ [];
  permissions = reading ∷ writing ∷ [];
  role_permissions = record { role_id = 10; permission_id = 1 } ∷ [];
  user_roles = [];
  grants = [];
  audit_logs = [];
}

abbrev served : Db
served = record office {
  role_permissions =
      record { role_id = 10; permission_id = 1 } ∷ record { role_id = 10; permission_id = 2 } ∷ [];
}

abbrev liquid : OrganizationModule
liquid = record {
  id = 70;
  organization_id = 5;
  module_code = "zylo_liquid";
  status = "active";
  activated_at = some 1;
  deactivated_at = none;
}

abbrev tanker : OrganizationModule
tanker = record liquid { id = 71; module_code = "zylo_tanker" }

backfill_succeeds :
    backfill_active_module_permissions_for_owners office (liquid ∷ tanker ∷ []) ≡ ok (served, 1)
unfolding backfill_active_module_permissions_for_owners grant_all_missing grant_missing owner_role
    missing_permissions is_linked select any scalar_one_or_none
backfill_succeeds = refl

backfill_active_module_permissions_for_owners_lem_example :
    ((m : OrganizationModule) (r : Role) (p : Permission)
      → In m (liquid ∷ tanker ∷ [])
      → m.status ≡ "active"
      → owner_role served m.organization_id ≡ ok (some r)
      → In p served.permissions
      → p.module_code ≡ m.module_code
      → In p.code (get_role_permission_codes served r.id))
    × Extends office served 1
    × (backfill_active_module_permissions_for_owners served (liquid ∷ tanker ∷ []) ≡ ok (served, 0))
backfill_active_module_permissions_for_owners_lem_example =
    backfill_active_module_permissions_for_owners_lem office (liquid ∷ tanker ∷ []) served 1
      backfill_succeeds

-- The tables of authorisation after the deactivation.
abbrev noted : Db
noted =
    add_audit_event office 5 3 "modulesRegistry.module.deactivate" "OrganizationModule" (some 70)
      none none none

deactivate_succeeds :
    deactivate_module office (liquid ∷ tanker ∷ []) 8 5 3 "zylo_liquid"
    ≡ ok (deactivated 8 liquid ∷ tanker ∷ [], noted)
unfolding deactivate_module is_row_of select scalar_one_or_none
deactivate_succeeds = refl

deactivate_module_lem_example :
    (is_module_active (deactivated 8 liquid ∷ tanker ∷ []) 5 "zylo_liquid" ≡ ok false)
    × (require_module_active (deactivated 8 liquid ∷ tanker ∷ []) 5 "zylo_liquid"
        ≡ err module_inactive)
    × ((codes : List String)
        → require_module_active_any (deactivated 8 liquid ∷ tanker ∷ []) 5 codes
          ≡ require_module_active_any
              (liquid ∷ tanker ∷ [])
              5
              (select (λ (c : String). not (c == "zylo_liquid")) codes))
    × ((o : ℕ) (c : String)
        → (o ≢ 5) ⊎ (c ≢ "zylo_liquid")
        → is_module_active (deactivated 8 liquid ∷ tanker ∷ []) o c
          ≡ is_module_active (liquid ∷ tanker ∷ []) o c)
    × ((row : OrganizationModule) × In row (liquid ∷ tanker ∷ [])
        × (row.organization_id ≡ 5)
        × (row.module_code ≡ "zylo_liquid")
        × (noted
            ≡ add_audit_event office 5 3 "modulesRegistry.module.deactivate" "OrganizationModule"
                (some row.id)
                none
                none
                none))
deactivate_module_lem_example =
    deactivate_module_lem office (liquid ∷ tanker ∷ []) 8 5 3 "zylo_liquid"
      (deactivated 8 liquid ∷ tanker ∷ []) noted deactivate_succeeds

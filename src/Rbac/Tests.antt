-- ===== src/Rbac/Tests.antt =====
-- Runs of the authorisation code on a small organisation, and the theorems applied to it. The
-- owner is user 1; user 2 holds a delegated grant; user 3 is a manager of station 7.
use zylo_office_backend.Prelude.{
  ℕ, String, ◌≡◌, ◌≢◌, refl, ◌↔◌, ◌⊎◌, inl, inr, true, false, Option, none, some, List, [], ◌∷◌,
  ◌++◌, flat_map, string_eq, nat_eq, option_eq, In, All, select, any, find, ok, scalar_one_or_none,
}
use zylo_office_backend.Audit.{record_audit_event}
use zylo_office_backend.Rbac.Tables.{
  Db, Permission, Role, RolePermission, UserRole, UserPermissionGrant,
}
use zylo_office_backend.Rbac.Resolution.{
  scope_covers, grants_of_attribution, role_permission_grants, not_expired, is_live, has_code,
  applicable_grants, grant_covers, role_grant_covers, user_has_permission,
  assert_no_privilege_escalation,
}
use zylo_office_backend.Rbac.Resolution.Refinement.{
  Covers, RoleAllows, GrantApplies, user_has_permission_iff,
}
use zylo_office_backend.Rbac.Roles.{
  add_audit_event, get_role, get_role_permission_codes, get_permission_or_404,
  insert_role_permission, add_role_permissions, create_role, delete_role_permissions,
  update_role_permissions, same_assignment, assign_role, unassign_role,
}
use zylo_office_backend.Rbac.Roles.Contents.{DistinctIds}
use zylo_office_backend.Rbac.Roles.Updates.{update_role_permissions_lem, create_role_lem}
use zylo_office_backend.Rbac.Roles.Assignments.{assign_role_bounded, unassign_role_lem}

abbrev pub owner : Role
owner = record { id = 10; organization_id = 5; code = "owner"; name = "Owner" }

abbrev pub manager : Role
manager = record { id = 11; organization_id = 5; code = "manager"; name = "Manager" }

abbrev pub reading : Permission
reading = record { id = 1; code = "tank.read"; module_code = "zyloLiquid" }

abbrev pub writing : Permission
writing = record { id = 2; code = "tank.write"; module_code = "zyloLiquid" }

abbrev pub granted : UserPermissionGrant
granted = record {
  id = 30;
  organization_id = 5;
  user_id = 2;
  permission_id = 1;
  effect = "allow";
  resource_type = some "station";
  resource_id = some 7;
  origin = "direct";
  delegated_from_grant_id = none;
  granted_by_user_id = 1;
  valid_from = 0;
  valid_until = none;
  revoked_at = none;
  audit_note = none;
}

abbrev pub delegated : UserPermissionGrant
delegated = record granted {
  id = 31;
  user_id = 4;
  origin = "delegation";
  delegated_from_grant_id = some 30;
  granted_by_user_id = 2;
}

abbrev pub office : Db
office = record {
  roles = owner ∷ manager ∷ [];
  permissions = reading ∷ writing ∷ [];
  role_permissions =
      record { role_id = 10; permission_id = 1 }
      ∷ record { role_id = 10; permission_id = 2 }
      ∷ record { role_id = 11; permission_id = 1 }
      ∷ [];
  user_roles =
      record {
        id = 20;
        user_id = 1;
        organization_id = 5;
        role_id = 10;
        resource_type = none;
        resource_id = none;
      }
      ∷ record {
        id = 21;
        user_id = 3;
        organization_id = 5;
        role_id = 11;
        resource_type = some "station";
        resource_id = some 7;
      }
      ∷ [];
  grants = granted ∷ delegated ∷ [];
  audit_logs = [];
}

pub office-DistinctIds : DistinctIds office
office-DistinctIds p q m k same = elim m [
  | inl p_reading ↦ elim k [
    | inl q_reading ↦ cc
    | inr r ↦ elim r [ inl q_writing ↦ cc | inr f ↦ absurd f ]
  ]
  | inr s ↦ elim s [
    | inl p_writing ↦ elim k [
      | inl q_reading ↦ cc
      | inr r ↦ elim r [ inl q_writing ↦ cc | inr f ↦ absurd f ]
    ]
    | inr f ↦ absurd f
  ]
]

-- The manager reads station 7, no other station, and writes nowhere.
manager_reads_station :
    user_has_permission office 9 3 5 "tank.read" (some "station") (some 7) ≡ true
unfolding user_has_permission role_permission_grants grants_of_attribution applicable_grants is_live
    not_expired has_code grant_covers role_grant_covers scope_covers select any
    mathlib.Core.List.flat_map
manager_reads_station = refl

manager_reads_no_other :
    user_has_permission office 9 3 5 "tank.read" (some "station") (some 8) ≡ false
unfolding user_has_permission role_permission_grants grants_of_attribution applicable_grants is_live
    not_expired has_code grant_covers role_grant_covers scope_covers select any
    mathlib.Core.List.flat_map
manager_reads_no_other = refl

user_has_permission_iff_example :
    (user_has_permission office 9 3 5 "tank.read" (some "station") (some 7) ≡ true) ↔ (
      (RoleAllows office 3 5 "tank.read" (some "station") (some 7)
        ⊎ GrantApplies office 3 5 "tank.read" (some "station") (some 7) 9 "allow")
      × (¬ GrantApplies office 3 5 "tank.read" (some "station") (some 7) 9 "deny"))
user_has_permission_iff_example =
    user_has_permission_iff office 3 5 "tank.read" (some "station") (some 7) 9

abbrev logged : String → String → ℕ → Option (List String) → Option String → Option ℕ → Db → Db
logged action entity i changes rt ri db = record db {
  audit_logs = record_audit_event db.audit_logs 5 1 action entity (some i) changes rt ri;
}

-- The manager's role after it was given writing in place of reading.
abbrev updated : Db
updated = logged "rbac.role.update" "Role" 11 (some ("tank.write" ∷ [])) none none (record office {
  role_permissions =
      record { role_id = 10; permission_id = 1 }
      ∷ record { role_id = 10; permission_id = 2 }
      ∷ record { role_id = 11; permission_id = 2 }
      ∷ [];
})

update_succeeds :
    update_role_permissions office 9 5 1 11 ("tank.write" ∷ []) ≡ ok (manager, updated)
unfolding user_has_permission role_permission_grants grants_of_attribution applicable_grants is_live
    not_expired has_code grant_covers role_grant_covers scope_covers select any
    mathlib.Core.List.flat_map find update_role_permissions get_role assert_no_privilege_escalation
    add_role_permissions get_permission_or_404 insert_role_permission delete_role_permissions
    add_audit_event record_audit_event scalar_one_or_none
update_succeeds = refl

update_role_permissions_lem_example :
    (manager.id ≡ 11)
    × (manager.organization_id ≡ 5)
    × (manager.code ≢ "owner")
    × All (λ code. user_has_permission office 9 1 5 code none none ≡ true) ("tank.write" ∷ [])
    × ((code : String)
        → In code (get_role_permission_codes updated 11) ↔ In code ("tank.write" ∷ []))
    × ((r : ℕ) (code : String)
        → r ≢ 11
        → In code (get_role_permission_codes updated r)
          ↔ In code (get_role_permission_codes office r))
update_role_permissions_lem_example =
    update_role_permissions_lem office 9 5 1 11 ("tank.write" ∷ []) manager updated
      office-DistinctIds update_succeeds

abbrev pump_operator : Role
pump_operator = record { id = 12; organization_id = 5; code = "pump"; name = "Pump" }

abbrev created : Db
created = logged "rbac.role.create" "Role" 12 none none none (record office {
  roles = owner ∷ manager ∷ pump_operator ∷ [];
  role_permissions = office.role_permissions ++ record { role_id = 12; permission_id = 1 } ∷ [];
})

create_succeeds :
    create_role office 9 5 1 "pump" "Pump" ("tank.read" ∷ []) 12 ≡ ok (pump_operator, created)
unfolding user_has_permission role_permission_grants grants_of_attribution applicable_grants is_live
    not_expired has_code grant_covers role_grant_covers scope_covers select any
    mathlib.Core.List.flat_map find create_role assert_no_privilege_escalation add_role_permissions
    get_permission_or_404 insert_role_permission add_audit_event record_audit_event
    scalar_one_or_none
create_succeeds = refl

twelve_unused : (rp : RolePermission) → In rp office.role_permissions → rp.role_id ≢ 12
twelve_unused rp m e = elim m [
  | inl a ↦ cc
  | inr m1 ↦ elim m1 [ inl a ↦ cc | inr m2 ↦ elim m2 [ inl a ↦ cc | inr f ↦ absurd f ] ]
]

create_role_lem_example :
    (pump_operator ≡ record { id = 12; organization_id = 5; code = "pump"; name = "Pump" })
    × (created.roles ≡ office.roles ++ pump_operator ∷ [])
    × ((r : Role) → In r office.roles → r.organization_id ≡ 5 → r.code ≢ "pump")
    × All (λ c. user_has_permission office 9 1 5 c none none ≡ true) ("tank.read" ∷ [])
    × ((c : String) → In c (get_role_permission_codes created 12) ↔ In c ("tank.read" ∷ []))
    × ((r : ℕ) (c : String)
        → r ≢ 12
        → In c (get_role_permission_codes created r) ↔ In c (get_role_permission_codes office r))
create_role_lem_example =
    create_role_lem office 9 5 1 "pump" "Pump" ("tank.read" ∷ []) 12 pump_operator created
      office-DistinctIds twelve_unused create_succeeds

abbrev assignment : UserRole
assignment = record {
  id = 22;
  user_id = 2;
  organization_id = 5;
  role_id = 11;
  resource_type = none;
  resource_id = none;
}

abbrev assigned : Db
assigned =
    logged "rbac.role.assign" "UserRole" 11 none none none
      (record office { user_roles = office.user_roles ++ assignment ∷ [] })

assign_succeeds : assign_role office 9 5 1 2 11 none none 22 ≡ ok (assignment, assigned)
unfolding user_has_permission role_permission_grants grants_of_attribution applicable_grants is_live
    not_expired has_code grant_covers role_grant_covers scope_covers select any
    mathlib.Core.List.flat_map find assign_role get_role get_role_permission_codes same_assignment
    assert_no_privilege_escalation add_audit_event record_audit_event scalar_one_or_none
assign_succeeds = refl

assigned_reads : user_has_permission assigned 9 2 5 "tank.read" (some "station") (some 8) ≡ true
unfolding user_has_permission role_permission_grants grants_of_attribution applicable_grants is_live
    not_expired has_code grant_covers role_grant_covers scope_covers select any
    mathlib.Core.List.flat_map find
assigned_reads = refl

assign_role_bounded_example :
    (user_has_permission office 9 2 5 "tank.read" (some "station") (some 8) ≡ true)
    ⊎ ((assignment.user_id ≡ 2)
        × (assignment.organization_id ≡ 5)
        × Covers none none (some "station") (some 8)
        × (user_has_permission office 9 1 5 "tank.read" none none ≡ true))
assign_role_bounded_example =
    assign_role_bounded office 9 5 1 2 11 none none 22 assignment assigned assign_succeeds 9 2 5
      "tank.read" (some "station") (some 8) assigned_reads

abbrev unassigned : Db
unassigned = logged "rbac.role.unassign" "UserRole" 11 none none none (record office {
  user_roles =
      record {
        id = 20;
        user_id = 1;
        organization_id = 5;
        role_id = 10;
        resource_type = none;
        resource_id = none;
      }
      ∷ [];
})

unassign_succeeds : unassign_role office 5 1 21 ≡ ok unassigned
unfolding user_has_permission role_permission_grants grants_of_attribution applicable_grants is_live
    not_expired has_code grant_covers role_grant_covers scope_covers select any
    mathlib.Core.List.flat_map find unassign_role add_audit_event record_audit_event
unassign_succeeds = refl

unassign_role_lem_example :
    ((ur : UserRole) × In ur office.user_roles × (ur.id ≡ 21) × (ur.organization_id ≡ 5))
    × ((ur : UserRole) → In ur unassigned.user_roles ↔ (In ur office.user_roles × (ur.id ≢ 21)))
    × ((now u org : ℕ) (code : String) (rt : Option String) (ri : Option ℕ)
        → user_has_permission unassigned now u org code rt ri ≡ true
        → user_has_permission office now u org code rt ri ≡ true)
unassign_role_lem_example = unassign_role_lem office 5 1 21 unassigned unassign_succeeds

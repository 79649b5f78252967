-- ===== src/History/Tests.antt =====
-- A trail with one entry of a station and one of the organisation, read by a user who has the
-- permission on that station alone.
use zylo_office_backend.Prelude.{
  ℕ, String, ◌≡◌, refl, inl, Bool, true, none, some, List, [], ◌∷◌, ◌==◌, string_eq, nat_eq,
  option_eq, In, select, any, ok, arith,
}
use zylo_office_backend.Audit.{AuditLog}
use zylo_office_backend.Rbac.Tables.{Db, Permission, UserPermissionGrant}
use zylo_office_backend.Rbac.Resolution.{
  scope_covers, grants_of_attribution, role_permission_grants, not_expired, is_live, has_code,
  applicable_grants, grant_covers, role_grant_covers, user_has_permission,
}
use zylo_office_backend.History.{
  audit_log_view, is_candidate_grant, candidate_scopes, audit_visibility, no_filters,
  passes_filters, in_scopes, matches, take, drop, last_first, list_audit_logs,
}
use zylo_office_backend.History.Scopes.{MaySee, list_audit_logs_sound, list_audit_logs_complete}

abbrev of_station : AuditLog
of_station = record {
  organization_id = 5;
  actor_user_id = 1;
  action = "zyloLiquid.alert.resolve";
  entity_type = "Alert";
  entity_id = some 50;
  changes = none;
  scope_resource_type = some "station";
  scope_resource_id = some 7;
}

abbrev of_organization : AuditLog
of_organization = record of_station { scope_resource_type = none; scope_resource_id = none }

abbrev viewing : Permission
viewing = record { id = 1; code = "audit.log.view"; module_code = "audit" }

abbrev granted : UserPermissionGrant
granted = record {
  id = 30;
  organization_id = 5;
  user_id = 2;
  permission_id = 1;
  effect = "allow";
  resource_type = some "station";
  resource_id = some 7;
  origin = "direct";
  delegated_from_grant_id = none;
  granted_by_user_id = 1;
  valid_from = 0;
  valid_until = none;
  revoked_at = none;
  audit_note = none;
}

abbrev office : Db
office = record {
  roles = [];
  permissions = viewing ∷ [];
  role_permissions = [];
  user_roles = [];
  grants = granted ∷ [];
  audit_logs = of_station ∷ of_organization ∷ [];
}

-- The prefix test of the database, as far as these runs need it.
abbrev same_action : String → String → Bool
same_action action prefix = action == prefix

may_view : user_has_permission office 9 2 5 audit_log_view (some "station") (some 7) ≡ true
unfolding user_has_permission role_permission_grants grants_of_attribution applicable_grants is_live
    not_expired has_code grant_covers role_grant_covers scope_covers select any
    mathlib.Core.List.flat_map
may_view = refl

listed : list_audit_logs same_action office 9 5 2 no_filters 10 0 ≡ ok (of_station ∷ [], 1)
unfolding list_audit_logs audit_visibility candidate_scopes is_candidate_grant matches
    passes_filters in_scopes take drop last_first user_has_permission role_permission_grants
    grants_of_attribution applicable_grants is_live not_expired has_code grant_covers
    role_grant_covers scope_covers select any mathlib.Core.List.flat_map
listed = refl

list_audit_logs_sound_example :
    In of_station office.audit_logs
    × (of_station.organization_id ≡ 5)
    × MaySee office 9 5 2 of_station
list_audit_logs_sound_example =
    list_audit_logs_sound same_action office 9 5 2 no_filters 10 0 (of_station ∷ []) 1 listed
      of_station (inl refl)

list_audit_logs_complete_example :
    (page : List AuditLog) × (total : ℕ) × (list_audit_logs same_action office 9 5 2 no_filters 10 0
      ≡ ok (page, total))
    × In of_station page
list_audit_logs_complete_example =
    list_audit_logs_complete same_action office 9 5 2 10 of_station "station" 7 (omega arith)
      (inl refl) refl refl refl may_view

-- ===== src/Rbac/Grants/Tests.antt =====
-- Runs of the grants code on the organisation of the role tests, and the theorems applied to it.
use zylo_office_backend.Prelude.{
  ℕ, ◌≡◌, refl, ◌↔◌, ◌⊎◌, inl, inr, true, false, none, some, List, [], ◌∷◌, map, string_eq, nat_eq,
  option_eq, In, select, any, find, ok, scalar_one_or_none, arith,
}
use zylo_office_backend.Audit.{record_audit_event}
use zylo_office_backend.Rbac.Tables.{Db, UserPermissionGrant}
use zylo_office_backend.Rbac.Resolution.{
  scope_covers, grants_of_attribution, role_permission_grants, not_expired, is_live, has_code,
  applicable_grants, grant_covers, role_grant_covers, user_has_permission,
}
use zylo_office_backend.Rbac.Resolution.Refinement.{Covers, GrantApplies}
use zylo_office_backend.Rbac.Roles.{add_audit_event, get_permission_or_404}
use zylo_office_backend.Rbac.Tests.{office, reading, granted, delegated, office-DistinctIds}
use zylo_office_backend.Rbac.Grants.{
  check_delegation, create_grant, contains, is_live_child, live_children, ids_of, cascade, stamp,
  revoke_grant, candidate_of_role, candidate_of_grant, some_ids, candidate_ids,
  list_visible_resource_ids, list_effective_permission_codes,
}
use zylo_office_backend.Rbac.Grants.Creation.{create_grant_bounded}
use zylo_office_backend.Rbac.Grants.Cascade.{Descends}
use zylo_office_backend.Rbac.Grants.Revocation.{
  IsValid, revoke_grant_lem, revoke_grant-IsValid, create_grant-IsValid,
}
use zylo_office_backend.Rbac.Grants.Visibility.{
  list_visible_resource_ids_iff, list_effective_permission_codes_complete,
}
use zylo_office_backend.Rbac.Grants.Escape.{org_grant_escapes_refusal}

-- User 2 passes its grant on to user 6.
abbrev passed_on : UserPermissionGrant
passed_on = record granted {
  id = 32;
  user_id = 6;
  origin = "delegation";
  delegated_from_grant_id = some 30;
  granted_by_user_id = 2;
  valid_from = 9;
}

abbrev after_creation : Db
after_creation = record office {
  grants = granted ∷ delegated ∷ passed_on ∷ [];
  audit_logs =
      record_audit_event [] 5 2 "rbac.grant.create" "UserPermissionGrant" (some 32) none
        (some "station") (some 7);
}

create_succeeds :
    create_grant office 9 5 2 6 "tank.read" "allow" (some "station") (some 7) none none (some 30) 32
    ≡ ok (passed_on, after_creation)
unfolding user_has_permission role_permission_grants grants_of_attribution applicable_grants is_live
    not_expired has_code grant_covers role_grant_covers scope_covers select any
    mathlib.Core.List.flat_map find create_grant get_permission_or_404 check_delegation
    add_audit_event record_audit_event scalar_one_or_none
create_succeeds = refl

receiver_reads :
    user_has_permission after_creation 9 6 5 "tank.read" (some "station") (some 7) ≡ true
unfolding user_has_permission role_permission_grants grants_of_attribution applicable_grants is_live
    not_expired has_code grant_covers role_grant_covers scope_covers select any
    mathlib.Core.List.flat_map find
receiver_reads = refl

create_grant_bounded_example :
    (user_has_permission office 9 6 5 "tank.read" (some "station") (some 7) ≡ true)
    ⊎ ((passed_on.user_id ≡ 6)
        × (passed_on.organization_id ≡ 5)
        × (reading.code ≡ "tank.read")
        × (passed_on.effect ≡ "allow")
        × Covers (some "station") (some 7) (some "station") (some 7)
        × (user_has_permission office 9 2 5 "tank.read" (some "station") (some 7) ≡ true))
create_grant_bounded_example =
    create_grant_bounded office 9 5 2 6 "tank.read" "allow" (some "station") (some 7) none none
      (some 30) 32 passed_on after_creation office-DistinctIds create_succeeds 9 6 5 "tank.read"
      (some "station") (some 7) receiver_reads

office-IsValid : IsValid office
office-IsValid = record {
  ordered = (
    (λ f. f),
    (λ p e. cc),
    ((λ m. elim m [ inl e ↦ cc | inr f ↦ f ]), (λ p e. inl (ground arith)), tt),
  );
  closed = λ c g c_in g_in e live. elim g_in [
    | inl is_granted ↦ cc
    | inr m ↦ elim m [ inl is_delegated ↦ cc | inr f ↦ absurd f ]
  ];
}

revoke_grant_lem_example :
    (db' : Db) × (revoke_grant office 9 5 1 30 ≡ ok (some db'))
    × ((ids : List ℕ) × (db'.grants ≡ map (stamp 9 ids) (granted ∷ delegated ∷ []))
        × ((i : ℕ) → In i ids ↔ Descends (granted ∷ delegated ∷ []) 30 i))
revoke_grant_lem_example = revoke_grant_lem office 9 5 1 granted office-IsValid (inl refl) refl

-- The delegated grant is revoked with the one it comes from.
after_revocation : Db
after_revocation = record office {
  grants = record granted { revoked_at = some 9 } ∷ record delegated { revoked_at = some 9 } ∷ [];
  audit_logs =
      record_audit_event [] 5 1 "rbac.grant.revoke" "UserPermissionGrant" (some 30) none none none;
}

revoke_succeeds : revoke_grant office 9 5 1 30 ≡ ok (some after_revocation)
unfolding after_revocation revoke_grant cascade live_children is_live_child contains stamp find
    select any add_audit_event record_audit_event
revoke_succeeds = refl

revoke_grant-IsValid_example : IsValid after_revocation
revoke_grant-IsValid_example =
    revoke_grant-IsValid office 9 5 1 30 after_revocation office-IsValid revoke_succeeds

new_id : ¬ In 32 (ids_of office.grants)
new_id m = elim m [ inl e ↦ cc | inr k ↦ elim k [ inl e ↦ cc | inr f ↦ f ] ]

create_grant-IsValid_example : IsValid after_creation
create_grant-IsValid_example =
    create_grant-IsValid office 9 5 2 6 "tank.read" "allow" (some "station") (some 7) none none
      (some 30) 32 passed_on after_creation office-IsValid new_id create_succeeds

-- User 2 may read station 7 alone.
visible_to_user : list_visible_resource_ids office 9 2 5 "tank.read" "station" ≡ (false, 7 ∷ [])
unfolding user_has_permission role_permission_grants grants_of_attribution applicable_grants is_live
    not_expired has_code grant_covers role_grant_covers scope_covers select any
    mathlib.Core.List.flat_map find list_visible_resource_ids candidate_ids candidate_of_role
    candidate_of_grant some_ids
visible_to_user = refl

list_visible_resource_ids_iff_example :
    In {A = ℕ} 7 (7 ∷ [])
    ↔ (user_has_permission office 9 2 5 "tank.read" (some "station") (some 7) ≡ true)
list_visible_resource_ids_iff_example =
    list_visible_resource_ids_iff office 9 2 5 "tank.read" "station" (7 ∷ []) visible_to_user 7

user_reads : user_has_permission office 9 2 5 "tank.read" (some "station") (some 7) ≡ true
unfolding user_has_permission role_permission_grants grants_of_attribution applicable_grants is_live
    not_expired has_code grant_covers role_grant_covers scope_covers select any
    mathlib.Core.List.flat_map find
user_reads = refl

list_effective_permission_codes_complete_example :
    In "tank.read" (list_effective_permission_codes office 5 2)
list_effective_permission_codes_complete_example =
    list_effective_permission_codes_complete office 9 2 5 "tank.read" (some "station") (some 7)
      user_reads

-- The owner is refused station 7.
abbrev refused : UserPermissionGrant
refused = record granted { id = 33; user_id = 1; effect = "deny" }

abbrev refusing : Db
refusing = record office { grants = refused ∷ [] }

refusal_permission : get_permission_or_404 refusing "tank.read" ≡ ok reading
unfolding user_has_permission role_permission_grants grants_of_attribution applicable_grants is_live
    not_expired has_code grant_covers role_grant_covers scope_covers select any
    mathlib.Core.List.flat_map find get_permission_or_404 scalar_one_or_none
refusal_permission = refl

refusing_wide : user_has_permission refusing 9 1 5 "tank.read" none none ≡ true
unfolding user_has_permission role_permission_grants grants_of_attribution applicable_grants is_live
    not_expired has_code grant_covers role_grant_covers scope_covers select any
    mathlib.Core.List.flat_map find
refusing_wide = refl

refusing_narrow : user_has_permission refusing 9 1 5 "tank.read" (some "station") (some 7) ≡ false
unfolding user_has_permission role_permission_grants grants_of_attribution applicable_grants is_live
    not_expired has_code grant_covers role_grant_covers scope_covers select any
    mathlib.Core.List.flat_map find
refusing_narrow = refl

target_unrefused : ¬ GrantApplies refusing 6 5 "tank.read" (some "station") (some 7) 9 "deny"
target_unrefused a = elim a.granted [ inl e ↦ cc (e, a.to_user) | inr f ↦ f ]

org_grant_escapes_refusal_example :
    (g : UserPermissionGrant) × (db' : Db) × (create_grant refusing 9 5 1 6 "tank.read" "allow" none
        none none none none 34
      ≡ ok (g, db'))
    × (user_has_permission db' 9 6 5 "tank.read" (some "station") (some 7) ≡ true)
org_grant_escapes_refusal_example =
    org_grant_escapes_refusal refusing 9 5 1 6 "tank.read" 34 reading "station" 7 refusal_permission
      refusing_wide refusing_narrow target_unrefused

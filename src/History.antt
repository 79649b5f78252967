-- ===== src/History.antt =====
-- The reading of the audit trail (`_audit_visibility` and `list_audit_logs` of
-- app/audit/service.py). `like action prefix` stands for the database's `action LIKE 'prefix%'`.
-- The trail is in order of insertion, and a page shows the last entries first.
pub mod Pages
pub mod Scopes
mod Tests
use zylo_office_backend.Prelude.{
  ℕ, zero, suc, String, Bool, true, false, not, ◌&&◌, ◌||◌, Option, none, some, List, [], ◌∷◌, ◌++◌,
  map, flat_map, ◌==◌, string_eq, nat_eq, option_eq, is_none, if◌then◌else◌, select, any, length,
  Result, ok, guard, permission_denied, ◌>>=◌, ◌>>◌,
}
use zylo_office_backend.Audit.{AuditLog}
use zylo_office_backend.Rbac.Tables.{Db, UserPermissionGrant}
use zylo_office_backend.Rbac.Resolution.{
  user_has_permission, RoleGrant, role_permission_grants, has_code,
}

abbrev pub audit_log_view : String
audit_log_view = "audit.log.view"

abbrev pub AuditScope : Type 0
AuditScope = String × Option ℕ

-- The scope of a role's attribution, if it has a type and an id.
abbrev pub role_scope : Option String → Option ℕ → List AuditScope
role_scope none i = []
role_scope (some t) none = []
role_scope (some t) (some i) = (t, some i) ∷ []

-- The scope of a grant, if it has a type.
abbrev pub grant_scope : Option String → Option ℕ → List AuditScope
grant_scope none i = []
grant_scope (some t) i = (t, i) ∷ []

unfoldable pub is_candidate_grant : Db → ℕ → ℕ → UserPermissionGrant → Bool
is_candidate_grant db organization_id user_id g =
    g.user_id == user_id
    && (g.organization_id == organization_id
        && (has_code db g.permission_id audit_log_view
            && (g.effect == "allow" && not (is_none g.resource_type))))

unfoldable pub candidate_scopes : Db → ℕ → ℕ → List AuditScope
unfolding is_candidate_grant
candidate_scopes db organization_id user_id =
    flat_map (λ (g : RoleGrant). role_scope g.resource_type g.resource_id)
      (select (λ (g : RoleGrant). g.code == audit_log_view)
        (role_permission_grants db user_id organization_id))
    ++ flat_map (λ (g : UserPermissionGrant). grant_scope g.resource_type g.resource_id)
        (select (is_candidate_grant db organization_id user_id) db.grants)

unfoldable pub audit_visibility : Db → ℕ → ℕ → ℕ → Bool × List AuditScope
unfolding candidate_scopes
audit_visibility db now organization_id user_id =
    if user_has_permission db now user_id organization_id audit_log_view none none
    then (true, [])
    else (
      false,
      select
          (λ (s : AuditScope).
            user_has_permission db now user_id organization_id audit_log_view (some s.0) s.1)
          (candidate_scopes db organization_id user_id),
    )

-- The filters of the request.
pub record Filters : Type 0 where
  pub action_prefix : Option String
  pub scope_resource_type : Option String
  pub scope_resource_id : Option ℕ
  pub actor_user_id : Option ℕ

abbrev pub no_filters : Filters
no_filters = record {
  action_prefix = none;
  scope_resource_type = none;
  scope_resource_id = none;
  actor_user_id = none;
}

-- A filter that is not given accepts all; an empty prefix counts as none.
unfoldable pub passes_filters : (String → String → Bool) → Filters → AuditLog → Bool
passes_filters like f log =
    elim f.action_prefix [ none ↦ true | some p ↦ p == "" || like log.action p ]
    && ((is_none f.scope_resource_type || log.scope_resource_type == f.scope_resource_type)
        && ((is_none f.scope_resource_id || log.scope_resource_id == f.scope_resource_id)
            && elim f.actor_user_id [ none ↦ true | some a ↦ log.actor_user_id == a ]))

unfoldable pub in_scopes : List AuditScope → AuditLog → Bool
in_scopes scopes log =
    any (λ (s : AuditScope). log.scope_resource_type == some s.0 && log.scope_resource_id == s.1)
      scopes

unfoldable pub matches :
    (String → String → Bool) → ℕ → Filters → Bool × List AuditScope → AuditLog → Bool
unfolding passes_filters in_scopes
matches like organization_id f visibility log =
    log.organization_id == organization_id
    && (passes_filters like f log && (visibility.0 || in_scopes visibility.1 log))

abbrev pub is_empty : List AuditScope → Bool
is_empty [] = true
is_empty (s ∷ scopes) = false

-- `LIMIT`, `OFFSET` and the descending order.
unfoldable pub take : ℕ → List AuditLog → List AuditLog
take zero xs = []
take (suc n) [] = []
take (suc n) (x ∷ xs) = x ∷ take n xs

unfoldable pub drop : ℕ → List AuditLog → List AuditLog
drop zero xs = xs
drop (suc n) [] = []
drop (suc n) (x ∷ xs) = drop n xs

unfoldable pub last_first : List AuditLog → List AuditLog
last_first [] = []
last_first (x ∷ xs) = last_first xs ++ x ∷ []

unfoldable pub list_audit_logs :
    (String → String → Bool) → Db → ℕ → ℕ → ℕ → Filters → ℕ → ℕ → Result (List AuditLog × ℕ)
unfolding audit_visibility matches
list_audit_logs like db now organization_id requesting_user_id f limit offset = do
  let visibility = audit_visibility db now organization_id requesting_user_id
  guard (visibility.0 || not (is_empty visibility.1)) permission_denied
  let rows = select (matches like organization_id f visibility) db.audit_logs
  ok (take limit (drop offset (last_first rows)), length rows)

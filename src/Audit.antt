-- ===== src/Audit.antt =====
-- The audit trail (app/audit): an entry is added in the transaction of the action that it
-- records. The summary, a text for display, and the caller's address are left out.
use zylo_office_backend.Prelude.{ℕ, String, Option, List, [], ◌∷◌, ◌++◌}

pub record AuditLog : Type 0 where
  pub organization_id : ℕ
  pub actor_user_id : ℕ
  pub action : String
  pub entity_type : String
  pub entity_id : Option ℕ
  pub changes : Option (List String)
  pub scope_resource_type : Option String
  pub scope_resource_id : Option ℕ

unfoldable pub record_audit_event :
    List AuditLog
    → ℕ
    → ℕ
    → String
    → String
    → Option ℕ
    → Option (List String)
    → Option String
    → Option ℕ
    → List AuditLog
record_audit_event logs organization_id actor_user_id action entity_type entity_id changes
      scope_resource_type scope_resource_id =
    logs
    ++ record {
      organization_id = organization_id;
      actor_user_id = actor_user_id;
      action = action;
      entity_type = entity_type;
      entity_id = entity_id;
      changes = changes;
      scope_resource_type = scope_resource_type;
      scope_resource_id = scope_resource_id;
    }
      ∷ []

-- ===== src/Alerts/Lifecycle.antt =====
-- The life cycle of an alert as a relation of steps (app/alerts/service.py), and what a row and a
-- table have to satisfy.
use zylo_office_backend.Prelude.{
  ℕ, String, ◌≡◌, ◌≢◌, refl, sym, ◌∙◌, ◌⊎◌, inl, inr, true, false, Option, none, some, List, ◌==◌,
  string_eq, All, ok, beq_true, beq_sound, and-true, or-true,
}
use zylo_office_backend.Alerts.Tables.{Alert, AlertKey, AlertDb, Reading, key_eq}
use zylo_office_backend.Alerts.{
  is_open_with, retrigger, new_alert, upsert_active_alert, auto_verified, auto_resolve_alert,
  acknowledged, acknowledge_alert, resolved_manually, resolve_alert, is_auto_verifiable, get_or,
  severity_by_alert_type,
}
use zylo_office_backend.Alerts.Deduplication.{IsDeduplicated}

-- A row whose history is one that the life cycle allows.
pub record IsSound (a : Alert) : Type 0 where
  pub severity : a.severity ≡ get_or severity_by_alert_type a.key.alert_type "medium"
  pub status : (a.status ≡ "active") ⊎ ((a.status ≡ "acknowledged") ⊎ (a.status ≡ "resolved"))
  -- An open alert has no trace of a resolution.
  pub unresolved :
      a.status ≢ "resolved"
      → (a.resolved_at ≡ none) × (a.resolved_by_user_id ≡ none) × (a.resolution_method ≡ none)
  -- Only the system closes an alert whose condition it can check.
  pub closed_by_system :
      a.status ≡ "resolved"
      → is_auto_verifiable a.key.alert_type ≡ true
      → (a.resolution_method ≡ some "auto_verified") × (a.resolved_by_user_id ≡ none)
  -- A user who closes one has given a reason.
  pub justified :
      (u : ℕ)
      → a.resolved_by_user_id ≡ some u
      → (a.resolution_method ≡ some "manual_justified")
        × ((reason : String) × (a.resolution_note ≡ some reason) × (reason ≢ ""))

pub differ : (s t : String) → (s == t) ≡ false → s ≢ t
differ s t h e = cc (h, beq_true s t e)

pub new_alert-IsSound :
    (key : AlertKey) (r : Reading) (st : Option String) (si : Option ℕ) (fresh : ℕ)
    → IsSound (new_alert key r st si fresh)
new_alert-IsSound key r st si fresh = record {
  severity = refl;
  status = inl refl;
  unresolved = λ _. (refl, refl, refl);
  closed_by_system = λ e _. absurd (differ "active" "resolved" refl e);
  justified = λ u e. cc;
}

pub retrigger-IsSound : (r : Reading) (a : Alert) → IsSound a → IsSound (retrigger r a)
retrigger-IsSound r a h = record {
  severity = h.severity;
  status = h.status;
  unresolved = h.unresolved;
  closed_by_system = h.closed_by_system;
  justified = h.justified;
}

pub open_unresolved :
    (key : AlertKey) (a : Alert) → is_open_with key a ≡ true → a.status ≢ "resolved"
unfolding is_open_with
open_unresolved key a h e = elim (or-true _ _ (and-true (a.key == key) _ h).1) [
  | inl t ↦ differ "active" "resolved" refl (sym (beq_sound a.status "active" t) ∙ e)
  | inr t ↦ differ "acknowledged" "resolved" refl (sym (beq_sound a.status "acknowledged" t) ∙ e)
]

pub auto_verified-IsSound :
    (t : ℕ) (a : Alert) → a.status ≢ "resolved" → IsSound a → IsSound (auto_verified t a)
auto_verified-IsSound t a still_open h =
    let (at, by, method) = h.unresolved still_open in
    record {
      severity = h.severity;
      status = inr (inr refl);
      unresolved = λ ne. absurd (ne refl);
      closed_by_system = λ _ _. (refl, by);
      justified = λ u e. cc (by, e);
    }

pub acknowledged-IsSound :
    (now actor : ℕ) (a : Alert)
    → a.status ≡ "active"
    → IsSound a
    → IsSound (acknowledged now actor a)
acknowledged-IsSound now actor a active h = record {
  severity = h.severity;
  status = inr (inl refl);
  unresolved = λ _. h.unresolved (λ e. differ "active" "resolved" refl (sym active ∙ e));
  closed_by_system = λ e _. absurd (differ "acknowledged" "resolved" refl e);
  justified = h.justified;
}

pub resolved_manually-IsSound :
    (now actor : ℕ) (reason : String) (a : Alert)
    → is_auto_verifiable a.key.alert_type ≡ false
    → reason ≢ ""
    → IsSound a
    → IsSound (resolved_manually now actor reason a)
resolved_manually-IsSound now actor reason a manual given h = record {
  severity = h.severity;
  status = inr (inr refl);
  unresolved = λ ne. absurd (ne refl);
  closed_by_system = λ _ auto. cc (manual, auto);
  justified = λ u _. (refl, (reason, refl, given));
}

-- One operation of the service that succeeds.
pub data Step : AlertDb → AlertDb → Type 0 where
  detect :
      (db : AlertDb) (key : AlertKey) (r : Reading) (st : Option String) (si : Option ℕ) (fresh : ℕ)
      (o : Option Alert) (alerts' : List Alert)
      → upsert_active_alert db.alerts key r st si fresh ≡ ok (o, alerts')
      → Step db (record db { alerts = alerts' })
  clear :
      (db : AlertDb) (key : AlertKey) (t : ℕ) (alerts' : List Alert)
      → auto_resolve_alert db.alerts key t ≡ ok alerts'
      → Step db (record db { alerts = alerts' })
  acknowledge :
      (db : AlertDb) (now org actor i : ℕ) (db' : AlertDb)
      → acknowledge_alert db now org actor i ≡ ok db'
      → Step db db'
  resolve :
      (db : AlertDb) (now org actor i : ℕ) (reason : String) (db' : AlertDb)
      → resolve_alert db now org actor i reason ≡ ok db'
      → Step db db'

pub data Reach (a : AlertDb) : AlertDb → Type 0 where
  here : Reach a a
  next : {b c : AlertDb} → Reach a b → Step b c → Reach a c

pub record IsConsistent (db : AlertDb) : Type 0 where
  pub sound : All IsSound db.alerts
  pub deduplicated : IsDeduplicated db.alerts

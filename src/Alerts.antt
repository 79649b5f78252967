-- ===== src/Alerts.antt =====
-- The life of an alert (app/alerts/service.py): opening without repetition, automatic resolution,
-- acknowledgement and manual resolution. The table is a list of rows in order of insertion.
pub mod Tables
pub mod Rows
pub mod Deduplication
pub mod Lifecycle
pub mod Reachable
mod Tests
use zylo_office_backend.Prelude.{
  ℕ, String, Bool, true, false, ◌&&◌, ◌||◌, not, Option, none, some, List, [], ◌∷◌, ◌++◌, ◌==◌,
  string_eq, nat_eq, option_eq, is_none, if◌then◌else◌, select, any, find, Result, ok, guard,
  or_raise, scalar_one_or_none, alert_not_found, alert_not_active, alert_already_resolved,
  alert_requires_automatic_verification, resolution_note_required, integrity_error, ◌>>=◌, ◌>>◌,
}
use zylo_office_backend.Audit.{record_audit_event}
use Tables.{Alert, AlertKey, Owner, Reading, AlertDb, key_eq}

-- `SEVERITY_BY_ALERT_TYPE`
abbrev pub severity_by_alert_type : List (String × String)
severity_by_alert_type =
    ("level_high", "critical")
    ∷ ("leak", "critical")
    ∷ ("delivery_discrepancy", "critical")
    ∷ ("delivery_undeclared", "critical")
    ∷ ("level_high_pre_alarm", "high")
    ∷ ("level_low", "high")
    ∷ ("water", "high")
    ∷ ("sensor_offline", "medium")
    ∷ ("delivery_declaration_pending", "low")
    ∷ ("price_missing", "medium")
    ∷ ("sensor_mapping_missing", "medium")
    ∷ ("calibration_missing", "medium")
    ∷ ("station_offline", "critical")
    ∷ ("stock_declared_discrepancy", "high")
    ∷ ("manual_gauging_discrepancy", "medium")
    ∷ ("quality_check_discrepancy", "high")
    ∷ []

-- `d.get(key, default)`
unfoldable pub get_or : List (String × String) → String → String → String
get_or [] key default = default
get_or ((k, v) ∷ d) key default = if k == key then v else get_or d key default

-- `AUTO_VERIFIABLE_ALERT_TYPES`
abbrev pub auto_verifiable_alert_types : List String
auto_verifiable_alert_types =
    "level_high" ∷ "level_high_pre_alarm" ∷ "level_low" ∷ "water" ∷ "sensor_offline" ∷ "leak"
    ∷ "delivery_discrepancy" ∷ "delivery_undeclared" ∷ "delivery_declaration_pending"
    ∷ "stock_declared_discrepancy" ∷ "manual_gauging_discrepancy" ∷ "quality_check_discrepancy" ∷ []

unfoldable pub is_auto_verifiable : String → Bool
is_auto_verifiable alert_type = any (λ (t : String). t == alert_type) auto_verifiable_alert_types

-- `status IN ('active', 'acknowledged')`
unfoldable pub is_open : Alert → Bool
is_open a = a.status == "active" || a.status == "acknowledged"

-- The `where` clause of `_find_open_alert`.
unfoldable pub is_open_with : AlertKey → Alert → Bool
unfolding is_open
is_open_with key a = a.key == key && is_open a

unfoldable pub find_open_alert : List Alert → AlertKey → Result (Option Alert)
find_open_alert alerts key = scalar_one_or_none (select (is_open_with key) alerts)

-- The change of the row that a query found: the first that its `where` clause accepts.
unfoldable pub update_first : (Alert → Bool) → (Alert → Alert) → List Alert → List Alert
update_first p f [] = []
update_first p f (a ∷ as') = let rest = update_first p f as' in if p a then f a ∷ as' else a ∷ rest

-- The fields that a new detection writes on the open alert.
abbrev pub retrigger : Reading → Alert → Alert
retrigger r a = record a {
  triggered_at = r.triggered_at;
  triggered_value = r.triggered_value;
  threshold_value = r.threshold_value;
}

abbrev pub new_alert : AlertKey → Reading → Option String → Option ℕ → ℕ → Alert
new_alert key r source_type source_id fresh = record {
  id = fresh;
  key = key;
  severity = get_or severity_by_alert_type key.alert_type "medium";
  status = "active";
  source_type = source_type;
  source_id = source_id;
  triggered_at = r.triggered_at;
  triggered_value = r.triggered_value;
  threshold_value = r.threshold_value;
  acknowledged_at = none;
  acknowledged_by_user_id = none;
  resolved_at = none;
  resolved_by_user_id = none;
  resolution_method = none;
  resolution_note = none;
}

-- The values of the constraint `ck_zlAlert_type`.
abbrev pub alert_types : List String
alert_types =
    "level_high" ∷ "level_high_pre_alarm" ∷ "level_low" ∷ "water" ∷ "leak" ∷ "sensor_offline"
    ∷ "delivery_discrepancy" ∷ "delivery_undeclared" ∷ "delivery_declaration_pending"
    ∷ "price_missing" ∷ "sensor_mapping_missing" ∷ "calibration_missing" ∷ "truck_stop_unqualified"
    ∷ "station_offline" ∷ "stock_declared_discrepancy" ∷ "manual_gauging_discrepancy"
    ∷ "quality_check_discrepancy" ∷ []

unfoldable pub is_alert_type : String → Bool
is_alert_type alert_type = any (λ (t : String). t == alert_type) alert_types

-- The constraints `ck_zlAlert_station_or_truck_or_vessel` and `ck_zlAlert_type` on a new row. Those
-- on its status and its severity hold of every row that is built here.
unfoldable pub is_allowed : AlertKey → Bool
unfolding is_alert_type
is_allowed key =
    (not (is_none key.station_id) || (not (is_none key.truck_id) || not (is_none key.vessel_id)))
    && is_alert_type key.alert_type

-- An open alert of this key is refreshed and nothing is returned; otherwise one is opened. The
-- handler of `TruckStopUnqualified` is a call of this. The flush of a new row that breaks a
-- constraint fails.
unfoldable pub upsert_active_alert :
    List Alert
    → AlertKey
    → Reading
    → Option String
    → Option ℕ
    → ℕ
    → Result (Option Alert × List Alert)
unfolding is_allowed
upsert_active_alert alerts key r source_type source_id fresh = do
  existing ← find_open_alert alerts key
  elim existing [
    | some _ ↦ ok (none, update_first (is_open_with key) (retrigger r) alerts)
    | none ↦
        let a = new_alert key r source_type source_id fresh in
        guard (is_allowed key) integrity_error >> ok (some a, alerts ++ a ∷ [])
  ]

abbrev pub auto_verified : ℕ → Alert → Alert
auto_verified resolved_at a = record a {
  status = "resolved";
  resolved_at = some resolved_at;
  resolution_method = some "auto_verified";
}

unfoldable pub auto_resolve_alert : List Alert → AlertKey → ℕ → Result (List Alert)
auto_resolve_alert alerts key resolved_at = do
  existing ← find_open_alert alerts key
  ok (elim existing [
    | none ↦ alerts
    | some _ ↦ update_first (is_open_with key) (auto_verified resolved_at) alerts
  ])

-- The outer joins of `_get_alert_and_tank`: the station, the truck or the vessel of the alert is
-- of this organisation.
unfoldable pub owned_by : List Owner → Option ℕ → ℕ → Bool
owned_by owners id organization_id =
    any (λ (o : Owner). id == some o.id && o.organization_id == organization_id) owners

unfoldable pub is_alert_of : AlertDb → ℕ → ℕ → Alert → Bool
unfolding owned_by
is_alert_of db organization_id alert_id a =
    a.id == alert_id
    && (owned_by db.stations a.key.station_id organization_id
        || (owned_by db.trucks a.key.truck_id organization_id
            || owned_by db.vessels a.key.vessel_id organization_id))

unfoldable pub get_alert : AlertDb → ℕ → ℕ → Result Alert
get_alert db organization_id alert_id =
    or_raise (find (is_alert_of db organization_id alert_id) db.alerts) alert_not_found

abbrev pub acknowledged : ℕ → ℕ → Alert → Alert
acknowledged now actor_user_id a = record a {
  status = "acknowledged";
  acknowledged_at = some now;
  acknowledged_by_user_id = some actor_user_id;
}

unfoldable pub acknowledge_alert : AlertDb → ℕ → ℕ → ℕ → ℕ → Result AlertDb
acknowledge_alert db now organization_id actor_user_id alert_id = do
  a ← get_alert db organization_id alert_id
  guard (a.status == "active") alert_not_active
  ok (record db {
    alerts =
        update_first (is_alert_of db organization_id alert_id) (acknowledged now actor_user_id)
          db.alerts;
    audit_logs =
        record_audit_event db.audit_logs organization_id actor_user_id
          "zyloLiquid.alert.acknowledge" "Alert" (some a.id) none (some "station") a.key.station_id;
  })

abbrev pub resolved_manually : ℕ → ℕ → String → Alert → Alert
resolved_manually now actor_user_id resolution_note a = record a {
  status = "resolved";
  resolved_at = some now;
  resolved_by_user_id = some actor_user_id;
  resolution_method = some "manual_justified";
  resolution_note = some resolution_note;
}

-- A missing note is the empty text: the code tests `not resolution_note`.
unfoldable pub resolve_alert : AlertDb → ℕ → ℕ → ℕ → ℕ → String → Result AlertDb
resolve_alert db now organization_id actor_user_id alert_id resolution_note = do
  a ← get_alert db organization_id alert_id
  guard (not (a.status == "resolved")) alert_already_resolved
  guard (not (is_auto_verifiable a.key.alert_type)) alert_requires_automatic_verification
  guard (not (resolution_note == "")) resolution_note_required
  ok (record db {
    alerts =
        update_first (is_alert_of db organization_id alert_id)
          (resolved_manually now actor_user_id resolution_note) db.alerts;
    audit_logs =
        record_audit_event db.audit_logs organization_id actor_user_id "zyloLiquid.alert.resolve"
          "Alert" (some a.id) none (some "station") a.key.station_id;
  })

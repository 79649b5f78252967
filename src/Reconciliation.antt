-- ===== src/Reconciliation.antt =====
-- The reconciliation of declared with detected deliveries, line by line
-- (app/modules/zylo_liquid/service.py, from `_record_reconciliation` to `_reverse_match_delivery_detected`).
pub mod Tables
pub mod Matching
pub mod Requests
pub mod Rows
pub mod Exclusive
pub mod Nearest
pub mod Kept
pub mod Steps
pub mod Verdicts
pub mod Outcome
mod Tests
use zylo_office_backend.Prelude.{
  ℕ, ◌+◌, ◌-◌, ◌*◌, String, Bool, true, false, not, ◌&&◌, ◌||◌, Option, none, some, List, [], ◌∷◌,
  ◌++◌, map, ◌==◌, string_eq, nat_eq, option_eq, leb, ltb, if◌then◌else◌, select, any, find, Result,
  ok, scalar_one_or_none, is_none, ◌>>=◌,
}
use zylo_office_backend.Prelude.Int.{ℤ, pos}
use zylo_office_backend.Alerts.Tables.{Alert, AlertKey}
use zylo_office_backend.Alerts.{auto_resolve_alert}
use zylo_office_backend.Monitoring.{Tank, create_alert_if_not_already_active}
use zylo_office_backend.Reconciliation.Tables.{
  StationReconciliationSettings, DeliveryDeclaration, DeliveryDeclarationLine, DeliveryDetected,
  ReconciliationRecord, ReconciliationDb,
}
use zylo_office_backend.Reconciliation.Matching.{
  Verdict, window_of, best_candidate, compare_volumes,
}

unfoldable pub get_reconciliation_settings :
    ReconciliationDb → ℕ → Result (Option StationReconciliationSettings)
get_reconciliation_settings db station_id =
    scalar_one_or_none
      (select (λ (s : StationReconciliationSettings). s.station_id == station_id) db.settings)

abbrev pub pending : Verdict
pending = record {
  counterpart_id = none;
  status = "pending";
  discrepancy_value = none;
  tolerance_applied = none;
}

-- `"X" if id is not None else None`
abbrev pub when_some : Option ℕ → String → Option String
when_some none text = none
when_some (some i) text = some text

-- `_record_reconciliation` with the arguments of a line.
abbrev pub new_record : DeliveryDeclarationLine → Verdict → Option ℕ → ℕ → ℕ → ReconciliationRecord
new_record line v evaluated_by_user_id now fresh = record {
  id = fresh;
  subject_type = "DeliveryDeclarationLine";
  subject_id = line.id;
  counterpart_type = when_some v.counterpart_id "DeliveryDetected";
  counterpart_id = v.counterpart_id;
  family = "quantitative";
  status = v.status;
  discrepancy_value = v.discrepancy_value;
  discrepancy_unit = when_some v.discrepancy_value "liters";
  tolerance_applied = v.tolerance_applied;
  evaluated_at = now;
  evaluated_by_user_id = evaluated_by_user_id;
}

-- The line points to its latest record.
abbrev pub point_to : ℕ → ℕ → DeliveryDeclarationLine → DeliveryDeclarationLine
point_to line_id record_id l =
    if l.id == line_id
    then record l {
      reconciled_with_id = some record_id;
      reconciled_with_type = some "ReconciliationRecord";
    }
    else l

abbrev pub delivery_key : ℕ → ℕ → String → AlertKey
delivery_key station_id tank_id alert_type = record {
  station_id = some station_id;
  truck_id = none;
  vessel_id = none;
  tank_id = some tank_id;
  product_id = none;
  alert_type = alert_type;
}

-- A match closes the alerts of its delivery.
unfoldable pub close_delivery_alerts : List Alert → ℕ → ℕ → ℕ → Result (List Alert)
close_delivery_alerts alerts station_id tank_id now = do
  a ← auto_resolve_alert alerts (delivery_key station_id tank_id "delivery_discrepancy") now
  b ← auto_resolve_alert a (delivery_key station_id tank_id "delivery_undeclared") now
  auto_resolve_alert b (delivery_key station_id tank_id "delivery_declaration_pending") now

abbrev pub signed : Option ℕ → Option ℤ
signed none = none
signed (some n) = some (pos n)

-- The alerts that a verdict opens or closes.
unfoldable pub alerts_of_verdict :
    ReconciliationDb
    → DeliveryDeclaration
    → DeliveryDeclarationLine
    → Verdict
    → ℕ
    → (String → ℕ)
    → Result (List Alert)
unfolding close_delivery_alerts
alerts_of_verdict db declaration line v now fresh_alert =
    if v.status == "discrepancy"
    then create_alert_if_not_already_active db.tanks db.alerts line.tank_id "delivery_discrepancy"
        (record {
          triggered_at = declaration.event_at;
          triggered_value = signed v.discrepancy_value;
          threshold_value = signed v.tolerance_applied;
        })
        fresh_alert
      >>= (λ (alert, alerts). ok alerts)
    else if v.status == "matched"
    then close_delivery_alerts db.alerts declaration.station_id line.tank_id now
    else ok db.alerts

-- What both ways of reconciling a line do with their verdict.
unfoldable pub settle :
    ReconciliationDb
    → DeliveryDeclaration
    → DeliveryDeclarationLine
    → Verdict
    → Option ℕ
    → ℕ
    → ℕ
    → (String → ℕ)
    → Result (ReconciliationRecord × ReconciliationDb)
unfolding alerts_of_verdict
settle db declaration line v evaluated_by_user_id now fresh fresh_alert = do
  let row = new_record line v evaluated_by_user_id now fresh
  alerts ← alerts_of_verdict db declaration line v now fresh_alert
  ok (
    row,
    record db {
      records = db.records ++ row ∷ [];
      lines = map (point_to line.id row.id) db.lines;
      alerts = alerts;
    },
  )

unfoldable pub evaluate_delivery_declaration_line_reconciliation_core :
    ReconciliationDb
    → ℕ
    → DeliveryDeclaration
    → DeliveryDeclarationLine
    → ℕ
    → (String → ℕ)
    → Result (ReconciliationRecord × ReconciliationDb)
unfolding get_reconciliation_settings window_of best_candidate compare_volumes settle
evaluate_delivery_declaration_line_reconciliation_core db now declaration line fresh fresh_alert =
    do
      settings ← get_reconciliation_settings db declaration.station_id
      let v : Verdict = elim (best_candidate db declaration line (window_of settings)) [
        | none ↦ pending
        | some d ↦ compare_volumes settings line d
      ]
      settle db declaration line v none now fresh fresh_alert

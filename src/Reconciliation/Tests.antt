-- ===== src/Reconciliation/Tests.antt =====
-- Two declared lines and two detections on one tank.
use zylo_office_backend.Prelude.{
  ℕ, false, ◌≡◌, refl, Option, none, some, List, [], ◌∷◌, ◌++◌, map, select, find, any, ok, inl,
  inr, arith, ne_sound, sym, ap, ◌∙◌, ◌==◌, scalar_one_or_none, option_eq, nat_eq, string_eq,
}
use zylo_office_backend.Alerts.Tables.{Alert}
use zylo_office_backend.Alerts.{find_open_alert, auto_resolve_alert}
use zylo_office_backend.Alerts.Deduplication.{IsDeduplicated}
use zylo_office_backend.Monitoring.{Tank, get_tank_row}
use zylo_office_backend.Reconciliation.Tables.{
  DeliveryDeclaration, DeliveryDeclarationLine, DeliveryDetected, ReconciliationRecord,
  ReconciliationDb,
}
use zylo_office_backend.Reconciliation.Matching.{
  tolerance, window_of, is_within_window, gap, is_superseded, uses, find_active_line_using_detected,
  nearest, candidates, is_free, best_candidate, Verdict, tolerance_applied_to, compare_volumes,
}
use zylo_office_backend.Reconciliation.{
  get_reconciliation_settings, new_record, point_to, close_delivery_alerts, alerts_of_verdict,
  settle, evaluate_delivery_declaration_line_reconciliation_core,
}
use zylo_office_backend.Reconciliation.Exclusive.{IsExclusive, IsFreshRecord}
use zylo_office_backend.Reconciliation.Nearest.{IsNearestEligible}
use zylo_office_backend.Reconciliation.Steps.{evaluated, here, next, reach-IsExclusive}
use zylo_office_backend.Reconciliation.Verdicts.{IsVerdict}
use zylo_office_backend.Reconciliation.Outcome.{
  AlertsAgree, evaluate_delivery_declaration_line_reconciliation_core_lem,
}

abbrev diesel : Tank
diesel = record {
  id = 3;
  station_id = 6;
  height_alarm_mm = 90;
  height_alert_mm = 80;
  low_alarm_mm = 10;
  alert_water_max_mm = 5;
}

abbrev visit : DeliveryDeclaration
visit = record { id = 1; station_id = 6; event_at = 50 }

abbrev line : ℕ → DeliveryDeclarationLine
line i = record {
  id = i;
  declaration_id = 1;
  tank_id = 3;
  volume_liters = 90;
  corrects_line_id = none;
  reconciled_with_id = none;
  reconciled_with_type = none;
}

abbrev rise : ℕ → ℕ → DeliveryDetected
rise i start = record { id = i; tank_id = 3; start_time = start; volume_liters = some 91 }

abbrev depot : ReconciliationDb
depot = record {
  rbac = record {
    roles = [];
    permissions = [];
    role_permissions = [];
    user_roles = [];
    grants = [];
    audit_logs = [];
  };
  stations = record { id = 6; organization_id = 5 } ∷ [];
  tanks = diesel ∷ [];
  settings = [];
  declarations = visit ∷ [];
  lines = line 11 ∷ line 12 ∷ [];
  detected = rise 20 40 ∷ rise 21 70 ∷ [];
  records = [];
  alerts = [];
}

no_settings : get_reconciliation_settings depot 6 ≡ ok none
unfolding get_reconciliation_settings select scalar_one_or_none
no_settings = refl

tank_found : get_tank_row depot.tanks 3 ≡ ok diesel
unfolding get_tank_row find
tank_found = refl

no_alerts : IsDeduplicated []
unfolding select
no_alerts key = omega arith

evaluate_delivery_declaration_line_reconciliation_core_lem_example :
    (best : Option DeliveryDetected) × (v : Verdict) × (after : List Alert)
    × (evaluate_delivery_declaration_line_reconciliation_core depot 80 visit (line 11) 30 (λ t. 40)
        ≡ ok (
          new_record (line 11) v none 80 30,
          record depot {
            records = new_record (line 11) v none 80 30 ∷ [];
            lines = map (point_to 11 30) depot.lines;
            alerts = after;
          },
        ))
    × IsNearestEligible depot visit (line 11) (window_of none) best
    × IsVerdict none (line 11) best v
    × AlertsAgree 6 3 v [] after
evaluate_delivery_declaration_line_reconciliation_core_lem_example =
    evaluate_delivery_declaration_line_reconciliation_core_lem depot 80 visit (line 11) diesel none
      30 (λ t. 40) no_settings tank_found refl no_alerts

-- The first line is matched with the nearer rise, and then the second with the other.
abbrev matched_with : ℕ → Verdict
matched_with i = record {
  counterpart_id = some i;
  status = "matched";
  discrepancy_value = some 1;
  tolerance_applied = some 5_000_000_000;
}

abbrev after_first : ReconciliationDb
after_first = record depot {
  records = new_record (line 11) (matched_with 20) none 80 30 ∷ [];
  lines = map (point_to 11 30) depot.lines;
}

abbrev after_second : ReconciliationDb
after_second = record after_first {
  records = after_first.records ++ new_record (line 12) (matched_with 21) none 90 31 ∷ [];
  lines = map (point_to 12 31) after_first.lines;
}

first_runs :
    evaluate_delivery_declaration_line_reconciliation_core depot 80 visit (line 11) 30 (λ t. 40)
    ≡ ok (new_record (line 11) (matched_with 20) none 80 30, after_first)
unfolding evaluate_delivery_declaration_line_reconciliation_core get_reconciliation_settings select
    scalar_one_or_none window_of tolerance best_candidate candidates is_within_window nearest
    is_free find_active_line_using_detected find uses any is_superseded gap compare_volumes
    tolerance_applied_to settle alerts_of_verdict close_delivery_alerts auto_resolve_alert
    find_open_alert
first_runs = refl

second_runs :
    evaluate_delivery_declaration_line_reconciliation_core after_first 90 visit
      (line 12)
      31
      (λ t. 40)
    ≡ ok (new_record (line 12) (matched_with 21) none 90 31, after_second)
unfolding evaluate_delivery_declaration_line_reconciliation_core get_reconciliation_settings select
    scalar_one_or_none window_of tolerance best_candidate candidates is_within_window nearest
    is_free find_active_line_using_detected find uses any is_superseded gap compare_volumes
    tolerance_applied_to settle alerts_of_verdict close_delivery_alerts auto_resolve_alert
    find_open_alert
second_runs = refl

depot-IsExclusive : IsExclusive depot
unfolding uses any
depot-IsExclusive x y d m n ax ay ux uy = cc

points_elsewhere :
    (l k : DeliveryDeclarationLine) (i : ℕ)
    → l ≡ k
    → (k.reconciled_with_id == some i) ≡ false
    → ¬ (l.reconciled_with_id ≡ some i)
points_elsewhere l k i e f h =
    ne_sound k.reconciled_with_id (some i) f
      (sym (ap (λ (x : DeliveryDeclarationLine). x.reconciled_with_id) e) ∙ h)

first_is_fresh : IsFreshRecord depot 30
first_is_fresh = (
  (λ r m. absurd m),
  (λ l m. elim m [
    | inl e ↦ points_elsewhere l (line 11) 30 e refl
    | inr k ↦ elim k [ inl e ↦ points_elsewhere l (line 12) 30 e refl | inr z ↦ absurd z ]
  ]),
)

second_is_fresh : IsFreshRecord after_first 31
second_is_fresh = (
  (λ r m. elim m [
    | inl e ↦ (λ h. ne_sound 30 31 refl (sym (ap (λ (x : ReconciliationRecord). x.id) e) ∙ h))
    | inr z ↦ absurd z
  ]),
  (λ l m. elim m [
    | inl e ↦ points_elsewhere l (point_to 11 30 (line 11)) 31 e refl
    | inr k ↦ elim k [ inl e ↦ points_elsewhere l (line 12) 31 e refl | inr z ↦ absurd z ]
  ]),
)

reach-IsExclusive_example : IsExclusive after_second
reach-IsExclusive_example =
    reach-IsExclusive depot after_second
      (next
        (next here (
          evaluated 80 visit (line 11) 30 (λ t. 40)
            (new_record (line 11) (matched_with 20) none 80 30) first_is_fresh first_runs))
        (evaluated 90 visit (line 12) 31 (λ t. 40)
          (new_record (line 12) (matched_with 21) none 90 31) second_is_fresh second_runs))
      depot-IsExclusive

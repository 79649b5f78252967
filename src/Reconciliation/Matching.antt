-- ===== src/Reconciliation/Matching.antt =====
-- The choice of a detection for a line, and the comparison of their volumes
-- (`_evaluate_delivery_declaration_line_reconciliation_core` of app/modules/zylo_liquid/service.py).
use zylo_office_backend.Prelude.{
  ℕ, ◌+◌, ◌-◌, ◌*◌, String, Bool, true, not, ◌&&◌, ◌||◌, Option, none, some, List, [], ◌∷◌, ◌==◌,
  string_eq, nat_eq, option_eq, leb, ltb, if◌then◌else◌, select, any, find, is_none,
}
use zylo_office_backend.Reconciliation.Tables.{
  StationReconciliationSettings, DeliveryDeclaration, DeliveryDeclarationLine, DeliveryDetected,
  ReconciliationRecord, ReconciliationDb,
}

-- A field of the settings, or its default.
unfoldable pub tolerance :
    Option StationReconciliationSettings → (StationReconciliationSettings → Option ℕ) → ℕ → ℕ
tolerance none field default = default
tolerance (some s) field default = elim (field s) [ none ↦ default | some value ↦ value ]

abbrev pub delivery_window_hours_default : ℕ
delivery_window_hours_default = 200

abbrev pub delivery_volume_tolerance_fixed_liters_default : ℕ
delivery_volume_tolerance_fixed_liters_default = 5_000

abbrev pub delivery_volume_tolerance_percent_default : ℕ
delivery_volume_tolerance_percent_default = 50

-- The window on either side of a delivery, in seconds.
unfoldable pub window_of : Option StationReconciliationSettings → ℕ
unfolding tolerance
window_of settings =
    tolerance settings (λ (s : StationReconciliationSettings). s.delivery_window_hours)
      delivery_window_hours_default
    * 36

-- `start <= t <= end` for a window around `at`.
unfoldable pub is_within_window : ℕ → ℕ → ℕ → Bool
is_within_window at window t = leb at (t + window) && leb t (at + window)

-- `abs(a - b)`
unfoldable pub gap : ℕ → ℕ → ℕ
gap a b = if leb a b then b - a else a - b

-- A line that another corrects.
unfoldable pub is_superseded : List DeliveryDeclarationLine → ℕ → Bool
is_superseded lines line_id =
    any (λ (l : DeliveryDeclarationLine). l.corrects_line_id == some line_id) lines

-- The record that a line points to confirms this detection.
unfoldable pub uses : List ReconciliationRecord → ℕ → DeliveryDeclarationLine → Bool
uses records detected_id l =
    any
      (λ (r : ReconciliationRecord).
        l.reconciled_with_id == some r.id
        && (r.counterpart_type == some "DeliveryDetected"
            && (r.counterpart_id == some detected_id
                && (r.status == "matched" || r.status == "discrepancy"))))
      records

-- An active line, other than the given one, that confirms the detection.
unfoldable pub find_active_line_using_detected :
    List DeliveryDeclarationLine
    → List ReconciliationRecord
    → ℕ
    → ℕ
    → Option DeliveryDeclarationLine
unfolding is_superseded uses
find_active_line_using_detected lines records detected_id exclude_line_id =
    find
      (λ (l : DeliveryDeclarationLine).
        uses records detected_id l
        && (not (is_superseded lines l.id) && not (l.id == exclude_line_id)))
      lines

-- `best_delta is None or delta < best_delta`
abbrev pub is_closer : ℕ → Option (DeliveryDetected × ℕ) → Bool
is_closer delta none = true
is_closer delta (some (b, best_delta)) = ltb delta best_delta

-- The loop over the candidates: the first of the nearest in time that are free.
unfoldable pub nearest :
    (DeliveryDetected → Bool)
    → ℕ
    → Option (DeliveryDetected × ℕ)
    → List DeliveryDetected
    → Option (DeliveryDetected × ℕ)
unfolding gap
nearest is_free event_at best [] = best
nearest is_free event_at best (c ∷ cs) =
    let delta = gap c.start_time event_at in
    nearest is_free event_at (if is_free c && is_closer delta best then some (c, delta) else best)
      cs

-- The candidates of a line: on its tank, in the window of its declaration.
unfoldable pub candidates :
    ReconciliationDb → DeliveryDeclaration → DeliveryDeclarationLine → ℕ → List DeliveryDetected
unfolding is_within_window
candidates db declaration line window =
    select
      (λ (d : DeliveryDetected).
        d.tank_id == line.tank_id && is_within_window declaration.event_at window d.start_time)
      db.detected

unfoldable pub is_free : ReconciliationDb → DeliveryDeclarationLine → DeliveryDetected → Bool
unfolding find_active_line_using_detected
is_free db line d = is_none (find_active_line_using_detected db.lines db.records d.id line.id)

unfoldable pub best_candidate :
    ReconciliationDb → DeliveryDeclaration → DeliveryDeclarationLine → ℕ → Option DeliveryDetected
unfolding nearest candidates
best_candidate db declaration line window =
    elim (nearest (is_free db line) declaration.event_at none
      (candidates db declaration line window)) [ none ↦ none | some (d, delta) ↦ some d ]

-- What the comparison of a line with a detection gives.
pub record Verdict : Type 0 where
  pub counterpart_id : Option ℕ
  pub status : String
  pub discrepancy_value : Option ℕ
  pub tolerance_applied : Option ℕ

-- `max(fixed_tolerance, volume * percent_tolerance / 100)`
unfoldable pub tolerance_applied_to :
    Option StationReconciliationSettings → DeliveryDeclarationLine → ℕ
unfolding tolerance
tolerance_applied_to settings line =
    let fixed =
      tolerance settings
        (λ (s : StationReconciliationSettings). s.delivery_volume_tolerance_fixed_liters)
        delivery_volume_tolerance_fixed_liters_default
      * 1_000_000 in
    let percent =
      line.volume_liters
      * tolerance settings
          (λ (s : StationReconciliationSettings). s.delivery_volume_tolerance_percent)
          delivery_volume_tolerance_percent_default in
    if leb percent fixed then fixed else percent

unfoldable pub compare_volumes :
    Option StationReconciliationSettings → DeliveryDeclarationLine → DeliveryDetected → Verdict
unfolding tolerance_applied_to gap
compare_volumes settings line d = elim d.volume_liters [
  | none ↦ record {
    counterpart_id = some d.id;
    status = "insufficient_data";
    discrepancy_value = none;
    tolerance_applied = none;
  }
  | some volume ↦
      let applied = tolerance_applied_to settings line in
      let discrepancy = gap line.volume_liters volume in
      record {
        counterpart_id = some d.id;
        status = if leb (discrepancy * 10_000) applied then "matched" else "discrepancy";
        discrepancy_value = some discrepancy;
        tolerance_applied = some applied;
      }
]

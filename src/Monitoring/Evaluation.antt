-- ===== src/Monitoring/Evaluation.antt =====
-- The alerts of a tank after an evaluation (`run_alert_evaluation_for_tank`).
use zylo_office_backend.Prelude.{
  ℕ, ◌+◌, ◌≤◌, ◌<◌, String, true, false, ◌≡◌, ◌≢◌, ◌↔◌, refl, ap, sym, ◌∙◌, inl, inr, Bool-cases,
  Option, some, List, [], ◌∷◌, ◌==◌, string_eq, nat_eq, option_eq, any, any_iff, map, in-map, ok,
  In, length, arith, subst, iff_trans, beq_true, beq_sound,
}
use zylo_office_backend.Alerts.Tables.{Alert, AlertKey}
use zylo_office_backend.Alerts.{is_alert_type}
use zylo_office_backend.Alerts.Deduplication.{open_alerts, IsDeduplicated, auto_resolve_alert_lem}
use zylo_office_backend.Tanks.Levels.{
  or_zero, evaluate_threshold_alarms, evaluate_threshold_alarms_lem,
}
use zylo_office_backend.Monitoring.{
  Tank, HolykellDeviceRegistry, MonitorDb, get_tank_row, get_active_registry_entry, tank_key,
  Threshold, thresholds, water_level, evaluate_height, evaluate_probe,
  run_alert_evaluation_for_tank,
}
use zylo_office_backend.Monitoring.Thresholds.{IsEvaluated, Distinct, evaluate_types_lem}

-- One alert of the type is open on the tank.
abbrev pub IsOpenOnce : Tank → String → List Alert → Type 0
IsOpenOnce tank alert_type alerts = length (open_alerts (tank_key tank alert_type) alerts) ≡ 1

any_text : (s : String) (l : List String) → (any (λ (x : String). x == s) l ≡ true) ↔ In s l
any_text s l = (
  (λ h.
      let (x, m, e) = (any_iff (λ (y : String). y == s) l).0 h in
      subst (λ (y : String). In y l) (beq_sound x s e) m),
  (λ m. (any_iff (λ (y : String). y == s) l).1 (s, m, beq_true s s refl)),
)

IsEvaluated-iff :
    (tanks : List Tank) (tank : Tank) (now : ℕ) (fresh : String → ℕ) (triggered_types : List String)
    (found : get_tank_row tanks tank.id ≡ ok tank) (alert_type : String) (alerts : List Alert)
    → IsEvaluated tanks tank now fresh triggered_types found alert_type alerts
    → IsOpenOnce tank alert_type alerts ↔ In alert_type triggered_types
IsEvaluated-iff tanks tank now fresh triggered_types found alert_type alerts (hit, miss) =
    let text = any_text alert_type triggered_types in
    elim (Bool-cases (any (λ (x : String). x == alert_type) triggered_types)) [
      | inl e ↦ ((λ _. text.0 e), (λ _. hit e))
      | inr e ↦ (
        (λ one. let closed = ap length (miss e) in absurd (omega arith)),
        (λ m. cc (e, text.1 m)),
      )
    ]

types_of : List Threshold → List String
types_of = map (λ (t : Threshold). t.alert_type)

type-in : (t : Threshold) (ts : List Threshold) → In t ts → In t.alert_type (types_of ts)
unfolding types_of
type-in t ts m = (in-map (λ (x : Threshold). x.alert_type) t.alert_type ts).1 (t, m, refl)

-- A type that is not among those of the thresholds.
type_other :
    (a : String) (ts : List Threshold)
    → any (λ (x : String). x == a) (types_of ts) ≡ false
    → (t : Threshold) → In t ts
    → t.alert_type ≢ a
type_other a ts out t m e =
    let present =
      (any_text a (types_of ts)).1
        (subst (λ (x : String). In x (types_of ts)) e (type-in t ts m)) in
    cc (out, present)

abbrev DistinctTexts : List String → Type 0
DistinctTexts [] = Unit
DistinctTexts (a ∷ l) = (any (λ (x : String). x == a) l ≡ false) × DistinctTexts l

-- Thresholds are distinct when the list of their types repeats none.
types-Distinct :
    (tanks : List Tank) (tank : Tank) (now : ℕ) (fresh : String → ℕ) (triggered_types : List String)
    (found : get_tank_row tanks tank.id ≡ ok tank) (ts : List Threshold)
    → DistinctTexts (types_of ts)
    → Distinct tanks tank now fresh triggered_types found ts
unfolding types_of
types-Distinct tanks tank now fresh triggered_types found [] d = tt
types-Distinct tanks tank now fresh triggered_types found (t ∷ ts) (out, rest) = (
  type_other t.alert_type ts out,
  types-Distinct tanks tank now fresh triggered_types found ts rest,
)

-- The thresholds of an answering probe, compared: each of the four alerts is open exactly where
-- its condition holds.
abbrev pub AgreesWithThresholds : Tank → ℕ → Option ℕ → List Alert → Type 0
AgreesWithThresholds tank height water alerts =
    (IsOpenOnce tank "level_high" alerts ↔ (tank.height_alarm_mm + or_zero water ≤ height))
    × (IsOpenOnce tank "level_high_pre_alarm" alerts ↔ (
        (tank.height_alert_mm + or_zero water ≤ height)
        × (height < tank.height_alarm_mm + or_zero water)))
    × (IsOpenOnce tank "level_low" alerts ↔ (height ≤ tank.low_alarm_mm + or_zero water))
    × (IsOpenOnce tank "water" alerts ↔ (tank.alert_water_max_mm ≤ or_zero water))

-- The types that the evaluation may open or close.
abbrev pub evaluated_types : List String
evaluated_types =
    "sensor_offline" ∷ "level_high" ∷ "level_high_pre_alarm" ∷ "level_low" ∷ "water" ∷ []

evaluate_height_lem :
    (db : MonitorDb) (tank : Tank) (height now : ℕ) (fresh : String → ℕ)
    (w : Option HolykellDeviceRegistry)
    → get_tank_row db.tanks tank.id ≡ ok tank
    → get_active_registry_entry db tank.id "water_level" ≡ ok w
    → IsDeduplicated db.alerts
    → (made : List Alert) × (alerts' : List Alert) × (evaluate_height db tank height now fresh
        ≡ ok (made, alerts'))
      × (open_alerts (tank_key tank "sensor_offline") alerts' ≡ [])
      × AgreesWithThresholds tank height (water_level w) alerts'
      × ((k : AlertKey)
          → ((t : String) → In t evaluated_types → k ≢ tank_key tank t)
          → open_alerts k alerts' ≡ open_alerts k db.alerts)
      × IsDeduplicated alerts'
unfolding evaluate_height types_of any is_alert_type
evaluate_height_lem db tank height now fresh w found watered h =
    let water = water_level w in
    let triggered =
      evaluate_threshold_alarms height water tank.height_alarm_mm tank.height_alert_mm
        tank.low_alarm_mm tank.alert_water_max_mm in
    let ts = thresholds tank height water in
    let (mid, runs, closed, others, dedup) =
      auto_resolve_alert_lem db.alerts (tank_key tank "sensor_offline") now h in
    let (made, last, runs', each, others', dedup') =
      evaluate_types_lem db.tanks tank now fresh triggered found ts mid
        (types-Distinct db.tanks tank now fresh triggered found ts
          (refl, (refl, (refl, (refl, tt)))))
        (refl, (refl, (refl, (refl, tt)))) dedup in
    let iff = λ (s : String) (e : IsEvaluated db.tanks tank now fresh triggered found s last).
      IsEvaluated-iff db.tanks tank now fresh triggered found s last e in
    let (high, pre, low, wet) =
      evaluate_threshold_alarms_lem height water tank.height_alarm_mm tank.height_alert_mm
        tank.low_alarm_mm tank.alert_water_max_mm in
    (
      made,
      last,
      rw (runs, watered) runs',
      others' (tank_key tank "sensor_offline") (λ t m e.
            type_other "sensor_offline" ts refl t m (sym (ap (λ (x : AlertKey). x.alert_type) e)))
          ∙ closed,
      (
        iff_trans (iff "level_high" (each _ (inl refl))) high,
        iff_trans (iff "level_high_pre_alarm" (each _ (inr (inl refl)))) pre,
        iff_trans (iff "level_low" (each _ (inr (inr (inl refl))))) low,
        iff_trans (iff "water" (each _ (inr (inr (inr (inl refl)))))) wet,
      ),
      (λ k out.
          others' k (λ t m. out t.alert_type (inr (type-in t ts m)))
          ∙ others k (out "sensor_offline" (inl refl))),
      dedup',
    )

-- The evaluation of a tank whose probe answers succeeds on a table of alerts with no repetition.
-- After it the alert of each threshold is open once if the measured heights meet its condition,
-- and is not open if they do not; the alert of a probe that is offline is closed; every other
-- alert is as it was, and no alert is open twice.
pub run_alert_evaluation_for_tank_lem :
    (db : MonitorDb) (tank : Tank) (probe : HolykellDeviceRegistry)
    (water : Option HolykellDeviceRegistry) (height now : ℕ) (fresh : String → ℕ)
    → get_tank_row db.tanks tank.id ≡ ok tank
    → get_active_registry_entry db tank.id "product_level" ≡ ok (some probe)
    → probe.last_value ≡ some height
    → (probe.hk_last_status == some 0) ≡ false
    → get_active_registry_entry db tank.id "water_level" ≡ ok water
    → IsDeduplicated db.alerts
    → (made : List Alert) × (alerts' : List Alert) × (run_alert_evaluation_for_tank db tank.id now
          fresh
        ≡ ok (made, alerts'))
      × (open_alerts (tank_key tank "sensor_offline") alerts' ≡ [])
      × AgreesWithThresholds tank height (water_level water) alerts'
      × ((k : AlertKey)
          → ((t : String) → In t evaluated_types → k ≢ tank_key tank t)
          → open_alerts k alerts' ≡ open_alerts k db.alerts)
      × IsDeduplicated alerts'
unfolding run_alert_evaluation_for_tank evaluate_probe
run_alert_evaluation_for_tank_lem db tank probe water height now fresh found product measured online
      watered h =
    let (made, last, runs, closed, agrees, others, dedup) =
      evaluate_height_lem db tank height now fresh water found watered h in
    (made, last, rw (found, product, measured, online) runs, closed, agrees, others, dedup)

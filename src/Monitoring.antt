-- ===== src/Monitoring.antt =====
-- The evaluation of a tank against its thresholds, and the alerts that it opens and closes
-- (`run_alert_evaluation_for_tank` of app/modules/zylo_liquid/service.py). Heights count in one small
-- unit.
pub mod Thresholds
pub mod Evaluation
mod Tests
use zylo_office_backend.Prelude.{
  ℕ, ◌+◌, ◌-◌, String, Bool, true, false, ◌&&◌, Option, none, some, List, [], ◌∷◌, ◌++◌, map,
  flat_map, ◌==◌, string_eq, nat_eq, option_eq, leb, if◌then◌else◌, select, any, find, Result, ok,
  err, or_raise, scalar_one_or_none, no_result_found, ◌>>=◌,
}
use zylo_office_backend.Prelude.Int.{ℤ, pos, negsuc}
use zylo_office_backend.Alerts.Tables.{Alert, AlertKey, Reading}
use zylo_office_backend.Alerts.{upsert_active_alert, auto_resolve_alert}
use zylo_office_backend.Tanks.Levels.{or_zero, evaluate_threshold_alarms}

pub record Tank : Type 0 where
  pub id : ℕ
  pub station_id : ℕ
  pub height_alarm_mm : ℕ
  pub height_alert_mm : ℕ
  pub low_alarm_mm : ℕ
  pub alert_water_max_mm : ℕ

pub record TankSensorMapping : Type 0 where
  pub tank_id : ℕ
  pub hk_sensor_id : ℕ
  pub measurement_type : String
  pub active : Bool

pub record HolykellDeviceRegistry : Type 0 where
  pub hk_sensor_id : ℕ
  pub hk_last_status : Option ℕ
  pub last_value : Option ℕ

pub record MonitorDb : Type 0 where
  pub tanks : List Tank
  pub mappings : List TankSensorMapping
  pub registry : List HolykellDeviceRegistry
  pub alerts : List Alert

-- The join of the registry with the mappings of a tank.
unfoldable pub get_active_registry_entry :
    MonitorDb → ℕ → String → Result (Option HolykellDeviceRegistry)
get_active_registry_entry db tank_id measurement_type = scalar_one_or_none (
    flat_map
      (λ (r : HolykellDeviceRegistry).
        map (λ (m : TankSensorMapping). r)
          (select
            (λ (m : TankSensorMapping).
              m.hk_sensor_id == r.hk_sensor_id
              && (m.tank_id == tank_id && (m.measurement_type == measurement_type && m.active)))
            db.mappings))
      db.registry)

-- `select(Tank)` and its `scalar_one()`.
unfoldable pub get_tank_row : List Tank → ℕ → Result Tank
get_tank_row tanks tank_id = or_raise (find (λ (t : Tank). t.id == tank_id) tanks) no_result_found

-- The key of an alert on a tank.
abbrev pub tank_key : Tank → String → AlertKey
tank_key tank alert_type = record {
  station_id = some tank.station_id;
  truck_id = none;
  vessel_id = none;
  tank_id = some tank.id;
  product_id = none;
  alert_type = alert_type;
}

-- Given that the id of an alert of a type is what `fresh` says.
unfoldable pub create_alert_if_not_already_active :
    List Tank
    → List Alert
    → ℕ
    → String
    → Reading
    → (String → ℕ)
    → Result (Option Alert × List Alert)
unfolding get_tank_row
create_alert_if_not_already_active tanks alerts tank_id alert_type r fresh = do
  tank ← get_tank_row tanks tank_id
  upsert_active_alert alerts (tank_key tank alert_type) r none none (fresh alert_type)

-- `a - b`
abbrev pub difference : ℕ → ℕ → ℤ
difference a b = if leb b a then pos (a - b) else negsuc (b - a - 1)

-- An entry of `value_by_type` and of `threshold_by_type`.
pub record Threshold : Type 0 where
  pub alert_type : String
  pub value : Option ℤ
  pub threshold : ℕ

abbrev pub thresholds : Tank → ℕ → Option ℕ → List Threshold
thresholds tank height water_height =
    let net = some (difference height (or_zero water_height)) in
    record { alert_type = "level_high"; value = net; threshold = tank.height_alarm_mm }
    ∷ record { alert_type = "level_high_pre_alarm"; value = net; threshold = tank.height_alert_mm }
    ∷ record { alert_type = "level_low"; value = net; threshold = tank.low_alarm_mm }
    ∷ record {
      alert_type = "water";
      value = elim water_height [ none ↦ none | some w ↦ some (pos w) ];
      threshold = tank.alert_water_max_mm;
    }
    ∷ []

-- `if alert: created.append(alert)`
abbrev pub appended : Option Alert → List Alert
appended none = []
appended (some a) = a ∷ []

-- One round of the loop: an alert that is triggered is opened, one that is not is closed.
unfoldable pub evaluate_type :
    List Tank
    → Tank
    → ℕ
    → (String → ℕ)
    → List String
    → Threshold
    → List Alert
    → Result (List Alert × List Alert)
unfolding create_alert_if_not_already_active
evaluate_type tanks tank now fresh triggered_types t alerts =
    if any (λ (s : String). s == t.alert_type) triggered_types
    then create_alert_if_not_already_active tanks alerts tank.id t.alert_type
        (record {
          triggered_at = now;
          triggered_value = t.value;
          threshold_value = some (pos t.threshold);
        })
        fresh
      >>= (λ (alert, alerts'). ok (appended alert, alerts'))
    else auto_resolve_alert alerts (tank_key tank t.alert_type) now
      >>= (λ alerts'. ok ([], alerts'))

unfoldable pub evaluate_types :
    List Tank
    → Tank
    → ℕ
    → (String → ℕ)
    → List String
    → List Threshold
    → List Alert
    → Result (List Alert × List Alert)
unfolding evaluate_type
evaluate_types tanks tank now fresh triggered_types [] alerts = ok ([], alerts)
evaluate_types tanks tank now fresh triggered_types (t ∷ ts) alerts =
    evaluate_type tanks tank now fresh triggered_types t alerts >>= (λ (first, mid).
      evaluate_types tanks tank now fresh triggered_types ts mid
      >>= (λ (rest, last). ok (first ++ rest, last)))

-- `float(water_registry.lastValue) if water_registry and ... else None`
abbrev pub water_level : Option HolykellDeviceRegistry → Option ℕ
water_level none = none
water_level (some r) = r.last_value

-- A probe that answers: its offline alert is closed and the four thresholds are compared.
unfoldable pub evaluate_height :
    MonitorDb → Tank → ℕ → ℕ → (String → ℕ) → Result (List Alert × List Alert)
unfolding get_active_registry_entry evaluate_threshold_alarms evaluate_types
evaluate_height db tank height now fresh = do
  alerts ← auto_resolve_alert db.alerts (tank_key tank "sensor_offline") now
  water_registry ← get_active_registry_entry db tank.id "water_level"
  let water_height = water_level water_registry
  let triggered_types =
      evaluate_threshold_alarms height water_height tank.height_alarm_mm tank.height_alert_mm
        tank.low_alarm_mm tank.alert_water_max_mm
  evaluate_types db.tanks tank now fresh triggered_types (thresholds tank height water_height)
      alerts

unfoldable pub evaluate_probe :
    MonitorDb → Tank → HolykellDeviceRegistry → ℕ → (String → ℕ) → Result (List Alert × List Alert)
unfolding evaluate_height create_alert_if_not_already_active
evaluate_probe db tank product_registry now fresh = elim product_registry.last_value [
  | none ↦ ok ([], db.alerts)
  | some height ↦
      if product_registry.hk_last_status == some 0
      then create_alert_if_not_already_active db.tanks db.alerts tank.id "sensor_offline"
          (record { triggered_at = now; triggered_value = none; threshold_value = none }) fresh
        >>= (λ (alert, alerts). ok (appended alert, alerts))
      else evaluate_height db tank height now fresh
]

-- The alerts that are opened, and the table of alerts after it.
unfoldable pub run_alert_evaluation_for_tank :
    MonitorDb → ℕ → ℕ → (String → ℕ) → Result (List Alert × List Alert)
unfolding get_tank_row get_active_registry_entry evaluate_probe
run_alert_evaluation_for_tank db tank_id now fresh = do
  tank ← get_tank_row db.tanks tank_id
  product_registry ← get_active_registry_entry db tank_id "product_level"
  elim product_registry [ none ↦ ok ([], db.alerts) | some r ↦ evaluate_probe db tank r now fresh ]

-- ===== src/Monitoring/Tests.antt =====
-- The evaluation of one tank.
use zylo_office_backend.Prelude.{
  String, true, ◌≡◌, ◌≢◌, refl, some, List, [], ◌∷◌, select, find, ok, In, arith,
  scalar_one_or_none,
}
use zylo_office_backend.Alerts.Tables.{Alert, AlertKey}
use zylo_office_backend.Alerts.Deduplication.{open_alerts, IsDeduplicated}
use zylo_office_backend.Monitoring.{
  Tank, HolykellDeviceRegistry, MonitorDb, get_tank_row, get_active_registry_entry, tank_key,
  run_alert_evaluation_for_tank,
}
use zylo_office_backend.Monitoring.Evaluation.{
  AgreesWithThresholds, evaluated_types, run_alert_evaluation_for_tank_lem,
}

abbrev diesel : Tank
diesel = record {
  id = 3;
  station_id = 6;
  height_alarm_mm = 90;
  height_alert_mm = 80;
  low_alarm_mm = 10;
  alert_water_max_mm = 5;
}

abbrev probe : HolykellDeviceRegistry
probe = record { hk_sensor_id = 20; hk_last_status = some 1; last_value = some 88 }

abbrev water_probe : HolykellDeviceRegistry
water_probe = record { hk_sensor_id = 21; hk_last_status = some 1; last_value = some 5 }

-- A tank of ninety with eighty-eight in it, five of which are water.
abbrev plant : MonitorDb
plant = record {
  tanks = diesel ∷ [];
  mappings =
      record { tank_id = 3; hk_sensor_id = 20; measurement_type = "product_level"; active = true }
      ∷ record { tank_id = 3; hk_sensor_id = 21; measurement_type = "water_level"; active = true }
      ∷ [];
  registry = probe ∷ water_probe ∷ [];
  alerts = [];
}

tank_found : get_tank_row plant.tanks 3 ≡ ok diesel
unfolding get_tank_row find
tank_found = refl

product_probe : get_active_registry_entry plant 3 "product_level" ≡ ok (some probe)
unfolding get_active_registry_entry select scalar_one_or_none mathlib.Core.List.flat_map
product_probe = refl

water_found : get_active_registry_entry plant 3 "water_level" ≡ ok (some water_probe)
unfolding get_active_registry_entry select scalar_one_or_none mathlib.Core.List.flat_map
water_found = refl

no_alerts : IsDeduplicated []
unfolding select
no_alerts key = omega arith

run_alert_evaluation_for_tank_lem_example :
    (made : List Alert) × (alerts' : List Alert) × (run_alert_evaluation_for_tank plant 3 9
        (λ t. 40)
      ≡ ok (made, alerts'))
    × (open_alerts (tank_key diesel "sensor_offline") alerts' ≡ [])
    × AgreesWithThresholds diesel 88 (some 5) alerts'
    × ((k : AlertKey)
        → ((t : String) → In t evaluated_types → k ≢ tank_key diesel t)
        → open_alerts k alerts' ≡ open_alerts k [])
    × IsDeduplicated alerts'
run_alert_evaluation_for_tank_lem_example =
    run_alert_evaluation_for_tank_lem plant diesel probe (some water_probe) 88 9 (λ t. 40)
      tank_found product_probe refl refl water_found no_alerts

-- ===== src/Tanks/Tests.antt =====
-- Runs of the tank algorithms, and the theorems applied to them.
use zylo_office_backend.Prelude.{◌+◌, ◌≤◌, ◌<◌, ◌≡◌, refl, ◌↔◌, some, List, [], ◌∷◌, arith}
use zylo_office_backend.Tanks.Levels.{
  or_zero, evaluate_threshold_alarms, is_extreme, classify_tank_variation, Triggered, Classified,
  evaluate_threshold_alarms_lem, classify_tank_variation_lem,
}
use zylo_office_backend.Tanks.Calibration.{
  CalibrationPoint, Fraction, insert_point, sort_points, last_point, find_segment,
  interpolate_height_to_volume, IsWithin, interpolate_height_to_volume_lem,
}

-- 1950 mm with 40 mm of water: the early alarm, and the water alarm.
alarms :
    evaluate_threshold_alarms 1950 (some 40) 1950 1900 200 30
    ≡ "level_high_pre_alarm" ∷ "water" ∷ []
unfolding evaluate_threshold_alarms
alarms = refl

evaluate_threshold_alarms_lem_example :
    (Triggered 1950 (some 40) 1950 1900 200 30 "level_high" ↔ (1950 + or_zero (some 40) ≤ 1950))
    × (Triggered 1950 (some 40) 1950 1900 200 30 "level_high_pre_alarm"
        ↔ ((1900 + or_zero (some 40) ≤ 1950) × (1950 < 1950 + or_zero (some 40))))
    × (Triggered 1950 (some 40) 1950 1900 200 30 "level_low" ↔ (1950 ≤ 200 + or_zero (some 40)))
    × (Triggered 1950 (some 40) 1950 1900 200 30 "water" ↔ (30 ≤ or_zero (some 40)))
evaluate_threshold_alarms_lem_example =
    evaluate_threshold_alarms_lem 1950 (some 40) 1950 1900 200 30

sale : classify_tank_variation 500 420 1 3 6000 ≡ ("sale", 80)
unfolding classify_tank_variation is_extreme
sale = refl

classify_tank_variation_lem_example :
    Classified 500 420 1 3 6000 (classify_tank_variation 500 420 1 3 6000)
classify_tank_variation_lem_example = classify_tank_variation_lem 500 420 1 3 6000

-- A table that is not given in order.
abbrev table : List CalibrationPoint
table =
    record { height = 100; volume = 900 }
    ∷ record { height = 0; volume = 0 }
    ∷ record { height = 50; volume = 400 }
    ∷ []

-- 650 litres, over 50.
at_75 : interpolate_height_to_volume table 75 ≡ some (record { num = 32500; den = 50 })
unfolding interpolate_height_to_volume sort_points insert_point last_point find_segment
at_75 = refl

interpolate_height_to_volume_lem_example :
    (f : Fraction) × (interpolate_height_to_volume table 75 ≡ some f) × IsWithin 0 900 f
interpolate_height_to_volume_lem_example =
    interpolate_height_to_volume_lem table 75 0 900 (λ e. cc) (ground arith)

-- ===== src/Alerts/Tests.antt =====
-- A life of an alert on one station, and the theorems applied to it.
use zylo_office_backend.Prelude.{
  any, ◌≡◌, refl, inl, Option, none, some, List, [], ◌∷◌, string_eq, nat_eq, option_eq, In, select,
  any, find, length, ok, scalar_one_or_none, arith,
}
use zylo_office_backend.Audit.{record_audit_event}
use zylo_office_backend.Alerts.Tables.{Alert, AlertKey, AlertDb, Reading, key_eq}
use zylo_office_backend.Alerts.{
  is_open, is_open_with, find_open_alert, update_first, new_alert, upsert_active_alert, is_allowed,
  auto_resolve_alert, owned_by, is_alert_of, get_alert, acknowledged, acknowledge_alert,
  resolved_manually, resolve_alert, is_auto_verifiable, get_or,
}
use zylo_office_backend.Alerts.Deduplication.{
  IsDeduplicated, OthersKept, open_alerts, upsert_active_alert_lem, auto_resolve_alert_lem,
}
use zylo_office_backend.Alerts.Lifecycle.{IsConsistent, here, next, detect, acknowledge, resolve}
use zylo_office_backend.Alerts.Reachable.{Reach-IsConsistent, Reach-keeps_resolved}

abbrev key : AlertKey
key = record {
  station_id = some 1;
  truck_id = none;
  vessel_id = none;
  tank_id = none;
  product_id = some 3;
  alert_type = "price_missing";
}

abbrev seen : Reading
seen = record { triggered_at = 10; triggered_value = none; threshold_value = none }

abbrev opened : Alert
opened = new_alert key seen none none 50

-- The same condition on another product is another alert.
abbrev other_key : AlertKey
other_key = record key { product_id = some 4 }

abbrev quiet : AlertDb
quiet = record {
  alerts = [];
  stations = record { id = 1; organization_id = 5 } ∷ [];
  trucks = [];
  vessels = [];
  audit_logs = [];
}

abbrev raised : AlertDb
raised = record quiet { alerts = opened ∷ [] }

abbrev seen_by_user : AlertDb
seen_by_user = record raised {
  alerts = acknowledged 12 2 opened ∷ [];
  audit_logs =
      record_audit_event [] 5 2 "zyloLiquid.alert.acknowledge" "Alert" (some 50) none
        (some "station") (some 1);
}

abbrev closed_row : Alert
closed_row = resolved_manually 15 2 "price entered" (acknowledged 12 2 opened)

abbrev closed : AlertDb
closed = record seen_by_user {
  alerts = closed_row ∷ [];
  audit_logs =
      record_audit_event seen_by_user.audit_logs 5 2 "zyloLiquid.alert.resolve" "Alert" (some 50)
        none (some "station") (some 1);
}

abbrev raised_again : AlertDb
raised_again = record closed { alerts = closed_row ∷ new_alert key seen none none 51 ∷ [] }

raise_succeeds : upsert_active_alert [] key seen none none 50 ≡ ok (some opened, opened ∷ [])
unfolding upsert_active_alert find_open_alert is_open_with is_open select scalar_one_or_none get_or
    any
raise_succeeds = refl

acknowledge_succeeds : acknowledge_alert raised 12 5 2 50 ≡ ok seen_by_user
unfolding acknowledge_alert get_alert is_alert_of owned_by find any update_first record_audit_event
acknowledge_succeeds = refl

resolve_succeeds : resolve_alert seen_by_user 15 5 2 50 "price entered" ≡ ok closed
unfolding resolve_alert get_alert is_alert_of is_auto_verifiable owned_by find any update_first
    record_audit_event
resolve_succeeds = refl

raise_again_succeeds :
    upsert_active_alert (closed_row ∷ []) key seen none none 51
    ≡ ok (some (new_alert key seen none none 51), closed_row ∷ new_alert key seen none none 51 ∷ [])
unfolding upsert_active_alert find_open_alert is_open_with is_open select scalar_one_or_none get_or
    any
raise_again_succeeds = refl

quiet-IsConsistent : IsConsistent quiet
unfolding select
quiet-IsConsistent = record { sound = tt; deduplicated = λ k. omega arith }

Reach-IsConsistent_example : IsConsistent closed
Reach-IsConsistent_example =
    Reach-IsConsistent
      (next
        (next
          (next here
            (detect quiet key seen none none 50 (some opened) (opened ∷ []) raise_succeeds))
          (acknowledge raised 12 5 2 50 seen_by_user acknowledge_succeeds))
        (resolve seen_by_user 15 5 2 50 "price entered" closed resolve_succeeds))
      quiet-IsConsistent

Reach-keeps_resolved_example : In closed_row raised_again.alerts
Reach-keeps_resolved_example =
    Reach-keeps_resolved
      (next here (
        detect closed key seen none none 51 (some (new_alert key seen none none 51))
          raised_again.alerts raise_again_succeeds))
      closed_row (inl refl) refl

one_row-IsDeduplicated : IsDeduplicated (opened ∷ [])
unfolding select
one_row-IsDeduplicated k = ground arith

upsert_active_alert_lem_example :
    (o : Option Alert) × (alerts' : List Alert) × (upsert_active_alert
        (opened ∷ [])
        other_key
        seen
        none
        none
        51
      ≡ ok (o, alerts'))
    × (length (open_alerts other_key alerts') ≡ 1)
    × OthersKept other_key (opened ∷ []) alerts'
    × IsDeduplicated alerts'
unfolding is_allowed any
upsert_active_alert_lem_example =
    upsert_active_alert_lem (opened ∷ []) other_key seen none none 51 one_row-IsDeduplicated refl

auto_resolve_alert_lem_example :
    (alerts' : List Alert) × (auto_resolve_alert (opened ∷ []) key 20 ≡ ok alerts')
    × (open_alerts key alerts' ≡ [])
    × OthersKept key (opened ∷ []) alerts'
    × IsDeduplicated alerts'
auto_resolve_alert_lem_example = auto_resolve_alert_lem (opened ∷ []) key 20 one_row-IsDeduplicated

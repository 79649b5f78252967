-- ===== src/Reconciliation/Requests.antt =====
-- The requests and the background calls that reconcile deliveries: the manual choice of a detection,
-- the return from a new detection, and the alert on stale lines.
use zylo_office_backend.Prelude.{
  ℕ, ◌+◌, ◌*◌, String, Bool, true, not, ◌&&◌, ◌||◌, Option, none, some, List, [], ◌∷◌, flat_map,
  map, ◌==◌, string_eq, nat_eq, option_eq, ltb, if◌then◌else◌, select, any, find, Result, ok, guard,
  or_raise, is_none, permission_denied, delivery_declaration_line_not_found,
  delivery_declaration_line_superseded, delivery_detected_not_found,
  delivery_detected_already_reconciled, ◌>>=◌, ◌>>◌,
}
use zylo_office_backend.Rbac.Resolution.{user_has_permission}
use zylo_office_backend.Alerts.Tables.{Alert}
use zylo_office_backend.Commercial.Tables.{Station}
use zylo_office_backend.Monitoring.{Tank, create_alert_if_not_already_active}
use zylo_office_backend.Reconciliation.Tables.{
  DeliveryDeclaration, DeliveryDeclarationLine, DeliveryDetected, ReconciliationRecord,
  ReconciliationDb,
}
use zylo_office_backend.Reconciliation.Matching.{
  window_of, is_within_window, gap, is_superseded, find_active_line_using_detected, compare_volumes,
}
use zylo_office_backend.Reconciliation.{
  get_reconciliation_settings, signed, settle,
  evaluate_delivery_declaration_line_reconciliation_core,
}

unfoldable pub check_reconciliation_scope :
    ReconciliationDb → ℕ → ℕ → ℕ → Station → Result (Unit {0})
check_reconciliation_scope db now organization_id actor_user_id station =
    guard
      (user_has_permission db.rbac now actor_user_id organization_id
        "zyloLiquid.reconciliation.read" (some "station") (some station.id))
      permission_denied

unfoldable pub get_delivery_declaration_line_and_context :
    ReconciliationDb
    → ℕ
    → ℕ
    → ℕ
    → ℕ
    → Result (DeliveryDeclarationLine × DeliveryDeclaration × Station)
unfolding check_reconciliation_scope
get_delivery_declaration_line_and_context db now organization_id actor_user_id line_id = do
  line ←
      or_raise (find (λ (l : DeliveryDeclarationLine). l.id == line_id) db.lines)
        delivery_declaration_line_not_found
  declaration ←
      or_raise (find (λ (d : DeliveryDeclaration). d.id == line.declaration_id) db.declarations)
        delivery_declaration_line_not_found
  station ←
      or_raise (find (λ (s : Station). s.id == declaration.station_id) db.stations)
        delivery_declaration_line_not_found
  guard (station.organization_id == organization_id) delivery_declaration_line_not_found
  check_reconciliation_scope db now organization_id actor_user_id station
  ok (line, declaration, station)

unfoldable pub manually_reconcile_delivery_declaration_line :
    ReconciliationDb
    → ℕ
    → ℕ
    → ℕ
    → ℕ
    → ℕ
    → Bool
    → ℕ
    → (String → ℕ)
    → Result (ReconciliationRecord × ReconciliationDb)
unfolding get_delivery_declaration_line_and_context is_superseded find_active_line_using_detected
    get_reconciliation_settings compare_volumes settle
manually_reconcile_delivery_declaration_line db now organization_id actor_user_id line_id
      detected_id force fresh fresh_alert =
    do
      (line, declaration, station) ←
          get_delivery_declaration_line_and_context db now organization_id actor_user_id line_id
      guard (not (is_superseded db.lines line.id)) delivery_declaration_line_superseded
      d ←
          or_raise (find (λ (x : DeliveryDetected). x.id == detected_id) db.detected)
            delivery_detected_not_found
      guard (d.tank_id == line.tank_id) delivery_detected_not_found
      guard (is_none (find_active_line_using_detected db.lines db.records d.id line.id) || force)
          delivery_detected_already_reconciled
      settings ← get_reconciliation_settings db declaration.station_id
      settle db declaration line (compare_volumes settings line d) (some actor_user_id) now fresh
          fresh_alert

-- The lines of a tank with their declarations, in the window of a detection.
unfoldable pub lines_in_window :
    ReconciliationDb → ℕ → ℕ → ℕ → List (DeliveryDeclarationLine × DeliveryDeclaration)
unfolding is_within_window
lines_in_window db tank_id at window =
    flat_map
      (λ (l : DeliveryDeclarationLine).
        map (λ (d : DeliveryDeclaration). (l, d))
          (select
            (λ (d : DeliveryDeclaration).
              d.id == l.declaration_id
              && (l.tank_id == tank_id && is_within_window at window d.event_at))
            db.declarations))
      db.lines

-- The loop over the lines: the first of the nearest in time.
unfoldable pub nearest_line :
    ℕ
    → Option (DeliveryDeclarationLine × DeliveryDeclaration × ℕ)
    → List (DeliveryDeclarationLine × DeliveryDeclaration)
    → Option (DeliveryDeclarationLine × DeliveryDeclaration × ℕ)
unfolding gap
nearest_line start_time best [] = best
nearest_line start_time best ((l, d) ∷ rest) =
    let delta = gap d.event_at start_time in
    let closer : Bool = elim best [
      | none ↦ true
      | some (b, c, best_delta) ↦ ltb delta best_delta
    ] in
    nearest_line start_time (if closer then some (l, d, delta) else best) rest

-- The line that a new detection is given to, or the alert that no line is there.
unfoldable pub reverse_match_delivery_detected :
    ReconciliationDb → ℕ → DeliveryDetected → Tank → ℕ → (String → ℕ) → Result ReconciliationDb
unfolding get_reconciliation_settings window_of lines_in_window nearest_line
    evaluate_delivery_declaration_line_reconciliation_core
reverse_match_delivery_detected db now d tank fresh fresh_alert = do
  settings ← get_reconciliation_settings db tank.station_id
  elim (nearest_line d.start_time none
      (lines_in_window db tank.id d.start_time (window_of settings))) [
        | some (line, declaration, delta) ↦
            evaluate_delivery_declaration_line_reconciliation_core db now declaration line fresh
              fresh_alert
            >>= (λ (row, db'). ok db')
        | none ↦
            create_alert_if_not_already_active db.tanks db.alerts tank.id "delivery_undeclared"
              (record {
                triggered_at = d.start_time;
                triggered_value = signed d.volume_liters;
                threshold_value = none;
              })
              fresh_alert
            >>= (λ (alert, alerts). ok (record db { alerts = alerts }))
      ]

abbrev pub stale_pending_hours_default : ℕ
stale_pending_hours_default = 24

-- The lines of a station that have been pending for too long, with the time of their declaration.
unfoldable pub stale_lines : ReconciliationDb → ℕ → ℕ → List (DeliveryDeclarationLine × ℕ)
stale_lines db station_id now =
    flat_map
      (λ (l : DeliveryDeclarationLine).
        map (λ (d : DeliveryDeclaration). (l, d.event_at))
          (select
            (λ (d : DeliveryDeclaration).
              d.id == l.declaration_id
              && (d.station_id == station_id
                  && (ltb (d.event_at + stale_pending_hours_default * 3_600) now
                      && any
                          (λ (r : ReconciliationRecord).
                            l.reconciled_with_id == some r.id && r.status == "pending")
                          db.records)))
            db.declarations))
      db.lines

unfoldable pub raise_pending :
    List Tank → (String → ℕ) → List (DeliveryDeclarationLine × ℕ) → List Alert → Result (List Alert)
raise_pending tanks fresh_alert [] alerts = ok alerts
raise_pending tanks fresh_alert ((l, event_at) ∷ rest) alerts =
    create_alert_if_not_already_active tanks alerts l.tank_id "delivery_declaration_pending"
      (record { triggered_at = event_at; triggered_value = none; threshold_value = none })
      fresh_alert
    >>= (λ (alert, after). raise_pending tanks fresh_alert rest after)

unfoldable pub sweep_stale_pending_delivery_declarations :
    ReconciliationDb → ℕ → ℕ → (String → ℕ) → Result ReconciliationDb
unfolding stale_lines raise_pending
sweep_stale_pending_delivery_declarations db station_id now fresh_alert =
    raise_pending db.tanks fresh_alert (stale_lines db station_id now) db.alerts
    >>= (λ alerts. ok (record db { alerts = alerts }))

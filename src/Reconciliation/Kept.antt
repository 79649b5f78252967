-- ===== src/Reconciliation/Kept.antt =====
-- The use of detections after each kind of reconciliation.
use zylo_office_backend.Prelude.{
  ℕ, String, false, not, ◌||◌, ◌≡◌, refl, sym, ◌∙◌, inl, inr, Option, none, some, List, ◌==◌,
  nat_eq, is_none, is_none-eq, find, or_raise, Result, ok, arith, subst, >>=-eq-ok, guard->>-eq-ok,
  ok-injective, or-true, delivery_declaration_line_superseded, delivery_detected_not_found,
  delivery_detected_already_reconciled, ◌>>=◌,
}
use zylo_office_backend.Alerts.Tables.{Alert}
use zylo_office_backend.Monitoring.{Tank, create_alert_if_not_already_active}
use zylo_office_backend.Reconciliation.Tables.{
  StationReconciliationSettings, DeliveryDeclaration, DeliveryDeclarationLine, DeliveryDetected,
  ReconciliationRecord, ReconciliationDb,
}
use zylo_office_backend.Reconciliation.Matching.{
  Verdict, is_superseded, find_active_line_using_detected, best_candidate, compare_volumes,
  window_of,
}
use zylo_office_backend.Reconciliation.{
  get_reconciliation_settings, pending, evaluate_delivery_declaration_line_reconciliation_core,
  signed,
}
use zylo_office_backend.Reconciliation.Requests.{
  get_delivery_declaration_line_and_context, manually_reconcile_delivery_declaration_line,
}
use zylo_office_backend.Reconciliation.Exclusive.{
  IsExclusive, IsFreshRecord, IsFreeVerdict, settle-IsExclusive,
}
use zylo_office_backend.Reconciliation.Nearest.{IsNearestEligible, best_candidate-IsNearestEligible}

compare_volumes-counterpart :
    (settings : Option StationReconciliationSettings) (line : DeliveryDeclarationLine)
    (d : DeliveryDetected)
    → (compare_volumes settings line d).counterpart_id ≡ some d.id
unfolding compare_volumes
compare_volumes-counterpart settings line d = by_volume d.volume_liters refl
  where
    by_volume :
        (o : Option ℕ)
        → d.volume_liters ≡ o
        → (compare_volumes settings line d).counterpart_id ≡ some d.id
    by_volume none e = rw e refl
    by_volume (some v) e = rw e refl

-- The verdict on a free detection names nothing that another line uses.
compared-IsFreeVerdict :
    (db : ReconciliationDb) (settings : Option StationReconciliationSettings)
    (line : DeliveryDeclarationLine) (d : DeliveryDetected)
    → find_active_line_using_detected db.lines db.records d.id line.id ≡ none
    → IsFreeVerdict db line (compare_volumes settings line d)
compared-IsFreeVerdict db settings line d free i named =
    let same : ◌≡◌ {A = Option ℕ} (some d.id) (some i) =
      sym (compare_volumes-counterpart settings line d) ∙ named in
    let is_i : d.id ≡ i = ground arith in
    subst (λ (k : ℕ). find_active_line_using_detected db.lines db.records k line.id ≡ none) is_i
      free

abbrev verdict_of :
    Option StationReconciliationSettings
    → DeliveryDeclarationLine
    → Option DeliveryDetected
    → Verdict
verdict_of settings line o = elim o [ none ↦ pending | some d ↦ compare_volumes settings line d ]

verdict_of-IsFreeVerdict :
    (db : ReconciliationDb) (settings : Option StationReconciliationSettings)
    (declaration : DeliveryDeclaration) (line : DeliveryDeclarationLine)
    (o : Option DeliveryDetected)
    → IsNearestEligible db declaration line (window_of settings) o
    → IsFreeVerdict db line (verdict_of settings line o)
verdict_of-IsFreeVerdict db settings declaration line none h = λ i named. cc
verdict_of-IsFreeVerdict db settings declaration line (some d) ((row, tank, inside, free), least) =
    compared-IsFreeVerdict db settings line d free

-- The automatic reconciliation of a line.
pub core-IsExclusive :
    (db : ReconciliationDb) (now : ℕ) (declaration : DeliveryDeclaration)
    (line : DeliveryDeclarationLine) (fresh : ℕ) (fresh_alert : String → ℕ)
    (row : ReconciliationRecord) (db' : ReconciliationDb)
    → IsExclusive db
    → IsFreshRecord db fresh
    → evaluate_delivery_declaration_line_reconciliation_core db now declaration line fresh
        fresh_alert
      ≡ ok (row, db')
    → IsExclusive db'
unfolding evaluate_delivery_declaration_line_reconciliation_core
core-IsExclusive db now declaration line fresh fresh_alert row db' exclusive is_fresh h =
    let (settings, found, h1) =
      >>=-eq-ok (get_reconciliation_settings db declaration.station_id) _ h in
    let best = best_candidate db declaration line (window_of settings) in
    settle-IsExclusive db declaration line (verdict_of settings line best) none now fresh
      fresh_alert row db' exclusive is_fresh
      (verdict_of-IsFreeVerdict db settings declaration line best
        (best_candidate-IsNearestEligible db declaration line (window_of settings)))
      h1

-- The choice of a user who does not force it.
pub manual-IsExclusive :
    (db : ReconciliationDb) (now organization_id actor_user_id line_id detected_id fresh : ℕ)
    (fresh_alert : String → ℕ) (row : ReconciliationRecord) (db' : ReconciliationDb)
    → IsExclusive db
    → IsFreshRecord db fresh
    → manually_reconcile_delivery_declaration_line db now organization_id actor_user_id line_id
        detected_id false fresh fresh_alert
      ≡ ok (row, db')
    → IsExclusive db'
unfolding manually_reconcile_delivery_declaration_line
manual-IsExclusive db now organization_id actor_user_id line_id detected_id fresh fresh_alert row
      db' exclusive is_fresh h =
    let ((line, declaration, station), context, h1) =
      >>=-eq-ok
        (get_delivery_declaration_line_and_context db now organization_id actor_user_id line_id) _
        h in
    let (active, h2) =
      guard->>-eq-ok (not (is_superseded db.lines line.id)) delivery_declaration_line_superseded _
        h1 in
    let (d, found, h3) =
      >>=-eq-ok
        (or_raise (find (λ (x : DeliveryDetected). x.id == detected_id) db.detected)
          delivery_detected_not_found)
        _ h2 in
    let (on_tank, h4) =
      guard->>-eq-ok (d.tank_id == line.tank_id) delivery_detected_not_found _ h3 in
    let (unused, h5) =
      guard->>-eq-ok
        (is_none (find_active_line_using_detected db.lines db.records d.id line.id) || false)
        delivery_detected_already_reconciled _ h4 in
    let (settings, has_settings, h6) =
      >>=-eq-ok (get_reconciliation_settings db declaration.station_id) _ h5 in
    let free : find_active_line_using_detected db.lines db.records d.id line.id ≡ none =
      elim (or-true (is_none (find_active_line_using_detected db.lines db.records d.id line.id))
        false unused) [
          | inl e ↦ is_none-eq (find_active_line_using_detected db.lines db.records d.id line.id) e
          | inr e ↦ cc
        ] in
    settle-IsExclusive db declaration line (compare_volumes settings line d) (some actor_user_id)
      now fresh fresh_alert row db' exclusive is_fresh
      (compared-IsFreeVerdict db settings line d free) h6

-- The same lines and records, other alerts.
pub with_alerts-IsExclusive :
    (db : ReconciliationDb) (alerts : List Alert) (db' : ReconciliationDb)
    → IsExclusive db
    → ◌≡◌ {A = Result ReconciliationDb} (ok (record db { alerts = alerts })) (ok db')
    → IsExclusive db'
with_alerts-IsExclusive db alerts db' exclusive h =
    rw (← ok-injective (record db { alerts = alerts }) db' h) exclusive

unfoldable pub returned :
    ReconciliationDb
    → ℕ
    → DeliveryDetected
    → Tank
    → ℕ
    → (String → ℕ)
    → Option (DeliveryDeclarationLine × DeliveryDeclaration × ℕ)
    → Result ReconciliationDb
returned db now d tank fresh fresh_alert o = elim o [
  | some (line, declaration, delta) ↦
      evaluate_delivery_declaration_line_reconciliation_core db now declaration line fresh
        fresh_alert
      >>= (λ (row, db'). ok db')
  | none ↦
      create_alert_if_not_already_active db.tanks db.alerts tank.id "delivery_undeclared"
        (record {
          triggered_at = d.start_time;
          triggered_value = signed d.volume_liters;
          threshold_value = none;
        })
        fresh_alert
      >>= (λ (alert, alerts). ok (record db { alerts = alerts }))
]

pub returned-IsExclusive :
    (db : ReconciliationDb) (now : ℕ) (d : DeliveryDetected) (tank : Tank) (fresh : ℕ)
    (fresh_alert : String → ℕ) (o : Option (DeliveryDeclarationLine × DeliveryDeclaration × ℕ))
    (db' : ReconciliationDb)
    → IsExclusive db
    → IsFreshRecord db fresh
    → returned db now d tank fresh fresh_alert o ≡ ok db'
    → IsExclusive db'
unfolding returned
returned-IsExclusive db now d tank fresh fresh_alert (some (line, declaration, delta)) db' exclusive
      is_fresh h =
    let ((row, mid), core, h1) =
      >>=-eq-ok
        (evaluate_delivery_declaration_line_reconciliation_core db now declaration line fresh
          fresh_alert)
        _ h in
    subst IsExclusive (ok-injective mid db' h1)
      (core-IsExclusive db now declaration line fresh fresh_alert row mid exclusive is_fresh core)
returned-IsExclusive db now d tank fresh fresh_alert none db' exclusive is_fresh h =
    let ((alert, alerts), made, h1) =
      >>=-eq-ok
        (create_alert_if_not_already_active db.tanks db.alerts tank.id "delivery_undeclared"
          (record {
            triggered_at = d.start_time;
            triggered_value = signed d.volume_liters;
            threshold_value = none;
          })
          fresh_alert)
        _ h in
    with_alerts-IsExclusive db alerts db' exclusive h1

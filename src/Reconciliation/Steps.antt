-- ===== src/Reconciliation/Steps.antt =====
-- Sequences of reconciliations: automatic, chosen by a user without force, on the return from a new
-- detection, and the sweep of stale lines.
use zylo_office_backend.Prelude.{ℕ, String, false, ◌≡◌, none, nat_eq, ok, >>=-eq-ok}
use zylo_office_backend.Monitoring.{Tank}
use zylo_office_backend.Reconciliation.Tables.{
  DeliveryDeclaration, DeliveryDeclarationLine, DeliveryDetected, ReconciliationRecord,
  ReconciliationDb,
}
use zylo_office_backend.Reconciliation.Matching.{window_of}
use zylo_office_backend.Reconciliation.{
  get_reconciliation_settings, evaluate_delivery_declaration_line_reconciliation_core,
}
use zylo_office_backend.Reconciliation.Requests.{
  manually_reconcile_delivery_declaration_line, lines_in_window, nearest_line,
  reverse_match_delivery_detected, stale_lines, raise_pending,
  sweep_stale_pending_delivery_declarations,
}
use zylo_office_backend.Reconciliation.Exclusive.{IsExclusive, IsFreshRecord}
use zylo_office_backend.Reconciliation.Kept.{
  core-IsExclusive, manual-IsExclusive, with_alerts-IsExclusive, returned, returned-IsExclusive,
}

-- One reconciliation, or one sweep.
pub data ReconciliationStep (db db' : ReconciliationDb) : Type 0 where
  evaluated :
      (now : ℕ) (declaration : DeliveryDeclaration) (line : DeliveryDeclarationLine) (fresh : ℕ)
      (fresh_alert : String → ℕ) (row : ReconciliationRecord)
      → IsFreshRecord db fresh
      → evaluate_delivery_declaration_line_reconciliation_core db now declaration line fresh
          fresh_alert
        ≡ ok (row, db')
      → ReconciliationStep db db'
  chosen :
      (now organization_id actor_user_id line_id detected_id fresh : ℕ) (fresh_alert : String → ℕ)
      (row : ReconciliationRecord)
      → IsFreshRecord db fresh
      → manually_reconcile_delivery_declaration_line db now organization_id actor_user_id line_id
          detected_id false fresh fresh_alert
        ≡ ok (row, db')
      → ReconciliationStep db db'
  reverse_matched :
      (now : ℕ) (d : DeliveryDetected) (tank : Tank) (fresh : ℕ) (fresh_alert : String → ℕ)
      → IsFreshRecord db fresh
      → reverse_match_delivery_detected db now d tank fresh fresh_alert ≡ ok db'
      → ReconciliationStep db db'
  swept :
      (station_id now : ℕ) (fresh_alert : String → ℕ)
      → sweep_stale_pending_delivery_declarations db station_id now fresh_alert ≡ ok db'
      → ReconciliationStep db db'

pub data ReconciliationReach (db : ReconciliationDb) : ReconciliationDb → Type 0 where
  here : ReconciliationReach db db
  next :
      {mid last : ReconciliationDb}
      → ReconciliationReach db mid
      → ReconciliationStep mid last
      → ReconciliationReach db last

step-IsExclusive :
    (db db' : ReconciliationDb) → ReconciliationStep db db' → IsExclusive db → IsExclusive db'
unfolding reverse_match_delivery_detected sweep_stale_pending_delivery_declarations returned
step-IsExclusive db db' (evaluated now declaration line fresh fresh_alert row is_fresh h)
      exclusive =
    core-IsExclusive db now declaration line fresh fresh_alert row db' exclusive is_fresh h
step-IsExclusive db db' (chosen now o u l d fresh fresh_alert row is_fresh h) exclusive =
    manual-IsExclusive db now o u l d fresh fresh_alert row db' exclusive is_fresh h
step-IsExclusive db db' (reverse_matched now d tank fresh fresh_alert is_fresh h) exclusive =
    let (settings, found, h1) = >>=-eq-ok (get_reconciliation_settings db tank.station_id) _ h in
    returned-IsExclusive db now d tank fresh fresh_alert
      (nearest_line d.start_time none
        (lines_in_window db tank.id d.start_time (window_of settings)))
      db' exclusive is_fresh h1
step-IsExclusive db db' (swept station_id now fresh_alert h) exclusive =
    let (alerts, raised, h1) =
      >>=-eq-ok (raise_pending db.tanks fresh_alert (stale_lines db station_id now) db.alerts) _
        h in
    with_alerts-IsExclusive db alerts db' exclusive h1

-- As long as no user forces a choice, no sequence of reconciliations gives one detection to two
-- active lines, where none was before.
pub reach-IsExclusive :
    (db db' : ReconciliationDb) → ReconciliationReach db db' → IsExclusive db → IsExclusive db'
reach-IsExclusive db db' here exclusive = exclusive
reach-IsExclusive db db' (next {mid} before step) exclusive =
    step-IsExclusive mid db' step (reach-IsExclusive db mid before exclusive)

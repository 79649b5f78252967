-- ===== src/Reconciliation/Outcome.antt =====
-- What an automatic reconciliation records, and the alerts it opens and closes.
use zylo_office_backend.Prelude.{
  any, ℕ, String, false, ◌≡◌, ◌≢◌, refl, ap, sym, ◌∙◌, inl, inr, Bool-cases, Option, none, some,
  List, [], ◌∷◌, ◌++◌, map, ◌==◌, string_eq, nat_eq, find, find-some, or_raise-eq-ok,
  no_result_found, ok, length, beq_sound, beq_true, ne_sound, subst,
}
use zylo_office_backend.Alerts.Tables.{Alert, AlertKey}
use zylo_office_backend.Alerts.{is_alert_type}
use zylo_office_backend.Alerts.Deduplication.{
  OthersKept, open_alerts, IsDeduplicated, auto_resolve_alert_lem,
}
use zylo_office_backend.Monitoring.{Tank, get_tank_row, tank_key}
use zylo_office_backend.Monitoring.Thresholds.{create_alert_if_not_already_active_lem}
use zylo_office_backend.Reconciliation.Tables.{
  StationReconciliationSettings, DeliveryDeclaration, DeliveryDeclarationLine, DeliveryDetected,
  ReconciliationDb,
}
use zylo_office_backend.Reconciliation.Nearest.{IsNearestEligible, best_candidate-IsNearestEligible}
use zylo_office_backend.Reconciliation.Verdicts.{IsVerdict, compare_volumes-IsVerdict}
use zylo_office_backend.Reconciliation.Matching.{
  Verdict, best_candidate, compare_volumes, window_of,
}
use zylo_office_backend.Reconciliation.{
  get_reconciliation_settings, pending, point_to, new_record, delivery_key, close_delivery_alerts,
  signed, alerts_of_verdict, settle, evaluate_delivery_declaration_line_reconciliation_core,
}

other_type :
    (station_id tank_id : ℕ) (s t : String)
    → (s == t) ≡ false
    → delivery_key station_id tank_id s ≢ delivery_key station_id tank_id t
other_type station_id tank_id s t h e = ne_sound s t h (ap (λ (k : AlertKey). k.alert_type) e)

module _ (station_id tank_id : ℕ) where
  abbrev key : String → AlertKey
  key = delivery_key station_id tank_id

  -- The alerts of no other key have changed.
  abbrev pub DeliveryOthersKept : List Alert → List Alert → Type 0
  DeliveryOthersKept before after =
      (k : AlertKey)
      → k ≢ key "delivery_discrepancy"
      → k ≢ key "delivery_undeclared"
      → k ≢ key "delivery_declaration_pending"
      → open_alerts k after ≡ open_alerts k before

  abbrev pub DeliveryClosed : List Alert → Type 0
  DeliveryClosed alerts =
      (open_alerts (key "delivery_discrepancy") alerts ≡ [])
      × (open_alerts (key "delivery_undeclared") alerts ≡ [])
      × (open_alerts (key "delivery_declaration_pending") alerts ≡ [])

  close_delivery_alerts_lem :
      (alerts : List Alert) (now : ℕ)
      → IsDeduplicated alerts
      → (after : List Alert) × (close_delivery_alerts alerts station_id tank_id now ≡ ok after)
        × DeliveryClosed after
        × DeliveryOthersKept alerts after
        × IsDeduplicated after
  unfolding close_delivery_alerts
  close_delivery_alerts_lem alerts now h =
      let (a, ra, ca, oa, da) = auto_resolve_alert_lem alerts (key "delivery_discrepancy") now h in
      let (b, rb, cb, ob, db) = auto_resolve_alert_lem a (key "delivery_undeclared") now da in
      let (c, rc, cc', oc, dc) =
        auto_resolve_alert_lem b (key "delivery_declaration_pending") now db in
      let ne = λ (s t : String) (e : (s == t) ≡ false). other_type station_id tank_id s t e in
      (
        c,
        rw (ra, rb) rc,
        (
          oc _ (ne "delivery_discrepancy" "delivery_declaration_pending" refl)
              ∙ ob _ (ne "delivery_discrepancy" "delivery_undeclared" refl)
              ∙ ca,
          oc _ (ne "delivery_undeclared" "delivery_declaration_pending" refl) ∙ cb,
          cc',
        ),
        (λ k x y z. oc k z ∙ ob k y ∙ oa k x),
        dc,
      )

-- The alerts after a verdict: a match closes those of the delivery, a discrepancy has one open and
-- changes no other, a pending verdict changes none.
abbrev pub AlertsAgree : ℕ → ℕ → Verdict → List Alert → List Alert → Type 0
AlertsAgree station_id tank_id v before after =
    (v.status ≡ "matched" → DeliveryClosed station_id tank_id after)
    × (v.status ≡ "discrepancy"
        → (length (open_alerts (delivery_key station_id tank_id "delivery_discrepancy") after) ≡ 1)
          × OthersKept (delivery_key station_id tank_id "delivery_discrepancy") before after)
    × (v.status ≡ "pending" → after ≡ before)
    × DeliveryOthersKept station_id tank_id before after
    × IsDeduplicated after

alerts_of_verdict_lem :
    (db : ReconciliationDb) (declaration : DeliveryDeclaration) (line : DeliveryDeclarationLine)
    (tank : Tank) (v : Verdict) (now : ℕ) (fresh_alert : String → ℕ)
    → get_tank_row db.tanks line.tank_id ≡ ok tank
    → tank.id ≡ line.tank_id
    → tank.station_id ≡ declaration.station_id
    → IsDeduplicated db.alerts
    → (after : List Alert) × (alerts_of_verdict db declaration line v now fresh_alert ≡ ok after)
      × AlertsAgree declaration.station_id line.tank_id v db.alerts after
unfolding alerts_of_verdict is_alert_type any
alerts_of_verdict_lem db declaration line tank v now fresh_alert found same at h =
    elim (Bool-cases (v.status == "discrepancy")) [
      | inl e ↦
          let (o, after, runs, one, others, dedup) =
            create_alert_if_not_already_active_lem db.tanks line.tank_id tank db.alerts
              "delivery_discrepancy"
              (record {
                triggered_at = declaration.event_at;
                triggered_value = signed v.discrepancy_value;
                threshold_value = signed v.tolerance_applied;
              })
              fresh_alert found refl h in
          let same_key : tank_key tank "delivery_discrepancy"
              ≡ delivery_key declaration.station_id line.tank_id "delivery_discrepancy" =
            rw (at, same) refl in
          (
            after,
            rw (e, runs) refl,
            (
              (λ m. absurd (
                  ne_sound "matched" "discrepancy" refl
                    (sym m ∙ beq_sound v.status "discrepancy" e))),
              (λ _.
                  subst
                    (λ (k : AlertKey).
                      (length (open_alerts k after) ≡ 1) × OthersKept k db.alerts after)
                    same_key (one, others)),
              (λ p. absurd (
                  ne_sound "pending" "discrepancy" refl
                    (sym p ∙ beq_sound v.status "discrepancy" e))),
              (λ k x y z. others k (λ q. x (q ∙ same_key))),
              dedup,
            ),
          )
      | inr e ↦ elim (Bool-cases (v.status == "matched")) [
        | inl f ↦
            let (after, runs, closed, others, dedup) =
              close_delivery_alerts_lem declaration.station_id line.tank_id db.alerts now h in
            (
              after,
              rw (e, f) runs,
              (
                (λ _. closed),
                (λ d. cc (e, beq_true v.status "discrepancy" d)),
                (λ p.
                    absurd
                      (ne_sound "pending" "matched" refl (sym p ∙ beq_sound v.status "matched" f))),
                others,
                dedup,
              ),
            )
        | inr f ↦ (
          db.alerts,
          rw (e, f) refl,
          (
            (λ m. cc (f, beq_true v.status "matched" m)),
            (λ d. cc (e, beq_true v.status "discrepancy" d)),
            (λ _. refl),
            (λ k x y z. refl),
            h,
          ),
        )
      ]
    ]

-- The row that a tank's id finds has that id.
get_tank_row-id :
    (tanks : List Tank) (i : ℕ) (tank : Tank) → get_tank_row tanks i ≡ ok tank → tank.id ≡ i
unfolding get_tank_row
get_tank_row-id tanks i tank h = beq_sound tank.id i (
    find-some (λ (t : Tank). t.id == i) tanks tank
      (or_raise-eq-ok (find (λ (t : Tank). t.id == i) tanks) no_result_found h))

settle_lem :
    (db : ReconciliationDb) (declaration : DeliveryDeclaration) (line : DeliveryDeclarationLine)
    (tank : Tank) (v : Verdict) (by_user : Option ℕ) (now fresh : ℕ) (fresh_alert : String → ℕ)
    → get_tank_row db.tanks line.tank_id ≡ ok tank
    → tank.station_id ≡ declaration.station_id
    → IsDeduplicated db.alerts
    → (after : List Alert) × (settle db declaration line v by_user now fresh fresh_alert
        ≡ ok (
          new_record line v by_user now fresh,
          record db {
            records = db.records ++ new_record line v by_user now fresh ∷ [];
            lines = map (point_to line.id fresh) db.lines;
            alerts = after;
          },
        ))
      × AlertsAgree declaration.station_id line.tank_id v db.alerts after
unfolding settle
settle_lem db declaration line tank v by_user now fresh fresh_alert found at h =
    let (after, runs, agree) =
      alerts_of_verdict_lem db declaration line tank v now fresh_alert found
        (get_tank_row-id db.tanks line.tank_id tank found) at h in
    (after, rw runs refl, agree)

abbrev verdict_of :
    Option StationReconciliationSettings
    → DeliveryDeclarationLine
    → Option DeliveryDetected
    → Verdict
verdict_of settings line o = elim o [ none ↦ pending | some d ↦ compare_volumes settings line d ]

verdict_of-IsVerdict :
    (settings : Option StationReconciliationSettings) (line : DeliveryDeclarationLine)
    (o : Option DeliveryDetected)
    → IsVerdict settings line o (verdict_of settings line o)
verdict_of-IsVerdict settings line none = (refl, refl)
verdict_of-IsVerdict settings line (some d) = compare_volumes-IsVerdict settings line d

-- The automatic reconciliation of a line whose tank is one of its station, on a table of alerts
-- with no repetition, succeeds. It compares the line with the eligible detection that is nearest
-- in time, if there is one, and its record has the status of that comparison; the line points to
-- the record. A match closes the three alerts of the delivery; a discrepancy leaves one open alert
-- of its own and those of every other key as they were; without a detection to compare, the verdict
-- is pending and no alert changes at all.
pub evaluate_delivery_declaration_line_reconciliation_core_lem :
    (db : ReconciliationDb) (now : ℕ) (declaration : DeliveryDeclaration)
    (line : DeliveryDeclarationLine) (tank : Tank) (settings : Option StationReconciliationSettings)
    (fresh : ℕ) (fresh_alert : String → ℕ)
    → get_reconciliation_settings db declaration.station_id ≡ ok settings
    → get_tank_row db.tanks line.tank_id ≡ ok tank
    → tank.station_id ≡ declaration.station_id
    → IsDeduplicated db.alerts
    → (best : Option DeliveryDetected) × (v : Verdict) × (after : List Alert)
      × (evaluate_delivery_declaration_line_reconciliation_core db now declaration line fresh
            fresh_alert
          ≡ ok (
            new_record line v none now fresh,
            record db {
              records = db.records ++ new_record line v none now fresh ∷ [];
              lines = map (point_to line.id fresh) db.lines;
              alerts = after;
            },
          ))
      × IsNearestEligible db declaration line (window_of settings) best
      × IsVerdict settings line best v
      × AlertsAgree declaration.station_id line.tank_id v db.alerts after
unfolding evaluate_delivery_declaration_line_reconciliation_core
evaluate_delivery_declaration_line_reconciliation_core_lem db now declaration line tank settings
      fresh fresh_alert has_settings found at h =
    let best = best_candidate db declaration line (window_of settings) in
    let v = verdict_of settings line best in
    let (after, runs, agree) =
      settle_lem db declaration line tank v none now fresh fresh_alert found at h in
    (
      best,
      v,
      after,
      rw has_settings runs,
      best_candidate-IsNearestEligible db declaration line (window_of settings),
      verdict_of-IsVerdict settings line best,
      agree,
    )

-- ===== src/Monitoring/Thresholds.antt =====
-- The loop over the thresholds of a tank (`run_alert_evaluation_for_tank`).
use zylo_office_backend.Prelude.{
  All, ℕ, String, true, false, ◌≡◌, ◌≢◌, refl, ap, sym, ◌∙◌, inl, inr, Bool-cases, Option, none,
  some, List, [], ◌∷◌, ◌++◌, ◌==◌, string_eq, nat_eq, any, ok, In, length,
}
use zylo_office_backend.Alerts.Tables.{Alert, AlertKey, Reading}
use zylo_office_backend.Alerts.Deduplication.{
  open_alerts, IsDeduplicated, OthersKept, upsert_active_alert_lem, auto_resolve_alert_lem,
}
use zylo_office_backend.Prelude.Int.{pos}
use zylo_office_backend.Alerts.{is_alert_type, is_allowed}
use zylo_office_backend.Monitoring.{
  Tank, get_tank_row, tank_key, create_alert_if_not_already_active, Threshold, appended,
  evaluate_type, evaluate_types,
}

-- A call for a tank that is in the table is one of `upsert_active_alert`.
pub create_alert_if_not_already_active_lem :
    (tanks : List Tank) (tank_id : ℕ) (tank : Tank) (alerts : List Alert) (alert_type : String)
    (r : Reading) (fresh : String → ℕ)
    → get_tank_row tanks tank_id ≡ ok tank
    → is_alert_type alert_type ≡ true
    → IsDeduplicated alerts
    → (o : Option Alert) × (alerts' : List Alert) × (create_alert_if_not_already_active tanks alerts
          tank_id alert_type r fresh
        ≡ ok (o, alerts'))
      × (length (open_alerts (tank_key tank alert_type) alerts') ≡ 1)
      × OthersKept (tank_key tank alert_type) alerts alerts'
      × IsDeduplicated alerts'
unfolding create_alert_if_not_already_active is_allowed
create_alert_if_not_already_active_lem tanks tank_id tank alerts alert_type r fresh found known h =
    let (o, alerts', runs, one, others, dedup) =
      upsert_active_alert_lem alerts (tank_key tank alert_type) r none none (fresh alert_type) h
        known in
    (o, alerts', rw found runs, one, others, dedup)

module _ (tanks : List Tank) (tank : Tank) (now : ℕ) (fresh : String → ℕ)
    (triggered_types : List String) (found : get_tank_row tanks tank.id ≡ ok tank) where
  abbrev key : Threshold → AlertKey
  key t = tank_key tank t.alert_type

  -- One open alert where the type is triggered, none where it is not.
  abbrev pub IsEvaluated : String → List Alert → Type 0
  IsEvaluated alert_type alerts =
      (any (λ (s : String). s == alert_type) triggered_types ≡ true
        → length (open_alerts (tank_key tank alert_type) alerts) ≡ 1)
      × (any (λ (s : String). s == alert_type) triggered_types ≡ false
          → open_alerts (tank_key tank alert_type) alerts ≡ [])

  evaluate_type_lem :
      (t : Threshold) (alerts : List Alert)
      → is_alert_type t.alert_type ≡ true
      → IsDeduplicated alerts
      → (made : List Alert) × (alerts' : List Alert) × (evaluate_type tanks tank now fresh
            triggered_types t alerts
          ≡ ok (made, alerts'))
        × IsEvaluated t.alert_type alerts'
        × OthersKept (key t) alerts alerts'
        × IsDeduplicated alerts'
  unfolding evaluate_type
  evaluate_type_lem t alerts known h =
      elim (Bool-cases (any (λ (s : String). s == t.alert_type) triggered_types)) [
        | inl e ↦
            let (o, alerts', runs, one, others, dedup) =
              create_alert_if_not_already_active_lem tanks tank.id tank alerts t.alert_type
                (record {
                  triggered_at = now;
                  triggered_value = t.value;
                  threshold_value = some (pos t.threshold);
                })
                fresh found known h in
            (appended o, alerts', rw (e, runs) refl, ((λ _. one), (λ f. cc (e, f))), others, dedup)
        | inr e ↦
            let (alerts', runs, closed, others, dedup) =
              auto_resolve_alert_lem alerts (key t) now h in
            ([], alerts', rw (e, runs) refl, ((λ f. cc (e, f)), (λ _. closed)), others, dedup)
      ]

  abbrev pub Distinct : List Threshold → Type 0
  Distinct [] = Unit
  Distinct (t ∷ ts) = ((s : Threshold) → In s ts → s.alert_type ≢ t.alert_type) × Distinct ts

  -- A state of the alerts of one type that depends on its open alerts alone.
  IsEvaluated-kept :
      (alert_type : String) (before after : List Alert)
      → open_alerts (tank_key tank alert_type) after ≡ open_alerts (tank_key tank alert_type) before
      → IsEvaluated alert_type before
      → IsEvaluated alert_type after
  IsEvaluated-kept alert_type before after same (hit, miss) =
      ((λ e. ap length same ∙ hit e), (λ e. same ∙ miss e))

  -- The loop opens and closes what it should, and touches no other alert.
  pub evaluate_types_lem :
      (ts : List Threshold) (alerts : List Alert)
      → Distinct ts
      → All (λ t. is_alert_type t.alert_type ≡ true) ts
      → IsDeduplicated alerts
      → (made : List Alert) × (alerts' : List Alert) × (evaluate_types tanks tank now fresh
            triggered_types ts alerts
          ≡ ok (made, alerts'))
        × ((t : Threshold) → In t ts → IsEvaluated t.alert_type alerts')
        × ((k : AlertKey)
            → ((t : Threshold) → In t ts → k ≢ key t)
            → open_alerts k alerts' ≡ open_alerts k alerts)
        × IsDeduplicated alerts'
  unfolding evaluate_types
  evaluate_types_lem [] alerts d known h = ([], alerts, refl, (λ t m. absurd m), (λ k out. refl), h)
  evaluate_types_lem (t ∷ ts) alerts d known h =
      let (first, mid, runs, here_ok, others, dedup) = evaluate_type_lem t alerts known.0 h in
      let (rest, last, runs', rest_ok, others', dedup') =
        evaluate_types_lem ts mid d.1 known.1 dedup in
      let kept = others' (key t) (λ s m e. d.0 s m (sym (ap (λ (x : AlertKey). x.alert_type) e))) in
      (
        first ++ rest,
        last,
        rw (runs, runs') refl,
        (λ s m. elim m [
          | inl e ↦ rw e (IsEvaluated-kept t.alert_type mid last kept here_ok)
          | inr k ↦ rest_ok s k
        ]),
        (λ k out. others' k (λ s m. out s (inr m)) ∙ others k (out t (inl refl))),
        dedup',
      )

-- ===== src/Alerts/Reachable.antt =====
-- The alert table along sequences of operations (app/alerts/service.py).
use zylo_office_backend.Prelude.{
  ℕ, String, ◌≤◌, ◌≡◌, ◌≢◌, refl, ap, sym, subst, ◌∙◌, ◌⊎◌, inl, inr, Bool-cases, true, false,
  Option, none, some, List, [], ◌∷◌, ◌++◌, ◌==◌, string_eq, In, in-append, All, All-append, select,
  find, length, Result, ok, or_raise, arith, beq_sound, and-true, not-true, >>=-eq-ok,
  guard->>-eq-ok, or_raise-eq-ok, ok-pair, ok-injective, alert_not_found, integrity_error, guard,
  ◌>>◌,
}
use zylo_office_backend.Alerts.Tables.{Alert, AlertKey, AlertDb, Reading, key_eq}
use zylo_office_backend.Alerts.{
  is_open_with, find_open_alert, update_first, retrigger, new_alert, upsert_active_alert,
  auto_verified, auto_resolve_alert, is_alert_of, get_alert, acknowledged, acknowledge_alert,
  resolved_manually, resolve_alert, is_auto_verifiable, is_allowed,
}
use zylo_office_backend.Alerts.Rows.{
  All-update_first, All-update_found, length-select-update_found, in-update_first_kept,
  in-update_found_kept,
}
use zylo_office_backend.Alerts.Deduplication.{
  IsDeduplicated, upsert_active_alert_result, auto_resolve_alert_lem,
}
use zylo_office_backend.Alerts.Lifecycle.{
  IsSound, differ, new_alert-IsSound, retrigger-IsSound, open_unresolved, auto_verified-IsSound,
  acknowledged-IsSound, resolved_manually-IsSound, Step, detect, clear, acknowledge, resolve, Reach,
  here, next, IsConsistent,
}

-- What an acknowledgement that succeeds has done.
acknowledge_alert_lem :
    (db : AlertDb) (now org actor i : ℕ) (db' : AlertDb)
    → acknowledge_alert db now org actor i ≡ ok db'
    → (a : Alert) × (find (is_alert_of db org i) db.alerts ≡ some a)
      × (a.status ≡ "active")
      × (db'.alerts ≡ update_first (is_alert_of db org i) (acknowledged now actor) db.alerts)
unfolding acknowledge_alert get_alert
acknowledge_alert_lem db now org actor i db' h =
    let (a, found, h1) =
      >>=-eq-ok (or_raise (find (is_alert_of db org i) db.alerts) alert_not_found) _ h in
    let (active, done) = guard->>-eq-ok _ _ _ h1 in
    (
      a,
      or_raise-eq-ok _ alert_not_found found,
      beq_sound a.status "active" active,
      ap (λ (d : AlertDb). d.alerts) (sym (ok-injective _ db' done)),
    )

-- What a manual resolution that succeeds has done, and what it needs.
pub resolve_alert_lem :
    (db : AlertDb) (now org actor i : ℕ) (reason : String) (db' : AlertDb)
    → resolve_alert db now org actor i reason ≡ ok db'
    → (a : Alert) × (find (is_alert_of db org i) db.alerts ≡ some a)
      × (a.status ≢ "resolved")
      × (is_auto_verifiable a.key.alert_type ≡ false)
      × (reason ≢ "")
      × (db'.alerts
          ≡ update_first (is_alert_of db org i) (resolved_manually now actor reason) db.alerts)
unfolding resolve_alert get_alert
resolve_alert_lem db now org actor i reason db' h =
    let (a, found, h1) =
      >>=-eq-ok (or_raise (find (is_alert_of db org i) db.alerts) alert_not_found) _ h in
    let (unresolved, h2) = guard->>-eq-ok _ _ _ h1 in
    let (manual, h3) = guard->>-eq-ok _ _ _ h2 in
    let (given, done) = guard->>-eq-ok _ _ _ h3 in
    (
      a,
      or_raise-eq-ok _ alert_not_found found,
      differ a.status "resolved" (not-true (a.status == "resolved") unresolved),
      not-true (is_auto_verifiable a.key.alert_type) manual,
      differ reason "" (not-true (reason == "") given),
      ap (λ (d : AlertDb). d.alerts) (sym (ok-injective _ db' done)),
    )

-- A detection that opened an alert met the constraints.
upsert-is_allowed :
    (alerts : List Alert) (key : AlertKey) (r : Reading) (st : Option String) (si : Option ℕ)
    (fresh : ℕ) (o : Option Alert) (alerts' : List Alert)
    → upsert_active_alert alerts key r st si fresh ≡ ok (o, alerts')
    → find_open_alert alerts key ≡ ok none
    → is_allowed key ≡ true
unfolding upsert_active_alert
upsert-is_allowed alerts key r st si fresh o alerts' h found =
    (guard->>-eq-ok (is_allowed key) integrity_error
      (ok (some (new_alert key r st si fresh), alerts ++ new_alert key r st si fresh ∷ []))
      (rw found at h)).0

upsert_rows :
    (alerts : List Alert) (key : AlertKey) (r : Reading) (st : Option String) (si : Option ℕ)
    (fresh : ℕ) (o : Option Alert) (alerts' : List Alert)
    → upsert_active_alert alerts key r st si fresh ≡ ok (o, alerts')
    → (alerts' ≡ alerts ++ new_alert key r st si fresh ∷ [])
      ⊎ (alerts' ≡ update_first (is_open_with key) (retrigger r) alerts)
unfolding upsert_active_alert
upsert_rows alerts key r st si fresh o alerts' h =
    let (existing, found, done) = >>=-eq-ok (find_open_alert alerts key) _ h in
    by_existing existing done
  where
    by_existing :
        (e : Option Alert)
        → ◌≡◌ {A = Result (Option Alert × List Alert)}
            (elim e [
              | some _ ↦ ok (none, update_first (is_open_with key) (retrigger r) alerts)
              | none ↦
                  guard (is_allowed key) integrity_error
                  >> ok (
                    some (new_alert key r st si fresh),
                    alerts ++ new_alert key r st si fresh ∷ [],
                  )
            ])
            (ok (o, alerts'))
        → (alerts' ≡ alerts ++ new_alert key r st si fresh ∷ [])
          ⊎ (alerts' ≡ update_first (is_open_with key) (retrigger r) alerts)
    by_existing none e =
        inl (sym (ok-pair _ o _ alerts' (guard->>-eq-ok (is_allowed key) integrity_error _ e).1).1)
    by_existing (some x) e = inr (sym (ok-pair _ o _ alerts' e).1)

auto_resolve_rows :
    (alerts : List Alert) (key : AlertKey) (t : ℕ) (alerts' : List Alert)
    → auto_resolve_alert alerts key t ≡ ok alerts'
    → (alerts' ≡ alerts) ⊎ (alerts' ≡ update_first (is_open_with key) (auto_verified t) alerts)
unfolding auto_resolve_alert
auto_resolve_rows alerts key t alerts' h =
    let (existing, found, done) = >>=-eq-ok (find_open_alert alerts key) _ h in
    by_existing existing done
  where
    by_existing :
        (e : Option Alert)
        → ◌≡◌ {A = Result (List Alert)}
            (ok (elim e [
              | none ↦ alerts
              | some _ ↦ update_first (is_open_with key) (auto_verified t) alerts
            ]))
            (ok alerts')
        → (alerts' ≡ alerts) ⊎ (alerts' ≡ update_first (is_open_with key) (auto_verified t) alerts)
    by_existing none e = inl (sym (ok-injective _ alerts' e))
    by_existing (some x) e = inr (sym (ok-injective _ alerts' e))

acknowledged-open :
    (k : AlertKey) (now actor : ℕ) (a : Alert)
    → a.status ≡ "active"
    → is_open_with k (acknowledged now actor a) ≡ true
    → is_open_with k a ≡ true
unfolding is_open_with
acknowledged-open k now actor a active h = rw active h

resolved-open :
    (k : AlertKey) (now actor : ℕ) (reason : String) (a : Alert)
    → is_open_with k (resolved_manually now actor reason a) ≡ true
    → is_open_with k a ≡ true
unfolding is_open_with
resolved-open k now actor reason a h = cc ((and-true (a.key == k) false h).1)

Step-IsConsistent : {b c : AlertDb} → Step b c → IsConsistent b → IsConsistent c
Step-IsConsistent (detect db key r st si fresh o alerts' e) h =
    let (o', alerts'', e', one, others, dedup) =
      upsert_active_alert_result db.alerts key r st si fresh h.deduplicated
        (upsert-is_allowed db.alerts key r st si fresh o alerts' e) in
    let same = (ok-pair o' o alerts'' alerts' (sym e' ∙ e)).1 in
    record {
      sound = elim (upsert_rows db.alerts key r st si fresh o alerts' e) [
        | inl q ↦
            subst (All IsSound) (sym q)
              (All-append IsSound db.alerts _ h.sound (new_alert-IsSound key r st si fresh, tt))
        | inr q ↦ subst (All IsSound) (sym q) (
            All-update_first (is_open_with key) (retrigger r) IsSound (λ a _. retrigger-IsSound r a)
              db.alerts h.sound)
      ];
      deduplicated = subst IsDeduplicated same dedup;
    }
Step-IsConsistent (clear db key t alerts' e) h =
    let (alerts'', e', closed, others, dedup) =
      auto_resolve_alert_lem db.alerts key t h.deduplicated in
    record {
      sound = elim (auto_resolve_rows db.alerts key t alerts' e) [
        | inl q ↦ subst (All IsSound) (sym q) h.sound
        | inr q ↦ subst (All IsSound) (sym q) (
            All-update_first (is_open_with key) (auto_verified t) IsSound
              (λ a hit. auto_verified-IsSound t a (open_unresolved key a hit)) db.alerts h.sound)
      ];
      deduplicated = subst IsDeduplicated (ok-injective alerts'' alerts' (sym e' ∙ e)) dedup;
    }
Step-IsConsistent (acknowledge db now org actor i db' e) h =
    let (a, found, active, rows) = acknowledge_alert_lem db now org actor i db' e in
    record {
      sound = subst (All IsSound) (sym rows) (
          All-update_found (is_alert_of db org i) (acknowledged now actor) IsSound a db.alerts found
            (acknowledged-IsSound now actor a active) h.sound);
      deduplicated = λ k.
          subst (λ (l : List Alert). length (select (is_open_with k) l) ≤ 1) (sym rows)
            (omega (
              arith,
              length-select-update_found (is_alert_of db org i) (acknowledged now actor)
                  (is_open_with k) a db.alerts found (acknowledged-open k now actor a active),
              h.deduplicated k,
            ));
    }
Step-IsConsistent (resolve db now org actor i reason db' e) h =
    let (a, found, unresolved, manual, given, rows) =
      resolve_alert_lem db now org actor i reason db' e in
    record {
      sound = subst (All IsSound) (sym rows) (
          All-update_found (is_alert_of db org i) (resolved_manually now actor reason) IsSound a
            db.alerts found (resolved_manually-IsSound now actor reason a manual given) h.sound);
      deduplicated = λ k.
          subst (λ (l : List Alert). length (select (is_open_with k) l) ≤ 1) (sym rows)
            (omega (
              arith,
              length-select-update_found (is_alert_of db org i) (resolved_manually now actor reason)
                  (is_open_with k) a db.alerts found (resolved-open k now actor reason a),
              h.deduplicated k,
            ));
    }

-- Along every sequence of operations: at most one alert of a key is open; an alert whose condition
-- the system can check is closed by the system alone; one that a user closed has a reason.
pub Reach-IsConsistent : {a b : AlertDb} → Reach a b → IsConsistent a → IsConsistent b
Reach-IsConsistent here h = h
Reach-IsConsistent (next r s) h = Step-IsConsistent s (Reach-IsConsistent r h)

open_row_differs : (key : AlertKey) (x : Alert) → x.status ≡ "resolved" → is_open_with key x ≡ false
open_row_differs key x closed = elim (Bool-cases (is_open_with key x)) [
  | inl hit ↦ absurd (open_unresolved key x hit closed)
  | inr miss ↦ miss
]

Step-keeps_resolved :
    {b c : AlertDb} → Step b c → (x : Alert) → In x b.alerts → x.status ≡ "resolved" → In x c.alerts
Step-keeps_resolved (detect db key r st si fresh o alerts' e) x m closed =
    elim (upsert_rows db.alerts key r st si fresh o alerts' e) [
      | inl q ↦ subst (In x) (sym q) ((in-append x db.alerts _).1 (inl m))
      | inr q ↦ subst (In x) (sym q) (
          in-update_first_kept (is_open_with key) (retrigger r) x db.alerts
            (open_row_differs key x closed) m)
    ]
Step-keeps_resolved (clear db key t alerts' e) x m closed =
    elim (auto_resolve_rows db.alerts key t alerts' e) [
      | inl q ↦ subst (In x) (sym q) m
      | inr q ↦ subst (In x) (sym q) (
          in-update_first_kept (is_open_with key) (auto_verified t) x db.alerts
            (open_row_differs key x closed) m)
    ]
Step-keeps_resolved (acknowledge db now org actor i db' e) x m closed =
    let (a, found, active, rows) = acknowledge_alert_lem db now org actor i db' e in
    subst (In x) (sym rows) (
      in-update_found_kept (is_alert_of db org i) (acknowledged now actor) a x db.alerts found
        (λ q.
          differ "active" "resolved" refl
            (sym active ∙ ap (λ (y : Alert). y.status) (sym q) ∙ closed))
        m)
Step-keeps_resolved (resolve db now org actor i reason db' e) x m closed =
    let (a, found, unresolved, manual, given, rows) =
      resolve_alert_lem db now org actor i reason db' e in
    subst (In x) (sym rows) (
      in-update_found_kept (is_alert_of db org i) (resolved_manually now actor reason) a x db.alerts
        found (λ q. unresolved (ap (λ (y : Alert). y.status) (sym q) ∙ closed)) m)

-- Along every sequence of operations a resolved alert stays in the table as it is: none is
-- reopened, rewritten or lost.
pub Reach-keeps_resolved :
    {a b : AlertDb}
    → Reach a b
    → (x : Alert) → In x a.alerts
    → x.status ≡ "resolved"
    → In x b.alerts
Reach-keeps_resolved here x m closed = m
Reach-keeps_resolved (next r s) x m closed =
    Step-keeps_resolved s x (Reach-keeps_resolved r x m closed) closed

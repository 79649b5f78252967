-- ===== src/Alerts/Deduplication.antt =====
-- `upsert_active_alert` and `auto_resolve_alert` on tables with one open alert of a key at most
-- (app/alerts/service.py).
use mathlib.Core.List.{append-nil}
use zylo_office_backend.Prelude.{
  Bool-cases, ℕ, String, ◌≤◌, ◌≡◌, ◌≢◌, refl, ap, sym, subst, ◌∙◌, ◌⊎◌, inl, inr, Bool, true, false,
  Option, none, some, List, [], ◌∷◌, ◌++◌, ◌==◌, string_eq, select, select-append, length,
  scalar_one_or_none, ok, arith, beq_true, beq_sound, ne_false, and-true,
}
use zylo_office_backend.Alerts.Tables.{Alert, AlertKey, Reading, key_eq}
use zylo_office_backend.Alerts.{
  is_open_with, find_open_alert, update_first, retrigger, new_alert, upsert_active_alert,
  auto_verified, auto_resolve_alert, is_allowed,
}
use zylo_office_backend.Alerts.Rows.{
  select-update_first_only, select-update_first_other, length-select-update_same,
}

abbrev pub open_alerts : AlertKey → List Alert → List Alert
open_alerts key = select (is_open_with key)

abbrev pub IsDeduplicated : List Alert → Type 0
IsDeduplicated alerts = (key : AlertKey) → length (open_alerts key alerts) ≤ 1

scalar_total :
    (l : List Alert)
    → length l ≤ 1
    → ((l ≡ []) × (scalar_one_or_none l ≡ ok none))
      ⊎ ((x : Alert) × (l ≡ x ∷ []) × (scalar_one_or_none l ≡ ok (some x)))
unfolding scalar_one_or_none
scalar_total [] h = inl (refl, refl)
scalar_total (x ∷ []) h = inr (x, refl, refl)
scalar_total (x ∷ y ∷ l) h = absurd (omega arith)

other_key :
    (key k : AlertKey) (a : Alert) → k ≢ key → is_open_with key a ≡ true → is_open_with k a ≡ false
unfolding is_open_with
other_key key k a ne h =
    let same : a.key ≡ key = beq_sound a.key key (and-true (a.key == key) _ h).0 in
    rw (ne_false a.key k (λ e. ne (sym e ∙ same)))

new_alert_open :
    (key : AlertKey) (r : Reading) (st : Option String) (si : Option ℕ) (fresh : ℕ)
    → is_open_with key (new_alert key r st si fresh) ≡ true
unfolding is_open_with
new_alert_open key r st si fresh = rw (beq_true key key refl)

new_alert_other :
    (key k : AlertKey) (r : Reading) (st : Option String) (si : Option ℕ) (fresh : ℕ)
    → k ≢ key
    → is_open_with k (new_alert key r st si fresh) ≡ false
unfolding is_open_with
new_alert_other key k r st si fresh ne = rw (ne_false key k (λ e. ne (sym e)))

select-single :
    (q : Alert → Bool) (alerts : List Alert) (a : Alert)
    → q a ≡ true
    → select q (alerts ++ a ∷ []) ≡ select q alerts ++ a ∷ []
unfolding select
select-single q alerts a h =
    select-append q alerts (a ∷ []) ∙ ap (λ (l : List Alert). select q alerts ++ l) (rw h)

select-none :
    (q : Alert → Bool) (alerts : List Alert) (a : Alert)
    → q a ≡ false
    → select q (alerts ++ a ∷ []) ≡ select q alerts
unfolding select
select-none q alerts a h =
    select-append q alerts (a ∷ [])
    ∙ ap (λ (l : List Alert). select q alerts ++ l) (rw h)
    ∙ append-nil (select q alerts)

-- The state after an operation on `key`: the open alerts of every other key are as they were.
abbrev pub OthersKept : AlertKey → List Alert → List Alert → Type 0
OthersKept key before after = (k : AlertKey) → k ≢ key → open_alerts k after ≡ open_alerts k before

keeps-IsDeduplicated :
    (key : AlertKey) (before after : List Alert)
    → IsDeduplicated before
    → length (open_alerts key after) ≤ 1
    → OthersKept key before after
    → ((k : AlertKey) → (k ≡ key) ⊎ (k ≢ key))
    → IsDeduplicated after
keeps-IsDeduplicated key before after h one others cases k = elim (cases k) [
  | inl e ↦ subst (λ (x : AlertKey). length (open_alerts x after) ≤ 1) (sym e) one
  | inr ne ↦ rw (others k ne) (h k)
]

key-cases : (key k : AlertKey) → (k ≡ key) ⊎ (k ≢ key)
key-cases key k = elim (Bool-cases (k == key)) [
  | inl e ↦ inl (beq_sound k key e)
  | inr f ↦ inr (λ e. cc (f, beq_true k key e))
]

retrigger-open :
    (key : AlertKey) (r : Reading) (a : Alert)
    → is_open_with key (retrigger r a) ≡ is_open_with key a
unfolding is_open_with
retrigger-open key r a = refl

auto_verified-closed :
    (key : AlertKey) (t : ℕ) (a : Alert) → is_open_with key (auto_verified t a) ≡ false
unfolding is_open_with
auto_verified-closed key t a = ground arith

-- A detection whose row the constraints accept, if it needs a new one.
pub upsert_active_alert_result :
    (alerts : List Alert) (key : AlertKey) (r : Reading) (source_type : Option String)
    (source_id : Option ℕ) (fresh : ℕ)
    → IsDeduplicated alerts
    → (find_open_alert alerts key ≡ ok none → is_allowed key ≡ true)
    → (o : Option Alert) × (alerts' : List Alert) × (upsert_active_alert alerts key r source_type
          source_id fresh
        ≡ ok (o, alerts'))
      × (length (open_alerts key alerts') ≡ 1)
      × OthersKept key alerts alerts'
      × IsDeduplicated alerts'
unfolding upsert_active_alert find_open_alert
upsert_active_alert_result alerts key r st si fresh h allowed =
    elim (scalar_total (open_alerts key alerts) (h key)) [
      | inl (empty, found) ↦
          let a = new_alert key r st si fresh in
          let one : length (open_alerts key (alerts ++ a ∷ [])) ≡ 1 = ap length (
            select-single (is_open_with key) alerts a (new_alert_open key r st si fresh)
            ∙ ap (λ (l : List Alert). l ++ a ∷ []) empty) in
          let others : OthersKept key alerts (alerts ++ a ∷ []) = λ k ne.
            select-none (is_open_with k) alerts a (new_alert_other key k r st si fresh ne) in
          (
            some a,
            alerts ++ a ∷ [],
            rw (found, allowed found) refl,
            one,
            others,
            keeps-IsDeduplicated key alerts (alerts ++ a ∷ []) h (omega (arith, one)) others
                (key-cases key),
          )
      | inr (x, single, found) ↦
          let alerts' = update_first (is_open_with key) (retrigger r) alerts in
          let one : length (open_alerts key alerts') ≡ 1 =
            length-select-update_same (is_open_with key) (retrigger r) (is_open_with key)
              (λ a. retrigger-open key r a) alerts
            ∙ ap length single in
          let others : OthersKept key alerts alerts' = λ k ne.
            select-update_first_other (is_open_with key) (retrigger r) (is_open_with k)
              (λ a hit. (other_key key k a ne hit, retrigger-open k r a ∙ other_key key k a ne hit))
              alerts in
          (
            none,
            alerts',
            rw found,
            one,
            others,
            keeps-IsDeduplicated key alerts alerts' h (omega (arith, one)) others (key-cases key),
          )
    ]

-- On a table with no repetition, a detection whose type is one of the table's and that names a
-- station, a truck or a vessel succeeds; after it exactly one alert of the key is open, those of
-- every other key are as they were, and there is still no repetition.
pub upsert_active_alert_lem :
    (alerts : List Alert) (key : AlertKey) (r : Reading) (source_type : Option String)
    (source_id : Option ℕ) (fresh : ℕ)
    → IsDeduplicated alerts
    → is_allowed key ≡ true
    → (o : Option Alert) × (alerts' : List Alert) × (upsert_active_alert alerts key r source_type
          source_id fresh
        ≡ ok (o, alerts'))
      × (length (open_alerts key alerts') ≡ 1)
      × OthersKept key alerts alerts'
      × IsDeduplicated alerts'
upsert_active_alert_lem alerts key r st si fresh h allowed =
    upsert_active_alert_result alerts key r st si fresh h (λ _. allowed)

-- On a table with no repetition an automatic resolution always succeeds; after it no alert of the key is open,
-- those of every other key are as they were, and there is still no repetition.
pub auto_resolve_alert_lem :
    (alerts : List Alert) (key : AlertKey) (resolved_at : ℕ)
    → IsDeduplicated alerts
    → (alerts' : List Alert) × (auto_resolve_alert alerts key resolved_at ≡ ok alerts')
      × (open_alerts key alerts' ≡ [])
      × OthersKept key alerts alerts'
      × IsDeduplicated alerts'
unfolding auto_resolve_alert find_open_alert
auto_resolve_alert_lem alerts key t h = elim (scalar_total (open_alerts key alerts) (h key)) [
  | inl (empty, found) ↦ (alerts, rw found, empty, (λ k ne. refl), h)
  | inr (x, single, found) ↦
      let alerts' = update_first (is_open_with key) (auto_verified t) alerts in
      let closed : open_alerts key alerts' ≡ [] =
        select-update_first_only (is_open_with key) (auto_verified t)
          (λ a. auto_verified-closed key t a) alerts (h key) in
      let others : OthersKept key alerts alerts' = λ k ne.
        select-update_first_other (is_open_with key) (auto_verified t) (is_open_with k)
          (λ a hit. (other_key key k a ne hit, auto_verified-closed k t a)) alerts in
      (
        alerts',
        rw found,
        closed,
        others,
        keeps-IsDeduplicated key alerts alerts' h (rw closed (omega arith)) others (key-cases key),
      )
]

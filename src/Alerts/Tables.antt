-- ===== src/Alerts/Tables.antt =====
-- The alert of app/alerts/models.py. What `_find_open_alert` compares is grouped as a key.
use zylo_office_backend.Prelude.{
  ℕ, String, ◌≡◌, ◌↔◌, Bool, true, ◌&&◌, Option, List, Eq, ◌==◌, string_eq, nat_eq, option_eq,
  and-true, and_intro, beq_true, beq_sound, ap,
}
use zylo_office_backend.Audit.{AuditLog}
use zylo_office_backend.Prelude.Int.{ℤ}

-- The scope and the type of an alert.
pub record AlertKey : Type 0 where
  pub station_id : Option ℕ
  pub truck_id : Option ℕ
  pub vessel_id : Option ℕ
  pub tank_id : Option ℕ
  pub product_id : Option ℕ
  pub alert_type : String

abbrev key_beq : AlertKey → AlertKey → Bool
key_beq a b =
    a.station_id == b.station_id
    && (a.truck_id == b.truck_id
        && (a.vessel_id == b.vessel_id
            && (a.tank_id == b.tank_id
                && (a.product_id == b.product_id && a.alert_type == b.alert_type))))

pub key_beq_iff : (a b : AlertKey) → (key_beq a b ≡ true) ↔ (a ≡ b)
key_beq_iff a b = (
  (λ h.
      let (s, h1) = and-true (a.station_id == b.station_id) _ h in
      let (t, h2) = and-true (a.truck_id == b.truck_id) _ h1 in
      let (v, h3) = and-true (a.vessel_id == b.vessel_id) _ h2 in
      let (k, h4) = and-true (a.tank_id == b.tank_id) _ h3 in
      let (p, y) = and-true (a.product_id == b.product_id) _ h4 in
      λ i. record {
        station_id = beq_sound a.station_id b.station_id s i;
        truck_id = beq_sound a.truck_id b.truck_id t i;
        vessel_id = beq_sound a.vessel_id b.vessel_id v i;
        tank_id = beq_sound a.tank_id b.tank_id k i;
        product_id = beq_sound a.product_id b.product_id p i;
        alert_type = beq_sound a.alert_type b.alert_type y i;
      }),
  (λ e. and_intro _ _ (beq_true _ _ (ap (λ (x : AlertKey). x.station_id) e)) (
      and_intro _ _ (beq_true _ _ (ap (λ (x : AlertKey). x.truck_id) e)) (
        and_intro _ _ (beq_true _ _ (ap (λ (x : AlertKey). x.vessel_id) e)) (
          and_intro _ _ (beq_true _ _ (ap (λ (x : AlertKey). x.tank_id) e)) (
            and_intro _ _ (beq_true _ _ (ap (λ (x : AlertKey). x.product_id) e))
              (beq_true _ _ (ap (λ (x : AlertKey). x.alert_type) e))))))),
)

instance abbrev pub key_eq : Eq AlertKey
key_eq = record { beq = key_beq; beq_iff = key_beq_iff }

-- What a detection measured; a value counts in units of the column's last decimal.
pub record Reading : Type 0 where
  pub triggered_at : ℕ
  pub triggered_value : Option ℤ
  pub threshold_value : Option ℤ

pub record Alert : Type 0 where
  pub id : ℕ
  pub key : AlertKey
  pub severity : String
  pub status : String
  pub source_type : Option String
  pub source_id : Option ℕ
  pub triggered_at : ℕ
  pub triggered_value : Option ℤ
  pub threshold_value : Option ℤ
  pub acknowledged_at : Option ℕ
  pub acknowledged_by_user_id : Option ℕ
  pub resolved_at : Option ℕ
  pub resolved_by_user_id : Option ℕ
  pub resolution_method : Option String
  pub resolution_note : Option String

-- A station, a truck or a vessel, as far as an alert needs it.
pub record Owner : Type 0 where
  pub id : ℕ
  pub organization_id : ℕ

pub record AlertDb : Type 0 where
  pub alerts : List Alert
  pub stations : List Owner
  pub trucks : List Owner
  pub vessels : List Owner
  pub audit_logs : List AuditLog

-- ===== src/Reconciliation/Tables.antt =====
-- The tables that the reconciliation of deliveries reads and writes
-- (app/modules/zylo_liquid/models.py). Times count in seconds, volumes in ten-thousandths of a litre.
use zylo_office_backend.Prelude.{ℕ, String, Option, List}
use zylo_office_backend.Rbac.Tables.{Db}
use zylo_office_backend.Alerts.Tables.{Alert}
use zylo_office_backend.Commercial.Tables.{Station}
use zylo_office_backend.Monitoring.{Tank}

-- Hundredths of an hour, of a litre and of a percent.
pub record StationReconciliationSettings : Type 0 where
  pub station_id : ℕ
  pub delivery_window_hours : Option ℕ
  pub delivery_volume_tolerance_fixed_liters : Option ℕ
  pub delivery_volume_tolerance_percent : Option ℕ

pub record DeliveryDeclaration : Type 0 where
  pub id : ℕ
  pub station_id : ℕ
  pub event_at : ℕ

pub record DeliveryDeclarationLine : Type 0 where
  pub id : ℕ
  pub declaration_id : ℕ
  pub tank_id : ℕ
  pub volume_liters : ℕ
  pub corrects_line_id : Option ℕ
  pub reconciled_with_id : Option ℕ
  pub reconciled_with_type : Option String

pub record DeliveryDetected : Type 0 where
  pub id : ℕ
  pub tank_id : ℕ
  pub start_time : ℕ
  pub volume_liters : Option ℕ

-- The text of a counterpart's id is its number; a tolerance counts in hundred-millionths of a litre.
pub record ReconciliationRecord : Type 0 where
  pub id : ℕ
  pub subject_type : String
  pub subject_id : ℕ
  pub counterpart_type : Option String
  pub counterpart_id : Option ℕ
  pub family : String
  pub status : String
  pub discrepancy_value : Option ℕ
  pub discrepancy_unit : Option String
  pub tolerance_applied : Option ℕ
  pub evaluated_at : ℕ
  pub evaluated_by_user_id : Option ℕ

pub record ReconciliationDb : Type 0 where
  pub rbac : Db
  pub stations : List Station
  pub tanks : List Tank
  pub settings : List StationReconciliationSettings
  pub declarations : List DeliveryDeclaration
  pub lines : List DeliveryDeclarationLine
  pub detected : List DeliveryDetected
  pub records : List ReconciliationRecord
  pub alerts : List Alert

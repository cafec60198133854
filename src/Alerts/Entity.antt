-- ===== src/Alerts/Entity.antt =====
-- modules/alerts/entities/alert.entity.ts and modules/alerts/jobs/alert-dispatch.jobs.ts. Dates are
-- milliseconds since the epoch.
use intell_api.Prelude.{ℕ, String, Bool, Option, List}
use intell_api.Common.Enums.{AlertSeverity, AlertType, AlertResolutionStatus, ProcessingStatus}

-- An entry of `metadata.stats`: with a label and a value that are texts, or anything else.
pub data Stat : Type 0 where
  stat : String → String → Stat
  malformed : Stat

-- A value of the JSON column `metadata`, as far as the program tells them apart.
pub data MetaValue : Type 0 where
  text : String → MetaValue
  stats : List Stat → MetaValue
  anything_else : MetaValue

pub data DeliveryState : Type 0 where
  pending delivered failed partial_success : DeliveryState

-- What `alertRepo.create` is given.
pub record AlertColumns : Type 0 where
  pub user_id : String
  pub type : AlertType
  pub platform : String
  pub severity : AlertSeverity
  pub message : String
  pub resolution_status : Option AlertResolutionStatus
  pub triggered_at : ℕ
  pub is_active : Bool
  pub delivery_processing_status : ProcessingStatus
  pub deliverable : Bool
  pub delivery_status : DeliveryState
  pub delivery_channel : Option String
  pub metadata : List (String × MetaValue)

-- A row: the columns, and those of AbstractBaseEntity.
pub record Alert : Type 0 where
  pub id : String
  pub created_at : ℕ
  pub columns : AlertColumns
  pub open columns use *

pub record DispatchJobData : Type 0 where
  pub alert_id : String
  pub user_id : String
  pub type : AlertType
  pub severity : AlertSeverity
  pub message : String
  pub channel : String
  pub dashboard_url : Option String

pub record DeferredJobData : Type 0 where
  pub alert_id : String
  pub user_id : String
  pub scheduled_for : ℕ

-- A job of the queue ALERT_DISPATCH: by its name 'alert.dispatch', 'alert.deferred-delivery' (with
-- its delay in milliseconds), or another one.
pub data AlertJob : Type 0 where
  dispatch : DispatchJobData → AlertJob
  deferred_delivery : DeferredJobData → ℕ → AlertJob
  unknown : String → AlertJob

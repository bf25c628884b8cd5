-- ===== src/Core/Entities.antt =====
-- libs/core/src/entities: the rows. `JobColumns` and its like are the columns that the services set when they
-- `create` a row; the row that `save` returns has an id and its dates besides. A date is its number
-- of milliseconds since 1970, and a nullable column an `Option`.
use realtime_ops_platform.Prelude.{ℕ, ℤ, String, Option}
use realtime_ops_platform.Core.Enums.{
  JobStatus, AttemptStatus, AlertSeverity, AlertStatus, IncidentStatus, NotificationType,
  AuditActorType, EntityType,
}
use realtime_ops_platform.Core.Value.{Fields}

pub record JobColumns : Type 0 where
  pub name : String
  pub type : String
  pub payload : Fields
  pub priority : ℕ
  pub max_attempts : ℕ
  pub status : JobStatus
  pub attempt_count : ℕ
  pub last_error : Option String
  pub started_at : Option ℕ
  pub completed_at : Option ℕ

pub record JobEntity : Type 0 where
  pub id : String
  pub name : String
  pub type : String
  pub payload : Fields
  pub status : JobStatus
  pub priority : ℕ
  pub attempt_count : ℕ
  pub max_attempts : ℕ
  pub last_error : Option String
  pub started_at : Option ℕ
  pub completed_at : Option ℕ
  pub created_at : ℕ
  pub updated_at : ℕ

pub record AttemptColumns : Type 0 where
  pub job_id : String
  pub attempt_number : ℕ
  pub status : AttemptStatus
  pub started_at : ℕ
  pub finished_at : Option ℕ
  pub duration_ms : Option ℤ
  pub error_message : Option String

pub record ProcessingAttemptEntity : Type 0 where
  pub id : String
  pub job_id : String
  pub attempt_number : ℕ
  pub status : AttemptStatus
  pub error_message : Option String
  pub duration_ms : Option ℤ
  pub started_at : ℕ
  pub finished_at : Option ℕ
  pub created_at : ℕ

pub record AlertColumns : Type 0 where
  pub job_id : Option String
  pub source : String
  pub severity : AlertSeverity
  pub status : AlertStatus
  pub title : String
  pub description : String

-- the columns that `update` is given; the last two pairs are left out where they are `none`
pub record AlertPatch : Type 0 where
  pub status : AlertStatus
  pub acknowledged : Option (String × ℕ)
  pub resolved : Option (String × ℕ)

pub record AlertEntity : Type 0 where
  pub id : String
  pub job_id : Option String
  pub source : String
  pub severity : AlertSeverity
  pub status : AlertStatus
  pub title : String
  pub description : String
  pub acknowledged_by : Option String
  pub acknowledged_at : Option ℕ
  pub resolved_by : Option String
  pub resolved_at : Option ℕ
  pub created_at : ℕ
  pub updated_at : ℕ

pub record IncidentColumns : Type 0 where
  pub alert_id : Option String
  pub title : String
  pub summary : String
  pub status : IncidentStatus

pub record IncidentEntity : Type 0 where
  pub id : String
  pub alert_id : Option String
  pub title : String
  pub summary : String
  pub status : IncidentStatus
  pub acknowledged_by : Option String
  pub acknowledged_at : Option ℕ
  pub resolved_by : Option String
  pub resolved_at : Option ℕ
  pub created_at : ℕ
  pub updated_at : ℕ

pub record NotificationColumns : Type 0 where
  pub type : NotificationType
  pub message : String
  pub metadata : Fields
  pub channel : String
  pub read_at : Option ℕ

pub record NotificationEntity : Type 0 where
  pub id : String
  pub type : NotificationType
  pub channel : String
  pub message : String
  pub metadata : Fields
  pub read_at : Option ℕ
  pub created_at : ℕ

pub record AuditColumns : Type 0 where
  pub actor_type : AuditActorType
  pub actor_id : Option String
  pub action : String
  pub entity_type : EntityType
  pub entity_id : Option String
  pub metadata : Fields

pub record AuditEntryEntity : Type 0 where
  pub id : String
  pub actor_type : AuditActorType
  pub actor_id : Option String
  pub action : String
  pub entity_type : EntityType
  pub entity_id : Option String
  pub metadata : Fields
  pub created_at : ℕ

pub record OperatorActionColumns : Type 0 where
  pub operator_id : String
  pub action : String
  pub target_type : EntityType
  pub target_id : Option String
  pub payload : Fields

pub record OperatorActionEntity : Type 0 where
  pub id : String
  pub operator_id : String
  pub action : String
  pub target_type : EntityType
  pub target_id : Option String
  pub payload : Fields
  pub created_at : ℕ

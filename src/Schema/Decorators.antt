-- ===== src/Schema/Decorators.antt =====
-- The decorators of TypeORM, as libs/core/src/entities uses them, and the values of the enums of
-- libs/core/src/enums.
use realtime_ops_platform.Prelude.{
  ℕ, String, List, [], ◌∷◌, Bool, true, false, Option, none, some, map,
}
use realtime_ops_platform.Core.Enums.{
  JobStatus, AttemptStatus, AlertStatus, IncidentStatus, NotificationType, AuditActorType,
  EntityType, started, succeeded, low, medium, high, critical, job_status, job_status_text,
  attempt_status_text, severity_text, alert_status_text, incident_status_text,
  notification_type_text, actor_type_text, entity_type_text,
}
use realtime_ops_platform.Schema.{OnDelete}

-- The values of the enums, in the order of their members.
abbrev pub job_statuses : List String
job_statuses =
    map job_status_text
      (JobStatus.queued ∷ JobStatus.processing ∷ JobStatus.completed ∷ JobStatus.failed ∷ [])

abbrev pub attempt_statuses : List String
attempt_statuses = map attempt_status_text (started ∷ succeeded ∷ AttemptStatus.failed ∷ [])

abbrev pub severities : List String
severities = map severity_text (low ∷ medium ∷ high ∷ critical ∷ [])

abbrev pub alert_statuses : List String
alert_statuses =
    map alert_status_text
      (AlertStatus.opened ∷ AlertStatus.acknowledged ∷ AlertStatus.resolved ∷ [])

abbrev pub incident_statuses : List String
incident_statuses =
    map incident_status_text
      (IncidentStatus.opened ∷ IncidentStatus.acknowledged ∷ IncidentStatus.resolved ∷ [])

abbrev pub notification_types : List String
notification_types =
    map notification_type_text (
      job_status ∷ NotificationType.alert ∷ NotificationType.incident ∷ NotificationType.system
      ∷ [])

abbrev pub actor_types : List String
actor_types = map actor_type_text (AuditActorType.system ∷ AuditActorType.operator ∷ [])

abbrev pub entity_types : List String
entity_types = map entity_type_text (
    EntityType.job ∷ EntityType.alert ∷ EntityType.incident ∷ EntityType.notification
    ∷ EntityType.processing_attempt ∷ EntityType.operator_action ∷ [])

-- the `type` of a column's decorator, with its `length` or its `enum`
pub data Kind : Type 0 where
  uuid text jsonb integer timestamptz : Kind
  varchar : ℕ → Kind
  enum : List String → Kind

-- A decorated property: `@PrimaryGeneratedColumn('uuid')`, `@CreateDateColumn` and
-- `@UpdateDateColumn` of `timestamptz`, or `@Column` with its type, `nullable`, `unique` and default.
pub data Property : Type 0 where
  generated_id created_date updated_date : String → Property
  column : String → Kind → Bool → Bool → Option String → Property

-- the options of `@Index`: its columns, and whether it is unique
pub record IndexOption : Type 0 where
  pub columns : List String
  pub unique : Bool

-- a side of a relation that holds the column: the column, the table of the other side and `onDelete`
pub record Relation : Type 0 where
  pub column : String
  pub references : String
  pub on_delete : OnDelete

pub record Entity : Type 0 where
  pub table : String
  pub properties : List Property
  pub indexes : List IndexOption
  pub relations : List Relation

abbrev pub required : String → Kind → Property
required name kind = column name kind false false none

abbrev pub nullable : String → Kind → Property
nullable name kind = column name kind true false none

abbrev pub defaulted : String → Kind → String → Property
defaulted name kind value = column name kind false false (some value)

abbrev pub index : List String → IndexOption
index columns = record { columns = columns; unique = false }

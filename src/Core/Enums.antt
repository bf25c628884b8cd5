-- ===== src/Core/Enums.antt =====
-- libs/core/src/enums: the enums, with one constructor for each member. A member that is spelled
-- like a reserved word is renamed: `OPEN` is `opened`.
use realtime_ops_platform.Prelude.{Bool, true, false, String}

pub data JobStatus : Type 0 where
  queued processing completed failed : JobStatus

pub data AttemptStatus : Type 0 where
  started succeeded failed : AttemptStatus

pub data AlertSeverity : Type 0 where
  low medium high critical : AlertSeverity

pub data AlertStatus : Type 0 where
  opened acknowledged resolved : AlertStatus

pub data IncidentStatus : Type 0 where
  opened acknowledged resolved : IncidentStatus

pub data NotificationType : Type 0 where
  job_status alert incident system : NotificationType

pub data AuditActorType : Type 0 where
  system operator : AuditActorType

pub data EntityType : Type 0 where
  job alert incident notification processing_attempt operator_action : EntityType

-- `x === X.MEMBER` for the members that the services compare with
abbrev pub is_failed : JobStatus → Bool
is_failed JobStatus.failed = true
is_failed _ = false

abbrev pub is_critical : AlertSeverity → Bool
is_critical critical = true
is_critical _ = false

abbrev pub is_resolved : IncidentStatus → Bool
is_resolved IncidentStatus.resolved = true
is_resolved _ = false

abbrev pub is_opened : IncidentStatus → Bool
is_opened IncidentStatus.opened = true
is_opened _ = false

abbrev pub is_resolved_alert : AlertStatus → Bool
is_resolved_alert AlertStatus.resolved = true
is_resolved_alert _ = false

-- The texts that the members stand for.
abbrev pub job_status_text : JobStatus → String
job_status_text JobStatus.queued = "queued"
job_status_text JobStatus.processing = "processing"
job_status_text JobStatus.completed = "completed"
job_status_text JobStatus.failed = "failed"

abbrev pub severity_text : AlertSeverity → String
severity_text low = "low"
severity_text medium = "medium"
severity_text high = "high"
severity_text critical = "critical"

abbrev pub alert_status_text : AlertStatus → String
alert_status_text AlertStatus.opened = "open"
alert_status_text AlertStatus.acknowledged = "acknowledged"
alert_status_text AlertStatus.resolved = "resolved"

abbrev pub incident_status_text : IncidentStatus → String
incident_status_text IncidentStatus.opened = "open"
incident_status_text IncidentStatus.acknowledged = "acknowledged"
incident_status_text IncidentStatus.resolved = "resolved"

abbrev pub notification_type_text : NotificationType → String
notification_type_text job_status = "job_status"
notification_type_text NotificationType.alert = "alert"
notification_type_text NotificationType.incident = "incident"
notification_type_text NotificationType.system = "system"

abbrev pub entity_type_text : EntityType → String
entity_type_text EntityType.job = "job"
entity_type_text EntityType.alert = "alert"
entity_type_text EntityType.incident = "incident"
entity_type_text EntityType.notification = "notification"
entity_type_text EntityType.processing_attempt = "processing_attempt"
entity_type_text EntityType.operator_action = "operator_action"

abbrev pub attempt_status_text : AttemptStatus → String
attempt_status_text started = "started"
attempt_status_text succeeded = "succeeded"
attempt_status_text AttemptStatus.failed = "failed"

abbrev pub actor_type_text : AuditActorType → String
actor_type_text AuditActorType.system = "system"
actor_type_text AuditActorType.operator = "operator"

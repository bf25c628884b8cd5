-- ===== src/Schema/Entities.antt =====
-- libs/core/src/entities: what the decorators of the entities say of their tables.
use realtime_ops_platform.Prelude.{[], ◌∷◌, true, none}
use realtime_ops_platform.Core.Enums.{
  JobStatus, AlertStatus, IncidentStatus, started, job_status_text, attempt_status_text,
  alert_status_text, incident_status_text,
}
use realtime_ops_platform.Schema.{cascade, set_null}
use realtime_ops_platform.Schema.Decorators.{
  Entity, uuid, text, jsonb, integer, timestamptz, varchar, enum, generated_id, created_date,
  updated_date, column, job_statuses, attempt_statuses, severities, alert_statuses,
  incident_statuses, notification_types, actor_types, entity_types, required, nullable, defaulted,
  index,
}

abbrev job_entity : Entity
job_entity = record {
  table = "jobs";
  properties =
      generated_id "id"
      ∷ required "name" (varchar 80)
      ∷ required "type" (varchar 40)
      ∷ required "payload" jsonb
      ∷ defaulted "status" (enum job_statuses) (job_status_text JobStatus.queued)
      ∷ defaulted "priority" integer "3"
      ∷ defaulted "attemptCount" integer "0"
      ∷ defaulted "maxAttempts" integer "3"
      ∷ nullable "lastError" text
      ∷ nullable "startedAt" timestamptz
      ∷ nullable "completedAt" timestamptz
      ∷ created_date "createdAt"
      ∷ updated_date "updatedAt"
      ∷ [];
  indexes = index ("status" ∷ "createdAt" ∷ []) ∷ index ("type" ∷ "status" ∷ []) ∷ [];
  relations = [];
}

abbrev attempt_entity : Entity
attempt_entity = record {
  table = "processing_attempts";
  properties =
      generated_id "id"
      ∷ required "jobId" uuid
      ∷ required "attemptNumber" integer
      ∷ defaulted "status" (enum attempt_statuses) (attempt_status_text started)
      ∷ nullable "errorMessage" text
      ∷ nullable "durationMs" integer
      ∷ required "startedAt" timestamptz
      ∷ nullable "finishedAt" timestamptz
      ∷ created_date "createdAt"
      ∷ [];
  indexes =
      record { columns = "jobId" ∷ "attemptNumber" ∷ []; unique = true }
      ∷ index ("status" ∷ "createdAt" ∷ [])
      ∷ [];
  relations = record { column = "jobId"; references = "jobs"; on_delete = cascade } ∷ [];
}

abbrev alert_entity : Entity
alert_entity = record {
  table = "alerts";
  properties =
      generated_id "id"
      ∷ nullable "jobId" uuid
      ∷ defaulted "source" (varchar 30) "system"
      ∷ required "severity" (enum severities)
      ∷ defaulted "status" (enum alert_statuses) (alert_status_text AlertStatus.opened)
      ∷ required "title" (varchar 120)
      ∷ required "description" text
      ∷ nullable "acknowledgedBy" (varchar 80)
      ∷ nullable "acknowledgedAt" timestamptz
      ∷ nullable "resolvedBy" (varchar 80)
      ∷ nullable "resolvedAt" timestamptz
      ∷ created_date "createdAt"
      ∷ updated_date "updatedAt"
      ∷ [];
  indexes = index ("status" ∷ "severity" ∷ "createdAt" ∷ []) ∷ [];
  relations = record { column = "jobId"; references = "jobs"; on_delete = set_null } ∷ [];
}

abbrev incident_entity : Entity
incident_entity = record {
  table = "incidents";
  properties =
      generated_id "id"
      ∷ column "alertId" uuid true true none
      ∷ required "title" (varchar 140)
      ∷ required "summary" text
      ∷ defaulted "status" (enum incident_statuses) (incident_status_text IncidentStatus.opened)
      ∷ nullable "acknowledgedBy" (varchar 80)
      ∷ nullable "acknowledgedAt" timestamptz
      ∷ nullable "resolvedBy" (varchar 80)
      ∷ nullable "resolvedAt" timestamptz
      ∷ created_date "createdAt"
      ∷ updated_date "updatedAt"
      ∷ [];
  indexes = index ("status" ∷ "createdAt" ∷ []) ∷ [];
  relations = record { column = "alertId"; references = "alerts"; on_delete = set_null } ∷ [];
}

abbrev notification_entity : Entity
notification_entity = record {
  table = "notifications";
  properties =
      generated_id "id"
      ∷ required "type" (enum notification_types)
      ∷ defaulted "channel" (varchar 30) "operator_feed"
      ∷ required "message" text
      ∷ required "metadata" jsonb
      ∷ nullable "readAt" timestamptz
      ∷ created_date "createdAt"
      ∷ [];
  indexes = index ("type" ∷ "createdAt" ∷ []) ∷ [];
  relations = [];
}

abbrev operator_action_entity : Entity
operator_action_entity = record {
  table = "operator_actions";
  properties =
      generated_id "id"
      ∷ required "operatorId" (varchar 80)
      ∷ required "action" (varchar 80)
      ∷ required "targetType" (varchar 40)
      ∷ nullable "targetId" uuid
      ∷ required "payload" jsonb
      ∷ created_date "createdAt"
      ∷ [];
  indexes = index ("operatorId" ∷ "createdAt" ∷ []) ∷ [];
  relations = [];
}

abbrev audit_entity : Entity
audit_entity = record {
  table = "audit_entries";
  properties =
      generated_id "id"
      ∷ required "actorType" (enum actor_types)
      ∷ nullable "actorId" (varchar 80)
      ∷ required "action" (varchar 100)
      ∷ required "entityType" (enum entity_types)
      ∷ nullable "entityId" uuid
      ∷ required "metadata" jsonb
      ∷ created_date "createdAt"
      ∷ [];
  indexes =
      index ("entityType" ∷ "entityId" ∷ "createdAt" ∷ [])
      ∷ index ("actorType" ∷ "createdAt" ∷ [])
      ∷ [];
  relations = [];
}

-- `entities` of libs/database/src/typeorm.config.ts, by name
pub data EntityName : Type 0 where
  job processing_attempt alert incident notification operator_action audit_entry : EntityName

abbrev pub entity : EntityName → Entity
entity job = job_entity
entity processing_attempt = attempt_entity
entity alert = alert_entity
entity incident = incident_entity
entity notification = notification_entity
entity operator_action = operator_action_entity
entity audit_entry = audit_entity

-- ===== src/Schema/Dropping.antt =====
-- The statements of `down`, of libs/database/src/migrations/1710000000000-initial-schema.ts.
use realtime_ops_platform.Prelude.{List, [], ◌∷◌}
use realtime_ops_platform.Schema.{Ddl, drop_constraint, drop_index, drop_table, drop_type}

abbrev pub down : List Ddl
down =
    drop_constraint "incidents" "FK_incidents_alertId"
    ∷ drop_constraint "alerts" "FK_alerts_jobId"
    ∷ drop_constraint "processing_attempts" "FK_processing_attempts_jobId"
    ∷ drop_index "IDX_audit_entries_actorType_createdAt"
    ∷ drop_index "IDX_audit_entries_entityType_entityId_createdAt"
    ∷ drop_table "audit_entries"
    ∷ drop_type "audit_entries_entityType_enum"
    ∷ drop_type "audit_entries_actorType_enum"
    ∷ drop_index "IDX_operator_actions_operatorId_createdAt"
    ∷ drop_table "operator_actions"
    ∷ drop_index "IDX_notifications_type_createdAt"
    ∷ drop_table "notifications"
    ∷ drop_type "notifications_type_enum"
    ∷ drop_index "IDX_incidents_status_createdAt"
    ∷ drop_table "incidents"
    ∷ drop_type "incidents_status_enum"
    ∷ drop_index "IDX_alerts_status_severity_createdAt"
    ∷ drop_table "alerts"
    ∷ drop_type "alerts_status_enum"
    ∷ drop_type "alerts_severity_enum"
    ∷ drop_index "IDX_processing_attempts_status_createdAt"
    ∷ drop_table "processing_attempts"
    ∷ drop_type "processing_attempts_status_enum"
    ∷ drop_index "IDX_jobs_type_status"
    ∷ drop_index "IDX_jobs_status_createdAt"
    ∷ drop_table "jobs"
    ∷ drop_type "jobs_status_enum"
    ∷ []

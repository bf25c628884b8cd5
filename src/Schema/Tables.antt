-- ===== src/Schema/Tables.antt =====
-- The statements of `up` for the jobs, their attempts, the alerts and the incidents, of
-- libs/database/src/migrations/1710000000000-initial-schema.ts.
use realtime_ops_platform.Prelude.{String, List, [], ◌∷◌, Bool, true, false, Option, none, some}
use realtime_ops_platform.Schema.{
  ColumnType, Column, Ddl, uuid, text, jsonb, integer, timestamptz, varchar, enum, primary_key,
  unique, create_type, create_table, create_index,
}

abbrev pub column : String → ColumnType → Bool → Option String → Column
column name type not_null default = record {
  name = name;
  type = type;
  not_null = not_null;
  default = default;
}

abbrev jobs_columns : List Column
jobs_columns =
    column "id" uuid true (some "uuid_generate_v4()")
    ∷ column "name" (varchar 80) true none
    ∷ column "type" (varchar 40) true none
    ∷ column "payload" jsonb true none
    ∷ column "status" (enum "jobs_status_enum") true (some "queued")
    ∷ column "priority" integer true (some "3")
    ∷ column "attemptCount" integer true (some "0")
    ∷ column "maxAttempts" integer true (some "3")
    ∷ column "lastError" text false none
    ∷ column "startedAt" timestamptz false none
    ∷ column "completedAt" timestamptz false none
    ∷ column "createdAt" timestamptz true (some "now()")
    ∷ column "updatedAt" timestamptz true (some "now()")
    ∷ []

abbrev pub jobs_statements : List Ddl
jobs_statements =
    create_type "jobs_status_enum" ("queued" ∷ "processing" ∷ "completed" ∷ "failed" ∷ [])
    ∷ create_table "jobs" jobs_columns (primary_key "PK_jobs_id" ("id" ∷ []) ∷ [])
    ∷ create_index "IDX_jobs_status_createdAt" "jobs" ("status" ∷ "createdAt" ∷ [])
    ∷ create_index "IDX_jobs_type_status" "jobs" ("type" ∷ "status" ∷ [])
    ∷ []

abbrev processing_attempts_columns : List Column
processing_attempts_columns =
    column "id" uuid true (some "uuid_generate_v4()")
    ∷ column "jobId" uuid true none
    ∷ column "attemptNumber" integer true none
    ∷ column "status" (enum "processing_attempts_status_enum") true (some "started")
    ∷ column "errorMessage" text false none
    ∷ column "durationMs" integer false none
    ∷ column "startedAt" timestamptz true none
    ∷ column "finishedAt" timestamptz false none
    ∷ column "createdAt" timestamptz true (some "now()")
    ∷ []

abbrev pub processing_attempts_statements : List Ddl
processing_attempts_statements =
    create_type "processing_attempts_status_enum" ("started" ∷ "succeeded" ∷ "failed" ∷ [])
    ∷ create_table "processing_attempts" processing_attempts_columns (
        primary_key "PK_processing_attempts_id" ("id" ∷ [])
        ∷ unique "UQ_processing_attempts_job_attempt" ("jobId" ∷ "attemptNumber" ∷ [])
        ∷ [])
    ∷ create_index "IDX_processing_attempts_status_createdAt" "processing_attempts"
        ("status" ∷ "createdAt" ∷ [])
    ∷ []

abbrev alerts_columns : List Column
alerts_columns =
    column "id" uuid true (some "uuid_generate_v4()")
    ∷ column "jobId" uuid false none
    ∷ column "source" (varchar 30) true (some "system")
    ∷ column "severity" (enum "alerts_severity_enum") true none
    ∷ column "status" (enum "alerts_status_enum") true (some "open")
    ∷ column "title" (varchar 120) true none
    ∷ column "description" text true none
    ∷ column "acknowledgedBy" (varchar 80) false none
    ∷ column "acknowledgedAt" timestamptz false none
    ∷ column "resolvedBy" (varchar 80) false none
    ∷ column "resolvedAt" timestamptz false none
    ∷ column "createdAt" timestamptz true (some "now()")
    ∷ column "updatedAt" timestamptz true (some "now()")
    ∷ []

abbrev pub alerts_statements : List Ddl
alerts_statements =
    create_type "alerts_severity_enum" ("low" ∷ "medium" ∷ "high" ∷ "critical" ∷ [])
    ∷ create_type "alerts_status_enum" ("open" ∷ "acknowledged" ∷ "resolved" ∷ [])
    ∷ create_table "alerts" alerts_columns (primary_key "PK_alerts_id" ("id" ∷ []) ∷ [])
    ∷ create_index "IDX_alerts_status_severity_createdAt" "alerts"
        ("status" ∷ "severity" ∷ "createdAt" ∷ [])
    ∷ []

abbrev incidents_columns : List Column
incidents_columns =
    column "id" uuid true (some "uuid_generate_v4()")
    ∷ column "alertId" uuid false none
    ∷ column "title" (varchar 140) true none
    ∷ column "summary" text true none
    ∷ column "status" (enum "incidents_status_enum") true (some "open")
    ∷ column "acknowledgedBy" (varchar 80) false none
    ∷ column "acknowledgedAt" timestamptz false none
    ∷ column "resolvedBy" (varchar 80) false none
    ∷ column "resolvedAt" timestamptz false none
    ∷ column "createdAt" timestamptz true (some "now()")
    ∷ column "updatedAt" timestamptz true (some "now()")
    ∷ []

abbrev pub incidents_statements : List Ddl
incidents_statements =
    create_type "incidents_status_enum" ("open" ∷ "acknowledged" ∷ "resolved" ∷ [])
    ∷ create_table "incidents" incidents_columns (
        unique "UQ_incidents_alert_id" ("alertId" ∷ [])
        ∷ primary_key "PK_incidents_id" ("id" ∷ [])
        ∷ [])
    ∷ create_index "IDX_incidents_status_createdAt" "incidents" ("status" ∷ "createdAt" ∷ [])
    ∷ []

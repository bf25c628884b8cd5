-- ===== src/Schema/Records.antt =====
-- The statements of `up` for the notifications, the operator actions and the audit entries, of
-- libs/database/src/migrations/1710000000000-initial-schema.ts.
use realtime_ops_platform.Prelude.{List, [], ◌∷◌, true, false, none, some}
use realtime_ops_platform.Schema.{
  Column, Ddl, uuid, text, jsonb, timestamptz, varchar, enum, primary_key, create_type,
  create_table, create_index,
}
use realtime_ops_platform.Schema.Tables.{column}

abbrev notifications_columns : List Column
notifications_columns =
    column "id" uuid true (some "uuid_generate_v4()")
    ∷ column "type" (enum "notifications_type_enum") true none
    ∷ column "channel" (varchar 30) true (some "operator_feed")
    ∷ column "message" text true none
    ∷ column "metadata" jsonb true none
    ∷ column "readAt" timestamptz false none
    ∷ column "createdAt" timestamptz true (some "now()")
    ∷ []

abbrev pub notifications_statements : List Ddl
notifications_statements =
    create_type "notifications_type_enum" ("job_status" ∷ "alert" ∷ "incident" ∷ "system" ∷ [])
    ∷ create_table "notifications" notifications_columns
        (primary_key "PK_notifications_id" ("id" ∷ []) ∷ [])
    ∷ create_index "IDX_notifications_type_createdAt" "notifications" ("type" ∷ "createdAt" ∷ [])
    ∷ []

abbrev operator_actions_columns : List Column
operator_actions_columns =
    column "id" uuid true (some "uuid_generate_v4()")
    ∷ column "operatorId" (varchar 80) true none
    ∷ column "action" (varchar 80) true none
    ∷ column "targetType" (varchar 40) true none
    ∷ column "targetId" uuid false none
    ∷ column "payload" jsonb true none
    ∷ column "createdAt" timestamptz true (some "now()")
    ∷ []

abbrev pub operator_actions_statements : List Ddl
operator_actions_statements =
    create_table "operator_actions" operator_actions_columns
      (primary_key "PK_operator_actions_id" ("id" ∷ []) ∷ [])
    ∷ create_index "IDX_operator_actions_operatorId_createdAt" "operator_actions"
        ("operatorId" ∷ "createdAt" ∷ [])
    ∷ []

abbrev audit_entries_columns : List Column
audit_entries_columns =
    column "id" uuid true (some "uuid_generate_v4()")
    ∷ column "actorType" (enum "audit_entries_actorType_enum") true none
    ∷ column "actorId" (varchar 80) false none
    ∷ column "action" (varchar 100) true none
    ∷ column "entityType" (enum "audit_entries_entityType_enum") true none
    ∷ column "entityId" uuid false none
    ∷ column "metadata" jsonb true none
    ∷ column "createdAt" timestamptz true (some "now()")
    ∷ []

abbrev pub audit_entries_statements : List Ddl
audit_entries_statements =
    create_type "audit_entries_actorType_enum" ("system" ∷ "operator" ∷ [])
    ∷ create_type "audit_entries_entityType_enum" (
        "job" ∷ "alert" ∷ "incident" ∷ "notification" ∷ "processing_attempt" ∷ "operator_action"
        ∷ [])
    ∷ create_table "audit_entries" audit_entries_columns
        (primary_key "PK_audit_entries_id" ("id" ∷ []) ∷ [])
    ∷ create_index "IDX_audit_entries_entityType_entityId_createdAt" "audit_entries"
        ("entityType" ∷ "entityId" ∷ "createdAt" ∷ [])
    ∷ create_index "IDX_audit_entries_actorType_createdAt" "audit_entries"
        ("actorType" ∷ "createdAt" ∷ [])
    ∷ []

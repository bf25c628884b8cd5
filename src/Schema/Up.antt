-- ===== src/Schema/Up.antt =====
-- `up` of libs/database/src/migrations/1710000000000-initial-schema.ts as a whole, with the foreign keys
-- that it adds at the end.
use realtime_ops_platform.Prelude.{List, [], ◌∷◌, ◌++◌}
use realtime_ops_platform.Schema.{Ddl, cascade, set_null, create_extension, add_foreign_key}
use realtime_ops_platform.Schema.Tables.{
  jobs_statements, processing_attempts_statements, alerts_statements, incidents_statements,
}
use realtime_ops_platform.Schema.Records.{
  notifications_statements, operator_actions_statements, audit_entries_statements,
}

abbrev pub foreign_keys : List Ddl
foreign_keys =
    add_foreign_key "processing_attempts" (record {
      name = "FK_processing_attempts_jobId";
      column = "jobId";
      references = "jobs";
      on_delete = cascade;
    })
    ∷ add_foreign_key "alerts" (record {
      name = "FK_alerts_jobId";
      column = "jobId";
      references = "jobs";
      on_delete = set_null;
    })
    ∷ add_foreign_key "incidents" (record {
      name = "FK_incidents_alertId";
      column = "alertId";
      references = "alerts";
      on_delete = set_null;
    })
    ∷ []

-- `up`, after its extension
abbrev pub schema_statements : List Ddl
schema_statements =
    jobs_statements ++ processing_attempts_statements ++ alerts_statements ++ incidents_statements
    ++ notifications_statements ++ operator_actions_statements ++ audit_entries_statements
    ++ foreign_keys

abbrev pub up : List Ddl
up = create_extension "uuid-ossp" ∷ schema_statements

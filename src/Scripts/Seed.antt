-- ===== src/Scripts/Seed.antt =====
-- scripts/seed-runner.ts. A date before 1970 is none that the seed is run at: the differences of dates
-- stop at 0. The columns that the script sets to null and that the services leave out are left out.
use realtime_ops_platform.Prelude.{ℕ, ◌-◌, ◌*◌, String, List, [], ◌∷◌, none, some}
use realtime_ops_platform.Core.Enums.{
  JobStatus, AlertStatus, IncidentStatus, NotificationType, AuditActorType, EntityType, critical,
  notification_type_text,
}
use realtime_ops_platform.Core.Value.{Fields, end, field, str, int}
use realtime_ops_platform.Core.Entities.{
  JobColumns, JobEntity, AlertColumns, AlertEntity, IncidentColumns, IncidentEntity,
  NotificationColumns, NotificationEntity, AuditColumns,
}
use realtime_ops_platform.Runtime.Calls.{
  jobs_insert, alert_insert, incident_insert, notification_insert, audits_insert,
}
use realtime_ops_platform.Runtime.Monad.{Env, M, plain_error, pure, throw, ◌>>=◌, ◌>>◌, call, now}

-- `new Date(now.getTime() - 1000 * 60 * minutes)`
abbrev minutes_before : ℕ → ℕ → ℕ
minutes_before now minutes = now - 1000 * 60 * minutes

abbrev pub seeded_jobs : ℕ → List JobColumns
seeded_jobs now =
    record {
      name = "Daily payment reconciliation";
      type = "financial-reconciliation";
      payload = field "source" (str "payments") (field "failTimes" (int 0) end);
      status = JobStatus.completed;
      priority = 3;
      attempt_count = 1;
      max_attempts = 3;
      last_error = none;
      started_at = some (minutes_before now 20);
      completed_at = some (minutes_before now 18);
    }
    ∷ record {
      name = "Warehouse sync";
      type = "inventory-sync";
      payload = field "source" (str "warehouse") (field "failTimes" (int 2) end);
      status = JobStatus.failed;
      priority = 4;
      attempt_count = 2;
      max_attempts = 4;
      last_error = some "Processing failed on attempt 2";
      started_at = some (minutes_before now 10);
      completed_at = some (minutes_before now 9);
    }
    ∷ record {
      name = "Incident trend indexing";
      type = "analytics-index";
      payload = field "source" (str "incident-events") (field "failTimes" (int 1) end);
      status = JobStatus.queued;
      priority = 2;
      attempt_count = 0;
      max_attempts = 3;
      last_error = none;
      started_at = none;
      completed_at = none;
    }
    ∷ []

abbrev pub seeded_alert : JobEntity → AlertColumns
seeded_alert failing_job = record {
  job_id = some failing_job.id;
  source = "processing-service";
  severity = critical;
  status = AlertStatus.opened;
  title = "Warehouse sync failure threshold reached";
  description = "Repeated failures exceeded expected retry behavior.";
}

abbrev pub seeded_incident : AlertEntity → IncidentColumns
seeded_incident critical_alert = record {
  alert_id = some critical_alert.id;
  title = "Warehouse data freshness incident";
  summary = "Inventory feed has not updated for 30 minutes.";
  status = IncidentStatus.opened;
}

abbrev pub seeded_notification : JobEntity → AlertEntity → IncidentEntity → NotificationColumns
seeded_notification failing_job critical_alert incident = record {
  type = NotificationType.alert;
  message = "Critical alert created for warehouse sync pipeline";
  metadata =
      field "jobId" (str failing_job.id)
        (field "alertId" (str critical_alert.id) (field "incidentId" (str incident.id) end));
  channel = "operator_feed";
  read_at = none;
}

abbrev seeded_audit : String → EntityType → String → Fields → AuditColumns
seeded_audit action entity_type entity_id metadata = record {
  actor_type = AuditActorType.system;
  actor_id = none;
  action = action;
  entity_type = entity_type;
  entity_id = some entity_id;
  metadata = metadata;
}

abbrev pub seeded_audits :
    JobEntity → AlertEntity → IncidentEntity → NotificationEntity → List AuditColumns
seeded_audits primary_job critical_alert incident notification =
    seeded_audit "seed.job.created" EntityType.job primary_job.id end
    ∷ seeded_audit "seed.alert.created" EntityType.alert critical_alert.id
        (field "incidentId" (str incident.id) end)
    ∷ seeded_audit "seed.notification.created" EntityType.notification notification.id
        (field "type" (str (notification_type_text notification.type)) end)
    ∷ []

module _ (env : Env) where
  -- what follows the insert of the jobs; `save` returns the rows that it inserted
  unfoldable pub seed_rest : List JobEntity → M (Unit {0})
  seed_rest (primary_job ∷ failing_job ∷ _) = do
    critical_alert ← call env (alert_insert (seeded_alert failing_job))
    incident ← call env (incident_insert (seeded_incident critical_alert))
    notification ←
        call env (notification_insert (seeded_notification failing_job critical_alert incident))
    call env (audits_insert (seeded_audits primary_job critical_alert incident notification))
    pure tt
  seed_rest _ = throw (plain_error "Seed job creation failed")

  unfoldable pub seed_runner : M (Unit {0})
  seed_runner = do date ← now env; jobs ← call env (jobs_insert (seeded_jobs date)); seed_rest jobs

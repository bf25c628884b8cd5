-- ===== src/Jobs/Processor.antt =====
-- libs/application/src/jobs/job-processor.service.ts: the worker's `process` of one message.
pub mod Reporting
pub mod Locking
pub mod Outcome
pub mod Escalation
pub mod Steps
pub mod Writes
pub mod Stranding
pub mod Locks
pub mod Exclusion
pub mod Leases
pub mod Timing
pub mod Returning
use Prim.Native.String
use realtime_ops_platform.Prelude.{
  ℕ, ◌+◌, sub_ℕ, String, Bool, true, false, ◌||◌, leb, Option, none, some, if◌then◌else◌,
}
use realtime_ops_platform.Core.Enums.{
  JobStatus, AttemptStatus, AlertSeverity, AlertStatus, IncidentStatus, NotificationType,
  AuditActorType, EntityType, high, critical, is_critical, job_status, severity_text,
  alert_status_text, incident_status_text,
}
use realtime_ops_platform.Core.Value.{
  Value, bool, num, end, field, get, str, null, int, iso, str_or_null, le_number, decimal, natural,
  Number,
}
use realtime_ops_platform.Core.Entities.{
  JobEntity, AttemptColumns, ProcessingAttemptEntity, AlertColumns, AlertEntity, IncidentColumns,
  IncidentEntity,
}
use realtime_ops_platform.Runtime.Calls.{
  job_save, job_find_one, attempt_insert, attempt_save, alert_insert, incident_insert,
}
use realtime_ops_platform.Runtime.Monad.{Env, M, pure, ◌>>=◌, ◌>>◌, call, now, pause, try_finally}
use realtime_ops_platform.Events.{
  publish_job_processing, publish_job_completed, publish_job_failed, publish_alert_raised,
  publish_incident_updated, publish_notification_created,
}
use realtime_ops_platform.Records.{log, create_notification, acquire_lock, release_lock}
use realtime_ops_platform.Jobs.Service.{notification_event}
use realtime_ops_platform.Jobs.Rows.{
  ProcessJobInput, lock_key, is_true, number_or_zero, evaluate_failure, begun, started_attempt,
  succeeded_job, failed_job, succeeded_attempt, failed_attempt, failure_severity, failure_alert,
  failure_incident, incident_id,
}

module _ (env : Env) where
  -- `markCompleted`, from the notification on
  unfoldable pub report_completed : JobEntity → ProcessingAttemptEntity → ℕ → M (Unit {0})
  report_completed job attempt finished_at = do
    notification ←
        create_notification env job_status
          (String.◌++◌ "Job " (String.◌++◌ job.name " completed successfully"))
          (field "jobId" (str job.id) (field "attemptNumber" (int attempt.attempt_number) end))
    log env (record {
      actor_type = AuditActorType.system;
      actor_id = none;
      action = "job.completed";
      entity_type = EntityType.job;
      entity_id = some job.id;
      metadata = field "attemptNumber" (int attempt.attempt_number) end;
    })
    publish_job_completed env (
        field "jobId" (str job.id) (
          field "attemptNumber" (int attempt.attempt_number)
            (field "completedAt" (iso finished_at) end)))
    publish_notification_created env (notification_event notification)

  unfoldable pub mark_completed : JobEntity → ProcessingAttemptEntity → M (Unit {0})
  mark_completed job attempt = do
    finished_at ← now env
    call env (attempt_save (succeeded_attempt attempt finished_at))
    call env (job_save (succeeded_job job finished_at))
    report_completed job attempt finished_at

  -- `markFailed`, the part that may open an incident
  unfoldable pub escalate :
      JobEntity → AlertEntity → AlertSeverity → String → M (Option IncidentEntity)
  escalate job alert severity message =
      if is_critical severity
      then (do
        incident ← call env (incident_insert (failure_incident job alert message))
        pure (some incident))
      else pure none

  -- `if (incident) { auditService.log(…) }`
  unfoldable pub log_incident : Option IncidentEntity → AlertEntity → M (Unit {0})
  log_incident none alert = pure tt
  log_incident (some incident) alert = do
    log env (record {
      actor_type = AuditActorType.system;
      actor_id = none;
      action = "incident.created";
      entity_type = EntityType.incident;
      entity_id = some incident.id;
      metadata = field "alertId" (str alert.id) end;
    })
    pure tt

  -- `if (incident) { realtimeEventPublisher.publishIncidentUpdated(…) }`
  unfoldable pub announce_incident : Option IncidentEntity → M (Unit {0})
  announce_incident none = pure tt
  announce_incident (some incident) = publish_incident_updated env (
      field "incidentId" (str incident.id) (
        field "status" (str (incident_status_text incident.status))
          (field "alertId" (str_or_null incident.alert_id) end)))

  -- `markFailed`, from the notification on
  unfoldable pub report_failure :
      JobEntity
      → ProcessingAttemptEntity
      → String
      → ℕ
      → AlertEntity
      → Option IncidentEntity
      → M (Unit {0})
  report_failure job attempt message finished_at alert incident = do
    let severity = failure_severity job
    notification ←
        create_notification env NotificationType.alert
          (String.◌++◌ "Alert raised for failed job " job.name)
          (field "jobId" (str job.id) (
            field "alertId" (str alert.id) (
              field "incidentId" (incident_id incident)
                (field "severity" (str (severity_text severity)) end))))
    log env (record {
      actor_type = AuditActorType.system;
      actor_id = none;
      action = "job.failed";
      entity_type = EntityType.job;
      entity_id = some job.id;
      metadata =
          field "errorMessage" (str message)
            (field "attemptNumber" (int attempt.attempt_number) end);
    })
    log env (record {
      actor_type = AuditActorType.system;
      actor_id = none;
      action = "alert.raised";
      entity_type = EntityType.alert;
      entity_id = some alert.id;
      metadata = field "severity" (str (severity_text severity)) (field "jobId" (str job.id) end);
    })
    log_incident incident alert
    publish_job_failed env (
        field "jobId" (str job.id) (
          field "attemptNumber" (int attempt.attempt_number)
            (field "errorMessage" (str message) (field "failedAt" (iso finished_at) end))))
    publish_alert_raised env (
        field "alertId" (str alert.id) (
          field "jobId" (str job.id) (
            field "severity" (str (severity_text alert.severity)) (
              field "status" (str (alert_status_text alert.status))
                (field "incidentId" (incident_id incident) end)))))
    announce_incident incident
    publish_notification_created env (notification_event notification)

  unfoldable pub mark_failed : JobEntity → ProcessingAttemptEntity → String → M (Unit {0})
  mark_failed job attempt message = do
    finished_at ← now env
    call env (attempt_save (failed_attempt attempt finished_at message))
    call env (job_save (failed_job job finished_at message))
    let severity = failure_severity job
    alert ← call env (alert_insert (failure_alert job severity message))
    incident ← escalate job alert severity message
    report_failure job attempt message finished_at alert incident

  -- the end of the `try` block: the outcome of the attempt
  unfoldable pub finish : JobEntity → ProcessingAttemptEntity → Option String → M (Unit {0})
  finish job attempt (some message) = mark_failed job attempt message
  finish job attempt none = mark_completed job attempt

  -- the `try` block, once the job is found
  unfoldable pub attempt_job : ProcessJobInput → JobEntity → M (Unit {0})
  attempt_job input found = do
    started_at ← now env
    let job = begun found started_at
    let attempt_number = found.attempt_count + 1
    call env (job_save job)
    publish_job_processing env (
        field "jobId" (str job.id)
          (field "attemptNumber" (int attempt_number) (field "startedAt" (iso started_at) end)))
    log env (record {
      actor_type = AuditActorType.system;
      actor_id = none;
      action = "job.processing";
      entity_type = EntityType.job;
      entity_id = some job.id;
      metadata =
          field "attemptNumber" (int attempt_number)
            (field "reason" (str input.reason) (field "requestedBy" (str input.requested_by) end));
    })
    attempt ← call env (attempt_insert (started_attempt job attempt_number started_at))
    pause 120
    finish job attempt (evaluate_failure job attempt_number)

  -- `if (!job) { return; }`
  unfoldable pub attempt_found : ProcessJobInput → Option JobEntity → M (Unit {0})
  attempt_found input none = pure tt
  attempt_found input (some job) = attempt_job input job

  -- the `try` block
  unfoldable pub attempt_message : ProcessJobInput → M (Unit {0})
  attempt_message input = do found ← call env (job_find_one input.job_id); attempt_found input found

  -- what `process` does once it is told whether it has the lock
  unfoldable pub process_locked : ProcessJobInput → Bool → M (Unit {0})
  process_locked input false = pure tt
  process_locked input true =
      try_finally (attempt_message input) (release_lock env (lock_key input.job_id))

  unfoldable pub process : ProcessJobInput → M (Unit {0})
  process input = do
    acquired ← acquire_lock env (lock_key input.job_id) 60
    process_locked input acquired

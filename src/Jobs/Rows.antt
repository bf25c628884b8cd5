-- ===== src/Jobs/Rows.antt =====
-- libs/application/src/jobs/job-processor.service.ts: the rows that the worker writes, as it changes them, and
-- `evaluateFailure`. An entity that the code changes in place is a new record, and `save` is made
-- with it; the code reads no column of it that `save` would have filled in.
use Prim.Native.String
use realtime_ops_platform.Prelude.{
  ℕ, ◌+◌, sub_ℕ, String, Bool, true, false, ◌||◌, leb, Option, none, some, if◌then◌else◌,
}
use realtime_ops_platform.Core.Enums.{
  JobStatus, AttemptStatus, AlertSeverity, AlertStatus, IncidentStatus, high, critical,
}
use realtime_ops_platform.Core.Value.{
  Value, bool, num, get, str, null, le_number, decimal, natural, Number,
}
use realtime_ops_platform.Core.Entities.{
  JobEntity, AttemptColumns, ProcessingAttemptEntity, AlertColumns, AlertEntity, IncidentColumns,
  IncidentEntity,
}

pub record ProcessJobInput : Type 0 where
  pub job_id : String
  pub reason : String
  pub requested_by : String

abbrev pub lock_key : String → String
lock_key job_id = String.◌++◌ "job-processing-lock:" job_id

-- `x === true`
abbrev pub is_true : Value → Bool
is_true (bool true) = true
is_true _ = false

-- `typeof x === 'number' ? x : 0`
abbrev pub number_or_zero : Value → Number
number_or_zero (num n) = n
number_or_zero _ = natural 0

-- `evaluateFailure`: `some` message where the attempt failed
unfoldable pub evaluate_failure : JobEntity → ℕ → Option String
evaluate_failure job attempt_number =
    let should_fail = is_true (get "shouldFail" job.payload) in
    let fail_times = number_or_zero (get "failTimes" job.payload) in
    if should_fail || le_number attempt_number fail_times
    then some (String.◌++◌ "Processing failed on attempt " (decimal attempt_number))
    else none

-- the job as an attempt begins
abbrev pub begun : JobEntity → ℕ → JobEntity
begun job started_at = record job {
  status = JobStatus.processing;
  started_at = some started_at;
  completed_at = none;
  last_error = none;
  attempt_count = job.attempt_count + 1;
}

-- the row of an attempt as it starts
abbrev pub started_attempt : JobEntity → ℕ → ℕ → AttemptColumns
started_attempt job attempt_number started_at = record {
  job_id = job.id;
  attempt_number = attempt_number;
  status = AttemptStatus.started;
  started_at = started_at;
  finished_at = none;
  duration_ms = none;
  error_message = none;
}

abbrev pub succeeded_job : JobEntity → ℕ → JobEntity
succeeded_job job finished_at = record job {
  status = JobStatus.completed;
  completed_at = some finished_at;
  last_error = none;
}

abbrev pub failed_job : JobEntity → ℕ → String → JobEntity
failed_job job finished_at message = record job {
  status = JobStatus.failed;
  completed_at = some finished_at;
  last_error = some message;
}

abbrev pub succeeded_attempt : ProcessingAttemptEntity → ℕ → ProcessingAttemptEntity
succeeded_attempt attempt finished_at = record attempt {
  status = AttemptStatus.succeeded;
  finished_at = some finished_at;
  duration_ms = some (sub_ℕ finished_at attempt.started_at);
}

abbrev pub failed_attempt : ProcessingAttemptEntity → ℕ → String → ProcessingAttemptEntity
failed_attempt attempt finished_at message = record attempt {
  status = AttemptStatus.failed;
  error_message = some message;
  finished_at = some finished_at;
  duration_ms = some (sub_ℕ finished_at attempt.started_at);
}

-- `job.attemptCount >= job.maxAttempts ? CRITICAL : HIGH`
abbrev pub failure_severity : JobEntity → AlertSeverity
failure_severity job = if leb job.max_attempts job.attempt_count then critical else high

-- the alert of a failed attempt, and the incident of a critical one
abbrev pub failure_alert : JobEntity → AlertSeverity → String → AlertColumns
failure_alert job severity message = record {
  job_id = some job.id;
  source = "processing-service";
  severity = severity;
  status = AlertStatus.opened;
  title = String.◌++◌ "Job processing failed: " job.name;
  description = message;
}

abbrev pub failure_incident : JobEntity → AlertEntity → String → IncidentColumns
failure_incident job alert message = record {
  alert_id = some alert.id;
  title = String.◌++◌ "Critical incident for job " job.name;
  summary = message;
  status = IncidentStatus.opened;
}

-- `incident?.id ?? null`
abbrev pub incident_id : Option IncidentEntity → Value
incident_id none = null
incident_id (some incident) = str incident.id

-- ===== src/Jobs/Processor/Reporting.antt =====
-- Conditions that job-processor.service.ts keeps: its parts that only report keep every quiet
-- condition, and its `try` block keeps what none of its calls touches.
use realtime_ops_platform.Prelude.{ℕ, String, List, ◌∷◌, Option, none, some}
use realtime_ops_platform.Core.Enums.{AlertSeverity}
use realtime_ops_platform.Core.Entities.{
  JobEntity, ProcessingAttemptEntity, AttemptColumns, AlertEntity, AlertColumns, IncidentEntity,
  IncidentColumns,
}
use realtime_ops_platform.Runtime.Calls.{
  Call, sleep, job_find_one, job_save, attempt_insert, attempt_save, alert_insert, incident_insert,
}
use realtime_ops_platform.Runtime.Monad.{Env}
use realtime_ops_platform.Runtime.Keeps.{Keeps, keeps_rules}
use realtime_ops_platform.Reports.{Quiet, publish_incident_updated-Keeps, report_rules}
use realtime_ops_platform.Jobs.Rows.{ProcessJobInput}
use realtime_ops_platform.Jobs.Processor.{
  report_completed, log_incident, announce_incident, report_failure, escalate, mark_completed,
  mark_failed, finish, attempt_job, attempt_found, attempt_message,
}

module _ {P : List Call → Type 0} (q : Quiet P) (env : Env) where
  pub report_completed-Keeps :
      (job : JobEntity) (attempt : ProcessingAttemptEntity) (finished_at : ℕ)
      → Keeps P (report_completed env job attempt finished_at)
  unfolding report_completed
  report_completed-Keeps job attempt finished_at = search (keeps_rules, report_rules) depth 12

  log_incident-Keeps :
      (incident : Option IncidentEntity) (alert : AlertEntity)
      → Keeps P (log_incident env incident alert)
  unfolding log_incident
  log_incident-Keeps none alert = search keeps_rules
  log_incident-Keeps (some incident) alert = search (keeps_rules, report_rules)

  announce_incident-Keeps :
      (incident : Option IncidentEntity) → Keeps P (announce_incident env incident)
  unfolding announce_incident
  announce_incident-Keeps none = search keeps_rules
  announce_incident-Keeps (some incident) = publish_incident_updated-Keeps q env _

  pub report_failure-Keeps :
      (job : JobEntity) (attempt : ProcessingAttemptEntity) (message : String) (finished_at : ℕ)
      (alert : AlertEntity) (incident : Option IncidentEntity)
      → Keeps P (report_failure env job attempt message finished_at alert incident)
  unfolding report_failure
  report_failure-Keeps job attempt message finished_at alert incident =
      search (keeps_rules, report_rules, log_incident-Keeps, announce_incident-Keeps) depth 20

pub ruleset reporting = (report_completed-Keeps, report_failure-Keeps)

-- What the calls of the `try` block keep.
pub record Untouched (P : List Call → Type 0) : Type 0 where
  pub quiet : Quiet P
  pub sleeping : (ms : ℕ) (h : List Call) → P h → P (sleep ms ∷ h)
  pub find : (id : String) (h : List Call) → P h → P (job_find_one id ∷ h)
  pub save_job : (job : JobEntity) (h : List Call) → P h → P (job_save job ∷ h)
  pub new_attempt : (a : AttemptColumns) (h : List Call) → P h → P (attempt_insert a ∷ h)
  pub save_attempt : (a : ProcessingAttemptEntity) (h : List Call) → P h → P (attempt_save a ∷ h)
  pub new_alert : (a : AlertColumns) (h : List Call) → P h → P (alert_insert a ∷ h)
  pub new_incident : (i : IncidentColumns) (h : List Call) → P h → P (incident_insert i ∷ h)

module _ {P : List Call → Type 0} (u : Untouched P) (env : Env) where
  escalate-Keeps :
      (job : JobEntity) (alert : AlertEntity) (severity : AlertSeverity) (message : String)
      → Keeps P (escalate env job alert severity message)
  unfolding escalate
  escalate-Keeps job alert severity message = search (keeps_rules, u.new_incident) depth 8

  finish-Keeps :
      (job : JobEntity) (attempt : ProcessingAttemptEntity) (failure : Option String)
      → Keeps P (finish env job attempt failure)
  unfolding finish mark_completed mark_failed
  finish-Keeps job attempt none =
      search (keeps_rules, reporting, u.quiet, u.quiet.clock, u.save_attempt, u.save_job) depth 12
  finish-Keeps job attempt (some message) =
      search
        (
          keeps_rules, reporting, u.quiet, u.quiet.clock, u.save_attempt, u.save_job, u.new_alert,
          escalate-Keeps,
        )
        depth 12

  attempt_job-Keeps :
      (input : ProcessJobInput) (job : JobEntity) → Keeps P (attempt_job env input job)
  unfolding attempt_job
  attempt_job-Keeps input job =
      search
        (
          keeps_rules, report_rules, u.quiet, u.quiet.clock, u.save_job, u.new_attempt, u.sleeping,
          finish-Keeps,
        )
        depth 15

  attempt_found-Keeps :
      (input : ProcessJobInput) (found : Option JobEntity) → Keeps P (attempt_found env input found)
  unfolding attempt_found
  attempt_found-Keeps input none = search keeps_rules
  attempt_found-Keeps input (some job) = attempt_job-Keeps input job

  pub attempt_message-Keeps : (input : ProcessJobInput) → Keeps P (attempt_message env input)
  unfolding attempt_message
  attempt_message-Keeps input = search (keeps_rules, u.find, attempt_found-Keeps)

-- ===== src/Jobs/Processor/Returning.antt =====
-- job-processor.service.ts and job.service.ts: their actions return, where every call is answered.
use realtime_ops_platform.Prelude.{ℕ, String, Bool, true, false, Option, none, some, List, ◌≡◌}
use realtime_ops_platform.Core.Enums.{AlertSeverity}
use realtime_ops_platform.Core.Entities.{
  JobEntity, ProcessingAttemptEntity, AlertEntity, IncidentEntity,
}
use realtime_ops_platform.Runtime.Calls.{Call, job_find_one}
use realtime_ops_platform.Runtime.Observe.{saved_jobs, attempt_statuses}
use realtime_ops_platform.Jobs.Processor.Outcome.{Settled}
use realtime_ops_platform.Jobs.Processor.Writes.{Loads, process_settles}
use realtime_ops_platform.Runtime.Monad.{Env, ok}
use realtime_ops_platform.Runtime.Returns.{
  Works, Returns, Returns-pure, Returns-call, Returns-bind, Returns-if, Returns-try_finally,
}
use realtime_ops_platform.Reports.Returning.{
  returning_rules, acquire_lock-Returns, release_lock-Returns,
}
use realtime_ops_platform.Jobs.Rows.{ProcessJobInput, lock_key}
use realtime_ops_platform.Jobs.Service.{CreateJobInput, create, requeue}
use realtime_ops_platform.Jobs.Processor.{
  report_completed, mark_completed, escalate, log_incident, announce_incident, report_failure,
  mark_failed, finish, attempt_job, attempt_found, attempt_message, process_locked, process,
}

module _ {env : Env} (w : Works env) where
  report_completed-Returns :
      (job : JobEntity) (attempt : ProcessingAttemptEntity) (t : ℕ)
      → Returns (report_completed env job attempt t)
  unfolding report_completed
  report_completed-Returns job attempt t = search (returning_rules, w) depth 12

  mark_completed-Returns :
      (job : JobEntity) (attempt : ProcessingAttemptEntity)
      → Returns (mark_completed env job attempt)
  unfolding mark_completed
  mark_completed-Returns job attempt =
      search (returning_rules, w, report_completed-Returns) depth 12

  log_incident-Returns :
      (incident : Option IncidentEntity) (alert : AlertEntity)
      → Returns (log_incident env incident alert)
  unfolding log_incident
  log_incident-Returns none alert = Returns-pure tt
  log_incident-Returns (some incident) alert = search (returning_rules, w) depth 12

  announce_incident-Returns :
      (incident : Option IncidentEntity) → Returns (announce_incident env incident)
  unfolding announce_incident
  announce_incident-Returns none = Returns-pure tt
  announce_incident-Returns (some incident) = search (returning_rules, w) depth 12

  escalate-Returns :
      (job : JobEntity) (alert : AlertEntity) (severity : AlertSeverity) (message : String)
      → Returns (escalate env job alert severity message)
  unfolding escalate
  escalate-Returns job alert severity message = search (returning_rules, w, Returns-if) depth 8

  report_failure-Returns :
      (job : JobEntity) (attempt : ProcessingAttemptEntity) (message : String) (t : ℕ)
      (alert : AlertEntity) (incident : Option IncidentEntity)
      → Returns (report_failure env job attempt message t alert incident)
  unfolding report_failure
  report_failure-Returns job attempt message t alert incident =
      search (returning_rules, w, log_incident-Returns, announce_incident-Returns) depth 20

  mark_failed-Returns :
      (job : JobEntity) (attempt : ProcessingAttemptEntity) (message : String)
      → Returns (mark_failed env job attempt message)
  unfolding mark_failed
  mark_failed-Returns job attempt message =
      search (returning_rules, w, escalate-Returns, report_failure-Returns) depth 14

  finish-Returns :
      (job : JobEntity) (attempt : ProcessingAttemptEntity) (failure : Option String)
      → Returns (finish env job attempt failure)
  unfolding finish
  finish-Returns job attempt none = mark_completed-Returns job attempt
  finish-Returns job attempt (some message) = mark_failed-Returns job attempt message

  attempt_job-Returns :
      (input : ProcessJobInput) (found : JobEntity) → Returns (attempt_job env input found)
  unfolding attempt_job
  attempt_job-Returns input found = search (returning_rules, w, finish-Returns) depth 20

  attempt_found-Returns :
      (input : ProcessJobInput) (found : Option JobEntity) → Returns (attempt_found env input found)
  unfolding attempt_found
  attempt_found-Returns input none = Returns-pure tt
  attempt_found-Returns input (some job) = attempt_job-Returns input job

  process_locked-Returns :
      (input : ProcessJobInput) (acquired : Bool) → Returns (process_locked env input acquired)
  unfolding process_locked attempt_message
  process_locked-Returns input false = Returns-pure tt
  process_locked-Returns input true =
      Returns-try_finally _ _
        (Returns-bind _ _ (attempt_found-Returns input)
          (Returns-call w (job_find_one input.job_id)))
        (release_lock-Returns w (lock_key input.job_id))

  pub process-Returns : (input : ProcessJobInput) → Returns (process env input)
  unfolding process
  process-Returns input =
      Returns-bind _ _ (process_locked-Returns input)
        (acquire_lock-Returns w (lock_key input.job_id) 60)

  -- Where every call is answered, `process` returns for a job whose lock it is granted and that it
  -- finds, whatever else is answered, and has then written the job as completed or as failed, and its
  -- attempt as succeeded or as failed.
  pub process_finishes :
      (input : ProcessJobInput) (h : List Call) {found : JobEntity}
      → Loads env input h found
      → ((process env input h).0 ≡ ok tt)
        × Settled found (saved_jobs h) (attempt_statuses h) (process env input h).1
  process_finishes input h l =
      let (_, e) = (process-Returns input).at h in (e, process_settles env input h l e)

  pub create-Returns : (input : CreateJobInput) → Returns (create env input)
  unfolding create
  create-Returns input = search (returning_rules, w) depth 20

  pub requeue-Returns :
      (job : JobEntity) (operator_id : String) → Returns (requeue env job operator_id)
  unfolding requeue
  requeue-Returns job operator_id = search (returning_rules, w) depth 20

-- ===== src/Tests/Worker.antt =====
-- The theorems about the processor and the consumer, at sample rows.
use realtime_ops_platform.Prelude.{String, List, [], ◌++◌, ◌≡◌, ◌≢◌, refl, true, some}
use realtime_ops_platform.Core.Enums.{JobStatus}
use realtime_ops_platform.Core.Value.{obj, get, end}
use realtime_ops_platform.Core.Entities.{JobEntity}
use realtime_ops_platform.Jobs.Processor.Stranding.{Stranded, process_strands}
use realtime_ops_platform.Runtime.Calls.{Call, Answer, audit_insert}
use realtime_ops_platform.Runtime.Monad.{Exception, Outcome, rejected, err, Env, ok, ◌>>=◌}
use realtime_ops_platform.Runtime.Observe.{settlements, lock_calls}
use realtime_ops_platform.Events.{
  publish_job_processing, publish_job_completed, publish_job_failed, publish_alert_raised,
  publish_incident_updated, publish_notification_created,
}
use realtime_ops_platform.Records.{log, create_notification, acquire_lock, release_lock}
use realtime_ops_platform.Jobs.Lifecycle.{Attempts}
use realtime_ops_platform.Jobs.Rows.{ProcessJobInput, evaluate_failure}
use realtime_ops_platform.Jobs.Processor.{
  process, process_locked, attempt_message, attempt_found, attempt_job, finish, mark_completed,
  mark_failed, report_completed, escalate, log_incident, announce_incident, report_failure,
}
use realtime_ops_platform.Jobs.Processor.Locking.{locked_calls, bracketed, process_lock}
use realtime_ops_platform.Jobs.Processor.Outcome.{failure_of}
use realtime_ops_platform.Jobs.Processor.Escalation.{Escalated}
use realtime_ops_platform.Jobs.Processor.Writes.{Loads, process_writes, process_escalates}
use realtime_ops_platform.Consumer.{handle, on_message}
use realtime_ops_platform.Consumer.Settlement.{settled_by, handled, on_message_settles}
use realtime_ops_platform.Tests.Samples.{sample_job, with_job}

-- a job that fails its last attempt
abbrev doomed : JobEntity
doomed = sample_job JobStatus.queued 2 true

abbrev worker : Env
worker = with_job doomed

abbrev message : ProcessJobInput
message = record { job_id = "job-1"; reason = "created"; requested_by = "op-7" }

process_lock_example :
    ((process worker message []).1 ≡ locked_calls worker message [])
    × (lock_calls (process worker message []).1 ≡ bracketed worker message [])
process_lock_example = process_lock worker message []

process_writes_example : Attempts (ok (some doomed)) [] (process worker message []).1
process_writes_example = process_writes worker message []

doomed-Loads : Loads worker message [] doomed
doomed-Loads = record { client = refl; lock = refl; job = refl }

doomed_run : (process worker message []).0 ≡ ok tt
unfolding process process_locked acquire_lock release_lock attempt_message attempt_found attempt_job
    finish evaluate_failure get mark_completed mark_failed report_completed escalate log_incident
    announce_incident report_failure log create_notification publish_job_processing
    publish_job_completed publish_job_failed publish_alert_raised publish_incident_updated
    publish_notification_created ◌>>=◌
doomed_run = refl

process_escalates_example :
    Escalated worker doomed 3 [] [] (failure_of doomed) (process worker message []).1
process_escalates_example = process_escalates worker message [] doomed-Loads doomed_run

on_message_settles_example :
    settlements (on_message worker (handle worker) (some (ok (obj end))) []).1
    ≡ settled_by (handled worker (ok (obj end)) []).0 (ok tt) ++ []
on_message_settles_example = on_message_settles worker (ok (obj end)) []

abbrev sample_id : String
sample_id = "job-1"

sample_id-nonempty : sample_id ≢ ""
sample_id-nonempty e = absurd (cc)

-- the worker whose audit log is out of order
abbrev unaudited : List Call → (c : Call) → Outcome (Answer c)
unaudited h (audit_insert a) = err (rejected "read-only")
unaudited h c = worker.answer h c

abbrev unaudited_worker : Env
unaudited_worker = record {
  answer = unaudited;
  clock = worker.clock;
  has_channel = true;
  has_client = true;
}

unaudited-Loads : Loads unaudited_worker message [] doomed
unaudited-Loads = record { client = refl; lock = refl; job = refl }

process_strands_example :
    Stranded doomed [] (process unaudited_worker message []).1
    × ((e : Exception) × ((process unaudited_worker message []).0 ≡ err e))
process_strands_example =
    process_strands unaudited_worker message [] (rejected "read-only") unaudited-Loads (λ a g. refl)

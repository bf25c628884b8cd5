-- ===== src/Tests/Jobs.antt =====
-- The theorems about the job service, at sample rows.
use realtime_ops_platform.Prelude.{String, List, arith, [], ◌∷◌, ◌≡◌, refl, some, true, false}
use realtime_ops_platform.Core.Enums.{JobStatus, completed}
use realtime_ops_platform.Core.Value.{end}
use realtime_ops_platform.Core.Entities.{JobEntity}
use realtime_ops_platform.Runtime.Calls.{
  Call, Answer, job_find_one, job_insert, job_save, operator_action_insert,
}
use realtime_ops_platform.Runtime.Monad.{
  Env, Exception, Outcome, rejected, ok, err, bad_request, ◌>>=◌,
}
use realtime_ops_platform.Runtime.Observe.{saved_jobs, queue_messages, topics}
use realtime_ops_platform.Messaging.{publish_to_queue}
use realtime_ops_platform.Events.{publish_job_created, publish_notification_created}
use realtime_ops_platform.Records.{log, create_notification}
use realtime_ops_platform.Jobs.Lifecycle.{Follows}
use realtime_ops_platform.Jobs.Service.{
  CreateJobInput, create, retry, requeue, get_by_id, requeued, job_message,
}
use realtime_ops_platform.Jobs.Service.Retry.{
  IsEligible, retry_writes, retry_refuses, retry_returns,
}
use realtime_ops_platform.Jobs.Service.Stranding.{requests_strand}
use realtime_ops_platform.Tests.Samples.{sample_job, with_job}

abbrev retried : Env
retried = with_job (sample_job JobStatus.failed 1 true)

retry_writes_example :
    Follows (retried.answer [] (job_find_one "job-1")) [] (retry retried "job-1" "op-7" []).1
retry_writes_example = retry_writes retried "job-1" "op-7" []

abbrev finished : JobEntity
finished = sample_job completed 1 false

finished-not-IsEligible : ¬ IsEligible finished
finished-not-IsEligible v = absurd (let e = v.has_failed in cc)

retry_refuses_example :
    ((message : String) × ((retry (with_job finished) "job-1" "op-7" []).0
        ≡ err (bad_request message)))
    × ((retry (with_job finished) "job-1" "op-7" []).1 ≡ job_find_one "job-1" ∷ [])
retry_refuses_example =
    retry_refuses (with_job finished) "job-1" "op-7" [] {job = finished} refl
      finished-not-IsEligible

retry_run : (retry retried "job-1" "op-7" []).0 ≡ ok (requeued (sample_job JobStatus.failed 1 true))
unfolding retry get_by_id requeue log create_notification publish_to_queue publish_job_created
    publish_notification_created ◌>>=◌
retry_run = refl

retry_returns_example :
    (job : JobEntity) × (retried.answer [] (job_find_one "job-1") ≡ ok (some job))
    × IsEligible job
    × (saved_jobs (retry retried "job-1" "op-7" []).1 ≡ requeued job ∷ [])
    × (queue_messages (retry retried "job-1" "op-7" []).1
        ≡ ("jobs.processing", job_message "job-1" "retry" "op-7") ∷ [])
    × (topics (retry retried "job-1" "op-7" []).1 ≡ "notification.created" ∷ "job.created" ∷ [])
retry_returns_example = retry_returns retried "job-1" "op-7" [] retry_run

abbrev wanted : CreateJobInput
wanted = record {
  name = "sync-feed";
  type = "sync";
  payload = end;
  priority = 5;
  max_attempts = 3;
  operator_id = "op-7";
}

abbrev created : JobEntity
created = record (sample_job JobStatus.queued 0 false) { payload = end }

abbrev failed_once : JobEntity
failed_once = sample_job JobStatus.failed 1 true

-- the row that was written last, or one that failed once
abbrev last_row : List Call → JobEntity
last_row [] = failed_once
last_row (job_insert columns ∷ h) = created
last_row (job_save job ∷ h) = job
last_row (_ ∷ h) = last_row h

-- the database refuses to insert actions, and finds what was written last
abbrev read_only : Exception
read_only = rejected "read-only"

abbrev refusing : List Call → (c : Call) → Outcome (Answer c)
refusing h (operator_action_insert a) = err read_only
refusing h (job_find_one job_id) = ok (some (last_row h))
refusing h c = retried.answer h c

abbrev refusing_env : Env
refusing_env = record {
  answer = refusing;
  clock = retried.clock;
  has_channel = true;
  has_client = true;
}

failed_once-IsEligible : IsEligible failed_once
failed_once-IsEligible = record { has_failed = refl; has_attempts = omega arith }

refound_created :
    refusing_env.answer (create refusing_env wanted []).1 (job_find_one created.id)
    ≡ ok (some created)
unfolding create ◌>>=◌
refound_created = refl

refound_saved :
    refusing_env.answer (retry refusing_env "job-1" "op-7" []).1 (job_find_one "job-1")
    ≡ ok (some (requeued failed_once))
unfolding retry get_by_id requeue ◌>>=◌
refound_saved = refl

requests_strand_example :
    ((create refusing_env wanted []).0 ≡ err read_only)
    × (queue_messages (create refusing_env wanted []).1 ≡ [])
    × (created.status ≡ JobStatus.queued)
    × ((message : String) × ((retry refusing_env "job-1" "op-9" (create refusing_env wanted []).1).0
          ≡ err (bad_request message)))
    × ((retry refusing_env "job-1" wanted.operator_id []).0 ≡ err read_only)
    × (queue_messages (retry refusing_env "job-1" wanted.operator_id []).1 ≡ [])
    × ((requeued failed_once).status ≡ JobStatus.queued)
    × ((message : String) × ((retry refusing_env "job-1" "op-9"
            (retry refusing_env "job-1" wanted.operator_id []).1).0
          ≡ err (bad_request message)))
requests_strand_example =
    requests_strand refusing_env read_only [] wanted "job-1" {created = created} (λ a g e. refl)
      refl refl (refound_created) refl failed_once-IsEligible refl refl (refound_saved) "op-9"

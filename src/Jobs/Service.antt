-- ===== src/Jobs/Service.antt =====
-- libs/application/src/jobs/job.service.ts: `create`, `getById`, `getStatus` and `retry`.
pub mod Retry
pub mod Create
pub mod Stranding
pub mod Accounts
use Prim.Native.String
use realtime_ops_platform.Prelude.{ℕ, String, true, not, leb, Option, none, some, List}
use realtime_ops_platform.Core.Enums.{
  JobStatus, queued, is_failed, job_status_text, AuditActorType, EntityType, job_status,
  notification_type_text,
}
use realtime_ops_platform.Core.Value.{Fields, end, field, str, int, iso, bool}
use realtime_ops_platform.Core.Entities.{
  JobColumns, JobEntity, ProcessingAttemptEntity, NotificationEntity,
}
use realtime_ops_platform.Runtime.Calls.{
  job_insert, job_save, job_find_one, attempt_find, operator_action_insert,
}
use realtime_ops_platform.Runtime.Monad.{
  Env, M, bad_request, not_found, pure, ◌>>=◌, ◌>>◌, call, or_throw, throw_if,
}
use realtime_ops_platform.Messaging.{jobs_processing, publish_to_queue}
use realtime_ops_platform.Events.{publish_job_created, publish_notification_created}
use realtime_ops_platform.Records.{log, create_notification}

pub record CreateJobInput : Type 0 where
  pub name : String
  pub type : String
  pub payload : Fields
  pub priority : ℕ
  pub max_attempts : ℕ
  pub operator_id : String

pub record StatusView : Type 0 where
  pub job_id : String
  pub status : JobStatus
  pub attempt_count : ℕ
  pub max_attempts : ℕ
  pub last_error : Option String
  pub started_at : Option ℕ
  pub completed_at : Option ℕ
  pub attempts : List ProcessingAttemptEntity

-- the row that `create` inserts
abbrev pub new_job : CreateJobInput → JobColumns
new_job input = record {
  name = input.name;
  type = input.type;
  payload = input.payload;
  priority = input.priority;
  max_attempts = input.max_attempts;
  status = queued;
  attempt_count = 0;
  last_error = none;
  started_at = none;
  completed_at = none;
}

-- the payload of `notification.created`, the same in each service
abbrev pub notification_event : NotificationEntity → Fields
notification_event notification = field "notificationId" (str notification.id) (
    field "type" (str (notification_type_text notification.type)) (
      field "message" (str notification.message)
        (field "createdAt" (iso notification.created_at) end)))

-- the message of the `jobs.processing` queue
abbrev pub job_message : String → String → String → Fields
job_message job_id reason requested_by =
    field "jobId" (str job_id)
      (field "reason" (str reason) (field "requestedBy" (str requested_by) end))

-- the fields that `job.created` has in `create` and in `retry`, and the last one
abbrev job_event : JobEntity → Fields → Fields
job_event job last = field "jobId" (str job.id) (
    field "name" (str job.name) (
      field "type" (str job.type) (
        field "status" (str (job_status_text job.status))
          (field "priority" (int job.priority) last))))

abbrev status_metadata : JobEntity → Fields
status_metadata job =
    field "jobId" (str job.id) (field "status" (str (job_status_text job.status)) end)

-- `job` as `retry` sets it before it saves it
abbrev pub requeued : JobEntity → JobEntity
requeued job = record job {
  status = queued;
  last_error = none;
  started_at = none;
  completed_at = none;
}

module _ (env : Env) where
  unfoldable pub create : CreateJobInput → M JobEntity
  create input = do
    job ← call env (job_insert (new_job input))
    call env (
        operator_action_insert (record {
          operator_id = input.operator_id;
          action = "job.create";
          target_type = EntityType.job;
          target_id = some job.id;
          payload = field "type" (str job.type) (field "priority" (int job.priority) end);
        }))
    log env (record {
      actor_type = AuditActorType.operator;
      actor_id = some input.operator_id;
      action = "job.created";
      entity_type = EntityType.job;
      entity_id = some job.id;
      metadata =
          field "type" (str job.type)
            (field "priority" (int job.priority) (field "maxAttempts" (int job.max_attempts) end));
    })
    notification ←
        create_notification env job_status (String.◌++◌ "Job " (String.◌++◌ job.name " queued"))
          (status_metadata job)
    publish_to_queue env jobs_processing (job_message job.id "created" input.operator_id)
    publish_job_created env (job_event job (field "createdAt" (iso job.created_at) end))
    publish_notification_created env (notification_event notification)
    pure job

  unfoldable pub get_by_id : String → M JobEntity
  get_by_id job_id = do
    found ← call env (job_find_one job_id)
    or_throw found (not_found (String.◌++◌ "Job " (String.◌++◌ job_id " not found")))

  unfoldable pub get_status : String → M StatusView
  unfolding get_by_id
  get_status job_id = do
    job ← get_by_id job_id
    attempts ← call env (attempt_find job_id)
    pure (record {
      job_id = job.id;
      status = job.status;
      attempt_count = job.attempt_count;
      max_attempts = job.max_attempts;
      last_error = job.last_error;
      started_at = job.started_at;
      completed_at = job.completed_at;
      attempts = attempts;
    })

  -- what `retry` does after its two guards
  unfoldable pub requeue : JobEntity → String → M JobEntity
  requeue job operator_id = do
    updated ← call env (job_save (requeued job))
    call env (
        operator_action_insert (record {
          operator_id = operator_id;
          action = "job.retry";
          target_type = EntityType.job;
          target_id = some updated.id;
          payload =
              field "currentAttemptCount" (int updated.attempt_count)
                (field "maxAttempts" (int updated.max_attempts) end);
        }))
    log env (record {
      actor_type = AuditActorType.operator;
      actor_id = some operator_id;
      action = "job.retried";
      entity_type = EntityType.job;
      entity_id = some updated.id;
      metadata =
          field "attemptCount" (int updated.attempt_count)
            (field "maxAttempts" (int updated.max_attempts) end);
    })
    notification ←
        create_notification env job_status
          (String.◌++◌ "Job " (String.◌++◌ updated.name " queued for retry"))
          (status_metadata updated)
    publish_to_queue env jobs_processing (job_message updated.id "retry" operator_id)
    publish_job_created env (job_event updated (field "retried" (bool true) end))
    publish_notification_created env (notification_event notification)
    pure updated

  unfoldable pub retry : String → String → M JobEntity
  unfolding get_by_id
  retry job_id operator_id = do
    job ← get_by_id job_id
    throw_if (not (is_failed job.status)) (bad_request "Only failed jobs can be retried")
    throw_if (leb job.max_attempts job.attempt_count)
        (bad_request "Job reached maximum retry attempts")
    requeue job operator_id

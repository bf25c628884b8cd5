-- ===== src/Jobs/Service/Stranding.antt =====
-- What `create` and `retry` of job.service.ts leave where the operator's action cannot be inserted, such
-- as for an operator whose name is wider than its column.
use realtime_ops_platform.Prelude.{◌∙◌, ap, String, List, ◌∷◌, ◌≡◌, refl, some, arith}
use realtime_ops_platform.Core.Enums.{EntityType, JobStatus}
use realtime_ops_platform.Core.Value.{end, field, str, int}
use realtime_ops_platform.Core.Entities.{JobEntity, OperatorActionColumns}
use realtime_ops_platform.Runtime.Calls.{
  Call, job_find_one, job_insert, job_save, operator_action_insert,
}
use realtime_ops_platform.Runtime.Monad.{Env, Exception, ok, err, bad_request, ◌>>=◌}
use realtime_ops_platform.Runtime.Observe.{queue_messages}
use realtime_ops_platform.Jobs.Service.{CreateJobInput, new_job, create, retry, requeue, requeued}
use realtime_ops_platform.Jobs.Service.Retry.{IsEligible, retry_eligible, retry_refuses}

-- the actions of this operator cannot be inserted
abbrev pub ActionsFail : Env → String → Exception → Type 0
ActionsFail env operator_id x =
    (a : OperatorActionColumns) (g : List Call)
    → a.operator_id ≡ operator_id
    → env.answer g (operator_action_insert a) ≡ err x

abbrev pub create_action : CreateJobInput → JobEntity → OperatorActionColumns
create_action input job = record {
  operator_id = input.operator_id;
  action = "job.create";
  target_type = EntityType.job;
  target_id = some job.id;
  payload = field "type" (str job.type) (field "priority" (int job.priority) end);
}

abbrev pub retry_action : String → JobEntity → OperatorActionColumns
retry_action operator_id job = record {
  operator_id = operator_id;
  action = "job.retry";
  target_type = EntityType.job;
  target_id = some job.id;
  payload =
      field "currentAttemptCount" (int job.attempt_count)
        (field "maxAttempts" (int job.max_attempts) end);
}

module _ (env : Env) (x : Exception) (h : List Call) where
  requeue_strands :
      (job saved : JobEntity) (operator_id : String) (g : List Call)
      → ActionsFail env operator_id x
      → env.answer g (job_save (requeued job)) ≡ ok saved
      → requeue env job operator_id g ≡ (
        err x,
        operator_action_insert (retry_action operator_id saved) ∷ job_save (requeued job) ∷ g,
      )
  unfolding requeue ◌>>=◌
  requeue_strands job saved operator_id g fails saves =
      let refused = fails (retry_action operator_id saved) (job_save (requeued job) ∷ g) refl in
      ground (arith, saves, refused)

  create_strands :
      (input : CreateJobInput) {created : JobEntity}
      → ActionsFail env input.operator_id x
      → env.answer h (job_insert (new_job input)) ≡ ok created
      → create env input h ≡ (
        err x,
        operator_action_insert (create_action input created) ∷ job_insert (new_job input) ∷ h,
      )
  unfolding create ◌>>=◌
  create_strands input {created} fails inserts =
      let refused = fails (create_action input created) (job_insert (new_job input) ∷ h) refl in
      ground (arith, inserts, refused)

  -- a job that is queued is refused by every retry
  queued_refused :
      (job_id : String) (g : List Call) {job : JobEntity}
      → env.answer g (job_find_one job_id) ≡ ok (some job)
      → job.status ≡ JobStatus.queued
      → (operator_id : String)
      → (message : String) × ((retry env job_id operator_id g).0 ≡ err (bad_request message))
  queued_refused job_id g found queued operator_id =
      (retry_refuses env job_id operator_id g found (λ v. absurd (let f = v.has_failed in cc))).0

  -- The actions of an operator cannot be inserted, and the database stores the status that it is given
  -- and finds a job as it was stored. Then `create` throws after it has inserted the job, and `retry`
  -- throws for a job that may be retried after it has written it. Neither has sent a message; the job is
  -- queued in both cases; and whoever retries it afterwards is refused with a 400.
  pub requests_strand :
      (input : CreateJobInput) (job_id : String) {created job saved : JobEntity}
      → ActionsFail env input.operator_id x
      → env.answer h (job_insert (new_job input)) ≡ ok created
      → created.status ≡ (new_job input).status
      → env.answer (create env input h).1 (job_find_one created.id) ≡ ok (some created)
      → env.answer h (job_find_one job_id) ≡ ok (some job)
      → IsEligible job
      → env.answer (job_find_one job_id ∷ h) (job_save (requeued job)) ≡ ok saved
      → saved.status ≡ (requeued job).status
      → env.answer (retry env job_id input.operator_id h).1 (job_find_one job_id) ≡ ok (some saved)
      → (again : String)
      → ((create env input h).0 ≡ err x)
        × (queue_messages (create env input h).1 ≡ queue_messages h)
        × (created.status ≡ JobStatus.queued)
        × ((message : String) × ((retry env created.id again (create env input h).1).0
              ≡ err (bad_request message)))
        × ((retry env job_id input.operator_id h).0 ≡ err x)
        × (queue_messages (retry env job_id input.operator_id h).1 ≡ queue_messages h)
        × (saved.status ≡ JobStatus.queued)
        × ((message : String) × ((retry env job_id again (retry env job_id input.operator_id h).1).0
              ≡ err (bad_request message)))
  requests_strand input job_id {created} {job} {saved} fails inserts kept found finds eligible saves
        written refound again =
      let first = create_strands input fails inserts in
      let second =
        retry_eligible env job_id input.operator_id h finds eligible
        ∙ requeue_strands job saved input.operator_id (job_find_one job_id ∷ h) fails saves in
      (
        ap (λ r. r.0) first,
        ap (λ r. queue_messages r.1) first,
        kept,
        queued_refused created.id (create env input h).1 found kept again,
        ap (λ r. r.0) second,
        ap (λ r. queue_messages r.1) second,
        written,
        queued_refused job_id (retry env job_id input.operator_id h).1 refound written again,
      )

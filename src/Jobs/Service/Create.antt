-- ===== src/Jobs/Service/Create.antt =====
-- `create` of job.service.ts: what it writes and what it sends.
use realtime_ops_platform.Prelude.{List, ◌∷◌, ◌≡◌, ◌⊎◌, inl, inr, arith}
use realtime_ops_platform.Core.Entities.{JobEntity}
use realtime_ops_platform.Runtime.Calls.{Call, job_insert}
use realtime_ops_platform.Runtime.Monad.{Env, ok, ◌>>=◌}
use realtime_ops_platform.Runtime.Observe.{queue_messages, topics}
use realtime_ops_platform.Runtime.Triple.{outcome_cases}
use realtime_ops_platform.Messaging.{jobs_processing, publish_to_queue}
use realtime_ops_platform.Events.{publish_job_created, publish_notification_created}
use realtime_ops_platform.Records.{log, create_notification}
use realtime_ops_platform.Jobs.Service.{CreateJobInput, create, job_message, new_job}

module _ (env : Env) (input : CreateJobInput) (h : List Call) where
  -- When `create` returns a job, it is the database's answer to the insert of the new row, which is
  -- queued and has no attempt counted; one message was sent, to the processing queue and for that job,
  -- and the events `job.created` and `notification.created` in this order.
  pub create_returns :
      {job : JobEntity}
      → (create env input h).0 ≡ ok job
      → (env.answer h (job_insert (new_job input)) ≡ ok job)
        × (queue_messages (create env input h).1
            ≡ (jobs_processing, job_message job.id "created" input.operator_id) ∷ queue_messages h)
        × (topics (create env input h).1 ≡ "notification.created" ∷ "job.created" ∷ topics h)
  unfolding create log create_notification publish_to_queue publish_job_created
      publish_notification_created ◌>>=◌
  create_returns {job} r = ground arith

  create_sends_of :
      {job : JobEntity}
      → env.answer h (job_insert (new_job input)) ≡ ok job
      → (queue_messages (create env input h).1 ≡ queue_messages h)
        ⊎ (queue_messages (create env input h).1
            ≡ (jobs_processing, job_message job.id "created" input.operator_id) ∷ queue_messages h)
  unfolding create log create_notification publish_to_queue publish_job_created
      publish_notification_created ◌>>=◌
  create_sends_of {job} e = ground arith

  -- Whether `create` returns or throws, it has sent no message, or one message for a job that the
  -- database had inserted.
  pub create_sends :
      (queue_messages (create env input h).1 ≡ queue_messages h)
      ⊎ ((job : JobEntity) × (env.answer h (job_insert (new_job input)) ≡ ok job)
          × (queue_messages (create env input h).1
              ≡ (jobs_processing, job_message job.id "created" input.operator_id)
                ∷ queue_messages h))
  unfolding create ◌>>=◌
  create_sends = elim (outcome_cases (env.answer h (job_insert (new_job input)))) [
    | inl (job, e) ↦ elim (create_sends_of e) [
      | inl same ↦ inl same
      | inr sent ↦ inr (job, e, sent)
    ]
    | inr (x, e) ↦ inl (ground arith)
  ]

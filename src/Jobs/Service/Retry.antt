-- ===== src/Jobs/Service/Retry.antt =====
-- `retry` of job.service.ts: its guards, what it writes and what it sends.
use realtime_ops_platform.Prelude.{
  ◌<◌, String, List, [], ◌∷◌, ◌≡◌, refl, sym, subst, ◌⊎◌, inl, inr, some, arith, leb, true, false,
}
use realtime_ops_platform.Core.Enums.{JobStatus, is_failed}
use realtime_ops_platform.Core.Entities.{JobEntity}
use realtime_ops_platform.Runtime.Calls.{Call, job_find_one}
use realtime_ops_platform.Runtime.Monad.{Env, bad_request, ok, err, ◌>>=◌}
use realtime_ops_platform.Runtime.Observe.{saved_jobs, queue_messages, topics}
use realtime_ops_platform.Runtime.Triple.{found_cases}
use realtime_ops_platform.Messaging.{jobs_processing, publish_to_queue}
use realtime_ops_platform.Events.{publish_job_created, publish_notification_created}
use realtime_ops_platform.Records.{log, create_notification}
use realtime_ops_platform.Jobs.Lifecycle.{SameJob-update, JobStep, requeues, Follows}
use realtime_ops_platform.Jobs.Service.{retry, requeue, requeued, get_by_id, job_message}

-- docs/domain-model.md: "Retry is allowed only when the current status is `failed` and
-- `attemptCount < maxAttempts`".
pub record IsEligible (job : JobEntity) : Type 0 where
  pub has_failed : job.status ≡ JobStatus.failed
  pub has_attempts : job.attempt_count < job.max_attempts

module _ (env : Env) (job_id operator_id : String) (h : List Call) where
  pub requeue_writes :
      (job : JobEntity) (g : List Call)
      → saved_jobs (requeue env job operator_id g).1 ≡ requeued job ∷ saved_jobs g
  unfolding requeue log create_notification publish_to_queue publish_job_created
      publish_notification_created ◌>>=◌
  requeue_writes job g = ground arith

  pub requeue_sends :
      (job updated : JobEntity) (g : List Call)
      → (requeue env job operator_id g).0 ≡ ok updated
      → (queue_messages (requeue env job operator_id g).1
          ≡ (jobs_processing, job_message updated.id "retry" operator_id) ∷ queue_messages g)
        × (topics (requeue env job operator_id g).1
            ≡ "notification.created" ∷ "job.created" ∷ topics g)
  unfolding requeue log create_notification publish_to_queue publish_job_created
      publish_notification_created ◌>>=◌
  requeue_sends job updated g e = ground arith

  IsEligible-JobStep : (job : JobEntity) → IsEligible job → JobStep job (requeued job)
  IsEligible-JobStep job v = requeues (record {
    same = SameJob-update job _ _ _ _ _;
    before = v.has_failed;
    eligible = v.has_attempts;
    status = refl;
    counted = refl;
    not_started = refl;
    not_completed = refl;
    no_error = refl;
  })

  IsEligible-cases :
      (job : JobEntity)
      → (IsEligible job
          × (is_failed job.status ≡ true)
          × (leb job.max_attempts job.attempt_count ≡ false))
        ⊎ (is_failed job.status ≡ false)
        ⊎ ((is_failed job.status ≡ true) × (leb job.max_attempts job.attempt_count ≡ true))
  IsEligible-cases job = ground arith

  pub retry_found :
      {job : JobEntity}
      → env.answer h (job_find_one job_id) ≡ ok (some job)
      → is_failed job.status ≡ true
      → leb job.max_attempts job.attempt_count ≡ false
      → retry env job_id operator_id h ≡ requeue env job operator_id (job_find_one job_id ∷ h)
  unfolding retry get_by_id ◌>>=◌
  retry_found e f m = ground arith

  pub retry_eligible :
      {job : JobEntity}
      → env.answer h (job_find_one job_id) ≡ ok (some job)
      → IsEligible job
      → retry env job_id operator_id h ≡ requeue env job operator_id (job_find_one job_id ∷ h)
  retry_eligible {job} e v = elim (IsEligible-cases job) [
    | inl (_, f, m) ↦ retry_found e f m
    | inr (inl f) ↦ absurd (let g = v.has_failed in ground (arith, f, g))
    | inr (inr (f, m)) ↦ absurd (let left = v.has_attempts in ground (arith, m, left))
  ]

  retry_writes_found :
      (job : JobEntity)
      → env.answer h (job_find_one job_id) ≡ ok (some job)
      → Follows (ok (some job)) (saved_jobs h) (retry env job_id operator_id h).1
  unfolding retry get_by_id ◌>>=◌
  retry_writes_found job e = elim (IsEligible-cases job) [
    | inl (v, f, m) ↦
        rw (retry_found e f m)
          (requeued job ∷ [], requeue_writes job _, (IsEligible-JobStep job v, tt))
    | inr (inl f) ↦ ([], ground arith, tt)
    | inr (inr (f, m)) ↦ ([], ground arith, tt)
  ]

  -- Whatever the environment answers, and whether `retry` returns or throws: if the job is found, the
  -- states of it that `retry` asks to write are a path of the lifecycle from it; if not, it writes no
  -- job.
  pub retry_writes :
      Follows (env.answer h (job_find_one job_id)) (saved_jobs h) (retry env job_id operator_id h).1
  unfolding retry get_by_id ◌>>=◌
  retry_writes = elim (found_cases (env.answer h (job_find_one job_id))) [
    | inl (job, e) ↦
        subst (λ o. Follows o (saved_jobs h) (retry env job_id operator_id h).1) (sym e)
          (retry_writes_found job e)
    | inr (inl e) ↦ ground arith
    | inr (inr (x, e)) ↦ ground arith
  ]

  -- A job that is found and may not be retried is refused with a 400, after the one call that looks
  -- it up: nothing is written and nothing is sent.
  pub retry_refuses :
      {job : JobEntity}
      → env.answer h (job_find_one job_id) ≡ ok (some job)
      → ¬ IsEligible job
      → ((message : String) × ((retry env job_id operator_id h).0 ≡ err (bad_request message)))
        × ((retry env job_id operator_id h).1 ≡ job_find_one job_id ∷ h)
  unfolding retry get_by_id ◌>>=◌
  retry_refuses {job} e v = elim (IsEligible-cases job) [
    | inl (w, _, _) ↦ absurd (v w)
    | inr (inl f) ↦ (("Only failed jobs can be retried", ground arith), ground arith)
    | inr (inr (f, m)) ↦ (("Job reached maximum retry attempts", ground arith), ground arith)
  ]

  -- When `retry` returns, the job was found and could be retried, it was written once, as requeued,
  -- and one message was sent, to the processing queue and for the job that is returned, and the two
  -- events `job.created` and `notification.created` in this order.
  pub retry_returns :
      {updated : JobEntity}
      → (retry env job_id operator_id h).0 ≡ ok updated
      → (job : JobEntity) × (env.answer h (job_find_one job_id) ≡ ok (some job))
        × IsEligible job
        × (saved_jobs (retry env job_id operator_id h).1 ≡ requeued job ∷ saved_jobs h)
        × (queue_messages (retry env job_id operator_id h).1
            ≡ (jobs_processing, job_message updated.id "retry" operator_id) ∷ queue_messages h)
        × (topics (retry env job_id operator_id h).1
            ≡ "notification.created" ∷ "job.created" ∷ topics h)
  unfolding retry get_by_id ◌>>=◌
  retry_returns {updated} r = elim (found_cases (env.answer h (job_find_one job_id))) [
    | inl (job, e) ↦ elim (IsEligible-cases job) [
      | inl (v, f, m) ↦
          let s =
            requeue_sends job updated (job_find_one job_id ∷ h)
              (ground (arith, retry_found e f m)) in
          (
            job,
            e,
            v,
            rw (retry_found e f m) (requeue_writes job _),
            rw (retry_found e f m) s.0,
            rw (retry_found e f m) s.1,
          )
      | inr (inl f) ↦ absurd (ground arith)
      | inr (inr (f, m)) ↦ absurd (ground arith)
    ]
    | inr (inl e) ↦ absurd (ground arith)
    | inr (inr (x, e)) ↦ absurd (ground arith)
  ]

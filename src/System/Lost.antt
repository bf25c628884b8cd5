-- ===== src/System/Lost.antt =====
-- A retry whose message is delivered while the lock of the job is held, by an attempt that is still
-- running (libs/application/src/jobs/job-processor.service.ts returns then, as for a job it has handled).
use realtime_ops_platform.Prelude.{
  ◌<◌, String, List, ◌∷◌, ◌≡◌, sym, subst, ◌∙◌, ap, none, eq_iff, arith,
}
use realtime_ops_platform.Core.Enums.{JobStatus}
use realtime_ops_platform.Core.Value.{Fields, get}
use realtime_ops_platform.Core.Entities.{JobEntity}
use realtime_ops_platform.Runtime.Calls.{Call, ack, redis_set_nx}
use realtime_ops_platform.Runtime.Monad.{Env, ok, err, bad_request, ◌>>=◌}
use realtime_ops_platform.Runtime.Observe.{queue_messages}
use realtime_ops_platform.Jobs.Service.{retry, requeued, job_message}
use realtime_ops_platform.Jobs.Service.Retry.{IsEligible, retry_refuses}
use realtime_ops_platform.Jobs.Rows.{lock_key}
use realtime_ops_platform.Jobs.Processor.{process, process_locked}
use realtime_ops_platform.Consumer.{
  property, to_input, read_message, process_input, handle, on_message,
}
use realtime_ops_platform.Records.{acquire_lock}
use realtime_ops_platform.System.{deliver, hand}
use realtime_ops_platform.System.Database.{current, Database}
use realtime_ops_platform.System.Delivery.{ack_returns, retry_lem}

module _ {env : Env} {stored : JobEntity} (db : Database env stored) where
  deliver_busy :
      (h : List Call) (queue reason operator_id : String) (rest : List (String × Fields))
      → queue_messages h ≡ (queue, job_message stored.id reason operator_id) ∷ rest
      → env.answer h (redis_set_nx (lock_key stored.id) "1" 60) ≡ ok none
      → deliver env h ≡ (ok tt, ack ∷ redis_set_nx (lock_key stored.id) "1" 60 ∷ h)
  unfolding deliver hand on_message handle read_message property to_input get process_input process
      process_locked acquire_lock ◌>>=◌
  deliver_busy h queue reason operator_id rest q busy = ground (
    arith,
    q,
    busy,
    db.works.client,
    eq_iff stored.id "",
    db.identified,
    ack_returns db (redis_set_nx (lock_key stored.id) "1" 60 ∷ h),
  )

  queued-not-IsEligible : (job : JobEntity) → ¬ IsEligible (requeued job)
  queued-not-IsEligible job v = absurd (let f = v.has_failed in cc)

  -- A failed job with attempts left is retried, and the message is delivered while the lock of the job is
  -- held. Both return, and the message is acknowledged after the one request for the lock; but the job
  -- is still queued as the retry left it, and every further retry is refused with a 400.
  pub retry_stays_queued :
      (h : List Call) (operator_id : String)
      → (current stored h).id ≡ stored.id
      → (current stored h).status ≡ JobStatus.failed
      → (current stored h).attempt_count < (current stored h).max_attempts
      → env.answer (retry env stored.id operator_id h).1 (redis_set_nx (lock_key stored.id) "1" 60)
        ≡ ok none
      → let g = (retry env stored.id operator_id h).1 in
        ((retry env stored.id operator_id h).0 ≡ ok (requeued (current stored h)))
        × (deliver env g ≡ (ok tt, ack ∷ redis_set_nx (lock_key stored.id) "1" 60 ∷ g))
        × (current stored (deliver env g).1 ≡ requeued (current stored h))
        × ((again : String)
            → (message : String) × ((retry env stored.id again (deliver env g).1).0
                ≡ err (bad_request message)))
  retry_stays_queued h operator_id same has_failed left busy =
      let (returned, after) = retry_lem db h operator_id same has_failed left in
      let g = (retry env stored.id operator_id h).1 in
      let run = deliver_busy g _ "retry" operator_id (queue_messages h) after.sent busy in
      let still : current stored (deliver env g).1 ≡ requeued (current stored h) =
        ap (λ r. current stored r.1) run ∙ after.written in
      (
        returned,
        run,
        still,
        λ again.
            (retry_refuses env stored.id again (deliver env g).1 (db.finds (deliver env g).1) (
              subst (λ job. ¬ IsEligible job) (sym still)
                (queued-not-IsEligible (current stored h)))).0,
      )

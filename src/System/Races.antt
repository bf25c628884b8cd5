-- ===== src/System/Races.antt =====
-- Two requests to retry one job (libs/application/src/jobs/job.service.ts), both of which have read the
-- job before either has written it.
use realtime_ops_platform.Prelude.{
  ℕ, ◌+◌, ◌<◌, ◌≤◌, String, List, ◌∷◌, ◌≡◌, refl, ◌∙◌, ap, true, false, not, leb, arith, length,
}
use realtime_ops_platform.Core.Enums.{JobStatus, is_failed}
use realtime_ops_platform.Core.Value.{get}
use realtime_ops_platform.Core.Entities.{JobEntity}
use realtime_ops_platform.Runtime.Calls.{Call, job_find_one}
use realtime_ops_platform.Runtime.Monad.{Env, M, ok, pure, bad_request, throw_if, ◌>>=◌, ◌>>◌}
use realtime_ops_platform.Runtime.Observe.{queue_messages, opened_incidents}
use realtime_ops_platform.Messaging.{jobs_processing}
use realtime_ops_platform.Jobs.Service.{retry, requeue, get_by_id, job_message}
use realtime_ops_platform.Jobs.Rows.{is_true, lock_key}
use realtime_ops_platform.System.{hand}
use realtime_ops_platform.System.Database.{current, is_held, Database}
use realtime_ops_platform.System.Delivery.{requeue_lem}
use realtime_ops_platform.System.Attempts.{
  Ended, Idle, Ended-Idle, hand-Ended, Retried-Idle, evaluate_failure-always,
}

module _ (env : Env) where
  -- `retry` up to its first write
  unfoldable pub retriable : String → M JobEntity
  retriable job_id = do
    job ← get_by_id env job_id
    throw_if (not (is_failed job.status)) (bad_request "Only failed jobs can be retried")
    throw_if (leb job.max_attempts job.attempt_count)
        (bad_request "Job reached maximum retry attempts")
    pure job

  -- `retry` is `retriable`, and then `requeue` of the job that it returns.
  retry_splits :
      (job_id operator_id : String) (h : List Call)
      → retry env job_id operator_id h ≡ (do job ← retriable job_id; requeue env job operator_id) h
  unfolding retry retriable ◌>>=◌
  retry_splits job_id operator_id h = ground arith

  -- two requests, which read the job one after the other, and then go on one after the other
  unfoldable pub raced_retries : String → String → String → M (Unit {0})
  raced_retries job_id first second = do
    mine ← retriable job_id
    theirs ← retriable job_id
    requeue env mine first
    requeue env theirs second
    pure tt

  -- the worker is handed the messages of both
  unfoldable pub both_handed : String → String → String → M (Unit {0})
  both_handed job_id first second = do
    hand env (job_message job_id "retry" first)
    hand env (job_message job_id "retry" second)

module _ {env : Env} {stored : JobEntity} (db : Database env stored) where
  retriable_run :
      (h : List Call)
      → (current stored h).status ≡ JobStatus.failed
      → leb (current stored h).max_attempts (current stored h).attempt_count ≡ false
      → retriable env stored.id h ≡ (ok (current stored h), job_find_one stored.id ∷ h)
  unfolding retriable get_by_id ◌>>=◌
  retriable_run h has_failed left = ground (arith, db.finds h, ap is_failed has_failed, left)

  raced_run :
      (h : List Call) (first second : String)
      → (current stored h).id ≡ stored.id
      → (current stored h).status ≡ JobStatus.failed
      → leb (current stored h).max_attempts (current stored h).attempt_count ≡ false
      → let job = current stored h in
        let g = (requeue env job first (job_find_one stored.id ∷ job_find_one stored.id ∷ h)).1 in
        raced_retries env stored.id first second h ≡ (ok tt, (requeue env job second g).1)
  unfolding raced_retries ◌>>=◌
  raced_run h first second same has_failed left =
      let job = current stored h in
      let finds = job_find_one stored.id ∷ job_find_one stored.id ∷ h in
      let (mine, _) = requeue_lem db job first finds same in
      let (theirs, _) = requeue_lem db job second (requeue env job first finds).1 same in
      ground (
        arith,
        retriable_run h has_failed left,
        retriable_run (job_find_one stored.id ∷ h) has_failed left,
        mine,
        theirs,
      )

  handed_run :
      (h : List Call) (first second : String)
      → (hand env (job_message stored.id "retry" first) h).0 ≡ ok tt
      → both_handed env stored.id first second h
        ≡ hand env
            (job_message stored.id "retry" second)
            (hand env (job_message stored.id "retry" first) h).1
  unfolding both_handed ◌>>=◌
  handed_run h first second e = ground (arith, e)

  -- what the two requests leave
  record Raced (n : ℕ) (first second : String) (h g : List Call) : Type 0 where
    idle : Idle env stored n g
    sent :
        queue_messages g
        ≡ (jobs_processing, job_message stored.id "retry" second)
          ∷ (jobs_processing, job_message stored.id "retry" first)
          ∷ queue_messages h
    incidents : opened_incidents g ≡ opened_incidents h

  raced_retries-Raced :
      (n : ℕ) (h : List Call) (first second : String)
      → Idle env stored n h
      → (current stored h).status ≡ JobStatus.failed
      → n < stored.max_attempts
      → ((raced_retries env stored.id first second h).0 ≡ ok tt)
        × Raced n first second h (raced_retries env stored.id first second h).1
  raced_retries-Raced n h first second w has_failed left =
      let job = current stored h in
      let finds = job_find_one stored.id ∷ job_find_one stored.id ∷ h in
      let (_, one) = requeue_lem db job first finds w.id in
      let (_, two) = requeue_lem db job second (requeue env job first finds).1 w.id in
      let over : leb job.max_attempts job.attempt_count ≡ false =
        ground (arith, w.counted, w.max_attempts, left) in
      rw (raced_run h first second w.id has_failed over) (
        refl,
        record {
          idle = Retried-Idle db n w (ap (is_held (lock_key stored.id)) one.locks ∙ w.released) two;
          sent =
              two.sent
              ∙ ap (λ q. (jobs_processing, job_message stored.id "retry" second) ∷ q) one.sent;
          incidents = two.incidents ∙ one.incidents;
        },
      )

  -- a failed attempt that is not before the last allowed one opens an incident
  opens_one :
      (n : ℕ) (h g : List Call)
      → Ended env stored n h g
      → is_true (get "shouldFail" stored.payload) ≡ true
      → stored.max_attempts ≤ n
      → length (opened_incidents g) ≡ length (opened_incidents h) + 1
  opens_one n h g e always last =
      let (message, failed) = evaluate_failure-always stored n always in
      ground (arith, e.incidents, failed, last)

  -- A failed job has one attempt left, and its payload asks for a failure every time. Two requests to
  -- retry it both read it before either writes it. Both return, and each sends a message; both messages
  -- are handled. Then the job counts one attempt more than its maximum, and two incidents are opened.
  pub races_exceed :
      (n : ℕ) (h : List Call) (first second : String)
      → Idle env stored n h
      → (current stored h).status ≡ JobStatus.failed
      → n + 1 ≡ stored.max_attempts
      → is_true (get "shouldFail" stored.payload) ≡ true
      → let g = (raced_retries env stored.id first second h).1 in
        let k = (both_handed env stored.id first second g).1 in
        ((raced_retries env stored.id first second h).0 ≡ ok tt)
        × (queue_messages g
            ≡ (jobs_processing, job_message stored.id "retry" second)
              ∷ (jobs_processing, job_message stored.id "retry" first)
              ∷ queue_messages h)
        × ((both_handed env stored.id first second g).0 ≡ ok tt)
        × ((current stored k).attempt_count ≡ (current stored k).max_attempts + 1)
        × (length (opened_incidents k) ≡ length (opened_incidents h) + 2)
  races_exceed n h first second w has_failed last always =
      let (returned, r) = raced_retries-Raced n h first second w has_failed (omega (arith, last)) in
      let g = (raced_retries env stored.id first second h).1 in
      let (handed, one) = hand-Ended db g n "retry" first r.idle in
      let g₁ = (hand env (job_message stored.id "retry" first) g).1 in
      let (again, two) = hand-Ended db g₁ (n + 1) "retry" second (Ended-Idle one) in
      let a = opens_one (n + 1) _ _ one always (omega (arith, last)) in
      let b = opens_one (n + 1 + 1) _ _ two always (omega (arith, last)) in
      let same = ap length r.incidents in
      rw (handed_run g first second handed) (
        returned,
        r.sent,
        again,
        omega (arith, two.counted, two.max_attempts, last),
        omega (arith, a, b, same),
      )

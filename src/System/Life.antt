-- ===== src/System/Life.antt =====
-- The life of a job, from `create` of job.service.ts to its completion or to the refusal of its retry.
use Prim.Native.String
use realtime_ops_platform.Prelude.{
  ℕ, ◌+◌, ◌≤◌, ◌<◌, String, List, [], ◌∷◌, ◌≡◌, ◌∙◌, ap, false, true, none, some, arith, length,
}
use realtime_ops_platform.Core.Enums.{JobStatus}
use realtime_ops_platform.Core.Value.{get, int, decimal}
use realtime_ops_platform.Core.Entities.{JobEntity}
use realtime_ops_platform.Runtime.Calls.{Call, job_insert, job_find_one}
use realtime_ops_platform.Runtime.Monad.{Env, ok, err, bad_request, ◌>>=◌}
use realtime_ops_platform.Runtime.Observe.{saved_jobs, lock_calls, queue_messages, opened_incidents}
use realtime_ops_platform.Jobs.Lifecycle.{latest}
use realtime_ops_platform.Messaging.{jobs_processing, publish_to_queue}
use realtime_ops_platform.Events.{publish_job_created, publish_notification_created}
use realtime_ops_platform.Records.{log, create_notification}
use realtime_ops_platform.Jobs.Service.{CreateJobInput, create, new_job, retry}
use realtime_ops_platform.Jobs.Service.Retry.{IsEligible, retry_refuses}
use realtime_ops_platform.Jobs.Service.Create.{create_returns}
use realtime_ops_platform.Jobs.Rows.{lock_key, evaluate_failure, is_true}
use realtime_ops_platform.Jobs.Processor.Returning.{create-Returns}
use realtime_ops_platform.System.{rounds, live}
use realtime_ops_platform.System.Database.{rows_of, current, is_held, Database}
use realtime_ops_platform.System.Attempts.{Ended, ended_by, incidents_by, evaluate_failure-always}
use realtime_ops_platform.System.Rounds.{Waiting, rounds-Ended}

-- The database answers the insert of the job of `input` with `stored`, a row of a new id with the
-- columns that it was given, and nobody has the lock of that id.
pub record Inserts (env : Env) (input : CreateJobInput) (h : List Call) (stored : JobEntity)
    : Type 0 where
  pub inserted : env.answer h (job_insert (new_job input)) ≡ ok stored
  pub payload : stored.payload ≡ (new_job input).payload
  pub max_attempts : stored.max_attempts ≡ (new_job input).max_attempts
  pub attempt_count : stored.attempt_count ≡ (new_job input).attempt_count
  pub is_new : rows_of stored.id (saved_jobs h) ≡ []
  pub is_free : is_held (lock_key stored.id) (lock_calls h) ≡ false

module _ {env : Env} {input : CreateJobInput} {h : List Call} {stored : JobEntity}
    (db : Database env stored) (new : Inserts env input h stored) where
  create_quiet :
      (saved_jobs (create env input h).1 ≡ saved_jobs h)
      × (lock_calls (create env input h).1 ≡ lock_calls h)
      × (opened_incidents (create env input h).1 ≡ opened_incidents h)
  unfolding create log create_notification publish_to_queue publish_job_created
      publish_notification_created ◌>>=◌
  create_quiet = ground arith

  create_run : (create env input h).0 ≡ ok stored
  create_run =
      let (job, e) = (create-Returns db.works input).at h in
      let (inserted, _, _) = create_returns env input h e in let i = new.inserted in cc

  created-Waiting : Waiting env stored 0 (create env input h).1
  created-Waiting =
      let (saved, locks, _) = create_quiet in
      let (_, sent, _) = create_returns env input h create_run in
      let fresh : current stored (create env input h).1 ≡ stored =
        ap (latest stored) (ap (rows_of stored.id) saved ∙ new.is_new) in
      record {
        idle = record {
          id = ap (λ j. j.id) fresh;
          payload = ap (λ j. j.payload) fresh;
          max_attempts = ap (λ j. j.max_attempts) fresh;
          counted = ap (λ j. j.attempt_count) fresh ∙ new.attempt_count;
          released = ap (is_held (lock_key stored.id)) locks ∙ new.is_free;
        };
        sent = (jobs_processing, "created", input.operator_id, queue_messages h, sent);
      }

  live_run :
      (n : ℕ) → live env n input h ≡ rounds env n stored.id input.operator_id (create env input h).1
  unfolding live ◌>>=◌
  live_run n = ground (arith, create_run)

  live-Ended :
      (n : ℕ)
      → n < input.max_attempts
      → ((m : ℕ) → m < n → (message : String) × (evaluate_failure stored (m + 1) ≡ some message))
      → ((live env n input h).0 ≡ ok tt) × Ended env stored (n + 1) h (live env n input h).1
  live-Ended n left fails =
      let (_, _, same) = create_quiet in
      let (returned, e) =
        rounds-Ended db n input.operator_id _ created-Waiting
          (omega (arith, left, new.max_attempts)) fails in
      rw (live_run n) (
        returned,
        record {
          id = e.id;
          payload = e.payload;
          max_attempts = e.max_attempts;
          counted = e.counted;
          status = e.status;
          released = e.released;
          incidents =
              e.incidents
              ∙ ap
                  (λ i.
                    length i
                    + incidents_by (evaluate_failure stored (n + 1)) (n + 1) stored.max_attempts)
                  same;
        },
      )

  fails_up_to :
      (k n : ℕ)
      → get "failTimes" input.payload ≡ int k
      → n ≤ k
      → (message : String) × (evaluate_failure stored n ≡ some message)
  unfolding evaluate_failure
  fails_up_to k n times le = (
    String.◌++◌ "Processing failed on attempt " (decimal n),
    rw new.payload (rw times (ground arith)),
  )

  succeeds_after :
      (k n : ℕ)
      → is_true (get "shouldFail" input.payload) ≡ false
      → get "failTimes" input.payload ≡ int k
      → k < n
      → evaluate_failure stored n ≡ none
  unfolding evaluate_failure
  succeeds_after k n never times lt = rw new.payload (rw never (rw times (ground arith)))

  fails_always :
      (n : ℕ)
      → is_true (get "shouldFail" input.payload) ≡ true
      → (message : String) × (evaluate_failure stored n ≡ some message)
  fails_always n always =
      evaluate_failure-always stored n (ap (λ p. is_true (get "shouldFail" p)) new.payload ∙ always)

  -- A job whose payload asks for `k` failures, fewer than its attempts, is completed by `k` retries: it
  -- is created, its first delivery and every retry and delivery after it return, and in the end it is
  -- completed with `k + 1` attempts counted, no worker has its lock, and no incident was opened.
  pub live_completes :
      (k : ℕ)
      → k < input.max_attempts
      → is_true (get "shouldFail" input.payload) ≡ false
      → get "failTimes" input.payload ≡ int k
      → ((live env k input h).0 ≡ ok tt)
        × ((current stored (live env k input h).1).status ≡ JobStatus.completed)
        × ((current stored (live env k input h).1).attempt_count ≡ k + 1)
        × (is_held (lock_key stored.id) (lock_calls (live env k input h).1) ≡ false)
        × (length (opened_incidents (live env k input h).1) ≡ length (opened_incidents h))
  live_completes k left never times =
      let (returned, e) =
        live-Ended k left (λ m l. fails_up_to k (m + 1) times (omega (arith, l))) in
      let done = succeeds_after k (k + 1) never times (omega arith) in
      (
        returned,
        e.status ∙ ap ended_by done,
        e.counted,
        e.released,
        ground (arith, e.incidents, done),
      )

  -- A job whose payload asks for a failure every time, and which has `n + 1` attempts, uses them all in
  -- `n` retries: everything returns, the job ends as failed with every attempt counted and one incident
  -- opened, and one more retry is refused with a 400 after the one call that looks the job up.
  pub live_exhausts :
      (n : ℕ) (operator_id : String)
      → n + 1 ≡ input.max_attempts
      → is_true (get "shouldFail" input.payload) ≡ true
      → let g = (live env n input h).1 in
        ((live env n input h).0 ≡ ok tt)
        × ((current stored g).status ≡ JobStatus.failed)
        × ((current stored g).attempt_count ≡ input.max_attempts)
        × (length (opened_incidents g) ≡ length (opened_incidents h) + 1)
        × ((message : String) × ((retry env stored.id operator_id g).0 ≡ err (bad_request message)))
        × ((retry env stored.id operator_id g).1 ≡ job_find_one stored.id ∷ g)
  live_exhausts n operator_id last always =
      let (returned, e) = live-Ended n (omega (arith, last)) (λ m l. fails_always (m + 1) always) in
      let (message, failed) = fails_always (n + 1) always in
      let g = (live env n input h).1 in
      let spent : ¬ IsEligible (current stored g) =
        λ v. omega (arith, v.has_attempts, e.counted, e.max_attempts, new.max_attempts, last) in
      let (refused, looked_up) = retry_refuses env stored.id operator_id g (db.finds g) spent in
      (
        returned,
        e.status ∙ ap ended_by failed,
        e.counted ∙ last,
        ground (arith, e.incidents, failed, new.max_attempts, last),
        refused,
        looked_up,
      )

-- ===== src/System/Delivery.antt =====
-- What one delivery and one retry do to a job, where the database and Redis answer as they should.
use realtime_ops_platform.Prelude.{
  ℕ, ◌+◌, ◌<◌, String, List, ◌∷◌, ◌≡◌, refl, ◌∙◌, ap, false, Option, none, some, eq_iff, eq_refl,
  arith,
}
use realtime_ops_platform.Core.Enums.{JobStatus, is_failed}
use realtime_ops_platform.Core.Value.{Fields, get}
use realtime_ops_platform.Core.Entities.{JobEntity}
use realtime_ops_platform.Runtime.Calls.{Call, job_find_one, ack, redis_del}
use realtime_ops_platform.Runtime.Monad.{Env, ok, ◌>>=◌}
use realtime_ops_platform.Runtime.Observe.{
  lock_calls, queue_messages, opened_incidents, opened_alerts,
}
use realtime_ops_platform.Jobs.Lifecycle.{latest}
use realtime_ops_platform.Core.Entities.{AlertColumns, IncidentColumns}
use realtime_ops_platform.Messaging.{jobs_processing, publish_to_queue}
use realtime_ops_platform.Events.{publish_job_created, publish_notification_created}
use realtime_ops_platform.Records.{log, create_notification}
use realtime_ops_platform.Jobs.Service.{retry, requeue, requeued, job_message}
use realtime_ops_platform.Jobs.Service.Retry.{retry_found, requeue_writes, requeue_sends}
use realtime_ops_platform.Jobs.Rows.{ProcessJobInput, begun, lock_key}
use realtime_ops_platform.Jobs.Processor.{process}
use realtime_ops_platform.Jobs.Processor.Locking.{process_lock}
use realtime_ops_platform.Jobs.Processor.Outcome.{settled, failure_of}
use realtime_ops_platform.Jobs.Processor.Escalation.{Escalated}
use realtime_ops_platform.Jobs.Processor.Writes.{Loads, process_settles, process_escalates}
use realtime_ops_platform.Jobs.Processor.Returning.{process-Returns, requeue-Returns}
use realtime_ops_platform.Consumer.{
  property, to_input, read_message, process_input, handle, on_message,
}
use realtime_ops_platform.System.{deliver, hand}
use realtime_ops_platform.System.Database.{rows_of, current, is_held, Database}

module _ {env : Env} {stored : JobEntity} (db : Database env stored) where
  process_returns : (input : ProcessJobInput) (h : List Call) → (process env input h).0 ≡ ok tt
  process_returns input h = let (a, e) = (process-Returns db.works input).at h in e

  pub ack_returns : (h : List Call) → env.answer h ack ≡ ok tt
  ack_returns h = let (a, e) = db.works.answers ack h in e

  hand_run :
      (h : List Call) (reason operator_id : String)
      → let input : ProcessJobInput = record {
        job_id = stored.id;
        reason = reason;
        requested_by = operator_id;
      } in
        hand env (job_message stored.id reason operator_id) h
        ≡ (ok tt, ack ∷ (process env input h).1)
  unfolding hand on_message handle read_message property to_input get process_input ◌>>=◌
  hand_run h reason operator_id =
      let input : ProcessJobInput = record {
        job_id = stored.id;
        reason = reason;
        requested_by = operator_id;
      } in
      ground (
        arith,
        eq_iff stored.id "",
        db.identified,
        process_returns input h,
        ack_returns (process env input h).1,
      )

  -- a saved state of the job is its current one
  rows_of-hit :
      (job : JobEntity) (jobs : List JobEntity)
      → job.id ≡ stored.id
      → rows_of stored.id (job ∷ jobs) ≡ job ∷ rows_of stored.id jobs
  rows_of-hit job jobs e = ground (arith, e, eq_refl stored.id)

  -- What a delivery leaves, from the calls `h` before it.
  pub record Delivered (h g : List Call) : Type 0 where
    pub written :
        (t : ℕ) × (u : ℕ) × (current stored g
          ≡ settled (begun (current stored h) t) (failure_of (current stored h)) u)
    pub released : is_held (lock_key stored.id) (lock_calls g) ≡ false
    pub escalated :
        Escalated env
          (current stored h)
          ((current stored h).attempt_count + 1)
          (opened_alerts h)
          (opened_incidents h)
          (failure_of (current stored h))
          g

  settled-id :
      (job : JobEntity) (failure : Option String) (t u : ℕ)
      → (settled (begun job t) failure u).id ≡ job.id
  settled-id job none t u = refl
  settled-id job (some message) t u = refl

  settled-current :
      (job : JobEntity) (js : List JobEntity) (failure : Option String) (t u : ℕ)
      → job.id ≡ stored.id
      → rows_of stored.id (settled (begun job t) failure u ∷ begun job t ∷ js)
        ≡ settled (begun job t) failure u ∷ rows_of stored.id (begun job t ∷ js)
  settled-current job js failure t u e =
      rows_of-hit _ (begun job t ∷ js) (settled-id job failure t u ∙ e)

  is_held-released :
      (key : String) (request : Call) (h : List Call)
      → is_held key (redis_del key ∷ request ∷ h) ≡ false
  is_held-released key request h = ground (arith, eq_refl key)

  Escalated-ack :
      (job : JobEntity) (n : ℕ) (alerts : List AlertColumns) (incidents : List IncidentColumns)
      (failure : Option String) (g : List Call)
      → Escalated env job n alerts incidents failure g
      → Escalated env job n alerts incidents failure (ack ∷ g)
  Escalated-ack job n alerts incidents none g p = p
  Escalated-ack job n alerts incidents (some message) g p = p

  pub hand_lem :
      (h : List Call) (reason operator_id : String)
      → (current stored h).id ≡ stored.id
      → is_held (lock_key stored.id) (lock_calls h) ≡ false
      → ((hand env (job_message stored.id reason operator_id) h).0 ≡ ok tt)
        × Delivered h (hand env (job_message stored.id reason operator_id) h).1
  hand_lem h reason operator_id same free =
      let input : ProcessJobInput = record {
        job_id = stored.id;
        reason = reason;
        requested_by = operator_id;
      } in
      let loads : Loads env input h (current stored h) = record {
        client = db.works.client;
        lock = db.grants h free;
        job = db.finds _;
      } in
      let (t, u, saved, _) = process_settles env input h loads (process_returns input h) in
      let (_, locks) = process_lock env input h in
      rw (hand_run h reason operator_id) (
        refl,
        record {
          written = (
            t,
            u,
            ap (latest stored)
                (ap (rows_of stored.id) saved ∙ settled-current (current stored h) _ _ t u same),
          );
          released =
              ground
                (arith, locks, db.works.client, db.grants h free, eq_refl (lock_key stored.id));
          escalated =
              Escalated-ack (current stored h) _ _ _ _ _
                (process_escalates env input h loads (process_returns input h));
        },
      )

  pub deliver_run :
      (h : List Call) (queue reason operator_id : String) (rest : List (String × Fields))
      → queue_messages h ≡ (queue, job_message stored.id reason operator_id) ∷ rest
      → deliver env h ≡ hand env (job_message stored.id reason operator_id) h
  unfolding deliver
  deliver_run h queue reason operator_id rest q = rw q refl

  -- What a retry that found `job` leaves, from the calls `h` before it wrote.
  pub record Retried (job : JobEntity) (operator_id : String) (h g : List Call) : Type 0 where
    pub written : current stored g ≡ requeued job
    pub locks : lock_calls g ≡ lock_calls h
    pub sent :
        queue_messages g
        ≡ (jobs_processing, job_message stored.id "retry" operator_id) ∷ queue_messages h
    pub incidents : opened_incidents g ≡ opened_incidents h

  requeue_quiet :
      (job : JobEntity) (operator_id : String) (g : List Call)
      → (lock_calls (requeue env job operator_id g).1 ≡ lock_calls g)
        × (opened_incidents (requeue env job operator_id g).1 ≡ opened_incidents g)
  unfolding requeue log create_notification publish_to_queue publish_job_created
      publish_notification_created ◌>>=◌
  requeue_quiet job operator_id g = ground arith

  requeue_run :
      (job : JobEntity) (operator_id : String) (g : List Call)
      → (requeue env job operator_id g).0 ≡ ok (requeued job)
  unfolding requeue log create_notification publish_to_queue publish_job_created
      publish_notification_created ◌>>=◌
  requeue_run job operator_id g =
      let (updated, e) = (requeue-Returns db.works job operator_id).at g in
      ground (arith, db.saves g (requeued job), e)

  pub requeue_lem :
      (job : JobEntity) (operator_id : String) (g : List Call)
      → job.id ≡ stored.id
      → ((requeue env job operator_id g).0 ≡ ok (requeued job))
        × Retried job operator_id g (requeue env job operator_id g).1
  requeue_lem job operator_id g same =
      let run = requeue_run job operator_id g in
      let (locks, incidents) = requeue_quiet job operator_id g in
      let (sent, _) = requeue_sends env stored.id operator_id g job (requeued job) g run in
      let saved = requeue_writes env stored.id operator_id g job g in
      (
        run,
        record {
          written =
              ap (latest stored) (ap (rows_of stored.id) saved ∙ rows_of-hit (requeued job) _ same);
          locks = locks;
          sent =
              sent
              ∙ ap (λ id. (jobs_processing, job_message id "retry" operator_id) ∷ queue_messages g)
                  same;
          incidents = incidents;
        },
      )

  pub retry_lem :
      (h : List Call) (operator_id : String)
      → (current stored h).id ≡ stored.id
      → (current stored h).status ≡ JobStatus.failed
      → (current stored h).attempt_count < (current stored h).max_attempts
      → ((retry env stored.id operator_id h).0 ≡ ok (requeued (current stored h)))
        × Retried (current stored h) operator_id h (retry env stored.id operator_id h).1
  retry_lem h operator_id same has_failed left =
      let job = current stored h in
      let (run, r) = requeue_lem job operator_id (job_find_one stored.id ∷ h) same in
      rw
        (retry_found env stored.id operator_id h (db.finds h) (ap is_failed has_failed)
          (ground arith))
        (
          run,
          record { written = r.written; locks = r.locks; sent = r.sent; incidents = r.incidents },
        )

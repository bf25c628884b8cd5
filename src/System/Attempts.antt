-- ===== src/System/Attempts.antt =====
-- What an attempt at a job leaves of it, in terms of the row that was inserted.
use Prim.Native.String
use realtime_ops_platform.Prelude.{
  ℕ, ◌+◌, String, List, ◌≡◌, refl, sym, subst, ◌∙◌, ap, false, true, Option, none, some,
  if◌then◌else◌, arith, leb, length,
}
use realtime_ops_platform.Core.Enums.{JobStatus}
use realtime_ops_platform.Core.Value.{get, decimal}
use realtime_ops_platform.Core.Entities.{JobEntity, AlertColumns, IncidentColumns}
use realtime_ops_platform.Runtime.Calls.{Call}
use realtime_ops_platform.Runtime.Monad.{Env, ok}
use realtime_ops_platform.Runtime.Observe.{lock_calls, opened_incidents, opened_alerts}
use realtime_ops_platform.Jobs.Service.{job_message}
use realtime_ops_platform.Jobs.Rows.{begun, lock_key, evaluate_failure, is_true}
use realtime_ops_platform.Jobs.Processor.Outcome.{settled, failure_of}
use realtime_ops_platform.Jobs.Processor.Escalation.{Escalated}
use realtime_ops_platform.System.{hand}
use realtime_ops_platform.System.Database.{current, is_held, Database}
use realtime_ops_platform.System.Delivery.{hand_lem, Retried}

-- the status that an attempt ends with
abbrev pub ended_by : Option String → JobStatus
ended_by none = JobStatus.completed
ended_by (some message) = JobStatus.failed

-- the incidents that attempt `n` opens
abbrev pub incidents_by : Option String → ℕ → ℕ → ℕ
incidents_by none n max_attempts = 0
incidents_by (some message) n max_attempts = if leb max_attempts n then 1 else 0

-- The job has gone through `n` attempts since it was inserted as `stored`, the calls `h` being made.
pub record Ended (env : Env) (stored : JobEntity) (n : ℕ) (h g : List Call) : Type 0 where
  pub id : (current stored g).id ≡ stored.id
  pub payload : (current stored g).payload ≡ stored.payload
  pub max_attempts : (current stored g).max_attempts ≡ stored.max_attempts
  pub counted : (current stored g).attempt_count ≡ n
  pub status : (current stored g).status ≡ ended_by (evaluate_failure stored n)
  pub released : is_held (lock_key stored.id) (lock_calls g) ≡ false
  pub incidents :
      length (opened_incidents g)
      ≡ length (opened_incidents h) + incidents_by (evaluate_failure stored n) n stored.max_attempts

-- The job is as it was inserted, but for what its `n` attempts have changed, and no worker has it.
pub record Idle (env : Env) (stored : JobEntity) (n : ℕ) (h : List Call) : Type 0 where
  pub id : (current stored h).id ≡ stored.id
  pub payload : (current stored h).payload ≡ stored.payload
  pub max_attempts : (current stored h).max_attempts ≡ stored.max_attempts
  pub counted : (current stored h).attempt_count ≡ n
  pub released : is_held (lock_key stored.id) (lock_calls h) ≡ false

pub Ended-Idle :
    {env : Env} {stored : JobEntity} {n : ℕ} {h g : List Call}
    → Ended env stored n h g
    → Idle env stored n g
Ended-Idle e = record {
  id = e.id;
  payload = e.payload;
  max_attempts = e.max_attempts;
  counted = e.counted;
  released = e.released;
}

pub evaluate_failure-always :
    (job : JobEntity) (n : ℕ)
    → is_true (get "shouldFail" job.payload) ≡ true
    → (message : String) × (evaluate_failure job n ≡ some message)
unfolding evaluate_failure
evaluate_failure-always job n always =
    (String.◌++◌ "Processing failed on attempt " (decimal n), rw always refl)

evaluate_failure-payload :
    (j k : JobEntity) (m n : ℕ)
    → j.payload ≡ k.payload
    → m ≡ n
    → evaluate_failure j m ≡ evaluate_failure k n
unfolding evaluate_failure
evaluate_failure-payload j k m n e f = rw e (rw f refl)

-- the columns of a job after an attempt
record Kept (j k : JobEntity) (failure : Option String) : Type 0 where
  id : k.id ≡ j.id
  payload : k.payload ≡ j.payload
  max_attempts : k.max_attempts ≡ j.max_attempts
  counted : k.attempt_count ≡ j.attempt_count + 1
  status : k.status ≡ ended_by failure

settled-Kept :
    (j : JobEntity) (failure : Option String) (t u : ℕ)
    → Kept j (settled (begun j t) failure u) failure
settled-Kept j none t u = record {
  id = refl;
  payload = refl;
  max_attempts = refl;
  counted = refl;
  status = refl;
}
settled-Kept j (some message) t u = record {
  id = refl;
  payload = refl;
  max_attempts = refl;
  counted = refl;
  status = refl;
}

Escalated-length :
    (env : Env) (job : JobEntity) (n : ℕ) (alerts : List AlertColumns)
    (incidents : List IncidentColumns) (failure : Option String) (g : List Call)
    → Escalated env job n alerts incidents failure g
    → length (opened_incidents g) ≡ length incidents + incidents_by failure n job.max_attempts
Escalated-length env job n alerts incidents none g (a, i) = rw i (omega arith)
Escalated-length env job n alerts incidents (some message) g (alert, inserted, a, i) = ground arith

incidents_by-eq :
    {f g : Option String} {m n x y : ℕ}
    → f ≡ g
    → m ≡ n
    → x ≡ y
    → incidents_by f m x ≡ incidents_by g n y
incidents_by-eq e f g = rw e (rw f (rw g refl))

module _ {env : Env} {stored : JobEntity} (db : Database env stored) where
  pub hand-Ended :
      (h : List Call) (n : ℕ) (reason operator_id : String)
      → Idle env stored n h
      → let r = hand env (job_message stored.id reason operator_id) h in
        (r.0 ≡ ok tt) × Ended env stored (n + 1) h r.1
  hand-Ended h n reason operator_id w =
      let (returned, d) = hand_lem db h reason operator_id w.id w.released in
      let g = (hand env (job_message stored.id reason operator_id) h).1 in
      let (t, u, written) = d.written in
      let job = current stored h in
      let kept : Kept job (current stored g) (failure_of job) =
        subst (λ k. Kept job k (failure_of job)) (sym written)
          (settled-Kept job (failure_of job) t u) in
      let count : job.attempt_count + 1 ≡ n + 1 = ap (λ c. c + 1) w.counted in
      let failure : failure_of job ≡ evaluate_failure stored (n + 1) =
        evaluate_failure-payload job stored _ _ w.payload count in
      let opened =
        Escalated-length env job (job.attempt_count + 1) (opened_alerts h) (opened_incidents h)
          (failure_of job) g d.escalated in
      (
        returned,
        record {
          id = kept.id ∙ w.id;
          payload = kept.payload ∙ w.payload;
          max_attempts = kept.max_attempts ∙ w.max_attempts;
          counted = kept.counted ∙ count;
          status = kept.status ∙ ap ended_by failure;
          released = d.released;
          incidents =
              opened
              ∙ ap (λ c. length (opened_incidents h) + c)
                  (incidents_by-eq failure count w.max_attempts);
        },
      )

  pub Retried-Idle :
      (n : ℕ) {h g k : List Call} {operator_id : String}
      → Idle env stored n h
      → is_held (lock_key stored.id) (lock_calls g) ≡ false
      → Retried db (current stored h) operator_id g k
      → Idle env stored n k
  Retried-Idle n w free r = record {
    id = ap (λ j. j.id) r.written ∙ w.id;
    payload = ap (λ j. j.payload) r.written ∙ w.payload;
    max_attempts = ap (λ j. j.max_attempts) r.written ∙ w.max_attempts;
    counted = ap (λ j. j.attempt_count) r.written ∙ w.counted;
    released = ap (is_held (lock_key stored.id)) r.locks ∙ free;
  }

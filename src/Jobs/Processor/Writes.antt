-- ===== src/Jobs/Processor/Writes.antt =====
-- `process` of job-processor.service.ts as a whole: what it writes of the job and its attempt,
-- against the lifecycle.
use realtime_ops_platform.Prelude.{
  ◌+◌, String, true, List, ◌∷◌, ◌≡◌, refl, sym, subst, inl, inr, Option, none, some, arith,
  if◌then◌else◌, ◌&&◌, Bool-cases,
}
use realtime_ops_platform.Core.Enums.{AttemptStatus}
use realtime_ops_platform.Core.Entities.{JobEntity}
use realtime_ops_platform.Runtime.Calls.{Call, job_find_one, redis_del}
use realtime_ops_platform.Runtime.Monad.{Env, Outcome, ok, ◌>>=◌}
use realtime_ops_platform.Runtime.Observe.{
  saved_jobs, attempt_statuses, opened_alerts, opened_incidents,
}
use realtime_ops_platform.Runtime.Triple.{returned, either_way, found_cases}
use realtime_ops_platform.Records.{acquire_lock, release_lock}
use realtime_ops_platform.Jobs.Lifecycle.{Attempts}
use realtime_ops_platform.Jobs.Rows.{ProcessJobInput, lock_key}
use realtime_ops_platform.Jobs.Processor.{
  attempt_job, attempt_found, attempt_message, process_locked, process,
}
use realtime_ops_platform.Jobs.Processor.Locking.{is_granted, lock_request}
use realtime_ops_platform.Jobs.Processor.Steps.{Broken-Attempts, Settled-Broken}
use realtime_ops_platform.Jobs.Processor.Escalation
use realtime_ops_platform.Jobs.Processor.Escalation.{Escalated, Escalated-Warranted, Warranted}
use realtime_ops_platform.Jobs.Processor.Outcome.{Settled, Broken, failure_of, attempt_job-Triple}

-- the calls made when the job has been asked for
abbrev pub after_find : ProcessJobInput → List Call → List Call
after_find input h = job_find_one input.job_id ∷ lock_request input ∷ h

-- the lock is granted, and the job of the message is found
pub record Loads (env : Env) (input : ProcessJobInput) (h : List Call) (found : JobEntity)
    : Type 0 where
  pub client : env.has_client ≡ true
  pub lock : is_granted (env.answer h (lock_request input)) ≡ true
  pub job : env.answer (lock_request input ∷ h) (job_find_one input.job_id) ≡ ok (some found)

pub process_run :
    (env : Env) (input : ProcessJobInput) (h : List Call) {found : JobEntity}
    → Loads env input h found
    → ((process env input h).1
        ≡ redis_del (lock_key input.job_id) ∷ (attempt_job env input found (after_find input h)).1)
      × ((process env input h).0 ≡ ok tt
          → (attempt_job env input found (after_find input h)).0 ≡ ok tt)
unfolding process process_locked acquire_lock release_lock attempt_message attempt_found ◌>>=◌
process_run env input h {found} l = (ground arith, λ e. ground arith)

module _ (env : Env) (input : ProcessJobInput) (h : List Call) where
  Escalated-del :
      (found : JobEntity) (failure : Option String) (g : List Call)
      → Escalated env found
          (found.attempt_count + 1)
          (opened_alerts h)
          (opened_incidents h)
          failure
          g
      → Escalated env found
          (found.attempt_count + 1)
          (opened_alerts h)
          (opened_incidents h)
          failure
          (redis_del (lock_key input.job_id) ∷ g)
  Escalated-del found none g p = p
  Escalated-del found (some message) g p = p

  -- what `process` is told of the job of its message
  abbrev pub loaded : Outcome (Option JobEntity)
  loaded =
      if env.has_client && is_granted (env.answer h (lock_request input))
      then env.answer (lock_request input ∷ h) (job_find_one input.job_id)
      else ok none

  abbrev js : List JobEntity
  js = saved_jobs h

  abbrev ss : List AttemptStatus
  ss = attempt_statuses h

  loaded-Attempts :
      {found : JobEntity}
      → Loads env input h found
      → Attempts (ok (some found)) js (process env input h).1
  loaded-Attempts {found} l = rw (process_run env input h l).0 (
      Broken-Attempts found js ss (attempt_job env input found (after_find input h)).1 (
        either_way (λ _. Settled found js ss) (Broken found js ss) (Broken found js ss)
          (λ _ g. Settled-Broken found js ss g) (λ _ b. b) _
          ((attempt_job-Triple found js ss env input).at (after_find input h) (refl, refl))))

  loaded_of : {found : JobEntity} → Loads env input h found → loaded ≡ ok (some found)
  loaded_of l = ground arith

  found-Attempts :
      {found : JobEntity} → Loads env input h found → Attempts loaded js (process env input h).1
  found-Attempts l =
      subst (λ o. Attempts o js (process env input h).1) (sym (loaded_of l)) (loaded-Attempts l)

  -- Whatever the environment answers, and whether `process` returns or throws: if it is granted the
  -- lock and finds a job, the states of the job that it asks to write are a path of the lifecycle from
  -- the one that was found, or, where that one was not queued, a path from it as if it had been; if not,
  -- it writes no job.
  pub process_writes : Attempts loaded (saved_jobs h) (process env input h).1
  unfolding process process_locked acquire_lock release_lock attempt_message attempt_found ◌>>=◌
  process_writes = elim (Bool-cases env.has_client) [
    | inr off ↦ ground arith
    | inl on ↦ elim (Bool-cases (is_granted (env.answer h (lock_request input)))) [
      | inr denied ↦ ground arith
      | inl lock ↦
          elim (found_cases (env.answer (lock_request input ∷ h) (job_find_one input.job_id))) [
            | inl (found, e) ↦ found-Attempts (record { client = on; lock = lock; job = e })
            | inr (inl e) ↦ ground arith
            | inr (inr (x, e)) ↦ ground arith
          ]
    ]
  ]

  -- When `process` returns for a job that it found, the job has been written twice, as begun and then
  -- as completed or failed, as `evaluateFailure` says of the attempt's number, and its attempt twice,
  -- as started and then as succeeded or failed.
  pub process_settles :
      {found : JobEntity}
      → Loads env input h found
      → (process env input h).0 ≡ ok tt
      → Settled found (saved_jobs h) (attempt_statuses h) (process env input h).1
  process_settles {found} l e =
      let (calls, returns) = process_run env input h l in
      rw calls (
        returned (λ _. Settled found js ss) (Broken found js ss) _ tt (returns e)
          ((attempt_job-Triple found js ss env input).at (after_find input h) (refl, refl)))

  -- When `process` returns for a job that it found, it has raised no alert if the attempt succeeded.
  -- If it failed, it has raised one alert of the job, open, with the message of the failure, critical if
  -- the attempt was the last allowed or later and high if not; and it has opened an incident, which
  -- names the alert that the database answered with, exactly if it was critical.
  pub process_escalates :
      {found : JobEntity}
      → Loads env input h found
      → (process env input h).0 ≡ ok tt
      → Escalated env found
          (found.attempt_count + 1)
          (opened_alerts h)
          (opened_incidents h)
          (failure_of found)
          (process env input h).1
  process_escalates {found} l e =
      let (calls, returns) = process_run env input h l in
      subst
        (Escalated env found (found.attempt_count + 1) (opened_alerts h) (opened_incidents h)
          (failure_of found))
        (sym calls)
        (Escalated-del found (failure_of found) _ (
          returned
            (λ _.
              Escalated env found (found.attempt_count + 1) (opened_alerts h) (opened_incidents h)
                (failure_of found))
            (Warranted found (found.attempt_count + 1) (opened_incidents h) (failure_of found)) _ tt
            (returns e)
            ((Escalation.attempt_job-Triple env found (opened_alerts h) (opened_incidents h)
                input).at
              (after_find input h) (refl, refl))))

  -- Whether `process` returns or throws for a job that it found, it has opened no incident, or one: for
  -- a failure of the attempt, which was the last allowed or later.
  pub process_warrants :
      {found : JobEntity}
      → Loads env input h found
      → Warranted found
          (found.attempt_count + 1)
          (opened_incidents h)
          (failure_of found)
          (process env input h).1
  process_warrants {found} l =
      let (calls, _) = process_run env input h l in
      let n = found.attempt_count + 1 in
      let alerts = opened_alerts h in
      let incidents = opened_incidents h in
      let failure = failure_of found in
      subst (Warranted found n incidents failure) (sym calls) (
        either_way (λ _. Escalated env found n alerts incidents failure)
          (Warranted found n incidents failure) (Warranted found n incidents failure)
          (λ _ g. Escalated-Warranted env found n alerts incidents failure g) (λ g w. w) _
          ((Escalation.attempt_job-Triple env found alerts incidents input).at (after_find input h)
            (refl, refl)))

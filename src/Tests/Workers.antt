-- ===== src/Tests/Workers.antt =====
-- The theorems about several workers: for one that has the lock and others that are refused it, and for
-- two of which one outlasts its lock.
use realtime_ops_platform.Prelude.{
  ◌+◌, ◌<◌, ℕ, zero, suc, List, [], ◌∷◌, ◌≡◌, refl, sym, ap, ◌≢◌, ◌++◌, false, ◌∙◌, arith,
}
use realtime_ops_platform.Core.Enums.{JobStatus}
use realtime_ops_platform.Runtime.Calls.{Call, redis_del}
use realtime_ops_platform.Runtime.Monad.{Env}
use realtime_ops_platform.Jobs.Rows.{ProcessJobInput, lock_key}
use realtime_ops_platform.Jobs.Processor.Locking.{lock_request, process_lock}
use realtime_ops_platform.Jobs.Processor.Locks.{calls_of}
use realtime_ops_platform.Jobs.Processor.Leases.{untimed, asked_at, Timely, Punctual}
use realtime_ops_platform.Jobs.Processor.Timing.{leased_worker-Inside, overrun, overrun-Inside}
use realtime_ops_platform.Jobs.Processor.Exclusion.{Runs, has_lock, Inside}
use realtime_ops_platform.Tests.Samples.{sample_job, with_job, busy_env}

abbrev worker_env : ℕ → Env
worker_env zero = with_job (sample_job JobStatus.queued 0 false)
worker_env (suc w) = busy_env

abbrev delivery : ℕ → ProcessJobInput
delivery w = record { job_id = "job-1"; reason = "created"; requested_by = "op-7" }

-- worker 0 is granted the lock, and worker 1 is refused it after that
abbrev timed_events : List (ℕ × ℕ × Call)
timed_events = (1200, 1, lock_request (delivery 1)) ∷ (1000, 0, lock_request (delivery 0)) ∷ []

abbrev events : List (ℕ × Call)
events = untimed timed_events

others_none : (w : ℕ) → calls_of (suc (suc w)) events ≡ []
others_none w = ground arith

events-Runs : (w : ℕ) → Runs worker_env delivery "job-1" w events
events-Runs zero =
    (redis_del (lock_key "job-1") ∷ [], sym (process_lock (worker_env 0) (delivery 0) []).1)
events-Runs (suc zero) = ([], sym (process_lock busy_env (delivery 1) []).1)
events-Runs (suc (suc w)) = (
  lock_request (delivery 1) ∷ [],
  ap (λ cs. (lock_request (delivery 1) ∷ []) ++ cs) (others_none w)
      ∙ sym (process_lock busy_env (delivery 1) []).1,
)

events-Timely : Timely (has_lock worker_env delivery "job-1") timed_events
events-Timely = (λ e. absurd (cc), (λ e. refl, tt))

nobody-Inside : (w : ℕ) → ¬ Inside worker_env delivery "job-1" w []
nobody-Inside w (g, e) = absurd (cc)

-- when worker 1 asks, only worker 0 can be inside, since 200 ms
only_first :
    (w : ℕ)
    → Inside worker_env delivery "job-1" w ((0, lock_request (delivery 0)) ∷ [])
    → 1200 < asked_at w ((1000, 0, lock_request (delivery 0)) ∷ []) + 60000
only_first zero i = omega arith
only_first (suc w) (g, e) = omega arith

events-Punctual : Punctual (has_lock worker_env delivery "job-1") (lock_key "job-1") timed_events
events-Punctual = (only_first, (λ w i. absurd (nobody-Inside w i), tt))

zero-ne-one : ◌≢◌ {A = ℕ} 0 1
zero-ne-one e = absurd (omega (arith, e))

leased_worker-Inside_example : ¬ Inside worker_env delivery "job-1" 1 events
leased_worker-Inside_example =
    leased_worker-Inside worker_env delivery "job-1" timed_events (λ w. refl) events-Runs
      events-Timely events-Punctual 0 1 zero-ne-one (refl, refl)

-- workers whose clients are granted every lock
abbrev eager_env : ℕ → Env
eager_env w = with_job (sample_job JobStatus.queued 0 false)

overrun-Inside_example :
    let es = overrun eager_env delivery "job-1" 0 1 1000 61000 in
    Timely (has_lock eager_env delivery "job-1") es
    × Runs eager_env delivery "job-1" 0 (untimed es)
    × Runs eager_env delivery "job-1" 1 (untimed es)
    × Inside eager_env delivery "job-1" 0 (untimed es)
    × Inside eager_env delivery "job-1" 1 (untimed es)
overrun-Inside_example =
    overrun-Inside eager_env delivery "job-1" 0 1 1000 61000 zero-ne-one refl refl (omega arith)

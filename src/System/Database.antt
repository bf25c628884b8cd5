-- ===== src/System/Database.antt =====
-- What a run of the services relies on of PostgreSQL and Redis, for one job.
use realtime_ops_platform.Prelude.{
  String, List, [], ◌∷◌, ◌≡◌, ◌≢◌, Bool, false, true, ◌||◌, some, str_eq, if◌then◌else◌,
}
use realtime_ops_platform.Core.Entities.{JobEntity}
use realtime_ops_platform.Runtime.Calls.{Call, job_find_one, job_save, redis_set_nx, redis_del}
use realtime_ops_platform.Runtime.Monad.{Env, ok}
use realtime_ops_platform.Runtime.Observe.{saved_jobs, lock_calls}
use realtime_ops_platform.Runtime.Returns.{Works}
use realtime_ops_platform.Jobs.Lifecycle.{latest}
use realtime_ops_platform.Jobs.Rows.{lock_key}
use realtime_ops_platform.Jobs.Processor.Locking.{is_granted}

-- the states of one job, of those of all jobs
abbrev pub rows_of : String → List JobEntity → List JobEntity
rows_of job_id [] = []
rows_of job_id (job ∷ jobs) =
    let rest = rows_of job_id jobs in if str_eq job.id job_id then job ∷ rest else rest

-- the row of the job that was inserted as `stored`
abbrev pub current : JobEntity → List Call → JobEntity
current stored h = latest stored (rows_of stored.id (saved_jobs h))

-- The lock of `key` was requested, and not deleted since.
abbrev pub is_held : String → List Call → Bool
is_held key [] = false
is_held key (redis_del k ∷ h) = let rest = is_held key h in if str_eq k key then false else rest
is_held key (redis_set_nx k value ttl ∷ h) = str_eq k key || is_held key h
is_held key (_ ∷ h) = is_held key h

-- Every call is answered; the job is found as it was last saved, `save` returns the row that it is
-- given, and a lock that nobody holds is granted.
pub record Database (env : Env) (stored : JobEntity) : Type 0 where
  pub works : Works env
  pub identified : stored.id ≢ ""
  pub finds : (h : List Call) → env.answer h (job_find_one stored.id) ≡ ok (some (current stored h))
  pub saves : (h : List Call) (job : JobEntity) → env.answer h (job_save job) ≡ ok job
  pub grants :
      (h : List Call)
      → is_held (lock_key stored.id) (lock_calls h) ≡ false
      → is_granted (env.answer h (redis_set_nx (lock_key stored.id) "1" 60)) ≡ true

-- ===== src/Jobs/Processor/Timing.antt =====
-- Several workers at one job, with a lock that expires: what it takes for the lock of
-- job-processor.service.ts to keep them apart, and what happens where an attempt outlasts it.
use realtime_ops_platform.Prelude.{
  ℕ, ◌+◌, ◌≤◌, String, Bool, true, List, [], ◌∷◌, ◌++◌, ◌≡◌, ◌≢◌, refl, sym, ap, ◌∙◌, arith,
}
use realtime_ops_platform.Runtime.Calls.{Call, redis_del}
use realtime_ops_platform.Runtime.Monad.{Env}
use realtime_ops_platform.Runtime.Observe.{lock_calls}
use realtime_ops_platform.Jobs.Rows.{ProcessJobInput, lock_key}
use realtime_ops_platform.Jobs.Processor.{process}
use realtime_ops_platform.Jobs.Processor.Locking.{lock_request, process_lock}
use realtime_ops_platform.Jobs.Processor.Locks.{calls_of}
use realtime_ops_platform.Jobs.Processor.Exclusion.{
  has_lock, Runs, Inside, Runs-Shape, one_worker-Inside,
}
use realtime_ops_platform.Jobs.Processor.Leases.{untimed, Timely, Punctual, untimed-Lawful}

module _ (env : ℕ → Env) (input : ℕ → ProcessJobInput) (job_id : String) where
  abbrev granted : ℕ → Bool
  granted = has_lock env input job_id

  -- Any number of workers run `process` once each for the same job, and `es` is an interleaving of the
  -- calls to Redis that they have made so far, with their times. Redis grants the lock only where it is
  -- not there, and deletes it 60 seconds after it was granted. If no attempt outlasts its lock, then
  -- while one worker is inside its attempt, no other one is.
  pub leased_worker-Inside :
      (es : List (ℕ × ℕ × Call))
      → ((w : ℕ) → (input w).job_id ≡ job_id)
      → ((w : ℕ) → Runs env input job_id w (untimed es))
      → Timely granted es
      → Punctual granted (lock_key job_id) es
      → (v w : ℕ) → v ≢ w
      → Inside env input job_id v (untimed es)
      → ¬ Inside env input job_id w (untimed es)
  leased_worker-Inside es same runs timely punctual =
      one_worker-Inside env input job_id (untimed es) same runs (
        untimed-Lawful granted (lock_key job_id) es
          (λ u. Runs-Shape env input job_id u (untimed es) (same u) (runs u)) timely punctual)

  -- what a worker has still to do that has asked for the lock
  abbrev release : ℕ → List Call
  release w = redis_del (lock_key (input w).job_id) ∷ []

  alone :
      (w : ℕ)
      → granted w ≡ true
      → release w ++ lock_request (input w) ∷ [] ≡ lock_calls (process (env w) (input w) []).1
  alone w g = sym ((process_lock (env w) (input w) []).1 ∙ ground (arith, g))

  -- the worker `w` asks for the lock when the worker `v` has had it for the time that it lives
  abbrev pub overrun : ℕ → ℕ → ℕ → ℕ → List (ℕ × ℕ × Call)
  overrun v w t u = (u, w, lock_request (input w)) ∷ (t, v, lock_request (input v)) ∷ []

  calls_of_first :
      (v w t u : ℕ) → v ≢ w → calls_of v (untimed (overrun v w t u)) ≡ lock_request (input v) ∷ []
  calls_of_first v w t u differ = ground (arith, differ)

  calls_of_second :
      (v w t u : ℕ) → v ≢ w → calls_of w (untimed (overrun v w t u)) ≡ lock_request (input w) ∷ []
  calls_of_second v w t u differ = ground (arith, differ)

  -- Where an attempt does outlast its lock, the lock keeps nobody apart: of two workers that are granted
  -- the lock, the second 60 seconds after the first or later, both are inside their attempts, whatever
  -- else they do.
  pub overrun-Inside :
      (v w t u : ℕ)
      → v ≢ w
      → granted v ≡ true
      → granted w ≡ true
      → t + 60000 ≤ u
      → let es = overrun v w t u in
        Timely granted es
        × Runs env input job_id v (untimed es)
        × Runs env input job_id w (untimed es)
        × Inside env input job_id v (untimed es)
        × Inside env input job_id w (untimed es)
  overrun-Inside v w t u differ g k late =
      let first = calls_of_first v w t u differ in
      let second = calls_of_second v w t u differ in
      (
        (λ _. ground (arith, g, late), (λ _. refl, tt)),
        (release v, ap (λ cs. release v ++ cs) first ∙ alone v g),
        (release w, ap (λ cs. release w ++ cs) second ∙ alone w k),
        (g, first),
        (k, second),
      )

-- ===== src/Jobs/Processor/Steps.antt =====
-- The states that an attempt of job-processor.service.ts leaves, as steps of the lifecycle.
use realtime_ops_platform.Prelude.{
  ℕ, String, List, [], ◌∷◌, ◌++◌, ◌≡◌, ◌≢◌, ◌⊎◌, refl, inl, inr, Option, none, some,
}
use realtime_ops_platform.Core.Enums.{JobStatus, AttemptStatus}
use realtime_ops_platform.Core.Entities.{JobEntity}
use realtime_ops_platform.Runtime.Calls.{Call}
use realtime_ops_platform.Runtime.Monad.{ok}
use realtime_ops_platform.Runtime.Observe.{saved_jobs}
use realtime_ops_platform.Jobs.Lifecycle.{
  SameJob-update, JobStep, begins, completes, fails, IsPath, as_queued, Attempts,
}
use realtime_ops_platform.Jobs.Rows.{begun, evaluate_failure}
use realtime_ops_platform.Jobs.Processor.Outcome.{settled, Settled, Broken, failure_of}

begun-JobStep : (j : JobEntity) (t : ℕ) → j.status ≡ JobStatus.queued → JobStep j (begun j t)
begun-JobStep j t queued = begins (record {
  same = SameJob-update j _ _ _ _ _;
  before = queued;
  status = refl;
  counted = refl;
  start = (t, refl);
  not_completed = refl;
  no_error = refl;
})

queued_cases : (status : JobStatus) → (status ≡ JobStatus.queued) ⊎ (status ≢ JobStatus.queued)
queued_cases JobStatus.queued = inl refl
queued_cases status = inr (λ e. cc)

settled-JobStep :
    (j : JobEntity) (t : ℕ) (failure : Option String) (u : ℕ)
    → JobStep (begun j t) (settled (begun j t) failure u)
settled-JobStep j t none u = completes (record {
  same = SameJob-update (begun j t) _ _ _ _ _;
  before = refl;
  status = refl;
  counted = refl;
  start = refl;
  finish = (u, refl);
  no_error = refl;
})
settled-JobStep j t (some message) u = fails (record {
  same = SameJob-update (begun j t) _ _ _ _ _;
  before = refl;
  status = refl;
  counted = refl;
  start = refl;
  finish = (u, refl);
  error = (message, refl);
})

-- what an attempt writes of a queued job
abbrev Written : JobEntity → List JobEntity → List Call → Type 0
Written j js h = (ws : List JobEntity) × (saved_jobs h ≡ ws ++ js) × IsPath j ws

queued-Written :
    (found : JobEntity) (js : List JobEntity) (ss : List AttemptStatus) (h : List Call)
    → found.status ≡ JobStatus.queued
    → Broken found js ss h
    → Written found js h
queued-Written found js ss h q (inl e) = ([], e, tt)
queued-Written found js ss h q (inr (inl (t, e))) =
    (begun found t ∷ [], e, (begun-JobStep found t q, tt))
queued-Written found js ss h q (inr (inr (t, u, e))) = (
  settled (begun found t) (failure_of found) u ∷ begun found t ∷ [],
  e,
  (settled-JobStep found t (failure_of found) u, (begun-JobStep found t q, tt)),
)

pub Broken-Attempts :
    (found : JobEntity) (js : List JobEntity) (ss : List AttemptStatus) (h : List Call)
    → Broken found js ss h
    → Attempts (ok (some found)) js h
unfolding evaluate_failure
Broken-Attempts found js ss h b = elim (queued_cases found.status) [
  | inl q ↦ let (ws, e, path) = queued-Written found js ss h q b in (ws, e, inl path)
  | inr other ↦
      let (ws, e, path) = queued-Written (as_queued found) js ss h refl b in
      (ws, e, inr (other, path))
]

pub Settled-Broken :
    (found : JobEntity) (js : List JobEntity) (ss : List AttemptStatus) (h : List Call)
    → Settled found js ss h
    → Broken found js ss h
Settled-Broken found js ss h (t, u, e, _) = inr (inr (t, u, e))

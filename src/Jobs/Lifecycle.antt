-- ===== src/Jobs/Lifecycle.antt =====
-- What docs/domain-model.md promises of a job, as a relation between the states that are written:
-- the steps of its lifecycle, the chains of them, and what every chain keeps.
use realtime_ops_platform.Prelude.{
  ℕ, ◌+◌, ◌<◌, String, List, [], ◌∷◌, ◌++◌, ◌≡◌, ◌≢◌, ◌⊎◌, refl, ◌∙◌, Option, none, some, arith,
}
use realtime_ops_platform.Core.Enums.{JobStatus, queued, processing, completed, failed}
use realtime_ops_platform.Core.Entities.{JobEntity}
use realtime_ops_platform.Runtime.Calls.{Call}
use realtime_ops_platform.Runtime.Monad.{Outcome, ok}
use realtime_ops_platform.Runtime.Observe.{saved_jobs}

-- What no step changes: the job's identity and what the operator asked for.
pub record SameJob (j k : JobEntity) : Type 0 where
  pub id : k.id ≡ j.id
  pub name : k.name ≡ j.name
  pub type : k.type ≡ j.type
  pub payload : k.payload ≡ j.payload
  pub priority : k.priority ≡ j.priority
  pub max_attempts : k.max_attempts ≡ j.max_attempts
  pub created_at : k.created_at ≡ j.created_at

-- An attempt at a queued job begins: this counts it, and clears what the last one left.
pub record Begins (j k : JobEntity) : Type 0 where
  pub same : SameJob j k
  pub before : j.status ≡ queued
  pub status : k.status ≡ processing
  pub counted : k.attempt_count ≡ j.attempt_count + 1
  pub start : (t : ℕ) × (k.started_at ≡ some t)
  pub not_completed : k.completed_at ≡ none
  pub no_error : k.last_error ≡ none

pub record Completes (j k : JobEntity) : Type 0 where
  pub same : SameJob j k
  pub before : j.status ≡ processing
  pub status : k.status ≡ completed
  pub counted : k.attempt_count ≡ j.attempt_count
  pub start : k.started_at ≡ j.started_at
  pub finish : (t : ℕ) × (k.completed_at ≡ some t)
  pub no_error : k.last_error ≡ none

pub record Fails (j k : JobEntity) : Type 0 where
  pub same : SameJob j k
  pub before : j.status ≡ processing
  pub status : k.status ≡ failed
  pub counted : k.attempt_count ≡ j.attempt_count
  pub start : k.started_at ≡ j.started_at
  pub finish : (t : ℕ) × (k.completed_at ≡ some t)
  pub error : (message : String) × (k.last_error ≡ some message)

-- The operator's retry.
pub record Requeues (j k : JobEntity) : Type 0 where
  pub same : SameJob j k
  pub before : j.status ≡ failed
  pub eligible : j.attempt_count < j.max_attempts
  pub status : k.status ≡ queued
  pub counted : k.attempt_count ≡ j.attempt_count
  pub not_started : k.started_at ≡ none
  pub not_completed : k.completed_at ≡ none
  pub no_error : k.last_error ≡ none

pub data JobStep (j k : JobEntity) : Type 0 where
  begins : Begins j k → JobStep j k
  completes : Completes j k → JobStep j k
  fails : Fails j k → JobStep j k
  requeues : Requeues j k → JobStep j k

-- the last of a list of states, newest first, after `j`
abbrev pub latest : JobEntity → List JobEntity → JobEntity
latest j [] = j
latest j (k ∷ ks) = k

-- The states, newest first, were reached from `j` one step at a time.
abbrev pub IsPath : JobEntity → List JobEntity → Type 0
IsPath j [] = Unit
IsPath j (k ∷ ks) = JobStep (latest j ks) k × IsPath j ks

-- The dates and the error agree with the status.
pub record IsConsistent (j : JobEntity) : Type 0 where
  pub queued_clean :
      j.status ≡ queued → (j.started_at ≡ none) × (j.completed_at ≡ none) × (j.last_error ≡ none)
  pub processing_dated : j.status ≡ processing → (j.completed_at ≡ none) × (j.last_error ≡ none)
  pub completed_dated :
      j.status ≡ completed → ((t : ℕ) × (j.completed_at ≡ some t)) × (j.last_error ≡ none)
  pub failed_dated :
      j.status ≡ failed
      → ((t : ℕ) × (j.completed_at ≡ some t)) × ((message : String) × (j.last_error ≡ some message))

-- Every step leaves a consistent job, whatever it started from.
pub JobStep-IsConsistent : {j k : JobEntity} → JobStep j k → IsConsistent k
JobStep-IsConsistent (begins s) = record {
  queued_clean = λ e. cc;
  processing_dated = λ e. (s.not_completed, s.no_error);
  completed_dated = λ e. absurd (cc);
  failed_dated = λ e. absurd (cc);
}
JobStep-IsConsistent (completes s) = record {
  queued_clean = λ e. cc;
  processing_dated = λ e. cc;
  completed_dated = λ e. (s.finish, s.no_error);
  failed_dated = λ e. absurd (cc);
}
JobStep-IsConsistent (fails s) = record {
  queued_clean = λ e. cc;
  processing_dated = λ e. cc;
  completed_dated = λ e. absurd (cc);
  failed_dated = λ e. (s.finish, s.error);
}
JobStep-IsConsistent (requeues s) = record {
  queued_clean = λ e. (s.not_started, s.not_completed, s.no_error);
  processing_dated = λ e. cc;
  completed_dated = λ e. absurd (cc);
  failed_dated = λ e. absurd (cc);
}

-- The columns that a step may change.
pub SameJob-update :
    (j : JobEntity) (status : JobStatus) (count : ℕ) (error : Option String)
    (started_at completed_at : Option ℕ)
    → SameJob j (record j {
      status = status;
      attempt_count = count;
      last_error = error;
      started_at = started_at;
      completed_at = completed_at;
    })
SameJob-update j status count error started_at completed_at = record {
  id = refl;
  name = refl;
  type = refl;
  payload = refl;
  priority = refl;
  max_attempts = refl;
  created_at = refl;
}

SameJob-refl : (j : JobEntity) → SameJob j j
SameJob-refl j = SameJob-update j _ _ _ _ _

SameJob-trans : {i j k : JobEntity} → SameJob i j → SameJob j k → SameJob i k
SameJob-trans s t = record {
  id = t.id ∙ s.id;
  name = t.name ∙ s.name;
  type = t.type ∙ s.type;
  payload = t.payload ∙ s.payload;
  priority = t.priority ∙ s.priority;
  max_attempts = t.max_attempts ∙ s.max_attempts;
  created_at = t.created_at ∙ s.created_at;
}

JobStep-SameJob : {j k : JobEntity} → JobStep j k → SameJob j k
JobStep-SameJob (begins s) = s.same
JobStep-SameJob (completes s) = s.same
JobStep-SameJob (fails s) = s.same
JobStep-SameJob (requeues s) = s.same

-- 1 for a state that an attempt begins with
abbrev pub begun_by : JobStatus → ℕ
begun_by processing = 1
begun_by _ = 0

-- the attempts that a list of states began
abbrev pub count_begun : List JobEntity → ℕ
count_begun [] = 0
count_begun (k ∷ ks) = begun_by k.status + count_begun ks

JobStep-count :
    {j k : JobEntity} → JobStep j k → k.attempt_count ≡ j.attempt_count + begun_by k.status
JobStep-count (begins s) = rw s.status s.counted
JobStep-count (completes s) = rw s.status (ground arith)
JobStep-count (fails s) = rw s.status (ground arith)
JobStep-count (requeues s) = rw s.status (ground arith)

-- Along a path the job stays the same job, and its count grows by the attempts that were begun.
pub IsPath-count :
    (j : JobEntity) (ks : List JobEntity)
    → IsPath j ks
    → (latest j ks).attempt_count ≡ j.attempt_count + count_begun ks
IsPath-count j [] p = omega arith
IsPath-count j (k ∷ ks) (s, p) = omega (arith, JobStep-count s, IsPath-count j ks p)

pub IsPath-SameJob : (j : JobEntity) (ks : List JobEntity) → IsPath j ks → SameJob j (latest j ks)
IsPath-SameJob j [] p = SameJob-refl j
IsPath-SameJob j (k ∷ ks) (s, p) = SameJob-trans (IsPath-SameJob j ks p) (JobStep-SameJob s)

-- the job with all its columns, but queued
abbrev pub as_queued : JobEntity → JobEntity
as_queued j = record j { status = queued }

-- The states are a path from `j`; or `j` was not queued, and they are a path from it as if it had been.
abbrev pub IsAttempt : JobEntity → List JobEntity → Type 0
IsAttempt j ks = IsPath j ks ⊎ ((j.status ≢ queued) × IsPath (as_queued j) ks)

-- the states that the calls `h` show over `js` are those of an attempt at the job that was found, if one
-- was
abbrev pub Attempts : Outcome (Option JobEntity) → List JobEntity → List Call → Type 0
Attempts (ok (some found)) js h =
    (ws : List JobEntity) × (saved_jobs h ≡ ws ++ js) × IsAttempt found ws
Attempts _ js h = saved_jobs h ≡ js

-- the states that the calls `h` show over `js` form a path from the job that was found, if one was
abbrev pub Follows : Outcome (Option JobEntity) → List JobEntity → List Call → Type 0
Follows (ok (some found)) js h = (ws : List JobEntity) × (saved_jobs h ≡ ws ++ js) × IsPath found ws
Follows _ js h = saved_jobs h ≡ js

-- ===== src/Scripts/Rows.antt =====
-- The jobs of scripts/seed-runner.ts against the lifecycle of a job.
use realtime_ops_platform.Prelude.{ℕ, ◌≤◌, String, List, [], ◌∷◌, ◌≡◌, refl, ◌⊎◌, inl, inr, arith}
use realtime_ops_platform.Core.Enums.{queued}
use realtime_ops_platform.Core.Value.{get, decimal}
use realtime_ops_platform.Core.Entities.{JobColumns, JobEntity}
use realtime_ops_platform.Jobs.Lifecycle.{IsConsistent}
use realtime_ops_platform.Jobs.Rows.{evaluate_failure}
use realtime_ops_platform.Scripts.Seed.{seeded_jobs}

-- the row of these columns: the database adds the id and its own dates
abbrev pub row_of : JobColumns → String → ℕ → JobEntity
row_of c id t = record {
  id = id;
  name = c.name;
  type = c.type;
  payload = c.payload;
  status = c.status;
  priority = c.priority;
  attempt_count = c.attempt_count;
  max_attempts = c.max_attempts;
  last_error = c.last_error;
  started_at = c.started_at;
  completed_at = c.completed_at;
  created_at = t;
  updated_at = t;
}

-- The row is one that the services leave: its dates and error agree with its status, it has had no more
-- attempts than it may have, and it is queued, or its error is that of its last attempt.
record Settles (j : JobEntity) : Type 0 where
  pub consistent : IsConsistent j
  pub bounded : j.attempt_count ≤ j.max_attempts
  pub outcome : (j.status ≡ queued) ⊎ (evaluate_failure j j.attempt_count ≡ j.last_error)

-- Each of the `n`-th columns of a list settles, as a row of any id.
abbrev AllSettle : List JobColumns → Type 0
AllSettle [] = Unit
AllSettle (c ∷ cs) = ((id : String) (t : ℕ) → Settles (row_of c id t)) × AllSettle cs

-- Whenever the seed is run, its jobs are rows that the services could have left.
seeded_jobs-Settle : (now : ℕ) → AllSettle (seeded_jobs now)
unfolding evaluate_failure get decimal
seeded_jobs-Settle now = (
  λ id t. record {
    consistent = record {
      queued_clean = λ e. absurd (cc);
      processing_dated = λ e. absurd (cc);
      completed_dated = λ e. ((_, refl), refl);
      failed_dated = λ e. absurd (cc);
    };
    bounded = omega arith;
    outcome = inr refl;
  },
  (
    λ id t. record {
      consistent = record {
        queued_clean = λ e. absurd (cc);
        processing_dated = λ e. absurd (cc);
        completed_dated = λ e. absurd (cc);
        failed_dated = λ e. ((_, refl), (_, refl));
      };
      bounded = omega arith;
      outcome = inr refl;
    },
    (
      λ id t. record {
        consistent = record {
          queued_clean = λ e. (refl, refl, refl);
          processing_dated = λ e. absurd (cc);
          completed_dated = λ e. absurd (cc);
          failed_dated = λ e. absurd (cc);
        };
        bounded = omega arith;
        outcome = inl refl;
      },
      tt,
    ),
  ),
)

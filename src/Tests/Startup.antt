-- ===== src/Tests/Startup.antt =====
-- The theorems about the schema and the scripts, at a sample catalogue and sample answers.

use realtime_ops_platform.Prelude.{
  ℕ, ◌<◌, List, [], ◌∷◌, ◌≡◌, refl, ◌⊎◌, Bool, false, true, Option, none, some, str_eq,
  if◌then◌else◌, arith, eq_refl, ltb, length,
}
use realtime_ops_platform.Core.Enums.{JobStatus, AlertStatus, high}
use realtime_ops_platform.Runtime.Calls
use realtime_ops_platform.Runtime.Calls.{Call, Answer, source_initialize}
use realtime_ops_platform.Runtime.Monad.{Env, Outcome, ok, err, plain_error, rejected}
use realtime_ops_platform.Runtime.Observe.{inserted_jobs}
use realtime_ops_platform.Jobs.Rows.{failure_alert, failure_incident}
use realtime_ops_platform.Alerts.{alert_incident}
use realtime_ops_platform.Schema.{
  Ddl, create_type, create_table, create_index, add_foreign_key, create_extension, drop_type,
  drop_table, drop_index, drop_constraint,
}
use realtime_ops_platform.Schema.Up.{up}
use realtime_ops_platform.Schema.Dropping.{down}
use realtime_ops_platform.Schema.Reversal.{Postgres, run, undo, down_restores}
use realtime_ops_platform.Schema.Entities.{entity, EntityName}
use realtime_ops_platform.Schema.Agreement.{Agrees, schema-Agrees}
use realtime_ops_platform.Schema.Widths.{Fits, titles_fit}
use realtime_ops_platform.Scripts.{wait_for_database, setup}
use realtime_ops_platform.Scripts.Seed.{seeded_jobs}
use realtime_ops_platform.Scripts.Waiting.{Fails, failed_attempts, wait_for_database-Ends}
use realtime_ops_platform.Scripts.Setup.{Prepared, setup_inserts}
use realtime_ops_platform.Tests.Samples.{sample_job, sample_alert, answer_of}

-- A catalogue: what was created and not dropped since. A drop takes the newest thing of its name, and
-- fails where there is none.
abbrev drops_it : Ddl → Ddl → Bool
drops_it (drop_type name) (create_type n _) = str_eq n name
drops_it (drop_table name) (create_table n _ _) = str_eq n name
drops_it (drop_index name) (create_index n _ _) = str_eq n name
drops_it (drop_constraint table name) (add_foreign_key t key) = str_eq key.name name
drops_it _ _ = false

abbrev take_out : Ddl → List Ddl → Option (List Ddl)
take_out d [] = none
take_out d (c ∷ cs) = if drops_it d c then some cs else none

abbrev execute_on : Ddl → List Ddl → Option (List Ddl)
execute_on (create_extension name) s = some (create_extension name ∷ s)
execute_on (create_type name values) s = some (create_type name values ∷ s)
execute_on (create_table name columns constraints) s =
    some (create_table name columns constraints ∷ s)
execute_on (create_index name table columns) s = some (create_index name table columns ∷ s)
execute_on (add_foreign_key table key) s = some (add_foreign_key table key ∷ s)
execute_on d s = take_out d s

catalogue_drops :
    (c d : Ddl) (s t : List Ddl)
    → undo c ≡ some d
    → execute_on c s ≡ some t
    → execute_on d t ≡ some s
catalogue_drops (create_type name values) d s t e f = ground (arith, e, f, eq_refl name)
catalogue_drops (create_table name columns constraints) d s t e f =
    ground (arith, e, f, eq_refl name)
catalogue_drops (create_index name table columns) d s t e f = ground (arith, e, f, eq_refl name)
catalogue_drops (add_foreign_key table key) d s t e f = ground (arith, e, f, eq_refl key.name)
catalogue_drops (create_extension _) d s t e f = absurd (cc)
catalogue_drops (drop_constraint _ _) d s t e f = absurd (cc)
catalogue_drops (drop_index _) d s t e f = absurd (cc)
catalogue_drops (drop_table _) d s t e f = absurd (cc)
catalogue_drops (drop_type _) d s t e f = absurd (cc)

abbrev catalogue : Postgres (List Ddl)
catalogue = record { execute = execute_on; drops = catalogue_drops }

-- the catalogue that `up` makes of an empty one
abbrev migrated : Option (List Ddl)
migrated = run catalogue up []

-- statements on top of a catalogue
abbrev stacked : List Ddl → List Ddl → List Ddl
stacked [] s = s
stacked (c ∷ cs) s = stacked cs (c ∷ s)

down_restores_example :
    (u : List Ddl) × (execute_on (create_extension "uuid-ossp") [] ≡ some u)
    × (run catalogue down (stacked up []) ≡ some u)
down_restores_example = down_restores catalogue [] (stacked up []) refl

schema-Agrees_example : Agrees up (entity EntityName.alert)
schema-Agrees_example = schema-Agrees EntityName.alert

titles_fit_example :
    let job = sample_job JobStatus.queued 0 false in
    let alert = sample_alert AlertStatus.opened in
    Fits "alerts" "title" (failure_alert job high "timeout").title
    × Fits "incidents" "title" (failure_incident job alert "timeout").title
    × Fits "incidents" "title" (alert_incident alert).title
titles_fit_example =
    titles_fit (sample_job JobStatus.queued 0 false) (sample_alert AlertStatus.opened) high
      "timeout" (80, refl, omega arith) (120, refl, omega arith)

-- a database that is reached at the third attempt, and has no jobs
abbrev late_answer : List Call → (c : Call) → Outcome (Answer c)
late_answer h Calls.source_initialize = if ltb (length h) 4 then err (rejected "refused") else ok tt
late_answer h (Calls.jobs_insert columns) =
    ok (sample_job JobStatus.completed 1 false ∷ sample_job JobStatus.failed 2 false ∷ [])
late_answer h c =
    ok (answer_of (record { job = none; alert = none; incident = none; lock = none }) c)

abbrev late_env : Env
late_env = record {
  answer = late_answer;
  clock = λ h. 5000000;
  has_channel = true;
  has_client = true;
}

wait_for_database-Ends_example :
    ((k : ℕ) × (k < 30)
      × ((j : ℕ) → j < k → Fails late_env (failed_attempts j []))
      × (wait_for_database late_env [] ≡ (ok tt, source_initialize ∷ failed_attempts k [])))
    ⊎ (((j : ℕ) → j < 30 → Fails late_env (failed_attempts j []))
        × (wait_for_database late_env [] ≡ (
          err (plain_error "Database did not become available in time"),
          failed_attempts 30 [],
        )))
wait_for_database-Ends_example = wait_for_database-Ends late_env []

setup_inserts_example :
    (inserted_jobs (setup late_env []).1 ≡ [])
    ⊎ (Prepared late_env []
        × ((t : ℕ) × (inserted_jobs (setup late_env []).1 ≡ seeded_jobs t ∷ [])))
setup_inserts_example = setup_inserts late_env []

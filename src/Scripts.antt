-- ===== src/Scripts.antt =====
-- scripts: db-setup.ts, migrate.ts, seed.ts and seed-runner.ts. What they print is left out.
pub mod Seed
pub mod Waiting
pub mod Setup
pub mod Rows
use realtime_ops_platform.Prelude.{ℕ, zero, suc, String, List, [], ◌∷◌, ltb, if◌then◌else◌}
use realtime_ops_platform.Runtime.Calls.{
  source_initialize, source_migrate, source_destroy, source_is_initialized, query_count,
  process_exit,
}
use realtime_ops_platform.Runtime.Monad.{
  Env, M, plain_error, pure, throw, ◌>>=◌, ◌>>◌, call, pause, try_catch,
}
use realtime_ops_platform.Scripts.Seed.{seed_runner}

abbrev pub max_retries : ℕ
max_retries = 30

abbrev pub retry_interval_ms : ℕ
retry_interval_ms = 2000

-- `Number(existing[0]?.count ?? 0)`
abbrev pub first_count : List ℕ → ℕ
first_count [] = 0
first_count (count ∷ counts) = count

abbrev pub count_query : String
count_query = "SELECT COUNT(1)::int AS count FROM jobs"

module _ (env : Env) where
  -- the loop of `waitForDatabase`, with the attempts that are left
  unfoldable pub wait_loop : ℕ → M (Unit {0})
  wait_loop zero = throw (plain_error "Database did not become available in time")
  wait_loop (suc left) =
      try_catch (call env source_initialize) (do pause retry_interval_ms; wait_loop left)

  unfoldable pub wait_for_database : M (Unit {0})
  wait_for_database = wait_loop max_retries

  unfoldable pub seed_if_empty : M (Unit {0})
  seed_if_empty = do
    existing ← call env (query_count count_query)
    if ltb 0 (first_count existing) then pure tt else seed_runner env

  -- `main` of db-setup.ts
  unfoldable pub setup : M (Unit {0})
  setup = do wait_for_database; call env source_migrate; seed_if_empty; call env source_destroy

  -- `main` of migrate.ts
  unfoldable pub migrate : M (Unit {0})
  migrate = do call env source_initialize; call env source_migrate; call env source_destroy

  -- `main` of seed.ts
  unfoldable pub seed : M (Unit {0})
  seed = do
    call env source_initialize
    existing ← call env (query_count count_query)
    if ltb 0 (first_count existing)
        then call env source_destroy
        else (do seed_runner env; call env source_destroy)

  -- the handler of `main().catch(…)`, the same in the three scripts
  unfoldable pub abort : M (Unit {0})
  abort = do
    initialized ← call env source_is_initialized
    if initialized
        then (do call env source_destroy; call env (process_exit 1))
        else call env (process_exit 1)

  unfoldable pub run_script : M (Unit {0}) → M (Unit {0})
  run_script main = try_catch main abort

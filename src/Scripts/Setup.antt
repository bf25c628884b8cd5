-- ===== src/Scripts/Setup.antt =====
-- When scripts/db-setup.ts and scripts/seed.ts insert the seed, and how a script ends.
use realtime_ops_platform.Prelude.{
  ℕ, zero, suc, List, [], ◌∷◌, ◌≡◌, refl, ◌∙◌, ap, ◌⊎◌, inl, inr, arith, true, false, ltb,
  Bool-cases,
}
use realtime_ops_platform.Runtime.Calls.{
  Call, source_migrate, source_destroy, query_count, read_clock, jobs_insert, process_exit,
  source_is_initialized,
}
use realtime_ops_platform.Core.Entities.{JobEntity}
use realtime_ops_platform.Runtime.Monad.{Env, Exception, M, ok, err, ◌>>=◌}
use realtime_ops_platform.Runtime.Observe.{inserted_jobs}
use realtime_ops_platform.Runtime.Triple.{outcome_cases}
use realtime_ops_platform.Scripts.Seed.{seed_rest, seed_runner, seeded_jobs}
use realtime_ops_platform.Scripts.{
  wait_for_database, seed_if_empty, setup, count_query, first_count, abort, run_script,
}
use realtime_ops_platform.Scripts.Waiting.{failed_attempts, wait_for_database-Ends}

module _ (env : Env) where
  seed_rest_inserts :
      (jobs : List JobEntity) (h : List Call)
      → inserted_jobs (seed_rest env jobs h).1 ≡ inserted_jobs h
  unfolding seed_rest ◌>>=◌
  seed_rest_inserts [] h = refl
  seed_rest_inserts (j ∷ []) h = refl
  seed_rest_inserts (j ∷ k ∷ js) h = ground arith

  seed_runner_inserts :
      (h : List Call)
      → inserted_jobs (seed_runner env h).1 ≡ seeded_jobs (env.clock h) ∷ inserted_jobs h
  unfolding seed_runner ◌>>=◌
  seed_runner_inserts h =
      elim (outcome_cases (env.answer (read_clock ∷ h) (jobs_insert (seeded_jobs (env.clock h))))) [
        | inl (jobs, e) ↦ ground (
          arith,
          e,
          seed_rest_inserts jobs (jobs_insert (seeded_jobs (env.clock h)) ∷ read_clock ∷ h),
        )
        | inr (x, e) ↦ ground (arith, e)
      ]

  -- the table of jobs was counted after the calls `g`, and was empty
  abbrev pub Empty : List Call → Type 0
  Empty g =
      (counts : List ℕ) × (env.answer g (query_count count_query) ≡ ok counts)
      × (first_count counts ≡ 0)

  seed_if_empty_inserts :
      (h : List Call)
      → (inserted_jobs (seed_if_empty env h).1 ≡ inserted_jobs h)
        ⊎ (Empty h
            × ((t : ℕ) × (inserted_jobs (seed_if_empty env h).1 ≡ seeded_jobs t ∷ inserted_jobs h)))
  unfolding seed_if_empty ◌>>=◌
  seed_if_empty_inserts h = elim (outcome_cases (env.answer h (query_count count_query))) [
    | inr (x, e) ↦ inl (ground (arith, e))
    | inl (counts, e) ↦ elim (Bool-cases (ltb 0 (first_count counts))) [
      | inl some_rows ↦ inl (ground (arith, e, some_rows))
      | inr none_yet ↦ inr (
        (counts, e, ground (arith, none_yet)),
        (
          env.clock (query_count count_query ∷ h),
          ground (arith, e, none_yet, seed_runner_inserts (query_count count_query ∷ h)),
        ),
      )
    ]
  ]

  failed_attempts_insert :
      (k : ℕ) (h : List Call) → inserted_jobs (failed_attempts k h) ≡ inserted_jobs h
  failed_attempts_insert zero h = refl
  failed_attempts_insert (suc k) h = failed_attempts_insert k _

  wait_inserts : (h : List Call) → inserted_jobs (wait_for_database env h).1 ≡ inserted_jobs h
  wait_inserts h = elim (wait_for_database-Ends env h) [
    | inl (k, _, _, run) ↦ rw run (failed_attempts_insert k h)
    | inr (_, run) ↦ rw run (failed_attempts_insert 30 h)
  ]

  setup_connects :
      (h g : List Call)
      → wait_for_database env h ≡ (ok tt, g)
      → (((x : Exception) × (env.answer g source_migrate ≡ err x))
          × (inserted_jobs (setup env h).1 ≡ inserted_jobs g))
        ⊎ ((env.answer g source_migrate ≡ ok tt)
            × (inserted_jobs (setup env h).1
                ≡ inserted_jobs (seed_if_empty env (source_migrate ∷ g)).1))
  unfolding setup ◌>>=◌
  setup_connects h g e = elim (outcome_cases (env.answer g source_migrate)) [
    | inl (_, m) ↦ inr (m, ground (arith, e, m))
    | inr (x, m) ↦ inl ((x, m), ground (arith, e, m))
  ]

  setup_fails :
      (h : List Call) (x : Exception)
      → (wait_for_database env h).0 ≡ err x
      → setup env h ≡ (err x, (wait_for_database env h).1)
  unfolding setup ◌>>=◌
  setup_fails h x e = ground (arith, e)

  -- the script connected, and migrated the schema, before it counted the jobs and found none
  abbrev pub Prepared : List Call → Type 0
  Prepared h =
      (g : List Call) × (wait_for_database env h ≡ (ok tt, g))
      × (env.answer g source_migrate ≡ ok tt)
      × Empty (source_migrate ∷ g)

  -- Whatever the data source answers, and whether db-setup.ts returns or throws, it has inserted no job,
  -- or the seeded jobs once: then the database had been reached, the migrations had run to their end
  -- after that, and the count of the jobs after them was answered as 0.
  pub setup_inserts :
      (h : List Call)
      → (inserted_jobs (setup env h).1 ≡ inserted_jobs h)
        ⊎ (Prepared h
            × ((t : ℕ) × (inserted_jobs (setup env h).1 ≡ seeded_jobs t ∷ inserted_jobs h)))
  setup_inserts h = elim (outcome_cases (wait_for_database env h).0) [
    | inr (x, e) ↦ inl (rw (setup_fails h x e) (wait_inserts h))
    | inl (_, e) ↦
        let g = (wait_for_database env h).1 in
        let reached : wait_for_database env h ≡ (ok tt, g) = ap (λ o. (o, g)) e in
        elim (setup_connects h g reached) [
          | inl (_, same) ↦ inl (same ∙ wait_inserts h)
          | inr (migrated, same) ↦ elim (seed_if_empty_inserts (source_migrate ∷ g)) [
            | inl none_added ↦ inl (same ∙ (none_added ∙ wait_inserts h))
            | inr (empty, (t, added)) ↦ inr (
              (g, reached, migrated, empty),
              (t, same ∙ (added ∙ ap (λ js. seeded_jobs t ∷ js) (wait_inserts h))),
            )
          ]
        ]
  ]

module _ (env : Env) (main : M (Unit {0})) (h : List Call) where
  abbrev pub Exits : Type 0
  Exits =
      ((rest : List Call) × ((run_script env main h).1 ≡ process_exit 1 ∷ rest))
      ⊎ ((y : Exception) × ((run_script env main h).0 ≡ err y))

  aborts :
      (x : Exception) (g : List Call) → main h ≡ (err x, g) → run_script env main h ≡ abort env g
  unfolding run_script abort ◌>>=◌
  aborts x g e = ground (arith, e)

  abort_ends :
      (g : List Call)
      → ((rest : List Call) × ((abort env g).1 ≡ process_exit 1 ∷ rest))
        ⊎ ((y : Exception) × ((abort env g).0 ≡ err y))
  unfolding abort ◌>>=◌
  abort_ends g = elim (outcome_cases (env.answer g source_is_initialized)) [
    | inr (y, e) ↦ inr (y, ground (arith, e))
    | inl (false, e) ↦ inl (source_is_initialized ∷ g, ground (arith, e))
    | inl (true, e) ↦ elim (outcome_cases (env.answer (source_is_initialized ∷ g) source_destroy)) [
      | inr (y, f) ↦ inr (y, ground (arith, e, f))
      | inl (_, f) ↦ inl (source_destroy ∷ source_is_initialized ∷ g, ground (arith, e, f))
    ]
  ]

  throws-Exits : (x : Exception) → (main h).0 ≡ err x → Exits
  throws-Exits x e = rw (aborts x (main h).1 (ap (λ o. (o, (main h).1)) e)) (abort_ends (main h).1)

  -- A script whose `main` returns makes no call after it. One whose `main` throws ends by exiting with
  -- the code 1, as its last call, unless asking for the state of the data source or closing it throws.
  pub run_script_ends :
      (((main h).0 ≡ ok tt) × (run_script env main h ≡ main h))
      ⊎ (((x : Exception) × ((main h).0 ≡ err x)) × Exits)
  unfolding run_script ◌>>=◌
  run_script_ends = elim (outcome_cases (main h).0) [
    | inl (_, e) ↦
        let run : main h ≡ (ok tt, (main h).1) = ap (λ o. (o, (main h).1)) e in
        inl (e, ground (arith, run))
    | inr (x, e) ↦ inr ((x, e), throws-Exits x e)
  ]

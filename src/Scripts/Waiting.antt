-- ===== src/Scripts/Waiting.antt =====
-- How long `waitForDatabase` of scripts/db-setup.ts waits.
use realtime_ops_platform.Prelude.{
  ℕ, zero, suc, ◌<◌, List, ◌∷◌, ◌≡◌, refl, ◌∙◌, ◌⊎◌, inl, inr, arith,
}
use realtime_ops_platform.Runtime.Calls.{Call, source_initialize, sleep}
use realtime_ops_platform.Runtime.Monad.{Env, Exception, ok, err, plain_error, ◌>>=◌}
use realtime_ops_platform.Runtime.Triple.{outcome_cases}
use realtime_ops_platform.Scripts.{wait_loop, wait_for_database, retry_interval_ms}

-- the calls of `k` attempts that failed, each with its pause
abbrev pub failed_attempts : ℕ → List Call → List Call
failed_attempts zero h = h
failed_attempts (suc k) h = failed_attempts k (sleep retry_interval_ms ∷ source_initialize ∷ h)

module _ (env : Env) where
  abbrev pub Fails : List Call → Type 0
  Fails h = (x : Exception) × (env.answer h source_initialize ≡ err x)

  -- Of `n` attempts, `k` failed and the next one succeeded, or all of them failed.
  abbrev pub Ends : ℕ → List Call → Type 0
  Ends n h =
      ((k : ℕ) × (k < n)
        × ((j : ℕ) → j < k → Fails (failed_attempts j h))
        × (wait_loop env n h ≡ (ok tt, source_initialize ∷ failed_attempts k h)))
      ⊎ (((j : ℕ) → j < n → Fails (failed_attempts j h))
          × (wait_loop env n h ≡ (
            err (plain_error "Database did not become available in time"),
            failed_attempts n h,
          )))

  wait_succeeds :
      (n : ℕ) (h : List Call)
      → env.answer h source_initialize ≡ ok tt
      → wait_loop env (suc n) h ≡ (ok tt, source_initialize ∷ h)
  unfolding wait_loop ◌>>=◌
  wait_succeeds n h e = ground (arith, e)

  wait_again :
      (n : ℕ) (h : List Call)
      → Fails h
      → wait_loop env (suc n) h ≡ wait_loop env n (sleep retry_interval_ms ∷ source_initialize ∷ h)
  unfolding wait_loop ◌>>=◌
  wait_again n h (x, e) = ground (arith, e)

  Fails-from :
      (n : ℕ) (h : List Call)
      → Fails h
      → ((j : ℕ)
          → j < n
          → Fails (failed_attempts j (sleep retry_interval_ms ∷ source_initialize ∷ h)))
      → (j : ℕ) → j < suc n
      → Fails (failed_attempts j h)
  Fails-from n h now later zero l = now
  Fails-from n h now later (suc j) l = later j (omega (arith, l))

  Ends-again :
      (n : ℕ) (h : List Call)
      → Fails h
      → Ends n (sleep retry_interval_ms ∷ source_initialize ∷ h)
      → Ends (suc n) h
  Ends-again n h failed (inl (k, l, before, run)) =
      inl (suc k, omega (arith, l), Fails-from k h failed before, wait_again n h failed ∙ run)
  Ends-again n h failed (inr (all, run)) =
      inr (Fails-from n h failed all, wait_again n h failed ∙ run)

  wait_loop-Ends : (n : ℕ) (h : List Call) → Ends n h
  unfolding wait_loop ◌>>=◌
  wait_loop-Ends zero h = inr (λ j l. absurd (omega (arith, l)), refl)
  wait_loop-Ends (suc n) h = elim (outcome_cases (env.answer h source_initialize)) [
    | inl (_, e) ↦ inl (0, omega arith, λ j l. absurd (omega (arith, l)), wait_succeeds n h e)
    | inr failed ↦ Ends-again n h failed (wait_loop-Ends n _)
  ]

  -- `waitForDatabase` ends, whatever the data source answers. Either one of 30 attempts to connect
  -- succeeds, all before it having failed, and it returns after that attempt; or all 30 fail, and it
  -- throws after them. After each attempt that failed it pauses for 2000 ms.
  pub wait_for_database-Ends :
      (h : List Call)
      → ((k : ℕ) × (k < 30)
          × ((j : ℕ) → j < k → Fails (failed_attempts j h))
          × (wait_for_database env h ≡ (ok tt, source_initialize ∷ failed_attempts k h)))
        ⊎ (((j : ℕ) → j < 30 → Fails (failed_attempts j h))
            × (wait_for_database env h ≡ (
              err (plain_error "Database did not become available in time"),
              failed_attempts 30 h,
            )))
  unfolding wait_for_database
  wait_for_database-Ends h = wait_loop-Ends 30 h

-- ===== src/Jobs/Processor/Outcome.antt =====
-- How an attempt ends: `finish` of job-processor.service.ts and the rows that it writes.
use realtime_ops_platform.Prelude.{
  ℕ, ◌+◌, String, List, ◌∷◌, ◌≡◌, refl, ap, ◌∙◌, Option, none, some, arith, ◌⊎◌, inl, inr,
}
use realtime_ops_platform.Core.Enums.{AttemptStatus, succeeded}
use realtime_ops_platform.Core.Entities.{JobEntity, AttemptColumns, ProcessingAttemptEntity}
use realtime_ops_platform.Runtime.Calls.{Call, read_clock, job_save, attempt_insert, attempt_save}
use realtime_ops_platform.Runtime.Monad.{Env, ok, ◌>>=◌, now, call, pause}
use realtime_ops_platform.Runtime.Observe.{saved_jobs, attempt_statuses}
use realtime_ops_platform.Runtime.Keeps.{keeps_rules}
use realtime_ops_platform.Runtime.Triple.{Triple, Post-of, Triple-bind, Triple-skip, Triple-call}
use realtime_ops_platform.Reports.{Quiet, report_rules}
use realtime_ops_platform.Jobs.Processor.Reporting.{report_completed-Keeps}
use realtime_ops_platform.Events.{
  publish_job_completed, publish_job_failed, publish_alert_raised, publish_incident_updated,
  publish_notification_created,
}
use realtime_ops_platform.Records.{log, create_notification}
use realtime_ops_platform.Jobs.Rows.{
  ProcessJobInput, succeeded_attempt, evaluate_failure, begun, started_attempt, succeeded_job,
  failed_job,
}
use realtime_ops_platform.Jobs.Processor.{
  report_completed, mark_completed, escalate, log_incident, announce_incident, report_failure,
  mark_failed, finish, attempt_job,
}

-- the job as it is left at the end of an attempt, with the message of its failure, if it failed
abbrev pub settled : JobEntity → Option String → ℕ → JobEntity
settled job none finished_at = succeeded_job job finished_at
settled job (some message) finished_at = failed_job job finished_at message

abbrev pub settled_attempt : Option String → AttemptStatus
settled_attempt none = succeeded
settled_attempt (some message) = AttemptStatus.failed

abbrev Rows : List JobEntity → List AttemptStatus → List Call → Type 0
Rows js ss h = (saved_jobs h ≡ js) × (attempt_statuses h ≡ ss)

Rows-Quiet : (js : List JobEntity) (ss : List AttemptStatus) → Quiet (Rows js ss)
Rows-Quiet js ss = record {
  clock = λ h p. p;
  notification = λ n h p. p;
  audit = λ a h p. p;
  event = λ x k e h p. p;
}

module _ (env : Env) where
  finish_writes :
      (job : JobEntity) (attempt : ProcessingAttemptEntity) (failure : Option String)
      (h : List Call)
      → (saved_jobs (finish env job attempt failure h).1 ≡ saved_jobs h)
        ⊎ (saved_jobs (finish env job attempt failure h).1
            ≡ settled job failure (env.clock h) ∷ saved_jobs h)
  unfolding finish mark_completed mark_failed escalate report_failure log_incident announce_incident
      log create_notification publish_job_failed publish_alert_raised publish_incident_updated
      publish_notification_created ◌>>=◌
  finish_writes job attempt none h =
      let t = env.clock h in
      let g : List Call =
        job_save (succeeded_job job t)
        ∷ attempt_save (succeeded_attempt attempt t)
        ∷ read_clock
        ∷ h in
      ground (
        arith,
        (report_completed-Keeps (Rows-Quiet (saved_jobs g) (attempt_statuses g)) env job attempt
              t).at
            g (refl, refl),
      )
  finish_writes job attempt (some message) h = ground arith

  finish_ok :
      (job : JobEntity) (attempt : ProcessingAttemptEntity) (failure : Option String)
      (h : List Call)
      → (finish env job attempt failure h).0 ≡ ok tt
      → (saved_jobs (finish env job attempt failure h).1
          ≡ settled job failure (env.clock h) ∷ saved_jobs h)
        × (attempt_statuses (finish env job attempt failure h).1
            ≡ settled_attempt failure ∷ attempt_statuses h)
  unfolding finish mark_completed report_completed mark_failed escalate report_failure log_incident
      announce_incident log create_notification publish_job_completed publish_job_failed
      publish_alert_raised publish_incident_updated publish_notification_created ◌>>=◌
  finish_ok job attempt none h e = ground arith
  finish_ok job attempt (some message) h e = ground arith

-- the failure of the attempt that comes next
abbrev pub failure_of : JobEntity → Option String
failure_of found = evaluate_failure found (found.attempt_count + 1)

-- What an attempt at `found` has asked to write, over the writes `js` and `ss` from before it.
module _ (found : JobEntity) (js : List JobEntity) (ss : List AttemptStatus) where
  -- it returned: both rows have their last state
  abbrev pub Settled : List Call → Type 0
  Settled h =
      (t : ℕ) × (u : ℕ) × (saved_jobs h
        ≡ settled (begun found t) (failure_of found) u ∷ begun found t ∷ js)
      × (attempt_statuses h ≡ settled_attempt (failure_of found) ∷ AttemptStatus.started ∷ ss)

  -- it threw: the job is as it was, or begun, or settled
  abbrev pub Broken : List Call → Type 0
  Broken h =
      (saved_jobs h ≡ js)
      ⊎ ((t : ℕ) × (saved_jobs h ≡ begun found t ∷ js))
      ⊎ ((t : ℕ) × (u : ℕ) × (saved_jobs h
            ≡ settled (begun found t) (failure_of found) u ∷ begun found t ∷ js))

  Broken-of :
      (h g : List Call) (t u : ℕ)
      → (saved_jobs g ≡ saved_jobs h)
        ⊎ (saved_jobs g ≡ settled (begun found t) (failure_of found) u ∷ saved_jobs h)
      → (saved_jobs h ≡ begun found t ∷ js) × (attempt_statuses h ≡ AttemptStatus.started ∷ ss)
      → Broken g
  Broken-of h g t u (inl e) (p, _) = inr (inl (t, e ∙ p))
  Broken-of h g t u (inr e) (p, _) =
      inr (inr (t, u, e ∙ ap (λ js'. settled (begun found t) (failure_of found) u ∷ js') p))

  finish-Triple :
      (env : Env) (t : ℕ) (attempt : ProcessingAttemptEntity)
      → Triple
          (λ h.
            (saved_jobs h ≡ begun found t ∷ js) × (attempt_statuses h ≡ AttemptStatus.started ∷ ss))
          (λ _ h. Settled h)
          Broken
          (finish env (begun found t) attempt (failure_of found))
  finish-Triple env t attempt = record {
    at = λ h p.
        let r = finish env (begun found t) attempt (failure_of found) h in
        Post-of Settled Broken r
          (λ e.
            let w = finish_ok env (begun found t) attempt (failure_of found) h e in
            (t, env.clock h, ground (arith, w), ground (arith, w)))
          (Broken-of h r.1 t (env.clock h)
            (finish_writes env (begun found t) attempt (failure_of found) h) p);
  }

  -- The conditions between the writes: the job is begun, and the attempt has a row.
  abbrev Begun : ℕ → List Call → Type 0
  Begun t h = (saved_jobs h ≡ begun found t ∷ js) × (attempt_statuses h ≡ ss)

  abbrev Recorded : ℕ → List Call → Type 0
  Recorded t h =
      (saved_jobs h ≡ begun found t ∷ js) × (attempt_statuses h ≡ AttemptStatus.started ∷ ss)

  abbrev row : ℕ → AttemptColumns
  row t = started_attempt (begun found t) (found.attempt_count + 1) t

  pub attempt_job-Triple :
      (env : Env) (input : ProcessJobInput)
      → Triple
          (λ h. (saved_jobs h ≡ js) × (attempt_statuses h ≡ ss))
          (λ _ h. Settled h)
          Broken
          (attempt_job env input found)
  unfolding attempt_job evaluate_failure
  attempt_job-Triple env input =
      Triple-skip (now env) _ (search keeps_rules) (λ h p. inl p.0)
        λ t.
          Triple-bind {R = λ _. Begun t} (call env (job_save (begun found t))) _
            (Triple-call env (job_save (begun found t)) {Q = λ _. Begun t}
              (λ _ h p. (ap (λ w. begun found t ∷ w) p.0, p.1))
              (λ h p. inr (inl (t, ap (λ w. begun found t ∷ w) p.0))))
            λ _.
              Triple-skip _ _ (search (report_rules, Rows-Quiet)) (λ h p. inr (inl (t, p.0)))
                λ _.
                  Triple-skip _ _ (search (report_rules, Rows-Quiet)) (λ h p. inr (inl (t, p.0)))
                    λ _.
                      Triple-bind {R = λ _. Recorded t} (call env (attempt_insert (row t))) _
                        (Triple-call env (attempt_insert (row t)) {Q = λ _. Recorded t}
                          (λ _ h p. (p.0, ap (λ w. AttemptStatus.started ∷ w) p.1))
                          (λ h p. inr (inl (t, p.0))))
                        λ attempt.
                          Triple-skip (pause 120) _ (search keeps_rules) (λ h p. inr (inl (t, p.0)))
                            (λ _. finish-Triple env t attempt)

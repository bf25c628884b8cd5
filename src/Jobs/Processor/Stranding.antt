-- ===== src/Jobs/Processor/Stranding.antt =====
-- What job-processor.service.ts leaves where the audit log cannot be written.
use realtime_ops_platform.Prelude.{ℕ, List, ◌∷◌, ◌≡◌, refl, inl, inr, ap, subst, sym}
use realtime_ops_platform.Core.Entities.{AuditColumns, JobEntity}
use realtime_ops_platform.Runtime.Calls.{Call, audit_insert, job_save}
use realtime_ops_platform.Runtime.Monad.{Env, Exception, Outcome, call, err, now, ok}
use realtime_ops_platform.Runtime.Observe.{saved_jobs}
use realtime_ops_platform.Runtime.Triple.{
  Post, Triple, Triple-bind, Triple-call, Triple-skip, either_way, outcome_cases,
}
use realtime_ops_platform.Reports.{Quiet, report_rules}
use realtime_ops_platform.Records.{log}
use realtime_ops_platform.Jobs.Rows.{ProcessJobInput, begun}
use realtime_ops_platform.Jobs.Processor.{attempt_job, process}
use realtime_ops_platform.Jobs.Processor.Writes.{Loads, after_find, process_run}

-- every insert of an audit entry throws
abbrev pub AuditFails : Env → Exception → Type 0
AuditFails env x = (a : AuditColumns) (g : List Call) → env.answer g (audit_insert a) ≡ err x

module _ {P E : List Call → Type 0} where
  log-Triple :
      (env : Env) (x : Exception) (a : AuditColumns)
      → AuditFails env x
      → ((h : List Call) → P h → E (audit_insert a ∷ h))
      → Triple P (λ _ _. ⊥) E (log env a)
  unfolding log call
  log-Triple env x a fails e = record {
    at = λ h p. subst (λ o. Post (λ _ _. ⊥) E (o, audit_insert a ∷ h)) (sym (fails a h)) (e h p);
  }

Triple-never :
    {A : Type 0} {Q : A → List Call → Type 0} {E : List Call → Type 0}
    (m : List Call → Outcome A × List Call)
    → Triple (λ _. ⊥) Q E m
Triple-never m = record { at = λ h p. absurd p }

-- over the states `js` from before, the job is begun, and no more
abbrev pub Stranded : JobEntity → List JobEntity → List Call → Type 0
Stranded found js h = (t : ℕ) × (saved_jobs h ≡ begun found t ∷ js)

saved_jobs-Quiet : (js : List JobEntity) → Quiet (λ h. saved_jobs h ≡ js)
saved_jobs-Quiet js = record {
  clock = λ h p. p;
  notification = λ n h p. p;
  audit = λ a h p. p;
  event = λ x k e h p. p;
}

module _ (env : Env) (x : Exception) (found : JobEntity) (js : List JobEntity)
    (input : ProcessJobInput) where
  abbrev Before : ℕ → List Call → Type 0
  Before t h = saved_jobs h ≡ begun found t ∷ js

  abbrev Looked : List Call → Type 0
  Looked h = (saved_jobs h ≡ js)

  saves_only :
      (t : ℕ)
      → Triple Looked (λ _. Before t) (Stranded found js) (call env (job_save (begun found t)))
  saves_only t =
      Triple-call env (job_save (begun found t)) (λ _ h p. ap (λ w. begun found t ∷ w) p)
        (λ h p. (t, ap (λ w. begun found t ∷ w) p))

  reads_clock : Triple Looked (λ _. Looked) (Stranded found js) (now env)
  unfolding now
  reads_clock = record { at = λ h p. p }

  attempt_job-Stranded :
      AuditFails env x → Triple Looked (λ _ _. ⊥) (Stranded found js) (attempt_job env input found)
  unfolding attempt_job
  attempt_job-Stranded fails = Triple-bind {R = λ _. Looked} (now env) _ reads_clock λ t.
      Triple-bind {R = λ _. Before t} (call env (job_save (begun found t))) _ (saves_only t) λ _.
        Triple-skip _ _ (search (report_rules, saved_jobs-Quiet)) (λ h p. (t, p))
          λ _.
            Triple-bind {R = λ _ _. ⊥} (log env _) _ (log-Triple env x _ fails (λ h p. (t, p)))
              λ _. Triple-never _

never_returns :
    {A : Type 0} (E : List Call → Type 0) (r : Outcome A × List Call)
    → Post (λ _ _. ⊥) E r
    → (e : Exception) × (r.0 ≡ err e)
never_returns E (ok a, h) p = absurd p
never_returns E (err e, h) p = (e, refl)

-- Where no audit entry can be inserted, `process` throws for a job that it finds, and leaves the job as
-- begun: the last state that it asks to write is `processing`, with the attempt counted.
pub process_strands :
    (env : Env) (input : ProcessJobInput) (h : List Call) {found : JobEntity} (x : Exception)
    → Loads env input h found
    → AuditFails env x
    → Stranded found (saved_jobs h) (process env input h).1
      × ((e : Exception) × ((process env input h).0 ≡ err e))
process_strands env input h {found} x l fails =
    let (calls, returns) = process_run env input h l in
    let post =
      (attempt_job-Stranded env x found (saved_jobs h) input fails).at (after_find input h) refl in
    let (y, thrown) = never_returns (Stranded found (saved_jobs h)) _ post in
    (
      subst (Stranded found (saved_jobs h)) (sym calls) (
          either_way (λ _ _. ⊥) (Stranded found (saved_jobs h)) (Stranded found (saved_jobs h))
            (λ a g p. absurd p) (λ g p. p) _ post),
      elim (outcome_cases (process env input h).0) [
        | inl (_, e) ↦ absurd (let ended = returns e in cc)
        | inr failed ↦ failed
      ],
    )

-- ===== src/Jobs/Processor/Escalation.antt =====
-- What a failed attempt raises: `markFailed` of job-processor.service.ts, its alert and its incident.
use Prim.Native.String
use realtime_ops_platform.Prelude.{
  ℕ, ◌+◌, ◌≤◌, String, List, ◌∷◌, ◌≡◌, refl, ap, leb→le, ◌⊎◌, inl, inr, Option, none, some, arith,
  leb, if◌then◌else◌, Bool-cases,
}
use realtime_ops_platform.Core.Enums.{AlertSeverity, AlertStatus, IncidentStatus, high, critical}
use realtime_ops_platform.Core.Entities.{
  JobEntity, ProcessingAttemptEntity, AlertEntity, AlertColumns, IncidentColumns,
}
use realtime_ops_platform.Runtime.Calls.{Call, alert_insert, incident_insert}
use realtime_ops_platform.Runtime.Monad.{Env, ok, now, call, pause}
use realtime_ops_platform.Runtime.Observe.{opened_alerts, opened_incidents}
use realtime_ops_platform.Runtime.Keeps.{keeps_rules}
use realtime_ops_platform.Runtime.Triple.{
  Triple, Triple-Keeps, Triple-pure, Triple-call, Triple-answered, Triple-frame, Triple-bind,
  Triple-skip,
}
use realtime_ops_platform.Reports.{Quiet, report_rules}
use realtime_ops_platform.Jobs.Processor.Reporting.{reporting, report_failure-Keeps}
use realtime_ops_platform.Jobs.Rows.{
  ProcessJobInput, evaluate_failure, begun, failure_alert, failure_incident, failure_severity,
}
use realtime_ops_platform.Jobs.Processor.{
  mark_completed, escalate, mark_failed, finish, attempt_job,
}
use realtime_ops_platform.Jobs.Processor.Outcome.{failure_of}

-- the severity that docs/domain-model.md gives to the failure of attempt `n` of `max_attempts`
abbrev pub severity_of : ℕ → ℕ → AlertSeverity
severity_of n max_attempts = if leb max_attempts n then critical else high

-- the alert that a failure raises
abbrev pub raised_row : JobEntity → ℕ → String → AlertColumns
raised_row job n message = record {
  job_id = some job.id;
  source = "processing-service";
  severity = severity_of n job.max_attempts;
  status = AlertStatus.opened;
  title = String.◌++◌ "Job processing failed: " job.name;
  description = message;
}

-- the incident for an alert
abbrev pub opened_row : JobEntity → AlertEntity → String → IncidentColumns
opened_row job alert message = record {
  alert_id = some alert.id;
  title = String.◌++◌ "Critical incident for job " job.name;
  summary = message;
  status = IncidentStatus.opened;
}

-- the database has answered the insert of the row by this alert
abbrev pub Inserted : Env → AlertColumns → AlertEntity → Type 0
Inserted env row alert = (g : List Call) × (env.answer g (alert_insert row) ≡ ok alert)

module _ (env : Env) (job : JobEntity) (n : ℕ) (alerts : List AlertColumns)
    (incidents : List IncidentColumns) where
  -- attempt `n` returned: no alert if it succeeded; if it failed, one alert, and an incident for that
  -- alert exactly if no attempt is left
  abbrev pub Escalated : Option String → List Call → Type 0
  Escalated none h = (opened_alerts h ≡ alerts) × (opened_incidents h ≡ incidents)
  Escalated (some message) h =
      (alert : AlertEntity) × Inserted env (raised_row job n message) alert
      × (opened_alerts h ≡ raised_row job n message ∷ alerts)
      × (opened_incidents h ≡ (
          if leb job.max_attempts n then opened_row job alert message ∷ incidents else incidents))

module _ (job : JobEntity) (n : ℕ) (incidents : List IncidentColumns) where
  -- in any case: no incident, or one for the failure of the last attempt
  abbrev pub Warranted : Option String → List Call → Type 0
  Warranted failure h =
      (opened_incidents h ≡ incidents)
      ⊎ ((message : String) × (alert : AlertEntity) × (failure ≡ some message)
          × (job.max_attempts ≤ n)
          × (opened_incidents h ≡ failure_incident job alert message ∷ incidents))

abbrev Raised : List AlertColumns → List IncidentColumns → List Call → Type 0
Raised alerts incidents h = (opened_alerts h ≡ alerts) × (opened_incidents h ≡ incidents)

Raised-Quiet :
    (alerts : List AlertColumns) (incidents : List IncidentColumns)
    → Quiet (Raised alerts incidents)
Raised-Quiet alerts incidents = record {
  clock = λ h p. p;
  notification = λ n h p. p;
  audit = λ a h p. p;
  event = λ x k e h p. p;
}

module _ (env : Env) (job : JobEntity) (alerts : List AlertColumns)
    (incidents : List IncidentColumns) where
  abbrev opened : AlertEntity → String → IncidentColumns
  opened alert message = failure_incident job alert message

  -- the incidents once `markFailed` has seen to that of `alert`
  abbrev with_incident : AlertEntity → String → List IncidentColumns
  with_incident alert message =
      if leb job.max_attempts job.attempt_count
      then failure_incident job alert message ∷ incidents
      else incidents

  escalate-Triple :
      (row : AlertColumns) (alert : AlertEntity) (message : String)
      → Triple
          (Raised (row ∷ alerts) incidents)
          (λ _. Raised (row ∷ alerts) (with_incident alert message))
          (Warranted job job.attempt_count incidents (some message))
          (escalate env job alert (failure_severity job) message)
  unfolding escalate
  escalate-Triple row alert message = elim (Bool-cases (leb job.max_attempts job.attempt_count)) [
    | inl last ↦ rw last (
        Triple-bind {R = λ _. Raised (row ∷ alerts) (opened alert message ∷ incidents)}
          (call env (incident_insert (opened alert message))) _
          (Triple-call env (incident_insert (opened alert message))
            {Q = λ _. Raised (row ∷ alerts) (opened alert message ∷ incidents)}
            (λ _ h p. (p.0, ap (λ w. opened alert message ∷ w) p.1))
            (λ h p.
              inr (message, alert, refl, leb→le _ _ last, ap (λ w. opened alert message ∷ w) p.1)))
          λ incident. Triple-pure (some incident) (λ h p. p))
    | inr early ↦ rw early (Triple-pure none (λ h p. p))
  ]

  abbrev row : String → AlertColumns
  row message = failure_alert job (failure_severity job) message

  Warranted-of :
      (alert : AlertEntity) (message : String) (h : List Call)
      → opened_incidents h ≡ with_incident alert message
      → Warranted job job.attempt_count incidents (some message) h
  Warranted-of alert message h e = elim (Bool-cases (leb job.max_attempts job.attempt_count)) [
    | inl last ↦ inr (message, alert, refl, leb→le _ _ last, ground arith)
    | inr early ↦ inl (ground arith)
  ]

  finish-Triple :
      (attempt : ProcessingAttemptEntity) (failure : Option String)
      → Triple
          (Raised alerts incidents)
          (λ _. Escalated env job job.attempt_count alerts incidents failure)
          (Warranted job job.attempt_count incidents failure)
          (finish env job attempt failure)
  unfolding finish mark_completed mark_failed
  finish-Triple attempt none =
      Triple-Keeps _ (search (keeps_rules, reporting, Raised-Quiet) depth 12) (λ _ h p. p)
        (λ h p. inl p.1)
  finish-Triple attempt (some message) =
      Triple-skip (now env) _ (search keeps_rules) (λ h p. inl p.1)
        λ t.
          Triple-skip _ _ (search keeps_rules) (λ h p. inl p.1)
            λ _.
              Triple-skip _ _ (search keeps_rules) (λ h p. inl p.1)
                λ _.
                  Triple-bind
                    {R = λ alert h.
                      Inserted env (row message) alert × Raised (row message ∷ alerts) incidents h}
                    (call env (alert_insert (row message))) _
                    (Triple-answered env (alert_insert (row message))
                      {Q = λ alert h.
                        Inserted env (row message) alert
                        × Raised (row message ∷ alerts) incidents h}
                      (λ alert h e p. ((h, e), (ap (λ w. row message ∷ w) p.0, p.1)))
                      (λ h p. inl p.1))
                    λ alert. Triple-frame _ λ inserted.
                      Triple-bind
                        {R = λ _. Raised (row message ∷ alerts) (with_incident alert message)}
                        (escalate env job alert (failure_severity job) message) _
                        (escalate-Triple (row message) alert message)
                        λ incident.
                          Triple-Keeps _
                            (report_failure-Keeps (Raised-Quiet _ _) env job attempt message t alert
                              incident)
                            (λ _ h p. (alert, inserted, p.0, p.1))
                            (λ h p. Warranted-of alert message h p.1)

-- A whole attempt at `found`: its number is one more than the count that was found.
module _ (env : Env) (found : JobEntity) (alerts : List AlertColumns)
    (incidents : List IncidentColumns) where
  pub attempt_job-Triple :
      (input : ProcessJobInput)
      → Triple
          (Raised alerts incidents)
          (λ _. Escalated env found (found.attempt_count + 1) alerts incidents (failure_of found))
          (Warranted found (found.attempt_count + 1) incidents (failure_of found))
          (attempt_job env input found)
  unfolding attempt_job evaluate_failure
  attempt_job-Triple input =
      Triple-skip (now env) _ (search keeps_rules) (λ h p. inl p.1)
        λ t.
          Triple-skip _ _ (search keeps_rules) (λ h p. inl p.1)
            λ _.
              Triple-skip _ _ (search (report_rules, Raised-Quiet)) (λ h p. inl p.1)
                λ _.
                  Triple-skip _ _ (search (report_rules, Raised-Quiet)) (λ h p. inl p.1)
                    λ _.
                      Triple-skip _ _ (search keeps_rules) (λ h p. inl p.1)
                        λ attempt.
                          Triple-skip (pause 120) _ (search keeps_rules) (λ h p. inl p.1)
                            λ _.
                              finish-Triple env (begun found t) alerts incidents attempt
                                (failure_of found)

pub Escalated-Warranted :
    (env : Env) (job : JobEntity) (n : ℕ) (alerts : List AlertColumns)
    (incidents : List IncidentColumns) (failure : Option String) (h : List Call)
    → Escalated env job n alerts incidents failure h
    → Warranted job n incidents failure h
Escalated-Warranted env job n alerts incidents none h e = inl e.1
Escalated-Warranted env job n alerts incidents (some message) h (alert, inserted, raised, opened) =
    elim (Bool-cases (leb job.max_attempts n)) [
      | inl last ↦ inr (message, alert, refl, leb→le _ _ last, ground arith)
      | inr early ↦ inl (ground arith)
    ]

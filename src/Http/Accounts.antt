-- ===== src/Http/Accounts.antt =====
-- What every method of the API's controllers puts on record about the operator who asked for it.
use realtime_ops_platform.Prelude.{
  String, List, ◌≡◌, refl, sym, subst, ap, Option, none, some, arith, inl, inr,
}
use realtime_ops_platform.Core.Enums.{EntityType}
use realtime_ops_platform.Core.Value.{Number}
use realtime_ops_platform.Runtime.Calls.{Call}
use realtime_ops_platform.Runtime.Monad.{Env, M, Run, ok, err, pure, and_then, ◌>>=◌}
use realtime_ops_platform.Runtime.Observe.{OnRecord, acted, audited}
use realtime_ops_platform.Jobs.Service
use realtime_ops_platform.Alerts
use realtime_ops_platform.Records.{get_client}
use realtime_ops_platform.Messaging.{publish_event, ensure_channel}
use realtime_ops_platform.Listing.{list_jobs, list_alerts, list_audit, list_notifications}
use realtime_ops_platform.Health.{check_database, check_redis, check_rabbit, get_health}
use realtime_ops_platform.Jobs.Status.{get_status_summary-Reads}
use realtime_ops_platform.Http.Requests.{
  ListJobsQueryDto, ListAlertsQueryDto, ListAuditEntriesQueryDto, ListNotificationsQueryDto,
}
use realtime_ops_platform.Http.Controllers
use realtime_ops_platform.Http.Routes.{Action, Returned, perform}
use realtime_ops_platform.Http.Windows.{and_then-pure}
use realtime_ops_platform.Jobs.Service.Accounts as JobAccounts
use realtime_ops_platform.Alerts.Accounts as AlertAccounts
use realtime_ops_platform.Incidents.Accounts as IncidentAccounts

-- the kind of row that a method changes, if it is a command
abbrev pub command : Action → Option EntityType
command (Action.create_job dto) = some EntityType.job
command (Action.retry_job id) = some EntityType.job
command (Action.create_alert dto) = some EntityType.alert
command (Action.acknowledge_incident id) = some EntityType.incident
command (Action.resolve_incident id) = some EntityType.incident
command _ = none

-- one operator action and one audit entry for a command, and none for what only reads
abbrev pub Accounted : Option EntityType → String → List Call → List Call → Type 0
Accounted none operator_id h g = (acted g ≡ acted h) × (audited g ≡ audited h)
Accounted (some type) operator_id h g = (id : String) × OnRecord operator_id type id h g

returned_of :
    {A B : Type 0} (r : Run A) (f : A → B) {b : B}
    → (and_then r (λ a. pure (f a))).0 ≡ ok b
    → (a : A) × (r.0 ≡ ok a)
unfolding pure
returned_of (ok a, h) f e = (a, refl)
returned_of (err x, h) f e = absurd (cc)

module _ (env : Env) (h : List Call) where
  -- what only reads adds nothing to the records
  abbrev Adds : {A : Type 0} → M A → Type 0
  Adds m = (acted (m h).1 ≡ acted h) × (audited (m h).1 ≡ audited h)

  get_job-Adds : (id : String) → Adds (Controllers.get_job env id)
  unfolding Controllers.get_job Service.get_by_id ◌>>=◌
  get_job-Adds id = (ground arith, ground arith)

  get_job_status-Adds : (id : String) → Adds (Controllers.get_job_status env id)
  unfolding Controllers.get_job_status Service.get_by_id Service.get_status ◌>>=◌
  get_job_status-Adds id = (ground arith, ground arith)

  get_alert-Adds : (id : String) → Adds (Controllers.get_alert env id)
  unfolding Controllers.get_alert Alerts.get_by_id ◌>>=◌
  get_alert-Adds id = (ground arith, ground arith)

  list_jobs-Adds : (query : ListJobsQueryDto) → Adds (Controllers.list_jobs_page env query)
  unfolding Controllers.list_jobs_page list_jobs ◌>>=◌
  list_jobs-Adds query = (ground arith, ground arith)

  list_alerts-Adds : (query : ListAlertsQueryDto) → Adds (Controllers.list_alerts_page env query)
  unfolding Controllers.list_alerts_page list_alerts ◌>>=◌
  list_alerts-Adds query = (ground arith, ground arith)

  list_audit-Adds :
      (query : ListAuditEntriesQueryDto) → Adds (Controllers.list_audit_entries env query)
  unfolding Controllers.list_audit_entries list_audit ◌>>=◌
  list_audit-Adds query = (ground arith, ground arith)

  list_notifications-Adds :
      (query : ListNotificationsQueryDto) → Adds (Controllers.list_notifications_page env query)
  unfolding Controllers.list_notifications_page list_notifications ◌>>=◌
  list_notifications-Adds query = (ground arith, ground arith)

  get_health-Adds : Adds (Controllers.get_health_status env)
  unfolding Controllers.get_health_status get_health check_database check_redis check_rabbit
      get_client publish_event ensure_channel ◌>>=◌
  get_health-Adds = (ground arith, ground arith)

  get_status-Adds :
      (to_number : String → Number) → Adds (Controllers.get_processing_status env to_number)
  unfolding Controllers.get_processing_status
  get_status-Adds to_number = elim (get_status_summary-Reads env to_number h) [
    | inl (view, e, calls, reads) ↦ (ap acted calls, ap audited calls)
    | inr (x, e, calls) ↦ (ap acted calls, ap audited calls)
  ]

-- what holds of the calls of a method holds of those of `perform`
wrapped_calls :
    {A B : Type 0} (P : List Call → Type 0) (r : Run A) (f : A → B)
    → P r.1
    → P (and_then r (λ a. pure (f a))).1
wrapped_calls P r f p = subst P (sym (and_then-pure r f)) p

module _ (env : Env) (to_number : String → Number) (operator_id : String) (h : List Call) where
  abbrev Read : List Call → Type 0
  Read = Accounted none operator_id h

  -- Whichever method is called for an operator: when a command returns, it has inserted one operator
  -- action and one audit entry, both by this operator and about the same row, of the kind that the
  -- command changes; a method that only reads has inserted neither.
  pub perform_accounts :
      (action : Action) {returned : Returned}
      → (perform env to_number action operator_id h).0 ≡ ok returned
      → Accounted (command action) operator_id h (perform env to_number action operator_id h).1
  unfolding perform Controllers.create_job Controllers.retry_job Controllers.create_alert
      Controllers.acknowledge_incident Controllers.resolve_incident ◌>>=◌
  perform_accounts (Action.create_job dto) e =
      let (job, r) = returned_of (Controllers.create_job env dto operator_id h) Returned.job e in
      wrapped_calls (Accounted (some EntityType.job) operator_id h)
        (Controllers.create_job env dto operator_id h) Returned.job
        (job.id, JobAccounts.create-OnRecord env h _ job r)
  perform_accounts (Action.retry_job id) e =
      let (job, r) = returned_of (Controllers.retry_job env id operator_id h) Returned.job e in
      wrapped_calls (Accounted (some EntityType.job) operator_id h)
        (Controllers.retry_job env id operator_id h) Returned.job
        (job.id, JobAccounts.retry-OnRecord env h id operator_id job r)
  perform_accounts (Action.create_alert dto) e =
      let ((alert, incident), r) =
        returned_of (Controllers.create_alert env dto operator_id h) Returned.raised e in
      wrapped_calls (Accounted (some EntityType.alert) operator_id h)
        (Controllers.create_alert env dto operator_id h) Returned.raised
        (alert.id, AlertAccounts.create-OnRecord env h _ alert incident r)
  perform_accounts (Action.acknowledge_incident id) e =
      let (incident, r) =
        returned_of (Controllers.acknowledge_incident env id operator_id h) Returned.incident e in
      wrapped_calls (Accounted (some EntityType.incident) operator_id h)
        (Controllers.acknowledge_incident env id operator_id h) Returned.incident
        (IncidentAccounts.acknowledge-OnRecord env h id operator_id incident r)
  perform_accounts (Action.resolve_incident id) e =
      let (incident, r) =
        returned_of (Controllers.resolve_incident env id operator_id h) Returned.incident e in
      wrapped_calls (Accounted (some EntityType.incident) operator_id h)
        (Controllers.resolve_incident env id operator_id h) Returned.incident
        (IncidentAccounts.resolve-OnRecord env h id operator_id incident r)
  perform_accounts (Action.list_jobs query) e =
      wrapped_calls Read (Controllers.list_jobs_page env query h) Returned.jobs
        (list_jobs-Adds env h query)
  perform_accounts (Action.get_job id) e =
      wrapped_calls Read (Controllers.get_job env id h) Returned.job (get_job-Adds env h id)
  perform_accounts (Action.get_job_status id) e =
      wrapped_calls Read (Controllers.get_job_status env id h) Returned.job_status
        (get_job_status-Adds env h id)
  perform_accounts (Action.list_alerts query) e =
      wrapped_calls Read (Controllers.list_alerts_page env query h) Returned.alerts
        (list_alerts-Adds env h query)
  perform_accounts (Action.get_alert id) e =
      wrapped_calls Read (Controllers.get_alert env id h) Returned.alert (get_alert-Adds env h id)
  perform_accounts (Action.list_notifications query) e =
      wrapped_calls Read (Controllers.list_notifications_page env query h) Returned.notifications
        (list_notifications-Adds env h query)
  perform_accounts (Action.list_audit_entries query) e =
      wrapped_calls Read (Controllers.list_audit_entries env query h) Returned.audit_entries
        (list_audit-Adds env h query)
  perform_accounts Action.get_status e =
      wrapped_calls Read (Controllers.get_processing_status env to_number h) Returned.summary
        (get_status-Adds env h to_number)
  perform_accounts Action.get_health e =
      wrapped_calls Read (Controllers.get_health_status env h) Returned.health
        (get_health-Adds env h)

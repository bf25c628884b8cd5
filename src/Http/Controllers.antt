-- ===== src/Http/Controllers.antt =====
-- apps/api-gateway/src: the controllers, with the values that they put in place of what is left out, and
-- apps/realtime-gateway/src/realtime-health.controller.ts.
use realtime_ops_platform.Prelude.{String, false, Option, none, some}
use realtime_ops_platform.Core.Value.{Fields, Number, end, field, str, iso}
use realtime_ops_platform.Core.Entities.{
  JobEntity, AlertEntity, IncidentEntity, AuditEntryEntity, NotificationEntity,
}
use realtime_ops_platform.Runtime.Calls.{desc}
use realtime_ops_platform.Runtime.Monad.{Env, M, pure, ◌>>=◌, now}
use realtime_ops_platform.Jobs.Service
use realtime_ops_platform.Jobs.Service.{StatusView, get_status, retry}
use realtime_ops_platform.Jobs.Status.{get_status_summary}
use realtime_ops_platform.Alerts
use realtime_ops_platform.Incidents
use realtime_ops_platform.Incidents.{resolve}
use realtime_ops_platform.Listing.{
  PaginatedResult, list_jobs, list_alerts, list_audit, list_notifications,
}
use realtime_ops_platform.Health
use realtime_ops_platform.Health.{HealthView}
use realtime_ops_platform.Http.Requests.{
  CreateJobDto, CreateAlertDto, ListJobsQueryDto, ListAlertsQueryDto, ListAuditEntriesQueryDto,
  ListNotificationsQueryDto,
}

-- `x ?? other`
abbrev pub default_to : {A : Type 0} → Option A → A → A
default_to none other = other
default_to (some a) other = a

-- the `OperatorId` decorator of libs/auth/src/operator-id.decorator.ts: `request.operatorId ?? 'unknown'`
abbrev pub operator_of : Option String → String
operator_of operator_id = default_to operator_id "unknown"

module _ (env : Env) where
  unfoldable pub create_job : CreateJobDto → String → M JobEntity
  create_job dto operator_id = Service.create env (record {
    name = dto.name;
    type = dto.type;
    payload = dto.payload;
    priority = default_to dto.priority 3;
    max_attempts = default_to dto.max_attempts 3;
    operator_id = operator_id;
  })

  unfoldable pub list_jobs_page : ListJobsQueryDto → M (PaginatedResult JobEntity)
  list_jobs_page query = list_jobs env (record {
    page = default_to query.pagination.page 1;
    limit = default_to query.pagination.limit 20;
    status = query.status;
    type = query.type;
    search = query.search;
    sort_by = query.sort_by;
    sort_order = default_to query.pagination.sort_order desc;
  })

  unfoldable pub get_job : String → M JobEntity
  get_job id = Service.get_by_id env id

  unfoldable pub get_job_status : String → M StatusView
  get_job_status id = get_status env id

  unfoldable pub retry_job : String → String → M JobEntity
  retry_job id operator_id = retry env id operator_id

  unfoldable pub create_alert : CreateAlertDto → String → M (AlertEntity × Option IncidentEntity)
  create_alert dto operator_id = Alerts.create env (record {
    job_id = dto.job_id;
    source = "operator";
    severity = dto.severity;
    title = dto.title;
    description = dto.description;
    operator_id = operator_id;
    create_incident = default_to dto.create_incident false;
  })

  unfoldable pub list_alerts_page : ListAlertsQueryDto → M (PaginatedResult AlertEntity)
  list_alerts_page query = list_alerts env (record {
    status = query.status;
    severity = query.severity;
    page = default_to query.pagination.page 1;
    limit = default_to query.pagination.limit 20;
  })

  unfoldable pub get_alert : String → M AlertEntity
  get_alert id = Alerts.get_by_id env id

  unfoldable pub acknowledge_incident : String → String → M IncidentEntity
  acknowledge_incident id operator_id = Incidents.acknowledge env id operator_id

  unfoldable pub resolve_incident : String → String → M IncidentEntity
  resolve_incident id operator_id = resolve env id operator_id

  unfoldable pub list_audit_entries :
      ListAuditEntriesQueryDto → M (PaginatedResult AuditEntryEntity)
  list_audit_entries query = list_audit env (record {
    actor_type = query.actor_type;
    entity_type = query.entity_type;
    entity_id = query.entity_id;
    page = default_to query.pagination.page 1;
    limit = default_to query.pagination.limit 20;
  })

  -- `unreadOnly` is only asked whether it is true
  unfoldable pub list_notifications_page :
      ListNotificationsQueryDto → M (PaginatedResult NotificationEntity)
  list_notifications_page query = list_notifications env (record {
    type = query.type;
    unread_only = default_to query.unread_only false;
    page = default_to query.pagination.page 1;
    limit = default_to query.pagination.limit 20;
  })

  unfoldable pub get_processing_status : (String → Number) → M Fields
  get_processing_status to_number = get_status_summary env to_number

  unfoldable pub get_health_status : M HealthView
  get_health_status = Health.get_health env

  -- RealtimeHealthController
  unfoldable pub get_realtime_health : M Fields
  get_realtime_health = do
    timestamp ← now env
    pure (field "status" (str "ok") (field "timestamp" (iso timestamp) end))

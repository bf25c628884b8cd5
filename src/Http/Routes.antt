-- ===== src/Http/Routes.antt =====
-- The routes of the API, as the decorators of the controllers in apps/api-gateway/src declare them, and
-- what a request is to its controller once its path, its query and its body have been read.
use realtime_ops_platform.Prelude.{ℕ, zero, suc, String, List, [], ◌∷◌, Bool, true, false}
use realtime_ops_platform.Core.Value.{Fields, Number}
use realtime_ops_platform.Core.Entities.{
  JobEntity, AlertEntity, IncidentEntity, AuditEntryEntity, NotificationEntity,
}
use realtime_ops_platform.Prelude.{Option}
use realtime_ops_platform.Runtime.Monad.{Env, M, pure, ◌>>=◌}
use realtime_ops_platform.Jobs.Service.{StatusView}
use realtime_ops_platform.Listing.{PaginatedResult}
use realtime_ops_platform.Health.{HealthView}
use realtime_ops_platform.Wiring.Gather.{gather}
use realtime_ops_platform.Wiring.Classes.{Class}
use realtime_ops_platform.Wiring.Modules.{api_gateway_module}
use realtime_ops_platform.Http.Requests.{
  CreateJobDto, CreateAlertDto, ListJobsQueryDto, ListAlertsQueryDto, ListAuditEntriesQueryDto,
  ListNotificationsQueryDto,
}
use realtime_ops_platform.Http.Controllers

-- A route: its method and its path, below `api/v1`, and whether it is `@Public()`.
pub record Route : Type 0 where
  pub method : String
  pub path : String
  pub is_public : Bool

abbrev get_route : String → Route
get_route path = record { method = "GET"; path = path; is_public = false }

abbrev post_route : String → Route
post_route path = record { method = "POST"; path = path; is_public = false }

abbrev pub jobs_routes : List Route
jobs_routes =
    post_route "jobs"
    ∷ get_route "jobs"
    ∷ get_route "jobs/:id"
    ∷ get_route "jobs/:id/status"
    ∷ post_route "jobs/:id/retry"
    ∷ []

abbrev pub alerts_routes : List Route
alerts_routes = post_route "alerts" ∷ get_route "alerts" ∷ get_route "alerts/:id" ∷ []

abbrev pub incidents_routes : List Route
incidents_routes = post_route "incidents/:id/acknowledge" ∷ post_route "incidents/:id/resolve" ∷ []

abbrev pub notifications_routes : List Route
notifications_routes = get_route "notifications" ∷ []

abbrev pub audit_entries_routes : List Route
audit_entries_routes = get_route "audit-entries" ∷ []

abbrev pub processing_routes : List Route
processing_routes = get_route "processing/status" ∷ []

abbrev pub health_routes : List Route
health_routes = record { method = "GET"; path = "health"; is_public = true } ∷ []

abbrev pub routes_of : Class → List Route
routes_of Class.jobs_controller = jobs_routes
routes_of Class.alerts_controller = alerts_routes
routes_of Class.incidents_controller = incidents_routes
routes_of Class.notifications_controller = notifications_routes
routes_of Class.audit_entries_controller = audit_entries_routes
routes_of Class.processing_controller = processing_routes
routes_of Class.health_controller = health_routes
routes_of _ = []

-- the routes of the controllers that the API gateway has
abbrev pub api_routes : List Route
api_routes = gather routes_of api_gateway_module.controllers

-- A method of a controller, with what the pipes make of the request.
pub data Action : Type 0 where
  create_job : CreateJobDto → Action
  list_jobs : ListJobsQueryDto → Action
  get_job get_job_status retry_job : String → Action
  create_alert : CreateAlertDto → Action
  list_alerts : ListAlertsQueryDto → Action
  get_alert acknowledge_incident resolve_incident : String → Action
  list_notifications : ListNotificationsQueryDto → Action
  list_audit_entries : ListAuditEntriesQueryDto → Action
  get_status get_health : Action

-- the route at a place of a list
abbrev nth_route : ℕ → List Route → Route
nth_route n [] = get_route ""
nth_route zero (route ∷ routes) = route
nth_route (suc n) (route ∷ routes) = nth_route n routes

-- the route that leads to a method: the decorators stand above the methods, in this order
abbrev pub route_of : Action → Route
route_of (create_job dto) = nth_route 0 jobs_routes
route_of (list_jobs query) = nth_route 1 jobs_routes
route_of (get_job id) = nth_route 2 jobs_routes
route_of (get_job_status id) = nth_route 3 jobs_routes
route_of (retry_job id) = nth_route 4 jobs_routes
route_of (create_alert dto) = nth_route 0 alerts_routes
route_of (list_alerts query) = nth_route 1 alerts_routes
route_of (get_alert id) = nth_route 2 alerts_routes
route_of (acknowledge_incident id) = nth_route 0 incidents_routes
route_of (resolve_incident id) = nth_route 1 incidents_routes
route_of (list_notifications query) = nth_route 0 notifications_routes
route_of (list_audit_entries query) = nth_route 0 audit_entries_routes
route_of get_status = nth_route 0 processing_routes
route_of get_health = nth_route 0 health_routes

-- what a method returns
pub data Returned : Type 0 where
  job : JobEntity → Returned
  jobs : PaginatedResult JobEntity → Returned
  job_status : StatusView → Returned
  raised : AlertEntity × Option IncidentEntity → Returned
  alert : AlertEntity → Returned
  alerts : PaginatedResult AlertEntity → Returned
  incident : IncidentEntity → Returned
  notifications : PaginatedResult NotificationEntity → Returned
  audit_entries : PaginatedResult AuditEntryEntity → Returned
  summary : Fields → Returned
  health : HealthView → Returned

-- The method is called, with the operator for those that have `@OperatorId()`.
unfoldable pub perform : Env → (String → Number) → Action → String → M Returned
perform env to_number (create_job dto) operator_id = do
  r ← Controllers.create_job env dto operator_id
  pure (job r)
perform env to_number (list_jobs query) operator_id = do
  r ← Controllers.list_jobs_page env query
  pure (jobs r)
perform env to_number (get_job id) operator_id = do r ← Controllers.get_job env id; pure (job r)
perform env to_number (get_job_status id) operator_id = do
  r ← Controllers.get_job_status env id
  pure (job_status r)
perform env to_number (retry_job id) operator_id = do
  r ← Controllers.retry_job env id operator_id
  pure (job r)
perform env to_number (create_alert dto) operator_id = do
  r ← Controllers.create_alert env dto operator_id
  pure (raised r)
perform env to_number (list_alerts query) operator_id = do
  r ← Controllers.list_alerts_page env query
  pure (alerts r)
perform env to_number (get_alert id) operator_id = do
  r ← Controllers.get_alert env id
  pure (alert r)
perform env to_number (acknowledge_incident id) operator_id = do
  r ← Controllers.acknowledge_incident env id operator_id
  pure (incident r)
perform env to_number (resolve_incident id) operator_id = do
  r ← Controllers.resolve_incident env id operator_id
  pure (incident r)
perform env to_number (list_notifications query) operator_id = do
  r ← Controllers.list_notifications_page env query
  pure (notifications r)
perform env to_number (list_audit_entries query) operator_id = do
  r ← Controllers.list_audit_entries env query
  pure (audit_entries r)
perform env to_number get_status operator_id = do
  r ← Controllers.get_processing_status env to_number
  pure (summary r)
perform env to_number get_health operator_id = do
  r ← Controllers.get_health_status env
  pure (health r)

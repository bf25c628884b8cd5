-- ===== src/Runtime/Calls.antt =====
-- The calls that leave the program: the TypeORM data source and repositories, ioredis, amqplib,
-- socket.io, the application of NestJS, the process and the clock. `save`
-- of an entity that `create` built is an `insert`, and `save` of a loaded one a `save`.
use realtime_ops_platform.Prelude.{ℕ, ℤ, String, List, Option, Bool}
use realtime_ops_platform.Core.Enums.{
  JobStatus, AlertSeverity, AlertStatus, IncidentStatus, NotificationType, AuditActorType,
  EntityType,
}
use realtime_ops_platform.Core.Value.{Value, Fields, Number}
use realtime_ops_platform.Core.Entities.{
  JobColumns, JobEntity, AttemptColumns, ProcessingAttemptEntity, AlertColumns, AlertPatch,
  AlertEntity, IncidentColumns, IncidentEntity, NotificationColumns, NotificationEntity,
  AuditColumns, AuditEntryEntity, OperatorActionColumns, OperatorActionEntity,
}

pub data SortOrder : Type 0 where
  asc desc : SortOrder

pub data SortField : Type 0 where
  by_created_at by_priority by_updated_at : SortField

-- The options of `findAndCount` and of the query builders. A filter that is `none` is left out.
pub record JobFind : Type 0 where
  pub status : Option JobStatus
  pub type : Option String
  pub name_like : Option String
  pub order_field : SortField
  pub order : SortOrder
  pub skip : ℤ
  pub take_rows : ℕ

pub record AlertFind : Type 0 where
  pub status : Option AlertStatus
  pub severity : Option AlertSeverity
  pub skip : ℤ
  pub take_rows : ℕ

pub record AuditFind : Type 0 where
  pub actor_type : Option AuditActorType
  pub entity_type : Option EntityType
  pub entity_id : Option String
  pub skip : ℤ
  pub take_rows : ℕ

pub record NotificationFind : Type 0 where
  pub type : Option NotificationType
  pub unread_only : Bool
  pub skip : ℤ
  pub take_rows : ℕ

-- The message of an event, before it is serialised.
pub record Envelope : Type 0 where
  pub topic : String
  pub emitted_at : ℕ
  pub payload : Fields

-- A room of socket.io: a text, or the member of `Object.prototype` by that name.
pub data Room : Type 0 where
  named inherited : String → Room

-- the options of a ValidationPipe; `implicit_conversion` is `enableImplicitConversion`
pub record ValidationOptions : Type 0 where
  pub transform : Bool
  pub whitelist : Bool
  pub forbid_non_whitelisted : Bool
  pub implicit_conversion : Bool

-- the description that Swagger is given, with the name of the header of the API key
pub record ApiDocument : Type 0 where
  pub title : String
  pub description : String
  pub version : String
  pub server : String
  pub key_header : String

-- What `main.ts` asks of NestJS. A module is given by the name of its class.
pub data AppStep : Type 0 where
  create_app create_context : String → AppStep
  use_logger use_helmet use_exception_filter use_response_interceptor : AppStep
  set_global_prefix setup_docs : String → AppStep
  use_validation : ValidationOptions → AppStep
  create_document : ApiDocument → AppStep
  listen : Number → String → AppStep

pub data Call : Type 0 where
  read_clock : Call
  sleep : ℕ → Call
  job_insert : JobColumns → Call
  job_save : JobEntity → Call
  job_find_one : String → Call
  job_find_and_count : JobFind → Call
  job_count : JobStatus → Call
  attempt_insert : AttemptColumns → Call
  attempt_save : ProcessingAttemptEntity → Call
  attempt_find : String → Call
  attempt_average : Call
  alert_insert : AlertColumns → Call
  alert_save : AlertEntity → Call
  alert_find_one : String → Call
  alert_update : String → AlertPatch → Call
  alert_find_many : AlertFind → Call
  alert_count : AlertStatus → Call
  incident_insert : IncidentColumns → Call
  incident_save : IncidentEntity → Call
  incident_find_one : String → Call
  incident_count : IncidentStatus → Call
  notification_insert : NotificationColumns → Call
  notification_find_many : NotificationFind → Call
  audit_insert : AuditColumns → Call
  audit_find_many : AuditFind → Call
  operator_action_insert : OperatorActionColumns → Call
  database_query : String → Call
  redis_set_nx : String → String → ℕ → Call
  redis_del : String → Call
  redis_incr : String → Call
  redis_expire : String → ℕ → Call
  redis_ping : Call
  send_to_queue : String → Fields → Call
  publish : String → String → Envelope → Call
  server_emit : String → Value → Fields → Call
  socket_join socket_leave : Room → Call
  socket_set_operator : String → Call
  socket_emit : String → Fields → Call
  socket_disconnect : Bool → Call
  ack : Call
  nack : Bool → Bool → Call
  source_initialize source_migrate source_destroy source_is_initialized : Call
  query_count : String → Call
  jobs_insert : List JobColumns → Call
  audits_insert : List AuditColumns → Call
  process_exit : ℕ → Call
  rabbit_connect : String → Call
  rabbit_channel channel_close connection_close : Call
  assert_exchange : String → String → Bool → Call
  assert_queue : String → Bool → Option Bool → Call
  bind_queue : String → String → String → Call
  prefetch : ℕ → Call
  consume_queue : String → Call
  redis_connect : String → Call
  redis_quit : Call
  app : AppStep → Call

-- What a call is answered by, where it does not throw.
abbrev pub Answer : Call → Type 0
Answer (job_insert _) = JobEntity
Answer (job_save _) = JobEntity
Answer (job_find_one _) = Option JobEntity
Answer (job_find_and_count _) = List JobEntity × ℕ
Answer (job_count _) = ℕ
Answer (attempt_insert _) = ProcessingAttemptEntity
Answer (attempt_save _) = ProcessingAttemptEntity
Answer (attempt_find _) = List ProcessingAttemptEntity
Answer attempt_average = Option (Option String)
Answer (alert_insert _) = AlertEntity
Answer (alert_save _) = AlertEntity
Answer (alert_find_one _) = Option AlertEntity
Answer (alert_find_many _) = List AlertEntity × ℕ
Answer (alert_count _) = ℕ
Answer (incident_insert _) = IncidentEntity
Answer (incident_save _) = IncidentEntity
Answer (incident_find_one _) = Option IncidentEntity
Answer (incident_count _) = ℕ
Answer (notification_insert _) = NotificationEntity
Answer (notification_find_many _) = List NotificationEntity × ℕ
Answer (audit_insert _) = AuditEntryEntity
Answer (audit_find_many _) = List AuditEntryEntity × ℕ
Answer (operator_action_insert _) = OperatorActionEntity
Answer (redis_set_nx _ _ _) = Option String
Answer (redis_incr _) = ℕ
Answer redis_ping = String
Answer source_is_initialized = Bool
Answer (query_count _) = List ℕ
Answer (jobs_insert _) = List JobEntity
Answer (audits_insert _) = List AuditEntryEntity
Answer _ = Unit {0}

-- ===== src/Wiring/Classes.antt =====
-- The classes of the platform that NestJS creates, and what each constructor asks for: another class, the
-- repository of an entity (`@InjectRepository`), or a class of a library.
use realtime_ops_platform.Prelude.{List, [], ◌∷◌}
use realtime_ops_platform.Schema.Entities.{EntityName}
use realtime_ops_platform.Schema.Entities.EntityName.{
  job, processing_attempt, alert, incident, notification, operator_action, audit_entry,
}

pub data Class : Type 0 where
  job_service job_processor_service processing_status_service alert_service incident_service : Class
  notification_service audit_service realtime_event_publisher health_service : Class
  auth_service operator_auth_guard redis_rate_limit_guard : Class
  rabbit_mq_service redis_service redis_lock_service : Class
  health_controller jobs_controller alerts_controller incidents_controller : Class
  notifications_controller audit_entries_controller processing_controller : Class
  job_processing_consumer : Class
  realtime_events_gateway realtime_event_consumer realtime_health_controller : Class

-- what a constructor may ask for; `ConfigService` and `Reflector` are of NestJS, `DataSource` of TypeORM
pub data Token : Type 0 where
  class : Class → Token
  repository : EntityName → Token
  config_service reflector data_source : Token

abbrev pub job_service_needs : List Token
job_service_needs =
    repository job
    ∷ repository processing_attempt
    ∷ repository operator_action
    ∷ class rabbit_mq_service
    ∷ class audit_service
    ∷ class notification_service
    ∷ class realtime_event_publisher
    ∷ []

abbrev pub job_processor_service_needs : List Token
job_processor_service_needs =
    repository job
    ∷ repository processing_attempt
    ∷ repository alert
    ∷ repository incident
    ∷ class audit_service
    ∷ class notification_service
    ∷ class realtime_event_publisher
    ∷ class redis_lock_service
    ∷ []

abbrev pub processing_status_service_needs : List Token
processing_status_service_needs =
    repository job ∷ repository alert ∷ repository incident ∷ repository processing_attempt ∷ []

abbrev pub alert_service_needs : List Token
alert_service_needs =
    repository alert
    ∷ repository incident
    ∷ repository operator_action
    ∷ class audit_service
    ∷ class realtime_event_publisher
    ∷ []

abbrev pub incident_service_needs : List Token
incident_service_needs =
    repository incident
    ∷ repository alert
    ∷ repository operator_action
    ∷ class audit_service
    ∷ class realtime_event_publisher
    ∷ []

abbrev pub notification_service_needs : List Token
notification_service_needs = repository notification ∷ []

abbrev pub audit_service_needs : List Token
audit_service_needs = repository audit_entry ∷ []

abbrev pub realtime_event_publisher_needs : List Token
realtime_event_publisher_needs = class rabbit_mq_service ∷ []

abbrev pub health_service_needs : List Token
health_service_needs = data_source ∷ class redis_service ∷ class rabbit_mq_service ∷ []

abbrev pub auth_service_needs : List Token
auth_service_needs = config_service ∷ []

abbrev pub operator_auth_guard_needs : List Token
operator_auth_guard_needs = reflector ∷ class auth_service ∷ []

abbrev pub redis_rate_limit_guard_needs : List Token
redis_rate_limit_guard_needs = class redis_service ∷ config_service ∷ reflector ∷ []

abbrev pub rabbit_mq_service_needs : List Token
rabbit_mq_service_needs = config_service ∷ []

abbrev pub redis_service_needs : List Token
redis_service_needs = config_service ∷ []

abbrev pub redis_lock_service_needs : List Token
redis_lock_service_needs = class redis_service ∷ []

abbrev pub health_controller_needs : List Token
health_controller_needs = class health_service ∷ []

abbrev pub jobs_controller_needs : List Token
jobs_controller_needs = class job_service ∷ []

abbrev pub alerts_controller_needs : List Token
alerts_controller_needs = class alert_service ∷ []

abbrev pub incidents_controller_needs : List Token
incidents_controller_needs = class incident_service ∷ []

abbrev pub notifications_controller_needs : List Token
notifications_controller_needs = class notification_service ∷ []

abbrev pub audit_entries_controller_needs : List Token
audit_entries_controller_needs = class audit_service ∷ []

abbrev pub processing_controller_needs : List Token
processing_controller_needs = class processing_status_service ∷ []

abbrev pub job_processing_consumer_needs : List Token
job_processing_consumer_needs = class rabbit_mq_service ∷ class job_processor_service ∷ []

abbrev pub realtime_events_gateway_needs : List Token
realtime_events_gateway_needs = class auth_service ∷ []

abbrev pub realtime_event_consumer_needs : List Token
realtime_event_consumer_needs =
    config_service ∷ class rabbit_mq_service ∷ class realtime_events_gateway ∷ []

abbrev pub needs : Class → List Token
needs job_service = job_service_needs
needs job_processor_service = job_processor_service_needs
needs processing_status_service = processing_status_service_needs
needs alert_service = alert_service_needs
needs incident_service = incident_service_needs
needs notification_service = notification_service_needs
needs audit_service = audit_service_needs
needs realtime_event_publisher = realtime_event_publisher_needs
needs health_service = health_service_needs
needs auth_service = auth_service_needs
needs operator_auth_guard = operator_auth_guard_needs
needs redis_rate_limit_guard = redis_rate_limit_guard_needs
needs rabbit_mq_service = rabbit_mq_service_needs
needs redis_service = redis_service_needs
needs redis_lock_service = redis_lock_service_needs
needs health_controller = health_controller_needs
needs jobs_controller = jobs_controller_needs
needs alerts_controller = alerts_controller_needs
needs incidents_controller = incidents_controller_needs
needs notifications_controller = notifications_controller_needs
needs audit_entries_controller = audit_entries_controller_needs
needs processing_controller = processing_controller_needs
needs job_processing_consumer = job_processing_consumer_needs
needs realtime_events_gateway = realtime_events_gateway_needs
needs realtime_event_consumer = realtime_event_consumer_needs
needs realtime_health_controller = []

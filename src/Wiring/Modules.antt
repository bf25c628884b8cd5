-- ===== src/Wiring/Modules.antt =====
-- The modules: apps/*/src/*.module.ts, libs/application/src/application.module.ts, and those of
-- libs/auth, libs/database, libs/messaging and libs/redis.
use realtime_ops_platform.Prelude.{List, [], ◌∷◌, Bool, true, false}
use realtime_ops_platform.Schema.Entities.{EntityName}
use realtime_ops_platform.Schema.Entities.EntityName.{
  job, processing_attempt, alert, incident, notification, operator_action, audit_entry,
}
use realtime_ops_platform.Wiring.Classes.{Class, Token, config_service}
use realtime_ops_platform.Wiring.Classes.Class.{
  job_service, job_processor_service, processing_status_service, alert_service, incident_service,
  notification_service, audit_service, realtime_event_publisher, health_service, auth_service,
  operator_auth_guard, redis_rate_limit_guard, rabbit_mq_service, redis_service, redis_lock_service,
  health_controller, jobs_controller, alerts_controller, incidents_controller,
  notifications_controller, audit_entries_controller, processing_controller,
  job_processing_consumer, realtime_events_gateway, realtime_event_consumer,
  realtime_health_controller,
}

pub data ModuleName : Type 0 where
  api_gateway processing_service realtime_gateway : ModuleName
  application auth database messaging redis : ModuleName

-- What a module imports: a module of the platform, or one that a library makes. `config_for_root` is
-- `ConfigModule.forRoot({ isGlobal: true, … })`, and `type_orm_for_root` is `forRootAsync`, with what
-- its factory asks for.
pub data Import : Type 0 where
  own : ModuleName → Import
  config_for_root config_module : Import
  type_orm_for_root : List Token → Import
  type_orm_for_feature : List EntityName → Import

pub record Module : Type 0 where
  pub imports : List Import
  pub controllers : List Class
  pub providers : List Class
  -- `{ provide: APP_GUARD, useClass: … }`, in their order
  pub app_guards : List Class
  pub exports : List Class
  -- `@Global()`
  pub is_global : Bool

abbrev pub application_module : Module
application_module = record {
  imports =
      type_orm_for_feature (
        job ∷ processing_attempt ∷ alert ∷ incident ∷ notification ∷ operator_action ∷ audit_entry
        ∷ [])
      ∷ [];
  controllers = [];
  providers =
      job_service ∷ job_processor_service ∷ processing_status_service ∷ alert_service
      ∷ incident_service ∷ notification_service ∷ audit_service ∷ realtime_event_publisher
      ∷ health_service ∷ [];
  app_guards = [];
  exports =
      job_service ∷ job_processor_service ∷ processing_status_service ∷ alert_service
      ∷ incident_service ∷ notification_service ∷ audit_service ∷ realtime_event_publisher
      ∷ health_service ∷ [];
  is_global = false;
}

abbrev pub auth_module : Module
auth_module = record {
  imports = config_module ∷ [];
  controllers = [];
  providers = auth_service ∷ [];
  app_guards = [];
  exports = auth_service ∷ [];
  is_global = false;
}

abbrev pub database_module : Module
database_module = record {
  imports = config_module ∷ type_orm_for_root (config_service ∷ []) ∷ [];
  controllers = [];
  providers = [];
  app_guards = [];
  exports = [];
  is_global = false;
}

abbrev pub messaging_module : Module
messaging_module = record {
  imports = config_module ∷ [];
  controllers = [];
  providers = rabbit_mq_service ∷ [];
  app_guards = [];
  exports = rabbit_mq_service ∷ [];
  is_global = true;
}

abbrev pub redis_module : Module
redis_module = record {
  imports = config_module ∷ [];
  controllers = [];
  providers = redis_service ∷ redis_lock_service ∷ [];
  app_guards = [];
  exports = redis_service ∷ redis_lock_service ∷ [];
  is_global = true;
}

abbrev pub api_gateway_module : Module
api_gateway_module = record {
  imports =
      config_for_root ∷ own database ∷ own messaging ∷ own redis ∷ own auth ∷ own application ∷ [];
  controllers =
      health_controller ∷ jobs_controller ∷ alerts_controller ∷ incidents_controller
      ∷ notifications_controller ∷ audit_entries_controller ∷ processing_controller ∷ [];
  providers = [];
  app_guards = operator_auth_guard ∷ redis_rate_limit_guard ∷ [];
  exports = [];
  is_global = false;
}

abbrev pub processing_service_module : Module
processing_service_module = record {
  imports = config_for_root ∷ own database ∷ own messaging ∷ own redis ∷ own application ∷ [];
  controllers = [];
  providers = job_processing_consumer ∷ [];
  app_guards = [];
  exports = [];
  is_global = false;
}

abbrev pub realtime_gateway_module : Module
realtime_gateway_module = record {
  imports = config_for_root ∷ own messaging ∷ own redis ∷ own auth ∷ [];
  controllers = realtime_health_controller ∷ [];
  providers = realtime_events_gateway ∷ realtime_event_consumer ∷ [];
  app_guards = operator_auth_guard ∷ [];
  exports = [];
  is_global = false;
}

abbrev pub module_of : ModuleName → Module
module_of api_gateway = api_gateway_module
module_of processing_service = processing_service_module
module_of realtime_gateway = realtime_gateway_module
module_of application = application_module
module_of auth = auth_module
module_of database = database_module
module_of messaging = messaging_module
module_of redis = redis_module

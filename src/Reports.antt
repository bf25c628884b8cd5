-- ===== src/Reports.antt =====
-- The calls that only report: notifications, audit entries, published events and reads of the clock.
-- A condition that they keep is kept by every service method that only reports.
pub mod Returning
use realtime_ops_platform.Prelude.{String, List, ◌∷◌}
use realtime_ops_platform.Core.Enums.{NotificationType}
use realtime_ops_platform.Core.Value.{Fields}
use realtime_ops_platform.Core.Entities.{AuditColumns, NotificationColumns}
use realtime_ops_platform.Runtime.Calls.{
  Call, Envelope, read_clock, notification_insert, audit_insert, publish,
}
use realtime_ops_platform.Runtime.Monad.{Env, ◌>>=◌}
use realtime_ops_platform.Runtime.Keeps.{Keeps, keeps_rules}
use realtime_ops_platform.Messaging.{publish_event}
use realtime_ops_platform.Events.{
  publish_job_created, publish_job_processing, publish_job_completed, publish_job_failed,
  publish_alert_raised, publish_alert_acknowledged, publish_incident_updated,
  publish_notification_created,
}
use realtime_ops_platform.Records.{log, create_notification}

pub record Quiet (P : List Call → Type 0) : Type 0 where
  pub clock : (h : List Call) → P h → P (read_clock ∷ h)
  pub notification : (n : NotificationColumns) (h : List Call) → P h → P (notification_insert n ∷ h)
  pub audit : (a : AuditColumns) (h : List Call) → P h → P (audit_insert a ∷ h)
  pub event :
      (exchange key : String) (e : Envelope) (h : List Call) → P h → P (publish exchange key e ∷ h)

module _ {P : List Call → Type 0} (q : Quiet P) (env : Env) where
  pub log-Keeps : (input : AuditColumns) → Keeps P (log env input)
  unfolding log
  log-Keeps input = record { at = q.audit input }

  pub create_notification-Keeps :
      (type : NotificationType) (message : String) (metadata : Fields)
      → Keeps P (create_notification env type message metadata)
  unfolding create_notification
  create_notification-Keeps type message metadata = record { at = q.notification _ }

  publish_event-Keeps : (key : String) (payload : Fields) → Keeps P (publish_event env key payload)
  unfolding publish_event ◌>>=◌
  publish_event-Keeps key payload = search (keeps_rules, q.clock, q.event) depth 10

  pub publish_job_created-Keeps : (payload : Fields) → Keeps P (publish_job_created env payload)
  unfolding publish_job_created
  publish_job_created-Keeps payload = publish_event-Keeps _ payload

  pub publish_job_processing-Keeps :
      (payload : Fields) → Keeps P (publish_job_processing env payload)
  unfolding publish_job_processing
  publish_job_processing-Keeps payload = publish_event-Keeps _ payload

  pub publish_job_completed-Keeps : (payload : Fields) → Keeps P (publish_job_completed env payload)
  unfolding publish_job_completed
  publish_job_completed-Keeps payload = publish_event-Keeps _ payload

  pub publish_job_failed-Keeps : (payload : Fields) → Keeps P (publish_job_failed env payload)
  unfolding publish_job_failed
  publish_job_failed-Keeps payload = publish_event-Keeps _ payload

  pub publish_alert_raised-Keeps : (payload : Fields) → Keeps P (publish_alert_raised env payload)
  unfolding publish_alert_raised
  publish_alert_raised-Keeps payload = publish_event-Keeps _ payload

  pub publish_alert_acknowledged-Keeps :
      (payload : Fields) → Keeps P (publish_alert_acknowledged env payload)
  unfolding publish_alert_acknowledged
  publish_alert_acknowledged-Keeps payload = publish_event-Keeps _ payload

  pub publish_incident_updated-Keeps :
      (payload : Fields) → Keeps P (publish_incident_updated env payload)
  unfolding publish_incident_updated
  publish_incident_updated-Keeps payload = publish_event-Keeps _ payload

  pub publish_notification_created-Keeps :
      (payload : Fields) → Keeps P (publish_notification_created env payload)
  unfolding publish_notification_created
  publish_notification_created-Keeps payload = publish_event-Keeps _ payload

pub ruleset report_rules = (
  log-Keeps, create_notification-Keeps, publish_job_created-Keeps, publish_job_processing-Keeps,
  publish_job_completed-Keeps, publish_job_failed-Keeps, publish_alert_raised-Keeps,
  publish_alert_acknowledged-Keeps, publish_incident_updated-Keeps,
  publish_notification_created-Keeps,
)

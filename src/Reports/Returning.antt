-- ===== src/Reports/Returning.antt =====
-- What only reports returns, where every call is answered.
use realtime_ops_platform.Prelude.{ℕ, String, none}
use realtime_ops_platform.Core.Enums.{NotificationType}
use realtime_ops_platform.Core.Value.{Fields}
use realtime_ops_platform.Core.Entities.{AuditColumns}
use realtime_ops_platform.Runtime.Calls.{
  audit_insert, notification_insert, send_to_queue, publish, redis_del,
}
use realtime_ops_platform.Runtime.Monad.{Env}
use realtime_ops_platform.Runtime.Returns.{
  Works, Returns, Returns-pure, Returns-now, Returns-pause, Returns-call, Returns-guard,
  Returns-bind, Returns-try_finally,
}
use realtime_ops_platform.Messaging.{ops_events, publish_event, publish_to_queue}
use realtime_ops_platform.Events.{
  publish_job_created, publish_job_processing, publish_job_completed, publish_job_failed,
  publish_alert_raised, publish_alert_acknowledged, publish_incident_updated,
  publish_notification_created,
}
use realtime_ops_platform.Records.{log, create_notification, acquire_lock, release_lock}

module _ {env : Env} (w : Works env) where
  pub log-Returns : (input : AuditColumns) → Returns (log env input)
  unfolding log
  log-Returns input = record { at = w.answers (audit_insert input) }

  pub create_notification-Returns :
      (type : NotificationType) (message : String) (metadata : Fields)
      → Returns (create_notification env type message metadata)
  unfolding create_notification
  create_notification-Returns type message metadata = record {
    at = w.answers (
        notification_insert (record {
          type = type;
          message = message;
          metadata = metadata;
          channel = "operator_feed";
          read_at = none;
        }));
  }

  pub publish_to_queue-Returns :
      (queue : String) (payload : Fields) → Returns (publish_to_queue env queue payload)
  unfolding publish_to_queue
  publish_to_queue-Returns queue payload =
      Returns-bind _ _ (λ _. Returns-call w (send_to_queue queue payload))
        (Returns-guard _ _ _ w.channel (Returns-pure tt))

  publish_event-Returns :
      (key : String) (payload : Fields) → Returns (publish_event env key payload)
  unfolding publish_event
  publish_event-Returns key payload =
      Returns-bind _ _
        (λ _. Returns-bind _ _ (λ t. Returns-call w (publish ops_events key _)) (Returns-now env))
        (Returns-guard _ _ _ w.channel (Returns-pure tt))

  pub publish_job_created-Returns : (payload : Fields) → Returns (publish_job_created env payload)
  unfolding publish_job_created
  publish_job_created-Returns payload = publish_event-Returns _ payload

  pub publish_job_processing-Returns :
      (payload : Fields) → Returns (publish_job_processing env payload)
  unfolding publish_job_processing
  publish_job_processing-Returns payload = publish_event-Returns _ payload

  pub publish_job_completed-Returns :
      (payload : Fields) → Returns (publish_job_completed env payload)
  unfolding publish_job_completed
  publish_job_completed-Returns payload = publish_event-Returns _ payload

  pub publish_job_failed-Returns : (payload : Fields) → Returns (publish_job_failed env payload)
  unfolding publish_job_failed
  publish_job_failed-Returns payload = publish_event-Returns _ payload

  pub publish_alert_raised-Returns : (payload : Fields) → Returns (publish_alert_raised env payload)
  unfolding publish_alert_raised
  publish_alert_raised-Returns payload = publish_event-Returns _ payload

  pub publish_alert_acknowledged-Returns :
      (payload : Fields) → Returns (publish_alert_acknowledged env payload)
  unfolding publish_alert_acknowledged
  publish_alert_acknowledged-Returns payload = publish_event-Returns _ payload

  pub publish_incident_updated-Returns :
      (payload : Fields) → Returns (publish_incident_updated env payload)
  unfolding publish_incident_updated
  publish_incident_updated-Returns payload = publish_event-Returns _ payload

  pub publish_notification_created-Returns :
      (payload : Fields) → Returns (publish_notification_created env payload)
  unfolding publish_notification_created
  publish_notification_created-Returns payload = publish_event-Returns _ payload

  pub acquire_lock-Returns : (key : String) (ttl : ℕ) → Returns (acquire_lock env key ttl)
  unfolding acquire_lock
  acquire_lock-Returns key ttl =
      Returns-bind _ _ (λ _. Returns-bind _ _ (λ r. search Returns-pure) (search (Returns-call, w)))
        (Returns-guard _ _ _ w.client (Returns-pure tt))

  pub release_lock-Returns : (key : String) → Returns (release_lock env key)
  unfolding release_lock
  release_lock-Returns key =
      Returns-bind _ _ (λ _. Returns-call w (redis_del key))
        (Returns-guard _ _ _ w.client (Returns-pure tt))

pub ruleset returning_rules = (
  log-Returns, create_notification-Returns, publish_to_queue-Returns, publish_job_created-Returns,
  publish_job_processing-Returns, publish_job_completed-Returns, publish_job_failed-Returns,
  publish_alert_raised-Returns, publish_alert_acknowledged-Returns,
  publish_incident_updated-Returns, publish_notification_created-Returns, acquire_lock-Returns,
  release_lock-Returns, Returns-pure, Returns-now, Returns-pause, Returns-call, Returns-bind,
  Returns-try_finally,
)

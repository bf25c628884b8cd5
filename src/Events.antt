-- ===== src/Events.antt =====
-- libs/application/src/events/realtime-event-publisher.service.ts: one method for each topic.
use realtime_ops_platform.Core.Value.{Fields}
use realtime_ops_platform.Runtime.Monad.{Env, M}
use realtime_ops_platform.Messaging.{
  publish_event, key_text, job_created, job_processing, job_completed, job_failed, alert_raised,
  alert_acknowledged, incident_updated, notification_created,
}

module _ (env : Env) where
  unfoldable pub publish_job_created : Fields → M (Unit {0})
  unfolding publish_event
  publish_job_created payload = publish_event env (key_text job_created) payload

  unfoldable pub publish_job_processing : Fields → M (Unit {0})
  unfolding publish_event
  publish_job_processing payload = publish_event env (key_text job_processing) payload

  unfoldable pub publish_job_completed : Fields → M (Unit {0})
  unfolding publish_event
  publish_job_completed payload = publish_event env (key_text job_completed) payload

  unfoldable pub publish_job_failed : Fields → M (Unit {0})
  unfolding publish_event
  publish_job_failed payload = publish_event env (key_text job_failed) payload

  unfoldable pub publish_alert_raised : Fields → M (Unit {0})
  unfolding publish_event
  publish_alert_raised payload = publish_event env (key_text alert_raised) payload

  unfoldable pub publish_alert_acknowledged : Fields → M (Unit {0})
  unfolding publish_event
  publish_alert_acknowledged payload = publish_event env (key_text alert_acknowledged) payload

  unfoldable pub publish_incident_updated : Fields → M (Unit {0})
  unfolding publish_event
  publish_incident_updated payload = publish_event env (key_text incident_updated) payload

  unfoldable pub publish_notification_created : Fields → M (Unit {0})
  unfolding publish_event
  publish_notification_created payload = publish_event env (key_text notification_created) payload

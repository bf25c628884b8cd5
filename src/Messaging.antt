-- ===== src/Messaging.antt =====
-- libs/messaging: the names of messaging.constants.ts and the publishing side of rabbitmq.service.ts.
-- What `Buffer.from(JSON.stringify(x))` makes of a message is kept as the message `x`.
pub mod Connection
use realtime_ops_platform.Prelude.{String, if◌then◌else◌}
use realtime_ops_platform.Core.Value.{Fields}
use realtime_ops_platform.Runtime.Calls.{Envelope, send_to_queue, publish}
use realtime_ops_platform.Runtime.Monad.{Env, M, plain_error, pure, throw, ◌>>=◌, ◌>>◌, call, now}

-- QUEUES and EXCHANGES
abbrev pub jobs_processing : String
jobs_processing = "jobs.processing"

abbrev pub ops_events : String
ops_events = "ops.events"

-- ROUTING_KEYS
pub data RoutingKey : Type 0 where
  job_created job_processing job_completed job_failed alert_raised alert_acknowledged : RoutingKey
  incident_updated notification_created : RoutingKey

abbrev pub key_text : RoutingKey → String
key_text job_created = "job.created"
key_text job_processing = "job.processing"
key_text job_completed = "job.completed"
key_text job_failed = "job.failed"
key_text alert_raised = "alert.raised"
key_text alert_acknowledged = "alert.acknowledged"
key_text incident_updated = "incident.updated"
key_text notification_created = "notification.created"

module _ (env : Env) where
  unfoldable pub ensure_channel : M (Unit {0})
  ensure_channel =
      if env.has_channel then pure tt else throw (plain_error "RabbitMQ channel is not initialized")

  unfoldable pub publish_to_queue : String → Fields → M (Unit {0})
  unfolding ensure_channel
  publish_to_queue queue payload = do ensure_channel; call env (send_to_queue queue payload)

  unfoldable pub publish_event : String → Fields → M (Unit {0})
  unfolding ensure_channel
  publish_event routing_key payload = do
    ensure_channel
    emitted_at ← now env
    let envelope : Envelope = record {
      topic = routing_key;
      emitted_at = emitted_at;
      payload = payload;
    }
    call env (publish ops_events routing_key envelope)

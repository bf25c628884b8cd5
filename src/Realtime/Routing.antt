-- ===== src/Realtime/Routing.antt =====
-- Which sockets an event reaches: `broadcast`, and the events of libs/messaging on their way to it.
use realtime_ops_platform.Prelude.{ℕ, String, List, ◌∷◌, ◌++◌, ◌≡◌, refl, Option, none, some, arith}
use realtime_ops_platform.Core.Value.{
  Value, undefined, null, Fields, str, iso, obj, end, field, get,
}
use realtime_ops_platform.Runtime.Calls.{Call, Envelope, ack}
use realtime_ops_platform.Runtime.Monad.{Env, Outcome, M, ok, err, call, ◌>>=◌}
use realtime_ops_platform.Runtime.Observe.{emissions, settlements}
use realtime_ops_platform.Runtime.Keeps.{Keeps, keeps_rules}
use realtime_ops_platform.Messaging.{
  RoutingKey, key_text, job_created, job_processing, job_completed, job_failed, alert_raised,
  alert_acknowledged, incident_updated, notification_created,
}
use realtime_ops_platform.Consumer.{parsed, property}
use realtime_ops_platform.Consumer.Settlement.{settled_by, property-settlements}
use realtime_ops_platform.Realtime.{
  topic_room, value_room, emitted_or_now, emit_to, broadcast, handle_event, on_event,
}

-- docs/websocket-flow.md: the room of each event, besides `operators`
abbrev pub room_of : RoutingKey → String
room_of job_created = "jobs"
room_of job_processing = "jobs"
room_of job_completed = "jobs"
room_of job_failed = "jobs"
room_of alert_raised = "alerts"
room_of alert_acknowledged = "alerts"
room_of incident_updated = "incidents"
room_of notification_created = "notifications"

topic_room-key_text : (key : RoutingKey) → topic_room (key_text key) ≡ some (room_of key)
unfolding topic_room
topic_room-key_text job_created = refl
topic_room-key_text job_processing = refl
topic_room-key_text job_completed = refl
topic_room-key_text job_failed = refl
topic_room-key_text alert_raised = refl
topic_room-key_text alert_acknowledged = refl
topic_room-key_text incident_updated = refl
topic_room-key_text notification_created = refl

-- what `JSON.parse` makes of the message of an event
abbrev pub envelope_value : Envelope → Value
envelope_value e = obj (
    field "topic" (str e.topic)
      (field "emittedAt" (iso e.emitted_at) (field "payload" (obj e.payload) end)))

-- the message that `publishEvent` sends for a routing key
abbrev pub envelope : RoutingKey → ℕ → Fields → Envelope
envelope key t payload = record { topic = key_text key; emitted_at = t; payload = payload }

-- what docs/websocket-flow.md says that a socket gets of it
abbrev pub shown : RoutingKey → ℕ → Fields → Fields
shown key t payload =
    field "topic" (str (key_text key))
      (field "payload" (obj payload) (field "emittedAt" (iso t) end))

module _ (env : Env) where
  -- When the handler returns for an event that `publishEvent` sent, it has emitted it, with its topic,
  -- its payload and its date, to `operators` and then to the one room of its kind, and to no other.
  pub handle_event_delivers :
      (key : RoutingKey) (t : ℕ) (payload : Fields) (h : List Call)
      → (handle_event env (key_text key) (envelope_value (envelope key t payload)) h).0 ≡ ok tt
      → emissions (handle_event env (key_text key) (envelope_value (envelope key t payload)) h).1
        ≡ (room_of key, str (key_text key), shown key t payload)
          ∷ ("operators", str (key_text key), shown key t payload)
          ∷ emissions h
  unfolding handle_event property get broadcast value_room emitted_or_now emit_to ◌>>=◌
  handle_event_delivers key t payload h r = ground (arith, topic_room-key_text key)

  emitted_or_now-settlements :
      (c : List Call) (v : Value) → Keeps (λ h. settlements h ≡ c) (emitted_or_now env v)
  unfolding emitted_or_now
  emitted_or_now-settlements c undefined = search keeps_rules
  emitted_or_now-settlements c null = search keeps_rules
  emitted_or_now-settlements c v = search keeps_rules

  emit_to-settlements :
      (c : List Call) (room : Option String) (topic : Value) (event : Fields)
      → Keeps (λ h. settlements h ≡ c) (emit_to env room topic event)
  unfolding emit_to call
  emit_to-settlements c none topic event = search keeps_rules
  emit_to-settlements c (some room) topic event = search keeps_rules

  value_room-settlements :
      (c : List Call) (topic : Value) → Keeps (λ h. settlements h ≡ c) (value_room topic)
  unfolding value_room
  value_room-settlements c (str topic) = search keeps_rules
  value_room-settlements c (iso t) = search keeps_rules
  value_room-settlements c _ = search keeps_rules

  handle_event-settlements :
      (c : List Call) (key : String) (content : Value)
      → Keeps (λ h. settlements h ≡ c) (handle_event env key content)
  unfolding handle_event broadcast
  handle_event-settlements c key content =
      search
        (
          keeps_rules,
          property-settlements env,
          emitted_or_now-settlements,
          emit_to-settlements,
          value_room-settlements,
        )
        depth 14

  -- `JSON.parse` and the handler
  abbrev pub event_handled : String → Outcome Value → M (Unit {0})
  event_handled key content = parsed content >>= handle_event env key

  -- Every event message is settled once: acknowledged if its content parsed and the handler returned,
  -- refused without being queued again if either threw. Only where `ack` itself throws is it refused
  -- after that.
  on_event_settles :
      (key : String) (content : Outcome Value) (h : List Call)
      → settlements (on_event env (some (key, content)) h).1
        ≡ settled_by
            (event_handled key content h).0
            (env.answer (event_handled key content h).1 ack)
          ++ settlements h
  unfolding on_event ◌>>=◌
  on_event_settles key (err e) h = ground arith
  on_event_settles key (ok value) h =
      ground (arith, (handle_event-settlements (settlements h) key value).at h refl)

-- ===== src/Realtime.antt =====
-- apps/realtime-gateway/src: the gateway (realtime-events.gateway.ts), the handler of
-- realtime-event.consumer.ts, and the callback of `createEventConsumer` in
-- libs/messaging/src/rabbitmq.service.ts that calls it.
pub mod Channels
pub mod Routing
pub mod Rooms
use realtime_ops_platform.Prelude.{
  String, List, [], ◌∷◌, Bool, true, false, Option, none, some, str_eq, starts_with, if◌then◌else◌,
}
use realtime_ops_platform.Core.Value.{Value, Fields, undefined, null, str, iso, obj, end, field}
use realtime_ops_platform.Runtime.Calls.{
  Room, named, inherited, server_emit, socket_join, socket_leave, ack, nack,
}
use realtime_ops_platform.Runtime.Monad.{
  Env, M, Outcome, plain_error, pure, throw, ◌>>=◌, ◌>>◌, call, now, try_catch,
}
use realtime_ops_platform.Consumer.{parsed, property}

-- the texts of a list, whether a text is one of them
abbrev pub is_one_of : String → List String → Bool
is_one_of name [] = false
is_one_of name (x ∷ xs) = if str_eq name x then true else is_one_of name xs

-- the own members of CHANNEL_TO_ROOM, each with itself as its room
abbrev pub channels : List String
channels = "jobs" ∷ "alerts" ∷ "incidents" ∷ "notifications" ∷ []

-- the members that an object literal has from `Object.prototype`: none of them is falsy
abbrev pub prototype_members : List String
prototype_members =
    "constructor" ∷ "__defineGetter__" ∷ "__defineSetter__" ∷ "hasOwnProperty" ∷ "__lookupGetter__"
    ∷ "__lookupSetter__" ∷ "isPrototypeOf" ∷ "propertyIsEnumerable" ∷ "toString" ∷ "valueOf"
    ∷ "__proto__" ∷ "toLocaleString" ∷ []

-- `CHANNEL_TO_ROOM[channel]`
unfoldable pub room_of_channel : String → Option Room
room_of_channel channel =
    if is_one_of channel channels
    then some (named channel)
    else (if is_one_of channel prototype_members then some (inherited channel) else none)

-- `payload.channels ?? []`
abbrev pub requested : Option (List String) → List String
requested none = []
requested (some names) = names

-- `if (!room) { continue; } …` of the two loops, before the rest
abbrev pub kept : Option Room → String → List String → List String
kept none channel rest = rest
kept (some room) channel rest = channel ∷ rest

module _ (env : Env) where
  unfoldable pub join_room : Option Room → M (Unit {0})
  join_room none = pure tt
  join_room (some room) = call env (socket_join room)

  unfoldable pub leave_room : Option Room → M (Unit {0})
  leave_room none = pure tt
  leave_room (some room) = call env (socket_leave room)

  -- the loop of `subscribe`
  unfoldable pub subscribe_each : List String → M (List String)
  subscribe_each [] = pure []
  subscribe_each (channel ∷ rest) = do
    join_room (room_of_channel channel)
    subscribed ← subscribe_each rest
    pure (kept (room_of_channel channel) channel subscribed)

  unfoldable pub subscribe : Option (List String) → M (List String)
  subscribe names = subscribe_each (requested names)

  -- the loop of `unsubscribe`
  unfoldable pub unsubscribe_each : List String → M (List String)
  unsubscribe_each [] = pure []
  unsubscribe_each (channel ∷ rest) = do
    leave_room (room_of_channel channel)
    unsubscribed ← unsubscribe_each rest
    pure (kept (room_of_channel channel) channel unsubscribed)

  unfoldable pub unsubscribe : Option (List String) → M (List String)
  unsubscribe names = unsubscribe_each (requested names)

-- the room that `broadcast` chooses by the topic, besides `operators`
unfoldable pub topic_room : String → Option String
topic_room topic =
    if starts_with topic "job."
    then some "jobs"
    else (if starts_with topic "alert."
        then some "alerts"
        else (if starts_with topic "incident."
            then some "incidents"
            else (if starts_with topic "notification." then some "notifications" else none)))

-- `topic.startsWith(…)` is a TypeError on a topic that is no text; the text of a date has none of
-- the four prefixes.
unfoldable pub value_room : Value → M (Option String)
unfolding topic_room
value_room (str topic) = pure (topic_room topic)
value_room (iso t) = pure none
value_room _ = throw (plain_error "topic.startsWith is not a function")

-- `x ?? other`
abbrev pub value_or : Value → Value → Value
value_or undefined other = other
value_or null other = other
value_or v other = v

-- the event that `broadcast` emits
abbrev pub event_of : Value → Value → Value → Fields
event_of topic payload emitted_at =
    field "topic" topic (field "payload" payload (field "emittedAt" emitted_at end))

module _ (env : Env) where
  -- `emittedAt ?? new Date().toISOString()`
  unfoldable pub emitted_or_now : Value → M Value
  emitted_or_now undefined = do t ← now env; pure (iso t)
  emitted_or_now null = do t ← now env; pure (iso t)
  emitted_or_now v = pure v

  unfoldable pub emit_to : Option String → Value → Fields → M (Unit {0})
  emit_to none topic event = pure tt
  emit_to (some room) topic event = call env (server_emit room topic event)

  unfoldable pub broadcast : Value → Value → Value → M (Unit {0})
  unfolding value_room
  broadcast topic payload emitted_at = do
    date ← emitted_or_now emitted_at
    let event = event_of topic payload date
    call env (server_emit "operators" topic event)
    room ← value_room topic
    emit_to room topic event

  -- the `try` block of `createEventConsumer`, with the handler of `RealtimeEventConsumer`
  unfoldable pub handle_event : String → Value → M (Unit {0})
  unfolding property
  handle_event routing_key content = do
    topic ← property content "topic"
    emitted_at ← property content "emittedAt"
    payload ← property content "payload"
    broadcast (value_or topic (str routing_key)) (value_or payload (obj end)) emitted_at

  -- the callback of `createEventConsumer`: the message's routing key, and what `JSON.parse` makes of it
  unfoldable pub on_event : Option (String × Outcome Value) → M (Unit {0})
  on_event none = pure tt
  on_event (some (routing_key, content)) =
      try_catch (do value ← parsed content; handle_event routing_key value; call env ack)
        (call env (nack false false))

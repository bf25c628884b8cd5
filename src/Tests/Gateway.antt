-- ===== src/Tests/Gateway.antt =====
-- The theorems about the realtime gateway, at sample events and requests.
use realtime_ops_platform.Prelude.{◌||◌, ◌&&◌, not, String, List, [], ◌∷◌, ◌≡◌, refl, Option, some}
use realtime_ops_platform.Core.Value.{Fields, end, field, get, str}
use realtime_ops_platform.Runtime.Monad.{ok, ◌>>=◌}
use realtime_ops_platform.Runtime.Observe.{emissions, joined_rooms}
use realtime_ops_platform.Messaging.{incident_updated}
use realtime_ops_platform.Consumer.{property}
use realtime_ops_platform.Realtime.{
  broadcast, emit_to, emitted_or_now, handle_event, join_room, leave_room, room_of_channel,
  subscribe, subscribe_each, topic_room, unsubscribe, unsubscribe_each, value_room,
}
use realtime_ops_platform.Realtime.Routing.{shown, envelope, envelope_value, handle_event_delivers}
use realtime_ops_platform.Realtime.Channels.{granted, granted_rooms, subscribe_grants}
use realtime_ops_platform.Realtime.Rooms.{is_in, names_room, subscriptions_refine}
use realtime_ops_platform.Tests.Samples.{busy_env}

abbrev payload : Fields
payload = field "incidentId" (str "incident-1") end

event_run :
    (handle_event busy_env "incident.updated"
      (envelope_value (envelope incident_updated 1000 payload))
      []).0
    ≡ ok tt
unfolding handle_event property get broadcast value_room topic_room emitted_or_now emit_to ◌>>=◌
event_run = refl

handle_event_delivers_example :
    emissions
      (handle_event busy_env "incident.updated"
        (envelope_value (envelope incident_updated 1000 payload))
        []).1
    ≡ ("incidents", str "incident.updated", shown incident_updated 1000 payload)
      ∷ ("operators", str "incident.updated", shown incident_updated 1000 payload)
      ∷ []
handle_event_delivers_example =
    handle_event_delivers busy_env incident_updated 1000 payload [] event_run

abbrev asked : Option (List String)
asked = some ("alerts" ∷ "weather" ∷ "jobs" ∷ [])

subscribe_run : (subscribe busy_env asked []).0 ≡ ok ("alerts" ∷ "jobs" ∷ [])
unfolding subscribe subscribe_each join_room room_of_channel ◌>>=◌
subscribe_run = refl

unsubscribe_run : (unsubscribe busy_env asked []).0 ≡ ok ("alerts" ∷ "jobs" ∷ [])
unfolding unsubscribe unsubscribe_each leave_room room_of_channel ◌>>=◌
unsubscribe_run = refl

subscriptions_refine_example :
    (is_in (subscribe busy_env asked []).1
      ≡ (λ r. is_in [] r || names_room ("alerts" ∷ "weather" ∷ "jobs" ∷ []) r))
    × (is_in (unsubscribe busy_env asked []).1
        ≡ (λ r. is_in [] r && not (names_room ("alerts" ∷ "weather" ∷ "jobs" ∷ []) r)))
subscriptions_refine_example =
    subscriptions_refine busy_env asked [] [] subscribe_run unsubscribe_run

abbrev mixed : Option (List String)
mixed = some ("alerts" ∷ "weather" ∷ "constructor" ∷ [])

mixed_run : (subscribe busy_env mixed []).0 ≡ ok ("alerts" ∷ "constructor" ∷ [])
unfolding subscribe subscribe_each join_room room_of_channel ◌>>=◌
mixed_run = refl

subscribe_grants_example :
    (("alerts" ∷ "constructor" ∷ []) ≡ granted ("alerts" ∷ "weather" ∷ "constructor" ∷ []))
    × (joined_rooms (subscribe busy_env mixed []).1
        ≡ granted_rooms ("alerts" ∷ "weather" ∷ "constructor" ∷ []) [])
subscribe_grants_example = subscribe_grants busy_env mixed [] mixed_run

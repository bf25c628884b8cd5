-- ===== src/Health/Reporting.antt =====
-- What `getHealth` of health.service.ts reports, whatever fails.
use realtime_ops_platform.Prelude.{
  String, List, ◌∷◌, ◌≡◌, refl, Bool, true, false, ◌&&◌, arith, str_eq, if◌then◌else◌,
}
use realtime_ops_platform.Core.Value.{end, field, str}
use realtime_ops_platform.Runtime.Calls.{Call, database_query, redis_ping, read_clock, publish}
use realtime_ops_platform.Runtime.Monad.{Env, Outcome, ok, err, ◌>>=◌}
use realtime_ops_platform.Messaging.{ops_events, publish_event, ensure_channel}
use realtime_ops_platform.Records.{get_client}
use realtime_ops_platform.Health.{HealthView, check_database, check_redis, check_rabbit, get_health}

-- the call was answered
abbrev answered {ℓ} : {A : Type ℓ} → Outcome A → Bool
answered (ok a) = true
answered (err e) = false

-- the call was answered by the text `PONG`
abbrev ponged : Outcome String → Bool
ponged (ok response) = str_eq response "PONG"
ponged (err e) = false

module _ (env : Env) where
  -- the calls after a ping, which is made if Redis has a client
  abbrev pinged : List Call → List Call
  pinged g = if env.has_client then redis_ping ∷ g else g

  -- the event that is published to see whether RabbitMQ is there
  abbrev health_event : List Call → Call
  health_event g = publish ops_events "system.health" (record {
    topic = "system.health";
    emitted_at = env.clock g;
    payload = field "source" (str "health-check") end;
  })

  check_database_lem :
      (g : List Call)
      → check_database env g
        ≡ (ok (answered (env.answer g (database_query "SELECT 1"))), database_query "SELECT 1" ∷ g)
  unfolding check_database ◌>>=◌
  check_database_lem g = ground arith

  check_redis_lem :
      (g : List Call)
      → check_redis env g ≡ (ok (env.has_client && ponged (env.answer g redis_ping)), pinged g)
  unfolding check_redis get_client ◌>>=◌
  check_redis_lem g = ground arith

  check_rabbit_lem :
      (g : List Call)
      → check_rabbit env g ≡ (
        ok (env.has_channel && answered (env.answer (read_clock ∷ g) (health_event g))),
        (if env.has_channel then health_event g ∷ read_clock ∷ g else g),
      )
  unfolding check_rabbit publish_event ensure_channel ◌>>=◌
  check_rabbit_lem g = ground arith

module _ (env : Env) (h : List Call) where
  -- the database answers
  abbrev pub database_up : Bool
  database_up = answered (env.answer h (database_query "SELECT 1"))

  -- Redis has a client, and answers `PONG`
  abbrev pub redis_up : Bool
  redis_up = env.has_client && ponged (env.answer (database_query "SELECT 1" ∷ h) redis_ping)

  -- the calls before the check of RabbitMQ
  abbrev before_rabbit : List Call
  before_rabbit = pinged env (database_query "SELECT 1" ∷ h)

  -- RabbitMQ has a channel, and takes an event
  abbrev pub rabbit_up : Bool
  rabbit_up =
      env.has_channel
      && answered (env.answer (read_clock ∷ before_rabbit) (health_event env before_rabbit))

  -- Whatever fails, `getHealth` returns: the database is up exactly if its query is answered, Redis
  -- exactly if there is a client and it answers `PONG`, RabbitMQ exactly if there is a channel and it
  -- takes an event, and the status is `ok` exactly if the three are up.
  pub get_health_reports :
      (view : HealthView) × ((get_health env h).0 ≡ ok view)
      × (view.database ≡ (if database_up then "up" else "down"))
      × (view.redis ≡ (if redis_up then "up" else "down"))
      × (view.rabbitmq ≡ (if rabbit_up then "up" else "down"))
      × (view.status ≡ (if database_up && redis_up && rabbit_up then "ok" else "degraded"))
  unfolding get_health ◌>>=◌
  get_health_reports = (
    record {
      status = if database_up && redis_up && rabbit_up then "ok" else "degraded";
      database = if database_up then "up" else "down";
      redis = if redis_up then "up" else "down";
      rabbitmq = if rabbit_up then "up" else "down";
      timestamp = env.clock (
          if env.has_channel
          then health_event env before_rabbit ∷ read_clock ∷ before_rabbit
          else before_rabbit);
    },
    rw
        (
          check_database_lem env h,
          check_redis_lem env (database_query "SELECT 1" ∷ h),
          check_rabbit_lem env before_rabbit,
        )
        refl,
    refl,
    refl,
    refl,
    refl,
  )

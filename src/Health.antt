-- ===== src/Health.antt =====
-- libs/application/src/health/health.service.ts. `Promise.all` starts its three checks one after the
-- other, and each makes its call, and that to the clock, before it first waits: so the calls stand in
-- this order, whatever order they are answered in.
pub mod Reporting
use realtime_ops_platform.Prelude.{ℕ, String, Bool, true, false, ◌&&◌, str_eq, if◌then◌else◌}
use realtime_ops_platform.Core.Value.{end, field, str}
use realtime_ops_platform.Runtime.Calls.{database_query, redis_ping}
use realtime_ops_platform.Runtime.Monad.{Env, M, pure, ◌>>=◌, ◌>>◌, call, now, try_catch}
use realtime_ops_platform.Messaging.{publish_event}
use realtime_ops_platform.Records.{get_client}

-- the result of `getHealth`, with each service as `'up'` or `'down'`
pub record HealthView : Type 0 where
  pub status : String
  pub database : String
  pub redis : String
  pub rabbitmq : String
  pub timestamp : ℕ

-- `healthy ? 'up' : 'down'`
abbrev pub up_or_down : Bool → String
up_or_down healthy = if healthy then "up" else "down"

-- `a && b && c ? 'ok' : 'degraded'`
abbrev pub overall : Bool → Bool → Bool → String
overall database redis rabbitmq = if database && redis && rabbitmq then "ok" else "degraded"

module _ (env : Env) where
  unfoldable pub check_database : M Bool
  check_database = try_catch (do call env (database_query "SELECT 1"); pure true) (pure false)

  unfoldable pub check_redis : M Bool
  check_redis =
      try_catch (do get_client env; response ← call env redis_ping; pure (str_eq response "PONG"))
        (pure false)

  unfoldable pub check_rabbit : M Bool
  check_rabbit =
      try_catch
        (do publish_event env "system.health" (field "source" (str "health-check") end); pure true)
        (pure false)

  unfoldable pub get_health : M HealthView
  get_health = do
    database ← check_database
    redis ← check_redis
    rabbitmq ← check_rabbit
    timestamp ← now env
    pure (record {
      status = overall database redis rabbitmq;
      database = up_or_down database;
      redis = up_or_down redis;
      rabbitmq = up_or_down rabbitmq;
      timestamp = timestamp;
    })

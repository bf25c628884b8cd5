-- ===== src/Redis.antt =====
-- libs/redis/src/redis.service.ts: `onModuleInit` and `onModuleDestroy`. What `configService.get` has for
-- the URL is an argument. `getClient` and the lock are in Records.
use realtime_ops_platform.Prelude.{
  String, List, ◌∷◌, ◌≡◌, refl, Bool, true, false, Option, none, some, str_eq, if◌then◌else◌, arith,
}
use realtime_ops_platform.Runtime.Calls.{Call, redis_connect, redis_ping, redis_quit}
use realtime_ops_platform.Runtime.Monad.{
  Env, M, Run, Outcome, ok, err, plain_error, pure, ◌>>=◌, ◌>>◌, call,
}

-- `this.client`: whether it is set
pub record RedisService : Type 0 where
  pub client : Bool

module _ (env : Env) where
  -- from the answer to `new Redis` on: the client is set before it is pinged
  abbrev connected : Outcome (Unit {0}) → List Call → Run (Unit {0}) × RedisService
  connected (ok _) h = ((do call env redis_ping; pure tt) h, record { client = true })
  connected (err x) h = ((err x, h), record { client = false })

  -- `onModuleInit` of a service without a client
  unfoldable pub start_redis : Option String → List Call → Run (Unit {0}) × RedisService
  start_redis none h = ((err (plain_error "REDIS_URL is required"), h), record { client = false })
  start_redis (some url) h =
      if str_eq url ""
      then ((err (plain_error "REDIS_URL is required"), h), record { client = false })
      else connected (env.answer h (redis_connect url)) (redis_connect url ∷ h)

  unfoldable pub stop_redis : RedisService → M (Unit {0})
  stop_redis service = if service.client then call env redis_quit else pure tt

  -- When `onModuleInit` returns, it was given a URL that is not empty, and the client is set, which
  -- `onModuleDestroy` then quits; it has pinged Redis once, after it connected.
  pub start_redis_sets :
      (url : Option String) (h : List Call)
      → (start_redis url h).0.0 ≡ ok tt
      → ((start_redis url h).1.client ≡ true)
        × ((given : String) × (url ≡ some given)
            × ((start_redis url h).0.1 ≡ redis_ping ∷ redis_connect given ∷ h))
  unfolding start_redis ◌>>=◌
  start_redis_sets none h e = absurd (cc)
  start_redis_sets (some url) h e = (ground (arith, e), (url, refl, ground (arith, e)))

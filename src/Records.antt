-- ===== src/Records.antt =====
-- The records that every service writes: `log` of libs/application/src/audit/audit.service.ts,
-- `create` of libs/application/src/notifications/notification.service.ts, the operator actions that
-- the services save, and the lock of libs/redis/src/redis-lock.service.ts.
use realtime_ops_platform.Prelude.{
  ℕ, String, Bool, false, Option, none, some, str_eq, if◌then◌else◌,
}
use realtime_ops_platform.Core.Enums.{NotificationType}
use realtime_ops_platform.Core.Value.{Fields}
use realtime_ops_platform.Core.Entities.{AuditColumns, AuditEntryEntity, NotificationEntity}
use realtime_ops_platform.Runtime.Calls.{audit_insert, notification_insert, redis_set_nx, redis_del}
use realtime_ops_platform.Runtime.Monad.{Env, M, plain_error, pure, throw, ◌>>=◌, ◌>>◌, call}

-- `response === 'OK'`
abbrev pub is_ok : Option String → Bool
is_ok none = false
is_ok (some response) = str_eq response "OK"

module _ (env : Env) where
  -- AuditService.log
  unfoldable pub log : AuditColumns → M AuditEntryEntity
  unfolding call
  log input = call env (audit_insert input)

  -- NotificationService.create
  unfoldable pub create_notification : NotificationType → String → Fields → M NotificationEntity
  unfolding call
  create_notification type message metadata = call env (
      notification_insert (record {
        type = type;
        message = message;
        metadata = metadata;
        channel = "operator_feed";
        read_at = none;
      }))

  -- RedisService.getClient
  unfoldable pub get_client : M (Unit {0})
  get_client =
      if env.has_client then pure tt else throw (plain_error "Redis client not initialized")

  unfoldable pub acquire_lock : String → ℕ → M Bool
  unfolding get_client
  acquire_lock key ttl_seconds = do
    get_client
    response ← call env (redis_set_nx key "1" ttl_seconds)
    pure (is_ok response)

  unfoldable pub release_lock : String → M (Unit {0})
  unfolding get_client
  release_lock key = do get_client; call env (redis_del key)

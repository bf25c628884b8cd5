-- ===== src/Messaging/Connection.antt =====
-- The connection of libs/messaging/src/rabbitmq.service.ts: `onModuleInit`, `onModuleDestroy` and the
-- set-up of the two kinds of consumers. What `configService.get` has for the URL is an argument.
use realtime_ops_platform.Prelude.{
  String, List, ◌∷◌, ◌≡◌, refl, inl, inr, Bool, true, false, Option, none, some, str_eq,
  if◌then◌else◌, arith, Bool-cases,
}
use realtime_ops_platform.Runtime.Calls.{
  Call, rabbit_connect, rabbit_channel, channel_close, connection_close, assert_exchange,
  assert_queue, bind_queue, prefetch, consume_queue,
}
use realtime_ops_platform.Runtime.Monad.{
  Env, M, Run, Outcome, ok, err, plain_error, pure, ◌>>=◌, ◌>>◌, call,
}
use realtime_ops_platform.Messaging.{ensure_channel, jobs_processing, ops_events}

-- the fields of the service: whether they are set
pub record RabbitMqService : Type 0 where
  pub connection : Bool
  pub channel : Bool

abbrev pub closed : RabbitMqService
closed = record { connection = false; channel = false }

-- what an operation leaves: its outcome with the calls made, and the service
abbrev pub Left : Type 0
Left = Run (Unit {0}) × RabbitMqService

module _ (env : Env) where
  -- the last two calls of `onModuleInit`
  unfoldable pub declare : M (Unit {0})
  declare = do
    call env (assert_exchange ops_events "topic" true)
    call env (assert_queue jobs_processing true none)

  -- from the answer to `createChannel` on
  unfoldable pub open_channel : Outcome (Unit {0}) → List Call → Left
  open_channel (ok _) h = (declare h, record { connection = true; channel = true })
  open_channel (err x) h = ((err x, h), record { connection = true; channel = false })

  -- from the answer to `connect` on
  unfoldable pub open_connection : Outcome (Unit {0}) → List Call → Left
  unfolding open_channel
  open_connection (ok _) h = open_channel (env.answer h rabbit_channel) (rabbit_channel ∷ h)
  open_connection (err x) h = ((err x, h), closed)

  -- `onModuleInit` of a service that is closed
  unfoldable pub on_module_init : Option String → List Call → Left
  unfolding open_connection
  on_module_init none h = ((err (plain_error "RABBITMQ_URL is required"), h), closed)
  on_module_init (some url) h =
      if str_eq url ""
      then ((err (plain_error "RABBITMQ_URL is required"), h), closed)
      else open_connection (env.answer h (rabbit_connect url)) (rabbit_connect url ∷ h)

  -- `if (x) { await … }`
  abbrev when : Bool → M (Unit {0}) → M (Unit {0})
  when true m = m
  when false m = pure tt

  unfoldable pub on_module_destroy : RabbitMqService → M (Unit {0})
  on_module_destroy service = do
    when service.channel (call env channel_close)
    when service.connection (call env connection_close)

  -- `consume`, up to its callback
  unfoldable pub consume : String → M (Unit {0})
  unfolding ensure_channel
  consume queue = do
    ensure_channel env
    call env (assert_queue queue true none)
    call env (prefetch 10)
    call env (consume_queue queue)

  -- `createEventConsumer`, up to its callback
  unfoldable pub create_event_consumer : String → String → M (Unit {0})
  unfolding ensure_channel
  create_event_consumer queue_name routing_pattern = do
    ensure_channel env
    call env (assert_queue queue_name true (some false))
    call env (bind_queue queue_name ops_events routing_pattern)
    call env (consume_queue queue_name)

  -- the calls of an `onModuleInit` that returned
  abbrev pub opened : String → List Call → List Call
  opened url h =
      assert_queue jobs_processing true none
      ∷ assert_exchange ops_events "topic" true
      ∷ rabbit_channel
      ∷ rabbit_connect url
      ∷ h

  open_connection-Opens :
      (url : String) (h : List Call)
      → let (r, service) =
          open_connection (env.answer h (rabbit_connect url)) (rabbit_connect url ∷ h) in
        (service.channel ≡ true → service.connection ≡ true)
        × (r.0 ≡ ok tt → (service.channel ≡ true) × (r.1 ≡ opened url h))
  unfolding open_connection open_channel declare ◌>>=◌
  open_connection-Opens url h = (λ e. ground arith, λ e. (ground arith, ground arith))

  -- Whatever RabbitMQ answers, `onModuleInit` sets no channel without its connection. When it returns,
  -- it was given a URL that is not empty, the channel is set, so that what publishes finds it, and its
  -- calls are the connection, the channel, and the declarations of the durable exchange and queue.
  pub on_module_init_opens :
      (url : Option String) (h : List Call)
      → let (r, service) = on_module_init url h in
        (service.channel ≡ true → service.connection ≡ true)
        × (r.0 ≡ ok tt
            → (service.channel ≡ true)
              × ((given : String) × (url ≡ some given) × (r.1 ≡ opened given h)))
  unfolding on_module_init
  on_module_init_opens none h = (λ e. absurd (cc), λ e. absurd (cc))
  on_module_init_opens (some url) h = elim (Bool-cases (str_eq url "")) [
    | inl empty ↦ (λ e. ground (arith, empty), λ e. absurd (ground (arith, e, empty)))
    | inr given ↦
        let (sets, returns) = open_connection-Opens url h in
        rw given (sets, λ e. let (channel, calls) = returns e in (channel, (url, refl, calls)))
  ]

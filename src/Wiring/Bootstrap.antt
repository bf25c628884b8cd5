-- ===== src/Wiring/Bootstrap.antt =====
-- `bootstrap` of apps/*/src/main.ts. What the ConfigService has for a name, and what `Number` makes of a
-- text, are arguments; the module is given by the name of its class.
use realtime_ops_platform.Prelude.{
  String, List, [], ◌∷◌, ◌≡◌, ◌⊎◌, Bool, true, false, Option, none, some, arith,
}
use realtime_ops_platform.Core.Value.{Number}
use realtime_ops_platform.Runtime.Calls.{
  Call, app, create_app, create_context, use_logger, use_helmet, use_exception_filter,
  use_response_interceptor, set_global_prefix, setup_docs, use_validation, create_document, listen,
  ValidationOptions,
}
use realtime_ops_platform.Runtime.Monad.{Env, M, ◌>>=◌, ◌>>◌, call}

-- `configService.get(name) ?? other`
abbrev configured : Option String → String → String
configured none other = other
configured (some value) other = value

module _ (env : Env) (config : String → Option String) (to_number : String → Number) where
  -- apps/api-gateway/src/main.ts
  unfoldable pub bootstrap_api : M (Unit {0})
  bootstrap_api = do
    call env (app (create_app "ApiGatewayModule"))
    call env (app use_logger)
    call env (app use_helmet)
    call env (app (set_global_prefix "api/v1"))
    call env (
        app (
          use_validation (record {
            transform = true;
            whitelist = true;
            forbid_non_whitelisted = true;
            implicit_conversion = true;
          })))
    call env (app use_exception_filter)
    call env (app use_response_interceptor)
    call env (
        app (
          create_document (record {
            title = "Realtime Ops Platform API";
            description = "Operational workflow and incident management APIs";
            version = "1.0.0";
            server = "/api/v1";
            key_header = "x-operator-token";
          })))
    call env (app (setup_docs "api/docs"))
    call env (app (listen (to_number (configured (config "API_PORT") "3001")) "0.0.0.0"))

  -- apps/realtime-gateway/src/main.ts
  unfoldable pub bootstrap_realtime : M (Unit {0})
  bootstrap_realtime = do
    call env (app (create_app "RealtimeGatewayModule"))
    call env (app use_logger)
    call env (app use_helmet)
    call env (app (set_global_prefix "api/v1"))
    call env (
        app (
          use_validation (record {
            transform = true;
            whitelist = true;
            forbid_non_whitelisted = true;
            implicit_conversion = false;
          })))
    call env (app use_response_interceptor)
    call env (app use_exception_filter)
    call env (app (listen (to_number (configured (config "REALTIME_PORT") "3002")) "0.0.0.0"))

  -- apps/processing-service/src/main.ts
  unfoldable pub bootstrap_processing : M (Unit {0})
  bootstrap_processing = do
    call env (app (create_context "ProcessingServiceModule"))
    call env (app use_logger)

-- the ports and hosts that were listened to
abbrev pub listened : List Call → List (Number × String)
listened [] = []
listened (app (listen port host) ∷ h) = (port, host) ∷ listened h
listened (_ ∷ h) = listened h

-- what the application was set to by then
abbrev validations : List Call → List ValidationOptions
validations [] = []
validations (app (use_validation options) ∷ h) = options ∷ validations h
validations (_ ∷ h) = validations h

abbrev prefixes : List Call → List String
prefixes [] = []
prefixes (app (set_global_prefix prefix) ∷ h) = prefix ∷ prefixes h
prefixes (_ ∷ h) = prefixes h

abbrev filtered : List Call → Bool
filtered [] = false
filtered (app use_exception_filter ∷ h) = true
filtered (_ ∷ h) = filtered h

abbrev wrapped : List Call → Bool
wrapped [] = false
wrapped (app use_response_interceptor ∷ h) = true
wrapped (_ ∷ h) = wrapped h

-- The routes are under `api/v1`, unknown properties of what a request carries are refused, exceptions go
-- to the filter and results to the interceptor. Whether texts are converted depends on the application.
pub record Guarded (implicit_conversion : Bool) (h g : List Call) : Type 0 where
  pub prefix : prefixes g ≡ "api/v1" ∷ prefixes h
  pub validation :
      validations g
      ≡ (record {
        transform = true;
        whitelist = true;
        forbid_non_whitelisted = true;
        implicit_conversion = implicit_conversion;
      })
        ∷ validations h
  pub filter : filtered g ≡ true
  pub wrap : wrapped g ≡ true

-- `bootstrap` has listened only where everything before that succeeded.
abbrev pub ListensLast : Number → Bool → List Call → List Call → Type 0
ListensLast port implicit_conversion h g =
    (listened g ≡ listened h)
    ⊎ ((listened g ≡ (port, "0.0.0.0") ∷ listened h) × Guarded implicit_conversion h g)

module _ (env : Env) (config : String → Option String) (to_number : String → Number)
    (h : List Call) where
  -- Each application over HTTP listens only where every call of its `bootstrap` before that succeeded: on
  -- the port that is configured or else on its default, with its routes under `api/v1`, unknown
  -- properties refused, and its filter and its interceptor in place. The processing service does not
  -- listen.
  pub bootstraps-ListensLast :
      ListensLast
        (to_number (configured (config "API_PORT") "3001"))
        true
        h
        (bootstrap_api env config to_number h).1
      × ListensLast
          (to_number (configured (config "REALTIME_PORT") "3002"))
          false
          h
          (bootstrap_realtime env config to_number h).1
      × (listened (bootstrap_processing env config to_number h).1 ≡ listened h)
  unfolding bootstrap_api bootstrap_realtime bootstrap_processing ◌>>=◌
  bootstraps-ListensLast = (ground arith, ground arith, ground arith)

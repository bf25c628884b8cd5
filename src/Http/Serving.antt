-- ===== src/Http/Serving.antt =====
-- A request to the API from its headers to its answer: the guards of api-gateway.module.ts in the order
-- that they stand there, the pipes, the method of the controller, and the exception filter.
use realtime_ops_platform.Prelude.{ℕ, String, List, [], ◌∷◌, Option, none, some}
use realtime_ops_platform.Core.Value.{Number}
use realtime_ops_platform.Runtime.Monad.{Env, M, Outcome, pure, ◌>>=◌, ◌>>◌}
use realtime_ops_platform.Wiring.Classes.{Class}
use realtime_ops_platform.Wiring.Modules.{api_gateway_module}
use realtime_ops_platform.Auth.{Given, LimitedRequest, guard_request, check_rate}
use realtime_ops_platform.Http.Filter.{Reply}
use realtime_ops_platform.Http.Controllers.{operator_of}
use realtime_ops_platform.Http.Replies.{Nest, answer_run}
use realtime_ops_platform.Http.Routes.{Route, Action, route_of, Returned, perform}

-- what the guards and the filter read of a request
pub record Request : Type 0 where
  pub token : Given
  pub operator_id : Given
  pub ip : Option String
  pub route_path : Option String
  pub path : String
  pub url : String

-- the configuration of the API, and the functions of JavaScript that it uses
pub record Settings : Type 0 where
  pub expected_token : String
  pub max_requests : ℕ
  pub window_seconds : ℕ
  pub trim : String → String
  pub lower : String → String
  pub utf16_length : String → ℕ
  pub to_number : String → Number

-- the request that RedisRateLimitGuard counts
abbrev pub limited : Request → Route → LimitedRequest
limited request route = record {
  is_public = route.is_public;
  ip = request.ip;
  method = route.method;
  route_path = request.route_path;
  path = request.path;
}

-- OperatorAuthGuard, with the settings
abbrev pub authenticate : Settings → Request → Route → Outcome (Option String)
authenticate s request route =
    guard_request s.trim s.lower s.utf16_length s.expected_token route.is_public request.token
      request.operator_id

abbrev pub given_or : Option String → Option String → Option String
given_or none before = before
given_or (some id) before = some id

module _ (env : Env) (s : Settings) (request : Request) (route : Route) where
  -- the outcome of a guard that makes no calls
  abbrev at_once : {A : Type 0} → Outcome A → M A
  at_once o h = (o, h)

  -- The guards, one after the other, and the operator that is set on the request after them.
  unfoldable pub run_guards : List Class → Option String → M (Option String)
  run_guards [] operator = pure operator
  run_guards (Class.operator_auth_guard ∷ guards) operator = do
    set ← at_once (authenticate s request route)
    run_guards guards (given_or set operator)
  run_guards (Class.redis_rate_limit_guard ∷ guards) operator = do
    check_rate env s.max_requests s.window_seconds (limited request route)
    run_guards guards operator
  run_guards (_ ∷ guards) operator = run_guards guards operator

module _ (env : Env) (s : Settings) (request : Request) where
  -- What comes after the guards: the pipes, which throw or let the action through, and its method.
  abbrev pub handled : (Action → Outcome (Unit {0})) → Action → Option String → M Returned
  handled pipes action operator = do
    at_once env s request (route_of action) (pipes action)
    perform env s.to_number action (operator_of operator)

  unfoldable pub serve : Nest → (Action → Outcome (Unit {0})) → Action → M (Reply Returned)
  serve nest pipes action h = answer_run nest env request.url (
      (do
        operator ← run_guards env s request (route_of action) api_gateway_module.app_guards none
        handled pipes action operator)
        h)

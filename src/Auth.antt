-- ===== src/Auth.antt =====
-- libs/auth/src: auth.service.ts, operator-auth.guard.ts and redis-rate-limit.guard.ts, and who may
-- connect to apps/realtime-gateway/src/realtime-events.gateway.ts (`handleConnection`).
-- `trim`, `toLowerCase` and `length` of JavaScript's texts are arguments of what uses them.
pub mod Admission
pub mod Limits
pub mod Counters
pub mod Staying
pub mod Bursts
pub mod Lockouts
use Prim.Native.String
use realtime_ops_platform.Prelude.{
  ℕ, ltb, ◌==◌, String, List, [], ◌∷◌, Bool, true, false, not, ◌&&◌, Option, none, some, str_eq,
  if◌then◌else◌,
}
use realtime_ops_platform.Core.Value.{Value, Values, nil, cons, Fields, end, field, str, iso, arr}
use realtime_ops_platform.Runtime.Calls.{
  named, redis_incr, redis_expire, socket_join, socket_set_operator, socket_emit, socket_disconnect,
}
use realtime_ops_platform.Runtime.Monad.{
  Env, M, Outcome, Exception, ok, err, plain_error, unauthorized, http_exception, pure, throw,
  ◌>>=◌, ◌>>◌, call, now, throw_if,
}
use realtime_ops_platform.Records.{get_client}
use realtime_ops_platform.Realtime.{channels}

-- a header or a query parameter: missing, given once, or more than once
pub data Given : Type 0 where
  missing : Given
  once : String → Given
  often : List String → Given

-- `extractHeader`, `pickHeaderValue`, and `pickQueryValue`: `value[0]` of an array
abbrev pub first_given : Given → Option String
first_given missing = none
first_given (once s) = some s
first_given (often []) = none
first_given (often (s ∷ rest)) = some s

-- `a ?? b`
abbrev pub or_else : Option String → Option String → Option String
or_else none other = other
or_else (some s) other = some s

abbrev pub value_or_default : Option String → String → String
value_or_default none other = other
value_or_default (some s) other = s

-- what a client's JSON, which only a cast says the type of, has for a key: nothing or null, a text, or
-- something else
pub data Claimed : Type 0 where
  absent : Claimed
  text : String → Claimed
  other_value : Claimed

-- AuthService.validateToken, with the token that is expected
unfoldable pub validate_token : String → Option String → Bool
validate_token expected none = false
validate_token expected (some token) = not (str_eq token "") && str_eq token expected

module _ (trim lower : String → String) (utf16_length : String → ℕ) where
  -- AuthService.resolveOperatorId
  unfoldable pub resolve_operator_id : Option String → Outcome String
  resolve_operator_id none = err (unauthorized "Operator identity is required")
  resolve_operator_id (some raw) =
      if not (str_eq raw "") && ltb 1 (utf16_length (trim raw))
      then ok (lower (trim raw))
      else err (unauthorized "Operator identity is required")

  -- OperatorAuthGuard.canActivate: where it returns true, the operator that it sets on the request,
  -- if it sets one. The arguments are the token that is expected, whether the route is public, and
  -- the two headers.
  unfoldable pub guard_request : String → Bool → Given → Given → Outcome (Option String)
  guard_request expected is_public token operator_id =
      if is_public
      then ok none
      else (if validate_token expected (first_given token)
          then elim (resolve_operator_id (first_given operator_id)) [
            | ok id ↦ ok (some id)
            | err e ↦ err e
          ]
          else err (unauthorized "Invalid operator token"))

-- what RedisRateLimitGuard reads of a request
pub record LimitedRequest : Type 0 where
  pub is_public : Bool
  pub ip : Option String
  pub method : String
  pub route_path : Option String
  pub path : String

abbrev pub limit_key : LimitedRequest → String
limit_key request = String.◌++◌ "rate-limit:" (
    String.◌++◌ (value_or_default request.ip "unknown-ip") (
      String.◌++◌ ":" (
        String.◌++◌ request.method
          (String.◌++◌ ":" (value_or_default request.route_path request.path)))))

module _ (env : Env) where
  -- `if (count === 1) { … }`
  unfoldable pub start_window : String → ℕ → ℕ → M (Unit {0})
  start_window key window_seconds count =
      if count == 1 then call env (redis_expire key window_seconds) else pure tt

  -- RedisRateLimitGuard.canActivate, with the two numbers of its configuration
  unfoldable pub check_rate : ℕ → ℕ → LimitedRequest → M Bool
  check_rate max_requests window_seconds request = if request.is_public then pure true else (do
    get_client env
    count ← call env (redis_incr (limit_key request))
    start_window (limit_key request) window_seconds count
    throw_if (ltb max_requests count) (http_exception "Rate limit exceeded" 429)
    pure true)

-- the handshake of a socket
pub record Handshake : Type 0 where
  pub auth_token : Claimed
  pub auth_operator_id : Claimed
  pub query_token : Given
  pub query_operator_id : Given
  pub header_token : Given
  pub header_operator_id : Given

-- A token that is no text is none to `validateToken`, and ends the chain of `??` all the same.
abbrev pub claimed_token : Claimed → Option String → Option String
claimed_token absent given = given
claimed_token (text token) given = some token
claimed_token other_value given = none

abbrev pub handshake_token : Handshake → Option String
handshake_token h =
    claimed_token h.auth_token (or_else (first_given h.query_token) (first_given h.header_token))

-- The operator before `toLowerCase`, which is a TypeError on what is no text.
abbrev pub claimed_operator : Claimed → Option String → Outcome String
claimed_operator absent given = ok (value_or_default given "observer")
claimed_operator (text operator) given = ok operator
claimed_operator other_value given = err (plain_error "operatorIdRaw.toLowerCase is not a function")

abbrev pub handshake_operator : Handshake → Outcome String
handshake_operator h =
    claimed_operator h.auth_operator_id
      (or_else (first_given h.query_operator_id) (first_given h.header_operator_id))

abbrev pub string_values : List String → Values
string_values [] = nil
string_values (s ∷ rest) = cons (str s) (string_values rest)

module _ (env : Env) (lower : String → String) where
  -- `handleConnection`, once the token is accepted
  unfoldable pub welcome : String → M (Unit {0})
  welcome operator_id = do
    call env (socket_set_operator operator_id)
    call env (socket_join (named "operators"))
    connected_at ← now env
    call env (
        socket_emit "connection.ready" (
          field "operatorId" (str operator_id) (
            field "channels" (arr (string_values channels))
              (field "connectedAt" (iso connected_at) end))))

  abbrev pub welcome_claimed : Outcome String → M (Unit {0})
  welcome_claimed (ok operator) = welcome (lower operator)
  welcome_claimed (err x) = throw x

  unfoldable pub handle_connection : String → Handshake → M (Unit {0})
  handle_connection expected handshake =
      if validate_token expected (handshake_token handshake)
      then welcome_claimed (handshake_operator handshake)
      else call env (socket_disconnect true)

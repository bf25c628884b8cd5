-- ===== src/Http/Guards.antt =====
-- The two guards of the API, one after the other: whom they let through, and what they call.
use realtime_ops_platform.Prelude.{
  ℕ, ◌<◌, String, List, ◌∷◌, ◌≡◌, ◌≢◌, refl, ◌∙◌, Bool, true, false, Option, none, some, arith, ◌⊎◌,
  inl, inr, eq_iff, eq_refl,
}
use realtime_ops_platform.Runtime.Calls.{Call, redis_incr, redis_expire}
use realtime_ops_platform.Runtime.Monad.{
  Env, Run, Exception, ok, err, unauthorized, and_then, pure, ◌>>=◌,
}
use realtime_ops_platform.Records.{get_client}
use realtime_ops_platform.Wiring.Modules.{api_gateway_module}
use realtime_ops_platform.Auth.{
  first_given, LimitedRequest, limit_key, guard_request, check_rate, start_window,
  resolve_operator_id, validate_token,
}
use realtime_ops_platform.Auth.Admission.{guard_request_admits}
use realtime_ops_platform.Http.Routes.{Route, Action, get_health, route_of}
use realtime_ops_platform.Http.Serving.{
  Request, Settings, limited, authenticate, given_or, run_guards,
}

-- the calls of the rate limit: the counter, and its time to live where the counter was new
abbrev pub Counted : String → ℕ → List Call → List Call → Type 0
Counted key window_seconds h g =
    (g ≡ redis_incr key ∷ h) ⊎ (g ≡ redis_expire key window_seconds ∷ redis_incr key ∷ h)

pub check_rate_counts :
    (env : Env) (max_requests window_seconds : ℕ) (request : LimitedRequest) (h : List Call)
    → request.is_public ≡ false
    → ((check_rate env max_requests window_seconds request h).1 ≡ h)
      ⊎ Counted
          (limit_key request)
          window_seconds
          h
          (check_rate env max_requests window_seconds request h).1
unfolding check_rate start_window get_client ◌>>=◌
check_rate_counts env max_requests window_seconds request h private = ground arith

pub check_rate_passes :
    (env : Env) (max_requests window_seconds : ℕ) (request : LimitedRequest) (h : List Call)
    (b : Bool)
    → request.is_public ≡ false
    → (check_rate env max_requests window_seconds request h).0 ≡ ok b
    → Counted
        (limit_key request)
        window_seconds
        h
        (check_rate env max_requests window_seconds request h).1
unfolding check_rate start_window get_client ◌>>=◌
check_rate_passes env max_requests window_seconds request h b private e = ground arith

-- only the health check is public
pub public_action :
    (action : Action) → (action ≡ get_health) ⊎ ((route_of action).is_public ≡ false)
public_action get_health = inl refl
public_action (Action.create_job dto) = inr refl
public_action action = inr refl

-- The request is an operator's: it has the expected token, which is not empty, and in its operator's
-- header a name, of more than one character, once trimmed.
pub record IsOperator (s : Settings) (request : Request) (raw : String) : Type 0 where
  pub token : first_given request.token ≡ some s.expected_token
  pub expected : s.expected_token ≢ ""
  pub operator : first_given request.operator_id ≡ some raw
  pub given : raw ≢ ""
  pub long : 1 < s.utf16_length (s.trim raw)

module _ (env : Env) (s : Settings) (request : Request) (route : Route) (h : List Call) where
  abbrev pub guards : Run (Option String)
  guards = run_guards env s request route api_gateway_module.app_guards none h

  abbrev pub counted : Run Bool
  counted = check_rate env s.max_requests s.window_seconds (limited request route) h

  pub guards_public : route.is_public ≡ true → guards ≡ (ok none, h)
  unfolding run_guards guard_request check_rate ◌>>=◌
  guards_public public = rw public refl

  pub guards_refuse : (e : Exception) → authenticate s request route ≡ err e → guards ≡ (err e, h)
  unfolding run_guards ◌>>=◌
  guards_refuse e refused = rw refused refl

  guards_pass :
      (operator : Option String)
      → authenticate s request route ≡ ok operator
      → guards ≡ and_then counted (λ b. pure (given_or operator none))
  unfolding run_guards ◌>>=◌
  guards_pass operator admitted = rw admitted refl

  pub guards_limit :
      (operator : Option String) (x : Exception)
      → authenticate s request route ≡ ok operator
      → counted.0 ≡ err x
      → guards ≡ (err x, counted.1)
  unfolding pure
  guards_limit operator x admitted e = guards_pass operator admitted ∙ ground (arith, e)

  pub guards_count :
      (operator : Option String) (b : Bool)
      → authenticate s request route ≡ ok operator
      → counted.0 ≡ ok b
      → guards ≡ (ok (given_or operator none), counted.1)
  unfolding pure
  guards_count operator b admitted e = guards_pass operator admitted ∙ ground (arith, e)

pub refused_unauthorized :
    (s : Settings) (request : Request) (route : Route) (e : Exception)
    → authenticate s request route ≡ err e
    → (message : String) × (e ≡ unauthorized message)
unfolding guard_request resolve_operator_id
refused_unauthorized s request route (unauthorized message) f = (message, refl)
refused_unauthorized s request route e f = absurd (ground arith)

raw-nonempty :
    (s : Settings) (request : Request) (route : Route) {operator : Option String} (raw : String)
    → route.is_public ≡ false
    → authenticate s request route ≡ ok operator
    → first_given request.operator_id ≡ some raw
    → raw ≢ ""
unfolding guard_request resolve_operator_id
raw-nonempty s request route raw private admitted given empty =
    absurd (let same = (eq_iff raw "").1 empty in ground arith)

pub admitted-IsOperator :
    (s : Settings) (request : Request) (route : Route) (operator : Option String)
    → route.is_public ≡ false
    → authenticate s request route ≡ ok operator
    → (raw : String) × IsOperator s request raw × (operator ≡ some (s.lower (s.trim raw)))
admitted-IsOperator s request route operator private admitted =
    elim (guard_request_admits s.trim s.lower s.utf16_length s.expected_token route.is_public
      request.token request.operator_id admitted) [
        | inl (public, none_set) ↦ absurd (cc)
        | inr (token, expected, (raw, header, long, same)) ↦ (
          raw,
          record {
            token = token;
            expected = expected;
            operator = header;
            given = raw-nonempty s request route raw private admitted header;
            long = long;
          },
          same,
        )
      ]

pub IsOperator-admitted :
    (s : Settings) (request : Request) (route : Route) (raw : String)
    → IsOperator s request raw
    → route.is_public ≡ false
    → authenticate s request route ≡ ok (some (s.lower (s.trim raw)))
unfolding guard_request resolve_operator_id validate_token
IsOperator-admitted s request route raw v private = ground (
  arith,
  eq_refl s.expected_token,
  eq_iff s.expected_token "",
  eq_iff raw "",
  v.token,
  v.expected,
  v.operator,
  v.given,
  v.long,
)

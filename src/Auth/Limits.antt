-- ===== src/Auth/Limits.antt =====
-- How many requests pass redis-rate-limit.guard.ts in one window: as long as `INCR` counts.
use realtime_ops_platform.Prelude.{
  ℕ, zero, suc, ◌+◌, ◌-◌, ltb, leb, ◌==◌, String, List, [], ◌∷◌, ◌≡◌, Bool, true, false, arith,
  str_eq, eq_refl, if◌then◌else◌,
}
use realtime_ops_platform.Runtime.Calls.{Call, redis_incr, redis_expire}
use realtime_ops_platform.Runtime.Monad.{Env, Outcome, ok, err, http_exception, ◌>>=◌}
use realtime_ops_platform.Records.{get_client}
use realtime_ops_platform.Auth.{LimitedRequest, limit_key, start_window, check_rate}

-- how often a key has been incremented
abbrev pub increments : String → List Call → ℕ
increments key [] = 0
increments key (redis_incr k ∷ h) =
    let rest = increments key h in if str_eq k key then rest + 1 else rest
increments key (_ ∷ h) = increments key h

-- Redis within one window of a key: it counts, and it is there.
pub record Counts (env : Env) (key : String) : Type 0 where
  pub client : env.has_client ≡ true
  pub incr : (h : List Call) → env.answer h (redis_incr key) ≡ ok (increments key h + 1)
  pub expire : (seconds : ℕ) (h : List Call) → env.answer h (redis_expire key seconds) ≡ ok tt

abbrev pub passes : Outcome Bool → ℕ
passes (ok true) = 1
passes _ = 0

-- Of `n` requests in a row, the number that pass.
unfoldable pub admitted : Env → ℕ → ℕ → LimitedRequest → ℕ → List Call → ℕ
admitted env max_requests window_seconds request zero h = 0
admitted env max_requests window_seconds request (suc n) h =
    let (outcome, g) = check_rate env max_requests window_seconds request h in
    passes outcome + admitted env max_requests window_seconds request n g

module _ (env : Env) (max_requests window_seconds : ℕ) (request : LimitedRequest) where
  -- Within one window, a request of a route that is not public passes if fewer than the maximum came
  -- before it, and is refused with a 429 if not; the key is given its time to live by the first
  -- request, and by no other.
  pub check_rate_outcome :
      (h : List Call)
      → request.is_public ≡ false
      → Counts env (limit_key request)
      → ((check_rate env max_requests window_seconds request h).0 ≡ (
          if ltb (increments (limit_key request) h) max_requests
          then ok true
          else err (http_exception "Rate limit exceeded" 429)))
        × ((check_rate env max_requests window_seconds request h).1 ≡ (
            if increments (limit_key request) h == 0
            then redis_expire (limit_key request) window_seconds
              ∷ redis_incr (limit_key request)
              ∷ h
            else redis_incr (limit_key request) ∷ h))
  unfolding check_rate start_window get_client ◌>>=◌
  check_rate_outcome h private counts =
      let count = counts.incr h in
      let expire = counts.expire window_seconds (redis_incr (limit_key request) ∷ h) in
      let client = counts.client in (ground arith, ground arith)

  increments_lem :
      (h : List Call)
      → request.is_public ≡ false
      → Counts env (limit_key request)
      → increments (limit_key request) (check_rate env max_requests window_seconds request h).1
        ≡ increments (limit_key request) h + 1
  increments_lem h private counts =
      let (_, calls) = check_rate_outcome h private counts in
      let same = eq_refl (limit_key request) in ground arith

  admitted_step :
      (n : ℕ) (h : List Call)
      → request.is_public ≡ false
      → Counts env (limit_key request)
      → admitted env max_requests window_seconds request (suc n) h
        ≡ (if ltb (increments (limit_key request) h) max_requests then 1 else 0)
          + admitted env max_requests window_seconds request n
              (check_rate env max_requests window_seconds request h).1
  unfolding admitted
  admitted_step n h private counts =
      let (outcome, _) = check_rate_outcome h private counts in ground arith

  admitted_lem :
      (n : ℕ) (h : List Call)
      → request.is_public ≡ false
      → Counts env (limit_key request)
      → admitted env max_requests window_seconds request n h ≡ (
          if leb n (max_requests - increments (limit_key request) h)
          then n
          else max_requests - increments (limit_key request) h)
  unfolding admitted
  admitted_lem zero h private counts = ground arith
  admitted_lem (suc n) h private counts =
      let rest =
        admitted_lem n (check_rate env max_requests window_seconds request h).1 private counts in
      let step = admitted_step n h private counts in
      let count = increments_lem h private counts in ground arith

  -- Of any number of requests in a row from the start of a window, as many pass as there are, up to
  -- the maximum.
  pub admitted_max :
      (n : ℕ) (h : List Call)
      → request.is_public ≡ false
      → Counts env (limit_key request)
      → increments (limit_key request) h ≡ 0
      → admitted env max_requests window_seconds request n h
        ≡ (if leb n max_requests then n else max_requests)
  admitted_max n h private counts fresh = ground (arith, admitted_lem n h private counts)

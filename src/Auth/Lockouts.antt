-- ===== src/Auth/Lockouts.antt =====
-- What an EXPIRE that fails in redis-rate-limit.guard.ts does to the client of the request: the time to
-- live is set by the first request of a window alone.
use realtime_ops_platform.Prelude.{
  ℕ, ◌-◌, ◌≤◌, String, List, ◌∷◌, ◌≡◌, Bool, true, false, none, arith,
}
use realtime_ops_platform.Runtime.Calls.{Call, redis_incr}
use realtime_ops_platform.Runtime.Monad.{Env, err}
use realtime_ops_platform.Auth.{LimitedRequest, limit_key, check_rate}
use realtime_ops_platform.Auth.Limits.{admitted}
use realtime_ops_platform.Auth.Counters.{alive, counter, Clocked}
use realtime_ops_platform.Auth.Staying.{after, check_rate-Clocked, admitted-Stays, lost-Stays}

module _ (env : Env) (max_requests window_seconds : ℕ) (request : LimitedRequest)
    (time : List Call → ℕ) (lost : List Call → Bool) where
  abbrev key : String
  key = limit_key request

  -- The key has expired, or was never counted, and EXPIRE fails after the INCR of the next request. That
  -- request throws; and of the requests that follow, however many and whenever they come, fewer than the
  -- maximum pass, or none if the maximum is 0.
  pub lost_locks_out :
      (n : ℕ) (h : List Call)
      → request.is_public ≡ false
      → (clocked : Clocked key time lost env) → alive (time h) (counter key time lost h) ≡ none
      → lost (redis_incr key ∷ h) ≡ true
      → ((check_rate env max_requests window_seconds request h).0 ≡ err clocked.reason)
        × (admitted env max_requests window_seconds request n
              (check_rate env max_requests window_seconds request h).1
            ≤ max_requests - 1)
  lost_locks_out n h private clocked gone gave_up =
      let g = (check_rate env max_requests window_seconds request h).1 in
      let until = time (after env max_requests window_seconds request n g) in
      let run =
        check_rate-Clocked env max_requests window_seconds request time lost h private clocked in
      (
        ground arith,
        admitted-Stays env max_requests window_seconds request time lost until n 1 g private clocked
            (lost-Stays env max_requests window_seconds request time lost until h private clocked
              gone gave_up)
            (omega arith),
      )

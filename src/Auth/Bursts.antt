-- ===== src/Auth/Bursts.antt =====
-- How many requests pass redis-rate-limit.guard.ts in any stretch of time as long as a window, where the
-- counter in Redis expires: the windows follow one another, and two of them may meet in the stretch.
use realtime_ops_platform.Prelude.{
  ℕ, zero, suc, ◌+◌, ◌-◌, ◌*◌, ◌≤◌, ◌<◌, String, List, ◌∷◌, ◌≡◌, refl, sym, subst, ap, ◌∙◌, Bool,
  false, Option, none, some, arith, eq_refl, ◌⊎◌, inl, inr, Option-cases,
}
use realtime_ops_platform.Runtime.Calls.{Call, redis_incr}
use realtime_ops_platform.Runtime.Monad.{Env}
use realtime_ops_platform.Auth.{LimitedRequest, limit_key, check_rate}
use realtime_ops_platform.Auth.Limits.{admitted}
use realtime_ops_platform.Auth.Counters.{
  Counter, alive, counter, Clocked, alive_cases, alive-IsCounted, counter-IsCounted,
}
use realtime_ops_platform.Auth.Staying.{
  after, check_rate-Clocked, admitted-suc, request_onward, admitted-zero, admitted-Stays,
  fresh-Stays,
}

module _ (env : Env) (max_requests window_seconds : ℕ) (request : LimitedRequest)
    (time : List Call → ℕ) (lost : List Call → Bool) where
  abbrev key : String
  key = limit_key request

  -- what may pass from here on: the rest of the window, and another one
  abbrev left_over : Option Counter → ℕ
  left_over none = max_requests
  left_over (some c) = (max_requests - c.count) + max_requests

  -- after a request in a window that goes on: it still does, with one more, or it has ended
  going_on :
      (h : List Call) (c : Counter)
      → request.is_public ≡ false
      → Clocked key time lost env
      → alive (time h) (counter key time lost h) ≡ some c
      → 1 ≤ c.count
      → let g = (check_rate env max_requests window_seconds request h).1 in
        (alive (time g) (counter key time lost g) ≡ none)
        ⊎ ((d : Counter) × (alive (time g) (counter key time lost g) ≡ some d)
            × (d.count ≡ c.count + 1))
  going_on h c private clocked left counted =
      let run =
        check_rate-Clocked env max_requests window_seconds request time lost h private clocked in
      let calls : (check_rate env max_requests window_seconds request h).1 ≡ redis_incr key ∷ h =
        ground arith in
      let d = record c { count = c.count + 1 } in
      let state : counter key time lost (redis_incr key ∷ h) ≡ some d =
        ground (arith, eq_refl key) in
      subst
        (λ g.
          (alive (time g) (counter key time lost g) ≡ none)
          ⊎ ((d : Counter) × (alive (time g) (counter key time lost g) ≡ some d)
              × (d.count ≡ c.count + 1)))
        (sym calls)
        (elim (alive_cases (time (redis_incr key ∷ h)) d) [
          | inl gone ↦ inl (ap (alive (time (redis_incr key ∷ h))) state ∙ gone)
          | inr stays ↦ inr (d, ap (alive (time (redis_incr key ∷ h))) state ∙ stays, refl)
        ])

  admitted_from :
      (until n : ℕ) (h : List Call)
      → request.is_public ≡ false
      → Clocked key time lost env
      → until < time h + window_seconds * 1000
      → time (after env max_requests window_seconds request n h) ≤ until
      → admitted env max_requests window_seconds request n h
        ≤ left_over (alive (time h) (counter key time lost h))
  unfolding after
  admitted_from until zero h private clocked short soon =
      omega (arith, admitted-zero env max_requests window_seconds request time lost h)
  admitted_from until (suc n) h private clocked short soon =
      let g = (check_rate env max_requests window_seconds request h).1 in
      let step =
        admitted-suc env max_requests window_seconds request time lost n h private clocked in
      let onward =
        request_onward env max_requests window_seconds request time lost h private clocked in
      let rest = admitted_from until n g private clocked (omega arith) soon in
      elim (Option-cases (alive (time h) (counter key time lost h))) [
        | inl gone ↦
            let fresh =
              admitted-Stays env max_requests window_seconds request time lost until n 1 g private
                clocked
                (fresh-Stays env max_requests window_seconds request time lost until h private
                  clocked gone short)
                soon in
            ground arith
        | inr (c, left) ↦
            let counted =
              alive-IsCounted (time h) (counter key time lost h) c
                (counter-IsCounted key time lost h) left in
            elim (going_on h c private clocked left counted) [
              | inl ended ↦ ground arith
              | inr (d, going, count) ↦ ground arith
            ]
      ]

  -- From any moment on, as many requests in a row as Redis answers within less than a window's length:
  -- at most twice the maximum pass, whatever was counted before.
  pub admitted_twice :
      (n : ℕ) (h : List Call)
      → request.is_public ≡ false
      → Clocked key time lost env
      → time (after env max_requests window_seconds request n h) < time h + window_seconds * 1000
      → admitted env max_requests window_seconds request n h ≤ 2 * max_requests
  admitted_twice n h private clocked short =
      let bound =
        admitted_from (time (after env max_requests window_seconds request n h)) n h private clocked
          short (omega arith) in
      ground arith

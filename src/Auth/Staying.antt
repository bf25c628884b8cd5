-- ===== src/Auth/Staying.antt =====
-- Requests of redis-rate-limit.guard.ts while the counter of a client is there, which expires in Redis.
use realtime_ops_platform.Prelude.{
  ℕ, zero, suc, ◌+◌, ◌-◌, ◌*◌, ◌≤◌, ◌<◌, ltb, ◌==◌, String, List, ◌∷◌, ◌≡◌, refl, sym, subst, ap,
  ◌∙◌, Bool, true, false, ◌&&◌, ◌||◌, Option, none, some, arith, eq_refl, if◌then◌else◌, inl, inr,
  Bool-cases,
}
use realtime_ops_platform.Runtime.Calls.{Call, redis_incr, redis_expire}
use realtime_ops_platform.Runtime.Monad.{Env, ok, err, http_exception, ◌>>=◌}
use realtime_ops_platform.Records.{get_client}
use realtime_ops_platform.Auth.{LimitedRequest, limit_key, start_window, check_rate}
use realtime_ops_platform.Auth.Limits.{admitted}
use realtime_ops_platform.Auth.Counters.{Counter, alive, bump, counter, Clocked}

-- the calls after `n` requests in a row
unfoldable pub after : Env → ℕ → ℕ → LimitedRequest → ℕ → List Call → List Call
after env max_requests window_seconds request zero h = h
after env max_requests window_seconds request (suc n) h =
    after env max_requests window_seconds request n
      (check_rate env max_requests window_seconds request h).1

module _ (env : Env) (max_requests window_seconds : ℕ) (request : LimitedRequest)
    (time : List Call → ℕ) (lost : List Call → Bool) where
  abbrev pub key : String
  key = limit_key request

  abbrev pub next : List Call → ℕ
  next h = (bump (alive (time h) (counter key time lost h))).count

  pub check_rate-Clocked :
      (h : List Call)
      → request.is_public ≡ false
      → (clocked : Clocked key time lost env)
      → check_rate env max_requests window_seconds request h ≡ (
        if next h == 1 && lost (redis_incr key ∷ h)
            then err clocked.reason
            else if ltb max_requests (next h)
            then err (http_exception "Rate limit exceeded" 429)
            else ok true,
        if next h == 1
            then redis_expire key window_seconds ∷ redis_incr key ∷ h
            else redis_incr key ∷ h,
      )
  unfolding check_rate start_window get_client ◌>>=◌
  check_rate-Clocked h private clocked =
      let count = clocked.incr h in
      let expire = clocked.expire window_seconds (redis_incr key ∷ h) in
      let client = clocked.client in ground arith

  pub admitted-suc :
      (n : ℕ) (h : List Call)
      → request.is_public ≡ false
      → Clocked key time lost env
      → admitted env max_requests window_seconds request (suc n) h
        ≡ (if next h == 1 && lost (redis_incr key ∷ h) || ltb max_requests (next h) then 0 else 1)
          + admitted env max_requests window_seconds request n
              (check_rate env max_requests window_seconds request h).1
  unfolding admitted
  admitted-suc n h private clocked = let run = check_rate-Clocked h private clocked in ground arith

  pub request_onward :
      (h : List Call)
      → request.is_public ≡ false
      → Clocked key time lost env
      → time h ≤ time (check_rate env max_requests window_seconds request h).1
  request_onward h private clocked =
      let run = check_rate-Clocked h private clocked in
      let first = clocked.onward (redis_incr key) h in
      let second = clocked.onward (redis_expire key window_seconds) (redis_incr key ∷ h) in
      ground arith

  after_onward :
      (n : ℕ) (h : List Call)
      → request.is_public ≡ false
      → Clocked key time lost env
      → time h ≤ time (after env max_requests window_seconds request n h)
  unfolding after
  after_onward zero h private clocked = omega arith
  after_onward (suc n) h private clocked = omega (
    arith,
    request_onward h private clocked,
    after_onward n (check_rate env max_requests window_seconds request h).1 private clocked,
  )

  abbrev pub Lasts : ℕ → Option ℕ → Type 0
  Lasts until none = Unit
  Lasts until (some e) = until < e

  -- the key has this count, and does not expire until then
  pub record Stays (until c : ℕ) (state : Option Counter) : Type 0 where
    pub counted : 1 ≤ c
    pub expires : Option ℕ
    pub state_is : state ≡ some (record { count = c; expires = expires })
    pub lasts : Lasts until expires

  alive-Lasts :
      (now until c : ℕ) (expires : Option ℕ)
      → now ≤ until
      → Lasts until expires
      → alive now (some (record { count = c; expires = expires }))
        ≡ some (record { count = c; expires = expires })
  alive-Lasts now until c none soon l = refl
  alive-Lasts now until c (some e) soon l = ground arith

  Stays-alive :
      (until c : ℕ) (h : List Call)
      → (s : Stays until c (counter key time lost h)) → time h ≤ until
      → alive (time h) (counter key time lost h) ≡ some (record { count = c; expires = s.expires })
  Stays-alive until c h s soon =
      ap (alive (time h)) s.state_is ∙ alive-Lasts (time h) until c s.expires soon s.lasts

  Stays-calls :
      (until c : ℕ) (h : List Call)
      → request.is_public ≡ false
      → Clocked key time lost env
      → Stays until c (counter key time lost h)
      → time h ≤ until
      → (check_rate env max_requests window_seconds request h).1 ≡ redis_incr key ∷ h
  Stays-calls until c h private clocked s soon =
      let run = check_rate-Clocked h private clocked in
      let counted = s.counted in let left = Stays-alive until c h s soon in ground arith

  Stays-suc :
      (until c : ℕ) (h : List Call)
      → Stays until c (counter key time lost h)
      → time h ≤ until
      → Stays until (suc c) (counter key time lost (redis_incr key ∷ h))
  Stays-suc until c h s soon = record {
    counted = omega arith;
    expires = s.expires;
    state_is = ground (arith, eq_refl key, Stays-alive until c h s soon);
    lasts = s.lasts;
  }

  pub admitted-zero : (h : List Call) → admitted env max_requests window_seconds request zero h ≡ 0
  unfolding admitted
  admitted-zero h = refl

  -- While a key stays, only what is left of its window passes.
  pub admitted-Stays :
      (until n c : ℕ) (h : List Call)
      → request.is_public ≡ false
      → Clocked key time lost env
      → Stays until c (counter key time lost h)
      → time (after env max_requests window_seconds request n h) ≤ until
      → admitted env max_requests window_seconds request n h ≤ max_requests - c
  unfolding after
  admitted-Stays until zero c h private clocked s soon = omega (arith, admitted-zero h)
  admitted-Stays until (suc n) c h private clocked s soon =
      let g = (check_rate env max_requests window_seconds request h).1 in
      let now : time h ≤ until =
        omega (arith, request_onward h private clocked, after_onward n g private clocked, soon) in
      let calls = Stays-calls until c h private clocked s now in
      let later =
        admitted-Stays until n (suc c) g private clocked
          (subst (λ q. Stays until (suc c) (counter key time lost q)) (sym calls)
            (Stays-suc until c h s now))
          soon in
      let count = Stays-alive until c h s now in
      let step = admitted-suc n h private clocked in ground arith

  -- A key that has expired, or was never counted, starts a new window; or, where its EXPIRE is lost, one
  -- that never ends.
  kept-Stays :
      (until : ℕ) (h : List Call)
      → request.is_public ≡ false
      → Clocked key time lost env
      → alive (time h) (counter key time lost h) ≡ none
      → until < time h + window_seconds * 1000
      → lost (redis_incr key ∷ h) ≡ false
      → Stays until 1
          (counter key time lost (check_rate env max_requests window_seconds request h).1)
  kept-Stays until h private clocked gone soon kept =
      let run = check_rate-Clocked h private clocked in
      let onward = clocked.onward (redis_incr key) h in
      record {
        counted = omega arith;
        expires = some (time (redis_incr key ∷ h) + window_seconds * 1000);
        state_is = ground (arith, eq_refl key);
        lasts = omega arith;
      }

  pub lost-Stays :
      (until : ℕ) (h : List Call)
      → request.is_public ≡ false
      → Clocked key time lost env
      → alive (time h) (counter key time lost h) ≡ none
      → lost (redis_incr key ∷ h) ≡ true
      → Stays until 1
          (counter key time lost (check_rate env max_requests window_seconds request h).1)
  lost-Stays until h private clocked gone gave_up =
      let run = check_rate-Clocked h private clocked in
      record {
        counted = omega arith;
        expires = none;
        state_is = ground (arith, eq_refl key);
        lasts = tt;
      }

  pub fresh-Stays :
      (until : ℕ) (h : List Call)
      → request.is_public ≡ false
      → Clocked key time lost env
      → alive (time h) (counter key time lost h) ≡ none
      → until < time h + window_seconds * 1000
      → Stays until 1
          (counter key time lost (check_rate env max_requests window_seconds request h).1)
  fresh-Stays until h private clocked gone soon = elim (Bool-cases (lost (redis_incr key ∷ h))) [
    | inl e ↦ lost-Stays until h private clocked gone e
    | inr e ↦ kept-Stays until h private clocked gone soon e
  ]

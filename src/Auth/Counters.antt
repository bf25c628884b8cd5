-- ===== src/Auth/Counters.antt =====
-- A counter of Redis that expires, as redis-rate-limit.guard.ts uses it: INCR and EXPIRE over time.
use realtime_ops_platform.Prelude.{
  ℕ, ◌+◌, ◌*◌, ◌≤◌, ltb, String, List, [], ◌∷◌, ◌≡◌, Bool, true, not, ◌&&◌, Option, none, some,
  arith, str_eq, if◌then◌else◌, ◌⊎◌,
}
use realtime_ops_platform.Runtime.Calls.{Call, redis_incr, redis_expire}
use realtime_ops_platform.Runtime.Monad.{Env, Exception, ok, err}

-- a key of Redis that counts, and when it expires, if it does
pub record Counter : Type 0 where
  pub count : ℕ
  pub expires : Option ℕ

-- what is left of it at a time
abbrev pub alive : ℕ → Option Counter → Option Counter
alive now none = none
alive now (some c) = elim c.expires [ none ↦ some c | some e ↦ if ltb now e then some c else none ]

-- INCR
abbrev pub bump : Option Counter → Counter
bump none = record { count = 1; expires = none }
bump (some c) = record c { count = c.count + 1 }

-- EXPIRE
abbrev pub expire_at : ℕ → Option Counter → Option Counter
expire_at e none = none
expire_at e (some c) = some (record c { expires = some e })

-- it has counted something
abbrev pub IsCounted : Option Counter → Type 0
IsCounted none = Unit
IsCounted (some c) = 1 ≤ c.count

pub alive_cases :
    (now : ℕ) (c : Counter) → (alive now (some c) ≡ none) ⊎ (alive now (some c) ≡ some c)
alive_cases now c = ground arith

pub alive-IsCounted :
    (now : ℕ) (state : Option Counter) (c : Counter)
    → IsCounted state
    → alive now state ≡ some c
    → 1 ≤ c.count
alive-IsCounted now none c p e = absurd (cc)
alive-IsCounted now (some d) c p e = ground arith

module _ (key : String) (time : List Call → ℕ) (lost : List Call → Bool) where
  -- The key after these calls. `time h` is when Redis answers the call that follows `h`, in
  -- milliseconds, and `lost h` says whether that call, if it is EXPIRE, fails before Redis has done it.
  abbrev pub counter : List Call → Option Counter
  counter [] = none
  counter (redis_incr k ∷ h) =
      let before = counter h in if str_eq k key then some (bump (alive (time h) before)) else before
  counter (redis_expire k seconds ∷ h) =
      let before = counter h in
      if str_eq k key && not (lost h)
      then expire_at (time h + seconds * 1000) (alive (time h) before)
      else before
  counter (_ ∷ h) = counter h

  -- Redis, with a clock that does not go back: it counts what is alive.
  pub record Clocked (env : Env) : Type 0 where
    pub client : env.has_client ≡ true
    pub incr :
        (h : List Call)
        → env.answer h (redis_incr key) ≡ ok (bump (alive (time h) (counter h))).count
    pub reason : Exception
    pub expire :
        (seconds : ℕ) (h : List Call)
        → env.answer h (redis_expire key seconds) ≡ (if lost h then err reason else ok tt)
    pub onward : (c : Call) (h : List Call) → time h ≤ time (c ∷ h)

  pub counter-IsCounted : (h : List Call) → IsCounted (counter h)
  counter-IsCounted [] = tt
  counter-IsCounted (redis_incr k ∷ h) = ground (arith, counter-IsCounted h)
  counter-IsCounted (redis_expire k seconds ∷ h) = ground (arith, counter-IsCounted h)
  counter-IsCounted (_ ∷ h) = counter-IsCounted h

-- ===== src/Runtime/Returns.antt =====
-- Actions that return wherever every call is answered, with one rule for each way to build an action.
use realtime_ops_platform.Prelude.{ℕ, List, ◌≡◌, refl, Bool, true, false, if◌then◌else◌}
use realtime_ops_platform.Runtime.Calls.{Call, Answer}
use realtime_ops_platform.Runtime.Monad.{
  Env, Run, M, Outcome, ok, err, pure, and_then, ◌>>=◌, call, now, pause, leave, try_finally,
}

-- The brokers are set up, and every call is answered.
pub record Works (env : Env) : Type 0 where
  pub client : env.has_client ≡ true
  pub channel : env.has_channel ≡ true
  pub answers : (c : Call) (h : List Call) → (a : Answer c) × (env.answer h c ≡ ok a)

pub record Returns {A : Type 0} (m : M A) : Type 0 where
  pub at : (h : List Call) → (a : A) × ((m h).0 ≡ ok a)

pub Returns-pure : {A : Type 0} (a : A) → Returns (pure a)
unfolding pure
Returns-pure a = record { at = λ h. (a, refl) }

pub Returns-now : (env : Env) → Returns (now env)
unfolding now
Returns-now env = record { at = λ h. (env.clock h, refl) }

pub Returns-pause : (ms : ℕ) → Returns (pause ms)
unfolding pause
Returns-pause ms = record { at = λ h. (tt, refl) }

pub Returns-call : {env : Env} → Works env → (c : Call) → Returns (call env c)
unfolding call
Returns-call w c = record { at = λ h. w.answers c h }

pub Returns-if :
    {A : Type 0} (on_true on_false : M A) (test : Bool)
    → (test ≡ false → Returns on_false)
    → (test ≡ true → Returns on_true)
    → Returns (if test then on_true else on_false)
Returns-if on_true on_false false off on = off refl
Returns-if on_true on_false true off on = on refl

-- A guard that holds.
pub Returns-guard :
    {A : Type 0} (passed failed : M A) (test : Bool)
    → test ≡ true
    → Returns passed
    → Returns (if test then passed else failed)
Returns-guard passed failed true e p = p
Returns-guard passed failed false e p = record { at = λ h. cc }

module _ {A B : Type 0} where
  and_then-Returns :
      (r : Run A) (rest : A → M B) {a : A}
      → r.0 ≡ ok a
      → ((b : A) → Returns (rest b))
      → (b : B) × ((and_then r rest).0 ≡ ok b)
  and_then-Returns (ok a, h) rest e k = (k a).at h
  and_then-Returns (err x, h) rest e k = cc

  pub Returns-bind :
      (first : M A) (rest : A → M B)
      → ((a : A) → Returns (rest a))
      → Returns first
      → Returns (first >>= rest)
  unfolding ◌>>=◌
  Returns-bind first rest k f = record {
    at = λ h. let (a, e) = f.at h in and_then-Returns (first h) rest e k;
  }

module _ {A : Type 0} where
  leave-Returns :
      (o : Outcome A) (r : Run (Unit {0})) {a : A} {u : Unit {0}}
      → o ≡ ok a
      → r.0 ≡ ok u
      → (b : A) × ((leave o r).0 ≡ ok b)
  leave-Returns (ok a) (ok u, h) e f = (a, refl)
  leave-Returns (ok a) (err x, h) e f = cc
  leave-Returns (err x) r e f = cc

  pub Returns-try_finally :
      (body : M A) (last : M (Unit {0}))
      → Returns body
      → Returns last
      → Returns (try_finally body last)
  unfolding try_finally
  Returns-try_finally body last b l = record {
    at = λ h.
        let (a, e) = b.at h in
        let (u, f) = l.at (body h).1 in leave-Returns (body h).0 (last (body h).1) e f;
  }

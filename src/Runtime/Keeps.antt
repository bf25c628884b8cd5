-- ===== src/Runtime/Keeps.antt =====
-- Invariants of the calls made, with one rule for each way to build an action.
use realtime_ops_platform.Prelude.{
  ℕ, List, ◌∷◌, Bool, true, false, Option, none, some, ◌≡◌, refl, if◌then◌else◌,
}
use realtime_ops_platform.Runtime.Calls.{Call, read_clock, sleep}
use realtime_ops_platform.Runtime.Monad.{
  Env, Exception, Run, M, Outcome, ok, err, pure, throw, and_then, ◌>>=◌, call, now, pause,
  or_throw, throw_if, leave, try_finally, recover, try_catch,
}

-- Whatever `m` does, returning or throwing, the calls made keep `P`.
pub record Keeps {A : Type 0} (P : List Call → Type 0) (m : M A) : Type 0 where
  pub at : (h : List Call) → P h → P (m h).1

module _ {P : List Call → Type 0} where
  pub Keeps-pure : {A : Type 0} (a : A) → Keeps P (pure a)
  unfolding pure
  Keeps-pure a = record { at = λ h p. p }

  pub Keeps-throw : {A : Type 0} (e : Exception) → Keeps P (throw {A = A} e)
  unfolding throw
  Keeps-throw e = record { at = λ h p. p }

  pub Keeps-call :
      (env : Env) (c : Call) → ((h : List Call) → P h → P (c ∷ h)) → Keeps P (call env c)
  unfolding call
  Keeps-call env c k = record { at = k }

  pub Keeps-now : (env : Env) → ((h : List Call) → P h → P (read_clock ∷ h)) → Keeps P (now env)
  unfolding now
  Keeps-now env k = record { at = k }

  pub Keeps-pause : (ms : ℕ) → ((h : List Call) → P h → P (sleep ms ∷ h)) → Keeps P (pause ms)
  unfolding pause
  Keeps-pause ms k = record { at = k }

  pub Keeps-or_throw : {A : Type 0} (o : Option A) (e : Exception) → Keeps P (or_throw o e)
  unfolding or_throw pure throw
  Keeps-or_throw none e = record { at = λ h p. p }
  Keeps-or_throw (some a) e = record { at = λ h p. p }

  pub Keeps-throw_if : (b : Bool) (e : Exception) → Keeps P (throw_if b e)
  unfolding throw_if pure throw
  Keeps-throw_if true e = record { at = λ h p. p }
  Keeps-throw_if false e = record { at = λ h p. p }

  pub Keeps-if :
      {A : Type 0} (on_true on_false : M A) (test : Bool)
      → (test ≡ false → Keeps P on_false)
      → (test ≡ true → Keeps P on_true)
      → Keeps P (if test then on_true else on_false)
  Keeps-if on_true on_false false keeps_no keeps_yes = keeps_no refl
  Keeps-if on_true on_false true keeps_no keeps_yes = keeps_yes refl

module _ {P : List Call → Type 0} {A B : Type 0} where
  and_then-keeps :
      (r : Run A) (f : A → M B) → P r.1 → ((a : A) → Keeps P (f a)) → P (and_then r f).1
  and_then-keeps (ok a, h) f p k = (k a).at h p
  and_then-keeps (err e, h) f p k = p

  pub Keeps-bind :
      (first : M A) (rest : A → M B)
      → ((a : A) → Keeps P (rest a))
      → Keeps P first
      → Keeps P (first >>= rest)
  unfolding ◌>>=◌
  Keeps-bind first rest rest-Keeps first-Keeps = record {
    at = λ h p. and_then-keeps (first h) rest (first-Keeps.at h p) rest-Keeps;
  }

leave-calls : {A : Type 0} (o : Outcome A) (r : Run (Unit {0})) → (leave o r).1 ≡ r.1
leave-calls o (ok _, h) = refl
leave-calls o (err e, h) = refl

module _ {P : List Call → Type 0} {A : Type 0} where
  pub Keeps-try_finally :
      (m : M A) (last : M (Unit {0})) → Keeps P m → Keeps P last → Keeps P (try_finally m last)
  unfolding try_finally
  Keeps-try_finally m last km kl = record {
    at = λ h p. rw (leave-calls (m h).0 (last (m h).1)) (kl.at (m h).1 (km.at h p));
  }

  recover-keeps : (r : Run A) (handler : M A) → P r.1 → Keeps P handler → P (recover r handler).1
  recover-keeps (ok a, h) handler p k = p
  recover-keeps (err e, h) handler p k = k.at h p

  pub Keeps-try_catch :
      (m handler : M A) → Keeps P m → Keeps P handler → Keeps P (try_catch m handler)
  unfolding try_catch
  Keeps-try_catch m handler km kh = record {
    at = λ h p. recover-keeps (m h) handler (km.at h p) kh;
  }

pub ruleset keeps_rules = (
  Keeps-pure, Keeps-throw, Keeps-call, Keeps-now, Keeps-pause, Keeps-or_throw, Keeps-throw_if,
  Keeps-if, Keeps-bind, Keeps-try_finally, Keeps-try_catch,
)

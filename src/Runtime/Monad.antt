-- ===== src/Runtime/Monad.antt =====
-- Exceptions, the environment, and the actions of the services.
use realtime_ops_platform.Prelude.{ℕ, String, List, ◌∷◌, Bool, true, false, Option, none, some}
use realtime_ops_platform.Runtime.Calls.{Call, Answer, read_clock, sleep}

-- The exceptions that the code throws, by class, with their message; `rejected` is one that a call
-- outside the program throws.
pub data Exception : Type 0 where
  bad_request not_found unauthorized plain_error rejected : String → Exception
  http_exception : String → ℕ → Exception

pub data Outcome {ℓ} (A : Type ℓ) : Type ℓ where
  ok : A → Outcome A
  err : Exception → Outcome A

-- The environment: its answers, the date at each moment, and whether the clients of RabbitMQ and
-- Redis have been set up by `onModuleInit`.
pub record Env : Type 0 where
  pub answer : List Call → (c : Call) → Outcome (Answer c)
  pub clock : List Call → ℕ
  pub has_channel : Bool
  pub has_client : Bool

abbrev pub Run : Type 0 → Type 0
Run A = Outcome A × List Call

abbrev pub M : Type 0 → Type 0
M A = List Call → Run A

unfoldable pub pure : {A : Type 0} → A → M A
pure a h = (ok a, h)

unfoldable pub throw : {A : Type 0} → Exception → M A
throw e h = (err e, h)

abbrev pub and_then : {A B : Type 0} → Run A → (A → M B) → Run B
and_then (ok a, h) f = f a h
and_then (err e, h) f = (err e, h)

-- `await` of a call to the outside
unfoldable pub call : Env → (c : Call) → M (Answer c)
call env c h = (env.answer h c, c ∷ h)

-- `new Date()`
unfoldable pub now : Env → M ℕ
now env h = (ok (env.clock h), read_clock ∷ h)

-- `setTimeout(resolve, ms)`
unfoldable pub pause : ℕ → M (Unit {0})
pause ms h = (ok tt, sleep ms ∷ h)

-- `if (!x) { throw … }`
unfoldable pub or_throw : {A : Type 0} → Option A → Exception → M A
or_throw none e = throw e
or_throw (some a) e = pure a

-- `if (b) { throw … }`
unfoldable pub throw_if : Bool → Exception → M (Unit {0})
throw_if true e = throw e
throw_if false e = pure tt

-- `try { … } finally { … }`: an exception of the `finally` block takes the place of the result.
abbrev pub leave : {A : Type 0} → Outcome A → Run (Unit {0}) → Run A
leave o (ok _, h) = (o, h)
leave o (err e, h) = (err e, h)

abbrev pub close : {A : Type 0} → Run A → M (Unit {0}) → Run A
close (o, h) last = leave o (last h)

unfoldable pub try_finally : {A : Type 0} → M A → M (Unit {0}) → M A
try_finally body last h = close (body h) last

-- `try { … } catch { … }`
abbrev pub recover : {A : Type 0} → Run A → M A → Run A
recover (ok a, h) handler = (ok a, h)
recover (err e, h) handler = handler h

unfoldable pub try_catch : {A : Type 0} → M A → M A → M A
try_catch body handler h = recover (body h) handler

-- `await m` and the rest. To unfold it is to unfold the actions above.
infixl 5 ◌>>=◌ ◌>>◌
unfoldable pub ◌>>=◌ : {A B : Type 0} → M A → (A → M B) → M B
unfolding pure throw call now pause or_throw throw_if try_finally try_catch
◌>>=◌ m f h = and_then (m h) f

abbrev pub ◌>>◌ : {A B : Type 0} → M A → M B → M B
m >> k = m >>= λ _. k

-- ===== src/Http/Replies.antt =====
-- What a request is answered with, where a service refuses it.
use realtime_ops_platform.Prelude.{ℕ, String, List, ◌∷◌, ◌≡◌, Option, none, some, arith}
use realtime_ops_platform.Runtime.Calls.{Call, read_clock}
use realtime_ops_platform.Runtime.Monad.{
  Env, Exception, Run, ok, err, bad_request, not_found, unauthorized, plain_error, http_exception,
  rejected, ◌>>=◌,
}
use realtime_ops_platform.Http.Filter.{
  Thrown, http, other, plain, details, single, Reply, success, failure, ErrorBody, catch_exception,
  normalize_message,
}

-- NestJS: an exception as the filter is given it. The classes of the services' exceptions are
-- HttpExceptions, with the response that NestJS documents, but for `Error`.
pub record Nest : Type 0 where
  pub thrown : Exception → Thrown
  pub of_bad_request :
      (m : String) → thrown (bad_request m) ≡ http 400 (details (single m) (some "Bad Request"))
  pub of_not_found :
      (m : String) → thrown (not_found m) ≡ http 404 (details (single m) (some "Not Found"))
  pub of_unauthorized :
      (m : String) → thrown (unauthorized m) ≡ http 401 (details (single m) (some "Unauthorized"))
  pub of_http_exception :
      (m : String) (status : ℕ) → thrown (http_exception m status) ≡ http status (plain m)
  pub of_plain_error : (m : String) → thrown (plain_error m) ≡ other

-- the status and the text that the exception of a service is answered with, where it has them
abbrev pub refused_with : Exception → Option (ℕ × String)
refused_with (bad_request m) = some (400, m)
refused_with (not_found m) = some (404, m)
refused_with (unauthorized m) = some (401, m)
refused_with (http_exception m status) = some (status, m)
refused_with (plain_error m) = some (500, "Unexpected server error")
refused_with _ = none

-- the body of a refusal, after the calls `h`
abbrev pub refusal : Env → String → ℕ → String → List Call → ErrorBody
refusal env url status message h = record {
  code = status;
  message = message;
  path = url;
  timestamp = env.clock h;
}

module _ (nest : Nest) (env : Env) (url : String) {A : Type 0} where
  -- the answer to a request, from what its controller has done
  abbrev pub answer_run : Run A → Run (Reply A)
  answer_run (ok a, h) = (ok (success a), h)
  answer_run (err e, h) = catch_exception env url (nest.thrown e) h

  -- A request whose controller throws one of the services' exceptions is answered with the status of
  -- its class, which its body repeats, with its message and the path of the request; an `Error` is
  -- answered with 500 and a text that says nothing of it. The clock is read, and nothing else is called.
  pub answer_refuses :
      (r : Run A) (e : Exception) (status : ℕ) (message : String)
      → r.0 ≡ err e
      → refused_with e ≡ some (status, message)
      → answer_run r ≡ (ok (failure status (refusal env url status message r.1)), read_clock ∷ r.1)
  unfolding catch_exception normalize_message ◌>>=◌
  answer_refuses (ok a, h) e status message thrown says = absurd (cc)
  answer_refuses (err x, h) (bad_request m) status message thrown says =
      ground (arith, thrown, says, nest.of_bad_request m)
  answer_refuses (err x, h) (not_found m) status message thrown says =
      ground (arith, thrown, says, nest.of_not_found m)
  answer_refuses (err x, h) (unauthorized m) status message thrown says =
      ground (arith, thrown, says, nest.of_unauthorized m)
  answer_refuses (err x, h) (plain_error m) status message thrown says =
      ground (arith, thrown, says, nest.of_plain_error m)
  answer_refuses (err x, h) (http_exception m s) status message thrown says =
      ground (arith, thrown, says, nest.of_http_exception m s)
  answer_refuses (err x, h) (rejected m) status message thrown says = absurd (cc)

-- ===== src/Tests/Access.antt =====
-- The theorems about the lists, about who is let in and about the health checks, at sample requests.
use realtime_ops_platform.Prelude.{
  ◌*◌, ◌≤◌, ℕ, ◌+◌, String, List, [], ◌∷◌, ◌≡◌, ◌≢◌, refl, ◌⊎◌, Bool, if◌then◌else◌, Option, none,
  some, true, false, length, arith,
}
use realtime_ops_platform.Core.Enums.{JobStatus}
use realtime_ops_platform.Core.Entities.{JobEntity}
use realtime_ops_platform.Runtime.Calls
use realtime_ops_platform.Runtime.Calls.{
  Answer, Call, by_created_at, desc, named, redis_expire, redis_incr, socket_disconnect,
}
use realtime_ops_platform.Runtime.Monad.{Env, Outcome, ok, err, rejected, ◌>>=◌}
use realtime_ops_platform.Records.{get_client}
use realtime_ops_platform.Listing.{JobQuery, job_find, page_count}
use realtime_ops_platform.Listing.Windows.{Holds, Apart, read_pages, read_pages_all, window}
use realtime_ops_platform.Auth.{
  Handshake, absent, text, LimitedRequest, guard_request, handle_connection, limit_key, check_rate,
  start_window, missing, once, resolve_operator_id, validate_token,
}
use realtime_ops_platform.Health.{HealthView, get_health}
use realtime_ops_platform.Health.Reporting.{get_health_reports}
use realtime_ops_platform.Auth.Admission.{Admitted, handle_connection_admits}
use realtime_ops_platform.Auth.Limits.{Counts, admitted, admitted_max, increments}
use realtime_ops_platform.Auth.Counters.{alive, bump, counter, Clocked}
use realtime_ops_platform.Auth.Staying.{after}
use realtime_ops_platform.Auth.Bursts.{admitted_twice}
use realtime_ops_platform.Auth.Lockouts.{lost_locks_out}
use realtime_ops_platform.Tests.Samples.{busy_env, sample_job}

abbrev created_on : ℕ → JobEntity
created_on date = record (sample_job JobStatus.queued 0 false) { created_at = date }

abbrev stored : List JobEntity
stored = created_on 300 ∷ created_on 200 ∷ created_on 100 ∷ []

abbrev query : JobQuery
query = record {
  page = 1;
  limit = 2;
  status = none;
  type = none;
  search = none;
  sort_by = none;
  sort_order = desc;
}

-- a database with these rows, and a Redis that counts
abbrev reply : List Call → (c : Call) → Outcome (Answer c)
reply h (Calls.job_find_and_count f) = ok (window f.skip f.take_rows stored, length stored)
reply h (Calls.redis_incr key) = ok (increments key h + 1)
reply h (Calls.redis_expire key seconds) = ok tt
reply h _ = err (rejected "unavailable")

abbrev counting_env : Env
counting_env = record { answer = reply; clock = λ h. 1000; has_channel = true; has_client = true }

stored-Holds : Holds counting_env query stored
unfolding job_find
stored-Holds page h = (
  stored,
  ([], _, refl, ([], _, refl, ([], _, refl, refl))),
  ((omega arith, (omega arith, tt)), ((omega arith, tt), (tt, tt))),
  refl,
)

stored-Apart : Apart counting_env query stored
stored-Apart = ((omega arith, (omega arith, tt)), ((omega arith, tt), (tt, tt)))

read_pages_all_example :
    (read_pages counting_env query (page_count (length stored) 2) 1 []).0 ≡ ok stored
read_pages_all_example =
    read_pages_all counting_env query stored [] (omega arith) stored-Holds stored-Apart

abbrev same : String → String
same s = s

abbrev signed : Option String
signed = some "op-7"

abbrev two_long : String → ℕ
two_long s = 2

guard_run :
    guard_request same same two_long "secret" false (once "secret") (once "op-7") ≡ ok (some "op-7")
unfolding guard_request validate_token resolve_operator_id
guard_run = refl

abbrev operator : Handshake
operator = record {
  auth_token = absent;
  auth_operator_id = text "OP-7";
  query_token = missing;
  query_operator_id = missing;
  header_token = once "secret";
  header_operator_id = missing;
}

handle_connection_admits_example :
    ((◌≡◌ {A = Option String} (some "secret") (some "secret"))
      × (◌≢◌ {A = String} "secret" "")
      × Admitted busy_env same "secret" operator [])
    ⊎ ((validate_token "secret" (some "secret") ≡ false)
        × ((handle_connection busy_env same "secret" operator []).1 ≡ socket_disconnect true ∷ []))
handle_connection_admits_example = handle_connection_admits busy_env same "secret" operator []

abbrev request : LimitedRequest
request = record {
  is_public = false;
  ip = some "10.0.0.1";
  method = "GET";
  route_path = some "/jobs";
  path = "/jobs";
}

request-Counts : Counts counting_env "rate-limit:10.0.0.1:GET:/jobs"
request-Counts = record { client = refl; incr = λ h. refl; expire = λ seconds h. refl }

admitted_max_example : admitted counting_env 2 30 request 3 [] ≡ 2
admitted_max_example = admitted_max counting_env 2 30 request 3 [] refl request-Counts refl

get_health_reports_example :
    (view : HealthView) × ((get_health counting_env []).0 ≡ ok view)
    × (view.database ≡ "down")
    × (view.redis ≡ "down")
    × (view.rabbitmq ≡ "down")
    × (view.status ≡ "degraded")
get_health_reports_example = get_health_reports counting_env []

-- a Redis that answers a call every 100 ms, and loses every EXPIRE or none
abbrev ticking : List Call → ℕ
ticking h = length h * 100

abbrev losing : Bool → List Call → Bool
losing gives_up h = gives_up

abbrev ticking_reply : Bool → List Call → (c : Call) → Outcome (Answer c)
ticking_reply gives_up h (Calls.redis_incr key) =
    ok (bump (alive (ticking h) (counter key ticking (losing gives_up) h))).count
ticking_reply gives_up h (Calls.redis_expire key seconds) =
    if gives_up then err (rejected "unavailable") else ok tt
ticking_reply gives_up h _ = err (rejected "unavailable")

abbrev ticking_env : Bool → Env
ticking_env gives_up = record {
  answer = ticking_reply gives_up;
  clock = λ h. 1000;
  has_channel = true;
  has_client = true;
}

ticking-Clocked :
    (gives_up : Bool) → Clocked (limit_key request) ticking (losing gives_up) (ticking_env gives_up)
ticking-Clocked gives_up = record {
  client = refl;
  incr = λ h. refl;
  reason = rejected "unavailable";
  expire = λ seconds h. refl;
  onward = λ c h. omega arith;
}

three_take : ticking (after (ticking_env false) 2 30 request 3 []) ≡ 400
unfolding after check_rate start_window get_client ◌>>=◌
three_take = refl

admitted_twice_example : admitted (ticking_env false) 2 30 request 3 [] ≤ 4
admitted_twice_example =
    admitted_twice (ticking_env false) 2 30 request ticking (losing false) 3 [] refl
      (ticking-Clocked false) (omega (arith, three_take))

lost_locks_out_example :
    ((check_rate (ticking_env true) 2 30 request []).0 ≡ err (ticking-Clocked true).reason)
    × (admitted (ticking_env true) 2 30 request 5 (check_rate (ticking_env true) 2 30 request []).1
        ≤ 1)
lost_locks_out_example =
    lost_locks_out (ticking_env true) 2 30 request ticking (losing true) 5 [] refl
      (ticking-Clocked true) refl refl

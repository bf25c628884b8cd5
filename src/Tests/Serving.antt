-- ===== src/Tests/Serving.antt =====
-- The theorems about the API as a whole and how NestJS puts it together, at sample requests.
use realtime_ops_platform.Prelude.{[], ◌≡◌, ◌≢◌, ◌⊎◌, none, some, refl, true}
use mathlib.Core.List.{mem-cons_self, mem-cons_of_mem}
use realtime_ops_platform.Core.Value.{natural}
use realtime_ops_platform.Runtime.Monad.{Env, Outcome, ok, ◌>>=◌}
use realtime_ops_platform.Auth.{once}
use realtime_ops_platform.Wiring.Gather.{Within}
use realtime_ops_platform.Wiring.Modules.{api_gateway, application, module_of}
use realtime_ops_platform.Wiring.Resolution.{
  documented, Provides, asked, scope, imported_modules, modules_from, applications_resolve,
}
use realtime_ops_platform.Core.Enums.{EntityType, JobStatus}
use realtime_ops_platform.Messaging.{publish_to_queue}
use realtime_ops_platform.Events.{publish_job_created, publish_notification_created}
use realtime_ops_platform.Records.{log, create_notification}
use realtime_ops_platform.Jobs.Service.{retry, requeue, get_by_id, requeued}
use realtime_ops_platform.Http.Controllers
use realtime_ops_platform.Http.Accounts.{Accounted, perform_accounts}
use realtime_ops_platform.Http.Routes.{Action, Returned, perform, get_health, retry_job}
use realtime_ops_platform.Http.Replies.{answer_run}
use realtime_ops_platform.Http.Serving.{Request, Settings, handled, serve}
use realtime_ops_platform.Http.Guarding.{Unauthorized, Limited, Passed, serve_guards}
use realtime_ops_platform.Tests.Samples.{busy_env, sample_job, with_job}
use realtime_ops_platform.Tests.Requests.{nest}

abbrev settings : Settings
settings = record {
  expected_token = "ops-local-token";
  max_requests = 60;
  window_seconds = 60;
  trim = λ s. s;
  lower = λ s. s;
  utf16_length = λ s. 4;
  to_number = λ s. natural 0;
}

abbrev guess : Request
guess = record {
  token = once "guess";
  operator_id = once "op-7";
  ip = some "10.0.0.1";
  route_path = some "/api/v1/jobs/:id/retry";
  path = "/api/v1/jobs/job-1/retry";
  url = "/api/v1/jobs/job-1/retry";
}

abbrev no_pipes : Action → Outcome (Unit {0})
no_pipes action = ok tt

serve_guards_example :
    ((retry_job "job-1" ≡ get_health)
      × (serve busy_env settings guess nest no_pipes (retry_job "job-1") []
          ≡ answer_run nest busy_env "/api/v1/jobs/job-1/retry"
              (handled busy_env settings guess no_pipes (retry_job "job-1") none [])))
    ⊎ ((retry_job "job-1" ≢ get_health)
        × (Unauthorized nest busy_env settings guess no_pipes (retry_job "job-1") []
            ⊎ Limited nest busy_env settings guess no_pipes (retry_job "job-1") []
            ⊎ Passed nest busy_env settings guess no_pipes (retry_job "job-1") []))
serve_guards_example = serve_guards nest busy_env settings guess no_pipes (retry_job "job-1") []

documented-Provides : Provides documented
documented-Provides = record { imported = λ i t m. m; everywhere = λ i t m. m; core = λ t m. m }

applications_resolve_example :
    Within (asked application) (scope documented api_gateway application)
    × Within (imported_modules (module_of application).imports) (modules_from api_gateway)
applications_resolve_example =
    applications_resolve documented documented-Provides api_gateway application mem-cons_self (
      mem-cons_of_mem _ (
        mem-cons_of_mem _
          (mem-cons_of_mem _ (mem-cons_of_mem _ (mem-cons_of_mem _ mem-cons_self)))))

abbrev retried : Env
retried = with_job (sample_job JobStatus.failed 1 true)

perform_run :
    (perform retried (λ s. natural 0) (retry_job "job-1") "op-7" []).0
    ≡ ok (Returned.job (requeued (sample_job JobStatus.failed 1 true)))
unfolding perform Controllers.retry_job retry get_by_id requeue log create_notification
    publish_to_queue publish_job_created publish_notification_created ◌>>=◌
perform_run = refl

perform_accounts_example :
    Accounted
      (some EntityType.job)
      "op-7"
      []
      (perform retried (λ s. natural 0) (retry_job "job-1") "op-7" []).1
perform_accounts_example =
    perform_accounts retried (λ s. natural 0) "op-7" [] (retry_job "job-1") perform_run

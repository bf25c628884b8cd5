-- ===== src/Tests/Requests.antt =====
-- The theorems about requests and the status summary, at sample requests.
use realtime_ops_platform.Prelude.{[], ◌∷◌, ◌≡◌, refl, ◌⊎◌, true, none, some}
use realtime_ops_platform.Core.Enums.{JobStatus}
use realtime_ops_platform.Core.Value.{Fields, natural}
use realtime_ops_platform.Runtime.Calls.{
  JobFind, AlertFind, AuditFind, NotificationFind, read_clock, job_find_and_count, alert_find_many,
  audit_find_many, notification_find_many,
}
use realtime_ops_platform.Runtime.Monad.{
  Exception, ok, err, bad_request, not_found, unauthorized, plain_error, http_exception, rejected,
  ◌>>=◌,
}
use realtime_ops_platform.Jobs.Status.{get_status_summary, counted, Reads, get_status_summary-Reads}
use realtime_ops_platform.Http.Filter.{Thrown, http, other, details, plain, single, failure}
use realtime_ops_platform.Http.Requests.{
  PaginationQueryDto, ListJobsQueryDto, ListAlertsQueryDto, ListAuditEntriesQueryDto,
  ListNotificationsQueryDto,
}
use realtime_ops_platform.Http.Controllers.{
  retry_job, list_jobs_page, list_alerts_page, list_audit_entries, list_notifications_page,
}
use realtime_ops_platform.Http.Replies.{Nest, answer_run, refusal, answer_refuses}
use realtime_ops_platform.Http.Windows.{IsWindow, lists_in_bounds}
use realtime_ops_platform.Jobs.Service.{retry, get_by_id}
use realtime_ops_platform.Tests.Samples.{busy_env}

abbrev pub nest_thrown : Exception → Thrown
nest_thrown (bad_request m) = http 400 (details (single m) (some "Bad Request"))
nest_thrown (not_found m) = http 404 (details (single m) (some "Not Found"))
nest_thrown (unauthorized m) = http 401 (details (single m) (some "Unauthorized"))
nest_thrown (http_exception m status) = http status (plain m)
nest_thrown (plain_error m) = other
nest_thrown (rejected m) = other

abbrev pub nest : Nest
nest = record {
  thrown = nest_thrown;
  of_bad_request = λ m. refl;
  of_not_found = λ m. refl;
  of_unauthorized = λ m. refl;
  of_http_exception = λ m status. refl;
  of_plain_error = λ m. refl;
}

-- a job that is not there is retried
missing_run : (retry_job busy_env "job-9" "op-7" []).0 ≡ err (not_found "Job job-9 not found")
unfolding retry_job retry get_by_id ◌>>=◌
missing_run = refl

answer_refuses_example :
    answer_run nest busy_env "/api/v1/jobs/job-9/retry" (retry_job busy_env "job-9" "op-7" []) ≡ (
      ok (
          failure 404 (
            refusal busy_env "/api/v1/jobs/job-9/retry" 404 "Job job-9 not found"
              (retry_job busy_env "job-9" "op-7" []).1)),
      read_clock ∷ (retry_job busy_env "job-9" "op-7" []).1,
    )
answer_refuses_example =
    answer_refuses nest busy_env "/api/v1/jobs/job-9/retry" (retry_job busy_env "job-9" "op-7" [])
      (not_found "Job job-9 not found") 404 "Job job-9 not found" missing_run refl

get_status_summary-Reads_example :
    ((view : Fields) × ((get_status_summary busy_env (λ s. natural 7) []).0 ≡ ok view)
      × ((get_status_summary busy_env (λ s. natural 7) []).1
          ≡ read_clock ∷ counted busy_env (λ s. natural 7) [])
      × Reads busy_env (λ s. natural 7) [] view)
    ⊎ ((x : Exception) × ((get_status_summary busy_env (λ s. natural 7) []).0 ≡ err x)
        × ((get_status_summary busy_env (λ s. natural 7) []).1
            ≡ counted busy_env (λ s. natural 7) []))
get_status_summary-Reads_example = get_status_summary-Reads busy_env (λ s. natural 7) []

abbrev third_page : PaginationQueryDto
third_page = record { page = some 3; limit = some 50; sort_order = none }

abbrev job_query : ListJobsQueryDto
job_query = record {
  pagination = third_page;
  status = some JobStatus.failed;
  type = none;
  search = none;
  sort_by = none;
}

abbrev alert_query : ListAlertsQueryDto
alert_query = record { pagination = third_page; status = none; severity = none }

abbrev audit_query : ListAuditEntriesQueryDto
audit_query = record {
  pagination = third_page;
  actor_type = none;
  entity_type = none;
  entity_id = none;
}

abbrev notification_query : ListNotificationsQueryDto
notification_query = record { pagination = third_page; type = none; unread_only = some true }

lists_in_bounds_example :
    ((f : JobFind) × ((list_jobs_page busy_env job_query []).1 ≡ job_find_and_count f ∷ [])
      × IsWindow f.skip f.take_rows)
    × ((f : AlertFind) × ((list_alerts_page busy_env alert_query []).1 ≡ alert_find_many f ∷ [])
        × IsWindow f.skip f.take_rows)
    × ((f : AuditFind) × ((list_audit_entries busy_env audit_query []).1 ≡ audit_find_many f ∷ [])
        × IsWindow f.skip f.take_rows)
    × ((f : NotificationFind) × ((list_notifications_page busy_env notification_query []).1
          ≡ notification_find_many f ∷ [])
        × IsWindow f.skip f.take_rows)
lists_in_bounds_example =
    lists_in_bounds busy_env [] job_query alert_query audit_query notification_query refl refl refl
      refl

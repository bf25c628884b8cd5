-- ===== src/Http/Windows.antt =====
-- What the controllers' lists ask of the database, for the queries that pass validation.
use realtime_ops_platform.Prelude.{
  ℕ, ℤ, ◌+◌, ◌-◌, ◌*◌, ◌≤◌, pos, List, ◌∷◌, ◌≡◌, refl, ◌∙◌, ap, true, arith,
}
use realtime_ops_platform.Runtime.Calls.{
  Call, JobFind, AlertFind, AuditFind, NotificationFind, job_find_and_count, alert_find_many,
  audit_find_many, notification_find_many,
}
use realtime_ops_platform.Runtime.Monad.{Env, Run, ok, err, pure, and_then, ◌>>=◌}
use realtime_ops_platform.Listing.{
  skipped, list_jobs, list_alerts, list_audit, list_notifications, job_find,
}
use realtime_ops_platform.Listing.Pages.{skipped_lem}
use realtime_ops_platform.Http.Requests.{
  PaginationQueryDto, ListJobsQueryDto, ListAlertsQueryDto, ListAuditEntriesQueryDto,
  ListNotificationsQueryDto, validates_pagination,
}
use realtime_ops_platform.Http.Controllers.{
  default_to, list_jobs_page, list_alerts_page, list_audit_entries, list_notifications_page,
}

-- from a row that exists or is the first after them, and from 1 to 100 rows
pub record IsWindow (skip : ℤ) (rows : ℕ) : Type 0 where
  pub offset : ℕ
  pub starts : skip ≡ pos offset
  pub some_rows : 1 ≤ rows
  pub not_too_many : rows ≤ 100

page_from_one : (p : PaginationQueryDto) → validates_pagination p ≡ true → 1 ≤ default_to p.page 1
page_from_one p valid = ground arith

limit_bounded :
    (p : PaginationQueryDto)
    → validates_pagination p ≡ true
    → (1 ≤ default_to p.limit 20) × (default_to p.limit 20 ≤ 100)
limit_bounded p valid = (ground arith, ground arith)

validated-IsWindow :
    (p : PaginationQueryDto)
    → validates_pagination p ≡ true
    → IsWindow (skipped (default_to p.page 1) (default_to p.limit 20)) (default_to p.limit 20)
validated-IsWindow p valid =
    let page = default_to p.page 1 in
    let limit = default_to p.limit 20 in
    let (least, most) = limit_bounded p valid in
    let from : page ≡ page - 1 + 1 = omega (arith, page_from_one p valid) in
    record {
      offset = (page - 1) * limit;
      starts = ap (λ n. skipped n limit) from ∙ skipped_lem (page - 1) limit;
      some_rows = least;
      not_too_many = most;
    }

pub and_then-pure : {A B : Type 0} (r : Run A) (f : A → B) → (and_then r (λ a. pure (f a))).1 ≡ r.1
unfolding pure
and_then-pure (ok a, h) f = refl
and_then-pure (err x, h) f = refl

-- Each of the four lists, for a query whose page and limit pass validation or are left out, makes one
-- call: for at least 1 and at most 100 rows, from an offset that is not negative.
pub lists_in_bounds :
    (env : Env) (h : List Call) (jobs : ListJobsQueryDto) (alerts : ListAlertsQueryDto)
    (audit : ListAuditEntriesQueryDto) (notifications : ListNotificationsQueryDto)
    → validates_pagination jobs.pagination ≡ true
    → validates_pagination alerts.pagination ≡ true
    → validates_pagination audit.pagination ≡ true
    → validates_pagination notifications.pagination ≡ true
    → ((f : JobFind) × ((list_jobs_page env jobs h).1 ≡ job_find_and_count f ∷ h)
        × IsWindow f.skip f.take_rows)
      × ((f : AlertFind) × ((list_alerts_page env alerts h).1 ≡ alert_find_many f ∷ h)
          × IsWindow f.skip f.take_rows)
      × ((f : AuditFind) × ((list_audit_entries env audit h).1 ≡ audit_find_many f ∷ h)
          × IsWindow f.skip f.take_rows)
      × ((f : NotificationFind) × ((list_notifications_page env notifications h).1
            ≡ notification_find_many f ∷ h)
          × IsWindow f.skip f.take_rows)
unfolding list_jobs_page list_alerts_page list_audit_entries list_notifications_page list_jobs
    list_alerts list_audit list_notifications job_find ◌>>=◌
lists_in_bounds env h jobs alerts audit notifications v w x y = (
  (_, and_then-pure (_, job_find_and_count _ ∷ h) _, validated-IsWindow jobs.pagination v),
  (_, and_then-pure (_, alert_find_many _ ∷ h) _, validated-IsWindow alerts.pagination w),
  (_, and_then-pure (_, audit_find_many _ ∷ h) _, validated-IsWindow audit.pagination x),
  (
    _,
    and_then-pure (_, notification_find_many _ ∷ h) _,
    validated-IsWindow notifications.pagination y,
  ),
)

-- ===== src/Listing.antt =====
-- The lists of the services, page by page: `list` of job.service.ts, alert.service.ts,
-- audit.service.ts and notification.service.ts in libs/application/src, and the results of
-- libs/core/src/domain/pagination.ts. `total / limit` of the source is a double, whose `Math.ceil` is
-- the division below for a limit from 1 to 100, which the DTO checks, and a total under 2 ^ 45.
pub mod Pages
pub mod Orders
pub mod Windows
use Prim.Native.String
use realtime_ops_platform.Prelude.{
  ℕ, ℤ, ◌+◌, ◌-◌, ◌*◌, ◌/◌, String, List, Bool, Option, none, some, leb, str_eq, sub_ℕ,
  if◌then◌else◌,
}
use realtime_ops_platform.Core.Enums.{
  JobStatus, AlertStatus, AlertSeverity, AuditActorType, EntityType, NotificationType,
}
use realtime_ops_platform.Core.Entities.{
  JobEntity, AlertEntity, AuditEntryEntity, NotificationEntity,
}
use realtime_ops_platform.Runtime.Calls.{
  SortOrder, SortField, by_created_at, JobFind, AlertFind, AuditFind, NotificationFind,
  job_find_and_count, alert_find_many, audit_find_many, notification_find_many,
}
use realtime_ops_platform.Runtime.Monad.{Env, M, pure, ◌>>=◌, call}

pub record PaginationMeta : Type 0 where
  pub page : ℕ
  pub limit : ℕ
  pub total : ℕ
  pub total_pages : ℕ

pub record PaginatedResult (A : Type 0) : Type 0 where
  pub items : List A
  pub meta : PaginationMeta

-- `(page - 1) * limit`
unfoldable pub skipped : ℕ → ℕ → ℤ
skipped page limit = sub_ℕ (page * limit) limit

-- `Math.max(Math.ceil(total / limit), 1)`, for a limit from 1 up
unfoldable pub page_count : ℕ → ℕ → ℕ
page_count total limit = let pages = (total + limit - 1) / limit in if leb 1 pages then pages else 1

unfoldable pub paginated : {A : Type 0} → ℕ → ℕ → List A × ℕ → PaginatedResult A
unfolding page_count
paginated page limit (items, total) = record {
  items = items;
  meta = record { page = page; limit = limit; total = total; total_pages = page_count total limit };
}

-- `if (text) { … }`: the empty text counts as none
abbrev pub non_empty : Option String → Option String
non_empty none = none
non_empty (some s) = if str_eq s "" then none else some s

-- `%text%`
abbrev pub wildcard : Option String → Option String
wildcard none = none
wildcard (some s) = some (String.◌++◌ "%" (String.◌++◌ s "%"))

-- `query.sortBy ?? 'createdAt'`
abbrev pub sort_field : Option SortField → SortField
sort_field none = by_created_at
sort_field (some f) = f

pub record JobQuery : Type 0 where
  pub page : ℕ
  pub limit : ℕ
  pub status : Option JobStatus
  pub type : Option String
  pub search : Option String
  pub sort_by : Option SortField
  pub sort_order : SortOrder

pub record AlertQuery : Type 0 where
  pub status : Option AlertStatus
  pub severity : Option AlertSeverity
  pub page : ℕ
  pub limit : ℕ

pub record AuditQuery : Type 0 where
  pub actor_type : Option AuditActorType
  pub entity_type : Option EntityType
  pub entity_id : Option String
  pub page : ℕ
  pub limit : ℕ

pub record NotificationQuery : Type 0 where
  pub type : Option NotificationType
  pub unread_only : Bool
  pub page : ℕ
  pub limit : ℕ

-- the options of `findAndCount`
unfoldable pub job_find : JobQuery → JobFind
unfolding skipped
job_find query = record {
  status = query.status;
  type = non_empty query.type;
  name_like = wildcard (non_empty query.search);
  order_field = sort_field query.sort_by;
  order = query.sort_order;
  skip = skipped query.page query.limit;
  take_rows = query.limit;
}

module _ (env : Env) where
  unfoldable pub list_jobs : JobQuery → M (PaginatedResult JobEntity)
  unfolding job_find paginated
  list_jobs query = do
    found ← call env (job_find_and_count (job_find query))
    pure (paginated query.page query.limit found)

  unfoldable pub list_alerts : AlertQuery → M (PaginatedResult AlertEntity)
  unfolding paginated skipped
  list_alerts query = do
    found ← call env (
        alert_find_many (record {
          status = query.status;
          severity = query.severity;
          skip = skipped query.page query.limit;
          take_rows = query.limit;
        }))
    pure (paginated query.page query.limit found)

  unfoldable pub list_audit : AuditQuery → M (PaginatedResult AuditEntryEntity)
  unfolding paginated skipped
  list_audit query = do
    found ← call env (
        audit_find_many (record {
          actor_type = query.actor_type;
          entity_type = query.entity_type;
          entity_id = non_empty query.entity_id;
          skip = skipped query.page query.limit;
          take_rows = query.limit;
        }))
    pure (paginated query.page query.limit found)

  unfoldable pub list_notifications : NotificationQuery → M (PaginatedResult NotificationEntity)
  unfolding paginated skipped
  list_notifications query = do
    found ← call env (
        notification_find_many (record {
          type = query.type;
          unread_only = query.unread_only;
          skip = skipped query.page query.limit;
          take_rows = query.limit;
        }))
    pure (paginated query.page query.limit found)

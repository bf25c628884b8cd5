-- ===== src/Http/Requests.antt =====
-- apps/api-gateway/src/dto and libs/common/src/pagination-query.dto.ts: what a request carries, and what
-- the decorators of class-validator ask of it. A number that is no integer from 0 up fails `@IsInt` or
-- `@Min`, and the member of an enum `@IsEnum`: the fields have only what these let through.
use realtime_ops_platform.Prelude.{
  ℕ, String, Bool, true, not, ◌&&◌, leb, str_eq, Option, none, some,
}
use realtime_ops_platform.Core.Enums.{
  JobStatus, AlertSeverity, AlertStatus, NotificationType, AuditActorType, EntityType,
}
use realtime_ops_platform.Core.Value.{Fields}
use realtime_ops_platform.Runtime.Calls.{SortField, SortOrder}

-- `@IsOptional() @Min(low) @Max(high)`
abbrev within : ℕ → ℕ → Option ℕ → Bool
within low high none = true
within low high (some n) = leb low n && leb n high

abbrev at_least : ℕ → Option ℕ → Bool
at_least low none = true
at_least low (some n) = leb low n

-- `@IsNotEmpty()`
abbrev is_not_empty : String → Bool
is_not_empty s = not (str_eq s "")

pub record PaginationQueryDto : Type 0 where
  pub page : Option ℕ
  pub limit : Option ℕ
  pub sort_order : Option SortOrder

abbrev pub validates_pagination : PaginationQueryDto → Bool
validates_pagination query = at_least 1 query.page && within 1 100 query.limit

pub record CreateJobDto : Type 0 where
  pub name : String
  pub type : String
  pub payload : Fields
  pub priority : Option ℕ
  pub max_attempts : Option ℕ

abbrev pub validates_job : CreateJobDto → Bool
validates_job dto =
    is_not_empty dto.name
    && is_not_empty dto.type
    && within 1 10 dto.priority
    && within 1 10 dto.max_attempts

pub record CreateAlertDto : Type 0 where
  pub job_id : Option String
  pub severity : AlertSeverity
  pub title : String
  pub description : String
  pub create_incident : Option Bool

pub record ListJobsQueryDto : Type 0 where
  pub pagination : PaginationQueryDto
  pub status : Option JobStatus
  pub type : Option String
  pub search : Option String
  pub sort_by : Option SortField

pub record ListAlertsQueryDto : Type 0 where
  pub pagination : PaginationQueryDto
  pub status : Option AlertStatus
  pub severity : Option AlertSeverity

pub record ListAuditEntriesQueryDto : Type 0 where
  pub pagination : PaginationQueryDto
  pub actor_type : Option AuditActorType
  pub entity_type : Option EntityType
  pub entity_id : Option String

pub record ListNotificationsQueryDto : Type 0 where
  pub pagination : PaginationQueryDto
  pub type : Option NotificationType
  pub unread_only : Option Bool

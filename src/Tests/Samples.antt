-- ===== src/Tests/Samples.antt =====
-- Sample rows, and environments that answer every call with a row that fits it. It models no code.
use realtime_ops_platform.Prelude.{ℕ, String, Bool, true, Option, none, some, [], ◌∷◌}
use realtime_ops_platform.Core.Enums.{JobStatus, AlertStatus, IncidentStatus, critical}
use realtime_ops_platform.Core.Value.{end, field, bool, int}
use realtime_ops_platform.Core.Entities.{JobEntity, AlertEntity, IncidentEntity}
use realtime_ops_platform.Runtime.Calls
use realtime_ops_platform.Runtime.Calls.{Call, Answer}
use realtime_ops_platform.Runtime.Monad.{Env, ok}

abbrev pub sample_job : JobStatus → ℕ → Bool → JobEntity
sample_job status attempt_count should_fail = record {
  id = "job-1";
  name = "sync-feed";
  type = "sync";
  payload = field "shouldFail" (bool should_fail) (field "failTimes" (int 0) end);
  status = status;
  priority = 5;
  attempt_count = attempt_count;
  max_attempts = 3;
  last_error = none;
  started_at = none;
  completed_at = none;
  created_at = 100;
  updated_at = 100;
}

abbrev pub sample_alert : AlertStatus → AlertEntity
sample_alert status = record {
  id = "alert-1";
  job_id = some "job-1";
  source = "processing-service";
  severity = critical;
  status = status;
  title = "Job processing failed: sync-feed";
  description = "Processing failed on attempt 3";
  acknowledged_by = none;
  acknowledged_at = none;
  resolved_by = none;
  resolved_at = none;
  created_at = 120;
  updated_at = 120;
}

abbrev pub sample_incident : IncidentStatus → IncidentEntity
sample_incident status = record {
  id = "incident-1";
  alert_id = some "alert-1";
  title = "Critical incident for job sync-feed";
  summary = "Processing failed on attempt 3";
  status = status;
  acknowledged_by = none;
  acknowledged_at = none;
  resolved_by = none;
  resolved_at = none;
  created_at = 130;
  updated_at = 130;
}

-- The rows that are found, and Redis's answer to a request for a lock.
pub record Sample : Type 0 where
  pub job : Option JobEntity
  pub alert : Option AlertEntity
  pub incident : Option IncidentEntity
  pub lock : Option String

abbrev pub answer_of : Sample → (c : Call) → Answer c
answer_of s (Calls.job_find_one _) = s.job
answer_of s (Calls.alert_find_one _) = s.alert
answer_of s (Calls.incident_find_one _) = s.incident
answer_of s (Calls.redis_set_nx _ _ _) = s.lock
answer_of s (Calls.job_insert columns) = record {
  id = "job-1";
  name = columns.name;
  type = columns.type;
  payload = columns.payload;
  status = columns.status;
  priority = columns.priority;
  attempt_count = columns.attempt_count;
  max_attempts = columns.max_attempts;
  last_error = columns.last_error;
  started_at = columns.started_at;
  completed_at = columns.completed_at;
  created_at = 100;
  updated_at = 100;
}
answer_of s (Calls.job_save job) = job
answer_of s (Calls.attempt_insert columns) = record {
  id = "attempt-1";
  job_id = columns.job_id;
  attempt_number = columns.attempt_number;
  status = columns.status;
  error_message = columns.error_message;
  duration_ms = columns.duration_ms;
  started_at = columns.started_at;
  finished_at = columns.finished_at;
  created_at = 110;
}
answer_of s (Calls.attempt_save attempt) = attempt
answer_of s (Calls.alert_insert columns) = record {
  id = "alert-1";
  job_id = columns.job_id;
  source = columns.source;
  severity = columns.severity;
  status = columns.status;
  title = columns.title;
  description = columns.description;
  acknowledged_by = none;
  acknowledged_at = none;
  resolved_by = none;
  resolved_at = none;
  created_at = 120;
  updated_at = 120;
}
answer_of s (Calls.alert_save alert) = alert
answer_of s (Calls.incident_insert columns) = record {
  id = "incident-1";
  alert_id = columns.alert_id;
  title = columns.title;
  summary = columns.summary;
  status = columns.status;
  acknowledged_by = none;
  acknowledged_at = none;
  resolved_by = none;
  resolved_at = none;
  created_at = 130;
  updated_at = 130;
}
answer_of s (Calls.incident_save incident) = incident
answer_of s (Calls.notification_insert columns) = record {
  id = "notification-1";
  type = columns.type;
  channel = columns.channel;
  message = columns.message;
  metadata = columns.metadata;
  read_at = columns.read_at;
  created_at = 140;
}
answer_of s (Calls.audit_insert columns) = record {
  id = "audit-1";
  actor_type = columns.actor_type;
  actor_id = columns.actor_id;
  action = columns.action;
  entity_type = columns.entity_type;
  entity_id = columns.entity_id;
  metadata = columns.metadata;
  created_at = 150;
}
answer_of s (Calls.operator_action_insert columns) = record {
  id = "action-1";
  operator_id = columns.operator_id;
  action = columns.action;
  target_type = columns.target_type;
  target_id = columns.target_id;
  payload = columns.payload;
  created_at = 160;
}
answer_of s (Calls.alert_update _ _) = tt
answer_of s (Calls.redis_del _) = tt
answer_of s (Calls.redis_incr _) = 1
answer_of s (Calls.redis_expire _ _) = tt
answer_of s (Calls.send_to_queue _ _) = tt
answer_of s (Calls.publish _ _ _) = tt
answer_of s (Calls.server_emit _ _ _) = tt
answer_of s (Calls.socket_join _) = tt
answer_of s (Calls.socket_leave _) = tt
answer_of s (Calls.socket_set_operator _) = tt
answer_of s (Calls.socket_emit _ _) = tt
answer_of s (Calls.socket_disconnect _) = tt
answer_of s Calls.ack = tt
answer_of s (Calls.nack _ _) = tt
answer_of s Calls.read_clock = tt
answer_of s (Calls.sleep _) = tt
answer_of s (Calls.job_find_and_count _) = ([], 0)
answer_of s (Calls.job_count _) = 0
answer_of s (Calls.attempt_find _) = []
answer_of s Calls.attempt_average = none
answer_of s (Calls.alert_find_many _) = ([], 0)
answer_of s (Calls.alert_count _) = 0
answer_of s (Calls.incident_count _) = 0
answer_of s (Calls.notification_find_many _) = ([], 0)
answer_of s (Calls.audit_find_many _) = ([], 0)
answer_of s (Calls.database_query _) = tt
answer_of s Calls.redis_ping = "PONG"
answer_of s Calls.source_initialize = tt
answer_of s Calls.source_migrate = tt
answer_of s Calls.source_destroy = tt
answer_of s Calls.source_is_initialized = true
answer_of s (Calls.query_count _) = 0 ∷ []
answer_of s (Calls.jobs_insert _) = []
answer_of s (Calls.audits_insert _) = []
answer_of s (Calls.process_exit _) = tt
answer_of s (Calls.rabbit_connect _) = tt
answer_of s Calls.rabbit_channel = tt
answer_of s Calls.channel_close = tt
answer_of s Calls.connection_close = tt
answer_of s (Calls.assert_exchange _ _ _) = tt
answer_of s (Calls.assert_queue _ _ _) = tt
answer_of s (Calls.bind_queue _ _ _) = tt
answer_of s (Calls.prefetch _) = tt
answer_of s (Calls.consume_queue _) = tt
answer_of s (Calls.redis_connect _) = tt
answer_of s Calls.redis_quit = tt
answer_of s (Calls.app step) = tt

abbrev pub sample_env : Sample → Env
sample_env s = record {
  answer = λ h c. ok (answer_of s c);
  clock = λ h. 1000;
  has_channel = true;
  has_client = true;
}

-- the environment that finds this job, and grants the lock
abbrev pub with_job : JobEntity → Env
with_job job =
    sample_env (record { job = some job; alert = none; incident = none; lock = some "OK" })

-- the environment in which the lock is held
abbrev pub busy_env : Env
busy_env = sample_env (record { job = none; alert = none; incident = none; lock = none })

-- the environment that finds this alert and this incident
abbrev pub with_incident : AlertEntity → IncidentEntity → Env
with_incident alert incident =
    sample_env (record { job = none; alert = some alert; incident = some incident; lock = none })

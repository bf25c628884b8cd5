-- ===== src/Runtime/Observe.antt =====
-- What the calls made show of one part of the outside, newest first.
use realtime_ops_platform.Prelude.{String, List, [], ◌∷◌, ◌≡◌, Option, some}
use realtime_ops_platform.Core.Value.{Value, Fields}
use realtime_ops_platform.Core.Enums.{AttemptStatus, AuditActorType, EntityType}
use realtime_ops_platform.Core.Entities.{
  JobColumns, JobEntity, AlertColumns, IncidentColumns, IncidentEntity, AlertEntity, AlertPatch,
}
use realtime_ops_platform.Runtime.Calls.{
  Call, Room, socket_join, socket_leave, server_emit, job_save, attempt_insert, attempt_save,
  alert_insert, incident_insert, incident_save, alert_save, alert_update, redis_set_nx, redis_del,
  send_to_queue, publish, ack, nack, jobs_insert, operator_action_insert, audit_insert,
}

-- the loaded jobs that were saved
abbrev pub saved_jobs : List Call → List JobEntity
saved_jobs [] = []
saved_jobs (job_save job ∷ h) = job ∷ saved_jobs h
saved_jobs (_ ∷ h) = saved_jobs h

-- the statuses that were written for attempts
abbrev pub attempt_statuses : List Call → List AttemptStatus
attempt_statuses [] = []
attempt_statuses (attempt_insert attempt ∷ h) = attempt.status ∷ attempt_statuses h
attempt_statuses (attempt_save attempt ∷ h) = attempt.status ∷ attempt_statuses h
attempt_statuses (_ ∷ h) = attempt_statuses h

abbrev pub opened_alerts : List Call → List AlertColumns
opened_alerts [] = []
opened_alerts (alert_insert alert ∷ h) = alert ∷ opened_alerts h
opened_alerts (_ ∷ h) = opened_alerts h

abbrev pub opened_incidents : List Call → List IncidentColumns
opened_incidents [] = []
opened_incidents (incident_insert incident ∷ h) = incident ∷ opened_incidents h
opened_incidents (_ ∷ h) = opened_incidents h

-- the loaded incidents and alerts that were saved
abbrev pub saved_incidents : List Call → List IncidentEntity
saved_incidents [] = []
saved_incidents (incident_save incident ∷ h) = incident ∷ saved_incidents h
saved_incidents (_ ∷ h) = saved_incidents h

abbrev pub saved_alerts : List Call → List AlertEntity
saved_alerts [] = []
saved_alerts (alert_save alert ∷ h) = alert ∷ saved_alerts h
saved_alerts (_ ∷ h) = saved_alerts h

-- the alerts that were updated by their id
abbrev pub updated_alerts : List Call → List (String × AlertPatch)
updated_alerts [] = []
updated_alerts (alert_update alert_id patch ∷ h) = (alert_id, patch) ∷ updated_alerts h
updated_alerts (_ ∷ h) = updated_alerts h

-- the calls to Redis that take or release a lock
abbrev pub lock_calls : List Call → List Call
lock_calls [] = []
lock_calls (redis_set_nx key value ttl ∷ h) = redis_set_nx key value ttl ∷ lock_calls h
lock_calls (redis_del key ∷ h) = redis_del key ∷ lock_calls h
lock_calls (_ ∷ h) = lock_calls h

-- the messages sent to queues
abbrev pub queue_messages : List Call → List (String × Fields)
queue_messages [] = []
queue_messages (send_to_queue queue payload ∷ h) = (queue, payload) ∷ queue_messages h
queue_messages (_ ∷ h) = queue_messages h

-- the topics of the events published
abbrev pub topics : List Call → List String
topics [] = []
topics (publish exchange key envelope ∷ h) = key ∷ topics h
topics (_ ∷ h) = topics h

-- the messages that were acknowledged or refused
abbrev pub settlements : List Call → List Call
settlements [] = []
settlements (ack ∷ h) = ack ∷ settlements h
settlements (nack all requeue ∷ h) = nack all requeue ∷ settlements h
settlements (_ ∷ h) = settlements h

-- the rooms that were joined, and the rooms that were left
abbrev pub joined_rooms : List Call → List Room
joined_rooms [] = []
joined_rooms (socket_join room ∷ h) = room ∷ joined_rooms h
joined_rooms (_ ∷ h) = joined_rooms h

abbrev pub left_rooms : List Call → List Room
left_rooms [] = []
left_rooms (socket_leave room ∷ h) = room ∷ left_rooms h
left_rooms (_ ∷ h) = left_rooms h

-- the events that were emitted to rooms, each with its room and its topic
abbrev pub emissions : List Call → List (String × Value × Fields)
emissions [] = []
emissions (server_emit room topic event ∷ h) = (room, topic, event) ∷ emissions h
emissions (_ ∷ h) = emissions h

-- the jobs that were inserted together
abbrev pub inserted_jobs : List Call → List (List JobColumns)
inserted_jobs [] = []
inserted_jobs (jobs_insert jobs ∷ h) = jobs ∷ inserted_jobs h
inserted_jobs (_ ∷ h) = inserted_jobs h

-- the operator actions that were inserted: by whom, and on what
abbrev pub acted : List Call → List (String × EntityType × Option String)
acted [] = []
acted (operator_action_insert a ∷ h) = (a.operator_id, a.target_type, a.target_id) ∷ acted h
acted (_ ∷ h) = acted h

-- the audit entries: by whom, and about what
abbrev pub audited : List Call → List (AuditActorType × Option String × EntityType × Option String)
audited [] = []
audited (audit_insert a ∷ h) = (a.actor_type, a.actor_id, a.entity_type, a.entity_id) ∷ audited h
audited (_ ∷ h) = audited h

-- One command of an operator is on record: one operator action and one audit entry, both by this operator
-- and about the same row.
pub record OnRecord (operator_id : String) (type : EntityType) (id : String) (h g : List Call)
    : Type 0 where
  pub action : acted g ≡ (operator_id, type, some id) ∷ acted h
  pub audit : audited g ≡ (AuditActorType.operator, some operator_id, type, some id) ∷ audited h

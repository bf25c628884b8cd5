-- ===== src/Incidents.antt =====
-- libs/application/src/incidents/incident.service.ts: `acknowledge` and `resolve`.
pub mod Lifecycle
pub mod Acknowledging
pub mod Resolving
pub mod Invariant
pub mod Operations
pub mod Accounts
use Prim.Native.String
use realtime_ops_platform.Prelude.{ℕ, String, Option, none, some, str_eq, if◌then◌else◌}
use realtime_ops_platform.Core.Enums.{
  AlertStatus, AuditActorType, EntityType, IncidentStatus, incident_status_text, is_opened,
  is_resolved,
}
use realtime_ops_platform.Core.Value.{Fields, Value, end, field, str, str_or_null}
use realtime_ops_platform.Core.Entities.{AlertPatch, IncidentEntity}
use realtime_ops_platform.Runtime.Calls.{
  incident_find_one, incident_save, alert_update, operator_action_insert,
}
use realtime_ops_platform.Runtime.Monad.{
  Env, M, bad_request, not_found, pure, ◌>>=◌, ◌>>◌, call, now, or_throw, throw_if,
}
use realtime_ops_platform.Events.{publish_incident_updated}
use realtime_ops_platform.Records.{log}

-- `if (incident.alertId)`: the empty text counts as none
abbrev pub linked_alert : IncidentEntity → Option String
linked_alert incident = elim incident.alert_id [
  | none ↦ none
  | some alert_id ↦ if str_eq alert_id "" then none else some alert_id
]

-- the incident as `acknowledge` saves it
abbrev pub acknowledged_incident : IncidentEntity → String → ℕ → IncidentEntity
acknowledged_incident incident operator_id t = record incident {
  status = IncidentStatus.acknowledged;
  acknowledged_by = some operator_id;
  acknowledged_at = some t;
}

-- the incident as `resolve` saves it, from its state after `if (incident.status === OPEN) { … }`
abbrev pub resolved_incident : IncidentEntity → String → ℕ → IncidentEntity
resolved_incident incident operator_id t = record incident {
  status = IncidentStatus.resolved;
  resolved_by = some operator_id;
  resolved_at = some t;
}

-- `if (incident.status === IncidentStatus.OPEN) { … }` of `resolve`, which leaves the status
abbrev pub attended_incident : IncidentEntity → String → ℕ → IncidentEntity
attended_incident incident operator_id t = record incident {
  acknowledged_by = some operator_id;
  acknowledged_at = some t;
}

abbrev pub acknowledged_patch : String → ℕ → AlertPatch
acknowledged_patch operator_id t = record {
  status = AlertStatus.acknowledged;
  acknowledged = some (operator_id, t);
  resolved = none;
}

abbrev pub resolved_patch : String → ℕ → AlertPatch
resolved_patch operator_id t = record {
  status = AlertStatus.resolved;
  acknowledged = none;
  resolved = some (operator_id, t);
}

-- the payload of `incident.updated`, with who acknowledged or resolved it
abbrev pub incident_event : IncidentEntity → String → Option String → Fields
incident_event updated role operator_id = field "incidentId" (str updated.id) (
    field "status" (str (incident_status_text updated.status))
      (field role (str_or_null operator_id) (field "alertId" (str_or_null updated.alert_id) end)))

module _ (env : Env) where
  unfoldable pub get_incident : String → M IncidentEntity
  get_incident incident_id = do
    found ← call env (incident_find_one incident_id)
    or_throw found (not_found (String.◌++◌ "Incident " (String.◌++◌ incident_id " not found")))

  -- `if (incident.alertId) { alertRepository.update(…) }`, with the patch for the date it reads
  unfoldable pub update_linked : Option String → (ℕ → AlertPatch) → M (Unit {0})
  update_linked none patch = pure tt
  update_linked (some alert_id) patch = do t ← now env; call env (alert_update alert_id (patch t))

  -- the operator action and the audit entry
  unfoldable pub record_action : IncidentEntity → String → String → String → Fields → M (Unit {0})
  record_action incident operator_id action entry metadata = do
    call env (
        operator_action_insert (record {
          operator_id = operator_id;
          action = action;
          target_type = EntityType.incident;
          target_id = some incident.id;
          payload = end;
        }))
    log env (record {
      actor_type = AuditActorType.operator;
      actor_id = some operator_id;
      action = entry;
      entity_type = EntityType.incident;
      entity_id = some incident.id;
      metadata = metadata;
    })
    pure tt

  unfoldable pub acknowledge : String → String → M IncidentEntity
  acknowledge incident_id operator_id = do
    incident ← get_incident incident_id
    throw_if (is_resolved incident.status) (bad_request "Resolved incident cannot be acknowledged")
    t ← now env
    let changed = acknowledged_incident incident operator_id t
    updated ← call env (incident_save changed)
    update_linked (linked_alert changed) (acknowledged_patch operator_id)
    record_action changed operator_id "incident.acknowledge" "incident.acknowledged"
        (field "previousStatus" (str (incident_status_text IncidentStatus.opened)) end)
    publish_incident_updated env (incident_event updated "acknowledgedBy" updated.acknowledged_by)
    pure updated

  -- `if (incident.status === IncidentStatus.OPEN) { … }`
  unfoldable pub attend : IncidentEntity → String → M IncidentEntity
  attend incident operator_id =
      if is_opened incident.status
      then (do t ← now env; pure (attended_incident incident operator_id t))
      else pure incident

  unfoldable pub resolve : String → String → M IncidentEntity
  resolve incident_id operator_id = do
    incident ← get_incident incident_id
    throw_if (is_resolved incident.status) (bad_request "Incident is already resolved")
    attended ← attend incident operator_id
    t ← now env
    let changed = resolved_incident attended operator_id t
    updated ← call env (incident_save changed)
    update_linked (linked_alert changed) (resolved_patch operator_id)
    record_action changed operator_id "incident.resolve" "incident.resolved"
        (field "alertId" (str_or_null changed.alert_id) end)
    publish_incident_updated env (incident_event updated "resolvedBy" updated.resolved_by)
    pure updated

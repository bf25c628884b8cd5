-- ===== src/Alerts.antt =====
-- libs/application/src/alerts/alert.service.ts: `create`, `getById` and `acknowledge`.
pub mod Raising
pub mod Accounts
pub mod Acknowledging
use Prim.Native.String
use realtime_ops_platform.Prelude.{ℕ, String, Bool, ◌||◌, Option, none, some, if◌then◌else◌}
use realtime_ops_platform.Core.Enums.{
  AlertSeverity, AlertStatus, AuditActorType, EntityType, IncidentStatus, alert_status_text,
  incident_status_text, is_critical, is_resolved_alert, severity_text,
}
use realtime_ops_platform.Core.Value.{Fields, Value, undefined, end, field, iso, str, str_or_null}
use realtime_ops_platform.Core.Entities.{AlertColumns, AlertEntity, IncidentColumns, IncidentEntity}
use realtime_ops_platform.Runtime.Calls.{
  alert_find_one, alert_insert, alert_save, incident_insert, operator_action_insert,
}
use realtime_ops_platform.Runtime.Monad.{
  Env, M, bad_request, not_found, pure, ◌>>=◌, ◌>>◌, call, now, or_throw, throw_if,
}
use realtime_ops_platform.Events.{
  publish_alert_acknowledged, publish_alert_raised, publish_incident_updated,
}
use realtime_ops_platform.Records.{log}
use realtime_ops_platform.Jobs.Rows.{incident_id}

pub record CreateAlertInput : Type 0 where
  pub job_id : Option String
  pub source : String
  pub severity : AlertSeverity
  pub title : String
  pub description : String
  pub operator_id : String
  pub create_incident : Bool

-- the row that `create` inserts
abbrev pub new_alert : CreateAlertInput → AlertColumns
new_alert input = record {
  job_id = input.job_id;
  source = input.source;
  severity = input.severity;
  status = AlertStatus.opened;
  title = input.title;
  description = input.description;
}

-- the incident of an alert
abbrev pub alert_incident : AlertEntity → IncidentColumns
alert_incident alert = record {
  alert_id = some alert.id;
  title = String.◌++◌ "Incident: " alert.title;
  summary = alert.description;
  status = IncidentStatus.opened;
}

-- `input.createIncident || input.severity === AlertSeverity.CRITICAL`
abbrev pub wants_incident : CreateAlertInput → Bool
wants_incident input = input.create_incident || is_critical input.severity

-- the alert as `acknowledge` saves it
abbrev pub acknowledged_alert : AlertEntity → String → ℕ → AlertEntity
acknowledged_alert alert operator_id t = record alert {
  status = AlertStatus.acknowledged;
  acknowledged_by = some operator_id;
  acknowledged_at = some t;
}

-- `date?.toISOString()`
abbrev pub iso_or_undefined : Option ℕ → Value
iso_or_undefined none = undefined
iso_or_undefined (some t) = iso t

module _ (env : Env) where
  -- the part of `create` that may open an incident
  unfoldable pub open_incident : CreateAlertInput → AlertEntity → M (Option IncidentEntity)
  open_incident input alert =
      if wants_incident input
      then (do incident ← call env (incident_insert (alert_incident alert)); pure (some incident))
      else pure none

  -- `if (incident) { realtimeEventPublisher.publishIncidentUpdated(…) }`
  unfoldable pub announce_opened : Option IncidentEntity → M (Unit {0})
  announce_opened none = pure tt
  announce_opened (some incident) = publish_incident_updated env (
      field "incidentId" (str incident.id) (
        field "status" (str (incident_status_text incident.status))
          (field "alertId" (str_or_null incident.alert_id) end)))

  unfoldable pub create : CreateAlertInput → M (AlertEntity × Option IncidentEntity)
  create input = do
    alert ← call env (alert_insert (new_alert input))
    incident ← open_incident input alert
    call env (
        operator_action_insert (record {
          operator_id = input.operator_id;
          action = "alert.create";
          target_type = EntityType.alert;
          target_id = some alert.id;
          payload =
              field "severity" (str (severity_text alert.severity))
                (field "source" (str alert.source) end);
        }))
    log env (record {
      actor_type = AuditActorType.operator;
      actor_id = some input.operator_id;
      action = "alert.created";
      entity_type = EntityType.alert;
      entity_id = some alert.id;
      metadata =
          field "severity" (str (severity_text alert.severity))
            (field "source" (str alert.source) (field "incidentId" (incident_id incident) end));
    })
    publish_alert_raised env (
        field "alertId" (str alert.id) (
          field "severity" (str (severity_text alert.severity)) (
            field "title" (str alert.title) (
              field "source" (str alert.source) (
                field "status" (str (alert_status_text alert.status))
                  (field "incidentId" (incident_id incident) end))))))
    announce_opened incident
    pure (alert, incident)

  unfoldable pub get_by_id : String → M AlertEntity
  get_by_id alert_id = do
    found ← call env (alert_find_one alert_id)
    or_throw found (not_found (String.◌++◌ "Alert " (String.◌++◌ alert_id " not found")))

  unfoldable pub acknowledge : String → String → M AlertEntity
  acknowledge alert_id operator_id = do
    alert ← get_by_id alert_id
    throw_if (is_resolved_alert alert.status) (bad_request "Resolved alert cannot be acknowledged")
    t ← now env
    let changed = acknowledged_alert alert operator_id t
    updated ← call env (alert_save changed)
    log env (record {
      actor_type = AuditActorType.operator;
      actor_id = some operator_id;
      action = "alert.acknowledged";
      entity_type = EntityType.alert;
      entity_id = some changed.id;
      metadata = end;
    })
    publish_alert_acknowledged env (
        field "alertId" (str updated.id) (
          field "acknowledgedBy" (str operator_id)
            (field "acknowledgedAt" (iso_or_undefined updated.acknowledged_at) end)))
    pure updated

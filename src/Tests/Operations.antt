-- ===== src/Tests/Operations.antt =====
-- The theorems about incidents and alerts, at sample rows.
use realtime_ops_platform.Prelude.{[], ◌∷◌, ◌≡◌, refl, none, some, false, All}
use realtime_ops_platform.Core.Enums.{AlertStatus, IncidentStatus, critical, is_resolved}
use realtime_ops_platform.Core.Entities.{AlertEntity, IncidentEntity}
use realtime_ops_platform.Runtime.Calls.{alert_insert, incident_find_one}
use realtime_ops_platform.Runtime.Monad.{Env, ok, ◌>>=◌}
use realtime_ops_platform.Runtime.Observe.{
  saved_incidents, updated_alerts, opened_alerts, opened_incidents, topics,
}
use realtime_ops_platform.Events.{publish_alert_raised, publish_incident_updated}
use realtime_ops_platform.Records.{log}
use realtime_ops_platform.Incidents
use realtime_ops_platform.Incidents.{
  acknowledged_incident, acknowledged_patch, resolved_patch, attend, get_incident, linked_alert,
  record_action, resolve, update_linked,
}
use realtime_ops_platform.Incidents.Lifecycle.{IncidentStep, IsConsistent, Moves}
use realtime_ops_platform.Incidents.Resolving.{
  alert_resolved, resolution, resolution_time, resolve_returns,
}
use realtime_ops_platform.Incidents.Operations.{operations_step}
use realtime_ops_platform.Incidents.Invariant.{incidents_stay_signed}
use realtime_ops_platform.Alerts.{CreateAlertInput, announce_opened, create, open_incident}
use realtime_ops_platform.Alerts.Raising.{raised_row, incident_row, Opened, create_raises}
use realtime_ops_platform.Tests.Samples.{sample_alert, sample_incident, with_incident}

-- an open incident with an open alert
abbrev open_env : Env
open_env = with_incident (sample_alert AlertStatus.opened) (sample_incident IncidentStatus.opened)

-- a resolved one
abbrev resolved_env : Env
resolved_env =
    with_incident (sample_alert AlertStatus.resolved) (sample_incident IncidentStatus.resolved)

sample-IsConsistent : IsConsistent (sample_incident IncidentStatus.opened)
sample-IsConsistent = record {
  open_clean = λ e. ((refl, refl), (refl, refl));
  acknowledged_signed = λ e. absurd (cc);
  resolved_signed = λ e. absurd (cc);
}

incidents_stay_signed_example :
    All IsConsistent (saved_incidents (Incidents.acknowledge open_env "incident-1" "op-7" []).1)
    × All IsConsistent (saved_incidents (resolve open_env "incident-1" "op-7" []).1)
incidents_stay_signed_example =
    incidents_stay_signed open_env "incident-1" "op-7" [] refl sample-IsConsistent tt

operations_step_example :
    Moves "op-7"
      (ok (some (sample_incident IncidentStatus.opened)))
      []
      (Incidents.acknowledge open_env "incident-1" "op-7" []).1
    × Moves "op-7"
        (ok (some (sample_incident IncidentStatus.opened)))
        []
        (resolve open_env "incident-1" "op-7" []).1
operations_step_example = operations_step open_env "incident-1" "op-7" []

resolve_run :
    (resolve open_env "incident-1" "op-7" []).0
    ≡ ok (resolution open_env "incident-1" "op-7" [] (sample_incident IncidentStatus.opened))
unfolding resolve attend get_incident update_linked record_action log publish_incident_updated ◌>>=◌
resolve_run = refl

resolve_returns_example :
    (incident : IncidentEntity) × (open_env.answer [] (incident_find_one "incident-1")
      ≡ ok (some incident))
    × (is_resolved incident.status ≡ false)
    × IncidentStep "op-7" incident (resolution open_env "incident-1" "op-7" [] incident)
    × (saved_incidents (resolve open_env "incident-1" "op-7" []).1
        ≡ resolution open_env "incident-1" "op-7" [] incident ∷ [])
    × (updated_alerts (resolve open_env "incident-1" "op-7" []).1
        ≡ alert_resolved incident.alert_id "op-7"
            (resolution_time open_env "incident-1" "op-7" [] incident)
            [])
    × (topics (resolve open_env "incident-1" "op-7" []).1 ≡ "incident.updated" ∷ [])
resolve_returns_example = resolve_returns open_env "incident-1" "op-7" [] resolve_run

abbrev critical_input : CreateAlertInput
critical_input = record {
  job_id = none;
  source = "operator";
  severity = critical;
  title = "Feed down";
  description = "No data since noon";
  operator_id = "op-7";
  create_incident = false;
}

abbrev raised : AlertEntity
raised = record (sample_alert AlertStatus.opened) {
  job_id = none;
  source = "operator";
  title = "Feed down";
  description = "No data since noon";
}

abbrev raised_incident : IncidentEntity
raised_incident = record (sample_incident IncidentStatus.opened) {
  title = "Incident: Feed down";
  summary = "No data since noon";
}

create_run : (create open_env critical_input []).0 ≡ ok (raised, some raised_incident)
unfolding create open_incident announce_opened log publish_alert_raised publish_incident_updated
    ◌>>=◌
create_run = refl

create_raises_example :
    (open_env.answer [] (alert_insert (raised_row critical_input)) ≡ ok raised)
    × Opened open_env critical_input [] raised (some raised_incident)
    × (opened_alerts (create open_env critical_input []).1 ≡ raised_row critical_input ∷ [])
    × (opened_incidents (create open_env critical_input []).1 ≡ incident_row raised ∷ [])
    × (topics (create open_env critical_input []).1 ≡ "incident.updated" ∷ "alert.raised" ∷ [])
create_raises_example = create_raises open_env critical_input [] create_run

-- ===== src/Alerts/Raising.antt =====
-- `create` of alert.service.ts: when an alert opens an incident.
use realtime_ops_platform.Prelude.{
  List, ◌∷◌, ◌≡◌, ◌⊎◌, inl, inr, Option, none, some, true, false, arith, Bool, Bool-cases,
  if◌then◌else◌,
}
use Prim.Native.String
use realtime_ops_platform.Core.Enums.{AlertSeverity, critical, AlertStatus, IncidentStatus}
use realtime_ops_platform.Core.Entities.{AlertEntity, IncidentEntity, AlertColumns, IncidentColumns}
use realtime_ops_platform.Runtime.Calls.{Call, alert_insert, incident_insert}
use realtime_ops_platform.Runtime.Monad.{Env, ok, ◌>>=◌}
use realtime_ops_platform.Runtime.Observe.{opened_alerts, opened_incidents, topics}
use realtime_ops_platform.Runtime.Triple.{outcome_cases}
use realtime_ops_platform.Events.{publish_alert_raised, publish_incident_updated}
use realtime_ops_platform.Records.{log}
use realtime_ops_platform.Alerts.{
  CreateAlertInput, new_alert, alert_incident, wants_incident, open_incident, announce_opened,
  create,
}

-- docs/domain-model.md: a critical alert opens an incident, and any other one if that is asked for
abbrev pub wanted : AlertSeverity → Bool → Bool
wanted critical asked = true
wanted severity asked = asked

-- the row of an alert that an operator raises
abbrev pub raised_row : CreateAlertInput → AlertColumns
raised_row input = record {
  job_id = input.job_id;
  source = input.source;
  severity = input.severity;
  status = AlertStatus.opened;
  title = input.title;
  description = input.description;
}

-- the row of the incident that it opens
abbrev pub incident_row : AlertEntity → IncidentColumns
incident_row alert = record {
  alert_id = some alert.id;
  title = String.◌++◌ "Incident: " alert.title;
  summary = alert.description;
  status = IncidentStatus.opened;
}

wants_incident-wanted :
    (input : CreateAlertInput) → wants_incident input ≡ wanted input.severity input.create_incident
wants_incident-wanted input = ground arith

-- The incident that is returned is one that was opened for the alert, where one was wanted.
abbrev pub Opened :
    Env → CreateAlertInput → List Call → AlertEntity → Option IncidentEntity → Type 0
Opened env input h alert none = wanted input.severity input.create_incident ≡ false
Opened env input h alert (some incident) =
    (wanted input.severity input.create_incident ≡ true)
    × (env.answer (alert_insert (raised_row input) ∷ h) (incident_insert (incident_row alert))
        ≡ ok incident)

module _ (env : Env) (input : CreateAlertInput) (h : List Call) where
  -- When `create` returns, one alert was inserted, open and with the columns that were asked for, and
  -- it is returned; an open incident that names it was inserted, and is returned, exactly if one was
  -- asked for or the severity is critical; and `incident.updated` follows `alert.raised` exactly in that
  -- case.
  pub create_raises :
      {alert : AlertEntity} {incident : Option IncidentEntity}
      → (create env input h).0 ≡ ok (alert, incident)
      → (env.answer h (alert_insert (raised_row input)) ≡ ok alert)
        × Opened env input h alert incident
        × (opened_alerts (create env input h).1 ≡ raised_row input ∷ opened_alerts h)
        × (opened_incidents (create env input h).1 ≡ (
            if wanted input.severity input.create_incident
            then incident_row alert ∷ opened_incidents h
            else opened_incidents h))
        × (topics (create env input h).1 ≡ (
            if wanted input.severity input.create_incident
            then "incident.updated" ∷ "alert.raised" ∷ topics h
            else "alert.raised" ∷ topics h))
  unfolding create open_incident announce_opened log publish_alert_raised publish_incident_updated
      ◌>>=◌
  create_raises {alert} {incident = none} r =
      let same = wants_incident-wanted input in
      elim (Bool-cases (wants_incident input)) [
        | inl asked ↦ absurd (ground arith)
        | inr unasked ↦ (ground arith, ground arith, ground arith, ground arith, ground arith)
      ]
  create_raises {alert} {incident = some incident} r =
      let same = wants_incident-wanted input in
      elim (Bool-cases (wants_incident input)) [
        | inl asked ↦
            (ground arith, (ground arith, ground arith), ground arith, ground arith, ground arith)
        | inr unasked ↦ absurd (ground arith)
      ]

  -- Whether `create` returns or throws, it has opened no incident, or one: for an alert that the
  -- database had inserted, and because it was asked for or the severity is critical.
  pub create_opens :
      (opened_incidents (create env input h).1 ≡ opened_incidents h)
      ⊎ ((alert : AlertEntity) × (wants_incident input ≡ true)
          × (env.answer h (alert_insert (new_alert input)) ≡ ok alert)
          × (opened_incidents (create env input h).1 ≡ alert_incident alert ∷ opened_incidents h))
  unfolding create open_incident announce_opened log publish_alert_raised publish_incident_updated
      ◌>>=◌
  create_opens = elim (outcome_cases (env.answer h (alert_insert (new_alert input)))) [
    | inl (alert, e) ↦ elim (Bool-cases (wants_incident input)) [
      | inl wanted ↦ inr (alert, wanted, e, ground arith)
      | inr unwanted ↦ inl (ground arith)
    ]
    | inr (x, e) ↦ inl (ground arith)
  ]

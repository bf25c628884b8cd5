-- ===== src/Incidents/Resolving.antt =====
-- `resolve` of incident.service.ts: its guard, and what it writes of the incident and its alert.
use realtime_ops_platform.Prelude.{
  ℕ, String, List, ◌∷◌, ◌≡◌, refl, sym, subst, ◌∙◌, ◌⊎◌, inl, inr, Option, none, some, str_eq,
  arith, Bool-cases, Option-cases, if◌then◌else◌, true, false,
}
use realtime_ops_platform.Core.Enums.{
  AlertStatus, opened, acknowledged, resolved, is_resolved, is_opened,
}
use realtime_ops_platform.Core.Entities.{IncidentEntity, AlertPatch}
use realtime_ops_platform.Runtime.Calls.{Call, incident_find_one, incident_save, read_clock}
use realtime_ops_platform.Runtime.Monad.{Env, bad_request, ok, err, ◌>>=◌}
use realtime_ops_platform.Runtime.Observe.{saved_incidents, updated_alerts, topics}
use realtime_ops_platform.Runtime.Triple.{found_cases}
use realtime_ops_platform.Events.{publish_incident_updated}
use realtime_ops_platform.Records.{log}
use realtime_ops_platform.Incidents.Lifecycle.{
  with_linked, IncidentStep, resolves_open, resolves_acknowledged, Moves,
}
use realtime_ops_platform.Incidents.{
  get_incident, update_linked, record_action, attend, resolve, attended_incident, resolved_incident,
  linked_alert, resolved_patch,
}

open_cases :
    (incident : IncidentEntity)
    → (incident.status ≡ opened) ⊎ (incident.status ≡ acknowledged) ⊎ (incident.status ≡ resolved)
open_cases incident = ground arith

open_test :
    (incident : IncidentEntity) → incident.status ≡ opened → is_opened incident.status ≡ true
open_test incident o = ground arith

acknowledged_test :
    (incident : IncidentEntity) → incident.status ≡ acknowledged → is_opened incident.status ≡ false
acknowledged_test incident a = ground arith

-- The updates of alerts once the alert of an incident, if there is one, is resolved: by whom, and when.
abbrev pub alert_resolved :
    Option String → String → ℕ → List (String × AlertPatch) → List (String × AlertPatch)
alert_resolved none operator_id t before = before
alert_resolved (some alert_id) operator_id t before =
    let update : String × AlertPatch = (
      alert_id,
      record {
        status = AlertStatus.resolved;
        acknowledged = none;
        resolved = some (operator_id, t);
      },
    ) in
    if str_eq alert_id "" then before else update ∷ before

alert_resolved_lem :
    (incident : IncidentEntity) (operator_id : String) (t : ℕ) (before : List (String × AlertPatch))
    → with_linked (linked_alert incident) (resolved_patch operator_id t) before
      ≡ alert_resolved incident.alert_id operator_id t before
alert_resolved_lem incident operator_id t before = elim (Option-cases incident.alert_id) [
  | inl unlinked ↦ ground (arith, unlinked)
  | inr (alert_id, linked) ↦ ground (arith, linked)
]

module _ (env : Env) (incident_id operator_id : String) (h : List Call) where
  -- the calls when the incident has been asked for
  abbrev looked_up : List Call
  looked_up = incident_find_one incident_id ∷ h

  -- the incident as `resolve` writes it: from `open` it is acknowledged first, by the same operator
  abbrev pub resolution : IncidentEntity → IncidentEntity
  resolution incident =
      if is_opened incident.status
      then resolved_incident (attended_incident incident operator_id (env.clock looked_up))
          operator_id (env.clock (read_clock ∷ looked_up))
      else resolved_incident incident operator_id (env.clock looked_up)

  -- the moment at which its alert is resolved
  abbrev pub resolution_time : IncidentEntity → ℕ
  resolution_time incident =
      if is_opened incident.status
      then env.clock (incident_save (resolution incident) ∷ read_clock ∷ read_clock ∷ looked_up)
      else env.clock (incident_save (resolution incident) ∷ read_clock ∷ looked_up)

  resolve_step :
      (incident : IncidentEntity)
      → is_resolved incident.status ≡ false
      → IncidentStep operator_id incident (resolution incident)
  resolve_step incident n = elim (open_cases incident) [
    | inl o ↦ rw (open_test incident o) (
        resolves_open (record {
          same = record {
            id = refl;
            alert_id = refl;
            title = refl;
            summary = refl;
            created_at = refl;
          };
          before = o;
          status = refl;
          acknowledgement = (refl, (env.clock looked_up, refl));
          signed = (refl, (env.clock (read_clock ∷ looked_up), refl));
        }))
    | inr (inl a) ↦ rw (acknowledged_test incident a) (
        resolves_acknowledged (record {
          same = record {
            id = refl;
            alert_id = refl;
            title = refl;
            summary = refl;
            created_at = refl;
          };
          before = a;
          status = refl;
          acknowledged_by = refl;
          acknowledged_at = refl;
          signed = (refl, (env.clock looked_up, refl));
        }))
    | inr (inr r) ↦ absurd (ground arith)
  ]

  resolve_saves :
      {incident : IncidentEntity}
      → env.answer h (incident_find_one incident_id) ≡ ok (some incident)
      → is_resolved incident.status ≡ false
      → saved_incidents (resolve env incident_id operator_id h).1
        ≡ resolution incident ∷ saved_incidents h
  unfolding resolve attend get_incident update_linked record_action log publish_incident_updated
      ◌>>=◌
  resolve_saves {incident} e n = elim (Bool-cases (is_opened incident.status)) [
    | inl o ↦ ground arith
    | inr a ↦ ground arith
  ]

  -- Whatever the environment answers: `resolve` asks to write no state of the incident, or one that
  -- is a step of its lifecycle from the incident that was found; without one it writes none.
  pub resolve_writes :
      Moves operator_id
        (env.answer h (incident_find_one incident_id))
        (saved_incidents h)
        (resolve env incident_id operator_id h).1
  unfolding resolve get_incident ◌>>=◌
  resolve_writes = elim (found_cases (env.answer h (incident_find_one incident_id))) [
    | inl (incident, e) ↦
        subst
          (λ o. Moves operator_id o (saved_incidents h) (resolve env incident_id operator_id h).1)
          (sym e)
          (elim (Bool-cases (is_resolved incident.status)) [
            | inl r ↦ inl (ground arith)
            | inr n ↦ inr (resolution incident, resolve_step incident n, resolve_saves e n)
          ])
    | inr (inl e) ↦ ground arith
    | inr (inr (x, e)) ↦ ground arith
  ]

  -- A resolved incident is refused with a 400 after the one call that looks it up.
  pub resolve_refuses :
      {incident : IncidentEntity}
      → env.answer h (incident_find_one incident_id) ≡ ok (some incident)
      → incident.status ≡ resolved
      → ((resolve env incident_id operator_id h).0
          ≡ err (bad_request "Incident is already resolved"))
        × ((resolve env incident_id operator_id h).1 ≡ incident_find_one incident_id ∷ h)
  unfolding resolve get_incident ◌>>=◌
  resolve_refuses e r = (ground arith, ground arith)

  resolve_links :
      {incident updated : IncidentEntity}
      → env.answer h (incident_find_one incident_id) ≡ ok (some incident)
      → is_resolved incident.status ≡ false
      → (resolve env incident_id operator_id h).0 ≡ ok updated
      → (updated_alerts (resolve env incident_id operator_id h).1
          ≡ with_linked
              (linked_alert incident)
              (resolved_patch operator_id (resolution_time incident))
              (updated_alerts h))
        × (topics (resolve env incident_id operator_id h).1 ≡ "incident.updated" ∷ topics h)
  unfolding resolve attend get_incident update_linked record_action log publish_incident_updated
      ◌>>=◌
  resolve_links {incident} e n r = elim (Bool-cases (is_opened incident.status)) [
    | inl o ↦ elim (Option-cases (linked_alert incident)) [
      | inl unlinked ↦ (ground arith, ground arith)
      | inr (alert_id, linked) ↦ (ground arith, ground arith)
    ]
    | inr a ↦ elim (Option-cases (linked_alert incident)) [
      | inl unlinked ↦ (ground arith, ground arith)
      | inr (alert_id, linked) ↦ (ground arith, ground arith)
    ]
  ]

  -- When `resolve` returns, the incident was found and was not resolved; it was written once, as
  -- resolved by the operator, and as acknowledged by the same one if it was open; its alert, if it
  -- names one, was updated once, as resolved by the operator at the date of the resolution, and no
  -- other alert was; and the event
  -- `incident.updated` was published.
  pub resolve_returns :
      {updated : IncidentEntity}
      → (resolve env incident_id operator_id h).0 ≡ ok updated
      → (incident : IncidentEntity) × (env.answer h (incident_find_one incident_id)
          ≡ ok (some incident))
        × (is_resolved incident.status ≡ false)
        × IncidentStep operator_id incident (resolution incident)
        × (saved_incidents (resolve env incident_id operator_id h).1
            ≡ resolution incident ∷ saved_incidents h)
        × (updated_alerts (resolve env incident_id operator_id h).1
            ≡ alert_resolved incident.alert_id operator_id
                (resolution_time incident)
                (updated_alerts h))
        × (topics (resolve env incident_id operator_id h).1 ≡ "incident.updated" ∷ topics h)
  unfolding resolve get_incident ◌>>=◌
  resolve_returns r = elim (found_cases (env.answer h (incident_find_one incident_id))) [
    | inl (incident, e) ↦ elim (Bool-cases (is_resolved incident.status)) [
      | inl v ↦ absurd (ground arith)
      | inr n ↦
          let (links, published) = resolve_links e n r in
          (
            incident,
            e,
            n,
            resolve_step incident n,
            resolve_saves e n,
            links ∙ alert_resolved_lem incident operator_id (resolution_time incident) _,
            published,
          )
    ]
    | inr (inl e) ↦ absurd (ground arith)
    | inr (inr (x, e)) ↦ absurd (ground arith)
  ]

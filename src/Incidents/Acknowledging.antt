-- ===== src/Incidents/Acknowledging.antt =====
-- `acknowledge` of incident.service.ts: its guard, and what it writes of the incident and its alert.
use realtime_ops_platform.Prelude.{
  ℕ, String, List, ◌∷◌, ◌≡◌, ◌≢◌, refl, sym, subst, inl, inr, some, arith, Option-cases, false,
}
use realtime_ops_platform.Core.Enums.{resolved, is_resolved}
use realtime_ops_platform.Core.Entities.{IncidentEntity}
use realtime_ops_platform.Runtime.Calls.{Call, incident_find_one, incident_save, read_clock}
use realtime_ops_platform.Runtime.Monad.{Env, bad_request, ok, err, ◌>>=◌}
use realtime_ops_platform.Runtime.Observe.{saved_incidents, updated_alerts, topics}
use realtime_ops_platform.Runtime.Triple.{found_cases}
use realtime_ops_platform.Events.{publish_incident_updated}
use realtime_ops_platform.Records.{log}
use realtime_ops_platform.Incidents.Lifecycle.{
  with_linked, is_resolved-false, is_resolved_cases, IncidentStep, acknowledges, Moves,
}
use realtime_ops_platform.Incidents.{
  get_incident, update_linked, record_action, acknowledge, acknowledged_incident, linked_alert,
  acknowledged_patch,
}

module _ (env : Env) (incident_id operator_id : String) (h : List Call) where
  acknowledge_step :
      (incident : IncidentEntity) (t : ℕ)
      → incident.status ≢ resolved
      → IncidentStep operator_id incident (acknowledged_incident incident operator_id t)
  acknowledge_step incident t n = acknowledges (record {
    same = record { id = refl; alert_id = refl; title = refl; summary = refl; created_at = refl };
    before = n;
    status = refl;
    signed = (refl, (t, refl));
    resolved_by = refl;
    resolved_at = refl;
  })

  -- the moment at which the incident is acknowledged
  abbrev pub acknowledged_time : ℕ
  acknowledged_time = env.clock (incident_find_one incident_id ∷ h)

  acknowledge_saves :
      {incident : IncidentEntity}
      → env.answer h (incident_find_one incident_id) ≡ ok (some incident)
      → is_resolved incident.status ≡ false
      → saved_incidents (acknowledge env incident_id operator_id h).1
        ≡ acknowledged_incident incident operator_id acknowledged_time ∷ saved_incidents h
  unfolding acknowledge get_incident update_linked record_action log publish_incident_updated ◌>>=◌
  acknowledge_saves {incident} e n = ground arith

  -- Whatever the environment answers: `acknowledge` asks to write no state of the incident, or one
  -- that is a step of its lifecycle from the incident that was found; without one it writes none.
  pub acknowledge_writes :
      Moves operator_id
        (env.answer h (incident_find_one incident_id))
        (saved_incidents h)
        (acknowledge env incident_id operator_id h).1
  unfolding acknowledge get_incident ◌>>=◌
  acknowledge_writes = elim (found_cases (env.answer h (incident_find_one incident_id))) [
    | inl (incident, e) ↦
        subst
          (λ o.
            Moves operator_id o (saved_incidents h) (acknowledge env incident_id operator_id h).1)
          (sym e)
          (elim (is_resolved_cases incident) [
            | inl n ↦ inr (
              acknowledged_incident incident operator_id acknowledged_time,
              acknowledge_step incident acknowledged_time n,
              acknowledge_saves e (is_resolved-false incident n),
            )
            | inr r ↦ inl (ground arith)
          ])
    | inr (inl e) ↦ ground arith
    | inr (inr (x, e)) ↦ ground arith
  ]

  -- A resolved incident is refused with a 400 after the one call that looks it up.
  pub acknowledge_refuses :
      {incident : IncidentEntity}
      → env.answer h (incident_find_one incident_id) ≡ ok (some incident)
      → incident.status ≡ resolved
      → ((acknowledge env incident_id operator_id h).0
          ≡ err (bad_request "Resolved incident cannot be acknowledged"))
        × ((acknowledge env incident_id operator_id h).1 ≡ incident_find_one incident_id ∷ h)
  unfolding acknowledge get_incident ◌>>=◌
  acknowledge_refuses e r = (ground arith, ground arith)

  -- the moment at which its alert is
  abbrev pub linked_time : IncidentEntity → ℕ
  linked_time incident = env.clock (
      incident_save (acknowledged_incident incident operator_id acknowledged_time)
      ∷ read_clock
      ∷ incident_find_one incident_id
      ∷ h)

  acknowledge_links :
      {incident updated : IncidentEntity}
      → env.answer h (incident_find_one incident_id) ≡ ok (some incident)
      → is_resolved incident.status ≡ false
      → (acknowledge env incident_id operator_id h).0 ≡ ok updated
      → (updated_alerts (acknowledge env incident_id operator_id h).1
          ≡ with_linked
              (linked_alert incident)
              (acknowledged_patch operator_id (linked_time incident))
              (updated_alerts h))
        × (topics (acknowledge env incident_id operator_id h).1 ≡ "incident.updated" ∷ topics h)
  unfolding acknowledge get_incident update_linked record_action log publish_incident_updated ◌>>=◌
  acknowledge_links {incident} e n r = elim (Option-cases (linked_alert incident)) [
    | inl unlinked ↦ (ground arith, ground arith)
    | inr (alert_id, linked) ↦ (ground arith, ground arith)
  ]

  -- When `acknowledge` returns, the incident was found and was not resolved; it was written once, as
  -- acknowledged by the operator; its alert, if it has one, was updated once, as acknowledged by the
  -- same operator, and no other alert was; and the event `incident.updated` was published.
  pub acknowledge_returns :
      {updated : IncidentEntity}
      → (acknowledge env incident_id operator_id h).0 ≡ ok updated
      → (incident : IncidentEntity) × (env.answer h (incident_find_one incident_id)
          ≡ ok (some incident))
        × (incident.status ≢ resolved)
        × (saved_incidents (acknowledge env incident_id operator_id h).1
            ≡ acknowledged_incident incident operator_id acknowledged_time ∷ saved_incidents h)
        × (updated_alerts (acknowledge env incident_id operator_id h).1
            ≡ with_linked
                (linked_alert incident)
                (acknowledged_patch operator_id (linked_time incident))
                (updated_alerts h))
        × (topics (acknowledge env incident_id operator_id h).1 ≡ "incident.updated" ∷ topics h)
  unfolding acknowledge get_incident ◌>>=◌
  acknowledge_returns r = elim (found_cases (env.answer h (incident_find_one incident_id))) [
    | inl (incident, e) ↦ elim (is_resolved_cases incident) [
      | inl n ↦
          let unresolved = is_resolved-false incident n in
          let (links, published) = acknowledge_links e unresolved r in
          (incident, e, n, acknowledge_saves e unresolved, links, published)
      | inr v ↦ absurd (ground arith)
    ]
    | inr (inl e) ↦ absurd (ground arith)
    | inr (inr (x, e)) ↦ absurd (ground arith)
  ]

-- ===== src/Incidents/Accounts.antt =====
-- What `acknowledge` and `resolve` of incident.service.ts put on record about the operator.
use realtime_ops_platform.Prelude.{String, List, ◌≡◌, some, arith, inl, inr}
use realtime_ops_platform.Core.Enums.{EntityType}
use realtime_ops_platform.Core.Entities.{IncidentEntity}
use realtime_ops_platform.Runtime.Calls.{Call, incident_find_one}
use realtime_ops_platform.Runtime.Monad.{Env, ok, ◌>>=◌}
use realtime_ops_platform.Runtime.Observe.{OnRecord}
use realtime_ops_platform.Runtime.Triple.{found_cases}
use realtime_ops_platform.Events.{publish_incident_updated}
use realtime_ops_platform.Records.{log}
use realtime_ops_platform.Incidents.{
  get_incident, update_linked, record_action, acknowledge, attend, resolve,
}

module _ (env : Env) (h : List Call) (incident_id operator_id : String) where
  acknowledge-OnRecord_of :
      {incident updated : IncidentEntity}
      → env.answer h (incident_find_one incident_id) ≡ ok (some incident)
      → (acknowledge env incident_id operator_id h).0 ≡ ok updated
      → OnRecord operator_id EntityType.incident incident.id h
          (acknowledge env incident_id operator_id h).1
  unfolding acknowledge get_incident update_linked record_action publish_incident_updated log ◌>>=◌
  acknowledge-OnRecord_of {incident} e r = ground arith

  pub acknowledge-OnRecord :
      (updated : IncidentEntity)
      → (acknowledge env incident_id operator_id h).0 ≡ ok updated
      → (id : String) × OnRecord operator_id EntityType.incident id h
          (acknowledge env incident_id operator_id h).1
  unfolding acknowledge get_incident ◌>>=◌
  acknowledge-OnRecord updated r =
      elim (found_cases (env.answer h (incident_find_one incident_id))) [
        | inl (incident, e) ↦ (incident.id, acknowledge-OnRecord_of e r)
        | inr (inl e) ↦ absurd (ground arith)
        | inr (inr (x, e)) ↦ absurd (ground arith)
      ]

  resolve-OnRecord_of :
      {incident updated : IncidentEntity}
      → env.answer h (incident_find_one incident_id) ≡ ok (some incident)
      → (resolve env incident_id operator_id h).0 ≡ ok updated
      → OnRecord operator_id EntityType.incident incident.id h
          (resolve env incident_id operator_id h).1
  unfolding resolve get_incident attend update_linked record_action publish_incident_updated log
      ◌>>=◌
  resolve-OnRecord_of {incident} e r = ground arith

  pub resolve-OnRecord :
      (updated : IncidentEntity)
      → (resolve env incident_id operator_id h).0 ≡ ok updated
      → (id : String) × OnRecord operator_id EntityType.incident id h
          (resolve env incident_id operator_id h).1
  unfolding resolve get_incident ◌>>=◌
  resolve-OnRecord updated r = elim (found_cases (env.answer h (incident_find_one incident_id))) [
    | inl (incident, e) ↦ (incident.id, resolve-OnRecord_of e r)
    | inr (inl e) ↦ absurd (ground arith)
    | inr (inr (x, e)) ↦ absurd (ground arith)
  ]

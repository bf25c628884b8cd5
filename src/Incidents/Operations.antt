-- ===== src/Incidents/Operations.antt =====
-- The two operations of incident.service.ts together: what either may write, and what both refuse.
use realtime_ops_platform.Prelude.{String, List, ◌∷◌, ◌≡◌, some}
use realtime_ops_platform.Core.Enums.{IncidentStatus}
use realtime_ops_platform.Core.Entities.{IncidentEntity}
use realtime_ops_platform.Runtime.Calls.{Call, incident_find_one}
use realtime_ops_platform.Runtime.Monad.{Env, ok, err, bad_request}
use realtime_ops_platform.Runtime.Observe.{saved_incidents}
use realtime_ops_platform.Incidents.{acknowledge, resolve}
use realtime_ops_platform.Incidents.Lifecycle.{Moves}
use realtime_ops_platform.Incidents.Acknowledging.{acknowledge_writes, acknowledge_refuses}
use realtime_ops_platform.Incidents.Resolving.{resolve_writes, resolve_refuses}

module _ (env : Env) (incident_id operator_id : String) (h : List Call) where
  -- Whatever the environment answers, and whether they return or throw: `acknowledge` and `resolve` ask
  -- to write no state of the incident, or one, which is a step of its lifecycle, by this operator, from
  -- the incident that was found.
  pub operations_step :
      Moves operator_id
        (env.answer h (incident_find_one incident_id))
        (saved_incidents h)
        (acknowledge env incident_id operator_id h).1
      × Moves operator_id
          (env.answer h (incident_find_one incident_id))
          (saved_incidents h)
          (resolve env incident_id operator_id h).1
  operations_step = (
    acknowledge_writes env incident_id operator_id h,
    resolve_writes env incident_id operator_id h,
  )

  -- An incident that is found resolved is neither acknowledged nor resolved again: both are refused with
  -- a 400, after the one call that looks it up.
  pub operations_refuse :
      {incident : IncidentEntity}
      → env.answer h (incident_find_one incident_id) ≡ ok (some incident)
      → incident.status ≡ IncidentStatus.resolved
      → ((acknowledge env incident_id operator_id h).0
          ≡ err (bad_request "Resolved incident cannot be acknowledged"))
        × ((acknowledge env incident_id operator_id h).1 ≡ incident_find_one incident_id ∷ h)
        × ((resolve env incident_id operator_id h).0
            ≡ err (bad_request "Incident is already resolved"))
        × ((resolve env incident_id operator_id h).1 ≡ incident_find_one incident_id ∷ h)
  operations_refuse e r =
      let (refused, looked_up) = acknowledge_refuses env incident_id operator_id h e r in
      let (refused_too, looked_up_too) = resolve_refuses env incident_id operator_id h e r in
      (refused, looked_up, refused_too, looked_up_too)

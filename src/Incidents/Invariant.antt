-- ===== src/Incidents/Invariant.antt =====
-- The columns of an incident agree with its status through both operations of incident.service.ts.
use realtime_ops_platform.Prelude.{String, List, ◌≡◌, subst, some, All}
use realtime_ops_platform.Core.Entities.{IncidentEntity}
use realtime_ops_platform.Runtime.Calls.{Call, incident_find_one}
use realtime_ops_platform.Runtime.Monad.{Env, ok}
use realtime_ops_platform.Runtime.Observe.{saved_incidents}
use realtime_ops_platform.Incidents.{acknowledge, resolve}
use realtime_ops_platform.Incidents.Lifecycle.{IsConsistent, Moves, Moves-IsConsistent}
use realtime_ops_platform.Incidents.Acknowledging.{acknowledge_writes}
use realtime_ops_platform.Incidents.Resolving.{resolve_writes}

-- If the incident that is found names who acknowledged it and who resolved it as its status says,
-- then so does every state of it that `acknowledge` or `resolve` asks to write.
pub incidents_stay_signed :
    (env : Env) (incident_id operator_id : String) (h : List Call) {found : IncidentEntity}
    → env.answer h (incident_find_one incident_id) ≡ ok (some found)
    → IsConsistent found
    → All IsConsistent (saved_incidents h)
    → All IsConsistent (saved_incidents (acknowledge env incident_id operator_id h).1)
      × All IsConsistent (saved_incidents (resolve env incident_id operator_id h).1)
incidents_stay_signed env incident_id operator_id h {found} e c cs = (
  Moves-IsConsistent operator_id found _ (acknowledge env incident_id operator_id h).1
      (subst
        (λ o. Moves operator_id o (saved_incidents h) (acknowledge env incident_id operator_id h).1)
        e (acknowledge_writes env incident_id operator_id h))
      c cs,
  Moves-IsConsistent operator_id found _ (resolve env incident_id operator_id h).1
      (subst
        (λ o. Moves operator_id o (saved_incidents h) (resolve env incident_id operator_id h).1) e
        (resolve_writes env incident_id operator_id h))
      c cs,
)

-- ===== src/Alerts/Accounts.antt =====
-- What `create` of alert.service.ts puts on record about the operator.
use realtime_ops_platform.Prelude.{List, ◌≡◌, Option, arith}
use realtime_ops_platform.Core.Enums.{EntityType}
use realtime_ops_platform.Core.Entities.{AlertEntity, IncidentEntity}
use realtime_ops_platform.Runtime.Calls.{Call}
use realtime_ops_platform.Runtime.Monad.{Env, ok, ◌>>=◌}
use realtime_ops_platform.Runtime.Observe.{OnRecord}
use realtime_ops_platform.Events.{publish_alert_raised, publish_incident_updated}
use realtime_ops_platform.Records.{log}
use realtime_ops_platform.Alerts.{CreateAlertInput, open_incident, announce_opened, create}

pub create-OnRecord :
    (env : Env) (h : List Call) (input : CreateAlertInput) (alert : AlertEntity)
    (incident : Option IncidentEntity)
    → (create env input h).0 ≡ ok (alert, incident)
    → OnRecord input.operator_id EntityType.alert alert.id h (create env input h).1
unfolding create open_incident announce_opened log publish_alert_raised publish_incident_updated
    ◌>>=◌
create-OnRecord env h input alert incident r = ground arith

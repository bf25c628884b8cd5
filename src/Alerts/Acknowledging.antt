-- ===== src/Alerts/Acknowledging.antt =====
-- `acknowledge` of alert.service.ts: its guard and what it writes.
use realtime_ops_platform.Prelude.{List, ◌∷◌, ◌≡◌, ◌≢◌, inl, inr, some, arith, String, false, ◌⊎◌}
use realtime_ops_platform.Core.Enums.{resolved, is_resolved_alert}
use realtime_ops_platform.Core.Entities.{AlertEntity}
use realtime_ops_platform.Runtime.Calls.{Call, alert_find_one}
use realtime_ops_platform.Runtime.Monad.{Env, bad_request, ok, err, ◌>>=◌}
use realtime_ops_platform.Runtime.Observe.{saved_alerts, saved_incidents, topics}
use realtime_ops_platform.Runtime.Triple.{found_cases}
use realtime_ops_platform.Events.{publish_alert_acknowledged}
use realtime_ops_platform.Records.{log}
use realtime_ops_platform.Alerts.{get_by_id, acknowledge, acknowledged_alert}

resolved_cases : (alert : AlertEntity) → (alert.status ≢ resolved) ⊎ (alert.status ≡ resolved)
resolved_cases alert = ground arith

module _ (env : Env) (alert_id operator_id : String) (h : List Call) where
  -- A resolved alert is refused with a 400 after the one call that looks it up.
  pub acknowledge_refuses_resolved :
      {alert : AlertEntity}
      → env.answer h (alert_find_one alert_id) ≡ ok (some alert)
      → alert.status ≡ resolved
      → ((acknowledge env alert_id operator_id h).0
          ≡ err (bad_request "Resolved alert cannot be acknowledged"))
        × ((acknowledge env alert_id operator_id h).1 ≡ alert_find_one alert_id ∷ h)
  unfolding acknowledge get_by_id ◌>>=◌
  acknowledge_refuses_resolved e r = (ground arith, ground arith)

  acknowledge_saves :
      {alert updated : AlertEntity}
      → env.answer h (alert_find_one alert_id) ≡ ok (some alert)
      → is_resolved_alert alert.status ≡ false
      → (acknowledge env alert_id operator_id h).0 ≡ ok updated
      → (saved_alerts (acknowledge env alert_id operator_id h).1
          ≡ acknowledged_alert alert operator_id (env.clock (alert_find_one alert_id ∷ h))
            ∷ saved_alerts h)
        × (saved_incidents (acknowledge env alert_id operator_id h).1 ≡ saved_incidents h)
        × (topics (acknowledge env alert_id operator_id h).1 ≡ "alert.acknowledged" ∷ topics h)
  unfolding acknowledge get_by_id log publish_alert_acknowledged ◌>>=◌
  acknowledge_saves e n r = (ground arith, ground arith, ground arith)

  -- When `acknowledge` returns, the alert was found and was not resolved; it was written once, as
  -- acknowledged by the operator; no incident was written; and `alert.acknowledged` was published.
  pub acknowledge_signs :
      {updated : AlertEntity}
      → (acknowledge env alert_id operator_id h).0 ≡ ok updated
      → (alert : AlertEntity) × (env.answer h (alert_find_one alert_id) ≡ ok (some alert))
        × (alert.status ≢ resolved)
        × (saved_alerts (acknowledge env alert_id operator_id h).1
            ≡ acknowledged_alert alert operator_id (env.clock (alert_find_one alert_id ∷ h))
              ∷ saved_alerts h)
        × (saved_incidents (acknowledge env alert_id operator_id h).1 ≡ saved_incidents h)
        × (topics (acknowledge env alert_id operator_id h).1 ≡ "alert.acknowledged" ∷ topics h)
  unfolding acknowledge get_by_id ◌>>=◌
  acknowledge_signs r = elim (found_cases (env.answer h (alert_find_one alert_id))) [
    | inl (alert, e) ↦ elim (resolved_cases alert) [
      | inl n ↦
          let (written, apart, published) = acknowledge_saves e (ground arith) r in
          (alert, e, n, written, apart, published)
      | inr v ↦ absurd (ground arith)
    ]
    | inr (inl e) ↦ absurd (ground arith)
    | inr (inr (x, e)) ↦ absurd (ground arith)
  ]

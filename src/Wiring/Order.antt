-- ===== src/Wiring/Order.antt =====
-- The classes can be created one after the other: none asks for itself, directly or through others.
use realtime_ops_platform.Prelude.{ℕ, zero, suc, ◌<◌, Bool, true, ◌≡◌, refl, ltb, ltb→lt, arith}
use mathlib.Core.List.{Mem}
use mathlib.Core.WellFounded.{Acc}
use realtime_ops_platform.Wiring.Gather.{every, every-Mem}
use realtime_ops_platform.Wiring.Classes.{Class, Token, class, needs}
use realtime_ops_platform.Wiring.Classes.Class.{
  job_service, job_processor_service, processing_status_service, alert_service, incident_service,
  realtime_event_publisher, health_service, operator_auth_guard, redis_rate_limit_guard,
  redis_lock_service, realtime_events_gateway,
}

-- Constructing the class `c` first constructs `d`.
abbrev pub Needs : Class → Class → Type 0
Needs d c = Mem (class d) (needs c)

-- after what it asks for
abbrev rank : Class → ℕ
rank Class.auth_service = 0
rank Class.rabbit_mq_service = 0
rank Class.redis_service = 0
rank Class.notification_service = 0
rank Class.audit_service = 0
rank Class.realtime_health_controller = 0
rank realtime_event_publisher = 1
rank redis_lock_service = 1
rank health_service = 1
rank operator_auth_guard = 1
rank redis_rate_limit_guard = 1
rank processing_status_service = 1
rank realtime_events_gateway = 1
rank job_service = 2
rank job_processor_service = 2
rank alert_service = 2
rank incident_service = 2
rank _ = 3

abbrev before : ℕ → Token → Bool
before n (class d) = ltb (rank d) n
before n _ = true

needs-before : (c : Class) → every (before (rank c)) (needs c) ≡ true
unfolding every
needs-before job_service = refl
needs-before c = refl

Needs-rank : (d c : Class) → Needs d c → rank d < rank c
Needs-rank d c m = ltb→lt _ _ (every-Mem (before (rank c)) (needs c) (needs-before c) (class d) m)

below-Acc : (n : ℕ) (c : Class) → rank c < n → Acc Needs c
below-Acc zero c l = absurd (omega (arith, l))
below-Acc (suc n) c l = Acc.intro c (λ d m. below-Acc n d (omega (arith, l, Needs-rank d c m)))

-- No class asks for itself, neither in its constructor nor through the constructors of what it asks for:
-- every chain of constructors that ask for one another ends.
pub Needs-Acc : (c : Class) → Acc Needs c
Needs-Acc c = below-Acc (suc (rank c)) c (omega arith)

-- ===== src/Jobs/Service/Accounts.antt =====
-- What `create` and `retry` of job.service.ts put on record about the operator.
use realtime_ops_platform.Prelude.{String, List, ◌≡◌, arith}
use realtime_ops_platform.Core.Enums.{EntityType}
use realtime_ops_platform.Core.Entities.{JobEntity}
use realtime_ops_platform.Runtime.Calls.{Call}
use realtime_ops_platform.Runtime.Monad.{Env, ok, ◌>>=◌}
use realtime_ops_platform.Runtime.Observe.{OnRecord}
use realtime_ops_platform.Messaging.{publish_to_queue}
use realtime_ops_platform.Events.{publish_job_created, publish_notification_created}
use realtime_ops_platform.Records.{log, create_notification}
use realtime_ops_platform.Jobs.Service.{CreateJobInput, create, retry, requeue, get_by_id}

module _ (env : Env) (h : List Call) where
  pub create-OnRecord :
      (input : CreateJobInput) (job : JobEntity)
      → (create env input h).0 ≡ ok job
      → OnRecord input.operator_id EntityType.job job.id h (create env input h).1
  unfolding create log create_notification publish_to_queue publish_job_created
      publish_notification_created ◌>>=◌
  create-OnRecord input job r = ground arith

  pub retry-OnRecord :
      (job_id operator_id : String) (job : JobEntity)
      → (retry env job_id operator_id h).0 ≡ ok job
      → OnRecord operator_id EntityType.job job.id h (retry env job_id operator_id h).1
  unfolding retry get_by_id requeue log create_notification publish_to_queue publish_job_created
      publish_notification_created ◌>>=◌
  retry-OnRecord job_id operator_id job r = ground arith

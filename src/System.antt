-- ===== src/System.antt =====
-- The services together: the API that creates and retries a job, the queue between, and the worker that
-- is handed its message (libs/application/src/jobs, libs/messaging/src/rabbitmq.service.ts and
-- apps/processing-service/src/job-processing.consumer.ts).
pub mod Database
pub mod Delivery
pub mod Attempts
pub mod Rounds
pub mod Life
pub mod Lost
pub mod Races
use realtime_ops_platform.Prelude.{ℕ, zero, suc, String, List, [], ◌∷◌, some}
use realtime_ops_platform.Core.Value.{Fields, obj}
use realtime_ops_platform.Runtime.Monad.{Env, M, ok, pure, ◌>>=◌, ◌>>◌}
use realtime_ops_platform.Runtime.Observe.{queue_messages}
use realtime_ops_platform.Jobs.Service.{CreateJobInput, create, retry}
use realtime_ops_platform.Consumer.{handle, on_message}

module _ (env : Env) where
  -- the worker is handed a message
  unfoldable pub hand : Fields → M (Unit {0})
  hand payload = on_message env (handle env) (some (ok (obj payload)))

  abbrev deliver_first : List (String × Fields) → M (Unit {0})
  deliver_first [] = pure tt
  deliver_first ((queue, payload) ∷ _) = hand payload

  -- the worker is handed the message that was sent last
  unfoldable pub deliver : M (Unit {0})
  deliver h = deliver_first (queue_messages h) h

  -- a delivery, and then `n` times a retry and its delivery
  unfoldable pub rounds : ℕ → String → String → M (Unit {0})
  rounds zero job_id operator_id = deliver
  rounds (suc n) job_id operator_id = do
    rounds n job_id operator_id
    retry env job_id operator_id
    deliver

  -- the job of `input` is created, and goes through these rounds
  unfoldable pub live : ℕ → CreateJobInput → M (Unit {0})
  live n input = do job ← create env input; rounds n job.id input.operator_id

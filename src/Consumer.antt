-- ===== src/Consumer.antt =====
-- The consuming side of libs/messaging/src/rabbitmq.service.ts (`consume`) with the handler of
-- apps/processing-service/src/job-processing.consumer.ts. What `JSON.parse` makes of the content of a
-- message is the argument: a value, or the exception that it throws.
pub mod Settlement
use realtime_ops_platform.Prelude.{String, false, Option, none, some, str_eq, if◌then◌else◌}
use realtime_ops_platform.Core.Value.{Value, undefined, null, str, obj, get}
use realtime_ops_platform.Runtime.Calls.{ack, nack}
use realtime_ops_platform.Runtime.Monad.{
  Env, M, Outcome, ok, err, plain_error, pure, throw, ◌>>=◌, ◌>>◌, call, try_catch,
}
use realtime_ops_platform.Jobs.Rows.{ProcessJobInput}
use realtime_ops_platform.Jobs.Processor.{process}

-- `value.key`: a property of `null` or `undefined` is a TypeError, and the values here that are no
-- objects have none of these properties.
unfoldable pub property : Value → String → M Value
property undefined key = throw (plain_error "Cannot read properties of undefined")
property null key = throw (plain_error "Cannot read properties of null")
property (obj fields) key = pure (get key fields)
property _ key = pure undefined

-- `typeof x === 'string' ? x : undefined`
abbrev pub string_or_undefined : Value → Option String
string_or_undefined (str s) = some s
string_or_undefined _ = none

-- `typeof x === 'string' ? x : other`
abbrev pub string_or : Value → String → String
string_or (str s) other = s
string_or _ other = other

-- `if (!jobId) { … return; }`, where the empty text counts as none
unfoldable pub to_input : Option String → String → String → Option ProcessJobInput
to_input none reason requested_by = none
to_input (some job_id) reason requested_by =
    if str_eq job_id ""
    then none
    else some (record { job_id = job_id; reason = reason; requested_by = requested_by })

unfoldable pub read_message : Value → M (Option ProcessJobInput)
unfolding property to_input
read_message payload = do
  job_id ← property payload "jobId"
  reason ← property payload "reason"
  requested_by ← property payload "requestedBy"
  pure (
      to_input (string_or_undefined job_id) (string_or reason "created")
        (string_or requested_by "system"))

unfoldable pub process_input : Env → Option ProcessJobInput → M (Unit {0})
process_input env none = pure tt
process_input env (some input) = process env input

-- the handler of `JobProcessingConsumer`
unfoldable pub handle : Env → Value → M (Unit {0})
handle env payload = do input ← read_message payload; process_input env input

abbrev pub parsed : Outcome Value → M Value
parsed (ok payload) = pure payload
parsed (err e) = throw e

-- the callback of `consume`, with a handler
unfoldable pub on_message : Env → (Value → M (Unit {0})) → Option (Outcome Value) → M (Unit {0})
on_message env handler none = pure tt
on_message env handler (some content) =
    try_catch (do payload ← parsed content; handler payload; call env ack)
      (call env (nack false false))

-- ===== src/Jobs/Processor/Locking.antt =====
-- The lock of job-processor.service.ts: `process` and the calls that it makes to Redis.
use realtime_ops_platform.Prelude.{
  String, Bool, false, List, ◌∷◌, ◌≡◌, Option, if◌then◌else◌, arith,
}
use realtime_ops_platform.Runtime.Calls.{Call, redis_set_nx, redis_del}
use realtime_ops_platform.Runtime.Monad.{Env, Outcome, ok, err, ◌>>=◌}
use realtime_ops_platform.Runtime.Observe.{lock_calls}
use realtime_ops_platform.Records.{acquire_lock, release_lock, is_ok}
use realtime_ops_platform.Jobs.Processor.Reporting.{Untouched, attempt_message-Keeps}
use realtime_ops_platform.Jobs.Rows.{ProcessJobInput, lock_key}
use realtime_ops_platform.Jobs.Processor.{attempt_message, process_locked, process}

-- Redis said `OK` to the request for a key.
abbrev pub is_granted : Outcome (Option String) → Bool
is_granted (ok response) = is_ok response
is_granted (err e) = false

lock_untouched : (c : List Call) → Untouched (λ h. lock_calls h ≡ c)
lock_untouched c = record {
  quiet = record {
    clock = λ h p. p;
    notification = λ n h p. p;
    audit = λ a h p. p;
    event = λ x k e h p. p;
  };
  sleeping = λ ms h p. p;
  find = λ id h p. p;
  save_job = λ job h p. p;
  new_attempt = λ a h p. p;
  save_attempt = λ a h p. p;
  new_alert = λ a h p. p;
  new_incident = λ i h p. p;
}

abbrev pub lock_request : ProcessJobInput → Call
lock_request input = redis_set_nx (lock_key input.job_id) "1" 60

-- What `process` leaves of calls about locks, from the calls before it.
abbrev pub bracketed : Env → ProcessJobInput → List Call → List Call
bracketed env input h =
    if env.has_client
    then (if is_granted (env.answer h (lock_request input))
        then redis_del (lock_key input.job_id) ∷ lock_request input ∷ lock_calls h
        else lock_request input ∷ lock_calls h)
    else lock_calls h

-- All the calls of `process`, from those of its `try` block.
abbrev pub locked_calls : Env → ProcessJobInput → List Call → List Call
locked_calls env input h =
    if env.has_client
    then (if is_granted (env.answer h (lock_request input))
        then redis_del (lock_key input.job_id)
          ∷ (attempt_message env input (lock_request input ∷ h)).1
        else lock_request input ∷ h)
    else h

-- The lock is requested once, for the job of the message. If it is granted, the calls of the `try`
-- block follow, none of which concerns a lock, and then one release of the same key as the last call
-- of all, whether the block returned or threw. If it is not granted, the request is the only call.
-- Without a Redis client there is no call.
pub process_lock :
    (env : Env) (input : ProcessJobInput) (h : List Call)
    → ((process env input h).1 ≡ locked_calls env input h)
      × (lock_calls (process env input h).1 ≡ bracketed env input h)
unfolding process process_locked acquire_lock release_lock ◌>>=◌
process_lock env input h =
    let body =
      attempt_message-Keeps (lock_untouched (lock_request input ∷ lock_calls h)) env input in
    (ground arith, ground (arith, body.at (lock_request input ∷ h)))

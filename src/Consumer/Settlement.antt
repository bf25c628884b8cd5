-- ===== src/Consumer/Settlement.antt =====
-- How a message of the processing queue is settled, and that what the job service sends is read back.
use realtime_ops_platform.Prelude.{
  String, List, [], ◌∷◌, ◌++◌, ◌≡◌, ◌≢◌, refl, Option, none, some, arith, eq_iff, Bool, false, true,
}
use realtime_ops_platform.Core.Value.{Value, undefined, obj, get}
use realtime_ops_platform.Runtime.Calls.{Call, ack, nack, redis_set_nx}
use realtime_ops_platform.Runtime.Monad.{Env, M, Outcome, ok, err, ◌>>=◌}
use realtime_ops_platform.Runtime.Observe.{settlements}
use realtime_ops_platform.Runtime.Keeps.{Keeps, Keeps-try_finally, keeps_rules}
use realtime_ops_platform.Records.{acquire_lock, release_lock}
use realtime_ops_platform.Jobs.Service.{job_message}
use realtime_ops_platform.Jobs.Rows.{ProcessJobInput, lock_key}
use realtime_ops_platform.Jobs.Processor.{process, process_locked}
use realtime_ops_platform.Jobs.Processor.Reporting.{Untouched, attempt_message-Keeps}
use realtime_ops_platform.Consumer.{
  property, to_input, read_message, process_input, handle, parsed, on_message,
}

settlements_untouched : (c : List Call) → Untouched (λ h. settlements h ≡ c)
settlements_untouched c = record {
  quiet = record {
    clock = λ h p. p;
    notification = λ n h p. p;
    audit = λ a h p. p;
    event = λ x k e h p. p;
  };
  sleeping = λ ms h p. p;
  find = λ id h p. p;
  save_job = λ job h p. p;
  new_attempt = λ a h p. p;
  save_attempt = λ a h p. p;
  new_alert = λ a h p. p;
  new_incident = λ i h p. p;
}

module _ (env : Env) (c : List Call) where
  release_lock-settlements : (key : String) → Keeps (λ h. settlements h ≡ c) (release_lock env key)
  unfolding release_lock ◌>>=◌
  release_lock-settlements key = search keeps_rules depth 10

  process_locked-settlements :
      (input : ProcessJobInput) (acquired : Bool)
      → Keeps (λ h. settlements h ≡ c) (process_locked env input acquired)
  unfolding process_locked
  process_locked-settlements input false = search keeps_rules
  process_locked-settlements input true =
      Keeps-try_finally _ _ (attempt_message-Keeps (settlements_untouched c) env input)
        (release_lock-settlements _)

  process-settlements :
      (input : ProcessJobInput) → Keeps (λ h. settlements h ≡ c) (process env input)
  unfolding process acquire_lock
  process-settlements input = search (keeps_rules, process_locked-settlements) depth 12

  process_input-settlements :
      (input : Option ProcessJobInput) → Keeps (λ h. settlements h ≡ c) (process_input env input)
  unfolding process_input
  process_input-settlements none = search keeps_rules
  process_input-settlements (some input) = process-settlements input

  pub property-settlements :
      (payload : Value) (key : String) → Keeps (λ h. settlements h ≡ c) (property payload key)
  unfolding property
  property-settlements undefined key = search keeps_rules
  property-settlements _ key = search keeps_rules

  handle-settlements : (payload : Value) → Keeps (λ h. settlements h ≡ c) (handle env payload)
  unfolding handle read_message
  handle-settlements payload =
      search (keeps_rules, property-settlements, process_input-settlements) depth 12

  pub parsed-settlements :
      (content : Outcome Value) → Keeps (λ h. settlements h ≡ c) (parsed content)
  parsed-settlements (ok payload) = search keeps_rules
  parsed-settlements (err e) = search keeps_rules

-- `JSON.parse` and the handler
abbrev pub handled : Env → Outcome Value → M (Unit {0})
handled env content = parsed content >>= handle env

-- how a message is settled, from the outcomes of its handling and of `ack`
abbrev pub settled_by : Outcome (Unit {0}) → Outcome (Unit {0}) → List Call
settled_by (err e) acknowledged = nack false false ∷ []
settled_by (ok u) (ok v) = ack ∷ []
settled_by (ok u) (err e) = nack false false ∷ ack ∷ []

-- Every message is settled once: acknowledged if its content parsed and the handler returned, refused
-- without being queued again if either threw. Only where `ack` itself throws is it refused after that.
pub on_message_settles :
    (env : Env) (content : Outcome Value) (h : List Call)
    → settlements (on_message env (handle env) (some content) h).1
      ≡ settled_by (handled env content h).0 (env.answer (handled env content h).1 ack)
        ++ settlements h
unfolding on_message ◌>>=◌
on_message_settles env (err e) h = ground arith
on_message_settles env (ok payload) h =
    ground (arith, (handle-settlements env (settlements h) payload).at h refl)

-- A message of the job service is read back as it was sent, for any id but the empty text.
pub read_message-job_message :
    (job_id reason requested_by : String) (h : List Call)
    → job_id ≢ ""
    → read_message (obj (job_message job_id reason requested_by)) h
      ≡ (ok (some (record { job_id = job_id; reason = reason; requested_by = requested_by })), h)
unfolding read_message property to_input get ◌>>=◌
read_message-job_message job_id reason requested_by h e = ground (arith, eq_iff job_id "")

-- If the lock of a job is held, its message is settled after the one request for the lock, as a
-- message that was handled, and nothing else is called: it is acknowledged, and refused after that
-- only if `ack` throws, and no row is read or written for it.
on_message_busy :
    (env : Env) (job_id reason requested_by : String) (h : List Call)
    → job_id ≢ ""
    → env.has_client ≡ true
    → env.answer h (redis_set_nx (lock_key job_id) "1" 60) ≡ ok none
    → (on_message env (handle env) (some (ok (obj (job_message job_id reason requested_by)))) h).1
      ≡ settled_by (ok tt) (env.answer (redis_set_nx (lock_key job_id) "1" 60 ∷ h) ack)
        ++ redis_set_nx (lock_key job_id) "1" 60 ∷ h
unfolding on_message handle read_message property to_input get process_input process process_locked
    acquire_lock ◌>>=◌
on_message_busy env job_id reason requested_by h e client busy = ground (arith, eq_iff job_id "")

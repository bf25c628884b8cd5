-- ===== src/Tests/Whole.antt =====
-- The theorems about whole runs, with a database that finds a job as it was last saved.
use realtime_ops_platform.Prelude.{
  String, List, [], ◌∷◌, ◌≡◌, ◌≢◌, refl, ap, ◌+◌, Bool, true, false, none, some, if◌then◌else◌,
  arith, length,
}
use realtime_ops_platform.Core.Enums.{JobStatus}
use realtime_ops_platform.Core.Value.{end, field, bool, int, get}
use realtime_ops_platform.Core.Entities.{JobEntity}
use realtime_ops_platform.Runtime.Calls
use realtime_ops_platform.Runtime.Calls.{Call, Answer, job_find_one}
use realtime_ops_platform.Runtime.Monad.{Env, ok, err, bad_request}
use realtime_ops_platform.Runtime.Observe.{lock_calls, opened_incidents, queue_messages}
use realtime_ops_platform.Runtime.Returns.{Works}
use realtime_ops_platform.Messaging.{jobs_processing}
use realtime_ops_platform.Jobs.Service.{CreateJobInput, retry, requeued, job_message}
use realtime_ops_platform.Jobs.Rows.{lock_key}
use realtime_ops_platform.Jobs.Rows.{ProcessJobInput}
use realtime_ops_platform.Jobs.Processor.{process}
use realtime_ops_platform.Jobs.Processor.Outcome.{Settled}
use realtime_ops_platform.Jobs.Processor.Writes.{Loads}
use realtime_ops_platform.Jobs.Processor.Returning.{process_finishes}
use realtime_ops_platform.System.{live, deliver}
use realtime_ops_platform.System.Database.{current, is_held, Database}
use realtime_ops_platform.System.Life.{Inserts, live_completes, live_exhausts}
use realtime_ops_platform.System.Delivery.{retry_lem}
use realtime_ops_platform.System.Attempts.{Idle}
use realtime_ops_platform.System.Races.{raced_retries, both_handed, races_exceed}
use realtime_ops_platform.System.Lost.{retry_stays_queued}
use realtime_ops_platform.Tests.Samples.{sample_job, answer_of}

abbrev queued_job : Bool → JobEntity
queued_job should_fail = record (sample_job JobStatus.queued 0 should_fail) {
  payload = field "shouldFail" (bool should_fail) (field "failTimes" (int 2) end);
}

abbrev stored_answer : Bool → List Call → (c : Call) → Answer c
stored_answer should_fail h (Calls.job_find_one job_id) = some (current (queued_job should_fail) h)
stored_answer should_fail h (Calls.job_insert columns) = queued_job should_fail
stored_answer should_fail h (Calls.redis_set_nx key value ttl) =
    if is_held key (lock_calls h) then none else some "OK"
stored_answer should_fail h c =
    answer_of (record { job = none; alert = none; incident = none; lock = none }) c

abbrev stored_env : Bool → Env
stored_env should_fail = record {
  answer = λ h c. ok (stored_answer should_fail h c);
  clock = λ h. length h;
  has_channel = true;
  has_client = true;
}

stored_env-Works : (should_fail : Bool) → Works (stored_env should_fail)
stored_env-Works should_fail = record {
  client = refl;
  channel = refl;
  answers = λ c h. (stored_answer should_fail h c, refl);
}

abbrev stored_id : String
stored_id = "job-1"

stored_id-nonempty : stored_id ≢ ""
stored_id-nonempty e = absurd (cc)

stored_env-Database :
    (should_fail : Bool) → Database (stored_env should_fail) (queued_job should_fail)
stored_env-Database should_fail = record {
  works = stored_env-Works should_fail;
  identified = stored_id-nonempty;
  finds = λ h. refl;
  saves = λ h job. refl;
  grants = λ h free. ground (arith, free);
}

abbrev new_input : Bool → CreateJobInput
new_input should_fail = record {
  name = "sync-feed";
  type = "sync";
  payload = (queued_job should_fail).payload;
  priority = 5;
  max_attempts = 3;
  operator_id = "op-7";
}

stored_env-Inserts :
    (should_fail : Bool)
    → Inserts (stored_env should_fail) (new_input should_fail) [] (queued_job should_fail)
stored_env-Inserts should_fail = record {
  inserted = refl;
  payload = refl;
  max_attempts = refl;
  attempt_count = refl;
  is_new = refl;
  is_free = refl;
}

live_completes_example :
    let g = (live (stored_env false) 2 (new_input false) []).1 in
    ((live (stored_env false) 2 (new_input false) []).0 ≡ ok tt)
    × ((current (queued_job false) g).status ≡ JobStatus.completed)
    × ((current (queued_job false) g).attempt_count ≡ 3)
    × (is_held (lock_key "job-1") (lock_calls g) ≡ false)
    × (length (opened_incidents g) ≡ 0)
unfolding get
live_completes_example =
    live_completes (stored_env-Database false) (stored_env-Inserts false) 2 (omega arith) refl refl

live_exhausts_example :
    let g = (live (stored_env true) 2 (new_input true) []).1 in
    ((live (stored_env true) 2 (new_input true) []).0 ≡ ok tt)
    × ((current (queued_job true) g).status ≡ JobStatus.failed)
    × ((current (queued_job true) g).attempt_count ≡ 3)
    × (length (opened_incidents g) ≡ 1)
    × ((message : String) × ((retry (stored_env true) "job-1" "op-7" g).0
          ≡ err (bad_request message)))
    × ((retry (stored_env true) "job-1" "op-7" g).1 ≡ job_find_one "job-1" ∷ g)
unfolding get
live_exhausts_example =
    live_exhausts (stored_env-Database true) (stored_env-Inserts true) 2 "op-7" refl refl

-- the first attempt has written that it failed, and still has the lock
abbrev failing : List Call
failing =
    Calls.job_save (record (queued_job true) { status = JobStatus.failed; attempt_count = 1 })
    ∷ Calls.redis_set_nx (lock_key "job-1") "1" 60
    ∷ []

-- the lock is still held when the retry has sent its message
failing-busy :
    (stored_env true).answer
      (retry (stored_env true) "job-1" "op-9" failing).1
      (Calls.redis_set_nx (lock_key "job-1") "1" 60)
    ≡ ok none
failing-busy =
    let (_, after) = retry_lem (stored_env-Database true) failing "op-9" refl refl (omega arith) in
    ap (λ calls. ok (if is_held (lock_key "job-1") calls then none else some "OK")) after.locks

retry_stays_queued_example :
    let g = (retry (stored_env true) "job-1" "op-9" failing).1 in
    let job = requeued (current (queued_job true) failing) in
    ((retry (stored_env true) "job-1" "op-9" failing).0 ≡ ok job)
    × (deliver (stored_env true) g
        ≡ (ok tt, Calls.ack ∷ Calls.redis_set_nx (lock_key "job-1") "1" 60 ∷ g))
    × (current (queued_job true) (deliver (stored_env true) g).1 ≡ job)
    × ((again : String)
        → (message : String) × ((retry
              (stored_env true)
              "job-1"
              again
              (deliver (stored_env true) g).1).0
            ≡ err (bad_request message)))
retry_stays_queued_example =
    retry_stays_queued (stored_env-Database true) failing "op-9" refl refl (omega arith)
      (failing-busy)

abbrev first_input : ProcessJobInput
first_input = record { job_id = "job-1"; reason = "created"; requested_by = "op-7" }

first-Loads : Loads (stored_env true) first_input [] (queued_job true)
first-Loads = record { client = refl; lock = refl; job = refl }

process_finishes_example :
    ((process (stored_env true) first_input []).0 ≡ ok tt)
    × Settled (queued_job true) [] [] (process (stored_env true) first_input []).1
process_finishes_example = process_finishes (stored_env-Works true) first_input [] first-Loads

-- the second attempt of three has failed, and has given its lock back
abbrev failed_twice : List Call
failed_twice =
    Calls.redis_del (lock_key "job-1")
    ∷ Calls.job_save (record (queued_job true) { status = JobStatus.failed; attempt_count = 2 })
    ∷ []

failed_twice-Idle : Idle (stored_env true) (queued_job true) 2 failed_twice
failed_twice-Idle = record {
  id = refl;
  payload = refl;
  max_attempts = refl;
  counted = refl;
  released = refl;
}

races_exceed_example :
    let g = (raced_retries (stored_env true) "job-1" "op-7" "op-9" failed_twice).1 in
    let k = (both_handed (stored_env true) "job-1" "op-7" "op-9" g).1 in
    ((raced_retries (stored_env true) "job-1" "op-7" "op-9" failed_twice).0 ≡ ok tt)
    × (queue_messages g
        ≡ (jobs_processing, job_message "job-1" "retry" "op-9")
          ∷ (jobs_processing, job_message "job-1" "retry" "op-7")
          ∷ [])
    × ((both_handed (stored_env true) "job-1" "op-7" "op-9" g).0 ≡ ok tt)
    × ((current (queued_job true) k).attempt_count ≡ (current (queued_job true) k).max_attempts + 1)
    × (length (opened_incidents k) ≡ 2)
unfolding get
races_exceed_example =
    races_exceed (stored_env-Database true) 2 failed_twice "op-7" "op-9" failed_twice-Idle refl refl
      refl

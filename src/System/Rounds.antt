-- ===== src/System/Rounds.antt =====
-- A job from its creation to its end, through any number of retries.
use realtime_ops_platform.Prelude.{
  ℕ, zero, suc, ◌+◌, ◌<◌, String, List, ◌∷◌, ◌≡◌, subst, ◌∙◌, ap, Option, none, some, arith, length,
}
use realtime_ops_platform.Core.Value.{Fields}
use realtime_ops_platform.Core.Entities.{JobEntity}
use realtime_ops_platform.Runtime.Calls.{Call}
use realtime_ops_platform.Runtime.Monad.{Env, ok, ◌>>=◌}
use realtime_ops_platform.Runtime.Observe.{queue_messages, opened_incidents}
use realtime_ops_platform.Messaging.{jobs_processing}
use realtime_ops_platform.Jobs.Service.{retry, requeued, job_message}
use realtime_ops_platform.Jobs.Rows.{evaluate_failure}
use realtime_ops_platform.System.{deliver, rounds}
use realtime_ops_platform.System.Database.{current, Database}
use realtime_ops_platform.System.Delivery.{deliver_run, Retried, retry_lem}
use realtime_ops_platform.System.Attempts.{
  ended_by, incidents_by, Ended, Idle, Ended-Idle, hand-Ended, Retried-Idle,
}

-- what a delivery relies on: no worker has the job, and a message for it was sent last
pub record Waiting (env : Env) (stored : JobEntity) (n : ℕ) (h : List Call) : Type 0 where
  pub idle : Idle env stored n h
  pub sent :
      (queue : String) × (reason : String) × (operator_id : String) × (rest : List
        (String × Fields))
      × (queue_messages h ≡ (queue, job_message stored.id reason operator_id) ∷ rest)

module _ {env : Env} {stored : JobEntity} (db : Database env stored) where
  deliver-Ended :
      (h : List Call) (n : ℕ)
      → Waiting env stored n h
      → ((deliver env h).0 ≡ ok tt) × Ended env stored (n + 1) h (deliver env h).1
  deliver-Ended h n w =
      let (queue, reason, operator_id, rest, sent) = w.sent in
      rw (deliver_run db h queue reason operator_id rest sent)
        (hand-Ended db h n reason operator_id w.idle)

  Retried-Waiting :
      (n : ℕ) (h g k : List Call) (operator_id : String)
      → Ended env stored n h g
      → Retried db (current stored g) operator_id g k
      → Waiting env stored n k
  Retried-Waiting n h g k operator_id e r = record {
    idle = Retried-Idle db n (Ended-Idle e) e.released r;
    sent = (jobs_processing, "retry", operator_id, queue_messages g, r.sent);
  }

  rounds_run :
      (n : ℕ) (operator_id : String) (h : List Call) {job : JobEntity}
      → (rounds env n stored.id operator_id h).0 ≡ ok tt
      → (retry env stored.id operator_id (rounds env n stored.id operator_id h).1).0 ≡ ok job
      → rounds env (suc n) stored.id operator_id h
        ≡ deliver env (retry env stored.id operator_id (rounds env n stored.id operator_id h).1).1
  unfolding rounds ◌>>=◌
  rounds_run n operator_id h e f = ground arith

  -- the incidents of two attempts, the first of which was not the last allowed
  incidents_sum :
      (a b c d : ℕ) (n : ℕ) (failure : Option String)
      → n < stored.max_attempts
      → b ≡ a + incidents_by failure n stored.max_attempts
      → d ≡ b + c
      → d ≡ a + c
  incidents_sum a b c d n none left e f = omega (arith, e, f)
  incidents_sum a b c d n (some m) left e f = ground (arith, e, f)

  -- A retry of a failed job that has attempts left, and its delivery.
  again-Ended :
      (n : ℕ) (operator_id : String) (h g : List Call) (message : String)
      → Ended env stored n h g
      → n < stored.max_attempts
      → evaluate_failure stored n ≡ some message
      → ((retry env stored.id operator_id g).0 ≡ ok (requeued (current stored g)))
        × ((deliver env (retry env stored.id operator_id g).1).0 ≡ ok tt)
        × Ended env stored (n + 1) h (deliver env (retry env stored.id operator_id g).1).1
  again-Ended n operator_id h g message e left failed =
      let (returned, r) =
        retry_lem db g operator_id e.id (e.status ∙ ap ended_by failed)
          (omega (arith, e.counted, e.max_attempts, left)) in
      let k = (retry env stored.id operator_id g).1 in
      let (delivered, d) = deliver-Ended k n (Retried-Waiting n h g k operator_id e r) in
      (
        returned,
        delivered,
        record {
          id = d.id;
          payload = d.payload;
          max_attempts = d.max_attempts;
          counted = d.counted;
          status = d.status;
          released = d.released;
          incidents =
              incidents_sum (length (opened_incidents h)) (length (opened_incidents g)) _ _ n
                (evaluate_failure stored n) left e.incidents
                (d.incidents
                  ∙ ap
                      (λ i.
                        length i
                        + incidents_by (evaluate_failure stored (n + 1)) (n + 1)
                            stored.max_attempts)
                      r.incidents);
        },
      )

  pub rounds-Ended :
      (n : ℕ) (operator_id : String) (h : List Call)
      → Waiting env stored 0 h
      → n < stored.max_attempts
      → ((m : ℕ) → m < n → (message : String) × (evaluate_failure stored (m + 1) ≡ some message))
      → ((rounds env n stored.id operator_id h).0 ≡ ok tt)
        × Ended env stored (n + 1) h (rounds env n stored.id operator_id h).1
  unfolding rounds
  rounds-Ended zero operator_id h w left fails = deliver-Ended h 0 w
  rounds-Ended (suc n) operator_id h w left fails =
      let (returned, e) =
        rounds-Ended n operator_id h w (omega (arith, left)) (λ m l. fails m (omega (arith, l))) in
      let (message, failed) = fails n (omega arith) in
      let (retried, delivered, d) =
        again-Ended (n + 1) operator_id h _ message e (omega (arith, left)) failed in
      let count : n + 1 + 1 ≡ suc n + 1 = omega arith in
      rw (rounds_run n operator_id h returned retried) (
        delivered,
        subst
            (λ m.
              Ended env stored m h
                (deliver env
                  (retry env stored.id operator_id (rounds env n stored.id operator_id h).1).1).1)
            count d,
      )

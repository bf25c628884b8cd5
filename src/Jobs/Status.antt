-- ===== src/Jobs/Status.antt =====
-- libs/application/src/jobs/processing-status.service.ts. `Promise.all` is given its seven promises at
-- once: each makes its call before any of them is awaited. Of several that are rejected, the first to
-- be is thrown; which one that is, is left to the time that they take, and here it is the first in the
-- list. `Number` of a text is the argument `to_number`.
use realtime_ops_platform.Prelude.{
  drop, ℕ, String, List, ◌∷◌, ◌≡◌, refl, ◌⊎◌, inl, inr, Option, none, some, str_eq, if◌then◌else◌,
  arith,
}
use realtime_ops_platform.Core.Enums.{JobStatus, AlertStatus, IncidentStatus}
use realtime_ops_platform.Core.Value.{
  Value, Fields, Number, undefined, get, null, num, int, iso, obj, end, field,
}
use realtime_ops_platform.Runtime.Calls.{
  Call, Answer, job_count, alert_count, incident_count, attempt_average, read_clock,
}
use realtime_ops_platform.Runtime.Monad.{
  Env, Exception, M, Outcome, ok, err, ◌>>=◌, pure, throw, now,
}
use realtime_ops_platform.Runtime.Triple.{outcome_cases}

-- the outcome of a promise that is awaited later
unfoldable pub start : Env → (c : Call) → M (Outcome (Answer c))
start env c h = (ok (env.answer h c), c ∷ h)

-- `await` of one that was started
unfoldable pub settle : {A : Type 0} → Outcome A → M A
settle (ok a) = pure a
settle (err e) = throw e

-- `avgDuration?.avg ? Number(avgDuration.avg) : null`
abbrev pub average_value : (String → Number) → Option (Option String) → Value
average_value to_number none = null
average_value to_number (some none) = null
average_value to_number (some (some avg)) = if str_eq avg "" then null else num (to_number avg)

-- the result, from the answers and the date
abbrev pub summary : ℕ → ℕ → ℕ → ℕ → ℕ → ℕ → Value → ℕ → Fields
summary queued processing completed failed open_alerts open_incidents average timestamp =
    field "jobs"
      (obj (
        field "queued" (int queued) (
          field "processing" (int processing)
            (field "completed" (int completed) (field "failed" (int failed) end)))))
      (field "alerts" (obj (field "open" (int open_alerts) end)) (
        field "incidents" (obj (field "open" (int open_incidents) end)) (
          field "performance" (obj (field "averageAttemptDurationMs" average end))
            (field "timestamp" (iso timestamp) end))))

-- `view[outer][inner]`
abbrev pub inner_value : String → Value → Value
inner_value inner (obj fields) = get inner fields
inner_value inner _ = undefined

abbrev pub at_path : String → String → Fields → Value
at_path outer inner view = inner_value inner (get outer view)

-- the number of the average, and null where there is none: no row, no attempts, or no text
abbrev pub average_shown_as : (String → Number) → Option (Option String) → Value
average_shown_as to_number (some (some avg)) = if str_eq avg "" then null else num (to_number avg)
average_shown_as to_number _ = null

average_value_lem :
    (to_number : String → Number) (average : Option (Option String))
    → average_value to_number average ≡ average_shown_as to_number average
average_value_lem to_number none = refl
average_value_lem to_number (some none) = refl
average_value_lem to_number (some (some avg)) = refl

abbrev Answered : {A : Type 0} → Outcome A → Type 0
Answered {A} o = (a : A) × (o ≡ ok a)

answered : {A : Type 0} (o : Outcome A) → ((x : Exception) → ¬ (o ≡ err x)) → Answered o
answered (ok a) never = (a, refl)
answered (err x) never = absurd (never x refl)

module _ (env : Env) (to_number : String → Number) where
  unfoldable pub get_status_summary : M Fields
  unfolding start settle
  get_status_summary = do
    started_queued ← start env (job_count JobStatus.queued)
    started_processing ← start env (job_count JobStatus.processing)
    started_completed ← start env (job_count JobStatus.completed)
    started_failed ← start env (job_count JobStatus.failed)
    started_alerts ← start env (alert_count AlertStatus.opened)
    started_incidents ← start env (incident_count IncidentStatus.opened)
    started_average ← start env attempt_average
    queued ← settle started_queued
    processing ← settle started_processing
    completed ← settle started_completed
    failed ← settle started_failed
    open_alerts ← settle started_alerts
    open_incidents ← settle started_incidents
    average ← settle started_average
    timestamp ← now env
    pure (
        summary queued processing completed failed open_alerts open_incidents
          (average_value to_number average) timestamp)

  -- the seven calls, over those before
  abbrev pub counted : List Call → List Call
  counted h =
      attempt_average
      ∷ incident_count IncidentStatus.opened
      ∷ alert_count AlertStatus.opened
      ∷ job_count JobStatus.failed
      ∷ job_count JobStatus.completed
      ∷ job_count JobStatus.processing
      ∷ job_count JobStatus.queued
      ∷ h

  summary_run :
      (h : List Call) {view : Fields}
      → (get_status_summary h).0 ≡ ok view
      → (get_status_summary h).1 ≡ read_clock ∷ counted h
  unfolding get_status_summary ◌>>=◌
  summary_run h e = ground (arith, e)

  summary_fails :
      (h : List Call) {x : Exception}
      → (get_status_summary h).0 ≡ err x
      → (get_status_summary h).1 ≡ counted h
  unfolding get_status_summary ◌>>=◌
  summary_fails h e = ground (arith, e)

  -- The seven answers, and where the result shows them.
  pub record Reads (h : List Call) (view : Fields) : Type 0 where
    pub queued : ℕ
    pub processing : ℕ
    pub completed : ℕ
    pub failed : ℕ
    pub open_alerts : ℕ
    pub open_incidents : ℕ
    pub average : Option (Option String)
    pub queued_answer : env.answer h (job_count JobStatus.queued) ≡ ok queued
    pub processing_answer :
        env.answer (drop 6 (counted h)) (job_count JobStatus.processing) ≡ ok processing
    pub completed_answer :
        env.answer (drop 5 (counted h)) (job_count JobStatus.completed) ≡ ok completed
    pub failed_answer : env.answer (drop 4 (counted h)) (job_count JobStatus.failed) ≡ ok failed
    pub open_alerts_answer :
        env.answer (drop 3 (counted h)) (alert_count AlertStatus.opened) ≡ ok open_alerts
    pub open_incidents_answer :
        env.answer (drop 2 (counted h)) (incident_count IncidentStatus.opened) ≡ ok open_incidents
    pub average_answer : env.answer (drop 1 (counted h)) attempt_average ≡ ok average
    pub queued_shown : at_path "jobs" "queued" view ≡ int queued
    pub processing_shown : at_path "jobs" "processing" view ≡ int processing
    pub completed_shown : at_path "jobs" "completed" view ≡ int completed
    pub failed_shown : at_path "jobs" "failed" view ≡ int failed
    pub alerts_shown : at_path "alerts" "open" view ≡ int open_alerts
    pub incidents_shown : at_path "incidents" "open" view ≡ int open_incidents
    pub average_shown :
        at_path "performance" "averageAttemptDurationMs" view ≡ average_shown_as to_number average
    pub timestamp_shown : get "timestamp" view ≡ iso (env.clock (counted h))

  summary_answered :
      (h : List Call) {queued processing completed failed open_alerts open_incidents : ℕ}
      {average : Option (Option String)}
      → env.answer h (job_count JobStatus.queued) ≡ ok queued
      → env.answer (drop 6 (counted h)) (job_count JobStatus.processing) ≡ ok processing
      → env.answer (drop 5 (counted h)) (job_count JobStatus.completed) ≡ ok completed
      → env.answer (drop 4 (counted h)) (job_count JobStatus.failed) ≡ ok failed
      → env.answer (drop 3 (counted h)) (alert_count AlertStatus.opened) ≡ ok open_alerts
      → env.answer (drop 2 (counted h)) (incident_count IncidentStatus.opened) ≡ ok open_incidents
      → env.answer (drop 1 (counted h)) attempt_average ≡ ok average
      → (get_status_summary h).0
        ≡ ok (
            summary queued processing completed failed open_alerts open_incidents
              (average_value to_number average)
              (env.clock (counted h)))
  unfolding get_status_summary ◌>>=◌
  summary_answered h e0 e1 e2 e3 e4 e5 e6 = ground arith

  all_answered :
      (h : List Call) {view : Fields}
      → (get_status_summary h).0 ≡ ok view
      → Answered (env.answer h (job_count JobStatus.queued))
        × Answered (env.answer (drop 6 (counted h)) (job_count JobStatus.processing))
        × Answered (env.answer (drop 5 (counted h)) (job_count JobStatus.completed))
        × Answered (env.answer (drop 4 (counted h)) (job_count JobStatus.failed))
        × Answered (env.answer (drop 3 (counted h)) (alert_count AlertStatus.opened))
        × Answered (env.answer (drop 2 (counted h)) (incident_count IncidentStatus.opened))
        × Answered (env.answer (drop 1 (counted h)) attempt_average)
  unfolding get_status_summary ◌>>=◌
  all_answered h e = (
    answered _ (λ x f. ground (arith, e, f)),
    answered _ (λ x f. ground (arith, e, f)),
    answered _ (λ x f. ground (arith, e, f)),
    answered _ (λ x f. ground (arith, e, f)),
    answered _ (λ x f. ground (arith, e, f)),
    answered _ (λ x f. ground (arith, e, f)),
    answered _ (λ x f. ground (arith, e, f)),
  )

  shown_reads :
      (h : List Call) {view : Fields} (q p c f a i : ℕ) (average : Option (Option String)) (t : ℕ)
      → view ≡ summary q p c f a i (average_value to_number average) t
      → (at_path "jobs" "queued" view ≡ int q)
        × (at_path "jobs" "processing" view ≡ int p)
        × (at_path "jobs" "completed" view ≡ int c)
        × (at_path "jobs" "failed" view ≡ int f)
        × (at_path "alerts" "open" view ≡ int a)
        × (at_path "incidents" "open" view ≡ int i)
        × (at_path "performance" "averageAttemptDurationMs" view
            ≡ average_shown_as to_number average)
        × (get "timestamp" view ≡ iso t)
  unfolding get
  shown_reads h q p c f a i average t e =
      rw e (refl, refl, refl, refl, refl, refl, average_value_lem to_number average, refl)

  summary-Reads :
      (h : List Call) {view : Fields} → (get_status_summary h).0 ≡ ok view → Reads h view
  summary-Reads h e =
      let (
        (queued, e0),
        (processing, e1),
        (completed, e2),
        (failed, e3),
        (open_alerts, e4),
        (open_incidents, e5),
        (average, e6),
      ) =
        all_answered h e in
      let run = summary_answered h e0 e1 e2 e3 e4 e5 e6 in
      let (s0, s1, s2, s3, s4, s5, s6, s7) =
        shown_reads h queued processing completed failed open_alerts open_incidents average
          (env.clock (counted h)) (cc) in
      record {
        queued = queued;
        processing = processing;
        completed = completed;
        failed = failed;
        open_alerts = open_alerts;
        open_incidents = open_incidents;
        average = average;
        queued_answer = e0;
        processing_answer = e1;
        completed_answer = e2;
        failed_answer = e3;
        open_alerts_answer = e4;
        open_incidents_answer = e5;
        average_answer = e6;
        queued_shown = s0;
        processing_shown = s1;
        completed_shown = s2;
        failed_shown = s3;
        alerts_shown = s4;
        incidents_shown = s5;
        average_shown = s6;
        timestamp_shown = s7;
      }

  -- `getStatusSummary` makes its seven calls whatever they are answered. When it returns, all of them
  -- were answered, and the result shows the four counts of jobs by status, the counts of open alerts and
  -- of open incidents, the average as a number or null, and the date after the calls, each under its
  -- own names; when it throws, it has made no other call.
  pub get_status_summary-Reads :
      (h : List Call)
      → ((view : Fields) × ((get_status_summary h).0 ≡ ok view)
          × ((get_status_summary h).1 ≡ read_clock ∷ counted h)
          × Reads h view)
        ⊎ ((x : Exception) × ((get_status_summary h).0 ≡ err x)
            × ((get_status_summary h).1 ≡ counted h))
  get_status_summary-Reads h = elim (outcome_cases (get_status_summary h).0) [
    | inl (view, e) ↦ inl (view, e, summary_run h e, summary-Reads h e)
    | inr (x, e) ↦ inr (x, e, summary_fails h e)
  ]

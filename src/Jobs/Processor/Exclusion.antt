-- ===== src/Jobs/Processor/Exclusion.antt =====
-- Several workers at one job: the calls that `process` of job-processor.service.ts makes to Redis, as any
-- number of runs of it make them in any order.
use realtime_ops_platform.Prelude.{
  ℕ, String, Bool, true, ◌&&◌, List, [], ◌∷◌, ◌++◌, ◌≡◌, ◌≢◌, ap, ◌∙◌, ◌⊎◌, inl, inr, arith,
  Bool-cases,
}
use realtime_ops_platform.Runtime.Calls.{Call, redis_set_nx, redis_del}
use realtime_ops_platform.Runtime.Monad.{Env}
use realtime_ops_platform.Runtime.Observe.{lock_calls}
use realtime_ops_platform.Jobs.Rows.{ProcessJobInput, lock_key}
use realtime_ops_platform.Jobs.Processor.{process}
use realtime_ops_platform.Jobs.Processor.Locking.{is_granted, lock_request, bracketed, process_lock}
use realtime_ops_platform.Jobs.Processor.Locks.{calls_of, Lawful, Shape, request, exclusive}

module _ {A : Type 0} where
  suffix_none : (rest xs : List A) → rest ++ xs ≡ [] → xs ≡ []
  suffix_none [] xs e = e
  suffix_none (x ∷ rest) xs e = absurd (cc)

  suffix_one : (rest xs : List A) (a : A) → rest ++ xs ≡ a ∷ [] → (xs ≡ []) ⊎ (xs ≡ a ∷ [])
  suffix_one [] xs a e = inr e
  suffix_one (x ∷ rest) xs a e = inl (suffix_none rest xs (ground (arith, e)))

  suffix_two :
      (rest xs : List A) (a b : A)
      → rest ++ xs ≡ b ∷ a ∷ []
      → (xs ≡ []) ⊎ (xs ≡ a ∷ []) ⊎ (xs ≡ b ∷ a ∷ [])
  suffix_two [] xs a b e = inr (inr e)
  suffix_two (x ∷ rest) xs a b e = elim (suffix_one rest xs a (ground (arith, e))) [
    | inl f ↦ inl f
    | inr f ↦ inr (inl f)
  ]

module _ (env : ℕ → Env) (input : ℕ → ProcessJobInput) (job_id : String) where
  -- worker `w` is granted the lock that it requests
  abbrev pub has_lock : ℕ → Bool
  has_lock w = (env w).has_client && is_granted ((env w).answer [] (lock_request (input w)))

  -- Worker `w` has made the first of the calls that its run of `process` makes to Redis, and `rest` is
  -- what it has still to make.
  abbrev pub Runs : ℕ → List (ℕ × Call) → Type 0
  Runs w es =
      (rest : List Call) × (rest ++ calls_of w es ≡ lock_calls (process (env w) (input w) []).1)

  -- The worker was granted the lock, and has not released it: its attempt is under way.
  abbrev pub Inside : ℕ → List (ℕ × Call) → Type 0
  Inside w es = (has_lock w ≡ true) × (calls_of w es ≡ lock_request (input w) ∷ [])

  -- the calls to Redis of a whole run
  Runs-bracketed :
      (w : ℕ) (es : List (ℕ × Call))
      → (runs : Runs w es) → runs.0 ++ calls_of w es ≡ bracketed (env w) (input w) []
  Runs-bracketed w es (rest, e) = e ∙ (process_lock (env w) (input w) []).1

  pub Runs-Shape :
      (w : ℕ) (es : List (ℕ × Call))
      → (input w).job_id ≡ job_id
      → Runs w es
      → Shape has_lock (lock_key job_id) w (calls_of w es)
  Runs-Shape w es same runs =
      let e = Runs-bracketed w es runs in
      let rest = runs.0 in
      let key : lock_key (input w).job_id ≡ lock_key job_id = ap lock_key same in
      elim (Bool-cases (env w).has_client) [
        | inr off ↦ inl (suffix_none rest (calls_of w es) (e ∙ ground (arith, off)))
        | inl on ↦ elim (Bool-cases (is_granted ((env w).answer [] (lock_request (input w))))) [
          | inr denied ↦
              elim (suffix_one rest (calls_of w es) (lock_request (input w))
                (e ∙ ground (arith, on, denied))) [
                  | inl f ↦ inl f
                  | inr f ↦ inr (inl (f ∙ ap (λ k. redis_set_nx k "1" 60 ∷ []) key))
                ]
          | inl lock ↦
              elim (suffix_two rest (calls_of w es) (lock_request (input w))
                (redis_del (lock_key (input w).job_id)) (e ∙ ground (arith, on, lock))) [
                  | inl f ↦ inl f
                  | inr (inl f) ↦ inr (inl (f ∙ ap (λ k. redis_set_nx k "1" 60 ∷ []) key))
                  | inr (inr f) ↦ inr (
                      inr (
                        ground (arith, on, lock),
                        f ∙ ap (λ k. redis_del k ∷ redis_set_nx k "1" 60 ∷ []) key,
                      ))
                ]
        ]
      ]

  -- Any number of workers run `process` once each for the same job, and `es` is an interleaving of the
  -- calls to Redis that they have made so far. If Redis grants the lock only where nobody holds it, and no lock
  -- expires, then while one of them is inside its attempt, no other one is.
  pub one_worker-Inside :
      (es : List (ℕ × Call))
      → ((w : ℕ) → (input w).job_id ≡ job_id)
      → ((w : ℕ) → Runs w es)
      → Lawful has_lock es
      → (v w : ℕ) → v ≢ w
      → Inside v es
      → ¬ Inside w es
  one_worker-Inside es same runs lawful v w differ a = λ b.
      let key : (u : ℕ) → lock_request (input u) ∷ [] ≡ request has_lock (lock_key job_id) ∷ [] =
        λ u. ap (λ id. redis_set_nx (lock_key id) "1" 60 ∷ []) (same u) in
      let x =
        exclusive has_lock (lock_key job_id) es (λ u. Runs-Shape u es (same u) (runs u)) lawful in
      differ (x.one v w (a.0, a.1 ∙ key v) (b.0, b.1 ∙ key w))

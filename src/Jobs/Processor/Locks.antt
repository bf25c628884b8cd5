-- ===== src/Jobs/Processor/Locks.antt =====
-- One lock in Redis and any number of workers that request and release it: what the order of their calls
-- makes of it. It is the lock of libs/redis/src/redis-lock.service.ts as job-processor.service.ts uses it.
use realtime_ops_platform.Prelude.{
  ℕ, ◌==◌, String, Bool, true, false, ◌||◌, List, [], ◌∷◌, ◌≡◌, refl, sym, subst, ◌∙◌, ◌⊎◌, inl,
  inr, if◌then◌else◌, arith, Bool-cases,
}
use realtime_ops_platform.Runtime.Calls.{Call, redis_set_nx, redis_del}

-- the calls of one worker, of those of all workers, newest first
abbrev pub calls_of : ℕ → List (ℕ × Call) → List Call
calls_of w [] = []
calls_of w ((v, c) ∷ es) = let rest = calls_of w es in if v == w then c ∷ rest else rest

module _ (granted : ℕ → Bool) where
  -- the lock was granted to a worker, and not deleted since
  abbrev pub held : List (ℕ × Call) → Bool
  held [] = false
  held ((v, redis_del key) ∷ es) = false
  held ((v, redis_set_nx key value ttl) ∷ es) = granted v || held es
  held ((v, _) ∷ es) = held es

  -- Redis, for a lock that does not expire: a request is granted only where the lock is not held.
  abbrev pub Lawful : List (ℕ × Call) → Type 0
  Lawful [] = Unit
  Lawful ((v, redis_set_nx key value ttl) ∷ es) = (granted v ≡ true → held es ≡ false) × Lawful es
  Lawful ((v, _) ∷ es) = Lawful es

  module _ (key : String) where
    abbrev pub request : Call
    request = redis_set_nx key "1" 60

    -- what a worker has made of the calls of a run: none, its request, or the release too
    abbrev pub Shape : ℕ → List Call → Type 0
    Shape w cs =
        (cs ≡ []) ⊎ (cs ≡ request ∷ []) ⊎ ((granted w ≡ true) × (cs ≡ redis_del key ∷ request ∷ []))

    abbrev pub InsideOf : ℕ → List (ℕ × Call) → Type 0
    InsideOf w es = (granted w ≡ true) × (calls_of w es ≡ request ∷ [])

    -- the last call of a worker
    pub Shape-step :
        (w : ℕ) (c : Call) (cs : List Call)
        → Shape w (c ∷ cs)
        → ((c ≡ request) × (cs ≡ []))
          ⊎ ((granted w ≡ true) × (c ≡ redis_del key) × (cs ≡ request ∷ []))
    Shape-step w c cs (inl e) = absurd (cc)
    Shape-step w c cs (inr (inl e)) = inl (ground (arith, e), ground (arith, e))
    Shape-step w c cs (inr (inr (g, e))) = inr (g, ground (arith, e), ground (arith, e))

    Shape-rest : (w : ℕ) (c : Call) (cs : List Call) → Shape w (c ∷ cs) → Shape w cs
    Shape-rest w c cs s = elim (Shape-step w c cs s) [
      | inl (_, e) ↦ inl e
      | inr (_, _, e) ↦ inr (inl e)
    ]

    pub calls_of_self :
        (w : ℕ) (c : Call) (es : List (ℕ × Call)) → calls_of w ((w, c) ∷ es) ≡ c ∷ calls_of w es
    calls_of_self w c es = ground arith

    pub calls_of_other :
        (v w : ℕ) (c : Call) (es : List (ℕ × Call))
        → (v == w) ≡ false
        → calls_of w ((v, c) ∷ es) ≡ calls_of w es
    calls_of_other v w c es e = ground (arith, e)

    pub same_or_other : (v w : ℕ) → (v ≡ w) ⊎ ((v == w) ≡ false)
    same_or_other v w = elim (Bool-cases (v == w)) [
      | inl e ↦ inl (ground (arith, e))
      | inr e ↦ inr e
    ]

    -- at most one worker is inside, and the lock is held while one is
    pub record Exclusive (es : List (ℕ × Call)) : Type 0 where
      pub locked : (w : ℕ) → InsideOf w es → held es ≡ true
      pub one : (v w : ℕ) → InsideOf v es → InsideOf w es → v ≡ w

    -- what another worker does leaves a worker inside or outside
    InsideOf-other :
        (u w : ℕ) (c : Call) (es : List (ℕ × Call))
        → (u == w) ≡ false
        → InsideOf w ((u, c) ∷ es)
        → InsideOf w es
    InsideOf-other u w c es other (g, e) = (g, sym (calls_of_other u w c es other) ∙ e)

    granted-Exclusive :
        (u : ℕ) (es : List (ℕ × Call))
        → granted u ≡ true
        → held es ≡ false
        → Exclusive es
        → Exclusive ((u, request) ∷ es)
    granted-Exclusive u es g free x =
        let only : (w : ℕ) → InsideOf w ((u, request) ∷ es) → u ≡ w = λ w i.
          elim (same_or_other u w) [
            | inl e ↦ e
            | inr other ↦
                absurd (let locked = x.locked w (InsideOf-other u w request es other i) in cc)
          ] in
        record { locked = λ w i. rw g refl; one = λ v w i j. sym (only v i) ∙ only w j }

    refused-Exclusive :
        (u : ℕ) (es : List (ℕ × Call))
        → granted u ≡ false
        → Exclusive es
        → Exclusive ((u, request) ∷ es)
    refused-Exclusive u es g x =
        let below : (w : ℕ) → InsideOf w ((u, request) ∷ es) → InsideOf w es = λ w i.
          elim (same_or_other u w) [
            | inl e ↦ absurd (let mine = i.0 in cc)
            | inr other ↦ InsideOf-other u w request es other i
          ] in
        record {
          locked = λ w i. rw g (x.locked w (below w i));
          one = λ v w i j. x.one v w (below v i) (below w j);
        }

    differs : (u w : ℕ) → (u == w) ≡ false → ¬ (u ≡ w)
    differs u w other e = absurd (ground (arith, other, e))

    released : (u w : ℕ) (es : List (ℕ × Call)) → u ≡ w → ¬ InsideOf w ((u, redis_del key) ∷ es)
    released u w es e (g, f) =
        absurd (let self = calls_of_self w (redis_del key) es in ground (arith, e, f, self))

    released-Exclusive :
        (u : ℕ) (es : List (ℕ × Call))
        → InsideOf u es
        → Exclusive es
        → Exclusive ((u, redis_del key) ∷ es)
    released-Exclusive u es inside x =
        let nobody : (w : ℕ) → ¬ InsideOf w ((u, redis_del key) ∷ es) = λ w i.
          elim (same_or_other u w) [
            | inl e ↦ released u w es e i
            | inr other ↦
                differs u w other (x.one u w inside (InsideOf-other u w (redis_del key) es other i))
          ] in
        record { locked = λ w i. absurd (nobody w i); one = λ v w i j. absurd (nobody v i) }

    Exclusive-step :
        (u : ℕ) (c : Call) (es : List (ℕ × Call))
        → Shape u (calls_of u ((u, c) ∷ es))
        → Lawful ((u, c) ∷ es)
        → Exclusive es
        → Exclusive ((u, c) ∷ es)
    Exclusive-step u c es shape lawful x =
        elim (Shape-step u c (calls_of u es) (subst (Shape u) (calls_of_self u c es) shape)) [
          | inr (g, e, f) ↦
              subst (λ d. Exclusive ((u, d) ∷ es)) (sym e) (released-Exclusive u es (g, f) x)
          | inl (e, f) ↦
              subst (λ d. Exclusive ((u, d) ∷ es)) (sym e)
                (elim (Bool-cases (granted u)) [
                  | inl g ↦
                      granted-Exclusive u es g ((subst (λ d. Lawful ((u, d) ∷ es)) e lawful).0 g) x
                  | inr g ↦ refused-Exclusive u es g x
                ])
        ]

    Lawful-rest : (u : ℕ) (c : Call) (es : List (ℕ × Call)) → Lawful ((u, c) ∷ es) → Lawful es
    Lawful-rest u (redis_set_nx _ _ _) es (_, l) = l
    Lawful-rest u _ es l = l

    pub Shape-below :
        (u w : ℕ) (c : Call) (es : List (ℕ × Call))
        → Shape w (calls_of w ((u, c) ∷ es))
        → Shape w (calls_of w es)
    Shape-below u w c es s = elim (same_or_other u w) [
      | inl e ↦ Shape-rest w c (calls_of w es) (subst (Shape w) (ground (arith, e)) s)
      | inr other ↦ subst (Shape w) (calls_of_other u w c es other) s
    ]

    pub exclusive :
        (es : List (ℕ × Call)) → ((w : ℕ) → Shape w (calls_of w es)) → Lawful es → Exclusive es
    exclusive [] shapes lawful = record {
      locked = λ w i. absurd (let f = i.1 in cc);
      one = λ v w i j. absurd (let f = i.1 in cc);
    }
    exclusive ((u, c) ∷ es) shapes lawful =
        Exclusive-step u c es (shapes u) lawful
          (exclusive es (λ w. Shape-below u w c es (shapes w)) (Lawful-rest u c es lawful))

-- ===== src/Jobs/Processor/Leases.antt =====
-- The lock of Locks with its time to live: Redis deletes it 60 seconds after it was granted. Each call has
-- the time at which Redis answers it, in milliseconds.
use realtime_ops_platform.Prelude.{
  ℕ, ◌+◌, ◌*◌, ◌<◌, ltb, ◌==◌, String, Bool, true, false, List, [], ◌∷◌, ◌≡◌, sym, subst, ◌∙◌, ap,
  ◌⊎◌, inl, inr, if◌then◌else◌, arith, Bool-cases,
}
use realtime_ops_platform.Runtime.Calls.{Call, redis_set_nx, redis_del}
use realtime_ops_platform.Jobs.Processor.Locks.{
  calls_of, held, Lawful, Shape, Shape-step, Shape-below, calls_of_self, calls_of_other,
  same_or_other, InsideOf, request,
}

-- the calls of all workers, without their times
abbrev pub untimed : List (ℕ × ℕ × Call) → List (ℕ × Call)
untimed [] = []
untimed ((t, v, c) ∷ es) = (v, c) ∷ untimed es

-- when a worker asked for the lock
abbrev pub asked_at : ℕ → List (ℕ × ℕ × Call) → ℕ
asked_at w [] = 0
asked_at w ((t, v, redis_set_nx key value ttl) ∷ es) =
    let before = asked_at w es in if v == w then t else before
asked_at w (_ ∷ es) = asked_at w es

module _ (granted : ℕ → Bool) where
  -- at the time `now`, after these calls, the lock is there
  abbrev pub held_at : ℕ → List (ℕ × ℕ × Call) → Bool
  held_at now [] = false
  held_at now ((t, v, redis_del key) ∷ es) = false
  held_at now ((t, v, redis_set_nx key value ttl) ∷ es) =
      let before = held_at now es in if granted v then ltb now (t + ttl * 1000) else before
  held_at now (_ ∷ es) = held_at now es

  -- Redis: a request is granted only where the lock is not there at its time.
  abbrev pub Timely : List (ℕ × ℕ × Call) → Type 0
  Timely [] = Unit
  Timely ((t, v, redis_set_nx key value ttl) ∷ es) =
      (granted v ≡ true → held_at t es ≡ false) × Timely es
  Timely (_ ∷ es) = Timely es

  module _ (key : String) where
    -- No attempt outlasts its lock: at the time of each call, every worker that is inside asked for the
    -- lock less than 60 seconds before.
    abbrev pub Punctual : List (ℕ × ℕ × Call) → Type 0
    Punctual [] = Unit
    Punctual ((t, v, c) ∷ es) =
        ((w : ℕ) → InsideOf granted key w (untimed es) → t < asked_at w es + 60000) × Punctual es

    abbrev Shapes : List (ℕ × ℕ × Call) → Type 0
    Shapes es = (w : ℕ) → Shape granted key w (calls_of w (untimed es))

    Shapes-below :
        (t u : ℕ) (c : Call) (es : List (ℕ × ℕ × Call)) → Shapes ((t, u, c) ∷ es) → Shapes es
    Shapes-below t u c es shapes w = Shape-below granted key u w c (untimed es) (shapes w)

    -- what the call of a worker is, by the shape of its calls
    Shapes-step :
        (t u : ℕ) (c : Call) (es : List (ℕ × ℕ × Call))
        → Shapes ((t, u, c) ∷ es)
        → ((c ≡ request granted key) × (calls_of u (untimed es) ≡ []))
          ⊎ ((granted u ≡ true)
              × (c ≡ redis_del key)
              × (calls_of u (untimed es) ≡ request granted key ∷ []))
    Shapes-step t u c es shapes =
        Shape-step granted key u c (calls_of u (untimed es))
          (subst (Shape granted key u) (calls_of_self granted key u c (untimed es)) (shapes u))

    -- The lock is held by a worker that is inside, until 60 seconds after it asked for it.
    abbrev HeldBy : List (ℕ × ℕ × Call) → Type 0
    HeldBy es =
        (w : ℕ) × InsideOf granted key w (untimed es)
        × ((now : ℕ) → held_at now es ≡ ltb now (asked_at w es + 60000))

    asked-HeldBy :
        (t u : ℕ) (es : List (ℕ × ℕ × Call))
        → granted u ≡ true
        → calls_of u (untimed es) ≡ []
        → HeldBy ((t, u, request granted key) ∷ es)
    asked-HeldBy t u es g fresh = (
      u,
      (
        g,
        calls_of_self granted key u (request granted key) (untimed es)
            ∙ ap (λ cs. request granted key ∷ cs) fresh,
      ),
      λ now. ground (arith, g),
    )

    refused-HeldBy :
        (t u : ℕ) (es : List (ℕ × ℕ × Call))
        → granted u ≡ false
        → HeldBy es
        → HeldBy ((t, u, request granted key) ∷ es)
    refused-HeldBy t u es g (w, (h, inside), until) = elim (same_or_other granted key u w) [
      | inl e ↦ absurd (cc)
      | inr other ↦ (
        w,
        (h, calls_of_other granted key u w (request granted key) (untimed es) other ∙ inside),
        λ now. ground (arith, g, until now, other),
      )
    ]

    held-HeldBy :
        (es : List (ℕ × ℕ × Call)) → Shapes es → held granted (untimed es) ≡ true → HeldBy es
    held-HeldBy [] shapes = λ e. absurd (cc)
    held-HeldBy ((t, u, c) ∷ es) shapes = elim (Shapes-step t u c es shapes) [
      | inr (g, same, rest) ↦
          subst (λ d. held granted ((u, d) ∷ untimed es) ≡ true → HeldBy ((t, u, d) ∷ es))
            (sym same) (λ e. absurd (cc))
      | inl (same, fresh) ↦
          subst (λ d. held granted ((u, d) ∷ untimed es) ≡ true → HeldBy ((t, u, d) ∷ es))
            (sym same)
            (λ e. elim (Bool-cases (granted u)) [
              | inl g ↦ asked-HeldBy t u es g fresh
              | inr g ↦
                  refused-HeldBy t u es g
                    (held-HeldBy es (Shapes-below t u c es shapes) (ground (arith, e, g)))
            ])
    ]

    Timely-rest :
        (t u : ℕ) (c : Call) (es : List (ℕ × ℕ × Call)) → Timely ((t, u, c) ∷ es) → Timely es
    Timely-rest t u (redis_set_nx _ _ _) es (_, l) = l
    Timely-rest t u _ es l = l

    released_by_then :
        (t : ℕ) (es : List (ℕ × ℕ × Call))
        → Shapes es
        → held_at t es ≡ false
        → ((w : ℕ) → InsideOf granted key w (untimed es) → t < asked_at w es + 60000)
        → held granted (untimed es) ≡ false
    released_by_then t es below gone short = elim (Bool-cases (held granted (untimed es))) [
      | inr e ↦ e
      | inl e ↦
          let (w, inside, until) = held-HeldBy es below e in
          absurd (ground (arith, gone, until t, short w inside))
    ]

    -- For workers whose attempts do not outlast their locks, the times make no difference.
    pub untimed-Lawful :
        (es : List (ℕ × ℕ × Call))
        → Shapes es
        → Timely es
        → Punctual es
        → Lawful granted (untimed es)
    untimed-Lawful [] shapes timely punctual = tt
    untimed-Lawful ((t, u, c) ∷ es) shapes timely (short, punctual) =
        let below = Shapes-below t u c es shapes in
        let rest = untimed-Lawful es below (Timely-rest t u c es timely) punctual in
        elim (Shapes-step t u c es shapes) [
          | inr (g, same, r) ↦ subst (λ d. Lawful granted ((u, d) ∷ untimed es)) (sym same) rest
          | inl (same, fresh) ↦
              subst (λ d. Lawful granted ((u, d) ∷ untimed es)) (sym same)
                (
                  λ g.
                      released_by_then t es below
                        ((subst (λ d. Timely ((t, u, d) ∷ es)) same timely).0 g) short,
                  rest,
                )
        ]

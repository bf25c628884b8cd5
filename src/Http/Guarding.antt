-- ===== src/Http/Guarding.antt =====
-- Who reaches the methods of the API's controllers.
use realtime_ops_platform.Prelude.{
  String, List, ◌∷◌, ◌≡◌, refl, ◌≢◌, ap, ◌∙◌, false, Option, none, some, ◌⊎◌, inl, inr,
}
use realtime_ops_platform.Runtime.Calls.{Call, read_clock}
use realtime_ops_platform.Runtime.Monad.{
  Env, Run, Outcome, Exception, ok, err, unauthorized, and_then, ◌>>=◌,
}
use realtime_ops_platform.Runtime.Triple.{outcome_cases}
use realtime_ops_platform.Auth.{limit_key}
use realtime_ops_platform.Http.Replies.{Nest, answer_run, refusal, answer_refuses}
use realtime_ops_platform.Http.Filter.{failure}
use realtime_ops_platform.Http.Routes.{Action, get_health, route_of, Returned}
use realtime_ops_platform.Http.Serving.{
  Request, Settings, limited, authenticate, given_or, handled, serve,
}
use realtime_ops_platform.Http.Guards.{
  Counted, check_rate_counts, check_rate_passes, public_action, IsOperator, guards, counted,
  guards_public, guards_refuse, guards_limit, guards_count, refused_unauthorized,
  admitted-IsOperator, IsOperator-admitted,
}

module _ (nest : Nest) (env : Env) (s : Settings) (request : Request)
    (pipes : Action → Outcome (Unit {0})) (action : Action) (h : List Call) where
  -- the key that the requests to this route are counted under
  abbrev key : String
  key = limit_key (limited request (route_of action))

  abbrev Answers : Run Returned → Type 0
  Answers r = serve env s request nest pipes action h ≡ answer_run nest env request.url r

  -- a request without the token, or without a name of more than one character
  abbrev pub Unauthorized : Type 0
  Unauthorized =
      (¬ ((raw : String) × IsOperator s request raw))
      × ((message : String) × (serve env s request nest pipes action h
            ≡ (ok (failure 401 (refusal env request.url 401 message h)), read_clock ∷ h)))

  -- an operator's, that is refused by the rate limit or for want of it
  abbrev pub Limited : Type 0
  Limited =
      (raw : String) × IsOperator s request raw
      × ((x : Exception) × (g : List Call) × ((g ≡ h) ⊎ Counted key s.window_seconds h g)
          × Answers (err x, g))

  -- an operator's, that goes on to its pipes and, where they let it through, to its method
  abbrev pub Passed : Type 0
  Passed =
      (raw : String) × IsOperator s request raw
      × ((g : List Call) × Counted key s.window_seconds h g
          × Answers (handled env s request pipes action (some (s.lower (s.trim raw))) g))

  serve_run :
      (r : Run (Option String))
      → guards env s request (route_of action) h ≡ r
      → Answers (and_then r (handled env s request pipes action))
  unfolding serve ◌>>=◌
  serve_run r e =
      ap (λ q. answer_run nest env request.url (and_then q (handled env s request pipes action))) e

  private_cases : (route_of action).is_public ≡ false → Unauthorized ⊎ Limited ⊎ Passed
  private_cases private = elim (outcome_cases (authenticate s request (route_of action))) [
    | inr (e, refused) ↦
        let (message, same) = refused_unauthorized s request (route_of action) e refused in
        inl (
          λ (raw, v). cc (IsOperator-admitted s request (route_of action) raw v private),
          (
            message,
            serve_run (err (unauthorized message), h)
                  (guards_refuse env s request (route_of action) h e refused
                    ∙ ap (λ x. (err x, h)) same)
                ∙ answer_refuses nest env request.url (err (unauthorized message), h)
                    (unauthorized message) 401 message refl refl,
          ),
        )
    | inl (operator, admitted) ↦
        let (raw, v, same) =
          admitted-IsOperator s request (route_of action) operator private admitted in
        let count = counted env s request (route_of action) h in
        elim (outcome_cases count.0) [
          | inr (x, e) ↦ inr (
              inl (
                raw,
                v,
                (
                  x,
                  count.1,
                  check_rate_counts env s.max_requests s.window_seconds
                      (limited request (route_of action)) h private,
                  serve_run (err x, count.1)
                      (guards_limit env s request (route_of action) h operator x admitted e),
                ),
              ))
          | inl (b, e) ↦ inr (
              inr (
                raw,
                v,
                (
                  count.1,
                  check_rate_passes env s.max_requests s.window_seconds
                      (limited request (route_of action)) h b private e,
                  serve_run (ok (some (s.lower (s.trim raw))), count.1)
                      (guards_count env s request (route_of action) h operator b admitted e
                        ∙ ap (λ o. (ok (given_or o none), count.1)) same),
                ),
              ))
        ]
  ]

  -- The health check goes on to its pipes and its method whoever asks for it. Every other action is
  -- served in one of three ways. A request without the expected token, or without a name of more than
  -- one character once trimmed, is answered with 401, and only the clock is read for it. One with both is
  -- refused after no call, or after those of the rate limit; or it is counted, and goes on to its pipes
  -- and its method with the operator's name, trimmed and in lower case.
  pub serve_guards :
      ((action ≡ get_health) × Answers (handled env s request pipes action none h))
      ⊎ ((action ≢ get_health) × (Unauthorized ⊎ Limited ⊎ Passed))
  serve_guards = elim (public_action action) [
    | inl health ↦ inl (
      health,
      serve_run (ok none, h)
          (guards_public env s request (route_of action) h
            (ap (λ a. (route_of a).is_public) health)),
    )
    | inr private ↦
        inr (
          λ e. absurd (let public = ap (λ a. (route_of a).is_public) e in cc),
          private_cases private,
        )
  ]

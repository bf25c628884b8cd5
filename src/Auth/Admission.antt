-- ===== src/Auth/Admission.antt =====
-- Who is let in: the guard of the API and the handshake of a socket.
use realtime_ops_platform.Prelude.{
  ℕ, ◌<◌, String, List, ◌∷◌, ◌≡◌, ◌≢◌, refl, Bool, true, false, Option, none, some, arith, eq_iff,
  ◌⊎◌, inl, inr, Bool-cases, Option-cases,
}
use realtime_ops_platform.Runtime.Calls.{Call, named, socket_disconnect, socket_set_operator}
use realtime_ops_platform.Runtime.Monad.{Env, Run, Exception, ok, err, call, ◌>>=◌}
use realtime_ops_platform.Runtime.Triple.{outcome_cases}
use realtime_ops_platform.Runtime.Observe.{joined_rooms}
use realtime_ops_platform.Auth.{
  Given, Handshake, first_given, validate_token, resolve_operator_id, guard_request,
  handshake_token, handshake_operator, welcome, handle_connection,
}

-- A token is valid exactly if it is the expected one, and is not empty.
pub validate_token_lem :
    (expected : String) (token : Option String)
    → validate_token expected token ≡ true
    → (token ≡ some expected) × (expected ≢ "")
unfolding validate_token
validate_token_lem expected (some token) e =
    let same = (eq_iff token expected).0 (ground arith) in
    (cc, λ empty. let blank : token ≡ "" = cc in ground (arith, (eq_iff token "").1 blank))
validate_token_lem expected none e = absurd (cc)

-- When the guard lets a request through, either its route is public and no operator is set on it, or
-- its token is the expected one, which is not empty, and the operator that is set is its operator's
-- header, trimmed and in lower case, of more than one character once trimmed.
pub guard_request_admits :
    (trim lower : String → String) (utf16_length : String → ℕ) (expected : String)
    (is_public : Bool) (token operator_id : Given) {operator : Option String}
    → guard_request trim lower utf16_length expected is_public token operator_id ≡ ok operator
    → ((is_public ≡ true) × (operator ≡ none))
      ⊎ ((first_given token ≡ some expected)
          × (expected ≢ "")
          × ((raw : String) × (first_given operator_id ≡ some raw)
              × (1 < utf16_length (trim raw))
              × (operator ≡ some (lower (trim raw)))))
unfolding guard_request resolve_operator_id
guard_request_admits trim lower utf16_length expected true token operator_id {operator} e =
    inl (refl, ground arith)
guard_request_admits trim lower utf16_length expected false token operator_id {operator} e =
    elim (Bool-cases (validate_token expected (first_given token))) [
      | inr invalid ↦ absurd (ground arith)
      | inl valid ↦ elim (Option-cases (first_given operator_id)) [
        | inl nobody ↦ absurd (ground arith)
        | inr (raw, given) ↦
            let (same, non_empty) = validate_token_lem expected (first_given token) valid in
            inr (same, non_empty, (raw, given, ground arith, ground arith))
      ]
    ]

module _ (env : Env) (lower : String → String) (expected : String) (handshake : Handshake)
    (h : List Call) where
  abbrev connected : Run (Unit {0})
  connected = handle_connection env lower expected handshake h

  -- what becomes of a socket with a valid token
  abbrev pub Admitted : Type 0
  Admitted =
      ((x : Exception) × (handshake_operator handshake ≡ err x) × (connected ≡ (err x, h)))
      ⊎ ((operator : String) × (handshake_operator handshake ≡ ok operator)
          × (((x : Exception) × (env.answer h (socket_set_operator (lower operator)) ≡ err x)
                × (connected ≡ (err x, socket_set_operator (lower operator) ∷ h)))
              ⊎ ((env.answer h (socket_set_operator (lower operator)) ≡ ok tt)
                  × (joined_rooms connected.1 ≡ named "operators" ∷ joined_rooms h))))

  admitted_cases : validate_token expected (handshake_token handshake) ≡ true → Admitted
  unfolding handle_connection welcome ◌>>=◌
  admitted_cases valid = elim (outcome_cases (handshake_operator handshake)) [
    | inr (x, no_text) ↦ inl (x, no_text, ground arith)
    | inl (operator, given) ↦
        elim (outcome_cases (env.answer h (socket_set_operator (lower operator)))) [
          | inr (x, refused) ↦ inr (operator, given, inl (x, refused, ground arith))
          | inl (_, set) ↦ inr (operator, given, inr (ground arith, ground arith))
        ]
  ]

  refused_run :
      validate_token expected (handshake_token handshake) ≡ false
      → connected.1 ≡ socket_disconnect true ∷ h
  unfolding handle_connection call
  refused_run invalid = rw invalid refl

  -- A socket whose token is the expected one, which is not empty, asks to join the room `operators` once,
  -- and no other, after its operator's name has been set in lower case; only where that name is no text,
  -- or could not be set, it throws before that. For a socket whose token is not valid, to disconnect it is
  -- the only call.
  pub handle_connection_admits :
      ((handshake_token handshake ≡ some expected) × (expected ≢ "") × Admitted)
      ⊎ ((validate_token expected (handshake_token handshake) ≡ false)
          × (connected.1 ≡ socket_disconnect true ∷ h))
  handle_connection_admits =
      elim (Bool-cases (validate_token expected (handshake_token handshake))) [
        | inl valid ↦
            let (same, non_empty) = validate_token_lem expected (handshake_token handshake) valid in
            inl (same, non_empty, admitted_cases valid)
        | inr invalid ↦ inr (invalid, refused_run invalid)
      ]

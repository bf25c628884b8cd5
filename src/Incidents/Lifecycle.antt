-- ===== src/Incidents/Lifecycle.antt =====
-- What docs/domain-model.md promises of an incident, as a relation between the states that are
-- written, and the agreement of its columns with its status.
use realtime_ops_platform.Prelude.{
  arith, false, ℕ, String, List, ◌∷◌, ◌≡◌, ◌≢◌, ◌∙◌, Option, none, some, ◌⊎◌, inl, inr, All, sym,
  subst,
}
use realtime_ops_platform.Core.Enums.{IncidentStatus, opened, acknowledged, resolved, is_resolved}
use realtime_ops_platform.Core.Entities.{IncidentEntity, AlertPatch}
use realtime_ops_platform.Runtime.Calls.{Call}
use realtime_ops_platform.Runtime.Monad.{Outcome, ok}
use realtime_ops_platform.Runtime.Observe.{saved_incidents}

-- what no step changes
pub record SameIncident (j k : IncidentEntity) : Type 0 where
  pub id : k.id ≡ j.id
  pub alert_id : k.alert_id ≡ j.alert_id
  pub title : k.title ≡ j.title
  pub summary : k.summary ≡ j.summary
  pub created_at : k.created_at ≡ j.created_at

-- The operator is named, with a date.
abbrev pub IsSigned : Option String → Option ℕ → String → Type 0
IsSigned by at operator_id = (by ≡ some operator_id) × ((t : ℕ) × (at ≡ some t))

-- From `open`, or by another operator from `acknowledged`, on which docs/domain-model.md is silent.
pub record Acknowledges (operator_id : String) (j k : IncidentEntity) : Type 0 where
  pub same : SameIncident j k
  pub before : j.status ≢ resolved
  pub status : k.status ≡ acknowledged
  pub signed : IsSigned k.acknowledged_by k.acknowledged_at operator_id
  pub resolved_by : k.resolved_by ≡ j.resolved_by
  pub resolved_at : k.resolved_at ≡ j.resolved_at

-- An incident that is resolved straight from `open` is acknowledged by the same operator.
pub record ResolvesOpen (operator_id : String) (j k : IncidentEntity) : Type 0 where
  pub same : SameIncident j k
  pub before : j.status ≡ opened
  pub status : k.status ≡ resolved
  pub acknowledgement : IsSigned k.acknowledged_by k.acknowledged_at operator_id
  pub signed : IsSigned k.resolved_by k.resolved_at operator_id

pub record ResolvesAcknowledged (operator_id : String) (j k : IncidentEntity) : Type 0 where
  pub same : SameIncident j k
  pub before : j.status ≡ acknowledged
  pub status : k.status ≡ resolved
  pub acknowledged_by : k.acknowledged_by ≡ j.acknowledged_by
  pub acknowledged_at : k.acknowledged_at ≡ j.acknowledged_at
  pub signed : IsSigned k.resolved_by k.resolved_at operator_id

pub data IncidentStep (operator_id : String) (j k : IncidentEntity) : Type 0 where
  acknowledges : Acknowledges operator_id j k → IncidentStep operator_id j k
  resolves_open : ResolvesOpen operator_id j k → IncidentStep operator_id j k
  resolves_acknowledged : ResolvesAcknowledged operator_id j k → IncidentStep operator_id j k

abbrev IsUnsigned : Option String → Option ℕ → Type 0
IsUnsigned by at = (by ≡ none) × (at ≡ none)

-- An incident names who acknowledged it from then on, and who resolved it from then on.
pub record IsConsistent (j : IncidentEntity) : Type 0 where
  pub open_clean :
      j.status ≡ opened
      → IsUnsigned j.acknowledged_by j.acknowledged_at × IsUnsigned j.resolved_by j.resolved_at
  pub acknowledged_signed :
      j.status ≡ acknowledged
      → ((operator_id : String) × IsSigned j.acknowledged_by j.acknowledged_at operator_id)
        × IsUnsigned j.resolved_by j.resolved_at
  pub resolved_signed :
      j.status ≡ resolved
      → ((operator_id : String) × IsSigned j.acknowledged_by j.acknowledged_at operator_id)
        × ((operator_id : String) × IsSigned j.resolved_by j.resolved_at operator_id)

unresolved_clean :
    (j : IncidentEntity) (s : IncidentStatus)
    → j.status ≡ s
    → s ≢ resolved
    → IsConsistent j
    → IsUnsigned j.resolved_by j.resolved_at
unresolved_clean j opened e n c = (c.open_clean e).1
unresolved_clean j acknowledged e n c = (c.acknowledged_signed e).1
unresolved_clean j resolved e n c = absurd (n (cc))

-- A step keeps a consistent incident consistent.
pub IncidentStep-IsConsistent :
    {operator_id : String} {j k : IncidentEntity}
    → IncidentStep operator_id j k
    → IsConsistent j
    → IsConsistent k
IncidentStep-IsConsistent {operator_id} {j} {k} (acknowledges s) c =
    let clean = unresolved_clean j j.status (cc) s.before c in
    record {
      open_clean = λ e. absurd (cc);
      acknowledged_signed =
          λ e. ((operator_id, s.signed), (s.resolved_by ∙ clean.0, s.resolved_at ∙ clean.1));
      resolved_signed = λ e. absurd (cc);
    }
IncidentStep-IsConsistent {operator_id} (resolves_open s) c = record {
  open_clean = λ e. absurd (cc);
  acknowledged_signed = λ e. absurd (cc);
  resolved_signed = λ e. ((operator_id, s.acknowledgement), (operator_id, s.signed));
}
IncidentStep-IsConsistent {operator_id} (resolves_acknowledged s) c =
    let (by, (name, (t, date))) = (c.acknowledged_signed s.before).0 in
    record {
      open_clean = λ e. absurd (cc);
      acknowledged_signed = λ e. absurd (cc);
      resolved_signed = λ e. (
        (by, (s.acknowledged_by ∙ name, (t, s.acknowledged_at ∙ date))),
        (operator_id, s.signed),
      );
    }

-- The calls `h` show no state of an incident written over `js`, or one step from the incident that
-- was found.
abbrev pub Moves :
    String → Outcome (Option IncidentEntity) → List IncidentEntity → List Call → Type 0
Moves operator_id (ok (some found)) js h =
    (saved_incidents h ≡ js)
    ⊎ ((k : IncidentEntity) × IncidentStep operator_id found k × (saved_incidents h ≡ k ∷ js))
Moves operator_id _ js h = saved_incidents h ≡ js

-- the alert updates that stand for the alert of an incident, over those from before
abbrev pub with_linked :
    Option String → AlertPatch → List (String × AlertPatch) → List (String × AlertPatch)
with_linked none patch before = before
with_linked (some alert_id) patch before = (alert_id, patch) ∷ before

pub is_resolved-false :
    (incident : IncidentEntity) → incident.status ≢ resolved → is_resolved incident.status ≡ false
is_resolved-false incident n = ground arith

pub is_resolved_cases :
    (incident : IncidentEntity) → (incident.status ≢ resolved) ⊎ (incident.status ≡ resolved)
is_resolved_cases incident = ground arith

-- An action that moves a consistent incident asks to write consistent ones only.
pub Moves-IsConsistent :
    (operator_id : String) (found : IncidentEntity) (js : List IncidentEntity) (h : List Call)
    → Moves operator_id (ok (some found)) js h
    → IsConsistent found
    → All IsConsistent js
    → All IsConsistent (saved_incidents h)
Moves-IsConsistent operator_id found js h (inl e) c cs = subst (All IsConsistent) (sym e) cs
Moves-IsConsistent operator_id found js h (inr (k, s, e)) c cs =
    subst (All IsConsistent) (sym e) (IncidentStep-IsConsistent s c, cs)

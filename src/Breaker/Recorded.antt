-- ===== src/Breaker/Recorded.antt =====
-- crates/risk/src/circuit_breaker.rs: what a move of the machine does to each recorded time.
use sinan.Prelude.{ℕ, ◌+◌, ℤ, List, [], Option, none, some, sym, subst, arith, ◌≤ℤ◌}
use sinan.Breaker.Types.{CircuitBreakerPolicy}
use sinan.Breaker.Incident.{CircuitBreakerIncidentEvidence}
use sinan.Breaker.Input.{TransitionRequest}
use sinan.Breaker.State.{CircuitBreakerState}
use sinan.Breaker.Machine.{incident_state}
use sinan.Breaker.Requests.{cleared_state, half_open_state}
use sinan.Breaker.Closing.{closed_state}
use sinan.Breaker.Times.{NotAfter, HasReached}
use sinan.Breaker.Step.{
  Step, stay, incident, exhausted, evidence_cleared, half_opened, reset, counted, evidence_state,
}

-- Where both times are recorded, the second is not before the first.
pub NotBefore : Option ℤ → Option ℤ → Type 0
NotBefore (some u) (some v) = u ≤ℤ v
NotBefore _ _ = Unit

NotBefore-refl : (o : Option ℤ) → NotBefore o o
unfolding NotBefore
NotBefore-refl none = tt
NotBefore-refl (some u) = omega arith

NotBefore-none : (o : Option ℤ) → NotBefore o none
unfolding NotBefore
NotBefore-none none = tt
NotBefore-none (some u) = tt

NotBefore-some : (o : Option ℤ) (t : ℤ) → NotAfter o t → NotBefore o (some t)
unfolding NotBefore
NotBefore-some none t h = tt
NotBefore-some (some u) t h = h

-- A recorded time stays recorded, and does not become earlier.
pub Lasts : Option ℤ → Option ℤ → Type 0
Lasts none o = Unit
Lasts (some u) none = ⊥
Lasts (some u) (some v) = u ≤ℤ v

Lasts-refl : (o : Option ℤ) → Lasts o o
unfolding Lasts
Lasts-refl none = tt
Lasts-refl (some u) = omega arith

Lasts-some : (o : Option ℤ) (t : ℤ) → NotAfter o t → Lasts o (some t)
unfolding Lasts
Lasts-some none t h = tt
Lasts-some (some u) t h = h

-- The recorded times of `t` are those of a later state than `s`.
pub record IsRecordedLater (s t : CircuitBreakerState) : Type 0 where
  pub triggered : Lasts s.triggered_at_ms t.triggered_at_ms
  pub cleared : NotBefore s.incident_evidence_cleared_at_ms t.incident_evidence_cleared_at_ms
  pub half_opened : NotBefore s.half_opened_at_ms t.half_opened_at_ms
  pub reset : NotBefore s.reset_at_ms t.reset_at_ms

IsRecordedLater-refl : (s : CircuitBreakerState) → IsRecordedLater s s
IsRecordedLater-refl s = record {
  triggered = Lasts-refl s.triggered_at_ms;
  cleared = NotBefore-refl s.incident_evidence_cleared_at_ms;
  half_opened = NotBefore-refl s.half_opened_at_ms;
  reset = NotBefore-refl s.reset_at_ms;
}

incident-IsRecordedLater :
    (s : CircuitBreakerState) (epoch : ℕ) (e : CircuitBreakerIncidentEvidence)
    (es : List CircuitBreakerIncidentEvidence) (at : ℤ)
    → HasReached s at
    → IsRecordedLater s (evidence_state s epoch e es at)
unfolding incident_state
incident-IsRecordedLater s epoch e es at r = record {
  triggered = Lasts-some s.triggered_at_ms at r.triggered;
  cleared = NotBefore-none s.incident_evidence_cleared_at_ms;
  half_opened = NotBefore-none s.half_opened_at_ms;
  reset = NotBefore-none s.reset_at_ms;
}

pub Step-IsRecordedLater :
    (p : CircuitBreakerPolicy) (request : TransitionRequest) (now : ℤ) (s t : CircuitBreakerState)
    → Step p request now s t
    → IsRecordedLater s t
unfolding cleared_state half_open_state closed_state
Step-IsRecordedLater p request now s t (stay e) =
    subst (IsRecordedLater s) (sym e) (IsRecordedLater-refl s)
Step-IsRecordedLater p request now s t (incident e es at _ _ reached _ q) =
    subst (IsRecordedLater s) (sym q)
      (incident-IsRecordedLater s (s.recovery_epoch + 1) e es at reached)
Step-IsRecordedLater p request now s t (exhausted e at _ _ reached _ q) =
    subst (IsRecordedLater s) (sym q) (incident-IsRecordedLater s s.recovery_epoch e [] at reached)
Step-IsRecordedLater p request now s t (evidence_cleared _ reached _ _ q) =
    subst (IsRecordedLater s) (sym q) (record {
      triggered = Lasts-refl s.triggered_at_ms;
      cleared = NotBefore-some s.incident_evidence_cleared_at_ms now reached.cleared;
      half_opened = NotBefore-refl s.half_opened_at_ms;
      reset = NotBefore-refl s.reset_at_ms;
    })
Step-IsRecordedLater p request now s t (half_opened input _ reached _ _ q) =
    subst (IsRecordedLater s) (sym q) (record {
      triggered = Lasts-refl s.triggered_at_ms;
      cleared = NotBefore-refl s.incident_evidence_cleared_at_ms;
      half_opened = NotBefore-some s.half_opened_at_ms now reached.half_opened;
      reset = NotBefore-refl s.reset_at_ms;
    })
Step-IsRecordedLater p request now s t (reset by _ reached _ _ _ q) =
    subst (IsRecordedLater s) (sym q) (record {
      triggered = Lasts-refl s.triggered_at_ms;
      cleared = NotBefore-refl s.incident_evidence_cleared_at_ms;
      half_opened = NotBefore-none s.half_opened_at_ms;
      reset = NotBefore-some s.reset_at_ms now reached.reset;
    })
Step-IsRecordedLater p request now s t (counted n h q) = subst (IsRecordedLater s) (sym q) (record {
  triggered = Lasts-refl s.triggered_at_ms;
  cleared = NotBefore-refl s.incident_evidence_cleared_at_ms;
  half_opened = NotBefore-refl s.half_opened_at_ms;
  reset = NotBefore-refl s.reset_at_ms;
})

-- ===== src/Breaker/Durability.antt =====
-- crates/risk/src/circuit_breaker.rs: every move of the machine keeps `IsDurable`.
use sinan.Prelude.{
  ℕ, ◌+◌, ◌<◌, ℤ, String, [], ◌∷◌, true, false, Option, none, some, ◌≡◌, refl, sym, subst, inl, inr,
  arith, is_negative, ok, is_some, is_blank, Bool-cases, decide_refl, decide_ne,
}
use sinan.Breaker.Types.{
  CircuitBreakerPolicy, opened, half_open, CircuitBreakerReason, CircuitBreakerReason-discrete,
  CircuitBreakerTriggerSource-discrete,
}
use sinan.Breaker.Incident.{CircuitBreakerIncidentEvidence, CircuitBreakerIncidentFingerprint}
use sinan.Breaker.Input.{CircuitBreakerInput, TransitionRequest}
use sinan.Breaker.State.{CircuitBreakerState, is_active}
use sinan.Breaker.Evidence.{
  incident_evidence_reason, incident_evidence_source, incident_evidence_has_blank_text,
}
use sinan.Breaker.Machine.{incident_state}
use sinan.Breaker.Requests.{cleared_state, half_open_state}
use sinan.Breaker.Closing.{closed_state}
use sinan.Breaker.Snapshot.{
  check_trigger, check_reason, check_reset, check_by_status, check_status, check_presence,
  blank_operator, check_source, check_primary, check_fingerprint, check_order,
}
use sinan.Breaker.Fingerprints.{Evident}
use sinan.Breaker.Times.{HasReached}
use sinan.Breaker.Step.{
  Step, stay, incident, exhausted, evidence_cleared, half_opened, reset, counted, evidence_state,
}
use sinan.Breaker.Durable.{IsDurable, check_evidence-ok}

incident_evidence_reason-not_okay :
    (e : CircuitBreakerIncidentEvidence)
    → ¬ (incident_evidence_reason e ≡ CircuitBreakerReason.okay)
unfolding incident_evidence_reason
incident_evidence_reason-not_okay e h = ground arith

blank_operator-source :
    (e : CircuitBreakerIncidentEvidence)
    → incident_evidence_has_blank_text e ≡ false
    → blank_operator (incident_evidence_source e) ≡ false
unfolding incident_evidence_has_blank_text incident_evidence_source blank_operator
blank_operator-source e h = ground arith

incident_fingerprint-ok :
    (s : CircuitBreakerState) (epoch : ℕ) (e : CircuitBreakerIncidentEvidence)
    (es : CircuitBreakerIncidentFingerprint) (at : ℤ)
    → Evident 0 (e ∷ es)
    → check_fingerprint (some (e ∷ es)) (evidence_state s epoch e es at) ≡ ok tt
unfolding check_fingerprint check_primary is_active incident_state
incident_fingerprint-ok s epoch e es at h = rw (
  check_evidence-ok 0 [] (e ∷ es) tt h,
  decide_refl CircuitBreakerReason-discrete (incident_evidence_reason e),
  decide_refl CircuitBreakerTriggerSource-discrete (incident_evidence_source e),
)

incident-IsDurable :
    (s : CircuitBreakerState) (epoch : ℕ) (e : CircuitBreakerIncidentEvidence)
    (es : CircuitBreakerIncidentFingerprint) (at : ℤ)
    → Evident 0 (e ∷ es)
    → is_negative at ≡ false
    → 0 < epoch
    → IsDurable (evidence_state s epoch e es at)
unfolding check_trigger check_reason check_reset check_status check_by_status check_presence
    check_source check_order is_active incident_state
incident-IsDurable s epoch e es at h nonneg positive = record {
  triggered_nonneg = nonneg;
  cleared_nonneg = tt;
  half_opened_nonneg = tt;
  reset_nonneg = tt;
  trigger = ground arith;
  cause = rw (
      decide_ne CircuitBreakerReason-discrete (incident_evidence_reason e) CircuitBreakerReason.okay
        (incident_evidence_reason-not_okay e));
  reset_data = refl;
  by_status = refl;
  presence = refl;
  source = rw (blank_operator-source e h.1);
  fingerprint = incident_fingerprint-ok s epoch e es at h;
  order = refl;
  epoch = λ on. positive;
}

-- The check of a fingerprint is kept where the reason and the source stay, or the breaker closes.
keep-fingerprint :
    (fp : Option CircuitBreakerIncidentFingerprint) (s t : CircuitBreakerState)
    → (is_active t.status ≡ true
        → (t.reason ≡ s.reason) × (t.triggered_by ≡ s.triggered_by) × (is_active s.status ≡ true))
    → check_fingerprint fp s ≡ ok tt
    → check_fingerprint fp t ≡ ok tt
unfolding check_fingerprint check_primary
keep-fingerprint none s t h k = refl
keep-fingerprint (some []) s t h k = cc
keep-fingerprint (some (e ∷ es)) s t h k = elim (Bool-cases (is_active t.status)) [
  | inl on ↦ let f = h on in ground arith
  | inr off ↦ ground arith
]

-- The checks that a state passed before the move, read as facts about its fields.
module _ (s : CircuitBreakerState) (v : IsDurable s) (now : ℤ) (nonneg : is_negative now ≡ false)
    (reached : HasReached s now) where
  cleared-IsDurable :
      s.status ≡ opened
      → is_some s.last_incident_fingerprint ≡ true
      → IsDurable (cleared_state s now)
  unfolding cleared_state check_status check_by_status check_presence check_fingerprint check_order
      is_active check_trigger check_reset check_reason check_source
  cleared-IsDurable at seen = record {
    triggered_nonneg = v.triggered_nonneg;
    cleared_nonneg = nonneg;
    half_opened_nonneg = v.half_opened_nonneg;
    reset_nonneg = v.reset_nonneg;
    trigger = v.trigger;
    cause = v.cause;
    reset_data = v.reset_data;
    by_status = ground (arith, v.by_status);
    presence = ground arith;
    source = v.source;
    fingerprint = refl;
    order = ground (arith, v.by_status, reached.triggered, v.order);
    epoch = v.epoch;
  }

  half_open-IsDurable :
      (input : CircuitBreakerInput) → s.status ≡ opened → IsDurable (half_open_state s input now)
  unfolding half_open_state check_status check_by_status check_presence check_order is_active
      check_trigger check_reset check_reason check_source
  half_open-IsDurable input at = record {
    triggered_nonneg = v.triggered_nonneg;
    cleared_nonneg = v.cleared_nonneg;
    half_opened_nonneg = nonneg;
    reset_nonneg = v.reset_nonneg;
    trigger = v.trigger;
    cause = ground (arith, v.cause);
    reset_data = v.reset_data;
    by_status = ground (arith, v.by_status);
    presence = ground (arith, v.presence);
    source = v.source;
    fingerprint =
        keep-fingerprint s.last_incident_fingerprint s (half_open_state s input now)
          (λ on. (refl, refl, rw at)) v.fingerprint;
    order = ground (arith, v.by_status, reached.triggered, reached.cleared, v.order);
    epoch = λ on. v.epoch (rw at);
  }

  closed-IsDurable :
      (by : String) → s.status ≡ half_open → is_blank by ≡ false → IsDurable (closed_state s by now)
  unfolding closed_state check_status check_by_status check_presence check_order is_active
      check_trigger check_reset check_reason check_source
  closed-IsDurable by at named = record {
    triggered_nonneg = v.triggered_nonneg;
    cleared_nonneg = v.cleared_nonneg;
    half_opened_nonneg = tt;
    reset_nonneg = nonneg;
    trigger = v.trigger;
    cause = rw (decide_refl CircuitBreakerReason-discrete CircuitBreakerReason.okay);
    reset_data = rw named;
    by_status = let positive = v.epoch (rw at) in ground arith;
    presence = ground (arith, v.presence);
    source = v.source;
    fingerprint =
        keep-fingerprint s.last_incident_fingerprint s (closed_state s by now) (λ on. cc)
          v.fingerprint;
    order = ground (arith, reached.triggered, reached.cleared, v.order);
    epoch = λ on. cc;
  }

counted-IsDurable :
    (s : CircuitBreakerState) (n : ℕ)
    → IsDurable s
    → IsDurable (record s { blocked_intent_count = n })
unfolding check_status check_by_status check_presence check_order is_active check_trigger
    check_reset check_reason check_source
counted-IsDurable s n v = record {
  triggered_nonneg = v.triggered_nonneg;
  cleared_nonneg = v.cleared_nonneg;
  half_opened_nonneg = v.half_opened_nonneg;
  reset_nonneg = v.reset_nonneg;
  trigger = v.trigger;
  cause = v.cause;
  reset_data = v.reset_data;
  by_status = ground (arith, v.by_status);
  presence = v.presence;
  source = v.source;
  fingerprint =
      keep-fingerprint s.last_incident_fingerprint s (record s { blocked_intent_count = n })
        (λ on. (refl, refl, on)) v.fingerprint;
  order = v.order;
  epoch = v.epoch;
}

pub Step-IsDurable :
    (p : CircuitBreakerPolicy) (request : TransitionRequest) (now : ℤ) (s t : CircuitBreakerState)
    → Step p request now s t
    → IsDurable s
    → IsDurable t
Step-IsDurable p request now s t (stay e) v = subst IsDurable (sym e) v
Step-IsDurable p request now s t (incident e es at evident nonneg reached room q) v =
    subst IsDurable (sym q)
      (incident-IsDurable s (s.recovery_epoch + 1) e es at evident nonneg (omega arith))
Step-IsDurable p request now s t (exhausted e at evident nonneg reached full q) v =
    subst IsDurable (sym q)
      (incident-IsDurable s s.recovery_epoch e [] at evident nonneg (omega arith))
Step-IsDurable p request now s t (evidence_cleared nonneg reached at seen q) v =
    subst IsDurable (sym q) (cleared-IsDurable s v now nonneg reached at seen)
Step-IsDurable p request now s t (half_opened input nonneg reached at entry q) v =
    subst IsDurable (sym q) (half_open-IsDurable s v now nonneg reached input at)
Step-IsDurable p request now s t (reset by nonneg reached at named closing q) v =
    subst IsDurable (sym q) (closed-IsDurable s v now nonneg reached by at named)
Step-IsDurable p request now s t (counted n h q) v =
    subst IsDurable (sym q) (counted-IsDurable s n v)

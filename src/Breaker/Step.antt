-- ===== src/Breaker/Step.antt =====
-- crates/risk/src/circuit_breaker.rs: the moves of the state machine as a relation. Each constructor
-- gives the whole new state, and the conditions under which the move is made.
use sinan.Prelude.{
  ℕ, ◌+◌, ◌<◌, ℤ, String, List, [], ◌∷◌, true, false, some, ◌≡◌, is_negative, is_some, is_blank,
  u64_max, ok, keep_if, ltb_ℤ, wrapping_sub,
}
use sinan.Breaker.Types.{CircuitBreakerPolicy, opened, half_open}
use sinan.Breaker.Incident.{CircuitBreakerIncidentEvidence, CircuitBreakerViolation}
use sinan.Breaker.Input.{
  CircuitBreakerInput, TransitionRequest, HalfOpenReadiness, RecoveryHealth, ManualResetEvidence,
  ResetAuthorization,
}
use sinan.Breaker.Policy.{missing_half_open_prerequisites, validate_manual_reset_evidence}
use sinan.Breaker.Detect.{collect_violations, is_blocking}
use sinan.Breaker.State.{CircuitBreakerState}
use sinan.Breaker.Evidence.{incident_evidence_reason, incident_evidence_source}
use sinan.Breaker.Machine.{incident_state}
use sinan.Breaker.Requests.{cleared_state, half_open_state}
use sinan.Breaker.Closing.{closed_state, close_violations}
use sinan.Breaker.Fingerprints.{Evident}
use sinan.Breaker.Times.{HasReached}

abbrev pub evidence_state :
    CircuitBreakerState
    → ℕ
    → CircuitBreakerIncidentEvidence
    → List CircuitBreakerIncidentEvidence
    → ℤ
    → CircuitBreakerState
evidence_state s epoch e es at =
    incident_state s epoch (incident_evidence_reason e) (incident_evidence_source e) (e ∷ es) at

-- What `enter_half_open` has found when it enters the half-open state.
pub record Enters (p : CircuitBreakerPolicy) (request : TransitionRequest) (s : CircuitBreakerState)
    (input : CircuitBreakerInput) (now : ℤ) : Type 0 where
  pub readiness : HalfOpenReadiness
  pub asked : request ≡ TransitionRequest.enter_half_open readiness input
  pub triggered_at : ℤ
  pub was_triggered : s.triggered_at_ms ≡ some triggered_at
  pub same_epoch : readiness.recovery_epoch ≡ s.recovery_epoch
  pub complete : missing_half_open_prerequisites readiness triggered_at now ≡ ok []
  pub violations : List CircuitBreakerViolation
  pub collected : collect_violations p input now ≡ ok violations
  pub unblocked : keep_if is_blocking violations ≡ []

-- Who may reset the breaker, and under which name.
pub data Authorizes (p : CircuitBreakerPolicy) (by : String) : ResetAuthorization → Type 0 where
  by_policy : p.auto_reset ≡ true → by ≡ "AUTOMATIC" → Authorizes p by ResetAuthorization.automatic
  by_operator :
      (e : ManualResetEvidence)
      → validate_manual_reset_evidence e ≡ ok tt
      → by ≡ e.operator_id
      → Authorizes p by (ResetAuthorization.operator e)

-- What `close` has found when it resets the breaker.
pub record Closes (p : CircuitBreakerPolicy) (request : TransitionRequest) (s : CircuitBreakerState)
    (by : String) (now : ℤ) : Type 0 where
  pub health : RecoveryHealth
  pub authorization : ResetAuthorization
  pub asked : request ≡ TransitionRequest.close health authorization
  pub half_opened_at : ℤ
  pub was_half_opened : s.half_opened_at_ms ≡ some half_opened_at
  pub waited : ltb_ℤ (wrapping_sub now half_opened_at) p.half_open_observation_ms ≡ false
  pub no_violation : close_violations p s health now ≡ ok []
  pub clock_healthy : health.clock_healthy ≡ true
  pub state_store_healthy : health.state_store_healthy ≡ true
  pub authorized : Authorizes p by authorization

pub data Step (p : CircuitBreakerPolicy) (request : TransitionRequest) (now : ℤ)
    (s t : CircuitBreakerState) : Type 0 where
  stay : t ≡ s → Step p request now s t
  incident :
      (e : CircuitBreakerIncidentEvidence) (es : List CircuitBreakerIncidentEvidence) (at : ℤ)
      → Evident 0 (e ∷ es)
      → is_negative at ≡ false
      → HasReached s at
      → s.recovery_epoch < u64_max
      → t ≡ evidence_state s (s.recovery_epoch + 1) e es at
      → Step p request now s t
  exhausted :
      (e : CircuitBreakerIncidentEvidence) (at : ℤ)
      → Evident 0 (e ∷ [])
      → is_negative at ≡ false
      → HasReached s at
      → ¬ (s.recovery_epoch < u64_max)
      → t ≡ evidence_state s s.recovery_epoch e [] at
      → Step p request now s t
  evidence_cleared :
      is_negative now ≡ false
      → HasReached s now
      → s.status ≡ opened
      → is_some s.last_incident_fingerprint ≡ true
      → t ≡ cleared_state s now
      → Step p request now s t
  half_opened :
      (input : CircuitBreakerInput)
      → is_negative now ≡ false
      → HasReached s now
      → s.status ≡ opened
      → Enters p request s input now
      → t ≡ half_open_state s input now
      → Step p request now s t
  reset :
      (by : String)
      → is_negative now ≡ false
      → HasReached s now
      → s.status ≡ half_open
      → is_blank by ≡ false
      → Closes p request s by now
      → t ≡ closed_state s by now
      → Step p request now s t
  counted :
      (n : ℕ)
      → s.blocked_intent_count < n
      → t ≡ record s { blocked_intent_count = n }
      → Step p request now s t
